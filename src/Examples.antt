-- ===== src/Examples.antt =====
-- Concrete inputs of the theorems.
pub mod Leases
pub mod Ledger
pub mod Guards
pub mod Logs
pub mod Elections
pub mod Files
pub mod Nodes
pub mod Graphs
pub mod Projections
pub mod Restarts
