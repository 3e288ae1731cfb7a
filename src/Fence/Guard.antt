-- ===== src/Fence/Guard.antt =====
-- src/ha/fence.rs: the executor's guard, which refuses commands with a stale fence. The two
-- directories of the guard are maps from file names to contents; what the file system does to a
-- read or a write is an argument.
pub mod Accepts
pub mod Keeps
pub mod Largest
use rdsctl.Base.{
  leb, ◌==◌, if◌then◌else◌, take, Text, codes, trim, ℕ, Bool, true, false, ◌&&◌, ◌||◌, not, Option,
  none, some, [], ◌∷◌, ◌++◌, map, text_key,
}
use rdsctl.Base.Map
use rdsctl.Base.Map.{Map}
use rdsctl.Fence.{Fence, fence_eq, fence_lt}
use rdsctl.Fence.Wire
use rdsctl.Sha256.{digest, to_hex}

pub data IoKind : Type 0 where
  permission_denied other : IoKind

-- The outcome of `write_seen`: success; an error before the temporary file is touched; one behind its
-- creation, which leaves it with that many bytes of the line (none yet, or all of them when the sync
-- or the rename fails); or one of the directory's sync after the rename.
pub data Outcome : Type 0 where
  written : Outcome
  failed_before : IoKind → Outcome
  failed_between : ℕ → IoKind → Outcome
  failed_after : IoKind → Outcome

-- The `&'static str` of a refusal.
pub data Reason : Type 0 where
  shard_differs below_seen not_permitted not_synced : Reason

pub record StaleFence : Type 0 where
  pub key : Text
  pub seen_fence : Option Fence
  pub incoming : Fence
  pub reason : Reason

pub record Guard : Type 0 where
  pub fence_seen : Map Text Text
  pub idem : Map Text Text

is_ascii_alphanumeric : ℕ → Bool
is_ascii_alphanumeric c =
    (leb b'0' c && leb c b'9') || (leb b'A' c && leb c b'Z') || (leb b'a' c && leb c b'z')

clean_char : ℕ → ℕ
unfolding is_ascii_alphanumeric
clean_char c = if is_ascii_alphanumeric c || c == b'.' || c == b'_' || c == b'-' then c else b'_'

all_dots : Text → Bool
all_dots [] = true
all_dots (c ∷ s) = let rest = all_dots s in if c == b'.' then rest else false

-- `safe_key`: other characters become `_`; an empty name, or one of dots only, is hashed.
unfoldable pub safe_key : Text → Text
unfolding clean_char all_dots
safe_key key =
    let cleaned = map clean_char key in
    if all_dots cleaned then b'k' ∷ take 16 (to_hex (digest key)) else cleaned

-- The name up to its last dot; a name without one, or with none but at its start, has no extension.
strip_extension : Text → Option Text
strip_extension [] = none
strip_extension (c ∷ s) = elim (strip_extension s) [
  | some stem ↦ some (c ∷ stem)
  | none ↦ if c == b'.' then some [] else none
]

abbrev stem_or : Text → Option Text → Text
stem_or name none = name
stem_or name (some []) = name
stem_or name (some (c ∷ s)) = c ∷ s

-- `path.with_extension("tmp")`.
unfoldable pub tmp_name : Text → Text
unfolding strip_extension
tmp_name name = stem_or name (strip_extension name) ++ codes ".tmp"

abbrev parse_file : Option Text → Option Fence
parse_file none = none
parse_file (some raw) = Wire.parse (trim raw)

-- The fence that the file of a key holds.
unfoldable pub held : Guard → Text → Option Fence
held g key = parse_file (Map.get (safe_key key) g.fence_seen)

-- `seen`: a file that is there and cannot be read counts as none, as does a missing one.
unfoldable pub seen : Bool → Guard → Text → Option Fence
unfolding held
seen true g key = held g key
seen false g key = none

-- The temporary file is written and renamed to the key's file.
replace_file : Guard → Text → Text → Guard
replace_file g name line = record g {
  fence_seen = Map.insert name line (Map.remove (tmp_name name) g.fence_seen);
}

-- The temporary file alone is written.
leave_tmp : Guard → Text → Text → Guard
leave_tmp g name content = record g { fence_seen = Map.insert (tmp_name name) content g.fence_seen }

-- `write_seen`.
write_seen : Guard → Text → Fence → Outcome → Guard × Option IoKind
unfolding replace_file leave_tmp
write_seen g key fence written = (replace_file g (safe_key key) (Wire.wire fence ++ 10 ∷ []), none)
write_seen g key fence (failed_before e) = (g, some e)
write_seen g key fence (failed_between k e) =
    (leave_tmp g (safe_key key) (take k (Wire.wire fence ++ 10 ∷ [])), some e)
write_seen g key fence (failed_after e) =
    (replace_file g (safe_key key) (Wire.wire fence ++ 10 ∷ []), some e)

abbrev reason_of : IoKind → Reason
reason_of permission_denied = not_permitted
reason_of other = not_synced

abbrev map_err : Text → Option Fence → Fence → Guard × Option IoKind → Guard × Option StaleFence
map_err key s incoming (g, none) = (g, none)
map_err key s incoming (g, some e) =
    (g, some (record { key = key; seen_fence = s; incoming = incoming; reason = reason_of e }))

raise : Guard → Text → Fence → Outcome → Option Fence → Guard × Option StaleFence
unfolding write_seen
raise g key incoming out none = map_err key none incoming (write_seen g key incoming out)
raise g key incoming out (some s) =
    if not (s.shard == incoming.shard)
    then (
      g,
      some (record { key = key; seen_fence = some s; incoming = incoming; reason = shard_differs }),
    )
    else if fence_lt incoming s
    then (
      g,
      some (record { key = key; seen_fence = some s; incoming = incoming; reason = below_seen }),
    )
    else if fence_eq incoming s
    then (g, none)
    else map_err key (some s) incoming (write_seen g key incoming out)

-- `check_and_raise`: the guard afterwards, and the error if the command is refused. `readable` tells
-- whether the file of the key can be read.
unfoldable pub check_and_raise : Guard → Text → Fence → Bool → Outcome → Guard × Option StaleFence
unfolding raise seen
check_and_raise g key incoming readable out = raise g key incoming out (seen readable g key)

-- `idem_get`, of a file that can be read or cannot, and a successful `idem_put`.
unfoldable pub idem_get : Bool → Guard → Text → Option Text
idem_get true g idem = Map.get (safe_key idem) g.idem
idem_get false g idem = none

unfoldable pub idem_put : Guard → Text → Text → Guard
idem_put g idem body = record g {
  idem = Map.insert (safe_key idem) body (Map.remove (tmp_name (safe_key idem)) g.idem);
}

abbrev fence_max : Option Fence → Option Fence → Option Fence
fence_max m none = m
fence_max none (some f) = some f
fence_max (some m) (some f) = if fence_lt f m then some m else some f

max_from : Option Fence → Map Text Text → Option Fence
max_from m [] = m
max_from m ((name, raw) ∷ files) = max_from (fence_max m (Wire.parse (trim raw))) files

-- `seen_max`: there is none if the directory or any of its files cannot be read.
unfoldable pub seen_max : Bool → Guard → Option Fence
unfolding max_from
seen_max true g = max_from none g.fence_seen
seen_max false g = none
