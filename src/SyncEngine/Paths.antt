-- ===== src/SyncEngine/Paths.antt =====
-- The path helpers of sync_engine.rs.
use byte_hive.Base.{ℕ, zero, suc, ◌+◌, ◌/◌, ◌%◌, Bool, true, false, Option, none, some, List, []}
use byte_hive.Base.{◌∷◌, ◌++◌, Text, codes, all, reverse, if◌then◌else◌, ◌==◌, nat_eq, list_eq, ltb}
use byte_hive.Base.Paths.{FilePath, Component, prefix, root_dir, cur_dir, parent_dir, normal}
use byte_hive.Protocol.{Hash}
use byte_hive.Hex.{hex}

abbrev pub is_normal : Component → Bool
is_normal prefix = false
is_normal root_dir = false
is_normal cur_dir = false
is_normal parent_dir = false
is_normal (normal name) = true

unfoldable pub safe_relative : FilePath → Bool
safe_relative p = all is_normal p

-- `TMP_DIR`: `.bh_filesync/transfers`
abbrev pub tmp_dir : FilePath
tmp_dir = normal (codes ".bh_filesync") ∷ normal (codes "transfers") ∷ []

-- What `staging_path` feeds to the hasher.
staging_key : FilePath → List ℕ
staging_key [] = []
staging_key (normal s ∷ p) = s ++ (codes "/" ++ staging_key p)
staging_key (_ ∷ p) = staging_key p

unfoldable pub staging_path : (List ℕ → Hash) → FilePath → FilePath → FilePath
unfolding staging_key
staging_path blake3 root rel =
    root ++ (tmp_dir ++ (normal (hex (blake3 (staging_key rel)) ++ codes ".part") ∷ []))

-- The decimal digits of `format!("{n}")` for a `u64`; twenty of them are enough.
digits : ℕ → ℕ → Text → Text
digits zero n out = out
digits (suc fuel) n out =
    let more = digits fuel (n / 10) ((48 + n % 10) ∷ out) in
    if ltb n 10 then (48 + n % 10) ∷ out else more

unfoldable pub decimal : ℕ → Text
unfolding digits
decimal n = digits 20 n []

-- The part of a name before its last dot, reversed, and the part behind it; none if it has no dot.
last_dot : Text → Text → Option (Text × Text)
last_dot [] ext = none
last_dot (c ∷ rest) ext =
    let next = last_dot rest (c ∷ ext) in if c == 46 then some (rest, ext) else next

with_dot : Text → Option (Text × Text) → Text × Option Text
with_dot name none = (name, none)
with_dot name (some ([], ext)) = (name, none)
with_dot name (some (before, ext)) = (reverse before, some ext)

-- `file_stem` and `extension` of a file name
unfoldable pub split_name : Text → Text × Option Text
unfolding last_dot with_dot
split_name name =
    if name == codes ".." then (name, none) else with_dot name (last_dot (reverse name) [])

with_ext : Text → Option Text → Text
with_ext name none = name
with_ext name (some ext) = name ++ (codes "." ++ ext)

conflict_name : Text × Option Text → Text → ℕ → Text
unfolding decimal with_ext
conflict_name (stem, ext) node_id secs =
    with_ext
      (stem ++ (codes " (conflict " ++ (decimal secs ++ (codes " " ++ (node_id ++ codes ")"))))) ext

-- A path with no file name has the stem "file"; its parent is all but its last component.
unfoldable pub conflict_copy_name : FilePath → Text → ℕ → FilePath
unfolding conflict_name split_name
conflict_copy_name [] node_id secs = normal (conflict_name (codes "file", none) node_id secs) ∷ []
conflict_copy_name (normal name ∷ []) node_id secs =
    normal (conflict_name (split_name name) node_id secs) ∷ []
conflict_copy_name (_ ∷ []) node_id secs =
    normal (conflict_name (codes "file", none) node_id secs) ∷ []
conflict_copy_name (c ∷ d ∷ p) node_id secs = c ∷ conflict_copy_name (d ∷ p) node_id secs
