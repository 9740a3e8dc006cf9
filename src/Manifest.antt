-- ===== src/Manifest.antt =====
-- crates/filesync/src/manifest.rs: what to send to a peer, and what a deletion vetoes.
pub mod Scan
pub mod SendList
pub mod Resurrection
use byte_hive.Base.{ℕ, Bool, true, false, ◌&&◌, ◌||◌, not, Option, none, some, List, [], ◌∷◌, Text}
use byte_hive.Base.{ltb, leb, if◌then◌else◌, ◌==◌, nat_eq, list_eq, is_some}
use byte_hive.Base.Dict
use byte_hive.Base.Dict.{Dict}
use byte_hive.Base.Paths.{FilePath, component_eq}
use byte_hive.Protocol.{FileMetadata, Manifest, Hash}
use byte_hive.Hex.{hex}
use byte_hive.Ledger
use byte_hive.Ledger.{Tombstone, DeletionLedger}

-- The `match` of `compute_send_list`: is the local file sent, given the remote one?
unfoldable pub sends : Bool → FileMetadata → Option FileMetadata → Bool
sends is_server lm none = true
sends is_server lm (some rm) =
    if lm.hash == rm.hash
    then false
    else if ltb rm.modified_ms lm.modified_ms
    then true
    else lm.modified_ms == rm.modified_ms && is_server

send_loop : Dict FilePath FileMetadata → Dict FilePath FileMetadata → Bool → List FilePath
unfolding sends
send_loop [] remote is_server = []
send_loop ((path, lm) ∷ files) remote is_server =
    let rest = send_loop files remote is_server in
    if sends is_server lm (Dict.lookup path remote) then path ∷ rest else rest

unfoldable pub compute_send_list : Manifest → Manifest → Bool → List FilePath
unfolding send_loop
compute_send_list local remote is_server = send_loop local.files remote.files is_server

pub data Verdict : Type 0 where
  veto : Verdict
  pass : Verdict
  recreate : Verdict

-- The `hash_matches` and `mtime_not_newer` of `filter_resurrected`.
abbrev pub hash_matches : Option Text → Hash → Bool
hash_matches none hash = true
hash_matches (some prev) hash = hex hash == prev

abbrev pub mtime_not_newer : Option ℕ → ℕ → Bool
mtime_not_newer none modified_ms = true
mtime_not_newer (some prev_mtime) modified_ms = leb modified_ms prev_mtime

-- The branch for an exact tombstone.
exact_verdict : DeletionLedger → FilePath → FileMetadata → Tombstone → Verdict
exact_verdict ledger path lm tomb =
    if ltb tomb.deleted_at_ms lm.modified_ms
    then recreate
    else if Ledger.has_newer_than ledger path lm.modified_ms
    then (if hash_matches tomb.prev_hash lm.hash
          || mtime_not_newer tomb.prev_mtime_ms lm.modified_ms
        then veto
        else pass)
    else pass

-- The branch for the tombstone of an ancestor.
cover_verdict : FileMetadata → Tombstone → Verdict
cover_verdict lm cover =
    if ltb cover.deleted_at_ms lm.modified_ms
    then recreate
    else if ltb lm.modified_ms cover.deleted_at_ms
    then veto
    else pass

-- The body of the loop of `filter_resurrected`.
verdict : Manifest → DeletionLedger → FilePath → Verdict
unfolding exact_verdict cover_verdict Ledger.get Ledger.has_newer_than
verdict local ledger path = elim (Dict.lookup path local.files) [
  | none ↦ pass
  | some lm ↦ elim (Ledger.get ledger path) [
    | some tomb ↦ exact_verdict ledger path lm tomb
    | none ↦ elim (Ledger.covering_tombstone ledger path) [
      | none ↦ pass
      | some cover ↦ cover_verdict lm cover
    ]
  ]
]

abbrev sort_out : FilePath → Verdict → List FilePath × List FilePath → List FilePath × List FilePath
sort_out path veto (to_send, resurrected) = (to_send, resurrected)
sort_out path pass (to_send, resurrected) = (path ∷ to_send, resurrected)
sort_out path recreate (to_send, resurrected) = (path ∷ to_send, path ∷ resurrected)

filter_loop : List FilePath → Manifest → DeletionLedger → List FilePath × List FilePath
unfolding verdict
filter_loop [] local ledger = ([], [])
filter_loop (path ∷ send_list) local ledger =
    sort_out path (verdict local ledger path) (filter_loop send_list local ledger)

unfoldable pub filter_resurrected :
    List FilePath → Manifest → Option DeletionLedger → List FilePath × List FilePath
unfolding filter_loop
filter_resurrected send_list local none = (send_list, [])
filter_resurrected send_list local (some ledger) = filter_loop send_list local ledger

changed_loop : Dict FilePath FileMetadata → Dict FilePath FileMetadata → List FilePath
changed_loop old [] = []
changed_loop old ((path, new_meta) ∷ new) =
    let rest = changed_loop old new in
    elim (Dict.lookup path old) [
      | none ↦ path ∷ rest
      | some old_meta ↦ if old_meta.hash == new_meta.hash then rest else path ∷ rest
    ]

deleted_loop : List FilePath → Dict FilePath FileMetadata → List FilePath
deleted_loop [] new = []
deleted_loop (path ∷ paths) new =
    let rest = deleted_loop paths new in
    if is_some (Dict.lookup path new) then rest else path ∷ rest

unfoldable pub diff_manifests : Manifest → Manifest → List FilePath × List FilePath
unfolding changed_loop deleted_loop
diff_manifests old new =
    (changed_loop old.files new.files, deleted_loop (Dict.keys old.files) new.files)
