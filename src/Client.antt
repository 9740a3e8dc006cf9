-- ===== src/Client.antt =====
-- crates/filesync/src/client.rs: what a client does in a session with the server, of which the
-- deletions that the server has missed.
pub mod Missed
use byte_hive.Base.{ℕ, Bool, true, false, Option, none, some, List, [], ◌∷◌, Text}
use byte_hive.Base.{ltb, if◌then◌else◌, is_some, list_eq}
use byte_hive.Base.Dict
use byte_hive.Base.Dict.{Dict}
use byte_hive.Base.Order.{path_lt}
use byte_hive.Base.Paths.{FilePath, component_eq}
use byte_hive.Protocol.{FileMetadata, Manifest}
use byte_hive.Ledger.{Tombstone, DeletionLedger}

-- Whether the body of the loop pushes a tombstone, by what both sides list at its path.
unfoldable pub is_owed : Option FileMetadata → Option FileMetadata → Tombstone → Bool
is_owed (some lm) peer tomb = false
is_owed none none tomb = false
is_owed none (some peer_meta) tomb = ltb peer_meta.modified_ms tomb.deleted_at_ms

unfoldable pub owed_loop : Manifest → Manifest → Dict FilePath Tombstone → Dict FilePath (ℕ × Text)
unfolding is_owed
owed_loop local remote [] = []
owed_loop local remote ((path, tomb) ∷ entries) =
    let rest = owed_loop local remote entries in
    if is_owed (Dict.lookup path local.files) (Dict.lookup path remote.files) tomb
    then (path, (tomb.deleted_at_ms, tomb.deleter_node)) ∷ rest
    else rest

-- `sort_by` on the path, which is stable.
unfoldable pub insert_sorted :
    FilePath → ℕ × Text → Dict FilePath (ℕ × Text) → Dict FilePath (ℕ × Text)
insert_sorted path v [] = (path, v) ∷ []
insert_sorted path v ((q, w) ∷ d) =
    let later = insert_sorted path v d in
    if path_lt q path then (q, w) ∷ later else (path, v) ∷ (q, w) ∷ d

unfoldable pub sort_by_path : Dict FilePath (ℕ × Text) → Dict FilePath (ℕ × Text)
unfolding insert_sorted
sort_by_path [] = []
sort_by_path ((path, v) ∷ d) = insert_sorted path v (sort_by_path d)

unfoldable pub compute_deletes_to_push :
    Manifest → Manifest → DeletionLedger → Dict FilePath (ℕ × Text)
unfolding owed_loop sort_by_path
compute_deletes_to_push local remote ledger = sort_by_path (owed_loop local remote ledger.entries)
