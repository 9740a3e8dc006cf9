-- ===== src/SyncEngine/Deletes.antt =====
-- `apply_deletes` of sync_engine.rs.
pub mod Sound
pub mod Subtree
pub mod Recreated
pub mod Guard
use byte_hive.Base.{ℕ, zero, suc, ◌+◌, Bool, true, false, ◌&&◌, not, Option, none, some, List, []}
use byte_hive.Base.{◌∷◌, ◌++◌, Text, if◌then◌else◌, ltb, leb, length, contains, select, any, ◌==◌}
use byte_hive.Base.{list_eq}
use byte_hive.Base.Dict
use byte_hive.Base.Dict.{Dict}
use byte_hive.Base.Paths.{FilePath, component_eq, starts_with}
use byte_hive.Protocol.{FileMetadata, Manifest}
use byte_hive.Ledger
use byte_hive.Ledger.{DeletionLedger}
use byte_hive.SyncEngine.{Fs, SyncEngine, set_insert}
use byte_hive.SyncEngine.Paths.{safe_relative}
use byte_hive.SyncEngine.Admission.{ledger_mut, flush_ledger, prev_of}
use byte_hive.SyncEngine.Actions.{suppress_delete, schedule_unsuppress_deletes}

-- A tombstone that is staged until the end: its path, and what the manifest said of it.
pub record Staged : Type 0 where
  pub path : FilePath
  pub prev_hash : Option Text
  pub prev_mtime_ms : Option ℕ

-- The local variables of `apply_deletes`. `removed` is kept free of duplicates, and its order, which
-- the timer does not read, is not modelled.
pub record Deleting (W : Type 0) : Type 0 where
  pub engine : SyncEngine W
  pub removed : List FilePath
  pub count : ℕ
  pub tombstones : List Staged

-- The path, and every manifest key strictly below it.
unfoldable pub subtree_of : FilePath → Dict FilePath FileMetadata → List FilePath
subtree_of rel files = rel ∷ select (λ k. not (k == rel) && starts_with k rel) (Dict.keys files)

unfoldable pub protected_in : DeletionLedger → ℕ → List FilePath → List FilePath
protected_in ledger deleted_at_ms =
    select
      (λ p. ltb 0 (Ledger.alive_since ledger p) && leb deleted_at_ms (Ledger.alive_since ledger p))

suppress_all : {W : Type 0} → List FilePath → SyncEngine W → SyncEngine W
suppress_all [] s = s
suppress_all (p ∷ ps) s = suppress_all ps (suppress_delete p s)

add_all : List FilePath → List FilePath → List FilePath
add_all [] set = set
add_all (p ∷ ps) set = add_all ps (set_insert p set)

pub erase_all : List FilePath → Dict FilePath FileMetadata → Dict FilePath FileMetadata
erase_all [] files = files
erase_all (p ∷ ps) files = erase_all ps (Dict.erase p files)

-- `sort_by_key` on the number of components
insert_shallow : FilePath → List FilePath → List FilePath
insert_shallow p [] = p ∷ []
insert_shallow p (q ∷ qs) =
    let rest = insert_shallow p qs in if leb (length p) (length q) then p ∷ q ∷ qs else q ∷ rest

pub shallow_first : List FilePath → List FilePath
unfolding insert_shallow
shallow_first [] = []
shallow_first (p ∷ ps) = insert_shallow p (shallow_first ps)

with_files : {W : Type 0} → Dict FilePath FileMetadata → SyncEngine W → SyncEngine W
with_files files s = record s { manifest = record s.manifest { files = files } }

module _ (F : Fs) where
  open F use {World}

  -- No path of the subtree was recreated.
  delete_whole : FilePath → List FilePath → Deleting World → Deleting World
  delete_whole rel subtree d =
      let s = suppress_all subtree d.engine in
      let full = s.root ++ rel in
      let files =
        if F.is_dir s.world full
        then erase_all subtree s.manifest.files
        else Dict.erase rel s.manifest.files in
      record d {
        engine = with_files files (record s { world = F.move_to_trash full rel s.node_id s.world });
        removed = add_all subtree d.removed;
      }

  -- One target of the loop over what is not protected, and the paths gone with it.
  delete_target :
      List FilePath → FilePath → Deleting World × List FilePath → Deleting World × List FilePath
  delete_target protected target (d, gone) =
      let s = suppress_delete target d.engine in
      let full = s.root ++ target in
      if any (λ g. starts_with target g) gone
      then (d, gone)
      else if F.is_dir s.world full
          && any (λ q. not (q == target) && starts_with q target) protected
      then (d, gone)
      else (
        record d {
          engine =
              with_files (Dict.retain (λ k _. not (starts_with k target)) s.manifest.files)
                (record s { world = F.move_to_trash full target s.node_id s.world });
          removed = set_insert target d.removed;
        },
        gone ++ target ∷ [],
      )

  delete_targets :
      List FilePath
      → List FilePath
      → Deleting World × List FilePath
      → Deleting World × List FilePath
  delete_targets protected [] acc = acc
  delete_targets protected (t ∷ ts) acc =
      delete_targets protected ts (delete_target protected t acc)

  -- One branch or the other of the test `protected.is_empty()`.
  pub delete_subtree : FilePath → List FilePath → List FilePath → Deleting World → Deleting World
  delete_subtree rel subtree [] d = delete_whole rel subtree d
  delete_subtree rel subtree (q ∷ qs) d =
      (delete_targets (q ∷ qs) (shallow_first (select (λ p. not (contains (q ∷ qs) p)) subtree))
        (d, [])).0

  -- The body of the loop over the paths.
  pub delete_path : ℕ → FilePath → Deleting World → Deleting World
  delete_path deleted_at_ms rel d =
      if safe_relative rel
      then (let s = d.engine in
          let subtree = subtree_of rel s.manifest.files in
          let (prev_hash, prev_mtime_ms) = prev_of (Dict.lookup rel s.manifest.files) in
          let d' = delete_subtree rel subtree (protected_in s.ledger deleted_at_ms subtree) d in
          record d' {
            count = d'.count + 1;
            tombstones =
                d'.tombstones
                ++ record { path = rel; prev_hash = prev_hash; prev_mtime_ms = prev_mtime_ms } ∷ [];
          })
      else d

  delete_paths : ℕ → List FilePath → Deleting World → Deleting World
  delete_paths deleted_at_ms [] d = d
  delete_paths deleted_at_ms (p ∷ ps) d =
      delete_paths deleted_at_ms ps (delete_path deleted_at_ms p d)

  record_staged : ℕ → Text → List Staged → DeletionLedger → DeletionLedger
  record_staged deleted_at_ms deleter [] l = l
  record_staged deleted_at_ms deleter (t ∷ ts) l =
      record_staged deleted_at_ms deleter ts
        (Ledger.record_tombstone l t.path deleted_at_ms deleter t.prev_hash t.prev_mtime_ms)

  -- The `if !tombstones.is_empty()`.
  commit_staged : ℕ → Text → List Staged → SyncEngine World → SyncEngine World
  commit_staged deleted_at_ms deleter [] s = s
  commit_staged deleted_at_ms deleter (t ∷ ts) s =
      flush_ledger F (ledger_mut (λ l. (record_staged deleted_at_ms deleter (t ∷ ts) l, true)) s)

  pub apply_deletes : List FilePath → ℕ → Text → SyncEngine World → SyncEngine World × ℕ
  apply_deletes paths deleted_at_ms deleter s =
      let d =
        delete_paths deleted_at_ms paths
          (record { engine = s; removed = []; count = 0; tombstones = [] }) in
      (
        schedule_unsuppress_deletes d.removed
            (commit_staged deleted_at_ms deleter d.tombstones d.engine),
        d.count,
      )
