-- ===== src/SyncEngine/Rename.antt =====
-- `apply_rename_at` of sync_engine.rs.
pub mod Sound
use byte_hive.Base.{
  ℕ, Bool, true, false, ◌&&◌, ◌||◌, not, Option, none, some, List, [], ◌∷◌, ◌++◌, Text,
}
use byte_hive.Base.{if◌then◌else◌, ◌==◌, list_eq}
use byte_hive.Base.Dict
use byte_hive.Base.Dict.{Dict}
use byte_hive.Base.Paths.{FilePath, component_eq, strip_prefix}
use byte_hive.Protocol.{FileMetadata, Manifest}
use byte_hive.SyncEngine.{
  Fs, SyncEngine, Io, io, ◌>>=◌, ◌>>◌, pure, fail, state, modify, if_some, set_insert,
}
use byte_hive.SyncEngine.Paths.{safe_relative}
use byte_hive.SyncEngine.Admission.{veto_for, admit_record, flush_ledger}
use byte_hive.SyncEngine.Actions.{suppress, schedule_unsuppress, create_parent, attempt}
use byte_hive.SyncEngine.Deletes.{apply_deletes}

-- Where a manifest key goes, if it lies in the renamed subtree.
unfoldable pub remap : FilePath → FilePath → FilePath → Option FilePath
remap source target k =
    if k == source
    then some target
    else elim (strip_prefix k source) [ none ↦ none | some stripped ↦ some (target ++ stripped) ]

unfoldable pub rename_pairs : FilePath → FilePath → List FilePath → List (FilePath × FilePath)
unfolding remap
rename_pairs source target [] = []
rename_pairs source target (k ∷ ks) =
    let rest = rename_pairs source target ks in
    elim (remap source target k) [ none ↦ rest | some k' ↦ (k, k') ∷ rest ]

suppress_pairs : {W : Type 0} → List (FilePath × FilePath) → SyncEngine W → SyncEngine W
suppress_pairs [] s = s
suppress_pairs ((old, new) ∷ rest) s = suppress_pairs rest (suppress new (suppress old s))

both : List (FilePath × FilePath) → List FilePath → List FilePath
both [] paths = paths
both ((old, new) ∷ rest) paths = both rest (set_insert new (set_insert old paths))

or_keep : Option ℕ → ℕ → ℕ
or_keep none m = m
or_keep (some m) _ = m

module _ (F : Fs) where
  open F use {World}

  -- The entry at its new path. A directory's mtime is read from disk, and a file's too if
  -- `refresh_files`.
  moved_meta : Bool → FilePath → FileMetadata → SyncEngine World → FileMetadata
  moved_meta refresh_files new meta s =
      if meta.is_dir || refresh_files
      then record meta {
        rel_path = new;
        modified_ms = or_keep (F.modified_ms s.world (s.root ++ new)) meta.modified_ms;
      }
      else record meta { rel_path = new }

  move_entry : Bool → FilePath → FilePath → SyncEngine World → SyncEngine World
  move_entry refresh_files old new s = elim (Dict.lookup old s.manifest.files) [
    | none ↦ s
    | some meta ↦ record s {
      manifest = record s.manifest {
        files =
            Dict.insert new (moved_meta refresh_files new meta s) (Dict.erase old s.manifest.files);
      };
    }
  ]

  move_entries : Bool → List (FilePath × FilePath) → SyncEngine World → SyncEngine World
  move_entries refresh_files [] s = s
  move_entries refresh_files ((old, new) ∷ rest) s =
      move_entries refresh_files rest (move_entry refresh_files old new s)

  -- The source is gone: converge the manifest if the target is there.
  converge : FilePath → List (FilePath × FilePath) → SyncEngine World → SyncEngine World
  converge dst pairs s =
      if F.exists s.world dst
      then schedule_unsuppress (both pairs []) (suppress_pairs pairs (move_entries false pairs s))
      else s

  -- `fs::rename`, whose failure is an error only if the target is not there.
  rename_on_disk : FilePath → FilePath → Io World (Unit {0})
  rename_on_disk src dst = do
    done ← attempt (F.rename src dst)
    s ← state
    if done then pure tt else if F.exists s.world dst then pure tt else fail io

  rename_present :
      FilePath → FilePath → List (FilePath × FilePath) → FilePath → FilePath → Io World (Unit {0})
  rename_present source target pairs src dst = do
    modify (suppress source)
    modify (suppress target)
    modify (suppress_pairs pairs)
    create_parent F dst
    rename_on_disk src dst
    modify (move_entries true pairs)
    modify (schedule_unsuppress (both pairs (set_insert target (set_insert source []))))

  rename_admitted : FilePath → FilePath → Io World (Unit {0})
  rename_admitted source target = do
    s ← state
    let src = s.root ++ source
    let dst = s.root ++ target
    let pairs = rename_pairs source target (Dict.keys s.manifest.files)
    if F.exists s.world src
        then rename_present source target pairs src dst
        else modify (converge dst pairs)

  pub apply_rename_at : FilePath → FilePath → ℕ → Text → Io World (Unit {0})
  apply_rename_at source target action_ms deleter = do
    s ← state
    if safe_relative source && safe_relative target
        then (if_some (veto_for s.ledger target (some action_ms) 0)
            (λ _. modify (λ t. (apply_deletes F (source ∷ []) action_ms deleter t).0))
            (do
              modify (admit_record target (some action_ms) 0)
              modify (flush_ledger F)
              rename_admitted source target))
        else pure tt
