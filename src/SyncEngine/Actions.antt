-- ===== src/SyncEngine/Actions.antt =====
-- The steps that the engine's operations share: calls of the file system, suppression, conflict
-- copies.
pub mod Keeping
use byte_hive.Base.{ℕ, ◌+◌, Bool, true, false, Option, none, some, List, [], ◌∷◌, ◌++◌, Text}
use byte_hive.Base.{if◌then◌else◌, ◌==◌, list_eq, nat_eq}
use byte_hive.Base.Dict
use byte_hive.Base.Paths.{FilePath, root_dir, normal, prefix, cur_dir, parent_dir, component_eq}
use byte_hive.Protocol.{FileMetadata, Hash}
use byte_hive.SyncEngine.{
  Fs, SyncEngine, Timer, unsuppress, unsuppress_deletes, Io, ok, err, io, ◌>>=◌, ◌>>◌, pure, state,
  if_some, set_insert,
}
use byte_hive.SyncEngine.Paths.{conflict_copy_name}

-- `Path::parent`
unfoldable pub parent : FilePath → Option FilePath
parent [] = none
parent (root_dir ∷ []) = none
parent (c ∷ []) = some []
parent (c ∷ d ∷ p) =
    let rest = parent (d ∷ p) in elim rest [ none ↦ some [] | some q ↦ some (c ∷ q) ]

-- A call of the file system under `?`, one whose failure is only logged, and one with no result.
unfoldable pub try_op : {W : Type 0} → (W → W × Bool) → Io W (Unit {0})
try_op op s = let (w, done) = op s.world in (if done then ok tt else err io, record s { world = w })

unfoldable pub attempt : {W : Type 0} → (W → W × Bool) → Io W Bool
attempt op s = let (w, done) = op s.world in (ok done, record s { world = w })

unfoldable pub run : {W : Type 0} → (W → W) → Io W (Unit {0})
run op s = (ok tt, record s { world = op s.world })

abbrev pub suppress : {W : Type 0} → FilePath → SyncEngine W → SyncEngine W
suppress p s = record s { suppressed = set_insert p s.suppressed }

abbrev pub suppress_delete : {W : Type 0} → FilePath → SyncEngine W → SyncEngine W
suppress_delete p s = record s { suppressed_deletes = set_insert p s.suppressed_deletes }

abbrev pub schedule_unsuppress : {W : Type 0} → List FilePath → SyncEngine W → SyncEngine W
schedule_unsuppress [] s = s
schedule_unsuppress (p ∷ paths) s = record s { timers = unsuppress (p ∷ paths) ∷ s.timers }

abbrev pub schedule_unsuppress_deletes : {W : Type 0} → List FilePath → SyncEngine W → SyncEngine W
schedule_unsuppress_deletes [] s = s
schedule_unsuppress_deletes (p ∷ paths) s = record s {
  timers = unsuppress_deletes (p ∷ paths) ∷ s.timers;
}

abbrev pub manifest_insert : {W : Type 0} → FilePath → FileMetadata → SyncEngine W → SyncEngine W
manifest_insert p m s = record s {
  manifest = record s.manifest { files = Dict.insert p m s.manifest.files };
}

pub record ConflictInfo : Type 0 where
  pub original_path : FilePath
  pub conflict_copy_path : FilePath

module _ (F : Fs) where
  open F use {World}

  pub create_parent : FilePath → Io World (Unit {0})
  create_parent p = if_some (parent p) (λ q. try_op (F.create_dir_all q)) (pure tt)

  -- `detect_conflict`: the manifest's hash, where the incoming file, the file on disk and the
  -- manifest's all differ.
  unfoldable pub detect_conflict : FilePath → FilePath → Hash → SyncEngine World → Option Hash
  detect_conflict rel full incoming_hash s = elim (Dict.lookup rel s.manifest.files) [
    | none ↦ none
    | some m ↦ if incoming_hash == m.hash then none else elim (F.hash_file s.world full) [
      | none ↦ none
      | some on_disk ↦
          if on_disk == m.hash then none else if on_disk == incoming_hash then none else some m.hash
    ]
  ]

  -- The copy of a diverged local file; the directory is made by `make_dir`.
  pub conflict_copy :
      (FilePath → Io World (Unit {0})) → FilePath → FilePath → Io World (Option ConflictInfo)
  conflict_copy make_dir rel full = do
    s ← state
    let copy_rel = conflict_copy_name rel s.node_id (F.now_secs s.world)
    let copy_full = s.root ++ copy_rel
    make_dir copy_full
    copied ← attempt (F.copy full copy_full)
    pure (
        if copied
        then some (record { original_path = rel; conflict_copy_path = copy_rel })
        else none)
