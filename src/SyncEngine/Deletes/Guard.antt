-- ===== src/SyncEngine/Deletes/Guard.antt =====
-- The live-action guard of `apply_deletes` in sync_engine.rs, over all the paths of a deletion.
use byte_hive.Base.{ℕ, Bool, true, false, some, List, [], ◌∷◌, Text, ◌≡◌, refl}
use byte_hive.Base.{arith, if◌then◌else◌, list_eq}
use byte_hive.Base.Dict
use byte_hive.Base.Paths.{FilePath, component_eq}
use byte_hive.Protocol.{FileMetadata}
use byte_hive.SyncEngine.{Fs, SyncEngine}
use byte_hive.SyncEngine.Actions.{schedule_unsuppress_deletes}
use byte_hive.SyncEngine.Admission.{ledger_mut}
use byte_hive.SyncEngine.Sound.{flush_ledger-manifest}
use byte_hive.SyncEngine.Deletes.{
  Deleting, Staged, delete_path, delete_paths, commit_staged, record_staged, apply_deletes,
  subtree_of, protected_in,
}
use byte_hive.SyncEngine.Deletes.Recreated.{
  TrashesOnly, Recreated, delete_subtree-Recreated, contains-protected_in,
}

schedule-manifest :
    {W : Type 0} (ps : List FilePath) (s : SyncEngine W)
    → (schedule_unsuppress_deletes ps s).manifest ≡ s.manifest
schedule-manifest [] s = refl
schedule-manifest (p ∷ ps) s = refl

commit_staged-manifest :
    (F : Fs) (at : ℕ) (deleter : Text) (ts : List Staged) (s : SyncEngine F.World)
    → (commit_staged F at deleter ts s).manifest ≡ s.manifest
unfolding commit_staged
commit_staged-manifest F at deleter [] s = refl
commit_staged-manifest F at deleter (t ∷ ts) s =
    flush_ledger-manifest F (ledger_mut (λ l. (record_staged F at deleter (t ∷ ts) l, true)) s)

module _ (F : Fs) (trashes : TrashesOnly F) (at : ℕ) (k : FilePath) (m : FileMetadata) where
  record Held (d : Deleting F.World) : Type 0 where
    recreated : Recreated F at k m d.engine

  if-Held : (b : Bool) (x y : Deleting F.World) → Held x → Held y → Held (if b then x else y)
  if-Held true x y h i = h
  if-Held false x y h i = i

  delete_path-Held :
      (rel : FilePath) (d : Deleting F.World) → Held d → Held (delete_path F at rel d)
  unfolding delete_path
  delete_path-Held rel d h =
      if-Held _ _ _
        (record {
          recreated =
              delete_subtree-Recreated F trashes at k m rel
                (protected_in d.engine.ledger at (subtree_of rel d.engine.manifest.files)) d
                (contains-protected_in F trashes at k m d.engine rel h.recreated) h.recreated;
        })
        h

  delete_paths-Held :
      (rels : List FilePath) (d : Deleting F.World) → Held d → Held (delete_paths F at rels d)
  unfolding delete_paths
  delete_paths-Held [] d h = h
  delete_paths-Held (rel ∷ rels) d h =
      delete_paths-Held rels (delete_path F at rel d) (delete_path-Held rel d h)

  -- A path whose live action is at least as new as a received deletion keeps its manifest entry,
  -- whatever paths the deletion names: the path itself, its ancestors, or anything else, in any
  -- order. The engine has an entry for the path, the ancestors of the path are directories on disk,
  -- and moving something to the trash leaves the directories that are not below it.
  pub apply_deletes-Recreated :
      (rels : List FilePath) (deleter : Text) (s : SyncEngine F.World)
      → Recreated F at k m s
      → Dict.lookup k (apply_deletes F rels at deleter s).0.manifest.files ≡ some m
  unfolding apply_deletes
  apply_deletes-Recreated rels deleter s h = ground (
    arith,
    schedule-manifest done.removed (commit_staged F at deleter done.tombstones done.engine),
    commit_staged-manifest F at deleter done.tombstones done.engine,
    Recreated.present (Held.recreated (delete_paths-Held rels started (record { recreated = h }))),
  )
    where
      started : Deleting F.World
      started = record { engine = s; removed = []; count = 0; tombstones = [] }

      done : Deleting F.World
      done = delete_paths F at rels started
