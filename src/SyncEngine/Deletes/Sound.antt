-- ===== src/SyncEngine/Deletes/Sound.antt =====
-- `apply_deletes` of sync_engine.rs, and the engine's invariant.
use byte_hive.Base.{ℕ, refl, Bool, true, false, List, [], ◌∷◌, list_eq}
use byte_hive.Base.{Text, if◌then◌else◌}
use byte_hive.Base.Dict
use byte_hive.Base.Dict.{Dict}
use byte_hive.Base.Paths.{FilePath, component_eq}
use byte_hive.Protocol.{FileMetadata}
use byte_hive.Ledger
use byte_hive.Ledger.{DeletionLedger}
use byte_hive.Ledger.Invariant
use byte_hive.Ledger.Invariant.{IsLive}
use byte_hive.SyncEngine.{Fs, SyncEngine}
use byte_hive.SyncEngine.Actions.{suppress_delete}
use byte_hive.SyncEngine.Sound.{
  IsSound, IsTidy, erase-IsTidy, retain-IsTidy, flush_ledger-IsSound,
  schedule_unsuppress_deletes-IsSound,
}
use byte_hive.SyncEngine.Deletes.{
  Deleting, Staged, suppress_all, erase_all, with_files, delete_whole, delete_target,
  delete_targets, delete_subtree, delete_path, delete_paths, record_staged, commit_staged,
  apply_deletes,
}

module _ {W : Type 0} where
  suppress_all-IsSound :
      (ps : List FilePath) (s : SyncEngine W) → IsSound s → IsSound (suppress_all ps s)
  unfolding suppress_all
  suppress_all-IsSound [] s h = h
  suppress_all-IsSound (p ∷ ps) s h =
      suppress_all-IsSound ps (suppress_delete p s)
        (record { live = h.live; tidy = h.tidy; transfers = h.transfers })

  with_files-IsSound :
      (files : Dict FilePath FileMetadata) (s : SyncEngine W) (w : W)
      → IsTidy files
      → IsSound s
      → IsSound (with_files files (record s { world = w }))
  unfolding with_files
  with_files-IsSound files s w t h = record { live = h.live; tidy = t; transfers = h.transfers }

erase_all-IsTidy :
    (ps : List FilePath) (files : Dict FilePath FileMetadata)
    → IsTidy files
    → IsTidy (erase_all ps files)
unfolding erase_all
erase_all-IsTidy [] files h = h
erase_all-IsTidy (p ∷ ps) files h =
    erase_all-IsTidy ps (Dict.erase p files) (erase-IsTidy p files h)

if-IsTidy :
    (b : Bool) (x y : Dict FilePath FileMetadata)
    → IsTidy x
    → IsTidy y
    → IsTidy (if b then x else y)
if-IsTidy true x y h k = h
if-IsTidy false x y h k = k

record_staged-IsLive :
    (F : Fs) (at : ℕ) (deleter : Text) (ts : List Staged) (l : DeletionLedger)
    → IsLive l
    → IsLive (record_staged F at deleter ts l)
unfolding record_staged Ledger.record_tombstone
record_staged-IsLive F at deleter [] l h = h
record_staged-IsLive F at deleter (t ∷ ts) l h =
    record_staged-IsLive F at deleter ts _ (Invariant.offer-IsLive l t.path _ refl h)

module _ (F : Fs) where
  delete_whole-IsSound :
      (rel : FilePath) (subtree : List FilePath) (d : Deleting F.World)
      → IsSound d.engine
      → IsSound (delete_whole F rel subtree d).engine
  unfolding delete_whole
  delete_whole-IsSound rel subtree d h =
      let k = suppress_all-IsSound subtree d.engine h in
      with_files-IsSound _ (suppress_all subtree d.engine) _
        (if-IsTidy _ _ _ (erase_all-IsTidy subtree _ k.tidy) (erase-IsTidy rel _ k.tidy)) k

  -- The local variables hold a sound engine.
  record Fine (d : Deleting F.World) : Type 0 where
    sound : IsSound d.engine

  record FinePair (x : Deleting F.World × List FilePath) : Type 0 where
    sound : IsSound x.0.engine

  if-FinePair :
      (b : Bool) (x y : Deleting F.World × List FilePath)
      → FinePair x
      → FinePair y
      → FinePair (if b then x else y)
  if-FinePair true x y h k = h
  if-FinePair false x y h k = k

  if-Fine : (b : Bool) (x y : Deleting F.World) → Fine x → Fine y → Fine (if b then x else y)
  if-Fine true x y h k = h
  if-Fine false x y h k = k

  delete_target-FinePair :
      (protected : List FilePath) (target : FilePath) (acc : Deleting F.World × List FilePath)
      → FinePair acc
      → FinePair (delete_target F protected target acc)
  unfolding delete_target
  delete_target-FinePair protected target (d, gone) h = if-FinePair _ _ _ h (
      if-FinePair _ _ _ h (record {
        sound =
            with_files-IsSound _ (suppress_delete target d.engine) _
              (retain-IsTidy _ d.engine.manifest.files h.sound.tidy)
              (record { live = h.sound.live; tidy = h.sound.tidy; transfers = h.sound.transfers });
      }))

  delete_targets-FinePair :
      (protected targets : List FilePath) (acc : Deleting F.World × List FilePath)
      → FinePair acc
      → FinePair (delete_targets F protected targets acc)
  unfolding delete_targets
  delete_targets-FinePair protected [] acc h = h
  delete_targets-FinePair protected (t ∷ ts) acc h =
      delete_targets-FinePair protected ts _ (delete_target-FinePair protected t acc h)

  delete_subtree-IsSound :
      (rel : FilePath) (subtree protected : List FilePath) (d : Deleting F.World)
      → IsSound d.engine
      → IsSound (delete_subtree F rel subtree protected d).engine
  unfolding delete_subtree
  delete_subtree-IsSound rel subtree [] d h = delete_whole-IsSound rel subtree d h
  delete_subtree-IsSound rel subtree (q ∷ qs) d h =
      (delete_targets-FinePair (q ∷ qs) _ (d, []) (record { sound = h })).sound

  delete_path-Fine :
      (at : ℕ) (rel : FilePath) (d : Deleting F.World) → Fine d → Fine (delete_path F at rel d)
  unfolding delete_path
  delete_path-Fine at rel d h =
      if-Fine _ _ _ (record { sound = delete_subtree-IsSound rel _ _ d h.sound }) h

  delete_paths-Fine :
      (at : ℕ) (ps : List FilePath) (d : Deleting F.World) → Fine d → Fine (delete_paths F at ps d)
  unfolding delete_paths
  delete_paths-Fine at [] d h = h
  delete_paths-Fine at (p ∷ ps) d h =
      delete_paths-Fine at ps (delete_path F at p d) (delete_path-Fine at p d h)

  commit_staged-IsSound :
      (at : ℕ) (deleter : Text) (ts : List Staged) (s : SyncEngine F.World)
      → IsSound s
      → IsSound (commit_staged F at deleter ts s)
  unfolding commit_staged
  commit_staged-IsSound at deleter [] s h = h
  commit_staged-IsSound at deleter (t ∷ ts) s h = flush_ledger-IsSound F _ (record {
    live = record_staged-IsLive F at deleter (t ∷ ts) s.ledger h.live;
    tidy = h.tidy;
    transfers = h.transfers;
  })

  -- A delete from a peer, whatever paths it names, leaves the engine sound if it was.
  pub apply_deletes-IsSound :
      (ps : List FilePath) (at : ℕ) (deleter : Text) (s : SyncEngine F.World)
      → IsSound s
      → IsSound (apply_deletes F ps at deleter s).0
  unfolding apply_deletes
  apply_deletes-IsSound ps at deleter s h = schedule_unsuppress_deletes-IsSound _ _ (
      commit_staged-IsSound at deleter _ _ (delete_paths-Fine at ps _ (record { sound = h })).sound)
