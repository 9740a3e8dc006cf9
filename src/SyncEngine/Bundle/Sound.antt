-- ===== src/SyncEngine/Bundle/Sound.antt =====
-- `apply_bundle` of sync_engine.rs, and the engine's invariant.
use byte_hive.Base.{◌≡◌, true, List, [], ◌∷◌}
use byte_hive.Base.Paths.{FilePath}
use byte_hive.Protocol.{FileData, FileBundle}
use byte_hive.SyncEngine.{Fs, SyncEngine}
use byte_hive.SyncEngine.Paths.{safe_relative}
use byte_hive.SyncEngine.Sound.{
  IsSound, Keeps, keeps_rules, admit_record-IsSound, flush_ledger-IsSound, manifest_insert-IsSound,
  Keeps-if, Keeps-state, Keeps-bind, Keeps-pure, Keeps-if_some,
}
use byte_hive.SyncEngine.Actions.Keeping.{Keeps-create_parent, Keeps-conflict_copy}
use byte_hive.SyncEngine.Bundle.{
  Progress, start, check_conflict, write_file, apply_admitted, apply_file, apply_files,
  apply_bundle,
}

module _ (F : Fs) where
  Keeps-check_conflict :
      (fd : FileData) (full : FilePath) (g : Progress) → Keeps (check_conflict F fd full g)
  unfolding check_conflict
  Keeps-check_conflict fd full g =
      Keeps-if _ _ _ (λ e. Keeps-pure g)
        (Keeps-state _ (λ s h.
          Keeps-if_some _ _ _
            (λ a e.
              Keeps-bind _ _ (Keeps-conflict_copy F _ _ _ (Keeps-create_parent F))
                (λ c. Keeps-pure _))
            (Keeps-pure g)))

  Keeps-write_file :
      (fd : FileData) (full : FilePath) (g : Progress) → Keeps (write_file F fd full g)
  unfolding write_file
  Keeps-write_file fd full g = search (keeps_rules, Keeps-if, Keeps-create_parent F)

  Keeps-apply_admitted :
      (fd : FileData) (g : Progress)
      → safe_relative fd.metadata.rel_path ≡ true
      → Keeps (apply_admitted F fd g)
  unfolding apply_admitted
  Keeps-apply_admitted fd g safe = Keeps-state _ (λ s h.
      search
        (
          keeps_rules, admit_record-IsSound, manifest_insert-IsSound, Keeps-check_conflict,
          Keeps-write_file, safe,
        )
        depth 12)

  Keeps-apply_file : (fd : FileData) (g : Progress) → Keeps (apply_file F fd g)
  unfolding apply_file
  Keeps-apply_file fd g = Keeps-state _ (λ s h.
      Keeps-if _ _ _
        (λ safe. Keeps-if_some _ _ _ (λ a e. Keeps-pure g) (Keeps-apply_admitted fd g safe))
        (Keeps-pure g))

  Keeps-apply_files : (files : List FileData) (g : Progress) → Keeps (apply_files F files g)
  unfolding apply_files
  Keeps-apply_files [] g = Keeps-pure g
  Keeps-apply_files (fd ∷ files) g =
      Keeps-bind _ _ (Keeps-apply_file fd g) (λ g'. Keeps-apply_files files g')

  -- A bundle from a peer, whatever it holds and whether or not the file system fails on the way,
  -- leaves the engine sound if it was: no unsafe path enters the manifest, each entry stands once and
  -- under its own path, and the ledger keeps its invariant.
  pub Keeps-apply_bundle :
      (bundle : FileBundle) (s : SyncEngine F.World)
      → IsSound s
      → IsSound (apply_bundle F bundle s).1
  unfolding apply_bundle
  Keeps-apply_bundle bundle =
      (let k : Keeps (apply_bundle F bundle) =
          Keeps-bind _ _ (Keeps-apply_files bundle.files start)
            (λ g. search (keeps_rules, flush_ledger-IsSound) depth 8) in
        k).at
