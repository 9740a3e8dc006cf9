-- ===== src/SyncEngine/Actions/Keeping.antt =====
-- The shared steps of sync_engine.rs, and the engine's invariant.
use byte_hive.Base.Paths.{FilePath}
use byte_hive.SyncEngine.{Fs, Io}
use byte_hive.SyncEngine.Sound.{Keeps, keeps_rules}
use byte_hive.SyncEngine.Actions.{create_parent, conflict_copy}

module _ (F : Fs) where
  pub Keeps-create_parent : (p : FilePath) → Keeps (create_parent F p)
  unfolding create_parent
  Keeps-create_parent p = search keeps_rules

  pub Keeps-conflict_copy :
      (make_dir : FilePath → Io F.World (Unit {0})) (rel full : FilePath)
      → ((p : FilePath) → Keeps (make_dir p))
      → Keeps (conflict_copy F make_dir rel full)
  unfolding conflict_copy
  Keeps-conflict_copy make_dir rel full k = search keeps_rules depth 8
