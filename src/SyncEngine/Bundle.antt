-- ===== src/SyncEngine/Bundle.antt =====
-- `apply_bundle` of sync_engine.rs.
pub mod Sound
use byte_hive.Base.{ℕ, ◌+◌, Bool, true, false, Option, none, some, List, [], ◌∷◌, ◌++◌}
use byte_hive.Base.{if◌then◌else◌, leb, length}
use byte_hive.Base.Dict
use byte_hive.Base.Paths.{FilePath}
use byte_hive.Protocol.{FileMetadata, FileData, FileBundle}
use byte_hive.SyncEngine.{Fs, SyncEngine, Io, ◌>>=◌, ◌>>◌, pure, state, modify, if_some}
use byte_hive.SyncEngine.Paths.{safe_relative}
use byte_hive.SyncEngine.Admission.{veto_for, admit_record, flush_ledger}
use byte_hive.SyncEngine.Actions.{
  try_op, run, suppress, schedule_unsuppress, manifest_insert, ConflictInfo, create_parent,
  detect_conflict, conflict_copy,
}

-- The local variables of `apply_bundle`.
pub record Progress : Type 0 where
  pub written : List FilePath
  pub count : ℕ
  pub conflicts : List ConflictInfo
  pub dir_mtimes : List (FilePath × ℕ)

abbrev pub start : Progress
start = record { written = []; count = 0; conflicts = []; dir_mtimes = [] }

pub record ApplyResult : Type 0 where
  pub written : ℕ
  pub conflicts : List ConflictInfo

add_conflict : Progress → Option ConflictInfo → Progress
add_conflict g none = g
add_conflict g (some c) = record g { conflicts = g.conflicts ++ c ∷ [] }

-- `sort_by` on the number of components, deepest first
insert_deepest : FilePath × ℕ → List (FilePath × ℕ) → List (FilePath × ℕ)
insert_deepest e [] = e ∷ []
insert_deepest e (f ∷ fs) =
    let rest = insert_deepest e fs in if leb (length f.0) (length e.0) then e ∷ f ∷ fs else f ∷ rest

deepest_first : List (FilePath × ℕ) → List (FilePath × ℕ)
unfolding insert_deepest
deepest_first [] = []
deepest_first (e ∷ es) = insert_deepest e (deepest_first es)

module _ (F : Fs) where
  open F use {World}

  -- The conflict check of a file that is no directory.
  check_conflict : FileData → FilePath → Progress → Io World Progress
  check_conflict fd full g = if fd.metadata.is_dir then pure g else (do
    s ← state
    if_some (detect_conflict F fd.metadata.rel_path full fd.metadata.hash s)
        (λ _. do
          c ← conflict_copy F (create_parent F) fd.metadata.rel_path full
          pure (add_conflict g c))
        (pure g))

  -- The write of one admitted file, and of one admitted directory.
  write_file : FileData → FilePath → Progress → Io World Progress
  write_file fd full g =
      if fd.metadata.is_dir
      then (do
        try_op (F.create_dir_all full)
        pure (record g { dir_mtimes = g.dir_mtimes ++ (full, fd.metadata.modified_ms) ∷ [] }))
      else (do
        create_parent F full
        try_op (F.write full fd.content)
        run (F.set_mtime full fd.metadata.modified_ms)
        pure g)

  -- A file that passed the guard.
  apply_admitted : FileData → Progress → Io World Progress
  apply_admitted fd g = do
    s ← state
    let rel = fd.metadata.rel_path
    let full = s.root ++ rel
    modify (admit_record rel fd.action_ms fd.metadata.modified_ms)
    g1 ← check_conflict fd full g
    modify (suppress rel)
    g2 ← write_file fd full (record g1 { written = g1.written ++ rel ∷ [] })
    modify (manifest_insert rel fd.metadata)
    pure (record g2 { count = g2.count + 1 })

  -- The body of the loop over the bundle's files.
  apply_file : FileData → Progress → Io World Progress
  apply_file fd g = do
    s ← state
    let rel = fd.metadata.rel_path
    if safe_relative rel
        then (if_some (veto_for s.ledger rel fd.action_ms fd.metadata.modified_ms) (λ _. pure g)
            (apply_admitted fd g))
        else pure g

  apply_files : List FileData → Progress → Io World Progress
  apply_files [] g = pure g
  apply_files (fd ∷ files) g = do g' ← apply_file fd g; apply_files files g'

  set_mtimes : List (FilePath × ℕ) → World → World
  set_mtimes [] w = w
  set_mtimes ((p, mtime) ∷ rest) w = set_mtimes rest (F.set_mtime p mtime w)

  pub apply_bundle : FileBundle → Io World ApplyResult
  apply_bundle bundle = do
    g ← apply_files bundle.files start
    modify (flush_ledger F)
    run (set_mtimes (deepest_first g.dir_mtimes))
    modify (schedule_unsuppress g.written)
    pure (record { written = g.count; conflicts = g.conflicts })
