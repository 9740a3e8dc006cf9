-- ===== src/Incoming/Sound.antt =====
-- The handlers of common.rs and the invariant of the engine.
use byte_hive.Base.{ℕ, Option, List, Text}
use byte_hive.Base.Paths.{FilePath}
use byte_hive.Protocol.{FileMetadata, FileBundle, Hash}
use byte_hive.SyncEngine.{Fs, IoResult, ok, err}
use byte_hive.SyncEngine.Sound.{IsSound}
use byte_hive.SyncEngine.Bundle.{ApplyResult}
use byte_hive.SyncEngine.Bundle.Sound.{Keeps-apply_bundle}
use byte_hive.SyncEngine.LargeFile.{
  ChunkResult, pending, ready_to_commit, FinishResult, committed, committed_with_conflict,
  missing_chunks, commit_large_file,
}
use byte_hive.SyncEngine.LargeFile.Sound.{
  Keeps-begin_large_file_with_action, Keeps-receive_large_file_chunk, Keeps-finish_large_file,
  Keeps-commit_large_file,
}
use byte_hive.SyncEngine.Deletes.Sound.{apply_deletes-IsSound}
use byte_hive.SyncEngine.Rename.Sound.{Keeps-apply_rename_at}
use byte_hive.Incoming.{
  Node, publish, on_engine, bundle_applied, handle_recv_bundle, handle_recv_large_file_start,
  after_commit, after_chunk, handle_recv_large_file_chunk, after_end, handle_recv_large_file_end,
  handle_recv_delete_with_meta, after_rename, handle_recv_rename,
}

module _ (F : Fs) where
  open F use {World}

  -- The engine of the node that a handler leaves.
  abbrev pub Leaves : {A : Type 0} → A × Node World → Type 0
  Leaves (_, n) = IsSound n.engine

  bundle_applied-IsSound :
      (b : FileBundle) (peer : Text) (r : IoResult ApplyResult) (n : Node World)
      → IsSound n.engine
      → Leaves (bundle_applied F b peer (r, n))
  unfolding bundle_applied publish
  bundle_applied-IsSound b peer (ok res) n h = h
  bundle_applied-IsSound b peer (err e) n h = h

  pub handle_recv_bundle-IsSound :
      (b : FileBundle) (peer : Text) (n : Node World)
      → IsSound n.engine
      → Leaves (handle_recv_bundle F b peer n)
  unfolding handle_recv_bundle on_engine
  handle_recv_bundle-IsSound b peer n h =
      bundle_applied-IsSound b peer _ _ (Keeps-apply_bundle F _ n.engine h)

  pub handle_recv_large_file_start-IsSound :
      (m : FileMetadata) (total : ℕ) (at : Option ℕ) (n : Node World)
      → IsSound n.engine
      → Leaves (handle_recv_large_file_start F m total at n)
  unfolding handle_recv_large_file_start on_engine
  handle_recv_large_file_start-IsSound m total at n h =
      (Keeps-begin_large_file_with_action F m total _).at n.engine h

  after_chunk-IsSound :
      (path : FilePath) (r : IoResult ChunkResult) (n : Node World)
      → IsSound n.engine
      → Leaves (after_chunk F path (r, n))
  unfolding after_chunk after_commit on_engine
  after_chunk-IsSound path (err e) n h = h
  after_chunk-IsSound path (ok pending) n h = h
  after_chunk-IsSound path (ok (ready_to_commit hash)) n h =
      after_commit-IsSound (commit_large_file F path hash n.engine).0 _
        ((Keeps-commit_large_file F path hash).at n.engine h)
    where
      after_commit-IsSound :
          (r : IoResult FinishResult) (k : Node World)
          → IsSound k.engine
          → Leaves (after_commit F (r, k))
      after_commit-IsSound (ok x) k g = g
      after_commit-IsSound (err e) k g = g

  pub handle_recv_large_file_chunk-IsSound :
      (path : FilePath) (i : ℕ) (bytes : List ℕ) (n : Node World)
      → IsSound n.engine
      → Leaves (handle_recv_large_file_chunk F path i bytes n)
  unfolding handle_recv_large_file_chunk on_engine
  handle_recv_large_file_chunk-IsSound path i bytes n h =
      after_chunk-IsSound path _ _ ((Keeps-receive_large_file_chunk F path i bytes).at n.engine h)

  after_end-IsSound :
      (path : FilePath) (peer : Text) (r : IoResult FinishResult) (n : Node World)
      → IsSound n.engine
      → Leaves (after_end F path peer (r, n))
  unfolding after_end publish
  after_end-IsSound path peer (err e) n h = h
  after_end-IsSound path peer (ok committed) n h = h
  after_end-IsSound path peer (ok (committed_with_conflict c)) n h = h
  after_end-IsSound path peer (ok (missing_chunks l)) n h = h

  pub handle_recv_large_file_end-IsSound :
      (path : FilePath) (hash : Hash) (peer : Text) (n : Node World)
      → IsSound n.engine
      → Leaves (handle_recv_large_file_end F path hash peer n)
  unfolding handle_recv_large_file_end on_engine
  handle_recv_large_file_end-IsSound path hash peer n h =
      after_end-IsSound path peer _ _ ((Keeps-finish_large_file F path hash).at n.engine h)

  pub handle_recv_delete_with_meta-IsSound :
      (paths : List FilePath) (at : ℕ) (deleter peer : Text) (n : Node World)
      → IsSound n.engine
      → IsSound (handle_recv_delete_with_meta F paths at deleter peer n).0.engine
  unfolding handle_recv_delete_with_meta publish
  handle_recv_delete_with_meta-IsSound paths at deleter peer n h =
      apply_deletes-IsSound F paths _ deleter n.engine h

  after_rename-IsSound :
      (source target : FilePath) (peer : Text) (r : IoResult (Unit {0})) (n : Node World)
      → IsSound n.engine
      → Leaves (after_rename F source target peer (r, n))
  unfolding after_rename publish
  after_rename-IsSound source target peer (ok u) n h = h
  after_rename-IsSound source target peer (err e) n h = h

  pub handle_recv_rename-IsSound :
      (source target : FilePath) (at : ℕ) (peer : Text) (n : Node World)
      → IsSound n.engine
      → Leaves (handle_recv_rename F source target at peer n)
  unfolding handle_recv_rename on_engine
  handle_recv_rename-IsSound source target at peer n h =
      after_rename-IsSound source target peer _ _
        ((Keeps-apply_rename_at F source target _ peer).at n.engine h)
