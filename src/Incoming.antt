-- ===== src/Incoming.antt =====
-- crates/filesync/src/common.rs: what a client or the server does with a message of its peer. Log
-- lines are not modelled; what is published on the bus is a list of events.
pub mod Clamp
pub mod Sound
use byte_hive.Base.{ℕ, ◌+◌, ◌-◌, ◌*◌, ◌^◌, min, Bool, true, false, ◌&&◌, not, Option, none, some}
use byte_hive.Base.{List, [], ◌∷◌, ◌++◌, Text, ltb, if◌then◌else◌, length, any, select}
use byte_hive.Base.Paths.{FilePath}
use byte_hive.Protocol.{FileMetadata, FileData, FileBundle, Hash}
use byte_hive.SyncEngine.{Fs, SyncEngine, IoResult, ok, err}
use byte_hive.SyncEngine.Actions.{ConflictInfo}
use byte_hive.SyncEngine.Bundle.{ApplyResult, apply_bundle}
use byte_hive.SyncEngine.LargeFile.{
  ChunkResult, pending, ready_to_commit, FinishResult, committed, committed_with_conflict,
  missing_chunks, begin_large_file_with_action, receive_large_file_chunk, commit_large_file,
  finish_large_file,
}
use byte_hive.SyncEngine.Deletes.{apply_deletes}
use byte_hive.SyncEngine.Rename.{apply_rename_at}

abbrev pub max_future_skew_ms : ℕ
max_future_skew_ms = 5 * 60 * 1000

-- `now.saturating_add(MAX_FUTURE_SKEW_MS)`
unfoldable pub stamp_limit : ℕ → ℕ
stamp_limit now = min (now + max_future_skew_ms) (2 ^ 64 - 1)

unfoldable pub clamp_future_stamp : ℕ → ℕ → ℕ
unfolding stamp_limit
clamp_future_stamp now raw_ms = if ltb (stamp_limit now) raw_ms then now else raw_ms

unfoldable pub clamp_future_stamp_opt : ℕ → Option ℕ → Option ℕ
unfolding clamp_future_stamp
clamp_future_stamp_opt now none = none
clamp_future_stamp_opt now (some ms) = some (clamp_future_stamp now ms)

unfoldable pub clamp_file : ℕ → FileData → FileData
unfolding clamp_future_stamp_opt
clamp_file now fd = record fd { action_ms = clamp_future_stamp_opt now fd.action_ms }

unfoldable pub clamp_files : ℕ → List FileData → List FileData
clamp_files now [] = []
clamp_files now (fd ∷ fds) = clamp_file now fd ∷ clamp_files now fds

unfoldable pub clamp_bundle : ℕ → FileBundle → FileBundle
unfolding clamp_files clamp_file
clamp_bundle now b = record b { files = clamp_files now b.files }

-- `fd.action_ms.is_some_and(|ms| ms > limit)`
past_limit : ℕ → Option ℕ → Bool
past_limit now none = false
past_limit now (some ms) = ltb (stamp_limit now) ms

-- What is published on the bus under "filesync".
pub data Published : Type 0 where
  file_changed : FilePath → Text → Published
  conflict_copy : FilePath → FilePath → Text → Text → Published
  bundle_stats : Text → Text → ℕ → ℕ → ℕ → Published
  changed_stats : Text → Text → ℕ → Published
  file_deleted : List FilePath → Text → ℕ → Text → Published
  deleted_stats : Text → Text → ℕ → Published
  file_renamed : FilePath → FilePath → Text → Published

-- The engine, and what was published if there is a bus.
pub record Node (W : Type 0) : Type 0 where
  pub engine : SyncEngine W
  pub bus : Option (List Published)

pub data LargeFileEndOutcome : Type 0 where
  end_committed : LargeFileEndOutcome
  end_with_conflict : ConflictInfo → LargeFileEndOutcome
  end_missing : List ℕ → LargeFileEndOutcome

-- Whether the chunk made the file complete.
pub data ChunkOutcome : Type 0 where
  chunk_pending : ChunkOutcome
  chunk_committed : ChunkOutcome

pub record BundleApplied : Type 0 where
  pub applied : ℕ
  pub files_count : ℕ
  pub dirs_count : ℕ
  pub bytes : ℕ
  pub conflicts : List ConflictInfo

append_published : List Published → Option (List Published) → Option (List Published)
append_published events none = none
append_published events (some bus) = some (bus ++ events)

publish : {W : Type 0} → List Published → Node W → Node W
unfolding append_published
publish events n = record n { bus = append_published events n.bus }

-- `publish_changed`
unfoldable pub changed_events : Text → List FileData → List Published
changed_events peer [] = []
changed_events peer (fd ∷ fds) = file_changed fd.metadata.rel_path peer ∷ changed_events peer fds

conflict_events : Text → Text → List ConflictInfo → List Published
conflict_events peer node [] = []
conflict_events peer node (c ∷ cs) =
    conflict_copy c.original_path c.conflict_copy_path peer node ∷ conflict_events peer node cs

unfoldable pub count_files : List FileData → ℕ
count_files files = length (select (λ fd. not fd.metadata.is_dir) files)

unfoldable pub count_dirs : List FileData → ℕ
count_dirs files = length (select (λ fd. fd.metadata.is_dir) files)

unfoldable pub total_bytes : List FileData → ℕ
total_bytes [] = 0
total_bytes (fd ∷ fds) = fd.metadata.size + total_bytes fds

module _ (F : Fs) where
  open F use {World}

  -- The engine's method, with its outcome taken to the node.
  on_engine : {A : Type 0} → IoResult A × SyncEngine World → Node World → IoResult A × Node World
  on_engine (r, e) n = (r, record n { engine = e })

  now_of : Node World → ℕ
  now_of n = F.now_ms n.engine.world

  bundle_applied :
      FileBundle → Text → IoResult ApplyResult × Node World → IoResult BundleApplied × Node World
  unfolding changed_events conflict_events count_files count_dirs total_bytes publish
  bundle_applied bundle peer (err e, n) = (err e, n)
  bundle_applied bundle peer (ok res, n) =
      let files = count_files bundle.files in
      let dirs = count_dirs bundle.files in
      let bytes = total_bytes bundle.files in
      let node = n.engine.node_id in
      (
        ok (record {
          applied = res.written;
          files_count = files;
          dirs_count = dirs;
          bytes = bytes;
          conflicts = res.conflicts;
        }),
        publish
            (changed_events peer bundle.files
              ++ (conflict_events peer node res.conflicts
                  ++ (if ltb 0 files then bundle_stats node peer files bytes dirs ∷ [] else [])))
            n,
      )

  unfoldable pub handle_recv_bundle :
      FileBundle → Text → Node World → IoResult BundleApplied × Node World
  unfolding clamp_bundle past_limit bundle_applied on_engine now_of
  handle_recv_bundle bundle peer n =
      let now = now_of n in
      let needs_clamp = any (λ fd. past_limit now fd.action_ms) bundle.files in
      let effective = if needs_clamp then clamp_bundle now bundle else bundle in
      bundle_applied bundle peer (on_engine (apply_bundle F effective n.engine) n)

  unfoldable pub handle_recv_large_file_start :
      FileMetadata → ℕ → Option ℕ → Node World → IoResult (Unit {0}) × Node World
  unfolding on_engine clamp_future_stamp_opt now_of
  handle_recv_large_file_start metadata total_chunks action_ms n =
      on_engine
        (begin_large_file_with_action F metadata total_chunks
          (clamp_future_stamp_opt (now_of n) action_ms) n.engine)
        n

  after_commit : IoResult FinishResult × Node World → IoResult ChunkOutcome × Node World
  after_commit (err e, n) = (err e, n)
  after_commit (ok r, n) = (ok chunk_committed, n)

  after_chunk : FilePath → IoResult ChunkResult × Node World → IoResult ChunkOutcome × Node World
  unfolding after_commit on_engine
  after_chunk path (err e, n) = (err e, n)
  after_chunk path (ok pending, n) = (ok chunk_pending, n)
  after_chunk path (ok (ready_to_commit hash), n) =
      after_commit (on_engine (commit_large_file F path hash n.engine) n)

  unfoldable pub handle_recv_large_file_chunk :
      FilePath → ℕ → List ℕ → Node World → IoResult ChunkOutcome × Node World
  unfolding after_chunk on_engine
  handle_recv_large_file_chunk path chunk_index bytes n =
      after_chunk path (on_engine (receive_large_file_chunk F path chunk_index bytes n.engine) n)

  after_end :
      FilePath
      → Text
      → IoResult FinishResult × Node World
      → IoResult LargeFileEndOutcome × Node World
  unfolding publish
  after_end path peer (err e, n) = (err e, n)
  after_end path peer (ok committed, n) = (
    ok end_committed,
    publish (file_changed path peer ∷ changed_stats n.engine.node_id peer 1 ∷ []) n,
  )
  after_end path peer (ok (committed_with_conflict c), n) = (
    ok (end_with_conflict c),
    publish
        (conflict_copy c.original_path c.conflict_copy_path peer n.engine.node_id
          ∷ file_changed path peer
          ∷ changed_stats n.engine.node_id peer 1
          ∷ [])
        n,
  )
  after_end path peer (ok (missing_chunks indices), n) = (ok (end_missing indices), n)

  unfoldable pub handle_recv_large_file_end :
      FilePath → Hash → Text → Node World → IoResult LargeFileEndOutcome × Node World
  unfolding after_end on_engine
  handle_recv_large_file_end path final_hash peer n =
      after_end path peer (on_engine (finish_large_file F path final_hash n.engine) n)

  -- `apply_deletes` of the engine has no error of its own.
  unfoldable pub handle_recv_delete_with_meta :
      List FilePath → ℕ → Text → Text → Node World → Node World × ℕ
  unfolding publish clamp_future_stamp now_of
  handle_recv_delete_with_meta paths raw_ms deleter peer n =
      let deleted_at_ms = clamp_future_stamp (now_of n) raw_ms in
      let (engine, count) = apply_deletes F paths deleted_at_ms deleter n.engine in
      (
        publish
            (file_deleted paths peer deleted_at_ms deleter
              ∷ deleted_stats engine.node_id peer count
              ∷ [])
            (record n { engine = engine }),
        count,
      )

  unfoldable pub handle_recv_delete : List FilePath → Text → Node World → Node World × ℕ
  unfolding handle_recv_delete_with_meta
  handle_recv_delete paths peer n = handle_recv_delete_with_meta paths (now_of n) peer peer n

  after_rename :
      FilePath
      → FilePath
      → Text
      → IoResult (Unit {0}) × Node World
      → IoResult (Unit {0}) × Node World
  unfolding publish
  after_rename source target peer (err e, n) = (err e, n)
  after_rename source target peer (ok u, n) =
      (ok u, publish (file_renamed source target peer ∷ []) n)

  unfoldable pub handle_recv_rename :
      FilePath → FilePath → ℕ → Text → Node World → IoResult (Unit {0}) × Node World
  unfolding after_rename on_engine clamp_future_stamp now_of
  handle_recv_rename source target raw_ms peer n = after_rename source target peer (
      on_engine
        (apply_rename_at F source target (clamp_future_stamp (now_of n) raw_ms) peer n.engine) n)
