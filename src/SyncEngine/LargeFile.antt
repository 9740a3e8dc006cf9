-- ===== src/SyncEngine/LargeFile.antt =====
-- The large-file transfers of sync_engine.rs: begin, chunks, finish, commit.
pub mod Sound
pub mod Transfer
use byte_hive.Base.{
  ℕ, zero, suc, ◌+◌, ◌*◌, Bool, true, false, not, Option, none, some, List, [], ◌∷◌,
}
use byte_hive.Base.{◌++◌, if◌then◌else◌, ltb, length, contains, select, ◌==◌, nat_eq, list_eq}
use byte_hive.Base.Dict
use byte_hive.Base.Dict.{Dict}
use byte_hive.Base.Paths.{FilePath, component_eq, strip_prefix}
use byte_hive.Protocol.{FileMetadata, Hash, file_chunk_size}
use byte_hive.SyncEngine.{
  Fs, SyncEngine, LargeFileAssembly, Io, io, invalid_data, ◌>>=◌, ◌>>◌, pure, fail, state, modify,
  if_some,
}
use byte_hive.SyncEngine.Paths.{safe_relative, staging_path, tmp_dir}
use byte_hive.SyncEngine.Admission.{veto_for, admit_record, flush_ledger}
use byte_hive.SyncEngine.Actions.{
  try_op, attempt, run, suppress, schedule_unsuppress, manifest_insert, ConflictInfo, create_parent,
  detect_conflict, conflict_copy, parent,
}

-- `p.strip_prefix(root).unwrap_or(p)`
abbrev pub below_root : FilePath → FilePath → FilePath
below_root root p = elim (strip_prefix p root) [ none ↦ p | some q ↦ q ]

pub data ChunkResult : Type 0 where
  pending : ChunkResult
  ready_to_commit : Hash → ChunkResult

pub data FinishResult : Type 0 where
  committed : FinishResult
  committed_with_conflict : ConflictInfo → FinishResult
  missing_chunks : List ℕ → FinishResult

abbrev pub put_assembly : {W : Type 0} → FilePath → LargeFileAssembly → SyncEngine W → SyncEngine W
put_assembly path asm s = record s { in_progress = Dict.insert path asm s.in_progress }

abbrev pub drop_assembly : {W : Type 0} → FilePath → SyncEngine W → SyncEngine W
drop_assembly path s = record s { in_progress = Dict.erase path s.in_progress }

abbrev pub report : Option ConflictInfo → FinishResult
report none = committed
report (some c) = committed_with_conflict c

-- `HashSet<u32>::insert`
abbrev pub add_chunk : ℕ → List ℕ → List ℕ
add_chunk i received = if contains received i then received else i ∷ received

-- `0..n`
abbrev pub upto : ℕ → ℕ → List ℕ
upto zero from = []
upto (suc n) from = from ∷ upto n (suc from)

unfoldable pub missing_of : LargeFileAssembly → List ℕ
missing_of asm = select (λ i. not (contains asm.received i)) (upto asm.total_chunks 0)

abbrev pub complete : LargeFileAssembly → Bool
complete asm = length asm.received == asm.total_chunks

-- The answer to a chunk, from the transfer as it stands with that chunk.
abbrev pub chunk_answer : LargeFileAssembly → ChunkResult
chunk_answer asm = elim asm.final_hash_pending [
  | none ↦ pending
  | some hash ↦ if complete asm then ready_to_commit hash else pending
]

module _ (F : Fs) where
  open F use {World}

  pub begin_large_file_with_action : FileMetadata → ℕ → Option ℕ → Io World (Unit {0})
  begin_large_file_with_action metadata total_chunks action_ms = do
    s ← state
    let rel = metadata.rel_path
    let dst = s.root ++ rel
    let tmp_path = staging_path F.blake3 s.root rel
    if safe_relative rel
        then (if_some (veto_for s.ledger rel action_ms metadata.modified_ms) (λ _. pure tt)
            (do
              modify (admit_record rel action_ms metadata.modified_ms)
              modify (flush_ledger F)
              create_parent F dst
              create_parent F tmp_path
              try_op (F.create_sized tmp_path metadata.size)
              modify (suppress rel)
              modify (suppress (below_root s.root tmp_path))
              modify (
                  put_assembly rel (record {
                    tmp_path = tmp_path;
                    total_chunks = total_chunks;
                    received = [];
                    expected_hash = metadata.hash;
                    dst = dst;
                    file_size = metadata.size;
                    modified_ms = metadata.modified_ms;
                    action_ms = action_ms;
                    final_hash_pending = none;
                  }))))
        else pure tt

  pub receive_large_file_chunk : FilePath → ℕ → List ℕ → Io World ChunkResult
  receive_large_file_chunk path chunk_index bytes = do
    s ← state
    if_some (Dict.lookup path s.in_progress)
        (λ asm. do
          let asm' = record asm { received = add_chunk chunk_index asm.received }
          try_op (F.write_at asm.tmp_path (chunk_index * file_chunk_size) bytes)
          modify (put_assembly path asm')
          pure (chunk_answer asm'))
        (pure pending)

  -- The test for a conflict, the copy, and what is reported of it.
  commit_conflict : FilePath → LargeFileAssembly → Hash → Io World FinishResult
  commit_conflict path asm final_hash = do
    s ← state
    if_some (detect_conflict F path asm.dst final_hash s)
        (λ _. do
          c ←
              conflict_copy F
                (λ p. if_some (parent p) (λ q. do attempt (F.create_dir_all q); pure tt) (pure tt))
                path asm.dst
          pure (report c))
        (pure committed)

  -- The last part of `commit_large_file`, for a staging file whose hash is right.
  install : FilePath → LargeFileAssembly → Hash → Io World FinishResult
  install path asm final_hash = do
    s ← state
    result ← commit_conflict path asm final_hash
    try_op (F.rename asm.tmp_path asm.dst)
    run (F.set_mtime asm.dst asm.modified_ms)
    modify (
        manifest_insert path (record {
          rel_path = path;
          size = asm.file_size;
          hash = final_hash;
          modified_ms = asm.modified_ms;
          change_sequence = 0;
          is_dir = false;
        }))
    modify (schedule_unsuppress (path ∷ below_root s.root asm.tmp_path ∷ []))
    pure result

  -- From the hash of the staging file on.
  verify_and_install : FilePath → LargeFileAssembly → Hash → Io World FinishResult
  verify_and_install path asm final_hash = do
    s ← state
    if_some (F.hash_file s.world asm.tmp_path)
        (λ got.
          if got == final_hash
          then install path asm final_hash
          else (do run (F.remove_file asm.tmp_path); fail invalid_data))
        (fail io)

  -- A transfer that was taken out of `in_progress`.
  commit_assembly : FilePath → LargeFileAssembly → Hash → Io World FinishResult
  commit_assembly path asm final_hash = do
    s ← state
    if_some (veto_for s.ledger path asm.action_ms asm.modified_ms)
        (λ _. do run (F.remove_file asm.tmp_path); pure committed)
        (do
          modify (admit_record path asm.action_ms asm.modified_ms)
          modify (flush_ledger F)
          verify_and_install path asm final_hash)

  pub commit_large_file : FilePath → Hash → Io World FinishResult
  commit_large_file path final_hash = do
    s ← state
    if_some (Dict.lookup path s.in_progress)
        (λ asm. do modify (drop_assembly path); commit_assembly path asm final_hash)
        (pure committed)

  pub finish_large_file : FilePath → Hash → Io World FinishResult
  finish_large_file path final_hash = do
    s ← state
    if_some (Dict.lookup path s.in_progress)
        (λ asm.
          if ltb (length asm.received) asm.total_chunks
          then (do
            modify (put_assembly path (record asm { final_hash_pending = some final_hash }))
            pure (missing_chunks (missing_of asm)))
          else commit_large_file path final_hash)
        (pure committed)

  remove_staging : Dict FilePath LargeFileAssembly → World → World
  remove_staging [] w = w
  remove_staging ((_, asm) ∷ rest) w = remove_staging rest (F.remove_file asm.tmp_path w)

  pub clear_in_progress : SyncEngine World → SyncEngine World
  clear_in_progress s = record s { in_progress = []; world = remove_staging s.in_progress s.world }
