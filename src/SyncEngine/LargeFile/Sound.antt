-- ===== src/SyncEngine/LargeFile/Sound.antt =====
-- The large-file operations of sync_engine.rs, and the engine's invariant.
use byte_hive.Base.{ℕ, ◌≡◌, true, Option, List, arith, list_eq}
use byte_hive.Base.Dict
use byte_hive.Base.Paths.{FilePath, component_eq}
use byte_hive.Protocol.{FileMetadata, Hash}
use byte_hive.SyncEngine.{Fs, SyncEngine, LargeFileAssembly}
use byte_hive.SyncEngine.Paths.{safe_relative}
use byte_hive.SyncEngine.Sound.{
  IsSound, Keeps, keeps_rules, admit_record-IsSound, flush_ledger-IsSound, manifest_insert-IsSound,
  Keeps-if, Keeps-state, Keeps-bind, Keeps-modify, Keeps-pure, Keeps-if_some,
}
use byte_hive.SyncEngine.Actions.Keeping.{Keeps-create_parent, Keeps-conflict_copy}
use byte_hive.SyncEngine.LargeFile.{
  put_assembly, drop_assembly, begin_large_file_with_action, receive_large_file_chunk,
  commit_conflict, install, verify_and_install, commit_assembly, commit_large_file,
  finish_large_file, clear_in_progress,
}

module _ {W : Type 0} where
  put_assembly-IsSound :
      (p : FilePath) (a : LargeFileAssembly) (s : SyncEngine W)
      → safe_relative p ≡ true
      → IsSound s
      → IsSound (put_assembly p a s)
  put_assembly-IsSound p a s safe h = record {
    live = h.live;
    tidy = h.tidy;
    transfers = λ q b e. ground (arith, Dict.lookup-insert q p a s.in_progress, h.transfers q b);
  }

  drop_assembly-IsSound :
      (p : FilePath) (s : SyncEngine W) → IsSound s → IsSound (drop_assembly p s)
  drop_assembly-IsSound p s h = record {
    live = h.live;
    tidy = h.tidy;
    transfers = λ q b e. ground (arith, Dict.lookup-erase q p s.in_progress, h.transfers q b);
  }

module _ (F : Fs) where
  pub Keeps-begin_large_file_with_action :
      (m : FileMetadata) (n : ℕ) (at : Option ℕ) → Keeps (begin_large_file_with_action F m n at)
  unfolding begin_large_file_with_action
  Keeps-begin_large_file_with_action m n at = Keeps-state _ (λ s h.
      search
        (
          keeps_rules, Keeps-if, admit_record-IsSound, flush_ledger-IsSound, Keeps-create_parent,
          put_assembly-IsSound,
        )
        depth 24)

  pub Keeps-receive_large_file_chunk :
      (p : FilePath) (i : ℕ) (bytes : List ℕ) → Keeps (receive_large_file_chunk F p i bytes)
  unfolding receive_large_file_chunk
  Keeps-receive_large_file_chunk p i bytes = Keeps-state _ (λ s h.
      Keeps-if_some _ _ _
        (λ a e.
          let safe = h.transfers p a e in search (keeps_rules, put_assembly-IsSound, safe) depth 8)
        (Keeps-pure _))

  Keeps-commit_conflict :
      (p : FilePath) (a : LargeFileAssembly) (h : Hash) → Keeps (commit_conflict F p a h)
  unfolding commit_conflict
  Keeps-commit_conflict p a h = Keeps-state _ (λ s _.
      Keeps-if_some _ _ _
        (λ _ _.
          Keeps-bind _ _ (Keeps-conflict_copy F _ _ _ (λ q. search keeps_rules depth 8))
            (λ c. Keeps-pure _))
        (Keeps-pure _))

  Keeps-install :
      (p : FilePath) (a : LargeFileAssembly) (h : Hash)
      → safe_relative p ≡ true
      → Keeps (install F p a h)
  unfolding install
  Keeps-install p a h safe =
      Keeps-state _
        (λ s _. search (keeps_rules, Keeps-commit_conflict, manifest_insert-IsSound, safe) depth 12)

  Keeps-verify_and_install :
      (p : FilePath) (a : LargeFileAssembly) (h : Hash)
      → safe_relative p ≡ true
      → Keeps (verify_and_install F p a h)
  unfolding verify_and_install
  Keeps-verify_and_install p a h safe =
      Keeps-state _ (λ s _. search (keeps_rules, Keeps-if, Keeps-install, safe) depth 10)

  Keeps-commit_assembly :
      (p : FilePath) (a : LargeFileAssembly) (h : Hash)
      → safe_relative p ≡ true
      → Keeps (commit_assembly F p a h)
  unfolding commit_assembly
  Keeps-commit_assembly p a h safe = Keeps-state _ (λ s _.
      Keeps-if_some _ _ _ (λ _ _. search keeps_rules)
        (search
          (keeps_rules, admit_record-IsSound, flush_ledger-IsSound, Keeps-verify_and_install, safe)
          depth 8))

  pub Keeps-commit_large_file : (p : FilePath) (h : Hash) → Keeps (commit_large_file F p h)
  unfolding commit_large_file
  Keeps-commit_large_file p h = Keeps-state _ (λ s sound.
      Keeps-if_some _ _ _
        (λ a e.
          Keeps-bind _ _ (Keeps-modify _ (drop_assembly-IsSound p))
            (λ _. Keeps-commit_assembly p a h (sound.transfers p a e)))
        (Keeps-pure _))

  pub Keeps-finish_large_file : (p : FilePath) (h : Hash) → Keeps (finish_large_file F p h)
  unfolding finish_large_file
  Keeps-finish_large_file p h = Keeps-state _ (λ s sound.
      Keeps-if_some _ _ _
        (λ a e.
          let safe = sound.transfers p a e in
          search (keeps_rules, Keeps-if, put_assembly-IsSound, Keeps-commit_large_file, safe) depth
            10)
        (Keeps-pure _))

  pub clear_in_progress-IsSound :
      (s : SyncEngine F.World) → IsSound s → IsSound (clear_in_progress F s)
  unfolding clear_in_progress
  clear_in_progress-IsSound s h = record {
    live = h.live;
    tidy = h.tidy;
    transfers = λ p a e. cc (Dict.lookup-nil {V = LargeFileAssembly} p);
  }
