-- ===== src/SyncEngine/LargeFile/Transfer.antt =====
-- The answers of a large-file transfer in sync_engine.rs.
use byte_hive.Base.{ℕ, zero, suc, ◌+◌, ◌<◌, ◌≤◌, ◌≡◌, ◌≢◌, refl, ◌∙◌, ap, false, not}
use byte_hive.Base.{Option, none, some, List, [], ◌∷◌, length, contains, select, arith}
use byte_hive.Base.{◌==◌, nat_eq, list_eq, Option-cases, inl, inr}
use byte_hive.Base.Dict
use byte_hive.Base.Dict.{Dict}
use byte_hive.Base.Paths.{FilePath, component_eq}
use byte_hive.Protocol.{Hash}
use byte_hive.SyncEngine.{
  Fs, SyncEngine, LargeFileAssembly, IoResult, IoError, err, io, invalid_data, ◌>>=◌, fail, state,
  modify, if_some,
}
use byte_hive.SyncEngine.Actions.{run}
use byte_hive.SyncEngine.Admission.{veto_for, admit_record, flush_ledger}
use byte_hive.SyncEngine.Sound.{flush_ledger-manifest, flush_ledger-in_progress}
use byte_hive.SyncEngine.LargeFile.{
  upto, missing_of, add_chunk, drop_assembly, verify_and_install, commit_assembly,
  commit_large_file,
}

-- The indices received are distinct, and each is below the number of chunks.
abbrev pub IsCounted : ℕ → List ℕ → Type 0
IsCounted total [] = Unit
IsCounted total (i ∷ received) =
    (i < total) × (contains received i ≡ false) × IsCounted total received

-- One more index leaves out one more of the range, if it is in the range and new.
left_out : List ℕ → ℕ → ℕ → ℕ
left_out received n from = length (select (λ j. not (contains received j)) (upto n from))

left_out-below :
    (i : ℕ) (received : List ℕ) (n from : ℕ)
    → i < from
    → left_out (i ∷ received) n from ≡ left_out received n from
unfolding left_out
left_out-below i received zero from h = refl
left_out-below i received (suc n) from h = ground (arith, left_out-below i received n (suc from))

left_out-cons :
    (i : ℕ) (received : List ℕ) (n from : ℕ)
    → from ≤ i
    → i < from + n
    → contains received i ≡ false
    → suc (left_out (i ∷ received) n from) ≡ left_out received n from
unfolding left_out
left_out-cons i received zero from h k fresh = absurd (omega arith)
left_out-cons i received (suc n) from h k fresh =
    ground (arith, left_out-cons i received n (suc from), left_out-below i received n (suc from))

left_out-nil : (n from : ℕ) → left_out [] n from ≡ n
unfolding left_out
left_out-nil zero from = refl
left_out-nil (suc n) from = omega (arith, left_out-nil n (suc from))

left_out-IsCounted :
    (received : List ℕ) (total : ℕ)
    → IsCounted total received
    → length received + left_out received total 0 ≡ total
left_out-IsCounted [] total h = omega (arith, left_out-nil total 0)
left_out-IsCounted (i ∷ received) total (small, fresh, h) = omega (
  arith,
  left_out-IsCounted received total h,
  left_out-cons i received total 0 (omega arith) (omega arith) fresh,
)

-- What was received and what is missing make up the chunks of the file.
pub length-missing_of :
    (a : LargeFileAssembly)
    → IsCounted a.total_chunks a.received
    → length a.received + length (missing_of a) ≡ a.total_chunks
unfolding missing_of left_out
length-missing_of a h = left_out-IsCounted a.received a.total_chunks h

add_chunk-IsCounted :
    (total i : ℕ) (received : List ℕ)
    → i < total
    → IsCounted total received
    → IsCounted total (add_chunk i received)
add_chunk-IsCounted total i received small h = ground arith

module _ (F : Fs) where
  -- The engine from which a commit checks its staging file: the transfer is taken out, the action is
  -- admitted, the ledger is saved.
  abbrev pub admitted : FilePath → LargeFileAssembly → SyncEngine F.World → SyncEngine F.World
  admitted p a s = flush_ledger F (admit_record p a.action_ms a.modified_ms (drop_assembly p s))

  admit_record-manifest :
      (p : FilePath) (at : Option ℕ) (m : ℕ) (s : SyncEngine F.World)
      → ((admit_record p at m s).manifest ≡ s.manifest)
        × ((admit_record p at m s).in_progress ≡ s.in_progress)
  unfolding admit_record
  admit_record-manifest p none m s = (ground arith, ground arith)
  admit_record-manifest p (some at) m s = (ground arith, ground arith)

  -- What a rejected staging file leaves.
  abbrev Rejected : {A : Type 0} → SyncEngine F.World → IoResult A × SyncEngine F.World → Type 0
  Rejected s (r, t) =
      ((e : IoError) × (r ≡ err e)) × (t.manifest ≡ s.manifest) × (t.in_progress ≡ s.in_progress)

  verify_rejects :
      (s : SyncEngine F.World) (p : FilePath) (a : LargeFileAssembly) (h : Hash)
      → F.hash_file s.world a.tmp_path ≢ some h
      → Rejected s (verify_and_install F p a h s)
  unfolding verify_and_install ◌>>=◌ state if_some run fail
  verify_rejects s p a h wrong = elim (Option-cases (F.hash_file s.world a.tmp_path)) [
    | inl e ↦ rw e ((io, refl), refl, refl)
    | inr (got, e) ↦
        let k : (got == h) ≡ false = ground arith in rw (e, k) ((invalid_data, refl), refl, refl)
  ]

  commit_rejects :
      (s : SyncEngine F.World) (p : FilePath) (a : LargeFileAssembly) (h : Hash)
      → veto_for s.ledger p a.action_ms a.modified_ms ≡ none
      → F.hash_file (admitted p a s).world a.tmp_path ≢ some h
      → Rejected (admitted p a s) (commit_assembly F p a h (drop_assembly p s))
  unfolding commit_assembly ◌>>=◌ state if_some modify
  commit_rejects s p a h v wrong = rw v (verify_rejects (admitted p a s) p a h wrong)

  -- A commit whose staging file does not have the announced hash, or cannot be read, fails: the manifest
  -- is as it was, so the path is not listed with content that it does not have, and the transfer is
  -- over. The path is assumed to be in transfer and not vetoed by a deletion.
  pub commit_large_file_rejects :
      (s : SyncEngine F.World) (p : FilePath) (a : LargeFileAssembly) (h : Hash)
      → Dict.lookup p s.in_progress ≡ some a
      → veto_for s.ledger p a.action_ms a.modified_ms ≡ none
      → F.hash_file (admitted p a s).world a.tmp_path ≢ some h
      → ((e : IoError) × ((commit_large_file F p h s).0 ≡ err e))
        × ((commit_large_file F p h s).1.manifest ≡ s.manifest)
        × (Dict.lookup p (commit_large_file F p h s).1.in_progress ≡ none)
  unfolding commit_large_file ◌>>=◌ state if_some modify
  commit_large_file_rejects s p a h e v wrong =
      let (failed, same, kept) = commit_rejects s p a h v wrong in
      let (m, q) = admit_record-manifest p a.action_ms a.modified_ms (drop_assembly p s) in
      rw e (
        failed,
        same ∙ flush_ledger-manifest F _ ∙ m,
        ap (λ (d : Dict FilePath LargeFileAssembly). Dict.lookup p d)
              (kept ∙ flush_ledger-in_progress F _ ∙ q)
            ∙ ground (arith, Dict.lookup-erase p p s.in_progress),
      )
