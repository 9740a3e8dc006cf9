-- ===== src/Tests/Engine.antt =====
-- The theorems on the sync engine, at concrete inputs.
use byte_hive.Base.{ℕ, ◌+◌, ◌≡◌, ◌≢◌, refl, true, ◌&&◌, none, some}
use byte_hive.Base.{
  false, Bool, ◌==◌, ◌||◌, ◌++◌, if◌then◌else◌, Bool-cases, inl, [], ◌∷◌, arith, list_eq, nat_eq,
  length, inr, codes,
}
use byte_hive.Base.Dict
use byte_hive.Base.Paths.{FilePath, normal, component_eq, ancestors, starts_with, starts_with_refl}
use byte_hive.Ledger
use byte_hive.SyncEngine.{Fs, SyncEngine, err, IoError}
use byte_hive.SyncEngine.Sound.{IsSound}
use byte_hive.SyncEngine.Admission.{merge_dtos, ledger_entries, veto_for}
use byte_hive.SyncEngine.Admission.Exchange.{exchange_converges, stamp}
use byte_hive.SyncEngine.Bundle.{apply_bundle}
use byte_hive.SyncEngine.LargeFile.{commit_large_file, missing_of}
use byte_hive.SyncEngine.LargeFile.Transfer.{admitted, commit_large_file_rejects, length-missing_of}
use byte_hive.SyncEngine.Operations
use byte_hive.SyncEngine.Deletes.{apply_deletes}
use byte_hive.SyncEngine.Deletes.Recreated.{Recreated, TrashesOnly}
use byte_hive.SyncEngine.Deletes.Guard.{apply_deletes-Recreated}
use byte_hive.Tests.Data.{
  docs, file, meta_at, deleted, touched, deleted-IsLive, touched-IsLive, disk, transfer,
  engine_with, manifest_of, engine, engine-IsSound, bundle_of,
}

Reach-IsSound_example : IsSound (apply_bundle disk (bundle_of (meta_at 1 20)) engine).1
Reach-IsSound_example =
    Operations.Reach-IsSound disk
      (Operations.later Operations.start (Operations.bundle (bundle_of (meta_at 1 20))))
      engine-IsSound

exchange_converges_example :
    (Dict.lookup file (merge_dtos (ledger_entries touched) deleted).alive
      ≡ Dict.lookup file (merge_dtos (ledger_entries deleted) touched).alive)
    × (stamp (Dict.lookup file (merge_dtos (ledger_entries touched) deleted).entries)
        ≡ stamp (Dict.lookup file (merge_dtos (ledger_entries deleted) touched).entries))
exchange_converges_example = exchange_converges deleted touched file deleted-IsLive touched-IsLive

abbrev receiving : SyncEngine ℕ
receiving = engine_with ((file, transfer) ∷ []) Ledger.new

in_transfer : Dict.lookup file receiving.in_progress ≡ some transfer
unfolding Dict.lookup list_eq component_eq
in_transfer = refl

length-missing_of_run :
    length transfer.received + length (missing_of transfer) ≡ transfer.total_chunks
length-missing_of_run = length-missing_of transfer (omega arith, refl, tt)

admissible : veto_for receiving.ledger file transfer.action_ms transfer.modified_ms ≡ none
unfolding veto_for Ledger.covering_tombstone ancestors Dict.lookup list_eq component_eq
admissible = refl

wrong_hash :
    disk.hash_file (admitted disk file transfer receiving).world transfer.tmp_path ≢ some (9 ∷ [])
wrong_hash e = ground arith

commit_large_file_rejects_example :
    ((e : IoError) × ((commit_large_file disk file (9 ∷ []) receiving).0 ≡ err e))
    × ((commit_large_file disk file (9 ∷ []) receiving).1.manifest ≡ receiving.manifest)
    × (Dict.lookup file (commit_large_file disk file (9 ∷ []) receiving).1.in_progress ≡ none)
commit_large_file_rejects_example =
    commit_large_file_rejects disk receiving file transfer (9 ∷ []) in_transfer admissible
      wrong_hash

-- A disk with the root, `docs` and, once `docs` was moved to it, the trash. And an engine with a file
-- that was recreated at 20.
abbrev root : FilePath
root = normal (codes "r") ∷ []

abbrev trash : FilePath
trash = normal (codes "r") ∷ normal (codes ".bh_filesync") ∷ []

abbrev is_directory : ℕ → FilePath → Bool
is_directory w p = p == root || (w == 0 && p == root ++ docs) || (w == 1 && p == trash)

abbrev moved_to_trash : FilePath → ℕ → ℕ
moved_to_trash p w = if p == root ++ docs then 1 else w

abbrev directories : Fs
directories = record disk { is_dir = is_directory; move_to_trash = λ p rel by. moved_to_trash p }

append_cancel : (p q r : FilePath) → p ++ q ≡ p ++ r → q ≡ r
append_cancel [] q r h = h
append_cancel (c ∷ p) q r h = append_cancel p q r (ground (arith, h))

same_place :
    (base rel q : FilePath)
    → starts_with q rel ≡ false
    → (base ++ rel == root ++ docs) ≡ true
    → (base ++ q == root ++ docs) ≡ false
same_place base rel q out hit = elim (Bool-cases (base ++ q == root ++ docs)) [
  | inr apart ↦ apart
  | inl here ↦
      let e : q ≡ rel = append_cancel base q rel (ground (arith, here, hit)) in
      absurd (ground (arith, e, out, starts_with_refl rel))
]

directories-TrashesOnly : TrashesOnly directories
directories-TrashesOnly base rel q by w out h = elim (Bool-cases (base ++ rel == root ++ docs)) [
  | inr other ↦ ground (arith, other, h)
  | inl hit ↦ ground (arith, hit, h, same_place base rel q out hit)
]

abbrev recreated_file : SyncEngine ℕ
recreated_file = record (engine_with [] touched) {
  manifest = manifest_of (meta_at 1 20);
  root = root;
}

recreated_dirs :
    (q : FilePath)
    → starts_with file q ≡ true
    → (file == q) ≡ false
    → is_directory 0 (root ++ q) ≡ true
unfolding starts_with list_eq component_eq nat_eq
recreated_dirs [] below other = refl
recreated_dirs (c ∷ []) below other = ground (arith, below)
recreated_dirs (c ∷ d ∷ []) below other = absurd (ground (arith, below, other))
recreated_dirs (c ∷ d ∷ e ∷ q) below other = absurd (ground (arith, below))

recreated_file-Recreated : Recreated directories 15 file (meta_at 1 20) recreated_file
unfolding Dict.lookup Dict.insert list_eq component_eq Ledger.record_alive Ledger.alive_since
recreated_file-Recreated = record { present = refl; live = refl; dirs = recreated_dirs }

apply_deletes-Recreated_example :
    Dict.lookup file
      (apply_deletes directories (docs ∷ file ∷ []) 15 (codes "n") recreated_file).0.manifest.files
    ≡ some (meta_at 1 20)
apply_deletes-Recreated_example =
    apply_deletes-Recreated directories directories-TrashesOnly 15 file (meta_at 1 20)
      (docs ∷ file ∷ []) (codes "n") recreated_file recreated_file-Recreated
