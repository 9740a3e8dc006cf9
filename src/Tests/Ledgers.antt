-- ===== src/Tests/Ledgers.antt =====
-- The theorems on the ledger, the manifests and the hashes, at concrete inputs.
use byte_hive.Base.{ℕ, ◌+◌, ◌<◌, ◌≡◌, ◌≢◌, ◌↔◌, refl, true, false, not, ◌&&◌, none, some}
use byte_hive.Base.{List, [], ◌∷◌, arith, is_some, list_eq, nat_eq, length, contains}
use byte_hive.Base.Dict
use byte_hive.Base.Dict.{NodupKeys}
use byte_hive.Protocol.{FileMetadata}
use byte_hive.Base.Paths.{component_eq, starts_with, ancestors}
use byte_hive.Hex.{hex, parse_hex32, parse_hex32-hex}
use byte_hive.Ledger
use byte_hive.Ledger.{covering_tombstone}
use byte_hive.Ledger.Invariant
use byte_hive.Ledger.Invariant.{IsLive}
use byte_hive.Ledger.Covering.{
  Covers, applying, covering_tombstone_sound, covering_tombstone_complete,
}
use byte_hive.Ledger.Merge.{Merges, merge_remote-Merges, alive_record_needed-record_alive}
use byte_hive.Ledger.Expiry.{prune_lem, fresh_tomb, fresh_alive}
use byte_hive.Manifest.{compute_send_list, filter_resurrected, diff_manifests}
use byte_hive.Manifest.SendList.{
  Wanted, changed_at, compute_send_list-Wanted, one_side_sends, diff_manifests_lem,
}
use byte_hive.Manifest.Resurrection.{IsVetoed, filter_resurrected_lem}
use byte_hive.Tests.Data.{docs, file, meta_at, manifest_of, deleted, touched, tomb, deleted-IsLive}

Reach-IsLive_example : IsLive touched
Reach-IsLive_example =
    Invariant.Reach-IsLive (Invariant.later Invariant.start (Invariant.alive file 20))

covers_file : covering_tombstone deleted file ≡ some tomb
unfolding covering_tombstone Ledger.record_tombstone ancestors Dict.insert Dict.lookup list_eq
    component_eq
covers_file = refl

uncovered : covering_tombstone touched file ≡ none
unfolding covering_tombstone Ledger.record_alive ancestors Dict.insert Dict.lookup list_eq
    component_eq
uncovered = refl

below : starts_with file docs ≡ true
unfolding starts_with component_eq
below = refl

one_entry : NodupKeys ((docs, tomb) ∷ [])
unfolding Dict.lookup
one_entry = (refl, tt)

one_file : (m : FileMetadata) → NodupKeys (manifest_of m).files
unfolding Dict.lookup
one_file m = (refl, tt)

found : (m : FileMetadata) → Dict.lookup file (manifest_of m).files ≡ some m
unfolding Dict.lookup list_eq component_eq
found m = refl

nonempty : file ≢ []
nonempty e = cc

listed : contains (file ∷ []) file ≡ true
unfolding list_eq component_eq
listed = refl

covering_tombstone_sound_example : Covers deleted file tomb
covering_tombstone_sound_example = covering_tombstone_sound deleted file tomb covers_file

covering_tombstone_complete_example :
    applying touched.entries (Dict.lookup file touched.alive) docs ≡ none
covering_tombstone_complete_example = covering_tombstone_complete touched file docs uncovered below

alive_record_needed-record_alive_run :
    ((Ledger.record_alive deleted docs 60).1 ≡ Ledger.alive_record_needed deleted docs 60)
    × (Ledger.alive_record_needed deleted docs 60 ≡ false
        → (Ledger.record_alive deleted docs 60).0 ≡ deleted)
alive_record_needed-record_alive_run = alive_record_needed-record_alive deleted docs 60

prune_lem_run :
    (Dict.lookup docs (Ledger.prune deleted 100 10).0.entries
      ≡ fresh_tomb 100 10 (Dict.lookup docs deleted.entries))
    × (Dict.lookup docs (Ledger.prune deleted 100 10).0.alive
        ≡ fresh_alive 100 10 (Dict.lookup docs deleted.alive))
    × ((Ledger.prune deleted 100 10).1
          + length (Ledger.prune deleted 100 10).0.entries
          + length (Ledger.prune deleted 100 10).0.alive
        ≡ length deleted.entries + length deleted.alive)
prune_lem_run = prune_lem deleted 100 10 docs deleted-IsLive

abbrev hash32 : List ℕ
hash32 =
    0 ∷ 1 ∷ 2 ∷ 3 ∷ 4 ∷ 5 ∷ 6 ∷ 7 ∷ 8 ∷ 9 ∷ 10 ∷ 11 ∷ 12 ∷ 13 ∷ 14 ∷ 15 ∷ 16 ∷ 17 ∷ 18 ∷ 19 ∷ 20
    ∷ 21 ∷ 22 ∷ 23 ∷ 24 ∷ 25 ∷ 26 ∷ 27 ∷ 28 ∷ 29 ∷ 30 ∷ 255 ∷ []

parse_hex32-hex_run : parse_hex32 (hex hash32) ≡ some hash32
parse_hex32-hex_run = parse_hex32-hex hash32 refl (omega arith)

one_side_sends_run :
    ((meta_at 1 20).hash ≢ (meta_at 2 30).hash
      → contains
          (compute_send_list (manifest_of (meta_at 1 20)) (manifest_of (meta_at 2 30)) true)
          file
        ≡ not (
            contains
              (compute_send_list (manifest_of (meta_at 2 30)) (manifest_of (meta_at 1 20)) false)
              file))
    × ((meta_at 1 20).hash ≡ (meta_at 2 30).hash
        → (contains
              (compute_send_list (manifest_of (meta_at 1 20)) (manifest_of (meta_at 2 30)) true)
              file
            ≡ false)
          × (contains
                (compute_send_list (manifest_of (meta_at 2 30)) (manifest_of (meta_at 1 20)) false)
                file
              ≡ false))
one_side_sends_run =
    one_side_sends (manifest_of (meta_at 1 20)) (manifest_of (meta_at 2 30)) file (meta_at 1 20)
      (meta_at 2 30) (one_file (meta_at 1 20)) (one_file (meta_at 2 30)) (found (meta_at 1 20))
      (found (meta_at 2 30))

filter_resurrected_lem_example :
    ((contains (filter_resurrected (file ∷ []) (manifest_of (meta_at 1 20)) (some deleted)).0 file
        ≡ false)
      ↔ IsVetoed deleted file (meta_at 1 20))
    × (contains (filter_resurrected (file ∷ []) (manifest_of (meta_at 1 20)) (some deleted)).1 file
          ≡ true
        → (contains
              (filter_resurrected (file ∷ []) (manifest_of (meta_at 1 20)) (some deleted)).0
              file
            ≡ true)
          × ((t : Ledger.Tombstone) × (covering_tombstone deleted file ≡ some t)
              × (t.deleted_at_ms < 20)))
filter_resurrected_lem_example =
    filter_resurrected_lem (file ∷ []) (manifest_of (meta_at 1 20)) deleted file (meta_at 1 20)
      deleted-IsLive nonempty (found (meta_at 1 20)) listed

diff_manifests_lem_run :
    (contains (diff_manifests (manifest_of (meta_at 1 20)) (manifest_of (meta_at 2 30))).0 file
      ≡ changed_at
          (Dict.lookup file (manifest_of (meta_at 1 20)).files)
          (Dict.lookup file (manifest_of (meta_at 2 30)).files))
    × (contains (diff_manifests (manifest_of (meta_at 1 20)) (manifest_of (meta_at 2 30))).1 file
        ≡ (is_some (Dict.lookup file (manifest_of (meta_at 1 20)).files)
            && not (is_some (Dict.lookup file (manifest_of (meta_at 2 30)).files))))
diff_manifests_lem_run =
    diff_manifests_lem (manifest_of (meta_at 1 20)) (manifest_of (meta_at 2 30)) file
      (one_file (meta_at 2 30))

merge_remote-Merges_example :
    Merges
      (Dict.lookup docs touched.alive)
      (Dict.lookup docs touched.entries)
      (Dict.lookup docs ((docs, tomb) ∷ []))
      (Dict.lookup docs (Ledger.merge_remote touched ((docs, tomb) ∷ [])).entries)
merge_remote-Merges_example = merge_remote-Merges touched ((docs, tomb) ∷ []) docs one_entry

compute_send_list-Wanted_example :
    (contains
        (compute_send_list (manifest_of (meta_at 1 20)) (manifest_of (meta_at 2 30)) true)
        file
      ≡ true)
    ↔ Wanted (manifest_of (meta_at 1 20)) (manifest_of (meta_at 2 30)) true file
compute_send_list-Wanted_example =
    compute_send_list-Wanted (manifest_of (meta_at 1 20)) (manifest_of (meta_at 2 30)) true file
      (one_file (meta_at 1 20))
