-- ===== src/Tests/Sessions.antt =====
-- A client's session at concrete inputs.
use byte_hive.Base.{ℕ, none, [], ◌∷◌, ◌≡◌, refl, codes, false, list_eq, nat_eq}
use byte_hive.Base.Dict
use byte_hive.Base.Paths.{FilePath, normal, component_eq}
use byte_hive.Base.Order.{path_lt, component_lt, bytes_lt, rank, name_of}
use byte_hive.Protocol.{FileMetadata, Manifest}
use byte_hive.Ledger.{Tombstone, DeletionLedger}
use byte_hive.Client.{is_owed, owed_loop, insert_sorted, sort_by_path, compute_deletes_to_push}
use byte_hive.Client.Missed.{IsSorted, owed, compute_deletes_to_push_lem}

abbrev at : ℕ → FilePath
at n = normal (n ∷ []) ∷ []

abbrev gone : ℕ → ℕ → Tombstone
gone n ms = record {
  path = at n;
  deleted_at_ms = ms;
  deleter_node = codes "a";
  prev_hash = none;
  prev_mtime_ms = none;
}

abbrev listed : ℕ → FileMetadata
listed n = record {
  rel_path = at n;
  size = 1;
  hash = [];
  modified_ms = 20;
  change_sequence = 0;
  is_dir = false;
}

-- The client lists 5. The server lists 3, 4, 5 and 7, of which 4 is newer than its tombstone.
abbrev ours : Manifest
ours = record { files = (at 5, listed 5) ∷ []; node_id = codes "c" }

abbrev theirs : Manifest
theirs = record {
  files = (at 3, listed 3) ∷ (at 4, listed 4) ∷ (at 5, listed 5) ∷ (at 7, listed 7) ∷ [];
  node_id = codes "s";
}

abbrev ledger : DeletionLedger
ledger = record {
  entries =
      (at 7, gone 7 30)
      ∷ (at 4, gone 4 10)
      ∷ (at 5, gone 5 30)
      ∷ (at 3, gone 3 25)
      ∷ (at 9, gone 9 30)
      ∷ [];
  alive = [];
}

compute_deletes_to_push_run :
    compute_deletes_to_push ours theirs ledger
    ≡ (at 3, (25, codes "a")) ∷ (at 7, (30, codes "a")) ∷ []
unfolding compute_deletes_to_push owed_loop is_owed sort_by_path insert_sorted path_lt component_lt
    bytes_lt rank name_of list_eq nat_eq component_eq Dict.lookup
compute_deletes_to_push_run = refl

compute_deletes_to_push_lem_example :
    IsSorted (compute_deletes_to_push ours theirs ledger)
    × ((p : FilePath)
        → Dict.lookup p (compute_deletes_to_push ours theirs ledger)
          ≡ owed
              (Dict.lookup p ledger.entries)
              (Dict.lookup p ours.files)
              (Dict.lookup p theirs.files))
unfolding Dict.lookup list_eq nat_eq component_eq
compute_deletes_to_push_lem_example =
    compute_deletes_to_push_lem ours theirs ledger (refl, (refl, (refl, (refl, (refl, tt)))))
