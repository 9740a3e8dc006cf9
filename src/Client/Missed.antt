-- ===== src/Client/Missed.antt =====
-- `compute_deletes_to_push` of crates/filesync/src/client.rs.
use byte_hive.Base.{ℕ, true, false, Option, none, some, [], ◌∷◌, Text, ◌≡◌, refl, arith}
use byte_hive.Base.{ltb, if◌then◌else◌, ◌==◌, list_eq, All, inl, inr, Bool-cases}
use byte_hive.Base.Dict
use byte_hive.Base.Dict.{Dict, NodupKeys}
use byte_hive.Base.Order.{path_lt, path_lt_irrefl, path_lt_trans, path_lt_total}
use byte_hive.Base.Paths.{FilePath, component_eq}
use byte_hive.Protocol.{FileMetadata, Manifest}
use byte_hive.Ledger.{Tombstone, DeletionLedger}
use byte_hive.Client.{is_owed, owed_loop, insert_sorted, sort_by_path, compute_deletes_to_push}

-- The deletion that the peer has missed at a path, given what the ledger and the two sides hold.
abbrev pub owed : Option Tombstone → Option FileMetadata → Option FileMetadata → Option (ℕ × Text)
owed (some tomb) none (some peer) =
    if ltb peer.modified_ms tomb.deleted_at_ms
    then some (tomb.deleted_at_ms, tomb.deleter_node)
    else none
owed _ _ _ = none

is_owed-owed :
    (local peer : Option FileMetadata) (tomb : Tombstone)
    → (if is_owed local peer tomb then some (tomb.deleted_at_ms, tomb.deleter_node) else none)
      ≡ owed (some tomb) local peer
unfolding is_owed
is_owed-owed none none tomb = refl
is_owed-owed none (some m) tomb = refl
is_owed-owed (some m) none tomb = refl
is_owed-owed (some m) (some n) tomb = refl

-- No path is smaller than one before it.
abbrev pub IsSorted : Dict FilePath (ℕ × Text) → Type 0
IsSorted [] = Unit
IsSorted ((path, _) ∷ d) = All (λ q. path_lt q.0 path ≡ false) d × IsSorted d

owed_loop-absent :
    (local remote : Manifest) (entries : Dict FilePath Tombstone) (p : FilePath)
    → Dict.lookup p entries ≡ none
    → Dict.lookup p (owed_loop local remote entries) ≡ none
unfolding owed_loop Dict.lookup
owed_loop-absent local remote [] p h = refl
owed_loop-absent local remote ((q, tomb) ∷ entries) p h =
    ground (arith, h, owed_loop-absent local remote entries p)

lookup-owed_loop :
    (local remote : Manifest) (entries : Dict FilePath Tombstone) (p : FilePath)
    → NodupKeys entries
    → Dict.lookup p (owed_loop local remote entries)
      ≡ owed (Dict.lookup p entries) (Dict.lookup p local.files) (Dict.lookup p remote.files)
unfolding owed_loop Dict.lookup
lookup-owed_loop local remote [] p _ = refl
lookup-owed_loop local remote ((q, tomb) ∷ entries) p (fresh, u) =
    ground
      (arith, lookup-owed_loop local remote entries p u, owed_loop-absent local remote entries p)

lookup-insert_sorted :
    (path p : FilePath) (v : ℕ × Text) (d : Dict FilePath (ℕ × Text))
    → Dict.lookup p (insert_sorted path v d) ≡ (if p == path then some v else Dict.lookup p d)
unfolding insert_sorted Dict.lookup
lookup-insert_sorted path p v [] = refl
lookup-insert_sorted path p v ((q, w) ∷ d) = elim (Bool-cases (path_lt q path)) [
  | inl less ↦ rw less (ground (arith, less, lookup-insert_sorted path p v d, path_lt_irrefl path))
  | inr other ↦ rw other (ground arith)
]

lookup-sort_by_path :
    (p : FilePath) (d : Dict FilePath (ℕ × Text)) → Dict.lookup p (sort_by_path d) ≡ Dict.lookup p d
unfolding sort_by_path Dict.lookup
lookup-sort_by_path p [] = refl
lookup-sort_by_path p ((q, v) ∷ d) =
    ground (arith, lookup-sort_by_path p d, lookup-insert_sorted q p v (sort_by_path d))

path_lt_asym : (a b : FilePath) → path_lt a b ≡ true → path_lt b a ≡ false
path_lt_asym a b h = ground (arith, h, path_lt_trans a b a, path_lt_irrefl a)

path_lt_join : (a b c : FilePath) → path_lt a b ≡ false → path_lt b c ≡ false → path_lt a c ≡ false
path_lt_join a b c h k = elim (Bool-cases (path_lt b a)) [
  | inl less ↦ ground (arith, path_lt_trans b a c less, k)
  | inr other ↦ rw (path_lt_total a b h other) k
]

All-path_lt :
    (b c : FilePath) (d : Dict FilePath (ℕ × Text))
    → path_lt b c ≡ false
    → All (λ q. path_lt q.0 b ≡ false) d
    → All (λ q. path_lt q.0 c ≡ false) d
All-path_lt b c [] k _ = tt
All-path_lt b c ((a, v) ∷ d) k (h, hs) = (path_lt_join a b c h k, All-path_lt b c d k hs)

All-insert_sorted :
    (c path : FilePath) (v : ℕ × Text) (d : Dict FilePath (ℕ × Text))
    → path_lt path c ≡ false
    → All (λ q. path_lt q.0 c ≡ false) d
    → All (λ q. path_lt q.0 c ≡ false) (insert_sorted path v d)
unfolding insert_sorted
All-insert_sorted c path v [] k _ = (k, tt)
All-insert_sorted c path v ((q, w) ∷ d) k (h, hs) = elim (Bool-cases (path_lt q path)) [
  | inl less ↦ rw less (h, All-insert_sorted c path v d k hs)
  | inr other ↦ rw other (k, (h, hs))
]

insert_sorted-IsSorted :
    (path : FilePath) (v : ℕ × Text) (d : Dict FilePath (ℕ × Text))
    → IsSorted d
    → IsSorted (insert_sorted path v d)
unfolding insert_sorted
insert_sorted-IsSorted path v [] _ = (tt, tt)
insert_sorted-IsSorted path v ((q, w) ∷ d) (h, hs) = elim (Bool-cases (path_lt q path)) [
  | inl less ↦ rw less (
    All-insert_sorted q path v d (path_lt_asym q path less) h,
    insert_sorted-IsSorted path v d hs,
  )
  | inr other ↦ rw other ((other, All-path_lt q path d other h), (h, hs))
]

sort_by_path-IsSorted : (d : Dict FilePath (ℕ × Text)) → IsSorted (sort_by_path d)
unfolding sort_by_path
sort_by_path-IsSorted [] = tt
sort_by_path-IsSorted ((q, v) ∷ d) =
    insert_sorted-IsSorted q v (sort_by_path d) (sort_by_path-IsSorted d)

-- The deletions that a client pushes are in the order of their paths. At each path there is one
-- exactly if the ledger, which has one tombstone for a path, has a tombstone there, the client
-- itself lists nothing, and the server lists something older; it has the stamp and the deleter of
-- the tombstone.
pub compute_deletes_to_push_lem :
    (local remote : Manifest) (ledger : DeletionLedger)
    → NodupKeys ledger.entries
    → IsSorted (compute_deletes_to_push local remote ledger)
      × ((p : FilePath)
          → Dict.lookup p (compute_deletes_to_push local remote ledger)
            ≡ owed
                (Dict.lookup p ledger.entries)
                (Dict.lookup p local.files)
                (Dict.lookup p remote.files))
unfolding compute_deletes_to_push
compute_deletes_to_push_lem local remote ledger u = (
  sort_by_path-IsSorted (owed_loop local remote ledger.entries),
  λ p. ground (
    arith,
    lookup-sort_by_path p (owed_loop local remote ledger.entries),
    lookup-owed_loop local remote ledger.entries p u,
  ),
)
