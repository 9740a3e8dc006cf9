-- ===== src/SyncEngine/Admission/Exchange.antt =====
-- The exchange of ledgers: `ledger_entries` and `merge_ledger` of sync_engine.rs.
use mathlib.Core.List.{append-nil, append_assoc}
use byte_hive.Base.{ℕ, ◌||◌, ◌<◌, ◌≡◌, refl, sym, ◌∙◌, ap, Bool, false, Option, none}
use byte_hive.Base.{some, List, [], ◌∷◌, ◌++◌, arith, list_eq}
use byte_hive.Base.{Option-cases, inl, inr}
use byte_hive.Base.Dict
use byte_hive.Base.Dict.{Dict, NodupKeys}
use byte_hive.Base.Paths.{FilePath, component_eq}
use byte_hive.Protocol.{TombstoneDto}
use byte_hive.Ledger
use byte_hive.Ledger.{Tombstone, DeletionLedger, or_zero, stamp_at_most, newer_kept, lifted_by}
use byte_hive.Ledger.Invariant
use byte_hive.Ledger.Invariant.{IsLive}
use byte_hive.Ledger.Merge
use byte_hive.Ledger.Merge.{raised_with, lifted_with, joined_with}
use byte_hive.SyncEngine.Admission.{
  record_all_alive, sort_dtos, merge_dtos, tombstone_dtos, alive_dtos, ledger_entries,
}

-- Live records that are all positive.
abbrev Positive : Dict FilePath ℕ → Type 0
Positive [] = Unit
Positive ((_, a) ∷ d) = (0 < a) × Positive d

Positive-dict :
    (d : Dict FilePath ℕ)
    → NodupKeys d
    → ((p : FilePath) (a : ℕ) → Dict.lookup p d ≡ some a → 0 < a)
    → Positive d
unfolding Dict.lookup
Positive-dict [] u h = tt
Positive-dict ((k, a) ∷ d) (fresh, u) h =
    (h k a (ground arith), Positive-dict d u (λ p b e. h p b (ground arith)))

OwnPaths-dict :
    (d : Dict FilePath Tombstone)
    → NodupKeys d
    → ((p : FilePath) (t : Tombstone) → Dict.lookup p d ≡ some t → t.path ≡ p)
    → Invariant.OwnPaths d
unfolding Dict.lookup
OwnPaths-dict [] u h = tt
OwnPaths-dict ((k, a) ∷ d) (fresh, u) h =
    (h k a (ground arith), OwnPaths-dict d u (λ p b e. h p b (ground arith)))

record_all_alive_absent :
    (al : Dict FilePath ℕ) (l : DeletionLedger) (c : Bool) (q : FilePath)
    → Positive al
    → Dict.lookup q al ≡ none
    → (Dict.lookup q (record_all_alive al l c).0.alive ≡ Dict.lookup q l.alive)
      × (Dict.lookup q (record_all_alive al l c).0.entries ≡ Dict.lookup q l.entries)
unfolding record_all_alive
record_all_alive_absent [] l c q pos h = (refl, refl)
record_all_alive_absent ((k, n) ∷ al) l c q pos h = ground (
  arith,
  Dict.lookup-cons q k n al,
  record_all_alive_absent al (Ledger.record_alive l k n).0 ((Ledger.record_alive l k n).1 || c) q
      pos.1,
  Merge.record_alive-alive l k q n,
  Merge.record_alive-entries l k q n pos.0,
)

record_all_alive_lem :
    (al : Dict FilePath ℕ) (l : DeletionLedger) (c : Bool) (q : FilePath)
    → NodupKeys al
    → Positive al
    → (Dict.lookup q (record_all_alive al l c).0.alive
        ≡ raised_with (Dict.lookup q l.alive) (Dict.lookup q al))
      × (Dict.lookup q (record_all_alive al l c).0.entries
          ≡ lifted_with (Dict.lookup q l.entries) (Dict.lookup q al))
unfolding record_all_alive
record_all_alive_lem [] l c q u pos = (rw Dict.lookup-nil, rw Dict.lookup-nil)
record_all_alive_lem ((k, n) ∷ al) l c q (fresh, u) pos =
    let l' = (Ledger.record_alive l k n).0 in
    let c' = (Ledger.record_alive l k n).1 || c in
    ground (
      arith,
      Dict.lookup-cons q k n al,
      record_all_alive_lem al l' c' q u pos.1,
      record_all_alive_absent al l' c' q pos.1,
      Merge.record_alive-alive l k q n,
      Merge.record_alive-entries l k q n pos.0,
    )

insert_all : Dict FilePath Tombstone → Dict FilePath Tombstone → Dict FilePath Tombstone
insert_all [] acc = acc
insert_all ((k, t) ∷ d) acc = insert_all d (Dict.insert k t acc)

lookup-insert_all_absent :
    (d acc : Dict FilePath Tombstone) (q : FilePath)
    → Dict.lookup q d ≡ none
    → Dict.lookup q (insert_all d acc) ≡ Dict.lookup q acc
unfolding insert_all
lookup-insert_all_absent [] acc q h = refl
lookup-insert_all_absent ((k, t) ∷ d) acc q h = ground (
  arith,
  Dict.lookup-cons q k t d,
  Dict.lookup-insert q k t acc,
  lookup-insert_all_absent d (Dict.insert k t acc) q,
)

lookup-insert_all :
    (d acc : Dict FilePath Tombstone) (q : FilePath) (t : Tombstone)
    → NodupKeys d
    → Dict.lookup q d ≡ some t
    → Dict.lookup q (insert_all d acc) ≡ some t
unfolding insert_all
lookup-insert_all [] acc q t u h = absurd (ground (arith, Dict.lookup-nil {V = Tombstone} q))
lookup-insert_all ((k, w) ∷ d) acc q t (fresh, u) h = ground (
  arith,
  Dict.lookup-cons q k w d,
  Dict.lookup-insert q k w acc,
  lookup-insert_all d (Dict.insert k w acc) q t u,
  lookup-insert_all_absent d (Dict.insert k w acc) q,
)

insert_all-NodupKeys :
    (d acc : Dict FilePath Tombstone) → NodupKeys acc → NodupKeys (insert_all d acc)
unfolding insert_all
insert_all-NodupKeys [] acc u = u
insert_all-NodupKeys ((k, w) ∷ d) acc u =
    insert_all-NodupKeys d (Dict.insert k w acc) (Dict.insert-NodupKeys k w acc u)

lookup-insert_all_nil :
    (d : Dict FilePath Tombstone) (q : FilePath)
    → NodupKeys d
    → Dict.lookup q (insert_all d []) ≡ Dict.lookup q d
lookup-insert_all_nil d q u = elim (Option-cases (Dict.lookup q d)) [
  | inl e ↦ lookup-insert_all_absent d [] q e ∙ Dict.lookup-nil q ∙ sym e
  | inr (t, e) ↦ lookup-insert_all d [] q t u e ∙ sym e
]

sort_dtos-tombstones :
    (d : Dict FilePath Tombstone) (rest : List TombstoneDto) (al : List (FilePath × ℕ))
    (acc : Dict FilePath Tombstone)
    → Invariant.OwnPaths d
    → sort_dtos (tombstone_dtos d ++ rest) (al, acc) ≡ sort_dtos rest (al, insert_all d acc)
unfolding sort_dtos tombstone_dtos insert_all
sort_dtos-tombstones [] rest al acc own = refl
sort_dtos-tombstones ((k, t) ∷ d) rest al acc own =
    ap (λ p. sort_dtos (tombstone_dtos d ++ rest) (al, Dict.insert p t acc)) own.0
    ∙ sort_dtos-tombstones d rest al (Dict.insert k t acc) own.1

sort_dtos-alive :
    (d al : Dict FilePath ℕ) (acc : Dict FilePath Tombstone)
    → sort_dtos (alive_dtos d) (al, acc) ≡ (al ++ d, acc)
unfolding sort_dtos alive_dtos
sort_dtos-alive [] al acc = rw append-nil
sort_dtos-alive ((k, n) ∷ d) al acc = sort_dtos-alive d (al ++ (k, n) ∷ []) acc ∙ rw append_assoc

-- The entries of a ledger, sorted by the receiver, are its live records and its tombstones.
sort_dtos-ledger_entries :
    (m : DeletionLedger)
    → IsLive m
    → sort_dtos (ledger_entries m) ([], []) ≡ (m.alive, insert_all m.entries [])
unfolding ledger_entries
sort_dtos-ledger_entries m h =
    sort_dtos-tombstones m.entries (alive_dtos m.alive) [] []
      (OwnPaths-dict m.entries h.entries_nodup h.own_path)
    ∙ sort_dtos-alive m.alive [] (insert_all m.entries [])

-- What a merge of the other side's entries leaves at one path.
pub merge_dtos-ledger_entries :
    (l m : DeletionLedger) (q : FilePath)
    → IsLive m
    → (Dict.lookup q (merge_dtos (ledger_entries m) l).alive
        ≡ raised_with (Dict.lookup q l.alive) (Dict.lookup q m.alive))
      × (Dict.lookup q (merge_dtos (ledger_entries m) l).entries
          ≡ joined_with
              (raised_with (Dict.lookup q l.alive) (Dict.lookup q m.alive))
              (lifted_with (Dict.lookup q l.entries) (Dict.lookup q m.alive))
              (Dict.lookup q m.entries))
unfolding merge_dtos
merge_dtos-ledger_entries l m q h =
    let l' = (record_all_alive m.alive l false).0 in
    let remote = insert_all m.entries [] in
    let (al, en) =
      record_all_alive_lem m.alive l false q h.alive_nodup
        (Positive-dict m.alive h.alive_nodup h.positive) in
    (
      rw (sort_dtos-ledger_entries m h)
          (ap (λ (d : Dict FilePath ℕ). Dict.lookup q d) (Merge.merge_remote-alive l' remote) ∙ al),
      rw (sort_dtos-ledger_entries m h) (
          rw (← lookup-insert_all_nil m.entries q h.entries_nodup, ← al, ← en)
            (Merge.merge_remote-entries l' remote q (insert_all-NodupKeys m.entries [] tt))),
    )

-- The stamp of a tombstone.
abbrev pub stamp : Option Tombstone → Option ℕ
stamp none = none
stamp (some t) = some t.deleted_at_ms

abbrev PositiveAt : Option ℕ → Type 0
PositiveAt none = Unit
PositiveAt (some x) = 0 < x

abbrev NewerAt : Option ℕ → Option Tombstone → Type 0
NewerAt none t = Unit
NewerAt (some x) none = Unit
NewerAt (some x) (some t) = x < t.deleted_at_ms

joined_comm :
    (a b : Option ℕ) (t u : Option Tombstone)
    → PositiveAt a
    → PositiveAt b
    → NewerAt a t
    → NewerAt b u
    → (raised_with a b ≡ raised_with b a)
      × (stamp (joined_with (raised_with a b) (lifted_with t b) u)
          ≡ stamp (joined_with (raised_with b a) (lifted_with u a) t))
joined_comm none none none none pa pb ta ub = (refl, refl)
joined_comm _ _ _ _ pa pb ta ub = (ground arith, ground arith)

positive_at : (o : Option ℕ) → ((a : ℕ) → o ≡ some a → 0 < a) → PositiveAt o
positive_at none h = tt
positive_at (some a) h = h a refl

newer_at :
    (o : Option ℕ) (t : Option Tombstone)
    → ((v : Tombstone) (a : ℕ) → t ≡ some v → o ≡ some a → a < v.deleted_at_ms)
    → NewerAt o t
newer_at none t h = tt
newer_at (some a) none h = tt
newer_at (some a) (some v) h = h v a refl refl

-- Two engines whose ledgers keep their invariant, and that each merge the entries that the other one
-- sends, agree afterwards: at every path both have the same live-action record, and both have a
-- tombstone with the same stamp or both have none.
pub exchange_converges :
    (l m : DeletionLedger) (q : FilePath)
    → IsLive l
    → IsLive m
    → (Dict.lookup q (merge_dtos (ledger_entries m) l).alive
        ≡ Dict.lookup q (merge_dtos (ledger_entries l) m).alive)
      × (stamp (Dict.lookup q (merge_dtos (ledger_entries m) l).entries)
          ≡ stamp (Dict.lookup q (merge_dtos (ledger_entries l) m).entries))
exchange_converges l m q hl hm =
    let (al, el) = merge_dtos-ledger_entries l m q hm in
    let (am, em) = merge_dtos-ledger_entries m l q hl in
    let a = Dict.lookup q l.alive in
    let b = Dict.lookup q m.alive in
    let t = Dict.lookup q l.entries in
    let u = Dict.lookup q m.entries in
    let (ca, ce) =
      joined_comm a b t u (positive_at a (hl.positive q)) (positive_at b (hm.positive q))
        (newer_at a t (hl.newer q)) (newer_at b u (hm.newer q)) in
    (al ∙ ca ∙ sym am, ap stamp el ∙ ce ∙ sym (ap stamp em))
