-- ===== src/Ledger/Merge.antt =====
-- `merge_remote` and `record_alive` of ledger.rs, at one path.
use byte_hive.Base.{
  ◌≤◌, Bool-cases, Option-cases, inl, inr, sym, ℕ, zero, suc, ◌<◌, ◌≡◌, refl, ◌∙◌, Option, none,
  some, [], ◌∷◌,
}
use byte_hive.Base.{false, arith, list_eq, ltb, if◌then◌else◌, ◌==◌}
use mathlib.Core.Path.{subst}
use byte_hive.Base.Dict
use byte_hive.Base.Dict.{Dict, NodupKeys}
use byte_hive.Base.Paths.{FilePath, component_eq}
use byte_hive.Ledger.{
  Tombstone, DeletionLedger, record_alive, alive_record_needed, offer, merge_remote, stamp_at_most,
  newer_kept, lifted_by, or_zero,
}

-- A tombstone offered to a path with the live action `floor` and the tombstone `old`.
abbrev pub joined : Option ℕ → Option Tombstone → Tombstone → Option Tombstone
joined floor old t =
    if stamp_at_most floor t.deleted_at_ms
    then old
    else if newer_kept old t.deleted_at_ms
    then old
    else some t

abbrev pub joined_with : Option ℕ → Option Tombstone → Option Tombstone → Option Tombstone
joined_with floor old none = old
joined_with floor old (some t) = joined floor old t

abbrev pub raised : Option ℕ → ℕ → Option ℕ
raised old n = if ltb (or_zero old) n then some n else old

abbrev pub raised_with : Option ℕ → Option ℕ → Option ℕ
raised_with old none = old
raised_with old (some n) = raised old n

abbrev pub lifted : Option Tombstone → ℕ → Option Tombstone
lifted old n = if lifted_by old n then none else old

abbrev pub lifted_with : Option Tombstone → Option ℕ → Option Tombstone
lifted_with old none = old
lifted_with old (some n) = lifted old n

pub offer-entries :
    (l : DeletionLedger) (p q : FilePath) (t : Tombstone)
    → Dict.lookup q (offer l p t).entries ≡ (
        if q == p
        then joined (Dict.lookup q l.alive) (Dict.lookup q l.entries) t
        else Dict.lookup q l.entries)
unfolding offer
offer-entries l p q t = ground (arith, Dict.lookup-insert q p t l.entries)

pub offer-alive :
    (l : DeletionLedger) (p : FilePath) (t : Tombstone) → (offer l p t).alive ≡ l.alive
unfolding offer
offer-alive l p t = ground arith

pub merge_remote-alive :
    (l : DeletionLedger) (remote : Dict FilePath Tombstone)
    → (merge_remote l remote).alive ≡ l.alive
unfolding merge_remote
merge_remote-alive l [] = refl
merge_remote-alive l ((p, t) ∷ remote) = merge_remote-alive (offer l p t) remote ∙ offer-alive l p t

merge_remote_absent :
    (l : DeletionLedger) (remote : Dict FilePath Tombstone) (q : FilePath)
    → Dict.lookup q remote ≡ none
    → Dict.lookup q (merge_remote l remote).entries ≡ Dict.lookup q l.entries
unfolding merge_remote
merge_remote_absent l [] q h = refl
merge_remote_absent l ((p, t) ∷ remote) q h = ground (
  arith,
  Dict.lookup-cons q p t remote,
  merge_remote_absent (offer l p t) remote q,
  offer-entries l p q t,
)

pub merge_remote-entries :
    (l : DeletionLedger) (remote : Dict FilePath Tombstone) (q : FilePath)
    → NodupKeys remote
    → Dict.lookup q (merge_remote l remote).entries
      ≡ joined_with (Dict.lookup q l.alive) (Dict.lookup q l.entries) (Dict.lookup q remote)
unfolding merge_remote
merge_remote-entries l [] q u = rw Dict.lookup-nil
merge_remote-entries l ((p, t) ∷ remote) q (fresh, u) = ground (
  arith,
  Dict.lookup-cons q p t remote,
  merge_remote-entries (offer l p t) remote q u,
  merge_remote_absent (offer l p t) remote q,
  offer-entries l p q t,
  offer-alive l p t,
)

-- What a merge leaves at a path, given its live action, its own tombstone and the remote one.
pub data Merges : Option ℕ → Option Tombstone → Option Tombstone → Option Tombstone → Type 0 where
  not_offered : (floor : Option ℕ) (old : Option Tombstone) → Merges floor old none old
  superseded :
      (a : ℕ) (old : Option Tombstone) (t : Tombstone)
      → t.deleted_at_ms ≤ a
      → Merges (some a) old (some t) old
  own_kept :
      (floor : Option ℕ) (o t : Tombstone)
      → t.deleted_at_ms ≤ o.deleted_at_ms
      → Merges floor (some o) (some t) (some o)
  remote_taken :
      (floor : Option ℕ) (old : Option Tombstone) (t : Tombstone)
      → ((a : ℕ) → floor ≡ some a → a < t.deleted_at_ms)
      → ((o : Tombstone) → old ≡ some o → o.deleted_at_ms < t.deleted_at_ms)
      → Merges floor old (some t) (some t)

joined-Merges :
    (floor : Option ℕ) (old : Option Tombstone) (t : Tombstone)
    → Merges floor old (some t) (joined floor old t)
joined-Merges none none t = remote_taken none none t (λ a h. cc) (λ o h. cc)
joined-Merges none (some o) t = elim (Bool-cases (newer_kept (some o) t.deleted_at_ms)) [
  | inl kept ↦ rw kept (own_kept none o t (ground (arith, kept)))
  | inr beaten ↦
      rw beaten (remote_taken none (some o) t (λ a h. cc) (λ p h. ground (arith, beaten, h)))
]
joined-Merges (some a) old t = elim (Bool-cases (stamp_at_most (some a) t.deleted_at_ms)) [
  | inl live ↦ rw live (superseded a old t (ground (arith, live)))
  | inr dead ↦ elim (Bool-cases (newer_kept old t.deleted_at_ms)) [
    | inl kept ↦ elim (Option-cases old) [
      | inl e ↦ absurd (ground (arith, kept, e))
      | inr (o, e) ↦ rw (dead, kept, e) (own_kept (some a) o t (ground (arith, kept, e)))
    ]
    | inr beaten ↦
        rw (dead, beaten)
          (remote_taken (some a) old t (λ b h. ground (arith, dead, h))
            (λ o h. ground (arith, beaten, h)))
  ]
]

joined_with-Merges :
    (floor : Option ℕ) (old remote : Option Tombstone)
    → Merges floor old remote (joined_with floor old remote)
joined_with-Merges floor old none = not_offered floor old
joined_with-Merges floor old (some t) = joined-Merges floor old t

-- After `merge_remote`, at each path: where no tombstone was offered, or one that is not newer than
-- the live action recorded for the path, the path keeps what it had; where its own tombstone is at
-- least as new as the one offered, it keeps its own; where the one offered is newer than both, it
-- has that one. The remote side offers one tombstone for a path.
pub merge_remote-Merges :
    (l : DeletionLedger) (remote : Dict FilePath Tombstone) (q : FilePath)
    → NodupKeys remote
    → Merges
        (Dict.lookup q l.alive)
        (Dict.lookup q l.entries)
        (Dict.lookup q remote)
        (Dict.lookup q (merge_remote l remote).entries)
merge_remote-Merges l remote q u =
    subst (Merges (Dict.lookup q l.alive) (Dict.lookup q l.entries) (Dict.lookup q remote))
      (sym (merge_remote-entries l remote q u))
      (joined_with-Merges (Dict.lookup q l.alive) (Dict.lookup q l.entries) (Dict.lookup q remote))

pub record_alive-alive :
    (l : DeletionLedger) (p q : FilePath) (n : ℕ)
    → Dict.lookup q (record_alive l p n).0.alive
      ≡ (if q == p then raised (Dict.lookup q l.alive) n else Dict.lookup q l.alive)
unfolding record_alive
record_alive-alive l p q zero = ground arith
record_alive-alive l p q (suc n) = ground (arith, Dict.lookup-insert q p (suc n) l.alive)

pub record_alive-entries :
    (l : DeletionLedger) (p q : FilePath) (n : ℕ)
    → 0 < n
    → Dict.lookup q (record_alive l p n).0.entries
      ≡ (if q == p then lifted (Dict.lookup q l.entries) n else Dict.lookup q l.entries)
unfolding record_alive
record_alive-entries l p q zero h = absurd (omega arith)
record_alive-entries l p q (suc n) h = ground (arith, Dict.lookup-erase q p l.entries)

-- `alive_record_needed` says beforehand exactly whether `record_alive` reports a change; when it
-- says no, `record_alive` leaves the ledger as it is.
pub alive_record_needed-record_alive :
    (l : DeletionLedger) (p : FilePath) (n : ℕ)
    → ((record_alive l p n).1 ≡ alive_record_needed l p n)
      × (alive_record_needed l p n ≡ false → (record_alive l p n).0 ≡ l)
unfolding record_alive alive_record_needed
alive_record_needed-record_alive l p zero = (ground arith, λ h. refl)
alive_record_needed-record_alive l p (suc n) = (ground arith, λ h. ground arith)
