-- ===== src/Ledger/Invariant.antt =====
-- The invariant that ledger.rs states of `DeletionLedger`.
use byte_hive.Base.{ℕ, zero, suc, ◌<◌, ◌≡◌, refl, Option, some, [], ◌∷◌, Text}
use byte_hive.Base.{arith, list_eq}
use byte_hive.Base.Dict
use byte_hive.Base.Dict.{Dict, NodupKeys}
use byte_hive.Base.Paths.{FilePath, component_eq}
use byte_hive.Ledger.{
  Tombstone, DeletionLedger, new, record_alive, offer, record_tombstone, merge_remote, prune,
  remove, unexpired, raise_alive,
}

-- Keys are unique, a tombstone stands under its own path, and it is newer than the live action
-- recorded for that path.
pub record IsLive (l : DeletionLedger) : Type 0 where
  pub entries_nodup : NodupKeys l.entries
  pub alive_nodup : NodupKeys l.alive
  pub own_path : (p : FilePath) (t : Tombstone) → Dict.lookup p l.entries ≡ some t → t.path ≡ p
  pub newer :
      (p : FilePath) (t : Tombstone) (a : ℕ)
      → Dict.lookup p l.entries ≡ some t
      → Dict.lookup p l.alive ≡ some a
      → a < t.deleted_at_ms
  pub positive : (p : FilePath) (a : ℕ) → Dict.lookup p l.alive ≡ some a → 0 < a

-- The tombstones of a received map stand under their own paths.
abbrev pub OwnPaths : Dict FilePath Tombstone → Type 0
OwnPaths [] = Unit
OwnPaths ((p, t) ∷ d) = (t.path ≡ p) × OwnPaths d

pub new-IsLive : IsLive new
unfolding Dict.lookup
new-IsLive = record {
  entries_nodup = tt;
  alive_nodup = tt;
  own_path = λ p t e. cc;
  newer = λ p t a e f. cc;
  positive = λ p a e. cc;
}

pub offer-IsLive :
    (l : DeletionLedger) (p : FilePath) (t : Tombstone)
    → t.path ≡ p
    → IsLive l
    → IsLive (offer l p t)
unfolding offer
offer-IsLive l p t own h = record {
  entries_nodup = ground (arith, h.entries_nodup, Dict.insert-NodupKeys p t l.entries);
  alive_nodup = ground (arith, h.alive_nodup);
  own_path = λ q u e. ground (arith, h.own_path q u, Dict.lookup-insert q p t l.entries);
  newer = λ q u a e f. ground (arith, h.newer q u a, Dict.lookup-insert q p t l.entries);
  positive = λ q a e. ground (arith, h.positive q a);
}

raise_alive-nodup :
    (l : DeletionLedger) (p : FilePath) (n : ℕ)
    → NodupKeys l.alive
    → NodupKeys (raise_alive l p n).0.alive
unfolding raise_alive
raise_alive-nodup l p n h = ground (arith, Dict.insert-NodupKeys p n l.alive)

pub record_alive-IsLive :
    (l : DeletionLedger) (p : FilePath) (n : ℕ) → IsLive l → IsLive (record_alive l p n).0
unfolding record_alive
record_alive-IsLive l p zero h = h
record_alive-IsLive l p (suc n) h = record {
  entries_nodup = ground (arith, h.entries_nodup, Dict.erase-NodupKeys p l.entries);
  alive_nodup = ground (arith, h.alive_nodup, Dict.insert-NodupKeys p (suc n) l.alive);
  own_path = λ q u e. ground (arith, h.own_path q u, Dict.lookup-erase q p l.entries);
  newer = λ q u a e f. ground (
    arith,
    h.newer q u a,
    Dict.lookup-erase q p l.entries,
    Dict.lookup-insert q p (suc n) l.alive,
  );
  positive = λ q a e. ground (arith, h.positive q a, Dict.lookup-insert q p (suc n) l.alive);
}

pub merge_remote-IsLive :
    (l : DeletionLedger) (remote : Dict FilePath Tombstone)
    → OwnPaths remote
    → IsLive l
    → IsLive (merge_remote l remote)
unfolding merge_remote
merge_remote-IsLive l [] own h = h
merge_remote-IsLive l ((p, t) ∷ remote) own h =
    merge_remote-IsLive (offer l p t) remote own.1 (offer-IsLive l p t own.0 h)

pub prune-IsLive : (l : DeletionLedger) (now ttl : ℕ) → IsLive l → IsLive (prune l now ttl).0
unfolding prune
prune-IsLive l now ttl h = record {
  entries_nodup = Dict.retain-NodupKeys _ l.entries h.entries_nodup;
  alive_nodup = Dict.retain-NodupKeys _ l.alive h.alive_nodup;
  own_path = λ q u e. ground (
    arith,
    h.own_path q u,
    Dict.lookup-retain (λ _ t. unexpired now ttl t.deleted_at_ms) q l.entries h.entries_nodup,
  );
  newer = λ q u a e f. ground (
    arith,
    h.newer q u a,
    Dict.lookup-retain (λ _ t. unexpired now ttl t.deleted_at_ms) q l.entries h.entries_nodup,
    Dict.lookup-retain (λ _ b. unexpired now ttl b) q l.alive h.alive_nodup,
  );
  positive = λ q a e. ground (
    arith,
    h.positive q a,
    Dict.lookup-retain (λ _ b. unexpired now ttl b) q l.alive h.alive_nodup,
  );
}

pub remove-IsLive : (l : DeletionLedger) (p : FilePath) → IsLive l → IsLive (remove l p).0
unfolding remove
remove-IsLive l p h = record {
  entries_nodup = Dict.erase-NodupKeys p l.entries h.entries_nodup;
  alive_nodup = h.alive_nodup;
  own_path = λ q u e. ground (arith, h.own_path q u, Dict.lookup-erase q p l.entries);
  newer = λ q u a e f. ground (arith, h.newer q u a, Dict.lookup-erase q p l.entries);
  positive = h.positive;
}

-- One mutation of the ledger, whoever makes it.
pub data Step (l : DeletionLedger) : DeletionLedger → Type 0 where
  alive : (p : FilePath) (n : ℕ) → Step l (record_alive l p n).0
  tombstone :
      (p : FilePath) (at : ℕ) (node : Text) (hash : Option Text) (mtime : Option ℕ)
      → Step l (record_tombstone l p at node hash mtime)
  merge : (remote : Dict FilePath Tombstone) → OwnPaths remote → Step l (merge_remote l remote)
  expire : (now ttl : ℕ) → Step l (prune l now ttl).0
  clear : (p : FilePath) → Step l (remove l p).0

pub data Reach : DeletionLedger → Type 0 where
  start : Reach new
  later : {l m : DeletionLedger} → Reach l → Step l m → Reach m

pub Step-IsLive : {l m : DeletionLedger} → Step l m → IsLive l → IsLive m
unfolding record_tombstone
Step-IsLive {l} (alive p n) h = record_alive-IsLive l p n h
Step-IsLive {l} (tombstone p at node hash mtime) h = offer-IsLive l p _ refl h
Step-IsLive {l} (merge remote own) h = merge_remote-IsLive l remote own h
Step-IsLive {l} (expire now ttl) h = prune-IsLive l now ttl h
Step-IsLive {l} (clear p) h = remove-IsLive l p h

-- In every ledger that the operations can build from the empty one, whatever is recorded, merged,
-- pruned or removed: each path has at most one tombstone and one live-action record, a tombstone
-- stands under its own path, and it is strictly newer than the live action recorded for that path, which has a positive
-- stamp.
pub Reach-IsLive : {l : DeletionLedger} → Reach l → IsLive l
Reach-IsLive start = new-IsLive
Reach-IsLive (later r st) = Step-IsLive st (Reach-IsLive r)
