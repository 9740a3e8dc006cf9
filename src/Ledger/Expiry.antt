-- ===== src/Ledger/Expiry.antt =====
-- `prune` of ledger.rs.
use byte_hive.Base.{ℕ, ◌+◌, ◌≤◌, ◌<◌, ◌≡◌, Option, none, some, [], ◌∷◌}
use byte_hive.Base.{Bool, false, arith, list_eq, length, if◌then◌else◌}
use byte_hive.Base.Dict
use byte_hive.Base.Dict.{Dict}
use byte_hive.Base.Paths.{FilePath, component_eq}
use byte_hive.Ledger.{Tombstone, DeletionLedger, prune, unexpired}
use byte_hive.Ledger.Invariant.{IsLive}

abbrev pub fresh_tomb : ℕ → ℕ → Option Tombstone → Option Tombstone
fresh_tomb now ttl none = none
fresh_tomb now ttl (some t) = if unexpired now ttl t.deleted_at_ms then some t else none

abbrev pub fresh_alive : ℕ → ℕ → Option ℕ → Option ℕ
fresh_alive now ttl none = none
fresh_alive now ttl (some a) = if unexpired now ttl a then some a else none

-- A stamp expires exactly when it lies more than the time to live before now.
unexpired_iff : (now ttl stamp : ℕ) → unexpired now ttl stamp ≡ false → stamp + ttl < now
unexpired_iff now ttl stamp h = ground arith

length-retain {ℓ κ} :
    {K : Type ℓ} {V : Type κ} (p : K → V → Bool) (d : Dict K V)
    → length (Dict.retain p d) ≤ length d
unfolding Dict.retain
length-retain p [] = omega arith
length-retain p ((k, v) ∷ d) = ground (arith, length-retain p d)

-- `prune` keeps a tombstone or a live-action record exactly when it is not older than the time to
-- live, those from the future included, and reports how many of both it removed.
pub prune_lem :
    (l : DeletionLedger) (now ttl : ℕ) (q : FilePath)
    → IsLive l
    → (Dict.lookup q (prune l now ttl).0.entries ≡ fresh_tomb now ttl (Dict.lookup q l.entries))
      × (Dict.lookup q (prune l now ttl).0.alive ≡ fresh_alive now ttl (Dict.lookup q l.alive))
      × ((prune l now ttl).1 + length (prune l now ttl).0.entries + length (prune l now ttl).0.alive
          ≡ length l.entries + length l.alive)
unfolding prune
prune_lem l now ttl q h = (
  ground (
    arith,
    Dict.lookup-retain (λ _ t. unexpired now ttl t.deleted_at_ms) q l.entries h.entries_nodup,
  ),
  ground (arith, Dict.lookup-retain (λ _ b. unexpired now ttl b) q l.alive h.alive_nodup),
  omega (
    arith,
    length-retain (λ (_ : FilePath) (t : Tombstone). unexpired now ttl t.deleted_at_ms) l.entries,
    length-retain (λ (_ : FilePath) (b : ℕ). unexpired now ttl b) l.alive,
  ),
)
