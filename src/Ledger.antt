-- ===== src/Ledger.antt =====
-- crates/filesync/src/ledger.rs: the persistent deletion ledger. A `HashMap` is a `Dict`, a path
-- its components, a time a number of milliseconds.
pub mod Invariant
pub mod Covering
pub mod Merge
pub mod Expiry
use byte_hive.Base.{ℕ, zero, suc, ◌+◌, ◌-◌, ◌*◌, Bool, true, false, ◌&&◌, ◌||◌, not}
use byte_hive.Base.{Option, none, some, List, [], ◌∷◌, Text, ltb, leb, if◌then◌else◌}
use byte_hive.Base.{is_some, length, list_eq, ◌==◌}
use byte_hive.Base.Dict
use byte_hive.Base.Dict.{Dict}
use byte_hive.Base.Paths.{FilePath, component_eq, ancestors}

-- 90 days
abbrev pub deletion_ledger_ttl_ms : ℕ
deletion_ledger_ttl_ms = 90 * 24 * 60 * 60 * 1000

pub record Tombstone : Type 0 where
  pub path : FilePath
  pub deleted_at_ms : ℕ
  pub deleter_node : Text
  pub prev_hash : Option Text
  pub prev_mtime_ms : Option ℕ

pub record DeletionLedger : Type 0 where
  pub entries : Dict FilePath Tombstone
  pub alive : Dict FilePath ℕ

abbrev pub new : DeletionLedger
new = record { entries = []; alive = [] }

-- `unwrap_or(0)`
abbrev pub or_zero : Option ℕ → ℕ
or_zero none = 0
or_zero (some a) = a

unfoldable pub alive_since : DeletionLedger → FilePath → ℕ
alive_since l path = or_zero (Dict.lookup path l.alive)

-- `matches!(floor, Some(a) if stamp <= a)`
abbrev pub stamp_at_most : Option ℕ → ℕ → Bool
stamp_at_most none stamp = false
stamp_at_most (some a) stamp = leb stamp a

unfoldable pub is_superseded : DeletionLedger → FilePath → ℕ → Bool
is_superseded l path deleted_at_ms = stamp_at_most (Dict.lookup path l.alive) deleted_at_ms

-- `matches!(entry, Some(t) if t.deleted_at_ms <= action_ms)`
abbrev pub lifted_by : Option Tombstone → ℕ → Bool
lifted_by none action_ms = false
lifted_by (some t) action_ms = leb t.deleted_at_ms action_ms

unfoldable pub alive_record_needed : DeletionLedger → FilePath → ℕ → Bool
unfolding alive_since
alive_record_needed l path action_ms =
    ltb 0 action_ms
    && (ltb (alive_since l path) action_ms || lifted_by (Dict.lookup path l.entries) action_ms)

-- The first `if` of `record_alive`, and the second.
raise_alive : DeletionLedger → FilePath → ℕ → DeletionLedger × Bool
unfolding alive_since
raise_alive l path action_ms =
    if ltb (alive_since l path) action_ms
    then (record l { alive = Dict.insert path action_ms l.alive }, true)
    else (l, false)

lift_tombstone : DeletionLedger → FilePath → ℕ → Bool → DeletionLedger × Bool
lift_tombstone l path action_ms changed =
    if lifted_by (Dict.lookup path l.entries) action_ms
    then (record l { entries = Dict.erase path l.entries }, true)
    else (l, changed)

unfoldable pub record_alive : DeletionLedger → FilePath → ℕ → DeletionLedger × Bool
unfolding raise_alive lift_tombstone
record_alive l path zero = (l, false)
record_alive l path (suc n) =
    let (l', changed) = raise_alive l path (suc n) in lift_tombstone l' path (suc n) changed

-- `matches!(entry, Some(existing) if existing.deleted_at_ms >= stamp)`
abbrev pub newer_kept : Option Tombstone → ℕ → Bool
newer_kept none stamp = false
newer_kept (some existing) stamp = leb stamp existing.deleted_at_ms

-- The last-writer-wins step that `record` and `merge_remote` share.
unfoldable pub offer : DeletionLedger → FilePath → Tombstone → DeletionLedger
unfolding is_superseded
offer l path t =
    if is_superseded l path t.deleted_at_ms
    then l
    else if newer_kept (Dict.lookup path l.entries) t.deleted_at_ms
    then l
    else record l { entries = Dict.insert path t l.entries }

unfoldable pub record_tombstone :
    DeletionLedger → FilePath → ℕ → Text → Option Text → Option ℕ → DeletionLedger
unfolding offer
record_tombstone l path deleted_at_ms deleter_node prev_hash prev_mtime_ms = offer l path (record {
  path = path;
  deleted_at_ms = deleted_at_ms;
  deleter_node = deleter_node;
  prev_hash = prev_hash;
  prev_mtime_ms = prev_mtime_ms;
})

unfoldable pub has_newer_than : DeletionLedger → FilePath → ℕ → Bool
has_newer_than l path mtime_ms = elim (Dict.lookup path l.entries) [
  | none ↦ false
  | some t ↦ ltb mtime_ms t.deleted_at_ms
]

-- The loop of `covering_tombstone` over the ancestors that are left.
covering_loop : Dict FilePath Tombstone → Option ℕ → List FilePath → Option Tombstone
covering_loop entries floor [] = none
covering_loop entries floor ([] ∷ rest) = none
covering_loop entries floor ((c ∷ p) ∷ rest) =
    let next = covering_loop entries floor rest in
    elim (Dict.lookup (c ∷ p) entries) [
      | none ↦ next
      | some t ↦ if stamp_at_most floor t.deleted_at_ms then next else some t
    ]

unfoldable pub covering_tombstone : DeletionLedger → FilePath → Option Tombstone
unfolding covering_loop ancestors
covering_tombstone l path = covering_loop l.entries (Dict.lookup path l.alive) (ancestors path)

unfoldable pub has_newer_than_prefix : DeletionLedger → FilePath → ℕ → Bool
unfolding covering_tombstone
has_newer_than_prefix l path mtime_ms = elim (covering_tombstone l path) [
  | none ↦ false
  | some t ↦ ltb mtime_ms t.deleted_at_ms
]

unfoldable pub merge_remote : DeletionLedger → Dict FilePath Tombstone → DeletionLedger
unfolding offer
merge_remote l [] = l
merge_remote l ((path, tomb) ∷ remote) = merge_remote (offer l path tomb) remote

-- The test of both `retain` calls; `-` is `saturating_sub`.
abbrev pub unexpired : ℕ → ℕ → ℕ → Bool
unexpired now_ms ttl_ms stamp = if ltb now_ms stamp then true else leb (now_ms - stamp) ttl_ms

unfoldable pub prune : DeletionLedger → ℕ → ℕ → DeletionLedger × ℕ
prune l now_ms ttl_ms =
    let entries = Dict.retain (λ _ t. unexpired now_ms ttl_ms t.deleted_at_ms) l.entries in
    let alive = Dict.retain (λ _ a. unexpired now_ms ttl_ms a) l.alive in
    (
      record { entries = entries; alive = alive },
      (length l.entries - length entries) + (length l.alive - length alive),
    )

unfoldable pub prune_expired : DeletionLedger → ℕ → DeletionLedger × ℕ
unfolding prune
prune_expired l now_ms = prune l now_ms deletion_ledger_ttl_ms

unfoldable pub remove : DeletionLedger → FilePath → DeletionLedger × Option Tombstone
remove l path = (record l { entries = Dict.erase path l.entries }, Dict.lookup path l.entries)

unfoldable pub get : DeletionLedger → FilePath → Option Tombstone
get l path = Dict.lookup path l.entries

pub contains_path : DeletionLedger → FilePath → Bool
contains_path l path = is_some (Dict.lookup path l.entries)

pub len : DeletionLedger → ℕ
len l = length l.entries
