-- ===== src/Manifest/Resurrection.antt =====
-- `filter_resurrected` of manifest.rs.
use byte_hive.Base.{Option-cases, ◌↔◌}
use byte_hive.Base.{
  ℕ, ◌≤◌, ◌||◌, Bool-cases, ◌<◌, ◌≡◌, ◌≢◌, refl, ◌⊎◌, inl, inr, Bool, true, false, none,
}
use byte_hive.Base.{some, List, [], ◌∷◌, arith, contains, ◌&&◌, nat_eq, list_eq}
use byte_hive.Base.Dict
use byte_hive.Base.Dict.{Dict, NodupKeys}
use byte_hive.Base.Paths.{FilePath, component_eq}
use byte_hive.Protocol.{FileMetadata, Manifest}
use byte_hive.Hex.{hex}
use byte_hive.Ledger
use byte_hive.Ledger.Invariant
use byte_hive.Ledger.Covering
use byte_hive.Ledger.{Tombstone, DeletionLedger}
use byte_hive.Manifest.{
  Verdict, veto, pass, recreate, verdict, filter_loop, filter_resurrected, hash_matches,
  mtime_not_newer,
}

abbrev pub is_sent : Verdict → Bool
is_sent veto = false
is_sent pass = true
is_sent recreate = true

abbrev pub is_recreate : Verdict → Bool
is_recreate veto = false
is_recreate pass = false
is_recreate recreate = true

contains-filter_loop :
    (paths : List FilePath) (local : Manifest) (ledger : DeletionLedger) (p : FilePath)
    → (contains (filter_loop paths local ledger).0 p
        ≡ (contains paths p && is_sent (verdict local ledger p)))
      × (contains (filter_loop paths local ledger).1 p
          ≡ (contains paths p && is_recreate (verdict local ledger p)))
unfolding filter_loop
contains-filter_loop [] local ledger p = (refl, refl)
contains-filter_loop (q ∷ paths) local ledger p =
    ground (arith, contains-filter_loop paths local ledger p)

-- The file may be the version that the tombstone deleted: the tombstone has no hash, or the file's; or
-- it has no modification time, or one that is not older than the file's.
pub data MayBeDeleted (tomb : Tombstone) (lm : FileMetadata) : Type 0 where
  no_hash : tomb.prev_hash ≡ none → MayBeDeleted tomb lm
  same_hash : tomb.prev_hash ≡ some (hex lm.hash) → MayBeDeleted tomb lm
  no_mtime : tomb.prev_mtime_ms ≡ none → MayBeDeleted tomb lm
  no_newer : (m : ℕ) → tomb.prev_mtime_ms ≡ some m → lm.modified_ms ≤ m → MayBeDeleted tomb lm

hash_matches-MayBeDeleted :
    (tomb : Tombstone) (lm : FileMetadata)
    → hash_matches tomb.prev_hash lm.hash ≡ true
    → MayBeDeleted tomb lm
hash_matches-MayBeDeleted tomb lm h = elim (Option-cases tomb.prev_hash) [
  | inl e ↦ no_hash e
  | inr (prev, e) ↦ same_hash (ground (arith, e, h))
]

mtime_not_newer-MayBeDeleted :
    (tomb : Tombstone) (lm : FileMetadata)
    → mtime_not_newer tomb.prev_mtime_ms lm.modified_ms ≡ true
    → MayBeDeleted tomb lm
mtime_not_newer-MayBeDeleted tomb lm h = elim (Option-cases tomb.prev_mtime_ms) [
  | inl e ↦ no_mtime e
  | inr (m, e) ↦ no_newer m e (ground (arith, e, h))
]

MayBeDeleted-either :
    (tomb : Tombstone) (lm : FileMetadata)
    → MayBeDeleted tomb lm
    → (hash_matches tomb.prev_hash lm.hash || mtime_not_newer tomb.prev_mtime_ms lm.modified_ms)
      ≡ true
MayBeDeleted-either tomb lm (no_hash e) = ground (arith, e)
MayBeDeleted-either tomb lm (same_hash e) = ground (arith, e)
MayBeDeleted-either tomb lm (no_mtime e) = ground (arith, e)
MayBeDeleted-either tomb lm (no_newer m e l) = ground (arith, e, l)

either-MayBeDeleted :
    (tomb : Tombstone) (lm : FileMetadata)
    → (hash_matches tomb.prev_hash lm.hash || mtime_not_newer tomb.prev_mtime_ms lm.modified_ms)
      ≡ true
    → MayBeDeleted tomb lm
either-MayBeDeleted tomb lm h = elim (Bool-cases (hash_matches tomb.prev_hash lm.hash)) [
  | inl same ↦ hash_matches-MayBeDeleted tomb lm same
  | inr other ↦ mtime_not_newer-MayBeDeleted tomb lm (ground (arith, h, other))
]

-- The tombstone that covers `p` is newer than the file; and where it is the path's own, the file may
-- be the version that was deleted.
pub record IsVetoed (ledger : DeletionLedger) (p : FilePath) (lm : FileMetadata) : Type 0 where
  pub tomb : Tombstone
  pub covers : Ledger.covering_tombstone ledger p ≡ some tomb
  pub newer : lm.modified_ms < tomb.deleted_at_ms
  pub stale : (Dict.lookup p ledger.entries ≡ none) ⊎ MayBeDeleted tomb lm

module _ (local : Manifest) (ledger : DeletionLedger) (p : FilePath) (lm : FileMetadata)
    (live : Invariant.IsLive ledger) (nonempty : p ≢ [])
    (held : Dict.lookup p local.files ≡ some lm) where
  verdict-veto : verdict local ledger p ≡ veto → IsVetoed ledger p lm
  unfolding verdict
  verdict-veto h = elim (Option-cases (Dict.lookup p ledger.entries)) [
    | inl e ↦ elim (Option-cases (Ledger.covering_tombstone ledger p)) [
      | inl e' ↦ absurd (ground arith)
      | inr (t, e') ↦ record { tomb = t; covers = e'; newer = ground arith; stale = inl e }
    ]
    | inr (t, e) ↦ record {
      tomb = t;
      covers = Covering.covering_tombstone_exact ledger p t live nonempty e;
      newer = ground arith;
      stale = inr (either-MayBeDeleted t lm (ground (arith, h, e)));
    }
  ]

  veto-verdict : IsVetoed ledger p lm → verdict local ledger p ≡ veto
  unfolding verdict
  veto-verdict v = elim (Option-cases (Dict.lookup p ledger.entries)) [
    | inl e ↦ ground (arith, v.covers, v.newer)
    | inr (t, e) ↦ elim v.stale [
      | inl gone ↦ absurd (ground (arith, gone, e))
      | inr may ↦ ground (
        arith,
        v.covers,
        v.newer,
        MayBeDeleted-either v.tomb lm may,
        Covering.covering_tombstone_exact ledger p t live nonempty e,
      )
    ]
  ]

  verdict-recreate :
      verdict local ledger p ≡ recreate
      → (t : Tombstone) × (Ledger.covering_tombstone ledger p ≡ some t)
        × (t.deleted_at_ms < lm.modified_ms)
  unfolding verdict
  verdict-recreate h = elim (Option-cases (Dict.lookup p ledger.entries)) [
    | inl e ↦ elim (Option-cases (Ledger.covering_tombstone ledger p)) [
      | inl e' ↦ absurd (ground arith)
      | inr (t, e') ↦ (t, e', ground arith)
    ]
    | inr (t, e) ↦ (t, Covering.covering_tombstone_exact ledger p t live nonempty e, ground arith)
  ]

-- Of the paths offered for sending, `filter_resurrected` drops one that the local side holds exactly
-- if the tombstone that covers it is newer than the local file and, where that is the path's own
-- tombstone, the file may be the version that was deleted: the tombstone has no hash or the file's, or
-- has no modification time or one that is not older than the file's. It reports as
-- resurrected only paths that it lets through and whose file is newer than the covering tombstone.
-- The ledger is one that keeps its invariant, and the path is not the empty one.
pub filter_resurrected_lem :
    (paths : List FilePath) (local : Manifest) (ledger : DeletionLedger) (p : FilePath)
    (lm : FileMetadata)
    → Invariant.IsLive ledger
    → p ≢ []
    → Dict.lookup p local.files ≡ some lm
    → contains paths p ≡ true
    → ((contains (filter_resurrected paths local (some ledger)).0 p ≡ false) ↔ IsVetoed ledger p lm)
      × (contains (filter_resurrected paths local (some ledger)).1 p ≡ true
          → (contains (filter_resurrected paths local (some ledger)).0 p ≡ true)
            × ((t : Tombstone) × (Ledger.covering_tombstone ledger p ≡ some t)
                × (t.deleted_at_ms < lm.modified_ms)))
unfolding filter_resurrected
filter_resurrected_lem paths local ledger p lm live nonempty held offered =
    let (sent, reported) = contains-filter_loop paths local ledger p in
    (
      (
        λ h. verdict-veto local ledger p lm live nonempty held (ground (arith, sent)),
        λ v. ground (arith, sent, veto-verdict local ledger p lm live nonempty held v),
      ),
      λ h. (
        ground (arith, sent, reported),
        verdict-recreate local ledger p lm live nonempty held (ground (arith, reported)),
      ),
    )
