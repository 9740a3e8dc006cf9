-- ===== src/SyncEngine/Admission.antt =====
-- What sync_engine.rs does with the deletion ledger: persistence, exchange, veto and admission.
pub mod Exchange
use byte_hive.Base.{ℕ, ◌+◌, Bool, true, false, ◌||◌, Option, none, some, List, [], ◌∷◌, ◌++◌, Text}
use byte_hive.Base.{length, ltb, max, if◌then◌else◌, is_some, list_eq}
use byte_hive.Base.Dict
use byte_hive.Base.Dict.{Dict}
use byte_hive.Base.Paths.{FilePath, component_eq}
use byte_hive.Protocol.{FileMetadata, Manifest, TombstoneDto}
use byte_hive.Hex.{hex}
use byte_hive.Ledger
use byte_hive.Ledger.{Tombstone, DeletionLedger}
use byte_hive.SyncEngine.{Fs, SyncEngine}

-- The closure's ledger, and whether it reports a change.
abbrev pub ledger_mut :
    {W : Type 0} → (DeletionLedger → DeletionLedger × Bool) → SyncEngine W → SyncEngine W
ledger_mut f s =
    let (l, changed) = f s.ledger in
    record s { ledger = l; ledger_dirty = changed || s.ledger_dirty }

-- `veto_for`, of the ledger alone.
unfoldable pub veto_for : DeletionLedger → FilePath → Option ℕ → ℕ → Option FilePath
veto_for ledger rel action_ms modified_ms =
    let cmp : ℕ = elim action_ms [ none ↦ modified_ms | some at ↦ at ] in
    elim (Ledger.covering_tombstone ledger rel) [
      | none ↦ none
      | some t ↦ if ltb cmp t.deleted_at_ms then some t.path else none
    ]

-- `matches!(entry, Some(t) if modified_ms > t.deleted_at_ms)`
abbrev pub older_than : Option Tombstone → ℕ → Bool
older_than none modified_ms = false
older_than (some t) modified_ms = ltb t.deleted_at_ms modified_ms

unfoldable pub admit_record : {W : Type 0} → FilePath → Option ℕ → ℕ → SyncEngine W → SyncEngine W
admit_record rel (some at) modified_ms s =
    if Ledger.alive_record_needed s.ledger rel at
    then ledger_mut (λ l. Ledger.record_alive l rel at) s
    else s
admit_record rel none modified_ms s =
    if older_than (Ledger.get s.ledger rel) modified_ms
    then ledger_mut (λ l. Ledger.record_alive l rel modified_ms) s
    else s

unfoldable pub wire_action_stamp : {W : Type 0} → SyncEngine W → FilePath → ℕ → Option ℕ
wire_action_stamp s rel modified_ms =
    let alive = Ledger.alive_since s.ledger rel in
    if ltb 0 alive then some (max alive modified_ms) else none

unfoldable pub stage_live_action : {W : Type 0} → FilePath → ℕ → SyncEngine W → SyncEngine W
stage_live_action path action_ms s =
    if Ledger.alive_record_needed s.ledger path action_ms
    then ledger_mut (λ l. Ledger.record_alive l path action_ms) s
    else s

-- The previous content of a path, from the manifest.
abbrev pub prev_of : Option FileMetadata → Option Text × Option ℕ
prev_of none = (none, none)
prev_of (some m) = (some (hex m.hash), some m.modified_ms)

unfoldable pub stage_delete : {W : Type 0} → FilePath → ℕ → SyncEngine W → SyncEngine W
stage_delete path deleted_at_ms s =
    let (prev_hash, prev_mtime_ms) = prev_of (Dict.lookup path s.manifest.files) in
    ledger_mut
      (λ l. (Ledger.record_tombstone l path deleted_at_ms s.node_id prev_hash prev_mtime_ms, true))
      s

unfoldable pub tombstone_beating : {W : Type 0} → SyncEngine W → FilePath → ℕ → Option Tombstone
tombstone_beating s path action_ms = elim (Ledger.covering_tombstone s.ledger path) [
  | none ↦ none
  | some t ↦ if ltb action_ms t.deleted_at_ms then some t else none
]

-- The loop of `clear_tombstones`.
unfoldable pub remove_all : List FilePath → DeletionLedger → Bool → DeletionLedger × Bool
remove_all [] l removed_any = (l, removed_any)
remove_all (p ∷ paths) l removed_any =
    let (l', removed) = Ledger.remove l p in remove_all paths l' (is_some removed || removed_any)

-- The loop of `record_live_actions` and of the live records in `merge_ledger`.
unfoldable pub record_all_alive :
    List (FilePath × ℕ) → DeletionLedger → Bool → DeletionLedger × Bool
record_all_alive [] l changed = (l, changed)
record_all_alive ((path, at) ∷ actions) l changed =
    let (l', c) = Ledger.record_alive l path at in record_all_alive actions l' (c || changed)

-- The loop of `merge_ledger` that sorts the entries received.
unfoldable pub sort_dtos :
    List TombstoneDto
    → List (FilePath × ℕ) × Dict FilePath Tombstone
    → List (FilePath × ℕ) × Dict FilePath Tombstone
sort_dtos [] (alive, remote) = (alive, remote)
sort_dtos (d ∷ dtos) (alive, remote) = sort_dtos dtos (
    if d.alive then (alive ++ (d.path, d.deleted_at_ms) ∷ [], remote) else (
      alive,
      Dict.insert d.path
          (record {
            path = d.path;
            deleted_at_ms = d.deleted_at_ms;
            deleter_node = d.deleter_node;
            prev_hash = d.prev_hash;
            prev_mtime_ms = d.prev_mtime_ms;
          })
          remote,
    ))

-- The closure of `merge_ledger`: live records first.
unfoldable pub merge_dtos : List TombstoneDto → DeletionLedger → DeletionLedger
unfolding sort_dtos record_all_alive
merge_dtos dtos l =
    let (alive, remote) = sort_dtos dtos ([], []) in
    Ledger.merge_remote (record_all_alive alive l false).0 remote

tombstone_dtos : Dict FilePath Tombstone → List TombstoneDto
tombstone_dtos [] = []
tombstone_dtos ((_, t) ∷ entries) =
    record {
      path = t.path;
      deleted_at_ms = t.deleted_at_ms;
      deleter_node = t.deleter_node;
      prev_hash = t.prev_hash;
      prev_mtime_ms = t.prev_mtime_ms;
      alive = false;
    }
    ∷ tombstone_dtos entries

alive_dtos : Dict FilePath ℕ → List TombstoneDto
alive_dtos [] = []
alive_dtos ((path, at) ∷ alive) =
    record {
      path = path;
      deleted_at_ms = at;
      deleter_node = [];
      prev_hash = none;
      prev_mtime_ms = none;
      alive = true;
    }
    ∷ alive_dtos alive

unfoldable pub ledger_entries : DeletionLedger → List TombstoneDto
unfolding tombstone_dtos alive_dtos
ledger_entries l = tombstone_dtos l.entries ++ alive_dtos l.alive

module _ (F : Fs) where
  open F use {World}

  unfoldable pub flush_ledger : SyncEngine World → SyncEngine World
  flush_ledger s =
      if s.ledger_dirty
      then (let (w, saved) = F.save_ledger s.root s.ledger s.world in
          record s { world = w; ledger_dirty = if saved then false else true })
      else s

  unfoldable pub record_live_actions : List (FilePath × ℕ) → SyncEngine World → SyncEngine World
  unfolding flush_ledger record_all_alive
  record_live_actions [] s = s
  record_live_actions (action ∷ actions) s =
      flush_ledger (ledger_mut (λ l. record_all_alive (action ∷ actions) l false) s)

  unfoldable pub record_delete :
      FilePath → ℕ → Text → Option Text → Option ℕ → SyncEngine World → SyncEngine World
  unfolding flush_ledger
  record_delete path deleted_at_ms deleter prev_hash prev_mtime_ms s = flush_ledger (
      ledger_mut
        (λ l. (Ledger.record_tombstone l path deleted_at_ms deleter prev_hash prev_mtime_ms, true))
        s)

  unfoldable pub merge_ledger : List TombstoneDto → SyncEngine World → SyncEngine World × ℕ
  unfolding flush_ledger merge_dtos
  merge_ledger [] s = (s, 0)
  merge_ledger (d ∷ dtos) s =
      (flush_ledger (ledger_mut (λ l. (merge_dtos (d ∷ dtos) l, true)) s), length (d ∷ dtos))

  unfoldable pub clear_tombstones : List FilePath → SyncEngine World → SyncEngine World
  unfolding flush_ledger remove_all
  clear_tombstones [] s = s
  clear_tombstones (p ∷ paths) s = flush_ledger (ledger_mut (λ l. remove_all (p ∷ paths) l false) s)

  unfoldable pub prune_ledger : SyncEngine World → SyncEngine World × ℕ
  unfolding flush_ledger
  prune_ledger s =
      let (l, pruned) = Ledger.prune_expired s.ledger (F.now_ms s.world) in
      let s' = record s { ledger = l } in
      if ltb 0 pruned then (flush_ledger (record s' { ledger_dirty = true }), pruned) else (s', 0)
