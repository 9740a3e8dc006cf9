-- ===== src/Pending.antt =====
-- `PendingChanges` of crates/filesync/src/common.rs: what the watcher reports, collected until it is
-- sent. A set of paths is a list; the order of draining is not modelled. The exclusions and the scan
-- of the disk are parameters; the clocks are the file system's.
pub mod Last
use byte_hive.Base.{
  ℕ, ◌+◌, ◌-◌, ◌/◌, ◌*◌, ◌^◌, Bool, true, false, ◌&&◌, ◌||◌, not, Option, none, some,
}
use byte_hive.Base.{
  List, [], ◌∷◌, ◌++◌, Text, contains, select, if◌then◌else◌, leb, ltb, length, is_some,
}
use byte_hive.Base.{list_eq, nat_eq, ◌==◌}
use byte_hive.Base.Dict
use byte_hive.Base.Dict.{Dict}
use byte_hive.Base.Paths.{FilePath, component_eq}
use byte_hive.Hex.{hex}
use byte_hive.Protocol.{FileMetadata, Manifest}
use byte_hive.Manifest.{diff_manifests}
use byte_hive.SyncEngine.{Fs, SyncEngine}
use byte_hive.SyncEngine.Admission.{record_delete}

-- `FsEvent` of watcher.rs
pub data FsEvent : Type 0 where
  changed : FilePath → FsEvent
  write_complete : FilePath → FsEvent
  deleted : FilePath → FsEvent
  renamed : FilePath → FilePath → FsEvent

pub record PendingChanges : Type 0 where
  pub changes : List FilePath
  pub ready : List FilePath
  pub deletes : List FilePath
  pub renames : List (FilePath × FilePath)
  pub live : List (FilePath × ℕ)
  pub last_event : ℕ
  pub last_full_scan : ℕ

-- `HashSet::insert` and `HashSet::remove`
unfoldable pub set_insert : FilePath → List FilePath → List FilePath
set_insert p set = if contains set p then set else p ∷ set

unfoldable pub set_remove : FilePath → List FilePath → List FilePath
set_remove p = select (λ q. not (q == p))

unfoldable pub new : ℕ → PendingChanges
new now = record {
  changes = [];
  ready = [];
  deletes = [];
  renames = [];
  live = [];
  last_event = now;
  last_full_scan = now;
}

-- What each event does once it is not suppressed and not excluded.
unfoldable pub note_changed : FilePath → ℕ → PendingChanges → PendingChanges
unfolding set_insert set_remove
note_changed p now c = record c {
  live = c.live ++ (p, now) ∷ [];
  deletes = set_remove p c.deletes;
  changes = if contains c.ready p then c.changes else set_insert p c.changes;
  last_event = now;
}

unfoldable pub note_complete : FilePath → ℕ → PendingChanges → PendingChanges
unfolding set_insert set_remove
note_complete p now c = record c {
  live = c.live ++ (p, now) ∷ [];
  deletes = set_remove p c.deletes;
  changes = set_remove p c.changes;
  ready = set_insert p c.ready;
  last_event = now;
}

unfoldable pub note_deleted : FilePath → ℕ → PendingChanges → PendingChanges
unfolding set_insert set_remove
note_deleted p now c = record c {
  changes = set_remove p c.changes;
  ready = set_remove p c.ready;
  deletes = set_insert p c.deletes;
  last_event = now;
}

unfoldable pub note_renamed : FilePath → FilePath → ℕ → PendingChanges → PendingChanges
unfolding set_remove
note_renamed source target now c = record c {
  changes = set_remove target (set_remove source c.changes);
  ready = set_remove target (set_remove source c.ready);
  deletes = set_remove source c.deletes;
  renames = c.renames ++ (source, target) ∷ [];
  last_event = now;
}

-- The paths of a rescan's `changed` and `deleted` lists.
add_ready : List FilePath → PendingChanges → PendingChanges
unfolding set_insert set_remove
add_ready [] c = c
add_ready (p ∷ ps) c = add_ready ps (record c {
  deletes = set_remove p c.deletes;
  changes = set_remove p c.changes;
  ready = set_insert p c.ready;
})

add_deleted : List FilePath → PendingChanges → PendingChanges
unfolding set_insert set_remove
add_deleted [] c = c
add_deleted (p ∷ ps) c = add_deleted ps (record c {
  changes = set_remove p c.changes;
  ready = set_remove p c.ready;
  deletes = set_insert p c.deletes;
})

unfoldable pub debounce_ms : ℕ
debounce_ms = 200

unfoldable pub max_batch_ms : ℕ
max_batch_ms = 2000

unfoldable pub should_flush : ℕ → PendingChanges → Bool
unfolding debounce_ms max_batch_ms
should_flush now c = leb debounce_ms (now - c.last_event) || leb max_batch_ms (now - c.last_event)

unfoldable pub take_renames : PendingChanges → PendingChanges × List (FilePath × FilePath)
take_renames c = (record c { renames = [] }, c.renames)

unfoldable pub take_live : PendingChanges → PendingChanges × List (FilePath × ℕ)
take_live c = (record c { live = [] }, c.live)

unfoldable pub take_ready : PendingChanges → PendingChanges × List FilePath
take_ready c = (record c { ready = [] }, c.ready)

-- The proper ancestors of a path but the empty one, the nearest first: `cur.parent()` in a loop.
parents_from : FilePath → FilePath → List FilePath
parents_from above [] = []
parents_from above (x ∷ []) = if length above == 0 then [] else above ∷ []
parents_from above (x ∷ y ∷ p) =
    let nearer = parents_from (above ++ x ∷ []) (y ∷ p) in
    if length above == 0 then nearer else nearer ++ above ∷ []

unfoldable pub parents : FilePath → List FilePath
unfolding parents_from
parents p = parents_from [] p

module _ (F : Fs) (excluded : FilePath → Bool) where
  open F use {World}

  unfoldable pub is_quiet : SyncEngine World → FilePath → Bool
  is_quiet s p = contains s.suppressed p || excluded p

  unfoldable pub collect_event : SyncEngine World → FsEvent → PendingChanges → PendingChanges
  unfolding is_quiet note_changed note_complete note_deleted note_renamed
  collect_event s (changed p) c = if is_quiet s p then c else note_changed p (F.now_ms s.world) c
  collect_event s (write_complete p) c =
      if is_quiet s p then c else note_complete p (F.now_ms s.world) c
  collect_event s (deleted p) c =
      if contains s.suppressed_deletes p || excluded p
      then c
      else note_deleted p (F.now_ms s.world) c
  collect_event s (renamed source target) c =
      if contains s.suppressed source
        || contains s.suppressed target
        || excluded source
        || excluded target
      then c
      else note_renamed source target (F.now_ms s.world) c

  touched : Bool → ℕ → PendingChanges → PendingChanges
  touched any_path now c = if any_path then record c { last_event = now } else c

  is_any : List FilePath → Bool
  is_any [] = false
  is_any (p ∷ ps) = true

  scanned : ℕ → Manifest → Option Manifest → PendingChanges → PendingChanges
  unfolding add_ready add_deleted touched is_any
  scanned now old none c = c
  scanned now old (some m) c =
      let (found, gone) = diff_manifests old m in
      touched (is_any gone) now (add_deleted gone (touched (is_any found) now (add_ready found c)))

  -- `scan` leaves a new engine, and the manifest where it succeeds.
  unfoldable pub periodic_rescan :
      (SyncEngine World → SyncEngine World × Option Manifest)
      → ℕ
      → SyncEngine World
      → PendingChanges
      → SyncEngine World × PendingChanges
  unfolding scanned
  periodic_rescan scan interval_secs s c =
      let (s', result) = scan s in
      let c' = scanned (F.now_ms s'.world) s.manifest result c in
      if ltb ((F.now_ms s.world - c.last_full_scan) / 1000) interval_secs
      then (s, c)
      else (s', record c' { last_full_scan = F.now_ms s'.world })

  -- The changes that are stable, and those that stay.
  unfoldable pub take_stable_changes :
      (FilePath → Bool) → PendingChanges → PendingChanges × List FilePath
  take_stable_changes stable c =
      (record c { changes = select (λ p. not (stable p)) c.changes }, select stable c.changes)

  missing_parents : SyncEngine World → List FilePath → List FilePath → List FilePath
  unfolding set_insert
  missing_parents s [] extra = extra
  missing_parents s (p ∷ ps) extra =
      missing_parents s ps (if F.exists s.world (s.root ++ p) then extra else set_insert p extra)

  missing_ancestors : SyncEngine World → List FilePath → List FilePath → List FilePath
  unfolding missing_parents parents
  missing_ancestors s [] extra = extra
  missing_ancestors s (p ∷ ps) extra = missing_ancestors s ps (missing_parents s (parents p) extra)

  unfoldable pub expand_deleted_ancestors : SyncEngine World → List FilePath → List FilePath
  unfolding missing_ancestors
  expand_deleted_ancestors s paths = paths ++ missing_ancestors s paths []

  unfoldable pub take_deletes :
      SyncEngine World → PendingChanges → PendingChanges × List FilePath × ℕ
  unfolding expand_deleted_ancestors
  take_deletes s c =
      (record c { deletes = [] }, expand_deleted_ancestors s c.deletes, length c.deletes)

  record_deletes :
      List FilePath → ℕ → Dict FilePath FileMetadata → SyncEngine World → SyncEngine World
  record_deletes [] now files s = s
  record_deletes (p ∷ ps) now files s =
      let later = record_deletes ps now files in
      elim (Dict.lookup p files) [
        | none ↦ later (record_delete F p now s.node_id none none s)
        | some m ↦
            later (record_delete F p now s.node_id (some (hex m.hash)) (some m.modified_ms) s)
      ]

  -- The extras that are still listed, or whose rename is under way, are dropped.
  unfoldable pub kept_extras : SyncEngine World → List FilePath → List FilePath
  kept_extras s =
      select (λ p. not (is_some (Dict.lookup p s.manifest.files)) && not (contains s.suppressed p))

  unfoldable pub take_deletes_with_engine :
      SyncEngine World → PendingChanges → SyncEngine World × PendingChanges × List FilePath × ℕ × ℕ
  unfolding kept_extras record_deletes missing_ancestors
  take_deletes_with_engine s c =
      let paths = c.deletes ++ kept_extras s (missing_ancestors s c.deletes []) in
      let now = F.now_ms s.world in
      (
        record_deletes paths now s.manifest.files s,
        record c { deletes = [] },
        paths,
        length c.deletes,
        now,
      )
