-- ===== src/Pending/Last.antt =====
-- Which of the sets of `PendingChanges` a path is in.
use byte_hive.Base.{ℕ, Bool, true, false, not, ◌&&◌, ◌||◌, List, [], ◌∷◌, ◌≡◌, arith, contains}
use byte_hive.Base.{if◌then◌else◌, ◌==◌}
use byte_hive.Base.Paths.{FilePath, component_eq}
use byte_hive.Base.{list_eq}
use byte_hive.SyncEngine.{Fs, SyncEngine}
use byte_hive.Pending.{
  FsEvent, changed, write_complete, deleted, renamed, PendingChanges, set_insert, set_remove,
  note_changed, note_complete, note_deleted, note_renamed, collect_event, is_quiet,
}

-- The set that a path is in, if any.
pub data Place : Type 0 where
  nowhere : Place
  in_changes : Place
  in_ready : Place
  in_deletes : Place

unfoldable pub is_in_changes : Place → Bool
is_in_changes in_changes = true
is_in_changes _ = false

unfoldable pub is_in_ready : Place → Bool
is_in_ready in_ready = true
is_in_ready _ = false

unfoldable pub is_in_deletes : Place → Bool
is_in_deletes in_deletes = true
is_in_deletes _ = false

pub record IsAt (c : PendingChanges) (p : FilePath) (at : Place) : Type 0 where
  pub changes_eq : contains c.changes p ≡ is_in_changes at
  pub ready_eq : contains c.ready p ≡ is_in_ready at
  pub deletes_eq : contains c.deletes p ≡ is_in_deletes at

unfoldable pub after_changed : Place → Place
after_changed in_ready = in_ready
after_changed _ = in_changes

unfoldable pub after_target : Place → Place
after_target in_deletes = in_deletes
after_target _ = nowhere

-- Where an event that is neither suppressed nor excluded takes a path.
unfoldable pub moved_by : FsEvent → FilePath → Place → Place
moved_by (changed q) p at = if q == p then after_changed at else at
moved_by (write_complete q) p at = if q == p then in_ready else at
moved_by (deleted q) p at = if q == p then in_deletes else at
moved_by (renamed source target) p at =
    if source == p then nowhere else if target == p then after_target at else at

contains-set_insert :
    (q p : FilePath) (set : List FilePath)
    → contains (set_insert q set) p ≡ (q == p || contains set p)
unfolding set_insert
contains-set_insert q p set = ground arith

contains-set_remove :
    (q p : FilePath) (set : List FilePath)
    → contains (set_remove q set) p ≡ (not (q == p) && contains set p)
unfolding set_remove
contains-set_remove q p [] = ground arith
contains-set_remove q p (r ∷ set) = ground (arith, contains-set_remove q p set)

note_changed-IsAt :
    (q p : FilePath) (now : ℕ) (c : PendingChanges) (at : Place)
    → IsAt c p at
    → IsAt (note_changed q now c) p (if q == p then after_changed at else at)
unfolding note_changed after_changed is_in_changes is_in_ready is_in_deletes
note_changed-IsAt q p now c at h =
    ground (arith, contains-set_insert q p c.changes, contains-set_remove q p c.deletes)

note_complete-IsAt :
    (q p : FilePath) (now : ℕ) (c : PendingChanges) (at : Place)
    → IsAt c p at
    → IsAt (note_complete q now c) p (if q == p then in_ready else at)
unfolding note_complete is_in_changes is_in_ready is_in_deletes
note_complete-IsAt q p now c at h = ground (
  arith,
  contains-set_insert q p c.ready,
  contains-set_remove q p c.deletes,
  contains-set_remove q p c.changes,
)

note_deleted-IsAt :
    (q p : FilePath) (now : ℕ) (c : PendingChanges) (at : Place)
    → IsAt c p at
    → IsAt (note_deleted q now c) p (if q == p then in_deletes else at)
unfolding note_deleted is_in_changes is_in_ready is_in_deletes
note_deleted-IsAt q p now c at h = ground (
  arith,
  contains-set_insert q p c.deletes,
  contains-set_remove q p c.ready,
  contains-set_remove q p c.changes,
)

note_renamed-IsAt :
    (source target p : FilePath) (now : ℕ) (c : PendingChanges) (at : Place)
    → IsAt c p at
    → IsAt (note_renamed source target now c) p (moved_by (renamed source target) p at)
unfolding note_renamed moved_by after_target is_in_changes is_in_ready is_in_deletes
note_renamed-IsAt source target p now c at h = ground (
  arith,
  contains-set_remove source p c.deletes,
  contains-set_remove source p c.changes,
  contains-set_remove source p c.ready,
  contains-set_remove target p (set_remove source c.changes),
  contains-set_remove target p (set_remove source c.ready),
)

module _ (F : Fs) (excluded : FilePath → Bool) where
  open F use {World}

  unfoldable pub is_ignored : SyncEngine World → FsEvent → Bool
  is_ignored s (changed p) = contains s.suppressed p || excluded p
  is_ignored s (write_complete p) = contains s.suppressed p || excluded p
  is_ignored s (deleted p) = contains s.suppressed_deletes p || excluded p
  is_ignored s (renamed source target) =
      contains s.suppressed source
      || contains s.suppressed target
      || excluded source
      || excluded target

  keep_IsAt :
      (b : Bool) (c d : PendingChanges) (p : FilePath) (at at' : Place)
      → IsAt c p at
      → IsAt d p at'
      → IsAt (if b then c else d) p (if b then at else at')
  keep_IsAt true c d p at at' h k = h
  keep_IsAt false c d p at at' h k = k

  collect_event-IsAt :
      (s : SyncEngine World) (ev : FsEvent) (c : PendingChanges) (p : FilePath) (at : Place)
      → IsAt c p at
      → IsAt (collect_event F excluded s ev c) p (if is_ignored s ev then at else moved_by ev p at)
  unfolding collect_event is_quiet is_ignored moved_by
  collect_event-IsAt s (changed q) c p at h =
      keep_IsAt _ _ _ p at _ h (note_changed-IsAt q p (F.now_ms s.world) c at h)
  collect_event-IsAt s (write_complete q) c p at h =
      keep_IsAt _ _ _ p at _ h (note_complete-IsAt q p (F.now_ms s.world) c at h)
  collect_event-IsAt s (deleted q) c p at h =
      keep_IsAt _ _ _ p at _ h (note_deleted-IsAt q p (F.now_ms s.world) c at h)
  collect_event-IsAt s (renamed source target) c p at h =
      keep_IsAt _ _ _ p at _ h (note_renamed-IsAt source target p (F.now_ms s.world) c at h)

  -- The events of a debounce window, each with the engine as it stands then.
  unfoldable pub collect_events :
      List (SyncEngine World × FsEvent) → PendingChanges → PendingChanges
  collect_events [] c = c
  collect_events ((s, ev) ∷ evs) c = collect_events evs (collect_event F excluded s ev c)

  unfoldable pub place_after : List (SyncEngine World × FsEvent) → FilePath → Place → Place
  place_after [] p at = at
  place_after ((s, ev) ∷ evs) p at =
      place_after evs p (if is_ignored s ev then at else moved_by ev p at)

  -- However events come in, a path is in one of the sets of changes, ready files and deletes at most,
  -- and in the one that its own events give, taken one after the other: a change leaves a ready file
  -- ready, a finished write makes it ready, a delete makes it deleted, a rename takes the source out
  -- of all sets and the target out of the first two; suppressed and excluded events do nothing.
  pub collect_events-IsAt :
      (evs : List (SyncEngine World × FsEvent)) (c : PendingChanges) (p : FilePath) (at : Place)
      → IsAt c p at
      → IsAt (collect_events evs c) p (place_after evs p at)
  unfolding collect_events place_after
  collect_events-IsAt [] c p at h = h
  collect_events-IsAt ((s, ev) ∷ evs) c p at h =
      collect_events-IsAt evs _ p _ (collect_event-IsAt s ev c p at h)
