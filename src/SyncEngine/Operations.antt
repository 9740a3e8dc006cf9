-- ===== src/SyncEngine/Operations.antt =====
-- The operations of sync_engine.rs as the steps of one state machine.
use byte_hive.Base.{ℕ, ◌≡◌, refl, Option, List, [], ◌∷◌, Text, arith, list_eq, not}
use byte_hive.Base.{contains, select, true, false, Bool, ltb, ◌++◌, if◌then◌else◌}
use byte_hive.Base.Dict
use byte_hive.Base.Dict.{Dict, NodupKeys}
use byte_hive.Base.Paths.{FilePath, component_eq}
use byte_hive.Protocol.{FileMetadata, FileBundle, TombstoneDto, Hash}
use byte_hive.Ledger
use byte_hive.Ledger.{DeletionLedger, Tombstone}
use byte_hive.Ledger.Invariant
use byte_hive.Ledger.Invariant.{IsLive, OwnPaths}
use byte_hive.SyncEngine.{Fs, SyncEngine, Timer, unsuppress, unsuppress_deletes}
use byte_hive.SyncEngine.Admission.{
  record_all_alive, sort_dtos, merge_dtos, flush_ledger, stage_live_action, stage_delete,
  record_live_actions, record_delete, merge_ledger, clear_tombstones, prune_ledger, remove_all,
  prev_of,
}
use byte_hive.SyncEngine.Sound.{IsSound, if-IsSound, flush_ledger-IsSound}
use byte_hive.SyncEngine.Bundle.{apply_bundle}
use byte_hive.SyncEngine.Bundle.Sound.{Keeps-apply_bundle}
use byte_hive.SyncEngine.LargeFile.{
  begin_large_file_with_action, receive_large_file_chunk, finish_large_file, commit_large_file,
  clear_in_progress,
}
use byte_hive.SyncEngine.LargeFile.Sound.{
  Keeps-begin_large_file_with_action, Keeps-receive_large_file_chunk, Keeps-finish_large_file,
  Keeps-commit_large_file, clear_in_progress-IsSound,
}
use byte_hive.SyncEngine.Deletes.{apply_deletes}
use byte_hive.SyncEngine.Deletes.Sound.{apply_deletes-IsSound}
use byte_hive.SyncEngine.Rename.{apply_rename_at}
use byte_hive.SyncEngine.Rename.Sound.{Keeps-apply_rename_at}

-- What a timer does when it fires.
unfoldable pub fire : {W : Type 0} → Timer → SyncEngine W → SyncEngine W
fire (unsuppress paths) s = record s {
  suppressed = select (λ p. not (contains paths p)) s.suppressed;
}
fire (unsuppress_deletes paths) s = record s {
  suppressed_deletes = select (λ p. not (contains paths p)) s.suppressed_deletes;
}

record_all_alive-IsLive :
    (actions : List (FilePath × ℕ)) (l : DeletionLedger) (c : Bool)
    → IsLive l
    → IsLive (record_all_alive actions l c).0
unfolding record_all_alive
record_all_alive-IsLive [] l c h = h
record_all_alive-IsLive ((p, n) ∷ actions) l c h =
    record_all_alive-IsLive actions _ _ (Invariant.record_alive-IsLive l p n h)

insert-OwnPaths :
    (p : FilePath) (t : Tombstone) (d : Dict FilePath Tombstone)
    → t.path ≡ p
    → OwnPaths d
    → OwnPaths (Dict.insert p t d)
unfolding Dict.insert
insert-OwnPaths p t [] own h = (own, tt)
insert-OwnPaths p t ((k, u) ∷ d) own (first, rest) = ground (arith, insert-OwnPaths p t d own rest)

-- What the sorting loop has collected.
abbrev Sorted : Type 0
Sorted = List (FilePath × ℕ) × Dict FilePath Tombstone

if-OwnPaths :
    (b : Bool) (x y : Sorted) → OwnPaths x.1 → OwnPaths y.1 → OwnPaths (if b then x else y).1
if-OwnPaths true x y h k = h
if-OwnPaths false x y h k = k

sort_dtos-OwnPaths :
    (dtos : List TombstoneDto) (acc : Sorted) → OwnPaths acc.1 → OwnPaths (sort_dtos dtos acc).1
unfolding sort_dtos
sort_dtos-OwnPaths [] (al, d) h = h
sort_dtos-OwnPaths (x ∷ dtos) (al, d) h = sort_dtos-OwnPaths dtos _ (
    if-OwnPaths x.alive (al ++ (x.path, x.deleted_at_ms) ∷ [], d) (al, Dict.insert x.path _ d) h
      (insert-OwnPaths x.path _ d refl h))

merge_dtos-IsLive :
    (dtos : List TombstoneDto) (l : DeletionLedger) → IsLive l → IsLive (merge_dtos dtos l)
unfolding merge_dtos
merge_dtos-IsLive dtos l h =
    let sorted = sort_dtos dtos ([], []) in
    Invariant.merge_remote-IsLive _ sorted.1 (sort_dtos-OwnPaths dtos ([], []) tt)
      (record_all_alive-IsLive sorted.0 l false h)

remove_all-IsLive :
    (ps : List FilePath) (l : DeletionLedger) (c : Bool) → IsLive l → IsLive (remove_all ps l c).0
unfolding remove_all
remove_all-IsLive [] l c h = h
remove_all-IsLive (p ∷ ps) l c h = remove_all-IsLive ps _ _ (Invariant.remove-IsLive l p h)

module _ {W : Type 0} where
  -- A change of the ledger alone.
  ledger-IsSound :
      (l : DeletionLedger) (dirty : Bool) (s : SyncEngine W)
      → IsLive l
      → IsSound s
      → IsSound (record s { ledger = l; ledger_dirty = dirty })
  ledger-IsSound l dirty s k h = record { live = k; tidy = h.tidy; transfers = h.transfers }

  stage_live_action-IsSound :
      (p : FilePath) (at : ℕ) (s : SyncEngine W) → IsSound s → IsSound (stage_live_action p at s)
  unfolding stage_live_action
  stage_live_action-IsSound p at s h =
      if-IsSound _ _ _ (ledger-IsSound _ _ s (Invariant.record_alive-IsLive s.ledger p at h.live) h)
        h

  stage_delete-IsSound :
      (p : FilePath) (at : ℕ) (s : SyncEngine W) → IsSound s → IsSound (stage_delete p at s)
  unfolding stage_delete
  stage_delete-IsSound p at s h =
      ledger-IsSound _ _ s
        (Invariant.Step-IsLive
          (Invariant.tombstone p at s.node_id (prev_of (Dict.lookup p s.manifest.files)).0
            (prev_of (Dict.lookup p s.manifest.files)).1)
          h.live)
        h

  fire-IsSound : (t : Timer) (s : SyncEngine W) → IsSound s → IsSound (fire t s)
  unfolding fire
  fire-IsSound (unsuppress ps) s h = record {
    live = h.live;
    tidy = h.tidy;
    transfers = h.transfers;
  }
  fire-IsSound (unsuppress_deletes ps) s h = record {
    live = h.live;
    tidy = h.tidy;
    transfers = h.transfers;
  }

if-first :
    {W A : Type 0} (b : Bool) (x y : SyncEngine W × A)
    → IsSound x.0
    → IsSound y.0
    → IsSound (if b then x else y).0
if-first true x y h k = h
if-first false x y h k = k

module _ (F : Fs) where
  record_live_actions-IsSound :
      (actions : List (FilePath × ℕ)) (s : SyncEngine F.World)
      → IsSound s
      → IsSound (record_live_actions F actions s)
  unfolding record_live_actions
  record_live_actions-IsSound [] s h = h
  record_live_actions-IsSound (a ∷ actions) s h =
      flush_ledger-IsSound F _
        (ledger-IsSound _ _ s (record_all_alive-IsLive (a ∷ actions) s.ledger false h.live) h)

  record_delete-IsSound :
      (p : FilePath) (at : ℕ) (deleter : Text) (hash : Option Text) (mtime : Option ℕ)
      (s : SyncEngine F.World)
      → IsSound s
      → IsSound (record_delete F p at deleter hash mtime s)
  unfolding record_delete
  record_delete-IsSound p at deleter hash mtime s h = flush_ledger-IsSound F _ (
      ledger-IsSound _ true s
        (Invariant.Step-IsLive (Invariant.tombstone p at deleter hash mtime) h.live) h)

  merge_ledger-IsSound :
      (dtos : List TombstoneDto) (s : SyncEngine F.World)
      → IsSound s
      → IsSound (merge_ledger F dtos s).0
  unfolding merge_ledger
  merge_ledger-IsSound [] s h = h
  merge_ledger-IsSound (d ∷ dtos) s h =
      flush_ledger-IsSound F _
        (ledger-IsSound _ true s (merge_dtos-IsLive (d ∷ dtos) s.ledger h.live) h)

  clear_tombstones-IsSound :
      (ps : List FilePath) (s : SyncEngine F.World) → IsSound s → IsSound (clear_tombstones F ps s)
  unfolding clear_tombstones
  clear_tombstones-IsSound [] s h = h
  clear_tombstones-IsSound (p ∷ ps) s h =
      flush_ledger-IsSound F _
        (ledger-IsSound _ _ s (remove_all-IsLive (p ∷ ps) s.ledger false h.live) h)

  prune_ledger-IsSound : (s : SyncEngine F.World) → IsSound s → IsSound (prune_ledger F s).0
  unfolding prune_ledger Ledger.prune_expired
  prune_ledger-IsSound s h =
      let now = F.now_ms s.world in
      let k = Invariant.prune-IsLive s.ledger now Ledger.deletion_ledger_ttl_ms h.live in
      if-first (ltb 0 _) _ (_, 0) (flush_ledger-IsSound F _ (ledger-IsSound _ true s k h))
        (ledger-IsSound _ s.ledger_dirty s k h)

  -- One operation of the engine, with any arguments, whether it succeeds or fails.
  pub data Step (s : SyncEngine F.World) : SyncEngine F.World → Type 0 where
    bundle : (b : FileBundle) → Step s (apply_bundle F b s).1
    begin :
        (m : FileMetadata) (total : ℕ) (at : Option ℕ)
        → Step s (begin_large_file_with_action F m total at s).1
    chunk :
        (p : FilePath) (i : ℕ) (bytes : List ℕ) → Step s (receive_large_file_chunk F p i bytes s).1
    finish : (p : FilePath) (h : Hash) → Step s (finish_large_file F p h s).1
    commit : (p : FilePath) (h : Hash) → Step s (commit_large_file F p h s).1
    abandon : Step s (clear_in_progress F s)
    rename :
        (source target : FilePath) (at : ℕ) (deleter : Text)
        → Step s (apply_rename_at F source target at deleter s).1
    deletes :
        (ps : List FilePath) (at : ℕ) (deleter : Text) → Step s (apply_deletes F ps at deleter s).0
    merge : (dtos : List TombstoneDto) → Step s (merge_ledger F dtos s).0
    live : (actions : List (FilePath × ℕ)) → Step s (record_live_actions F actions s)
    stage_live : (p : FilePath) (at : ℕ) → Step s (stage_live_action p at s)
    delete :
        (p : FilePath) (at : ℕ) (deleter : Text) (hash : Option Text) (mtime : Option ℕ)
        → Step s (record_delete F p at deleter hash mtime s)
    stage : (p : FilePath) (at : ℕ) → Step s (stage_delete p at s)
    clear : (ps : List FilePath) → Step s (clear_tombstones F ps s)
    prune : Step s (prune_ledger F s).0
    flush : Step s (flush_ledger F s)
    timer : (t : Timer) → Step s (fire t s)

  pub data Reach (s : SyncEngine F.World) : SyncEngine F.World → Type 0 where
    start : Reach s s
    later : {t u : SyncEngine F.World} → Reach s t → Step t u → Reach s u

  pub Step-IsSound : {s t : SyncEngine F.World} → Step s t → IsSound s → IsSound t
  Step-IsSound {s} (bundle b) h = Keeps-apply_bundle F b s h
  Step-IsSound {s} (begin m total at) h = (Keeps-begin_large_file_with_action F m total at).at s h
  Step-IsSound {s} (chunk p i bytes) h = (Keeps-receive_large_file_chunk F p i bytes).at s h
  Step-IsSound {s} (finish p hash) h = (Keeps-finish_large_file F p hash).at s h
  Step-IsSound {s} (commit p hash) h = (Keeps-commit_large_file F p hash).at s h
  Step-IsSound {s} abandon h = clear_in_progress-IsSound F s h
  Step-IsSound {s} (rename p q at deleter) h = (Keeps-apply_rename_at F p q at deleter).at s h
  Step-IsSound {s} (deletes ps at deleter) h = apply_deletes-IsSound F ps at deleter s h
  Step-IsSound {s} (merge dtos) h = merge_ledger-IsSound dtos s h
  Step-IsSound {s} (live actions) h = record_live_actions-IsSound actions s h
  Step-IsSound {s} (stage_live p at) h = stage_live_action-IsSound p at s h
  Step-IsSound {s} (delete p at deleter hash mtime) h =
      record_delete-IsSound p at deleter hash mtime s h
  Step-IsSound {s} (stage p at) h = stage_delete-IsSound p at s h
  Step-IsSound {s} (clear ps) h = clear_tombstones-IsSound ps s h
  Step-IsSound {s} prune h = prune_ledger-IsSound s h
  Step-IsSound {s} flush h = flush_ledger-IsSound F s h
  Step-IsSound {s} (timer t) h = fire-IsSound t s h

  -- Whatever operations run, in any order, with any arguments from a peer and any failures of the file
  -- system, an engine that starts sound stays sound: every manifest entry stands once, under its own
  -- path, which is a relative path of plain names only; every transfer in progress has such a path;
  -- and the deletion ledger keeps its invariant.
  pub Reach-IsSound : {s t : SyncEngine F.World} → Reach s t → IsSound s → IsSound t
  Reach-IsSound start h = h
  Reach-IsSound (later r st) h = Step-IsSound st (Reach-IsSound r h)
