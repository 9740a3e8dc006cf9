-- ===== src/ActionJournal/Session/Success.antt =====
-- A session of action_journal.rs on a disk that does not fail.
use byte_hive.Base.{ℕ, ◌+◌, ◌*◌, ◌<◌, Bool, true, false, some, List, [], ◌∷◌}
use byte_hive.Base.{◌≡◌, refl, arith, length, nat_eq, All}
use byte_hive.Base.{any, list_eq}
use byte_hive.Base.Dict
use byte_hive.Base.Paths.{FilePath, component_eq}
use byte_hive.ActionJournal.{
  JournalOp, upsert_op, delete_op, rename_op, Line, ack_line, to_line, exact, is_upsert,
}
use byte_hive.ActionJournal.Consistent.{IsConsistent}
use byte_hive.ActionJournal.Numbering.{Numbered}
use byte_hive.ActionJournal.Disk.{
  JournalFile, Journal, compact_min_lines, append_record, log_entry, log_ack, append, upsert,
  delete, rename, rename_content, ack, open_journal, finish,
}
use byte_hive.ActionJournal.Replay.{Mirrors, Appends}
use byte_hive.ActionJournal.Session.{
  Call, upsert_call, delete_call, rename_call, ack_call, InRange, run_call, run_calls,
  start-Mirrors, run_calls-Mirrors,
}

module _ (F : JournalFile)
    (writes : (line : Line) (w : F.World) → (F.append_line line w).1 ≡ true) where
  log_entry_ok :
      (op : JournalOp) (path : FilePath) (action_ms : ℕ) (j : Journal F.World)
      → (log_entry F op path action_ms j).1 ≡ true
  unfolding log_entry append_record
  log_entry_ok op path action_ms j = ground (
    arith,
    writes
        (to_line (record { seq = j.state.next_seq; op = op; path = path; action_ms = action_ms }))
        j.world,
  )

  finished_ok : (r : Journal F.World × Bool) → r.1 ≡ true → (finish F r).1 ≡ true
  finished_ok (j, true) h = refl
  finished_ok (j, false) h = h

  rename_content_ok :
      (had : Bool) (to : FilePath) (action_ms : ℕ) (r : Journal F.World × Bool)
      → r.1 ≡ true
      → (rename_content F had to action_ms r).1 ≡ true
  unfolding rename_content
  rename_content_ok had to action_ms (j, false) h = cc
  rename_content_ok false to action_ms (j, true) h = refl
  rename_content_ok true to action_ms (j, true) h = log_entry_ok upsert_op to action_ms j

  log_ack_ok : (upto : ℕ) (j : Journal F.World) → (log_ack F upto j).1 ≡ true
  unfolding log_ack append_record
  log_ack_ok upto j = ground (arith, writes (ack_line upto) j.world)

  run_call_ok : (c : Call) (j : Journal F.World) → (run_call F c j).1 ≡ true
  unfolding run_call upsert delete append rename ack
  run_call_ok (upsert_call path action_ms) j =
      finished_ok (log_entry F upsert_op path action_ms j) (log_entry_ok upsert_op path action_ms j)
  run_call_ok (delete_call path action_ms) j =
      finished_ok (log_entry F delete_op path action_ms j) (log_entry_ok delete_op path action_ms j)
  run_call_ok (rename_call from to action_ms) j = finished_ok _ (
      rename_content_ok
        (any (λ s. is_upsert (Dict.lookup s j.state.entries)) (exact j.state.by_path from)) to
        action_ms (log_entry F (rename_op to) from action_ms j)
        (log_entry_ok (rename_op to) from action_ms j))
  run_call_ok (ack_call upto) j = ground (arith, finished_ok (log_ack F upto j) (log_ack_ok upto j))

  run_calls_ok : (cs : List Call) (j : Journal F.World) → (run_calls F cs j).1 ≡ true
  unfolding run_calls
  run_calls_ok [] j = refl
  run_calls_ok (c ∷ cs) j = ground (arith, run_call_ok c j, run_calls_ok cs (run_call F c j).0)

  -- On a disk whose appends succeed, and that then hold their record at the end of the file, every
  -- call of a session returns `Ok`. Afterwards the indexes agree with the entries, and every
  -- pending entry has a number above the last acknowledged one and below the next one to give. The
  -- session starts with an empty journal file, has fewer than 2048 calls, and acknowledges numbers
  -- below 2^63.
  pub run_calls-IsConsistent :
      (w : F.World) (cs : List Call)
      → Appends F
      → F.read w ≡ some ([], false)
      → 2 * length cs < compact_min_lines
      → All InRange cs
      → ((run_calls F cs (open_journal F w)).1 ≡ true)
        × IsConsistent (run_calls F cs (open_journal F w)).0.state
        × Numbered
            (run_calls F cs (open_journal F w)).0.state.next_seq
            (run_calls F cs (open_journal F w)).0.state.acked
            (run_calls F cs (open_journal F w)).0.state
  run_calls-IsConsistent w cs appends e small rs = (ok, m.consistent, m.numbered)
    where
      ok : (run_calls F cs (open_journal F w)).1 ≡ true
      ok = run_calls_ok cs (open_journal F w)

      m : Mirrors F 0 (run_calls F cs (open_journal F w)).0
      m =
          run_calls-Mirrors F appends 0 cs (open_journal F w)
            (start-Mirrors F (2 * length cs + 0) w (omega (arith, small)) e) rs ok
