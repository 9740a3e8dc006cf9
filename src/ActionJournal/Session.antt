-- ===== src/ActionJournal/Session.antt =====
-- A session with the action journal of action_journal.rs: calls one after the other, and the
-- journal that the next start of the client opens.
pub mod Success
use byte_hive.Base.{
  ℕ, suc, ◌+◌, ◌*◌, ◌<◌, ◌^◌, Bool, true, false, ◌&&◌, Option, some, List, [], ◌∷◌,
}
use byte_hive.Base.{◌≡◌, refl, sym, ◌∙◌, arith, length, leb, nat_eq, if◌then◌else◌, All, ap}
use byte_hive.Base.{Bool-cases, inl, inr, any, list_eq}
use mathlib.Core.Path.{subst}
use byte_hive.Base.Dict
use byte_hive.Base.Paths.{FilePath, component_eq}
use byte_hive.ActionJournal.{
  JournalOp, upsert_op, delete_op, rename_op, Line, ack_line, to_line, exact, is_upsert, ack_local,
  empty,
}
use byte_hive.ActionJournal.Consistent.{IsConsistent, empty-IsConsistent}
use byte_hive.ActionJournal.Numbering.{Numbered, empty-Numbered}
use byte_hive.ActionJournal.Disk.{
  JournalFile, Journal, compact_min_lines, replay, append_record, log_entry, log_ack, append,
  upsert, delete, rename, rename_content, ack, open_journal, finish,
}
use byte_hive.ActionJournal.Replay.{
  Mirrors, Appends, Mirrors-open_journal, log_entry-Mirrors, log_ack-Mirrors, finish-Mirrors,
  ack_local-acked,
}

-- The public operations that change the journal.
pub data Call : Type 0 where
  upsert_call : FilePath → ℕ → Call
  delete_call : FilePath → ℕ → Call
  rename_call : FilePath → FilePath → ℕ → Call
  ack_call : ℕ → Call

-- An acknowledged number far from the end of `u64`.
abbrev pub InRange : Call → Type 0
InRange (upsert_call path action_ms) = Unit
InRange (delete_call path action_ms) = Unit
InRange (rename_call from to action_ms) = Unit
InRange (ack_call upto) = upto < 2 ^ 63

module _ (F : JournalFile) where
  open F use {World}

  unfoldable pub run_call : Call → Journal World → Journal World × Bool
  run_call (upsert_call path action_ms) j = upsert F path action_ms j
  run_call (delete_call path action_ms) j = delete F path action_ms j
  run_call (rename_call from to action_ms) j = rename F from to action_ms j
  run_call (ack_call upto) j = ack F upto j

  -- All calls, and whether every one returned `Ok`.
  unfoldable pub run_calls : List Call → Journal World → Journal World × Bool
  unfolding run_call
  run_calls [] j = (j, true)
  run_calls (c ∷ cs) j =
      let (j', ok) = run_call c j in let (j'', oks) = run_calls cs j' in (j'', ok && oks)

weaken-Mirrors :
    (F : JournalFile) (k : ℕ) (j : Journal F.World) → Mirrors F (suc k) j → Mirrors F k j
weaken-Mirrors F k j m = record {
  lines = m.lines;
  readable = m.readable;
  counted = m.counted;
  replayed = m.replayed;
  consistent = m.consistent;
  numbered = m.numbered;
  ordered = m.ordered;
  room = omega (arith, m.room);
  short = omega (arith, m.short);
}

pub start-Mirrors :
    (F : JournalFile) (k : ℕ) (w : F.World)
    → k < compact_min_lines
    → F.read w ≡ some ([], false)
    → Mirrors F k (open_journal F w)
unfolding open_journal replay
start-Mirrors F k w small e = subst (Mirrors F k) (sym (ground (arith, e))) (record {
  lines = [];
  readable = e;
  counted = refl;
  replayed = refl;
  consistent = empty-IsConsistent;
  numbered = empty-Numbered;
  ordered = omega arith;
  room = omega (arith, small);
  short = omega (arith, small);
})

module _ (F : JournalFile) (appends : Appends F) where
  finish_ok : (r : Journal F.World × Bool) → (finish F r).1 ≡ r.1
  finish_ok (j, true) = refl
  finish_ok (j, false) = refl

  finished-Mirrors :
      (k : ℕ) (r : Journal F.World × Bool) → Mirrors F k r.0 → Mirrors F k (finish F r).0
  finished-Mirrors k r m = subst (λ x. Mirrors F k x.0) (sym (finish-Mirrors F appends k r m)) m

  append-Mirrors :
      (k : ℕ) (op : JournalOp) (path : FilePath) (action_ms : ℕ) (j : Journal F.World)
      → Mirrors F (suc k) j
      → (append F op path action_ms j).1 ≡ true
      → Mirrors F k (append F op path action_ms j).0
  unfolding append
  append-Mirrors k op path action_ms j m ok = finished-Mirrors k (log_entry F op path action_ms j) (
      log_entry-Mirrors F appends k op path action_ms j m
        (sym (finish_ok (log_entry F op path action_ms j)) ∙ ok))

  rename_content-Mirrors :
      (k : ℕ) (had : Bool) (to : FilePath) (action_ms : ℕ) (r : Journal F.World × Bool)
      → (r.1 ≡ true → Mirrors F (suc k) r.0)
      → (rename_content F had to action_ms r).1 ≡ true
      → Mirrors F k (rename_content F had to action_ms r).0
  unfolding rename_content
  rename_content-Mirrors k had to action_ms (j, false) m ok = cc
  rename_content-Mirrors k false to action_ms (j, true) m ok = weaken-Mirrors F k j (m refl)
  rename_content-Mirrors k true to action_ms (j, true) m ok =
      log_entry-Mirrors F appends k upsert_op to action_ms j (m refl) ok

  rename-Mirrors :
      (k : ℕ) (from to : FilePath) (action_ms : ℕ) (j : Journal F.World)
      → Mirrors F (suc (suc k)) j
      → (rename F from to action_ms j).1 ≡ true
      → Mirrors F k (rename F from to action_ms j).0
  unfolding rename
  rename-Mirrors k from to action_ms j m ok = finished-Mirrors k r (
      rename_content-Mirrors k had to action_ms first
        (log_entry-Mirrors F appends (suc k) (rename_op to) from action_ms j m)
        (sym (finish_ok r) ∙ ok))
    where
      had : Bool
      had = any (λ s. is_upsert (Dict.lookup s j.state.entries)) (exact j.state.by_path from)

      first : Journal F.World × Bool
      first = log_entry F (rename_op to) from action_ms j

      r : Journal F.World × Bool
      r = rename_content F had to action_ms first

  ack-Mirrors :
      (k upto : ℕ) (j : Journal F.World)
      → Mirrors F (suc k) j
      → upto < 2 ^ 63
      → (ack F upto j).1 ≡ true
      → Mirrors F k (ack F upto j).0
  unfolding ack
  ack-Mirrors k upto j m small ok = elim (Bool-cases (leb upto j.state.acked)) [
    | inl old ↦
        subst (Mirrors F k)
          (sym (
            ground (
              arith,
              old,
              ack_local-acked upto j.state m.numbered m.ordered (ground (arith, old)),
            )))
          (weaken-Mirrors F k j m)
    | inr new ↦ subst (Mirrors F k) (sym (ground (arith, new))) (
        finished-Mirrors k (log_ack F upto j) (
          log_ack-Mirrors F appends k upto j m (omega (arith, small, m.short))
            (ground (arith, new, ok, finish_ok (log_ack F upto j)))))
  ]

  run_call-Mirrors :
      (k : ℕ) (c : Call) (j : Journal F.World)
      → Mirrors F (suc (suc k)) j
      → InRange c
      → (run_call F c j).1 ≡ true
      → Mirrors F k (run_call F c j).0
  unfolding run_call upsert delete
  run_call-Mirrors k (upsert_call path action_ms) j m _ ok =
      weaken-Mirrors F k _ (append-Mirrors (suc k) upsert_op path action_ms j m ok)
  run_call-Mirrors k (delete_call path action_ms) j m _ ok =
      weaken-Mirrors F k _ (append-Mirrors (suc k) delete_op path action_ms j m ok)
  run_call-Mirrors k (rename_call from to action_ms) j m _ ok =
      rename-Mirrors k from to action_ms j m ok
  run_call-Mirrors k (ack_call upto) j m small ok =
      weaken-Mirrors F k _ (ack-Mirrors (suc k) upto j m small ok)

  pub run_calls-Mirrors :
      (k : ℕ) (cs : List Call) (j : Journal F.World)
      → Mirrors F (2 * length cs + k) j
      → All InRange cs
      → (run_calls F cs j).1 ≡ true
      → Mirrors F k (run_calls F cs j).0
  unfolding run_calls
  run_calls-Mirrors k [] j m _ ok = subst (λ n. Mirrors F n j) (omega arith) m
  run_calls-Mirrors k (c ∷ cs) j m (r, rs) ok =
      run_calls-Mirrors k cs (run_call F c j).0
        (run_call-Mirrors (2 * length cs + k) c j (subst (λ n. Mirrors F n j) (omega arith) m) r
          (ground (arith, ok)))
        rs (ground (arith, ok))

  -- A client whose journal file is empty, and that then records and acknowledges actions without
  -- an error of the disk, finds exactly the same journal when it starts again: the same pending
  -- entries under the same numbers, the same indexes, the same acknowledged and next number. The
  -- session has fewer than 2048 calls, so that no compaction happens, and every acknowledged number
  -- is below 2^63. An append that succeeds adds its record at the end of the file.
  pub run_calls-open_journal :
      (w : F.World) (cs : List Call)
      → F.read w ≡ some ([], false)
      → 2 * length cs < compact_min_lines
      → All InRange cs
      → (run_calls F cs (open_journal F w)).1 ≡ true
      → open_journal F (run_calls F cs (open_journal F w)).0.world
        ≡ (run_calls F cs (open_journal F w)).0
  run_calls-open_journal w cs e small rs ok =
      Mirrors-open_journal F appends 0 (run_calls F cs (open_journal F w)).0 (
        run_calls-Mirrors 0 cs (open_journal F w)
          (start-Mirrors F (2 * length cs + 0) w (omega (arith, small)) e) rs ok)
