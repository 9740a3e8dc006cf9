-- ===== src/ActionJournal/Replay.antt =====
-- `open` of action_journal.rs, on the file that a session left.
use byte_hive.Base.{ℕ, suc, ◌+◌, ◌<◌, ◌≤◌, ◌^◌, max, Bool, true, false, Option, none, some, List}
use byte_hive.Base.{[], ◌∷◌, ◌++◌, ◌≡◌, refl, sym, arith, length, nat_eq, list_eq}
use byte_hive.Base.{string_eq, length-append}
use mathlib.Core.Path.{subst}
use byte_hive.Base.Dict
use byte_hive.Base.Dict.{Dict}
use byte_hive.Base.Order.{nat_order}
use byte_hive.Base.Paths.{FilePath, component_eq}
use byte_hive.ActionJournal.{
  JournalEntry, JournalOp, upsert_op, delete_op, rename_op, State, Line, ack_line, to_line, line_of,
  parse_op, apply, apply_line, ack_local, keys_upto, remove_all, empty,
}
use byte_hive.ActionJournal.Consistent.{IsConsistent}
use byte_hive.ActionJournal.Coalescing.{apply-IsConsistent}
use byte_hive.ActionJournal.Numbering.{
  Numbered, apply-Numbered, ack_local-Numbered, ack_local-IsConsistent, next-fresh,
}
use byte_hive.ActionJournal.Disk.{
  JournalFile, Journal, compact_min_lines, replay, replay_line, append_record, maybe_compact,
  log_entry, log_ack, open_journal, finish,
}

-- A record of an entry reads back as the entry.
apply_line-to_line :
    (e : JournalEntry) (st : State) → apply_line (to_line e) st ≡ (apply e st, true)
unfolding apply_line parse_op string_eq
apply_line-to_line e st = go e.op refl
  where
    go :
        (op : JournalOp)
        → op ≡ e.op
        → apply_line (line_of e op) st ≡ (
          apply (record { seq = e.seq; op = op; path = e.path; action_ms = e.action_ms }) st,
          true,
        )
    go upsert_op h = refl
    go delete_op h = refl
    go (rename_op to) h = refl

apply_line-ack_line :
    (upto : ℕ) (st : State) → apply_line (ack_line upto) st ≡ (ack_local upto st, true)
unfolding apply_line
apply_line-ack_line upto st = refl

replay-append :
    (ls : List (Option Line)) (l : Option Line) (r : State × Bool)
    → replay (ls ++ l ∷ []) r ≡ replay_line l (replay ls r)
unfolding replay
replay-append [] l r = refl
replay-append (x ∷ ls) l r = replay-append ls l (replay_line x r)

-- Acknowledging again changes nothing: what is pending is later.
keys_upto-acked :
    (upto n a : ℕ) (st : State) → Numbered n a st → upto ≤ a → keys_upto upto st.entries ≡ []
unfolding keys_upto Dict.lookup
keys_upto-acked upto n a st k h = go st.entries k.above
  where
    go :
        (d : Dict ℕ JournalEntry)
        → ((s : ℕ) (e : JournalEntry) → Dict.lookup s d ≡ some e → a < s)
        → keys_upto upto d ≡ []
    go [] above = refl
    go ((s, e) ∷ d) above = ground (arith, above s e, h)

pub ack_local-acked :
    (upto : ℕ) (st : State)
    → Numbered st.next_seq st.acked st
    → st.acked < st.next_seq
    → upto ≤ st.acked
    → ack_local upto st ≡ st
unfolding ack_local remove_all
ack_local-acked upto st k lo h =
    ground (arith, keys_upto-acked upto st.next_seq st.acked st k h, lo, h)

-- What a successful synced append does to a file that parses and has no torn tail.
abbrev pub Appends : JournalFile → Type 0
Appends F =
    (line : Line) (w : F.World) (lines : List (Option Line))
    → F.read w ≡ some (lines, false)
    → (F.append_line line w).1 ≡ true
    → F.read (F.append_line line w).0 ≡ some (lines ++ some line ∷ [], false)

-- The file replays to the state, and `k` more records can be written before a compaction.
pub record Mirrors (F : JournalFile) (k : ℕ) (j : Journal F.World) : Type 0 where
  pub lines : List (Option Line)
  pub readable : F.read j.world ≡ some (lines, false)
  pub counted : length lines ≡ j.lines_on_disk
  pub replayed : replay lines (empty, false) ≡ (j.state, false)
  pub consistent : IsConsistent j.state
  pub numbered : Numbered j.state.next_seq j.state.acked j.state
  pub ordered : j.state.acked < j.state.next_seq
  pub room : j.state.next_seq + k < 2 ^ 64
  pub short : j.lines_on_disk + k < compact_min_lines

module _ (F : JournalFile) (appends : Appends F) where
  -- Opening the file again gives the journal itself.
  pub Mirrors-open_journal :
      (k : ℕ) (j : Journal F.World) → Mirrors F k j → open_journal F j.world ≡ j
  unfolding open_journal
  Mirrors-open_journal k j m = ground (arith, m.readable, m.counted, m.replayed)

  -- The journal with one more record, and the state that the record leads to.
  abbrev written : Line → State → Journal F.World → Journal F.World
  written line st j = record {
    state = st;
    lines_on_disk = j.lines_on_disk + 1;
    world = (F.append_line line j.world).0;
  }

  written-Mirrors :
      (k : ℕ) (line : Line) (st : State) (j : Journal F.World)
      → Mirrors F (suc k) j
      → (F.append_line line j.world).1 ≡ true
      → apply_line line j.state ≡ (st, true)
      → IsConsistent st
      → Numbered st.next_seq st.acked st
      → st.acked < st.next_seq
      → st.next_seq + k < 2 ^ 64
      → Mirrors F k (written line st j)
  unfolding replay_line
  written-Mirrors k line st j m saved applied c n lo small = record {
    lines = m.lines ++ some line ∷ [];
    readable = appends line j.world m.lines m.readable saved;
    counted = omega (arith, length-append m.lines (some line ∷ []), m.counted);
    replayed =
        ground (arith, replay-append m.lines (some line) (empty, false), m.replayed, applied);
    consistent = c;
    numbered = n;
    ordered = lo;
    room = small;
    short = omega (arith, m.short);
  }

  renumber :
      (n a : ℕ) (st : State)
      → Numbered n a st
      → (Numbered st.next_seq st.acked st) × (st.next_seq ≡ n) × (st.acked ≡ a)
  renumber n a st k = (
    record {
      next_is = refl;
      acked_is = refl;
      above = λ s e h. ground (arith, k.acked_is, k.above s e h);
      below = λ s e h. ground (arith, k.next_is, k.below s e h);
    },
    k.next_is,
    k.acked_is,
  )

  pub log_entry-Mirrors :
      (k : ℕ) (op : JournalOp) (path : FilePath) (action_ms : ℕ) (j : Journal F.World)
      → Mirrors F (suc k) j
      → (log_entry F op path action_ms j).1 ≡ true
      → Mirrors F k (log_entry F op path action_ms j).0
  unfolding log_entry append_record
  log_entry-Mirrors k op path action_ms j m ok = subst (Mirrors F k) (sym (ground (arith, saved))) (
      written-Mirrors k (to_line entry) (apply entry j.state) j m saved
        (apply_line-to_line entry j.state) (apply-IsConsistent entry j.state fresh m.consistent) n.0
        (ground (arith, n.1, n.2, m.ordered)) (ground (arith, n.1, m.room)))
    where
      entry : JournalEntry
      entry = record { seq = j.state.next_seq; op = op; path = path; action_ms = action_ms }

      saved : (F.append_line (to_line entry) j.world).1 ≡ true
      saved = ground (arith, ok)

      fresh : Dict.lookup j.state.next_seq j.state.entries ≡ none
      fresh = next-fresh j.state.next_seq j.state.acked j.state m.numbered

      n :
          Numbered (apply entry j.state).next_seq (apply entry j.state).acked (apply entry j.state)
          × ((apply entry j.state).next_seq ≡ j.state.next_seq + 1)
          × ((apply entry j.state).acked ≡ j.state.acked)
      n = renumber (j.state.next_seq + 1) j.state.acked (apply entry j.state) (
          apply-Numbered j.state.next_seq j.state.acked entry j.state (omega (arith, m.room))
            m.ordered refl m.numbered)

  pub log_ack-Mirrors :
      (k : ℕ) (upto : ℕ) (j : Journal F.World)
      → Mirrors F (suc k) j
      → upto + suc k < 2 ^ 64
      → (log_ack F upto j).1 ≡ true
      → Mirrors F k (log_ack F upto j).0
  unfolding log_ack append_record
  log_ack-Mirrors k upto j m small ok = subst (Mirrors F k) (sym (ground (arith, saved))) (
      written-Mirrors k (ack_line upto) (ack_local upto j.state) j m saved applied
        (ack_local-IsConsistent upto j.state m.consistent) n.0 (ground (arith, n.1, n.2, m.ordered))
        (ground (arith, n.1, m.room)))
    where
      saved : (F.append_line (ack_line upto) j.world).1 ≡ true
      saved = ground (arith, ok)

      applied : apply_line (ack_line upto) j.state ≡ (ack_local upto j.state, true)
      applied = apply_line-ack_line upto j.state

      n :
          Numbered
            (ack_local upto j.state).next_seq
            (ack_local upto j.state).acked
            (ack_local upto j.state)
          × ((ack_local upto j.state).next_seq ≡ max j.state.next_seq (upto + 1))
          × ((ack_local upto j.state).acked ≡ max j.state.acked upto)
      n =
          renumber (max j.state.next_seq (upto + 1)) (max j.state.acked upto)
            (ack_local upto j.state)
            (ack_local-Numbered j.state.next_seq j.state.acked upto j.state (omega (arith, small))
              m.consistent m.numbered)

  -- No compaction before the limit.
  pub finish-Mirrors : (k : ℕ) (r : Journal F.World × Bool) → Mirrors F k r.0 → finish F r ≡ r
  unfolding maybe_compact
  finish-Mirrors k (j, false) m = refl
  finish-Mirrors k (j, true) m = ground (arith, m.short)
