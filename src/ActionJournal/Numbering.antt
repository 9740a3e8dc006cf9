-- ===== src/ActionJournal/Numbering.antt =====
-- The sequence numbers of action_journal.rs, and `ack_local`.
use byte_hive.Base.{ℕ, ◌+◌, ◌<◌, ◌^◌, max, Bool, true, false, ◌&&◌, Option, none, some, List, []}
use byte_hive.Base.{◌∷◌, ◌≡◌, refl, sym, arith, if◌then◌else◌, contains, select, leb, nat_eq}
use byte_hive.Base.{is_some, Option-cases, inl, inr, list_eq}
use mathlib.Core.Path.{subst}
use byte_hive.Base.Dict
use byte_hive.Base.Dict.{Dict}
use byte_hive.Base.Tree.{IsSorted, Above}
use byte_hive.Base.Order.{nat_order, path_order}
use byte_hive.Base.Paths.{FilePath, component_eq, starts_with}
use byte_hive.ActionJournal.{
  JournalEntry, JournalOp, upsert_op, delete_op, rename_op, State, insert, remove, remove_all,
  delete_victim, delete_victims, delete_entry, split_rename, drop_exact, make_room, apply,
  victims_of, is_upsert, is_upsert_or_delete, exact, ack_local, keys_upto, empty,
}
use byte_hive.ActionJournal.Consistent.{
  IsConsistent, lookup-insert, lookup-remove, lookup-remove_all, remove_all-IsConsistent,
}

-- The next number is `n` and the acknowledged one is `a`, and every pending number lies between.
pub record Numbered (n a : ℕ) (st : State) : Type 0 where
  pub next_is : st.next_seq ≡ n
  pub acked_is : st.acked ≡ a
  pub above : (s : ℕ) (e : JournalEntry) → Dict.lookup s st.entries ≡ some e → a < s
  pub below : (s : ℕ) (e : JournalEntry) → Dict.lookup s st.entries ≡ some e → s < n

pub empty-Numbered : Numbered 1 0 empty
unfolding Dict.lookup
empty-Numbered = record {
  next_is = refl;
  acked_is = refl;
  above = λ s e h. cc;
  below = λ s e h. cc;
}

pub remove-Numbered : (n a seq : ℕ) (st : State) → Numbered n a st → Numbered n a (remove seq st)
unfolding remove
remove-Numbered n a seq st k = record {
  next_is = ground (arith, k.next_is);
  acked_is = ground (arith, k.acked_is);
  above = λ s e h. ground (arith, k.above s e, lookup-remove seq st s);
  below = λ s e h. ground (arith, k.below s e, lookup-remove seq st s);
}

remove_all-Numbered :
    (n a : ℕ) (ss : List ℕ) (st : State) → Numbered n a st → Numbered n a (remove_all ss st)
unfolding remove_all
remove_all-Numbered n a [] st k = k
remove_all-Numbered n a (s ∷ ss) st k =
    remove_all-Numbered n a ss (remove s st) (remove-Numbered n a s st k)

-- An entry under a number between them.
insert-Numbered :
    (n a : ℕ) (e : JournalEntry) (st : State)
    → n < 2 ^ 64
    → a < e.seq
    → e.seq < n
    → Numbered n a st
    → Numbered n a (insert e st)
unfolding insert
insert-Numbered n a e st small lo hi k = record {
  next_is = ground (arith, k.next_is);
  acked_is = k.acked_is;
  above = λ s f h. ground (arith, k.above s f, lookup-insert e st s);
  below = λ s f h. ground (arith, k.below s f, lookup-insert e st s);
}

-- An entry under the next number.
insert_next-Numbered :
    (n a : ℕ) (e : JournalEntry) (st : State)
    → n + 1 < 2 ^ 64
    → a < n
    → e.seq ≡ n
    → Numbered n a st
    → Numbered (n + 1) a (insert e st)
unfolding insert
insert_next-Numbered n a e st small lo own k = record {
  next_is = ground (arith, k.next_is);
  acked_is = k.acked_is;
  above = λ s f h. ground (arith, k.above s f, lookup-insert e st s);
  below = λ s f h. ground (arith, k.below s f, lookup-insert e st s);
}

split_rename-Numbered :
    (n a : ℕ) (from_in to_in : Bool) (to : FilePath) (seq : ℕ) (v : JournalEntry) (st : State)
    → n < 2 ^ 64
    → a < seq
    → seq < n
    → Numbered n a st
    → Numbered n a (split_rename from_in to_in to seq v st)
split_rename-Numbered n a true true to seq v st small lo hi k = remove-Numbered n a seq st k
split_rename-Numbered n a true false to seq v st small lo hi k =
    insert-Numbered n a (record { seq = seq; op = upsert_op; path = to; action_ms = v.action_ms })
      (remove seq st) small lo hi (remove-Numbered n a seq st k)
split_rename-Numbered n a false true to seq v st small lo hi k =
    insert-Numbered n a
      (record { seq = seq; op = delete_op; path = v.path; action_ms = v.action_ms }) (remove seq st)
      small lo hi (remove-Numbered n a seq st k)
split_rename-Numbered n a false false to seq v st small lo hi k = k

delete_entry-Numbered :
    (n a : ℕ) (prefix : FilePath) (seq : ℕ) (v : JournalEntry) (op : JournalOp) (st : State)
    → n < 2 ^ 64
    → a < seq
    → seq < n
    → Numbered n a st
    → Numbered n a (delete_entry prefix seq v op st)
delete_entry-Numbered n a prefix seq v upsert_op st small lo hi k = remove-Numbered n a seq st k
delete_entry-Numbered n a prefix seq v delete_op st small lo hi k = remove-Numbered n a seq st k
delete_entry-Numbered n a prefix seq v (rename_op to) st small lo hi k =
    split_rename-Numbered n a (starts_with v.path prefix) (starts_with to prefix) to seq v st small
      lo hi k

delete_victim-Numbered :
    (n a : ℕ) (prefix : FilePath) (seq : ℕ) (st : State)
    → n < 2 ^ 64
    → Numbered n a st
    → Numbered n a (delete_victim prefix seq st)
unfolding delete_victim
delete_victim-Numbered n a prefix seq st small k =
    elim (Option-cases (Dict.lookup seq st.entries)) [
      | inl e ↦ subst (Numbered n a) (sym (ground (arith, e))) k
      | inr (v, e) ↦ subst (Numbered n a) (sym (ground (arith, e))) (
          delete_entry-Numbered n a prefix seq v v.op st small (k.above seq v e) (k.below seq v e)
            k)
    ]

delete_victims-Numbered :
    (n a : ℕ) (prefix : FilePath) (ss : List ℕ) (st : State)
    → n < 2 ^ 64
    → Numbered n a st
    → Numbered n a (delete_victims prefix ss st)
unfolding delete_victims
delete_victims-Numbered n a prefix [] st small k = k
delete_victims-Numbered n a prefix (s ∷ ss) st small k =
    delete_victims-Numbered n a prefix ss (delete_victim prefix s st) small
      (delete_victim-Numbered n a prefix s st small k)

drop_exact-Numbered :
    (n a : ℕ) (f : Option JournalEntry → Bool) (path : FilePath) (st : State)
    → Numbered n a st
    → Numbered n a (drop_exact f path st)
unfolding drop_exact
drop_exact-Numbered n a f path st k =
    remove_all-Numbered n a (select (λ s. f (Dict.lookup s st.entries)) (exact st.by_path path)) st
      k

make_room-Numbered :
    (n a : ℕ) (new : JournalEntry) (op : JournalOp) (st : State)
    → n < 2 ^ 64
    → Numbered n a st
    → Numbered n a (make_room new op st)
unfolding make_room
make_room-Numbered n a new upsert_op st small k =
    drop_exact-Numbered n a is_upsert_or_delete new.path st k
make_room-Numbered n a new delete_op st small k =
    delete_victims-Numbered n a new.path (victims_of new.path st) st small k
make_room-Numbered n a new (rename_op to) st small k =
    drop_exact-Numbered n a is_upsert_or_delete to (drop_exact is_upsert new.path st)
      (drop_exact-Numbered n a is_upsert new.path st k)

pub apply-Numbered :
    (n a : ℕ) (new : JournalEntry) (st : State)
    → n + 1 < 2 ^ 64
    → a < n
    → new.seq ≡ n
    → Numbered n a st
    → Numbered (n + 1) a (apply new st)
unfolding apply
apply-Numbered n a new st small lo own k =
    insert_next-Numbered n a new (make_room new new.op st) small lo own
      (make_room-Numbered n a new new.op st (omega (arith, small)) k)

-- The next number is no pending entry's.
pub next-fresh : (n a : ℕ) (st : State) → Numbered n a st → Dict.lookup n st.entries ≡ none
next-fresh n a st k = elim (Option-cases (Dict.lookup n st.entries)) [
  | inl e ↦ e
  | inr (e, h) ↦ absurd (omega (arith, k.below n e h))
]

Above-lookup :
    (k : ℕ) (d : Dict ℕ JournalEntry) (s : ℕ) (e : JournalEntry)
    → Above k d
    → Dict.lookup s d ≡ some e
    → k < s
unfolding Dict.lookup nat_order
Above-lookup k [] s e _ h = cc
Above-lookup k ((j, _) ∷ d) s e (lt, above) h = ground (arith, Above-lookup k d s e above)

contains-keys_upto :
    (upto : ℕ) (d : Dict ℕ JournalEntry) (s : ℕ)
    → IsSorted d
    → contains (keys_upto upto d) s ≡ (is_some (Dict.lookup s d) && leb s upto)
unfolding keys_upto Dict.lookup
contains-keys_upto upto [] s _ = refl
contains-keys_upto upto ((j, f) ∷ d) s (above, sorted) = elim (Option-cases (Dict.lookup s d)) [
  | inl e ↦ ground (arith, e, contains-keys_upto upto d s sorted)
  | inr (g, e) ↦ ground (arith, e, contains-keys_upto upto d s sorted, Above-lookup j d s g above e)
]

-- In a journal whose indexes agree with its entries, an acknowledgement removes exactly the entries
-- up to its number, and leaves every other one as it was.
pub lookup-ack_local :
    (upto : ℕ) (st : State) (s : ℕ)
    → IsConsistent st
    → Dict.lookup s (ack_local upto st).entries
      ≡ (if leb s upto then none else Dict.lookup s st.entries)
unfolding ack_local
lookup-ack_local upto st s c = ground (
  arith,
  lookup-remove_all (keys_upto upto st.entries) st s,
  contains-keys_upto upto st.entries s c.entries_sorted,
)

pub ack_local-IsConsistent :
    (upto : ℕ) (st : State) → IsConsistent st → IsConsistent (ack_local upto st)
unfolding ack_local
ack_local-IsConsistent upto st c =
    let c' = remove_all-IsConsistent (keys_upto upto st.entries) st c in
    record {
      entries_sorted = c'.entries_sorted;
      path_sorted = c'.path_sorted;
      to_sorted = c'.to_sorted;
      own_seq = c'.own_seq;
      paths = c'.paths;
      targets = c'.targets;
    }

pub ack_local-Numbered :
    (n a upto : ℕ) (st : State)
    → upto + 1 < 2 ^ 64
    → IsConsistent st
    → Numbered n a st
    → Numbered (max n (upto + 1)) (max a upto) (ack_local upto st)
unfolding ack_local
ack_local-Numbered n a upto st small c k =
    let k' = remove_all-Numbered n a (keys_upto upto st.entries) st k in
    record {
      next_is = ground (arith, k'.next_is);
      acked_is = ground (arith, k'.acked_is);
      above = λ s e h. ground (arith, lookup-ack_local upto st s c, h, k.above s e);
      below = λ s e h. ground (arith, lookup-ack_local upto st s c, h, k.below s e);
    }
