-- ===== src/ActionJournal/Deletion.antt =====
-- The loop of a deletion in action_journal.rs: what becomes of each pending entry.
pub mod Victims
use byte_hive.Base.{ℕ, Bool, true, false, not, ◌&&◌, ◌||◌, Option, none, some, List, [], ◌∷◌}
use byte_hive.Base.{◌≡◌, refl, sym, ◌∙◌, arith, if◌then◌else◌, contains, select, ◌==◌, nat_eq}
use byte_hive.Base.{list_eq, Option-cases, Bool-cases, inl, inr, ltb}
use mathlib.Core.Path.{subst}
use byte_hive.Base.Dict
use byte_hive.Base.Tree
use byte_hive.Base.Order.{path_order, nat_order}
use byte_hive.Base.Paths.{FilePath, component_eq, starts_with}
use byte_hive.ActionJournal.{
  JournalEntry, JournalOp, upsert_op, delete_op, rename_op, State, insert, remove, remove_all,
  set_insert, set_extend, under, victims_of, delete_victim, delete_victims, delete_entry,
  split_rename, drop_exact, make_room, apply, is_upsert, is_upsert_or_delete, exact,
}
use byte_hive.ActionJournal.Index.{
  indexed, under_sound, under_complete, contains-set_extend, contains-set_insert,
}
use byte_hive.ActionJournal.Consistent.{
  IsConsistent, at_path, at_target, op_target, lookup-insert, lookup-remove, insert-IsConsistent,
  remove-IsConsistent, remove_all-IsConsistent, lookup-remove_all,
}

abbrev pub and_then :
    Option JournalEntry → (JournalEntry → Option JournalEntry) → Option JournalEntry
and_then none f = none
and_then (some e) f = f e

-- The rename's target is below the prefix.
abbrev pub target_under : FilePath → JournalOp → Bool
target_under prefix upsert_op = false
target_under prefix delete_op = false
target_under prefix (rename_op to) = starts_with to prefix

abbrev pub mentions : FilePath → JournalEntry → Bool
mentions prefix e = starts_with e.path prefix || target_under prefix e.op

-- What stays of a pending rename after a deletion that covers its source, its target, or both.
abbrev pub rest_of_rename : Bool → Bool → FilePath → JournalEntry → Option JournalEntry
rest_of_rename true true to e = none
rest_of_rename true false to e =
    some (record { seq = e.seq; op = upsert_op; path = to; action_ms = e.action_ms })
rest_of_rename false true to e =
    some (record { seq = e.seq; op = delete_op; path = e.path; action_ms = e.action_ms })
rest_of_rename false false to e = some e

abbrev pub rest_of : FilePath → JournalEntry → JournalOp → Option JournalEntry
rest_of prefix e upsert_op = none
rest_of prefix e delete_op = none
rest_of prefix e (rename_op to) =
    rest_of_rename (starts_with e.path prefix) (starts_with to prefix) to e

-- What a deletion leaves of one pending entry.
abbrev pub after_delete : FilePath → JournalEntry → Option JournalEntry
after_delete prefix e = if mentions prefix e then rest_of prefix e e.op else some e

-- One victim of a deletion.
lookup-delete_entry :
    (prefix : FilePath) (seq : ℕ) (v : JournalEntry) (op : JournalOp) (st : State) (s : ℕ)
    → v.seq ≡ seq
    → Dict.lookup seq st.entries ≡ some v
    → op ≡ v.op
    → Dict.lookup s (delete_entry prefix seq v op st).entries
      ≡ (if s == seq then rest_of prefix v op else Dict.lookup s st.entries)
lookup-delete_entry prefix seq v upsert_op st s own found o = ground (arith, lookup-remove seq st s)
lookup-delete_entry prefix seq v delete_op st s own found o = ground (arith, lookup-remove seq st s)
lookup-delete_entry prefix seq v (rename_op to) st s own found o = ground (
  arith,
  lookup-remove seq st s,
  lookup-insert (record { seq = seq; op = upsert_op; path = to; action_ms = v.action_ms })
      (remove seq st) s,
  lookup-insert (record { seq = seq; op = delete_op; path = v.path; action_ms = v.action_ms })
      (remove seq st) s,
)

lookup-delete_victim :
    (prefix : FilePath) (seq : ℕ) (st : State) (s : ℕ)
    → IsConsistent st
    → Dict.lookup s (delete_victim prefix seq st).entries ≡ (
        if s == seq
        then and_then (Dict.lookup seq st.entries) (λ e. rest_of prefix e e.op)
        else Dict.lookup s st.entries)
unfolding delete_victim
lookup-delete_victim prefix seq st s c = elim (Option-cases (Dict.lookup seq st.entries)) [
  | inl e ↦ ground (arith, e)
  | inr (v, e) ↦
      ground (arith, e, lookup-delete_entry prefix seq v v.op st s (c.own_seq seq v e) e refl)
]

reinsert-IsConsistent :
    (seq : ℕ) (op : JournalOp) (path : FilePath) (action_ms : ℕ) (st : State)
    → IsConsistent st
    → IsConsistent
        (insert (record { seq = seq; op = op; path = path; action_ms = action_ms }) (remove seq st))
reinsert-IsConsistent seq op path action_ms st c =
    insert-IsConsistent (record { seq = seq; op = op; path = path; action_ms = action_ms })
      (remove seq st) (ground (arith, lookup-remove seq st seq)) (remove-IsConsistent seq st c)

split_rename-IsConsistent :
    (from_in to_in : Bool) (to : FilePath) (seq : ℕ) (v : JournalEntry) (st : State)
    → IsConsistent st
    → IsConsistent (split_rename from_in to_in to seq v st)
split_rename-IsConsistent true true to seq v st c = remove-IsConsistent seq st c
split_rename-IsConsistent true false to seq v st c =
    reinsert-IsConsistent seq upsert_op to v.action_ms st c
split_rename-IsConsistent false true to seq v st c =
    reinsert-IsConsistent seq delete_op v.path v.action_ms st c
split_rename-IsConsistent false false to seq v st c = c

delete_entry-IsConsistent :
    (prefix : FilePath) (seq : ℕ) (v : JournalEntry) (op : JournalOp) (st : State)
    → IsConsistent st
    → IsConsistent (delete_entry prefix seq v op st)
delete_entry-IsConsistent prefix seq v upsert_op st c = remove-IsConsistent seq st c
delete_entry-IsConsistent prefix seq v delete_op st c = remove-IsConsistent seq st c
delete_entry-IsConsistent prefix seq v (rename_op to) st c =
    split_rename-IsConsistent (starts_with v.path prefix) (starts_with to prefix) to seq v st c

delete_victim-IsConsistent :
    (prefix : FilePath) (seq : ℕ) (st : State)
    → IsConsistent st
    → IsConsistent (delete_victim prefix seq st)
unfolding delete_victim
delete_victim-IsConsistent prefix seq st c = elim (Option-cases (Dict.lookup seq st.entries)) [
  | inl e ↦ subst IsConsistent (sym (ground (arith, e))) c
  | inr (v, e) ↦
      subst IsConsistent (sym (ground (arith, e)))
        (delete_entry-IsConsistent prefix seq v v.op st c)
]

-- The numbers of a set, in strict order.
abbrev pub Above : ℕ → List ℕ → Type 0
Above k [] = Unit
Above k (x ∷ xs) = (ltb k x ≡ true) × Above k xs

abbrev pub IsAscending : List ℕ → Type 0
IsAscending [] = Unit
IsAscending (x ∷ xs) = Above x xs × IsAscending xs

Above-contains : (k : ℕ) (xs : List ℕ) → Above k xs → contains xs k ≡ false
Above-contains k [] _ = refl
Above-contains k (x ∷ xs) (lt, above) = ground (arith, Above-contains k xs above)

Above-trans : (i k : ℕ) (xs : List ℕ) → ltb i k ≡ true → Above k xs → Above i xs
Above-trans i k [] h _ = tt
Above-trans i k (x ∷ xs) h (lt, above) = (ground arith, Above-trans i k xs h above)

set_insert-Above : (i s : ℕ) (xs : List ℕ) → ltb i s ≡ true → Above i xs → Above i (set_insert s xs)
unfolding set_insert
set_insert-Above i s [] h _ = (h, tt)
set_insert-Above i s (x ∷ xs) h (lt, above) = ground (arith, set_insert-Above i s xs h above)

set_insert-IsAscending : (s : ℕ) (xs : List ℕ) → IsAscending xs → IsAscending (set_insert s xs)
unfolding set_insert
set_insert-IsAscending s [] _ = (tt, tt)
set_insert-IsAscending s (x ∷ xs) (above, a) =
    ground (arith, set_insert-IsAscending s xs a, set_insert-Above x s xs, Above-trans s x xs)

pub set_extend-IsAscending : (ss xs : List ℕ) → IsAscending xs → IsAscending (set_extend ss xs)
unfolding set_extend
set_extend-IsAscending [] xs a = a
set_extend-IsAscending (s ∷ ss) xs a =
    set_extend-IsAscending ss (set_insert s xs) (set_insert-IsAscending s xs a)

-- The loop over distinct numbers treats each of them once.
pub lookup-delete_victims :
    (prefix : FilePath) (ss : List ℕ) (st : State) (s : ℕ)
    → IsAscending ss
    → IsConsistent st
    → Dict.lookup s (delete_victims prefix ss st).entries ≡ (
        if contains ss s
        then and_then (Dict.lookup s st.entries) (λ e. rest_of prefix e e.op)
        else Dict.lookup s st.entries)
unfolding delete_victims
lookup-delete_victims prefix [] st s _ c = refl
lookup-delete_victims prefix (x ∷ ss) st s (above, a) c = ground (
  arith,
  lookup-delete_victims prefix ss (delete_victim prefix x st) s a
      (delete_victim-IsConsistent prefix x st c),
  lookup-delete_victim prefix x st s c,
  Above-contains x ss above,
)

pub delete_victims-IsConsistent :
    (prefix : FilePath) (ss : List ℕ) (st : State)
    → IsConsistent st
    → IsConsistent (delete_victims prefix ss st)
unfolding delete_victims
delete_victims-IsConsistent prefix [] st c = c
delete_victims-IsConsistent prefix (x ∷ ss) st c =
    delete_victims-IsConsistent prefix ss (delete_victim prefix x st)
      (delete_victim-IsConsistent prefix x st c)
