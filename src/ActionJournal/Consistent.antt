-- ===== src/ActionJournal/Consistent.antt =====
-- The invariant of `State` in action_journal.rs, between the entries and the two indexes.
use byte_hive.Base.{ℕ, Bool, false, Option, none, some, List, [], ◌∷◌, ◌≡◌, refl, sym}
use byte_hive.Base.{arith, if◌then◌else◌, contains, ◌==◌, nat_eq, list_eq}
use mathlib.Core.Path.{subst}
use byte_hive.Base.Dict
use byte_hive.Base.Dict.{Dict}
use byte_hive.Base.Tree
use byte_hive.Base.Tree.{IsSorted}
use byte_hive.Base.Order.{path_order, nat_order}
use byte_hive.Base.Paths.{FilePath, component_eq}
use byte_hive.ActionJournal.{
  JournalEntry, JournalOp, upsert_op, delete_op, rename_op, State, Index, drop_index, insert,
  remove, remove_all, add_to, drop_to, empty, exact,
}
use byte_hive.ActionJournal.Index.{
  indexed, indexed-add_index, indexed-drop_index, add_index-IsSorted, drop_index-IsSorted,
}

-- Whether the entry is filed under the path, as its path or as the target of its rename.
abbrev pub at_path : FilePath → Option JournalEntry → Bool
at_path p none = false
at_path p (some e) = p == e.path

abbrev pub op_target : FilePath → JournalOp → Bool
op_target p upsert_op = false
op_target p delete_op = false
op_target p (rename_op to) = p == to

abbrev pub at_target : FilePath → Option JournalEntry → Bool
at_target p none = false
at_target p (some e) = op_target p e.op

pub record IsConsistent (st : State) : Type 0 where
  pub entries_sorted : IsSorted st.entries
  pub path_sorted : IsSorted st.by_path
  pub to_sorted : IsSorted st.by_to
  pub own_seq : (s : ℕ) (e : JournalEntry) → Dict.lookup s st.entries ≡ some e → e.seq ≡ s
  pub paths : (p : FilePath) (s : ℕ) → indexed st.by_path p s ≡ at_path p (Dict.lookup s st.entries)
  pub targets :
      (p : FilePath) (s : ℕ) → indexed st.by_to p s ≡ at_target p (Dict.lookup s st.entries)

pub empty-IsConsistent : IsConsistent empty
unfolding Dict.lookup exact
empty-IsConsistent = record {
  entries_sorted = tt;
  path_sorted = tt;
  to_sorted = tt;
  own_seq = λ s e h. cc;
  paths = λ p s. refl;
  targets = λ p s. refl;
}

add_to-IsSorted :
    (op : JournalOp) (seq : ℕ) (index : Index) → IsSorted index → IsSorted (add_to op seq index)
add_to-IsSorted upsert_op seq index h = h
add_to-IsSorted delete_op seq index h = h
add_to-IsSorted (rename_op to) seq index h = add_index-IsSorted index to seq h

drop_to-IsSorted :
    (op : JournalOp) (seq : ℕ) (index : Index) → IsSorted index → IsSorted (drop_to op seq index)
drop_to-IsSorted upsert_op seq index h = h
drop_to-IsSorted delete_op seq index h = h
drop_to-IsSorted (rename_op to) seq index h = drop_index-IsSorted index to seq h

-- What an insertion puts at one number of the target index, where nothing was filed before.
indexed-add_to :
    (op : JournalOp) (seq : ℕ) (index : Index) (p : FilePath) (s : ℕ)
    → indexed index p seq ≡ false
    → indexed (add_to op seq index) p s ≡ (if s == seq then op_target p op else indexed index p s)
indexed-add_to upsert_op seq index p s h = ground (arith, h)
indexed-add_to delete_op seq index p s h = ground (arith, h)
indexed-add_to (rename_op to) seq index p s h =
    ground (arith, indexed-add_index index to seq p s, h)

-- What a removal leaves there, where the operation's own target was filed and nothing else.
indexed-drop_to :
    (op : JournalOp) (seq : ℕ) (index : Index) (p : FilePath) (s : ℕ)
    → indexed index p seq ≡ op_target p op
    → indexed (drop_to op seq index) p s ≡ (if s == seq then false else indexed index p s)
indexed-drop_to upsert_op seq index p s h = ground (arith, h)
indexed-drop_to delete_op seq index p s h = ground (arith, h)
indexed-drop_to (rename_op to) seq index p s h =
    ground (arith, indexed-drop_index index to seq p s, h)

pub lookup-insert :
    (e : JournalEntry) (st : State) (s : ℕ)
    → Dict.lookup s (insert e st).entries
      ≡ (if s == e.seq then some e else Dict.lookup s st.entries)
unfolding insert
lookup-insert e st s = Tree.lookup-insert s e.seq e st.entries

pub lookup-remove :
    (seq : ℕ) (st : State) (s : ℕ)
    → Dict.lookup s (remove seq st).entries ≡ (if s == seq then none else Dict.lookup s st.entries)
unfolding remove
lookup-remove seq st s = ground (arith, Dict.lookup-erase s seq st.entries)

pub insert-IsConsistent :
    (e : JournalEntry) (st : State)
    → Dict.lookup e.seq st.entries ≡ none
    → IsConsistent st
    → IsConsistent (insert e st)
unfolding insert
insert-IsConsistent e st fresh c = record {
  entries_sorted = Tree.insert-IsSorted e.seq e st.entries c.entries_sorted;
  path_sorted = add_index-IsSorted st.by_path e.path e.seq c.path_sorted;
  to_sorted = add_to-IsSorted e.op e.seq st.by_to c.to_sorted;
  own_seq = λ s f h. ground (arith, lookup-insert e st s, h, c.own_seq s f);
  paths = λ p s. ground (
    arith,
    indexed-add_index st.by_path e.path e.seq p s,
    lookup-insert e st s,
    fresh,
    c.paths p s,
  );
  targets = λ p s. ground (
    arith,
    indexed-add_to e.op e.seq st.by_to p s,
    lookup-insert e st s,
    fresh,
    c.targets p s,
    c.targets p e.seq,
  );
}

removed-IsConsistent :
    (seq : ℕ) (e : JournalEntry) (st : State)
    → Dict.lookup seq st.entries ≡ some e
    → IsConsistent st
    → IsConsistent (record st {
      entries = Dict.erase seq st.entries;
      by_path = drop_index st.by_path e.path seq;
      by_to = drop_to e.op seq st.by_to;
    })
removed-IsConsistent seq e st found c = record {
  entries_sorted = Tree.erase-IsSorted seq st.entries c.entries_sorted;
  path_sorted = drop_index-IsSorted st.by_path e.path seq c.path_sorted;
  to_sorted = drop_to-IsSorted e.op seq st.by_to c.to_sorted;
  own_seq = λ s f h. ground (arith, Dict.lookup-erase s seq st.entries, h, c.own_seq s f);
  paths = λ p s. ground (
    arith,
    indexed-drop_index st.by_path e.path seq p s,
    Dict.lookup-erase s seq st.entries,
    found,
    c.paths p s,
  );
  targets = λ p s. ground (
    arith,
    indexed-drop_to e.op seq st.by_to p s,
    Dict.lookup-erase s seq st.entries,
    found,
    c.targets p s,
    c.targets p seq,
  );
}

pub remove-IsConsistent : (seq : ℕ) (st : State) → IsConsistent st → IsConsistent (remove seq st)
unfolding remove
remove-IsConsistent seq st c = go (Dict.lookup seq st.entries) refl
  where
    go : (o : Option JournalEntry) → Dict.lookup seq st.entries ≡ o → IsConsistent (remove seq st)
    go none h = subst IsConsistent (sym (ground (arith, h))) c
    go (some e) h = subst IsConsistent (sym (ground (arith, h))) (removed-IsConsistent seq e st h c)

pub remove_all-IsConsistent :
    (ss : List ℕ) (st : State) → IsConsistent st → IsConsistent (remove_all ss st)
unfolding remove_all
remove_all-IsConsistent [] st c = c
remove_all-IsConsistent (s ∷ ss) st c =
    remove_all-IsConsistent ss (remove s st) (remove-IsConsistent s st c)

pub lookup-remove_all :
    (ss : List ℕ) (st : State) (s : ℕ)
    → Dict.lookup s (remove_all ss st).entries
      ≡ (if contains ss s then none else Dict.lookup s st.entries)
unfolding remove_all
lookup-remove_all [] st s = refl
lookup-remove_all (x ∷ ss) st s =
    ground (arith, lookup-remove_all ss (remove x st) s, lookup-remove x st s)
