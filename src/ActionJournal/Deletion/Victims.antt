-- ===== src/ActionJournal/Deletion/Victims.antt =====
-- Which entries a deletion of action_journal.rs looks at.
use byte_hive.Base.{ℕ, Bool, true, false, ◌||◌, Option, none, some, []}
use byte_hive.Base.{◌≡◌, refl, sym, ◌∙◌, arith, contains, nat_eq}
use byte_hive.Base.{list_eq}
use byte_hive.Base.Dict
use byte_hive.Base.Order.{path_order, nat_order}
use byte_hive.Base.Paths.{FilePath, component_eq, starts_with}
use byte_hive.ActionJournal.{
  JournalEntry, JournalOp, upsert_op, delete_op, rename_op, State, set_extend, under, victims_of,
  delete_victims,
}
use byte_hive.ActionJournal.Index.{under_sound, under_complete, contains-set_extend}
use byte_hive.ActionJournal.Consistent.{IsConsistent, at_path, at_target, op_target}
use byte_hive.ActionJournal.Deletion.{
  and_then, target_under, after_delete, IsAscending, set_extend-IsAscending, lookup-delete_victims,
  delete_victims-IsConsistent,
}

-- Whether the entry's path is below the prefix, and whether its rename's target is.
abbrev path_below : FilePath → Option JournalEntry → Bool
path_below prefix none = false
path_below prefix (some e) = starts_with e.path prefix

abbrev target_below : FilePath → Option JournalEntry → Bool
target_below prefix none = false
target_below prefix (some e) = target_under prefix e.op

at_path-below :
    (p prefix : FilePath) (o : Option JournalEntry)
    → at_path p o ≡ true
    → starts_with p prefix ≡ true
    → path_below prefix o ≡ true
at_path-below p prefix none h k = h
at_path-below p prefix (some e) h k = ground (arith, h, k)

op_target-below :
    (p prefix : FilePath) (op : JournalOp)
    → op_target p op ≡ true
    → starts_with p prefix ≡ true
    → target_under prefix op ≡ true
op_target-below p prefix upsert_op h k = h
op_target-below p prefix delete_op h k = h
op_target-below p prefix (rename_op to) h k = ground (arith, h, k)

at_target-below :
    (p prefix : FilePath) (o : Option JournalEntry)
    → at_target p o ≡ true
    → starts_with p prefix ≡ true
    → target_below prefix o ≡ true
at_target-below p prefix none h k = h
at_target-below p prefix (some e) h k = op_target-below p prefix e.op h k

below-at_path :
    (prefix : FilePath) (o : Option JournalEntry)
    → path_below prefix o ≡ true
    → (p : FilePath) × (starts_with p prefix ≡ true) × (at_path p o ≡ true)
below-at_path prefix none h = cc
below-at_path prefix (some e) h = (e.path, h, ground arith)

below-op_target :
    (prefix : FilePath) (op : JournalOp)
    → target_under prefix op ≡ true
    → (p : FilePath) × (starts_with p prefix ≡ true) × (op_target p op ≡ true)
below-op_target prefix upsert_op h = cc
below-op_target prefix delete_op h = cc
below-op_target prefix (rename_op to) h = (to, h, ground arith)

below-at_target :
    (prefix : FilePath) (o : Option JournalEntry)
    → target_below prefix o ≡ true
    → (p : FilePath) × (starts_with p prefix ≡ true) × (at_target p o ≡ true)
below-at_target prefix none h = cc
below-at_target prefix (some e) h = below-op_target prefix e.op h

both : (a b : Bool) → (a ≡ true → b ≡ true) → (b ≡ true → a ≡ true) → a ≡ b
both true b f g = sym (f refl)
both false true f g = g refl
both false false f g = refl

contains-under-by_path :
    (prefix : FilePath) (st : State) (s : ℕ)
    → IsConsistent st
    → contains (under st.by_path prefix) s ≡ path_below prefix (Dict.lookup s st.entries)
contains-under-by_path prefix st s c =
    both (contains (under st.by_path prefix) s) (path_below prefix (Dict.lookup s st.entries))
      (λ h.
        let (p, below, found) = under_sound prefix st.by_path s c.path_sorted h in
        at_path-below p prefix (Dict.lookup s st.entries) (sym (c.paths p s) ∙ found) below)
      (λ h.
        let (p, below, found) = below-at_path prefix (Dict.lookup s st.entries) h in
        under_complete prefix st.by_path p s c.path_sorted below (c.paths p s ∙ found))

contains-under-by_to :
    (prefix : FilePath) (st : State) (s : ℕ)
    → IsConsistent st
    → contains (under st.by_to prefix) s ≡ target_below prefix (Dict.lookup s st.entries)
contains-under-by_to prefix st s c =
    both (contains (under st.by_to prefix) s) (target_below prefix (Dict.lookup s st.entries))
      (λ h.
        let (p, below, found) = under_sound prefix st.by_to s c.to_sorted h in
        at_target-below p prefix (Dict.lookup s st.entries) (sym (c.targets p s) ∙ found) below)
      (λ h.
        let (p, below, found) = below-at_target prefix (Dict.lookup s st.entries) h in
        under_complete prefix st.by_to p s c.to_sorted below (c.targets p s ∙ found))

victims_of-IsAscending : (prefix : FilePath) (st : State) → IsAscending (victims_of prefix st)
unfolding victims_of
victims_of-IsAscending prefix st =
    set_extend-IsAscending (under st.by_to prefix) (set_extend (under st.by_path prefix) [])
      (set_extend-IsAscending (under st.by_path prefix) [] tt)

contains-victims_of :
    (prefix : FilePath) (st : State) (s : ℕ)
    → IsConsistent st
    → contains (victims_of prefix st) s ≡ (
        path_below prefix (Dict.lookup s st.entries)
        || target_below prefix (Dict.lookup s st.entries))
unfolding victims_of
contains-victims_of prefix st s c = ground (
  arith,
  contains-under-by_path prefix st s c,
  contains-under-by_to prefix st s c,
  contains-set_extend (under st.by_to prefix) (set_extend (under st.by_path prefix) []) s,
  contains-set_extend (under st.by_path prefix) [] s,
)

pub lookup-delete_all :
    (prefix : FilePath) (st : State) (s : ℕ)
    → IsConsistent st
    → Dict.lookup s (delete_victims prefix (victims_of prefix st) st).entries
      ≡ and_then (Dict.lookup s st.entries) (after_delete prefix)
lookup-delete_all prefix st s c = ground (
  arith,
  lookup-delete_victims prefix (victims_of prefix st) st s (victims_of-IsAscending prefix st) c,
  contains-victims_of prefix st s c,
)

pub delete_all-IsConsistent :
    (prefix : FilePath) (st : State)
    → IsConsistent st
    → IsConsistent (delete_victims prefix (victims_of prefix st) st)
delete_all-IsConsistent prefix st c = delete_victims-IsConsistent prefix (victims_of prefix st) st c
