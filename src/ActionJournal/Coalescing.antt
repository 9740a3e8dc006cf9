-- ===== src/ActionJournal/Coalescing.antt =====
-- `apply` of action_journal.rs, and its rule for one pending entry.
use byte_hive.Base.{ℕ, Bool, ◌&&◌, ◌||◌, Option, none, some, List, [], ◌∷◌}
use byte_hive.Base.{◌≡◌, refl, arith, if◌then◌else◌, contains, select, ◌==◌, nat_eq}
use byte_hive.Base.{list_eq}
use byte_hive.Base.Dict
use byte_hive.Base.Order.{path_order, nat_order}
use byte_hive.Base.Paths.{FilePath, component_eq}
use byte_hive.ActionJournal.{
  JournalEntry, JournalOp, upsert_op, delete_op, rename_op, State, drop_exact, make_room, apply,
  is_upsert, is_upsert_or_delete, exact,
}
use byte_hive.ActionJournal.Consistent.{
  IsConsistent, lookup-insert, insert-IsConsistent, remove_all-IsConsistent, lookup-remove_all,
}
use byte_hive.ActionJournal.Deletion.{and_then, after_delete}
use byte_hive.ActionJournal.Deletion.Victims.{lookup-delete_all, delete_all-IsConsistent}

-- What a new action leaves of one pending entry.
abbrev pub coalesce : JournalEntry → JournalOp → JournalEntry → Option JournalEntry
coalesce new upsert_op e =
    if new.path == e.path && is_upsert_or_delete (some e) then none else some e
coalesce new delete_op e = after_delete new.path e
coalesce new (rename_op to) e =
    if new.path == e.path && is_upsert (some e) || to == e.path && is_upsert_or_delete (some e)
    then none
    else some e

contains-select :
    (f : ℕ → Bool) (xs : List ℕ) (s : ℕ) → contains (select f xs) s ≡ (contains xs s && f s)
contains-select f [] s = refl
contains-select f (x ∷ xs) s = ground (arith, contains-select f xs s)

-- `drop_exact` looks at the entries of the path only.
abbrev dropped : (Option JournalEntry → Bool) → FilePath → JournalEntry → Option JournalEntry
dropped f path e = if path == e.path && f (some e) then none else some e

lookup-drop_exact :
    (f : Option JournalEntry → Bool) (path : FilePath) (st : State) (s : ℕ)
    → IsConsistent st
    → Dict.lookup s (drop_exact f path st).entries
      ≡ and_then (Dict.lookup s st.entries) (dropped f path)
unfolding drop_exact
lookup-drop_exact f path st s c = ground (
  arith,
  lookup-remove_all (select (λ x. f (Dict.lookup x st.entries)) (exact st.by_path path)) st s,
  contains-select (λ x. f (Dict.lookup x st.entries)) (exact st.by_path path) s,
  c.paths path s,
)

drop_exact-IsConsistent :
    (f : Option JournalEntry → Bool) (path : FilePath) (st : State)
    → IsConsistent st
    → IsConsistent (drop_exact f path st)
unfolding drop_exact
drop_exact-IsConsistent f path st c =
    remove_all-IsConsistent (select (λ x. f (Dict.lookup x st.entries)) (exact st.by_path path)) st
      c

lookup-make_room :
    (new : JournalEntry) (op : JournalOp) (st : State) (s : ℕ)
    → IsConsistent st
    → Dict.lookup s (make_room new op st).entries
      ≡ and_then (Dict.lookup s st.entries) (coalesce new op)
unfolding make_room
lookup-make_room new upsert_op st s c = lookup-drop_exact is_upsert_or_delete new.path st s c
lookup-make_room new delete_op st s c = lookup-delete_all new.path st s c
lookup-make_room new (rename_op to) st s c = ground (
  arith,
  lookup-drop_exact is_upsert_or_delete to (drop_exact is_upsert new.path st) s
      (drop_exact-IsConsistent is_upsert new.path st c),
  lookup-drop_exact is_upsert new.path st s c,
)

make_room-IsConsistent :
    (new : JournalEntry) (op : JournalOp) (st : State)
    → IsConsistent st
    → IsConsistent (make_room new op st)
unfolding make_room
make_room-IsConsistent new upsert_op st c =
    drop_exact-IsConsistent is_upsert_or_delete new.path st c
make_room-IsConsistent new delete_op st c = delete_all-IsConsistent new.path st c
make_room-IsConsistent new (rename_op to) st c =
    drop_exact-IsConsistent is_upsert_or_delete to (drop_exact is_upsert new.path st)
      (drop_exact-IsConsistent is_upsert new.path st c)

pub apply-IsConsistent :
    (new : JournalEntry) (st : State)
    → Dict.lookup new.seq st.entries ≡ none
    → IsConsistent st
    → IsConsistent (apply new st)
unfolding apply
apply-IsConsistent new st fresh c =
    insert-IsConsistent new (make_room new new.op st)
      (ground (arith, fresh, lookup-make_room new new.op st new.seq c))
      (make_room-IsConsistent new new.op st c)

-- In a journal whose indexes agree with its entries, an action with a fresh number becomes an entry
-- under that number, and every other entry becomes what the coalescing rule of the two actions
-- says: it stays, it goes, or a rename that a deletion meets halfway becomes the upsert of its
-- target or the deletion of its source. Nothing else depends on the indexes.
pub apply_lem :
    (new : JournalEntry) (st : State) (s : ℕ)
    → Dict.lookup new.seq st.entries ≡ none
    → IsConsistent st
    → Dict.lookup s (apply new st).entries ≡ (
        if s == new.seq
        then some new
        else and_then (Dict.lookup s st.entries) (coalesce new new.op))
unfolding apply
apply_lem new st s fresh c =
    ground
      (arith, lookup-insert new (make_room new new.op st) s, lookup-make_room new new.op st s c)
