-- ===== src/ActionJournal/Outdated.antt =====
-- What stays pending in action_journal.rs after a deletion.
use byte_hive.Base.{ℕ, Bool, true, false, none, some, ◌≡◌, refl, arith}
use byte_hive.Base.{◌==◌, nat_eq, list_eq, Option-cases, inl, inr}
use byte_hive.Base.Dict
use byte_hive.Base.Paths.{FilePath, component_eq, starts_with}
use byte_hive.ActionJournal.{JournalEntry, JournalOp, upsert_op, delete_op, rename_op, State, apply}
use byte_hive.ActionJournal.Consistent.{IsConsistent}
use byte_hive.ActionJournal.Deletion.{and_then, mentions, rest_of, rest_of_rename, after_delete}
use byte_hive.ActionJournal.Coalescing.{apply_lem}

rest_of_rename-mentions :
    (prefix : FilePath) (to : FilePath) (e f : JournalEntry) (from_in to_in : Bool)
    → starts_with e.path prefix ≡ from_in
    → starts_with to prefix ≡ to_in
    → e.op ≡ rename_op to
    → rest_of_rename from_in to_in to e ≡ some f
    → mentions prefix f ≡ false
rest_of_rename-mentions prefix to e f true true h k o r = cc
rest_of_rename-mentions prefix to e f true false h k o r = ground (arith, h, k, r)
rest_of_rename-mentions prefix to e f false true h k o r = ground (arith, h, k, r)
rest_of_rename-mentions prefix to e f false false h k o r = ground (arith, h, k, o, r)

rest_of-mentions :
    (prefix : FilePath) (e f : JournalEntry) (op : JournalOp)
    → e.op ≡ op
    → rest_of prefix e op ≡ some f
    → mentions prefix f ≡ false
rest_of-mentions prefix e f upsert_op o r = cc
rest_of-mentions prefix e f delete_op o r = cc
rest_of-mentions prefix e f (rename_op to) o r =
    rest_of_rename-mentions prefix to e f (starts_with e.path prefix) (starts_with to prefix) refl
      refl o r

after_delete-mentions :
    (prefix : FilePath) (e f : JournalEntry)
    → after_delete prefix e ≡ some f
    → mentions prefix f ≡ false
after_delete-mentions prefix e f h = ground (arith, h, rest_of-mentions prefix e f e.op refl)

-- After a deletion with a fresh number, in a journal whose indexes agree with its entries, no other
-- pending entry names a path below the deleted one, neither as its own path nor as the target of a
-- rename.
pub delete-mentions :
    (new : JournalEntry) (st : State) (s : ℕ) (f : JournalEntry)
    → new.op ≡ delete_op
    → Dict.lookup new.seq st.entries ≡ none
    → IsConsistent st
    → (s == new.seq) ≡ false
    → Dict.lookup s (apply new st).entries ≡ some f
    → mentions new.path f ≡ false
delete-mentions new st s f o fresh c other h = elim (Option-cases (Dict.lookup s st.entries)) [
  | inl e ↦ absurd (ground (arith, law, e, h))
  | inr (e, k) ↦ after_delete-mentions new.path e f (ground (arith, law, k, h))
]
  where
    law :
        Dict.lookup s (apply new st).entries
        ≡ and_then (Dict.lookup s st.entries) (after_delete new.path)
    law = ground (arith, apply_lem new st s fresh c, o, other)
