-- ===== src/Tests/Journal.antt =====
-- Runs and examples of the action journal, on a file that is a list of records.
use byte_hive.Base.{true, false, none, some, List, [], ◌∷◌, ◌++◌, map, ◌≡◌, refl}
use byte_hive.Base.{arith, nat_eq, string_eq, list_eq, ap}
use byte_hive.Base.Dict
use byte_hive.Base.Tree
use byte_hive.Base.Order.{nat_order, path_order, path_lt, component_lt, rank, name_of, bytes_lt}
use byte_hive.Base.Paths.{FilePath, normal, component_eq, starts_with}
use byte_hive.ActionJournal.{
  JournalEntry, upsert_op, delete_op, rename_op, State, Line, apply, empty, make_room, ack_local,
  insert, drop_exact, exact, remove_all, add_index, drop_index, remove, set_insert, set_remove,
  delete_victims, delete_victim, victims_of, under, take_under, set_extend, apply_line, parse_op,
}
use byte_hive.ActionJournal.Consistent.{IsConsistent, empty-IsConsistent}
use byte_hive.ActionJournal.Coalescing.{apply_lem, apply-IsConsistent, coalesce}
use byte_hive.ActionJournal.Deletion.{and_then, mentions}
use byte_hive.ActionJournal.Numbering.{Numbered, lookup-ack_local}
use byte_hive.ActionJournal.Disk.{JournalFile, open_journal, replay, replay_line, compacted_lines}
use byte_hive.ActionJournal.Replay.{Appends}
use byte_hive.ActionJournal.Session.{
  Call, upsert_call, delete_call, rename_call, ack_call, run_calls, run_calls-open_journal,
}
use byte_hive.ActionJournal.Session.Success.{run_calls-IsConsistent}
use byte_hive.ActionJournal.Outdated.{delete-mentions}

abbrev list_file : JournalFile
list_file = record {
  World = List Line;
  read = λ w. some (map some w, false);
  append_line = λ l w. (w ++ l ∷ [], true);
  replace = λ ls w. (ls, true);
  back_up = λ w. w;
}

map-snoc : (w : List Line) (l : Line) → map some (w ++ l ∷ []) ≡ map some w ++ some l ∷ []
map-snoc [] l = refl
map-snoc (x ∷ w) l = ap (◌∷◌ (some x)) (map-snoc w l)

list_file-Appends : Appends list_file
list_file-Appends line w lines e ok = ground (arith, e, map-snoc w line)

abbrev docs : FilePath
docs = normal (100 ∷ []) ∷ []

abbrev docs_a : FilePath
docs_a = normal (100 ∷ []) ∷ normal (97 ∷ []) ∷ []

abbrev moved : FilePath
moved = normal (109 ∷ []) ∷ []

-- A pending rename out of the directory, and then the deletion of the directory.
abbrev move_out : JournalEntry
move_out = record { seq = 1; op = rename_op moved; path = docs_a; action_ms = 10 }

abbrev delete_docs : JournalEntry
delete_docs = record { seq = 2; op = delete_op; path = docs; action_ms = 20 }

abbrev arrived : JournalEntry
arrived = record { seq = 1; op = upsert_op; path = moved; action_ms = 10 }

pending : State
pending = apply move_out empty

pending-IsConsistent : IsConsistent pending
unfolding pending Dict.lookup
pending-IsConsistent = apply-IsConsistent move_out empty refl empty-IsConsistent

pending_two : Dict.lookup 2 pending.entries ≡ none
unfolding pending apply make_room insert drop_exact exact remove_all Tree.insert Dict.lookup nat_eq
pending_two = refl

pending_one : Dict.lookup 1 pending.entries ≡ some move_out
unfolding pending apply make_room insert drop_exact exact remove_all Tree.insert Dict.lookup nat_eq
pending_one = refl

-- The rename becomes the upsert of its target.
deleted_one : Dict.lookup 1 (apply delete_docs pending).entries ≡ some arrived
unfolding pending starts_with component_eq
deleted_one =
    ground (arith, apply_lem delete_docs pending 1 pending_two pending-IsConsistent, pending_one)

apply_lem_example :
    Dict.lookup 1 (apply delete_docs pending).entries
    ≡ and_then (Dict.lookup 1 pending.entries) (coalesce delete_docs delete_op)
unfolding Dict.lookup nat_eq
apply_lem_example = apply_lem delete_docs pending 1 pending_two pending-IsConsistent

delete-mentions_example : mentions docs arrived ≡ false
unfolding nat_eq
delete-mentions_example =
    delete-mentions delete_docs pending 1 arrived refl pending_two pending-IsConsistent refl
      deleted_one

lookup-ack_local_run : Dict.lookup 1 (ack_local 1 pending).entries ≡ none
lookup-ack_local_run = lookup-ack_local 1 pending 1 pending-IsConsistent

abbrev session : List Call
session = upsert_call docs_a 5 ∷ rename_call docs_a moved 10 ∷ delete_call docs 20 ∷ ack_call 2 ∷ []

session_ok : (run_calls list_file session (open_journal list_file [])).1 ≡ true
session_ok =
    (run_calls-IsConsistent list_file (λ line w. refl) [] session list_file-Appends refl
      (omega arith) (tt, (tt, (tt, (omega arith, tt))))).0

run_calls-open_journal_example :
    open_journal list_file (run_calls list_file session (open_journal list_file [])).0.world
    ≡ (run_calls list_file session (open_journal list_file [])).0
unfolding run_calls
run_calls-open_journal_example =
    run_calls-open_journal list_file list_file-Appends [] session refl (omega arith)
      (tt, (tt, (tt, (omega arith, tt)))) session_ok

run_calls-IsConsistent_example :
    ((run_calls list_file session (open_journal list_file [])).1 ≡ true)
    × IsConsistent (run_calls list_file session (open_journal list_file [])).0.state
    × Numbered
        (run_calls list_file session (open_journal list_file [])).0.state.next_seq
        (run_calls list_file session (open_journal list_file [])).0.state.acked
        (run_calls list_file session (open_journal list_file [])).0.state
run_calls-IsConsistent_example =
    run_calls-IsConsistent list_file (λ line w. refl) [] session list_file-Appends refl
      (omega arith) (tt, (tt, (tt, (omega arith, tt))))

-- The rename's target is written before the directory is deleted: two upserts of one path stay
-- pending, and the replay of the compacted file keeps the later one alone.
two_upserts : State
two_upserts =
    apply (record { seq = 3; op = delete_op; path = docs; action_ms = 30 })
      (apply (record { seq = 2; op = upsert_op; path = moved; action_ms = 20 }) pending)

two_upserts_pending : Dict.keys two_upserts.entries ≡ 1 ∷ 2 ∷ 3 ∷ []
unfolding two_upserts pending apply make_room insert drop_exact exact remove_all Tree.insert
    Dict.lookup Dict.keys nat_eq add_index drop_index remove set_insert set_remove delete_victims
    delete_victim victims_of under take_under Tree.range_from set_extend Dict.erase path_order
    path_lt component_lt rank name_of bytes_lt component_eq starts_with nat_order list_eq
two_upserts_pending = refl

two_upserts_compacted :
    Dict.keys (replay (map some (compacted_lines two_upserts)) (empty, false)).0.entries
    ≡ 2 ∷ 3 ∷ []
unfolding two_upserts pending apply make_room insert drop_exact exact remove_all Tree.insert
    Dict.lookup Dict.keys nat_eq add_index drop_index remove set_insert set_remove delete_victims
    delete_victim victims_of under take_under Tree.range_from set_extend Dict.erase path_order
    path_lt component_lt rank name_of bytes_lt component_eq starts_with nat_order list_eq replay
    replay_line apply_line parse_op compacted_lines Dict.values string_eq
two_upserts_compacted = refl
