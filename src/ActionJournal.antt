-- ===== src/ActionJournal.antt =====
-- crates/filesync/src/action_journal.rs: the pending actions of a disconnected client, their
-- indexes by path, and the coalescing rules. The mutex is held for the whole of an operation.
pub mod Index
pub mod Consistent
pub mod Coalescing
pub mod Deletion
pub mod Numbering
pub mod Disk
pub mod Replay
pub mod Session
pub mod Outdated
use byte_hive.Base.{ℕ, ◌+◌, ◌%◌, ◌^◌, Bool, true, false, ◌&&◌, Option, none, some}
use byte_hive.Base.{List, [], ◌∷◌, ◌++◌, if◌then◌else◌, ltb, leb, max, contains, select, any}
use byte_hive.Base.{is_some, ◌==◌, nat_eq, list_eq, string_eq, String}
use byte_hive.Base.Dict
use byte_hive.Base.Dict.{Dict}
use byte_hive.Base.Tree
use byte_hive.Base.Order.{nat_order, path_order}
use byte_hive.Base.Paths.{FilePath, component_eq, starts_with}

pub data JournalOp : Type 0 where
  upsert_op : JournalOp
  delete_op : JournalOp
  rename_op : FilePath → JournalOp

pub record JournalEntry : Type 0 where
  pub seq : ℕ
  pub op : JournalOp
  pub path : FilePath
  pub action_ms : ℕ

abbrev pub Index : Type 0
Index = Dict FilePath (List ℕ)

-- The fields `file` and `lines_on_disk`, which only the file operations read, are in `Journal`.
pub record State : Type 0 where
  pub entries : Dict ℕ JournalEntry
  pub by_path : Index
  pub by_to : Index
  pub acked : ℕ
  pub next_seq : ℕ

-- `BTreeSet<u64>`: numbers in ascending order
unfoldable pub set_insert : ℕ → List ℕ → List ℕ
set_insert s [] = s ∷ []
set_insert s (x ∷ xs) =
    let rest = set_insert s xs in
    if s == x then x ∷ xs else if ltb s x then s ∷ x ∷ xs else x ∷ rest

unfoldable pub set_remove : ℕ → List ℕ → List ℕ
set_remove s set = select (λ x. if s == x then false else true) set

unfoldable pub set_extend : List ℕ → List ℕ → List ℕ
unfolding set_insert
set_extend [] set = set
set_extend (s ∷ ss) set = set_extend ss (set_insert s set)

-- `unwrap_or_default()`
abbrev pub or_empty : Option (List ℕ) → List ℕ
or_empty none = []
or_empty (some seqs) = seqs

unfoldable pub exact : Index → FilePath → List ℕ
exact index path = or_empty (Dict.lookup path index)

-- `take_while(starts_with).flat_map(seqs)`
unfoldable pub take_under : FilePath → Index → List ℕ
take_under prefix [] = []
take_under prefix ((k, seqs) ∷ rest) =
    let more = take_under prefix rest in if starts_with k prefix then seqs ++ more else []

unfoldable pub under : Index → FilePath → List ℕ
unfolding take_under
under index prefix = take_under prefix (Tree.range_from prefix index)

unfoldable pub add_index : Index → FilePath → ℕ → Index
unfolding set_insert exact
add_index index key seq = Tree.insert key (set_insert seq (exact index key)) index

-- A set that is left: kept, or its key removed when it is empty.
abbrev pub put_set : Index → FilePath → List ℕ → Index
put_set index key [] = Dict.erase key index
put_set index key (x ∷ xs) = Tree.insert key (x ∷ xs) index

unfoldable pub drop_index : Index → FilePath → ℕ → Index
unfolding set_remove
drop_index index key seq = elim (Dict.lookup key index) [
  | none ↦ index
  | some set ↦ put_set index key (set_remove seq set)
]

-- The indexes by the target of a rename.
abbrev pub add_to : JournalOp → ℕ → Index → Index
add_to upsert_op seq index = index
add_to delete_op seq index = index
add_to (rename_op to) seq index = add_index index to seq

abbrev pub drop_to : JournalOp → ℕ → Index → Index
drop_to upsert_op seq index = index
drop_to delete_op seq index = index
drop_to (rename_op to) seq index = drop_index index to seq

-- `+ 1` on `u64`
abbrev pub next : ℕ → ℕ
next seq = (seq + 1) % 2 ^ 64

unfoldable pub insert : JournalEntry → State → State
unfolding add_index
insert e st = record st {
  by_path = add_index st.by_path e.path e.seq;
  by_to = add_to e.op e.seq st.by_to;
  next_seq = max st.next_seq (next e.seq);
  entries = Tree.insert e.seq e st.entries;
}

unfoldable pub remove : ℕ → State → State
unfolding drop_index
remove seq st = elim (Dict.lookup seq st.entries) [
  | none ↦ st
  | some e ↦ record st {
    entries = Dict.erase seq st.entries;
    by_path = drop_index st.by_path e.path seq;
    by_to = drop_to e.op seq st.by_to;
  }
]

unfoldable pub remove_all : List ℕ → State → State
unfolding remove
remove_all [] st = st
remove_all (s ∷ ss) st = remove_all ss (remove s st)

-- `range(..=upto)`, the keys
unfoldable pub keys_upto : ℕ → Dict ℕ JournalEntry → List ℕ
keys_upto upto [] = []
keys_upto upto ((s, _) ∷ d) = let rest = keys_upto upto d in if leb s upto then s ∷ rest else []

unfoldable pub ack_local : ℕ → State → State
unfolding keys_upto remove_all
ack_local upto st =
    let st' = remove_all (keys_upto upto st.entries) st in
    record st' { acked = max st'.acked upto; next_seq = max st'.next_seq (next upto) }

-- `matches!(entries.get(s).map(|e| &e.op), ...)`
abbrev pub is_upsert : Option JournalEntry → Bool
is_upsert none = false
is_upsert (some e) = elim e.op [ upsert_op ↦ true | delete_op ↦ false | rename_op _ ↦ false ]

abbrev pub is_upsert_or_delete : Option JournalEntry → Bool
is_upsert_or_delete none = false
is_upsert_or_delete (some e) = elim e.op [
  | upsert_op ↦ true
  | delete_op ↦ true
  | rename_op _ ↦ false
]

-- The pending entries at exactly this path that `p` matches, removed.
unfoldable pub drop_exact : (Option JournalEntry → Bool) → FilePath → State → State
unfolding exact remove_all
drop_exact p path st =
    remove_all (select (λ s. p (Dict.lookup s st.entries)) (exact st.by_path path)) st

-- A rename met by a deletion, by whether its source and its target are deleted.
abbrev pub split_rename : Bool → Bool → FilePath → ℕ → JournalEntry → State → State
split_rename true true to seq v st = remove seq st
split_rename true false to seq v st =
    insert (record { seq = seq; op = upsert_op; path = to; action_ms = v.action_ms })
      (remove seq st)
split_rename false true to seq v st =
    insert (record { seq = seq; op = delete_op; path = v.path; action_ms = v.action_ms })
      (remove seq st)
split_rename false false to seq v st = st

-- One victim of a deletion, as its entry is when its turn comes.
abbrev pub delete_entry : FilePath → ℕ → JournalEntry → JournalOp → State → State
delete_entry prefix seq v upsert_op st = remove seq st
delete_entry prefix seq v delete_op st = remove seq st
delete_entry prefix seq v (rename_op to) st =
    split_rename (starts_with v.path prefix) (starts_with to prefix) to seq v st

unfoldable pub delete_victim : FilePath → ℕ → State → State
unfolding remove insert
delete_victim prefix seq st = elim (Dict.lookup seq st.entries) [
  | none ↦ st
  | some v ↦ delete_entry prefix seq v v.op st
]

unfoldable pub delete_victims : FilePath → List ℕ → State → State
unfolding delete_victim
delete_victims prefix [] st = st
delete_victims prefix (s ∷ ss) st = delete_victims prefix ss (delete_victim prefix s st)

-- The seqs that a deletion looks at.
unfoldable pub victims_of : FilePath → State → List ℕ
unfolding under set_extend
victims_of prefix st = set_extend (under st.by_to prefix) (set_extend (under st.by_path prefix) [])

-- `apply`, before the new entry goes in.
unfoldable pub make_room : JournalEntry → JournalOp → State → State
unfolding drop_exact delete_victims victims_of
make_room new upsert_op st = drop_exact is_upsert_or_delete new.path st
make_room new delete_op st = delete_victims new.path (victims_of new.path st) st
make_room new (rename_op to) st =
    drop_exact is_upsert_or_delete to (drop_exact is_upsert new.path st)

unfoldable pub apply : JournalEntry → State → State
unfolding make_room insert
apply new st = insert new (make_room new new.op st)

-- A record of the file; the operation is its JSON text.
pub data Line : Type 0 where
  ack_line : ℕ → Line
  entry_line : ℕ → String → FilePath → Option FilePath → ℕ → Line

abbrev pub line_of : JournalEntry → JournalOp → Line
line_of e upsert_op = entry_line e.seq "upsert" e.path none e.action_ms
line_of e delete_op = entry_line e.seq "delete" e.path none e.action_ms
line_of e (rename_op to) = entry_line e.seq "rename" e.path (some to) e.action_ms

abbrev pub to_line : JournalEntry → Line
to_line e = line_of e e.op

-- `("rename", Some(to))`
abbrev pub rename_to : Option FilePath → Option JournalOp
rename_to none = none
rename_to (some to) = some (rename_op to)

unfoldable pub parse_op : String → Option FilePath → Option JournalOp
parse_op op to =
    if op == "upsert"
    then some upsert_op
    else if op == "delete"
    then some delete_op
    else if op == "rename"
    then rename_to to
    else none

-- The new state, and whether the record was understood.
unfoldable pub apply_line : Line → State → State × Bool
unfolding apply ack_local parse_op
apply_line (ack_line upto) st = (ack_local upto st, true)
apply_line (entry_line seq op path to action_ms) st = elim (parse_op op to) [
  | none ↦ (st, false)
  | some o ↦ (apply (record { seq = seq; op = o; path = path; action_ms = action_ms }) st, true)
]

abbrev pub empty : State
empty = record { entries = []; by_path = []; by_to = []; acked = 0; next_seq = 1 }
