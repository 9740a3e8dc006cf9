-- ===== src/Tests/Bin.antt =====
-- The trash at concrete inputs: a disk of named texts, with one entry in the index.
use byte_hive.Base.{ℕ, ◌+◌, Bool, true, false, none, some, Option, List, [], ◌∷◌, ◌≡◌}
use byte_hive.Base.{
  refl, arith, codes, Text, length, if◌then◌else◌, ◌==◌, nat_eq, list_eq, ◌⊎◌, inl, inr,
}
use byte_hive.Base.{is_some, All}
use byte_hive.Base.Dict
use byte_hive.Base.Dict.{Dict}
use byte_hive.Base.Paths.{FilePath, normal, component_eq, starts_with, strip_prefix}
use byte_hive.Trash.{
  TrashFs, TrashEntry, TrashManager, RestoreError, not_found, io, removed, done, bare, index_path,
  tmp_path, trash_dir, trash_dir_name, join, parent, validate_rel, take_entry, load_index,
  save_index,
}
use byte_hive.Trash.Entries.{
  restore_entry_with_dest, purge_entry, purge_expired, list_trash, dest_rel,
}
use byte_hive.Trash.Restore.{
  IsRestored, IsRefused, IsTaken, restore_entry_with_dest-IsRestored,
  restore_entry_with_dest-IsRefused,
}
use byte_hive.Trash.Disk.{IndexLaws, save_index-load_index, purge_entry-list_trash}
use byte_hive.Trash.Expiry.{recent, cutoff, purge_expired-list_trash}
use byte_hive.Trash.Covering
use byte_hive.Trash.Covering.{
  clear_ledger_covering, ledger_file_path, ledger_tmp_path, LedgerLaws, Outcome,
  clear_ledger_covering-Outcome,
}

abbrev name : FilePath
name = normal (codes "a") ∷ []

abbrev entry : TrashEntry
entry = record {
  id = codes "7";
  original_path = name;
  trash_rel_path = normal (codes "7") ∷ name;
  deleted_at_ms = 5;
  size = 1;
  is_dir = false;
  deleted_by = codes "n";
}

-- The text 0 is the empty index, and 1 the index with the entry.
read : Text → Option (List TrashEntry)
read [] = none
read (b ∷ bs) = if b == 0 then some [] else if b == 1 then some (entry ∷ []) else none

print : List TrashEntry → Option Text
print [] = some (0 ∷ [])
print (e ∷ es) = none

abbrev move : FilePath → FilePath → Dict FilePath Text → Option Text → Dict FilePath Text × Bool
move a b w none = (w, false)
move a b w (some t) = (Dict.insert b t (Dict.erase a w), true)

abbrev store : TrashFs
store = record {
  World = Dict FilePath Text;
  Value = ℕ;
  now_ms = λ w. 90_000_000;
  now_ns = λ w. 0;
  exists = λ w p. is_some (Dict.lookup p w);
  is_dir = λ w p. false;
  file_len = λ w p. none;
  listing = λ w p. done;
  read_to_string = λ w p. Dict.lookup p w;
  create_dir_all = λ p w. (w, true);
  write = λ p t w. (Dict.insert p t w, true);
  rename = λ a b w. move a b w (Dict.lookup a w);
  copy = λ a b w. (w, false);
  remove_file = λ p w. Dict.erase p w;
  remove_dir_all = λ p w. (w, removed);
  parse_index = read;
  print_index = print;
  parse_ledger = λ t. some (bare ((codes "a", 1) ∷ (codes "b", 2) ∷ []));
  print_ledger = λ v. some (9 ∷ []);
  path_of = λ t. normal t ∷ [];
  padded = λ width n. n ∷ [];
}

abbrev data_path : FilePath
data_path =
    normal (codes "r")
    ∷ normal (codes ".bh_filesync")
    ∷ normal (codes "trash")
    ∷ normal (codes "7")
    ∷ normal (codes "a")
    ∷ []

abbrev index : FilePath
index =
    normal (codes "r")
    ∷ normal (codes ".bh_filesync")
    ∷ normal (codes "trash")
    ∷ normal (codes "index.json")
    ∷ []

abbrev manager : TrashManager (Dict FilePath Text)
manager = record {
  root = normal (codes "r") ∷ [];
  expiry_days = some 1;
  counter = 0;
  world = (index, 1 ∷ []) ∷ (data_path, 3 ∷ []) ∷ [];
}

parse-print_lem : (es : List TrashEntry) (json : Text) → print es ≡ some json → read json ≡ some es
unfolding print read nat_eq
parse-print_lem [] json h = ground (arith, h)
parse-print_lem (e ∷ es) json h = cc

apart : (index_path manager == tmp_path manager) ≡ false
unfolding index_path tmp_path trash_dir trash_dir_name list_eq component_eq nat_eq
apart = refl

abbrev World : Type 0
World = Dict FilePath Text

-- The map of files, at two different paths.
module _ (a b : FilePath) (apart : (a == b) ≡ false) where
  write_keeps_lem : (t : Text) (w : World) → Dict.lookup a (Dict.insert b t w) ≡ Dict.lookup a w
  write_keeps_lem t w = ground (arith, Dict.lookup-insert a b t w, apart)

  write_reads_lem : (t : Text) (w : World) → Dict.lookup b (Dict.insert b t w) ≡ some t
  write_reads_lem t w = ground (arith, Dict.lookup-insert b b t w)

  move_fails_lem :
      (w : World) (o : Option Text)
      → (move b a w o).1 ≡ false
      → Dict.lookup a (move b a w o).0 ≡ Dict.lookup a w
  move_fails_lem w none h = refl
  move_fails_lem w (some t) h = cc

  move_moves_lem :
      (w : World) (o : Option Text) → (move b a w o).1 ≡ true → Dict.lookup a (move b a w o).0 ≡ o
  move_moves_lem w none h = cc
  move_moves_lem w (some t) h = ground (arith, Dict.lookup-insert a a t (Dict.erase b w))

  erase_keeps_lem : (w : World) → Dict.lookup a (Dict.erase b w) ≡ Dict.lookup a w
  erase_keeps_lem w = ground (arith, Dict.lookup-erase a b w, apart)

abbrev a_path : FilePath
a_path = index_path manager

abbrev t_path : FilePath
t_path = tmp_path manager

laws : IndexLaws store (index_path manager) (tmp_path manager) (trash_dir manager)
laws = record {
  create_dir_all_keeps = λ p w. refl;
  write_keeps = write_keeps_lem a_path t_path apart;
  write_reads = λ t w h. write_reads_lem a_path t_path apart t w;
  rename_fails = λ w. move_fails_lem a_path t_path apart w (Dict.lookup t_path w);
  rename_moves = λ w. move_moves_lem a_path t_path apart w (Dict.lookup t_path w);
  remove_keeps = erase_keeps_lem a_path t_path apart;
  remove_dir_all_keeps = λ p w h. refl;
  parse-print = parse-print_lem;
}

save_index-load_index_example :
    (load_index store (save_index store [] manager) ≡ load_index store manager)
    ⊎ (load_index store (save_index store [] manager) ≡ [])
save_index-load_index_example = save_index-load_index store manager laws []

beside :
    starts_with (index_path manager) (join (trash_dir manager) (normal (codes "7") ∷ [])) ≡ false
unfolding starts_with index_path trash_dir trash_dir_name join component_eq list_eq nat_eq
beside = refl

purge_entry-list_trash_run :
    (list_trash store (purge_entry store (codes "7") manager).0 ≡ list_trash store manager)
    ⊎ ((e : TrashEntry) × (rest : List TrashEntry) × IsTaken
          (codes "7")
          (list_trash store manager)
          e
          rest
        × (list_trash store (purge_entry store (codes "7") manager).0 ≡ rest))
purge_entry-list_trash_run = purge_entry-list_trash store manager laws (codes "7") beside

All-beside :
    All
      (λ e. starts_with (index_path manager) (join (trash_dir manager) (normal e.id ∷ [])) ≡ false)
      (list_trash store manager)
unfolding list_trash load_index read nat_eq list_eq component_eq Dict.lookup index_path trash_dir
    trash_dir_name starts_with join
All-beside = (refl, tt)

purge_expired-list_trash_example :
    ((purge_expired store manager).1
        + length (recent (cutoff 90_000_000 1) (list_trash store manager))
      ≡ length (list_trash store manager))
    × ((list_trash store (purge_expired store manager).0 ≡ list_trash store manager)
        ⊎ (list_trash store (purge_expired store manager).0
            ≡ recent (cutoff 90_000_000 1) (list_trash store manager)))
purge_expired-list_trash_example =
    purge_expired-list_trash store manager laws 1 refl (omega arith) All-beside

abbrev after : TrashManager World
after = (restore_entry_with_dest store (codes "7") none manager).0

restored : restore_entry_with_dest store (codes "7") none manager ≡ (after, inr name)
unfolding restore_entry_with_dest dest_rel validate_rel take_entry load_index read nat_eq list_eq
    component_eq Dict.lookup index_path trash_dir trash_dir_name join parent
restored = refl

restore_entry_with_dest-IsRestored_example : IsRestored store manager (codes "7") none after name
restore_entry_with_dest-IsRestored_example =
    restore_entry_with_dest-IsRestored store manager (codes "7") none after name restored

refused : restore_entry_with_dest store (codes "8") none manager ≡ (manager, inl not_found)
unfolding restore_entry_with_dest take_entry load_index read nat_eq list_eq component_eq Dict.lookup
    index_path trash_dir trash_dir_name
refused = refl

restore_entry_with_dest-IsRefused_example :
    (◌≡◌ {A = RestoreError} not_found io)
    ⊎ ((manager ≡ manager) × IsRefused store manager (codes "8") none not_found)
restore_entry_with_dest-IsRefused_example =
    restore_entry_with_dest-IsRefused store manager (codes "8") none manager not_found refused

-- A ledger with the keys `a` and `b`.
abbrev ledger_world : World
ledger_world =
    (normal (codes ".bh_filesync") ∷ normal (codes "deletion-ledger.json") ∷ [], 4 ∷ []) ∷ []

abbrev l_path : FilePath
l_path = ledger_file_path []

abbrev lt_path : FilePath
lt_path = ledger_tmp_path []

two_files : (l_path == lt_path) ≡ false
unfolding ledger_file_path ledger_tmp_path list_eq component_eq nat_eq
two_files = refl

ledger_laws : LedgerLaws store []
ledger_laws = record {
  write_keeps = write_keeps_lem l_path lt_path two_files;
  write_reads = λ t w h. write_reads_lem l_path lt_path two_files t w;
  rename_fails = λ w. move_fails_lem l_path lt_path two_files w (Dict.lookup lt_path w);
  rename_moves = λ w. move_moves_lem l_path lt_path two_files w (Dict.lookup lt_path w);
  remove_keeps = erase_keeps_lem l_path lt_path two_files;
}

clear_ledger_covering-Outcome_example :
    Outcome store []
      (name ∷ [])
      ledger_world
      (clear_ledger_covering store [] (name ∷ []) ledger_world)
clear_ledger_covering-Outcome_example =
    clear_ledger_covering-Outcome store [] (name ∷ []) ledger_world ledger_laws

one_cleared : (clear_ledger_covering store [] (name ∷ []) ledger_world).1 ≡ 1
unfolding clear_ledger_covering ledger_file_path ledger_tmp_path Covering.doomed Covering.is_covered
    strip_prefix Covering.entries_of Covering.erase_all Covering.with_entries Dict.lookup
    Dict.insert Dict.erase Dict.keys list_eq component_eq nat_eq
one_cleared = refl
