-- ===== src/Trash.antt =====
-- crates/core/src/trash.rs: the trash of a root directory. The file system, the clock and serde_json
-- are the parameter `TrashFs`. An operation holds the manager's lock throughout. The messages of
-- errors and of the log are not modelled.
pub mod Moves
pub mod Entries
pub mod Restore
pub mod Disk
pub mod Expiry
pub mod Covering
use byte_hive.Base.{ℕ, ◌+◌, ◌-◌, ◌*◌, ◌%◌, ◌^◌, Bool, true, false, ◌&&◌, ◌||◌, not, Option, none}
use byte_hive.Base.{
  some, List, [], ◌∷◌, ◌++◌, Text, codes, ltb, if◌then◌else◌, ◌==◌, list_eq, length,
}
use byte_hive.Base.{nat_eq, ◌⊎◌, inl, inr, any, is_some, select, contains}
use byte_hive.Base.Dict
use byte_hive.Base.Dict.{Dict}
use byte_hive.Base.Paths.{
  FilePath, Component, prefix, root_dir, cur_dir, parent_dir, normal, component_eq, strip_prefix,
}

-- `TrashRestoreError`
pub data RestoreError : Type 0 where
  not_found : RestoreError
  unsafe_path : RestoreError
  destination_exists : FilePath → RestoreError
  io : RestoreError

pub record TrashEntry : Type 0 where
  pub id : Text
  pub original_path : FilePath
  pub trash_rel_path : FilePath
  pub deleted_at_ms : ℕ
  pub size : ℕ
  pub is_dir : Bool
  pub deleted_by : Text

-- What `read_dir` yields for a directory and those below it: a name that is read, a directory with
-- what it holds, or an error, at which the iteration is given up.
pub data Listing : Type 0 where
  done : Listing
  failed : Listing
  file : List ℕ → Listing → Listing
  dir : List ℕ → Listing → Listing → Listing

-- The outcome of `remove_dir_all`, with the kind of error that the code tells from the others.
pub data Removal : Type 0 where
  removed : Removal
  absent : Removal
  refused : Removal

-- The ledger's file as serde_json reads it: an object with an object under "entries", any other
-- object, or no object. The keys are file names; the values, and what stands beside the entries,
-- are passed on.
pub data LedgerJson (V : Type 0) : Type 0 where
  wrapped : Dict Text V → LedgerJson V
  bare : Dict Text V → LedgerJson V
  other : LedgerJson V

pub record TrashFs : Type 1 where
  pub World : Type 0
  pub Value : Type 0
  pub now_ms : World → ℕ
  pub now_ns : World → ℕ
  pub exists : World → FilePath → Bool
  pub is_dir : World → FilePath → Bool
  pub file_len : World → FilePath → Option ℕ
  pub listing : World → FilePath → Listing
  pub read_to_string : World → FilePath → Option Text
  pub create_dir_all : FilePath → World → World × Bool
  pub write : FilePath → Text → World → World × Bool
  pub rename : FilePath → FilePath → World → World × Bool
  pub copy : FilePath → FilePath → World → World × Bool
  pub remove_file : FilePath → World → World
  pub remove_dir_all : FilePath → World → World × Removal
  pub parse_index : Text → Option (List TrashEntry)
  pub print_index : List TrashEntry → Option Text
  pub parse_ledger : Text → Option (LedgerJson Value)
  pub print_ledger : LedgerJson Value → Option Text
  -- `PathBuf::from` of a string
  pub path_of : Text → FilePath
  -- `format!` of a number with zeros up to a width
  pub padded : ℕ → ℕ → Text

-- `TrashManager`, with the world and the static `COUNTER`.
pub record TrashManager (W : Type 0) : Type 0 where
  pub root : FilePath
  pub expiry_days : Option ℕ
  pub counter : ℕ
  pub world : W

-- `Path::join`: an absolute path replaces the first.
unfoldable pub join : FilePath → FilePath → FilePath
join p (prefix ∷ r) = prefix ∷ r
join p (root_dir ∷ r) = root_dir ∷ r
join p (cur_dir ∷ r) = p ++ r
join p (parent_dir ∷ r) = p ++ parent_dir ∷ r
join p (normal n ∷ r) = p ++ normal n ∷ r
join p [] = p

-- `Path::parent` of a path that does not end in a root.
unfoldable pub parent : FilePath → FilePath
parent [] = []
parent (c ∷ []) = []
parent (c ∷ d ∷ p) = c ∷ parent (d ∷ p)

is_inside : Component → Bool
is_inside prefix = false
is_inside root_dir = false
is_inside cur_dir = true
is_inside parent_dir = false
is_inside (normal n) = true

all_inside : FilePath → Bool
unfolding is_inside
all_inside [] = true
all_inside (c ∷ p) = is_inside c && all_inside p

-- Whether `validate_rel` returns `Ok`.
unfoldable pub validate_rel : FilePath → Bool
unfolding all_inside
validate_rel [] = false
validate_rel (c ∷ p) = all_inside (c ∷ p)

unfoldable pub trash_dir_name : FilePath
trash_dir_name = normal (codes ".bh_filesync") ∷ normal (codes "trash") ∷ []

unfoldable pub trash_dir : {W : Type 0} → TrashManager W → FilePath
trash_dir t = t.root ++ trash_dir_name

unfoldable pub index_path : {W : Type 0} → TrashManager W → FilePath
index_path t = trash_dir t ++ normal (codes "index.json") ∷ []

unfoldable pub tmp_path : {W : Type 0} → TrashManager W → FilePath
tmp_path t = trash_dir t ++ normal (codes "index.json.tmp") ∷ []

put_back :
    TrashEntry → Option (TrashEntry × List TrashEntry) → Option (TrashEntry × List TrashEntry)
put_back e none = none
put_back e (some (f, es)) = some (f, e ∷ es)

-- `position` and `Vec::remove` in one: the first entry of the id, and the list without it.
unfoldable pub take_entry : Text → List TrashEntry → Option (TrashEntry × List TrashEntry)
unfolding put_back
take_entry id [] = none
take_entry id (e ∷ es) =
    let later = put_back e (take_entry id es) in if e.id == id then some (e, es) else later

or_empty : Option (List TrashEntry) → List TrashEntry
or_empty none = []
or_empty (some es) = es

module _ (F : TrashFs) where
  open F use {World}

  unfoldable pub set_world : World → TrashManager World → TrashManager World
  set_world w t = record t { world = w }

  parsed : Option Text → List TrashEntry
  unfolding or_empty
  parsed none = []
  parsed (some text) = or_empty (F.parse_index text)

  unfoldable pub load_index : TrashManager World → List TrashEntry
  unfolding parsed
  load_index t = parsed (F.read_to_string t.world (index_path t))

  -- After the temporary file is written.
  rename_index : FilePath → FilePath → World → World
  rename_index tmp path w =
      let (w', renamed) = F.rename tmp path w in if renamed then w' else F.remove_file tmp w'

  write_index : FilePath → FilePath → Option Text → World → World
  unfolding rename_index
  write_index tmp path none w = w
  write_index tmp path (some json) w =
      let (w', written) = F.write tmp json w in if written then rename_index tmp path w' else w'

  unfoldable pub save_index : List TrashEntry → TrashManager World → TrashManager World
  unfolding write_index set_world
  save_index index t =
      let (w, created) = F.create_dir_all (trash_dir t) t.world in
      set_world
        (if created then write_index (tmp_path t) (index_path t) (F.print_index index) w else w) t

  unfoldable pub hard_delete : FilePath → World → World
  hard_delete path w = if F.is_dir w path then (F.remove_dir_all path w).0 else F.remove_file path w

  -- The loop of `copy_dir_all`, and the calls it makes of itself.
  unfoldable pub copy_entries : Listing → FilePath → FilePath → World → World × Bool
  copy_entries done src dst w = (w, true)
  copy_entries failed src dst w = (w, false)
  copy_entries (file n rest) src dst w =
      let (w', copied) = F.copy (src ++ normal n ∷ []) (dst ++ normal n ∷ []) w in
      let later = copy_entries rest src dst w' in if copied then later else (w', false)
  copy_entries (dir n inside rest) src dst w =
      let (w', created) = F.create_dir_all (dst ++ normal n ∷ []) w in
      let (w'', copied) = copy_entries inside (src ++ normal n ∷ []) (dst ++ normal n ∷ []) w' in
      let later = copy_entries rest src dst w'' in
      if not created then (w', false) else if copied then later else (w'', false)

  unfoldable pub copy_dir_all : FilePath → FilePath → World → World × Bool
  copy_dir_all src dst w =
      let (w', created) = F.create_dir_all dst w in
      if created then copy_entries (F.listing w' src) src dst w' else (w', false)

  copy_any : Bool → FilePath → FilePath → World → World × Bool
  copy_any is_dir src dst w = if is_dir then copy_dir_all src dst w else F.copy src dst w

  remove_any : Bool → FilePath → World → World
  remove_any is_dir path w = if is_dir then (F.remove_dir_all path w).0 else F.remove_file path w
