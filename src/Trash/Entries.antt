-- ===== src/Trash/Entries.antt =====
-- The operations on the entries of the index of crates/core/src/trash.rs.
use byte_hive.Base.{ℕ, ◌+◌, ◌-◌, ◌*◌, ◌%◌, ◌^◌, Bool, true, false, not, Option, none}
use byte_hive.Base.{some, List, [], ◌∷◌, Text, ltb, if◌then◌else◌, list_eq, length}
use byte_hive.Base.{nat_eq, ◌⊎◌, inl, inr}
use byte_hive.Base.Paths.{FilePath, component_eq}
use byte_hive.Trash.{
  TrashFs, TrashEntry, TrashManager, RestoreError, not_found, unsafe_path, destination_exists, io,
  Removal, removed, absent, refused, join, parent, validate_rel, trash_dir, take_entry, load_index,
  save_index, set_world, copy_any, remove_any,
}

module _ (F : TrashFs) where
  open F use {World}

  -- A rename, or else a copy; the file system is asked each time whether it is a directory.
  unfoldable pub move_back : FilePath → FilePath → World → World × Bool
  unfolding copy_any remove_any
  move_back src dst w =
      let (w1, renamed) = F.rename src dst w in
      let (w2, copied) = copy_any F (F.is_dir w1 src) src dst w1 in
      if renamed
      then (w1, true)
      else (if copied then remove_any F (F.is_dir w2 src) src w2 else w2, copied)

  unfoldable pub list_trash : TrashManager World → List TrashEntry
  list_trash t = load_index F t

  -- The path to restore to, before it is validated: the empty override is refused by the same test.
  unfoldable pub dest_rel : Option FilePath → TrashEntry → FilePath
  dest_rel none entry = entry.original_path
  dest_rel (some o) entry = o

  -- After the data was moved.
  unfoldable pub finish_restore :
      TrashEntry
      → List TrashEntry
      → FilePath
      → World × Bool
      → TrashManager World
      → TrashManager World × (RestoreError ⊎ FilePath)
  unfolding set_world
  finish_restore entry rest dest (w, false) t = (set_world F w t, inl io)
  finish_restore entry rest dest (w, true) t =
      let w' = (F.remove_dir_all (join (trash_dir t) (F.path_of entry.id)) w).0 in
      (save_index F rest (set_world F w' t), inr dest)

  unfoldable pub restore_found :
      TrashEntry
      → List TrashEntry
      → FilePath
      → TrashManager World
      → TrashManager World × (RestoreError ⊎ FilePath)
  unfolding finish_restore move_back set_world
  restore_found entry rest dest t =
      let trash_full = join (trash_dir t) entry.trash_rel_path in
      let dest_full = join t.root dest in
      let (w, created) = F.create_dir_all (parent dest_full) t.world in
      if not (validate_rel dest)
      then (t, inl unsafe_path)
      else if not (F.exists t.world trash_full)
      then (t, inl not_found)
      else if F.exists t.world dest_full
      then (t, inl (destination_exists dest))
      else if created
      then finish_restore entry rest dest (move_back trash_full dest_full w) t
      else (set_world F w t, inl io)

  unfoldable pub restore_taken :
      Option FilePath
      → Option (TrashEntry × List TrashEntry)
      → TrashManager World
      → TrashManager World × (RestoreError ⊎ FilePath)
  unfolding restore_found
  restore_taken dest_override none t = (t, inl not_found)
  restore_taken dest_override (some (entry, rest)) t =
      restore_found entry rest (dest_rel dest_override entry) t

  unfoldable pub restore_entry_with_dest :
      Text → Option FilePath → TrashManager World → TrashManager World × (RestoreError ⊎ FilePath)
  unfolding restore_taken
  restore_entry_with_dest id dest_override t =
      restore_taken dest_override (take_entry id (load_index F t)) t

  unfoldable pub purge_removed :
      List TrashEntry → World × Removal → TrashManager World → TrashManager World × Bool
  unfolding set_world
  purge_removed rest (w, refused) t = (set_world F w t, false)
  purge_removed rest (w, removed) t = (save_index F rest (set_world F w t), true)
  purge_removed rest (w, absent) t = (save_index F rest (set_world F w t), true)

  unfoldable pub purge_taken :
      Option (TrashEntry × List TrashEntry) → TrashManager World → TrashManager World × Bool
  unfolding purge_removed
  purge_taken none t = (t, false)
  purge_taken (some (entry, rest)) t =
      purge_removed rest (F.remove_dir_all (join (trash_dir t) (F.path_of entry.id)) t.world) t

  -- Whether it returns `Ok`.
  unfoldable pub purge_entry : Text → TrashManager World → TrashManager World × Bool
  unfolding purge_taken
  purge_entry id t = purge_taken (take_entry id (load_index F t)) t

  -- `retain`, with the directories it removes and its count.
  unfoldable pub purge_old : FilePath → ℕ → List TrashEntry → World → World × List TrashEntry × ℕ
  purge_old dir_path cutoff_ms [] w = (w, [], 0)
  purge_old dir_path cutoff_ms (e ∷ es) w =
      let expired = ltb e.deleted_at_ms cutoff_ms in
      let w' = if expired then (F.remove_dir_all (join dir_path (F.path_of e.id)) w).0 else w in
      let (w'', rest, count) = purge_old dir_path cutoff_ms es w' in
      if expired then (w'', rest, count + 1) else (w'', e ∷ rest, count)

  unfoldable pub purge_before : ℕ → TrashManager World → TrashManager World × ℕ
  unfolding set_world
  purge_before cutoff_ms t =
      let (w, kept, count) = purge_old (trash_dir t) cutoff_ms (load_index F t) t.world in
      let t' = set_world F w t in (if ltb 0 count then save_index F kept t' else t', count)

  unfoldable pub purge_days : Option ℕ → TrashManager World → TrashManager World × ℕ
  unfolding purge_before
  purge_days none t = (t, 0)
  purge_days (some days) t =
      if ltb 0 days
      then purge_before (F.now_ms t.world % 2 ^ 64 - days * 24 * 3600 * 1000 % 2 ^ 64) t
      else (t, 0)

  unfoldable pub purge_expired : TrashManager World → TrashManager World × ℕ
  unfolding purge_days
  purge_expired t = purge_days t.expiry_days t

  unfoldable pub remove_entries : FilePath → List TrashEntry → World → World
  remove_entries dir_path [] w = w
  remove_entries dir_path (e ∷ es) w =
      remove_entries dir_path es (F.remove_dir_all (join dir_path (F.path_of e.id)) w).0

  unfoldable pub empty : TrashManager World → TrashManager World × ℕ
  unfolding remove_entries set_world
  empty t =
      let index = load_index F t in
      (save_index F [] (set_world F (remove_entries (trash_dir t) index t.world) t), length index)
