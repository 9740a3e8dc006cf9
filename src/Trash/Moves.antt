-- ===== src/Trash/Moves.antt =====
-- `move_to_trash` of crates/core/src/trash.rs.
use byte_hive.Base.{ℕ, ◌+◌, ◌%◌, ◌^◌, Bool, true, false, none}
use byte_hive.Base.{some, [], ◌∷◌, ◌++◌, Text, codes, if◌then◌else◌, ◌==◌, list_eq, length}
use byte_hive.Base.{nat_eq}
use byte_hive.Base.Paths.{FilePath, component_eq}
use byte_hive.Trash.{
  TrashFs, TrashEntry, TrashManager, join, parent, trash_dir, load_index, save_index, set_world,
  hard_delete, copy_any, remove_any,
}

module _ (F : TrashFs) where
  open F use {World}

  -- `moved`: a rename, or else a copy.
  unfoldable pub move_away : Bool → FilePath → FilePath → World → World × Bool
  unfolding copy_any remove_any
  move_away is_dir src dst w =
      let (w1, renamed) = F.rename src dst w in
      let (w2, copied) = copy_any F is_dir src dst w1 in
      if renamed then (w1, true) else (if copied then remove_any F is_dir src w2 else w2, copied)

  unfoldable pub trash_id : TrashManager World → TrashManager World × Text
  trash_id t = (
    record t { counter = (t.counter + 1) % 2 ^ 64 },
    F.padded 20 (F.now_ns t.world % 2 ^ 64) ++ codes "_" ++ F.padded 6 t.counter,
  )

  unfoldable pub size_of : Bool → FilePath → World → ℕ
  size_of true path w = 0
  size_of false path w = elim (F.file_len w path) [ none ↦ 0 | some n ↦ n ]

  unfoldable pub new_entry : Text → FilePath → FilePath → Text → World → World → TrashEntry
  new_entry id full_path rel deleted_by before after = record {
    id = id;
    original_path = rel;
    trash_rel_path = join (F.path_of id) rel;
    deleted_at_ms = F.now_ms after % 2 ^ 64;
    size = size_of (F.is_dir before full_path) full_path before;
    is_dir = F.is_dir before full_path;
    deleted_by = deleted_by;
  }

  -- From the test of `moved` on.
  unfoldable pub log_move :
      FilePath
      → FilePath
      → Text
      → Text
      → World
      → World × Bool
      → TrashManager World
      → TrashManager World
  unfolding set_world
  log_move full_path rel deleted_by id before (w, true) t =
      let t' = set_world F w t in
      save_index F (load_index F t' ++ new_entry id full_path rel deleted_by before w ∷ []) t'
  log_move full_path rel deleted_by id before (w, false) t =
      set_world F
        (F.remove_dir_all (join (trash_dir t) (F.path_of id)) (hard_delete F full_path w)).0 t

  unfoldable pub put_away :
      FilePath → FilePath → Text → TrashManager World × Text → TrashManager World
  unfolding log_move move_away set_world
  put_away full_path rel deleted_by (t, id) =
      let entry_dir = join (trash_dir t) (F.path_of id) in
      let dest = join entry_dir rel in
      let dest_parent = if length (parent dest) == 0 then entry_dir else parent dest in
      let (w, created) = F.create_dir_all dest_parent t.world in
      if created
      then log_move full_path rel deleted_by id w
          (move_away (F.is_dir w full_path) full_path dest w) t
      else set_world F (hard_delete F full_path w) t

  unfoldable pub move_to_trash :
      FilePath → FilePath → Text → TrashManager World → TrashManager World
  unfolding put_away
  move_to_trash full_path rel deleted_by t =
      if F.exists t.world full_path then put_away full_path rel deleted_by (trash_id t) else t
