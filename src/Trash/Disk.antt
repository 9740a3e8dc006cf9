-- ===== src/Trash/Disk.antt =====
-- The index file of crates/core/src/trash.rs across failures of the file system.
use byte_hive.Base.{true, false, Option, none, some, List, Text, ◌≡◌, refl}
use byte_hive.Base.{arith, ◌⊎◌, inl, inr, Bool-cases, ap, ◌∙◌}
use byte_hive.Base.Paths.{FilePath, starts_with}
use byte_hive.Trash.{
  TrashFs, TrashEntry, TrashManager, Removal, removed, absent, refused, index_path, tmp_path,
  trash_dir, load_index, parsed, or_empty, save_index, set_world, write_index, rename_index, join,
  take_entry,
}
use byte_hive.Trash.Entries.{purge_entry, purge_taken, purge_removed, list_trash}
use byte_hive.Trash.Restore.{IsTaken, take_entry-IsTaken}

-- What the index file relies on: other calls than its rename leave it alone, a rename that fails
-- does too, one that succeeds puts there what was written to the temporary file, and serde_json
-- reads what it prints.
pub record IndexLaws (F : TrashFs) (index tmp dir_path : FilePath) : Type 0 where
  pub create_dir_all_keeps :
      (p : FilePath) (w : F.World)
      → F.read_to_string (F.create_dir_all p w).0 index ≡ F.read_to_string w index
  pub write_keeps :
      (json : Text) (w : F.World)
      → F.read_to_string (F.write tmp json w).0 index ≡ F.read_to_string w index
  pub write_reads :
      (json : Text) (w : F.World)
      → (F.write tmp json w).1 ≡ true
      → F.read_to_string (F.write tmp json w).0 tmp ≡ some json
  pub rename_fails :
      (w : F.World)
      → (F.rename tmp index w).1 ≡ false
      → F.read_to_string (F.rename tmp index w).0 index ≡ F.read_to_string w index
  pub rename_moves :
      (w : F.World)
      → (F.rename tmp index w).1 ≡ true
      → F.read_to_string (F.rename tmp index w).0 index ≡ F.read_to_string w tmp
  pub remove_keeps :
      (w : F.World) → F.read_to_string (F.remove_file tmp w) index ≡ F.read_to_string w index
  pub remove_dir_all_keeps :
      (p : FilePath) (w : F.World)
      → starts_with index p ≡ false
      → F.read_to_string (F.remove_dir_all p w).0 index ≡ F.read_to_string w index
  pub parse-print :
      (es : List TrashEntry) (json : Text)
      → F.print_index es ≡ some json
      → F.parse_index json ≡ some es

module _ (F : TrashFs) where
  open F use {World}

  abbrev LawsOf : TrashManager World → Type 0
  LawsOf t = IndexLaws F (index_path t) (tmp_path t) (trash_dir t)

  -- Either the file is as it was, or it holds what was printed.
  abbrev Kept : FilePath → Option Text → World → World → Type 0
  Kept path json w w' =
      (F.read_to_string w' path ≡ F.read_to_string w path)
      ⊎ ((text : Text) × (json ≡ some text) × (F.read_to_string w' path ≡ some text))

  Kept-from :
      (path : FilePath) (json : Option Text) (u v w : World)
      → F.read_to_string v path ≡ F.read_to_string u path
      → Kept path json v w
      → Kept path json u w
  Kept-from path json u v w h (inl same) = inl (same ∙ h)
  Kept-from path json u v w h (inr written) = inr written

  rename_index-Kept :
      (t : TrashManager World) (laws : LawsOf t) (json : Text) (w : World)
      → F.read_to_string w (tmp_path t) ≡ some json
      → Kept (index_path t) (some json) w (rename_index F (tmp_path t) (index_path t) w)
  unfolding rename_index
  rename_index-Kept t laws json w h = elim (Bool-cases (F.rename (tmp_path t) (index_path t) w).1) [
    | inl moved ↦ rw moved (inr (json, refl, laws.rename_moves w moved ∙ h))
    | inr stuck ↦ rw stuck (inl (laws.remove_keeps _ ∙ laws.rename_fails w stuck))
  ]

  write_index-Kept :
      (t : TrashManager World) (laws : LawsOf t) (json : Option Text) (w : World)
      → Kept (index_path t) json w (write_index F (tmp_path t) (index_path t) json w)
  unfolding write_index
  write_index-Kept t laws none w = inl refl
  write_index-Kept t laws (some json) w = elim (Bool-cases (F.write (tmp_path t) json w).1) [
    | inl written ↦ rw written (
        Kept-from (index_path t) (some json) w (F.write (tmp_path t) json w).0 _
          (laws.write_keeps json w)
          (rename_index-Kept t laws json _ (laws.write_reads json w written)))
    | inr cut ↦ rw cut (inl (laws.write_keeps json w))
  ]

  parsed-Kept :
      (t : TrashManager World) (laws : LawsOf t) (index : List TrashEntry) (u w : World)
      → Kept (index_path t) (F.print_index index) u w
      → (parsed F (F.read_to_string w (index_path t))
          ≡ parsed F (F.read_to_string u (index_path t)))
        ⊎ (parsed F (F.read_to_string w (index_path t)) ≡ index)
  unfolding parsed or_empty
  parsed-Kept t laws index u w (inl same) = inl (ap (parsed F) same)
  parsed-Kept t laws index u w (inr (text, printed, reads)) =
      inr (ground (arith, reads, laws.parse-print index text printed))

  -- Whatever fails while the index is saved, the index that is loaded afterwards is the one from
  -- before or the new one, and never a part of either.
  pub save_index-load_index :
      (t : TrashManager World) (laws : LawsOf t) (index : List TrashEntry)
      → (load_index F (save_index F index t) ≡ load_index F t)
        ⊎ (load_index F (save_index F index t) ≡ index)
  unfolding save_index load_index index_path tmp_path trash_dir set_world
  save_index-load_index t laws index =
      elim (Bool-cases (F.create_dir_all (trash_dir t) t.world).1) [
        | inl created ↦ parsed-Kept t laws index t.world _ (
            Kept-from (index_path t) (F.print_index index) t.world
              (F.create_dir_all (trash_dir t) t.world).0 _
              (laws.create_dir_all_keeps (trash_dir t) t.world)
              (rw created (write_index-Kept t laws (F.print_index index) _)))
        | inr no_dir ↦
            rw no_dir (inl (ap (parsed F) (laws.create_dir_all_keeps (trash_dir t) t.world)))
      ]

  pub keep_load :
      (t : TrashManager World) (w : World)
      → F.read_to_string w (index_path t) ≡ F.read_to_string t.world (index_path t)
      → load_index F (set_world F w t) ≡ load_index F t
  unfolding load_index index_path trash_dir set_world
  keep_load t w h = ap (parsed F) h

  same_laws : (t : TrashManager World) (w : World) → LawsOf t → LawsOf (set_world F w t)
  unfolding index_path tmp_path trash_dir set_world
  same_laws t w laws = laws

  -- The same when the world has changed beside the index.
  pub save_index-set_world :
      (t : TrashManager World) (laws : LawsOf t) (index : List TrashEntry) (w : World)
      → F.read_to_string w (index_path t) ≡ F.read_to_string t.world (index_path t)
      → (load_index F (save_index F index (set_world F w t)) ≡ load_index F t)
        ⊎ (load_index F (save_index F index (set_world F w t)) ≡ index)
  save_index-set_world t laws index w h =
      elim (save_index-load_index (set_world F w t) (same_laws t w laws) index) [
        | inl old ↦ inl (old ∙ keep_load t w h)
        | inr new ↦ inr new
      ]

  purge_removed-load_index :
      (t : TrashManager World) (laws : LawsOf t) (rest : List TrashEntry) (w : World)
      (removal : Removal)
      → F.read_to_string w (index_path t) ≡ F.read_to_string t.world (index_path t)
      → let t' = (purge_removed F rest (w, removal) t).0 in
        (load_index F t' ≡ load_index F t) ⊎ (load_index F t' ≡ rest)
  unfolding purge_removed
  purge_removed-load_index t laws rest w refused h = inl (keep_load t w h)
  purge_removed-load_index t laws rest w removed h = save_index-set_world t laws rest w h
  purge_removed-load_index t laws rest w absent h = save_index-set_world t laws rest w h

  abbrev IsPurged : Text → TrashManager World → TrashManager World → Type 0
  IsPurged id t t' =
      (list_trash F t' ≡ list_trash F t)
      ⊎ ((entry : TrashEntry) × (rest : List TrashEntry) × IsTaken id (list_trash F t) entry rest
          × (list_trash F t' ≡ rest))

  purge_taken-IsPurged :
      (t : TrashManager World) (laws : LawsOf t) (id : Text)
      (found : Option (TrashEntry × List TrashEntry))
      → take_entry id (load_index F t) ≡ found
      → starts_with (index_path t) (join (trash_dir t) (F.path_of id)) ≡ false
      → IsPurged id t (purge_taken F found t).0
  unfolding purge_taken list_trash
  purge_taken-IsPurged t laws id none e h = inl refl
  purge_taken-IsPurged t laws id (some (entry, rest)) e h =
      let taken = take_entry-IsTaken id (load_index F t) entry rest e in
      let gone = F.remove_dir_all (join (trash_dir t) (F.path_of entry.id)) t.world in
      let apart =
        ap (λ i. starts_with (index_path t) (join (trash_dir t) (F.path_of i))) taken.has_id in
      let kept =
        laws.remove_dir_all_keeps (join (trash_dir t) (F.path_of entry.id)) t.world (apart ∙ h) in
      elim (purge_removed-load_index t laws rest gone.0 gone.1 kept) [
        | inl old ↦ inl old
        | inr new ↦ inr (entry, rest, taken, new)
      ]

  -- After `purge_entry(id)` the trash lists what it listed before, or that without the first entry
  -- of the id, if the entry's directory is not one that holds the index file.
  pub purge_entry-list_trash :
      (t : TrashManager World) (laws : LawsOf t) (id : Text)
      → starts_with (index_path t) (join (trash_dir t) (F.path_of id)) ≡ false
      → (list_trash F (purge_entry F id t).0 ≡ list_trash F t)
        ⊎ ((entry : TrashEntry) × (rest : List TrashEntry) × IsTaken id (list_trash F t) entry rest
            × (list_trash F (purge_entry F id t).0 ≡ rest))
  unfolding purge_entry
  purge_entry-list_trash t laws id h = purge_taken-IsPurged t laws id _ refl h
