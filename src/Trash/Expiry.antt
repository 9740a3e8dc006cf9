-- ===== src/Trash/Expiry.antt =====
-- `purge_expired` of crates/core/src/trash.rs.
use byte_hive.Base.{ℕ, ◌+◌, ◌-◌, ◌*◌, ◌%◌, ◌^◌, ◌<◌, true, false, not, some, List}
use byte_hive.Base.{[], ◌∷◌, ◌≡◌, refl, arith, ltb, All, select, length, ◌⊎◌, inl, inr}
use byte_hive.Base.{Bool-cases, sym, ap, ◌∙◌}
use mathlib.Core.Path.{subst}
use byte_hive.Base.Paths.{FilePath, starts_with}
use byte_hive.Trash.{
  TrashFs, TrashEntry, TrashManager, index_path, tmp_path, trash_dir, load_index, join,
}
use byte_hive.Trash.Entries.{purge_old, purge_before, purge_days, purge_expired, list_trash}
use byte_hive.Trash.Disk.{IndexLaws, save_index-set_world, keep_load}

-- The entries that are not older than the cutoff.
unfoldable pub recent : ℕ → List TrashEntry → List TrashEntry
recent cutoff_ms = select (λ e. not (ltb e.deleted_at_ms cutoff_ms))

-- The cutoff at `now_ms` for a number of days, in 64 bits.
unfoldable pub cutoff : ℕ → ℕ → ℕ
cutoff now_ms days = now_ms % 2 ^ 64 - days * 24 * 3600 * 1000 % 2 ^ 64

module _ (F : TrashFs) where
  open F use {World}

  purge_old-recent :
      (dir_path : FilePath) (cutoff_ms : ℕ) (es : List TrashEntry) (w : World)
      → ((purge_old F dir_path cutoff_ms es w).1 ≡ recent cutoff_ms es)
        × ((purge_old F dir_path cutoff_ms es w).2 + length (recent cutoff_ms es) ≡ length es)
  unfolding purge_old recent
  purge_old-recent dir_path cutoff_ms [] w = (refl, omega arith)
  purge_old-recent dir_path cutoff_ms (e ∷ es) w =
      let gone = (F.remove_dir_all (join dir_path (F.path_of e.id)) w).0 in
      elim (Bool-cases (ltb e.deleted_at_ms cutoff_ms)) [
        | inl old ↦ ground (arith, old, purge_old-recent dir_path cutoff_ms es gone)
        | inr new ↦ ground (arith, new, purge_old-recent dir_path cutoff_ms es w)
      ]

  abbrev IsApart : TrashManager World → TrashEntry → Type 0
  IsApart t e = starts_with (index_path t) (join (trash_dir t) (F.path_of e.id)) ≡ false

  purge_old-keeps :
      (t : TrashManager World) (laws : IndexLaws F (index_path t) (tmp_path t) (trash_dir t))
      (cutoff_ms : ℕ) (es : List TrashEntry) (w : World)
      → All (IsApart t) es
      → F.read_to_string (purge_old F (trash_dir t) cutoff_ms es w).0 (index_path t)
        ≡ F.read_to_string w (index_path t)
  unfolding purge_old
  purge_old-keeps t laws cutoff_ms [] w h = refl
  purge_old-keeps t laws cutoff_ms (e ∷ es) w (apart, h) =
      let dir_path = join (trash_dir t) (F.path_of e.id) in
      let gone = (F.remove_dir_all dir_path w).0 in
      elim (Bool-cases (ltb e.deleted_at_ms cutoff_ms)) [
        | inl old ↦ rw old (
            purge_old-keeps t laws cutoff_ms es gone h ∙ laws.remove_dir_all_keeps dir_path w apart)
        | inr new ↦ rw new (purge_old-keeps t laws cutoff_ms es w h)
      ]

  abbrev IsPruned : ℕ → TrashManager World → TrashManager World × ℕ → Type 0
  IsPruned cutoff_ms t (t', count) =
      (count + length (recent cutoff_ms (list_trash F t)) ≡ length (list_trash F t))
      × ((list_trash F t' ≡ list_trash F t) ⊎ (list_trash F t' ≡ recent cutoff_ms (list_trash F t)))

  purge_before-IsPruned :
      (t : TrashManager World) (laws : IndexLaws F (index_path t) (tmp_path t) (trash_dir t))
      (cutoff_ms : ℕ)
      → All (IsApart t) (list_trash F t)
      → IsPruned cutoff_ms t (purge_before F cutoff_ms t)
  unfolding purge_before list_trash
  purge_before-IsPruned t laws cutoff_ms h =
      let run = purge_old F (trash_dir t) cutoff_ms (load_index F t) t.world in
      let (kept_eq, count_eq) = purge_old-recent (trash_dir t) cutoff_ms (load_index F t) t.world in
      let kept = purge_old-keeps t laws cutoff_ms (load_index F t) t.world h in
      (
        count_eq,
        elim (Bool-cases (ltb 0 run.2)) [
          | inr nothing ↦ rw nothing (inl (keep_load F t run.0 kept))
          | inl some_gone ↦
              rw some_gone (rw (← kept_eq) (save_index-set_world F t laws run.1 run.0 kept))
        ],
      )

  -- With an expiry of `days` greater than 0, `purge_expired` returns the number of the entries that
  -- were deleted before the cutoff, and afterwards the trash lists the others, in order, or what it
  -- listed before, if no entry's directory is one that holds the index file.
  pub purge_expired-list_trash :
      (t : TrashManager World) (laws : IndexLaws F (index_path t) (tmp_path t) (trash_dir t))
      (days : ℕ)
      → t.expiry_days ≡ some days
      → 0 < days
      → All
          (λ e. starts_with (index_path t) (join (trash_dir t) (F.path_of e.id)) ≡ false)
          (list_trash F t)
      → ((purge_expired F t).1 + length (recent (cutoff (F.now_ms t.world) days) (list_trash F t))
          ≡ length (list_trash F t))
        × ((list_trash F (purge_expired F t).0 ≡ list_trash F t)
            ⊎ (list_trash F (purge_expired F t).0
                ≡ recent (cutoff (F.now_ms t.world) days) (list_trash F t)))
  unfolding purge_expired purge_days cutoff
  purge_expired-list_trash t laws days e pos h =
      let on : ltb 0 days ≡ true = ground arith in
      let run : purge_days F (some days) t ≡ purge_before F (cutoff (F.now_ms t.world) days) t =
        rw on in
      subst (IsPruned (cutoff (F.now_ms t.world) days) t) (sym (ap (λ d. purge_days F d t) e ∙ run))
        (purge_before-IsPruned t laws (cutoff (F.now_ms t.world) days) h)
