-- ===== src/SyncEngine/Deletes/Recreated.antt =====
-- The live-action guard of `apply_deletes` in sync_engine.rs, for one path of a deletion.
use byte_hive.Base.{ℕ, Bool, true, false, not, ◌&&◌, some, List, [], ◌∷◌, ◌++◌}
use byte_hive.Base.{◌≡◌, ◌⊎◌, inl, inr, sym, ◌∙◌, arith, if◌then◌else◌, contains, select, All}
use byte_hive.Base.{Text, ltb, leb, list_eq, ◌==◌, Bool-cases}
use mathlib.Core.Path.{subst}
use byte_hive.Base.Dict
use byte_hive.Base.Dict.{Dict}
use byte_hive.Base.Paths.{FilePath, component_eq, starts_with, starts_with_refl, starts_with_trans}
use byte_hive.Protocol.{FileMetadata}
use byte_hive.Ledger
use byte_hive.SyncEngine.{Fs, SyncEngine}
use byte_hive.SyncEngine.Actions.{suppress_delete}
use byte_hive.SyncEngine.Deletes.{
  Deleting, suppress_all, erase_all, with_files, delete_whole, delete_target, delete_targets,
  delete_subtree, subtree_of, protected_in, shallow_first,
}
use byte_hive.SyncEngine.Deletes.Subtree.{
  All-of-contains, any-below, contains-select, contains-shallow_first, contains-subtree_of,
  lookup-erase_all, lookup-retain_kept, subtree_of-below,
}

-- Moving one path to the trash leaves the directories that are not below it. New ones, for the trash
-- itself, may come.
abbrev pub TrashesOnly : Fs → Type 0
TrashesOnly F =
    (root rel q : FilePath) (by : Text) (w : F.World)
    → starts_with q rel ≡ false
    → F.is_dir w (root ++ q) ≡ true
    → F.is_dir (F.move_to_trash (root ++ rel) rel by w) (root ++ q) ≡ true

-- The engine has the path `k`, its live action is at least as new as a deletion at `at`, and its
-- ancestors are directories.
pub record Recreated (F : Fs) (at : ℕ) (k : FilePath) (m : FileMetadata) (s : SyncEngine F.World)
    : Type 0 where
  pub present : Dict.lookup k s.manifest.files ≡ some m
  pub live :
      (ltb 0 (Ledger.alive_since s.ledger k) && leb at (Ledger.alive_since s.ledger k)) ≡ true
  pub dirs :
      (q : FilePath)
      → starts_with k q ≡ true
      → (k == q) ≡ false
      → F.is_dir s.world (s.root ++ q) ≡ true

module _ (F : Fs) (trashes : TrashesOnly F) (at : ℕ) (k : FilePath) (m : FileMetadata) where
  suppress_all-Recreated :
      (ps : List FilePath) (s : SyncEngine F.World)
      → Recreated F at k m s
      → Recreated F at k m (suppress_all ps s)
  unfolding suppress_all
  suppress_all-Recreated [] s h = h
  suppress_all-Recreated (p ∷ ps) s h =
      suppress_all-Recreated ps (suppress_delete p s)
        (record { present = h.present; live = h.live; dirs = h.dirs })

  -- The trash takes a path that `k` is not below.
  trashed-Recreated :
      (files : Dict FilePath FileMetadata) (target : FilePath) (s : SyncEngine F.World)
      → starts_with k target ≡ false
      → Dict.lookup k files ≡ Dict.lookup k s.manifest.files
      → Recreated F at k m s
      → Recreated F at k m (
          with_files files
            (record s { world = F.move_to_trash (s.root ++ target) target s.node_id s.world }))
  unfolding with_files
  trashed-Recreated files target s out same h = record {
    present = same ∙ h.present;
    live = h.live;
    dirs = λ q below other.
        trashes s.root target q s.node_id s.world
          (ground (arith, out, starts_with_trans k q target below)) (h.dirs q below other);
  }

  delete_whole-Recreated :
      (rel : FilePath) (subtree : List FilePath) (d : Deleting F.World)
      → starts_with k rel ≡ false
      → contains subtree k ≡ false
      → Recreated F at k m d.engine
      → Recreated F at k m (delete_whole F rel subtree d).engine
  unfolding delete_whole
  delete_whole-Recreated rel subtree d out absent h =
      let s = suppress_all subtree d.engine in
      trashed-Recreated
        (if F.is_dir s.world (s.root ++ rel)
          then erase_all subtree s.manifest.files
          else Dict.erase rel s.manifest.files)
        rel s out
        (ground (
          arith,
          lookup-erase_all subtree k s.manifest.files absent,
          Dict.lookup-erase k rel s.manifest.files,
          out,
          starts_with_refl k,
        ))
        (suppress_all-Recreated subtree d.engine h)

  -- What a target must be for `k` to stay: elsewhere, or an ancestor while `k` is protected.
  abbrev Spares : List FilePath → FilePath → Type 0
  Spares protected target =
      (starts_with k target ≡ false)
      ⊎ ((contains protected k ≡ true) × ((k == target) ≡ false) × (starts_with k target ≡ true))

  record Kept (x : Deleting F.World × List FilePath) : Type 0 where
    recreated : Recreated F at k m x.0.engine

  if-Kept :
      (b : Bool) (x y : Deleting F.World × List FilePath)
      → Kept x
      → Kept y
      → Kept (if b then x else y)
  if-Kept true x y h i = h
  if-Kept false x y h i = i

  delete_target-Kept :
      (protected : List FilePath) (target : FilePath) (d : Deleting F.World) (gone : List FilePath)
      → Spares protected target
      → Kept (d, gone)
      → Kept (delete_target F protected target (d, gone))
  unfolding delete_target
  delete_target-Kept protected target d gone (inl out) h = if-Kept _ _ _ h (
      if-Kept _ _ _ h (record {
        recreated =
            trashed-Recreated
              (Dict.retain (λ q _. not (starts_with q target)) d.engine.manifest.files) target
              (suppress_delete target d.engine) out
              (lookup-retain_kept (λ q _. not (starts_with q target)) k d.engine.manifest.files
                (λ v. ground (arith, out)))
              (record {
                present = h.recreated.present;
                live = h.recreated.live;
                dirs = h.recreated.dirs;
              });
      }))
  delete_target-Kept protected target d gone (inr (c, n, s)) h =
      subst Kept
        (sym (ground (arith, h.recreated.dirs target s n, any-below protected k target c n s))) h

  delete_targets-Kept :
      (protected targets : List FilePath) (acc : Deleting F.World × List FilePath)
      → All (Spares protected) targets
      → Kept acc
      → Kept (delete_targets F protected targets acc)
  unfolding delete_targets
  delete_targets-Kept protected [] acc _ h = h
  delete_targets-Kept protected (t ∷ ts) (d, gone) (f, fs) h =
      delete_targets-Kept protected ts (delete_target F protected t (d, gone)) fs
        (delete_target-Kept protected t d gone f h)

  pub contains-protected_in :
      (s : SyncEngine F.World) (rel : FilePath)
      → Recreated F at k m s
      → contains (protected_in s.ledger at (subtree_of rel s.manifest.files)) k ≡ starts_with k rel
  unfolding protected_in
  contains-protected_in s rel h = ground (
    arith,
    contains-select
        (λ p. ltb 0 (Ledger.alive_since s.ledger p) && leb at (Ledger.alive_since s.ledger p))
        (subtree_of rel s.manifest.files) k,
    contains-subtree_of rel s.manifest.files k m h.present,
    h.live,
  )

  -- Every target of a deletion spares `k`.
  Spares-All :
      (s : SyncEngine F.World) (rel : FilePath) (protected : List FilePath)
      → contains protected k ≡ starts_with k rel
      → All (Spares protected) (
          shallow_first
            (select (λ p. not (contains protected p)) (subtree_of rel s.manifest.files)))
  Spares-All s rel protected c = All-of-contains _ go
    where
      go :
          (t : FilePath)
          → contains
              (shallow_first
                (select (λ p. not (contains protected p)) (subtree_of rel s.manifest.files)))
              t
            ≡ true
          → Spares protected t
      go t h =
          let listed =
            contains-shallow_first
              (select (λ p. not (contains protected p)) (subtree_of rel s.manifest.files)) t in
          let chosen =
            contains-select (λ p. not (contains protected p)) (subtree_of rel s.manifest.files) t in
          let in_tree : contains (subtree_of rel s.manifest.files) t ≡ true =
            ground (arith, h, listed, chosen) in
          let open_to : contains protected t ≡ false = ground (arith, h, listed, chosen) in
          let below : starts_with t rel ≡ true = subtree_of-below rel s.manifest.files t in_tree in
          elim (Bool-cases (starts_with k t)) [
            | inr out ↦ inl out
            | inl under ↦
                let held : contains protected k ≡ true =
                  c ∙ starts_with_trans k t rel under below in
                inr (held, ground (arith, held, open_to), under)
          ]

  pub delete_subtree-Recreated :
      (rel : FilePath) (protected : List FilePath) (d : Deleting F.World)
      → contains protected k ≡ starts_with k rel
      → Recreated F at k m d.engine
      → Recreated F at k m
          (delete_subtree F rel (subtree_of rel d.engine.manifest.files) protected d).engine
  unfolding delete_subtree
  delete_subtree-Recreated rel [] d c h =
      delete_whole-Recreated rel (subtree_of rel d.engine.manifest.files) d (sym c)
        (contains-subtree_of rel d.engine.manifest.files k m h.present ∙ sym c) h
  delete_subtree-Recreated rel (q ∷ qs) d c h = Kept.recreated (
      delete_targets-Kept (q ∷ qs) _ (d, []) (Spares-All d.engine rel (q ∷ qs) c)
        (record { recreated = h }))
