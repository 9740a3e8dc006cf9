-- ===== src/SyncEngine/Rename/Sound.antt =====
-- `apply_rename_at` of sync_engine.rs, and the engine's invariant.
use byte_hive.Base.{ℕ, ◌≡◌, refl, Bool, true, false, ◌&&◌, Option, some, List, [], ◌∷◌}
use byte_hive.Base.{◌++◌, arith, list_eq, Text, All, Option-cases, inl, inr}
use byte_hive.Base.Dict
use byte_hive.Base.Dict.{Dict, NodupKeys}
use byte_hive.Base.Paths.{FilePath, component_eq, strip_prefix, strip_prefix-join}
use byte_hive.Protocol.{FileMetadata}
use byte_hive.SyncEngine.{Fs, SyncEngine, ◌>>◌, modify, if_some}
use byte_hive.SyncEngine.Admission.{admit_record, flush_ledger}
use byte_hive.SyncEngine.Deletes.{apply_deletes}
use byte_hive.SyncEngine.Paths.{safe_relative}
use byte_hive.SyncEngine.Actions.Keeping.{Keeps-create_parent}
use byte_hive.SyncEngine.Sound.{
  IsSound, if-IsSound, insert-IsTidy, erase-IsTidy, flush_ledger-IsSound, admit_record-IsSound,
  schedule_unsuppress-IsSound, Keeps, keeps_rules, Keeps-state, Keeps-if, Keeps-if_some, Keeps-pure,
  Keeps-modify,
}
use byte_hive.SyncEngine.Deletes.Sound.{apply_deletes-IsSound}
use byte_hive.SyncEngine.Rename.{
  remap, rename_pairs, suppress_pairs, moved_meta, move_entry, move_entries, converge,
  rename_on_disk, rename_present, rename_admitted, apply_rename_at,
}

abbrev SafePairs : List (FilePath × FilePath) → Type 0
SafePairs = All (λ e. safe_relative e.1 ≡ true)

safe_relative-append :
    (p q : FilePath) → safe_relative (p ++ q) ≡ (safe_relative p && safe_relative q)
unfolding safe_relative
safe_relative-append [] q = refl
safe_relative-append (c ∷ p) q = ground (arith, safe_relative-append p q)

remap-safe :
    (source target k k' : FilePath)
    → safe_relative target ≡ true
    → safe_relative k ≡ true
    → remap source target k ≡ some k'
    → safe_relative k' ≡ true
unfolding remap
remap-safe source target k k' st sk e = elim (Option-cases (strip_prefix k source)) [
  | inl none_left ↦ ground arith
  | inr (r, stripped) ↦ ground (
    arith,
    strip_prefix-join k source r stripped,
    safe_relative-append source r,
    safe_relative-append target r,
  )
]

rename_pairs-safe :
    (source target : FilePath) (ks : List FilePath)
    → safe_relative target ≡ true
    → All (λ k. safe_relative k ≡ true) ks
    → SafePairs (rename_pairs source target ks)
unfolding rename_pairs
rename_pairs-safe source target [] st h = tt
rename_pairs-safe source target (k ∷ ks) st h = elim (Option-cases (remap source target k)) [
  | inl e ↦ rw (e, rename_pairs) (rename_pairs-safe source target ks st h.1)
  | inr (k', e) ↦
      rw (e, rename_pairs)
        (remap-safe source target k k' st h.0 e, rename_pairs-safe source target ks st h.1)
]

safe_keys :
    (d : Dict FilePath FileMetadata)
    → NodupKeys d
    → ((p : FilePath) (m : FileMetadata) → Dict.lookup p d ≡ some m → safe_relative p ≡ true)
    → All (λ k. safe_relative k ≡ true) (Dict.keys d)
unfolding Dict.lookup Dict.keys
safe_keys [] u h = tt
safe_keys ((k, m) ∷ d) (fresh, u) h =
    (h k m (ground arith), safe_keys d u (λ p n e. h p n (ground arith)))

suppress_pairs-IsSound :
    {W : Type 0} (ps : List (FilePath × FilePath)) (s : SyncEngine W)
    → IsSound s
    → IsSound (suppress_pairs ps s)
unfolding suppress_pairs
suppress_pairs-IsSound [] s h = h
suppress_pairs-IsSound ((old, new) ∷ ps) s h =
    suppress_pairs-IsSound ps _ (record { live = h.live; tidy = h.tidy; transfers = h.transfers })

module _ (F : Fs) where
  moved_meta-rel_path :
      (b : Bool) (new : FilePath) (m : FileMetadata) (s : SyncEngine F.World)
      → (moved_meta F b new m s).rel_path ≡ new
  unfolding moved_meta
  moved_meta-rel_path b new m s = ground arith

  move_entry-IsSound :
      (b : Bool) (old new : FilePath) (s : SyncEngine F.World)
      → safe_relative new ≡ true
      → IsSound s
      → IsSound (move_entry F b old new s)
  unfolding move_entry
  move_entry-IsSound b old new s safe h = elim (Option-cases (Dict.lookup old s.manifest.files)) [
    | inl e ↦ rw (e, move_entry) h
    | inr (m, e) ↦
        rw (e, move_entry)
          (record {
            live = h.live;
            tidy =
                insert-IsTidy new (moved_meta F b new m s) _ safe (moved_meta-rel_path b new m s)
                  (erase-IsTidy old _ h.tidy);
            transfers = h.transfers;
          })
  ]

  move_entries-IsSound :
      (b : Bool) (ps : List (FilePath × FilePath)) (s : SyncEngine F.World)
      → SafePairs ps
      → IsSound s
      → IsSound (move_entries F b ps s)
  unfolding move_entries
  move_entries-IsSound b [] s safe h = h
  move_entries-IsSound b ((old, new) ∷ ps) s safe h =
      move_entries-IsSound b ps _ safe.1 (move_entry-IsSound b old new s safe.0 h)

  converge-IsSound :
      (dst : FilePath) (ps : List (FilePath × FilePath)) (s : SyncEngine F.World)
      → SafePairs ps
      → IsSound s
      → IsSound (converge F dst ps s)
  unfolding converge
  converge-IsSound dst ps s safe h =
      if-IsSound _ _ _
        (schedule_unsuppress-IsSound _ _
          (suppress_pairs-IsSound ps _ (move_entries-IsSound false ps s safe h)))
        h

  Keeps-rename_on_disk : (src dst : FilePath) → Keeps (rename_on_disk F src dst)
  unfolding rename_on_disk
  Keeps-rename_on_disk src dst = search (keeps_rules, Keeps-if) depth 10

  Keeps-rename_present :
      (source target : FilePath) (ps : List (FilePath × FilePath)) (src dst : FilePath)
      → SafePairs ps
      → Keeps (rename_present F source target ps src dst)
  unfolding rename_present
  Keeps-rename_present source target ps src dst safe =
      search
        (
          keeps_rules, Keeps-create_parent, Keeps-rename_on_disk, suppress_pairs-IsSound,
          move_entries-IsSound, safe,
        )
        depth 14

  Keeps-rename_admitted :
      (source target : FilePath)
      → safe_relative target ≡ true
      → Keeps (rename_admitted F source target)
  unfolding rename_admitted
  Keeps-rename_admitted source target st = Keeps-state _ (λ s h.
      let safe =
        rename_pairs-safe source target (Dict.keys s.manifest.files) st
          (safe_keys s.manifest.files h.tidy.nodup h.tidy.safe) in
      search (keeps_rules, Keeps-if, Keeps-rename_present, converge-IsSound, safe) depth 10)

  second : (a b : Bool) → (a && b) ≡ true → b ≡ true
  second a b h = ground arith

  Keeps-rename_safe :
      (source target : FilePath) (at : ℕ) (deleter : Text) (o : Option FilePath)
      → safe_relative target ≡ true
      → Keeps (
          if_some o
            (λ _. modify (λ t. (apply_deletes F (source ∷ []) at deleter t).0))
            (do
              modify (admit_record target (some at) 0)
              modify (flush_ledger F)
              rename_admitted F source target))
  Keeps-rename_safe source target at deleter o st =
      Keeps-if_some o _ _ (λ _ _. Keeps-modify _ (apply_deletes-IsSound F (source ∷ []) at deleter))
        (search (keeps_rules, admit_record-IsSound, flush_ledger-IsSound, Keeps-rename_admitted, st)
          depth 8)

  -- A rename from a peer, whether or not it is vetoed or fails on the way, leaves the engine sound if
  -- it was.
  pub Keeps-apply_rename_at :
      (source target : FilePath) (at : ℕ) (deleter : Text)
      → Keeps (apply_rename_at F source target at deleter)
  unfolding apply_rename_at
  Keeps-apply_rename_at source target at deleter = Keeps-state _ (λ s h.
      Keeps-if (safe_relative source && safe_relative target) _ _
        (λ safe.
          Keeps-rename_safe source target at deleter _
            (second (safe_relative source) (safe_relative target) safe))
        (Keeps-pure tt))
