-- ===== src/Trash/Restore.antt =====
-- `restore_entry_with_dest` of crates/core/src/trash.rs.
use byte_hive.Base.{Bool, true, false, Option, none, some, List, [], ◌∷◌, ◌++◌, Text, ◌≡◌, refl}
use byte_hive.Base.{arith, ◌⊎◌, inl, inr, contains, Option-cases, Bool-cases, ap, All, list_eq}
use byte_hive.Base.{nat_eq, if◌then◌else◌, ◌==◌}
use mathlib.Core.Path.{subst}
use byte_hive.Base.Paths.{FilePath, component_eq, parent_dir, root_dir, prefix, normal, cur_dir}
use byte_hive.Base.Paths.{starts_with, starts_with-append}
use byte_hive.Trash.{
  TrashFs, TrashEntry, TrashManager, RestoreError, not_found, unsafe_path, destination_exists, io,
  join, parent, validate_rel, all_inside, is_inside, trash_dir, take_entry, put_back, load_index,
  save_index, set_world,
}
use byte_hive.Trash.Entries.{
  move_back, dest_rel, restore_found, finish_restore, restore_taken, restore_entry_with_dest,
}

pub join-starts_with : (p q : FilePath) → validate_rel q ≡ true → starts_with (join p q) p ≡ true
unfolding join validate_rel
join-starts_with p [] h = cc
join-starts_with p (prefix ∷ q) h = cc
join-starts_with p (root_dir ∷ q) h = cc
join-starts_with p (cur_dir ∷ q) h = starts_with-append p q
join-starts_with p (parent_dir ∷ q) h = cc
join-starts_with p (normal n ∷ q) h = starts_with-append p (normal n ∷ q)

all_inside-parent_dir : (q : FilePath) → all_inside q ≡ true → contains q parent_dir ≡ false
unfolding all_inside component_eq
all_inside-parent_dir [] h = refl
all_inside-parent_dir (c ∷ q) h = ground (arith, all_inside-parent_dir q, not_parent c)
  where
    not_parent : (d : _) → is_inside d ≡ true → (parent_dir == d) ≡ false
    not_parent prefix k = cc
    not_parent root_dir k = cc
    not_parent cur_dir k = refl
    not_parent parent_dir k = cc
    not_parent (normal n) k = refl

validate_rel-parent_dir : (q : FilePath) → validate_rel q ≡ true → contains q parent_dir ≡ false
unfolding validate_rel
validate_rel-parent_dir [] h = refl
validate_rel-parent_dir (c ∷ q) h = all_inside-parent_dir (c ∷ q) h

-- `entry` is the first of the index with the id, and `rest` the index without it.
pub record IsTaken (id : Text) (index : List TrashEntry) (entry : TrashEntry)
    (rest : List TrashEntry) : Type 0 where
  pub before : List TrashEntry
  pub after : List TrashEntry
  pub index_eq : index ≡ before ++ entry ∷ after
  pub rest_eq : rest ≡ before ++ after
  pub has_id : entry.id ≡ id
  pub first : All (λ e. (e.id == id) ≡ false) before

put_back-IsTaken :
    (id : Text) (e : TrashEntry) (es : List TrashEntry) (entry : TrashEntry)
    (rest : List TrashEntry)
    → (e.id == id) ≡ false
    → ((r : List TrashEntry) → take_entry id es ≡ some (entry, r) → IsTaken id es entry r)
    → put_back e (take_entry id es) ≡ some (entry, rest)
    → IsTaken id (e ∷ es) entry rest
unfolding put_back
put_back-IsTaken id e es entry rest differs ih h = elim (Option-cases (take_entry id es)) [
  | inl missing ↦ absurd (ground (arith, missing))
  | inr ((f, r), found) ↦
      let taken = ih r (ground (arith, found)) in
      record {
        before = e ∷ taken.before;
        after = taken.after;
        index_eq = ap (◌∷◌ e) taken.index_eq;
        rest_eq = ground (arith, found, taken.rest_eq);
        has_id = taken.has_id;
        first = (differs, taken.first);
      }
]

pub take_entry-IsTaken :
    (id : Text) (index : List TrashEntry) (entry : TrashEntry) (rest : List TrashEntry)
    → take_entry id index ≡ some (entry, rest)
    → IsTaken id index entry rest
unfolding take_entry
take_entry-IsTaken id [] entry rest h = absurd (cc)
take_entry-IsTaken id (e ∷ es) entry rest h = elim (Bool-cases (e.id == id)) [
  | inl same ↦ record {
    before = [];
    after = es;
    index_eq = ground (arith, same);
    rest_eq = ground (arith, same);
    has_id = ground (arith, same);
    first = tt;
  }
  | inr differs ↦
      put_back-IsTaken id e es entry rest differs (λ r. take_entry-IsTaken id es entry r)
        (ground (arith, differs))
]

module _ (F : TrashFs) where
  open F use {World}

  -- What a successful restore of `id` to `dest` is, in the state before it and the one after.
  pub record IsRestored (t : TrashManager World) (id : Text) (dest_override : Option FilePath)
      (t' : TrashManager World) (dest : FilePath) : Type 0 where
    pub entry : TrashEntry
    pub rest : List TrashEntry
    pub taken : IsTaken id (load_index F t) entry rest
    pub target : dest ≡ dest_rel F dest_override entry
    pub inside : starts_with (join t.root dest) t.root ≡ true
    pub no_parent : contains dest parent_dir ≡ false
    pub present : F.exists t.world (join (trash_dir t) entry.trash_rel_path) ≡ true
    pub free : F.exists t.world (join t.root dest) ≡ false
    pub world : World
    pub saved : t' ≡ save_index F rest (record t { world = world })

  -- Why a restore is refused before it changes anything.
  pub data IsRefused (t : TrashManager World) (id : Text) (dest_override : Option FilePath)
      : RestoreError → Type 0 where
    no_entry : take_entry id (load_index F t) ≡ none → IsRefused t id dest_override not_found
    no_data :
        (entry : TrashEntry) (rest : List TrashEntry)
        → take_entry id (load_index F t) ≡ some (entry, rest)
        → F.exists t.world (join (trash_dir t) entry.trash_rel_path) ≡ false
        → IsRefused t id dest_override not_found
    unsafe_dest :
        (entry : TrashEntry) (rest : List TrashEntry)
        → take_entry id (load_index F t) ≡ some (entry, rest)
        → validate_rel (dest_rel F dest_override entry) ≡ false
        → IsRefused t id dest_override unsafe_path
    occupied :
        (entry : TrashEntry) (rest : List TrashEntry) (dest : FilePath)
        → take_entry id (load_index F t) ≡ some (entry, rest)
        → dest ≡ dest_rel F dest_override entry
        → F.exists t.world (join t.root dest) ≡ true
        → IsRefused t id dest_override (destination_exists dest)

  abbrev Answered :
      TrashManager World
      → Text
      → Option FilePath
      → TrashManager World × (RestoreError ⊎ FilePath)
      → Type 0
  Answered t id o (t', inr dest) = IsRestored t id o t' dest
  Answered t id o (t', inl io) = Unit
  Answered t id o (t', inl not_found) = (t' ≡ t) × IsRefused t id o not_found
  Answered t id o (t', inl unsafe_path) = (t' ≡ t) × IsRefused t id o unsafe_path
  Answered t id o (t', inl (destination_exists d)) =
      (t' ≡ t) × IsRefused t id o (destination_exists d)

  placed-Answered :
      (t : TrashManager World) (id : Text) (o : Option FilePath) (entry : TrashEntry)
      (rest : List TrashEntry)
      → take_entry id (load_index F t) ≡ some (entry, rest)
      → validate_rel (dest_rel F o entry) ≡ true
      → F.exists t.world (join (trash_dir t) entry.trash_rel_path) ≡ true
      → F.exists t.world (join t.root (dest_rel F o entry)) ≡ false
      → (created : Bool) (w : World) (moved : World × Bool)
      → Answered t id o (
          if created
          then finish_restore F entry rest (dest_rel F o entry) moved t
          else (set_world F w t, inl io))
  unfolding finish_restore set_world
  placed-Answered t id o entry rest taken safe present free false w moved = tt
  placed-Answered t id o entry rest taken safe present free true w (w', false) = tt
  placed-Answered t id o entry rest taken safe present free true w (w', true) = record {
    entry = entry;
    rest = rest;
    taken = take_entry-IsTaken id (load_index F t) entry rest taken;
    target = refl;
    inside = join-starts_with t.root (dest_rel F o entry) safe;
    no_parent = validate_rel-parent_dir (dest_rel F o entry) safe;
    present = present;
    free = free;
    world = (F.remove_dir_all (join (trash_dir t) (F.path_of entry.id)) w').0;
    saved = refl;
  }

  restore_found-Answered :
      (t : TrashManager World) (id : Text) (o : Option FilePath) (entry : TrashEntry)
      (rest : List TrashEntry)
      → take_entry id (load_index F t) ≡ some (entry, rest)
      → Answered t id o (restore_found F entry rest (dest_rel F o entry) t)
  unfolding restore_found
  restore_found-Answered t id o entry rest taken =
      let dest = dest_rel F o entry in
      let trash_full = join (trash_dir t) entry.trash_rel_path in
      let dest_full = join t.root dest in
      let made = F.create_dir_all (parent dest_full) t.world in
      elim (Bool-cases (validate_rel dest)) [
        | inr unsafe ↦ rw unsafe (refl, unsafe_dest entry rest taken unsafe)
        | inl safe ↦ elim (Bool-cases (F.exists t.world trash_full)) [
          | inr missing ↦ rw (safe, missing) (refl, no_data entry rest taken missing)
          | inl present ↦ elim (Bool-cases (F.exists t.world dest_full)) [
            | inl there ↦
                rw (safe, present, there) (refl, occupied entry rest dest taken refl there)
            | inr free ↦
                rw (safe, present, free)
                  (placed-Answered t id o entry rest taken safe present free made.1 made.0
                    (move_back F trash_full dest_full made.0))
          ]
        ]
      ]

  restore_taken-Answered :
      (t : TrashManager World) (id : Text) (o : Option FilePath)
      (found : Option (TrashEntry × List TrashEntry))
      → take_entry id (load_index F t) ≡ found
      → Answered t id o (restore_taken F o found t)
  unfolding restore_taken
  restore_taken-Answered t id o none h = (refl, no_entry h)
  restore_taken-Answered t id o (some (entry, rest)) h = restore_found-Answered t id o entry rest h

  restore_entry_with_dest-Answered :
      (t : TrashManager World) (id : Text) (o : Option FilePath)
      → Answered t id o (restore_entry_with_dest F id o t)
  unfolding restore_entry_with_dest
  restore_entry_with_dest-Answered t id o = restore_taken-Answered t id o _ refl

  -- A restore that returns `Ok(dest)` took the first entry of the index with this id; `dest` is the
  -- override or the entry's original path, lies below the root and has no `..`; before the restore
  -- the entry's data existed in the trash and nothing existed at `dest`; and the index that is saved
  -- at the end is the loaded one without this entry.
  pub restore_entry_with_dest-IsRestored :
      (t : TrashManager World) (id : Text) (o : Option FilePath) (t' : TrashManager World)
      (dest : FilePath)
      → restore_entry_with_dest F id o t ≡ (t', inr dest)
      → IsRestored t id o t' dest
  restore_entry_with_dest-IsRestored t id o t' dest h =
      subst (Answered t id o) h (restore_entry_with_dest-Answered t id o)

  abbrev RefusedAs :
      TrashManager World → Text → Option FilePath → TrashManager World → RestoreError → Type 0
  RefusedAs t id o t' e = (e ≡ io) ⊎ ((t' ≡ t) × IsRefused t id o e)

  refused_as :
      (t : TrashManager World) (id : Text) (o : Option FilePath) (t' : TrashManager World)
      (e : RestoreError)
      → Answered t id o (t', inl e)
      → RefusedAs t id o t' e
  refused_as t id o t' io h = inl refl
  refused_as t id o t' not_found h = inr h
  refused_as t id o t' unsafe_path h = inr h
  refused_as t id o t' (destination_exists d) h = inr h

  -- A restore that fails, and not by an I/O error, changes nothing, and for the reason it gives: no
  -- entry has the id or its data is missing, the path to restore to is unsafe, or something exists
  -- there.
  pub restore_entry_with_dest-IsRefused :
      (t : TrashManager World) (id : Text) (o : Option FilePath) (t' : TrashManager World)
      (e : RestoreError)
      → restore_entry_with_dest F id o t ≡ (t', inl e)
      → (e ≡ io) ⊎ ((t' ≡ t) × IsRefused t id o e)
  restore_entry_with_dest-IsRefused t id o t' e h =
      refused_as t id o t' e (subst (Answered t id o) h (restore_entry_with_dest-Answered t id o))
