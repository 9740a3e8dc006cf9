-- ===== src/ActionJournal/Index.antt =====
-- What the indexes of action_journal.rs hold after an insertion and a removal, and what a scan of
-- the paths below a prefix finds.
use byte_hive.Base.{ℕ, Bool, true, false, ◌&&◌, ◌||◌, none, some, List, [], ◌∷◌, ◌++◌}
use byte_hive.Base.{◌≡◌, refl, sym, arith, if◌then◌else◌, contains, ◌==◌, nat_eq}
use byte_hive.Base.{list_eq, Option-cases, Bool-cases, inl, inr}
use mathlib.Core.Path.{subst}
use byte_hive.Base.Dict
use byte_hive.Base.Dict.{Dict}
use byte_hive.Base.Tree
use byte_hive.Base.Tree.{IsSorted, Above}
use byte_hive.Base.Order.{
  path_order, nat_order, path_lt-starts_with, starts_with_contiguous, path_lt,
}
use byte_hive.Base.Paths.{FilePath, component_eq, starts_with}
use byte_hive.ActionJournal.{
  Index, exact, add_index, drop_index, put_set, set_insert, set_remove, set_extend, under,
  take_under, or_empty,
}

pub contains-set_insert :
    (s : ℕ) (set : List ℕ) (x : ℕ) → contains (set_insert s set) x ≡ (x == s || contains set x)
unfolding set_insert
contains-set_insert s [] x = refl
contains-set_insert s (y ∷ ys) x = ground (arith, contains-set_insert s ys x)

pub contains-set_extend :
    (ss set : List ℕ) (x : ℕ) → contains (set_extend ss set) x ≡ (contains ss x || contains set x)
unfolding set_extend
contains-set_extend [] set x = refl
contains-set_extend (s ∷ ss) set x =
    ground (arith, contains-set_extend ss (set_insert s set) x, contains-set_insert s set x)

pub contains-set_remove :
    (s : ℕ) (set : List ℕ) (x : ℕ)
    → contains (set_remove s set) x ≡ (if x == s then false else contains set x)
unfolding set_remove
contains-set_remove s [] x = ground arith
contains-set_remove s (y ∷ ys) x = ground (arith, contains-set_remove s ys x)

-- Whether the index has this number at this path.
abbrev pub indexed : Index → FilePath → ℕ → Bool
indexed index p s = contains (exact index p) s

pub indexed-add_index :
    (index : Index) (key : FilePath) (seq : ℕ) (p : FilePath) (s : ℕ)
    → indexed (add_index index key seq) p s ≡ (p == key && s == seq || indexed index p s)
unfolding add_index exact
indexed-add_index index key seq p s = ground (
  arith,
  Tree.lookup-insert p key (set_insert seq (exact index key)) index,
  contains-set_insert seq (exact index key) s,
)

lookup-put_set :
    (index : Index) (key : FilePath) (set : List ℕ) (p : FilePath)
    → or_empty (Dict.lookup p (put_set index key set))
      ≡ (if p == key then set else or_empty (Dict.lookup p index))
lookup-put_set index key [] p = ground (arith, Dict.lookup-erase p key index)
lookup-put_set index key (x ∷ xs) p = ground (arith, Tree.lookup-insert p key (x ∷ xs) index)

pub indexed-drop_index :
    (index : Index) (key : FilePath) (seq : ℕ) (p : FilePath) (s : ℕ)
    → indexed (drop_index index key seq) p s
      ≡ (if p == key && s == seq then false else indexed index p s)
unfolding drop_index exact
indexed-drop_index index key seq p s = elim (Option-cases (Dict.lookup key index)) [
  | inl e ↦ ground (arith, e)
  | inr (set, e) ↦
      ground
        (arith, e, lookup-put_set index key (set_remove seq set) p, contains-set_remove seq set s)
]

pub add_index-IsSorted :
    (index : Index) (key : FilePath) (seq : ℕ) → IsSorted index → IsSorted (add_index index key seq)
unfolding add_index
add_index-IsSorted index key seq h =
    Tree.insert-IsSorted key (set_insert seq (exact index key)) index h

put_set-IsSorted :
    (index : Index) (key : FilePath) (set : List ℕ)
    → IsSorted index
    → IsSorted (put_set index key set)
put_set-IsSorted index key [] h = Tree.erase-IsSorted key index h
put_set-IsSorted index key (x ∷ xs) h = Tree.insert-IsSorted key (x ∷ xs) index h

pub drop_index-IsSorted :
    (index : Index) (key : FilePath) (seq : ℕ)
    → IsSorted index
    → IsSorted (drop_index index key seq)
unfolding drop_index
drop_index-IsSorted index key seq h = elim (Option-cases (Dict.lookup key index)) [
  | inl e ↦ ground (arith, e, h)
  | inr (set, e) ↦
      subst
        (λ o. IsSorted (elim o [ none ↦ index | some x ↦ put_set index key (set_remove seq x) ]))
        (sym e) (put_set-IsSorted index key (set_remove seq set) h)
]

contains-append :
    (xs ys : List ℕ) (s : ℕ) → contains (xs ++ ys) s ≡ (contains xs s || contains ys s)
contains-append [] ys s = refl
contains-append (x ∷ xs) ys s = ground (arith, contains-append xs ys s)

-- A key of the entries is larger than what they are above.
Above-indexed :
    (k : FilePath) (d : Index) (p : FilePath) (s : ℕ)
    → Above k d
    → indexed d p s ≡ true
    → path_order.lt k p ≡ true
unfolding exact Dict.lookup
Above-indexed k [] p s above h = cc
Above-indexed k ((j, seqs) ∷ d) p s (lt, above) h = ground (arith, Above-indexed k d p s above)

indexed-cons :
    (k : FilePath) (seqs : List ℕ) (d : Index) (p : FilePath) (s : ℕ)
    → indexed ((k, seqs) ∷ d) p s ≡ (if p == k then contains seqs s else indexed d p s)
unfolding exact Dict.lookup
indexed-cons k seqs d p s = ground arith

-- In an ordered index, a number found further on is not at the first key.
indexed-tail :
    (k : FilePath) (seqs : List ℕ) (d : Index) (p : FilePath) (s : ℕ)
    → Above k d
    → indexed d p s ≡ true
    → indexed ((k, seqs) ∷ d) p s ≡ true
indexed-tail k seqs d p s above h =
    ground (arith, indexed-cons k seqs d p s, Above-indexed k d p s above h, path_order.irrefl k)

-- No key is smaller than the prefix.
abbrev NotBelow : FilePath → Index → Type 0
NotBelow prefix [] = Unit
NotBelow prefix ((k, _) ∷ d) = (path_order.lt k prefix ≡ false) × NotBelow prefix d

Above-NotBelow :
    (prefix k : FilePath) (d : Index)
    → path_order.lt k prefix ≡ false
    → Above k d
    → NotBelow prefix d
Above-NotBelow prefix k [] h _ = tt
Above-NotBelow prefix k ((j, _) ∷ d) h (lt, above) =
    (ground (arith, path_order.trans k j prefix), Above-NotBelow prefix k d h above)

take_under_complete :
    (prefix : FilePath) (d : Index) (p : FilePath) (s : ℕ)
    → IsSorted d
    → NotBelow prefix d
    → starts_with p prefix ≡ true
    → indexed d p s ≡ true
    → contains (take_under prefix d) s ≡ true
unfolding take_under path_order exact Dict.lookup
take_under_complete prefix [] p s _ _ below h = ground (arith, h)
take_under_complete prefix ((k, seqs) ∷ d) p s (above, sorted) (ge, rest) below h = ground (
  arith,
  indexed-cons k seqs d p s,
  contains-append seqs (take_under prefix d) s,
  take_under_complete prefix d p s sorted rest below,
  Above-indexed k d p s above,
  starts_with_contiguous prefix k p ge,
)

take_under_sound :
    (prefix : FilePath) (d : Index) (s : ℕ)
    → IsSorted d
    → contains (take_under prefix d) s ≡ true
    → (p : FilePath) × (starts_with p prefix ≡ true) × (indexed d p s ≡ true)
unfolding take_under
take_under_sound prefix [] s _ h = cc
take_under_sound prefix ((k, seqs) ∷ d) s (above, sorted) h =
    elim (Bool-cases (starts_with k prefix)) [
      | inr out ↦ cc
      | inl in_it ↦ elim (Bool-cases (contains seqs s)) [
        | inl here ↦ (k, in_it, ground (arith, indexed-cons k seqs d k s))
        | inr not_here ↦
            let (p, below, found) =
              take_under_sound prefix d s sorted
                (ground (arith, contains-append seqs (take_under prefix d) s)) in
            (p, below, indexed-tail k seqs d p s above found)
      ]
    ]

pub under_complete :
    (prefix : FilePath) (d : Index) (p : FilePath) (s : ℕ)
    → IsSorted d
    → starts_with p prefix ≡ true
    → indexed d p s ≡ true
    → contains (under d prefix) s ≡ true
unfolding under Tree.range_from exact Dict.lookup path_lt path_order
under_complete prefix [] p s _ below h = ground (arith, h)
under_complete prefix ((k, seqs) ∷ d) p s (above, sorted) below h =
    elim (Bool-cases (path_order.lt k prefix)) [
      | inl lt ↦ ground (
        arith,
        indexed-cons k seqs d p s,
        under_complete prefix d p s sorted below,
        path_lt-starts_with k prefix lt,
      )
      | inr ge ↦ ground (
        arith,
        take_under_complete prefix ((k, seqs) ∷ d) p s (above, sorted)
            (ge, Above-NotBelow prefix k d ge above) below h,
      )
    ]

pub under_sound :
    (prefix : FilePath) (d : Index) (s : ℕ)
    → IsSorted d
    → contains (under d prefix) s ≡ true
    → (p : FilePath) × (starts_with p prefix ≡ true) × (indexed d p s ≡ true)
unfolding under Tree.range_from
under_sound prefix [] s _ h = take_under_sound prefix [] s tt h
under_sound prefix ((k, seqs) ∷ d) s (above, sorted) h =
    elim (Bool-cases (path_order.lt k prefix)) [
      | inl lt ↦
          let (p, below, found) = under_sound prefix d s sorted (ground (arith, h)) in
          (p, below, indexed-tail k seqs d p s above found)
      | inr ge ↦ take_under_sound prefix ((k, seqs) ∷ d) s (above, sorted) (ground (arith, h))
    ]
