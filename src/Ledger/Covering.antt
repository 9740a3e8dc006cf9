-- ===== src/Ledger/Covering.antt =====
-- `covering_tombstone` of ledger.rs.
use byte_hive.Base.{ℕ, ◌<◌, ◌≡◌, ◌≢◌, refl, sym, ◌∙◌, Option, none, some}
use byte_hive.Base.{List, [], ◌∷◌, ◌++◌, map, true, false, arith, list_eq}
use byte_hive.Base.{Option-cases, inl, inr, length, if◌then◌else◌}
use byte_hive.Base.Dict
use byte_hive.Base.Dict.{Dict}
use byte_hive.Base.Paths.{FilePath, Component, component_eq, ancestors, starts_with}
use byte_hive.Ledger.Invariant.{IsLive}
use byte_hive.Ledger.{Tombstone, DeletionLedger, stamp_at_most, covering_loop, covering_tombstone}

abbrev pub live_one : Option ℕ → Option Tombstone → Option Tombstone
live_one floor none = none
live_one floor (some t) = if stamp_at_most floor t.deleted_at_ms then none else some t

-- The tombstone that stands at `q`, if it is newer than the live action `floor`. The empty path has
-- none.
abbrev pub applying : Dict FilePath Tombstone → Option ℕ → FilePath → Option Tombstone
applying entries floor [] = none
applying entries floor (c ∷ q) = live_one floor (Dict.lookup (c ∷ q) entries)

abbrev or_else : Option Tombstone → Option Tombstone → Option Tombstone
or_else none b = b
or_else (some t) b = some t

-- The nearest-first search, by recursion on the path.
nearest : (FilePath → Option Tombstone) → FilePath → Option Tombstone
nearest f [] = f []
nearest f (c ∷ p) = or_else (nearest (λ q. f (c ∷ q)) p) (f [])

loop_of : (FilePath → Option Tombstone) → List FilePath → Option Tombstone
loop_of f [] = none
loop_of f (q ∷ qs) = or_else (f q) (loop_of f qs)

loop_of-append :
    (f : FilePath → Option Tombstone) (xs ys : List FilePath)
    → loop_of f (xs ++ ys) ≡ or_else (loop_of f xs) (loop_of f ys)
unfolding loop_of
loop_of-append f [] ys = refl
loop_of-append f (x ∷ xs) ys = ground (arith, loop_of-append f xs ys)

loop_of-map :
    (f : FilePath → Option Tombstone) (c : Component) (xs : List FilePath)
    → loop_of f (map (◌∷◌ c) xs) ≡ loop_of (λ q. f (c ∷ q)) xs
unfolding loop_of
loop_of-map f c [] = refl
loop_of-map f c (x ∷ xs) = rw (loop_of-map f c xs)

loop_of-ancestors :
    (f : FilePath → Option Tombstone) (p : FilePath) → loop_of f (ancestors p) ≡ nearest f p
unfolding ancestors nearest loop_of
loop_of-ancestors f [] = ground arith
loop_of-ancestors f (c ∷ p) = ground (
  arith,
  loop_of-append f (map (◌∷◌ c) (ancestors p)) ([] ∷ []),
  loop_of-map f c (ancestors p),
  loop_of-ancestors (λ q. f (c ∷ q)) p,
)

-- The `break` at the empty path comes only at the end of the ancestors.
covering_loop-map :
    (entries : Dict FilePath Tombstone) (floor : Option ℕ) (c : Component) (qs : List FilePath)
    → covering_loop entries floor (map (◌∷◌ c) qs ++ [] ∷ [])
      ≡ loop_of (applying entries floor) (map (◌∷◌ c) qs)
unfolding covering_loop loop_of
covering_loop-map entries floor c [] = refl
covering_loop-map entries floor c (q ∷ qs) = ground (arith, covering_loop-map entries floor c qs)

or_else-none : (o : Option Tombstone) → or_else o none ≡ o
or_else-none none = refl
or_else-none (some t) = refl

covering-nearest :
    (l : DeletionLedger) (p : FilePath)
    → covering_tombstone l p ≡ nearest (applying l.entries (Dict.lookup p l.alive)) p
unfolding covering_tombstone nearest
covering-nearest l [] = refl
covering-nearest l (c ∷ p) =
    let floor = Dict.lookup (c ∷ p) l.alive in
    covering_loop-map l.entries floor c (ancestors p)
    ∙ loop_of-map (applying l.entries floor) c (ancestors p)
    ∙ loop_of-ancestors (λ q. applying l.entries floor (c ∷ q)) p
    ∙ sym (or_else-none _)

nearest-none :
    (f : FilePath → Option Tombstone) (p : FilePath)
    → nearest f p ≡ none
    → (q : FilePath) → starts_with p q ≡ true
    → f q ≡ none
unfolding nearest starts_with
nearest-none f [] h [] s = h
nearest-none f [] h (d ∷ q) s = cc
nearest-none f (c ∷ p) h [] s = ground arith
nearest-none f (c ∷ p) h (d ∷ q) s =
    ground (arith, nearest-none (λ r. f (c ∷ r)) p (ground arith) q)

-- A prefix of `p` has a value, and no longer prefix of `p` has one.
record Nearest (f : FilePath → Option Tombstone) (p : FilePath) (t : Tombstone) : Type 0 where
  at : FilePath
  above : starts_with p at ≡ true
  found : f at ≡ some t
  first : (r : FilePath) → starts_with p r ≡ true → length at < length r → f r ≡ none

first_under :
    (f : FilePath → Option Tombstone) (c : Component) (p q : FilePath)
    → ((r : FilePath) → starts_with p r ≡ true → length q < length r → f (c ∷ r) ≡ none)
    → (r : FilePath) → starts_with (c ∷ p) r ≡ true
    → length (c ∷ q) < length r
    → f r ≡ none
unfolding starts_with
first_under f c p q h [] s lt = absurd (omega arith)
first_under f c p q h (d ∷ r) s lt = ground (arith, h r)

nearest-some :
    (f : FilePath → Option Tombstone) (p : FilePath) (t : Tombstone)
    → nearest f p ≡ some t
    → Nearest f p t
unfolding nearest starts_with
nearest-some f [] t h = record {
  at = [];
  above = refl;
  found = h;
  first = elim [ [] ↦ λ s lt. absurd (omega arith) | c ∷ r ↦ λ s lt. cc ];
}
nearest-some f (c ∷ p) t h = elim (Option-cases (nearest (λ q. f (c ∷ q)) p)) [
  | inl e ↦ record {
    at = [];
    above = refl;
    found = ground arith;
    first = elim [
      | [] ↦ λ s lt. absurd (omega arith)
      | d ∷ r ↦ λ s lt. ground (arith, nearest-none (λ q. f (c ∷ q)) p e r)
    ];
  }
  | inr (u, e) ↦
      let n = nearest-some (λ q. f (c ∷ q)) p u e in
      record {
        at = c ∷ n.at;
        above = ground (arith, n.above);
        found = ground (arith, n.found);
        first = first_under f c p n.at n.first;
      }
]

-- What `covering_tombstone` promises of a tombstone `t` that it returns for `p`.
pub record Covers (l : DeletionLedger) (p : FilePath) (t : Tombstone) : Type 0 where
  pub at : FilePath
  pub above : starts_with p at ≡ true
  pub nonempty : at ≢ []
  pub stored : Dict.lookup at l.entries ≡ some t
  pub newer : stamp_at_most (Dict.lookup p l.alive) t.deleted_at_ms ≡ false
  pub first :
      (r : FilePath)
      → starts_with p r ≡ true
      → length at < length r
      → applying l.entries (Dict.lookup p l.alive) r ≡ none

applying-some :
    (entries : Dict FilePath Tombstone) (floor : Option ℕ) (q : FilePath) (t : Tombstone)
    → applying entries floor q ≡ some t
    → (q ≢ []) × (Dict.lookup q entries ≡ some t) × (stamp_at_most floor t.deleted_at_ms ≡ false)
applying-some entries floor [] t h = cc
applying-some entries floor (c ∷ q) t h = (λ e. cc, ground arith, ground arith)

-- A tombstone that `covering_tombstone` returns for a path stands at the path or at one of its
-- ancestors, other than the empty path; it is newer than the live action recorded for the path; and
-- no longer ancestor has a tombstone that is newer than that live action.
pub covering_tombstone_sound :
    (l : DeletionLedger) (p : FilePath) (t : Tombstone)
    → covering_tombstone l p ≡ some t
    → Covers l p t
covering_tombstone_sound l p t h =
    let floor = Dict.lookup p l.alive in
    let n = nearest-some (applying l.entries floor) p t (sym (covering-nearest l p) ∙ h) in
    let (nonempty, stored, newer) = applying-some l.entries floor n.at t n.found in
    record {
      at = n.at;
      above = n.above;
      nonempty = nonempty;
      stored = stored;
      newer = newer;
      first = n.first;
    }

-- If `covering_tombstone` returns nothing for a path, then neither the path nor any of its ancestors
-- has a tombstone that is newer than the live action recorded for the path.
pub covering_tombstone_complete :
    (l : DeletionLedger) (p q : FilePath)
    → covering_tombstone l p ≡ none
    → starts_with p q ≡ true
    → applying l.entries (Dict.lookup p l.alive) q ≡ none
covering_tombstone_complete l p q h s =
    nearest-none (applying l.entries (Dict.lookup p l.alive)) p (sym (covering-nearest l p) ∙ h) q s

nearest_self :
    (f : FilePath → Option Tombstone) (p : FilePath) (t : Tombstone)
    → f p ≡ some t
    → nearest f p ≡ some t
unfolding nearest
nearest_self f [] t h = h
nearest_self f (c ∷ p) t h = ground (arith, nearest_self (λ q. f (c ∷ q)) p t)

-- In a ledger that keeps its invariant a path's own tombstone covers it.
pub covering_tombstone_exact :
    (l : DeletionLedger) (p : FilePath) (t : Tombstone)
    → IsLive l
    → p ≢ []
    → Dict.lookup p l.entries ≡ some t
    → covering_tombstone l p ≡ some t
covering_tombstone_exact l [] t h nonempty e = absurd (nonempty refl)
covering_tombstone_exact l (c ∷ p) t h nonempty e =
    covering-nearest l (c ∷ p)
    ∙ nearest_self (applying l.entries (Dict.lookup (c ∷ p) l.alive)) (c ∷ p) t
        (elim (Option-cases (Dict.lookup (c ∷ p) l.alive)) [
          | inl e' ↦ ground arith
          | inr (a, e') ↦ ground (arith, h.newer (c ∷ p) t a e e')
        ])
