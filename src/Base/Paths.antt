-- ===== src/Base/Paths.antt =====
-- `std::path`: a path is its list of components, on which equality, `starts_with`,
-- `strip_prefix` and `ancestors` go. A file name is its bytes.
use Prim.Native.Nat.{ℕ}
use mathlib.Core.Path.{◌≡◌, refl}
use mathlib.Core.Logic.{◌⊎◌, inl, inr}
use mathlib.Core.Bool.{Bool, true, false, ◌&&◌}
use mathlib.Core.Option.{Option, none, some}
use mathlib.Core.List.{List, [], ◌∷◌, ◌++◌, map}
use native.Mathlib.Decide.{ℕ_discrete}
use native.Mathlib.Omega.{arith}
use byte_hive.Base.Tests.{if◌then◌else◌, is_some}
use byte_hive.Base.Equality.{Eq, ◌==◌, list_eq, nat_eq}

pub data Component : Type 0 where
  prefix : Component
  root_dir : Component
  cur_dir : Component
  parent_dir : Component
  normal : List ℕ → Component

Component-discrete : Discrete Component
Component-discrete = hlevel ℕ_discrete

instance unfoldable pub component_eq : Eq Component
unfolding Component-discrete ℕ_discrete
component_eq = record { dec = Component-discrete }

abbrev pub FilePath : Type 0
FilePath = List Component

-- `p.starts_with(prefix)`, by whole components
unfoldable pub starts_with : FilePath → FilePath → Bool
starts_with p [] = true
starts_with [] (y ∷ ys) = false
starts_with (x ∷ xs) (y ∷ ys) = x == y && starts_with xs ys

-- `p.strip_prefix(prefix).ok()`
unfoldable pub strip_prefix : FilePath → FilePath → Option FilePath
strip_prefix p [] = some p
strip_prefix [] (y ∷ ys) = none
strip_prefix (x ∷ xs) (y ∷ ys) = if x == y then strip_prefix xs ys else none

-- `p.ancestors()`: the path, its parent, and so on, down to the empty path
unfoldable pub ancestors : FilePath → List FilePath
ancestors [] = [] ∷ []
ancestors (c ∷ p) = map (◌∷◌ c) (ancestors p) ++ [] ∷ []

pub starts_with_refl : (p : FilePath) → starts_with p p ≡ true
unfolding starts_with
starts_with_refl [] = refl
starts_with_refl (c ∷ p) = ground (arith, starts_with_refl p)

pub starts_with_trans :
    (p q r : FilePath) → starts_with p q ≡ true → starts_with q r ≡ true → starts_with p r ≡ true
unfolding starts_with
starts_with_trans p q [] h k = refl
starts_with_trans p [] (z ∷ zs) h k = cc
starts_with_trans [] (y ∷ ys) (z ∷ zs) h k = cc
starts_with_trans (x ∷ xs) (y ∷ ys) (z ∷ zs) h k = ground (arith, starts_with_trans xs ys zs)

-- Stripping a prefix succeeds exactly on the paths below it, and joining gives the path back.
pub strip_prefix-join :
    (p q r : FilePath) → strip_prefix p q ≡ some r → (p ≡ q ++ r) × (starts_with p q ≡ true)
unfolding strip_prefix starts_with
strip_prefix-join p [] r h = (ground arith, refl)
strip_prefix-join [] (y ∷ ys) r h = cc
strip_prefix-join (x ∷ xs) (y ∷ ys) r h = ground (arith, strip_prefix-join xs ys r)

pub strip_prefix-append : (q r : FilePath) → strip_prefix (q ++ r) q ≡ some r
unfolding strip_prefix
strip_prefix-append [] r = refl
strip_prefix-append (y ∷ ys) r = ground (arith, strip_prefix-append ys r)

pub starts_with-append : (q r : FilePath) → starts_with (q ++ r) q ≡ true
unfolding starts_with
starts_with-append [] r = refl
starts_with-append (y ∷ ys) r = ground (arith, starts_with-append ys r)

pub is_some-strip_prefix : (p q : FilePath) → is_some (strip_prefix p q) ≡ starts_with p q
unfolding strip_prefix starts_with
is_some-strip_prefix p [] = refl
is_some-strip_prefix [] (y ∷ ys) = refl
is_some-strip_prefix (x ∷ xs) (y ∷ ys) = ground (arith, is_some-strip_prefix xs ys)

-- Two prefixes of one path are comparable.
pub prefixes_comparable :
    (p q r : FilePath)
    → starts_with p q ≡ true
    → starts_with p r ≡ true
    → (starts_with q r ≡ true) ⊎ (starts_with r q ≡ true)
unfolding starts_with
prefixes_comparable p q [] h k = inl refl
prefixes_comparable p [] (z ∷ zs) h k = inr refl
prefixes_comparable [] (y ∷ ys) (z ∷ zs) h k = cc
prefixes_comparable (x ∷ xs) (y ∷ ys) (z ∷ zs) h k = ground (arith, prefixes_comparable xs ys zs)
