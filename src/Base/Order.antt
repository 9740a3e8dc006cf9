-- ===== src/Base/Order.antt =====
-- Rust's `Ord` as a strict Boolean order, for numbers and for paths, which `std::path` compares
-- component by component.
use Prim.Native.Nat.{ℕ}
use mathlib.Core.Path.{◌≡◌, refl}
use mathlib.Core.Bool.{Bool, true, false, ◌&&◌, ◌||◌}
use mathlib.Core.List.{List, [], ◌∷◌}
use native.Mathlib.Omega.{arith}
use byte_hive.Base.Tests.{ltb}
use byte_hive.Base.Equality.{◌==◌, list_eq, nat_eq}
use byte_hive.Base.Paths.{
  FilePath, Component, prefix, root_dir, cur_dir, parent_dir, normal, component_eq, starts_with,
}

pub record Order {ℓ} (A : Type ℓ) : Type ℓ where
  pub lt : A → A → Bool
  pub irrefl : (a : A) → lt a a ≡ false
  pub trans : (a b c : A) → lt a b ≡ true → lt b c ≡ true → lt a c ≡ true
  pub total : (a b : A) → lt a b ≡ false → lt b a ≡ false → a ≡ b

ltb_irrefl : (a : ℕ) → ltb a a ≡ false
ltb_irrefl a = ground arith

ltb_trans : (a b c : ℕ) → ltb a b ≡ true → ltb b c ≡ true → ltb a c ≡ true
ltb_trans a b c h k = ground arith

ltb_total : (a b : ℕ) → ltb a b ≡ false → ltb b a ≡ false → a ≡ b
ltb_total a b h k = ground arith

instance unfoldable pub nat_order : Order ℕ
unfolding ltb_irrefl ltb_trans ltb_total
nat_order = record { lt = ltb; irrefl = ltb_irrefl; trans = ltb_trans; total = ltb_total }

-- Byte strings, compared byte by byte.
unfoldable pub bytes_lt : List ℕ → List ℕ → Bool
bytes_lt [] [] = false
bytes_lt [] (y ∷ ys) = true
bytes_lt (x ∷ xs) [] = false
bytes_lt (x ∷ xs) (y ∷ ys) = ltb x y || x == y && bytes_lt xs ys

bytes_lt_irrefl : (a : List ℕ) → bytes_lt a a ≡ false
unfolding bytes_lt
bytes_lt_irrefl [] = refl
bytes_lt_irrefl (x ∷ xs) = ground (arith, bytes_lt_irrefl xs)

bytes_lt_trans : (a b c : List ℕ) → bytes_lt a b ≡ true → bytes_lt b c ≡ true → bytes_lt a c ≡ true
unfolding bytes_lt
bytes_lt_trans [] [] c h k = cc
bytes_lt_trans [] (y ∷ ys) [] h k = cc
bytes_lt_trans [] (y ∷ ys) (z ∷ zs) h k = refl
bytes_lt_trans (x ∷ xs) [] c h k = cc
bytes_lt_trans (x ∷ xs) (y ∷ ys) [] h k = cc
bytes_lt_trans (x ∷ xs) (y ∷ ys) (z ∷ zs) h k = ground (arith, bytes_lt_trans xs ys zs)

bytes_lt_total : (a b : List ℕ) → bytes_lt a b ≡ false → bytes_lt b a ≡ false → a ≡ b
unfolding bytes_lt
bytes_lt_total [] [] h k = refl
bytes_lt_total [] (y ∷ ys) h k = cc
bytes_lt_total (x ∷ xs) [] h k = cc
bytes_lt_total (x ∷ xs) (y ∷ ys) h k = ground (arith, bytes_lt_total xs ys)

-- The kinds of components in the order of `std::path::Component`.
unfoldable pub rank : Component → ℕ
rank prefix = 0
rank root_dir = 1
rank cur_dir = 2
rank parent_dir = 3
rank (normal _) = 4

unfoldable pub name_of : Component → List ℕ
name_of (normal n) = n
name_of prefix = []
name_of root_dir = []
name_of cur_dir = []
name_of parent_dir = []

unfoldable pub component_lt : Component → Component → Bool
unfolding rank name_of bytes_lt
component_lt a b = ltb (rank a) (rank b) || rank a == rank b && bytes_lt (name_of a) (name_of b)

component_lt_irrefl : (a : Component) → component_lt a a ≡ false
unfolding component_lt
component_lt_irrefl a = ground (arith, bytes_lt_irrefl (name_of a))

component_lt_trans :
    (a b c : Component)
    → component_lt a b ≡ true
    → component_lt b c ≡ true
    → component_lt a c ≡ true
unfolding component_lt
component_lt_trans a b c h k = ground (arith, bytes_lt_trans (name_of a) (name_of b) (name_of c))

component_lt_total : (a b : Component) → component_lt a b ≡ false → component_lt b a ≡ false → a ≡ b
unfolding component_lt rank name_of
component_lt_total prefix b h k = ground arith
component_lt_total root_dir b h k = ground arith
component_lt_total cur_dir b h k = ground arith
component_lt_total parent_dir b h k = ground arith
component_lt_total (normal m) (normal n) h k = ground (arith, bytes_lt_total m n)
component_lt_total (normal m) prefix h k = cc
component_lt_total (normal m) root_dir h k = cc
component_lt_total (normal m) cur_dir h k = cc
component_lt_total (normal m) parent_dir h k = cc

unfoldable pub path_lt : FilePath → FilePath → Bool
unfolding component_lt
path_lt [] [] = false
path_lt [] (y ∷ ys) = true
path_lt (x ∷ xs) [] = false
path_lt (x ∷ xs) (y ∷ ys) = component_lt x y || x == y && path_lt xs ys

pub path_lt_irrefl : (a : FilePath) → path_lt a a ≡ false
unfolding path_lt
path_lt_irrefl [] = refl
path_lt_irrefl (x ∷ xs) = ground (arith, path_lt_irrefl xs, component_lt_irrefl x)

pub path_lt_trans :
    (a b c : FilePath) → path_lt a b ≡ true → path_lt b c ≡ true → path_lt a c ≡ true
unfolding path_lt
path_lt_trans [] [] c h k = cc
path_lt_trans [] (y ∷ ys) [] h k = cc
path_lt_trans [] (y ∷ ys) (z ∷ zs) h k = refl
path_lt_trans (x ∷ xs) [] c h k = cc
path_lt_trans (x ∷ xs) (y ∷ ys) [] h k = cc
path_lt_trans (x ∷ xs) (y ∷ ys) (z ∷ zs) h k =
    ground (arith, path_lt_trans xs ys zs, component_lt_trans x y z)

pub path_lt_total : (a b : FilePath) → path_lt a b ≡ false → path_lt b a ≡ false → a ≡ b
unfolding path_lt
path_lt_total [] [] h k = refl
path_lt_total [] (y ∷ ys) h k = cc
path_lt_total (x ∷ xs) [] h k = cc
path_lt_total (x ∷ xs) (y ∷ ys) h k =
    ground (arith, path_lt_total xs ys, component_lt_total x y, component_lt_irrefl x)

instance unfoldable pub path_order : Order FilePath
unfolding path_lt path_lt_irrefl path_lt_trans path_lt_total component_lt_irrefl component_lt_trans
    component_lt_total bytes_lt_irrefl bytes_lt_trans bytes_lt_total
path_order = record {
  lt = path_lt;
  irrefl = path_lt_irrefl;
  trans = path_lt_trans;
  total = path_lt_total;
}

-- The paths below a prefix are not smaller than it.
pub path_lt-starts_with : (p q : FilePath) → path_lt p q ≡ true → starts_with p q ≡ false
unfolding path_lt starts_with
path_lt-starts_with [] [] h = cc
path_lt-starts_with [] (y ∷ ys) h = refl
path_lt-starts_with (x ∷ xs) [] h = cc
path_lt-starts_with (x ∷ xs) (y ∷ ys) h =
    ground (arith, path_lt-starts_with xs ys, component_lt_irrefl x)

-- The paths below a prefix follow one another: past the first larger path that is not below it,
-- none is.
pub starts_with_contiguous :
    (p q r : FilePath)
    → path_lt q p ≡ false
    → starts_with q p ≡ false
    → path_lt q r ≡ true
    → starts_with r p ≡ false
unfolding path_lt starts_with
starts_with_contiguous [] q r h k l = cc
starts_with_contiguous (y ∷ ys) [] r h k l = cc
starts_with_contiguous (y ∷ ys) (x ∷ xs) [] h k l = cc
starts_with_contiguous (y ∷ ys) (x ∷ xs) (z ∷ zs) h k l =
    ground (arith, starts_with_contiguous ys xs zs)
