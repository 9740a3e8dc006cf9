-- ===== src/Base/Tree.antt =====
-- `std::collections::BTreeMap` and `BTreeSet<u64>`: entries in the order of their keys. Look-up and
-- removal are those of a dictionary; insertion keeps the order, and ranges depend on it.
use mathlib.Core.Path.{◌≡◌, refl}
use mathlib.Core.Bool.{true}
use mathlib.Core.Option.{none, some}
use mathlib.Core.List.{[], ◌∷◌}
use native.Mathlib.Omega.{arith}
use byte_hive.Base.Tests.{if◌then◌else◌}
use byte_hive.Base.Equality.{Eq, ◌==◌}
use byte_hive.Base.Order.{Order}
use byte_hive.Base.Dict
use byte_hive.Base.Dict.{Dict}

module _ {ℓ κ} {K : Type ℓ} {V : Type κ} ⦃e : Eq K⦄ ⦃o : Order K⦄ where
  unfoldable pub insert : K → V → Dict K V → Dict K V
  insert k v [] = (k, v) ∷ []
  insert k v ((j, w) ∷ d) =
      let rest = insert k v d in
      if k == j then (k, v) ∷ d else if o.lt k j then (k, v) ∷ (j, w) ∷ d else (j, w) ∷ rest

  -- `range(from..)`
  unfoldable pub range_from : K → Dict K V → Dict K V
  range_from k [] = []
  range_from k ((j, w) ∷ d) = let rest = range_from k d in if o.lt j k then rest else (j, w) ∷ d

  -- Every key of the entries is larger than `k`.
  abbrev pub Above : K → Dict K V → Type 0
  Above k [] = Unit
  Above k ((j, _) ∷ d) = (o.lt k j ≡ true) × Above k d

  abbrev pub IsSorted : Dict K V → Type 0
  IsSorted [] = Unit
  IsSorted ((k, _) ∷ d) = Above k d × IsSorted d

  pub lookup-insert :
      (j k : K) (v : V) (d : Dict K V)
      → Dict.lookup j (insert k v d) ≡ (if j == k then some v else Dict.lookup j d)
  unfolding insert Dict.lookup
  lookup-insert j k v [] = refl
  lookup-insert j k v ((i, w) ∷ d) = ground (arith, lookup-insert j k v d)

  Above-lookup : (k : K) (d : Dict K V) → Above k d → Dict.lookup k d ≡ none
  unfolding Dict.lookup
  Above-lookup k [] _ = refl
  Above-lookup k ((j, w) ∷ d) (lt, above) = ground (arith, Above-lookup k d above, o.irrefl k)

  Above-trans : (i k : K) (d : Dict K V) → o.lt i k ≡ true → Above k d → Above i d
  Above-trans i k [] h _ = tt
  Above-trans i k ((j, w) ∷ d) h (lt, above) = (o.trans i k j h lt, Above-trans i k d h above)

  insert-Above :
      (i k : K) (v : V) (d : Dict K V) → o.lt i k ≡ true → Above i d → Above i (insert k v d)
  unfolding insert
  insert-Above i k v [] h _ = (h, tt)
  insert-Above i k v ((j, w) ∷ d) h (lt, above) = ground (arith, insert-Above i k v d h above)

  erase-Above : (i k : K) (d : Dict K V) → Above i d → Above i (Dict.erase k d)
  unfolding Dict.erase
  erase-Above i k [] _ = tt
  erase-Above i k ((j, w) ∷ d) (lt, above) = ground (arith, erase-Above i k d above)

  pub erase-IsSorted : (k : K) (d : Dict K V) → IsSorted d → IsSorted (Dict.erase k d)
  unfolding Dict.erase
  erase-IsSorted k [] _ = tt
  erase-IsSorted k ((j, w) ∷ d) (above, s) =
      ground (arith, erase-IsSorted k d s, erase-Above j k d above)

  pub insert-IsSorted : (k : K) (v : V) (d : Dict K V) → IsSorted d → IsSorted (insert k v d)
  unfolding insert
  insert-IsSorted k v [] _ = (tt, tt)
  insert-IsSorted k v ((j, w) ∷ d) (above, s) =
      ground (arith, insert-IsSorted k v d s, insert-Above j k v d, Above-trans k j d, o.total k j)
