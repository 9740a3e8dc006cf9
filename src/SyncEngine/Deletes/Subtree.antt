-- ===== src/SyncEngine/Deletes/Subtree.antt =====
-- The subtree of a deletion in `apply_deletes` of sync_engine.rs, and lists of paths.
use byte_hive.Base.{Bool, true, false, not, ◌&&◌, ◌||◌, some, List, [], ◌∷◌}
use byte_hive.Base.{◌≡◌, refl, arith, contains, select, any, All}
use byte_hive.Base.{list_eq, ◌==◌}
use byte_hive.Base.Dict
use byte_hive.Base.Dict.{Dict}
use byte_hive.Base.Paths.{FilePath, component_eq, starts_with, starts_with_refl}
use byte_hive.Protocol.{FileMetadata}
use byte_hive.SyncEngine.Deletes.{erase_all, subtree_of, shallow_first, insert_shallow}

pub lookup-retain_kept :
    (p : FilePath → FileMetadata → Bool) (k : FilePath) (d : Dict FilePath FileMetadata)
    → ((v : FileMetadata) → p k v ≡ true)
    → Dict.lookup k (Dict.retain p d) ≡ Dict.lookup k d
unfolding Dict.lookup Dict.retain
lookup-retain_kept p k [] h = refl
lookup-retain_kept p k ((j, v) ∷ d) h = ground (arith, lookup-retain_kept p k d h, h v)

pub lookup-erase_all :
    (ps : List FilePath) (k : FilePath) (d : Dict FilePath FileMetadata)
    → contains ps k ≡ false
    → Dict.lookup k (erase_all ps d) ≡ Dict.lookup k d
unfolding erase_all
lookup-erase_all [] k d h = refl
lookup-erase_all (p ∷ ps) k d h =
    ground (arith, h, lookup-erase_all ps k (Dict.erase p d), Dict.lookup-erase k p d)

pub contains-select :
    (f : FilePath → Bool) (xs : List FilePath) (k : FilePath)
    → contains (select f xs) k ≡ (contains xs k && f k)
contains-select f [] k = refl
contains-select f (x ∷ xs) k = ground (arith, contains-select f xs k)

contains-insert_shallow :
    (p : FilePath) (xs : List FilePath) (k : FilePath)
    → contains (insert_shallow p xs) k ≡ (k == p || contains xs k)
unfolding insert_shallow
contains-insert_shallow p [] k = refl
contains-insert_shallow p (x ∷ xs) k = ground (arith, contains-insert_shallow p xs k)

pub contains-shallow_first :
    (xs : List FilePath) (k : FilePath) → contains (shallow_first xs) k ≡ contains xs k
unfolding shallow_first
contains-shallow_first [] k = refl
contains-shallow_first (x ∷ xs) k =
    ground (arith, contains-insert_shallow x (shallow_first xs) k, contains-shallow_first xs k)

pub All-of-contains :
    {P : FilePath → Type 0} (xs : List FilePath)
    → ((x : FilePath) → contains xs x ≡ true → P x)
    → All P xs
All-of-contains [] f = tt
All-of-contains (x ∷ xs) f =
    (f x (ground arith), All-of-contains xs (λ y h. f y (ground (arith, h))))

pub any-below :
    (protected : List FilePath) (k target : FilePath)
    → contains protected k ≡ true
    → (k == target) ≡ false
    → starts_with k target ≡ true
    → any (λ q. not (q == target) && starts_with q target) protected ≡ true
any-below [] k target c n s = c
any-below (x ∷ xs) k target c n s = ground (arith, c, n, s, any-below xs k target)

-- The subtree of a deletion: what the manifest has below it, and the path itself.
pub contains-subtree_of :
    (rel : FilePath) (files : Dict FilePath FileMetadata) (k : FilePath) (m : FileMetadata)
    → Dict.lookup k files ≡ some m
    → contains (subtree_of rel files) k ≡ starts_with k rel
unfolding subtree_of
contains-subtree_of rel files k m h = ground (
  arith,
  contains-select (λ q. not (q == rel) && starts_with q rel) (Dict.keys files) k,
  (Dict.contains-keys files k).1 (λ e. ground (arith, h, e)),
  starts_with_refl rel,
)

pub subtree_of-below :
    (rel : FilePath) (files : Dict FilePath FileMetadata) (t : FilePath)
    → contains (subtree_of rel files) t ≡ true
    → starts_with t rel ≡ true
unfolding subtree_of
subtree_of-below rel files t h = ground (
  arith,
  h,
  contains-select (λ q. not (q == rel) && starts_with q rel) (Dict.keys files) t,
  starts_with_refl rel,
)
