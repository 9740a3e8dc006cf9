-- ===== src/ManifestCache/Current.antt =====
-- The dirty flag of manifest_cache.rs, and `save_atomic`.
use byte_hive.Base.{◌≤◌, Bool, true, false, some, List, [], ◌∷◌, ◌≡◌, refl}
use byte_hive.Base.{arith, contains, length, list_eq}
use byte_hive.Base.Dict
use byte_hive.Base.Dict.{Dict}
use byte_hive.Base.Paths.{FilePath, component_eq}
use byte_hive.ManifestCache.{
  ManifestCache, CachedEntry, CacheFile, upsert, prune_missing, save_atomic,
}

length-retain :
    (p : FilePath → CachedEntry → Bool) (d : Dict FilePath CachedEntry)
    → length (Dict.retain p d) ≤ length d
unfolding Dict.retain
length-retain p [] = omega arith
length-retain p ((k, v) ∷ d) = ground (arith, length-retain p d)

retain_all :
    (p : FilePath → CachedEntry → Bool) (d : Dict FilePath CachedEntry)
    → length (Dict.retain p d) ≡ length d
    → Dict.retain p d ≡ d
unfolding Dict.retain
retain_all p [] h = refl
retain_all p ((k, v) ∷ d) h = ground (arith, h, retain_all p d, length-retain p d)

-- Where the cache is not dirty, the file holds its entries.
abbrev pub IsCurrent : (F : CacheFile) → ManifestCache → F.World → Type 0
IsCurrent F c w = c.dirty ≡ false → F.load w ≡ some (some c.entries)

upsert-IsCurrent :
    (F : CacheFile) (path : FilePath) (entry : CachedEntry) (c : ManifestCache) (w : F.World)
    → IsCurrent F c w
    → IsCurrent F (upsert path entry c) w
unfolding upsert
upsert-IsCurrent F path entry c w h d = ground (arith, h, d)

prune_missing-IsCurrent :
    (F : CacheFile) (existing : List FilePath) (c : ManifestCache) (w : F.World)
    → IsCurrent F c w
    → IsCurrent F (prune_missing existing c).0 w
unfolding prune_missing
prune_missing-IsCurrent F existing c w h d = ground (
  arith,
  h,
  d,
  retain_all (λ p _. contains existing p) c.entries,
  length-retain (λ p _. contains existing p) c.entries,
)

-- The changes of a scan.
pub data Change : Type 0 where
  upsert_change : FilePath → CachedEntry → Change
  prune_change : List FilePath → Change

unfoldable pub apply_changes : List Change → ManifestCache → ManifestCache
apply_changes [] c = c
apply_changes (upsert_change path entry ∷ cs) c = apply_changes cs (upsert path entry c)
apply_changes (prune_change existing ∷ cs) c = apply_changes cs (prune_missing existing c).0

apply_changes-IsCurrent :
    (F : CacheFile) (cs : List Change) (c : ManifestCache) (w : F.World)
    → IsCurrent F c w
    → IsCurrent F (apply_changes cs c) w
unfolding apply_changes
apply_changes-IsCurrent F [] c w h = h
apply_changes-IsCurrent F (upsert_change path entry ∷ cs) c w h =
    apply_changes-IsCurrent F cs (upsert path entry c) w (upsert-IsCurrent F path entry c w h)
apply_changes-IsCurrent F (prune_change existing ∷ cs) c w h =
    apply_changes-IsCurrent F cs (prune_missing existing c).0 w
      (prune_missing-IsCurrent F existing c w h)

-- A save after any changes to a cache that was loaded from its file, if it succeeds, leaves a file
-- that loads as exactly the entries of memory: also where it writes nothing. A write that succeeds
-- leaves what it wrote.
pub save_atomic-load :
    (F : CacheFile) (cs : List Change) (c : ManifestCache) (w : F.World)
    → ((entries : Dict FilePath CachedEntry) (w : F.World)
        → (F.save entries w).1 ≡ true
        → F.load (F.save entries w).0 ≡ some (some entries))
    → F.load w ≡ some (some c.entries)
    → (save_atomic F (apply_changes cs c) w).1 ≡ true
    → F.load (save_atomic F (apply_changes cs c) w).0.1 ≡ some (some (apply_changes cs c).entries)
unfolding save_atomic
save_atomic-load F cs c w saves e ok =
    ground
      (arith, ok, saves (apply_changes cs c).entries w, apply_changes-IsCurrent F cs c w (λ _. e))
