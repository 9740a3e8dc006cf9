-- ===== src/ManifestCache/Trust.antt =====
-- `lookup` of manifest_cache.rs, after `upsert` and `prune_missing`.
use byte_hive.Base.{ℕ, ◌+◌, ◌<◌, true, none, some, List}
use byte_hive.Base.{◌≡◌, ◌↔◌, arith, if◌then◌else◌, contains, ◌==◌, nat_eq, list_eq}
use byte_hive.Base.{Option-cases, inl, inr}
use byte_hive.Base.Dict
use byte_hive.Base.Dict.{Dict, NodupKeys}
use byte_hive.Base.Paths.{FilePath, component_eq}
use byte_hive.ManifestCache.{
  ManifestCache, CachedEntry, lookup, upsert, prune_missing, mtime_ms, cache_min_age_ms, trusted,
  same_entry,
}

same_entry-eq : (a b : CachedEntry) → same_entry a b ≡ true → a ≡ b
same_entry-eq a b h = ground (arith, h)

lookup-upsert :
    (path : FilePath) (entry : CachedEntry) (c : ManifestCache) (p : FilePath)
    (size mtime_s mtime_ns inode now_ms : ℕ)
    → lookup (upsert path entry c) p size mtime_s mtime_ns inode now_ms ≡ (
        if p == path
        then trusted entry size mtime_s mtime_ns inode now_ms
        else lookup c p size mtime_s mtime_ns inode now_ms)
unfolding lookup upsert
lookup-upsert path entry c p size mtime_s mtime_ns inode now_ms =
    elim (Option-cases (Dict.lookup path c.entries)) [
      | inl e ↦ ground (arith, e, Dict.lookup-insert p path entry c.entries)
      | inr (old, e) ↦
          ground (arith, e, Dict.lookup-insert p path entry c.entries, same_entry-eq old entry)
    ]

-- What the file must look like for its hash to be reused.
pub record IsTrusted (e : CachedEntry) (size mtime_s mtime_ns inode now_ms : ℕ) : Type 0 where
  pub same_size : e.size ≡ size
  pub same_mtime_s : e.mtime_s ≡ mtime_s
  pub same_mtime_ns : e.mtime_ns ≡ mtime_ns
  pub same_inode : e.inode ≡ inode
  pub old_enough : mtime_ms mtime_s mtime_ns + cache_min_age_ms < now_ms

-- Right after an entry was recorded for a path, a look-up there reuses its hash exactly if the
-- size, both parts of the modification time and the inode are the recorded ones and the file is
-- more than five seconds old.
pub lookup-upsert-IsTrusted :
    (path : FilePath) (entry : CachedEntry) (c : ManifestCache)
    (size mtime_s mtime_ns inode now_ms : ℕ)
    → (lookup (upsert path entry c) path size mtime_s mtime_ns inode now_ms ≡ some entry.hash)
      ↔ IsTrusted entry size mtime_s mtime_ns inode now_ms
lookup-upsert-IsTrusted path entry c size mtime_s mtime_ns inode now_ms = (
  λ h. record {
    same_size = ground (arith, law, h);
    same_mtime_s = ground (arith, law, h);
    same_mtime_ns = ground (arith, law, h);
    same_inode = ground (arith, law, h);
    old_enough = ground (arith, law, h);
  },
  λ t.
      ground (arith, law, t.same_size, t.same_mtime_s, t.same_mtime_ns, t.same_inode, t.old_enough),
)
  where
    law : lookup (upsert path entry c) path size mtime_s mtime_ns inode now_ms ≡ (
        if path == path
        then trusted entry size mtime_s mtime_ns inode now_ms
        else lookup c path size mtime_s mtime_ns inode now_ms)
    law = lookup-upsert path entry c path size mtime_s mtime_ns inode now_ms

-- After a pruning exactly the paths that exist are still looked up as before; the others give
-- nothing. The cache has one entry for each path.
pub lookup-prune_missing :
    (existing : List FilePath) (c : ManifestCache) (p : FilePath)
    (size mtime_s mtime_ns inode now_ms : ℕ)
    → NodupKeys c.entries
    → lookup (prune_missing existing c).0 p size mtime_s mtime_ns inode now_ms
      ≡ (if contains existing p then lookup c p size mtime_s mtime_ns inode now_ms else none)
unfolding lookup prune_missing
lookup-prune_missing existing c p size mtime_s mtime_ns inode now_ms u =
    ground (arith, Dict.lookup-retain (λ q e. contains existing q) p c.entries u)
