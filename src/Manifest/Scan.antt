-- ===== src/Manifest/Scan.antt =====
-- `build_manifest` of crates/filesync/src/manifest.rs, the scan of the root directory. What the scan
-- reads of the disk, with the clock and blake3, is the parameter `Disk`: a scan sees one state of
-- it. The outcomes of the hash pool are taken in the order of the walk; the numbers of `ScanStats`
-- are not modelled.
pub mod Known
pub mod Outcomes
pub mod Rescan
use byte_hive.Base.{
  ℕ, zero, suc, ◌+◌, ◌*◌, ◌/◌, ◌%◌, ◌^◌, Bool, true, false, Option, none, some, List,
}
use byte_hive.Base.{[], ◌∷◌, ◌++◌, Text, if◌then◌else◌, ltb, leb, contains, list_eq, nat_eq}
use byte_hive.Base.Dict
use byte_hive.Base.Dict.{Dict}
use byte_hive.Base.Paths.{FilePath, Component, component_eq, strip_prefix}
use byte_hive.Protocol.{FileMetadata, Manifest, Hash}
use byte_hive.Hex.{hex, parse_hex32}
use byte_hive.ManifestCache.{ManifestCache, CachedEntry, new, lookup, upsert, prune_missing}

-- `std::fs::Metadata`. The modification time is in seconds and nanoseconds since the epoch, where
-- it is available and not before the epoch.
pub record Stat : Type 0 where
  pub is_dir : Bool
  pub len : ℕ
  pub modified : Option (ℕ × ℕ)
  pub inode : ℕ

pub record Disk : Type 0 where
  pub metadata : FilePath → Option Stat
  -- blake3 by `update_mmap_rayon`, and by `File::open` and `update_reader`
  pub mmap_hash : FilePath → Option Hash
  pub read_hash : FilePath → Option Hash
  -- The clock when a path is looked up in the cache.
  pub now_ms : FilePath → ℕ
  -- The entries of jwalk, some of which are errors.
  pub walk : List (Option FilePath)

unfoldable pub tier_mmap_min_bytes : ℕ
tier_mmap_min_bytes = 4 * 1024 * 1024

unfoldable pub with_size : ℕ → Option Hash → Option (ℕ × Hash)
with_size size none = none
with_size size (some h) = some (size, h)

unfoldable pub tiered : Disk → FilePath → ℕ → Option (ℕ × Hash)
unfolding with_size tier_mmap_min_bytes
tiered D path size =
    if leb tier_mmap_min_bytes size
    then elim (D.mmap_hash path) [
      | some h ↦ some (size, h)
      | none ↦ with_size size (D.read_hash path)
    ]
    else with_size size (D.read_hash path)

unfoldable pub hash_file_tiered : Disk → FilePath → Option (ℕ × Hash)
unfolding tiered
hash_file_tiered D path = elim (D.metadata path) [ none ↦ none | some st ↦ tiered D path st.len ]

-- The seconds must fit into an `i64`.
unfoldable pub mtime_parts : Stat → Option (ℕ × ℕ)
mtime_parts st = elim st.modified [
  | none ↦ none
  | some (s, ns) ↦ if ltb s (2 ^ 63) then some (s, ns) else none
]

pub record BuildOutcome : Type 0 where
  pub rel : FilePath
  pub meta : FileMetadata
  pub cache_upsert : Option (FilePath × CachedEntry)

unfoldable pub file_meta : FilePath → Bool → ℕ → Hash → ℕ → FileMetadata
file_meta rel is_dir size hash modified_ms = record {
  rel_path = rel;
  size = size;
  hash = hash;
  modified_ms = modified_ms;
  change_sequence = 0;
  is_dir = is_dir;
}

hit : ManifestCache → FilePath → Stat → ℕ → ℕ × ℕ → Option Hash
hit c rel st now (s, ns) = elim (lookup c rel st.len s ns st.inode now) [
  | none ↦ none
  | some text ↦ parse_hex32 text
]

-- The hash that the fast path takes from the cache.
unfoldable pub cached_hash :
    Option ManifestCache → List FilePath → FilePath → Stat → ℕ → Option Hash
unfolding hit
cached_hash none dirty rel st now = none
cached_hash (some c) dirty rel st now =
    if contains dirty rel
    then none
    else elim (mtime_parts st) [ none ↦ none | some parts ↦ hit c rel st now parts ]

unfoldable pub new_entry : Stat → ℕ → Hash → ℕ × ℕ → CachedEntry
new_entry st size hash (s, ns) = record {
  size = size;
  mtime_s = s;
  mtime_ns = ns;
  inode = st.inode;
  hash = hex hash;
}

unfoldable pub entry_of :
    FilePath → Stat → ℕ → Hash → Option (ℕ × ℕ) → Option (FilePath × CachedEntry)
unfolding new_entry
entry_of rel st size hash none = none
entry_of rel st size hash (some parts) = some (rel, new_entry st size hash parts)

-- The outcome of a file that is hashed.
unfoldable pub hashed : FilePath → Stat → ℕ → Option (ℕ × Hash) → Option BuildOutcome
hashed rel st modified_ms none = none
hashed rel st modified_ms (some (size, hash)) = some (record {
  rel = rel;
  meta = file_meta rel false size hash modified_ms;
  cache_upsert = entry_of rel st size hash (mtime_parts st);
})

unfoldable pub file_outcome :
    Disk → FilePath → FilePath → Stat → ℕ → Option Hash → Option BuildOutcome
unfolding hashed
file_outcome D full rel st modified_ms (some hash) =
    some (record {
      rel = rel;
      meta = file_meta rel false st.len hash modified_ms;
      cache_upsert = none;
    })
file_outcome D full rel st modified_ms none = hashed rel st modified_ms (hash_file_tiered D full)

-- `[0u8; n]`
unfoldable pub zero_bytes : ℕ → Hash
zero_bytes zero = []
zero_bytes (suc n) = 0 ∷ zero_bytes n

-- `cache.cloned().unwrap_or_default()`
unfoldable pub start : Option ManifestCache → ManifestCache
start none = new
start (some c) = c

module _ (root : FilePath) (excluded : FilePath → Bool) (D : Disk) where
  -- The two kinds of entry, by `meta.is_dir()`.
  unfoldable pub outcome_of :
      Option ManifestCache → List FilePath → FilePath → Stat → ℕ → Bool → Option BuildOutcome
  unfolding file_outcome zero_bytes
  outcome_of cache dirty rel st modified_ms true = some (record {
    rel = rel;
    meta = file_meta rel true 0 (zero_bytes 32) modified_ms;
    cache_upsert = none;
  })
  outcome_of cache dirty rel st modified_ms false =
      file_outcome D (root ++ rel) rel st modified_ms
        (cached_hash cache dirty rel st (D.now_ms rel))

  unfoldable pub outcome_at :
      Option ManifestCache → List FilePath → FilePath → Stat → Option (ℕ × ℕ) → Option BuildOutcome
  unfolding outcome_of
  outcome_at cache dirty rel st none = none
  outcome_at cache dirty rel st (some (s, ns)) =
      outcome_of cache dirty rel st ((s * 1000 + ns / 1000000) % 2 ^ 64) st.is_dir

  unfoldable pub stat_outcome :
      Option ManifestCache → List FilePath → FilePath → Option Stat → Option BuildOutcome
  unfolding outcome_at
  stat_outcome cache dirty rel none = none
  stat_outcome cache dirty rel (some st) = outcome_at cache dirty rel st st.modified

  unfoldable pub hash_one : Option ManifestCache → List FilePath → FilePath → Option BuildOutcome
  unfolding stat_outcome
  hash_one cache dirty rel = stat_outcome cache dirty rel (D.metadata (root ++ rel))

  rel_paths : Option FilePath → List FilePath
  rel_paths none = []
  rel_paths (some []) = []
  rel_paths (some (c ∷ p)) = if excluded (c ∷ p) then [] else (c ∷ p) ∷ []

  -- What the walk sends to the hash pool.
  unfoldable pub walked : List (Option FilePath) → List FilePath
  unfolding rel_paths
  walked [] = []
  walked (none ∷ es) = walked es
  walked (some full ∷ es) = rel_paths (strip_prefix full root) ++ walked es

  unfoldable pub upsert_some : Option (FilePath × CachedEntry) → ManifestCache → ManifestCache
  upsert_some none c = c
  upsert_some (some (p, e)) c = upsert p e c

  -- The body of the loop over the outcomes.
  unfoldable pub add_outcome :
      Option BuildOutcome
      → Dict FilePath FileMetadata × ManifestCache
      → Dict FilePath FileMetadata × ManifestCache
  unfolding upsert_some
  add_outcome none (files, updated) = (files, updated)
  add_outcome (some o) (files, updated) =
      (Dict.insert o.rel o.meta files, upsert_some o.cache_upsert updated)

  unfoldable pub collect :
      Option ManifestCache
      → List FilePath
      → List FilePath
      → Dict FilePath FileMetadata × ManifestCache
      → Dict FilePath FileMetadata × ManifestCache
  unfolding add_outcome
  collect cache dirty [] acc = acc
  collect cache dirty (rel ∷ rels) acc =
      collect cache dirty rels (add_outcome (hash_one cache dirty rel) acc)

  unfoldable pub finish :
      Text → Dict FilePath FileMetadata × ManifestCache → Manifest × ManifestCache
  finish node_id (files, updated) =
      (record { files = files; node_id = node_id }, (prune_missing (Dict.keys files) updated).0)

  unfoldable pub build_manifest :
      Text → Option ManifestCache → List FilePath → Manifest × ManifestCache
  unfolding finish collect
  build_manifest node_id cache dirty =
      finish node_id (collect cache dirty (walked D.walk) ([], start cache))
