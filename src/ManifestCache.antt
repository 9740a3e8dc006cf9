-- ===== src/ManifestCache.antt =====
-- crates/filesync/src/manifest_cache.rs: hashes of files that are reused while a file looks
-- unchanged. The JSON file is the parameter `CacheFile`; a modification time before the epoch has
-- no parts, so `mtime_s` is a number here.
pub mod Trust
pub mod Current
use byte_hive.Base.{
  ℕ, ◌+◌, ◌-◌, ◌*◌, ◌/◌, ◌^◌, min, Bool, true, false, ◌&&◌, ◌||◌, not, Option, none,
}
use byte_hive.Base.{
  some, List, [], ◌∷◌, Text, if◌then◌else◌, leb, ltb, length, contains, ◌==◌, nat_eq,
}
use byte_hive.Base.{list_eq}
use byte_hive.Base.Dict
use byte_hive.Base.Dict.{Dict}
use byte_hive.Base.Paths.{FilePath, component_eq}

abbrev pub cache_min_age_ms : ℕ
cache_min_age_ms = 5000

pub record CachedEntry : Type 0 where
  pub size : ℕ
  pub mtime_s : ℕ
  pub mtime_ns : ℕ
  pub inode : ℕ
  pub hash : Text

pub record ManifestCache : Type 0 where
  pub entries : Dict FilePath CachedEntry
  pub dirty : Bool

abbrev pub new : ManifestCache
new = record { entries = []; dirty = false }

-- The file: `load` gives the parsed map, `none` for a missing or unreadable file, and `some none`
-- for a corrupt one. `save` is the write to the temporary file and the rename.
pub record CacheFile : Type 1 where
  pub World : Type 0
  pub load : World → Option (Option (Dict FilePath CachedEntry))
  pub back_up : World → World
  pub save : Dict FilePath CachedEntry → World → World × Bool

-- The largest `u64`, where the saturating operations stop.
abbrev pub max_u64 : ℕ
max_u64 = 2 ^ 64 - 1

abbrev pub mtime_ms : ℕ → ℕ → ℕ
mtime_ms mtime_s mtime_ns = min (min (mtime_s * 1000) max_u64 + mtime_ns / 1000000) max_u64

-- The derived `PartialEq` of `CachedEntry`
abbrev pub same_entry : CachedEntry → CachedEntry → Bool
same_entry a b =
    a.size == b.size
    && (a.mtime_s == b.mtime_s
        && (a.mtime_ns == b.mtime_ns && (a.inode == b.inode && a.hash == b.hash)))

abbrev pub trusted : CachedEntry → ℕ → ℕ → ℕ → ℕ → ℕ → Option Text
trusted e size mtime_s mtime_ns inode now_ms =
    if not (e.size == size)
      || not (e.mtime_s == mtime_s)
      || not (e.mtime_ns == mtime_ns)
      || not (e.inode == inode)
    then none
    else if leb (now_ms - mtime_ms mtime_s mtime_ns) cache_min_age_ms
    then none
    else some e.hash

unfoldable pub lookup : ManifestCache → FilePath → ℕ → ℕ → ℕ → ℕ → ℕ → Option Text
lookup c path size mtime_s mtime_ns inode now_ms = elim (Dict.lookup path c.entries) [
  | none ↦ none
  | some e ↦ trusted e size mtime_s mtime_ns inode now_ms
]

-- `entries.get(&path) == Some(&entry)`
abbrev pub is_entry : Option CachedEntry → CachedEntry → Bool
is_entry none entry = false
is_entry (some e) entry = same_entry e entry

unfoldable pub upsert : FilePath → CachedEntry → ManifestCache → ManifestCache
upsert path entry c =
    if is_entry (Dict.lookup path c.entries) entry
    then c
    else record { entries = Dict.insert path entry c.entries; dirty = true }

unfoldable pub prune_missing : List FilePath → ManifestCache → ManifestCache × ℕ
prune_missing existing c =
    let entries = Dict.retain (λ p _. contains existing p) c.entries in
    let removed = length c.entries - length entries in
    (record { entries = entries; dirty = ltb 0 removed || c.dirty }, removed)

module _ (F : CacheFile) where
  open F use {World}

  unfoldable pub load_cache : World → ManifestCache × World
  load_cache w = elim (F.load w) [
    | none ↦ (new, w)
    | some none ↦ (new, F.back_up w)
    | some (some entries) ↦ (record { entries = entries; dirty = false }, w)
  ]

  unfoldable pub save_atomic : ManifestCache → World → (ManifestCache × World) × Bool
  save_atomic c w =
      if c.dirty
      then (let (w', saved) = F.save c.entries w in
          ((record c { dirty = if saved then false else true }, w'), saved))
      else ((c, w), true)
