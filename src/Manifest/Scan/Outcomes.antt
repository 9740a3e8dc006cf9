-- ===== src/Manifest/Scan/Outcomes.antt =====
-- `hash_one` with and without a cache, and the entries that it records.
use byte_hive.Base.{ℕ, Bool, true, false, Option, none, some, List, ◌++◌}
use byte_hive.Base.{◌≡◌, refl, All}
use byte_hive.Base.Paths.{FilePath}
use byte_hive.Protocol.{FileMetadata, Hash}
use byte_hive.ManifestCache.{ManifestCache, CachedEntry}
use byte_hive.Manifest.Scan.{
  Disk, Stat, BuildOutcome, hash_file_tiered, mtime_parts, cached_hash, entry_of, hashed,
  file_outcome, outcome_of, outcome_at, stat_outcome, hash_one,
}
use byte_hive.Manifest.Scan.Known.{
  IsRecordOf, IsHistory, Trusts, HasDigests, cached_hash-hash, new_entry-IsRecordOf,
}

-- What an outcome adds to the manifest.
unfoldable pub listed : Option BuildOutcome → Option (FilePath × FileMetadata)
listed none = none
listed (some o) = some (o.rel, o.meta)

file_outcome-listed :
    (D : Disk) (full rel : FilePath) (st : Stat) (ms : ℕ) (cached : Option Hash)
    → ((hash : Hash) → cached ≡ some hash → hash_file_tiered D full ≡ some (st.len, hash))
    → listed (file_outcome D full rel st ms cached) ≡ listed (file_outcome D full rel st ms none)
unfolding file_outcome hashed listed
file_outcome-listed D full rel st ms none right = refl
file_outcome-listed D full rel st ms (some hash) right = rw (right hash refl) refl

-- The entry that is recorded is one of this disk.
unfoldable pub IsRecorded : FilePath → Disk → Option (FilePath × CachedEntry) → Type 0
IsRecorded root D none = Unit
IsRecorded root D (some (p, e)) = IsRecordOf D (root ++ p) e

unfoldable pub Records : FilePath → Disk → Option BuildOutcome → Type 0
unfolding IsRecorded
Records root D none = Unit
Records root D (some o) = IsRecorded root D o.cache_upsert

entry_of-IsRecorded :
    (root : FilePath) (D : Disk) (rel : FilePath) (st : Stat) (size : ℕ) (hash : Hash)
    (parts : Option (ℕ × ℕ))
    → HasDigests D
    → D.metadata (root ++ rel) ≡ some st
    → hash_file_tiered D (root ++ rel) ≡ some (size, hash)
    → mtime_parts st ≡ parts
    → IsRecorded root D (entry_of rel st size hash parts)
unfolding entry_of IsRecorded
entry_of-IsRecorded root D rel st size hash none digests found h e = tt
entry_of-IsRecorded root D rel st size hash (some (s, ns)) digests found h e =
    new_entry-IsRecordOf D (root ++ rel) st size s ns hash digests found h e

hashed-Records :
    (root : FilePath) (D : Disk) (rel : FilePath) (st : Stat) (ms : ℕ) (o : Option (ℕ × Hash))
    → HasDigests D
    → D.metadata (root ++ rel) ≡ some st
    → hash_file_tiered D (root ++ rel) ≡ o
    → Records root D (hashed rel st ms o)
unfolding hashed Records
hashed-Records root D rel st ms none digests found h = tt
hashed-Records root D rel st ms (some (size, hash)) digests found h =
    entry_of-IsRecorded root D rel st size hash (mtime_parts st) digests found h refl

file_outcome-Records :
    (root : FilePath) (D : Disk) (rel : FilePath) (st : Stat) (ms : ℕ) (cached : Option Hash)
    → HasDigests D
    → D.metadata (root ++ rel) ≡ some st
    → Records root D (file_outcome D (root ++ rel) rel st ms cached)
unfolding file_outcome Records IsRecorded
file_outcome-Records root D rel st ms none digests found =
    hashed-Records root D rel st ms (hash_file_tiered D (root ++ rel)) digests found refl
file_outcome-Records root D rel st ms (some hash) digests found = tt

-- Where the fast path finds a hash, it is the one of the file.
abbrev HitsRight : FilePath → Disk → ManifestCache → List FilePath → FilePath → Stat → Type 0
HitsRight root D c dirty rel st =
    (hash : Hash)
    → cached_hash (some c) dirty rel st (D.now_ms rel) ≡ some hash
    → hash_file_tiered D (root ++ rel) ≡ some (st.len, hash)

module _ (root : FilePath) (excluded : FilePath → Bool) (D : Disk) where
  outcome_of-listed :
      (c : ManifestCache) (dirty dirty' : List FilePath) (rel : FilePath) (st : Stat) (ms : ℕ)
      (is_dir : Bool)
      → HitsRight root D c dirty rel st
      → listed (outcome_of root excluded D (some c) dirty rel st ms is_dir)
        ≡ listed (outcome_of root excluded D none dirty' rel st ms is_dir)
  unfolding outcome_of cached_hash
  outcome_of-listed c dirty dirty' rel st ms true right = refl
  outcome_of-listed c dirty dirty' rel st ms false right =
      file_outcome-listed D (root ++ rel) rel st ms
        (cached_hash (some c) dirty rel st (D.now_ms rel)) right

  outcome_at-listed :
      (c : ManifestCache) (dirty dirty' : List FilePath) (rel : FilePath) (st : Stat)
      (modified : Option (ℕ × ℕ))
      → HitsRight root D c dirty rel st
      → listed (outcome_at root excluded D (some c) dirty rel st modified)
        ≡ listed (outcome_at root excluded D none dirty' rel st modified)
  unfolding outcome_at
  outcome_at-listed c dirty dirty' rel st none right = refl
  outcome_at-listed c dirty dirty' rel st (some (s, ns)) right =
      outcome_of-listed c dirty dirty' rel st _ st.is_dir right

  stat_outcome-listed :
      (c : ManifestCache) (dirty dirty' : List FilePath) (rel : FilePath) (found : Option Stat)
      → ((st : Stat) → found ≡ some st → HitsRight root D c dirty rel st)
      → listed (stat_outcome root excluded D (some c) dirty rel found)
        ≡ listed (stat_outcome root excluded D none dirty' rel found)
  unfolding stat_outcome
  stat_outcome-listed c dirty dirty' rel none right = refl
  stat_outcome-listed c dirty dirty' rel (some st) right =
      outcome_at-listed c dirty dirty' rel st st.modified (right st refl)

  pub hash_one-listed :
      (Ds : List Disk) (c : ManifestCache) (dirty dirty' : List FilePath) (rel : FilePath)
      → All (λ past. Trusts past D) Ds
      → IsHistory root Ds c
      → listed (hash_one root excluded D (some c) dirty rel)
        ≡ listed (hash_one root excluded D none dirty' rel)
  unfolding hash_one
  hash_one-listed Ds c dirty dirty' rel trusts known =
      stat_outcome-listed c dirty dirty' rel (D.metadata (root ++ rel)) (λ st e hash h.
        cached_hash-hash root D Ds c dirty rel st (D.now_ms rel) hash e trusts known h)

  outcome_of-Records :
      (cache : Option ManifestCache) (dirty : List FilePath) (rel : FilePath) (st : Stat) (ms : ℕ)
      (is_dir : Bool)
      → HasDigests D
      → D.metadata (root ++ rel) ≡ some st
      → Records root D (outcome_of root excluded D cache dirty rel st ms is_dir)
  unfolding outcome_of Records IsRecorded
  outcome_of-Records cache dirty rel st ms true digests found = tt
  outcome_of-Records cache dirty rel st ms false digests found =
      file_outcome-Records root D rel st ms (cached_hash cache dirty rel st (D.now_ms rel)) digests
        found

  outcome_at-Records :
      (cache : Option ManifestCache) (dirty : List FilePath) (rel : FilePath) (st : Stat)
      (modified : Option (ℕ × ℕ))
      → HasDigests D
      → D.metadata (root ++ rel) ≡ some st
      → Records root D (outcome_at root excluded D cache dirty rel st modified)
  unfolding outcome_at Records
  outcome_at-Records cache dirty rel st none digests found = tt
  outcome_at-Records cache dirty rel st (some (s, ns)) digests found =
      outcome_of-Records cache dirty rel st _ st.is_dir digests found

  stat_outcome-Records :
      (cache : Option ManifestCache) (dirty : List FilePath) (rel : FilePath) (found : Option Stat)
      → HasDigests D
      → D.metadata (root ++ rel) ≡ found
      → Records root D (stat_outcome root excluded D cache dirty rel found)
  unfolding stat_outcome Records
  stat_outcome-Records cache dirty rel none digests e = tt
  stat_outcome-Records cache dirty rel (some st) digests e =
      outcome_at-Records cache dirty rel st st.modified digests e

  pub hash_one-Records :
      (cache : Option ManifestCache) (dirty : List FilePath) (rel : FilePath)
      → HasDigests D
      → Records root D (hash_one root excluded D cache dirty rel)
  unfolding hash_one
  hash_one-Records cache dirty rel digests =
      stat_outcome-Records cache dirty rel (D.metadata (root ++ rel)) digests refl
