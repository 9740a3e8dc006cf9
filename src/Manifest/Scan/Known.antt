-- ===== src/Manifest/Scan/Known.antt =====
-- What the entries of the cache stand for: files that earlier scans of manifest.rs have read.
use byte_hive.Base.{ℕ, none, some, List, [], ◌∷◌, ◌++◌, Text}
use byte_hive.Base.{◌≡◌, refl, arith, ◌⊎◌, inl, inr, All, length, if◌then◌else◌, contains, list_eq}
use byte_hive.Base.{Option-cases, Bool-cases, sym, ◌==◌, nat_eq}
use byte_hive.Base.Dict
use byte_hive.Base.Dict.{Dict}
use byte_hive.Base.Paths.{FilePath, component_eq}
use byte_hive.Protocol.{Hash}
use byte_hive.Hex.{parse_hex32, IsByte, parse_hex32-hex}
use byte_hive.ManifestCache.{ManifestCache, CachedEntry, lookup, upsert, prune_missing, is_entry}
use byte_hive.Manifest.Scan.{
  Disk, Stat, hash_file_tiered, mtime_parts, cached_hash, hit, tiered, with_size, new_entry,
}

-- The entry was recorded for a file of this disk.
pub record IsRecordOf (D : Disk) (full : FilePath) (e : CachedEntry) : Type 0 where
  pub st : Stat
  pub hash : Hash
  pub found : D.metadata full ≡ some st
  pub same_len : e.size ≡ st.len
  pub same_mtime : st.modified ≡ some (e.mtime_s, e.mtime_ns)
  pub same_inode : e.inode ≡ st.inode
  pub hashed_as : hash_file_tiered D full ≡ some (st.len, hash)
  pub parses : parse_hex32 e.hash ≡ some hash

-- The entry was recorded for a file of one of these disks.
unfoldable pub IsKnown : FilePath → CachedEntry → List Disk → Type 0
IsKnown full e [] = ⊥
IsKnown full e (D ∷ Ds) = IsRecordOf D full e ⊎ IsKnown full e Ds

-- Every entry of the cache was.
abbrev pub IsHistory : FilePath → List Disk → ManifestCache → Type 0
IsHistory root Ds c =
    (p : FilePath) (e : CachedEntry) → Dict.lookup p c.entries ≡ some e → IsKnown (root ++ p) e Ds

-- Where the two disks have a file of the same length, modification time and inode at a path, its
-- content is the same, and it can still be read.
abbrev pub Trusts : Disk → Disk → Type 0
Trusts past D =
    (full : FilePath) (st st' : Stat) (hash : Hash)
    → past.metadata full ≡ some st
    → D.metadata full ≡ some st'
    → st.len ≡ st'.len
    → st.modified ≡ st'.modified
    → st.inode ≡ st'.inode
    → hash_file_tiered past full ≡ some (st.len, hash)
    → hash_file_tiered D full ≡ some (st'.len, hash)

-- blake3 gives 32 bytes.
abbrev pub HasDigests : Disk → Type 0
HasDigests D =
    (full : FilePath) (size : ℕ) (hash : Hash)
    → hash_file_tiered D full ≡ some (size, hash)
    → (length hash ≡ 32) × All IsByte hash

lookup-entry :
    (c : ManifestCache) (p : FilePath) (size s ns inode now : ℕ) (text : Text)
    → lookup c p size s ns inode now ≡ some text
    → (e : CachedEntry) × (Dict.lookup p c.entries ≡ some e)
      × (e.size ≡ size)
      × (e.mtime_s ≡ s)
      × (e.mtime_ns ≡ ns)
      × (e.inode ≡ inode)
      × (e.hash ≡ text)
unfolding lookup
lookup-entry c p size s ns inode now text h = elim (Option-cases (Dict.lookup p c.entries)) [
  | inl e ↦ absurd (ground (arith, e, h))
  | inr (entry, e) ↦ (
    entry,
    e,
    ground (arith, e, h),
    ground (arith, e, h),
    ground (arith, e, h),
    ground (arith, e, h),
    ground (arith, e, h),
  )
]

IsKnown-hash :
    (D : Disk) (full : FilePath) (st : Stat) (e : CachedEntry) (hash : Hash) (Ds : List Disk)
    → D.metadata full ≡ some st
    → All (λ past. Trusts past D) Ds
    → IsKnown full e Ds
    → e.size ≡ st.len
    → st.modified ≡ some (e.mtime_s, e.mtime_ns)
    → e.inode ≡ st.inode
    → parse_hex32 e.hash ≡ some hash
    → hash_file_tiered D full ≡ some (st.len, hash)
unfolding IsKnown
IsKnown-hash D full st e hash [] found _ known len mtime inode parses = absurd known
IsKnown-hash D full st e hash (past ∷ Ds) found (t, ts) (inr known) len mtime inode parses =
    IsKnown-hash D full st e hash Ds found ts known len mtime inode parses
IsKnown-hash D full st e hash (past ∷ Ds) found (t, ts) (inl r) len mtime inode parses =
    t full r.st st hash r.found found (cc (r.same_len, len)) (cc (r.same_mtime, mtime))
      (cc (r.same_inode, inode)) (cc (r.hashed_as, r.parses, parses))

mtime_parts-modified :
    (st : Stat) (s ns : ℕ) → mtime_parts st ≡ some (s, ns) → st.modified ≡ some (s, ns)
unfolding mtime_parts
mtime_parts-modified st s ns h = elim (Option-cases st.modified) [
  | inl e ↦ ground (arith, e, h)
  | inr ((s', ns'), e) ↦ ground (arith, e, h)
]

hit-lookup :
    (c : ManifestCache) (rel : FilePath) (st : Stat) (now s ns : ℕ) (hash : Hash)
    → hit c rel st now (s, ns) ≡ some hash
    → (text : Text) × (lookup c rel st.len s ns st.inode now ≡ some text)
      × (parse_hex32 text ≡ some hash)
unfolding hit
hit-lookup c rel st now s ns hash h = elim (Option-cases (lookup c rel st.len s ns st.inode now)) [
  | inl e ↦ absurd (ground (arith, e, h))
  | inr (text, e) ↦ (text, e, ground (arith, e, h))
]

cached_hash-hit :
    (c : ManifestCache) (dirty : List FilePath) (rel : FilePath) (st : Stat) (now : ℕ) (hash : Hash)
    → cached_hash (some c) dirty rel st now ≡ some hash
    → (s : ℕ) × (ns : ℕ) × (mtime_parts st ≡ some (s, ns)) × (hit c rel st now (s, ns) ≡ some hash)
unfolding cached_hash
cached_hash-hit c dirty rel st now hash h = elim (Option-cases (mtime_parts st)) [
  | inl e ↦ absurd (ground (arith, e, h))
  | inr ((s, ns), e) ↦ (s, ns, e, ground (arith, e, h))
]

pub cached_hash-hash :
    (root : FilePath) (D : Disk) (Ds : List Disk) (c : ManifestCache) (dirty : List FilePath)
    (rel : FilePath) (st : Stat) (now : ℕ) (hash : Hash)
    → D.metadata (root ++ rel) ≡ some st
    → All (λ past. Trusts past D) Ds
    → IsHistory root Ds c
    → cached_hash (some c) dirty rel st now ≡ some hash
    → hash_file_tiered D (root ++ rel) ≡ some (st.len, hash)
cached_hash-hash root D Ds c dirty rel st now hash found trusts known h =
    let (s, ns, parts, is_hit) = cached_hash-hit c dirty rel st now hash h in
    let (text, looked, parses) = hit-lookup c rel st now s ns hash is_hit in
    let (e, is_entry, len, mtime_s, mtime_ns, inode, is_text) =
      lookup-entry c rel st.len s ns st.inode now text looked in
    IsKnown-hash D (root ++ rel) st e hash Ds found trusts (known rel e is_entry) len
      (cc (mtime_parts-modified st s ns parts, mtime_s, mtime_ns)) inode (cc (parses, is_text))

lookup-upsert_entries :
    (c : ManifestCache) (p q : FilePath) (e f : CachedEntry)
    → Dict.lookup q (upsert p e c).entries ≡ some f
    → (Dict.lookup q c.entries ≡ some f) ⊎ ((q ≡ p) × (f ≡ e))
unfolding upsert
lookup-upsert_entries c p q e f h = elim (Bool-cases (is_entry (Dict.lookup p c.entries) e)) [
  | inl kept ↦ inl (ground (arith, kept, h))
  | inr new ↦ elim (Bool-cases (q == p)) [
    | inl same ↦
        inr (ground (arith, same), ground (arith, new, same, h, Dict.lookup-insert q p e c.entries))
    | inr other ↦ inl (ground (arith, new, other, h, Dict.lookup-insert q p e c.entries))
  ]
]

pub upsert-IsHistory :
    (root : FilePath) (Ds : List Disk) (c : ManifestCache) (p : FilePath) (e : CachedEntry)
    → IsHistory root Ds c
    → IsKnown (root ++ p) e Ds
    → IsHistory root Ds (upsert p e c)
upsert-IsHistory root Ds c p e known new q f h = elim (lookup-upsert_entries c p q e f h) [
  | inl before ↦ known q f before
  | inr (path, entry) ↦ rw (path, entry) new
]

lookup-retain_existing :
    (existing : List FilePath) (p : FilePath) (d : Dict FilePath CachedEntry)
    → Dict.lookup p (Dict.retain (λ q _. contains existing q) d)
      ≡ (if contains existing p then Dict.lookup p d else none)
unfolding Dict.retain Dict.lookup
lookup-retain_existing existing p [] = ground arith
lookup-retain_existing existing p ((q, f) ∷ d) = ground (arith, lookup-retain_existing existing p d)

pub prune_missing-IsHistory :
    (root : FilePath) (Ds : List Disk) (c : ManifestCache) (existing : List FilePath)
    → IsHistory root Ds c
    → IsHistory root Ds (prune_missing existing c).0
unfolding prune_missing
prune_missing-IsHistory root Ds c existing known p e h =
    known p e (ground (arith, h, lookup-retain_existing existing p c.entries))

hash_file_tiered-len :
    (D : Disk) (full : FilePath) (st : Stat) (size : ℕ) (hash : Hash)
    → D.metadata full ≡ some st
    → hash_file_tiered D full ≡ some (size, hash)
    → size ≡ st.len
unfolding hash_file_tiered tiered with_size
hash_file_tiered-len D full st size hash found h = ground (arith, found, h)

-- An entry for a file that was just hashed.
pub new_entry-IsRecordOf :
    (D : Disk) (full : FilePath) (st : Stat) (size s ns : ℕ) (hash : Hash)
    → HasDigests D
    → D.metadata full ≡ some st
    → hash_file_tiered D full ≡ some (size, hash)
    → mtime_parts st ≡ some (s, ns)
    → IsRecordOf D full (new_entry st size hash (s, ns))
unfolding new_entry
new_entry-IsRecordOf D full st size s ns hash digests found hashed parts =
    let (len, bytes) = digests full size hash hashed in
    let same : size ≡ st.len = hash_file_tiered-len D full st size hash found hashed in
    record {
      st = st;
      hash = hash;
      found = found;
      same_len = same;
      same_mtime = mtime_parts-modified st s ns parts;
      same_inode = refl;
      hashed_as = rw (sym same) hashed;
      parses = parse_hex32-hex hash len bytes;
    }
