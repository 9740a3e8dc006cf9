-- ===== src/Manifest/Scan/Rescan.antt =====
-- Scans with the cache of the scans before, against scans that hash every file.
use byte_hive.Base.{Bool, Option, none, some, List, [], ◌∷◌, Text}
use byte_hive.Base.{◌≡◌, refl, inl, inr, All, ap}
use byte_hive.Base.Dict
use byte_hive.Base.Dict.{Dict}
use byte_hive.Base.Paths.{FilePath}
use byte_hive.Protocol.{FileMetadata, Manifest}
use byte_hive.ManifestCache.{ManifestCache, CachedEntry, new}
use byte_hive.Manifest.Scan.{
  Disk, BuildOutcome, hash_one, walked, upsert_some, add_outcome, collect, finish, start,
  build_manifest,
}
use byte_hive.Manifest.Scan.Known.{
  IsKnown, IsHistory, Trusts, HasDigests, upsert-IsHistory, prune_missing-IsHistory,
}
use byte_hive.Manifest.Scan.Outcomes.{
  listed, IsRecorded, Records, hash_one-listed, hash_one-Records,
}

module _ (root : FilePath) (excluded : FilePath → Bool) (D : Disk) where
  -- The loop over the outcomes lists the same files.
  add_outcome-files :
      (o o' : Option BuildOutcome) (acc acc' : Dict FilePath FileMetadata × ManifestCache)
      → listed o ≡ listed o'
      → acc.0 ≡ acc'.0
      → (add_outcome root excluded D o acc).0 ≡ (add_outcome root excluded D o' acc').0
  unfolding add_outcome listed
  add_outcome-files none none (files, c) (files', c') e same = same
  add_outcome-files none (some p) (files, c) (files', c') e same = cc
  add_outcome-files (some o) none (files, c) (files', c') e same = cc
  add_outcome-files (some o) (some p) (files, c) (files', c') e same = cc

  collect-files :
      (Ds : List Disk) (c : ManifestCache) (dirty dirty' rels : List FilePath)
      (acc acc' : Dict FilePath FileMetadata × ManifestCache)
      → All (λ past. Trusts past D) Ds
      → IsHistory root Ds c
      → acc.0 ≡ acc'.0
      → (collect root excluded D (some c) dirty rels acc).0
        ≡ (collect root excluded D none dirty' rels acc').0
  unfolding collect
  collect-files Ds c dirty dirty' [] acc acc' trusts known same = same
  collect-files Ds c dirty dirty' (rel ∷ rels) acc acc' trusts known same =
      collect-files Ds c dirty dirty' rels
        (add_outcome root excluded D (hash_one root excluded D (some c) dirty rel) acc)
        (add_outcome root excluded D (hash_one root excluded D none dirty' rel) acc') trusts known
        (add_outcome-files (hash_one root excluded D (some c) dirty rel)
          (hash_one root excluded D none dirty' rel) acc acc'
          (hash_one-listed root excluded D Ds c dirty dirty' rel trusts known) same)

  upsert_some-IsHistory :
      (Ds : List Disk) (entry : Option (FilePath × CachedEntry)) (c : ManifestCache)
      → IsRecorded root D entry
      → IsHistory root (D ∷ Ds) c
      → IsHistory root (D ∷ Ds) (upsert_some root excluded D entry c)
  unfolding upsert_some IsRecorded IsKnown
  upsert_some-IsHistory Ds none c recorded known = known
  upsert_some-IsHistory Ds (some (p, e)) c recorded known =
      upsert-IsHistory root (D ∷ Ds) c p e known (inl recorded)

  add_outcome-IsHistory :
      (Ds : List Disk) (o : Option BuildOutcome) (acc : Dict FilePath FileMetadata × ManifestCache)
      → Records root D o
      → IsHistory root (D ∷ Ds) acc.1
      → IsHistory root (D ∷ Ds) (add_outcome root excluded D o acc).1
  unfolding add_outcome Records
  add_outcome-IsHistory Ds none (files, c) records known = known
  add_outcome-IsHistory Ds (some o) (files, c) records known =
      upsert_some-IsHistory Ds o.cache_upsert c records known

  collect-IsHistory :
      (Ds : List Disk) (cache : Option ManifestCache) (dirty rels : List FilePath)
      (acc : Dict FilePath FileMetadata × ManifestCache)
      → HasDigests D
      → IsHistory root (D ∷ Ds) acc.1
      → IsHistory root (D ∷ Ds) (collect root excluded D cache dirty rels acc).1
  unfolding collect
  collect-IsHistory Ds cache dirty [] acc digests known = known
  collect-IsHistory Ds cache dirty (rel ∷ rels) acc digests known =
      collect-IsHistory Ds cache dirty rels
        (add_outcome root excluded D (hash_one root excluded D cache dirty rel) acc) digests
        (add_outcome-IsHistory Ds (hash_one root excluded D cache dirty rel) acc
          (hash_one-Records root excluded D cache dirty rel digests) known)

  -- One scan with a cache of earlier scans lists what a scan without one lists.
  build_manifest-uncached :
      (Ds : List Disk) (node_id : Text) (c : ManifestCache) (dirty dirty' : List FilePath)
      → All (λ past. Trusts past D) Ds
      → IsHistory root Ds c
      → (build_manifest root excluded D node_id (some c) dirty).0
        ≡ (build_manifest root excluded D node_id none dirty').0
  unfolding build_manifest finish start
  build_manifest-uncached Ds node_id c dirty dirty' trusts known =
      ap (λ files. record { files = files; node_id = node_id })
        (collect-files Ds c dirty dirty' (walked root excluded D D.walk) ([], c) ([], new) trusts
          known refl)

  build_manifest-IsHistory :
      (Ds : List Disk) (node_id : Text) (c : ManifestCache) (dirty : List FilePath)
      → HasDigests D
      → IsHistory root Ds c
      → IsHistory root (D ∷ Ds) (build_manifest root excluded D node_id (some c) dirty).1
  unfolding build_manifest finish start IsKnown
  build_manifest-IsHistory Ds node_id c dirty digests known =
      prune_missing-IsHistory root (D ∷ Ds) _ _ (
        collect-IsHistory Ds (some c) dirty (walked root excluded D D.walk) ([], c) digests
          (λ p e h. inr (known p e h)))

module _ (root : FilePath) (excluded : FilePath → Bool) (node_id : Text) where
  -- Scans of the root one after the other, each with the cache that the one before has returned.
  -- A scan is its disk and the paths that the watcher reports.
  pub scans : List (Disk × List FilePath) → ManifestCache → List Manifest
  scans [] c = []
  scans ((D, dirty) ∷ rounds) c =
      let (m, updated) = build_manifest root excluded D node_id (some c) dirty in
      m ∷ scans rounds updated

  -- The same scans, where each hashes every file.
  pub full_scans : List (Disk × List FilePath) → List Manifest
  full_scans [] = []
  full_scans ((D, dirty) ∷ rounds) =
      (build_manifest root excluded D node_id none []).0 ∷ full_scans rounds

  -- Each scan trusts those before it.
  abbrev pub TrustsEarlier : List Disk → List (Disk × List FilePath) → Type 0
  TrustsEarlier past [] = Unit
  TrustsEarlier past ((D, dirty) ∷ rounds) =
      All (λ P. Trusts P D) past × HasDigests D × TrustsEarlier (D ∷ past) rounds

  scans-history :
      (past : List Disk) (rounds : List (Disk × List FilePath)) (c : ManifestCache)
      → TrustsEarlier past rounds
      → IsHistory root past c
      → scans rounds c ≡ full_scans rounds
  unfolding scans full_scans
  scans-history past [] c _ known = refl
  scans-history past ((D, dirty) ∷ rounds) c (trusts, digests, later) known = cc (
    build_manifest-uncached root excluded D past node_id c dirty [] trusts known,
    scans-history (D ∷ past) rounds (build_manifest root excluded D node_id (some c) dirty).1 later
        (build_manifest-IsHistory root excluded D past node_id c dirty digests known),
  )

  -- Scans that go on from an empty cache, each with the cache that the one before has returned, give
  -- the manifests of scans that hash every file. A file whose length, modification time and inode
  -- are those of an earlier scan has the content that it had then and can still be read, and hashes
  -- have 32 bytes.
  pub scans-full_scans :
      (rounds : List (Disk × List FilePath))
      → TrustsEarlier [] rounds
      → scans rounds new ≡ full_scans rounds
  unfolding Dict.lookup
  scans-full_scans rounds trusted = scans-history [] rounds new trusted (λ p e h. cc)
