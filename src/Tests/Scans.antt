-- ===== src/Tests/Scans.antt =====
-- Scans of the root at concrete inputs.
use byte_hive.Base.{ℕ, false, none, some, List, [], ◌∷◌, codes, ◌≡◌, refl, arith, All}
use byte_hive.Base.{length, nat_eq, list_eq, zero, suc}
use mathlib.Core.Path.{subst}
use byte_hive.Hex.{IsByte}
use byte_hive.Base.Paths.{FilePath, normal, component_eq}
use byte_hive.Protocol.{Hash}
use byte_hive.ManifestCache.{new}
use byte_hive.Manifest.Scan.{
  Disk, Stat, hash_file_tiered, tiered, with_size, zero_bytes, tier_mmap_min_bytes,
}
use byte_hive.Manifest.Scan.Known.{Trusts, HasDigests}
use byte_hive.Manifest.Scan.Rescan.{scans, full_scans, TrustsEarlier, scans-full_scans}

abbrev stat : Stat
stat = record { is_dir = false; len = 5; modified = some (7, 0); inode = 3 }

abbrev zeros : Hash
zeros = zero_bytes 32

abbrev name : FilePath
name = normal (102 ∷ []) ∷ []

-- Every path is a file of five bytes. The clock differs between the scans.
abbrev disk : ℕ → Disk
disk now = record {
  metadata = λ p. some stat;
  mmap_hash = λ p. none;
  read_hash = λ p. some zeros;
  now_ms = λ p. now;
  walk = some name ∷ none ∷ [];
}

abbrev rounds : List (Disk × List FilePath)
rounds = (disk 8000, []) ∷ (disk 90000, []) ∷ (disk 90001, name ∷ []) ∷ []

disk-Trusts : (m n : ℕ) → Trusts (disk m) (disk n)
unfolding hash_file_tiered tiered with_size tier_mmap_min_bytes zero_bytes
disk-Trusts m n full st st' hash found found' len modified inode h =
    ground (arith, h, len, found, found')

length-zero_bytes : (n : ℕ) → (length (zero_bytes n) ≡ n) × All IsByte (zero_bytes n)
unfolding zero_bytes
length-zero_bytes zero = (refl, tt)
length-zero_bytes (suc n) =
    let (len, bytes) = length-zero_bytes n in (ground (arith, len), (omega arith, bytes))

disk-HasDigests : (n : ℕ) → HasDigests (disk n)
unfolding hash_file_tiered tiered with_size tier_mmap_min_bytes
disk-HasDigests n full size hash h =
    let e : zeros ≡ hash = ground (arith, h) in
    subst (λ d. (length d ≡ 32) × All IsByte d) e (length-zero_bytes 32)

rounds-TrustsEarlier : TrustsEarlier [] (λ p. false) (codes "n") [] rounds
rounds-TrustsEarlier = (
  tt,
  disk-HasDigests 8000,
  (
    (disk-Trusts 8000 90000, tt),
    disk-HasDigests 90000,
    ((disk-Trusts 90000 90001, (disk-Trusts 8000 90001, tt)), disk-HasDigests 90001, tt),
  ),
)

scans-full_scans_example :
    scans [] (λ p. false) (codes "n") rounds new ≡ full_scans [] (λ p. false) (codes "n") rounds
scans-full_scans_example = scans-full_scans [] (λ p. false) (codes "n") rounds rounds-TrustsEarlier
