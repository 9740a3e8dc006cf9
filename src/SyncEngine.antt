-- ===== src/SyncEngine.antt =====
-- crates/filesync/src/sync_engine.rs: the engine's state, and what it does with the deletion ledger.
-- The file system, the clock, the trash and blake3 are the parameter `Fs`. A path of the file system
-- is the root's components followed by the relative ones. A lock is held for the whole of an
-- operation here, and a spawned timer is an entry of `timers`.
pub mod Paths
pub mod Admission
pub mod Actions
pub mod Sound
pub mod Bundle
pub mod LargeFile
pub mod Deletes
pub mod Rename
pub mod Operations
use byte_hive.Base.{ℕ, ◌+◌, ◌≡◌, Bool, true, false, ◌&&◌, ◌||◌, not, Option, none, some}
use byte_hive.Base.{List, [], ◌∷◌, ◌++◌, Text, codes, all, contains, length, ltb, if◌then◌else◌}
use byte_hive.Base.{list_eq, nat_eq, ◌==◌}
use byte_hive.Base.Dict
use byte_hive.Base.Dict.{Dict}
use byte_hive.Base.Paths.{FilePath, Component, normal, component_eq}
use byte_hive.Protocol.{FileMetadata, Manifest, TombstoneDto, Hash}
use byte_hive.Hex.{hex}
use byte_hive.Ledger
use byte_hive.Ledger.{Tombstone, DeletionLedger}

pub data IoError : Type 0 where
  io : IoError
  invalid_data : IoError

pub data IoResult {ℓ} (A : Type ℓ) : Type ℓ where
  ok : A → IoResult A
  err : IoError → IoResult A

-- What the engine takes from the operating system and from third-party crates. A call returns the
-- new world and whether it succeeded.
pub record Fs : Type 1 where
  pub World : Type 0
  pub now_ms : World → ℕ
  pub now_secs : World → ℕ
  pub blake3 : List ℕ → Hash
  pub hash_file : World → FilePath → Option Hash
  pub exists : World → FilePath → Bool
  pub is_dir : World → FilePath → Bool
  pub modified_ms : World → FilePath → Option ℕ
  pub create_dir_all : FilePath → World → World × Bool
  pub copy : FilePath → FilePath → World → World × Bool
  pub write : FilePath → List ℕ → World → World × Bool
  pub create_sized : FilePath → ℕ → World → World × Bool
  pub write_at : FilePath → ℕ → List ℕ → World → World × Bool
  pub set_mtime : FilePath → ℕ → World → World
  pub rename : FilePath → FilePath → World → World × Bool
  pub remove_file : FilePath → World → World
  pub move_to_trash : FilePath → FilePath → Text → World → World
  pub save_ledger : FilePath → DeletionLedger → World → World × Bool

pub record LargeFileAssembly : Type 0 where
  pub tmp_path : FilePath
  pub total_chunks : ℕ
  pub received : List ℕ
  pub expected_hash : Hash
  pub dst : FilePath
  pub file_size : ℕ
  pub modified_ms : ℕ
  pub action_ms : Option ℕ
  pub final_hash_pending : Option Hash

pub data Timer : Type 0 where
  unsuppress : List FilePath → Timer
  unsuppress_deletes : List FilePath → Timer

pub record SyncEngine (W : Type 0) : Type 0 where
  pub root : FilePath
  pub node_id : Text
  pub manifest : Manifest
  pub ledger : DeletionLedger
  pub ledger_dirty : Bool
  pub suppressed : List FilePath
  pub suppressed_deletes : List FilePath
  pub in_progress : Dict FilePath LargeFileAssembly
  pub timers : List Timer
  pub world : W

-- A method that may fail keeps the state that it had reached.
abbrev pub Io : Type 0 → Type 0 → Type 0
Io W A = SyncEngine W → IoResult A × SyncEngine W

abbrev pub continue : {W A B : Type 0} → IoResult A → (A → Io W B) → Io W B
continue (ok a) f s = f a s
continue (err e) f s = (err e, s)

infixl 10 ◌>>=◌ ◌>>◌
unfoldable pub ◌>>=◌ : {W A B : Type 0} → Io W A → (A → Io W B) → Io W B
◌>>=◌ m f s = let (r, s') = m s in continue r f s'

abbrev pub ◌>>◌ : {W A B : Type 0} → Io W A → Io W B → Io W B
m >> k = m >>= λ _. k

unfoldable pub pure : {W A : Type 0} → A → Io W A
pure a s = (ok a, s)

unfoldable pub fail : {W A : Type 0} → IoError → Io W A
fail e s = (err e, s)

-- The state as it is now.
unfoldable pub state : {W : Type 0} → Io W (SyncEngine W)
state s = (ok s, s)

unfoldable pub modify : {W : Type 0} → (SyncEngine W → SyncEngine W) → Io W (Unit {0})
modify f s = (ok tt, f s)

-- `if let Some(a) = o { f a } else { k }`
unfoldable pub if_some : {W A B : Type 0} → Option A → (A → Io W B) → Io W B → Io W B
if_some none f k = k
if_some (some a) f k = f a

-- `HashSet::insert` and `HashSet::remove`
abbrev pub set_insert : FilePath → List FilePath → List FilePath
set_insert p set = if contains set p then set else p ∷ set
