-- ===== src/Tests/Data.antt =====
-- The inputs of the tests: a small disk, a file and its directory, two ledgers, an engine.
use byte_hive.Base.{ℕ, suc, Bool, true, false, none, some}
use byte_hive.Base.{[], ◌∷◌, codes, list_eq, nat_eq}
use byte_hive.Base.Dict
use byte_hive.Base.Dict.{Dict}
use byte_hive.Base.Paths.{FilePath, normal, component_eq}
use byte_hive.Protocol.{FileMetadata, FileBundle, Manifest}
use byte_hive.Ledger
use byte_hive.Ledger.{Tombstone, DeletionLedger}
use byte_hive.Ledger.Invariant
use byte_hive.SyncEngine.{Fs, SyncEngine, LargeFileAssembly}
use byte_hive.SyncEngine.Sound.{IsSound}

-- The paths `docs` and `docs/a`, and two versions of a file.
abbrev pub docs : FilePath
docs = normal (codes "docs") ∷ []

abbrev pub file : FilePath
file = normal (codes "docs") ∷ normal (codes "a") ∷ []

abbrev pub meta_at : ℕ → ℕ → FileMetadata
meta_at byte mtime = record {
  rel_path = file;
  size = 1;
  hash = byte ∷ [];
  modified_ms = mtime;
  change_sequence = 0;
  is_dir = false;
}

abbrev pub manifest_of : FileMetadata → Manifest
manifest_of m = record { files = (file, m) ∷ []; node_id = codes "n" }

-- `docs` was deleted at 50, and a file was written at 20.
abbrev pub deleted : DeletionLedger
deleted = Ledger.record_tombstone Ledger.new docs 50 (codes "n") none none

abbrev pub touched : DeletionLedger
touched = (Ledger.record_alive Ledger.new file 20).0

abbrev pub tomb : Tombstone
tomb = record {
  path = docs;
  deleted_at_ms = 50;
  deleter_node = codes "n";
  prev_hash = none;
  prev_mtime_ms = none;
}

pub deleted-IsLive : Invariant.IsLive deleted
deleted-IsLive =
    Invariant.Reach-IsLive
      (Invariant.later Invariant.start (Invariant.tombstone docs 50 (codes "n") none none))

pub touched-IsLive : Invariant.IsLive touched
touched-IsLive = Invariant.Reach-IsLive (Invariant.later Invariant.start (Invariant.alive file 20))

-- A disk that counts the calls that change it. Every file on it has the hash 7.
abbrev pub counted : ℕ → ℕ × Bool
counted w = (suc w, true)

abbrev pub disk : Fs
disk = record {
  World = ℕ;
  now_ms = λ w. 1000;
  now_secs = λ w. 1;
  blake3 = λ bytes. bytes;
  hash_file = λ w p. some (7 ∷ []);
  exists = λ w p. true;
  is_dir = λ w p. false;
  modified_ms = λ w p. none;
  create_dir_all = λ p. counted;
  copy = λ p q. counted;
  write = λ p bytes. counted;
  create_sized = λ p n. counted;
  write_at = λ p n bytes. counted;
  set_mtime = λ p n w. suc w;
  rename = λ p q. counted;
  remove_file = λ p w. suc w;
  move_to_trash = λ p q n w. suc w;
  save_ledger = λ p l. counted;
}

-- A transfer of three chunks of which the second has come.
abbrev pub transfer : LargeFileAssembly
transfer = record {
  tmp_path = docs;
  total_chunks = 3;
  received = 1 ∷ [];
  expected_hash = 9 ∷ [];
  dst = file;
  file_size = 1;
  modified_ms = 60;
  action_ms = none;
  final_hash_pending = none;
}

abbrev pub engine_with : Dict FilePath LargeFileAssembly → DeletionLedger → SyncEngine ℕ
engine_with in_progress ledger = record {
  root = [];
  node_id = codes "n";
  manifest = record { files = []; node_id = codes "n" };
  ledger = ledger;
  ledger_dirty = false;
  suppressed = [];
  suppressed_deletes = [];
  in_progress = in_progress;
  timers = [];
  world = 0;
}

abbrev pub engine : SyncEngine ℕ
engine = engine_with [] Ledger.new

pub engine-IsSound : IsSound engine
unfolding Dict.lookup
engine-IsSound = record {
  live = Invariant.new-IsLive;
  tidy = record { nodup = tt; safe = λ p m e. cc; keyed = λ p m e. cc };
  transfers = λ p a e. cc;
}

abbrev pub bundle_of : FileMetadata → FileBundle
bundle_of m = record {
  files = record { metadata = m; content = 1 ∷ []; action_ms = none } ∷ [];
  bundle_id = 1;
}
