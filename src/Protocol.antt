-- ===== src/Protocol.antt =====
-- crates/filesync/src/protocol.rs: the constants, the records and the messages of the wire
-- protocol. A hash is its list of bytes.
use byte_hive.Base.{ℕ, ◌*◌, Bool, Option, List, Text}
use byte_hive.Base.Dict.{Dict}
use byte_hive.Base.Paths.{FilePath}

abbrev pub bundle_max_bytes : ℕ
bundle_max_bytes = 8 * 1024 * 1024

abbrev pub bundle_max_files : ℕ
bundle_max_files = 500

abbrev pub large_file_threshold : ℕ
large_file_threshold = 8 * 1024 * 1024

abbrev pub file_chunk_size : ℕ
file_chunk_size = 8 * 1024 * 1024

abbrev pub max_frame_bytes : ℕ
max_frame_bytes = 32 * 1024 * 1024

-- `[u8; 32]`
abbrev pub Hash : Type 0
Hash = List ℕ

pub record FileMetadata : Type 0 where
  pub rel_path : FilePath
  pub size : ℕ
  pub hash : Hash
  pub modified_ms : ℕ
  pub change_sequence : ℕ
  pub is_dir : Bool

pub record Manifest : Type 0 where
  pub files : Dict FilePath FileMetadata
  pub node_id : Text

pub record FileData : Type 0 where
  pub metadata : FileMetadata
  pub content : List ℕ
  pub action_ms : Option ℕ

pub record FileBundle : Type 0 where
  pub files : List FileData
  pub bundle_id : ℕ

pub record TombstoneDto : Type 0 where
  pub path : FilePath
  pub deleted_at_ms : ℕ
  pub deleter_node : Text
  pub prev_hash : Option Text
  pub prev_mtime_ms : Option ℕ
  pub alive : Bool

pub data Message : Type 0 where
  hello : (node_id : Text) (protocol_version : ℕ) (credential : Option Text) → Message
  approval_pending : (fingerprint : Text) → Message
  rejected : (reason : Text) → Message
  manifest_exchange : Manifest → Message
  bundle : FileBundle → Message
  change_acknowledgment : (bundle_id : ℕ) (sequence_numbers : List ℕ) → Message
  delete : (paths : List FilePath) (deleted_at_ms : ℕ) (deleter : Text) → Message
  ledger_exchange : (entries : List TombstoneDto) → Message
  ledger_ack : (received : ℕ) → Message
  sync_complete : Message
  large_file_start : (metadata : FileMetadata) (total_chunks : ℕ) (action_ms : Option ℕ) → Message
  large_file_chunk : (path : FilePath) (chunk_index : ℕ) (bytes : List ℕ) → Message
  large_file_end : (path : FilePath) (final_hash : Hash) → Message
  request_chunks : (path : FilePath) (chunk_indices : List ℕ) → Message
  rename : (source target : FilePath) (action_ms : ℕ) → Message
  insufficient_disk_space : (available_bytes required_bytes : ℕ) → Message
  ping : Message
  pong : Message
  action_batch_end : (upto_seq : ℕ) → Message
  action_batch_ack : (upto_seq : ℕ) → Message
