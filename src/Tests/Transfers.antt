-- ===== src/Tests/Transfers.antt =====
-- Runs and examples of the bundler, on a disk with a directory, a small file and nothing else.
use byte_hive.Base.{ℕ, ◌≤◌, true, false, Option, none, some, List, [], ◌∷◌, ◌≡◌}
use byte_hive.Base.{refl, arith, length, All, list_eq, ◌==◌, if◌then◌else◌}
use byte_hive.Base.Paths.{FilePath, normal, component_eq}
use byte_hive.Protocol.{Message}
use byte_hive.Bundler.{Source, FileStat, Sender, stream_large_file, stream_messages}
use byte_hive.Bundler.Chunks.{IsTransfer, stream_large_file-IsTransfer}
use byte_hive.Bundler.Order.{announced, stream_messages_lem}
use byte_hive.Bundler.Bounds.{IsBounded, stream_messages-IsBounded}

abbrev dir_path : FilePath
dir_path = normal (100 ∷ []) ∷ []

abbrev file_path : FilePath
file_path = normal (102 ∷ []) ∷ []

abbrev lost_path : FilePath
lost_path = normal (120 ∷ []) ∷ []

abbrev stat_of : FilePath → Option FileStat
stat_of p =
    if p == dir_path
    then some (record { len = 4096; is_dir = true; modified_ms = 7 })
    else if p == file_path
    then some (record { len = 3; is_dir = false; modified_ms = 9 })
    else none

abbrev disk : Source
disk = record {
  metadata = stat_of;
  read = λ p. some (1 ∷ 2 ∷ 3 ∷ []);
  hash_file = λ p. none;
  open_file = λ p. none;
  blake3 = λ bytes. [];
  stamp = λ p at. none;
}

stream_messages_lem_example :
    announced (stream_messages disk [] (dir_path ∷ lost_path ∷ file_path ∷ []) 1 (some 4)).sent
    ≡ dir_path ∷ file_path ∷ []
unfolding component_eq list_eq
stream_messages_lem_example =
    stream_messages_lem disk [] (dir_path ∷ lost_path ∷ file_path ∷ []) 1 (some 4)

disk_unchanged :
    (p : FilePath) (stat : FileStat) (content : List ℕ)
    → disk.metadata p ≡ some stat
    → disk.read p ≡ some content
    → length content ≤ stat.len
disk_unchanged p stat content h k = ground (arith, h, k)

stream_messages-IsBounded_example :
    All IsBounded (stream_messages disk [] (dir_path ∷ lost_path ∷ file_path ∷ []) 1 (some 4)).sent
stream_messages-IsBounded_example =
    stream_messages-IsBounded disk [] disk_unchanged (dir_path ∷ lost_path ∷ file_path ∷ []) 1
      (some 4)

-- A disk whose files are read to their end, with three bytes.
abbrev readable : Source
readable = record disk {
  hash_file = λ p. some (7 ∷ []);
  open_file = λ p. some (1 ∷ 2 ∷ 3 ∷ [], true);
}

abbrev three_bytes : FileStat
three_bytes = record { len = 3; is_dir = false; modified_ms = 9 }

abbrev sender : Sender
sender = record { cur = []; cur_bytes = 0; sent = []; next_id = 1; sequence = some 4 }

stream_large_file-IsTransfer_example :
    (messages : List Message) × ((stream_large_file readable [] file_path three_bytes sender).sent
      ≡ messages)
    × IsTransfer file_path (1 ∷ 2 ∷ 3 ∷ []) (7 ∷ []) none messages
stream_large_file-IsTransfer_example =
    stream_large_file-IsTransfer readable [] file_path three_bytes sender (1 ∷ 2 ∷ 3 ∷ []) (7 ∷ [])
      refl refl refl (omega arith) (omega arith)
