-- ===== src/Bundler.antt =====
-- crates/filesync/src/bundler.rs: the files of a transfer packed into bundles, and large files cut
-- into chunks. What the sender reads of the disk is the parameter `Source`, and what it sends is
-- the list `sent`; a send never reports an error.
pub mod Chunks
pub mod Order
pub mod Bounds
use byte_hive.Base.{ℕ, zero, suc, ◌+◌, ◌*◌, ◌/◌, ◌-◌, ◌%◌, ◌^◌, max, Bool, true, false, ◌&&◌, ◌||◌}
use byte_hive.Base.{not, Option, none, some, List, [], ◌∷◌, ◌++◌, if◌then◌else◌, leb, ltb, length}
use byte_hive.Base.Paths.{FilePath}
use byte_hive.Protocol.{
  Hash, FileMetadata, FileData, FileBundle, Message, bundle, large_file_start, large_file_chunk,
  large_file_end, bundle_max_bytes, bundle_max_files, large_file_threshold, file_chunk_size,
}

pub record FileStat : Type 0 where
  pub len : ℕ
  pub is_dir : Bool
  pub modified_ms : ℕ

-- The disk while a transfer is read, and the stamp of a file. `open_file` gives the bytes up to the
-- end of the file, or up to a read error, which is `false`.
pub record Source : Type 0 where
  pub metadata : FilePath → Option FileStat
  pub read : FilePath → Option (List ℕ)
  pub hash_file : FilePath → Option Hash
  pub open_file : FilePath → Option (List ℕ × Bool)
  pub blake3 : List ℕ → Hash
  pub stamp : FilePath → ℕ → Option ℕ

-- The local variables of `stream_messages`, the counter of bundle ids, and the last sequence number
-- of the engine, where there is one.
pub record Sender : Type 0 where
  pub cur : List FileData
  pub cur_bytes : ℕ
  pub sent : List Message
  pub next_id : ℕ
  pub sequence : Option ℕ

-- `engine.record_file_change(rel)`, or 0 without an engine
abbrev pub change_sequence : Option ℕ → ℕ
change_sequence none = 0
change_sequence (some n) = (n + 1) % 2 ^ 64

abbrev pub next_sequence : Option ℕ → Option ℕ
next_sequence none = none
next_sequence (some n) = some ((n + 1) % 2 ^ 64)

unfoldable pub take : ℕ → List ℕ → List ℕ
take n [] = []
take zero (x ∷ xs) = []
take (suc n) (x ∷ xs) = x ∷ take n xs

unfoldable pub drop : ℕ → List ℕ → List ℕ
drop n [] = []
drop zero (x ∷ xs) = x ∷ xs
drop (suc n) (x ∷ xs) = drop n xs

unfoldable pub flush_list : List FileData → Sender → Sender
flush_list [] s = s
flush_list (f ∷ fs) s = record {
  cur = [];
  cur_bytes = 0;
  sent = s.sent ++ bundle (record { files = f ∷ fs; bundle_id = s.next_id }) ∷ [];
  next_id = (s.next_id + 1) % 2 ^ 64;
  sequence = s.sequence;
}

unfoldable pub flush_bundle : Sender → Sender
unfolding flush_list
flush_bundle s = flush_list s.cur s

-- The loop of `stream_large_file` over what is left of the file: the chunks sent, and whether the
-- end was reached. A chunk that a read error cuts short is not sent. Fuel: each round takes a byte.
unfoldable pub send_chunks : ℕ → FilePath → ℕ → List ℕ → Bool → List Message × Bool
unfolding take drop
send_chunks zero rel chunk_index bytes ok = ([], ok)
send_chunks (suc fuel) rel chunk_index [] ok = ([], ok)
send_chunks (suc fuel) rel chunk_index (b ∷ bytes) ok =
    let rest =
      send_chunks fuel rel ((chunk_index + 1) % 2 ^ 32) (drop file_chunk_size (b ∷ bytes)) ok in
    if not ok && ltb (length (b ∷ bytes)) file_chunk_size
    then ([], false)
    else (large_file_chunk rel chunk_index (take file_chunk_size (b ∷ bytes)) ∷ rest.0, rest.1)

abbrev pub total_chunks : ℕ → ℕ
total_chunks file_size = max ((file_size + file_chunk_size - 1) / file_chunk_size) 1 % 2 ^ 32

abbrev pub send : List Message → Sender → Sender
send messages s = record s { sent = s.sent ++ messages }

-- The end of `stream_large_file`, for what the loop sent.
abbrev pub close_large : FilePath → Hash → List Message × Bool → List Message
close_large rel final_hash (chunks, true) = chunks ++ large_file_end rel final_hash ∷ []
close_large rel final_hash (chunks, false) = chunks

-- The chunks and the end, for a file that could be opened.
abbrev pub large_body : FilePath → Hash → Option (List ℕ × Bool) → List Message
large_body rel final_hash none = []
large_body rel final_hash (some (bytes, ok)) =
    close_large rel final_hash (send_chunks (length bytes) rel 0 bytes ok)

unfoldable pub metadata_of : FilePath → ℕ → Hash → FileStat → Bool → Option ℕ → FileMetadata
metadata_of rel size hash stat is_dir sequence = record {
  rel_path = rel;
  size = size;
  hash = hash;
  modified_ms = stat.modified_ms;
  change_sequence = change_sequence sequence;
  is_dir = is_dir;
}

-- `[0u8; 32]`
unfoldable pub zeros : ℕ → List ℕ
zeros zero = []
zeros (suc n) = 0 ∷ zeros n

abbrev pub push : FileData → Sender → Sender
push fd s = record s { cur = s.cur ++ fd ∷ []; sequence = next_sequence s.sequence }

-- A file of this size no longer fits.
abbrev pub is_full : ℕ → Sender → Bool
is_full size s =
    ltb 0 (length s.cur)
    && (leb bundle_max_files (length s.cur) || ltb bundle_max_bytes (s.cur_bytes + size))

unfoldable pub make_room : ℕ → Sender → Sender
unfolding flush_bundle
make_room size s = if is_full size s then flush_bundle s else s

module _ (S : Source) (root : FilePath) where
  -- The start and the body, for a file that could be hashed.
  unfoldable pub start_large : FilePath → FileStat → Option Hash → Sender → Sender
  unfolding send_chunks metadata_of
  start_large rel stat none s = s
  start_large rel stat (some final_hash) s = record s {
    sent =
        s.sent
        ++ large_file_start (metadata_of rel stat.len final_hash stat false s.sequence)
            (total_chunks stat.len) (S.stamp rel stat.modified_ms)
          ∷ large_body rel final_hash (S.open_file (root ++ rel));
    sequence = next_sequence s.sequence;
  }

  unfoldable pub stream_large_file : FilePath → FileStat → Sender → Sender
  unfolding start_large
  stream_large_file rel stat s = start_large rel stat (S.hash_file (root ++ rel)) s

  unfoldable pub add_dir : FilePath → FileStat → Sender → Sender
  unfolding metadata_of zeros
  add_dir rel stat s =
      push
        (record {
          metadata = metadata_of rel 0 (zeros 32) stat true s.sequence;
          content = [];
          action_ms = S.stamp rel stat.modified_ms;
        })
        s

  unfoldable pub add_content : FilePath → FileStat → List ℕ → Sender → Sender
  unfolding metadata_of
  add_content rel stat content s =
      push
        (record {
          metadata = metadata_of rel (length content) (S.blake3 content) stat false s.sequence;
          content = content;
          action_ms = S.stamp rel stat.modified_ms;
        })
        (record s { cur_bytes = s.cur_bytes + length content })

  unfoldable pub add_read : FilePath → FileStat → Option (List ℕ) → Sender → Sender
  unfolding make_room add_content
  add_read rel stat none s = s
  add_read rel stat (some content) s = add_content rel stat content (make_room (length content) s)

  unfoldable pub add_file : FilePath → FileStat → Sender → Sender
  unfolding add_read
  add_file rel stat s = add_read rel stat (S.read (root ++ rel)) s

  -- The body of the loop, for a path that has metadata.
  unfoldable pub stream_stat : FilePath → FileStat → Sender → Sender
  unfolding add_dir stream_large_file add_file flush_bundle
  stream_stat rel stat s =
      if stat.is_dir
      then add_dir rel stat s
      else if leb large_file_threshold stat.len
      then stream_large_file rel stat (flush_bundle s)
      else add_file rel stat s

  unfoldable pub stream_found : FilePath → Option FileStat → Sender → Sender
  unfolding stream_stat
  stream_found rel none s = s
  stream_found rel (some stat) s = stream_stat rel stat s

  unfoldable pub stream_path : FilePath → Sender → Sender
  unfolding stream_found
  stream_path rel s = stream_found rel (S.metadata (root ++ rel)) s

  unfoldable pub stream_paths : List FilePath → Sender → Sender
  unfolding stream_path
  stream_paths [] s = s
  stream_paths (rel ∷ rels) s = stream_paths rels (stream_path rel s)

  unfoldable pub stream_messages : List FilePath → ℕ → Option ℕ → Sender
  unfolding stream_paths flush_bundle
  stream_messages rel_paths next_id sequence = flush_bundle (
      stream_paths rel_paths
        (record { cur = []; cur_bytes = 0; sent = []; next_id = next_id; sequence = sequence }))
