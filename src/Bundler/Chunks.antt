-- ===== src/Bundler/Chunks.antt =====
-- The chunks of a large file in bundler.rs.
use byte_hive.Base.{
  ℕ, zero, suc, ◌+◌, ◌*◌, ◌/◌, ◌-◌, ◌%◌, ◌^◌, ◌≤◌, ◌<◌, true, false, Bool, Option, some, sym,
}
use byte_hive.Base.{List, [], ◌∷◌, ◌++◌, ◌≡◌, refl, ◌∙◌, ap, arith, length, All}
use byte_hive.Base.Paths.{FilePath}
use byte_hive.Protocol.{
  Message, FileMetadata, Hash, large_file_start, large_file_chunk, large_file_end, file_chunk_size,
}
use byte_hive.Bundler.{
  take, drop, send_chunks, total_chunks, close_large, stream_large_file, start_large, metadata_of,
  Source, FileStat, Sender,
}

take-drop : (n : ℕ) (xs : List ℕ) → take n xs ++ drop n xs ≡ xs
unfolding take drop
take-drop n [] = refl
take-drop zero (x ∷ xs) = refl
take-drop (suc n) (x ∷ xs) = ap (◌∷◌ x) (take-drop n xs)

length-drop : (n : ℕ) (xs : List ℕ) → length (drop n xs) ≡ length xs - n
unfolding drop
length-drop n [] = omega arith
length-drop zero (x ∷ xs) = omega arith
length-drop (suc n) (x ∷ xs) = omega (arith, length-drop n xs)

drop-drop : (m n k : ℕ) (xs : List ℕ) → k ≡ n + m → drop m (drop n xs) ≡ drop k xs
unfolding drop
drop-drop m n k [] h = refl
drop-drop m zero k (x ∷ xs) h = let e : m ≡ k = omega (arith, h) in ap (λ j. drop j (x ∷ xs)) e
drop-drop m (suc n) zero (x ∷ xs) h = absurd (omega (arith, h))
drop-drop m (suc n) (suc k) (x ∷ xs) h = drop-drop m n k xs (omega (arith, h))

-- The bytes that the chunks carry, in the order of sending.
unfoldable pub data_of : List Message → List ℕ
data_of [] = []
data_of (large_file_chunk path index bytes ∷ ms) = bytes ++ data_of ms
data_of (m ∷ ms) = data_of ms

-- A chunk of the file: its bytes are those at the offset that its index says.
abbrev pub IsPiece : FilePath → List ℕ → Message → Type 0
IsPiece rel content (large_file_chunk path index bytes) =
    (path ≡ rel) × (bytes ≡ take file_chunk_size (drop (index * file_chunk_size) content))
IsPiece rel content m = ⊥

send_chunks-data :
    (fuel : ℕ) (rel : FilePath) (i : ℕ) (bytes : List ℕ)
    → length bytes ≤ fuel
    → (data_of (send_chunks fuel rel i bytes true).0 ≡ bytes)
      × ((send_chunks fuel rel i bytes true).1 ≡ true)
unfolding send_chunks data_of
send_chunks-data zero rel i [] h = (refl, refl)
send_chunks-data zero rel i (b ∷ bs) h = absurd (omega (arith, h))
send_chunks-data (suc fuel) rel i [] h = (refl, refl)
send_chunks-data (suc fuel) rel i (b ∷ bs) h =
    let rest =
      send_chunks-data fuel rel ((i + 1) % 2 ^ 32) (drop file_chunk_size (b ∷ bs))
        (omega (arith, h, length-drop file_chunk_size (b ∷ bs))) in
    (
      ap (λ x. take file_chunk_size (b ∷ bs) ++ x) rest.0 ∙ take-drop file_chunk_size (b ∷ bs),
      rest.1,
    )

send_chunks-length :
    (fuel : ℕ) (rel : FilePath) (i : ℕ) (bytes : List ℕ)
    → length bytes ≤ fuel
    → length (send_chunks fuel rel i bytes true).0
      ≡ (length bytes + file_chunk_size - 1) / file_chunk_size
unfolding send_chunks
send_chunks-length zero rel i [] h = omega arith
send_chunks-length zero rel i (b ∷ bs) h = absurd (omega (arith, h))
send_chunks-length (suc fuel) rel i [] h = omega arith
send_chunks-length (suc fuel) rel i (b ∷ bs) h = omega (
  arith,
  send_chunks-length fuel rel ((i + 1) % 2 ^ 32) (drop file_chunk_size (b ∷ bs))
      (omega (arith, h, length-drop file_chunk_size (b ∷ bs))),
  length-drop file_chunk_size (b ∷ bs),
)

-- The file fits in the chunk numbers of a `u32`.
abbrev pub max_chunked : ℕ
max_chunked = (2 ^ 32 - 1) * file_chunk_size

send_chunks-IsPiece :
    (fuel : ℕ) (rel : FilePath) (i : ℕ) (bytes content : List ℕ)
    → bytes ≡ drop (i * file_chunk_size) content
    → length content ≤ max_chunked
    → All (IsPiece rel content) (send_chunks fuel rel i bytes true).0
unfolding send_chunks
send_chunks-IsPiece zero rel i bytes content e h = tt
send_chunks-IsPiece (suc fuel) rel i [] content e h = tt
send_chunks-IsPiece (suc fuel) rel i (b ∷ bs) content e h = (
  (refl, ap (take file_chunk_size) e),
  send_chunks-IsPiece fuel rel ((i + 1) % 2 ^ 32) (drop file_chunk_size (b ∷ bs)) content
      (ap (drop file_chunk_size) e
        ∙ drop-drop file_chunk_size (i * file_chunk_size) ((i + 1) % 2 ^ 32 * file_chunk_size)
            content
            (omega (arith, h, length-drop (i * file_chunk_size) content, ap (λ x. length x) e)))
      h,
)

send_chunks_lem :
    (rel : FilePath) (bytes : List ℕ)
    → 0 < length bytes
    → length bytes ≤ max_chunked
    → (data_of (send_chunks (length bytes) rel 0 bytes true).0 ≡ bytes)
      × ((send_chunks (length bytes) rel 0 bytes true).1 ≡ true)
      × (length (send_chunks (length bytes) rel 0 bytes true).0 ≡ total_chunks (length bytes))
      × All (IsPiece rel bytes) (send_chunks (length bytes) rel 0 bytes true).0
unfolding drop
send_chunks_lem rel bytes pos h =
    let (all, ended) = send_chunks-data (length bytes) rel 0 bytes (omega arith) in
    (
      all,
      ended,
      omega (arith, send_chunks-length (length bytes) rel 0 bytes (omega arith), pos, h),
      send_chunks-IsPiece (length bytes) rel 0 bytes bytes (drop_none bytes) h,
    )
  where
    drop_none : (xs : List ℕ) → xs ≡ drop (0 * file_chunk_size) xs
    drop_none [] = refl
    drop_none (x ∷ xs) = refl

-- What is sent for a large file: a start that announces its size, its hash and the number of chunks,
-- that many chunks, which carry together the bytes of the file in order and each one the bytes at
-- the offset that its index says, and the end with the hash.
pub record IsTransfer (rel : FilePath) (bytes : List ℕ) (hash : Hash) (stamp : Option ℕ)
    (messages : List Message) : Type 0 where
  pub start : FileMetadata
  pub announced_chunks : ℕ
  pub chunks : List Message
  pub messages_eq :
      messages
      ≡ large_file_start start announced_chunks stamp ∷ chunks ++ large_file_end rel hash ∷ []
  pub start_path : start.rel_path ≡ rel
  pub start_size : start.size ≡ length bytes
  pub start_hash : start.hash ≡ hash
  pub as_announced : length chunks ≡ announced_chunks
  pub content : data_of chunks ≡ bytes
  pub pieces : All (IsPiece rel bytes) chunks

close_large-end :
    (rel : FilePath) (hash : Hash) (r : List Message × Bool)
    → r.1 ≡ true
    → close_large rel hash r ≡ r.0 ++ large_file_end rel hash ∷ []
close_large-end rel hash (chunks, true) h = refl
close_large-end rel hash (chunks, false) h = cc

-- For a large file that is hashed and read to its end, and whose length is the one that its metadata
-- had, `stream_large_file` sends after what was sent before: a start that announces the length, the
-- hash and the number of chunks, exactly that many chunks, which carry together the bytes of the
-- file in order and each one the bytes at the offset that the receiver computes from its index, and
-- the end with the hash. The file is not empty and has at most (2^32 - 1) chunks.
pub stream_large_file-IsTransfer :
    (S : Source) (root rel : FilePath) (stat : FileStat) (s : Sender) (bytes : List ℕ) (hash : Hash)
    → S.hash_file (root ++ rel) ≡ some hash
    → S.open_file (root ++ rel) ≡ some (bytes, true)
    → stat.len ≡ length bytes
    → 0 < length bytes
    → length bytes ≤ max_chunked
    → (messages : List Message) × ((stream_large_file S root rel stat s).sent ≡ s.sent ++ messages)
      × IsTransfer rel bytes hash (S.stamp rel stat.modified_ms) messages
unfolding stream_large_file start_large metadata_of
stream_large_file-IsTransfer S root rel stat s bytes hash hashed opened len pos h =
    let (all, ended, count, pieces) = send_chunks_lem rel bytes pos h in
    let chunks = (send_chunks (length bytes) rel 0 bytes true).0 in
    let start = metadata_of rel stat.len hash stat false s.sequence in
    (
      large_file_start start (total_chunks stat.len) (S.stamp rel stat.modified_ms) ∷ chunks
          ++ large_file_end rel hash ∷ [],
      rw
          (
            hashed,
            opened,
            close_large-end rel hash (send_chunks (length bytes) rel 0 bytes true) ended,
          )
          refl,
      record {
        start = start;
        announced_chunks = total_chunks stat.len;
        chunks = chunks;
        messages_eq = refl;
        start_path = refl;
        start_size = len;
        start_hash = refl;
        as_announced = count ∙ ap (λ n. total_chunks n) (sym len);
        content = all;
        pieces = pieces;
      },
    )
