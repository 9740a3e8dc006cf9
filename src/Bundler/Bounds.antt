-- ===== src/Bundler/Bounds.antt =====
-- The size of the bundles of bundler.rs.
use byte_hive.Base.{
  ℕ, zero, suc, ◌+◌, ◌%◌, ◌^◌, ◌≤◌, Bool, true, false, Option, none, some, List, [],
}
use byte_hive.Base.{◌∷◌, ◌++◌, ◌≡◌, refl, sym, arith, if◌then◌else◌, leb, length, All}
use byte_hive.Base.{Option-cases, Bool-cases, inl, inr}
use mathlib.Core.Path.{subst}
use byte_hive.Base.Paths.{FilePath}
use byte_hive.Protocol.{
  Hash, FileData, Message, bundle, large_file_start, large_file_end, large_file_threshold,
  bundle_max_bytes, bundle_max_files, file_chunk_size,
}
use byte_hive.Bundler.{
  Source, FileStat, Sender, flush_list, flush_bundle, start_large, stream_large_file, add_dir,
  add_content, make_room, add_read, add_file, stream_stat, stream_found, stream_path, stream_paths,
  stream_messages, large_body, close_large, send_chunks, metadata_of, push, total_chunks, zeros,
  drop, is_full,
}

unfoldable pub bytes_of : List FileData → ℕ
bytes_of [] = 0
bytes_of (f ∷ fs) = length f.content + bytes_of fs

-- The files that are no directories.
unfoldable pub plain_of : List FileData → ℕ
plain_of [] = 0
plain_of (f ∷ fs) = (if f.metadata.is_dir then 0 else 1) + plain_of fs

abbrev pub IsBounded : Message → Type 0
IsBounded (bundle b) = (bytes_of b.files ≤ bundle_max_bytes) × (plain_of b.files ≤ bundle_max_files)
IsBounded _ = Unit

bytes_of-append : (xs ys : List FileData) → bytes_of (xs ++ ys) ≡ bytes_of xs + bytes_of ys
unfolding bytes_of
bytes_of-append [] ys = omega arith
bytes_of-append (f ∷ fs) ys = omega (arith, bytes_of-append fs ys)

plain_of-append : (xs ys : List FileData) → plain_of (xs ++ ys) ≡ plain_of xs + plain_of ys
unfolding plain_of
plain_of-append [] ys = omega arith
plain_of-append (f ∷ fs) ys = omega (arith, plain_of-append fs ys)

plain_of-length : (fs : List FileData) → plain_of fs ≤ length fs
unfolding plain_of
plain_of-length [] = omega arith
plain_of-length (f ∷ fs) = ground (arith, plain_of-length fs)

All-append : (xs ys : List Message) → All IsBounded xs → All IsBounded ys → All IsBounded (xs ++ ys)
All-append [] ys _ h = h
All-append (x ∷ xs) ys (b, bs) h = (b, All-append xs ys bs h)

-- The bundle being built is within the bounds, and so are those that were sent.
record Fits (s : Sender) : Type 0 where
  pub counted : bytes_of s.cur ≡ s.cur_bytes
  pub bytes : s.cur_bytes ≤ bundle_max_bytes
  pub files : plain_of s.cur ≤ bundle_max_files
  pub before : All IsBounded s.sent

flush_list-Fits : (fs : List FileData) (s : Sender) → fs ≡ s.cur → Fits s → Fits (flush_list fs s)
unfolding flush_list bytes_of plain_of
flush_list-Fits [] s e h = h
flush_list-Fits (f ∷ fs) s e h = record {
  counted = refl;
  bytes = omega arith;
  files = omega arith;
  before =
      All-append s.sent (bundle (record { files = f ∷ fs; bundle_id = s.next_id }) ∷ []) h.before
        ((ground (arith, e, h.counted, h.bytes), ground (arith, e, h.files)), tt);
}

flush_bundle-Fits : (s : Sender) → Fits s → Fits (flush_bundle s)
unfolding flush_bundle
flush_bundle-Fits s h = flush_list-Fits s.cur s refl h

send_chunks-IsBounded :
    (fuel : ℕ) (rel : FilePath) (i : ℕ) (bytes : List ℕ) (ok : Bool)
    → All IsBounded (send_chunks fuel rel i bytes ok).0
unfolding send_chunks
send_chunks-IsBounded zero rel i bytes ok = tt
send_chunks-IsBounded (suc fuel) rel i [] ok = tt
send_chunks-IsBounded (suc fuel) rel i (b ∷ bs) ok =
    ground
      (arith, send_chunks-IsBounded fuel rel ((i + 1) % 2 ^ 32) (drop file_chunk_size (b ∷ bs)) ok)

close_large-IsBounded :
    (rel : FilePath) (hash : Hash) (r : List Message × Bool)
    → All IsBounded r.0
    → All IsBounded (close_large rel hash r)
close_large-IsBounded rel hash (chunks, true) h =
    All-append chunks (large_file_end rel hash ∷ []) h (tt, tt)
close_large-IsBounded rel hash (chunks, false) h = h

large_body-IsBounded :
    (rel : FilePath) (hash : Hash) (o : Option (List ℕ × Bool))
    → All IsBounded (large_body rel hash o)
large_body-IsBounded rel hash none = tt
large_body-IsBounded rel hash (some (bytes, ok)) =
    close_large-IsBounded rel hash (send_chunks (length bytes) rel 0 bytes ok)
      (send_chunks-IsBounded (length bytes) rel 0 bytes ok)

bytes_of-empty : (fs : List FileData) → length fs ≡ 0 → bytes_of fs ≡ 0
unfolding bytes_of
bytes_of-empty [] h = refl
bytes_of-empty (f ∷ fs) h = absurd (omega (arith, h))

flush_list-empty :
    (fs : List FileData) (s : Sender)
    → fs ≡ s.cur
    → Fits s
    → ((flush_list fs s).cur_bytes ≡ 0) × (plain_of (flush_list fs s).cur ≡ 0)
unfolding flush_list bytes_of plain_of
flush_list-empty [] s e h = (ground (arith, e, h.counted), ground (arith, e))
flush_list-empty (f ∷ fs) s e h = (refl, refl)

-- After `make_room` a file of this size fits.
abbrev HasRoom : ℕ → Sender → Type 0
HasRoom size s =
    Fits s × (s.cur_bytes + size ≤ bundle_max_bytes) × (plain_of s.cur + 1 ≤ bundle_max_files)

flush_bundle-HasRoom :
    (size : ℕ) (s : Sender) → size ≤ bundle_max_bytes → Fits s → HasRoom size (flush_bundle s)
unfolding flush_bundle
flush_bundle-HasRoom size s small h =
    let (b, p) = flush_list-empty s.cur s refl h in
    (flush_bundle-Fits s h, omega (arith, b, small), omega (arith, p))

make_room-HasRoom :
    (size : ℕ) (s : Sender) → size ≤ bundle_max_bytes → Fits s → HasRoom size (make_room size s)
unfolding make_room
make_room-HasRoom size s small h = elim (Bool-cases (is_full size s)) [
  | inl full ↦
      subst (HasRoom size) (sym (ground (arith, full))) (flush_bundle-HasRoom size s small h)
  | inr fits ↦ subst (HasRoom size) (sym (ground (arith, fits))) (
    h,
    ground (arith, fits, small, h.counted, bytes_of-empty s.cur),
    ground (arith, fits, plain_of-length s.cur),
  )
]

push_file-Fits :
    (fd : FileData) (s : Sender)
    → HasRoom (length fd.content) s
    → Fits (push fd (record s { cur_bytes = s.cur_bytes + length fd.content }))
unfolding bytes_of plain_of
push_file-Fits fd s (h, b, p) = record {
  counted = ground (arith, h.counted, bytes_of-append s.cur (fd ∷ []));
  bytes = b;
  files = ground (arith, p, plain_of-append s.cur (fd ∷ []));
  before = h.before;
}

push_dir-Fits :
    (fd : FileData) (s : Sender)
    → fd.metadata.is_dir ≡ true
    → fd.content ≡ []
    → Fits s
    → Fits (push fd s)
unfolding bytes_of plain_of
push_dir-Fits fd s d e h = record {
  counted = ground (arith, e, h.counted, bytes_of-append s.cur (fd ∷ []));
  bytes = h.bytes;
  files = ground (arith, d, h.files, plain_of-append s.cur (fd ∷ []));
  before = h.before;
}

module _ (S : Source) (root : FilePath)
    (unchanged : (p : FilePath) (stat : FileStat) (content : List ℕ)
      → S.metadata p ≡ some stat
      → S.read p ≡ some content
      → length content ≤ stat.len) where
  add_content-Fits :
      (rel : FilePath) (stat : FileStat) (content : List ℕ) (s : Sender)
      → HasRoom (length content) s
      → Fits (add_content S root rel stat content s)
  unfolding add_content metadata_of
  add_content-Fits rel stat content s h =
      push_file-Fits
        (record {
          metadata = metadata_of rel (length content) (S.blake3 content) stat false s.sequence;
          content = content;
          action_ms = S.stamp rel stat.modified_ms;
        })
        s h

  add_read-Fits :
      (rel : FilePath) (stat : FileStat) (o : Option (List ℕ)) (s : Sender)
      → ((content : List ℕ) → o ≡ some content → length content ≤ bundle_max_bytes)
      → Fits s
      → Fits (add_read S root rel stat o s)
  unfolding add_read
  add_read-Fits rel stat none s small h = h
  add_read-Fits rel stat (some content) s small h =
      add_content-Fits rel stat content (make_room (length content) s)
        (make_room-HasRoom (length content) s (small content refl) h)

  start_large-Fits :
      (rel : FilePath) (stat : FileStat) (o : Option Hash) (s : Sender)
      → Fits s
      → Fits (start_large S root rel stat o s)
  unfolding start_large
  start_large-Fits rel stat none s h = h
  start_large-Fits rel stat (some hash) s h = record {
    counted = h.counted;
    bytes = h.bytes;
    files = h.files;
    before =
        All-append s.sent
          (large_file_start (metadata_of rel stat.len hash stat false s.sequence)
              (total_chunks stat.len) (S.stamp rel stat.modified_ms)
            ∷ large_body rel hash (S.open_file (root ++ rel)))
          h.before (tt, large_body-IsBounded rel hash (S.open_file (root ++ rel)));
  }

  stream_stat-Fits :
      (rel : FilePath) (stat : FileStat) (s : Sender)
      → S.metadata (root ++ rel) ≡ some stat
      → Fits s
      → Fits (stream_stat S root rel stat s)
  unfolding stream_stat add_dir metadata_of stream_large_file add_file
  stream_stat-Fits rel stat s e h = elim (Bool-cases stat.is_dir) [
    | inl dir ↦ subst Fits (sym (ground (arith, dir))) (
        push_dir-Fits
          (record {
            metadata = metadata_of rel 0 (zeros 32) stat true s.sequence;
            content = [];
            action_ms = S.stamp rel stat.modified_ms;
          })
          s refl refl h)
    | inr file ↦ elim (Bool-cases (leb large_file_threshold stat.len)) [
      | inl large ↦ subst Fits (sym (ground (arith, file, large))) (
          start_large-Fits rel stat (S.hash_file (root ++ rel)) (flush_bundle s)
            (flush_bundle-Fits s h))
      | inr small ↦ subst Fits (sym (ground (arith, file, small))) (
          add_read-Fits rel stat (S.read (root ++ rel)) s
            (λ content r. ground (arith, small, unchanged (root ++ rel) stat content e r)) h)
    ]
  ]

  stream_path-Fits : (rel : FilePath) (s : Sender) → Fits s → Fits (stream_path S root rel s)
  unfolding stream_path stream_found
  stream_path-Fits rel s h = elim (Option-cases (S.metadata (root ++ rel))) [
    | inl e ↦ subst Fits (sym (ground (arith, e))) h
    | inr (stat, e) ↦ subst Fits (sym (ground (arith, e))) (stream_stat-Fits rel stat s e h)
  ]

  stream_paths-Fits :
      (rels : List FilePath) (s : Sender) → Fits s → Fits (stream_paths S root rels s)
  unfolding stream_paths
  stream_paths-Fits [] s h = h
  stream_paths-Fits (rel ∷ rels) s h =
      stream_paths-Fits rels (stream_path S root rel s) (stream_path-Fits rel s h)

  -- Every bundle of a transfer has at most `bundle_max_bytes` bytes of content and at most
  -- `bundle_max_files` files that are no directories; directories are not counted. No file is read
  -- with more bytes than its metadata said.
  pub stream_messages-IsBounded :
      (rels : List FilePath) (next_id : ℕ) (sequence : Option ℕ)
      → All IsBounded (stream_messages S root rels next_id sequence).sent
  unfolding stream_messages bytes_of plain_of
  stream_messages-IsBounded rels next_id sequence = Fits.before (
      flush_bundle-Fits (stream_paths S root rels start) (
        stream_paths-Fits rels start
          (record { counted = refl; bytes = omega arith; files = omega arith; before = tt })))
    where
      start : Sender
      start = record { cur = []; cur_bytes = 0; sent = []; next_id = next_id; sequence = sequence }
