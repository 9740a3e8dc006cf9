-- ===== src/Bundler/Order.antt =====
-- The paths that the messages of bundler.rs announce.
use byte_hive.Base.{
  ℕ, zero, suc, ◌+◌, ◌%◌, ◌^◌, Bool, true, false, Option, none, some, List, [], ◌∷◌, ◌++◌, ◌≡◌,
  refl, sym,
}
use byte_hive.Base.{◌∙◌, ap, arith, if◌then◌else◌, leb, select, is_some}
use byte_hive.Base.{length}
use mathlib.Core.List.{append_assoc}
use byte_hive.Base.Paths.{FilePath}
use byte_hive.Protocol.{
  Hash, FileData, Message, bundle, large_file_start, large_file_end, large_file_threshold,
  file_chunk_size,
}
use byte_hive.Bundler.{
  Source, FileStat, Sender, flush_list, flush_bundle, stream_large_file, add_dir, add_content,
  make_room, add_file, stream_stat, stream_path, stream_paths, stream_messages, large_body,
  close_large, send_chunks, metadata_of, drop, push, start_large, add_read, stream_found,
  total_chunks, zeros,
}

unfoldable pub paths_of : List FileData → List FilePath
paths_of [] = []
paths_of (f ∷ fs) = f.metadata.rel_path ∷ paths_of fs

-- The paths that the messages announce: those of a bundle, and that of a large file's start.
unfoldable pub announced : List Message → List FilePath
unfolding paths_of
announced [] = []
announced (bundle b ∷ ms) = paths_of b.files ++ announced ms
announced (large_file_start metadata n at ∷ ms) = metadata.rel_path ∷ announced ms
announced (m ∷ ms) = announced ms

-- Whether the sender can read what it needs of a path.
abbrev pub readable_stat : Source → FilePath → Option FileStat → Bool
readable_stat S full none = false
readable_stat S full (some stat) =
    if stat.is_dir
    then true
    else if leb large_file_threshold stat.len
    then is_some (S.hash_file full)
    else is_some (S.read full)

abbrev pub is_readable : Source → FilePath → FilePath → Bool
is_readable S root rel = readable_stat S (root ++ rel) (S.metadata (root ++ rel))

announced-append : (xs ys : List Message) → announced (xs ++ ys) ≡ announced xs ++ announced ys
unfolding announced
announced-append [] ys = refl
announced-append (bundle b ∷ ms) ys =
    ap (λ r. paths_of b.files ++ r) (announced-append ms ys)
    ∙ sym (append_assoc (paths_of b.files) (announced ms) (announced ys))
announced-append (large_file_start metadata n at ∷ ms) ys =
    ap (◌∷◌ metadata.rel_path) (announced-append ms ys)
announced-append (_ ∷ ms) ys = announced-append ms ys

paths_of-append : (xs ys : List FileData) → paths_of (xs ++ ys) ≡ paths_of xs ++ paths_of ys
unfolding paths_of
paths_of-append [] ys = refl
paths_of-append (f ∷ fs) ys = ap (◌∷◌ f.metadata.rel_path) (paths_of-append fs ys)

announced-send_chunks :
    (fuel : ℕ) (rel : FilePath) (i : ℕ) (bytes : List ℕ) (ok : Bool)
    → announced (send_chunks fuel rel i bytes ok).0 ≡ []
unfolding send_chunks announced
announced-send_chunks zero rel i bytes ok = refl
announced-send_chunks (suc fuel) rel i [] ok = refl
announced-send_chunks (suc fuel) rel i (b ∷ bs) ok =
    ground
      (arith, announced-send_chunks fuel rel ((i + 1) % 2 ^ 32) (drop file_chunk_size (b ∷ bs)) ok)

announced-close_large :
    (rel : FilePath) (hash : Hash) (r : List Message × Bool)
    → announced r.0 ≡ []
    → announced (close_large rel hash r) ≡ []
unfolding announced
announced-close_large rel hash (chunks, true) h =
    announced-append chunks (large_file_end rel hash ∷ [])
    ∙ ap (λ r. r ++ announced (large_file_end rel hash ∷ [])) h
announced-close_large rel hash (chunks, false) h = h

announced-large_body :
    (rel : FilePath) (hash : Hash) (o : Option (List ℕ × Bool))
    → announced (large_body rel hash o) ≡ []
unfolding announced
announced-large_body rel hash none = refl
announced-large_body rel hash (some (bytes, ok)) =
    announced-close_large rel hash (send_chunks (length bytes) rel 0 bytes ok)
      (announced-send_chunks (length bytes) rel 0 bytes ok)

-- What is announced already, and what the next bundle will announce.
abbrev pub view : Sender → List FilePath
view s = announced s.sent ++ paths_of s.cur

append-nil : (xs : List FilePath) → xs ++ [] ≡ xs
append-nil [] = refl
append-nil (x ∷ xs) = ap (◌∷◌ x) (append-nil xs)

flush_cons-view :
    (f : FileData) (fs : List FileData) (s : Sender)
    → view (flush_list (f ∷ fs) s) ≡ announced s.sent ++ paths_of (f ∷ fs)
unfolding flush_list announced paths_of
flush_cons-view f fs s =
    append-nil (announced (flush_list (f ∷ fs) s).sent)
    ∙ announced-append s.sent (bundle (record { files = f ∷ fs; bundle_id = s.next_id }) ∷ [])
    ∙ ap (λ r. announced s.sent ++ r) (append-nil (paths_of (f ∷ fs)))

flush_bundle-view : (s : Sender) → (view (flush_bundle s) ≡ view s) × ((flush_bundle s).cur ≡ [])
unfolding flush_bundle flush_list
flush_bundle-view s = go s.cur refl
  where
    go :
        (fs : List FileData)
        → fs ≡ s.cur
        → (view (flush_list fs s) ≡ view s) × ((flush_list fs s).cur ≡ [])
    go [] h = (refl, sym h)
    go (f ∷ fs) h = (flush_cons-view f fs s ∙ ap (λ x. announced s.sent ++ paths_of x) h, refl)

-- One path, if the test holds.
abbrev one_if : Bool → FilePath → List FilePath
one_if true rel = rel ∷ []
one_if false rel = []

push-view : (fd : FileData) (s : Sender) → view (push fd s) ≡ view s ++ fd.metadata.rel_path ∷ []
unfolding paths_of
push-view fd s =
    ap (λ r. announced s.sent ++ r) (paths_of-append s.cur (fd ∷ []))
    ∙ sym (append_assoc (announced s.sent) (paths_of s.cur) (fd.metadata.rel_path ∷ []))

make_room-view : (size : ℕ) (s : Sender) → view (make_room size s) ≡ view s
unfolding make_room
make_room-view size s = ground (arith, (flush_bundle-view s).0)

module _ (S : Source) (root : FilePath) where
  start_large-view :
      (rel : FilePath) (stat : FileStat) (o : Option Hash) (s : Sender)
      → s.cur ≡ []
      → view (start_large S root rel stat o s) ≡ view s ++ one_if (is_some o) rel
  unfolding start_large announced paths_of metadata_of
  start_large-view rel stat none s h = sym (append-nil (view s))
  start_large-view rel stat (some hash) s h = ground (
    arith,
    h,
    announced-append s.sent (
        large_file_start (metadata_of rel stat.len hash stat false s.sequence)
          (total_chunks stat.len) (S.stamp rel stat.modified_ms)
        ∷ large_body rel hash (S.open_file (root ++ rel))),
    announced-large_body rel hash (S.open_file (root ++ rel)),
    append-nil (announced s.sent),
    append-nil (announced s.sent ++ rel ∷ []),
  )

  add_content-view :
      (rel : FilePath) (stat : FileStat) (content : List ℕ) (s : Sender)
      → view (add_content S root rel stat content s) ≡ view s ++ rel ∷ []
  unfolding add_content metadata_of
  add_content-view rel stat content s =
      push-view
        (record {
          metadata = metadata_of rel (length content) (S.blake3 content) stat false s.sequence;
          content = content;
          action_ms = S.stamp rel stat.modified_ms;
        })
        (record s { cur_bytes = s.cur_bytes + length content })

  add_read-view :
      (rel : FilePath) (stat : FileStat) (o : Option (List ℕ)) (s : Sender)
      → view (add_read S root rel stat o s) ≡ view s ++ one_if (is_some o) rel
  unfolding add_read
  add_read-view rel stat none s = sym (append-nil (view s))
  add_read-view rel stat (some content) s =
      add_content-view rel stat content (make_room (length content) s)
      ∙ ap (λ r. r ++ rel ∷ []) (make_room-view (length content) s)

  stream_found-view :
      (rel : FilePath) (o : Option FileStat) (s : Sender)
      → view (stream_found S root rel o s) ≡ view s ++ one_if (readable_stat S (root ++ rel) o) rel
  unfolding stream_found stream_stat add_dir metadata_of stream_large_file add_file
  stream_found-view rel none s = sym (append-nil (view s))
  stream_found-view rel (some stat) s = ground (
    arith,
    start_large-view rel stat (S.hash_file (root ++ rel)) (flush_bundle s) (flush_bundle-view s).1,
    (flush_bundle-view s).0,
    add_read-view rel stat (S.read (root ++ rel)) s,
    push-view
        (record {
          metadata = metadata_of rel 0 (zeros 32) stat true s.sequence;
          content = [];
          action_ms = S.stamp rel stat.modified_ms;
        })
        s,
  )

  one_if-select :
      (b : Bool) (rel : FilePath) (xs ys : List FilePath)
      → xs ++ one_if b rel ++ ys ≡ xs ++ (if b then rel ∷ ys else ys)
  one_if-select true rel xs ys = append_assoc xs (rel ∷ []) ys
  one_if-select false rel xs ys = ap (λ r. r ++ ys) (append-nil xs)

  stream_paths-view :
      (rels : List FilePath) (s : Sender)
      → view (stream_paths S root rels s) ≡ view s ++ select (is_readable S root) rels
  unfolding stream_paths stream_path
  stream_paths-view [] s = sym (append-nil (view s))
  stream_paths-view (rel ∷ rels) s =
      stream_paths-view rels (stream_path S root rel s)
      ∙ ap (λ r. r ++ select (is_readable S root) rels)
          (stream_found-view rel (S.metadata (root ++ rel)) s)
      ∙ one_if-select (is_readable S root rel) rel (view s) (select (is_readable S root) rels)

  -- The messages of a transfer announce, in the order of the request and each as often as it is
  -- requested, exactly the paths that can be read: a directory with metadata, a large file that can
  -- be hashed, any other file whose content can be read.
  pub stream_messages_lem :
      (rels : List FilePath) (next_id : ℕ) (sequence : Option ℕ)
      → announced (stream_messages S root rels next_id sequence).sent
        ≡ select (is_readable S root) rels
  unfolding stream_messages announced paths_of
  stream_messages_lem rels next_id sequence = ground (
    arith,
    stream_paths-view rels start,
    flush_bundle-view (stream_paths S root rels start),
    append-nil (announced (flush_bundle (stream_paths S root rels start)).sent),
  )
    where
      start : Sender
      start = record { cur = []; cur_bytes = 0; sent = []; next_id = next_id; sequence = sequence }
