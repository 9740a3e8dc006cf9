-- ===== src/Transport.antt =====
-- crates/filesync/src/transport.rs and the frames of crates/filesync/src/protocol.rs. bincode and
-- lz4_flex are the parameter `Codec`. The bytes that a connection yields are a list of events, one
-- for each `read` of the socket.
pub mod Frames
pub mod Chunking
pub mod Stream
pub mod Loop
pub mod Heartbeat
use byte_hive.Base.{
  ℕ, suc, zero, ◌+◌, ◌-◌, ◌*◌, ◌/◌, ◌%◌, ◌^◌, Bool, true, false, Option, none, some,
}
use byte_hive.Base.{List, [], ◌∷◌, ◌++◌, ltb, leb, if◌then◌else◌, length, ◌==◌, nat_eq}
use byte_hive.Protocol.{Message, max_frame_bytes}

pub record Codec : Type 0 where
  -- `bincode::serialize`, `bincode::deserialize`
  pub serialize : Message → Option (List ℕ)
  pub deserialize : List ℕ → Option Message
  -- `compress_prepend_size`, `decompress_size_prepended`
  pub compress : List ℕ → List ℕ
  pub decompress : List ℕ → Option (List ℕ)

-- The kinds of `io::Error` that the code tells apart.
pub data ErrorKind : Type 0 where
  timed_out unexpected_eof invalid_data connection_aborted broken_pipe other : ErrorKind

-- `u32::to_be_bytes` and `u32::from_be_bytes`
unfoldable pub to_be_bytes : ℕ → List ℕ
to_be_bytes n = n / 2 ^ 24 % 256 ∷ n / 2 ^ 16 % 256 ∷ n / 2 ^ 8 % 256 ∷ n % 256 ∷ []

from_be : ℕ → List ℕ → ℕ
from_be n [] = n
from_be n (b ∷ bs) = from_be (n * 256 + b) bs

unfoldable pub from_be_bytes : List ℕ → ℕ
unfolding from_be
from_be_bytes bs = from_be 0 bs

take : ℕ → List ℕ → List ℕ
take zero bs = []
take (suc n) [] = []
take (suc n) (b ∷ bs) = b ∷ take n bs

drop : ℕ → List ℕ → List ℕ
drop zero bs = bs
drop (suc n) [] = []
drop (suc n) (b ∷ bs) = drop n bs

-- One `read`: what it yields, of which the reader takes as much as its buffer holds (no bytes are
-- the end of the stream), a timeout, or an error.
pub data Event : Type 0 where
  chunk : List ℕ → Event
  wait : Event
  broken : Event

-- `FrameReader`: the bytes of the header and of the body that were read so far. `body_len` is 0
-- exactly while `body.is_empty()` holds in the source.
pub record FrameReader : Type 0 where
  pub hdr : List ℕ
  pub body : List ℕ
  pub body_len : ℕ

unfoldable pub new : FrameReader
new = record { hdr = []; body = []; body_len = 0 }

-- How a loop of reads ends.
pub data Fill : Type 0 where
  full : Fill
  pending : Fill
  error : ErrorKind → Fill

-- What is left of a read that was larger than the buffer is read next.
put_back : List ℕ → List Event → List Event
put_back [] es = es
put_back (b ∷ bs) es = chunk (b ∷ bs) ∷ es

-- `while pos < need { read }`; where the events end, the next read has not come yet.
unfoldable pub fill : ℕ → List ℕ → List Event → Fill × List ℕ × List Event
unfolding put_back take drop
fill need got [] = (if ltb (length got) need then pending else full, got, [])
fill need got (chunk [] ∷ es) =
    if ltb (length got) need then (error unexpected_eof, got, es) else (full, got, chunk [] ∷ es)
fill need got (chunk (b ∷ bs) ∷ es) =
    let room = need - length got in
    let later = fill need (got ++ b ∷ bs) es in
    if ltb (length got) need
    then (if leb (length (b ∷ bs)) room
        then later
        else (full, got ++ take room (b ∷ bs), put_back (drop room (b ∷ bs)) es))
    else (full, got, chunk (b ∷ bs) ∷ es)
fill need got (wait ∷ es) =
    if ltb (length got) need then (pending, got, es) else (full, got, wait ∷ es)
fill need got (broken ∷ es) =
    if ltb (length got) need then (error other, got, es) else (full, got, broken ∷ es)

pub data Polled : Type 0 where
  message : Message → Polled
  nothing : Polled
  failed : ErrorKind → Polled

module _ (C : Codec) where
  framed : List ℕ → Option (List ℕ)
  framed compressed =
      if ltb max_frame_bytes (length compressed)
      then none
      else some (to_be_bytes (length compressed % 2 ^ 32) ++ compressed)

  unfoldable pub serialise_message : Message → Option (List ℕ)
  unfolding framed
  serialise_message msg = elim (C.serialize msg) [
    | none ↦ none
    | some raw ↦ framed (C.compress raw)
  ]

  unfoldable pub decode : List ℕ → Option Message
  decode body = elim (C.decompress body) [ none ↦ none | some raw ↦ C.deserialize raw ]

  -- From the decompression on.
  decoded : Option Message → FrameReader → List Event → Polled × FrameReader × List Event
  unfolding new
  decoded none r es = (failed invalid_data, r, es)
  decoded (some msg) r es = (message msg, new, es)

  body_filled : FrameReader → Fill × List ℕ × List Event → Polled × FrameReader × List Event
  unfolding decoded
  body_filled r (pending, body, es) = (nothing, record r { body = body }, es)
  body_filled r (error k, body, es) = (failed k, record r { body = body }, es)
  body_filled r (full, body, es) = decoded (decode body) (record r { body = body }) es

  -- `self.body.is_empty()`, or on with the body that was begun.
  start_body : FrameReader → FrameReader
  start_body r =
      if r.body_len == 0 then record r { body = []; body_len = from_be_bytes r.hdr } else r

  hdr_filled : FrameReader → Fill × List ℕ × List Event → Polled × FrameReader × List Event
  unfolding body_filled start_body
  hdr_filled r (pending, hdr, es) = (nothing, record r { hdr = hdr }, es)
  hdr_filled r (error k, hdr, es) = (failed k, record r { hdr = hdr }, es)
  hdr_filled r (full, hdr, es) =
      let r' = start_body (record r { hdr = hdr }) in
      if (if r.body_len == 0 then ltb max_frame_bytes r'.body_len else false)
      then (failed invalid_data, record r { hdr = hdr }, es)
      else body_filled r' (fill r'.body_len r'.body es)

  unfoldable pub poll : FrameReader → List Event → Polled × FrameReader × List Event
  unfolding hdr_filled
  poll r es = hdr_filled r (fill 4 r.hdr es)

  -- `read_exact`
  read_exact : ℕ → List ℕ → Option (List ℕ × List ℕ)
  unfolding take drop
  read_exact n bs = if ltb (length bs) n then none else some (take n bs, drop n bs)

  read_body : Option (List ℕ × List ℕ) → Option (Message × List ℕ)
  read_body none = none
  read_body (some (body, bs)) = elim (decode body) [ none ↦ none | some msg ↦ some (msg, bs) ]

  read_hdr : Option (List ℕ × List ℕ) → Option (Message × List ℕ)
  unfolding read_body read_exact
  read_hdr none = none
  read_hdr (some (hdr, bs)) =
      let len = from_be_bytes hdr in
      if ltb max_frame_bytes len then none else read_body (read_exact len bs)

  -- `read_message`, of a reader that yields these bytes and then ends. The kinds of errors are not
  -- told apart.
  unfoldable pub read_message : List ℕ → Option (Message × List ℕ)
  unfolding read_hdr
  read_message bs = read_hdr (read_exact 4 bs)
