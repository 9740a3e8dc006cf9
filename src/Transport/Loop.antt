-- ===== src/Transport/Loop.antt =====
-- `io_loop` of transport.rs. `write_all` and `flush` together are a function of what was written
-- before and of the frame, which gives the error if there is one.
pub mod Delivery
use byte_hive.Base.{ℕ, suc, zero, Bool, true, false, List, [], ◌∷◌, ◌++◌, Option, none, some}
use byte_hive.Base.{if◌then◌else◌}
use byte_hive.Protocol.{Message, ping, pong}
use byte_hive.Transport.{
  Codec, ErrorKind, Event, FrameReader, Polled, message, nothing, failed, serialise_message, poll,
}

-- What the channel to the application carries.
pub data Received : Type 0 where
  ok : Message → Received
  err : ErrorKind → Received

abbrev pub Write : Type 0
Write = List (List ℕ) → List ℕ → Option ErrorKind

-- The variables of the loop, and both channels: `queue` is what waits in `send_rx`, where `none` is
-- the shutdown signal.
pub record Io : Type 0 where
  pub reader : FrameReader
  pub events : List Event
  pub queue : List (Option (List ℕ))
  pub senders : Bool
  pub consumer : Bool
  pub written : List (List ℕ)
  pub delivered : List Received
  pub last_recv_wall : ℕ

-- Whether the thread goes on or returns.
pub data Flow : Type 0 where
  go_on : Flow
  leave : Flow

deliver : Received → Io → Io
deliver x io = record io { delivered = io.delivered ++ x ∷ [] }

-- A frame that is written, or the error that is reported before the thread returns.
write_frame : Write → List ℕ → Io → Io × Flow
unfolding deliver
write_frame write frame io = elim (write io.written frame) [
  | none ↦ (record io { written = io.written ++ frame ∷ [] }, go_on)
  | some e ↦ (deliver (err e) io, leave)
]

after_write : Io × Flow → (Io → Io × Flow) → Io × Flow
after_write (io, go_on) k = k io
after_write (io, leave) k = (io, leave)

-- The inner loop over `try_recv`.
drain : Write → List (Option (List ℕ)) → Io → Io × Flow
unfolding write_frame after_write
drain write [] io = (record io { queue = [] }, if io.senders then go_on else leave)
drain write (none ∷ q) io = (record io { queue = q }, leave)
drain write (some frame ∷ q) io = after_write (write_frame write frame io) (drain write q)

module _ (C : Codec) (write : Write) (now : ℕ) where
  reply_pong : Option (List ℕ) → Io → Io × Flow
  unfolding write_frame
  reply_pong none io = (io, go_on)
  reply_pong (some frame) io = write_frame write frame io

  pass_on : Message → Io → Io × Flow
  unfolding deliver
  pass_on msg io = if io.consumer then (deliver (ok msg) io, go_on) else (io, leave)

  -- The inner `match` on the message.
  on_message : Message → Io → Io × Flow
  unfolding reply_pong pass_on
  on_message ping io = reply_pong (serialise_message C pong) io
  on_message pong io = (io, go_on)
  on_message msg io = pass_on msg io

  on_polled : Polled × FrameReader × List Event → Io → Io × Flow
  unfolding on_message deliver
  on_polled (message msg, r, es) io =
      on_message msg (record io { reader = r; events = es; last_recv_wall = now })
  on_polled (nothing, r, es) io = (record io { reader = r; events = es }, go_on)
  on_polled (failed k, r, es) io = (deliver (err k) (record io { reader = r; events = es }), leave)

  read_one : Io → Io × Flow
  unfolding on_polled
  read_one io = on_polled (poll C io.reader io.events) io

  -- The body of the outer loop.
  io_round : Io → Io × Flow
  unfolding after_write drain read_one
  io_round io = after_write (drain write io.queue io) read_one

-- So many rounds, at the times that the clock shows in each.
unfoldable pub io_loop : Codec → Write → ℕ → (ℕ → ℕ) → Io → Io × Flow
unfolding io_round after_write
io_loop C write zero clock io = (io, go_on)
io_loop C write (suc n) clock io =
    after_write (io_round C write (clock n) io) (io_loop C write n clock)
