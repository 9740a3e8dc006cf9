-- ===== src/Transport/Loop/Delivery.antt =====
-- What `io_loop` of transport.rs passes on to the application, and what it answers.
use byte_hive.Base.{ℕ, suc, zero, ◌+◌, ◌≤◌, Bool, true, false, List, [], ◌∷◌, ◌++◌, map, select}
use byte_hive.Base.{none, some, ◌≡◌, refl, length, ap, ◌∙◌, sym}
use mathlib.Core.Path.{subst}
use mathlib.Core.List.{append_assoc, append-nil}
use byte_hive.Protocol.{Message, ping, pong}
use byte_hive.Transport.{
  Codec, Event, FrameReader, new, Polled, message, nothing, failed, serialise_message, poll,
}
use byte_hive.Transport.Frames.{bytes, waits, IsSteady}
use byte_hive.Transport.Chunking.{CodecLaws}
use byte_hive.Transport.Stream.{run_polls, after, frames, run_polls-frames}
use byte_hive.Transport.Loop.{
  Received, ok, Write, Io, Flow, go_on, write_frame, after_write, drain, reply_pong, pass_on,
  on_message, on_polled, read_one, io_round, io_loop, deliver,
}

unfoldable pub is_data : Message → Bool
is_data ping = false
is_data pong = false
is_data _ = true

-- One frame for each ping.
unfoldable pub replies : List ℕ → List Message → List (List ℕ)
replies frame [] = []
replies frame (ping ∷ ms) = frame ∷ replies frame ms
replies frame (_ ∷ ms) = replies frame ms

-- A thread with nothing to send, whose channels are open.
abbrev pub idle : FrameReader → List Event → List (List ℕ) → List Received → ℕ → Io
idle r es w d t = record {
  reader = r;
  events = es;
  queue = [];
  senders = true;
  consumer = true;
  written = w;
  delivered = d;
  last_recv_wall = t;
}

abbrev Passed : List ℕ → List Message → List (List ℕ) → List Received → Io × Flow → Type 0
Passed frame ms w d (io, flow) =
    (flow ≡ go_on)
    × (io.delivered ≡ d ++ map ok (select is_data ms))
    × (io.written ≡ w ++ replies frame ms)

module _ (C : Codec) (write : Write) (frame : List ℕ) (clock : ℕ → ℕ) where
  abbrev Passes : ℕ → Type 0
  Passes n =
      (r : FrameReader) (es : List Event) (w : List (List ℕ)) (d : List Received) (t : ℕ)
      → (run_polls C n r es).1 ≡ none
      → Passed frame (run_polls C n r es).0 w d (io_loop C write n clock (idle r es w d t))

  abbrev Follows : Polled → ℕ → Type 0
  Follows p n =
      (r r' : FrameReader) (es es' : List Event) (w : List (List ℕ)) (d : List Received) (t : ℕ)
      → (after p (run_polls C n r' es')).1 ≡ none
      → Passed frame (after p (run_polls C n r' es')).0 w d (
          after_write (on_polled C write (clock n) (p, r', es') (idle r es w d t))
            (io_loop C write n clock))

  Follows-ping :
      (n : ℕ)
      → serialise_message C pong ≡ some frame
      → ((w : List (List ℕ)) (f : List ℕ) → write w f ≡ none)
      → Passes n
      → Follows (message ping) n
  unfolding on_polled on_message reply_pong write_frame after_write replies is_data after
  Follows-ping n sp fine ih r r' es es' w d t h =
      let (flow, delivered, written) = ih r' es' (w ++ frame ∷ []) d (clock n) h in
      rw (sp, fine w frame, write_frame)
        (
          flow,
          delivered,
          written ∙ append_assoc w (frame ∷ []) (replies frame (run_polls C n r' es').0),
        )

  Follows-message :
      (n : ℕ) (msg : Message)
      → serialise_message C pong ≡ some frame
      → ((w : List (List ℕ)) (f : List ℕ) → write w f ≡ none)
      → Passes n
      → Follows (message msg) n
  unfolding on_polled on_message pass_on after_write replies is_data after deliver
  Follows-message n ping sp fine ih r r' es es' w d t h =
      Follows-ping n sp fine ih r r' es es' w d t h
  Follows-message n pong sp fine ih r r' es es' w d t h = ih r' es' w d (clock n) h
  Follows-message n msg sp fine ih r r' es es' w d t h =
      let (flow, delivered, written) = ih r' es' w (d ++ ok msg ∷ []) (clock n) h in
      (
        flow,
        delivered ∙ append_assoc d (ok msg ∷ []) (map ok (select is_data (run_polls C n r' es').0)),
        written,
      )

  follows :
      (n : ℕ) (p : Polled)
      → serialise_message C pong ≡ some frame
      → ((w : List (List ℕ)) (f : List ℕ) → write w f ≡ none)
      → Passes n
      → Follows p n
  unfolding on_polled after_write after
  follows n (message msg) sp fine ih r r' es es' w d t h =
      Follows-message n msg sp fine ih r r' es es' w d t h
  follows n nothing sp fine ih r r' es es' w d t h = ih r' es' w d t h
  follows n (failed k) sp fine ih r r' es es' w d t h = absurd (cc)

  passes :
      serialise_message C pong ≡ some frame
      → ((w : List (List ℕ)) (f : List ℕ) → write w f ≡ none)
      → (n : ℕ) → Passes n
  unfolding run_polls io_loop io_round drain read_one after_write replies
  passes sp fine zero r es w d t h = (refl, sym (append-nil d), sym (append-nil w))
  passes sp fine (suc n) r es w d t h =
      follows n (poll C r es).0 sp fine (passes sp fine n) r (poll C r es).1 es (poll C r es).2 w d
        t h

  -- While the connection yields the frames of these messages, in reads cut anywhere, and writes
  -- succeed, the thread gives the application the messages but pings and pongs, in order, answers
  -- each ping by one pong, and keeps running, if it has nothing else to send and runs a round for
  -- each message and each timeout at least.
  pub io_loop-frames :
      (laws : CodecLaws C) (ms : List Message) (stream : List ℕ) (es : List Event) (n t : ℕ)
      → serialise_message C pong ≡ some frame
      → ((w : List (List ℕ)) (f : List ℕ) → write w f ≡ none)
      → frames C ms ≡ some stream
      → bytes es ≡ stream
      → IsSteady es
      → length ms + waits es ≤ n
      → let (io, flow) = io_loop C write n clock (idle new es [] [] t) in
        (flow ≡ go_on)
        × (io.delivered ≡ map ok (select is_data ms))
        × (io.written ≡ replies frame ms)
  io_loop-frames laws ms stream es n t sp fine g e s h =
      let polled = run_polls-frames C laws ms stream es n g e s h in
      subst (λ l. Passed frame l [] [] (io_loop C write n clock (idle new es [] [] t)))
        (ap (λ p. p.0) polled) (passes sp fine n new es [] [] t (ap (λ p. p.1) polled))
