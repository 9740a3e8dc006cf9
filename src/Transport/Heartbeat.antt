-- ===== src/Transport/Heartbeat.antt =====
-- `Connection` of transport.rs: the send queue, and `heartbeat_maintenance`. Times are nanoseconds
-- of the wall clock.
use byte_hive.Base.{
  ℕ, ◌+◌, ◌-◌, ◌*◌, ◌^◌, ◌≤◌, ◌<◌, Bool, true, false, ◌&&◌, List, [], ◌∷◌, ◌++◌, Option,
}
use byte_hive.Base.{none, some, if◌then◌else◌, ltb, leb, length, ◌≡◌, arith, Bool-cases}
use byte_hive.Base.{inl, inr, ◌⊎◌, map, sym, ap, ◌∙◌}
use mathlib.Core.List.{append_assoc, append-nil}
use byte_hive.Protocol.{Message, ping}
use byte_hive.Transport.{Codec, ErrorKind, timed_out, broken_pipe, invalid_data, serialise_message}

abbrev pub send_queue_depth : ℕ
send_queue_depth = 512

abbrev pub heartbeat_interval : ℕ
heartbeat_interval = 15 * 10 ^ 9

abbrev pub heartbeat_timeout : ℕ
heartbeat_timeout = 30 * 10 ^ 9

abbrev pub heartbeat_poll : ℕ
heartbeat_poll = 2 * 10 ^ 9

-- The sending side of a connection, and the time of the last frame that the thread received.
pub record Connection : Type 0 where
  pub queue : List (Option (List ℕ))
  pub connected : Bool
  pub last_send_wall : ℕ
  pub last_recv_wall : ℕ

pub data Sent : Type 0 where
  sent : Sent
  refused : ErrorKind → Sent

-- `send` on the channel: it blocks while the queue is full, so that room is a condition of the call
-- (see `has_room`).
unfoldable pub send_frame : ℕ → List ℕ → Connection → Connection × Sent
send_frame now frame c =
    if c.connected
    then (record c { queue = c.queue ++ some frame ∷ []; last_send_wall = now }, sent)
    else (c, refused broken_pipe)

unfoldable pub has_room : Connection → Bool
has_room c = ltb (length c.queue) send_queue_depth

unfoldable pub try_send_frame : ℕ → List ℕ → Connection → Connection × Bool
unfolding has_room
try_send_frame now frame c =
    if c.connected && has_room c
    then (record c { queue = c.queue ++ some frame ∷ []; last_send_wall = now }, true)
    else (c, false)

module _ (C : Codec) where
  unfoldable pub send_serialised : ℕ → Option (List ℕ) → Connection → Connection × Sent
  unfolding send_frame
  send_serialised now none c = (c, refused invalid_data)
  send_serialised now (some frame) c = send_frame now frame c

  unfoldable pub send : ℕ → Message → Connection → Connection × Sent
  unfolding send_serialised
  send now msg c = send_serialised now (serialise_message C msg) c

  check_recv : ℕ → Connection × Sent → Connection × Option ErrorKind
  check_recv now (c, refused k) = (c, some k)
  check_recv now (c, sent) =
      (c, if leb heartbeat_timeout (now - c.last_recv_wall) then some timed_out else none)

  -- The error it returns, if any.
  unfoldable pub heartbeat_maintenance : ℕ → Connection → Connection × Option ErrorKind
  unfolding check_recv
  heartbeat_maintenance now c =
      if leb c.last_send_wall now && leb c.last_recv_wall now
      then check_recv now
          (if leb heartbeat_interval (now - c.last_send_wall) then send now ping c else (c, sent))
      else (record c { last_send_wall = now; last_recv_wall = now }, none)

  go_further :
      (Connection → Connection × Option ErrorKind)
      → Connection × Option ErrorKind
      → Connection × Option ErrorKind
  go_further k (c, none) = k c
  go_further k (c, some e) = (c, some e)

  -- Maintenance at these times, in order, until it fails. With each stands the time at which the thread
  -- has last received a frame by then.
  unfoldable pub maintain : List (ℕ × ℕ) → Connection → Connection × Option ErrorKind
  unfolding go_further
  maintain [] c = (c, none)
  maintain ((t, heard) ∷ ts) c =
      go_further (maintain ts) (heartbeat_maintenance t (record c { last_recv_wall = heard }))

  unfoldable pub last_of : ℕ → List (ℕ × ℕ) → ℕ
  last_of t [] = t
  last_of t ((u, heard) ∷ us) = last_of u us

  -- Maintenance fails by a timeout exactly when the clock did not go back behind the last frame sent
  -- or received and nothing was received for the timeout, if a ping can be sent; otherwise it
  -- succeeds, and then the last frame was sent less than the interval ago.
  pub heartbeat_maintenance_lem :
      (now : ℕ) (c : Connection) (frame : List ℕ)
      → serialise_message C ping ≡ some frame
      → c.connected ≡ true
      → ((heartbeat_maintenance now c).1 ≡ (
          if leb c.last_send_wall now
            && leb c.last_recv_wall now
            && leb heartbeat_timeout (now - c.last_recv_wall)
          then some timed_out
          else none))
        × ((heartbeat_maintenance now c).0.last_send_wall ≤ now)
        × (now < (heartbeat_maintenance now c).0.last_send_wall + heartbeat_interval)
        × ((heartbeat_maintenance now c).0.connected ≡ true)
  unfolding heartbeat_maintenance check_recv send send_serialised send_frame
  heartbeat_maintenance_lem now c frame sp up =
      elim (Bool-cases (leb c.last_send_wall now && leb c.last_recv_wall now)) [
        | inr back ↦ ground (arith, back)
        | inl fine ↦ elim (Bool-cases (leb heartbeat_interval (now - c.last_send_wall))) [
          | inl idle ↦ ground (arith, fine, idle, sp)
          | inr busy ↦ ground (arith, fine, busy)
        ]
      ]

  -- Times that do not go back, from `start` on, each at most the poll interval after the one before,
  -- and not before the frame that was received last.
  abbrev pub IsPaced : ℕ → List (ℕ × ℕ) → Type 0
  IsPaced start [] = Unit
  IsPaced start ((t, heard) ∷ ts) =
      (start ≤ t) × (t ≤ start + heartbeat_poll) × (heard ≤ t) × IsPaced t ts

  -- From `last` on, through these times of sending and up to `later`, there is no gap of the timeout.
  abbrev pub NoGap : ℕ → List ℕ → ℕ → Type 0
  NoGap last [] later = later < last + heartbeat_timeout
  NoGap last (u ∷ us) later = (last ≤ u) × (u < last + heartbeat_timeout) × NoGap u us later

  -- The frame once for each of the times.
  unfoldable pub frames_for : List ℕ → List ℕ → List (Option (List ℕ))
  frames_for us frame = map (λ u. some frame) us

  -- The frames that a run has put in the queue, with their times.
  pub record HasPinged (frame : List ℕ) (later : ℕ) (c c' : Connection) : Type 0 where
    pub times : List ℕ
    pub queue_eq : c'.queue ≡ c.queue ++ frames_for times frame
    pub no_gap : NoGap c.last_send_wall times later

  -- What a run starts from: the connection is up, the clock is not behind the last frame sent, and that
  -- one was sent less than the interval ago.
  pub record IsLively (now : ℕ) (c : Connection) : Type 0 where
    pub up : c.connected ≡ true
    pub sent_before : c.last_send_wall ≤ now
    pub recent : now < c.last_send_wall + heartbeat_interval

  -- One call, where the clock has not gone back and a ping is due or not.
  abbrev pinged : ℕ → List ℕ → Connection → Connection
  pinged t frame c = record c { queue = c.queue ++ some frame ∷ []; last_send_wall = t }

  heartbeat_maintenance-cases :
      (t : ℕ) (c : Connection) (frame : List ℕ)
      → serialise_message C ping ≡ some frame
      → c.connected ≡ true
      → c.last_send_wall ≤ t
      → c.last_recv_wall ≤ t
      → ((heartbeat_maintenance t c).0 ≡ pinged t frame c)
        ⊎ (((heartbeat_maintenance t c).0 ≡ c) × (t < c.last_send_wall + heartbeat_interval))
  unfolding heartbeat_maintenance check_recv send send_serialised send_frame
  heartbeat_maintenance-cases t c frame sp up before heard =
      elim (Bool-cases (leb heartbeat_interval (t - c.last_send_wall))) [
        | inl idle ↦ inl (ground (arith, idle, sp, up, before, heard))
        | inr busy ↦ inr (ground (arith, busy, before, heard), ground (arith, busy))
      ]

  go_further-none :
      (k : Connection → Connection × Option ErrorKind) (r : Connection × Option ErrorKind)
      (c' : Connection)
      → go_further k r ≡ (c', none)
      → k r.0 ≡ (c', none)
  unfolding go_further
  go_further-none k (c, none) c' h = h
  go_further-none k (c, some e) c' h = cc

  -- While maintenance goes on without an error, a ping is put in the queue so often that no two frames
  -- are the timeout apart: from the last frame before the run, over the pings that the run adds to the
  -- queue, to any time up to the poll interval after the run, whatever is received meanwhile.
  -- Maintenance is called at least once in a poll interval, the clock does not go back, a ping can be
  -- serialised, and the run starts with the connection up and a frame sent less than the interval
  -- ago.
  pub maintain-HasPinged :
      (frame : List ℕ) (start : ℕ) (ts : List (ℕ × ℕ)) (later : ℕ) (c c' : Connection)
      → serialise_message C ping ≡ some frame
      → IsLively start c
      → IsPaced start ts
      → maintain ts c ≡ (c', none)
      → later ≤ last_of start ts + heartbeat_poll
      → HasPinged frame later c c'
  unfolding maintain last_of frames_for
  maintain-HasPinged frame start [] later c c' sp l _ done soon =
      let recent = l.recent in
      record {
        times = [];
        queue_eq = ground (arith, done, append-nil c.queue);
        no_gap = omega arith;
      }
  maintain-HasPinged frame start ((t, heard) ∷ ts) later c c' sp l (after, near, past, paced) done
        soon =
      let recent = l.recent in
      let before : c.last_send_wall ≤ t = let b = l.sent_before in omega arith in
      let d : Connection = record c { last_recv_wall = heard } in
      let rest : maintain ts (heartbeat_maintenance t d).0 ≡ (c', none) =
        go_further-none (maintain ts) (heartbeat_maintenance t d) c' done in
      elim (heartbeat_maintenance-cases t d frame sp l.up before past) [
        | inl is_pinged ↦
            let later_pings : HasPinged frame later (pinged t frame d) c' =
              maintain-HasPinged frame t ts later (pinged t frame d) c' sp
                (record { up = l.up; sent_before = omega arith; recent = omega arith }) paced
                (ap (maintain ts) (sym is_pinged) ∙ rest) soon in
            record {
              times = t ∷ later_pings.times;
              queue_eq =
                  later_pings.queue_eq
                  ∙ append_assoc c.queue (some frame ∷ []) (frames_for later_pings.times frame);
              no_gap = (before, omega arith, later_pings.no_gap);
            }
        | inr (same, fresh) ↦
            let r : HasPinged frame later d c' =
              maintain-HasPinged frame t ts later d c' sp
                (record { up = l.up; sent_before = before; recent = fresh }) paced
                (ap (maintain ts) (sym same) ∙ rest) soon in
            record { times = r.times; queue_eq = r.queue_eq; no_gap = r.no_gap }
      ]
