-- ===== src/Tests/Wire.antt =====
-- The transport and the server's loops at concrete inputs: a codec of four messages.
use byte_hive.Base.{ℕ, ◌+◌, ◌*◌, ◌^◌, ◌≤◌, ◌<◌, true, false, none, some, Option, List}
use byte_hive.Base.{
  ◌++◌, [], ◌∷◌, ◌≡◌, refl, arith, codes, length, map, select, if◌then◌else◌, ◌==◌,
}
use byte_hive.Base.{nat_eq, list_eq, leb, ◌&&◌, ◌-◌}
use byte_hive.Base.Dict
use byte_hive.Base.Dict.{Dict}
use byte_hive.Base.Paths.{component_eq}
use byte_hive.Protocol.{
  Message, ping, pong, sync_complete, delete, action_batch_end, action_batch_ack,
}
use byte_hive.Transport.{Codec, Event, chunk, wait, new, timed_out, serialise_message, to_be_bytes}
use byte_hive.Transport.Frames.{bytes, waits}
use byte_hive.Transport.Chunking.{CodecLaws}
use byte_hive.Transport.Stream.{run_polls, frames, run_polls-frames}
use byte_hive.Transport.Loop.{io_loop, go_on, ok}
use byte_hive.Transport.Loop.Delivery.{idle, is_data, replies, io_loop-frames}
use byte_hive.Transport.Heartbeat.{
  Connection, heartbeat_interval, heartbeat_timeout, heartbeat_maintenance, maintain, last_of,
  heartbeat_maintenance_lem, maintain-HasPinged, HasPinged, send, send_frame,
}
use byte_hive.Server
use byte_hive.Server.{Peer, ClientState, apply_client_action, recv_action_drain, Acking}
use byte_hive.Server.Relay.{IsReached, apply_client_action-IsReached}
use byte_hive.Server.Acks.{acked, all_applied, apply_all, drain_messages-end_batch}
use byte_hive.Server.Sound.{recv_action_drain-IsSound}
use byte_hive.SyncEngine.Sound.{IsSound}
use byte_hive.Tests.Data.{docs, disk, engine, engine-IsSound}

write : Message → Option (List ℕ)
write ping = some (1 ∷ [])
write pong = some (2 ∷ [])
write sync_complete = some (3 ∷ [])
write (action_batch_ack n) = some (4 ∷ n ∷ [])
write _ = none

read : List ℕ → Option Message
read [] = none
read (b ∷ []) =
    if b == 1
    then some ping
    else if b == 2
    then some pong
    else if b == 3
    then some sync_complete
    else none
read (b ∷ n ∷ bs) = if b == 4 then some (action_batch_ack n) else none

abbrev codec : Codec
codec = record {
  serialize = write;
  deserialize = read;
  compress = λ raw. raw;
  decompress = λ body. some body;
}

read-write : (m : Message) (raw : List ℕ) → write m ≡ some raw → read raw ≡ some m
unfolding write read nat_eq
read-write ping raw h = ground (arith, h)
read-write pong raw h = ground (arith, h)
read-write sync_complete raw h = ground (arith, h)
read-write (action_batch_ack n) raw h = ground (arith, h)
read-write _ raw h = cc

codec_laws : CodecLaws codec
codec_laws = record { deserialize-serialize = read-write; decompress-compress = λ raw. refl }

-- A ping and a message, cut within the first header, with a timeout in between.
abbrev reads : List Event
reads = chunk (0 ∷ 0 ∷ 0 ∷ []) ∷ wait ∷ chunk (1 ∷ 1 ∷ 0 ∷ 0 ∷ 0 ∷ 1 ∷ 3 ∷ []) ∷ []

abbrev stream : List ℕ
stream = 0 ∷ 0 ∷ 0 ∷ 1 ∷ 1 ∷ 0 ∷ 0 ∷ 0 ∷ 1 ∷ 3 ∷ []

abbrev both : List Message
both = ping ∷ sync_complete ∷ []

both-frames : frames codec both ≡ some stream
unfolding frames serialise_message to_be_bytes write
both-frames = refl

read_bytes : bytes reads ≡ stream
unfolding bytes
read_bytes = refl

enough : length both + waits reads ≤ 3
unfolding waits
enough = omega arith

run_polls-frames_example : run_polls codec 3 new reads ≡ (both, none)
run_polls-frames_example =
    run_polls-frames codec codec_laws both stream reads 3 both-frames read_bytes tt enough

pong_frame : serialise_message codec pong ≡ some (0 ∷ 0 ∷ 0 ∷ 1 ∷ 2 ∷ [])
unfolding serialise_message to_be_bytes write
pong_frame = refl

io_loop-frames_example :
    let (io, flow) = io_loop codec (λ w f. none) 3 (λ n. 7) (idle new reads [] [] 0) in
    (flow ≡ go_on)
    × (io.delivered ≡ map ok (select is_data both))
    × (io.written ≡ replies (0 ∷ 0 ∷ 0 ∷ 1 ∷ 2 ∷ []) both)
io_loop-frames_example =
    io_loop-frames codec (λ w f. none) (0 ∷ 0 ∷ 0 ∷ 1 ∷ 2 ∷ []) (λ n. 7) codec_laws both stream
      reads 3 0 pong_frame (λ w f. refl) both-frames read_bytes tt enough

abbrev conn : Connection
conn = record { queue = []; connected = true; last_send_wall = 5; last_recv_wall = 5 }

ping_frame : serialise_message codec ping ≡ some (0 ∷ 0 ∷ 0 ∷ 1 ∷ 1 ∷ [])
unfolding serialise_message to_be_bytes write
ping_frame = refl

heartbeat_maintenance_lem_run :
    ((heartbeat_maintenance codec (40 * 10 ^ 9) conn).1 ≡ (
      if leb 5 (40 * 10 ^ 9) && leb 5 (40 * 10 ^ 9) && leb heartbeat_timeout (40 * 10 ^ 9 - 5)
      then some timed_out
      else none))
    × ((heartbeat_maintenance codec (40 * 10 ^ 9) conn).0.last_send_wall ≤ 40 * 10 ^ 9)
    × (40 * 10 ^ 9
        < (heartbeat_maintenance codec (40 * 10 ^ 9) conn).0.last_send_wall + heartbeat_interval)
    × ((heartbeat_maintenance codec (40 * 10 ^ 9) conn).0.connected ≡ true)
heartbeat_maintenance_lem_run =
    heartbeat_maintenance_lem codec (40 * 10 ^ 9) conn (0 ∷ 0 ∷ 0 ∷ 1 ∷ 1 ∷ []) ping_frame refl

-- Calls every two seconds for 36 seconds, in which frames are received and two pings are due.
abbrev times : List (ℕ × ℕ)
times =
    (2 * 10 ^ 9, 5)
    ∷ (4 * 10 ^ 9, 5)
    ∷ (6 * 10 ^ 9, 5)
    ∷ (8 * 10 ^ 9, 5)
    ∷ (10 * 10 ^ 9, 5)
    ∷ (12 * 10 ^ 9, 11 * 10 ^ 9)
    ∷ (14 * 10 ^ 9, 11 * 10 ^ 9)
    ∷ (16 * 10 ^ 9, 11 * 10 ^ 9)
    ∷ (18 * 10 ^ 9, 11 * 10 ^ 9)
    ∷ (20 * 10 ^ 9, 11 * 10 ^ 9)
    ∷ (22 * 10 ^ 9, 11 * 10 ^ 9)
    ∷ (24 * 10 ^ 9, 11 * 10 ^ 9)
    ∷ (26 * 10 ^ 9, 11 * 10 ^ 9)
    ∷ (28 * 10 ^ 9, 11 * 10 ^ 9)
    ∷ (30 * 10 ^ 9, 29 * 10 ^ 9)
    ∷ (32 * 10 ^ 9, 29 * 10 ^ 9)
    ∷ (34 * 10 ^ 9, 29 * 10 ^ 9)
    ∷ (36 * 10 ^ 9, 29 * 10 ^ 9)
    ∷ []

abbrev twice : Connection
twice = record {
  queue = some (0 ∷ 0 ∷ 0 ∷ 1 ∷ 1 ∷ []) ∷ some (0 ∷ 0 ∷ 0 ∷ 1 ∷ 1 ∷ []) ∷ [];
  connected = true;
  last_send_wall = 32 * 10 ^ 9;
  last_recv_wall = 29 * 10 ^ 9;
}

maintained : maintain codec times conn ≡ (twice, none)
unfolding maintain heartbeat_maintenance send send_frame serialise_message to_be_bytes write
maintained = refl

maintain-HasPinged_example : HasPinged codec (0 ∷ 0 ∷ 0 ∷ 1 ∷ 1 ∷ []) (38 * 10 ^ 9) conn twice
unfolding last_of
maintain-HasPinged_example =
    maintain-HasPinged codec (0 ∷ 0 ∷ 0 ∷ 1 ∷ 1 ∷ []) 6 times (38 * 10 ^ 9) conn twice ping_frame
      (record { up = refl; sent_before = omega arith; recent = omega arith }) (omega arith)
      maintained (omega arith)

abbrev peer : Peer
peer = record { queue = []; connected = true }

abbrev client : ClientState ℕ
client = record {
  node = record { engine = engine; bus = none };
  peers = (codes "b", peer) ∷ [];
  conn = conn;
}

abbrev gone : Message
gone = delete (docs ∷ []) 5 (codes "n")

peer_found : Dict.lookup (codes "b") client.peers ≡ some peer
unfolding Dict.lookup list_eq nat_eq
peer_found = refl

apply_client_action-IsReached_example :
    let (s', applied) = apply_client_action disk codec (codes "a") gone client in
    (q : Peer) × (Dict.lookup (codes "b") s'.peers ≡ some q)
    × IsReached disk codec 1000 (codes "a") (codes "b") peer q applied
apply_client_action-IsReached_example =
    apply_client_action-IsReached disk codec (codes "a") gone client (codes "b") peer peer_found

abbrev fresh : Acking disk codec
fresh = record { client = client; last_acked = 4; chunk_failed = false }

-- A chunk whose only action is applied: 9 is acknowledged.
end_batch_frame :
    serialise_message codec (action_batch_ack (acked disk codec (codes "a") 9 (gone ∷ []) fresh))
    ≡ some (0 ∷ 0 ∷ 0 ∷ 2 ∷ 4 ∷ 9 ∷ [])
unfolding serialise_message to_be_bytes write acked all_applied apply_client_action
end_batch_frame = refl

still_up : (apply_all disk codec (codes "a") (gone ∷ []) client).conn.connected ≡ true
unfolding apply_all apply_client_action
still_up = refl

drain_messages-end_batch_example :
    (b : Acking disk codec) × (Server.drain_messages disk codec
        (codes "a")
        (gone ∷ action_batch_end 9 ∷ [])
        fresh
      ≡ Server.drain_messages disk codec (codes "a") [] b)
    × (b.client.conn.queue
        ≡ (apply_all disk codec (codes "a") (gone ∷ []) client).conn.queue
          ++ some (0 ∷ 0 ∷ 0 ∷ 2 ∷ 4 ∷ 9 ∷ []) ∷ [])
    × (b.client.peers ≡ (apply_all disk codec (codes "a") (gone ∷ []) client).peers)
    × (b.last_acked ≡ acked disk codec (codes "a") 9 (gone ∷ []) fresh)
    × (b.chunk_failed ≡ false)
drain_messages-end_batch_example =
    drain_messages-end_batch disk codec (codes "a") (gone ∷ []) [] 9 fresh
      (0 ∷ 0 ∷ 0 ∷ 2 ∷ 4 ∷ 9 ∷ []) (tt, tt) refl still_up end_batch_frame

recv_action_drain-IsSound_example :
    IsSound (recv_action_drain disk codec (codes "a") (gone ∷ []) client).0.client.node.engine
recv_action_drain-IsSound_example =
    recv_action_drain-IsSound disk codec (codes "a") (gone ∷ []) client engine-IsSound
