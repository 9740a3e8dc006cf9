-- ===== src/Server.antt =====
-- crates/filesync/src/server.rs: what the server does with the actions of a client. Log lines are
-- not modelled.
pub mod Relay
pub mod Acks
pub mod Sound
use byte_hive.Base.{
  ℕ, ◌+◌, Bool, true, false, ◌&&◌, not, Option, none, some, List, [], ◌∷◌, ◌++◌, Text,
}
use byte_hive.Base.{max, ltb, if◌then◌else◌, length, ◌==◌, list_eq, nat_eq}
use byte_hive.Base.Dict
use byte_hive.Base.Dict.{Dict}
use byte_hive.Base.Paths.{FilePath, component_eq}
use byte_hive.Protocol.{
  Manifest, Message, FileBundle, manifest_exchange, bundle, delete, large_file_start,
  large_file_chunk, large_file_end, rename, request_chunks, insufficient_disk_space,
  action_batch_end, action_batch_ack, change_acknowledgment,
}
use byte_hive.Transport.{Codec, serialise_message}
use byte_hive.Transport.Heartbeat.{Connection, Sent, sent, refused, send}
use byte_hive.SyncEngine.{Fs, SyncEngine, IoResult, ok, err}
use byte_hive.SyncEngine.Admission.{flush_ledger}
use byte_hive.Incoming.{
  Node, BundleApplied, ChunkOutcome, LargeFileEndOutcome, end_committed, end_with_conflict,
  end_missing, clamp_bundle, clamp_future_stamp, clamp_future_stamp_opt, handle_recv_bundle,
  handle_recv_large_file_start, handle_recv_large_file_chunk, handle_recv_large_file_end,
  handle_recv_delete_with_meta, handle_recv_rename,
}

-- The queue of a peer's broadcast channel, and whether its other end is there.
pub record Peer : Type 0 where
  pub queue : List (List ℕ)
  pub connected : Bool

pub record ClientState (W : Type 0) : Type 0 where
  pub node : Node W
  pub peers : Dict Text Peer
  pub conn : Connection

abbrev pub client_broadcast_depth : ℕ
client_broadcast_depth = 512

-- `try_send`
unfoldable pub push_frame : List ℕ → Peer → Peer
push_frame frame p =
    if p.connected && ltb (length p.queue) client_broadcast_depth
    then record p { queue = p.queue ++ frame ∷ [] }
    else p

push_others : Text → List ℕ → Dict Text Peer → Dict Text Peer
unfolding push_frame
push_others sender_id frame [] = []
push_others sender_id frame ((id, p) ∷ peers) =
    (id, if id == sender_id then p else push_frame frame p) ∷ push_others sender_id frame peers

push_serialised : Text → Option (List ℕ) → Dict Text Peer → Dict Text Peer
unfolding push_others
push_serialised sender_id none peers = peers
push_serialised sender_id (some frame) peers = push_others sender_id frame peers

module _ (F : Fs) (C : Codec) where
  open F use {World}

  -- With no peer nothing is serialised, which makes no difference.
  unfoldable pub broadcast_to_others : Text → Message → Dict Text Peer → Dict Text Peer
  unfolding push_serialised
  broadcast_to_others sender_id msg peers =
      push_serialised sender_id (serialise_message C msg) peers

  now_of : ClientState World → ℕ
  now_of s = F.now_ms s.node.engine.world

  -- Whether the action was applied; only then it is relayed.
  relayed :
      {A : Type 0}
      → Text
      → Message
      → ClientState World
      → IoResult A × Node World
      → ClientState World × Bool
  relayed client_id msg s (err e, n) = (record s { node = n }, false)
  relayed client_id msg s (ok a, n) =
      (record s { node = n; peers = broadcast_to_others client_id msg s.peers }, true)

  -- `request_retransmit`
  request_retransmit : FilePath → List ℕ → ClientState World → ClientState World
  request_retransmit path indices s = record s {
    conn = (send C (now_of s) (request_chunks path indices) s.conn).0;
  }

  end_relayed :
      Text
      → FilePath
      → Message
      → ClientState World
      → IoResult LargeFileEndOutcome × Node World
      → ClientState World × Bool
  unfolding relayed request_retransmit
  end_relayed client_id path msg s (ok (end_missing indices), n) =
      (request_retransmit path indices (record s { node = n }), false)
  end_relayed client_id path msg s (ok (end_with_conflict c), n) =
      relayed client_id msg s (ok end_committed, n)
  end_relayed client_id path msg s (ok end_committed, n) =
      relayed client_id msg s (ok end_committed, n)
  end_relayed client_id path msg s (err e, n) = (record s { node = n }, false)

  delete_relayed : Text → Message → ClientState World → Node World × ℕ → ClientState World × Bool
  unfolding relayed
  delete_relayed client_id msg s (n, count) = relayed client_id msg s (ok count, n)

  unfoldable pub apply_client_action : Text → Message → ClientState World → ClientState World × Bool
  unfolding relayed end_relayed delete_relayed now_of
  apply_client_action client_id (bundle b) s =
      let b' = clamp_bundle (now_of s) b in
      relayed client_id (bundle b') s (handle_recv_bundle F b' client_id s.node)
  apply_client_action client_id (large_file_start metadata total_chunks action_ms) s =
      let at = clamp_future_stamp_opt (now_of s) action_ms in
      relayed client_id (large_file_start metadata total_chunks at) s
        (handle_recv_large_file_start F metadata total_chunks at s.node)
  apply_client_action client_id (large_file_chunk path chunk_index bytes) s =
      relayed client_id (large_file_chunk path chunk_index bytes) s
        (handle_recv_large_file_chunk F path chunk_index bytes s.node)
  apply_client_action client_id (large_file_end path final_hash) s =
      end_relayed client_id path (large_file_end path final_hash) s
        (handle_recv_large_file_end F path final_hash client_id s.node)
  apply_client_action client_id (delete paths deleted_at_ms deleter) s =
      let at = clamp_future_stamp (now_of s) deleted_at_ms in
      delete_relayed client_id (delete paths at deleter) s
        (handle_recv_delete_with_meta F paths at deleter client_id s.node)
  apply_client_action client_id (rename source target action_ms) s =
      let at = clamp_future_stamp (now_of s) action_ms in
      relayed client_id (rename source target at) s
        (handle_recv_rename F source target at client_id s.node)
  apply_client_action client_id _ s = (s, true)

  flush_node : ClientState World → ClientState World
  flush_node s = record s { node = record s.node { engine = flush_ledger F s.node.engine } }

  -- The variables of the loop: the last acknowledgement, and whether the chunk failed.
  pub record Acking : Type 0 where
    pub client : ClientState World
    pub last_acked : ℕ
    pub chunk_failed : Bool

  unfoldable pub ack_upto : ℕ → Acking → ℕ
  ack_upto upto_seq a = if a.chunk_failed then a.last_acked else max upto_seq a.last_acked

  -- `ActionBatchEnd`: the state after it, and whether the acknowledgement was sent.
  unfoldable pub end_batch : ℕ → Acking → Acking × Sent
  unfolding ack_upto flush_node now_of
  end_batch upto_seq a =
      let client = flush_node a.client in
      let (conn, outcome) =
        send C (now_of client) (action_batch_ack (ack_upto upto_seq a)) client.conn in
      (
        record {
          client = record client { conn = conn };
          last_acked = if a.chunk_failed then a.last_acked else ack_upto upto_seq a;
          chunk_failed = false;
        },
        outcome,
      )

  -- The arm of the six actions.
  unfoldable pub act : Text → Message → Acking → Acking
  act client_id msg a =
      let (client, applied) = apply_client_action client_id msg a.client in
      record a { client = client; chunk_failed = if applied then a.chunk_failed else true }

  -- How the drain goes on: with the next message, with the client's manifest, or by an error.
  pub data Next : Type 0 where
    again : Next
    manifest : Manifest → Next
    abort : Next

  unfoldable pub after_ack : Acking × Sent → Acking × Next
  after_ack (a, sent) = (a, again)
  after_ack (a, refused k) = (a, abort)

  unfoldable pub drain_message : Text → Message → Acking → Acking × Next
  unfolding after_ack
  drain_message client_id (manifest_exchange m) a = (a, manifest m)
  drain_message client_id (action_batch_end upto_seq) a = after_ack (end_batch upto_seq a)
  drain_message client_id (insufficient_disk_space available required) a = (a, abort)
  drain_message client_id (bundle b) a = (act client_id (bundle b) a, again)
  drain_message client_id (large_file_start m n t) a =
      (act client_id (large_file_start m n t) a, again)
  drain_message client_id (large_file_chunk p i d) a =
      (act client_id (large_file_chunk p i d) a, again)
  drain_message client_id (large_file_end p h) a = (act client_id (large_file_end p h) a, again)
  drain_message client_id (delete ps t d) a = (act client_id (delete ps t d) a, again)
  drain_message client_id (rename p q t) a = (act client_id (rename p q t) a, again)
  drain_message client_id _ a = (a, again)

  unfoldable pub go_on : (Acking → Acking × Next) → Acking × Next → Acking × Next
  go_on k (a, again) = k a
  go_on k (a, manifest m) = (a, manifest m)
  go_on k (a, abort) = (a, abort)

  -- The loop over what is received until the connection ends.
  unfoldable pub drain_messages : Text → List Message → Acking → Acking × Next
  unfolding go_on drain_message
  drain_messages client_id [] a = (a, abort)
  drain_messages client_id (msg ∷ msgs) a =
      go_on (drain_messages client_id msgs) (drain_message client_id msg a)

  unfoldable pub recv_action_drain : Text → List Message → ClientState World → Acking × Next
  unfolding drain_messages
  recv_action_drain client_id msgs s =
      drain_messages client_id msgs (record { client = s; last_acked = 0; chunk_failed = false })
