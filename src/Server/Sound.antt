-- ===== src/Server/Sound.antt =====
-- The messages of a client in server.rs and the invariant of the engine.
use byte_hive.Base.{ℕ, List, [], ◌∷◌, Text}
use byte_hive.Base.Paths.{FilePath}
use byte_hive.Protocol.{
  Message, bundle, delete, large_file_start, large_file_chunk, large_file_end, rename,
  action_batch_end,
}
use byte_hive.Transport.{Codec}
use byte_hive.Transport.Heartbeat.{Sent, sent, refused}
use byte_hive.SyncEngine.{Fs, IoResult, ok, err}
use byte_hive.SyncEngine.Sound.{IsSound, flush_ledger-IsSound}
use byte_hive.Incoming.{Node, LargeFileEndOutcome, end_committed, end_with_conflict, end_missing}
use byte_hive.Incoming.{clamp_future_stamp, handle_recv_delete_with_meta}
use byte_hive.Incoming.Sound.{
  handle_recv_bundle-IsSound, handle_recv_large_file_start-IsSound,
  handle_recv_large_file_chunk-IsSound, handle_recv_large_file_end-IsSound,
  handle_recv_delete_with_meta-IsSound, handle_recv_rename-IsSound,
}
use byte_hive.Server.{
  ClientState, now_of, relayed, end_relayed, delete_relayed, request_retransmit,
  apply_client_action, flush_node, Acking, end_batch, act, Next, again, manifest, abort, after_ack,
  drain_message, go_on, drain_messages, recv_action_drain,
}

module _ (F : Fs) (C : Codec) (client_id : Text) where
  open F use {World}

  abbrev Sound : ClientState World → Type 0
  Sound s = IsSound s.node.engine

  relayed-Sound :
      {A : Type 0} (msg : Message) (s : ClientState World) (r : IoResult A × Node World)
      → IsSound r.1.engine
      → Sound (relayed F C client_id msg s r).0
  unfolding relayed
  relayed-Sound msg s (ok a, n) h = h
  relayed-Sound msg s (err e, n) h = h

  end_relayed-Sound :
      (path : FilePath) (msg : Message) (s : ClientState World)
      (r : IoResult LargeFileEndOutcome × Node World)
      → IsSound r.1.engine
      → Sound (end_relayed F C client_id path msg s r).0
  unfolding end_relayed relayed request_retransmit
  end_relayed-Sound path msg s (ok end_committed, n) h = h
  end_relayed-Sound path msg s (ok (end_with_conflict c), n) h = h
  end_relayed-Sound path msg s (ok (end_missing l), n) h = h
  end_relayed-Sound path msg s (err e, n) h = h

  apply_client_action-Sound :
      (msg : Message) (s : ClientState World)
      → Sound s
      → Sound (apply_client_action F C client_id msg s).0
  unfolding apply_client_action delete_relayed
  apply_client_action-Sound (bundle b) s h =
      relayed-Sound _ s _ (handle_recv_bundle-IsSound F _ client_id s.node h)
  apply_client_action-Sound (large_file_start m n at) s h =
      relayed-Sound _ s _ (handle_recv_large_file_start-IsSound F m n _ s.node h)
  apply_client_action-Sound (large_file_chunk path i bytes) s h =
      relayed-Sound _ s _ (handle_recv_large_file_chunk-IsSound F path i bytes s.node h)
  apply_client_action-Sound (large_file_end path x) s h =
      end_relayed-Sound path _ s _ (handle_recv_large_file_end-IsSound F path x client_id s.node h)
  apply_client_action-Sound (delete paths at deleter) s h =
      let at' = clamp_future_stamp (now_of F C s) at in
      delete_relayed-Sound (delete paths at' deleter) s
        (handle_recv_delete_with_meta F paths at' deleter client_id s.node)
        (handle_recv_delete_with_meta-IsSound F paths at' deleter client_id s.node h)
    where
      delete_relayed-Sound :
          (msg : Message) (s : ClientState World) (r : Node World × ℕ)
          → IsSound r.0.engine
          → Sound (delete_relayed F C client_id msg s r).0
      delete_relayed-Sound msg s (n, count) g = relayed-Sound msg s (ok count, n) g
  apply_client_action-Sound (rename source target at) s h =
      relayed-Sound _ s _ (handle_recv_rename-IsSound F source target _ client_id s.node h)
  apply_client_action-Sound _ s h = h

  end_batch-Sound : (n : ℕ) (a : Acking F C) → Sound a.client → Sound (end_batch F C n a).0.client
  unfolding end_batch flush_node
  end_batch-Sound n a h = flush_ledger-IsSound F a.client.node.engine h

  after_ack-Sound : (r : Acking F C × Sent) → Sound r.0.client → Sound (after_ack F C r).0.client
  unfolding after_ack
  after_ack-Sound (a, sent) h = h
  after_ack-Sound (a, refused k) h = h

  act-Sound :
      (msg : Message) (a : Acking F C) → Sound a.client → Sound (act F C client_id msg a).client
  unfolding act
  act-Sound msg a h = apply_client_action-Sound msg a.client h

  drain_message-Sound :
      (msg : Message) (a : Acking F C)
      → Sound a.client
      → Sound (drain_message F C client_id msg a).0.client
  unfolding drain_message
  drain_message-Sound (action_batch_end n) a h = after_ack-Sound _ (end_batch-Sound n a h)
  drain_message-Sound (bundle b) a h = act-Sound (bundle b) a h
  drain_message-Sound (large_file_start m n t) a h = act-Sound (large_file_start m n t) a h
  drain_message-Sound (large_file_chunk p i d) a h = act-Sound (large_file_chunk p i d) a h
  drain_message-Sound (large_file_end p x) a h = act-Sound (large_file_end p x) a h
  drain_message-Sound (delete ps t d) a h = act-Sound (delete ps t d) a h
  drain_message-Sound (rename p q t) a h = act-Sound (rename p q t) a h
  drain_message-Sound _ a h = h

  go_on-Sound :
      (k : Acking F C → Acking F C × Next F C) (r : Acking F C × Next F C)
      → ((a : Acking F C) → Sound a.client → Sound (k a).0.client)
      → Sound r.0.client
      → Sound (go_on F C k r).0.client
  unfolding go_on
  go_on-Sound k (a, again) f h = f a h
  go_on-Sound k (a, manifest m) f h = h
  go_on-Sound k (a, abort) f h = h

  drain_messages-Sound :
      (msgs : List Message) (a : Acking F C)
      → Sound a.client
      → Sound (drain_messages F C client_id msgs a).0.client
  unfolding drain_messages
  drain_messages-Sound [] a h = h
  drain_messages-Sound (msg ∷ msgs) a h =
      go_on-Sound (drain_messages F C client_id msgs) (drain_message F C client_id msg a)
        (drain_messages-Sound msgs) (drain_message-Sound msg a h)

  -- Whatever messages a client sends while it drains its journal, unsafe paths and forged stamps
  -- included, the server's engine keeps its invariant: the manifest and the transfers hold safe
  -- paths only, and the ledger's two maps agree.
  pub recv_action_drain-IsSound :
      (msgs : List Message) (s : ClientState World)
      → IsSound s.node.engine
      → IsSound (recv_action_drain F C client_id msgs s).0.client.node.engine
  unfolding recv_action_drain
  recv_action_drain-IsSound msgs s h = drain_messages-Sound msgs _ h
