-- ===== src/Server/Acks.antt =====
-- `ActionBatchEnd` in server.rs: which acknowledgements a client gets.
use byte_hive.Base.{
  some, ℕ, max, Bool, true, false, List, [], ◌∷◌, ◌++◌, Text, ◌≡◌, refl, arith, not, ◌&&◌,
}
use byte_hive.Base.{if◌then◌else◌, All, ◌∙◌, ap, ◌||◌}
use byte_hive.Protocol.{
  Message, bundle, delete, large_file_start, large_file_chunk, large_file_end, rename,
  action_batch_end, action_batch_ack,
}
use byte_hive.Transport.{Codec, serialise_message}
use byte_hive.Transport.Heartbeat.{
  Connection, Sent, sent, refused, send, send_serialised, send_frame,
}
use byte_hive.SyncEngine.{Fs}
use byte_hive.Server.{
  ClientState, apply_client_action, Acking, ack_upto, end_batch, act, again, Next, flush_node,
  now_of, after_ack, drain_message, go_on, drain_messages,
}

-- The six messages that carry an action.
abbrev pub IsAction : Message → Type 0
IsAction (bundle b) = Unit
IsAction (large_file_start m n t) = Unit
IsAction (large_file_chunk p i d) = Unit
IsAction (large_file_end p h) = Unit
IsAction (delete ps t d) = Unit
IsAction (rename p q t) = Unit
IsAction _ = ⊥

module _ (F : Fs) (C : Codec) (client_id : Text) where
  open F use {World}

  -- Whether every action of a list is applied, one after the other.
  unfoldable pub all_applied : List Message → ClientState World → Bool
  all_applied [] s = true
  all_applied (msg ∷ msgs) s =
      let (s', applied) = apply_client_action F C client_id msg s in applied && all_applied msgs s'

  unfoldable pub apply_all : List Message → ClientState World → ClientState World
  apply_all [] s = s
  apply_all (msg ∷ msgs) s = apply_all msgs (apply_client_action F C client_id msg s).0

  unfoldable pub act_all : List Message → Acking F C → Acking F C
  act_all [] a = a
  act_all (msg ∷ msgs) a = act_all msgs (act F C client_id msg a)

  act-failed :
      (msg : Message) (a : Acking F C)
      → (act F C client_id msg a).chunk_failed
        ≡ (a.chunk_failed || not (apply_client_action F C client_id msg a.client).1)
  unfolding act
  act-failed msg a = ground arith

  act_all-lem :
      (msgs : List Message) (a : Acking F C)
      → ((act_all msgs a).client ≡ apply_all msgs a.client)
        × ((act_all msgs a).last_acked ≡ a.last_acked)
        × ((act_all msgs a).chunk_failed ≡ (a.chunk_failed || not (all_applied msgs a.client)))
  unfolding act_all apply_all all_applied act
  act_all-lem [] a = (refl, refl, ground arith)
  act_all-lem (msg ∷ msgs) a =
      let (client, last, failed) = act_all-lem msgs (act F C client_id msg a) in
      (client, last, failed ∙ ground (arith, act-failed msg a))

  drain_message-act :
      (msg : Message) (a : Acking F C)
      → IsAction msg
      → drain_message F C client_id msg a ≡ (act F C client_id msg a, again)
  unfolding drain_message
  drain_message-act (bundle b) a h = refl
  drain_message-act (large_file_start m n t) a h = refl
  drain_message-act (large_file_chunk p i d) a h = refl
  drain_message-act (large_file_end p x) a h = refl
  drain_message-act (delete ps t d) a h = refl
  drain_message-act (rename p q t) a h = refl
  drain_message-act _ a h = absurd h

  drain_messages-acts :
      (msgs rest : List Message) (a : Acking F C)
      → All IsAction msgs
      → drain_messages F C client_id (msgs ++ rest) a
        ≡ drain_messages F C client_id rest (act_all msgs a)
  unfolding drain_messages act_all go_on
  drain_messages-acts [] rest a h = refl
  drain_messages-acts (msg ∷ msgs) rest a (h, hs) =
      ap (go_on F C (drain_messages F C client_id (msgs ++ rest))) (drain_message-act msg a h)
      ∙ drain_messages-acts msgs rest (act F C client_id msg a) hs

  -- What the server acknowledges at the end of a chunk.
  unfoldable pub acked : ℕ → List Message → Acking F C → ℕ
  acked upto_seq acts a =
      if all_applied acts a.client then max upto_seq a.last_acked else a.last_acked

  send-queue :
      (now : ℕ) (msg : Message) (frame : List ℕ) (c : Connection)
      → c.connected ≡ true
      → serialise_message C msg ≡ some frame
      → ((send C now msg c).0.queue ≡ c.queue ++ some frame ∷ []) × ((send C now msg c).1 ≡ sent)
  unfolding send send_serialised send_frame
  send-queue now msg frame c up e = (ground (arith, up, e), ground (arith, up, e))

  go_on-sent :
      (k : Acking F C → Acking F C × Next F C) (r : Acking F C × Sent)
      → r.1 ≡ sent
      → go_on F C k (after_ack F C r) ≡ k r.0
  unfolding go_on after_ack
  go_on-sent k (a, sent) h = refl
  go_on-sent k (a, refused e) h = cc

  -- At the end of a chunk of actions one frame more is in the queue to the client: an acknowledgement of
  -- the chunk and all before it if every action of the chunk was applied, and otherwise of no more
  -- than what was acknowledged before. The server remembers the same number, the next chunk starts
  -- afresh, and the drain goes on with what follows. The chunk's messages carry actions and none
  -- failed before them, the connection is up after them, and the acknowledgement can be serialised.
  pub drain_messages-end_batch :
      (acts rest : List Message) (upto_seq : ℕ) (a : Acking F C) (frame : List ℕ)
      → All IsAction acts
      → a.chunk_failed ≡ false
      → (apply_all acts a.client).conn.connected ≡ true
      → serialise_message C (action_batch_ack (acked upto_seq acts a)) ≡ some frame
      → (b : Acking F C) × (drain_messages F C client_id
            (acts ++ action_batch_end upto_seq ∷ rest)
            a
          ≡ drain_messages F C client_id rest b)
        × (b.client.conn.queue ≡ (apply_all acts a.client).conn.queue ++ some frame ∷ [])
        × (b.client.peers ≡ (apply_all acts a.client).peers)
        × (b.last_acked ≡ acked upto_seq acts a)
        × (b.chunk_failed ≡ false)
  unfolding drain_messages drain_message end_batch flush_node
  drain_messages-end_batch acts rest upto_seq a frame h fresh up sp =
      let (client, last, failed) = act_all-lem acts a in
      let b = act_all acts a in
      let number : ack_upto F C upto_seq b ≡ acked upto_seq acts a =
        unfold ack_upto acked in ground (arith, last, failed) in
      let (queue, delivered) =
        send-queue (now_of F C (flush_node F C b.client))
          (action_batch_ack (ack_upto F C upto_seq b)) frame (flush_node F C b.client).conn
          (ap (λ c. c.conn.connected) client ∙ up)
          (ap (λ n. serialise_message C (action_batch_ack n)) number ∙ sp) in
      (
        (end_batch F C upto_seq b).0,
        drain_messages-acts acts (action_batch_end upto_seq ∷ rest) a h
            ∙ go_on-sent (drain_messages F C client_id rest) (end_batch F C upto_seq b) delivered,
        queue ∙ ap (λ c. c.conn.queue ++ some frame ∷ []) client,
        ap (λ c. c.peers) client,
        unfold ack_upto acked in ground (arith, last, failed),
        refl,
      )
