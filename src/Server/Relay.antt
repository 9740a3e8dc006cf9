-- ===== src/Server/Relay.antt =====
-- `broadcast_to_others` and `apply_client_action` of server.rs: what reaches the other peers.
use byte_hive.Base.{ℕ, Bool, true, some, List, [], ◌∷◌, Text, ◌≡◌, refl, arith}
use byte_hive.Base.{
  inl, inr, ◌≢◌, All, if◌then◌else◌, ◌==◌, list_eq, nat_eq, Bool-cases, Option-cases,
}
use byte_hive.Base.Dict
use byte_hive.Base.Dict.{Dict}
use byte_hive.Base.Paths.{FilePath}
use byte_hive.Protocol.{
  Message, bundle, delete, large_file_start, large_file_chunk, large_file_end, rename,
}
use byte_hive.Transport.{Codec, serialise_message}
use byte_hive.SyncEngine.{Fs, IoResult, ok, err}
use byte_hive.Incoming.{Node, LargeFileEndOutcome, end_committed, end_with_conflict, end_missing}
use byte_hive.Incoming.{clamp_future_stamp, handle_recv_delete_with_meta}
use byte_hive.Incoming.Clamp.{
  IsTimely, clamp_future_stamp-le, clamp_future_stamp_opt-IsTimely, clamp_bundle-IsTimely,
}
use byte_hive.Server.{
  Peer, ClientState, push_frame, push_others, push_serialised, broadcast_to_others, now_of, relayed,
  end_relayed, delete_relayed, request_retransmit, apply_client_action,
}

-- The stamps that a message carries are at most the allowance ahead of `now`.
abbrev pub IsTimelyMessage : ℕ → Message → Type 0
IsTimelyMessage now (bundle b) = All (λ fd. IsTimely now fd.action_ms) b.files
IsTimelyMessage now (large_file_start metadata total_chunks action_ms) = IsTimely now action_ms
IsTimelyMessage now (delete paths deleted_at_ms deleter) = IsTimely now (some deleted_at_ms)
IsTimelyMessage now (rename source target action_ms) = IsTimely now (some action_ms)
IsTimelyMessage now _ = Unit

lookup-push_others :
    (sender_id : Text) (frame : List ℕ) (peers : Dict Text Peer) (id : Text) (p : Peer)
    → Dict.lookup id peers ≡ some p
    → Dict.lookup id (push_others sender_id frame peers)
      ≡ some (if id == sender_id then p else push_frame frame p)
unfolding push_others Dict.lookup
lookup-push_others sender_id frame [] id p h = absurd (cc)
lookup-push_others sender_id frame ((k, q) ∷ peers) id p h =
    ground (arith, lookup-push_others sender_id frame peers id p)

module _ (F : Fs) (C : Codec) where
  open F use {World}

  -- What became of the queue of one peer: nothing, or one frame more, if it is not the sender.
  pub data IsReached (now : ℕ) (sender_id id : Text) (p q : Peer) : Bool → Type 0 where
    untouched : {applied : Bool} → q ≡ p → IsReached now sender_id id p q applied
    reached :
        (msg : Message) (frame : List ℕ)
        → (id ≢ sender_id)
        → serialise_message C msg ≡ some frame
        → IsTimelyMessage now msg
        → q ≡ push_frame frame p
        → IsReached now sender_id id p q true

  abbrev Reaches : ℕ → Text → Dict Text Peer → Dict Text Peer → Bool → Type 0
  Reaches now sender_id peers peers' applied =
      (id : Text) (p : Peer)
      → Dict.lookup id peers ≡ some p
      → (q : Peer) × (Dict.lookup id peers' ≡ some q) × IsReached now sender_id id p q applied

  pushed-Reaches :
      (now : ℕ) (sender_id : Text) (msg : Message) (frame : List ℕ) (peers : Dict Text Peer)
      → serialise_message C msg ≡ some frame
      → IsTimelyMessage now msg
      → Reaches now sender_id peers (push_others sender_id frame peers) true
  pushed-Reaches now sender_id msg frame peers s timely id p h =
      let found = lookup-push_others sender_id frame peers id p h in
      elim (Bool-cases (id == sender_id)) [
        | inl same ↦ (p, ground (arith, found, same), untouched refl)
        | inr other ↦ (
          push_frame frame p,
          ground (arith, found, other),
          reached msg frame (λ e. ground (arith, other, e)) s timely refl,
        )
      ]

  broadcast_to_others-Reaches :
      (now : ℕ) (sender_id : Text) (msg : Message) (peers : Dict Text Peer)
      → IsTimelyMessage now msg
      → Reaches now sender_id peers (broadcast_to_others F C sender_id msg peers) true
  unfolding broadcast_to_others push_serialised
  broadcast_to_others-Reaches now sender_id msg peers timely =
      elim (Option-cases (serialise_message C msg)) [
        | inl bad ↦ rw bad (λ id p h. (p, h, untouched refl))
        | inr (frame, s) ↦ rw s (pushed-Reaches now sender_id msg frame peers s timely)
      ]

  abbrev Handles : ℕ → Text → Dict Text Peer → ClientState World × Bool → Type 0
  Handles now sender_id peers (s, applied) = Reaches now sender_id peers s.peers applied

  relayed-Handles :
      {A : Type 0} (now : ℕ) (client_id : Text) (msg : Message) (s : ClientState World)
      (r : IoResult A) (n : Node World)
      → IsTimelyMessage now msg
      → Handles now client_id s.peers (relayed F C client_id msg s (r, n))
  unfolding relayed
  relayed-Handles now client_id msg s (err e) n timely = λ id p h. (p, h, untouched refl)
  relayed-Handles now client_id msg s (ok a) n timely =
      broadcast_to_others-Reaches now client_id msg s.peers timely

  end_relayed-Handles :
      (now : ℕ) (client_id : Text) (path : FilePath) (msg : Message) (s : ClientState World)
      (r : IoResult LargeFileEndOutcome) (n : Node World)
      → IsTimelyMessage now msg
      → Handles now client_id s.peers (end_relayed F C client_id path msg s (r, n))
  unfolding end_relayed request_retransmit
  end_relayed-Handles now client_id path msg s (err e) n timely = λ id p h. (p, h, untouched refl)
  end_relayed-Handles now client_id path msg s (ok end_committed) n timely =
      relayed-Handles now client_id msg s (ok end_committed) n timely
  end_relayed-Handles now client_id path msg s (ok (end_with_conflict c)) n timely =
      relayed-Handles now client_id msg s (ok end_committed) n timely
  end_relayed-Handles now client_id path msg s (ok (end_missing indices)) n timely =
      λ id p h. (p, h, untouched refl)

  delete_relayed-Handles :
      (now : ℕ) (client_id : Text) (msg : Message) (s : ClientState World) (r : Node World × ℕ)
      → IsTimelyMessage now msg
      → Handles now client_id s.peers (delete_relayed F C client_id msg s r)
  unfolding delete_relayed
  delete_relayed-Handles now client_id msg s (n, count) timely =
      relayed-Handles now client_id msg s (ok count) n timely

  -- Whatever message a client sends, the queue of a connected peer stays as it was or gets one frame
  -- more; it gets one only if the message was applied and the peer is another than the sender, and
  -- the frame is of a message whose stamps are at most the allowance ahead of the server's clock.
  pub apply_client_action-IsReached :
      (client_id : Text) (msg : Message) (s : ClientState World) (id : Text) (p : Peer)
      → Dict.lookup id s.peers ≡ some p
      → let (s', applied) = apply_client_action F C client_id msg s in
        (q : Peer) × (Dict.lookup id s'.peers ≡ some q)
        × IsReached (F.now_ms s.node.engine.world) client_id id p q applied
  unfolding apply_client_action now_of
  apply_client_action-IsReached client_id (bundle b) s =
      relayed-Handles _ client_id _ s _ _ (clamp_bundle-IsTimely _ b)
  apply_client_action-IsReached client_id (large_file_start m n at) s =
      relayed-Handles _ client_id _ s _ _ (clamp_future_stamp_opt-IsTimely _ at)
  apply_client_action-IsReached client_id (large_file_chunk path i bytes) s =
      relayed-Handles _ client_id (large_file_chunk path i bytes) s _ _ tt
  apply_client_action-IsReached client_id (large_file_end path h) s =
      end_relayed-Handles _ client_id path (large_file_end path h) s _ _ tt
  apply_client_action-IsReached client_id (delete paths at deleter) s =
      let at' = clamp_future_stamp (F.now_ms s.node.engine.world) at in
      delete_relayed-Handles _ client_id (delete paths at' deleter) s
        (handle_recv_delete_with_meta F paths at' deleter client_id s.node)
        (clamp_future_stamp-le _ at)
  apply_client_action-IsReached client_id (rename source target at) s =
      relayed-Handles _ client_id _ s _ _ (clamp_future_stamp-le _ at)
  apply_client_action-IsReached client_id _ s = λ id p h. (p, h, untouched refl)
