-- ===== src/Transport/Chunking.antt =====
-- `FrameReader::poll` of transport.rs, polled again and again.
use byte_hive.Base.{ℕ, ◌%◌, ◌^◌, ◌≤◌, ◌<◌, true, false, List, [], ◌∷◌, ◌++◌}
use byte_hive.Base.{ltb, length, ◌≡◌, refl, arith, ◌⊎◌, inl, inr, Bool-cases, ◌∙◌}
use byte_hive.Base.{◌==◌, nat_eq, sym, ap, some, length-append, Option-cases}
use mathlib.Core.List.{append_assoc, append-nil}
use byte_hive.Protocol.{Message, max_frame_bytes}
use byte_hive.Transport.{
  Codec, Event, FrameReader, new, Fill, full, pending, error, Polled, message, nothing, failed,
  framed, serialise_message, decode, decoded, body_filled, start_body, hdr_filled, poll,
  to_be_bytes, from_be_bytes,
}
use byte_hive.Transport.Frames.{
  bytes, waits, IsSteady, IsFilled, fill-Filled, split_eq, from_be_bytes-to_be_bytes,
  length-to_be_bytes,
}

-- What the reader relies on: both libraries read back what they wrote.
pub record CodecLaws (C : Codec) : Type 0 where
  pub deserialize-serialize :
      (m : Message) (raw : List ℕ) → C.serialize m ≡ some raw → C.deserialize raw ≡ some m
  pub decompress-compress : (raw : List ℕ) → C.decompress (C.compress raw) ≡ some raw

-- The bytes that were read and belong to no message yet.
unfoldable pub seen : FrameReader → List ℕ
seen r = r.hdr ++ r.body

-- Before the body is begun, and after.
abbrev pub IsReading : FrameReader → Type 0
IsReading r =
    (length r.hdr ≤ 4)
    × (((r.body_len ≡ 0) × (r.body ≡ []))
        ⊎ ((length r.hdr ≡ 4) × (r.body_len ≡ from_be_bytes r.hdr) × (length r.body < r.body_len)))

module _ (C : Codec) where
  -- The frame of a message that `serialise_message` returns: its header and what follows.
  pub record IsFrame (m : Message) (f z : List ℕ) : Type 0 where
    pub split : f ≡ to_be_bytes (length z) ++ z
    pub small : length z ≤ max_frame_bytes
    pub read_back : decode C z ≡ some m

  framed-IsFrame :
      (laws : CodecLaws C) (m : Message) (raw f : List ℕ)
      → C.serialize m ≡ some raw
      → framed C (C.compress raw) ≡ some f
      → IsFrame m f (C.compress raw)
  unfolding framed decode
  framed-IsFrame laws m raw f s h =
      elim (Bool-cases (ltb max_frame_bytes (length (C.compress raw)))) [
        | inl large ↦ absurd (ground (arith, large))
        | inr fits ↦
            let small : length (C.compress raw) ≤ max_frame_bytes = ground (arith, fits) in
            let same : length (C.compress raw) % 2 ^ 32 ≡ length (C.compress raw) = omega arith in
            record {
              split = ground (arith, fits, ap (λ n. to_be_bytes n ++ C.compress raw) same);
              small = small;
              read_back =
                  ground (arith, laws.decompress-compress raw, laws.deserialize-serialize m raw s);
            }
      ]

  pub serialise_message-IsFrame :
      (laws : CodecLaws C) (m : Message) (f : List ℕ)
      → serialise_message C m ≡ some f
      → (z : List ℕ) × IsFrame m f z
  unfolding serialise_message
  serialise_message-IsFrame laws m f h = elim (Option-cases (C.serialize m)) [
    | inl bad ↦ absurd (ground (arith, bad))
    | inr (raw, s) ↦ (C.compress raw, framed-IsFrame laws m raw f s (ground (arith, s)))
  ]

  -- What one poll does while the frame `f` of `m` comes in, before the bytes `tail`.
  abbrev pub Advance :
      Message → List ℕ → List ℕ → List Event → Polled × FrameReader × List Event → Type 0
  Advance m f tail es (message m', r', es') =
      (m' ≡ m) × (r' ≡ new) × (bytes es' ≡ tail) × IsSteady es' × (waits es' ≤ waits es)
  Advance m f tail es (nothing, r', es') =
      IsReading r' × (seen r' ++ bytes es' ≡ f ++ tail) × IsSteady es' × (waits es' < waits es)
  Advance m f tail es (failed k, r', es') = ⊥

  -- Where no more comes, the loop has not stopped within what was sent.
  not_at_end :
      (need : ℕ) (got a tail : List ℕ) (es : List Event) (n : ℕ)
      → got ++ bytes es ≡ a ++ tail
      → length a ≡ need
      → length got < need
      → (es ≡ []) ⊎ (waits es < n)
      → waits es < n
  unfolding bytes
  not_at_end need got a tail es n e l h (inr fewer) = fewer
  not_at_end need got a tail [] n e l h (inl done) =
      absurd (omega (arith, ap length e, length-append got [], length-append a tail))
  not_at_end need got a tail (e' ∷ es) n e l h (inl done) = absurd (cc)

  header_len :
      (m : Message) (f z hdr : List ℕ)
      → IsFrame m f z
      → hdr ≡ to_be_bytes (length z)
      → from_be_bytes hdr ≡ length z
  header_len m f z hdr fr hd =
      let small = fr.small in
      ap from_be_bytes hd ∙ from_be_bytes-to_be_bytes (length z) (omega arith)

  body_filled-Advance :
      (m : Message) (f z tail : List ℕ) (r : FrameReader) (es es₀ : List Event) (o : Fill)
      (body : List ℕ) (es' : List Event)
      → IsFrame m f z
      → r.hdr ≡ to_be_bytes (length z)
      → r.body_len ≡ length z
      → r.body ++ bytes es ≡ z ++ tail
      → waits es ≤ waits es₀
      → IsFilled r.body_len r.body es o body es'
      → Advance m f tail es₀ (body_filled C r (o, body, es'))
  unfolding body_filled decoded seen
  body_filled-Advance m f z tail r es es₀ (error k) body es' fr hd len e w fl = elim fl.outcome [
    | inl (p, _) ↦ absurd (cc)
    | inr (p, _, _) ↦ absurd (cc)
  ]
  body_filled-Advance m f z tail r es es₀ full body es' fr hd len e w fl = elim fl.outcome [
    | inr (p, _, _) ↦ absurd (cc)
    | inl (_, l) ↦
        let (same, left) = split_eq body z (bytes es') tail (l ∙ len) (fl.kept ∙ e) in
        rw (ap (decode C) same ∙ fr.read_back)
          (refl, refl, left, fl.steady, omega (arith, fl.fewer))
  ]
  body_filled-Advance m f z tail r es es₀ pending body es' fr hd len e w fl = elim fl.outcome [
    | inl (p, _) ↦ absurd (cc)
    | inr (_, l, left) ↦
        let fewer =
          not_at_end r.body_len body z tail es' (waits es) (fl.kept ∙ e) (sym len) l left in
        (
          (
            omega (arith, ap length hd, length-to_be_bytes (length z)),
            inr (
              omega (arith, ap length hd, length-to_be_bytes (length z)),
              len ∙ sym (header_len m f z r.hdr fr hd),
              l,
            ),
          ),
          append_assoc r.hdr body (bytes es')
              ∙ ap (◌++◌ r.hdr) (fl.kept ∙ e)
              ∙ sym (append_assoc r.hdr z tail)
              ∙ ap (λ l. l ++ tail) (ap (λ h. h ++ z) hd ∙ sym fr.split),
          fl.steady,
          omega (arith, fewer),
        )
  ]

  -- The header is complete, and the body was not begun.
  begun-Advance :
      (m : Message) (f z tail hdr : List ℕ) (r : FrameReader) (es es₀ : List Event)
      → IsFrame m f z
      → r.body_len ≡ 0
      → length hdr ≡ 4
      → hdr ++ bytes es ≡ f ++ tail
      → IsSteady es
      → waits es ≤ waits es₀
      → Advance m f tail es₀ (hdr_filled C r (full, hdr, es))
  unfolding hdr_filled start_body nat_eq
  begun-Advance m f z tail hdr r es es₀ fr fresh l e s w =
      let (hd, left) =
        split_eq hdr (to_be_bytes (length z)) (bytes es) (z ++ tail)
          (l ∙ sym (length-to_be_bytes (length z)))
          (e ∙ ap (λ t. t ++ tail) fr.split ∙ append_assoc (to_be_bytes (length z)) z tail) in
      let len = header_len m f z hdr fr hd in
      let none_yet : (r.body_len == 0) ≡ true = ground arith in
      let small : ltb max_frame_bytes (from_be_bytes hdr) ≡ false = ground (arith, fr.small, len) in
      rw (none_yet, small)
        (body_filled-Advance m f z tail
          (record { hdr = hdr; body = []; body_len = from_be_bytes hdr }) es es₀ _ _ _ fr hd len
          left w (fill-Filled (from_be_bytes hdr) [] es s (omega arith)))

  -- The body was begun before.
  resumed-Advance :
      (m : Message) (f z tail hdr : List ℕ) (r : FrameReader) (es es₀ : List Event)
      → IsFrame m f z
      → length r.hdr ≡ 4
      → r.body_len ≡ from_be_bytes r.hdr
      → length r.body < r.body_len
      → length hdr ≡ 4
      → hdr ++ r.body ++ bytes es ≡ f ++ tail
      → hdr ≡ r.hdr
      → IsSteady es
      → waits es ≤ waits es₀
      → Advance m f tail es₀ (hdr_filled C r (full, hdr, es))
  unfolding hdr_filled start_body nat_eq
  resumed-Advance m f z tail hdr r es es₀ fr four blen below l e same s w =
      let (hd, left) =
        split_eq hdr (to_be_bytes (length z)) (r.body ++ bytes es) (z ++ tail)
          (l ∙ sym (length-to_be_bytes (length z)))
          (sym (append_assoc hdr r.body (bytes es))
            ∙ e
            ∙ ap (λ t. t ++ tail) fr.split
            ∙ append_assoc (to_be_bytes (length z)) z tail) in
      let len = header_len m f z r.hdr fr (sym same ∙ hd) in
      let some_yet : (r.body_len == 0) ≡ false = ground arith in
      rw some_yet (
        body_filled-Advance m f z tail (record { hdr = hdr; body = r.body; body_len = r.body_len })
          es es₀ _ _ _ fr hd (blen ∙ len) left w (fill-Filled r.body_len r.body es s (omega arith)))

  without_body :
      (r : FrameReader) (hdr rest : List ℕ) → r.body ≡ [] → hdr ++ r.body ++ rest ≡ hdr ++ rest
  without_body r hdr rest h = ap (λ b. (hdr ++ b) ++ rest) h ∙ ap (λ t. t ++ rest) (append-nil hdr)

  hdr_filled-Advance :
      (m : Message) (f z tail : List ℕ) (r : FrameReader) (es : List Event) (o : Fill)
      (hdr : List ℕ) (es' : List Event)
      → IsFrame m f z
      → IsReading r
      → seen r ++ bytes es ≡ f ++ tail
      → IsFilled 4 r.hdr es o hdr es'
      → Advance m f tail es (hdr_filled C r (o, hdr, es'))
  unfolding hdr_filled seen
  hdr_filled-Advance m f z tail r es (error k) hdr es' fr rd e fl = elim fl.outcome [
    | inl (p, _) ↦ absurd (cc)
    | inr (p, _, _) ↦ absurd (cc)
  ]
  hdr_filled-Advance m f z tail r es pending hdr es' fr (most, inr (four, _, _)) e fl =
      elim fl.outcome [
        | inl (p, _) ↦ absurd (cc)
        | inr (_, l, _) ↦ let g = fl.grows in absurd (omega arith)
      ]
  hdr_filled-Advance m f z tail r es pending hdr es' fr (most, inl (zero_len, no_body)) e fl =
      elim fl.outcome [
        | inl (p, _) ↦ absurd (cc)
        | inr (_, l, left) ↦
            let whole = fl.kept ∙ sym (without_body r r.hdr (bytes es) no_body) ∙ e in
            (
              (omega arith, inl (zero_len, no_body)),
              without_body r hdr (bytes es') no_body ∙ whole,
              fl.steady,
              not_at_end 4 hdr (to_be_bytes (length z)) (z ++ tail) es' (waits es)
                  (whole
                    ∙ ap (λ t. t ++ tail) fr.split
                    ∙ append_assoc (to_be_bytes (length z)) z tail)
                  (length-to_be_bytes (length z)) l left,
            )
      ]
  hdr_filled-Advance m f z tail r es full hdr es' fr (most, inl (zero_len, no_body)) e fl =
      elim fl.outcome [
        | inr (p, _, _) ↦ absurd (cc)
        | inl (_, l) ↦
            begun-Advance m f z tail hdr r es' es fr zero_len l
              (fl.kept ∙ sym (without_body r r.hdr (bytes es) no_body) ∙ e) fl.steady fl.fewer
      ]
  hdr_filled-Advance m f z tail r es full hdr es' fr (most, inr (four, blen, below)) e fl =
      elim fl.outcome [
        | inr (p, _, _) ↦ absurd (cc)
        | inl (_, l) ↦
            let (same, left) = split_eq hdr r.hdr (bytes es') (bytes es) (l ∙ sym four) fl.kept in
            resumed-Advance m f z tail hdr r es' es fr four blen below l
              (ap (λ h. h ++ r.body ++ bytes es') same ∙ ap (◌++◌ (r.hdr ++ r.body)) left ∙ e) same
              fl.steady fl.fewer
      ]

  pub poll-Advance :
      (m : Message) (f z tail : List ℕ) (r : FrameReader) (es : List Event)
      → IsFrame m f z
      → IsReading r
      → seen r ++ bytes es ≡ f ++ tail
      → IsSteady es
      → Advance m f tail es (poll C r es)
  unfolding poll
  poll-Advance m f z tail r es fr rd e s =
      hdr_filled-Advance m f z tail r es _ _ _ fr rd e (fill-Filled 4 r.hdr es s rd.0)
