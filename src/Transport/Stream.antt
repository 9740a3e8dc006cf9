-- ===== src/Transport/Stream.antt =====
-- `FrameReader::poll` of transport.rs, polled again and again.
use byte_hive.Base.{ℕ, suc, zero, ◌+◌, ◌-◌, ◌≤◌, ◌<◌, List, [], ◌∷◌, ◌++◌}
use byte_hive.Base.{length, ◌≡◌, refl, arith, ◌⊎◌, inl, inr, ◌∙◌, sym, ap, Option, none, some}
use byte_hive.Base.{Option-cases}
use mathlib.Core.Path.{subst}
use byte_hive.Protocol.{Message}
use byte_hive.Transport.{
  Codec, ErrorKind, Event, FrameReader, new, Fill, Polled, message, nothing, failed,
  serialise_message, hdr_filled, poll,
}
use byte_hive.Transport.Frames.{bytes, waits, IsSteady, IsFilled, fill-Filled}
use byte_hive.Transport.Chunking.{
  CodecLaws, seen, IsReading, serialise_message-IsFrame, Advance, poll-Advance,
}

unfoldable pub after : Polled → List Message × Option ErrorKind → List Message × Option ErrorKind
after (message m) (ms, e) = (m ∷ ms, e)
after nothing rest = rest
after (failed k) rest = ([], some k)

join : Option (List ℕ) → Option (List ℕ) → Option (List ℕ)
join none later = none
join (some f) none = none
join (some f) (some stream) = some (f ++ stream)

module _ (C : Codec) where
  -- The messages of so many polls, and the error that ended them.
  unfoldable pub run_polls : ℕ → FrameReader → List Event → List Message × Option ErrorKind
  unfolding after
  run_polls zero r es = ([], none)
  run_polls (suc n) r es = let (p, r', es') = poll C r es in after p (run_polls n r' es')

  -- The frames of the messages, one after the other.
  unfoldable pub frames : List Message → Option (List ℕ)
  unfolding join
  frames [] = some []
  frames (m ∷ ms) = join (serialise_message C m) (frames ms)

  frames-split :
      (m : Message) (ms : List Message) (stream : List ℕ)
      → frames (m ∷ ms) ≡ some stream
      → (f : List ℕ) × (tail : List ℕ) × (serialise_message C m ≡ some f)
        × (frames ms ≡ some tail)
        × (stream ≡ f ++ tail)
  unfolding frames
  frames-split m ms stream h = elim (Option-cases (serialise_message C m)) [
    | inl bad ↦ absurd (ground (arith, bad))
    | inr (f, s) ↦ elim (Option-cases (frames ms)) [
      | inl bad ↦ absurd (ground (arith, s, bad))
      | inr (tail, t) ↦ (f, tail, s, t, ground (arith, s, t))
    ]
  ]

  -- A poll where nothing is left to come.
  abbrev Quiet : List Event → Polled × FrameReader × List Event → Type 0
  Quiet es (message m, r', es') = ⊥
  Quiet es (failed k, r', es') = ⊥
  Quiet es (nothing, r', es') =
      IsReading r' × (seen r' ++ bytes es' ≡ []) × IsSteady es' × (waits es' ≤ waits es - 1)

  nil_of_append : (xs ys : List ℕ) → xs ++ ys ≡ [] → (xs ≡ []) × (ys ≡ [])
  nil_of_append [] ys h = (refl, h)
  nil_of_append (x ∷ xs) ys h = absurd (cc)

  waits-nil : (es : List Event) (n : ℕ) → (es ≡ []) ⊎ (waits es < n) → waits es ≤ n - 1
  unfolding waits
  waits-nil es n (inr fewer) = omega arith
  waits-nil [] n (inl done) = omega arith
  waits-nil (e ∷ es) n (inl done) = absurd (cc)

  hdr_filled-Quiet :
      (r : FrameReader) (es : List Event) (o : Fill) (hdr : List ℕ) (es' : List Event)
      → IsReading r
      → seen r ++ bytes es ≡ []
      → IsFilled 4 r.hdr es o hdr es'
      → Quiet es (hdr_filled C r (o, hdr, es'))
  unfolding hdr_filled seen
  hdr_filled-Quiet r es o hdr es' (most, inr (four, _, _)) e fl =
      let (now, _) = nil_of_append (r.hdr ++ r.body) (bytes es) e in
      let (no_hdr, _) = nil_of_append r.hdr r.body now in absurd (omega (arith, ap length no_hdr))
  hdr_filled-Quiet r es o hdr es' (most, inl (zero_len, no_body)) e fl =
      let (now, later) = nil_of_append (r.hdr ++ r.body) (bytes es) e in
      let (no_hdr, _) = nil_of_append r.hdr r.body now in
      let none_left : hdr ++ bytes es' ≡ [] = fl.kept ∙ ap (λ h. h ++ bytes es) no_hdr ∙ later in
      let (empty, over) = nil_of_append hdr (bytes es') none_left in
      elim fl.outcome [
        | inl (_, l) ↦ absurd (omega (arith, ap length empty))
        | inr (p, l, left) ↦
            subst (λ o'. Quiet es (hdr_filled C r (o', hdr, es'))) (sym p)
              (
                (omega arith, inl (zero_len, no_body)),
                ap (λ b. (hdr ++ b) ++ bytes es') no_body
                    ∙ ap (λ h. (h ++ []) ++ bytes es') empty
                    ∙ over,
                fl.steady,
                waits-nil es' (waits es) left,
              )
      ]

  poll-Quiet :
      (r : FrameReader) (es : List Event)
      → IsReading r
      → seen r ++ bytes es ≡ []
      → IsSteady es
      → Quiet es (poll C r es)
  unfolding poll
  poll-Quiet r es rd e s = hdr_filled-Quiet r es _ _ _ rd e (fill-Filled 4 r.hdr es s rd.0)

  abbrev Runs : ℕ → Type 0
  Runs n =
      (ms : List Message) (stream : List ℕ) (r : FrameReader) (es : List Event)
      → frames ms ≡ some stream
      → IsReading r
      → seen r ++ bytes es ≡ stream
      → IsSteady es
      → length ms + waits es ≤ n
      → run_polls n r es ≡ (ms, none)

  new-IsReading : IsReading new
  unfolding new
  new-IsReading = (omega arith, inl (refl, refl))

  seen-new : (bs : List ℕ) → seen new ++ bs ≡ bs
  unfolding seen new
  seen-new bs = refl

  after-Quiet :
      (n : ℕ) (es : List Event) (p : Polled) (r' : FrameReader) (es' : List Event)
      → Runs n
      → waits es ≤ suc n
      → Quiet es (p, r', es')
      → after p (run_polls n r' es') ≡ ([], none)
  unfolding after
  after-Quiet n es (message m) r' es' ih w q = absurd q
  after-Quiet n es (failed k) r' es' ih w q = absurd q
  after-Quiet n es nothing r' es' ih w (rd, e, s, fewer) =
      ih [] [] r' es' (unfold frames in refl) rd e s (omega arith)

  after-Advance :
      (n : ℕ) (m : Message) (ms : List Message) (f tail : List ℕ) (es : List Event) (p : Polled)
      (r' : FrameReader) (es' : List Event)
      → Runs n
      → frames (m ∷ ms) ≡ some (f ++ tail)
      → frames ms ≡ some tail
      → suc (length ms) + waits es ≤ suc n
      → Advance C m f tail es (p, r', es')
      → after p (run_polls n r' es') ≡ (m ∷ ms, none)
  unfolding after
  after-Advance n m ms f tail es (failed k) r' es' ih g t w a = absurd a
  after-Advance n m ms f tail es nothing r' es' ih g t w (rd, e, s, fewer) =
      ih (m ∷ ms) (f ++ tail) r' es' g rd e s (omega arith)
  after-Advance n m ms f tail es (message m') r' es' ih g t w (same, fresh, rest, s, fewer) =
      let later : run_polls n r' es' ≡ (ms, none) =
        subst (λ r. run_polls n r es' ≡ (ms, none)) (sym fresh)
          (ih ms tail new es' t new-IsReading (seen-new (bytes es') ∙ rest) s (omega arith)) in
      ground (arith, later, same)

  runs : (laws : CodecLaws C) (n : ℕ) → Runs n
  unfolding run_polls
  runs laws zero [] stream r es g rd e s w = refl
  runs laws zero (m ∷ ms) stream r es g rd e s w = absurd (omega arith)
  runs laws (suc n) [] stream r es g rd e s w =
      let none_sent : some [] ≡ some stream = unfold frames in g in
      let empty : stream ≡ [] = cc in
      after-Quiet n es _ _ _ (runs laws n) (omega arith) (poll-Quiet r es rd (e ∙ empty) s)
  runs laws (suc n) (m ∷ ms) stream r es g rd e s w =
      let (f, tail, sm, t, st) = frames-split m ms stream g in
      let (z, fr) = serialise_message-IsFrame C laws m f sm in
      after-Advance n m ms f tail es _ _ _ (runs laws n) (g ∙ ap some st) t w
        (poll-Advance C m f z tail r es fr rd (e ∙ st) s)

  -- However the frames of a list of messages are cut into reads, and wherever reads time out in
  -- between, a new reader that is polled once for each message and each timeout, or more often,
  -- returns exactly these messages, in order, and no error.
  pub run_polls-frames :
      (laws : CodecLaws C) (ms : List Message) (stream : List ℕ) (es : List Event) (n : ℕ)
      → frames ms ≡ some stream
      → bytes es ≡ stream
      → IsSteady es
      → length ms + waits es ≤ n
      → run_polls n new es ≡ (ms, none)
  run_polls-frames laws ms stream es n g e s w =
      runs laws n ms stream new es g new-IsReading (seen-new (bytes es) ∙ e) s w
