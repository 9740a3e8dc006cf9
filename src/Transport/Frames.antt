-- ===== src/Transport/Frames.antt =====
-- Bytes of headers, and the loops of reads of transport.rs.
use byte_hive.Base.{ℕ, suc, zero, ◌+◌, ◌-◌, ◌^◌, ◌≤◌, ◌<◌, true, false, List, [], ◌∷◌, ◌++◌}
use byte_hive.Base.{ltb, leb, length, ◌≡◌, refl, arith, ◌⊎◌, inl, inr, Bool-cases, ◌∙◌}
use byte_hive.Base.{length-append, sym, ap}
use mathlib.Core.List.{append_assoc}
use byte_hive.Transport.{
  to_be_bytes, from_be_bytes, from_be, take, drop, Event, chunk, wait, broken, put_back, Fill, full,
  pending, fill,
}

pub from_be_bytes-to_be_bytes : (n : ℕ) → n < 2 ^ 32 → from_be_bytes (to_be_bytes n) ≡ n
unfolding from_be_bytes from_be to_be_bytes
from_be_bytes-to_be_bytes n h = omega arith

pub length-to_be_bytes : (n : ℕ) → length (to_be_bytes n) ≡ 4
unfolding to_be_bytes
length-to_be_bytes n = omega arith

pub split_eq : (a b c d : List ℕ) → length a ≡ length b → a ++ c ≡ b ++ d → (a ≡ b) × (c ≡ d)
split_eq [] [] c d h e = (refl, e)
split_eq [] (y ∷ b) c d h e = absurd (omega arith)
split_eq (x ∷ a) [] c d h e = absurd (omega arith)
split_eq (x ∷ a) (y ∷ b) c d h e = ground (arith, split_eq a b c d)

-- What the reads yield in all.
unfoldable pub bytes : List Event → List ℕ
bytes [] = []
bytes (chunk bs ∷ es) = bs ++ bytes es
bytes (wait ∷ es) = bytes es
bytes (broken ∷ es) = bytes es

unfoldable pub waits : List Event → ℕ
waits [] = 0
waits (chunk bs ∷ es) = waits es
waits (wait ∷ es) = waits es + 1
waits (broken ∷ es) = waits es

-- The connection neither ends nor fails.
abbrev pub IsSteady : List Event → Type 0
IsSteady [] = Unit
IsSteady (chunk [] ∷ es) = ⊥
IsSteady (chunk (b ∷ bs) ∷ es) = IsSteady es
IsSteady (wait ∷ es) = IsSteady es
IsSteady (broken ∷ es) = ⊥

take-append-drop : (n : ℕ) (bs : List ℕ) → take n bs ++ drop n bs ≡ bs
unfolding take drop
take-append-drop zero bs = refl
take-append-drop (suc n) [] = refl
take-append-drop (suc n) (b ∷ bs) = ap (◌∷◌ b) (take-append-drop n bs)

length-take : (n : ℕ) (bs : List ℕ) → n ≤ length bs → length (take n bs) ≡ n
unfolding take
length-take zero bs h = refl
length-take (suc n) [] h = absurd (omega arith)
length-take (suc n) (b ∷ bs) h = omega (arith, length-take n bs)

put_back_lem :
    (bs : List ℕ) (es : List Event)
    → IsSteady es
    → (bytes (put_back bs es) ≡ bs ++ bytes es)
      × IsSteady (put_back bs es)
      × (waits (put_back bs es) ≡ waits es)
unfolding put_back bytes waits
put_back_lem [] es h = (refl, h, refl)
put_back_lem (b ∷ bs) es h = (refl, h, refl)

-- What a loop of reads does on a steady connection.
pub record IsFilled (need : ℕ) (got : List ℕ) (es : List Event) (o : Fill) (got' : List ℕ)
    (es' : List Event) : Type 0 where
  pub kept : got' ++ bytes es' ≡ got ++ bytes es
  pub steady : IsSteady es'
  pub fewer : waits es' ≤ waits es
  pub grows : length got ≤ length got'
  pub outcome :
      ((o ≡ full) × (length got' ≡ need))
      ⊎ ((o ≡ pending) × (length got' < need) × ((es' ≡ []) ⊎ (waits es' < waits es)))

abbrev Filled : ℕ → List ℕ → List Event → Fill × List ℕ × List Event → Type 0
Filled need got es (o, got', es') = IsFilled need got es o got' es'

stopped :
    (need : ℕ) (got : List ℕ) (es : List Event)
    → IsSteady es
    → length got ≡ need
    → IsFilled need got es full got es
stopped need got es s h = record {
  kept = refl;
  steady = s;
  fewer = omega arith;
  grows = omega arith;
  outcome = inl (refl, h);
}

room_le :
    (need : ℕ) (got ds : List ℕ)
    → length got < need
    → leb (length ds) (need - length got) ≡ true
    → length (got ++ ds) ≤ need
room_le need got ds h fits = ground (arith, length-append got ds)

-- A read that fits into the buffer, before the rest of the loop.
read_whole :
    (need : ℕ) (got ds : List ℕ) (es : List Event) (o : Fill) (got' : List ℕ) (es' : List Event)
    → IsFilled need (got ++ ds) es o got' es'
    → IsFilled need got (chunk ds ∷ es) o got' es'
unfolding bytes waits
read_whole need got ds es o got' es' f = record {
  kept = f.kept ∙ append_assoc got ds (bytes es);
  steady = f.steady;
  fewer = f.fewer;
  grows = (let g = f.grows in omega (arith, length-append got ds));
  outcome = f.outcome;
}

-- A read that fills the buffer, and leaves some of what there is.
read_part :
    (need : ℕ) (got ds : List ℕ) (es : List Event)
    → IsSteady es
    → length got < need
    → leb (length ds) (need - length got) ≡ false
    → IsFilled need got
        (chunk ds ∷ es)
        full
        (got ++ take (need - length got) ds)
        (put_back (drop (need - length got) ds) es)
unfolding bytes waits
read_part need got ds es s h over =
    let room = need - length got in
    let (left, steady, same) = put_back_lem (drop room ds) es s in
    record {
      kept =
          append_assoc got (take room ds) _
          ∙ ap (◌++◌ got) (
              ap (◌++◌ (take room ds)) left
              ∙ sym (append_assoc (take room ds) (drop room ds) (bytes es))
              ∙ ap (λ l. l ++ bytes es) (take-append-drop room ds));
      steady = steady;
      fewer = omega (arith, same);
      grows = omega (arith, length-append got (take room ds));
      outcome = inl (refl, ground (arith, length-append got (take room ds), length-take room ds));
    }

waited :
    (need : ℕ) (got : List ℕ) (es : List Event)
    → IsSteady es
    → length got < need
    → IsFilled need got (wait ∷ es) pending got es
unfolding bytes waits
waited need got es s h = record {
  kept = refl;
  steady = s;
  fewer = omega arith;
  grows = omega arith;
  outcome = inr (refl, h, inr (omega arith));
}

pub fill-Filled :
    (need : ℕ) (got : List ℕ) (es : List Event)
    → IsSteady es
    → length got ≤ need
    → Filled need got es (fill need got es)
unfolding fill
fill-Filled need got [] s h = elim (Bool-cases (ltb (length got) need)) [
  | inl more ↦ rw more (record {
    kept = refl;
    steady = tt;
    fewer = omega arith;
    grows = omega arith;
    outcome = inr (refl, ground arith, inl refl);
  })
  | inr done ↦ rw done (stopped need got [] tt (ground arith))
]
fill-Filled need got (chunk [] ∷ es) s h = absurd s
fill-Filled need got (chunk (b ∷ bs) ∷ es) s h = elim (Bool-cases (ltb (length got) need)) [
  | inr done ↦ rw done (stopped need got (chunk (b ∷ bs) ∷ es) s (ground arith))
  | inl more ↦ elim (Bool-cases (leb (length (b ∷ bs)) (need - length got))) [
    | inl fits ↦
        rw (more, fits)
          (read_whole need got (b ∷ bs) es _ _ _
            (fill-Filled need (got ++ b ∷ bs) es s (room_le need got (b ∷ bs) (ground arith) fits)))
    | inr over ↦ rw (more, over) (read_part need got (b ∷ bs) es s (ground arith) over)
  ]
]
fill-Filled need got (wait ∷ es) s h = elim (Bool-cases (ltb (length got) need)) [
  | inr done ↦ rw done (stopped need got (wait ∷ es) s (ground arith))
  | inl more ↦ rw more (waited need got es s (ground arith))
]
fill-Filled need got (broken ∷ es) s h = absurd s
