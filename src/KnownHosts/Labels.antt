-- ===== src/KnownHosts/Labels.antt =====
-- The labels that known_hosts.rs accepts.
use byte_hive.Base.{Bool, false, [], ◌∷◌, ◌++◌, Text, ◌≡◌, refl, sym, ◌∙◌, ap}
use byte_hive.Base.{◌≤◌, arith, any, length, reverse, Bool-cases, inl, inr}
use mathlib.Core.Path.{subst}
use mathlib.Core.List.{reverse-append, reverse-reverse}
use byte_hive.KnownHosts.{
  trim_start, trim, is_whitespace, is_unsafe_label_char, validate_label, ok, max_label_chars,
}

-- The first character is white space.
abbrev pub edge : Text → Bool
edge [] = false
edge (c ∷ t) = is_whitespace c

edge-trim_start : (t : Text) → edge (trim_start t) ≡ false
unfolding trim_start
edge-trim_start [] = refl
edge-trim_start (c ∷ t) = ground (arith, edge-trim_start t)

trim_start_clean : (t : Text) → edge t ≡ false → trim_start t ≡ t
unfolding trim_start
trim_start_clean [] h = refl
trim_start_clean (c ∷ t) h = ground (arith, h)

trim_start-suffix : (t : Text) → (pre : Text) × (t ≡ pre ++ trim_start t)
unfolding trim_start
trim_start-suffix [] = ([], refl)
trim_start-suffix (c ∷ t) = elim (Bool-cases (is_whitespace c)) [
  | inl space ↦ let (pre, e) = trim_start-suffix t in (c ∷ pre, ground (arith, e, space))
  | inr other ↦ ([], ground (arith, other))
]

edge-append : (a b : Text) → edge (a ++ b) ≡ false → edge a ≡ false
edge-append [] b h = refl
edge-append (c ∷ a) b h = h

-- Neither end of a trimmed text is white space.
edge-trim : (t : Text) → edge (trim t) ≡ false
unfolding trim
edge-trim t =
    let u : Text = trim_start t in
    let (pre, e) = trim_start-suffix (reverse u) in
    let split : u ≡ reverse (trim_start (reverse u)) ++ reverse pre =
      sym (reverse-reverse u)
      ∙ ap (λ x. reverse x) e
      ∙ reverse-append pre (trim_start (reverse u)) in
    edge-append (reverse (trim_start (reverse u))) (reverse pre)
      (subst (λ x. edge x ≡ false) split (edge-trim_start t))

edge-reverse-trim : (t : Text) → edge (reverse (trim t)) ≡ false
unfolding trim
edge-reverse-trim t =
    subst (λ x. edge x ≡ false) (sym (reverse-reverse (trim_start (reverse (trim_start t)))))
      (edge-trim_start (reverse (trim_start t)))

trim-trim : (t : Text) → trim (trim t) ≡ trim t
unfolding trim
trim-trim t = clean (trim t) (edge-trim t) (edge-reverse-trim t)
  where
    clean : (x : Text) → edge x ≡ false → edge (reverse x) ≡ false → trim x ≡ x
    clean x h k =
        ap (λ y. reverse (trim_start (reverse y))) (trim_start_clean x h)
        ∙ ap (λ y. reverse y) (trim_start_clean (reverse x) k)
        ∙ reverse-reverse x

-- A label that is accepted has no control character, line separator or bidirectional override, at
-- most 64 characters, and no white space at its ends, and it is accepted again unchanged.
pub validate_label_lem :
    (raw label : Text)
    → validate_label raw ≡ ok label
    → (any is_unsafe_label_char label ≡ false)
      × (length label ≤ max_label_chars)
      × (edge label ≡ false)
      × (edge (reverse label) ≡ false)
      × (validate_label label ≡ ok label)
unfolding validate_label
validate_label_lem raw label h =
    ground (arith, h, trim-trim raw, edge-trim raw, edge-reverse-trim raw)
