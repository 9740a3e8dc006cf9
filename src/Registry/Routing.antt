-- ===== src/Registry/Routing.antt =====
-- Who answers a request in `route_http` of registry.rs.
use byte_hive.Base.{Option, none, ◌⊎◌, ◌==◌, true, ◌&&◌, some, List, [], ◌∷◌, ◌++◌, Text, ◌≡◌}
use byte_hive.Base.{◌↔◌, refl, arith, nat_eq, Bool-cases, inl, inr}
use byte_hive.Base.{Option-cases}
use byte_hive.Registry.{
  Slot, AppStatus, running, stopped, failed, prefix_matches, is_running, slot_matches, route_http,
  strip, ends_segment, path_matches,
}

strip-join : (prefix path rest : Text) → strip prefix path ≡ some rest → path ≡ prefix ++ rest
unfolding strip
strip-join [] path rest h = ground (arith, h)
strip-join (c ∷ prefix) [] rest h = cc
strip-join (c ∷ prefix) (d ∷ path) rest h = ground (arith, h, strip-join prefix path rest)

strip-append : (prefix rest : Text) → strip prefix (prefix ++ rest) ≡ some rest
unfolding strip
strip-append [] rest = refl
strip-append (c ∷ prefix) rest = ground (arith, strip-append prefix rest)

-- A prefix matches exactly the paths that are the prefix and then nothing, a slash, or a question
-- mark: `/app` matches `/app/x` and `/app?q`, and not `/apple`.
pub path_matches_lem :
    (prefix path : Text)
    → (path_matches prefix path ≡ true)
      ↔ ((rest : Text) × (path ≡ prefix ++ rest) × (ends_segment (some rest) ≡ true))
unfolding path_matches
path_matches_lem prefix path = (
  λ h. elim (Option-cases (strip prefix path)) [
    | inl e ↦ absurd (ground (arith, e, h))
    | inr (rest, e) ↦ (rest, strip-join prefix path rest e, ground (arith, e, h))
  ],
  λ (rest, e, s). ground (arith, e, s, strip-append prefix rest),
)

-- What follows a prefix in a path that it matches: nothing, a slash, or a question mark.
abbrev pub IsBoundary : Text → Type 0
IsBoundary rest = (rest ≡ []) ⊎ ((tail : Text) × ((rest ≡ 47 ∷ tail) ⊎ (rest ≡ 63 ∷ tail)))

ends_segment-IsBoundary : (rest : Text) → ends_segment (some rest) ≡ true → IsBoundary rest
ends_segment-IsBoundary [] h = inl refl
ends_segment-IsBoundary (c ∷ tail) h = elim (Bool-cases (c == 47)) [
  | inl slash ↦ inr (tail, inl (ground (arith, slash)))
  | inr other ↦ inr (tail, inr (ground (arith, other, h)))
]

IsBoundary-ends_segment : (rest : Text) → IsBoundary rest → ends_segment (some rest) ≡ true
IsBoundary-ends_segment rest (inl e) = ground (arith, e)
IsBoundary-ends_segment rest (inr (tail, inl e)) = ground (arith, e)
IsBoundary-ends_segment rest (inr (tail, inr e)) = ground (arith, e)

-- The path is below the prefix that is declared, if one is.
abbrev pub IsUnder : Option Text → Text → Type 0
IsUnder declared path =
    (prefix : Text) × (rest : Text) × (declared ≡ some prefix)
    × (path ≡ prefix ++ rest)
    × IsBoundary rest

prefix_matches-IsUnder :
    (declared : Option Text) (path : Text)
    → prefix_matches declared path ≡ true
    → IsUnder declared path
prefix_matches-IsUnder none path h = cc
prefix_matches-IsUnder (some prefix) path h =
    let (rest, joined, ends) = (path_matches_lem prefix path).0 h in
    (prefix, rest, refl, joined, ends_segment-IsBoundary rest ends)

IsUnder-prefix_matches :
    (declared : Option Text) (path : Text)
    → IsUnder declared path
    → prefix_matches declared path ≡ true
IsUnder-prefix_matches declared path (prefix, rest, e, joined, ends) =
    let law = (path_matches_lem prefix path).1 (rest, joined, IsBoundary-ends_segment rest ends) in
    ground (arith, e, law)

is_running-status : (st : AppStatus) → is_running st ≡ true → st ≡ running
is_running-status running h = refl
is_running-status stopped h = cc
is_running-status failed h = cc

module _ {W Config Request Response : Type 0} where
  -- The path is below one of the application's two prefixes.
  abbrev pub Serves : Text → Slot W Config Request Response → Type 0
  Serves path s = IsUnder s.app.http_prefix path ⊎ IsUnder s.app.ui_prefix path

  slot_matches-Serves :
      (path : Text) (s : Slot W Config Request Response)
      → slot_matches path s ≡ true
      → Serves path s
  unfolding slot_matches
  slot_matches-Serves path s h = elim (Bool-cases (prefix_matches s.app.http_prefix path)) [
    | inl http ↦ inl (prefix_matches-IsUnder s.app.http_prefix path http)
    | inr other ↦ inr (prefix_matches-IsUnder s.app.ui_prefix path (ground (arith, h, other)))
  ]

  Serves-slot_matches :
      (path : Text) (s : Slot W Config Request Response)
      → Serves path s
      → slot_matches path s ≡ true
  unfolding slot_matches
  Serves-slot_matches path s (inl u) =
      ground (arith, IsUnder-prefix_matches s.app.http_prefix path u)
  Serves-slot_matches path s (inr u) = ground (arith, IsUnder-prefix_matches s.app.ui_prefix path u)

  -- The answer of the first application, in the order of the list, that runs, serves the path and
  -- gives one. Those before it that run and serve the path were asked in turn, each in the world that the
  -- one before has left.
  pub data IsAnswered (path : Text) (req : Request) (r : Response)
      : List (Slot W Config Request Response) → W → Type 0 where
    answers :
        (s : Slot W Config Request Response)
        → (ss : List (Slot W Config Request Response)) → (w : W) → s.status ≡ running
        → Serves path s
        → (s.app.handle_http req w).1 ≡ some r
        → IsAnswered path req r (s ∷ ss) w
    declines :
        (s : Slot W Config Request Response)
        → (ss : List (Slot W Config Request Response)) → (w : W) → s.status ≡ running
        → Serves path s
        → (s.app.handle_http req w).1 ≡ none
        → IsAnswered path req r ss (s.app.handle_http req w).0
        → IsAnswered path req r (s ∷ ss) w
    is_skipped :
        (s : Slot W Config Request Response)
        → (ss : List (Slot W Config Request Response)) → (w : W)
        → ¬ ((s.status ≡ running) × Serves path s)
        → IsAnswered path req r ss w
        → IsAnswered path req r (s ∷ ss) w

  asks :
      (path : Text) (s : Slot W Config Request Response)
      → (is_running s.status && slot_matches path s) ≡ true
      → (s.status ≡ running) × Serves path s
  asks path s h = (
    is_running-status s.status (ground (arith, h)),
    slot_matches-Serves path s (ground (arith, h)),
  )

  asked :
      (path : Text) (s : Slot W Config Request Response)
      → s.status ≡ running
      → Serves path s
      → (is_running s.status && slot_matches path s) ≡ true
  asked path s up serves = ground (arith, up, Serves-slot_matches path s serves)

  route_http-answers :
      (path_of : Request → Text) (req : Request) (slots : List (Slot W Config Request Response))
      (w : W) (r : Response)
      → (route_http path_of req slots w).1 ≡ some r
      → IsAnswered (path_of req) req r slots w
  unfolding route_http
  route_http-answers path_of req [] w r h = cc
  route_http-answers path_of req (s ∷ ss) w r h =
      elim (Bool-cases (is_running s.status && slot_matches (path_of req) s)) [
        | inr skipped ↦
            is_skipped s ss w
              (λ (up, serves). ground (arith, skipped, asked (path_of req) s up serves))
              (route_http-answers path_of req ss w r (ground (arith, h, skipped)))
        | inl open_to ↦
            let (up, serves) = asks (path_of req) s open_to in
            elim (Option-cases (s.app.handle_http req w).1) [
              | inl declined ↦ declines s ss w up serves declined (
                  route_http-answers path_of req ss (s.app.handle_http req w).0 r
                    (ground (arith, h, open_to, declined)))
              | inr (x, gave) ↦ answers s ss w up serves (ground (arith, h, open_to, gave))
            ]
      ]

  answers-route_http :
      (path_of : Request → Text) (req : Request) (r : Response)
      (slots : List (Slot W Config Request Response)) (w : W)
      → IsAnswered (path_of req) req r slots w
      → (route_http path_of req slots w).1 ≡ some r
  unfolding route_http
  answers-route_http path_of req r _ _ (answers s ss w up serves gave) =
      ground (arith, asked (path_of req) s up serves, gave)
  answers-route_http path_of req r _ _ (declines s ss w up serves declined later) = ground (
    arith,
    asked (path_of req) s up serves,
    declined,
    answers-route_http path_of req r ss (s.app.handle_http req w).0 later,
  )
  answers-route_http path_of req r _ _ (is_skipped s ss w out later) =
      elim (Bool-cases (is_running s.status && slot_matches (path_of req) s)) [
        | inl open_to ↦ absurd (out (asks (path_of req) s open_to))
        | inr skipped ↦ ground (arith, skipped, answers-route_http path_of req r ss w later)
      ]

  -- A request gets an answer exactly if it is the one of the first application in the list that runs,
  -- whose HTTP or user-interface prefix the path is below (the path is the prefix, then nothing, a
  -- slash or a question mark), and that gives one. Those of them before it were asked in turn and
  -- declined.
  pub route_http-IsAnswered :
      (path_of : Request → Text) (req : Request) (slots : List (Slot W Config Request Response))
      (w : W) (r : Response)
      → ((route_http path_of req slots w).1 ≡ some r) ↔ IsAnswered (path_of req) req r slots w
  route_http-IsAnswered path_of req slots w r =
      (route_http-answers path_of req slots w r, answers-route_http path_of req r slots w)
