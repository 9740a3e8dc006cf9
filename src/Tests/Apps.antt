-- ===== src/Tests/Apps.antt =====
-- The registry at concrete inputs: an application that answers every request under `/a`.
use byte_hive.Base.{ℕ, suc, true, none, some, List, [], ◌∷◌, ◌++◌, Text, codes, ◌≡◌}
use byte_hive.Base.{◌↔◌, refl, nat_eq, list_eq}
use byte_hive.Registry.{
  App, Slot, running, path_matches, ends_segment, route_http, slot_matches, strip,
}
use byte_hive.Registry.Names.{
  Call, register_call, stop_call, restart_call, run_calls, names, Distinct, run_calls-Distinct,
}
use byte_hive.Registry.Routing.{path_matches_lem, IsAnswered, route_http-IsAnswered}

abbrev echo : App ℕ (Unit {0}) Text ℕ
echo = record {
  name = codes "echo";
  http_prefix = some (codes "/a");
  ui_prefix = none;
  wire_subscriptions = λ w. (w, true);
  start = λ config w. (suc w, true);
  stop = λ w. suc w;
  handle_http = λ req w. (w, some 200);
}

abbrev slots : List (Slot ℕ (Unit {0}) Text ℕ)
slots = record { app = echo; config = tt; status = running } ∷ []

path_matches_lem_run :
    (path_matches (codes "/a") (codes "/a/b") ≡ true)
    ↔ ((rest : Text) × (codes "/a/b" ≡ codes "/a" ++ rest) × (ends_segment (some rest) ≡ true))
path_matches_lem_run = path_matches_lem (codes "/a") (codes "/a/b")

answered : (route_http (λ req. req) (codes "/a/b") slots 0).1 ≡ some 200
unfolding route_http slot_matches path_matches strip nat_eq
answered = refl

route_http-IsAnswered_example :
    ((route_http (λ req. req) (codes "/a/b") slots 0).1 ≡ some 200)
    ↔ IsAnswered (codes "/a/b") (codes "/a/b") 200 slots 0
route_http-IsAnswered_example = route_http-IsAnswered (λ req. req) (codes "/a/b") slots 0 200

abbrev calls : List (Call ℕ (Unit {0}) Text ℕ)
calls =
    register_call echo
    ∷ register_call echo
    ∷ stop_call (codes "echo")
    ∷ restart_call (codes "echo")
    ∷ []

abbrev no_slots : List (Slot ℕ (Unit {0}) Text ℕ)
no_slots = []

no_slots-Distinct : Distinct (names no_slots)
unfolding names
no_slots-Distinct = tt

run_calls-Distinct_run : Distinct (names (run_calls (λ name. tt) calls (no_slots, 0)).0)
run_calls-Distinct_run = run_calls-Distinct (λ name. tt) calls no_slots 0 no_slots-Distinct
