-- ===== src/Registry.antt =====
-- crates/core/src/registry.rs: the applications of the host, their start and stop, and the routing
-- of requests. What an application does, the wiring of its subscriptions, the configuration and the
-- toml crate are the parameters of `App` and of the operations. Each operation is one step; the code
-- releases its lock on the slots while an application starts.
pub mod Routing
pub mod Names
use byte_hive.Base.{
  ℕ, Bool, true, false, ◌&&◌, ◌||◌, not, Option, none, some, List, [], ◌∷◌, ◌++◌, Text,
}
use byte_hive.Base.{if◌then◌else◌, find, any, is_some, reverse, ◌==◌, nat_eq, list_eq}

pub data AppStatus : Type 0 where
  running : AppStatus
  stopped : AppStatus
  failed : AppStatus

pub data CoreError : Type 0 where
  app_already_registered : Text → CoreError
  app_not_found : Text → CoreError
  io_error : CoreError
  app_error : CoreError
  config_error : CoreError

pub data CoreResult : Type 0 where
  ok : CoreResult
  err : CoreError → CoreResult

-- An application: its manifest, and what its calls do to the world.
pub record App (W Config Request Response : Type 0) : Type 0 where
  pub name : Text
  pub http_prefix : Option Text
  pub ui_prefix : Option Text
  pub wire_subscriptions : W → W × Bool
  pub start : Config → W → W × Bool
  pub stop : W → W
  pub handle_http : Request → W → W × Option Response

pub record Slot (W Config Request Response : Type 0) : Type 0 where
  pub app : App W Config Request Response
  pub config : Config
  pub status : AppStatus

abbrev pub is_running : AppStatus → Bool
is_running running = true
is_running stopped = false
is_running failed = false

abbrev pub is_stopped : AppStatus → Bool
is_stopped running = false
is_stopped stopped = true
is_stopped failed = false

module _ {W Config Request Response : Type 0} where
  abbrev pub has_name : Text → Slot W Config Request Response → Bool
  has_name name s = s.app.name == name

  unfoldable pub update_slot :
      Text
      → (Slot W Config Request Response → Slot W Config Request Response)
      → List (Slot W Config Request Response)
      → List (Slot W Config Request Response)
  update_slot name f [] = []
  update_slot name f (s ∷ ss) =
      let rest = update_slot name f ss in if has_name name s then f s ∷ ss else s ∷ rest

  -- The wiring and the start, and where they failed.
  unfoldable pub launch : App W Config Request Response → Config → W → W × CoreResult
  launch app config w =
      let (w1, wired) = app.wire_subscriptions w in
      let (w2, started) = app.start config w1 in
      if wired then (w2, if started then ok else err app_error) else (w1, err io_error)

  abbrev pub push_started :
      App W Config Request Response
      → Config
      → List (Slot W Config Request Response)
      → W × CoreResult
      → (List (Slot W Config Request Response) × W) × CoreResult
  push_started app config slots (w, ok) =
      ((slots ++ record { app = app; config = config; status = running } ∷ [], w), ok)
  push_started app config slots (w, err e) = ((slots, w), err e)

  unfoldable pub register :
      (Text → Config)
      → App W Config Request Response
      → List (Slot W Config Request Response)
      → W
      → (List (Slot W Config Request Response) × W) × CoreResult
  unfolding launch
  register app_config app slots w =
      if any (has_name app.name) slots
      then ((slots, w), err (app_already_registered app.name))
      else push_started app (app_config app.name) slots (launch app (app_config app.name) w)

  -- `stop_app`, for the slot that was found.
  abbrev pub stop_found :
      Text
      → List (Slot W Config Request Response)
      → W
      → Option (Slot W Config Request Response)
      → (List (Slot W Config Request Response) × W) × CoreResult
  stop_found name slots w none = ((slots, w), err (app_not_found name))
  stop_found name slots w (some s) =
      if is_stopped s.status
      then ((slots, w), ok)
      else ((update_slot name (λ t. record t { status = stopped }) slots, s.app.stop w), ok)

  unfoldable pub stop_app :
      Text
      → List (Slot W Config Request Response)
      → W
      → (List (Slot W Config Request Response) × W) × CoreResult
  unfolding update_slot
  stop_app name slots w = stop_found name slots w (find (has_name name) slots)

  -- What `start_app` leaves: a wiring that failed leaves the slot as it was.
  abbrev pub set_started :
      Text
      → List (Slot W Config Request Response)
      → W × CoreResult
      → (List (Slot W Config Request Response) × W) × CoreResult
  set_started name slots (w, ok) =
      ((update_slot name (λ t. record t { status = running }) slots, w), ok)
  set_started name slots (w, err io_error) = ((slots, w), err io_error)
  set_started name slots (w, err e) =
      ((update_slot name (λ t. record t { status = failed }) slots, w), err e)

  abbrev pub start_found :
      Text
      → List (Slot W Config Request Response)
      → W
      → Option (Slot W Config Request Response)
      → (List (Slot W Config Request Response) × W) × CoreResult
  start_found name slots w none = ((slots, w), err (app_not_found name))
  start_found name slots w (some s) =
      if is_running s.status
      then ((slots, w), ok)
      else set_started name slots (launch s.app s.config w)

  unfoldable pub start_app :
      Text
      → List (Slot W Config Request Response)
      → W
      → (List (Slot W Config Request Response) × W) × CoreResult
  unfolding update_slot launch
  start_app name slots w = start_found name slots w (find (has_name name) slots)

  abbrev pub then_start :
      Text
      → (List (Slot W Config Request Response) × W) × CoreResult
      → (List (Slot W Config Request Response) × W) × CoreResult
  then_start name ((slots, w), ok) = start_app name slots w
  then_start name ((slots, w), err e) = ((slots, w), err e)

  unfoldable pub restart_app :
      Text
      → List (Slot W Config Request Response)
      → W
      → (List (Slot W Config Request Response) × W) × CoreResult
  unfolding stop_app start_app
  restart_app name slots w = then_start name (stop_app name slots w)

  -- `update_config`, for the text that `toml::from_str` was given.
  unfoldable pub update_config :
      Text
      → Option Config
      → List (Slot W Config Request Response)
      → List (Slot W Config Request Response) × CoreResult
  unfolding update_slot
  update_config name none slots = (slots, err config_error)
  update_config name (some value) slots =
      if is_some (find (has_name name) slots)
      then (update_slot name (λ t. record t { config = value }) slots, ok)
      else (slots, err (app_not_found name))

  -- The loop of `stop_all`, over the slots from the last one.
  unfoldable pub stop_running : List (Slot W Config Request Response) → W → W
  stop_running [] w = w
  stop_running (s ∷ ss) w = stop_running ss (if is_running s.status then s.app.stop w else w)

  unfoldable pub stop_all :
      List (Slot W Config Request Response) → W → List (Slot W Config Request Response) × W
  unfolding stop_running
  stop_all slots w = ([], stop_running (reverse slots) w)

-- `path[prefix.len()..]` of a path that starts with the prefix
unfoldable pub strip : Text → Text → Option Text
strip [] path = some path
strip (c ∷ prefix) [] = none
strip (c ∷ prefix) (d ∷ path) = if c == d then strip prefix path else none

-- `rest.is_empty()`, or it starts with `/` or `?`
abbrev pub ends_segment : Option Text → Bool
ends_segment none = false
ends_segment (some []) = true
ends_segment (some (c ∷ rest)) = c == 47 || c == 63

unfoldable pub path_matches : Text → Text → Bool
unfolding strip
path_matches prefix path = ends_segment (strip prefix path)

abbrev pub prefix_matches : Option Text → Text → Bool
prefix_matches none path = false
prefix_matches (some prefix) path = path_matches prefix path

module _ {W Config Request Response : Type 0} where
  unfoldable pub slot_matches : Text → Slot W Config Request Response → Bool
  unfolding path_matches
  slot_matches path s = prefix_matches s.app.http_prefix path || prefix_matches s.app.ui_prefix path

  -- The answer of the first application that gives one; `none` is the answer 404.
  unfoldable pub route_http :
      (Request → Text) → Request → List (Slot W Config Request Response) → W → W × Option Response
  unfolding slot_matches
  route_http path_of req [] w = (w, none)
  route_http path_of req (s ∷ ss) w =
      let (w', resp) = s.app.handle_http req w in
      if is_running s.status && slot_matches (path_of req) s
      then (elim resp [ some r ↦ (w', some r) | none ↦ route_http path_of req ss w' ])
      else route_http path_of req ss w
