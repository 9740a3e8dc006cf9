-- ===== src/Registry/Names.antt =====
-- The names of the applications in registry.rs.
use byte_hive.Base.{true, false, Option, none, some, List, [], ◌∷◌, ◌++◌, Text, ◌≡◌, refl, sym}
use byte_hive.Base.{
  arith, if◌then◌else◌, contains, any, find, ◌==◌, list_eq, nat_eq, ◌∙◌, ap, Bool-cases, inl, inr,
}
use mathlib.Core.Path.{subst}
use byte_hive.Registry.{
  App, Slot, CoreResult, ok, err, io_error, running, stopped, failed, has_name, update_slot, launch,
  push_started, register, stop_app, set_started, start_found, start_app, then_start, restart_app,
  update_config, stop_all, app_already_registered, app_not_found, app_error, config_error,
}

abbrev pub Distinct : List Text → Type 0
Distinct [] = Unit
Distinct (n ∷ ns) = (contains ns n ≡ false) × Distinct ns

contains-snoc :
    (ns : List Text) (n x : Text)
    → contains (ns ++ n ∷ []) x ≡ (if x == n then true else contains ns x)
contains-snoc [] n x = ground arith
contains-snoc (m ∷ ns) n x = ground (arith, contains-snoc ns n x)

Distinct-snoc :
    (ns : List Text) (n : Text) → contains ns n ≡ false → Distinct ns → Distinct (ns ++ n ∷ [])
Distinct-snoc [] n _ _ = (refl, tt)
Distinct-snoc (m ∷ ns) n c (d, ds) =
    (ground (arith, c, d, contains-snoc ns n m), Distinct-snoc ns n (ground (arith, c)) ds)

-- The operations that change the registry.
pub data Call (W Config Request Response : Type 0) : Type 0 where
  register_call : App W Config Request Response → Call W Config Request Response
  stop_call : Text → Call W Config Request Response
  start_call : Text → Call W Config Request Response
  restart_call : Text → Call W Config Request Response
  config_call : Text → Option Config → Call W Config Request Response
  stop_all_call : Call W Config Request Response

module _ {W Config Request Response : Type 0} where
  unfoldable pub names : List (Slot W Config Request Response) → List Text
  names [] = []
  names (s ∷ ss) = s.app.name ∷ names ss

  names-update_slot :
      (name : Text) (f : Slot W Config Request Response → Slot W Config Request Response)
      (slots : List (Slot W Config Request Response))
      → ((s : Slot W Config Request Response) → (f s).app ≡ s.app)
      → names (update_slot name f slots) ≡ names slots
  unfolding names update_slot
  names-update_slot name f [] same = refl
  names-update_slot name f (s ∷ ss) same = ground (arith, names-update_slot name f ss same, same s)

  contains-names :
      (slots : List (Slot W Config Request Response)) (name : Text)
      → contains (names slots) name ≡ any (has_name name) slots
  unfolding names
  contains-names [] name = refl
  contains-names (s ∷ ss) name = ground (arith, contains-names ss name)

  names-append :
      (slots : List (Slot W Config Request Response)) (s : Slot W Config Request Response)
      → names (slots ++ s ∷ []) ≡ names slots ++ s.app.name ∷ []
  unfolding names
  names-append [] s = refl
  names-append (t ∷ ss) s = ap (◌∷◌ t.app.name) (names-append ss s)

  push_started-Distinct :
      (app : App W Config Request Response) (config : Config)
      (slots : List (Slot W Config Request Response)) (r : W × CoreResult)
      → any (has_name app.name) slots ≡ false
      → Distinct (names slots)
      → Distinct (names (push_started app config slots r).0.0)
  push_started-Distinct app config slots (w, ok) new d =
      subst Distinct
        (sym (names-append slots (record { app = app; config = config; status = running })))
        (Distinct-snoc (names slots) app.name (contains-names slots app.name ∙ new) d)
  push_started-Distinct app config slots (w, err e) new d = d

  set_started-names :
      (name : Text) (slots : List (Slot W Config Request Response)) (r : W × CoreResult)
      → names (set_started name slots r).0.0 ≡ names slots
  set_started-names name slots (w, ok) =
      names-update_slot name (λ t. record t { status = running }) slots (λ t. refl)
  set_started-names name slots (w, err io_error) = refl
  set_started-names name slots (w, err (app_already_registered n)) =
      names-update_slot name (λ t. record t { status = failed }) slots (λ t. refl)
  set_started-names name slots (w, err (app_not_found n)) =
      names-update_slot name (λ t. record t { status = failed }) slots (λ t. refl)
  set_started-names name slots (w, err app_error) =
      names-update_slot name (λ t. record t { status = failed }) slots (λ t. refl)
  set_started-names name slots (w, err config_error) =
      names-update_slot name (λ t. record t { status = failed }) slots (λ t. refl)

  stop_app-names :
      (name : Text) (slots : List (Slot W Config Request Response)) (w : W)
      → names (stop_app name slots w).0.0 ≡ names slots
  unfolding stop_app
  stop_app-names name slots w =
      ground (arith, names-update_slot name (λ t. record t { status = stopped }) slots (λ t. refl))

  start_app-names :
      (name : Text) (slots : List (Slot W Config Request Response)) (w : W)
      → names (start_app name slots w).0.0 ≡ names slots
  unfolding start_app
  start_app-names name slots w = go (find (has_name name) slots)
    where
      go :
          (o : Option (Slot W Config Request Response))
          → names (start_found name slots w o).0.0 ≡ names slots
      go none = refl
      go (some s) = ground (arith, set_started-names name slots (launch s.app s.config w))

  then_start-names :
      (name : Text) (slots : List (Slot W Config Request Response))
      (r : (List (Slot W Config Request Response) × W) × CoreResult)
      → names r.0.0 ≡ names slots
      → names (then_start name r).0.0 ≡ names slots
  then_start-names name slots ((ss, w), ok) h = start_app-names name ss w ∙ h
  then_start-names name slots ((ss, w), err e) h = h

  update_config-names :
      (name : Text) (value : Option Config) (slots : List (Slot W Config Request Response))
      → names (update_config name value slots).0 ≡ names slots
  unfolding update_config
  update_config-names name none slots = refl
  update_config-names name (some value) slots =
      ground (arith, names-update_slot name (λ t. record t { config = value }) slots (λ t. refl))

  unfoldable pub run_call :
      (Text → Config)
      → Call W Config Request Response
      → List (Slot W Config Request Response) × W
      → List (Slot W Config Request Response) × W
  run_call app_config (register_call app) (slots, w) = (register app_config app slots w).0
  run_call app_config (stop_call name) (slots, w) = (stop_app name slots w).0
  run_call app_config (start_call name) (slots, w) = (start_app name slots w).0
  run_call app_config (restart_call name) (slots, w) = (restart_app name slots w).0
  run_call app_config (config_call name value) (slots, w) = ((update_config name value slots).0, w)
  run_call app_config stop_all_call (slots, w) = stop_all slots w

  unfoldable pub run_calls :
      (Text → Config)
      → List (Call W Config Request Response)
      → List (Slot W Config Request Response) × W
      → List (Slot W Config Request Response) × W
  unfolding run_call
  run_calls app_config [] r = r
  run_calls app_config (c ∷ cs) r = run_calls app_config cs (run_call app_config c r)

  run_call-Distinct :
      (app_config : Text → Config) (c : Call W Config Request Response)
      (slots : List (Slot W Config Request Response)) (w : W)
      → Distinct (names slots)
      → Distinct (names (run_call app_config c (slots, w)).0)
  unfolding run_call register restart_app stop_all names
  run_call-Distinct app_config (register_call app) slots w d =
      elim (Bool-cases (any (has_name app.name) slots)) [
        | inl taken ↦ subst (λ x. Distinct x) (sym (ground (arith, taken))) d
        | inr free ↦
            subst (λ x. Distinct x) (sym (ground (arith, free)))
              (push_started-Distinct app (app_config app.name) slots
                (launch app (app_config app.name) w) free d)
      ]
  run_call-Distinct app_config (stop_call name) slots w d =
      subst (λ x. Distinct x) (sym (stop_app-names name slots w)) d
  run_call-Distinct app_config (start_call name) slots w d =
      subst (λ x. Distinct x) (sym (start_app-names name slots w)) d
  run_call-Distinct app_config (restart_call name) slots w d =
      subst (λ x. Distinct x)
        (sym (then_start-names name slots (stop_app name slots w) (stop_app-names name slots w))) d
  run_call-Distinct app_config (config_call name value) slots w d =
      subst (λ x. Distinct x) (sym (update_config-names name value slots)) d
  run_call-Distinct app_config stop_all_call slots w d = tt

  -- However applications are registered, started, stopped, restarted, configured or all stopped,
  -- and whether their own calls fail or not, the names in the registry stay distinct.
  pub run_calls-Distinct :
      (app_config : Text → Config) (cs : List (Call W Config Request Response))
      (slots : List (Slot W Config Request Response)) (w : W)
      → Distinct (names slots)
      → Distinct (names (run_calls app_config cs (slots, w)).0)
  unfolding run_calls
  run_calls-Distinct app_config [] slots w d = d
  run_calls-Distinct app_config (c ∷ cs) slots w d =
      let r = run_call app_config c (slots, w) in
      run_calls-Distinct app_config cs r.0 r.1 (run_call-Distinct app_config c slots w d)
