-- ===== src/Users/Sessions/Login.antt =====
-- `login`, `validate` and `logout` of users.rs.
use byte_hive.Base.{leb, if◌then◌else◌, ℕ, ◌+◌, true, false, Option, none, some}
use byte_hive.Base.{Text, ◌==◌, nat_eq, list_eq}
use byte_hive.Base.{find-holds, find}
use byte_hive.Base.{◌≡◌, refl, arith, inl, inr, Option-cases}
use mathlib.Core.Path.{subst}
use byte_hive.Base.Dict
use byte_hive.Base.Dict.{NodupKeys}
use byte_hive.Base.Dict.{Dict}
use byte_hive.Users.{Argon, UserEntry, Session, UserStore}
use byte_hive.Users.Credentials.{verify_password, Verified, verified, unverified}
use byte_hive.Users.Sessions.{admit, login, validate, logout}

-- What a login that returned a session promises of it.
abbrev IsLoggedIn : ℕ → Text → ℕ → Text → UserStore × Option Session → Type 0
IsLoggedIn at uuid until username (t, none) = Unit
IsLoggedIn at uuid until username (t, some sess) =
    (sess.token ≡ uuid)
    × (sess.username ≡ username)
    × (sess.expires_ms ≡ until)
    × (validate t at sess.token ≡ (if leb at until then some sess else none))
    × (validate (logout t sess.token) at sess.token ≡ none)

inserted-IsLoggedIn :
    (at : ℕ) (uuid : Text) (x : Session) (s : UserStore)
    → x.token ≡ uuid
    → IsLoggedIn at uuid x.expires_ms x.username
        (record s { sessions = Dict.insert uuid x s.sessions }, some x)
unfolding validate logout
inserted-IsLoggedIn at uuid x s same = (
  same,
  refl,
  refl,
  ground (arith, same, Dict.lookup-insert x.token uuid x s.sessions),
  ground (arith, same, Dict.lookup-erase x.token x.token (Dict.insert uuid x s.sessions)),
)

admit-IsLoggedIn :
    (A : Argon) (s : UserStore) (now at : ℕ) (uuid : Text) (u : UserEntry) (v : Verified)
    → IsLoggedIn at uuid (now + s.session_ttl_ms) u.username (admit A s now uuid u v)
unfolding admit
admit-IsLoggedIn A s now at uuid u (unverified _) = tt
admit-IsLoggedIn A s now at uuid u (verified false) = tt
admit-IsLoggedIn A s now at uuid u (verified true) = inserted-IsLoggedIn at uuid _ s refl

-- A login that succeeds gives a session with the fresh token, for the user who logged in, that expires
-- after the lifetime of sessions; `validate` finds it under its token up to that time and not after,
-- and not after a logout with the token.
pub login-validate :
    (A : Argon) (s t : UserStore) (now at : ℕ) (uuid username password : Text) (sess : Session)
    → login A s now uuid username password ≡ (t, some sess)
    → (sess.token ≡ uuid)
      × (sess.username ≡ username)
      × (sess.expires_ms ≡ now + s.session_ttl_ms)
      × (validate t at sess.token ≡ (if leb at (now + s.session_ttl_ms) then some sess else none))
      × (validate (logout t sess.token) at sess.token ≡ none)
unfolding login
login-validate A s t now at uuid username password sess h =
    elim (Option-cases (find (λ u. u.username == username) s.users)) [
      | inl e ↦ absurd (ground (arith, e))
      | inr (u, e) ↦
          let own : u.username ≡ username =
            ground (arith, find-holds (λ (u : UserEntry). u.username == username) s.users u) in
          let k : admit A s now uuid u (verify_password A u.password_hash password)
              ≡ (t, some sess) =
            ground (arith, e) in
          subst (IsLoggedIn at uuid (now + s.session_ttl_ms) username) k (
            subst
              (λ n.
                IsLoggedIn at uuid (now + s.session_ttl_ms) n
                  (admit A s now uuid u (verify_password A u.password_hash password)))
              own (admit-IsLoggedIn A s now at uuid u _))
    ]
