-- ===== src/Users/Sessions.antt =====
-- Sessions and API keys in use: login, validation, refresh, authentication, garbage collection.
pub mod Login
pub mod Collection
pub mod Acceptance
use byte_hive.Base.{ℕ, ◌+◌, Bool, true, false, ◌&&◌, not, Option, none, some}
use byte_hive.Base.{List, [], ◌∷◌, Text, ltb, leb, if◌then◌else◌, ◌==◌, nat_eq, list_eq}
use byte_hive.Base.{contains, select, any, find, map}
use byte_hive.Base.{◌≡◌, ◌≤◌, refl, ◌∙◌, sym, ap, arith, ◌≢◌, inl, inr, Option-cases}
use mathlib.Core.Path.{subst}
use byte_hive.Base.Dict
use byte_hive.Base.Dict.{NodupKeys}
use byte_hive.Base.Dict.{Dict}
use byte_hive.Users.{
  Argon, UserEntry, Group, ApiKey, Session, AuthContext, UserStore, persist, is_expired,
  for_api_key, for_admin_token, session,
}
use byte_hive.Users.Credentials.{constant_eq, verify_password, Verified, verified, unverified}

module _ (A : Argon) where
  abbrev pub display_name_of : UserEntry → Text
  display_name_of u = if u.display_name == [] then u.username else u.display_name

  -- The session of a user whose password was verified.
  admit : UserStore → ℕ → Text → UserEntry → Verified → UserStore × Option Session
  admit s now uuid u (unverified _) = (s, none)
  admit s now uuid u (verified false) = (s, none)
  admit s now uuid u (verified true) =
      let sess : Session = record {
        token = uuid;
        username = u.username;
        display_name = display_name_of u;
        expires_ms = now + s.session_ttl_ms;
      } in
      (record s { sessions = Dict.insert uuid sess s.sessions }, some sess)

  unfoldable pub login : UserStore → ℕ → Text → Text → Text → UserStore × Option Session
  unfolding admit
  login s now uuid username password = elim (find (λ u. u.username == username) s.users) [
    | none ↦ (s, none)
    | some u ↦ admit s now uuid u (verify_password A u.password_hash password)
  ]

unfoldable pub validate : UserStore → ℕ → Text → Option Session
validate s now token = elim (Dict.lookup token s.sessions) [
  | none ↦ none
  | some sess ↦ if ltb sess.expires_ms now then none else some sess
]

unfoldable pub refresh : UserStore → ℕ → Text → UserStore
refresh s now token = elim (Dict.lookup token s.sessions) [
  | none ↦ s
  | some sess ↦ record s {
    sessions = Dict.insert token (record sess { expires_ms = now + s.session_ttl_ms }) s.sessions;
  }
]

unfoldable pub logout : UserStore → Text → UserStore
logout s token = record s { sessions = Dict.erase token s.sessions }

unfoldable pub groups_for_user : UserStore → Text → List Text
groups_for_user s username = map (λ g. g.name) (select (λ g. contains g.members username) s.groups)

-- The key found, or else the admin token.
key_or_token : Text → Text → Option ApiKey → Option AuthContext
unfolding for_api_key constant_eq
key_or_token token credential (some k) = some (for_api_key k)
key_or_token token credential none =
    if not (token == []) && constant_eq token credential then some for_admin_token else none

-- The API keys and then the admin token, for a credential that is no session.
authenticate_key : List ApiKey → Text → ℕ → Text → Option AuthContext
unfolding key_or_token is_expired constant_eq
authenticate_key api_keys token now credential =
    key_or_token token credential
      (find (λ k. constant_eq k.key credential && not (is_expired k now)) api_keys)

authenticate_session : UserStore → ℕ → Text → Option Session → UserStore × Option AuthContext
unfolding refresh groups_for_user authenticate_key
authenticate_session s now credential none =
    (s, authenticate_key s.api_keys s.admin_token now credential)
authenticate_session s now credential (some sess) = (
  refresh s now credential,
  some (record {
    username = sess.username;
    display_name = sess.display_name;
    groups = groups_for_user s sess.username;
    method = session;
  }),
)

unfoldable pub authenticate_credential : UserStore → ℕ → Text → UserStore × Option AuthContext
unfolding validate authenticate_session
authenticate_credential s now credential =
    authenticate_session s now credential (validate s now credential)

unfoldable pub gc : UserStore → ℕ → UserStore
unfolding persist is_expired
gc s now =
    let keys = select (λ k. not (is_expired k now)) s.api_keys in
    let s' = record s {
      sessions = Dict.retain (λ _ sess. leb now sess.expires_ms) s.sessions;
      api_keys = keys;
    } in
    if any (λ k. is_expired k now) s.api_keys then persist s' else s'
