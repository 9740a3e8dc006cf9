-- ===== src/Users/Sessions/Acceptance.antt =====
-- `authenticate_credential` of users.rs.
use byte_hive.Base.{ℕ, Bool, true, false, ◌&&◌, not, none, some}
use byte_hive.Base.{[], Text, if◌then◌else◌, ◌==◌, nat_eq, list_eq}
use byte_hive.Base.{find-holds, find}
use byte_hive.Base.{◌≡◌, ◌≤◌, ◌∙◌, sym, ap, arith, ◌≢◌, inl, inr, Option-cases}
use byte_hive.Base.Dict
use byte_hive.Base.Dict.{NodupKeys}
use byte_hive.Base.Dict.{Dict}
use byte_hive.Users.{ApiKey, Session, AuthContext, UserStore, is_expired, for_admin_token}
use byte_hive.Users.Credentials.{constant_eq}
use byte_hive.Users.Sessions.{
  validate, key_or_token, authenticate_key, authenticate_session, authenticate_credential,
}

-- Why a credential is accepted.
pub data IsAccepted (s : UserStore) (now : ℕ) (credential : Text) : Type 0 where
  by_session :
      (sess : Session)
      → Dict.lookup credential s.sessions ≡ some sess
      → now ≤ sess.expires_ms
      → IsAccepted s now credential
  by_key :
      (k : ApiKey)
      → find (λ j. constant_eq j.key credential && not (is_expired j now)) s.api_keys ≡ some k
      → constant_eq k.key credential ≡ true
      → is_expired k now ≡ false
      → IsAccepted s now credential
  by_token :
      s.admin_token ≢ [] → constant_eq s.admin_token credential ≡ true → IsAccepted s now credential

both_hold :
    {A : Type 0} (b c : Bool) (x y : A)
    → (if b && c then some x else none) ≡ some y
    → (b ≡ true) × (c ≡ true)
both_hold b c x y h = ground arith

token_holds :
    (token credential : Text) (c : AuthContext)
    → key_or_token token credential none ≡ some c
    → (not (token == []) ≡ true) × (constant_eq token credential ≡ true)
unfolding key_or_token
token_holds token credential c h =
    both_hold (not (token == [])) (constant_eq token credential) for_admin_token c h

is_set : (token : Text) → not (token == []) ≡ true → token ≢ []
is_set token h e = ground arith

IsAccepted-by_key :
    (s : UserStore) (now : ℕ) (credential : Text) (c : AuthContext)
    → authenticate_key s.api_keys s.admin_token now credential ≡ some c
    → IsAccepted s now credential
unfolding authenticate_key key_or_token
IsAccepted-by_key s now credential c h =
    let test : ApiKey → Bool = λ k. constant_eq k.key credential && not (is_expired k now) in
    elim (Option-cases (find test s.api_keys)) [
      | inl e ↦
          let (nonempty, right) =
            token_holds s.admin_token credential c
              (sym (ap (key_or_token s.admin_token credential) e) ∙ h) in
          by_token (is_set s.admin_token nonempty) right
      | inr (k, e) ↦
          let holds = find-holds test s.api_keys k e in
          by_key k e (ground (arith, holds)) (ground (arith, holds))
    ]

-- A credential is accepted only as the token of a session that has not expired, as an API key that has
-- not expired, or as the admin token where one is configured.
pub authenticate_credential_sound :
    (s : UserStore) (now : ℕ) (credential : Text) (c : AuthContext)
    → (authenticate_credential s now credential).1 ≡ some c
    → IsAccepted s now credential
unfolding authenticate_credential authenticate_session validate
authenticate_credential_sound s now credential c h =
    elim (Option-cases (validate s now credential)) [
      | inl e ↦ IsAccepted-by_key s now credential c (ground (arith, e))
      | inr (sess, e) ↦ by_session sess (ground (arith, e)) (ground (arith, e))
    ]
