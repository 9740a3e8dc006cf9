-- ===== src/Users/Sessions/Collection.antt =====
-- `gc` of users.rs: what it leaves of sessions and API keys.
use byte_hive.Base.{ℕ, Bool, true, false, ◌&&◌, not, Option, none, some}
use byte_hive.Base.{List, [], ◌∷◌, Text, leb, if◌then◌else◌, nat_eq, list_eq}
use byte_hive.Base.{contains, select, find, map}
use byte_hive.Base.{◌≡◌, ◌≤◌, refl, ◌∙◌, ap, arith, inl, inr, Option-cases}
use byte_hive.Base.Dict
use byte_hive.Base.Dict.{NodupKeys}
use byte_hive.Base.Dict.{Dict}
use byte_hive.Users.{Group, ApiKey, Session, UserStore, persist, is_expired, session}
use byte_hive.Users.Credentials.{constant_eq}
use byte_hive.Users.Sessions.{
  validate, groups_for_user, key_or_token, authenticate_key, authenticate_session,
  authenticate_credential, gc,
}

find-select :
    {A : Type 0} (p q : A → Bool) (xs : List A)
    → ((x : A) → p x ≡ true → q x ≡ true)
    → find p (select q xs) ≡ find p xs
find-select p q [] h = refl
find-select p q (x ∷ xs) h = ground (arith, find-select p q xs h, h x)

pub persist-keeps :
    (s : UserStore)
    → ((persist s).sessions ≡ s.sessions)
      × ((persist s).api_keys ≡ s.api_keys)
      × ((persist s).groups ≡ s.groups)
      × ((persist s).users ≡ s.users)
      × ((persist s).admin_token ≡ s.admin_token)
unfolding persist
persist-keeps s = elim (Option-cases s.config_path) [
  | inl e ↦ rw e (refl, refl, refl, refl, refl)
  | inr (c, e) ↦ rw e (refl, refl, refl, refl, refl)
]

persist_if-keeps :
    (b : Bool) (s : UserStore)
    → ((if b then persist s else s).sessions ≡ s.sessions)
      × ((if b then persist s else s).api_keys ≡ s.api_keys)
      × ((if b then persist s else s).groups ≡ s.groups)
      × ((if b then persist s else s).users ≡ s.users)
      × ((if b then persist s else s).admin_token ≡ s.admin_token)
persist_if-keeps true s = persist-keeps s
persist_if-keeps false s = (refl, refl, refl, refl, refl)

gc-keeps :
    (s : UserStore) (now : ℕ)
    → ((gc s now).sessions ≡ Dict.retain (λ _ sess. leb now sess.expires_ms) s.sessions)
      × ((gc s now).api_keys ≡ select (λ k. not (is_expired k now)) s.api_keys)
      × ((gc s now).groups ≡ s.groups)
      × ((gc s now).users ≡ s.users)
      × ((gc s now).admin_token ≡ s.admin_token)
unfolding gc
gc-keeps s now = persist_if-keeps _ _

still_valid :
    (k : ApiKey) (now at : ℕ) (b : Bool)
    → now ≤ at
    → (b && not (is_expired k at)) ≡ true
    → not (is_expired k now) ≡ true
unfolding is_expired
still_valid k now at b l e = ground arith

gc-validate :
    (s : UserStore) (now at : ℕ) (token : Text)
    → NodupKeys s.sessions
    → now ≤ at
    → validate (gc s now) at token ≡ validate s at token
unfolding validate
gc-validate s now at token u l = ground (
  arith,
  (gc-keeps s now).0,
  Dict.lookup-retain (λ _ (sess : Session). leb now sess.expires_ms) token s.sessions u,
)

gc-authenticate_key :
    (keys : List ApiKey) (token : Text) (now at : ℕ) (credential : Text)
    → now ≤ at
    → authenticate_key (select (λ k. not (is_expired k now)) keys) token at credential
      ≡ authenticate_key keys token at credential
unfolding authenticate_key
gc-authenticate_key keys token now at credential l = ap (key_or_token token credential) (
    find-select (λ k. constant_eq k.key credential && not (is_expired k at))
      (λ k. not (is_expired k now)) keys (λ k e. still_valid k now at _ l e))

gc-groups_for_user :
    (s : UserStore) (now : ℕ) (name : Text)
    → groups_for_user (gc s now) name ≡ groups_for_user s name
unfolding groups_for_user
gc-groups_for_user s now name =
    ap (λ (gs : List Group). map (λ g. g.name) (select (λ g. contains g.members name) gs))
      (gc-keeps s now).2

gc-authenticate_session :
    (s : UserStore) (now at : ℕ) (credential : Text) (o : Option Session)
    → now ≤ at
    → (authenticate_session (gc s now) at credential o).1
      ≡ (authenticate_session s at credential o).1
unfolding authenticate_session
gc-authenticate_session s now at credential none l =
    let (_, keys, _, _, token) = gc-keeps s now in
    ap (λ (ks : List ApiKey). authenticate_key ks (gc s now).admin_token at credential) keys
    ∙ gc-authenticate_key s.api_keys (gc s now).admin_token now at credential l
    ∙ ap (λ (t : Text). authenticate_key s.api_keys t at credential) token
gc-authenticate_session s now at credential (some sess) l =
    ap
      (λ (gs : List Text). some (record {
        username = sess.username;
        display_name = sess.display_name;
        groups = gs;
        method = session;
      }))
      (gc-groups_for_user s now sess.username)

-- The garbage collection of sessions and API keys is invisible: every credential is accepted or refused
-- afterwards, at that time or later, as it would have been without it, and with the same context.
pub gc-authenticate_credential :
    (s : UserStore) (now at : ℕ) (credential : Text)
    → NodupKeys s.sessions
    → now ≤ at
    → (authenticate_credential (gc s now) at credential).1
      ≡ (authenticate_credential s at credential).1
unfolding authenticate_credential
gc-authenticate_credential s now at credential u l =
    gc-authenticate_session s now at credential (validate (gc s now) at credential) l
    ∙ ap (λ (o : Option Session). (authenticate_session s at credential o).1)
        (gc-validate s now at credential u l)
