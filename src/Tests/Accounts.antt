-- ===== src/Tests/Accounts.antt =====
-- The theorems on accounts and credentials, at concrete inputs.
use byte_hive.Base.{◌≡◌, ◌↔◌, refl, true, none, some}
use byte_hive.Base.{leb, if◌then◌else◌, [], ◌∷◌, Text, codes, arith, list_eq, nat_eq, ◌==◌}
use byte_hive.Base.Dict
use byte_hive.Base.Dict.{Dict, NodupKeys}
use byte_hive.Users.{Argon, UserEntry, Session, UserStore, ok, for_admin_token}
use byte_hive.Users.Credentials.{constant_eq, constant_eq_lem, verify_password}
use byte_hive.Users.Sessions.{login, validate, logout, gc, authenticate_credential}
use byte_hive.Users.Sessions.Login.{login-validate}
use byte_hive.Users.Sessions.Collection.{gc-authenticate_credential}
use byte_hive.Users.Sessions.Acceptance.{authenticate_credential_sound, IsAccepted}
use byte_hive.Users.Accounts.{remove_user, IsGone, remove_user-IsGone}

-- A password is its own hash.
abbrev plain : Argon
plain = record { hash = λ salt p. p; check = λ stored p. some (stored == p) }

abbrev ann : UserEntry
ann = record { username = codes "ann"; password_hash = codes "x"; display_name = [] }

abbrev store : Dict Text Session → UserStore
store sessions = record {
  users = ann ∷ [];
  groups = [];
  api_keys = [];
  sessions = sessions;
  admin_token = codes "t";
  session_ttl_ms = 10;
  config_path = none;
  saved = none;
}

abbrev ann_session : Session
ann_session = record {
  token = codes "u";
  username = codes "ann";
  display_name = codes "ann";
  expires_ms = 15;
}

abbrev logged_in : UserStore
logged_in = store ((codes "u", ann_session) ∷ [])

constant_eq_lem_run : (constant_eq (codes "ab") (codes "ac") ≡ true) ↔ (codes "ab" ≡ codes "ac")
constant_eq_lem_run =
    constant_eq_lem (codes "ab") (codes "ac") (omega arith, (omega arith, tt))
      (omega arith, (omega arith, tt))

login_ann :
    login plain (store []) 5 (codes "u") (codes "ann") (codes "x") ≡ (logged_in, some ann_session)
unfolding login verify_password Dict.insert list_eq nat_eq
login_ann = refl

login-validate_example :
    (ann_session.token ≡ codes "u")
    × (ann_session.username ≡ codes "ann")
    × (ann_session.expires_ms ≡ 15)
    × (validate logged_in 16 ann_session.token ≡ (if leb 16 15 then some ann_session else none))
    × (validate (logout logged_in ann_session.token) 16 ann_session.token ≡ none)
login-validate_example =
    login-validate plain (store []) logged_in 5 16 (codes "u") (codes "ann") (codes "x") ann_session
      login_ann

one_session : NodupKeys logged_in.sessions
unfolding Dict.lookup
one_session = (refl, tt)

gc-authenticate_credential_example :
    (authenticate_credential (gc logged_in 20) 20 (codes "u")).1
    ≡ (authenticate_credential logged_in 20 (codes "u")).1
gc-authenticate_credential_example =
    gc-authenticate_credential logged_in 20 20 (codes "u") one_session (omega arith)

accepts_token : (authenticate_credential logged_in 20 (codes "t")).1 ≡ some for_admin_token
unfolding authenticate_credential validate Dict.lookup list_eq nat_eq constant_eq
accepts_token = refl

authenticate_credential_sound_example : IsAccepted logged_in 20 (codes "t")
authenticate_credential_sound_example =
    authenticate_credential_sound logged_in 20 (codes "t") for_admin_token accepts_token

abbrev without_ann : UserStore
without_ann = record (store []) { users = [] }

removes_ann : remove_user logged_in (codes "ann") ≡ ok without_ann
unfolding remove_user Dict.retain list_eq nat_eq
removes_ann = refl

remove_user-IsGone_example : IsGone (codes "ann") without_ann
remove_user-IsGone_example =
    remove_user-IsGone logged_in without_ann (codes "ann") removes_ann one_session
