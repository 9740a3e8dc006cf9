-- ===== src/Users.antt =====
-- crates/core/src/users.rs: accounts, groups, API keys and sessions. The clock, a fresh UUID and a salt are
-- arguments of the operations that draw them, one
-- reading of the clock for each; a string is its UTF-8 bytes; Argon2 is the parameter `Argon`. What `persist` writes
-- into the configuration file is kept as the snapshot `saved`.
pub mod Credentials
pub mod Sessions
pub mod Accounts
use byte_hive.Base.{
  ℕ, zero, suc, ◌+◌, ◌*◌, ◌/◌, ◌%◌, Bool, true, false, ◌&&◌, ◌||◌, not, Option, none, some,
}
use byte_hive.Base.{
  List, [], ◌∷◌, ◌++◌, Text, codes, ltb, leb, if◌then◌else◌, ◌==◌, nat_eq, list_eq,
}
use byte_hive.Base.{length, contains, select, any, all, find, map, max, is_some}
use byte_hive.Base.Dict
use byte_hive.Base.Dict.{Dict}

pub data VerifyError : Type 0 where
  legacy_hash : VerifyError
  invalid_format : VerifyError

-- The Argon2 crate: a hash from salt and password, and the check of a stored hash, none if it cannot
-- be parsed.
pub record Argon : Type 0 where
  pub hash : Text → Text → Text
  pub check : Text → Text → Option Bool

abbrev pub group_admin : Text
group_admin = codes "admin"

abbrev pub group_user : Text
group_user = codes "user"

abbrev pub protected_groups : List Text
protected_groups = group_admin ∷ group_user ∷ []

pub record UserEntry : Type 0 where
  pub username : Text
  pub password_hash : Text
  pub display_name : Text

pub record Group : Type 0 where
  pub name : Text
  pub description : Text
  pub members : List Text

pub record ApiKey : Type 0 where
  pub name : Text
  pub key : Text
  pub as_user : Text
  pub expires_ms : Option ℕ
  pub created_at : ℕ

pub data AuthMethod : Type 0 where
  session : AuthMethod
  api_key : Text → AuthMethod
  admin_token : AuthMethod
  dev_mode : AuthMethod

pub record AuthContext : Type 0 where
  pub username : Text
  pub display_name : Text
  pub groups : List Text
  pub method : AuthMethod

pub record Session : Type 0 where
  pub token : Text
  pub username : Text
  pub display_name : Text
  pub expires_ms : ℕ

pub record Saved : Type 0 where
  pub users : List UserEntry
  pub groups : List Group
  pub api_keys : List ApiKey

pub record UserStore : Type 0 where
  pub users : List UserEntry
  pub groups : List Group
  pub api_keys : List ApiKey
  pub sessions : Dict Text Session
  pub admin_token : Text
  pub session_ttl_ms : ℕ
  pub config_path : Option Text
  pub saved : Option Saved

-- An error is its message, without what `format!` puts into it.
pub data UserError : Type 0 where
  setup_completed : UserError
  password_too_short : UserError
  already_exists : UserError
  not_found : UserError
  is_protected : UserError

pub data UserResult : Type 0 where
  ok : UserStore → UserResult
  err : UserError → UserResult

abbrev pub expired_at : Option ℕ → ℕ → Bool
expired_at none now = false
expired_at (some e) now = ltb e now

unfoldable pub is_expired : ApiKey → ℕ → Bool
is_expired k now = expired_at k.expires_ms now

unfoldable pub effective_username : ApiKey → Text
effective_username k = if k.as_user == [] then codes "api-" ++ k.name else k.as_user

unfoldable pub is_admin : AuthContext → Bool
is_admin c = any (λ g. g == group_admin) c.groups

unfoldable pub can_write : AuthContext → Bool
can_write c = any (λ g. g == group_admin || g == group_user) c.groups

abbrev pub for_admin_token : AuthContext
for_admin_token = record {
  username = codes "admin";
  display_name = codes "Admin (token)";
  groups = protected_groups;
  method = admin_token;
}

unfoldable pub for_api_key : ApiKey → AuthContext
unfolding effective_username
for_api_key k = record {
  username = effective_username k;
  display_name = codes "API Key: " ++ k.name;
  groups = protected_groups;
  method = api_key k.name;
}

abbrev em_dash : Text
em_dash = 226 ∷ 128 ∷ 148 ∷ []

-- The group of that name, added at the end if there is none.
ensure_group : Text → Text → List Group → List Group
ensure_group name desc groups =
    if any (λ g. g.name == name) groups
    then groups
    else groups ++ record { name = name; description = desc; members = [] } ∷ []

unfoldable pub new : List UserEntry → List Group → List ApiKey → Text → Option Text → UserStore
unfolding ensure_group
new users groups api_keys token config_path = record {
  users = users;
  groups =
      ensure_group group_user
        (codes "Standard users " ++ (em_dash ++ codes " read/write access to app APIs"))
        (ensure_group group_admin
          (codes "Administrators " ++ (em_dash ++ codes " full access and ops dashboard")) groups);
  api_keys = api_keys;
  sessions = [];
  admin_token = token;
  session_ttl_ms = 8 * 3600 * 1000;
  config_path = config_path;
  saved = none;
}

-- The snapshot that is serialised; none is taken without a configuration file.
unfoldable pub persist : UserStore → UserStore
persist s = elim s.config_path [
  | none ↦ s
  | some _ ↦ record s {
    saved = some (record { users = s.users; groups = s.groups; api_keys = s.api_keys });
  }
]

unfoldable pub needs_setup : UserStore → Bool
needs_setup s = elim s.users [ [] ↦ true | _ ∷ _ ↦ false ]
