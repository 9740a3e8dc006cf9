-- ===== src/KnownHosts.antt =====
-- crates/filesync/src/known_hosts.rs: the clients that a server knows, with their approval, and the
-- servers that a client has pinned. `saved` is what the last call of `save` was given to write; the
-- TOML text and the file are the toml crate's and the file system's.
pub mod Approval
pub mod Labels
pub mod Pins
use byte_hive.Base.{ℕ, Bool, true, false, ◌&&◌, ◌||◌, not, Option, none, some, List, [], ◌∷◌, ◌++◌}
use byte_hive.Base.{Text, codes, if◌then◌else◌, leb, ltb, length, select, find, any, reverse}
use byte_hive.Base.{is_some, ◌==◌, nat_eq, list_eq}

pub data ClientStatus : Type 0 where
  pending : ClientStatus
  allowed : ClientStatus
  rejected : ClientStatus

pub record KnownClient : Type 0 where
  pub node_id : Text
  pub fingerprint : Text
  pub label : Text
  pub status : ClientStatus
  pub addr : Text
  pub first_seen_ms : ℕ
  pub last_seen_ms : ℕ

pub record KnownClients : Type 0 where
  pub clients : List KnownClient
  pub auto_approve : Bool
  pub saved : Option (List KnownClient)

-- `iter_mut().find(p)` and a change of what is found
unfoldable pub update_first {ℓ} : {A : Type ℓ} → (A → Bool) → (A → A) → List A → List A
update_first p f [] = []
update_first p f (x ∷ xs) = let rest = update_first p f xs in if p x then f x ∷ xs else x ∷ rest

abbrev pub save : List KnownClient → KnownClients → KnownClients
save clients k = record k { clients = clients; saved = some clients }

abbrev pub has_fingerprint : Text → KnownClient → Bool
has_fingerprint fingerprint c = c.fingerprint == fingerprint

unfoldable pub get : KnownClients → Text → Option KnownClient
get k fingerprint = find (has_fingerprint fingerprint) k.clients

abbrev pub status_of : Option KnownClient → Option ClientStatus
status_of none = none
status_of (some c) = some c.status

unfoldable pub status : KnownClients → Text → Option ClientStatus
unfolding get
status k fingerprint = status_of (get k fingerprint)

abbrev pub is_pending : ClientStatus → Bool
is_pending pending = true
is_pending allowed = false
is_pending rejected = false

unfoldable pub pending_count : KnownClients → ℕ
pending_count k = length (select (λ c. is_pending c.status) k.clients)

-- A known client that is seen again.
abbrev pub seen_again : Text → Text → ℕ → KnownClient → KnownClient
seen_again node_id addr now c = record c {
  last_seen_ms = now;
  node_id = if c.node_id == [] then node_id else c.node_id;
  addr = if addr == [] then c.addr else addr;
}

abbrev pub new_client : Bool → Text → Text → Text → ℕ → KnownClient
new_client auto_approve node_id fingerprint addr now = record {
  node_id = node_id;
  fingerprint = fingerprint;
  label = [];
  status = if auto_approve then allowed else pending;
  addr = addr;
  first_seen_ms = now;
  last_seen_ms = now;
}

unfoldable pub upsert_pending : Text → Text → Text → ℕ → KnownClients → KnownClients × Bool
unfolding get update_first
upsert_pending node_id fingerprint addr now k =
    if is_some (get k fingerprint)
    then (
      save (update_first (has_fingerprint fingerprint) (seen_again node_id addr now) k.clients) k,
      false,
    )
    else (save (k.clients ++ new_client k.auto_approve node_id fingerprint addr now ∷ []) k, true)

-- `set_status` and `set_label`: a change of the client with this fingerprint, if there is one.
unfoldable pub change : Text → (KnownClient → KnownClient) → KnownClients → KnownClients × Bool
unfolding get update_first
change fingerprint f k =
    if is_some (get k fingerprint)
    then (save (update_first (has_fingerprint fingerprint) f k.clients) k, true)
    else (k, false)

unfoldable pub set_status : Text → ClientStatus → KnownClients → KnownClients × Bool
unfolding change
set_status fingerprint st k = change fingerprint (λ c. record c { status = st }) k

unfoldable pub set_label : Text → Text → KnownClients → KnownClients × Bool
unfolding change
set_label fingerprint label k = change fingerprint (λ c. record c { label = label }) k

unfoldable pub remove : Text → KnownClients → KnownClients × Bool
remove fingerprint k =
    let clients = select (λ c. not (c.fingerprint == fingerprint)) k.clients in
    if length clients == length k.clients
    then (record k { clients = clients }, false)
    else (save clients k, true)

-- `char::is_control`, general category Cc
abbrev pub is_control : ℕ → Bool
is_control c = leb c 31 || leb 127 c && leb c 159

-- `char::is_whitespace`, the property White_Space
abbrev pub is_whitespace : ℕ → Bool
is_whitespace c =
    leb 9 c && leb c 13
    || c == 32
    || c == 133
    || c == 160
    || c == 5760
    || leb 8192 c && leb c 8202
    || c == 8232
    || c == 8233
    || c == 8239
    || c == 8287
    || c == 12288

unfoldable pub is_unsafe_label_char : ℕ → Bool
is_unsafe_label_char c =
    is_control c || c == 8232 || c == 8233 || leb 8234 c && leb c 8238 || leb 8294 c && leb c 8297

unfoldable pub trim_start : Text → Text
trim_start [] = []
trim_start (c ∷ t) = let rest = trim_start t in if is_whitespace c then rest else c ∷ t

unfoldable pub trim : Text → Text
unfolding trim_start
trim t = reverse (trim_start (reverse (trim_start t)))

abbrev pub max_label_chars : ℕ
max_label_chars = 64

pub data LabelError : Type 0 where
  control_characters : LabelError
  too_long : LabelError

pub data LabelResult : Type 0 where
  ok : Text → LabelResult
  err : LabelError → LabelResult

unfoldable pub validate_label : Text → LabelResult
unfolding trim is_unsafe_label_char
validate_label raw =
    let label = trim raw in
    if any is_unsafe_label_char label
    then err control_characters
    else if ltb max_label_chars (length label)
    then err too_long
    else ok label

pub record KnownServer : Type 0 where
  pub addr : Text
  pub fingerprint : Text
  pub first_seen_ms : ℕ

pub record KnownServers : Type 0 where
  pub servers : List KnownServer
  pub saved_servers : Option (List KnownServer)

abbrev pub save_servers : List KnownServer → KnownServers → KnownServers
save_servers servers k = record { servers = servers; saved_servers = some servers }

abbrev pub has_addr : Text → KnownServer → Bool
has_addr addr s = s.addr == addr

abbrev pub fingerprint_of : Option KnownServer → Option Text
fingerprint_of none = none
fingerprint_of (some s) = some s.fingerprint

unfoldable pub get_fingerprint : KnownServers → Text → Option Text
get_fingerprint k addr = fingerprint_of (find (has_addr addr) k.servers)

unfoldable pub pin : Text → Text → ℕ → KnownServers → KnownServers
unfolding update_first
pin addr fingerprint now k =
    if is_some (find (has_addr addr) k.servers)
    then save_servers
        (update_first (has_addr addr) (λ s. record s { fingerprint = fingerprint }) k.servers) k
    else save_servers
        (k.servers ++ record { addr = addr; fingerprint = fingerprint; first_seen_ms = now } ∷ []) k

unfoldable pub remove_server : Text → KnownServers → KnownServers × Bool
remove_server addr k =
    let servers = select (λ s. not (s.addr == addr)) k.servers in
    if length servers == length k.servers
    then (record k { servers = servers }, false)
    else (save_servers servers k, true)
