-- ===== src/KnownHosts/Approval.antt =====
-- Who may become an allowed client in known_hosts.rs.
use byte_hive.Base.{ℕ, Bool, true, false, not, Option, none, some, List, [], ◌∷◌, ◌++◌, Text, ◌≡◌}
use byte_hive.Base.{refl, arith, if◌then◌else◌, find, select, All, is_some, ◌==◌, nat_eq, list_eq}
use byte_hive.KnownHosts.{
  ClientStatus, pending, allowed, rejected, KnownClient, KnownClients, update_first,
  has_fingerprint, get, status, seen_again, new_client, upsert_pending, change, set_status,
  set_label, remove,
}

abbrev changed : (KnownClient → KnownClient) → Option KnownClient → Option KnownClient
changed f none = none
changed f (some c) = some (f c)

find-update_first :
    (fp other : Text) (f : KnownClient → KnownClient) (cs : List KnownClient)
    → ((c : KnownClient) → (f c).fingerprint ≡ c.fingerprint)
    → find (has_fingerprint fp) (update_first (has_fingerprint other) f cs) ≡ (
        if fp == other
        then changed f (find (has_fingerprint fp) cs)
        else find (has_fingerprint fp) cs)
unfolding update_first
find-update_first fp other f [] same = ground arith
find-update_first fp other f (c ∷ cs) same =
    ground (arith, find-update_first fp other f cs same, same c)

find-append :
    (fp : Text) (cs : List KnownClient) (c : KnownClient)
    → find (has_fingerprint fp) (cs ++ c ∷ []) ≡ (
        if is_some (find (has_fingerprint fp) cs)
        then find (has_fingerprint fp) cs
        else if c.fingerprint == fp
        then some c
        else none)
find-append fp [] c = refl
find-append fp (d ∷ cs) c = ground (arith, find-append fp cs c)

find-select :
    (fp other : Text) (cs : List KnownClient)
    → find (has_fingerprint fp) (select (λ c. not (c.fingerprint == other)) cs)
      ≡ (if fp == other then none else find (has_fingerprint fp) cs)
find-select fp other [] = ground arith
find-select fp other (c ∷ cs) = ground (arith, find-select fp other cs)

-- A client that connects keeps its status; a new one gets the status of the store's policy.
pub status-upsert_pending :
    (node_id other addr : Text) (now : ℕ) (k : KnownClients) (fp : Text)
    → status (upsert_pending node_id other addr now k).0 fp ≡ (
        if is_some (status k fp)
        then status k fp
        else if other == fp
        then some (if k.auto_approve then allowed else pending)
        else none)
unfolding status get upsert_pending
status-upsert_pending node_id other addr now k fp = ground (
  arith,
  find-update_first fp other (seen_again node_id addr now) k.clients (λ c. refl),
  find-append fp k.clients (new_client k.auto_approve node_id other addr now),
)

pub status-set_status :
    (other : Text) (st : ClientStatus) (k : KnownClients) (fp : Text)
    → status (set_status other st k).0 fp
      ≡ (if fp == other then (if is_some (status k fp) then some st else none) else status k fp)
unfolding status get set_status change
status-set_status other st k fp =
    ground (arith, find-update_first fp other (λ c. record c { status = st }) k.clients (λ c. refl))

pub status-set_label :
    (other label : Text) (k : KnownClients) (fp : Text)
    → status (set_label other label k).0 fp ≡ status k fp
unfolding status get set_label change
status-set_label other label k fp =
    ground
      (arith, find-update_first fp other (λ c. record c { label = label }) k.clients (λ c. refl))

pub status-remove :
    (other : Text) (k : KnownClients) (fp : Text)
    → status (remove other k).0 fp ≡ (if fp == other then none else status k fp)
unfolding status get remove
status-remove other k fp = ground (arith, find-select fp other k.clients)

-- The operations that change the list.
pub data Call : Type 0 where
  connect_call : (node_id fingerprint addr : Text) → (now : ℕ) → Call
  status_call : Text → ClientStatus → Call
  label_call : Text → Text → Call
  remove_call : Text → Call

unfoldable pub run_call : Call → KnownClients → KnownClients
run_call (connect_call node_id fingerprint addr now) k =
    (upsert_pending node_id fingerprint addr now k).0
run_call (status_call fingerprint st) k = (set_status fingerprint st k).0
run_call (label_call fingerprint label) k = (set_label fingerprint label k).0
run_call (remove_call fingerprint) k = (remove fingerprint k).0

unfoldable pub run_calls : List Call → KnownClients → KnownClients
unfolding run_call
run_calls [] k = k
run_calls (c ∷ cs) k = run_calls cs (run_call c k)

abbrev pub is_allowed : Option ClientStatus → Bool
is_allowed none = false
is_allowed (some pending) = false
is_allowed (some allowed) = true
is_allowed (some rejected) = false

-- The call approves this client.
abbrev pub approves : Text → Call → Bool
approves fp (connect_call node_id fingerprint addr now) = false
approves fp (status_call fingerprint st) = if fp == fingerprint then is_allowed (some st) else false
approves fp (label_call fingerprint label) = false
approves fp (remove_call fingerprint) = false

run_call-auto_approve : (c : Call) (k : KnownClients) → (run_call c k).auto_approve ≡ k.auto_approve
unfolding run_call upsert_pending set_status set_label change remove
run_call-auto_approve (connect_call node_id fingerprint addr now) k = ground arith
run_call-auto_approve (status_call fingerprint st) k = ground arith
run_call-auto_approve (label_call fingerprint label) k = ground arith
run_call-auto_approve (remove_call fingerprint) k = ground arith

run_call-is_allowed :
    (c : Call) (k : KnownClients) (fp : Text)
    → k.auto_approve ≡ false
    → approves fp c ≡ false
    → is_allowed (status k fp) ≡ false
    → is_allowed (status (run_call c k) fp) ≡ false
unfolding run_call
run_call-is_allowed (connect_call node_id fingerprint addr now) k fp a n h =
    ground (arith, status-upsert_pending node_id fingerprint addr now k fp, a, h)
run_call-is_allowed (status_call fingerprint st) k fp a n h =
    ground (arith, status-set_status fingerprint st k fp, n, h)
run_call-is_allowed (label_call fingerprint label) k fp a n h =
    ground (arith, status-set_label fingerprint label k fp, h)
run_call-is_allowed (remove_call fingerprint) k fp a n h =
    ground (arith, status-remove fingerprint k fp, h)

-- On a server that does not approve automatically, a client that is not allowed stays so through
-- any connections, labels, removals and changes of status, in any order, as long as none of them
-- sets the status of this very fingerprint to allowed.
pub run_calls-is_allowed :
    (cs : List Call) (k : KnownClients) (fp : Text)
    → k.auto_approve ≡ false
    → All (λ c. approves fp c ≡ false) cs
    → is_allowed (status k fp) ≡ false
    → is_allowed (status (run_calls cs k) fp) ≡ false
unfolding run_calls
run_calls-is_allowed [] k fp a ns h = h
run_calls-is_allowed (c ∷ cs) k fp a (n, ns) h =
    run_calls-is_allowed cs (run_call c k) fp (ground (arith, run_call-auto_approve c k, a)) ns
      (run_call-is_allowed c k fp a n h)
