-- ===== src/KnownHosts/Pins.antt =====
-- The pinned servers of known_hosts.rs.
use byte_hive.Base.{ℕ, not, none, some, List, [], ◌∷◌, ◌++◌, Text, ◌≡◌}
use byte_hive.Base.{refl, arith, if◌then◌else◌, find, select, is_some, ◌==◌, nat_eq, list_eq}
use byte_hive.KnownHosts.{
  KnownServer, KnownServers, update_first, has_addr, fingerprint_of, get_fingerprint, pin,
  remove_server,
}

fingerprint-update_first :
    (at other fp : Text) (ss : List KnownServer)
    → fingerprint_of
        (find (has_addr at) (update_first (has_addr other) (λ s. record s { fingerprint = fp }) ss))
      ≡ (if at == other
          then (if is_some (find (has_addr at) ss) then some fp else none)
          else fingerprint_of (find (has_addr at) ss))
unfolding update_first
fingerprint-update_first at other fp [] = ground arith
fingerprint-update_first at other fp (s ∷ ss) =
    ground (arith, fingerprint-update_first at other fp ss)

find-append :
    (at : Text) (ss : List KnownServer) (s : KnownServer)
    → find (has_addr at) (ss ++ s ∷ []) ≡ (
        if is_some (find (has_addr at) ss)
        then find (has_addr at) ss
        else if s.addr == at
        then some s
        else none)
find-append at [] s = refl
find-append at (t ∷ ss) s = ground (arith, find-append at ss s)

find-select :
    (at other : Text) (ss : List KnownServer)
    → find (has_addr at) (select (λ s. not (s.addr == other)) ss)
      ≡ (if at == other then none else find (has_addr at) ss)
find-select at other [] = ground arith
find-select at other (s ∷ ss) = ground (arith, find-select at other ss)

-- Pinning a server replaces the fingerprint of its address, known before or not, and removing it
-- forgets that one; no other address is touched by either.
pub get_fingerprint_lem :
    (other fp : Text) (now : ℕ) (k : KnownServers) (at : Text)
    → (get_fingerprint (pin other fp now k) at
        ≡ (if at == other then some fp else get_fingerprint k at))
      × (get_fingerprint (remove_server other k).0 at
          ≡ (if at == other then none else get_fingerprint k at))
unfolding get_fingerprint pin remove_server
get_fingerprint_lem other fp now k at = (
  ground (
    arith,
    fingerprint-update_first at other fp k.servers,
    find-append at k.servers (record { addr = other; fingerprint = fp; first_seen_ms = now }),
  ),
  ground (arith, find-select at other k.servers),
)
