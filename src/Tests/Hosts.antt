-- ===== src/Tests/Hosts.antt =====
-- Known hosts and the manifest cache at concrete inputs.
use byte_hive.Base.{true, false, none, some, List, [], ◌∷◌, codes, ◌≡◌, ◌↔◌, refl}
use byte_hive.Base.{◌≤◌, arith, any, length, reverse, nat_eq, list_eq}
use byte_hive.Base.Dict.{Dict}
use byte_hive.Base.Paths.{FilePath, normal, component_eq}
use byte_hive.KnownHosts.{
  KnownClients, KnownServers, rejected, allowed, status, is_unsafe_label_char, max_label_chars,
  validate_label, ok, get_fingerprint, pin, remove_server, trim, trim_start,
}
use byte_hive.KnownHosts.Approval.{
  Call, connect_call, status_call, remove_call, run_calls, is_allowed, run_calls-is_allowed,
}
use byte_hive.KnownHosts.Labels.{edge, validate_label_lem}
use byte_hive.KnownHosts.Pins.{get_fingerprint_lem}
use byte_hive.ManifestCache.{CachedEntry, CacheFile, lookup, upsert, new, save_atomic}
use byte_hive.ManifestCache.Trust.{IsTrusted, lookup-upsert-IsTrusted}
use byte_hive.ManifestCache.Current.{
  Change, upsert_change, prune_change, apply_changes, save_atomic-load,
}

abbrev nobody : KnownClients
nobody = record { clients = []; auto_approve = false; saved = none }

abbrev calls : List Call
calls =
    connect_call (codes "n") (codes "f") (codes "a") 5
    ∷ status_call (codes "f") rejected
    ∷ status_call (codes "g") allowed
    ∷ remove_call (codes "f")
    ∷ connect_call (codes "n") (codes "f") (codes "a") 9
    ∷ []

run_calls-is_allowed_example : is_allowed (status (run_calls calls nobody) (codes "f")) ≡ false
unfolding list_eq nat_eq status
run_calls-is_allowed_example =
    run_calls-is_allowed calls nobody (codes "f") refl (refl, (refl, (refl, (refl, (refl, tt)))))
      refl

validate_label_lem_run :
    (any is_unsafe_label_char (codes "Al b") ≡ false)
    × (length (codes "Al b") ≤ max_label_chars)
    × (edge (codes "Al b") ≡ false)
    × (edge (reverse (codes "Al b")) ≡ false)
    × (validate_label (codes "Al b") ≡ ok (codes "Al b"))
unfolding validate_label trim trim_start is_unsafe_label_char nat_eq
validate_label_lem_run = validate_label_lem (codes " Al b  ") (codes "Al b") refl

abbrev no_servers : KnownServers
no_servers = record { servers = []; saved_servers = none }

get_fingerprint_lem_run :
    (get_fingerprint (pin (codes "a") (codes "f") 3 no_servers) (codes "a") ≡ some (codes "f"))
    × (get_fingerprint (remove_server (codes "a") no_servers).0 (codes "a") ≡ none)
unfolding list_eq nat_eq
get_fingerprint_lem_run = get_fingerprint_lem (codes "a") (codes "f") 3 no_servers (codes "a")

abbrev cached_path : FilePath
cached_path = normal (102 ∷ []) ∷ []

abbrev cached : CachedEntry
cached = record { size = 3; mtime_s = 10; mtime_ns = 0; inode = 4; hash = codes "ab" }

lookup-upsert-IsTrusted_example :
    (lookup (upsert cached_path cached new) cached_path 3 10 0 4 16000 ≡ some (codes "ab"))
    ↔ IsTrusted cached 3 10 0 4 16000
lookup-upsert-IsTrusted_example = lookup-upsert-IsTrusted cached_path cached new 3 10 0 4 16000

abbrev memory_file : CacheFile
memory_file = record {
  World = Dict FilePath CachedEntry;
  load = λ w. some (some w);
  back_up = λ w. w;
  save = λ entries w. (entries, true);
}

abbrev changes : List Change
changes = upsert_change cached_path cached ∷ prune_change (cached_path ∷ []) ∷ []

changes_saved : (save_atomic memory_file (apply_changes changes new) []).1 ≡ true
unfolding save_atomic
changes_saved = ground arith

save_atomic-load_example :
    memory_file.load (save_atomic memory_file (apply_changes changes new) []).0.1
    ≡ some (some (apply_changes changes new).entries)
save_atomic-load_example =
    save_atomic-load memory_file changes new [] (λ entries w saved. refl) refl changes_saved
