-- ===== src/Manifest/SendList.antt =====
-- `compute_send_list` and `diff_manifests` of manifest.rs.
use byte_hive.Base.{◌<◌, ◌↔◌, ltb, Bool-cases, Option-cases, inl, inr, sym, ◌∙◌}
use byte_hive.Base.{◌≡◌, ◌≢◌, refl, Bool, true, false, not, Option, none, some, List, [], ◌∷◌}
use byte_hive.Base.{arith, contains, ◌==◌, ◌&&◌, nat_eq, list_eq, is_some}
use byte_hive.Base.Dict
use byte_hive.Base.Dict.{Dict, NodupKeys}
use byte_hive.Base.Paths.{FilePath, component_eq}
use byte_hive.Protocol.{FileMetadata, Manifest}
use byte_hive.Manifest.{
  sends, send_loop, compute_send_list, changed_loop, deleted_loop, diff_manifests,
}

-- Is a path sent, given what the two sides hold at it?
abbrev pub sent_at : Bool → Option FileMetadata → Option FileMetadata → Bool
sent_at is_server none remote = false
sent_at is_server (some lm) remote = sends is_server lm remote

send_loop_absent :
    (files remote : Dict FilePath FileMetadata) (is_server : Bool) (p : FilePath)
    → Dict.lookup p files ≡ none
    → contains (send_loop files remote is_server) p ≡ false
unfolding send_loop
send_loop_absent [] remote is_server p h = refl
send_loop_absent ((q, lm) ∷ files) remote is_server p h =
    ground (arith, Dict.lookup-cons p q lm files, send_loop_absent files remote is_server p)

contains-send_loop :
    (files remote : Dict FilePath FileMetadata) (is_server : Bool) (p : FilePath)
    → NodupKeys files
    → contains (send_loop files remote is_server) p
      ≡ sent_at is_server (Dict.lookup p files) (Dict.lookup p remote)
unfolding send_loop
contains-send_loop [] remote is_server p _ = rw Dict.lookup-nil
contains-send_loop ((q, lm) ∷ files) remote is_server p (fresh, u) = ground (
  arith,
  Dict.lookup-cons p q lm files,
  contains-send_loop files remote is_server p u,
  send_loop_absent files remote is_server p,
)

pub contains-compute_send_list :
    (local remote : Manifest) (is_server : Bool) (p : FilePath)
    → NodupKeys local.files
    → contains (compute_send_list local remote is_server) p
      ≡ sent_at is_server (Dict.lookup p local.files) (Dict.lookup p remote.files)
unfolding compute_send_list
contains-compute_send_list local remote is_server p u =
    contains-send_loop local.files remote.files is_server p u

-- Why a path is sent.
pub data Wanted (local remote : Manifest) (is_server : Bool) (p : FilePath) : Type 0 where
  lacking :
      (lm : FileMetadata)
      → Dict.lookup p local.files ≡ some lm
      → Dict.lookup p remote.files ≡ none
      → Wanted local remote is_server p
  newer_here :
      (lm rm : FileMetadata)
      → Dict.lookup p local.files ≡ some lm
      → Dict.lookup p remote.files ≡ some rm
      → lm.hash ≢ rm.hash
      → rm.modified_ms < lm.modified_ms
      → Wanted local remote is_server p
  server_wins :
      (lm rm : FileMetadata)
      → Dict.lookup p local.files ≡ some lm
      → Dict.lookup p remote.files ≡ some rm
      → lm.hash ≢ rm.hash
      → lm.modified_ms ≡ rm.modified_ms
      → is_server ≡ true
      → Wanted local remote is_server p

sent_at-Wanted :
    (local remote : Manifest) (is_server : Bool) (p : FilePath)
    → sent_at is_server (Dict.lookup p local.files) (Dict.lookup p remote.files) ≡ true
    → Wanted local remote is_server p
unfolding sends
sent_at-Wanted local remote is_server p h = elim (Option-cases (Dict.lookup p local.files)) [
  | inl e ↦ absurd (ground (arith, h, e))
  | inr (lm, here) ↦ elim (Option-cases (Dict.lookup p remote.files)) [
    | inl e ↦ lacking lm here e
    | inr (rm, there) ↦ elim (Bool-cases (ltb rm.modified_ms lm.modified_ms)) [
      | inl newer ↦
          newer_here lm rm here there (ground (arith, h, here, there)) (ground (arith, newer))
      | inr old ↦
          server_wins lm rm here there (ground (arith, h, here, there))
            (ground (arith, h, here, there, old)) (ground (arith, h, here, there, old))
    ]
  ]
]

Wanted-sent_at :
    (local remote : Manifest) (is_server : Bool) (p : FilePath)
    → Wanted local remote is_server p
    → sent_at is_server (Dict.lookup p local.files) (Dict.lookup p remote.files) ≡ true
unfolding sends
Wanted-sent_at local remote is_server p (lacking lm here there) = ground (arith, here, there)
Wanted-sent_at local remote is_server p (newer_here lm rm here there differ newer) =
    ground (arith, here, there, differ, newer)
Wanted-sent_at local remote is_server p (server_wins lm rm here there differ same server) =
    ground (arith, here, there, differ, same, server)

-- A path is on the send list exactly if the local side holds a file there that the remote side
-- lacks, or whose content differs and that is newer than the remote one, or whose content differs and
-- that is equally old while the local side is the server. The local side lists a path once.
pub compute_send_list-Wanted :
    (local remote : Manifest) (is_server : Bool) (p : FilePath)
    → NodupKeys local.files
    → (contains (compute_send_list local remote is_server) p ≡ true)
      ↔ Wanted local remote is_server p
compute_send_list-Wanted local remote is_server p u =
    let law = contains-compute_send_list local remote is_server p u in
    (
      λ h. sent_at-Wanted local remote is_server p (sym law ∙ h),
      λ w. law ∙ Wanted-sent_at local remote is_server p w,
    )

sends_one_way :
    (a b : FileMetadata) → a.hash ≢ b.hash → sends true a (some b) ≡ not (sends false b (some a))
unfolding sends
sends_one_way a b h = ground arith

sends_same :
    (is_server : Bool) (a b : FileMetadata) → a.hash ≡ b.hash → sends is_server a (some b) ≡ false
unfolding sends
sends_same is_server a b h = ground arith

-- Where server and client both hold a path with different contents, exactly one of them sends it;
-- where the contents are the same, neither does.
pub one_side_sends :
    (server client : Manifest) (p : FilePath) (a b : FileMetadata)
    → NodupKeys server.files
    → NodupKeys client.files
    → Dict.lookup p server.files ≡ some a
    → Dict.lookup p client.files ≡ some b
    → (a.hash ≢ b.hash
        → contains (compute_send_list server client true) p
          ≡ not (contains (compute_send_list client server false) p))
      × (a.hash ≡ b.hash
          → (contains (compute_send_list server client true) p ≡ false)
            × (contains (compute_send_list client server false) p ≡ false))
one_side_sends server client p a b u v ha hb =
    let up = contains-compute_send_list server client true p u in
    let down = contains-compute_send_list client server false p v in
    (
      λ differ. ground (arith, up, down, sends_one_way a b differ),
      λ same. (
        ground (arith, up, sends_same true a b same),
        ground (arith, down, sends_same false b a (cc)),
      ),
    )

abbrev pub changed_at : Option FileMetadata → Option FileMetadata → Bool
changed_at old none = false
changed_at none (some n) = true
changed_at (some o) (some n) = not (o.hash == n.hash)

changed_loop_absent :
    (old new : Dict FilePath FileMetadata) (p : FilePath)
    → Dict.lookup p new ≡ none
    → contains (changed_loop old new) p ≡ false
unfolding changed_loop
changed_loop_absent old [] p h = refl
changed_loop_absent old ((q, m) ∷ new) p h =
    ground (arith, Dict.lookup-cons p q m new, changed_loop_absent old new p)

contains-changed_loop :
    (old new : Dict FilePath FileMetadata) (p : FilePath)
    → NodupKeys new
    → contains (changed_loop old new) p ≡ changed_at (Dict.lookup p old) (Dict.lookup p new)
unfolding changed_loop
contains-changed_loop old [] p _ = rw Dict.lookup-nil (ground arith)
contains-changed_loop old ((q, m) ∷ new) p (fresh, u) = ground (
  arith,
  Dict.lookup-cons p q m new,
  contains-changed_loop old new p u,
  changed_loop_absent old new p,
)

contains-deleted_loop :
    (paths : List FilePath) (new : Dict FilePath FileMetadata) (p : FilePath)
    → contains (deleted_loop paths new) p ≡ (contains paths p && not (is_some (Dict.lookup p new)))
unfolding deleted_loop
contains-deleted_loop [] new p = refl
contains-deleted_loop (q ∷ paths) new p = ground (arith, contains-deleted_loop paths new p)

-- `diff_manifests` lists as changed exactly the paths of the new manifest that the old one lacks or
-- holds with another hash, and as deleted exactly the paths of the old one that the new one lacks.
pub diff_manifests_lem :
    (old new : Manifest) (p : FilePath)
    → NodupKeys new.files
    → (contains (diff_manifests old new).0 p
        ≡ changed_at (Dict.lookup p old.files) (Dict.lookup p new.files))
      × (contains (diff_manifests old new).1 p
          ≡ (is_some (Dict.lookup p old.files) && not (is_some (Dict.lookup p new.files))))
unfolding diff_manifests
diff_manifests_lem old new p u = (
  contains-changed_loop old.files new.files p u,
  ground (
    arith,
    contains-deleted_loop (Dict.keys old.files) new.files p,
    Dict.contains-keys old.files p,
  ),
)
