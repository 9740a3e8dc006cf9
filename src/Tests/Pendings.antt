-- ===== src/Tests/Pendings.antt =====
-- Pending changes at concrete inputs: `docs/a` is written and renamed.
use byte_hive.Base.{false, [], ◌∷◌, refl, list_eq, nat_eq}
use byte_hive.Base.Paths.{component_eq}
use byte_hive.Pending.{renamed, write_complete, new}
use byte_hive.Pending.Last.{
  IsAt, nowhere, is_in_changes, is_in_ready, is_in_deletes, collect_events, place_after,
  collect_events-IsAt,
}
use byte_hive.Tests.Data.{docs, file, disk, engine}

new-IsAt : IsAt (new 0) file nowhere
unfolding new is_in_changes is_in_ready is_in_deletes
new-IsAt = record { changes_eq = refl; ready_eq = refl; deletes_eq = refl }

collect_events-IsAt_example :
    IsAt
      (collect_events disk
        (λ p. false)
        ((engine, write_complete file) ∷ (engine, renamed file docs) ∷ [])
        (new 0))
      file
      (place_after disk
        (λ p. false)
        ((engine, write_complete file) ∷ (engine, renamed file docs) ∷ [])
        file
        nowhere)
collect_events-IsAt_example =
    collect_events-IsAt disk (λ p. false)
      ((engine, write_complete file) ∷ (engine, renamed file docs) ∷ []) (new 0) file nowhere
      new-IsAt
