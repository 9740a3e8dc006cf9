-- ===== src/ActionJournal/Disk.antt =====
-- The file operations of action_journal.rs: appending, acknowledging, compaction, and replay on
-- opening. The file system and serde_json are the parameter `JournalFile`: a read gives the records
-- of the file line by line, `none` for a line that does not parse, and whether the tail is torn.
use byte_hive.Base.{ℕ, ◌+◌, Bool, true, false, ◌||◌, not, Option, none, some, List, [], ◌∷◌}
use byte_hive.Base.{◌++◌, if◌then◌else◌, any, leb, ltb, length, map, nat_eq, list_eq}
use byte_hive.Base.Dict
use byte_hive.Base.Dict.{Dict}
use byte_hive.Base.Paths.{FilePath}
use byte_hive.ActionJournal.{
  JournalEntry, JournalOp, upsert_op, delete_op, rename_op, State, Line, ack_line, to_line, exact,
  apply, apply_line, ack_local, is_upsert, empty,
}

abbrev pub compact_min_lines : ℕ
compact_min_lines = 4096

pub record JournalFile : Type 1 where
  pub World : Type 0
  -- `none` where the file cannot be read
  pub read : World → Option (List (Option Line) × Bool)
  -- a synced append, and the atomic replacement of the whole file
  pub append_line : Line → World → World × Bool
  pub replace : List Line → World → World × Bool
  pub back_up : World → World

pub record Journal (W : Type 0) : Type 0 where
  pub state : State
  pub lines_on_disk : ℕ
  pub world : W

-- The records of the live state, as `write_compacted` writes them.
unfoldable pub compacted_lines : State → List Line
compacted_lines st =
    (if ltb 0 st.acked then ack_line st.acked ∷ [] else []) ++ map to_line (Dict.values st.entries)

-- One line of the file on opening: the state, and whether a line was damaged.
unfoldable pub replay_line : Option Line → State × Bool → State × Bool
unfolding apply_line
replay_line none (st, damaged) = (st, true)
replay_line (some l) (st, damaged) =
    let (st', understood) = apply_line l st in (st', not understood || damaged)

unfoldable pub replay : List (Option Line) → State × Bool → State × Bool
unfolding replay_line
replay [] r = r
replay (l ∷ ls) r = replay ls (replay_line l r)

module _ (F : JournalFile) where
  open F use {World}

  -- `append_line`: on success one more line is on disk
  unfoldable pub append_record : Line → Journal World → Journal World × Bool
  append_record line j =
      let (w, saved) = F.append_line line j.world in
      if saved
      then (record j { lines_on_disk = j.lines_on_disk + 1; world = w }, true)
      else (record j { world = w }, false)

  unfoldable pub write_compacted : Journal World → Journal World × Bool
  unfolding compacted_lines
  write_compacted j =
      let lines = compacted_lines j.state in
      let (w, saved) = F.replace lines j.world in
      if saved
      then (record j { lines_on_disk = length lines; world = w }, true)
      else (record j { world = w }, false)

  unfoldable pub maybe_compact : Journal World → Journal World
  unfolding write_compacted
  maybe_compact j = if leb compact_min_lines j.lines_on_disk then (write_compacted j).0 else j

  -- An entry under the next number, in the file and then in the state.
  unfoldable pub log_entry : JournalOp → FilePath → ℕ → Journal World → Journal World × Bool
  unfolding append_record apply
  log_entry op path action_ms j =
      let entry : JournalEntry = record {
        seq = j.state.next_seq;
        op = op;
        path = path;
        action_ms = action_ms;
      } in
      let (j', saved) = append_record (to_line entry) j in
      if saved then (record j' { state = apply entry j'.state }, true) else (j', false)

  -- The end of a call that returns `Ok` after `maybe_compact`.
  abbrev pub finish : Journal World × Bool → Journal World × Bool
  finish (j, true) = (maybe_compact j, true)
  finish (j, false) = (j, false)

  unfoldable pub append : JournalOp → FilePath → ℕ → Journal World → Journal World × Bool
  unfolding log_entry maybe_compact
  append op path action_ms j = finish (log_entry op path action_ms j)

  unfoldable pub upsert : FilePath → ℕ → Journal World → Journal World × Bool
  unfolding append
  upsert path action_ms j = append upsert_op path action_ms j

  unfoldable pub delete : FilePath → ℕ → Journal World → Journal World × Bool
  unfolding append
  delete path action_ms j = append delete_op path action_ms j

  -- The content that was not sent yet, recorded at the target.
  unfoldable pub rename_content : Bool → FilePath → ℕ → Journal World × Bool → Journal World × Bool
  unfolding log_entry
  rename_content had_upsert to action_ms (j, false) = (j, false)
  rename_content false to action_ms (j, true) = (j, true)
  rename_content true to action_ms (j, true) = log_entry upsert_op to action_ms j

  unfoldable pub rename : FilePath → FilePath → ℕ → Journal World → Journal World × Bool
  unfolding log_entry rename_content maybe_compact
  rename from to action_ms j =
      let had_upsert =
        any (λ s. is_upsert (Dict.lookup s j.state.entries)) (exact j.state.by_path from) in
      finish (rename_content had_upsert to action_ms (log_entry (rename_op to) from action_ms j))

  -- The acknowledgement in the file and then in the state.
  unfoldable pub log_ack : ℕ → Journal World → Journal World × Bool
  unfolding append_record ack_local
  log_ack upto j =
      let (j', saved) = append_record (ack_line upto) j in
      if saved then (record j' { state = ack_local upto j'.state }, true) else (j', false)

  unfoldable pub ack : ℕ → Journal World → Journal World × Bool
  unfolding log_ack ack_local maybe_compact
  ack upto j =
      if leb upto j.state.acked
      then (record j { state = ack_local upto j.state }, true)
      else finish (log_ack upto j)

  unfoldable pub open_journal : World → Journal World
  unfolding replay write_compacted
  open_journal w = elim (F.read w) [
    | none ↦ record { state = empty; lines_on_disk = 0; world = w }
    | some lines ↦
        let (st, damaged) = replay lines.0 (empty, lines.1) in
        let n = length lines.0 in
        if damaged
        then (write_compacted (record { state = st; lines_on_disk = n; world = F.back_up w })).0
        else record { state = st; lines_on_disk = n; world = w }
  ]
