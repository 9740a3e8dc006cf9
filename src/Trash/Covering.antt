-- ===== src/Trash/Covering.antt =====
-- `clear_ledger_covering` of crates/core/src/trash.rs.
use byte_hive.Base.{
  sym, ◌<◌, ℕ, Bool, ◌||◌, Option, none, some, List, [], ◌∷◌, ◌++◌, Text, codes, any, is_some,
}
use byte_hive.Base.{
  if◌then◌else◌, ◌==◌, list_eq, nat_eq, not, select, length, ◌≡◌, refl, arith, contains, ◌&&◌, true,
  false, inl, inr, Bool-cases, ap, ◌∙◌,
}
use byte_hive.Base.Dict
use byte_hive.Base.Dict.{Dict}
use byte_hive.Base.Paths.{FilePath, normal, component_eq, strip_prefix}
use byte_hive.Trash.{TrashFs, LedgerJson, wrapped, bare, other}

unfoldable pub ledger_file_path : FilePath → FilePath
ledger_file_path root =
    root ++ normal (codes ".bh_filesync") ∷ normal (codes "deletion-ledger.json") ∷ []

unfoldable pub ledger_tmp_path : FilePath → FilePath
ledger_tmp_path root =
    root ++ normal (codes ".bh_filesync") ∷ normal (codes "deletion-ledger.json.tmp") ∷ []

unfoldable pub entries_of : {V : Type 0} → LedgerJson V → Dict Text V
entries_of (wrapped d) = d
entries_of (bare d) = d
entries_of other = []

unfoldable pub with_entries : {V : Type 0} → Dict Text V → LedgerJson V → LedgerJson V
with_entries d (wrapped _) = wrapped d
with_entries d (bare _) = bare d
with_entries d other = other

unfoldable pub erase_all : {V : Type 0} → List Text → Dict Text V → Dict Text V
erase_all [] d = d
erase_all (k ∷ ks) d = erase_all ks (Dict.erase k d)

module _ (F : TrashFs) where
  open F use {World}

  unfoldable pub is_covered : List FilePath → Text → Bool
  is_covered prefixes k =
      any (λ p. F.path_of k == p || is_some (strip_prefix (F.path_of k) p)) prefixes

  persist : FilePath → ℕ → Option Text → World → World × ℕ
  persist root count none w = (w, 0)
  persist root count (some json) w =
      let tmp = ledger_tmp_path root in
      let (w', written) = F.write tmp json w in
      let (w'', renamed) = F.rename tmp (ledger_file_path root) w' in
      if not written then (w', 0) else if renamed then (w'', count) else (F.remove_file tmp w'', 0)

  unfoldable pub doomed : List FilePath → LedgerJson F.Value → List Text
  doomed prefixes v = select (is_covered prefixes) (Dict.keys (entries_of v))

  clear_doomed : FilePath → List Text → LedgerJson F.Value → World → World × ℕ
  unfolding persist
  clear_doomed root [] v w = (w, 0)
  clear_doomed root (k ∷ ks) v w =
      persist root (length (k ∷ ks))
        (F.print_ledger (with_entries (erase_all (k ∷ ks) (entries_of v)) v)) w

  clear_parsed : FilePath → List FilePath → Option (LedgerJson F.Value) → World → World × ℕ
  unfolding clear_doomed
  clear_parsed root prefixes none w = (w, 0)
  clear_parsed root prefixes (some v) w = clear_doomed root (doomed prefixes v) v w

  clear_read : FilePath → List FilePath → Option Text → World → World × ℕ
  unfolding clear_parsed
  clear_read root prefixes none w = (w, 0)
  clear_read root prefixes (some raw) w = clear_parsed root prefixes (F.parse_ledger raw) w

  unfoldable pub clear_ledger_covering : FilePath → List FilePath → World → World × ℕ
  unfolding clear_read ledger_file_path ledger_tmp_path
  clear_ledger_covering root [] w = (w, 0)
  clear_ledger_covering root (p ∷ ps) w =
      clear_read root (p ∷ ps) (F.read_to_string w (ledger_file_path root)) w

  lookup-erase_all :
      {V : Type 0} (j : Text) (ks : List Text) (d : Dict Text V)
      → Dict.lookup j (erase_all ks d) ≡ (if contains ks j then none else Dict.lookup j d)
  unfolding erase_all
  lookup-erase_all j [] d = refl
  lookup-erase_all j (k ∷ ks) d =
      ground (arith, lookup-erase_all j ks (Dict.erase k d), Dict.lookup-erase j k d)

  contains-select :
      (p : Text → Bool) (ks : List Text) (k : Text)
      → contains (select p ks) k ≡ p k && contains ks k
  contains-select p [] k = ground arith
  contains-select p (j ∷ ks) k = ground (arith, contains-select p ks k)

  not_a_key :
      {V : Type 0} (j : Text) (d : Dict Text V)
      → contains (Dict.keys d) j ≡ false
      → Dict.lookup j d ≡ none
  unfolding Dict.keys Dict.lookup
  not_a_key j [] h = refl
  not_a_key j ((k, v) ∷ d) h = ground (arith, not_a_key j d)

  lookup-erase_doomed :
      {V : Type 0} (prefixes : List FilePath) (d : Dict Text V) (j : Text)
      → Dict.lookup j (erase_all (select (is_covered prefixes) (Dict.keys d)) d)
        ≡ (if is_covered prefixes j then none else Dict.lookup j d)
  lookup-erase_doomed prefixes d j = ground (
    arith,
    lookup-erase_all j (select (is_covered prefixes) (Dict.keys d)) d,
    contains-select (is_covered prefixes) (Dict.keys d) j,
    not_a_key j d,
  )

  -- What is left of the ledger: the entries that no prefix covers.
  pub record IsLeft (prefixes : List FilePath) (ledger : LedgerJson F.Value)
      (left : Dict Text F.Value) : Type 0 where
    pub looked_up :
        (k : Text)
        → Dict.lookup k left
          ≡ (if is_covered prefixes k then none else Dict.lookup k (entries_of ledger))

  -- What the ledger's file holds, and what is to be left of it.
  pub record IsPlanned (root : FilePath) (prefixes : List FilePath) (w : World)
      (printed_as : Option Text) : Type 0 where
    pub raw : Text
    pub ledger : LedgerJson F.Value
    pub read : F.read_to_string w (ledger_file_path root) ≡ some raw
    pub parsed : F.parse_ledger raw ≡ some ledger
    pub left : Dict Text F.Value
    pub is_left : IsLeft prefixes ledger left
    pub printed : F.print_ledger (with_entries left ledger) ≡ printed_as

  -- Why nothing is cleared: the file cannot be read or parsed, it has no entry that a prefix covers, or
  -- what is left cannot be printed, written, or moved to its place.
  pub data Reason (root : FilePath) (prefixes : List FilePath) (w : World) : Type 0 where
    unread : F.read_to_string w (ledger_file_path root) ≡ none → Reason root prefixes w
    unparsed :
        (raw : Text)
        → F.read_to_string w (ledger_file_path root) ≡ some raw
        → F.parse_ledger raw ≡ none
        → Reason root prefixes w
    none_covered :
        (raw : Text) (ledger : LedgerJson F.Value)
        → F.read_to_string w (ledger_file_path root) ≡ some raw
        → F.parse_ledger raw ≡ some ledger
        → select (is_covered prefixes) (Dict.keys (entries_of ledger)) ≡ []
        → Reason root prefixes w
    no_prefix : prefixes ≡ [] → Reason root prefixes w
    unprinted : IsPlanned root prefixes w none → Reason root prefixes w
    unwritten :
        (json : Text)
        → IsPlanned root prefixes w (some json)
        → (F.write (ledger_tmp_path root) json w).1 ≡ false
        → Reason root prefixes w
    unmoved :
        (json : Text)
        → IsPlanned root prefixes w (some json)
        → (F.rename
            (ledger_tmp_path root)
            (ledger_file_path root)
            (F.write (ledger_tmp_path root) json w).0).1
          ≡ false
        → Reason root prefixes w

  -- The ledger's file now holds the ledger without the `count` entries that the prefixes cover, of which
  -- there is one at least.
  pub record IsCleared (root : FilePath) (prefixes : List FilePath) (w w' : World) (count : ℕ)
      : Type 0 where
    pub json : Text
    pub plan : IsPlanned root prefixes w (some json)
    pub count_eq :
        count
        ≡ length (select (is_covered prefixes) (Dict.keys (entries_of (IsPlanned.ledger plan))))
    pub positive : 0 < count
    pub holds : F.read_to_string w' (ledger_file_path root) ≡ some json

  -- What is relied on of the file system: calls on the temporary file leave the ledger's file alone, a
  -- rename that fails does too, and one that succeeds puts there what was written.
  pub record LedgerLaws (root : FilePath) : Type 0 where
    pub write_keeps :
        (json : Text) (w : World)
        → F.read_to_string (F.write (ledger_tmp_path root) json w).0 (ledger_file_path root)
          ≡ F.read_to_string w (ledger_file_path root)
    pub write_reads :
        (json : Text) (w : World)
        → (F.write (ledger_tmp_path root) json w).1 ≡ true
        → F.read_to_string (F.write (ledger_tmp_path root) json w).0 (ledger_tmp_path root)
          ≡ some json
    pub rename_fails :
        (w : World)
        → (F.rename (ledger_tmp_path root) (ledger_file_path root) w).1 ≡ false
        → F.read_to_string
            (F.rename (ledger_tmp_path root) (ledger_file_path root) w).0
            (ledger_file_path root)
          ≡ F.read_to_string w (ledger_file_path root)
    pub rename_moves :
        (w : World)
        → (F.rename (ledger_tmp_path root) (ledger_file_path root) w).1 ≡ true
        → F.read_to_string
            (F.rename (ledger_tmp_path root) (ledger_file_path root) w).0
            (ledger_file_path root)
          ≡ F.read_to_string w (ledger_tmp_path root)
    pub remove_keeps :
        (w : World)
        → F.read_to_string (F.remove_file (ledger_tmp_path root) w) (ledger_file_path root)
          ≡ F.read_to_string w (ledger_file_path root)

  -- Nothing was cleared, for a reason, and the ledger's file is as it was; or it was cleared.
  pub data Outcome (root : FilePath) (prefixes : List FilePath) (w : World)
      : World × ℕ → Type 0 where
    unchanged :
        (w' : World)
        → Reason root prefixes w
        → F.read_to_string w' (ledger_file_path root) ≡ F.read_to_string w (ledger_file_path root)
        → Outcome root prefixes w (w', 0)
    cleared :
        (w' : World) (count : ℕ)
        → IsCleared root prefixes w w' count
        → Outcome root prefixes w (w', count)

  module _ (root : FilePath) (laws : LedgerLaws root) (prefixes : List FilePath) where
    planned :
        (raw : Text) (v : LedgerJson F.Value) (w : World) (left : Dict Text F.Value)
        → F.read_to_string w (ledger_file_path root) ≡ some raw
        → F.parse_ledger raw ≡ some v
        → IsLeft prefixes v left
        → (json : Option Text) → F.print_ledger (with_entries left v) ≡ json
        → IsPlanned root prefixes w json
    planned raw v w left r p l json j = record {
      raw = raw;
      ledger = v;
      read = r;
      parsed = p;
      left = left;
      is_left = l;
      printed = j;
    }

    persist-Outcome :
        (raw : Text) (v : LedgerJson F.Value) (w : World) (left : Dict Text F.Value) (count : ℕ)
        → F.read_to_string w (ledger_file_path root) ≡ some raw
        → F.parse_ledger raw ≡ some v
        → count ≡ length (select (is_covered prefixes) (Dict.keys (entries_of v)))
        → 0 < count
        → IsLeft prefixes v left
        → (json : Option Text) → F.print_ledger (with_entries left v) ≡ json
        → Outcome root prefixes w (persist root count json w)
    unfolding persist planned
    persist-Outcome raw v w left count r p c pos l none j =
        unchanged w (unprinted (planned raw v w left r p l none j)) refl
    persist-Outcome raw v w left count r p c pos l (some json) j =
        let tmp = ledger_tmp_path root in
        let wrote = F.write tmp json w in
        let move = F.rename tmp (ledger_file_path root) wrote.0 in
        elim (Bool-cases wrote.1) [
          | inr cut ↦ rw cut (
              unchanged wrote.0 (unwritten json (planned raw v w left r p l (some json) j) cut)
                (laws.write_keeps json w))
          | inl written ↦ elim (Bool-cases move.1) [
            | inr stuck ↦
                rw (written, stuck)
                  (unchanged (F.remove_file tmp move.0)
                    (unmoved json (planned raw v w left r p l (some json) j) stuck)
                    (laws.remove_keeps move.0
                      ∙ laws.rename_fails wrote.0 stuck
                      ∙ laws.write_keeps json w))
            | inl moved ↦
                rw (written, moved)
                  (cleared move.0 count (record {
                    json = json;
                    plan = planned raw v w left r p l (some json) j;
                    count_eq = c;
                    positive = pos;
                    holds = laws.rename_moves wrote.0 moved ∙ laws.write_reads json w written;
                  }))
          ]
        ]

    clear_doomed-Outcome :
        (raw : Text) (v : LedgerJson F.Value) (w : World) (ks : List Text)
        → F.read_to_string w (ledger_file_path root) ≡ some raw
        → F.parse_ledger raw ≡ some v
        → ks ≡ doomed prefixes v
        → Outcome root prefixes w (clear_doomed root ks v w)
    unfolding clear_doomed doomed
    clear_doomed-Outcome raw v w [] r p e = unchanged w (none_covered raw v r p (sym e)) refl
    clear_doomed-Outcome raw v w (k ∷ ks) r p e =
        let left = erase_all (k ∷ ks) (entries_of v) in
        persist-Outcome raw v w left (length (k ∷ ks)) r p (ap length e) (omega arith)
          (record {
            looked_up = λ j.
                ap (λ l. Dict.lookup j (erase_all l (entries_of v))) e
                ∙ lookup-erase_doomed prefixes (entries_of v) j;
          })
          (F.print_ledger (with_entries left v)) refl

    clear_parsed-Outcome :
        (raw : Text) (v : Option (LedgerJson F.Value)) (w : World)
        → F.read_to_string w (ledger_file_path root) ≡ some raw
        → F.parse_ledger raw ≡ v
        → Outcome root prefixes w (clear_parsed root prefixes v w)
    unfolding clear_parsed
    clear_parsed-Outcome raw none w r p = unchanged w (unparsed raw r p) refl
    clear_parsed-Outcome raw (some v) w r p =
        clear_doomed-Outcome raw v w (doomed prefixes v) r p refl

    clear_read-Outcome :
        (raw : Option Text) (w : World)
        → F.read_to_string w (ledger_file_path root) ≡ raw
        → Outcome root prefixes w (clear_read root prefixes raw w)
    unfolding clear_read
    clear_read-Outcome none w r = unchanged w (unread r) refl
    clear_read-Outcome (some raw) w r = clear_parsed-Outcome raw (F.parse_ledger raw) w r refl

  -- `clear_ledger_covering` either clears the ledger's file: it then holds the same ledger without the
  -- entries that a prefix covers, one at least, and their number is returned. Or it returns 0 and the
  -- file is as it was, for one of these reasons: no prefix is given, the file cannot be read or
  -- parsed, a prefix covers no entry, or the new ledger cannot be printed, written or moved there.
  -- Calls on the temporary file leave the ledger's file alone, and a rename moves all or nothing.
  pub clear_ledger_covering-Outcome :
      (root : FilePath) (prefixes : List FilePath) (w : World)
      → LedgerLaws root
      → Outcome root prefixes w (clear_ledger_covering root prefixes w)
  unfolding clear_ledger_covering
  clear_ledger_covering-Outcome root [] w laws = unchanged w (no_prefix refl) refl
  clear_ledger_covering-Outcome root (p ∷ ps) w laws =
      clear_read-Outcome root laws (p ∷ ps) (F.read_to_string w (ledger_file_path root)) w refl
