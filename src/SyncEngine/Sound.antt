-- ===== src/SyncEngine/Sound.antt =====
-- The invariant of the state of sync_engine.rs.
use byte_hive.Base.{ℕ, ◌≡◌, refl, Bool, true, false, Option, none, some, List, [], ◌∷◌, arith}
use byte_hive.Base.{list_eq, if◌then◌else◌}
use byte_hive.Base.Dict
use byte_hive.Base.Dict.{Dict, NodupKeys}
use byte_hive.Base.Paths.{FilePath, component_eq}
use byte_hive.Protocol.{FileMetadata}
use byte_hive.Ledger
use byte_hive.Ledger.{DeletionLedger}
use byte_hive.Ledger.Invariant
use byte_hive.Ledger.Invariant.{IsLive}
use byte_hive.SyncEngine.{
  Fs, SyncEngine, LargeFileAssembly, Io, IoResult, IoError, ok, err, ◌>>=◌, continue, pure, fail,
  state, modify, if_some,
}
use byte_hive.SyncEngine.Paths.{safe_relative}
use byte_hive.SyncEngine.Admission.{admit_record, flush_ledger, ledger_mut}
use byte_hive.SyncEngine.Actions.{
  try_op, attempt, run, suppress, schedule_unsuppress, schedule_unsuppress_deletes, manifest_insert,
}

-- Every entry of the manifest stands under its own path, which is a safe relative one.
pub record IsTidy (files : Dict FilePath FileMetadata) : Type 0 where
  pub nodup : NodupKeys files
  pub safe :
      (p : FilePath) (m : FileMetadata) → Dict.lookup p files ≡ some m → safe_relative p ≡ true
  pub keyed : (p : FilePath) (m : FileMetadata) → Dict.lookup p files ≡ some m → m.rel_path ≡ p

pub record IsSound {W : Type 0} (s : SyncEngine W) : Type 0 where
  pub live : IsLive s.ledger
  pub tidy : IsTidy s.manifest.files
  pub transfers :
      (p : FilePath) (a : LargeFileAssembly)
      → Dict.lookup p s.in_progress ≡ some a
      → safe_relative p ≡ true

-- A method keeps the invariant, whether it succeeds or fails.
pub record Keeps {W A : Type 0} (m : Io W A) : Type 0 where
  pub at : (s : SyncEngine W) → IsSound s → IsSound (m s).1

pub insert-IsTidy :
    (p : FilePath) (m : FileMetadata) (files : Dict FilePath FileMetadata)
    → safe_relative p ≡ true
    → m.rel_path ≡ p
    → IsTidy files
    → IsTidy (Dict.insert p m files)
insert-IsTidy p m files safe own h = record {
  nodup = Dict.insert-NodupKeys p m files h.nodup;
  safe = λ q n e. ground (arith, Dict.lookup-insert q p m files, h.safe q n);
  keyed = λ q n e. ground (arith, Dict.lookup-insert q p m files, h.keyed q n);
}

pub erase-IsTidy :
    (p : FilePath) (files : Dict FilePath FileMetadata) → IsTidy files → IsTidy (Dict.erase p files)
erase-IsTidy p files h = record {
  nodup = Dict.erase-NodupKeys p files h.nodup;
  safe = λ q n e. ground (arith, Dict.lookup-erase q p files, h.safe q n);
  keyed = λ q n e. ground (arith, Dict.lookup-erase q p files, h.keyed q n);
}

pub retain-IsTidy :
    (keep : FilePath → FileMetadata → Bool) (files : Dict FilePath FileMetadata)
    → IsTidy files
    → IsTidy (Dict.retain keep files)
retain-IsTidy keep files h = record {
  nodup = Dict.retain-NodupKeys keep files h.nodup;
  safe = λ q n e. ground (arith, Dict.lookup-retain keep q files h.nodup, h.safe q n);
  keyed = λ q n e. ground (arith, Dict.lookup-retain keep q files h.nodup, h.keyed q n);
}

module _ {W : Type 0} where
  pub IsSound-of :
      (s t : SyncEngine W)
      → t.ledger ≡ s.ledger
      → t.manifest ≡ s.manifest
      → t.in_progress ≡ s.in_progress
      → IsSound s
      → IsSound t
  IsSound-of s t e f g h = record {
    live = rw e h.live;
    tidy = rw f h.tidy;
    transfers = rw g h.transfers;
  }

  pub if-IsSound :
      (b : Bool) (s t : SyncEngine W) → IsSound s → IsSound t → IsSound (if b then s else t)
  if-IsSound true s t h k = h
  if-IsSound false s t h k = k

  alive-IsSound :
      (rel : FilePath) (n : ℕ) (s : SyncEngine W)
      → IsSound s
      → IsSound (ledger_mut (λ l. Ledger.record_alive l rel n) s)
  alive-IsSound rel n s h = record {
    live = Invariant.record_alive-IsLive s.ledger rel n h.live;
    tidy = h.tidy;
    transfers = h.transfers;
  }

  pub admit_record-IsSound :
      (rel : FilePath) (action : Option ℕ) (mtime : ℕ) (s : SyncEngine W)
      → IsSound s
      → IsSound (admit_record rel action mtime s)
  unfolding admit_record
  admit_record-IsSound rel (some at) mtime s h = if-IsSound _ _ _ (alive-IsSound rel at s h) h
  admit_record-IsSound rel none mtime s h = if-IsSound _ _ _ (alive-IsSound rel mtime s h) h

  pub Keeps-pure : {A : Type 0} (a : A) → Keeps {W = W} (pure a)
  unfolding pure
  Keeps-pure a = record { at = λ s h. h }

  pub Keeps-fail : {A : Type 0} (e : IoError) → Keeps {W = W} {A = A} (fail e)
  unfolding fail
  Keeps-fail e = record { at = λ s h. h }

  Keeps-continue :
      {A B : Type 0} (r : IoResult A) (f : A → Io W B)
      → ((a : A) → Keeps (f a))
      → Keeps (continue r f)
  Keeps-continue (ok a) f k = k a
  Keeps-continue (err e) f k = record { at = λ s h. h }

  pub Keeps-bind :
      {A B : Type 0} (m : Io W A) (f : A → Io W B)
      → Keeps m
      → ((a : A) → Keeps (f a))
      → Keeps (m >>= f)
  unfolding ◌>>=◌
  Keeps-bind m f km kf = record { at = λ s h. (Keeps-continue (m s).0 f kf).at (m s).1 (km.at s h) }

  -- The rest of the block may use that the state it read is sound.
  pub Keeps-state :
      {B : Type 0} (f : SyncEngine W → Io W B)
      → ((s : SyncEngine W) → IsSound s → Keeps (f s))
      → Keeps (state >>= f)
  unfolding ◌>>=◌ state
  Keeps-state f k = record { at = λ s h. (k s h).at s h }

  pub Keeps-if :
      {A : Type 0} (b : Bool) (m n : Io W A)
      → (b ≡ true → Keeps m)
      → Keeps n
      → Keeps (if b then m else n)
  Keeps-if true m n h k = h refl
  Keeps-if false m n h k = k

  pub Keeps-if_some :
      {A B : Type 0} (o : Option A) (f : A → Io W B) (m : Io W B)
      → ((a : A) → o ≡ some a → Keeps (f a))
      → Keeps m
      → Keeps (if_some o f m)
  unfolding if_some
  Keeps-if_some none f m h k = k
  Keeps-if_some (some a) f m h k = h a refl

  pub Keeps-try_op : (op : W → W × Bool) → Keeps (try_op op)
  unfolding try_op
  Keeps-try_op op = record {
    at = λ s h. record { live = h.live; tidy = h.tidy; transfers = h.transfers };
  }

  pub Keeps-attempt : (op : W → W × Bool) → Keeps (attempt op)
  unfolding attempt
  Keeps-attempt op = record {
    at = λ s h. record { live = h.live; tidy = h.tidy; transfers = h.transfers };
  }

  pub Keeps-run : (op : W → W) → Keeps (run op)
  unfolding run
  Keeps-run op = record {
    at = λ s h. record { live = h.live; tidy = h.tidy; transfers = h.transfers };
  }

  pub Keeps-modify :
      (f : SyncEngine W → SyncEngine W)
      → ((s : SyncEngine W) → IsSound s → IsSound (f s))
      → Keeps (modify f)
  unfolding modify
  Keeps-modify f h = record { at = h }

  pub suppress-IsSound : (p : FilePath) (s : SyncEngine W) → IsSound s → IsSound (suppress p s)
  suppress-IsSound p s h = record { live = h.live; tidy = h.tidy; transfers = h.transfers }

  pub schedule_unsuppress-IsSound :
      (ps : List FilePath) (s : SyncEngine W) → IsSound s → IsSound (schedule_unsuppress ps s)
  schedule_unsuppress-IsSound [] s h = h
  schedule_unsuppress-IsSound (p ∷ ps) s h = record {
    live = h.live;
    tidy = h.tidy;
    transfers = h.transfers;
  }

  pub schedule_unsuppress_deletes-IsSound :
      (ps : List FilePath) (s : SyncEngine W)
      → IsSound s
      → IsSound (schedule_unsuppress_deletes ps s)
  schedule_unsuppress_deletes-IsSound [] s h = h
  schedule_unsuppress_deletes-IsSound (p ∷ ps) s h = record {
    live = h.live;
    tidy = h.tidy;
    transfers = h.transfers;
  }

  pub manifest_insert-IsSound :
      (p : FilePath) (m : FileMetadata) (s : SyncEngine W)
      → safe_relative p ≡ true
      → m.rel_path ≡ p
      → IsSound s
      → IsSound (manifest_insert p m s)
  manifest_insert-IsSound p m s safe own h = record {
    live = h.live;
    tidy = insert-IsTidy p m s.manifest.files safe own h.tidy;
    transfers = h.transfers;
  }

module _ (F : Fs) where
  pub flush_ledger-ledger : (s : SyncEngine F.World) → (flush_ledger F s).ledger ≡ s.ledger
  unfolding flush_ledger
  flush_ledger-ledger s = ground arith

  pub flush_ledger-manifest : (s : SyncEngine F.World) → (flush_ledger F s).manifest ≡ s.manifest
  unfolding flush_ledger
  flush_ledger-manifest s = ground arith

  pub flush_ledger-in_progress :
      (s : SyncEngine F.World) → (flush_ledger F s).in_progress ≡ s.in_progress
  unfolding flush_ledger
  flush_ledger-in_progress s = ground arith

  pub flush_ledger-IsSound : (s : SyncEngine F.World) → IsSound s → IsSound (flush_ledger F s)
  flush_ledger-IsSound s =
      IsSound-of s (flush_ledger F s) (flush_ledger-ledger s) (flush_ledger-manifest s)
        (flush_ledger-in_progress s)

pub ruleset keeps_rules = (
  Keeps-pure, Keeps-fail, Keeps-bind, Keeps-if_some, Keeps-try_op, Keeps-attempt, Keeps-run,
  Keeps-modify, Keeps-state, suppress-IsSound, schedule_unsuppress-IsSound,
)
