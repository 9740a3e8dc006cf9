-- ===== src/Incoming/Clamp.antt =====
-- `clamp_future_stamp` of common.rs and its two kin.
use byte_hive.Base.{ℕ, ◌+◌, ◌≤◌, ◌<◌, ◌^◌, Option, none, some, List, [], ◌∷◌, ◌≡◌, arith, All}
use byte_hive.Protocol.{FileData, FileBundle}
use byte_hive.Incoming.{
  max_future_skew_ms, stamp_limit, clamp_future_stamp, clamp_future_stamp_opt, clamp_file,
  clamp_files, clamp_bundle,
}

-- A stamp, if there is one, that is at most the allowance ahead of `now`.
abbrev pub IsTimely : ℕ → Option ℕ → Type 0
IsTimely now none = Unit
IsTimely now (some ms) = ms ≤ now + max_future_skew_ms

pub clamp_future_stamp-le : (now raw : ℕ) → clamp_future_stamp now raw ≤ now + max_future_skew_ms
unfolding clamp_future_stamp stamp_limit
clamp_future_stamp-le now raw = ground arith

pub clamp_future_stamp_opt-IsTimely :
    (now : ℕ) (raw : Option ℕ) → IsTimely now (clamp_future_stamp_opt now raw)
unfolding clamp_future_stamp_opt
clamp_future_stamp_opt-IsTimely now none = tt
clamp_future_stamp_opt-IsTimely now (some ms) = clamp_future_stamp-le now ms

pub clamp_files-IsTimely :
    (now : ℕ) (files : List FileData)
    → All (λ fd. IsTimely now fd.action_ms) (clamp_files now files)
unfolding clamp_files clamp_file
clamp_files-IsTimely now [] = tt
clamp_files-IsTimely now (fd ∷ files) =
    (clamp_future_stamp_opt-IsTimely now fd.action_ms, clamp_files-IsTimely now files)

-- A stamp in time is left alone, and clamping twice is clamping once.
pub clamp_future_stamp_idem :
    (now raw : ℕ)
    → now < 2 ^ 64
    → clamp_future_stamp now (clamp_future_stamp now raw) ≡ clamp_future_stamp now raw
unfolding clamp_future_stamp stamp_limit
clamp_future_stamp_idem now raw h = ground arith

pub clamp_bundle-IsTimely :
    (now : ℕ) (b : FileBundle) → All (λ fd. IsTimely now fd.action_ms) (clamp_bundle now b).files
unfolding clamp_bundle
clamp_bundle-IsTimely now b = clamp_files-IsTimely now b.files
