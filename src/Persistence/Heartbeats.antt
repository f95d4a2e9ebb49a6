-- ===== src/Persistence/Heartbeats.antt =====
-- The frames that a progress policy reserves for its heartbeats.
use aira_graphdb.Base.{
  ℕ, suc, zero, ◌+◌, ◌-◌, ◌*◌, ◌/◌, ◌≤◌, ◌<◌, ◌≡◌, Bool, true, ◌&&◌, none, some, length, ltb,
  u64_mod, refl, arith, if◌then◌else◌,
}
use native.Mathlib.Nat.{le-div_iff_mul-le, div-mul-le_self}
use aira_graphdb.Persistence.{json_safe_integer_max}
use aira_graphdb.Persistence.Progress.{batch_commit_phases}
use aira_graphdb.Persistence.Policy.{mandatory_frames}

-- An integer that JSON holds exactly, not zero
abbrev pub IsPositive : ℕ → Type 0
IsPositive n = (1 ≤ n) × (n ≤ json_safe_integer_max)

mandatory_frames_value :
    (absolute heartbeat frames : ℕ)
    → mandatory_frames absolute heartbeat ≡ some frames
    → (1 ≤ heartbeat)
      × (frames ≡ length batch_commit_phases + (absolute + (heartbeat - 1)) / heartbeat)
unfolding mandatory_frames
mandatory_frames_value absolute heartbeat frames h = value _ _ h
  where
    value :
        (b : Bool) (n : ℕ)
        → (if b && (ltb 0 heartbeat && ltb n u64_mod) then some n else none) ≡ some frames
        → (1 ≤ heartbeat) × (frames ≡ n)
    value b n h = ground arith

-- A heartbeat before the absolute deadline is among those that the quotient counts.
pub reserved_lem :
    (absolute heartbeat frames most beat : ℕ)
    → mandatory_frames absolute heartbeat ≡ some frames
    → frames ≤ most
    → beat * heartbeat < absolute
    → length batch_commit_phases + beat < most
reserved_lem absolute heartbeat frames most beat h enough early =
    let (positive, counted) = mandatory_frames_value absolute heartbeat frames h in
    let padded = absolute + (heartbeat - 1) in
    let whole : suc beat * heartbeat ≤ padded = omega arith in
    let among : suc beat ≤ padded / heartbeat = (le-div_iff_mul-le positive).1 whole in omega arith

-- The quotient counts no heartbeat but those before the absolute deadline.
quotient_bound :
    (absolute heartbeat most quotient : ℕ)
    → 1 ≤ absolute
    → 1 ≤ heartbeat
    → quotient * heartbeat ≤ absolute + (heartbeat - 1)
    → ((beat : ℕ) → beat * heartbeat < absolute → length batch_commit_phases + beat < most)
    → length batch_commit_phases + quotient ≤ most
quotient_bound absolute heartbeat most zero a b whole reserved =
    let first = reserved 0 (omega arith) in omega arith
quotient_bound absolute heartbeat most (suc beat) a b whole reserved =
    let last = reserved beat (omega arith) in omega arith

pub mandatory_frames_fits :
    (absolute heartbeat most : ℕ)
    → IsPositive absolute
    → IsPositive heartbeat
    → most ≤ json_safe_integer_max
    → ((beat : ℕ) → beat * heartbeat < absolute → length batch_commit_phases + beat < most)
    → (frames : ℕ) × ((mandatory_frames absolute heartbeat ≡ some frames) × (frames ≤ most))
unfolding mandatory_frames
mandatory_frames_fits absolute heartbeat most a b small reserved =
    let padded = absolute + (heartbeat - 1) in
    let bound =
      quotient_bound absolute heartbeat most (padded / heartbeat) a.0 b.0
        (div-mul-le_self padded heartbeat) reserved in
    let no_overflow : ltb padded u64_mod ≡ true = ground (arith, a.1, b.1) in
    let divides : ltb 0 heartbeat ≡ true = ground (arith, b.0) in
    let counted : ltb (length batch_commit_phases + padded / heartbeat) u64_mod ≡ true =
      ground (arith, bound) in
    (
      length batch_commit_phases + padded / heartbeat,
      (rw (no_overflow, divides, counted) refl, bound),
    )
