-- ===== src/Retrieval/Deadline.antt =====
-- `SessionRemainder` and `MonotonicDeadline`, on the states that they keep.
use aira_graphdb.Base.{ℕ, ◌+◌, ◌-◌, List, [], ◌∷◌, leb, ltb, u64_mod, if◌then◌else◌}
use aira_graphdb.Base.Checked.{Checked, valid, invalid}

abbrev pub max_operation_deadline_ms : ℕ
max_operation_deadline_ms = 60000

abbrev pub deadline_check_interval_units : ℕ
deadline_check_interval_units = 1024

-- `u64::min`
abbrev pub least : ℕ → ℕ → ℕ
least a b = if leb a b then a else b

pub record SessionRemainder : Type 0 where
  pub remaining_ms : ℕ

unfoldable pub new_remainder : ℕ → SessionRemainder
new_remainder owner_remaining_ms = record {
  remaining_ms = least owner_remaining_ms max_operation_deadline_ms;
}

unfoldable pub accept_decreasing : SessionRemainder → ℕ → Checked ℕ × SessionRemainder
accept_decreasing self owner_remaining_ms =
    let candidate = least owner_remaining_ms max_operation_deadline_ms in
    if ltb self.remaining_ms candidate
    then (invalid "session remainder cannot increase", self)
    else (valid candidate, record self { remaining_ms = candidate })

pub data DeadlineError : Type 0 where
  clock_regression deadline_exceeded checkpoint_gap work_regression arithmetic_overflow :
      DeadlineError

-- `Result<T, DeadlineError>`
pub data Timed (A : Type 0) : Type 0 where
  on_time : A → Timed A
  late : DeadlineError → Timed A

pub record MonotonicDeadline : Type 0 where
  pub deadline_ms : ℕ
  pub last_now_ms : ℕ
  pub completed_units : ℕ

unfoldable pub new_deadline : ℕ → ℕ → Timed MonotonicDeadline
new_deadline now_ms owner_remaining_ms =
    let remaining = least owner_remaining_ms max_operation_deadline_ms in
    if ltb (now_ms + remaining) u64_mod
    then on_time
        record { deadline_ms = now_ms + remaining; last_now_ms = now_ms; completed_units = 0 }
    else late arithmetic_overflow

-- What follows a clock that did not move backwards; the clock is kept also where the rest fails.
abbrev observe_clock :
    {A : Type 0}
    → ℕ
    → (MonotonicDeadline → Timed A × MonotonicDeadline)
    → MonotonicDeadline
    → Timed A × MonotonicDeadline
observe_clock now_ms k self =
    if ltb now_ms self.last_now_ms
    then (late clock_regression, self)
    else k (record self { last_now_ms = now_ms })

unfoldable pub remaining_until : ℕ → MonotonicDeadline → Timed ℕ × MonotonicDeadline
remaining_until now_ms = observe_clock now_ms λ self. (on_time (self.deadline_ms - now_ms), self)

abbrev checked_units : ℕ → ℕ → MonotonicDeadline → Timed (Unit {0}) × MonotonicDeadline
checked_units now_ms units self =
    if ltb units self.completed_units
    then (late work_regression, self)
    else if ltb deadline_check_interval_units (units - self.completed_units)
    then (late checkpoint_gap, self)
    else if leb self.deadline_ms now_ms
    then (late deadline_exceeded, record self { completed_units = units })
    else (on_time tt, record self { completed_units = units })

unfoldable pub checkpoint : ℕ → ℕ → MonotonicDeadline → Timed (Unit {0}) × MonotonicDeadline
checkpoint now_ms units = observe_clock now_ms (checked_units now_ms units)

-- Any calls of `checkpoint`, at given times and units, up to the first that fails
unfoldable pub checkpoints : List (ℕ × ℕ) → MonotonicDeadline → Timed (Unit {0}) × MonotonicDeadline
unfolding checkpoint
checkpoints [] self = (on_time tt, self)
checkpoints ((now_ms, units) ∷ rest) self =
    let (result, next) = checkpoint now_ms units self in
    elim result [ on_time _ ↦ checkpoints rest next | late e ↦ (late e, next) ]
