-- ===== src/Retrieval/Clock.antt =====
-- What a deadline promises to an operation that calls `checkpoint` as it works.
use aira_graphdb.Base.{
  ℕ, ◌+◌, ◌*◌, ◌≤◌, ◌<◌, ◌≡◌, ◌≢◌, List, [], ◌∷◌, length, All, arith, refl, ap, ◌∙◌,
}
use mathlib.Core.Path.{subst}
use aira_graphdb.Retrieval.Deadline.{
  max_operation_deadline_ms, deadline_check_interval_units, Timed, on_time, late, MonotonicDeadline,
  new_deadline, checkpoint, checkpoints,
}

-- Each time is after the one before it, which is at least `now` for the first.
abbrev pub IsAdvancing : ℕ → List (ℕ × ℕ) → Type 0
IsAdvancing now [] = Unit
IsAdvancing now ((time, units) ∷ rest) = (now ≤ time) × IsAdvancing (time + 1) rest

checkpoint_on_time :
    (now units : ℕ) (d next : MonotonicDeadline)
    → checkpoint now units d ≡ (on_time tt, next)
    → (d.last_now_ms ≤ now)
      × (now < d.deadline_ms)
      × (d.completed_units ≤ units)
      × (units ≤ d.completed_units + deadline_check_interval_units)
      × (next ≡ record d { last_now_ms = now; completed_units = units })
unfolding checkpoint
checkpoint_on_time now units d next h = ground arith

-- What calls that all succeed have as their first step.
checkpoints_step :
    (now units : ℕ) (rest : List (ℕ × ℕ)) (d next : MonotonicDeadline)
    → checkpoints ((now, units) ∷ rest) d ≡ (on_time tt, next)
    → (checkpoint now units d ≡ (on_time tt, (checkpoint now units d).1))
      × (checkpoints rest (checkpoint now units d).1 ≡ (on_time tt, next))
unfolding checkpoints
checkpoints_step now units rest d next h = split (checkpoint now units d) h
  where
    split :
        (step : Timed (Unit {0}) × MonotonicDeadline)
        → (elim step.0 [ on_time _ ↦ checkpoints rest step.1 | late e ↦ (late e, step.1) ])
          ≡ (on_time tt, next)
        → (step ≡ (on_time tt, step.1)) × (checkpoints rest step.1 ≡ (on_time tt, next))
    split (on_time _, mid) h = (refl, h)
    split (late e, mid) h = absurd (ground arith)

-- Calls that are all on time, before a deadline, from a time and a number of units that are done:
-- each is before the deadline, and neither goes back behind the call before it nor leaves more than
-- 1024 units between.
pub IsTimely : ℕ → ℕ → ℕ → List (ℕ × ℕ) → Type 0
IsTimely deadline time done [] = Unit
IsTimely deadline time done ((now, units) ∷ rest) =
    (time ≤ now)
    × (now < deadline)
    × (done ≤ units)
    × (units ≤ done + deadline_check_interval_units)
    × IsTimely deadline now units rest

-- The time and the units of the last call, or those given if there is none.
pub last_call : ℕ × ℕ → List (ℕ × ℕ) → ℕ × ℕ
last_call before [] = before
last_call before (call ∷ rest) = last_call call rest

-- If calls of `checkpoint` all succeed, then each is before the deadline, its time is not before
-- that of the call before it, and its units of work are not fewer than those of that call and at
-- most 1024 more, where the state of the deadline counts as the call before the first. Afterwards
-- the deadline has the time and the units of the last call; neither went back, the units are at
-- most 1024 more for each call, and the deadline itself is the same.
pub checkpoints_on_time :
    (calls : List (ℕ × ℕ)) (d next : MonotonicDeadline)
    → checkpoints calls d ≡ (on_time tt, next)
    → IsTimely d.deadline_ms d.last_now_ms d.completed_units calls
      × ((next.last_now_ms, next.completed_units)
          ≡ last_call (d.last_now_ms, d.completed_units) calls)
      × (d.last_now_ms ≤ next.last_now_ms)
      × (d.completed_units ≤ next.completed_units)
      × (next.completed_units ≤ d.completed_units + length calls * deadline_check_interval_units)
      × (next.deadline_ms ≡ d.deadline_ms)
unfolding IsTimely last_call
checkpoints_on_time [] d next h = unfold checkpoints in ground arith
checkpoints_on_time ((now, units) ∷ rest) d next h =
    let (first, others) = checkpoints_step now units rest d next h in
    let mid = (checkpoint now units d).1 in
    let (clock, timely, forward, gap, same) = checkpoint_on_time now units d mid first in
    let (all_timely, last, clock', forward', gap', same') =
      checkpoints_on_time rest mid next others in
    let deadline_kept : mid.deadline_ms ≡ d.deadline_ms = ap (λ r. r.deadline_ms) same in
    let clock_kept : mid.last_now_ms ≡ now = ap (λ r. r.last_now_ms) same in
    let units_kept : mid.completed_units ≡ units = ap (λ r. r.completed_units) same in
    let rest_timely : IsTimely d.deadline_ms now units rest =
      subst (λ (r : MonotonicDeadline). IsTimely r.deadline_ms r.last_now_ms r.completed_units rest)
        same all_timely in
    let last_kept : (next.last_now_ms, next.completed_units) ≡ last_call (now, units) rest =
      subst
        (λ (r : MonotonicDeadline).
          (next.last_now_ms, next.completed_units)
          ≡ last_call (r.last_now_ms, r.completed_units) rest)
        same last in
    (
      (clock, timely, forward, gap, rest_timely),
      last_kept,
      omega arith,
      omega arith,
      omega arith,
      same' ∙ deadline_kept,
    )

-- Calls on time are before the deadline.
timely_before :
    (deadline time done : ℕ) (calls : List (ℕ × ℕ))
    → IsTimely deadline time done calls
    → All (λ call. call.0 < deadline) calls
unfolding IsTimely
timely_before deadline time done [] h = tt
timely_before deadline time done ((now, units) ∷ rest) (_, before, _, _, others) =
    (before, timely_before deadline now units rest others)

-- Times that advance and stay below a bound are as few as the bound allows.
advancing_bound :
    (bound now : ℕ) (calls : List (ℕ × ℕ))
    → now ≤ bound
    → IsAdvancing now calls
    → All (λ call. call.0 < bound) calls
    → now + length calls ≤ bound
advancing_bound bound now [] start advancing below = omega arith
advancing_bound bound now ((time, units) ∷ rest) start (later, advancing) (below, others) =
    omega (arith, advancing_bound bound (time + 1) rest (omega arith) advancing others)

new_deadline_bounds :
    (now owner : ℕ) (d : MonotonicDeadline)
    → new_deadline now owner ≡ on_time d
    → (now ≤ d.deadline_ms) × (d.deadline_ms ≤ now + max_operation_deadline_ms)
unfolding new_deadline
new_deadline_bounds now owner d h = ground arith

-- From a new deadline, more than 60000 calls of `checkpoint` at times that advance do not all
-- succeed, whatever time the owner allowed.
pub checkpoints_expire :
    (now owner : ℕ) (calls : List (ℕ × ℕ)) (d : MonotonicDeadline)
    → new_deadline now owner ≡ on_time d
    → IsAdvancing now calls
    → max_operation_deadline_ms < length calls
    → (checkpoints calls d).0 ≢ on_time tt
checkpoints_expire now owner calls d h advancing many succeeded =
    let next = (checkpoints calls d).1 in
    let on_times = (checkpoints_on_time calls d next (λ i. (succeeded i, next))).0 in
    let timely = timely_before d.deadline_ms d.last_now_ms d.completed_units calls on_times in
    let (started, bounded) = new_deadline_bounds now owner d h in
    absurd (omega (arith, advancing_bound d.deadline_ms now calls started advancing timely))

-- At the deadline and after it no checkpoint succeeds.
pub checkpoint_expired :
    (now units : ℕ) (d : MonotonicDeadline)
    → d.deadline_ms ≤ now
    → (checkpoint now units d).0 ≢ on_time tt
unfolding checkpoint
checkpoint_expired now units d h = ground arith
