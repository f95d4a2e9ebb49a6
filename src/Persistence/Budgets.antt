-- ===== src/Persistence/Budgets.antt =====
-- What a progress policy that was accepted promises, and that every such policy is accepted.
use aira_graphdb.Base.{
  ℕ, suc, ◌+◌, ◌*◌, ◌≤◌, ◌<◌, ◌≡◌, ◌↔◌, String, Bool, true, false, not, ◌&&◌, List, [], ◌∷◌, All,
  map, length, ltb, nat_eq, nat_eq_iff, refl, arith, ◌==◌, eq_iff, string_eq, ◌∙◌, ap, sym,
}
use mathlib.Core.Path.{subst}
use aira_graphdb.Base.Checked.{
  Checked, valid, ok_or, ensure, bind_valid, ensure_valid, valid_injective, ok_or_valid,
}
use aira_graphdb.Persistence.{is_safe_integer}
use aira_graphdb.Persistence.Progress.{batch_commit_phases}
use aira_graphdb.Persistence.Heartbeats.{IsPositive, reserved_lem, mandatory_frames_fits}
use aira_graphdb.Persistence.Policy.{
  PhaseHardDeadline, NativeProgressPolicy, RawNativeProgressPolicy, policy_schema, same_texts,
  only_method, read_deadlines, all_positive, policy_numbers, mandatory_frames, policy_from,
  policy_bytes, policy_from_canonical_bytes,
}

-- Each phase has its deadline, all numbers are positive, and there is a frame for each phase and for
-- each heartbeat before the absolute deadline.
pub record IsPolicy (p : NativeProgressPolicy) : Type 0 where
  pub inventory : map (λ d. d.phase) p.phase_hard_deadline_ms ≡ batch_commit_phases
  pub deadlines : All (λ d. IsPositive d.deadline_ms) p.phase_hard_deadline_ms
  pub numbers : All (λ n. IsPositive n.1) (policy_numbers p)
  pub paced : p.min_frame_interval_ms ≤ p.heartbeat_interval_ms
  pub reserved :
      (beat : ℕ)
      → beat * p.heartbeat_interval_ms < p.absolute_deadline_ms
      → length batch_commit_phases + beat < p.max_frames

positive_iff : (n : ℕ) → (is_safe_integer n false ≡ true) ↔ IsPositive n
positive_iff n = (λ h. (ground arith, ground arith), λ h. ground arith)

read_deadlines_valid :
    (ds es : List PhaseHardDeadline) (phases : List String)
    → length ds ≡ length phases
    → read_deadlines ds phases ≡ valid es
    → (es ≡ ds) × (map (λ d. d.phase) ds ≡ phases) × All (λ d. IsPositive d.deadline_ms) ds
unfolding read_deadlines
read_deadlines_valid [] es [] same h = (sym (valid_injective h), refl, tt)
read_deadlines_valid [] es (p ∷ ps) same h = absurd (omega arith)
read_deadlines_valid (d ∷ ds) es [] same h = absurd (omega arith)
read_deadlines_valid (d ∷ ds) es (p ∷ ps) same h =
    let (_, (named, h1)) = bind_valid (ensure (d.phase == p) _) _ es h in
    let (_, (safe, h2)) = bind_valid (ensure (is_safe_integer d.deadline_ms false) _) _ es h1 in
    let (rest, (others, done)) = bind_valid (read_deadlines ds ps) _ es h2 in
    let (kept, phases, positive) = read_deadlines_valid ds rest ps (omega arith) others in
    let name = (eq_iff d.phase p).0 (ensure_valid _ _ _ named) in
    (
      sym (valid_injective done) ∙ ap (λ r. d ∷ r) kept,
      (λ i. name i ∷ phases i),
      ((positive_iff d.deadline_ms).0 (ensure_valid _ _ _ safe), positive),
    )

read_deadlines_fits :
    (ds : List PhaseHardDeadline)
    → All (λ d. IsPositive d.deadline_ms) ds
    → read_deadlines ds (map (λ d. d.phase) ds) ≡ valid ds
unfolding read_deadlines
read_deadlines_fits [] positive = refl
read_deadlines_fits (d ∷ ds) (here, there) =
    rw
      (
        (eq_iff d.phase d.phase).1 refl,
        (positive_iff d.deadline_ms).1 here,
        read_deadlines_fits ds there,
      )
      refl

all_positive_iff :
    (ns : List (String × ℕ)) → (all_positive ns ≡ valid tt) ↔ All (λ n. IsPositive n.1) ns
unfolding all_positive
all_positive_iff [] = (λ h. tt, λ h. refl)
all_positive_iff ((name, n) ∷ ns) = (
  λ h.
      let (_, (safe, rest)) = bind_valid (ensure (is_safe_integer n false) _) _ tt h in
      ((positive_iff n).0 (ensure_valid _ _ _ safe), (all_positive_iff ns).0 rest),
  λ h. rw ((positive_iff n).1 h.0) ((all_positive_iff ns).1 h.1),
)

last_of : (a b c : Bool) → (a && (b && c)) ≡ true → c ≡ true
last_of a b c h = ground arith

length-phases : (ds : List PhaseHardDeadline) → length (map (λ d. d.phase) ds) ≡ length ds
length-phases [] = refl
length-phases (d ∷ ds) = ap suc (length-phases ds)

policy_from-IsPolicy :
    (raw : RawNativeProgressPolicy) (p : NativeProgressPolicy)
    → policy_from raw ≡ valid p
    → IsPolicy p
unfolding policy_from
policy_from-IsPolicy raw p h =
    let (_, (_, h1)) =
      bind_valid (ensure (raw.schema == policy_schema && nat_eq raw.protocol_version 1) _) _ p h in
    let (m, (_, h2)) = bind_valid (ok_or (only_method raw.methods) _) _ p h1 in
    let q = m.policy in
    let (_, (inventory, h3)) =
      bind_valid
        (ensure
          (m.method == "batch_commit"
            && (same_texts m.phases batch_commit_phases
                && nat_eq (length q.phase_hard_deadline_ms) (length batch_commit_phases)))
          _)
        _ p h2 in
    let (ds, (deadlines, h4)) =
      bind_valid (read_deadlines q.phase_hard_deadline_ms batch_commit_phases) _ p h3 in
    let (_, (numbers, h5)) = bind_valid (all_positive (policy_numbers q)) _ p h4 in
    let (_, (paced, h6)) =
      bind_valid (ensure (not (ltb q.heartbeat_interval_ms q.min_frame_interval_ms)) _) _ p h5 in
    let (frames, (mandatory, h7)) =
      bind_valid (ok_or (mandatory_frames q.absolute_deadline_ms q.heartbeat_interval_ms) _) _ p
        h6 in
    let (_, (enough, done)) = bind_valid (ensure (not (ltb q.max_frames frames)) _) _ p h7 in
    let as_many = (nat_eq_iff _ _).0 (last_of _ _ _ (ensure_valid _ _ _ inventory)) in
    let (kept, phases, positive) =
      read_deadlines_valid q.phase_hard_deadline_ms ds batch_commit_phases as_many deadlines in
    let same : q ≡ p =
      ap (λ es. record q { phase_hard_deadline_ms = es }) (sym kept) ∙ valid_injective done in
    let intervals = ensure_valid _ _ _ paced in
    let budget = ensure_valid _ _ _ enough in
    subst IsPolicy same record {
      inventory = phases;
      deadlines = positive;
      numbers = (all_positive_iff (policy_numbers q)).0 numbers;
      paced = ground (arith, intervals);
      reserved = λ beat early.
          reserved_lem q.absolute_deadline_ms q.heartbeat_interval_ms frames q.max_frames beat
            (ok_or_valid _ _ frames mandatory) (ground (arith, budget)) early;
    }

-- The document that serde reads of the canonical bytes of a policy
abbrev pub raw_of : NativeProgressPolicy → RawNativeProgressPolicy
raw_of p = record {
  schema = policy_schema;
  protocol_version = 1;
  methods = record { method = "batch_commit"; phases = batch_commit_phases; policy = p } ∷ [];
}

policy_from-raw_of : (p : NativeProgressPolicy) → IsPolicy p → policy_from (raw_of p) ≡ valid p
unfolding policy_from
policy_from-raw_of p ok =
    let (_, (_, (absolute, (_, (heartbeat, (_, (_, (frames, _)))))))) = ok.numbers in
    let (mandatory, (counted, enough)) =
      mandatory_frames_fits p.absolute_deadline_ms p.heartbeat_interval_ms p.max_frames absolute
        heartbeat frames.1 ok.reserved in
    let as_many = sym (length-phases p.phase_hard_deadline_ms) ∙ ap length ok.inventory in
    let read =
      subst
        (λ names. read_deadlines p.phase_hard_deadline_ms names ≡ valid p.phase_hard_deadline_ms)
        ok.inventory (read_deadlines_fits p.phase_hard_deadline_ms ok.deadlines) in
    let slow : ltb p.heartbeat_interval_ms p.min_frame_interval_ms ≡ false =
      ground (arith, ok.paced) in
    let room : ltb p.max_frames mandatory ≡ false = ground (arith, enough) in
    rw
      (
        (nat_eq_iff (length p.phase_hard_deadline_ms) (length batch_commit_phases)).1 as_many,
        read,
        (all_positive_iff (policy_numbers p)).1 ok.numbers,
        slow,
        counted,
        room,
      )
      refl

-- Whatever the JSON parser reads, bytes that are accepted as a progress policy are the canonical
-- bytes of the policy. It has a deadline for each phase in the order of the phases, its numbers are
-- integers that JSON holds exactly and not zero, its heartbeats are not closer than its frames may
-- be, and `maxFrames` has room for a frame of each phase and one for each heartbeat that begins
-- before the absolute deadline.
pub policy_from_canonical_bytes-IsPolicy :
    (parse : String → Checked RawNativeProgressPolicy) (raw : String) (p : NativeProgressPolicy)
    → policy_from_canonical_bytes parse raw ≡ valid p
    → (policy_bytes p ≡ raw) × IsPolicy p
unfolding policy_from_canonical_bytes
policy_from_canonical_bytes-IsPolicy parse raw p h =
    let (parsed, (_, h1)) = bind_valid (parse raw) _ p h in
    let (q, (checked, h2)) = bind_valid (policy_from parsed) _ p h1 in
    let (u, (canonical, done)) = bind_valid (ensure (policy_bytes q == raw) _) _ p h2 in
    let written = (eq_iff (policy_bytes q) raw).0 (ensure_valid _ _ u canonical) in
    let same : q ≡ p = valid_injective done in
    (
      ap policy_bytes (sym same) ∙ written,
      subst IsPolicy same (policy_from-IsPolicy parsed q checked),
    )

-- A policy that has a deadline for each phase in order, positive numbers that JSON holds exactly,
-- heartbeats that are not closer than its frames may be, and room for a frame of each phase and of
-- each heartbeat before the absolute deadline is read back from its canonical bytes, with a parser
-- that reads the document that was written.
pub policy_from_canonical_bytes-policy_bytes :
    (parse : String → Checked RawNativeProgressPolicy) (p : NativeProgressPolicy)
    → IsPolicy p
    → parse (policy_bytes p) ≡ valid (raw_of p)
    → policy_from_canonical_bytes parse (policy_bytes p) ≡ valid p
unfolding policy_from_canonical_bytes
policy_from_canonical_bytes-policy_bytes parse p ok parsed =
    rw (parsed, policy_from-raw_of p ok, (eq_iff (policy_bytes p) (policy_bytes p)).1 refl) refl
