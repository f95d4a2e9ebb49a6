-- ===== src/Persistence/Samples.antt =====
-- The evidence of a first commit, and a parser that reads one document.
use aira_graphdb.Base.{
  ℕ, ◌&&◌, leb, map, ◌≡◌, String, true, refl, some, none, arith, ◌==◌, string_eq, eq_iff,
  if◌then◌else◌,
}
use aira_graphdb.Str.{length}
use aira_graphdb.Base.Checked.{Checked, valid, invalid}
use aira_graphdb.Persistence.{
  json_safe_integer_max, is_lower_hex, CommitEvidencePayload, RawCommitEvidence, commit_schema,
  committed, commit_bytes, commit_from_canonical_bytes,
}
use aira_graphdb.Persistence.Frames.{IsFrame, from_canonical_bytes-IsFrame}
use aira_graphdb.Persistence.Progress.{
  NativeProgressFrame, RawNativeProgressFrame, from_canonical_bytes, frame_bytes, validated_frame,
  new_counters, progress,
}
use aira_graphdb.Persistence.Progress.{batch_commit_phases}
use aira_graphdb.Persistence.Policy.{
  NativeProgressPolicy, RawNativeProgressPolicy, policy_bytes, policy_from_canonical_bytes,
}
use aira_graphdb.Persistence.Heartbeats.{IsPositive}
use aira_graphdb.Persistence.Budgets.{
  IsPolicy, raw_of, policy_from_canonical_bytes-IsPolicy, policy_from_canonical_bytes-policy_bytes,
}
use aira_graphdb.Persistence.Evidence.{IsEvidence, commit_from-IsEvidence, commit_from-commit_bytes}

abbrev hash : String
hash = "0123456789abcdef0123456789abcdef0123456789abcdef0123456789abcdef"

abbrev first : CommitEvidencePayload
first = record {
  transaction_nonce = hash;
  base_generation = 0;
  generation = 1;
  wal_sha256 = hash;
  wal_bytes = 120;
  wal_record_count = 2;
}

abbrev parse : String → Checked RawCommitEvidence
parse raw =
    if raw == commit_bytes (committed first)
    then valid record { schema = commit_schema; payload = first }
    else invalid "not JSON"

hash-is_lower_hex : is_lower_hex hash 32 ≡ true
unfolding is_lower_hex length
hash-is_lower_hex = refl

first-IsEvidence : IsEvidence first
first-IsEvidence = record {
  nonce_hex = hash-is_lower_hex;
  sha_hex = hash-is_lower_hex;
  next = refl;
  generation_safe = omega arith;
  some_bytes = omega arith;
  bytes_safe = omega arith;
  some_records = omega arith;
  records_safe = omega arith;
}

first_parsed :
    parse (commit_bytes (committed first))
    ≡ valid record { schema = commit_schema; payload = first }
first_parsed =
    rw ((eq_iff (commit_bytes (committed first)) (commit_bytes (committed first))).1 refl) refl

first_accepted :
    commit_from_canonical_bytes parse (commit_bytes (committed first)) ≡ valid (committed first)
first_accepted = commit_from-commit_bytes parse first first-IsEvidence first_parsed

commit_from-IsEvidence_example :
    (commit_bytes (committed first) ≡ commit_bytes (committed first)) × IsEvidence first
commit_from-IsEvidence_example =
    commit_from-IsEvidence parse (commit_bytes (committed first)) first first_accepted

abbrev frame : NativeProgressFrame
frame = record {
  id = 7;
  sequence = 2;
  phase = "wal_verify";
  counters = record {
    completed_units = 1;
    total_units = some 4;
    completed_bytes = 120;
    total_bytes = none;
  };
}

abbrev parse_frame : String → Checked RawNativeProgressFrame
parse_frame raw = valid record {
  schema = "NativeProgressFrame@1";
  kind = "progress";
  protocol_version = 1;
  method = "batch_commit";
  frame = frame;
}

frame_accepted : from_canonical_bytes parse_frame (frame_bytes frame) ≡ valid frame
unfolding from_canonical_bytes validated_frame new_counters progress
frame_accepted = rw ((eq_iff (frame_bytes frame) (frame_bytes frame)).1 refl) refl

from_canonical_bytes-IsFrame_example : (frame_bytes frame ≡ frame_bytes frame) × IsFrame frame
from_canonical_bytes-IsFrame_example =
    from_canonical_bytes-IsFrame parse_frame (frame_bytes frame) frame frame_accepted

-- A second for each phase, and a heartbeat each second for at most a minute
abbrev policy : NativeProgressPolicy
policy = record {
  initial_frame_deadline_ms = 500;
  inactivity_deadline_ms = 5000;
  phase_hard_deadline_ms =
      map (λ phase. record { phase = phase; deadline_ms = 1000 }) batch_commit_phases;
  absolute_deadline_ms = 60000;
  min_frame_interval_ms = 100;
  heartbeat_interval_ms = 1000;
  early_byte_delta = 65536;
  early_unit_delta = 100;
  max_frames = 74;
  max_frame_bytes = 4096;
}

positive : (n : ℕ) → leb 1 n && leb n json_safe_integer_max ≡ true → IsPositive n
positive n h = (ground arith, ground arith)

policy-IsPolicy : IsPolicy policy
policy-IsPolicy = record {
  inventory = refl;
  deadlines =
      let p = positive 1000 refl in
      (p, (p, (p, (p, (p, (p, (p, (p, (p, (p, (p, (p, (p, (p, tt))))))))))))));
  numbers = (
    positive 500 refl,
    (
      positive 5000 refl,
      (
        positive 60000 refl,
        (
          positive 100 refl,
          (
            positive 1000 refl,
            (
              positive 65536 refl,
              (positive 100 refl, (positive 74 refl, (positive 4096 refl, tt))),
            ),
          ),
        ),
      ),
    ),
  );
  paced = omega arith;
  reserved = λ beat early. omega arith;
}

abbrev parse_policy : String → Checked RawNativeProgressPolicy
parse_policy raw = valid (raw_of policy)

policy_from_canonical_bytes-policy_bytes_example :
    policy_from_canonical_bytes parse_policy (policy_bytes policy) ≡ valid policy
policy_from_canonical_bytes-policy_bytes_example =
    policy_from_canonical_bytes-policy_bytes parse_policy policy policy-IsPolicy refl

policy_accepted : policy_from_canonical_bytes parse_policy (policy_bytes policy) ≡ valid policy
policy_accepted = policy_from_canonical_bytes-policy_bytes parse_policy policy policy-IsPolicy refl

policy_from_canonical_bytes-IsPolicy_example :
    (policy_bytes policy ≡ policy_bytes policy) × IsPolicy policy
policy_from_canonical_bytes-IsPolicy_example =
    policy_from_canonical_bytes-IsPolicy parse_policy (policy_bytes policy) policy policy_accepted
