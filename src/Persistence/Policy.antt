-- ===== src/Persistence/Policy.antt =====
-- The progress policy of `src/native_persistence_contract.rs`: the checks of a document, the canonical
-- bytes and the candidate among the fixtures. The readers of JSON and of base64 and the digest are
-- parameters.
use Prim.Native.String.{◌++◌}
use aira_graphdb.Base.{
  ℕ, ◌+◌, ◌-◌, ◌/◌, String, Bool, true, false, not, ◌&&◌, Option, none, some, List, [], ◌∷◌, ◌==◌,
  string_eq, map, length, ltb, nat_eq, u64_mod, if◌then◌else◌,
}
use aira_graphdb.Base.Decimal.{to_string}
use aira_graphdb.Base.Checked.{Checked, valid, ◌>>=◌, ensure, ok_or}
use aira_graphdb.Persistence.{validate_safe_integer, object, member, quoted, members}
use aira_graphdb.Persistence.Progress.{batch_commit_phases}

pub record PhaseHardDeadline : Type 0 where
  pub phase : String
  pub deadline_ms : ℕ

-- `NativeProgressMethodPolicy`, which is all that a `NativeProgressPolicy` holds
pub record NativeProgressPolicy : Type 0 where
  pub initial_frame_deadline_ms : ℕ
  pub inactivity_deadline_ms : ℕ
  pub phase_hard_deadline_ms : List PhaseHardDeadline
  pub absolute_deadline_ms : ℕ
  pub min_frame_interval_ms : ℕ
  pub heartbeat_interval_ms : ℕ
  pub early_byte_delta : ℕ
  pub early_unit_delta : ℕ
  pub max_frames : ℕ
  pub max_frame_bytes : ℕ

-- A method of the document as serde reads it: the fields of a policy with the name and the phases
pub record RawNativeProgressMethodPolicy : Type 0 where
  pub method : String
  pub phases : List String
  pub policy : NativeProgressPolicy

pub record RawNativeProgressPolicy : Type 0 where
  pub schema : String
  pub protocol_version : ℕ
  pub methods : List RawNativeProgressMethodPolicy

abbrev pub policy_schema : String
policy_schema = "NativeProgressPolicy@1"

-- `iter().eq(..)`
abbrev pub same_texts : List String → List String → Bool
same_texts [] [] = true
same_texts (s ∷ ss) (t ∷ ts) = s == t && same_texts ss ts
same_texts _ _ = false

abbrev pub only_method : List RawNativeProgressMethodPolicy → Option RawNativeProgressMethodPolicy
only_method (raw ∷ []) = some raw
only_method _ = none

-- The loop over the deadlines and the phases side by side
unfoldable pub read_deadlines :
    List PhaseHardDeadline → List String → Checked (List PhaseHardDeadline)
read_deadlines (d ∷ ds) (expected ∷ rest) = do
  _ ← ensure (d.phase == expected) "phase deadline order does not match phase inventory"
  _ ← validate_safe_integer "phaseHardDeadlineMs.deadlineMs" d.deadline_ms false
  others ← read_deadlines ds rest
  valid (d ∷ others)
read_deadlines _ _ = valid []

unfoldable pub all_positive : List (String × ℕ) → Checked (Unit {0})
all_positive [] = valid tt
all_positive ((name, value) ∷ rest) = do
  _ ← validate_safe_integer name value false
  all_positive rest

-- The numbers that must not be zero, with their names
abbrev pub policy_numbers : NativeProgressPolicy → List (String × ℕ)
policy_numbers p =
    ("initialFrameDeadlineMs", p.initial_frame_deadline_ms)
    ∷ ("inactivityDeadlineMs", p.inactivity_deadline_ms)
    ∷ ("absoluteDeadlineMs", p.absolute_deadline_ms)
    ∷ ("minFrameIntervalMs", p.min_frame_interval_ms)
    ∷ ("heartbeatIntervalMs", p.heartbeat_interval_ms)
    ∷ ("earlyByteDelta", p.early_byte_delta)
    ∷ ("earlyUnitDelta", p.early_unit_delta)
    ∷ ("maxFrames", p.max_frames)
    ∷ ("maxFrameBytes", p.max_frame_bytes)
    ∷ []

-- A frame for each phase and one for each heartbeat up to the absolute deadline
unfoldable pub mandatory_frames : ℕ → ℕ → Option ℕ
mandatory_frames absolute heartbeat =
    let padded = absolute + (heartbeat - 1) in
    let frames = length batch_commit_phases + padded / heartbeat in
    if ltb padded u64_mod && (ltb 0 heartbeat && ltb frames u64_mod) then some frames else none

-- `TryFrom<RawNativeProgressPolicy>`
unfoldable pub policy_from : RawNativeProgressPolicy → Checked NativeProgressPolicy
unfolding read_deadlines all_positive mandatory_frames
policy_from raw = do
  _ ←
      ensure (raw.schema == policy_schema && nat_eq raw.protocol_version 1)
        "progress policy schema, version, or method set is invalid"
  m ← ok_or (only_method raw.methods) "progress policy schema, version, or method set is invalid"
  _ ←
      ensure
        (m.method == "batch_commit"
          && (same_texts m.phases batch_commit_phases
              && nat_eq (length m.policy.phase_hard_deadline_ms) (length batch_commit_phases)))
        "batch_commit progress inventory is invalid"
  deadlines ← read_deadlines m.policy.phase_hard_deadline_ms batch_commit_phases
  _ ← all_positive (policy_numbers m.policy)
  _ ←
      ensure (not (ltb m.policy.heartbeat_interval_ms m.policy.min_frame_interval_ms))
        "heartbeat interval cannot be below the frame interval"
  frames ←
      ok_or (mandatory_frames m.policy.absolute_deadline_ms m.policy.heartbeat_interval_ms)
        "progress frame budget arithmetic overflow"
  _ ←
      ensure (not (ltb m.policy.max_frames frames))
        "progress policy cannot reserve all mandatory frames"
  valid record m.policy { phase_hard_deadline_ms = deadlines }

abbrev list_of : List String → String
list_of items = "[" ++ (members items ++ "]")

abbrev deadline_bytes : PhaseHardDeadline → String
deadline_bytes d =
    object (member "phase" (quoted d.phase) ∷ member "deadlineMs" (to_string d.deadline_ms) ∷ [])

unfoldable pub policy_bytes : NativeProgressPolicy → String
unfolding members
policy_bytes p =
    let method = object (
      member "method" (quoted "batch_commit")
      ∷ member "phases" (list_of (map quoted batch_commit_phases))
      ∷ member "initialFrameDeadlineMs" (to_string p.initial_frame_deadline_ms)
      ∷ member "inactivityDeadlineMs" (to_string p.inactivity_deadline_ms)
      ∷ member "phaseHardDeadlineMs" (list_of (map deadline_bytes p.phase_hard_deadline_ms))
      ∷ member "absoluteDeadlineMs" (to_string p.absolute_deadline_ms)
      ∷ member "minFrameIntervalMs" (to_string p.min_frame_interval_ms)
      ∷ member "heartbeatIntervalMs" (to_string p.heartbeat_interval_ms)
      ∷ member "earlyByteDelta" (to_string p.early_byte_delta)
      ∷ member "earlyUnitDelta" (to_string p.early_unit_delta)
      ∷ member "maxFrames" (to_string p.max_frames)
      ∷ member "maxFrameBytes" (to_string p.max_frame_bytes)
      ∷ []) in
    object (
      member "schema" (quoted policy_schema)
      ∷ member "protocolVersion" "1"
      ∷ member "methods" (list_of (method ∷ []))
      ∷ [])

-- `parse` is `serde_json::from_slice`.
unfoldable pub policy_from_canonical_bytes :
    (String → Checked RawNativeProgressPolicy) → String → Checked NativeProgressPolicy
unfolding policy_from policy_bytes
policy_from_canonical_bytes parse raw = do
  parsed ← parse raw
  validated ← policy_from parsed
  _ ← ensure (policy_bytes validated == raw) "progress policy is not canonical JSON"
  valid validated

pub record NativePersistenceFixture : Type 0 where
  pub name : String
  pub canonical_base64 : String
  pub sha256 : String

pub record NativePersistenceFixtureManifest : Type 0 where
  pub schema : String
  pub policy_purpose : String
  pub fixtures : List NativePersistenceFixture

abbrev find_fixture : String → List NativePersistenceFixture → Option NativePersistenceFixture
find_fixture name [] = none
find_fixture name (fixture ∷ rest) =
    let others = find_fixture name rest in if fixture.name == name then some fixture else others

-- `manifest` is what serde reads of the fixtures, `decode` is that of base64, and `digest` is SHA-256
-- in hexadecimal digits.
unfoldable pub checked_in_candidate :
    (String → Checked RawNativeProgressPolicy)
    → Checked NativePersistenceFixtureManifest
    → (String → Checked String)
    → (String → String)
    → Checked NativeProgressPolicy
unfolding policy_from_canonical_bytes
checked_in_candidate parse read decode digest = do
  manifest ← read
  _ ←
      ensure
        (manifest.schema == "NativePersistenceCanonicalFixtures@1"
          && manifest.policy_purpose == "contract-only-unmeasured-not-production-policy")
        "native progress candidate manifest purpose is invalid"
  fixture ←
      ok_or (find_fixture "nativeProgressPolicy" manifest.fixtures)
        "native progress candidate fixture is missing"
  raw ← decode fixture.canonical_base64
  _ ← ensure (digest raw == fixture.sha256) "native progress candidate digest is invalid"
  policy_from_canonical_bytes parse raw
