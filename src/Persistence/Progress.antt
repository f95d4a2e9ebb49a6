-- ===== src/Persistence/Progress.antt =====
-- The progress frames of `src/native_persistence_contract.rs`: the constructors, the canonical bytes
-- and the parser, which takes the JSON parser as a parameter.
use Prim.Native.String.{◌++◌}
use aira_graphdb.Base.{
  ℕ, String, Bool, true, false, not, ◌&&◌, ◌||◌, Option, none, some, List, [], ◌∷◌, ◌==◌, string_eq,
  any, is_some, ltb, nat_eq, if◌then◌else◌,
}
use aira_graphdb.Base.Decimal.{to_string}
use aira_graphdb.Base.Checked.{Checked, valid, ◌>>=◌, ensure}
use aira_graphdb.Persistence.{validate_safe_integer, object, member, quoted, members}

abbrev pub batch_commit_phases : List String
batch_commit_phases =
    "admitted" ∷ "wal_verify" ∷ "prepare_refs" ∷ "vector_write" ∷ "vector_sync" ∷ "vector_publish"
    ∷ "vector_dir_sync" ∷ "json_write" ∷ "json_sync" ∷ "json_publish" ∷ "json_dir_sync" ∷ "wal_zero"
    ∷ "wal_sync" ∷ "complete" ∷ []

pub record ProgressCounters : Type 0 where
  pub completed_units : ℕ
  pub total_units : Option ℕ
  pub completed_bytes : ℕ
  pub total_bytes : Option ℕ

pub record NativeProgressFrame : Type 0 where
  pub id : ℕ
  pub sequence : ℕ
  pub phase : String
  pub counters : ProgressCounters

-- The document as serde reads it.
pub record RawNativeProgressFrame : Type 0 where
  pub schema : String
  pub kind : String
  pub protocol_version : ℕ
  pub method : String
  pub frame : NativeProgressFrame

abbrev pub check_total : String → ℕ → Option ℕ → Checked (Unit {0})
check_total name completed none = valid tt
check_total name completed (some total) = do
  _ ← validate_safe_integer name total true
  ensure (not (ltb total completed)) (name ++ " is below its completed counter")

-- `ProgressCounters::new`, on the record of its arguments
unfoldable pub new_counters : ProgressCounters → Checked ProgressCounters
new_counters c = do
  _ ← validate_safe_integer "completedUnits" c.completed_units true
  _ ← validate_safe_integer "completedBytes" c.completed_bytes true
  _ ← check_total "totalUnits" c.completed_units c.total_units
  _ ← check_total "totalBytes" c.completed_bytes c.total_bytes
  valid c

abbrev pub no_counters : ProgressCounters
no_counters = record {
  completed_units = 0;
  total_units = none;
  completed_bytes = 0;
  total_bytes = none;
}

unfoldable pub admitted : ℕ → Checked NativeProgressFrame
admitted id = do
  _ ← validate_safe_integer "id" id true
  valid record { id = id; sequence = 1; phase = "admitted"; counters = no_counters }

unfoldable pub progress : ℕ → ℕ → String → ProgressCounters → Checked NativeProgressFrame
progress id sequence phase counters = do
  _ ←
      ensure (not (phase == "admitted" || not (any (λ p. p == phase) batch_commit_phases)))
        "subsequent progress phase is invalid"
  _ ← validate_safe_integer "id" id true
  _ ← validate_safe_integer "sequence" sequence false
  _ ← ensure (not (nat_eq sequence 1)) "sequence 1 is reserved for the admitted frame"
  valid record { id = id; sequence = sequence; phase = phase; counters = counters }

abbrev or_null : Option ℕ → String
or_null none = "null"
or_null (some n) = to_string n

abbrev pub frame_schema : String
frame_schema = "NativeProgressFrame@1"

unfoldable pub frame_bytes : NativeProgressFrame → String
unfolding members
frame_bytes f = object (
    member "schema" (quoted frame_schema)
    ∷ member "kind" (quoted "progress")
    ∷ member "protocolVersion" "1"
    ∷ member "id" (to_string f.id)
    ∷ member "sequence" (to_string f.sequence)
    ∷ member "method" (quoted "batch_commit")
    ∷ member "phase" (quoted f.phase)
    ∷ member "completedUnits" (to_string f.counters.completed_units)
    ∷ member "totalUnits" (or_null f.counters.total_units)
    ∷ member "completedBytes" (to_string f.counters.completed_bytes)
    ∷ member "totalBytes" (or_null f.counters.total_bytes)
    ∷ [])

-- The first frame, which has sequence 1 and counts nothing
abbrev pub is_first : NativeProgressFrame → Bool
is_first f =
    nat_eq f.sequence 1
    && (nat_eq f.counters.completed_units 0
        && (not (is_some f.counters.total_units)
            && (nat_eq f.counters.completed_bytes 0 && not (is_some f.counters.total_bytes))))

unfoldable pub validated_frame : NativeProgressFrame → Checked NativeProgressFrame
unfolding admitted progress new_counters
validated_frame f =
    if f.phase == "admitted"
    then (do
      _ ← ensure (is_first f) "the admitted frame must be sequence 1 with zero counters"
      admitted f.id)
    else (do counters ← new_counters f.counters; progress f.id f.sequence f.phase counters)

abbrev pub is_inventory : RawNativeProgressFrame → Bool
is_inventory raw =
    raw.schema == frame_schema
    && (raw.kind == "progress" && (nat_eq raw.protocol_version 1 && raw.method == "batch_commit"))

-- `parse` is `serde_json::from_slice`.
unfoldable pub from_canonical_bytes :
    (String → Checked RawNativeProgressFrame) → String → Checked NativeProgressFrame
unfolding validated_frame frame_bytes
from_canonical_bytes parse raw = do
  parsed ← parse raw
  _ ← ensure (is_inventory parsed) "progress frame schema or inventory is invalid"
  validated ← validated_frame parsed.frame
  _ ← ensure (frame_bytes validated == raw) "progress frame is not canonical JSON"
  valid validated
