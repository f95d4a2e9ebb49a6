-- ===== src/Persistence.antt =====
-- The evidence of commits of `src/native_persistence_contract.rs`. Its bytes
-- are ASCII, and are written as texts here. The JSON parser is a parameter.
pub mod Evidence
pub mod Frames
pub mod Progress
pub mod Policy
pub mod Heartbeats
pub mod Budgets
pub mod Samples
use Prim.Native.Char.{Char, code}
use Prim.Native.String.{◌++◌}
use aira_graphdb.Base.{
  ℕ, zero, suc, ◌+◌, ◌*◌, String, Bool, true, false, not, ◌&&◌, ◌||◌, Option, none, some, List, [],
  ◌∷◌, ◌==◌, string_eq, any, is_some, leb, ltb, nat_eq, u64_mod, if◌then◌else◌,
}
use aira_graphdb.Base.Checked.{Checked, valid, invalid, ◌>>=◌, ensure}
use aira_graphdb.Base.Decimal.{to_string}
use aira_graphdb.Str.{length}

abbrev pub json_safe_integer_max : ℕ
json_safe_integer_max = 9007199254740991

abbrev pub is_safe_integer : ℕ → Bool → Bool
is_safe_integer value allow_zero =
    not (ltb json_safe_integer_max value || (not allow_zero && nat_eq value 0))

abbrev pub validate_safe_integer : String → ℕ → Bool → Checked (Unit {0})
validate_safe_integer name value allow_zero =
    ensure (is_safe_integer value allow_zero)
      (name ++ " is outside the canonical safe-integer range")

abbrev is_hex_digit : Char → Bool
is_hex_digit c =
    (leb b'0' (code c) && leb (code c) b'9') || (leb b'a' (code c) && leb (code c) b'f')

abbrev all_hex : String → Bool
all_hex String.[] = true
all_hex (String.◌∷◌ c s) = is_hex_digit c && all_hex s

unfoldable pub is_lower_hex : String → ℕ → Bool
unfolding length
is_lower_hex value bytes = nat_eq (length value) (bytes * 2) && all_hex value

unfoldable pub validate_lower_hex : String → String → ℕ → Checked (Unit {0})
unfolding is_lower_hex
validate_lower_hex name value bytes =
    ensure (is_lower_hex value bytes)
      (name ++ (" must be " ++ (to_string (bytes * 2) ++ " lowercase hex characters")))

pub record CommitEvidencePayload : Type 0 where
  pub transaction_nonce : String
  pub base_generation : ℕ
  pub generation : ℕ
  pub wal_sha256 : String
  pub wal_bytes : ℕ
  pub wal_record_count : ℕ

-- The document as serde reads it.
pub record RawCommitEvidence : Type 0 where
  pub schema : String
  pub payload : CommitEvidencePayload

-- `base_generation.checked_add(1) == Some(generation)`
abbrev pub is_next : ℕ → ℕ → Bool
is_next base_generation generation =
    ltb (base_generation + 1) u64_mod && nat_eq (base_generation + 1) generation

-- `CommitEvidencePayload::new`, on the record of its arguments
unfoldable pub new_payload : CommitEvidencePayload → Checked CommitEvidencePayload
unfolding validate_lower_hex
new_payload p = do
  _ ← validate_lower_hex "transactionNonce" p.transaction_nonce 32
  _ ← validate_lower_hex "walSha256" p.wal_sha256 32
  _ ← validate_safe_integer "baseGeneration" p.base_generation true
  _ ← validate_safe_integer "generation" p.generation false
  _ ← validate_safe_integer "walBytes" p.wal_bytes false
  _ ← validate_safe_integer "walRecordCount" p.wal_record_count false
  _ ← ensure (is_next p.base_generation p.generation) "generation must equal baseGeneration + 1"
  valid p

abbrev pub quoted : String → String
quoted s = "\"" ++ (s ++ "\"")

abbrev pub member : String → String → String
member name value = quoted name ++ (":" ++ value)

-- The members of an object, in their order
unfoldable pub members : List String → String
members [] = ""
members (m ∷ []) = m
members (m ∷ n ∷ rest) = m ++ ("," ++ members (n ∷ rest))

abbrev pub object : List String → String
object ms = "{" ++ (members ms ++ "}")

unfoldable pub payload_bytes : String → CommitEvidencePayload → String
unfolding members
payload_bytes schema p = object (
    member "schema" (quoted schema)
    ∷ member "transactionNonce" (quoted p.transaction_nonce)
    ∷ member "baseGeneration" (to_string p.base_generation)
    ∷ member "generation" (to_string p.generation)
    ∷ member "walSha256" (quoted p.wal_sha256)
    ∷ member "walBytes" (to_string p.wal_bytes)
    ∷ member "walRecordCount" (to_string p.wal_record_count)
    ∷ [])

abbrev prepared_schema : String
prepared_schema = "PreparedCommitEvidence@1"

abbrev pub commit_schema : String
commit_schema = "CommitEvidence@1"

pub data PreparedCommitEvidence : Type 0 where
  prepared : CommitEvidencePayload → PreparedCommitEvidence

pub data CommitEvidence : Type 0 where
  committed : CommitEvidencePayload → CommitEvidence

unfoldable pub new_prepared : CommitEvidencePayload → Checked PreparedCommitEvidence
unfolding new_payload
new_prepared p = do payload ← new_payload p; valid (prepared payload)

abbrev prepared_bytes : PreparedCommitEvidence → String
prepared_bytes (prepared p) = payload_bytes prepared_schema p

abbrev pub commit_bytes : CommitEvidence → String
commit_bytes (committed p) = payload_bytes commit_schema p

abbrev pub commit_evidence : PreparedCommitEvidence → CommitEvidence
commit_evidence (prepared p) = committed p

-- `parse` is `serde_json::from_slice`.
module _ (parse : String → Checked RawCommitEvidence) where
  unfoldable prepared_from_canonical_bytes : String → Checked PreparedCommitEvidence
  unfolding new_prepared payload_bytes
  prepared_from_canonical_bytes raw = do
    parsed ← parse raw
    _ ← ensure (parsed.schema == prepared_schema) "expected schema PreparedCommitEvidence@1"
    validated ← new_prepared parsed.payload
    _ ← ensure (prepared_bytes validated == raw) "prepared evidence is not canonical JSON"
    valid validated

  unfoldable pub commit_from_canonical_bytes : String → Checked CommitEvidence
  unfolding new_prepared payload_bytes
  commit_from_canonical_bytes raw = do
    parsed ← parse raw
    _ ← ensure (parsed.schema == commit_schema) "expected schema CommitEvidence@1"
    validated ← new_prepared parsed.payload
    _ ←
        ensure (commit_bytes (commit_evidence validated) == raw)
          "commit evidence is not canonical JSON"
    valid (commit_evidence validated)
