-- ===== src/Errors.antt =====
-- The error type of the engine, `src/errors.rs`: `ErrorCode`, `ErrorCategory`, `GraphDbError`, and
-- the `ErrorRegistry` that is read from the contract `spec/contracts/agdb-error-codes.v1.0.0.json`.
-- The contract's text is read by serde, so a parsed `ErrorCodeSpec` of `src/contracts.rs` is where
-- the model begins.
pub mod Codes
pub mod Registry
pub mod Samples
use mathlib.Core.Option
use aira_graphdb.Base.{
  ℕ, String, Bool, true, false, ◌≡◌, ◌↔◌, ◌⊎◌, inl, inr, refl, Option, none, some, List, [], ◌∷◌,
  ◌==◌, if◌then◌else◌, Eq, nat_eq, string_eq, filter, is_some, arith,
}
use aira_graphdb.HashMap
use aira_graphdb.HashMap.{HashMap}

pub data ErrorCode : Type 0 where
  protocol_version_mismatch : ErrorCode
  unsupported_feature : ErrorCode
  retryable_conflict : ErrorCode
  write_lock_conflict : ErrorCode
  incompatible_format : ErrorCode
  auth_required : ErrorCode
  auth_failed : ErrorCode
  referential_integrity_violation : ErrorCode
  invalid_argument : ErrorCode
  invalid_top_k : ErrorCode
  invalid_threshold : ErrorCode
  invalid_corpus_id : ErrorCode
  invalid_namespace : ErrorCode

pub data ErrorCategory : Type 0 where
  protocol query transaction storage auth integrity validation : ErrorCategory

unfoldable pub as_str : ErrorCode → String
as_str ErrorCode.protocol_version_mismatch = "PROTOCOL_VERSION_MISMATCH"
as_str ErrorCode.unsupported_feature = "UNSUPPORTED_FEATURE"
as_str ErrorCode.retryable_conflict = "RETRYABLE_CONFLICT"
as_str ErrorCode.write_lock_conflict = "WRITE_LOCK_CONFLICT"
as_str ErrorCode.incompatible_format = "INCOMPATIBLE_FORMAT"
as_str ErrorCode.auth_required = "AUTH_REQUIRED"
as_str ErrorCode.auth_failed = "AUTH_FAILED"
as_str ErrorCode.referential_integrity_violation = "REFERENTIAL_INTEGRITY_VIOLATION"
as_str ErrorCode.invalid_argument = "INVALID_ARGUMENT"
as_str ErrorCode.invalid_top_k = "INVALID_TOP_K"
as_str ErrorCode.invalid_threshold = "INVALID_THRESHOLD"
as_str ErrorCode.invalid_corpus_id = "INVALID_CORPUS_ID"
as_str ErrorCode.invalid_namespace = "INVALID_NAMESPACE"

unfoldable pub from_str : String → Option ErrorCode
from_str value =
    if value == "PROTOCOL_VERSION_MISMATCH"
    then some ErrorCode.protocol_version_mismatch
    else if value == "UNSUPPORTED_FEATURE"
    then some ErrorCode.unsupported_feature
    else if value == "RETRYABLE_CONFLICT"
    then some ErrorCode.retryable_conflict
    else if value == "WRITE_LOCK_CONFLICT"
    then some ErrorCode.write_lock_conflict
    else if value == "INCOMPATIBLE_FORMAT"
    then some ErrorCode.incompatible_format
    else if value == "AUTH_REQUIRED"
    then some ErrorCode.auth_required
    else if value == "AUTH_FAILED"
    then some ErrorCode.auth_failed
    else if value == "REFERENTIAL_INTEGRITY_VIOLATION"
    then some ErrorCode.referential_integrity_violation
    else if value == "INVALID_ARGUMENT"
    then some ErrorCode.invalid_argument
    else if value == "INVALID_TOP_K"
    then some ErrorCode.invalid_top_k
    else if value == "INVALID_THRESHOLD"
    then some ErrorCode.invalid_threshold
    else if value == "INVALID_CORPUS_ID"
    then some ErrorCode.invalid_corpus_id
    else if value == "INVALID_NAMESPACE"
    then some ErrorCode.invalid_namespace
    else none

unfoldable pub category : ErrorCode → ErrorCategory
category ErrorCode.protocol_version_mismatch = ErrorCategory.protocol
category ErrorCode.unsupported_feature = ErrorCategory.query
category ErrorCode.retryable_conflict = ErrorCategory.transaction
category ErrorCode.write_lock_conflict = ErrorCategory.storage
category ErrorCode.incompatible_format = ErrorCategory.storage
category ErrorCode.auth_required = ErrorCategory.auth
category ErrorCode.auth_failed = ErrorCategory.auth
category ErrorCode.referential_integrity_violation = ErrorCategory.integrity
category ErrorCode.invalid_argument = ErrorCategory.validation
category ErrorCode.invalid_top_k = ErrorCategory.validation
category ErrorCode.invalid_threshold = ErrorCategory.validation
category ErrorCode.invalid_corpus_id = ErrorCategory.validation
category ErrorCode.invalid_namespace = ErrorCategory.validation

-- `ErrorCategory::from_str`
unfoldable pub category_from_str : String → Option ErrorCategory
category_from_str value =
    if value == "protocol"
    then some ErrorCategory.protocol
    else if value == "query"
    then some ErrorCategory.query
    else if value == "transaction"
    then some ErrorCategory.transaction
    else if value == "storage"
    then some ErrorCategory.storage
    else if value == "auth"
    then some ErrorCategory.auth
    else if value == "integrity"
    then some ErrorCategory.integrity
    else if value == "validation"
    then some ErrorCategory.validation
    else none

pub record GraphDbError : Type 0 where
  pub code : ErrorCode
  pub message : String
  pub details : Option (HashMap String String)

-- `GraphDbError::new`
abbrev pub new : ErrorCode → String → GraphDbError
new code message = record { code = code; message = message; details = none }

-- `unwrap_or_default` is the empty map where there are no details yet.
unfoldable pub with_detail : GraphDbError → String → String → GraphDbError
with_detail self key value =
    let details : HashMap String String = elim self.details [ none ↦ HashMap.empty | some d ↦ d ] in
    record self { details = some (HashMap.insert key value details) }

-- `Result<T, GraphDbError>`
pub data Result {ℓ} (A : Type ℓ) : Type ℓ where
  ok : A → Result A
  err : GraphDbError → Result A

-- The discriminant of a code, which the derived `==` compares.
abbrev discriminant : ErrorCode → ℕ
discriminant ErrorCode.protocol_version_mismatch = 0
discriminant ErrorCode.unsupported_feature = 1
discriminant ErrorCode.retryable_conflict = 2
discriminant ErrorCode.write_lock_conflict = 3
discriminant ErrorCode.incompatible_format = 4
discriminant ErrorCode.auth_required = 5
discriminant ErrorCode.auth_failed = 6
discriminant ErrorCode.referential_integrity_violation = 7
discriminant ErrorCode.invalid_argument = 8
discriminant ErrorCode.invalid_top_k = 9
discriminant ErrorCode.invalid_threshold = 10
discriminant ErrorCode.invalid_corpus_id = 11
discriminant ErrorCode.invalid_namespace = 12

abbrev pub code_beq : ErrorCode → ErrorCode → Bool
code_beq c d = nat_eq (discriminant c) (discriminant d)

pub code_beq_iff : (c d : ErrorCode) → (code_beq c d ≡ true) ↔ (c ≡ d)
code_beq_iff c d = ground arith

instance abbrev pub code_eq : Eq ErrorCode
code_eq = record { beq = code_beq; beq_iff = code_beq_iff }

pub Result-cases {ℓ} :
    {A : Type ℓ} (r : Result A) → ((a : A) × (r ≡ ok a)) ⊎ ((e : GraphDbError) × (r ≡ err e))
Result-cases (ok a) = inl (a, refl)
Result-cases (err e) = inr (e, refl)
