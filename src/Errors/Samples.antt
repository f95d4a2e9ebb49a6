-- ===== src/Errors/Samples.antt =====
-- The theorems on error codes at concrete codes and at a small contract.
use aira_graphdb.Base.{◌≡◌, refl, [], ◌∷◌, string_eq}
use aira_graphdb.HashMap
use aira_graphdb.Errors.{ErrorCode, ErrorCategory}
use aira_graphdb.Errors.Registry.{ErrorCodeSpec, ErrorRegistry, built, from_spec}

abbrev spec : ErrorCodeSpec
spec = record {
  spec_id = "AGDB-ERROR-CODES@1.0.0";
  codes =
      record { code = "AUTH_FAILED"; category = "auth"; description = "refused token" }
      ∷ record { code = "INVALID_TOP_K"; category = "validation"; description = "bad limit" }
      ∷ [];
}

abbrev registry : ErrorRegistry
registry = record {
  definitions =
      (
        ErrorCode.auth_failed,
        record {
          code = ErrorCode.auth_failed;
          category = ErrorCategory.auth;
          description = "refused token";
        },
      )
      ∷ (
        ErrorCode.invalid_top_k,
        record {
          code = ErrorCode.invalid_top_k;
          category = ErrorCategory.validation;
          description = "bad limit";
        },
      )
      ∷ [];
}

builds : from_spec spec ≡ built registry
unfolding from_spec HashMap.contains_key HashMap.insert
builds = refl
