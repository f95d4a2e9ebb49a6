-- ===== src/Errors/Codes.antt =====
-- The names of the error codes: printing and parsing are inverse to one another.
use aira_graphdb.Base.{
  String, ◌≡◌, refl, Option, none, some, arith, eq_iff, ◌==◌, if◌then◌else◌, Bool-cases, inl, inr,
}
use aira_graphdb.Errors.{ErrorCode, as_str, from_str}

-- Every code is parsed back from its name.
pub from_str-as_str : (c : ErrorCode) → from_str (as_str c) ≡ some c
unfolding from_str as_str
from_str-as_str ErrorCode.protocol_version_mismatch = refl
from_str-as_str _ = refl

-- One test of `from_str`: where it passes, the name is the one that it tests for.
rung :
    (s : String) (d c : ErrorCode) (rest : Option ErrorCode)
    → (rest ≡ some c → as_str c ≡ s)
    → (if s == as_str d then some d else rest) ≡ some c
    → as_str c ≡ s
rung s d c rest below h = elim (Bool-cases (s == as_str d)) [
  | inl same ↦ ground (arith, eq_iff s (as_str d))
  | inr other ↦ below (ground arith)
]

no_code : (s : String) (c : ErrorCode) → none ≡ some c → as_str c ≡ s
no_code s c h = cc

-- Only the name of a code is parsed to it.
pub as_str_of_from_str : (s : String) (c : ErrorCode) → from_str s ≡ some c → as_str c ≡ s
unfolding from_str as_str
as_str_of_from_str s c = rung s ErrorCode.protocol_version_mismatch c _ (
    rung s ErrorCode.unsupported_feature c _ (
      rung s ErrorCode.retryable_conflict c _ (
        rung s ErrorCode.write_lock_conflict c _ (
          rung s ErrorCode.incompatible_format c _ (
            rung s ErrorCode.auth_required c _ (
              rung s ErrorCode.auth_failed c _ (
                rung s ErrorCode.referential_integrity_violation c _ (
                  rung s ErrorCode.invalid_argument c _ (
                    rung s ErrorCode.invalid_top_k c _ (
                      rung s ErrorCode.invalid_threshold c _ (
                        rung s ErrorCode.invalid_corpus_id c _
                          (rung s ErrorCode.invalid_namespace c _ (no_code s c)))))))))))))
