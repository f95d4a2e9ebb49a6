-- ===== src/Retrieval/Admit.antt =====
-- The assertions of a contract, the validation of requests and of exchanges, and `admit_request`. The
-- pinned contract is a parameter, as its parser and the digests of its files are; `references` bounds
-- the references of its domain. A recursion without end overflows the stack: it stands with the panics.
use Prim.Native.String.{◌++◌}
use aira_graphdb.Base.{
  ℕ, suc, String, Bool, true, false, not, ◌||◌, Option, none, some, List, [], ◌∷◌, string_eq, any,
  is_empty, length, ltb, nat_eq, if◌then◌else◌,
}
use aira_graphdb.Base.Decimal.{to_string}
use aira_graphdb.Base.Checked.{Checked, valid, invalid}
use aira_graphdb.HashMap
use aira_graphdb.HashMap.{HashMap}
use aira_graphdb.Retrieval.Caps
use aira_graphdb.Retrieval.Json.{Json}
use aira_graphdb.Retrieval.Schema.{ContractNode, Members, Ends, ends, endless, validate_schema}
use aira_graphdb.Retrieval.Pointer.{Outcome, gives, fails, panics, ◌>>=◌, or_fail, bool_value}
use aira_graphdb.Retrieval.Values.{Floats}
use aira_graphdb.Retrieval.Eval.{Normalizer, EvalContext, eval}
use aira_graphdb.Retrieval.Budget.{ResourceUsage, for_request}
use aira_graphdb.Retrieval.Deadline.{least, max_operation_deadline_ms}

pub record OperationContract : Type 0 where
  pub request : ContractNode
  pub result : ContractNode
  pub request_assertions : List Json
  pub exchange_assertions : List Json

-- What the validation reads of a `ProducerContract`
pub record ProducerContract : Type 0 where
  pub operations : HashMap String OperationContract
  pub domain_contract : Members

pub record BoundedRequest : Type 0 where
  pub id : ℕ
  pub method : String
  pub expected_generation : ℕ
  pub remaining_budget_ms : ℕ
  pub params : Json

pub data ReaderState : Type 0 where
  idle recovery_pending busy : ReaderState

pub record RequestAdmission : Type 0 where
  pub native_remainder_ms : ℕ
  pub resource_usage : ResourceUsage

abbrev pub from_ends : {A : Type 0} → Ends A → Outcome A
from_ends (ends (valid a)) = gives a
from_ends (ends (invalid message)) = fails message
from_ends endless = panics

abbrev pub from_checked : {A : Type 0} → Checked A → Outcome A
from_checked (valid a) = gives a
from_checked (invalid message) = fails message

-- A guard: `if test { return Err(..) }`
abbrev pub refuse_if : Bool → String → Outcome (Unit {0})
refuse_if true message = fails message
refuse_if false message = gives tt

abbrev pub is_idle : ReaderState → Bool
is_idle idle = true
is_idle recovery_pending = false
is_idle busy = false

-- `parse_request_frame` on the bytes of a frame
module _ (parse : List ℕ → Outcome BoundedRequest) where
  -- The bytes up to the last one, and the last one
  abbrev split_last : List ℕ → Option (List ℕ × ℕ)
  split_last [] = none
  split_last (b ∷ bs) = elim (split_last bs) [
    | none ↦ some ([], b)
    | some (front, last) ↦ some (b ∷ front, last)
  ]

  abbrev parse_line : Option (List ℕ × ℕ) → Outcome BoundedRequest
  parse_line none = fails "bounded request is not one complete JSON-RPC line"
  parse_line (some (front, last)) = do
    _ ←
        refuse_if (not (nat_eq last b'\n') || any (λ b. nat_eq b b'\n') front)
          "bounded request is not one complete JSON-RPC line"
    _ ← refuse_if (is_empty front) "bounded request JSON is empty"
    parse front

  unfoldable pub parse_request_frame : List ℕ → Outcome BoundedRequest
  parse_request_frame frame = do
    _ ←
        refuse_if (ltb Caps.max_input_frame_bytes (length frame))
          "bounded request frame exceeds 256KiB"
    parse_line (split_last frame)

module _ (f : Floats) where
  unfoldable pub failed_from : EvalContext → ℕ → List Json → Outcome (Option ℕ)
  unfolding eval
  failed_from context index [] = gives none
  failed_from context index (assertion ∷ rest) = do
    let later = failed_from context (suc index) rest
    value ← eval f context assertion none
    holds ← bool_value value "assertion"
    if holds then later else gives (some index)

  unfoldable pub first_failed_assertion : List Json → EvalContext → Outcome (Option ℕ)
  unfolding failed_from
  first_failed_assertion assertions context = failed_from context 0 assertions

  abbrev pub verdict : Option ℕ → Outcome (Unit {0})
  verdict none = gives tt
  verdict (some index) = fails ("producer refinement assertion " ++ (to_string index ++ " failed"))

  unfoldable pub evaluate_assertions : List Json → EvalContext → Outcome (Unit {0})
  unfolding first_failed_assertion
  evaluate_assertions assertions context = do
    failed ← first_failed_assertion assertions context
    verdict failed

  module _ (contract : Outcome ProducerContract) (references : ℕ) where
    abbrev pub operation_of : ProducerContract → String → Outcome OperationContract
    operation_of c method =
        or_fail (HashMap.get method c.operations)
          ("unsupported bounded retrieval operation " ++ method)

    unfoldable pub validate_semantic_request_with_normalizer :
        String → Json → Normalizer → Outcome (Unit {0})
    unfolding validate_schema evaluate_assertions HashMap.get
    validate_semantic_request_with_normalizer method request normalizer = do
      c ← contract
      operation ← operation_of c method
      _ ←
          from_ends
            (validate_schema references c.domain_contract operation.request request "request")
      evaluate_assertions operation.request_assertions
          record { request = request; result = none; normalizer = normalizer }

    abbrev pub no_normalizer : Normalizer
    no_normalizer dependency value = none

    unfoldable pub validate_semantic_request : String → Json → Outcome (Unit {0})
    unfolding validate_semantic_request_with_normalizer
    validate_semantic_request method request =
        validate_semantic_request_with_normalizer method request no_normalizer

    unfoldable pub validate_semantic_exchange :
        String → Json → Json → Normalizer → Outcome (Unit {0})
    unfolding validate_schema evaluate_assertions HashMap.get
    validate_semantic_exchange method request result normalizer = do
      c ← contract
      operation ← operation_of c method
      _ ←
          from_ends
            (validate_schema references c.domain_contract operation.request request "request")
      _ ← from_ends (validate_schema references c.domain_contract operation.result result "result")
      _ ←
          evaluate_assertions operation.request_assertions
            record { request = request; result = none; normalizer = normalizer }
      evaluate_assertions operation.exchange_assertions
          record { request = request; result = some result; normalizer = normalizer }

    unfoldable pub admit_request : BoundedRequest → ℕ → ReaderState → Outcome RequestAdmission
    unfolding validate_semantic_request for_request HashMap.contains_key
    admit_request request committed_generation state = do
      _ ←
          refuse_if
            (ltb Caps.max_safe_generation request.expected_generation
              || ltb Caps.max_safe_generation committed_generation)
            "generation exceeds JSON-safe integer range"
      _ ←
          refuse_if (not (nat_eq request.expected_generation committed_generation))
            "requested generation is stale"
      _ ← refuse_if (not (is_idle state)) "descriptor reader is not idle"
      c ← contract
      _ ←
          refuse_if (not (HashMap.contains_key request.method c.operations))
            "unsupported bounded retrieval method"
      _ ← validate_semantic_request request.method request.params
      usage ← from_checked (for_request request.method request.params)
      gives record {
        native_remainder_ms = least request.remaining_budget_ms max_operation_deadline_ms;
        resource_usage = usage;
      }
