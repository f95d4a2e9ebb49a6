-- ===== src/Retrieval/Exchange.antt =====
-- What requests and exchanges that are accepted satisfy.
use aira_graphdb.Base.{
  ℕ, suc, ◌≡◌, ◌↔◌, string_eq, String, Bool, true, false, Option, none, some, List, [], ◌∷◌, All,
  refl, ap, ◌∙◌, arith, if◌then◌else◌,
}
use aira_graphdb.Base.Checked.{Checked, valid, invalid}
use aira_graphdb.HashMap
use aira_graphdb.Retrieval.Json.{Json}
use aira_graphdb.Retrieval.Schema.{Ends, ends, endless, done, validate_schema}
use aira_graphdb.Retrieval.Conforms.{Conforms}
use aira_graphdb.Retrieval.Decides.{Refers, validate_schema_iff}
use aira_graphdb.Retrieval.Pointer.{
  Outcome, gives, fails, panics, ◌>>=◌, or_fail, EvalValue, bool_value,
}
use aira_graphdb.Retrieval.Values.{Floats}
use aira_graphdb.Retrieval.Eval.{Normalizer, EvalContext, eval}
use aira_graphdb.Retrieval.Admit.{
  OperationContract, ProducerContract, from_ends, from_checked, refuse_if, failed_from,
  first_failed_assertion, evaluate_assertions, verdict, operation_of,
  validate_semantic_request_with_normalizer, validate_semantic_exchange,
}

-- What a `?` that succeeds has read.
pub bind_gives {ℓ κ} :
    {A : Type ℓ} {B : Type κ} (r : Outcome A) (k : A → Outcome B) (b : B)
    → (r >>= k) ≡ gives b
    → (a : A) × ((r ≡ gives a) × (k a ≡ gives b))
bind_gives (gives a) k b h = (a, (refl, h))
bind_gives (fails message) k b h = absurd cc
bind_gives panics k b h = absurd cc

pub gives_injective {ℓ} : {A : Type ℓ} {a b : A} → gives a ≡ gives b → a ≡ b
gives_injective h = cc

pub or_fail_gives {ℓ} :
    {A : Type ℓ} (o : Option A) (message : String) (a : A)
    → or_fail o message ≡ gives a
    → o ≡ some a
or_fail_gives (some b) message a h = ap some (gives_injective h)
or_fail_gives none message a h = absurd cc

pub refuse_if_gives :
    (b : Bool) (message : String) (u : Unit {0}) → refuse_if b message ≡ gives u → b ≡ false
refuse_if_gives true message u h = absurd (ground arith)
refuse_if_gives false message u h = refl

from_ends_iff : (e : Ends (Unit {0})) → (from_ends e ≡ gives tt) ↔ (e ≡ done)
from_ends_iff (ends (valid _)) = (λ h. refl, λ h. refl)
from_ends_iff (ends (invalid message)) = (λ h. absurd (ground arith), λ h. absurd (ground arith))
from_ends_iff endless = (λ h. absurd cc, λ h. absurd cc)

pub from_checked_gives :
    {A : Type 0} (c : Checked A) (a : A) → from_checked c ≡ gives a → c ≡ valid a
from_checked_gives (valid b) a h = ap valid (gives_injective h)
from_checked_gives (invalid message) a h = absurd cc

-- The context of the assertions on a request, and of those on an exchange
abbrev pub asking : Json → Normalizer → EvalContext
asking request normalizer = record { request = request; result = none; normalizer = normalizer }

abbrev pub answering : Json → Json → Normalizer → EvalContext
answering request result normalizer = record {
  request = request;
  result = some result;
  normalizer = normalizer;
}

module _ (f : Floats) where
  -- An assertion that evaluates to true
  abbrev pub Holds : EvalContext → Json → Type 0
  Holds context assertion =
      (value : EvalValue) × ((eval f context assertion none ≡ gives value)
        × (bool_value value "assertion" ≡ gives true))

  failed_from-none :
      (context : EvalContext) (index : ℕ) (assertions : List Json)
      → failed_from f context index assertions ≡ gives none
      → All (Holds context) assertions
  unfolding failed_from
  failed_from-none context index [] h = tt
  failed_from-none context index (assertion ∷ rest) h =
      let (value, (evaluated, h1)) = bind_gives (eval f context assertion none) _ none h in
      let (holds, (tested, h2)) = bind_gives (bool_value value "assertion") _ none h1 in
      let (is_true, later) = chosen holds h2 in
      (
        (value, (evaluated, tested ∙ ap gives is_true)),
        failed_from-none context (suc index) rest later,
      )
    where
      chosen :
          (b : Bool)
          → (if b then failed_from f context (suc index) rest else gives (some index)) ≡ gives none
          → (b ≡ true) × (failed_from f context (suc index) rest ≡ gives none)
      chosen true h = (refl, h)
      chosen false h = absurd cc

  failed_from-of_All :
      (context : EvalContext) (index : ℕ) (assertions : List Json)
      → All (Holds context) assertions
      → failed_from f context index assertions ≡ gives none
  unfolding failed_from
  failed_from-of_All context index [] h = refl
  failed_from-of_All context index (assertion ∷ rest) ((value, (evaluated, tested)), others) =
      rw (evaluated, tested) (failed_from-of_All context (suc index) rest others)

  -- No assertion fails exactly if each evaluates to true.
  pub evaluate_assertions_iff :
      (assertions : List Json) (context : EvalContext)
      → (evaluate_assertions f assertions context ≡ gives tt) ↔ All (Holds context) assertions
  unfolding evaluate_assertions first_failed_assertion
  evaluate_assertions_iff assertions context = (
    λ h.
        let (failed, (found, h1)) = bind_gives (failed_from f context 0 assertions) _ tt h in
        failed_from-none context 0 assertions (found ∙ ap gives (no_index failed h1)),
    λ h. rw (failed_from-of_All context 0 assertions h) refl,
  )
    where
      no_index : (failed : Option ℕ) → verdict f failed ≡ gives tt → failed ≡ none
      no_index none h = refl
      no_index (some index) h = absurd (ground arith)

  module _ (contract : Outcome ProducerContract) (references : ℕ) where
    -- What the contract of an operation says of a request.
    pub record IsRequest (method : String) (request : Json) (normalizer : Normalizer) : Type 0 where
      pub pinned : ProducerContract
      pub operation : OperationContract
      pub is_pinned : contract ≡ gives pinned
      pub is_operation : HashMap.get method pinned.operations ≡ some operation
      pub request_conforms :
          Conforms (Refers references pinned.domain_contract) operation.request request
      pub request_holds : All (Holds (asking request normalizer)) operation.request_assertions

    -- The same for a request alone.
    pub validate_semantic_request_iff :
        (method : String) (request : Json) (normalizer : Normalizer)
        → (validate_semantic_request_with_normalizer f contract references method request normalizer
            ≡ gives tt)
          ↔ IsRequest method request normalizer
    unfolding validate_semantic_request_with_normalizer
    validate_semantic_request_iff method request normalizer = (forward, backward)
      where
        forward :
            validate_semantic_request_with_normalizer f contract references method request
                normalizer
              ≡ gives tt
            → IsRequest method request normalizer
        forward h =
            let (c, (pinned, h1)) = bind_gives contract _ tt h in
            let (operation, (found, h2)) =
              bind_gives (operation_of f contract references c method) _ tt h1 in
            let (_, (checked, h3)) =
              bind_gives
                (from_ends (
                  validate_schema references c.domain_contract operation.request request "request"))
                _ tt h2 in
            record {
              pinned = c;
              operation = operation;
              is_pinned = pinned;
              is_operation = or_fail_gives (HashMap.get method c.operations) _ operation found;
              request_conforms =
                  (validate_schema_iff references c.domain_contract operation.request request
                      "request").0
                    ((from_ends_iff _).0 checked);
              request_holds =
                  (evaluate_assertions_iff operation.request_assertions
                      (asking request normalizer)).0
                    h3;
            }

        backward :
            IsRequest method request normalizer
            → validate_semantic_request_with_normalizer f contract references method request
                normalizer
              ≡ gives tt
        backward e =
            let checked =
              (validate_schema_iff references e.pinned.domain_contract e.operation.request request
                  "request").1
                e.request_conforms in
            rw (e.is_pinned, e.is_operation, checked)
              ((evaluate_assertions_iff e.operation.request_assertions
                  (asking request normalizer)).1
                e.request_holds)

    -- What it says of a result besides.
    pub record IsResult (method : String) (request result : Json) (normalizer : Normalizer)
        : Type 0 where
      pub asked : IsRequest method request normalizer
      pub result_conforms :
          Conforms (Refers references asked.pinned.domain_contract) asked.operation.result result
      pub exchange_holds :
          All (Holds (answering request result normalizer)) asked.operation.exchange_assertions

    -- A request and its result are accepted exactly if there is a pinned contract with this method,
    -- both conform to its schemas, every assertion on the request evaluates to true on the request
    -- alone, and every assertion on the exchange evaluates to true on both.
    pub validate_semantic_exchange_iff :
        (method : String) (request result : Json) (normalizer : Normalizer)
        → (validate_semantic_exchange f contract references method request result normalizer
            ≡ gives tt)
          ↔ IsResult method request result normalizer
    unfolding validate_semantic_exchange
    validate_semantic_exchange_iff method request result normalizer = (forward, backward)
      where
        forward :
            validate_semantic_exchange f contract references method request result normalizer
              ≡ gives tt
            → IsResult method request result normalizer
        forward h =
            let (c, (pinned, h1)) = bind_gives contract _ tt h in
            let (operation, (found, h2)) =
              bind_gives (operation_of f contract references c method) _ tt h1 in
            let (_, (request_checked, h3)) =
              bind_gives
                (from_ends (
                  validate_schema references c.domain_contract operation.request request "request"))
                _ tt h2 in
            let (_, (result_checked, h4)) =
              bind_gives
                (from_ends
                  (validate_schema references c.domain_contract operation.result result "result"))
                _ tt h3 in
            let (_, (asserted, h5)) =
              bind_gives
                (evaluate_assertions f operation.request_assertions (asking request normalizer)) _
                tt h4 in
            record {
              asked = record {
                pinned = c;
                operation = operation;
                is_pinned = pinned;
                is_operation = or_fail_gives (HashMap.get method c.operations) _ operation found;
                request_conforms =
                    (validate_schema_iff references c.domain_contract operation.request request
                        "request").0
                      ((from_ends_iff _).0 request_checked);
                request_holds =
                    (evaluate_assertions_iff operation.request_assertions
                        (asking request normalizer)).0
                      asserted;
              };
              result_conforms =
                  (validate_schema_iff references c.domain_contract operation.result result
                      "result").0
                    ((from_ends_iff _).0 result_checked);
              exchange_holds =
                  (evaluate_assertions_iff operation.exchange_assertions
                      (answering request result normalizer)).0
                    h5;
            }

        backward :
            IsResult method request result normalizer
            → validate_semantic_exchange f contract references method request result normalizer
              ≡ gives tt
        backward e =
            let a = e.asked in
            let request_checked =
              (validate_schema_iff references a.pinned.domain_contract a.operation.request request
                  "request").1
                a.request_conforms in
            let result_checked =
              (validate_schema_iff references a.pinned.domain_contract a.operation.result result
                  "result").1
                e.result_conforms in
            let asserted =
              (evaluate_assertions_iff a.operation.request_assertions (asking request normalizer)).1
                a.request_holds in
            rw (a.is_pinned, a.is_operation, request_checked, result_checked, asserted)
              ((evaluate_assertions_iff a.operation.exchange_assertions
                  (answering request result normalizer)).1
                e.exchange_holds)
