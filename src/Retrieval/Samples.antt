-- ===== src/Retrieval/Samples.antt =====
-- The retrieval theorems at concrete inputs: a contract whose one operation expands facts by a plan,
-- with a limit on the plan and on the result. The numbers of these samples are whole.
use aira_graphdb.Base.{
  ℕ, zero, suc, ◌+◌, ◌*◌, ◌≤◌, ◌<◌, ◌≡◌, ◌≢◌, ◌↔◌, String, true, none, some, List, [], ◌∷◌, length,
  refl, arith, ltb, leb, if◌then◌else◌, string_eq, ◌==◌, ap, Bool-cases, inl, inr,
}
use aira_graphdb.Base.Checked.{valid}
use mathlib.Core.Path.{subst}
use aira_graphdb.Retrieval.Caps
use aira_graphdb.Retrieval.Json.{
  Json, number, string, array, object, nil, cons, end, field, pos_int,
}
use aira_graphdb.Retrieval.Schema.{
  ContractNode, any_string, any_number, array_of, object_of, external_ref, Members, no_members,
  member, done, endless, validate_schema, contract_of, domain_version,
}
use aira_graphdb.Retrieval.Conforms.{Conforms}
use aira_graphdb.Retrieval.Decides.{Refers, validate_schema_iff}
use aira_graphdb.Retrieval.Finite.{AllRefs, validate_schema-ends}
use aira_graphdb.Retrieval.Reader.{parse_contract_node, contract_node_json}
use aira_graphdb.Retrieval.Printed.{IsPrintable, parse_contract_node-json}
use aira_graphdb.Retrieval.Pointer.{Outcome, gives, validate_json_pointer}
use aira_graphdb.Retrieval.Values.{Floats}
use aira_graphdb.Retrieval.Eval.{Normalizer}
use aira_graphdb.Retrieval.Staged.{mentions_result, evaluate_assertions_staged}
use aira_graphdb.Retrieval.Budget.{no_usage}
use aira_graphdb.Retrieval.Work.{WorkCounts, AllocationInput, check_allocation}
use aira_graphdb.Retrieval.Bounds.{capacity, check_allocation_iff}
use aira_graphdb.Retrieval.Deadline.{
  on_time, MonotonicDeadline, new_deadline, checkpoints, deadline_check_interval_units,
}
use aira_graphdb.Retrieval.Clock.{
  IsAdvancing, checkpoints_on_time, IsTimely, last_call, checkpoints_expire,
}
use aira_graphdb.Retrieval.Admit.{
  ProducerContract, BoundedRequest, idle, RequestAdmission, evaluate_assertions,
  validate_semantic_exchange, admit_request,
}
use aira_graphdb.Retrieval.Exchange.{IsResult, validate_semantic_exchange_iff}
use aira_graphdb.Retrieval.Admission.{IsAdmitted, admit_request-IsAdmitted}

abbrev floats : Floats
floats = record {
  from_u64 = λ n. n;
  from_negative = λ n. 0;
  lt = ltb;
  le = leb;
  mul = λ a b. a * b;
  max = λ a b. if leb a b then b else a;
  is_whole = λ n. true;
  to_usize = λ n. n;
}

abbrev int : ℕ → Json
int n = number (pos_int n)

abbrev plan_node : ContractNode
plan_node =
    object_of (member "limit" any_number (member "seedEntities" (array_of any_string) no_members))

abbrev domain : Members
domain = member "plan" plan_node no_members

abbrev request_node : ContractNode
request_node = object_of (member "plan" (external_ref domain_version "plan") no_members)

abbrev result_node : ContractNode
result_node = object_of (member "facts" (array_of any_string) no_members)

abbrev pointer_to : String → String → Json
pointer_to root path =
    object
      (field "op" (string "pointer") (field "path" (string path) (field "root" (string root) end)))

-- The limit of the plan is at most ten.
abbrev small_limit : Json
small_limit = object (
    field "left" (pointer_to "request" "/plan/limit") (
      field "op" (string "lte")
        (field "right" (object (field "op" (string "literal") (field "value" (int 10) end))) end)))

-- There are at most as many facts as the limit says.
abbrev few_facts : Json
few_facts = object (
    field "actual" (pointer_to "result" "/facts") (
      field "limit" (pointer_to "request" "/plan/limit")
        (field "op" (string "length_lte_ref") end)))

abbrev contract : Outcome ProducerContract
contract = gives record {
  operations =
      (
        Caps.fact_expand,
        record {
          request = request_node;
          result = result_node;
          request_assertions = small_limit ∷ [];
          exchange_assertions = few_facts ∷ [];
        },
      )
      ∷ [];
  domain_contract = domain;
}

abbrev params : Json
params = object (
    field "plan"
      (object (
        field "limit" (int 2)
          (field "seedEntities" (array (cons (string "a") (cons (string "b") nil))) end)))
      end)

abbrev answer : Json
answer = object (field "facts" (array (cons (string "f") nil)) end)

abbrev nothing : Normalizer
nothing dependency value = none

exchange_accepted :
    validate_semantic_exchange floats contract 1 Caps.fact_expand params answer nothing ≡ gives tt
unfolding validate_semantic_exchange
exchange_accepted = refl

validate_semantic_exchange_iff_example :
    (validate_semantic_exchange floats contract 1 Caps.fact_expand params answer nothing ≡ gives tt)
    ↔ IsResult floats contract 1 Caps.fact_expand params answer nothing
validate_semantic_exchange_iff_example =
    validate_semantic_exchange_iff floats contract 1 Caps.fact_expand params answer nothing

abbrev request : BoundedRequest
request = record {
  id = 1;
  method = Caps.fact_expand;
  expected_generation = 4;
  remaining_budget_ms = 90000;
  params = params;
}

abbrev admission : RequestAdmission
admission = record {
  native_remainder_ms = 60000;
  resource_usage = record no_usage { seeds = 2; expansion_results = 2 };
}

request_admitted : admit_request floats contract 1 request 4 idle ≡ gives admission
unfolding admit_request
request_admitted = refl

admit_request-IsAdmitted_example : IsAdmitted floats contract 1 request 4 idle admission
admit_request-IsAdmitted_example =
    admit_request-IsAdmitted floats contract 1 request 4 idle admission request_admitted

abbrev work : WorkCounts
work = record {
  vector_comparisons = 10;
  facts_inspected = 20;
  iterations = 3;
  nodes_initialized = 5;
  edges_visited = 6;
  graph_scan_units = 30;
  objects_considered_for_encoding = 4;
}

abbrev allocation : AllocationInput
allocation = record {
  vector_values = 4096;
  seed_entries = 2;
  result_entries = 2;
  ppr_score_entries = 0;
  ppr_node_entries = 0;
  ppr_edge_entries = 0;
  heap_entries = 0;
  retained_object_entries = 1;
  scratch_bytes = 0;
  response_buffer_bytes = 1024;
}

check_allocation_iff_example : (check_allocation allocation ≡ valid 296192) ↔ (
    (allocation.response_buffer_bytes ≤ Caps.max_response_frame_bytes)
    × (capacity allocation ≤ Caps.max_transient_bytes)
    × (296192 ≡ capacity allocation))
check_allocation_iff_example = check_allocation_iff allocation 296192

validate_schema_iff_example :
    (validate_schema 1 domain request_node params "request" ≡ done)
    ↔ Conforms (Refers 1 domain) request_node params
validate_schema_iff_example = validate_schema_iff 1 domain request_node params "request"

-- The plan refers to nothing.
abbrev level : String → ℕ
level kind = 0

plan_found :
    (kind : String) (child : ContractNode)
    → contract_of kind domain ≡ some child
    → AllRefs (λ k. level k < level kind) child
plan_found kind child h = elim (Bool-cases ("plan" == kind)) [
  | inl same ↦
      let found = rw same at h in
      let is_plan : plan_node ≡ child = cc in
      subst (AllRefs (λ k. level k < level kind)) is_plan (unfold AllRefs in (tt, (tt, tt)))
  | inr other ↦ let missing = rw other at h in absurd cc
]

validate_schema-ends_example : validate_schema 1 domain request_node params "request" ≢ endless
validate_schema-ends_example =
    validate_schema-ends domain level 1 request_node params "request" plan_found
      (unfold AllRefs in (omega arith, tt))

parse_contract_node-json_example :
    parse_contract_node (contract_node_json request_node) "request" ≡ valid request_node
parse_contract_node-json_example =
    parse_contract_node-json request_node "request" (unfold IsPrintable in (tt, tt))

path_valid : validate_json_pointer "/plan/limit" "path" ≡ valid tt
unfolding validate_json_pointer
path_valid = refl

evaluate_assertions_staged_example :
    evaluate_assertions floats
      (small_limit ∷ [])
      record { request = params; result = none; normalizer = nothing }
    ≡ evaluate_assertions floats
        (small_limit ∷ [])
        record { request = params; result = some answer; normalizer = nothing }
evaluate_assertions_staged_example =
    evaluate_assertions_staged floats params nothing none (some answer) (small_limit ∷ [])
      (unfold mentions_result in refl)

abbrev deadline : MonotonicDeadline
deadline = record { deadline_ms = 1500; last_now_ms = 1000; completed_units = 0 }

abbrev calls : List (ℕ × ℕ)
calls = (1000, 1000) ∷ (1200, 2000) ∷ []

calls_on_time :
    checkpoints calls deadline
    ≡ (on_time tt, record deadline { last_now_ms = 1200; completed_units = 2000 })
unfolding checkpoints
calls_on_time = refl

checkpoints_on_time_example :
    IsTimely 1500 1000 0 calls
    × ((1200, 2000) ≡ last_call (1000, 0) calls)
    × (1000 ≤ 1200)
    × (0 ≤ 2000)
    × (2000 ≤ 0 + length calls * deadline_check_interval_units)
    × (◌≡◌ {A = ℕ} 1500 1500)
checkpoints_on_time_example =
    checkpoints_on_time calls deadline
      record deadline { last_now_ms = 1200; completed_units = 2000 } calls_on_time

-- Calls at each millisecond, with no work
ticks : ℕ → ℕ → List (ℕ × ℕ)
ticks zero now = []
ticks (suc n) now = (now, 0) ∷ ticks n (now + 1)

ticks-IsAdvancing : (n now : ℕ) → IsAdvancing now (ticks n now)
unfolding ticks
ticks-IsAdvancing zero now = tt
ticks-IsAdvancing (suc n) now = (omega arith, ticks-IsAdvancing n (now + 1))

length-ticks : (n now : ℕ) → length (ticks n now) ≡ n
unfolding ticks
length-ticks zero now = refl
length-ticks (suc n) now = ap suc (length-ticks n (now + 1))

abbrev long_deadline : MonotonicDeadline
long_deadline = record { deadline_ms = 61000; last_now_ms = 1000; completed_units = 0 }

long_deadline_new : new_deadline 1000 90000 ≡ on_time long_deadline
unfolding new_deadline
long_deadline_new = refl

checkpoints_expire_example : (checkpoints (ticks 60001 1000) long_deadline).0 ≢ on_time tt
checkpoints_expire_example =
    checkpoints_expire 1000 90000 (ticks 60001 1000) long_deadline long_deadline_new
      (ticks-IsAdvancing 60001 1000) (omega (arith, length-ticks 60001 1000))
