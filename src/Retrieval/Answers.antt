-- ===== src/Retrieval/Answers.antt =====
-- The theorems on responses and on declarations at concrete inputs. The serializer of these samples writes of an envelope
-- nothing but the length that it states, in decimal and in braces.
use aira_graphdb.Base.{
  String, ℕ, ◌+◌, ◌/◌, ◌%◌, ◌≤◌, ◌≡◌, Bool, true, List, [], ◌∷◌, leb, if◌then◌else◌, length,
  length-append, refl, arith,
}
use aira_graphdb.Base.Checked.{valid}
use aira_graphdb.Io.{Bytes}
use aira_graphdb.Retrieval.Caps
use aira_graphdb.Retrieval.Json.{Json, Fields, end, field, object, string}
use aira_graphdb.Retrieval.Opcode.{RefinementHandler, inventory}
use aira_graphdb.Retrieval.Ir.{Specs}
use aira_graphdb.Retrieval.Declared.{parse_refinement_nodes}
use aira_graphdb.Retrieval.Work.{WorkCounts, WorkCounters, check_work}
use aira_graphdb.Retrieval.Response.{
  SuccessEnvelope, ErrorEnvelope, success, encode_success, encode_error,
}
use aira_graphdb.Retrieval.Written.{joined}
use aira_graphdb.Retrieval.Rounds.{at_least, decimal_width}
use aira_graphdb.Retrieval.Stated.{IsStated, encode_success-IsStated, encode_error_returns}

abbrev place : ℕ → ℕ → Bytes
place k n = if leb k n then (48 + n / k % 10) ∷ [] else []

length-place : (k n : ℕ) → length (place k n) ≡ at_least k n
length-place k n = ground arith

abbrev decimal : ℕ → List Bytes
decimal n =
    place 1000000 n
    ∷ place 100000 n
    ∷ place 10000 n
    ∷ place 1000 n
    ∷ place 100 n
    ∷ place 10 n
    ∷ ((48 + n % 10) ∷ [])
    ∷ (125 ∷ [])
    ∷ []

abbrev braced : WorkCounters → List Bytes
braced counters = (123 ∷ []) ∷ decimal counters.response_bytes

abbrev success_pieces : SuccessEnvelope → List Bytes
success_pieces envelope = braced envelope.counters

abbrev error_pieces : ErrorEnvelope → List Bytes
error_pieces envelope = braced envelope.counters

abbrev total : List Bytes → ℕ
total [] = 0
total (piece ∷ rest) = length piece + total rest

length-joined : (ps : List Bytes) → length (joined ps) ≡ total ps
length-joined [] = refl
length-joined (piece ∷ rest) = omega (arith, length-append piece (joined rest), length-joined rest)

length-decimal : (n : ℕ) → length (joined ((123 ∷ []) ∷ decimal n)) ≡ 2 + decimal_width n
unfolding decimal_width
length-decimal n = omega (
  arith,
  length-joined ((123 ∷ []) ∷ decimal n),
  length-place 1000000 n,
  length-place 100000 n,
  length-place 10000 n,
  length-place 1000 n,
  length-place 100 n,
  length-place 10 n,
)

abbrev work : WorkCounts
work = record {
  vector_comparisons = 3;
  facts_inspected = 2;
  iterations = 0;
  nodes_initialized = 0;
  edges_visited = 0;
  graph_scan_units = 0;
  objects_considered_for_encoding = 1;
}

-- There is always memory.
abbrev granted : ℕ → Bool
granted n = true

work_checked : check_work work ≡ valid 6
unfolding check_work
work_checked = refl

encoded :
    encode_success granted success_pieces 7 2 Json.null work ≡ valid (123 ∷ 52 ∷ 125 ∷ 10 ∷ [])
unfolding encode_success
encoded = refl

encode_success-IsStated_example :
    (2 ≤ Caps.max_safe_generation)
    × IsStated success_pieces (success 7 2 Json.null) work (123 ∷ 52 ∷ 125 ∷ 10 ∷ [])
encode_success-IsStated_example =
    encode_success-IsStated granted success_pieces 7 2 Json.null work (123 ∷ 52 ∷ 125 ∷ 10 ∷ [])
      encoded

encode_error_returns_example :
    (bytes : Bytes) × (encode_error granted error_pieces 7 2 work "deadline" "late" ≡ valid bytes)
encode_error_returns_example =
    encode_error_returns granted error_pieces 7 2 work "deadline" "late" 6 2 (omega arith)
      work_checked refl (λ n small. length-decimal n) (omega arith)

-- A declaration for each handler, without fields
declare_all : List (String × RefinementHandler) → Fields
declare_all [] = end
declare_all ((opcode, handler) ∷ rest) =
    field opcode (object (field "fields" (object end) (field "role" (string "expression") end)))
      (declare_all rest)

bare_specs : List (String × RefinementHandler) → Specs
bare_specs [] = []
bare_specs ((opcode, handler) ∷ rest) =
    (opcode, record { role = "expression"; fields = [] }) ∷ bare_specs rest

bare_parsed : parse_refinement_nodes (object (declare_all inventory)) ≡ valid (bare_specs inventory)
unfolding parse_refinement_nodes declare_all bare_specs
bare_parsed = refl
