-- ===== src/Retrieval/Budget.antt =====
-- `ResourceUsage`, `OutputCounts`, `WorkCounts`, `AllocationInput` and `WorkCounters`: what a request may
-- use, checked against the caps, with every sum and product checked for overflow.
use Prim.Native.String.{◌++◌}
use aira_graphdb.Base.{
  ℕ, ◌+◌, ◌*◌, ◌||◌, String, Option, none, some, List, [], ◌∷◌, ltb, u64_mod, if◌then◌else◌, ◌==◌,
  length,
}
use aira_graphdb.Base.Checked.{Checked, valid, invalid, ◌>>=◌, ok_or}
use aira_graphdb.Retrieval.Json.{Json, get_in, as_array, as_u64}
use aira_graphdb.Retrieval.Caps

-- `checked_add` and `checked_mul`
abbrev pub fits : ℕ → Option ℕ
fits n = if ltb n u64_mod then some n else none

abbrev pub checked_add : ℕ → ℕ → Option ℕ
checked_add a b = fits (a + b)

abbrev pub checked_mul : ℕ → ℕ → Option ℕ
checked_mul a b = fits (a * b)

-- `Option::and_then`
abbrev pub and_then : Option ℕ → (ℕ → Option ℕ) → Option ℕ
and_then none f = none
and_then (some a) f = f a

pub record ResourceUsage : Type 0 where
  pub vector_dimensions : ℕ
  pub vector_comparisons : ℕ
  pub search_slots : ℕ
  pub facts_inspected : ℕ
  pub graph_nodes : ℕ
  pub graph_edges : ℕ
  pub iterations : ℕ
  pub search_result_limit : ℕ
  pub expansion_results : ℕ
  pub seeds : ℕ
  pub returned_passages : ℕ
  pub returned_facts : ℕ
  pub combined_objects : ℕ

-- `ResourceUsage::default`
abbrev pub no_usage : ResourceUsage
no_usage = record {
  vector_dimensions = 0;
  vector_comparisons = 0;
  search_slots = 0;
  facts_inspected = 0;
  graph_nodes = 0;
  graph_edges = 0;
  iterations = 0;
  search_result_limit = 0;
  expansion_results = 0;
  seeds = 0;
  returned_passages = 0;
  returned_facts = 0;
  combined_objects = 0;
}

-- The name, the amount and the cap of each resource
abbrev pub limits : ResourceUsage → List (String × ℕ × ℕ)
limits u =
    ("vector dimensions", u.vector_dimensions, Caps.max_vector_dimensions)
    ∷ ("vector comparisons", u.vector_comparisons, Caps.max_vector_comparisons)
    ∷ ("search slots", u.search_slots, Caps.max_search_slots)
    ∷ ("facts inspected", u.facts_inspected, Caps.max_facts_inspected)
    ∷ ("graph nodes", u.graph_nodes, Caps.max_graph_nodes)
    ∷ ("graph edges", u.graph_edges, Caps.max_graph_edges)
    ∷ ("iterations", u.iterations, Caps.max_iterations)
    ∷ ("search result limit", u.search_result_limit, Caps.max_search_result_limit)
    ∷ ("expansion results", u.expansion_results, Caps.max_expansion_results)
    ∷ ("seeds", u.seeds, Caps.max_seeds)
    ∷ ("returned passages", u.returned_passages, Caps.max_returned_passages)
    ∷ ("returned facts", u.returned_facts, Caps.max_returned_facts)
    ∷ ("combined objects", u.combined_objects, Caps.max_combined_objects)
    ∷ []

unfoldable pub check_limits : List (String × ℕ × ℕ) → Checked (Unit {0})
check_limits [] = valid tt
check_limits ((name, actual, maximum) ∷ rest) =
    let others = check_limits rest in
    if ltb maximum actual then invalid (name ++ " exceeds native hard cap") else others

unfoldable pub check_usage : ResourceUsage → Checked (Unit {0})
unfolding check_limits
check_usage u = check_limits (limits u)

-- `iter().map(read).collect::<Result<Vec<_>, _>>()`
unfoldable pub read_all {ℓ} : {A : Type ℓ} → (Json → Checked A) → List Json → Checked (List A)
read_all read [] = valid []
read_all read (x ∷ xs) = do a ← read x; as_ ← read_all read xs; valid (a ∷ as_)

-- `max().unwrap_or(0)`
abbrev pub maximum : List ℕ → ℕ
maximum [] = 0
maximum (n ∷ ns) = let m = maximum ns in if ltb n m then m else n

abbrev and_get : Option Json → String → Option Json
and_get none key = none
and_get (some j) key = get_in key j

abbrev pub and_array : Option Json → Option (List Json)
and_array none = none
and_array (some j) = as_array j

abbrev pub and_u64 : Option Json → Option ℕ
and_u64 none = none
and_u64 (some j) = as_u64 j

-- A field that is an object
abbrev pub and_object : Option Json → Option Json
and_object none = none
and_object (some (Json.object fs)) = some (Json.object fs)
and_object (some _) = none

abbrev pub array_in : String → Json → String → Checked (List Json)
array_in key json message = ok_or (and_array (get_in key json)) message

abbrev pub u64_in : String → Json → String → Checked ℕ
u64_in key json message = ok_or (and_u64 (get_in key json)) message

abbrev pub vector_length : Json → Checked ℕ
vector_length slot = do
  vector ← array_in "queryVector" slot "candidate queryVector is missing"
  valid (length vector)

abbrev pub slot_limit : Json → Checked ℕ
slot_limit slot = u64_in "limit" slot "candidate limit is not a safe integer"

-- `try_fold` of the limits
unfoldable pub sum_limits : ℕ → List Json → Checked ℕ
sum_limits total [] = valid total
sum_limits total (slot ∷ slots) = do
  limit ← slot_limit slot
  next ← ok_or (checked_add total limit) "candidate aggregate result count overflow"
  sum_limits next slots

unfoldable pub candidate_usage : Json → Checked ResourceUsage
unfolding read_all sum_limits
candidate_usage params = do
  slots ← array_in "slots" params "candidate slots are missing"
  dimensions ← read_all vector_length slots
  limits ← read_all slot_limit slots
  combined ← sum_limits 0 slots
  valid record no_usage {
    search_slots = length slots;
    vector_dimensions = maximum dimensions;
    search_result_limit = maximum limits;
    combined_objects = combined;
  }

unfoldable pub fact_usage : Json → Checked ResourceUsage
fact_usage params = do
  plan ← ok_or (and_object (get_in "plan" params)) "fact plan is missing"
  seeds ← array_in "seedEntities" plan "fact seedEntities is missing"
  limit ← u64_in "limit" plan "fact limit is not a safe integer"
  valid record no_usage { seeds = length seeds; expansion_results = limit }

unfoldable pub ppr_usage : Json → Checked ResourceUsage
ppr_usage params = do
  plan ← ok_or (and_object (get_in "plan" params)) "PPR plan is missing"
  seeds ← array_in "seeds" plan "PPR seeds are missing"
  iterations ← u64_in "maxIterations" plan "PPR maxIterations is not a safe integer"
  passages ← u64_in "passageLimit" plan "PPR passageLimit is not a safe integer"
  facts ← u64_in "entityLimit" plan "PPR entityLimit is not a safe integer"
  combined ← ok_or (checked_add passages facts) "PPR aggregate result count overflow"
  valid record no_usage {
    seeds = length seeds;
    iterations = iterations;
    returned_passages = passages;
    returned_facts = facts;
    combined_objects = combined;
  }

-- `ResourceUsage::for_request`, before its check
unfoldable pub usage_of : String → Json → Checked ResourceUsage
unfolding candidate_usage fact_usage ppr_usage
usage_of method params =
    if method == Caps.candidate_search
    then candidate_usage params
    else if method == Caps.fact_expand
    then fact_usage params
    else if method == Caps.ppr_materialize
    then ppr_usage params
    else invalid ("unsupported bounded operation " ++ method)

unfoldable pub for_request : String → Json → Checked ResourceUsage
unfolding usage_of check_usage
for_request method params = do usage ← usage_of method params; _ ← check_usage usage; valid usage

pub record OutputCounts : Type 0 where
  pub returned_passages : ℕ
  pub returned_facts : ℕ
  pub combined_objects : ℕ

unfoldable pub with_output_counts : ResourceUsage → OutputCounts → Checked ResourceUsage
unfolding check_usage
with_output_counts self output = do
  let usage = record self {
    returned_passages = output.returned_passages;
    returned_facts = output.returned_facts;
    combined_objects = output.combined_objects;
  }
  _ ← check_usage usage
  valid usage

abbrev pub checked_combined_objects : ℕ → ℕ → Checked ℕ
checked_combined_objects passages facts =
    ok_or (checked_add passages facts) "combined object count overflow"

unfoldable pub check_output : OutputCounts → Checked (Unit {0})
check_output o =
    if ltb Caps.max_returned_passages o.returned_passages
      || (ltb Caps.max_returned_facts o.returned_facts
          || ltb Caps.max_combined_objects o.combined_objects)
    then invalid "returned object count exceeds native hard cap"
    else (do
      total ← checked_combined_objects o.returned_passages o.returned_facts
      if ltb o.combined_objects total
          then invalid "combined object count is below returned objects"
          else valid tt)
