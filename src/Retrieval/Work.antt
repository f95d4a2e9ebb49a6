-- ===== src/Retrieval/Work.antt =====
-- `WorkCounts`, `AllocationInput` and `WorkCounters`: sums of work and of bytes, checked for overflow
-- and against the caps.
use aira_graphdb.Base.{ℕ, Bool, ◌||◌, Option, List, [], ◌∷◌, ltb, if◌then◌else◌}
use aira_graphdb.Base.Checked.{Checked, valid, invalid, ◌>>=◌, ok_or}
use aira_graphdb.Retrieval.Caps
use aira_graphdb.Retrieval.Budget.{checked_add, checked_mul, and_then}

pub record WorkCounts : Type 0 where
  pub vector_comparisons : ℕ
  pub facts_inspected : ℕ
  pub iterations : ℕ
  pub nodes_initialized : ℕ
  pub edges_visited : ℕ
  pub graph_scan_units : ℕ
  pub objects_considered_for_encoding : ℕ

unfoldable pub checked_work_units : WorkCounts → Checked ℕ
checked_work_units w =
    ok_or
      (and_then
        (and_then (checked_add w.vector_comparisons w.facts_inspected)
          λ value. checked_add value w.graph_scan_units)
        λ value. checked_add value w.objects_considered_for_encoding)
      "aggregate work addition overflow"

abbrev pub above_caps : WorkCounts → Bool
above_caps w =
    ltb Caps.max_vector_comparisons w.vector_comparisons
    || (ltb Caps.max_facts_inspected w.facts_inspected
        || (ltb Caps.max_iterations w.iterations
            || (ltb Caps.max_graph_nodes w.nodes_initialized
                || (ltb Caps.max_graph_edges w.edges_visited
                    || (ltb Caps.max_graph_scan_units w.graph_scan_units
                        || ltb Caps.max_combined_objects w.objects_considered_for_encoding)))))

unfoldable pub check_work : WorkCounts → Checked ℕ
unfolding checked_work_units
check_work w =
    if above_caps w then invalid "work count exceeds native hard cap" else checked_work_units w

pub record AllocationInput : Type 0 where
  pub vector_values : ℕ
  pub seed_entries : ℕ
  pub result_entries : ℕ
  pub ppr_score_entries : ℕ
  pub ppr_node_entries : ℕ
  pub ppr_edge_entries : ℕ
  pub heap_entries : ℕ
  pub retained_object_entries : ℕ
  pub scratch_bytes : ℕ
  pub response_buffer_bytes : ℕ

-- `and_then(|value| value.checked_add(n))` for one number after the other
abbrev pub add_all : Option ℕ → List ℕ → Option ℕ
add_all value [] = value
add_all value (n ∷ ns) = add_all (and_then value λ v. checked_add v n) ns

unfoldable pub checked_capacity_bytes : AllocationInput → Checked ℕ
checked_capacity_bytes a = do
  vector ← ok_or (checked_mul a.vector_values 8) "vector allocation multiplication overflow"
  seeds ← ok_or (checked_mul a.seed_entries 64) "seed allocation multiplication overflow"
  results ← ok_or (checked_mul a.result_entries 64) "result allocation multiplication overflow"
  scores ←
      ok_or (and_then (checked_mul a.ppr_score_entries 3) λ value. checked_mul value 8)
        "PPR score allocation multiplication overflow"
  nodes ← ok_or (checked_mul a.ppr_node_entries 192) "PPR node allocation multiplication overflow"
  edges ← ok_or (checked_mul a.ppr_edge_entries 64) "PPR edge allocation multiplication overflow"
  heaps ← ok_or (checked_mul a.heap_entries 64) "heap allocation multiplication overflow"
  retained ←
      ok_or (checked_mul a.retained_object_entries Caps.max_object_bytes)
        "retained object allocation multiplication overflow"
  ok_or
      (add_all (checked_add vector seeds) (
        results ∷ scores ∷ nodes ∷ edges ∷ heaps ∷ retained ∷ a.scratch_bytes
        ∷ a.response_buffer_bytes ∷ []))
      "transient allocation addition overflow"

unfoldable pub check_allocation : AllocationInput → Checked ℕ
unfolding checked_capacity_bytes
check_allocation a =
    if ltb Caps.max_response_frame_bytes a.response_buffer_bytes
    then invalid "response buffer exceeds response frame cap"
    else (do
      bytes ← checked_capacity_bytes a
      if ltb Caps.max_transient_bytes bytes
          then invalid "transient allocation exceeds native hard cap"
          else valid bytes)

pub record WorkCounters : Type 0 where
  pub work : WorkCounts
  pub work_units : ℕ
  pub response_bytes : ℕ

unfoldable pub from_work : WorkCounts → ℕ → Checked WorkCounters
unfolding check_work
from_work work response_bytes = do
  units ← check_work work
  if ltb Caps.max_response_frame_bytes response_bytes
      then invalid "response bytes exceed native hard cap"
      else valid record { work = work; work_units = units; response_bytes = response_bytes }
