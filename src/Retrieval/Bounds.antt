-- ===== src/Retrieval/Bounds.antt =====
-- The bounds that the budgets keep, and that their checked arithmetic is exact.
use Prim.Native.String.{◌++◌}
use aira_graphdb.Base.{
  All, sym, Bool-cases, inl, inr, ℕ, ◌+◌, ◌*◌, ◌≤◌, ◌<◌, ◌≡◌, ◌↔◌, String, Bool, true, false, List,
  [], ◌∷◌, refl, arith, ltb, u64_mod, if◌then◌else◌, ◌∙◌, ap,
}
use aira_graphdb.Base.Checked.{valid, invalid, ok_or, bind_valid, valid_injective}
use aira_graphdb.Retrieval.Caps
use mathlib.Core.Path.{subst}
use aira_graphdb.Retrieval.Json.{Json}
use aira_graphdb.Retrieval.Budget.{
  fits, checked_add, checked_mul, and_then, ResourceUsage, limits, check_limits, check_usage,
  usage_of, for_request,
}
use aira_graphdb.Retrieval.Work.{
  WorkCounts, checked_work_units, above_caps, check_work, add_all, AllocationInput,
  checked_capacity_bytes, check_allocation,
}

-- Nothing of the usage is above its cap.
pub record IsWithin (u : ResourceUsage) : Type 0 where
  pub dimensions : u.vector_dimensions ≤ Caps.max_vector_dimensions
  pub comparisons : u.vector_comparisons ≤ Caps.max_vector_comparisons
  pub slots : u.search_slots ≤ Caps.max_search_slots
  pub facts : u.facts_inspected ≤ Caps.max_facts_inspected
  pub nodes : u.graph_nodes ≤ Caps.max_graph_nodes
  pub edges : u.graph_edges ≤ Caps.max_graph_edges
  pub rounds : u.iterations ≤ Caps.max_iterations
  pub results : u.search_result_limit ≤ Caps.max_search_result_limit
  pub expansions : u.expansion_results ≤ Caps.max_expansion_results
  pub starts : u.seeds ≤ Caps.max_seeds
  pub passages : u.returned_passages ≤ Caps.max_returned_passages
  pub found : u.returned_facts ≤ Caps.max_returned_facts
  pub objects : u.combined_objects ≤ Caps.max_combined_objects

check_limits_lem :
    (limits : List (String × ℕ × ℕ)) → check_limits limits ≡ valid tt → All (λ l. l.1 ≤ l.2) limits
unfolding check_limits
check_limits_lem [] h = tt
check_limits_lem ((name, actual, most) ∷ rest) h =
    let (here, there) = split (ltb most actual) h in
    (ground (arith, here), check_limits_lem rest there)
  where
    split :
        (b : Bool)
        → (if b then invalid (name ++ " exceeds native hard cap") else check_limits rest) ≡ valid tt
        → (b ≡ false) × (check_limits rest ≡ valid tt)
    split true h = absurd cc
    split false h = (refl, h)

check_usage-IsWithin : (u : ResourceUsage) → check_usage u ≡ valid tt → IsWithin u
unfolding check_usage
check_usage-IsWithin u h = let all_within = check_limits_lem (limits u) h in omega arith

-- The usage that is found for a request of any method is returned only if each of its thirteen
-- amounts is within its cap.
pub for_request-IsWithin :
    (method : String) (params : Json) (u : ResourceUsage)
    → for_request method params ≡ valid u
    → (usage_of method params ≡ valid u) × IsWithin u
unfolding for_request
for_request-IsWithin method params u h =
    let (v, (used, h1)) = bind_valid (usage_of method params) _ u h in
    let (t, (checked, h2)) = bind_valid (check_usage v) _ u h1 in
    let same : v ≡ u = valid_injective h2 in
    (used ∙ h2, subst IsWithin same (check_usage-IsWithin v checked))

-- One sum of two numbers that fit stays exact.
fits-add : (a b : ℕ) → and_then (fits a) (λ v. checked_add v b) ≡ fits (a + b)
fits-add a b = ground arith

fits-mul : (a : ℕ) → and_then (checked_mul a 3) (λ v. checked_mul v 8) ≡ fits (a * 24)
fits-mul a = ground arith

pub ok_or-fits :
    (n : ℕ) (message : String) (v : ℕ) → ok_or (fits n) message ≡ valid v → (v ≡ n) × (n < u64_mod)
ok_or-fits n message v h = ground arith

fits-ok_or : (n : ℕ) (message : String) → n < u64_mod → ok_or (fits n) message ≡ valid n
fits-ok_or n message h = ground arith

-- The units of work of a request
abbrev pub total_work : WorkCounts → ℕ
total_work w =
    w.vector_comparisons + w.facts_inspected + w.graph_scan_units
    + w.objects_considered_for_encoding

checked_work_units_lem :
    (w : WorkCounts)
    → checked_work_units w ≡ ok_or (fits (total_work w)) "aggregate work addition overflow"
unfolding checked_work_units
checked_work_units_lem w =
    let a = w.vector_comparisons in
    let b = w.facts_inspected in
    let c = w.graph_scan_units in
    let d = w.objects_considered_for_encoding in
    ap (λ o. ok_or o "aggregate work addition overflow")
      (ap (λ o. and_then o (λ v. checked_add v d)) (fits-add (a + b) c) ∙ fits-add (a + b + c) d)

-- The work of a request is accepted exactly if no count is above its cap, and the units that are
-- returned are then the sum of the four counts: the sum never overflows.
check_work_iff :
    (w : WorkCounts) (units : ℕ)
    → (check_work w ≡ valid units) ↔ ((above_caps w ≡ false) × (units ≡ total_work w))
unfolding check_work
check_work_iff w units =
    let exact = checked_work_units_lem w in
    (λ h. (ground (arith, h, exact), ground (arith, h, exact)), λ h. ground (arith, h, exact))

-- The bytes that an allocation may take at once
abbrev pub capacity : AllocationInput → ℕ
capacity a =
    a.vector_values * 8
    + a.seed_entries * 64
    + a.result_entries * 64
    + a.ppr_score_entries * 24
    + a.ppr_node_entries * 192
    + a.ppr_edge_entries * 64
    + a.heap_entries * 64
    + a.retained_object_entries * Caps.max_object_bytes
    + a.scratch_bytes
    + a.response_buffer_bytes

abbrev sum : List ℕ → ℕ
sum [] = 0
sum (n ∷ ns) = n + sum ns

add_all-fits : (a : ℕ) (ns : List ℕ) → add_all (fits a) ns ≡ fits (a + sum ns)
add_all-fits a [] = ap fits (omega arith)
add_all-fits a (n ∷ ns) =
    ap (λ o. add_all o ns) (fits-add a n) ∙ (add_all-fits (a + n) ns ∙ ap fits (omega arith))

-- What succeeds in the sum of ten products.
add_all_valid :
    (m n : ℕ) (ns : List ℕ) (message : String) (b : ℕ)
    → ok_or (add_all (checked_add m n) ns) message ≡ valid b
    → (b ≡ m + n + sum ns) × (b < u64_mod)
add_all_valid m n ns message b h =
    let fitted = ap (λ o. ok_or o message) (sym (add_all-fits (m + n) ns)) ∙ h in
    let (same, below) = ok_or-fits (m + n + sum ns) message b fitted in
    (same, omega (arith, same, below))

capacity_exact :
    (a : AllocationInput) (b : ℕ)
    → checked_capacity_bytes a ≡ valid b
    → (b ≡ capacity a) × (capacity a < u64_mod)
unfolding checked_capacity_bytes
capacity_exact a b h =
    let (vector, (e1, h1)) = bind_valid (ok_or (checked_mul a.vector_values 8) _) _ b h in
    let (seeds, (e2, h2)) = bind_valid (ok_or (checked_mul a.seed_entries 64) _) _ b h1 in
    let (results, (e3, h3)) = bind_valid (ok_or (checked_mul a.result_entries 64) _) _ b h2 in
    let (scores, (e4, h4)) =
      bind_valid (ok_or (and_then (checked_mul a.ppr_score_entries 3) _) _) _ b h3 in
    let (nodes, (e5, h5)) = bind_valid (ok_or (checked_mul a.ppr_node_entries 192) _) _ b h4 in
    let (edges, (e6, h6)) = bind_valid (ok_or (checked_mul a.ppr_edge_entries 64) _) _ b h5 in
    let (heaps, (e7, h7)) = bind_valid (ok_or (checked_mul a.heap_entries 64) _) _ b h6 in
    let (retained, (e8, h8)) =
      bind_valid (ok_or (checked_mul a.retained_object_entries Caps.max_object_bytes) _) _ b h7 in
    let s1 = ok_or-fits _ _ vector e1 in
    let s2 = ok_or-fits _ _ seeds e2 in
    let s3 = ok_or-fits _ _ results e3 in
    let s4 = ok_or-fits (a.ppr_score_entries * 24) _ scores (
      ap (λ o. ok_or o "PPR score allocation multiplication overflow")
        (sym (fits-mul a.ppr_score_entries))
      ∙ e4) in
    let s5 = ok_or-fits _ _ nodes e5 in
    let s6 = ok_or-fits _ _ edges e6 in
    let s7 = ok_or-fits _ _ heaps e7 in
    let s8 = ok_or-fits _ _ retained e8 in
    let rest =
      results ∷ scores ∷ nodes ∷ edges ∷ heaps ∷ retained ∷ a.scratch_bytes
      ∷ a.response_buffer_bytes ∷ [] in
    let total = add_all_valid vector seeds rest "transient allocation addition overflow" b h8 in
    (omega arith, omega arith)

add_all_exact :
    (m n : ℕ) (ns : List ℕ) (b : ℕ)
    → m + n + sum ns ≡ b
    → b < u64_mod
    → ok_or (add_all (checked_add m n) ns) "transient allocation addition overflow" ≡ valid b
add_all_exact m n ns b total below =
    ap (λ o. ok_or o "transient allocation addition overflow")
      (add_all-fits (m + n) ns ∙ ap fits total)
    ∙ fits-ok_or b "transient allocation addition overflow" below

capacity_fits :
    (a : AllocationInput) → capacity a < u64_mod → checked_capacity_bytes a ≡ valid (capacity a)
unfolding checked_capacity_bytes
capacity_fits a h =
    rw
      (
        fits-ok_or (a.vector_values * 8) "vector allocation multiplication overflow" (omega arith),
        fits-ok_or (a.seed_entries * 64) "seed allocation multiplication overflow" (omega arith),
        fits-ok_or (a.result_entries * 64) "result allocation multiplication overflow"
            (omega arith),
        fits-mul a.ppr_score_entries,
        fits-ok_or (a.ppr_score_entries * 24) "PPR score allocation multiplication overflow"
            (omega arith),
        fits-ok_or (a.ppr_node_entries * 192) "PPR node allocation multiplication overflow"
            (omega arith),
        fits-ok_or (a.ppr_edge_entries * 64) "PPR edge allocation multiplication overflow"
            (omega arith),
        fits-ok_or (a.heap_entries * 64) "heap allocation multiplication overflow" (omega arith),
        fits-ok_or (a.retained_object_entries * Caps.max_object_bytes)
            "retained object allocation multiplication overflow" (omega arith),
      )
      (add_all_exact (a.vector_values * 8) (a.seed_entries * 64)
        ((a.result_entries * 64)
          ∷ (a.ppr_score_entries * 24)
          ∷ (a.ppr_node_entries * 192)
          ∷ (a.ppr_edge_entries * 64)
          ∷ (a.heap_entries * 64)
          ∷ (a.retained_object_entries * Caps.max_object_bytes)
          ∷ a.scratch_bytes
          ∷ a.response_buffer_bytes
          ∷ [])
        (capacity a) (omega arith) h)

-- An allocation is accepted exactly if its response buffer and its bytes in all, counted without
-- overflow, are within their caps, and the bytes that are returned are these bytes.
pub check_allocation_iff :
    (a : AllocationInput) (b : ℕ)
    → (check_allocation a ≡ valid b) ↔ (
        (a.response_buffer_bytes ≤ Caps.max_response_frame_bytes)
        × (capacity a ≤ Caps.max_transient_bytes)
        × (b ≡ capacity a))
unfolding check_allocation
check_allocation_iff a b = (forward, backward)
  where
    forward :
        check_allocation a ≡ valid b
        → (a.response_buffer_bytes ≤ Caps.max_response_frame_bytes)
          × (capacity a ≤ Caps.max_transient_bytes)
          × (b ≡ capacity a)
    forward h = elim (Bool-cases (ltb Caps.max_response_frame_bytes a.response_buffer_bytes)) [
      | inl above ↦ absurd (ground (arith, above, h))
      | inr below ↦
          let h1 = rw below at h in
          let (bytes, (counted, h2)) = bind_valid (checked_capacity_bytes a) _ b h1 in
          let exact = capacity_exact a bytes counted in
          (ground (arith, below), ground (arith, h2, exact), ground (arith, h2, exact))
    ]

    backward :
        (a.response_buffer_bytes ≤ Caps.max_response_frame_bytes)
          × (capacity a ≤ Caps.max_transient_bytes)
          × (b ≡ capacity a)
        → check_allocation a ≡ valid b
    backward (fits_frame, fits_all, same) =
        let counted = capacity_fits a (omega arith) in ground (arith, counted)
