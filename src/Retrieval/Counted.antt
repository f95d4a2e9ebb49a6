-- ===== src/Retrieval/Counted.antt =====
-- `ResourceUsage::for_request` counts what the parameters state.
use aira_graphdb.Base.{
  ℕ, ◌+◌, ◌≤◌, ◌≡◌, inl, inr, refl, ap, sym, ◌∙◌, String, string_eq, ◌==◌, eq_iff, Option, none,
  some, List, [], ◌∷◌, length, All, arith, Bool-cases, ltb,
}
use aira_graphdb.Base.Checked.{valid, ok_or, bind_valid, valid_injective}
use aira_graphdb.Retrieval.Caps
use aira_graphdb.Retrieval.Json.{
  pos_int, neg_int, float, Json, null, bool, number, string, array, object, Items, to_list, get_in,
}
use aira_graphdb.Retrieval.Budget.{
  ResourceUsage, and_array, and_u64, and_object, array_in, vector_length, slot_limit, read_all,
  maximum, sum_limits, checked_add, candidate_usage, fact_usage, ppr_usage, usage_of,
}
use aira_graphdb.Retrieval.Bounds.{ok_or-fits}
use aira_graphdb.Retrieval.Usage.{
  sum, IsOneOf, IsMaximum, IsSlots, IsCandidateUsage, IsFactUsage, IsPprUsage, IsUsageOf,
}

array_found :
    (o : Option Json) (message : String) (xs : List Json)
    → ok_or (and_array o) message ≡ valid xs
    → (items : Items) × (o ≡ some (array items)) × (to_list items ≡ xs)
array_found none message xs h = absurd cc
array_found (some (array items)) message xs h = (items, refl, valid_injective h)
array_found (some null) message xs h = absurd cc
array_found (some (bool b)) message xs h = absurd cc
array_found (some (number n)) message xs h = absurd cc
array_found (some (string s)) message xs h = absurd cc
array_found (some (object fs)) message xs h = absurd cc

u64_found :
    (o : Option Json) (message : String) (n : ℕ)
    → ok_or (and_u64 o) message ≡ valid n
    → o ≡ some (number (pos_int n))
u64_found none message n h = absurd cc
u64_found (some (number (pos_int k))) message n h =
    ap (λ (m : ℕ). some (number (pos_int m))) (valid_injective h)
u64_found (some (number (neg_int k))) message n h = absurd cc
u64_found (some (number (float k))) message n h = absurd cc
u64_found (some null) message n h = absurd cc
u64_found (some (bool b)) message n h = absurd cc
u64_found (some (string s)) message n h = absurd cc
u64_found (some (array xs)) message n h = absurd cc
u64_found (some (object fs)) message n h = absurd cc

object_found :
    (o : Option Json) (message : String) (plan : Json)
    → ok_or (and_object o) message ≡ valid plan
    → o ≡ some plan
object_found none message plan h = absurd cc
object_found (some (object fs)) message plan h = ap some (valid_injective h)
object_found (some null) message plan h = absurd cc
object_found (some (bool b)) message plan h = absurd cc
object_found (some (number n)) message plan h = absurd cc
object_found (some (string s)) message plan h = absurd cc
object_found (some (array xs)) message plan h = absurd cc

maximum_upper : (m : ℕ) (ns : List ℕ) → maximum ns ≤ m → All (λ n. n ≤ m) ns
maximum_upper m [] h = tt
maximum_upper m (n ∷ ns) h = (ground arith, maximum_upper m ns (ground arith))

maximum_found : (ns : List ℕ) (m : ℕ) → m ≡ maximum ns → IsOneOf m ns
maximum_found [] m h = h
maximum_found (n ∷ ns) m h = elim (Bool-cases (ltb n (maximum ns))) [
  | inl less ↦ inr (maximum_found ns m (ground arith))
  | inr not_less ↦ inl (ground arith)
]

maximum-IsMaximum : (ns : List ℕ) → IsMaximum (maximum ns) ns
unfolding IsMaximum
maximum-IsMaximum ns =
    (maximum_upper (maximum ns) ns (omega arith), maximum_found ns (maximum ns) refl)

-- What the three passes over the slots read.
slots_lem :
    (slots : List Json) (dimensions slot_limits : List ℕ) (total combined : ℕ)
    → read_all vector_length slots ≡ valid dimensions
    → read_all slot_limit slots ≡ valid slot_limits
    → sum_limits total slots ≡ valid combined
    → IsSlots slots dimensions slot_limits × (combined ≡ total + sum slot_limits)
unfolding IsSlots read_all sum_limits
slots_lem [] [] [] total combined h1 h2 h3 = (tt, omega (arith, valid_injective h3))
slots_lem [] (d ∷ ds) ls total combined h1 h2 h3 = absurd cc
slots_lem [] [] (l ∷ ls) total combined h1 h2 h3 = absurd cc
slots_lem (slot ∷ slots) ds ls total combined h1 h2 h3 =
    let (d, (wide, h4)) = bind_valid (vector_length slot) _ ds h1 in
    let (ds', (wides, h5)) = bind_valid (read_all vector_length slots) _ ds h4 in
    let (l, (limited, h6)) = bind_valid (slot_limit slot) _ ls h2 in
    let (ls', (limiteds, h7)) = bind_valid (read_all slot_limit slots) _ ls h6 in
    let (l', (again, h8)) = bind_valid (slot_limit slot) _ combined h3 in
    let (next, (added, h9)) = bind_valid (ok_or (checked_add total l') _) _ combined h8 in
    let (vector, (vector_is, h10)) =
      bind_valid (array_in "queryVector" slot _) (λ v. valid (length v)) d wide in
    let (items, stated, same_items) = array_found (get_in "queryVector" slot) _ vector vector_is in
    let (rest, total_is) = slots_lem slots ds' ls' next combined wides limiteds h9 in
    let same_limit : l ≡ l' = valid_injective (sym limited ∙ again) in
    let exact = (ok_or-fits (total + l') _ next added).0 in
    let dimension_is : d ≡ length (to_list items) =
      sym (valid_injective h10) ∙ ap length (sym same_items) in
    rw (← valid_injective h5, ← valid_injective h7)
      (
        ((items, stated, dimension_is), u64_found (get_in "limit" slot) _ l limited, rest),
        omega arith,
      )

candidate_usage-IsCandidateUsage :
    (params : Json) (u : ResourceUsage)
    → candidate_usage params ≡ valid u
    → IsCandidateUsage params u
unfolding candidate_usage
candidate_usage-IsCandidateUsage params u h =
    let (slots, (slots_are, h1)) = bind_valid (array_in "slots" params _) _ u h in
    let (dimensions, (wides, h2)) = bind_valid (read_all vector_length slots) _ u h1 in
    let (slot_limits, (limiteds, h3)) = bind_valid (read_all slot_limit slots) _ u h2 in
    let (combined, (summed, h4)) = bind_valid (sum_limits 0 slots) _ u h3 in
    let (items, stated, same) = array_found (get_in "slots" params) _ slots slots_are in
    let (each, from_zero) =
      slots_lem slots dimensions slot_limits 0 combined wides limiteds summed in
    let total : combined ≡ sum slot_limits = omega (arith, from_zero) in
    record {
      slots = items;
      dimensions = dimensions;
      slot_limits = slot_limits;
      slots_stated = stated;
      each_slot = rw same each;
      greatest_dimension = maximum dimensions;
      greatest_limit = maximum slot_limits;
      widest = maximum-IsMaximum dimensions;
      highest = maximum-IsMaximum slot_limits;
      counted = rw (same, ← total) (sym (valid_injective h4));
    }

fact_usage-IsFactUsage :
    (params : Json) (u : ResourceUsage) → fact_usage params ≡ valid u → IsFactUsage params u
unfolding fact_usage
fact_usage-IsFactUsage params u h =
    let (plan, (plan_is, h1)) = bind_valid (ok_or (and_object (get_in "plan" params)) _) _ u h in
    let (seeds, (seeds_are, h2)) = bind_valid (array_in "seedEntities" plan _) _ u h1 in
    let (limit, (limit_is, h3)) = bind_valid (ok_or (and_u64 (get_in "limit" plan)) _) _ u h2 in
    let (items, stated, same) = array_found (get_in "seedEntities" plan) _ seeds seeds_are in
    record {
      plan = plan;
      seed_entities = items;
      limit = limit;
      plan_stated = object_found (get_in "plan" params) _ plan plan_is;
      seeds_stated = stated;
      limit_stated = u64_found (get_in "limit" plan) _ limit limit_is;
      counted = rw same (sym (valid_injective h3));
    }

ppr_usage-IsPprUsage :
    (params : Json) (u : ResourceUsage) → ppr_usage params ≡ valid u → IsPprUsage params u
unfolding ppr_usage
ppr_usage-IsPprUsage params u h =
    let (plan, (plan_is, h1)) = bind_valid (ok_or (and_object (get_in "plan" params)) _) _ u h in
    let (seeds, (seeds_are, h2)) = bind_valid (array_in "seeds" plan _) _ u h1 in
    let (rounds, (rounds_are, h3)) =
      bind_valid (ok_or (and_u64 (get_in "maxIterations" plan)) _) _ u h2 in
    let (passages, (passages_are, h4)) =
      bind_valid (ok_or (and_u64 (get_in "passageLimit" plan)) _) _ u h3 in
    let (entities, (entities_are, h5)) =
      bind_valid (ok_or (and_u64 (get_in "entityLimit" plan)) _) _ u h4 in
    let (combined, (summed, h6)) = bind_valid (ok_or (checked_add passages entities) _) _ u h5 in
    let (items, stated, same) = array_found (get_in "seeds" plan) _ seeds seeds_are in
    record {
      plan = plan;
      seed_entries = items;
      rounds = rounds;
      passages = passages;
      entities = entities;
      plan_stated = object_found (get_in "plan" params) _ plan plan_is;
      seeds_stated = stated;
      rounds_stated = u64_found (get_in "maxIterations" plan) _ rounds rounds_are;
      passages_stated = u64_found (get_in "passageLimit" plan) _ passages passages_are;
      entities_stated = u64_found (get_in "entityLimit" plan) _ entities entities_are;
      counted =
          rw (same, ← (ok_or-fits (passages + entities) _ combined summed).0)
            (sym (valid_injective h6));
    }

pub usage_of-IsUsageOf :
    (method : String) (params : Json) (u : ResourceUsage)
    → usage_of method params ≡ valid u
    → IsUsageOf method params u
unfolding usage_of IsUsageOf
usage_of-IsUsageOf method params u h = elim (Bool-cases (method == Caps.candidate_search)) [
  | inl c ↦ inl (
    (eq_iff method Caps.candidate_search).0 c,
    candidate_usage-IsCandidateUsage params u (ground (arith, h, c)),
  )
  | inr not_c ↦ elim (Bool-cases (method == Caps.fact_expand)) [
    | inl f ↦ inr (
        inl (
          (eq_iff method Caps.fact_expand).0 f,
          fact_usage-IsFactUsage params u (ground (arith, h, not_c, f)),
        ))
    | inr not_f ↦ elim (Bool-cases (method == Caps.ppr_materialize)) [
      | inl p ↦ inr (
          inr (
            (eq_iff method Caps.ppr_materialize).0 p,
            ppr_usage-IsPprUsage params u (ground (arith, h, not_c, not_f, p)),
          ))
      | inr not_p ↦ absurd (ground (arith, h, not_c, not_f, not_p))
    ]
  ]
]
