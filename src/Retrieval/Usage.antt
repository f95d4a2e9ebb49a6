-- ===== src/Retrieval/Usage.antt =====
-- `ResourceUsage::for_request`: which numbers of the parameters are counted.
use aira_graphdb.Base.{
  ℕ, ◌+◌, ◌≤◌, ◌≡◌, ◌⊎◌, true, false, String, string_eq, some, List, [], ◌∷◌, length, All,
}
use aira_graphdb.Retrieval.Caps
use aira_graphdb.Retrieval.Json.{pos_int, Json, number, array, Items, to_list, get_in}
use aira_graphdb.Retrieval.Budget.{ResourceUsage, no_usage}

abbrev pub sum : List ℕ → ℕ
sum [] = 0
sum (n ∷ ns) = n + sum ns

-- The greatest of the numbers, and 0 if there is none.
abbrev pub IsOneOf : ℕ → List ℕ → Type 0
IsOneOf m [] = m ≡ 0
IsOneOf m (n ∷ ns) = (m ≡ n) ⊎ IsOneOf m ns

unfoldable pub IsMaximum : ℕ → List ℕ → Type 0
IsMaximum m ns = All (λ n. n ≤ m) ns × IsOneOf m ns

-- Each slot has a query vector of the dimension and a limit that stand at its place.
unfoldable pub IsSlots : List Json → List ℕ → List ℕ → Type 0
IsSlots [] [] [] = Unit
IsSlots (slot ∷ slots) (dimension ∷ dimensions) (limit ∷ limits) =
    ((vector : Items) × (get_in "queryVector" slot ≡ some (array vector))
      × (dimension ≡ length (to_list vector)))
    × (get_in "limit" slot ≡ some (number (pos_int limit)))
    × IsSlots slots dimensions limits
IsSlots _ _ _ = true ≡ false

-- The usage of a search for candidates.
pub record IsCandidateUsage (params : Json) (u : ResourceUsage) : Type 0 where
  pub slots : Items
  pub dimensions : List ℕ
  pub slot_limits : List ℕ
  pub slots_stated : get_in "slots" params ≡ some (array slots)
  pub each_slot : IsSlots (to_list slots) dimensions slot_limits
  pub greatest_dimension : ℕ
  pub greatest_limit : ℕ
  pub widest : IsMaximum greatest_dimension dimensions
  pub highest : IsMaximum greatest_limit slot_limits
  pub counted : u ≡ record no_usage {
    search_slots = length (to_list slots);
    vector_dimensions = greatest_dimension;
    search_result_limit = greatest_limit;
    combined_objects = sum slot_limits;
  }

-- The usage of an expansion of facts.
pub record IsFactUsage (params : Json) (u : ResourceUsage) : Type 0 where
  pub plan : Json
  pub seed_entities : Items
  pub limit : ℕ
  pub plan_stated : get_in "plan" params ≡ some plan
  pub seeds_stated : get_in "seedEntities" plan ≡ some (array seed_entities)
  pub limit_stated : get_in "limit" plan ≡ some (number (pos_int limit))
  pub counted :
      u ≡ record no_usage { seeds = length (to_list seed_entities); expansion_results = limit }

-- The usage of a personalized page rank.
pub record IsPprUsage (params : Json) (u : ResourceUsage) : Type 0 where
  pub plan : Json
  pub seed_entries : Items
  pub rounds : ℕ
  pub passages : ℕ
  pub entities : ℕ
  pub plan_stated : get_in "plan" params ≡ some plan
  pub seeds_stated : get_in "seeds" plan ≡ some (array seed_entries)
  pub rounds_stated : get_in "maxIterations" plan ≡ some (number (pos_int rounds))
  pub passages_stated : get_in "passageLimit" plan ≡ some (number (pos_int passages))
  pub entities_stated : get_in "entityLimit" plan ≡ some (number (pos_int entities))
  pub counted : u ≡ record no_usage {
    seeds = length (to_list seed_entries);
    iterations = rounds;
    returned_passages = passages;
    returned_facts = entities;
    combined_objects = passages + entities;
  }

-- The usage of a request of any method: what its parameters state, and 0 for all else.
unfoldable pub IsUsageOf : String → Json → ResourceUsage → Type 0
IsUsageOf method params u =
    ((method ≡ Caps.candidate_search) × IsCandidateUsage params u)
    ⊎ (((method ≡ Caps.fact_expand) × IsFactUsage params u)
        ⊎ ((method ≡ Caps.ppr_materialize) × IsPprUsage params u))
