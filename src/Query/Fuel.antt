-- ===== src/Query/Fuel.antt =====
-- Fuel of more than the length of a query is enough, and how much more makes no difference.
use aira_graphdb.Base.{
  ℕ, ◌+◌, ◌<◌, ◌≡◌, zero, suc, String, Bool, true, false, Option, some, none, List, [], ◌∷◌, arith,
  refl, sym, ◌∙◌, Option-cases, inl, inr, ◌&&◌, if◌then◌else◌,
}
use aira_graphdb.Errors.{Result, ok, err, Result-cases}
use aira_graphdb.Graph.{InMemoryGraphStore}
use aira_graphdb.Str.{length, trim, trim_start_matches, strip_prefix, starts_with, contains}
use aira_graphdb.Str.Lengths.{length-trim}
use aira_graphdb.Query.{
  F64, CypherDialect, QueryResult, Outcome, returns, panics, out_of_fuel, and_then,
}
use aira_graphdb.Query.Union.{
  UnionMode, UnionSplit, single, split_panics, branches_of, split_top_level_union,
}
use aira_graphdb.Query.Merge.{Executed, Merged, merge_branch, merge_branches, execute_union_query}
use aira_graphdb.Query.Execute.{
  parse_call_subquery, parse_exists, then_do, execute_call_subquery, execute_exists_subquery_match,
  rewrite_with, execute_clause,
}
use aira_graphdb.Query.Dispatch.{
  execute_single, execute_branch, execute_body, execute_with_fuel, execute_query_with_dialect,
  by_split, refused_by,
}
use aira_graphdb.Query.Case.{
  returned_or_panic, cut_case, case_places, execute_case_expression, execute_return_expression,
}
use aira_graphdb.Query.Shorter.{parse_call_subquery_shorter, parse_exists_shorter, rewrite_with_le}
use aira_graphdb.Query.Branches.{IsShort, IsShortSplit, split_top_level_union-IsShort}

abbrev pub is_out_of_fuel {ℓ} : {A : Type ℓ} → Outcome A → Bool
is_out_of_fuel out_of_fuel = true
is_out_of_fuel _ = false

-- Two runs give the same, and neither has run out of fuel.
abbrev pub Agree {ℓ} : {A : Type ℓ} → (e₁ e₂ : Outcome A × InMemoryGraphStore) → Type ℓ
Agree e₁ e₂ = (e₁ ≡ e₂) × (is_out_of_fuel e₁.0 ≡ false)

same_start-Agree {ℓ κ} :
    {A : Type ℓ} {B : Type κ} (k₁ k₂ : A → InMemoryGraphStore → Outcome B × InMemoryGraphStore)
    (o : Outcome A) (s : InMemoryGraphStore)
    → is_out_of_fuel o ≡ false
    → ((a : A) (t : InMemoryGraphStore) → Agree (k₁ a t) (k₂ a t))
    → Agree (and_then k₁ o s) (and_then k₂ o s)
same_start-Agree k₁ k₂ (returns (ok a)) s h k = k a s
same_start-Agree k₁ k₂ (returns (err e)) s h k = (refl, refl)
same_start-Agree k₁ k₂ panics s h k = (refl, refl)
same_start-Agree k₁ k₂ out_of_fuel s h k = absurd (ground arith)

and_then-Agree {ℓ κ} :
    {A : Type ℓ} {B : Type κ} (k₁ k₂ : A → InMemoryGraphStore → Outcome B × InMemoryGraphStore)
    (e₁ e₂ : Outcome A × InMemoryGraphStore)
    → Agree e₁ e₂
    → ((a : A) (t : InMemoryGraphStore) → Agree (k₁ a t) (k₂ a t))
    → Agree (and_then k₁ e₁.0 e₁.1) (and_then k₂ e₂.0 e₂.1)
and_then-Agree k₁ k₂ e₁ e₂ (same, fuel) k = rw (sym same) (same_start-Agree k₁ k₂ e₁.0 e₁.1 fuel k)

then_do-fuel :
    (k : QueryResult → Result QueryResult) (o : Outcome QueryResult)
    → is_out_of_fuel o ≡ false
    → is_out_of_fuel (then_do k o) ≡ false
then_do-fuel k (returns (ok result)) h = refl
then_do-fuel k (returns (err e)) h = refl
then_do-fuel k panics h = refl
then_do-fuel k out_of_fuel h = h

if-fuel :
    (b : Bool) (x y : Executed)
    → is_out_of_fuel x.0 ≡ false
    → is_out_of_fuel y.0 ≡ false
    → is_out_of_fuel (if b then x else y).0 ≡ false
if-fuel true x y h k = h
if-fuel false x y h k = k

execute_clause-fuel :
    (f : F64) (s : InMemoryGraphStore) (q : String)
    → is_out_of_fuel (execute_clause f s q).0 ≡ false
unfolding execute_clause
execute_clause-fuel f s q = search (if-fuel) depth 12

returned_or_panic-fuel :
    (f : F64) (condition : String) (t e : Option String)
    → is_out_of_fuel (returned_or_panic f condition t e) ≡ false
returned_or_panic-fuel f condition (some t) (some e) = refl
returned_or_panic-fuel f condition (some t) none = refl
returned_or_panic-fuel f condition none e = refl

execute_case-fuel : (f : F64) (q : String) → is_out_of_fuel (execute_case_expression f q) ≡ false
unfolding execute_case_expression cut_case
execute_case-fuel f q = elim (Option-cases (strip_prefix q "WHEN ")) [
  | inl other ↦ rw (other, execute_case_expression) refl
  | inr (rest, stripped) ↦ elim (Result-cases (case_places rest)) [
    | inr (e, failed) ↦ rw (stripped, failed, execute_case_expression) refl
    | inl (places, placed) ↦
        rw (stripped, placed, execute_case_expression) (search (returned_or_panic-fuel))
  ]
]

execute_return-fuel :
    (f : F64) (q : String) → is_out_of_fuel (execute_return_expression f q) ≡ false
unfolding execute_return_expression
execute_return-fuel f q =
    elim (Option-cases (strip_prefix (trim (trim_start_matches q "RETURN ")) "CASE ")) [
      | inl other ↦ rw (other, execute_return_expression) refl
      | inr (rest, stripped) ↦ rw (stripped, execute_return_expression) (execute_case-fuel f rest)
    ]

module _ (run₁ run₂ : String → InMemoryGraphStore → Executed) where
  -- On the queries shorter than `n`
  abbrev pub AgreeBelow : ℕ → Type 0
  AgreeBelow n = (q : String) (s : InMemoryGraphStore) → length q < n → Agree (run₁ q s) (run₂ q s)

  merge_branches-Agree :
      (n : ℕ) (branches : List String) (m : Merged) (s : InMemoryGraphStore)
      → AgreeBelow n
      → IsShort n branches
      → Agree (merge_branches run₁ branches m s) (merge_branches run₂ branches m s)
  unfolding merge_branches
  merge_branches-Agree n [] m s h k = (refl, refl)
  merge_branches-Agree n (branch ∷ branches) m s h (short, k) =
      and_then-Agree _ _ (run₁ branch s) (run₂ branch s) (h branch s short) (λ result t.
        elim (Result-cases (merge_branch result m)) [
          | inl (m', merged) ↦ rw merged (merge_branches-Agree n branches m' t h k)
          | inr (e, failed) ↦ rw failed (refl, refl)
        ])

  execute_union_query-Agree :
      (n : ℕ) (branches : List String) (mode : UnionMode) (s : InMemoryGraphStore)
      → AgreeBelow n
      → IsShort n branches
      → Agree (execute_union_query run₁ branches mode s) (execute_union_query run₂ branches mode s)
  unfolding execute_union_query
  execute_union_query-Agree n branches mode s h k =
      and_then-Agree _ _ _ _ (merge_branches-Agree n branches _ s h k) (λ m t. (refl, refl))

  execute_call_subquery-Agree :
      (s : InMemoryGraphStore) (q : String)
      → AgreeBelow (length q)
      → Agree (execute_call_subquery run₁ s q) (execute_call_subquery run₂ s q)
  unfolding execute_call_subquery
  execute_call_subquery-Agree s q h = elim (Result-cases (parse_call_subquery q)) [
    | inr (e, failed) ↦ rw (failed, execute_call_subquery) (refl, refl)
    | inl ((inner, projection), parsed) ↦
        let (same, fuel) = h inner s (parse_call_subquery_shorter q inner projection parsed) in
        rw (parsed, execute_call_subquery)
          (rw (sym same) (refl, then_do-fuel _ (run₁ inner s).0 fuel))
  ]

  execute_exists-Agree :
      (f : F64) (s : InMemoryGraphStore) (q : String)
      → AgreeBelow (length q)
      → Agree
          (execute_exists_subquery_match run₁ f s q, s)
          (execute_exists_subquery_match run₂ f s q, s)
  unfolding execute_exists_subquery_match
  execute_exists-Agree f s q h = elim (Result-cases (parse_exists q)) [
    | inr (e, failed) ↦ rw (failed, execute_exists_subquery_match) (refl, refl)
    | inl ((inner, rewritten), parsed) ↦
        let (same, fuel) = h inner s (parse_exists_shorter q inner rewritten parsed) in
        rw (parsed, execute_exists_subquery_match)
          (rw (sym same) (refl, then_do-fuel _ (run₁ inner s).0 fuel))
  ]

  if-Agree :
      (b : Bool) (x₁ y₁ x₂ y₂ : Executed)
      → Agree x₁ x₂
      → Agree y₁ y₂
      → Agree (if b then x₁ else y₁) (if b then x₂ else y₂)
  if-Agree true x₁ y₁ x₂ y₂ h k = h
  if-Agree false x₁ y₁ x₂ y₂ h k = k

  execute_single-Agree :
      (f : F64) (s : InMemoryGraphStore) (q : String)
      → AgreeBelow (length q)
      → Agree (execute_single run₁ f s q) (execute_single run₂ f s q)
  unfolding execute_single
  execute_single-Agree f s q h =
      if-Agree (starts_with q "MATCH " && contains q " WHERE EXISTS {") _ _ _ _
        (execute_exists-Agree f s q h)
        (if-Agree (starts_with q "MATCH ") _ _ _ _ (refl, refl)
          (if-Agree (starts_with q "OPTIONAL MATCH ") _ _ _ _ (refl, refl)
            (refl, execute_clause-fuel f s q)))

  execute_branch-Agree :
      (f : F64) (s : InMemoryGraphStore) (q : String)
      → AgreeBelow (length q)
      → Agree (execute_branch run₁ f s q) (execute_branch run₂ f s q)
  unfolding execute_branch
  execute_branch-Agree f s q h =
      if-Agree (starts_with q "RETURN ") _ _ _ _ (refl, execute_return-fuel f q)
        (if-Agree (starts_with q "CALL {") _ _ _ _ (execute_call_subquery-Agree s q h)
          (elim (Result-cases (rewrite_with q)) [
            | inr (e, failed) ↦ rw failed (refl, refl)
            | inl (q', rewrote) ↦ rw rewrote (
                execute_single-Agree f s q'
                  (λ part t short. h part t (omega (arith, short, rewrite_with_le q q' rewrote))))
          ]))

  by_split-Agree :
      (f : F64) (s : InMemoryGraphStore) (q : String) (split : UnionSplit)
      → AgreeBelow (length q)
      → IsShortSplit (length q) split
      → Agree (by_split run₁ f s q split) (by_split run₂ f s q split)
  by_split-Agree f s q split_panics h k = (refl, refl)
  by_split-Agree f s q (branches_of branches mode) h k =
      execute_union_query-Agree (length q) branches mode s h k
  by_split-Agree f s q single h k = execute_branch-Agree f s q h

  execute_body-Agree :
      (f : F64) (dialect : CypherDialect) (s : InMemoryGraphStore) (q : String)
      → AgreeBelow (length q)
      → Agree (execute_body run₁ f dialect s q) (execute_body run₂ f dialect s q)
  unfolding execute_body
  execute_body-Agree f dialect s q h = elim (Option-cases (refused_by dialect q)) [
    | inr (e, refused) ↦ rw (refused, execute_body) (refl, refl)
    | inl taken ↦
        rw (taken, execute_body)
          (by_split-Agree f s q (split_top_level_union q) h (split_top_level_union-IsShort q))
  ]

module _ (f : F64) (dialect : CypherDialect) where
  execute_with_fuel-Agree :
      (m n : ℕ) (q : String) (s : InMemoryGraphStore)
      → length q < m
      → length q < n
      → Agree (execute_with_fuel m f dialect q s) (execute_with_fuel n f dialect q s)
  unfolding execute_with_fuel
  execute_with_fuel-Agree zero n q s h k = absurd (omega arith)
  execute_with_fuel-Agree (suc m) zero q s h k = absurd (omega arith)
  execute_with_fuel-Agree (suc m) (suc n) q s h k =
      execute_body-Agree _ _ f dialect s (trim q) (λ part t short.
        execute_with_fuel-Agree m n part t (omega (arith, short, length-trim q))
          (omega (arith, short, length-trim q)))

  pub execute_with_fuel_lem :
      (fuel : ℕ) (q : String) (s : InMemoryGraphStore)
      → length q < fuel
      → execute_with_fuel fuel f dialect q s ≡ execute_query_with_dialect f s q dialect
  unfolding execute_query_with_dialect
  execute_with_fuel_lem fuel q s h =
      (execute_with_fuel-Agree fuel (length q + 1) q s h (omega arith)).0

  -- Every query on every graph gives a result or a panic: the recursion into branches and
  -- subqueries always ends.
  pub execute_query_returns :
      (q : String) (s : InMemoryGraphStore)
      → is_out_of_fuel (execute_query_with_dialect f s q dialect).0 ≡ false
  unfolding execute_query_with_dialect
  execute_query_returns q s =
      (execute_with_fuel-Agree (length q + 1) (length q + 1) q s (omega arith) (omega arith)).1

  -- The fuel of the model never decides: executing a query is executing its body, in which each
  -- branch of a `UNION` and each subquery is executed as a query.
  pub execute_query_equation :
      (q : String) (s : InMemoryGraphStore)
      → execute_query_with_dialect f s q dialect
        ≡ execute_body (λ part t. execute_query_with_dialect f t part dialect) f dialect s (trim q)
  unfolding execute_with_fuel execute_query_with_dialect
  execute_query_equation q s =
      sym (execute_with_fuel_lem (suc (length q + 1)) q s (omega arith))
      ∙ (execute_body-Agree _ _ f dialect s (trim q) (λ part t short.
          execute_with_fuel-Agree (length q + 1) (length part + 1) part t
            (omega (arith, short, length-trim q)) (omega arith))).0
