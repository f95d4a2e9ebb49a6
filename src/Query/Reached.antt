-- ===== src/Query/Reached.antt =====
-- Every query takes a graph that the methods of the graph can make to such a graph.
use aira_graphdb.Base.{
  ℕ, ◌+◌, ◌<◌, ◌≡◌, zero, suc, String, Bool, true, false, List, [], ◌∷◌, arith, refl, Option-cases,
  inl, inr, u64_mod, string_eq, ◌∙◌,
}
use aira_graphdb.Errors.{Result, ok, err, Result-cases}
use aira_graphdb.Graph.{InMemoryGraphStore}
use aira_graphdb.Graph.Reach.{Reach}
use aira_graphdb.Str.{starts_with, trim, length}
use aira_graphdb.Query.{
  F64, CypherDialect, QueryResult, Outcome, returns, panics, out_of_fuel, and_then,
}
use aira_graphdb.Query.Union.{
  UnionMode, UnionSplit, single, split_panics, branches_of, split_top_level_union,
}
use aira_graphdb.Query.Merge.{Executed, Merged, merge_branch, merge_branches, execute_union_query}
use aira_graphdb.Query.Execute.{
  then_do, project_subquery, parse_call_subquery, execute_call_subquery, rewrite_with,
}
use aira_graphdb.Query.Dispatch.{
  execute_single, execute_branch, execute_body, execute_with_fuel, execute_query_with_dialect,
  by_split, refused_by,
}
use aira_graphdb.Query.Effects.{gives_rows, IsSound, unchanged-IsSound, if-IsSound}
use aira_graphdb.Query.Sound.{execute_clause-IsSound}

abbrev gives_ok {ℓ} : {A : Type ℓ} → Outcome A → Bool
gives_ok (returns (ok a)) = true
gives_ok _ = false

-- The branches that were merged have made no node.
record IsMergedSound (s : InMemoryGraphStore) (e : Outcome Merged × InMemoryGraphStore)
    : Type 0 where
  merged :
      Reach s
      → s.next_node_seq + 1 < u64_mod
      → Reach e.1 × (gives_ok e.0 ≡ true → e.1.next_node_seq ≡ s.next_node_seq)

merge_branch-rows :
    (result : QueryResult) (m m' : Merged)
    → merge_branch result m ≡ ok m'
    → gives_rows (returns (ok result)) ≡ true
unfolding merge_branch
merge_branch-rows (QueryResult.nodes nodes) m m' h = refl
merge_branch-rows (QueryResult.table columns rows) m m' h = refl
merge_branch-rows QueryResult.ack m m' h = absurd (ground arith)

project_subquery-rows :
    (projection : String) (o : Outcome QueryResult)
    → gives_rows (then_do (project_subquery projection) o) ≡ true
    → gives_rows o ≡ true
unfolding project_subquery
project_subquery-rows projection (returns (ok (QueryResult.nodes nodes))) h = refl
project_subquery-rows projection (returns (ok (QueryResult.table columns rows))) h = refl
project_subquery-rows projection (returns (ok QueryResult.ack)) h = ground arith
project_subquery-rows projection (returns (err e)) h = h
project_subquery-rows projection panics h = h
project_subquery-rows projection out_of_fuel h = h

failed-IsMergedSound :
    (s t : InMemoryGraphStore) (o : Outcome QueryResult) (o' : Outcome Merged)
    → gives_ok o' ≡ false
    → IsSound s (o, t)
    → IsMergedSound s (o', t)
failed-IsMergedSound s t o o' fails h = record {
  merged = λ r room. ((h.sound r room).0, λ gave. absurd (ground (arith, fails)));
}

-- A branch is merged, and then the others.
then_merge-IsSound :
    (s : InMemoryGraphStore) (m : Merged)
    (k : Merged → InMemoryGraphStore → Outcome Merged × InMemoryGraphStore) (e : Executed)
    → ((m' : Merged) (t : InMemoryGraphStore) → IsMergedSound t (k m' t))
    → IsSound s e
    → IsMergedSound s (
        and_then
          (λ result t. elim (merge_branch result m) [
            | err why ↦ (returns (err why), t)
            | ok m' ↦ k m' t
          ])
          e.0
          e.1)
then_merge-IsSound s m k (panics, t) hk he = failed-IsMergedSound s t panics panics refl he
then_merge-IsSound s m k (out_of_fuel, t) hk he =
    failed-IsMergedSound s t out_of_fuel out_of_fuel refl he
then_merge-IsSound s m k (returns (err why), t) hk he =
    failed-IsMergedSound s t (returns (err why)) (returns (err why)) refl he
then_merge-IsSound s m k (returns (ok result), t) hk he =
    elim (Result-cases (merge_branch result m)) [
      | inr (why, failed) ↦
          rw (failed, and_then)
            (failed-IsMergedSound s t (returns (ok result)) (returns (err why)) refl he)
      | inl (m', joined) ↦
          rw (joined, and_then)
            (record {
              merged = λ r room.
                  let (reached, same) = he.sound r room in
                  let unmoved = same (merge_branch-rows result m m' joined) in
                  let (end, kept) = (hk m' t).merged reached (omega (arith, unmoved, room)) in
                  (end, λ o. kept o ∙ unmoved);
            })
    ]

merged_result-IsSound :
    (s : InMemoryGraphStore) (k : Merged → Result QueryResult)
    (e : Outcome Merged × InMemoryGraphStore)
    → IsMergedSound s e
    → IsSound s (and_then (λ m t. (returns (k m), t)) e.0 e.1)
merged_result-IsSound s k (panics, t) h = record {
  sound = λ r room. ((h.merged r room).0, λ o. absurd (ground arith));
}
merged_result-IsSound s k (out_of_fuel, t) h = record {
  sound = λ r room. ((h.merged r room).0, λ o. absurd (ground arith));
}
merged_result-IsSound s k (returns (err e), t) h = record {
  sound = λ r room. ((h.merged r room).0, λ o. absurd (ground arith));
}
merged_result-IsSound s k (returns (ok m), t) h = record {
  sound = λ r room. let (reached, same) = h.merged r room in (reached, λ o. same refl);
}

module _ (run : String → InMemoryGraphStore → Executed)
    (runs : (q : String) (s : InMemoryGraphStore) → IsSound s (run q s)) where
  merge_branches-IsSound :
      (branches : List String) (m : Merged) (s : InMemoryGraphStore)
      → IsMergedSound s (merge_branches run branches m s)
  unfolding merge_branches
  merge_branches-IsSound [] m s = record { merged = λ r room. (r, λ o. refl) }
  merge_branches-IsSound (branch ∷ branches) m s =
      then_merge-IsSound s m _ (run branch s) (λ m' t. merge_branches-IsSound branches m' t)
        (runs branch s)

  execute_union_query-IsSound :
      (branches : List String) (mode : UnionMode) (s : InMemoryGraphStore)
      → IsSound s (execute_union_query run branches mode s)
  unfolding execute_union_query
  execute_union_query-IsSound branches mode s =
      merged_result-IsSound s _ _ (merge_branches-IsSound branches _ s)

  execute_call_subquery-IsSound :
      (s : InMemoryGraphStore) (q : String) → IsSound s (execute_call_subquery run s q)
  unfolding execute_call_subquery
  execute_call_subquery-IsSound s q = elim (Result-cases (parse_call_subquery q)) [
    | inr (e, failed) ↦ rw (failed, execute_call_subquery) (unchanged-IsSound _ s)
    | inl ((inner, projection), parsed) ↦
        rw (parsed, execute_call_subquery)
          (record {
            sound = λ r room.
                let (reached, same) = (runs inner s).sound r room in
                (reached, λ rows. same (project_subquery-rows projection (run inner s).0 rows));
          })
  ]

  execute_single-IsSound :
      (f : F64) (s : InMemoryGraphStore) (q : String) → IsSound s (execute_single run f s q)
  unfolding execute_single
  execute_single-IsSound f s q = search (if-IsSound, unchanged-IsSound, execute_clause-IsSound)

  execute_branch-IsSound :
      (f : F64) (s : InMemoryGraphStore) (q : String) → IsSound s (execute_branch run f s q)
  unfolding execute_branch
  execute_branch-IsSound f s q =
      if-IsSound (starts_with q "RETURN ") s _ _ (unchanged-IsSound _ s) (
        if-IsSound (starts_with q "CALL {") s _ _ (execute_call_subquery-IsSound s q)
          (elim (Result-cases (rewrite_with q)) [
            | inr (e, failed) ↦ rw failed (unchanged-IsSound _ s)
            | inl (q', rewrote) ↦ rw rewrote (execute_single-IsSound f s q')
          ]))

  by_split-IsSound :
      (f : F64) (s : InMemoryGraphStore) (q : String) (split : UnionSplit)
      → IsSound s (by_split run f s q split)
  by_split-IsSound f s q split_panics = unchanged-IsSound _ s
  by_split-IsSound f s q (branches_of branches mode) = execute_union_query-IsSound branches mode s
  by_split-IsSound f s q single = execute_branch-IsSound f s q

  execute_body-IsSound :
      (f : F64) (dialect : CypherDialect) (s : InMemoryGraphStore) (q : String)
      → IsSound s (execute_body run f dialect s q)
  unfolding execute_body
  execute_body-IsSound f dialect s q = elim (Option-cases (refused_by dialect q)) [
    | inr (e, refused) ↦ rw (refused, execute_body) (unchanged-IsSound _ s)
    | inl taken ↦ rw (taken, execute_body) (by_split-IsSound f s q (split_top_level_union q))
  ]

execute_with_fuel-IsSound :
    (fuel : ℕ) (f : F64) (dialect : CypherDialect) (q : String) (s : InMemoryGraphStore)
    → IsSound s (execute_with_fuel fuel f dialect q s)
unfolding execute_with_fuel
execute_with_fuel-IsSound zero f dialect q s = unchanged-IsSound _ s
execute_with_fuel-IsSound (suc fuel) f dialect q s =
    execute_body-IsSound _ (λ part t. execute_with_fuel-IsSound fuel f dialect part t) f dialect s
      (trim q)

-- A query takes a graph that the methods of the graph can make, with room for one more node, to
-- such a graph, whatever the query is and whether it succeeds, fails or panics; and where it gives
-- rows, the counter of the nodes stands as before.
pub execute_query-Reach :
    (f : F64) (s : InMemoryGraphStore) (q : String) (dialect : CypherDialect)
    → Reach s
    → s.next_node_seq + 1 < u64_mod
    → Reach (execute_query_with_dialect f s q dialect).1
      × (gives_rows (execute_query_with_dialect f s q dialect).0 ≡ true
          → (execute_query_with_dialect f s q dialect).1.next_node_seq ≡ s.next_node_seq)
unfolding execute_query_with_dialect
execute_query-Reach f s q dialect r room =
    (execute_with_fuel-IsSound (length q + 1) f dialect q s).sound r room
