-- ===== src/Query/Dispatch.antt =====
-- `execute_query_with_dialect`: a query is refused, cut at its `UNION`s, or executed as the clause
-- that it begins with. Each part of a query that runs as a query is shorter than the query, so that fuel
-- of one more than its length is enough.
use aira_graphdb.Base.{
  ℕ, ◌+◌, zero, suc, String, Bool, true, false, ◌&&◌, ◌||◌, Option, none, some, if◌then◌else◌,
}
use aira_graphdb.Errors.{GraphDbError, ok, err}
use aira_graphdb.Graph.{InMemoryGraphStore}
use aira_graphdb.Str.{length, contains, starts_with, trim}
use aira_graphdb.Query.{F64, CypherDialect, open_cypher9, neo4j_compat, panics, out_of_fuel}
use aira_graphdb.Query.Case.{execute_return_expression}
use aira_graphdb.Query.Match.{execute_match, execute_optional_match}
use aira_graphdb.Query.Relationship.{execute_match_relationship}
use aira_graphdb.Query.Union.{UnionSplit, single, split_panics, branches_of, split_top_level_union}
use aira_graphdb.Query.Merge.{Executed, execute_union_query}
use aira_graphdb.Query.Dialect.{reject_neo4j_compat_extension}
use aira_graphdb.Query.Execute.{
  reads, execute_call_subquery, execute_exists_subquery_match, rewrite_with, execute_clause,
}

abbrev is_relationship : String → Bool
is_relationship q = contains q "-[r]->(" || contains q "-[r]-("

abbrev pub refused_by : CypherDialect → String → Option GraphDbError
refused_by open_cypher9 q = none
refused_by neo4j_compat q = reject_neo4j_compat_extension q

module _ (run : String → InMemoryGraphStore → Executed) (f : F64) where
  -- The clauses behind the rewritings.
  unfoldable pub execute_single : InMemoryGraphStore → String → Executed
  unfolding starts_with contains execute_exists_subquery_match execute_match_relationship
      execute_match execute_optional_match execute_clause
  execute_single store q =
      if starts_with q "MATCH " && contains q " WHERE EXISTS {"
      then (execute_exists_subquery_match run f store q, store)
      else if starts_with q "MATCH "
      then reads store (
          if is_relationship q
          then execute_match_relationship f store q false
          else execute_match f store q)
      else if starts_with q "OPTIONAL MATCH "
      then reads store (
          if is_relationship q
          then execute_match_relationship f store q true
          else execute_optional_match f store q)
      else execute_clause f store q

  -- What is no `UNION`.
  unfoldable pub execute_branch : InMemoryGraphStore → String → Executed
  unfolding starts_with execute_return_expression execute_call_subquery rewrite_with execute_single
  execute_branch store q =
      if starts_with q "RETURN "
      then (execute_return_expression f q, store)
      else if starts_with q "CALL {"
      then execute_call_subquery run store q
      else (elim (rewrite_with q) [ err e ↦ reads store (err e) | ok q' ↦ execute_single store q' ])

  abbrev pub by_split : InMemoryGraphStore → String → UnionSplit → Executed
  by_split store q split_panics = (panics, store)
  by_split store q (branches_of branches mode) = execute_union_query run branches mode store
  by_split store q single = execute_branch store q

  -- The whole body, on the trimmed query.
  unfoldable pub execute_body : CypherDialect → InMemoryGraphStore → String → Executed
  unfolding reject_neo4j_compat_extension split_top_level_union execute_union_query execute_branch
  execute_body dialect store q = elim (refused_by dialect q) [
    | some e ↦ reads store (err e)
    | none ↦ by_split store q (split_top_level_union q)
  ]

unfoldable pub execute_with_fuel : ℕ → F64 → CypherDialect → String → InMemoryGraphStore → Executed
unfolding execute_body trim
execute_with_fuel zero f dialect query store = (out_of_fuel, store)
execute_with_fuel (suc fuel) f dialect query store =
    execute_body (λ part. execute_with_fuel fuel f dialect part) f dialect store (trim query)

unfoldable pub execute_query_with_dialect :
    F64 → InMemoryGraphStore → String → CypherDialect → Executed
unfolding execute_with_fuel length
execute_query_with_dialect f store query dialect =
    execute_with_fuel (length query + 1) f dialect query store

unfoldable pub execute_query : F64 → InMemoryGraphStore → String → Executed
unfolding execute_query_with_dialect
execute_query f store query = execute_query_with_dialect f store query CypherDialect.open_cypher9
