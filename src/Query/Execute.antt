-- ===== src/Query/Execute.antt =====
-- `execute_query_with_dialect`: the clause of a query is chosen by its first word. A `UNION` and the
-- two forms of subquery run a part of the query as a query.
use Prim.Native.String.{◌++◌}
use aira_graphdb.Base.{
  ℕ, ◌+◌, ◌-◌, zero, suc, String, Bool, true, false, not, ◌&&◌, ◌||◌, Option, none, some, List, [],
  ◌∷◌, ◌==◌, string_eq, nat_eq, if◌then◌else◌,
}
use aira_graphdb.Base
use aira_graphdb.Errors.{ErrorCode, Result, ok, err, new, with_detail}
use aira_graphdb.Graph.{InMemoryGraphStore, Value, pos}
use aira_graphdb.Str.{
  length, take, drop, find, contains, starts_with, strip_prefix, trim, trim_start, split_whitespace,
  is,
}
use aira_graphdb.Query.{
  F64, QueryResult, Outcome, returns, panics, out_of_fuel, ◌>>=◌, syntax_error, unsupported_in,
  or_error,
}
use aira_graphdb.Query.Literals.{or_text}
use aira_graphdb.Query.Modifiers.{first_word}
use aira_graphdb.Query.With.{replace_first, normalize_with_query}
use aira_graphdb.Query.Match.{execute_match}
use aira_graphdb.Query.Write.{
  Written, execute_create, execute_merge, execute_set, execute_remove, execute_delete,
}
use aira_graphdb.Query.Unwind.{execute_unwind}
use aira_graphdb.Query.Procedure.{execute_call}
use aira_graphdb.Query.Merge.{Executed}

-- The number of the characters before the brace that closes the body.
unfoldable pub body_end : ℕ → Bool → ℕ → String → Option ℕ
body_end depth quoted idx String.[] = none
body_end depth quoted idx (String.◌∷◌ c s) =
    let toggled = body_end depth (not quoted) (idx + 1) s in
    let same = body_end depth quoted (idx + 1) s in
    let deeper = body_end (depth + 1) quoted (idx + 1) s in
    let shallower = body_end (depth - 1) quoted (idx + 1) s in
    if is b'\'' c
    then toggled
    else if quoted
    then same
    else if is b'{' c
    then deeper
    else if is b'}' c
    then (if nat_eq (depth - 1) 0 then some idx else shallower)
    else same

unfoldable pub split_subquery_body : String → Result (String × String)
unfolding body_end take drop
split_subquery_body body = do
  idx ← or_error (syntax_error "invalid subquery body") (body_end 1 false 0 body)
  ok (take idx body, drop (idx + 1) body)

unfoldable pub subquery_row_count : QueryResult → Result ℕ
subquery_row_count (QueryResult.nodes nodes) = ok (Base.length nodes)
subquery_row_count (QueryResult.table columns rows) = ok (Base.length rows)
subquery_row_count QueryResult.ack = err (unsupported_in "CALL {" "subquery must produce rows")

abbrev counted : ℕ → QueryResult
counted n = QueryResult.table ("count" ∷ []) ((Value.int64 (pos n) ∷ []) ∷ [])

unfoldable pub project_subquery : String → QueryResult → Result QueryResult
unfolding subquery_row_count
project_subquery projection inner_result =
    if projection == "count(*)"
    then (do n ← subquery_row_count inner_result; ok (counted n))
    else if projection == "*"
    then ok inner_result
    else err (unsupported_in "CALL {" "unsupported CALL subquery projection")

-- The query between the braces, and the projection behind them.
unfoldable pub parse_call_subquery : String → Result (String × String)
unfolding strip_prefix split_subquery_body trim_start trim
parse_call_subquery query = do
  call ← or_error (syntax_error "invalid CALL subquery syntax") (strip_prefix query "CALL {")
  (inner_query, tail) ← split_subquery_body call
  projection ←
      or_error (unsupported_in "CALL {" "CALL subquery requires RETURN")
        (strip_prefix (trim_start tail) "RETURN ")
  ok (trim inner_query, trim projection)

-- The query between the braces, and the query without the `EXISTS`.
unfoldable pub parse_exists : String → Result (String × String)
unfolding find take drop length trim trim_start split_subquery_body
parse_exists query = do
  exists_idx ←
      or_error (syntax_error "invalid EXISTS subquery syntax") (find query " WHERE EXISTS {")
  let outer_match = trim (take exists_idx query)
  (inner_query, tail) ← split_subquery_body (drop (exists_idx + length " WHERE EXISTS {") query)
  ok (trim inner_query, outer_match ++ (" " ++ trim_start tail))

-- The nodes of the rewritten query, if the subquery gave a row.
unfoldable pub match_if_exists :
    F64 → InMemoryGraphStore → String → QueryResult → Result QueryResult
unfolding subquery_row_count execute_match
match_if_exists f store rewritten inner_result = do
  n ← subquery_row_count inner_result
  if nat_eq n 0 then ok (QueryResult.nodes []) else execute_match f store rewritten

abbrev pub then_do : (QueryResult → Result QueryResult) → Outcome QueryResult → Outcome QueryResult
then_do k (returns (ok result)) = returns (k result)
then_do k (returns (err e)) = returns (err e)
then_do k panics = panics
then_do k out_of_fuel = out_of_fuel

-- `run` executes the query of a subquery.
module _ (run : String → InMemoryGraphStore → Executed) where
  unfoldable pub execute_call_subquery : InMemoryGraphStore → String → Executed
  unfolding parse_call_subquery project_subquery
  execute_call_subquery store query = elim (parse_call_subquery query) [
    | err e ↦ (returns (err e), store)
    | ok (inner_query, projection) ↦
        let (outcome, store') = run inner_query store in
        (then_do (project_subquery projection) outcome, store')
  ]

  -- The subquery runs on a clone of the graph.
  unfoldable pub execute_exists_subquery_match :
      F64 → InMemoryGraphStore → String → Outcome QueryResult
  unfolding parse_exists match_if_exists
  execute_exists_subquery_match f store query = elim (parse_exists query) [
    | err e ↦ returns (err e)
    | ok (inner_query, rewritten) ↦
        let (outcome, clone) = run inner_query store in
        then_do (match_if_exists f store rewritten) outcome
  ]

abbrev pub reads : InMemoryGraphStore → Result QueryResult → Executed
reads store result = (returns result, store)

abbrev pub writes : Written → Executed
writes (result, store) = (returns result, store)

abbrev pub is_match : String → Bool
is_match q = starts_with q "MATCH " || starts_with q "OPTIONAL MATCH "

abbrev pub long_with : String
long_with = " WITH n,r,m RETURN n,r,m"

-- The two rewritings of a `WITH`.
unfoldable pub rewrite_with : String → Result String
unfolding starts_with contains replace_first normalize_with_query
rewrite_with q =
    let q' =
      (if is_match q && contains q long_with
        then replace_first q long_with " RETURN n,r,m"
        else q) in
    if is_match q' && contains q' " WITH " then normalize_with_query q' else ok q'

unfoldable pub no_clause : String → Result QueryResult
unfolding split_whitespace
no_clause q = err (
    with_detail
      (new ErrorCode.unsupported_feature "unsupported cypher clause for openCypher 9 profile")
      "unsupported_clause" (or_text (first_word (split_whitespace q)) "UNKNOWN"))

-- The clauses that do not begin with a match.
unfoldable pub execute_clause : F64 → InMemoryGraphStore → String → Executed
unfolding starts_with execute_unwind execute_create execute_merge execute_delete execute_set
    execute_remove execute_call no_clause
execute_clause f store q =
    if starts_with q "UNWIND "
    then reads store (execute_unwind f q)
    else if starts_with q "CREATE "
    then writes (execute_create f store q)
    else if starts_with q "MERGE "
    then writes (execute_merge f store q)
    else if starts_with q "DELETE "
    then writes (execute_delete store q)
    else if starts_with q "SET "
    then writes (execute_set f store q)
    else if starts_with q "REMOVE "
    then writes (execute_remove store q)
    else if starts_with q "CALL "
    then writes (execute_call f store q)
    else reads store (no_clause q)
