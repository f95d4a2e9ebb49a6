-- ===== src/Query/Dialect.antt =====
-- The dialect of a query, and the features that the Neo4j dialect refuses, which
-- `spec/contracts/agdb-cypher-neo4j-compat.v1.0.0.json` lists.
use Prim.Native.String.{◌++◌}
use aira_graphdb.Base.{
  String, Bool, true, false, not, ◌&&◌, ◌||◌, Option, none, some, List, [], ◌∷◌, map, filter, ◌==◌,
  string_eq, leb, if◌then◌else◌,
}
use aira_graphdb.Base.Sort.{sort_by}
use aira_graphdb.Errors.{GraphDbError}
use aira_graphdb.Str.{
  length, strip_prefix, trim, contains, contains_upper, starts_with_upper, ends_with_upper,
}
use aira_graphdb.Query.{CypherDialect, unsupported_in}

pub data RowComparisonStrategy : Type 0 where
  ordered multiset : RowComparisonStrategy

unfoldable pub resolve_row_comparison_strategy : String → RowComparisonStrategy
unfolding contains
resolve_row_comparison_strategy query =
    if contains query "ORDER BY"
    then RowComparisonStrategy.ordered
    else RowComparisonStrategy.multiset

abbrev prefixed : Option String → Option String → String → CypherDialect × String
prefixed (some rest) _ trimmed = (CypherDialect.neo4j_compat, trim rest)
prefixed none (some rest) trimmed = (CypherDialect.neo4j_compat, trim rest)
prefixed none none trimmed = (CypherDialect.open_cypher9, trimmed)

unfoldable pub resolve_cypher_dialect : String → Option CypherDialect → CypherDialect × String
unfolding trim strip_prefix
resolve_cypher_dialect query (some dialect) = (dialect, trim query)
resolve_cypher_dialect query none =
    let trimmed = trim query in
    prefixed (strip_prefix trimmed "CYPHER neo4j-compat ")
      (strip_prefix trimmed "CYPHER NEO4J_COMPAT ") trimmed

-- The clauses of the manifest and whether they have the status `unsupported`, in its order.
abbrev pub features : List (String × Bool)
features =
    ("MATCH", false)
    ∷ ("OPTIONAL MATCH", false)
    ∷ ("WHERE", false)
    ∷ ("WITH", false)
    ∷ ("RETURN", false)
    ∷ ("CREATE", false)
    ∷ ("MERGE", false)
    ∷ ("DELETE", false)
    ∷ ("DETACH DELETE", false)
    ∷ ("SET", false)
    ∷ ("REMOVE", false)
    ∷ ("UNWIND", false)
    ∷ ("CALL apoc.*", false)
    ∷ ("CALL apoc.meta.schema", false)
    ∷ ("CALL apoc.coll.*", false)
    ∷ ("CALL apoc.text.*", false)
    ∷ ("UNION", false)
    ∷ ("UNION ALL", false)
    ∷ ("CASE", false)
    ∷ ("FOREACH", true)
    ∷ ("EXISTS", false)
    ∷ ("CALL {", false)
    ∷ ("shortestPath", true)
    ∷ ("variable-length path", true)
    ∷ ("pattern comprehension", true)
    ∷ ("LOAD CSV", true)
    ∷ []

unfoldable pub feature_matches_query : String → String → Bool
unfolding contains_upper starts_with_upper ends_with_upper
feature_matches_query q clause =
    if clause == "UNION"
    then contains_upper q " UNION " || ends_with_upper q " UNION" || starts_with_upper q "UNION "
    else if clause == "UNION ALL"
    then contains_upper q " UNION ALL "
    else if clause == "FOREACH"
    then contains_upper q "FOREACH "
    else if clause == "CASE"
    then contains_upper q " CASE "
    else if clause == "EXISTS"
    then contains_upper q "EXISTS(" || contains_upper q "EXISTS {"
    else if clause == "CALL {"
    then contains_upper q "CALL {"
    else if clause == "shortestPath"
    then contains_upper q "SHORTESTPATH("
    else if clause == "variable-length path"
    then (contains_upper q "-[*" || contains_upper q "[*") && not (contains_upper q "SHORTESTPATH(")
    else if clause == "pattern comprehension"
    then (contains_upper q "RETURN [" || contains_upper q "WITH [" || contains_upper q "= [")
      && contains_upper q "|"
      && contains_upper q "]"
    else if clause == "LOAD CSV"
    then contains_upper q "LOAD CSV"
    else false

-- The clauses that are not supported, the longest first.
unfoldable pub unsupported_clauses : List String
unfolding sort_by length
unsupported_clauses =
    sort_by (λ a b. leb (length b) (length a)) (map (λ e. e.0) (filter (λ e. e.1) features))

unfoldable pub first_match : String → List String → Option String
unfolding feature_matches_query
first_match q [] = none
first_match q (clause ∷ clauses) =
    let later = first_match q clauses in
    if feature_matches_query q clause then some clause else later

abbrev refusal : Option String → Option GraphDbError
refusal none = none
refusal (some clause) =
    some
      (unsupported_in clause ("unsupported cypher extension for Neo4j compat baseline: " ++ clause))

unfoldable pub reject_neo4j_compat_extension : String → Option GraphDbError
unfolding first_match unsupported_clauses
reject_neo4j_compat_extension q = refusal (first_match q unsupported_clauses)
