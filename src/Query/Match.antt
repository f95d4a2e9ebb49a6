-- ===== src/Query/Match.antt =====
-- `MATCH (n:Label) WHERE n.id = '…' RETURN n`.
use aira_graphdb.Base.{
  ◌+◌, ◌-◌, String, Bool, true, false, not, ◌&&◌, ◌||◌, Option, none, some, List, ◌∷◌, ◌==◌,
  string_eq, filter, if◌then◌else◌,
}
use aira_graphdb.Errors.{Result, ok, err}
use aira_graphdb.Graph.{InMemoryGraphStore, GraphNode, Value, list_nodes, has_label}
use aira_graphdb.Str.{
  length, take, drop, find, contains, starts_with, trim, split_whitespace, split_once,
  trim_start_matches,
}
use aira_graphdb.Query.{
  F64, QueryResult, ◌>>=◌, syntax_error, unsupported, unsupported_in, or_error,
}
use aira_graphdb.Query.Literals.{parse_value}
use aira_graphdb.Query.Modifiers.{apply_return_modifiers}
use aira_graphdb.Query.With.{replace_first}

-- The label and the id that the nodes must have.
pub record MatchFilters : Type 0 where
  pub label : Option String
  pub id : Option String

abbrev pattern_label : String → Option String
pattern_label pattern = elim (find pattern ":") [
  | none ↦ none
  | some colon ↦ some (trim (take (length pattern - 1 - (colon + 1)) (drop (colon + 1) pattern)))
]

abbrev has_second : List String → Bool
has_second (a ∷ b ∷ ws) = true
has_second _ = false

abbrev string_of : Value → Result String
string_of (Value.string id) = ok id
string_of _ = err (unsupported "n.id filter must be string")

unfoldable pub id_condition : F64 → String → Result String
unfolding split_once trim parse_value
id_condition f condition = do
  let parts = split_once b'=' condition
  right ← or_error (unsupported "WHERE supports only equality") parts.1
  parsed ←
      (if trim parts.0 == "n.id"
        then parse_value f (trim right)
        else err (unsupported "WHERE currently supports n.id equality only"))
  string_of parsed

-- What stands behind the pattern.
unfoldable pub remainder_filters : F64 → Option String → String → Result MatchFilters
unfolding starts_with split_whitespace trim_start_matches trim find take id_condition
remainder_filters f label remainder =
    if not (starts_with remainder "RETURN ") && not (starts_with remainder "WHERE ")
    then err (unsupported "unsupported MATCH remainder")
    else if starts_with remainder "RETURN "
    then (if has_second (split_whitespace remainder)
        then ok (record { label = label; id = none })
        else err (syntax_error "RETURN requires a projection variable"))
    else (do
      let where_part = trim (trim_start_matches remainder "WHERE ")
      return_idx ← or_error (syntax_error "WHERE must end with RETURN") (find where_part "RETURN ")
      id ← id_condition f (trim (take return_idx where_part))
      ok (record { label = label; id = some id }))

unfoldable pub parse_match_filters : F64 → String → Result MatchFilters
unfolding trim_start_matches trim find take drop length remainder_filters
parse_match_filters f query = do
  let after_match = trim (trim_start_matches query "MATCH ")
  pattern_end ← or_error (syntax_error "invalid MATCH pattern") (find after_match ")")
  remainder_filters f (pattern_label (take (pattern_end + 1) after_match))
      (trim (drop (pattern_end + 1) after_match))

abbrev pub keep_label : Option String → List GraphNode → List GraphNode
keep_label none nodes = nodes
keep_label (some label) nodes = filter (has_label label) nodes

abbrev pub keep_id : Option String → List GraphNode → List GraphNode
keep_id none nodes = nodes
keep_id (some id) nodes = filter (λ (node : GraphNode). node.id == id) nodes

unfoldable pub execute_match : F64 → InMemoryGraphStore → String → Result QueryResult
unfolding trim starts_with contains parse_match_filters list_nodes apply_return_modifiers
execute_match f store query =
    let compact = trim query in
    if not (starts_with compact "MATCH ") || not (contains compact "RETURN ")
    then err (unsupported_in "MATCH" "unsupported MATCH form")
    else (do
      filters ← parse_match_filters f compact
      nodes ←
          apply_return_modifiers (keep_id filters.id (keep_label filters.label (list_nodes store)))
            compact
      ok (QueryResult.nodes nodes))

unfoldable pub execute_optional_match : F64 → InMemoryGraphStore → String → Result QueryResult
unfolding execute_match replace_first
execute_optional_match f store query =
    execute_match f store (replace_first query "OPTIONAL MATCH" "MATCH")
