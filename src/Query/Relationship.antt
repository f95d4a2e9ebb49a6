-- ===== src/Query/Relationship.antt =====
-- `MATCH (n)-[r]->(m) RETURN n,r,m` and its variants: a row for each edge.
use aira_graphdb.Base.{
  ℕ, ◌+◌, String, Bool, true, false, not, Option, none, some, List, [], ◌∷◌, ◌++◌, ◌==◌, string_eq,
  any, if◌then◌else◌,
}
use aira_graphdb.HashMap
use aira_graphdb.Errors.{ErrorCode, Result, ok, err, new}
use aira_graphdb.Graph.{
  InMemoryGraphStore, GraphNode, GraphEdge, Value, list_nodes, list_edges, get_node,
}
use aira_graphdb.Str.{length, take, drop, find, contains, starts_with, trim, is_empty}
use aira_graphdb.Query.{F64, QueryResult, ◌>>=◌, syntax_error, unsupported_in, or_error}
use aira_graphdb.Query.Modifiers.{apply_table_modifiers}

-- `split("RETURN").next()`
abbrev before_return : String → String
before_return s = elim (find s "RETURN") [ none ↦ s | some idx ↦ take idx s ]

abbrev weight_marker : String
weight_marker = "r.weight >"

unfoldable pub weight_condition : F64 → String → Result (Option ℕ)
unfolding starts_with drop length trim
weight_condition f condition =
    if is_empty condition
    then ok none
    else if not (starts_with condition weight_marker)
    then err (unsupported_in "WHERE" "WHERE in relationship query supports only r.weight > <num>")
    else (do
      value ←
          or_error (syntax_error "invalid r.weight numeric value")
            (f.parse (trim (drop (length weight_marker) condition)))
      ok (some value))

unfoldable pub parse_relationship_weight_filter : F64 → String → Result (Option ℕ)
unfolding find take drop trim weight_condition
parse_relationship_weight_filter f query = elim (find query "WHERE ") [
  | none ↦ ok none
  | some where_idx ↦ weight_condition f (trim (before_return (drop (where_idx + 6) query)))
]

-- The weight of an edge: a number under that name, or 0.0.
abbrev number_of : F64 → Option Value → ℕ
number_of f (some (Value.int64 n)) = f.from_i64 n
number_of f (some (Value.float64 n)) = n
number_of f _ = 0

unfoldable pub weight : F64 → GraphEdge → ℕ
weight f edge = number_of f (HashMap.get "weight" edge.properties)

unfoldable pub passes_weight : F64 → Option ℕ → GraphEdge → Bool
unfolding weight
passes_weight f none edge = true
passes_weight f (some min_weight) edge = not (f.le (weight f edge) min_weight)

-- What the loop over the edges has gathered.
pub record Gathered : Type 0 where
  pub rows : List (List Value)
  pub matched_source_ids : List String
  pub matched_any_ids : List String

abbrev pub row : String → String → String → List Value
row a b c = Value.string a ∷ Value.string b ∷ Value.string c ∷ []

abbrev reversed : Bool → GraphNode → GraphEdge → GraphNode → List (List Value)
reversed true source edge target = []
reversed false source edge target = row target.id edge.id source.id ∷ []

abbrev pub gather : Bool → GraphNode → GraphEdge → GraphNode → Gathered → Gathered
gather directed source edge target g = record {
  rows = g.rows ++ (row source.id edge.id target.id ∷ reversed directed source edge target);
  matched_source_ids = source.id ∷ g.matched_source_ids;
  matched_any_ids = target.id ∷ source.id ∷ g.matched_any_ids;
}

unfoldable pub gather_edge : InMemoryGraphStore → Bool → GraphEdge → Gathered → Result Gathered
unfolding get_node
gather_edge store directed edge g = do
  source ←
      or_error (new ErrorCode.referential_integrity_violation "missing edge source node")
        (get_node store edge.from)
  target ←
      or_error (new ErrorCode.referential_integrity_violation "missing edge target node")
        (get_node store edge.to)
  ok (gather directed source edge target g)

unfoldable pub gather_edges :
    F64 → InMemoryGraphStore → Bool → Option ℕ → List GraphEdge → Gathered → Result Gathered
unfolding passes_weight gather_edge
gather_edges f store directed weight_filter [] g = ok g
gather_edges f store directed weight_filter (edge ∷ edges) g =
    elim (passes_weight f weight_filter edge) [
      | false ↦ gather_edges f store directed weight_filter edges g
      | true ↦ elim (gather_edge store directed edge g) [
        | err e ↦ err e
        | ok g' ↦ gather_edges f store directed weight_filter edges g'
      ]
    ]

abbrev pub matched_ids : Bool → Gathered → List String
matched_ids true g = g.matched_source_ids
matched_ids false g = g.matched_any_ids

-- The rows of the nodes that no edge matched.
unfoldable pub unmatched_rows : List String → List GraphNode → List (List Value)
unmatched_rows ids [] = []
unmatched_rows ids (node ∷ nodes) =
    let rest = unmatched_rows ids nodes in
    if any (λ i. i == node.id) ids then rest else row node.id "NULL" "NULL" ∷ rest

abbrev pub optional_rows : Bool → Bool → InMemoryGraphStore → Gathered → List (List Value)
optional_rows false directed store g = []
optional_rows true directed store g = unmatched_rows (matched_ids directed g) (list_nodes store)

unfoldable pub build_relationship_rows :
    F64 → InMemoryGraphStore → Bool → Bool → Option ℕ → Result (List (List Value))
unfolding list_edges list_nodes gather_edges unmatched_rows
build_relationship_rows f store directed optional weight_filter = do
  g ←
      gather_edges f store directed weight_filter (list_edges store)
        (record { rows = []; matched_source_ids = []; matched_any_ids = [] })
  ok (g.rows ++ optional_rows optional directed store g)

abbrev direction : String → Result Bool
direction query =
    if contains query "-[r]->("
    then ok true
    else if contains query "-[r]-("
    then ok false
    else err (unsupported_in "MATCH" "unsupported relationship pattern")

unfoldable pub execute_match_relationship :
    F64 → InMemoryGraphStore → String → Bool → Result QueryResult
unfolding contains parse_relationship_weight_filter build_relationship_rows apply_table_modifiers
execute_match_relationship f store query optional =
    if not (contains query "RETURN n,r,m")
    then err (unsupported_in "MATCH" "relationship query must return n,r,m")
    else (do
      directed ← direction query
      weight_filter ← parse_relationship_weight_filter f query
      built ← build_relationship_rows f store directed optional weight_filter
      rows ← apply_table_modifiers built query
      ok (QueryResult.table ("n" ∷ "r" ∷ "m" ∷ []) rows))
