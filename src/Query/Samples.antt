-- ===== src/Query/Samples.antt =====
-- The query language on concrete queries. The arithmetic of `f64` is that of whole numbers here.
use aira_graphdb.Base.{
  ℕ, ◌+◌, String, true, false, none, List, [], ◌∷◌, ◌≡◌, refl, leb, filter, ◌++◌, arith,
}
use aira_graphdb.Base.Decimal.{to_string}
use aira_graphdb.Errors.{ok, err}
use aira_graphdb.HashMap
use aira_graphdb.HashMap.{values}
use aira_graphdb.Graph.{
  InMemoryGraphStore, ℤ, pos, negsuc, Value, Properties, GraphNode, new, create_node,
  find_node_by_label_and_props, find_in, list_nodes, list_edges, value_eq,
}
use aira_graphdb.Graph.Valid.{new-IsValid}
use aira_graphdb.Graph.Reach.{Reach}
use aira_graphdb.Graph.Samples.{joined, joined_sound}
use aira_graphdb.Str.{trim, contains_upper}
use aira_graphdb.Query.{F64, CypherDialect, QueryResult, Outcome, returns, panics, syntax_error}
use aira_graphdb.Query.Modifiers.{ReturnModifiers, parse_return_modifiers, apply_return_modifiers}
use aira_graphdb.Query.Relationship.{passes_weight, build_relationship_rows}
use aira_graphdb.Query.Write.{merge_node}
use aira_graphdb.Query.Union.{UnionMode}
use aira_graphdb.Query.Merge.{Executed, execute_union_query}
use aira_graphdb.Query.Dispatch.{execute_query, execute_query_with_dialect}
use aira_graphdb.Query.Effects.{gives_rows}
use aira_graphdb.Query.Fuel.{is_out_of_fuel, execute_query_returns}
use aira_graphdb.Query.Reached.{execute_query-Reach}
use aira_graphdb.Query.Rows.{all_rows, lone_rows, build_relationship_rows_lem}
use aira_graphdb.Query.Again.{merge_node_again}
use aira_graphdb.Query.Unions.{IsUnion, execute_union_query-IsUnion}
use aira_graphdb.Query.Window.{IsWindow, apply_return_modifiers_lem}
use aira_graphdb.Query.Panic.{ends_outside, execute_query_panics}

abbrev magnitude : ℤ → ℕ
magnitude (pos n) = n
magnitude (negsuc n) = n

abbrev total : List ℕ → ℕ
total [] = 0
total (n ∷ ns) = n + total ns

abbrev pub whole : F64
whole = record {
  parse = λ s. none;
  from_i64 = magnitude;
  le = leb;
  sum = total;
  div = λ a b. a;
  min = λ a b. b;
  max = λ a b. b;
  is_finite = λ n. true;
  display = to_string;
}

abbrev run : String → Outcome QueryResult
unfolding execute_query
run q = (execute_query whole new q).0

abbrev one_int : String → ℕ → Outcome QueryResult
one_int column n = returns (ok (QueryResult.table (column ∷ []) ((Value.int64 (pos n) ∷ []) ∷ [])))

-- Tests of the executor
counted : run "UNWIND [1,1] AS x RETURN count(x)" ≡ one_int "count" 2
unfolding run
counted = refl

subquery :
    run "CALL { UNWIND [1,1] AS x RETURN x UNION UNWIND [2] AS x RETURN x } RETURN count(*)"
    ≡ one_int "count" 2
unfolding run
subquery = refl

shared_space : run "RETURN CASE WHEN 1=1 THEN ELSE 2 END" ≡ panics
unfolding run
shared_space = refl

wide_name : run "MATCH (n:Café) RETURN n" ≡ returns (ok (QueryResult.nodes []))
unfolding run values
wide_name = refl

bad_assignment : execute_query whole new "MERGE (n:City) ON CREATE SET nonsense" ≡ (
  returns (err (syntax_error "assignment must be key=value or key:value")),
  (create_node new ("City" ∷ []) []).0,
)
unfolding execute_query find_node_by_label_and_props find_in values
bad_assignment = refl

-- The theorems at concrete queries
abbrev union_query : String
union_query = "UNWIND [1,1] AS x RETURN x UNION UNWIND [2] AS x RETURN x"

execute_query_returns_example :
    is_out_of_fuel (execute_query_with_dialect whole new union_query CypherDialect.open_cypher9).0
    ≡ false
execute_query_returns_example =
    execute_query_returns whole CypherDialect.open_cypher9 union_query new

abbrev create_query : String
create_query = "CREATE (n:City {name:'x'})"

execute_query-Reach_example :
    Reach (execute_query_with_dialect whole new create_query CypherDialect.open_cypher9).1
    × (gives_rows (execute_query_with_dialect whole new create_query CypherDialect.open_cypher9).0
          ≡ true
        → (execute_query_with_dialect whole new create_query
            CypherDialect.open_cypher9).1.next_node_seq
          ≡ new.next_node_seq)
execute_query-Reach_example =
    execute_query-Reach whole new create_query CypherDialect.open_cypher9 Reach.start (omega arith)

build_relationship_rows_lem_example :
    build_relationship_rows whole joined true true none
    ≡ ok (
        all_rows true (filter (passes_weight whole none) (list_edges joined))
        ++ lone_rows true true
            (filter (passes_weight whole none) (list_edges joined))
            (list_nodes joined))
build_relationship_rows_lem_example =
    build_relationship_rows_lem whole joined true true none joined_sound.0 joined_sound.1

abbrev city : Properties
city = ("name", Value.string "x") ∷ []

merge_node_again_example :
    (merge_node whole new "" "City" city).0 ≡ ok QueryResult.ack
    × (merge_node whole (merge_node whole new "" "City" city).1 "" "City" city
        ≡ (ok QueryResult.ack, (merge_node whole new "" "City" city).1))
unfolding value_eq HashMap.get
merge_node_again_example =
    merge_node_again whole "City" city new new-IsValid (omega arith) (refl, tt) (refl, tt)

abbrev twin : GraphNode
twin = record { id = "n1"; labels = []; properties = [] }

abbrev run_part : String → InMemoryGraphStore → Executed
run_part part s = execute_query_with_dialect whole s part CypherDialect.open_cypher9

abbrev int_row : ℕ → List Value
int_row n = Value.int64 (pos n) ∷ []

abbrev union_parts : List String
union_parts = "UNWIND [1,1] AS x RETURN x" ∷ "UNWIND [2,1] AS x RETURN x" ∷ []

union_executed :
    execute_union_query run_part union_parts UnionMode.distinct new
    ≡ (returns (ok (QueryResult.table ("x" ∷ []) (int_row 1 ∷ int_row 2 ∷ []))), new)
unfolding execute_union_query execute_query
union_executed = refl

execute_union_query-IsUnion_example :
    IsUnion run_part union_parts new new (QueryResult.table ("x" ∷ []) (int_row 1 ∷ int_row 2 ∷ []))
execute_union_query-IsUnion_example =
    execute_union_query-IsUnion run_part union_parts new new
      (QueryResult.table ("x" ∷ []) (int_row 1 ∷ int_row 2 ∷ [])) union_executed

abbrev window_query : String
window_query = "RETURN n SKIP 1 LIMIT 1"

apply_return_modifiers_lem_example :
    (m : ReturnModifiers) × ((parse_return_modifiers window_query ≡ ok m)
      × IsWindow m.skip m.limit (twin ∷ twin ∷ twin ∷ []) (twin ∷ []))
unfolding apply_return_modifiers
apply_return_modifiers_lem_example =
    apply_return_modifiers_lem (twin ∷ twin ∷ twin ∷ []) (twin ∷ []) window_query refl

execute_query_panics_example :
    execute_query_with_dialect whole new "MATCH (n) RETURN é" CypherDialect.open_cypher9
    ≡ (panics, new)
unfolding trim contains_upper ends_outside
execute_query_panics_example =
    execute_query_panics whole new "MATCH (n) RETURN é" "MATCH (n) RETURN " "" "é" refl
      (omega arith) refl refl
