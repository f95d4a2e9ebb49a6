-- ===== src/Query/Merge.antt =====
-- `UNION`: the results of the branches in one.
use aira_graphdb.Base.{
  String, Bool, true, false, not, ◌&&◌, Option, none, some, List, [], ◌∷◌, ◌++◌, ◌==◌, string_eq,
  retain_new, if◌then◌else◌,
}
use aira_graphdb.Errors.{Result, ok, err}
use aira_graphdb.Graph.{InMemoryGraphStore, GraphNode, Value, value_eq}
use aira_graphdb.Query.{QueryResult, Outcome, returns, and_then, unsupported_in}
use aira_graphdb.Query.Union.{UnionMode}

pub data Kind : Type 0 where
  node_kind table_kind : Kind

-- What the loop over the branches has gathered.
pub record Merged : Type 0 where
  pub node_rows : List GraphNode
  pub table_columns : Option (List String)
  pub table_rows : List (List Value)
  pub result_kind : Option Kind

abbrev pub nothing_merged : Merged
nothing_merged = record {
  node_rows = [];
  table_columns = none;
  table_rows = [];
  result_kind = none;
}

abbrev mismatch : Result Merged
mismatch = err (unsupported_in "UNION" "UNION branch result kinds must match")

unfoldable pub texts_eq : List String → List String → Bool
texts_eq [] [] = true
texts_eq (s ∷ ss) (t ∷ ts) = (s == t) && texts_eq ss ts
texts_eq _ _ = false

abbrev pub columns_match : Option (List String) → List String → Bool
columns_match none columns = true
columns_match (some existing) columns = texts_eq existing columns

abbrev pub columns_or : List String → Option (List String) → List String
columns_or columns none = columns
columns_or columns (some existing) = existing

abbrev pub merge_nodes : Option Kind → List GraphNode → Merged → Result Merged
merge_nodes (some table_kind) nodes m = mismatch
merge_nodes _ nodes m =
    ok (record m { node_rows = m.node_rows ++ nodes; result_kind = some node_kind })

abbrev pub merge_table : Option Kind → List String → List (List Value) → Merged → Result Merged
merge_table (some node_kind) columns rows m = mismatch
merge_table _ columns rows m =
    if not (columns_match m.table_columns columns)
    then err (unsupported_in "UNION" "UNION branch columns must match")
    else ok (record m {
      table_columns = some (columns_or columns m.table_columns);
      table_rows = m.table_rows ++ rows;
      result_kind = some table_kind;
    })

unfoldable pub merge_branch : QueryResult → Merged → Result Merged
unfolding texts_eq
merge_branch (QueryResult.nodes nodes) m = merge_nodes m.result_kind nodes m
merge_branch (QueryResult.table columns rows) m = merge_table m.result_kind columns rows m
merge_branch QueryResult.ack m = err (unsupported_in "UNION" "UNION does not support ACK branches")

unfoldable pub keep_distinct {ℓ} : {A : Type ℓ} → (A → A → Bool) → UnionMode → List A → List A
unfolding retain_new
keep_distinct same UnionMode.all items = items
keep_distinct same UnionMode.distinct items = retain_new same [] items

abbrev pub same_node : GraphNode → GraphNode → Bool
same_node a b = a.id == b.id

unfoldable pub same_row : List Value → List Value → Bool
unfolding value_eq
same_row [] [] = true
same_row (v ∷ vs) (w ∷ ws) = value_eq v w && same_row vs ws
same_row _ _ = false

abbrev pub union_of : Option Kind → UnionMode → Merged → Result QueryResult
union_of (some node_kind) mode m = ok (QueryResult.nodes (keep_distinct same_node mode m.node_rows))
union_of (some table_kind) mode m =
    ok
      (QueryResult.table (columns_or [] m.table_columns) (keep_distinct same_row mode m.table_rows))
union_of none mode m = err (unsupported_in "UNION" "UNION requires at least one branch")

unfoldable pub union_result : UnionMode → Merged → Result QueryResult
unfolding keep_distinct same_row
union_result mode m = union_of m.result_kind mode m

-- What a query gives, and the graph after it.
abbrev pub Executed : Type 0
Executed = Outcome QueryResult × InMemoryGraphStore

-- `run` executes one branch. The loop stops at the first that fails.
module _ (run : String → InMemoryGraphStore → Executed) where
  unfoldable pub merge_branches :
      List String → Merged → InMemoryGraphStore → Outcome Merged × InMemoryGraphStore
  unfolding merge_branch
  merge_branches [] m store = (returns (ok m), store)
  merge_branches (branch ∷ branches) m store =
      let (outcome, store') = run branch store in
      and_then
        (λ result store''. elim (merge_branch result m) [
          | err e ↦ (returns (err e), store'')
          | ok m' ↦ merge_branches branches m' store''
        ])
        outcome store'

  unfoldable pub execute_union_query : List String → UnionMode → InMemoryGraphStore → Executed
  unfolding merge_branches union_result
  execute_union_query branches mode store =
      let (outcome, store') = merge_branches branches nothing_merged store in
      and_then (λ m store''. (returns (union_result mode m), store'')) outcome store'
