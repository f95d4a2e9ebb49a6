-- ===== src/Query/Merges.antt =====
-- The rounds of the loop over the branches of a `UNION`, and what is made of what it gathered.
use aira_graphdb.Base.{
  ◌≡◌, ◌≢◌, sym, ◌∙◌, ap, String, true, List, [], ◌∷◌, ◌++◌, arith, refl, Option, some, none,
  string_eq, eq_iff, retain_new,
}
use aira_graphdb.Errors.{ok, err}
use aira_graphdb.Graph.{InMemoryGraphStore, GraphNode, Value}
use aira_graphdb.Query.{QueryResult, Outcome, returns, panics, out_of_fuel, and_then}
use aira_graphdb.Query.Union.{UnionMode}
use aira_graphdb.Query.Merge.{
  Kind, node_kind, table_kind, Merged, texts_eq, columns_match, columns_or, merge_nodes,
  merge_table, merge_branch, union_result, union_of, keep_distinct, same_node, same_row,
}

texts_eq_lem : (ss ts : List String) → texts_eq ss ts ≡ true → ss ≡ ts
unfolding texts_eq
texts_eq_lem [] [] h = refl
texts_eq_lem [] (t ∷ ts) h = absurd cc
texts_eq_lem (s ∷ ss) [] h = absurd cc
texts_eq_lem (s ∷ ss) (t ∷ ts) h = ground (arith, texts_eq_lem ss ts, eq_iff s t)

-- Nodes are merged behind nodes or nothing.
pub merge_nodes_lem :
    (kind : Option Kind) (nodes : List GraphNode) (m m' : Merged)
    → merge_nodes kind nodes m ≡ ok m'
    → (kind ≢ some table_kind)
      × (m'.node_rows ≡ m.node_rows ++ nodes)
      × (m'.result_kind ≡ some node_kind)
merge_nodes_lem none nodes m m' h = ground arith
merge_nodes_lem (some node_kind) nodes m m' h = ground arith
merge_nodes_lem (some table_kind) nodes m m' h = absurd cc

-- Rows are merged behind rows of the same columns or nothing.
pub merge_table_lem :
    (kind : Option Kind) (columns : List String) (rows : List (List Value)) (m m' : Merged)
    → merge_table kind columns rows m ≡ ok m'
    → (kind ≢ some node_kind)
      × (columns_match m.table_columns columns ≡ true)
      × (m'.table_rows ≡ m.table_rows ++ rows)
      × (m'.result_kind ≡ some table_kind)
      × (m'.table_columns ≡ some (columns_or columns m.table_columns))
merge_table_lem none columns rows m m' h = ground arith
merge_table_lem (some table_kind) columns rows m m' h = ground arith
merge_table_lem (some node_kind) columns rows m m' h = absurd cc

-- What is merged behind nodes.
pub nodes_round :
    (result : QueryResult) (m mid : Merged)
    → m.result_kind ≡ some node_kind
    → merge_branch result m ≡ ok mid
    → (part : List GraphNode) × (result ≡ QueryResult.nodes part)
      × (mid.node_rows ≡ m.node_rows ++ part)
      × (mid.result_kind ≡ some node_kind)
unfolding merge_branch
nodes_round (QueryResult.nodes part) m mid kind merged =
    let (_, rows, kind') = merge_nodes_lem m.result_kind part m mid merged in
    (part, refl, rows, kind')
nodes_round (QueryResult.table columns rows) m mid kind merged =
    absurd ((merge_table_lem m.result_kind columns rows m mid merged).0 kind)
nodes_round QueryResult.ack m mid kind merged = absurd cc

-- What is merged behind rows.
pub rows_round :
    (columns : List String) (result : QueryResult) (m mid : Merged)
    → m.result_kind ≡ some table_kind
    → m.table_columns ≡ some columns
    → merge_branch result m ≡ ok mid
    → (part : List (List Value)) × (result ≡ QueryResult.table columns part)
      × (mid.table_rows ≡ m.table_rows ++ part)
      × (mid.result_kind ≡ some table_kind)
      × (mid.table_columns ≡ some columns)
unfolding merge_branch
rows_round columns (QueryResult.table columns' part) m mid kind named merged =
    let (_, match, rows, kind', named') =
      merge_table_lem m.result_kind columns' part m mid merged in
    let same : columns ≡ columns' =
      texts_eq_lem columns columns' (ap (λ c. columns_match c columns') (sym named) ∙ match) in
    (
      part,
      ap (λ c. QueryResult.table c part) (sym same),
      rows,
      kind',
      named' ∙ ap (λ c. some (columns_or columns' c)) named,
    )
rows_round columns (QueryResult.nodes nodes) m mid kind named merged =
    absurd ((merge_nodes_lem m.result_kind nodes m mid merged).0 kind)
rows_round columns QueryResult.ack m mid kind named merged = absurd cc

pub ok_injective : {A : Type 0} {a b : A} → ok a ≡ ok b → a ≡ b
ok_injective h = cc

-- The result where nodes were merged.
pub union_nodes :
    (m : Merged) (items : List GraphNode) (result : QueryResult)
    → m.result_kind ≡ some node_kind
    → m.node_rows ≡ items
    → union_result UnionMode.distinct m ≡ ok result
    → QueryResult.nodes (retain_new same_node [] items) ≡ result
unfolding union_result keep_distinct
union_nodes m items result kind rows h =
    let shown : union_of (some node_kind) UnionMode.distinct m ≡ ok result =
      ap (λ k. union_of k UnionMode.distinct m) (sym kind) ∙ h in
    ap (λ l. QueryResult.nodes (retain_new same_node [] l)) (sym rows) ∙ ok_injective shown

-- The result where rows were merged.
pub union_rows :
    (m : Merged) (columns : List String) (items : List (List Value)) (result : QueryResult)
    → m.result_kind ≡ some table_kind
    → m.table_columns ≡ some columns
    → m.table_rows ≡ items
    → union_result UnionMode.distinct m ≡ ok result
    → QueryResult.table columns (retain_new same_row [] items) ≡ result
unfolding union_result keep_distinct
union_rows m columns items result kind named rows h =
    let shown : union_of (some table_kind) UnionMode.distinct m ≡ ok result =
      ap (λ k. union_of k UnionMode.distinct m) (sym kind) ∙ h in
    ap (λ l. QueryResult.table columns (retain_new same_row [] l)) (sym rows)
    ∙ (ap (λ c. QueryResult.table (columns_or [] c) (retain_new same_row [] m.table_rows))
          (sym named)
        ∙ ok_injective shown)

-- What succeeds after the loop.
pub merged_before :
    (e : Outcome Merged × InMemoryGraphStore) (t : InMemoryGraphStore) (result : QueryResult)
    → and_then (λ m store. (returns (union_result UnionMode.distinct m), store)) e.0 e.1
      ≡ (returns (ok result), t)
    → (m : Merged) × (e ≡ (returns (ok m), t)) × (union_result UnionMode.distinct m ≡ ok result)
merged_before (returns (ok m), store) t result h = (m, ground (arith, h), ground (arith, h))
merged_before (returns (err e), store) t result h = absurd (ground (arith, h))
merged_before (panics, store) t result h = absurd (ground (arith, h))
merged_before (out_of_fuel, store) t result h = absurd (ground (arith, h))
