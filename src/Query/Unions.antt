-- ===== src/Query/Unions.antt =====
-- `execute_union_query` from the branches to the result.
use aira_graphdb.Base.{
  ◌≡◌, sym, ◌∙◌, ap, String, List, [], ◌∷◌, ◌++◌, arith, refl, some, none, string_eq, retain_new,
}
use mathlib.Core.List.{append-nil, append_assoc}
use mathlib.Core.Path.{subst}
use aira_graphdb.Errors.{Result, ok, err}
use aira_graphdb.Graph.{InMemoryGraphStore, GraphNode, Value}
use aira_graphdb.Query.{QueryResult, returns, panics, out_of_fuel, and_then}
use aira_graphdb.Query.Union.{UnionMode}
use aira_graphdb.Query.Merge.{
  node_kind, table_kind, Merged, Executed, nothing_merged, merge_branch, merge_branches,
  union_result, execute_union_query, same_node, same_row,
}
use aira_graphdb.Query.Distinct.{
  SameNode, SameRow, IsDistinctOf, nodes-IsDistinctOf, rows-IsDistinctOf,
}
use aira_graphdb.Query.Merges.{
  merge_nodes_lem, merge_table_lem, nodes_round, rows_round, union_nodes, union_rows, merged_before,
}

module _ (run : String → InMemoryGraphStore → Executed) where
  -- The branches, run one after the other from a graph to a graph, all return results of one form
  -- (`wrap`), and these have the items in their order.
  unfoldable pub Returned :
      {A : Type 0}
      → (List A → QueryResult)
      → List String
      → InMemoryGraphStore
      → List A
      → InMemoryGraphStore
      → Type 0
  Returned wrap [] s items t = (items ≡ []) × (s ≡ t)
  Returned {A} wrap (branch ∷ branches) s items t =
      (part : List A) × (rest : List A) × (next : InMemoryGraphStore) × (run branch s
        ≡ (returns (ok (wrap part)), next))
      × (items ≡ part ++ rest)
      × Returned wrap branches next rest t

  -- The result of a `UNION` without `ALL` over the branches: nodes if each branch returns nodes, a
  -- table if each returns one with the same columns, without the repetitions.
  pub data IsUnion (branches : List String) (s t : InMemoryGraphStore) : QueryResult → Type 0 where
    of_nodes :
        (items kept : List GraphNode)
        → Returned QueryResult.nodes branches s items t
        → IsDistinctOf SameNode items kept
        → IsUnion branches s t (QueryResult.nodes kept)
    of_rows :
        (columns : List String) (items kept : List (List Value))
        → Returned (QueryResult.table columns) branches s items t
        → IsDistinctOf SameRow items kept
        → IsUnion branches s t (QueryResult.table columns kept)

  -- What a loop that succeeds has as its first round.
  record IsRound (branch : String) (branches : List String) (m : Merged) (s : InMemoryGraphStore)
      (m' : Merged) (t : InMemoryGraphStore) : Type 0 where
    result : QueryResult
    mid : Merged
    store : InMemoryGraphStore
    ran : run branch s ≡ (returns (ok result), store)
    merged : merge_branch result m ≡ ok mid
    others : merge_branches run branches mid store ≡ (returns (ok m'), t)

  merge_branches-IsRound :
      (branch : String) (branches : List String) (m m' : Merged) (s t : InMemoryGraphStore)
      → merge_branches run (branch ∷ branches) m s ≡ (returns (ok m'), t)
      → IsRound branch branches m s m' t
  unfolding merge_branches
  merge_branches-IsRound branch branches m m' s t h = by_run (run branch s) refl h
    where
      by_merge :
          (result : QueryResult) (store : InMemoryGraphStore)
          → run branch s ≡ (returns (ok result), store)
          → (merged : Result Merged) → merge_branch result m ≡ merged
          → (elim merged [
            | err e ↦ (returns (err e), store)
            | ok mid ↦ merge_branches run branches mid store
          ])
            ≡ (returns (ok m'), t)
          → IsRound branch branches m s m' t
      by_merge result store ran (ok mid) merged h = record {
        result = result;
        mid = mid;
        store = store;
        ran = ran;
        merged = merged;
        others = h;
      }
      by_merge result store ran (err e) merged h = absurd (ground arith)

      by_run :
          (ran : Executed)
          → run branch s ≡ ran
          → and_then
              (λ result store. elim (merge_branch result m) [
                | err e ↦ (returns (err e), store)
                | ok mid ↦ merge_branches run branches mid store
              ])
              ran.0
              ran.1
            ≡ (returns (ok m'), t)
          → IsRound branch branches m s m' t
      by_run (returns (ok result), store) ran h =
          by_merge result store ran (merge_branch result m) refl h
      by_run (returns (err e), store) ran h = absurd (ground arith)
      by_run (panics, store) ran h = absurd (ground arith)
      by_run (out_of_fuel, store) ran h = absurd (ground arith)

  -- Behind nodes, all that is merged is nodes.
  behind_nodes :
      (branches : List String) (m m' : Merged) (s t : InMemoryGraphStore)
      → m.result_kind ≡ some node_kind
      → merge_branches run branches m s ≡ (returns (ok m'), t)
      → (items : List GraphNode) × Returned QueryResult.nodes branches s items t
        × (m'.node_rows ≡ m.node_rows ++ items)
        × (m'.result_kind ≡ some node_kind)
  unfolding Returned merge_branch
  behind_nodes [] m m' s t kind h =
      let same : m ≡ m' = unfold merge_branches in ground (arith, h) in
      (
        [],
        (refl, unfold merge_branches in ground (arith, h)),
        ap (λ x. x.node_rows) (sym same) ∙ sym (append-nil m.node_rows),
        ap (λ x. x.result_kind) (sym same) ∙ kind,
      )
  behind_nodes (branch ∷ branches) m m' s t kind h =
      let round = merge_branches-IsRound branch branches m m' s t h in
      let (part, is, rows, kind') = nodes_round round.result m round.mid kind round.merged in
      let (rest, returned, behind, kept) =
        behind_nodes branches round.mid m' round.store t kind' round.others in
      (
        part ++ rest,
        (
          part,
          rest,
          round.store,
          round.ran ∙ ap (λ r. (returns (ok r), round.store)) is,
          refl,
          returned,
        ),
        behind ∙ (ap (λ l. l ++ rest) rows ∙ append_assoc m.node_rows part rest),
        kept,
      )

  -- Behind rows, all that is merged is rows of the same columns.
  behind_rows :
      (columns : List String) (branches : List String) (m m' : Merged) (s t : InMemoryGraphStore)
      → m.result_kind ≡ some table_kind
      → m.table_columns ≡ some columns
      → merge_branches run branches m s ≡ (returns (ok m'), t)
      → (items : List (List Value)) × Returned (QueryResult.table columns) branches s items t
        × (m'.table_rows ≡ m.table_rows ++ items)
        × (m'.result_kind ≡ some table_kind)
        × (m'.table_columns ≡ some columns)
  unfolding Returned merge_branch
  behind_rows columns [] m m' s t kind named h =
      let same : m ≡ m' = unfold merge_branches in ground (arith, h) in
      (
        [],
        (refl, unfold merge_branches in ground (arith, h)),
        ap (λ x. x.table_rows) (sym same) ∙ sym (append-nil m.table_rows),
        ap (λ x. x.result_kind) (sym same) ∙ kind,
        ap (λ x. x.table_columns) (sym same) ∙ named,
      )
  behind_rows columns (branch ∷ branches) m m' s t kind named h =
      let round = merge_branches-IsRound branch branches m m' s t h in
      let (part, is, rows, kind', named') =
        rows_round columns round.result m round.mid kind named round.merged in
      let (rest, returned, behind, kept, kept_columns) =
        behind_rows columns branches round.mid m' round.store t kind' named' round.others in
      (
        part ++ rest,
        (
          part,
          rest,
          round.store,
          round.ran ∙ ap (λ r. (returns (ok r), round.store)) is,
          refl,
          returned,
        ),
        behind ∙ (ap (λ l. l ++ rest) rows ∙ append_assoc m.table_rows part rest),
        kept,
        kept_columns,
      )

  -- Nodes of the first branch decide for nodes.
  first_nodes :
      (branch : String) (branches : List String) (s t : InMemoryGraphStore) (m' : Merged)
      (part : List GraphNode) (mid : Merged) (next : InMemoryGraphStore) (result : QueryResult)
      → run branch s ≡ (returns (ok (QueryResult.nodes part)), next)
      → merge_branch (QueryResult.nodes part) nothing_merged ≡ ok mid
      → merge_branches run branches mid next ≡ (returns (ok m'), t)
      → union_result UnionMode.distinct m' ≡ ok result
      → IsUnion (branch ∷ branches) s t result
  unfolding Returned merge_branch
  first_nodes branch branches s t m' part mid next result ran merged others h =
      let (_, rows, kind) = merge_nodes_lem none part nothing_merged mid merged in
      let (rest, returned, behind, kept) = behind_nodes branches mid m' next t kind others in
      let all = behind ∙ ap (λ l. l ++ rest) rows in
      subst (IsUnion (branch ∷ branches) s t) (union_nodes m' (part ++ rest) result kept all h) (
        of_nodes (part ++ rest) (retain_new same_node [] (part ++ rest))
          (part, rest, next, ran, refl, returned) (nodes-IsDistinctOf (part ++ rest)))

  -- A table of the first branch decides for a table, and for its columns.
  first_rows :
      (branch : String) (branches : List String) (s t : InMemoryGraphStore) (m' : Merged)
      (columns : List String) (part : List (List Value)) (mid : Merged) (next : InMemoryGraphStore)
      (result : QueryResult)
      → run branch s ≡ (returns (ok (QueryResult.table columns part)), next)
      → merge_branch (QueryResult.table columns part) nothing_merged ≡ ok mid
      → merge_branches run branches mid next ≡ (returns (ok m'), t)
      → union_result UnionMode.distinct m' ≡ ok result
      → IsUnion (branch ∷ branches) s t result
  unfolding Returned merge_branch
  first_rows branch branches s t m' columns part mid next result ran merged others h =
      let (_, _, rows, kind, named) = merge_table_lem none columns part nothing_merged mid merged in
      let (rest, returned, behind, kept, kept_columns) =
        behind_rows columns branches mid m' next t kind named others in
      let all = behind ∙ ap (λ l. l ++ rest) rows in
      subst (IsUnion (branch ∷ branches) s t)
        (union_rows m' columns (part ++ rest) result kept kept_columns all h)
        (of_rows columns (part ++ rest) (retain_new same_row [] (part ++ rest))
          (part, rest, next, ran, refl, returned) (rows-IsDistinctOf (part ++ rest)))

  first_result :
      (branch : String) (branches : List String) (s t : InMemoryGraphStore) (m' : Merged)
      (first : QueryResult) (mid : Merged) (next : InMemoryGraphStore) (result : QueryResult)
      → run branch s ≡ (returns (ok first), next)
      → merge_branch first nothing_merged ≡ ok mid
      → merge_branches run branches mid next ≡ (returns (ok m'), t)
      → union_result UnionMode.distinct m' ≡ ok result
      → IsUnion (branch ∷ branches) s t result
  first_result branch branches s t m' (QueryResult.nodes part) mid next result ran merged =
      first_nodes branch branches s t m' part mid next result ran merged
  first_result branch branches s t m' (QueryResult.table columns part) mid next result ran merged =
      first_rows branch branches s t m' columns part mid next result ran merged
  first_result branch branches s t m' QueryResult.ack mid next result ran merged =
      absurd (unfold merge_branch in cc)

  -- A `UNION` without `ALL` that succeeds has run its branches one after the other, each on the
  -- graph that the one before it left. Either each of them returned nodes, and the result is nodes,
  -- or each returned a table with the same columns, and the result is a table with these columns.
  -- The result has some of what the branches returned, in their order: no two nodes of one id and
  -- no two rows that are equal in every column, but for each that was returned itself or one with
  -- its id or equal to it in every column.
  pub execute_union_query-IsUnion :
      (branches : List String) (s t : InMemoryGraphStore) (result : QueryResult)
      → execute_union_query run branches UnionMode.distinct s ≡ (returns (ok result), t)
      → IsUnion branches s t result
  unfolding execute_union_query
  execute_union_query-IsUnion [] s t result h =
      absurd (unfold merge_branches union_result in ground (arith, h))
  execute_union_query-IsUnion (branch ∷ branches) s t result h =
      let loop = merge_branches run (branch ∷ branches) nothing_merged s in
      let (m', merged, shown) = merged_before loop t result h in
      let round = merge_branches-IsRound branch branches nothing_merged m' s t merged in
      first_result branch branches s t m' round.result round.mid round.store result round.ran
        round.merged round.others shown
