-- ===== src/Graph/Labels.antt =====
-- `rename_label`: what the pass over the nodes changes, and what it counts.
use aira_graphdb.Base.{
  ℕ, ◌+◌, String, false, ◌≡◌, ◌≢◌, refl, Option, none, some, List, [], ◌∷◌, map, arith, ◌==◌,
  eq_iff, if◌then◌else◌, string_eq, Bool-cases, inl, inr, any, filter, length, ◌∙◌, ap, sym,
}
use aira_graphdb.HashMap
use aira_graphdb.HashMap.{HashMap, IsUnique, AllEntries, values, map_values}
use aira_graphdb.HashMap.Laws.{get-map_values, IsUnique-map_values, AllEntries-map_values}
use aira_graphdb.Graph.{
  InMemoryGraphStore, GraphNode, NodeId, node_id, get_node, get_edge, has_node, has_label,
  rename_in, rename_nodes, rename_label,
}
use aira_graphdb.Graph.Valid.{IsValid, IsReferential}

module _ (from to : String) where
  -- One label renamed.
  abbrev pub renamed : String → String
  renamed l = if l == from then to else l

  abbrev pub rename_node : GraphNode → GraphNode
  rename_node node = record node { labels = map renamed node.labels }

  rename_in_lem :
      (ls : List String) → rename_in from to ls ≡ (map renamed ls, any (λ l. l == from) ls)
  unfolding rename_in
  rename_in_lem [] = refl
  rename_in_lem (l ∷ ls) = rw (rename_in_lem ls) (ground arith)

  rename_nodes_lem :
      (m : HashMap NodeId GraphNode) (updated : ℕ)
      → rename_nodes from to m updated
        ≡ (map_values rename_node m, updated + length (filter (has_label from) (values m)))
  unfolding rename_nodes map_values values
  rename_nodes_lem [] updated = ground arith
  rename_nodes_lem ((k, node) ∷ m) updated = elim (Bool-cases (has_label from node)) [
    | inl has ↦ rw (rename_in_lem node.labels, has, rename_nodes_lem m (updated + 1)) (ground arith)
    | inr lacks ↦ rw (rename_in_lem node.labels, lacks, rename_nodes_lem m updated)
  ]

  -- No label is `from` after a renaming to something else.
  any-renamed : to ≢ from → (ls : List String) → any (λ l. l == from) (map renamed ls) ≡ false
  any-renamed h [] = refl
  any-renamed h (l ∷ ls) = ground (arith, any-renamed h ls, eq_iff to from, eq_iff l from)

  gone :
      to ≢ from
      → (o : Option GraphNode) (node : GraphNode)
      → elim o [ none ↦ none | some n ↦ some (rename_node n) ] ≡ some node
      → has_label from node ≡ false
  gone h none node e = cc
  gone h (some n) node e =
      let same : rename_node n ≡ node = cc in
      ap (has_label from) (sym same) ∙ any-renamed h n.labels

  module _ (s : InMemoryGraphStore) where
    rename_label_eq : rename_label s from to ≡ (
      record s { nodes = map_values rename_node s.nodes },
      length (filter (has_label from) (values s.nodes)),
    )
    unfolding rename_label
    rename_label_eq = rw (rename_nodes_lem s.nodes 0) (ground arith)

    -- Each node is kept with the old label replaced by the new one among its labels, the edges are
    -- kept, and the result is the number of the nodes that had the label.
    pub rename_label_lem :
        let (s', updated) = rename_label s from to in
        ((id : String)
          → get_node s' id ≡ elim (get_node s id) [ none ↦ none | some n ↦ some (rename_node n) ])
        × (s'.edges ≡ s.edges)
        × (updated ≡ length (filter (has_label from) (values s.nodes)))
    unfolding get_node
    rename_label_lem =
        rw rename_label_eq ((λ id. get-map_values rename_node id s.nodes), refl, refl)

    -- After a renaming to another label no node has the old label.
    pub rename_label_gone :
        to ≢ from
        → (id : String) (node : GraphNode) → get_node (rename_label s from to).0 id ≡ some node
        → has_label from node ≡ false
    unfolding get_node
    rename_label_gone h id node =
        rw rename_label_eq (rw get-map_values (gone h (HashMap.get id s.nodes) node))

    pub rename_label-IsValid : IsValid s → IsValid (rename_label s from to).0
    rename_label-IsValid v = rw rename_label_eq (record {
      nodes_unique = IsUnique-map_values rename_node s.nodes v.nodes_unique;
      edges_unique = v.edges_unique;
      nodes_named =
          AllEntries-map_values (λ k (n : GraphNode). n.id ≡ k) (λ k (n : GraphNode). n.id ≡ k)
            rename_node (λ k n e. e) s.nodes v.nodes_named;
      edges_named = v.edges_named;
      nodes_fresh =
          λ j h. ground (arith, get-map_values rename_node (node_id j) s.nodes, v.nodes_fresh j h);
      edges_fresh = v.edges_fresh;
    })

    pub rename_label-IsReferential : IsReferential s → IsReferential (rename_label s from to).0
    unfolding get_edge has_node HashMap.contains_key
    rename_label-IsReferential r = rw rename_label_eq (record {
      ends = λ k e h. ground (
        arith,
        r.ends k e h,
        get-map_values rename_node e.from s.nodes,
        get-map_values rename_node e.to s.nodes,
      );
    })
