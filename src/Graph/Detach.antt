-- ===== src/Graph/Detach.antt =====
-- Deleting nodes: which edges touch a node, and what a deletion leaves.
use aira_graphdb.Base.{
  String, Bool, false, ◌≡◌, refl, Option, none, some, List, [], ◌∷◌, map, ◌||◌, arith, ◌==◌, eq_iff,
  if◌then◌else◌, string_eq, Bool-cases, inl, inr, any, filter, ap, ◌∙◌,
}
use aira_graphdb.HashMap
use aira_graphdb.HashMap.{HashMap, IsUnique, AllEntries, values}
use aira_graphdb.HashMap.Laws.{get-remove, IsUnique-remove, AllEntries-remove}
use aira_graphdb.Graph.{
  InMemoryGraphStore, GraphEdge, EdgeId, node_id, edge_id, get_node, get_edge, has_node, touches,
  edges_touching_node, remove_edges, delete_node, delete_node_detach,
}
use aira_graphdb.Graph.Valid.{IsValid, IsReferential}

abbrev pub contains : String → List String → Bool
contains k ids = any (λ i. i == k) ids

-- The edge starts or ends at the node.
abbrev pub is_at : String → GraphEdge → Bool
is_at id edge = (edge.from == id) || (edge.to == id)

-- The edge under `k`, if there is one, passes the test.
abbrev pub edge_passes : (GraphEdge → Bool) → Option GraphEdge → Bool
edge_passes p none = false
edge_passes p (some e) = p e

abbrev Named : HashMap EdgeId GraphEdge → Type 0
Named = AllEntries (λ k (e : GraphEdge). e.id ≡ k)

listed :
    (p : GraphEdge → Bool) (k : String) (m : HashMap EdgeId GraphEdge)
    → IsUnique m
    → Named m
    → contains k (map (λ (e : GraphEdge). e.id) (filter p (values m)))
      ≡ edge_passes p (HashMap.get k m)
unfolding HashMap.get values
listed p k [] u n = refl
listed p k ((j, e) ∷ m) u n = elim (Bool-cases (p e)) [
  | inl t ↦ rw t (ground (arith, listed p k m u.1 n.1, eq_iff j k, eq_iff e.id k))
  | inr f ↦ rw f (ground (arith, listed p k m u.1 n.1, eq_iff j k, eq_iff e.id k))
]

-- In a valid store `edges_touching_node` lists exactly the ids of the edges that start or end at
-- the node.
pub contains-edges_touching_node :
    (s : InMemoryGraphStore) (id k : String)
    → IsValid s
    → contains k (edges_touching_node s id) ≡ edge_passes (is_at id) (get_edge s k)
unfolding edges_touching_node get_edge
contains-edges_touching_node s id k v = listed (touches id) k s.edges v.edges_unique v.edges_named

get-remove_edges :
    (k : String) (ids : List EdgeId) (m : HashMap EdgeId GraphEdge)
    → HashMap.get k (remove_edges ids m) ≡ (if contains k ids then none else HashMap.get k m)
unfolding remove_edges
get-remove_edges k [] m = refl
get-remove_edges k (i ∷ ids) m =
    ground (arith, get-remove_edges k ids (HashMap.remove i m), get-remove i k m)

IsUnique-remove_edges :
    (ids : List EdgeId) (m : HashMap EdgeId GraphEdge) → IsUnique m → IsUnique (remove_edges ids m)
unfolding remove_edges
IsUnique-remove_edges [] m u = u
IsUnique-remove_edges (i ∷ ids) m u =
    IsUnique-remove_edges ids (HashMap.remove i m) (IsUnique-remove i m u)

Named-remove_edges :
    (ids : List EdgeId) (m : HashMap EdgeId GraphEdge) → Named m → Named (remove_edges ids m)
unfolding remove_edges
Named-remove_edges [] m u = u
Named-remove_edges (i ∷ ids) m u =
    Named-remove_edges ids (HashMap.remove i m) (AllEntries-remove _ i m u)

module _ (s : InMemoryGraphStore) (id : String) (valid : IsValid s) where
  pub delete_node-IsValid : IsValid (delete_node s id).0
  unfolding delete_node
  delete_node-IsValid = record {
    nodes_unique = IsUnique-remove id s.nodes valid.nodes_unique;
    edges_unique = valid.edges_unique;
    nodes_named = AllEntries-remove _ id s.nodes valid.nodes_named;
    edges_named = valid.edges_named;
    nodes_fresh = λ j h. ground (arith, get-remove id (node_id j) s.nodes, valid.nodes_fresh j h);
    edges_fresh = valid.edges_fresh;
  }

  -- Without an edge that touches the node, its deletion keeps referential integrity.
  pub delete_node-IsReferential :
      edges_touching_node s id ≡ [] → IsReferential s → IsReferential (delete_node s id).0
  unfolding delete_node get_edge has_node HashMap.contains_key
  delete_node-IsReferential alone r = record {
    ends = λ k e h. ground (
      arith,
      ap (contains k) alone,
      contains-edges_touching_node s id k valid,
      r.ends k e h,
      get-remove id e.from s.nodes,
      get-remove id e.to s.nodes,
      eq_iff id e.from,
      eq_iff e.from id,
      eq_iff id e.to,
      eq_iff e.to id,
    );
  }

  pub delete_node_detach-IsValid : IsValid (delete_node_detach s id).0
  unfolding delete_node_detach delete_node
  delete_node_detach-IsValid = record {
    nodes_unique = IsUnique-remove id s.nodes valid.nodes_unique;
    edges_unique = IsUnique-remove_edges (edges_touching_node s id) s.edges valid.edges_unique;
    nodes_named = AllEntries-remove _ id s.nodes valid.nodes_named;
    edges_named = Named-remove_edges (edges_touching_node s id) s.edges valid.edges_named;
    nodes_fresh = λ j h. ground (arith, get-remove id (node_id j) s.nodes, valid.nodes_fresh j h);
    edges_fresh = λ j h. ground (
      arith,
      get-remove_edges (edge_id j) (edges_touching_node s id) s.edges,
      valid.edges_fresh j h,
    );
  }

  get_edge-detach :
      (k : String)
      → get_edge (delete_node_detach s id).0 k
        ≡ (if edge_passes (is_at id) (get_edge s k) then none else get_edge s k)
  unfolding delete_node_detach delete_node
  get_edge-detach k =
      unfold get_edge in
      get-remove_edges k (edges_touching_node s id) s.edges
      ∙ ap (λ (b : Bool). if b then none else HashMap.get k s.edges)
          (contains-edges_touching_node s id k valid)

  get_node-detach :
      (j : String)
      → HashMap.get j (delete_node_detach s id).0.nodes
        ≡ (if id == j then none else HashMap.get j s.nodes)
  unfolding delete_node_detach delete_node
  get_node-detach j = get-remove id j s.nodes

  -- In a valid store a detaching deletion takes the node away, with the edges that touch it and no
  -- other, leaves every other node, and says whether the node was there.
  pub delete_node_detach_lem :
      let (s', found) = delete_node_detach s id in
      (found ≡ has_node s id)
      × ((j : String) → get_node s' j ≡ (if id == j then none else get_node s j))
      × ((k : String)
          → get_edge s' k ≡ (if edge_passes (is_at id) (get_edge s k) then none else get_edge s k))
  delete_node_detach_lem =
      unfold delete_node_detach delete_node get_node has_node HashMap.contains_key in
      (refl, (λ j. get-remove id j s.nodes), get_edge-detach)

  pub delete_node_detach-IsReferential : IsReferential s → IsReferential (delete_node_detach s id).0
  unfolding has_node HashMap.contains_key
  delete_node_detach-IsReferential r = record {
    ends = λ k e h. ground (
      arith,
      h,
      get_edge-detach k,
      r.ends k e,
      get_node-detach e.from,
      get_node-detach e.to,
      eq_iff id e.from,
      eq_iff e.from id,
      eq_iff id e.to,
      eq_iff e.to id,
    );
  }
