-- ===== src/Graph/Nodes.antt =====
-- What the methods that create and change nodes do, and that they keep the invariants.
use aira_graphdb.Base.{
  ℕ, suc, ◌+◌, ◌%◌, ◌<◌, String, ◌≡◌, ◌≢◌, refl, none, some, List, arith, ◌==◌, eq_iff,
  if◌then◌else◌, string_eq, u64_mod, Option-cases, inl, inr,
}
use aira_graphdb.HashMap
use aira_graphdb.HashMap.Laws.{
  get-insert, get-insert_self, IsUnique-insert, AllEntries-insert, AllEntries-get,
  length-insert_new,
}
use aira_graphdb.Graph.{
  InMemoryGraphStore, GraphNode, Properties, node_id, get_node, get_edge, has_node, create_node,
  update_node, node_count,
}
use aira_graphdb.Graph.Valid.{IsValid, IsReferential, node_id_ne}

module _ (s : InMemoryGraphStore) (labels : List String) (properties : Properties)
    (valid : IsValid s) (room : s.next_node_seq + 1 < u64_mod) where
  abbrev made : GraphNode
  made = record { id = node_id (s.next_node_seq + 1); labels = labels; properties = properties }

  -- Below the limit of the counter nothing wraps around.
  create_node_eq : create_node s labels properties ≡ (
    record s {
      next_node_seq = s.next_node_seq + 1;
      nodes = HashMap.insert (node_id (s.next_node_seq + 1)) made s.nodes;
    },
    made,
  )
  unfolding create_node
  create_node_eq =
      let e : (s.next_node_seq + 1) % u64_mod ≡ s.next_node_seq + 1 = omega arith in rw e

  unused : HashMap.get (node_id (s.next_node_seq + 1)) s.nodes ≡ none
  unused = valid.nodes_fresh (s.next_node_seq + 1) (omega arith)

  fresh_after :
      (j : ℕ)
      → s.next_node_seq + 1 < j
      → HashMap.get (node_id j) (HashMap.insert (node_id (s.next_node_seq + 1)) made s.nodes) ≡ none
  fresh_after j h = ground (
    arith,
    get-insert (node_id (s.next_node_seq + 1)) (node_id j) made s.nodes,
    node_id_ne (s.next_node_seq + 1) j (omega arith),
    valid.nodes_fresh j (omega arith),
  )

  pub create_node-IsValid : IsValid (create_node s labels properties).0
  create_node-IsValid = rw create_node_eq (record {
    nodes_unique = IsUnique-insert _ made s.nodes valid.nodes_unique;
    edges_unique = valid.edges_unique;
    nodes_named = AllEntries-insert _ _ made s.nodes refl valid.nodes_named;
    edges_named = valid.edges_named;
    nodes_fresh = fresh_after;
    edges_fresh = valid.edges_fresh;
  })

  -- In a valid store, below the limit of the counter, the new node gets an id that was not in use:
  -- it is added, and no other node and no edge changes.
  pub create_node_lem :
      let (s', node) = create_node s labels properties in
      (get_node s node.id ≡ none)
      × (get_node s' node.id ≡ some node)
      × ((id : String) → id ≢ node.id → get_node s' id ≡ get_node s id)
      × (node_count s' ≡ suc (node_count s))
      × (s'.edges ≡ s.edges)
  unfolding get_node
  create_node_lem = rw create_node_eq (
    unused,
    get-insert_self (node_id (s.next_node_seq + 1)) made s.nodes,
    (λ id h. ground (
      arith,
      get-insert (node_id (s.next_node_seq + 1)) id made s.nodes,
      eq_iff (node_id (s.next_node_seq + 1)) id,
    )),
    length-insert_new (node_id (s.next_node_seq + 1)) made s.nodes unused,
    refl,
  )

  -- An edge keeps its ends when a node is added.
  pub create_node-IsReferential :
      IsReferential s → IsReferential (create_node s labels properties).0
  unfolding has_node HashMap.contains_key get_edge
  create_node-IsReferential r = rw create_node_eq (record {
    ends = λ k e h. ground (
      arith,
      r.ends k e,
      get-insert (node_id (s.next_node_seq + 1)) e.from made s.nodes,
      get-insert (node_id (s.next_node_seq + 1)) e.to made s.nodes,
    );
  })

module _ (s : InMemoryGraphStore) (id : String) (labels : List String)
    (properties : Properties) where
  -- An update replaces the labels and the properties of a node that is there, and nothing else.
  pub update_node_lem :
      (j : String)
      → get_node (update_node s id labels properties).0 j ≡ elim (get_node s j) [
        | none ↦ none
        | some node ↦
            some
              (if id == j then record node { labels = labels; properties = properties } else node)
      ]
  unfolding update_node get_node
  update_node_lem j = elim (Option-cases (HashMap.get id s.nodes)) [
    | inl missing ↦ rw (missing, update_node) (ground (arith, eq_iff id j))
    | inr (node, found) ↦
        let node' : GraphNode = record node { labels = labels; properties = properties } in
        rw (found, update_node) (ground (arith, eq_iff id j, get-insert id j node' s.nodes))
  ]

  pub update_node-IsValid : IsValid s → IsValid (update_node s id labels properties).0
  unfolding update_node
  update_node-IsValid v = elim (Option-cases (HashMap.get id s.nodes)) [
    | inl missing ↦ rw (missing, update_node) v
    | inr (node, found) ↦
        let node' : GraphNode = record node { labels = labels; properties = properties } in
        rw (found, update_node)
          (record {
            nodes_unique = IsUnique-insert id node' s.nodes v.nodes_unique;
            edges_unique = v.edges_unique;
            nodes_named =
                AllEntries-insert _ id node' s.nodes
                  (AllEntries-get (λ k (n : GraphNode). n.id ≡ k) id node s.nodes v.nodes_named
                    found)
                  v.nodes_named;
            edges_named = v.edges_named;
            nodes_fresh = λ j h. ground (
              arith,
              get-insert id (node_id j) node' s.nodes,
              v.nodes_fresh j h,
              eq_iff id (node_id j),
            );
            edges_fresh = v.edges_fresh;
          })
  ]

  pub update_node-IsReferential :
      IsReferential s → IsReferential (update_node s id labels properties).0
  unfolding update_node get_edge has_node HashMap.contains_key
  update_node-IsReferential r = elim (Option-cases (HashMap.get id s.nodes)) [
    | inl missing ↦ rw (missing, update_node) r
    | inr (node, found) ↦
        let node' : GraphNode = record node { labels = labels; properties = properties } in
        rw (found, update_node)
          (record {
            ends = λ k e h. ground (
              arith,
              r.ends k e h,
              get-insert id e.from node' s.nodes,
              get-insert id e.to node' s.nodes,
            );
          })
  ]
