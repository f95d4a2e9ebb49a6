-- ===== src/Graph/Edges.antt =====
-- What the methods that create and change edges do, and that they keep the invariants.
use aira_graphdb.Base.{
  ℕ, suc, ◌+◌, ◌%◌, ◌<◌, String, true, false, ◌≡◌, ◌≢◌, refl, none, some, arith, ◌==◌, eq_iff,
  if◌then◌else◌, string_eq, u64_mod, Option-cases, inl, inr, ◌&&◌,
}
use aira_graphdb.HashMap
use aira_graphdb.HashMap.Laws.{
  get-insert, get-insert_self, get-remove, IsUnique-insert, IsUnique-remove, AllEntries-insert,
  AllEntries-remove, AllEntries-get, length-insert_new,
}
use aira_graphdb.Graph.{
  InMemoryGraphStore, GraphEdge, Properties, edge_id, get_edge, has_node, create_edge, update_edge,
  delete_edge, edge_count,
}
use aira_graphdb.Graph.Valid.{IsValid, IsReferential, edge_id_ne}

module _ (s : InMemoryGraphStore) (from to edge_type : String) (properties : Properties) where
  -- Where an end is no node of the store an edge is refused, and nothing changes.
  pub create_edge_refused :
      (has_node s from && has_node s to) ≡ false
      → create_edge s from to edge_type properties ≡ (s, none)
  unfolding create_edge has_node
  create_edge_refused h = ground arith

  module _ (valid : IsValid s) (room : s.next_edge_seq + 1 < u64_mod)
      (ends : (has_node s from && has_node s to) ≡ true) where
    abbrev made : GraphEdge
    made = record {
      id = edge_id (s.next_edge_seq + 1);
      from = from;
      to = to;
      edge_type = edge_type;
      properties = properties;
    }

    create_edge_eq : create_edge s from to edge_type properties ≡ (
      record s {
        next_edge_seq = s.next_edge_seq + 1;
        edges = HashMap.insert (edge_id (s.next_edge_seq + 1)) made s.edges;
      },
      some made,
    )
    unfolding create_edge has_node
    create_edge_eq =
        let e : (s.next_edge_seq + 1) % u64_mod ≡ s.next_edge_seq + 1 = omega arith in
        rw e (ground arith)

    unused : HashMap.get (edge_id (s.next_edge_seq + 1)) s.edges ≡ none
    unused = valid.edges_fresh (s.next_edge_seq + 1) (omega arith)

    fresh_after :
        (j : ℕ)
        → s.next_edge_seq + 1 < j
        → HashMap.get (edge_id j) (HashMap.insert (edge_id (s.next_edge_seq + 1)) made s.edges)
          ≡ none
    fresh_after j h = ground (
      arith,
      get-insert (edge_id (s.next_edge_seq + 1)) (edge_id j) made s.edges,
      edge_id_ne (s.next_edge_seq + 1) j (omega arith),
      valid.edges_fresh j (omega arith),
    )

    pub create_edge-IsValid : IsValid (create_edge s from to edge_type properties).0
    create_edge-IsValid = rw create_edge_eq (record {
      nodes_unique = valid.nodes_unique;
      edges_unique = IsUnique-insert _ made s.edges valid.edges_unique;
      nodes_named = valid.nodes_named;
      edges_named = AllEntries-insert _ _ made s.edges refl valid.edges_named;
      nodes_fresh = valid.nodes_fresh;
      edges_fresh = fresh_after;
    })

    -- Between two nodes of a valid store, below the limit of the counter, an edge with an unused id
    -- is added, and no other edge and no node changes.
    pub create_edge_lem :
        let (s', edge) = create_edge s from to edge_type properties in
        (edge ≡ some made)
        × (get_edge s made.id ≡ none)
        × (get_edge s' made.id ≡ some made)
        × ((id : String) → id ≢ made.id → get_edge s' id ≡ get_edge s id)
        × (edge_count s' ≡ suc (edge_count s))
        × (s'.nodes ≡ s.nodes)
    unfolding get_edge
    create_edge_lem = rw create_edge_eq (
      refl,
      unused,
      get-insert_self (edge_id (s.next_edge_seq + 1)) made s.edges,
      (λ id h. ground (
        arith,
        get-insert (edge_id (s.next_edge_seq + 1)) id made s.edges,
        eq_iff (edge_id (s.next_edge_seq + 1)) id,
      )),
      length-insert_new (edge_id (s.next_edge_seq + 1)) made s.edges unused,
      refl,
    )

    pub create_edge-IsReferential :
        IsReferential s → IsReferential (create_edge s from to edge_type properties).0
    unfolding has_node get_edge
    create_edge-IsReferential r = rw create_edge_eq (record {
      ends = λ k e h.
          ground (arith, r.ends k e, get-insert (edge_id (s.next_edge_seq + 1)) k made s.edges);
    })

module _ (s : InMemoryGraphStore) (id edge_type : String) (properties : Properties) where
  -- An update replaces the type and the properties of an edge that is there, and nothing else.
  pub get_edge-update_edge :
      (j : String)
      → get_edge (update_edge s id edge_type properties).0 j ≡ elim (get_edge s j) [
        | none ↦ none
        | some edge ↦ some (
            if id == j
            then record edge { edge_type = edge_type; properties = properties }
            else edge)
      ]
  unfolding update_edge get_edge
  get_edge-update_edge j = elim (Option-cases (HashMap.get id s.edges)) [
    | inl missing ↦ rw (missing, update_edge) (ground (arith, eq_iff id j))
    | inr (edge, found) ↦
        let edge' : GraphEdge = record edge { edge_type = edge_type; properties = properties } in
        rw (found, update_edge) (ground (arith, eq_iff id j, get-insert id j edge' s.edges))
  ]

  pub update_edge-IsValid : IsValid s → IsValid (update_edge s id edge_type properties).0
  unfolding update_edge
  update_edge-IsValid v = elim (Option-cases (HashMap.get id s.edges)) [
    | inl missing ↦ rw (missing, update_edge) v
    | inr (edge, found) ↦
        let edge' : GraphEdge = record edge { edge_type = edge_type; properties = properties } in
        rw (found, update_edge)
          (record {
            nodes_unique = v.nodes_unique;
            edges_unique = IsUnique-insert id edge' s.edges v.edges_unique;
            nodes_named = v.nodes_named;
            edges_named =
                AllEntries-insert _ id edge' s.edges
                  (AllEntries-get (λ k (e : GraphEdge). e.id ≡ k) id edge s.edges v.edges_named
                    found)
                  v.edges_named;
            nodes_fresh = v.nodes_fresh;
            edges_fresh = λ j h. ground (
              arith,
              get-insert id (edge_id j) edge' s.edges,
              v.edges_fresh j h,
              eq_iff id (edge_id j),
            );
          })
  ]

  pub update_edge-IsReferential :
      IsReferential s → IsReferential (update_edge s id edge_type properties).0
  unfolding update_edge get_edge has_node
  update_edge-IsReferential r = elim (Option-cases (HashMap.get id s.edges)) [
    | inl missing ↦ rw (missing, update_edge) r
    | inr (edge, found) ↦
        let edge' : GraphEdge = record edge { edge_type = edge_type; properties = properties } in
        rw (found, update_edge)
          (record {
            ends = λ k e h.
                ground (arith, r.ends k e, r.ends id edge found, get-insert id k edge' s.edges);
          })
  ]

module _ (s : InMemoryGraphStore) (id : String) where
  pub delete_edge-IsValid : IsValid s → IsValid (delete_edge s id).0
  unfolding delete_edge
  delete_edge-IsValid v = record {
    nodes_unique = v.nodes_unique;
    edges_unique = IsUnique-remove id s.edges v.edges_unique;
    nodes_named = v.nodes_named;
    edges_named = AllEntries-remove _ id s.edges v.edges_named;
    nodes_fresh = v.nodes_fresh;
    edges_fresh = λ j h. ground (arith, get-remove id (edge_id j) s.edges, v.edges_fresh j h);
  }

  pub delete_edge-IsReferential : IsReferential s → IsReferential (delete_edge s id).0
  unfolding delete_edge get_edge has_node
  delete_edge-IsReferential r = record {
    ends = λ k e h. ground (arith, r.ends k e, get-remove id k s.edges);
  }
