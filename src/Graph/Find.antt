-- ===== src/Graph/Find.antt =====
-- `find_node_by_label_and_props`, whatever the order of the map's values.
use aira_graphdb.Base.{
  String, true, false, ◌≡◌, Option, none, some, [], ◌∷◌, arith, string_eq, Bool-cases, Option-cases,
  is_some, inl, inr, eq_iff,
}
use aira_graphdb.HashMap
use aira_graphdb.HashMap.{HashMap, IsUnique, values}
use aira_graphdb.HashMap.Laws.{get_tail}
use aira_graphdb.Graph.{
  InMemoryGraphStore, GraphNode, NodeId, Properties, get_node, matches, find_in,
  find_node_by_label_and_props,
}
use aira_graphdb.Graph.Valid.{IsValid}

head_found :
    (k : NodeId) (n : GraphNode) (m : HashMap NodeId GraphNode)
    → HashMap.get k ((k, n) ∷ m) ≡ some n
unfolding HashMap.get
head_found k n m = ground (arith, eq_iff k k)

module _ (label : Option String) (props : Properties) where
  find_in_sound :
      (m : HashMap NodeId GraphNode) (node : GraphNode)
      → IsUnique m
      → find_in label props (values m) ≡ some node
      → (matches label props node ≡ true) × ((id : String) × (HashMap.get id m ≡ some node))
  unfolding find_in values
  find_in_sound [] node u h = cc
  find_in_sound ((k, n) ∷ m) node u h = elim (Bool-cases (matches label props n)) [
    | inl passes ↦
        let same : n ≡ node = ground arith in
        (rw (← same) passes, (k, rw (← same) (head_found k n m)))
    | inr fails ↦
        let (passes, (id, found)) = find_in_sound m node u.1 (ground arith) in
        (passes, (id, get_tail id k node n m u found))
  ]

  find_in_complete :
      (m : HashMap NodeId GraphNode) (id : String) (node : GraphNode)
      → find_in label props (values m) ≡ none
      → HashMap.get id m ≡ some node
      → matches label props node ≡ false
  unfolding find_in values HashMap.get
  find_in_complete [] id node h g = cc
  find_in_complete ((k, n) ∷ m) id node h g = ground (arith, find_in_complete m id node)

  module _ (s : InMemoryGraphStore) (valid : IsValid s) where
    -- In a valid store a node that is found stands in the store and has the label and every
    -- property.
    pub find_node_sound :
        (node : GraphNode)
        → find_node_by_label_and_props s label props ≡ some node
        → (matches label props node ≡ true) × ((id : String) × (get_node s id ≡ some node))
    unfolding find_node_by_label_and_props get_node
    find_node_sound node = find_in_sound s.nodes node valid.nodes_unique

    -- In a valid store a node is found wherever one of the store has the label and every property.
    pub find_node_complete :
        (id : String) (node : GraphNode)
        → get_node s id ≡ some node
        → matches label props node ≡ true
        → is_some (find_node_by_label_and_props s label props) ≡ true
    unfolding find_node_by_label_and_props get_node
    find_node_complete id node there passes =
        elim (Option-cases (find_in label props (values s.nodes))) [
          | inl missed ↦ absurd (ground (arith, find_in_complete s.nodes id node missed there))
          | inr (found, same) ↦ ground arith
        ]
