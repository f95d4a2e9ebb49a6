-- ===== src/Graph/Valid.antt =====
-- The invariants of a store, and the maps after each method.
use aira_graphdb.Base.{
  ℕ, ◌<◌, String, true, false, ◌≡◌, ◌≢◌, refl, none, some, ◌==◌, eq_iff, string_eq, Bool-cases, inl,
  inr,
}
use aira_graphdb.Base.Decimal.{prefix-to_string_inj}
use aira_graphdb.HashMap
use aira_graphdb.HashMap.{IsUnique, AllEntries}
use aira_graphdb.Graph.{
  InMemoryGraphStore, GraphNode, GraphEdge, node_id, edge_id, new, get_edge, has_node,
}

-- What Rust's maps and the way in which ids are made give: distinct keys, each value under its own
-- id, and no id that a counter has still to reach.
pub record IsValid (s : InMemoryGraphStore) : Type 0 where
  pub nodes_unique : IsUnique s.nodes
  pub edges_unique : IsUnique s.edges
  pub nodes_named : AllEntries (λ k (n : GraphNode). n.id ≡ k) s.nodes
  pub edges_named : AllEntries (λ k (e : GraphEdge). e.id ≡ k) s.edges
  pub nodes_fresh : (j : ℕ) → s.next_node_seq < j → HashMap.get (node_id j) s.nodes ≡ none
  pub edges_fresh : (j : ℕ) → s.next_edge_seq < j → HashMap.get (edge_id j) s.edges ≡ none

-- Referential integrity: both ends of every edge are nodes of the store.
pub record IsReferential (s : InMemoryGraphStore) : Type 0 where
  pub ends :
      (k : String) (e : GraphEdge)
      → get_edge s k ≡ some e
      → (has_node s e.from ≡ true) × (has_node s e.to ≡ true)

pub new-IsValid : IsValid new
unfolding HashMap.get
new-IsValid = record {
  nodes_unique = tt;
  edges_unique = tt;
  nodes_named = tt;
  edges_named = tt;
  nodes_fresh = λ j h. refl;
  edges_fresh = λ j h. refl;
}

pub new-IsReferential : IsReferential new
unfolding get_edge HashMap.get
new-IsReferential = record { ends = λ k e h. cc }

-- Different numbers make different ids.
pub node_id_ne : (i j : ℕ) → i ≢ j → (node_id i == node_id j) ≡ false
node_id_ne i j h = elim (Bool-cases (node_id i == node_id j)) [
  | inl same ↦ absurd (h (prefix-to_string_inj "n" i j ((eq_iff (node_id i) (node_id j)).0 same)))
  | inr other ↦ other
]

pub edge_id_ne : (i j : ℕ) → i ≢ j → (edge_id i == edge_id j) ≡ false
edge_id_ne i j h = elim (Bool-cases (edge_id i == edge_id j)) [
  | inl same ↦ absurd (h (prefix-to_string_inj "e" i j ((eq_iff (edge_id i) (edge_id j)).0 same)))
  | inr other ↦ other
]
