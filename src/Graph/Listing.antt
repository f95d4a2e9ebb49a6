-- ===== src/Graph/Listing.antt =====
-- `list_nodes` and `list_edges`: the values of the map, in the order of their ids.
use mathlib.Core.List.{Perm}
use aira_graphdb.Base.Text.{str_le, str_le_total, str_le_trans}
use aira_graphdb.Base.Sort.{IsSorted, sort_by-IsSorted, sort_by-perm}
use aira_graphdb.HashMap.{values}
use aira_graphdb.Graph.{InMemoryGraphStore, GraphNode, GraphEdge, list_nodes, list_edges}

module _ (s : InMemoryGraphStore) where
  -- The list of the nodes is in ascending order of the ids and holds each value of the map, as
  -- often as the map does.
  pub list_nodes_lem :
      IsSorted (λ (a b : GraphNode). str_le a.id b.id) (list_nodes s)
      × Perm (list_nodes s) (values s.nodes)
  unfolding list_nodes
  list_nodes_lem = (
    sort_by-IsSorted (λ (a b : GraphNode). str_le a.id b.id) (λ a b. str_le_total a.id b.id)
        (λ a b c. str_le_trans a.id b.id c.id) (values s.nodes),
    sort_by-perm (λ (a b : GraphNode). str_le a.id b.id) (values s.nodes),
  )

  -- The same of the edges.
  pub list_edges_lem :
      IsSorted (λ (a b : GraphEdge). str_le a.id b.id) (list_edges s)
      × Perm (list_edges s) (values s.edges)
  unfolding list_edges
  list_edges_lem = (
    sort_by-IsSorted (λ (a b : GraphEdge). str_le a.id b.id) (λ a b. str_le_total a.id b.id)
        (λ a b c. str_le_trans a.id b.id c.id) (values s.edges),
    sort_by-perm (λ (a b : GraphEdge). str_le a.id b.id) (values s.edges),
  )
