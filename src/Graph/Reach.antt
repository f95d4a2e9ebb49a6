-- ===== src/Graph/Reach.antt =====
-- Every store that the methods can make from the empty one is sound, as long as its counters stay
-- below the limit of a `u64` and a node is deleted without `DETACH` only when no edge touches it.
use aira_graphdb.Base.{◌+◌, ◌<◌, String, List, [], ◌≡◌, u64_mod, Bool-cases, inl, inr, ◌&&◌}
use aira_graphdb.Graph.{
  InMemoryGraphStore, Properties, new, create_node, update_node, delete_node, delete_node_detach,
  create_edge, update_edge, delete_edge, rename_label, edges_touching_node, has_node,
}
use aira_graphdb.Graph.Valid.{IsValid, IsReferential, new-IsValid, new-IsReferential}
use aira_graphdb.Graph.Nodes.{
  create_node-IsValid, create_node-IsReferential, update_node-IsValid, update_node-IsReferential,
}
use aira_graphdb.Graph.Edges.{
  create_edge-IsValid, create_edge-IsReferential, create_edge_refused, update_edge-IsValid,
  update_edge-IsReferential, delete_edge-IsValid, delete_edge-IsReferential,
}
use aira_graphdb.Graph.Detach.{
  delete_node-IsValid, delete_node-IsReferential, delete_node_detach-IsValid,
  delete_node_detach-IsReferential,
}
use aira_graphdb.Graph.Labels.{rename_label-IsValid, rename_label-IsReferential}

-- One call of a method that changes the store.
pub data Step (s : InMemoryGraphStore) : InMemoryGraphStore → Type 0 where
  creates_node :
      (labels : List String) (properties : Properties)
      → s.next_node_seq + 1 < u64_mod
      → Step s (create_node s labels properties).0
  updates_node :
      (id : String) (labels : List String) (properties : Properties)
      → Step s (update_node s id labels properties).0
  deletes_node : (id : String) → edges_touching_node s id ≡ [] → Step s (delete_node s id).0
  detaches_node : (id : String) → Step s (delete_node_detach s id).0
  creates_edge :
      (from to edge_type : String) (properties : Properties)
      → s.next_edge_seq + 1 < u64_mod
      → Step s (create_edge s from to edge_type properties).0
  updates_edge :
      (id edge_type : String) (properties : Properties)
      → Step s (update_edge s id edge_type properties).0
  deletes_edge : (id : String) → Step s (delete_edge s id).0
  renames_label : (from to : String) → Step s (rename_label s from to).0

pub data Reach : InMemoryGraphStore → Type 0 where
  start : Reach new
  next : {s t : InMemoryGraphStore} → Reach s → Step s t → Reach t

create_edge-IsSound :
    (s : InMemoryGraphStore) (from to edge_type : String) (properties : Properties)
    → s.next_edge_seq + 1 < u64_mod
    → IsValid s × IsReferential s
    → IsValid (create_edge s from to edge_type properties).0
      × IsReferential (create_edge s from to edge_type properties).0
create_edge-IsSound s from to edge_type properties room (v, r) =
    elim (Bool-cases (has_node s from && has_node s to)) [
      | inl ends ↦ (
        create_edge-IsValid s from to edge_type properties v room ends,
        create_edge-IsReferential s from to edge_type properties v room ends r,
      )
      | inr missing ↦ rw (create_edge_refused s from to edge_type properties missing) (v, r)
    ]

Step-IsSound :
    {s t : InMemoryGraphStore}
    → Step s t
    → IsValid s × IsReferential s
    → IsValid t × IsReferential t
Step-IsSound {s} (creates_node labels properties room) (v, r) = (
  create_node-IsValid s labels properties v room,
  create_node-IsReferential s labels properties v room r,
)
Step-IsSound {s} (updates_node id labels properties) (v, r) = (
  update_node-IsValid s id labels properties v,
  update_node-IsReferential s id labels properties r,
)
Step-IsSound {s} (deletes_node id alone) (v, r) =
    (delete_node-IsValid s id v, delete_node-IsReferential s id v alone r)
Step-IsSound {s} (detaches_node id) (v, r) =
    (delete_node_detach-IsValid s id v, delete_node_detach-IsReferential s id v r)
Step-IsSound {s} (creates_edge from to edge_type properties room) h =
    create_edge-IsSound s from to edge_type properties room h
Step-IsSound {s} (updates_edge id edge_type properties) (v, r) = (
  update_edge-IsValid s id edge_type properties v,
  update_edge-IsReferential s id edge_type properties r,
)
Step-IsSound {s} (deletes_edge id) (v, r) =
    (delete_edge-IsValid s id v, delete_edge-IsReferential s id r)
Step-IsSound {s} (renames_label from to) (v, r) =
    (rename_label-IsValid from to s v, rename_label-IsReferential from to s r)

-- Every store that is reached from the empty one by the methods is valid, and both ends of each
-- edge exist, as long as the counters stay below their limit and a node is deleted without `DETACH`
-- only where no edge touches it.
pub Reach-IsSound : {s : InMemoryGraphStore} → Reach s → IsValid s × IsReferential s
Reach-IsSound start = (new-IsValid, new-IsReferential)
Reach-IsSound (next r st) = Step-IsSound st (Reach-IsSound r)
