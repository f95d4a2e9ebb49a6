-- ===== src/Graph.antt =====
-- The in-memory graph, `src/graph.rs`. A store is a record with its two maps and its two
-- sequence counters; a method that takes `&mut self` returns the new store beside its result.
-- The counters are `u64` and wrap around, as in a release build.
pub mod Valid
pub mod Nodes
pub mod Edges
pub mod Detach
pub mod Reach
pub mod Listing
pub mod Labels
pub mod Find
pub mod Samples
use Prim.Native.String.{◌++◌}
use aira_graphdb.Base.{
  ℕ, ◌+◌, ◌*◌, ◌%◌, ◌^◌, String, Bool, true, false, not, ◌&&◌, ◌||◌, Option, none, some, List, [],
  ◌∷◌, map, ◌==◌, nat_eq, ltb, if◌then◌else◌, string_eq, is_some, any, all, filter, length, u64_mod,
}
use aira_graphdb.Base.Decimal.{to_string}
use aira_graphdb.Base.Text.{str_le}
use aira_graphdb.Base.Sort.{sort_by}
use aira_graphdb.HashMap
use aira_graphdb.HashMap.{HashMap}

abbrev pub NodeId : Type 0
NodeId = String

abbrev pub EdgeId : Type 0
EdgeId = String

-- `i64`: `negsuc n` is -(n + 1).
pub data ℤ : Type 0 where
  pos : ℕ → ℤ
  negsuc : ℕ → ℤ

-- A `float64` holds the 64 bits of the number.
pub data Value : Type 0 where
  string : String → Value
  int64 : ℤ → Value
  float64 : ℕ → Value
  bool : Bool → Value
  bytes : List ℕ → Value

abbrev pub Properties : Type 0
Properties = HashMap String Value

pub record GraphNode : Type 0 where
  pub id : NodeId
  pub labels : List String
  pub properties : Properties

pub record GraphEdge : Type 0 where
  pub id : EdgeId
  pub from : NodeId
  pub to : NodeId
  pub edge_type : String
  pub properties : Properties

pub record InMemoryGraphStore : Type 0 where
  pub nodes : HashMap NodeId GraphNode
  pub edges : HashMap EdgeId GraphEdge
  pub next_node_seq : ℕ
  pub next_edge_seq : ℕ

abbrev pub new : InMemoryGraphStore
new = record { nodes = []; edges = []; next_node_seq = 0; next_edge_seq = 0 }

-- `==` of `f64` on the bits: a NaN is equal to nothing, and the two zeros are equal.
unfoldable pub f64_eq : ℕ → ℕ → Bool
f64_eq a b =
    let magnitude_a = a % 2 ^ 63 in
    let magnitude_b = b % 2 ^ 63 in
    let infinity : ℕ = 0x7FF0000000000000 in
    not (ltb infinity magnitude_a)
    && not (ltb infinity magnitude_b)
    && (nat_eq a b || (nat_eq magnitude_a 0 && nat_eq magnitude_b 0))

unfoldable pub bytes_eq : List ℕ → List ℕ → Bool
bytes_eq [] [] = true
bytes_eq (x ∷ xs) (y ∷ ys) = nat_eq x y && bytes_eq xs ys
bytes_eq _ _ = false

unfoldable pub int_eq : ℤ → ℤ → Bool
int_eq (pos m) (pos n) = nat_eq m n
int_eq (negsuc m) (negsuc n) = nat_eq m n
int_eq _ _ = false

unfoldable pub bool_eq : Bool → Bool → Bool
bool_eq true b = b
bool_eq false b = not b

-- The derived `PartialEq` of `Value`.
unfoldable pub value_eq : Value → Value → Bool
unfolding f64_eq bytes_eq int_eq bool_eq
value_eq (Value.string s) (Value.string t) = s == t
value_eq (Value.int64 m) (Value.int64 n) = int_eq m n
value_eq (Value.float64 x) (Value.float64 y) = f64_eq x y
value_eq (Value.bool a) (Value.bool b) = bool_eq a b
value_eq (Value.bytes xs) (Value.bytes ys) = bytes_eq xs ys
value_eq _ _ = false

abbrev pub node_id : ℕ → NodeId
node_id seq = "n" ++ to_string seq

abbrev pub edge_id : ℕ → EdgeId
edge_id seq = "e" ++ to_string seq

unfoldable pub create_node :
    InMemoryGraphStore → List String → Properties → InMemoryGraphStore × GraphNode
create_node s labels properties =
    let seq = (s.next_node_seq + 1) % u64_mod in
    let node : GraphNode = record { id = node_id seq; labels = labels; properties = properties } in
    (record s { next_node_seq = seq; nodes = HashMap.insert (node_id seq) node s.nodes }, node)

unfoldable pub get_node : InMemoryGraphStore → String → Option GraphNode
get_node s id = HashMap.get id s.nodes

unfoldable pub update_node :
    InMemoryGraphStore → String → List String → Properties → InMemoryGraphStore × Option GraphNode
update_node s id labels properties = elim (HashMap.get id s.nodes) [
  | none ↦ (s, none)
  | some node ↦
      let node' : GraphNode = record node { labels = labels; properties = properties } in
      (record s { nodes = HashMap.insert id node' s.nodes }, some node')
]

unfoldable pub delete_node : InMemoryGraphStore → String → InMemoryGraphStore × Bool
delete_node s id =
    (record s { nodes = HashMap.remove id s.nodes }, is_some (HashMap.get id s.nodes))

unfoldable pub has_node : InMemoryGraphStore → String → Bool
has_node s id = HashMap.contains_key id s.nodes

unfoldable pub create_edge :
    InMemoryGraphStore
    → String
    → String
    → String
    → Properties
    → InMemoryGraphStore × Option GraphEdge
create_edge s from to edge_type properties =
    if not (HashMap.contains_key from s.nodes) || not (HashMap.contains_key to s.nodes)
    then (s, none)
    else (let seq = (s.next_edge_seq + 1) % u64_mod in
        let edge : GraphEdge = record {
          id = edge_id seq;
          from = from;
          to = to;
          edge_type = edge_type;
          properties = properties;
        } in
        (
          record s { next_edge_seq = seq; edges = HashMap.insert (edge_id seq) edge s.edges },
          some edge,
        ))

unfoldable pub get_edge : InMemoryGraphStore → String → Option GraphEdge
get_edge s id = HashMap.get id s.edges

unfoldable pub update_edge :
    InMemoryGraphStore → String → String → Properties → InMemoryGraphStore × Option GraphEdge
update_edge s id edge_type properties = elim (HashMap.get id s.edges) [
  | none ↦ (s, none)
  | some edge ↦
      let edge' : GraphEdge = record edge { edge_type = edge_type; properties = properties } in
      (record s { edges = HashMap.insert id edge' s.edges }, some edge')
]

unfoldable pub delete_edge : InMemoryGraphStore → String → InMemoryGraphStore × Bool
delete_edge s id =
    (record s { edges = HashMap.remove id s.edges }, is_some (HashMap.get id s.edges))

unfoldable pub list_nodes : InMemoryGraphStore → List GraphNode
list_nodes s = sort_by (λ (a b : GraphNode). str_le a.id b.id) (HashMap.values s.nodes)

unfoldable pub list_edges : InMemoryGraphStore → List GraphEdge
list_edges s = sort_by (λ (a b : GraphEdge). str_le a.id b.id) (HashMap.values s.edges)

-- `labels.iter().any(|l| l == label)`
abbrev pub has_label : String → GraphNode → Bool
has_label label node = any (λ l. l == label) node.labels

-- `node.properties.get(k) == Some(v)`
unfoldable pub has_property : GraphNode → String × Value → Bool
has_property node (k, v) = elim (HashMap.get k node.properties) [
  | none ↦ false
  | some w ↦ value_eq w v
]

unfoldable pub matches : Option String → Properties → GraphNode → Bool
matches none props node = all (has_property node) props
matches (some label) props node = has_label label node && all (has_property node) props

unfoldable pub find_in : Option String → Properties → List GraphNode → Option GraphNode
unfolding matches
find_in label props [] = none
find_in label props (node ∷ rest) =
    if matches label props node then some node else find_in label props rest

unfoldable pub find_node_by_label_and_props :
    InMemoryGraphStore → Option String → Properties → Option GraphNode
find_node_by_label_and_props s label props = find_in label props (HashMap.values s.nodes)

-- `edge.from == node_id || edge.to == node_id`
abbrev pub touches : String → GraphEdge → Bool
touches id edge = edge.from == id || edge.to == id

unfoldable pub edges_touching_node : InMemoryGraphStore → String → List EdgeId
edges_touching_node s id =
    map (λ (edge : GraphEdge). edge.id) (filter (touches id) (HashMap.values s.edges))

unfoldable pub remove_edges : List EdgeId → HashMap EdgeId GraphEdge → HashMap EdgeId GraphEdge
remove_edges [] edges = edges
remove_edges (id ∷ ids) edges = remove_edges ids (HashMap.remove id edges)

unfoldable pub delete_node_detach : InMemoryGraphStore → String → InMemoryGraphStore × Bool
delete_node_detach s id =
    delete_node (record s { edges = remove_edges (edges_touching_node s id) s.edges }) id

abbrev pub node_count : InMemoryGraphStore → ℕ
node_count s = HashMap.len s.nodes

abbrev pub edge_count : InMemoryGraphStore → ℕ
edge_count s = HashMap.len s.edges

-- The loop over the labels of one node, with its flag `changed`.
unfoldable pub rename_in : String → String → List String → List String × Bool
rename_in from to [] = ([], false)
rename_in from to (l ∷ ls) =
    let (rest, changed) = rename_in from to ls in
    if l == from then (to ∷ rest, true) else (l ∷ rest, changed)

-- The loop over the nodes, with its counter `updated`.
unfoldable pub rename_nodes :
    String → String → HashMap NodeId GraphNode → ℕ → HashMap NodeId GraphNode × ℕ
unfolding rename_in
rename_nodes from to [] updated = ([], updated)
rename_nodes from to ((k, node) ∷ m) updated =
    let (labels, changed) = rename_in from to node.labels in
    let (rest, n) = rename_nodes from to m (if changed then updated + 1 else updated) in
    ((k, record node { labels = labels }) ∷ rest, n)

unfoldable pub rename_label : InMemoryGraphStore → String → String → InMemoryGraphStore × ℕ
rename_label s from to =
    let (nodes, updated) = rename_nodes from to s.nodes 0 in (record s { nodes = nodes }, updated)
