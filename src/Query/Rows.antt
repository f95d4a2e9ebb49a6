-- ===== src/Query/Rows.antt =====
-- `build_relationship_rows` against a description of its rows: one for each edge that passes, two where
-- the direction does not matter, and one for each node that no such edge has.
use aira_graphdb.Base.{
  ◌≡◌, ℕ, String, Bool, true, false, not, ◌||◌, Option, some, List, [], ◌∷◌, ◌++◌, map, filter, any,
  All, arith, refl, sym, ap, ◌∙◌, ◌==◌, string_eq, Bool-cases, Option-cases, inl, inr,
}
use aira_graphdb.Base.Sort.{All-sort_by}
use aira_graphdb.HashMap
use aira_graphdb.HashMap.Laws.{All-values, AllEntries-get}
use aira_graphdb.Errors.{ok}
use aira_graphdb.Graph.{
  InMemoryGraphStore, GraphNode, GraphEdge, Value, get_node, get_edge, has_node, list_nodes,
  list_edges,
}
use aira_graphdb.Graph.Valid.{IsValid, IsReferential}
use aira_graphdb.Query.{F64}
use aira_graphdb.Query.Relationship.{
  Gathered, row, matched_ids, optional_rows, passes_weight, gather, gather_edge, gather_edges,
  unmatched_rows, build_relationship_rows,
}

-- The edge ends at the node, or also starts there where the direction does not matter.
abbrev pub has_end : Bool → String → GraphEdge → Bool
has_end true id edge = edge.from == id
has_end false id edge = (edge.to == id) || (edge.from == id)

-- The rows of one edge
abbrev pub edge_rows : Bool → GraphEdge → List (List Value)
edge_rows true edge = row edge.from edge.id edge.to ∷ []
edge_rows false edge = row edge.from edge.id edge.to ∷ row edge.to edge.id edge.from ∷ []

abbrev pub all_rows : Bool → List GraphEdge → List (List Value)
all_rows directed [] = []
all_rows directed (edge ∷ edges) = edge_rows directed edge ++ all_rows directed edges

abbrev pub is_unmatched : Bool → List GraphEdge → GraphNode → Bool
is_unmatched directed edges node = not (any (has_end directed node.id) edges)

abbrev pub lone_row : GraphNode → List Value
lone_row node = row node.id "NULL" "NULL"

abbrev pub lone_rows : Bool → Bool → List GraphEdge → List GraphNode → List (List Value)
lone_rows false directed edges nodes = []
lone_rows true directed edges nodes = map lone_row (filter (is_unmatched directed edges) nodes)

-- Both ends of the edge stand in the graph.
record HasEnds (s : InMemoryGraphStore) (edge : GraphEdge) : Type 0 where
  source : GraphNode
  target : GraphNode
  source_found : get_node s edge.from ≡ some source
  target_found : get_node s edge.to ≡ some target
  source_named : source.id ≡ edge.from
  target_named : target.id ≡ edge.to

node_named :
    (s : InMemoryGraphStore) (id : String)
    → IsValid s
    → has_node s id ≡ true
    → (node : GraphNode) × ((get_node s id ≡ some node) × (node.id ≡ id))
unfolding has_node get_node HashMap.contains_key
node_named s id v h = elim (Option-cases (HashMap.get id s.nodes)) [
  | inl missing ↦ absurd (ground (arith, missing))
  | inr (node, found) ↦ (
    node,
    (found, AllEntries-get (λ k (n : GraphNode). n.id ≡ k) id node s.nodes v.nodes_named found),
  )
]

list_edges-HasEnds :
    (s : InMemoryGraphStore) → IsValid s → IsReferential s → All (HasEnds s) (list_edges s)
unfolding list_edges get_edge
list_edges-HasEnds s v r = All-sort_by _ (HasEnds s) (HashMap.values s.edges) (
    All-values (HasEnds s) s.edges v.edges_unique (λ k e found.
      let (from_there, to_there) = r.ends k e found in
      let (a, (fa, na)) = node_named s e.from v from_there in
      let (b, (fb, nb)) = node_named s e.to v to_there in
      record {
        source = a;
        target = b;
        source_found = fa;
        target_found = fb;
        source_named = na;
        target_named = nb;
      }))

-- What the loop over the edges adds to what it has gathered
record Adds (directed : Bool) (passing : List GraphEdge) (g g' : Gathered) : Type 0 where
  rows_added : g'.rows ≡ g.rows ++ all_rows directed passing
  ids_added :
      (id : String)
      → any (λ i. i == id) (matched_ids directed g')
        ≡ any (has_end directed id) passing || any (λ i. i == id) (matched_ids directed g)

append_assoc {ℓ} : {A : Type ℓ} (xs ys zs : List A) → (xs ++ ys) ++ zs ≡ xs ++ (ys ++ zs)
append_assoc [] ys zs = refl
append_assoc (x ∷ xs) ys zs = rw (append_assoc xs ys zs) refl

append_nil {ℓ} : {A : Type ℓ} (xs : List A) → xs ++ [] ≡ xs
append_nil [] = refl
append_nil (x ∷ xs) = rw (append_nil xs) refl

regroup : (a b c : Bool) → (a || (b || c)) ≡ (((a || b) || false) || c)
regroup true b c = refl
regroup false true c = refl
regroup false false c = refl

gather_edge-Adds :
    (s : InMemoryGraphStore) (directed : Bool) (edge : GraphEdge) (g : Gathered)
    → HasEnds s edge
    → (g' : Gathered) × ((gather_edge s directed edge g ≡ ok g') × Adds directed (edge ∷ []) g g')
unfolding gather_edge
gather_edge-Adds s true edge g h = (
  gather true h.source edge h.target g,
  (
    rw (h.source_found, h.target_found, gather_edge) refl,
    record {
      rows_added = rw (h.source_named, h.target_named) refl;
      ids_added = λ id. rw h.source_named (ground arith);
    },
  ),
)
gather_edge-Adds s false edge g h = (
  gather false h.source edge h.target g,
  (
    rw (h.source_found, h.target_found, gather_edge) refl,
    record {
      rows_added = rw (h.source_named, h.target_named) refl;
      ids_added = λ id.
          rw (h.source_named, h.target_named)
            (regroup (edge.to == id) (edge.from == id) (any (λ i. i == id) g.matched_any_ids));
    },
  ),
)

gather_edges-Adds :
    (f : F64) (s : InMemoryGraphStore) (directed : Bool) (w : Option ℕ) (edges : List GraphEdge)
    (g : Gathered)
    → All (HasEnds s) edges
    → (g' : Gathered) × ((gather_edges f s directed w edges g ≡ ok g')
        × Adds directed (filter (passes_weight f w) edges) g g')
unfolding gather_edges
gather_edges-Adds f s directed w [] g h =
    (g, (refl, record { rows_added = sym (append_nil g.rows); ids_added = λ id. refl }))
gather_edges-Adds f s directed w (edge ∷ edges) g (ends, h) =
    elim (Bool-cases (passes_weight f w edge)) [
      | inr light ↦ rw (light, gather_edges) (gather_edges-Adds f s directed w edges g h)
      | inl heavy ↦
          let (g₁, (one, first)) = gather_edge-Adds s directed edge g ends in
          let (g₂, (others, more)) = gather_edges-Adds f s directed w edges g₁ h in
          (
            g₂,
            (
              rw (heavy, gather_edges, one, others) refl,
              rw heavy (record {
                rows_added =
                    more.rows_added
                    ∙ (ap (λ rs. rs ++ all_rows directed (filter (passes_weight f w) edges))
                          first.rows_added
                        ∙ rw (append_nil (edge_rows directed edge))
                            (append_assoc g.rows (edge_rows directed edge) _));
                ids_added = λ id. ground (arith, more.ids_added id, first.ids_added id);
              }),
            ),
          )
    ]

filter_ext {ℓ} :
    {A : Type ℓ} (p q : A → Bool) (xs : List A) → ((x : A) → p x ≡ q x) → filter p xs ≡ filter q xs
filter_ext p q [] h = refl
filter_ext p q (x ∷ xs) h = rw (h x, filter_ext p q xs h) refl

unmatched_rows_lem :
    (ids : List String) (nodes : List GraphNode)
    → unmatched_rows ids nodes
      ≡ map lone_row (filter (λ (n : GraphNode). not (any (λ i. i == n.id) ids)) nodes)
unfolding unmatched_rows
unmatched_rows_lem ids [] = refl
unmatched_rows_lem ids (n ∷ nodes) = elim (Bool-cases (any (λ i. i == n.id) ids)) [
  | inl matched ↦ rw (matched, unmatched_rows, unmatched_rows_lem ids nodes) refl
  | inr lone ↦ rw (lone, unmatched_rows, unmatched_rows_lem ids nodes) refl
]

optional_rows_lem :
    (optional directed : Bool) (s : InMemoryGraphStore) (passing : List GraphEdge) (g g' : Gathered)
    → Adds directed passing g g'
    → matched_ids directed g ≡ []
    → optional_rows optional directed s g' ≡ lone_rows optional directed passing (list_nodes s)
optional_rows_lem false directed s passing g g' h e = refl
optional_rows_lem true directed s passing g g' h e =
    unmatched_rows_lem (matched_ids directed g') (list_nodes s)
    ∙ ap (map lone_row)
        (filter_ext _ _ (list_nodes s) (λ n. ground (arith, rw e at (h.ids_added n.id))))

nothing :
    (directed : Bool)
    → matched_ids directed (record { rows = []; matched_source_ids = []; matched_any_ids = [] })
      ≡ []
nothing true = refl
nothing false = refl

-- On a valid graph in which both ends of each edge exist, matching relationships never fails: its
-- rows are those of the edges that pass the weight filter, in the order of their ids, in both
-- directions where the direction does not matter, and then, if the match is optional, one for each
-- node that no such edge starts at, or starts or ends at.
pub build_relationship_rows_lem :
    (f : F64) (s : InMemoryGraphStore) (directed optional : Bool) (w : Option ℕ)
    → IsValid s
    → IsReferential s
    → build_relationship_rows f s directed optional w
      ≡ ok (
          all_rows directed (filter (passes_weight f w) (list_edges s))
          ++ lone_rows optional directed (filter (passes_weight f w) (list_edges s)) (list_nodes s))
unfolding build_relationship_rows
build_relationship_rows_lem f s directed optional w v r =
    let (g', (built, adds)) =
      gather_edges-Adds f s directed w (list_edges s) _ (list_edges-HasEnds s v r) in
    rw
      (
        build_relationship_rows,
        built,
        adds.rows_added,
        optional_rows_lem optional directed s _ _ g' adds (nothing directed),
      )
      refl
