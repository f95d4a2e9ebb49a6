-- ===== src/Query/Again.antt =====
-- A `MERGE` that is executed again finds the node that it made, and changes nothing.
use Prim.Native.String.{String}
use aira_graphdb.Base.{
  ◌≡◌, ◌+◌, ◌<◌, true, some, none, is_some, [], ◌∷◌, all, arith, refl, eq_iff, string_eq,
  Option-cases, inl, inr, u64_mod,
}
use aira_graphdb.HashMap
use aira_graphdb.HashMap.{HashMap, IsUnique, AllEntries}
use aira_graphdb.HashMap.Laws.{get_tail, beq_refl}
use aira_graphdb.Errors.{ok}
use aira_graphdb.Graph.{
  InMemoryGraphStore, GraphNode, Properties, Value, value_eq, has_property, matches, create_node,
  find_node_by_label_and_props,
}
use aira_graphdb.Graph.Valid.{IsValid}
use aira_graphdb.Graph.Nodes.{create_node-IsValid, create_node_lem}
use aira_graphdb.Graph.Find.{find_node_complete}
use aira_graphdb.Query.{F64, QueryResult}
use aira_graphdb.Query.Write.{merge_node, assign_merged, parse_merge_set_clause}

-- A value is equal to itself unless it is a NaN.
abbrev pub IsReflexive : Properties → Type 0
IsReflexive props = AllEntries (λ k v. value_eq v v ≡ true) props

own_properties :
    (node : GraphNode) (m : Properties)
    → IsUnique m
    → IsReflexive m
    → ((k : String) (v : Value) → HashMap.get k m ≡ some v → HashMap.get k node.properties ≡ some v)
    → all (has_property node) m ≡ true
unfolding has_property HashMap.get
own_properties node [] u h sub = refl
own_properties node ((k, v) ∷ m) u h sub =
    let found = sub k v (ground (arith, beq_refl k)) in
    let rest = own_properties node m u.1 h.1 (λ j w g. sub j w (get_tail j k w v m u g)) in
    ground (arith, found, rest, h.0)

-- Without a tail nothing is assigned.
assign_nothing :
    (f : F64) (marker id missing : String) (s : InMemoryGraphStore)
    → assign_merged f "" marker id missing s ≡ (ok QueryResult.ack, s)
unfolding assign_merged parse_merge_set_clause
assign_nothing f marker id missing s = refl

module _ (f : F64) (label : String) (props : Properties) (s : InMemoryGraphStore) where
  merge_found :
      is_some (find_node_by_label_and_props s (some label) props) ≡ true
      → merge_node f s "" label props ≡ (ok QueryResult.ack, s)
  unfolding merge_node
  merge_found h = elim (Option-cases (find_node_by_label_and_props s (some label) props)) [
    | inl absent ↦ absurd (ground (arith, absent))
    | inr (existing, found) ↦
        rw (found, merge_node)
          (assign_nothing f "ON MATCH SET" existing.id "MERGE target missing" s)
  ]

module _ (f : F64) (label : String) (props : Properties) (s : InMemoryGraphStore) where
  merge_absent :
      find_node_by_label_and_props s (some label) props ≡ none
      → merge_node f s "" label props ≡ (ok QueryResult.ack, (create_node s (label ∷ []) props).0)
  unfolding merge_node
  merge_absent h =
      rw (h, merge_node)
        (assign_nothing f "ON CREATE SET" (create_node s (label ∷ []) props).1.id
          "MERGE create target missing" (create_node s (label ∷ []) props).0)

  module _ (valid : IsValid s) (room : s.next_node_seq + 1 < u64_mod) (unique : IsUnique props)
      (reflexive : IsReflexive props) where
    created_found :
        is_some
          (find_node_by_label_and_props (create_node s (label ∷ []) props).0 (some label) props)
        ≡ true
    unfolding matches create_node
    created_found =
        let made = (create_node s (label ∷ []) props).1 in
        let (fresh, there, others, counted, edges) =
          create_node_lem s (label ∷ []) props valid room in
        let passes : matches (some label) props made ≡ true =
          ground
            (arith, eq_iff label label, own_properties made props unique reflexive (λ k v g. g)) in
        find_node_complete (some label) props _
          (create_node-IsValid s (label ∷ []) props valid room) made.id made there passes

    -- On a valid graph with room for one more node, a `MERGE` without a tail, of properties with
    -- distinct keys none of which is a NaN, succeeds, and executing it again succeeds and changes
    -- nothing.
    pub merge_node_again :
        (merge_node f s "" label props).0 ≡ ok QueryResult.ack
        × (merge_node f (merge_node f s "" label props).1 "" label props
            ≡ (ok QueryResult.ack, (merge_node f s "" label props).1))
    merge_node_again = elim (Option-cases (find_node_by_label_and_props s (some label) props)) [
      | inr (existing, found) ↦
          let same = merge_found f label props s (rw found refl) in rw same (refl, same)
      | inl absent ↦
          rw (merge_absent absent)
            (refl, merge_found f label props (create_node s (label ∷ []) props).0 created_found)
    ]
