-- ===== src/Query/Effects.antt =====
-- A query changes the graph by the methods of the graph only, and a query that gives rows has made no
-- node.
use aira_graphdb.Base.{
  ◌+◌, ◌<◌, ◌≡◌, String, Bool, true, false, not, ◌||◌, some, none, [], ◌∷◌, arith, refl,
  Option-cases, inl, inr, if◌then◌else◌, u64_mod, string_eq,
}
use aira_graphdb.HashMap
use aira_graphdb.Errors.{ok, Result-cases}
use aira_graphdb.Graph.{
  InMemoryGraphStore, GraphNode, Properties, create_node, update_node, find_node_by_label_and_props,
}
use aira_graphdb.Graph.Reach.{Reach, next, creates_node, updates_node}
use aira_graphdb.Str.{starts_with, ends_with, trim, trim_start_matches, strip_prefix}
use aira_graphdb.Query.{F64, QueryResult, Outcome, returns}
use aira_graphdb.Query.Merge.{Executed}
use aira_graphdb.Query.Write.{
  Written, change_properties, changed_or, execute_create, assign_merged, merge_node, parse_merge,
  execute_merge, parse_set, execute_set, execute_remove, node_form, parse_merge_set_clause,
}
use aira_graphdb.Query.Literals.{parse_create_or_merge_payload, or_text}
use aira_graphdb.Query.Execute.{writes}

abbrev pub gives_rows : Outcome QueryResult → Bool
gives_rows (returns (ok QueryResult.ack)) = false
gives_rows (returns (ok _)) = true
gives_rows _ = false

-- From a graph that the methods make, with room for a node, to such a graph.
pub record IsSound (s : InMemoryGraphStore) (e : Executed) : Type 0 where
  pub sound :
      Reach s
      → s.next_node_seq + 1 < u64_mod
      → Reach e.1 × (gives_rows e.0 ≡ true → e.1.next_node_seq ≡ s.next_node_seq)

pub unchanged-IsSound : (o : Outcome QueryResult) (s : InMemoryGraphStore) → IsSound s (o, s)
unchanged-IsSound o s = record { sound = λ r room. (r, λ rows. refl) }

-- A change of the properties is a call of `update_node` with the labels that the node has.
change_properties_lem :
    (s : InMemoryGraphStore) (id : String) (change : Properties → Properties) (node : GraphNode)
    → HashMap.get id s.nodes ≡ some node
    → change_properties s id change ≡ some (update_node s id node.labels (change node.properties)).0
unfolding change_properties update_node
change_properties_lem s id change node found = rw (found, change_properties, update_node) refl

changed_or-Reach :
    (message id : String) (change : Properties → Properties) (s : InMemoryGraphStore)
    → Reach s
    → Reach (changed_or message (change_properties s id change) s).1
      × (gives_rows (writes (changed_or message (change_properties s id change) s)).0 ≡ false)
unfolding change_properties
changed_or-Reach message id change s r = elim (Option-cases (HashMap.get id s.nodes)) [
  | inl missing ↦ rw (missing, change_properties) (r, refl)
  | inr (node, found) ↦
      rw (change_properties_lem s id change node found)
        (next r (updates_node id node.labels (change node.properties)), refl)
]

-- What gives no rows is sound if it is reached.
pub no_rows-IsSound :
    (s : InMemoryGraphStore) (e : Executed)
    → (Reach s → s.next_node_seq + 1 < u64_mod → Reach e.1 × (gives_rows e.0 ≡ false))
    → IsSound s e
no_rows-IsSound s e h = record {
  sound = λ r room.
      let (reached, no_rows) = h r room in (reached, λ rows. absurd (ground (arith, no_rows)));
}

assign_merged-Reach :
    (f : F64) (tail marker id missing : String) (s : InMemoryGraphStore)
    → Reach s
    → Reach (assign_merged f tail marker id missing s).1
      × (gives_rows (writes (assign_merged f tail marker id missing s)).0 ≡ false)
unfolding assign_merged
assign_merged-Reach f tail marker id missing s r =
    elim (Result-cases (parse_merge_set_clause f tail marker)) [
      | inr (e, failed) ↦ rw (failed, assign_merged) (r, refl)
      | inl (none, parsed) ↦ rw (parsed, assign_merged) (r, refl)
      | inl (some (key, value), parsed) ↦
          rw (parsed, assign_merged) (changed_or-Reach missing id (HashMap.insert key value) s r)
    ]

pub if-IsSound :
    (b : Bool) (s : InMemoryGraphStore) (x y : Executed)
    → IsSound s x
    → IsSound s y
    → IsSound s (if b then x else y)
if-IsSound true s x y h k = h
if-IsSound false s x y h k = k

pub if_written-IsSound :
    (b : Bool) (s : InMemoryGraphStore) (x y : Written)
    → IsSound s (writes x)
    → IsSound s (writes y)
    → IsSound s (writes (if b then x else y))
if_written-IsSound true s x y h k = h
if_written-IsSound false s x y h k = k

pub execute_create-IsSound :
    (f : F64) (s : InMemoryGraphStore) (q : String) → IsSound s (writes (execute_create f s q))
unfolding execute_create
execute_create-IsSound f s q =
    if_written-IsSound (not (starts_with q "CREATE (") || not (ends_with b')' q)) s _ _
      (unchanged-IsSound _ s)
      (elim (Result-cases (parse_create_or_merge_payload f q "CREATE ")) [
        | inr (e, failed) ↦ rw failed (unchanged-IsSound _ s)
        | inl ((label, props), parsed) ↦
            rw parsed (
              no_rows-IsSound s _ (λ r room. (next r (creates_node (label ∷ []) props room), refl)))
      ])

merge_node-IsSound :
    (f : F64) (s : InMemoryGraphStore) (tail label : String) (props : Properties)
    → IsSound s (writes (merge_node f s tail label props))
unfolding merge_node
merge_node-IsSound f s tail label props =
    elim (Option-cases (find_node_by_label_and_props s (some label) props)) [
      | inr (existing, found) ↦
          rw (found, merge_node)
            (no_rows-IsSound s _ (λ r room.
              assign_merged-Reach f tail "ON MATCH SET" existing.id "MERGE target missing" s r))
      | inl absent ↦
          rw (absent, merge_node)
            (no_rows-IsSound s _ (λ r room.
              assign_merged-Reach f tail "ON CREATE SET" (create_node s (label ∷ []) props).1.id
                "MERGE create target missing" (create_node s (label ∷ []) props).0
                (next r (creates_node (label ∷ []) props room))))
    ]

pub execute_merge-IsSound :
    (f : F64) (s : InMemoryGraphStore) (q : String) → IsSound s (writes (execute_merge f s q))
unfolding execute_merge
execute_merge-IsSound f s q =
    if_written-IsSound (not (starts_with q "MERGE (")) s _ _ (unchanged-IsSound _ s)
      (elim (Result-cases (parse_merge f q)) [
        | inr (e, failed) ↦ rw failed (unchanged-IsSound _ s)
        | inl ((tail, label, props), parsed) ↦ rw parsed (merge_node-IsSound f s tail label props)
      ])

pub execute_set-IsSound :
    (f : F64) (s : InMemoryGraphStore) (q : String) → IsSound s (writes (execute_set f s q))
unfolding execute_set
execute_set-IsSound f s q = elim (Result-cases (parse_set f q)) [
  | inr (e, failed) ↦ rw (failed, execute_set) (unchanged-IsSound _ s)
  | inl ((node_id, key, value), parsed) ↦
      rw (parsed, execute_set)
        (no_rows-IsSound s _ (λ r room. changed_or-Reach _ node_id (HashMap.insert key value) s r))
]

pub execute_remove-IsSound :
    (s : InMemoryGraphStore) (q : String) → IsSound s (writes (execute_remove s q))
unfolding execute_remove
execute_remove-IsSound s q =
    let parsed_form =
      node_form (trim (trim_start_matches q "REMOVE ")) "REMOVE" "unsupported REMOVE form"
        "REMOVE NODE requires node id" "REMOVE NODE requires property key" in
    elim (Result-cases parsed_form) [
      | inr (e, failed) ↦ rw (failed, execute_remove) (unchanged-IsSound _ s)
      | inl ((node_id, key), parsed) ↦
          rw (parsed, execute_remove)
            (no_rows-IsSound s _ (λ r room.
              changed_or-Reach _ node_id
                (HashMap.remove (or_text (strip_prefix (trim key) "n.") key)) s r))
    ]
