-- ===== src/Query/Write.antt =====
-- The clauses that change the graph: `CREATE`, `MERGE`, `SET NODE`, `REMOVE NODE`, `DELETE NODE`. A
-- clause that fails may have changed the graph before.
use aira_graphdb.Base.{
  ℕ, ◌+◌, ◌-◌, suc, String, Bool, true, false, not, ◌&&◌, ◌||◌, Option, none, some, List, [], ◌∷◌,
  ◌==◌, string_eq, nat_eq, if◌then◌else◌,
}
use aira_graphdb.Base
use aira_graphdb.HashMap
use aira_graphdb.Errors.{ErrorCode, Result, ok, err, new}
use aira_graphdb.Graph.{
  InMemoryGraphStore, GraphNode, Value, Properties, create_node, delete_node, delete_node_detach,
  has_node, edges_touching_node, find_node_by_label_and_props,
}
use aira_graphdb.Str.{
  length, take, drop, find, starts_with, ends_with, strip_prefix, trim, split_whitespace,
  split_once, trim_start_matches, is, is_empty,
}
use aira_graphdb.Query.{
  F64, QueryResult, ◌>>=◌, syntax_error, unsupported, unsupported_in, or_error,
}
use aira_graphdb.Query.Literals.{parse_assignment, parse_create_or_merge_payload, or_text}

-- What a clause gives, and the graph after it.
abbrev pub Written : Type 0
Written = Result QueryResult × InMemoryGraphStore

-- `get_node_mut`, with a change of the properties
unfoldable pub change_properties :
    InMemoryGraphStore → String → (Properties → Properties) → Option InMemoryGraphStore
change_properties store id change = elim (HashMap.get id store.nodes) [
  | none ↦ none
  | some node ↦
      let node' : GraphNode = record node { properties = change node.properties } in
      some (record store { nodes = HashMap.insert id node' store.nodes })
]

abbrev pub changed_or : String → Option InMemoryGraphStore → InMemoryGraphStore → Written
changed_or message none store = (err (new ErrorCode.referential_integrity_violation message), store)
changed_or message (some store') store = (ok QueryResult.ack, store')

unfoldable pub execute_create : F64 → InMemoryGraphStore → String → Written
unfolding starts_with ends_with parse_create_or_merge_payload create_node
execute_create f store query =
    if not (starts_with query "CREATE (") || not (ends_with b')' query)
    then (err (syntax_error "invalid CREATE syntax"), store)
    else (elim (parse_create_or_merge_payload f query "CREATE ") [
      | err e ↦ (err e, store)
      | ok (label, props) ↦ (ok QueryResult.ack, (create_node store (label ∷ []) props).0)
    ])

-- The number of the characters up to the parenthesis that closes the pattern.
unfoldable pub pattern_end : ℕ → ℕ → String → Option ℕ
pattern_end depth idx String.[] = none
pattern_end depth idx (String.◌∷◌ c s) =
    let deeper = pattern_end (depth + 1) (idx + 1) s in
    let shallower = pattern_end (depth - 1) (idx + 1) s in
    let same = pattern_end depth (idx + 1) s in
    if is b'(' c
    then deeper
    else if is b')' c
    then (if nat_eq (depth - 1) 0 then some (idx + 1) else shallower)
    else same

unfoldable pub split_pattern_and_tail : String → String → Result (String × String)
unfolding trim strip_prefix pattern_end take drop length
split_pattern_and_tail query prefix = do
  let trimmed = trim query
  body ← or_error (unsupported "missing clause prefix") (strip_prefix trimmed prefix)
  end ← or_error (syntax_error "invalid node pattern") (pattern_end 0 0 body)
  ok (take (length prefix + end) trimmed, drop (length prefix + end) trimmed)

abbrev up_to_next : String → String
up_to_next after = elim (find after " ON ") [ none ↦ after | some next ↦ take next after ]

unfoldable pub parse_merge_set_clause : F64 → String → String → Result (Option (String × Value))
unfolding trim find take drop length parse_assignment
parse_merge_set_clause f tail marker =
    let trimmed = trim tail in
    if is_empty trimmed then ok none else (elim (find trimmed marker) [
      | none ↦ ok none
      | some pos ↦ (do
        assignment ← parse_assignment f (up_to_next (trim (drop (pos + length marker) trimmed)))
        ok (some assignment))
    ])

-- The assignment of a `MERGE`, on the node that it found or made.
unfoldable pub assign_merged :
    F64 → String → String → String → String → InMemoryGraphStore → Written
unfolding parse_merge_set_clause change_properties
assign_merged f tail marker id missing store = elim (parse_merge_set_clause f tail marker) [
  | err e ↦ (err e, store)
  | ok none ↦ (ok QueryResult.ack, store)
  | ok (some (key, value)) ↦
      changed_or missing (change_properties store id (HashMap.insert key value)) store
]

unfoldable pub merge_node : F64 → InMemoryGraphStore → String → String → Properties → Written
unfolding find_node_by_label_and_props create_node assign_merged
merge_node f store tail label props = elim (find_node_by_label_and_props store (some label) props) [
  | some existing ↦ assign_merged f tail "ON MATCH SET" existing.id "MERGE target missing" store
  | none ↦
      let (store', created) = create_node store (label ∷ []) props in
      assign_merged f tail "ON CREATE SET" created.id "MERGE create target missing" store'
]

unfoldable pub parse_merge : F64 → String → Result (String × String × Properties)
unfolding split_pattern_and_tail parse_create_or_merge_payload
parse_merge f query = do
  (pattern_part, tail) ← split_pattern_and_tail query "MERGE "
  (label, props) ← parse_create_or_merge_payload f pattern_part "MERGE "
  ok (tail, label, props)

unfoldable pub execute_merge : F64 → InMemoryGraphStore → String → Written
unfolding starts_with parse_merge merge_node
execute_merge f store query =
    if not (starts_with query "MERGE (")
    then (err (unsupported_in "MERGE" "unsupported MERGE form"), store)
    else (elim (parse_merge f query) [
      | err e ↦ (err e, store)
      | ok (tail, label, props) ↦ merge_node f store tail label props
    ])

-- `NODE <id> <rest>`, with the errors of the two clauses that have this form.
unfoldable pub node_form : String → String → String → String → String → Result (String × String)
unfolding trim starts_with split_once
node_form content clause form no_id no_rest =
    if not (starts_with content "NODE ") then err (unsupported_in clause form) else (do
      after_kw ← or_error (unsupported no_id) (split_once b' ' content).1
      let parts = split_once b' ' after_kw
      rest ← or_error (unsupported no_rest) parts.1
      ok (parts.0, rest))

unfoldable pub parse_set : F64 → String → Result (String × String × Value)
unfolding trim trim_start_matches node_form parse_assignment
parse_set f query = do
  (node_id, assignment) ←
      node_form (trim (trim_start_matches query "SET ")) "SET" "unsupported SET form"
        "SET NODE requires node id" "SET NODE requires key=value assignment"
  (key, value) ← parse_assignment f assignment
  ok (node_id, key, value)

unfoldable pub execute_set : F64 → InMemoryGraphStore → String → Written
unfolding parse_set change_properties
execute_set f store query = elim (parse_set f query) [
  | err e ↦ (err e, store)
  | ok (node_id, key, value) ↦
      changed_or "SET NODE target does not exist"
        (change_properties store node_id (HashMap.insert key value)) store
]

unfoldable pub execute_remove : InMemoryGraphStore → String → Written
unfolding trim trim_start_matches node_form strip_prefix change_properties
execute_remove store query =
    elim (node_form (trim (trim_start_matches query "REMOVE ")) "REMOVE" "unsupported REMOVE form"
      "REMOVE NODE requires node id" "REMOVE NODE requires property key") [
        | err e ↦ (err e, store)
        | ok (node_id, key) ↦
            changed_or "REMOVE NODE target does not exist"
              (change_properties store node_id
                (HashMap.remove (or_text (strip_prefix (trim key) "n.") key)))
              store
      ]

-- `parts.get(3).map(|v| *v == "DETACH").unwrap_or(false)`
abbrev detaches : List String → Bool
detaches [] = false
detaches (w ∷ ws) = w == "DETACH"

-- The node of the words `DELETE NODE <id>`, and whether to detach it.
abbrev pub delete_target : List String → Result (String × Bool)
delete_target (a ∷ b ∷ node_id ∷ rest) =
    if not (a == "DELETE") || not (b == "NODE")
    then err (unsupported_in "DELETE" "unsupported DELETE form")
    else ok (node_id, detaches rest)
delete_target _ = err (unsupported_in "DELETE" "unsupported DELETE form")

unfoldable pub delete_target_node : InMemoryGraphStore → String → Bool → Written
unfolding has_node edges_touching_node delete_node_detach delete_node
delete_target_node store node_id detach =
    if not (has_node store node_id)
    then (ok QueryResult.ack, store)
    else if not (Base.is_empty (edges_touching_node store node_id)) && not detach
    then (
      err (
          new ErrorCode.referential_integrity_violation
            "node is still referenced by edges; use DETACH"),
      store,
    )
    else if detach
    then (ok QueryResult.ack, (delete_node_detach store node_id).0)
    else (ok QueryResult.ack, (delete_node store node_id).0)

unfoldable pub execute_delete : InMemoryGraphStore → String → Written
unfolding split_whitespace delete_target_node
execute_delete store query = elim (delete_target (split_whitespace query)) [
  | err e ↦ (err e, store)
  | ok (node_id, detach) ↦ delete_target_node store node_id detach
]
