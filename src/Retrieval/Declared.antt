-- ===== src/Retrieval/Declared.antt =====
-- `parse_refinement_nodes` with the two checks of the inventories: the opcodes that the contract
-- declares, with their roles and the markers of their fields.
use Prim.Native.String.{◌++◌}
use aira_graphdb.Base.{String, Bool, true, not, ◌&&◌, List, [], ◌∷◌, is_some}
use aira_graphdb.Base.Checked.{Checked, valid, ◌>>=◌, ensure, ok_or}
use aira_graphdb.Retrieval.Json.{Json, Fields, end, field, get, keys, as_str, as_object}
use aira_graphdb.Retrieval.Schema.{contains, at_field}
use aira_graphdb.Retrieval.Opcode.{inventory, refinement_handler}
use aira_graphdb.Retrieval.Ir.{
  RefinementNodeSpec, Specs, names_of, same_names, text_in, markers, refinement_field_marker,
  refinement_roles,
}

-- The set of some names has as many members as there are names.
abbrev pub all_distinct : List String → Bool
all_distinct [] = true
all_distinct (s ∷ ss) = not (contains s ss) && all_distinct ss

unfoldable pub check_handled : List String → Checked (Unit {0})
unfolding refinement_handler
check_handled [] = valid tt
check_handled (opcode ∷ rest) = do
  _ ←
      ensure (is_some (refinement_handler opcode))
        ("pinned refinement opcode " ++ (opcode ++ " has no native handler"))
  check_handled rest

unfoldable pub validate_handler_inventory : Specs → Checked (Unit {0})
unfolding check_handled
validate_handler_inventory nodes = do
  _ ←
      ensure (all_distinct (names_of inventory))
        "native refinement handler inventory contains duplicates"
  _ ←
      ensure (same_names (names_of nodes) (names_of inventory))
        "pinned refinement opcode set does not exactly match native handlers"
  check_handled (names_of nodes)

unfoldable pub validate_field_marker_inventory : Checked (Unit {0})
validate_field_marker_inventory = do
  _ ←
      ensure (all_distinct (names_of markers))
        "native refinement field-marker inventory contains duplicates"
  ensure (all_distinct refinement_roles) "native refinement role inventory contains duplicates"

unfoldable pub read_markers : String → Fields → Checked (List (String × String))
unfolding refinement_field_marker
read_markers name end = valid []
read_markers name (field key value rest) = do
  marker ← ok_or (as_str value) ("refinement node " ++ (name ++ " field marker must be a string"))
  _ ←
      ensure (is_some (refinement_field_marker marker))
        ("refinement node " ++ (name ++ (" has unsupported field marker " ++ marker)))
  others ← read_markers name rest
  valid ((key, marker) ∷ others)

abbrev node_label : String → String
node_label = at_field "refinementNodes"

-- One round of the loop; `expect`: the keys were tested just before.
unfoldable pub read_declaration : String → Json → Checked RefinementNodeSpec
unfolding read_markers
read_declaration name value = do
  declaration ← ok_or (as_object value) (node_label name ++ " must be an object")
  _ ←
      ensure (same_names (keys declaration) ("fields" ∷ "role" ∷ []))
        (node_label name ++ " has unknown or missing field")
  role ← ok_or (text_in "role" declaration) (node_label name ++ ".role must be a string")
  _ ←
      ensure (contains role refinement_roles)
        ("refinement node " ++ (name ++ (" has unsupported role " ++ role)))
  given ← ok_or (get "fields" declaration) "checked fields"
  fields ← ok_or (as_object given) (node_label name ++ ".fields must be an object")
  declared ← read_markers name fields
  valid record { role = role; fields = declared }

unfoldable pub read_declarations : Fields → Checked Specs
unfolding read_declaration
read_declarations end = valid []
read_declarations (field name value rest) = do
  spec ← read_declaration name value
  others ← read_declarations rest
  valid ((name, spec) ∷ others)

unfoldable pub parse_refinement_nodes : Json → Checked Specs
unfolding validate_field_marker_inventory read_declarations validate_handler_inventory
parse_refinement_nodes value = do
  map ← ok_or (as_object value) "refinementNodes must be an object"
  _ ← validate_field_marker_inventory
  nodes ← read_declarations map
  _ ← validate_handler_inventory nodes
  valid nodes
