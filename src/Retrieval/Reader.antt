-- ===== src/Retrieval/Reader.antt =====
-- `parse_contract_node`, which reads a schema from JSON, and `contract_node_json`, which writes it.
use Prim.Native.String.{◌++◌}
use aira_graphdb.Base.{
  ℕ, suc, String, Bool, true, false, not, ◌&&◌, ◌||◌, Option, none, some, List, [], ◌∷◌, ◌==◌,
  string_eq, any, all, is_empty, if◌then◌else◌,
}
use aira_graphdb.Base.Decimal.{to_string}
use aira_graphdb.Base.Checked.{Checked, valid, invalid, ◌>>=◌, ensure, ok_or}
use aira_graphdb.Retrieval.Json.{
  Json, string, array, object, Items, nil, cons, Fields, end, field, as_str, as_array,
}
use aira_graphdb.Retrieval.Schema.{
  ContractNode, any_string, any_number, any_boolean, literal, array_of, tuple, optional, object_of,
  external_ref, Nodes, no_nodes, node, Members, no_members, member, contains,
}

abbrev pub Read : Type 0
Read = String → Checked ContractNode

-- A field of a schema: the document that stands there, what it reads as, and what its items and its own
-- fields read as
pub record Part : Type 0 where
  pub json : Json
  pub read : Read
  pub items : List Read
  pub fields : List (String × Read)

abbrev pub Parts : Type 0
Parts = List (String × Part)

abbrev pub find_part : String → Parts → Option Part
find_part name [] = none
find_part name ((key, part) ∷ rest) =
    let others = find_part name rest in if key == name then some part else others

abbrev part_keys : Parts → List String
part_keys [] = []
part_keys ((key, part) ∷ rest) = key ∷ part_keys rest

-- `exact_keys`: two sets with the same members
abbrev pub exact_keys : Parts → List String → String → Checked (Unit {0})
exact_keys parts expected label =
    ensure
      (all (λ k. contains k expected) (part_keys parts)
        && all (λ k. contains k (part_keys parts)) expected)
      (label ++ " has unknown or missing field")

abbrev pub is_scalar : Json → Bool
is_scalar (array xs) = false
is_scalar (object fs) = false
is_scalar _ = true

abbrev text_at : String → Parts → String → Checked String
text_at name parts label =
    ok_or (elim (find_part name parts) [ none ↦ none | some part ↦ as_str part.json ])
      (label ++ ("." ++ (name ++ " must be a string")))

abbrev array_at : String → Parts → String → Checked (List Json)
array_at name parts label =
    ok_or (elim (find_part name parts) [ none ↦ none | some part ↦ as_array part.json ])
      (label ++ ("." ++ (name ++ " must be an array")))

-- `expect`: the keys were tested just before.
abbrev part_at : String → Parts → Checked Part
part_at name parts = ok_or (find_part name parts) "checked"

unfoldable pub read_nodes : ℕ → String → List Read → Checked Nodes
read_nodes index label [] = valid no_nodes
read_nodes index label (read ∷ reads) = do
  first ← read (label ++ (".items[" ++ (to_string index ++ "]")))
  rest ← read_nodes (suc index) label reads
  valid (node first rest)

unfoldable pub read_members : String → List (String × Read) → Checked Members
read_members label [] = valid no_members
read_members label ((key, read) ∷ reads) = do
  child ← read (label ++ ("." ++ key))
  rest ← read_members label reads
  valid (member key child rest)

abbrev object_at : Part → String → Checked (List (String × Read))
object_at part label = elim part.json [
  | object fs ↦ valid part.fields
  | _ ↦ invalid (label ++ ".fields must be an object")
]

unfoldable pub read_literal : Parts → Read
read_literal parts label = do
  _ ← exact_keys parts ("kind" ∷ "values" ∷ []) label
  values ← array_at "values" parts label
  if is_empty values || any (λ v. not (is_scalar v)) values
      then invalid (label ++ ".values must be nonempty scalars")
      else valid (literal values)

unfoldable pub read_array : Parts → Read
read_array parts label = do
  _ ← exact_keys parts ("kind" ∷ "items" ∷ []) label
  part ← part_at "items" parts
  item ← part.read (label ++ ".items")
  valid (array_of item)

unfoldable pub read_tuple : Parts → Read
unfolding read_nodes
read_tuple parts label = do
  _ ← exact_keys parts ("kind" ∷ "items" ∷ []) label
  items ← array_at "items" parts label
  part ← part_at "items" parts
  if is_empty items
      then invalid (label ++ ".items must be nonempty")
      else (do nodes ← read_nodes 0 label part.items; valid (tuple nodes))

unfoldable pub read_optional : Parts → Read
read_optional parts label = do
  _ ← exact_keys parts ("kind" ∷ "value" ∷ []) label
  part ← part_at "value" parts
  value ← part.read (label ++ ".value")
  valid (optional value)

unfoldable pub read_object : Parts → Read
unfolding read_members
read_object parts label = do
  _ ← exact_keys parts ("kind" ∷ "fields" ∷ []) label
  part ← part_at "fields" parts
  fields ← object_at part label
  members ← read_members label fields
  valid (object_of members)

unfoldable pub read_reference : Parts → Read
read_reference parts label = do
  _ ← exact_keys parts ("dependency" ∷ "kind" ∷ "referenceKind" ∷ []) label
  dependency ← text_at "dependency" parts label
  kind ← text_at "referenceKind" parts label
  valid (external_ref dependency kind)

abbrev plain : Parts → ContractNode → Read
plain parts n label = do _ ← exact_keys parts ("kind" ∷ []) label; valid n

-- `match kind`
unfoldable pub read_kind : String → Parts → Read
unfolding read_literal read_array read_tuple read_optional read_object read_reference
read_kind kind parts =
    if kind == "string"
    then plain parts any_string
    else if kind == "number"
    then plain parts any_number
    else if kind == "boolean"
    then plain parts any_boolean
    else if kind == "literal"
    then read_literal parts
    else if kind == "array"
    then read_array parts
    else if kind == "tuple"
    then read_tuple parts
    else if kind == "optional"
    then read_optional parts
    else if kind == "object"
    then read_object parts
    else if kind == "externalRef"
    then read_reference parts
    else λ label. invalid ("unsupported contract schema kind " ++ kind)

unfoldable pub read_parts : Parts → Read
unfolding read_kind
read_parts parts label = do kind ← text_at "kind" parts label; read_kind kind parts label

unfoldable mutual
  unfolding read_parts

  pub parse_contract_node : Json → Read
  parse_contract_node (object fs) = read_parts (parts_of fs)
  parse_contract_node _ = λ label. invalid (label ++ " must be an object")

  pub parts_of : Fields → Parts
  parts_of end = []
  parts_of (field key value rest) =
      (
        key,
        record {
          json = value;
          read = parse_contract_node value;
          items = reads_of value;
          fields = fields_of value;
        },
      )
      ∷ parts_of rest

  pub reads_of : Json → List Read
  reads_of (array xs) = read_each xs
  reads_of _ = []

  pub read_each : Items → List Read
  read_each nil = []
  read_each (cons x xs) = parse_contract_node x ∷ read_each xs

  pub fields_of : Json → List (String × Read)
  fields_of (object fs) = read_fields fs
  fields_of _ = []

  pub read_fields : Fields → List (String × Read)
  read_fields end = []
  read_fields (field key value rest) = (key, parse_contract_node value) ∷ read_fields rest

-- A list of values as an array
abbrev pub from_list : List Json → Items
from_list [] = nil
from_list (x ∷ xs) = cons x (from_list xs)

abbrev kind_only : String → Json
kind_only kind = object (field "kind" (string kind) end)

-- The keys stand in their order.
unfoldable mutual
  pub contract_node_json : ContractNode → Json
  contract_node_json any_string = kind_only "string"
  contract_node_json any_number = kind_only "number"
  contract_node_json any_boolean = kind_only "boolean"
  contract_node_json (literal values) =
      object (field "kind" (string "literal") (field "values" (array (from_list values)) end))
  contract_node_json (array_of item) =
      object (field "items" (contract_node_json item) (field "kind" (string "array") end))
  contract_node_json (tuple items) =
      object (field "items" (array (nodes_json items)) (field "kind" (string "tuple") end))
  contract_node_json (optional item) =
      object (field "kind" (string "optional") (field "value" (contract_node_json item) end))
  contract_node_json (object_of fields) =
      object (field "fields" (object (members_json fields)) (field "kind" (string "object") end))
  contract_node_json (external_ref dependency kind) = object (
      field "dependency" (string dependency)
        (field "kind" (string "externalRef") (field "referenceKind" (string kind) end)))

  pub nodes_json : Nodes → Items
  nodes_json no_nodes = nil
  nodes_json (node item items) = cons (contract_node_json item) (nodes_json items)

  pub members_json : Members → Fields
  members_json no_members = end
  members_json (member key child rest) = field key (contract_node_json child) (members_json rest)
