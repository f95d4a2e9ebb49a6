-- ===== src/Retrieval/Printed.antt =====
-- A schema that is written as JSON is read back.
use aira_graphdb.Base.{
  ℕ, suc, String, false, not, ◌||◌, ◌≡◌, List, [], ◌∷◌, any, is_empty, refl, ap,
}
use aira_graphdb.Base.Checked.{valid}
use aira_graphdb.Retrieval.Json.{Json, to_list}
use aira_graphdb.Retrieval.Schema.{
  ContractNode, any_string, any_number, any_boolean, literal, array_of, tuple, optional, object_of,
  external_ref, Nodes, no_nodes, node, Members, no_members, member,
}
use aira_graphdb.Retrieval.Reader.{
  parse_contract_node, contract_node_json, nodes_json, members_json, is_scalar, read_nodes,
  read_members, from_list, read_each, read_fields,
}

-- What the reader accepts of a node: its literals are scalars, at least one, and no tuple is empty.
unfoldable mutual
  pub IsPrintable : ContractNode → Type 0
  IsPrintable any_string = Unit
  IsPrintable any_number = Unit
  IsPrintable any_boolean = Unit
  IsPrintable (literal values) = (is_empty values || any (λ v. not (is_scalar v)) values) ≡ false
  IsPrintable (array_of item) = IsPrintable item
  IsPrintable (tuple no_nodes) = ⊥
  IsPrintable (tuple (node item items)) = IsPrintable item × ArePrintable items
  IsPrintable (optional item) = IsPrintable item
  IsPrintable (object_of fields) = MembersPrintable fields
  IsPrintable (external_ref dependency kind) = Unit

  pub ArePrintable : Nodes → Type 0
  ArePrintable no_nodes = Unit
  ArePrintable (node item items) = IsPrintable item × ArePrintable items

  pub MembersPrintable : Members → Type 0
  MembersPrintable no_members = Unit
  MembersPrintable (member key child rest) = IsPrintable child × MembersPrintable rest

to_list-from_list : (xs : List Json) → to_list (from_list xs) ≡ xs
to_list-from_list [] = refl
to_list-from_list (x ∷ xs) = ap (λ ys. x ∷ ys) (to_list-from_list xs)

mutual
  unfolding contract_node_json parse_contract_node IsPrintable read_nodes read_members

  parse_lem :
      (n : ContractNode) (label : String)
      → IsPrintable n
      → parse_contract_node (contract_node_json n) label ≡ valid n
  parse_lem any_string label p = refl
  parse_lem any_number label p = refl
  parse_lem any_boolean label p = refl
  parse_lem (literal values) label p = rw (to_list-from_list values, p) refl
  parse_lem (array_of item) label p = rw (parse_lem item _ p) refl
  parse_lem (tuple no_nodes) label p = absurd p
  parse_lem (tuple (node item items)) label p =
      rw (parse_nodes_lem 0 (node item items) label p) refl
  parse_lem (optional item) label p = rw (parse_lem item _ p) refl
  parse_lem (object_of fields) label p = rw (parse_members_lem fields label p) refl
  parse_lem (external_ref dependency kind) label p = refl

  parse_nodes_lem :
      (index : ℕ) (ns : Nodes) (label : String)
      → ArePrintable ns
      → read_nodes index label (read_each (nodes_json ns)) ≡ valid ns
  parse_nodes_lem index no_nodes label p = refl
  parse_nodes_lem index (node item items) label p =
      rw (parse_lem item _ p.0, parse_nodes_lem (suc index) items label p.1) refl

  parse_members_lem :
      (ms : Members) (label : String)
      → MembersPrintable ms
      → read_members label (read_fields (members_json ms)) ≡ valid ms
  parse_members_lem no_members label p = refl
  parse_members_lem (member key child rest) label p =
      rw (parse_lem child _ p.0, parse_members_lem rest label p.1) refl

-- A schema whose literals are scalars, at least one in each, and whose tuples are not empty is read
-- back from the JSON that is written for it.
pub parse_contract_node-json :
    (n : ContractNode) (label : String)
    → IsPrintable n
    → parse_contract_node (contract_node_json n) label ≡ valid n
parse_contract_node-json n label p = parse_lem n label p
