-- ===== src/Retrieval/Ir.antt =====
-- `validate_ir_expression`, `parse_refinement_nodes` and `parse_assertions`: the check of refinement
-- expressions against the roles and the fields that the contract declares for each opcode. A
-- `BTreeMap` of declarations is a list of them in the order of the keys.
use Prim.Native.String.{◌++◌}
use aira_graphdb.Base.{
  ℕ, suc, String, Bool, true, false, not, ◌&&◌, ◌||◌, Option, none, some, List, [], ◌∷◌, ◌==◌,
  string_eq, any, all, map, is_empty, if◌then◌else◌,
}
use aira_graphdb.Base.Checked.{Checked, valid, invalid, ◌>>=◌, ensure, ok_or}
use aira_graphdb.Retrieval.Json.{
  Json, array, object, Items, nil, cons, Fields, end, field, get, keys, as_str, as_array,
}
use aira_graphdb.Retrieval.Schema.{contains, at_index, at_field, is_string, is_finite_number}
use aira_graphdb.Retrieval.Reader.{is_scalar}
use aira_graphdb.Retrieval.Opcode.{RefinementHandler, refinement_handler}
use aira_graphdb.Retrieval.Pointer.{validate_json_pointer}

abbrev pub normalization_digest : String
normalization_digest = "v15-entity-normalization-ecmascript-tolowercase-unicode16.0.0@1"

pub data RefinementFieldMarker : Type 0 where
  expression expression_array_nonempty a_number scalar a_string json_pointer root id_order
        string_array :
      RefinementFieldMarker

-- `SUPPORTED_FIELD_MARKERS`, each with its meaning
abbrev pub markers : List (String × RefinementFieldMarker)
markers =
    ("expression", expression)
    ∷ ("expression_array_nonempty", expression_array_nonempty)
    ∷ ("number", a_number)
    ∷ ("scalar", scalar)
    ∷ ("string", a_string)
    ∷ ("json_pointer", json_pointer)
    ∷ ("root", root)
    ∷ ("id_order", id_order)
    ∷ ("string_array", string_array)
    ∷ []

-- The first entry with a name
abbrev pub entry_of {ℓ} : {A : Type ℓ} → String → List (String × A) → Option A
entry_of name [] = none
entry_of name ((key, value) ∷ rest) =
    let others = entry_of name rest in if key == name then some value else others

unfoldable pub refinement_field_marker : String → Option RefinementFieldMarker
refinement_field_marker name = entry_of name markers

abbrev pub refinement_roles : List String
refinement_roles = "assertion" ∷ "expression" ∷ []

pub record RefinementNodeSpec : Type 0 where
  pub role : String
  pub fields : List (String × String)

abbrev pub Specs : Type 0
Specs = List (String × RefinementNodeSpec)

abbrev pub names_of {ℓ} : {A : Type ℓ} → List (String × A) → List String
names_of [] = []
names_of ((name, value) ∷ rest) = name ∷ names_of rest

-- Whether two sets of names, in any order, have the same members
abbrev pub same_names : List String → List String → Bool
same_names actual expected =
    all (λ k. contains k expected) actual && all (λ k. contains k actual) expected

-- A check of an expression in a role, under a label
abbrev pub IrCheck : Type 0
IrCheck = String → String → Checked (Unit {0})

-- A field of an expression: the document that stands there, its check as an expression, and those of
-- its items
pub record IrChild : Type 0 where
  pub json : Json
  pub check : IrCheck
  pub items : List IrCheck

unfoldable pub check_items : List IrCheck → ℕ → String → Checked (Unit {0})
check_items [] index label = valid tt
check_items (check ∷ checks) index label = do
  _ ← check "expression" (at_index label index)
  check_items checks (suc index) label

abbrev pub is_root : Option String → Bool
is_root none = false
is_root (some s) = s == "request" || s == "result"

abbrev pub is_id_order : Option String → Bool
is_id_order none = false
is_id_order (some s) = s == "unicode_utf16_code_unit_asc"

abbrev pub is_string_array : List Json → Bool
is_string_array xs = not (is_empty xs || any (λ x. not (is_string x)) xs)

-- `match marker_kind`
unfoldable pub check_marker : RefinementFieldMarker → IrChild → String → Checked (Unit {0})
unfolding check_items validate_json_pointer
check_marker expression child label = child.check "expression" label
check_marker expression_array_nonempty child label = do
  xs ← ok_or (as_array child.json) (label ++ " must be an expression array")
  _ ← ensure (not (is_empty xs)) (label ++ " must be nonempty")
  check_items child.items 0 label
check_marker a_number child label =
    ensure (is_finite_number child.json) (label ++ " must be a finite JSON number")
check_marker scalar child label = ensure (is_scalar child.json) (label ++ " must be a scalar")
check_marker a_string child label = ensure (is_string child.json) (label ++ " must be a string")
check_marker json_pointer child label = do
  path ← ok_or (as_str child.json) (label ++ " must be a string")
  validate_json_pointer path label
check_marker root child label =
    ensure (is_root (as_str child.json)) (label ++ " must select request or result")
check_marker id_order child label =
    ensure (is_id_order (as_str child.json)) (label ++ " has an unsupported id order")
check_marker string_array child label = do
  xs ← ok_or (as_array child.json) (label ++ " must be a string array")
  ensure (is_string_array xs) (label ++ " must be a nonempty string array")

unfoldable pub validate_ir_field : IrChild → String → String → Checked (Unit {0})
unfolding refinement_field_marker check_marker
validate_ir_field child marker label = do
  kind ← ok_or (refinement_field_marker marker) ("unknown refinement field marker " ++ marker)
  check_marker kind child label

-- The loop over the fields that are declared; `expect`: the keys were tested just before.
unfoldable pub check_fields :
    List (String × String) → List (String × IrChild) → String → Checked (Unit {0})
unfolding validate_ir_field
check_fields [] children label = valid tt
check_fields ((name, marker) ∷ rest) children label = do
  child ← ok_or (entry_of name children) "exact_keys checked IR field"
  _ ← validate_ir_field child marker (at_field label name)
  check_fields rest children label

abbrev pub text_in : String → Fields → Option String
text_in key map = elim (get key map) [ none ↦ none | some v ↦ as_str v ]

abbrev pub is_pinned : RefinementHandler → Option String → Bool
is_pinned RefinementHandler.normalize_ref none = false
is_pinned RefinementHandler.normalize_ref (some dependency) = dependency == normalization_digest
is_pinned _ dependency = true

module _ (nodes : Specs) where
  unfoldable pub check_expression : Fields → List (String × IrChild) → IrCheck
  unfolding check_fields refinement_handler
  check_expression map children role label = do
    op ← ok_or (text_in "op" map) (label ++ ".op must be a string")
    spec ← ok_or (entry_of op nodes) ("unknown refinement opcode " ++ op)
    handler ← ok_or (refinement_handler op) ("unsupported refinement opcode " ++ op)
    _ ←
        ensure (spec.role == role)
          ("refinement opcode " ++ (op ++ (" has role " ++ (spec.role ++ (", expected " ++ role)))))
    _ ←
        ensure (same_names (keys map) ("op" ∷ names_of spec.fields))
          (label ++ " has unknown or missing field")
    _ ← check_fields spec.fields children label
    ensure (is_pinned handler (text_in "dependency" map))
        "normalize_ref names an unpinned dependency"

  unfoldable mutual
    unfolding check_expression

    pub validate_ir_expression : Json → IrCheck
    validate_ir_expression (object map) = check_expression map (ir_children map)
    validate_ir_expression _ = λ role label. invalid (label ++ " must be an object")

    pub ir_children : Fields → List (String × IrChild)
    ir_children end = []
    ir_children (field key value rest) =
        (key, record { json = value; check = validate_ir_expression value; items = ir_items value })
        ∷ ir_children rest

    pub ir_items : Json → List IrCheck
    ir_items (array xs) = ir_each xs
    ir_items _ = []

    pub ir_each : Items → List IrCheck
    ir_each nil = []
    ir_each (cons x xs) = validate_ir_expression x ∷ ir_each xs

  unfoldable pub check_assertions : List Json → ℕ → String → Checked (Unit {0})
  unfolding validate_ir_expression
  check_assertions [] index label = valid tt
  check_assertions (assertion ∷ rest) index label = do
    _ ← validate_ir_expression assertion "assertion" (at_index label index)
    check_assertions rest (suc index) label

  unfoldable pub parse_assertions : Json → String → Checked (List Json)
  unfolding check_assertions
  parse_assertions value label = do
    assertions ← ok_or (as_array value) (label ++ " must be an array")
    _ ← ensure (not (is_empty assertions)) (label ++ " must be nonempty")
    _ ← check_assertions assertions 0 label
    valid assertions
