-- ===== src/Retrieval/Declarations.antt =====
-- What the declarations of the opcodes hold that were accepted.
use aira_graphdb.Base.{
  and_left, and_right, String, Bool, true, false, ◌≡◌, ◌==◌, string_eq, List, [], ◌∷◌, All, all,
  is_some, Bool-cases, inl, inr, refl, sym, ◌∙◌, eq_iff,
}
use mathlib.Core.Path.{subst}
use aira_graphdb.Base.Checked.{valid, ensure, ok_or, bind_valid, ensure_valid, valid_injective}
use aira_graphdb.Retrieval.Json.{Json, Fields, end, field, get, keys, as_str, as_object}
use aira_graphdb.Retrieval.Schema.{contains}
use aira_graphdb.Retrieval.Opcode.{RefinementHandler, inventory, find, refinement_handler}
use aira_graphdb.Retrieval.Ir.{
  RefinementNodeSpec, Specs, entry_of, names_of, same_names, text_in, refinement_field_marker,
  refinement_roles,
}
use aira_graphdb.Retrieval.Declared.{
  validate_handler_inventory, read_markers, read_declaration, read_declarations,
  parse_refinement_nodes,
}

-- A declaration has a known role, and each of its fields a known marker.
pub record IsDeclaration (spec : RefinementNodeSpec) : Type 0 where
  pub known_role : contains spec.role refinement_roles ≡ true
  pub known_markers : All (λ m. is_some (refinement_field_marker m.1) ≡ true) spec.fields

-- An opcode is declared exactly if it has a handler.
pub record IsInventory (nodes : Specs) : Type 0 where
  pub handled : (op : String) → is_some (entry_of op nodes) ≡ is_some (refinement_handler op)
  pub declared : All (λ e. IsDeclaration e.1) nodes

read_markers_valid :
    (name : String) (fs : Fields) (ms : List (String × String))
    → read_markers name fs ≡ valid ms
    → All (λ m. is_some (refinement_field_marker m.1) ≡ true) ms
unfolding read_markers
read_markers_valid name end ms h =
    subst (All (λ m. is_some (refinement_field_marker m.1) ≡ true)) (valid_injective h) tt
read_markers_valid name (field key value rest) ms h =
    let (marker, (_, h1)) = bind_valid (ok_or (as_str value) _) _ ms h in
    let (_, (known, h2)) =
      bind_valid (ensure (is_some (refinement_field_marker marker)) _) _ ms h1 in
    let (others, (read, done)) = bind_valid (read_markers name rest) _ ms h2 in
    subst (All (λ m. is_some (refinement_field_marker m.1) ≡ true)) (valid_injective done)
      (ensure_valid _ _ _ known, read_markers_valid name rest others read)

read_declaration-IsDeclaration :
    (name : String) (value : Json) (spec : RefinementNodeSpec)
    → read_declaration name value ≡ valid spec
    → IsDeclaration spec
unfolding read_declaration
read_declaration-IsDeclaration name value spec h =
    let (map, (_, h1)) = bind_valid (ok_or (as_object value) _) _ spec h in
    let (_, (_, h2)) =
      bind_valid (ensure (same_names (keys map) ("fields" ∷ "role" ∷ [])) _) _ spec h1 in
    let (role, (_, h3)) = bind_valid (ok_or (text_in "role" map) _) _ spec h2 in
    let (_, (known, h4)) = bind_valid (ensure (contains role refinement_roles) _) _ spec h3 in
    let (given, (_, h5)) = bind_valid (ok_or (get "fields" map) _) _ spec h4 in
    let (fields, (_, h6)) = bind_valid (ok_or (as_object given) _) _ spec h5 in
    let (markers, (read, done)) = bind_valid (read_markers name fields) _ spec h6 in
    subst IsDeclaration (valid_injective done) record {
      known_role = ensure_valid _ _ _ known;
      known_markers = read_markers_valid name fields markers read;
    }

read_declarations_valid :
    (fs : Fields) (nodes : Specs)
    → read_declarations fs ≡ valid nodes
    → All (λ e. IsDeclaration e.1) nodes
unfolding read_declarations
read_declarations_valid end nodes h = subst (All (λ e. IsDeclaration e.1)) (valid_injective h) tt
read_declarations_valid (field name value rest) nodes h =
    let (spec, (read, h1)) = bind_valid (read_declaration name value) _ nodes h in
    let (others, (reads, done)) = bind_valid (read_declarations rest) _ nodes h1 in
    subst (All (λ e. IsDeclaration e.1)) (valid_injective done) (
      read_declaration-IsDeclaration name value spec read,
      read_declarations_valid rest others reads,
    )

bool_ext : (a b : Bool) → (a ≡ true → b ≡ true) → (b ≡ true → a ≡ true) → a ≡ b
bool_ext true b p q = sym (p refl)
bool_ext false true p q = q refl
bool_ext false false p q = refl

entry_of-names :
    (op : String) (nodes : Specs) → is_some (entry_of op nodes) ≡ contains op (names_of nodes)
entry_of-names op [] = refl
entry_of-names op ((name, spec) ∷ rest) = elim (Bool-cases (name == op)) [
  | inl same ↦ rw same refl
  | inr different ↦ rw different (entry_of-names op rest)
]

equal_sym : (s t : String) → (s == t) ≡ (t == s)
equal_sym s t =
    bool_ext (s == t) (t == s) (λ h. (eq_iff t s).1 (sym ((eq_iff s t).0 h)))
      (λ h. (eq_iff s t).1 (sym ((eq_iff t s).0 h)))

find-names :
    (op : String) (entries : List (String × RefinementHandler))
    → is_some (find op entries) ≡ contains op (names_of entries)
find-names op [] = refl
find-names op ((name, handler) ∷ rest) = elim (Bool-cases (name == op)) [
  | inl same ↦ rw (equal_sym op name, same) refl
  | inr different ↦ rw (equal_sym op name, different) (find-names op rest)
]

contains_mono :
    (op : String) (actual expected : List String)
    → all (λ k. contains k expected) actual ≡ true
    → contains op actual ≡ true
    → contains op expected ≡ true
contains_mono op [] expected h found = absurd cc
contains_mono op (k ∷ ks) expected h found = elim (Bool-cases (k == op)) [
  | inl same ↦ subst (λ s. contains s expected ≡ true) ((eq_iff k op).0 same) (and_left _ _ h)
  | inr different ↦ contains_mono op ks expected (and_right _ _ h) (rw different at found)
]

same_contains :
    (op : String) (actual expected : List String)
    → same_names actual expected ≡ true
    → contains op actual ≡ contains op expected
same_contains op actual expected h =
    bool_ext _ _ (contains_mono op actual expected (and_left _ _ h))
      (contains_mono op expected actual (and_right _ _ h))

-- Declarations that `parse_refinement_nodes` accepts are of exactly the opcodes that have a handler, in
-- known roles and with known markers.
parse_refinement_nodes-IsInventory :
    (value : Json) (nodes : Specs) → parse_refinement_nodes value ≡ valid nodes → IsInventory nodes
unfolding parse_refinement_nodes validate_handler_inventory refinement_handler
parse_refinement_nodes-IsInventory value nodes h =
    let (map, (_, h1)) = bind_valid (ok_or (as_object value) _) _ nodes h in
    let (read, (is_read, h3)) = bind_valid (read_declarations map) _ nodes h1 in
    let (_, (accepted, done)) = bind_valid (validate_handler_inventory read) _ nodes h3 in
    let (_, (same, _)) =
      bind_valid (ensure (same_names (names_of read) (names_of inventory)) _) _ tt accepted in
    subst IsInventory (valid_injective done) record {
      handled = λ op.
          entry_of-names op read
          ∙ same_contains op (names_of read) (names_of inventory) (ensure_valid _ _ _ same)
          ∙ sym (find-names op inventory);
      declared = read_declarations_valid map read is_read;
    }
