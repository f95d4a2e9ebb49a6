-- ===== src/Retrieval/Calm/Fields.antt =====
-- The fields of an expression as they are checked and as they are evaluated.
use aira_graphdb.Base.{
  and_left, and_right, String, Bool, true, ◌≡◌, ◌==◌, string_eq, Option, none, some, List, [], ◌∷◌,
  all, Bool-cases, inl, inr, refl, sym, ap, ◌∙◌, eq_iff,
}
use mathlib.Core.Path.{subst}
use aira_graphdb.Base.Checked.{some_injective, ok_or_valid, valid, ok_or, bind_valid}
use aira_graphdb.Retrieval.Json.{Json, Fields, end, field, get, keys, as_str}
use aira_graphdb.Retrieval.Schema.{contains, at_field}
use aira_graphdb.Retrieval.Values.{Floats, Child, find_child}
use aira_graphdb.Retrieval.Eval.{EvalContext, eval, eval_children, eval_items}
use aira_graphdb.Retrieval.Ir.{
  Specs, entry_of, names_of, IrChild, validate_ir_field, check_fields, text_in,
  validate_ir_expression, ir_children, ir_items,
}
use aira_graphdb.Retrieval.Calm.Dispatch.{child_text}

-- What the loop over the declared fields has checked of one of them.
pub check_fields_at :
    (fields : List (String × String)) (children : List (String × IrChild))
    (label name marker : String)
    → check_fields fields children label ≡ valid tt
    → entry_of name fields ≡ some marker
    → (child : IrChild) × ((entry_of name children ≡ some child)
        × (validate_ir_field child marker (at_field label name) ≡ valid tt))
unfolding check_fields
check_fields_at [] children label name marker h found = absurd cc
check_fields_at ((key, other) ∷ rest) children label name marker h found =
    let (child, (got, h1)) = bind_valid (ok_or (entry_of key children) _) _ tt h in
    let (_, (checked, h2)) =
      bind_valid (validate_ir_field child other (at_field label key)) _ tt h1 in
    elim (Bool-cases (key == name)) [
      | inl same ↦
          let declared = some_injective (rw same at found) in
          let is_name = (eq_iff key name).0 same in
          (
            child,
            (
              subst (λ k. entry_of k children ≡ some child) is_name (ok_or_valid _ _ child got),
              subst (λ k. validate_ir_field child marker (at_field label k) ≡ valid tt) is_name
                  (subst (λ m. validate_ir_field child m (at_field label key) ≡ valid tt) declared
                    checked),
            ),
          )
      | inr different ↦ check_fields_at rest children label name marker h2 (rw different at found)
    ]

pub value_text :
    (o : Option Json) (value : Json) (s : String)
    → o ≡ some value
    → (elim o [ none ↦ none | some v ↦ as_str v ]) ≡ some s
    → as_str value ≡ some s
value_text (some v) value s got h = ap as_str (sym (some_injective got)) ∙ h
value_text none value s got h = absurd cc

pub entry_found {ℓ} :
    {A : Type ℓ} (name : String) (entries : List (String × A))
    → contains name (names_of entries) ≡ true
    → (value : A) × (entry_of name entries ≡ some value)
entry_found name [] h = absurd cc
entry_found name ((key, value) ∷ rest) h = elim (Bool-cases (key == name)) [
  | inl same ↦ (value, rw same refl)
  | inr different ↦
      let (found, is_found) = entry_found name rest (rw different at h) in
      (found, rw different is_found)
]

module _ (f : Floats) (context : EvalContext) (nodes : Specs) where
  -- A field of an expression has a name for which the test of its names holds.
  pub known_name :
      (p : String → Bool) (fs : Fields) (name : String) (child : Child)
      → all p (keys fs) ≡ true
      → find_child name (eval_children f context fs) ≡ some child
      → p name ≡ true
  unfolding eval
  known_name p end name child h found = absurd cc
  known_name p (field key value rest) name child h found = elim (Bool-cases (key == name)) [
    | inl same ↦ subst (λ k. p k ≡ true) ((eq_iff key name).0 same) (and_left _ _ h)
    | inr different ↦ known_name p rest name child (and_right _ _ h) (rw different at found)
  ]

  -- A field as it is evaluated
  abbrev pub child_of : Json → Child
  child_of value = record {
    json = value;
    run = eval f context value;
    items = eval_items f context value;
  }

  -- A field as it is checked
  abbrev pub ir_child_of : Json → IrChild
  ir_child_of value = record {
    json = value;
    check = validate_ir_expression nodes value;
    items = ir_items nodes value;
  }

  pub get_child :
      (fs : Fields) (name : String) (child : Child)
      → find_child name (eval_children f context fs) ≡ some child
      → (value : Json) × ((get name fs ≡ some value) × (child_of value ≡ child))
  unfolding eval
  get_child end name child found = absurd cc
  get_child (field key value rest) name child found = elim (Bool-cases (key == name)) [
    | inl same ↦ (value, (rw same refl, some_injective (rw same at found)))
    | inr different ↦
        let (v, (got, is_child)) = get_child rest name child (rw different at found) in
        (v, (rw different got, is_child))
  ]

  pub get_ir_child :
      (fs : Fields) (name : String) (child : IrChild)
      → entry_of name (ir_children nodes fs) ≡ some child
      → get name fs ≡ some child.json
  unfolding validate_ir_expression
  get_ir_child end name child found = absurd cc
  get_ir_child (field key value rest) name child found = elim (Bool-cases (key == name)) [
    | inl same ↦
        rw same (ap some (ap (λ (c : IrChild). c.json) (some_injective (rw same at found))))
    | inr different ↦ rw different (get_ir_child rest name child (rw different at found))
  ]

  pub child_text-children :
      (fs : Fields) (name : String) → child_text name (eval_children f context fs) ≡ text_in name fs
  unfolding eval
  child_text-children end name = refl
  child_text-children (field key value rest) name = elim (Bool-cases (key == name)) [
    | inl same ↦ rw (child_text, text_in, same) refl
    | inr different ↦ rw (child_text, text_in, different) (child_text-children rest name)
  ]
