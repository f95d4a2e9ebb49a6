-- ===== src/Retrieval/Calm/Vetted.antt =====
-- What an expression has whose fields were checked by their markers: it never makes `eval` panic.
use aira_graphdb.Base.{
  and_left, String, true, false, not, ◌≡◌, ◌==◌, string_eq, some, List, ◌∷◌, All, any, Bool-cases,
  inl, inr, sym, ◌∙◌, eq_iff,
}
use mathlib.Core.Path.{subst}
use aira_graphdb.Base.Checked.{
  some_injective, ok_or_valid, valid, ok_or, ensure, bind_valid, ensure_valid,
}
use aira_graphdb.Retrieval.Json.{
  Json, null, bool, number, string, array, object, Items, nil, cons, Fields, get, keys, as_str,
  to_list,
}
use aira_graphdb.Retrieval.Schema.{contains, at_field, is_string}
use aira_graphdb.Retrieval.Opcode.{refinement_handler}
use aira_graphdb.Retrieval.Pointer.{validate_json_pointer}
use aira_graphdb.Retrieval.Values.{Floats, Child, find_child}
use aira_graphdb.Retrieval.Eval.{EvalContext, eval_fields, eval, eval_children, eval_each}
use aira_graphdb.Retrieval.Ir.{
  RefinementFieldMarker, RefinementNodeSpec, Specs, entry_of, names_of, same_names, IrChild,
  check_marker, refinement_field_marker, validate_ir_field, check_fields, text_in, check_expression,
  ir_children,
}
use aira_graphdb.Retrieval.Calm.{IsCalmRun, IsCalmChild, IsCalm-fails}
use aira_graphdb.Retrieval.Calm.Dispatch.{names_path, follows_path-names, HasPath, dispatch_calm}
use aira_graphdb.Retrieval.Calm.Fields.{
  check_fields_at, value_text, entry_found, known_name, child_of, get_child, get_ir_child,
  child_text-children,
}

-- The opcodes with a path declare it as a JSON pointer, as the pinned contract does.
abbrev pub DeclaresPaths : Specs → Type 0
DeclaresPaths nodes =
    (op : String) (spec : RefinementNodeSpec)
    → names_path op ≡ true
    → entry_of op nodes ≡ some spec
    → entry_of "path" spec.fields ≡ some "json_pointer"

module _ (f : Floats) (context : EvalContext) (nodes : Specs) where
  -- Whatever is no object and no array never panics, and has no items.
  string_run : (s : String) → IsCalmRun (eval f context (string s))
  unfolding eval
  string_run s = record { on = λ current. IsCalm-fails _ }

  pub strings_calm :
      (xs : Items)
      → any (λ x. not (is_string x)) (to_list xs) ≡ false
      → All IsCalmRun (eval_each f context xs)
  unfolding eval
  strings_calm nil h = tt
  strings_calm (cons (string s) xs) h = (string_run s, strings_calm xs h)
  strings_calm (cons null xs) h = absurd cc
  strings_calm (cons (bool b) xs) h = absurd cc
  strings_calm (cons (number n) xs) h = absurd cc
  strings_calm (cons (array ys) xs) h = absurd cc
  strings_calm (cons (object fs) xs) h = absurd cc

  text_child :
      (value : Json) (s : String)
      → as_str value ≡ some s
      → IsCalmChild (child_of f context nodes value)
  unfolding eval
  text_child (string t) s h = record { itself = string_run t; each = tt }
  text_child null s h = absurd cc
  text_child (bool b) s h = absurd cc
  text_child (number n) s h = absurd cc
  text_child (array xs) s h = absurd cc
  text_child (object fs) s h = absurd cc

  -- Each field that was checked by a marker never panics.
  abbrev pub FieldsCalm : Fields → Type 0
  FieldsCalm fs =
      (name : String) (child : Child) (ir : IrChild) (kind : RefinementFieldMarker) (label : String)
      → find_child name (eval_children f context fs) ≡ some child
      → entry_of name (ir_children nodes fs) ≡ some ir
      → check_marker kind ir label ≡ valid tt
      → IsCalmChild child

  vetted_field :
      (fs : Fields) (op label : String) (fields : List (String × String))
      → FieldsCalm fs
      → text_in "op" fs ≡ some op
      → same_names (keys fs) ("op" ∷ names_of fields) ≡ true
      → check_fields fields (ir_children nodes fs) label ≡ valid tt
      → (name : String) (child : Child) → find_child name (eval_children f context fs) ≡ some child
      → IsCalmChild child
  unfolding validate_ir_field
  vetted_field fs op label fields calm has_op names checked name child found =
      elim (Bool-cases ("op" == name)) [
        | inl same ↦
            let (value, (got, is_child)) = get_child f context nodes fs name child found in
            let is_name = (eq_iff "op" name).0 same in
            let value_at = subst (λ k. get k fs ≡ some value) (sym is_name) got in
            subst IsCalmChild is_child (text_child value op (value_text _ value op value_at has_op))
        | inr different ↦
            let known =
              known_name f context nodes (λ k. contains k ("op" ∷ names_of fields)) fs name child
                (and_left _ _ names) found in
            let (marker, declared) = entry_found name fields (rw different at known) in
            let (ir, (checked_child, valid_field)) =
              check_fields_at fields (ir_children nodes fs) label name marker checked declared in
            let (kind, (_, by_marker)) =
              bind_valid (ok_or (refinement_field_marker marker) _) _ tt valid_field in
            calm name child ir kind (at_field label name) found checked_child by_marker
      ]

  vetted_path :
      (fs : Fields) (label : String) (fields : List (String × String))
      → check_fields fields (ir_children nodes fs) label ≡ valid tt
      → entry_of "path" fields ≡ some "json_pointer"
      → HasPath (eval_children f context fs)
  unfolding validate_ir_field check_marker refinement_field_marker
  vetted_path fs label fields checked declared path found =
      let (ir, (checked_child, valid_field)) =
        check_fields_at fields (ir_children nodes fs) label "path" "json_pointer" checked
          declared in
      let (s, (got, accepted)) = bind_valid (ok_or (as_str ir.json) _) _ tt valid_field in
      let text =
        value_text _ ir.json path (get_ir_child f context nodes fs "path" ir checked_child)
          (sym (child_text-children f context nodes fs "path") ∙ found) in
      let same = some_injective (sym (ok_or_valid (as_str ir.json) _ s got) ∙ text) in
      (
        at_field label "path",
        subst (λ t. validate_json_pointer t (at_field label "path") ≡ valid tt) same accepted,
      )

  pub object_calm :
      (fs : Fields) (role label : String)
      → DeclaresPaths nodes
      → FieldsCalm fs
      → check_expression nodes fs (ir_children nodes fs) role label ≡ valid tt
      → IsCalmRun (eval_fields f context fs (eval_children f context fs))
  unfolding check_expression eval_fields
  object_calm fs role label declares calm h =
      let (op, (has_op, h1)) = bind_valid (ok_or (text_in "op" fs) _) _ tt h in
      let (spec, (has_spec, h2)) = bind_valid (ok_or (entry_of op nodes) _) _ tt h1 in
      let (handler, (has_handler, h3)) = bind_valid (ok_or (refinement_handler op) _) _ tt h2 in
      let (_, (_, h4)) = bind_valid (ensure (spec.role == role) _) _ tt h3 in
      let (_, (names, h5)) =
        bind_valid (ensure (same_names (keys fs) ("op" ∷ names_of spec.fields)) _) _ tt h4 in
      let (_, (checked, _)) =
        bind_valid (check_fields spec.fields (ir_children nodes fs) label) _ tt h5 in
      let is_op = ok_or_valid (text_in "op" fs) _ op has_op in
      let is_handler = ok_or_valid (refinement_handler op) _ handler has_handler in
      record {
        on = λ current.
            rw (is_op, is_handler)
              (dispatch_calm f context op (eval_children f context fs) current
                (vetted_field fs op label spec.fields calm is_op (ensure_valid _ _ _ names) checked)
                handler
                λ follows. vetted_path fs label spec.fields checked (
                  declares op spec (follows_path-names op handler is_handler follows)
                    (ok_or_valid _ _ spec has_spec)));
      }
