-- ===== src/Retrieval/Calm/Expressions.antt =====
-- Expressions and assertions that were checked against the contract never make their evaluation panic.
use aira_graphdb.Base.{
  ℕ, suc, String, true, false, not, ◌≡◌, ◌≢◌, ◌==◌, Option, none, some, List, [], ◌∷◌, All, any,
  is_empty, Bool-cases, inl, inr, sym, arith,
}
use mathlib.Core.Path.{subst}
use aira_graphdb.Base.Checked.{
  valid, ok_or, ensure, bind_valid, ensure_valid, valid_injective, some_injective,
}
use aira_graphdb.Retrieval.Json.{
  Json, null, bool, number, string, array, object, Items, nil, cons, Fields, end, field, to_list,
  as_array,
}
use aira_graphdb.Retrieval.Schema.{at_index, is_string}
use aira_graphdb.Retrieval.Pointer.{panics}
use aira_graphdb.Retrieval.Values.{Floats}
use aira_graphdb.Retrieval.Admit.{failed_from, first_failed_assertion, evaluate_assertions, verdict}
use aira_graphdb.Retrieval.Eval.{EvalContext, eval, eval_each}
use aira_graphdb.Retrieval.Ir.{
  RefinementFieldMarker, expression, expression_array_nonempty, string_array, Specs, check_items,
  check_marker, is_string_array, validate_ir_expression, ir_each, check_assertions,
  parse_assertions,
}
use aira_graphdb.Retrieval.Calm.{
  IsCalm, IsCalmRun, IsCalmChild, IsCalm-fails, IsCalm-bind, calm_rules,
}
use aira_graphdb.Retrieval.Calm.Iterated.{bool_value_calm}
use aira_graphdb.Retrieval.Calm.Fields.{child_of, ir_child_of}
use aira_graphdb.Retrieval.Calm.Vetted.{DeclaresPaths, strings_calm, FieldsCalm, object_calm}

-- The verdict on a failed assertion is an error.
verdict_calm : (f : Floats) (failed : Option ℕ) → IsCalm (verdict f failed)
verdict_calm f none = search calm_rules
verdict_calm f (some index) = search calm_rules

strings_only :
    (xs : List Json) → is_string_array xs ≡ true → any (λ x. not (is_string x)) xs ≡ false
strings_only xs h = ground arith

module _ (f : Floats) (context : EvalContext) (nodes : Specs) (declares : DeclaresPaths nodes) where
  mutual
    unfolding eval validate_ir_expression check_marker check_items

    run_calm :
        (e : Json) (role label : String)
        → validate_ir_expression nodes e role label ≡ valid tt
        → IsCalmRun (eval f context e)
    run_calm (object fs) role label h =
        object_calm f context nodes fs role label declares (fields_calm fs) h
    run_calm (array xs) role label h = absurd cc
    run_calm null role label h = absurd cc
    run_calm (bool b) role label h = absurd cc
    run_calm (number n) role label h = absurd cc
    run_calm (string s) role label h = absurd cc

    fields_calm : (fs : Fields) → FieldsCalm f context nodes fs
    fields_calm end name child ir kind label found checked h = absurd cc
    fields_calm (field key value rest) name child ir kind label found checked h =
        elim (Bool-cases (key == name)) [
          | inl same ↦
              let is_child = some_injective (rw same at found) in
              let is_ir : ir_child_of f context nodes value ≡ ir =
                some_injective (rw same at checked) in
              subst IsCalmChild is_child (
                marked_calm value kind label
                  (subst (λ c. check_marker kind c label ≡ valid tt) (sym is_ir) h))
          | inr different ↦
              fields_calm rest name child ir kind label (rw different at found)
                (rw different at checked) h
        ]

    marked_calm :
        (value : Json) (kind : RefinementFieldMarker) (label : String)
        → check_marker kind (ir_child_of f context nodes value) label ≡ valid tt
        → IsCalmChild (child_of f context nodes value)
    marked_calm null kind label h = record {
      itself = record { on = λ current. IsCalm-fails _ };
      each = tt;
    }
    marked_calm (bool b) kind label h = record {
      itself = record { on = λ current. IsCalm-fails _ };
      each = tt;
    }
    marked_calm (number n) kind label h = record {
      itself = record { on = λ current. IsCalm-fails _ };
      each = tt;
    }
    marked_calm (string s) kind label h = record {
      itself = record { on = λ current. IsCalm-fails _ };
      each = tt;
    }
    marked_calm (array xs) expression_array_nonempty label h =
        let (_, (_, items)) = bind_valid (ensure (not (is_empty (to_list xs))) _) _ tt h in
        record {
          itself = record { on = λ current. IsCalm-fails _ };
          each = each_calm xs 0 label items;
        }
    marked_calm (array xs) string_array label h = record {
      itself = record { on = λ current. IsCalm-fails _ };
      each = strings_calm f context nodes xs (strings_only (to_list xs) (ensure_valid _ _ _ h));
    }
    marked_calm (array xs) kind label h = absurd cc
    marked_calm (object fs) expression label h = record {
      itself = object_calm f context nodes fs "expression" label declares (fields_calm fs) h;
      each = tt;
    }
    marked_calm (object fs) kind label h = absurd cc

    each_calm :
        (xs : Items) (index : ℕ) (label : String)
        → check_items (ir_each nodes xs) index label ≡ valid tt
        → All IsCalmRun (eval_each f context xs)
    each_calm nil index label h = tt
    each_calm (cons x xs) index label h =
        let (_, (here, there)) =
          bind_valid (validate_ir_expression nodes x "expression" (at_index label index)) _ tt h in
        (run_calm x "expression" (at_index label index) here, each_calm xs (suc index) label there)

  failed_from_calm :
      (assertions : List Json) (checked position : ℕ) (label : String)
      → check_assertions nodes assertions checked label ≡ valid tt
      → IsCalm (failed_from f context position assertions)
  unfolding check_assertions failed_from
  failed_from_calm [] checked position label h = search calm_rules
  failed_from_calm (assertion ∷ rest) checked position label h =
      let (_, (here, there)) =
        bind_valid (validate_ir_expression nodes assertion "assertion" (at_index label checked)) _
          tt h in
      let later = failed_from_calm rest (suc checked) (suc position) label there in
      let first = run_calm assertion "assertion" (at_index label checked) here in
      search (first.on, bool_value_calm, calm_rules) depth 12

-- If the contract declares the field `path` of each opcode with a path as a JSON pointer, then
-- assertions that `parse_assertions` accepts never make `evaluate_assertions` panic, whatever the
-- request and the result.
pub evaluate_assertions_calm :
    (f : Floats) (context : EvalContext) (nodes : Specs) (value : Json) (label : String)
    (assertions : List Json)
    → DeclaresPaths nodes
    → parse_assertions nodes value label ≡ valid assertions
    → evaluate_assertions f assertions context ≢ panics
unfolding parse_assertions evaluate_assertions first_failed_assertion
evaluate_assertions_calm f context nodes value label assertions declares h =
    let (given, (_, h1)) = bind_valid (ok_or (as_array value) _) _ assertions h in
    let (_, (_, h2)) = bind_valid (ensure (not (is_empty given)) _) _ assertions h1 in
    let (_, (checked, done)) = bind_valid (check_assertions nodes given 0 label) _ assertions h2 in
    let calm = failed_from_calm f context nodes declares given 0 0 label checked in
    let same : given ≡ assertions = valid_injective done in
    subst (λ (list : List Json). evaluate_assertions f list context ≢ panics) same
      (IsCalm-bind (failed_from f context 0 given) (verdict f) calm (verdict_calm f)).at
