-- ===== src/Retrieval/Calm/Samples.antt =====
-- The theorem on checked assertions at a contract with three opcodes and a request of one item. The
-- numbers of this sample are whole.
use aira_graphdb.Base.{
  ◌*◌, ◌≡◌, ◌≢◌, ◌==◌, eq_iff, string_eq, true, some, none, [], ◌∷◌, leb, ltb, Bool-cases, inl, inr,
  refl, if◌then◌else◌,
}
use mathlib.Core.Path.{subst}
use aira_graphdb.Base.Checked.{valid, some_injective}
use aira_graphdb.Retrieval.Json.{
  Json, array, object, string, number, pos_int, nil, cons, end, field,
}
use aira_graphdb.Retrieval.Pointer.{panics}
use aira_graphdb.Retrieval.Values.{Floats}
use aira_graphdb.Retrieval.Eval.{EvalContext}
use aira_graphdb.Retrieval.Admit.{evaluate_assertions}
use aira_graphdb.Retrieval.Ir.{RefinementNodeSpec, Specs, entry_of, parse_assertions}
use aira_graphdb.Retrieval.Calm.Vetted.{DeclaresPaths}
use aira_graphdb.Retrieval.Calm.Expressions.{evaluate_assertions_calm}

abbrev pointer_spec : RefinementNodeSpec
pointer_spec = record {
  role = "expression";
  fields = ("path", "json_pointer") ∷ ("root", "root") ∷ [];
}

-- Declarations as in the pinned contract
abbrev nodes : Specs
nodes =
    (
      "length_lte_ref",
      record {
        role = "assertion";
        fields = ("actual", "expression") ∷ ("limit", "expression") ∷ [];
      },
    )
    ∷ ("literal", record { role = "expression"; fields = ("value", "scalar") ∷ [] })
    ∷ ("pointer", pointer_spec)
    ∷ []

nodes-DeclaresPaths : DeclaresPaths nodes
nodes-DeclaresPaths op spec names found = elim (Bool-cases (op == "pointer")) [
  | inl same ↦
      let declared =
        subst (λ o. entry_of o nodes ≡ some spec) ((eq_iff op "pointer").0 same) found in
      subst (λ (s : RefinementNodeSpec). entry_of "path" s.fields ≡ some "json_pointer")
        (some_injective declared) refl
  | inr other ↦
      let is_iteration = (eq_iff op "iteration_pointer").0 (rw other at names) in
      let missing = subst (λ o. entry_of o nodes ≡ some spec) is_iteration found in absurd cc
]

-- There are at most two items in the request.
abbrev few_items : Json
few_items = object (
    field "actual"
      (object (
        field "op" (string "pointer")
          (field "path" (string "/items") (field "root" (string "request") end))))
      (field "limit"
        (object (field "op" (string "literal") (field "value" (number (pos_int 2)) end)))
        (field "op" (string "length_lte_ref") end)))

abbrev written : Json
written = array (cons few_items nil)

assertions_parsed : parse_assertions nodes written "assertions" ≡ valid (few_items ∷ [])
unfolding parse_assertions
assertions_parsed = refl

abbrev context : EvalContext
context = record {
  request = object (field "items" (array (cons (string "a") nil)) end);
  result = none;
  normalizer = λ dependency value. none;
}

abbrev whole_floats : Floats
whole_floats = record {
  from_u64 = λ n. n;
  from_negative = λ n. 0;
  lt = ltb;
  le = leb;
  mul = λ a b. a * b;
  max = λ a b. if leb a b then b else a;
  is_whole = λ n. true;
  to_usize = λ n. n;
}

evaluate_assertions_calm_example :
    evaluate_assertions whole_floats (few_items ∷ []) context ≢ panics
evaluate_assertions_calm_example =
    evaluate_assertions_calm whole_floats context nodes written "assertions" (few_items ∷ [])
      nodes-DeclaresPaths assertions_parsed
