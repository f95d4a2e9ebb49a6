-- ===== src/Retrieval/Eval.antt =====
-- `eval`: every opcode, on the expressions in the fields. An expression is a JSON document, and the
-- fields of each object are read as expressions where a handler asks for their values; so the recursion
-- is on the document.
use Prim.Native.String.{◌++◌}
use aira_graphdb.Base.{
  String, true, false, Option, none, some, List, [], ◌∷◌, ◌==◌, string_eq, if◌then◌else◌,
}
use aira_graphdb.Graph.{f64_eq}
use aira_graphdb.Retrieval.Json.{
  Json, array, object, Items, nil, cons, Fields, end, field, get, as_str,
}
use aira_graphdb.Retrieval.Opcode.{RefinementHandler, refinement_handler}
use aira_graphdb.Retrieval.Pointer.{
  Outcome, gives, fails, ◌>>=◌, or_fail, EvalValue, owned, pointer_value, Current, current_pointer,
}
use aira_graphdb.Retrieval.Values.{
  Floats, Run, Children, field_of, text_of, eval_array_length, eval_array_at, eval_eq, eval_order,
  eval_multiply, eval_not, eval_normalize_ref, eval_prefixed_identity, eval_finite_range,
  eval_safe_integer_range, eval_length, eval_tuple_tags,
}
use aira_graphdb.Retrieval.Loops.{
  eval_bool, eval_coalesce, eval_concat, eval_max, eval_map_lookup, eval_set_contains,
  eval_unique_by, eval_ordered, eval_for_each, eval_rank,
}

abbrev pub Normalizer : Type 0
Normalizer = String → String → Option String

pub record EvalContext : Type 0 where
  pub request : Json
  pub result : Option Json
  pub normalizer : Normalizer

-- The document that a pointer starts from
abbrev pub root_of : EvalContext → Option String → Outcome Json
root_of context none = fails "pointer root is invalid"
root_of context (some root) =
    if root == "request"
    then gives context.request
    else if root == "result"
    then or_fail context.result "result pointer used without a result"
    else fails "pointer root is invalid"

module _ (f : Floats) where
  unfoldable pub eval_pointer : EvalContext → String → Children → Current → Outcome EvalValue
  unfolding pointer_value
  eval_pointer context op children current = do
    path ← text_of f op children current "path" "pointer path is not a string"
    root ← field_of f op children current "root"
    start ← root_of context (as_str root.json)
    pointer_value start path

  unfoldable pub eval_iteration_pointer : String → Children → Current → Outcome EvalValue
  unfolding current_pointer
  eval_iteration_pointer op children current = do
    path ← text_of f op children current "path" "iteration pointer path is not a string"
    scope ← text_of f op children current "scope" "iteration pointer scope is not a string"
    current_pointer current scope path

  unfoldable pub eval_literal : String → Children → Current → Outcome EvalValue
  eval_literal op children current = do
    value ← field_of f op children current "value"
    gives (owned value.json)

  -- `match handler`
  unfoldable pub dispatch :
      EvalContext → RefinementHandler → String → Children → Current → Outcome EvalValue
  unfolding eval_pointer eval_iteration_pointer eval_literal eval_array_length eval_array_at eval_eq
      eval_order eval_multiply eval_not eval_normalize_ref eval_prefixed_identity eval_finite_range
      eval_safe_integer_range eval_length eval_tuple_tags eval_bool eval_coalesce eval_concat
      eval_max eval_map_lookup eval_set_contains eval_unique_by eval_ordered eval_for_each eval_rank
      f64_eq
  dispatch context RefinementHandler.pointer op cs cur = eval_pointer context op cs cur
  dispatch context RefinementHandler.literal op cs cur = eval_literal op cs cur
  dispatch context RefinementHandler.iteration_pointer op cs cur = eval_iteration_pointer op cs cur
  dispatch context RefinementHandler.array_length op cs cur = eval_array_length f op cs cur
  dispatch context RefinementHandler.array_at op cs cur = eval_array_at f op cs cur
  dispatch context RefinementHandler.all op cs cur = eval_bool f op cs cur false
  dispatch context RefinementHandler.any op cs cur = eval_bool f op cs cur true
  dispatch context RefinementHandler.coalesce op cs cur = eval_coalesce f op cs cur
  dispatch context RefinementHandler.concat op cs cur = eval_concat f op cs cur
  dispatch context RefinementHandler.eq op cs cur = eval_eq f op cs cur "left" "right"
  dispatch context RefinementHandler.lt op cs cur = eval_order f op cs cur f.lt
  dispatch context RefinementHandler.lte op cs cur = eval_order f op cs cur f.le
  dispatch context RefinementHandler.multiply op cs cur = eval_multiply f op cs cur
  dispatch context RefinementHandler.max op cs cur = eval_max f op cs cur
  dispatch context RefinementHandler.not op cs cur = eval_not f op cs cur
  dispatch context RefinementHandler.normalize_ref op cs cur =
      eval_normalize_ref f op cs cur context.normalizer
  dispatch context RefinementHandler.map_lookup op cs cur = eval_map_lookup f op cs cur
  dispatch context RefinementHandler.set_contains op cs cur = eval_set_contains f op cs cur
  dispatch context RefinementHandler.field_eq_ref op cs cur = eval_eq f op cs cur "value" "expected"
  dispatch context RefinementHandler.finite_range op cs cur = eval_finite_range f op cs cur
  dispatch context RefinementHandler.safe_integer_range op cs cur =
      eval_safe_integer_range f op cs cur
  dispatch context RefinementHandler.tuple_tags op cs cur = eval_tuple_tags f op cs cur
  dispatch context RefinementHandler.length_eq op cs cur = eval_length f op cs cur "expected" f64_eq
  dispatch context RefinementHandler.length_lte_ref op cs cur = eval_length f op cs cur "limit" f.le
  dispatch context RefinementHandler.unique_by op cs cur = eval_unique_by f op cs cur
  dispatch context RefinementHandler.ordered_score_desc_id_asc op cs cur = eval_ordered f op cs cur
  dispatch context RefinementHandler.for_each op cs cur = eval_for_each f op cs cur
  dispatch context RefinementHandler.rank_is_index_plus_one op cs cur = eval_rank f op cs cur
  dispatch context RefinementHandler.prefixed_identity op cs cur =
      eval_prefixed_identity f op cs cur
  dispatch context RefinementHandler.corpus_eq_ref op cs cur =
      eval_eq f op cs cur "corpus" "expected"

  abbrev pub op_of : Fields → Outcome String
  op_of fields =
      or_fail (elim (get "op" fields) [ none ↦ none | some v ↦ as_str v ])
        "refinement expression op is missing"

  unfoldable pub eval_fields : EvalContext → Fields → Children → Current → Outcome EvalValue
  unfolding dispatch refinement_handler
  eval_fields context fields children current = do
    op ← op_of fields
    handler ← or_fail (refinement_handler op) ("unsupported refinement opcode " ++ op)
    dispatch context handler op children current

  module _ (context : EvalContext) where
    unfoldable mutual
      unfolding eval_fields

      pub eval : Json → Run
      eval (object fields) = eval_fields context fields (eval_children fields)
      eval _ = λ current. fails "refinement expression must be an object"

      pub eval_children : Fields → Children
      eval_children end = []
      eval_children (field key value rest) =
          (key, record { json = value; run = eval value; items = eval_items value })
          ∷ eval_children rest

      pub eval_items : Json → List Run
      eval_items (array xs) = eval_each xs
      eval_items _ = []

      pub eval_each : Items → List Run
      eval_each nil = []
      eval_each (cons x xs) = eval x ∷ eval_each xs
