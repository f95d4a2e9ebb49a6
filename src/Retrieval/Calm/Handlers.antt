-- ===== src/Retrieval/Calm/Handlers.antt =====
-- The opcodes whose fields never panic: neither do they.
use Prim.Native.String.{◌++◌}
use aira_graphdb.Base.{ℕ, String, Bool, ◌≡◌, Option, none, some, List, [], All}
use aira_graphdb.Retrieval.Json.{Json, as_str, as_array}
use aira_graphdb.Retrieval.Pointer.{
  Outcome, gives, ◌>>=◌, or_fail, EvalValue, ref, refs, owned, Current, array_value, array_values,
}
use aira_graphdb.Retrieval.Values.{
  Floats, Run, Child, Children, find_child, field_of, value_of, text_of, runs_of, list_length,
  number_field, as_f64, neg_infinity, eval_array_length, eval_array_at, eval_eq, eval_order,
  eval_multiply, eval_not, eval_normalize_ref, eval_prefixed_identity, eval_finite_range,
  eval_safe_integer_range, eval_length, eval_tuple_tags,
}
use aira_graphdb.Retrieval.Loops.{
  items_of, bool_loop, coalesce_loop, concat_loop, max_loop, eval_bool, eval_coalesce, eval_concat,
  eval_max, eval_map_lookup, eval_set_contains, eval_unique_by, eval_ordered, eval_for_each,
  eval_rank,
}
use aira_graphdb.Retrieval.Calm.{IsCalm, IsCalmRun, IsCalmChild, calm_rules}
use aira_graphdb.Retrieval.Calm.Iterated.{
  number_calm, bool_value_calm, string_value_calm, bool_loop_calm, coalesce_loop_calm,
  concat_loop_calm, max_loop_calm, lookup_loop_calm, contains_loop_calm, unique_loop_calm,
  ordered_loop_calm, for_each_loop_calm, rank_loop_calm,
}

module _ (f : Floats) (op : String) (children : Children) (current : Current)
    (calm : (name : String) (child : Child)
      → find_child name children ≡ some child
      → IsCalmChild child) where
  found :
      {A : Type 0} (o : Option Child) (message : String) (k : Child → Outcome A)
      → ((child : Child) → o ≡ some child → IsCalmChild child)
      → ((child : Child) → IsCalmChild child → IsCalm (k child))
      → IsCalm (or_fail o message >>= k)
  found (some child) message k is_calm p = p child (is_calm child (λ i. some child))
  found none message k is_calm p = search calm_rules

  field_calm :
      {A : Type 0} (name : String) (k : Child → Outcome A)
      → ((child : Child) → IsCalmChild child → IsCalm (k child))
      → IsCalm (field_of f op children current name >>= k)
  field_calm name k p = found (find_child name children) _ k (calm name) p

  text_calm : (name message : String) → IsCalm (text_of f op children current name message)
  text_calm name message =
      field_calm name (λ child. or_fail (as_str child.json) message) (λ child p. search calm_rules)

  value_calm : (name : String) → IsCalm (value_of f op children current name)
  value_calm name = field_calm name (λ child. child.run current) (λ child p. p.itself.on current)

  runs_calm :
      (name message : String) (k : List Run → Outcome EvalValue)
      → ((runs : List Run) → All IsCalmRun runs → IsCalm (k runs))
      → IsCalm (runs_of f op children current name message >>= k)
  runs_calm name message k p = among (find_child name children) (calm name)
    where
      listed :
          (o : Option (List Json)) (child : Child)
          → IsCalmChild child
          → IsCalm (or_fail o message >>= (λ xs. gives child.items) >>= k)
      listed (some xs) child ok = p child.items ok.each
      listed none child ok = search calm_rules

      among :
          (o : Option Child)
          → ((child : Child) → o ≡ some child → IsCalmChild child)
          → IsCalm (
              or_fail o ("refinement opcode " ++ (op ++ (" field " ++ (name ++ " is missing"))))
              >>= (λ (child : Child).
                  or_fail (as_array child.json) message >>= λ xs. gives child.items)
              >>= k)
      among (some child) is_calm =
          listed (as_array child.json) child (is_calm child (λ i. some child))
      among none is_calm = search calm_rules

  items_calm :
      (label message scope_message : String) (k : String → List Json → Outcome EvalValue)
      → ((scope : String) (items : List Json) → IsCalm (k scope items))
      → IsCalm (items_of f op children current label message scope_message k)
  items_calm label message scope_message k p =
      search (value_calm, p, text_calm, calm_rules) depth 12

  array_value_calm :
      (value : EvalValue) (label message : String) → IsCalm (array_value value label message)
  array_value_calm value label message = search calm_rules

  array_values_calm : (value : EvalValue) (label : String) → IsCalm (array_values value label)
  array_values_calm (ref v) label = search calm_rules
  array_values_calm (refs vs) label = search calm_rules
  array_values_calm (owned v) label = search calm_rules

  length_calm : (value : EvalValue) → IsCalm (list_length f op children current value)
  length_calm (refs vs) = search calm_rules
  length_calm (ref v) = search calm_rules
  length_calm (owned v) = search calm_rules

  number_field_calm :
      (name message : String) → IsCalm (number_field f op children current name message)
  number_field_calm name message =
      field_calm name (λ child. or_fail (as_f64 f op children current child.json) message)
        λ child p. search calm_rules

  listed_calm : (name : String) → IsCalm (field_of f op children current name)
  listed_calm name = search calm_rules

  pub eval_array_length_calm : IsCalm (eval_array_length f op children current)
  unfolding eval_array_length
  eval_array_length_calm = search (value_calm, length_calm, calm_rules) depth 14

  pub eval_array_at_calm : IsCalm (eval_array_at f op children current)
  unfolding eval_array_at
  eval_array_at_calm = search (value_calm, number_calm, array_values_calm, calm_rules) depth 14

  pub eval_eq_calm : (left right : String) → IsCalm (eval_eq f op children current left right)
  unfolding eval_eq
  eval_eq_calm left right = search (value_calm, calm_rules) depth 14

  pub eval_order_calm : (below : ℕ → ℕ → Bool) → IsCalm (eval_order f op children current below)
  unfolding eval_order
  eval_order_calm below = search (value_calm, number_calm, calm_rules) depth 14

  pub eval_multiply_calm : IsCalm (eval_multiply f op children current)
  unfolding eval_multiply
  eval_multiply_calm = search (value_calm, number_calm, calm_rules) depth 14

  pub eval_not_calm : IsCalm (eval_not f op children current)
  unfolding eval_not
  eval_not_calm = search (value_calm, bool_value_calm, calm_rules) depth 14

  pub eval_normalize_ref_calm :
      (normalizer : String → String → Option String)
      → IsCalm (eval_normalize_ref f op children current normalizer)
  unfolding eval_normalize_ref
  eval_normalize_ref_calm normalizer =
      search (value_calm, text_calm, string_value_calm, calm_rules) depth 14

  pub eval_prefixed_identity_calm : IsCalm (eval_prefixed_identity f op children current)
  unfolding eval_prefixed_identity
  eval_prefixed_identity_calm =
      search (value_calm, text_calm, string_value_calm, calm_rules) depth 14

  pub eval_finite_range_calm : IsCalm (eval_finite_range f op children current)
  unfolding eval_finite_range
  eval_finite_range_calm = search (value_calm, number_field_calm, calm_rules) depth 14

  pub eval_safe_integer_range_calm : IsCalm (eval_safe_integer_range f op children current)
  unfolding eval_safe_integer_range
  eval_safe_integer_range_calm =
      search (value_calm, number_calm, number_field_calm, calm_rules) depth 14

  pub eval_length_calm :
      (expected_name : String) (test : ℕ → ℕ → Bool)
      → IsCalm (eval_length f op children current expected_name test)
  unfolding eval_length
  eval_length_calm expected_name test =
      search (value_calm, number_calm, array_value_calm, calm_rules) depth 14

  pub eval_tuple_tags_calm : IsCalm (eval_tuple_tags f op children current)
  unfolding eval_tuple_tags
  eval_tuple_tags_calm =
      search (value_calm, text_calm, array_value_calm, listed_calm, calm_rules) depth 14

  pub eval_map_lookup_calm : IsCalm (eval_map_lookup f op children current)
  unfolding eval_map_lookup
  eval_map_lookup_calm =
      search
        (
          value_calm,
          text_calm,
          array_values_calm,
          lookup_loop_calm f op children current,
          calm_rules,
        )
        depth 14

  pub eval_set_contains_calm : IsCalm (eval_set_contains f op children current)
  unfolding eval_set_contains
  eval_set_contains_calm =
      search (value_calm, array_values_calm, contains_loop_calm f op children current, calm_rules)
        depth 14

  pub eval_bool_calm : (stop : Bool) → IsCalm (eval_bool f op children current stop)
  unfolding eval_bool
  eval_bool_calm stop =
      runs_calm "values" _ (bool_loop f op children current stop)
        (bool_loop_calm f op children current stop)

  pub eval_coalesce_calm : IsCalm (eval_coalesce f op children current)
  unfolding eval_coalesce
  eval_coalesce_calm =
      runs_calm "values" _ (coalesce_loop f op children current)
        (coalesce_loop_calm f op children current)

  pub eval_concat_calm : IsCalm (eval_concat f op children current)
  unfolding eval_concat
  eval_concat_calm =
      runs_calm "values" _ (concat_loop f op children current "")
        (concat_loop_calm f op children current "")

  pub eval_max_calm : IsCalm (eval_max f op children current)
  unfolding eval_max
  eval_max_calm =
      runs_calm "values" _ (max_loop f op children current neg_infinity)
        (max_loop_calm f op children current neg_infinity)

  pub eval_unique_by_calm : IsCalm (eval_unique_by f op children current)
  unfolding eval_unique_by
  eval_unique_by_calm = items_calm _ _ _ _ λ scope items.
      field_calm "key" _
        λ key p. unique_loop_calm f op children current key.run scope [] items p.itself

  pub eval_ordered_calm : IsCalm (eval_ordered f op children current)
  unfolding eval_ordered
  eval_ordered_calm = items_calm _ _ _ _ λ scope items. field_calm "score" _ λ score p.
      field_calm "id" _ λ id q.
        ordered_loop_calm f op children current score.run id.run scope none items p.itself q.itself

  pub eval_for_each_calm : IsCalm (eval_for_each f op children current)
  unfolding eval_for_each
  eval_for_each_calm = items_calm _ _ _ _ λ scope items.
      field_calm "predicate" _
        λ predicate p. for_each_loop_calm f op children current predicate.run scope items p.itself

  pub eval_rank_calm : IsCalm (eval_rank f op children current)
  unfolding eval_rank
  eval_rank_calm = items_calm _ _ _ _ λ scope items.
      field_calm "rank" _
        λ rank p. rank_loop_calm f op children current rank.run scope 0 items p.itself

pub ruleset handler_rules = (
  eval_array_length_calm, eval_array_at_calm, eval_eq_calm, eval_order_calm, eval_multiply_calm,
  eval_not_calm, eval_normalize_ref_calm, eval_prefixed_identity_calm, eval_finite_range_calm,
  eval_safe_integer_range_calm, eval_length_calm, eval_tuple_tags_calm, eval_map_lookup_calm,
  eval_set_contains_calm, eval_bool_calm, eval_coalesce_calm, eval_concat_calm, eval_max_calm,
  eval_unique_by_calm, eval_ordered_calm, eval_for_each_calm, eval_rank_calm,
)
