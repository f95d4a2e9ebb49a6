-- ===== src/Retrieval/Staged.antt =====
-- An expression that has no pointer into the result has the same value before there is a result and
-- afterwards: so the assertions on a request, which are evaluated on the request alone, hold of the
-- exchange too.
use Prim.Native.String.{◌++◌}
use aira_graphdb.Base.{
  or_false, ℕ, suc, any, String, Bool, true, false, ◌||◌, ◌≡◌, ◌==◌, string_eq, Option, none, some,
  List, [], ◌∷◌, Bool-cases, inl, inr, refl, sym, ap, ◌∙◌, eq_iff, if◌then◌else◌,
}
use aira_graphdb.Base.Checked.{some_injective}
use aira_graphdb.Retrieval.Json.{
  Json, null, bool, number, string, array, object, Items, nil, cons, Fields, end, field, get,
  as_str,
}
use aira_graphdb.Retrieval.Opcode.{RefinementHandler, refinement_handler}
use aira_graphdb.Retrieval.Pointer.{gives, ◌>>=◌, or_fail, pointer_value, bool_value}
use aira_graphdb.Retrieval.Values.{Floats, Child, Children, find_child, text_of}
use aira_graphdb.Retrieval.Admit.{failed_from, first_failed_assertion, evaluate_assertions, verdict}
use aira_graphdb.Retrieval.Eval.{
  Normalizer, EvalContext, root_of, dispatch, op_of, eval_fields, eval, eval_children, eval_items,
  eval_each,
}

abbrev is_text : String → Option Json → Bool
is_text s (some (string t)) = t == s
is_text s _ = false

-- A pointer into the result, or an object that has one
unfoldable mutual
  pub mentions_result : Json → Bool
  mentions_result (object fs) = is_text "result" (get "root" fs) || mentions_in fs
  mentions_result (array xs) = mentions_items xs
  mentions_result _ = false

  pub mentions_in : Fields → Bool
  mentions_in end = false
  mentions_in (field key value rest) = mentions_result value || mentions_in rest

  pub mentions_items : Items → Bool
  mentions_items nil = false
  mentions_items (cons x xs) = mentions_result x || mentions_items xs

not_both :
    (o : Option Json) (j : Json)
    → o ≡ some j
    → as_str j ≡ some "result"
    → is_text "result" o ≡ false
    → ⊥
not_both none j found text h = cc
not_both (some (string t)) j found text h =
    let is_string : string t ≡ j = some_injective found in
    let is_result : t ≡ "result" = some_injective (ap as_str is_string ∙ text) in
    let both : true ≡ false = sym ((eq_iff t "result").1 is_result) ∙ h in cc
not_both (some null) j found text h = cc (ap as_str (some_injective found))
not_both (some (bool b)) j found text h = cc (ap as_str (some_injective found))
not_both (some (number n)) j found text h = cc (ap as_str (some_injective found))
not_both (some (array xs)) j found text h = cc (ap as_str (some_injective found))
not_both (some (object fs)) j found text h = cc (ap as_str (some_injective found))

module _ (f : Floats) (request : Json) (normalizer : Normalizer) where
  abbrev with_result : Option Json → EvalContext
  with_result result = record { request = request; result = result; normalizer = normalizer }

  -- The document under a name among the children is the one in the object.
  find_child-children :
      (c : EvalContext) (name : String) (fs : Fields) (child : Child)
      → find_child name (eval_children f c fs) ≡ some child
      → get name fs ≡ some child.json
  unfolding eval
  find_child-children c name end child h = absurd cc
  find_child-children c name (field key value rest) child h = elim (Bool-cases (key == name)) [
    | inl same ↦
        let found = rw same at h in
        rw same (ap some (ap (λ (k : Child). k.json) (some_injective found)))
    | inr other ↦
        let found = rw other at h in rw other (find_child-children c name rest child found)
  ]

  root_same :
      (r s : Option Json) (t : Option String)
      → (t ≡ some "result" → ⊥)
      → root_of (with_result r) t ≡ root_of (with_result s) t
  root_same r s none h = refl
  root_same r s (some t) h = elim (Bool-cases (t == "result")) [
    | inl same ↦ absurd (h (ap some ((eq_iff t "result").0 same)))
    | inr other ↦ rw other refl
  ]

  pointer_same :
      (r s : Option Json) (o : Option Child) (message path : String)
      → ((child : Child) → o ≡ some child → as_str child.json ≡ some "result" → ⊥)
      → (or_fail o message >>= λ root.
          root_of (with_result r) (as_str root.json) >>= λ start. pointer_value start path)
        ≡ (or_fail o message >>= λ root.
            root_of (with_result s) (as_str root.json) >>= λ start. pointer_value start path)
  pointer_same r s none message path h = refl
  pointer_same r s (some child) message path h =
      ap (λ o. o >>= λ start. pointer_value start path)
        (root_same r s (as_str child.json) (h child refl))

  dispatch_same :
      (r s : Option Json) (handler : RefinementHandler) (op : String) (children : Children)
      → ((child : Child)
          → find_child "root" children ≡ some child
          → as_str child.json ≡ some "result"
          → ⊥)
      → dispatch f (with_result r) handler op children
        ≡ dispatch f (with_result s) handler op children
  unfolding dispatch
  dispatch_same r s RefinementHandler.pointer op children h = λ i cur.
      text_of f op children cur "path" "pointer path is not a string" >>= λ path.
      pointer_same r s (find_child "root" children)
        ("refinement opcode " ++ (op ++ (" field " ++ ("root" ++ " is missing")))) path h i
  dispatch_same r s RefinementHandler.eq op children h = refl
  dispatch_same r s handler op children h = refl

  fields_same :
      (r s : Option Json) (fs : Fields)
      → is_text "result" (get "root" fs) ≡ false
      → eval_fields f (with_result r) fs (eval_children f (with_result s) fs)
        ≡ eval_fields f (with_result s) fs (eval_children f (with_result s) fs)
  unfolding eval_fields
  fields_same r s fs h = λ i current. op_of f fs >>= λ op.
      or_fail (refinement_handler op) ("unsupported refinement opcode " ++ op) >>= λ handler.
      dispatch_same r s handler op (eval_children f (with_result s) fs)
        (λ child found text.
          not_both (get "root" fs) child.json
            (find_child-children (with_result s) "root" fs child found) text h)
        i current

  mutual
    unfolding eval mentions_result

    eval_same :
        (r s : Option Json) (e : Json)
        → mentions_result e ≡ false
        → eval f (with_result r) e ≡ eval f (with_result s) e
    eval_same r s (object fs) h =
        let (here, there) = or_false _ _ h in
        (λ i. eval_fields f (with_result r) fs (eval_children_same r s fs there i))
        ∙ fields_same r s fs here
    eval_same r s (array xs) h = refl
    eval_same r s null h = refl
    eval_same r s (bool b) h = refl
    eval_same r s (number n) h = refl
    eval_same r s (string t) h = refl

    eval_children_same :
        (r s : Option Json) (fs : Fields)
        → mentions_in fs ≡ false
        → eval_children f (with_result r) fs ≡ eval_children f (with_result s) fs
    eval_children_same r s end h = refl
    eval_children_same r s (field key value rest) h =
        let (here, there) = or_false _ _ h in
        λ i.
          (
            key,
            record {
              json = value;
              run = eval_same r s value here i;
              items = eval_items_same r s value here i;
            },
          )
          ∷ eval_children_same r s rest there i

    eval_items_same :
        (r s : Option Json) (v : Json)
        → mentions_result v ≡ false
        → eval_items f (with_result r) v ≡ eval_items f (with_result s) v
    eval_items_same r s (array xs) h = eval_each_same r s xs h
    eval_items_same r s (object fs) h = refl
    eval_items_same r s null h = refl
    eval_items_same r s (bool b) h = refl
    eval_items_same r s (number n) h = refl
    eval_items_same r s (string t) h = refl

    eval_each_same :
        (r s : Option Json) (xs : Items)
        → mentions_items xs ≡ false
        → eval_each f (with_result r) xs ≡ eval_each f (with_result s) xs
    eval_each_same r s nil h = refl
    eval_each_same r s (cons x xs) h =
        let (here, there) = or_false _ _ h in
        λ i. eval_same r s x here i ∷ eval_each_same r s xs there i

  -- Assertions that have no field `root` with the text `result` give the same verdict with any
  -- result and with none.
  pub evaluate_assertions_staged :
      (r s : Option Json) (assertions : List Json)
      → any mentions_result assertions ≡ false
      → evaluate_assertions f assertions (with_result r)
        ≡ evaluate_assertions f assertions (with_result s)
  unfolding evaluate_assertions first_failed_assertion
  evaluate_assertions_staged r s assertions h = λ i. failed_from_same 0 assertions h i >>= verdict f
    where
      failed_from_same :
          (index : ℕ) (assertions : List Json)
          → any mentions_result assertions ≡ false
          → failed_from f (with_result r) index assertions
            ≡ failed_from f (with_result s) index assertions
      failed_from_same index [] h = unfold failed_from in refl
      failed_from_same index (assertion ∷ rest) h =
          let (here, there) = or_false _ _ h in
          let later = failed_from_same (suc index) rest there in
          unfold failed_from in
          λ i. eval_same r s assertion here i none >>= λ value.
          bool_value value "assertion" >>= λ holds. if holds then later i else gives (some index)
