-- ===== src/Retrieval/Calm/Dispatch.antt =====
-- `match handler` of `eval`: no opcode panics whose fields do not, given a valid path where it has one.
use Prim.Native.String.{◌++◌}
use aira_graphdb.Base.{
  and_right, String, Bool, true, false, not, ◌||◌, ◌&&◌, ◌≡◌, ◌==◌, string_eq, Option, none, some,
  List, [], ◌∷◌, all, Bool-cases, inl, inr, refl, sym, ap, ◌∙◌, arith, eq_iff,
}
use mathlib.Core.Path.{subst}
use aira_graphdb.Base.Checked.{some_injective, valid}
use aira_graphdb.Retrieval.Json.{Json, as_str}
use aira_graphdb.Retrieval.Opcode.{RefinementHandler, inventory, find, refinement_handler}
use aira_graphdb.Retrieval.Pointer.{
  Outcome, ◌>>=◌, or_fail, EvalValue, Current, pointer_value, current_pointer,
  validate_json_pointer,
}
use aira_graphdb.Retrieval.Paths.{pointer_value_calm}
use aira_graphdb.Retrieval.Values.{Floats, Child, Children, find_child, text_of}
use aira_graphdb.Retrieval.Eval.{
  EvalContext, root_of, eval_pointer, eval_iteration_pointer, eval_literal, dispatch,
}
use aira_graphdb.Retrieval.Calm.{IsCalm, IsCalmChild, IsCalm-fails, calm_rules}
use aira_graphdb.Retrieval.Calm.Handlers.{handler_rules}

-- The handlers that follow a path
abbrev pub follows_path : RefinementHandler → Bool
follows_path RefinementHandler.pointer = true
follows_path RefinementHandler.iteration_pointer = true
follows_path _ = false

abbrev pub names_path : String → Bool
names_path op = op == "pointer" || op == "iteration_pointer"

follows_listed :
    (follows names rest : Bool)
    → ((not follows || names) && rest) ≡ true
    → follows ≡ true
    → names ≡ true
follows_listed follows names rest h p = ground arith

pub follows_path-names :
    (op : String) (handler : RefinementHandler)
    → refinement_handler op ≡ some handler
    → follows_path handler ≡ true
    → names_path op ≡ true
unfolding refinement_handler
follows_path-names op handler h follows = among inventory refl h
  where
    among :
        (entries : List (String × RefinementHandler))
        → all (λ e. not (follows_path e.1) || names_path e.0) entries ≡ true
        → find op entries ≡ some handler
        → names_path op ≡ true
    among [] named h = absurd cc
    among ((name, other) ∷ rest) named h = elim (Bool-cases (op == name)) [
      | inl same ↦
          let is_handler = some_injective (rw same at h) in
          let listed = follows_listed _ _ _ named (ap follows_path is_handler ∙ follows) in
          subst (λ s. names_path s ≡ true) (sym ((eq_iff op name).0 same)) listed
      | inr other_name ↦ among rest (and_right _ _ named) (rw other_name at h)
    ]

abbrev pub child_text : String → Children → Option String
child_text name children = elim (find_child name children) [
  | none ↦ none
  | some child ↦ as_str child.json
]

-- The path among the fields is one that `validate_json_pointer` accepts.
abbrev pub HasPath : Children → Type 0
HasPath children =
    (path : String)
    → child_text "path" children ≡ some path
    → (label : String) × (validate_json_pointer path label ≡ valid tt)

module _ (f : Floats) (context : EvalContext) (op : String) (children : Children)
    (current : Current)
    (calm : (name : String) (child : Child)
      → find_child name children ≡ some child
      → IsCalmChild child) where
  text_found :
      (message : String) (k : String → Outcome EvalValue)
      → ((s : String) → child_text "path" children ≡ some s → IsCalm (k s))
      → IsCalm (text_of f op children current "path" message >>= k)
  text_found message k p = among (find_child "path" children) p
    where
      read :
          (o : Option String)
          → ((s : String) → o ≡ some s → IsCalm (k s))
          → IsCalm (or_fail o message >>= k)
      read (some s) p = p s refl
      read none p = IsCalm-fails _

      among :
          (o : Option Child)
          → ((s : String)
              → (elim o [ none ↦ none | some child ↦ as_str child.json ]) ≡ some s
              → IsCalm (k s))
          → IsCalm (
              or_fail o ("refinement opcode " ++ (op ++ (" field " ++ ("path" ++ " is missing"))))
              >>= (λ (child : Child). or_fail (as_str child.json) message)
              >>= k)
      among (some child) p = read (as_str child.json) p
      among none p = IsCalm-fails _

  followed :
      (root : Json) (path : String)
      → HasPath children
      → child_text "path" children ≡ some path
      → IsCalm (pointer_value root path)
  followed root path paths found =
      let (label, accepted) = paths path found in
      record { at = pointer_value_calm root path label accepted }

  root_calm : (o : Option String) → IsCalm (root_of context o)
  root_calm none = search calm_rules
  root_calm (some root) = search calm_rules depth 8

  eval_pointer_calm : HasPath children → IsCalm (eval_pointer f context op children current)
  unfolding eval_pointer
  eval_pointer_calm paths = text_found _ _ λ path found.
      search (root_calm, calm_rules, λ (start : Json). followed start path paths found) depth 8

  current_calm :
      (cur : Current) (scope path : String)
      → ((root : Json) → IsCalm (pointer_value root path))
      → IsCalm (current_pointer cur scope path)
  unfolding current_pointer
  current_calm none scope path p = search calm_rules
  current_calm (some (current_scope, value)) scope path p = search (p, calm_rules)

  eval_iteration_pointer_calm :
      HasPath children → IsCalm (eval_iteration_pointer f op children current)
  unfolding eval_iteration_pointer
  eval_iteration_pointer_calm paths = text_found _ _ λ path found.
      search
        (
          calm_rules,
          λ (scope : String).
              current_calm current scope path (λ root. followed root path paths found),
        )
        depth 8

  eval_literal_calm : IsCalm (eval_literal f op children current)
  unfolding eval_literal
  eval_literal_calm = search calm_rules

  pub dispatch_calm :
      (handler : RefinementHandler)
      → (follows_path handler ≡ true → HasPath children)
      → IsCalm (dispatch f context handler op children current)
  unfolding dispatch
  dispatch_calm RefinementHandler.pointer paths = eval_pointer_calm (paths refl)
  dispatch_calm RefinementHandler.iteration_pointer paths = eval_iteration_pointer_calm (paths refl)
  dispatch_calm RefinementHandler.literal paths = eval_literal_calm
  dispatch_calm handler paths = search (calm, handler_rules)
