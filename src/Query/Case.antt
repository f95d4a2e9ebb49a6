-- ===== src/Query/Case.antt =====
-- `RETURN CASE WHEN a = b THEN x ELSE y END`. Where two of the keywords share a space, a slice ends
-- before it begins, and the code panics.
use aira_graphdb.Base.{
  ℕ, ◌+◌, ◌-◌, String, Bool, ◌||◌, Option, none, some, [], ◌∷◌, leb, if◌then◌else◌,
}
use aira_graphdb.Errors.{Result, ok, err}
use aira_graphdb.Graph.{Value, value_eq}
use aira_graphdb.Str.{take, drop, find, rfind, trim, strip_prefix, split_once, trim_start_matches}
use aira_graphdb.Query.{
  F64, QueryResult, Outcome, returns, panics, ◌>>=◌, syntax_error, unsupported_in, or_error,
}
use aira_graphdb.Query.Literals.{parse_value}

-- `&s[from..to]`, with `none` where it panics
abbrev pub slice : String → ℕ → ℕ → Option String
slice s from to = if leb from to then some (take (to - from) (drop from s)) else none

unfoldable pub evaluate_case_condition : F64 → String → Result Bool
unfolding split_once trim parse_value value_eq
evaluate_case_condition f condition = do
  let parts = split_once b'=' condition
  right ← or_error (syntax_error "CASE condition must be equality") parts.1
  left_value ← parse_value f (trim parts.0)
  right_value ← parse_value f (trim right)
  ok (value_eq left_value right_value)

abbrev one_case : Value → QueryResult
one_case value = QueryResult.table ("case" ∷ []) ((value ∷ []) ∷ [])

-- The value of the branch that the condition chooses.
unfoldable pub case_value : F64 → String → String → String → Result QueryResult
unfolding evaluate_case_condition parse_value trim
case_value f condition then_expr else_expr = do
  condition_true ← evaluate_case_condition f (trim condition)
  value ← parse_value f (trim (if condition_true then then_expr else else_expr))
  ok (one_case value)

-- The places of the keywords, which stand in their order.
pub record CasePlaces : Type 0 where
  pub then_idx : ℕ
  pub else_idx : ℕ
  pub end_idx : ℕ

unfoldable pub case_places : String → Result CasePlaces
unfolding find rfind
case_places case_expr = do
  then_idx ← or_error (syntax_error "CASE requires THEN") (find case_expr " THEN ")
  else_idx ← or_error (syntax_error "CASE requires ELSE") (find case_expr " ELSE ")
  end_idx ← or_error (syntax_error "CASE requires END") (rfind case_expr " END")
  if leb else_idx then_idx || leb end_idx else_idx
      then err (syntax_error "invalid CASE expression order")
      else ok (record { then_idx = then_idx; else_idx = else_idx; end_idx = end_idx })

abbrev pub returned_or_panic : F64 → String → Option String → Option String → Outcome QueryResult
returned_or_panic f condition (some then_expr) (some else_expr) =
    returns (case_value f condition then_expr else_expr)
returned_or_panic f condition _ _ = panics

unfoldable pub cut_case : F64 → String → CasePlaces → Outcome QueryResult
unfolding take drop case_value
cut_case f case_expr p =
    returned_or_panic f (take p.then_idx case_expr) (slice case_expr (p.then_idx + 6) p.else_idx)
      (slice case_expr (p.else_idx + 6) p.end_idx)

unfoldable pub execute_case_expression : F64 → String → Outcome QueryResult
unfolding strip_prefix case_places cut_case
execute_case_expression f case_expr = elim (strip_prefix case_expr "WHEN ") [
  | none ↦ returns (err (syntax_error "CASE requires WHEN"))
  | some rest ↦ elim (case_places rest) [
    | err e ↦ returns (err e)
    | ok places ↦ cut_case f rest places
  ]
]

unfoldable pub execute_return_expression : F64 → String → Outcome QueryResult
unfolding trim_start_matches trim strip_prefix execute_case_expression
execute_return_expression f query =
    elim (strip_prefix (trim (trim_start_matches query "RETURN ")) "CASE ") [
      | none ↦ returns (err (unsupported_in "RETURN" "unsupported RETURN expression"))
      | some case_expr ↦ execute_case_expression f case_expr
    ]
