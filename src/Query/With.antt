-- ===== src/Query/With.antt =====
-- `WITH n AS x RETURN x …`, which is rewritten to `RETURN n …`.
use Prim.Native.String.{◌++◌}
use aira_graphdb.Base.{◌+◌, String, not, ◌&&◌, ◌||◌, none, some, ◌==◌, string_eq, if◌then◌else◌}
use aira_graphdb.Errors.{Result, ok, err}
use aira_graphdb.Str.{length, take, drop, find, starts_with, trim, is_empty}
use aira_graphdb.Query.{◌>>=◌, syntax_error, unsupported, unsupported_in, or_error}

-- `replacen(from, to, 1)`
unfoldable pub replace_first : String → String → String → String
unfolding find take drop length
replace_first s from to = elim (find s from) [
  | none ↦ s
  | some idx ↦ take idx s ++ (to ++ drop (idx + length from) s)
]

-- The source and the alias of a projection.
unfoldable pub parse_with_projection : String → Result (String × String)
unfolding find take drop trim
parse_with_projection projection = elim (find projection " AS ") [
  | some as_idx ↦
      (let source = trim (take as_idx projection) in
        let alias = trim (drop (as_idx + 4) projection) in
        if is_empty source || is_empty alias
        then err (syntax_error "invalid WITH alias syntax")
        else ok (source, alias))
  | none ↦
      if is_empty projection
      then err (syntax_error "WITH projection is empty")
      else ok (projection, projection)
]

-- The checks of the scope, and the expression over `n`.
unfoldable pub rewrite_return : String → String → String → Result String
unfolding starts_with replace_first
rewrite_return source_var projected_var return_expr =
    if not (source_var == "n")
    then err (unsupported_in "WITH" "WITH source variable out of scope")
    else if (return_expr == source_var) && not (projected_var == source_var)
    then err (unsupported_in "WITH" "WITH alias scope violation")
    else if starts_with return_expr projected_var
    then ok (replace_first return_expr projected_var "n")
    else err (unsupported_in "WITH" "RETURN expression not available in WITH scope")

unfoldable pub normalize_with_query : String → Result String
unfolding find take drop trim parse_with_projection rewrite_return
normalize_with_query query = do
  with_idx ← or_error (unsupported "WITH clause missing") (find query " WITH ")
  let left = trim (take with_idx query)
  let right = trim (drop (with_idx + 6) query)
  return_idx ← or_error (unsupported "WITH requires RETURN") (find right " RETURN ")
  (source_var, projected_var) ← parse_with_projection (trim (take return_idx right))
  rewritten ← rewrite_return source_var projected_var (trim (drop (return_idx + 8) right))
  ok (left ++ (" RETURN " ++ rewritten))
