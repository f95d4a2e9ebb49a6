-- ===== src/Query/Unwind.antt =====
-- `UNWIND [1,2,3] AS x RETURN …`: a list, counted, gathered, aggregated or given row by row.
use Prim.Native.String.{◌++◌}
use aira_graphdb.Base.{ℕ, ◌+◌, String, List, [], ◌∷◌, map, ◌==◌, string_eq, length, if◌then◌else◌}
use aira_graphdb.Errors.{Result, ok, err}
use aira_graphdb.Graph.{Value, pos}
use aira_graphdb.Str.{take, drop, find, strip_prefix, trim}
use aira_graphdb.Query.{F64, QueryResult, ◌>>=◌, unsupported, unsupported_in, or_error}
use aira_graphdb.Query.Literals.{parse_list_values}

abbrev pub value_as_f64 : F64 → Value → Result ℕ
value_as_f64 f (Value.int64 v) = ok (f.from_i64 v)
value_as_f64 f (Value.float64 v) = ok v
value_as_f64 f _ = err (unsupported_in "UNWIND" "aggregation requires numeric values")

unfoldable pub numbers : F64 → List Value → Result (List ℕ)
numbers f [] = ok []
numbers f (v ∷ vs) = let rest = numbers f vs in (do n ← value_as_f64 f v; ns ← rest; ok (n ∷ ns))

-- The fold of `min` or `max`.
abbrev pub fold_numbers : (ℕ → ℕ → ℕ) → ℕ → List ℕ → ℕ
fold_numbers g acc [] = acc
fold_numbers g acc (n ∷ ns) = fold_numbers g (g acc n) ns

abbrev average : F64 → List ℕ → ℕ
average f [] = 0
average f (n ∷ ns) = f.div (f.sum (n ∷ ns)) (f.from_i64 (pos (length (n ∷ ns))))

abbrev finite_or_zero : F64 → ℕ → ℕ
finite_or_zero f n = if f.is_finite n then n else 0

abbrev call : String → String → String
call name variable = name ++ ("(" ++ (variable ++ ")"))

-- A table of one row.
abbrev pub one_row : String → List Value → QueryResult
one_row column values = QueryResult.table (column ∷ []) (values ∷ [])

abbrev pub single : Value → List Value
single v = v ∷ []

-- The projections of numbers, and the variable itself.
unfoldable pub project_numbers : F64 → String → String → List Value → List ℕ → Result QueryResult
project_numbers f variable projection values numeric =
    if projection == call "sum" variable
    then ok (one_row "sum" (single (Value.float64 (f.sum numeric))))
    else if projection == call "avg" variable
    then ok (one_row "avg" (single (Value.float64 (average f numeric))))
    else if projection == call "min" variable
    then ok (
        one_row "min" (
          single
            (Value.float64 (finite_or_zero f (fold_numbers f.min 0x7FF0000000000000 numeric)))))
    else if projection == call "max" variable
    then ok (
        one_row "max" (
          single
            (Value.float64 (finite_or_zero f (fold_numbers f.max 0xFFF0000000000000 numeric)))))
    else if projection == variable
    then ok (QueryResult.table (variable ∷ []) (map single values))
    else err (unsupported_in "UNWIND" "unsupported UNWIND projection")

unfoldable pub project : F64 → String → String → List Value → Result QueryResult
unfolding numbers project_numbers
project f variable projection values =
    if projection == call "count" variable
    then ok (one_row "count" (single (Value.int64 (pos (length values)))))
    else if projection == call "collect" variable
    then ok (one_row "collect" values)
    else (do numeric ← numbers f values; project_numbers f variable projection values numeric)

unfoldable pub execute_unwind : F64 → String → Result QueryResult
unfolding trim strip_prefix find take drop parse_list_values project
execute_unwind f query = do
  content ← or_error (unsupported "unsupported UNWIND form") (strip_prefix (trim query) "UNWIND ")
  as_idx ← or_error (unsupported "UNWIND requires AS variable") (find content " AS ")
  let list_part = trim (take as_idx content)
  let rest = trim (drop (as_idx + 4) content)
  return_idx ← or_error (unsupported "UNWIND requires RETURN") (find rest " RETURN ")
  values ← parse_list_values f list_part
  project f (trim (take return_idx rest)) (trim (drop (return_idx + 8) rest)) values
