-- ===== src/Query/Literals.antt =====
-- Literals, assignments and the properties of a node pattern.
use aira_graphdb.Base.{
  ℕ, ◌+◌, ◌-◌, String, true, false, ◌&&◌, Option, none, some, List, [], ◌∷◌, leb, if◌then◌else◌,
  string_eq,
}
use aira_graphdb.HashMap
use aira_graphdb.Errors.{Result, ok, err}
use aira_graphdb.Graph.{Value, Properties}
use aira_graphdb.Str.{
  length, take, drop, find, strip_prefix, strip_suffix, strip_char, starts_with, ends_with, trim,
  trim_start_matches, split, equals_upper, is, is_empty,
}
use aira_graphdb.Str.Number.{parse_i64}
use aira_graphdb.Query.{F64, ◌>>=◌, syntax_error, unsupported, or_error}

-- `Some(number)`, or what comes next.
abbrev pub or_else : Option Value → Result Value → Result Value
or_else none next = next
or_else (some v) next = ok v

abbrev pub int_literal : String → Option Value
int_literal raw = elim (parse_i64 raw) [ none ↦ none | some n ↦ some (Value.int64 n) ]

abbrev pub float_literal : F64 → String → Option Value
float_literal f raw = elim (f.parse raw) [ none ↦ none | some n ↦ some (Value.float64 n) ]

unfoldable pub parse_value : F64 → String → Result Value
unfolding strip_char ends_with length take drop equals_upper parse_i64
parse_value f raw =
    if starts_with raw "'" && ends_with b'\'' raw && leb 2 (length raw)
    then ok (Value.string (drop 1 (take (length raw - 1) raw)))
    else if equals_upper raw "TRUE"
    then ok (Value.bool true)
    else if equals_upper raw "FALSE"
    then ok (Value.bool false)
    else or_else (int_literal raw)
        (or_else (float_literal f raw) (err (syntax_error "unsupported literal value")))

-- `inner.split(',').map(parse_value).collect()`
unfoldable pub parse_values : F64 → List String → Result (List Value)
unfolding parse_value trim
parse_values f [] = ok []
parse_values f (part ∷ parts) =
    let rest = parse_values f parts in (do v ← parse_value f (trim part); vs ← rest; ok (v ∷ vs))

-- The text between two characters.
abbrev pub enclosed : ℕ → ℕ → String → Option String
enclosed open_char close_char raw = elim (strip_char open_char raw) [
  | none ↦ none
  | some v ↦ strip_suffix close_char v
]

unfoldable pub parse_list_values : F64 → String → Result (List Value)
unfolding parse_values trim split strip_char strip_suffix
parse_list_values f raw = do
  inner ← or_error (syntax_error "invalid UNWIND list") (enclosed b'[' b']' (trim raw))
  if is_empty (trim inner) then ok [] else parse_values f (split (is b',') inner)

-- The place of the first `=`, or else of the first `:`.
abbrev separator : String → Option ℕ
separator s = elim (find s "=") [ some n ↦ some n | none ↦ find s ":" ]

abbrev pub or_text : Option String → String → String
or_text none s = s
or_text (some t) s = t

unfoldable pub parse_assignment : F64 → String → Result (String × Value)
unfolding find take drop trim strip_prefix parse_value
parse_assignment f assignment = do
  idx ← or_error (syntax_error "assignment must be key=value or key:value") (separator assignment)
  value ← parse_value f (trim (drop (idx + 1) assignment))
  let left = trim (take idx assignment)
  ok (or_text (strip_prefix left "n.") left, value)

-- The loop over the entries between the braces.
unfoldable pub parse_entries : F64 → List String → Properties → Result Properties
unfolding parse_assignment trim
parse_entries f [] props = ok props
parse_entries f (entry ∷ entries) props = elim (parse_assignment f (trim entry)) [
  | err e ↦ err e
  | ok (key, value) ↦ parse_entries f entries (HashMap.insert key value props)
]

unfoldable pub parse_properties : F64 → String → Result Properties
unfolding parse_entries split strip_char strip_suffix trim
parse_properties f props_part = do
  raw ← or_error (syntax_error "invalid properties object") (enclosed b'{' b'}' props_part)
  if is_empty (trim raw) then ok [] else parse_entries f (split (is b',') raw) []

-- What stands behind the colon of a node pattern.
unfoldable pub label_and_properties : F64 → String → Result (String × Properties)
unfolding find take drop trim parse_properties
label_and_properties f after_colon = elim (find after_colon "{") [
  | none ↦ ok (trim after_colon, [])
  | some brace ↦ (do
    props ← parse_properties f (trim (drop brace after_colon))
    ok (trim (take brace after_colon), props))
]

unfoldable pub parse_create_or_merge_payload : F64 → String → String → Result (String × Properties)
unfolding trim_start_matches trim strip_char strip_suffix find drop label_and_properties
parse_create_or_merge_payload f query prefix = do
  inner ←
      or_error (syntax_error "invalid node pattern")
        (enclosed b'(' b')' (trim (trim_start_matches query prefix)))
  colon ← or_error (unsupported "label is required in node pattern") (find inner ":")
  label_and_properties f (drop (colon + 1) inner)
