-- ===== src/Retrieval/Values.antt =====
-- The opcodes of `eval` that compute a value from the values of their fields.
use Prim.Native.String.{◌++◌}
use aira_graphdb.Base.{
  ℕ, ◌-◌, ◌%◌, ◌^◌, String, Bool, true, false, not, ◌&&◌, ◌||◌, Option, none, some, List, [], ◌∷◌,
  ◌==◌, string_eq, all, ltb, nat_eq, length, u64_mod, if◌then◌else◌,
}
use aira_graphdb.Retrieval.Caps
use aira_graphdb.Retrieval.Json.{
  Json, bool, number, string, object, pos_int, neg_int, float, get, as_str, as_array, as_u64,
  json_eq,
}
use aira_graphdb.Retrieval.Pointer.{
  Outcome, gives, fails, ◌>>=◌, or_fail, at, EvalValue, ref, refs, owned, Current, all_of, one,
  values_equal, bool_value, string_value, array_value, array_values,
}

-- The operations of `f64` on the bits
pub record Floats : Type 0 where
  pub from_u64 : ℕ → ℕ
  pub from_negative : ℕ → ℕ
  pub lt : ℕ → ℕ → Bool
  pub le : ℕ → ℕ → Bool
  pub mul : ℕ → ℕ → ℕ
  pub max : ℕ → ℕ → ℕ
  pub is_whole : ℕ → Bool
  pub to_usize : ℕ → ℕ

abbrev pub is_finite : ℕ → Bool
is_finite bits = ltb (bits % 2 ^ 63) 0x7FF0000000000000

abbrev pub neg_infinity : ℕ
neg_infinity = 0xFFF0000000000000

-- A function of the item of the innermost loop, which gives the value of an expression
abbrev pub Run : Type 0
Run = Current → Outcome EvalValue

-- A field of an expression: the document that stands there, its value as an expression, and the values
-- of its items
pub record Child : Type 0 where
  pub json : Json
  pub run : Run
  pub items : List Run

abbrev pub Children : Type 0
Children = List (String × Child)

abbrev pub find_child : String → Children → Option Child
find_child name [] = none
find_child name ((key, child) ∷ rest) =
    let others = find_child name rest in if key == name then some child else others

abbrev pub flag : Bool → Outcome EvalValue
flag b = gives (owned (bool b))

abbrev pub text : String → Outcome EvalValue
text s = gives (owned (string s))

module _ (f : Floats) (op : String) (children : Children) (current : Current) where
  -- The closure `field`
  abbrev pub field_of : String → Outcome Child
  field_of name =
      or_fail (find_child name children)
        ("refinement opcode " ++ (op ++ (" field " ++ (name ++ " is missing"))))

  abbrev pub value_of : String → Outcome EvalValue
  value_of name = do child ← field_of name; child.run current

  abbrev pub text_of : String → String → Outcome String
  text_of name message = do child ← field_of name; or_fail (as_str child.json) message

  -- The expressions in an array
  abbrev pub runs_of : String → String → Outcome (List Run)
  runs_of name message = do
    child ← field_of name
    _ ← or_fail (as_array child.json) message
    gives child.items

  abbrev pub as_f64 : Json → Option ℕ
  as_f64 (number (pos_int n)) = some (f.from_u64 n)
  as_f64 (number (neg_int n)) = some (f.from_negative n)
  as_f64 (number (float bits)) = some bits
  as_f64 _ = none

  abbrev pub number_value : EvalValue → String → Outcome ℕ
  number_value value label = do
    v ← one value label
    n ← or_fail (as_f64 v) (label ++ " must evaluate to number")
    if is_finite n then gives n else fails (label ++ " must be finite")

  abbrev pub scalar_number : ℕ → String → Outcome EvalValue
  scalar_number n label =
      if is_finite n
      then gives (owned (number (float n)))
      else fails (label ++ " produced a non-finite number")

  abbrev pub list_length : EvalValue → Outcome ℕ
  list_length (refs vs) = gives (length vs)
  list_length value = do
    v ← one value "array_length"
    vs ← or_fail (as_array v) "array_length requires an array"
    gives (length vs)

  unfoldable pub eval_array_length : Outcome EvalValue
  eval_array_length = do
    value ← value_of "value"
    n ← list_length value
    gives (owned (number (pos_int n)))

  unfoldable pub eval_array_at : Outcome EvalValue
  eval_array_at = do
    arr ← value_of "array"
    position ← value_of "index"
    index ← number_value position "array index"
    if f.lt index 0 || (not (f.is_whole index) || f.lt (f.from_u64 (u64_mod - 1)) index)
        then fails "array index is not a safe integer"
        else (do
          vs ← array_values arr "array_at"
          v ← or_fail (at vs (f.to_usize index)) "array_at index is missing"
          gives (ref v))

  -- `eq`, `field_eq_ref` and `corpus_eq_ref`, with the names of the two fields
  unfoldable pub eval_eq : String → String → Outcome EvalValue
  unfolding values_equal
  eval_eq left right = do a ← value_of left; b ← value_of right; same ← values_equal a b; flag same

  -- `lt` and `lte`
  unfoldable pub eval_order : (ℕ → ℕ → Bool) → Outcome EvalValue
  eval_order below = do
    left ← value_of "left"
    a ← number_value left op
    right ← value_of "right"
    b ← number_value right op
    flag (below a b)

  unfoldable pub eval_multiply : Outcome EvalValue
  eval_multiply = do
    left ← value_of "left"
    a ← number_value left "multiply"
    right ← value_of "right"
    b ← number_value right "multiply"
    scalar_number (f.mul a b) "multiply"

  unfoldable pub eval_not : Outcome EvalValue
  eval_not = do value ← value_of "value"; b ← bool_value value "not"; flag (not b)

  unfoldable pub eval_normalize_ref : (String → String → Option String) → Outcome EvalValue
  eval_normalize_ref normalizer = do
    dependency ← text_of "dependency" "normalize_ref dependency is not a string"
    value ← value_of "value"
    s ← string_value value "normalize_ref"
    normalized ←
        or_fail (normalizer dependency s)
          ("normalization dependency " ++ (dependency ++ " unavailable"))
    text normalized

  unfoldable pub eval_prefixed_identity : Outcome EvalValue
  eval_prefixed_identity = do
    named ← value_of "identity"
    identity ← string_value named "identity"
    front ← text_of "prefix" "prefix is not a string"
    given ← value_of "value"
    value ← string_value given "value"
    flag (value == (front ++ identity))

  abbrev pub number_field : String → String → Outcome ℕ
  number_field name message = do child ← field_of name; or_fail (as_f64 child.json) message

  abbrev in_range : ℕ → ℕ → Json → Bool
  in_range minimum maximum v = elim (as_f64 v) [
    | none ↦ false
    | some n ↦ is_finite n && (f.le minimum n && f.le n maximum)
  ]

  unfoldable pub eval_finite_range : Outcome EvalValue
  eval_finite_range = do
    minimum ← number_field "minimum" "finite_range minimum is not a number"
    maximum ← number_field "maximum" "finite_range maximum is not a number"
    value ← value_of "value"
    flag (all (in_range minimum maximum) (all_of value))

  abbrev in_safe_range : ℕ → ℕ → Json → Bool
  in_safe_range minimum maximum v = elim (as_u64 v) [
    | none ↦ false
    | some n ↦
        f.le minimum (f.from_u64 n)
        && (f.le (f.from_u64 n) maximum
            && f.le (f.from_u64 n) (f.from_u64 Caps.max_safe_generation))
  ]

  unfoldable pub eval_safe_integer_range : Outcome EvalValue
  eval_safe_integer_range = do
    minimum ← number_field "minimum" "safe_integer_range minimum is not a number"
    upper ← value_of "maximum"
    maximum ← number_value upper "safe_integer_range maximum"
    value ← value_of "value"
    flag (all (in_safe_range minimum maximum) (all_of value))

  -- `length_eq` and `length_lte_ref`, with the name of the second field
  unfoldable pub eval_length : String → (ℕ → ℕ → Bool) → Outcome EvalValue
  eval_length expected_name test = do
    actual ← value_of "actual"
    expected ← value_of expected_name
    vs ← array_value actual "length assertion" "length assertion actual is not an array"
    n ← number_value expected "length assertion expected"
    flag (test (f.from_u64 (length vs)) n)

  -- Whether a value has the tag at the field with this name
  abbrev has_tag : String → Json → Json → Bool
  has_tag name (object fs) (string tag) = elim (get name fs) [
    | none ↦ false
    | some v ↦ json_eq v (string tag)
  ]
  has_tag name _ _ = false

  abbrev have_tags : String → List Json → List Json → Bool
  have_tags name (v ∷ vs) (tag ∷ tags) = has_tag name v tag && have_tags name vs tags
  have_tags name _ _ = true

  unfoldable pub eval_tuple_tags : Outcome EvalValue
  unfolding json_eq
  eval_tuple_tags = do
    listed ← field_of "expected"
    expected ← or_fail (as_array listed.json) "tuple_tags expected is not an array"
    name ← text_of "field" "tuple_tags field is not a string"
    value ← value_of "actual"
    actual ← array_value value "tuple_tags" "tuple_tags actual is not an array"
    flag (nat_eq (length actual) (length expected) && have_tags name actual expected)
