-- ===== src/Retrieval/Pointer.antt =====
-- JSON pointers with wildcards, and the values that refinement expressions have. A slice that does not
-- begin at a character and an index that is out of range panic.
use Prim.Native.Char.{Char, code}
use Prim.Native.String.{◌++◌}
use aira_graphdb.Base.{
  ℕ, zero, suc, String, Bool, true, false, not, ◌&&◌, ◌||◌, Option, none, some, List, [], ◌∷◌,
  ◌++◌ as append, ◌==◌, string_eq, any, all, is_empty, ltb, if◌then◌else◌,
}
use aira_graphdb.Base.Checked.{Checked, valid, invalid}
use aira_graphdb.Str.{split, is}
use aira_graphdb.Str.Number.{parse_usize}
use aira_graphdb.Retrieval.Json.{
  Json, array, object, to_list, get, values, as_str, as_array, as_bool, json_eq,
}

pub data Outcome {ℓ} (A : Type ℓ) : Type ℓ where
  gives : A → Outcome A
  fails : String → Outcome A
  panics : Outcome A

infixl 5 ◌>>=◌
-- The operator `?`
abbrev pub ◌>>=◌ {ℓ κ} : {A : Type ℓ} {B : Type κ} → Outcome A → (A → Outcome B) → Outcome B
◌>>=◌ (gives a) k = k a
◌>>=◌ (fails message) k = fails message
◌>>=◌ panics k = panics

-- `ok_or_else`
abbrev pub or_fail {ℓ} : {A : Type ℓ} → Option A → String → Outcome A
or_fail (some a) message = gives a
or_fail none message = fails message

-- A character in front of a text that is there
abbrev pub prepend : Char → Option String → Option String
prepend c none = none
prepend c (some t) = some (String.◌∷◌ c t)

unfoldable mutual
  -- The escapes `~0` and `~1` of a segment
  pub json_pointer_segment : String → Option String
  json_pointer_segment String.[] = some ""
  json_pointer_segment (String.◌∷◌ c s) =
      let escaped = unescape s in
      let rest = json_pointer_segment s in if is b'~' c then escaped else prepend c rest

  pub unescape : String → Option String
  unescape String.[] = none
  unescape (String.◌∷◌ c s) =
      let rest = json_pointer_segment s in
      if is b'0' c then prepend "~" rest else if is b'1' c then prepend "/" rest else none

-- `next.extend(..)` for one value, at a wildcard
abbrev pub collection : Json → Outcome (List Json)
collection (array xs) = gives (to_list xs)
collection (object fs) = gives (values fs)
collection _ = fails "JSON pointer wildcard requires a collection"

abbrev pub single_value : Option Json → String → Outcome (List Json)
single_value (some value) message = gives (value ∷ [])
single_value none message = fails message

-- `values.get(index)`
abbrev pub at : List Json → ℕ → Option Json
at [] index = none
at (x ∷ xs) zero = some x
at (x ∷ xs) (suc index) = at xs index

abbrev pub at_index : Option ℕ → List Json → Outcome (List Json)
at_index none xs = fails "JSON pointer array index is invalid"
at_index (some index) xs = single_value (at xs index) "JSON pointer array index is missing"

unfoldable pub child : String → Json → Outcome (List Json)
unfolding parse_usize
child segment (object fs) =
    single_value (get segment fs) ("JSON pointer field " ++ (segment ++ " is missing"))
child segment (array xs) = at_index (parse_usize segment) (to_list xs)
child segment _ = fails "JSON pointer traversed a scalar"

-- The loop over the current values
unfoldable pub each_value : (Json → Outcome (List Json)) → List Json → Outcome (List Json)
each_value step [] = gives []
each_value step (x ∷ xs) = do here ← step x; there ← each_value step xs; gives (append here there)

unfoldable pub select : String → List Json → Outcome (List Json)
unfolding child each_value
select segment current = if segment == "*" then each_value collection current else (do
  next ← each_value (child segment) current
  if is_empty next && not (is_empty current)
      then fails "JSON pointer selected no values"
      else gives next)

unfoldable pub follow : List String → List Json → Outcome (List Json)
unfolding json_pointer_segment select
follow [] current = gives current
follow (raw ∷ rest) current = do
  segment ← or_fail (json_pointer_segment raw) "invalid JSON pointer escape"
  next ← select segment current
  follow rest next

abbrev pub is_slash : Char → Bool
is_slash = is b'/'

-- `path[1..]` wants one byte in front.
unfoldable pub pointer_values : Json → String → Outcome (List Json)
unfolding follow split
pointer_values root String.[] = gives (root ∷ [])
pointer_values root (String.◌∷◌ c s) =
    if ltb (code c) 128 then follow (split is_slash s) (root ∷ []) else panics

-- What an expression has as its value: a part of the document, several of them, or a new one
pub data EvalValue : Type 0 where
  ref : Json → EvalValue
  refs : List Json → EvalValue
  owned : Json → EvalValue

-- `values[0]`
abbrev pub first : List Json → Outcome EvalValue
first [] = panics
first (x ∷ xs) = gives (ref x)

abbrev pub has_wildcard : String → Bool
has_wildcard path = any (λ segment. segment == "*") (split is_slash path)

unfoldable pub pointer_value : Json → String → Outcome EvalValue
unfolding pointer_values split
pointer_value root path = do
  found ← pointer_values root path
  if has_wildcard path then gives (refs found) else first found

-- The item of the innermost loop, and the name of its scope
abbrev pub Current : Type 0
Current = Option (String × Json)

unfoldable pub current_pointer : Current → String → String → Outcome EvalValue
unfolding pointer_value
current_pointer none scope path = fails "iteration pointer has no scope"
current_pointer (some (current_scope, value)) scope path =
    if current_scope == scope
    then pointer_value value path
    else fails ("iteration scope mismatch: " ++ scope)

-- `refs` and `one`
abbrev pub all_of : EvalValue → List Json
all_of (ref v) = v ∷ []
all_of (refs vs) = vs
all_of (owned v) = v ∷ []

abbrev pub one : EvalValue → String → Outcome Json
one (ref v) label = gives v
one (owned v) label = gives v
one (refs (v ∷ [])) label = gives v
one (refs _) label = fails (label ++ " expected one value")

-- `values_equal`
unfoldable pub values_equal : EvalValue → EvalValue → Outcome Bool
unfolding json_eq
values_equal (refs _) _ = fails "array of values cannot be compared as a scalar"
values_equal (ref a) (ref b) = gives (json_eq a b)
values_equal (ref a) (owned b) = gives (json_eq a b)
values_equal (owned a) (ref b) = gives (json_eq b a)
values_equal (owned a) (owned b) = gives (json_eq a b)
values_equal _ (refs _) = fails "array of values cannot be compared as a scalar"

abbrev pub bool_value : EvalValue → String → Outcome Bool
bool_value value label = do
  v ← one value label
  or_fail (as_bool v) (label ++ " must evaluate to boolean")

abbrev pub string_value : EvalValue → String → Outcome String
string_value value label = do
  v ← one value label
  or_fail (as_str v) (label ++ " must evaluate to string")

abbrev pub array_value : EvalValue → String → String → Outcome (List Json)
array_value value label message = do v ← one value label; or_fail (as_array v) message

-- `array_values`, which wants a part of the document
abbrev pub array_values : EvalValue → String → Outcome (List Json)
array_values (ref v) label = or_fail (as_array v) (label ++ " must evaluate to array")
array_values _ label = fails (label ++ " must evaluate to a borrowed array")

unfoldable mutual
  -- The escapes of a segment, as the contract is checked
  pub escapes_ok : String → Bool
  escapes_ok String.[] = true
  escapes_ok (String.◌∷◌ c s) =
      let escaped = escape_ok s in let rest = escapes_ok s in if is b'~' c then escaped else rest

  pub escape_ok : String → Bool
  escape_ok String.[] = false
  escape_ok (String.◌∷◌ c s) = (is b'0' c || is b'1' c) && escapes_ok s

unfoldable pub validate_json_pointer : String → String → Checked (Unit {0})
unfolding escapes_ok split
validate_json_pointer String.[] label = valid tt
validate_json_pointer (String.◌∷◌ c s) label =
    if not (is_slash c)
    then invalid (label ++ " must be an RFC 6901 pointer")
    else if all escapes_ok (split is_slash s)
    then valid tt
    else invalid (label ++ " contains an invalid escape")
