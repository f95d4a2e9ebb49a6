-- ===== src/Query/Procedure.antt =====
-- `CALL name(arguments)` of the procedures that
-- `spec/contracts/apoc-procedure-manifest.v1.0.0.yaml` allows.
use Prim.Native.String.{◌++◌}
use Prim.Native.Char.{Char}
use aira_graphdb.Base.{
  ℕ, ◌+◌, ◌-◌, ◌%◌, ◌^◌, suc, String, Bool, true, false, not, ◌&&◌, ◌||◌, List, [], ◌∷◌, map, ◌==◌,
  string_eq, nat_eq, leb, ltb, any, retain_new, if◌then◌else◌,
}
use aira_graphdb.Base.Decimal.{to_string}
use aira_graphdb.Errors.{ErrorCode, Result, ok, err, new}
use aira_graphdb.Graph.{
  ℤ, pos, negsuc, InMemoryGraphStore, Value, node_count, edge_count, rename_label, int_eq, bool_eq,
  bytes_eq,
}
use aira_graphdb.Str.{take, drop, find, rfind, strip_prefix, trim, is, is_empty}
use aira_graphdb.Query.{F64, QueryResult, ◌>>=◌, syntax_error, unsupported_in, or_error}
use aira_graphdb.Query.Literals.{parse_value, parse_list_values}
use aira_graphdb.Query.Unwind.{one_row, single}
use aira_graphdb.Query.Write.{Written}

abbrev pub allowed_procedures : List String
allowed_procedures =
    "apoc.meta.schema" ∷ "apoc.coll.toSet" ∷ "apoc.text.join" ∷ "apoc.refactor.rename.label" ∷ []

abbrev invalid {ℓ} : {A : Type ℓ} → String → Result A
invalid message = err (new ErrorCode.invalid_argument message)

-- The bits of a number that is none.
abbrev is_nan : ℕ → Bool
is_nan n = ltb 0x7FF0000000000000 (n % 2 ^ 63)

-- That the `Debug` texts of two values are equal: those of two numbers are if the numbers have the
-- same bits, or if both are NaN.
unfoldable pub same_debug : Value → Value → Bool
unfolding int_eq bool_eq bytes_eq
same_debug (Value.string s) (Value.string t) = s == t
same_debug (Value.int64 m) (Value.int64 n) = int_eq m n
same_debug (Value.float64 x) (Value.float64 y) = nat_eq x y || (is_nan x && is_nan y)
same_debug (Value.bool a) (Value.bool b) = bool_eq a b
same_debug (Value.bytes xs) (Value.bytes ys) = bytes_eq xs ys
same_debug _ _ = false

abbrev pub int_text : ℤ → String
int_text (pos n) = to_string n
int_text (negsuc n) = "-" ++ to_string (suc n)

abbrev bool_text : Bool → String
bool_text true = "true"
bool_text false = "false"

unfoldable pub text_of : F64 → Value → String
text_of f (Value.string s) = s
text_of f (Value.int64 n) = int_text n
text_of f (Value.float64 n) = f.display n
text_of f (Value.bool b) = bool_text b
text_of f (Value.bytes xs) = "<bytes>"

-- `join`
unfoldable pub join : String → List String → String
join delim [] = ""
join delim (s ∷ []) = s
join delim (s ∷ t ∷ rest) = s ++ (delim ++ join delim (t ∷ rest))

abbrev cons_unless_empty : String → List String → List String
cons_unless_empty s parts = if is_empty s then parts else s ∷ parts

abbrev append_char : String → Char → String
append_char s c = s ++ (String.◌∷◌ c String.[])

-- `part` is what was read since the last comma that stands outside of the brackets. As many brackets
-- were closed as opened where `opened` and `closed` are equal: the depth may be below zero.
unfoldable pub split_args_from : ℕ → ℕ → String → String → List String
unfolding trim
split_args_from opened closed part String.[] = cons_unless_empty (trim part) []
split_args_from opened closed part (String.◌∷◌ c s) =
    if is b',' c && nat_eq opened closed
    then cons_unless_empty (trim part) (split_args_from opened closed "" s)
    else split_args_from (if is b'[' c then opened + 1 else opened)
        (if is b']' c then closed + 1 else closed) (append_char part c) s

unfoldable pub split_call_args : String → List String
unfolding split_args_from
split_call_args raw = split_args_from 0 0 "" raw

abbrev two_args : String → List String → Result (String × String)
two_args message (a ∷ b ∷ []) = ok (a, b)
two_args message _ = invalid message

abbrev text_or_invalid : String → Value → Result String
text_or_invalid message (Value.string s) = ok s
text_or_invalid message _ = invalid message

unfoldable pub call_to_set : F64 → String → Result QueryResult
unfolding parse_list_values retain_new same_debug
call_to_set f args_raw = do
  values ← parse_list_values f args_raw
  ok (one_row "values" (retain_new same_debug [] values))

unfoldable pub call_join : F64 → String → Result QueryResult
unfolding parse_list_values parse_value split_call_args join text_of
call_join f args_raw = do
  (values_raw, delim_raw) ←
      two_args "apoc.text.join requires values, delimiter" (split_call_args args_raw)
  values ← parse_list_values f values_raw
  delimiter ← parse_value f delim_raw
  delim ← text_or_invalid "delimiter must be string" delimiter
  ok (one_row "value" (single (Value.string (join delim (map (text_of f) values)))))

-- The two labels of a renaming.
unfoldable pub rename_args : F64 → String → Result (String × String)
unfolding parse_value split_call_args trim
rename_args f args_raw = do
  (from_raw, to_raw) ←
      two_args "apoc.refactor.rename.label requires from,to" (split_call_args args_raw)
  from_value ← parse_value f from_raw
  from ← text_or_invalid "from must be string" from_value
  to_value ← parse_value f to_raw
  to ← text_or_invalid "to must be string" to_value
  if is_empty (trim from) || is_empty (trim to)
      then invalid "from/to must not be empty"
      else ok (from, to)

abbrev schema : InMemoryGraphStore → QueryResult
schema store =
    QueryResult.table ("nodes" ∷ "relationships" ∷ [])
      ((Value.int64 (pos (node_count store)) ∷ Value.int64 (pos (edge_count store)) ∷ []) ∷ [])

unfoldable pub call_rename : F64 → InMemoryGraphStore → String → Written
unfolding rename_args rename_label
call_rename f store args_raw = elim (rename_args f args_raw) [
  | err e ↦ (err e, store)
  | ok (from, to) ↦
      let (store', updated) = rename_label store from to in
      (ok (one_row "updatedNodeCount" (single (Value.int64 (pos updated)))), store')
]

unfoldable pub call_procedure : F64 → InMemoryGraphStore → String → String → Written
unfolding call_to_set call_join call_rename
call_procedure f store name args_raw =
    if not (any (λ p. p == name) allowed_procedures)
    then (err (unsupported_in "CALL" ("unsupported procedure: " ++ name)), store)
    else if name == "apoc.meta.schema"
    then (ok (schema store), store)
    else if name == "apoc.coll.toSet"
    then (call_to_set f args_raw, store)
    else if name == "apoc.text.join"
    then (call_join f args_raw, store)
    else if name == "apoc.refactor.rename.label"
    then call_rename f store args_raw
    else (err (unsupported_in "CALL" ("unsupported procedure: " ++ name)), store)

-- The name and the arguments.
unfoldable pub parse_call : String → Result (String × String)
unfolding strip_prefix trim find rfind take drop
parse_call query = do
  rest ← or_error (syntax_error "invalid CALL syntax") (strip_prefix query "CALL ")
  let call = trim rest
  opening ← or_error (syntax_error "CALL requires (") (find call "(")
  closing ← or_error (syntax_error "CALL requires )") (rfind call ")")
  if leb closing opening
      then err (syntax_error "invalid CALL argument list")
      else ok (
        trim (take opening call),
        trim (take (closing - (opening + 1)) (drop (opening + 1) call)),
      )

unfoldable pub execute_call : F64 → InMemoryGraphStore → String → Written
unfolding parse_call call_procedure
execute_call f store query = elim (parse_call query) [
  | err e ↦ (err e, store)
  | ok (name, args_raw) ↦ call_procedure f store name args_raw
]
