-- ===== src/Query/Modifiers.antt =====
-- `ORDER BY`, `SKIP` and `LIMIT` behind a `RETURN`.
use aira_graphdb.Base.{
  ℕ, ◌+◌, String, Bool, true, false, Option, none, some, List, [], ◌∷◌, leb, if◌then◌else◌, length,
  take, drop,
}
use aira_graphdb.Base.Text.{str_le}
use aira_graphdb.Base.Sort.{sort_by}
use aira_graphdb.Errors.{Result, ok, err}
use aira_graphdb.Graph.{Value, GraphNode}
use aira_graphdb.Str
use aira_graphdb.Str.{find, starts_with, trim, split_whitespace}
use aira_graphdb.Str.Number.{parse_usize}
use aira_graphdb.Query.{◌>>=◌, syntax_error, unsupported_in, or_error}

pub record ReturnModifiers : Type 0 where
  pub order_by : Bool
  pub skip : Option ℕ
  pub limit : Option ℕ

abbrev pub first_word : List String → Option String
first_word [] = none
first_word (w ∷ ws) = some w

-- The number behind a keyword, with the two errors that it may give.
unfoldable pub count_after : String → String → String → Result ℕ
unfolding split_whitespace parse_usize
count_after tail missing invalid = do
  num ← or_error (syntax_error missing) (first_word (split_whitespace tail))
  or_error (syntax_error invalid) (parse_usize num)

-- The number behind the first place of a keyword, if there is such a place.
unfoldable pub optional_count : String → String → String → String → Result (Option ℕ)
unfolding find Str.drop Str.length count_after
optional_count query keyword missing invalid = elim (find query keyword) [
  | none ↦ ok none
  | some idx ↦ (do
    n ← count_after (Str.drop (idx + Str.length keyword) query) missing invalid
    ok (some n))
]

unfoldable pub parse_order_by : String → Result Bool
unfolding find Str.drop trim starts_with
parse_order_by query = elim (find query "ORDER BY") [
  | none ↦ ok false
  | some idx ↦
      if starts_with (trim (Str.drop idx query)) "ORDER BY n.id"
      then ok true
      else err (unsupported_in "ORDER BY" "only ORDER BY n.id is supported")
]

unfoldable pub parse_return_modifiers : String → Result ReturnModifiers
unfolding parse_order_by optional_count
parse_return_modifiers query = do
  order_by ← parse_order_by query
  skip ← optional_count query "SKIP " "SKIP requires number" "invalid SKIP number"
  limit ← optional_count query "LIMIT " "LIMIT requires number" "invalid LIMIT number"
  ok (record { order_by = order_by; skip = skip; limit = limit })

module _ {ℓ} {A : Type ℓ} where
  unfoldable pub skip_items : Option ℕ → List A → List A
  skip_items none items = items
  skip_items (some skip) items = if leb (length items) skip then [] else drop skip items

  unfoldable pub limit_items : Option ℕ → List A → List A
  limit_items none items = items
  limit_items (some limit) items = take limit items

unfoldable pub apply_return_modifiers : List GraphNode → String → Result (List GraphNode)
unfolding parse_return_modifiers skip_items limit_items
apply_return_modifiers nodes query = do
  modifiers ← parse_return_modifiers query
  ok (limit_items modifiers.limit (skip_items modifiers.skip nodes))

-- The text that a row is sorted by.
abbrev pub row_key : List Value → String
row_key (Value.string v ∷ _) = v
row_key _ = ""

abbrev ordered : Bool → List (List Value) → List (List Value)
ordered false rows = rows
ordered true rows = sort_by (λ a b. str_le (row_key a) (row_key b)) rows

unfoldable pub apply_table_modifiers : List (List Value) → String → Result (List (List Value))
unfolding parse_return_modifiers skip_items limit_items
apply_table_modifiers rows query = do
  modifiers ← parse_return_modifiers query
  ok (limit_items modifiers.limit (skip_items modifiers.skip (ordered modifiers.order_by rows)))
