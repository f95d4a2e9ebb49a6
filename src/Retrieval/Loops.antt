-- ===== src/Retrieval/Loops.antt =====
-- The opcodes of `eval` that loop: over the expressions of an array, or over the items of a collection
-- with the item as the current one.
use Prim.Native.Char.{code}
use Prim.Native.String.{◌++◌}
use aira_graphdb.Base.{
  ℕ, suc, ◌+◌, ◌-◌, ◌/◌, ◌%◌, String, Bool, true, false, not, ◌&&◌, ◌||◌, Option, none, some, List,
  [], ◌∷◌, string_eq, ltb, nat_eq, u64_mod, if◌then◌else◌,
}
use aira_graphdb.Graph.{f64_eq}
use aira_graphdb.Retrieval.Json.{Json, null, get, as_u64, as_object}
use aira_graphdb.Retrieval.Pointer.{
  Outcome, gives, fails, panics, ◌>>=◌, or_fail, EvalValue, ref, owned, Current, one, values_equal,
  bool_value, string_value, array_value, array_values,
}
use aira_graphdb.Retrieval.Values.{
  Floats, neg_infinity, Run, Children, flag, text, field_of, value_of, text_of, runs_of,
  number_value, scalar_number,
}

-- The UTF-16 units of a text, and `cmp(..).is_lt()` of two such lists
unfoldable pub encode_utf16 : String → List ℕ
encode_utf16 String.[] = []
encode_utf16 (String.◌∷◌ c s) =
    let rest = encode_utf16 s in
    let above = code c - 0x10000 in
    if ltb (code c) 0x10000
    then code c ∷ rest
    else (0xD800 + above / 0x400) ∷ (0xDC00 + above % 0x400) ∷ rest

unfoldable pub units_lt : List ℕ → List ℕ → Bool
units_lt [] [] = false
units_lt [] (n ∷ ns) = true
units_lt (m ∷ ms) [] = false
units_lt (m ∷ ms) (n ∷ ns) = ltb m n || (nat_eq m n && units_lt ms ns)

module _ (f : Floats) (op : String) (children : Children) (current : Current) where
  abbrev number_in : EvalValue → String → Outcome ℕ
  number_in = number_value f op children current

  -- `all` and `any`: the first expression that is `stop` ends the loop.
  unfoldable pub bool_loop : Bool → List Run → Outcome EvalValue
  bool_loop stop [] = flag (not stop)
  bool_loop stop (run ∷ runs) = do
    let rest = bool_loop stop runs
    value ← run current
    b ← bool_value value op
    if (if stop then b else not b) then flag stop else rest

  unfoldable pub eval_bool : Bool → Outcome EvalValue
  unfolding bool_loop
  eval_bool stop = do
    runs ← runs_of f op children current "values" (op ++ ".values is not an array")
    bool_loop stop runs

  abbrev is_null : Json → Bool
  is_null null = true
  is_null _ = false

  unfoldable pub coalesce_loop : List Run → Outcome EvalValue
  coalesce_loop [] = gives (owned null)
  coalesce_loop (run ∷ runs) = do
    let rest = coalesce_loop runs
    value ← run current
    v ← one value "coalesce"
    if is_null v then rest else gives value

  unfoldable pub eval_coalesce : Outcome EvalValue
  unfolding coalesce_loop
  eval_coalesce = do
    runs ← runs_of f op children current "values" "coalesce.values is not an array"
    coalesce_loop runs

  unfoldable pub concat_loop : String → List Run → Outcome EvalValue
  concat_loop result [] = text result
  concat_loop result (run ∷ runs) = do
    value ← run current
    s ← string_value value "concat"
    concat_loop (result ++ s) runs

  unfoldable pub eval_concat : Outcome EvalValue
  unfolding concat_loop
  eval_concat = do
    runs ← runs_of f op children current "values" "concat.values is not an array"
    concat_loop "" runs

  unfoldable pub max_loop : ℕ → List Run → Outcome EvalValue
  max_loop maximum [] = scalar_number f op children current maximum "max"
  max_loop maximum (run ∷ runs) = do
    value ← run current
    n ← number_in value "max"
    max_loop (f.max maximum n) runs

  unfoldable pub eval_max : Outcome EvalValue
  unfolding max_loop
  eval_max = do
    runs ← runs_of f op children current "values" "max.values is not an array"
    max_loop neg_infinity runs

  -- Whether an entry has the key; `none` where its key field is missing
  abbrev pub matches_key : Option Json → EvalValue → Outcome Bool
  matches_key none key = gives false
  matches_key (some candidate) key = values_equal (ref candidate) key

  unfoldable pub lookup_loop : EvalValue → String → String → List Json → Outcome EvalValue
  unfolding values_equal
  lookup_loop key key_field value_field [] = gives (owned null)
  lookup_loop key key_field value_field (entry ∷ entries) = do
    let rest = lookup_loop key key_field value_field entries
    map ← or_fail (as_object entry) "map_lookup entry is not an object"
    found ← matches_key (get key_field map) key
    if found
        then (do
          v ← or_fail (get value_field map) "map_lookup value field is missing"
          gives (ref v))
        else rest

  unfoldable pub eval_map_lookup : Outcome EvalValue
  unfolding lookup_loop
  eval_map_lookup = do
    key ← value_of f op children current "key"
    key_field ← text_of f op children current "keyField" "map_lookup keyField is not a string"
    value_field ← text_of f op children current "valueField" "map_lookup valueField is not a string"
    map ← value_of f op children current "map"
    entries ← array_values map "map_lookup"
    lookup_loop key key_field value_field entries

  unfoldable pub contains_loop : EvalValue → List Json → Outcome EvalValue
  unfolding values_equal
  contains_loop value [] = flag false
  contains_loop value (candidate ∷ candidates) = do
    let rest = contains_loop value candidates
    same ← values_equal (ref candidate) value
    if same then flag true else rest

  unfoldable pub eval_set_contains : Outcome EvalValue
  unfolding contains_loop
  eval_set_contains = do
    set ← value_of f op children current "set"
    candidates ← array_values set "set_contains"
    value ← value_of f op children current "value"
    contains_loop value candidates

  -- The items of `collection`, and the name of the scope
  abbrev pub items_of :
      String → String → String → (String → List Json → Outcome EvalValue) → Outcome EvalValue
  items_of label message scope_message k = do
    value ← value_of f op children current "collection"
    items ← array_value value label message
    scope ← text_of f op children current "scope" scope_message
    k scope items

  -- `values_equal(seen, key).unwrap_or(false)`
  abbrev pub surely_equal : EvalValue → EvalValue → Bool
  surely_equal a b = elim (values_equal a b) [
    | gives same ↦ same
    | fails message ↦ false
    | panics ↦ false
  ]

  abbrev pub seen : EvalValue → List EvalValue → Bool
  seen key [] = false
  seen key (k ∷ ks) = surely_equal k key || seen key ks

  -- The order of the keys that were seen does not matter to `any`.
  unfoldable pub unique_loop : Run → String → List EvalValue → List Json → Outcome EvalValue
  unfolding values_equal
  unique_loop key scope keys [] = flag true
  unique_loop key scope keys (item ∷ items) = do
    k ← key (some (scope, item))
    let rest = unique_loop key scope (k ∷ keys) items
    if seen k keys then flag false else rest

  unfoldable pub eval_unique_by : Outcome EvalValue
  unfolding unique_loop
  eval_unique_by =
      items_of "unique_by" "unique_by collection is not an array" "unique_by scope is not a string"
        λ scope items. (do
          key ← field_of f op children current "key"
          unique_loop key.run scope [] items)

  -- A score above the one before it, or an equal one with a smaller id
  abbrev pub is_disordered : Option (ℕ × String) → ℕ → String → Bool
  is_disordered none score id = false
  is_disordered (some (previous_score, previous_id)) score id =
      f.lt previous_score score
      || (f64_eq score previous_score && units_lt (encode_utf16 id) (encode_utf16 previous_id))

  unfoldable pub ordered_loop :
      Run → Run → String → Option (ℕ × String) → List Json → Outcome EvalValue
  unfolding f64_eq units_lt encode_utf16
  ordered_loop score id scope previous [] = flag true
  ordered_loop score id scope previous (item ∷ items) = do
    score_value ← score (some (scope, item))
    n ← number_in score_value "ordered score"
    id_value ← id (some (scope, item))
    s ← string_value id_value "ordered id"
    let rest = ordered_loop score id scope (some (n, s)) items
    if is_disordered previous n s then flag false else rest

  unfoldable pub eval_ordered : Outcome EvalValue
  unfolding ordered_loop
  eval_ordered =
      items_of "ordered_score_desc_id_asc" "ordered collection is not an array"
        "ordered scope is not a string"
        λ scope items. (do
          score ← field_of f op children current "score"
          id ← field_of f op children current "id"
          ordered_loop score.run id.run scope none items)

  unfoldable pub for_each_loop : Run → String → List Json → Outcome EvalValue
  for_each_loop predicate scope [] = flag true
  for_each_loop predicate scope (item ∷ items) = do
    let rest = for_each_loop predicate scope items
    value ← predicate (some (scope, item))
    b ← bool_value value "for_each predicate"
    if b then rest else flag false

  unfoldable pub eval_for_each : Outcome EvalValue
  unfolding for_each_loop
  eval_for_each =
      items_of "for_each" "for_each collection is not an array" "for_each scope is not a string"
        λ scope items. (do
          predicate ← field_of f op children current "predicate"
          for_each_loop predicate.run scope items)

  -- `rank.one("rank")?.as_u64() != Some(expected)`
  abbrev has_rank : ℕ → Json → Bool
  has_rank expected v = elim (as_u64 v) [ none ↦ false | some n ↦ nat_eq n expected ]

  unfoldable pub rank_loop : Run → String → ℕ → List Json → Outcome EvalValue
  rank_loop rank scope index [] = flag true
  rank_loop rank scope index (item ∷ items) = do
    value ← rank (some (scope, item))
    let rest = rank_loop rank scope (suc index) items
    if ltb (index + 1) u64_mod
        then (do v ← one value "rank"; if has_rank (index + 1) v then rest else flag false)
        else fails "rank counter overflow"

  unfoldable pub eval_rank : Outcome EvalValue
  unfolding rank_loop
  eval_rank =
      items_of "rank_is_index_plus_one" "rank collection is not an array"
        "rank scope is not a string"
        λ scope items. (do
          rank ← field_of f op children current "rank"
          rank_loop rank.run scope 0 items)
