-- ===== src/Retrieval/Calm/Iterated.antt =====
-- The loops over expressions that never panic: neither do they.
use Prim.Native.String.{◌++◌}
use aira_graphdb.Base.{ℕ, suc, String, Bool, Option, none, some, List, [], ◌∷◌, All}
use aira_graphdb.Retrieval.Json.{Json, Fields, get}
use aira_graphdb.Retrieval.Pointer.{EvalValue, Current, bool_value, string_value}
use aira_graphdb.Retrieval.Values.{Floats, Run, Children, number_value}
use aira_graphdb.Retrieval.Loops.{
  bool_loop, coalesce_loop, concat_loop, max_loop, matches_key, lookup_loop, contains_loop,
  unique_loop, ordered_loop, for_each_loop, rank_loop,
}
use aira_graphdb.Retrieval.Calm.{IsCalm, IsCalmRun, calm_rules}

module _ (f : Floats) (op : String) (children : Children) (current : Current) where
  pub number_calm :
      (value : EvalValue) (label : String) → IsCalm (number_value f op children current value label)
  number_calm value label = search calm_rules

  pub bool_value_calm : (value : EvalValue) (label : String) → IsCalm (bool_value value label)
  bool_value_calm value label = search calm_rules

  pub string_value_calm : (value : EvalValue) (label : String) → IsCalm (string_value value label)
  string_value_calm value label = search calm_rules

  pub bool_loop_calm :
      (stop : Bool) (runs : List Run)
      → All IsCalmRun runs
      → IsCalm (bool_loop f op children current stop runs)
  unfolding bool_loop
  bool_loop_calm stop [] p = search calm_rules
  bool_loop_calm stop (run ∷ runs) (here, there) =
      let rest = bool_loop_calm stop runs there in
      search (here.on, bool_value_calm, calm_rules) depth 12

  pub coalesce_loop_calm :
      (runs : List Run) → All IsCalmRun runs → IsCalm (coalesce_loop f op children current runs)
  unfolding coalesce_loop
  coalesce_loop_calm [] p = search calm_rules
  coalesce_loop_calm (run ∷ runs) (here, there) =
      let rest = coalesce_loop_calm runs there in search (here.on, calm_rules) depth 12

  pub concat_loop_calm :
      (result : String) (runs : List Run)
      → All IsCalmRun runs
      → IsCalm (concat_loop f op children current result runs)
  unfolding concat_loop
  concat_loop_calm result [] p = search calm_rules
  concat_loop_calm result (run ∷ runs) (here, there) =
      search
        (
          string_value_calm,
          calm_rules,
          here.on,
          λ (s : String). concat_loop_calm (result ++ s) runs there,
        )
        depth 12

  pub max_loop_calm :
      (maximum : ℕ) (runs : List Run)
      → All IsCalmRun runs
      → IsCalm (max_loop f op children current maximum runs)
  unfolding max_loop
  max_loop_calm maximum [] p = search calm_rules
  max_loop_calm maximum (run ∷ runs) (here, there) =
      search
        (number_calm, calm_rules, here.on, λ (n : ℕ). max_loop_calm (f.max maximum n) runs there)
        depth 12

  pub matches_calm :
      (o : Option Json) (key : EvalValue) → IsCalm (matches_key f op children current o key)
  matches_calm none key = search calm_rules
  matches_calm (some candidate) key = search calm_rules

  pub lookup_loop_calm :
      (key : EvalValue) (key_field value_field : String) (entries : List Json)
      → IsCalm (lookup_loop f op children current key key_field value_field entries)
  unfolding lookup_loop
  lookup_loop_calm key key_field value_field [] = search calm_rules
  lookup_loop_calm key key_field value_field (entry ∷ entries) =
      let rest = lookup_loop_calm key key_field value_field entries in
      search (λ (map : Fields). matches_calm (get key_field map) key, calm_rules) depth 12

  pub contains_loop_calm :
      (value : EvalValue) (candidates : List Json)
      → IsCalm (contains_loop f op children current value candidates)
  unfolding contains_loop
  contains_loop_calm value [] = search calm_rules
  contains_loop_calm value (candidate ∷ candidates) =
      let rest = contains_loop_calm value candidates in search calm_rules depth 12

  pub unique_loop_calm :
      (key : Run) (scope : String) (keys : List EvalValue) (items : List Json)
      → IsCalmRun key
      → IsCalm (unique_loop f op children current key scope keys items)
  unfolding unique_loop
  unique_loop_calm key scope keys [] p = search calm_rules
  unique_loop_calm key scope keys (item ∷ items) p =
      search (calm_rules, p.on, λ (k : EvalValue). unique_loop_calm key scope (k ∷ keys) items p)
        depth 12

  pub ordered_loop_calm :
      (score id : Run) (scope : String) (previous : Option (ℕ × String)) (items : List Json)
      → IsCalmRun score
      → IsCalmRun id
      → IsCalm (ordered_loop f op children current score id scope previous items)
  unfolding ordered_loop
  ordered_loop_calm score id scope previous [] p q = search calm_rules
  ordered_loop_calm score id scope previous (item ∷ items) p q =
      search
        (
          number_calm,
          string_value_calm,
          calm_rules,
          p.on,
          q.on,
          λ (n : ℕ) (s : String). ordered_loop_calm score id scope (some (n, s)) items p q,
        )
        depth 14

  pub for_each_loop_calm :
      (predicate : Run) (scope : String) (items : List Json)
      → IsCalmRun predicate
      → IsCalm (for_each_loop f op children current predicate scope items)
  unfolding for_each_loop
  for_each_loop_calm predicate scope [] p = search calm_rules
  for_each_loop_calm predicate scope (item ∷ items) p =
      let rest = for_each_loop_calm predicate scope items p in
      search (p.on, bool_value_calm, calm_rules) depth 12

  pub rank_loop_calm :
      (rank : Run) (scope : String) (index : ℕ) (items : List Json)
      → IsCalmRun rank
      → IsCalm (rank_loop f op children current rank scope index items)
  unfolding rank_loop
  rank_loop_calm rank scope index [] p = search calm_rules
  rank_loop_calm rank scope index (item ∷ items) p =
      let rest = rank_loop_calm rank scope (suc index) items p in search (p.on, calm_rules) depth 12
