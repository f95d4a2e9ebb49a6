-- ===== src/Retrieval/Paths.antt =====
-- The pointers of a contract that was checked never panic, and without a wildcard they select one value.
use Prim.Native.Char.{code}
use aira_graphdb.Base.{
  or_false, ℕ, String, Bool, true, false, ◌≡◌, ◌≢◌, ◌==◌, string_eq, Option, none, some, List, [],
  ◌∷◌, any, length, length-append, Bool-cases, inl, inr, refl, sym, ap, ◌∙◌, arith, ltb,
  if◌then◌else◌,
}
use aira_graphdb.Base.Checked.{valid}
use aira_graphdb.Str.{split}
use aira_graphdb.Str.Number.{parse_usize}
use aira_graphdb.Retrieval.Json.{Json, null, bool, number, string, array, object, to_list}
use aira_graphdb.Retrieval.Pointer.{
  Outcome, gives, fails, panics, ◌>>=◌, or_fail, json_pointer_segment, collection, single_value,
  at_index, child, each_value, select, follow, is_slash, refs, first, pointer_value,
  validate_json_pointer,
}
use aira_graphdb.Retrieval.Segments.{plain_segment}
use aira_graphdb.Retrieval.Exchange.{bind_gives, gives_injective, or_fail_gives}

-- A step that does not panic, and what follows it
bind_calm {ℓ κ} :
    {A : Type ℓ} {B : Type κ} (r : Outcome A) (k : A → Outcome B)
    → r ≢ panics
    → ((a : A) → r ≡ gives a → k a ≢ panics)
    → (r >>= k) ≢ panics
bind_calm (gives a) k calm rest = rest a refl
bind_calm (fails message) k calm rest = λ h. absurd cc
bind_calm panics k calm rest = absurd (calm refl)

or_fail_calm {ℓ} : {A : Type ℓ} (o : Option A) (message : String) → or_fail o message ≢ panics
or_fail_calm (some a) message = λ h. absurd cc
or_fail_calm none message = λ h. absurd cc

single_value_calm : (o : Option Json) (message : String) → single_value o message ≢ panics
single_value_calm (some v) message = λ h. absurd cc
single_value_calm none message = λ h. absurd cc

at_index_calm : (o : Option ℕ) (xs : List Json) → at_index o xs ≢ panics
at_index_calm (some i) xs = single_value_calm _ _
at_index_calm none xs = λ h. absurd cc

child_calm : (segment : String) (v : Json) → child segment v ≢ panics
unfolding child
child_calm segment (object fs) = single_value_calm _ _
child_calm segment (array xs) = at_index_calm (parse_usize segment) (to_list xs)
child_calm segment null = λ h. absurd cc
child_calm segment (bool b) = λ h. absurd cc
child_calm segment (number n) = λ h. absurd cc
child_calm segment (string s) = λ h. absurd cc

collection_calm : (v : Json) → collection v ≢ panics
collection_calm (object fs) = λ h. absurd cc
collection_calm (array xs) = λ h. absurd cc
collection_calm null = λ h. absurd cc
collection_calm (bool b) = λ h. absurd cc
collection_calm (number n) = λ h. absurd cc
collection_calm (string s) = λ h. absurd cc

each_value_calm :
    (step : Json → Outcome (List Json)) (xs : List Json)
    → ((v : Json) → step v ≢ panics)
    → each_value step xs ≢ panics
unfolding each_value
each_value_calm step [] calm = λ h. absurd cc
each_value_calm step (x ∷ xs) calm = bind_calm (step x) _ (calm x) (λ here _.
    bind_calm (each_value step xs) _ (each_value_calm step xs calm) (λ there _ h. absurd cc))

chosen_calm :
    (b : Bool) (message : String) (xs : List Json)
    → (if b then fails message else gives xs) ≢ panics
chosen_calm true message xs = λ h. absurd cc
chosen_calm false message xs = λ h. absurd cc

select_calm : (segment : String) (xs : List Json) → select segment xs ≢ panics
unfolding select
select_calm segment xs = elim (Bool-cases (segment == "*")) [
  | inl wild ↦ rw wild (each_value_calm collection xs collection_calm)
  | inr plain ↦ rw plain (
      bind_calm (each_value (child segment) xs) _
        (each_value_calm (child segment) xs (child_calm segment)) (λ next _. chosen_calm _ _ next))
]

follow_calm : (segments : List String) (xs : List Json) → follow segments xs ≢ panics
unfolding follow
follow_calm [] xs = λ h. absurd cc
follow_calm (raw ∷ rest) xs =
    bind_calm (or_fail (json_pointer_segment raw) _) _ (or_fail_calm _ _) (λ segment _.
      bind_calm (select segment xs) _ (select_calm segment xs) (λ next _. follow_calm rest next))

-- A step without a wildcard gives one value for each.
single_one :
    (o : Option Json) (message : String) (ys : List Json)
    → single_value o message ≡ gives ys
    → length ys ≡ 1
single_one (some v) message ys h = ap length (sym (gives_injective h))
single_one none message ys h = absurd cc

child_one :
    (segment : String) (v : Json) (ys : List Json) → child segment v ≡ gives ys → length ys ≡ 1
unfolding child
child_one segment (object fs) ys h = single_one _ _ ys h
child_one segment (array xs) ys h = indexed _ h
  where
    indexed : (o : Option ℕ) → at_index o (to_list xs) ≡ gives ys → length ys ≡ 1
    indexed (some i) h = single_one _ _ ys h
    indexed none h = absurd cc
child_one segment null ys h = absurd cc
child_one segment (bool b) ys h = absurd cc
child_one segment (number n) ys h = absurd cc
child_one segment (string s) ys h = absurd cc

each_value_one :
    (segment : String) (xs ys : List Json)
    → each_value (child segment) xs ≡ gives ys
    → length ys ≡ length xs
unfolding each_value
each_value_one segment [] ys h = ap length (sym (gives_injective h))
each_value_one segment (x ∷ xs) ys h =
    let (here, (found, h1)) = bind_gives (child segment x) _ ys h in
    let (there, (others, h2)) = bind_gives (each_value (child segment) xs) _ ys h1 in
    let together = ap length (sym (gives_injective h2)) in
    omega (
      arith,
      together,
      length-append here there,
      child_one segment x here found,
      each_value_one segment xs there others,
    )

select_one :
    (segment : String) (xs ys : List Json)
    → (segment == "*") ≡ false
    → select segment xs ≡ gives ys
    → length ys ≡ length xs
unfolding select
select_one segment xs ys plain h =
    let h1 = rw plain at h in
    let (next, (found, h2)) = bind_gives (each_value (child segment) xs) _ ys h1 in
    let same = kept _ next h2 in omega (arith, ap length same, each_value_one segment xs next found)
  where
    kept :
        (b : Bool) (next : List Json)
        → (if b then fails "JSON pointer selected no values" else gives next) ≡ gives ys
        → next ≡ ys
    kept true next h = absurd cc
    kept false next h = gives_injective h

follow_one :
    (segments : List String) (xs ys : List Json)
    → any (λ segment. segment == "*") segments ≡ false
    → follow segments xs ≡ gives ys
    → length ys ≡ length xs
unfolding follow
follow_one [] xs ys plain h = ap length (sym (gives_injective h))
follow_one (raw ∷ rest) xs ys plain h =
    let (here, there) = or_false (raw == "*") _ plain in
    let (segment, (decoded, h1)) = bind_gives (or_fail (json_pointer_segment raw) _) _ ys h in
    let (next, (selected, h2)) = bind_gives (select segment xs) _ ys h1 in
    let is_plain = plain_segment raw segment (or_fail_gives _ _ segment decoded) here in
    follow_one rest next ys there h2 ∙ select_one segment xs next is_plain selected

first_calm : (found : List Json) → length found ≡ 1 → first found ≢ panics
first_calm [] h = absurd (omega arith)
first_calm (x ∷ xs) h = λ g. absurd cc

chosen_value :
    (b : Bool) (found : List Json)
    → (b ≡ false → length found ≡ 1)
    → (if b then gives (refs found) else first found) ≢ panics
chosen_value true found h = λ g. absurd cc
chosen_value false found h = first_calm found (h refl)

-- A path that `validate_json_pointer` accepts never makes `pointer_value` panic, neither where it
-- cuts off the slash nor where it takes the first value, whatever the document.
pub pointer_value_calm :
    (root : Json) (path label : String)
    → validate_json_pointer path label ≡ valid tt
    → pointer_value root path ≢ panics
unfolding pointer_value validate_json_pointer
pointer_value_calm root String.[] label h = λ g. absurd cc
pointer_value_calm root (String.◌∷◌ c s) label h = elim (Bool-cases (is_slash c)) [
  | inr other ↦ let h1 = rw other at h in absurd cc
  | inl slash ↦
      let ascii : ltb (code c) 128 ≡ true = ground (arith, slash) in
      rw (ascii, slash)
        (bind_calm (follow (split is_slash s) (root ∷ [])) _
          (follow_calm (split is_slash s) (root ∷ []))
          λ found selected.
            chosen_value _ found
              λ plain. follow_one (split is_slash s) (root ∷ []) found plain selected)
]
