-- ===== src/Retrieval/Unique.antt =====
-- What `unique_by` and `rank_is_index_plus_one` say of the items that they loop over.
use aira_graphdb.Base.{
  or_false, String, Bool, true, false, ◌||◌, ◌≡◌, ◌↔◌, some, List, [], ◌∷◌, All, Bool-cases, inl,
  inr, refl, arith,
}
use aira_graphdb.Retrieval.Json.{Json}
use aira_graphdb.Retrieval.Pointer.{gives, EvalValue}
use aira_graphdb.Retrieval.Values.{Floats, Run, Children, flag}
use aira_graphdb.Retrieval.Pointer.{Current}
use aira_graphdb.Retrieval.Loops.{surely_equal, seen, unique_loop}

-- The values of an expression at each of the items
abbrev pub ValuesAt : Run → String → List Json → List EvalValue → Type 0
ValuesAt run scope [] [] = Unit
ValuesAt run scope [] (k ∷ ks) = ⊥
ValuesAt run scope (item ∷ items) [] = ⊥
ValuesAt run scope (item ∷ items) (k ∷ ks) =
    (run (some (scope, item)) ≡ gives k) × ValuesAt run scope items ks

neither : (a b : Bool) → a ≡ false → b ≡ false → (a || b) ≡ false
neither a b h g = ground arith

module _ (f : Floats) (op : String) (children : Children) (current : Current) where
  abbrev same : EvalValue → EvalValue → Bool
  same = surely_equal f op children current

  -- No value is equal to a later one.
  abbrev AllDifferent : List EvalValue → Type 0
  AllDifferent [] = Unit
  AllDifferent (k ∷ ks) = All (λ later. same k later ≡ false) ks × AllDifferent ks

  abbrev New : List EvalValue → List EvalValue → Type 0
  New keys = All (λ k. seen f op children current k keys ≡ false)

  New-cons :
      (k : EvalValue) (keys ks : List EvalValue)
      → New (k ∷ keys) ks ↔ (All (λ later. same k later ≡ false) ks × New keys ks)
  New-cons k keys [] = (λ h. (tt, tt), λ h. tt)
  New-cons k keys (l ∷ ks) =
      let (to, from) = New-cons k keys ks in
      (
        λ h. let (a, b) = to h.1 in let (c, d) = or_false _ _ h.0 in ((c, a), (d, b)),
        λ h. (neither _ _ h.0.0 h.1.0, from (h.0.1, h.1.1)),
      )

  loop_iff :
      (key : Run) (scope : String) (keys : List EvalValue) (items : List Json) (ks : List EvalValue)
      → ValuesAt key scope items ks
      → (unique_loop f op children current key scope keys items ≡ flag true)
        ↔ (New keys ks × AllDifferent ks)
  unfolding unique_loop
  loop_iff key scope keys [] [] v = (λ h. (tt, tt), λ h. refl)
  loop_iff key scope keys [] (k ∷ ks) v = absurd v
  loop_iff key scope keys (item ∷ items) [] v = absurd v
  loop_iff key scope keys (item ∷ items) (k ∷ ks) (here, there) =
      let (to, from) = loop_iff key scope (k ∷ keys) items ks there in
      let (split, join) = New-cons k keys ks in
      elim (Bool-cases (seen f op children current k keys)) [
        | inl old ↦ rw (here, old) (λ h. absurd cc, λ h. absurd cc)
        | inr new ↦
            rw (here, new)
              (
                λ h. let (a, b) = to h in let (c, d) = split a in ((refl, d), (c, b)),
                λ h. from (join (h.1.0, h.0.1), h.1.1),
              )
      ]

  -- If the key has a value at each of the items, then `unique_by` gives true exactly if no value is
  -- equal to a later one.
  unique_loop_iff :
      (key : Run) (scope : String) (items : List Json) (ks : List EvalValue)
      → ValuesAt key scope items ks
      → (unique_loop f op children current key scope [] items ≡ flag true) ↔ AllDifferent ks
  unique_loop_iff key scope items ks v =
      let (to, from) = loop_iff key scope [] items ks v in
      (λ h. (to h).1, λ h. from (none_seen ks, h))
    where
      none_seen : (ks : List EvalValue) → New [] ks
      none_seen [] = tt
      none_seen (k ∷ ks) = (refl, none_seen ks)
