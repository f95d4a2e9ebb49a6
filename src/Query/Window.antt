-- ===== src/Query/Window.antt =====
-- `SKIP` and `LIMIT` give a window of the rows.
use Prim.Native.Nat.{min}
use aira_graphdb.Base.{
  ℕ, ◌≡◌, ◌≤◌, ◌-◌, zero, suc, String, Option, some, none, List, [], ◌∷◌, ◌++◌, arith, refl, sym,
  ap, ◌∙◌, length, take, drop, leb, Bool-cases, inl, inr,
}
use aira_graphdb.Errors.{ok}
use aira_graphdb.Graph.{GraphNode}
use aira_graphdb.Query.Shorter.{bind_ok}
use aira_graphdb.Query.Modifiers.{
  ReturnModifiers, parse_return_modifiers, skip_items, limit_items, apply_return_modifiers,
}

-- The numbers of a window: what it skips, and the most that it holds.
abbrev pub skip_count : Option ℕ → ℕ
skip_count none = 0
skip_count (some n) = n

abbrev pub limited : Option ℕ → ℕ → ℕ
limited none n = n
limited (some limit) n = min limit n

module _ {ℓ} {A : Type ℓ} where
  drop_lem : (n : ℕ) (xs : List A) → length (drop n xs) ≡ length xs - n
  drop_lem zero xs = omega arith
  drop_lem (suc n) [] = omega arith
  drop_lem (suc n) (x ∷ xs) = omega (arith, drop_lem n xs)

  take-drop : (n : ℕ) (xs : List A) → take n xs ++ drop n xs ≡ xs
  take-drop zero xs = refl
  take-drop (suc n) [] = refl
  take-drop (suc n) (x ∷ xs) = rw (take-drop n xs) refl

  append_nil : (xs : List A) → xs ++ [] ≡ xs
  append_nil [] = refl
  append_nil (x ∷ xs) = rw (append_nil xs) refl

  drop_all : (n : ℕ) (xs : List A) → length xs ≤ n → drop n xs ≡ []
  drop_all zero [] h = refl
  drop_all zero (x ∷ xs) h = absurd (omega arith)
  drop_all (suc n) [] h = refl
  drop_all (suc n) (x ∷ xs) h = drop_all n xs (omega arith)

  length-take : (n : ℕ) (xs : List A) → length (take n xs) ≡ min n (length xs)
  length-take zero xs = ground arith
  length-take (suc n) [] = ground arith
  length-take (suc n) (x ∷ xs) = ground (arith, length-take n xs)

  skip_items_lem : (skip : Option ℕ) (xs : List A) → skip_items skip xs ≡ drop (skip_count skip) xs
  unfolding skip_items
  skip_items_lem none xs = refl
  skip_items_lem (some n) xs = elim (Bool-cases (leb (length xs) n)) [
    | inl past ↦ rw past (sym (drop_all n xs (ground arith)))
    | inr within ↦ rw within refl
  ]

  -- A list is a window between what is skipped and what is cut off.
  pub record IsWindow (skip limit : Option ℕ) (xs window : List A) : Type ℓ where
    pub before : List A
    pub after : List A
    pub parts : xs ≡ before ++ (window ++ after)
    pub length_before : length before ≡ min (skip_count skip) (length xs)
    pub length_window : length window ≡ limited limit (length xs - skip_count skip)

  window_lem :
      (skip limit : Option ℕ) (xs : List A)
      → IsWindow skip limit xs (limit_items limit (skip_items skip xs))
  unfolding limit_items
  window_lem skip none xs = rw (skip_items_lem skip xs) (record {
    before = take (skip_count skip) xs;
    after = [];
    parts = rw (append_nil (drop (skip_count skip) xs), take-drop (skip_count skip) xs) refl;
    length_before = length-take (skip_count skip) xs;
    length_window = drop_lem (skip_count skip) xs;
  })
  window_lem skip (some n) xs = rw (skip_items_lem skip xs) (record {
    before = take (skip_count skip) xs;
    after = drop n (drop (skip_count skip) xs);
    parts = rw (take-drop n (drop (skip_count skip) xs), take-drop (skip_count skip) xs) refl;
    length_before = length-take (skip_count skip) xs;
    length_window =
        length-take n (drop (skip_count skip) xs)
        ∙ ap (λ k. min n k) (drop_lem (skip_count skip) xs);
  })

-- What is left of the nodes is a window of them: `SKIP` nodes, or all if there are fewer, stand
-- before it, and it has all the others up to `LIMIT` of them.
pub apply_return_modifiers_lem :
    (nodes out : List GraphNode) (query : String)
    → apply_return_modifiers nodes query ≡ ok out
    → (m : ReturnModifiers) × ((parse_return_modifiers query ≡ ok m)
        × IsWindow m.skip m.limit nodes out)
unfolding apply_return_modifiers
apply_return_modifiers_lem nodes out query h =
    let (m, parsed, same) = bind_ok (parse_return_modifiers query) _ _ h in
    let cut : limit_items m.limit (skip_items m.skip nodes) ≡ out = ground arith in
    (m, (parsed, rw (← cut) (window_lem m.skip m.limit nodes)))
