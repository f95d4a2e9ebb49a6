-- ===== src/Base/Sort.antt =====
-- `slice::sort_by`: a stable sort by a comparison. The standard library's result is determined
-- by stability, so the sort is written as insertion.
use mathlib.Core.Path.{◌≡◌}
use mathlib.Core.Logic.{inl, inr}
use mathlib.Core.Bool.{Bool, true, false}
use mathlib.Core.List.{List, [], ◌∷◌, Perm}
use mathlib.Core.List.Perm
use aira_graphdb.Base.Tests.{if◌then◌else◌, Bool-cases}
use aira_graphdb.Base.Lists.{All}

module _ {ℓ} {A : Type ℓ} (le : A → A → Bool) where
  -- Before the first item that is not smaller, so that equal items keep their order.
  insert_by : A → List A → List A
  insert_by a [] = a ∷ []
  insert_by a (x ∷ xs) = let rest = insert_by a xs in if le a x then a ∷ x ∷ xs else x ∷ rest

  unfoldable pub sort_by : List A → List A
  unfolding insert_by
  sort_by [] = []
  sort_by (x ∷ xs) = insert_by x (sort_by xs)

  -- Each item is in order with all that stand behind it.
  abbrev pub IsSorted : List A → Type ℓ
  IsSorted [] = Unit
  IsSorted (x ∷ xs) = All (λ y. le x y ≡ true) xs × IsSorted xs

  insert_by-perm : (a : A) (xs : List A) → Perm (insert_by a xs) (a ∷ xs)
  unfolding insert_by
  insert_by-perm a [] = Perm.refl (a ∷ [])
  insert_by-perm a (x ∷ xs) = elim (Bool-cases (le a x)) [
    | inl before ↦ rw before (Perm.refl (a ∷ x ∷ xs))
    | inr behind ↦ rw behind (Perm.trans (Perm.cons x (insert_by-perm a xs)) (Perm.swap a x xs))
  ]

  -- Sorting loses and adds nothing.
  pub sort_by-perm : (xs : List A) → Perm (sort_by xs) xs
  unfolding sort_by
  sort_by-perm [] = Perm.refl []
  sort_by-perm (x ∷ xs) = Perm.trans (insert_by-perm x (sort_by xs)) (Perm.cons x (sort_by-perm xs))

  All-insert_by {κ} :
      (P : A → Type κ) (a : A) (xs : List A) → P a → All P xs → All P (insert_by a xs)
  unfolding insert_by
  All-insert_by P a [] pa h = (pa, tt)
  All-insert_by P a (x ∷ xs) pa h = elim (Bool-cases (le a x)) [
    | inl before ↦ rw before (pa, h)
    | inr behind ↦ rw behind (h.0, All-insert_by P a xs pa h.1)
  ]

  pub All-sort_by {κ} : (P : A → Type κ) (xs : List A) → All P xs → All P (sort_by xs)
  unfolding sort_by
  All-sort_by P [] h = tt
  All-sort_by P (x ∷ xs) (px, h) = All-insert_by P x (sort_by xs) px (All-sort_by P xs h)

module _ {ℓ} {A : Type ℓ} (le : A → A → Bool)
    (le_total : (a b : A) → le a b ≡ false → le b a ≡ true)
    (le_trans : (a b c : A) → le a b ≡ true → le b c ≡ true → le a c ≡ true) where
  All-le_trans :
      (a b : A) (xs : List A)
      → le a b ≡ true
      → All (λ y. le b y ≡ true) xs
      → All (λ y. le a y ≡ true) xs
  All-le_trans a b [] h hs = tt
  All-le_trans a b (x ∷ xs) h hs = (le_trans a b x h hs.0, All-le_trans a b xs h hs.1)

  insert_by-IsSorted : (a : A) (xs : List A) → IsSorted le xs → IsSorted le (insert_by le a xs)
  unfolding insert_by
  insert_by-IsSorted a [] s = (tt, tt)
  insert_by-IsSorted a (x ∷ xs) s = elim (Bool-cases (le a x)) [
    | inl before ↦ rw before ((before, All-le_trans a x xs before s.0), s)
    | inr behind ↦ rw behind (
      All-insert_by le (λ y. le x y ≡ true) a xs (le_total a x behind) s.0,
      insert_by-IsSorted a xs s.1,
    )
  ]

  pub sort_by-IsSorted : (xs : List A) → IsSorted le (sort_by le xs)
  unfolding sort_by
  sort_by-IsSorted [] = tt
  sort_by-IsSorted (x ∷ xs) = insert_by-IsSorted x (sort_by le xs) (sort_by-IsSorted xs)
