-- ===== src/Query/Distinct.antt =====
-- `UNION` without `ALL` keeps, of what the branches return, one of those that are the same.
use aira_graphdb.Base.{
  ◌≡◌, Bool, true, false, List, [], ◌∷◌, arith, refl, Bool-cases, inl, inr, ◌⊎◌, All, any,
  retain_new, string_eq, eq_iff, ◌↔◌,
}
use aira_graphdb.Graph.{GraphNode, Value, value_eq}
use aira_graphdb.Query.Merge.{same_node, same_row}

-- Two nodes are the same if they have one id.
abbrev pub SameNode : GraphNode → GraphNode → Type 0
SameNode a b = a.id ≡ b.id

-- Two rows are the same if they are equal in every column.
unfoldable pub SameRow : List Value → List Value → Type 0
SameRow [] [] = Unit
SameRow (v ∷ vs) (w ∷ ws) = (value_eq v w ≡ true) × SameRow vs ws
SameRow _ _ = true ≡ false

same_node_iff : (a b : GraphNode) → (same_node a b ≡ true) ↔ SameNode a b
same_node_iff a b = eq_iff a.id b.id

same_row_iff : (v w : List Value) → (same_row v w ≡ true) ↔ SameRow v w
unfolding same_row SameRow
same_row_iff [] [] = (λ h. tt, λ h. refl)
same_row_iff [] (w ∷ ws) = (λ h. absurd cc, λ h. absurd cc)
same_row_iff (v ∷ vs) [] = (λ h. absurd cc, λ h. absurd cc)
same_row_iff (v ∷ vs) (w ∷ ws) = ground (arith, same_row_iff vs ws)

All-map :
    {A : Type 0} {P Q : A → Type 0} (f : (a : A) → P a → Q a) (xs : List A) → All P xs → All Q xs
All-map f [] h = tt
All-map f (x ∷ xs) (p, h) = (f x p, All-map f xs h)

module _ {A : Type 0} (Same : A → A → Type 0) where
  -- Items that are some of others, in their order.
  unfoldable pub IsPart : List A → List A → Type 0
  IsPart [] xs = Unit
  IsPart (y ∷ ys) [] = true ≡ false
  IsPart (y ∷ ys) (x ∷ xs) = ((y ≡ x) × IsPart ys xs) ⊎ IsPart (y ∷ ys) xs

  -- No item is the same as one before it.
  unfoldable pub AreApart : List A → Type 0
  AreApart [] = Unit
  AreApart (x ∷ xs) = All (λ y. Same y x → true ≡ false) xs × AreApart xs

  -- The item itself stands there, or one that is the same.
  unfoldable pub Stands : A → List A → Type 0
  Stands x [] = true ≡ false
  Stands x (y ∷ ys) = ((x ≡ y) ⊎ Same x y) ⊎ Stands x ys

  -- What is kept of items: some of them, in their order, no two the same, and for each of them itself
  -- or one that is the same.
  pub record IsDistinctOf (items kept : List A) : Type 0 where
    pub part : IsPart kept items
    pub apart : AreApart kept
    pub covered : All (λ x. Stands x kept) items

  module _ (same : A → A → Bool) (same_iff : (x y : A) → (same x y ≡ true) ↔ Same x y) where
    -- What is kept of items behind others that were seen.
    record IsKept (seen items kept : List A) : Type 0 where
      part : IsPart kept items
      apart : AreApart kept
      unseen : All (λ y. any (same y) seen ≡ false) kept
      covered : All (λ x. Stands x kept ⊎ (any (same x) seen ≡ true)) items

    not_first :
        (x : A) (seen kept : List A)
        → All (λ y. any (same y) (x ∷ seen) ≡ false) kept
        → All (λ y. Same y x → true ≡ false) kept
    not_first x seen kept =
        All-map (λ y h s. let e = (same_iff y x).1 s in ground (arith, h, e)) kept

    still_unseen :
        (x : A) (seen kept : List A)
        → All (λ y. any (same y) (x ∷ seen) ≡ false) kept
        → All (λ y. any (same y) seen ≡ false) kept
    still_unseen x seen kept = All-map (λ y h. ground (arith, h)) kept

    covered_by_first :
        (x : A) (seen kept : List A) (y : A)
        → Stands y kept ⊎ (any (same y) (x ∷ seen) ≡ true)
        → Stands y (x ∷ kept) ⊎ (any (same y) seen ≡ true)
    unfolding Stands
    covered_by_first x seen kept y (inl there) = inl (inr there)
    covered_by_first x seen kept y (inr old) = elim (Bool-cases (same y x)) [
      | inl e ↦ inl (inl (inr ((same_iff y x).0 e)))
      | inr e ↦ inr (ground (arith, old, e))
    ]

    retain_new-IsKept : (seen items : List A) → IsKept seen items (retain_new same seen items)
    unfolding retain_new IsPart AreApart Stands
    retain_new-IsKept seen [] = record { part = tt; apart = tt; unseen = tt; covered = tt }
    retain_new-IsKept seen (x ∷ xs) = elim (Bool-cases (any (same x) seen)) [
      | inl old ↦
          let rest = retain_new-IsKept seen xs in
          rw (old, retain_new)
            (record {
              part = skip x (retain_new same seen xs) xs rest.part;
              apart = rest.apart;
              unseen = rest.unseen;
              covered = (inr old, rest.covered);
            })
      | inr fresh ↦
          let kept = retain_new same (x ∷ seen) xs in
          let rest = retain_new-IsKept (x ∷ seen) xs in
          rw (fresh, retain_new)
            (record {
              part = inl (refl, rest.part);
              apart = (not_first x seen kept rest.unseen, rest.apart);
              unseen = (fresh, still_unseen x seen kept rest.unseen);
              covered =
                  (inl (inl (inl refl)), All-map (covered_by_first x seen kept) xs rest.covered);
            })
    ]
      where
        skip : (x : A) (ys xs : List A) → IsPart ys xs → IsPart ys (x ∷ xs)
        skip x [] xs h = tt
        skip x (y ∷ ys) xs h = inr h

    retain_new-IsDistinctOf : (items : List A) → IsDistinctOf items (retain_new same [] items)
    retain_new-IsDistinctOf items =
        let kept = retain_new-IsKept [] items in
        record {
          part = kept.part;
          apart = kept.apart;
          covered =
              All-map
                (λ x h. elim h [ inl there ↦ there | inr none ↦ absurd (ground (arith, none)) ])
                items kept.covered;
        }

pub nodes-IsDistinctOf :
    (nodes : List GraphNode) → IsDistinctOf SameNode nodes (retain_new same_node [] nodes)
nodes-IsDistinctOf = retain_new-IsDistinctOf SameNode same_node same_node_iff

pub rows-IsDistinctOf :
    (rows : List (List Value)) → IsDistinctOf SameRow rows (retain_new same_row [] rows)
rows-IsDistinctOf = retain_new-IsDistinctOf SameRow same_row same_row_iff
