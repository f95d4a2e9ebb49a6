-- ===== src/HashMap/Laws.antt =====
-- What `get` returns after each operation on a map, and what the operations keep.
use aira_graphdb.Base.{
  All, suc, true, none, some, [], ◌∷◌, ◌≡◌, refl, arith, if◌then◌else◌, Eq, ap, length, Bool-cases,
  inl, inr,
}
use mathlib.Core.Path.{subst₂}
use aira_graphdb.HashMap.{HashMap, get, insert, remove, values, map_values, IsUnique, AllEntries}

pub beq_refl {ℓ} : {K : Type ℓ} ⦃e : Eq K⦄ (k : K) → e.beq k k ≡ true
beq_refl ⦃e⦄ k = (e.beq_iff k k).1 refl

module _ {ℓ κ} {K : Type ℓ} {V : Type κ} ⦃e : Eq K⦄ where
  pub get-insert :
      (k j : K) (v : V) (m : HashMap K V)
      → get j (insert k v m) ≡ (if e.beq k j then some v else get j m)
  unfolding get insert
  get-insert k j v [] = refl
  get-insert k j v ((i, w) ∷ m) =
      ground (arith, e.beq_iff k j, e.beq_iff i k, e.beq_iff i j, get-insert k j v m)

  pub get-remove :
      (k j : K) (m : HashMap K V) → get j (remove k m) ≡ (if e.beq k j then none else get j m)
  unfolding get remove
  get-remove k j [] = ground arith
  get-remove k j ((i, w) ∷ m) =
      ground (arith, e.beq_iff k j, e.beq_iff i k, e.beq_iff i j, get-remove k j m)

  pub get-insert_self : (k : K) (v : V) (m : HashMap K V) → get k (insert k v m) ≡ some v
  get-insert_self k v m = ground (arith, get-insert k k v m, beq_refl k)

  pub get-remove_self : (k : K) (m : HashMap K V) → get k (remove k m) ≡ none
  get-remove_self k m = ground (arith, get-remove k k m, beq_refl k)

  pub IsUnique-insert : (k : K) (v : V) (m : HashMap K V) → IsUnique m → IsUnique (insert k v m)
  unfolding insert get
  IsUnique-insert k v [] u = (refl, tt)
  IsUnique-insert k v ((j, w) ∷ m) u = elim (Bool-cases (e.beq j k)) [
    | inl same ↦ rw same (ground (arith, e.beq_iff j k), u.1)
    | inr other ↦ rw other (
      ground (arith, get-insert k j v m, e.beq_iff j k, e.beq_iff k j),
      IsUnique-insert k v m u.1,
    )
  ]

  pub IsUnique-remove : (k : K) (m : HashMap K V) → IsUnique m → IsUnique (remove k m)
  unfolding remove
  IsUnique-remove k [] u = tt
  IsUnique-remove k ((j, w) ∷ m) u = elim (Bool-cases (e.beq j k)) [
    | inl same ↦ rw same (IsUnique-remove k m u.1)
    | inr other ↦ rw other (ground (arith, get-remove k j m), IsUnique-remove k m u.1)
  ]

  -- A key that is not there is removed without effect.
  pub remove_absent : (k : K) (m : HashMap K V) → get k m ≡ none → remove k m ≡ m
  unfolding get remove
  remove_absent k [] h = refl
  remove_absent k ((j, w) ∷ m) h = ground (arith, remove_absent k m)

  pub length-insert_new :
      (k : K) (v : V) (m : HashMap K V) → get k m ≡ none → length (insert k v m) ≡ suc (length m)
  unfolding get insert
  length-insert_new k v [] h = refl
  length-insert_new k v ((j, w) ∷ m) h = ground (arith, length-insert_new k v m)

  pub length-insert_old :
      (k : K) (v w : V) (m : HashMap K V) → get k m ≡ some w → length (insert k v m) ≡ length m
  unfolding get insert
  length-insert_old k v w [] h = ground arith
  length-insert_old k v w ((j, u) ∷ m) h = ground (arith, length-insert_old k v w m)

  pub length-remove :
      (k : K) (v : V) (m : HashMap K V)
      → IsUnique m
      → get k m ≡ some v
      → suc (length (remove k m)) ≡ length m
  unfolding get remove
  length-remove k v [] u h = ground arith
  length-remove k v ((j, w) ∷ m) u h = elim (Bool-cases (e.beq j k)) [
    | inl same ↦ rw same (
        ap (λ (l : HashMap K V). suc (length l))
          (remove_absent k m (ground (arith, e.beq_iff j k))))
    | inr other ↦ rw other (ap suc (length-remove k v m u.1 (ground arith)))
  ]

  pub get-map_values :
      (f : V → V) (k : K) (m : HashMap K V)
      → get k (map_values f m) ≡ elim (get k m) [ none ↦ none | some v ↦ some (f v) ]
  unfolding get map_values
  get-map_values f k [] = refl
  get-map_values f k ((j, w) ∷ m) = ground (arith, get-map_values f k m)

  pub IsUnique-map_values : (f : V → V) (m : HashMap K V) → IsUnique m → IsUnique (map_values f m)
  unfolding map_values
  IsUnique-map_values f [] u = tt
  IsUnique-map_values f ((k, w) ∷ m) u =
      (ground (arith, get-map_values f k m), IsUnique-map_values f m u.1)

module _ {ℓ κ μ} {K : Type ℓ} {V : Type κ} ⦃e : Eq K⦄ (P : K → V → Type μ) where
  pub AllEntries-insert :
      (k : K) (v : V) (m : HashMap K V) → P k v → AllEntries P m → AllEntries P (insert k v m)
  unfolding insert
  AllEntries-insert k v [] p h = (p, tt)
  AllEntries-insert k v ((j, w) ∷ m) p h = elim (Bool-cases (e.beq j k)) [
    | inl same ↦ rw same (p, h.1)
    | inr other ↦ rw other (h.0, AllEntries-insert k v m p h.1)
  ]

  pub AllEntries-remove : (k : K) (m : HashMap K V) → AllEntries P m → AllEntries P (remove k m)
  unfolding remove
  AllEntries-remove k [] h = tt
  AllEntries-remove k ((j, w) ∷ m) h = elim (Bool-cases (e.beq j k)) [
    | inl same ↦ rw same (AllEntries-remove k m h.1)
    | inr other ↦ rw other (h.0, AllEntries-remove k m h.1)
  ]

  pub AllEntries-get : (k : K) (v : V) (m : HashMap K V) → AllEntries P m → get k m ≡ some v → P k v
  unfolding get
  AllEntries-get k v [] h p = cc
  AllEntries-get k v ((j, w) ∷ m) h p = elim (Bool-cases (e.beq j k)) [
    | inl same ↦ subst₂ P ((e.beq_iff j k).0 same) (ground arith) h.0
    | inr other ↦ AllEntries-get k v m h.1 (ground arith)
  ]

module _ {ℓ κ} {K : Type ℓ} {V : Type κ} ⦃e : Eq K⦄ where
  -- Under distinct keys an entry that stands in the map is what `get` finds.
  pub get_tail :
      (k j : K) (v w : V) (m : HashMap K V)
      → IsUnique ((j, w) ∷ m)
      → get k m ≡ some v
      → get k ((j, w) ∷ m) ≡ some v
  unfolding get
  get_tail k j v w m u h = ground (arith, e.beq_iff j k)

  -- Under distinct keys each value is what `get` finds at a key.
  pub All-values {ν} :
      (P : V → Type ν) (m : HashMap K V)
      → IsUnique m
      → ((k : K) (v : V) → get k m ≡ some v → P v)
      → All P (values m)
  unfolding get values
  All-values P [] u h = tt
  All-values P ((j, w) ∷ m) u h = (
    h j w (ground (arith, beq_refl j)),
    All-values P m u.1 (λ k v g. h k v (get_tail k j v w m u g)),
  )

module _ {ℓ κ μ ν} {K : Type ℓ} {V : Type κ} (P : K → V → Type μ) (Q : K → V → Type ν) (f : V → V)
    (step : (k : K) (v : V) → P k v → Q k (f v)) where
  pub AllEntries-map_values : (m : HashMap K V) → AllEntries P m → AllEntries Q (map_values f m)
  unfolding map_values
  AllEntries-map_values [] h = tt
  AllEntries-map_values ((k, v) ∷ m) h = (step k v h.0, AllEntries-map_values m h.1)
