-- ===== src/Lowercase/Whole.antt =====
-- With checkpoints that never fail: the whole text is lowered, and the bound only decides whether the
-- result is given.
use aira_graphdb.Base.{
  ℕ, ◌+◌, ◌≤◌, ◌<◌, ◌≡◌, Bool, false, not, ◌&&◌, ◌||◌, Option, none, some, List, [], ◌∷◌, ◌++◌,
  arith, refl, Bool-cases, inl, inr, leb, ltb, nat_eq, u64_mod, if◌then◌else◌,
}
use aira_graphdb.Lowercase.{
  Tables, in_ranges, LowercaseError, Bounded, done, failed, len_utf8, utf8_length, capital_sigma,
  mapped, push_all, and_then, first_cased_checked, is_final_sigma_checked, final_sigma_checked,
  collect, lower_loop, lowercase_bounded,
}

-- Whether the first scalar that is not to be ignored is cased.
pub first_cased : Tables → List ℕ → Bool
first_cased t [] = false
first_cased t (value ∷ values) =
    let rest = first_cased t values in
    if in_ranges value t.case_ignorable then rest else in_ranges value t.cased

-- A sigma behind a cased scalar and not before one, but for those to be ignored.
abbrev pub is_final_sigma : Tables → ℕ → List ℕ → List ℕ → Bool
is_final_sigma t value before after =
    nat_eq value capital_sigma && (first_cased t before && not (first_cased t after))

-- The lower case of the scalars behind `before`, whose last one comes first.
pub lowered : Tables → List ℕ → List ℕ → List ℕ
lowered t before [] = []
lowered t before (value ∷ after) =
    mapped t value (is_final_sigma t value before after) ++ lowered t (value ∷ before) after

append_assoc {ℓ} : {A : Type ℓ} (xs ys zs : List A) → (xs ++ ys) ++ zs ≡ xs ++ (ys ++ zs)
append_assoc [] ys zs = refl
append_assoc (x ∷ xs) ys zs = rw (append_assoc xs ys zs) refl

append_nil {ℓ} : {A : Type ℓ} (xs : List A) → xs ++ [] ≡ xs
append_nil [] = refl
append_nil (x ∷ xs) = rw (append_nil xs) refl

utf8_length-append : (xs ys : List ℕ) → utf8_length (xs ++ ys) ≡ utf8_length xs + utf8_length ys
utf8_length-append [] ys = omega arith
utf8_length-append (x ∷ xs) ys = omega (arith, utf8_length-append xs ys)

module _ (max : ℕ) (bounded : max < u64_mod) where
  push_all_lem :
      (values output : List ℕ)
      → utf8_length output ≤ max
      → push_all max values output
        ≡ (if leb (utf8_length (output ++ values)) max then some (output ++ values) else none)
  unfolding push_all
  push_all_lem [] output h = rw (append_nil output) (ground arith)
  push_all_lem (value ∷ values) output h =
      elim (Bool-cases (
        leb u64_mod (utf8_length output + len_utf8 value)
        || ltb max (utf8_length output + len_utf8 value))) [
          | inl over ↦
              rw (over, push_all) (ground (arith, over, utf8_length-append output (value ∷ values)))
          | inr fits ↦
              rw
                (
                  fits,
                  push_all,
                  push_all_lem values (output ++ (value ∷ []))
                      (ground (arith, fits, utf8_length-append output (value ∷ []))),
                  append_assoc output (value ∷ []) values,
                )
                refl
        ]

-- The result, or the error if it is too long.
abbrev pub within : {E : Type 0} → ℕ → List ℕ → Bounded E (List ℕ)
within max output =
    if leb (utf8_length output) max then done output else failed LowercaseError.resource

module _ {S E : Type 0} (checkpoint : S → Option E × S) (t : Tables)
    (never : (s : S) → (checkpoint s).0 ≡ none) where
  first_cased_lem :
      (values : List ℕ) (s : S)
      → (end : S) × (first_cased_checked checkpoint t values s ≡ (done (first_cased t values), end))
  unfolding first_cased_checked first_cased
  first_cased_lem [] s = (s, refl)
  first_cased_lem (value ∷ values) s = elim (Bool-cases (in_ranges value t.case_ignorable)) [
    | inl ignored ↦
        let (end, rest) = first_cased_lem values (checkpoint s).1 in
        (end, rw (first_cased_checked, never s, ignored, rest) refl)
    | inr counts ↦ ((checkpoint s).1, rw (first_cased_checked, never s, counts) refl)
  ]

  is_final_sigma_lem :
      (before after : List ℕ) (s : S)
      → (end : S) × (is_final_sigma_checked checkpoint t before after s
          ≡ (done (first_cased t before && not (first_cased t after)), end))
  unfolding is_final_sigma_checked
  is_final_sigma_lem before after s =
      let (s', first) = first_cased_lem before s in
      let (end, second) = first_cased_lem after s' in
      elim (Bool-cases (first_cased t before)) [
        | inl cased ↦ (end, rw (is_final_sigma_checked, first, cased, second) refl)
        | inr uncased ↦ (s', rw (is_final_sigma_checked, first, uncased) refl)
      ]

  final_sigma_lem :
      (value : ℕ) (before after : List ℕ) (s : S)
      → (end : S) × (final_sigma_checked checkpoint t value before after s
          ≡ (done (is_final_sigma t value before after), end))
  final_sigma_lem value before after s =
      let (end, same) = is_final_sigma_lem before after s in
      elim (Bool-cases (nat_eq value capital_sigma)) [
        | inl sigma ↦ (end, rw (sigma, same) refl)
        | inr other ↦ (s, rw other refl)
      ]

  collect_lem :
      (values : List ℕ) (s : S) → (end : S) × (collect checkpoint values s ≡ (done tt, end))
  unfolding collect
  collect_lem [] s = (s, refl)
  collect_lem (value ∷ values) s =
      let (end, rest) = collect_lem values (checkpoint s).1 in
      (end, rw (collect, never s, rest) refl)

  module _ (max : ℕ) (bounded : max < u64_mod) where
    lower_loop_lem :
        (before after output : List ℕ) (s : S)
        → utf8_length output ≤ max
        → (lower_loop checkpoint t max before after output s).0
          ≡ within max (output ++ lowered t before after)
    unfolding lower_loop lowered
    lower_loop_lem before [] output s h = rw (lower_loop, append_nil output) (ground arith)
    lower_loop_lem before (value ∷ after) output s h =
        let (s', sigma) = final_sigma_lem value before after (checkpoint s).1 in
        let values = mapped t value (is_final_sigma t value before after) in
        let rest = lowered t (value ∷ before) after in
        elim (Bool-cases (leb (utf8_length (output ++ values)) max)) [
          | inl fits ↦
              rw
                (
                  lower_loop,
                  never s,
                  sigma,
                  and_then,
                  push_all_lem max bounded values output h,
                  fits,
                  ← append_assoc output values rest,
                )
                (lower_loop_lem (value ∷ before) after (output ++ values) s' (ground (arith, fits)))
          | inr over ↦
              rw
                (
                  lower_loop,
                  never s,
                  sigma,
                  and_then,
                  push_all_lem max bounded values output h,
                  over,
                )
                (ground (
                  arith,
                  over,
                  utf8_length-append output values,
                  utf8_length-append values rest,
                  utf8_length-append output (values ++ rest),
                ))
        ]

    -- With checkpoints that never fail and a bound below that of a `usize`: the result is the text
    -- in which each scalar is replaced by its mapping, but a sigma by the final one where it stands
    -- behind a cased scalar and not before one, those to be ignored left out; if this text is
    -- longer than the bound, the error says so.
    pub lowercase_bounded_lem :
        (value : List ℕ) (s : S)
        → (lowercase_bounded checkpoint t max value s).0 ≡ within max (lowered t [] value)
    unfolding lowercase_bounded
    lowercase_bounded_lem value s =
        let (s', collected) = collect_lem value s in
        rw (lowercase_bounded, collected, and_then) (lower_loop_lem [] value [] s' (omega arith))
