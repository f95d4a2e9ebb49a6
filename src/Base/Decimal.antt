-- ===== src/Base/Decimal.antt =====
-- `to_string` of an unsigned integer, as `format!("{}", n)` prints it, with the fact that
-- different numbers print differently.
use Prim.Native.Nat.{ℕ, zero, suc, ◌+◌, ◌-◌, ◌*◌, ◌/◌, ◌%◌, ◌<◌, ◌≤◌}
use Prim.Native.Char.{Char, code}
use Prim.Native.String.{String, [], ◌∷◌, ◌++◌}
use mathlib.Core.Path.{◌≡◌, refl, sym, ap, ◌∙◌}
use native.Mathlib.Omega.{arith}
use text.Mathlib.TextLemmas.{append_cancel_left}
use mathlib.Core.Logic.{inl, inr}
use aira_graphdb.Base.Tests.{ltb, if◌then◌else◌, Bool-cases}

abbrev digit : ℕ → Char
digit zero = "0"
digit (suc zero) = "1"
digit (suc (suc zero)) = "2"
digit (suc (suc (suc zero))) = "3"
digit (suc (suc (suc (suc zero)))) = "4"
digit (suc (suc (suc (suc (suc zero))))) = "5"
digit (suc (suc (suc (suc (suc (suc zero)))))) = "6"
digit (suc (suc (suc (suc (suc (suc (suc zero))))))) = "7"
digit (suc (suc (suc (suc (suc (suc (suc (suc zero)))))))) = "8"
digit _ = "9"

-- Puts the digits of `n` in front of `out`. Each round divides `n` by ten, so that more fuel
-- than `n` is enough.
digits : ℕ → ℕ → String → String
digits zero n out = out
digits (suc fuel) n out =
    let rest = digits fuel (n / 10) (digit (n % 10) ∷ out) in
    if ltb n 10 then digit n ∷ out else rest

unfoldable pub to_string : ℕ → String
unfolding digits
to_string n = digits (suc n) n []

value : ℕ → String → ℕ
value n [] = n
value n (c ∷ s) = value (n * 10 + (code c - 48)) s

code-digit : (d : ℕ) → d < 10 → code (digit d) ≡ 48 + d
code-digit zero h = refl
code-digit (suc zero) h = refl
code-digit (suc (suc zero)) h = refl
code-digit (suc (suc (suc zero))) h = refl
code-digit (suc (suc (suc (suc zero)))) h = refl
code-digit (suc (suc (suc (suc (suc zero))))) h = refl
code-digit (suc (suc (suc (suc (suc (suc zero)))))) h = refl
code-digit (suc (suc (suc (suc (suc (suc (suc zero))))))) h = refl
code-digit (suc (suc (suc (suc (suc (suc (suc (suc zero)))))))) h = refl
code-digit (suc (suc (suc (suc (suc (suc (suc (suc (suc zero))))))))) h = refl
code-digit (suc (suc (suc (suc (suc (suc (suc (suc (suc (suc n)))))))))) h = absurd (omega arith)

-- A reader of digits that goes on from a number gives back a number that was printed.
module _ {ℓ} {A : Type ℓ} (read : ℕ → String → A)
    (step : (n : ℕ) (c : Char) (s : String)
      → 48 ≤ code c
      → code c ≤ 57
      → read n (c ∷ s) ≡ read (n * 10 + (code c - 48)) s) where
  read-digit : (n d m : ℕ) (s : String) → d < 10 → n * 10 + d ≡ m → read n (digit d ∷ s) ≡ read m s
  read-digit n d m s h e =
      step n (digit d) s (omega (arith, code-digit d h)) (omega (arith, code-digit d h))
      ∙ ap (λ k. read k s) (omega (arith, code-digit d h))

  read-digits : (fuel n : ℕ) (out : String) → n < fuel → read 0 (digits fuel n out) ≡ read n out
  unfolding digits
  read-digits zero n out h = absurd (omega arith)
  read-digits (suc fuel) n out h = elim (Bool-cases (ltb n 10)) [
    | inl small ↦ rw small (read-digit 0 n n out (ground arith) (omega arith))
    | inr large ↦ rw large (
        read-digits fuel (n / 10) (digit (n % 10) ∷ out) (ground arith)
        ∙ read-digit (n / 10) (n % 10) n out (omega arith) (omega arith))
  ]

  pub read-to_string : (n : ℕ) → read 0 (to_string n) ≡ read n []
  unfolding to_string
  read-to_string n = read-digits (suc n) n [] (omega arith)

-- Reading the print of a number gives it back.
value-to_string : (n : ℕ) → value 0 (to_string n) ≡ n
unfolding value
value-to_string n = read-to_string value (λ n c s low high. refl) n

pub to_string_inj : (m n : ℕ) → to_string m ≡ to_string n → m ≡ n
to_string_inj m n h = sym (value-to_string m) ∙ ap (value 0) h ∙ value-to_string n

-- A number behind a fixed prefix, as `format!("n{}", seq)`.
pub prefix-to_string_inj : (p : String) (m n : ℕ) → p ++ to_string m ≡ p ++ to_string n → m ≡ n
prefix-to_string_inj p m n h =
    to_string_inj m n (append_cancel_left p (to_string m) (to_string n) h)

-- The digits are there: the first one, and what stands behind it.
first_digit :
    (fuel n : ℕ) (out : String)
    → n < fuel
    → (d : ℕ) × ((s : String) × ((d < 10) × (digits fuel n out ≡ digit d ∷ s)))
unfolding digits
first_digit zero n out h = absurd (omega arith)
first_digit (suc fuel) n out h = elim (Bool-cases (ltb n 10)) [
  | inl small ↦ (n, (out, (ground (arith, small), rw (small, digits) refl)))
  | inr large ↦
      let (d, (s, (bound, same))) =
        first_digit fuel (n / 10) (digit (n % 10) ∷ out) (ground arith) in
      (d, (s, (bound, rw (large, digits) same)))
]

pub to_string-digit :
    (n : ℕ)
    → (c : Char) × ((s : String) × ((48 ≤ code c) × ((code c ≤ 57) × (to_string n ≡ c ∷ s))))
unfolding to_string
to_string-digit n =
    let (d, (s, (bound, same))) = first_digit (suc n) n [] (omega arith) in
    (digit d, (s, (omega (arith, code-digit d bound), (omega (arith, code-digit d bound), same))))
