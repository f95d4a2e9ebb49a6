-- ===== src/Base/Text.antt =====
-- The order of texts, `str::cmp`: it is total and transitive as a test.
use Prim.Native.Nat.{Ordering}
use Prim.Native.String.{String, compare}
use Prim.Native.String.compare
use mathlib.Core.Path.{◌≡◌}
use mathlib.Core.Bool.{Bool, true, false}
use native.Mathlib.Omega.{arith}

-- `a.cmp(b)`, as the test that `a` does not come behind `b`.
abbrev pub str_le : String → String → Bool
str_le a b = elim (compare a b) [ Ordering.gt ↦ false | _ ↦ true ]

pub str_le_total : (a b : String) → str_le a b ≡ false → str_le b a ≡ true
str_le_total String.[] String.[] h = ground (arith, compare.nil-nil)
str_le_total String.[] (String.◌∷◌ d t) h = ground (arith, compare.nil-cons d t)
str_le_total (String.◌∷◌ c s) String.[] h = ground (arith, compare.nil-cons c s)
str_le_total (String.◌∷◌ c s) (String.◌∷◌ d t) h =
    ground (arith, compare.cons-cons c d s t, compare.cons-cons d c t s, str_le_total s t)

pub str_le_trans : (a b c : String) → str_le a b ≡ true → str_le b c ≡ true → str_le a c ≡ true
str_le_trans String.[] b String.[] h k = ground (arith, compare.nil-nil)
str_le_trans String.[] b (String.◌∷◌ e u) h k = ground (arith, compare.nil-cons e u)
str_le_trans (String.◌∷◌ c s) String.[] u h k = ground (arith, compare.cons-nil c s)
str_le_trans (String.◌∷◌ c s) (String.◌∷◌ d t) String.[] h k = ground (arith, compare.cons-nil d t)
str_le_trans (String.◌∷◌ c s) (String.◌∷◌ d t) (String.◌∷◌ e u) h k = ground (
  arith,
  compare.cons-cons c d s t,
  compare.cons-cons d e t u,
  compare.cons-cons c e s u,
  str_le_trans s t u,
)
