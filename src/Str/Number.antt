-- ===== src/Str/Number.antt =====
-- `parse::<i64>` and `parse::<usize>`: a sign, then digits, within the range of the type.
use Prim.Native.Char.{Char, code}
use aira_graphdb.Base.{
  ℕ, zero, suc, ◌+◌, ◌-◌, ◌*◌, ◌^◌, String, Bool, ◌&&◌, Option, none, some, leb, ltb, u64_mod,
  if◌then◌else◌,
}
use aira_graphdb.Graph.{ℤ, pos, negsuc}
use aira_graphdb.Str.{is}

abbrev pub is_digit : Char → Bool
is_digit c = leb b'0' (code c) && leb (code c) b'9'

-- The digits behind a number that was read before.
unfoldable pub digits_from : ℕ → String → Option ℕ
digits_from n String.[] = some n
digits_from n (String.◌∷◌ c s) =
    let rest = digits_from (n * 10 + (code c - b'0')) s in if is_digit c then rest else none

-- At least one digit.
unfoldable pub digits : String → Option ℕ
unfolding digits_from
digits String.[] = none
digits (String.◌∷◌ c s) = digits_from 0 (String.◌∷◌ c s)

-- Behind a `+` that may stand in front
abbrev pub unsigned : String → Option ℕ
unsigned String.[] = none
unsigned (String.◌∷◌ c s) = if is b'+' c then digits s else digits (String.◌∷◌ c s)

abbrev pub below : ℕ → Option ℕ → Option ℕ
below limit none = none
below limit (some n) = if ltb n limit then some n else none

unfoldable pub parse_usize : String → Option ℕ
unfolding digits
parse_usize s = below u64_mod (unsigned s)

abbrev pub negated : Option ℕ → Option ℤ
negated none = none
negated (some zero) = some (pos 0)
negated (some (suc n)) = if ltb n (2 ^ 63) then some (negsuc n) else none

abbrev pub positive : Option ℕ → Option ℤ
positive none = none
positive (some n) = some (pos n)

unfoldable pub parse_i64 : String → Option ℤ
unfolding digits
parse_i64 String.[] = none
parse_i64 (String.◌∷◌ c s) =
    if is b'-' c then negated (digits s) else positive (below (2 ^ 63) (unsigned (String.◌∷◌ c s)))
