-- ===== src/Query/Integers.antt =====
-- Integers as literals: what is printed is read back, and what is read fits into an `i64`.
use Prim.Native.Char.{Char, code}
use Prim.Native.String.{◌++◌}
use Prim.Native.String.append
use aira_graphdb.Base.{
  ℕ, zero, suc, ◌^◌, ◌<◌, ◌≤◌, ◌≡◌, String, false, Option, some, none, arith, refl, ◌∙◌, ap,
}
use aira_graphdb.Base.Decimal.{to_string, to_string-digit, read-to_string}
use aira_graphdb.Errors.{ok}
use aira_graphdb.Graph.{ℤ, pos, negsuc, Value}
use aira_graphdb.Str.{strip_prefix, starts_with, starts_with_upper, equals_upper}
use aira_graphdb.Str.Number.{digits_from, digits, parse_i64, below, unsigned, negated, positive}
use aira_graphdb.Query.{F64}
use aira_graphdb.Query.Literals.{parse_value, int_literal}
use aira_graphdb.Query.Procedure.{int_text}

-- The range of an `i64`.
abbrev pub IsI64 : ℤ → Type 0
IsI64 (pos n) = n < 2 ^ 63
IsI64 (negsuc n) = n < 2 ^ 63

positive-IsI64 : (o : Option ℕ) (z : ℤ) → positive (below (2 ^ 63) o) ≡ some z → IsI64 z
positive-IsI64 none z h = absurd (ground arith)
positive-IsI64 (some n) (pos m) h = ground arith
positive-IsI64 (some n) (negsuc m) h = absurd (ground arith)

negated-IsI64 : (o : Option ℕ) (z : ℤ) → negated o ≡ some z → IsI64 z
negated-IsI64 none z h = absurd (ground arith)
negated-IsI64 (some zero) (pos m) h = ground arith
negated-IsI64 (some zero) (negsuc m) h = absurd (ground arith)
negated-IsI64 (some (suc n)) (pos m) h = absurd (ground arith)
negated-IsI64 (some (suc n)) (negsuc m) h = ground arith

pub parse_i64-IsI64 : (s : String) (z : ℤ) → parse_i64 s ≡ some z → IsI64 z
unfolding parse_i64
parse_i64-IsI64 String.[] z h = absurd (ground arith)
parse_i64-IsI64 (String.◌∷◌ c s) z h =
    ground (arith, negated-IsI64 (digits s) z, positive-IsI64 (unsigned (String.◌∷◌ c s)) z)

digits-to_string : (n : ℕ) → digits (to_string n) ≡ some n
unfolding digits digits_from
digits-to_string n =
    let (c, (s, (low, (high, same)))) = to_string-digit n in
    rw (same, digits) (rw same at (read-to_string digits_from (λ m d t l h. ground arith) n))

minus : (s : String) → ("-" ++ s) ≡ String.◌∷◌ "-" s
minus s = append.cons "-" String.[] s ∙ ap (λ t. String.◌∷◌ "-" t) (append.nil s)

-- The text of a number begins with a digit or with a minus, before a number in range.
parse_i64-int_text : (z : ℤ) → IsI64 z → parse_i64 (int_text z) ≡ some z
unfolding parse_i64
parse_i64-int_text (pos n) h =
    let (c, (s, (low, (high, same)))) = to_string-digit n in
    let read = rw same at (digits-to_string n) in rw (same, parse_i64) (ground (arith, read))
parse_i64-int_text (negsuc n) h =
    rw (minus (to_string (suc n)), parse_i64, digits-to_string (suc n)) (ground arith)

-- No quoted text and no name of a Boolean begins like this.
no_word :
    (c : Char) (s : String)
    → 45 ≤ code c
    → code c ≤ 57
    → (starts_with (String.◌∷◌ c s) "'" ≡ false)
      × (equals_upper (String.◌∷◌ c s) "TRUE" ≡ false)
      × (equals_upper (String.◌∷◌ c s) "FALSE" ≡ false)
unfolding starts_with strip_prefix equals_upper starts_with_upper
no_word c s low high = (ground arith, ground arith, ground arith)

parse_value_number :
    (f : F64) (c : Char) (s : String) (z : ℤ)
    → 45 ≤ code c
    → code c ≤ 57
    → parse_i64 (String.◌∷◌ c s) ≡ some z
    → parse_value f (String.◌∷◌ c s) ≡ ok (Value.int64 z)
unfolding parse_value
parse_value_number f c s z low high h =
    let (no_quote, no_true, no_false) = no_word c s low high in
    rw (parse_value, no_quote, no_true, no_false, int_literal, h) refl

-- An integer of 64 bits that was printed is read back as a literal.
pub parse_value-int_text :
    (f : F64) (z : ℤ) → IsI64 z → parse_value f (int_text z) ≡ ok (Value.int64 z)
parse_value-int_text f (pos n) h =
    let (c, (s, (low, (high, same)))) = to_string-digit n in
    rw same (
      parse_value_number f c s (pos n) (omega arith) high
        (rw same at (parse_i64-int_text (pos n) h)))
parse_value-int_text f (negsuc n) h = rw (minus (to_string (suc n))) (
    parse_value_number f "-" (to_string (suc n)) (negsuc n) (omega arith) (omega arith)
      (rw (minus (to_string (suc n))) at (parse_i64-int_text (negsuc n) h)))
