-- ===== src/Str.antt =====
-- The methods of `str` that the program calls. An index counts characters, where Rust counts bytes:
-- the indices are only compared with one another and used to cut the text where they were found, and
-- `length` of the ASCII patterns is the same in both.
pub mod Number
pub mod Lengths
pub mod Trim
use Prim.Native.Char.{Char, code}
use aira_graphdb.Base.{
  ℕ, zero, suc, ◌+◌, ◌-◌, String, Bool, true, false, not, ◌&&◌, ◌||◌, Option, none, some, List, [],
  ◌∷◌, filter, leb, nat_eq, if◌then◌else◌,
}
use aira_graphdb.Io.Utf8.{is_whitespace}

unfoldable pub whitespace : Char → Bool
unfolding is_whitespace
whitespace c = is_whitespace (code c)

-- The character with that code.
abbrev pub is : ℕ → Char → Bool
is n c = nat_eq (code c) n

abbrev pub is_empty : String → Bool
is_empty String.[] = true
is_empty (String.◌∷◌ c s) = false

unfoldable pub length : String → ℕ
length String.[] = 0
length (String.◌∷◌ c s) = suc (length s)

-- `&s[..n]`
unfoldable pub take : ℕ → String → String
take zero s = String.[]
take (suc n) String.[] = String.[]
take (suc n) (String.◌∷◌ c s) = String.◌∷◌ c (take n s)

-- `&s[n..]`
unfoldable pub drop : ℕ → String → String
drop zero s = s
drop (suc n) String.[] = String.[]
drop (suc n) (String.◌∷◌ c s) = drop n s

unfoldable pub strip_prefix : String → String → Option String
strip_prefix s String.[] = some s
strip_prefix String.[] (String.◌∷◌ d p) = none
strip_prefix (String.◌∷◌ c s) (String.◌∷◌ d p) =
    let rest = strip_prefix s p in if is (code d) c then rest else none

abbrev found : Option String → Bool
found none = false
found (some s) = true

unfoldable pub starts_with : String → String → Bool
unfolding strip_prefix
starts_with s p = found (strip_prefix s p)

-- `find` of a text, as the number of the characters before it
unfoldable pub find : String → String → Option ℕ
unfolding starts_with
find String.[] p = if starts_with String.[] p then some 0 else none
find (String.◌∷◌ c s) p =
    let later = find s p in
    if starts_with (String.◌∷◌ c s) p
    then some 0
    else elim later [ none ↦ none | some n ↦ some (suc n) ]

-- `rfind`: the last place
unfoldable pub rfind : String → String → Option ℕ
unfolding starts_with
rfind String.[] p = if starts_with String.[] p then some 0 else none
rfind (String.◌∷◌ c s) p = elim (rfind s p) [
  | some n ↦ some (suc n)
  | none ↦ if starts_with (String.◌∷◌ c s) p then some 0 else none
]

abbrev found_at : Option ℕ → Bool
found_at none = false
found_at (some n) = true

unfoldable pub contains : String → String → Bool
unfolding find
contains s p = found_at (find s p)

unfoldable pub trim_start : String → String
unfolding whitespace
trim_start String.[] = String.[]
trim_start (String.◌∷◌ c s) =
    let rest = trim_start s in if whitespace c then rest else String.◌∷◌ c s

unfoldable pub trim_end : String → String
unfolding whitespace
trim_end String.[] = String.[]
trim_end (String.◌∷◌ c s) =
    let rest = trim_end s in if is_empty rest && whitespace c then String.[] else String.◌∷◌ c rest

unfoldable pub trim : String → String
unfolding trim_start trim_end
trim s = trim_end (trim_start s)

-- `ends_with` and `strip_suffix` of one character
unfoldable pub strip_suffix : ℕ → String → Option String
strip_suffix n String.[] = none
strip_suffix n (String.◌∷◌ c String.[]) = if is n c then some String.[] else none
strip_suffix n (String.◌∷◌ c (String.◌∷◌ d s)) = elim (strip_suffix n (String.◌∷◌ d s)) [
  | none ↦ none
  | some rest ↦ some (String.◌∷◌ c rest)
]

unfoldable pub ends_with : ℕ → String → Bool
unfolding strip_suffix
ends_with n s = found (strip_suffix n s)

-- `strip_prefix` of one character
unfoldable pub strip_char : ℕ → String → Option String
strip_char n String.[] = none
strip_char n (String.◌∷◌ c s) = if is n c then some s else none

-- `trim_start_matches`: the prefix is taken off as often as it stands there. Each round makes the
-- text shorter, so that fuel of its length is enough.
trim_rounds : ℕ → String → String → String
unfolding strip_prefix
trim_rounds zero s p = s
trim_rounds (suc fuel) s p = elim (strip_prefix s p) [
  | none ↦ s
  | some rest ↦ trim_rounds fuel rest p
]

unfoldable pub trim_start_matches : String → String → String
unfolding trim_rounds length
trim_start_matches s p = trim_rounds (length s) s p

abbrev cons_piece : Char → List String → List String
cons_piece c [] = (String.◌∷◌ c String.[]) ∷ []
cons_piece c (p ∷ ps) = (String.◌∷◌ c p) ∷ ps

-- `split` by a test of characters
unfoldable pub split : (Char → Bool) → String → List String
split p String.[] = String.[] ∷ []
split p (String.◌∷◌ c s) =
    let rest = split p s in if p c then String.[] ∷ rest else cons_piece c rest

unfoldable pub split_whitespace : String → List String
unfolding split whitespace
split_whitespace s = filter (λ w. not (is_empty w)) (split whitespace s)

-- `splitn(2, c)`: the text before the first `c`, and what stands behind it if there is one
unfoldable pub split_once : ℕ → String → String × Option String
split_once n String.[] = (String.[], none)
split_once n (String.◌∷◌ c s) =
    let (before, after) = split_once n s in
    if is n c then (String.[], some s) else (String.◌∷◌ c before, after)

abbrev between : ℕ → ℕ → ℕ → Bool
between a b n = leb a n && leb n b

-- `to_ascii_uppercase` of one character, as its code
abbrev pub upper_code : ℕ → ℕ
upper_code n = if between b'a' b'z' n then n - 32 else n

-- `to_ascii_uppercase().starts_with(p)`, where `p` is in upper case
unfoldable pub starts_with_upper : String → String → Bool
starts_with_upper s String.[] = true
starts_with_upper String.[] (String.◌∷◌ d p) = false
starts_with_upper (String.◌∷◌ c s) (String.◌∷◌ d p) =
    nat_eq (upper_code (code c)) (code d) && starts_with_upper s p

-- `to_ascii_uppercase().contains(p)`
unfoldable pub contains_upper : String → String → Bool
unfolding starts_with_upper
contains_upper String.[] p = starts_with_upper String.[] p
contains_upper (String.◌∷◌ c s) p = starts_with_upper (String.◌∷◌ c s) p || contains_upper s p

-- `to_ascii_uppercase().ends_with(p)`
unfoldable pub ends_with_upper : String → String → Bool
unfolding starts_with_upper length
ends_with_upper String.[] p = starts_with_upper String.[] p
ends_with_upper (String.◌∷◌ c s) p =
    (nat_eq (length (String.◌∷◌ c s)) (length p) && starts_with_upper (String.◌∷◌ c s) p)
    || ends_with_upper s p

-- `eq_ignore_ascii_case` with a text in upper case
unfoldable pub equals_upper : String → String → Bool
unfolding starts_with_upper length
equals_upper s p = nat_eq (length s) (length p) && starts_with_upper s p
