-- ===== src/Io/Utf8.antt =====
-- `String::from_utf8`, `str::lines`, `str::trim` over code points: the standard library's
-- decoding of UTF-8 by the ranges of the Unicode standard's table 3-7.
use aira_graphdb.Base.{
  ℕ, zero, suc, ◌+◌, ◌-◌, ◌*◌, Bool, false, ◌&&◌, ◌||◌, Option, none, some, List, [], ◌∷◌, leb,
  nat_eq, if◌then◌else◌, all, filter, not, ◌≡◌, refl,
}

-- How many bytes of a character are still to come, the range of the next one, the bits so far.
pub record Pending : Type 0 where
  pub need : ℕ
  pub low : ℕ
  pub high : ℕ
  pub bits : ℕ

abbrev pub idle : Pending
idle = record { need = 0; low = 0x80; high = 0xBF; bits = 0 }

abbrev between : ℕ → ℕ → ℕ → Bool
between lo hi b = leb lo b && leb b hi

abbrev pending : ℕ → ℕ → ℕ → ℕ → Pending
pending need low high bits = record { need = need; low = low; high = high; bits = bits }

-- The first byte of a character: the state behind it, and the character if it is complete.
lead : ℕ → Option (Pending × Option ℕ)
lead b =
    if leb b 0x7F
    then some (idle, some b)
    else if between 0xC2 0xDF b
    then some (pending 1 0x80 0xBF (b - 0xC0), none)
    else if nat_eq b 0xE0
    then some (pending 2 0xA0 0xBF 0, none)
    else if nat_eq b 0xED
    then some (pending 2 0x80 0x9F 0xD, none)
    else if between 0xE1 0xEF b
    then some (pending 2 0x80 0xBF (b - 0xE0), none)
    else if nat_eq b 0xF0
    then some (pending 3 0x90 0xBF 0, none)
    else if between 0xF1 0xF3 b
    then some (pending 3 0x80 0xBF (b - 0xF0), none)
    else if nat_eq b 0xF4
    then some (pending 3 0x80 0x8F 4, none)
    else none

-- A later byte of a character.
follow : ℕ → Pending → ℕ → Option (Pending × Option ℕ)
follow more p b =
    let bits = p.bits * 64 + (b - 0x80) in
    if between p.low p.high b
    then (if nat_eq more 0
        then some (idle, some bits)
        else some (pending more 0x80 0xBF bits, none))
    else none

take_byte : ℕ → Pending → ℕ → Option (Pending × Option ℕ)
unfolding lead follow
take_byte zero p b = lead b
take_byte (suc more) p b = follow more p b

emit : Option ℕ → Option (List ℕ) → Option (List ℕ)
emit c none = none
emit none (some out) = some out
emit (some c) (some out) = some (c ∷ out)

decode : Pending → List ℕ → Option (List ℕ)
unfolding take_byte emit
decode p [] = if nat_eq p.need 0 then some [] else none
decode p (b ∷ bytes) = elim (take_byte p.need p b) [
  | none ↦ none
  | some (q, c) ↦ emit c (decode q bytes)
]

-- `String::from_utf8`: the code points, or `none` where the bytes are no UTF-8
unfoldable pub from_utf8 : List ℕ → Option (List ℕ)
unfolding decode
from_utf8 bytes = decode idle bytes

-- `char::is_whitespace`
unfoldable pub is_whitespace : ℕ → Bool
is_whitespace c =
    nat_eq c 0x20
    || between 0x09 0x0D c
    || nat_eq c 0x85
    || nat_eq c 0xA0
    || nat_eq c 0x1680
    || between 0x2000 0x200A c
    || nat_eq c 0x2028
    || nat_eq c 0x2029
    || nat_eq c 0x202F
    || nat_eq c 0x205F
    || nat_eq c 0x3000

-- `line.trim().is_empty()`
unfoldable pub is_blank : List ℕ → Bool
unfolding is_whitespace
is_blank line = all is_whitespace line

-- `c` in front of a first line; no line stands behind the last line feed.
cons_line : ℕ → List (List ℕ) → List (List ℕ)
cons_line c [] = (c ∷ []) ∷ []
cons_line c (l ∷ ls) = (c ∷ l) ∷ ls

starts_lf : List ℕ → Bool
starts_lf [] = false
starts_lf (c ∷ s) = nat_eq c 10

-- `str::lines`: a carriage return before a line feed belongs to the end of the line.
unfoldable pub lines : List ℕ → List (List ℕ)
unfolding cons_line starts_lf
lines [] = []
lines (c ∷ s) =
    let rest = lines s in
    if nat_eq c 10 then [] ∷ rest else if nat_eq c 13 && starts_lf s then rest else cons_line c rest

-- `raw.lines().filter(|line| !line.trim().is_empty())`
unfoldable pub filled_lines : List ℕ → List (List ℕ)
unfolding lines is_blank
filled_lines s = filter (λ l. not (is_blank l)) (lines s)

lines_test :
    filled_lines (0x61 ∷ 13 ∷ 10 ∷ 32 ∷ 10 ∷ 10 ∷ 0x62 ∷ []) ≡ (0x61 ∷ []) ∷ (0x62 ∷ []) ∷ []
unfolding filled_lines
lines_test = refl

utf8_test :
    (from_utf8 (0xE2 ∷ 0x82 ∷ 0xAC ∷ 0x41 ∷ []) ≡ some (0x20AC ∷ 0x41 ∷ []))
    × (from_utf8 (0xC0 ∷ 0x80 ∷ []) ≡ none)
    × (from_utf8 (0xE2 ∷ 0x82 ∷ []) ≡ none)
unfolding from_utf8
utf8_test = (refl, refl, refl)
