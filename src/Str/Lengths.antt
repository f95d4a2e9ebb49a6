-- ===== src/Str/Lengths.antt =====
-- What the methods of `str` leave of the length of a text.
use Prim.Native.String.{◌++◌}
use Prim.Native.String.append
use aira_graphdb.Base.{
  ℕ, zero, suc, ◌+◌, ◌-◌, ◌≤◌, ◌≡◌, String, some, true, arith, Option-cases, Bool-cases, inl, inr,
}
use aira_graphdb.Str.{
  length, take, drop, strip_prefix, starts_with, find, trim_start, trim_end, trim,
}

pub length-append : (s t : String) → length (s ++ t) ≡ length s + length t
unfolding length
length-append String.[] t = ground (arith, append.nil t)
length-append (String.◌∷◌ c s) t = ground (arith, append.cons c s t, length-append s t)

pub length-take : (n : ℕ) (s : String) → length (take n s) ≤ length s
unfolding take length
length-take zero s = omega arith
length-take (suc n) String.[] = omega arith
length-take (suc n) (String.◌∷◌ c s) = omega (arith, length-take n s)

pub length-take_le : (n : ℕ) (s : String) → length (take n s) ≤ n
unfolding take length
length-take_le zero s = omega arith
length-take_le (suc n) String.[] = omega arith
length-take_le (suc n) (String.◌∷◌ c s) = omega (arith, length-take_le n s)

pub length-drop : (n : ℕ) (s : String) → length (drop n s) ≡ length s - n
unfolding drop length
length-drop zero s = omega arith
length-drop (suc n) String.[] = omega arith
length-drop (suc n) (String.◌∷◌ c s) = omega (arith, length-drop n s)

pub length-trim_start : (s : String) → length (trim_start s) ≤ length s
unfolding trim_start length
length-trim_start String.[] = omega arith
length-trim_start (String.◌∷◌ c s) = ground (arith, length-trim_start s)

pub length-trim_end : (s : String) → length (trim_end s) ≤ length s
unfolding trim_end length
length-trim_end String.[] = omega arith
length-trim_end (String.◌∷◌ c s) = ground (arith, length-trim_end s)

pub length-trim : (s : String) → length (trim s) ≤ length s
unfolding trim
length-trim s = omega (arith, length-trim_end (trim_start s), length-trim_start s)

pub length-strip_prefix :
    (s p t : String) → strip_prefix s p ≡ some t → length t + length p ≡ length s
unfolding strip_prefix length
length-strip_prefix s String.[] t h = ground arith
length-strip_prefix String.[] (String.◌∷◌ d p) t h = ground arith
length-strip_prefix (String.◌∷◌ c s) (String.◌∷◌ d p) t h =
    ground (arith, length-strip_prefix s p t)

length-starts_with : (s p : String) → starts_with s p ≡ true → length p ≤ length s
unfolding starts_with
length-starts_with s p h = elim (Option-cases (strip_prefix s p)) [
  | inl none_left ↦ absurd (ground (arith, rw none_left at h))
  | inr (t, found) ↦ omega (arith, length-strip_prefix s p t found)
]

-- The pattern stands within the text.
pub length-find : (s p : String) (n : ℕ) → find s p ≡ some n → n + length p ≤ length s
unfolding find length
length-find String.[] p n h = ground (arith, length-starts_with String.[] p)
length-find (String.◌∷◌ c s) p n h = elim (Bool-cases (starts_with (String.◌∷◌ c s) p)) [
  | inl here ↦ ground (arith, rw here at h, length-starts_with (String.◌∷◌ c s) p here)
  | inr later ↦ elim (Option-cases (find s p)) [
    | inl nowhere ↦ absurd (ground (arith, rw (later, nowhere) at h))
    | inr (m, found) ↦ ground (arith, rw (later, found) at h, length-find s p m found)
  ]
]
