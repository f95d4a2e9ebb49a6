-- ===== src/Retrieval/Segments.antt =====
-- The segments of a pointer that are no wildcard as they are written are none when they are decoded.
use Prim.Native.Char.{Char, code}
use aira_graphdb.Base.{
  not_both, ℕ, String, false, ◌≡◌, ◌==◌, string_eq, eq_iff, Option, none, some, ◌⊎◌, Bool-cases,
  inl, inr, refl, sym, ap, ◌∙◌, arith,
}
use aira_graphdb.Str.{is}
use aira_graphdb.Retrieval.Pointer.{json_pointer_segment, unescape, prepend}

some_injective {ℓ} : {A : Type ℓ} {a b : A} → some a ≡ some b → a ≡ b
some_injective h = cc

prepended :
    (c : Char) (o : Option String) (r : String)
    → prepend c o ≡ some r
    → (t : String) × ((o ≡ some t) × (String.◌∷◌ c t ≡ r))
prepended c (some t) r h = (t, (refl, some_injective h))
prepended c none r h = absurd cc

-- What stands behind an escape
unescaped :
    (s r : String)
    → unescape s ≡ some r
    → (t : String) × ((String.◌∷◌ "~" t ≡ r) ⊎ (String.◌∷◌ "/" t ≡ r))
unfolding json_pointer_segment
unescaped String.[] r h = absurd cc
unescaped (String.◌∷◌ c s) r h = elim (Bool-cases (is b'0' c)) [
  | inl is_zero ↦
      let (t, (_, same)) = prepended "~" (json_pointer_segment s) r (rw is_zero at h) in
      (t, inl same)
  | inr other ↦
      let h1 = rw other at h in
      elim (Bool-cases (is b'1' c)) [
        | inl is_one ↦
            let (t, (_, same)) = prepended "/" (json_pointer_segment s) r (rw is_one at h1) in
            (t, inr same)
        | inr neither ↦ let h2 = rw neither at h1 in absurd cc
      ]
]

-- The two ways in which a segment begins
segment_cases :
    (c : Char) (s r : String)
    → json_pointer_segment (String.◌∷◌ c s) ≡ some r
    → ((t : String) × ((String.◌∷◌ "~" t ≡ r) ⊎ (String.◌∷◌ "/" t ≡ r)))
      ⊎ ((t : String) × ((json_pointer_segment s ≡ some t) × (String.◌∷◌ c t ≡ r)))
unfolding json_pointer_segment
segment_cases c s r h = elim (Bool-cases (is b'~' c)) [
  | inl escaped ↦ inl (unescaped s r (rw escaped at h))
  | inr plain ↦ inr (prepended c (json_pointer_segment s) r (rw plain at h))
]

decoded_empty : (s : String) → json_pointer_segment s ≡ some "" → s ≡ ""
decoded_empty String.[] h = refl
decoded_empty (String.◌∷◌ c s) h = elim (segment_cases c s "" h) [
  | inl (t, inl same) ↦ absurd cc
  | inl (t, inr same) ↦ absurd cc
  | inr (t, (_, same)) ↦ absurd cc
]

abbrev head_code : String → ℕ
head_code String.[] = 0
head_code (String.◌∷◌ c s) = code c

abbrev tail : String → String
tail String.[] = ""
tail (String.◌∷◌ c s) = s

decoded_star : (raw : String) → json_pointer_segment raw ≡ some "*" → raw ≡ "*"
decoded_star String.[] h =
    unfold json_pointer_segment in absurd (omega (arith, ap head_code (some_injective h)))
decoded_star (String.◌∷◌ c s) h = elim (segment_cases c s "*" h) [
  | inl (t, inl same) ↦ absurd (omega (arith, ap head_code same))
  | inl (t, inr same) ↦ absurd (omega (arith, ap head_code same))
  | inr (t, (rest, same)) ↦
      let is_empty_rest = rest ∙ ap some (ap tail same) in
      ap (String.◌∷◌ c) (decoded_empty s is_empty_rest ∙ sym (ap tail same)) ∙ same
]

-- A segment that is not a wildcard is none when it is decoded.
pub plain_segment :
    (raw segment : String)
    → json_pointer_segment raw ≡ some segment
    → (raw == "*") ≡ false
    → (segment == "*") ≡ false
plain_segment raw segment h plain = elim (Bool-cases (segment == "*")) [
  | inr other ↦ other
  | inl wild ↦
      let is_star = (eq_iff segment "*").0 wild in
      let raw_star = (eq_iff raw "*").1 (decoded_star raw (h ∙ ap some is_star)) in
      absurd (not_both _ raw_star plain)
]
