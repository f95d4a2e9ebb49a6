-- ===== src/Str/Trim.antt =====
-- `trim` of a trimmed text changes nothing.
use Prim.Native.Char.{Char}
use aira_graphdb.Base.{String, false, ◌&&◌, ◌≡◌, ◌⊎◌, refl, arith, Bool-cases, inl, inr}
use aira_graphdb.Str.{is_empty, whitespace, trim_start, trim_end, trim}

trim_end_idem : (s : String) → trim_end (trim_end s) ≡ trim_end s
unfolding trim_end
trim_end_idem String.[] = refl
trim_end_idem (String.◌∷◌ c s) = elim (Bool-cases (is_empty (trim_end s) && whitespace c)) [
  | inl gone ↦ rw (gone, trim_end) refl
  | inr kept ↦ rw (kept, trim_end, trim_end_idem s, kept) refl
]

-- What begins with no space stays in front.
front :
    (c : Char) (s : String)
    → whitespace c ≡ false
    → trim_end (String.◌∷◌ c s) ≡ String.◌∷◌ c (trim_end s)
unfolding trim_end
front c s h = ground arith

trim_start-cases :
    (s : String)
    → (trim_start s ≡ String.[])
      ⊎ ((c : Char) × ((rest : String) × ((trim_start s ≡ String.◌∷◌ c rest)
              × (whitespace c ≡ false))))
unfolding trim_start
trim_start-cases String.[] = inl refl
trim_start-cases (String.◌∷◌ c s) = elim (Bool-cases (whitespace c)) [
  | inl space ↦ rw (space, trim_start) (trim_start-cases s)
  | inr other ↦ inr (c, (s, (rw (other, trim_start) refl, other)))
]

stays :
    (c : Char) (s : String) → whitespace c ≡ false → trim_start (String.◌∷◌ c s) ≡ String.◌∷◌ c s
unfolding trim_start
stays c s h = ground arith

pub trim_idem : (s : String) → trim (trim s) ≡ trim s
unfolding trim
trim_idem s = elim (trim_start-cases s) [
  | inl empty ↦ rw empty refl
  | inr (c, (rest, (cut, black))) ↦
      rw
        (
          cut,
          front c rest black,
          stays c (trim_end rest) black,
          front c (trim_end rest) black,
          trim_end_idem rest,
        )
        refl
]
