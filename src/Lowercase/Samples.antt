-- ===== src/Lowercase/Samples.antt =====
-- Lower casing with a small table: the letters A, Σ and ς, and an accent that is ignored.
use aira_graphdb.Base.{ℕ, suc, ◌≡◌, refl, Option, none, some, [], ◌∷◌, arith}
use aira_graphdb.Lowercase.{Tables, lowercase, lowercase_bounded}
use aira_graphdb.Lowercase.Whole.{lowered, within, lowercase_bounded_lem}

abbrev small : Tables
small = record {
  mappings = (0x41, 0x61 ∷ []) ∷ (0x3A3, 0x3C3 ∷ []) ∷ [];
  cased = (0x41, 0x41) ∷ (0x61, 0x61) ∷ (0x3A3, 0x3A3) ∷ [];
  case_ignorable = (0x301, 0x301) ∷ [];
}

inside_word :
    lowercase small (0x41 ∷ 0x3A3 ∷ 0x301 ∷ 0x41 ∷ []) ≡ some (0x61 ∷ 0x3C3 ∷ 0x301 ∷ 0x61 ∷ [])
unfolding lowercase
inside_word = refl

end_of_word : lowercase small (0x41 ∷ 0x3A3 ∷ 0x301 ∷ []) ≡ some (0x61 ∷ 0x3C2 ∷ 0x301 ∷ [])
unfolding lowercase
end_of_word = refl

abbrev counting : ℕ → Option ⊥ × ℕ
counting n = (none, suc n)

lowercase_bounded_lem_example :
    (lowercase_bounded counting small 3 (0x41 ∷ 0x3A3 ∷ []) 0).0
    ≡ within 3 (lowered small [] (0x41 ∷ 0x3A3 ∷ []))
lowercase_bounded_lem_example =
    lowercase_bounded_lem counting small (λ n. refl) 3 (omega arith) (0x41 ∷ 0x3A3 ∷ []) 0
