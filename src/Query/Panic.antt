-- ===== src/Query/Panic.antt =====
-- Where a character that is not ASCII stands outside of quotes and brackets, the walk for `UNION` slices
-- the text inside of this character, and the thread panics.
use Prim.Native.Char.{Char, code}
use Prim.Native.String.{◌++◌}
use Prim.Native.String.append
use aira_graphdb.Base.{
  ℕ, ◌≤◌, ◌<◌, ◌≡◌, zero, suc, String, Bool, true, false, not, ◌&&◌, arith, refl, Bool-cases, ◌⊎◌,
  inl, inr, if◌then◌else◌, nat_eq, leb,
}
use aira_graphdb.Graph.{InMemoryGraphStore}
use aira_graphdb.Str.{take, trim, is, starts_with_upper, contains_upper}
use aira_graphdb.Query.{F64, CypherDialect, panics}
use aira_graphdb.Query.Union.{
  split_panics, text, Walk, stop, go, read_char, new_depth, keyword_at, walk_outside, walk_text,
  walk_step, walk, split_top_level_union,
}
use aira_graphdb.Query.Dispatch.{execute_body, execute_query_with_dialect}
use aira_graphdb.Query.Fuel.{execute_query_equation}

-- Whether the text ends outside of quotes and brackets.
unfoldable pub ends_outside : Bool → ℕ → String → Bool
ends_outside quoted depth String.[] = not quoted && nat_eq depth 0
ends_outside quoted depth (String.◌∷◌ c s) =
    let toggled = ends_outside (not quoted) depth s in
    let inside = ends_outside quoted depth s in
    let outside = ends_outside quoted (new_depth c depth) s in
    if is b'\'' c then toggled else if quoted then inside else outside

starts_with_upper-take :
    (n : ℕ) (s p : String) → starts_with_upper s p ≡ true → starts_with_upper s (take n p) ≡ true
unfolding starts_with_upper take
starts_with_upper-take zero s p h = refl
starts_with_upper-take (suc n) s String.[] h = refl
starts_with_upper-take (suc n) String.[] (String.◌∷◌ d p) h = absurd (ground arith)
starts_with_upper-take (suc n) (String.◌∷◌ c s) (String.◌∷◌ d p) h =
    ground (arith, starts_with_upper-take n s p)

all_ascii : String → Bool
all_ascii String.[] = true
all_ascii (String.◌∷◌ c s) = not (leb 128 (code c)) && all_ascii s

-- A pattern of ASCII characters does not reach over a character that is none.
starts_with_upper-append :
    (s t p : String) (c : Char)
    → 128 ≤ code c
    → all_ascii p ≡ true
    → starts_with_upper (s ++ (String.◌∷◌ c t)) p ≡ true
    → starts_with_upper s p ≡ true
unfolding starts_with_upper all_ascii
starts_with_upper-append s t String.[] c big ascii h = refl
starts_with_upper-append String.[] t (String.◌∷◌ d p) c big ascii h =
    absurd (ground (arith, rw (append.nil (String.◌∷◌ c t)) at h))
starts_with_upper-append (String.◌∷◌ b s) t (String.◌∷◌ d p) c big ascii h =
    ground (arith, rw (append.cons b s (String.◌∷◌ c t)) at h, starts_with_upper-append s t p c big)

starts_with_upper_free : (s p : String) → contains_upper s p ≡ false → starts_with_upper s p ≡ false
unfolding contains_upper
starts_with_upper_free String.[] p h = h
starts_with_upper_free (String.◌∷◌ c s) p h = ground arith

-- No keyword stands where the text before the character has none.
no_union :
    (s t : String) (c : Char)
    → 128 ≤ code c
    → contains_upper s "UNION" ≡ false
    → starts_with_upper (s ++ (String.◌∷◌ c t)) "UNION" ≡ false
unfolding all_ascii
no_union s t c big free = elim (Bool-cases (starts_with_upper (s ++ (String.◌∷◌ c t)) "UNION")) [
  | inr other ↦ other
  | inl there ↦ absurd (
      ground (
        arith,
        starts_with_upper_free s "UNION" free,
        starts_with_upper-append s t "UNION" c big refl there,
      ))
]

no_union_all :
    (s : String) → starts_with_upper s "UNION" ≡ false → starts_with_upper s "UNION ALL" ≡ false
unfolding take
no_union_all s h = elim (Bool-cases (starts_with_upper s "UNION ALL")) [
  | inr other ↦ other
  | inl there ↦ absurd (ground (arith, h, starts_with_upper-take 5 s "UNION ALL" there))
]

keyword_at_free :
    (w : Walk) (rest name : String) (n : ℕ)
    → starts_with_upper rest name ≡ false
    → keyword_at w rest name n ≡ false
unfolding keyword_at
keyword_at_free w rest name n h = ground arith

-- A step outside of quotes, at a place where no keyword stands.
walk_outside_free :
    (w : Walk) (c : Char) (s : String)
    → starts_with_upper (String.◌∷◌ c s) "UNION" ≡ false
    → (walk_outside w c s ≡ stop split_panics) ⊎ (walk_outside w c s ≡ go (read_char c w))
unfolding walk_outside
walk_outside_free w c s h =
    let rest : String = String.◌∷◌ c s in
    let no_all = keyword_at_free w rest "UNION ALL" 9 (no_union_all rest h) in
    let no_keyword = keyword_at_free w rest "UNION" 5 h in
    elim (Bool-cases (not (nat_eq w.depth 0))) [
      | inl deep ↦ inr (rw (deep, walk_outside) refl)
      | inr flat ↦ elim (Bool-cases (leb 128 (code c))) [
        | inl wide ↦ inl (rw (flat, no_all, no_keyword, wide, walk_outside) refl)
        | inr narrow ↦ inr (rw (flat, no_all, no_keyword, narrow, walk_outside) refl)
      ]
    ]

wide_is : (n : ℕ) (c : Char) → 128 ≤ code c → n < 128 → is n c ≡ false
wide_is n c big small = ground arith

wide_depth : (c : Char) (depth : ℕ) → 128 ≤ code c → new_depth c depth ≡ depth
wide_depth c depth big = ground arith

-- The step at the character itself
walk_text_wide :
    (w : Walk) (c : Char) (t : String)
    → 128 ≤ code c
    → ends_outside w.quoted w.depth String.[] ≡ true
    → walk_text w c t ≡ stop split_panics
unfolding walk_text walk_outside ends_outside contains_upper
walk_text_wide w c t big outside =
    let free : starts_with_upper (String.◌∷◌ c t) "UNION" ≡ false =
      rw (append.nil (String.◌∷◌ c t)) at (no_union String.[] t c big refl) in
    let w' : Walk = record w { depth = new_depth c w.depth } in
    let no_all =
      keyword_at_free w' (String.◌∷◌ c t) "UNION ALL" 9 (no_union_all (String.◌∷◌ c t) free) in
    let no_keyword = keyword_at_free w' (String.◌∷◌ c t) "UNION" 5 free in
    let unquoted : w.quoted ≡ false = ground arith in
    let flat : not (nat_eq w.depth 0) ≡ false = ground arith in
    let wide : leb 128 (code c) ≡ true = ground arith in
    rw
      (
        wide_is b'\'' c big (omega arith),
        unquoted,
        walk_text,
        no_all,
        no_keyword,
        walk_outside,
        wide_depth c w.depth big,
        flat,
        wide,
      )
      refl

-- The walk over a text without the keyword comes to the character that is not ASCII, or panics before.
walk_panics :
    (w : Walk) (s t : String) (c : Char)
    → 128 ≤ code c
    → contains_upper s "UNION" ≡ false
    → ends_outside w.quoted w.depth s ≡ true
    → w.reading ≡ text
    → walk w (s ++ (String.◌∷◌ c t)) ≡ split_panics
unfolding walk walk_step ends_outside contains_upper
walk_panics w String.[] t c big free outside reading =
    rw (append.nil (String.◌∷◌ c t), walk, reading, walk_text_wide w c t big outside) refl
walk_panics w (String.◌∷◌ b s) t c big free outside reading =
    let rest : String = s ++ (String.◌∷◌ c t) in
    let free' : contains_upper s "UNION" ≡ false = ground arith in
    let w₀ : Walk = record w { reading = text } in
    let w₁ : Walk = record w₀ { quoted = false; depth = new_depth b w.depth } in
    let no_keyword : starts_with_upper (String.◌∷◌ b rest) "UNION" ≡ false =
      rw (append.cons b s (String.◌∷◌ c t)) at (no_union (String.◌∷◌ b s) t c big free) in
    rw (append.cons b s (String.◌∷◌ c t), walk, reading)
      (elim (Bool-cases (is b'\'' b)) [
        | inl quote ↦
            rw (quote, walk_text)
              (walk_panics (read_char b (record w₀ { quoted = not w.quoted })) s t c big free'
                (rw (quote, ends_outside) at outside) refl)
        | inr other ↦ elim (Bool-cases w.quoted) [
          | inl inside ↦
              rw (other, inside, walk_text)
                (walk_panics (read_char b (record w₀ { quoted = true })) s t c big free'
                  (rw (other, inside, ends_outside) at outside) refl)
          | inr outer ↦ elim (walk_outside_free w₁ b rest no_keyword) [
            | inl panicked ↦ rw (other, outer, walk_text, panicked) refl
            | inr went ↦
                rw (other, outer, walk_text, went)
                  (walk_panics (read_char b w₁) s t c big free'
                    (rw (other, outer, ends_outside) at outside) refl)
          ]
        ]
      ])

pub split_top_level_union_panics :
    (s t : String) (c : Char)
    → 128 ≤ code c
    → contains_upper s "UNION" ≡ false
    → ends_outside false 0 s ≡ true
    → split_top_level_union (s ++ (String.◌∷◌ c t)) ≡ split_panics
unfolding split_top_level_union
split_top_level_union_panics s t c big free outside = walk_panics _ s t c big free outside refl

-- A query that has, outside of quotes and brackets, a character that is not ASCII with no `UNION`
-- before it panics in the standard dialect, and the graph stays.
pub execute_query_panics :
    (f : F64) (store : InMemoryGraphStore) (query s t : String) (c : Char)
    → trim query ≡ s ++ (String.◌∷◌ c t)
    → 128 ≤ code c
    → contains_upper s "UNION" ≡ false
    → ends_outside false 0 s ≡ true
    → execute_query_with_dialect f store query CypherDialect.open_cypher9 ≡ (panics, store)
unfolding execute_body
execute_query_panics f store query s t c cut big free outside =
    rw
      (
        execute_query_equation f CypherDialect.open_cypher9 query store,
        cut,
        execute_body,
        split_top_level_union_panics s t c big free outside,
      )
      refl
