-- ===== src/Query/Branches.antt =====
-- The branches of a `UNION` are shorter than the query.
use Prim.Native.Char.{Char}
use aira_graphdb.Base.{
  ℕ, ◌+◌, ◌-◌, ◌≤◌, ◌<◌, ◌≡◌, zero, suc, String, Bool, true, false, not, ◌||◌, Option, some, none,
  List, [], ◌∷◌, arith, refl, Bool-cases, ◌⊎◌, inl, inr, All, if◌then◌else◌,
}
use aira_graphdb.Base
use aira_graphdb.Str.{length, trim, is_empty}
use aira_graphdb.Str.Lengths.{length-append, length-trim}
use aira_graphdb.Query.Union.{
  UnionMode, Reading, text, spaces, keyword, Walk, WalkStep, UnionSplit, single, split_panics,
  branches_of, stop, go, joins_mode, with_tail, read_char, cut_branch, walk_outside, walk_text,
  walk_step, walk_end, walk, split_top_level_union,
}

All-append {ℓ κ} :
    {A : Type ℓ} (P : A → Type κ) (xs ys : List A) → All P xs → All P ys → All P (Base.◌++◌ xs ys)
All-append P [] ys h k = k
All-append P (x ∷ xs) ys (px, h) k = (px, All-append P xs ys h k)

pub WalkStep-cases :
    (r : WalkStep) → ((result : UnionSplit) × (r ≡ stop result)) ⊎ ((w : Walk) × (r ≡ go w))
WalkStep-cases (stop result) = inl (result, refl)
WalkStep-cases (go w) = inr (w, refl)

module _ (total : ℕ) where
  abbrev pub IsShort : List String → Type 0
  IsShort branches = All (λ b. length b < total) branches

  -- `n` characters are still to come: the branches that were cut are short, and with what was read of
  -- the next one they fit into the text.
  pub record Fits (w : Walk) (n : ℕ) : Type 0 where
    pub short : IsShort w.branches
    pub within : length w.part + n ≤ total
    pub strictly : Base.is_empty w.branches ≡ false → length w.part + n < total

  read_char-Fits : (c : Char) (w : Walk) (n : ℕ) → Fits w (suc n) → Fits (read_char c w) n
  unfolding read_char length
  read_char-Fits c w n h = record {
    short = h.short;
    within = omega (arith, h.within, length-append w.part (String.◌∷◌ c String.[]));
    strictly = λ k. omega (arith, h.strictly k, length-append w.part (String.◌∷◌ c String.[]));
  }

  abbrev pub IsShortSplit : UnionSplit → Type 0
  IsShortSplit single = Unit
  IsShortSplit split_panics = Unit
  IsShortSplit (branches_of branches mode) = IsShort branches

  abbrev StepFits : WalkStep → ℕ → Type 0
  StepFits (stop result) n = IsShortSplit result
  StepFits (go w) n = Fits w n

  cut_branch-Fits :
      (w : Walk) (mode : UnionMode) (k n : ℕ) → Fits w (suc n) → StepFits (cut_branch w mode k) n
  unfolding cut_branch length
  cut_branch-Fits w mode k n h =
      elim (Bool-cases (is_empty (trim w.part) || not (joins_mode w.mode mode))) [
        | inl refused ↦ rw (refused, cut_branch) tt
        | inr cut ↦
            rw (cut, cut_branch)
              (record {
                short =
                    All-append _ w.branches (trim w.part ∷ []) h.short
                      (omega (arith, length-trim w.part, h.within), tt);
                within = omega (arith, h.within);
                strictly = λ e. omega (arith, h.within);
              })
      ]

  if-Fits :
      (b : Bool) (x y : WalkStep) (n : ℕ)
      → StepFits x n
      → StepFits y n
      → StepFits (if b then x else y) n
  if-Fits true x y n h k = h
  if-Fits false x y n h k = k

  walk_outside-Fits :
      (w : Walk) (c : Char) (s : String)
      → Fits w (suc (length s))
      → StepFits (walk_outside w c s) (length s)
  unfolding walk_outside
  walk_outside-Fits w c s h = search (if-Fits, read_char-Fits, cut_branch-Fits)

  -- What does not touch the branches.
  same-Fits :
      (w w' : Walk) (n : ℕ) → w'.part ≡ w.part → w'.branches ≡ w.branches → Fits w n → Fits w' n
  same-Fits w w' n p b h = record {
    short = rw b h.short;
    within = rw p h.within;
    strictly = λ e. rw p (h.strictly (rw b at e));
  }

  walk_text-Fits :
      (w : Walk) (c : Char) (s : String)
      → Fits w (suc (length s))
      → StepFits (walk_text w c s) (length s)
  unfolding walk_text
  walk_text-Fits w c s h =
      search (if-Fits, read_char-Fits, walk_outside-Fits, same-Fits w _ _ refl refl h)

  -- The character is passed over.
  skip-Fits :
      (w w' : Walk) (n : ℕ)
      → w'.part ≡ w.part
      → w'.branches ≡ w.branches
      → Fits w (suc n)
      → Fits w' n
  skip-Fits w w' n p b h = record {
    short = rw b h.short;
    within = rw p (omega (arith, h.within));
    strictly = λ e. rw p (omega (arith, h.strictly (rw b at e)));
  }

  walk_step-Fits :
      (r : Reading) (w : Walk) (c : Char) (s : String)
      → Fits w (suc (length s))
      → StepFits (walk_step r w c s) (length s)
  unfolding walk_step
  walk_step-Fits text w c s h = walk_text-Fits w c s h
  walk_step-Fits spaces w c s h =
      search (if-Fits, walk_text-Fits, skip-Fits w _ _ refl refl h, same-Fits w _ _ refl refl h)
  walk_step-Fits (keyword zero) w c s h =
      search (if-Fits, walk_text-Fits, skip-Fits w _ _ refl refl h, same-Fits w _ _ refl refl h)
  walk_step-Fits (keyword (suc n)) w c s h = skip-Fits w _ _ refl refl h

  with_tail-IsShort :
      (w : Walk) (mode : Option UnionMode)
      → Fits w 0
      → Base.is_empty w.branches ≡ false
      → IsShortSplit (with_tail w mode)
  with_tail-IsShort w none h e = tt
  with_tail-IsShort w (some mode) h e =
      All-append _ w.branches (trim w.part ∷ []) h.short
        (omega (arith, length-trim w.part, h.strictly e), tt)

  walk_end-IsShort : (w : Walk) → Fits w 0 → IsShortSplit (walk_end w)
  unfolding walk_end
  walk_end-IsShort w h = elim (Bool-cases (Base.is_empty w.branches || is_empty (trim w.part))) [
    | inl whole ↦ rw (whole, walk_end) tt
    | inr cut ↦ rw (cut, walk_end) (with_tail-IsShort w w.mode h (ground (arith, cut)))
  ]

  walk-IsShort : (w : Walk) (s : String) → Fits w (length s) → IsShortSplit (walk w s)
  unfolding walk length
  walk-IsShort w String.[] h = walk_end-IsShort w h
  walk-IsShort w (String.◌∷◌ c s) h =
      let fits = walk_step-Fits w.reading w c s h in
      elim (WalkStep-cases (walk_step w.reading w c s)) [
        | inl (result, stopped) ↦ rw (stopped, walk) (rw stopped at fits)
        | inr (w', went) ↦ rw (went, walk) (walk-IsShort w' s (rw went at fits))
      ]

pub split_top_level_union-IsShort : (q : String) → IsShortSplit (length q) (split_top_level_union q)
unfolding split_top_level_union length
split_top_level_union-IsShort q =
    walk-IsShort (length q) _ q
      (record { short = tt; within = omega arith; strictly = λ e. absurd (ground arith) })
