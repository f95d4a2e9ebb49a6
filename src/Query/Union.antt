-- ===== src/Query/Union.antt =====
-- `UNION` and `UNION ALL` outside of quotes and brackets: the cut into branches:
-- the cut into branches. The code walks over bytes, and slices the text at each one that stands outside: at
-- the second byte of a character it panics.
use Prim.Native.String.{◌++◌}
use Prim.Native.Char.{Char, code}
use aira_graphdb.Base.{
  ℕ, ◌+◌, ◌-◌, zero, suc, String, Bool, true, false, not, ◌&&◌, ◌||◌, Option, none, some, List, [],
  ◌∷◌, nat_eq, leb, if◌then◌else◌,
}
use aira_graphdb.Base
use aira_graphdb.Str.{drop, trim, whitespace, is, is_empty, starts_with_upper}

pub data UnionMode : Type 0 where
  distinct all : UnionMode

-- What the text under the index belongs to: `keyword n` has `n` more characters.
pub data Reading : Type 0 where
  text spaces : Reading
  keyword : ℕ → Reading

-- The state of the walk. `before` says that a keyword may begin here: at the start of the text, or
-- behind a space. `part` is what was read of the branch.
pub record Walk : Type 0 where
  pub reading : Reading
  pub quoted : Bool
  pub depth : ℕ
  pub before : Bool
  pub part : String
  pub branches : List String
  pub mode : Option UnionMode

-- `None`, the branches, or a panic.
pub data UnionSplit : Type 0 where
  single split_panics : UnionSplit
  branches_of : List String → UnionMode → UnionSplit

pub data WalkStep : Type 0 where
  stop : UnionSplit → WalkStep
  go : Walk → WalkStep

abbrev walk_start : Walk
walk_start = record {
  reading = text;
  quoted = false;
  depth = 0;
  before = true;
  part = "";
  branches = [];
  mode = none;
}

-- The character belongs to the branch.
unfoldable pub read_char : Char → Walk → Walk
unfolding whitespace
read_char c w = record w {
  reading = text;
  before = whitespace c;
  part = w.part ++ (String.◌∷◌ c String.[]);
}

abbrev is_opening : Char → Bool
is_opening c = is b'(' c || is b'[' c || is b'{' c

abbrev is_closing : Char → Bool
is_closing c = is b')' c || is b']' c || is b'}' c

abbrev pub new_depth : Char → ℕ → ℕ
new_depth c depth = if is_opening c then depth + 1 else if is_closing c then depth - 1 else depth

-- A space or the end of the text
unfoldable pub at_boundary : String → Bool
unfolding whitespace
at_boundary String.[] = true
at_boundary (String.◌∷◌ c s) = whitespace c

-- The two modes do not mix.
abbrev pub joins_mode : Option UnionMode → UnionMode → Bool
joins_mode none mode = true
joins_mode (some UnionMode.distinct) UnionMode.distinct = true
joins_mode (some UnionMode.all) UnionMode.all = true
joins_mode (some _) _ = false

-- A keyword, of which `n` characters follow: the branch before it is complete.
unfoldable pub cut_branch : Walk → UnionMode → ℕ → WalkStep
unfolding trim
cut_branch w mode n =
    if is_empty (trim w.part) || not (joins_mode w.mode mode)
    then stop single
    else go (record w {
      reading = keyword n;
      part = "";
      branches = Base.◌++◌ w.branches (trim w.part ∷ []);
      mode = some mode;
    })

-- The keyword stands at the front of the text, between boundaries.
unfoldable pub keyword_at : Walk → String → String → ℕ → Bool
unfolding starts_with_upper drop at_boundary
keyword_at w rest name n = w.before && starts_with_upper rest name && at_boundary (drop n rest)

-- The depth is that behind the character.
unfoldable pub walk_outside : Walk → Char → String → WalkStep
unfolding cut_branch keyword_at read_char
walk_outside w c s =
    let rest = String.◌∷◌ c s in
    if not (nat_eq w.depth 0)
    then go (read_char c w)
    else if keyword_at w rest "UNION ALL" 9
    then cut_branch w UnionMode.all 8
    else if keyword_at w rest "UNION" 5
    then cut_branch w UnionMode.distinct 4
    else if leb 128 (code c)
    then stop split_panics
    else go (read_char c w)

unfoldable pub walk_text : Walk → Char → String → WalkStep
unfolding walk_outside read_char
walk_text w c s =
    if is b'\'' c
    then go (read_char c (record w { quoted = not w.quoted }))
    else if w.quoted
    then go (read_char c w)
    else walk_outside (record w { depth = new_depth c w.depth }) c s

unfoldable pub walk_step : Reading → Walk → Char → String → WalkStep
unfolding walk_text whitespace
walk_step text w c s = walk_text w c s
walk_step spaces w c s =
    if whitespace c
    then go (record w { reading = spaces })
    else walk_text (record w { before = true }) c s
walk_step (keyword zero) w c s =
    if whitespace c
    then go (record w { reading = spaces })
    else walk_text (record w { before = false }) c s
walk_step (keyword (suc n)) w c s = go (record w { reading = keyword n })

abbrev pub with_tail : Walk → Option UnionMode → UnionSplit
with_tail w none = single
with_tail w (some mode) = branches_of (Base.◌++◌ w.branches (trim w.part ∷ [])) mode

unfoldable pub walk_end : Walk → UnionSplit
unfolding trim
walk_end w =
    if Base.is_empty w.branches || is_empty (trim w.part) then single else with_tail w w.mode

unfoldable pub walk : Walk → String → UnionSplit
unfolding walk_step walk_end
walk w String.[] = walk_end w
walk w (String.◌∷◌ c s) = elim (walk_step w.reading w c s) [
  | stop result ↦ result
  | go w' ↦ walk w' s
]

unfoldable pub split_top_level_union : String → UnionSplit
unfolding walk
split_top_level_union query = walk walk_start query
