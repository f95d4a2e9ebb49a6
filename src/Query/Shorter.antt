-- ===== src/Query/Shorter.antt =====
-- What a query runs as a query is shorter than itself.
use Prim.Native.String.{◌++◌}
use aira_graphdb.Base.{
  ℕ, ◌+◌, ◌-◌, ◌≤◌, ◌<◌, ◌≡◌, String, Bool, true, false, Option, some, none, arith, refl,
  Option-cases, inl, inr, not, ◌&&◌, string_eq, if◌then◌else◌,
}
use aira_graphdb.Errors.{GraphDbError, Result, ok, err}
use aira_graphdb.Str.{length, take, drop, find, strip_prefix, trim, trim_start, contains, is_empty}
use aira_graphdb.Str.Lengths.{
  length-append, length-take, length-take_le, length-drop, length-trim, length-strip_prefix,
  length-find,
}
use aira_graphdb.Query.{◌>>=◌, or_error}
use aira_graphdb.Query.With.{
  replace_first, parse_with_projection, rewrite_return, normalize_with_query,
}
use aira_graphdb.Query.Execute.{
  body_end, split_subquery_body, parse_call_subquery, parse_exists, rewrite_with, is_match,
  long_with,
}

-- What a `?` that succeeds has read.
pub bind_ok {ℓ κ} :
    {A : Type ℓ} {B : Type κ} (r : Result A) (k : A → Result B) (b : B)
    → (r >>= k) ≡ ok b
    → (a : A) × (r ≡ ok a) × (k a ≡ ok b)
bind_ok (ok a) k b h = (a, refl, h)
bind_ok (err e) k b h = absurd (cc)

pub or_error_ok {ℓ} :
    {A : Type ℓ} (e : GraphDbError) (o : Option A) (a : A) → or_error e o ≡ ok a → o ≡ some a
or_error_ok e none a h = absurd (cc)
or_error_ok e (some b) a h = cc

body_end_le :
    (depth : ℕ) (quoted : Bool) (idx : ℕ) (s : String) (n : ℕ)
    → body_end depth quoted idx s ≡ some n
    → n < idx + length s
unfolding body_end length
body_end_le depth quoted idx String.[] n h = absurd (ground (arith))
body_end_le depth quoted idx (String.◌∷◌ c s) n h = ground (
  arith,
  body_end_le depth (not quoted) (idx + 1) s n,
  body_end_le depth quoted (idx + 1) s n,
  body_end_le (depth + 1) quoted (idx + 1) s n,
  body_end_le (depth - 1) quoted (idx + 1) s n,
)

split_subquery_body_le :
    (body inner tail : String)
    → split_subquery_body body ≡ ok (inner, tail)
    → length inner ≤ length body
unfolding split_subquery_body
split_subquery_body_le body inner tail h =
    let (idx, ended, cut) = bind_ok (or_error _ (body_end 1 false 0 body)) _ _ h in
    ground (arith, cut, length-take idx body)

pub parse_call_subquery_shorter :
    (q inner projection : String)
    → parse_call_subquery q ≡ ok (inner, projection)
    → length inner < length q
unfolding parse_call_subquery length
parse_call_subquery_shorter q inner projection h =
    let (call, stripped, h1) = bind_ok (or_error _ (strip_prefix q "CALL {")) _ _ h in
    let ((body, tail), split, h2) = bind_ok (split_subquery_body call) _ _ h1 in
    let (rest, returned, done) =
      bind_ok (or_error _ (strip_prefix (trim_start tail) "RETURN ")) _ _ h2 in
    ground (
      arith,
      done,
      length-trim body,
      split_subquery_body_le call body tail split,
      length-strip_prefix q "CALL {" call (or_error_ok _ (strip_prefix q "CALL {") call stripped),
    )

pub parse_exists_shorter :
    (q inner rewritten : String) → parse_exists q ≡ ok (inner, rewritten) → length inner < length q
unfolding parse_exists length
parse_exists_shorter q inner rewritten h =
    let (idx, found, h1) = bind_ok (or_error _ (find q " WHERE EXISTS {")) _ _ h in
    let ((body, tail), split, done) =
      bind_ok (split_subquery_body (drop (idx + length " WHERE EXISTS {") q)) _ _ h1 in
    ground (
      arith,
      done,
      length-trim body,
      split_subquery_body_le (drop (idx + length " WHERE EXISTS {") q) body tail split,
      length-drop (idx + length " WHERE EXISTS {") q,
      length-find q " WHERE EXISTS {" idx (or_error_ok _ (find q " WHERE EXISTS {") idx found),
    )

length_pos : (s : String) → is_empty s ≡ false → 1 ≤ length s
unfolding length
length_pos String.[] h = absurd (ground arith)
length_pos (String.◌∷◌ c s) h = omega arith

replace_first_le :
    (s from to : String) → length to ≤ length from → length (replace_first s from to) ≤ length s
unfolding replace_first
replace_first_le s from to h = elim (Option-cases (find s from)) [
  | inl nowhere ↦ rw (nowhere, replace_first) (omega arith)
  | inr (idx, found) ↦
      rw (found, replace_first)
        (ground (
          arith,
          length-append (take idx s) (to ++ drop (idx + length from) s),
          length-append to (drop (idx + length from) s),
          length-take_le idx s,
          length-drop (idx + length from) s,
          length-find s from idx found,
        ))
]

parse_with_projection_pos :
    (projection source alias : String)
    → parse_with_projection projection ≡ ok (source, alias)
    → 1 ≤ length alias
unfolding parse_with_projection
parse_with_projection_pos projection source alias h = elim (Option-cases (find projection " AS ")) [
  | inl nowhere ↦ ground (arith, rw (nowhere, parse_with_projection) at h, length_pos projection)
  | inr (idx, found) ↦
      ground (
        arith,
        rw (found, parse_with_projection) at h,
        length_pos (trim (drop (idx + 4) projection)),
      )
]

rewrite_return_le :
    (source_var projected_var return_expr rewritten : String)
    → 1 ≤ length projected_var
    → rewrite_return source_var projected_var return_expr ≡ ok rewritten
    → length rewritten ≤ length return_expr
unfolding rewrite_return length
rewrite_return_le source_var projected_var return_expr rewritten pos h =
    ground (arith, replace_first_le return_expr projected_var "n" pos)

normalize_with_query_le :
    (q rewritten : String) → normalize_with_query q ≡ ok rewritten → length rewritten ≤ length q
unfolding normalize_with_query length
normalize_with_query_le q rewritten h =
    let (with_idx, found, h1) = bind_ok (or_error _ (find q " WITH ")) _ _ h in
    let right = trim (drop (with_idx + 6) q) in
    let (return_idx, returned, h2) = bind_ok (or_error _ (find right " RETURN ")) _ _ h1 in
    let ((source, alias), projected, h3) =
      bind_ok (parse_with_projection (trim (take return_idx right))) _ _ h2 in
    let return_expr = trim (drop (return_idx + 8) right) in
    let (expr, rewrote, done) = bind_ok (rewrite_return source alias return_expr) _ _ h3 in
    ground (
      arith,
      done,
      length-append (trim (take with_idx q)) (" RETURN " ++ expr),
      length-append " RETURN " expr,
      length-trim (take with_idx q),
      length-take_le with_idx q,
      length-find q " WITH " with_idx (or_error_ok _ (find q " WITH ") with_idx found),
      length-trim (drop (with_idx + 6) q),
      length-drop (with_idx + 6) q,
      length-find right " RETURN " return_idx
          (or_error_ok _ (find right " RETURN ") return_idx returned),
      length-trim (drop (return_idx + 8) right),
      length-drop (return_idx + 8) right,
      rewrite_return_le source alias return_expr expr
          (parse_with_projection_pos (trim (take return_idx right)) source alias projected) rewrote,
    )

chosen_le : (b : Bool) (s t : String) → length s ≤ length t → length (if b then s else t) ≤ length t
chosen_le b s t h = ground arith

normalized_le :
    (b : Bool) (q rewritten : String)
    → (if b then normalize_with_query q else ok q) ≡ ok rewritten
    → length rewritten ≤ length q
normalized_le true q rewritten h = normalize_with_query_le q rewritten h
normalized_le false q rewritten h = ground arith

pub rewrite_with_le :
    (q rewritten : String) → rewrite_with q ≡ ok rewritten → length rewritten ≤ length q
unfolding rewrite_with length
rewrite_with_le q rewritten h =
    let short = replace_first q long_with " RETURN n,r,m" in
    let long = is_match q && contains q long_with in
    let q' = if long then short else q in
    omega (
      arith,
      chosen_le long short q (replace_first_le q long_with " RETURN n,r,m" (omega arith)),
      normalized_le (is_match q' && contains q' " WITH ") q' rewritten h,
    )
