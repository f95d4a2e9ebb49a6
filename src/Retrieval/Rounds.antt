-- ===== src/Retrieval/Rounds.antt =====
-- The loop that looks for the frame which states its own length: what it returns, and that eight
-- rounds are enough.
use aira_graphdb.Base.{
  ℕ, zero, suc, ◌+◌, ◌≤◌, ◌<◌, ◌≡◌, String, false, leb, nat_eq, nat_eq_iff, Bool-cases, inl, inr,
  if◌then◌else◌, length, refl, sym, ap, ◌∙◌, arith,
}
use mathlib.Core.Path.{subst}
use aira_graphdb.Base.Checked.{Checked, valid, bind_valid, valid_injective}
use aira_graphdb.Io.{Bytes}
use aira_graphdb.Retrieval.Caps
use aira_graphdb.Retrieval.Response.{fixed_point}

-- A frame that the loop returns is the one that states its own length.
pub fixed_point_valid :
    (rounds : ℕ) (frame : ℕ → Checked Bytes) (advertised : ℕ) (message : String) (bytes : Bytes)
    → fixed_point rounds frame advertised message ≡ valid bytes
    → frame (length bytes) ≡ valid bytes
unfolding fixed_point
fixed_point_valid zero frame advertised message bytes h = absurd cc
fixed_point_valid (suc rounds) frame advertised message bytes h =
    let (found, (first, others)) = bind_valid (frame advertised) _ bytes h in
    elim (Bool-cases (nat_eq (length found) advertised)) [
      | inl same ↦
          let returned = valid_injective (rw same at others) in
          subst (λ n. frame n ≡ valid bytes) (sym ((nat_eq_iff _ _).0 same) ∙ ap length returned)
            (first ∙ ap valid returned)
      | inr other ↦ fixed_point_valid rounds frame (length found) message bytes (rw other at others)
    ]

fixed_point_stops :
    (rounds : ℕ) (frame : ℕ → Checked Bytes) (advertised : ℕ) (message : String) (bytes : Bytes)
    → frame advertised ≡ valid bytes
    → length bytes ≡ advertised
    → fixed_point (suc rounds) frame advertised message ≡ valid bytes
unfolding fixed_point
fixed_point_stops rounds frame advertised message bytes framed same =
    rw (framed, (nat_eq_iff (length bytes) advertised).1 same) refl

fixed_point_continues :
    (rounds : ℕ) (frame : ℕ → Checked Bytes) (advertised : ℕ) (message : String) (bytes : Bytes)
    → frame advertised ≡ valid bytes
    → advertised < length bytes
    → fixed_point (suc rounds) frame advertised message
      ≡ fixed_point rounds frame (length bytes) message
unfolding fixed_point
fixed_point_continues rounds frame advertised message bytes framed longer =
    let differs : nat_eq (length bytes) advertised ≡ false = ground arith in
    rw (framed, differs) refl

-- The digits of a number below ten million
abbrev pub at_least : ℕ → ℕ → ℕ
at_least k n = if leb k n then 1 else 0

unfoldable pub decimal_width : ℕ → ℕ
decimal_width n =
    1
    + at_least 10 n
    + at_least 100 n
    + at_least 1000 n
    + at_least 10000 n
    + at_least 100000 n
    + at_least 1000000 n

at_least_mono : (k m n : ℕ) → m ≤ n → at_least k m ≤ at_least k n
at_least_mono k m n h = ground arith

at_least_one : (k n : ℕ) → at_least k n ≤ 1
at_least_one k n = ground arith

decimal_width_mono : (m n : ℕ) → m ≤ n → decimal_width m ≤ decimal_width n
unfolding decimal_width
decimal_width_mono m n h = omega (
  arith,
  at_least_mono 10 m n h,
  at_least_mono 100 m n h,
  at_least_mono 1000 m n h,
  at_least_mono 10000 m n h,
  at_least_mono 100000 m n h,
  at_least_mono 1000000 m n h,
)

pub decimal_width_bounds : (n : ℕ) → (1 ≤ decimal_width n) × (decimal_width n ≤ 7)
unfolding decimal_width
decimal_width_bounds n =
    let ten = at_least_one 10 n in
    let hundred = at_least_one 100 n in
    let thousand = at_least_one 1000 n in
    let myriad = at_least_one 10000 n in
    let lakh = at_least_one 100000 n in
    let million = at_least_one 1000000 n in (omega arith, omega arith)

-- Frames whose length is that of the number they state and a base
module _ (frame : ℕ → Checked Bytes) (body : ℕ → Bytes) (base : ℕ)
    (made : (n : ℕ)
      → n ≤ Caps.max_response_frame_bytes
      → (frame n ≡ valid (body n)) × (length (body n) ≡ base + decimal_width n))
    (small : base + 7 ≤ Caps.max_response_frame_bytes) (message : String) where
  -- A round that does not return states a longer number than the round before.
  fixed_point_grows :
      (rounds advertised width : ℕ)
      → 8 ≤ width + rounds
      → width ≤ decimal_width advertised
      → advertised ≡ base + width
      → (bytes : Bytes) × (fixed_point rounds frame advertised message ≡ valid bytes)
  fixed_point_grows zero advertised width many wide exact =
      absurd (omega (arith, decimal_width_bounds advertised))
  fixed_point_grows (suc rounds) advertised width many wide exact =
      let (low, high) = decimal_width_bounds advertised in
      let (framed, long) = made advertised (omega arith) in
      elim (Bool-cases (nat_eq (decimal_width advertised) width)) [
        | inl same ↦
            let equal = (nat_eq_iff (decimal_width advertised) width).0 same in
            (
              body advertised,
              fixed_point_stops rounds frame advertised message (body advertised) framed
                  (omega arith),
            )
        | inr other ↦
            let wider : width < decimal_width advertised = ground arith in
            let longer : advertised < length (body advertised) = omega arith in
            let wide' = decimal_width_mono advertised (length (body advertised)) (omega arith) in
            let (bytes, ends) =
              fixed_point_grows rounds (length (body advertised)) (decimal_width advertised)
                (omega arith) wide' long in
            (
              bytes,
              fixed_point_continues rounds frame advertised message (body advertised) framed longer
                  ∙ ends,
            )
      ]

  pub fixed_point_returns : (bytes : Bytes) × (fixed_point 8 frame 0 message ≡ valid bytes)
  fixed_point_returns =
      let (framed, long) = made 0 (omega arith) in
      let (low, high) = decimal_width_bounds 0 in
      let first : decimal_width 0 ≡ 1 = unfold decimal_width in refl in
      let wide = decimal_width_mono 0 (length (body 0)) (omega arith) in
      let (bytes, ends) =
        fixed_point_grows 7 (length (body 0)) (decimal_width 0) (omega arith) wide long in
      (bytes, fixed_point_continues 7 frame 0 message (body 0) framed (omega arith) ∙ ends)
