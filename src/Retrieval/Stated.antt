-- ===== src/Retrieval/Stated.antt =====
-- The frames of responses: what each states of its length, and that one is found.
use aira_graphdb.Base.{
  ℕ, ◌+◌, ◌-◌, ◌≤◌, ◌≡◌, String, Bool, true, false, List, [], ◌∷◌, ◌++◌, ltb, Bool-cases, inl, inr,
  length, length-append, refl, arith,
}
use aira_graphdb.Base.Checked.{valid, bind_valid}
use aira_graphdb.Io.{Bytes}
use aira_graphdb.Retrieval.Caps
use aira_graphdb.Retrieval.Json.{Json}
use aira_graphdb.Retrieval.Work.{WorkCounts, WorkCounters, from_work, check_work}
use aira_graphdb.Retrieval.Response.{
  SuccessEnvelope, ErrorEnvelope, fixed_point, stated, success, failure, encode_success,
  encode_error,
}
use aira_graphdb.Retrieval.Written.{joined, encode_frame_valid, encode_frame_fits}
use aira_graphdb.Retrieval.Rounds.{
  fixed_point_valid, decimal_width, decimal_width_bounds, fixed_point_returns,
}

-- A frame is one line, within the cap, of an envelope whose counters are those of the work and state
-- the length of the frame.
pub record IsStated {T : Type 0} (pieces : T → List Bytes) (envelope : WorkCounters → T)
    (work : WorkCounts) (bytes : Bytes) : Type 0 where
  pub counters : WorkCounters
  pub counted : from_work work (length bytes) ≡ valid counters
  pub line : bytes ≡ joined (pieces (envelope counters)) ++ 10 ∷ []
  pub bounded : length bytes ≤ Caps.max_response_frame_bytes

-- The counters of work that is within the caps, for a response of a length
abbrev pub counters_of : WorkCounts → ℕ → ℕ → WorkCounters
counters_of work units bytes = record { work = work; work_units = units; response_bytes = bytes }

-- A serializer writes the stated length in decimal, and the rest of the envelope in as many bytes
-- whatever the length.
abbrev pub IsDecimal :
    {T : Type 0} → (T → List Bytes) → (WorkCounters → T) → WorkCounts → ℕ → ℕ → Type 0
IsDecimal pieces envelope work units base =
    (n : ℕ)
    → n ≤ Caps.max_response_frame_bytes
    → length (joined (pieces (envelope (counters_of work units n)))) ≡ base + decimal_width n

from_work_fits :
    (work : WorkCounts) (units bytes : ℕ)
    → check_work work ≡ valid units
    → bytes ≤ Caps.max_response_frame_bytes
    → from_work work bytes ≡ valid (counters_of work units bytes)
unfolding from_work
from_work_fits work units bytes checked small =
    let within : ltb Caps.max_response_frame_bytes bytes ≡ false = ground arith in
    rw (checked, within) refl

module _ (reserve : ℕ → Bool) {T : Type 0} (pieces : T → List Bytes) (envelope : WorkCounters → T)
    (work : WorkCounts) (message : String) where
  stated_valid :
      (bytes : Bytes)
      → fixed_point 8 (stated reserve pieces envelope work) 0 message ≡ valid bytes
      → IsStated pieces envelope work bytes
  unfolding stated
  stated_valid bytes h =
      let framed = fixed_point_valid 8 (stated reserve pieces envelope work) 0 message bytes h in
      let (counters, (counted, encoded)) =
        bind_valid (from_work work (length bytes)) _ bytes framed in
      let (line, bounded) = encode_frame_valid reserve pieces (envelope counters) bytes encoded in
      record { counters = counters; counted = counted; line = line; bounded = bounded }

  stated_returns :
      (units base : ℕ)
      → check_work work ≡ valid units
      → reserve (Caps.max_response_frame_bytes - 1) ≡ true
      → IsDecimal pieces envelope work units base
      → base + 8 ≤ Caps.max_response_frame_bytes
      → (bytes : Bytes) × (fixed_point 8 (stated reserve pieces envelope work) 0 message
          ≡ valid bytes)
  unfolding stated
  stated_returns units base checked granted decimal small =
      fixed_point_returns (stated reserve pieces envelope work)
        (λ n. joined (pieces (envelope (counters_of work units n))) ++ 10 ∷ []) (base + 1) made
        (omega arith) message
    where
      made :
          (n : ℕ)
          → n ≤ Caps.max_response_frame_bytes
          → (stated reserve pieces envelope work n
              ≡ valid (joined (pieces (envelope (counters_of work units n))) ++ 10 ∷ []))
            × (length (joined (pieces (envelope (counters_of work units n))) ++ 10 ∷ [])
                ≡ base + 1 + decimal_width n)
      made n h =
          let long = decimal n h in
          let (low, high) = decimal_width_bounds n in
          let value = envelope (counters_of work units n) in
          (
            rw (from_work_fits work units n checked h)
                (encode_frame_fits reserve pieces value granted (omega arith)),
            omega (arith, length-append (joined (pieces value)) (10 ∷ [])),
          )

safe_test :
    (generation : ℕ)
    → generation ≤ Caps.max_safe_generation
    → ltb Caps.max_safe_generation generation ≡ false
safe_test generation h = ground arith

-- A response of success that is returned has a generation that JSON holds exactly, and is one line
-- of at most two megabytes: the whole envelope with the counters of the work, in which the length
-- that is stated is that of the very line.
pub encode_success-IsStated :
    (reserve : ℕ → Bool) (pieces : SuccessEnvelope → List Bytes) (id generation : ℕ) (result : Json)
    (work : WorkCounts) (bytes : Bytes)
    → encode_success reserve pieces id generation result work ≡ valid bytes
    → (generation ≤ Caps.max_safe_generation)
      × IsStated pieces (success id generation result) work bytes
unfolding encode_success
encode_success-IsStated reserve pieces id generation result work bytes h =
    elim (Bool-cases (ltb Caps.max_safe_generation generation)) [
      | inl above ↦ let refused = rw above at h in absurd cc
      | inr below ↦ (
        ground arith,
        stated_valid reserve pieces (success id generation result) work _ bytes (rw below at h),
      )
    ]

-- A response of failure states the length of its line too.
encode_error-IsStated :
    (reserve : ℕ → Bool) (pieces : ErrorEnvelope → List Bytes) (id generation : ℕ)
    (work : WorkCounts) (failure_class reason : String) (bytes : Bytes)
    → encode_error reserve pieces id generation work failure_class reason ≡ valid bytes
    → (generation ≤ Caps.max_safe_generation)
      × IsStated pieces (failure id generation failure_class reason) work bytes
unfolding encode_error
encode_error-IsStated reserve pieces id generation work failure_class reason bytes h =
    elim (Bool-cases (ltb Caps.max_safe_generation generation)) [
      | inl above ↦ let refused = rw above at h in absurd cc
      | inr below ↦ (
        ground arith,
        stated_valid reserve pieces (failure id generation failure_class reason) work _ bytes
            (rw below at h),
      )
    ]

-- A response of success is returned in its eight rounds too.
encode_success_returns :
    (reserve : ℕ → Bool) (pieces : SuccessEnvelope → List Bytes) (id generation : ℕ) (result : Json)
    (work : WorkCounts) (units base : ℕ)
    → generation ≤ Caps.max_safe_generation
    → check_work work ≡ valid units
    → reserve (Caps.max_response_frame_bytes - 1) ≡ true
    → IsDecimal pieces (success id generation result) work units base
    → base + 8 ≤ Caps.max_response_frame_bytes
    → (bytes : Bytes) × (encode_success reserve pieces id generation result work ≡ valid bytes)
unfolding encode_success
encode_success_returns reserve pieces id generation result work units base safe checked granted
      decimal small =
    rw (safe_test generation safe) (
      stated_returns reserve pieces (success id generation result) work _ units base checked granted
        decimal small)

-- If the serializer writes the length that is stated in decimal and the rest in the same number of
-- bytes whatever this length, which leaves room for eight bytes more, and the buffer is granted,
-- the work is within its caps and JSON holds the generation exactly, then a response of failure is
-- returned: its eight rounds are enough.
pub encode_error_returns :
    (reserve : ℕ → Bool) (pieces : ErrorEnvelope → List Bytes) (id generation : ℕ)
    (work : WorkCounts) (failure_class reason : String) (units base : ℕ)
    → generation ≤ Caps.max_safe_generation
    → check_work work ≡ valid units
    → reserve (Caps.max_response_frame_bytes - 1) ≡ true
    → IsDecimal pieces (failure id generation failure_class reason) work units base
    → base + 8 ≤ Caps.max_response_frame_bytes
    → (bytes : Bytes) × (encode_error reserve pieces id generation work failure_class reason
        ≡ valid bytes)
unfolding encode_error
encode_error_returns reserve pieces id generation work failure_class reason units base safe checked
      granted decimal small =
    rw (safe_test generation safe) (
      stated_returns reserve pieces (failure id generation failure_class reason) work _ units base
        checked granted decimal small)
