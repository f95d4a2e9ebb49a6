-- ===== src/Retrieval/Response.antt =====
-- `LimitedWriter`, `serialize_limited`, `encode_frame`, `encode_success`, `encode_error` and
-- `encode_object`: responses as frames of bounded length, each of which states its own length.
-- A byte is a number. `usize` has 64 bits, so that every limit fits it.
use Prim.Native.String.{◌++◌ as append}
use aira_graphdb.Base.{
  ℕ, zero, suc, ◌+◌, ◌-◌, String, Bool, true, false, List, [], ◌∷◌, ◌++◌, ltb, nat_eq, u64_mod,
  if◌then◌else◌, length,
}
use aira_graphdb.Base.Checked.{Checked, valid, invalid, ◌>>=◌, ensure}
use aira_graphdb.Io.{Bytes}
use aira_graphdb.Retrieval.Caps
use aira_graphdb.Retrieval.Json.{Json}
use aira_graphdb.Retrieval.Work.{WorkCounts, WorkCounters, from_work}

pub record LimitedWriter : Type 0 where
  pub bytes : Bytes
  pub limit : ℕ

-- `Write::write`, where an error is its text
unfoldable pub write : Bytes → LimitedWriter → Checked LimitedWriter
write piece self =
    let next = length self.bytes + length piece in
    if ltb next u64_mod
    then if ltb self.limit next
      then invalid "bounded writer limit exceeded"
      else valid record self { bytes = self.bytes ++ piece }
    else invalid "bounded writer byte count overflow"

-- `write_all` for one piece after the other; an empty piece is not written at all.
unfoldable pub write_pieces : List Bytes → LimitedWriter → Checked LimitedWriter
unfolding write
write_pieces [] self = valid self
write_pieces ([] ∷ pieces) self = write_pieces pieces self
write_pieces ((byte ∷ piece) ∷ pieces) self = do
  next ← write (byte ∷ piece) self
  write_pieces pieces next

-- The prefix that `map_err` puts before the text of an error
abbrev pub labelled {ℓ} : {A : Type ℓ} → String → Checked A → Checked A
labelled label (valid a) = valid a
labelled label (invalid message) = invalid (append label message)

pub record StructuredError : Type 0 where
  pub code : String
  pub failure_class : String
  pub reason : String

pub record SuccessEnvelope : Type 0 where
  pub id : ℕ
  pub ok : Bool
  pub generation : ℕ
  pub result : Json
  pub counters : WorkCounters

pub record ErrorEnvelope : Type 0 where
  pub id : ℕ
  pub ok : Bool
  pub generation : ℕ
  pub error : StructuredError
  pub counters : WorkCounters

abbrev pub request_execution_failed : String
request_execution_failed = "REQUEST_EXECUTION_FAILED"

abbrev pub success : ℕ → ℕ → Json → WorkCounters → SuccessEnvelope
success id generation result counters = record {
  id = id;
  ok = true;
  generation = generation;
  result = result;
  counters = counters;
}

abbrev pub failure : ℕ → ℕ → String → String → WorkCounters → ErrorEnvelope
failure id generation failure_class reason counters = record {
  id = id;
  ok = false;
  generation = generation;
  error = record {
    code = request_execution_failed;
    failure_class = failure_class;
    reason = reason;
  };
  counters = counters;
}

-- The rounds of the loop that are left, of eight: `frame` makes the frame that states a length.
unfoldable pub fixed_point : ℕ → (ℕ → Checked Bytes) → ℕ → String → Checked Bytes
fixed_point zero frame advertised message = invalid message
fixed_point (suc rounds) frame advertised message = do
  bytes ← frame advertised
  let rest = fixed_point rounds frame (length bytes) message
  if nat_eq (length bytes) advertised then valid bytes else rest

-- `reserve` tells whether `try_reserve_exact` gets so many bytes.
module _ (reserve : ℕ → Bool) where
  unfoldable pub new_writer : ℕ → Checked LimitedWriter
  new_writer limit = do
    _ ← ensure (reserve limit) "bounded writer allocation failed"
    valid record { bytes = []; limit = limit }

  -- `pieces` are what the serializer passes to the writer for a value, in order.
  module _ {T : Type 0} (pieces : T → List Bytes) where
    unfoldable pub serialize_limited : T → ℕ → Checked Bytes
    unfolding new_writer write_pieces
    serialize_limited value limit = do
      writer ← new_writer limit
      written ← labelled "bounded serialization failed: " (write_pieces (pieces value) writer)
      valid written.bytes

    unfoldable pub encode_frame : T → Checked Bytes
    unfolding serialize_limited
    encode_frame value = do
      bytes ← serialize_limited value (Caps.max_response_frame_bytes - 1)
      valid (bytes ++ 10 ∷ [])

    -- The frame with the counters that state a length
    unfoldable pub stated : (WorkCounters → T) → WorkCounts → ℕ → Checked Bytes
    unfolding encode_frame from_work
    stated envelope work advertised = do
      counters ← from_work work advertised
      encode_frame (envelope counters)

  unfoldable pub encode_success :
      (SuccessEnvelope → List Bytes) → ℕ → ℕ → Json → WorkCounts → Checked Bytes
  unfolding stated fixed_point
  encode_success pieces id generation result work =
      if ltb Caps.max_safe_generation generation
      then invalid "response generation exceeds JSON-safe integer range"
      else fixed_point 8 (stated pieces (success id generation result) work) 0
          "response counter did not reach a fixed point"

  unfoldable pub encode_error :
      (ErrorEnvelope → List Bytes) → ℕ → ℕ → WorkCounts → String → String → Checked Bytes
  unfolding stated fixed_point
  encode_error pieces id generation work failure_class reason =
      if ltb Caps.max_safe_generation generation
      then invalid "response generation exceeds JSON-safe integer range"
      else fixed_point 8 (stated pieces (failure id generation failure_class reason) work) 0
          "error response counter did not reach a fixed point"

  unfoldable pub encode_object : (Json → List Bytes) → Json → Checked Bytes
  unfolding serialize_limited
  encode_object pieces value = serialize_limited pieces value Caps.max_object_bytes
