-- ===== src/Retrieval/Written.antt =====
-- What the writer of bounded length has written.
use aira_graphdb.Base.{
  ℕ, ◌+◌, ◌-◌, ◌≤◌, ◌<◌, ◌≡◌, String, Bool, true, List, [], ◌∷◌, ◌++◌, u64_mod, length,
  length-append, refl, sym, ap, ◌∙◌, arith,
}
use aira_graphdb.Base.Checked.{
  Checked, valid, invalid, ensure, bind_valid, ensure_valid, valid_injective,
}
use mathlib.Core.Path.{subst}
use aira_graphdb.Io.{Bytes}
use aira_graphdb.Retrieval.Caps
use aira_graphdb.Retrieval.Response.{
  LimitedWriter, write, write_pieces, labelled, new_writer, serialize_limited, encode_frame,
}

-- The pieces as one text
abbrev pub joined : List Bytes → Bytes
joined [] = []
joined (piece ∷ pieces) = piece ++ joined pieces

append_nil : (xs : Bytes) → xs ++ [] ≡ xs
append_nil [] = refl
append_nil (x ∷ xs) = ap (λ ys. x ∷ ys) (append_nil xs)

append_assoc : (xs ys zs : Bytes) → (xs ++ ys) ++ zs ≡ xs ++ (ys ++ zs)
append_assoc [] ys zs = refl
append_assoc (x ∷ xs) ys zs = ap (λ ys. x ∷ ys) (append_assoc xs ys zs)

write_valid :
    (piece : Bytes) (self next : LimitedWriter)
    → write piece self ≡ valid next
    → (length self.bytes + length piece ≤ self.limit)
      × (next ≡ record self { bytes = self.bytes ++ piece })
unfolding write
write_valid piece self next h = ground arith

write_fits :
    (piece : Bytes) (self : LimitedWriter)
    → length self.bytes + length piece ≤ self.limit
    → self.limit < u64_mod
    → write piece self ≡ valid record self { bytes = self.bytes ++ piece }
unfolding write
write_fits piece self h small = ground arith

-- What was written is the pieces, within the limit.
write_pieces_valid :
    (pieces : List Bytes) (self next : LimitedWriter)
    → length self.bytes ≤ self.limit
    → write_pieces pieces self ≡ valid next
    → (next.bytes ≡ self.bytes ++ joined pieces) × (length next.bytes ≤ self.limit)
unfolding write_pieces
write_pieces_valid [] self next start h =
    let same = valid_injective h in
    let kept : length self.bytes ≡ length next.bytes = ap (λ w. length w.bytes) same in
    (ap (λ w. w.bytes) (sym same) ∙ sym (append_nil self.bytes), omega arith)
write_pieces_valid ([] ∷ pieces) self next start h = write_pieces_valid pieces self next start h
write_pieces_valid ((byte ∷ piece) ∷ pieces) self next start h =
    let (mid, (first, others)) =
      bind_valid (write (byte ∷ piece) self) (λ w. write_pieces pieces w) next h in
    let (fits, same) = write_valid (byte ∷ piece) self mid first in
    let longer = length-append self.bytes (byte ∷ piece) in
    let (all, bounded) =
      write_pieces_valid pieces (record self { bytes = self.bytes ++ byte ∷ piece }) next
        (omega arith) (subst (λ w. write_pieces pieces w ≡ valid next) same others) in
    (all ∙ append_assoc self.bytes (byte ∷ piece) (joined pieces), bounded)

write_pieces_fits :
    (pieces : List Bytes) (self : LimitedWriter)
    → length self.bytes + length (joined pieces) ≤ self.limit
    → self.limit < u64_mod
    → write_pieces pieces self ≡ valid record self { bytes = self.bytes ++ joined pieces }
unfolding write_pieces
write_pieces_fits [] self h small = rw (append_nil self.bytes) refl
write_pieces_fits ([] ∷ pieces) self h small = write_pieces_fits pieces self h small
write_pieces_fits ((byte ∷ piece) ∷ pieces) self h small =
    let both = length-append (byte ∷ piece) (joined pieces) in
    let longer = length-append self.bytes (byte ∷ piece) in
    let next = record self { bytes = self.bytes ++ byte ∷ piece } in
    rw (write_fits (byte ∷ piece) self (omega arith) small) (
      rw⁻¹ (append_assoc self.bytes (byte ∷ piece) (joined pieces))
        (write_pieces_fits pieces next (omega arith) small))

new_writer_valid :
    (reserve : ℕ → Bool) (limit : ℕ) (writer : LimitedWriter)
    → new_writer reserve limit ≡ valid writer
    → (reserve limit ≡ true) × (record { bytes = []; limit = limit } ≡ writer)
unfolding new_writer
new_writer_valid reserve limit writer h =
    let (granted, (first, same)) =
      bind_valid (ensure (reserve limit) "bounded writer allocation failed")
        (λ _. valid record { bytes = []; limit = limit }) writer h in
    (
      ensure_valid (reserve limit) "bounded writer allocation failed" granted first,
      valid_injective same,
    )

labelled_valid :
    {A : Type 0} (label : String) (r : Checked A) (a : A) → labelled label r ≡ valid a → r ≡ valid a
labelled_valid label (valid x) a h = h
labelled_valid label (invalid message) a h = absurd cc

module _ (reserve : ℕ → Bool) {T : Type 0} (pieces : T → List Bytes) where
  -- A value is written whole and within the limit, or not at all.
  pub serialize_limited_valid :
      (value : T) (limit : ℕ) (bytes : Bytes)
      → serialize_limited reserve pieces value limit ≡ valid bytes
      → (bytes ≡ joined (pieces value)) × (length bytes ≤ limit)
  unfolding serialize_limited
  serialize_limited_valid value limit bytes h =
      let (writer, (opened, h')) = bind_valid (new_writer reserve limit) _ bytes h in
      let (granted, fresh) = new_writer_valid reserve limit writer opened in
      let (written, (wrote, same)) =
        bind_valid (labelled _ (write_pieces (pieces value) writer)) _ bytes h' in
      let (all, bounded) =
        write_pieces_valid (pieces value) (record { bytes = []; limit = limit }) written
          (omega arith)
          (subst (λ w. write_pieces (pieces value) w ≡ valid written) (sym fresh)
            (labelled_valid _ (write_pieces (pieces value) writer) written wrote)) in
      let kept = valid_injective same in (sym kept ∙ all, omega (arith, ap length kept))

  pub encode_frame_valid :
      (value : T) (bytes : Bytes)
      → encode_frame reserve pieces value ≡ valid bytes
      → (bytes ≡ joined (pieces value) ++ 10 ∷ []) × (length bytes ≤ Caps.max_response_frame_bytes)
  unfolding encode_frame
  encode_frame_valid value bytes h =
      let (line, (wrote, same)) =
        bind_valid (serialize_limited reserve pieces value (Caps.max_response_frame_bytes - 1)) _
          bytes h in
      let (all, bounded) = serialize_limited_valid value _ line wrote in
      let ended = valid_injective same in
      let longer = length-append line (10 ∷ []) in
      (sym ended ∙ ap (λ xs. xs ++ 10 ∷ []) all, omega (arith, ap length ended))

  pub encode_frame_fits :
      (value : T)
      → reserve (Caps.max_response_frame_bytes - 1) ≡ true
      → length (joined (pieces value)) < Caps.max_response_frame_bytes
      → encode_frame reserve pieces value ≡ valid (joined (pieces value) ++ 10 ∷ [])
  unfolding encode_frame serialize_limited new_writer
  encode_frame_fits value granted small =
      rw
        (
          granted,
          write_pieces_fits (pieces value)
              (record { bytes = []; limit = Caps.max_response_frame_bytes - 1 }) (omega arith)
              (omega arith),
        )
        refl
