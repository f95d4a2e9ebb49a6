-- ===== src/Storage/Fuel.antt =====
-- The loop over the entries of the log: its fuel is enough.
use aira_graphdb.Base.{
  ℕ, zero, suc, ◌<◌, ◌≤◌, false, ◌≡◌, refl, Option, some, [], ◌∷◌, arith, length, ltb, inl, inr,
  Bool-cases,
}
use aira_graphdb.Errors.{Result-cases}
use aira_graphdb.Io.{Bytes}
use aira_graphdb.Storage.{Codec, PersistedSnapshot}
use aira_graphdb.Storage.Format.{
  wal_loop, drop, take, from_le_bytes, entry, isize_max, wal_snapshot,
}

-- Nothing is longer than what it was dropped from.
length-drop : (n : ℕ) (bytes : Bytes) → length (drop n bytes) ≤ length bytes
length-drop zero bytes = omega arith
length-drop (suc n) [] = omega arith
length-drop (suc n) (b ∷ bytes) = omega (arith, length-drop n bytes)

length-drop_eight :
    (bytes : Bytes) → ltb (length bytes) 8 ≡ false → length (drop 8 bytes) < length bytes
length-drop_eight [] h = absurd (ground arith)
length-drop_eight (b ∷ bytes) h = omega (arith, length-drop 7 bytes)

module _ (c : Codec) where
  -- With any fuel above the number of the bytes the loop over the entries of the log gives the
  -- same: it never ends for want of fuel.
  pub wal_loop_fuel :
      (fuel more : ℕ) (bytes : Bytes) (latest : Option PersistedSnapshot)
      → length bytes < fuel
      → length bytes < more
      → wal_loop c fuel bytes latest ≡ wal_loop c more bytes latest
  unfolding wal_loop
  wal_loop_fuel zero more bytes latest enough also = absurd (omega arith)
  wal_loop_fuel (suc fuel) zero bytes latest enough also = absurd (omega arith)
  wal_loop_fuel (suc fuel) (suc more) bytes latest enough also =
      let len = from_le_bytes (take 8 bytes) in
      let rest = drop 8 bytes in
      elim (Bool-cases (ltb (length bytes) 8)) [
        | inl short ↦ rw (short, wal_loop) refl
        | inr long ↦
            let shorter = length-drop_eight bytes long in
            let left = length-drop len rest in
            rw (long, wal_loop)
              (elim (Bool-cases (ltb isize_max len)) [
                | inl above ↦ rw (above, wal_loop) refl
                | inr below ↦
                    rw (below, wal_loop)
                      (elim (Bool-cases (entry rest len)) [
                        | inr torn ↦ rw (torn, wal_loop) refl
                        | inl whole ↦
                            rw (whole, wal_loop)
                              (elim (Result-cases
                                (wal_snapshot (c.deserialize_record (take len rest)))) [
                                  | inr (e, f) ↦ rw (f, wal_loop) refl
                                  | inl (s, f) ↦
                                      rw (f, wal_loop)
                                        (wal_loop_fuel fuel more (drop len rest) (some s)
                                          (omega arith) (omega arith))
                                ])
                      ])
              ])
      ]
