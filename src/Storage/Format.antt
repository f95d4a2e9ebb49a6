-- ===== src/Storage/Format.antt =====
-- The bytes of a snapshot file and of the write-ahead log: `encode_snapshot`, `decode_snapshot`,
-- `decode_binary_wal` and the reading of a log that was written as JSON.
use Prim.Native.String.{◌++◌ as append}
use aira_graphdb.Base.{
  ℕ, zero, suc, ◌+◌, ◌*◌, ◌/◌, ◌%◌, ◌-◌, ◌^◌, String, Bool, true, false, not, ◌&&◌, Option, none,
  some, List, [], ◌∷◌, ◌++◌, leb, ltb, nat_eq, if◌then◌else◌, length, ◌≡◌, refl, ◌⊎◌, inl, inr,
}
use aira_graphdb.Base.Decimal.{to_string}
use aira_graphdb.Errors.{ErrorCode, GraphDbError, Result, ok, err, new}
use aira_graphdb.Io.{Bytes, IoResult, done, failed}
use aira_graphdb.Io.Utf8.{from_utf8, filled_lines}
use aira_graphdb.Storage.{
  Codec, PersistedSnapshot, WalCommitRecord, snapshot_magic, wal_magic, storage_format_version,
}

-- `starts_with` of byte slices
abbrev pub starts_with : Bytes → Bytes → Bool
starts_with bytes [] = true
starts_with [] (p ∷ ps) = false
starts_with (b ∷ bs) (p ∷ ps) = nat_eq b p && starts_with bs ps

-- `to_le_bytes`, with the number of bytes
abbrev pub le_bytes : ℕ → ℕ → Bytes
le_bytes zero n = []
le_bytes (suc k) n = (n % 256) ∷ le_bytes k (n / 256)

-- `from_le_bytes`
abbrev pub from_le_bytes : Bytes → ℕ
from_le_bytes [] = 0
from_le_bytes (b ∷ bs) = b + 256 * from_le_bytes bs

abbrev pub take : ℕ → Bytes → Bytes
take zero bs = []
take (suc n) [] = []
take (suc n) (b ∷ bs) = b ∷ take n bs

abbrev pub drop : ℕ → Bytes → Bytes
drop zero bs = bs
drop (suc n) [] = []
drop (suc n) (b ∷ bs) = drop n bs

abbrev pub incompatible {ℓ} : {A : Type ℓ} → String → Result A
incompatible message = err (new ErrorCode.incompatible_format message)

abbrev pub encode_header : IoResult Bytes → Result Bytes
encode_header (done payload) = ok (snapshot_magic ++ le_bytes 2 storage_format_version ++ payload)
encode_header (failed e) = incompatible (append "serialize snapshot failed: " e)

unfoldable pub encode_snapshot : Codec → PersistedSnapshot → Result Bytes
encode_snapshot c snapshot = encode_header (c.serialize_snapshot snapshot)

abbrev pub parsed : Bool → IoResult PersistedSnapshot → Result (PersistedSnapshot × Bool)
parsed migrated (done snapshot) = ok (snapshot, migrated)
parsed migrated (failed e) = incompatible (append "cannot parse db snapshot: " e)

abbrev pub version_mismatch : String → ℕ → String
version_mismatch what version = append what (
    append " format version mismatch: expected "
      (append (to_string storage_format_version) (append ", got " (to_string version))))

unfoldable pub decode_snapshot : Codec → Bytes → Result (PersistedSnapshot × Bool)
decode_snapshot c raw =
    let version = from_le_bytes (take 2 (drop 4 raw)) in
    if starts_with raw snapshot_magic
    then (if ltb (length raw) 6
        then incompatible "snapshot file is truncated"
        else if not (nat_eq version storage_format_version)
        then incompatible (version_mismatch "snapshot" version)
        else parsed false (c.deserialize_snapshot (drop 6 raw)))
    else parsed true (c.snapshot_from_json raw)

-- What the reading of a log gives: a result, or a panic of the thread.
pub data Decoded {ℓ} (A : Type ℓ) : Type ℓ where
  decodes : Result A → Decoded A
  panics : Decoded A

pub Decoded-cases {ℓ} :
    {A : Type ℓ} (d : Decoded A)
    → ((a : A) × (d ≡ decodes (ok a)))
      ⊎ (((e : GraphDbError) × (d ≡ decodes (err e))) ⊎ (d ≡ panics))
Decoded-cases (decodes (ok a)) = inl (a, refl)
Decoded-cases (decodes (err e)) = inr (inl (e, refl))
Decoded-cases panics = inr (inr refl)

-- `isize::MAX`, the most bytes of a `Vec`
abbrev pub isize_max : ℕ
isize_max = 2 ^ 63 - 1

-- The loop over the log's entries: eight bytes of length, and that many bytes of a record. It ends
-- where no whole length is left, and `vec![0_u8; len]` panics if a `Vec` cannot have that many bytes. Each round reads a length, so fuel above the number of the bytes
-- is enough; `latest` is the last snapshot read.
abbrev pub entry : Bytes → ℕ → Bool
entry rest len = leb len (length rest)

abbrev pub wal_snapshot : IoResult WalCommitRecord → Result PersistedSnapshot
wal_snapshot (done record') = ok record'.snapshot
wal_snapshot (failed e) = incompatible (append "invalid wal entry: " e)

unfoldable pub wal_loop :
    Codec → ℕ → Bytes → Option PersistedSnapshot → Decoded (Option PersistedSnapshot)
wal_loop c zero bytes latest = decodes (ok latest)
wal_loop c (suc fuel) bytes latest =
    let len = from_le_bytes (take 8 bytes) in
    let rest = drop 8 bytes in
    elim (ltb (length bytes) 8) [
      | true ↦ decodes (ok latest)
      | false ↦ elim (ltb isize_max len) [
        | true ↦ panics
        | false ↦ elim (entry rest len) [
          | false ↦
              decodes (incompatible "truncated wal entry payload: failed to fill whole buffer")
          | true ↦ elim (wal_snapshot (c.deserialize_record (take len rest))) [
            | err e ↦ decodes (err e)
            | ok snapshot ↦ wal_loop c fuel (drop len rest) (some snapshot)
          ]
        ]
      ]
    ]

unfoldable pub decode_binary_wal : Codec → Bytes → Decoded (Option PersistedSnapshot)
unfolding wal_loop
decode_binary_wal c raw =
    let version = from_le_bytes (take 2 (drop 4 raw)) in
    if ltb (length raw) 6
    then decodes (incompatible "wal file is truncated")
    else if not (nat_eq version storage_format_version)
    then decodes (incompatible (version_mismatch "wal" version))
    else wal_loop c (suc (length (drop 6 raw))) (drop 6 raw) none

-- The loop over the lines of a log that was written as JSON.
unfoldable pub json_wal :
    Codec → List (List ℕ) → Option PersistedSnapshot → Result (Option PersistedSnapshot)
json_wal c [] latest = ok latest
json_wal c (line ∷ lines) latest = elim (wal_snapshot (c.record_from_json line)) [
  | err e ↦ err e
  | ok snapshot ↦ json_wal c lines (some snapshot)
]

-- The error text of the standard library, without the position that it names.
abbrev pub text_of : Option (List ℕ) → String → Result (List ℕ)
text_of none message = incompatible message
text_of (some text) message = ok text

unfoldable pub latest_snapshot : Codec → Bytes → Decoded (Option PersistedSnapshot)
unfolding decode_binary_wal json_wal
latest_snapshot c raw =
    if starts_with raw wal_magic
    then decode_binary_wal c raw
    else elim (text_of (from_utf8 raw) "invalid wal encoding: invalid utf-8 sequence") [
      | err e ↦ decodes (err e)
      | ok text ↦ decodes (json_wal c (filled_lines text) none)
    ]
