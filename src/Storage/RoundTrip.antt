-- ===== src/Storage/RoundTrip.antt =====
-- What the engine writes it reads back: snapshots, and the entry of the write-ahead log.
use aira_graphdb.Base.{
  ℕ, zero, suc, ◌/◌, ◌≤◌, String, false, ◌≡◌, refl, ap, some, [], ◌∷◌, ◌++◌, arith, length, ◌⊎◌,
  inl, inr,
}
use aira_graphdb.Errors.{ok}
use aira_graphdb.Io.{Bytes, IoResult, done, failed}
use aira_graphdb.Storage.{
  Codec, IsFaithful, PersistedSnapshot, WalCommitRecord, snapshot_magic, wal_magic,
  storage_format_version,
}
use aira_graphdb.Storage.Format.{
  le_bytes, from_le_bytes, take, drop, encode_snapshot, decode_snapshot, wal_loop,
  decode_binary_wal, latest_snapshot, isize_max, decodes,
}

-- A number that fits into so many bytes.
abbrev pub Fits : ℕ → ℕ → Type 0
Fits zero n = n ≡ 0
Fits (suc k) n = Fits k (n / 256)

pub from_le_bytes-le_bytes : (k n : ℕ) → Fits k n → from_le_bytes (le_bytes k n) ≡ n
from_le_bytes-le_bytes zero n h = omega arith
from_le_bytes-le_bytes (suc k) n h = omega (arith, from_le_bytes-le_bytes k (n / 256) h)

take_all : (bs : Bytes) → take (length bs) bs ≡ bs
take_all [] = refl
take_all (b ∷ bs) = ap (λ (l : Bytes). b ∷ l) (take_all bs)

drop_all : (bs : Bytes) → drop (length bs) bs ≡ []
drop_all [] = refl
drop_all (b ∷ bs) = drop_all bs

abbrev pub log_header : Bytes
log_header = wal_magic ++ le_bytes 2 storage_format_version

-- The log file after a commit: the header, the length of the entry, the entry.
abbrev pub wal_bytes : Bytes → Bytes
wal_bytes payload = (log_header ++ le_bytes 8 (length payload)) ++ payload

abbrev pub snapshot_bytes : Bytes → Bytes
snapshot_bytes payload = snapshot_magic ++ le_bytes 2 storage_format_version ++ payload

pub IoResult-cases {ℓ} :
    {A : Type ℓ} (r : IoResult A) → ((a : A) × (r ≡ done a)) ⊎ ((m : String) × (r ≡ failed m))
IoResult-cases (done a) = inl (a, refl)
IoResult-cases (failed m) = inr (m, refl)

-- Only a snapshot that bincode accepts is encoded, and behind the header.
pub encode_snapshot_lem :
    (c : Codec) (s : PersistedSnapshot) (bytes : Bytes)
    → encode_snapshot c s ≡ ok bytes
    → (payload : Bytes) × (c.serialize_snapshot s ≡ done payload) × (bytes ≡ snapshot_bytes payload)
unfolding encode_snapshot
encode_snapshot_lem c s bytes h = elim (IoResult-cases (c.serialize_snapshot s)) [
  | inl (payload, e) ↦ (payload, e, ground arith)
  | inr (m, e) ↦ absurd (ground arith)
]

module _ (c : Codec) (faithful : IsFaithful c) where
  -- With a codec that reads back what it wrote, a snapshot file that was encoded is decoded to the
  -- same snapshot, and needs no migration.
  pub decode-encode_snapshot :
      (s : PersistedSnapshot) (bytes : Bytes)
      → encode_snapshot c s ≡ ok bytes
      → decode_snapshot c bytes ≡ ok (s, false)
  unfolding encode_snapshot decode_snapshot
  decode-encode_snapshot s bytes h =
      let (payload, e, same) = encode_snapshot_lem c s bytes h in
      rw same (ground (arith, faithful.snapshot s payload e))

  -- With a codec that reads back what it wrote, the log of one commit is
  -- read back as its snapshot.
  pub latest_snapshot-wal_bytes :
      (r : WalCommitRecord) (payload : Bytes)
      → c.serialize_record r ≡ done payload
      → length payload ≤ isize_max
      → latest_snapshot c (wal_bytes payload) ≡ decodes (ok (some r.snapshot))
  unfolding latest_snapshot decode_binary_wal wal_loop
  latest_snapshot-wal_bytes r payload h room = ground (
    arith,
    from_le_bytes-le_bytes 8 (length payload) (omega arith),
    take_all payload,
    drop_all payload,
    faithful.wal_record r payload h,
  )
