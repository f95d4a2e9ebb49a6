-- ===== src/Storage/Recovery.antt =====
-- Commits and recovery: what the files hold after each step of a commit, whatever the system
-- answers, and what `recover` makes of them.
use aira_graphdb.Base.{
  ℕ, ◌<◌, ◌≤◌, String, ◌≡◌, Option, some, [], ◌++◌, arith, length, u64_mod, inl, inr,
}
use aira_graphdb.Errors.{GraphDbError, ok, err}
use aira_graphdb.Graph.{InMemoryGraphStore}
use aira_graphdb.Io.{Bytes, World, done}
use aira_graphdb.Storage.{Codec, IsFaithful, PersistedSnapshot, snapshot_of, empty_catalog}
use aira_graphdb.Storage.Format.{
  encode_snapshot, latest_snapshot, incompatible, decode_binary_wal, wal_loop, le_bytes, isize_max,
  Decoded, decodes, panics,
}
use aira_graphdb.Storage.Engine.{
  append_wal, persist_after_wal, load_graph, load_or_init, recover, load_cluster_metadata,
}
use aira_graphdb.Storage.RoundTrip.{
  wal_bytes, snapshot_bytes, decode-encode_snapshot, latest_snapshot-wal_bytes, IoResult-cases,
  log_header, from_le_bytes-le_bytes,
}

-- The system stops failing, after the snapshot file was left with any content.
abbrev pub calm : World → Option Bytes → World
calm w db = record w { db_content = db; schedule = [] }

module _ (c : Codec) where
  -- Appending to the log leaves the snapshot file alone, whether it succeeds or fails.
  pub db_content-append_wal :
      (tx_id : String) (s : PersistedSnapshot) (w : World)
      → (append_wal c tx_id s w).1.db_content ≡ w.db_content
  unfolding append_wal
  db_content-append_wal tx_id s w = ground arith

  -- A log that was appended to without an error holds the one entry of this commit.
  pub append_wal_lem :
      (tx_id : String) (s : PersistedSnapshot) (w : World)
      → (append_wal c tx_id s w).0 ≡ ok tt
      → (payload : Bytes) × (c.serialize_record (record { tx_id = tx_id; snapshot = s })
          ≡ done payload)
        × ((append_wal c tx_id s w).1.wal_content ≡ some (wal_bytes payload))
  unfolding append_wal
  append_wal_lem tx_id s w h =
      elim (IoResult-cases (c.serialize_record (record { tx_id = tx_id; snapshot = s }))) [
        | inl (payload, e) ↦ (payload, e, ground arith)
        | inr (m, e) ↦ absurd (ground arith)
      ]

module _ (c : Codec) (faithful : IsFaithful c) (tx_id : String) (g : InMemoryGraphStore) (w : World)
    (image : Bytes) (encodes : c.serialize_snapshot (snapshot_of g) ≡ done image) where
  encoded : encode_snapshot c (snapshot_of g) ≡ ok (snapshot_bytes image)
  unfolding encode_snapshot
  encoded = rw encodes

  -- With a codec that reads back what it wrote: once the log entry of a commit is written, its
  -- bytes are no more than a `Vec` can hold (`isize::MAX`), and no further call fails, recovery
  -- gives the graph of this commit, whatever became of the snapshot file, and the snapshot file
  -- holds it afterwards.
  pub recover_after_append :
      (damaged : Option Bytes)
      → ((payload : Bytes)
          → c.serialize_record (record { tx_id = tx_id; snapshot = snapshot_of g }) ≡ done payload
          → length payload ≤ isize_max)
      → (append_wal c tx_id (snapshot_of g) w).0 ≡ ok tt
      → recover c (calm (append_wal c tx_id (snapshot_of g) w).1 damaged) ≡ (
        decodes (ok g),
        calm (append_wal c tx_id (snapshot_of g) w).1 (some (snapshot_bytes image)),
      )
  unfolding recover
  recover_after_append damaged room h =
      let (payload, e, log) = append_wal_lem c tx_id (snapshot_of g) w h in
      ground (
        arith,
        log,
        latest_snapshot-wal_bytes c faithful (record { tx_id = tx_id; snapshot = snapshot_of g })
            payload e (room payload e),
        encoded,
      )

  persisted :
      (persist_after_wal c tx_id g w).0 ≡ ok tt
      → (persist_after_wal c tx_id g w).1.db_content ≡ some (snapshot_bytes image)
  unfolding persist_after_wal
  persisted h = ground (arith, encoded)

  -- With a codec that reads back what it wrote: after a commit to the files that succeeded, and
  -- where no further call fails, loading gives its graph and changes nothing.
  pub load_after_persist :
      (persist_after_wal c tx_id g w).0 ≡ ok tt
      → let after = record (persist_after_wal c tx_id g w).1 { schedule = [] } in
        load_graph c after ≡ (ok g, after)
  unfolding load_graph
  load_after_persist h = ground (
    arith,
    persisted h,
    decode-encode_snapshot c faithful (snapshot_of g) (snapshot_bytes image) encoded,
  )

  -- With a codec that reads back what it wrote: after a commit to the files that succeeded, and
  -- where no further call fails, the snapshot file names no partitions or replicas, whatever it
  -- named before.
  pub metadata_after_persist :
      (persist_after_wal c tx_id g w).0 ≡ ok tt
      → let after = record (persist_after_wal c tx_id g w).1 { schedule = [] } in
        load_cluster_metadata c after ≡ (ok empty_catalog, after)
  unfolding load_cluster_metadata
  metadata_after_persist h = ground (
    arith,
    persisted h,
    decode-encode_snapshot c faithful (snapshot_of g) (snapshot_bytes image) encoded,
  )

module _ (c : Codec) (tx_id : String) (g : InMemoryGraphStore) (w : World) where
  -- A commit that fails at the log leaves the snapshot file as it was and gives the same error.
  pub persist_without_log :
      (e : GraphDbError)
      → (append_wal c tx_id (snapshot_of g) w).0 ≡ err e
      → ((persist_after_wal c tx_id g w).0 ≡ err e)
        × ((persist_after_wal c tx_id g w).1.db_content ≡ w.db_content)
  unfolding persist_after_wal
  persist_without_log e h = ground (arith, db_content-append_wal c tx_id (snapshot_of g) w)

module _ (c : Codec) (w : World) where
  -- What is to become of a log behind whose header stands one entry that was cut short, by the place
  -- of the cut, or one whose length is above that of any `Vec`.
  pub data IsTorn : Bytes → Decoded InMemoryGraphStore × World → Type 0 where
    in_length :
        (part : Bytes)
        → length part < 8
        → IsTorn part (decodes (load_or_init c w).0, (load_or_init c w).1)
    in_payload :
        (size : ℕ) (part : Bytes)
        → length part < size
        → size ≤ isize_max
        → IsTorn
            (le_bytes 8 size ++ part)
            (decodes (incompatible "truncated wal entry payload: failed to fill whole buffer"), w)
    too_long :
        (size : ℕ) (rest : Bytes)
        → isize_max < size
        → size < u64_mod
        → IsTorn (le_bytes 8 size ++ rest) (panics, w)

  -- Let no call fail, and one entry stand in the log, behind its header. If the entry ends within
  -- the eight bytes of its length, it is ignored: recovery gives what loading the snapshot file, or
  -- making a new one, gives. If it has its whole length, at most `isize::MAX`, but fewer bytes than
  -- that, recovery fails and no file changes. If that length is above `isize::MAX`, recovery panics
  -- and no file changes.
  pub recover_torn :
      (tail : Bytes) (answer : Decoded InMemoryGraphStore × World)
      → IsTorn tail answer
      → w.schedule ≡ []
      → w.wal_content ≡ some (log_header ++ tail)
      → recover c w ≡ answer
  unfolding recover latest_snapshot decode_binary_wal wal_loop
  recover_torn tail answer (in_length part short) calm_now log = ground (arith, log, calm_now)
  recover_torn tail answer (in_payload size part torn fits) calm_now log =
      ground (arith, from_le_bytes-le_bytes 8 size (omega arith), log, calm_now)
  recover_torn tail answer (too_long size rest above fits) calm_now log =
      ground (arith, from_le_bytes-le_bytes 8 size (omega arith), log, calm_now)
