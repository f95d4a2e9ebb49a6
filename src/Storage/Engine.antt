-- ===== src/Storage/Engine.antt =====
-- The operations of `StorageEngine`. A method takes the codec, and is an action on the files.
use Prim.Native.String.{◌++◌ as append}
use aira_graphdb.Base.{
  ℕ, String, Bool, true, false, not, Option, none, some, List, [], ◌∷◌, nat_eq, if◌then◌else◌,
  length,
}
use aira_graphdb.Base.Decimal.{to_string}
use aira_graphdb.Errors.{ErrorCode, Result, ok, err}
use aira_graphdb.Graph
use aira_graphdb.Graph.{InMemoryGraphStore}
use aira_graphdb.Io.{
  Bytes, World, File, IoResult, done, failed, Action, pure, lift, ◌>>=◌, ◌>>◌, map_err,
  map_err_result, exists, read, write, open_truncate, open_append, write_all, flush, ◌then_io◌,
}
use aira_graphdb.Io.Utf8.{from_utf8, filled_lines}
use aira_graphdb.Storage.{
  Codec, PersistedSnapshot, ClusterMetadataCatalog, AuditEvent, snapshot_of, wal_magic,
  storage_format_version, current_catalog_version,
}
use aira_graphdb.Storage.Format.{
  Decoded, decodes, panics, incompatible, le_bytes, encode_snapshot, decode_snapshot,
  latest_snapshot, text_of,
}

module _ (c : Codec) where
  unfoldable pub persist_snapshot_from_struct : PersistedSnapshot → Action (Unit {0})
  unfolding write
  persist_snapshot_from_struct snapshot = do
    serialized ← lift (encode_snapshot c snapshot)
    map_err ErrorCode.incompatible_format "write snapshot failed: " (write File.db serialized)

  unfoldable pub persist_snapshot : InMemoryGraphStore → Action (Unit {0})
  unfolding persist_snapshot_from_struct
  persist_snapshot graph = persist_snapshot_from_struct (snapshot_of graph)

  abbrev pub catalog_mismatch : ℕ → String
  catalog_mismatch version =
      append "catalog version mismatch: expected "
        (append (to_string current_catalog_version) (append ", got " (to_string version)))

  -- The rest of `load_graph` once the snapshot is read.
  unfoldable pub accept_snapshot : PersistedSnapshot × Bool → Action InMemoryGraphStore
  unfolding persist_snapshot_from_struct
  accept_snapshot (snapshot, migrated) =
      if not (nat_eq snapshot.catalog_version current_catalog_version)
      then lift (incompatible (catalog_mismatch snapshot.catalog_version))
      else if migrated
      then (do persist_snapshot_from_struct snapshot; pure snapshot.graph)
      else pure snapshot.graph

  unfoldable pub load_graph : Action InMemoryGraphStore
  unfolding accept_snapshot read
  load_graph = do
    raw ← map_err ErrorCode.incompatible_format "cannot read db file: " (read File.db)
    decoded ← lift (decode_snapshot c raw)
    accept_snapshot decoded

  unfoldable pub load_or_init : Action InMemoryGraphStore
  unfolding persist_snapshot load_graph
  load_or_init w =
      if exists File.db w then load_graph w else (persist_snapshot Graph.new >> load_graph) w

  abbrev pub migrate : PersistedSnapshot × Bool → Action ClusterMetadataCatalog
  migrate (snapshot, true) = do
    persist_snapshot_from_struct snapshot
    pure snapshot.cluster_metadata
  migrate (snapshot, false) = pure snapshot.cluster_metadata

  unfoldable pub load_cluster_metadata : Action ClusterMetadataCatalog
  unfolding persist_snapshot_from_struct read
  load_cluster_metadata = do
    raw ← map_err ErrorCode.incompatible_format "cannot read db file: " (read File.db)
    decoded ← lift (decode_snapshot c raw)
    migrate decoded

  abbrev pub graph_or_new : Action InMemoryGraphStore
  graph_or_new w = if exists File.db w then load_graph w else pure Graph.new w

  unfoldable pub persist_cluster_metadata : ClusterMetadataCatalog → Action (Unit {0})
  unfolding persist_snapshot_from_struct load_graph
  persist_cluster_metadata metadata = do
    graph ← graph_or_new
    let snapshot : PersistedSnapshot = record {
      catalog_version = current_catalog_version;
      cluster_metadata = metadata;
      graph = graph;
    }
    persist_snapshot_from_struct snapshot

  unfoldable pub append_wal : String → PersistedSnapshot → Action (Unit {0})
  unfolding open_truncate write_all flush
  append_wal tx_id snapshot = do
    map_err ErrorCode.incompatible_format "open wal failed: " (open_truncate File.wal)
    map_err ErrorCode.incompatible_format "write wal header failed: " (
        write_all File.wal wal_magic then_io write_all File.wal (le_bytes 2 storage_format_version))
    payload ← lift (
        map_err_result ErrorCode.incompatible_format "serialize wal failed: "
          (c.serialize_record (record { tx_id = tx_id; snapshot = snapshot })))
    map_err ErrorCode.incompatible_format "append wal failed: " (
        write_all File.wal (le_bytes 8 (length payload))
        then_io write_all File.wal payload
        then_io flush)

  unfoldable pub persist_after_wal : String → InMemoryGraphStore → Action (Unit {0})
  unfolding persist_snapshot_from_struct
  persist_after_wal tx_id graph = do
    append_wal tx_id (snapshot_of graph)
    persist_snapshot_from_struct (snapshot_of graph)

  -- The rest of `recover` once the log is read.
  unfoldable pub adopt : Option PersistedSnapshot → Action InMemoryGraphStore
  unfolding load_or_init persist_snapshot_from_struct
  adopt none = load_or_init
  adopt (some snapshot) = do persist_snapshot_from_struct snapshot; pure snapshot.graph

  abbrev decoded : {A : Type 0} → Result A × World → Decoded A × World
  decoded (result, w) = (decodes result, w)

  abbrev adopt_decoded :
      Decoded (Option PersistedSnapshot) → World → Decoded InMemoryGraphStore × World
  adopt_decoded panics w = (panics, w)
  adopt_decoded (decodes (err e)) w = (decodes (err e), w)
  adopt_decoded (decodes (ok latest)) w = decoded (adopt latest w)

  abbrev read_log : Result Bytes × World → Decoded InMemoryGraphStore × World
  read_log (err e, w) = (decodes (err e), w)
  read_log (ok raw, w) = adopt_decoded (latest_snapshot c raw) w

  unfoldable pub recover : World → Decoded InMemoryGraphStore × World
  unfolding adopt load_or_init read
  recover w =
      if exists File.wal w
      then read_log
          (map_err ErrorCode.incompatible_format "cannot read wal file: " (read File.wal) w)
      else decoded (load_or_init w)

  unfoldable pub append_audit_event : AuditEvent → Action (Unit {0})
  unfolding open_append write_all flush
  append_audit_event event = do
    map_err ErrorCode.incompatible_format "open audit failed: " (open_append File.audit)
    payload ← lift (
        map_err_result ErrorCode.incompatible_format "serialize audit failed: "
          (c.event_to_json event))
    map_err ErrorCode.incompatible_format "append audit failed: "
        (write_all File.audit payload then_io write_all File.audit (10 ∷ []) then_io flush)

  abbrev pub event_of : IoResult AuditEvent → Result AuditEvent
  event_of (done event) = ok event
  event_of (failed e) = incompatible (append "invalid audit entry: " e)

  -- The loop over the lines of the audit file.
  unfoldable pub parse_events : List (List ℕ) → Result (List AuditEvent)
  parse_events [] = ok []
  parse_events (line ∷ lines) =
      let rest = parse_events lines in
      elim (event_of (c.event_from_json line)) [
        | err e ↦ err e
        | ok event ↦ elim rest [ err e ↦ err e | ok events ↦ ok (event ∷ events) ]
      ]

  unfoldable pub load_audit_events : Action (List AuditEvent)
  unfolding parse_events read
  load_audit_events w =
      if exists File.audit w
      then (do
        raw ← map_err ErrorCode.incompatible_format "cannot read audit file: " (read File.audit)
        text ←
            lift
              (text_of (from_utf8 raw) "cannot read audit file: stream did not contain valid UTF-8")
        lift (parse_events (filled_lines text)))
          w
      else pure [] w
