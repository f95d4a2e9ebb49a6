-- ===== src/Storage.antt =====
-- The storage engine, `src/storage.rs`, over the files of `Io`: what is stored. `Format` has the
-- bytes of snapshots and of the write-ahead log, `Engine` the operations.
-- The encodings of bincode and serde_json are not part of the program: they are a `Codec`, a
-- parameter of every operation.
pub mod Format
pub mod Engine
pub mod RoundTrip
pub mod Fuel
pub mod Recovery
pub mod Samples
use aira_graphdb.Base.{ℕ, String, ◌≡◌, Option, List, [], ◌∷◌}
use aira_graphdb.HashMap.{HashMap}
use aira_graphdb.Graph.{InMemoryGraphStore}
use aira_graphdb.Io.{Bytes, IoResult, done}

abbrev pub current_catalog_version : ℕ
current_catalog_version = 1

-- b"AGSN"
abbrev pub snapshot_magic : Bytes
snapshot_magic = b'A' ∷ b'G' ∷ b'S' ∷ b'N' ∷ []

-- b"AGWL"
abbrev pub wal_magic : Bytes
wal_magic = b'A' ∷ b'G' ∷ b'W' ∷ b'L' ∷ []

abbrev pub storage_format_version : ℕ
storage_format_version = 1

pub record PartitionMetadata : Type 0 where
  pub id : String
  pub range : String

pub record ReplicaMetadata : Type 0 where
  pub partition_id : String
  pub replicas : List String

pub record ClusterMetadataCatalog : Type 0 where
  pub catalog_schema_version : String
  pub partitions : List PartitionMetadata
  pub replicas : List ReplicaMetadata

pub record PersistedSnapshot : Type 0 where
  pub catalog_version : ℕ
  pub cluster_metadata : ClusterMetadataCatalog
  pub graph : InMemoryGraphStore

pub record WalCommitRecord : Type 0 where
  pub tx_id : String
  pub snapshot : PersistedSnapshot

pub record AuditEvent : Type 0 where
  pub event_type : String
  pub code : Option String
  pub message : String
  pub tx_id : Option String
  pub payload : HashMap String String
  pub timestamp_epoch_ms : ℕ

-- bincode and serde_json, as far as the engine calls them. A text is a list of code points.
pub record Codec : Type 0 where
  pub serialize_snapshot : PersistedSnapshot → IoResult Bytes
  pub deserialize_snapshot : Bytes → IoResult PersistedSnapshot
  pub serialize_record : WalCommitRecord → IoResult Bytes
  pub deserialize_record : Bytes → IoResult WalCommitRecord
  pub snapshot_from_json : Bytes → IoResult PersistedSnapshot
  pub record_from_json : List ℕ → IoResult WalCommitRecord
  pub event_to_json : AuditEvent → IoResult Bytes
  pub event_from_json : List ℕ → IoResult AuditEvent

-- The documented behaviour of bincode: what it wrote, it reads back.
pub record IsFaithful (c : Codec) : Type 0 where
  pub snapshot :
      (s : PersistedSnapshot) (b : Bytes)
      → c.serialize_snapshot s ≡ done b
      → c.deserialize_snapshot b ≡ done s
  pub wal_record :
      (r : WalCommitRecord) (b : Bytes)
      → c.serialize_record r ≡ done b
      → c.deserialize_record b ≡ done r

abbrev pub empty_catalog : ClusterMetadataCatalog
empty_catalog = record { catalog_schema_version = "v1"; partitions = []; replicas = [] }

-- The snapshot that a commit writes.
abbrev pub snapshot_of : InMemoryGraphStore → PersistedSnapshot
snapshot_of graph = record {
  catalog_version = current_catalog_version;
  cluster_metadata = empty_catalog;
  graph = graph;
}
