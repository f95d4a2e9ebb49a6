-- ===== src/Storage/Samples.antt =====
-- The storage theorems on concrete files: a codec for small snapshots, a world without files, and
-- a commit of a graph with one node.
use aira_graphdb.Base.{
  ℕ, zero, suc, ◌+◌, ◌≤◌, String, Bool, true, ◌&&◌, ◌≡◌, refl, Option, none, some, List, [], ◌∷◌,
  ◌++◌, arith, eq_iff, ◌==◌, if◌then◌else◌, string_eq, length, inl, inr, Option-cases, Bool-cases,
  is_empty,
}
use aira_graphdb.HashMap.{HashMap}
use aira_graphdb.Graph.{GraphNode, InMemoryGraphStore}
use aira_graphdb.Io.{Bytes, World, Outcome, IoResult, done, failed}
use aira_graphdb.Storage.{
  Codec, IsFaithful, PersistedSnapshot, WalCommitRecord, empty_catalog, snapshot_of,
}
use aira_graphdb.Errors.{ErrorCode, ok, err, new as new_error}
use aira_graphdb.Storage.Format.{
  encode_snapshot, decode_snapshot, incompatible, le_bytes, isize_max, decodes, panics,
  latest_snapshot, decode_binary_wal, wal_loop,
}
use aira_graphdb.Storage.Engine.{
  append_wal, persist_after_wal, recover, load_graph, load_or_init, load_cluster_metadata,
}
use aira_graphdb.Storage.RoundTrip.{snapshot_bytes, log_header}
use aira_graphdb.Storage.Recovery.{
  calm, recover_after_append, load_after_persist, metadata_after_persist, recover_torn, in_payload,
}

abbrev first_node : GraphNode
first_node = record { id = "n1"; labels = []; properties = [] }

empty_lem {ℓ} : {A : Type ℓ} (xs : List A) → is_empty xs ≡ true → xs ≡ []
empty_lem [] h = refl
empty_lem (x ∷ xs) h = absurd (ground arith)

-- Whether the node is the first one that a store makes, without labels and properties.
abbrev is_first : GraphNode → Bool
is_first n = (n.id == "n1") && is_empty n.labels && is_empty n.properties

is_first_lem : (n : GraphNode) → is_first n ≡ true → n ≡ first_node
is_first_lem n h = ground (arith, eq_iff n.id "n1", empty_lem n.labels, empty_lem n.properties)

abbrev nodes_number : HashMap String GraphNode → Option ℕ
nodes_number [] = some 0
nodes_number ((k, n) ∷ []) = if (k == "n1") && is_first n then some 1 else none
nodes_number _ = none

abbrev numbered_nodes : ℕ → HashMap String GraphNode
numbered_nodes zero = []
numbered_nodes (suc _) = ("n1", first_node) ∷ []

numbered_nodes-nodes_number :
    (m : HashMap String GraphNode) (k : ℕ) → nodes_number m ≡ some k → numbered_nodes k ≡ m
numbered_nodes-nodes_number [] k h = ground arith
numbered_nodes-nodes_number ((j, n) ∷ []) k h = ground (arith, eq_iff j "n1", is_first_lem n)
numbered_nodes-nodes_number (a ∷ b ∷ m) k h = absurd (ground arith)

-- Snapshots without edges, partitions and replicas, and with at most that node.
abbrev is_small : PersistedSnapshot → Bool
is_small s =
    is_empty s.graph.edges
    && (s.cluster_metadata.catalog_schema_version == "v1")
    && is_empty s.cluster_metadata.partitions
    && is_empty s.cluster_metadata.replicas

abbrev numbers : PersistedSnapshot → ℕ → Bytes
numbers s nodes = s.catalog_version ∷ s.graph.next_node_seq ∷ s.graph.next_edge_seq ∷ nodes ∷ []

abbrev write_small : PersistedSnapshot → IoResult Bytes
write_small s = elim (nodes_number s.graph.nodes) [
  | none ↦ failed "unsupported"
  | some k ↦ if is_small s then done (numbers s k) else failed "unsupported"
]

abbrev read_small : Bytes → IoResult PersistedSnapshot
read_small (version ∷ node_seq ∷ edge_seq ∷ nodes ∷ []) = done (record {
  catalog_version = version;
  cluster_metadata = empty_catalog;
  graph = record {
    nodes = numbered_nodes nodes;
    edges = [];
    next_node_seq = node_seq;
    next_edge_seq = edge_seq;
  };
})
read_small _ = failed "unsupported"

abbrev record_of : IoResult PersistedSnapshot → IoResult WalCommitRecord
record_of (done s) = done (record { tx_id = "tx-1"; snapshot = s })
record_of (failed m) = failed m

abbrev pub codec : Codec
codec = record {
  serialize_snapshot = write_small;
  deserialize_snapshot = read_small;
  serialize_record =
      λ r. if r.tx_id == "tx-1" then write_small r.snapshot else failed "unsupported";
  deserialize_record = λ bytes. record_of (read_small bytes);
  snapshot_from_json = λ bytes. failed "unsupported";
  record_from_json = λ line. failed "unsupported";
  event_to_json = λ event. done (123 ∷ 125 ∷ []);
  event_from_json = λ line. failed "unsupported";
}

read-write_small :
    (s : PersistedSnapshot) (bytes : Bytes) → write_small s ≡ done bytes → read_small bytes ≡ done s
read-write_small s bytes h = elim (Option-cases (nodes_number s.graph.nodes)) [
  | inl n ↦ absurd (ground arith)
  | inr (k, n) ↦ elim (Bool-cases (is_small s)) [
    | inr large ↦ absurd (ground arith)
    | inl small ↦ ground (
      arith,
      numbered_nodes-nodes_number s.graph.nodes k n,
      empty_lem s.graph.edges,
      empty_lem s.cluster_metadata.partitions,
      empty_lem s.cluster_metadata.replicas,
      eq_iff s.cluster_metadata.catalog_schema_version "v1",
    )
  ]
]

pub codec-IsFaithful : IsFaithful codec
codec-IsFaithful = record {
  snapshot = read-write_small;
  wal_record =
      λ r bytes h. ground (arith, read-write_small r.snapshot bytes, eq_iff r.tx_id "tx-1");
}

-- The store of one node, its snapshot and the files where nothing was written yet.
abbrev pub one_node : InMemoryGraphStore
one_node = record {
  nodes = ("n1", first_node) ∷ [];
  edges = [];
  next_node_seq = 1;
  next_edge_seq = 0;
}

abbrev pub one_image : Bytes
one_image = 1 ∷ 1 ∷ 0 ∷ 1 ∷ []

abbrev one_record : WalCommitRecord
one_record = record { tx_id = "tx-1"; snapshot = snapshot_of one_node }

abbrev pub bare : World
bare = record {
  db_content = none;
  wal_content = none;
  audit_content = none;
  lock_content = none;
  schedule = [];
  clock = [];
}

encode_one : encode_snapshot codec (snapshot_of one_node) ≡ ok (snapshot_bytes one_image)
unfolding encode_snapshot
encode_one = refl

pub room_one :
    (payload : Bytes)
    → codec.serialize_record one_record ≡ done payload
    → length payload ≤ isize_max
room_one payload h = let same : one_image ≡ payload = ground arith in rw (← same) (omega arith)

append_one : (append_wal codec "tx-1" (snapshot_of one_node) bare).0 ≡ ok tt
unfolding append_wal
append_one = refl

pub persist_one : (persist_after_wal codec "tx-1" one_node bare).0 ≡ ok tt
unfolding persist_after_wal encode_snapshot append_wal
persist_one = refl

-- The snapshot file was left with three bytes of garbage.
recover_after_append_example :
    let after = (append_wal codec "tx-1" (snapshot_of one_node) bare).1 in
    recover codec (calm after (some (7 ∷ 8 ∷ 9 ∷ [])))
    ≡ (decodes (ok one_node), calm after (some (snapshot_bytes one_image)))
recover_after_append_example =
    recover_after_append codec codec-IsFaithful "tx-1" one_node bare one_image refl
      (some (7 ∷ 8 ∷ 9 ∷ [])) room_one append_one

load_after_persist_example :
    let after = record (persist_after_wal codec "tx-1" one_node bare).1 { schedule = [] } in
    load_graph codec after ≡ (ok one_node, after)
load_after_persist_example =
    load_after_persist codec codec-IsFaithful "tx-1" one_node bare one_image refl persist_one

metadata_after_persist_example :
    let after = record (persist_after_wal codec "tx-1" one_node bare).1 { schedule = [] } in
    load_cluster_metadata codec after ≡ (ok empty_catalog, after)
metadata_after_persist_example =
    metadata_after_persist codec codec-IsFaithful "tx-1" one_node bare one_image refl persist_one

-- The disk is full when the payload is written.
abbrev full : World
full = record bare {
  db_content = some (snapshot_bytes one_image);
  schedule =
      Outcome.succeeds
      ∷ Outcome.succeeds
      ∷ Outcome.succeeds
      ∷ Outcome.succeeds
      ∷ Outcome.fails "No space left on device" (some (65 ∷ []))
      ∷ [];
}

append_full :
    (append_wal codec "tx-1" (snapshot_of one_node) full).0
    ≡ err (new_error ErrorCode.incompatible_format "append wal failed: No space left on device")
unfolding append_wal
append_full = refl

abbrev torn_log : World
torn_log = record bare {
  db_content = some (snapshot_bytes one_image);
  wal_content = some (log_header ++ le_bytes 8 4 ++ (1 ∷ 1 ∷ []));
}

recover_torn_example :
    recover codec torn_log
    ≡ (decodes (incompatible "truncated wal entry payload: failed to fill whole buffer"), torn_log)
recover_torn_example =
    recover_torn codec torn_log (le_bytes 8 4 ++ (1 ∷ 1 ∷ []))
      (decodes (incompatible "truncated wal entry payload: failed to fill whole buffer"), torn_log)
      (in_payload 4 (1 ∷ 1 ∷ []) (omega arith) (omega arith)) refl refl

-- The log was cut in the length of its entry, and the snapshot file is read.
abbrev stub_log : World
stub_log = record torn_log { wal_content = some (log_header ++ (4 ∷ 0 ∷ 0 ∷ [])) }

recover_stub : recover codec stub_log ≡ (decodes (ok one_node), stub_log)
unfolding recover latest_snapshot decode_binary_wal wal_loop load_or_init load_graph decode_snapshot
recover_stub = refl

-- The length of the entry is 2 ^ 63.
abbrev huge_log : World
huge_log = record torn_log { wal_content = some (log_header ++ le_bytes 8 (isize_max + 1)) }

recover_huge : recover codec huge_log ≡ (panics, huge_log)
unfolding recover latest_snapshot decode_binary_wal wal_loop
recover_huge = refl

-- The length of the entry, and the entry.
abbrev one_entry : Bytes
one_entry = le_bytes 8 4 ++ one_image
