-- ===== src/Runtime/Opening.antt =====
-- Opening the database against the write lock, and the versions of the handshake.
use aira_graphdb.Base.{
  String, Bool, true, ◌≡◌, ◌↔◌, Option, none, some, [], arith, eq_iff, is_some, string_eq, inl, inr,
}
use aira_graphdb.Errors.{ErrorCode, GraphDbError, Result, ok, err, Result-cases}
use aira_graphdb.Io.{World}
use aira_graphdb.Storage.{Codec, PersistedSnapshot}
use aira_graphdb.Tx.{open_manager, TransactionManager}
use aira_graphdb.Storage.Engine.{
  load_or_init, load_graph, persist_snapshot_from_struct, accept_snapshot,
}
use aira_graphdb.Lock.{acquire_write_lock}
use aira_graphdb.Protocol.{HandshakeRequest}
use aira_graphdb.Runtime.{EmbeddedRuntime, open_embedded, open_guarded, handshake}

-- A handshake is accepted exactly for the one version of the protocol and the one version of the
-- type system that the contract lists.
pub handshake_iff :
    (request : HandshakeRequest)
    → (handshake request ≡ ok tt) ↔ (
        (request.protocol_version ≡ "protocol-p0@1.0.0")
        × (request.canonical_type_system_version ≡ "canonical-types@1.0.0"))
unfolding handshake
handshake_iff request =
    let protocol : String = "protocol-p0@1.0.0" in
    let canonical : String = "canonical-types@1.0.0" in
    ground (
      arith,
      eq_iff protocol request.protocol_version,
      eq_iff canonical request.canonical_type_system_version,
    )

-- The code of a refusal.
abbrev pub code {ℓ} : {A : Type ℓ} → Result A → Option ErrorCode
code (ok _) = none
code (err e) = some e.code

module _ (c : Codec) (w : World) where
  -- While another process holds the lock, opening the database fails and touches neither the
  -- snapshot file nor the log nor the lock file.
  pub open_locked :
      is_some w.lock_content ≡ true
      → let (r, w') = open_embedded c w in
        (code r ≡ some ErrorCode.write_lock_conflict)
        × (w'.db_content ≡ w.db_content)
        × (w'.wal_content ≡ w.wal_content)
        × (w'.lock_content ≡ w.lock_content)
  unfolding open_embedded
  open_locked there = ground arith

persist_same :
    (c : Codec) (s : PersistedSnapshot) (w : World)
    → (persist_snapshot_from_struct c s w).1.lock_content ≡ w.lock_content
unfolding persist_snapshot_from_struct
persist_same c s w = ground arith

accept_same :
    (c : Codec) (p : PersistedSnapshot × Bool) (w : World)
    → (accept_snapshot c p w).1.lock_content ≡ w.lock_content
unfolding accept_snapshot
accept_same c p w = ground (arith, persist_same c p.0 w)

load_same : (c : Codec) (w : World) → (load_graph c w).1.lock_content ≡ w.lock_content
unfolding load_graph
load_same c w = ground arith

init_same : (c : Codec) (w : World) → (load_or_init c w).1.lock_content ≡ w.lock_content
unfolding load_or_init
init_same c w = ground (arith, load_same c w)

persist_calm :
    (c : Codec) (s : PersistedSnapshot) (w : World)
    → w.schedule ≡ []
    → (persist_snapshot_from_struct c s w).1.schedule ≡ []
unfolding persist_snapshot_from_struct
persist_calm c s w calm = ground arith

accept_calm :
    (c : Codec) (p : PersistedSnapshot × Bool) (w : World)
    → w.schedule ≡ []
    → (accept_snapshot c p w).1.schedule ≡ []
unfolding accept_snapshot
accept_calm c p w calm = ground (arith, persist_calm c p.0 w)

load_calm : (c : Codec) (w : World) → w.schedule ≡ [] → (load_graph c w).1.schedule ≡ []
unfolding load_graph
load_calm c w calm = ground arith

init_calm : (c : Codec) (w : World) → w.schedule ≡ [] → (load_or_init c w).1.schedule ≡ []
unfolding load_or_init
init_calm c w calm = ground (arith, load_calm c w)

module _ (c : Codec) (w : World) where
  manager_same : (open_manager c w).1 ≡ (load_or_init c w).1
  unfolding open_manager
  manager_same = ground arith

  guarded_locked :
      (m : TransactionManager)
      → (open_guarded c w).0 ≡ ok m
      → (open_guarded c w).1.lock_content ≡ w.lock_content
  unfolding open_guarded
  guarded_locked m h = ground (arith, manager_same, init_same c w)

  guarded_unlocked :
      (e : GraphDbError)
      → (open_guarded c w).0 ≡ err e
      → w.schedule ≡ []
      → (open_guarded c w).1.lock_content ≡ none
  unfolding open_guarded
  guarded_unlocked e h calm = ground (arith, manager_same, init_same c w, init_calm c w)

acquire_fresh :
    (w : World)
    → (acquire_write_lock w).0 ≡ ok tt
    → (w.lock_content ≡ none) × ((acquire_write_lock w).1.lock_content ≡ some [])
unfolding acquire_write_lock
acquire_fresh w h = ground arith

acquire_calm : (w : World) → w.schedule ≡ [] → (acquire_write_lock w).1.schedule ≡ []
unfolding acquire_write_lock
acquire_calm w h = ground arith

acquire_free :
    (w : World) → w.schedule ≡ [] → w.lock_content ≡ none → (acquire_write_lock w).0 ≡ ok tt
unfolding acquire_write_lock
acquire_free w calm free = ground arith

module _ (c : Codec) (w : World) where
  abbrev locked : World
  locked = (acquire_write_lock w).1

  -- A database that was opened holds the lock: its lock file is there, and it was not there before.
  open_holds_lock :
      (runtime : EmbeddedRuntime)
      → (open_embedded c w).0 ≡ ok runtime
      → (w.lock_content ≡ none) × (is_some (open_embedded c w).1.lock_content ≡ true)
  unfolding open_embedded acquire_write_lock
  open_holds_lock runtime h = elim (Result-cases (open_guarded c locked).0) [
    | inr (e, g) ↦ absurd (ground arith)
    | inl (m, g) ↦ ground (arith, guarded_locked c locked m g, acquire_fresh w)
  ]

  -- Where no call to the system fails, opening a database that cannot be read fails, and the lock
  -- file that was made for it is gone again.
  pub open_releases_lock :
      (e : GraphDbError)
      → (open_embedded c w).0 ≡ err e
      → w.schedule ≡ []
      → w.lock_content ≡ none
      → (open_embedded c w).1.lock_content ≡ none
  unfolding open_embedded acquire_write_lock
  open_releases_lock e h calm free = elim (Result-cases (open_guarded c locked).0) [
    | inl (m, g) ↦ absurd (ground (arith, acquire_free w calm free))
    | inr (e', g) ↦
        ground
          (arith, guarded_unlocked c locked e' g (acquire_calm w calm), acquire_free w calm free)
  ]
