-- ===== src/Tx.antt =====
-- Transactions, `src/tx.rs`: each transaction works on a copy of the graph, and the first of two
-- that began together to commit wins. The files stand in the `World` beside the manager.
pub mod Commit
pub mod Isolation
pub mod History
pub mod Samples
use Prim.Native.String.{◌++◌ as append}
use aira_graphdb.Base.{
  ℕ, ◌+◌, ◌%◌, String, Bool, true, false, not, Option, none, some, List, [], ◌∷◌, nat_eq,
  if◌then◌else◌, string_eq, u64_mod,
}
use aira_graphdb.Base.Decimal.{to_string}
use aira_graphdb.HashMap
use aira_graphdb.HashMap.{HashMap}
use aira_graphdb.Errors.{ErrorCode, GraphDbError, Result, ok, err, new, as_str}
use aira_graphdb.Graph.{InMemoryGraphStore}
use aira_graphdb.Io.{World, Action, now}
use aira_graphdb.Storage.{Codec, AuditEvent}
use aira_graphdb.Storage.Format.{Decoded, decodes, panics}
use aira_graphdb.Storage.Engine.{
  persist_after_wal, recover, load_or_init, append_audit_event, load_audit_events,
}

pub record TxSession : Type 0 where
  pub graph : InMemoryGraphStore
  pub base_version : ℕ

pub record TransactionManager : Type 0 where
  pub base_graph : InMemoryGraphStore
  pub sessions : HashMap String TxSession
  pub tx_seq : ℕ
  pub graph_version : ℕ

abbrev pub tx_name : ℕ → String
tx_name seq = append "tx-" (to_string seq)

abbrev pub unknown_transaction : String → GraphDbError
unknown_transaction tx_id = new ErrorCode.retryable_conflict (append "unknown transaction: " tx_id)

abbrev pub conflict : String → GraphDbError
conflict tx_id = new ErrorCode.retryable_conflict (append "deterministic conflict for tx_id=" tx_id)

unfoldable pub begin : TransactionManager → TransactionManager × String
begin m =
    let seq = (m.tx_seq + 1) % u64_mod in
    let session : TxSession = record { graph = m.base_graph; base_version = m.graph_version } in
    (
      record m { tx_seq = seq; sessions = HashMap.insert (tx_name seq) session m.sessions },
      tx_name seq,
    )

abbrev pub session_or_unknown : String → Option TxSession → Result TxSession
session_or_unknown tx_id none = err (unknown_transaction tx_id)
session_or_unknown tx_id (some s) = ok s

-- `graph_mut`, as reading the graph of a transaction ...
unfoldable pub graph_of : TransactionManager → String → Result InMemoryGraphStore
graph_of m tx_id = elim (session_or_unknown tx_id (HashMap.get tx_id m.sessions)) [
  | err e ↦ err e
  | ok session ↦ ok session.graph
]

-- ... and as writing it back, where the transaction is there.
unfoldable pub set_graph : TransactionManager → String → InMemoryGraphStore → TransactionManager
set_graph m tx_id graph = elim (HashMap.get tx_id m.sessions) [
  | none ↦ m
  | some session ↦
      let session' : TxSession = record session { graph = graph } in
      record m { sessions = HashMap.insert tx_id session' m.sessions }
]

abbrev pub current_graph : TransactionManager → InMemoryGraphStore
current_graph m = m.base_graph

module _ (c : Codec) where
  unfoldable pub record_audit_event :
      String → Option String → String → Option String → HashMap String String → Action (Unit {0})
  unfolding now append_audit_event
  record_audit_event event_type code message tx_id payload w =
      let (time, w') = now w in
      append_audit_event c
        (record {
          event_type = event_type;
          code = code;
          message = message;
          tx_id = tx_id;
          payload = payload;
          timestamp_epoch_ms = time;
        })
        w'

  -- `let _ = self.record_audit_event(..)`: a failure to record it is ignored.
  unfoldable pub audited : String → Option String → String → String → World → World
  audited event_type code message tx_id w =
      (record_audit_event event_type code message (some tx_id) [] w).1

  -- The rest of `commit`, once the session is taken out.
  unfoldable pub commit_session :
      TransactionManager
      → String
      → TxSession
      → World
      → Result (Unit {0}) × TransactionManager × World
  commit_session m tx_id session w =
      if not (nat_eq session.base_version m.graph_version)
      then (
        err (conflict tx_id),
        m,
        audited "DETERMINISTIC_CONFLICT" (some (as_str ErrorCode.retryable_conflict))
            (conflict tx_id).message tx_id w,
      )
      else (let (r, w') = persist_after_wal c tx_id session.graph w in
          elim r [
            | err e ↦ (err e, m, w')
            | ok _ ↦ (
              ok tt,
              record m {
                base_graph = session.graph;
                graph_version = (m.graph_version + 1) % u64_mod;
              },
              w',
            )
          ])

  unfoldable pub commit :
      TransactionManager → String → World → Result (Unit {0}) × TransactionManager × World
  unfolding commit_session
  commit m tx_id w = elim (HashMap.get tx_id m.sessions) [
    | none ↦ (
      err (unknown_transaction tx_id),
      m,
      audited "DETERMINISTIC_CONFLICT" (some (as_str ErrorCode.retryable_conflict))
          (unknown_transaction tx_id).message tx_id w,
    )
    | some session ↦
        commit_session (record m { sessions = HashMap.remove tx_id m.sessions }) tx_id session w
  ]

  unfoldable pub rollback :
      TransactionManager → String → World → Result (Unit {0}) × TransactionManager × World
  rollback m tx_id w = elim (HashMap.get tx_id m.sessions) [
    | none ↦ (err (unknown_transaction tx_id), m, w)
    | some session ↦ (
      ok tt,
      record m { sessions = HashMap.remove tx_id m.sessions },
      audited "ROLLBACK_EXECUTED" none "transaction rollback executed" tx_id w,
    )
  ]

  -- `TransactionManager::recover`
  unfoldable pub recover_manager :
      TransactionManager → World → Decoded (Unit {0}) × TransactionManager × World
  recover_manager m w =
      let (r, w') = recover c w in
      elim r [
        | panics ↦ (panics, m, w')
        | decodes (err e) ↦ (decodes (err e), m, w')
        | decodes (ok graph) ↦ (
          decodes (ok tt),
          record m {
            base_graph = graph;
            sessions = [];
            graph_version = (m.graph_version + 1) % u64_mod;
          },
          w',
        )
      ]

  abbrev pub manager_of : InMemoryGraphStore → TransactionManager
  manager_of graph = record { base_graph = graph; sessions = []; tx_seq = 0; graph_version = 0 }

  -- `TransactionManager::new`
  unfoldable pub open_manager : Action TransactionManager
  open_manager w =
      let (r, w') = load_or_init c w in
      elim r [ err e ↦ (err e, w') | ok graph ↦ (ok (manager_of graph), w') ]

  abbrev pub audit_events : Action (List AuditEvent)
  audit_events = load_audit_events c
