-- ===== src/Server.antt =====
-- The server, `src/server.rs`: what one request does to the shared runtime and to the session of its
-- connection. Sockets and JSON are left out: a request is a value, and connections that run beside
-- one another take turns, since each request locks the runtime.
-- Where a thread panics, the request has no response, the connection is over, and the mutex of the
-- runtime is poisoned. The executor of queries is a parameter, any function of the session's graph,
-- which it may have changed also where it fails; `Server/Queries` puts that of `Query` in its place.
pub mod Session
pub mod Effects
pub mod Queries
pub mod Samples
use aira_graphdb.Base.{
  ℕ, String, Bool, true, false, not, Option, none, some, List, [], ◌∷◌, ◌==◌, string_eq, nat_eq,
  if◌then◌else◌,
}
use aira_graphdb.HashMap.{HashMap}
use aira_graphdb.Errors.{ErrorCode, GraphDbError, Result, ok, err, as_str}
use aira_graphdb.Graph.{InMemoryGraphStore}
use aira_graphdb.Io.{World}
use aira_graphdb.Storage.{Codec}
use aira_graphdb.Tx.{
  TransactionManager, begin, graph_of, set_graph, commit, rollback, record_audit_event,
}
use aira_graphdb.Auth.{TokenCodec}
use aira_graphdb.Protocol.{HandshakeRequest}
use aira_graphdb.Query.{CypherDialect}
use aira_graphdb.Runtime.{ServerRuntime, handshake as runtime_handshake, authorize}

pub data ServerRequest : Type 0 where
  ping : ServerRequest
  handshake : String → String → ServerRequest
  auth : String → ServerRequest
  begin_tx : ServerRequest
  query : String → String → Option CypherDialect → ServerRequest
  commit_tx : String → ServerRequest
  rollback_tx : String → ServerRequest

pub data ServerResponse (R : Type 0) : Type 0 where
  pong : ServerResponse R
  handshake_ok : String → String → ServerResponse R
  auth_ok : ServerResponse R
  tx_begun : String → ServerResponse R
  query_result : R → ServerResponse R
  tx_committed : String → ServerResponse R
  tx_rolled_back : String → ServerResponse R
  error : String → String → Option (HashMap String String) → ServerResponse R

pub data SessionState : Type 0 where
  connected tls_ok auth_ok app_ready : SessionState

-- The derived `==` of the states.
abbrev state_number : SessionState → ℕ
state_number SessionState.connected = 0
state_number SessionState.tls_ok = 1
state_number SessionState.auth_ok = 2
state_number SessionState.app_ready = 3

abbrev pub state_eq : SessionState → SessionState → Bool
state_eq s t = nat_eq (state_number s) (state_number t)

-- The runtime behind its mutex, which is poisoned once a thread panics in it.
pub record Shared : Type 0 where
  pub runtime : ServerRuntime
  pub poisoned : Bool

-- `resolve_cypher_dialect` and `execute_query_with_dialect`; `none` is a panic.
pub record Executor (R : Type 0) : Type 0 where
  pub resolve : String → Option CypherDialect → CypherDialect × String
  pub execute : InMemoryGraphStore → String → CypherDialect → Option (Result R) × InMemoryGraphStore

module _ {R : Type 0} where
  abbrev pub to_error_response : GraphDbError → Option (ServerResponse R)
  to_error_response e = some (ServerResponse.error (as_str e.code) e.message e.details)

  abbrev pub lock_poisoned_error : Option (ServerResponse R)
  lock_poisoned_error =
      some (ServerResponse.error "UNSUPPORTED_FEATURE" "runtime lock poisoned" none)

  abbrev pub auth_required : String → Option (ServerResponse R)
  auth_required message = some (ServerResponse.error "AUTH_REQUIRED" message none)

abbrev pub set_manager : TransactionManager → Shared → Shared
set_manager m s = record s { runtime = record s.runtime { tx_manager = m } }

-- The event that `audit_on_error_with_guard` records for an error, if there is one.
abbrev pub audited_event : ErrorCode → Option String
audited_event ErrorCode.auth_failed = some "AUTH_FAILED"
audited_event ErrorCode.auth_required = some "AUTH_REQUIRED_REJECTED"
audited_event ErrorCode.referential_integrity_violation = some "REFERENTIAL_INTEGRITY_VIOLATION"
audited_event ErrorCode.retryable_conflict = some "DETERMINISTIC_CONFLICT"
audited_event _ = none

module _ {R : Type 0} (c : Codec) (tokens : TokenCodec) (executor : Executor R) where
  -- What a request gives: the response if there is one, the runtime, the session and the files.
  abbrev pub Answer : Type 0
  Answer = Option (ServerResponse R) × Shared × SessionState × World

  unfoldable pub audit_on_error_with_guard : GraphDbError → String → World → World
  unfolding record_audit_event
  audit_on_error_with_guard e tx_id w = elim (audited_event e.code) [
    | none ↦ w
    | some event ↦ (record_audit_event c event (some (as_str e.code)) e.message (some tx_id) [] w).1
  ]

  -- `record_audit` of a request that came too early
  unfoldable pub record_audit : Bool → String → String → World → World
  unfolding record_audit_event
  record_audit poisoned message request w =
      if poisoned
      then w
      else (record_audit_event c "AUTH_REQUIRED_REJECTED" (some "AUTH_REQUIRED") message none
          (("request", request) ∷ []) w).1

  -- A request of an application, which needs a session that is ready and a mutex that is sound.
  abbrev app_request :
      String
      → String
      → (Shared → World → Option (ServerResponse R) × Shared × World)
      → Shared
      → SessionState
      → World
      → Answer
  app_request message request run shared state w =
      if not (state_eq state SessionState.app_ready)
      then (auth_required message, shared, state, record_audit shared.poisoned message request w)
      else if shared.poisoned
      then (lock_poisoned_error, shared, state, w)
      else (let (response, shared', w') = run shared w in (response, shared', state, w'))

  abbrev refused_audited :
      GraphDbError → String → Shared → World → Option (ServerResponse R) × Shared × World
  refused_audited e tx_id shared w =
      (to_error_response e, shared, audit_on_error_with_guard e tx_id w)

  unfoldable pub run_begin : Shared → World → Option (ServerResponse R) × Shared × World
  unfolding begin
  run_begin shared w =
      let (m, tx_id) = begin shared.runtime.tx_manager in
      (some (ServerResponse.tx_begun tx_id), set_manager m shared, w)

  unfoldable pub run_query :
      String
      → String
      → Option CypherDialect
      → Shared
      → World
      → Option (ServerResponse R) × Shared × World
  unfolding graph_of set_graph audit_on_error_with_guard
  run_query tx_id statement dialect shared w =
      let (resolved, text) = executor.resolve statement dialect in
      let m = shared.runtime.tx_manager in
      elim (graph_of m tx_id) [
        | err e ↦ refused_audited e tx_id shared w
        | ok graph ↦
            let (r, graph') = executor.execute graph text resolved in
            let shared' = set_manager (set_graph m tx_id graph') shared in
            elim r [
              | none ↦ (none, record shared' { poisoned = true }, w)
              | some (err e) ↦ refused_audited e tx_id shared' w
              | some (ok result) ↦ (some (ServerResponse.query_result result), shared', w)
            ]
      ]

  unfoldable pub run_commit : String → Shared → World → Option (ServerResponse R) × Shared × World
  unfolding commit audit_on_error_with_guard
  run_commit tx_id shared w =
      let (r, m, w') = commit c shared.runtime.tx_manager tx_id w in
      elim r [
        | err e ↦ refused_audited e tx_id (set_manager m shared) w'
        | ok _ ↦ (some (ServerResponse.tx_committed tx_id), set_manager m shared, w')
      ]

  unfoldable pub run_rollback : String → Shared → World → Option (ServerResponse R) × Shared × World
  unfolding rollback audit_on_error_with_guard
  run_rollback tx_id shared w =
      let (r, m, w') = rollback c shared.runtime.tx_manager tx_id w in
      elim r [
        | err e ↦ refused_audited e tx_id (set_manager m shared) w'
        | ok _ ↦ (some (ServerResponse.tx_rolled_back tx_id), set_manager m shared, w')
      ]

  unfoldable pub run_handshake : String → String → Shared → SessionState → World → Answer
  unfolding runtime_handshake
  run_handshake protocol canonical shared state w =
      if shared.poisoned
      then (lock_poisoned_error, shared, state, w)
      else (elim (runtime_handshake
          (record { protocol_version = protocol; canonical_type_system_version = canonical })) [
            | err e ↦ (to_error_response e, shared, state, w)
            | ok _ ↦ (
              some (ServerResponse.handshake_ok protocol canonical),
              shared,
              SessionState.tls_ok,
              w,
            )
          ])

  unfoldable pub run_auth : String → Shared → SessionState → World → Answer
  unfolding authorize record_audit record_audit_event
  run_auth token shared state w =
      if not (state_eq state SessionState.tls_ok)
      then (
        auth_required "handshake required before auth",
        shared,
        state,
        record_audit shared.poisoned "handshake required before auth" "auth" w,
      )
      else if shared.poisoned
      then (lock_poisoned_error, shared, state, w)
      else (let (r, w') = authorize tokens shared.runtime (some token) w in
          elim r [
            | ok _ ↦ (some ServerResponse.auth_ok, shared, SessionState.app_ready, w')
            | err e ↦ (
              to_error_response e,
              shared,
              state,
              (record_audit_event c "AUTH_FAILED" (some (as_str e.code)) e.message none [] w').1,
            )
          ])

  unfoldable pub process_request : ServerRequest → Shared → SessionState → World → Answer
  unfolding run_begin run_query run_commit run_rollback run_handshake run_auth record_audit
  process_request ServerRequest.ping shared state w = (some ServerResponse.pong, shared, state, w)
  process_request (ServerRequest.handshake protocol canonical) shared state w =
      run_handshake protocol canonical shared state w
  process_request (ServerRequest.auth token) shared state w = run_auth token shared state w
  process_request ServerRequest.begin_tx shared state w =
      app_request "APP_READY required before begin_tx" "begin_tx" run_begin shared state w
  process_request (ServerRequest.query tx_id text dialect) shared state w =
      app_request "APP_READY required before query" "query" (run_query tx_id text dialect) shared
        state w
  process_request (ServerRequest.commit_tx tx_id) shared state w =
      app_request "APP_READY required before commit" "commit_tx" (run_commit tx_id) shared state w
  process_request (ServerRequest.rollback_tx tx_id) shared state w =
      app_request "APP_READY required before rollback" "rollback_tx" (run_rollback tx_id) shared
        state w
