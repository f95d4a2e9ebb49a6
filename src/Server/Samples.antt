-- ===== src/Server/Samples.antt =====
-- The server theorems on one connection that shakes hands, authorizes and works.
use aira_graphdb.Base.{ℕ, true, false, ◌≡◌, ◌≢◌, refl, none, some, List, [], ◌∷◌, arith}
use aira_graphdb.Errors.{ok}
use aira_graphdb.Graph.{new}
use aira_graphdb.Storage.Samples.{bare, codec}
use aira_graphdb.Tx.{manager_of}
use aira_graphdb.Auth.{split_dot}
use aira_graphdb.Auth.Samples.{config, codec as tokens, at_150}
use aira_graphdb.Runtime.{DeploymentMode}
use aira_graphdb.Query.{CypherDialect}
use aira_graphdb.HashMap
use aira_graphdb.Graph.{InMemoryGraphStore}
use aira_graphdb.Graph.Reach.{Reach}
use aira_graphdb.Io.{World}
use aira_graphdb.Tx.{graph_of}
use aira_graphdb.Str.{trim, contains_upper}
use aira_graphdb.Query.Panic.{ends_outside}
use aira_graphdb.Query.Samples.{whole}
use aira_graphdb.Server.Queries.{query_executor, query-Reach, panic_stops_server}
use aira_graphdb.Server.{
  lock_poisoned_error, ServerRequest, SessionState, Shared, Executor, process_request,
  run_handshake, run_auth,
}
use aira_graphdb.Server.Session.{Turn, session, unready_refused, error_code, is_app_request}
use aira_graphdb.Server.Effects.{IsKept, only_commit_writes}

-- An executor that counts nodes.
abbrev counting : Executor ℕ
counting = record {
  resolve = λ text dialect. (CypherDialect.open_cypher9, text);
  execute = λ g text dialect. (some (ok 0), g);
}

abbrev shared : Shared
shared = record {
  runtime = record {
    tx_manager = manager_of codec new;
    config = record { mode = DeploymentMode.server; port = none; concurrency_profile = none };
    auth = config;
  };
  poisoned = false;
}

abbrev turns : List Turn
turns =
    record {
      request = ServerRequest.handshake "protocol-p0@1.0.0" "canonical-types@1.0.0";
      shared = shared;
      world = bare;
    }
    ∷ record { request = ServerRequest.auth "h.c.s"; shared = shared; world = at_150 }
    ∷ record { request = ServerRequest.begin_tx; shared = shared; world = bare }
    ∷ []

not_ready : SessionState.connected ≢ SessionState.app_ready
not_ready h = ground arith

turns_ready : session codec tokens counting SessionState.connected turns ≡ SessionState.app_ready
unfolding process_request run_handshake run_auth split_dot
turns_ready = refl

unready_refused_example :
    let (response, shared', state', w') =
      process_request codec tokens counting
        (ServerRequest.commit_tx "tx-1")
        shared
        SessionState.tls_ok
        bare in
    (error_code response ≡ some "AUTH_REQUIRED")
    × (shared' ≡ shared)
    × (state' ≡ SessionState.tls_ok)
    × (w'.db_content ≡ bare.db_content)
    × (w'.wal_content ≡ bare.wal_content)
unready_refused_example =
    unready_refused codec tokens counting (ServerRequest.commit_tx "tx-1") shared
      SessionState.tls_ok bare refl (λ h. ground arith)

only_commit_writes_example :
    let (response, shared', state', w') =
      process_request codec tokens counting
        (ServerRequest.query "tx-9" "MATCH" none)
        shared
        SessionState.app_ready
        bare in
    IsKept shared bare shared' w'
only_commit_writes_example =
    only_commit_writes codec tokens counting (ServerRequest.query "tx-9" "MATCH" none) shared
      SessionState.app_ready bare refl

-- One transaction is open.
abbrev with_tx : Shared
with_tx = record shared {
  runtime = record shared.runtime {
    tx_manager = record (manager_of codec new) {
      tx_seq = 1;
      sessions = ("tx-1", record { graph = new; base_version = 0 }) ∷ [];
    };
  };
}

tx_there : graph_of with_tx.runtime.tx_manager "tx-1" ≡ ok new
unfolding graph_of HashMap.get
tx_there = refl

query-Reach_example :
    let (response, shared', state', w') =
      process_request codec tokens
        (query_executor whole)
        (ServerRequest.query "tx-1" "CREATE (n:City)" none)
        with_tx
        SessionState.app_ready
        bare in
    (graph' : InMemoryGraphStore) × ((graph_of shared'.runtime.tx_manager "tx-1" ≡ ok graph')
      × Reach graph')
query-Reach_example =
    query-Reach codec tokens whole "tx-1" "CREATE (n:City)" none with_tx bare new tx_there
      Reach.start (omega arith) refl

panic_stops_server_example :
    let (response, shared', state', w') =
      process_request codec tokens
        (query_executor whole)
        (ServerRequest.query "tx-1" " MATCH (n) RETURN é" (some CypherDialect.open_cypher9))
        with_tx
        SessionState.app_ready
        bare in
    (response ≡ none)
    × ((request : ServerRequest) (later : World)
        → is_app_request request ≡ true
        → process_request codec tokens
            (query_executor whole)
            request
            shared'
            SessionState.app_ready
            later
          ≡ (lock_poisoned_error, shared', SessionState.app_ready, later))
unfolding trim contains_upper ends_outside
panic_stops_server_example =
    panic_stops_server codec tokens whole "tx-1" " MATCH (n) RETURN é" "MATCH (n) RETURN " "" "é"
      with_tx bare new tx_there refl refl (omega arith) refl refl
