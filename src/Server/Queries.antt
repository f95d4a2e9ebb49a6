-- ===== src/Server/Queries.antt =====
-- The server with the executor of the query language: a query keeps the graph of its transaction sound,
-- and one that panics ends the work of every connection.
use Prim.Native.Char.{Char, code}
use Prim.Native.String.{◌++◌}
use aira_graphdb.Base.{
  ◌+◌, ◌<◌, ◌≤◌, ◌≡◌, String, true, false, Option, none, some, refl, arith, u64_mod, inl, inr, ◌∙◌,
}
use aira_graphdb.Errors.{Result, ok}
use aira_graphdb.Graph.{InMemoryGraphStore}
use aira_graphdb.Graph.Reach.{Reach}
use aira_graphdb.Io.{World}
use aira_graphdb.Storage.{Codec}
use aira_graphdb.Tx.{graph_of}
use aira_graphdb.Tx.Isolation.{set_graph_lem}
use aira_graphdb.Auth.{TokenCodec}
use aira_graphdb.Str.{trim, contains_upper}
use aira_graphdb.Str.Trim.{trim_idem}
use aira_graphdb.Query.{F64, CypherDialect, QueryResult, Outcome, returns, panics, out_of_fuel}
use aira_graphdb.Query.Dialect.{resolve_cypher_dialect}
use aira_graphdb.Query.Dispatch.{execute_query_with_dialect}
use aira_graphdb.Query.Reached.{execute_query-Reach}
use aira_graphdb.Query.Panic.{ends_outside, execute_query_panics}
use aira_graphdb.Server.{
  ServerRequest, SessionState, Shared, Executor, process_request, run_query, lock_poisoned_error,
}
use aira_graphdb.Server.Effects.{answer-cases}
use aira_graphdb.Server.Session.{is_app_request}

-- The third case is none of the code: `Query/Fuel` has that it does not occur.
abbrev pub answer : Outcome QueryResult → Option (Result QueryResult)
answer (returns r) = some r
answer panics = none
answer out_of_fuel = none

unfoldable pub query_executor : F64 → Executor QueryResult
unfolding resolve_cypher_dialect execute_query_with_dialect
query_executor f = record {
  resolve = resolve_cypher_dialect;
  execute = λ graph text dialect.
      let (outcome, graph') = execute_query_with_dialect f graph text dialect in
      (answer outcome, graph');
}

module _ (c : Codec) (tokens : TokenCodec) (f : F64) where
  poisoned_refuses :
      (request : ServerRequest) (shared : Shared) (w : World)
      → is_app_request request ≡ true
      → shared.poisoned ≡ true
      → process_request c tokens (query_executor f) request shared SessionState.app_ready w
        ≡ (lock_poisoned_error, shared, SessionState.app_ready, w)
  unfolding process_request
  poisoned_refuses ServerRequest.begin_tx shared w a p = rw (process_request, p) refl
  poisoned_refuses (ServerRequest.query tx_id text dialect) shared w a p =
      rw (process_request, p) refl
  poisoned_refuses (ServerRequest.commit_tx tx_id) shared w a p = rw (process_request, p) refl
  poisoned_refuses (ServerRequest.rollback_tx tx_id) shared w a p = rw (process_request, p) refl
  poisoned_refuses ServerRequest.ping shared w a p = absurd (ground arith)
  poisoned_refuses (ServerRequest.handshake x y) shared w a p = absurd (ground arith)
  poisoned_refuses (ServerRequest.auth x) shared w a p = absurd (ground arith)

  -- A query of a ready session, where the mutex is sound
  process_query :
      (tx_id statement : String) (dialect : Option CypherDialect) (shared : Shared) (w : World)
      → shared.poisoned ≡ false
      → process_request c tokens
          (query_executor f)
          (ServerRequest.query tx_id statement dialect)
          shared
          SessionState.app_ready
          w
        ≡ (let (response, shared', w') =
              run_query c tokens (query_executor f) tx_id statement dialect shared w in
            (response, shared', SessionState.app_ready, w'))
  unfolding process_request
  process_query tx_id statement dialect shared w sound = rw (process_request, sound) refl

  run_query-Reach :
      (tx_id statement : String) (dialect : Option CypherDialect) (shared : Shared) (w : World)
      (graph : InMemoryGraphStore)
      → graph_of shared.runtime.tx_manager tx_id ≡ ok graph
      → Reach graph
      → graph.next_node_seq + 1 < u64_mod
      → let (response, shared', w') =
          run_query c tokens (query_executor f) tx_id statement dialect shared w in
        (graph' : InMemoryGraphStore) × ((graph_of shared'.runtime.tx_manager tx_id ≡ ok graph')
          × Reach graph')
  unfolding run_query query_executor
  run_query-Reach tx_id statement dialect shared w graph there r room =
      let m = shared.runtime.tx_manager in
      let (resolved, text) = resolve_cypher_dialect statement dialect in
      let run = execute_query_with_dialect f graph text resolved in
      let (written, others, base, version) = set_graph_lem m tx_id run.1 graph there in
      let reached = (execute_query-Reach f graph text resolved r room).0 in
      rw (there, run_query)
        (elim (answer-cases (answer run.0)) [
          | inl died ↦ rw died (run.1, (written, reached))
          | inr (inl (result, gave)) ↦ rw gave (run.1, (written, reached))
          | inr (inr (e, fails)) ↦ rw fails (run.1, (written, reached))
        ])

  -- Over a sound mutex, where a ready session sends a query on an open transaction whose graph the
  -- methods of the graph can make and has room for one more node: afterwards the transaction is
  -- still open, and its graph is such a graph, whatever the query is and whatever becomes of it.
  pub query-Reach :
      (tx_id statement : String) (dialect : Option CypherDialect) (shared : Shared) (w : World)
      (graph : InMemoryGraphStore)
      → graph_of shared.runtime.tx_manager tx_id ≡ ok graph
      → Reach graph
      → graph.next_node_seq + 1 < u64_mod
      → shared.poisoned ≡ false
      → let (response, shared', state', w') =
          process_request c tokens
            (query_executor f)
            (ServerRequest.query tx_id statement dialect)
            shared
            SessionState.app_ready
            w in
        (graph' : InMemoryGraphStore) × ((graph_of shared'.runtime.tx_manager tx_id ≡ ok graph')
          × Reach graph')
  query-Reach tx_id statement dialect shared w graph there r room sound =
      rw (process_query tx_id statement dialect shared w sound)
        (run_query-Reach tx_id statement dialect shared w graph there r room)

  run_query_panics :
      (tx_id statement : String) (shared : Shared) (w : World) (graph : InMemoryGraphStore)
      → graph_of shared.runtime.tx_manager tx_id ≡ ok graph
      → execute_query_with_dialect f graph (trim statement) CypherDialect.open_cypher9
        ≡ (panics, graph)
      → let (response, shared', w') =
          run_query c tokens
            (query_executor f)
            tx_id
            statement
            (some CypherDialect.open_cypher9)
            shared
            w in
        (response ≡ none) × (shared'.poisoned ≡ true)
  unfolding run_query query_executor resolve_cypher_dialect
  run_query_panics tx_id statement shared w graph there died =
      rw (there, run_query, query_executor, resolve_cypher_dialect, died) (refl, refl)

  -- Over a sound mutex, where a ready session sends a query in the standard dialect on an open
  -- transaction, and the query has, outside of quotes and brackets, a character that is not ASCII
  -- with no `UNION` before it: there is no response, and from then on every request of an
  -- application from a ready session is answered with the error of a poisoned lock and changes
  -- nothing.
  pub panic_stops_server :
      (tx_id statement s t : String) (ch : Char) (shared : Shared) (w : World)
      (graph : InMemoryGraphStore)
      → graph_of shared.runtime.tx_manager tx_id ≡ ok graph
      → shared.poisoned ≡ false
      → trim statement ≡ s ++ (String.◌∷◌ ch t)
      → 128 ≤ code ch
      → contains_upper s "UNION" ≡ false
      → ends_outside false 0 s ≡ true
      → let (response, shared', state', w') =
          process_request c tokens
            (query_executor f)
            (ServerRequest.query tx_id statement (some CypherDialect.open_cypher9))
            shared
            SessionState.app_ready
            w in
        (response ≡ none)
        × ((request : ServerRequest) (later : World)
            → is_app_request request ≡ true
            → process_request c tokens
                (query_executor f)
                request
                shared'
                SessionState.app_ready
                later
              ≡ (lock_poisoned_error, shared', SessionState.app_ready, later))
  panic_stops_server tx_id statement s t ch shared w graph there sound cut big free outside =
      let died =
        execute_query_panics f graph (trim statement) s t ch (trim_idem statement ∙ cut) big free
          outside in
      let (silent, dead) = run_query_panics tx_id statement shared w graph there died in
      rw (process_query tx_id statement (some CypherDialect.open_cypher9) shared w sound)
        (silent, λ request later app. poisoned_refuses request _ later app dead)
