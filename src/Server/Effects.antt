-- ===== src/Server/Effects.antt =====
-- Which requests can change the committed graph and the files of the database.
use aira_graphdb.Base.{
  String, Bool, true, false, ◌≡◌, refl, Option, none, some, arith, string_eq, ◌⊎◌, inl, inr, ◌∙◌,
  Bool-cases, [], ◌∷◌,
}
use aira_graphdb.Errors.{as_str, GraphDbError, Result, ok, err, Result-cases}
use aira_graphdb.HashMap.{HashMap}
use aira_graphdb.Graph.{InMemoryGraphStore}
use aira_graphdb.Io.{World, Action, lift, now, ◌>>=◌, ◌>>◌}
use aira_graphdb.Storage.{Codec}
use aira_graphdb.Auth.{
  TokenCodec, AuthConfig, JwtHeader, JwtClaims, validate_bearer_token, segments, split_dot,
  decode_segment, check_algorithm, check_kid, check_names, check_now,
}
use aira_graphdb.Tx.{TransactionManager, begin, graph_of, set_graph, rollback, record_audit_event}
use aira_graphdb.Tx.Commit.{rollback_lem}
use aira_graphdb.Runtime.{authorize}
use aira_graphdb.Server.{
  ServerRequest, SessionState, Shared, Executor, state_eq, process_request, run_auth, run_handshake,
  record_audit, run_begin, run_query, run_rollback, audit_on_error_with_guard,
}

abbrev pub is_commit : ServerRequest → Bool
is_commit (ServerRequest.commit_tx _) = true
is_commit _ = false

-- The committed graph, its version and the two files of the database.
abbrev pub IsKept : Shared → World → Shared → World → Type 0
IsKept shared w shared' w' =
    (shared'.runtime.tx_manager.base_graph ≡ shared.runtime.tx_manager.base_graph)
    × (shared'.runtime.tx_manager.graph_version ≡ shared.runtime.tx_manager.graph_version)
    × (w'.db_content ≡ w.db_content)
    × (w'.wal_content ≡ w.wal_content)

-- Both files of the database stay.
abbrev SameFiles : World → World → Type 0
SameFiles w w' = (w'.db_content ≡ w.db_content) × (w'.wal_content ≡ w.wal_content)

bind_same {ℓ κ} :
    {A : Type ℓ} {B : Type κ} (r : Result A) (f : A → Action B) (w : World)
    → ((a : A) → SameFiles w (f a w).1)
    → SameFiles w ((lift r >>= f) w).1
bind_same (ok a) f w rest = rest a
bind_same (err e) f w rest = (refl, refl)

validate_same :
    (config : AuthConfig) (codec : TokenCodec) (token : String) (w : World)
    → SameFiles w (validate_bearer_token config codec token w).1
unfolding validate_bearer_token now
validate_same config codec token w =
    let finish : JwtHeader → JwtClaims → Action (Unit {0}) = λ header claims.
      lift (check_algorithm config header)
      >> (lift (check_kid config header.kid)
          >> (lift (check_names config claims) >> check_now claims)) in
    let body : (String × String) → JwtHeader → Action (Unit {0}) =
      λ p header. lift (decode_segment codec codec.claims_from_json p.1) >>= finish header in
    let head : (String × String) → Action (Unit {0}) =
      λ p. lift (decode_segment codec codec.header_from_json p.0) >>= body p in
    bind_same (segments (split_dot token)) head w (λ p.
      bind_same (decode_segment codec codec.header_from_json p.0) (body p) w (λ header.
        bind_same (decode_segment codec codec.claims_from_json p.1) (finish header) w (λ claims.
          bind_same (check_algorithm config header)
            (λ _.
              lift (check_kid config header.kid)
              >> (lift (check_names config claims) >> check_now claims))
            w
            (λ _.
              bind_same (check_kid config header.kid)
                (λ _. lift (check_names config claims) >> check_now claims) w
                (λ _.
                  bind_same (check_names config claims) (λ _. check_now claims) w
                    (λ _. (refl, refl)))))))

-- A panic, a result or an error
pub answer-cases :
    {R : Type 0} (o : Option (Result R))
    → (o ≡ none) ⊎ (((a : R) × (o ≡ some (ok a))) ⊎ ((e : GraphDbError) × (o ≡ some (err e))))
answer-cases none = inl refl
answer-cases (some (ok a)) = inr (inl (a, refl))
answer-cases (some (err e)) = inr (inr (e, refl))

module _ {R : Type 0} (c : Codec) (tokens : TokenCodec) (executor : Executor R) where
  audit_kept :
      (e : GraphDbError) (tx_id : String) (w : World)
      → ((audit_on_error_with_guard c tokens executor e tx_id w).db_content ≡ w.db_content)
        × ((audit_on_error_with_guard c tokens executor e tx_id w).wal_content ≡ w.wal_content)
  unfolding audit_on_error_with_guard record_audit_event
  audit_kept e tx_id w = ground arith

  record_same :
      (event_type : String) (code : Option String) (message : String) (tx_id : Option String)
      (payload : HashMap String String) (w : World)
      → SameFiles w (record_audit_event c event_type code message tx_id payload w).1
  unfolding record_audit_event
  record_same event_type code message tx_id payload w = ground arith

  early_same :
      (poisoned : Bool) (message request : String) (w : World)
      → SameFiles w (record_audit c tokens executor poisoned message request w)
  unfolding record_audit
  early_same true message request w = (refl, refl)
  early_same false message request w =
      record_same "AUTH_REQUIRED_REJECTED" (some "AUTH_REQUIRED") message none
        (("request", request) ∷ []) w

  authorize_same :
      (token : String) (shared : Shared) (w : World)
      → SameFiles w (authorize tokens shared.runtime (some token) w).1
  unfolding authorize
  authorize_same token shared w = validate_same shared.runtime.auth tokens token w

  run_auth-IsKept :
      (token : String) (shared : Shared) (state : SessionState) (w : World)
      → let (response, shared', state', w') = run_auth c tokens executor token shared state w in
        IsKept shared w shared' w'
  unfolding run_auth
  run_auth-IsKept token shared state w = elim (Bool-cases (state_eq state SessionState.tls_ok)) [
    | inr early ↦
        rw (early, run_auth)
          (
            refl,
            refl,
            (early_same shared.poisoned "handshake required before auth" "auth" w).0,
            (early_same shared.poisoned "handshake required before auth" "auth" w).1,
          )
    | inl tls ↦
        rw (tls, run_auth)
          (elim (Bool-cases shared.poisoned) [
            | inl broken ↦ rw (broken, run_auth) (refl, refl, refl, refl)
            | inr sound ↦
                let (db, wal) = authorize_same token shared w in
                rw (sound, run_auth)
                  (elim (Result-cases (authorize tokens shared.runtime (some token) w).0) [
                    | inl (_, f) ↦ rw (f, run_auth) (refl, refl, db, wal)
                    | inr (e, f) ↦
                        let (same_db, same_wal) =
                          record_same "AUTH_FAILED" (some (as_str e.code)) e.message none []
                            (authorize tokens shared.runtime (some token) w).1 in
                        rw (f, run_auth) (refl, refl, same_db ∙ db, same_wal ∙ wal)
                  ])
          ])
  ]

  run_rollback-IsKept :
      (tx_id : String) (shared : Shared) (w : World)
      → let (response, shared', w') = run_rollback c tokens executor tx_id shared w in
        IsKept shared w shared' w'
  unfolding run_rollback
  run_rollback-IsKept tx_id shared w =
      let (_, graph, version, _, db, wal) = rollback_lem c shared.runtime.tx_manager tx_id w in
      elim (Result-cases (rollback c shared.runtime.tx_manager tx_id w).0) [
        | inl (_, f) ↦ rw (f, run_rollback) (graph, version, db, wal)
        | inr (e, f) ↦
            let (same_db, same_wal) =
              audit_kept e tx_id (rollback c shared.runtime.tx_manager tx_id w).2 in
            rw (f, run_rollback) (graph, version, same_db ∙ db, same_wal ∙ wal)
      ]

  set_graph_kept :
      (m : TransactionManager) (tx_id : String) (g : InMemoryGraphStore)
      → ((set_graph m tx_id g).base_graph ≡ m.base_graph)
        × ((set_graph m tx_id g).graph_version ≡ m.graph_version)
  unfolding set_graph
  set_graph_kept m tx_id g = ground arith

  run_query-IsKept :
      (tx_id text : String) (dialect : Option _) (shared : Shared) (w : World)
      → let (response, shared', w') = run_query c tokens executor tx_id text dialect shared w in
        IsKept shared w shared' w'
  unfolding run_query
  run_query-IsKept tx_id text dialect shared w =
      let m = shared.runtime.tx_manager in
      let (resolved, statement) = executor.resolve text dialect in
      elim (Result-cases (graph_of m tx_id)) [
        | inr (e, f) ↦
            let (db, wal) = audit_kept e tx_id w in rw (f, run_query) (refl, refl, db, wal)
        | inl (graph, f) ↦
            let (base, version) =
              set_graph_kept m tx_id (executor.execute graph statement resolved).1 in
            rw (f, run_query)
              (elim (answer-cases (executor.execute graph statement resolved).0) [
                | inl g ↦ rw (g, run_query) (base, version, refl, refl)
                | inr (inl (result, g)) ↦ rw (g, run_query) (base, version, refl, refl)
                | inr (inr (e, g)) ↦
                    let (db, wal) = audit_kept e tx_id w in
                    rw (g, run_query) (base, version, db, wal)
              ])
      ]

  -- Only a commit changes the committed graph, its version, the snapshot file or the log: after any
  -- other request, in any session, they are as before.
  pub only_commit_writes :
      (request : ServerRequest) (shared : Shared) (state : SessionState) (w : World)
      → is_commit request ≡ false
      → let (response, shared', state', w') =
          process_request c tokens executor request shared state w in
        IsKept shared w shared' w'
  unfolding process_request record_audit record_audit_event run_handshake run_begin begin
  only_commit_writes ServerRequest.ping shared state w other = (refl, refl, refl, refl)
  only_commit_writes (ServerRequest.handshake _ _) shared state w other = ground arith
  only_commit_writes (ServerRequest.auth token) shared state w other =
      run_auth-IsKept token shared state w
  only_commit_writes ServerRequest.begin_tx shared state w other = ground arith
  only_commit_writes (ServerRequest.query tx_id text dialect) shared state w other =
      ground (arith, run_query-IsKept tx_id text dialect shared w)
  only_commit_writes (ServerRequest.commit_tx tx_id) shared state w other = absurd (ground arith)
  only_commit_writes (ServerRequest.rollback_tx tx_id) shared state w other =
      ground (arith, run_rollback-IsKept tx_id shared w)
