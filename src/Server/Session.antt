-- ===== src/Server/Session.antt =====
-- The session of a connection: when it becomes ready, and what is refused before.
use aira_graphdb.Base.{
  String, Bool, true, false, ◌≡◌, ◌≢◌, refl, Option, none, some, List, [], ◌∷◌, ◌++◌, arith, inl,
  inr, ◌⊎◌, ap, ap,
}
use aira_graphdb.Errors.{ok}
use aira_graphdb.Io.{World}
use aira_graphdb.Storage.{Codec}
use aira_graphdb.Auth.{TokenCodec, validate_bearer_token}
use aira_graphdb.Tx.{record_audit_event}
use aira_graphdb.Runtime.{authorize}
use aira_graphdb.Server.{
  ServerRequest, ServerResponse, SessionState, Shared, Executor, process_request, run_auth,
  run_handshake, record_audit,
}

-- A request with the runtime and the files that it finds: what other connections did in between is
-- in them.
pub record Turn : Type 0 where
  pub request : ServerRequest
  pub shared : Shared
  pub world : World

-- The turn brings a token that holds by the clock of its world.
abbrev pub Authorizes : TokenCodec → Turn → Type 0
Authorizes tokens t =
    (token : String) × (t.request ≡ ServerRequest.auth token)
    × ((validate_bearer_token t.shared.runtime.auth tokens token t.world).0 ≡ ok tt)

is_ready : (s : SessionState) → (s ≡ SessionState.app_ready) ⊎ (s ≢ SessionState.app_ready)
is_ready SessionState.app_ready = inl refl
is_ready SessionState.connected = inr (λ h. ground arith)
is_ready SessionState.tls_ok = inr (λ h. ground arith)
is_ready SessionState.auth_ok = inr (λ h. ground arith)

module _ {R : Type 0} (c : Codec) (tokens : TokenCodec) (executor : Executor R) where
  abbrev after : SessionState → Turn → SessionState
  after state t = (process_request c tokens executor t.request t.shared state t.world).2

  -- The session after the turns of one connection.
  abbrev pub session : SessionState → List Turn → SessionState
  session state [] = state
  session state (t ∷ ts) = session (after state t) ts

  authorize-some :
      (shared : Shared) (token : String) (w : World)
      → authorize tokens shared.runtime (some token) w
        ≡ validate_bearer_token shared.runtime.auth tokens token w
  unfolding authorize
  authorize-some shared token w = refl

  auth_becomes_ready :
      (token : String) (shared : Shared) (state : SessionState) (w : World)
      → state ≢ SessionState.app_ready
      → (run_auth c tokens executor token shared state w).2 ≡ SessionState.app_ready
      → (state ≡ SessionState.tls_ok) × ((authorize tokens shared.runtime (some token) w).0 ≡ ok tt)
  unfolding run_auth
  auth_becomes_ready token shared state w before h = ground arith

  becomes_ready :
      (request : ServerRequest) (shared : Shared) (state : SessionState) (w : World)
      → state ≢ SessionState.app_ready
      → (process_request c tokens executor request shared state w).2 ≡ SessionState.app_ready
      → (state ≡ SessionState.tls_ok)
        × ((token : String) × (request ≡ ServerRequest.auth token)
            × ((validate_bearer_token shared.runtime.auth tokens token w).0 ≡ ok tt))
  unfolding process_request run_handshake
  becomes_ready ServerRequest.ping shared state w before h = absurd (before h)
  becomes_ready (ServerRequest.handshake protocol canonical) shared state w before h =
      absurd (ground arith)
  becomes_ready (ServerRequest.auth token) shared state w before h =
      let (tls, accepted) = auth_becomes_ready token shared state w before h in
      (tls, (token, refl, rw (← authorize-some shared token w) accepted))
  becomes_ready ServerRequest.begin_tx shared state w before h = absurd (ground arith)
  becomes_ready (ServerRequest.query tx_id text dialect) shared state w before h =
      absurd (ground arith)
  becomes_ready (ServerRequest.commit_tx tx_id) shared state w before h = absurd (ground arith)
  becomes_ready (ServerRequest.rollback_tx tx_id) shared state w before h = absurd (ground arith)

  -- However other connections work on the runtime and on the files between the turns of this one: a
  -- session that was not ready and has become so got a token on the way, after a handshake, that
  -- was valid by the clock of that moment.
  pub ready_after_auth :
      (state : SessionState) (ts : List Turn)
      → state ≢ SessionState.app_ready
      → session state ts ≡ SessionState.app_ready
      → (before : List Turn) × (t : Turn) × (rest : List Turn) × (ts ≡ before ++ t ∷ rest)
        × (session state before ≡ SessionState.tls_ok)
        × Authorizes tokens t
  ready_after_auth state [] unready h = absurd (unready h)
  ready_after_auth state (t ∷ ts) unready h = elim (is_ready (after state t)) [
    | inl ready ↦
        let (tls, valid) = becomes_ready t.request t.shared state t.world unready ready in
        ([], t, ts, refl, tls, valid)
    | inr still ↦
        let (before, u, rest, same, tls, valid) = ready_after_auth (after state t) ts still h in
        (t ∷ before, u, rest, ap (λ l. t ∷ l) same, tls, valid)
  ]

-- The requests of an application.
abbrev pub is_app_request : ServerRequest → Bool
is_app_request ServerRequest.ping = false
is_app_request (ServerRequest.handshake _ _) = false
is_app_request (ServerRequest.auth _) = false
is_app_request _ = true

-- The code of a response that is an error.
abbrev pub error_code : {R : Type 0} → Option (ServerResponse R) → Option String
error_code (some (ServerResponse.error code _ _)) = some code
error_code _ = none

module _ {R : Type 0} (c : Codec) (tokens : TokenCodec) (executor : Executor R) where
  -- A session that is not ready gets no request of an application done: the response is
  -- `AUTH_REQUIRED`, and the runtime, the session, the snapshot file and the log stay.
  pub unready_refused :
      (request : ServerRequest) (shared : Shared) (state : SessionState) (w : World)
      → is_app_request request ≡ true
      → state ≢ SessionState.app_ready
      → let (response, shared', state', w') =
          process_request c tokens executor request shared state w in
        (error_code response ≡ some "AUTH_REQUIRED")
        × (shared' ≡ shared)
        × (state' ≡ state)
        × (w'.db_content ≡ w.db_content)
        × (w'.wal_content ≡ w.wal_content)
  unfolding process_request record_audit record_audit_event
  unready_refused ServerRequest.ping shared state w app unready = absurd (ground arith)
  unready_refused (ServerRequest.handshake _ _) shared state w app unready = absurd (ground arith)
  unready_refused (ServerRequest.auth _) shared state w app unready = absurd (ground arith)
  unready_refused ServerRequest.begin_tx shared state w app unready = ground arith
  unready_refused (ServerRequest.query tx_id text dialect) shared state w app unready = ground arith
  unready_refused (ServerRequest.commit_tx tx_id) shared state w app unready = ground arith
  unready_refused (ServerRequest.rollback_tx tx_id) shared state w app unready = ground arith
