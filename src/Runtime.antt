-- ===== src/Runtime.antt =====
-- Opening the database, `src/runtime.rs`: embedded in a process, or as a server. The guard of the
-- lock is the lock file; where opening fails behind it the guard is dropped.
pub mod Opening
pub mod Samples
use aira_graphdb.Base.{
  ℕ, String, Bool, true, false, not, ◌&&◌, Option, none, some, ◌==◌, string_eq, if◌then◌else◌, ltb,
}
use aira_graphdb.Errors.{ErrorCode, Result, ok, err, new}
use aira_graphdb.Io.{World, Action, lift, pure, ◌>>=◌, ◌>>◌}
use aira_graphdb.Storage.{Codec}
use aira_graphdb.Tx.{TransactionManager, open_manager}
use aira_graphdb.Auth.{AuthConfig, TokenCodec, validate_bearer_token}
use aira_graphdb.Lock.{acquire_write_lock, drop_guard}
use aira_graphdb.Protocol.{HandshakeRequest, negotiate}

pub data DeploymentMode : Type 0 where
  embedded server : DeploymentMode

-- The database file is `File.db` of the `World`.
pub record RuntimeConfig : Type 0 where
  pub mode : DeploymentMode
  pub port : Option ℕ
  pub concurrency_profile : Option String

pub record EmbeddedRuntime : Type 0 where
  pub tx_manager : TransactionManager

pub record ServerRuntime : Type 0 where
  pub tx_manager : TransactionManager
  pub config : RuntimeConfig
  pub auth : AuthConfig

-- `TransactionManager::new(storage)?` while the guard is held.
unfoldable pub open_guarded : Codec → Action TransactionManager
unfolding open_manager drop_guard
open_guarded c w =
    let (r, w') = open_manager c w in
    elim r [ ok manager ↦ (ok manager, w') | err e ↦ (err e, drop_guard w') ]

-- `EmbeddedRuntime::open`
unfoldable pub open_embedded : Codec → Action EmbeddedRuntime
unfolding acquire_write_lock open_guarded
open_embedded c = do
  acquire_write_lock
  manager ← open_guarded c
  pure (record { tx_manager = manager })

abbrev is_server : DeploymentMode → Bool
is_server DeploymentMode.embedded = false
is_server DeploymentMode.server = true

abbrev is_concurrent : Option String → Bool
is_concurrent none = false
is_concurrent (some profile) = profile == "P0-SERVER-CONCURRENCY"

unfoldable pub validate_server_profile : Option String → ℕ → Result (Unit {0})
validate_server_profile profile active_connections =
    if is_concurrent profile && ltb active_connections 32
    then err (
        new ErrorCode.unsupported_feature
          "P0-SERVER-CONCURRENCY requires at least 32 concurrent connections")
    else ok tt

abbrev require_server_mode : DeploymentMode → Result (Unit {0})
require_server_mode mode =
    if not (is_server mode)
    then err (new ErrorCode.unsupported_feature "server runtime requires SERVER mode")
    else ok tt

-- `ServerRuntime::start`
unfoldable pub start : Codec → RuntimeConfig → AuthConfig → Action ServerRuntime
unfolding validate_server_profile acquire_write_lock open_guarded
start c config auth = do
  lift (require_server_mode config.mode)
  lift (validate_server_profile config.concurrency_profile 32)
  acquire_write_lock
  manager ← open_guarded c
  pure (record { tx_manager = manager; config = config; auth = auth })

unfoldable pub handshake : HandshakeRequest → Result (Unit {0})
unfolding negotiate
handshake request = elim (negotiate request) [ ok _ ↦ ok tt | err e ↦ err e ]

unfoldable pub authorize : TokenCodec → ServerRuntime → Option String → Action (Unit {0})
unfolding validate_bearer_token
authorize codec runtime none =
    lift (err (new ErrorCode.auth_required "authentication required before query execution"))
authorize codec runtime (some token) = validate_bearer_token runtime.auth codec token
