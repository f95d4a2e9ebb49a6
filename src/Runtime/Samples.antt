-- ===== src/Runtime/Samples.antt =====
-- Opening the database on concrete files.
use aira_graphdb.Base.{◌≡◌, refl, some, [], ◌∷◌}
use aira_graphdb.Errors.{ErrorCode, GraphDbError, ok, err, new as new_error}
use aira_graphdb.Graph.{new}
use aira_graphdb.Io.{World}
use aira_graphdb.Storage.Samples.{codec, bare}
use aira_graphdb.Storage.Format.{encode_snapshot, decode_snapshot}
use aira_graphdb.Storage.Engine.{load_or_init}
use aira_graphdb.Tx.{manager_of}
use aira_graphdb.Runtime.{EmbeddedRuntime, open_embedded}

abbrev fresh_runtime : EmbeddedRuntime
fresh_runtime = record { tx_manager = manager_of codec new }

opens : (open_embedded codec bare).0 ≡ ok fresh_runtime
unfolding open_embedded load_or_init encode_snapshot decode_snapshot
opens = refl

-- A database file that is no snapshot.
abbrev broken : World
broken = record bare { db_content = some (7 ∷ []) }

abbrev unreadable : GraphDbError
unreadable = new_error ErrorCode.incompatible_format "cannot parse db snapshot: unsupported"

refuses : (open_embedded codec broken).0 ≡ err unreadable
unfolding open_embedded load_or_init decode_snapshot
refuses = refl
