-- ===== src/Lib.antt =====
-- The verification library of aira-graphdb, a graph database in Rust (`src/*.rs`).
--
-- The engine keeps a property graph in memory, gives each transaction a copy of it, and writes each
-- commit to a write-ahead log and then to a snapshot file.
-- * `Graph` is `src/graph.rs`. `InMemoryGraphStore` is a record of its two maps and two counters;
--   a method that takes `&mut self` is a function that returns the new store beside its result.
--   `Graph/Valid` has the invariants, `Graph/Nodes`, `Edges`, `Detach`, `Labels`, `Find` and
--   `Listing` one group of methods each, and `Graph/Reach` all stores that the methods can make.
-- * `Errors` is `src/errors.rs`; `Errors/Registry` has its registry, built from the contract of
--   `src/contracts.rs` as serde reads it.
-- * `Io` is what the engine sees of the operating system: four files, a clock, and a schedule of
--   outcomes. Every call may fail with any message, and a failed write may leave any content.
-- * `Storage` is `src/storage.rs`: `Storage/Format` has the bytes of snapshots and logs,
--   `Storage/Engine` the methods of `StorageEngine`. An operation is an `Action`: a function from
--   the world to a result beside the next world, in the order of the calls of the source. Reading a
--   log gives a result or, where an entry says that it is longer than any `Vec`, a panic (`Decoded`).
-- * `Tx` is `src/tx.rs`. The manager stands beside the files: `commit` takes both and returns both.
--   `graph_mut` is read by `graph_of` and written by `set_graph`. `Tx/History` has all sequences of
--   calls, with any answers of the system.
-- * `Auth` is `src/auth.rs`, `Lock` is `src/lock.rs`, `Protocol` is `src/protocol.rs`, and `Runtime`
--   is `src/runtime.rs`, where opening takes the lock, then the storage, then the manager.
-- * `Server` is `process_request` of `src/server.rs`. The runtime behind its mutex is `Shared`; a
--   request takes it, the session of its connection and the files, and returns all three.
--   `Server/Session` lets other connections do anything between two requests of one, and
--   `Server/Queries` puts the executor of `Query` into the server.
-- * `Query` is `src/query.rs`, the executor of a subset of Cypher. `Query/Dispatch` has
--   `execute_query_with_dialect`, which chooses the clause; `Query/Literals`, `Modifiers`, `With`,
--   `Case`, `Match`, `Relationship`, `Write`, `Unwind`, `Procedure`, `Union`, `Merge`, `Dialect` and
--   `Execute` have the functions that read and execute one clause each. A clause that changes the
--   graph gives its result beside the graph, which it may have changed also where it fails; an
--   `Outcome` is a result or a panic. `Query/Shorter`, `Branches` and `Fuel` are about its recursion,
--   `Query/Effects`, `Sound` and `Reached` about the graph that it leaves, and `Query/Rows`,
--   `Window`, `Again`, `Integers` and `Panic` about what single clauses give; `Query/Merges`,
--   `Unions` and `Distinct` are about `UNION`, from the branches to the result.
-- * `Str` has the methods of `str` that the queries call.
-- * `Lowercase` is `src/unicode16_lowercase.rs`, with the generated tables as a parameter. The
--   checkpoints between its steps are a function of a state, which they may change.
-- * `Persistence` has the evidence of commits of `src/native_persistence_contract.rs` and
--   `Persistence/Progress` its progress frames and `Persistence/Policy` its progress policy, with the
--   parsers and the digest as parameters. `Persistence/Evidence`, `Frames` and `Budgets` are about
--   what is accepted.
-- * `Retrieval` is `src/bounded_retrieval_contract.rs`, with the pinned contract as a parameter:
--   `Retrieval/Json` has the documents, `Caps`, `Budget` and `Work` the resources of a request,
--   `Deadline` its time, `Schema` and `Reader` the schemas, `Pointer`, `Opcode`, `Values`, `Loops` and
--   `Eval` the refinement expressions, `Admit` the validation and the admission of requests, and
--   `Response` the frames of the answers, with the serializer of an envelope as a parameter: the
--   pieces that it writes. `Ir` and `Declared` have the check of the assertions of a contract and of
--   its opcodes, which `Retrieval/Calm` composes with their evaluation. The other children are about
--   these. The recursion of `eval` is on the expression, since the fields of a document are read as
--   expressions before a handler asks for them. A schema that refers to the domain takes the number
--   of references that may be open, which `Retrieval/Finite` shows to be enough for a domain without
--   circles. An expected key (`expect`) that was tested just before is looked up again with an error
--   that is never met.
-- * `Audit` is `src/audit.rs`, the required fields of the audit events of the native process.
-- * `Base` and `HashMap` have what the parts share; the modules `Samples` evaluate the theorems at
--   concrete inputs.
--
-- A `HashMap` is a list of entries of any order, and nothing that is proved rests on this order. A
-- `u64` counter wraps around, as in a release build; theorems that need it say that it stays below
-- its limit. A `float64` is its 64 bits, with the equality of IEEE 754. The four files are taken to
-- be different ones. The loop over the log has fuel above the number of its bytes, and each
-- round reads at least eight of them: `Storage/Fuel` has that this is enough.
--
-- An index into a text counts characters, where Rust counts bytes: the code only compares such
-- indices and cuts the text where it found something, but for the walk for `UNION`, whose slices
-- inside of a character are modelled as the panic that they are. A query runs with fuel of one more
-- than its length, since each part of a query that runs as a query is shorter: `Query/Fuel` has that
-- this is enough.
--
-- Parameters: bincode and serde_json are a `Codec`; where a theorem needs that bincode reads back
-- what it wrote, it has the hypothesis `IsFaithful`, which `Storage/Samples` shows to hold of a
-- codec. The base64 and JSON decoders of tokens are a `TokenCodec`. The server takes the
-- executor of queries as an `Executor`, any function of the graph of the session, and
-- `Server/Queries` gives it that of `Query`. What the
-- operations of `f64` give, its parser and printer among them, is an `F64`.
--
-- Not modelled: running out of memory but where the buffer of a response is reserved, the position
-- in the message of an UTF-8 error, the panics of other parts than the query language, the retrieval
-- contract and the length of a log entry, sockets and threads, and the parts of the program that are not named above,
-- among them the conformance files, the rest of the check of the retrieval contract with its digests
-- and fixtures, and the native binary (`src/bin`). The two contract files that the queries consult
-- are lists in the model.
pub mod Base
pub mod HashMap
pub mod Errors
pub mod Graph
pub mod Io
pub mod Str
pub mod Query
pub mod Storage
pub mod Tx
pub mod Auth
pub mod Lock
pub mod Protocol
pub mod Runtime
pub mod Server
pub mod Lowercase
pub mod Persistence
pub mod Retrieval
pub mod Audit
