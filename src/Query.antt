-- ===== src/Query.antt =====
-- The query language, `src/query.rs`: a subset of Cypher that is read and executed clause by clause.
-- What the arithmetic of `f64` gives is a parameter; a number is its 64 bits, as in `Graph`.
pub mod Literals
pub mod Modifiers
pub mod With
pub mod Case
pub mod Match
pub mod Relationship
pub mod Write
pub mod Unwind
pub mod Procedure
pub mod Union
pub mod Merge
pub mod Dialect
pub mod Execute
pub mod Dispatch
pub mod Shorter
pub mod Branches
pub mod Fuel
pub mod Effects
pub mod Sound
pub mod Reached
pub mod Panic
pub mod Rows
pub mod Distinct
pub mod Merges
pub mod Unions
pub mod Window
pub mod Again
pub mod Integers
pub mod Samples
use aira_graphdb.Base.{ℕ, String, Bool, Option, none, some, List}
use aira_graphdb.Errors.{ErrorCode, GraphDbError, Result, ok, err, new, with_detail}
use aira_graphdb.Graph.{ℤ, Value, GraphNode, InMemoryGraphStore}

pub data CypherDialect : Type 0 where
  open_cypher9 neo4j_compat : CypherDialect

pub data QueryResult : Type 0 where
  nodes : List GraphNode → QueryResult
  table : List String → List (List Value) → QueryResult
  ack : QueryResult

-- The operations of `f64` that the queries use.
pub record F64 : Type 0 where
  pub parse : String → Option ℕ
  pub from_i64 : ℤ → ℕ
  pub le : ℕ → ℕ → Bool
  pub sum : List ℕ → ℕ
  pub div : ℕ → ℕ → ℕ
  pub min : ℕ → ℕ → ℕ
  pub max : ℕ → ℕ → ℕ
  pub is_finite : ℕ → Bool
  pub display : ℕ → String

-- What a piece of the code gives: a result, or a panic of the thread. A model that runs on fuel gives
-- the third where it has none.
pub data Outcome {ℓ} (A : Type ℓ) : Type ℓ where
  returns : Result A → Outcome A
  panics out_of_fuel : Outcome A

infixl 5 ◌>>=◌
-- The operator `?`
abbrev pub ◌>>=◌ {ℓ κ} : {A : Type ℓ} {B : Type κ} (r : Result A) (k : A → Result B) → Result B
◌>>=◌ (ok x) k = k x
◌>>=◌ (err why) k = err why

-- The operator `?` on the outcome of a step that had the graph: what fails ends the sequence.
abbrev pub and_then {ℓ κ} :
    {A : Type ℓ} {B : Type κ}
    → (A → InMemoryGraphStore → Outcome B × InMemoryGraphStore)
    → Outcome A
    → InMemoryGraphStore
    → Outcome B × InMemoryGraphStore
and_then k (returns (ok a)) store = k a store
and_then k (returns (err e)) store = (returns (err e), store)
and_then k panics store = (panics, store)
and_then k out_of_fuel store = (out_of_fuel, store)

abbrev pub unsupported : String → GraphDbError
unsupported message = new ErrorCode.unsupported_feature message

-- An unsupported form, with the clause that it stands in.
abbrev pub unsupported_in : String → String → GraphDbError
unsupported_in clause message = with_detail (unsupported message) "unsupported_clause" clause

abbrev pub syntax_error : String → GraphDbError
syntax_error message = unsupported_in "SYNTAX" message

-- `ok_or_else`
abbrev pub or_error {ℓ} : {A : Type ℓ} → GraphDbError → Option A → Result A
or_error e none = err e
or_error e (some a) = ok a
