-- ===== src/Retrieval.antt =====
-- The contract of bounded retrieval, `src/bounded_retrieval_contract.rs`: the caps and the budgets of
-- a request, the deadline, the schemas and the refinement expressions of the pinned contract, the
-- admission of a request, and the frames of the answers.
pub mod Json
pub mod Caps
pub mod Budget
pub mod Work
pub mod Bounds
pub mod Usage
pub mod Counted
pub mod Schema
pub mod Conforms
pub mod Decides
pub mod Finite
pub mod Pointer
pub mod Opcode
pub mod Values
pub mod Loops
pub mod Eval
pub mod Admit
pub mod Exchange
pub mod Admission
pub mod Ir
pub mod Declared
pub mod Declarations
pub mod Calm
pub mod Segments
pub mod Paths
pub mod Unique
pub mod Staged
pub mod Reader
pub mod Printed
pub mod Deadline
pub mod Samples
pub mod Clock
pub mod Response
pub mod Written
pub mod Rounds
pub mod Stated
pub mod Answers
