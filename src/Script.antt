-- ===== src/Script.antt =====
-- processing/script: the transformers that rewrite the nodes of a client script, what they build,
-- and the loop that applies them to one node.
pub mod Syntax
pub mod Instruction
pub mod Instrumented
pub mod Builder
pub mod Replace
pub mod TempVariables
pub mod Identifiers
pub mod Members
pub mod Calls
pub mod Assignments
pub mod Destructuring
pub mod Patterns
pub mod Params
pub mod Transform
pub mod WellFormed
pub mod Flat
pub mod Destructured
pub mod Loop
pub mod Rounds
pub mod Termination
pub mod Positions
pub mod Sets
pub mod Depth
pub mod Fuel
mod Tests
