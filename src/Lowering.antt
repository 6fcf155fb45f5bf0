-- ===== src/Lowering.antt =====
-- heuristic.py and runtime/intj_runtime.h: the lowering of heuristics to C.
pub mod Code
pub mod Emit
pub mod Meaning
pub mod Stores
pub mod Matches
pub mod Serial
pub mod Supplies
pub mod Inputs
pub mod Attributes
pub mod Longs
pub mod Branches
pub mod Choices
pub mod Steps
pub mod Correct
pub mod Whole
mod Examples
