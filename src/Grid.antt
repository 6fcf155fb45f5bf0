-- ===== src/Grid.antt =====
-- grid.py: an annotated grid function is read as Python's `ast` and lowered to a C evaluator.
pub mod Syntax
mod Examples
pub mod Code
pub mod Emit
pub mod Meaning
pub mod Stores
pub mod Matches
pub mod Correct
pub mod Compile
pub mod Run
pub mod Elements
pub mod Whole
pub mod Exact
pub mod Bodies
pub mod Python
