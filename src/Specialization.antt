-- ===== src/Specialization.antt =====
-- specialization.py: the key fields of a parameter, their places in the key, and the numbering of the
-- public call.
mod Examples
pub mod KeyFields
pub mod Placing
pub mod Calls
pub mod KeyLayout
