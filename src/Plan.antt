-- ===== src/Plan.antt =====
-- plan.py: the checks of a launcher's options, and what a build is made of.
mod Examples
pub mod Doc
pub mod Names
pub mod Options
pub mod Bind
pub mod Places
pub mod Dynamic
pub mod Accepted
pub mod Kernel
pub mod Sources
pub mod Build
pub mod Whole
pub mod Slots
