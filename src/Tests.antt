-- ===== src/Tests.antt =====
-- Runs of the models on small inputs, and the theorems at concrete inputs.
mod Samples
pub mod ConstFold
pub mod Dce
pub mod Escape
pub mod Inline
pub mod Memory
pub mod Reuse
pub mod Effects
pub mod Modules
pub mod Resource
pub mod Types
