-- ===== src/Optimize.antt =====
-- crates/nexl-ir/src/optimize: the optimisation passes, each with its proofs in child modules.
pub mod ConstFold
pub mod Dce
pub mod Escape
pub mod Inline
pub mod Reuse
