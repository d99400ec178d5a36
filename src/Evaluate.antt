-- ===== src/Evaluate.antt =====
-- Flag evaluation: src/modules/client/evaluate.ts.
pub mod Runtime
pub mod Version
pub mod Constraint
pub mod Flag
pub mod Plain
pub mod Decision
