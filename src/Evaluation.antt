-- ===== src/Evaluation.antt =====
-- src/evaluate.c: constants are computed, and an operation on the left of a comparison is moved to
-- the constants on its right.
pub mod Constants
pub mod Transfer
pub mod Computed
pub mod Matches
pub mod Moved
pub mod Sides
pub mod Inverses
pub mod Meaning
pub mod Returns
pub mod Limits
