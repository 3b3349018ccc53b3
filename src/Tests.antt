-- ===== src/Tests.antt =====
-- Runs of the model and the theorems at concrete inputs.
mod Library
mod Sorting
mod Intervals
mod Cache
mod Misspell
mod Segtree
mod Registers
mod Bitwise
mod NetlinkData
mod Linearize
mod Evaluation
mod Delinearize
