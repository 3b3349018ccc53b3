-- ===== src/Intervals.antt =====
-- src/intervals.c: interval sets. Elements become ranges, are merged, deleted, checked for overlaps
-- and turned into the segments that the kernel stores.
pub mod Elem
pub mod Covers
pub mod Automerge
pub mod Overlap
pub mod Delete
pub mod Segments
pub mod Commands
