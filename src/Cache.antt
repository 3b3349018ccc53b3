-- ===== src/Cache.antt =====
-- src/cache.c: which parts of the kernel's ruleset the cache must hold for a batch of commands.
pub mod Flags
pub mod Filter
pub mod Evaluate
pub mod Needs
pub mod Closed
