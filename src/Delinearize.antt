-- ===== src/Delinearize.antt =====
-- src/netlink_delinearize.c: the instructions of a message become statements, with the registers as
-- they are known on the way.
pub mod Attributes
pub mod Context
pub mod State
pub mod Exprs
pub mod Stmts
pub mod Rule
pub mod Registers
pub mod Roundtrip
pub mod Simple
pub mod ReadBack
pub mod Puts
pub mod Chain
pub mod Comparison
