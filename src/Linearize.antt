-- ===== src/Linearize.antt =====
-- src/netlink_linearize.c: the statements of a rule become the instructions of its message.
pub mod Syntax
pub mod Context
pub mod Nles
pub mod Gen
pub mod Exprs
pub mod Frame
pub mod Shape
pub mod Parts
pub mod Layout
pub mod Values
pub mod Compare
pub mod Matches
pub mod Sound
pub mod Fields
pub mod Stmts
pub mod Nat
pub mod Rule
pub mod Operands
pub mod StmtParts
pub mod StmtDyn
pub mod NatParts
pub mod NatSound
pub mod RuleSound
