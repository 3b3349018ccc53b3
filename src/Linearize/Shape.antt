-- ===== src/Linearize/Shape.antt =====
-- Which expressions can be computed into a register, and how many registers that takes.
use nftables.Base.{ℕ, suc, ◌+◌, ◌≤◌, ◌<◌, ◌≢◌, leb, if◌then◌else◌}
use nftables.Registers.{netlink_register_space, size_of}
use nftables.Linearize.Syntax.{Expr, Exprs, one, more, expr_len, concat_len}
use nftables.Linearize.Nles.{bytes_len}
use nftables.Linearize.Exprs.{Mode, outer, within, key_space}

abbrev pub max : ℕ → ℕ → ℕ
max a b = if leb a b then b else a

-- The registers that an expression is given.
abbrev pub space_of : Expr → ℕ
space_of e = netlink_register_space (size_of (concat_len e (expr_len e)))

-- The length of the chain of operations on the left.
abbrev pub chain : Expr → ℕ
chain (Expr.binop len order op left right) = suc (chain left)
chain _ = 0

unfoldable mutual
  -- Registers from the given one on that have to be taken.
  pub span : Expr → ℕ
  span (Expr.unary len op arg) = span arg
  span (Expr.shift len op left right) = span left
  span (Expr.binop len order op left right) = span left
  span (Expr.concat len parts) = max 1 (span_all parts)
  span (Expr.map_of len key mappings) = span_key key
  span (Expr.set_elem len key) = span key
  span _ = 1

  -- `reg_low` is raised for a key that is a concatenation.
  pub span_key : Expr → ℕ
  span_key (Expr.concat len parts) = 1
  span_key (Expr.unary len op arg) = span arg
  span_key (Expr.shift len op left right) = span left
  span_key (Expr.binop len order op left right) = span left
  span_key (Expr.map_of len key mappings) = span_key key
  span_key (Expr.set_elem len key) = span key
  span_key _ = 1

  pub span_all : Exprs → ℕ
  span_all (one e) = span e
  span_all (more e rest) = max (span e) (netlink_register_space (expr_len e) + span_all rest)

unfoldable mutual
  -- Registers that are taken on the way.
  pub extra : Expr → ℕ
  extra (Expr.unary len op arg) = extra arg
  extra (Expr.shift len op left right) = extra left
  extra (Expr.binop len order op left right) = extra left
  extra (Expr.concat len parts) = extra_all parts
  extra (Expr.map_of len key mappings) = key_space key + extra key
  extra (Expr.set_elem len key) = extra key
  extra (Expr.jhash len h e) = space_of e + extra e
  extra _ = 0

  pub extra_all : Exprs → ℕ
  extra_all (one e) = extra e
  extra_all (more e rest) = max (extra e) (extra_all rest)

unfoldable mutual
  -- Sub-expressions have a length, what is computed is no comparison and no verdict, and the parts of a
  -- concatenation take no more registers than its length says.
  pub IsValue : Expr → Type 0
  IsValue (Expr.value i) = Unit
  IsValue (Expr.unary len op arg) =
      (bytes_len (expr_len arg) ≢ 1) × (0 < expr_len arg) × IsValue arg
  IsValue (Expr.shift len op left right) = (0 < expr_len left) × IsValue left
  IsValue (Expr.binop len order op left right) =
      (0 < expr_len left) × (chain left ≤ 14) × IsValue left
  IsValue (Expr.concat len parts) = (span_all parts ≤ netlink_register_space len) × AreValues parts
  IsValue (Expr.map_of len key mappings) = (0 < expr_len key) × IsValue key
  IsValue (Expr.leaf len l) = Unit
  IsValue (Expr.set_elem len key) = (0 < expr_len key) × IsValue key
  IsValue (Expr.jhash len h e) = (0 < expr_len e) × (span e ≤ space_of e) × IsValue e
  IsValue (Expr.symhash len h) = Unit
  IsValue _ = ⊥

  pub AreValues : Exprs → Type 0
  AreValues (one e) = (0 < expr_len e) × IsValue e
  AreValues (more e rest) = (0 < expr_len e) × IsValue e × AreValues rest

abbrev pub InMode : Mode → Expr → Type 0
InMode outer e = Unit
InMode (within n) e = n + chain e ≤ 16
