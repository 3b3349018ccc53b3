-- ===== src/Delinearize/State.antt =====
-- src/netlink_delinearize.c: the state of the parsers, and how they go on with registers.
use nftables.Base.{ℕ, Bool, List, ◌∷◌, Option, none, some, ltb, if◌then◌else◌}
use nftables.Expr.{ValueExpr}
use nftables.Linearize.Syntax
use nftables.Linearize.Syntax.{
  Name, CmpOp, cmp_eq, cmp_neq, cmp_lt, cmp_lte, cmp_gt, cmp_gte, Leaf, Attr, Field, UnaryOp,
  op_hton, op_ntoh, ShiftOp, op_lshift, op_rshift,
}
use nftables.Linearize.Fields.{Stateful, Log}
use nftables.Delinearize.Context.{
  CachedSet, Found, found_len, Error, FoundRight, Registers, netlink_error, netlink_set_register,
  netlink_get_register, Loop, parts, netlink_parse_concat_expr,
}

-- What other parts of the program give: the lengths of keys and headers in the tables of their files,
-- whether an expression stands on string_type, the sets of the table, and whether a chain is one that
-- is bound to a rule.
pub record Tables : Type 0 where
  pub leaf_len : Leaf → ℕ
  pub is_string : Found → Bool
  pub find_set : Name → Option CachedSet
  pub is_binding : Name → Bool

-- Statements that are found on the way. `none` for the operator is OP_INVALID. `ports` is a
-- masquerade or a redirection with its flags and the ends of its ports.
pub data FoundStmt : Type 0 where
  relational : Option CmpOp → Found → FoundRight → FoundStmt
  expression : Found → FoundStmt
  verdict chain : ℕ → Option Name → FoundStmt
  payload : ℕ → ℕ → ℕ → Found → FoundStmt
  exthdr : ℕ → Leaf → Found → FoundStmt
  optstrip : ℕ → Leaf → FoundStmt
  meta : ℕ → Found → FoundStmt
  ct : ℕ → Option ℕ → Found → FoundStmt
  stateful : Stateful → FoundStmt
  log : Log → FoundStmt
  reject : ℕ → ℕ → FoundStmt
  synproxy : ℕ → ℕ → ℕ → FoundStmt
  notrack : FoundStmt
  flow_offload : Name → FoundStmt
  ports : Syntax.Kind → ℕ → Option Found → Option Found → FoundStmt
  dup : Option Found → Option Found → FoundStmt
  queue : ℕ → ValueExpr → Option ValueExpr → FoundStmt
  queue_of : ℕ → Found → FoundStmt
  objref : ℕ → ValueExpr → FoundStmt
  objref_map : Found → CachedSet → FoundStmt

-- The cuts of a value, as for a concatenation.
pub data Slices : Type 0 where
  slices : List ValueExpr → Slices
  missing : Registers → Slices
  stop out_of_fuel : Slices

abbrev pub add_slice : ValueExpr → Slices → Slices
add_slice v (slices vs) = slices (v ∷ vs)
add_slice v r = r

pub record Parse : Type 0 where
  pub regs : Registers
  pub stmt : Option FoundStmt
  pub rule : List FoundStmt

abbrev pub fail : Error → Parse → Option Parse
fail e ctx = some (record ctx { regs = netlink_error e ctx.regs })

abbrev pub set_reg : ℕ → Found → Parse → Option Parse
set_reg reg e ctx = some (record ctx { regs = netlink_set_register ctx.regs reg e })

abbrev pub set_stmt : FoundStmt → Parse → Option Parse
set_stmt s ctx = some (record ctx { stmt = some s })

-- netlink_get_register, and the error where the register is empty.
abbrev pub with_register : ℕ → Error → Parse → (Found → Option Parse) → Option Parse
with_register reg e ctx go = elim (netlink_get_register ctx.regs reg).0 [
  | none ↦ fail e (record ctx { regs = (netlink_get_register ctx.regs reg).1 })
  | some x ↦ go x
]

-- The rest of a function that has allocated an expression. `none` is where the program stops.
abbrev pub with_leaf : Option Leaf → (Leaf → Option Parse) → Option Parse
with_leaf none go = none
with_leaf (some e) go = go e

-- The rest of a function that has called netlink_parse_concat_expr.
abbrev pub with_concat : Loop → Parse → (Found → Option Parse) → Option Parse
with_concat (parts es regs) ctx go = go (Found.concat es)
with_concat (Loop.missing regs) ctx go = some (record ctx { regs = regs })
with_concat Loop.stop ctx go = none
with_concat Loop.out_of_fuel ctx go = none

-- The operand, or the concatenation that starts in its register where it is shorter than `len`.
abbrev pub with_length : ℕ → ℕ → Found → Parse → (Found → Option Parse) → Option Parse
with_length len reg e ctx go =
    if ltb (found_len e) len
    then with_concat (netlink_parse_concat_expr ctx.regs reg len) ctx go
    else go e
