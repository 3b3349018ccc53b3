-- ===== src/Delinearize/Context.antt =====
-- `struct netlink_parse_ctx` of src/netlink_delinearize.c: the registers, the errors and the statement.
use nftables.Base.{
  ℕ, zero, suc, ◌+◌, ◌-◌, ◌^◌, ◌%◌, Bool, true, false, ◌||◌, List, [], ◌∷◌, ◌++◌, Option, none,
  some, ltb, ◌==◌, if◌then◌else◌,
}
use nftables.Expr.{ValueExpr}
use nftables.Bitwise.{BitOp}
use nftables.Registers.{netlink_register_space}
use nftables.NetlinkData.{netlink_padded_len}
use nftables.Linearize.Syntax.{Name, UnaryOp, ShiftOp, Leaf, Hash, SetRef}

-- A set of the cache, with the length of its key.
pub record CachedSet : Type 0 where
  pub ref : SetRef
  pub key_len : ℕ

-- Expressions as they are read, before their types are known. The length stands first where it is not
-- given by the parts. A hash has the expression it is of, unless it is NFT_HASH_SYM.
mutual
  pub data Found : Type 0 where
    value : ValueExpr → Found
    leaf : ℕ → Leaf → Found
    unary : ℕ → UnaryOp → Found → Found
    shift : ℕ → ShiftOp → Found → ValueExpr → Found
    binop : ℕ → BitOp → Found → ValueExpr → Found
    map_of : Found → CachedSet → Found
    symhash : Hash → Found
    jhash : Hash → Found → Found
    concat : Founds → Found

  -- The parts of a concatenation.
  pub data Founds : Type 0 where
    nothing : Founds
    more : Found → Founds → Founds

-- The length of a map is that of its data, a hash has 4 bytes, and concat_expr_alloc gives 0.
abbrev pub found_len : Found → ℕ
found_len (Found.value v) = v.len
found_len (Found.leaf len l) = len
found_len (Found.unary len op arg) = len
found_len (Found.shift len op left right) = len
found_len (Found.binop len op left right) = len
found_len (Found.map_of key set) = set.ref.data_len
found_len (Found.symhash h) = 32
found_len (Found.jhash h e) = 32
found_len (Found.concat parts) = 0

pub data Error : Type 0 where
  invalid_destination invalid_source : ℕ → Error
  no_left_side size_mismatch no_expression unknown_objref : Error
  unknown_set : Name → Error

-- The right-hand side of a comparison that is read.
pub data FoundRight : Type 0 where
  value : ValueExpr → FoundRight
  prefix : ValueExpr → ℕ → FoundRight
  range : ValueExpr → ValueExpr → FoundRight
  concat : List ValueExpr → FoundRight
  set_ref : CachedSet → FoundRight

pub record Registers : Type 0 where
  pub at : ℕ → Option Found
  pub msgs : List Error

abbrev pub max_regs : ℕ
max_regs = 16

abbrev pub invalid : ℕ → Bool
invalid reg = reg == 0 || ltb max_regs reg

abbrev pub netlink_error : Error → Registers → Registers
netlink_error e ctx = record ctx { msgs = ctx.msgs ++ e ∷ [] }

unfoldable pub netlink_set_register : Registers → ℕ → Found → Registers
netlink_set_register ctx reg expr =
    if invalid reg
    then netlink_error (invalid_destination reg) ctx
    else record ctx { at = λ r. if r == reg then some expr else ctx.at r }

unfoldable pub netlink_get_register : Registers → ℕ → Option Found × Registers
netlink_get_register ctx reg =
    if invalid reg then (none, netlink_error (invalid_source reg) ctx) else (ctx.at reg, ctx)

-- `len` is an `unsigned int`.
abbrev pub less : ℕ → ℕ → ℕ
less len consumed = (len + 2 ^ 32 - consumed) % 2 ^ 32

-- What a function returns besides the context, where it does not stop the program by an assertion; the
-- loops have fuel, and `out_of_fuel` is what is left when it is used up.
pub data Loop : Type 0 where
  parts : Founds → Registers → Loop
  missing : Registers → Loop
  stop : Loop
  out_of_fuel : Loop

abbrev pub add_part : Found → Loop → Loop
add_part e (parts es ctx) = parts (more e es) ctx
add_part e r = r

-- The loop of netlink_parse_concat_expr. It asserts that every part has a length.
unfoldable pub concat_parts : ℕ → Registers → ℕ → ℕ → Loop
unfolding netlink_get_register netlink_padded_len netlink_register_space
concat_parts zero ctx reg len = out_of_fuel
concat_parts (suc fuel) ctx reg len = elim (len == 0) [
  | true ↦ parts nothing ctx
  | false ↦ elim (netlink_get_register ctx reg).0 [
    | none ↦ missing (netlink_error size_mismatch (netlink_get_register ctx reg).1)
    | some e ↦ elim (netlink_padded_len (found_len e) == 0) [
      | true ↦ stop
      | false ↦ add_part e (
          concat_parts fuel ctx (reg + netlink_register_space (found_len e))
            (less len (netlink_padded_len (found_len e))))
    ]
  ]
]

-- A register above the last one ends the loop, and every part takes one at least.
abbrev pub concat_fuel : ℕ
concat_fuel = 18

unfoldable pub netlink_parse_concat_expr : Registers → ℕ → ℕ → Loop
unfolding concat_parts
netlink_parse_concat_expr ctx reg len = concat_parts concat_fuel ctx reg len
