-- ===== src/Tests/Linearize.antt =====
-- `ip saddr & 255.255.255.0 == 192.168.1.0 meta mark set 7 snat to 10.0.0.1 accept`, and a hash of an
-- address.
use nftables.Base.{ℕ, ◌≡◌, refl, false, List, [], ◌∷◌, Option, none, some, map}
use nftables.Gmp.{Byteorder, div_round_up}
use nftables.Bitwise.{op_and}
use nftables.Expr.{ValueExpr}
use nftables.Registers.{
  netlink_register_space, get_register, release_register, __get_register, __release_register,
}
use nftables.NetlinkData.{netlink_gen_constant_data}
use nftables.Linearize.Context.{Ctx, take_register, drop_register, assert_below, nft_rule_add_expr}
use nftables.Linearize.Nles.{
  chain_field, netlink_gen_chain, gen_leaf, leaf_kind, leaf_attrs, gen_verdict_fields, raw_data,
  netlink_gen_cmp_op,
}
use nftables.Linearize.Gen.{
  gen_lookup, gen_relational, gen_compare, gen_plain, gen_combined, gen_constant,
}
use nftables.Linearize.Syntax.{
  SetRef, one, more, k_lookup, Expr, Leaf, RelOp, Right, Kind, k_payload, k_bitwise, k_cmp,
  k_immediate, k_meta, k_nat,
}
use nftables.Linearize.Exprs.{netlink_gen_expr, gen_expr, gen_exprs}
use nftables.Linearize.Frame.{reads, Sound}
use nftables.Linearize.Nat.{
  NatStmt, NatArg, snat, interval_map, netlink_gen_nat_stmt, gen_nat_addr, gen_nat_proto, gen_one,
  nat_nle,
}
use nftables.Linearize.Rule.{
  Stmt, netlink_linearize_rule, netlink_linearize_init, gen_stmts, netlink_gen_stmt,
}
use nftables.Linearize.Stmts.{netlink_gen_meta_stmt}
use nftables.Tests.Library.{test_mpz}

abbrev saddr : Expr
saddr = Expr.leaf 32 (Leaf.payload none 2 96)

abbrev number : ℕ → ValueExpr
number n = record { value = n; byteorder = Byteorder.big_endian; len = 32 }

abbrev masked : Expr
masked = Expr.binop 32 Byteorder.big_endian op_and saddr (number 4294967040)

abbrev source_nat : NatStmt
source_nat = record {
  type = snat;
  family = 2;
  flags = 0;
  addr = some (NatArg.single (Expr.value (number 167772161)));
  proto = none;
  interval = false;
  concat = false;
}

-- `ip saddr . ip daddr`, looked up in a set.
abbrev pair : Expr
pair = Expr.concat 64 (more saddr (one (Expr.leaf 32 (Leaf.payload none 2 128))))

abbrev pairs : SetRef
pairs = record { name = 112 ∷ []; id = 1; data_len = 0; interval = false }

abbrev rule : List Stmt
rule =
    Stmt.expression
      (Expr.relational RelOp.op_eq false masked (Right.value (number 3232235776) false))
    ∷ Stmt.meta (Expr.value (number 7)) 3
    ∷ Stmt.nat source_nat
    ∷ Stmt.expression (Expr.verdict (record { verdict = 1; chain = none; chain_id = 0 }))
    ∷ Stmt.expression (Expr.relational RelOp.op_eq false pair (Right.set_ref pairs))
    ∷ []

abbrev Plain : NatArg → Type 0
Plain (NatArg.single e) = interval_map e ≡ false
Plain (NatArg.range left right) = Unit

abbrev kinds : Option (Unit {0} × Ctx) → Option (List (Kind × List ℕ))
kinds none = none
kinds (some (u, ctx)) = some (map (λ n. (n.kind, reads n)) ctx.nlr)

-- The kinds of the instructions, and the registers that they read.
rule_run :
    kinds (netlink_linearize_rule test_mpz rule)
    ≡ some (
        (k_payload, [])
        ∷ (k_bitwise, 1 ∷ [])
        ∷ (k_cmp, 1 ∷ [])
        ∷ (k_immediate, [])
        ∷ (k_meta, 1 ∷ [])
        ∷ (k_immediate, [])
        ∷ (k_nat, 1 ∷ [])
        ∷ (k_immediate, [])
        ∷ (k_payload, [])
        ∷ (k_payload, [])
        ∷ (k_lookup, 1 ∷ [])
        ∷ [])
unfolding netlink_linearize_rule netlink_linearize_init gen_stmts netlink_gen_stmt netlink_gen_expr
    gen_expr gen_exprs netlink_gen_meta_stmt netlink_gen_nat_stmt gen_nat_addr gen_nat_proto gen_one
    nat_nle gen_relational gen_compare gen_plain gen_combined gen_constant gen_leaf leaf_kind
    leaf_attrs gen_verdict_fields chain_field netlink_gen_chain gen_lookup raw_data
    netlink_gen_cmp_op netlink_gen_constant_data take_register drop_register get_register
    release_register __get_register __release_register netlink_register_space div_round_up
    assert_below nft_rule_add_expr
rule_run = refl
