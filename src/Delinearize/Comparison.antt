-- ===== src/Delinearize/Comparison.antt =====
-- A comparison of an expression with a value: what src/netlink_linearize.c writes for it is read back as
-- a comparison of what was read for the expression.
use nftables.Base.{
  ℕ, ◌+◌, ◌*◌, ◌≤◌, ◌≡◌, refl, ◌∙◌, Bool, true, false, ◌&&◌, List, [], ◌∷◌, ◌++◌, Option, none,
  some, arith, ltb, length, take, lt-ltb,
}
use nftables.Gmp.{Mpz, div_round_up}
use nftables.Expr.{ValueExpr}
use nftables.NetlinkData.{netlink_gen_constant_data}
use nftables.Registers.{
  get_register, release_register, __get_register, __release_register, netlink_register_space,
}
use nftables.Linearize.Syntax.{
  Expr, Right, RelOp, CmpOp, cmp_eq, cmp_neq, cmp_lt, cmp_lte, cmp_gt, cmp_gte, Field, expr_len,
  concat_len,
}
use nftables.Linearize.Context.{
  Ctx, ◌>>=◌, assert_below, take_register, drop_register, nft_rule_add_expr,
}
use nftables.Linearize.Nles.{bytes_len, cmp, netlink_gen_cmp_op, cmp_number}
use nftables.Linearize.Gen.{flag_op, gen_relational, gen_plain, gen_compare}
use nftables.Linearize.Exprs.{outer, gen_expr, netlink_gen_expr}
use nftables.Linearize.Frame.{state}
use nftables.Delinearize.Attributes.{get_u32, get_data, source_register}
use nftables.Delinearize.Context.{Found, found_len, FoundRight}
use nftables.Delinearize.Exprs.{netlink_alloc_value, netlink_parse_cmp, netlink_parse_cmp_op}
use nftables.Delinearize.State.{Tables, Parse, FoundStmt}
use nftables.Delinearize.Rule.{netlink_parse_expr, netlink_parse_rule_expr, parse_kind, parse_exprs}
use nftables.Delinearize.Roundtrip.{put_reg}
use nftables.Delinearize.Chain.{gen_expr-Puts, operand_read}
use nftables.Delinearize.Puts.{parse_exprs-append}
use nftables.Delinearize.ReadBack.{IsOperated, read_back}

and_false : (b : Bool) → (b && false) ≡ false
and_false true = refl
and_false false = refl

no_concat : (len n : ℕ) (e : Expr) → IsOperated len e → concat_len e n ≡ none
no_concat len n (Expr.leaf own k) o = refl
no_concat len n (Expr.unary own op arg) o = refl
no_concat len n (Expr.shift own op left right) o = refl
no_concat len n (Expr.binop own order op left right) o = refl
no_concat len n (Expr.set_elem own key) o = refl
no_concat len n _ o = absurd o

module _ (m : Mpz) (t : Tables) (u : List Field → Parse → Option Parse) where
  cmp_op_back : (c : CmpOp) → netlink_parse_cmp_op m t (cmp_number c) ≡ some c
  unfolding netlink_parse_cmp_op
  cmp_op_back cmp_eq = refl
  cmp_op_back cmp_neq = refl
  cmp_op_back cmp_lt = refl
  cmp_op_back cmp_lte = refl
  cmp_op_back cmp_gt = refl
  cmp_op_back cmp_gte = refl

  -- The context with one more statement, and the operand in the register.
  abbrev pub compared : Parse → ℕ → CmpOp → Found → List ℕ → Parse
  compared ctx reg c a data_bytes = record (put_reg m t u ctx reg a) {
    stmt = none;
    rule =
        ctx.rule
        ++ FoundStmt.relational (some c) a (FoundRight.value (netlink_alloc_value m t data_bytes))
          ∷ [];
  }

  cmp_read :
      (reg : ℕ) (c : CmpOp) (a : Found) (data_bytes : List ℕ) (ctx : Parse)
      → 1 ≤ reg
      → reg ≤ 16
      → found_len a ≡ length data_bytes * 8
      → netlink_parse_rule_expr m t u (cmp reg c data_bytes) (put_reg m t u ctx reg a)
        ≡ some (compared ctx reg c a data_bytes)
  unfolding netlink_parse_rule_expr netlink_parse_expr parse_kind netlink_parse_cmp get_u32 get_data
      source_register netlink_alloc_value
  cmp_read reg c a data_bytes ctx l h e =
      let n = length data_bytes * 8 in
      let not_above : ltb n (found_len a) ≡ false = rw e (lt-ltb n n (omega arith)) in
      let not_below : ltb (found_len a) n ≡ false = rw e (lt-ltb n n (omega arith)) in
      rw
        (
          operand_read m t u reg (reg + 1) l h (omega arith) ctx a _ _,
          not_above,
          not_below,
          and_false (ltb 0 (found_len a)),
          cmp_op_back c,
        )
        refl

  -- A comparison of an operated expression with a value of the same number of bytes is written as
  -- instructions that are read back as one statement: the same comparison, of what is read for the
  -- expression, with the bytes of the value.
  pub parse_exprs-relational :
      (op : RelOp) (c : CmpOp) (is_string bitmask : Bool) (left : Expr) (right : ValueExpr)
      (data_bytes : List ℕ) (ctx : Parse)
      → IsOperated (expr_len left) left
      → (flag_op op && bitmask) ≡ false
      → netlink_gen_cmp_op op ≡ some c
      → netlink_gen_constant_data m right ≡ some data_bytes
      → found_len (read_back m t false (expr_len left) left)
        ≡ length (take (bytes_len right.len) data_bytes) * 8
      → ctx.stmt ≡ none
      → (out : Ctx) × (netlink_gen_expr m
            (Expr.relational op is_string left (Right.value right bitmask))
            0
            (state 1 [])
          ≡ some (tt, out))
        × (parse_exprs m t u out.nlr ctx
            ≡ some (
                compared ctx 1 c
                  (read_back m t false (expr_len left) left)
                  (take (bytes_len right.len) data_bytes)))
  unfolding netlink_gen_expr gen_expr gen_relational gen_plain gen_compare parse_exprs assert_below
      take_register drop_register get_register release_register __get_register __release_register
      nft_rule_add_expr netlink_register_space div_round_up
  parse_exprs-relational op c is_string bitmask left right data_bytes ctx o f g d e s =
      let (code, generated, parsed) =
        gen_expr-Puts m t u 1 5 (omega arith) (omega arith) (omega arith) left (expr_len left) outer
          o tt [] ctx s in
      let a = read_back m t false (expr_len left) left in
      (
        state 1 (code ++ cmp 1 c (take (bytes_len right.len) data_bytes) ∷ []),
        rw
            (
              ◌>>=◌,
              f,
              no_concat (expr_len left) (expr_len left) left o,
              generated,
              g,
              d,
              no_concat (expr_len left) (expr_len left) left o,
            )
            refl,
        parse_exprs-append m t u code _ ctx (put_reg m t u ctx 1 a) parsed
            ∙ rw
                (cmp_read 1 c a (take (bytes_len right.len) data_bytes) ctx (omega arith)
                  (omega arith) e)
                refl,
      )
