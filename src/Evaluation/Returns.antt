-- ===== src/Evaluation/Returns.antt =====
-- src/evaluate.c: a comparison of a right shift with a number is transferred, whatever the number.
use mathlib.Core.Path.{subst}
use native.Mathlib.Nat.{pow-suc}
use nftables.Base.{
  ℕ, zero, suc, ◌+◌, ◌-◌, ◌*◌, ◌^◌, ◌<◌, ◌≤◌, ◌≡◌, refl, sym, ◌∙◌, Bool, true, false, arith, ltb,
  leb, if◌then◌else◌,
}
use nftables.Bits.Shifts.{two_pow_positive, bit_and-ones}
use nftables.Gmp.{Mpz, host_endian, mpz_bitmask, mpz_lshift_ui}
use nftables.Expr.{ValueExpr}
use nftables.Evaluation.Constants.{
  done, op_and, op_lshift, op_rshift, EvalCtx, longer, __expr_set_context, expr_evaluate_integer,
  byteorder_conversion, mpz_get_uint32, mpz_get_uint8, simplify_value, constant_binop_simplify,
  expr_evaluate_shift, operand_context, expr_evaluate_binop,
}
use nftables.Evaluation.Transfer.{
  value, constant, LeftBinop, can_transfer_value, binop_can_transfer, inverse, transfer_value,
  binop_transfer_one, __binop_transfer, operation, binop_transfer_handle_lhs, binop_transfer,
}
use nftables.Evaluation.Computed.{width, deeper}
use nftables.Evaluation.Inverses.{below_pow, stretched_below}

below_two_pow : (k w : ℕ) → k < w → k < 2 ^ w
below_two_pow k zero h = omega arith
below_two_pow zero (suc w) h = two_pow_positive (suc w)
below_two_pow (suc k) (suc w) h = omega (arith, pow-suc 2 w, below_two_pow k w (omega arith))

-- An integer that fits the width of the context is accepted.
expr_evaluate_integer_done :
    (ctx : EvalCtx) (e : ValueExpr)
    → ctx.maxval ≡ 0
    → e.value < 2 ^ width ctx
    → expr_evaluate_integer ctx e
      ≡ done (record { value = e.value; byteorder = ctx.byteorder; len = width ctx })
unfolding expr_evaluate_integer mpz_bitmask
expr_evaluate_integer_done ctx e none fits =
    let below : ltb (2 ^ width ctx - 1) e.value ≡ false = ground arith in rw (none, below) refl

expr_evaluate_shift_done :
    (ctx : EvalCtx) (left right : ValueExpr)
    → ctx.maxval ≡ 0
    → longer ctx left.len ≡ width ctx
    → right.value < width ctx
    → right.value < 2 ^ 32
    → left.value * 2 ^ right.value < 2 ^ width ctx
    → expr_evaluate_shift ctx op_lshift left right
      ≡ done (record {
        value = left.value * 2 ^ right.value;
        byteorder = ctx.byteorder;
        len = width ctx;
      })
unfolding expr_evaluate_shift constant_binop_simplify simplify_value byteorder_conversion
    mpz_get_uint32 mpz_bitmask mpz_lshift_ui
expr_evaluate_shift_done ctx left right none wide small word fits =
    let a : ltb (2 ^ 32 - 1) right.value ≡ false = ground arith in
    let b : leb (width ctx) right.value ≡ false = ground arith in
    let c : ltb right.value (2 ^ 32) ≡ true = ground arith in
    let d = bit_and-ones (width ctx) (left.value * 2 ^ right.value) fits in
    rw (a, c, wide, b, d)
      (expr_evaluate_integer_done ctx
        (record { value = left.value * 2 ^ right.value; byteorder = host_endian; len = width ctx })
        none fits)

-- The context of the shift count is as wide as the one before.
count_width :
    (ctx : EvalCtx) (l : ValueExpr)
    → l.len ≡ width ctx
    → width (operand_context (deeper ctx) op_lshift l) ≡ width ctx
unfolding operand_context __expr_set_context
count_width ctx l e = rw e (ground arith)

count_longer :
    (ctx : EvalCtx) (l : ValueExpr)
    → l.len ≡ width ctx
    → longer (operand_context (deeper ctx) op_lshift l) l.len ≡ width ctx
unfolding operand_context __expr_set_context
count_longer ctx l e = rw e (ground arith)

-- A left shift of constants that loses no bit.
expr_evaluate_binop_done :
    (ctx : EvalCtx) (left right : ValueExpr)
    → ctx.maxval ≡ 0
    → ctx.recursion < 2 ^ 16 - 1
    → left.value < 2 ^ width ctx
    → right.value < width ctx
    → right.value < 2 ^ 32
    → left.value * 2 ^ right.value < 2 ^ width ctx
    → (r : EvalCtx × ValueExpr) × (r.1.value ≡ left.value * 2 ^ right.value)
      × (expr_evaluate_binop ctx op_lshift left right ≡ done r)
unfolding expr_evaluate_binop operand_context __expr_set_context
expr_evaluate_binop_done ctx left right none shallow on_left small word fits =
    let l : ValueExpr = record { value = left.value; byteorder = ctx.byteorder; len = width ctx } in
    let ctx' = operand_context (deeper ctx) op_lshift l in
    let wide = count_width ctx l refl in
    let k : ValueExpr = record {
      value = right.value;
      byteorder = ctx'.byteorder;
      len = width ctx';
    } in
    let a : leb (2 ^ 16 - 1) ctx.recursion ≡ false = ground arith in
    let first = expr_evaluate_integer_done (deeper ctx) left none on_left in
    let in_width =
      subst (λ w. right.value < 2 ^ w) (sym wide) (below_two_pow right.value (width ctx) small) in
    let second = expr_evaluate_integer_done ctx' right refl in_width in
    let third =
      expr_evaluate_shift_done ctx' l k refl (count_longer ctx l refl ∙ sym wide)
        (subst (λ w. right.value < w) (sym wide) small) word
        (subst (λ w. left.value * 2 ^ right.value < 2 ^ w) (sym wide) fits) in
    let v : ValueExpr = record {
      value = left.value * 2 ^ right.value;
      byteorder = ctx'.byteorder;
      len = width ctx';
    } in
    ((record ctx' { recursion = ctx'.recursion - 1 }, v), refl, rw (a, first, second, third) refl)

-- The context that the check leaves: `b` is that it was too short.
abbrev checked : Bool → EvalCtx → ℕ → EvalCtx
checked b start k = if b then record start { len = start.len + k } else start

checked_lem :
    (b : Bool) (start : EvalCtx) (n k : ℕ)
    → ltb start.len (n + k) ≡ b
    → start.maxval ≡ 0
    → start.recursion < 2 ^ 16 - 1
    → n ≤ start.len
    → (n + k ≤ width (checked b start k))
      × ((checked b start k).maxval ≡ 0)
      × ((checked b start k).recursion < 2 ^ 16 - 1)
checked_lem true start n k e none shallow within = (ground arith, none, shallow)
checked_lem false start n k e none shallow within = (ground arith, none, shallow)

module _ (m : Mpz) (start : EvalCtx) (left : LeftBinop) (v : ValueExpr) where
  -- A comparison of a right shift with a number that fits its length, which is not 0 and not above
  -- that of the context, is transferred, if there is no maximum in the context, room for one more
  -- recursion, and the count is a byte: the expression is masked, and what it is compared with is
  -- the number shifted to the left, of which no bit is lost.
  pub binop_transfer-op_rshift_done :
      left.op ≡ op_rshift
      → start.maxval ≡ 0
      → start.recursion < 2 ^ 16 - 1
      → left.right.value < 2 ^ 8
      → 0 < v.len
      → v.len ≤ start.len
      → v.value < 2 ^ v.len
      → (w : ValueExpr) × (w.value ≡ v.value * 2 ^ left.right.value)
        × (binop_transfer m start left (constant (value v))
            ≡ done (
              operation op_and (mpz_lshift_ui (mpz_bitmask left.arg_len) left.right.value),
              constant (value w),
            ))
  unfolding binop_transfer __binop_transfer binop_can_transfer can_transfer_value binop_transfer_one
      transfer_value inverse binop_transfer_handle_lhs mpz_get_uint32 mpz_get_uint8
  binop_transfer-op_rshift_done is_rshift none shallow byte long within fits =
      let k = left.right.value in
      let ctx = checked (ltb start.len (v.len + k)) start k in
      let (wide, no_maximum, room) = checked_lem _ start v.len k refl none shallow within in
      let (r, at, computed) =
        expr_evaluate_binop_done ctx v left.right no_maximum room
          (below_pow fits (omega (arith, wide))) (omega (arith, wide)) (omega arith)
          (stretched_below v.value v.len k (width ctx) fits wide) in
      let word : ltb k (2 ^ 32) ≡ true = ground arith in
      let small : ltb k (2 ^ 8) ≡ true = ground arith in
      (r.1, at, rw (is_rshift, word, computed, small) refl)
