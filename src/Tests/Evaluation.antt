-- ===== src/Tests/Evaluation.antt =====
-- Operations that are moved across comparisons, at concrete numbers.
use nftables.Base.{ℕ, ◌+◌, ◌-◌, ◌/◌, ◌^◌, ◌≡◌, refl, true, false, [], ◌∷◌, arith}
use nftables.Tests.Library.{test_mpz}
use nftables.Gmp.{Byteorder, mpz_bitmask, mpz_lshift_ui, mpz_rshift_ui}
use nftables.Expr.{ValueExpr}
use nftables.Evaluation.Constants.{
  done, BinopOp, op_and, op_xor, op_lshift, op_rshift, EvalCtx, __expr_set_context,
  expr_evaluate_integer, byteorder_conversion, mpz_get_uint32, mpz_get_uint8, simplify_value,
  constant_binop_simplify, expr_evaluate_shift, expr_evaluate_bitwise, operand_context,
  expr_evaluate_binop,
}
use nftables.Evaluation.Transfer.{
  value, range, set_elem, RightSide, constant, set, set_ref, LeftBinop, operation, argument,
  can_transfer_value, binop_can_transfer, inverse, transfer_value, binop_transfer_one,
  can_transfer_all, transfer_all, __binop_transfer, binop_transfer_handle_lhs, binop_transfer,
}
use nftables.Evaluation.Matches.{eq, lt, gte, holds, is_member, operate, left_value}
use nftables.Evaluation.Meaning.{
  binop_transfer-op_rshift, binop_transfer-op_lshift, binop_transfer-op_xor,
}
use nftables.Evaluation.Returns.{binop_transfer-op_rshift_done}
use nftables.Evaluation.Limits.{binop_transfer-op_xor-lt, binop_transfer-op_lshift_loss}

abbrev number : ℕ → ValueExpr
number n = record { value = n; byteorder = Byteorder.host_endian; len = 16 }

abbrev context : EvalCtx
context = record {
  stmt_len = 0;
  byteorder = Byteorder.host_endian;
  len = 16;
  maxval = 0;
  recursion = 0;
}

abbrev operand : BinopOp → ℕ → LeftBinop
operand op k = record { op = op; arg_len = 16; right = number k }

abbrev ports : RightSide
ports = set_ref true (
    set (set_elem (value (number 5)) ∷ set_elem (range (value (number 7)) (value (number 9))) ∷ []))

moved_ports :
    (r : RightSide) × (binop_transfer test_mpz context (operand op_rshift 4) ports
      ≡ done (operation op_and 1048560, r))
unfolding binop_transfer __binop_transfer can_transfer_all binop_can_transfer can_transfer_value
    transfer_all binop_transfer_one transfer_value inverse expr_evaluate_binop operand_context
    __expr_set_context expr_evaluate_integer expr_evaluate_shift constant_binop_simplify
    simplify_value byteorder_conversion mpz_get_uint32 mpz_get_uint8 mpz_bitmask mpz_lshift_ui
    mpz_rshift_ui binop_transfer_handle_lhs
moved_ports = (_, refl)

binop_transfer-op_rshift_example :
    holds gte moved_ports.0 (left_value (operation op_and 1048560) 16 136)
    ≡ holds gte ports (operate op_rshift 16 4 136)
binop_transfer-op_rshift_example =
    binop_transfer-op_rshift test_mpz context (operand op_rshift 4) ports moved_ports.0
      (operation op_and 1048560) gte 136 refl
      ((omega arith, omega arith), (((omega arith, omega arith), (omega arith, omega arith)), tt))
      (omega arith) moved_ports.1

binop_transfer-op_rshift_done_example :
    (w : ValueExpr) × (w.value ≡ 80)
    × (binop_transfer test_mpz context (operand op_rshift 4) (constant (value (number 5)))
        ≡ done (operation op_and (mpz_lshift_ui (mpz_bitmask 16) 4), constant (value w)))
binop_transfer-op_rshift_done_example =
    binop_transfer-op_rshift_done test_mpz context (operand op_rshift 4) (number 5) refl refl
      (omega arith) (omega arith) (omega arith) (omega arith) (omega arith)

abbrev even_port : RightSide
even_port = constant (value (number 160))

shifted_port :
    (r : RightSide) × (binop_transfer test_mpz context (operand op_lshift 4) even_port
      ≡ done (argument, r))
unfolding binop_transfer __binop_transfer binop_can_transfer can_transfer_value binop_transfer_one
    transfer_value inverse expr_evaluate_binop operand_context __expr_set_context
    expr_evaluate_integer expr_evaluate_shift constant_binop_simplify simplify_value
    byteorder_conversion mpz_get_uint32 mpz_bitmask mpz_rshift_ui binop_transfer_handle_lhs
shifted_port = (_, refl)

binop_transfer-op_lshift_example :
    holds eq shifted_port.0 (left_value argument 16 10)
    ≡ holds eq even_port (operate op_lshift 16 4 10)
binop_transfer-op_lshift_example =
    binop_transfer-op_lshift test_mpz context (operand op_lshift 4) even_port shifted_port.0
      argument eq 10 refl (omega arith) shifted_port.1

-- 10 and the bit that a shift by 4 loses of 16.
binop_transfer-op_lshift_loss_example :
    (holds eq even_port (operate op_lshift 16 4 (160 / 2 ^ 4 + 2 ^ (16 - 4))) ≡ true)
    × (holds eq shifted_port.0 (left_value argument 16 (160 / 2 ^ 4 + 2 ^ (16 - 4))) ≡ false)
binop_transfer-op_lshift_loss_example =
    binop_transfer-op_lshift_loss test_mpz context (operand op_lshift 4) (number 160) shifted_port.0
      shifted_port.1 refl (omega arith) (omega arith) (omega arith)

abbrev two_ports : RightSide
two_ports = set (value (number 5) ∷ value (number 12) ∷ [])

inverted_ports :
    (r : RightSide) × (binop_transfer test_mpz context (operand op_xor 6) two_ports
      ≡ done (argument, r))
unfolding binop_transfer __binop_transfer can_transfer_all binop_can_transfer can_transfer_value
    transfer_all binop_transfer_one transfer_value inverse expr_evaluate_binop operand_context
    expr_evaluate_integer expr_evaluate_bitwise constant_binop_simplify simplify_value
    byteorder_conversion mpz_bitmask binop_transfer_handle_lhs
inverted_ports = (_, refl)

binop_transfer-op_xor_example :
    is_member inverted_ports.0 (left_value argument 16 3)
    ≡ is_member two_ports (operate op_xor 16 6 3)
binop_transfer-op_xor_example =
    binop_transfer-op_xor test_mpz context (operand op_xor 6) two_ports inverted_ports.0 argument 3
      refl (tt, (tt, tt)) inverted_ports.1

inverted_six :
    (r : RightSide) × (binop_transfer test_mpz context
        (operand op_xor 6)
        (constant (value (number 6)))
      ≡ done (argument, r))
unfolding binop_transfer __binop_transfer binop_can_transfer can_transfer_value binop_transfer_one
    transfer_value inverse expr_evaluate_binop operand_context expr_evaluate_integer
    expr_evaluate_bitwise constant_binop_simplify simplify_value byteorder_conversion mpz_bitmask
    binop_transfer_handle_lhs
inverted_six = (_, refl)

binop_transfer-op_xor-lt_example :
    (holds lt (constant (value (number 6))) (operate op_xor 16 6 6) ≡ true)
    × (holds lt inverted_six.0 (left_value argument 16 6) ≡ false)
binop_transfer-op_xor-lt_example =
    binop_transfer-op_xor-lt test_mpz context (operand op_xor 6) (number 6) inverted_six.0
      inverted_six.1 refl refl (omega arith)
