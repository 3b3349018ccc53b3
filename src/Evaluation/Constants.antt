-- ===== src/Evaluation/Constants.antt =====
-- src/evaluate.c: binary operations on two integer constants, and the checks of their ranges. The
-- data types and the recursion limit of chains that are not constant are left out.
use Prim.Native.Nat.{bit_and, bit_or, bit_xor}
use nftables.Base.{ℕ, suc, ◌-◌, ◌^◌, Bool, true, false, ◌&&◌, ltb, leb, if◌then◌else◌}
use nftables.Gmp.{
  Byteorder, big_endian, host_endian, invalid, mpz_bitmask, mpz_lshift_ui, mpz_rshift_ui,
}
use nftables.Expr.{ValueExpr}

-- The errors that are reported.
pub data Message : Type 0 where
  value_exceeds_range recursion_limit shift_exceeds_uint shift_undefined always_false : Message
  range_negative_size prefix_length_invalid : Message

-- `stop` is a failed assertion or a BUG().
pub data Evaluated (A : Type 0) : Type 0 where
  done : A → Evaluated A
  error : Message → Evaluated A
  stop : Evaluated A

infixl 5 ◌>>=◌ ◌>>◌
abbrev pub ◌>>=◌ : {A B : Type 0} → Evaluated A → (A → Evaluated B) → Evaluated B
done a >>= f = f a
error e >>= f = error e
stop >>= f = stop

abbrev pub ◌>>◌ : {B : Type 0} → Evaluated (Unit {0}) → Evaluated B → Evaluated B
m >> k = m >>= λ _. k

abbrev pub assert : Bool → Evaluated (Unit {0})
assert true = done tt
assert false = stop

abbrev pub refuse : Bool → Message → Evaluated (Unit {0})
refuse true e = error e
refuse false e = done tt

pub data BinopOp : Type 0 where
  op_and op_xor op_or op_lshift op_rshift : BinopOp

-- `struct eval_ctx` with the fields `byteorder`, `len` and `maxval` of its `ectx`.
pub record EvalCtx : Type 0 where
  pub stmt_len : ℕ
  pub byteorder : Byteorder
  pub len : ℕ
  pub maxval : ℕ
  pub recursion : ℕ

abbrev pub same_byteorder : Byteorder → Byteorder → Bool
same_byteorder big_endian big_endian = true
same_byteorder host_endian host_endian = true
same_byteorder invalid invalid = true
same_byteorder _ _ = false

-- The larger one of the length of the statement and another length.
abbrev pub longer : EvalCtx → ℕ → ℕ
longer ctx len = if ltb len ctx.stmt_len then ctx.stmt_len else len

unfoldable pub __expr_set_context : EvalCtx → Byteorder → ℕ → ℕ → EvalCtx
__expr_set_context ctx byteorder len maxval = record ctx {
  byteorder = byteorder;
  len = len;
  maxval = maxval;
}

unfoldable pub expr_evaluate_integer : EvalCtx → ValueExpr → Evaluated ValueExpr
unfolding mpz_bitmask
expr_evaluate_integer ctx expr = do
  refuse (ltb 0 ctx.maxval && ltb ctx.maxval expr.value) value_exceeds_range
  let masklen = longer ctx ctx.len
  refuse (ltb (mpz_bitmask masklen) expr.value) value_exceeds_range
  done (record { value = expr.value; byteorder = ctx.byteorder; len = masklen })

-- A constant is not converted, it gets the other byte order.
unfoldable pub byteorder_conversion : ValueExpr → Byteorder → ValueExpr
byteorder_conversion expr byteorder = record expr { byteorder = byteorder }

-- More than one word does not fit the result.
unfoldable pub mpz_get_uint32 : ℕ → Evaluated ℕ
mpz_get_uint32 op = do assert (ltb op (2 ^ 32)); done op

unfoldable pub mpz_get_uint8 : ℕ → Evaluated ℕ
mpz_get_uint8 op = do assert (ltb op (2 ^ 8)); done op

-- The value that the switch computes.
unfoldable pub simplify_value : BinopOp → ℕ → ValueExpr → ValueExpr → Evaluated ℕ
unfolding mpz_bitmask mpz_lshift_ui mpz_rshift_ui mpz_get_uint32
simplify_value op_and len left right =
    done (bit_and (bit_and left.value right.value) (mpz_bitmask len))
simplify_value op_xor len left right =
    done (bit_and (bit_xor left.value right.value) (mpz_bitmask len))
simplify_value op_or len left right =
    done (bit_and (bit_or left.value right.value) (mpz_bitmask len))
simplify_value op_lshift len left right = do
  assert (same_byteorder left.byteorder host_endian)
  shift ← mpz_get_uint32 right.value
  done (bit_and (mpz_lshift_ui left.value shift) (mpz_bitmask len))
simplify_value op_rshift len left right = do
  assert (same_byteorder left.byteorder host_endian)
  shift ← mpz_get_uint32 right.value
  done (mpz_rshift_ui (bit_and left.value (mpz_bitmask len)) shift)

-- `byteorder` and `len` are the operation's.
unfoldable pub constant_binop_simplify :
    EvalCtx → BinopOp → Byteorder → ℕ → ValueExpr → ValueExpr → Evaluated ValueExpr
unfolding simplify_value expr_evaluate_integer
constant_binop_simplify ctx op byteorder len left right = do
  assert (same_byteorder left.byteorder right.byteorder)
  val ← simplify_value op len left right
  expr_evaluate_integer ctx (record { value = val; byteorder = byteorder; len = len })

unfoldable pub expr_evaluate_shift : EvalCtx → BinopOp → ValueExpr → ValueExpr → Evaluated ValueExpr
unfolding mpz_get_uint32 byteorder_conversion constant_binop_simplify
expr_evaluate_shift ctx op left right = do
  refuse (ltb (2 ^ 32 - 1) right.value) shift_exceeds_uint
  shift ← mpz_get_uint32 right.value
  let max_shift_len = longer ctx left.len
  refuse (leb max_shift_len shift) shift_undefined
  constant_binop_simplify ctx op host_endian max_shift_len (byteorder_conversion left host_endian)
      (byteorder_conversion right host_endian)

unfoldable pub expr_evaluate_bitwise :
    EvalCtx → BinopOp → ValueExpr → ValueExpr → Evaluated ValueExpr
unfolding byteorder_conversion constant_binop_simplify
expr_evaluate_bitwise ctx op left right =
    if ltb left.len ctx.stmt_len
    then constant_binop_simplify ctx op host_endian ctx.stmt_len
        (byteorder_conversion left host_endian) (byteorder_conversion right host_endian)
    else constant_binop_simplify ctx op left.byteorder left.len left
        (byteorder_conversion right left.byteorder)

-- The context of the right operand: a shift sets another one.
unfoldable pub operand_context : EvalCtx → BinopOp → ValueExpr → EvalCtx
unfolding __expr_set_context
operand_context ctx op_lshift left =
    __expr_set_context ctx left.byteorder (if ltb ctx.len left.len then left.len else ctx.len) 0
operand_context ctx op_rshift left =
    __expr_set_context ctx left.byteorder (if ltb ctx.len left.len then left.len else ctx.len) 0
operand_context ctx _ left = ctx

abbrev pub evaluate_operation : EvalCtx → BinopOp → ValueExpr → ValueExpr → Evaluated ValueExpr
evaluate_operation ctx op_lshift left right = expr_evaluate_shift ctx op_lshift left right
evaluate_operation ctx op_rshift left right = expr_evaluate_shift ctx op_rshift left right
evaluate_operation ctx op left right = expr_evaluate_bitwise ctx op left right

-- An operation on two integer constants. The counter is back at its value when the result is there,
-- and a constant has no further operations to count.
unfoldable pub expr_evaluate_binop :
    EvalCtx → BinopOp → ValueExpr → ValueExpr → Evaluated (EvalCtx × ValueExpr)
unfolding expr_evaluate_integer operand_context
expr_evaluate_binop ctx op left right = do
  refuse (leb (2 ^ 16 - 1) ctx.recursion) recursion_limit
  left' ← expr_evaluate_integer (record ctx { recursion = suc ctx.recursion }) left
  let ctx' = operand_context (record ctx { recursion = suc ctx.recursion }) op left'
  right' ← expr_evaluate_integer ctx' right
  result ← evaluate_operation ctx' op left' right'
  done (record ctx' { recursion = ctx'.recursion - 1 }, result)
