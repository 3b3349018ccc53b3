-- ===== src/Evaluation/Computed.antt =====
-- What the operations on two constants compute, read off a result that was given.
use Prim.Native.Nat.{bit_and, bit_xor}
use nftables.Base.{
  ℕ, suc, ◌-◌, ◌*◌, ◌/◌, ◌^◌, ◌<◌, ◌≡◌, refl, ap, sym, ◌∙◌, Bool, true, false, arith, ltb,
  if◌then◌else◌,
}
use nftables.Bits.Shifts.{two_pow_positive}
use nftables.Gmp.{Byteorder, host_endian, mpz_bitmask, mpz_lshift_ui, mpz_rshift_ui}
use nftables.Expr.{ValueExpr}
use nftables.Evaluation.Constants.{
  Message, Evaluated, done, error, stop, ◌>>=◌, ◌>>◌, assert, refuse, value_exceeds_range,
  recursion_limit, shift_exceeds_uint, shift_undefined, BinopOp, op_xor, op_lshift, op_rshift,
  EvalCtx, longer, same_byteorder, __expr_set_context, expr_evaluate_integer, byteorder_conversion,
  mpz_get_uint32, simplify_value, constant_binop_simplify, expr_evaluate_shift,
  expr_evaluate_bitwise, operand_context, evaluate_operation, expr_evaluate_binop,
}

-- The parts of a result.
pub bind_inv :
    {A B : Type 0} (m : Evaluated A) (f : A → Evaluated B) {b : B}
    → (m >>= f) ≡ done b
    → (a : A) × (m ≡ done a) × (f a ≡ done b)
bind_inv (done a) f e = (a, refl, e)
bind_inv (error x) f e = cc
bind_inv stop f e = cc

pub refuse_inv :
    {B : Type 0} (b : Bool) (x : Message) (k : Evaluated B) {r : B}
    → (refuse b x >> k) ≡ done r
    → (b ≡ false) × (k ≡ done r)
refuse_inv true x k e = cc
refuse_inv false x k e = (refl, e)

pub assert_inv :
    {B : Type 0} (b : Bool) (k : Evaluated B) {r : B}
    → (assert b >> k) ≡ done r
    → (b ≡ true) × (k ≡ done r)
assert_inv true k e = (refl, e)
assert_inv false k e = cc

pub done_inv : {A : Type 0} {a b : A} → done a ≡ done b → a ≡ b
done_inv e = cc

mask_fits : (w v : ℕ) → ltb (2 ^ w - 1) v ≡ false → v < 2 ^ w
mask_fits w v h = ground (arith, two_pow_positive w)

-- What an accepted integer becomes.
pub record IsAccepted (ctx : EvalCtx) (before after : ValueExpr) : Type 0 where
  pub fits : before.value < 2 ^ longer ctx ctx.len
  pub value : after.value ≡ before.value
  pub byteorder : after.byteorder ≡ ctx.byteorder
  pub len : after.len ≡ longer ctx ctx.len

pub expr_evaluate_integer_inv :
    (ctx : EvalCtx) (e r : ValueExpr) → expr_evaluate_integer ctx e ≡ done r → IsAccepted ctx e r
unfolding expr_evaluate_integer mpz_bitmask
expr_evaluate_integer_inv ctx e r h =
    let first = refuse_inv _ value_exceeds_range _ h in
    let second = refuse_inv _ value_exceeds_range _ first.1 in
    let same = done_inv second.1 in
    record {
      fits = mask_fits (longer ctx ctx.len) e.value second.0;
      value = sym (ap (λ (v : ValueExpr). v.value) same);
      byteorder = sym (ap (λ (v : ValueExpr). v.byteorder) same);
      len = sym (ap (λ (v : ValueExpr). v.len) same);
    }

-- A shift that gave a result has computed it.
pub expr_evaluate_shift_inv :
    (ctx : EvalCtx) (op : BinopOp) (left right r : ValueExpr)
    → expr_evaluate_shift ctx op left right ≡ done r
    → constant_binop_simplify ctx op host_endian
        (longer ctx left.len)
        (byteorder_conversion left host_endian)
        (byteorder_conversion right host_endian)
      ≡ done r
unfolding expr_evaluate_shift mpz_get_uint32
expr_evaluate_shift_inv ctx op left right r h =
    let first = refuse_inv _ shift_exceeds_uint _ h in
    let (shift, fits, rest) = bind_inv (mpz_get_uint32 right.value) _ first.1 in
    (refuse_inv _ shift_undefined _ rest).1

-- The number that the result of a constant operation has.
pub constant_binop_simplify_inv :
    (ctx : EvalCtx) (op : BinopOp) (order : Byteorder) (len : ℕ) (left right r : ValueExpr)
    → constant_binop_simplify ctx op order len left right ≡ done r
    → simplify_value op len left right ≡ done r.value
unfolding constant_binop_simplify
constant_binop_simplify_inv ctx op order len left right r h =
    let first = assert_inv (same_byteorder left.byteorder right.byteorder) _ h in
    let (val, computed, rest) = bind_inv (simplify_value op len left right) _ first.1 in
    let accepted =
      expr_evaluate_integer_inv ctx (record { value = val; byteorder = order; len = len }) r rest in
    computed ∙ ap done (sym accepted.value)

abbrev pub deeper : EvalCtx → EvalCtx
deeper ctx = record ctx { recursion = suc ctx.recursion }

-- The parts of an operation that gave a result.
record IsComputed (ctx : EvalCtx) (op : BinopOp) (left right : ValueExpr)
    (result : EvalCtx × ValueExpr) : Type 0 where
  left' : ValueExpr
  right' : ValueExpr
  on_left : IsAccepted (deeper ctx) left left'
  on_right : IsAccepted (operand_context (deeper ctx) op left') right right'
  operated :
      evaluate_operation (operand_context (deeper ctx) op left') op left' right' ≡ done result.1
  stmt_len : result.0.stmt_len ≡ (operand_context (deeper ctx) op left').stmt_len
  len : result.0.len ≡ (operand_context (deeper ctx) op left').len

expr_evaluate_binop_inv :
    (ctx : EvalCtx) (op : BinopOp) (left right : ValueExpr) (r : EvalCtx × ValueExpr)
    → expr_evaluate_binop ctx op left right ≡ done r
    → IsComputed ctx op left right r
unfolding expr_evaluate_binop
expr_evaluate_binop_inv ctx op left right r h =
    let first = refuse_inv _ recursion_limit _ h in
    let (l, on_left, after_left) = bind_inv (expr_evaluate_integer (deeper ctx) left) _ first.1 in
    let ctx' = operand_context (deeper ctx) op l in
    let (k, on_right, after_right) = bind_inv (expr_evaluate_integer ctx' right) _ after_left in
    let (v, operated, given) = bind_inv (evaluate_operation ctx' op l k) _ after_right in
    let same = done_inv given in
    record {
      left' = l;
      right' = k;
      on_left = expr_evaluate_integer_inv (deeper ctx) left l on_left;
      on_right = expr_evaluate_integer_inv ctx' right k on_right;
      operated = operated ∙ ap (λ (p : EvalCtx × ValueExpr). done p.1) same;
      stmt_len = sym (ap (λ (p : EvalCtx × ValueExpr). p.0.stmt_len) same);
      len = sym (ap (λ (p : EvalCtx × ValueExpr). p.0.len) same);
    }

-- The width that integers are checked against.
abbrev pub width : EvalCtx → ℕ
width ctx = longer ctx ctx.len

-- An operation on `left` and `right` gave `val`, and integers are checked as before.
pub record IsResult (ctx : EvalCtx) (left right : ValueExpr) (val : ℕ) (r : EvalCtx × ValueExpr)
    : Type 0 where
  pub left_fits : left.value < 2 ^ width ctx
  pub right_fits : right.value < 2 ^ width ctx
  pub computed : r.1.value ≡ val
  pub kept : width r.0 ≡ width ctx

shift_width :
    (ctx : EvalCtx) (len : ℕ)
    → len ≡ width ctx
    → (if ltb ctx.len len then len else ctx.len) ≡ width ctx
shift_width ctx len e = ground arith

same_width :
    (ctx ctx' : EvalCtx)
    → ctx'.stmt_len ≡ ctx.stmt_len
    → ctx'.len ≡ width ctx
    → width ctx' ≡ width ctx
same_width ctx ctx' e h = rw (e, h) (ground arith)

simplify_lshift :
    (len : ℕ) (left right : ValueExpr) {v : ℕ}
    → simplify_value op_lshift len left right ≡ done v
    → v ≡ bit_and (left.value * 2 ^ right.value) (2 ^ len - 1)
unfolding simplify_value mpz_bitmask mpz_lshift_ui mpz_get_uint32
simplify_lshift len left right h =
    let first = assert_inv (same_byteorder left.byteorder host_endian) _ h in
    let (shift, fits, rest) = bind_inv (mpz_get_uint32 right.value) _ first.1 in
    let at : right.value ≡ shift = done_inv (assert_inv (ltb right.value (2 ^ 32)) _ fits).1 in
    rw at (sym (done_inv rest))

simplify_rshift :
    (len : ℕ) (left right : ValueExpr) {v : ℕ}
    → simplify_value op_rshift len left right ≡ done v
    → v ≡ bit_and left.value (2 ^ len - 1) / 2 ^ right.value
unfolding simplify_value mpz_bitmask mpz_rshift_ui mpz_get_uint32
simplify_rshift len left right h =
    let first = assert_inv (same_byteorder left.byteorder host_endian) _ h in
    let (shift, fits, rest) = bind_inv (mpz_get_uint32 right.value) _ first.1 in
    let at : right.value ≡ shift = done_inv (assert_inv (ltb right.value (2 ^ 32)) _ fits).1 in
    rw at (sym (done_inv rest))

simplify_xor :
    (len : ℕ) (left right : ValueExpr) {v : ℕ}
    → simplify_value op_xor len left right ≡ done v
    → v ≡ bit_and (bit_xor left.value right.value) (2 ^ len - 1)
unfolding simplify_value mpz_bitmask
simplify_xor len left right h = sym (done_inv h)

module _ (ctx : EvalCtx) (left right : ValueExpr) (r : EvalCtx × ValueExpr) where
  -- The number is computed from the operands at the width of the context.
  result :
      (op : BinopOp) (val : ℕ → ℕ → ℕ → ℕ) (c : IsComputed ctx op left right r)
      → (operand_context (deeper ctx) op c.left').stmt_len ≡ ctx.stmt_len
      → width (operand_context (deeper ctx) op c.left') ≡ width ctx
      → r.1.value ≡ val (width ctx) c.left'.value c.right'.value
      → IsResult ctx left right (val (width ctx) left.value right.value) r
  result op val c same wide v = record {
    left_fits = c.on_left.fits;
    right_fits = rw wide at c.on_right.fits;
    computed = v ∙ rw (c.on_left.value, c.on_right.value) refl;
    kept = rw (c.stmt_len, c.len) wide;
  }

  -- A shift is simplified at the width of the context.
  shift_len :
      (stmt_len len : ℕ)
      → stmt_len ≡ ctx.stmt_len
      → len ≡ width ctx
      → (if ltb len stmt_len then stmt_len else len) ≡ width ctx
  shift_len stmt_len len e h = ground arith

  pub lshift_result :
      expr_evaluate_binop ctx op_lshift left right ≡ done r
      → IsResult ctx left right (bit_and (left.value * 2 ^ right.value) (2 ^ width ctx - 1)) r
  unfolding operand_context __expr_set_context byteorder_conversion
  lshift_result h =
      let c = expr_evaluate_binop_inv ctx op_lshift left right r h in
      let ctx' = operand_context (deeper ctx) op_lshift c.left' in
      let wide =
        shift_len ctx'.stmt_len ctx'.len refl (shift_width ctx c.left'.len c.on_left.len) in
      let at = shift_len ctx'.stmt_len c.left'.len refl c.on_left.len in
      let simplified =
        constant_binop_simplify_inv ctx' op_lshift host_endian (longer ctx' c.left'.len)
          (byteorder_conversion c.left' host_endian) (byteorder_conversion c.right' host_endian) r.1
          (expr_evaluate_shift_inv ctx' op_lshift c.left' c.right' r.1 c.operated) in
      result op_lshift (λ w a b. bit_and (a * 2 ^ b) (2 ^ w - 1)) c refl wide
        (rw at at (
          simplify_lshift (longer ctx' c.left'.len) (byteorder_conversion c.left' host_endian)
            (byteorder_conversion c.right' host_endian) simplified))

  pub rshift_result :
      expr_evaluate_binop ctx op_rshift left right ≡ done r
      → IsResult ctx left right (bit_and left.value (2 ^ width ctx - 1) / 2 ^ right.value) r
  unfolding operand_context __expr_set_context byteorder_conversion
  rshift_result h =
      let c = expr_evaluate_binop_inv ctx op_rshift left right r h in
      let ctx' = operand_context (deeper ctx) op_rshift c.left' in
      let wide =
        shift_len ctx'.stmt_len ctx'.len refl (shift_width ctx c.left'.len c.on_left.len) in
      let at = shift_len ctx'.stmt_len c.left'.len refl c.on_left.len in
      let simplified =
        constant_binop_simplify_inv ctx' op_rshift host_endian (longer ctx' c.left'.len)
          (byteorder_conversion c.left' host_endian) (byteorder_conversion c.right' host_endian) r.1
          (expr_evaluate_shift_inv ctx' op_rshift c.left' c.right' r.1 c.operated) in
      result op_rshift (λ w a b. bit_and a (2 ^ w - 1) / 2 ^ b) c refl wide
        (rw at at (
          simplify_rshift (longer ctx' c.left'.len) (byteorder_conversion c.left' host_endian)
            (byteorder_conversion c.right' host_endian) simplified))

  pub xor_result :
      expr_evaluate_binop ctx op_xor left right ≡ done r
      → IsResult ctx left right (bit_and (bit_xor left.value right.value) (2 ^ width ctx - 1)) r
  unfolding operand_context byteorder_conversion expr_evaluate_bitwise
  xor_result h =
      let c = expr_evaluate_binop_inv ctx op_xor left right r h in
      let whole : ltb c.left'.len ctx.stmt_len ≡ false = rw c.on_left.len (ground arith) in
      let simplified =
        constant_binop_simplify_inv (deeper ctx) op_xor c.left'.byteorder c.left'.len c.left'
          (byteorder_conversion c.right' c.left'.byteorder) r.1 (rw whole at c.operated) in
      result op_xor (λ w a b. bit_and (bit_xor a b) (2 ^ w - 1)) c refl refl
        (rw c.on_left.len at (
          simplify_xor c.left'.len c.left' (byteorder_conversion c.right' c.left'.byteorder)
            simplified))
