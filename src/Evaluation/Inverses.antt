-- ===== src/Evaluation/Inverses.antt =====
-- src/evaluate.c: the facts that the transfer needs of shifts and of the exclusive or.
use Prim.Native.Nat.{bit_xor}
use nftables.Base.{
  ℕ, zero, suc, ◌+◌, ◌*◌, ◌^◌, ◌≤◌, ◌<◌, ◌≡◌, ap, sym, ◌∙◌, arith, ltb, List, [], ◌∷◌, All,
}
use native.Mathlib.Nat.{pow-le-pow_right, pow-suc}
use nftables.Gmp.{Mpz}
use nftables.Bits.Shifts.{bit_and-ones, scan1_lem, bit_xor-lt, shift_step}
use nftables.Expr.{ValueExpr}
use nftables.Evaluation.Constants.{
  Evaluated, done, ◌>>=◌, op_xor, op_lshift, op_rshift, EvalCtx, mpz_get_uint32, always_false,
}
use nftables.Evaluation.Transfer
use nftables.Evaluation.Transfer.{
  Constant, RightSide, LeftBinop, Transferable, can, cannot, can_transfer_value, binop_can_transfer,
  inverse, transfer_value, binop_transfer_one, can_transfer_all, transfer_all, Transferred, moved,
  kept, __binop_transfer, then_transfer, is_bare, moved_constant, moved_set, moved_init,
}
use nftables.Evaluation.Computed.{
  bind_inv, refuse_inv, assert_inv, done_inv, width, lshift_result, rshift_result, xor_result,
}
use nftables.Evaluation.Matches.{SideRelated, Stretched, turn_side}
use nftables.Evaluation.Moved.{Each, SideEach}
use nftables.Evaluation.Sides.{Moves, __binop_transfer-SideRelated}

mpz_get_uint32_inv :
    {B : Type 0} (n : ℕ) (f : ℕ → Evaluated B) {b : B}
    → (mpz_get_uint32 n >>= f) ≡ done b
    → f n ≡ done b
unfolding mpz_get_uint32
mpz_get_uint32_inv n f h =
    let (shift, fits, rest) = bind_inv (mpz_get_uint32 n) f h in
    let at : n ≡ shift = done_inv (assert_inv (ltb n (2 ^ 32)) _ fits).1 in rw at rest

pub below_pow : {v a b : ℕ} → v < 2 ^ a → a ≤ b → v < 2 ^ b
below_pow {v} {a} {b} h l = omega (arith, pow-le-pow_right {n = 2} (omega arith) l)

pub stretched_below : (v l k w : ℕ) → v < 2 ^ l → l + k ≤ w → v * 2 ^ k < 2 ^ w
stretched_below v l zero w h e =
    let same : v * 2 ^ 0 ≡ v = omega arith in rw same (below_pow h (omega (arith, e)))
stretched_below v l (suc k) zero h e = absurd (omega arith)
stretched_below v l (suc k) (suc w) h e =
    omega (arith, shift_step v k, pow-suc 2 w, stretched_below v l k w h (omega arith))

width-le : (c : EvalCtx) → c.len ≤ width c
width-le c = ground arith

Each-all : (c : Constant) → Each (λ v. Unit) c
Each-all (Transfer.value v) = tt
Each-all (Transfer.set_elem key) = Each-all key
Each-all (Transfer.mapping key) = Each-all key
Each-all (Transfer.range low high) = (Each-all low, Each-all high)
Each-all Transfer.other = tt

All-Each : (cs : List Constant) → All (Each (λ v. Unit)) cs
All-Each [] = tt
All-Each (c ∷ cs) = (Each-all c, All-Each cs)

SideEach-all : (right : RightSide) → SideEach (λ v. Unit) right
SideEach-all (Transfer.constant c) = Each-all c
SideEach-all (Transfer.set elems) = All-Each elems
SideEach-all (Transfer.set_ref anonymous init) = SideEach-all init

-- A constant fits its length, which is not above that of the context.
abbrev pub IsSized : EvalCtx → ValueExpr → Type 0
IsSized ctx v = (v.value < 2 ^ v.len) × (v.len ≤ ctx.len)

module _ (m : Mpz) (left : LeftBinop) (start : EvalCtx) where
  rshift_check :
      (ctx ctx' : EvalCtx) (v : ValueExpr)
      → left.op ≡ op_rshift
      → start.len ≤ ctx.len
      → (v.value < 2 ^ v.len) × (v.len ≤ start.len)
      → can_transfer_value m ctx left v ≡ done (can ctx')
      → (ctx.len ≤ ctx'.len) × (v.value * 2 ^ left.right.value < 2 ^ ctx'.len)
  unfolding can_transfer_value
  rshift_check ctx ctx' v is_rshift g s h =
      let answer = done_inv (mpz_get_uint32_inv left.right.value _ (rw is_rshift at h)) in
      let wide = ap (λ (t : Transferable). elim t [ can c ↦ c.len | cannot ↦ 0 ]) answer in
      let enough : (ctx.len ≤ ctx'.len) × (v.len + left.right.value ≤ ctx'.len) = ground arith in
      (enough.0, stretched_below v.value v.len left.right.value ctx'.len s.0 enough.1)

  rshift_make :
      (c ctx : EvalCtx) (v : ValueExpr) (r : EvalCtx × ValueExpr)
      → left.op ≡ op_rshift
      → width ctx ≡ width c
      → v.value * 2 ^ left.right.value < 2 ^ c.len
      → transfer_value ctx left v ≡ done r
      → Stretched left.right.value v.value r.1.value × (width r.0 ≡ width c)
  unfolding transfer_value inverse
  rshift_make c ctx v r is_rshift e fits h =
      let result = lshift_result ctx v left.right r (rw is_rshift at h) in
      let all =
        bit_and-ones (width c) (v.value * 2 ^ left.right.value) (below_pow fits (width-le c)) in
      (result.computed ∙ rw e all, result.kept ∙ e)

  -- A right shift: the numbers are stretched, and nothing of them is cut.
  rshift_Moves : left.op ≡ op_rshift → Moves m left start
  rshift_Moves is_rshift = record {
    Grows = λ b c. b.len ≤ c.len;
    Checked = λ c v. v.value * 2 ^ left.right.value < 2 ^ c.len;
    Needed = λ v. (v.value < 2 ^ v.len) × (v.len ≤ start.len);
    Made = Stretched left.right.value;
    refl_Grows = λ c. omega arith;
    trans_Grows = λ a b c g h. omega (arith, g, h);
    Checked_grows = λ b c v g p. below_pow p g;
    check = λ ctx ctx' v. rshift_check ctx ctx' v is_rshift;
    make = λ c ctx v r. rshift_make c ctx v r is_rshift;
  }

  lshift_check :
      (ctx ctx' : EvalCtx) (v : ValueExpr)
      → left.op ≡ op_lshift
      → can_transfer_value m ctx left v ≡ done (can ctx')
      → left.right.value ≤ m.scan1 v.value
  unfolding can_transfer_value
  lshift_check ctx ctx' v is_lshift h =
      let checked =
        refuse_inv (ltb (m.scan1 v.value) left.right.value) always_false (done (can ctx))
          (mpz_get_uint32_inv left.right.value _ (rw is_lshift at h)) in
      let found = checked.0 in ground arith

  lshift_make :
      (c ctx : EvalCtx) (v : ValueExpr) (r : EvalCtx × ValueExpr)
      → left.op ≡ op_lshift
      → width ctx ≡ width c
      → left.right.value ≤ m.scan1 v.value
      → transfer_value ctx left v ≡ done r
      → Stretched left.right.value r.1.value v.value × (width r.0 ≡ width c)
  unfolding transfer_value inverse
  lshift_make c ctx v r is_lshift e zeros h =
      let result = rshift_result ctx v left.right r (rw is_lshift at h) in
      let all = bit_and-ones (width ctx) v.value result.left_fits in
      (
        sym (rw (result.computed, all) (scan1_lem m left.right.value v.value zeros)),
        result.kept ∙ e,
      )

  -- A left shift: the numbers on the right were stretched, and are no longer.
  lshift_Moves : left.op ≡ op_lshift → Moves m left start
  lshift_Moves is_lshift = record {
    Grows = λ b c. Unit;
    Checked = λ c v. left.right.value ≤ m.scan1 v.value;
    Needed = λ v. Unit;
    Made = λ a b. Stretched left.right.value b a;
    refl_Grows = λ c. tt;
    trans_Grows = λ a b c g h. tt;
    Checked_grows = λ b c v g p. p;
    check = λ ctx ctx' v g s h. (tt, lshift_check ctx ctx' v is_lshift h);
    make = λ c ctx v r. lshift_make c ctx v r is_lshift;
  }

  xor_make :
      (c ctx : EvalCtx) (v : ValueExpr) (r : EvalCtx × ValueExpr)
      → left.op ≡ op_xor
      → width ctx ≡ width c
      → transfer_value ctx left v ≡ done r
      → (r.1.value ≡ bit_xor v.value left.right.value) × (width r.0 ≡ width c)
  unfolding transfer_value inverse
  xor_make c ctx v r is_xor e h =
      let result = xor_result ctx v left.right r (rw is_xor at h) in
      let all =
        bit_and-ones (width ctx) (bit_xor v.value left.right.value)
          (bit_xor-lt (width ctx) v.value left.right.value result.left_fits result.right_fits) in
      (result.computed ∙ all, result.kept ∙ e)

  -- An exclusive or: every number gets the bits of the constant inverted.
  xor_Moves : left.op ≡ op_xor → Moves m left start
  xor_Moves is_xor = record {
    Grows = λ b c. Unit;
    Checked = λ c v. Unit;
    Needed = λ v. Unit;
    Made = λ a b. b ≡ bit_xor a left.right.value;
    refl_Grows = λ c. tt;
    trans_Grows = λ a b c g h. tt;
    Checked_grows = λ b c v g p. p;
    check = λ ctx ctx' v g s h. (tt, tt);
    make = λ c ctx v r e p. xor_make c ctx v r is_xor e;
  }

  module _ (right right' : RightSide) (ctx : EvalCtx)
      (transferred : __binop_transfer m start left right ≡ done (moved ctx right')) where
    pub rshift_related :
        left.op ≡ op_rshift
        → SideEach (IsSized start) right
        → SideRelated (Stretched left.right.value) right right'
    unfolding rshift_Moves
    rshift_related is_rshift sized =
        __binop_transfer-SideRelated m left start (rshift_Moves is_rshift) right right' ctx sized
          transferred

    pub lshift_related : left.op ≡ op_lshift → SideRelated (Stretched left.right.value) right' right
    unfolding lshift_Moves
    lshift_related is_lshift = turn_side (Stretched left.right.value) (
        __binop_transfer-SideRelated m left start (lshift_Moves is_lshift) right right' ctx
          (SideEach-all right) transferred)

    pub xor_related :
        left.op ≡ op_xor → SideRelated (λ a b. b ≡ bit_xor a left.right.value) right right'
    unfolding xor_Moves
    xor_related is_xor =
        __binop_transfer-SideRelated m left start (xor_Moves is_xor) right right' ctx
          (SideEach-all right) transferred
