-- ===== src/Evaluation/Limits.antt =====
-- Where a comparison does not mean the same after its left operation was moved.
use Prim.Native.Nat.{bit_xor}
use nftables.Base.{
  ℕ, zero, suc, ◌+◌, ◌-◌, ◌*◌, ◌/◌, ◌%◌, ◌^◌, ◌≤◌, ◌<◌, ◌≡◌, refl, sym, ◌∙◌, Bool, true, false, inl,
  inr, arith, ◌==◌,
}
use native.Mathlib.Nat.{mod-eq_of_lt, mul-div_cancel, add-mod_right, add-mul, pow-suc}
use nftables.Gmp.{Mpz}
use nftables.Bits.{bit, ◌xor◌, bit-bit_xor, bit-zero}
use nftables.Bits.Shifts.{same_bits, two_pow_positive, shift_step}
use nftables.Expr.{ValueExpr}
use nftables.Evaluation.Constants.{done, op_xor, op_lshift, EvalCtx}
use nftables.Evaluation.Transfer.{RightSide, constant, value, LeftBinop, argument, binop_transfer}
use nftables.Evaluation.Matches.{
  eq, lt, holds, operate, left_value, SideRelated, constants, values, Stretched,
}
use nftables.Evaluation.Meaning.{binop_transfer_inv}
use nftables.Evaluation.Inverses.{lshift_related, xor_related}

cancels : (b : Bool) → (b xor b) ≡ false
cancels true = refl
cancels false = refl

bit_xor_self : (a : ℕ) → bit_xor a a ≡ 0
bit_xor_self a =
    same_bits (bit_xor a a) 0 (λ k. rw (bit-bit_xor k a a, bit-zero k) (cancels (bit k a)))

split_pow : (k len : ℕ) → k ≤ len → 2 ^ (len - k) * 2 ^ k ≡ 2 ^ len
split_pow zero len h = let same : len - 0 ≡ len = omega arith in rw same (omega arith)
split_pow (suc k) zero h = absurd (omega arith)
split_pow (suc k) (suc len) h =
    let less : suc len - suc k ≡ len - k = omega arith in
    rw (less, shift_step (2 ^ (len - k)) k)
      (omega (arith, split_pow k len (omega arith), pow-suc 2 len))

only_value :
    (R : ℕ → ℕ → Type 0) (v : ValueExpr) (r : RightSide) (P : RightSide → Type 0)
    → SideRelated R (constant (value v)) r
    → ((w : ValueExpr) → R v.value w.value → P (constant (value w)))
    → P r
only_value R v r P (constants (values {w = w} e)) f = f w e

to_value :
    (R : ℕ → ℕ → Type 0) (v : ValueExpr) (r : RightSide) (P : RightSide → Type 0)
    → SideRelated R r (constant (value v))
    → ((w : ValueExpr) → R w.value v.value → P (constant (value w)))
    → P r
to_value R v r P (constants (values {v = w} e)) f = f w e

-- `v` is `w`, shifted; the bit that is added to `w` is lost in the shift.
lost_bit :
    (w v k len : ℕ)
    → v ≡ w * 2 ^ k
    → k ≤ len
    → v < 2 ^ len
    → (((v / 2 ^ k + 2 ^ (len - k)) * 2 ^ k % 2 ^ len == v) ≡ true)
      × ((v / 2 ^ k + 2 ^ (len - k) == w) ≡ false)
lost_bit w v k len e le fits =
    let back : v / 2 ^ k ≡ w = rw e (mul-div_cancel w (two_pow_positive k)) in
    let wide : (w + 2 ^ (len - k)) * 2 ^ k ≡ v + 2 ^ len =
      add-mul w (2 ^ (len - k)) (2 ^ k) ∙ rw (split_pow k len le, sym e) refl in
    let cut : (w + 2 ^ (len - k)) * 2 ^ k % 2 ^ len ≡ v =
      rw wide (add-mod_right v (2 ^ len) ∙ mod-eq_of_lt fits) in
    rw (back, cut) (ground arith, ground (arith, two_pow_positive (len - k)))

module _ (m : Mpz) (start : EvalCtx) (left : LeftBinop) (v : ValueExpr) (right' : RightSide)
    (h : binop_transfer m start left (constant (value v)) ≡ done (argument, right')) where
  -- An exclusive or that was moved across `<` turns the answer around: where the number on the right
  -- is the constant of the operation and is not 0, the comparison held of that same value and no
  -- longer does.
  pub binop_transfer-op_xor-lt :
      left.op ≡ op_xor
      → v.value ≡ left.right.value
      → 0 < left.right.value
      → (holds lt
            (constant (value v))
            (operate left.op left.arg_len left.right.value left.right.value)
          ≡ true)
        × (holds lt right' (left_value argument left.arg_len left.right.value) ≡ false)
  binop_transfer-op_xor-lt is_xor e p = elim (binop_transfer_inv m start left _ right' argument h) [
    | inl (l, r) ↦ cc
    | inr (ctx, transferred, handled) ↦ (
      rw (is_xor, e, bit_xor_self left.right.value) (ground arith),
      only_value (λ a b. b ≡ bit_xor a left.right.value) v right'
          (λ r. holds lt r left.right.value ≡ false)
          (xor_related m left start (constant (value v)) right' ctx transferred is_xor)
          (λ w f. rw (f, e, bit_xor_self left.right.value) (ground arith)),
    )
  ]

  -- A left shift that was moved forgets the bits that the shift loses: the shifted number, with the
  -- lowest one of them set, passed the test for equality and no longer does.
  pub binop_transfer-op_lshift_loss :
      left.op ≡ op_lshift
      → 0 < left.right.value
      → left.right.value ≤ left.arg_len
      → v.value < 2 ^ left.arg_len
      → (holds eq (constant (value v)) (
            operate left.op left.arg_len left.right.value
              (v.value / 2 ^ left.right.value + 2 ^ (left.arg_len - left.right.value)))
          ≡ true)
        × (holds eq right' (
              left_value argument left.arg_len
                (v.value / 2 ^ left.right.value + 2 ^ (left.arg_len - left.right.value)))
            ≡ false)
  binop_transfer-op_lshift_loss is_lshift p le fits =
      elim (binop_transfer_inv m start left _ right' argument h) [
        | inl (l, r) ↦ cc
        | inr (ctx, transferred, handled) ↦ rw is_lshift (
            to_value (Stretched left.right.value) v right'
              (λ r.
                (((v.value / 2 ^ left.right.value + 2 ^ (left.arg_len - left.right.value))
                      * 2 ^ left.right.value
                      % 2 ^ left.arg_len
                    == v.value)
                  ≡ true)
                × (holds eq r
                      (v.value / 2 ^ left.right.value + 2 ^ (left.arg_len - left.right.value))
                    ≡ false))
              (lshift_related m left start (constant (value v)) right' ctx transferred is_lshift)
              (λ w f. lost_bit w.value v.value left.right.value left.arg_len f le fits))
      ]
