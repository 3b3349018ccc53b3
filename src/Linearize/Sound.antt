-- ===== src/Linearize/Sound.antt =====
-- The instructions of an expression never read a register that was not written before.
use nftables.Base.{ℕ, ◌+◌, ◌≤◌, ◌<◌, refl, Bool, ◌==◌, List, [], arith}
use nftables.Gmp.{Mpz}
use nftables.Bitwise.{Binop}
use nftables.Linearize.Syntax.{Expr, expr_len, RelOp, Right}
use nftables.Linearize.Context.{M, return, require, ◌>>◌}
use nftables.Linearize.Gen.{gen_relational}
use nftables.Linearize.Exprs.{outer, gen_expr, netlink_gen_expr}
use nftables.Linearize.Frame.{
  Done, Done-weaken, require-Done, assert_below-Done, bind-Done, return-Done,
}
use nftables.Linearize.Layout.{Placed}
use nftables.Linearize.Shape.{space_of, span, extra, IsValue}
use nftables.Linearize.Values.{gen_expr-Placed}
use nftables.Linearize.Compare.{IsRight}
use nftables.Linearize.Matches.{gen_relational-Done}

-- A comparison, whatever else is known, leaves its left-hand side in the registers.
pub relational-Done :
    (m : Mpz) (op : RelOp) (is_string : Bool) (left : Expr) (right : Right) (low : ℕ)
    (ds : List (ℕ × ℕ))
    → IsValue left
    → 0 < expr_len left
    → IsRight m op is_string left right
    → 1 ≤ low
    → span left ≤ space_of left
    → low + space_of left + extra left ≤ 17
    → Done 0 low low ds
        (Placed left low)
        (netlink_gen_expr m (Expr.relational op is_string left right) 0)
unfolding netlink_gen_expr gen_expr
relational-Done m op is_string left right low ds v h ok pos fits room =
    let gen_left : ℕ → ℕ → M (List Binop) = λ l. gen_expr m left l outer in
    let ih : (len : ℕ)
        → 0 < len
        → Done low (low + space_of left) (low + space_of left) ds (Placed left low)
            (gen_left len low) =
      λ len hl.
        gen_expr-Placed m left len outer low (low + space_of left) ds v hl tt pos (omega arith)
          (omega arith) in
    let given : M (Unit {0}) = gen_relational m left gen_left op is_string right in
    Done-weaken 0 low low low ds (Placed left low) (Placed left low)
      (netlink_gen_expr m (Expr.relational op is_string left right) 0) (omega arith) (λ a es _ k. k)
      (bind-Done low low low low ds (Placed left low) (Placed left low)
        (gen_expr m (Expr.relational op is_string left right) 0 outer 0) (λ _. return tt)
        (assert_below-Done low low low ds (Placed left low) 0
          (λ _. require (0 == 0) >> (given >> return [])) (omega arith)
          (require-Done low low low ds (Placed left low) (0 == 0) (λ _. given >> return []) refl
            (bind-Done low low low low ds (Placed left low) (Placed left low) given (λ _. return [])
              (gen_relational-Done m left gen_left low pos (omega arith) ds ih op is_string right h
                ok)
              (λ a es _ k. return-Done low low es (Placed left low) [] k))))
        (λ a es _ k. return-Done low low es (Placed left low) tt k))
