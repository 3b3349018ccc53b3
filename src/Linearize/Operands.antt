-- ===== src/Linearize/Operands.antt =====
-- Values that statements compute into registers.
use mathlib.Core.Path.{subst}
use nftables.Base.{
  ℕ, ◌+◌, ◌≤◌, ◌<◌, ◌≡◌, refl, Bool, true, false, List, [], ◌∷◌, ◌++◌, Option, All, arith,
  if◌then◌else◌,
}
use nftables.Gmp.{Mpz}
use nftables.Linearize.Syntax.{
  Expr, expr_len, concat_len, Field, Nle, sreg, sreg_number, dreg, number, bytes, text, set_ref,
  nested,
}
use nftables.Linearize.Context.{
  M, ◌>>=◌, ◌>>◌, return, take_register, drop_register, nft_rule_add_expr,
}
use nftables.Linearize.Exprs.{outer, gen_expr, netlink_gen_expr}
use nftables.Linearize.Stmts.{gen_operand}
use nftables.Linearize.Frame.{
  read_by, reads, writes, known, Grows, Done, bind-Done, Done-weaken, return-Done,
  take_register-Done, drop_register-Done, add-Done,
}
use nftables.Linearize.Shape.{space_of, span, extra, IsValue}
use nftables.Linearize.Parts.{Known}
use nftables.Linearize.Layout.{Holds, Placed, Holds-known, kept-Done}
use nftables.Linearize.Values.{gen_expr-Placed}

-- A value that fits into `space` registers from `low` on, with room for what it takes above them.
abbrev pub FitsInto : ℕ → ℕ → Expr → Type 0
FitsInto space low e =
    IsValue e × (0 < expr_len e) × (span e ≤ space) × (low + space + extra e ≤ 17)

-- The same for the registers that the value is given.
abbrev pub IsOperand : ℕ → Expr → Type 0
IsOperand low e = FitsInto (space_of e) low e

All-above : (ws : List (ℕ × ℕ)) → All (λ w. 0 ≤ w.0) ws
All-above [] = tt
All-above (w ∷ ws) = (omega arith, All-above ws)

-- The last instruction of a statement.
pub final-Done :
    (low : ℕ) (ds : List (ℕ × ℕ)) (n : Nle)
    → All (λ r. known ds r ≡ true) (reads n)
    → Done 0 low low ds (λ _ _. Unit {0}) (nft_rule_add_expr n)
final-Done low ds n h =
    Done-weaken 0 0 low low ds (λ _ es. es ≡ writes n ++ ds) (λ _ _. Unit {0}) (nft_rule_add_expr n)
      (omega arith) (λ a es _ eq. tt) (add-Done 0 low ds n h (All-above (writes n)))

-- Attributes that name no register.
abbrev pub Quiet : List Field → Type 0
Quiet fields = read_by fields ≡ []

pub append-Quiet : (a b : List Field) → Quiet a → Quiet b → Quiet (a ++ b)
append-Quiet [] b h k = k
append-Quiet (sreg x r ∷ a) b h k = ground arith
append-Quiet (sreg_number x r ∷ a) b h k = ground arith
append-Quiet (dreg r ∷ a) b h k = append-Quiet a b h k
append-Quiet (number x n ∷ a) b h k = append-Quiet a b h k
append-Quiet (bytes x n ∷ a) b h k = append-Quiet a b h k
append-Quiet (text x n ∷ a) b h k = append-Quiet a b h k
append-Quiet (set_ref s ∷ a) b h k = append-Quiet a b h k
append-Quiet (nested x y z ∷ a) b h k = append-Quiet a b h k

pub when-Quiet : (b : Bool) (f g : List Field) → Quiet f → Quiet g → Quiet (if b then f else g)
when-Quiet true f g h k = h
when-Quiet false f g h k = k

module _ (m : Mpz) (low : ℕ) (ds : List (ℕ × ℕ)) where
  -- A value in registers that were taken for it.
  gen_into-Placed :
      (e : Expr) (space above : ℕ)
      → FitsInto space low e
      → 1 ≤ low
      → low + space + above + extra e ≤ 17
      → Done 0
          (low + space + above)
          (low + space + above)
          ds
          (Placed e low)
          (netlink_gen_expr m e low)
  unfolding netlink_gen_expr
  gen_into-Placed e space above (v, h, fits, room) pos top =
      let end = low + space + above in
      Done-weaken 0 low end end ds (Placed e low) (Placed e low) (netlink_gen_expr m e low)
        (omega arith) (λ a es _ k. k)
        (bind-Done low end end end ds (Placed e low) (Placed e low)
          (gen_expr m e (expr_len e) outer low) _
          (gen_expr-Placed m e (expr_len e) outer low end ds v h tt pos (omega arith) (omega arith))
          (λ a es _ k. return-Done low end es (Placed e low) tt k))

  pub gen_into-Done :
      (e : Expr) (space above : ℕ)
      → FitsInto space low e
      → 1 ≤ low
      → low + space + above + extra e ≤ 17
      → Done 0 (low + space + above) (low + space + above) ds (Known low) (netlink_gen_expr m e low)
  gen_into-Done e space above ok pos top =
      let end = low + space + above in
      Done-weaken 0 0 end end ds (Placed e low) (Known low) (netlink_gen_expr m e low) (omega arith)
        (λ a es _ h. Holds-known e low es h) (gen_into-Placed e space above ok pos top)

  module _ {B : Type 0} (end : ℕ) (Q : B → List (ℕ × ℕ) → Type 0) (e : Expr) (pos : 1 ≤ low)
      (ok : IsOperand low e) where
    abbrev c : Option ℕ
    c = concat_len e (expr_len e)

    -- A value that stays in its registers.
    pub held-Done :
        (f : ℕ → M B)
        → ((es : List (ℕ × ℕ))
            → Grows ds es
            → Holds e low es
            → Done 0 (low + space_of e) end es Q (f low))
        → Done 0 low end ds Q (take_register c >>= λ reg. netlink_gen_expr m e reg >>= λ _. f reg)
    held-Done f next =
        let same : low + space_of e + 0 ≡ low + space_of e = omega arith in
        take_register-Done 0 low end ds Q c (λ reg. netlink_gen_expr m e reg >>= λ _. f reg)
          (omega (arith, ok.3))
          (bind-Done 0 (low + space_of e) (low + space_of e) end ds (Placed e low) Q
            (netlink_gen_expr m e low) (λ _. f low)
            (subst (λ t. Done 0 t t ds (Placed e low) (netlink_gen_expr m e low)) same
              (gen_into-Placed e (space_of e) 0 ok pos (omega (arith, ok.3))))
            (λ a es grows k. next es grows k))

  -- A value whose registers are given back at once.
  pub operand-Done :
      {B : Type 0} (end : ℕ) (Q : B → List (ℕ × ℕ) → Type 0) (e : Expr) (f : ℕ → M B)
      → 1 ≤ low
      → IsOperand low e
      → ((es : List (ℕ × ℕ)) → Grows ds es → Holds e low es → Done 0 low end es Q (f low))
      → Done 0 low end ds Q (gen_operand m e >>= f)
  operand-Done end Q e f pos ok next =
      let c = concat_len e (expr_len e) in
      bind-Done 0 low low end ds (λ r es. (r ≡ low) × Holds e low es × Grows ds es) Q
        (gen_operand m e) f
        (held-Done low (λ r es. (r ≡ low) × Holds e low es × Grows ds es) e pos ok
          (λ reg. drop_register c >> return reg)
          (λ es grows k.
            drop_register-Done 0 low low es (λ r fs. (r ≡ low) × Holds e low fs × Grows ds fs) c
              (λ _. return low) pos
              (return-Done 0 low es (λ r fs. (r ≡ low) × Holds e low fs × Grows ds fs) low
                (refl, k, grows))))
        (λ r es _ (eq, k, grows). rw eq (next es grows k))

  -- The same with nothing claimed of the rest: the value is still in the registers at the end.
  pub single-Done :
      (end : ℕ) (e : Expr) (f : ℕ → M (Unit {0}))
      → 1 ≤ low
      → IsOperand low e
      → ((es : List (ℕ × ℕ)) → Known low tt es → Done 0 low end es (λ _ _. Unit {0}) (f low))
      → Done 0 low end ds (Placed e low) (gen_operand m e >>= f)
  single-Done end e f pos ok next = operand-Done end (Placed e low) e f pos ok (λ es _ h.
      kept-Done e low 0 low end es (λ _ _. Unit {0}) (f low) h (next es (Holds-known e low es h)))
