-- ===== src/Evaluation/Sides.antt =====
-- A transfer that takes place relates every number on the right to what it became, given such facts of
-- the operation.
use nftables.Base.{ℕ, ◌≡◌, refl, ap, sym, true, false, inl, inr, Bool-cases}
use nftables.Gmp.{Mpz}
use nftables.Expr.{ValueExpr}
use nftables.Evaluation.Constants.{Evaluated, done, EvalCtx}
use nftables.Evaluation.Transfer
use nftables.Evaluation.Transfer.{
  Constant, RightSide, LeftBinop, Transferable, can, cannot, can_transfer_value, binop_can_transfer,
  inverse, transfer_value, binop_transfer_one, can_transfer_all, transfer_all, Transferred, moved,
  kept, __binop_transfer, then_transfer, is_bare, moved_constant, moved_set, moved_init,
}
use nftables.Evaluation.Computed.{bind_inv, done_inv, width}
use nftables.Evaluation.Matches.{SideRelated, constants, sets, set_refs}
use nftables.Evaluation.Moved.{
  SideEach, binop_transfer_one-Related, transfer_all-Related, binop_can_transfer-Each,
  can_transfer_all-Each,
}

-- What an operation needs of the numbers (`Needed`), what its checks find out (`Checked`, with the
-- growth `Grows` of the context), and what it makes of a number (`Made`).
pub record Moves (m : Mpz) (left : LeftBinop) (start : EvalCtx) : Type 1 where
  pub Grows : EvalCtx → EvalCtx → Type 0
  pub Checked : EvalCtx → ValueExpr → Type 0
  pub Needed : ValueExpr → Type 0
  pub Made : ℕ → ℕ → Type 0
  pub refl_Grows : (c : EvalCtx) → Grows c c
  pub trans_Grows : (a b c : EvalCtx) → Grows a b → Grows b c → Grows a c
  pub Checked_grows : (b c : EvalCtx) (v : ValueExpr) → Grows b c → Checked b v → Checked c v
  pub check :
      (ctx ctx' : EvalCtx) (v : ValueExpr)
      → Grows start ctx
      → Needed v
      → can_transfer_value m ctx left v ≡ done (can ctx')
      → Grows ctx ctx' × Checked ctx' v
  pub make :
      (c ctx : EvalCtx) (v : ValueExpr) (r : EvalCtx × ValueExpr)
      → width ctx ≡ width c
      → Checked c v
      → transfer_value ctx left v ≡ done r
      → Made v.value r.1.value × (width r.0 ≡ width c)

module _ (m : Mpz) (left : LeftBinop) where
  then_transfer_inv :
      (t : Transferable) (go : EvalCtx → Evaluated Transferred) {c : EvalCtx} {r : RightSide}
      → then_transfer t go ≡ done (moved c r)
      → (c' : EvalCtx) × (t ≡ can c') × (go c' ≡ done (moved c r))
  then_transfer_inv (can c') go h = (c', refl, h)
  then_transfer_inv cannot go h = cc

  moved_init_inv :
      (t : Transferred) {c : EvalCtx} {r : RightSide}
      → moved_init t ≡ done (moved c r)
      → (i : RightSide) × (t ≡ moved c i) × (r ≡ Transfer.set_ref true i)
  moved_init_inv (moved c' i) {c} {r} h =
      let same : moved c' (Transfer.set_ref true i) ≡ moved c r = done_inv h in
      let at : c' ≡ c = cc in (i, ap (λ (d : EvalCtx). moved d i) at, cc)
  moved_init_inv kept h = cc

  pub __binop_transfer-SideRelated :
      (start : EvalCtx) (o : Moves m left start) (right right' : RightSide) (ctx' : EvalCtx)
      → SideEach o.Needed right
      → __binop_transfer m start left right ≡ done (moved ctx' right')
      → SideRelated o.Made right right'
  unfolding __binop_transfer
  __binop_transfer-SideRelated start o (Transfer.constant c) right' ctx' s h =
      elim (Bool-cases (is_bare c)) [
        | inl bare ↦
            let (t, checked, rest) =
              bind_inv (binop_can_transfer m start left c) _ (rw bare at h) in
            let (ctx, can_go, go) = then_transfer_inv t _ rest in
            let (g, p) =
              binop_can_transfer-Each m left start o.Grows o.Checked o.Needed o.refl_Grows
                o.trans_Grows o.Checked_grows o.check start ctx c (o.refl_Grows start) s
                (rw can_go at checked) in
            let (r, gives, last) = bind_inv (binop_transfer_one ctx left c) _ go in
            let same : moved r.0 (Transfer.constant r.1) ≡ moved ctx' right' = done_inv last in
            let at : Transfer.constant r.1 ≡ right' = cc in
            let (related, wide) =
              binop_transfer_one-Related left (width ctx) (o.Checked ctx) o.Made (o.make ctx) ctx c
                r refl p gives in
            rw (sym at) (constants related)
        | inr other ↦ cc (rw other at h)
      ]
  __binop_transfer-SideRelated start o (Transfer.set elems) right' ctx' s h =
      let (t, checked, rest) = bind_inv (can_transfer_all m start left elems) _ h in
      let (ctx, can_go, go) = then_transfer_inv t _ rest in
      let (g, p) =
        can_transfer_all-Each m left start o.Grows o.Checked o.Needed o.refl_Grows o.trans_Grows
          o.Checked_grows o.check start ctx elems (o.refl_Grows start) s (rw can_go at checked) in
      let (r, gives, last) = bind_inv (transfer_all ctx left elems) _ go in
      let same : moved r.0 (Transfer.set r.1) ≡ moved ctx' right' = done_inv last in
      let at : Transfer.set r.1 ≡ right' = cc in
      rw (sym at) (
        sets (
          transfer_all-Related left (width ctx) (o.Checked ctx) o.Made (o.make ctx) ctx elems r refl
            p gives))
  __binop_transfer-SideRelated start o (Transfer.set_ref true init) right' ctx' s h =
      let (t, inner, last) = bind_inv (__binop_transfer m start left init) _ h in
      let (init', given, at) = moved_init_inv t last in
      rw at (set_refs (__binop_transfer-SideRelated start o init init' ctx' s (rw given at inner)))
  __binop_transfer-SideRelated start o (Transfer.set_ref false init) right' ctx' s h = cc
