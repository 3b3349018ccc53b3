-- ===== src/Evaluation/Moved.antt =====
-- What the moved operation has made of every number on the right.
use nftables.Base.{ℕ, ◌≡◌, sym, List, [], ◌∷◌, All}
use nftables.Gmp.{Mpz}
use nftables.Expr.{ValueExpr}
use nftables.Evaluation.Constants.{Evaluated, done, EvalCtx}
use nftables.Evaluation.Transfer
use nftables.Evaluation.Transfer.{
  Constant, RightSide, LeftBinop, Transferable, can, cannot, can_transfer_value, binop_can_transfer,
  inverse, transfer_value, binop_transfer_one, can_transfer_all, transfer_all, Transferred, moved,
  kept, __binop_transfer, and_then,
}
use nftables.Evaluation.Computed.{bind_inv, done_inv, width}
use nftables.Evaluation.Matches.{
  Related, values, set_elems, mappings, ranges, others, EachRelated, none, more,
}

-- A property of every constant on the right.
abbrev pub Each : (ValueExpr → Type 0) → Constant → Type 0
Each P (Transfer.value v) = P v
Each P (Transfer.set_elem key) = Each P key
Each P (Transfer.mapping key) = Each P key
Each P (Transfer.range low high) = Each P low × Each P high
Each P Transfer.other = Unit

abbrev pub SideEach : (ValueExpr → Type 0) → RightSide → Type 0
SideEach P (Transfer.constant c) = Each P c
SideEach P (Transfer.set elems) = All (Each P) elems
SideEach P (Transfer.set_ref anonymous init) = SideEach P init

-- An operation that computes `R` from constants with `P`, at the width `w`.
module _ (left : LeftBinop) (w : ℕ) (P : ValueExpr → Type 0) (R : ℕ → ℕ → Type 0)
    (step : (ctx : EvalCtx) (v : ValueExpr) (r : EvalCtx × ValueExpr)
      → width ctx ≡ w
      → P v
      → transfer_value ctx left v ≡ done r
      → R v.value r.1.value × (width r.0 ≡ w)) where
  pub binop_transfer_one-Related :
      (ctx : EvalCtx) (c : Constant) (r : EvalCtx × Constant)
      → width ctx ≡ w
      → Each P c
      → binop_transfer_one ctx left c ≡ done r
      → Related R c r.1 × (width r.0 ≡ w)
  unfolding binop_transfer_one
  binop_transfer_one-Related ctx (Transfer.value v) r e p h =
      let (v', gives, rest) = bind_inv (transfer_value ctx left v) _ h in
      let (related, wide) = step ctx v v' e p gives in
      rw (sym (done_inv rest)) (values related, wide)
  binop_transfer_one-Related ctx (Transfer.set_elem key) r e p h =
      let (key', gives, rest) = bind_inv (binop_transfer_one ctx left key) _ h in
      let (related, wide) = binop_transfer_one-Related ctx key key' e p gives in
      rw (sym (done_inv rest)) (set_elems related, wide)
  binop_transfer_one-Related ctx (Transfer.mapping key) r e p h =
      let (key', gives, rest) = bind_inv (binop_transfer_one ctx left key) _ h in
      let (related, wide) = binop_transfer_one-Related ctx key key' e p gives in
      rw (sym (done_inv rest)) (mappings related, wide)
  binop_transfer_one-Related ctx (Transfer.range low high) r e p h =
      let (low', gives, rest) = bind_inv (binop_transfer_one ctx left low) _ h in
      let (related, wide) = binop_transfer_one-Related ctx low low' e p.0 gives in
      let (high', gives', rest') = bind_inv (binop_transfer_one low'.0 left high) _ rest in
      let (related', wide') = binop_transfer_one-Related low'.0 high high' wide p.1 gives' in
      rw (sym (done_inv rest')) (ranges related related', wide')
  binop_transfer_one-Related ctx Transfer.other r e p h = rw (sym (done_inv h)) (others, e)

  pub transfer_all-Related :
      (ctx : EvalCtx) (cs : List Constant) (r : EvalCtx × List Constant)
      → width ctx ≡ w
      → All (Each P) cs
      → transfer_all ctx left cs ≡ done r
      → EachRelated R cs r.1
  unfolding transfer_all
  transfer_all-Related ctx [] r e p h = rw (sym (done_inv h)) none
  transfer_all-Related ctx (c ∷ cs) r e p h =
      let (c', gives, rest) = bind_inv (binop_transfer_one ctx left c) _ h in
      let (related, wide) = binop_transfer_one-Related ctx c c' e p.0 gives in
      let (cs', gives', rest') = bind_inv (transfer_all c'.0 left cs) _ rest in
      rw (sym (done_inv rest')) (more related (transfer_all-Related c'.0 cs cs' wide p.1 gives'))

Each-map :
    (P Q : ValueExpr → Type 0)
    → ((v : ValueExpr) → P v → Q v)
    → (c : Constant) → Each P c
    → Each Q c
Each-map P Q f (Transfer.value v) p = f v p
Each-map P Q f (Transfer.set_elem key) p = Each-map P Q f key p
Each-map P Q f (Transfer.mapping key) p = Each-map P Q f key p
Each-map P Q f (Transfer.range low high) p = (Each-map P Q f low p.0, Each-map P Q f high p.1)
Each-map P Q f Transfer.other p = tt

-- Both parts of a check that can go on.
and_then_inv :
    (first : Evaluated Transferable) (next : EvalCtx → Evaluated Transferable) {ctx : EvalCtx}
    → and_then first next ≡ done (can ctx)
    → (c : EvalCtx) × (first ≡ done (can c)) × (next c ≡ done (can ctx))
and_then_inv first next {ctx = ctx} h = let (t, e, rest) = bind_inv first _ h in by_answer t e rest
  where
    by_answer :
        (t : Transferable)
        → first ≡ done t
        → elim t [ can c ↦ next c | cannot ↦ done cannot ] ≡ done (can ctx)
        → (c : EvalCtx) × (first ≡ done (can c)) × (next c ≡ done (can ctx))
    by_answer (can c) e rest = (c, e, rest)
    by_answer cannot e rest = cc

-- What the checks establish: the context grows, and `P` holds of every number, at the context of its
-- check and at those that follow.
module _ (m : Mpz) (left : LeftBinop) (start : EvalCtx) (G : EvalCtx → EvalCtx → Type 0)
    (P : EvalCtx → ValueExpr → Type 0) (S : ValueExpr → Type 0) (G_refl : (c : EvalCtx) → G c c)
    (G_trans : (a b c : EvalCtx) → G a b → G b c → G a c)
    (P_grows : (b c : EvalCtx) (v : ValueExpr) → G b c → P b v → P c v)
    (step : (ctx ctx' : EvalCtx) (v : ValueExpr)
      → G start ctx
      → S v
      → can_transfer_value m ctx left v ≡ done (can ctx')
      → G ctx ctx' × P ctx' v) where
  pub binop_can_transfer-Each :
      (ctx ctx' : EvalCtx) (c : Constant)
      → G start ctx
      → Each S c
      → binop_can_transfer m ctx left c ≡ done (can ctx')
      → G ctx ctx' × Each (P ctx') c
  unfolding binop_can_transfer
  binop_can_transfer-Each ctx ctx' (Transfer.value v) g s h = step ctx ctx' v g s h
  binop_can_transfer-Each ctx ctx' (Transfer.set_elem key) g s h =
      binop_can_transfer-Each ctx ctx' key g s h
  binop_can_transfer-Each ctx ctx' (Transfer.mapping key) g s h =
      binop_can_transfer-Each ctx ctx' key g s h
  binop_can_transfer-Each ctx ctx' (Transfer.range low high) g s h =
      let (c, on_low, on_high) = and_then_inv (binop_can_transfer m ctx left low) _ h in
      let (g', p) = binop_can_transfer-Each ctx c low g s.0 on_low in
      let (g'', q) = binop_can_transfer-Each c ctx' high (G_trans start ctx c g g') s.1 on_high in
      (G_trans ctx c ctx' g' g'', (Each-map (P c) (P ctx') (λ v. P_grows c ctx' v g'') low p, q))
  binop_can_transfer-Each ctx ctx' Transfer.other g s h = cc

  pub can_transfer_all-Each :
      (ctx ctx' : EvalCtx) (cs : List Constant)
      → G start ctx
      → All (Each S) cs
      → can_transfer_all m ctx left cs ≡ done (can ctx')
      → G ctx ctx' × All (Each (P ctx')) cs
  unfolding can_transfer_all
  can_transfer_all-Each ctx ctx' [] g s h =
      let same : can ctx ≡ can ctx' = done_inv h in
      let at : ctx ≡ ctx' = cc in rw (sym at) (G_refl ctx, tt)
  can_transfer_all-Each ctx ctx' (c ∷ cs) g s h =
      let (d, on_first, on_rest) = and_then_inv (binop_can_transfer m ctx left c) _ h in
      let (g', p) = binop_can_transfer-Each ctx d c g s.0 on_first in
      let (g'', q) = can_transfer_all-Each d ctx' cs (G_trans start ctx d g g') s.1 on_rest in
      (G_trans ctx d ctx' g' g'', (Each-map (P d) (P ctx') (λ v. P_grows d ctx' v g'') c p, q))
