-- ===== src/Evaluation/Transfer.antt =====
-- src/evaluate.c: the operation on the left of a comparison is moved to the right, where its inverse
-- is computed on the constants.
use nftables.Base.{ℕ, ◌+◌, Bool, true, false, List, [], ◌∷◌, ltb, if◌then◌else◌}
use nftables.Gmp.{Mpz, mpz_bitmask, mpz_lshift_ui}
use nftables.Expr.{ValueExpr}
use nftables.Evaluation.Constants.{
  Evaluated, done, stop, ◌>>=◌, ◌>>◌, refuse, always_false, BinopOp, op_and, op_xor, op_or,
  op_lshift, op_rshift, EvalCtx, mpz_get_uint32, mpz_get_uint8, expr_evaluate_binop,
}

-- A constant on the right, or an element of a set of them: a mapping has its data with the key, and
-- `other` stands for the types whose operands are not moved.
pub data Constant : Type 0 where
  value : ValueExpr → Constant
  set_elem mapping : Constant → Constant
  range : Constant → Constant → Constant
  other : Constant

-- The right of a comparison or a map: `set_ref` has whether the set is anonymous and its elements.
pub data RightSide : Type 0 where
  constant : Constant → RightSide
  set : List Constant → RightSide
  set_ref : Bool → RightSide → RightSide

-- `left`: an operation of an expression of `arg_len` bits with a constant. The length and the byte
-- order of the constant are set again by every evaluation that reads them.
pub record LeftBinop : Type 0 where
  pub op : BinopOp
  pub arg_len : ℕ
  pub right : ValueExpr

-- 1, with the context that the check has left, or 0.
pub data Transferable : Type 0 where
  can : EvalCtx → Transferable
  cannot : Transferable

unfoldable pub can_transfer_value : Mpz → EvalCtx → LeftBinop → ValueExpr → Evaluated Transferable
unfolding mpz_get_uint32
can_transfer_value m ctx left right = elim left.op [
  | op_lshift ↦ do
    shift ← mpz_get_uint32 left.right.value
    refuse (ltb (m.scan1 right.value) shift) always_false
    done (can ctx)
  | op_rshift ↦ do
    shift ← mpz_get_uint32 left.right.value
    done (
        can (if ltb ctx.len (right.len + shift) then record ctx { len = ctx.len + shift } else ctx))
  | op_xor ↦ done (can ctx)
  | op_and ↦ done cannot
  | op_or ↦ done cannot
]

-- What follows where the first bound of a range can be transferred.
abbrev pub and_then :
    Evaluated Transferable → (EvalCtx → Evaluated Transferable) → Evaluated Transferable
and_then first next = do t ← first; elim t [ can ctx ↦ next ctx | cannot ↦ done cannot ]

unfoldable pub binop_can_transfer : Mpz → EvalCtx → LeftBinop → Constant → Evaluated Transferable
unfolding can_transfer_value
binop_can_transfer m ctx left (value v) = can_transfer_value m ctx left v
binop_can_transfer m ctx left (set_elem key) = binop_can_transfer m ctx left key
binop_can_transfer m ctx left (range low high) =
    and_then (binop_can_transfer m ctx left low) (λ c. binop_can_transfer m c left high)
binop_can_transfer m ctx left (mapping key) = binop_can_transfer m ctx left key
binop_can_transfer m ctx left other = done cannot

-- The operation that undoes another one; BUG() for those that have none.
unfoldable pub inverse : BinopOp → Evaluated BinopOp
inverse op_lshift = done op_rshift
inverse op_rshift = done op_lshift
inverse op_xor = done op_xor
inverse op_and = stop
inverse op_or = stop

unfoldable pub transfer_value : EvalCtx → LeftBinop → ValueExpr → Evaluated (EvalCtx × ValueExpr)
unfolding inverse expr_evaluate_binop
transfer_value ctx left right = do op ← inverse left.op; expr_evaluate_binop ctx op right left.right

abbrev pub rebuild : (Constant → Constant) → EvalCtx × Constant → Evaluated (EvalCtx × Constant)
rebuild f r = done (r.0, f r.1)

abbrev pub new_value : EvalCtx × ValueExpr → Evaluated (EvalCtx × Constant)
new_value r = done (r.0, value r.1)

unfoldable pub binop_transfer_one : EvalCtx → LeftBinop → Constant → Evaluated (EvalCtx × Constant)
unfolding transfer_value
binop_transfer_one ctx left (value v) = transfer_value ctx left v >>= new_value
binop_transfer_one ctx left (set_elem key) = binop_transfer_one ctx left key >>= rebuild set_elem
binop_transfer_one ctx left (range low high) =
    binop_transfer_one ctx left low
    >>= (λ l. binop_transfer_one l.0 left high >>= rebuild (range l.1))
binop_transfer_one ctx left (mapping key) = binop_transfer_one ctx left key >>= rebuild mapping
binop_transfer_one ctx left other = done (ctx, other)

-- The loops over the elements of a set.
unfoldable pub can_transfer_all : Mpz → EvalCtx → LeftBinop → List Constant → Evaluated Transferable
unfolding binop_can_transfer
can_transfer_all m ctx left [] = done (can ctx)
can_transfer_all m ctx left (i ∷ elems) =
    and_then (binop_can_transfer m ctx left i) (λ c. can_transfer_all m c left elems)

abbrev rebuild_list : Constant → EvalCtx × List Constant → Evaluated (EvalCtx × List Constant)
rebuild_list i r = done (r.0, i ∷ r.1)

unfoldable pub transfer_all :
    EvalCtx → LeftBinop → List Constant → Evaluated (EvalCtx × List Constant)
unfolding binop_transfer_one
transfer_all ctx left [] = done (ctx, [])
transfer_all ctx left (i ∷ elems) =
    binop_transfer_one ctx left i >>= (λ r. transfer_all r.0 left elems >>= rebuild_list r.1)

-- 1 with what the right side has become, or 0 where it is left as it is.
pub data Transferred : Type 0 where
  moved : EvalCtx → RightSide → Transferred
  kept : Transferred

abbrev pub moved_set : EvalCtx × List Constant → Evaluated Transferred
moved_set r = done (moved r.0 (set r.1))

abbrev pub moved_constant : EvalCtx × Constant → Evaluated Transferred
moved_constant r = done (moved r.0 (constant r.1))

abbrev pub then_transfer : Transferable → (EvalCtx → Evaluated Transferred) → Evaluated Transferred
then_transfer (can ctx) go = go ctx
then_transfer cannot go = done kept

abbrev pub moved_init : Transferred → Evaluated Transferred
moved_init (moved ctx init) = done (moved ctx (set_ref true init))
moved_init kept = done kept

abbrev pub is_bare : Constant → Bool
is_bare (value v) = true
is_bare (range low high) = true
is_bare _ = false

unfoldable pub __binop_transfer : Mpz → EvalCtx → LeftBinop → RightSide → Evaluated Transferred
unfolding binop_can_transfer binop_transfer_one can_transfer_all transfer_all
__binop_transfer m ctx left (constant c) =
    if is_bare c
    then (binop_can_transfer m ctx left c
        >>= (λ t. then_transfer t (λ ctx'. binop_transfer_one ctx' left c >>= moved_constant)))
    else done kept
__binop_transfer m ctx left (set elems) =
    can_transfer_all m ctx left elems
    >>= (λ t. then_transfer t (λ ctx'. transfer_all ctx' left elems >>= moved_set))
__binop_transfer m ctx left (set_ref anonymous init) =
    let inner = __binop_transfer m ctx left init in
    if anonymous then inner >>= moved_init else done kept

-- The left side: the operation, or the expression under it.
pub data LeftSide : Type 0 where
  operation : BinopOp → ℕ → LeftSide
  argument : LeftSide

unfoldable pub binop_transfer_handle_lhs : LeftBinop → Evaluated LeftSide
unfolding mpz_get_uint8 mpz_bitmask mpz_lshift_ui
binop_transfer_handle_lhs left = elim left.op [
  | op_rshift ↦ do
    shift ← mpz_get_uint8 left.right.value
    done (operation op_and (mpz_lshift_ui (mpz_bitmask left.arg_len) shift))
  | op_lshift ↦ done argument
  | op_xor ↦ done argument
  | op_and ↦ stop
  | op_or ↦ stop
]

abbrev pub finish_transfer : LeftBinop → RightSide → Transferred → Evaluated (LeftSide × RightSide)
finish_transfer left right kept = done (operation left.op left.right.value, right)
finish_transfer left right (moved ctx right') = do
  lhs ← binop_transfer_handle_lhs left
  done (lhs, right')

-- Both sides of a comparison whose left is an operation.
unfoldable pub binop_transfer :
    Mpz → EvalCtx → LeftBinop → RightSide → Evaluated (LeftSide × RightSide)
unfolding __binop_transfer
binop_transfer m ctx left right = __binop_transfer m ctx left right >>= finish_transfer left right
