-- ===== src/Delinearize/ReadBack.antt =====
-- What src/netlink_delinearize.c makes of operations around an expression that reads a packet.
use nftables.Base.{
  ℕ, ◌≤◌, ◌<◌, ◌≡◌, ◌≢◌, refl, Bool, true, false, List, [], ◌∷◌, ◌++◌, arith, ◌==◌, not,
}
use nftables.Gmp.{Mpz, Byteorder}
use nftables.Expr.{ValueExpr}
use nftables.Bitwise.{Binop, netlink_gen_bitwise, netlink_parse_bitwise_bool}
use nftables.Linearize.Syntax
use nftables.Linearize.Syntax.{
  Leaf, Expr, Field, Nle, expr_len, ShiftOp, UnaryOp, op_hton, op_ntoh, op_lshift, op_rshift,
}
use nftables.Linearize.Nles.{bytes_len}
use nftables.Linearize.Exprs.{Mode, outer, within}
use nftables.Linearize.Shape.{chain}
use nftables.Delinearize.Context.{Found, found_len}
use nftables.Delinearize.Exprs.{netlink_alloc_value, around}
use nftables.Delinearize.State.{Tables}
use nftables.Delinearize.Roundtrip.{IsSent, IsWhole, leaf_width}

-- The operations of a chain, the innermost one first, and where it starts.
abbrev pub operations : Expr → List Binop
operations (Expr.binop own order op left right) =
    operations left ++ record { op = op; value = right.value } ∷ []
operations _ = []

-- Expressions of one register, as they are sent: shifts, conversions of the byte order of more than a
-- byte, chains of at most 15 operations of whole bytes.
abbrev pub IsOperated : ℕ → Expr → Type 0
IsOperated len (Expr.leaf own l) = IsSent len l
IsOperated len (Expr.unary own op arg) =
    (bytes_len (expr_len arg) ≢ 1) × IsOperated (expr_len arg) arg
IsOperated len (Expr.shift own op left right) = IsWhole len × IsOperated (expr_len left) left
IsOperated len (Expr.binop own order op left right) =
    (0 < bytes_len len) × (chain left ≤ 14) × IsOperated (expr_len left) left
IsOperated len (Expr.set_elem own key) = Unit × IsOperated (expr_len key) key
IsOperated len _ = ⊥

-- The mode of the loop over a chain holds back the operations.
abbrev pub held : Mode → Bool
held outer = false
held (within n) = true

abbrev pub collected : Mode → Expr → List Binop
collected outer e = []
collected (within n) e = operations e

pub differs : (a b : ℕ) → a ≢ b → not (a == b) ≡ true
differs a b n = ground arith

pub nothing_collected : (mode : Mode) (e : Expr) → operations e ≡ [] → collected mode e ≡ []
nothing_collected outer e h = refl
nothing_collected (within n) e h = h

module _ (m : Mpz) (t : Tables) where
  -- Bytes in the order they were sent in, read in that of the network.
  abbrev pub received : Byteorder → ℕ → ℕ → ValueExpr
  received order size v = netlink_alloc_value m t (m.export order size v)

  -- A chain is read as the operations of one mask and one exclusive or.
  abbrev pub combined : ℕ → Byteorder → List Binop → Found → Found
  combined len order binops left =
      let r = netlink_gen_bitwise len binops in
      let mask = received order (bytes_len len) r.mask in
      let xor = received order (bytes_len len) r.xor in
      around m t (found_len left) mask.len left (
        netlink_parse_bitwise_bool m (found_len left) mask.len
          (record { mask = mask.value; xor = xor.value }))

  -- Operations have the length of what they stand around.
  found_len-around :
      (len mask_len : ℕ) (e : Found) (binops : List Binop)
      → found_len e ≡ len
      → found_len (around m t len mask_len e binops) ≡ len
  found_len-around len mask_len e [] h = h
  found_len-around len mask_len e (i ∷ binops) h = found_len-around len mask_len _ binops refl

  pub found_len-combined :
      (len : ℕ) (order : Byteorder) (binops : List Binop) (left : Found)
      → found_len (combined len order binops left) ≡ found_len left
  found_len-combined len order binops left =
      let r = netlink_gen_bitwise len binops in
      let mask = received order (bytes_len len) r.mask in
      let xor = received order (bytes_len len) r.xor in
      found_len-around (found_len left) mask.len left
        (netlink_parse_bitwise_bool m (found_len left) mask.len
          (record { mask = mask.value; xor = xor.value }))
        refl

  -- What is read for an expression of the given length; with `true`, for what its chain starts with.
  abbrev pub read_back : Bool → ℕ → Expr → Found
  read_back b len (Expr.leaf own l) = Found.leaf (leaf_width t len l) l
  read_back b len (Expr.unary own op arg) =
      let a = read_back false (expr_len arg) arg in Found.unary (found_len a) op a
  read_back b len (Expr.shift own op left right) =
      Found.shift len op (read_back false (expr_len left) left)
        (record (received right.byteorder 4 right.value) { byteorder = Byteorder.host_endian })
  read_back false len (Expr.binop own order op left right) =
      combined len order (operations (Expr.binop own order op left right))
        (read_back true (expr_len left) left)
  read_back true len (Expr.binop own order op left right) = read_back true (expr_len left) left
  read_back b len (Expr.set_elem own key) = read_back false (expr_len key) key
  read_back b len (Expr.verdict v) = Found.leaf 0 (Syntax.rt 0)
  read_back b len _ = Found.leaf 0 (Syntax.rt 0)
