-- ===== src/Linearize/Gen.antt =====
-- `netlink_gen_expr` of src/netlink_linearize.c, by the type of the expression.
use nftables.Base.{
  ℕ, ◌%◌, Bool, true, false, ◌&&◌, ◌||◌, not, List, [], ◌∷◌, Option, none, ◌==◌, if◌then◌else◌,
  take,
}
use nftables.Gmp.{Mpz, Byteorder, mpz_prefixmask}
use nftables.Expr.{ValueExpr}
use nftables.Bitwise.{Binop, netlink_gen_bitwise}
use nftables.NetlinkData.{zeros, netlink_gen_constant_data, __netlink_gen_concat}
use nftables.Linearize.Syntax.{
  UnaryOp, op_hton, op_ntoh, ShiftOp, op_lshift, op_rshift, RelOp, cmp_eq, cmp_neq, cmp_lte,
  cmp_gte, CmpOp, SetRef, Right, Expr, expr_len, concat_len, k_lookup, k_bitwise, k_range,
  k_byteorder, k_immediate, a_len, a_op, a_flags, a_size, a_data, a_mask, a_xor, a_from_data,
  a_to_data, a_sreg, Field, sreg, dreg, number, bytes, set_ref,
}
use nftables.Linearize.Context.{
  M, ◌>>=◌, ◌>>◌, lift, take_register, drop_register, nft_rule_add_expr,
}
use nftables.Linearize.Nles.{nle, bytes_len, raw_data, netlink_gen_cmp_op, cmp, bitwise}

-- What is generated for the left-hand side, given its length and the register.
abbrev pub Left : Type 0
Left = ℕ → ℕ → M (List Binop)

abbrev pub is_big_endian : Byteorder → Bool
is_big_endian Byteorder.big_endian = true
is_big_endian _ = false

abbrev pub flag_op : RelOp → Bool
flag_op RelOp.op_implicit = true
flag_op RelOp.op_neg = true
flag_op _ = false

abbrev pub inverted : RelOp → List Field
inverted RelOp.op_neq = number a_flags 1 ∷ []
inverted _ = []

abbrev pub is_binop : Expr → Bool
is_binop (Expr.shift len op l r) = true
is_binop (Expr.binop len order op l r) = true
is_binop _ = false

abbrev pub flag_test : RelOp → CmpOp
flag_test RelOp.op_neg = cmp_eq
flag_test _ = cmp_neq

module _ (m : Mpz) where
  -- netlink_gen_immediate.
  unfoldable pub gen_constant : ℕ → ValueExpr → M (Unit {0})
  gen_constant reg i = do
    data_bytes ← lift (netlink_gen_constant_data m i)
    nft_rule_add_expr (nle k_immediate (dreg reg ∷ bytes a_data data_bytes ∷ []))

  abbrev pub byte_size : ℕ → ℕ
  byte_size len = if len % 64 == 0 then 8 else if len % 32 == 0 then 4 else 2

  abbrev pub byteorder_op : UnaryOp → ℕ
  byteorder_op op_ntoh = 0
  byteorder_op op_hton = 1

  unfoldable pub gen_byteorder : ℕ → ℕ → UnaryOp → ℕ → M (Unit {0})
  gen_byteorder reg len op arg_len = nft_rule_add_expr (
      nle k_byteorder (
        sreg a_sreg reg
        ∷ dreg reg
        ∷ number a_len (bytes_len len)
        ∷ number a_size (byte_size arg_len)
        ∷ number a_op (byteorder_op op)
        ∷ []))

  abbrev pub shift_number : ShiftOp → ℕ
  shift_number op_lshift = 1
  shift_number op_rshift = 2

  -- The count is put as 4 bytes.
  unfoldable pub gen_shift : ℕ → ℕ → ShiftOp → ValueExpr → M (Unit {0})
  gen_shift reg len op right = do
    data_bytes ← lift (raw_data m right.byteorder 4 right.value)
    nft_rule_add_expr (
        nle k_bitwise (
          sreg a_sreg reg
          ∷ dreg reg
          ∷ number a_op (shift_number op)
          ∷ number a_len (bytes_len len)
          ∷ bytes a_data data_bytes
          ∷ []))

  -- The end of netlink_gen_bitwise.
  unfoldable pub gen_combined : ℕ → ℕ → Byteorder → List Binop → M (Unit {0})
  gen_combined reg len order binops =
      let r = netlink_gen_bitwise len binops in
      do
        mask ← lift (raw_data m order (bytes_len len) r.mask)
        xor ← lift (raw_data m order (bytes_len len) r.xor)
        nft_rule_add_expr (
            nle k_bitwise (
              sreg a_sreg reg
              ∷ dreg reg
              ∷ number a_op 0
              ∷ number a_len (bytes_len len)
              ∷ bytes a_mask mask
              ∷ bytes a_xor xor
              ∷ []))

  module _ (left : Expr) (gen_left : Left) where
    -- The comparison with both ends, after the left-hand side.
    unfoldable pub compare_range : ℕ → RelOp → List ℕ → List ℕ → M (Unit {0})
    compare_range reg RelOp.op_neq low high = nft_rule_add_expr (
        nle k_range
          (sreg a_sreg reg ∷ number a_op 1 ∷ bytes a_from_data low ∷ bytes a_to_data high ∷ []))
    compare_range reg RelOp.op_eq low high = do
      nft_rule_add_expr (cmp reg cmp_gte low)
      nft_rule_add_expr (cmp reg cmp_lte high)
    compare_range reg RelOp.op_implicit low high = do
      nft_rule_add_expr (cmp reg cmp_gte low)
      nft_rule_add_expr (cmp reg cmp_lte high)
    compare_range reg _ low high = λ ctx. none

    unfoldable pub gen_range : RelOp → ValueExpr → ValueExpr → M (Unit {0})
    gen_range op l r = do
      reg ← take_register (concat_len left (expr_len left))
      _ ← gen_left (expr_len left) reg
      low ← lift (netlink_gen_constant_data m l)
      high ← lift (netlink_gen_constant_data m r)
      compare_range reg op low high
      drop_register (concat_len left (expr_len left))

    unfoldable pub gen_lookup : RelOp → SetRef → M (Unit {0})
    gen_lookup op s = do
      reg ← take_register (concat_len left (expr_len left))
      _ ← gen_left (expr_len left) reg
      drop_register (concat_len left (expr_len left))
      nft_rule_add_expr (nle k_lookup (sreg a_sreg reg ∷ set_ref s ∷ inverted op))

    unfoldable pub gen_flagcmp : RelOp → ValueExpr → M (Unit {0})
    gen_flagcmp op right = do
      reg ← take_register (concat_len left (expr_len left))
      _ ← gen_left (expr_len left) reg
      zero_bytes ← lift (raw_data m right.byteorder (bytes_len (expr_len left)) 0)
      data_bytes ← lift (netlink_gen_constant_data m right)
      (if is_binop left
          then nft_rule_add_expr (cmp reg cmp_eq data_bytes)
          else (nft_rule_add_expr (bitwise reg (bytes_len (expr_len left)) data_bytes zero_bytes)
              >> nft_rule_add_expr (cmp reg (flag_test op) zero_bytes)))
      drop_register (concat_len left (expr_len left))

    -- The comparison itself, on the first `len` bytes of the data.
    unfoldable pub gen_compare : ℕ → RelOp → ℕ → ℕ → Option (List ℕ) → M (Unit {0})
    gen_compare reg op len left_len right = do
      c ← lift (netlink_gen_cmp_op op)
      data_bytes ← lift right
      drop_register (concat_len left left_len)
      nft_rule_add_expr (cmp reg c (take len data_bytes))

    -- A prefix of whole bytes in network order is compared with its first bytes, and the left-hand
    -- side is shortened for that.
    unfoldable pub gen_prefix : RelOp → Bool → ValueExpr → Byteorder → ℕ → ℕ → M (Unit {0})
    gen_prefix op is_string right order len prefix_len =
        if not is_string
          && (not (is_big_endian order) || (prefix_len == 0 || not (prefix_len % 8 == 0)))
        then (do
          reg ← take_register (concat_len left (expr_len left))
          _ ← gen_left (expr_len left) reg
          mask ← lift (raw_data m order (bytes_len len) (mpz_prefixmask len prefix_len))
          nft_rule_add_expr (bitwise reg (bytes_len len) mask (zeros (bytes_len len)))
          gen_compare reg op (bytes_len len) (expr_len left) (netlink_gen_constant_data m right))
        else (do
          reg ← take_register (concat_len left (expr_len left))
          _ ← gen_left prefix_len reg
          gen_compare reg op (bytes_len prefix_len) prefix_len (netlink_gen_constant_data m right))

    unfoldable pub gen_plain : RelOp → ℕ → Option (List ℕ) → M (Unit {0})
    gen_plain op len right = do
      reg ← take_register (concat_len left (expr_len left))
      _ ← gen_left (expr_len left) reg
      gen_compare reg op (bytes_len len) (expr_len left) right

    unfoldable pub gen_relational : RelOp → Bool → Right → M (Unit {0})
    unfolding gen_plain
    gen_relational op is_string (Right.range l r) = gen_range op l r
    gen_relational op is_string (Right.set_ref s) = gen_lookup op s
    gen_relational op is_string (Right.prefix right order len prefix_len) =
        gen_prefix op is_string right order len prefix_len
    gen_relational op is_string (Right.concat flags len parts) =
        gen_plain op len (__netlink_gen_concat m flags len parts)
    gen_relational op is_string (Right.value right bitmask) =
        if flag_op op && bitmask
        then gen_flagcmp op right
        else gen_plain op right.len (netlink_gen_constant_data m right)
