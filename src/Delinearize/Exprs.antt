-- ===== src/Delinearize/Exprs.antt =====
-- src/netlink_delinearize.c: the instructions that read a packet, compute or compare.
use nftables.Base.{
  ℕ, zero, suc, ◌+◌, ◌-◌, ◌*◌, ◌^◌, ◌%◌, true, false, ◌&&◌, ◌||◌, not, List, [], ◌∷◌, Option, none,
  some, length, leb, ltb, ◌==◌, if◌then◌else◌,
}
use Prim.Native.Nat.{bit_and}
use nftables.Gmp.{Mpz, Byteorder, mpz_bitmask, mpz_lshift_ui, mpz_rshift_ui}
use nftables.Expr.{ValueExpr}
use nftables.Bitwise.{Binop, netlink_parse_bitwise_bool}
use nftables.Registers.{netlink_register_space}
use nftables.Linearize.Syntax
use nftables.Linearize.Syntax.{
  Name, CmpOp, cmp_eq, cmp_neq, cmp_lt, cmp_lte, cmp_gt, cmp_gte, Leaf, Attr, Field, UnaryOp,
  op_hton, op_ntoh, ShiftOp, op_lshift, op_rshift,
}
use nftables.Delinearize.Attributes.{
  get_u32, is_set, is_dreg_set, get_data, get_str, get_set_name, source_register,
  destination_register,
}
use nftables.NetlinkData.{netlink_padded_len}
use nftables.Delinearize.Context.{
  Found, found_len, no_left_side, size_mismatch, unknown_set, FoundRight, Registers, netlink_error,
  netlink_get_register, less, netlink_parse_concat_expr, concat_fuel,
}
use nftables.Delinearize.State.{
  FoundStmt, Parse, Slices, Tables, add_slice, fail, set_reg, set_stmt, slices, with_concat,
  with_length, with_register,
}

module _ (m : Mpz) (t : Tables) where
  -- Received bytes are read in network order.
  unfoldable pub netlink_alloc_value : List ℕ → ValueExpr
  netlink_alloc_value data_bytes = record {
    value = m.import Byteorder.big_endian data_bytes;
    byteorder = Byteorder.invalid;
    len = length data_bytes * 8;
  }

  abbrev pub nft_jump : ℕ
  nft_jump = 2 ^ 32 - 3

  abbrev pub nft_goto : ℕ
  nft_goto = 2 ^ 32 - 4

  -- A verdict that has no chain, or one whose chain is looked up.
  unfoldable pub netlink_parse_verdict : ℕ → Name → FoundStmt
  netlink_parse_verdict code name =
      if code == nft_jump || code == nft_goto
      then (if t.is_binding name
          then FoundStmt.chain code (some name)
          else FoundStmt.verdict code (some name))
      else FoundStmt.verdict code none

  -- A destination of NFT_REG_VERDICT without a verdict would be read from memory that is not set.
  unfoldable pub netlink_parse_immediate : Parse → List Field → Option Parse
  unfolding netlink_parse_verdict
  netlink_parse_immediate ctx l =
      if destination_register l == 0
      then (if is_set Syntax.a_verdict l
          then set_stmt
              (netlink_parse_verdict (get_u32 Syntax.a_verdict l) (get_str Syntax.a_chain l)) ctx
          else none)
      else set_reg (destination_register l)
          (Found.value (netlink_alloc_value (get_data Syntax.a_data l))) ctx

  unfoldable pub netlink_parse_cmp_op : ℕ → Option CmpOp
  netlink_parse_cmp_op op =
      if op == 0
      then some cmp_eq
      else if op == 1
      then some cmp_neq
      else if op == 2
      then some cmp_lt
      else if op == 3
      then some cmp_lte
      else if op == 4
      then some cmp_gt
      else if op == 5
      then some cmp_gte
      else none

  unfoldable pub netlink_parse_range_op : ℕ → Option CmpOp
  netlink_parse_range_op op =
      if op == 0 then some cmp_eq else if op == 1 then some cmp_neq else none

  unfoldable pub netlink_parse_range : Parse → List Field → Option Parse
  unfolding netlink_parse_range_op
  netlink_parse_range ctx l =
      with_register (source_register Syntax.a_sreg l) no_left_side ctx (λ left.
        set_stmt
          (FoundStmt.relational (netlink_parse_range_op (get_u32 Syntax.a_op l)) left (
            FoundRight.range (netlink_alloc_value (get_data Syntax.a_from_data l))
              (netlink_alloc_value (get_data Syntax.a_to_data l))))
          ctx)

  -- The first `len` bits of a value. What is left keeps the value, with a smaller length.
  unfoldable pub constant_expr_splice : ValueExpr → ℕ → ValueExpr
  unfolding mpz_bitmask mpz_lshift_ui mpz_rshift_ui
  constant_expr_splice expr len = record {
    value =
        mpz_rshift_ui (bit_and expr.value (mpz_lshift_ui (mpz_bitmask len) (expr.len - len)))
          (expr.len - len);
    byteorder = Byteorder.invalid;
    len = len;
  }

  -- netlink_parse_concat_data: the value is cut where the parts end, padding is skipped.
  unfoldable pub netlink_parse_concat_data : ℕ → Registers → ℕ → ℕ → ValueExpr → Slices
  unfolding constant_expr_splice netlink_get_register netlink_padded_len netlink_register_space
  netlink_parse_concat_data zero ctx reg len bits = Slices.out_of_fuel
  netlink_parse_concat_data (suc fuel) ctx reg len bits = elim (len == 0) [
    | true ↦ slices []
    | false ↦ elim (netlink_get_register ctx reg).0 [
      | none ↦ Slices.missing (netlink_error size_mismatch (netlink_get_register ctx reg).1)
      | some e ↦ elim (leb (found_len e) bits.len) [
        | true ↦ add_slice (constant_expr_splice bits (found_len e)) (
            netlink_parse_concat_data fuel ctx (reg + netlink_register_space (found_len e))
              (less len (netlink_padded_len (found_len e)))
              (record bits {
                len =
                    less (bits.len - found_len e) (netlink_padded_len (found_len e) - found_len e);
              }))
        | false ↦ Slices.stop
      ]
    ]
  ]

  abbrev pub with_slices : Slices → Parse → (List ValueExpr → Option Parse) → Option Parse
  with_slices (slices vs) ctx go = go vs
  with_slices (Slices.missing regs) ctx go = some (record ctx { regs = regs })
  with_slices Slices.stop ctx go = none
  with_slices Slices.out_of_fuel ctx go = none

  -- A value shorter than the left-hand side is the prefix of one of its length; a longer one belongs to
  -- a concatenation.
  unfoldable pub netlink_parse_cmp : Parse → List Field → Option Parse
  unfolding netlink_parse_cmp_op mpz_lshift_ui netlink_parse_concat_data
  netlink_parse_cmp ctx l =
      with_register (source_register Syntax.a_sreg l) no_left_side ctx (λ left.
        let op = netlink_parse_cmp_op (get_u32 Syntax.a_op l) in
        let right = netlink_alloc_value (get_data Syntax.a_data l) in
        if ltb right.len (found_len left) && not (t.is_string left)
        then set_stmt
            (FoundStmt.relational op left (
              FoundRight.prefix
                (record right {
                  value = mpz_lshift_ui right.value (found_len left - right.len);
                  len = found_len left;
                })
                right.len))
            ctx
        else if ltb 0 (found_len left) && ltb (found_len left) right.len
        then with_concat
            (netlink_parse_concat_expr ctx.regs (source_register Syntax.a_sreg l) right.len) ctx
            (λ es.
              with_slices
                (netlink_parse_concat_data concat_fuel ctx.regs (source_register Syntax.a_sreg l)
                  right.len right)
                ctx (λ vs. set_stmt (FoundStmt.relational op es (FoundRight.concat vs)) ctx))
        else set_stmt (FoundStmt.relational op left (FoundRight.value right)) ctx)

  -- NFT_LOOKUP_F_INV is the only flag.
  unfoldable pub lookup_op : List Field → Option CmpOp
  lookup_op l =
      if is_set Syntax.a_flags l && get_u32 Syntax.a_flags l % 2 == 1
      then some cmp_neq
      else some cmp_eq

  -- The operator that is set for a map is never read.
  unfoldable pub netlink_parse_lookup : Parse → List Field → Option Parse
  unfolding lookup_op
  netlink_parse_lookup ctx l = elim (t.find_set (get_set_name l)) [
    | none ↦ fail (unknown_set (get_set_name l)) ctx
    | some set ↦ with_register (source_register Syntax.a_sreg l) no_left_side ctx (λ left.
        with_length set.key_len (source_register Syntax.a_sreg l) left ctx (λ key.
          if is_dreg_set l
          then (if destination_register l == 0
              then set_stmt (FoundStmt.expression (Found.map_of key set)) ctx
              else set_reg (destination_register l) (Found.map_of key set) ctx)
          else set_stmt (FoundStmt.relational (lookup_op l) key (FoundRight.set_ref set)) ctx))
  ]

  -- The operations of a chain around the left-hand side, of its length.
  abbrev pub around : ℕ → ℕ → Found → List Binop → Found
  around len mask_len e [] = e
  around len mask_len e (i ∷ binops) =
      around len mask_len
        (Found.binop len i.op e
          (record { value = i.value; byteorder = Byteorder.invalid; len = mask_len }))
        binops

  unfoldable pub parse_bitwise_bool : List Field → Found → Found
  unfolding netlink_alloc_value netlink_parse_bitwise_bool
  parse_bitwise_bool l left =
      let mask = netlink_alloc_value (get_data Syntax.a_mask l) in
      let xor = netlink_alloc_value (get_data Syntax.a_xor l) in
      around (found_len left) mask.len left (
        netlink_parse_bitwise_bool m (found_len left) mask.len
          (record { mask = mask.value; xor = xor.value }))

  -- The count gets the byte order of the host after it was read.
  unfoldable pub netlink_parse_bitwise_shift : List Field → ShiftOp → Found → Found
  unfolding netlink_alloc_value
  netlink_parse_bitwise_shift l op left =
      Found.shift (get_u32 Syntax.a_len l * 8 % 2 ^ 32) op left
        (record (netlink_alloc_value (get_data Syntax.a_data l)) {
          byteorder = Byteorder.host_endian;
        })

  -- Another operation is a BUG().
  unfoldable pub netlink_parse_bitwise : Parse → List Field → Option Parse
  unfolding parse_bitwise_bool netlink_parse_bitwise_shift
  netlink_parse_bitwise ctx l =
      with_register (source_register Syntax.a_sreg l) no_left_side ctx (λ left.
        let op = get_u32 Syntax.a_op l in
        if op == 0
        then set_reg (destination_register l) (parse_bitwise_bool l left) ctx
        else if op == 1
        then set_reg (destination_register l) (netlink_parse_bitwise_shift l op_lshift left) ctx
        else if op == 2
        then set_reg (destination_register l) (netlink_parse_bitwise_shift l op_rshift left) ctx
        else none)

  unfoldable pub netlink_parse_byteorder : Parse → List Field → Option Parse
  netlink_parse_byteorder ctx l =
      with_register (source_register Syntax.a_sreg l) no_left_side ctx (λ arg.
        let op = get_u32 Syntax.a_op l in
        if op == 0
        then set_reg (destination_register l) (Found.unary (found_len arg) op_ntoh arg) ctx
        else if op == 1
        then set_reg (destination_register l) (Found.unary (found_len arg) op_hton arg) ctx
        else none)
