-- ===== src/Delinearize/Chain.antt =====
-- An expression of operations around one that reads a packet: what src/netlink_linearize.c writes for it
-- is read back as such an expression.
use nftables.Base.{
  ℕ, suc, ◌≤◌, ◌<◌, ◌≡◌, refl, ap, ◌∙◌, Bool, true, List, [], ◌∷◌, ◌++◌, Option, none, some, arith,
  ltb, ◌==◌, ne→==,
}
use nftables.Gmp.{Mpz, Byteorder}
use nftables.Bitwise.{Binop, netlink_gen_bitwise}
use nftables.Registers.{netlink_put_register, netlink_parse_register}
use nftables.Registers.Numbers.{netlink_parse_register-netlink_put_register}
use nftables.Linearize.Syntax.{
  Leaf, Expr, Field, expr_len, ShiftOp, UnaryOp, op_hton, op_ntoh, op_lshift, op_rshift,
}
use nftables.Linearize.Context.{M, ◌>>=◌, ◌>>◌, return, require, assert_below, nft_rule_add_expr}
use nftables.Linearize.Nles.{bytes_len, raw_data, gen_leaf}
use nftables.Linearize.Gen.{gen_byteorder, gen_shift, gen_combined, byte_size}
use nftables.Linearize.Exprs.{Mode, outer, within, gen_expr}
use nftables.Linearize.Shape.{InMode}
use nftables.Delinearize.Attributes.{
  get_u32, dreg_number, source_register, destination_register, get_data,
}
use nftables.Delinearize.Context.{Found, found_len, Error}
use nftables.Delinearize.Exprs.{
  netlink_alloc_value, netlink_parse_bitwise, parse_bitwise_bool, netlink_parse_bitwise_shift,
  netlink_parse_byteorder,
}
use nftables.Delinearize.State.{Tables, Parse, set_reg, with_register}
use nftables.Delinearize.Rule.{
  parse_kind, netlink_parse_expr, netlink_parse_rule_expr, parse_exprs, append_all,
}
use nftables.Delinearize.Registers.{put, netlink_get_register_lem}
use nftables.Delinearize.Roundtrip.{
  IsSent, IsWhole, bits_len, leaf_width, put_reg, put_back, netlink_parse_expr-gen_leaf,
}
use nftables.Delinearize.ReadBack.{
  operations, IsOperated, held, collected, differs, nothing_collected, read_back,
}
use nftables.Delinearize.Puts.{
  byteorder_nle, shift_nle, combined_nle, masked, put_twice, Puts, add_one, append_found_none,
}

module _ (m : Mpz) (t : Tables) (u : List Field → Parse → Option Parse) (reg low : ℕ) (l : 1 ≤ reg)
    (h : reg ≤ 16) (below : reg < low) where
  -- An operand in its register is found, and the result takes its place.
  pub operand_read :
      (ctx : Parse) (a : Found) (e : Error) (go : Found → Option Parse)
      → with_register
          (netlink_parse_register (netlink_put_register reg))
          e
          (put_reg m t u ctx reg a)
          go
        ≡ go a
  operand_read ctx a e go =
      let there : (reg == reg) ≡ true = ground arith in
      rw
        (
          (netlink_parse_register-netlink_put_register reg h).0,
          with_register,
          netlink_get_register_lem (put ctx.regs reg a) reg l h,
          there,
        )
        refl

  stored :
      (ctx : Parse) (a x : Found)
      → ctx.stmt ≡ none
      → append_all m t u
          (set_reg (netlink_parse_register (netlink_put_register reg)) x (put_reg m t u ctx reg a))
        ≡ some (put_reg m t u ctx reg x)
  stored ctx a x s =
      ap (append_all m t u) (put_back m t u (put_reg m t u ctx reg a) reg x l h)
      ∙ ap some (
          append_found_none m t u (put_reg m t u (put_reg m t u ctx reg a) reg x) s
          ∙ put_twice m t u ctx reg a x)

  byteorder_read :
      (ctx : Parse) (a : Found) (len size : ℕ) (op : UnaryOp)
      → ctx.stmt ≡ none
      → netlink_parse_rule_expr m t u (byteorder_nle m t reg len size op) (put_reg m t u ctx reg a)
        ≡ some (put_reg m t u ctx reg (Found.unary (found_len a) op a))
  unfolding netlink_parse_rule_expr netlink_parse_expr parse_kind netlink_parse_byteorder get_u32
      source_register destination_register dreg_number
  byteorder_read ctx a len size op_hton s = rw (operand_read ctx a _ _) (stored ctx a _ s)
  byteorder_read ctx a len size op_ntoh s = rw (operand_read ctx a _ _) (stored ctx a _ s)

  shift_read :
      (ctx : Parse) (a : Found) (len : ℕ) (op : ShiftOp) (data_bytes : List ℕ)
      → IsWhole len
      → ctx.stmt ≡ none
      → netlink_parse_rule_expr m t u
          (shift_nle m t reg len op data_bytes)
          (put_reg m t u ctx reg a)
        ≡ some (
            put_reg m t u ctx reg (
              Found.shift len op a (record (netlink_alloc_value m t data_bytes) {
                byteorder = Byteorder.host_endian;
              })))
  unfolding netlink_parse_rule_expr netlink_parse_expr parse_kind netlink_parse_bitwise get_u32
      get_data source_register destination_register dreg_number netlink_parse_bitwise_shift
  shift_read ctx a len op_lshift data_bytes w s =
      rw (operand_read ctx a _ _, bits_len len w) (stored ctx a _ s)
  shift_read ctx a len op_rshift data_bytes w s =
      rw (operand_read ctx a _ _, bits_len len w) (stored ctx a _ s)

  combined_read :
      (ctx : Parse) (a : Found) (len : ℕ) (mask xor : List ℕ)
      → ctx.stmt ≡ none
      → netlink_parse_rule_expr m t u (combined_nle m t reg len mask xor) (put_reg m t u ctx reg a)
        ≡ some (put_reg m t u ctx reg (masked m t mask xor a))
  unfolding netlink_parse_rule_expr netlink_parse_expr parse_kind netlink_parse_bitwise get_u32
      get_data source_register destination_register dreg_number parse_bitwise_bool
  combined_read ctx a len mask xor s = rw (operand_read ctx a _ _) (stored ctx a _ s)

  assert-Puts :
      (e : Found) (r : List Binop) (k : M (List Binop))
      → Puts m t u reg low e r k
      → Puts m t u reg low e r (assert_below reg >> k)
  unfolding assert_below
  assert-Puts e r k p nlr ctx s =
      let there : ltb reg low ≡ true = ground arith in
      let (code, generated, parsed) = p nlr ctx s in
      (code, rw (◌>>=◌, assert_below, there) generated, parsed)

  require-Puts :
      (b : Bool) (e : Found) (r : List Binop) (k : M (List Binop))
      → b ≡ true
      → Puts m t u reg low e r k
      → Puts m t u reg low e r (require b >> k)
  require-Puts b e r k h p nlr ctx s =
      let (code, generated, parsed) = p nlr ctx s in (code, rw (◌>>=◌, h) generated, parsed)

  then_collect :
      (e : Found) (r x : List Binop) (c : M (List Binop))
      → Puts m t u reg low e r c
      → Puts m t u reg low e (r ++ x) (c >>= λ binops. return (binops ++ x))
  then_collect e r x c p nlr ctx s =
      let (code, generated, parsed) = p nlr ctx s in (code, rw (◌>>=◌, generated) refl, parsed)

  leaf-Puts :
      (len : ℕ) (k : Leaf)
      → IsSent len k
      → Puts m t u reg low
          (Found.leaf (leaf_width t len k) k)
          []
          (nft_rule_add_expr (gen_leaf reg len k) >> return [])
  unfolding nft_rule_add_expr parse_exprs netlink_parse_rule_expr
  leaf-Puts len k o nlr ctx s = (
    gen_leaf reg len k ∷ [],
    refl,
    rw (netlink_parse_expr-gen_leaf m t u reg len k ctx l h o) (
        ap some
          (append_found_none m t u (put_reg m t u ctx reg (Found.leaf (leaf_width t len k) k)) s)),
  )

  pub gen_expr-Puts :
      (e : Expr) (len : ℕ) (mode : Mode)
      → IsOperated len e
      → InMode mode e
      → Puts m t u reg low
          (read_back m t (held mode) len e)
          (collected mode e)
          (gen_expr m e len mode reg)
  unfolding gen_expr gen_byteorder gen_shift gen_combined raw_data nft_rule_add_expr
  gen_expr-Puts (Expr.leaf own k) len mode o i =
      rw (nothing_collected mode (Expr.leaf own k) refl) (assert-Puts _ [] _ (leaf-Puts len k o))
  gen_expr-Puts (Expr.unary own op arg) len mode o i =
      let several = differs (bytes_len (expr_len arg)) 1 o.0 in
      rw (nothing_collected mode (Expr.unary own op arg) refl) (
        assert-Puts _ [] _ (
          require-Puts _ _ [] _ several (
            add_one m t u reg low _ _ [] (gen_expr m arg (expr_len arg) outer reg)
              (λ _. gen_byteorder m reg len op (expr_len arg) >> return [])
              (byteorder_nle m t reg (bytes_len len) (byte_size m (expr_len arg)) op)
              (gen_expr-Puts arg (expr_len arg) outer o.1 tt) (λ nlr. refl)
              (λ ctx s. byteorder_read ctx _ _ _ op s))))
  gen_expr-Puts (Expr.shift own op left right) len mode o i =
      rw (nothing_collected mode (Expr.shift own op left right) refl) (
        assert-Puts _ [] _ (
          add_one m t u reg low _ _ [] (gen_expr m left (expr_len left) outer reg)
            (λ _. gen_shift m reg len op right >> return [])
            (shift_nle m t reg len op (m.export right.byteorder 4 right.value))
            (gen_expr-Puts left (expr_len left) outer o.1 tt) (λ nlr. refl)
            (λ ctx s. shift_read ctx _ len op _ o.0 s)))
  gen_expr-Puts (Expr.binop own order op left right) len outer (some_bytes, short, o) i =
      let whole = operations left ++ record { op = op; value = right.value } ∷ [] in
      let r = netlink_gen_bitwise len whole in
      let sized = ne→== (bytes_len len) 0 (λ e. omega arith) in
      assert-Puts _ [] _ (
        add_one m t u reg low (read_back m t true (expr_len left) left) _ (operations left)
          (gen_expr m left (expr_len left) (within 2) reg)
          (λ binops.
            gen_combined m reg len order (binops ++ record { op = op; value = right.value } ∷ [])
            >> return [])
          (combined_nle m t reg len (m.export order (bytes_len len) r.mask)
            (m.export order (bytes_len len) r.xor))
          (gen_expr-Puts left (expr_len left) (within 2) o (omega arith)) (λ nlr. rw sized refl)
          (λ ctx s. combined_read ctx _ len _ _ s))
  gen_expr-Puts (Expr.binop own order op left right) len (within n) (some_bytes, short, o) i =
      let room = differs n 16 (λ e. omega (arith, i)) in
      require-Puts _ _ _ _ room (
        then_collect _ (operations left) (record { op = op; value = right.value } ∷ [])
          (gen_expr m left (expr_len left) (within (suc n)) reg)
          (gen_expr-Puts left (expr_len left) (within (suc n)) o (omega arith)))
  gen_expr-Puts (Expr.set_elem own key) len mode o i =
      rw (nothing_collected mode (Expr.set_elem own key) refl)
        (assert-Puts _ [] _ (gen_expr-Puts key (expr_len key) outer o.1 tt))
  gen_expr-Puts _ len mode o i = absurd o
