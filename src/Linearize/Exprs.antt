-- ===== src/Linearize/Exprs.antt =====
-- `netlink_gen_expr` of src/netlink_linearize.c.
use nftables.Base.{ℕ, suc, ◌+◌, not, List, [], ◌∷◌, ◌++◌, none, ◌==◌, if◌then◌else◌}
use nftables.Gmp.{Mpz}
use nftables.Bitwise.{Binop}
use nftables.Registers.{netlink_register_space}
use nftables.Linearize.Syntax.{
  SetRef, Hash, Expr, Exprs, one, more, expr_len, concat_len, k_hash, k_lookup, k_immediate,
  a_offset, a_len, a_type, a_modulus, a_seed, a_sreg, sreg, dreg, number, set_ref, Field,
}
use nftables.Linearize.Context.{
  M, ◌>>=◌, ◌>>◌, return, lift, require, take_register, drop_register, raise, lower,
  nft_rule_add_expr, assert_below,
}
use nftables.Linearize.Nles.{nle, number_if, bytes_len, gen_leaf, gen_verdict_fields}
use nftables.Linearize.Gen.{gen_constant, gen_byteorder, gen_shift, gen_combined, gen_relational}

-- `within n` is the loop of netlink_gen_bitwise with `n` expressions in its array.
pub data Mode : Type 0 where
  outer : Mode
  within : ℕ → Mode

abbrev pub hash_fields : ℕ → Hash → List Field
hash_fields reg h =
    dreg reg
    ∷ number a_modulus h.mod_by
    ∷ (number_if a_seed h.seed ++ number a_offset h.offset ∷ number a_type h.type ∷ [])

abbrev pub key_space : Expr → ℕ
key_space (Expr.concat len parts) = netlink_register_space len
key_space _ = 0

-- NFT_MAX_EXPR_RECURSION.
abbrev max_expr_recursion : ℕ
max_expr_recursion = 16

module _ (m : Mpz) where
  -- The instructions behind those of the sub-expression.
  unfoldable pub gen_map : ℕ → Expr → (ℕ → M (List Binop)) → SetRef → M (List Binop)
  gen_map reg key gen_key mappings = do
    from ← if reg == 0 then take_register (concat_len key (expr_len key)) else return reg
    raise (key_space key)
    _ ← gen_key from
    lower (key_space key)
    (if reg == 0 then drop_register (concat_len key (expr_len key)) else return tt)
    nft_rule_add_expr (nle k_lookup (sreg a_sreg from ∷ dreg reg ∷ set_ref mappings ∷ []))
    return []

  unfoldable pub gen_jhash : ℕ → Hash → Expr → (ℕ → M (List Binop)) → M (List Binop)
  gen_jhash reg h e gen_e = do
    from ← take_register (concat_len e (expr_len e))
    _ ← gen_e from
    drop_register (concat_len e (expr_len e))
    nft_rule_add_expr
        (nle k_hash (sreg a_sreg from ∷ number a_len (bytes_len (expr_len e)) ∷ hash_fields reg h))
    return []

  abbrev pub binop_of : Expr → List Binop
  binop_of (Expr.binop own order op left right) = record { op = op; value = right.value } ∷ []
  binop_of _ = []

  -- The expression, its length as it is then, where it stands, and the register. What a chain of
  -- operations collects is returned, the innermost operation first.
  unfoldable mutual
    pub gen_expr : Expr → ℕ → Mode → ℕ → M (List Binop)
    gen_expr (Expr.verdict v) len mode reg = do
      assert_below reg
      fields ← lift (gen_verdict_fields v)
      nft_rule_add_expr (nle k_immediate (dreg reg ∷ fields))
      return []
    gen_expr (Expr.value i) len mode reg = do
      assert_below reg
      gen_constant m reg (record i { len = len })
      return []
    gen_expr (Expr.unary own op arg) len mode reg = do
      assert_below reg
      require (not (bytes_len (expr_len arg) == 1))
      _ ← gen_expr arg (expr_len arg) outer reg
      gen_byteorder m reg len op (expr_len arg)
      return []
    gen_expr (Expr.shift own op left right) len mode reg = do
      assert_below reg
      _ ← gen_expr left (expr_len left) outer reg
      gen_shift m reg len op right
      return []
    gen_expr (Expr.binop own order op left right) len outer reg = do
      assert_below reg
      binops ← gen_expr left (expr_len left) (within 2) reg
      gen_combined m reg len order (binops ++ record { op = op; value = right.value } ∷ [])
      return []
    gen_expr (Expr.binop own order op left right) len (within n) reg = do
      require (not (n == max_expr_recursion))
      binops ← gen_expr left (expr_len left) (within (suc n)) reg
      return (binops ++ record { op = op; value = right.value } ∷ [])
    gen_expr (Expr.relational op is_string left right) len mode reg = do
      assert_below reg
      require (reg == 0)
      gen_relational m left (λ l. gen_expr left l outer) op is_string right
      return []
    gen_expr (Expr.concat own parts) len mode reg = do
      assert_below reg
      gen_exprs parts reg
      return []
    gen_expr (Expr.map_of own key mappings) len mode reg = do
      assert_below reg
      gen_map reg key (gen_expr key (expr_len key) outer) mappings
    gen_expr (Expr.leaf own l) len mode reg = do
      assert_below reg
      nft_rule_add_expr (gen_leaf reg len l)
      return []
    gen_expr (Expr.set_elem own key) len mode reg = do
      assert_below reg
      gen_expr key (expr_len key) outer reg
    gen_expr (Expr.jhash own h e) len mode reg = do
      assert_below reg
      gen_jhash reg h e (gen_expr e (expr_len e) outer)
    gen_expr (Expr.symhash own h) len mode reg = do
      assert_below reg
      nft_rule_add_expr (nle k_hash (hash_fields reg h))
      return []
    gen_expr (Expr.other own) len mode reg = λ ctx. none

    pub gen_exprs : Exprs → ℕ → M (Unit {0})
    gen_exprs (one e) reg = gen_expr e (expr_len e) outer reg >>= λ _. return tt
    gen_exprs (more e rest) reg = do
      _ ← gen_expr e (expr_len e) outer reg
      gen_exprs rest (reg + netlink_register_space (expr_len e))

  unfoldable pub netlink_gen_expr : Expr → ℕ → M (Unit {0})
  netlink_gen_expr e reg = gen_expr e (expr_len e) outer reg >>= λ _. return tt
