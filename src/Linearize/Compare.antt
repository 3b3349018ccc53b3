-- ===== src/Linearize/Compare.antt =====
-- The tests that netlink_gen_relational puts behind the left-hand side.
use nftables.Base.{
  ℕ, suc, inl, inr, ◌⊎◌, ◌+◌, ◌-◌, ◌≤◌, ◌<◌, ◌≡◌, ◌≢◌, refl, ap, Bool, true, false, ◌&&◌, ◌||◌, not,
  List, [], ◌∷◌, ◌++◌, Option, some, arith, ◌==◌, ◌%◌, if◌then◌else◌, take,
}
use nftables.Gmp.{Mpz}
use nftables.Expr.{ValueExpr}
use nftables.Registers.{netlink_register_space}
use nftables.NetlinkData.{netlink_gen_constant_data, __netlink_gen_concat}
use nftables.Linearize.Syntax.{
  Expr, expr_len, concat_len, Nle, RelOp, Right, CmpOp, SetRef, k_lookup, k_range, set_ref, number,
  sreg, a_sreg, bytes, a_op, a_from_data, a_to_data,
}
use nftables.Linearize.Context.{M, ◌>>=◌, ◌>>◌, lift, nft_rule_add_expr}
use nftables.Linearize.Nles.{bytes_len, nle, netlink_gen_cmp_op, cmp, bitwise}
use nftables.Linearize.Gen.{Left, compare_range, gen_compare, flag_op, flag_test, inverted}
use nftables.Linearize.Frame.{
  read_by, written_by, reads, writes, Done, bind-Done, Done-weaken, drop_register-Done, add-Done,
}
use nftables.Linearize.Shape.{space_of}
use nftables.Linearize.Parts.{Known, emit-Done, bytes_len-nonzero}

-- The comparisons that a range is translated to.
abbrev pub equality : RelOp → Bool
equality RelOp.op_eq = true
equality RelOp.op_neq = true
equality RelOp.op_implicit = true
equality _ = false

-- Values have a length, and the operator is one that the kernel has for them.
abbrev pub IsRight : Mpz → RelOp → Bool → Expr → Right → Type 0
IsRight m op is_string left (Right.range l r) = (equality op ≡ true) × (0 < l.len) × (0 < r.len)
IsRight m op is_string left (Right.set_ref s) = Unit
IsRight m op is_string left (Right.prefix right order len prefix_len) =
    (op ≢ RelOp.op_neg)
    × (concat_len left prefix_len ≡ concat_len left (expr_len left))
    × (0 < len)
    × (0 < right.len)
    × ((is_string ≡ true) → 0 < prefix_len)
IsRight m op is_string left (Right.value right bitmask) =
    (op ≡ RelOp.op_neg → bitmask ≡ true) × (0 < right.len)
IsRight m op is_string left (Right.concat flags len parts) =
    (op ≢ RelOp.op_neg)
    × ((data_bytes : List ℕ) × (__netlink_gen_concat m flags len parts ≡ some data_bytes))

-- An instruction that tests the register.
pub test-Done :
    (reg low : ℕ) (ds : List (ℕ × ℕ)) (n : Nle)
    → reads n ≡ reg ∷ []
    → writes n ≡ []
    → Known reg tt ds
    → Done reg low low ds (Known reg) (nft_rule_add_expr n)
test-Done reg low ds n r w k =
    Done-weaken reg reg low low ds (λ _ es. es ≡ writes n ++ ds) (Known reg) (nft_rule_add_expr n)
      (omega arith) (λ a es grows _. grows reg k) (add-Done reg low ds n (rw r (k, tt)) (rw w tt))

gen_cmp_op-some : (op : RelOp) → op ≢ RelOp.op_neg → (c : CmpOp) × (netlink_gen_cmp_op op ≡ some c)
unfolding netlink_gen_cmp_op
gen_cmp_op-some RelOp.op_implicit h = (CmpOp.cmp_eq, refl)
gen_cmp_op-some RelOp.op_eq h = (CmpOp.cmp_eq, refl)
gen_cmp_op-some RelOp.op_neq h = (CmpOp.cmp_neq, refl)
gen_cmp_op-some RelOp.op_lt h = (CmpOp.cmp_lt, refl)
gen_cmp_op-some RelOp.op_gt h = (CmpOp.cmp_gt, refl)
gen_cmp_op-some RelOp.op_lte h = (CmpOp.cmp_lte, refl)
gen_cmp_op-some RelOp.op_gte h = (CmpOp.cmp_gte, refl)
gen_cmp_op-some RelOp.op_neg h = elim (h refl) [ ]

-- A value known to be there, and what is made of it.
lift-Done :
    {A B : Type 0} (reg low end : ℕ) (ds : List (ℕ × ℕ)) (Q : B → List (ℕ × ℕ) → Type 0)
    (o : Option A) (a : A) (f : A → M B)
    → o ≡ some a
    → Done reg low end ds Q (f a)
    → Done reg low end ds Q (lift o >>= f)
lift-Done reg low end ds Q o a f e next nlr = rw e (next nlr)

pub lookup-Done :
    (reg low : ℕ) (ds : List (ℕ × ℕ)) (op : RelOp) (s : SetRef)
    → Known reg tt ds
    → Done reg low low ds
        (Known reg)
        (nft_rule_add_expr (nle k_lookup (sreg a_sreg reg ∷ set_ref s ∷ inverted op)))
lookup-Done reg low ds op s k =
    let (r, w) = inverted_lem op (suc (netlink_register_space s.data_len - 1)) in
    let n = nle k_lookup (sreg a_sreg reg ∷ set_ref s ∷ inverted op) in
    test-Done reg low ds n (ap (λ l. reg ∷ l) r) w k
  where
    inverted_lem :
        (o : RelOp) (space : ℕ) → (read_by (inverted o) ≡ []) × (written_by space (inverted o) ≡ [])
    inverted_lem RelOp.op_neq space = (refl, refl)
    inverted_lem RelOp.op_implicit space = (refl, refl)
    inverted_lem RelOp.op_eq space = (refl, refl)
    inverted_lem RelOp.op_lt space = (refl, refl)
    inverted_lem RelOp.op_gt space = (refl, refl)
    inverted_lem RelOp.op_lte space = (refl, refl)
    inverted_lem RelOp.op_gte space = (refl, refl)
    inverted_lem RelOp.op_neg space = (refl, refl)

-- An instruction that does something with the register, and what follows.
module _ (reg low end : ℕ) (ds : List (ℕ × ℕ)) (Q : Unit {0} → List (ℕ × ℕ) → Type 0) (n : Nle)
    (f : Unit {0} → M (Unit {0})) where
  pub test_then-Done :
      reads n ≡ reg ∷ []
      → writes n ≡ []
      → Known reg tt ds
      → ((es : List (ℕ × ℕ)) → Known reg tt es → Done reg low end es Q (f tt))
      → Done reg low end ds Q (nft_rule_add_expr n >>= f)
  test_then-Done r w k next =
      bind-Done reg low low end ds (Known reg) Q (nft_rule_add_expr n) f
        (test-Done reg low ds n r w k) (λ a es _ k'. next es k')

  pub emit_then-Done :
      reads n ≡ reg ∷ []
      → writes n ≡ (reg, 1) ∷ []
      → Known reg tt ds
      → ((es : List (ℕ × ℕ)) → Known reg tt es → Done reg low end es Q (f tt))
      → Done reg low end ds Q (nft_rule_add_expr n >>= f)
  emit_then-Done r w k next =
      bind-Done reg low low end ds (Known reg) Q (nft_rule_add_expr n) f
        (emit-Done reg low 0 ds n w (rw r (k, tt))) (λ a es _ k'. next es k')

pub by_cases : (b : Bool) → (b ≡ true) ⊎ (b ≡ false)
by_cases true = inl refl
by_cases false = inr refl

pub constant_lem :
    (m : Mpz) (i : ValueExpr)
    → 0 < i.len
    → (data_bytes : List ℕ) × (netlink_gen_constant_data m i ≡ some data_bytes)
unfolding netlink_gen_constant_data
constant_lem m i h =
    (m.export i.byteorder (bytes_len i.len) i.value, rw (bytes_len-nonzero i.len h) refl)

-- The left-hand side is shortened to some bits at least.
pub whole_bytes :
    (is_string big : Bool) (prefix_len : ℕ)
    → (is_string ≡ true → 0 < prefix_len)
    → (not is_string && (not big || (prefix_len == 0 || not (prefix_len % 8 == 0)))) ≡ false
    → 0 < prefix_len
whole_bytes true big prefix_len h e = h refl
whole_bytes false true prefix_len h e = ground arith
whole_bytes false false prefix_len h e = ground arith

-- A value that is not tested for a flag is compared.
pub no_flag :
    (op : RelOp) (bitmask : Bool)
    → (op ≡ RelOp.op_neg → bitmask ≡ true)
    → (flag_op op && bitmask) ≡ false
    → op ≢ RelOp.op_neg
no_flag op bitmask h e eq = ground (arith, h eq)

module _ (m : Mpz) (left : Expr) (gen_left : Left) (low : ℕ) (pos : 1 ≤ low) where
  abbrev c : Option ℕ
  c = concat_len left (expr_len left)

  abbrev top : ℕ
  top = low + space_of left

  -- What is left to do: a comparison, then the registers are given back.
  pub compare_range-Done :
      (end : ℕ) (ds : List (ℕ × ℕ)) (op : RelOp) (l r : List ℕ)
      → equality op ≡ true
      → Known low tt ds
      → Done low end end ds (Known low) (compare_range m left gen_left low op l r)
  unfolding compare_range
  compare_range-Done end ds RelOp.op_neq l r e k =
      test-Done low end ds
        (nle k_range
          (sreg a_sreg low ∷ number a_op 1 ∷ bytes a_from_data l ∷ bytes a_to_data r ∷ []))
        refl refl k
  compare_range-Done end ds RelOp.op_eq l r e k =
      test_then-Done low end end ds (Known low) (cmp low CmpOp.cmp_gte l) _ refl refl k
        (λ es k'. test-Done low end es (cmp low CmpOp.cmp_lte r) refl refl k')
  compare_range-Done end ds RelOp.op_implicit l r e k =
      test_then-Done low end end ds (Known low) (cmp low CmpOp.cmp_gte l) _ refl refl k
        (λ es k'. test-Done low end es (cmp low CmpOp.cmp_lte r) refl refl k')
  compare_range-Done end ds RelOp.op_lt l r e k = ground arith
  compare_range-Done end ds RelOp.op_gt l r e k = ground arith
  compare_range-Done end ds RelOp.op_lte l r e k = ground arith
  compare_range-Done end ds RelOp.op_gte l r e k = ground arith
  compare_range-Done end ds RelOp.op_neg l r e k = ground arith

  pub gen_compare-Done :
      (ds : List (ℕ × ℕ)) (op : RelOp) (len left_len : ℕ) (right : Option (List ℕ))
      (data_bytes : List ℕ)
      → op ≢ RelOp.op_neg
      → concat_len left left_len ≡ c
      → right ≡ some data_bytes
      → Known low tt ds
      → Done low top low ds (Known low) (gen_compare m left gen_left low op len left_len right)
  unfolding gen_compare
  gen_compare-Done ds op len left_len right data_bytes h same e k =
      let (cop, ce) = gen_cmp_op-some op h in
      lift-Done low top low ds (Known low) (netlink_gen_cmp_op op) cop _ ce (
        lift-Done low top low ds (Known low) right data_bytes _ e (
          rw same (
            drop_register-Done low low low ds (Known low) c
              (λ _. nft_rule_add_expr (cmp low cop (take len data_bytes))) pos
              (test-Done low low ds (cmp low cop (take len data_bytes)) refl refl k))))

  abbrev pub flag_tests : Bool → RelOp → ℕ → List ℕ → List ℕ → M (Unit {0})
  flag_tests b op len zb db =
      if b
      then nft_rule_add_expr (cmp low CmpOp.cmp_eq db)
      else (nft_rule_add_expr (bitwise low len db zb)
          >> nft_rule_add_expr (cmp low (flag_test op) zb))

  pub flag_tests-Done :
      (b : Bool) (op : RelOp) (len : ℕ) (zb db : List ℕ) (ds : List (ℕ × ℕ))
      → Known low tt ds
      → Done low top top ds (Known low) (flag_tests b op len zb db)
  flag_tests-Done true op len zb db ds k =
      test-Done low top ds (cmp low CmpOp.cmp_eq db) refl refl k
  flag_tests-Done false op len zb db ds k =
      emit_then-Done low top top ds (Known low) (bitwise low len db zb) _ refl refl k
        (λ es k'. test-Done low top es (cmp low (flag_test op) zb) refl refl k')
