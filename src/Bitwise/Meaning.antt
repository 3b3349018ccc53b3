-- ===== src/Bitwise/Meaning.antt =====
-- What the two functions do to each bit.
use Prim.Native.Nat.{bit_and, bit_or, bit_xor}
use nftables.Base.{
  ℕ, ◌<◌, ◌≡◌, refl, ◌∙◌, ap, inl, inr, Bool, ◌&&◌, ◌||◌, not, List, [], ◌∷◌, ◌++◌, leb, ltb, ◌==◌,
  arith, Bool-cases,
}
use nftables.Gmp.{Mpz, mpz_bitmask}
use nftables.Bits.{
  bit, ◌xor◌, bit-bit_and, bit-bit_or, bit-bit_xor, bit-zero, bit-ones, bit_below-scan0,
}
use nftables.Bitwise.{
  BitOp, Binop, MaskXor, combine_binop, combine_one, combine_all, netlink_gen_bitwise,
  netlink_parse_bitwise_bool, and_part, xor_part, or_part,
}

abbrev pub apply : Binop → ℕ → ℕ
apply i v = elim i.op [
  | BitOp.op_and ↦ bit_and v i.value
  | BitOp.op_or ↦ bit_or v i.value
  | BitOp.op_xor ↦ bit_xor v i.value
]

-- The value of a chain, the innermost operation first.
abbrev pub apply_all : List Binop → ℕ → ℕ
apply_all [] v = v
apply_all (i ∷ binops) v = apply_all binops (apply i v)

-- What one bitwise instruction does to a register.
abbrev pub run : MaskXor → ℕ → ℕ
run r v = bit_xor (bit_and v r.mask) r.xor

-- The lowest `len` bits are the same.
abbrev pub SameBits : ℕ → ℕ → ℕ → Type 0
SameBits len a b = (k : ℕ) → k < len → bit k a ≡ bit k b

ruleset bit_laws = (bit-bit_and, bit-bit_or, bit-bit_xor, bit-zero)

module _ (len : ℕ) where
  one_op-SameBits :
      (op : BitOp) (val : ℕ) (acc : MaskXor) (v : ℕ)
      → SameBits len
          (run (combine_one len (record { op = op; value = val }) acc) v)
          (apply (record { op = op; value = val }) (run acc v))
  unfolding combine_one combine_binop mpz_bitmask
  one_op-SameBits BitOp.op_and val acc v k h = simp bit_laws (ground arith)
  one_op-SameBits BitOp.op_or val acc v k h = simp bit_laws (ground arith)
  one_op-SameBits BitOp.op_xor val acc v k h = simp (bit_laws, bit-ones) (ground arith)

  -- Equal bits stay equal.
  apply-SameBits : (i : Binop) (a b : ℕ) → SameBits len a b → SameBits len (apply i a) (apply i b)
  apply-SameBits i a b e k h = by_op i.op i.value
    where
      by_op :
          (op : BitOp) (val : ℕ)
          → bit k (apply (record { op = op; value = val }) a)
            ≡ bit k (apply (record { op = op; value = val }) b)
      by_op BitOp.op_and val = simp bit_laws (ap (λ (c : Bool). c && bit k val) (e k h))
      by_op BitOp.op_or val = simp bit_laws (ap (λ (c : Bool). c || bit k val) (e k h))
      by_op BitOp.op_xor val = simp bit_laws (ap (λ (c : Bool). c xor bit k val) (e k h))

  apply_all-SameBits :
      (binops : List Binop) (a b : ℕ)
      → SameBits len a b
      → SameBits len (apply_all binops a) (apply_all binops b)
  apply_all-SameBits [] a b e = e
  apply_all-SameBits (i ∷ binops) a b e = apply_all-SameBits binops _ _ (apply-SameBits i a b e)

  combine_all-SameBits :
      (binops : List Binop) (acc : MaskXor) (v : ℕ)
      → SameBits len (run (combine_all len binops acc) v) (apply_all binops (run acc v))
  unfolding combine_all
  combine_all-SameBits [] acc v k h = refl
  combine_all-SameBits (i ∷ binops) acc v k h =
      combine_all-SameBits binops (combine_one len i acc) v k h
      ∙ apply_all-SameBits binops _ _ (one_op-SameBits i.op i.value acc v) k h

  -- The mask and the exclusive or of a chain do to the bits of the expression what the operations of
  -- the chain do one after the other, for every chain and every value.
  pub netlink_gen_bitwise-SameBits :
      (binops : List Binop) (v : ℕ)
      → SameBits len (run (netlink_gen_bitwise len binops) v) (apply_all binops v)
  unfolding netlink_gen_bitwise mpz_bitmask
  netlink_gen_bitwise-SameBits binops v k h =
      combine_all-SameBits binops _ v k h
      ∙ apply_all-SameBits binops _ v (λ j l. simp (bit_laws, bit-ones) (ground arith)) k h

apply_all-append : (p q : List Binop) (v : ℕ) → apply_all (p ++ q) v ≡ apply_all q (apply_all p v)
apply_all-append [] q v = refl
apply_all-append (i ∷ p) q v = apply_all-append p q (apply i v)

module _ (gmp : Mpz) (len : ℕ) where
  and_part-SameBits : (m v : ℕ) → SameBits len (apply_all (and_part gmp len m) v) (bit_and v m)
  and_part-SameBits m v k h = elim (Bool-cases (ltb 0 len && leb len (gmp.scan0 m))) [
    | inl e ↦
        let all_ones = bit_below-scan0 gmp k m (ground arith) in rw e (simp bit_laws (ground arith))
    | inr e ↦ rw e refl
  ]

  xor_part-SameBits : (x v : ℕ) → SameBits len (apply_all (xor_part x) v) (bit_xor v x)
  xor_part-SameBits x v k h = elim (Bool-cases (x == 0)) [
    | inl e ↦ let none_set : x ≡ 0 = ground arith in rw (e, none_set) (simp bit_laws (ground arith))
    | inr e ↦ rw e refl
  ]

  or_part-SameBits : (o v : ℕ) → SameBits len (apply_all (or_part o) v) (bit_or v o)
  or_part-SameBits o v k h = elim (Bool-cases (o == 0)) [
    | inl e ↦ let none_set : o ≡ 0 = ground arith in rw (e, none_set) (simp bit_laws (ground arith))
    | inr e ↦ rw e refl
  ]

  parts-SameBits :
      (m x o v : ℕ)
      → SameBits len
          (apply_all (and_part gmp len m ++ (xor_part x ++ or_part o)) v)
          (bit_or (bit_xor (bit_and v m) x) o)
  parts-SameBits m x o v k h =
      rw (apply_all-append (and_part gmp len m) (xor_part x ++ or_part o) v) (
        apply_all-SameBits len (xor_part x ++ or_part o) _ _ (and_part-SameBits m v) k h
        ∙ ap (bit k) (apply_all-append (xor_part x) (or_part o) (bit_and v m))
        ∙ apply_all-SameBits len (or_part o) _ _ (xor_part-SameBits x (bit_and v m)) k h
        ∙ or_part-SameBits o (bit_xor (bit_and v m) x) k h)

  -- The chain that is read from a mask and an exclusive or does the same to the bits of the value.
  pub netlink_parse_bitwise_bool-SameBits :
      (mask_len : ℕ) (r : MaskXor) (v : ℕ)
      → SameBits len (apply_all (netlink_parse_bitwise_bool gmp len mask_len r) v) (run r v)
  unfolding netlink_parse_bitwise_bool
  netlink_parse_bitwise_bool-SameBits mask_len r v k h =
      elim (Bool-cases (not (gmp.scan0 r.mask == mask_len) || not (r.xor == 0))) [
        | inl split ↦ rw split (
            parts-SameBits (bit_or r.mask (bit_xor (bit_and r.mask r.xor) r.xor))
              (bit_and r.xor r.mask) (bit_xor (bit_and r.mask r.xor) r.xor) v k h
            ∙ simp bit_laws (ground arith))
        | inr whole ↦ rw whole (parts-SameBits r.mask r.xor 0 v k h ∙ simp bit_laws (ground arith))
      ]

  -- What is read back of a chain does to the bits of the expression what the chain did.
  pub netlink_parse_bitwise_bool-netlink_gen_bitwise :
      (mask_len : ℕ) (binops : List Binop) (v : ℕ)
      → SameBits len
          (apply_all
            (netlink_parse_bitwise_bool gmp len mask_len (netlink_gen_bitwise len binops))
            v)
          (apply_all binops v)
  netlink_parse_bitwise_bool-netlink_gen_bitwise mask_len binops v k h =
      netlink_parse_bitwise_bool-SameBits mask_len (netlink_gen_bitwise len binops) v k h
      ∙ netlink_gen_bitwise-SameBits len binops v k h
