-- ===== src/Linearize/Parts.antt =====
-- What the instructions of src/netlink_linearize.c write, construct by construct.
use mathlib.Core.Path.{subst}
use nftables.Base.{
  ℕ, suc, ◌+◌, ◌-◌, ◌≤◌, ◌<◌, ◌≡◌, refl, sym, true, false, List, [], ◌∷◌, ◌++◌, Option, none, some,
  All, arith, ◌==◌,
}
use nftables.Gmp.{Mpz, Byteorder, div_round_up}
use nftables.Bitwise.{Binop}
use nftables.Expr.{ValueExpr}
use nftables.Registers.{netlink_register_space}
use nftables.Linearize.Syntax.{
  Expr, expr_len, concat_len, SetRef, Hash, Nle, UnaryOp, ShiftOp, number, Leaf, a_len, k_hash,
  k_lookup, a_sreg, sreg, dreg, set_ref,
}
use nftables.Linearize.Context.{M, ◌>>=◌, return, lift, nft_rule_add_expr}
use nftables.Linearize.Nles.{gen_leaf, bytes_len, raw_data, nle}
use nftables.NetlinkData.{netlink_gen_constant_data}
use nftables.Linearize.Gen.{gen_constant, gen_byteorder, gen_shift, gen_combined}
use nftables.Linearize.Exprs.{key_space, gen_map, gen_jhash, hash_fields}
use nftables.Linearize.Frame.{
  reads, writes, known, Done, bind-Done, Done-weaken, return-Done, take_register-Done,
  drop_register-Done, raise-Done, lower-Done, add-Done,
}
use nftables.Linearize.Shape.{space_of}

-- A register has been written.
abbrev pub Known : {A : Type 0} → ℕ → A → List (ℕ × ℕ) → Type 0
Known reg _ es = known es reg ≡ true

known-head : (reg k : ℕ) (ds : List (ℕ × ℕ)) → known ((reg, suc k) ∷ ds) reg ≡ true
known-head reg k ds = ground arith

-- One instruction that writes the register.
pub emit-Done :
    (reg low k : ℕ) (ds : List (ℕ × ℕ)) (n : Nle)
    → writes n ≡ (reg, suc k) ∷ []
    → All (λ r. known ds r ≡ true) (reads n)
    → Done reg low low ds (Known reg) (nft_rule_add_expr n)
emit-Done reg low k ds n e h =
    Done-weaken reg reg low low ds (λ _ es. es ≡ writes n ++ ds) (Known reg) (nft_rule_add_expr n)
      (omega arith) (λ a es _ eq. rw (eq, e) (known-head reg k ds))
      (add-Done reg low ds n h (rw e (omega arith, tt)))

-- A result is given after an action.
pub then_return-Done :
    {A B : Type 0} (reg low low' : ℕ) (ds : List (ℕ × ℕ)) (c : M A) (b : B)
    → Done reg low low' ds (Known reg) c
    → Done reg low low' ds (Known reg) (c >>= λ _. return b)
then_return-Done reg low low' ds c b d =
    bind-Done reg low low' low' ds (Known reg) (Known reg) c (λ _. return b) d
      (λ a es _ k. return-Done reg low' es (Known reg) b k)

pub bytes_len-nonzero : (len : ℕ) → 0 < len → (bytes_len len == 0) ≡ false
unfolding div_round_up
bytes_len-nonzero len h = ground arith

module _ (m : Mpz) (reg low : ℕ) (ds : List (ℕ × ℕ)) where
  -- The bytes of a value, and what is made of them.
  pub raw_data-Done :
      (end : ℕ) (order : Byteorder) (len v : ℕ) (f : List ℕ → M (Unit {0}))
      (Q : Unit {0} → List (ℕ × ℕ) → Type 0)
      → (len == 0) ≡ false
      → ((data_bytes : List ℕ) → Done reg low end ds Q (f data_bytes))
      → Done reg low end ds Q (lift (raw_data m order len v) >>= f)
  unfolding raw_data
  raw_data-Done end order len v f Q e next nlr = rw e (next (m.export order len v) nlr)

  pub constant-Done :
      (end : ℕ) (i : ValueExpr) (f : List ℕ → M (Unit {0})) (Q : Unit {0} → List (ℕ × ℕ) → Type 0)
      → 0 < i.len
      → ((data_bytes : List ℕ) → Done reg low end ds Q (f data_bytes))
      → Done reg low end ds Q (lift (netlink_gen_constant_data m i) >>= f)
  unfolding netlink_gen_constant_data
  constant-Done end i f Q h next nlr =
      rw (bytes_len-nonzero i.len h) (next (m.export i.byteorder (bytes_len i.len) i.value) nlr)

  pub gen_constant-Done :
      (i : ValueExpr) → 0 < i.len → Done reg low low ds (Known reg) (gen_constant m reg i)
  unfolding gen_constant
  gen_constant-Done i h =
      constant-Done low i _ (Known reg) h (λ data_bytes. emit-Done reg low 0 ds _ refl tt)

  pub gen_byteorder-Done :
      (len arg_len : ℕ) (op : UnaryOp)
      → Known reg tt ds
      → Done reg low low ds (Known reg) (gen_byteorder m reg len op arg_len)
  unfolding gen_byteorder
  gen_byteorder-Done len arg_len op k = emit-Done reg low 0 ds _ refl (k, tt)

  pub gen_shift-Done :
      (len : ℕ) (op : ShiftOp) (right : ValueExpr)
      → Known reg tt ds
      → Done reg low low ds (Known reg) (gen_shift m reg len op right)
  unfolding gen_shift
  gen_shift-Done len op right k =
      raw_data-Done low right.byteorder 4 right.value _ (Known reg) refl
        (λ data_bytes. emit-Done reg low 0 ds _ refl (k, tt))

  pub gen_combined-Done :
      (len : ℕ) (order : Byteorder) (binops : List Binop)
      → 0 < len
      → Known reg tt ds
      → Done reg low low ds (Known reg) (gen_combined m reg len order binops)
  unfolding gen_combined
  gen_combined-Done len order binops h k =
      raw_data-Done low order (bytes_len len) _ _ (Known reg) (bytes_len-nonzero len h) (λ mask.
        raw_data-Done low order (bytes_len len) _ _ (Known reg) (bytes_len-nonzero len h)
          (λ xor. emit-Done reg low 0 ds _ refl (k, tt)))

-- A packet is read into the register alone.
pub leaf_lem :
    (reg len : ℕ) (l : Leaf)
    → (reads (gen_leaf reg len l) ≡ []) × (writes (gen_leaf reg len l) ≡ (reg, 1) ∷ [])
unfolding gen_leaf
leaf_lem reg len (Leaf.payload (some i) base offset) = (refl, refl)
leaf_lem reg len (Leaf.meta (some i) key) = (refl, refl)
leaf_lem reg len (Leaf.payload none base offset) = (refl, refl)
leaf_lem reg len (Leaf.meta none key) = (refl, refl)
leaf_lem reg len (Leaf.exthdr type offset op flags) = (refl, refl)
leaf_lem reg len (Leaf.rt key) = (refl, refl)
leaf_lem reg len (Leaf.socket key level) = (refl, refl)
leaf_lem reg len (Leaf.osf ttl flags) = (refl, refl)
leaf_lem reg len (Leaf.numgen type mod_by offset) = (refl, refl)
leaf_lem reg len (Leaf.ct key none) = (refl, refl)
leaf_lem reg len (Leaf.ct key (some dir)) = (refl, refl)
leaf_lem reg len (Leaf.fib result flags) = (refl, refl)
leaf_lem reg len (Leaf.xfrm key dir spnum) = (refl, refl)

-- A hash writes the register alone, and jhash reads the register of its argument.
hash_lem :
    (reg from len mod_by offset type : ℕ) (seed : Option ℕ)
    → let h : Hash = record { mod_by = mod_by; seed = seed; offset = offset; type = type } in
      let n = nle k_hash (sreg a_sreg from ∷ number a_len len ∷ hash_fields reg h) in
      (reads (nle k_hash (hash_fields reg h)) ≡ [])
      × (writes (nle k_hash (hash_fields reg h)) ≡ (reg, 1) ∷ [])
      × (reads n ≡ from ∷ [])
      × (writes n ≡ (reg, 1) ∷ [])
hash_lem reg from len mod_by offset type none = (refl, refl, refl, refl)
hash_lem reg from len mod_by offset type (some s) = (refl, refl, refl, refl)

module _ (m : Mpz) (reg low : ℕ) (ds : List (ℕ × ℕ)) where
  pub hash-Done :
      (h : Hash)
      → Done reg low low ds (Known reg) (nft_rule_add_expr (nle k_hash (hash_fields reg h)))
  hash-Done h =
      let (r, w, _, _) = hash_lem reg 0 0 h.mod_by h.offset h.type h.seed in
      emit-Done reg low 0 ds (nle k_hash (hash_fields reg h)) w (rw r tt)

  pub gen_jhash-Done :
      (h : Hash) (e : Expr) (gen_e : ℕ → M (List Binop))
      → reg ≤ low
      → 1 ≤ low
      → low + space_of e ≤ 17
      → Done low (low + space_of e) (low + space_of e) ds (Known low) (gen_e low)
      → Done reg low low ds (Known reg) (gen_jhash m reg h e gen_e)
  unfolding gen_jhash
  gen_jhash-Done h e gen_e le pos room ih =
      let c = concat_len e (expr_len e) in
      let top = low + space_of e in
      let n =
        nle k_hash (sreg a_sreg low ∷ number a_len (bytes_len (expr_len e)) ∷ hash_fields reg h) in
      let (_, _, r, w) =
        hash_lem reg low (bytes_len (expr_len e)) h.mod_by h.offset h.type h.seed in
      take_register-Done reg low low ds (Known reg) c _ room (
        bind-Done reg top top low ds (Known low) (Known reg) (gen_e low) _
          (Done-weaken reg low top top ds (Known low) (Known low) (gen_e low) le (λ a fs _ k. k) ih)
          (λ a fs _ k. drop_register-Done reg low low fs (Known reg) c _ pos (
            then_return-Done reg low low fs (nft_rule_add_expr n) [] (
              emit-Done reg low 0 fs n w
                (subst (λ l. All (λ r. known fs r ≡ true) l) (sym r) (k, tt))))))

  pub gen_map-Done :
      (key : Expr) (gen_key : ℕ → M (List Binop)) (mappings : SetRef)
      → 1 ≤ reg
      → Done reg (low + key_space key) (low + key_space key) ds (Known reg) (gen_key reg)
      → Done reg low low ds (Known reg) (gen_map m reg key gen_key mappings)
  unfolding gen_map
  gen_map-Done key gen_key mappings pos ih =
      let e : (reg == 0) ≡ false = ground arith in
      let top = low + key_space key in
      let n = nle k_lookup (sreg a_sreg reg ∷ dreg reg ∷ set_ref mappings ∷ []) in
      rw e (
        raise-Done reg low low ds (Known reg) (key_space key) _ (
          bind-Done reg top top low ds (Known reg) (Known reg) (gen_key reg) _ ih (λ a fs _ k.
            lower-Done reg low low fs (Known reg) (key_space key) _ (
              then_return-Done reg low low fs (nft_rule_add_expr n) [] (
                emit-Done reg low (netlink_register_space mappings.data_len - 1) fs n refl
                  (k, tt))))))
