-- ===== src/Linearize/Values.antt =====
-- netlink_gen_expr puts the value of an expression into the register it is given.
use nftables.Base.{ℕ, suc, ◌+◌, ◌≤◌, ◌<◌, ◌≡◌, refl, sym, not, List, [], ◌∷◌, ◌++◌, arith, ◌==◌}
use nftables.Gmp.{Mpz}
use nftables.Bitwise.{Binop}
use nftables.Registers.{netlink_register_space}
use nftables.Linearize.Syntax.{Expr, Exprs, one, more, expr_len, k_hash}
use nftables.Linearize.Context.{M, ◌>>=◌, nft_rule_add_expr}
use nftables.Linearize.Nles.{gen_leaf, bytes_len, nle}
use nftables.Linearize.Gen.{gen_constant, gen_byteorder, gen_shift, gen_combined}
use nftables.Linearize.Exprs.{Mode, outer, within, key_space, gen_expr, gen_exprs, hash_fields}
use nftables.Linearize.Frame.{
  Done, bind-Done, Done-weaken, return-Done, require-Done, assert_below-Done,
}
use nftables.Linearize.Shape.{
  max, space_of, span, span_key, span_all, extra, extra_all, IsValue, AreValues, InMode,
}
use nftables.Linearize.Layout.{Holds, HoldsAll, Placed, PlacedAll, Holds-Grows, first-Done}
use nftables.Linearize.Parts.{
  Known, emit-Done, then_return-Done, gen_constant-Done, gen_byteorder-Done, gen_shift-Done,
  gen_combined-Done, hash-Done, gen_jhash-Done, gen_map-Done, leaf_lem,
}

max-left : (a b : ℕ) → a ≤ max a b
max-left a b = ground arith

max-right : (a b : ℕ) → b ≤ max a b
max-right a b = ground arith

max-below : (a b : ℕ) → a ≤ b → max 1 a ≤ 1 + b
max-below a b h = ground arith

-- A key needs no more registers above the one that it starts with than `reg_low` is raised by.
span-span_key : (key : Expr) → IsValue key → span key ≤ span_key key + key_space key
unfolding span span_key IsValue
span-span_key (Expr.verdict d) v = elim v [ ]
span-span_key (Expr.relational op is_string left right) v = elim v [ ]
span-span_key (Expr.other len) v = elim v [ ]
span-span_key (Expr.concat len parts) v =
    max-below (span_all parts) (netlink_register_space len) v.0
span-span_key (Expr.value i) v = omega arith
span-span_key (Expr.unary len op arg) v = omega arith
span-span_key (Expr.shift len op left right) v = omega arith
span-span_key (Expr.binop len order op left right) v = omega arith
span-span_key (Expr.map_of len key mappings) v = omega arith
span-span_key (Expr.leaf len l) v = omega arith
span-span_key (Expr.set_elem len key) v = omega arith
span-span_key (Expr.jhash len h e) v = omega arith
span-span_key (Expr.symhash len h) v = omega arith

mutual
  unfolding span span_key

  pub span-pos : (e : Expr) → 1 ≤ span e
  span-pos (Expr.verdict v) = omega arith
  span-pos (Expr.value i) = omega arith
  span-pos (Expr.unary len op arg) = span-pos arg
  span-pos (Expr.shift len op left right) = span-pos left
  span-pos (Expr.binop len order op left right) = span-pos left
  span-pos (Expr.relational op is_string left right) = omega arith
  span-pos (Expr.concat len parts) = max-left 1 (span_all parts)
  span-pos (Expr.map_of len key mappings) = span_key-pos key
  span-pos (Expr.leaf len l) = omega arith
  span-pos (Expr.set_elem len key) = span-pos key
  span-pos (Expr.jhash len h e) = omega arith
  span-pos (Expr.symhash len h) = omega arith
  span-pos (Expr.other len) = omega arith

  span_key-pos : (e : Expr) → 1 ≤ span_key e
  span_key-pos (Expr.verdict v) = omega arith
  span_key-pos (Expr.value i) = omega arith
  span_key-pos (Expr.unary len op arg) = span-pos arg
  span_key-pos (Expr.shift len op left right) = span-pos left
  span_key-pos (Expr.binop len order op left right) = span-pos left
  span_key-pos (Expr.relational op is_string left right) = omega arith
  span_key-pos (Expr.concat len parts) = omega arith
  span_key-pos (Expr.map_of len key mappings) = span_key-pos key
  span_key-pos (Expr.leaf len l) = omega arith
  span_key-pos (Expr.set_elem len key) = span-pos key
  span_key-pos (Expr.jhash len h e) = omega arith
  span_key-pos (Expr.symhash len h) = omega arith
  span_key-pos (Expr.other len) = omega arith

-- A part of a concatenation and the parts behind it.
module _ (m : Mpz) (reg low : ℕ) (ds : List (ℕ × ℕ)) where
  parts-Done :
      (e : Expr) (parts : Exprs) (c : M (List Binop)) (rest : M (Unit {0})) (next : ℕ)
      → reg ≤ next
      → next ≡ reg + netlink_register_space (expr_len e)
      → Done reg low low ds (Placed e reg) c
      → ((es : List (ℕ × ℕ)) → Done next low low es (PlacedAll parts next) rest)
      → Done reg low low ds (PlacedAll (more e parts) reg) (c >>= λ _. rest)
  unfolding HoldsAll
  parts-Done e parts c rest next le at first ih =
      bind-Done reg low low low ds (Placed e reg) (PlacedAll (more e parts) reg) c (λ _. rest) first
        (λ a es _ k.
          Done-weaken reg next low low es (PlacedAll parts next) (PlacedAll (more e parts) reg) rest
            le (λ b fs grows h. (Holds-Grows e reg es fs grows k, rw (sym at) h)) (ih es))

mutual
  unfolding Holds HoldsAll gen_expr gen_exprs span span_all extra extra_all IsValue AreValues

  -- An expression that is computed into a register, at least the first of 16, with `reg_low` above the
  -- registers it needs there and room for those taken on the way.
  pub gen_expr-Placed :
      (m : Mpz) (e : Expr) (len : ℕ) (mode : Mode) (reg low : ℕ) (ds : List (ℕ × ℕ))
      → IsValue e
      → 0 < len
      → InMode mode e
      → 1 ≤ reg
      → reg + span e ≤ low
      → low + extra e ≤ 17
      → Done reg low low ds (Placed e reg) (gen_expr m e len mode reg)
  gen_expr-Placed m (Expr.verdict d) len mode reg low ds v h i pos below room = elim v [ ]
  gen_expr-Placed m (Expr.relational op is_string left right) len mode reg low ds v h i pos below
        room =
      elim v [ ]
  gen_expr-Placed m (Expr.other own) len mode reg low ds v h i pos below room = elim v [ ]
  gen_expr-Placed m (Expr.value val) len mode reg low ds v h i pos below room =
      assert_below-Done reg low low ds (Known reg) reg _ (omega arith) (
        then_return-Done reg low low ds (gen_constant m reg (record val { len = len })) []
          (gen_constant-Done m reg low ds (record val { len = len }) h))
  gen_expr-Placed m (Expr.unary own op arg) len mode reg low ds v h i pos below room =
      assert_below-Done reg low low ds (Known reg) reg _ (omega (arith, span-pos arg)) (
        require-Done reg low low ds (Known reg) (not (bytes_len (expr_len arg) == 1)) _
          (ground (arith, v.0))
          (bind-Done reg low low low ds (Known reg) (Known reg)
            (gen_expr m arg (expr_len arg) outer reg) _
            (first-Done arg reg low low ds (gen_expr m arg (expr_len arg) outer reg)
              (gen_expr-Placed m arg (expr_len arg) outer reg low ds v.2 v.1 tt pos below room))
            (λ a es _ k.
              then_return-Done reg low low es (gen_byteorder m reg len op (expr_len arg)) []
                (gen_byteorder-Done m reg low es len (expr_len arg) op k))))
  gen_expr-Placed m (Expr.shift own op left right) len mode reg low ds v h i pos below room =
      assert_below-Done reg low low ds (Known reg) reg _ (omega (arith, span-pos left)) (
        bind-Done reg low low low ds (Known reg) (Known reg)
          (gen_expr m left (expr_len left) outer reg) _
          (first-Done left reg low low ds (gen_expr m left (expr_len left) outer reg)
            (gen_expr-Placed m left (expr_len left) outer reg low ds v.1 v.0 tt pos below room))
          (λ a es _ k.
            then_return-Done reg low low es (gen_shift m reg len op right) []
              (gen_shift-Done m reg low es len op right k)))
  gen_expr-Placed m (Expr.binop own order op left right) len outer reg low ds v h i pos below room =
      assert_below-Done reg low low ds (Known reg) reg _ (omega (arith, span-pos left)) (
        bind-Done reg low low low ds (Known reg) (Known reg)
          (gen_expr m left (expr_len left) (within 2) reg) _
          (first-Done left reg low low ds (gen_expr m left (expr_len left) (within 2) reg) (
            gen_expr-Placed m left (expr_len left) (within 2) reg low ds v.2 v.0
              (omega (arith, v.1)) pos below room))
          (λ a es _ k.
            then_return-Done reg low low es
              (gen_combined m reg len order (a ++ record { op = op; value = right.value } ∷ [])) []
              (gen_combined-Done m reg low es len order
                (a ++ record { op = op; value = right.value } ∷ []) h k)))
  gen_expr-Placed m (Expr.binop own order op left right) len (within n) reg low ds v h i pos below
        room =
      require-Done reg low low ds (Known reg) (not (n == 16)) _ (ground arith) (
        bind-Done reg low low low ds (Known reg) (Known reg)
          (gen_expr m left (expr_len left) (within (suc n)) reg) _
          (first-Done left reg low low ds (gen_expr m left (expr_len left) (within (suc n)) reg) (
            gen_expr-Placed m left (expr_len left) (within (suc n)) reg low ds v.2 v.0 (omega arith)
              pos below room))
          (λ a es _ k. return-Done reg low es (Known reg) _ k))
  gen_expr-Placed m (Expr.concat own parts) len mode reg low ds v h i pos below room =
      assert_below-Done reg low low ds (PlacedAll parts reg) reg _
        (omega (arith, max-left 1 (span_all parts)))
        (bind-Done reg low low low ds (PlacedAll parts reg) (PlacedAll parts reg)
          (gen_exprs m parts reg) _
          (gen_exprs-Done m parts reg low ds v.1 pos (omega (arith, max-right 1 (span_all parts)))
            room)
          (λ a es _ k. return-Done reg low es (PlacedAll parts reg) [] k))
  gen_expr-Placed m (Expr.map_of own key mappings) len mode reg low ds v h i pos below room =
      assert_below-Done reg low low ds (Known reg) reg _ (omega (arith, span_key-pos key)) (
        gen_map-Done m reg low ds key (gen_expr m key (expr_len key) outer) mappings pos (
          first-Done key reg (low + key_space key) (low + key_space key) ds
            (gen_expr m key (expr_len key) outer reg)
            (gen_expr-Placed m key (expr_len key) outer reg (low + key_space key) ds v.1 v.0 tt pos
              (omega (arith, span-span_key key v.1)) (omega arith))))
  gen_expr-Placed m (Expr.leaf own l) len mode reg low ds v h i pos below room =
      let (r, w) = leaf_lem reg len l in
      assert_below-Done reg low low ds (Known reg) reg _ (omega arith) (
        then_return-Done reg low low ds (nft_rule_add_expr (gen_leaf reg len l)) []
          (emit-Done reg low 0 ds (gen_leaf reg len l) w (rw r tt)))
  gen_expr-Placed m (Expr.set_elem own key) len mode reg low ds v h i pos below room =
      assert_below-Done reg low low ds (Placed key reg) reg _ (omega (arith, span-pos key))
        (gen_expr-Placed m key (expr_len key) outer reg low ds v.1 v.0 tt pos below room)
  gen_expr-Placed m (Expr.jhash own hash e) len mode reg low ds v h i pos below room =
      assert_below-Done reg low low ds (Known reg) reg _ (omega arith) (
        gen_jhash-Done m reg low ds hash e (gen_expr m e (expr_len e) outer) (omega arith)
          (omega arith) (omega arith)
          (first-Done e low (low + space_of e) (low + space_of e) ds
            (gen_expr m e (expr_len e) outer low)
            (gen_expr-Placed m e (expr_len e) outer low (low + space_of e) ds v.2 v.0 tt
              (omega arith) (omega (arith, v.1)) (omega arith))))
  gen_expr-Placed m (Expr.symhash own hash) len mode reg low ds v h i pos below room =
      assert_below-Done reg low low ds (Known reg) reg _ (omega arith) (
        then_return-Done reg low low ds (nft_rule_add_expr (nle k_hash (hash_fields reg hash))) []
          (hash-Done m reg low ds hash))

  gen_exprs-Done :
      (m : Mpz) (parts : Exprs) (reg low : ℕ) (ds : List (ℕ × ℕ))
      → AreValues parts
      → 1 ≤ reg
      → reg + span_all parts ≤ low
      → low + extra_all parts ≤ 17
      → Done reg low low ds (PlacedAll parts reg) (gen_exprs m parts reg)
  gen_exprs-Done m (one e) reg low ds v pos below room =
      bind-Done reg low low low ds (Placed e reg) (Placed e reg)
        (gen_expr m e (expr_len e) outer reg) _
        (gen_expr-Placed m e (expr_len e) outer reg low ds v.1 v.0 tt pos below room)
        (λ a es _ k. return-Done reg low es (Placed e reg) tt k)
  gen_exprs-Done m (more e rest) reg low ds v pos below room =
      let space = netlink_register_space (expr_len e) in
      parts-Done m reg low ds e rest (gen_expr m e (expr_len e) outer reg)
        (gen_exprs m rest (reg + space)) (reg + space) (omega arith) refl
        (gen_expr-Placed m e (expr_len e) outer reg low ds v.1 v.0 tt pos
          (omega (arith, max-left (span e) (space + span_all rest)))
          (omega (arith, max-left (extra e) (extra_all rest))))
        (λ es.
          gen_exprs-Done m rest (reg + space) low es v.2 (omega arith)
            (omega (arith, max-right (span e) (space + span_all rest)))
            (omega (arith, max-right (extra e) (extra_all rest))))

pub gen_expr-Done :
    (m : Mpz) (e : Expr) (len : ℕ) (mode : Mode) (reg low : ℕ) (ds : List (ℕ × ℕ))
    → IsValue e
    → 0 < len
    → InMode mode e
    → 1 ≤ reg
    → reg + span e ≤ low
    → low + extra e ≤ 17
    → Done reg low low ds (Known reg) (gen_expr m e len mode reg)
gen_expr-Done m e len mode reg low ds v h i pos below room =
    first-Done e reg low low ds (gen_expr m e len mode reg)
      (gen_expr-Placed m e len mode reg low ds v h i pos below room)
