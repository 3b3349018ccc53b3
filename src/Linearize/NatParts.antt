-- ===== src/Linearize/NatParts.antt =====
-- Address translation reads the registers that its addresses and ports were computed into.
use mathlib.Core.Path.{subst}
use nftables.Base.{
  ℕ, zero, suc, ◌+◌, ◌≤◌, ◌≡◌, refl, true, false, List, [], ◌∷◌, ◌++◌, Option, none, some, All,
  arith,
}
use nftables.Gmp.{Mpz}
use nftables.Registers.{netlink_register_space}
use nftables.Linearize.Syntax.{
  Attr, Expr, Field, sreg, a_reg_addr_min, a_reg_addr_max, a_reg_proto_min, a_reg_proto_max,
}
use nftables.Linearize.Context.{◌>>◌, return}
use nftables.Linearize.Exprs.{netlink_gen_expr}
use nftables.Linearize.Frame.{
  read_by, Grows, known, Done, bind-Done, return-Done, take_register-Done, drop_register-Done,
}
use nftables.Linearize.Shape.{extra}
use nftables.Linearize.Parts.{Known}
use nftables.Linearize.Nat.{
  NatArg, NatStmt, interval_map, release_all, gen_ends, gen_one, gen_nat_addr, gen_nat_proto,
}
use nftables.Linearize.Operands.{FitsInto, gen_into-Done}
use nftables.Linearize.StmtDyn.{read_append}

-- Attributes name registers that were written.
abbrev pub AllKnown : List Field → List (ℕ × ℕ) → Type 0
AllKnown fields ds = All (λ r. known ds r ≡ true) (read_by fields)

abbrev pub FitsArg : ℕ → NatArg → Type 0
FitsArg low (NatArg.single e) = FitsInto 4 low e
FitsArg low (NatArg.range left right) =
    FitsInto 4 low left × FitsInto 4 (low + 4) right × (low + 8 + extra left ≤ 17)

abbrev pub count : Option NatArg → ℕ
count none = 0
count (some (NatArg.single e)) = 1
count (some (NatArg.range left right)) = 2

-- The registers of 128 bits.
abbrev pub up : ℕ → ℕ → ℕ
up low zero = low
up low (suc n) = up low n + 4

pub up-pos : (low n : ℕ) → 1 ≤ low → 1 ≤ up low n
up-pos low zero h = h
up-pos low (suc n) h = omega (arith, up-pos low n h)

pub up-count :
    (low : ℕ) (addr proto : Option NatArg)
    → up (up low (count addr)) (count proto) ≡ up low (count addr + count proto)
up-count low none none = refl
up-count low none (some (NatArg.single f)) = refl
up-count low none (some (NatArg.range f g)) = refl
up-count low (some (NatArg.single e)) none = refl
up-count low (some (NatArg.single e)) (some (NatArg.single f)) = refl
up-count low (some (NatArg.single e)) (some (NatArg.range f g)) = refl
up-count low (some (NatArg.range d e)) none = refl
up-count low (some (NatArg.range d e)) (some (NatArg.single f)) = refl
up-count low (some (NatArg.range d e)) (some (NatArg.range f g)) = refl

pub release_all-Done :
    (low n : ℕ) (ds : List (ℕ × ℕ))
    → 1 ≤ low
    → Done 0 (up low n) low ds (λ _ es. Grows ds es) (release_all n)
unfolding netlink_register_space
release_all-Done low zero ds pos = return-Done 0 low ds (λ _ es. Grows ds es) tt (λ r h. h)
release_all-Done low (suc n) ds pos =
    drop_register-Done 0 (up low n) low ds (λ _ es. Grows ds es) none (λ _. release_all n)
      (up-pos low n pos) (release_all-Done low n ds pos)

module _ (m : Mpz) (low : ℕ) (pos : 1 ≤ low) (ds : List (ℕ × ℕ)) where
  pub gen_one-Done :
      (min max : Attr) (e : Expr)
      → FitsInto 4 low e
      → Done 0 low
          (low + 4)
          ds
          (λ r es. (r.0 ≡ low) × (r.1 ≡ sreg min low ∷ []) × Grows ds es × Known low tt es)
          (gen_one m min max e)
  unfolding gen_one netlink_register_space
  gen_one-Done min max e ok =
      let P : (ℕ × List Field) → List (ℕ × ℕ) → Type 0 =
        λ r es. (r.0 ≡ low) × (r.1 ≡ sreg min low ∷ []) × Grows ds es × Known low tt es in
      let same : low + 4 + 0 ≡ low + 4 = omega arith in
      take_register-Done 0 low (low + 4) ds P none
        (λ reg. netlink_gen_expr m e reg >> return (reg, sreg min reg ∷ [])) (omega (arith, ok.3))
        (bind-Done 0 (low + 4) (low + 4) (low + 4) ds (Known low) P (netlink_gen_expr m e low) _
          (subst (λ t. Done 0 t t ds (Known low) (netlink_gen_expr m e low)) same
            (gen_into-Done m low ds e 4 0 ok pos (omega (arith, ok.3))))
          (λ a es grows k.
            return-Done 0 (low + 4) es P (low, sreg min low ∷ []) (refl, refl, grows, k)))

  gen_ends-Done :
      (min max : Attr) (left right : Expr)
      → FitsArg low (NatArg.range left right)
      → Done 0 low
          (low + 4 + 4)
          ds
          (λ r es. (r.0 ≡ low) × Grows ds es × AllKnown r.1 es)
          (gen_ends m min max left right)
  unfolding gen_ends netlink_register_space
  gen_ends-Done min max left right (okl, okr, top) =
      let P : (ℕ × List Field) → List (ℕ × ℕ) → Type 0 =
        λ r es. (r.0 ≡ low) × Grows ds es × AllKnown r.1 es in
      let same' : low + 4 + 4 + 0 ≡ low + 4 + 4 = omega arith in
      let out : List Field = sreg min low ∷ sreg max (low + 4) ∷ [] in
      take_register-Done 0 low (low + 4 + 4) ds P none _ (omega arith) (
        take_register-Done 0 (low + 4) (low + 4 + 4) ds P none
          (λ r.
            netlink_gen_expr m left low
            >> (netlink_gen_expr m right r >> return (low, sreg min low ∷ sreg max r ∷ [])))
          (omega arith)
          (bind-Done 0 (low + 4 + 4) (low + 4 + 4) (low + 4 + 4) ds (Known low) P
            (netlink_gen_expr m left low)
            (λ _. netlink_gen_expr m right (low + 4) >> return (low, out))
            (gen_into-Done m low ds left 4 4 okl pos (omega arith))
            (λ a es grows k.
              bind-Done 0 (low + 4 + 4) (low + 4 + 4) (low + 4 + 4) es (Known (low + 4)) P
                (netlink_gen_expr m right (low + 4)) (λ _. return (low, out))
                (subst (λ t. Done 0 t t es (Known (low + 4)) (netlink_gen_expr m right (low + 4)))
                  same'
                  (gen_into-Done m (low + 4) es right 4 0 okr (omega arith) (omega (arith, okr.3))))
                (λ b fs grows' k'.
                  return-Done 0 (low + 4 + 4) fs P (low, out)
                    (refl, (λ r h. grows' r (grows r h)), (grows' low k, (k', tt)))))))

  -- An address or a port that is given, and its registers.
  pub gen_nat_proto-Done :
      (arg : Option NatArg)
      → ((a : NatArg) → arg ≡ some a → FitsArg low a)
      → Done 0 low
          (up low (count arg))
          ds
          (λ r es. (r.0 ≡ count arg) × Grows ds es × AllKnown r.1 es)
          (gen_nat_proto m arg)
  unfolding gen_nat_proto
  gen_nat_proto-Done none ok =
      return-Done 0 low ds (λ r es. (r.0 ≡ 0) × Grows ds es × AllKnown r.1 es) (0, [])
        (refl, (λ r h. h), tt)
  gen_nat_proto-Done (some (NatArg.single e)) ok =
      let Q : (ℕ × List Field) → List (ℕ × ℕ) → Type 0 =
        λ r es. (r.0 ≡ 1) × Grows ds es × AllKnown r.1 es in
      bind-Done 0 low (low + 4) (low + 4) ds
        (λ r es.
          (r.0 ≡ low) × (r.1 ≡ sreg a_reg_proto_min low ∷ []) × Grows ds es × Known low tt es)
        Q (gen_one m a_reg_proto_min a_reg_proto_max e) (λ r. return (1, r.1))
        (gen_one-Done a_reg_proto_min a_reg_proto_max e (ok (NatArg.single e) refl))
        (λ r es _ (e0, e1, grows, k).
          return-Done 0 (low + 4) es Q (1, r.1) (refl, grows, rw e1 (k, tt)))
  gen_nat_proto-Done (some (NatArg.range left right)) ok =
      let Q : (ℕ × List Field) → List (ℕ × ℕ) → Type 0 =
        λ r es. (r.0 ≡ 2) × Grows ds es × AllKnown r.1 es in
      bind-Done 0 low (low + 4 + 4) (low + 4 + 4) ds
        (λ r es. (r.0 ≡ low) × Grows ds es × AllKnown r.1 es) Q
        (gen_ends m a_reg_proto_min a_reg_proto_max left right) (λ r. return (2, r.1))
        (gen_ends-Done a_reg_proto_min a_reg_proto_max left right
          (ok (NatArg.range left right) refl))
        (λ r es _ (e0, grows, k). return-Done 0 (low + 4 + 4) es Q (2, r.1) (refl, grows, k))

  pub gen_nat_addr-Done :
      (s : NatStmt) (arg : Option NatArg)
      → s.concat ≡ false
      → ((e : Expr) → arg ≡ some (NatArg.single e) → interval_map e ≡ false)
      → ((a : NatArg) → arg ≡ some a → FitsArg low a)
      → Done 0 low
          (up low (count arg))
          ds
          (λ r es. (r.0 ≡ count arg) × Grows ds es × AllKnown r.1 es)
          (gen_nat_addr m s arg)
  unfolding gen_nat_addr
  gen_nat_addr-Done s none nc ni ok =
      return-Done 0 low ds (λ r es. (r.0 ≡ 0) × Grows ds es × AllKnown r.1 es) (0, [])
        (refl, (λ r h. h), tt)
  gen_nat_addr-Done s (some (NatArg.single e)) nc ni ok =
      let Q : (ℕ × List Field) → List (ℕ × ℕ) → Type 0 =
        λ r es. (r.0 ≡ 1) × Grows ds es × AllKnown r.1 es in
      rw (nc, ni e refl)
        (bind-Done 0 low (low + 4) (low + 4) ds
          (λ r es.
            (r.0 ≡ low) × (r.1 ≡ sreg a_reg_addr_min low ∷ []) × Grows ds es × Known low tt es)
          Q (gen_one m a_reg_addr_min a_reg_addr_max e) (λ r. return (1, r.1 ++ [] ++ []))
          (gen_one-Done a_reg_addr_min a_reg_addr_max e (ok (NatArg.single e) refl))
          (λ r es _ (e0, e1, grows, k).
            return-Done 0 (low + 4) es Q (1, r.1 ++ [] ++ []) (refl, grows, rw e1 (k, tt))))
  gen_nat_addr-Done s (some (NatArg.range left right)) nc ni ok =
      let Q : (ℕ × List Field) → List (ℕ × ℕ) → Type 0 =
        λ r es. (r.0 ≡ 2) × Grows ds es × AllKnown r.1 es in
      rw nc (
        bind-Done 0 low (low + 4 + 4) (low + 4 + 4) ds
          (λ r es. (r.0 ≡ low) × Grows ds es × AllKnown r.1 es) Q
          (gen_ends m a_reg_addr_min a_reg_addr_max left right) (λ r. return (2, r.1 ++ []))
          (gen_ends-Done a_reg_addr_min a_reg_addr_max left right
            (ok (NatArg.range left right) refl))
          (λ r es _ (e0, grows, k).
            return-Done 0 (low + 4 + 4) es Q (2, r.1 ++ [])
              (refl, grows, read_append es r.1 [] k tt)))
