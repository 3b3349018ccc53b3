-- ===== src/Linearize/NatSound.antt =====
-- Address translation, proxies and queues as whole statements.
use nftables.Base.{
  ℕ, ◌+◌, ◌≤◌, ◌<◌, ◌^◌, ◌&&◌, ltb, ◌≡◌, refl, true, false, not, List, [], ◌∷◌, ◌++◌, Option, none,
  some, All, All-map, arith, ◌==◌, if◌then◌else◌,
}
use nftables.Gmp.{Mpz}
use nftables.Linearize.Syntax.{
  Attr, Expr, Field, Nle, sreg, number, a_family, a_reg_addr, a_reg_port, k_tproxy, a_sreg_qnum,
  a_flags, k_queue,
}
use nftables.Linearize.Context.{M, ◌>>=◌, ◌>>◌, return, nft_rule_add_expr}
use nftables.Linearize.Nles.{nle}
use nftables.Linearize.Frame.{read_by, Grows, known, Done, bind-Done, return-Done, require-Done}
use nftables.Linearize.Parts.{Known}
use nftables.Linearize.Nat.{
  NatType, snat, dnat, masq, redir, NatArg, NatStmt, typed_nle, nat_nle, interval_map, release_all,
  gen_one, gen_nat_addr, gen_nat_proto, netlink_gen_nat_stmt, gen_tproxy_part,
  netlink_gen_tproxy_stmt, flags_field,
}
use nftables.Linearize.Layout.{Holds-known}
use nftables.Linearize.Operands.{FitsInto, final-Done, Quiet, when-Quiet}
use nftables.Linearize.StmtParts.{Any}
use nftables.Linearize.StmtDyn.{read_append}
use nftables.Linearize.Fields.{Queue, queue_numbers, when}
use nftables.Linearize.Stmts.{netlink_gen_queue_stmt}
use nftables.Linearize.StmtParts.{when_one-Quiet}
use nftables.Linearize.Operands.{IsOperand, operand-Done}
use nftables.Linearize.NatParts.{
  AllKnown, FitsArg, count, up, up-pos, up-count, release_all-Done, gen_one-Done,
  gen_nat_proto-Done, gen_nat_addr-Done,
}

-- Numbers of queues fit a word of 16 bits, a computed one its register.
abbrev pub IsQueue : ℕ → Queue → Type 0
IsQueue low Queue.default = Unit
IsQueue low (Queue.numbers a b) = (a < 2 ^ 16) × (b < 2 ^ 16)
IsQueue low (Queue.computed e) = IsOperand low e

flags-Quiet : (flags : ℕ) → Quiet (flags_field flags)
flags-Quiet flags = when-Quiet (flags == 0) [] (number a_flags flags ∷ []) refl refl

typed_nle-Quiet : (t : NatType) (family flags : ℕ) → Quiet (typed_nle t family flags).1
typed_nle-Quiet snat family flags = flags-Quiet flags
typed_nle-Quiet dnat family flags = flags-Quiet flags
typed_nle-Quiet masq family flags = flags-Quiet flags
typed_nle-Quiet redir family flags = flags-Quiet flags

nat_nle-Quiet : (s : NatStmt) → Quiet (nat_nle s).1
unfolding nat_nle
nat_nle-Quiet s = typed_nle-Quiet s.type s.family s.flags

-- The address and the port of a translation, one above the other.
abbrev pub IsNat : ℕ → NatStmt → Type 0
IsNat low s =
    (s.concat ≡ false)
    × ((e : Expr) → s.addr ≡ some (NatArg.single e) → interval_map e ≡ false)
    × ((a : NatArg) → s.addr ≡ some a → FitsArg low a)
    × ((a : NatArg) → s.proto ≡ some a → FitsArg (up low (count s.addr)) a)

abbrev pub given : Option Expr → ℕ
given none = 0
given (some e) = 1

up-given :
    (low : ℕ) (addr port : Option Expr)
    → up (up low (given addr)) (given port) ≡ up low (given addr + given port)
up-given low none none = refl
up-given low none (some e) = refl
up-given low (some e) none = refl
up-given low (some e) (some f) = refl

All-known :
    (ds es : List (ℕ × ℕ))
    → Grows ds es
    → (l : List ℕ) → All (λ r. known ds r ≡ true) l
    → All (λ r. known es r ≡ true) l
All-known ds es grows l h = All-map (λ r. known ds r ≡ true) (λ r. known es r ≡ true) grows l h

module _ (m : Mpz) (low : ℕ) (pos : 1 ≤ low) (ds : List (ℕ × ℕ)) where
  -- Two groups of attributes, whose registers are given back before the instruction is added.
  pair-Done :
      (na nb : ℕ) (first second : M (ℕ × List Field)) (n : List Field → List Field → Nle)
      → up (up low na) nb ≡ up low (na + nb)
      → Done 0 low (up low na) ds (λ r es. (r.0 ≡ na) × Grows ds es × AllKnown r.1 es) first
      → ((es : List (ℕ × ℕ))
          → Done 0
              (up low na)
              (up (up low na) nb)
              es
              (λ r fs. (r.0 ≡ nb) × Grows es fs × AllKnown r.1 fs)
              second)
      → ((es : List (ℕ × ℕ)) (a b : List Field)
          → AllKnown a es
          → AllKnown b es
          → AllKnown (n a b).fields es)
      → Done 0 low low ds Any
          (first >>= λ r. second >>= λ t. release_all (r.0 + t.0) >> nft_rule_add_expr (n r.1 t.1))
  pair-Done na nb first second n same d1 d2 known_n =
      bind-Done 0 low (up low na) low ds (λ r es. (r.0 ≡ na) × Grows ds es × AllKnown r.1 es) Any
        first (λ r. second >>= λ t. release_all (r.0 + t.0) >> nft_rule_add_expr (n r.1 t.1)) d1
        (λ r es _ (e1, g1, k1).
          bind-Done 0 (up low na) (up (up low na) nb) low es
            (λ t fs. (t.0 ≡ nb) × Grows es fs × AllKnown t.1 fs) Any second
            (λ t. release_all (r.0 + t.0) >> nft_rule_add_expr (n r.1 t.1)) (d2 es)
            (λ t fs _ (e2, g2, k2).
              rw (e1, e2, same)
                (bind-Done 0 (up low (na + nb)) low low fs (λ _ gs. Grows fs gs) Any
                  (release_all (na + nb)) (λ _. nft_rule_add_expr (n r.1 t.1))
                  (release_all-Done low (na + nb) fs pos)
                  (λ u gs _ g3. final-Done low gs (n r.1 t.1) (
                    known_n gs r.1 t.1 (All-known es gs (λ q h. g3 q (g2 q h)) (read_by r.1) k1)
                      (All-known fs gs g3 (read_by t.1) k2))))))

  pub nat-Done : (s : NatStmt) → IsNat low s → Done 0 low low ds Any (netlink_gen_nat_stmt m s)
  unfolding netlink_gen_nat_stmt
  nat-Done s (nc, ni, ok, ok') =
      pair-Done (count s.addr) (count s.proto) (gen_nat_addr m s s.addr) (gen_nat_proto m s.proto)
        (λ a b. nle (nat_nle s).0 ((nat_nle s).1 ++ a ++ b)) (up-count low s.addr s.proto)
        (gen_nat_addr-Done m low pos ds s s.addr nc ni ok)
        (λ es.
          gen_nat_proto-Done m (up low (count s.addr)) (up-pos low (count s.addr) pos) es s.proto
            ok')
        (λ es a b ha hb.
          read_append es ((nat_nle s).1 ++ a) b
            (read_append es (nat_nle s).1 a (rw (nat_nle-Quiet s) tt) ha) hb)

  tproxy_part-Done :
      (a : Attr) (part : Option Expr)
      → ((e : Expr) → part ≡ some e → FitsInto 4 low e)
      → Done 0 low
          (up low (given part))
          ds
          (λ r es. (r.0 ≡ given part) × Grows ds es × AllKnown r.1 es)
          (gen_tproxy_part m a part)
  unfolding gen_tproxy_part
  tproxy_part-Done a none ok =
      return-Done 0 low ds (λ r es. (r.0 ≡ 0) × Grows ds es × AllKnown r.1 es) (0, [])
        (refl, (λ r h. h), tt)
  tproxy_part-Done a (some e) ok =
      let Q : (ℕ × List Field) → List (ℕ × ℕ) → Type 0 =
        λ r es. (r.0 ≡ 1) × Grows ds es × AllKnown r.1 es in
      bind-Done 0 low (low + 4) (low + 4) ds
        (λ r es. (r.0 ≡ low) × (r.1 ≡ sreg a low ∷ []) × Grows ds es × Known low tt es) Q
        (gen_one m a a e) (λ r. return (1, r.1)) (gen_one-Done m low pos ds a a e (ok e refl))
        (λ r es _ (e0, e1, grows, k).
          return-Done 0 (low + 4) es Q (1, r.1) (refl, grows, rw e1 (k, tt)))

  pub queue-Done :
      (q : Queue) (flags : ℕ)
      → IsQueue low q
      → Done 0 low low ds Any (netlink_gen_queue_stmt m q flags)
  unfolding netlink_gen_queue_stmt
  queue-Done Queue.default flags ok =
      final-Done low ds
        (nle k_queue (queue_numbers 0 0 ++ when (not (flags == 0)) (number a_flags flags)))
        (rw (when_one-Quiet (not (flags == 0)) (number a_flags flags) refl) tt)
  queue-Done (Queue.numbers a b) flags (a_fits, b_fits) =
      let n = nle k_queue (queue_numbers a b ++ when (not (flags == 0)) (number a_flags flags)) in
      require-Done 0 low low ds Any (ltb a (2 ^ 16) && ltb b (2 ^ 16)) (λ _. nft_rule_add_expr n)
        (ground arith)
        (final-Done low ds n
          (rw (when_one-Quiet (not (flags == 0)) (number a_flags flags) refl) tt))
  queue-Done (Queue.computed e) flags ok =
      let last : List Field = when (not (flags == 0)) (number a_flags flags) in
      let quiet : Quiet last = when_one-Quiet (not (flags == 0)) (number a_flags flags) refl in
      operand-Done m low ds low Any e
        (λ reg. nft_rule_add_expr (
          nle k_queue
            ((if reg == 0 then queue_numbers 0 0 else sreg a_sreg_qnum reg ∷ []) ++ last)))
        pos ok
        (λ es _ k.
          let nonzero : (low == 0) ≡ false = ground arith in
          rw nonzero (
            final-Done low es (nle k_queue (sreg a_sreg_qnum low ∷ last))
              (Holds-known e low es k, rw quiet tt)))

pub tproxy-Done :
    (m : Mpz) (low : ℕ) (ds : List (ℕ × ℕ)) (family : ℕ) (addr port : Option Expr)
    → 1 ≤ low
    → ((e : Expr) → addr ≡ some e → FitsInto 4 low e)
    → ((e : Expr) → port ≡ some e → FitsInto 4 (up low (given addr)) e)
    → Done 0 low low ds Any (netlink_gen_tproxy_stmt m family addr port)
unfolding netlink_gen_tproxy_stmt
tproxy-Done m low ds family addr port pos ok ok' =
    pair-Done m low pos ds (given addr) (given port) (gen_tproxy_part m a_reg_addr addr)
      (gen_tproxy_part m a_reg_port port) (λ a b. nle k_tproxy (number a_family family ∷ (a ++ b)))
      (up-given low addr port) (tproxy_part-Done m low pos ds a_reg_addr addr ok)
      (λ es.
        tproxy_part-Done m (up low (given addr)) (up-pos low (given addr) pos) es a_reg_port port
          ok')
      (λ es a b ha hb. read_append es a b ha hb)
