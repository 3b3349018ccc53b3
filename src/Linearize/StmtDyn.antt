-- ===== src/Linearize/StmtDyn.antt =====
-- Statements with two values, and those that add an element to a set.
use nftables.Base.{
  ℕ, ◌+◌, ◌≤◌, ◌≡◌, refl, Bool, true, not, List, [], ◌∷◌, ◌++◌, Option, none, some, All, arith,
  ◌==◌, if◌then◌else◌,
}
use nftables.Gmp.{Mpz}
use nftables.Linearize.Syntax.{
  Attr, Expr, expr_len, concat_len, Field, Nle, SetRef, sreg, sreg_number, number, bytes, set_ref,
  nested, a_flags, a_sreg_dev, a_sreg_addr, a_op, a_sreg_key, a_sreg_data, a_timeout, dreg, text,
  a_nfproto, k_dup, k_fwd, k_dynset,
}
use nftables.Linearize.Context.{M, ◌>>=◌, ◌>>◌, take_register, drop_register, nft_rule_add_expr}
use nftables.Linearize.Nles.{nle}
use nftables.Linearize.Exprs.{netlink_gen_expr}
use nftables.Linearize.Frame.{read_by, reads, known, Done, drop_register-Done}
use nftables.Linearize.Shape.{space_of}
use nftables.Linearize.Fields.{Stateful, DynKey, timeout_field, nested_stmts, several, when}
use nftables.Linearize.Stmts.{
  gen_second, netlink_gen_dup_stmt, netlink_gen_fwd_stmt, netlink_gen_set_stmt,
  netlink_gen_map_stmt, netlink_gen_meter_stmt,
}
use nftables.Linearize.Operands.{
  IsOperand, final-Done, Quiet, append-Quiet, when-Quiet, held-Done, single-Done,
}
use nftables.Linearize.Layout.{Placed, Holds-known, kept-Done}
use nftables.Linearize.StmtParts.{Any, nested-Quiet, when_one-Quiet, second-Done}

pub read_append :
    (ds : List (ℕ × ℕ)) (a b : List Field)
    → All (λ r. known ds r ≡ true) (read_by a)
    → All (λ r. known ds r ≡ true) (read_by b)
    → All (λ r. known ds r ≡ true) (read_by (a ++ b))
read_append ds [] b h q = q
read_append ds (sreg x r ∷ a) b h q = (h.0, read_append ds a b h.1 q)
read_append ds (sreg_number x r ∷ a) b h q = (h.0, read_append ds a b h.1 q)
read_append ds (dreg r ∷ a) b h q = read_append ds a b h q
read_append ds (number x n ∷ a) b h q = read_append ds a b h q
read_append ds (bytes x n ∷ a) b h q = read_append ds a b h q
read_append ds (text x n ∷ a) b h q = read_append ds a b h q
read_append ds (set_ref x ∷ a) b h q = read_append ds a b h q
read_append ds (nested x y z ∷ a) b h q = read_append ds a b h q

timeout-Quiet : (k : DynKey) → Quiet (timeout_field k)
timeout-Quiet k = when_one-Quiet (not (k.timeout == 0)) (number a_timeout k.timeout) refl

dyn-Quiet : (k : DynKey) (rest : List Field) → Quiet rest → Quiet (timeout_field k ++ rest)
dyn-Quiet k rest q = append-Quiet (timeout_field k) rest (timeout-Quiet k) q

module _ (m : Mpz) (low : ℕ) (pos : 1 ≤ low) (ds : List (ℕ × ℕ)) where
  -- The registers of the first value are given back.
  release-Done :
      (es : List (ℕ × ℕ)) (e : Expr) (n : Nle)
      → All (λ r. known es r ≡ true) (reads n)
      → Done 0
          (low + space_of e)
          low
          es
          Any
          (drop_register (concat_len e (expr_len e)) >> nft_rule_add_expr n)
  release-Done es e n h =
      drop_register-Done 0 low low es Any (concat_len e (expr_len e)) (λ _. nft_rule_add_expr n) pos
        (final-Done low es n h)

  pub dup-Done :
      (to : Expr) (is_ifindex : Bool) (dev : Option Expr)
      → IsOperand low to
      → ((e : Expr) → dev ≡ some e → IsOperand (low + space_of to) e)
      → Done 0 low low ds Any (netlink_gen_dup_stmt m (some (to, is_ifindex)) dev)
  unfolding netlink_gen_dup_stmt
  dup-Done to is_ifindex dev ok ok' =
      let a : Attr = if is_ifindex then a_sreg_dev else a_sreg_addr in
      let n : ℕ → List Field → Nle = λ r fields. nle k_dup (sreg a r ∷ fields) in
      let c = concat_len to (expr_len to) in
      held-Done m low ds low Any to pos ok
        (λ reg. gen_second m a_sreg_dev dev >>= λ fields.
          drop_register c >> nft_rule_add_expr (n reg fields))
        (λ es _ k.
          second-Done m (low + space_of to) (omega arith) es low a_sreg_dev dev
            (λ fields. drop_register c >> nft_rule_add_expr (n low fields)) ok'
            (λ fs fields grows h.
              release-Done fs to (n low fields) (grows low (Holds-known to low es k), h)))

  pub dup_dev-Done :
      (dev : Option Expr)
      → ((e : Expr) → dev ≡ some e → IsOperand low e)
      → Done 0 low low ds Any (netlink_gen_dup_stmt m none dev)
  unfolding netlink_gen_dup_stmt
  dup_dev-Done dev ok =
      second-Done m low pos ds low a_sreg_dev dev (λ fields. nft_rule_add_expr (nle k_dup fields))
        ok (λ es fields _ h. final-Done low es (nle k_dup fields) h)

  pub fwd-Done :
      (dev : Expr) (addr : Option Expr) (family : ℕ)
      → IsOperand low dev
      → ((e : Expr) → addr ≡ some e → IsOperand (low + space_of dev) e)
      → Done 0 low low ds Any (netlink_gen_fwd_stmt m dev addr family)
  unfolding netlink_gen_fwd_stmt
  fwd-Done dev addr family ok ok' =
      let last : List Field = if family == 0 then [] else number a_nfproto family ∷ [] in
      let n : ℕ → List Field → Nle = λ r fields. nle k_fwd (sreg a_sreg_dev r ∷ (fields ++ last)) in
      let c = concat_len dev (expr_len dev) in
      let q : Quiet last = when-Quiet (family == 0) [] (number a_nfproto family ∷ []) refl refl in
      held-Done m low ds low Any dev pos ok
        (λ reg. gen_second m a_sreg_addr addr >>= λ fields.
          drop_register c >> nft_rule_add_expr (n reg fields))
        (λ es _ k.
          second-Done m (low + space_of dev) (omega arith) es low a_sreg_addr addr
            (λ fields. drop_register c >> nft_rule_add_expr (n low fields)) ok'
            (λ fs fields grows h.
              release-Done fs dev (n low fields)
                (grows low (Holds-known dev low es k), read_append fs fields last h (rw q tt))))

  pub set-Done :
      (key : DynKey) (op : ℕ) (s : SetRef) (stmts : List Stateful)
      → IsOperand low key.key
      → Done 0 low low ds (Placed key.key low) (netlink_gen_set_stmt m key op s stmts)
  unfolding netlink_gen_set_stmt nested_stmts
  set-Done key op s stmts ok =
      let last = nested_stmts stmts ++ when (several stmts) (number a_flags 2) in
      let q : Quiet last =
        append-Quiet (nested_stmts stmts) _ (nested-Quiet stmts)
          (when_one-Quiet (several stmts) (number a_flags 2) refl) in
      single-Done m low ds low key.key _ pos ok (λ es k.
        final-Done low es
          (nle k_dynset
            (sreg a_sreg_key low ∷ (timeout_field key ++ number a_op op ∷ set_ref s ∷ last)))
          (rw (dyn-Quiet key (number a_op op ∷ set_ref s ∷ last) q) (k, tt)))

  pub meter-Done :
      (key : DynKey) (s : SetRef) (stmt : Stateful)
      → IsOperand low key.key
      → Done 0 low low ds (Placed key.key low) (netlink_gen_meter_stmt m key s stmt)
  unfolding netlink_gen_meter_stmt nested_stmts
  meter-Done key s stmt ok =
      let op : ℕ = if key.timeout == 0 then 0 else 1 in
      let last = number a_op op ∷ set_ref s ∷ nested_stmts (stmt ∷ []) in
      single-Done m low ds low key.key _ pos ok (λ es k.
        final-Done low es (nle k_dynset (sreg a_sreg_key low ∷ (timeout_field key ++ last)))
          (rw (dyn-Quiet key last refl) (k, tt)))

  pub map-Done :
      (key : DynKey) (datum : Expr) (op : ℕ) (s : SetRef) (stmts : List Stateful)
      → IsOperand low key.key
      → IsOperand (low + space_of key.key) datum
      → Done 0 low low ds (Placed key.key low) (netlink_gen_map_stmt m key datum op s stmts)
  unfolding netlink_gen_map_stmt nested_stmts
  map-Done key datum op s stmts ok ok' =
      let sk = space_of key.key in
      let sd = space_of datum in
      let kc = concat_len key.key (expr_len key.key) in
      let dc = concat_len datum (expr_len datum) in
      let swap : low + sk + sd ≡ low + sd + sk = omega arith in
      let n : ℕ → ℕ → Nle = λ r t. nle k_dynset (
        sreg a_sreg_key r
        ∷ sreg a_sreg_data t
        ∷ number a_op op
        ∷ set_ref s
        ∷ (timeout_field key ++ nested_stmts stmts)) in
      let add : ℕ → ℕ → M (Unit {0}) =
        λ r t. drop_register kc >> (drop_register dc >> nft_rule_add_expr (n r t)) in
      let with_datum : ℕ → M (Unit {0}) =
        λ r. take_register dc >>= λ t. netlink_gen_expr m datum t >>= λ _. add r t in
      held-Done m low ds low (Placed key.key low) key.key pos ok with_datum (λ es _ k.
        kept-Done key.key low 0 (low + sk) low es Any (with_datum low) k (
          held-Done m (low + sk) es low Any datum (omega arith) ok' (add low) (λ fs grows k'.
            rw swap (
              drop_register-Done 0 (low + sd) low fs Any kc
                (λ _. drop_register dc >> nft_rule_add_expr (n low (low + sk))) (omega arith)
                (release-Done fs datum (n low (low + sk)) (
                  rw (dyn-Quiet key (nested_stmts stmts) (nested-Quiet stmts)) (
                    grows low (Holds-known key.key low es k),
                    (Holds-known datum (low + sk) fs k', tt),
                  )))))))
