-- ===== src/Linearize/StmtParts.antt =====
-- Statements that compute their values into registers read what was written.
use nftables.Base.{
  ℕ, ◌≤◌, ◌<◌, ◌≡◌, refl, Bool, true, List, [], ◌∷◌, map, Option, none, some, All, ◌==◌, ◌||◌, ◌/◌,
}
use nftables.Gmp.{Mpz}
use nftables.Expr.{ValueExpr}
use nftables.Linearize.Syntax.{
  Attr, Expr, Field, Kind, SetRef, a_imm_name, a_imm_type, sreg, sreg_number, number, bytes,
  set_ref, nested, a_expressions, a_csum_type, a_csum_offset, a_dir, a_flags, a_sreg, a_set_sreg,
  k_objref,
}
use nftables.Linearize.Context.{M, ◌>>=◌, return, nft_rule_add_expr}
use nftables.Linearize.Nles.{nle, number_if}
use nftables.Linearize.Frame.{read_by, Grows, known, Done, bind-Done, return-Done}
use nftables.Linearize.Parts.{Known, constant-Done}
use nftables.Linearize.Fields.{
  Stateful, PayloadTarget, payload_fields, pseudohdr_update, csum_fields, ProtoDesc, nested_stmts,
  when, netlink_gen_stmt_stateful,
}
use nftables.Linearize.Stmts.{
  gen_second, put_operand, netlink_gen_exthdr_stmt, netlink_gen_payload_stmt, netlink_gen_meta_stmt,
  netlink_gen_ct_stmt, netlink_gen_objref_map, netlink_gen_objref_imm,
}
use nftables.Linearize.Operands.{
  IsOperand, final-Done, Quiet, append-Quiet, when-Quiet, operand-Done, single-Done,
}
use nftables.Linearize.Layout.{Placed, Holds-known}

-- Nothing is claimed of the result.
abbrev pub Any : Unit {0} → List (ℕ × ℕ) → Type 0
Any _ _ = Unit

pub number_if-Quiet : (a : Attr) (n : Option ℕ) → Quiet (number_if a n)
number_if-Quiet a none = refl
number_if-Quiet a (some n) = refl

csum-Quiet : (d : Option ProtoDesc) → Quiet (csum_fields d)
csum-Quiet none = refl
csum-Quiet (some d) =
    when-Quiet (d.checksum_key == 0 || d.checksum_offset == 0) []
      (number a_csum_type d.checksum_type ∷ number a_csum_offset (d.checksum_offset / 8) ∷ []) refl
      refl

payload-Quiet : (t : PayloadTarget) → Quiet (payload_fields t)
unfolding payload_fields pseudohdr_update
payload-Quiet t =
    append-Quiet (csum_fields t.desc) _ (csum-Quiet t.desc)
      (when-Quiet (pseudohdr_update t) (number a_flags 1 ∷ []) [] refl refl)

pub when_one-Quiet : (b : Bool) (f : Field) → Quiet (f ∷ []) → Quiet (when b f)
when_one-Quiet b f h = when-Quiet b (f ∷ []) [] h refl

all_nested-Quiet :
    (stmts : List Stateful)
    → Quiet (
        map
          (λ s.
            nested a_expressions (netlink_gen_stmt_stateful s).0 (netlink_gen_stmt_stateful s).1)
          stmts)
all_nested-Quiet [] = refl
all_nested-Quiet (s ∷ stmts) = all_nested-Quiet stmts

pub nested-Quiet : (stmts : List Stateful) → Quiet (nested_stmts stmts)
unfolding nested_stmts
nested-Quiet [] = refl
nested-Quiet (s ∷ []) = refl
nested-Quiet (s ∷ t ∷ stmts) = all_nested-Quiet stmts

module _ (m : Mpz) (low : ℕ) (pos : 1 ≤ low) (ds : List (ℕ × ℕ)) where
  put_operand-Done :
      (e : Expr) (kind : Kind) (fields : List Field)
      → IsOperand low e
      → Quiet fields
      → Done 0 low low ds (Placed e low) (put_operand m e kind fields)
  put_operand-Done e kind fields ok q =
      single-Done m low ds low e (λ reg. nft_rule_add_expr (nle kind (sreg a_sreg reg ∷ fields)))
        pos ok (λ es k. final-Done low es (nle kind (sreg a_sreg low ∷ fields)) (rw q (k, tt)))

  pub exthdr-Done :
      (val : Expr) (raw_type offset len op : ℕ)
      → IsOperand low val
      → Done 0 low low ds (Placed val low) (netlink_gen_exthdr_stmt m val raw_type offset len op)
  unfolding netlink_gen_exthdr_stmt
  exthdr-Done val raw_type offset len op ok = put_operand-Done val _ _ ok refl

  pub payload-Done :
      (val : Expr) (target : PayloadTarget)
      → IsOperand low val
      → Done 0 low low ds (Placed val low) (netlink_gen_payload_stmt m val target)
  unfolding netlink_gen_payload_stmt
  payload-Done val target ok =
      put_operand-Done val _ (payload_fields target) ok (payload-Quiet target)

  pub meta-Done :
      (e : Expr) (key : ℕ)
      → IsOperand low e
      → Done 0 low low ds (Placed e low) (netlink_gen_meta_stmt m e key)
  unfolding netlink_gen_meta_stmt
  meta-Done e key ok = put_operand-Done e _ _ ok refl

  pub ct-Done :
      (e : Expr) (key : ℕ) (direction : Option ℕ)
      → IsOperand low e
      → Done 0 low low ds (Placed e low) (netlink_gen_ct_stmt m e key direction)
  unfolding netlink_gen_ct_stmt
  ct-Done e key direction ok = put_operand-Done e _ _ ok (number_if-Quiet a_dir direction)

  pub objref_map-Done :
      (key : Expr) (mappings : SetRef)
      → IsOperand low key
      → Done 0 low low ds (Placed key low) (netlink_gen_objref_map m key mappings)
  unfolding netlink_gen_objref_map
  objref_map-Done key mappings ok = single-Done m low ds low key _ pos ok (λ es k.
      final-Done low es (nle k_objref (sreg_number a_set_sreg low ∷ set_ref mappings ∷ [])) (k, tt))

  pub objref_imm-Done :
      (i : ValueExpr) (type : ℕ)
      → 0 < i.len
      → Done 0 low low ds Any (netlink_gen_objref_imm m i type)
  unfolding netlink_gen_objref_imm
  objref_imm-Done i type h = constant-Done m 0 low ds low i _ Any h (λ db.
      final-Done low ds (nle k_objref (bytes a_imm_name db ∷ number a_imm_type type ∷ [])) tt)

  -- The second value stands above the first.
  pub second-Done :
      (end : ℕ) (a : Attr) (second : Option Expr) (f : List Field → M (Unit {0}))
      → ((e : Expr) → second ≡ some e → IsOperand low e)
      → ((es : List (ℕ × ℕ)) (fields : List Field)
          → Grows ds es
          → All (λ r. known es r ≡ true) (read_by fields)
          → Done 0 low end es Any (f fields))
      → Done 0 low end ds Any (gen_second m a second >>= f)
  second-Done end a none f ok next =
      bind-Done 0 low low end ds (λ fs es. (fs ≡ []) × Grows ds es) Any (return []) f
        (return-Done 0 low ds (λ fs es. (fs ≡ []) × Grows ds es) [] (refl, λ r h. h))
        (λ fs es _ (e, grows). next es fs grows (rw e tt))
  second-Done end a (some e) f ok next =
      bind-Done 0 low low end ds (λ fs es. (fs ≡ sreg a low ∷ []) × Grows ds es × Known low tt es)
        Any (gen_second m a (some e)) f
        (operand-Done m low ds low (λ fs es. (fs ≡ sreg a low ∷ []) × Grows ds es × Known low tt es)
          e (λ reg. return (sreg a reg ∷ [])) pos (ok e refl)
          (λ es grows k.
            return-Done 0 low es (λ fs gs. (fs ≡ sreg a low ∷ []) × Grows ds gs × Known low tt gs)
              (sreg a low ∷ []) (refl, grows, Holds-known e low es k)))
        (λ fs es _ (e', grows, k). next es fs grows (rw e' (k, tt)))
