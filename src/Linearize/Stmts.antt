-- ===== src/Linearize/Stmts.antt =====
-- Statements of a rule: the instructions of src/netlink_linearize.c.
use nftables.Base.{
  ◌&&◌, ◌^◌, ltb, ℕ, ◌/◌, Bool, not, List, [], ◌∷◌, ◌++◌, Option, none, some, ◌==◌, if◌then◌else◌,
}
use nftables.Gmp.{Mpz}
use nftables.Expr.{ValueExpr}
use nftables.NetlinkData.{netlink_gen_constant_data}
use nftables.Linearize.Syntax.{
  Expr, SetRef, expr_len, concat_len, Kind, Attr, Field, sreg, sreg_number, number, bytes, set_ref,
  k_objref, k_exthdr, k_payload, k_meta, k_dup, k_fwd, k_queue, k_ct, k_dynset, a_flags, a_type,
  a_set_sreg, a_imm_name, a_imm_type, a_sreg, a_offset, a_len, a_op, a_key, a_sreg_dev, a_sreg_addr,
  a_nfproto, a_sreg_qnum, a_dir, a_sreg_key, a_sreg_data,
}
use nftables.Linearize.Context.{
  require, M, ◌>>=◌, ◌>>◌, return, lift, take_register, drop_register, nft_rule_add_expr,
}
use nftables.Linearize.Nles.{nle, number_if, bytes_len}
use nftables.Linearize.Exprs.{netlink_gen_expr}
use nftables.Linearize.Fields.{
  Stateful, PayloadTarget, payload_fields, Queue, queue_numbers, nested_stmts, several, DynKey,
  timeout_field, when,
}

module _ (m : Mpz) where
  -- A value is computed into a register, which is given back before the instruction that reads it is
  -- added.
  abbrev pub gen_operand : Expr → M ℕ
  gen_operand e = do
    reg ← take_register (concat_len e (expr_len e))
    netlink_gen_expr m e reg
    drop_register (concat_len e (expr_len e))
    return reg

  -- netlink_gen_exthdr_stmt, netlink_gen_payload_stmt, netlink_gen_meta_stmt, netlink_gen_ct_stmt.
  abbrev pub put_operand : Expr → Kind → List Field → M (Unit {0})
  put_operand e kind fields = do
    reg ← gen_operand e
    nft_rule_add_expr (nle kind (sreg a_sreg reg ∷ fields))

  unfoldable pub netlink_gen_exthdr_stmt : Expr → ℕ → ℕ → ℕ → ℕ → M (Unit {0})
  netlink_gen_exthdr_stmt val raw_type offset len op = put_operand val k_exthdr (
      number a_type raw_type
      ∷ number a_offset (offset / 8)
      ∷ number a_len (bytes_len len)
      ∷ number a_op op
      ∷ [])

  unfoldable pub netlink_gen_payload_stmt : Expr → PayloadTarget → M (Unit {0})
  netlink_gen_payload_stmt val target = put_operand val k_payload (payload_fields target)

  unfoldable pub netlink_gen_meta_stmt : Expr → ℕ → M (Unit {0})
  netlink_gen_meta_stmt e key = put_operand e k_meta (number a_key key ∷ [])

  unfoldable pub netlink_gen_ct_stmt : Expr → ℕ → Option ℕ → M (Unit {0})
  netlink_gen_ct_stmt e key direction =
      put_operand e k_ct (number a_key key ∷ number_if a_dir direction)

  -- A second value, while the registers of the first are taken.
  abbrev pub gen_second : Attr → Option Expr → M (List Field)
  gen_second a none = return []
  gen_second a (some e) = gen_operand e >>= λ reg. return (sreg a reg ∷ [])

  -- The Boolean says that the type is ifindex_type.
  unfoldable pub netlink_gen_dup_stmt : Option (Expr × Bool) → Option Expr → M (Unit {0})
  netlink_gen_dup_stmt none dev = do
    fields ← gen_second a_sreg_dev dev
    nft_rule_add_expr (nle k_dup fields)
  netlink_gen_dup_stmt (some (to, is_ifindex)) dev = do
    reg ← take_register (concat_len to (expr_len to))
    netlink_gen_expr m to reg
    fields ← gen_second a_sreg_dev dev
    drop_register (concat_len to (expr_len to))
    nft_rule_add_expr
        (nle k_dup (sreg (if is_ifindex then a_sreg_dev else a_sreg_addr) reg ∷ fields))

  unfoldable pub netlink_gen_fwd_stmt : Expr → Option Expr → ℕ → M (Unit {0})
  netlink_gen_fwd_stmt dev addr family = do
    reg ← take_register (concat_len dev (expr_len dev))
    netlink_gen_expr m dev reg
    fields ← gen_second a_sreg_addr addr
    drop_register (concat_len dev (expr_len dev))
    nft_rule_add_expr (
        nle k_fwd (
          sreg a_sreg_dev reg
          ∷ (fields ++ (if family == 0 then [] else number a_nfproto family ∷ []))))

  -- mpz_get_uint16 asserts that a number is one word.
  unfoldable pub netlink_gen_queue_stmt : Queue → ℕ → M (Unit {0})
  netlink_gen_queue_stmt Queue.default flags =
      nft_rule_add_expr
        (nle k_queue (queue_numbers 0 0 ++ when (not (flags == 0)) (number a_flags flags)))
  netlink_gen_queue_stmt (Queue.numbers low high) flags = do
    require (ltb low (2 ^ 16) && ltb high (2 ^ 16))
    nft_rule_add_expr
        (nle k_queue (queue_numbers low high ++ when (not (flags == 0)) (number a_flags flags)))
  netlink_gen_queue_stmt (Queue.computed e) flags = do
    reg ← gen_operand e
    nft_rule_add_expr (
        nle k_queue (
          (if reg == 0 then queue_numbers 0 0 else sreg a_sreg_qnum reg ∷ [])
          ++ when (not (flags == 0)) (number a_flags flags)))

  -- NFTNL_EXPR_OBJREF_SET_SREG is put as it is. For a value its bytes are the name.
  unfoldable pub netlink_gen_objref_map : Expr → SetRef → M (Unit {0})
  netlink_gen_objref_map key mappings = do
    reg ← gen_operand key
    nft_rule_add_expr (nle k_objref (sreg_number a_set_sreg reg ∷ set_ref mappings ∷ []))

  unfoldable pub netlink_gen_objref_imm : ValueExpr → ℕ → M (Unit {0})
  netlink_gen_objref_imm i type = do
    data_bytes ← lift (netlink_gen_constant_data m i)
    nft_rule_add_expr (nle k_objref (bytes a_imm_name data_bytes ∷ number a_imm_type type ∷ []))

  -- The statements of the set are put behind nft_rule_add_expr, into the same instruction.
  unfoldable pub netlink_gen_set_stmt : DynKey → ℕ → SetRef → List Stateful → M (Unit {0})
  unfolding nested_stmts
  netlink_gen_set_stmt key op set stmts = do
    reg ← gen_operand key.key
    nft_rule_add_expr (
        nle k_dynset (
          sreg a_sreg_key reg
          ∷ (timeout_field key
              ++ number a_op op
                ∷ set_ref set
                ∷ (nested_stmts stmts ++ when (several stmts) (number a_flags 2)))))

  -- The registers of the key are given back while those of the data stand above them.
  unfoldable pub netlink_gen_map_stmt : DynKey → Expr → ℕ → SetRef → List Stateful → M (Unit {0})
  unfolding nested_stmts
  netlink_gen_map_stmt key datum op set stmts = do
    reg_key ← take_register (concat_len key.key (expr_len key.key))
    netlink_gen_expr m key.key reg_key
    reg_data ← take_register (concat_len datum (expr_len datum))
    netlink_gen_expr m datum reg_data
    drop_register (concat_len key.key (expr_len key.key))
    drop_register (concat_len datum (expr_len datum))
    nft_rule_add_expr (
        nle k_dynset (
          sreg a_sreg_key reg_key
          ∷ sreg a_sreg_data reg_data
          ∷ number a_op op
          ∷ set_ref set
          ∷ (timeout_field key ++ nested_stmts stmts)))

  -- NFT_DYNSET_OP_UPDATE with a timeout, NFT_DYNSET_OP_ADD without one.
  unfoldable pub netlink_gen_meter_stmt : DynKey → SetRef → Stateful → M (Unit {0})
  unfolding nested_stmts
  netlink_gen_meter_stmt key set stmt = do
    reg ← gen_operand key.key
    nft_rule_add_expr (
        nle k_dynset (
          sreg a_sreg_key reg
          ∷ (timeout_field key
              ++ number a_op (if key.timeout == 0 then 0 else 1)
                ∷ set_ref set
                ∷ nested_stmts (stmt ∷ []))))
