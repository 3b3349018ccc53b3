-- ===== src/Linearize/Rule.antt =====
-- `netlink_gen_stmt` and `netlink_linearize_rule` of src/netlink_linearize.c.
use nftables.Base.{ℕ, Bool, ◌==◌, not, List, [], ◌∷◌, map, Option}
use nftables.Gmp.{Mpz}
use nftables.Expr.{ValueExpr}
use nftables.Linearize.Syntax.{
  Name, Expr, SetRef, number, text, a_type, a_code, a_mss, a_wscale, a_flags, a_op, a_table_name,
  k_log, k_reject, k_synproxy, k_notrack, k_flow_offload, k_exthdr,
}
use nftables.Linearize.Context.{Ctx, M, ◌>>◌, return, nft_rule_add_expr}
use nftables.Linearize.Nles.{nle}
use nftables.Linearize.Exprs.{netlink_gen_expr}
use nftables.Linearize.Fields.{
  Stateful, netlink_gen_stmt_stateful, PayloadTarget, Log, log_fields, Queue, DynKey, when,
}
use nftables.Linearize.Stmts.{
  netlink_gen_exthdr_stmt, netlink_gen_payload_stmt, netlink_gen_meta_stmt, netlink_gen_ct_stmt,
  netlink_gen_dup_stmt, netlink_gen_fwd_stmt, netlink_gen_queue_stmt, netlink_gen_objref_map,
  netlink_gen_objref_imm, netlink_gen_set_stmt, netlink_gen_map_stmt, netlink_gen_meter_stmt,
}
use nftables.Linearize.Nat.{NatStmt, netlink_gen_nat_stmt, netlink_gen_tproxy_stmt}

-- `expression` stands for STMT_EXPRESSION, STMT_VERDICT and STMT_CHAIN. The ICMP code of a rejection,
-- an int8_t, is its byte: 255 is -1. A direction below 0 is `none`.
pub data Stmt : Type 0 where
  expression : Expr → Stmt
  meter : DynKey → SetRef → Stateful → Stmt
  exthdr : Expr → ℕ → ℕ → ℕ → ℕ → Stmt
  payload : Expr → PayloadTarget → Stmt
  meta : Expr → ℕ → Stmt
  log : Log → Stmt
  reject : ℕ → ℕ → Stmt
  nat : NatStmt → Stmt
  tproxy : ℕ → Option Expr → Option Expr → Stmt
  synproxy : ℕ → ℕ → ℕ → Stmt
  dup : Option (Expr × Bool) → Option Expr → Stmt
  queue : Queue → ℕ → Stmt
  ct : Expr → ℕ → Option ℕ → Stmt
  set : DynKey → ℕ → SetRef → List Stateful → Stmt
  fwd : Expr → Option Expr → ℕ → Stmt
  stateful : Stateful → Stmt
  notrack : Stmt
  flow_offload : Name → Stmt
  objref_map : Expr → SetRef → Stmt
  objref_imm : ValueExpr → ℕ → Stmt
  map_stmt : DynKey → Expr → ℕ → SetRef → List Stateful → Stmt
  optstrip : ℕ → ℕ → Stmt

module _ (m : Mpz) where
  unfoldable pub netlink_gen_stmt : Stmt → M (Unit {0})
  unfolding netlink_gen_stmt_stateful
  netlink_gen_stmt (Stmt.expression e) = netlink_gen_expr m e 0
  netlink_gen_stmt (Stmt.meter key s stmt) = netlink_gen_meter_stmt m key s stmt
  netlink_gen_stmt (Stmt.exthdr val raw_type offset len op) =
      netlink_gen_exthdr_stmt m val raw_type offset len op
  netlink_gen_stmt (Stmt.payload val target) = netlink_gen_payload_stmt m val target
  netlink_gen_stmt (Stmt.meta e key) = netlink_gen_meta_stmt m e key
  netlink_gen_stmt (Stmt.log l) = nft_rule_add_expr (nle k_log (log_fields l))
  netlink_gen_stmt (Stmt.reject type code) =
      nft_rule_add_expr
        (nle k_reject (number a_type type ∷ when (not (code == 255)) (number a_code code)))
  netlink_gen_stmt (Stmt.nat s) = netlink_gen_nat_stmt m s
  netlink_gen_stmt (Stmt.tproxy family addr port) = netlink_gen_tproxy_stmt m family addr port
  netlink_gen_stmt (Stmt.synproxy mss wscale flags) =
      nft_rule_add_expr
        (nle k_synproxy (number a_mss mss ∷ number a_wscale wscale ∷ number a_flags flags ∷ []))
  netlink_gen_stmt (Stmt.dup to dev) = netlink_gen_dup_stmt m to dev
  netlink_gen_stmt (Stmt.queue q flags) = netlink_gen_queue_stmt m q flags
  netlink_gen_stmt (Stmt.ct e key direction) = netlink_gen_ct_stmt m e key direction
  netlink_gen_stmt (Stmt.set key op s stmts) = netlink_gen_set_stmt m key op s stmts
  netlink_gen_stmt (Stmt.fwd dev addr family) = netlink_gen_fwd_stmt m dev addr family
  netlink_gen_stmt (Stmt.stateful s) = nft_rule_add_expr (
      nle (netlink_gen_stmt_stateful s).0
        (map (λ a. number a.0 a.1) (netlink_gen_stmt_stateful s).1))
  netlink_gen_stmt Stmt.notrack = nft_rule_add_expr (nle k_notrack [])
  netlink_gen_stmt (Stmt.flow_offload name) =
      nft_rule_add_expr (nle k_flow_offload (text a_table_name name ∷ []))
  netlink_gen_stmt (Stmt.objref_map key mappings) = netlink_gen_objref_map m key mappings
  netlink_gen_stmt (Stmt.objref_imm i type) = netlink_gen_objref_imm m i type
  netlink_gen_stmt (Stmt.map_stmt key datum op s stmts) =
      netlink_gen_map_stmt m key datum op s stmts
  netlink_gen_stmt (Stmt.optstrip raw_type op) =
      nft_rule_add_expr (nle k_exthdr (number a_type raw_type ∷ number a_op op ∷ []))

  -- `netlink_linearize_rule`, its statements.
  unfoldable pub gen_stmts : List Stmt → M (Unit {0})
  unfolding netlink_gen_stmt
  gen_stmts [] = return tt
  gen_stmts (stmt ∷ stmts) = netlink_gen_stmt stmt >> gen_stmts stmts

  -- `netlink_linearize_init`: NFT_REG_1 is the first free register, and the rule has no instruction.
  unfoldable pub netlink_linearize_init : Ctx
  netlink_linearize_init = record { reg_low = 1; nlr = [] }

  unfoldable pub netlink_linearize_rule : List Stmt → Option (Unit {0} × Ctx)
  unfolding gen_stmts netlink_linearize_init
  netlink_linearize_rule stmts = gen_stmts stmts netlink_linearize_init
