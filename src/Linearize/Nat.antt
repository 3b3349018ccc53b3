-- ===== src/Linearize/Nat.antt =====
-- Address translation and transparent proxies: netlink_gen_nat_stmt and netlink_gen_tproxy_stmt of
-- src/netlink_linearize.c.
use nftables.Base.{
  ℕ, zero, suc, ◌+◌, Bool, true, false, List, [], ◌∷◌, ◌++◌, Option, none, some, ◌==◌,
  if◌then◌else◌,
}
use nftables.Gmp.{Mpz}
use nftables.Registers.{netlink_register_space}
use nftables.Linearize.Syntax.{
  Expr, Kind, Attr, Field, sreg, number, k_nat, k_masq, k_redir, k_tproxy, a_type, a_family,
  a_flags, a_reg_addr_min, a_reg_addr_max, a_reg_proto_min, a_reg_proto_max, a_reg_addr, a_reg_port,
}
use nftables.Linearize.Context.{
  M, ◌>>=◌, ◌>>◌, return, require, lift, take_register, drop_register, nft_rule_add_expr,
}
use nftables.Linearize.Nles.{nle}
use nftables.Linearize.Exprs.{netlink_gen_expr}

pub data NatType : Type 0 where
  snat dnat masq redir : NatType

-- An address or a port, or a range of them.
pub data NatArg : Type 0 where
  single : Expr → NatArg
  range : Expr → Expr → NatArg

-- `interval` and `concat` are STMT_NAT_F_INTERVAL and STMT_NAT_F_CONCAT of `type_flags`.
pub record NatStmt : Type 0 where
  pub type : NatType
  pub family : ℕ
  pub flags : ℕ
  pub addr : Option NatArg
  pub proto : Option NatArg
  pub interval : Bool
  pub concat : Bool

-- NFPROTO_IPV4 and NFPROTO_IPV6; any other family stops the program.
unfoldable pub nat_addrlen : ℕ → Option ℕ
nat_addrlen family = if family == 2 then some 32 else if family == 10 then some 128 else none

-- `family` is read for SNAT and DNAT only.
abbrev pub nat_family : NatStmt → ℕ
nat_family s = elim s.type [ snat ↦ s.family | dnat ↦ s.family | masq ↦ 0 | redir ↦ 0 ]

abbrev pub flags_field : ℕ → List Field
flags_field flags = if flags == 0 then [] else number a_flags flags ∷ []

-- The instruction without its registers. NFT_NAT_SNAT is 0, NFT_NAT_DNAT is 1.
abbrev pub typed_nle : NatType → ℕ → ℕ → Kind × List Field
typed_nle snat family flags = (k_nat, number a_type 0 ∷ number a_family family ∷ flags_field flags)
typed_nle dnat family flags = (k_nat, number a_type 1 ∷ number a_family family ∷ flags_field flags)
typed_nle masq family flags = (k_masq, flags_field flags)
typed_nle redir family flags = (k_redir, flags_field flags)

unfoldable pub nat_nle : NatStmt → Kind × List Field
nat_nle s = typed_nle s.type s.family s.flags

abbrev pub interval_map : Expr → Bool
interval_map (Expr.map_of len key mappings) = mappings.interval
interval_map _ = false

-- `while (registers > 0)`.
abbrev pub release_all : ℕ → M (Unit {0})
release_all zero = return tt
release_all (suc registers) = drop_register none >> release_all registers

module _ (m : Mpz) where
  module _ (min max : Attr) where
    -- Both ends of a range, each in a register of its own.
    unfoldable pub gen_ends : Expr → Expr → M (ℕ × List Field)
    gen_ends left right = do
      min_reg ← take_register none
      max_reg ← take_register none
      netlink_gen_expr m left min_reg
      netlink_gen_expr m right max_reg
      return (min_reg, sreg min min_reg ∷ sreg max max_reg ∷ [])

    unfoldable pub gen_one : Expr → M (ℕ × List Field)
    gen_one e = do
      reg ← take_register none
      netlink_gen_expr m e reg
      return (reg, sreg min reg ∷ [])

  abbrev pub addr_space : NatStmt → M ℕ
  unfolding nat_addrlen
  addr_space s = lift (nat_addrlen (nat_family s)) >>= λ len. return (netlink_register_space len)

  -- Where a map of intervals puts what stands behind the first address, and the register of that.
  abbrev pub gen_interval_map : NatStmt → Expr → ℕ → M (ℕ × List Field)
  gen_interval_map s e reg =
      if interval_map e
      then (do
        space ← addr_space s
        return (
          reg + space,
          sreg (if s.concat then a_reg_proto_min else a_reg_addr_max) (reg + space) ∷ [],
        ))
      else return (reg, [])

  -- The parts of a concatenation of addresses and ports.
  abbrev pub gen_nat_concat : NatStmt → ℕ → M (List Field)
  gen_nat_concat s amin_reg =
      if s.concat
      then (do
        require (elim s.proto [ none ↦ true | some p ↦ false ])
        space ← addr_space s
        return (
            if s.interval
            then sreg a_reg_addr_max (amin_reg + space)
              ∷ sreg a_reg_proto_max (amin_reg + space + space)
              ∷ []
            else sreg a_reg_proto_min (amin_reg + space) ∷ []))
      else return []

  -- The number of registers taken, and the attributes.
  unfoldable pub gen_nat_addr : NatStmt → Option NatArg → M (ℕ × List Field)
  gen_nat_addr s none = return (0, [])
  gen_nat_addr s (some (NatArg.range left right)) = do
    (reg, ends) ← gen_ends a_reg_addr_min a_reg_addr_max left right
    parts ← gen_nat_concat s reg
    return (2, ends ++ parts)
  gen_nat_addr s (some (NatArg.single e)) = do
    (reg, first) ← gen_one a_reg_addr_min a_reg_addr_max e
    (amin_reg, second) ← gen_interval_map s e reg
    parts ← gen_nat_concat s amin_reg
    return (1, first ++ second ++ parts)

  unfoldable pub gen_nat_proto : Option NatArg → M (ℕ × List Field)
  gen_nat_proto none = return (0, [])
  gen_nat_proto (some (NatArg.range left right)) = do
    (reg, ends) ← gen_ends a_reg_proto_min a_reg_proto_max left right
    return (2, ends)
  gen_nat_proto (some (NatArg.single e)) = do
    (reg, first) ← gen_one a_reg_proto_min a_reg_proto_max e
    return (1, first)

  unfoldable pub netlink_gen_nat_stmt : NatStmt → M (Unit {0})
  netlink_gen_nat_stmt s = do
    (addr_registers, addr_fields) ← gen_nat_addr s s.addr
    (proto_registers, proto_fields) ← gen_nat_proto s.proto
    release_all (addr_registers + proto_registers)
    nft_rule_add_expr (nle (nat_nle s).0 ((nat_nle s).1 ++ addr_fields ++ proto_fields))

  -- An address or a port of a proxy, and whether a register was taken.
  unfoldable pub gen_tproxy_part : Attr → Option Expr → M (ℕ × List Field)
  gen_tproxy_part a none = return (0, [])
  gen_tproxy_part a (some e) = do (reg, field) ← gen_one a a e; return (1, field)

  unfoldable pub netlink_gen_tproxy_stmt : ℕ → Option Expr → Option Expr → M (Unit {0})
  netlink_gen_tproxy_stmt family addr port = do
    (addr_registers, addr_fields) ← gen_tproxy_part a_reg_addr addr
    (port_registers, port_fields) ← gen_tproxy_part a_reg_port port
    release_all (addr_registers + port_registers)
    nft_rule_add_expr (nle k_tproxy (number a_family family ∷ (addr_fields ++ port_fields)))
