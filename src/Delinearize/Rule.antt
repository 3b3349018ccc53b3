-- ===== src/Delinearize/Rule.antt =====
-- src/netlink_delinearize.c: the table of parsers, and the loop over the instructions of a rule.
use nftables.Base.{◌^◌, ◌%◌, List, [], ◌∷◌, ◌++◌, Option, none, some}
use nftables.Gmp.{Mpz}
use nftables.Linearize.Syntax
use nftables.Linearize.Syntax.{Name, Leaf, Hash, Field, Kind, Nle}
use nftables.Delinearize.Attributes.{get_u32, get_str, destination_register}
use nftables.Delinearize.Exprs.{
  netlink_parse_immediate, netlink_parse_cmp, netlink_parse_lookup, netlink_parse_bitwise,
  netlink_parse_byteorder, netlink_parse_range,
}
use nftables.Delinearize.State.{Tables, FoundStmt, Parse, set_reg, set_stmt}
use nftables.Delinearize.Stmts.{
  sized_leaf, netlink_parse_payload, netlink_parse_exthdr, netlink_parse_hash, netlink_parse_fib,
  netlink_parse_meta, netlink_parse_socket, netlink_parse_osf, netlink_parse_rt,
  netlink_parse_numgen, netlink_parse_xfrm, netlink_parse_ct, netlink_parse_connlimit,
  netlink_parse_counter, netlink_parse_last, netlink_parse_limit, netlink_parse_quota,
  netlink_parse_log, netlink_parse_ports, netlink_parse_dup, netlink_parse_queue,
  netlink_parse_objref,
}

module _ (m : Mpz) (t : Tables) (unmodelled : List Field → Parse → Option Parse) where
  -- The table netlink_parsers. The parsers of nat, tproxy, fwd, dynset and inner are an argument.
  unfoldable pub parse_kind : Kind → List Field → Parse → Option Parse
  unfolding netlink_parse_payload netlink_parse_exthdr netlink_parse_hash netlink_parse_meta
      netlink_parse_ct netlink_parse_ports netlink_parse_dup netlink_parse_queue
      netlink_parse_objref netlink_parse_fib netlink_parse_socket netlink_parse_osf netlink_parse_rt
      netlink_parse_numgen netlink_parse_xfrm netlink_parse_connlimit netlink_parse_counter
      netlink_parse_last netlink_parse_limit netlink_parse_quota netlink_parse_log
  parse_kind Syntax.k_immediate l ctx = netlink_parse_immediate m t ctx l
  parse_kind Syntax.k_cmp l ctx = netlink_parse_cmp m t ctx l
  parse_kind Syntax.k_lookup l ctx = netlink_parse_lookup m t ctx l
  parse_kind Syntax.k_bitwise l ctx = netlink_parse_bitwise m t ctx l
  parse_kind Syntax.k_byteorder l ctx = netlink_parse_byteorder m t ctx l
  parse_kind Syntax.k_payload l ctx = netlink_parse_payload m t ctx l
  parse_kind Syntax.k_exthdr l ctx = netlink_parse_exthdr m t ctx l
  parse_kind Syntax.k_meta l ctx = netlink_parse_meta m t ctx l
  parse_kind Syntax.k_socket l ctx =
      set_reg (destination_register l) (sized_leaf m t (netlink_parse_socket m t l)) ctx
  parse_kind Syntax.k_osf l ctx =
      set_reg (destination_register l) (sized_leaf m t (netlink_parse_osf m t l)) ctx
  parse_kind Syntax.k_rt l ctx =
      set_reg (destination_register l) (sized_leaf m t (netlink_parse_rt m t l)) ctx
  parse_kind Syntax.k_ct l ctx = netlink_parse_ct m t ctx l
  parse_kind Syntax.k_connlimit l ctx =
      set_stmt (FoundStmt.stateful (netlink_parse_connlimit m t l)) ctx
  parse_kind Syntax.k_counter l ctx =
      set_stmt (FoundStmt.stateful (netlink_parse_counter m t l)) ctx
  parse_kind Syntax.k_last l ctx = set_stmt (FoundStmt.stateful (netlink_parse_last m t l)) ctx
  parse_kind Syntax.k_log l ctx = set_stmt (FoundStmt.log (netlink_parse_log m t l)) ctx
  parse_kind Syntax.k_limit l ctx = set_stmt (FoundStmt.stateful (netlink_parse_limit m t l)) ctx
  parse_kind Syntax.k_range l ctx = netlink_parse_range m t ctx l
  parse_kind Syntax.k_reject l ctx =
      set_stmt (FoundStmt.reject (get_u32 Syntax.a_type l) (get_u32 Syntax.a_code l % 2 ^ 8)) ctx
  parse_kind Syntax.k_notrack l ctx = set_stmt FoundStmt.notrack ctx
  parse_kind Syntax.k_masq l ctx = netlink_parse_ports m t Syntax.k_masq ctx l
  parse_kind Syntax.k_redir l ctx = netlink_parse_ports m t Syntax.k_redir ctx l
  parse_kind Syntax.k_dup l ctx = netlink_parse_dup m t ctx l
  parse_kind Syntax.k_queue l ctx = netlink_parse_queue m t ctx l
  parse_kind Syntax.k_objref l ctx = netlink_parse_objref m t ctx l
  parse_kind Syntax.k_quota l ctx = set_stmt (FoundStmt.stateful (netlink_parse_quota m t l)) ctx
  parse_kind Syntax.k_numgen l ctx =
      set_reg (destination_register l) (sized_leaf m t (netlink_parse_numgen m t l)) ctx
  parse_kind Syntax.k_hash l ctx = netlink_parse_hash m t ctx l
  parse_kind Syntax.k_fib l ctx = netlink_parse_fib m t ctx l
  parse_kind Syntax.k_flow_offload l ctx =
      set_stmt (FoundStmt.flow_offload (get_str Syntax.a_table_name l)) ctx
  parse_kind Syntax.k_xfrm l ctx =
      set_reg (destination_register l) (sized_leaf m t (netlink_parse_xfrm m t l)) ctx
  parse_kind Syntax.k_synproxy l ctx =
      set_stmt
        (FoundStmt.synproxy (get_u32 Syntax.a_mss l % 2 ^ 16) (get_u32 Syntax.a_wscale l % 2 ^ 8)
          (get_u32 Syntax.a_flags l))
        ctx
  parse_kind _ l ctx = unmodelled l ctx

  unfoldable pub netlink_parse_expr : Nle → Parse → Option Parse
  unfolding parse_kind
  netlink_parse_expr nle ctx = parse_kind nle.kind nle.fields ctx

  -- The statement that was found is appended to the rule.
  abbrev pub append_found : Parse → Parse
  append_found ctx = elim ctx.stmt [
    | none ↦ ctx
    | some s ↦ record ctx { stmt = none; rule = ctx.rule ++ s ∷ [] }
  ]

  abbrev pub append_all : Option Parse → Option Parse
  append_all none = none
  append_all (some ctx) = some (append_found ctx)

  unfoldable pub netlink_parse_rule_expr : Nle → Parse → Option Parse
  unfolding netlink_parse_expr
  netlink_parse_rule_expr nle ctx = append_all (netlink_parse_expr nle ctx)

  -- nftnl_expr_foreach.
  abbrev pub then_parse : Option Parse → (Parse → Option Parse) → Option Parse
  then_parse none go = none
  then_parse (some ctx) go = go ctx

  unfoldable pub parse_exprs : List Nle → Parse → Option Parse
  unfolding netlink_parse_rule_expr
  parse_exprs [] ctx = some ctx
  parse_exprs (nle ∷ nlr) ctx = then_parse (netlink_parse_rule_expr nle ctx) (parse_exprs nlr)
