-- ===== src/Delinearize/Stmts.antt =====
-- src/netlink_delinearize.c: expressions that read a packet, and statements.
use nftables.Base.{
  ℕ, ◌+◌, ◌-◌, ◌*◌, ◌^◌, ◌%◌, Bool, ◌||◌, List, [], ◌∷◌, ◌++◌, Option, none, some, ltb, ◌==◌,
  if◌then◌else◌,
}
use nftables.Gmp.{Mpz, Byteorder}
use nftables.Linearize.Syntax
use nftables.Linearize.Syntax.{Name, Leaf, Hash, Field, Kind, Nle}
use nftables.Linearize.Fields.{Stateful, Log}
use nftables.Delinearize.Attributes.{
  get_u32, is_set, is_dreg_set, get_data, get_str, get_set_name, source_register,
  destination_register,
}
use nftables.Delinearize.Context.{
  Found, Error, no_left_side, no_expression, unknown_set, unknown_objref,
}
use nftables.Delinearize.Exprs.{netlink_alloc_value}
use nftables.Delinearize.State.{
  Tables, FoundStmt, Parse, fail, set_reg, set_stmt, with_register, with_length, with_leaf,
}

-- rule_stmt_append.
abbrev pub append_stmt : FoundStmt → Parse → Option Parse
append_stmt s ctx = some (record ctx { rule = ctx.rule ++ s ∷ [] })

-- NFT_PAYLOAD_TUN_HEADER reads as NFT_PAYLOAD_INNER_HEADER.
abbrev pub payload_base : ℕ → ℕ
payload_base base = if base == 4 + 1 then 3 + 1 else base

abbrev pub bit_length : ℕ → ℕ
bit_length n = n * 8 % 2 ^ 32

-- A direction as it stands in an int8_t: below 0 it is not there, as where it is not set and is -1.
abbrev pub signed_direction : ℕ → Option ℕ
signed_direction octet = if ltb octet 128 then some octet else none

unfoldable pub direction : List Field → Option ℕ
direction l =
    if is_set Syntax.a_dir l then signed_direction (get_u32 Syntax.a_dir l % 2 ^ 8) else none

-- ipopt_protocols of src/ipopt.c: IPOPT_RR, IPOPT_LSRR, IPOPT_SSRR and IPOPT_RA.
abbrev pub is_ipopt : ℕ → Bool
is_ipopt type = type == 7 || type == 131 || type == 137 || type == 148

-- sctp_chunk_protocols of src/sctp_chunk.c: an array of 194 chunks, with gaps.
abbrev pub is_sctp_chunk : ℕ → Bool
is_sctp_chunk type = ltb type 15 || type == 128 || type == 192 || type == 193

-- exthdr_init_raw, with ipopt_init_raw, tcpopt_init_raw, sctp_chunk_init_raw and dccpopt_init_raw: the
-- fields that are sent. An operation that is none of theirs is not stored and stays
-- NFT_EXTHDR_OP_IPV6, which is 0. An IPv4 option and an SCTP chunk that their arrays leave out stop the
-- program; a chunk beyond the array does not. DCCP options are NFT_EXTHDR_F_PRESENT.
unfoldable pub exthdr_init_raw : ℕ → ℕ → ℕ → ℕ → Option Leaf
exthdr_init_raw type offset op flags =
    if op == 1
    then some (Leaf.exthdr type offset 1 flags)
    else if op == 2
    then if is_ipopt type then some (Leaf.exthdr type offset 2 flags) else none
    else if op == 3
    then if is_sctp_chunk type || ltb 193 type then some (Leaf.exthdr type offset 3 flags) else none
    else if op == 4
    then some (Leaf.exthdr type offset 4 1)
    else some (Leaf.exthdr type offset 0 flags)

abbrev pub hash_seed : List Field → Option ℕ
hash_seed l = if is_set Syntax.a_seed l then some (get_u32 Syntax.a_seed l) else none

module _ (m : Mpz) (t : Tables) where
  abbrev pub sized_leaf : Leaf → Found
  sized_leaf e = Found.leaf (t.leaf_len e) e

  unfoldable pub netlink_parse_payload_expr : List Field → Found
  netlink_parse_payload_expr l = Found.leaf (bit_length (get_u32 Syntax.a_len l)) (
      Leaf.payload none (payload_base ((get_u32 Syntax.a_base l + 1) % 2 ^ 32))
        (bit_length (get_u32 Syntax.a_offset l)))

  -- Outside a tunnel. A statement does not look at NFT_PAYLOAD_TUN_HEADER.
  unfoldable pub netlink_parse_payload : Parse → List Field → Option Parse
  unfolding netlink_parse_payload_expr
  netlink_parse_payload ctx l =
      if is_dreg_set l
      then set_reg (destination_register l) (netlink_parse_payload_expr l) ctx
      else with_register (source_register Syntax.a_sreg l) no_expression ctx (λ val.
        append_stmt
          (FoundStmt.payload ((get_u32 Syntax.a_base l + 1) % 2 ^ 32)
            (bit_length (get_u32 Syntax.a_offset l)) (bit_length (get_u32 Syntax.a_len l)) val)
          ctx)

  unfoldable pub exthdr_leaf : List Field → Option Leaf
  unfolding exthdr_init_raw
  exthdr_leaf l =
      exthdr_init_raw (get_u32 Syntax.a_type l % 2 ^ 8) (bit_length (get_u32 Syntax.a_offset l))
        (get_u32 Syntax.a_op l) (get_u32 Syntax.a_flags l)

  unfoldable pub netlink_parse_exthdr : Parse → List Field → Option Parse
  unfolding exthdr_leaf
  netlink_parse_exthdr ctx l =
      let len = bit_length (get_u32 Syntax.a_len l) in
      with_leaf (exthdr_leaf l) (λ e.
        if is_dreg_set l
        then set_reg (destination_register l) (Found.leaf len e) ctx
        else if is_set Syntax.a_sreg l
        then with_register (source_register Syntax.a_sreg l) no_expression ctx
            (λ val. append_stmt (FoundStmt.exthdr len e val) ctx)
        else append_stmt (FoundStmt.optstrip len e) ctx)

  unfoldable pub parse_hash : List Field → Hash
  parse_hash l = record {
    mod_by = get_u32 Syntax.a_modulus l;
    seed = hash_seed l;
    offset = get_u32 Syntax.a_offset l;
    type = get_u32 Syntax.a_type l;
  }

  -- NFT_HASH_SYM is 1.
  unfoldable pub netlink_parse_hash : Parse → List Field → Option Parse
  unfolding parse_hash
  netlink_parse_hash ctx l =
      if get_u32 Syntax.a_type l == 1
      then set_reg (destination_register l) (Found.symhash (parse_hash l)) ctx
      else with_register (source_register Syntax.a_sreg l) no_expression ctx (λ e.
        with_length (bit_length (get_u32 Syntax.a_len l)) (source_register Syntax.a_sreg l) e ctx
          (λ whole. set_reg (destination_register l) (Found.jhash (parse_hash l) whole) ctx))

  -- fib_expr_alloc stops at a result that is not NFT_FIB_RESULT_OIF, NFT_FIB_RESULT_OIFNAME or
  -- NFT_FIB_RESULT_ADDRTYPE, which are 1, 2 and 3.
  abbrev pub fib_leaf : ℕ → ℕ → Option Leaf
  fib_leaf result flags =
      if result == 1 || result == 2 || result == 3 then some (Leaf.fib result flags) else none

  unfoldable pub netlink_parse_fib : Parse → List Field → Option Parse
  netlink_parse_fib ctx l =
      with_leaf (fib_leaf (get_u32 Syntax.a_result l) (get_u32 Syntax.a_flags l))
        (λ e. set_reg (destination_register l) (sized_leaf e) ctx)

  unfoldable pub netlink_parse_meta : Parse → List Field → Option Parse
  netlink_parse_meta ctx l =
      if is_dreg_set l
      then set_reg (destination_register l) (sized_leaf (Leaf.meta none (get_u32 Syntax.a_key l)))
          ctx
      else with_register (source_register Syntax.a_sreg l) no_expression ctx
          (λ e. set_stmt (FoundStmt.meta (get_u32 Syntax.a_key l) e) ctx)

  unfoldable pub netlink_parse_socket : List Field → Leaf
  netlink_parse_socket l = Leaf.socket (get_u32 Syntax.a_key l) (get_u32 Syntax.a_level l)

  unfoldable pub netlink_parse_osf : List Field → Leaf
  netlink_parse_osf l = Leaf.osf (get_u32 Syntax.a_ttl l % 2 ^ 8) (get_u32 Syntax.a_flags l)

  unfoldable pub netlink_parse_rt : List Field → Leaf
  netlink_parse_rt l = Leaf.rt (get_u32 Syntax.a_key l)

  unfoldable pub netlink_parse_numgen : List Field → Leaf
  netlink_parse_numgen l =
      Leaf.numgen (get_u32 Syntax.a_type l) (get_u32 Syntax.a_modulus l) (get_u32 Syntax.a_offset l)

  -- xfrm_expr_alloc takes a direction and a number of 8 bits.
  unfoldable pub netlink_parse_xfrm : List Field → Leaf
  netlink_parse_xfrm l =
      Leaf.xfrm (get_u32 Syntax.a_key l) (get_u32 Syntax.a_dir l % 2 ^ 8)
        (get_u32 Syntax.a_spnum l % 2 ^ 8)

  unfoldable pub netlink_parse_ct : Parse → List Field → Option Parse
  unfolding direction
  netlink_parse_ct ctx l =
      if is_dreg_set l
      then set_reg (destination_register l)
          (sized_leaf (Leaf.ct (get_u32 Syntax.a_key l) (direction l))) ctx
      else with_register (source_register Syntax.a_sreg l) no_expression ctx
          (λ e. set_stmt (FoundStmt.ct (get_u32 Syntax.a_key l) (direction l) e) ctx)

  unfoldable pub netlink_parse_connlimit : List Field → Stateful
  netlink_parse_connlimit l =
      Stateful.connlimit (get_u32 Syntax.a_count l) (get_u32 Syntax.a_flags l)

  unfoldable pub netlink_parse_counter : List Field → Stateful
  netlink_parse_counter l = Stateful.counter (get_u32 Syntax.a_packets l) (get_u32 Syntax.a_bytes l)

  unfoldable pub netlink_parse_last : List Field → Stateful
  netlink_parse_last l = Stateful.last (get_u32 Syntax.a_set l) (get_u32 Syntax.a_msecs l)

  unfoldable pub netlink_parse_limit : List Field → Stateful
  netlink_parse_limit l =
      Stateful.limit (get_u32 Syntax.a_rate l) (get_u32 Syntax.a_unit l) (get_u32 Syntax.a_type l)
        (get_u32 Syntax.a_burst l) (get_u32 Syntax.a_flags l)

  unfoldable pub netlink_parse_quota : List Field → Stateful
  netlink_parse_quota l =
      Stateful.quota (get_u32 Syntax.a_bytes l) (get_u32 Syntax.a_consumed l)
        (get_u32 Syntax.a_flags l)

  -- What is not set stays 0, as it was allocated.
  unfoldable pub netlink_parse_log : List Field → Log
  netlink_parse_log l = record {
    prefix = if is_set Syntax.a_prefix l then some (get_str Syntax.a_prefix l) else none;
    has_group = is_set Syntax.a_group l;
    has_snaplen = is_set Syntax.a_snaplen l;
    has_qthreshold = is_set Syntax.a_qthreshold l;
    has_level = is_set Syntax.a_level l;
    group = get_u32 Syntax.a_group l % 2 ^ 16;
    snaplen = get_u32 Syntax.a_snaplen l;
    qthreshold = get_u32 Syntax.a_qthreshold l % 2 ^ 16;
    level = get_u32 Syntax.a_level l;
    logflags = get_u32 Syntax.a_flags l;
  }

  -- An operand that is there where the register is not 0.
  abbrev pub optional_register : ℕ → Error → Parse → (Option Found → Option Parse) → Option Parse
  optional_register reg e ctx go =
      if reg == 0 then go none else with_register reg e ctx (λ x. go (some x))

  -- netlink_parse_masq and netlink_parse_redir: the second port is there where its register is another
  -- one.
  unfoldable pub netlink_parse_ports : Kind → Parse → List Field → Option Parse
  netlink_parse_ports kind ctx l =
      let reg1 = source_register Syntax.a_reg_proto_min l in
      let reg2 = source_register Syntax.a_reg_proto_max l in
      optional_register reg1 no_expression ctx (λ low.
        optional_register (if reg2 == reg1 then 0 else reg2) no_expression ctx
          (λ high. set_stmt (FoundStmt.ports kind (get_u32 Syntax.a_flags l) low high) ctx))

  abbrev pub dup_stmt : Option Found → Option Found → FoundStmt
  dup_stmt none dev = FoundStmt.dup dev none
  dup_stmt (some a) dev = FoundStmt.dup (some a) dev

  -- Without an address the device is what the packet goes to.
  unfoldable pub netlink_parse_dup : Parse → List Field → Option Parse
  netlink_parse_dup ctx l =
      optional_register (source_register Syntax.a_sreg_addr l) no_expression ctx (λ addr.
        optional_register (source_register Syntax.a_sreg_dev l) no_expression ctx
          (λ dev. set_stmt (dup_stmt addr dev) ctx))

  -- `total`, an uint16_t, becomes the last queue of a range.
  unfoldable pub netlink_parse_queue : Parse → List Field → Option Parse
  netlink_parse_queue ctx l =
      let flags = get_u32 Syntax.a_flags l % 2 ^ 16 in
      let total = get_u32 Syntax.a_total l % 2 ^ 16 in
      let num = get_u32 Syntax.a_num l % 2 ^ 16 in
      if is_set Syntax.a_sreg_qnum l
      then with_register (source_register Syntax.a_sreg_qnum l) no_expression ctx
          (λ e. set_stmt (FoundStmt.queue_of flags e) ctx)
      else set_stmt
          (FoundStmt.queue flags
            (record { value = num; byteorder = Byteorder.host_endian; len = 16 })
            (if ltb 1 total
              then some (record {
                value = (total + num + 2 ^ 16 - 1) % 2 ^ 16;
                byteorder = Byteorder.host_endian;
                len = 16;
              })
              else none))
          ctx

  -- The name of an object, or a map of them. The register is not put by netlink_put_register.
  unfoldable pub netlink_parse_objref : Parse → List Field → Option Parse
  netlink_parse_objref ctx l =
      if is_set Syntax.a_imm_name l
      then set_stmt
          (FoundStmt.objref (get_u32 Syntax.a_imm_type l)
            (record (netlink_alloc_value m t (get_data Syntax.a_imm_name l)) {
              byteorder = Byteorder.host_endian;
            }))
          ctx
      else if is_set Syntax.a_set_sreg l
      then elim (t.find_set (get_set_name l)) [
        | none ↦ fail (unknown_set (get_set_name l)) ctx
        | some set ↦ with_register (source_register Syntax.a_set_sreg l) no_left_side ctx (λ left.
            with_length set.key_len (source_register Syntax.a_set_sreg l) left ctx
              (λ key. set_stmt (FoundStmt.objref_map key set) ctx))
      ]
      else fail unknown_objref ctx
