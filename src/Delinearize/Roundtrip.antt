-- ===== src/Delinearize/Roundtrip.antt =====
-- What src/netlink_linearize.c writes for an expression that reads a packet is read back.
use nftables.Base.{
  ℕ, ◌+◌, ◌-◌, ◌/◌, ◌%◌, ◌^◌, ◌≤◌, ◌<◌, ◌≡◌, ◌≢◌, ap, true, List, Option, none, some, arith,
}
use native.Mathlib.Nat.{mod-eq_of_lt}
use nftables.Gmp.{Mpz, div_round_up}
use nftables.Registers.{netlink_put_register, netlink_parse_register}
use nftables.Registers.Numbers.{netlink_parse_register-netlink_put_register}
use nftables.Linearize.Syntax.{Leaf, Field}
use nftables.Linearize.Nles.{leaf_kind, leaf_attrs, gen_leaf, bytes_len}
use nftables.Delinearize.Attributes.{
  get_u32, is_set, is_dreg_set, dreg_number, destination_register,
}
use nftables.Delinearize.Context.{Found, Registers}
use nftables.Delinearize.State.{Tables, Parse, set_reg}
use nftables.Delinearize.Registers.{put, netlink_set_register_lem}
use nftables.Delinearize.Stmts.{
  bit_length, payload_base, is_ipopt, is_sctp_chunk, exthdr_init_raw, direction, signed_direction,
  fib_leaf, netlink_parse_payload, netlink_parse_payload_expr, netlink_parse_exthdr, exthdr_leaf,
  netlink_parse_meta, netlink_parse_ct, netlink_parse_socket, netlink_parse_osf, netlink_parse_rt,
  netlink_parse_numgen, netlink_parse_fib, netlink_parse_xfrm,
}
use nftables.Delinearize.Rule.{parse_kind, netlink_parse_expr}

-- Bits that are sent as bytes.
abbrev pub IsWhole : ℕ → Type 0
IsWhole n = (n % 8 ≡ 0) × (n < 2 ^ 32)

-- The options and chunks the program knows, of the five kinds; a DCCP option is only tested to be there.
abbrev pub IsOption : ℕ → ℕ → ℕ → Type 0
IsOption type op flags =
    (op ≤ 4)
    × (op ≡ 2 → is_ipopt type ≡ true)
    × (op ≡ 3 → is_sctp_chunk type ≡ true)
    × (op ≡ 4 → flags ≡ 1)

-- Keys that the tables of meta.c, rt.c, socket.c, ct.c and xfrm.c have, and numbers that fit the types
-- they are kept in.
abbrev pub IsSent : ℕ → Leaf → Type 0
IsSent len (Leaf.payload none base offset) =
    (1 ≤ base) × (base < 2 ^ 32) × (base ≢ 5) × IsWhole offset × IsWhole len
IsSent len (Leaf.payload (some i) base offset) = ⊥
IsSent len (Leaf.meta none key) = key < 37
IsSent len (Leaf.meta (some i) key) = ⊥
IsSent len (Leaf.exthdr type offset op flags) =
    (type < 2 ^ 8) × IsWhole offset × IsWhole len × IsOption type op flags
IsSent len (Leaf.rt key) = key < 5
IsSent len (Leaf.socket key level) = key < 4
IsSent len (Leaf.osf ttl flags) = ttl < 2 ^ 8
IsSent len (Leaf.numgen type mod_by offset) = Unit
IsSent len (Leaf.ct key none) = key < 24
IsSent len (Leaf.ct key (some dir)) = (key < 24) × (dir < 2 ^ 7)
IsSent len (Leaf.fib result flags) = (1 ≤ result) × (result ≤ 3)
IsSent len (Leaf.xfrm key dir spnum) = (key < 7) × (dir < 2 ^ 8) × (spnum < 2 ^ 8)

-- Headers come with their length, other expressions have the one of their key.
abbrev pub leaf_width : Tables → ℕ → Leaf → ℕ
leaf_width t len (Leaf.payload i base offset) = len
leaf_width t len (Leaf.exthdr type offset op flags) = len
leaf_width t len l = t.leaf_len l

bits_back : (n : ℕ) → IsWhole n → bit_length (n / 8) ≡ n
bits_back n h = omega (arith, h.0, h.1)

pub bits_len : (n : ℕ) → IsWhole n → bit_length (bytes_len n) ≡ n
unfolding div_round_up
bits_len n h = omega (arith, h.0, h.1)

base_back :
    (base : ℕ)
    → 1 ≤ base
    → base < 2 ^ 32
    → base ≢ 5
    → payload_base (((base + 2 ^ 32 - 1) % 2 ^ 32 + 1) % 2 ^ 32) ≡ base
base_back base l h n =
    let back : ((base + 2 ^ 32 - 1) % 2 ^ 32 + 1) % 2 ^ 32 ≡ base = omega arith in
    rw back (ground arith)

option_back :
    (type offset op flags : ℕ)
    → IsOption type op flags
    → exthdr_init_raw type offset op flags ≡ some (Leaf.exthdr type offset op flags)
unfolding exthdr_init_raw
option_back type offset op flags (h, ipopt, sctp, dccp) = ground (arith, ipopt, sctp, dccp)

direction_back : (dir : ℕ) → dir < 2 ^ 7 → signed_direction (dir % 2 ^ 8) ≡ some dir
direction_back dir h = ground arith

fib_back :
    (m : Mpz) (t : Tables) (result flags : ℕ)
    → 1 ≤ result
    → result ≤ 3
    → fib_leaf m t result flags ≡ some (Leaf.fib result flags)
fib_back m t result flags l h = ground arith

module _ (m : Mpz) (t : Tables) (u : List Field → Parse → Option Parse) where
  abbrev pub put_reg : Parse → ℕ → Found → Parse
  put_reg ctx reg e = record ctx { regs = put ctx.regs reg e }

  pub put_back :
      (ctx : Parse) (reg : ℕ) (e : Found)
      → 1 ≤ reg
      → reg ≤ 16
      → set_reg (netlink_parse_register (netlink_put_register reg)) e ctx ≡ some (put_reg ctx reg e)
  put_back ctx reg e l h = rw ((netlink_parse_register-netlink_put_register reg h).0) (
      ap (λ (r : Registers). some (record ctx { regs = r }))
        (netlink_set_register_lem ctx.regs reg e l h))

  -- An expression that reads a packet or its metadata, outside a tunnel, is read back into the register
  -- it was written for, with its keys, flags and offsets, where its key is one the program knows, its
  -- numbers fit the types they are sent and kept in, and an option, a chunk or a result is one that does
  -- not stop the program.
  pub netlink_parse_expr-gen_leaf :
      (reg len : ℕ) (l : Leaf) (ctx : Parse)
      → 1 ≤ reg
      → reg ≤ 16
      → IsSent len l
      → netlink_parse_expr m t u (gen_leaf reg len l) ctx
        ≡ some (put_reg ctx reg (Found.leaf (leaf_width t len l) l))
  unfolding netlink_parse_expr gen_leaf leaf_kind leaf_attrs parse_kind destination_register
      dreg_number is_dreg_set direction get_u32 is_set netlink_parse_payload
      netlink_parse_payload_expr netlink_parse_exthdr exthdr_leaf netlink_parse_meta
      netlink_parse_ct netlink_parse_socket netlink_parse_osf netlink_parse_rt netlink_parse_numgen
      netlink_parse_fib netlink_parse_xfrm
  netlink_parse_expr-gen_leaf reg len (Leaf.payload none base offset) ctx a b (c, d, e, f, g) =
      rw (base_back base c d e, bits_back offset f, bits_len len g) (put_back ctx reg _ a b)
  netlink_parse_expr-gen_leaf reg len (Leaf.payload (some i) base offset) ctx a b s = absurd s
  netlink_parse_expr-gen_leaf reg len (Leaf.meta none key) ctx a b s = put_back ctx reg _ a b
  netlink_parse_expr-gen_leaf reg len (Leaf.meta (some i) key) ctx a b s = absurd s
  netlink_parse_expr-gen_leaf reg len (Leaf.exthdr type offset op flags) ctx a b (c, d, e, f) =
      rw (mod-eq_of_lt c, bits_back offset d, bits_len len e, option_back type offset op flags f)
        (put_back ctx reg _ a b)
  netlink_parse_expr-gen_leaf reg len (Leaf.rt key) ctx a b s = put_back ctx reg _ a b
  netlink_parse_expr-gen_leaf reg len (Leaf.socket key level) ctx a b s = put_back ctx reg _ a b
  netlink_parse_expr-gen_leaf reg len (Leaf.osf ttl flags) ctx a b s =
      rw (mod-eq_of_lt s) (put_back ctx reg _ a b)
  netlink_parse_expr-gen_leaf reg len (Leaf.numgen type mod_by offset) ctx a b s =
      put_back ctx reg _ a b
  netlink_parse_expr-gen_leaf reg len (Leaf.ct key none) ctx a b s = put_back ctx reg _ a b
  netlink_parse_expr-gen_leaf reg len (Leaf.ct key (some dir)) ctx a b s =
      rw (direction_back dir s.1) (put_back ctx reg _ a b)
  netlink_parse_expr-gen_leaf reg len (Leaf.fib result flags) ctx a b s =
      rw (fib_back m t result flags s.0 s.1) (put_back ctx reg _ a b)
  netlink_parse_expr-gen_leaf reg len (Leaf.xfrm key dir spnum) ctx a b (k, s, n) =
      rw (mod-eq_of_lt s, mod-eq_of_lt n) (put_back ctx reg _ a b)
