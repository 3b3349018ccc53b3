-- ===== src/Linearize/Nles.antt =====
-- The instructions that src/netlink_linearize.c puts together for expressions.
use nftables.Base.{
  ℕ, Bool, ◌||◌, length, ltb, take, ◌+◌, ◌-◌, ◌/◌, ◌%◌, ◌^◌, List, [], ◌∷◌, ◌++◌, map, Option, none,
  some, ◌==◌, if◌then◌else◌,
}
use nftables.Gmp.{Mpz, Byteorder, div_round_up}
use nftables.Linearize.Syntax.{
  Verdict, RelOp, CmpOp, cmp_eq, cmp_neq, cmp_lt, cmp_lte, cmp_gt, cmp_gte, Inner, Leaf, Kind,
  k_fib, k_payload, k_meta, k_inner, k_exthdr, k_rt, k_socket, k_osf, k_numgen, k_ct, k_cmp,
  k_bitwise, k_xfrm, Attr, a_base, a_offset, a_len, a_key, a_type, a_op, a_flags, a_level, a_ttl,
  a_modulus, a_dir, a_result, a_spnum, a_hdrsize, a_data, a_mask, a_xor, a_verdict, a_chain,
  a_chain_id, a_sreg, a_expr, Name, Field, sreg, dreg, number, bytes, text, nested, Nle,
}

abbrev pub nle : Kind → List Field → Nle
nle kind fields = record { kind = kind; fields = fields }

abbrev pub number_if : Attr → Option ℕ → List Field
number_if a none = []
number_if a (some n) = number a n ∷ []

abbrev pub bytes_len : ℕ → ℕ
bytes_len len = div_round_up len 8

-- The attributes of an expression that reads a packet, without the register.
unfoldable pub leaf_kind : Leaf → Kind
leaf_kind (Leaf.payload i base offset) = k_payload
leaf_kind (Leaf.meta i key) = k_meta
leaf_kind (Leaf.exthdr type offset op flags) = k_exthdr
leaf_kind (Leaf.rt key) = k_rt
leaf_kind (Leaf.socket key level) = k_socket
leaf_kind (Leaf.osf ttl flags) = k_osf
leaf_kind (Leaf.numgen type mod_by offset) = k_numgen
leaf_kind (Leaf.ct key dir) = k_ct
leaf_kind (Leaf.fib result flags) = k_fib
leaf_kind (Leaf.xfrm key dir spnum) = k_xfrm

-- The subtraction of 1 is one of `unsigned int`.
abbrev payload_attrs : ℕ → ℕ → ℕ → List (Attr × ℕ)
payload_attrs len base offset =
    (a_base, (base + 2 ^ 32 - 1) % 2 ^ 32) ∷ (a_offset, offset / 8) ∷ (a_len, bytes_len len) ∷ []

abbrev dir_attr : Option ℕ → List (Attr × ℕ)
dir_attr none = []
dir_attr (some dir) = (a_dir, dir) ∷ []

unfoldable pub leaf_attrs : ℕ → Leaf → List (Attr × ℕ)
leaf_attrs len (Leaf.payload i base offset) = payload_attrs len base offset
leaf_attrs len (Leaf.meta i key) = (a_key, key) ∷ []
leaf_attrs len (Leaf.exthdr type offset op flags) =
    (a_type, type)
    ∷ (a_offset, offset / 8)
    ∷ (a_len, bytes_len len)
    ∷ (a_op, op)
    ∷ (a_flags, flags)
    ∷ []
leaf_attrs len (Leaf.rt key) = (a_key, key) ∷ []
leaf_attrs len (Leaf.socket key level) = (a_key, key) ∷ (a_level, level) ∷ []
leaf_attrs len (Leaf.osf ttl flags) = (a_ttl, ttl) ∷ (a_flags, flags) ∷ []
leaf_attrs len (Leaf.numgen type mod_by offset) =
    (a_type, type) ∷ (a_modulus, mod_by) ∷ (a_offset, offset) ∷ []
leaf_attrs len (Leaf.ct key dir) = (a_key, key) ∷ dir_attr dir
leaf_attrs len (Leaf.fib result flags) = (a_result, result) ∷ (a_flags, flags) ∷ []
leaf_attrs len (Leaf.xfrm key dir spnum) = (a_key, key) ∷ (a_dir, dir) ∷ (a_spnum, spnum) ∷ []

-- NFT_PAYLOAD_INNER_HEADER becomes NFT_PAYLOAD_TUN_HEADER inside a tunnel.
abbrev tun_base : ℕ → ℕ
tun_base base = if base == 3 + 1 then 4 + 1 else base

abbrev inner_attrs : Inner → List Field
inner_attrs i = number a_hdrsize i.hdrsize ∷ number a_flags i.flags ∷ number a_type i.type ∷ []

-- The register of the nested expression is its attribute DREG.
unfoldable pub gen_leaf : ℕ → ℕ → Leaf → Nle
unfolding leaf_kind leaf_attrs
gen_leaf reg len (Leaf.payload (some i) base offset) =
    nle k_inner (
      dreg reg ∷ nested a_expr k_payload (payload_attrs len (tun_base base) offset) ∷ inner_attrs i)
gen_leaf reg len (Leaf.meta (some i) key) =
    nle k_inner (dreg reg ∷ nested a_expr k_meta ((a_key, key) ∷ []) ∷ inner_attrs i)
gen_leaf reg len l = nle (leaf_kind l) (dreg reg ∷ map (λ a. number a.0 a.1) (leaf_attrs len l))

-- netlink_gen_raw_data asserts that there is a byte. Its array has 64 of them, which the model does not
-- bound.
unfoldable pub raw_data : Mpz → Byteorder → ℕ → ℕ → Option (List ℕ)
raw_data m order len v = if len == 0 then none else some (m.export order len v)

unfoldable pub netlink_gen_cmp_op : RelOp → Option CmpOp
netlink_gen_cmp_op RelOp.op_eq = some cmp_eq
netlink_gen_cmp_op RelOp.op_implicit = some cmp_eq
netlink_gen_cmp_op RelOp.op_neq = some cmp_neq
netlink_gen_cmp_op RelOp.op_lt = some cmp_lt
netlink_gen_cmp_op RelOp.op_gt = some cmp_gt
netlink_gen_cmp_op RelOp.op_lte = some cmp_lte
netlink_gen_cmp_op RelOp.op_gte = some cmp_gte
netlink_gen_cmp_op RelOp.op_neg = none

abbrev pub cmp_number : CmpOp → ℕ
cmp_number cmp_eq = 0
cmp_number cmp_neq = 1
cmp_number cmp_lt = 2
cmp_number cmp_lte = 3
cmp_number cmp_gt = 4
cmp_number cmp_gte = 5

abbrev pub cmp : ℕ → CmpOp → List ℕ → Nle
cmp reg op data_bytes =
    nle k_cmp (sreg a_sreg reg ∷ number a_op (cmp_number op) ∷ bytes a_data data_bytes ∷ [])

abbrev pub bitwise : ℕ → ℕ → List ℕ → List ℕ → Nle
bitwise reg len mask xor =
    nle k_bitwise
      (sreg a_sreg reg ∷ dreg reg ∷ number a_len len ∷ bytes a_mask mask ∷ bytes a_xor xor ∷ [])

-- NFT_JUMP and NFT_GOTO, as the numbers of type `uint32_t` that are put.
abbrev pub is_jump : ℕ → Bool
is_jump verdict = verdict == 2 ^ 32 - 3 || verdict == 2 ^ 32 - 4

-- The buffer of the name has NFT_CHAIN_MAXNAMELEN bytes, the last one for the NUL.
unfoldable pub netlink_gen_chain : Name → Option Name
netlink_gen_chain name =
    if length name == 0 || ltb 256 (length name) then none else some (take 255 name)

-- Other verdicts leave the name empty and the identifier 0.
unfoldable pub chain_field : Verdict → Option (List Field)
unfolding netlink_gen_chain
chain_field v = elim v.chain [
  | some name ↦
      if is_jump v.verdict
      then elim (netlink_gen_chain name) [ none ↦ none | some n ↦ some (text a_chain n ∷ []) ]
      else some (text a_chain [] ∷ [])
  | none ↦ some (
      if v.chain_id == 0
      then []
      else number a_chain_id (if is_jump v.verdict then v.chain_id else 0) ∷ [])
]

abbrev with_verdict : ℕ → Option (List Field) → Option (List Field)
with_verdict verdict none = none
with_verdict verdict (some fields) = some (fields ++ number a_verdict verdict ∷ [])

unfoldable pub gen_verdict_fields : Verdict → Option (List Field)
unfolding chain_field
gen_verdict_fields v = with_verdict v.verdict (chain_field v)
