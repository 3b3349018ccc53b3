-- ===== src/NetlinkData/Keys.antt =====
-- The keys of set elements, src/netlink.c: prefixes, and concatenations, in which integers in host byte
-- order are switched in place. Bytes of an array that is not cleared are `junk`.
use nftables.Base.{
  ℕ, ◌+◌, ◌-◌, ◌*◌, ◌/◌, Bool, true, false, ◌&&◌, List, [], ◌∷◌, Option, none, some, take, ltb,
  if◌then◌else◌,
}
use nftables.Gmp.{Mpz, Byteorder, mpz_bitmask, mpz_switch_byteorder, div_round_up}
use nftables.Expr.{ValueExpr}
use nftables.NetlinkData.{
  PrefixExpr, ◌>>=◌, zeros, netlink_padded_len, nft_data_memcpy, netlink_export_pad, export_value,
}

-- A value, and whether its type stands on TYPE_INTEGER.
pub record KeyValue : Type 0 where
  pub expr : ValueExpr
  pub integer : Bool

pub data KeyPart : Type 0 where
  range : KeyValue → KeyValue → KeyPart
  prefix : PrefixExpr → KeyPart
  value : KeyValue → KeyPart

-- EXPR_F_INTERVAL_END and EXPR_F_INTERVAL of the concatenation.
pub record KeyFlags : Type 0 where
  pub interval_end : Bool
  pub interval : Bool

abbrev is_host_endian : Byteorder → Bool
is_host_endian Byteorder.host_endian = true
is_host_endian _ = false

module _ (m : Mpz) where
  unfoldable pub byteorder_switch_expr_value : ℕ → ℕ → ℕ
  unfolding mpz_switch_byteorder div_round_up
  byteorder_switch_expr_value len v = mpz_switch_byteorder m v (div_round_up len 8)

  -- The value as it is afterwards.
  unfoldable pub switch_integer : KeyValue → KeyValue
  unfolding byteorder_switch_expr_value
  switch_integer v =
      if v.integer && is_host_endian v.expr.byteorder
      then record v {
        expr = record v.expr { value = byteorder_switch_expr_value v.expr.len v.expr.value };
      }
      else v

  -- The end of a prefix.
  unfoldable pub prefix_end : PrefixExpr → ℕ
  unfolding byteorder_switch_expr_value
  prefix_end i =
      let host = mpz_bitmask (i.len - i.prefix_len) in
      i.prefix.value
      + (if is_host_endian i.byteorder then byteorder_switch_expr_value i.len host else host)

  -- How far the next part is away, the array, and the part as it is afterwards.
  unfoldable pub __netlink_gen_concat_key :
      KeyFlags → KeyPart → List ℕ → ℕ → Option (ℕ × List ℕ × KeyPart)
  unfolding switch_integer prefix_end
  __netlink_gen_concat_key flags (KeyPart.range left right) buffer offset =
      let left' = if flags.interval_end then left else switch_integer left in
      let right' = if flags.interval_end then switch_integer right else right in
      do
        (step, buffer') ←
            export_value m buffer offset (if flags.interval_end then right'.expr else left'.expr)
        some (step, buffer', KeyPart.range left' right')
  __netlink_gen_concat_key flags (KeyPart.prefix i) buffer offset = do
    (step, buffer') ←
        netlink_export_pad m buffer offset
          (if flags.interval_end then prefix_end i else i.prefix.value) i.byteorder i.len
    some (step, buffer', KeyPart.prefix i)
  __netlink_gen_concat_key flags (KeyPart.value v) buffer offset =
      let v' = if flags.interval then switch_integer v else v in
      do
        (step, buffer') ← export_value m buffer offset v'.expr
        some (step, buffer', KeyPart.value v')

  unfoldable pub gen_key_parts :
      KeyFlags → List KeyPart → List ℕ → ℕ → Option (List ℕ × List KeyPart)
  unfolding __netlink_gen_concat_key
  gen_key_parts flags [] buffer offset = some (buffer, [])
  gen_key_parts flags (i ∷ parts) buffer offset = do
    (step, buffer', i') ← __netlink_gen_concat_key flags i buffer offset
    (buffer'', parts') ← gen_key_parts flags parts buffer' (offset + step)
    some (buffer'', i' ∷ parts')

  unfoldable pub netlink_gen_concat_key :
      KeyFlags → ℕ → List KeyPart → Option (List ℕ × List KeyPart)
  unfolding gen_key_parts
  netlink_gen_concat_key flags len parts = do
    (buffer, parts') ← gen_key_parts flags parts (zeros (len / 8)) 0
    data_bytes ← nft_data_memcpy buffer
    some (data_bytes, parts')

  -- The array of NFT_MAX_EXPR_LEN_BYTES is not cleared.
  unfoldable pub netlink_gen_prefix : List ℕ → PrefixExpr → Option (List ℕ)
  unfolding netlink_padded_len
  netlink_gen_prefix junk i =
      let len = netlink_padded_len i.len / 8 * 2 in
      if ltb 64 len then none else (do
        (offset, buffer) ← netlink_export_pad m junk 0 i.prefix.value i.byteorder i.len
        (step, buffer') ←
            netlink_export_pad m buffer offset (i.prefix.value + mpz_bitmask (i.len - i.prefix_len))
              i.prefix.byteorder i.prefix.len
        nft_data_memcpy (take len buffer'))
