-- ===== src/Tests/NetlinkData.antt =====
-- A concatenation of a port and an address, and ranges of ports and addresses.
use nftables.Base.{
  ℕ, false, ◌/◌, ◌%◌, ◌-◌, ◌≤◌, ◌≡◌, ◌≢◌, refl, not, ◌==◌, List, [], ◌∷◌, ◌++◌, none, some, All,
  arith, zero, suc, true, map, ◌+◌, ◌*◌, ◌^◌, ◌<◌,
}
use nftables.Gmp.{mpz_bitmask, mpz_switch_byteorder, Byteorder, div_round_up}
use nftables.Expr.{ValueExpr}
use nftables.Registers.{netlink_register_space}
use nftables.NetlinkData.{
  PrefixExpr, Part, zeros, write_at, netlink_padded_len, netlink_export_pad, export_value,
  nft_data_memcpy, __netlink_gen_concat_data, gen_parts, __netlink_gen_concat, netlink_gen_range,
}
use nftables.NetlinkData.Layout.{
  bytes_of, slots, slots_len, chosen, IsSized, __netlink_gen_concat_lem, netlink_gen_range_lem,
}
use nftables.NetlinkData.Keys.{
  KeyValue, KeyPart, KeyFlags, byteorder_switch_expr_value, switch_integer, prefix_end,
  __netlink_gen_concat_key, gen_key_parts, netlink_gen_concat_key, netlink_gen_prefix,
}
use nftables.NetlinkData.KeyLayout.{
  switched, key_slots, key_len, IsKeySized, netlink_gen_concat_key_lem, netlink_gen_prefix_lem,
}
use nftables.Tests.Library.{test_mpz, reads_back}

abbrev port : ValueExpr
port = record { value = 8080; byteorder = Byteorder.big_endian; len = 16 }

abbrev address : ValueExpr
address = record { value = 3232235777; byteorder = Byteorder.big_endian; len = 32 }

abbrev next_address : ValueExpr
next_address = record { value = 3232235778; byteorder = Byteorder.big_endian; len = 32 }

abbrev parts : List Part
parts = Part.value port ∷ Part.value address ∷ []

concat_run :
    __netlink_gen_concat test_mpz 0 64 parts ≡ some (31 ∷ 144 ∷ 0 ∷ 0 ∷ 192 ∷ 168 ∷ 1 ∷ 1 ∷ [])
unfolding __netlink_gen_concat gen_parts __netlink_gen_concat_data export_value netlink_export_pad
    write_at netlink_padded_len netlink_register_space div_round_up nft_data_memcpy
concat_run = refl

-- The second port of a range would be written behind the array.
port_range_run : netlink_gen_range test_mpz port port ≡ none
unfolding netlink_gen_range export_value netlink_export_pad write_at netlink_padded_len
    netlink_register_space div_round_up nft_data_memcpy
port_range_run = refl

sized : All (λ p. IsSized (chosen (not (0 == 0)) p)) parts
unfolding div_round_up
sized = (omega arith, (omega arith, tt))

fits : slots_len test_mpz (not (0 == 0)) parts ≤ 64 / 8
unfolding netlink_padded_len netlink_register_space div_round_up
fits = omega arith

__netlink_gen_concat_lem_example :
    __netlink_gen_concat test_mpz 0 64 parts
    ≡ some (
        slots test_mpz (not (0 == 0)) parts
        ++ zeros (64 / 8 - slots_len test_mpz (not (0 == 0)) parts))
__netlink_gen_concat_lem_example =
    __netlink_gen_concat_lem test_mpz 0 64 parts sized fits (omega arith)

address-IsSized : IsSized address
unfolding div_round_up
address-IsSized = omega arith

next_address-IsSized : IsSized next_address
unfolding div_round_up
next_address-IsSized = omega arith

small : bytes_of address ≤ 32
unfolding div_round_up
small = omega arith

netlink_gen_range_lem_example :
    (bytes_of address % 4 ≡ 0
      → netlink_gen_range test_mpz address next_address
        ≡ some (
            test_mpz.export Byteorder.big_endian (bytes_of address) 3232235777
            ++ test_mpz.export Byteorder.big_endian (bytes_of next_address) 3232235778))
    × (bytes_of address % 4 ≢ 0 → netlink_gen_range test_mpz address next_address ≡ none)
netlink_gen_range_lem_example =
    netlink_gen_range_lem test_mpz address next_address refl address-IsSized next_address-IsSized
      small

-- A mark of the host and an address block, as the key of an element of an interval set.
abbrev mark : KeyValue
mark = record {
  expr = record { value = 7; byteorder = Byteorder.host_endian; len = 32 };
  integer = true;
}

abbrev block : PrefixExpr
block = record {
  prefix = record { value = 167772160; byteorder = Byteorder.big_endian; len = 32 };
  byteorder = Byteorder.big_endian;
  len = 32;
  prefix_len = 8;
}

abbrev last_key : KeyFlags
last_key = record { interval_end = true; interval = true }

abbrev keys : List KeyPart
keys = KeyPart.value mark ∷ KeyPart.prefix block ∷ []

keys-IsKeySized : All (IsKeySized test_mpz last_key) keys
unfolding div_round_up
keys-IsKeySized = ((omega arith, omega arith), ((omega arith, omega arith), tt))

keys_fit : key_len test_mpz last_key keys ≤ 64 / 8
unfolding div_round_up
keys_fit = omega arith

netlink_gen_concat_key_lem_example :
    netlink_gen_concat_key test_mpz last_key 64 keys
    ≡ some (
      key_slots test_mpz last_key keys ++ zeros (64 / 8 - key_len test_mpz last_key keys),
      map (switched test_mpz last_key) keys,
    )
netlink_gen_concat_key_lem_example =
    netlink_gen_concat_key_lem test_mpz last_key reads_back 64 keys keys-IsKeySized keys_fit
      (omega arith)

key_run :
    netlink_gen_concat_key test_mpz last_key 64 keys
    ≡ some (
      0 ∷ 0 ∷ 0 ∷ 7 ∷ 10 ∷ 255 ∷ 255 ∷ 255 ∷ [],
      KeyPart.value (record mark { expr = record mark.expr { value = 117440512 } })
          ∷ KeyPart.prefix block
          ∷ [],
    )
unfolding netlink_gen_concat_key gen_key_parts __netlink_gen_concat_key switch_integer
    byteorder_switch_expr_value mpz_switch_byteorder prefix_end mpz_bitmask export_value
    netlink_export_pad write_at netlink_padded_len netlink_register_space div_round_up
    nft_data_memcpy
key_run = refl

abbrev junk : ℕ → List ℕ
junk zero = []
junk (suc n) = 170 ∷ junk n

block-IsSized : IsSized (chosen false (Part.prefix block))
unfolding div_round_up
block-IsSized = omega arith

block_end : 167772160 + mpz_bitmask (32 - 8) < 2 ^ (8 * div_round_up 32 8)
unfolding div_round_up mpz_bitmask
block_end = omega arith

whole_words : (div_round_up 32 8 % 4 ≡ 0) × (div_round_up 32 8 ≤ 32)
unfolding div_round_up
whole_words = (refl, omega arith)

netlink_gen_prefix_lem_example :
    netlink_gen_prefix test_mpz (junk 64) block
    ≡ some (
        test_mpz.export Byteorder.big_endian (div_round_up 32 8) 167772160
        ++ test_mpz.export Byteorder.big_endian
            (div_round_up 32 8)
            (167772160 + mpz_bitmask (32 - 8)))
netlink_gen_prefix_lem_example =
    netlink_gen_prefix_lem test_mpz (junk 64) block refl refl block-IsSized block_end whole_words.0
      whole_words.1

abbrev ports : PrefixExpr
ports = record {
  prefix = record { value = 1024; byteorder = Byteorder.big_endian; len = 16 };
  byteorder = Byteorder.big_endian;
  len = 16;
  prefix_len = 6;
}

-- Behind ports stands what the array had in it.
port_prefix_run :
    netlink_gen_prefix test_mpz (junk 64) ports
    ≡ some (4 ∷ 0 ∷ 170 ∷ 170 ∷ 7 ∷ 255 ∷ 170 ∷ 170 ∷ [])
unfolding netlink_gen_prefix netlink_export_pad write_at netlink_padded_len netlink_register_space
    div_round_up nft_data_memcpy mpz_bitmask
port_prefix_run = refl
