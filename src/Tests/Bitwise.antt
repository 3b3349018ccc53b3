-- ===== src/Tests/Bitwise.antt =====
-- `(x & 0xf0) | 0x0c) ^ 0x05` on 8 bits, in a message and back.
use nftables.Base.{◌≡◌, refl, List, [], ◌∷◌}
use nftables.Gmp.{mpz_bitmask}
use nftables.Bitwise.{
  Binop, op_and, op_or, op_xor, combine_all, combine_one, combine_binop, netlink_gen_bitwise,
  netlink_parse_bitwise_bool,
}
use nftables.Bitwise.Meaning.{
  SameBits, run, apply_all, netlink_gen_bitwise-SameBits, netlink_parse_bitwise_bool-SameBits,
  netlink_parse_bitwise_bool-netlink_gen_bitwise,
}
use nftables.Tests.Library.{test_mpz}

abbrev binops : List Binop
binops =
    record { op = op_and; value = 240 }
    ∷ record { op = op_or; value = 12 }
    ∷ record { op = op_xor; value = 5 }
    ∷ []

gen_run : netlink_gen_bitwise 8 binops ≡ record { mask = 240; xor = 9 }
unfolding netlink_gen_bitwise combine_all combine_one combine_binop mpz_bitmask
gen_run = refl

netlink_gen_bitwise-SameBits_example :
    SameBits 8 (run (netlink_gen_bitwise 8 binops) 170) (apply_all binops 170)
netlink_gen_bitwise-SameBits_example = netlink_gen_bitwise-SameBits 8 binops 170

netlink_parse_bitwise_bool-SameBits_example :
    SameBits 8
      (apply_all (netlink_parse_bitwise_bool test_mpz 8 8 (record { mask = 240; xor = 9 })) 170)
      (run (record { mask = 240; xor = 9 }) 170)
netlink_parse_bitwise_bool-SameBits_example =
    netlink_parse_bitwise_bool-SameBits test_mpz 8 8 (record { mask = 240; xor = 9 }) 170

netlink_parse_bitwise_bool-netlink_gen_bitwise_example :
    SameBits 8
      (apply_all (netlink_parse_bitwise_bool test_mpz 8 8 (netlink_gen_bitwise 8 binops)) 170)
      (apply_all binops 170)
netlink_parse_bitwise_bool-netlink_gen_bitwise_example =
    netlink_parse_bitwise_bool-netlink_gen_bitwise test_mpz 8 8 binops 170
