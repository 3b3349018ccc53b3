-- ===== src/Tests/Registers.antt =====
-- The registers of a concatenation of 64 bits behind one of 128 bits.
use nftables.Base.{ℕ, ◌+◌, ◌-◌, ◌*◌, ◌≤◌, ◌≡◌, refl, some, arith}
use nftables.Gmp.{div_round_up}
use nftables.Registers.{
  netlink_put_register, netlink_parse_register, get_register, release_register, __get_register,
  netlink_register_space,
}
use nftables.Registers.Numbers.{
  netlink_parse_register-netlink_put_register, get_register-release_register,
}

get_run : get_register 5 (some 64) ≡ some (5, 7)
unfolding get_register __get_register netlink_register_space div_round_up
get_run = refl

put_run : netlink_put_register 6 ≡ 13
unfolding netlink_put_register
put_run = refl

netlink_parse_register-netlink_put_register_example :
    (netlink_parse_register (netlink_put_register 6) ≡ 6) × (netlink_put_register 6 ≤ 23)
netlink_parse_register-netlink_put_register_example =
    netlink_parse_register-netlink_put_register 6 (omega arith)

fits : 5 + netlink_register_space 64 ≤ 17
unfolding netlink_register_space div_round_up
fits = omega arith

get_register-release_register_example :
    (next : ℕ) × (get_register 5 (some 64) ≡ some (5, next))
    × (next ≤ 17)
    × (64 ≤ 32 * (next - 5))
    × (release_register next (some 64) ≡ some 5)
get_register-release_register_example = get_register-release_register 5 (some 64) (omega arith) fits
