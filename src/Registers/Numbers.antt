-- ===== src/Registers/Numbers.antt =====
-- Registers come back: from the message, and from the expression that had them.
use nftables.Base.{ℕ, ◌+◌, ◌-◌, ◌*◌, ◌/◌, ◌≤◌, ◌≡◌, ap, false, Option, some, ltb, arith}
use nftables.Gmp.{div_round_up}
use nftables.Registers.{
  netlink_put_register, netlink_parse_register, netlink_register_space, __get_register,
  __release_register, get_register, release_register, size_of,
}

-- The verdict register and the 16 registers of a rule are read back from their numbers in the message,
-- which are at most that of the last register.
pub netlink_parse_register-netlink_put_register :
    (reg : ℕ)
    → reg ≤ 16
    → (netlink_parse_register (netlink_put_register reg) ≡ reg) × (netlink_put_register reg ≤ 23)
unfolding netlink_parse_register netlink_put_register
netlink_parse_register-netlink_put_register reg h = ground arith

-- If the first free register is 1 or later and the space of an expression fits into the 16 registers
-- that there are, then the expression gets the first free one. The first free register is then one
-- behind enough of them for its bits, and a release of the same expression takes it back.
pub get_register-release_register :
    (reg_low : ℕ) (concat : Option ℕ)
    → 1 ≤ reg_low
    → reg_low + netlink_register_space (size_of concat) ≤ 17
    → (next : ℕ) × (get_register reg_low concat ≡ some (reg_low, next))
      × (next ≤ 17)
      × (size_of concat ≤ 32 * (next - reg_low))
      × (release_register next concat ≡ some reg_low)
unfolding get_register release_register __get_register __release_register netlink_register_space
    div_round_up
get_register-release_register reg_low concat h k =
    let n = (size_of concat + 32 - 1) / 32 in
    let held : ltb (reg_low + n) (1 + n) ≡ false = ground arith in
    (reg_low + n, ground arith, k, omega arith, rw held (ap some (omega arith)))
