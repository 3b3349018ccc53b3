-- ===== src/Registers.antt =====
-- The registers that src/netlink_linearize.c gives to expressions, and their numbers in messages, which
-- src/netlink_delinearize.c reads. A register of 16 bytes, NFT_REG_1 to NFT_REG_4, is four of 4 bytes,
-- NFT_REG32_00 to NFT_REG32_15; the code counts the small ones from 1.
pub mod Numbers
use nftables.Base.{
  ℕ, ◌+◌, ◌-◌, ◌*◌, ◌/◌, ◌%◌, Bool, true, false, ◌&&◌, Option, none, some, leb, ltb, ◌==◌,
  if◌then◌else◌,
}
use nftables.Gmp.{div_round_up}

abbrev pub nft_reg_verdict : ℕ
nft_reg_verdict = 0

abbrev pub nft_reg_1 : ℕ
nft_reg_1 = 1

abbrev pub nft_reg_4 : ℕ
nft_reg_4 = 4

abbrev pub nft_reg32_00 : ℕ
nft_reg32_00 = 8

abbrev pub nft_reg32_15 : ℕ
nft_reg32_15 = 23

abbrev pub nft_reg_size : ℕ
nft_reg_size = 16

abbrev pub nft_reg32_size : ℕ
nft_reg32_size = 4

-- The number that is put into the message.
unfoldable pub netlink_put_register : ℕ → ℕ
netlink_put_register reg =
    if reg == nft_reg_verdict
    then reg
    else let small = reg - nft_reg_1 in
      if small % (nft_reg_size / nft_reg32_size) == 0
      then nft_reg_1 + small / (nft_reg_size / nft_reg32_size)
      else small + nft_reg32_00

unfoldable pub netlink_parse_register : ℕ → ℕ
netlink_parse_register reg =
    if leb nft_reg_1 reg && leb reg nft_reg_4
    then 1 + (reg - nft_reg_1) * (nft_reg_size / nft_reg32_size)
    else if leb nft_reg32_00 reg
    then 1 + reg - nft_reg32_00
    else reg

-- The size in bits.
unfoldable pub netlink_register_space : ℕ → ℕ
unfolding div_round_up
netlink_register_space size = div_round_up size (nft_reg32_size * 8)

-- `reg_low` of the context before and after, with the register; `none` stands for BUG(), which stops
-- the program.
unfoldable pub __get_register : ℕ → ℕ → Option (ℕ × ℕ)
unfolding netlink_register_space
__get_register reg_low size =
    let n = netlink_register_space size in
    if ltb (nft_reg_1 + nft_reg32_15 - nft_reg32_00 + 1) (reg_low + n)
    then none
    else some (reg_low, reg_low + n)

unfoldable pub __release_register : ℕ → ℕ → Option ℕ
unfolding netlink_register_space
__release_register reg_low size =
    let n = netlink_register_space size in
    if ltb reg_low (nft_reg_1 + n) then none else some (reg_low - n)

-- What is read of an expression: the length of a concatenation.
abbrev pub size_of : Option ℕ → ℕ
size_of none = nft_reg_size * 8
size_of (some len) = len

unfoldable pub get_register : ℕ → Option ℕ → Option (ℕ × ℕ)
get_register reg_low concat = __get_register reg_low (size_of concat)

unfoldable pub release_register : ℕ → Option ℕ → Option ℕ
release_register reg_low concat = __release_register reg_low (size_of concat)
