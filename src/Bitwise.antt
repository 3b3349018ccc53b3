-- ===== src/Bitwise.antt =====
-- Chains of `&`, `|` and `^` by constants: `netlink_gen_bitwise` of src/netlink_linearize.c makes one
-- mask and one value for exclusive or of them, and `netlink_parse_bitwise_bool` of
-- src/netlink_delinearize.c makes a chain of those two again.
pub mod Meaning
use Prim.Native.Nat.{bit_and, bit_or, bit_xor}
use nftables.Base.{
  ℕ, Bool, true, false, ◌&&◌, ◌||◌, not, List, [], ◌∷◌, ◌++◌, leb, ltb, ◌==◌, if◌then◌else◌,
}
use nftables.Gmp.{Mpz, mpz_bitmask}

pub data BitOp : Type 0 where
  op_and op_or op_xor : BitOp

-- An EXPR_BINOP, with the value of its right-hand side.
pub record Binop : Type 0 where
  pub op : BitOp
  pub value : ℕ

-- NFTNL_EXPR_BITWISE_MASK and NFTNL_EXPR_BITWISE_XOR.
pub record MaskXor : Type 0 where
  pub mask : ℕ
  pub xor : ℕ

-- `and_m n` is `n & m`; the `m` of an `|` is negative.
unfoldable pub combine_binop : (ℕ → ℕ) → ℕ → MaskXor → MaskXor
combine_binop and_m x acc = record { mask = and_m acc.mask; xor = bit_xor x (and_m acc.xor) }

-- `n & ~val`, for what `mpz_com` gives.
abbrev pub and_com : ℕ → ℕ → ℕ
and_com val n = bit_xor n (bit_and n val)

-- One round of the loop.
unfoldable pub combine_one : ℕ → Binop → MaskXor → MaskXor
unfolding combine_binop mpz_bitmask
combine_one len i acc = elim i.op [
  | op_and ↦ combine_binop (λ n. bit_and n i.value) 0 acc
  | op_or ↦ combine_binop (and_com i.value) i.value acc
  | op_xor ↦ combine_binop (λ n. bit_and n (mpz_bitmask len)) i.value acc
]

-- The loop takes the innermost operation first.
unfoldable pub combine_all : ℕ → List Binop → MaskXor → MaskXor
unfolding combine_one
combine_all len [] acc = acc
combine_all len (i ∷ binops) acc = combine_all len binops (combine_one len i acc)

unfoldable pub netlink_gen_bitwise : ℕ → List Binop → MaskXor
unfolding combine_all mpz_bitmask
netlink_gen_bitwise len binops = combine_all len binops (record { mask = mpz_bitmask len; xor = 0 })

-- The operations that are left out where they change nothing.
abbrev pub and_part : Mpz → ℕ → ℕ → List Binop
and_part gmp len m =
    if ltb 0 len && leb len (gmp.scan0 m) then [] else record { op = op_and; value = m } ∷ []

abbrev pub xor_part : ℕ → List Binop
xor_part x = if x == 0 then [] else record { op = op_xor; value = x } ∷ []

abbrev pub or_part : ℕ → List Binop
or_part o = if o == 0 then [] else record { op = op_or; value = o } ∷ []

-- The operations put on the left-hand side of length `len`, innermost first. `mask_len` is the length
-- of the mask as it was received.
unfoldable pub netlink_parse_bitwise_bool : Mpz → ℕ → ℕ → MaskXor → List Binop
netlink_parse_bitwise_bool gmp len mask_len r =
    let split = not (gmp.scan0 r.mask == mask_len) || not (r.xor == 0) in
    let o = if split then bit_xor (bit_and r.mask r.xor) r.xor else 0 in
    let x = if split then bit_and r.xor r.mask else r.xor in
    let m = if split then bit_or r.mask o else r.mask in
    and_part gmp len m ++ (xor_part x ++ or_part o)
