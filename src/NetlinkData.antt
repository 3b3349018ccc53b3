-- ===== src/NetlinkData.antt =====
-- The bytes of values in messages, src/netlink.c: a value fills as many bytes as its bits need, and
-- the parts of a concatenation start at multiples of 4 bytes. The code writes into arrays whose length
-- it computes; here a write past the end has no result.
pub mod Layout
pub mod Keys
pub mod KeyLayout
use nftables.Base.{
  ℕ, zero, suc, ◌+◌, ◌-◌, ◌*◌, ◌/◌, Bool, true, false, not, List, [], ◌∷◌, ◌++◌, Option, none, some,
  length, take, drop, leb, ltb, ◌==◌, if◌then◌else◌,
}
use nftables.Gmp.{Mpz, Byteorder, mpz_bitmask, div_round_up}
use nftables.Expr.{ValueExpr}
use nftables.Registers.{netlink_register_space}

infixl 5 ◌>>=◌
abbrev pub ◌>>=◌ {ℓ κ} : {A : Type ℓ} {B : Type κ} → Option A → (A → Option B) → Option B
none >>= f = none
some a >>= f = f a

unfoldable pub netlink_padded_len : ℕ → ℕ
unfolding netlink_register_space div_round_up
netlink_padded_len size = netlink_register_space size * 4 * 8

abbrev pub zeros : ℕ → List ℕ
zeros zero = []
zeros (suc n) = 0 ∷ zeros n

-- A write into an array.
unfoldable pub write_at : List ℕ → ℕ → List ℕ → Option (List ℕ)
write_at buffer offset data_bytes =
    if leb (offset + length data_bytes) (length buffer)
    then some (take offset buffer ++ (data_bytes ++ drop (offset + length data_bytes) buffer))
    else none

-- EXPR_PREFIX with its own byte order, length and prefix length, which evaluation keeps at most the length.
pub record PrefixExpr : Type 0 where
  pub prefix : ValueExpr
  pub byteorder : Byteorder
  pub len : ℕ
  pub prefix_len : ℕ

-- A part of a concatenation.
pub data Part : Type 0 where
  range : ValueExpr → ValueExpr → Part
  prefix : PrefixExpr → Part
  value : ValueExpr → Part

-- `nld->value` has the size of all 16 registers; more is a BUG().
unfoldable pub nft_data_memcpy : List ℕ → Option (List ℕ)
nft_data_memcpy src = if ltb 64 (length src) then none else some src

module _ (m : Mpz) where
  -- The array with the value, and how far the next one is away.
  unfoldable pub netlink_export_pad : List ℕ → ℕ → ℕ → Byteorder → ℕ → Option (ℕ × List ℕ)
  netlink_export_pad buffer offset v order len = do
    buffer' ← write_at buffer offset (m.export order (div_round_up len 8) v)
    some (netlink_padded_len len / 8, buffer')

  unfoldable pub export_value : List ℕ → ℕ → ValueExpr → Option (ℕ × List ℕ)
  unfolding netlink_export_pad
  export_value buffer offset i = netlink_export_pad buffer offset i.value i.byteorder i.len

  unfoldable pub __netlink_gen_concat_data : Bool → Part → List ℕ → ℕ → Option (ℕ × List ℕ)
  __netlink_gen_concat_data end (range left right) buffer offset =
      export_value buffer offset (if end then right else left)
  __netlink_gen_concat_data end (prefix i) buffer offset =
      netlink_export_pad buffer offset
        (if end then i.prefix.value + mpz_bitmask (i.len - i.prefix_len) else i.prefix.value)
        i.byteorder i.len
  __netlink_gen_concat_data end (value i) buffer offset = export_value buffer offset i

  -- The loop over the parts.
  unfoldable pub gen_parts : Bool → List Part → List ℕ → ℕ → Option (ℕ × List ℕ)
  gen_parts end [] buffer offset = some (offset, buffer)
  gen_parts end (i ∷ parts) buffer offset = do
    (step, buffer') ← __netlink_gen_concat_data end i buffer offset
    gen_parts end parts buffer' (offset + step)

  -- `flags` of the concatenation are taken for the choice of the end.
  unfoldable pub __netlink_gen_concat : ℕ → ℕ → List Part → Option (List ℕ)
  __netlink_gen_concat flags len parts = do
    (offset, buffer) ← gen_parts (not (flags == 0)) parts (zeros (len / 8)) 0
    nft_data_memcpy buffer

  unfoldable pub __netlink_gen_concat_expand : ℕ → List Part → Option (List ℕ)
  __netlink_gen_concat_expand len parts = do
    (offset, buffer) ← gen_parts false parts (zeros (div_round_up len 8 * 2)) 0
    (offset', buffer') ← gen_parts true parts buffer offset
    nft_data_memcpy buffer'

  -- The array of the bytes has 64 of them, as many as the registers, which the model does not bound.
  unfoldable pub netlink_gen_constant_data : ValueExpr → Option (List ℕ)
  netlink_gen_constant_data i =
      if div_round_up i.len 8 == 0
      then none
      else some (m.export i.byteorder (div_round_up i.len 8) i.value)

  unfoldable pub netlink_gen_range : ValueExpr → ValueExpr → Option (List ℕ)
  netlink_gen_range left right = do
    (offset, buffer) ← export_value (zeros (div_round_up left.len 8 * 2)) 0 left
    (step, buffer') ← export_value buffer offset right
    nft_data_memcpy buffer'
