-- ===== src/Gmp.antt =====
-- src/gmputil.c: masks, shifts and byte orders of multiple-precision integers. The GMP library is
-- not part of the program: `mpz_export` and `mpz_import` enter as the record `Mpz`.
use nftables.Base.{ℕ, suc, ◌+◌, ◌-◌, ◌*◌, ◌/◌, ◌%◌, ◌^◌, ◌≤◌, ◌<◌, ◌≡◌, List, length}

pub data Byteorder : Type 0 where
  big_endian host_endian invalid : Byteorder

-- `export order size n` are the `size` bytes of `n`, `import` reads them back, `scan0 n` is the
-- position of the lowest bit of `n` that is 0, `scan1 n` of the lowest one that is 1. The laws are what
-- GMP documents: a number that fits comes back from its bytes, as many as were asked for, bits are
-- scanned from the lowest, and 0 has its first 1 at the largest `mp_bitcnt_t`.
pub record Mpz : Type 0 where
  pub export : Byteorder → ℕ → ℕ → List ℕ
  pub import : Byteorder → List ℕ → ℕ
  pub import-export :
      (order : Byteorder) (size n : ℕ) → n < 2 ^ (8 * size) → import order (export order size n) ≡ n
  pub length-export :
      (order : Byteorder) (size n : ℕ) → n < 2 ^ (8 * size) → length (export order size n) ≡ size
  pub scan0 : ℕ → ℕ
  pub scan0-even : (n : ℕ) → n % 2 ≡ 0 → scan0 n ≡ 0
  pub scan0-odd : (n : ℕ) → n % 2 ≡ 1 → scan0 n ≡ suc (scan0 (n / 2))
  pub scan1 : ℕ → ℕ
  pub scan1-even : (n : ℕ) → 0 < n → n % 2 ≡ 0 → scan1 n ≡ suc (scan1 (n / 2))
  pub scan1-odd : (n : ℕ) → n % 2 ≡ 1 → scan1 n ≡ 0
  pub scan1-zero : 2 ^ 32 ≤ scan1 0 + 1

-- Bit `width` is set in 0, and 1 is subtracted.
unfoldable pub mpz_bitmask : ℕ → ℕ
mpz_bitmask width = 2 ^ width - 1

unfoldable pub mpz_lshift_ui : ℕ → ℕ → ℕ
mpz_lshift_ui rop n = rop * 2 ^ n

unfoldable pub mpz_rshift_ui : ℕ → ℕ → ℕ
mpz_rshift_ui rop n = rop / 2 ^ n

-- `width - prefix_len` is a subtraction of `unsigned int`.
unfoldable pub mpz_prefixmask : ℕ → ℕ → ℕ
unfolding mpz_bitmask mpz_lshift_ui
mpz_prefixmask width prefix_len =
    mpz_lshift_ui (mpz_bitmask prefix_len) ((width + 2 ^ 32 - prefix_len) % 2 ^ 32)

unfoldable pub mpz_switch_byteorder : Mpz → ℕ → ℕ → ℕ
mpz_switch_byteorder m rop len = m.import host_endian (m.export big_endian len rop)

unfoldable pub div_round_up : ℕ → ℕ → ℕ
div_round_up n d = (n + d - 1) / d
