-- ===== src/Intervals/Segments/Mask.antt =====
-- The test for the last value of a key: all its bits are set.
use native.Mathlib.Nat.{pow-suc}
use nftables.Base.{ℕ, zero, suc, ◌+◌, ◌^◌, ◌/◌, ◌%◌, ◌<◌, ◌≡◌, ◌⊎◌, ◌↔◌, inl, inr, arith}
use native.Mathlib.Decide.{ℕ_discrete}
use nftables.Gmp.{Mpz}

parity : (n : ℕ) → (n % 2 ≡ 0) ⊎ (n % 2 ≡ 1)
parity n = elim (ℕ_discrete (n % 2) 0) [ yes e ↦ inl e | no e ↦ inr (omega arith) ]

module _ (m : Mpz) where
  scan0_full : (len n : ℕ) → n + 1 ≡ 2 ^ len → m.scan0 n ≡ len
  scan0_full zero n e = m.scan0-even n (omega arith)
  scan0_full (suc len) n e = omega (
    arith,
    m.scan0-odd n (omega (arith, pow-suc 2 len)),
    scan0_full len (n / 2) (omega (arith, pow-suc 2 len)),
  )

  full_scan0 : (len n : ℕ) → n < 2 ^ len → m.scan0 n ≡ len → n + 1 ≡ 2 ^ len
  full_scan0 zero n h e = omega arith
  full_scan0 (suc len) n h e = elim (parity n) [
    | inl even ↦ absurd (omega (arith, m.scan0-even n even))
    | inr odd ↦ omega (
      arith,
      pow-suc 2 len,
      full_scan0 len (n / 2) (omega (arith, pow-suc 2 len)) (omega (arith, m.scan0-odd n odd)),
    )
  ]

  -- All bits below `len` are set exactly where the lowest clear bit is bit `len`.
  pub scan0_iff : (len n : ℕ) → n < 2 ^ len → (m.scan0 n ≡ len) ↔ (n + 1 ≡ 2 ^ len)
  scan0_iff len n h = (full_scan0 len n h, scan0_full len n)
