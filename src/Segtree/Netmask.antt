-- ===== src/Segtree/Netmask.antt =====
-- `range_is_prefix` of src/segtree.c: a number whose bits are cleared by the next one is all ones.
use Prim.Native.Nat.{bit_and, bit_and-bitwise, digits, min}
use native.Mathlib.Nat.{pow-suc}
use nftables.Base.{
  ℕ, zero, suc, ◌+◌, ◌^◌, ◌/◌, ◌%◌, ◌*◌, ◌≤◌, ◌<◌, ◌≡◌, refl, ◌∙◌, sym, true, arith, ==_iff,
}
use native.Mathlib.Decide.{ℕ_discrete}
use nftables.Gmp.{Mpz}
use nftables.Segtree.{range_is_prefix}

unfoldable both : ℕ → ℕ → ℕ → ℕ
both n a b = digits (λ b. zero) min n a b

both-step :
    (n a b : ℕ) → both (suc n) (suc a) b ≡ both n (suc a / 2) (b / 2) * 2 + min (suc a % 2) (b % 2)
unfolding both
both-step n a b = refl

both_self : (n a : ℕ) → a ≤ n → both n a a ≡ 0 → a ≡ 0
both_self zero a h e = omega arith
both_self (suc n) zero h e = refl
both_self (suc n) (suc a) h e =
    let half = both_self n (suc a / 2) (omega arith) (omega (arith, both-step n a (suc a))) in
    absurd (omega (arith, both-step n a (suc a)))

module _ (m : Mpz) where
  both_next : (n a : ℕ) → a ≤ n → both n a (suc a) ≡ 0 → suc a ≡ 2 ^ m.scan0 a
  both_next zero zero h e = rw (m.scan0-even 0 refl) refl
  both_next zero (suc a) h e = absurd (omega arith)
  both_next (suc n) zero h e = rw (m.scan0-even 0 refl) refl
  both_next (suc n) (suc a) h e = elim (ℕ_discrete (suc a % 2) 0) [
    | yes even ↦
        let half : suc (suc a) / 2 ≡ suc a / 2 = omega arith in
        let rest = rw (both-step n a (suc (suc a)), half) at e in
        let none_left = both_self n (suc a / 2) (omega arith) (omega (arith, rest)) in
        absurd (omega arith)
    | no odd ↦
        let half : suc (suc a) / 2 ≡ suc (suc a / 2) = omega arith in
        let rest = rw (both-step n a (suc (suc a)), half) at e in
        let ih = both_next n (suc a / 2) (omega arith) (omega (arith, rest)) in
        rw (m.scan0-odd (suc a) (omega arith)) (omega (arith, pow-suc 2 (m.scan0 (suc a / 2))))
  ]

  -- A number that the test accepts is one less than a power of 2, whose exponent the scan finds.
  pub range_is_prefix_lem : (n : ℕ) → range_is_prefix n ≡ true → suc n ≡ 2 ^ m.scan0 n
  unfolding range_is_prefix both
  range_is_prefix_lem n e =
      both_next n n (omega arith)
        (sym (bit_and-bitwise n (suc n)) ∙ grind (arith, (==_iff (bit_and n (n + 1)) 0).0))

  pub scan0_bound : (len n : ℕ) → n < 2 ^ len → m.scan0 n ≤ len
  scan0_bound zero n h = omega (arith, m.scan0-even n (omega arith))
  scan0_bound (suc len) n h = elim (ℕ_discrete (n % 2) 0) [
    | yes even ↦ omega (arith, m.scan0-even n even)
    | no odd ↦
        omega (
          arith,
          m.scan0-odd n (omega arith),
          scan0_bound len (n / 2) (omega (arith, pow-suc 2 len)),
        )
  ]
