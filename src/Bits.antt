-- ===== src/Bits.antt =====
-- Single bits of numbers, and the laws of GMP's bit operations in terms of them.
pub mod Shifts
use Prim.Native.Nat.{
  bit_and, bit_or, bit_xor, digits, differ, min, max, bit_and-bitwise, bit_or-bitwise,
  bit_xor-bitwise,
}
use native.Mathlib.Nat.{pow-suc, one-le-pow}
use nftables.Base.{
  ℕ, zero, suc, ◌+◌, ◌-◌, ◌*◌, ◌/◌, ◌%◌, ◌^◌, ◌≤◌, ◌<◌, ◌≡◌, refl, ap, ◌∙◌, Bool, true, false, ◌&&◌,
  ◌||◌, not, arith, ◌==◌, ltb, ◌⊎◌, inl, inr,
}
use native.Mathlib.Decide.{ℕ_discrete}
use nftables.Gmp.{Mpz}

abbrev pub bit : ℕ → ℕ → Bool
bit zero n = n % 2 == 1
bit (suc k) n = bit k (n / 2)

infixl 30 ◌xor◌
abbrev pub ◌xor◌ : Bool → Bool → Bool
true xor b = not b
false xor b = b

abbrev pub Digit : ℕ → Type 0
Digit n = (n ≡ 0) ⊎ (n ≡ 1)

pub digit : (n : ℕ) → Digit (n % 2)
digit n = elim (ℕ_discrete (n % 2) 0) [ yes e ↦ inl e | no e ↦ inr (omega arith) ]

pub bit-zero : (k : ℕ) → bit k 0 ≡ false
bit-zero zero = refl
bit-zero (suc k) = bit-zero k

-- An operation on binary digits that computes `g` on each of them.
abbrev Computes : (ℕ → ℕ → ℕ) → (Bool → Bool → Bool) → Type 0
Computes f g = (x y : ℕ) → Digit x → Digit y → Digit (f x y) × ((f x y == 1) ≡ g (x == 1) (y == 1))

module _ (z : ℕ → ℕ) (f : ℕ → ℕ → ℕ) (g : Bool → Bool → Bool)
    (rest : (k b : ℕ) → bit k (z b) ≡ g false (bit k b)) (per_digit : Computes f g) where
  bit-digits : (k n a b : ℕ) → a ≤ n → bit k (digits z f n a b) ≡ g (bit k a) (bit k b)
  bit-digits k zero zero b h = rw (bit-zero k) (rest k b)
  bit-digits k (suc n) zero b h = rw (bit-zero k) (rest k b)
  bit-digits k zero (suc a) b h = absurd (omega arith)
  bit-digits zero (suc n) (suc a) b h =
      let (d, e) = per_digit (suc a % 2) (b % 2) (digit (suc a)) (digit b) in
      let q = digits z f n (suc a / 2) (b / 2) in
      let low : (q * 2 + f (suc a % 2) (b % 2)) % 2 ≡ f (suc a % 2) (b % 2) = ground (arith, d) in
      rw low e
  bit-digits (suc k) (suc n) (suc a) b h =
      let (d, e) = per_digit (suc a % 2) (b % 2) (digit (suc a)) (digit b) in
      let q = digits z f n (suc a / 2) (b / 2) in
      let high : (q * 2 + f (suc a % 2) (b % 2)) / 2 ≡ q = ground (arith, d) in
      rw high (bit-digits k n (suc a / 2) (b / 2) (omega arith))

min-Computes : Computes min ◌&&◌
min-Computes x y (inl e) (inl d) = rw (e, d) (inl refl, refl)
min-Computes x y (inl e) (inr d) = rw (e, d) (inl refl, refl)
min-Computes x y (inr e) (inl d) = rw (e, d) (inl refl, refl)
min-Computes x y (inr e) (inr d) = rw (e, d) (inr refl, refl)

max-Computes : Computes max ◌||◌
max-Computes x y (inl e) (inl d) = rw (e, d) (inl refl, refl)
max-Computes x y (inl e) (inr d) = rw (e, d) (inr refl, refl)
max-Computes x y (inr e) (inl d) = rw (e, d) (inr refl, refl)
max-Computes x y (inr e) (inr d) = rw (e, d) (inr refl, refl)

differ-Computes : Computes differ ◌xor◌
differ-Computes x y (inl e) (inl d) = rw (e, d) (inl refl, refl)
differ-Computes x y (inl e) (inr d) = rw (e, d) (inr refl, refl)
differ-Computes x y (inr e) (inl d) = rw (e, d) (inr refl, refl)
differ-Computes x y (inr e) (inr d) = rw (e, d) (inl refl, refl)

pub bit-bit_and : (k a b : ℕ) → bit k (bit_and a b) ≡ (bit k a && bit k b)
bit-bit_and k a b =
    ap (bit k) (bit_and-bitwise a b)
    ∙ bit-digits (λ b. zero) min ◌&&◌ (λ j c. bit-zero j) min-Computes k a a b (omega arith)

pub bit-bit_or : (k a b : ℕ) → bit k (bit_or a b) ≡ (bit k a || bit k b)
bit-bit_or k a b =
    ap (bit k) (bit_or-bitwise a b)
    ∙ bit-digits (λ b. b) max ◌||◌ (λ j c. refl) max-Computes k a a b (omega arith)

pub bit-bit_xor : (k a b : ℕ) → bit k (bit_xor a b) ≡ (bit k a xor bit k b)
bit-bit_xor k a b =
    ap (bit k) (bit_xor-bitwise a b)
    ∙ bit-digits (λ b. b) differ ◌xor◌ (λ j c. refl) differ-Computes k a a b (omega arith)

-- The lowest `w` bits are set.
pub bit-ones : (k w : ℕ) → bit k (2 ^ w - 1) ≡ ltb k w
bit-ones k zero = bit-zero k ∙ ground arith
bit-ones zero (suc w) = ground (arith, pow-suc 2 w, one-le-pow w 2 (omega arith))
bit-ones (suc k) (suc w) =
    let half : (2 ^ suc w - 1) / 2 ≡ 2 ^ w - 1 =
      omega (arith, pow-suc 2 w, one-le-pow w 2 (omega arith)) in
    rw half (bit-ones k w ∙ ground arith)

module _ (m : Mpz) where
  -- Below the lowest clear bit all bits are set.
  pub bit_below-scan0 : (k n : ℕ) → k < m.scan0 n → bit k n ≡ true
  bit_below-scan0 zero n h = elim (digit n) [
    | inl even ↦ absurd (omega (arith, m.scan0-even n even))
    | inr odd ↦ ground arith
  ]
  bit_below-scan0 (suc k) n h = elim (digit n) [
    | inl even ↦ absurd (omega (arith, m.scan0-even n even))
    | inr odd ↦ bit_below-scan0 k (n / 2) (omega (arith, m.scan0-odd n odd))
  ]
