-- ===== src/Bits/Shifts.antt =====
-- Numbers as their bits: shifts, masks and exclusive or, and a number that has no low bits.
use Prim.Native.Nat.{bit_and, bit_xor}
use native.Mathlib.Nat.{pow-suc, one-le-pow, div-div-eq-div-mul, zero-div}
use nftables.Base.{
  ℕ, zero, suc, ◌+◌, ◌-◌, ◌*◌, ◌/◌, ◌%◌, ◌^◌, ◌≤◌, ◌<◌, ◌≡◌, refl, ap, sym, ◌∙◌, true, false, ◌&&◌,
  inl, inr, arith, ltb, leb, ◌==◌, Bool-cases, ◌⊎◌,
}
use nftables.Gmp.{Mpz}
use nftables.Bits.{bit, bit-bit_and, bit-bit_xor, bit-zero, bit-ones, digit}

pub two_pow_positive : (k : ℕ) → 0 < 2 ^ k
two_pow_positive k = omega (arith, one-le-pow k 2 (omega arith))

-- Numbers with the same bits are equal.
pub bits_equal : (n a b : ℕ) → a ≤ n → b ≤ n → ((k : ℕ) → bit k a ≡ bit k b) → a ≡ b
bits_equal zero a b h l e = omega arith
bits_equal (suc n) a b h l e =
    let half : a / 2 ≡ b / 2 =
      bits_equal n (a / 2) (b / 2) (omega arith) (omega arith) (λ k. e (suc k)) in
    let low : (a % 2 == 1) ≡ (b % 2 == 1) = e 0 in ground (arith, digit a, digit b)

pub same_bits : (a b : ℕ) → ((k : ℕ) → bit k a ≡ bit k b) → a ≡ b
same_bits a b e = bits_equal (a + b) a b (omega arith) (omega arith) e

pub bit_high : (w k a : ℕ) → a < 2 ^ w → w ≤ k → bit k a ≡ false
bit_high zero k a h l = let none_left : a ≡ 0 = omega arith in rw none_left (bit-zero k)
bit_high (suc w) zero a h l = absurd (omega arith)
bit_high (suc w) (suc k) a h l = bit_high w k (a / 2) (omega (arith, pow-suc 2 w)) (omega arith)

pub lt_pow : (w a : ℕ) → ((k : ℕ) → w ≤ k → bit k a ≡ false) → a < 2 ^ w
lt_pow zero a e =
    let none_left : a ≡ 0 = same_bits a 0 (λ k. e k (omega arith) ∙ sym (bit-zero k)) in omega arith
lt_pow (suc w) a e = omega (arith, pow-suc 2 w, lt_pow w (a / 2) (λ k l. e (suc k) (omega arith)))

double_half : (a : ℕ) → 2 * a / 2 ≡ a
double_half a = omega arith

pub shift_step : (y k : ℕ) → y * 2 ^ suc k ≡ 2 * (y * 2 ^ k)
shift_step y k = rw (pow-suc 2 k) (grind arith)

leb-suc : (k j : ℕ) → leb (suc k) (suc j) ≡ leb k j
leb-suc k j = ground arith

pub bit-lshift : (j k y : ℕ) → bit j (y * 2 ^ k) ≡ (leb k j && bit (j - k) y)
bit-lshift j zero y =
    let same : y * 2 ^ 0 ≡ y = omega arith in
    let all : leb 0 j ≡ true = ground arith in
    let at : j - 0 ≡ j = omega arith in rw (same, all, at) refl
bit-lshift zero (suc k) y =
    let even : (y * 2 ^ suc k) % 2 ≡ 0 = omega (arith, shift_step y k) in
    let below : leb (suc k) 0 ≡ false = ground arith in rw (even, below) refl
bit-lshift (suc j) (suc k) y =
    let half : y * 2 ^ suc k / 2 ≡ y * 2 ^ k =
      ap (λ (a : ℕ). a / 2) (shift_step y k) ∙ double_half (y * 2 ^ k) in
    let less : suc j - suc k ≡ j - k = omega arith in
    rw (half, less, leb-suc k j) (bit-lshift j k y)

pub rshift_step : (y k : ℕ) → y / 2 ^ suc k ≡ y / 2 / 2 ^ k
rshift_step y k =
    let twice : 2 ^ suc k ≡ 2 * 2 ^ k = omega (arith, pow-suc 2 k) in
    rw twice (sym (div-div-eq-div-mul y 2 (2 ^ k)))

pub bit-rshift : (j k y : ℕ) → bit j (y / 2 ^ k) ≡ bit (j + k) y
bit-rshift j zero y =
    let same : y / 2 ^ 0 ≡ y = omega arith in let at : j + 0 ≡ j = omega arith in rw (same, at) refl
bit-rshift j (suc k) y =
    let at : j + suc k ≡ suc (j + k) = omega arith in
    rw (rshift_step y k, at) (bit-rshift j k (y / 2))

ruleset word_laws = (bit-bit_and, bit-bit_xor, bit-ones, bit-lshift, bit-rshift)

-- A mask keeps a number that has no higher bits.
pub bit_and-ones : (w a : ℕ) → a < 2 ^ w → bit_and a (2 ^ w - 1) ≡ a
bit_and-ones w a h = same_bits (bit_and a (2 ^ w - 1)) a (λ k. elim (Bool-cases (ltb k w)) [
  | inl e ↦ rw (bit-bit_and k a (2 ^ w - 1), bit-ones k w, e) (ground arith)
  | inr e ↦
      rw (bit-bit_and k a (2 ^ w - 1), bit-ones k w, e)
        (ground (arith, bit_high w k a h (ground arith)))
])

-- A shifted mask clears the bits below it.
pub bit_and-shifted_ones :
    (w k a : ℕ) → a < 2 ^ w → bit_and a ((2 ^ w - 1) * 2 ^ k) ≡ a / 2 ^ k * 2 ^ k
bit_and-shifted_ones w k a h = same_bits (bit_and a ((2 ^ w - 1) * 2 ^ k)) (a / 2 ^ k * 2 ^ k) (λ j.
    rw
      (
        bit-bit_and j a ((2 ^ w - 1) * 2 ^ k),
        bit-lshift j k (2 ^ w - 1),
        bit-lshift j k (a / 2 ^ k),
        bit-rshift (j - k) k a,
        bit-ones (j - k) w,
      )
      (kept j (Bool-cases (leb k j))))
  where
    kept :
        (j : ℕ)
        → (leb k j ≡ true) ⊎ (leb k j ≡ false)
        → (bit j a && (leb k j && ltb (j - k) w)) ≡ (leb k j && bit (j - k + k) a)
    kept j (inr e) = rw e (ground arith)
    kept j (inl e) =
        let at : j - k + k ≡ j = ground arith in
        rw (e, at)
          (elim (Bool-cases (ltb (j - k) w)) [
            | inl f ↦ rw f (ground arith)
            | inr f ↦ rw f (ground (arith, bit_high w j a h (ground arith)))
          ])

pub bit_xor_twice : (a b : ℕ) → bit_xor (bit_xor a b) b ≡ a
bit_xor_twice a b =
    same_bits (bit_xor (bit_xor a b) b) a
      (λ k. rw (bit-bit_xor k (bit_xor a b) b, bit-bit_xor k a b) (ground arith))

pub bit_xor-lt : (w a b : ℕ) → a < 2 ^ w → b < 2 ^ w → bit_xor a b < 2 ^ w
bit_xor-lt w a b h l =
    lt_pow w (bit_xor a b)
      (λ k high. rw (bit-bit_xor k a b, bit_high w k a h high, bit_high w k b l high) refl)

module _ (m : Mpz) where
  -- A number whose lowest bit stands at `k` or above loses nothing where it is shifted to the right.
  pub scan1_lem : (k v : ℕ) → k ≤ m.scan1 v → v / 2 ^ k * 2 ^ k ≡ v
  scan1_lem zero v h = omega arith
  scan1_lem (suc k) zero h = rw (zero-div (2 ^ suc k)) (omega arith)
  scan1_lem (suc k) (suc v) h = elim (digit (suc v)) [
    | inl even ↦
        let ih = scan1_lem k (suc v / 2) (omega (arith, m.scan1-even (suc v) (omega arith) even)) in
        rw (rshift_step (suc v) k, shift_step (suc v / 2 / 2 ^ k) k) (omega (arith, ih))
    | inr odd ↦ absurd (omega (arith, m.scan1-odd (suc v) odd))
  ]
