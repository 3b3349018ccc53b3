-- ===== src/Tests/Library.antt =====
-- A GMP for the tests: bytes of a little-endian host, and a scan bit by bit.
use mathlib.Core.List.{reverse, reverse_aux, reverse-reverse}
use native.Mathlib.Nat.{pow-suc}
use native.Mathlib.Numerals.{towards_suc}
use nftables.Base.{
  ℕ, zero, suc, ◌+◌, ◌-◌, ◌*◌, ◌/◌, ◌%◌, ◌^◌, ◌<◌, ◌≡◌, refl, ◌∙◌, ap, sym, All, length, List, [],
  ◌∷◌, arith, ◌==◌, if◌then◌else◌,
}
use nftables.Gmp.{Mpz, Byteorder}

abbrev pub bytes : ℕ → ℕ → List ℕ
bytes zero n = []
bytes (suc size) n = (n % 256) ∷ bytes size (n / 256)

abbrev pub number : List ℕ → ℕ
number [] = 0
number (b ∷ bs) = b + 256 * number bs

pow_byte : (size : ℕ) → 2 ^ (8 * suc size) ≡ 256 * 2 ^ (8 * size)
pow_byte size =
    ap (λ (k : ℕ). 2 ^ k) (unfolded size) ∙ simp towards_suc (omega (arith, pow-suc 2 (8 * size)))
  where
    unfolded : (k : ℕ) → 8 * suc k ≡ 8 * k + 8
    unfolded k = omega arith

number-bytes : (size n : ℕ) → n < 2 ^ (8 * size) → number (bytes size n) ≡ n
number-bytes zero n h = omega arith
number-bytes (suc size) n h =
    omega (arith, pow_byte size, number-bytes size (n / 256) (omega (arith, pow_byte size)))

abbrev pub export_bytes : Byteorder → ℕ → ℕ → List ℕ
export_bytes Byteorder.host_endian size n = bytes size n
export_bytes _ size n = reverse (bytes size n)

abbrev pub import_bytes : Byteorder → List ℕ → ℕ
import_bytes Byteorder.host_endian bs = number bs
import_bytes _ bs = number (reverse bs)

pub import-export_bytes :
    (order : Byteorder) (size n : ℕ)
    → n < 2 ^ (8 * size)
    → import_bytes order (export_bytes order size n) ≡ n
import-export_bytes Byteorder.host_endian size n h = number-bytes size n h
import-export_bytes Byteorder.big_endian size n h =
    rw (reverse-reverse (bytes size n)) (number-bytes size n h)
import-export_bytes Byteorder.invalid size n h =
    rw (reverse-reverse (bytes size n)) (number-bytes size n h)

length-bytes : (size n : ℕ) → length (bytes size n) ≡ size
length-bytes zero n = refl
length-bytes (suc size) n = ap suc (length-bytes size (n / 256))

length-reverse_aux : (xs ys : List ℕ) → length (reverse_aux xs ys) ≡ length xs + length ys
length-reverse_aux [] ys = omega arith
length-reverse_aux (x ∷ xs) ys = omega (arith, length-reverse_aux xs (x ∷ ys))

length-reverse : (xs : List ℕ) → length (reverse xs) ≡ length xs
length-reverse xs = omega (arith, length-reverse_aux xs [])

pub length-export_bytes :
    (order : Byteorder) (size n : ℕ)
    → n < 2 ^ (8 * size)
    → length (export_bytes order size n) ≡ size
length-export_bytes Byteorder.host_endian size n h = length-bytes size n
length-export_bytes Byteorder.big_endian size n h =
    length-reverse (bytes size n) ∙ length-bytes size n
length-export_bytes Byteorder.invalid size n h = length-reverse (bytes size n) ∙ length-bytes size n

bytes-number : (bs : List ℕ) → All (λ b. b < 256) bs → bytes (length bs) (number bs) ≡ bs
bytes-number [] h = refl
bytes-number (b ∷ bs) h =
    let low : (b + 256 * number bs) % 256 ≡ b = omega (arith, h.0) in
    let high : (b + 256 * number bs) / 256 ≡ number bs = omega (arith, h.0) in
    rw (low, high) (ap (◌∷◌ b) (bytes-number bs h.1))

bytes-All : (size n : ℕ) → All (λ b. b < 256) (bytes size n)
bytes-All zero n = tt
bytes-All (suc size) n = (omega arith, bytes-All size (n / 256))

reverse_aux-All :
    (xs ys : List ℕ)
    → All (λ b. b < 256) xs
    → All (λ b. b < 256) ys
    → All (λ b. b < 256) (reverse_aux xs ys)
reverse_aux-All [] ys h k = k
reverse_aux-All (x ∷ xs) ys h k = reverse_aux-All xs (x ∷ ys) h.1 (h.0, k)

-- Bytes that were read in the order of the host are given back.
pub reads_back :
    (size n : ℕ)
    → n < 2 ^ (8 * size)
    → bytes size (number (reverse (bytes size n))) ≡ reverse (bytes size n)
reads_back size n h =
    let bs = reverse (bytes size n) in
    let e : length bs ≡ size = length-reverse (bytes size n) ∙ length-bytes size n in
    ap (λ (k : ℕ). bytes k (number bs)) (sym e)
    ∙ bytes-number bs (reverse_aux-All (bytes size n) [] (bytes-All size n) tt)

abbrev pub scan_bits : ℕ → ℕ → ℕ
scan_bits zero n = 0
scan_bits (suc fuel) n = let rest = scan_bits fuel (n / 2) in if n % 2 == 1 then suc rest else 0

scan_bits_enough : (f g n : ℕ) → n < f → n < g → scan_bits f n ≡ scan_bits g n
scan_bits_enough zero g n h k = absurd (omega arith)
scan_bits_enough (suc f) zero n h k = absurd (omega arith)
scan_bits_enough (suc f) (suc g) n h k = ground (arith, scan_bits_enough f g (n / 2))

abbrev pub scan : ℕ → ℕ
scan n = scan_bits (suc n) n

pub scan-even : (n : ℕ) → n % 2 ≡ 0 → scan n ≡ 0
scan-even n h = ground arith

pub scan-odd : (n : ℕ) → n % 2 ≡ 1 → scan n ≡ suc (scan (n / 2))
scan-odd n h = ground (arith, scan_bits_enough n (suc (n / 2)) (n / 2))

abbrev pub low_zeros : ℕ → ℕ → ℕ
low_zeros zero n = 0
low_zeros (suc fuel) n = let rest = low_zeros fuel (n / 2) in if n % 2 == 1 then 0 else suc rest

low_zeros_enough : (f g n : ℕ) → 0 < n → n < f → n < g → low_zeros f n ≡ low_zeros g n
low_zeros_enough zero g n p h k = absurd (omega arith)
low_zeros_enough (suc f) zero n p h k = absurd (omega arith)
low_zeros_enough (suc f) (suc g) n p h k = ground (arith, low_zeros_enough f g (n / 2))

abbrev pub first_one : ℕ → ℕ
first_one n = if n == 0 then 2 ^ 64 - 1 else low_zeros (suc n) n

pub first_one-even : (n : ℕ) → 0 < n → n % 2 ≡ 0 → first_one n ≡ suc (first_one (n / 2))
first_one-even n p h = ground (arith, low_zeros_enough n (suc (n / 2)) (n / 2))

pub first_one-odd : (n : ℕ) → n % 2 ≡ 1 → first_one n ≡ 0
first_one-odd n h = ground arith

abbrev pub test_mpz : Mpz
test_mpz = record {
  export = export_bytes;
  import = import_bytes;
  import-export = import-export_bytes;
  length-export = length-export_bytes;
  scan0 = scan;
  scan0-even = scan-even;
  scan0-odd = scan-odd;
  scan1 = first_one;
  scan1-even = first_one-even;
  scan1-odd = first_one-odd;
  scan1-zero = omega arith;
}
