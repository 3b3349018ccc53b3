-- ===== src/Segtree/Bounds.antt =====
-- The first and last value of what `add_interval` of src/segtree.c makes of two elements.
use nftables.Base.{
  ℕ, ◌+◌, ◌-◌, ◌^◌, ◌%◌, ◌≤◌, ◌<◌, ◌≡◌, refl, ap, ◌∙◌, [], ◌∷◌, map, inl, inr, true, false, ◌&&◌,
  Option, none, some, arith, leb, ◌==◌, ==_iff, Bool-cases,
}
use Prim.Native.Nat.{bit_and}
use nftables.Gmp.{Mpz, mpz_bitmask}
use nftables.Segtree.{
  Point, KeyType, Entry, add_distance, add_interval, close_last, range_is_prefix, prefix_len,
  interval_to_prefix, interval_to_range,
}
use nftables.Segtree.Netmask.{range_is_prefix_lem, scan0_bound}

-- A prefix ends where `range_expr_value_high` of src/expression.c says.
abbrev pub bounds : ℕ → Entry → Option (ℕ × ℕ)
bounds len (Entry.single v mapped) = some (v, v)
bounds len (Entry.prefix v n mapped) = some (v, v + (2 ^ (len - n) - 1))
bounds len (Entry.range low high mapped) = some (low, high)
bounds len _ = none

module _ (m : Mpz) (t : KeyType) (numbers : t.is_string ≡ false) (word : t.len < 2 ^ 32) where
  prefix-bounds :
      (low : Point) (distance : ℕ)
      → distance < 2 ^ t.len
      → range_is_prefix distance ≡ true
      → bounds t.len (interval_to_prefix m t low distance) ≡ some (low.value, low.value + distance)
  unfolding interval_to_prefix prefix_len
  prefix-bounds low distance h e =
      let power = range_is_prefix_lem m distance e in
      let bound = scan0_bound m t.len distance h in
      let back : t.len - ((t.len + 2 ^ 32 - m.scan0 distance) % 2 ^ 32) ≡ m.scan0 distance =
        omega arith in
      rw (back, ← power) (ap (λ (n : ℕ). some (low.value, n)) (omega arith))

  distance-bounds :
      (low : Point) (distance : ℕ)
      → distance < 2 ^ t.len
      → bounds t.len (add_distance m t low distance) ≡ some (low.value, low.value + distance)
  unfolding add_distance interval_to_range
  distance-bounds low distance h =
      let as_prefix = prefix-bounds low distance h in
      elim (Bool-cases (distance == 0)) [
        | inl same ↦
            let zero_distance = (==_iff distance 0).0 same in
            rw (same, numbers) (ap (λ (n : ℕ). some (low.value, n)) (omega arith))
        | inr some_distance ↦
            elim (Bool-cases (range_is_prefix distance && bit_and low.value distance == 0)) [
              | inl e ↦ elim (Bool-cases t.dtype_prefix) [
                | inl p ↦ rw (some_distance, e, p) (as_prefix (ground arith))
                | inr p ↦ rw (some_distance, e, p, numbers) refl
              ]
              | inr e ↦ rw (some_distance, e) refl
            ]
      ]

  pub add_interval-bounds :
      (low i : Point)
      → low.value < i.value
      → i.value ≤ 2 ^ t.len
      → bounds t.len (add_interval m t low i) ≡ some (low.value, i.value - 1)
  unfolding add_interval
  add_interval-bounds low i h k =
      let after : leb i.value low.value ≡ false = ground arith in
      rw after (
        distance-bounds low (i.value - low.value - 1) (omega arith)
        ∙ ap (λ (n : ℕ). some (low.value, n)) (omega arith))

  pub close_last-bounds :
      (low : Point)
      → low.value < 2 ^ t.len
      → map (bounds t.len) (close_last m t (some low)) ≡ some (low.value, 2 ^ t.len - 1) ∷ []
  unfolding close_last mpz_bitmask
  close_last-bounds low h = elim (Bool-cases (2 ^ t.len - 1 == low.value)) [
    | inl e ↦ let last = (==_iff (2 ^ t.len - 1) low.value).0 e in rw (e, last) refl
    | inr e ↦ rw e (
        ap (λ (b : Option (ℕ × ℕ)). b ∷ [])
          (distance-bounds low (2 ^ t.len - 1 - low.value) (omega arith)
            ∙ ap (λ (n : ℕ). some (low.value, n)) (omega arith)))
  ]
