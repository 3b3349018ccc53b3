-- ===== src/Segtree.antt =====
-- `interval_map_decompose` of src/segtree.c: the elements that the kernel returns for an interval set
-- become the ranges, prefixes and single values that a listing prints.
pub mod Netmask
pub mod Bounds
pub mod Shape
pub mod Roundtrip
use Prim.Native.Nat.{bit_and, compare, Ordering}
use nftables.Base.{
  ℕ, zero, suc, ◌+◌, ◌-◌, ◌/◌, ◌%◌, ◌^◌, Bool, true, false, ◌&&◌, ◌||◌, not, List, [], ◌∷◌, ◌++◌,
  Option, none, some, take, ltb, leb, ◌==◌, if◌then◌else◌,
}
use nftables.Gmp.{Mpz, big_endian, mpz_bitmask, mpz_switch_byteorder, div_round_up}

-- An element with a single value as its key. `interval_end` is EXPR_F_INTERVAL_END, `mapped` the
-- right-hand side of an EXPR_MAPPING.
pub record Point : Type 0 where
  pub value : ℕ
  pub interval_end : Bool
  pub mapped : Option ℕ

pub data Element : Type 0 where
  point : Point → Element
  catchall : ℕ → Element

-- What the function reads of the type of the keys.
pub record KeyType : Type 0 where
  pub len : ℕ
  pub dtype_prefix : Bool
  pub is_string : Bool

-- `inverted low` is the range from `low` to the number before it, `wildcard` a string before its NUL.
pub data Entry : Type 0 where
  single : ℕ → Option ℕ → Entry
  prefix : ℕ → ℕ → Option ℕ → Entry
  wildcard : List ℕ → Option ℕ → Entry
  range : ℕ → ℕ → Option ℕ → Entry
  inverted : ℕ → Option ℕ → Entry
  any_key : ℕ → Entry

-- The sign of the result.
unfoldable pub expr_value_cmp : Point → Point → Ordering
expr_value_cmp p1 p2 = elim (compare p1.value p2.value) [
  | Ordering.lt ↦ Ordering.lt
  | Ordering.gt ↦ Ordering.gt
  | Ordering.eq ↦
      if p1.interval_end then Ordering.lt else if p2.interval_end then Ordering.gt else Ordering.eq
]

unfoldable pub range_is_prefix : ℕ → Bool
range_is_prefix distance = bit_and distance (distance + 1) == 0

abbrev pub strnlen : List ℕ → ℕ
strnlen [] = 0
strnlen (c ∷ cs) = let rest = strnlen cs in if c == 0 then 0 else suc rest

module _ (m : Mpz) (t : KeyType) where
  -- The subtraction of `unsigned int`.
  unfoldable pub prefix_len : ℕ → ℕ
  prefix_len distance = (t.len + 2 ^ 32 - m.scan0 distance) % 2 ^ 32

  unfoldable pub interval_to_prefix : Point → ℕ → Entry
  unfolding prefix_len
  interval_to_prefix low distance = prefix low.value (prefix_len distance) low.mapped

  unfoldable pub interval_to_string : Point → ℕ → Entry
  unfolding prefix_len interval_to_prefix div_round_up
  interval_to_string low distance =
      if ltb t.len (prefix_len distance) || not (prefix_len distance % 8 == 0)
      then interval_to_prefix low distance
      else let len = div_round_up t.len 8 in
        let data_bytes = m.export big_endian len low.value in
        let str_len = strnlen data_bytes in
        if leb len str_len || str_len == 0
        then interval_to_prefix low distance
        else wildcard (take str_len data_bytes ++ 42 ∷ []) low.mapped

  unfoldable pub interval_to_range : Point → ℕ → Entry
  interval_to_range low distance = range low.value (low.value + distance) low.mapped

  -- `add_interval` for two elements with one key, between which the distance is -1; the sort
  -- leaves none with a smaller key behind. All bits of -1 are set, so that the scan for a clear one gives ULONG_MAX.
  unfoldable pub add_nothing : Point → Entry
  add_nothing low =
      if low.value == 0 && (t.dtype_prefix || t.is_string)
      then prefix 0 ((t.len + 1) % 2 ^ 32) low.mapped
      else inverted low.value low.mapped

  -- `add_interval` with the distance from the first value to the last one.
  unfoldable pub add_distance : Point → ℕ → Entry
  unfolding mpz_switch_byteorder interval_to_prefix interval_to_string interval_to_range
      range_is_prefix
  add_distance low distance =
      if distance == 0
      then single (if t.is_string then mpz_switch_byteorder m low.value (t.len / 8) else low.value)
          low.mapped
      else if range_is_prefix distance && bit_and low.value distance == 0
      then (if t.dtype_prefix
          then interval_to_prefix low distance
          else if t.is_string
          then interval_to_string low distance
          else interval_to_range low distance)
      else interval_to_range low distance

  -- The end `i` is an element behind the last value.
  unfoldable pub add_interval : Point → Point → Entry
  unfolding add_nothing add_distance
  add_interval low i =
      if leb i.value low.value then add_nothing low else add_distance low (i.value - low.value - 1)

  -- Points become half-closed intervals.
  unfoldable pub half_closed : Bool → List Point → List Point
  half_closed interval [] = []
  half_closed interval (i ∷ rest) = elim i.interval_end [
    | true ↦ i ∷ half_closed false rest
    | false ↦ elim interval [
      | true ↦ record i { interval_end = true } ∷ i ∷ half_closed true rest
      | false ↦ i ∷ half_closed true rest
    ]
  ]

  -- Behind the loop: an interval with no end runs to the last value of the key.
  unfoldable pub close_last : Option Point → List Entry
  unfolding add_distance mpz_bitmask
  close_last none = []
  close_last (some low) =
      if mpz_bitmask t.len == low.value
      then single low.value low.mapped ∷ []
      else add_distance low (mpz_bitmask t.len - low.value) ∷ []

  unfoldable pub decompose_from : Option Point → List Point → List Entry
  unfolding add_interval close_last
  decompose_from low [] = close_last low
  decompose_from none (i ∷ rest) = elim i.interval_end [
    | true ↦ decompose_from none rest
    | false ↦ decompose_from (some i) rest
  ]
  decompose_from (some low) (i ∷ rest) = add_interval low i ∷ elim i.interval_end [
    | true ↦ decompose_from none rest
    | false ↦ decompose_from (some low) rest
  ]

  abbrev pub points : List Element → List Point
  points [] = []
  points (point p ∷ l) = p ∷ points l
  points (catchall len ∷ l) = points l

  -- Of several catchall elements the last one is kept.
  abbrev pub last_catchall : Option ℕ → List Element → Option ℕ
  last_catchall found [] = found
  last_catchall found (point p ∷ l) = last_catchall found l
  last_catchall found (catchall len ∷ l) = last_catchall (some len) l

  abbrev pub add_catchall : Option ℕ → List Entry
  add_catchall none = []
  add_catchall (some len) = any_key len ∷ []

  -- `qsort` of the C library is a parameter.
  unfoldable pub interval_map_decompose :
      ((Point → Point → Ordering) → List Point → List Point) → List Element → List Entry
  unfolding half_closed decompose_from expr_value_cmp
  interval_map_decompose qsort set =
      decompose_from none (half_closed false (qsort expr_value_cmp (points set)))
      ++ add_catchall (last_catchall none set)
