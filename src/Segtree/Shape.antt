-- ===== src/Segtree/Shape.antt =====
-- The shape of the segments that `set_to_intervals` makes of disjoint ranges, as src/segtree.c
-- receives them.
use nftables.Base.{
  ℕ, suc, ◌^◌, ◌≤◌, ◌<◌, ◌≡◌, inl, inr, Bool, true, false, List, [], ◌∷◌, map, Option, none, some,
  arith, All, Bool-cases, ◌==◌, ==_iff, not, ◌||◌, ◌&&◌,
}
use native.Mathlib.Nat.{add-zero}
use nftables.Gmp.{Mpz}
use nftables.Intervals.Elem.{Item, catchall, interval, Interval}
use nftables.Intervals.Covers.{IsRange, From, Separated}
use nftables.Intervals.Segments.{
  Segment, SetInfo, order, flush, first_segment, end_segment, start_segment, segments_from,
  set_to_intervals, segtree_needs_first_segment,
}
use nftables.Intervals.Segments.Lookup.{InKey, end_segment-cases}
use nftables.Segtree.{Point}

abbrev pub ranges_of : List Item → List (ℕ × ℕ)
ranges_of [] = []
ranges_of (catchall len kernel ∷ l) = ranges_of l
ranges_of (interval i ∷ l) = (i.left, i.right) ∷ ranges_of l

-- The kernel keeps the key and the flag; the key is read in the byte order it was written.
abbrev pub received : (ℕ → ℕ) → Segment → Point
received decode e = record {
  value = decode e.key;
  interval_end = e.interval_end;
  mapped = e.mapped;
}

abbrev pub at_start : ℕ → Option ℕ → Point
at_start n mapped = record { value = n; interval_end = false; mapped = mapped }

abbrev pub at_end : ℕ → Option ℕ → Point
at_end n mapped = record { value = n; interval_end = true; mapped = mapped }

-- The points behind the start of a range, with the ranges that follow it.
pub data Tail (len : ℕ) : ℕ → ℕ → List (ℕ × ℕ) → List Point → Type 0 where
  open_end : (l r : ℕ) → l ≤ r → suc r ≡ 2 ^ len → Tail len l r [] []
  closed :
      (l r : ℕ) (mapped : Option ℕ)
      → l ≤ r
      → suc r < 2 ^ len
      → Tail len l r [] (at_end (suc r) mapped ∷ [])
  gap :
      (l r l' r' : ℕ) (rest : List (ℕ × ℕ)) (points : List Point) (mapped mapped' : Option ℕ)
      → l ≤ r
      → r < l'
      → Tail len l' r' rest points
      → Tail len l r ((l', r') ∷ rest) (at_end (suc r) mapped ∷ at_start l' mapped' ∷ points)
  joined :
      (l r l' r' : ℕ) (rest : List (ℕ × ℕ)) (points : List Point) (mapped : Option ℕ)
      → l ≤ r
      → suc r ≡ l'
      → Tail len l' r' rest points
      → Tail len l r ((l', r') ∷ rest) (at_start l' mapped ∷ points)

pub left_in_key :
    (len l r : ℕ) (rest : List (ℕ × ℕ)) (points : List Point)
    → Tail len l r rest points
    → (l ≤ r) × (r < 2 ^ len)
left_in_key len _ _ _ _ (open_end l r h e) = (h, omega arith)
left_in_key len _ _ _ _ (closed l r mapped h e) = (h, omega arith)
left_in_key len _ _ _ _ (gap l r l' r' rest points mapped mapped' h k t) =
    let next = left_in_key len l' r' rest points t in (h, omega arith)
left_in_key len _ _ _ _ (joined l r l' r' rest points mapped h e t) =
    let next = left_in_key len l' r' rest points t in (h, omega arith)

module _ (m : Mpz) (s : SetInfo)
    (order_twice : (n : ℕ) → n < 2 ^ s.key_len → order m s (order m s n) ≡ n) where
  abbrev pub receive : List Segment → List Point
  receive = map (received (order m s))

  -- Behind a range that runs to the last value there is no other range.
  last-Tail :
      (add : Bool) (rest : List Item) (l r : ℕ)
      → l ≤ r
      → suc r ≡ 2 ^ s.key_len
      → From (suc r) rest
      → All IsRange rest
      → All (InKey s.key_len) rest
      → Tail s.key_len l r (ranges_of rest) (receive (segments_from m s add false none rest))
  unfolding segments_from
  last-Tail add [] l r h full f ranges keys = open_end l r h full
  last-Tail add (catchall n c ∷ rest) l r h full f ranges keys =
      last-Tail add rest l r h full f ranges.1 keys.1
  last-Tail add (interval i ∷ rest) l r h full f ranges keys =
      let start = f.0 in let range = ranges.0 in let end = keys.0 in absurd (omega arith)

  -- The claim for the list behind a range, with its pending end.
  abbrev Shaped : Bool → List Item → Type 0
  Shaped add rest =
      (l r : ℕ) (e : Segment)
      → l ≤ r
      → suc r < 2 ^ s.key_len
      → order m s e.key ≡ suc r
      → e.interval_end ≡ true
      → From (suc r) rest
      → Tail s.key_len l r (ranges_of rest) (receive (segments_from m s add false (some e) rest))

  after-Tail :
      (add : Bool) (i : Interval) (rest : List Item)
      → Shaped add rest
      → i.left ≤ i.right
      → i.right < 2 ^ s.key_len
      → From (suc i.right) rest
      → All IsRange rest
      → All (InKey s.key_len) rest
      → Tail s.key_len i.left i.right
          (ranges_of rest)
          (receive (segments_from m s add false (end_segment m s i) rest))
  after-Tail add i rest ih h k f ranges keys =
      elim (end_segment-cases m s order_twice i.right k i k) [
        | inl (e, full) ↦ rw e (last-Tail add rest i.left i.right h full f ranges keys)
        | inr (e, here, key, end, fits) ↦ rw here (ih i.left i.right e h fits key end f)
      ]

  -- The next range, with the pending end sent or dropped.
  next-Tail :
      (l r : ℕ) (e : Segment) (i : Interval) (rest : List (ℕ × ℕ)) (tail : List Segment)
      → l ≤ r
      → order m s e.key ≡ suc r
      → e.interval_end ≡ true
      → suc r ≤ i.left
      → i.left < 2 ^ s.key_len
      → Tail s.key_len i.left i.right rest (receive tail)
      → Tail s.key_len l r
          ((i.left, i.right) ∷ rest)
          (receive (flush m s (some e) i.left (start_segment m s i ∷ tail)))
  unfolding flush start_segment
  next-Tail l r e i rest tail h key end f k t =
      elim (Bool-cases (not s.anonymous || not (order m s e.key == i.left))) [
        | inl sent ↦
            rw (sent, key, end, order_twice i.left k)
              (gap l r i.left i.right rest (receive tail) e.mapped i.mapped h f t)
        | inr dropped ↦
            let same : suc r ≡ i.left = ground (arith, (==_iff (order m s e.key) i.left).0) in
            rw (dropped, order_twice i.left k)
              (joined l r i.left i.right rest (receive tail) i.mapped h same t)
      ]

  segments-Tail :
      (add : Bool) (rest : List Item)
      → Separated 0 rest
      → All IsRange rest
      → All (InKey s.key_len) rest
      → Shaped add rest
  unfolding segments_from first_segment
  segments-Tail add [] p ranges keys l r e h k key end f = rw (key, end) (closed l r e.mapped h k)
  segments-Tail add (catchall n c ∷ rest) p ranges keys l r e h k key end f =
      segments-Tail add rest p ranges.1 keys.1 l r e h k key end f
  segments-Tail add (interval i ∷ rest) p ranges keys l r e h k key end f =
      let after = rw add-zero at p.0 in
      next-Tail l r e i (ranges_of rest) (segments_from m s add false (end_segment m s i) rest) h
        key end f.0 (omega (arith, ranges.0, keys.0))
        (after-Tail add i rest (segments-Tail add rest p.1 ranges.1 keys.1) ranges.0 keys.0 after
          ranges.1 keys.1)

  -- The points of a whole list.
  pub data Points : List (ℕ × ℕ) → List Point → Type 0 where
    no_points : Points [] []
    from_start :
        (l r : ℕ) (rest : List (ℕ × ℕ)) (points : List Point) (mapped : Option ℕ)
        → Tail s.key_len l r rest points
        → Points ((l, r) ∷ rest) (at_start l mapped ∷ points)
    from_first :
        (l r : ℕ) (rest : List (ℕ × ℕ)) (points : List Point) (mapped mapped' : Option ℕ)
        → 0 < l
        → Tail s.key_len l r rest points
        → Points ((l, r) ∷ rest) (at_end 0 mapped ∷ at_start l mapped' ∷ points)

  module _ (order_zero : order m s 0 ≡ 0) where
    first-Points :
        (add : Bool) (i : Interval) (rest : List (ℕ × ℕ)) (tail : List Segment)
        → i.left < 2 ^ s.key_len
        → Tail s.key_len i.left i.right rest (receive tail)
        → Points
            ((i.left, i.right) ∷ rest)
            (receive (first_segment m s true add i (start_segment m s i ∷ tail)))
    unfolding first_segment start_segment
    first-Points add i rest tail k t =
        elim (Bool-cases (segtree_needs_first_segment s add && not (i.left == 0))) [
          | inl e ↦
              rw (e, order_zero, order_twice i.left k)
                (from_first i.left i.right rest (receive tail) i.mapped i.mapped
                  (ground (arith, (==_iff i.left 0).1)) t)
          | inr e ↦
              rw (e, order_twice i.left k)
                (from_start i.left i.right rest (receive tail) i.mapped t)
        ]

    pub set_to_intervals-Points :
        (add : Bool) (init : List Item)
        → Separated 0 init
        → All IsRange init
        → All (InKey s.key_len) init
        → Points (ranges_of init) (receive (set_to_intervals m s add init))
    unfolding set_to_intervals segments_from flush
    set_to_intervals-Points add [] p ranges keys = no_points
    set_to_intervals-Points add (catchall n c ∷ init) p ranges keys =
        set_to_intervals-Points add init p ranges.1 keys.1
    set_to_intervals-Points add (interval i ∷ init) p ranges keys =
        let after = rw add-zero at p.0 in
        first-Points add i (ranges_of init) (segments_from m s add false (end_segment m s i) init)
          (omega (arith, ranges.0, keys.0))
          (after-Tail add i init (segments-Tail add init p.1 ranges.1 keys.1) ranges.0 keys.0 after
            ranges.1 keys.1)
