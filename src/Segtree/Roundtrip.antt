-- ===== src/Segtree/Roundtrip.antt =====
-- What src/intervals.c sends, src/segtree.c lists.
use Prim.Native.Nat.{Ordering}
use nftables.Base.{
  ℕ, suc, ◌-◌, ◌^◌, ◌≤◌, ◌<◌, ◌≡◌, refl, ◌∙◌, sym, ap, Bool, true, false, List, [], ◌∷◌, map,
  Option, none, some, arith, All,
}
use mathlib.Core.List.{append-nil}
use nftables.Gmp.{Mpz}
use nftables.Intervals.Elem.{Item}
use nftables.Intervals.Covers.{IsRange, Separated}
use nftables.Intervals.Segments.{SetInfo, order, set_to_intervals}
use nftables.Intervals.Segments.Lookup.{InKey}
use nftables.Segtree.{
  Point, point, KeyType, Entry, points, last_catchall, expr_value_cmp, half_closed, decompose_from,
  interval_map_decompose, add_interval, close_last,
}
use nftables.Segtree.Bounds.{bounds, add_interval-bounds, close_last-bounds}
use nftables.Segtree.Shape.{
  Tail, open_end, closed, gap, joined, left_in_key, Points, no_points, from_start, from_first,
  at_start, at_end, ranges_of, received, receive, set_to_intervals-Points,
}

-- Every point is before the next one, in the order of the sort.
abbrev pub Ascending : Point → List Point → Type 0
Ascending p [] = Unit
Ascending p (q ∷ l) = (expr_value_cmp p q ≡ Ordering.lt) × Ascending q l

abbrev pub InOrder : List Point → Type 0
InOrder [] = Unit
InOrder (p ∷ l) = Ascending p l

cmp-less : (p q : Point) → p.value < q.value → expr_value_cmp p q ≡ Ordering.lt
unfolding expr_value_cmp
cmp-less p q h = ground arith

cmp-end :
    (n k : ℕ) (a b : Option ℕ) → n ≤ k → expr_value_cmp (at_end n a) (at_start k b) ≡ Ordering.lt
unfolding expr_value_cmp
cmp-end n k a b h = ground arith

Tail-Ascending :
    (len l r : ℕ) (rest : List (ℕ × ℕ)) (points : List Point) (mapped : Option ℕ)
    → Tail len l r rest points
    → Ascending (at_start l mapped) points
Tail-Ascending len _ _ _ _ mapped (open_end l r h e) = tt
Tail-Ascending len _ _ _ _ mapped (closed l r n h k) =
    (cmp-less (at_start l mapped) (at_end (suc r) n) (omega arith), tt)
Tail-Ascending len _ _ _ _ mapped (gap l r l' r' rest points n n' h k t) = (
  cmp-less (at_start l mapped) (at_end (suc r) n) (omega arith),
  (cmp-end (suc r) l' n n' k, Tail-Ascending len l' r' rest points n' t),
)
Tail-Ascending len _ _ _ _ mapped (joined l r l' r' rest points n h e t) = (
  cmp-less (at_start l mapped) (at_start l' n) (omega arith),
  Tail-Ascending len l' r' rest points n t,
)

Points-InOrder :
    (m : Mpz) (s : SetInfo)
    (order_twice : (n : ℕ) → n < 2 ^ s.key_len → order m s (order m s n) ≡ n) (rest : List (ℕ × ℕ))
    (points : List Point)
    → Points m s order_twice rest points
    → InOrder points
Points-InOrder m s twice _ _ no_points = tt
Points-InOrder m s twice _ _ (from_start l r rest points n t) =
    Tail-Ascending s.key_len l r rest points n t
Points-InOrder m s twice _ _ (from_first l r rest points n n' h t) =
    (cmp-end 0 l n n' (omega arith), Tail-Ascending s.key_len l r rest points n' t)

module _ (m : Mpz) (t : KeyType) (numbers : t.is_string ≡ false) (word : t.len < 2 ^ 32) where
  abbrev listed : List Entry → List (Option (ℕ × ℕ))
  listed = map (bounds t.len)

  -- An interval up to an end, before the entries of what follows.
  interval-listed :
      (l r : ℕ) (mapped : Option ℕ) (i : Point) (later : List Entry) (rest : List (ℕ × ℕ))
      → l ≤ r
      → suc r ≤ 2 ^ t.len
      → i.value ≡ suc r
      → listed later ≡ map some rest
      → listed (add_interval m t (at_start l mapped) i ∷ later) ≡ map some ((l, r) ∷ rest)
  interval-listed l r mapped i later rest h k e ih =
      let first =
        add_interval-bounds m t numbers word (at_start l mapped) i (omega arith) (omega arith) in
      let last : i.value - 1 ≡ r = omega arith in rw (first, last, ih) refl

  decompose-Tail :
      (l r : ℕ) (rest : List (ℕ × ℕ)) (points : List Point) (mapped : Option ℕ)
      → Tail t.len l r rest points
      → listed (decompose_from m t (some (at_start l mapped)) (half_closed m t true points))
        ≡ map some ((l, r) ∷ rest)
  unfolding decompose_from half_closed
  decompose-Tail _ _ _ _ mapped (open_end l r h e) =
      close_last-bounds m t numbers word (at_start l mapped) (omega arith)
      ∙ ap (λ (n : ℕ). some (l, n) ∷ []) (omega arith)
  decompose-Tail _ _ _ _ mapped (closed l r n h k) =
      interval-listed l r mapped (at_end (suc r) n) [] [] h (omega arith) refl refl
  decompose-Tail _ _ _ _ mapped (gap l r l' r' rest points n n' h k tail) =
      let inside = left_in_key t.len l' r' rest points tail in
      interval-listed l r mapped (at_end (suc r) n) _ ((l', r') ∷ rest) h (omega arith) refl
        (decompose-Tail l' r' rest points n' tail)
  decompose-Tail _ _ _ _ mapped (joined l r l' r' rest points n h e tail) =
      let inside = left_in_key t.len l' r' rest points tail in
      interval-listed l r mapped (at_end l' n) _ ((l', r') ∷ rest) h (omega arith) (sym e)
        (decompose-Tail l' r' rest points n tail)

points-point : (m : Mpz) (t : KeyType) (l : List Point) → points m t (map point l) ≡ l
points-point m t [] = refl
points-point m t (p ∷ l) = ap (◌∷◌ p) (points-point m t l)

last_catchall-point :
    (m : Mpz) (t : KeyType) (l : List Point) → last_catchall m t none (map point l) ≡ none
last_catchall-point m t [] = refl
last_catchall-point m t (p ∷ l) = last_catchall-point m t l

-- Keys that are numbers.
abbrev pub number_key : ℕ → Bool → KeyType
number_key len dtype_prefix = record { len = len; dtype_prefix = dtype_prefix; is_string = false }

module _ (m : Mpz) (s : SetInfo)
    (order_twice : (n : ℕ) → n < 2 ^ s.key_len → order m s (order m s n) ≡ n)
    (order_zero : order m s 0 ≡ 0) (word : s.key_len < 2 ^ 32) (dtype_prefix : Bool)
    (qsort : (Point → Point → Ordering) → List Point → List Point)
    (sorted_stays : (l : List Point) → InOrder l → qsort expr_value_cmp l ≡ l) where
  abbrev key_type : KeyType
  key_type = number_key s.key_len dtype_prefix

  decompose-Points :
      (rest : List (ℕ × ℕ)) (points : List Point)
      → Points m s order_twice rest points
      → map
          (bounds s.key_len)
          (decompose_from m key_type none (half_closed m key_type false points))
        ≡ map some rest
  unfolding decompose_from half_closed close_last
  decompose-Points _ _ no_points = refl
  decompose-Points _ _ (from_start l r rest points n tail) =
      decompose-Tail m key_type refl word l r rest points n tail
  decompose-Points _ _ (from_first l r rest points n n' h tail) =
      decompose-Tail m key_type refl word l r rest points n' tail

  -- For disjoint ranges of numbers in ascending order, keys of fewer than 2^32 bits, a byte order that switches back when it is
  -- switched twice and keeps 0, and a sort that leaves elements in strict order where they are: the
  -- segments sent to the kernel are listed as entries that have the bounds of the ranges, in the same
  -- order.
  pub interval_map_decompose-set_to_intervals :
      (add : Bool) (init : List Item)
      → Separated 0 init
      → All IsRange init
      → All (InKey s.key_len) init
      → map (bounds s.key_len) (
          interval_map_decompose m key_type qsort
            (map point (map (received (order m s)) (set_to_intervals m s add init))))
        ≡ map some (ranges_of init)
  unfolding interval_map_decompose
  interval_map_decompose-set_to_intervals add init p ranges keys =
      let l = receive m s order_twice (set_to_intervals m s add init) in
      let shape = set_to_intervals-Points m s order_twice order_zero add init p ranges keys in
      let order_kept = sorted_stays l (Points-InOrder m s order_twice (ranges_of init) l shape) in
      rw (points-point m key_type l, order_kept, last_catchall-point m key_type l)
        (ap (map (bounds s.key_len)) (append-nil _) ∙ decompose-Points (ranges_of init) l shape)
