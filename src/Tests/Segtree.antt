-- ===== src/Tests/Segtree.antt =====
-- src/segtree.c on the segments of ports, with an insertion sort in the place of `qsort`.
use Prim.Native.Nat.{Ordering}
use nftables.Base.{
  ℕ, ◌^◌, ◌<◌, ◌≡◌, refl, ap, ◌∙◌, true, false, List, [], ◌∷◌, map, none, some, arith,
}
use nftables.Intervals.Elem.{Item, interval, Interval}
use nftables.Intervals.Segments.{
  SetInfo, order, set_to_intervals, segments_from, flush, first_segment, end_segment, start_segment,
}
use nftables.Segtree.{
  Point, point, Entry, expr_value_cmp, interval_map_decompose, half_closed, decompose_from,
  close_last, add_interval, add_distance, interval_to_prefix, interval_to_range, prefix_len,
  range_is_prefix,
}
use nftables.Segtree.Bounds.{bounds}
use nftables.Segtree.Shape.{ranges_of, received}
use nftables.Segtree.Roundtrip.{
  InOrder, Ascending, number_key, interval_map_decompose-set_to_intervals,
}
use nftables.Tests.Library.{test_mpz}

abbrev insert : (Point → Point → Ordering) → Point → List Point → List Point
insert compar p [] = p ∷ []
insert compar p (q ∷ l) =
    let rest = insert compar p l in elim (compar p q) [ Ordering.lt ↦ p ∷ q ∷ l | _ ↦ q ∷ rest ]

abbrev insertion_sort : (Point → Point → Ordering) → List Point → List Point
insertion_sort compar [] = []
insertion_sort compar (p ∷ l) = insert compar p (insertion_sort compar l)

insert-first : (p : Point) (l : List Point) → Ascending p l → insert expr_value_cmp p l ≡ p ∷ l
insert-first p [] a = refl
insert-first p (q ∷ l) a = rw (a.0, insert) refl

Ascending-InOrder : (p : Point) (l : List Point) → Ascending p l → InOrder l
Ascending-InOrder p [] a = tt
Ascending-InOrder p (q ∷ l) a = a.1

sorted_stays : (l : List Point) → InOrder l → insertion_sort expr_value_cmp l ≡ l
sorted_stays [] a = refl
sorted_stays (p ∷ l) a =
    ap (insert expr_value_cmp p) (sorted_stays l (Ascending-InOrder p l a)) ∙ insert-first p l a

abbrev ports : SetInfo
ports = record {
  anonymous = true;
  root = false;
  init_size = none;
  init_is_same = true;
  key_len = 16;
  host_endian = false;
}

abbrev port_range : ℕ → ℕ → Interval
port_range l r = record { left = l; right = r; kernel = false; remove = false; mapped = none }

abbrev port_ranges : List Item
port_ranges =
    interval (port_range 10 20)
    ∷ interval (port_range 21 21)
    ∷ interval (port_range 1024 2047)
    ∷ interval (port_range 60000 65535)
    ∷ []

ports-order : (n : ℕ) → n < 2 ^ 16 → order test_mpz ports (order test_mpz ports n) ≡ n
unfolding order
ports-order n h = refl

ports-order_zero : order test_mpz ports 0 ≡ 0
unfolding order
ports-order_zero = refl

listing_run :
    interval_map_decompose test_mpz (number_key 16 true) insertion_sort (
      map point
        (map (received (order test_mpz ports)) (set_to_intervals test_mpz ports true port_ranges)))
    ≡ Entry.range 10 20 none
      ∷ Entry.single 21 none
      ∷ Entry.prefix 1024 6 none
      ∷ Entry.range 60000 65535 none
      ∷ []
unfolding order set_to_intervals segments_from flush first_segment end_segment start_segment
    interval_map_decompose half_closed decompose_from close_last add_interval add_distance
    interval_to_prefix interval_to_range prefix_len range_is_prefix expr_value_cmp
listing_run = refl

interval_map_decompose-set_to_intervals_example :
    map (bounds 16) (
      interval_map_decompose test_mpz (number_key 16 true) insertion_sort (
        map point (
          map
            (received (order test_mpz ports))
            (set_to_intervals test_mpz ports true port_ranges))))
    ≡ map some (ranges_of port_ranges)
interval_map_decompose-set_to_intervals_example =
    interval_map_decompose-set_to_intervals test_mpz ports ports-order ports-order_zero
      (omega arith) true insertion_sort sorted_stays true port_ranges (omega arith) (omega arith)
      (omega arith)
