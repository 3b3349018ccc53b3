-- ===== src/Tests/Intervals.antt =====
-- src/intervals.c at a set of 16-bit keys.
use mathlib.Core.List.{Perm}
use nftables.Base.{
  ℕ, ◌+◌, ◌^◌, ◌<◌, ◌≡◌, ◌↔◌, refl, true, false, ◌||◌, List, [], ◌∷◌, ◌++◌, Option, none, some,
  total, arith, All,
}
use nftables.Gmp.{Byteorder}
use nftables.Expr.{ValueExpr}
use nftables.Mergesort.{meet, list_cut_middle, list_splice_sorted, sort_fuel, list_expr_sort}
use nftables.Intervals.Elem.{Elem, Key, Item, catchall, interval, Interval, set_to_range}
use nftables.Intervals.Covers.{covers, IsRange, Separated}
use nftables.Intervals.Automerge.{
  setelem_automerge, merge_from, judge, merge_ranges, remove_overlapping_range,
}
use nftables.Intervals.Automerge.Kernel.{kernels, kernels-setelem_automerge-perm}
use nftables.Intervals.Overlap.{setelem_overlap}
use nftables.Intervals.Overlap.Laws.{AllCompatible, setelem_overlap_iff}
use nftables.Intervals.Delete.{Deleted, existing, setelem_delete, remove_at, classify}
use nftables.Intervals.Delete.Values.{hit, hits}
use nftables.Intervals.Delete.Kernel.{held}
use nftables.Intervals.Segments.{
  SetInfo, order, set_to_intervals, segments_from, flush, first_segment, end_segment, start_segment,
}
use nftables.Intervals.Segments.Lookup.{lookup, lookup-set_to_intervals}
use nftables.Intervals.Commands.{
  set_automerge, set_sort_splice, give_back, Outcome, __set_delete, set_delete, delete_each,
}
use nftables.Intervals.Commands.Merging.{cached, set_automerge_lem}
use nftables.Intervals.Commands.Removing.{hits-__set_delete, held-__set_delete}
use nftables.Tests.Library.{test_mpz}

abbrev in_kernel : ℕ → ℕ → Interval
in_kernel l r = record { left = l; right = r; kernel = true; remove = false; mapped = none }

abbrev new_range : ℕ → ℕ → Interval
new_range l r = record { left = l; right = r; kernel = false; remove = false; mapped = none }

abbrev old_items : List Item
old_items = interval (in_kernel 10 20) ∷ interval (in_kernel 40 50) ∷ []

abbrev short : ℕ → ValueExpr
short n = record { value = n; byteorder = Byteorder.big_endian; len = 16 }

abbrev elem : Key → Elem
elem k = record { key = k; len = 16; kernel = false; remove = false; mapped = none }

-- 21, and the prefix 0x30/12.
abbrev added : List Elem
added = elem (Key.prefix (short 0x30) 16 12) ∷ elem (Key.value (short 21)) ∷ []

added_ranges :
    set_to_range test_mpz false added
    ≡ interval (new_range 0x30 0x3f) ∷ interval (new_range 21 21) ∷ []
unfolding set_to_range
added_ranges = refl

automerge_run :
    (setelem_automerge true (
      interval (in_kernel 10 20)
      ∷ interval (new_range 21 21)
      ∷ interval (in_kernel 40 50)
      ∷ interval (new_range 48 63)
      ∷ [])).items
    ≡ interval (new_range 10 21) ∷ interval (new_range 40 63) ∷ []
unfolding setelem_automerge judge merge_ranges remove_overlapping_range
automerge_run = refl

added-IsRange : All IsRange (set_to_range test_mpz false added)
unfolding set_to_range
added-IsRange = omega arith

set_automerge_lem_example :
    (o : Outcome) × (l : List Item) × (set_automerge test_mpz false false true added
        (cached old_items)
      ≡ some o)
    × (o.cache ≡ cached l)
    × ((v : ℕ) → covers v l ≡ (covers v old_items || covers v (set_to_range test_mpz false added)))
    × Separated 1 l
set_automerge_lem_example =
    set_automerge_lem test_mpz false true added old_items (omega arith) (omega arith) added-IsRange

abbrev split_result : Deleted
split_result = record {
  front = interval (new_range 10 14) ∷ [];
  middle = interval (in_kernel 40 50) ∷ [];
  back = interval (new_range 16 20) ∷ [];
  purge = in_kernel 10 20 ∷ [];
}

split_run : __set_delete true (interval (new_range 15 15)) old_items ≡ some split_result
unfolding __set_delete list_expr_sort sort_fuel list_splice_sorted list_cut_middle meet
    setelem_delete classify remove_at
split_run = refl

hits-__set_delete_example :
    hits 15 (existing split_result) + hit 15 (interval (new_range 15 15)) ≡ hits 15 old_items
hits-__set_delete_example =
    hits-__set_delete true old_items (new_range 15 15) split_result
      ((refl, refl), ((refl, refl), tt)) (omega arith) (omega arith) split_run 15

held-__set_delete_example :
    total (held (λ i. i.left)) (existing split_result)
      + total (λ (i : Interval). i.left) split_result.purge
    ≡ total (held (λ i. i.left)) old_items
held-__set_delete_example =
    held-__set_delete true old_items (new_range 15 15) split_result
      ((refl, refl), ((refl, refl), tt)) (omega arith) (omega arith) split_run (λ i. i.left)

-- A deletion that splits a range leaves the cache out of order, and a later addition in the same batch
-- does not sort it: the merge loses values that the set had.
abbrev out_of_order : List Item
out_of_order =
    interval (in_kernel 10 14) ∷ interval (in_kernel 40 50) ∷ interval (in_kernel 16 20) ∷ []

delete_run :
    set_delete test_mpz false true (elem (Key.value (short 15)) ∷ []) (some old_items)
    ≡ some (record {
      cache = out_of_order;
      purge = in_kernel 10 20 ∷ [];
      add = interval (new_range 10 14) ∷ interval (new_range 16 20) ∷ [];
    })
unfolding set_delete __set_delete list_expr_sort sort_fuel list_splice_sorted list_cut_middle meet
    setelem_delete classify remove_at delete_each set_to_range setelem_automerge
delete_run = refl

abbrev later_add : Option Outcome
later_add =
    set_automerge test_mpz false false true (elem (Key.value (short 60)) ∷ []) (cached out_of_order)

later_add_run :
    later_add
    ≡ some (record {
      init = interval (new_range 60 60) ∷ [];
      cache = cached (
          interval (in_kernel 10 14)
          ∷ interval (in_kernel 40 20)
          ∷ interval (in_kernel 60 60)
          ∷ []);
      purge = in_kernel 40 50 ∷ [];
      error = none;
    })
unfolding set_automerge set_sort_splice give_back list_expr_sort sort_fuel list_splice_sorted
    setelem_automerge merge_from judge merge_ranges set_to_range
later_add_run = refl

abbrev mixed : List Item
mixed =
    interval (in_kernel 10 20)
    ∷ interval (new_range 15 25)
    ∷ interval (in_kernel 40 50)
    ∷ catchall 16 true
    ∷ []

kernels-setelem_automerge-perm_example :
    Perm
      (kernels (setelem_automerge true mixed).items ++ (setelem_automerge true mixed).purge)
      (in_kernel 10 20 ∷ in_kernel 40 50 ∷ [])
kernels-setelem_automerge-perm_example =
    kernels-setelem_automerge-perm true mixed (omega arith) (omega arith) (omega arith)

setelem_overlap_iff_example : (setelem_overlap mixed ≡ none) ↔ AllCompatible mixed
setelem_overlap_iff_example = setelem_overlap_iff mixed (omega arith) (omega arith)

abbrev port_set : SetInfo
port_set = record {
  anonymous = true;
  root = false;
  init_size = none;
  init_is_same = true;
  key_len = 16;
  host_endian = false;
}

abbrev disjoint : List Item
disjoint =
    interval (new_range 10 20) ∷ interval (new_range 21 30) ∷ interval (new_range 60 65535) ∷ []

port_set-order : (n : ℕ) → n < 2 ^ 16 → order test_mpz port_set (order test_mpz port_set n) ≡ n
unfolding order
port_set-order n h = refl

segments_run :
    lookup (order test_mpz port_set) 21 false (set_to_intervals test_mpz port_set true disjoint)
    ≡ true
unfolding order set_to_intervals segments_from flush first_segment end_segment start_segment
segments_run = refl

lookup-set_to_intervals_example :
    lookup (order test_mpz port_set) 25 false (set_to_intervals test_mpz port_set true disjoint)
    ≡ covers 25 disjoint
lookup-set_to_intervals_example =
    lookup-set_to_intervals test_mpz port_set port_set-order 25 (omega arith) true disjoint
      (omega arith) (omega arith) (omega arith)
