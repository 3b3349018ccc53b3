-- ===== src/Tests/Sorting.antt =====
-- src/mergesort.c on pairs of a key and a mark.
use mathlib.Core.List.{Perm}
use nftables.Base.{ℕ, ◌<◌, ◌≡◌, refl, length, List, [], ◌∷◌}
use nftables.Mergesort.{meet, list_cut_middle, list_splice_sorted, sort_fuel, list_expr_sort}
use nftables.Mergesort.Laws.{IsSorted, sort-perm-IsSorted}
use nftables.Mergesort.Termination.{sort-splice}
use nftables.Mergesort.Stable.{at_value, sort-at_value}

abbrev key : ℕ × ℕ → ℕ
key p = p.0

abbrev sample : List (ℕ × ℕ)
sample = (5, 0) ∷ (2, 1) ∷ (9, 2) ∷ (2, 3) ∷ (5, 4) ∷ []

cut_sample : list_cut_middle sample ≡ ((5, 0) ∷ (2, 1) ∷ (9, 2) ∷ [], (2, 3) ∷ (5, 4) ∷ [])
unfolding list_cut_middle meet
cut_sample = refl

sort_sample : list_expr_sort key sample ≡ (2, 1) ∷ (2, 3) ∷ (5, 0) ∷ (5, 4) ∷ (9, 2) ∷ []
unfolding list_expr_sort sort_fuel list_splice_sorted list_cut_middle meet
sort_sample = refl

sort-perm-IsSorted_example :
    Perm (list_expr_sort key sample) sample × IsSorted key (list_expr_sort key sample)
sort-perm-IsSorted_example = sort-perm-IsSorted key sample

sort-at_value_example : at_value key 5 (list_expr_sort key sample) ≡ (5, 0) ∷ (5, 4) ∷ []
sort-at_value_example = sort-at_value key 5 sample

sort-splice_example :
    (length (list_cut_middle sample).0 < 5)
    × (length (list_cut_middle sample).1 < 5)
    × (list_expr_sort key sample
        ≡ list_splice_sorted key
            (list_expr_sort key (list_cut_middle sample).0)
            (list_expr_sort key (list_cut_middle sample).1))
sort-splice_example = sort-splice key (5, 0) (2, 1) ((9, 2) ∷ (2, 3) ∷ (5, 4) ∷ [])
