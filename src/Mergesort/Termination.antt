-- ===== src/Mergesort/Termination.antt =====
-- The recursion of the sort ends: the fuel that stands for its depth never runs out.
use nftables.Base.{ℕ, zero, suc, ◌≤◌, ◌<◌, ◌≡◌, refl, List, [], ◌∷◌, arith, length}
use nftables.Mergesort.{list_cut_middle, list_splice_sorted, sort_fuel, list_expr_sort}
use nftables.Mergesort.Laws.{cut_lengths}

module _ {ℓ} {A : Type ℓ} (value : A → ℕ) where
  sort_fuel_enough :
      (n k : ℕ) (l : List A)
      → length l ≤ n
      → length l ≤ k
      → sort_fuel value n l ≡ sort_fuel value k l
  unfolding sort_fuel
  sort_fuel_enough n k [] p q = refl
  sort_fuel_enough n k (x ∷ []) p q = refl
  sort_fuel_enough zero k (x ∷ y ∷ r) p q = absurd (omega arith)
  sort_fuel_enough (suc n) zero (x ∷ y ∷ r) p q = absurd (omega arith)
  sort_fuel_enough (suc n) (suc k) (x ∷ y ∷ r) p q =
      let cut = list_cut_middle (x ∷ y ∷ r) in
      let short = cut_lengths x y r in
      rw
        (
          sort_fuel_enough n k cut.0 (omega arith) (omega arith),
          sort_fuel_enough n k cut.1 (omega arith) (omega arith),
        )
        refl

  -- A list of two or more entries is cut into two shorter lists, and the sort of the list is the splice
  -- of the sorts of these two: the recursion reaches lists that are too short to be cut, whatever the
  -- list.
  pub sort-splice :
      (x y : A) (r : List A)
      → (length (list_cut_middle (x ∷ y ∷ r)).0 < length (x ∷ y ∷ r))
        × (length (list_cut_middle (x ∷ y ∷ r)).1 < length (x ∷ y ∷ r))
        × (list_expr_sort value (x ∷ y ∷ r)
            ≡ list_splice_sorted value
                (list_expr_sort value (list_cut_middle (x ∷ y ∷ r)).0)
                (list_expr_sort value (list_cut_middle (x ∷ y ∷ r)).1))
  unfolding list_expr_sort sort_fuel
  sort-splice x y r =
      let cut = list_cut_middle (x ∷ y ∷ r) in
      let short = cut_lengths x y r in
      (
        short.0,
        short.1,
        rw
            (
              sort_fuel_enough (length (y ∷ r)) (length cut.0) cut.0 (omega arith) (omega arith),
              sort_fuel_enough (length (y ∷ r)) (length cut.1) cut.1 (omega arith) (omega arith),
            )
            refl,
      )
