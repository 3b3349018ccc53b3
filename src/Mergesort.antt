-- ===== src/Mergesort.antt =====
-- src/mergesort.c: the merge sort of a list of expressions. The list is cut in the middle by two
-- pointers that walk towards each other, both halves are sorted, and the first is spliced into
-- the second. `value` is the sort key, `expr_msort_value` for expressions (Expr.antt).
pub mod Laws
pub mod Stable
pub mod Termination
use nftables.Base.{
  ℕ, zero, suc, ◌-◌, Bool, true, false, List, [], ◌∷◌, length, take, drop, leb, ◌==◌, if◌then◌else◌,
}

-- The walk of `list_cut_middle` by positions: `e` steps back, then `s` steps on unless they met.
unfoldable pub meet : ℕ → ℕ → ℕ
meet s zero = s
meet s (suc e) = let rest = meet (suc s) e in if suc e == s then s else if e == s then s else rest

module _ {ℓ} {A : Type ℓ} where
  -- The part up to the meeting point is cut off (`.0`), the rest stays (`.1`).
  unfoldable pub list_cut_middle : List A → List A × List A
  list_cut_middle head = let k = suc (meet 0 (length head - 1)) in (take k head, drop k head)

  -- The entries of the first list go in front of those of the second with no smaller value.
  unfoldable pub list_splice_sorted : (A → ℕ) → List A → List A → List A
  list_splice_sorted value [] head = head
  list_splice_sorted value (l ∷ list) [] = l ∷ list_splice_sorted value list []
  list_splice_sorted value (l ∷ list) (h ∷ head) = elim (leb (value l) (value h)) [
    | true ↦ l ∷ list_splice_sorted value list (h ∷ head)
    | false ↦ h ∷ list_splice_sorted value (l ∷ list) head
  ]

  -- The recursion of `list_expr_sort`, on fuel.
  unfoldable pub sort_fuel : (A → ℕ) → ℕ → List A → List A
  sort_fuel value fuel [] = []
  sort_fuel value fuel (x ∷ []) = x ∷ []
  sort_fuel value zero (x ∷ y ∷ r) = x ∷ y ∷ r
  sort_fuel value (suc fuel) (x ∷ y ∷ r) =
      let (list, head) = list_cut_middle (x ∷ y ∷ r) in
      list_splice_sorted value (sort_fuel value fuel list) (sort_fuel value fuel head)

  unfoldable pub list_expr_sort : (A → ℕ) → List A → List A
  list_expr_sort value head = sort_fuel value (length head) head
