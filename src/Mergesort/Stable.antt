-- ===== src/Mergesort/Stable.antt =====
-- The sort is stable: entries of one value keep their order. In `set_sort_splice` and `set_delete`
-- (src/intervals.c) this decides which of two intervals with one start comes first.
use nftables.Base.{
  ℕ, zero, suc, ◌≤◌, ◌≡◌, refl, sym, ap, ◌∙◌, inl, inr, Bool, List, [], ◌∷◌, ◌++◌, arith, leb,
  leb→lt, ◌==◌, Bool-cases, length, ==_iff, ne→==, keep, keep-append,
}
use nftables.Mergesort.{list_cut_middle, list_splice_sorted, sort_fuel, list_expr_sort}
use nftables.Mergesort.Laws.{IsSorted, Below, splice_left, splice_right, splice-nil}
use nftables.Mergesort.Laws.{cut-append, cut_lengths, sort_fuel-IsSorted}
use mathlib.Core.Path.{ap₂}
use mathlib.Core.List.{append-nil}

keep_cons-append {ℓ} :
    {A : Type ℓ} (p : A → Bool) (x : A) (xs ys zs : List A)
    → keep p zs ≡ keep p xs ++ ys
    → keep p (x ∷ zs) ≡ keep p (x ∷ xs) ++ ys
keep_cons-append p x xs ys zs h = elim (Bool-cases (p x)) [
  | inl e ↦ rw e (ap (◌∷◌ x) h)
  | inr e ↦ rw e h
]

module _ {ℓ} {A : Type ℓ} (value : A → ℕ) where
  -- The entries of value `n`, in order.
  abbrev pub at_value : ℕ → List A → List A
  at_value n = keep (λ a. value a == n)

  -- Nothing of value `n` stands in a list whose values are all above.
  at_value-Below : (n m : ℕ) (l : List A) → suc n ≤ m → Below value m l → at_value n l ≡ []
  at_value-Below n m [] h p = refl
  at_value-Below n m (x ∷ l) h p =
      rw (ne→== (value x) n (λ e. omega arith)) (at_value-Below n m l h p.1)

  at_value-splice :
      (n : ℕ) (list head : List A)
      → IsSorted value list
      → at_value n (list_splice_sorted value list head) ≡ at_value n list ++ at_value n head
  unfolding list_splice_sorted
  at_value-splice n [] head s = refl
  at_value-splice n (l ∷ list) [] s = rw (splice-nil value list) (sym (append-nil _))
  at_value-splice n (l ∷ list) (h ∷ head) s = elim (Bool-cases (leb (value l) (value h))) [
    | inl e ↦
        rw (splice_left value l h list head e)
          (keep_cons-append (λ a. value a == n) l list _ _ (at_value-splice n list (h ∷ head) s.1))
    | inr e ↦ rw (splice_right value l h list head e) (elim (Bool-cases (value h == n)) [
      | inl same ↦
          let low = leb→lt (value l) (value h) e in
          let here = (==_iff (value h) n).0 same in
          let none_left = at_value-Below n (value l) (l ∷ list) (omega arith) (omega arith, s.0) in
          rw (same, none_left)
            (ap (◌∷◌ h)
              (at_value-splice n (l ∷ list) head s ∙ ap (λ xs. xs ++ at_value n head) none_left))
      | inr other ↦ rw other (at_value-splice n (l ∷ list) head s)
    ])
  ]

  sort_fuel-at_value :
      (n fuel : ℕ) (l : List A)
      → length l ≤ fuel
      → at_value n (sort_fuel value fuel l) ≡ at_value n l
  unfolding sort_fuel
  sort_fuel-at_value n fuel [] h = refl
  sort_fuel-at_value n fuel (x ∷ []) h = refl
  sort_fuel-at_value n zero (x ∷ y ∷ r) h = refl
  sort_fuel-at_value n (suc fuel) (x ∷ y ∷ r) h =
      let cut = list_cut_middle (x ∷ y ∷ r) in
      let short = cut_lengths x y r in
      let p = λ (a : A). value a == n in
      at_value-splice n (sort_fuel value fuel cut.0) (sort_fuel value fuel cut.1)
        (sort_fuel-IsSorted value fuel cut.0 (omega arith))
      ∙ ap₂ ◌++◌ (sort_fuel-at_value n fuel cut.0 (omega arith))
          (sort_fuel-at_value n fuel cut.1 (omega arith))
      ∙ sym (keep-append p cut.0 cut.1)
      ∙ ap (keep p) (cut-append (x ∷ y ∷ r))

  -- Sorting keeps the order of the entries that have one value.
  pub sort-at_value : (n : ℕ) (l : List A) → at_value n (list_expr_sort value l) ≡ at_value n l
  unfolding list_expr_sort
  sort-at_value n l = sort_fuel-at_value n (length l) l (omega arith)
