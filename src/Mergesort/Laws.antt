-- ===== src/Mergesort/Laws.antt =====
-- The sort loses and invents nothing, and its result ascends.
use mathlib.Core.List.{Perm, perm_middle}
use mathlib.Core.List.Perm
use mathlib.Core.Bool.{◌||◌}
use nftables.Base.{
  ℕ, zero, suc, ◌+◌, total, total-append, take, drop, All-take, All-drop, ◌-◌, ◌≤◌, ◌<◌, ◌≡◌, refl,
  sym, ap, ◌∙◌, inl, inr, Bool, true, false, List, [], ◌∷◌, ◌++◌, arith, leb, leb→le, leb→lt,
  Bool-cases, length, take-append-drop, length-take, length-drop, any, any-append, All, All-map,
}
use nftables.Mergesort.{meet, list_cut_middle, list_splice_sorted, sort_fuel, list_expr_sort}

-- The pointers meet before the end.
meet-bounds : (s e : ℕ) → s ≤ e → (s ≤ meet s e) × (meet s e ≤ e) × (s < e → meet s e < e)
unfolding meet
meet-bounds s zero h = (omega arith, omega arith, λ p. omega arith)
meet-bounds s (suc e) h = ground (arith, meet-bounds (suc s) e)

module _ {ℓ} {A : Type ℓ} where
  -- The two parts of the cut are shorter than a list of two or more.
  pub cut_lengths :
      (x y : A) (r : List A)
      → (length (list_cut_middle (x ∷ y ∷ r)).0 < length (x ∷ y ∷ r))
        × (length (list_cut_middle (x ∷ y ∷ r)).1 < length (x ∷ y ∷ r))
  unfolding list_cut_middle
  cut_lengths x y r =
      let k = suc (meet 0 (length (x ∷ y ∷ r) - 1)) in
      let bounds = meet-bounds 0 (length (x ∷ y ∷ r) - 1) (omega arith) in
      let early = bounds.2 (omega arith) in
      (omega (arith, length-take k (x ∷ y ∷ r)), omega (arith, length-drop k (x ∷ y ∷ r)))

  pub cut-append : (l : List A) → (list_cut_middle l).0 ++ (list_cut_middle l).1 ≡ l
  unfolding list_cut_middle
  cut-append l = take-append-drop (suc (meet 0 (length l - 1))) l

module _ {ℓ} {A : Type ℓ} (value : A → ℕ) where
  pub splice-nil : (list : List A) → list_splice_sorted value list [] ≡ list
  unfolding list_splice_sorted
  splice-nil [] = refl
  splice-nil (l ∷ list) = ap (◌∷◌ l) (splice-nil list)

  pub splice_left :
      (l h : A) (list head : List A)
      → leb (value l) (value h) ≡ true
      → list_splice_sorted value (l ∷ list) (h ∷ head)
        ≡ l ∷ list_splice_sorted value list (h ∷ head)
  unfolding list_splice_sorted
  splice_left l h list head e = rw (e, list_splice_sorted)

  pub splice_right :
      (l h : A) (list head : List A)
      → leb (value l) (value h) ≡ false
      → list_splice_sorted value (l ∷ list) (h ∷ head)
        ≡ h ∷ list_splice_sorted value (l ∷ list) head
  unfolding list_splice_sorted
  splice_right l h list head e = rw (e, list_splice_sorted)

  pub splice-perm : (list head : List A) → Perm (list_splice_sorted value list head) (list ++ head)
  unfolding list_splice_sorted
  splice-perm [] head = Perm.rfl
  splice-perm (l ∷ list) [] = Perm.cons l (splice-perm list [])
  splice-perm (l ∷ list) (h ∷ head) = elim (Bool-cases (leb (value l) (value h))) [
    | inl e ↦ rw (splice_left l h list head e) (Perm.cons l (splice-perm list (h ∷ head)))
    | inr e ↦ rw (splice_right l h list head e) (
        Perm.trans (Perm.cons h (splice-perm (l ∷ list) head))
          (Perm.symm (perm_middle (l ∷ list) head)))
  ]

  sort_fuel-perm : (fuel : ℕ) (l : List A) → Perm (sort_fuel value fuel l) l
  unfolding sort_fuel
  sort_fuel-perm fuel [] = Perm.rfl
  sort_fuel-perm fuel (x ∷ []) = Perm.rfl
  sort_fuel-perm zero (x ∷ y ∷ r) = Perm.rfl
  sort_fuel-perm (suc fuel) (x ∷ y ∷ r) =
      let cut = list_cut_middle (x ∷ y ∷ r) in
      let halves = Perm.append (sort_fuel-perm fuel cut.0) (sort_fuel-perm fuel cut.1) in
      Perm.trans (splice-perm _ _) (rw (cut-append (x ∷ y ∷ r)) at halves)

  -- Ascending by value: every entry is at most each later one.
  abbrev pub Below : ℕ → List A → Type 0
  Below n = All (λ a. n ≤ value a)

  abbrev pub IsSorted : List A → Type 0
  IsSorted [] = Unit
  IsSorted (x ∷ l) = Below (value x) l × IsSorted l

  Below-trans : (n m : ℕ) (l : List A) → n ≤ m → Below m l → Below n l
  Below-trans n m l h = All-map (λ a. m ≤ value a) (λ a. n ≤ value a) (λ a p. omega arith) l

  pub splice-All {κ} :
      (P : A → Type κ) (list head : List A)
      → All P list
      → All P head
      → All P (list_splice_sorted value list head)
  unfolding list_splice_sorted
  splice-All P [] head p q = q
  splice-All P (l ∷ list) [] p q = (p.0, splice-All P list [] p.1 q)
  splice-All P (l ∷ list) (h ∷ head) p q = elim (Bool-cases (leb (value l) (value h))) [
    | inl e ↦ rw (splice_left l h list head e) (p.0, splice-All P list (h ∷ head) p.1 q)
    | inr e ↦ rw (splice_right l h list head e) (q.0, splice-All P (l ∷ list) head p q.1)
  ]

  pub splice-IsSorted :
      (list head : List A)
      → IsSorted list
      → IsSorted head
      → IsSorted (list_splice_sorted value list head)
  unfolding list_splice_sorted
  splice-IsSorted [] head p q = q
  splice-IsSorted (l ∷ list) [] p q = rw (splice-nil list) p
  splice-IsSorted (l ∷ list) (h ∷ head) p q = elim (Bool-cases (leb (value l) (value h))) [
    | inl e ↦
        let low = leb→le (value l) (value h) e in
        rw (splice_left l h list head e) (
          splice-All _ list (h ∷ head) p.0 (low, Below-trans _ _ head low q.0),
          splice-IsSorted list (h ∷ head) p.1 q,
        )
    | inr e ↦
        let low = leb→lt (value l) (value h) e in
        rw (splice_right l h list head e) (
          splice-All _ (l ∷ list) head (omega arith, Below-trans _ _ list (omega arith) p.0) q.0,
          splice-IsSorted (l ∷ list) head p q.1,
        )
  ]

  pub sort_fuel-IsSorted :
      (fuel : ℕ) (l : List A) → length l ≤ fuel → IsSorted (sort_fuel value fuel l)
  unfolding sort_fuel
  sort_fuel-IsSorted fuel [] h = tt
  sort_fuel-IsSorted fuel (x ∷ []) h = (tt, tt)
  sort_fuel-IsSorted zero (x ∷ y ∷ r) h = absurd (omega arith)
  sort_fuel-IsSorted (suc fuel) (x ∷ y ∷ r) h =
      let cut = list_cut_middle (x ∷ y ∷ r) in
      let short = cut_lengths x y r in
      splice-IsSorted _ _ (sort_fuel-IsSorted fuel cut.0 (omega arith))
        (sort_fuel-IsSorted fuel cut.1 (omega arith))

  -- Sorting returns a rearrangement of its input, in ascending order of the values.
  pub sort-perm-IsSorted :
      (l : List A) → Perm (list_expr_sort value l) l × IsSorted (list_expr_sort value l)
  unfolding list_expr_sort
  sort-perm-IsSorted l =
      (sort_fuel-perm (length l) l, sort_fuel-IsSorted (length l) l (omega arith))

  pub splice-any :
      (p : A → Bool) (list head : List A)
      → any p (list_splice_sorted value list head) ≡ (any p list || any p head)
  unfolding list_splice_sorted
  splice-any p [] head = refl
  splice-any p (l ∷ list) [] = ground (arith, splice-any p list [])
  splice-any p (l ∷ list) (h ∷ head) = elim (Bool-cases (leb (value l) (value h))) [
    | inl e ↦ rw (splice_left l h list head e) (ground (arith, splice-any p list (h ∷ head)))
    | inr e ↦ rw (splice_right l h list head e) (ground (arith, splice-any p (l ∷ list) head))
  ]

  sort_fuel-any : (p : A → Bool) (fuel : ℕ) (l : List A) → any p (sort_fuel value fuel l) ≡ any p l
  unfolding sort_fuel
  sort_fuel-any p fuel [] = refl
  sort_fuel-any p fuel (x ∷ []) = refl
  sort_fuel-any p zero (x ∷ y ∷ r) = refl
  sort_fuel-any p (suc fuel) (x ∷ y ∷ r) =
      let cut = list_cut_middle (x ∷ y ∷ r) in
      rw (splice-any p _ _, sort_fuel-any p fuel cut.0, sort_fuel-any p fuel cut.1)
        (sym (any-append p cut.0 cut.1) ∙ ap (any p) (cut-append (x ∷ y ∷ r)))

  pub sort-any : (p : A → Bool) (l : List A) → any p (list_expr_sort value l) ≡ any p l
  unfolding list_expr_sort
  sort-any p l = sort_fuel-any p (length l) l

  splice-total :
      (w : A → ℕ) (list head : List A)
      → total w (list_splice_sorted value list head) ≡ total w list + total w head
  unfolding list_splice_sorted
  splice-total w [] head = omega arith
  splice-total w (l ∷ list) [] = omega (arith, splice-total w list [])
  splice-total w (l ∷ list) (h ∷ head) = elim (Bool-cases (leb (value l) (value h))) [
    | inl e ↦ rw (splice_left l h list head e) (omega (arith, splice-total w list (h ∷ head)))
    | inr e ↦ rw (splice_right l h list head e) (omega (arith, splice-total w (l ∷ list) head))
  ]

  sort_fuel-total :
      (w : A → ℕ) (fuel : ℕ) (l : List A) → total w (sort_fuel value fuel l) ≡ total w l
  unfolding sort_fuel
  sort_fuel-total w fuel [] = refl
  sort_fuel-total w fuel (x ∷ []) = refl
  sort_fuel-total w zero (x ∷ y ∷ r) = refl
  sort_fuel-total w (suc fuel) (x ∷ y ∷ r) =
      let cut = list_cut_middle (x ∷ y ∷ r) in
      rw (splice-total w _ _, sort_fuel-total w fuel cut.0, sort_fuel-total w fuel cut.1)
        (sym (total-append w cut.0 cut.1) ∙ ap (total w) (cut-append (x ∷ y ∷ r)))

  pub sort-total : (w : A → ℕ) (l : List A) → total w (list_expr_sort value l) ≡ total w l
  unfolding list_expr_sort
  sort-total w l = sort_fuel-total w (length l) l

  sort_fuel-All {κ} :
      (P : A → Type κ) (fuel : ℕ) (l : List A) → All P l → All P (sort_fuel value fuel l)
  unfolding sort_fuel list_cut_middle
  sort_fuel-All P fuel [] p = p
  sort_fuel-All P fuel (x ∷ []) p = p
  sort_fuel-All P zero (x ∷ y ∷ r) p = p
  sort_fuel-All P (suc fuel) (x ∷ y ∷ r) p =
      let l = x ∷ y ∷ r in
      let k = suc (meet 0 (length l - 1)) in
      splice-All P _ _ (sort_fuel-All P fuel (take k l) (All-take P k l p))
        (sort_fuel-All P fuel (drop k l) (All-drop P k l p))

  pub sort-All {κ} : (P : A → Type κ) (l : List A) → All P l → All P (list_expr_sort value l)
  unfolding list_expr_sort
  sort-All P l p = sort_fuel-All P (length l) l p
