-- ===== src/Intervals/Commands/Removing.antt =====
-- One element of a delete command, on a cache of elements that the kernel holds.
use nftables.Base.{
  ℕ, ◌+◌, ◌≤◌, ◌≡◌, refl, ap, inl, inr, Bool, true, false, not, List, [], ◌∷◌, ◌++◌, some, All,
  All-append, arith, total, total-append, total-keep, if◌then◌else◌, ◌⊎◌,
}
use nftables.Mergesort.{list_expr_sort}
use nftables.Mergesort.Laws.{sort-All, sort-total}
use nftables.Intervals.Elem.{Item, catchall, interval, Interval, item_value}
use nftables.Intervals.Covers.{IsRange}
use nftables.Intervals.Delete.{Deleted, existing}
use nftables.Intervals.Delete.Counts.{removes, survivors, removals, AllDeletable, DeletableFrom}
use nftables.Intervals.Delete.Values.{hit, hits, hits-setelem_delete}
use nftables.Intervals.Delete.Kernel.{held, held-setelem_delete}
use nftables.Intervals.Commands.{__set_delete, set_remove}

-- An element that the kernel holds and that is not to be removed.
abbrev pub IsHeld : Item → Type 0
IsHeld (catchall len k) = Unit
IsHeld (interval i) = (i.kernel ≡ true) × (i.remove ≡ false)

abbrev HeldOrGoes : Item → Type 0
HeldOrGoes (catchall len k) = Unit
HeldOrGoes (interval i) = (i.kernel ≡ true) ⊎ (i.remove ≡ true)

abbrev going : Item → ℕ
going i = if removes i then 1 else 0

held_first : (p : Interval) (l : List Item) → p.kernel ≡ true → DeletableFrom p l
held_first p [] k = tt
held_first p (catchall len c ∷ l) k = held_first p l k
held_first p (interval i ∷ l) k = (inr (inl k), held_first p l k)

none_going : (p : Interval) (l : List Item) → total going l ≡ 0 → DeletableFrom p l
none_going p [] z = tt
none_going p (catchall len c ∷ l) z = none_going p l (omega arith)
none_going p (interval i ∷ l) z = (inl (ground arith), none_going p l (omega arith))

-- With one element to remove at most, none is passed over.
AllDeletable-of_one : (l : List Item) → All HeldOrGoes l → total going l ≤ 1 → AllDeletable l
AllDeletable-of_one [] h z = tt
AllDeletable-of_one (catchall len c ∷ l) h z = AllDeletable-of_one l h.1 (omega arith)
AllDeletable-of_one (interval p ∷ l) h z = (
  elim h.0 [ inl k ↦ held_first p l k | inr r ↦ none_going p l (ground arith) ],
  AllDeletable-of_one l h.1 (omega arith),
)

none_held_goes : (l : List Item) → All IsHeld l → total going l ≡ 0
none_held_goes [] h = refl
none_held_goes (catchall len c ∷ l) h = omega (arith, none_held_goes l h.1)
none_held_goes (interval i ∷ l) h = ground (arith, none_held_goes l h.1)

HeldOrGoes-of_held : (l : List Item) → All IsHeld l → All HeldOrGoes l
HeldOrGoes-of_held [] h = tt
HeldOrGoes-of_held (catchall len c ∷ l) h = (tt, HeldOrGoes-of_held l h.1)
HeldOrGoes-of_held (interval i ∷ l) h = (inl h.0.0, HeldOrGoes-of_held l h.1)

total_staying :
    (h : Item → ℕ) (l : List Item)
    → All IsHeld l
    → total (λ x. if not (removes x) then h x else 0) l ≡ total h l
total_staying h [] p = refl
total_staying h (catchall len c ∷ l) p = ap (λ n. h (catchall len c) + n) (total_staying h l p.1)
total_staying h (interval i ∷ l) p = ground (arith, total_staying h l p.1)

total_going :
    (h : Item → ℕ) (l : List Item) → All IsHeld l → total (λ x. if removes x then h x else 0) l ≡ 0
total_going h [] p = refl
total_going h (catchall len c ∷ l) p = omega (arith, total_going h l p.1)
total_going h (interval i ∷ l) p = ground (arith, total_going h l p.1)

module _ (automerge : Bool) (old : List Item) (r : Interval) (d : Deleted)
    (held_old : All IsHeld old) (ranges : All IsRange old) (range : r.left ≤ r.right)
    (done : __set_delete automerge (interval r) old ≡ some d) where
  abbrev joined : List Item
  joined = old ++ set_remove (interval r) ∷ []

  abbrev sorted : List Item
  sorted = list_expr_sort item_value joined

  sorted-IsRange : All IsRange sorted
  sorted-IsRange =
      sort-All item_value IsRange joined
        (All-append IsRange old (set_remove (interval r) ∷ []) ranges (range, tt))

  sorted-AllDeletable : AllDeletable sorted
  sorted-AllDeletable =
      AllDeletable-of_one sorted
        (sort-All item_value HeldOrGoes joined (
          All-append HeldOrGoes old (set_remove (interval r) ∷ []) (HeldOrGoes-of_held old held_old)
            (inr refl, tt)))
        (omega (
          arith,
          sort-total item_value going joined,
          total-append going old (set_remove (interval r) ∷ []),
          none_held_goes old held_old,
        ))

  total-survivors : (h : Item → ℕ) → total h (survivors sorted) ≡ total h old
  total-survivors h =
      let stays = λ (x : Item). if not (removes x) then h x else 0 in
      omega (
        arith,
        total-keep h (λ x. not (removes x)) sorted,
        sort-total item_value stays joined,
        total-append stays old (set_remove (interval r) ∷ []),
        total_staying h old held_old,
      )

  total-removals : (h : Item → ℕ) → total h (removals sorted) ≡ h (set_remove (interval r))
  total-removals h =
      let goes = λ (x : Item). if removes x then h x else 0 in
      omega (
        arith,
        total-keep h removes sorted,
        sort-total item_value goes joined,
        total-append goes old (set_remove (interval r) ∷ []),
        total_going h old held_old,
      )

  -- If the deletion of a range succeeds, then as many ranges hold a value afterwards as before, less
  -- the removed one if it holds it. So values are lost that it covers, and no others.
  pub hits-__set_delete : (v : ℕ) → hits v (existing d) + hit v (interval r) ≡ hits v old
  unfolding __set_delete
  hits-__set_delete v = omega (
    arith,
    hits-setelem_delete v automerge sorted d sorted-IsRange sorted-AllDeletable done,
    total-survivors (hit v),
    total-removals (hit v),
  )

  -- Nothing that the kernel holds is lost or altered without being listed for removal: by any weight
  -- the ranges still marked and the listed ones weigh what the cache weighed.
  pub held-__set_delete :
      (w : Interval → ℕ) → total (held w) (existing d) + total w d.purge ≡ total (held w) old
  unfolding __set_delete
  held-__set_delete w = omega (
    arith,
    held-setelem_delete w automerge sorted d sorted-IsRange sorted-AllDeletable done,
    total-survivors (held w),
  )
