-- ===== src/Intervals/Automerge/Kernel.antt =====
-- The merge as a transaction on the kernel's elements: what is marked as held by the kernel
-- afterwards, together with what is purged, is what was marked before, with the bounds it had.
use mathlib.Core.List.{Perm, perm_middle}
use mathlib.Core.List.Perm
use mathlib.Core.Path.{subst, sym}
use nftables.Base.{
  ℕ, suc, ◌+◌, ◌≤◌, ◌<◌, ◌≡◌, ◌∙◌, refl, ap, Bool, true, false, List, [], ◌∷◌, ◌++◌, arith, All,
}
use nftables.Intervals.Elem.{Item, catchall, interval, Interval}
use nftables.Intervals.Covers.{IsRange, From, Ascends}
use nftables.Intervals.Automerge.{
  Merged, add_items, purge_elem, remove_overlapping_range, merge_from, setelem_automerge,
}
use nftables.Intervals.Automerge.Steps.{Outcome, round, gap, items-remove_overlapping_range}
use nftables.Intervals.Automerge.Apart.{NoRange, NoRange-snoc}

-- In front of the list, if the flag is set.
abbrev pub push_if : Bool → Interval → List Interval → List Interval
push_if true i l = i ∷ l
push_if false i l = l

-- The ranges marked EXPR_F_KERNEL.
abbrev pub kernels : List Item → List Interval
kernels [] = []
kernels (catchall len k ∷ l) = kernels l
kernels (interval i ∷ l) = push_if i.kernel i (kernels l)

abbrev pub StartsFrom : Bool → ℕ → ℕ → Type 0
StartsFrom true n left = n ≤ left
StartsFrom false n left = Unit

-- Every range of the kernel in the list starts at `n` or later.
abbrev pub KernelFrom : ℕ → List Item → Type 0
KernelFrom n [] = Unit
KernelFrom n (catchall len k ∷ l) = KernelFrom n l
KernelFrom n (interval i ∷ l) = StartsFrom i.kernel n i.left × KernelFrom n l

abbrev pub AfterKernel : Bool → ℕ → List Item → Type 0
AfterKernel true n l = KernelFrom n l
AfterKernel false n l = Unit

-- The kernel's own ranges could not be joined with one another.
abbrev pub KernelsApart : ℕ → List Item → Type 0
KernelsApart g [] = Unit
KernelsApart g (catchall len k ∷ l) = KernelsApart g l
KernelsApart g (interval i ∷ l) = AfterKernel i.kernel (suc i.right + g) l × KernelsApart g l

push_if-perm :
    (b : Bool) (i : Interval) {k l : List Interval}
    → Perm k l
    → Perm (push_if b i k) (push_if b i l)
push_if-perm true i p = Perm.cons i p
push_if-perm false i p = p

push_if_middle :
    (b : Bool) (i : Interval) (k l : List Interval)
    → Perm (k ++ push_if b i l) (push_if b i (k ++ l))
push_if_middle true i k l = perm_middle k l
push_if_middle false i k l = Perm.rfl

push_if-append :
    (b : Bool) (i : Interval) (k l : List Interval) → push_if b i k ++ l ≡ push_if b i (k ++ l)
push_if-append true i k l = refl
push_if-append false i k l = refl

push_if_swap :
    (b c : Bool) (i j : Interval) (l : List Interval)
    → Perm (push_if b i (push_if c j l)) (push_if c j (push_if b i l))
push_if_swap true true i j l = Perm.swap j i l
push_if_swap true false i j l = Perm.rfl
push_if_swap false c i j l = Perm.rfl

purge-remove_overlapping_range :
    (i : Interval) (m : Merged) → (remove_overlapping_range i m).purge ≡ push_if i.kernel i m.purge
unfolding remove_overlapping_range
purge-remove_overlapping_range i m = ground arith

kernels-add_items :
    (is : List Item) (m : Merged) → NoRange is → kernels (add_items is m).items ≡ kernels m.items
kernels-add_items [] m c = refl
kernels-add_items (catchall len k ∷ is) m c = kernels-add_items is m c
kernels-add_items (interval i ∷ is) m c = elim c [ ]

purge-add_items : (is : List Item) (m : Merged) → (add_items is m).purge ≡ m.purge
purge-add_items [] m = refl
purge-add_items (i ∷ is) m = purge-add_items is m

kernels-NoRange : (l : List Item) → NoRange l → kernels l ≡ []
kernels-NoRange [] c = refl
kernels-NoRange (catchall len k ∷ l) c = kernels-NoRange l c
kernels-NoRange (interval i ∷ l) c = elim c [ ]

-- The kernel's elements of a result, whether they stay or are purged.
abbrev Accounts : List Interval → Merged → Type 0
Accounts before m = Perm (kernels m.items ++ m.purge) before

Accounts-add_items :
    (before : List Interval) (is : List Item) (m : Merged)
    → NoRange is
    → Accounts before m
    → Accounts before (add_items is m)
Accounts-add_items before is m c h = rw (kernels-add_items is m c, purge-add_items is m) h

Accounts-remove_overlapping_range :
    (before : List Interval) (i : Interval) (m : Merged)
    → Accounts before m
    → Accounts (push_if i.kernel i before) (remove_overlapping_range i m)
Accounts-remove_overlapping_range before i m h =
    rw (items-remove_overlapping_range i m, purge-remove_overlapping_range i m)
      (Perm.trans (push_if_middle i.kernel i (kernels m.items) m.purge) (push_if-perm i.kernel i h))

abbrev Balances : Bool → List Item → Type 0
Balances a rest =
    (prev : Interval) (low high : ℕ) (skipped : List Item)
    → low ≡ prev.left
    → high ≡ prev.right
    → low ≤ high
    → From low rest
    → NoRange skipped
    → AfterKernel prev.kernel (suc prev.right + gap a) rest
    → Accounts (push_if prev.kernel prev (kernels rest))
        (merge_from a prev (low, high) skipped rest)

AfterKernel-catchall :
    (b : Bool) (n len : ℕ) (k : Bool) (l : List Item)
    → AfterKernel b n (catchall len k ∷ l)
    → AfterKernel b n l
AfterKernel-catchall true n len k l h = h
AfterKernel-catchall false n len k l h = tt

AfterKernel-tail :
    (b : Bool) (n : ℕ) (i : Interval) (l : List Item)
    → AfterKernel b n (interval i ∷ l)
    → AfterKernel b n l
AfterKernel-tail true n i l h = h.1
AfterKernel-tail false n i l h = tt

-- A range of the kernel that touches `prev`, itself of the kernel, is ruled out.
StartsFrom-false : (b : Bool) (n left : ℕ) → StartsFrom b n left → left < n → b ≡ false
StartsFrom-false true n left h k = absurd (omega arith)
StartsFrom-false false n left h k = refl

push_if_none : (b : Bool) (i : Interval) (l : List Interval) → b ≡ false → push_if b i l ≡ l
push_if_none b i l e = rw e

push_if_some : (b : Bool) (i : Interval) (l : List Interval) → b ≡ true → push_if b i l ≡ i ∷ l
push_if_some b i l e = rw e

module _ (a : Bool) (i : Interval) (rest : List Item) (ih : Balances a rest)
    (range : i.left ≤ i.right) (above : From i.left rest)
    (own : AfterKernel i.kernel (suc i.right + gap a) rest) where
  Balances_round :
      (prev : Interval) (low high : ℕ) (skipped : List Item)
      → low ≡ prev.left
      → high ≡ prev.right
      → low ≤ high
      → low ≤ i.left
      → From low rest
      → NoRange skipped
      → AfterKernel prev.kernel (suc prev.right + gap a) (interval i ∷ rest)
      → (m : Merged) → Outcome a prev low high skipped i rest m
      → Accounts (push_if prev.kernel prev (push_if i.kernel i (kernels rest))) m
  Balances_round prev low high skipped el eh h f fr c k m (Outcome.covered p q) =
      Perm.trans
        (Accounts-remove_overlapping_range _ i _
          (ih prev low high skipped el eh h fr c (AfterKernel-tail prev.kernel _ i rest k)))
        (push_if_swap i.kernel prev.kernel i prev (kernels rest))
  Balances_round prev low high skipped el eh h f fr c k m (Outcome.took_over p q t) =
      let own_prev = subst (λ b. AfterKernel b (suc prev.right + gap a) (interval i ∷ rest)) t k in
      let new = StartsFrom-false i.kernel _ i.left own_prev.0 (omega arith) in
      let i' : Interval = record i { left = prev.left } in
      let after = merge_from a i' (low, i.right) [] rest in
      let balance = ih i' low i.right [] el refl (omega arith) fr tt own in
      let balance' =
        subst (Perm (kernels after.items ++ after.purge)) (push_if_none i.kernel i' _ new)
          balance in
      Accounts-add_items _ skipped (purge_elem prev after) c (
        subst (Perm (kernels after.items ++ prev ∷ after.purge))
          (sym (push_if_some prev.kernel prev _ t ∙ ap (◌∷◌ prev) (push_if_none i.kernel i _ new)))
          (Perm.trans (perm_middle (kernels after.items) after.purge) (Perm.cons prev balance')))
  Balances_round prev low high skipped el eh h f fr c k m (Outcome.joined p q t) =
      let prev' : Interval = record prev { right = i.right } in
      let after = merge_from a prev' (low, i.right) skipped rest in
      let own_prev = subst (λ b. AfterKernel b (suc i.right + gap a) rest) (sym t) tt in
      let balance = ih prev' low i.right skipped el refl (omega arith) fr c own_prev in
      let balance' = subst (λ l. Accounts l after) (push_if_none prev.kernel prev' _ t) balance in
      subst (λ l. Accounts l m) (sym (push_if_none prev.kernel prev _ t))
        (Accounts-remove_overlapping_range _ i after balance')
  Balances_round prev low high skipped el eh h f fr c k m (Outcome.apart p) =
      let after = merge_from a i (i.left, i.right) [] rest in
      let balance = ih i i.left i.right [] refl refl range above tt own in
      let m' = add_items skipped after in
      rw (push_if-append prev.kernel prev (kernels m'.items) m'.purge)
        (push_if-perm prev.kernel prev (Accounts-add_items _ skipped after c balance))

Balances-merge_from :
    (a : Bool) (rest : List Item)
    → Ascends rest
    → All IsRange rest
    → KernelsApart (gap a) rest
    → Balances a rest
unfolding merge_from
Balances-merge_from a [] s r o prev low high skipped el eh h f c k =
    rw (kernels-NoRange skipped c, push_if-append prev.kernel prev [] []) Perm.rfl
Balances-merge_from a (catchall len b ∷ rest) s r o prev low high skipped el eh h f c k =
    Balances-merge_from a rest s r.1 o prev low high (skipped ++ catchall len b ∷ []) el eh h f
      (NoRange-snoc skipped len b c) (AfterKernel-catchall prev.kernel _ len b rest k)
Balances-merge_from a (interval i ∷ rest) s r o prev low high skipped el eh h f c k =
    Balances_round a i rest (Balances-merge_from a rest s.1 r.1 o.1) r.0 s.0 o.0 prev low high
      skipped el eh h f.0 f.1 c k _ (round a prev low high skipped i rest f.0 r.0)

-- If the kernel's ranges in an ascending list could not be joined with one another, then those that
-- are still marked after the merge and those that were purged are together, with unchanged bounds,
-- the ones marked before: a deletion of the purged ones leaves the kernel what is marked.
pub kernels-setelem_automerge-perm :
    (automerge : Bool) (l : List Item)
    → Ascends l
    → All IsRange l
    → KernelsApart (gap automerge) l
    → Perm
        (kernels (setelem_automerge automerge l).items ++ (setelem_automerge automerge l).purge)
        (kernels l)
unfolding setelem_automerge
kernels-setelem_automerge-perm a [] s r o = Perm.rfl
kernels-setelem_automerge-perm a (catchall len b ∷ rest) s r o =
    kernels-setelem_automerge-perm a rest s r.1 o
kernels-setelem_automerge-perm a (interval i ∷ rest) s r o =
    Balances-merge_from a rest s.1 r.1 o.1 i i.left i.right [] refl refl r.0 s.0 tt o.0
