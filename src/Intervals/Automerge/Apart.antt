-- ===== src/Intervals/Automerge/Apart.antt =====
-- What the merge leaves is normalised: ranges stand apart, by a gap where contiguous ones are joined.
use nftables.Base.{ℕ, suc, ◌+◌, ◌≤◌, ◌≡◌, refl, Bool, List, [], ◌∷◌, ◌++◌, arith, All}
use mathlib.Core.Path.{subst, sym}
use nftables.Intervals.Elem.{Item, catchall, interval, Interval}
use nftables.Intervals.Covers.{IsRange, From, Ascends, Separated}
use nftables.Intervals.Automerge.{
  Merged, add_items, remove_overlapping_range, merge_from, setelem_automerge,
}
use nftables.Intervals.Automerge.Steps.{Outcome, round, gap, items-remove_overlapping_range}

-- Elements passed since `prev` are catchall elements.
abbrev pub NoRange : List Item → Type 0
NoRange [] = Unit
NoRange (catchall len k ∷ l) = NoRange l
NoRange (interval i ∷ l) = ⊥

pub NoRange-snoc :
    (l : List Item) (len : ℕ) (k : Bool) → NoRange l → NoRange (l ++ catchall len k ∷ [])
NoRange-snoc [] len k n = tt
NoRange-snoc (catchall _ _ ∷ l) len k n = NoRange-snoc l len k n
NoRange-snoc (interval i ∷ l) len k n = elim n [ ]

From-le : (n m : ℕ) (l : List Item) → n ≤ m → From m l → From n l
From-le n m [] h f = tt
From-le n m (catchall len k ∷ l) h f = From-le n m l h f
From-le n m (interval i ∷ l) h f = (omega arith, From-le n m l h f.1)

-- Separated ranges, none of which starts before `n`.
abbrev Normal : ℕ → ℕ → List Item → Type 0
Normal g n l = From n l × Separated g l

Normal-add_items :
    (g n : ℕ) (is : List Item) (m : Merged)
    → NoRange is
    → Normal g n m.items
    → Normal g n (add_items is m).items
Normal-add_items g n [] m c h = h
Normal-add_items g n (catchall len k ∷ is) m c h = Normal-add_items g n is m c h
Normal-add_items g n (interval i ∷ is) m c h = elim c [ ]

Normal-catchalls : (g n : ℕ) (is : List Item) → NoRange is → Normal g n is
Normal-catchalls g n [] c = (tt, tt)
Normal-catchalls g n (catchall len k ∷ is) c = Normal-catchalls g n is c
Normal-catchalls g n (interval i ∷ is) c = elim c [ ]

abbrev Normalises : Bool → List Item → Type 0
Normalises a rest =
    (prev : Interval) (low high : ℕ) (skipped : List Item)
    → low ≡ prev.left
    → high ≡ prev.right
    → low ≤ high
    → From low rest
    → NoRange skipped
    → Normal (gap a) low (merge_from a prev (low, high) skipped rest).items

module _ (a : Bool) (i : Interval) (rest : List Item) (ih : Normalises a rest)
    (range : i.left ≤ i.right) (above : From i.left rest) where
  Normal-overlapping :
      (n : ℕ) (j : Interval) (m : Merged)
      → Normal (gap a) n m.items
      → Normal (gap a) n (remove_overlapping_range j m).items
  Normal-overlapping n j m h = subst (Normal (gap a) n) (sym (items-remove_overlapping_range j m)) h

  Normal-round :
      (prev : Interval) (low high : ℕ) (skipped : List Item)
      → low ≡ prev.left
      → high ≡ prev.right
      → low ≤ high
      → low ≤ i.left
      → From low rest
      → NoRange skipped
      → (m : Merged) → Outcome a prev low high skipped i rest m
      → Normal (gap a) low m.items
  Normal-round prev low high skipped el eh h f fr c m (Outcome.covered p q) =
      Normal-overlapping low i _ (ih prev low high skipped el eh h fr c)
  Normal-round prev low high skipped el eh h f fr c m (Outcome.took_over p q k) =
      Normal-add_items (gap a) low skipped _ c
        (ih (record i { left = prev.left }) low i.right [] el refl (omega arith) fr tt)
  Normal-round prev low high skipped el eh h f fr c m (Outcome.joined p q k) =
      Normal-overlapping low i _
        (ih (record prev { right = i.right }) low i.right skipped el refl (omega arith) fr c)
  Normal-round prev low high skipped el eh h f fr c m (Outcome.apart p) =
      let rest_normal = ih i i.left i.right [] refl refl range above tt in
      let all = Normal-add_items (gap a) i.left skipped _ c rest_normal in
      let later = (add_items skipped (merge_from a i (i.left, i.right) [] rest)).items in
      (
        (omega arith, From-le low i.left later f all.0),
        (From-le (suc prev.right + gap a) i.left later (omega arith) all.0, all.1),
      )

Normal-merge_from :
    (a : Bool) (rest : List Item) → Ascends rest → All IsRange rest → Normalises a rest
unfolding merge_from
Normal-merge_from a [] s r prev low high skipped el eh h f c =
    let end = Normal-catchalls (gap a) low skipped c in
    let after = Normal-catchalls (gap a) (suc prev.right + gap a) skipped c in
    ((omega arith, end.0), (after.0, end.1))
Normal-merge_from a (catchall len k ∷ rest) s r prev low high skipped el eh h f c =
    Normal-merge_from a rest s r.1 prev low high (skipped ++ catchall len k ∷ []) el eh h f
      (NoRange-snoc skipped len k c)
Normal-merge_from a (interval i ∷ rest) s r prev low high skipped el eh h f c =
    Normal-round a i rest (Normal-merge_from a rest s.1 r.1) r.0 s.0 prev low high skipped el eh h
      f.0 f.1 c _ (round a prev low high skipped i rest f.0 r.0)

-- The ranges that the merge of ascending ranges leaves are disjoint, in ascending order, and with
-- `automerge` a value that is in no range lies between each two.
pub setelem_automerge-Separated :
    (automerge : Bool) (l : List Item)
    → Ascends l
    → All IsRange l
    → Separated (gap automerge) (setelem_automerge automerge l).items
unfolding setelem_automerge
setelem_automerge-Separated a [] s r = tt
setelem_automerge-Separated a (catchall len k ∷ rest) s r = setelem_automerge-Separated a rest s r.1
setelem_automerge-Separated a (interval i ∷ rest) s r =
    (Normal-merge_from a rest s.1 r.1 i i.left i.right [] refl refl r.0 s.0 tt).1
