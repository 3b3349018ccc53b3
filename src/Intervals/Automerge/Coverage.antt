-- ===== src/Intervals/Automerge/Coverage.antt =====
-- The merge does not change which values the set covers.
use nftables.Base.{
  ℕ, ◌≤◌, ◌≡◌, refl, Bool, ◌||◌, List, [], ◌∷◌, ◌++◌, arith, any-append, All, ◌∙◌, ap,
}
use nftables.Intervals.Elem.{Item, catchall, interval, Interval}
use nftables.Intervals.Covers.{in_range, item_covers, covers, IsRange, From, Ascends}
use nftables.Intervals.Automerge.{Merged, add_items, merge_from, setelem_automerge}
use nftables.Intervals.Automerge.Steps.{Outcome, round, gap, items-remove_overlapping_range}

covers-add_items :
    (v : ℕ) (is : List Item) (m : Merged)
    → covers v (add_items is m).items ≡ (covers v is || covers v m.items)
covers-add_items v [] m = refl
covers-add_items v (i ∷ is) m = ground (arith, covers-add_items v is m)

-- What the loop keeps, whatever it starts from: `low` and `high` are the bounds of `prev`.
abbrev Keeps : ℕ → Bool → List Item → Type 0
Keeps v a rest =
    (prev : Interval) (low high : ℕ) (skipped : List Item)
    → low ≡ prev.left
    → high ≡ prev.right
    → low ≤ high
    → From low rest
    → covers v (merge_from a prev (low, high) skipped rest).items
      ≡ (in_range v prev || (covers v skipped || covers v rest))

module _ (v : ℕ) (a : Bool) (i : Interval) (rest : List Item) (ih : Keeps v a rest)
    (range : i.left ≤ i.right) (above : From i.left rest) where
  Keeps_round :
      (prev : Interval) (low high : ℕ) (skipped : List Item)
      → low ≡ prev.left
      → high ≡ prev.right
      → low ≤ high
      → low ≤ i.left
      → From low rest
      → (m : Merged) → Outcome a prev low high skipped i rest m
      → covers v m.items
        ≡ (in_range v prev || (covers v skipped || (in_range v i || covers v rest)))
  Keeps_round prev low high skipped el eh h f fr m (Outcome.covered p q) =
      ap (covers v) (items-remove_overlapping_range i _)
      ∙ ih prev low high skipped el eh h fr
      ∙ ground arith
  Keeps_round prev low high skipped el eh h f fr m (Outcome.took_over p q k) =
      covers-add_items v skipped _
      ∙ ap (λ b. covers v skipped || b)
          (ih (record i { left = prev.left }) low i.right [] el refl (omega arith) fr)
      ∙ ground (arith, gap)
  Keeps_round prev low high skipped el eh h f fr m (Outcome.joined p q k) =
      ap (covers v) (items-remove_overlapping_range i _)
      ∙ ih (record prev { right = i.right }) low i.right skipped el refl (omega arith) fr
      ∙ ground (arith, gap)
  Keeps_round prev low high skipped el eh h f fr m (Outcome.apart p) =
      ap (λ b. in_range v prev || b)
        (covers-add_items v skipped _
          ∙ ap (λ b. covers v skipped || b) (ih i i.left i.right [] refl refl range above))

From-tail : (n : ℕ) (i : Item) (l : List Item) → From n (i ∷ l) → From n l
From-tail n (catchall len k) l f = f
From-tail n (interval i) l f = f.1

covers-merge_from :
    (v : ℕ) (a : Bool) (rest : List Item) → Ascends rest → All IsRange rest → Keeps v a rest
unfolding merge_from
covers-merge_from v a [] s r prev low high skipped el eh h f = ground arith
covers-merge_from v a (catchall len k ∷ rest) s r prev low high skipped el eh h f =
    covers-merge_from v a rest s r.1 prev low high (skipped ++ catchall len k ∷ []) el eh h f
    ∙ ground (arith, any-append (item_covers v) skipped (catchall len k ∷ []))
covers-merge_from v a (interval i ∷ rest) s r prev low high skipped el eh h f =
    Keeps_round v a i rest (covers-merge_from v a rest s.1 r.1) r.0 s.0 prev low high skipped el eh
      h f.0 f.1 _ (round a prev low high skipped i rest f.0 r.0)

-- The merge of ascending ranges leaves every value in the set that was in it, and adds none.
pub covers-setelem_automerge :
    (v : ℕ) (automerge : Bool) (l : List Item)
    → Ascends l
    → All IsRange l
    → covers v (setelem_automerge automerge l).items ≡ covers v l
unfolding setelem_automerge
covers-setelem_automerge v a [] s r = refl
covers-setelem_automerge v a (catchall len k ∷ rest) s r = covers-setelem_automerge v a rest s r.1
covers-setelem_automerge v a (interval i ∷ rest) s r =
    covers-merge_from v a rest s.1 r.1 i i.left i.right [] refl refl r.0 s.0
