-- ===== src/Intervals/Delete/Values.antt =====
-- A successful deletion takes the values of the removed ranges out of the set and no others.
use nftables.Base.{
  ℕ, ◌+◌, ◌≤◌, ◌<◌, ◌≡◌, refl, Bool, true, false, List, [], ◌∷◌, some, arith, total, total-append,
  All, if◌then◌else◌,
}
use nftables.Intervals.Elem.{Item, interval, Interval}
use nftables.Intervals.Covers.{IsRange, item_covers}
use nftables.Intervals.Delete.{
  Deleted, existing, Removal, classify, remove_at, setelem_delete, adjust_elem_left,
  adjust_elem_right,
}
use nftables.Intervals.Delete.Counts.{
  survivors, removals, AllDeletable, Deletable, StepLaw, setelem_delete_balance, weight,
  weight_parts,
}

-- How many ranges of a list hold the value.
abbrev pub hit : ℕ → Item → ℕ
hit v i = if item_covers v i then 1 else 0

abbrev pub hits : ℕ → List Item → ℕ
hits v = total (hit v)

-- What a verdict says of the bounds, at an element that may be deleted.
abbrev Fits : Removal → Interval → Interval → Type 0
Fits Removal.exact p i = (p.left ≡ i.left) × (p.right ≡ i.right)
Fits Removal.adjust_left p i = (p.left ≡ i.left) × (i.right < p.right)
Fits Removal.adjust_right p i = (p.left < i.left) × (p.right ≡ i.right)
Fits Removal.split p i = (p.left < i.left) × (i.right < p.right)
Fits Removal.missing p i = Unit

classify-Fits :
    (a : Bool) (p i : Interval) → Fits (classify a (p.left, p.right) (i.left, i.right)) p i
unfolding classify
classify-Fits true p i = ground arith
classify-Fits false p i = ground arith

module _ (v : ℕ) (p i : Interval) (range : i.left ≤ i.right) where
  hits_left :
      (p.left ≡ i.left)
      → (i.right < p.right)
      → hit v (interval (adjust_elem_left p i)) + hit v (interval i) ≡ hit v (interval p)
  hits_left e h = ground arith

  hits_right :
      p.left < i.left
      → p.right ≡ i.right
      → hit v (interval (adjust_elem_right p i)) + hit v (interval i) ≡ hit v (interval p)
  hits_right h e = ground arith

  hits_split :
      p.left < i.left
      → i.right < p.right
      → hit v (interval (adjust_elem_left p i))
          + hit v (interval (adjust_elem_right p i))
          + hit v (interval i)
        ≡ hit v (interval p)
  hits_split h k = ground arith

  hits_exact : p.left ≡ i.left → p.right ≡ i.right → hit v (interval i) ≡ hit v (interval p)
  hits_exact h k = ground arith

no_weight : (l : List Interval) → total (λ i. 0) l ≡ 0
no_weight [] = refl
no_weight (i ∷ l) = omega (arith, no_weight l)

module _ (v : ℕ) (prev i : Interval) (skipped : List Item) (d d' : Deleted)
    (range : i.left ≤ i.right) where
  abbrev Leaves : Type 0
  Leaves =
      weight (hit v) (λ i. 0) d' + hit v (interval i)
      ≡ hit v (interval prev) + hits v skipped + weight (hit v) (λ i. 0) d

  remove_at-Leaves :
      (r : Removal)
      → Fits r prev i
      → i.remove ≡ true
      → Deletable prev i
      → remove_at r prev i skipped d ≡ some d'
      → Leaves
  unfolding remove_at
  remove_at-Leaves Removal.exact f m o e = ground (
    arith,
    hits_exact v prev i range f.0 f.1,
    weight_parts (hit v) (λ i. 0) d',
    weight_parts (hit v) (λ i. 0) d,
    total-append (hit v) skipped d.middle,
  )
  remove_at-Leaves Removal.adjust_left f m o e = ground (
    arith,
    hits_left v prev i range f.0 f.1,
    weight_parts (hit v) (λ i. 0) d',
    weight_parts (hit v) (λ i. 0) d,
    total-append (hit v) skipped d.middle,
    total-append (hit v) d.front (interval (adjust_elem_left prev i) ∷ []),
  )
  remove_at-Leaves Removal.adjust_right f m o e = ground (
    arith,
    hits_right v prev i range f.0 f.1,
    weight_parts (hit v) (λ i. 0) d',
    weight_parts (hit v) (λ i. 0) d,
    total-append (hit v) skipped d.middle,
    total-append (hit v) d.front (interval (adjust_elem_right prev i) ∷ []),
  )
  remove_at-Leaves Removal.split f m o e = ground (
    arith,
    hits_split v prev i range f.0 f.1,
    weight_parts (hit v) (λ i. 0) d',
    weight_parts (hit v) (λ i. 0) d,
    total-append (hit v) skipped d.middle,
    total-append (hit v) d.front (interval (adjust_elem_right prev i) ∷ []),
  )
  remove_at-Leaves Removal.missing f m o e = absurd (ground arith)

values_law : (v : ℕ) → StepLaw (hit v) (hit v) (λ i. 0)
values_law v a prev i skipped d d' range goes o e =
    remove_at-Leaves v prev i skipped d d' range _ (classify-Fits a prev i) goes o e

-- After a deletion that succeeds, the ranges of the list that hold a value, and the removed ranges
-- that hold it, are together as many as the ranges of the set that held it. So a removed value is
-- gone from a set of disjoint ranges, and any other value is held as before.
pub hits-setelem_delete :
    (v : ℕ) (automerge : Bool) (l : List Item) (d : Deleted)
    → All IsRange l
    → AllDeletable l
    → setelem_delete automerge l ≡ some d
    → hits v (existing d) + hits v (removals l) ≡ hits v (survivors l)
hits-setelem_delete v automerge l d r o e = omega (
  arith,
  setelem_delete_balance (hit v) (hit v) (λ i. 0) (values_law v) automerge l d r o e,
  no_weight d.purge,
)
