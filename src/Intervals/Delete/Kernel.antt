-- ===== src/Intervals/Delete/Kernel.antt =====
-- A deletion as a transaction on the kernel's elements: no element of the kernel is lost or altered
-- without being listed for removal.
use nftables.Base.{
  ℕ, ◌+◌, ◌≡◌, refl, Bool, List, [], ◌∷◌, some, arith, total, total-append, All, if◌then◌else◌,
}
use nftables.Intervals.Elem.{Item, catchall, interval, Interval}
use nftables.Intervals.Covers.{IsRange}
use nftables.Intervals.Delete.{
  Deleted, existing, Removal, remove_at, setelem_delete, adjust_elem_left, adjust_elem_right,
}
use nftables.Intervals.Delete.Counts.{
  survivors, removals, AllDeletable, StepLaw, setelem_delete_balance, weight, weight_parts,
}

-- The weight of an item that the kernel holds.
abbrev pub held : (Interval → ℕ) → Item → ℕ
held w (catchall len k) = 0
held w (interval i) = if i.kernel then w i else 0

no_weight : (l : List Item) → total (λ i. 0) l ≡ 0
no_weight [] = refl
no_weight (i ∷ l) = omega (arith, no_weight l)

module _ (w : Interval → ℕ) (prev i : Interval) (skipped : List Item) (d d' : Deleted) where
  remove_at-held :
      (r : Removal)
      → remove_at r prev i skipped d ≡ some d'
      → weight (held w) w d' + 0
        ≡ held w (interval prev) + total (held w) skipped + weight (held w) w d
  unfolding remove_at
  remove_at-held Removal.exact e = ground (
    arith,
    weight_parts (held w) w d',
    weight_parts (held w) w d,
    total-append (held w) skipped d.middle,
  )
  remove_at-held Removal.adjust_left e = ground (
    arith,
    weight_parts (held w) w d',
    weight_parts (held w) w d,
    total-append (held w) skipped d.middle,
    total-append (held w) d.front (interval (adjust_elem_left prev i) ∷ []),
  )
  remove_at-held Removal.adjust_right e = ground (
    arith,
    weight_parts (held w) w d',
    weight_parts (held w) w d,
    total-append (held w) skipped d.middle,
    total-append (held w) d.front (interval (adjust_elem_right prev i) ∷ []),
  )
  remove_at-held Removal.split e = ground (
    arith,
    weight_parts (held w) w d',
    weight_parts (held w) w d,
    total-append (held w) skipped d.middle,
    total-append (held w) d.front (interval (adjust_elem_right prev i) ∷ []),
  )
  remove_at-held Removal.missing e = absurd (ground arith)

held_law : (w : Interval → ℕ) → StepLaw (held w) (λ i. 0) w
held_law w a prev i skipped d d' range goes o e = remove_at-held w prev i skipped d d' _ e

-- Whatever weight ranges have, the ranges that are still marked as the kernel's after a deletion
-- that succeeds and those listed for removal weigh together what the marked ones weighed before.
pub held-setelem_delete :
    (w : Interval → ℕ) (automerge : Bool) (l : List Item) (d : Deleted)
    → All IsRange l
    → AllDeletable l
    → setelem_delete automerge l ≡ some d
    → total (held w) (existing d) + total w d.purge ≡ total (held w) (survivors l)
held-setelem_delete w automerge l d r o e = omega (
  arith,
  setelem_delete_balance (held w) (λ i. 0) w (held_law w) automerge l d r o e,
  no_weight (removals l),
)
