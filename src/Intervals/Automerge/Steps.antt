-- ===== src/Intervals/Automerge/Steps.antt =====
-- One round of the loop of `setelem_automerge`, by what becomes of `prev` and the next range.
use nftables.Base.{
  ℕ, ◌+◌, ◌≤◌, ◌<◌, ◌≡◌, refl, sym, none, some, inl, inr, Bool, true, false, List, [], ◌∷◌, arith,
  Bool-cases, if◌then◌else◌,
}
use mathlib.Core.Path.{subst}
use nftables.Intervals.Elem.{Item, interval, Interval, Range}
use nftables.Intervals.Automerge.{
  Merged, add_item, add_items, purge_elem, drop_elem, resume, remove_overlapping_range, Joined,
  merge_ranges, Verdict, judge, merge_from,
}

-- How far apart two ranges must be to stay two.
abbrev pub gap : Bool → ℕ
gap automerge = if automerge then 1 else 0

-- The verdict with what it says of the bounds.
abbrev Judged : Bool → Range → Range → Verdict → Type 0
Judged a p r Verdict.covered = (p.0 ≤ r.0) × (r.1 ≤ p.1)
Judged a p r Verdict.merged = (r.0 ≤ p.1 + gap a) × (p.1 < r.1)
Judged a p r Verdict.apart = p.1 + gap a < r.0

judge-Judged :
    (a : Bool) (low high l r : ℕ)
    → low ≤ l
    → l ≤ r
    → Judged a (low, high) (l, r) (judge a (low, high) (l, r))
unfolding judge
judge-Judged true low high l r h k = ground arith
judge-Judged false low high l r h k = ground arith

module _ (prev i : Interval) (p r : Range) where
  merge_ranges_took :
      prev.kernel ≡ true
      → merge_ranges prev i p r ≡ record {
        took_over = true;
        stays = record i { left = prev.left };
        prev_range = (p.0, r.1);
        purged = some prev;
      }
  unfolding merge_ranges
  merge_ranges_took k = ground (arith, k)

  merge_ranges_stays :
      prev.kernel ≡ false
      → merge_ranges prev i p r ≡ record {
        took_over = false;
        stays = record prev { right = i.right };
        prev_range = (p.0, r.1);
        purged = if i.kernel then some i else none;
      }
  unfolding merge_ranges
  merge_ranges_stays k = ground (arith, k)

drop-remove_overlapping_range :
    (i : Interval) (m : Merged)
    → drop_elem (if i.kernel then some i else none) m ≡ remove_overlapping_range i m
unfolding remove_overlapping_range
drop-remove_overlapping_range i m = ground arith

pub items-remove_overlapping_range :
    (i : Interval) (m : Merged) → (remove_overlapping_range i m).items ≡ m.items
unfolding remove_overlapping_range
items-remove_overlapping_range i m = ground arith

module _ (a : Bool) (prev : Interval) (low high : ℕ) (skipped : List Item) (i : Interval)
    (rest : List Item) where
  -- The four ways to go on, with the result of the whole loop in each.
  pub data Outcome : Merged → Type 0 where
    covered :
        low ≤ i.left
        → i.right ≤ high
        → Outcome (remove_overlapping_range i (merge_from a prev (low, high) skipped rest))
    took_over :
        i.left ≤ high + gap a
        → high < i.right
        → prev.kernel ≡ true
        → Outcome (
            add_items skipped (
              purge_elem prev
                (merge_from a (record i { left = prev.left }) (low, i.right) [] rest)))
    joined :
        i.left ≤ high + gap a
        → high < i.right
        → prev.kernel ≡ false
        → Outcome (
            remove_overlapping_range i
              (merge_from a (record prev { right = i.right }) (low, i.right) skipped rest))
    apart :
        high + gap a < i.left
        → Outcome (
            add_item (interval prev) (add_items skipped (merge_from a i (i.left, i.right) [] rest)))

  verdict_Outcome :
      (d : Verdict)
      → judge a (low, high) (i.left, i.right) ≡ d
      → Judged a (low, high) (i.left, i.right) d
      → Outcome (merge_from a prev (low, high) skipped (interval i ∷ rest))
  unfolding merge_from
  verdict_Outcome Verdict.covered e j = rw (e, merge_from) (covered j.0 j.1)
  verdict_Outcome Verdict.apart e j = rw (e, merge_from) (apart j)
  verdict_Outcome Verdict.merged e j = elim (Bool-cases prev.kernel) [
    | inl k ↦
        rw (e, merge_from)
          (subst (λ (j : Joined). Outcome (go j))
            (sym (merge_ranges_took prev i (low, high) (i.left, i.right) k)) (took_over j.0 j.1 k))
    | inr k ↦
        rw (e, merge_from)
          (subst (λ (j : Joined). Outcome (go j))
            (sym (merge_ranges_stays prev i (low, high) (i.left, i.right) k))
            (subst Outcome (sym (drop-remove_overlapping_range i _)) (joined j.0 j.1 k)))
  ]
    where
      go : Joined → Merged
      go j =
          resume skipped j.took_over j.purged
            (λ passed. merge_from a j.stays j.prev_range passed rest)

  pub round :
      low ≤ i.left
      → i.left ≤ i.right
      → Outcome (merge_from a prev (low, high) skipped (interval i ∷ rest))
  round h k = verdict_Outcome _ refl (judge-Judged a low high i.left i.right h k)
