-- ===== src/Intervals/Automerge.antt =====
-- `setelem_automerge` of src/intervals.c: one pass over the sorted elements that drops covered
-- ranges and joins overlapping ones, and with `automerge` contiguous ones too.
pub mod Steps
pub mod Coverage
pub mod Apart
pub mod Kernel
use nftables.Base.{
  ℕ, suc, ◌-◌, Option, none, some, Bool, true, false, ◌&&◌, List, [], ◌∷◌, ◌++◌, leb, ◌==◌,
  if◌then◌else◌,
}
use nftables.Intervals.Elem.{Item, catchall, interval, Interval, Range}

-- The list that is left, the elements moved to `ctx->purge`, and how often `size` was decremented.
pub record Merged : Type 0 where
  pub items : List Item
  pub purge : List Interval
  pub freed : ℕ

abbrev pub add_item : Item → Merged → Merged
add_item i m = record m { items = i ∷ m.items }

abbrev pub add_items : List Item → Merged → Merged
add_items [] m = m
add_items (i ∷ is) m = add_item i (add_items is m)

abbrev pub purge_elem : Interval → Merged → Merged
purge_elem i m = record m { purge = i ∷ m.purge }

abbrev pub free_elem : Merged → Merged
free_elem m = record m { freed = suc m.freed }

-- A covered element of the kernel is purged, a new one is freed.
unfoldable pub remove_overlapping_range : Interval → Merged → Merged
remove_overlapping_range i m = if i.kernel then purge_elem i m else free_elem m

-- `took_over` is the returned flag: `i` stays in the list in place of `prev`. `stays` is the element
-- that stays, with its new bounds; `purged` is the other one, or `none` where that was freed.
pub record Joined : Type 0 where
  pub took_over : Bool
  pub stays : Interval
  pub prev_range : Range
  pub purged : Option Interval

unfoldable pub merge_ranges : Interval → Interval → Range → Range → Joined
merge_ranges prev i prev_range range =
    if prev.kernel
    then record {
      took_over = true;
      stays = record i { left = prev.left };
      prev_range = (prev_range.0, range.1);
      purged = some prev;
    }
    else if i.kernel
    then record {
      took_over = false;
      stays = record prev { right = i.right };
      prev_range = (prev_range.0, range.1);
      purged = some i;
    }
    else record {
      took_over = false;
      stays = record prev { right = i.right };
      prev_range = (prev_range.0, range.1);
      purged = none;
    }

abbrev pub drop_elem : Option Interval → Merged → Merged
drop_elem none m = free_elem m
drop_elem (some i) m = purge_elem i m

-- The list goes on after `i`, from the elements passed since the one that stays.
abbrev pub resume : List Item → Bool → Option Interval → (List Item → Merged) → Merged
resume skipped true purged go_on = add_items skipped (drop_elem purged (go_on []))
resume skipped false purged go_on = drop_elem purged (go_on skipped)

-- What the conditions of the loop decide about the next range.
pub data Verdict : Type 0 where
  covered merged apart : Verdict

unfoldable pub judge : Bool → Range → Range → Verdict
judge automerge prev_range range =
    if leb prev_range.0 range.0 && leb range.1 prev_range.1
    then covered
    else if leb range.0 prev_range.1
    then merged
    else if automerge && (range.0 - prev_range.1 == 1)
    then merged
    else apart

-- The loop once there is a `prev`. The catchall elements passed since `prev` are in `skipped`:
-- they follow `prev` in the list, or precede the element that takes its place.
unfoldable pub merge_from : Bool → Interval → Range → List Item → List Item → Merged
merge_from automerge prev prev_range skipped [] = record {
  items = interval prev ∷ skipped;
  purge = [];
  freed = 0;
}
merge_from automerge prev prev_range skipped (catchall len kernel ∷ rest) =
    merge_from automerge prev prev_range (skipped ++ catchall len kernel ∷ []) rest
merge_from automerge prev prev_range skipped (interval i ∷ rest) =
    elim (judge automerge prev_range (i.left, i.right)) [
      | covered ↦ remove_overlapping_range i (merge_from automerge prev prev_range skipped rest)
      | merged ↦
          let j = merge_ranges prev i prev_range (i.left, i.right) in
          resume skipped j.took_over j.purged
            (λ passed. merge_from automerge j.stays j.prev_range passed rest)
      | apart ↦
          add_item (interval prev)
            (add_items skipped (merge_from automerge i (i.left, i.right) [] rest))
    ]

-- The loop before the first range.
unfoldable pub setelem_automerge : Bool → List Item → Merged
unfolding merge_from
setelem_automerge automerge [] = record { items = []; purge = []; freed = 0 }
setelem_automerge automerge (catchall len kernel ∷ rest) =
    add_item (catchall len kernel) (setelem_automerge automerge rest)
setelem_automerge automerge (interval i ∷ rest) = merge_from automerge i (i.left, i.right) [] rest
