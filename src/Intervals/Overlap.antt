-- ===== src/Intervals/Overlap.antt =====
-- `setelem_overlap` of src/intervals.c: the first conflict between neighbours of the sorted list.
pub mod Laws
use nftables.Base.{Bool, List, [], ◌∷◌, Option, none, some, ◌&&◌, leb, ◌==◌, if◌then◌else◌}
use nftables.Intervals.Elem.{Item, catchall, interval, Interval, Range}

-- The messages, with the element that they are reported at.
pub data OverlapError : Type 0 where
  overlaps_existing : Interval → OverlapError
  conflicting : Interval → Interval → OverlapError

-- Which of the two elements is to blame: the one that the kernel does not hold.
unfoldable pub overlap_error : Interval → Interval → OverlapError
overlap_error prev i =
    if prev.kernel
    then overlaps_existing i
    else if i.kernel
    then overlaps_existing prev
    else conflicting i prev

unfoldable pub overlap_from : Interval → Range → List Item → Option OverlapError
unfolding overlap_error
overlap_from prev prev_range [] = none
overlap_from prev prev_range (catchall len kernel ∷ rest) = overlap_from prev prev_range rest
overlap_from prev prev_range (interval i ∷ rest) =
    let next = overlap_from i (i.left, i.right) rest in
    if prev_range.0 == i.left && prev_range.1 == i.right
    then next
    else if leb prev_range.0 i.left && leb i.right prev_range.1
    then some (overlap_error prev i)
    else if leb i.left prev_range.1
    then some (overlap_error prev i)
    else next

-- `none` for the result 0, an error for -1.
unfoldable pub setelem_overlap : List Item → Option OverlapError
unfolding overlap_from
setelem_overlap [] = none
setelem_overlap (catchall len kernel ∷ rest) = setelem_overlap rest
setelem_overlap (interval i ∷ rest) = overlap_from i (i.left, i.right) rest
