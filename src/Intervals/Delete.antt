-- ===== src/Intervals/Delete.antt =====
-- `setelem_delete` of src/intervals.c and its helpers. The list holds the elements of the set and,
-- sorted in among them, those to be removed. An element that is adjusted moves to the front of the
-- list, a piece that is split off to its end. Such a piece is met again by the loop, where it only
-- becomes `prev`; no element to be removed follows it.
pub mod Counts
pub mod Values
pub mod Kernel
use nftables.Base.{
  ℕ, suc, ◌-◌, Bool, true, false, ◌&&◌, List, [], ◌∷◌, ◌++◌, Option, none, some, leb, ltb, ◌==◌,
  if◌then◌else◌,
}
use nftables.Intervals.Elem.{Item, catchall, interval, Interval, Range}

-- The list in its three parts, and the elements added to `purge`.
pub record Deleted : Type 0 where
  pub front : List Item
  pub middle : List Item
  pub back : List Item
  pub purge : List Interval

abbrev pub existing : Deleted → List Item
existing d = d.front ++ (d.middle ++ d.back)

-- How the range to be removed lies in `prev`: the tests of `setelem_delete` and `setelem_adjust`.
pub data Removal : Type 0 where
  exact adjust_left adjust_right split missing : Removal

unfoldable pub setelem_adjust : Range → Range → Removal
setelem_adjust prev_range range =
    if prev_range.0 == range.0 && ltb range.1 prev_range.1
    then adjust_left
    else if ltb prev_range.0 range.0 && prev_range.1 == range.1
    then adjust_right
    else if ltb prev_range.0 range.0 && ltb range.1 prev_range.1
    then split
    else missing

unfoldable pub classify : Bool → Range → Range → Removal
unfolding setelem_adjust
classify automerge prev_range range =
    if prev_range.0 == range.0 && prev_range.1 == range.1
    then exact
    else if automerge
    then setelem_adjust prev_range range
    else missing

-- A copy of an element of the kernel goes to `purge` before it changes.
unfoldable pub remove_elem : Interval → List Interval → List Interval
remove_elem prev purge = if prev.kernel then prev ∷ purge else purge

abbrev pub adjust_elem_left : Interval → Interval → Interval
adjust_elem_left prev i = record prev { kernel = false; left = suc i.right }

abbrev pub adjust_elem_right : Interval → Interval → Interval
adjust_elem_right prev i = record prev { kernel = false; right = i.left - 1 }

abbrev pub passed : List Item → Deleted → Deleted
passed is d = record d { middle = is ++ d.middle }

-- What one element to be removed does, before what the rest of the loop does. An exact match leaves
-- the list only if the kernel holds it.
unfoldable pub remove_at : Removal → Interval → Interval → List Item → Deleted → Option Deleted
unfolding remove_elem
remove_at exact prev i skipped d =
    if prev.kernel
    then some (record (passed skipped d) { purge = prev ∷ d.purge })
    else some (passed (interval prev ∷ skipped) d)
remove_at adjust_left prev i skipped d = some (record (passed skipped d) {
  front = d.front ++ interval (adjust_elem_left prev i) ∷ [];
  purge = remove_elem prev d.purge;
})
remove_at adjust_right prev i skipped d = some (record (passed skipped d) {
  front = d.front ++ interval (adjust_elem_right prev i) ∷ [];
  purge = remove_elem prev d.purge;
})
remove_at split prev i skipped d = some (record (passed skipped d) {
  front = d.front ++ interval (adjust_elem_right prev i) ∷ [];
  back = interval (adjust_elem_left prev i) ∷ d.back;
  purge = remove_elem prev d.purge;
})
remove_at missing prev i skipped d = none

infixl 5 ◌>>=◌
abbrev ◌>>=◌ {ℓ κ} : {A : Type ℓ} {B : Type κ} → Option A → (A → Option B) → Option B
none >>= f = none
some a >>= f = f a

-- The loop, from `prev` with the catchall elements passed since. `none` is the result -1, with the
-- message that the element does not exist.
unfoldable pub delete_from :
    Bool → Option (Interval × Range) → List Item → List Item → Option Deleted
delete_from a none skipped [] =
    some (record { front = []; middle = skipped; back = []; purge = [] })
delete_from a (some (prev, prev_range)) skipped [] =
    some (record { front = []; middle = interval prev ∷ skipped; back = []; purge = [] })
delete_from a prev skipped (catchall len kernel ∷ rest) =
    delete_from a prev (skipped ++ catchall len kernel ∷ []) rest
delete_from a none skipped (interval i ∷ rest) = elim i.remove [
  | true ↦ none
  | false ↦ do d ← delete_from a (some (i, (i.left, i.right))) [] rest; some (passed skipped d)
]
delete_from a (some (prev, prev_range)) skipped (interval i ∷ rest) = elim i.remove [
  | true ↦ do
    d ← delete_from a none [] rest
    remove_at (classify a prev_range (i.left, i.right)) prev i skipped d
  | false ↦ do
    d ← delete_from a (some (i, (i.left, i.right))) [] rest
    some (passed (interval prev ∷ skipped) d)
]

unfoldable pub setelem_delete : Bool → List Item → Option Deleted
unfolding delete_from
setelem_delete automerge elems = delete_from automerge none [] elems
