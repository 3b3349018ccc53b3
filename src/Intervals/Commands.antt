-- ===== src/Intervals/Commands.antt =====
-- `set_automerge`, `set_overlap` and `set_delete` of src/intervals.c: what an add or delete command
-- does to its own elements (`init`), to the elements that the cache holds (`existing_set->init`) and
-- what it sends to the kernel besides. Elements of the cache are taken as ranges, on which
-- `set_to_range` does nothing. Handles, locations and debug output are left out.
pub mod Removing
pub mod Merging
use nftables.Base.{
  ℕ, Bool, true, false, not, List, [], ◌∷◌, ◌++◌, Option, none, some, any, keep, map, if◌then◌else◌,
}
use nftables.Gmp.{Mpz}
use nftables.Mergesort.{list_expr_sort, list_splice_sorted}
use nftables.Intervals.Elem.{
  Elem, Item, catchall, interval, Interval, item_value, item_kernel, set_kernel, set_to_range,
}
use nftables.Intervals.Automerge.{Merged, setelem_automerge}
use nftables.Intervals.Overlap.{OverlapError, setelem_overlap}
use nftables.Intervals.Delete.{Deleted, existing, setelem_delete}

-- `errors` says that the evaluation of the set's own elements failed.
pub record ExistingSet : Type 0 where
  pub init : Option (List Item)
  pub errors : Bool

-- The new elements sorted, with those of the cache spliced in, which leaves the cache empty.
unfoldable pub set_sort_splice :
    Mpz → Bool → List Elem → Option ExistingSet → List Item × Option ExistingSet
set_sort_splice m is_string init none =
    (list_expr_sort item_value (set_to_range m is_string init), none)
set_sort_splice m is_string init (some e) =
    let sorted = list_expr_sort item_value (set_to_range m is_string init) in
    if e.errors then (sorted, some e) else elim e.init [
      | none ↦ (sorted, some (record e { init = some [] }))
      | some old ↦ (list_splice_sorted item_value old sorted, some (record e { init = some [] }))
    ]

-- The loop that both commands end with: elements of the kernel go back to the cache, new ones stay
-- and are copied there. `none` where the code follows a null pointer.
unfoldable pub give_back : List Item → Option ExistingSet → Option (List Item × Option ExistingSet)
give_back items none = if any item_kernel items then none else some (items, none)
give_back [] (some e) = some ([], some e)
give_back (i ∷ items) (some e) = elim e.init [
  | none ↦ none
  | some old ↦ some (
    keep (λ j. not (item_kernel j)) (i ∷ items),
    some (record e { init = some (old ++ map set_kernel (i ∷ items)) }),
  )
]

pub record Outcome : Type 0 where
  pub init : List Item
  pub cache : Option ExistingSet
  pub purge : List Interval
  pub error : Option OverlapError

abbrev pub outcome :
    List Interval → Option OverlapError → Option (List Item × Option ExistingSet) → Option Outcome
outcome purge error none = none
outcome purge error (some (init, cache)) =
    some (record { init = init; cache = cache; purge = purge; error = error })

-- A map is only sorted. The purged elements become a command that deletes them.
unfoldable pub set_automerge :
    Mpz → Bool → Bool → Bool → List Elem → Option ExistingSet → Option Outcome
set_automerge m is_string is_map automerge init cache =
    if is_map
    then outcome [] none (some (list_expr_sort item_value (set_to_range m is_string init), cache))
    else let (spliced, cache') = set_sort_splice m is_string init cache in
      let merged = setelem_automerge automerge spliced in
      outcome merged.purge none (give_back merged.items cache')

unfoldable pub set_overlap : Mpz → Bool → List Elem → Option ExistingSet → Option Outcome
set_overlap m is_string init cache =
    let (spliced, cache') = set_sort_splice m is_string init cache in
    outcome [] (setelem_overlap spliced) (give_back spliced cache')

abbrev pub set_remove : Item → Item
set_remove (catchall len kernel) = catchall len kernel
set_remove (interval i) = interval (record i { remove = true })

-- One element to be deleted joins the elements of the cache, which are sorted.
unfoldable pub __set_delete : Bool → Item → List Item → Option Deleted
__set_delete automerge i old =
    setelem_delete automerge (list_expr_sort item_value (old ++ set_remove i ∷ []))

-- The loop over the elements of the command, with the cache and what is purged so far.
unfoldable pub delete_each :
    Bool → List Item → List Item → List Interval → Option (List Item × List Interval)
delete_each automerge [] old purge = some (old, purge)
delete_each automerge (i ∷ del_list) old purge = elim (__set_delete automerge i old) [
  | none ↦ none
  | some d ↦ delete_each automerge del_list (existing d) (purge ++ d.purge)
]

-- The cache afterwards, the elements that the command deletes and those that a second one adds.
pub record Deletion : Type 0 where
  pub cache : List Item
  pub purge : List Interval
  pub add : List Item

-- With automerge the elements of the command are merged first. `none` is the result -1.
unfoldable pub set_delete : Mpz → Bool → Bool → List Elem → Option (List Item) → Option Deletion
set_delete m is_string automerge init cache =
    let ranges = set_to_range m is_string init in
    let del_list =
      if automerge
      then (setelem_automerge automerge (list_expr_sort item_value ranges)).items
      else ranges in
    let old : List Item = elim cache [ none ↦ [] | some l ↦ l ] in
    elim (delete_each automerge del_list old []) [
      | none ↦ none
      | some (cache', purge) ↦ some (record {
        cache = map set_kernel cache';
        purge = purge;
        add = keep (λ j. not (item_kernel j)) cache';
      })
    ]
