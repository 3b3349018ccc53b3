-- ===== src/Intervals/Commands/Merging.antt =====
-- An add command to a set with automerge: the cache covers the old and the new values afterwards.
use nftables.Base.{
  ℕ, ◌≡◌, refl, ap, ◌∙◌, Bool, false, not, ◌||◌, List, [], ◌∷◌, Option, none, some, keep, map, All,
}
use nftables.Gmp.{Mpz}
use nftables.Mergesort.{list_expr_sort, list_splice_sorted}
use nftables.Mergesort.Laws.{
  IsSorted, Below, sort-perm-IsSorted, sort-All, sort-any, splice-IsSorted, splice-All, splice-any,
}
use nftables.Intervals.Elem.{
  Elem, Item, catchall, interval, item_value, item_kernel, set_kernel, set_to_range,
}
use nftables.Intervals.Covers.{covers, item_covers, IsRange, From, Ascends, Separated}
use nftables.Intervals.Automerge.{setelem_automerge}
use nftables.Intervals.Automerge.Steps.{gap}
use nftables.Intervals.Automerge.Coverage.{covers-setelem_automerge}
use nftables.Intervals.Automerge.Apart.{setelem_automerge-Separated}
use nftables.Intervals.Commands.{
  ExistingSet, set_sort_splice, give_back, Outcome, set_automerge, outcome,
}

From-Below : (n : ℕ) (l : List Item) → Below item_value n l → From n l
From-Below n [] b = tt
From-Below n (catchall len k ∷ l) b = From-Below n l b.1
From-Below n (interval i ∷ l) b = (b.0, From-Below n l b.1)

-- A list that is sorted by its keys has its ranges in ascending order.
pub IsSorted-Ascends : (l : List Item) → IsSorted item_value l → Ascends l
IsSorted-Ascends [] s = tt
IsSorted-Ascends (catchall len k ∷ l) s = IsSorted-Ascends l s.1
IsSorted-Ascends (interval i ∷ l) s = (From-Below i.left l s.0, IsSorted-Ascends l s.1)

covers-set_kernel : (v : ℕ) (l : List Item) → covers v (map set_kernel l) ≡ covers v l
covers-set_kernel v [] = refl
covers-set_kernel v (catchall len k ∷ l) = covers-set_kernel v l
covers-set_kernel v (interval i ∷ l) =
    ap (λ b. item_covers v (interval i) || b) (covers-set_kernel v l)

From-set_kernel : (n : ℕ) (l : List Item) → From n l → From n (map set_kernel l)
From-set_kernel n [] f = tt
From-set_kernel n (catchall len k ∷ l) f = From-set_kernel n l f
From-set_kernel n (interval i ∷ l) f = (f.0, From-set_kernel n l f.1)

Separated-set_kernel : (g : ℕ) (l : List Item) → Separated g l → Separated g (map set_kernel l)
Separated-set_kernel g [] s = tt
Separated-set_kernel g (catchall len k ∷ l) s = Separated-set_kernel g l s
Separated-set_kernel g (interval i ∷ l) s = (From-set_kernel _ l s.0, Separated-set_kernel g l s.1)

-- A cache that holds these elements.
abbrev pub cached : List Item → Option ExistingSet
cached l = some (record { init = some l; errors = false })

give_back-cached :
    (l : List Item)
    → give_back l (cached []) ≡ some (keep (λ j. not (item_kernel j)) l, cached (map set_kernel l))
unfolding give_back
give_back-cached [] = refl
give_back-cached (i ∷ l) = refl

module _ (m : Mpz) (is_string automerge : Bool) (init : List Elem) (old : List Item)
    (old_sorted : IsSorted item_value old) (old_ranges : All IsRange old)
    (ranges : All IsRange (set_to_range m is_string init)) where
  abbrev new : List Item
  new = list_expr_sort item_value (set_to_range m is_string init)

  abbrev spliced : List Item
  spliced = list_splice_sorted item_value old new

  spliced-Ascends : Ascends spliced
  spliced-Ascends =
      IsSorted-Ascends spliced
        (splice-IsSorted item_value old new old_sorted (sort-perm-IsSorted item_value _).1)

  spliced-IsRange : All IsRange spliced
  spliced-IsRange =
      splice-All item_value IsRange old new old_ranges (sort-All item_value IsRange _ ranges)

  covers-spliced :
      (v : ℕ) → covers v spliced ≡ (covers v old || covers v (set_to_range m is_string init))
  covers-spliced v =
      splice-any item_value (item_covers v) old new
      ∙ ap (λ b. covers v old || b) (sort-any item_value (item_covers v) _)

  abbrev pub merged : List Item
  merged = (setelem_automerge automerge spliced).items

  -- The command of a set that is no map always succeeds on a cache in order. The cache then covers a
  -- value exactly if it did before or the command adds it, and its ranges are in ascending order and
  -- disjoint, with a value between each two if contiguous ranges are merged.
  pub set_automerge_lem :
      (o : Outcome) × (l : List Item) × (set_automerge m is_string false automerge init (cached old)
        ≡ some o)
      × (o.cache ≡ cached l)
      × ((v : ℕ) → covers v l ≡ (covers v old || covers v (set_to_range m is_string init)))
      × Separated (gap automerge) l
  unfolding set_automerge set_sort_splice
  set_automerge_lem = (
    record {
      init = keep (λ j. not (item_kernel j)) merged;
      cache = cached (map set_kernel merged);
      purge = (setelem_automerge automerge spliced).purge;
      error = none;
    },
    map set_kernel merged,
    ap (outcome _ none) (give_back-cached merged),
    refl,
    λ v.
        covers-set_kernel v merged
        ∙ covers-setelem_automerge v automerge spliced spliced-Ascends spliced-IsRange
        ∙ covers-spliced v,
    Separated-set_kernel (gap automerge) merged
        (setelem_automerge-Separated automerge spliced spliced-Ascends spliced-IsRange),
  )
