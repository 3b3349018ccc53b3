-- ===== src/Intervals/Overlap/Laws.antt =====
-- The check passes exactly the lists whose ranges are pairwise equal or disjoint.
use nftables.Base.{◌≤◌, ◌<◌, ◌≡◌, ◌↔◌, ◌⊎◌, refl, List, [], ◌∷◌, none, arith, All}
use nftables.Intervals.Elem.{Item, catchall, interval, Interval}
use nftables.Intervals.Covers.{IsRange, From, Ascends}
use nftables.Intervals.Overlap.{overlap_from, setelem_overlap}

-- Two ranges, the first in front of the second, are one range or have no value in common.
abbrev pub Compatible : Interval → Interval → Type 0
Compatible i j = ((i.left ≡ j.left) × (i.right ≡ j.right)) ⊎ (i.right < j.left)

abbrev pub CompatibleWith : Interval → List Item → Type 0
CompatibleWith i [] = Unit
CompatibleWith i (catchall len k ∷ l) = CompatibleWith i l
CompatibleWith i (interval j ∷ l) = Compatible i j × CompatibleWith i l

abbrev pub AllCompatible : List Item → Type 0
AllCompatible [] = Unit
AllCompatible (catchall len k ∷ l) = AllCompatible l
AllCompatible (interval i ∷ l) = CompatibleWith i l × AllCompatible l

CompatibleWith-trans :
    (i j : Interval) (l : List Item)
    → Compatible i j
    → From j.left l
    → CompatibleWith j l
    → CompatibleWith i l
CompatibleWith-trans i j [] c f w = tt
CompatibleWith-trans i j (catchall len k ∷ l) c f w = CompatibleWith-trans i j l c f w
CompatibleWith-trans i j (interval n ∷ l) c f w =
    (grind arith, CompatibleWith-trans i j l c f.1 w.1)

overlap_from_step :
    (i j : Interval) (l : List Item)
    → i.left ≤ j.left
    → overlap_from i (i.left, i.right) (interval j ∷ l) ≡ none
    → Compatible i j × (overlap_from j (j.left, j.right) l ≡ none)
unfolding overlap_from
overlap_from_step i j l f e = ground arith

overlap_from_sound :
    (i : Interval) (l : List Item)
    → i.left ≤ i.right
    → From i.left l
    → Ascends l
    → All IsRange l
    → overlap_from i (i.left, i.right) l ≡ none
    → CompatibleWith i l × AllCompatible l
unfolding overlap_from
overlap_from_sound i [] r f s a e = (tt, tt)
overlap_from_sound i (catchall len k ∷ l) r f s a e = overlap_from_sound i l r f s a.1 e
overlap_from_sound i (interval j ∷ l) r f s a e =
    let step = overlap_from_step i j l f.0 e in
    let later = overlap_from_sound j l a.0 s.0 s.1 a.1 step.1 in
    ((step.0, CompatibleWith-trans i j l step.0 s.0 later.0), later)

overlap_from_complete :
    (i : Interval) (l : List Item)
    → Ascends (interval i ∷ l)
    → All IsRange (interval i ∷ l)
    → CompatibleWith i l
    → AllCompatible l
    → overlap_from i (i.left, i.right) l ≡ none
unfolding overlap_from
overlap_from_complete i [] s r c a = refl
overlap_from_complete i (catchall len k ∷ l) s r c a = overlap_from_complete i l s (r.0, r.1.1) c a
overlap_from_complete i (interval j ∷ l) s r c a =
    let next = overlap_from_complete j l s.1 r.1 a.0 a.1 in
    let start = s.0.0 in let right = r.1.0 in ground (arith, next)

-- On ascending ranges the check returns no error exactly if every two ranges are one range or have
-- no value in common.
pub setelem_overlap_iff :
    (l : List Item) → Ascends l → All IsRange l → (setelem_overlap l ≡ none) ↔ AllCompatible l
unfolding setelem_overlap
setelem_overlap_iff [] s a = (λ e. tt, λ c. refl)
setelem_overlap_iff (catchall len k ∷ l) s a = setelem_overlap_iff l s a.1
setelem_overlap_iff (interval i ∷ l) s a =
    (λ e. overlap_from_sound i l a.0 s.0 s.1 a.1 e, λ c. overlap_from_complete i l s a c.0 c.1)
