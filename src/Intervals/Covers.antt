-- ===== src/Intervals/Covers.antt =====
-- What a list of elements means: the values that some range of it covers.
use nftables.Base.{ℕ, suc, ◌+◌, ◌≤◌, ◌<◌, Bool, false, ◌&&◌, List, [], ◌∷◌, leb, any}
use nftables.Intervals.Elem.{Item, catchall, interval, Interval}

abbrev pub in_range : ℕ → Interval → Bool
in_range v i = leb i.left v && leb v i.right

abbrev pub item_covers : ℕ → Item → Bool
item_covers v (catchall len kernel) = false
item_covers v (interval i) = in_range v i

-- A value belongs to the set.
abbrev pub covers : ℕ → List Item → Bool
covers v = any (item_covers v)

-- Ranges are not inverted.
abbrev pub IsRange : Item → Type 0
IsRange (catchall len kernel) = Unit
IsRange (interval i) = i.left ≤ i.right

-- Every range of the list starts at `n` or later.
abbrev pub From : ℕ → List Item → Type 0
From n [] = Unit
From n (catchall len kernel ∷ l) = From n l
From n (interval i ∷ l) = (n ≤ i.left) × From n l

-- Ranges ascend by their start.
abbrev pub Ascends : List Item → Type 0
Ascends [] = Unit
Ascends (catchall len kernel ∷ l) = Ascends l
Ascends (interval i ∷ l) = From i.left l × Ascends l

-- Between a range and each later one `gap` values at least are not covered.
abbrev pub Separated : ℕ → List Item → Type 0
Separated gap [] = Unit
Separated gap (catchall len kernel ∷ l) = Separated gap l
Separated gap (interval i ∷ l) = From (suc i.right + gap) l × Separated gap l

-- Two ranges, the first with the smaller start, are one range or have `gap` values between them.
abbrev pub KeepsOff : ℕ → Interval → List Item → Type 0
KeepsOff gap i [] = Unit
KeepsOff gap i (catchall len kernel ∷ l) = KeepsOff gap i l
KeepsOff gap i (interval j ∷ l) = (i.right + gap < j.left) × KeepsOff gap i l
