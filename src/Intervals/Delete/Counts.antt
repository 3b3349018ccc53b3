-- ===== src/Intervals/Delete/Counts.antt =====
-- A balance over the loop of `setelem_delete`: if one removal keeps a weight, so does the loop.
use nftables.Base.{
  ℕ, ◌+◌, ◌≤◌, ◌≡◌, ◌≢◌, ◌⊎◌, inl, inr, ap, Bool, true, false, List, [], ◌∷◌, ◌++◌, none, some,
  arith, total, total-append, keep, not, All, Bool-cases, Option-cases,
}
use nftables.Intervals.Elem.{Item, catchall, interval, Interval, Range}
use nftables.Intervals.Covers.{IsRange}
use nftables.Intervals.Delete.{
  Deleted, existing, classify, remove_at, delete_from, setelem_delete, passed,
}

abbrev pub removes : Item → Bool
removes (catchall len k) = false
removes (interval i) = i.remove

-- The elements of the set, and those to be removed.
abbrev pub survivors : List Item → List Item
survivors = keep (λ i. not (removes i))

abbrev pub removals : List Item → List Item
removals = keep removes

-- Not the case that the loop passes over: an exact match of an element that the kernel lacks.
abbrev pub Deletable : Interval → Interval → Type 0
Deletable p i = (i.remove ≡ false) ⊎ ((p.kernel ≡ true) ⊎ ((p.left ≢ i.left) ⊎ (p.right ≢ i.right)))

abbrev pub DeletableFrom : Interval → List Item → Type 0
DeletableFrom p [] = Unit
DeletableFrom p (catchall len k ∷ l) = DeletableFrom p l
DeletableFrom p (interval i ∷ l) = Deletable p i × DeletableFrom p l

abbrev pub AllDeletable : List Item → Type 0
AllDeletable [] = Unit
AllDeletable (catchall len k ∷ l) = AllDeletable l
AllDeletable (interval i ∷ l) = DeletableFrom i l × AllDeletable l

-- What a successful round is made of: without `prev` the next range is no removal.
first_round :
    (a : Bool) (skipped : List Item) (i : Interval) (rest : List Item) (d : Deleted)
    → delete_from a none skipped (interval i ∷ rest) ≡ some d
    → (i.remove ≡ false)
      × (d₁ : Deleted) × (delete_from a (some (i, (i.left, i.right))) [] rest ≡ some d₁)
      × (d ≡ passed skipped d₁)
unfolding delete_from
first_round a skipped i rest d e = elim (Bool-cases i.remove) [
  | inl r ↦ absurd (ground arith)
  | inr r ↦ elim (Option-cases (delete_from a (some (i, (i.left, i.right))) [] rest)) [
    | inl z ↦ absurd (ground arith)
    | inr (d₁, z) ↦ (r, d₁, z, ground arith)
  ]
]

-- With `prev` it becomes the new `prev`, or it is removed from the old one.
next_round :
    (a : Bool) (prev : Interval) (range : Range) (skipped : List Item) (i : Interval)
    (rest : List Item) (d : Deleted)
    → delete_from a (some (prev, range)) skipped (interval i ∷ rest) ≡ some d
    → ((i.remove ≡ false)
        × (d₁ : Deleted) × (delete_from a (some (i, (i.left, i.right))) [] rest ≡ some d₁)
        × (d ≡ passed (interval prev ∷ skipped) d₁))
      ⊎ ((i.remove ≡ true)
          × (d₁ : Deleted) × (delete_from a none [] rest ≡ some d₁)
          × (remove_at (classify a range (i.left, i.right)) prev i skipped d₁ ≡ some d))
unfolding delete_from
next_round a prev range skipped i rest d e = elim (Bool-cases i.remove) [
  | inl r ↦ elim (Option-cases (delete_from a none [] rest)) [
    | inl z ↦ absurd (ground arith)
    | inr (d₁, z) ↦ inr (r, d₁, z, ground arith)
  ]
  | inr r ↦ elim (Option-cases (delete_from a (some (i, (i.left, i.right))) [] rest)) [
    | inl z ↦ absurd (ground arith)
    | inr (d₁, z) ↦ inl (r, d₁, z, ground arith)
  ]
]

module _ (h : Item → ℕ) (q : Interval → ℕ) where
  abbrev pub weight : Deleted → ℕ
  weight d = total h (existing d) + total q d.purge

  pub weight_parts :
      (d : Deleted)
      → weight d ≡ total h d.front + total h d.middle + total h d.back + total q d.purge
  weight_parts d =
      omega (arith, total-append h d.front (d.middle ++ d.back), total-append h d.middle d.back)

  weight-passed : (is : List Item) (d : Deleted) → weight (passed is d) ≡ total h is + weight d
  weight-passed is d =
      omega (arith, weight_parts d, weight_parts (passed is d), total-append h is d.middle)

module _ (h g : Item → ℕ) (q : Interval → ℕ) where
  -- One removal moves the weight of the removed range out of the set, and no other.
  abbrev pub StepLaw : Type 0
  StepLaw =
      (a : Bool) (prev i : Interval) (skipped : List Item) (d d' : Deleted)
      → i.left ≤ i.right
      → i.remove ≡ true
      → Deletable prev i
      → remove_at (classify a (prev.left, prev.right) (i.left, i.right)) prev i skipped d ≡ some d'
      → weight h q d' + g (interval i) ≡ h (interval prev) + total h skipped + weight h q d

  module _ (law : StepLaw) where
    abbrev Balance : List Item → Deleted → ℕ → Type 0
    Balance rest d before =
        weight h q d + total g (removals rest) ≡ before + total h (survivors rest)

    kept_totals :
        (i : Interval) (rest : List Item)
        → i.remove ≡ false
        → (total h (survivors (interval i ∷ rest)) ≡ h (interval i) + total h (survivors rest))
          × (total g (removals (interval i ∷ rest)) ≡ total g (removals rest))
    kept_totals i rest r = ground arith

    removed_totals :
        (i : Interval) (rest : List Item)
        → i.remove ≡ true
        → (total h (survivors (interval i ∷ rest)) ≡ total h (survivors rest))
          × (total g (removals (interval i ∷ rest)) ≡ g (interval i) + total g (removals rest))
    removed_totals i rest r = ground arith

    mutual
      unfolding delete_from

      Balance-none :
          (a : Bool) (skipped rest : List Item) (d : Deleted)
          → All IsRange rest
          → AllDeletable rest
          → delete_from a none skipped rest ≡ some d
          → Balance rest d (total h skipped)
      Balance-none a skipped [] d r o e = ground (arith, total-append h skipped [])
      Balance-none a skipped (catchall len k ∷ rest) d r o e = omega (
        arith,
        Balance-none a (skipped ++ catchall len k ∷ []) rest d r.1 o e,
        total-append h skipped (catchall len k ∷ []),
      )
      Balance-none a skipped (interval i ∷ rest) d r o e =
          let (keeps, d₁, z, same) = first_round a skipped i rest d e in
          omega (
            arith,
            kept_totals i rest keeps,
            Balance-some a rest i [] d₁ r.1 o.1 o.0 z,
            weight-passed h q skipped d₁,
            ap (weight h q) same,
          )

      Balance-some :
          (a : Bool) (rest : List Item) (prev : Interval) (skipped : List Item) (d : Deleted)
          → All IsRange rest
          → AllDeletable rest
          → DeletableFrom prev rest
          → delete_from a (some (prev, (prev.left, prev.right))) skipped rest ≡ some d
          → Balance rest d (h (interval prev) + total h skipped)
      Balance-some a [] prev skipped d r o p e = ground (arith, total-append h skipped [])
      Balance-some a (catchall len k ∷ rest) prev skipped d r o p e = omega (
        arith,
        Balance-some a rest prev (skipped ++ catchall len k ∷ []) d r.1 o p e,
        total-append h skipped (catchall len k ∷ []),
      )
      Balance-some a (interval i ∷ rest) prev skipped d r o p e =
          elim (next_round a prev (prev.left, prev.right) skipped i rest d e) [
            | inl (keeps, d₁, z, same) ↦ omega (
              arith,
              kept_totals i rest keeps,
              Balance-some a rest i [] d₁ r.1 o.1 o.0 z,
              weight-passed h q (interval prev ∷ skipped) d₁,
              ap (weight h q) same,
            )
            | inr (goes, d₁, z, step) ↦ omega (
              arith,
              removed_totals i rest goes,
              Balance-none a [] rest d₁ r.1 o.1 z,
              law a prev i skipped d₁ d r.0 goes p.0 step,
            )
          ]

    -- The weight of a list after a deletion that succeeds.
    pub setelem_delete_balance :
        (a : Bool) (l : List Item) (d : Deleted)
        → All IsRange l
        → AllDeletable l
        → setelem_delete a l ≡ some d
        → weight h q d + total g (removals l) ≡ total h (survivors l)
    unfolding setelem_delete
    setelem_delete_balance a l d r o e = omega (arith, Balance-none a [] l d r o e)
