-- ===== src/Intervals/Segments/Lookup.antt =====
-- The segments describe the set: a key belongs to it if the last segment at or below the key starts
-- a range. That is how the kernel reads them.
use mathlib.Core.Path.{subst}
use nftables.Base.{
  ==_iff, ◌==◌, lt→leb, ℕ, suc, ◌^◌, ◌≤◌, ◌<◌, ◌≡◌, refl, ◌∙◌, ◌⊎◌, inl, inr, Bool, true, false,
  not, ◌||◌, List, [], ◌∷◌, none, some, arith, leb, All, if◌then◌else◌, Bool-cases,
}
use native.Mathlib.Nat.{add-zero}
use nftables.Gmp.{Mpz}
use nftables.Intervals.Elem.{Item, catchall, interval, Interval}
use nftables.Intervals.Covers.{covers, IsRange, From, Separated, in_range}
use nftables.Intervals.Segments.{
  Segment, SetInfo, order, flush, first_segment, end_segment, start_segment, segments_from,
  set_to_intervals,
}
use nftables.Intervals.Segments.Mask.{scan0_iff}

-- The answer for `v`, given the answer of the segments before.
abbrev pub lookup : (ℕ → ℕ) → ℕ → Bool → List Segment → Bool
lookup decode v found [] = found
lookup decode v found (e ∷ l) =
    lookup decode v (if leb (decode e.key) v then not e.interval_end else found) l

-- The range ends below the number of keys.
abbrev pub InKey : ℕ → Item → Type 0
InKey len (catchall n k) = Unit
InKey len (interval i) = i.right < 2 ^ len

covers_below : (v n : ℕ) (l : List Item) → v < n → From n l → covers v l ≡ false
covers_below v n [] h f = refl
covers_below v n (catchall len k ∷ l) h f = covers_below v n l h f
covers_below v n (interval i ∷ l) h f = ground (arith, covers_below v n l h f.1)

module _ (m : Mpz) (s : SetInfo)
    (order_twice : (n : ℕ) → n < 2 ^ s.key_len → order m s (order m s n) ≡ n) (v : ℕ)
    (in_key : v < 2 ^ s.key_len) where
  abbrev found_in : Bool → List Segment → Bool
  found_in = lookup (order m s) v

  found_in-flush :
      (e : Segment) (n : ℕ) (i : Interval) (tail : List Segment) (found : Bool)
      → order m s e.key ≡ n
      → e.interval_end ≡ true
      → n ≤ i.left
      → i.left < 2 ^ s.key_len
      → found_in found (flush m s (some e) i.left (start_segment m s i ∷ tail))
        ≡ found_in (if leb i.left v then true else if leb n v then false else found) tail
  unfolding flush start_segment
  found_in-flush e n i tail found key end below bound = ground (arith, order_twice i.left bound)

  below_full :
      (i : Interval)
      → i.right < 2 ^ s.key_len
      → (m.scan0 i.right == s.key_len) ≡ false
      → suc i.right < 2 ^ s.key_len
  below_full i h e = grind (arith, (scan0_iff m s.key_len i.right h).1)

  pub end_segment-cases :
      (i : Interval)
      → i.right < 2 ^ s.key_len
      → ((end_segment m s i ≡ none) × (suc i.right ≡ 2 ^ s.key_len))
        ⊎ ((e : Segment) × (end_segment m s i ≡ some e)
            × (order m s e.key ≡ suc i.right)
            × (e.interval_end ≡ true)
            × (suc i.right < 2 ^ s.key_len))
  unfolding end_segment
  end_segment-cases i h = elim (Bool-cases (m.scan0 i.right == s.key_len)) [
    | inl e ↦
        let full = (scan0_iff m s.key_len i.right h).0 ((==_iff _ _).0 e) in
        inl (rw (e, end_segment), omega arith)
    | inr e ↦ inr (
      record {
        key = order m s (suc i.right);
        interval_end = true;
        is_open = false;
        mapped = i.mapped;
      },
      rw (e, end_segment),
      order_twice (suc i.right) (below_full i h e),
      refl,
      below_full i h e,
    )
  ]

  -- Behind a range that runs to the last value there is no other range.
  found_in-none :
      (add : Bool) (rest : List Item) (found : Bool)
      → From (2 ^ s.key_len) rest
      → All IsRange rest
      → All (InKey s.key_len) rest
      → found_in found (segments_from m s add false none rest) ≡ found
  unfolding segments_from
  found_in-none add [] found f r k = refl
  found_in-none add (catchall len c ∷ rest) found f r k = found_in-none add rest found f r.1 k.1
  found_in-none add (interval i ∷ rest) found f r k =
      let start = f.0 in let range = r.0 in let end = k.0 in absurd (omega arith)

  -- The claim for a list behind a range that has ended.
  abbrev Describes : Bool → List Item → Type 0
  Describes add rest =
      (e : Segment) (n : ℕ) (found : Bool)
      → order m s e.key ≡ n
      → e.interval_end ≡ true
      → From n rest
      → found_in found (segments_from m s add false (some e) rest)
        ≡ (if leb n v then covers v rest else found)

  module _ (add : Bool) (i : Interval) (rest : List Item) (ih : Describes add rest)
      (range : i.left ≤ i.right) (end : i.right < 2 ^ s.key_len) (after : From (suc i.right) rest)
      (ranges : All IsRange rest) (keys : All (InKey s.key_len) rest) where
    after_range :
        (found : Bool)
        → found_in found (segments_from m s add false (end_segment m s i) rest)
          ≡ (if leb (suc i.right) v then covers v rest else found)
    after_range found = elim (end_segment-cases i end) [
      | inl (e, full) ↦
          let behind = subst (λ n. From n rest) (full ∙ refl) after in
          rw (e, lt→leb (suc i.right) v (omega arith))
            (found_in-none add rest found behind ranges keys)
      | inr (e, here, key, is_end, fits) ↦ rw here (ih e (suc i.right) found key is_end after)
    ]

    -- A range is found between its bounds, and what follows is found behind it.
    range_found :
        (found : Bool)
        → found_in
            (if leb i.left v then true else found)
            (segments_from m s add false (end_segment m s i) rest)
          ≡ (if leb i.left v then in_range v i || covers v rest else found)
    range_found found = after_range (if leb i.left v then true else found) ∙ ground arith

  found_in-segments_from :
      (add : Bool) (rest : List Item) (e : Segment) (n : ℕ) (found : Bool)
      → order m s e.key ≡ n
      → e.interval_end ≡ true
      → From n rest
      → Separated 0 rest
      → All IsRange rest
      → All (InKey s.key_len) rest
      → found_in found (segments_from m s add false (some e) rest)
        ≡ (if leb n v then covers v rest else found)
  unfolding segments_from flush first_segment
  found_in-segments_from add [] e n found key end f p r k = ground arith
  found_in-segments_from add (catchall len c ∷ rest) e n found key end f p r k =
      found_in-segments_from add rest e n found key end f p r.1 k.1
  found_in-segments_from add (interval i ∷ rest) e n found key end f p r k =
      let ih =
        λ (e' : Segment) (n' : ℕ) (found' : Bool) (key' : order m s e'.key ≡ n')
            (end' : e'.interval_end ≡ true) (f' : From n' rest).
          found_in-segments_from add rest e' n' found' key' end' f' p.1 r.1 k.1 in
      let after = rw add-zero at p.0 in
      let tail = segments_from m s add false (end_segment m s i) rest in
      found_in-flush e n i tail found key end f.0 (omega arith)
      ∙ range_found add i rest ih r.0 k.0 after r.1 k.1 (if leb n v then false else found)
      ∙ ground (arith, f.0, covers_below v (suc i.right) rest)

  found_in-first_segment :
      (add : Bool) (i : Interval) (l : List Segment)
      → found_in false (first_segment m s true add i l) ≡ found_in false l
  unfolding first_segment
  found_in-first_segment add i l = ground arith

  found_in-start_segment :
      (i : Interval) (l : List Segment)
      → i.left < 2 ^ s.key_len
      → found_in false (start_segment m s i ∷ l) ≡ found_in (if leb i.left v then true else false) l
  unfolding start_segment
  found_in-start_segment i l bound = rw (order_twice i.left bound)

  -- For disjoint ranges of keys in ascending order, and a byte order that switches back when it is
  -- switched twice: a key is found in the segments exactly if a range covers it.
  pub lookup-set_to_intervals :
      (add : Bool) (init : List Item)
      → Separated 0 init
      → All IsRange init
      → All (InKey s.key_len) init
      → lookup (order m s) v false (set_to_intervals m s add init) ≡ covers v init
  unfolding set_to_intervals segments_from flush
  lookup-set_to_intervals add [] p r k = refl
  lookup-set_to_intervals add (catchall len c ∷ init) p r k =
      lookup-set_to_intervals add init p r.1 k.1
  lookup-set_to_intervals add (interval i ∷ init) p r k =
      let after = rw add-zero at p.0 in
      let tail = segments_from m s add false (end_segment m s i) init in
      found_in-first_segment add i (start_segment m s i ∷ tail)
      ∙ found_in-start_segment i tail (omega (arith, r.0, k.0))
      ∙ range_found add i init
          (λ e n found key end f. found_in-segments_from add init e n found key end f p.1 r.1 k.1)
          r.0 k.0 after r.1 k.1 false
      ∙ ground (arith, covers_below v (suc i.right) init)
