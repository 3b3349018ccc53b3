-- ===== src/Misspell/Suggest.antt =====
-- What the loop over the symbols suggests.
use nftables.Base.{
  ℕ, suc, ◌+◌, ◌*◌, ◌≤◌, ◌<◌, ◌^◌, ◌≡◌, ◌⊎◌, refl, inl, inr, Bool, true, false, ◌&&◌, not, List, [],
  ◌∷◌, none, some, length, ltb, leb, arith, All, Bool-cases, ap,
}
use nftables.Gmp.{div_round_up}
use nftables.Misspell.{
  Text, State, max, uint_max, threshold, string_distance, string_misspell_update,
  string_misspell_init, compare_symbols, symbol_parse_fuzzy,
}

-- Near enough to be a misspelling: not both a letter or less, and within the threshold.
abbrev pub is_close : Text → Text → Bool
is_close a b = not (leb (max (length a) (length b)) 1) && leb (string_distance a b) (threshold a b)

abbrev pub IsIn : Text → List Text → Type 0
IsIn s [] = ⊥
IsIn s (t ∷ ts) = (s ≡ t) ⊎ IsIn s ts

-- No close symbol is nearer than `n`.
abbrev pub Within : Text → ℕ → List Text → Type 0
Within sym n symbols = All (λ t. is_close sym t ≡ true → n ≤ string_distance sym t) symbols

module _ (sym : Text) where
  pub data Updates (s : Text) (st : State Text) : State Text → Type 0 where
    taken :
        (is_close sym s ≡ true)
        → (string_distance sym s < st.min_distance)
        → Updates s st (record { min_distance = string_distance sym s; obj = some s })
    kept : (is_close sym s ≡ true → st.min_distance ≤ string_distance sym s) → Updates s st st

  string_misspell_update-Updates :
      (s : Text) (st : State Text) → Updates s st (string_misspell_update sym s s st).1
  unfolding string_misspell_update
  string_misspell_update-Updates s st = elim (Bool-cases (leb (max (length sym) (length s)) 1)) [
    | inl short ↦ rw short (kept (λ h. absurd (ground arith)))
    | inr long ↦ elim (Bool-cases (ltb (threshold sym s) (string_distance sym s))) [
      | inl far ↦ rw (long, far) (kept (λ h. absurd (ground arith)))
      | inr near ↦ elim (Bool-cases (ltb (string_distance sym s) st.min_distance)) [
        | inl less ↦ rw (long, near, less) (taken (ground arith) (ground arith))
        | inr more ↦ rw (long, near, more) (kept (λ h. ground arith))
      ]
    ]
  ]

  Within-less :
      (m n : ℕ) → m ≤ n → (symbols : List Text) → Within sym n symbols → Within sym m symbols
  Within-less m n le [] w = tt
  Within-less m n le (t ∷ ts) (w, ws) = (λ h. ground (arith, w h), Within-less m n le ts ws)

  abbrev Compared : State Text → List Text → State Text → Type 0
  Compared st symbols r =
      ((r ≡ st) × Within sym st.min_distance symbols)
      ⊎ ((s : Text) × (r ≡ record { min_distance = string_distance sym s; obj = some s })
          × (string_distance sym s < st.min_distance)
          × IsIn s symbols
          × (is_close sym s ≡ true)
          × Within sym (string_distance sym s) symbols)

  compare_round :
      (t : Text) (ts : List Text) (st mid r : State Text)
      → Updates t st mid
      → Compared mid ts r
      → Compared st (t ∷ ts) r
  compare_round t ts st mid r (taken close less) (inl (same, within)) =
      inr (t, same, less, inl refl, close, ((λ h. ground arith), within))
  compare_round t ts st mid r (taken close less) (inr (s, same, less', there, close', within)) =
      inr (s, same, ground arith, inr there, close', ((λ h. ground arith), within))
  compare_round t ts st mid r (kept far) (inl (same, within)) = inl (same, (far, within))
  compare_round t ts st mid r (kept far) (inr (s, same, less, there, close, within)) =
      inr (s, same, less, inr there, close, ((λ h. ground (arith, far h)), within))

  compare_symbols-Compared :
      (symbols : List Text) (st : State Text) → Compared st symbols (compare_symbols sym symbols st)
  unfolding compare_symbols
  compare_symbols-Compared [] st = inl (refl, tt)
  compare_symbols-Compared (t ∷ ts) st =
      compare_round t ts st _ _ (string_misspell_update-Updates t st)
        (compare_symbols-Compared ts _)

-- The array of the two words has a size and positions within a word.
abbrev pub Fits : Text → Text → Type 0
Fits a b = suc (length a) * suc (length b) < 2 ^ 32

below_product : (x y n : ℕ) → suc x * suc y < n → (suc x < n) × (suc y < n)
below_product x y n h =
    let same : suc x * suc y ≡ x * y + x + y + 1 = grind arith in
    (omega (arith, h, same), omega (arith, h, same))

threshold_bound : (a b : Text) → Fits a b → threshold a b < uint_max
unfolding threshold div_round_up
threshold_bound a b h =
    let (at_a, at_b) = below_product (length a) (length b) (2 ^ 32) h in
    let x : length a < 2 ^ 32 = omega arith in
    let y : length b < 2 ^ 32 = omega arith in ground arith

none_close :
    (sym : Text) (symbols : List Text)
    → All (Fits sym) symbols
    → Within sym uint_max symbols
    → All (λ t. is_close sym t ≡ false) symbols
none_close sym [] hs w = tt
none_close sym (t ∷ ts) (k, ks) (w, ws) = (
  elim (Bool-cases (is_close sym t)) [
    | inl near ↦ absurd (ground (arith, w near, threshold_bound sym t k))
    | inr far ↦ far
  ],
  none_close sym ts ks ws,
)

-- A symbol close to the word, of the list, and no close one is nearer.
pub data Nearest (sym s : Text) (symbols : List Text) : Type 0 where
  nearest :
      IsIn s symbols
      → (is_close sym s ≡ true)
      → Within sym (string_distance sym s) symbols
      → Nearest sym s symbols

-- If the word and every symbol have, each counted with one more letter, lengths of a product below
-- 2^32, so that the arrays have room for all positions: there is a suggestion exactly if any symbol is
-- within the threshold of the lengths, one of which is 2 or more. The suggestion is then such a symbol,
-- with the least distance among them.
pub symbol_parse_fuzzy_lem :
    (sym : Text) (symbols : List Text)
    → All (Fits sym) symbols
    → ((symbol_parse_fuzzy sym symbols ≡ none) × All (λ t. is_close sym t ≡ false) symbols)
      ⊎ ((s : Text) × (symbol_parse_fuzzy sym symbols ≡ some s) × Nearest sym s symbols)
unfolding symbol_parse_fuzzy string_misspell_init
symbol_parse_fuzzy_lem sym symbols hs =
    elim (compare_symbols-Compared sym symbols (string_misspell_init Text)) [
      | inl (same, within) ↦
          inl (ap (λ (st : State Text). st.obj) same, none_close sym symbols hs within)
      | inr (s, same, less, there, close, within) ↦
          inr (s, ap (λ (st : State Text). st.obj) same, nearest there close within)
    ]
