-- ===== src/Misspell.antt =====
-- src/misspell.c: the distance between two words, and which of several words is nearest to one that
-- is not known. Lengths and their sums stay within a word for words shorter than 2^31; positions are
-- computed in `unsigned int`, and the array has all of them for words of which the product of the
-- lengths, each with one more, is below 2^32.
pub mod Suggest
pub mod Heads
use nftables.Base.{
  ℕ, zero, suc, ◌+◌, ◌-◌, ◌*◌, ◌^◌, ◌%◌, Bool, true, false, ◌&&◌, List, [], ◌∷◌, Option, none, some,
  length, ltb, leb, ◌==◌, if◌then◌else◌,
}
use nftables.Gmp.{div_round_up}

abbrev pub Text : Type 0
Text = List ℕ

-- `a[i]`, with the NUL behind the last byte.
abbrev pub char_at : Text → ℕ → ℕ
char_at [] i = 0
char_at (c ∷ cs) zero = c
char_at (c ∷ cs) (suc i) = char_at cs i

abbrev pub min : ℕ → ℕ → ℕ
min x y = if ltb x y then x else y

abbrev pub max : ℕ → ℕ → ℕ
max x y = if ltb y x then x else y

abbrev pub uint_max : ℕ
uint_max = 2 ^ 32 - 1

abbrev pub min_distance : ℕ → ℕ → ℕ → ℕ
min_distance deletion insertion transformation =
    let first = if ltb deletion uint_max then deletion else uint_max in
    let second = if ltb insertion first then insertion else first in
    if ltb transformation second then transformation else second

-- The array `distance`, by position.
abbrev pub Cells : Type 0
Cells = ℕ → ℕ

abbrev pub store : ℕ → ℕ → Cells → Cells
store at n cells k = if k == at then n else cells k

module _ (a b : Text) where
  -- Rows are `len_b` apart, so that the last cell of a row is the first cell of the next one.
  abbrev pub cell : ℕ → ℕ → ℕ
  cell i j = (i * length b + j) % 2 ^ 32

  abbrev pub subcost : ℕ → ℕ → ℕ
  subcost i j = if char_at a i == char_at b j then 0 else 1

  abbrev pub swapped : ℕ → ℕ → Bool
  swapped i j =
      ltb 1 i && (ltb 1 j && (char_at a i == char_at b (j - 1) && char_at a (i - 1) == char_at b j))

  -- The body of the inner loop.
  unfoldable pub fill : ℕ → ℕ → Cells → Cells
  fill i j cells =
      let best =
        min_distance (cells (cell (i - 1) j) + 1) (cells (cell i (j - 1)) + 1)
          (cells (cell (i - 1) (j - 1)) + subcost i j) in
      let filled = store (cell i j) best cells in
      if swapped i j
      then store (cell i j) (min (filled (cell i j)) (filled (cell (i - 2) (j - 2)) + subcost i j))
          filled
      else filled

  -- The loops over `j` and over `i`, with the number of rounds that are left.
  unfoldable pub fill_row : ℕ → ℕ → ℕ → Cells → Cells
  fill_row zero i j cells = cells
  fill_row (suc left) i j cells = fill_row left i (suc j) (fill i j cells)

  unfoldable pub fill_rows : ℕ → ℕ → Cells → Cells
  fill_rows zero i cells = cells
  fill_rows (suc left) i cells = fill_rows left (suc i) (fill_row (length b) i 1 cells)

  -- The first loops, each with the index that it reaches last.
  abbrev pub first_column : ℕ → Cells
  first_column zero = store (cell 0 0) 0 (λ k. 0)
  first_column (suc i) = store (cell (suc i) 0) (suc i) (first_column i)

  abbrev pub first_row : ℕ → Cells → Cells
  first_row zero cells = store (cell 0 0) 0 cells
  first_row (suc j) cells = store (cell 0 (suc j)) (suc j) (first_row j cells)

  unfoldable pub string_distance : ℕ
  string_distance =
      fill_rows (length a) 1 (first_row (length b) (first_column (length a)))
        (cell (length a) (length b))

pub record State {ℓ} (A : Type ℓ) : Type ℓ where
  pub min_distance : ℕ
  pub obj : Option A

unfoldable pub string_misspell_init {ℓ} : (A : Type ℓ) → State A
string_misspell_init A = record { min_distance = uint_max; obj = none }

unfoldable pub threshold : Text → Text → ℕ
threshold a b =
    let max_len = max (length a) (length b) in
    let min_len = min (length a) (length b) in
    if leb (max_len - min_len) 1
    then max (div_round_up max_len 3) 1
    else div_round_up (max_len + 2) 3

-- The result of the code is whether the object was taken, and the state.
unfoldable pub string_misspell_update {ℓ} :
    {A : Type ℓ} → Text → Text → A → State A → Bool × State A
string_misspell_update a b obj st =
    if leb (max (length a) (length b)) 1
    then (false, st)
    else let distance = string_distance a b in
      if ltb (threshold a b) distance
      then (false, st)
      else if ltb distance st.min_distance
      then (true, record { min_distance = distance; obj = some obj })
      else (false, st)

-- The loop of `__symbol_parse_fuzzy` in src/datatype.c.
unfoldable pub compare_symbols : Text → List Text → State Text → State Text
compare_symbols sym [] st = st
compare_symbols sym (s ∷ symbols) st =
    compare_symbols sym symbols (string_misspell_update sym s s st).1

-- The suggestion of the error message.
unfoldable pub symbol_parse_fuzzy : Text → List Text → Option Text
symbol_parse_fuzzy sym symbols = (compare_symbols sym symbols (string_misspell_init Text)).obj
