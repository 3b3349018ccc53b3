-- ===== src/Misspell/Heads.antt =====
-- The loop of `string_distance` counts from 1 in words that start at 0.
use nftables.Base.{ℕ, zero, suc, ◌+◌, ◌-◌, ◌*◌, ◌%◌, ◌^◌, arith, ◌≡◌, refl, ◌∙◌, ap, ◌∷◌, length}
use nftables.Misspell.{Text, Cells, fill, fill_row, fill_rows, string_distance}

minus_one : (n : ℕ) → suc n - 1 ≡ n
minus_one n = omega arith

module _ (c c' d d' : ℕ) (a b : Text) where
  fill-heads :
      (i j : ℕ) (cells : Cells)
      → fill (c ∷ a) (d ∷ b) (suc i) (suc j) cells ≡ fill (c' ∷ a) (d' ∷ b) (suc i) (suc j) cells
  unfolding fill
  fill-heads zero j cells = refl
  fill-heads (suc i) zero cells = refl
  fill-heads (suc i) (suc j) cells = rw (minus_one (suc i), minus_one (suc j)) refl

  fill_row-heads :
      (left i j : ℕ) (cells : Cells)
      → fill_row (c ∷ a) (d ∷ b) left (suc i) (suc j) cells
        ≡ fill_row (c' ∷ a) (d' ∷ b) left (suc i) (suc j) cells
  unfolding fill_row
  fill_row-heads zero i j cells = refl
  fill_row-heads (suc left) i j cells =
      ap (fill_row (c ∷ a) (d ∷ b) left (suc i) (suc (suc j))) (fill-heads i j cells)
      ∙ fill_row-heads left i (suc j) _

  fill_rows-heads :
      (left i : ℕ) (cells : Cells)
      → fill_rows (c ∷ a) (d ∷ b) left (suc i) cells
        ≡ fill_rows (c' ∷ a) (d' ∷ b) left (suc i) cells
  unfolding fill_rows
  fill_rows-heads zero i cells = refl
  fill_rows-heads (suc left) i cells =
      ap (fill_rows (c ∷ a) (d ∷ b) left (suc (suc i)))
        (fill_row-heads (suc (length b)) i zero cells)
      ∙ fill_rows-heads left (suc i) _

  -- The distance of two words that are not empty is the same whatever their first letters are.
  pub string_distance-heads : string_distance (c ∷ a) (d ∷ b) ≡ string_distance (c' ∷ a) (d' ∷ b)
  unfolding string_distance
  string_distance-heads =
      ap (λ (cells : Cells). cells ((suc (length a) * suc (length b) + suc (length b)) % 2 ^ 32))
        (fill_rows-heads (suc (length a)) zero _)
