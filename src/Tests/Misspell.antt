-- ===== src/Tests/Misspell.antt =====
-- src/misspell.c on a verdict and a word that differ in the first letter.
use nftables.Base.{◌≡◌, ◌⊎◌, refl, [], ◌∷◌, none, some, All, arith, false}
use nftables.Misspell.{
  Text, string_distance, fill_rows, fill_row, fill, symbol_parse_fuzzy, compare_symbols,
  string_misspell_update, string_misspell_init, threshold,
}
use nftables.Gmp.{div_round_up}
use nftables.Misspell.Heads.{string_distance-heads}
use nftables.Misspell.Suggest.{is_close, Nearest, symbol_parse_fuzzy_lem}

abbrev drop_word : Text
drop_word = 100 ∷ 114 ∷ 111 ∷ 112 ∷ []

abbrev crop_word : Text
crop_word = 99 ∷ 114 ∷ 111 ∷ 112 ∷ []

abbrev dorp_word : Text
dorp_word = 100 ∷ 111 ∷ 114 ∷ 112 ∷ []

abbrev jump_word : Text
jump_word = 106 ∷ 117 ∷ 109 ∷ 112 ∷ []

first_letter_run : string_distance drop_word crop_word ≡ 0
unfolding string_distance fill_rows fill_row fill
first_letter_run = refl

swapped_run : string_distance drop_word dorp_word ≡ 1
unfolding string_distance fill_rows fill_row fill
swapped_run = refl

fuzzy_run : symbol_parse_fuzzy crop_word (jump_word ∷ dorp_word ∷ drop_word ∷ []) ≡ some drop_word
unfolding symbol_parse_fuzzy compare_symbols string_misspell_update string_misspell_init threshold
    div_round_up string_distance fill_rows fill_row fill
fuzzy_run = refl

string_distance-heads_example :
    string_distance drop_word drop_word ≡ string_distance crop_word drop_word
string_distance-heads_example =
    string_distance-heads 100 99 100 100 (114 ∷ 111 ∷ 112 ∷ []) (114 ∷ 111 ∷ 112 ∷ [])

symbol_parse_fuzzy_lem_example :
    ((symbol_parse_fuzzy crop_word (jump_word ∷ drop_word ∷ []) ≡ none)
      × All (λ t. is_close crop_word t ≡ false) (jump_word ∷ drop_word ∷ []))
    ⊎ ((s : Text) × (symbol_parse_fuzzy crop_word (jump_word ∷ drop_word ∷ []) ≡ some s)
        × Nearest crop_word s (jump_word ∷ drop_word ∷ []))
symbol_parse_fuzzy_lem_example =
    symbol_parse_fuzzy_lem crop_word (jump_word ∷ drop_word ∷ []) (omega arith, (omega arith, tt))
