-- ===== src/Expr.antt =====
-- The expressions that a set's elements are made of (include/expression.h), as far as the sort of
-- src/mergesort.c and the range bounds of src/expression.c look into them.
use nftables.Base.{ℕ, ◌+◌, ◌-◌, List, Option, none, some, map, leb, if◌then◌else◌}
use mathlib.Core.List.{flatten}
use nftables.Gmp.{Mpz, Byteorder, host_endian, mpz_bitmask, div_round_up}

-- EXPR_VALUE; `len` counts bits.
pub record ValueExpr : Type 0 where
  pub value : ℕ
  pub byteorder : Byteorder
  pub len : ℕ

-- EXPR_PREFIX has the prefixed expression, `len` and `prefix_len`; `other` is any other type.
pub data Expr : Type 0 where
  value : ValueExpr → Expr
  prefix : Expr → ℕ → ℕ → Expr
  range binop mapping : Expr → Expr → Expr
  concat : List ValueExpr → Expr
  set_elem : Expr → Expr
  set_elem_catchall : ℕ → Expr
  other : Expr

-- The bytes of the parts one after the other, read as one number of the host.
unfoldable pub concat_expr_msort_value : Mpz → List ValueExpr → ℕ
unfolding div_round_up
concat_expr_msort_value m parts =
    m.import host_endian
      (flatten (map (λ i. m.export i.byteorder (div_round_up i.len 8) i.value) parts))

-- The sort key; `none` stands for BUG(), which stops the program.
unfoldable pub expr_msort_value : Mpz → Expr → Option ℕ
unfolding concat_expr_msort_value mpz_bitmask
expr_msort_value m (set_elem key) = expr_msort_value m key
expr_msort_value m (binop left right) = expr_msort_value m left
expr_msort_value m (mapping left right) = expr_msort_value m left
expr_msort_value m (range left right) = expr_msort_value m left
expr_msort_value m (value v) = some v.value
expr_msort_value m (concat parts) = some (concat_expr_msort_value m parts)
expr_msort_value m (set_elem_catchall len) = some (mpz_bitmask len)
expr_msort_value m (prefix e len prefix_len) = none
expr_msort_value m other = none

unfoldable pub range_expr_value_low : Expr → Option ℕ
range_expr_value_low (value v) = some v.value
range_expr_value_low (prefix e len prefix_len) = range_expr_value_low e
range_expr_value_low (range left right) = range_expr_value_low left
range_expr_value_low (mapping left right) = range_expr_value_low left
range_expr_value_low (set_elem key) = range_expr_value_low key
range_expr_value_low (binop left right) = none
range_expr_value_low (concat parts) = none
range_expr_value_low (set_elem_catchall len) = none
range_expr_value_low other = none

-- The bound of a prefix asserts `prefix_len ≤ len`; a failed assertion stops the program.
abbrev pub prefix_high : Option ℕ → ℕ → ℕ → Option ℕ
unfolding mpz_bitmask
prefix_high none len prefix_len = none
prefix_high (some low) len prefix_len =
    if leb prefix_len len then some (low + mpz_bitmask (len - prefix_len)) else none

unfoldable pub range_expr_value_high : Expr → Option ℕ
unfolding range_expr_value_low prefix_high
range_expr_value_high (value v) = some v.value
range_expr_value_high (prefix e len prefix_len) =
    prefix_high (range_expr_value_low e) len prefix_len
range_expr_value_high (range left right) = range_expr_value_high right
range_expr_value_high (mapping left right) = range_expr_value_high left
range_expr_value_high (set_elem key) = range_expr_value_high key
range_expr_value_high (binop left right) = none
range_expr_value_high (concat parts) = none
range_expr_value_high (set_elem_catchall len) = none
range_expr_value_high other = none
