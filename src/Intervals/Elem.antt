-- ===== src/Intervals/Elem.antt =====
-- Elements of an interval set, and `set_to_range` of src/intervals.c, which makes a range of every
-- key. An EXPR_MAPPING keeps its right-hand side in `mapped`, an identifier of that expression.
use nftables.Base.{ℕ, ◌-◌, ◌/◌, Bool, true, List, map, Option, if◌then◌else◌}
use nftables.Gmp.{Mpz, mpz_bitmask, mpz_switch_byteorder}
use nftables.Expr.{ValueExpr}
use Prim.Native.Nat.{bit_or}

pub data Key : Type 0 where
  set_elem_catchall : ℕ → Key
  range : ValueExpr → ValueExpr → Key
  prefix : ValueExpr → ℕ → ℕ → Key
  value : ValueExpr → Key

-- EXPR_F_KERNEL marks an element that the kernel holds, EXPR_F_REMOVE one to be deleted.
pub record Elem : Type 0 where
  pub key : Key
  pub len : ℕ
  pub kernel : Bool
  pub remove : Bool
  pub mapped : Option ℕ

-- An element whose key is EXPR_RANGE.
pub record Interval : Type 0 where
  pub left : ℕ
  pub right : ℕ
  pub kernel : Bool
  pub remove : Bool
  pub mapped : Option ℕ

-- What `set_to_range` leaves: a range, or a catchall element of a key of `len` bits.
pub data Item : Type 0 where
  catchall : ℕ → Bool → Item
  interval : Interval → Item

abbrev pub Range : Type 0
Range = ℕ × ℕ

-- The key of TYPE_STRING is switched to big endian, in place.
abbrev pub to_endian : Mpz → Bool → ℕ → ValueExpr → ℕ
unfolding mpz_switch_byteorder
to_endian m is_string len v =
    if is_string then mpz_switch_byteorder m v.value (len / 8) else v.value

-- The upper end of a prefix: the bits below the prefix are set, and the number goes through the
-- bytes of the new constant.
unfoldable pub prefix_end : Mpz → ValueExpr → ℕ → ℕ → ℕ → ℕ
unfolding mpz_bitmask
prefix_end m p switched len prefix_len =
    let rop = bit_or (mpz_bitmask (len - prefix_len)) switched in
    m.import p.byteorder (m.export p.byteorder (p.len / 8) rop)

unfoldable pub setelem_expr_to_range : Mpz → Bool → Elem → Item
unfolding prefix_end to_endian
setelem_expr_to_range m is_string e = elim e.key [
  | set_elem_catchall len ↦ catchall len e.kernel
  | range l r ↦ interval (bounds l.value r.value)
  | prefix p len prefix_len ↦
      let low = to_endian m is_string e.len p in
      interval (bounds low (prefix_end m p low len prefix_len))
  | value v ↦ interval (bounds (to_endian m is_string e.len v) (to_endian m is_string e.len v))
]
  where
    bounds : ℕ → ℕ → Interval
    bounds l r = record {
      left = l;
      right = r;
      kernel = e.kernel;
      remove = e.remove;
      mapped = e.mapped;
    }

unfoldable pub set_to_range : Mpz → Bool → List Elem → List Item
unfolding setelem_expr_to_range
set_to_range m is_string init = map (setelem_expr_to_range m is_string) init

-- The sort key of an element.
abbrev pub item_value : Item → ℕ
item_value (catchall len kernel) = mpz_bitmask len
item_value (interval i) = i.left

abbrev pub item_kernel : Item → Bool
item_kernel (catchall len kernel) = kernel
item_kernel (interval i) = i.kernel

abbrev pub set_kernel : Item → Item
set_kernel (catchall len kernel) = catchall len true
set_kernel (interval i) = interval (record i { kernel = true })
