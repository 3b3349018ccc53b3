-- ===== src/Intervals/Segments.antt =====
-- `set_to_intervals` of src/intervals.c: the ranges become the segments that the kernel stores, one
-- element where a range starts and one, marked EXPR_F_INTERVAL_END, behind its last value.
pub mod Mask
pub mod Lookup
use nftables.Base.{
  ℕ, suc, ◌/◌, Bool, true, false, ◌&&◌, ◌||◌, not, List, [], ◌∷◌, ◌++◌, Option, none, some, ◌==◌,
  if◌then◌else◌,
}
use nftables.Gmp.{Mpz, mpz_switch_byteorder}
use nftables.Intervals.Elem.{Item, catchall, interval, Interval}

-- A segment; `is_open` is NFTNL_SET_ELEM_F_INTERVAL_OPEN, for a range that runs to the last value.
pub record Segment : Type 0 where
  pub key : ℕ
  pub interval_end : Bool
  pub is_open : Bool
  pub mapped : Option ℕ

-- What the function reads of the set. `init_size` is the size of `set->init`, if there is one, and
-- `init_is_same` says that `set->init` is the list at hand.
pub record SetInfo : Type 0 where
  pub anonymous : Bool
  pub root : Bool
  pub init_size : Option ℕ
  pub init_is_same : Bool
  pub key_len : ℕ
  pub host_endian : Bool

abbrev is_empty_init : Option ℕ → Bool
is_empty_init none = true
is_empty_init (some size) = size == 0

-- `init` is never NULL here, so a set with no elements yet counts like an empty one.
unfoldable pub segtree_needs_first_segment : SetInfo → Bool → Bool
segtree_needs_first_segment s add =
    (add && not s.root) && (s.anonymous || (is_empty_init s.init_size || s.init_is_same))

module _ (m : Mpz) (s : SetInfo) where
  -- The byte order of a stored key.
  unfoldable pub order : ℕ → ℕ
  unfolding mpz_switch_byteorder
  order n = if s.host_endian then mpz_switch_byteorder m n (s.key_len / 8) else n

  -- The pending end of the last range, unless an anonymous set starts a range just there.
  unfoldable pub flush : Option Segment → ℕ → List Segment → List Segment
  flush none left rest = rest
  flush (some e) left rest = if not s.anonymous || not (order e.key == left) then e ∷ rest else rest

  -- The first range of the list may get a segment below it that matches nothing.
  unfoldable pub first_segment : Bool → Bool → Interval → List Segment → List Segment
  unfolding segtree_needs_first_segment
  first_segment is_first add i rest =
      if is_first && (segtree_needs_first_segment s add && not (i.left == 0))
      then record { key = 0; interval_end = true; is_open = false; mapped = i.mapped } ∷ rest
      else rest

  -- The end behind the range, or `none` for one that runs to the last value of the key.
  unfoldable pub end_segment : Interval → Option Segment
  end_segment i =
      if not (m.scan0 i.right == s.key_len)
      then some (record {
        key = order (suc i.right);
        interval_end = true;
        is_open = false;
        mapped = i.mapped;
      })
      else none

  abbrev pub is_none : Option Segment → Bool
  is_none none = true
  is_none (some e) = false

  unfoldable pub start_segment : Interval → Segment
  start_segment i = record {
    key = order i.left;
    interval_end = false;
    is_open = is_none (end_segment i);
    mapped = i.mapped;
  }

  unfoldable pub segments_from : Bool → Bool → Option Segment → List Item → List Segment
  segments_from add is_first none [] = []
  segments_from add is_first (some e) [] = e ∷ []
  segments_from add is_first newelem (catchall len kernel ∷ rest) =
      segments_from add is_first newelem rest
  segments_from add is_first newelem (interval i ∷ rest) =
      first_segment is_first add i
        (flush newelem i.left (start_segment i ∷ segments_from add false (end_segment i) rest))

  -- The catchall elements are passed over; they stay behind the segments in the list.
  unfoldable pub set_to_intervals : Bool → List Item → List Segment
  unfolding segments_from
  set_to_intervals add init = segments_from add true none init
