-- ===== src/Evaluation/Matches.antt =====
-- What a comparison with constants means, before and after an operation is moved.
use Prim.Native.Nat.{bit_and, bit_or, bit_xor}
use nftables.Base.{
  ℕ, zero, suc, ◌*◌, ◌/◌, ◌%◌, ◌^◌, ◌≡◌, refl, ap, ◌∙◌, Bool, false, ◌&&◌, not, List, [], ◌∷◌,
  arith, ltb, leb, ◌==◌, any,
}
use nftables.Bits.Shifts.{shift_step}
use nftables.Expr.{ValueExpr}
use nftables.Evaluation.Constants.{BinopOp, op_and, op_xor, op_or, op_lshift, op_rshift}
use nftables.Evaluation.Transfer.{
  Constant, value, set_elem, mapping, range, other, RightSide, constant, set, set_ref, LeftSide,
  operation, argument,
}

-- The number of a bound.
abbrev pub bound : Constant → ℕ
bound (value v) = v.value
bound (set_elem key) = bound key
bound (mapping key) = bound key
bound (range low high) = bound low
bound other = 0

-- Whether a number is the constant, or lies in the range.
abbrev pub matches : Constant → ℕ → Bool
matches (value v) x = x == v.value
matches (set_elem key) x = matches key x
matches (mapping key) x = matches key x
matches (range low high) x = leb (bound low) x && leb x (bound high)
matches other x = false

abbrev pub is_member : RightSide → ℕ → Bool
is_member (constant c) x = matches c x
is_member (set elems) x = any (λ c. matches c x) elems
is_member (set_ref anonymous init) x = is_member init x

-- The constant of an ordering.
abbrev pub side_bound : RightSide → ℕ
side_bound (constant c) = bound c
side_bound (set elems) = 0
side_bound (set_ref anonymous init) = 0

pub data Comparison : Type 0 where
  eq neq lt gt lte gte : Comparison

abbrev pub holds : Comparison → RightSide → ℕ → Bool
holds eq r x = is_member r x
holds neq r x = not (is_member r x)
holds lt r x = ltb x (side_bound r)
holds gt r x = ltb (side_bound r) x
holds lte r x = leb x (side_bound r)
holds gte r x = leb (side_bound r) x

-- What an operation makes of a value of `len` bits.
abbrev pub operate : BinopOp → ℕ → ℕ → ℕ → ℕ
operate op_and len k x = bit_and x k
operate op_or len k x = bit_or x k
operate op_xor len k x = bit_xor x k
operate op_lshift len k x = x * 2 ^ k % 2 ^ len
operate op_rshift len k x = x / 2 ^ k

abbrev pub left_value : LeftSide → ℕ → ℕ → ℕ
left_value (operation op k) len x = operate op len k x
left_value argument len x = x

-- `R` of each number on the right and the number that it became.
pub data Related (R : ℕ → ℕ → Type 0) : Constant → Constant → Type 0 where
  values : {v w : ValueExpr} → R v.value w.value → Related R (value v) (value w)
  set_elems : {c d : Constant} → Related R c d → Related R (set_elem c) (set_elem d)
  mappings : {c d : Constant} → Related R c d → Related R (mapping c) (mapping d)
  ranges : {a b c d : Constant} → Related R a c → Related R b d → Related R (range a b) (range c d)
  others : Related R other other

pub data EachRelated (R : ℕ → ℕ → Type 0) : List Constant → List Constant → Type 0 where
  none : EachRelated R [] []
  more :
      {c d : Constant} {cs ds : List Constant}
      → Related R c d
      → EachRelated R cs ds
      → EachRelated R (c ∷ cs) (d ∷ ds)

pub data SideRelated (R : ℕ → ℕ → Type 0) : RightSide → RightSide → Type 0 where
  constants : {c d : Constant} → Related R c d → SideRelated R (constant c) (constant d)
  sets : {cs ds : List Constant} → EachRelated R cs ds → SideRelated R (set cs) (set ds)
  set_refs :
      {b : Bool} {r s : RightSide} → SideRelated R r s → SideRelated R (set_ref b r) (set_ref b s)

-- The relation, read the other way.
module _ (R : ℕ → ℕ → Type 0) where
  turn : {c d : Constant} → Related (λ a b. R b a) c d → Related R d c
  turn (values e) = values e
  turn (set_elems r) = set_elems (turn r)
  turn (mappings r) = mappings (turn r)
  turn (ranges r s) = ranges (turn r) (turn s)
  turn others = others

  turn_each : {cs ds : List Constant} → EachRelated (λ a b. R b a) cs ds → EachRelated R ds cs
  turn_each none = none
  turn_each (more r rs) = more (turn r) (turn_each rs)

  pub turn_side : {r s : RightSide} → SideRelated (λ a b. R b a) r s → SideRelated R s r
  turn_side (constants r) = constants (turn r)
  turn_side (sets rs) = sets (turn_each rs)
  turn_side (set_refs r) = set_refs (turn_side r)

-- Numbers are stretched by a shift without a change of their order.
eq_twice : (a b : ℕ) → (2 * a == 2 * b) ≡ (a == b)
eq_twice a b = ground arith

leb_twice : (a b : ℕ) → leb (2 * a) (2 * b) ≡ leb a b
leb_twice a b = ground arith

eq_stretch : (k x v : ℕ) → (x * 2 ^ k == v * 2 ^ k) ≡ (x == v)
eq_stretch zero x v = ground arith
eq_stretch (suc k) x v =
    rw (shift_step x k, shift_step v k) (eq_twice (x * 2 ^ k) (v * 2 ^ k) ∙ eq_stretch k x v)

leb_stretch : (k x v : ℕ) → leb (x * 2 ^ k) (v * 2 ^ k) ≡ leb x v
leb_stretch zero x v = ground arith
leb_stretch (suc k) x v =
    rw (shift_step x k, shift_step v k) (leb_twice (x * 2 ^ k) (v * 2 ^ k) ∙ leb_stretch k x v)

ltb-leb : (a b : ℕ) → ltb a b ≡ not (leb b a)
ltb-leb a b = ground arith

ltb_stretch : (k x v : ℕ) → ltb (x * 2 ^ k) (v * 2 ^ k) ≡ ltb x v
ltb_stretch k x v = rw (ltb-leb (x * 2 ^ k) (v * 2 ^ k), ltb-leb x v) (ap not (leb_stretch k v x))

-- `b` is `a`, stretched.
abbrev pub Stretched : ℕ → ℕ → ℕ → Type 0
Stretched k a b = b ≡ a * 2 ^ k

module _ (k : ℕ) where
  bound-Stretched : {c d : Constant} → Related (Stretched k) c d → bound d ≡ bound c * 2 ^ k
  bound-Stretched (values e) = e
  bound-Stretched (set_elems r) = bound-Stretched r
  bound-Stretched (mappings r) = bound-Stretched r
  bound-Stretched (ranges r s) = bound-Stretched r
  bound-Stretched others = omega arith

  matches-Stretched :
      {c d : Constant} → Related (Stretched k) c d → (x : ℕ) → matches d (x * 2 ^ k) ≡ matches c x
  matches-Stretched (values {v} e) x = rw e (eq_stretch k x v.value)
  matches-Stretched (set_elems r) x = matches-Stretched r x
  matches-Stretched (mappings r) x = matches-Stretched r x
  matches-Stretched (ranges {a} {b} r s) x =
      rw
        (bound-Stretched r, bound-Stretched s, leb_stretch k (bound a) x, leb_stretch k x (bound b))
        refl
  matches-Stretched others x = refl

  any-Stretched :
      {cs ds : List Constant}
      → EachRelated (Stretched k) cs ds
      → (x : ℕ) → any (λ c. matches c (x * 2 ^ k)) ds ≡ any (λ c. matches c x) cs
  any-Stretched none x = refl
  any-Stretched (more r rs) x = rw (matches-Stretched r x, any-Stretched rs x) refl

  is_member-Stretched :
      {r s : RightSide}
      → SideRelated (Stretched k) r s
      → (x : ℕ) → is_member s (x * 2 ^ k) ≡ is_member r x
  is_member-Stretched (constants r) x = matches-Stretched r x
  is_member-Stretched (sets rs) x = any-Stretched rs x
  is_member-Stretched (set_refs r) x = is_member-Stretched r x

  side_bound-Stretched :
      {r s : RightSide} → SideRelated (Stretched k) r s → side_bound s ≡ side_bound r * 2 ^ k
  side_bound-Stretched (constants r) = bound-Stretched r
  side_bound-Stretched (sets rs) = omega arith
  side_bound-Stretched (set_refs r) = omega arith

  -- Every comparison holds of the stretched number with the stretched right side where it held.
  pub holds-Stretched :
      (cmp : Comparison) {r s : RightSide}
      → SideRelated (Stretched k) r s
      → (x : ℕ) → holds cmp s (x * 2 ^ k) ≡ holds cmp r x
  holds-Stretched eq r x = is_member-Stretched r x
  holds-Stretched neq r x = ap not (is_member-Stretched r x)
  holds-Stretched lt {r = s} r x = rw (side_bound-Stretched r) (ltb_stretch k x (side_bound s))
  holds-Stretched gt {r = s} r x = rw (side_bound-Stretched r) (ltb_stretch k (side_bound s) x)
  holds-Stretched lte {r = s} r x = rw (side_bound-Stretched r) (leb_stretch k x (side_bound s))
  holds-Stretched gte {r = s} r x = rw (side_bound-Stretched r) (leb_stretch k (side_bound s) x)
