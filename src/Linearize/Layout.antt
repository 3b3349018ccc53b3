-- ===== src/Linearize/Layout.antt =====
-- Where the parts of a value stand in the registers.
use nftables.Base.{ℕ, ◌+◌, ◌≡◌, true, List, arith}
use nftables.Registers.{netlink_register_space}
use nftables.Linearize.Syntax.{Expr, Exprs, one, more, expr_len}
use nftables.Linearize.Context.{M}
use nftables.Linearize.Frame.{known, Grows, Done, Done-weaken}
use nftables.Linearize.Parts.{Known}

unfoldable mutual
  -- A value stands in registers from `reg` on: of a concatenation every part has been written, each
  -- behind the registers that the lengths of those before it fill.
  pub Holds : Expr → ℕ → List (ℕ × ℕ) → Type 0
  Holds (Expr.concat len parts) reg ds = HoldsAll parts reg ds
  Holds (Expr.set_elem len key) reg ds = Holds key reg ds
  Holds _ reg ds = known ds reg ≡ true

  pub HoldsAll : Exprs → ℕ → List (ℕ × ℕ) → Type 0
  HoldsAll (one e) reg ds = Holds e reg ds
  HoldsAll (more e rest) reg ds =
      Holds e reg ds × HoldsAll rest (reg + netlink_register_space (expr_len e)) ds

mutual
  unfolding Holds HoldsAll

  pub Holds-known : (e : Expr) (reg : ℕ) (ds : List (ℕ × ℕ)) → Holds e reg ds → known ds reg ≡ true
  Holds-known (Expr.concat len parts) reg ds h = HoldsAll-known parts reg ds h
  Holds-known (Expr.set_elem len key) reg ds h = Holds-known key reg ds h
  Holds-known (Expr.verdict v) reg ds h = h
  Holds-known (Expr.value i) reg ds h = h
  Holds-known (Expr.unary len op arg) reg ds h = h
  Holds-known (Expr.shift len op left right) reg ds h = h
  Holds-known (Expr.binop len order op left right) reg ds h = h
  Holds-known (Expr.relational op is_string left right) reg ds h = h
  Holds-known (Expr.map_of len key mappings) reg ds h = h
  Holds-known (Expr.leaf len l) reg ds h = h
  Holds-known (Expr.jhash len hash e) reg ds h = h
  Holds-known (Expr.symhash len hash) reg ds h = h
  Holds-known (Expr.other len) reg ds h = h

  HoldsAll-known :
      (parts : Exprs) (reg : ℕ) (ds : List (ℕ × ℕ)) → HoldsAll parts reg ds → known ds reg ≡ true
  HoldsAll-known (one e) reg ds h = Holds-known e reg ds h
  HoldsAll-known (more e rest) reg ds h = Holds-known e reg ds h.0

mutual
  unfolding Holds HoldsAll

  pub Holds-Grows :
      (e : Expr) (reg : ℕ) (ds es : List (ℕ × ℕ)) → Grows ds es → Holds e reg ds → Holds e reg es
  Holds-Grows (Expr.concat len parts) reg ds es g h = HoldsAll-Grows parts reg ds es g h
  Holds-Grows (Expr.set_elem len key) reg ds es g h = Holds-Grows key reg ds es g h
  Holds-Grows (Expr.verdict v) reg ds es g h = g reg h
  Holds-Grows (Expr.value i) reg ds es g h = g reg h
  Holds-Grows (Expr.unary len op arg) reg ds es g h = g reg h
  Holds-Grows (Expr.shift len op left right) reg ds es g h = g reg h
  Holds-Grows (Expr.binop len order op left right) reg ds es g h = g reg h
  Holds-Grows (Expr.relational op is_string left right) reg ds es g h = g reg h
  Holds-Grows (Expr.map_of len key mappings) reg ds es g h = g reg h
  Holds-Grows (Expr.leaf len l) reg ds es g h = g reg h
  Holds-Grows (Expr.jhash len hash e) reg ds es g h = g reg h
  Holds-Grows (Expr.symhash len hash) reg ds es g h = g reg h
  Holds-Grows (Expr.other len) reg ds es g h = g reg h

  pub HoldsAll-Grows :
      (parts : Exprs) (reg : ℕ) (ds es : List (ℕ × ℕ))
      → Grows ds es
      → HoldsAll parts reg ds
      → HoldsAll parts reg es
  HoldsAll-Grows (one e) reg ds es g h = Holds-Grows e reg ds es g h
  HoldsAll-Grows (more e rest) reg ds es g h = (
    Holds-Grows e reg ds es g h.0,
    HoldsAll-Grows rest (reg + netlink_register_space (expr_len e)) ds es g h.1,
  )

-- The same as a result of an action.
abbrev pub Placed : {A : Type 0} → Expr → ℕ → A → List (ℕ × ℕ) → Type 0
Placed e reg _ es = Holds e reg es

abbrev pub PlacedAll : {A : Type 0} → Exprs → ℕ → A → List (ℕ × ℕ) → Type 0
PlacedAll parts reg _ es = HoldsAll parts reg es

pub first-Done :
    {A : Type 0} (e : Expr) (reg low low' : ℕ) (ds : List (ℕ × ℕ)) (c : M A)
    → Done reg low low' ds (Placed e reg) c
    → Done reg low low' ds (Known reg) c
first-Done e reg low low' ds c d =
    Done-weaken reg reg low low' ds (Placed e reg) (Known reg) c (omega arith)
      (λ a es _ h. Holds-known e reg es h) d

-- What was put into the registers is still there after a further action.
pub kept-Done :
    {A : Type 0} (e : Expr) (from reg low low' : ℕ) (ds : List (ℕ × ℕ))
    (P : A → List (ℕ × ℕ) → Type 0) (c : M A)
    → Holds e from ds
    → Done reg low low' ds P c
    → Done reg low low' ds (Placed e from) c
kept-Done e from reg low low' ds P c h d =
    Done-weaken reg reg low low' ds P (Placed e from) c (omega arith)
      (λ a es grows _. Holds-Grows e from ds es grows h) d
