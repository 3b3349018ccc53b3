-- ===== src/Linearize/Context.antt =====
-- `struct netlink_linearize_ctx` as state, and calls that may stop the program.
use nftables.Base.{ℕ, ◌+◌, ◌-◌, Bool, true, false, List, [], ◌∷◌, ◌++◌, Option, none, some, ltb}
use nftables.Registers.{get_register, release_register}
use nftables.Linearize.Syntax.{Nle}

-- `nlr` has the instructions that were added to the rule, the first one first.
pub record Ctx : Type 0 where
  pub reg_low : ℕ
  pub nlr : List Nle

-- `none` is a failed assertion or a BUG().
abbrev pub M : Type 0 → Type 0
M A = Ctx → Option (A × Ctx)

infixl 5 ◌>>=◌ ◌>>◌
abbrev pub ◌>>=◌ : {A B : Type 0} → M A → (A → M B) → M B
◌>>=◌ c f ctx = elim (c ctx) [ none ↦ none | some (a, ctx') ↦ f a ctx' ]

abbrev pub ◌>>◌ : {B : Type 0} → M (Unit {0}) → M B → M B
c >> d = c >>= λ _. d

abbrev pub return : {A : Type 0} → A → M A
return a ctx = some (a, ctx)

abbrev pub require : Bool → M (Unit {0})
require true ctx = some (tt, ctx)
require false ctx = none

-- A result of a function that does not use the context.
abbrev pub lift : {A : Type 0} → Option A → M A
lift none ctx = none
lift (some a) ctx = some (a, ctx)

unfoldable pub take_register : Option ℕ → M ℕ
take_register concat ctx = elim (get_register ctx.reg_low concat) [
  | none ↦ none
  | some (reg, next) ↦ some (reg, record ctx { reg_low = next })
]

unfoldable pub drop_register : Option ℕ → M (Unit {0})
drop_register concat ctx = elim (release_register ctx.reg_low concat) [
  | none ↦ none
  | some next ↦ some (tt, record ctx { reg_low = next })
]

unfoldable pub nft_rule_add_expr : Nle → M (Unit {0})
nft_rule_add_expr nle ctx = some (tt, record ctx { nlr = ctx.nlr ++ nle ∷ [] })

-- The assertion of netlink_gen_expr.
unfoldable pub assert_below : ℕ → M (Unit {0})
assert_below dreg ctx = require (ltb dreg ctx.reg_low) ctx

-- `reg_low` moved by hand.
unfoldable pub raise : ℕ → M (Unit {0})
raise regspace ctx = some (tt, record ctx { reg_low = ctx.reg_low + regspace })

unfoldable pub lower : ℕ → M (Unit {0})
lower regspace ctx = some (tt, record ctx { reg_low = ctx.reg_low - regspace })
