-- ===== src/Delinearize/Registers.antt =====
-- The registers of the context, and the loop that collects a concatenation from them.
use nftables.Base.{
  ℕ, zero, suc, ◌+◌, ◌*◌, ◌≤◌, ◌<◌, ◌≡◌, ◌≢◌, refl, true, false, Option, none, some, arith, ◌==◌,
  if◌then◌else◌, Bool-cases, inl, inr,
}
use nftables.Registers.{netlink_register_space}
use nftables.NetlinkData.{netlink_padded_len}
use nftables.Delinearize.Context.{
  Found, found_len, Error, Registers, invalid, netlink_error, netlink_set_register,
  netlink_get_register, less, Loop, parts, missing, out_of_fuel, add_part, concat_parts,
  concat_fuel, netlink_parse_concat_expr,
}

pub valid_register : (reg : ℕ) → 1 ≤ reg → reg ≤ 16 → invalid reg ≡ false
valid_register reg l h = ground arith

-- The context with another expression in a register.
abbrev pub put : Registers → ℕ → Found → Registers
put ctx reg e = record ctx { at = λ r. if r == reg then some e else ctx.at r }

pub netlink_set_register_lem :
    (ctx : Registers) (reg : ℕ) (e : Found)
    → 1 ≤ reg
    → reg ≤ 16
    → netlink_set_register ctx reg e ≡ put ctx reg e
unfolding netlink_set_register
netlink_set_register_lem ctx reg e l h = rw (valid_register reg l h) refl

pub netlink_get_register_lem :
    (ctx : Registers) (reg : ℕ)
    → 1 ≤ reg
    → reg ≤ 16
    → netlink_get_register ctx reg ≡ (ctx.at reg, ctx)
unfolding netlink_get_register
netlink_get_register_lem ctx reg l h = rw (valid_register reg l h) refl

-- What was put into one of the 16 registers is read from it, the other ones read as before, and no
-- error is added.
pub netlink_get_register-netlink_set_register :
    (ctx : Registers) (reg other : ℕ) (e : Found)
    → 1 ≤ reg
    → reg ≤ 16
    → 1 ≤ other
    → other ≤ 16
    → ((netlink_get_register (netlink_set_register ctx reg e) other).0
        ≡ (if other == reg then some e else (netlink_get_register ctx other).0))
      × ((netlink_get_register (netlink_set_register ctx reg e) other).1.msgs ≡ ctx.msgs)
unfolding netlink_set_register netlink_get_register
netlink_get_register-netlink_set_register ctx reg other e l h k j =
    rw (valid_register reg l h, valid_register other k j) (refl, refl)

add_part-fuel : (e : Found) (r : Loop) → r ≢ out_of_fuel → add_part e r ≢ out_of_fuel
add_part-fuel e (parts es ctx) n = λ h. cc h
add_part-fuel e (missing ctx) n = λ h. cc h
add_part-fuel e Loop.stop n = λ h. cc h
add_part-fuel e out_of_fuel n = λ h. n refl

concat_parts-fuel :
    (fuel : ℕ) (ctx : Registers) (reg len : ℕ)
    → 1 ≤ fuel
    → 18 ≤ reg + fuel
    → concat_parts fuel ctx reg len ≢ out_of_fuel
unfolding concat_parts netlink_get_register netlink_padded_len
concat_parts-fuel zero ctx reg len p h = absurd (omega arith)
concat_parts-fuel (suc fuel) ctx reg len p h = elim (Bool-cases (len == 0)) [
  | inl e ↦ rw (concat_parts, e) (λ f. cc f)
  | inr e ↦ elim (Bool-cases (invalid reg)) [
    | inl bad ↦ rw (concat_parts, e, netlink_get_register, bad) (λ f. cc f)
    | inr good ↦
        rw (concat_parts, e, netlink_get_register, good)
          (found (ctx.at reg) (netlink_get_register ctx reg).1
            (λ next rest up. concat_parts-fuel fuel ctx next rest (ground arith) (ground arith)))
  ]
]
  where
    found :
        (o : Option Found) (r : Registers)
        → ((next rest : ℕ) → reg < next → concat_parts fuel ctx next rest ≢ out_of_fuel)
        → elim o [
          | none ↦ missing (netlink_error Error.size_mismatch r)
          | some x ↦ elim (netlink_register_space (found_len x) * 4 * 8 == 0) [
            | true ↦ Loop.stop
            | false ↦ add_part x (
                concat_parts fuel ctx
                  (reg + netlink_register_space (found_len x))
                  (less len (netlink_register_space (found_len x) * 4 * 8)))
          ]
        ]
          ≢ out_of_fuel
    found none r ih = λ f. cc f
    found (some x) r ih =
        let n = netlink_register_space (found_len x) in
        elim (Bool-cases (n * 4 * 8 == 0)) [
          | inl e ↦ rw e (λ f. cc f)
          | inr e ↦ rw e (
              add_part-fuel x (concat_parts fuel ctx (reg + n) (less len (n * 4 * 8)))
                (ih (reg + n) (less len (n * 4 * 8)) (ground arith)))
        ]

-- The loop over a concatenation ends within its fuel, whatever the registers hold and whatever length
-- is asked for: a register behind the last one ends it.
pub netlink_parse_concat_expr_ends :
    (ctx : Registers) (reg len : ℕ) → netlink_parse_concat_expr ctx reg len ≢ out_of_fuel
unfolding netlink_parse_concat_expr
netlink_parse_concat_expr_ends ctx reg len =
    concat_parts-fuel concat_fuel ctx reg len (omega arith) (omega arith)
