-- ===== src/Linearize/Frame.antt =====
-- What a list of instructions does to the registers, and rules for actions that produce such lists.
use mathlib.Core.List.{append_assoc, append-nil}
use nftables.Base.{
  ℕ, suc, ◌+◌, ◌-◌, ◌≤◌, ◌<◌, ◌≡◌, refl, ◌∙◌, ap, Bool, true, false, ◌&&◌, List, [], ◌∷◌, ◌++◌,
  Option, some, All, any, arith, leb, ltb, All-append, All-map, any-append, lt-ltb,
}
use nftables.Registers.{
  netlink_register_space, size_of, get_register, release_register, __get_register,
  __release_register,
}
use nftables.Linearize.Syntax.{Field, sreg, sreg_number, dreg, set_ref, Nle}
use nftables.Linearize.Context.{
  Ctx, M, ◌>>=◌, return, require, take_register, drop_register, raise, lower, nft_rule_add_expr,
  assert_below,
}

-- The registers that an instruction reads.
abbrev pub read_by : List Field → List ℕ
read_by [] = []
read_by (sreg a r ∷ l) = r ∷ read_by l
read_by (sreg_number a r ∷ l) = r ∷ read_by l
read_by (_ ∷ l) = read_by l

-- The data of a map fills the registers of its length, other results one register at least.
abbrev pub result_space : List Field → ℕ
result_space [] = 1
result_space (set_ref s ∷ l) = suc (netlink_register_space s.data_len - 1)
result_space (_ ∷ l) = result_space l

abbrev pub written_by : ℕ → List Field → List (ℕ × ℕ)
written_by space [] = []
written_by space (dreg r ∷ l) = (r, space) ∷ written_by space l
written_by space (_ ∷ l) = written_by space l

abbrev pub reads : Nle → List ℕ
reads n = read_by n.fields

-- First register and number of the registers written.
abbrev pub writes : Nle → List (ℕ × ℕ)
writes n = written_by (result_space n.fields) n.fields

-- A register is among those written.
abbrev pub known : List (ℕ × ℕ) → ℕ → Bool
known ds r = any (λ d. leb d.0 r && ltb r (d.0 + d.1)) ds

-- Every instruction reads registers that are in `ds` or were written before.
abbrev pub Sound : List (ℕ × ℕ) → List Nle → Type 0
Sound ds [] = Unit
Sound ds (n ∷ code) = All (λ r. known ds r ≡ true) (reads n) × Sound (writes n ++ ds) code

abbrev pub after : List (ℕ × ℕ) → List Nle → List (ℕ × ℕ)
after ds [] = ds
after ds (n ∷ code) = after (writes n ++ ds) code

-- Nothing is written below register `reg`.
abbrev pub Above : ℕ → List Nle → Type 0
Above reg code = All (λ n. All (λ w. reg ≤ w.0) (writes n)) code

Sound-append :
    (ds : List (ℕ × ℕ)) (c d : List Nle) → Sound ds c → Sound (after ds c) d → Sound ds (c ++ d)
Sound-append ds [] d h k = k
Sound-append ds (n ∷ c) d h k = (h.0, Sound-append (writes n ++ ds) c d h.1 k)

after-append : (ds : List (ℕ × ℕ)) (c d : List Nle) → after ds (c ++ d) ≡ after (after ds c) d
after-append ds [] d = refl
after-append ds (n ∷ c) d = after-append (writes n ++ ds) c d

-- What was written stays written.
abbrev pub Grows : List (ℕ × ℕ) → List (ℕ × ℕ) → Type 0
Grows ds es = (r : ℕ) → known ds r ≡ true → known es r ≡ true

after-Grows : (ds : List (ℕ × ℕ)) (c : List Nle) → Grows ds (after ds c)
after-Grows ds [] r h = h
after-Grows ds (n ∷ c) r h =
    after-Grows (writes n ++ ds) c r
      (any-append (λ d. leb d.0 r && ltb r (d.0 + d.1)) (writes n) ds ∙ ground arith)

abbrev pub state : ℕ → List Nle → Ctx
state low nlr = record { reg_low = low; nlr = nlr }

-- From `low` the action does not stop the program, ends with `low'` and adds instructions that read
-- known registers only and write none below `reg`. `P` holds of its result and what is known then.
abbrev pub Done :
    {A : Type 0} → ℕ → ℕ → ℕ → List (ℕ × ℕ) → (A → List (ℕ × ℕ) → Type 0) → M A → Type 0
Done {A} reg low low' ds P c =
    (nlr : List Nle)
    → (a : A) × (code : List Nle) × (c (state low nlr) ≡ some (a, state low' (nlr ++ code)))
      × Sound ds code
      × Above reg code
      × P a (after ds code)

module _ {A B : Type 0} (reg low mid low' : ℕ) (ds : List (ℕ × ℕ)) (P : A → List (ℕ × ℕ) → Type 0)
    (Q : B → List (ℕ × ℕ) → Type 0) (c : M A) (f : A → M B) where
  pub bind-Done :
      Done reg low mid ds P c
      → ((a : A) (es : List (ℕ × ℕ)) → Grows ds es → P a es → Done reg mid low' es Q (f a))
      → Done reg low low' ds Q (c >>= f)
  bind-Done first next nlr =
      let (a, code, e, sound, above, p) = first nlr in
      let (b, code', e', sound', above', q) =
        next a (after ds code) (after-Grows ds code) p (nlr ++ code) in
      (
        b,
        code ++ code',
        rw (e, ◌>>=◌)
            (e' ∙ ap (λ (l : List Nle). some (b, state low' l)) (append_assoc nlr code code')),
        Sound-append ds code code' sound sound',
        All-append (λ n. All (λ w. reg ≤ w.0) (writes n)) code code' above above',
        rw (after-append ds code code') q,
      )

-- The same with a lower register, and with a weaker claim.
pub Done-weaken :
    {A : Type 0} (reg reg' low low' : ℕ) (ds : List (ℕ × ℕ)) (P Q : A → List (ℕ × ℕ) → Type 0)
    (c : M A)
    → reg ≤ reg'
    → ((a : A) (es : List (ℕ × ℕ)) → Grows ds es → P a es → Q a es)
    → Done reg' low low' ds P c
    → Done reg low low' ds Q c
Done-weaken reg reg' low low' ds P Q c h pq d nlr =
    let (a, code, e, sound, above, p) = d nlr in
    (
      a,
      code,
      e,
      sound,
      All-map (λ n. All (λ w. reg' ≤ w.0) (writes n)) (λ n. All (λ w. reg ≤ w.0) (writes n))
          (λ n. All-map (λ w. reg' ≤ w.0) (λ w. reg ≤ w.0) (λ w k. omega arith) (writes n)) code
          above,
      pq a (after ds code) (after-Grows ds code) p,
    )

get_register_lem :
    (low : ℕ) (concat : Option ℕ)
    → low + netlink_register_space (size_of concat) ≤ 17
    → get_register low concat ≡ some (low, low + netlink_register_space (size_of concat))
unfolding get_register __get_register
get_register_lem low concat h =
    let e : ltb 17 (low + netlink_register_space (size_of concat)) ≡ false =
      lt-ltb 17 (low + netlink_register_space (size_of concat)) h in
    rw e refl

release_register_lem :
    (low : ℕ) (concat : Option ℕ)
    → 1 ≤ low
    → release_register (low + netlink_register_space (size_of concat)) concat ≡ some low
unfolding release_register __release_register
release_register_lem low concat h =
    let n = netlink_register_space (size_of concat) in
    let e : ltb (low + n) (1 + n) ≡ false = lt-ltb (low + n) (1 + n) (omega arith) in
    let back : low + n - n ≡ low = omega arith in rw (e, back) refl

module _ (reg low : ℕ) (ds : List (ℕ × ℕ)) where
  pub return-Done :
      {A : Type 0} (P : A → List (ℕ × ℕ) → Type 0) (a : A)
      → P a ds
      → Done reg low low ds P (return a)
  return-Done P a p nlr = (a, [], rw (append-nil nlr) refl, tt, tt, p)

  -- An instruction that reads known registers.
  pub add-Done :
      (n : Nle)
      → All (λ r. known ds r ≡ true) (reads n)
      → All (λ w. reg ≤ w.0) (writes n)
      → Done reg low low ds (λ _ es. es ≡ writes n ++ ds) (nft_rule_add_expr n)
  unfolding nft_rule_add_expr
  add-Done n h k nlr = (tt, n ∷ [], refl, (h, tt), (k, tt), refl)

-- Actions that add nothing, with what follows them.
module _ {B : Type 0} (reg low end : ℕ) (ds : List (ℕ × ℕ)) (Q : B → List (ℕ × ℕ) → Type 0) where
  silent-Done :
      {A : Type 0} (low' : ℕ) (c : M A) (a : A) (f : A → M B)
      → ((nlr : List Nle) → c (state low nlr) ≡ some (a, state low' nlr))
      → Done reg low' end ds Q (f a)
      → Done reg low end ds Q (c >>= f)
  silent-Done low' c a f e next nlr = rw (e nlr, ◌>>=◌) (next nlr)

  pub require-Done :
      (b : Bool) (f : Unit {0} → M B)
      → b ≡ true
      → Done reg low end ds Q (f tt)
      → Done reg low end ds Q (require b >>= f)
  require-Done b f e next = silent-Done low (require b) tt f (λ nlr. rw e refl) next

  pub assert_below-Done :
      (r : ℕ) (f : Unit {0} → M B)
      → r < low
      → Done reg low end ds Q (f tt)
      → Done reg low end ds Q (assert_below r >>= f)
  unfolding assert_below
  assert_below-Done r f h next =
      let e : ltb r low ≡ true = ground arith in
      silent-Done low (assert_below r) tt f (λ nlr. rw e refl) next

  pub take_register-Done :
      (concat : Option ℕ) (f : ℕ → M B)
      → low + netlink_register_space (size_of concat) ≤ 17
      → Done reg (low + netlink_register_space (size_of concat)) end ds Q (f low)
      → Done reg low end ds Q (take_register concat >>= f)
  unfolding take_register
  take_register-Done concat f h next =
      silent-Done (low + netlink_register_space (size_of concat)) (take_register concat) low f
        (λ nlr. rw (get_register_lem low concat h, take_register) refl) next

  pub raise-Done :
      (n : ℕ) (f : Unit {0} → M B)
      → Done reg (low + n) end ds Q (f tt)
      → Done reg low end ds Q (raise n >>= f)
  unfolding raise
  raise-Done n f next = silent-Done (low + n) (raise n) tt f (λ nlr. refl) next

-- Registers are given back.
module _ {B : Type 0} (reg low end : ℕ) (ds : List (ℕ × ℕ)) (Q : B → List (ℕ × ℕ) → Type 0) where
  pub drop_register-Done :
      (concat : Option ℕ) (f : Unit {0} → M B)
      → 1 ≤ low
      → Done reg low end ds Q (f tt)
      → Done reg
          (low + netlink_register_space (size_of concat))
          end
          ds
          Q
          (drop_register concat >>= f)
  unfolding drop_register
  drop_register-Done concat f h next =
      silent-Done reg (low + netlink_register_space (size_of concat)) end ds Q low
        (drop_register concat) tt f
        (λ nlr. rw (release_register_lem low concat h, drop_register) refl) next

  pub lower-Done :
      (n : ℕ) (f : Unit {0} → M B)
      → Done reg low end ds Q (f tt)
      → Done reg (low + n) end ds Q (lower n >>= f)
  unfolding lower
  lower-Done n f next =
      let back : low + n - n ≡ low = omega arith in
      silent-Done reg (low + n) end ds Q low (lower n) tt f (λ nlr. rw back refl) next

pub drop_last-Done :
    (reg low : ℕ) (ds : List (ℕ × ℕ)) (concat : Option ℕ) (P : Unit {0} → List (ℕ × ℕ) → Type 0)
    → 1 ≤ low
    → P tt ds
    → Done reg (low + netlink_register_space (size_of concat)) low ds P (drop_register concat)
unfolding drop_register
drop_last-Done reg low ds concat P h p nlr =
    (tt, [], rw (append-nil nlr, release_register_lem low concat h, drop_register) refl, tt, tt, p)
