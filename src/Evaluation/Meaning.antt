-- ===== src/Evaluation/Meaning.antt =====
-- A comparison whose left operation was moved to its right means what it meant, and where not.
use Prim.Native.Nat.{bit_xor}
use nftables.Base.{
  ℕ, ◌*◌, ◌/◌, ◌^◌, ◌<◌, ◌≡◌, refl, ap, sym, ◌∙◌, inl, inr, ◌⊎◌, arith, ltb, ◌==◌, any, All, List,
}
use native.Mathlib.Decide.{ℕ_discrete}
use native.Mathlib.Nat.{mod-eq_of_lt}
use nftables.Gmp.{Mpz, mpz_bitmask, mpz_lshift_ui}
use nftables.Bits.Shifts.{bit_and-shifted_ones, bit_xor_twice}
use nftables.Evaluation.Constants.{done, op_xor, op_lshift, op_rshift, EvalCtx, mpz_get_uint8}
use nftables.Evaluation.Transfer
use nftables.Evaluation.Transfer.{
  Constant, RightSide, LeftBinop, LeftSide, operation, argument, Transferred, moved, kept,
  __binop_transfer, binop_transfer_handle_lhs, finish_transfer, binop_transfer,
}
use nftables.Evaluation.Computed.{bind_inv, assert_inv, done_inv}
use nftables.Evaluation.Matches.{
  matches, is_member, Comparison, holds, operate, left_value, Related, values, set_elems, mappings,
  ranges, others, EachRelated, none, more, SideRelated, constants, sets, set_refs, holds-Stretched,
}
use nftables.Evaluation.Moved.{SideEach}
use nftables.Evaluation.Inverses.{IsSized, rshift_related, lshift_related, xor_related}

-- The right side has no range.
abbrev pub HasNoRange : Constant → Type 0
HasNoRange (Transfer.value v) = Unit
HasNoRange (Transfer.set_elem key) = HasNoRange key
HasNoRange (Transfer.mapping key) = HasNoRange key
HasNoRange (Transfer.range low high) = ⊥
HasNoRange Transfer.other = Unit

abbrev pub IsExact : RightSide → Type 0
IsExact (Transfer.constant c) = HasNoRange c
IsExact (Transfer.set elems) = All HasNoRange elems
IsExact (Transfer.set_ref anonymous init) = IsExact init

module _ (k : ℕ) where
  eq_inverted : (x v : ℕ) → (x == bit_xor v k) ≡ (bit_xor x k == v)
  eq_inverted x v = elim (ℕ_discrete x (bit_xor v k)) [
    | yes e ↦ let back : bit_xor x k ≡ v = rw e (bit_xor_twice v k) in ground arith
    | no n ↦
        let apart : bit_xor x k ≡ v → ⊥ = λ e. n (sym (bit_xor_twice x k) ∙ rw e refl) in
        ground arith
  ]

  matches-inverted :
      {c d : Constant}
      → HasNoRange c
      → Related (λ a b. b ≡ bit_xor a k) c d
      → (x : ℕ) → matches d x ≡ matches c (bit_xor x k)
  matches-inverted n (values {v} e) x = rw e (eq_inverted x v.value)
  matches-inverted n (set_elems r) x = matches-inverted n r x
  matches-inverted n (mappings r) x = matches-inverted n r x
  matches-inverted n (ranges r s) x = absurd n
  matches-inverted n others x = refl

  any-inverted :
      {cs ds : List Constant}
      → All HasNoRange cs
      → EachRelated (λ a b. b ≡ bit_xor a k) cs ds
      → (x : ℕ) → any (λ c. matches c x) ds ≡ any (λ c. matches c (bit_xor x k)) cs
  any-inverted n none x = refl
  any-inverted n (more r rs) x = rw (matches-inverted n.0 r x, any-inverted n.1 rs x) refl

  is_member-inverted :
      {r s : RightSide}
      → IsExact r
      → SideRelated (λ a b. b ≡ bit_xor a k) r s
      → (x : ℕ) → is_member s x ≡ is_member r (bit_xor x k)
  is_member-inverted n (constants r) x = matches-inverted n r x
  is_member-inverted n (sets rs) x = any-inverted n rs x
  is_member-inverted n (set_refs r) x = is_member-inverted n r x

module _ (m : Mpz) (start : EvalCtx) (left : LeftBinop) where
  -- The sides stay, or the right side was transferred and the left side follows.
  abbrev pub Outcome : RightSide → LeftSide → RightSide → Type 0
  Outcome right lhs right' =
      ((lhs ≡ operation left.op left.right.value) × (right' ≡ right))
      ⊎ ((ctx : EvalCtx) × (__binop_transfer m start left right ≡ done (moved ctx right'))
          × (binop_transfer_handle_lhs left ≡ done lhs))

  pub binop_transfer_inv :
      (right right' : RightSide) (lhs : LeftSide)
      → binop_transfer m start left right ≡ done (lhs, right')
      → Outcome right lhs right'
  unfolding binop_transfer
  binop_transfer_inv right right' lhs h =
      let (t, transferred, rest) =
        bind_inv (__binop_transfer m start left right) (finish_transfer left right) h in
      by_outcome t transferred rest
    where
      by_outcome :
          (t : Transferred)
          → __binop_transfer m start left right ≡ done t
          → finish_transfer left right t ≡ done (lhs, right')
          → Outcome right lhs right'
      by_outcome kept transferred rest =
          let same = done_inv rest in
          inl (
            sym (ap (λ (p : LeftSide × RightSide). p.0) same),
            sym (ap (λ (p : LeftSide × RightSide). p.1) same),
          )
      by_outcome (moved ctx r) transferred rest =
          let (l, handled, given) = bind_inv (binop_transfer_handle_lhs left) _ rest in
          let same = done_inv given in
          let at : r ≡ right' = ap (λ (p : LeftSide × RightSide). p.1) same in
          inr
            (ctx, rw at at transferred, handled ∙ ap (λ (p : LeftSide × RightSide). done p.0) same)

  rshift_left :
      (lhs : LeftSide) (x : ℕ)
      → left.op ≡ op_rshift
      → binop_transfer_handle_lhs left ≡ done lhs
      → x < 2 ^ left.arg_len
      → left_value lhs left.arg_len x ≡ x / 2 ^ left.right.value * 2 ^ left.right.value
  unfolding binop_transfer_handle_lhs mpz_get_uint8 mpz_bitmask mpz_lshift_ui
  rshift_left lhs x is_rshift h fits =
      let (shift, small, given) = bind_inv (mpz_get_uint8 left.right.value) _ (rw is_rshift at h) in
      let at : left.right.value ≡ shift =
        done_inv (assert_inv (ltb left.right.value (2 ^ 8)) _ small).1 in
      rw (sym (done_inv given), sym at) (bit_and-shifted_ones left.arg_len left.right.value x fits)

  -- A comparison of a right shift with numbers that fit their lengths, themselves not above the
  -- length of the context, means the same after the transfer, for every value of the shifted
  -- expression's length: equality, orderings, ranges and sets.
  pub binop_transfer-op_rshift :
      (right right' : RightSide) (lhs : LeftSide) (cmp : Comparison) (x : ℕ)
      → left.op ≡ op_rshift
      → SideEach (IsSized start) right
      → x < 2 ^ left.arg_len
      → binop_transfer m start left right ≡ done (lhs, right')
      → holds cmp right' (left_value lhs left.arg_len x)
        ≡ holds cmp right (operate left.op left.arg_len left.right.value x)
  binop_transfer-op_rshift right right' lhs cmp x is_rshift sized fits h =
      elim (binop_transfer_inv right right' lhs h) [
        | inl (l, r) ↦ rw (l, r) refl
        | inr (ctx, transferred, handled) ↦
            let related =
              rshift_related m left start right right' ctx transferred is_rshift sized in
            rw (rshift_left lhs x is_rshift handled fits, is_rshift)
              (holds-Stretched left.right.value cmp related (x / 2 ^ left.right.value))
      ]

  lshift_left :
      (lhs : LeftSide)
      → left.op ≡ op_lshift
      → binop_transfer_handle_lhs left ≡ done lhs
      → lhs ≡ argument
  unfolding binop_transfer_handle_lhs
  lshift_left lhs is_lshift h = sym (done_inv (rw is_lshift at h))

  xor_left :
      (lhs : LeftSide)
      → left.op ≡ op_xor
      → binop_transfer_handle_lhs left ≡ done lhs
      → lhs ≡ argument
  unfolding binop_transfer_handle_lhs
  xor_left lhs is_xor h = sym (done_inv (rw is_xor at h))

  -- A comparison of a left shift that was transferred means the same for every value of which the
  -- shift loses no bit.
  pub binop_transfer-op_lshift :
      (right right' : RightSide) (lhs : LeftSide) (cmp : Comparison) (x : ℕ)
      → left.op ≡ op_lshift
      → x * 2 ^ left.right.value < 2 ^ left.arg_len
      → binop_transfer m start left right ≡ done (lhs, right')
      → holds cmp right' (left_value lhs left.arg_len x)
        ≡ holds cmp right (operate left.op left.arg_len left.right.value x)
  binop_transfer-op_lshift right right' lhs cmp x is_lshift fits h =
      elim (binop_transfer_inv right right' lhs h) [
        | inl (l, r) ↦ rw (l, r) refl
        | inr (ctx, transferred, handled) ↦
            let related = lshift_related m left start right right' ctx transferred is_lshift in
            rw (lshift_left lhs is_lshift handled, is_lshift, mod-eq_of_lt fits)
              (sym (holds-Stretched left.right.value cmp related x))
      ]

  -- A test of an exclusive or for a number or for a set of numbers finds the same values after the
  -- transfer.
  pub binop_transfer-op_xor :
      (right right' : RightSide) (lhs : LeftSide) (x : ℕ)
      → left.op ≡ op_xor
      → IsExact right
      → binop_transfer m start left right ≡ done (lhs, right')
      → is_member right' (left_value lhs left.arg_len x)
        ≡ is_member right (operate left.op left.arg_len left.right.value x)
  binop_transfer-op_xor right right' lhs x is_xor exact h =
      elim (binop_transfer_inv right right' lhs h) [
        | inl (l, r) ↦ rw (l, r) refl
        | inr (ctx, transferred, handled) ↦
            let related = xor_related m left start right right' ctx transferred is_xor in
            rw (xor_left lhs is_xor handled, is_xor)
              (is_member-inverted left.right.value exact related x)
      ]
