-- ===== src/Delinearize/Puts.antt =====
-- Instructions that put an expression into a register, one after those of its operand.
use mathlib.Core.List.{append_assoc}
use nftables.Base.{
  ℕ, ◌≡◌, refl, ap, ◌∙◌, Bool, true, false, List, [], ◌∷◌, ◌++◌, Option, none, some, ◌==◌,
  if◌then◌else◌, inl, inr, Option-cases,
}
use nftables.Gmp.{Mpz}
use nftables.Bitwise.{Binop, netlink_parse_bitwise_bool}
use nftables.Linearize.Syntax
use nftables.Linearize.Syntax.{
  Leaf, Expr, Field, Nle, expr_len, ShiftOp, UnaryOp, op_hton, op_ntoh, op_lshift, op_rshift,
}
use nftables.Linearize.Context.{M, ◌>>=◌}
use nftables.Linearize.Nles.{nle, bytes_len}
use nftables.Linearize.Gen.{byteorder_op, shift_number}
use nftables.Linearize.Frame.{state}
use nftables.Delinearize.Context.{Found, found_len}
use nftables.Delinearize.Exprs.{netlink_alloc_value, around}
use nftables.Delinearize.State.{Tables, Parse, FoundStmt}
use nftables.Delinearize.Rule.{netlink_parse_rule_expr, parse_exprs, append_found}
use nftables.Delinearize.Roundtrip.{put_reg}

module _ (m : Mpz) (t : Tables) where
  -- The instruction of gen_byteorder.
  abbrev pub byteorder_nle : ℕ → ℕ → ℕ → UnaryOp → Nle
  byteorder_nle reg len size op = nle Syntax.k_byteorder (
      Field.sreg Syntax.a_sreg reg
      ∷ Field.dreg reg
      ∷ Field.number Syntax.a_len len
      ∷ Field.number Syntax.a_size size
      ∷ Field.number Syntax.a_op (byteorder_op m op)
      ∷ [])

  abbrev pub shift_nle : ℕ → ℕ → ShiftOp → List ℕ → Nle
  shift_nle reg len op data_bytes = nle Syntax.k_bitwise (
      Field.sreg Syntax.a_sreg reg
      ∷ Field.dreg reg
      ∷ Field.number Syntax.a_op (shift_number m op)
      ∷ Field.number Syntax.a_len (bytes_len len)
      ∷ Field.bytes Syntax.a_data data_bytes
      ∷ [])

  abbrev pub combined_nle : ℕ → ℕ → List ℕ → List ℕ → Nle
  combined_nle reg len mask xor = nle Syntax.k_bitwise (
      Field.sreg Syntax.a_sreg reg
      ∷ Field.dreg reg
      ∷ Field.number Syntax.a_op 0
      ∷ Field.number Syntax.a_len (bytes_len len)
      ∷ Field.bytes Syntax.a_mask mask
      ∷ Field.bytes Syntax.a_xor xor
      ∷ [])

  -- The operations that a mask and an exclusive or are read as.
  abbrev pub masked : List ℕ → List ℕ → Found → Found
  masked mask xor a =
      let k = netlink_alloc_value m t mask in
      around m t (found_len a) k.len a (
        netlink_parse_bitwise_bool m (found_len a) k.len
          (record { mask = k.value; xor = (netlink_alloc_value m t xor).value }))

  module _ (u : List Field → Parse → Option Parse) where
    -- The last expression put into a register stays.
    pub put_twice :
        (ctx : Parse) (reg : ℕ) (a b : Found)
        → put_reg m t u (put_reg m t u ctx reg a) reg b ≡ put_reg m t u ctx reg b
    put_twice ctx reg a b =
        ap (λ (f : ℕ → Option Found). record ctx { regs = record ctx.regs { at = f } })
          (λ i r. again r (r == reg) i)
      where
        again :
            (r : ℕ) (c : Bool)
            → (if c then some b else if c then some a else ctx.regs.at r)
              ≡ (if c then some b else ctx.regs.at r)
        again r true = refl
        again r false = refl

    -- The instructions that are added for an expression put `e` into a register, and return `l`.
    abbrev pub Puts : ℕ → ℕ → Found → List Binop → M (List Binop) → Type 0
    Puts reg low e l c =
        (nlr : List Nle) (ctx : Parse)
        → ctx.stmt ≡ none
        → (code : List Nle) × (c (state low nlr) ≡ some (l, state low (nlr ++ code)))
          × (parse_exprs m t u code ctx ≡ some (put_reg m t u ctx reg e))

    pub parse_exprs-append :
        (c d : List Nle) (ctx mid : Parse)
        → parse_exprs m t u c ctx ≡ some mid
        → parse_exprs m t u (c ++ d) ctx ≡ parse_exprs m t u d mid
    unfolding parse_exprs
    parse_exprs-append [] d ctx mid h = let same : ctx ≡ mid = cc in ap (parse_exprs m t u d) same
    parse_exprs-append (n ∷ c) d ctx mid h =
        elim (Option-cases (netlink_parse_rule_expr m t u n ctx)) [
          | inl e ↦ cc (rw e at h)
          | inr (x, e) ↦ rw e (parse_exprs-append c d x mid (rw e at h))
        ]

    -- One instruction after those of an operand.
    pub add_one :
        (reg low : ℕ) (a e : Found) (l : List Binop) (c : M (List Binop))
        (f : List Binop → M (List Binop)) (n : Nle)
        → Puts reg low a l c
        → ((nlr : List Nle) → f l (state low nlr) ≡ some ([], state low (nlr ++ n ∷ [])))
        → ((ctx : Parse)
            → ctx.stmt ≡ none
            → netlink_parse_rule_expr m t u n (put_reg m t u ctx reg a)
              ≡ some (put_reg m t u ctx reg e))
        → Puts reg low e [] (c >>= f)
    unfolding parse_exprs
    add_one reg low a e l c f n p g h nlr ctx s =
        let (code, generated, parsed) = p nlr ctx s in
        (
          code ++ n ∷ [],
          rw (generated, ◌>>=◌)
              (g (nlr ++ code)
                ∙ ap (λ (z : List Nle). some ([], state low z)) (append_assoc nlr code (n ∷ []))),
          parse_exprs-append code (n ∷ []) ctx (put_reg m t u ctx reg a) parsed ∙ rw (h ctx s) refl,
        )

    pub append_found_none : (ctx : Parse) → ctx.stmt ≡ none → append_found m t u ctx ≡ ctx
    append_found_none ctx s = go ctx.stmt s
      where
        go :
            (o : Option FoundStmt)
            → o ≡ none
            → elim o [ none ↦ ctx | some x ↦ record ctx { stmt = none; rule = ctx.rule ++ x ∷ [] } ]
              ≡ ctx
        go none e = refl
        go (some x) e = cc e
