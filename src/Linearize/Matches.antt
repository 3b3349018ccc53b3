-- ===== src/Linearize/Matches.antt =====
-- netlink_gen_relational compares the register that the left-hand side was computed into.
use nftables.Base.{
  ℕ, inl, inr, ◌+◌, ◌≤◌, ◌<◌, ◌≡◌, ◌≢◌, refl, Bool, true, ◌&&◌, ◌||◌, not, List, Option, some, ◌==◌,
  ◌%◌,
}
use nftables.Gmp.{Mpz, Byteorder}
use nftables.Bitwise.{Binop}
use nftables.Expr.{ValueExpr}
use nftables.NetlinkData.{netlink_gen_constant_data, __netlink_gen_concat, zeros}
use nftables.Linearize.Syntax.{Expr, expr_len, concat_len, RelOp, Right, SetRef}
use nftables.Linearize.Context.{M, ◌>>=◌, take_register, drop_register}
use nftables.Linearize.Nles.{bytes_len, bitwise}
use nftables.Linearize.Gen.{
  Left, compare_range, gen_range, gen_lookup, gen_flagcmp, gen_prefix, gen_plain, gen_relational,
  is_big_endian, flag_op, is_binop,
}
use nftables.Linearize.Frame.{
  Done, bind-Done, take_register-Done, drop_register-Done, drop_last-Done,
}
use nftables.Linearize.Shape.{space_of}
use nftables.Linearize.Layout.{Placed, Holds-known, kept-Done}
use nftables.Linearize.Parts.{Known, raw_data-Done, constant-Done, bytes_len-nonzero}
use nftables.Linearize.Compare.{
  IsRight, equality, lookup-Done, emit_then-Done, by_cases, constant_lem, whole_bytes, no_flag,
  compare_range-Done, gen_compare-Done, flag_tests, flag_tests-Done,
}

module _ (m : Mpz) (left : Expr) (gen_left : Left) (low : ℕ) (pos : 1 ≤ low) where
  abbrev c : Option ℕ
  c = concat_len left (expr_len left)

  abbrev top : ℕ
  top = low + space_of left

  module _ (room : low + space_of left ≤ 17) (ds : List (ℕ × ℕ))
      (ih : (len : ℕ) → 0 < len → Done low top top ds (Placed left low) (gen_left len low)) where
    -- The left-hand side is computed into the first free register.
    left-Done :
        (len : ℕ) (f : ℕ → List Binop → M (Unit {0}))
        → 0 < len
        → ((a : List Binop) (es : List (ℕ × ℕ))
            → Known low tt es
            → Done low top low es (Known low) (f low a))
        → Done low low low ds
            (Placed left low)
            (take_register c >>= λ reg. gen_left len reg >>= f reg)
    left-Done len f h next = take_register-Done low low low ds (Placed left low) c _ room (
        bind-Done low top top low ds (Placed left low) (Placed left low) (gen_left len low) (f low)
          (ih len h)
          (λ a es _ k.
            kept-Done left low low top low es (Known low) (f low a) k
              (next a es (Holds-known left low es k))))

    gen_range-Done :
        (op : RelOp) (l r : ValueExpr)
        → 0 < expr_len left
        → equality op ≡ true
        → 0 < l.len
        → 0 < r.len
        → Done low low low ds (Placed left low) (gen_range m left gen_left op l r)
    unfolding gen_range
    gen_range-Done op l r h e hl hr = left-Done (expr_len left) _ h (λ a es k.
        constant-Done m low top es low l _ (Known low) hl (λ lb.
          constant-Done m low top es low r _ (Known low) hr (λ rb.
            bind-Done low top top low es (Known low) (Known low)
              (compare_range m left gen_left low op lb rb) (λ _. drop_register c)
              (compare_range-Done m left gen_left low pos top es op lb rb e k)
              (λ b fs _ k'. drop_last-Done low low fs c (Known low) pos k'))))

    gen_lookup-Done :
        (op : RelOp) (s : SetRef)
        → 0 < expr_len left
        → Done low low low ds (Placed left low) (gen_lookup m left gen_left op s)
    unfolding gen_lookup
    gen_lookup-Done op s h = left-Done (expr_len left) _ h (λ a es k.
        drop_register-Done low low low es (Known low) c _ pos (lookup-Done low low es op s k))

    gen_plain-Done :
        (op : RelOp) (len : ℕ) (right : Option (List ℕ)) (data_bytes : List ℕ)
        → 0 < expr_len left
        → op ≢ RelOp.op_neg
        → right ≡ some data_bytes
        → Done low low low ds (Placed left low) (gen_plain m left gen_left op len right)
    unfolding gen_plain
    gen_plain-Done op len right data_bytes h ho e = left-Done (expr_len left) _ h (λ a es k.
        gen_compare-Done m left gen_left low pos es op (bytes_len len) (expr_len left) right
          data_bytes ho refl e k)

    gen_flagcmp-Done :
        (op : RelOp) (right : ValueExpr)
        → 0 < expr_len left
        → 0 < right.len
        → Done low low low ds (Placed left low) (gen_flagcmp m left gen_left op right)
    unfolding gen_flagcmp
    gen_flagcmp-Done op right h hr = left-Done (expr_len left) _ h (λ a es k.
        raw_data-Done m low top es low right.byteorder (bytes_len (expr_len left)) 0 _ (Known low)
          (bytes_len-nonzero (expr_len left) h)
          (λ zb. constant-Done m low top es low right _ (Known low) hr (λ db.
            bind-Done low top top low es (Known low) (Known low)
              (flag_tests m left gen_left low pos (is_binop left) op (bytes_len (expr_len left)) zb
                db)
              (λ _. drop_register c)
              (flag_tests-Done m left gen_left low pos (is_binop left) op
                (bytes_len (expr_len left)) zb db es k)
              (λ b fs _ k'. drop_last-Done low low fs c (Known low) pos k'))))

    gen_prefix-Done :
        (op : RelOp) (is_string : Bool) (right : ValueExpr) (order : Byteorder) (len prefix_len : ℕ)
        → 0 < expr_len left
        → IsRight m op is_string left (Right.prefix right order len prefix_len)
        → Done low low low ds
            (Placed left low)
            (gen_prefix m left gen_left op is_string right order len prefix_len)
    unfolding gen_prefix
    gen_prefix-Done op is_string right order len prefix_len h (ho, same, hl, hr, hs) =
        let value_bytes : (n : List ℕ) × (netlink_gen_constant_data m right ≡ some n) =
          constant_lem m right hr in
        elim (by_cases (
          not is_string
          && (not (is_big_endian order) || (prefix_len == 0 || not (prefix_len % 8 == 0))))) [
            | inl e ↦ rw e (
                left-Done (expr_len left) _ h (λ a es k.
                  raw_data-Done m low top es low order (bytes_len len) _ _ (Known low)
                    (bytes_len-nonzero len hl)
                    (λ mask.
                      emit_then-Done low top low es (Known low)
                        (bitwise low (bytes_len len) mask (zeros (bytes_len len))) _ refl refl k
                        (λ fs k'.
                          gen_compare-Done m left gen_left low pos fs op (bytes_len len)
                            (expr_len left) _ value_bytes.0 ho refl value_bytes.1 k'))))
            | inr e ↦ rw e (
                left-Done prefix_len _ (whole_bytes is_string (is_big_endian order) prefix_len hs e)
                  (λ a es k.
                    gen_compare-Done m left gen_left low pos es op (bytes_len prefix_len) prefix_len
                      _ value_bytes.0 ho same value_bytes.1 k))
          ]

    pub gen_relational-Done :
        (op : RelOp) (is_string : Bool) (right : Right)
        → 0 < expr_len left
        → IsRight m op is_string left right
        → Done low low low ds (Placed left low) (gen_relational m left gen_left op is_string right)
    unfolding gen_relational
    gen_relational-Done op is_string (Right.range l r) h (e, hl, hr) =
        gen_range-Done op l r h e hl hr
    gen_relational-Done op is_string (Right.set_ref s) h v = gen_lookup-Done op s h
    gen_relational-Done op is_string (Right.prefix right order len prefix_len) h v =
        gen_prefix-Done op is_string right order len prefix_len h v
    gen_relational-Done op is_string (Right.concat flags len parts) h (ho, n) =
        gen_plain-Done op len (__netlink_gen_concat m flags len parts) n.0 h ho n.1
    gen_relational-Done op is_string (Right.value right bitmask) h (ho, hr) =
        let (n, e) = constant_lem m right hr in
        elim (by_cases (flag_op op && bitmask)) [
          | inl t ↦ rw t (gen_flagcmp-Done op right h hr)
          | inr t ↦ rw t (
              gen_plain-Done op right.len (netlink_gen_constant_data m right) n h
                (no_flag op bitmask ho t) e)
        ]
