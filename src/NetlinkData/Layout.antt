-- ===== src/NetlinkData/Layout.antt =====
-- Where the parts of a concatenation stand in its bytes.
use mathlib.Core.List.{append_assoc, append-nil}
use nftables.Base.{
  ℕ, zero, suc, ◌+◌, ◌-◌, ◌*◌, ◌/◌, ◌%◌, ◌^◌, ◌≤◌, ◌<◌, ◌≡◌, ◌≢◌, refl, ◌∙◌, ap, sym, Bool, true,
  false, not, List, [], ◌∷◌, ◌++◌, none, some, length, take, drop, leb, ltb, ◌==◌, if◌then◌else◌,
  arith, All, length-append, le→leb, lt→leb, lt-ltb,
}
use nftables.Gmp.{Mpz, mpz_bitmask, div_round_up}
use nftables.Expr.{ValueExpr}
use nftables.NetlinkData.{
  Part, range, prefix, value, zeros, write_at, nft_data_memcpy, netlink_padded_len,
  netlink_export_pad, export_value, __netlink_gen_concat_data, gen_parts, __netlink_gen_concat,
  netlink_gen_range,
}
use nftables.Registers.{netlink_register_space}

length-zeros : (n : ℕ) → length (zeros n) ≡ n
length-zeros zero = refl
length-zeros (suc n) = ap suc (length-zeros n)

drop-zeros : (n k : ℕ) → drop n (zeros k) ≡ zeros (k - n)
drop-zeros zero k = let e : k - 0 ≡ k = omega arith in rw e refl
drop-zeros (suc n) zero = let e : 0 - suc n ≡ 0 = omega arith in rw e refl
drop-zeros (suc n) (suc k) = let e : suc k - suc n ≡ k - n = omega arith in rw e (drop-zeros n k)

zeros-add : (n k : ℕ) → zeros n ++ zeros k ≡ zeros (n + k)
zeros-add zero k = let e : 0 + k ≡ k = omega arith in rw e refl
zeros-add (suc n) k =
    let e : suc n + k ≡ suc (n + k) = omega arith in rw e (ap (◌∷◌ 0) (zeros-add n k))

pub take-length-append : (xs ys : List ℕ) → take (length xs) (xs ++ ys) ≡ xs
take-length-append [] ys = refl
take-length-append (x ∷ xs) ys = ap (◌∷◌ x) (take-length-append xs ys)

pub drop-length-append : (xs ys : List ℕ) (n : ℕ) → drop (length xs + n) (xs ++ ys) ≡ drop n ys
drop-length-append [] ys n = ap (λ (k : ℕ). drop k ys) (omega arith)
drop-length-append (x ∷ xs) ys n =
    let next : suc (length xs) + n ≡ suc (length xs + n) = omega arith in
    rw next (drop-length-append xs ys n)

-- A write behind what is there, into zeros.
write_at-zeros :
    (done data_bytes : List ℕ) (k : ℕ)
    → length data_bytes ≤ k
    → write_at (done ++ zeros k) (length done) data_bytes
      ≡ some (done ++ (data_bytes ++ zeros (k - length data_bytes)))
unfolding write_at
write_at-zeros done bs k h =
    let size : length (done ++ zeros k) ≡ length done + k =
      omega (arith, length-append done (zeros k), length-zeros k) in
    let fits : leb (length done + length bs) (length (done ++ zeros k)) ≡ true =
      le→leb _ _ (omega arith) in
    rw
      (
        fits,
        take-length-append done (zeros k),
        drop-length-append done (zeros k) (length bs),
        drop-zeros (length bs) k,
      )
      refl

write_at_past :
    (buffer : List ℕ) (offset : ℕ) (data_bytes : List ℕ)
    → length buffer < offset + length data_bytes
    → write_at buffer offset data_bytes ≡ none
unfolding write_at
write_at_past buffer offset bs h = rw (lt→leb _ _ h) refl

-- The bytes of a value and how many it takes up.
abbrev pub bytes_of : ValueExpr → ℕ
bytes_of i = div_round_up i.len 8

abbrev pub slot_of : ValueExpr → ℕ
slot_of i = netlink_padded_len i.len / 8

bytes_of-le-slot_of : (i : ValueExpr) → bytes_of i ≤ slot_of i
unfolding netlink_padded_len netlink_register_space div_round_up
bytes_of-le-slot_of i = omega arith

pub slot_of-bytes_of : (i : ValueExpr) → slot_of i ≡ (bytes_of i + 3) / 4 * 4
unfolding netlink_padded_len netlink_register_space div_round_up
slot_of-bytes_of i = omega arith

-- The value that one end of a part has.
abbrev pub chosen : Bool → Part → ValueExpr
chosen end (range left right) = if end then right else left
chosen end (prefix i) = record {
  value = if end then i.prefix.value + mpz_bitmask (i.len - i.prefix_len) else i.prefix.value;
  byteorder = i.byteorder;
  len = i.len;
}
chosen end (value i) = i

-- The value fits its bytes.
abbrev pub IsSized : ValueExpr → Type 0
IsSized i = i.value < 2 ^ (8 * bytes_of i)

module _ (m : Mpz) where
  -- The bytes, and zeros up to the next multiple of 4.
  abbrev pub slot : ValueExpr → List ℕ
  slot i = m.export i.byteorder (bytes_of i) i.value ++ zeros (slot_of i - bytes_of i)

  abbrev pub slots : Bool → List Part → List ℕ
  slots end [] = []
  slots end (i ∷ parts) = slot (chosen end i) ++ slots end parts

  abbrev pub slots_len : Bool → List Part → ℕ
  slots_len end [] = 0
  slots_len end (i ∷ parts) = slot_of (chosen end i) + slots_len end parts

  length-slot : (i : ValueExpr) → IsSized i → length (slot i) ≡ slot_of i
  length-slot i h = omega (
    arith,
    length-append (m.export i.byteorder (bytes_of i) i.value) (zeros (slot_of i - bytes_of i)),
    m.length-export i.byteorder (bytes_of i) i.value h,
    length-zeros (slot_of i - bytes_of i),
    bytes_of-le-slot_of i,
  )

  length-slots :
      (end : Bool) (parts : List Part)
      → All (λ p. IsSized (chosen end p)) parts
      → length (slots end parts) ≡ slots_len end parts
  length-slots end [] h = refl
  length-slots end (i ∷ parts) h = omega (
    arith,
    length-append (slot (chosen end i)) (slots end parts),
    length-slot (chosen end i) h.0,
    length-slots end parts h.1,
  )

  -- A value is written behind what is there.
  export_value-zeros :
      (done : List ℕ) (i : ValueExpr) (k : ℕ)
      → IsSized i
      → slot_of i ≤ k
      → export_value m (done ++ zeros k) (length done) i
        ≡ some (slot_of i, (done ++ slot i) ++ zeros (k - slot_of i))
  unfolding export_value netlink_export_pad
  export_value-zeros done i k h fits =
      let bs = m.export i.byteorder (bytes_of i) i.value in
      let size : length bs ≡ bytes_of i = m.length-export i.byteorder (bytes_of i) i.value h in
      let below = bytes_of-le-slot_of i in
      let written = write_at-zeros done bs k (omega arith) in
      let apart : k - length bs ≡ (slot_of i - bytes_of i) + (k - slot_of i) = omega arith in
      rw (written, apart, ← zeros-add (slot_of i - bytes_of i) (k - slot_of i))
        (ap (λ (b : List ℕ). some (slot_of i, b))
          (sym (
            append_assoc done (slot i) (zeros (k - slot_of i))
            ∙ ap (λ (b : List ℕ). done ++ b)
                (append_assoc bs (zeros (slot_of i - bytes_of i)) (zeros (k - slot_of i))))))

  concat_data-chosen :
      (end : Bool) (i : Part) (buffer : List ℕ) (offset : ℕ)
      → __netlink_gen_concat_data m end i buffer offset
        ≡ export_value m buffer offset (chosen end i)
  unfolding __netlink_gen_concat_data export_value
  concat_data-chosen end (range left right) buffer offset = refl
  concat_data-chosen end (prefix i) buffer offset = refl
  concat_data-chosen end (value i) buffer offset = refl

  pub gen_parts-zeros :
      (end : Bool) (parts : List Part) (done : List ℕ) (k : ℕ)
      → All (λ p. IsSized (chosen end p)) parts
      → slots_len end parts ≤ k
      → gen_parts m end parts (done ++ zeros k) (length done)
        ≡ some (
          length done + slots_len end parts,
          (done ++ slots end parts) ++ zeros (k - slots_len end parts),
        )
  unfolding gen_parts
  gen_parts-zeros end [] done k h fits =
      let e : length done + 0 ≡ length done = omega arith in
      let e' : k - 0 ≡ k = omega arith in rw (e, e', append-nil) refl
  gen_parts-zeros end (i ∷ parts) done k h fits =
      let v = chosen end i in
      let first = export_value-zeros done v k h.0 (omega arith) in
      let next : length done + slot_of v ≡ length (done ++ slot v) =
        omega (arith, length-append done (slot v), length-slot v h.0) in
      let rest = gen_parts-zeros end parts (done ++ slot v) (k - slot_of v) h.1 (omega arith) in
      let here : length (done ++ slot v) + slots_len end parts
          ≡ length done + (slot_of v + slots_len end parts) =
        omega arith in
      let left : k - slot_of v - slots_len end parts ≡ k - (slot_of v + slots_len end parts) =
        omega arith in
      rw (concat_data-chosen end i, first, next, rest, here, left, append_assoc done) refl

  -- If the values of a concatenation fit their bytes and their slots of 4-byte units fit into its
  -- length, which is at most that of all registers, then nothing is written past the end of the array:
  -- the result has the slots one after the other, and zeros behind them.
  pub __netlink_gen_concat_lem :
      (flags len : ℕ) (parts : List Part)
      → All (λ p. IsSized (chosen (not (flags == 0)) p)) parts
      → slots_len (not (flags == 0)) parts ≤ len / 8
      → len / 8 ≤ 64
      → __netlink_gen_concat m flags len parts
        ≡ some
            (slots (not (flags == 0)) parts ++ zeros (len / 8 - slots_len (not (flags == 0)) parts))
  unfolding __netlink_gen_concat nft_data_memcpy
  __netlink_gen_concat_lem flags len parts h fits small =
      let end = not (flags == 0) in
      let filled = gen_parts-zeros end parts [] (len / 8) h fits in
      let behind = zeros (len / 8 - slots_len end parts) in
      let size : length (slots end parts ++ behind) ≡ len / 8 = omega (
        arith,
        length-append (slots end parts) behind,
        length-slots end parts h,
        length-zeros (len / 8 - slots_len end parts),
      ) in
      rw (filled, lt-ltb 64 (length (slots end parts ++ behind)) (omega arith)) refl

  -- The range of two values of one length, of at most 32 bytes: if the bytes of a value are a multiple
  -- of 4 then the result has the bytes of both values, and otherwise the second value is written past
  -- the end of the array.
  pub netlink_gen_range_lem :
      (left right : ValueExpr)
      → left.len ≡ right.len
      → IsSized left
      → IsSized right
      → bytes_of left ≤ 32
      → (bytes_of left % 4 ≡ 0
          → netlink_gen_range m left right
            ≡ some (
                m.export left.byteorder (bytes_of left) left.value
                ++ m.export right.byteorder (bytes_of right) right.value))
        × (bytes_of left % 4 ≢ 0 → netlink_gen_range m left right ≡ none)
  unfolding netlink_gen_range export_value netlink_export_pad nft_data_memcpy
  netlink_gen_range_lem left right same h k small =
      let l = m.export left.byteorder (bytes_of left) left.value in
      let r = m.export right.byteorder (bytes_of right) right.value in
      let l_len : length l ≡ bytes_of left =
        m.length-export left.byteorder (bytes_of left) left.value h in
      let r_len : length r ≡ bytes_of right =
        m.length-export right.byteorder (bytes_of right) right.value k in
      let equal : bytes_of right ≡ bytes_of left = ap (λ (n : ℕ). div_round_up n 8) (sym same) in
      let first = write_at-zeros [] l (bytes_of left * 2) (omega arith) in
      let rest = bytes_of left * 2 - length l in
      (
        λ aligned.
            let step : slot_of left ≡ length l = omega (arith, slot_of-bytes_of left) in
            let second = write_at-zeros l r rest (omega arith) in
            let none_left : rest - length r ≡ 0 = omega arith in
            let size : ltb 64 (length (l ++ r)) ≡ false =
              lt-ltb 64 (length (l ++ r)) (omega (arith, length-append l r)) in
            rw (first, step, second, none_left, append-nil, size) refl,
        λ unaligned.
            let past = write_at_past (l ++ zeros rest) (slot_of left) r (
              omega
                (arith, slot_of-bytes_of left, length-append l (zeros rest), length-zeros rest)) in
            rw (first, past) refl,
      )
