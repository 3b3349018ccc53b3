-- ===== src/NetlinkData/KeyLayout.antt =====
-- Where the bytes of keys stand, and what becomes of the parts.
use mathlib.Core.Path.{subst}
use mathlib.Core.List.{append_assoc}
use nftables.Base.{
  ℕ, ◌+◌, ◌-◌, ◌*◌, ◌/◌, ◌%◌, ◌^◌, ◌≤◌, ◌<◌, ◌≡◌, refl, ◌∙◌, ap, sym, Bool, ◌&&◌, Bool-cases, inl,
  inr, true, false, List, [], ◌∷◌, ◌++◌, map, Option, none, some, length, take, drop, leb, ltb,
  if◌then◌else◌, arith, All, length-append, length-drop, le→leb, lt-ltb,
}
use nftables.Gmp.{Mpz, Byteorder, mpz_bitmask, mpz_switch_byteorder, div_round_up}
use nftables.Expr.{ValueExpr}
use nftables.NetlinkData.{
  Part, PrefixExpr, ◌>>=◌, zeros, write_at, netlink_padded_len, nft_data_memcpy, netlink_export_pad,
  export_value, gen_parts, __netlink_gen_concat_data, __netlink_gen_concat,
}
use nftables.NetlinkData.Layout.{
  slots, slots_len, chosen, IsSized, slot, slot_of, slot_of-bytes_of, take-length-append,
  drop-length-append, __netlink_gen_concat_lem,
}
use nftables.NetlinkData.Keys.{
  KeyValue, KeyPart, KeyFlags, switch_integer, prefix_end, byteorder_switch_expr_value,
  __netlink_gen_concat_key, gen_key_parts, netlink_gen_concat_key, netlink_gen_prefix,
}

abbrev is_host : Byteorder → Bool
is_host Byteorder.host_endian = true
is_host Byteorder.big_endian = false
is_host Byteorder.invalid = false

module _ (m : Mpz) (flags : KeyFlags) where
  -- The number whose bytes on the host are those of `v` in network order.
  abbrev in_network : ℕ → ℕ → ℕ
  in_network len v =
      m.import Byteorder.host_endian (m.export Byteorder.big_endian (div_round_up len 8) v)

  -- An integer of the host.
  abbrev pub is_host_integer : KeyValue → Bool
  is_host_integer v = v.integer && is_host v.expr.byteorder

  abbrev to_network : KeyValue → KeyValue
  to_network v =
      if is_host_integer v
      then record v { expr = record v.expr { value = in_network v.expr.len v.expr.value } }
      else v

  -- The part after it was exported.
  abbrev pub switched : KeyPart → KeyPart
  switched (KeyPart.range left right) =
      KeyPart.range (if flags.interval_end then left else to_network left)
        (if flags.interval_end then to_network right else right)
  switched (KeyPart.prefix i) = KeyPart.prefix i
  switched (KeyPart.value v) = KeyPart.value (if flags.interval then to_network v else v)

  -- The last value of a prefix: all bits behind the prefix are set, in the byte order of the value.
  abbrev network_end : PrefixExpr → ℕ
  network_end i =
      let host = 2 ^ (i.len - i.prefix_len) - 1 in
      i.prefix.value + (if is_host i.byteorder then in_network i.len host else host)

  -- The value that stands in the key.
  abbrev pub key_value : KeyPart → ValueExpr
  key_value (KeyPart.range left right) =
      if flags.interval_end
      then (if flags.interval_end then to_network right else right).expr
      else (if flags.interval_end then left else to_network left).expr
  key_value (KeyPart.prefix i) = record {
    value = if flags.interval_end then network_end i else i.prefix.value;
    byteorder = i.byteorder;
    len = i.len;
  }
  key_value (KeyPart.value v) = (if flags.interval then to_network v else v).expr

  -- The bytes of a value: those of an integer of the host are in network order.
  abbrev value_bytes : Bool → KeyValue → List ℕ
  value_bytes b v =
      m.export (if b && is_host_integer v then Byteorder.big_endian else v.expr.byteorder)
        (div_round_up v.expr.len 8) v.expr.value

  -- The bytes that are sent for a part.
  abbrev pub sent : KeyPart → List ℕ
  sent (KeyPart.range left right) = value_bytes true (if flags.interval_end then right else left)
  sent (KeyPart.prefix i) =
      m.export i.byteorder (div_round_up i.len 8)
        (if flags.interval_end then network_end i else i.prefix.value)
  sent (KeyPart.value v) = value_bytes flags.interval v

  abbrev part_len : KeyPart → ℕ
  part_len (KeyPart.range left right) = (if flags.interval_end then right else left).expr.len
  part_len (KeyPart.prefix i) = i.len
  part_len (KeyPart.value v) = v.expr.len

  abbrev pub key_parts : List KeyPart → List Part
  key_parts parts = map (λ p. Part.value (key_value p)) parts

  concat_key-export :
      (i : KeyPart) (buffer : List ℕ) (offset : ℕ)
      → __netlink_gen_concat_key m flags i buffer offset
        ≡ (export_value m buffer offset (key_value i) >>= λ r. some (r.0, r.1, switched i))
  unfolding __netlink_gen_concat_key export_value netlink_export_pad switch_integer prefix_end
      byteorder_switch_expr_value mpz_switch_byteorder mpz_bitmask
  concat_key-export (KeyPart.range left right) buffer offset = refl
  concat_key-export (KeyPart.prefix i) buffer offset = refl
  concat_key-export (KeyPart.value v) buffer offset = refl

  abbrev with_part : KeyPart → ℕ × List ℕ → Option (ℕ × List ℕ × KeyPart)
  with_part i r = some (r.0, r.1, i)

  abbrev cons_part : KeyPart → List ℕ × List KeyPart → Option (List ℕ × List KeyPart)
  cons_part i t = some (t.0, i ∷ t.1)

  abbrev finish : List KeyPart → ℕ × List ℕ → Option (List ℕ × List KeyPart)
  finish parts r = some (r.1, parts)

  -- The parts one after the other.
  join_parts :
      (o : Option (ℕ × List ℕ)) (i : KeyPart) (offset : ℕ) (parts : List KeyPart)
      → ((buffer : List ℕ) (n : ℕ)
          → gen_key_parts m flags parts buffer n
            ≡ (gen_parts m false (key_parts parts) buffer n >>= finish (map switched parts)))
      → (o >>= λ r. gen_key_parts m flags parts r.1 (offset + r.0) >>= cons_part (switched i)) ≡ (
          (o >>= λ r. gen_parts m false (key_parts parts) r.1 (offset + r.0))
          >>= finish (map switched (i ∷ parts)))
  join_parts none i offset parts ih = refl
  join_parts (some (step, buffer)) i offset parts ih =
      rw (ih buffer (offset + step))
        (split (gen_parts m false (key_parts parts) buffer (offset + step)))
    where
      split :
          (q : Option (ℕ × List ℕ))
          → (q >>= finish (map switched parts) >>= cons_part (switched i))
            ≡ (q >>= finish (map switched (i ∷ parts)))
      split none = refl
      split (some r) = refl

  gen_key_parts_lem :
      (parts : List KeyPart) (buffer : List ℕ) (offset : ℕ)
      → gen_key_parts m flags parts buffer offset
        ≡ (gen_parts m false (key_parts parts) buffer offset >>= finish (map switched parts))
  unfolding gen_key_parts gen_parts __netlink_gen_concat_data
  gen_key_parts_lem [] buffer offset = refl
  gen_key_parts_lem (i ∷ parts) buffer offset =
      rw (concat_key-export i buffer offset)
        (exported (export_value m buffer offset (key_value i)) (gen_key_parts_lem parts))
    where
      exported :
          (o : Option (ℕ × List ℕ))
          → ((b : List ℕ) (n : ℕ)
              → gen_key_parts m flags parts b n
                ≡ (gen_parts m false (key_parts parts) b n >>= finish (map switched parts)))
          → (o >>= with_part (switched i) >>= λ r.
              gen_key_parts m flags parts r.1 (offset + r.0) >>= cons_part r.2)
            ≡ ((o >>= λ r. gen_parts m false (key_parts parts) r.1 (offset + r.0))
                >>= finish (map switched (i ∷ parts)))
      exported none ih = refl
      exported (some r) ih = join_parts (some r) i offset parts ih

  abbrev with_parts : List KeyPart → List ℕ → Option (List ℕ × List KeyPart)
  with_parts parts data_bytes = some (data_bytes, parts)

  netlink_gen_concat_key-concat :
      (len : ℕ) (parts : List KeyPart)
      → netlink_gen_concat_key m flags len parts
        ≡ (__netlink_gen_concat m 0 len (key_parts parts) >>= with_parts (map switched parts))
  unfolding netlink_gen_concat_key __netlink_gen_concat
  netlink_gen_concat_key-concat len parts =
      rw (gen_key_parts_lem parts (zeros (len / 8)) 0)
        (copied (gen_parts m false (key_parts parts) (zeros (len / 8)) 0))
    where
      copied :
          (o : Option (ℕ × List ℕ))
          → (o >>= finish (map switched parts) >>= λ r. nft_data_memcpy r.0 >>= with_parts r.1)
            ≡ ((o >>= λ r. nft_data_memcpy r.1) >>= with_parts (map switched parts))
      copied none = refl
      copied (some r) = refl

  -- The slots of the parts: their bytes, and zeros up to the next multiple of 4.
  abbrev pub key_slots : List KeyPart → List ℕ
  key_slots [] = []
  key_slots (i ∷ parts) =
      let n = div_round_up (part_len i) 8 in
      (sent i ++ zeros ((n + 3) / 4 * 4 - n)) ++ key_slots parts

  abbrev pub key_len : List KeyPart → ℕ
  key_len [] = 0
  key_len (i ∷ parts) = (div_round_up (part_len i) 8 + 3) / 4 * 4 + key_len parts

  -- Values fit their bytes, as they are in the key and as they were.
  abbrev given : KeyPart → ℕ
  given (KeyPart.range left right) = (if flags.interval_end then right else left).expr.value
  given (KeyPart.prefix i) = if flags.interval_end then network_end i else i.prefix.value
  given (KeyPart.value v) = v.expr.value

  abbrev pub IsKeySized : KeyPart → Type 0
  IsKeySized i = IsSized (key_value i) × (given i < 2 ^ (8 * div_round_up (part_len i) 8))

  module _
      (reads_back : (size n : ℕ)
        → n < 2 ^ (8 * size)
        → m.export Byteorder.host_endian size
            (m.import Byteorder.host_endian (m.export Byteorder.big_endian size n))
          ≡ m.export Byteorder.big_endian size n) where
    value_bytes-to_network :
        (b : Bool) (v : KeyValue)
        → v.expr.value < 2 ^ (8 * div_round_up v.expr.len 8)
        → let i = (if b then to_network v else v).expr in
          (i.len ≡ v.expr.len)
          × (m.export i.byteorder (div_round_up i.len 8) i.value ≡ value_bytes b v)
    value_bytes-to_network false v h = (refl, refl)
    value_bytes-to_network true v h = by_case v.integer v.expr.byteorder v.expr.len v.expr.value h
      where
        by_case :
            (integer : Bool) (order : Byteorder) (len n : ℕ)
            → n < 2 ^ (8 * div_round_up len 8)
            → let w : KeyValue = record {
              expr = record { value = n; byteorder = order; len = len };
              integer = integer;
            } in
              let i = (to_network w).expr in
              (i.len ≡ len)
              × (m.export i.byteorder (div_round_up i.len 8) i.value ≡ value_bytes true w)
        by_case true Byteorder.host_endian len n fits =
            (refl, reads_back (div_round_up len 8) n fits)
        by_case true Byteorder.big_endian len n fits = (refl, refl)
        by_case true Byteorder.invalid len n fits = (refl, refl)
        by_case false order len n fits = (refl, refl)

    key_value-sent :
        (i : KeyPart)
        → IsKeySized i
        → ((key_value i).len ≡ part_len i)
          × (m.export (key_value i).byteorder (div_round_up (key_value i).len 8) (key_value i).value
              ≡ sent i)
    key_value-sent (KeyPart.range left right) h = elim (Bool-cases flags.interval_end) [
      | inl e ↦ rw e (value_bytes-to_network true right (rw e at h.1))
      | inr e ↦ rw e (value_bytes-to_network true left (rw e at h.1))
    ]
    key_value-sent (KeyPart.prefix i) h = (refl, refl)
    key_value-sent (KeyPart.value v) h = value_bytes-to_network flags.interval v h.1

    slots-key_parts :
        (parts : List KeyPart)
        → All IsKeySized parts
        → (slots m false (key_parts parts) ≡ key_slots parts)
          × (slots_len m false (key_parts parts) ≡ key_len parts)
          × All (λ p. IsSized (chosen false p)) (key_parts parts)
    slots-key_parts [] h = (refl, refl, tt)
    slots-key_parts (i ∷ parts) h =
        let (same, bs) = key_value-sent i h.0 in
        let (rest, rest_len, sized) = slots-key_parts parts h.1 in
        let padded = slot_of-bytes_of (key_value i) in
        let first : slot m (key_value i)
            ≡ sent i
              ++ zeros ((div_round_up (part_len i) 8 + 3) / 4 * 4 - div_round_up (part_len i) 8) =
          rw (bs, padded, same) refl in
        let first_len : slot_of (key_value i) ≡ (div_round_up (part_len i) 8 + 3) / 4 * 4 =
          rw (padded, same) refl in
        (rw (first, rest) refl, rw (first_len, rest_len) refl, (h.0.0, sized))

    -- If a GMP gives back the bytes that it has read in the order of the host, the values in the key fit
    -- their bytes, before and after integers of the host are switched, and their slots of 4-byte units
    -- fit into the length of the concatenation, which is at most that of all registers: the key has
    -- the bytes of each part in turn, with zeros up to a multiple of 4, and zeros behind all of them.
    -- The bytes of an integer of the host are those of its value in network order; of single values this
    -- holds in sets of intervals only. The parts are left with the values that have these bytes.
    pub netlink_gen_concat_key_lem :
        (len : ℕ) (parts : List KeyPart)
        → All IsKeySized parts
        → key_len parts ≤ len / 8
        → len / 8 ≤ 64
        → netlink_gen_concat_key m flags len parts
          ≡ some (key_slots parts ++ zeros (len / 8 - key_len parts), map switched parts)
    netlink_gen_concat_key_lem len parts h fits small =
        let (same, same_len, sized) = slots-key_parts parts h in
        rw
          (
            netlink_gen_concat_key-concat len parts,
            __netlink_gen_concat_lem m 0 len (key_parts parts) sized (omega (arith, same_len))
                small,
            same,
            same_len,
          )
          refl

write_at-append :
    (done old data_bytes : List ℕ)
    → length data_bytes ≤ length old
    → write_at (done ++ old) (length done) data_bytes
      ≡ some (done ++ (data_bytes ++ drop (length data_bytes) old))
unfolding write_at
write_at-append done old bs h =
    let fits : leb (length done + length bs) (length (done ++ old)) ≡ true =
      le→leb _ _ (omega (arith, length-append done old)) in
    rw (fits, take-length-append done old, drop-length-append done old (length bs)) refl

-- A prefix of values of one length, whose bytes are a multiple of 4 and at most 32: whatever the array
-- had in it, the data are the bytes of the first value and those of the last one.
pub netlink_gen_prefix_lem :
    (m : Mpz) (junk : List ℕ) (i : PrefixExpr)
    → length junk ≡ 64
    → i.prefix.len ≡ i.len
    → IsSized (chosen false (Part.prefix i))
    → i.prefix.value + mpz_bitmask (i.len - i.prefix_len) < 2 ^ (8 * div_round_up i.len 8)
    → div_round_up i.len 8 % 4 ≡ 0
    → div_round_up i.len 8 ≤ 32
    → netlink_gen_prefix m junk i
      ≡ some (
          m.export i.byteorder (div_round_up i.len 8) i.prefix.value
          ++ m.export i.prefix.byteorder
              (div_round_up i.prefix.len 8)
              (i.prefix.value + mpz_bitmask (i.len - i.prefix_len)))
unfolding netlink_gen_prefix netlink_export_pad nft_data_memcpy
netlink_gen_prefix_lem m junk i full same h k aligned small =
    let n = div_round_up i.len 8 in
    let last = i.prefix.value + mpz_bitmask (i.len - i.prefix_len) in
    let l = m.export i.byteorder n i.prefix.value in
    let r = m.export i.prefix.byteorder (div_round_up i.prefix.len 8) last in
    let l_len : length l ≡ n = m.length-export i.byteorder n i.prefix.value h in
    let equal : div_round_up i.prefix.len 8 ≡ n = ap (λ (x : ℕ). div_round_up x 8) same in
    let r_len : length r ≡ n =
      subst (λ s. length (m.export i.prefix.byteorder s last) ≡ n) (sym equal)
        (m.length-export i.prefix.byteorder n last k) in
    let step : netlink_padded_len i.len / 8 ≡ length l =
      omega (arith, slot_of-bytes_of (chosen false (Part.prefix i))) in
    let room : ltb 64 (length l * 2) ≡ false = lt-ltb 64 (length l * 2) (omega arith) in
    let first = write_at-append [] junk l (omega arith) in
    let second =
      write_at-append l (drop (length l) junk) r (omega (arith, length-drop (length l) junk)) in
    let both : length (l ++ r) ≡ length l * 2 = omega (arith, length-append l r) in
    let size : ltb 64 (length (l ++ r)) ≡ false = lt-ltb 64 (length (l ++ r)) (omega arith) in
    let rest = drop (length r) (drop (length l) junk) in
    let whole : take (length l * 2) (l ++ (r ++ rest)) ≡ l ++ r =
      ap (λ (x : ℕ). take x (l ++ (r ++ rest))) (sym both)
      ∙ ap (take (length (l ++ r))) (sym (append_assoc l r rest))
      ∙ take-length-append (l ++ r) rest in
    rw (step, room, first, second, whole, size) refl
