-- ===== src/Cache/Flags.antt =====
-- The cache flags of include/cache.h, as sets of bits.
use nftables.Base.{ℕ, Bool, ◌||◌, List, [], ◌∷◌, any, ◌==◌}

-- `table` to `rule` are the levels of `enum cache_level_bits`.
pub data Bit : Type 0 where
  table chain set flowtable object setelem rule : Bit
  terse setelem_maybe refresh update flushed : Bit

-- The number of the bit in the word.
abbrev pub position : Bit → ℕ
position table = 0
position chain = 1
position set = 2
position flowtable = 3
position object = 4
position setelem = 5
position rule = 6
position terse = 27
position setelem_maybe = 28
position refresh = 29
position update = 30
position flushed = 31

abbrev pub Flags : Type 0
Flags = Bit → Bool

infixl 35 ◌∪◌
abbrev pub ◌∪◌ : Flags → Flags → Flags
(f ∪ g) b = f b || g b

abbrev pub bits : List Bit → Flags
bits l b = any (λ c. position c == position b) l

abbrev pub cache_empty : Flags
cache_empty = bits []

abbrev pub cache_table : Flags
cache_table = bits (table ∷ [])

abbrev pub cache_chain : Flags
cache_chain = bits (table ∷ chain ∷ [])

abbrev pub cache_set : Flags
cache_set = bits (table ∷ set ∷ [])

abbrev pub cache_flowtable : Flags
cache_flowtable = bits (table ∷ flowtable ∷ [])

abbrev pub cache_object : Flags
cache_object = bits (table ∷ object ∷ [])

abbrev pub cache_setelem : Flags
cache_setelem = bits (table ∷ set ∷ setelem ∷ [])

abbrev pub cache_rule : Flags
cache_rule = bits (table ∷ chain ∷ rule ∷ [])

abbrev pub cache_full : Flags
cache_full = bits (table ∷ chain ∷ set ∷ flowtable ∷ object ∷ setelem ∷ rule ∷ [])

abbrev pub cache_terse : Flags
cache_terse = bits (terse ∷ [])

abbrev pub cache_setelem_maybe : Flags
cache_setelem_maybe = bits (setelem_maybe ∷ [])

abbrev pub cache_refresh : Flags
cache_refresh = bits (refresh ∷ [])

abbrev pub cache_update : Flags
cache_update = bits (update ∷ [])

abbrev pub cache_flushed : Flags
cache_flushed = bits (flushed ∷ [])

-- The flags of tables, include/rule.h: they are bits 3 and 4 of their word.
abbrev pub table_f_apptgt : Flags
table_f_apptgt = bits (flowtable ∷ [])

abbrev pub table_f_hosttgt : Flags
table_f_hosttgt = bits (object ∷ [])
