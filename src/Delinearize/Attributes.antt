-- ===== src/Delinearize/Attributes.antt =====
-- `struct nftnl_expr` as src/netlink_delinearize.c reads it: what libnftnl's getters give for the
-- attributes that netlink_linearize.c has put. One that is not set reads as 0.
use nftables.Base.{ℕ, Bool, true, false, List, [], ◌∷◌, ◌==◌, if◌then◌else◌}
use nftables.Registers.{netlink_put_register, netlink_parse_register}
use nftables.Linearize.Syntax
use nftables.Linearize.Syntax.{Name, Attr, Field, SetRef}

abbrev pub attr_id : Attr → ℕ
attr_id Syntax.a_base = 0
attr_id Syntax.a_offset = 1
attr_id Syntax.a_len = 2
attr_id Syntax.a_key = 3
attr_id Syntax.a_type = 4
attr_id Syntax.a_op = 5
attr_id Syntax.a_flags = 6
attr_id Syntax.a_level = 7
attr_id Syntax.a_ttl = 8
attr_id Syntax.a_modulus = 9
attr_id Syntax.a_seed = 10
attr_id Syntax.a_dir = 11
attr_id Syntax.a_result = 12
attr_id Syntax.a_spnum = 13
attr_id Syntax.a_hdrsize = 14
attr_id Syntax.a_size = 15
attr_id Syntax.a_data = 16
attr_id Syntax.a_mask = 17
attr_id Syntax.a_xor = 18
attr_id Syntax.a_from_data = 19
attr_id Syntax.a_to_data = 20
attr_id Syntax.a_verdict = 21
attr_id Syntax.a_chain = 22
attr_id Syntax.a_chain_id = 23
attr_id Syntax.a_imm_name = 24
attr_id Syntax.a_imm_type = 25
attr_id Syntax.a_count = 26
attr_id Syntax.a_packets = 27
attr_id Syntax.a_bytes = 28
attr_id Syntax.a_rate = 29
attr_id Syntax.a_unit = 30
attr_id Syntax.a_burst = 31
attr_id Syntax.a_consumed = 32
attr_id Syntax.a_set = 33
attr_id Syntax.a_msecs = 34
attr_id Syntax.a_csum_type = 35
attr_id Syntax.a_csum_offset = 36
attr_id Syntax.a_prefix = 37
attr_id Syntax.a_group = 38
attr_id Syntax.a_snaplen = 39
attr_id Syntax.a_qthreshold = 40
attr_id Syntax.a_code = 41
attr_id Syntax.a_family = 42
attr_id Syntax.a_reg_addr_min = 43
attr_id Syntax.a_reg_addr_max = 44
attr_id Syntax.a_reg_proto_min = 45
attr_id Syntax.a_reg_proto_max = 46
attr_id Syntax.a_reg_addr = 47
attr_id Syntax.a_reg_port = 48
attr_id Syntax.a_mss = 49
attr_id Syntax.a_wscale = 50
attr_id Syntax.a_sreg_dev = 51
attr_id Syntax.a_sreg_addr = 52
attr_id Syntax.a_nfproto = 53
attr_id Syntax.a_num = 54
attr_id Syntax.a_total = 55
attr_id Syntax.a_sreg_qnum = 56
attr_id Syntax.a_timeout = 57
attr_id Syntax.a_sreg_key = 58
attr_id Syntax.a_sreg_data = 59
attr_id Syntax.a_table_name = 60
attr_id Syntax.a_expr = 61
attr_id Syntax.a_expressions = 62
attr_id Syntax.a_sreg = 63
attr_id Syntax.a_set_sreg = 64

abbrev pub same : Attr → Attr → Bool
same a b = attr_id a == attr_id b

-- The number of a field that is the attribute.
abbrev pub field_number : Attr → Field → ℕ → ℕ
field_number a (Field.number b n) rest = if same a b then n else rest
field_number a (Field.sreg b reg) rest = if same a b then netlink_put_register reg else rest
field_number a (Field.sreg_number b reg) rest = if same a b then reg else rest
field_number a _ rest = rest

-- nftnl_expr_get_u32 and its kin.
unfoldable pub get_u32 : Attr → List Field → ℕ
get_u32 a [] = 0
get_u32 a (f ∷ l) = let rest = get_u32 a l in field_number a f rest

-- nftnl_expr_is_set.
abbrev pub is_field : Attr → Field → Bool → Bool
is_field a (Field.number b n) rest = if same a b then true else rest
is_field a (Field.sreg b n) rest = if same a b then true else rest
is_field a (Field.sreg_number b n) rest = if same a b then true else rest
is_field a (Field.bytes b n) rest = if same a b then true else rest
is_field a (Field.text b n) rest = if same a b then true else rest
is_field a _ rest = rest

unfoldable pub is_set : Attr → List Field → Bool
is_set a [] = false
is_set a (f ∷ l) = let rest = is_set a l in is_field a f rest

-- The attribute DREG.
unfoldable pub dreg_number : List Field → ℕ
unfolding netlink_put_register
dreg_number [] = 0
dreg_number (Field.dreg reg ∷ l) = netlink_put_register reg
dreg_number (_ ∷ l) = dreg_number l

unfoldable pub is_dreg_set : List Field → Bool
is_dreg_set [] = false
is_dreg_set (Field.dreg reg ∷ l) = true
is_dreg_set (_ ∷ l) = is_dreg_set l

-- The bytes of an attribute, with their number.
unfoldable pub get_data : Attr → List Field → List ℕ
get_data a [] = []
get_data a (Field.bytes b data_bytes ∷ l) =
    let rest = get_data a l in if same a b then data_bytes else rest
get_data a (_ ∷ l) = get_data a l

unfoldable pub get_str : Attr → List Field → Name
get_str a [] = []
get_str a (Field.text b name ∷ l) = let rest = get_str a l in if same a b then name else rest
get_str a (_ ∷ l) = get_str a l

-- The name of the set that is put.
unfoldable pub get_set_name : List Field → Name
get_set_name [] = []
get_set_name (Field.set_ref s ∷ l) = s.name
get_set_name (_ ∷ l) = get_set_name l

-- netlink_parse_register.
unfoldable pub source_register : Attr → List Field → ℕ
unfolding netlink_parse_register get_u32
source_register a l = netlink_parse_register (get_u32 a l)

unfoldable pub destination_register : List Field → ℕ
unfolding netlink_parse_register dreg_number
destination_register l = netlink_parse_register (dreg_number l)
