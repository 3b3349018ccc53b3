-- ===== src/Linearize/Syntax.antt =====
-- Expressions as src/netlink_linearize.c meets them, after evaluation, and the instructions it makes.
use nftables.Base.{ℕ, Bool, List, Option}
use nftables.Gmp.{Byteorder}
use nftables.Expr.{ValueExpr}
use nftables.Bitwise.{BitOp}
use nftables.NetlinkData.{Part}

abbrev pub Name : Type 0
Name = List ℕ

-- `chain_id` is read where a jump has no chain.
pub record Verdict : Type 0 where
  pub verdict : ℕ
  pub chain : Option Name
  pub chain_id : ℕ

pub data UnaryOp : Type 0 where
  op_hton op_ntoh : UnaryOp

pub data ShiftOp : Type 0 where
  op_lshift op_rshift : ShiftOp

pub data RelOp : Type 0 where
  op_implicit op_eq op_neq op_lt op_gt op_lte op_gte op_neg : RelOp

pub data CmpOp : Type 0 where
  cmp_eq cmp_neq cmp_lt cmp_lte cmp_gt cmp_gte : CmpOp

-- The set of an EXPR_SET_REF; `data_len` is the length of a map's data, `interval` its flag
-- EXPR_F_INTERVAL.
pub record SetRef : Type 0 where
  pub name : Name
  pub id : ℕ
  pub data_len : ℕ
  pub interval : Bool

pub record Inner : Type 0 where
  pub hdrsize : ℕ
  pub flags : ℕ
  pub type : ℕ

-- Expressions that read a packet or its metadata into a register. Types, keys and flags are numbers.
pub data Leaf : Type 0 where
  payload : Option Inner → ℕ → ℕ → Leaf
  meta : Option Inner → ℕ → Leaf
  exthdr : ℕ → ℕ → ℕ → ℕ → Leaf
  rt : ℕ → Leaf
  socket : ℕ → ℕ → Leaf
  osf : ℕ → ℕ → Leaf
  numgen : ℕ → ℕ → ℕ → Leaf
  ct : ℕ → Option ℕ → Leaf
  fib : ℕ → ℕ → Leaf
  xfrm : ℕ → ℕ → ℕ → Leaf

-- The modulus, the seed if it is set, the offset and the type.
pub record Hash : Type 0 where
  pub mod_by : ℕ
  pub seed : Option ℕ
  pub offset : ℕ
  pub type : ℕ

-- The right-hand side of a comparison. `bitmask` says whether its type stands on TYPE_BITMASK.
pub data Right : Type 0 where
  range : ValueExpr → ValueExpr → Right
  set_ref : SetRef → Right
  prefix : ValueExpr → Byteorder → ℕ → ℕ → Right
  value : ValueExpr → Bool → Right
  concat : ℕ → ℕ → List Part → Right

-- `other` stands for the types that netlink_gen_expr does not know. The length stands first where an
-- expression has one of its own; the Boolean of a comparison says whether its left-hand side stands
-- on TYPE_STRING.
mutual
  pub data Expr : Type 0 where
    verdict : Verdict → Expr
    value : ValueExpr → Expr
    unary : ℕ → UnaryOp → Expr → Expr
    shift : ℕ → ShiftOp → Expr → ValueExpr → Expr
    binop : ℕ → Byteorder → BitOp → Expr → ValueExpr → Expr
    relational : RelOp → Bool → Expr → Right → Expr
    concat : ℕ → Exprs → Expr
    map_of : ℕ → Expr → SetRef → Expr
    leaf : ℕ → Leaf → Expr
    set_elem : ℕ → Expr → Expr
    jhash : ℕ → Hash → Expr → Expr
    symhash : ℕ → Hash → Expr
    other : ℕ → Expr

  -- The parts of a concatenation, at least one.
  pub data Exprs : Type 0 where
    one : Expr → Exprs
    more : Expr → Exprs → Exprs

abbrev pub expr_len : Expr → ℕ
expr_len (Expr.verdict v) = 0
expr_len (Expr.value i) = i.len
expr_len (Expr.unary len op arg) = len
expr_len (Expr.shift len op left right) = len
expr_len (Expr.binop len order op left right) = len
expr_len (Expr.relational op is_string left right) = 0
expr_len (Expr.concat len parts) = len
expr_len (Expr.map_of len key mappings) = len
expr_len (Expr.leaf len l) = len
expr_len (Expr.set_elem len key) = len
expr_len (Expr.jhash len h e) = len
expr_len (Expr.symhash len h) = len
expr_len (Expr.other len) = len

-- The length of a concatenation, for the registers it is given.
abbrev pub concat_len : Expr → ℕ → Option ℕ
concat_len (Expr.concat own parts) len = Option.some len
concat_len _ len = Option.none

-- The name given to alloc_nft_expr.
pub data Kind : Type 0 where
  k_fib k_hash k_payload k_meta k_inner k_exthdr k_rt k_socket k_osf k_numgen k_ct k_lookup : Kind
  k_cmp k_bitwise k_range k_byteorder k_immediate k_xfrm k_objref k_connlimit k_counter : Kind
  k_limit k_quota k_last k_log k_reject k_nat k_masq k_redir k_tproxy k_synproxy k_dup : Kind
  k_fwd k_queue k_notrack k_flow_offload k_dynset : Kind

-- The attribute, without the kind in its name.
pub data Attr : Type 0 where
  a_base a_offset a_len a_key a_type a_op a_flags a_level a_ttl a_modulus a_seed a_dir : Attr
  a_result a_spnum a_hdrsize a_size a_data a_mask a_xor a_from_data a_to_data a_verdict : Attr
  a_chain a_chain_id a_imm_name a_imm_type a_count a_packets a_bytes a_rate a_unit a_burst : Attr
  a_consumed a_set a_msecs a_csum_type a_csum_offset a_prefix a_group a_snaplen a_qthreshold : Attr
  a_code a_family a_reg_addr_min a_reg_addr_max a_reg_proto_min a_reg_proto_max a_reg_addr : Attr
  a_reg_port a_mss a_wscale a_sreg_dev a_sreg_addr a_nfproto a_num a_total a_sreg_qnum : Attr
  a_timeout a_sreg_key a_sreg_data a_table_name a_expr a_expressions a_sreg a_set_sreg : Attr

-- An attribute of `struct nftnl_expr`. `sreg` and `dreg` hold a register, put by netlink_put_register;
-- `sreg_number` is one that is put as it is. `set_ref` puts the name and the identifier of a set,
-- `nested` a whole expression.
pub data Field : Type 0 where
  sreg sreg_number : Attr → ℕ → Field
  dreg : ℕ → Field
  number : Attr → ℕ → Field
  bytes : Attr → List ℕ → Field
  text : Attr → Name → Field
  set_ref : SetRef → Field
  nested : Attr → Kind → List (Attr × ℕ) → Field

pub record Nle : Type 0 where
  pub kind : Kind
  pub fields : List Field
