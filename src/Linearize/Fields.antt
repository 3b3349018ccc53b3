-- ===== src/Linearize/Fields.antt =====
-- What the statements of src/netlink_linearize.c put into their instructions.
use nftables.Base.{
  ℕ, ◌+◌, ◌-◌, ◌/◌, ◌%◌, ◌^◌, Bool, true, false, ◌&&◌, ◌||◌, not, List, [], ◌∷◌, ◌++◌, map, Option,
  none, some, any, ◌==◌, if◌then◌else◌,
}
use nftables.Linearize.Syntax.{
  Name, Expr, Kind, Attr, Field, number, text, nested, k_connlimit, k_counter, k_limit, k_quota,
  k_last, a_count, a_flags, a_packets, a_bytes, a_rate, a_unit, a_type, a_burst, a_consumed, a_set,
  a_msecs, a_offset, a_len, a_base, a_csum_type, a_csum_offset, a_prefix, a_group, a_snaplen,
  a_qthreshold, a_level, a_num, a_total, a_timeout, a_expr, a_expressions,
}

-- Statements that keep a state in the kernel.
pub data Stateful : Type 0 where
  connlimit : ℕ → ℕ → Stateful
  counter : ℕ → ℕ → Stateful
  limit : ℕ → ℕ → ℕ → ℕ → ℕ → Stateful
  quota : ℕ → ℕ → ℕ → Stateful
  last : ℕ → ℕ → Stateful

abbrev pub if_nonzero : Attr → ℕ → List (Attr × ℕ)
if_nonzero a n = if n == 0 then [] else (a, n) ∷ []

unfoldable pub netlink_gen_stmt_stateful : Stateful → Kind × List (Attr × ℕ)
netlink_gen_stmt_stateful (Stateful.connlimit count flags) =
    (k_connlimit, (a_count, count) ∷ (a_flags, flags) ∷ [])
netlink_gen_stmt_stateful (Stateful.counter packets octets) =
    (k_counter, if_nonzero a_packets packets ++ if_nonzero a_bytes octets)
netlink_gen_stmt_stateful (Stateful.limit rate unit type burst flags) = (
  k_limit,
  (a_rate, rate)
      ∷ (a_unit, unit)
      ∷ (a_type, type)
      ∷ (if_nonzero a_burst burst ++ (a_flags, flags) ∷ []),
)
netlink_gen_stmt_stateful (Stateful.quota octets used flags) =
    (k_quota, (a_bytes, octets) ∷ (a_consumed, used) ∷ (a_flags, flags) ∷ [])
netlink_gen_stmt_stateful (Stateful.last set used) = (k_last, (a_set, set) ∷ (a_msecs, used) ∷ [])

-- The description of a protocol as far as a payload statement reads it; `checksum_offset` is the offset
-- of the template with the index `checksum_key`.
pub record ProtoDesc : Type 0 where
  pub checksum_key : ℕ
  pub checksum_offset : ℕ
  pub checksum_type : ℕ
  pub pseudohdr : List ℕ

pub record PayloadTarget : Type 0 where
  pub base : ℕ
  pub offset : ℕ
  pub len : ℕ
  pub field : ℕ
  pub desc : Option ProtoDesc

unfoldable pub payload_needs_l4csum_update_pseudohdr : ℕ → ProtoDesc → Bool
payload_needs_l4csum_update_pseudohdr field desc = any (λ f. field == f) desc.pseudohdr

abbrev pub csum_fields : Option ProtoDesc → List Field
csum_fields none = []
csum_fields (some d) =
    if d.checksum_key == 0 || d.checksum_offset == 0
    then []
    else number a_csum_type d.checksum_type ∷ number a_csum_offset (d.checksum_offset / 8) ∷ []

-- NFT_PAYLOAD_L4CSUM_PSEUDOHDR, for the network header and what stands inside the transport header.
unfoldable pub pseudohdr_update : PayloadTarget → Bool
unfolding payload_needs_l4csum_update_pseudohdr
pseudohdr_update t =
    (t.base == 2
      && elim t.desc [ none ↦ false | some d ↦ payload_needs_l4csum_update_pseudohdr t.field d ])
    || t.base == 4

unfoldable pub payload_fields : PayloadTarget → List Field
unfolding pseudohdr_update
payload_fields t =
    number a_base ((t.base + 2 ^ 32 - 1) % 2 ^ 32)
    ∷ number a_offset (t.offset / 8)
    ∷ number a_len (t.len / 8)
    ∷ (csum_fields t.desc ++ (if pseudohdr_update t then number a_flags 1 ∷ [] else []))

-- `flags` with STMT_LOG_GROUP, STMT_LOG_SNAPLEN, STMT_LOG_QTHRESHOLD and STMT_LOG_LEVEL. The prefix
-- is its text.
pub record Log : Type 0 where
  pub prefix : Option Name
  pub has_group : Bool
  pub has_snaplen : Bool
  pub has_qthreshold : Bool
  pub has_level : Bool
  pub group : ℕ
  pub snaplen : ℕ
  pub qthreshold : ℕ
  pub level : ℕ
  pub logflags : ℕ

abbrev pub when : Bool → Field → List Field
when b f = if b then f ∷ [] else []

abbrev pub prefix_field : Option Name → List Field
prefix_field none = []
prefix_field (some s) = text a_prefix s ∷ []

unfoldable pub log_fields : Log → List Field
log_fields l =
    prefix_field l.prefix
    ++ (if l.has_group
        then number a_group l.group
          ∷ (when l.has_snaplen (number a_snaplen l.snaplen)
              ++ when l.has_qthreshold (number a_qthreshold l.qthreshold))
        else (when l.has_level (number a_level l.level)
            ++ when (not (l.logflags == 0)) (number a_flags l.logflags)))

-- No queue number, numbers, or an expression for it.
pub data Queue : Type 0 where
  default : Queue
  numbers : ℕ → ℕ → Queue
  computed : Expr → Queue

-- `total_queues` is a uint16_t.
abbrev pub queue_numbers : ℕ → ℕ → List Field
queue_numbers low high = number a_num low ∷ number a_total ((high + 2 ^ 16 - low + 1) % 2 ^ 16) ∷ []

unfoldable pub nested_stmts : List Stateful → List Field
unfolding netlink_gen_stmt_stateful
nested_stmts [] = []
nested_stmts (s ∷ []) =
    nested a_expr (netlink_gen_stmt_stateful s).0 (netlink_gen_stmt_stateful s).1 ∷ []
nested_stmts stmts =
    map (λ s. nested a_expressions (netlink_gen_stmt_stateful s).0 (netlink_gen_stmt_stateful s).1)
      stmts

abbrev pub several : List Stateful → Bool
several (s ∷ t ∷ rest) = true
several _ = false

-- The key of an element, and its timeout.
pub record DynKey : Type 0 where
  pub key : Expr
  pub timeout : ℕ

abbrev pub timeout_field : DynKey → List Field
timeout_field k = when (not (k.timeout == 0)) (number a_timeout k.timeout)
