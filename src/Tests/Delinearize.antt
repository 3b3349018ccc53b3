-- ===== src/Tests/Delinearize.antt =====
-- Rules that are written and read back.
use nftables.Base.{
  ℕ, ◌≡◌, ◌≢◌, refl, true, false, List, [], ◌∷◌, map, take, Option, none, some, arith, ◌==◌,
  if◌then◌else◌,
}
use nftables.Tests.Library.{test_mpz}
use nftables.Gmp.{Byteorder, div_round_up}
use nftables.Bitwise.{op_and}
use nftables.Expr.{ValueExpr}
use nftables.NetlinkData.{netlink_gen_constant_data}
use nftables.Linearize.Syntax.{Expr, Leaf, Field, RelOp, cmp_eq, Right}
use nftables.Linearize.Context.{Ctx}
use nftables.Linearize.Nles.{gen_leaf, netlink_gen_cmp_op, bytes_len}
use nftables.Linearize.Fields.{Stateful, Log}
use nftables.Linearize.Rule.{Stmt, netlink_linearize_rule}
use nftables.Linearize.Exprs.{netlink_gen_expr}
use nftables.Linearize.Frame.{state}
use nftables.Delinearize.Context.{
  Found, Registers, netlink_set_register, netlink_get_register, out_of_fuel,
  netlink_parse_concat_expr,
}
use nftables.Delinearize.Stmts.{exthdr_init_raw}
use nftables.Delinearize.State.{Tables, Parse}
use nftables.Delinearize.Rule.{netlink_parse_expr, parse_exprs}
use nftables.Delinearize.Registers.{
  netlink_get_register-netlink_set_register, netlink_parse_concat_expr_ends,
}
use nftables.Delinearize.Roundtrip.{put_reg, leaf_width, netlink_parse_expr-gen_leaf}
use nftables.Delinearize.Simple.{back, found_rule, parse_exprs-netlink_linearize_rule}
use nftables.Delinearize.ReadBack.{read_back, found_len-combined}
use nftables.Delinearize.Comparison.{compared, parse_exprs-relational}

abbrev tables : Tables
tables = record {
  leaf_len = λ l. 32;
  is_string = λ e. false;
  find_set = λ name. none;
  is_binding = λ name. false;
}

abbrev unmodelled : List Field → Parse → Option Parse
unmodelled l ctx = none

abbrev empty : Registers
empty = record { at = λ reg. none; msgs = [] }

abbrev start : Parse
start = record { regs = empty; stmt = none; rule = [] }

abbrev saddr : Leaf
saddr = Leaf.payload none 2 96

abbrev source : Found
source = Found.leaf 32 saddr

netlink_get_register-netlink_set_register_example :
    ((netlink_get_register (netlink_set_register empty 5 source) 9).0
      ≡ (if 9 == 5 then some source else (netlink_get_register empty 9).0))
    × ((netlink_get_register (netlink_set_register empty 5 source) 9).1.msgs ≡ [])
netlink_get_register-netlink_set_register_example =
    netlink_get_register-netlink_set_register empty 5 9 source (omega arith) (omega arith)
      (omega arith) (omega arith)

netlink_parse_concat_expr_ends_example :
    netlink_parse_concat_expr (netlink_set_register empty 1 source) 1 64 ≢ out_of_fuel
netlink_parse_concat_expr_ends_example =
    netlink_parse_concat_expr_ends (netlink_set_register empty 1 source) 1 64

-- `ip option ra value`
abbrev alert : Leaf
alert = Leaf.exthdr 148 16 2 0

netlink_parse_expr-gen_leaf_example :
    netlink_parse_expr test_mpz tables unmodelled (gen_leaf 5 16 alert) start
    ≡ some
        (put_reg test_mpz tables unmodelled start 5 (Found.leaf (leaf_width tables 16 alert) alert))
netlink_parse_expr-gen_leaf_example =
    netlink_parse_expr-gen_leaf test_mpz tables unmodelled 5 16 alert start (omega arith)
      (omega arith)
      (
        omega arith,
        (refl, omega arith),
        (refl, omega arith),
        (omega arith, (λ e. refl), (λ e. absurd (omega (arith, e))), λ e. omega (arith, e)),
      )

-- An IPv4 option the program does not know stops it.
unknown_option : exthdr_init_raw 9 0 2 0 ≡ none
unfolding exthdr_init_raw
unknown_option = refl

-- A DCCP option has its flag, and the operation 5 is not kept.
dccp_option : exthdr_init_raw 9 0 4 0 ≡ some (Leaf.exthdr 9 0 4 1)
unfolding exthdr_init_raw
dccp_option = refl

unknown_operation : exthdr_init_raw 9 0 5 0 ≡ some (Leaf.exthdr 9 0 0 0)
unfolding exthdr_init_raw
unknown_operation = refl

abbrev log : Log
log = record {
  prefix = some (97 ∷ []);
  has_group = true;
  has_snaplen = true;
  has_qthreshold = false;
  has_level = false;
  group = 7;
  snaplen = 100;
  qthreshold = 0;
  level = 0;
  logflags = 0;
}

-- `log snaplen 100`
abbrev short_log : Log
short_log = record log { prefix = none; has_group = false; group = 0 }

-- `counter packets 3 bytes 0 log prefix "a" group 7 snaplen 100 log snaplen 100 reject`
abbrev actions : List Stmt
actions =
    Stmt.stateful (Stateful.counter 3 0)
    ∷ Stmt.log log
    ∷ Stmt.log short_log
    ∷ Stmt.reject 0 3
    ∷ Stmt.reject 0 255
    ∷ []

parse_exprs-netlink_linearize_rule_example :
    (out : Ctx) × (netlink_linearize_rule test_mpz actions ≡ some (tt, out))
    × (parse_exprs test_mpz tables unmodelled out.nlr
          (found_rule test_mpz tables unmodelled start [])
        ≡ some (found_rule test_mpz tables unmodelled start (map back actions)))
parse_exprs-netlink_linearize_rule_example =
    parse_exprs-netlink_linearize_rule test_mpz tables unmodelled actions start (
      tt,
      (
        record {
          group_fits = omega arith;
          qthreshold_fits = omega arith;
          no_group = λ e. cc e;
          no_snaplen = λ e. cc e;
          no_qthreshold = λ e. refl;
          no_level = λ e. refl;
          with_group = λ e. (refl, refl);
        },
        (
          record {
            group_fits = omega arith;
            qthreshold_fits = omega arith;
            no_group = λ e. refl;
            no_snaplen = λ e. cc e;
            no_qthreshold = λ e. refl;
            no_level = λ e. refl;
            with_group = λ e. cc e;
          },
          (omega arith, (omega arith, tt)),
        ),
      ),
    )

abbrev number : ℕ → ValueExpr
number n = record { value = n; byteorder = Byteorder.big_endian; len = 32 }

-- `ip saddr & 255.255.255.0`
abbrev network : Expr
network = Expr.binop 32 Byteorder.big_endian op_and (Expr.leaf 32 saddr) (number 4294967040)

network_bytes :
    netlink_gen_constant_data test_mpz (number 3232235776) ≡ some (192 ∷ 168 ∷ 1 ∷ 0 ∷ [])
unfolding netlink_gen_constant_data div_round_up
network_bytes = refl

parse_exprs-relational_example :
    (out : Ctx) × (netlink_gen_expr test_mpz
        (Expr.relational RelOp.op_eq false network (Right.value (number 3232235776) false))
        0
        (state 1 [])
      ≡ some (tt, out))
    × (parse_exprs test_mpz tables unmodelled out.nlr start
        ≡ some (
            compared test_mpz tables unmodelled start 1 cmp_eq
              (read_back test_mpz tables false 32 network)
              (take (bytes_len 32) (192 ∷ 168 ∷ 1 ∷ 0 ∷ []))))
unfolding netlink_gen_cmp_op div_round_up
parse_exprs-relational_example =
    parse_exprs-relational test_mpz tables unmodelled RelOp.op_eq cmp_eq false false network
      (number 3232235776) (192 ∷ 168 ∷ 1 ∷ 0 ∷ []) start
      (
        omega arith,
        omega arith,
        (omega arith, omega arith, omega arith, (refl, omega arith), (refl, omega arith)),
      )
      refl refl network_bytes
      (found_len-combined test_mpz tables 32 Byteorder.big_endian
        (record { op = op_and; value = 4294967040 } ∷ []) source)
      refl
