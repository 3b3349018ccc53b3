-- ===== src/Tests/Cache.antt =====
-- src/cache.c on a batch that flushes a set and adds a rule, and on a batch for a firewall target.
use nftables.Base.{◌≡◌, ◌↔◌, ◌⊎◌, refl, true, false, ◌||◌, [], ◌∷◌, none, some}
use nftables.Cache.Flags.{Bit, Flags, ◌∪◌, cache_empty, table_f_apptgt}
use nftables.Cache.Filter.{
  Name, Handle, Filter, nft_cache_filter_init, cache_filter_add, cache_filter_find, djb_hash,
  cache_filter_find-add,
}
use nftables.Cache.Evaluate.{
  CmdOp, CmdObj, Cmd, Output, evaluate_cache_add, evaluate_cache_flush, evaluate_op, evaluate_cmd,
  evaluate_from, nft_cache_evaluate, nft_handle_validate,
}
use nftables.Cache.Needs.{State, implies, nft_cache_evaluate-met}
use nftables.Cache.Closed.{Closed, nft_cache_evaluate-Closed, nft_cache_evaluate-targets}

abbrev filter_name : Name
filter_name = 102 ∷ 105 ∷ 108 ∷ []

abbrev set_handle : Name → Handle
set_handle s = record {
  family = 2;
  table = some filter_name;
  chain = none;
  set = some s;
  flowtable = none;
  obj = none;
  index_id = 0;
  position_id = 0;
}

abbrev blocked_name : Name
blocked_name = 98 ∷ 108 ∷ []

abbrev other_name : Name
other_name = 98 ∷ 109 ∷ []

abbrev blocked : Handle
blocked = set_handle blocked_name

abbrev other : Handle
other = set_handle other_name

djb_run : djb_hash (98 ∷ 108 ∷ []) ≡ 5863251
unfolding djb_hash
djb_run = refl

cache_filter_find-add_example :
    (cache_filter_find (cache_filter_add nft_cache_filter_init blocked) other ≡ true) ↔ (
      (cache_filter_find nft_cache_filter_init other ≡ true)
      ⊎ ((other.family ≡ blocked.family)
          × (filter_name ≡ filter_name)
          × (other_name ≡ blocked_name)))
cache_filter_find-add_example =
    cache_filter_find-add nft_cache_filter_init blocked other _ _ _ _
      (record { has_table = refl; has_set = refl }) (record { has_table = refl; has_set = refl })

abbrev plain : Output
plain = record { terse = false; echo = false }

abbrev flush_blocked : Cmd
flush_blocked = record {
  op = CmdOp.op_flush;
  obj = CmdObj.obj_set;
  handle = blocked;
  table_sets = none;
}

abbrev add_rule : Cmd
add_rule = record { op = CmdOp.op_add; obj = CmdObj.obj_rule; handle = blocked; table_sets = none }

abbrev appfw : Cmd
appfw = record { op = CmdOp.op_appfw; obj = CmdObj.obj_table; handle = blocked; table_sets = none }

abbrev flushed : Filter
flushed = cache_filter_add nft_cache_filter_init blocked

abbrev rule_flags : Flags
rule_flags =
    evaluate_cache_add CmdObj.obj_rule add_rule
      (evaluate_cache_flush CmdObj.obj_set flush_blocked cache_empty nft_cache_filter_init).0

batch_run :
    nft_cache_evaluate plain (flush_blocked ∷ add_rule ∷ []) nft_cache_filter_init
    ≡ some (rule_flags ∪ cache_empty, flushed)
unfolding nft_cache_evaluate evaluate_from evaluate_cmd evaluate_op nft_handle_validate
    nft_cache_filter_init cache_filter_add evaluate_cache_add evaluate_cache_flush
batch_run = refl

nft_cache_evaluate-met_example :
    (s : State) × (nft_cache_evaluate plain (flush_blocked ∷ []) nft_cache_filter_init ≡ some s)
    × (implies
          ((evaluate_cmd plain add_rule cache_empty s.1).0 Bit.flowtable)
          ((rule_flags ∪ cache_empty) Bit.flowtable)
        ≡ true)
nft_cache_evaluate-met_example =
    nft_cache_evaluate-met Bit.flowtable refl plain (flush_blocked ∷ []) add_rule []
      nft_cache_filter_init (rule_flags ∪ cache_empty, flushed) batch_run

nft_cache_evaluate-Closed_example : Closed (rule_flags ∪ cache_empty)
nft_cache_evaluate-Closed_example =
    nft_cache_evaluate-Closed plain (flush_blocked ∷ add_rule ∷ []) nft_cache_filter_init
      (rule_flags ∪ cache_empty, flushed) (refl, (refl, tt)) batch_run

abbrev target_flags : Flags
target_flags = cache_empty ∪ table_f_apptgt

target_run :
    nft_cache_evaluate plain (appfw ∷ []) nft_cache_filter_init
    ≡ some (target_flags, nft_cache_filter_init)
unfolding nft_cache_evaluate evaluate_from evaluate_cmd evaluate_op nft_handle_validate
    nft_cache_filter_init
target_run = refl

nft_cache_evaluate-targets_example :
    (target_flags Bit.table ≡ false)
    × ((target_flags Bit.flowtable || target_flags Bit.object) ≡ true)
nft_cache_evaluate-targets_example =
    nft_cache_evaluate-targets plain appfw [] nft_cache_filter_init
      (target_flags, nft_cache_filter_init) (refl, tt) target_run
