-- ===== src/Cache/Evaluate.antt =====
-- `nft_cache_evaluate` of src/cache.c with the functions it calls for each kind of command.
use nftables.Base.{
  Bool, true, false, ◌||◌, ◌&&◌, not, List, [], ◌∷◌, Option, none, some, length, ltb, ◌==◌, any,
  if◌then◌else◌,
}
use nftables.Cache.Flags.{
  Flags, ◌∪◌, cache_empty, cache_table, cache_chain, cache_set, cache_flowtable, cache_object,
  cache_setelem, cache_rule, cache_full, cache_terse, cache_setelem_maybe, cache_refresh,
  cache_update, cache_flushed, table_f_apptgt, table_f_hosttgt,
}
use nftables.Cache.Filter.{Name, Handle, Filter, FilterList, empty_list, cache_filter_add}

pub data CmdOp : Type 0 where
  op_invalid op_add op_replace op_create op_insert op_delete op_get op_list op_reset : CmdOp
  op_flush op_appfw op_hostfw op_rename op_import op_export op_monitor op_describe : CmdOp
  op_destroy : CmdOp

pub data CmdObj : Type 0 where
  obj_invalid obj_elements obj_set obj_setelems obj_sets obj_rule obj_rules : CmdObj
  obj_chain obj_chains obj_table obj_ruleset obj_expr obj_monitor obj_markup : CmdObj
  obj_meter obj_meters obj_map obj_maps obj_counter obj_counters obj_quota obj_quotas : CmdObj
  obj_ct_helper obj_ct_helpers obj_limit obj_limits obj_flowtable obj_flowtables : CmdObj
  obj_ct_timeout obj_ct_timeouts obj_secmark obj_secmarks obj_ct_expect : CmdObj
  obj_ct_expectations obj_synproxy obj_synproxys obj_hooks : CmdObj

-- `table_sets` has the automerge flag of each set of `cmd->table`, if there is one.
pub record Cmd : Type 0 where
  pub op : CmdOp
  pub obj : CmdObj
  pub handle : Handle
  pub table_sets : Option (List Bool)

-- Output flags of the context.
pub record Output : Type 0 where
  pub terse : Bool
  pub echo : Bool

abbrev when : Bool → Flags → Flags
when true f = f
when false f = cache_empty

abbrev add_table : Option (List Bool) → Flags → Flags
add_table none flags = flags
add_table (some sets) flags =
    (flags ∪ (cache_table ∪ (cache_chain ∪ (cache_set ∪ (cache_object ∪ cache_flowtable)))))
    ∪ when (any (λ automerge. automerge) sets) cache_setelem_maybe

unfoldable pub evaluate_cache_add : CmdObj → Cmd → Flags → Flags
evaluate_cache_add obj_table cmd flags = add_table cmd.table_sets flags
evaluate_cache_add obj_chain cmd flags = flags ∪ cache_table
evaluate_cache_add obj_set cmd flags = flags ∪ cache_table
evaluate_cache_add obj_counter cmd flags = flags ∪ cache_table
evaluate_cache_add obj_quota cmd flags = flags ∪ cache_table
evaluate_cache_add obj_limit cmd flags = flags ∪ cache_table
evaluate_cache_add obj_secmark cmd flags = flags ∪ cache_table
evaluate_cache_add obj_ct_helper cmd flags = flags ∪ cache_table
evaluate_cache_add obj_ct_timeout cmd flags = flags ∪ cache_table
evaluate_cache_add obj_ct_expect cmd flags = flags ∪ cache_table
evaluate_cache_add obj_synproxy cmd flags = flags ∪ cache_table
evaluate_cache_add obj_flowtable cmd flags = flags ∪ cache_table
evaluate_cache_add obj_elements cmd flags =
    flags ∪ (cache_table ∪ (cache_chain ∪ (cache_set ∪ (cache_object ∪ cache_setelem_maybe))))
evaluate_cache_add obj_rule cmd flags =
    (flags ∪ (cache_table ∪ (cache_chain ∪ (cache_set ∪ (cache_object ∪ cache_flowtable)))))
    ∪ when (not (cmd.handle.index_id == 0) || not (cmd.handle.position_id == 0))
        (cache_rule ∪ cache_update)
evaluate_cache_add _ cmd flags = flags

unfoldable pub evaluate_cache_del : CmdObj → Flags → Flags
evaluate_cache_del obj_elements flags = flags ∪ cache_setelem_maybe
evaluate_cache_del _ flags = flags

unfoldable pub evaluate_cache_get : CmdObj → Flags → Flags
evaluate_cache_get obj_elements flags = flags ∪ (cache_table ∪ (cache_set ∪ cache_setelem))
evaluate_cache_get _ flags = flags

unfoldable pub evaluate_cache_flush : CmdObj → Cmd → Flags → Filter → Flags × Filter
evaluate_cache_flush obj_set cmd flags filter =
    (flags ∪ cache_set, cache_filter_add filter cmd.handle)
evaluate_cache_flush obj_map cmd flags filter =
    (flags ∪ cache_set, cache_filter_add filter cmd.handle)
evaluate_cache_flush obj_meter cmd flags filter =
    (flags ∪ cache_set, cache_filter_add filter cmd.handle)
evaluate_cache_flush obj_ruleset cmd flags filter = (flags ∪ cache_flushed, filter)
evaluate_cache_flush _ cmd flags filter = (flags, filter)

unfoldable pub evaluate_cache_rename : CmdObj → Flags → Flags
evaluate_cache_rename obj_chain flags = flags ∪ cache_chain
evaluate_cache_rename _ flags = flags

abbrev pub is_some {ℓ} : {A : Type ℓ} → Option A → Bool
is_some none = false
is_some (some a) = true

abbrev pub deletes : Flags
deletes = cache_table ∪ (cache_chain ∪ (cache_set ∪ (cache_flowtable ∪ cache_object)))

abbrev filter_table : Handle → FilterList → FilterList
filter_table h l = record l { family = h.family; table = h.table }

abbrev named_set : Handle → FilterList → FilterList
named_set h l =
    if is_some h.table && is_some h.set then record (filter_table h l) { set = h.set } else l

abbrev list_set : Flags → FilterList → Flags × FilterList
list_set flags l =
    if is_some l.table && is_some l.set
    then (flags ∪ (cache_table ∪ (cache_set ∪ cache_setelem)), l)
    else (flags ∪ cache_full, l)

abbrev named_flowtable : Handle → FilterList → FilterList
named_flowtable h l =
    if is_some h.table && is_some h.flowtable
    then record (filter_table h l) { ft = h.flowtable }
    else l

-- The flags and the listing filter by object, before the flags that every list command sets.
unfoldable pub list_object : CmdObj → Output → Handle → Flags → FilterList → Flags × FilterList
list_object obj_table out h flags l =
    if is_some h.table
    then (flags ∪ cache_full, filter_table h l)
    else (flags ∪ cache_table, record l { family = h.family })
list_object obj_chain out h flags l =
    if is_some h.chain
    then ((flags ∪ cache_terse) ∪ cache_full, record (filter_table h l) { chain = h.chain })
    else (flags ∪ cache_full, l)
list_object obj_set out h flags l = list_set flags (named_set h l)
list_object obj_map out h flags l = list_set flags (named_set h l)
list_object obj_chains out h flags l = (flags ∪ (cache_table ∪ cache_chain), l)
list_object obj_sets out h flags l =
    ((flags ∪ (cache_table ∪ cache_set)) ∪ when (not out.terse) cache_setelem, l)
list_object obj_maps out h flags l =
    ((flags ∪ (cache_table ∪ cache_set)) ∪ when (not out.terse) cache_setelem, l)
list_object obj_flowtable out h flags l =
    (flags ∪ (cache_table ∪ cache_flowtable), named_flowtable h l)
list_object obj_flowtables out h flags l = (flags ∪ (cache_table ∪ cache_flowtable), l)
list_object _ out h flags l = (flags ∪ cache_full, l)

unfoldable pub evaluate_cache_list : Output → Cmd → Flags → Filter → Flags × Filter
evaluate_cache_list out cmd flags filter =
    let (f, l) = list_object cmd.obj out cmd.handle flags filter.list in
    ((f ∪ cache_refresh) ∪ when out.terse cache_terse, record filter { list = l })

abbrev reset_filter : Handle → FilterList → FilterList
reset_filter h l =
    let tabled = if is_some h.table then filter_table h l else l in
    if is_some h.chain then record tabled { chain = h.chain } else tabled

abbrev reset_rules : Flags
reset_rules = cache_set ∪ (cache_flowtable ∪ (cache_object ∪ cache_chain))

unfoldable pub reset_object : CmdObj → Handle → Flags → FilterList → Flags × FilterList
reset_object obj_rules h flags l = (flags ∪ reset_rules, reset_filter h l)
reset_object obj_rule h flags l = (flags ∪ reset_rules, reset_filter h l)
reset_object obj_elements h flags l = (flags ∪ cache_set, l)
reset_object obj_set h flags l = (flags ∪ cache_set, l)
reset_object obj_map h flags l = (flags ∪ cache_set, l)
reset_object _ h flags l = (flags ∪ cache_table, l)

unfoldable pub evaluate_cache_reset : Cmd → Flags → Filter → Flags × Filter
evaluate_cache_reset cmd flags filter =
    let (f, l) = reset_object cmd.obj cmd.handle flags filter.list in
    (f ∪ cache_refresh, record filter { list = l })

-- The name that is too long, if there is one.
pub data NameField : Type 0 where
  in_table in_chain in_set in_flowtable in_obj : NameField

abbrev too_long : Option Name → Bool
too_long none = false
too_long (some n) = ltb 256 (length n)

abbrev check : Handle → Option Name → NameField → Option NameField
check h n field =
    if too_long h.table then some in_table else if too_long n then some field else none

-- `none` for the result 0.
unfoldable pub nft_handle_validate : CmdObj → Handle → Option NameField
nft_handle_validate obj_table h = check h none in_table
nft_handle_validate obj_rule h = check h h.chain in_chain
nft_handle_validate obj_rules h = check h h.chain in_chain
nft_handle_validate obj_chain h = check h h.chain in_chain
nft_handle_validate obj_chains h = check h h.chain in_chain
nft_handle_validate obj_elements h = check h h.set in_set
nft_handle_validate obj_set h = check h h.set in_set
nft_handle_validate obj_sets h = check h h.set in_set
nft_handle_validate obj_map h = check h h.set in_set
nft_handle_validate obj_maps h = check h h.set in_set
nft_handle_validate obj_meter h = check h h.set in_set
nft_handle_validate obj_meters h = check h h.set in_set
nft_handle_validate obj_flowtable h = check h h.flowtable in_flowtable
nft_handle_validate obj_flowtables h = check h h.flowtable in_flowtable
nft_handle_validate obj_invalid h = none
nft_handle_validate obj_expr h = none
nft_handle_validate obj_ruleset h = none
nft_handle_validate obj_markup h = none
nft_handle_validate obj_monitor h = none
nft_handle_validate obj_setelems h = none
nft_handle_validate obj_hooks h = none
nft_handle_validate _ h = check h h.obj in_obj

unfoldable pub evaluate_op : CmdOp → Output → Cmd → Flags → Filter → Flags × Filter
evaluate_op op_add out cmd flags filter =
    (evaluate_cache_add cmd.obj cmd flags ∪ when out.echo cache_full, filter)
evaluate_op op_insert out cmd flags filter =
    (evaluate_cache_add cmd.obj cmd flags ∪ when out.echo cache_full, filter)
evaluate_op op_create out cmd flags filter =
    (evaluate_cache_add cmd.obj cmd flags ∪ when out.echo cache_full, filter)
evaluate_op op_replace out cmd flags filter = (cache_full, filter)
evaluate_op op_delete out cmd flags filter = (evaluate_cache_del cmd.obj (flags ∪ deletes), filter)
evaluate_op op_destroy out cmd flags filter = (evaluate_cache_del cmd.obj (flags ∪ deletes), filter)
evaluate_op op_get out cmd flags filter = (evaluate_cache_get cmd.obj flags, filter)
evaluate_op op_reset out cmd flags filter =
    let (f, filter') = evaluate_cache_reset cmd flags filter in (flags ∪ f, filter')
evaluate_op op_list out cmd flags filter =
    let (f, filter') = evaluate_cache_list out cmd flags filter in (flags ∪ f, filter')
evaluate_op op_monitor out cmd flags filter = (flags ∪ cache_full, filter)
evaluate_op op_appfw out cmd flags filter = (flags ∪ table_f_apptgt, filter)
evaluate_op op_hostfw out cmd flags filter = (flags ∪ table_f_hosttgt, filter)
evaluate_op op_flush out cmd flags filter = evaluate_cache_flush cmd.obj cmd flags filter
evaluate_op op_rename out cmd flags filter = (evaluate_cache_rename cmd.obj flags, filter)
evaluate_op _ out cmd flags filter = (flags, filter)

abbrev pub is_list : CmdOp → Bool
is_list op_list = true
is_list _ = false

-- A listing filter from an earlier command does not survive a command that is no listing.
unfoldable pub evaluate_cmd : Output → Cmd → Flags → Filter → Flags × Filter
evaluate_cmd out cmd flags filter = evaluate_op cmd.op out cmd flags (
    if is_some filter.list.table && not (is_list cmd.op)
    then record filter { list = empty_list }
    else filter)

-- `none` is the result -1, for a name that is too long.
unfoldable pub evaluate_from : Output → List Cmd → Flags → Filter → Option (Flags × Filter)
evaluate_from out [] flags filter = some (flags, filter)
evaluate_from out (cmd ∷ cmds) flags filter = elim (nft_handle_validate cmd.obj cmd.handle) [
  | some field ↦ none
  | none ↦
      evaluate_from out cmds (evaluate_cmd out cmd flags filter).0
        (evaluate_cmd out cmd flags filter).1
]

unfoldable pub nft_cache_evaluate : Output → List Cmd → Filter → Option (Flags × Filter)
nft_cache_evaluate out cmds filter = evaluate_from out cmds cache_empty filter
