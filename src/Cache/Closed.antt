-- ===== src/Cache/Closed.antt =====
-- The levels build on one another: all need the tables, elements need the sets and rules the chains.
use mathlib.Core.Path.{subst}
use mathlib.Core.Option.{some-injective}
use nftables.Base.{◌≡◌, ◌∙◌, Bool, true, false, ◌||◌, List, [], ◌∷◌, some, arith, All}
use nftables.Cache.Flags.{Flags, Bit, ◌∪◌, cache_empty}
use nftables.Cache.Filter.{Filter, FilterList, Handle}
use nftables.Cache.Evaluate.{
  CmdOp, CmdObj, Cmd, Output, evaluate_cache_add, evaluate_cache_del, evaluate_cache_get,
  evaluate_cache_flush, evaluate_cache_rename, list_object, evaluate_cache_list, reset_object,
  evaluate_cache_reset, evaluate_op, evaluate_cmd, evaluate_from, nft_cache_evaluate, deletes,
}
use nftables.Cache.Needs.{State, implies, valid_head}

-- The level that a level builds on.
abbrev pub parent : Bit → Bit
parent Bit.chain = Bit.table
parent Bit.set = Bit.table
parent Bit.flowtable = Bit.table
parent Bit.object = Bit.table
parent Bit.setelem = Bit.set
parent Bit.rule = Bit.chain
parent b = b

-- The firewall targets, whose flags are not flags of the cache.
abbrev pub is_target : CmdOp → Bool
is_target CmdOp.op_appfw = true
is_target CmdOp.op_hostfw = true
is_target _ = false

abbrev pub Closed : Flags → Type 0
Closed f = (b : Bit) → implies (f b) (f (parent b)) ≡ true

Closed-union : (f g : Flags) → Closed f → Closed g → Closed (f ∪ g)
Closed-union f g p q b = ground (arith, p b, q b)

-- The levels of a command and of its parent level, one by one.
module _ (flags : Flags) (closed : Closed flags) (cmd : Cmd) where
  add-Closed : (o : CmdObj) → Closed (evaluate_cache_add o cmd flags)
  unfolding evaluate_cache_add
  add-Closed CmdObj.obj_table b = ground (arith, closed b)
  add-Closed _ b = ground (arith, closed b)

  del-Closed : (o : CmdObj) → Closed (evaluate_cache_del o flags)
  unfolding evaluate_cache_del
  del-Closed CmdObj.obj_elements b = ground (arith, closed b)
  del-Closed _ b = ground (arith, closed b)

  get-Closed : (o : CmdObj) → Closed (evaluate_cache_get o flags)
  unfolding evaluate_cache_get
  get-Closed CmdObj.obj_elements b = ground (arith, closed b)
  get-Closed _ b = ground (arith, closed b)

  rename-Closed : (o : CmdObj) → Closed (evaluate_cache_rename o flags)
  unfolding evaluate_cache_rename
  rename-Closed CmdObj.obj_chain b = ground (arith, closed b)
  rename-Closed _ b = ground (arith, closed b)

  flush-Closed : (o : CmdObj) (f : Filter) → Closed (evaluate_cache_flush o cmd flags f).0
  unfolding evaluate_cache_flush
  flush-Closed CmdObj.obj_set f b = ground (arith, closed b)
  flush-Closed _ f b = ground (arith, closed b)

  list-Closed :
      (o : CmdObj) (out : Output) (h : Handle) (l : FilterList)
      → Closed (list_object o out h flags l).0
  unfolding list_object
  list-Closed CmdObj.obj_set out h l b = ground (arith, closed b)
  list-Closed _ out h l b = ground (arith, closed b)

  reset-Closed : (o : CmdObj) (h : Handle) (l : FilterList) → Closed (reset_object o h flags l).0
  unfolding reset_object
  reset-Closed CmdObj.obj_set h l b = ground (arith, closed b)
  reset-Closed _ h l b = ground (arith, closed b)

module _ (out : Output) where
  op-Closed :
      (op : CmdOp)
      → is_target op ≡ false
      → (cmd : Cmd) (flags : Flags) (filter : Filter) → Closed flags
      → Closed (evaluate_op op out cmd flags filter).0
  unfolding evaluate_op evaluate_cache_list evaluate_cache_reset
  op-Closed CmdOp.op_add h cmd flags filter c b = ground (arith, add-Closed flags c cmd cmd.obj b)
  op-Closed CmdOp.op_insert h cmd flags filter c b =
      ground (arith, add-Closed flags c cmd cmd.obj b)
  op-Closed CmdOp.op_create h cmd flags filter c b =
      ground (arith, add-Closed flags c cmd cmd.obj b)
  op-Closed CmdOp.op_delete h cmd flags filter c b =
      del-Closed (flags ∪ deletes) (λ b. ground (arith, c b)) cmd cmd.obj b
  op-Closed CmdOp.op_destroy h cmd flags filter c b =
      del-Closed (flags ∪ deletes) (λ b. ground (arith, c b)) cmd cmd.obj b
  op-Closed CmdOp.op_get h cmd flags filter c b = get-Closed flags c cmd cmd.obj b
  op-Closed CmdOp.op_rename h cmd flags filter c b = rename-Closed flags c cmd cmd.obj b
  op-Closed CmdOp.op_flush h cmd flags filter c b = flush-Closed flags c cmd cmd.obj filter b
  op-Closed CmdOp.op_list h cmd flags filter c b =
      ground (arith, c b, list-Closed flags c cmd cmd.obj out cmd.handle filter.list b)
  op-Closed CmdOp.op_reset h cmd flags filter c b =
      ground (arith, c b, reset-Closed flags c cmd cmd.obj cmd.handle filter.list b)
  op-Closed _ h cmd flags filter c b = ground (arith, c b)

  evaluate_from-Closed :
      (cmds : List Cmd) (flags : Flags) (filter : Filter) (r : State)
      → Closed flags
      → All (λ c. is_target c.op ≡ false) cmds
      → evaluate_from out cmds flags filter ≡ some r
      → Closed r.0
  unfolding evaluate_from evaluate_cmd
  evaluate_from-Closed [] flags filter r c h e =
      subst (λ (s : State). Closed s.0) (some-injective _ _ e) c
  evaluate_from-Closed (cmd ∷ cmds) flags filter r c (h, hs) e =
      let later = valid_head out cmd cmds flags filter r e in
      evaluate_from-Closed cmds _ _ r (op-Closed cmd.op h cmd flags _ c) hs later.1

  -- If no command of a batch is about an application or host target and the names pass their check,
  -- then the flags of the batch have the tables with each level, the sets with the elements and the
  -- chains with the rules.
  pub nft_cache_evaluate-Closed :
      (cmds : List Cmd) (filter : Filter) (r : State)
      → All (λ c. is_target c.op ≡ false) cmds
      → nft_cache_evaluate out cmds filter ≡ some r
      → Closed r.0
  unfolding nft_cache_evaluate
  nft_cache_evaluate-Closed cmds filter r h e =
      evaluate_from-Closed cmds cache_empty filter r (λ b. ground arith) h e

  target_op :
      (op : CmdOp) (cmd : Cmd) (flags : Flags) (filter : Filter)
      → is_target op ≡ true
      → ((evaluate_op op out cmd flags filter).0 Bit.table ≡ flags Bit.table)
        × (((evaluate_op op out cmd flags filter).0 Bit.flowtable
              || (evaluate_op op out cmd flags filter).0 Bit.object)
            ≡ true)
  unfolding evaluate_op
  target_op CmdOp.op_appfw cmd flags filter h = ground arith
  target_op _ cmd flags filter h = ground arith

  targets_from :
      (cmds : List Cmd) (flags : Flags) (filter : Filter) (r : State)
      → (flags Bit.table ≡ false)
      → ((flags Bit.flowtable || flags Bit.object) ≡ true)
      → All (λ c. is_target c.op ≡ true) cmds
      → evaluate_from out cmds flags filter ≡ some r
      → (r.0 Bit.table ≡ false) × ((r.0 Bit.flowtable || r.0 Bit.object) ≡ true)
  unfolding evaluate_from evaluate_cmd
  targets_from [] flags filter r t l h e =
      subst
        (λ (s : State). (s.0 Bit.table ≡ false) × ((s.0 Bit.flowtable || s.0 Bit.object) ≡ true))
        (some-injective _ _ e) (t, l)
  targets_from (cmd ∷ cmds) flags filter r t l (h, hs) e =
      let later = valid_head out cmd cmds flags filter r e in
      let here = target_op cmd.op cmd flags _ h in
      targets_from cmds _ _ r (here.0 ∙ t) here.1 hs later.1

  -- If all commands of a batch, at least one, are about an application or host target and the names
  -- pass their check, then the flags of the batch lack the tables and have the flowtables or objects.
  pub nft_cache_evaluate-targets :
      (cmd : Cmd) (cmds : List Cmd) (filter : Filter) (r : State)
      → All (λ c. is_target c.op ≡ true) (cmd ∷ cmds)
      → nft_cache_evaluate out (cmd ∷ cmds) filter ≡ some r
      → (r.0 Bit.table ≡ false) × ((r.0 Bit.flowtable || r.0 Bit.object) ≡ true)
  unfolding nft_cache_evaluate evaluate_cmd
  nft_cache_evaluate-targets cmd cmds filter r (h, hs) e =
      let later = valid_head out cmd cmds cache_empty filter r e in
      let here = target_op cmd.op cmd cache_empty _ h in
      targets_from cmds _ _ r here.0 here.1 hs later.1
