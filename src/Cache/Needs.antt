-- ===== src/Cache/Needs.antt =====
-- What a batch asks for is enough for each of its commands.
use mathlib.Core.Path.{subst}
use mathlib.Core.Option.{some-injective}
use nftables.Base.{
  ◌≡◌, refl, inl, inr, Bool, true, false, ◌||◌, not, List, [], ◌∷◌, ◌++◌, none, some, arith,
  Option-cases,
}
use nftables.Cache.Flags.{Flags, Bit, cache_empty, cache_full}
use nftables.Cache.Filter.{Filter, FilterList, Handle}
use nftables.Cache.Evaluate.{
  CmdOp, CmdObj, Cmd, Output, evaluate_cache_add, evaluate_cache_del, evaluate_cache_get,
  evaluate_cache_flush, evaluate_cache_rename, list_object, evaluate_cache_list, reset_object,
  evaluate_cache_reset, evaluate_op, evaluate_cmd, evaluate_from, nft_cache_evaluate,
  nft_handle_validate,
}

-- The bits that say what is fetched.
abbrev pub is_level : Bit → Bool
is_level Bit.terse = false
is_level Bit.setelem_maybe = false
is_level Bit.refresh = false
is_level Bit.update = false
is_level Bit.flushed = false
is_level _ = true

abbrev pub implies : Bool → Bool → Bool
implies a b = not a || b

full-is_level : (b : Bit) → is_level b ≡ true → cache_full b ≡ true
full-is_level Bit.table h = refl
full-is_level _ h = ground arith

module _ (b : Bit) (out : Output) (cmd : Cmd) (flags : Flags) where
  add-grows : (o : CmdObj) → implies (flags b) (evaluate_cache_add o cmd flags b) ≡ true
  unfolding evaluate_cache_add
  add-grows CmdObj.obj_invalid = ground arith
  add-grows _ = ground arith

  add-met :
      (o : CmdObj)
      → implies (evaluate_cache_add o cmd cache_empty b) (evaluate_cache_add o cmd flags b) ≡ true
  unfolding evaluate_cache_add
  add-met CmdObj.obj_invalid = ground arith
  add-met _ = ground arith

  list-met :
      (o : CmdObj) (h : Handle) (l : FilterList)
      → implies ((list_object o out h cache_empty l).0 b) ((list_object o out h flags l).0 b) ≡ true
  unfolding list_object
  list-met CmdObj.obj_invalid h l = ground arith
  list-met _ h l = ground arith

  reset-met :
      (o : CmdObj) (h : Handle) (l : FilterList)
      → implies ((reset_object o h cache_empty l).0 b) ((reset_object o h flags l).0 b) ≡ true
  unfolding reset_object
  reset-met CmdObj.obj_invalid h l = ground arith
  reset-met _ h l = ground arith

  flush-grows :
      (o : CmdObj) (f : Filter)
      → implies (flags b) ((evaluate_cache_flush o cmd flags f).0 b) ≡ true
  unfolding evaluate_cache_flush
  flush-grows CmdObj.obj_invalid f = ground arith
  flush-grows _ f = ground arith

  flush-met :
      (o : CmdObj) (f : Filter)
      → implies
          ((evaluate_cache_flush o cmd cache_empty f).0 b)
          ((evaluate_cache_flush o cmd flags f).0 b)
        ≡ true
  unfolding evaluate_cache_flush
  flush-met CmdObj.obj_invalid f = ground arith
  flush-met _ f = ground arith

-- The three kinds of command whose flags depend on the object alone.
module _ (b : Bit) (flags base : Flags) (below : implies (base b) (flags b) ≡ true) where
  del-met :
      (o : CmdObj) → implies (evaluate_cache_del o base b) (evaluate_cache_del o flags b) ≡ true
  unfolding evaluate_cache_del
  del-met CmdObj.obj_invalid = ground arith
  del-met _ = ground arith

  del-grows : (o : CmdObj) → implies (base b) (evaluate_cache_del o flags b) ≡ true
  unfolding evaluate_cache_del
  del-grows CmdObj.obj_invalid = ground arith
  del-grows _ = ground arith

  get-met :
      (o : CmdObj) → implies (evaluate_cache_get o base b) (evaluate_cache_get o flags b) ≡ true
  unfolding evaluate_cache_get
  get-met CmdObj.obj_invalid = ground arith
  get-met _ = ground arith

  get-grows : (o : CmdObj) → implies (base b) (evaluate_cache_get o flags b) ≡ true
  unfolding evaluate_cache_get
  get-grows CmdObj.obj_invalid = ground arith
  get-grows _ = ground arith

  rename-met :
      (o : CmdObj)
      → implies (evaluate_cache_rename o base b) (evaluate_cache_rename o flags b) ≡ true
  unfolding evaluate_cache_rename
  rename-met CmdObj.obj_invalid = ground arith
  rename-met _ = ground arith

  rename-grows : (o : CmdObj) → implies (base b) (evaluate_cache_rename o flags b) ≡ true
  unfolding evaluate_cache_rename
  rename-grows CmdObj.obj_invalid = ground arith
  rename-grows _ = ground arith

implies_trans : (a b c : Bool) → implies a b ≡ true → implies b c ≡ true → implies a c ≡ true
implies_trans a b c h k = ground arith

implies_refl : (a : Bool) → implies a a ≡ true
implies_refl true = refl
implies_refl false = refl

module _ (b : Bit) (out : Output) (cmd : Cmd) (flags : Flags) (filter : Filter) where
  -- A command that comes later does not take a level away; `replace` asks for all.
  op-grows :
      (op : CmdOp)
      → is_level b ≡ true
      → implies (flags b) ((evaluate_op op out cmd flags filter).0 b) ≡ true
  unfolding evaluate_op
  op-grows CmdOp.op_add h = ground (arith, add-grows b out cmd flags cmd.obj)
  op-grows CmdOp.op_insert h = ground (arith, add-grows b out cmd flags cmd.obj)
  op-grows CmdOp.op_create h = ground (arith, add-grows b out cmd flags cmd.obj)
  op-grows CmdOp.op_replace h = ground (arith, full-is_level b h)
  op-grows CmdOp.op_delete h = del-grows b _ flags (ground arith) cmd.obj
  op-grows CmdOp.op_destroy h = del-grows b _ flags (ground arith) cmd.obj
  op-grows CmdOp.op_get h = get-grows b flags flags (implies_refl (flags b)) cmd.obj
  op-grows CmdOp.op_rename h = rename-grows b flags flags (implies_refl (flags b)) cmd.obj
  op-grows CmdOp.op_flush h = flush-grows b out cmd flags cmd.obj filter
  op-grows _ h = ground arith

  -- With other flags set before, a command asks for at least as much.
  op-met :
      (op : CmdOp)
      → implies
          ((evaluate_op op out cmd cache_empty filter).0 b)
          ((evaluate_op op out cmd flags filter).0 b)
        ≡ true
  unfolding evaluate_op evaluate_cache_list evaluate_cache_reset
  op-met CmdOp.op_add = ground (arith, add-met b out cmd flags cmd.obj)
  op-met CmdOp.op_insert = ground (arith, add-met b out cmd flags cmd.obj)
  op-met CmdOp.op_create = ground (arith, add-met b out cmd flags cmd.obj)
  op-met CmdOp.op_delete = del-met b _ _ (ground arith) cmd.obj
  op-met CmdOp.op_destroy = del-met b _ _ (ground arith) cmd.obj
  op-met CmdOp.op_get = get-met b flags cache_empty refl cmd.obj
  op-met CmdOp.op_rename = rename-met b flags cache_empty refl cmd.obj
  op-met CmdOp.op_flush = flush-met b out cmd flags cmd.obj filter
  op-met CmdOp.op_list = ground (arith, list-met b out cmd flags cmd.obj cmd.handle filter.list)
  op-met CmdOp.op_reset = ground (arith, reset-met b out cmd flags cmd.obj cmd.handle filter.list)
  op-met _ = ground arith

module _ (b : Bit) (out : Output) (cmd : Cmd) (flags : Flags) (filter : Filter) where
  cmd-grows : is_level b ≡ true → implies (flags b) ((evaluate_cmd out cmd flags filter).0 b) ≡ true
  unfolding evaluate_cmd
  cmd-grows h = op-grows b out cmd flags _ cmd.op h

  cmd-met :
      implies
        ((evaluate_cmd out cmd cache_empty filter).0 b)
        ((evaluate_cmd out cmd flags filter).0 b)
      ≡ true
  unfolding evaluate_cmd
  cmd-met = op-met b out cmd flags _ cmd.op

-- The state after a part of the batch.
abbrev pub State : Type 0
State = Flags × Filter

pub valid_head :
    (out : Output) (cmd : Cmd) (cmds : List Cmd) (flags : Flags) (filter : Filter) (r : State)
    → evaluate_from out (cmd ∷ cmds) flags filter ≡ some r
    → (nft_handle_validate cmd.obj cmd.handle ≡ none)
      × (evaluate_from out cmds
            (evaluate_cmd out cmd flags filter).0
            (evaluate_cmd out cmd flags filter).1
          ≡ some r)
unfolding evaluate_from
valid_head out cmd cmds flags filter r e =
    elim (Option-cases (nft_handle_validate cmd.obj cmd.handle)) [
      | inl v ↦ (v, ground arith)
      | inr (field, v) ↦ absurd (ground arith)
    ]

module _ (b : Bit) (level : is_level b ≡ true) (out : Output) where
  evaluate_from-grows :
      (cmds : List Cmd) (flags : Flags) (filter : Filter) (r : State)
      → evaluate_from out cmds flags filter ≡ some r
      → implies (flags b) (r.0 b) ≡ true
  unfolding evaluate_from
  evaluate_from-grows [] flags filter r e =
      subst (λ (s : State). implies (flags b) (s.0 b) ≡ true) (some-injective _ _ e)
        (implies_refl (flags b))
  evaluate_from-grows (cmd ∷ cmds) flags filter r e =
      let kept : implies (flags b) ((evaluate_cmd out cmd flags filter).0 b) ≡ true =
        cmd-grows b out cmd flags filter level in
      let later = valid_head out cmd cmds flags filter r e in
      implies_trans (flags b) _ (r.0 b) kept (evaluate_from-grows cmds _ _ r later.1)

  met_from :
      (before : List Cmd) (cmd : Cmd) (after : List Cmd) (flags : Flags) (filter : Filter)
      (r : State)
      → evaluate_from out (before ++ cmd ∷ after) flags filter ≡ some r
      → (s : State) × (evaluate_from out before flags filter ≡ some s)
        × (implies ((evaluate_cmd out cmd cache_empty s.1).0 b) (r.0 b) ≡ true)
  unfolding evaluate_from
  met_from [] cmd after flags filter r e =
      let later = valid_head out cmd after flags filter r e in
      (
        (flags, filter),
        refl,
        implies_trans _ _ (r.0 b) (cmd-met b out cmd flags filter)
            (evaluate_from-grows after _ _ r later.1),
      )
  met_from (c ∷ before) cmd after flags filter r e =
      let later = valid_head out c (before ++ cmd ∷ after) flags filter r e in
      let (s, here, met) = met_from before cmd after _ _ r later.1 in
      (s, rw (later.0, evaluate_from) here, met)

  -- If a batch passes the check of its names, then so does every beginning of it, and every level that
  -- a command asks for by itself, with the filter that the commands before it leave, is among the
  -- flags of the whole batch.
  pub nft_cache_evaluate-met :
      (before : List Cmd) (cmd : Cmd) (after : List Cmd) (filter : Filter) (r : State)
      → nft_cache_evaluate out (before ++ cmd ∷ after) filter ≡ some r
      → (s : State) × (nft_cache_evaluate out before filter ≡ some s)
        × (implies ((evaluate_cmd out cmd cache_empty s.1).0 b) (r.0 b) ≡ true)
  unfolding nft_cache_evaluate
  nft_cache_evaluate-met before cmd after filter r e =
      met_from before cmd after cache_empty filter r e
