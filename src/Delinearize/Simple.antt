-- ===== src/Delinearize/Simple.antt =====
-- Statements without operands: what src/netlink_linearize.c writes for a rule of them is read back.
use mathlib.Core.List.{append_assoc, append-nil}
use nftables.Base.{
  ℕ, ◌^◌, ◌<◌, ◌≡◌, refl, ap, ◌∙◌, Bool, true, false, not, ◌==◌, ◌%◌, if◌then◌else◌, List, [], ◌∷◌,
  ◌++◌, map, Option, none, some, arith, All,
}
use native.Mathlib.Nat.{mod-eq_of_lt}
use nftables.Gmp.{Mpz}
use nftables.Linearize.Syntax
use nftables.Linearize.Syntax.{Field, Nle, number, Name}
use nftables.Linearize.Context.{Ctx, nft_rule_add_expr, ◌>>=◌}
use nftables.Linearize.Frame.{state}
use nftables.Linearize.Fields.{
  Stateful, netlink_gen_stmt_stateful, if_nonzero, when, Log, log_fields,
}
use nftables.Linearize.Rule.{
  Stmt, netlink_gen_stmt, gen_stmts, netlink_linearize_init, netlink_linearize_rule,
}
use nftables.Delinearize.Attributes.{get_u32, is_set, get_str}
use nftables.Delinearize.State.{Tables, FoundStmt, Parse}
use nftables.Delinearize.Stmts.{
  netlink_parse_connlimit, netlink_parse_counter, netlink_parse_last, netlink_parse_limit,
  netlink_parse_quota, netlink_parse_log,
}
use nftables.Delinearize.Rule.{parse_kind, netlink_parse_expr, netlink_parse_rule_expr, parse_exprs}

-- A log statement as evaluation lets it pass: numbers that are not given are 0, and a group excludes a
-- level and flags.
pub record IsLog (l : Log) : Type 0 where
  pub group_fits : l.group < 2 ^ 16
  pub qthreshold_fits : l.qthreshold < 2 ^ 16
  pub no_group : l.has_group ≡ false → l.group ≡ 0
  pub no_snaplen : l.has_snaplen ≡ false → l.snaplen ≡ 0
  pub no_qthreshold : l.has_qthreshold ≡ false → l.qthreshold ≡ 0
  pub no_level : l.has_level ≡ false → l.level ≡ 0
  pub with_group : l.has_group ≡ true → (l.has_level ≡ false) × (l.logflags ≡ 0)

-- Statements without operands, with numbers that fit the fields they are sent in.
abbrev pub IsSimple : Stmt → Type 0
IsSimple (Stmt.stateful s) = Unit
IsSimple (Stmt.log l) = IsLog l
IsSimple (Stmt.reject type code) = code < 2 ^ 8
IsSimple (Stmt.synproxy mss wscale flags) = (mss < 2 ^ 16) × (wscale < 2 ^ 8)
IsSimple Stmt.notrack = Unit
IsSimple (Stmt.flow_offload name) = Unit
IsSimple _ = ⊥

-- A log statement as it is sent: without a group, its length and its threshold are not.
abbrev pub logged : Log → Log
logged l =
    if l.has_group
    then l
    else record l { has_snaplen = false; snaplen = 0; has_qthreshold = false; qthreshold = 0 }

-- What is read for a statement. A code of 255, which is -1, is not sent and reads as 0.
abbrev pub back : Stmt → FoundStmt
back (Stmt.stateful s) = FoundStmt.stateful s
back (Stmt.log l) = FoundStmt.log (logged l)
back (Stmt.reject type code) = FoundStmt.reject type (if code == 255 then 0 else code)
back (Stmt.synproxy mss wscale flags) = FoundStmt.synproxy mss wscale flags
back (Stmt.flow_offload name) = FoundStmt.flow_offload name
back _ = FoundStmt.notrack

module _ (m : Mpz) (t : Tables) (u : List Field → Parse → Option Parse) where
  abbrev pub add_found : Parse → FoundStmt → Parse
  add_found ctx s = record ctx { stmt = none; rule = ctx.rule ++ s ∷ [] }

  -- One instruction is added for the statement, and it is read as the statement.
  abbrev One : Stmt → Type 0
  One s =
      (nlr : List Nle) (low : ℕ) (ctx : Parse)
      → (n : Nle) × (netlink_gen_stmt m s (state low nlr) ≡ some (tt, state low (nlr ++ n ∷ [])))
        × (netlink_parse_rule_expr m t u n ctx ≡ some (add_found ctx (back s)))

  abbrev as_fields : List (Syntax.Attr × ℕ) → List Field
  as_fields l = map (λ a. number a.0 a.1) l

  counter_back :
      (packets octets : ℕ)
      → netlink_parse_counter m t
          (as_fields (if_nonzero Syntax.a_packets packets ++ if_nonzero Syntax.a_bytes octets))
        ≡ Stateful.counter packets octets
  unfolding netlink_parse_counter get_u32
  counter_back packets octets = ground arith

  limit_back :
      (rate unit type burst flags : ℕ)
      → netlink_parse_limit m t (
          as_fields (
            (Syntax.a_rate, rate)
            ∷ (Syntax.a_unit, unit)
            ∷ (Syntax.a_type, type)
            ∷ (if_nonzero Syntax.a_burst burst ++ (Syntax.a_flags, flags) ∷ [])))
        ≡ Stateful.limit rate unit type burst flags
  unfolding netlink_parse_limit get_u32
  limit_back rate unit type burst flags = ground arith

  log_back : (l : Log) → IsLog l → netlink_parse_log m t (log_fields l) ≡ logged l
  unfolding netlink_parse_log get_u32 is_set get_str log_fields
  log_back l ok =
      by_case l.prefix l.has_group l.has_snaplen l.has_qthreshold l.has_level l.group l.snaplen
        l.qthreshold l.level l.logflags ok
    where
      by_case :
          (p : Option Name) (g s q lv : Bool) (group snaplen qthreshold level logflags : ℕ)
          → IsLog (record {
            prefix = p;
            has_group = g;
            has_snaplen = s;
            has_qthreshold = q;
            has_level = lv;
            group = group;
            snaplen = snaplen;
            qthreshold = qthreshold;
            level = level;
            logflags = logflags;
          })
          → netlink_parse_log m t (
              log_fields (record {
                prefix = p;
                has_group = g;
                has_snaplen = s;
                has_qthreshold = q;
                has_level = lv;
                group = group;
                snaplen = snaplen;
                qthreshold = qthreshold;
                level = level;
                logflags = logflags;
              }))
            ≡ logged (record {
              prefix = p;
              has_group = g;
              has_snaplen = s;
              has_qthreshold = q;
              has_level = lv;
              group = group;
              snaplen = snaplen;
              qthreshold = qthreshold;
              level = level;
              logflags = logflags;
            })
      by_case none true s q lv gr sn qt le lf ok = ground arith
      by_case none false s q lv gr sn qt le lf ok = ground arith
      by_case (some x) true s q lv gr sn qt le lf ok = ground arith
      by_case (some x) false s q lv gr sn qt le lf ok = ground arith

  stateful-One : (s : Stateful) → One (Stmt.stateful s)
  unfolding netlink_gen_stmt nft_rule_add_expr netlink_gen_stmt_stateful netlink_parse_rule_expr
      netlink_parse_expr parse_kind get_u32 netlink_parse_connlimit netlink_parse_counter
      netlink_parse_last netlink_parse_limit netlink_parse_quota
  stateful-One (Stateful.connlimit count flags) nlr low ctx = (_, refl, refl)
  stateful-One (Stateful.counter packets octets) nlr low ctx =
      (_, refl, ap (λ s. some (add_found ctx (FoundStmt.stateful s))) (counter_back packets octets))
  stateful-One (Stateful.limit rate unit type burst flags) nlr low ctx = (
    _,
    refl,
    ap (λ s. some (add_found ctx (FoundStmt.stateful s))) (limit_back rate unit type burst flags),
  )
  stateful-One (Stateful.quota octets used flags) nlr low ctx = (_, refl, refl)
  stateful-One (Stateful.last set used) nlr low ctx = (_, refl, refl)

  log-One : (l : Log) → IsLog l → One (Stmt.log l)
  unfolding netlink_gen_stmt nft_rule_add_expr netlink_parse_rule_expr netlink_parse_expr parse_kind
  log-One l ok nlr low ctx =
      (_, refl, ap (λ s. some (add_found ctx (FoundStmt.log s))) (log_back l ok))

  reject_back :
      (type code : ℕ)
      → code < 2 ^ 8
      → get_u32 Syntax.a_code
            (number Syntax.a_type type ∷ when (not (code == 255)) (number Syntax.a_code code))
          % 2 ^ 8
        ≡ (if code == 255 then 0 else code)
  unfolding get_u32
  reject_back type code h = ground arith

  one : (s : Stmt) → IsSimple s → One s
  unfolding netlink_gen_stmt nft_rule_add_expr netlink_parse_rule_expr netlink_parse_expr parse_kind
      get_u32 get_str
  one (Stmt.stateful s) h nlr low ctx = stateful-One s nlr low ctx
  one (Stmt.log l) h nlr low ctx = log-One l h nlr low ctx
  one (Stmt.reject type code) h nlr low ctx =
      (_, refl, ap (λ s. some (add_found ctx (FoundStmt.reject type s))) (reject_back type code h))
  one (Stmt.synproxy mss wscale flags) (h, k) nlr low ctx =
      (_, refl, rw (mod-eq_of_lt h, mod-eq_of_lt k) refl)
  one Stmt.notrack h nlr low ctx = (_, refl, refl)
  one (Stmt.flow_offload name) h nlr low ctx = (_, refl, refl)
  one _ h nlr low ctx = absurd h

  abbrev pub found_rule : Parse → List FoundStmt → Parse
  found_rule ctx l = record ctx { stmt = none; rule = l }

  rule_back :
      (stmts : List Stmt) (nlr : List Nle) (low : ℕ) (ctx : Parse) (l : List FoundStmt)
      → All IsSimple stmts
      → (code : List Nle) × (gen_stmts m stmts (state low nlr) ≡ some (tt, state low (nlr ++ code)))
        × (parse_exprs m t u code (found_rule ctx l) ≡ some (found_rule ctx (l ++ map back stmts)))
  unfolding gen_stmts parse_exprs
  rule_back [] nlr low ctx l h = ([], rw (append-nil nlr) refl, rw (append-nil l) refl)
  rule_back (s ∷ stmts) nlr low ctx l h =
      let (n, generated, parsed) = one s h.0 nlr low (found_rule ctx l) in
      let (code, generated', parsed') =
        rule_back stmts (nlr ++ n ∷ []) low ctx (l ++ back s ∷ []) h.1 in
      (
        n ∷ code,
        rw (gen_stmts, generated, ◌>>=◌)
            (generated'
              ∙ ap (λ (c : List Nle). some (tt, state low c)) (append_assoc nlr (n ∷ []) code)),
        rw parsed (
            parsed'
            ∙ ap (λ (r : List FoundStmt). some (found_rule ctx r))
                (append_assoc l (back s ∷ []) (map back stmts))),
      )

  -- A rule of statements without operands, whose numbers fit the fields they are sent in, and whose log
  -- statements hold 0 for what is not given and have no level and no flags beside a group, becomes
  -- instructions, and these are read back as the statements of the rule, in their order, with no error
  -- and no register written. What is read differs from the rule in two cases: a log statement without a
  -- group has lost its length and its queue threshold, and a rejection with the code 255 has the code 0.
  pub parse_exprs-netlink_linearize_rule :
      (stmts : List Stmt) (ctx : Parse)
      → All IsSimple stmts
      → (out : Ctx) × (netlink_linearize_rule m stmts ≡ some (tt, out))
        × (parse_exprs m t u out.nlr (found_rule ctx []) ≡ some (found_rule ctx (map back stmts)))
  unfolding netlink_linearize_rule netlink_linearize_init
  parse_exprs-netlink_linearize_rule stmts ctx h =
      let (code, generated, parsed) = rule_back stmts [] 1 ctx [] h in
      (state 1 code, generated, parsed)
