-- ===== src/Lib.antt =====
-- nftables: a model of parts of the user-space tool, and proofs about them.
--
-- The tool reads a ruleset or commands (parser, evaluation), brings its cache of the kernel's ruleset up
-- to date, turns the commands into netlink messages and sends them. This library models the parts
-- below, which decide what ends up in the kernel.
--
-- - Base, Base/Lists, Base/Tests: names passed on from the standard library, lists over the native
--   numbers, Boolean tests.
-- - Gmp: src/gmputil.c (masks, shifts, byte order). The library GMP is the record `Mpz`, with its export,
--   import and bit scan as operations and their documented behaviour as laws; Tests/Library has an
--   instance of it.
-- - Expr: the constant, prefix and range expressions of include/expression.h and the bounds of
--   src/expression.c (`range_expr_value_low`, `range_expr_value_high`).
-- - Mergesort: src/mergesort.c, the sort keys and the stable merge sort of expression lists.
-- - Intervals and its folder: src/intervals.c. Intervals/Elem has the elements and their turning into
--   ranges (`set_to_range`), Automerge the merge of ranges (`setelem_automerge`), Overlap the check
--   for conflicts (`setelem_overlap`), Delete the removal of values (`setelem_delete`), Segments the
--   segments sent to the kernel (`set_to_intervals`), Commands the three operations called for a
--   command (`set_automerge`, `set_overlap`, `set_delete`). The folders below these have the proofs.
-- - Cache and its folder: the beginning of src/cache.c and include/cache.h, what has to be fetched for a
--   batch. Flags has the bits, Filter the handles and the hash table of flushed sets, Evaluate
--   `nft_cache_evaluate` with what it calls, Needs and Closed the proofs.
-- - Misspell: src/misspell.c, the distance of two words and the suggestion nearest to a word, with
--   the loop over a symbol table of src/datatype.c.
-- - Segtree and its folder: `interval_map_decompose` of src/segtree.c, which lists a set from the segments
--   that the kernel returns. Netmask, Bounds and Shape have the lemmas, Roundtrip what relates it to
--   src/intervals.c. The C library's qsort is a parameter.
-- - Registers: the registers that src/netlink_linearize.c gives to expressions and their numbers in
--   messages, which src/netlink_delinearize.c reads back.
-- - Bits: bits of native numbers under and, or and exclusive or.
-- - Bitwise and its folder: chains of `&`, `|` and `^`, of which `netlink_gen_bitwise`
--   (src/netlink_linearize.c) makes a mask and an exclusive or, and `netlink_parse_bitwise_bool`
--   (src/netlink_delinearize.c) a chain again. Meaning has what they do to a number, bit by bit.
-- - NetlinkData and its folder: src/netlink.c, the bytes of values, ranges and concatenations, and in
--   Keys those of the keys of elements. A write behind the end of an array has no result. Layout and
--   KeyLayout have the proofs.
-- - Linearize and its folder: src/netlink_linearize.c, the instructions of a rule. Syntax has expressions
--   and instructions, which are lists of attributes; Context the first free register and the list of
--   instructions as state, with `none` for a failed assertion or BUG(); Nles and Gen what is generated
--   for one expression, Exprs `netlink_gen_expr`; Fields, Stmts and Nat the statements, Rule
--   `netlink_gen_stmt` and `netlink_linearize_rule`. Frame says what instructions read and write, with a
--   rule for each action; Shape says which expressions have a value and the registers they need. Parts
--   and Values are the proofs for expressions, Compare and Matches for comparisons, Operands,
--   StmtParts, StmtDyn, NatParts and NatSound for statements, Sound and RuleSound the results. Layout says which registers
--   the parts of a value are loaded into.
-- - Evaluation and its folder: src/evaluate.c. Constants has the operations on two integer constants
--   (`expr_evaluate_binop` with what it calls), whose result is a value, a message, or `stop` for a
--   failed assertion or BUG(); Transfer has `binop_transfer`, which moves the operation on the left of a
--   comparison to the constants on its right. Matches says what a comparison means for a value,
--   Computed inverts the operations that succeed, Moved and Sides are the transfer of constants, ranges
--   and sets, with one record of facts for each operation, which Inverses fills; Meaning, Returns and
--   Limits are the results.
-- - Delinearize and its folder: src/netlink_delinearize.c, from the instructions of a message to
--   statements. Attributes has what libnftnl's getters give for a list of attributes; Context the
--   expressions known of each register, with the errors, and the loop over the registers of a
--   concatenation; State the statement and the rule of the parsers, Exprs and Stmts the parsers, Rule
--   their table (`parse_kind`) and the loop over the instructions of a rule (`parse_exprs`). Registers,
--   Roundtrip, Chain with Puts, Comparison and Simple are the results about registers, about expressions that
--   read a packet, operations around them (ReadBack says what is read for these), comparisons and
--   statements without operands. The options of exthdr.c, ipopt.c, sctp_chunk.c and dccpopt.c
--   and the results of fib.c that stop the program are modelled (Stmts). The lengths in the tables of
--   other files, the sets and the chains
--   bound to a rule are the parameter `Tables`.
-- - Bits/Shifts: shifts and masks bit by bit.
-- - Tests: the models run on examples, with an example for each result that has conditions.
--
-- The list of a set is a `List Item`: ranges with their bounds as numbers, or catchall elements. The
-- functions that walk such a list and change it return the new list with what they put on the purge
-- list. Loops over a list are structural recursion; the merge sort recurses on fuel, the length of
-- its list, which is enough as each half is shorter (Mergesort/Termination). Results that are errors in
-- the code (`-1`, with an error message) are `none`, or the message as a value. Native numbers stand
-- for GMP's integers; words keep their wrap-around where the code can reach it (the hash of the cache
-- filter, prefix lengths).
--
-- The loop over a concatenation in Delinearize/Context recurses on fuel, 18, more than the 17 places of
-- the registers, each of which it passes once (Delinearize/Registers).
--
-- The array of 64 bytes that netlink_gen_raw_data writes a single value to is not bounded in the model.
-- Of an expression, the results about instructions have as conditions what they need of its lengths and
-- operators, which evaluation checks in parts that are not modelled.
--
-- Not modelled: locations and debug output, comments, timeouts and statements of elements; the parser;
-- the evaluation of expressions other than operations on constants and their transfer, and of
-- statements; of the way back from instructions the parsers of nat, tproxy, fwd, dynset, inner and
-- compatibility expressions (the parameter `unmodelled`) and what follows the loop over the
-- instructions, which merges payloads and removes dependencies; data types, the printing, JSON, the
-- transport of netlink messages and their replies, and the optimizer.
pub mod Base
pub mod Mergesort
pub mod Gmp
pub mod Bits
pub mod Bitwise
pub mod Expr
pub mod Intervals
pub mod Cache
pub mod Misspell
pub mod Segtree
pub mod Registers
pub mod NetlinkData
pub mod Evaluation
pub mod Linearize
pub mod Delinearize
mod Tests
