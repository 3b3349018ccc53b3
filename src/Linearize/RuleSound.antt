-- ===== src/Linearize/RuleSound.antt =====
-- The instructions of a whole rule never read a register that was not written before.
use nftables.Base.{length, ℕ, ◌+◌, ◌≤◌, ◌<◌, ◌≡◌, List, [], ◌∷◌, ◌++◌, none, some}
use nftables.Gmp.{Mpz}
use nftables.Linearize.Syntax.{Expr, expr_len, Nle, Verdict, Name}
use nftables.Linearize.Exprs.{key_space}
use nftables.Linearize.Frame.{Sound, after}
use nftables.Linearize.Shape.{space_of, span, extra, IsValue}
use nftables.Linearize.Layout.{Holds}
use nftables.Linearize.Compare.{IsRight}
use nftables.Linearize.Rule.{Stmt}
use nftables.Linearize.Operands.{FitsInto, IsOperand}
use nftables.Linearize.NatParts.{up}
use nftables.Linearize.NatSound.{IsNat, IsQueue, given}

-- The name of a chain that is jumped to has a letter and is no longer than its buffer.
abbrev IsVerdict : Verdict → Type 0
IsVerdict v = (name : Name) → v.chain ≡ some name → (0 < length name) × (length name ≤ 256)

-- A comparison, a verdict, or a map whose data are verdicts.
abbrev pub IsMatch : Mpz → Expr → Type 0
IsMatch m (Expr.relational op is_string left right) =
    IsValue left
    × (0 < expr_len left)
    × IsRight m op is_string left right
    × (span left ≤ space_of left)
    × (1 + space_of left + extra left ≤ 17)
IsMatch m (Expr.verdict v) = IsVerdict v
IsMatch m (Expr.map_of len key mappings) =
    IsValue key
    × (0 < expr_len key)
    × (span key ≤ space_of key + key_space key)
    × (1 + space_of key + key_space key + extra key ≤ 17)
IsMatch m _ = ⊥

-- Values have a length and fit into the registers they are given, and all of them into the 16 there are.
abbrev pub IsStmt : Mpz → Stmt → Type 0
IsStmt m (Stmt.expression e) = IsMatch m e
IsStmt m (Stmt.meter key s stmt) = IsOperand 1 key.key
IsStmt m (Stmt.exthdr val raw_type offset len op) = IsOperand 1 val
IsStmt m (Stmt.payload val target) = IsOperand 1 val
IsStmt m (Stmt.meta e key) = IsOperand 1 e
IsStmt m (Stmt.nat s) = IsNat 1 s
IsStmt m (Stmt.tproxy family addr port) =
    ((e : Expr) → addr ≡ some e → FitsInto 4 1 e)
    × ((e : Expr) → port ≡ some e → FitsInto 4 (up 1 (given addr)) e)
IsStmt m (Stmt.dup none dev) = (e : Expr) → dev ≡ some e → IsOperand 1 e
IsStmt m (Stmt.dup (some (to, is_ifindex)) dev) =
    IsOperand 1 to × ((e : Expr) → dev ≡ some e → IsOperand (1 + space_of to) e)
IsStmt m (Stmt.queue q flags) = IsQueue 1 q
IsStmt m (Stmt.ct e key direction) = IsOperand 1 e
IsStmt m (Stmt.set key op s stmts) = IsOperand 1 key.key
IsStmt m (Stmt.fwd dev addr family) =
    IsOperand 1 dev × ((e : Expr) → addr ≡ some e → IsOperand (1 + space_of dev) e)
IsStmt m (Stmt.objref_map key mappings) = IsOperand 1 key
IsStmt m (Stmt.objref_imm i type) = 0 < i.len
IsStmt m (Stmt.map_stmt key datum op s stmts) =
    IsOperand 1 key.key × IsOperand (1 + space_of key.key) datum
IsStmt m _ = Unit

-- The value that a match or a statement puts into the first registers: what is compared or looked up,
-- the value that is stored, or the key of the element that is added.
abbrev pub IsLoaded : Stmt → List (ℕ × ℕ) → Type 0
IsLoaded (Stmt.expression (Expr.relational op is_string left right)) es = Holds left 1 es
IsLoaded (Stmt.expression (Expr.map_of len key mappings)) es = Holds key 1 es
IsLoaded (Stmt.meter key s stmt) es = Holds key.key 1 es
IsLoaded (Stmt.exthdr val raw_type offset len op) es = Holds val 1 es
IsLoaded (Stmt.payload val target) es = Holds val 1 es
IsLoaded (Stmt.meta e key) es = Holds e 1 es
IsLoaded (Stmt.ct e key direction) es = Holds e 1 es
IsLoaded (Stmt.set key op s stmts) es = Holds key.key 1 es
IsLoaded (Stmt.objref_map key mappings) es = Holds key 1 es
IsLoaded (Stmt.map_stmt key datum op s stmts) es = Holds key.key 1 es
IsLoaded _ es = Unit

-- The instructions of a rule, statement by statement: those of each one start to read only at registers
-- that they have written themselves before, and put its value into the first registers.
abbrev pub IsCode : Mpz → List Stmt → List Nle → Type 0
IsCode m [] code = code ≡ []
IsCode m (s ∷ stmts) code =
    (c : List Nle) × (d : List Nle) × (code ≡ c ++ d)
    × Sound [] c
    × IsLoaded s (after [] c)
    × IsCode m stmts d
