-- ===== src/Vm.antt =====
-- The bytecode of the rule evaluator and the checks that read it: src/compiler.h (opcodes,
-- instructions, compiled rules), zig/src/vm.zig (bindings, the filters and binds that touch no
-- relation, the routing tests of incremental maintenance) and the builtin tests of zig/src/dl.zig.
-- A `c_int` flag is a Bool. An instruction's opcode is one of the enum's, and a rule pointer is not
-- null.
pub mod Binding
pub mod Eligible
pub mod Steps
use datalog_dafsa.Base.{
  ℕ, zero, suc, ◌+◌, ◌-◌, ◌*◌, ◌/◌, ◌%◌, ◌^◌, Bool, true, false, not, ◌&&◌, ◌||◌, Option, none,
  some, List, [], ◌∷◌, if◌then◌else◌, ◌==◌, ltb, leb, get_or, set, replicate,
}

pub data Opcode : Type 0 where
  op_halt : Opcode
  op_scan : Opcode
  op_lookup : Opcode
  op_eq : Opcode
  op_eq_const : Opcode
  op_project : Opcode
  op_open_rel : Opcode
  op_neg_check : Opcode
  op_agg_acc : Opcode
  op_agg_emit : Opcode
  op_walk : Opcode
  op_lookup_perm : Opcode
  op_hash_join : Opcode
  op_cmp : Opcode
  op_arith : Opcode
  op_str_filter : Opcode
  op_str_len : Opcode
  op_str_bind : Opcode
  op_mat_begin : Opcode
  op_mat_join : Opcode
  op_list_cons : Opcode
  op_list_car : Opcode
  op_list_cdr : Opcode
  op_list_append : Opcode
  op_list_member : Opcode
  op_range : Opcode

pub record Instr : Type 0 where
  pub op : Opcode
  pub a : ℕ
  pub b : ℕ
  pub c : ℕ
  pub imm : ℕ
  pub slots : List ℕ
  pub body_idx : ℕ

pub record CompiledRule : Type 0 where
  pub head_rel_id : ℕ
  pub instrs : List Instr
  pub stratum : ℕ
  pub is_recursive : Bool
  pub has_aggregate : Bool

abbrev pub max_rels : ℕ
max_rels = 64

abbrev pub max_vars : ℕ
max_vars = 64

abbrev pub unbound : ℕ
unbound = 0xFFFFFFFF

-- The slot byte of a column that binds nothing.
abbrev pub no_slot : ℕ
no_slot = 0xFF

-- `rel_entry.kind`.
pub data RelKind : Type 0 where
  fixed : RelKind
  variadic : RelKind

-- The part of `dl_db` that the routing tests read.
pub record Program : Type 0 where
  pub rels : List RelKind
  pub crules : List CompiledRule

-- A loop that returns 1 at the first element that passes.
unfoldable pub any {ℓ} : {A : Type ℓ} → (A → Bool) → List A → Bool
any test [] = false
any test (x ∷ xs) = test x || any test xs

abbrev pub is_variadic : RelKind → Bool
is_variadic fixed = false
is_variadic variadic = true

unfoldable pub db_has_variadic : Program → Bool
unfolding any
db_has_variadic d = any is_variadic d.rels

abbrev pub is_list_op : Opcode → Bool
is_list_op op_list_cons = true
is_list_op op_list_car = true
is_list_op op_list_cdr = true
is_list_op op_list_append = true
is_list_op op_list_member = true
is_list_op _ = false

unfoldable pub db_has_list_builtin : Program → Bool
unfolding any
db_has_list_builtin d =
    any (λ (cr : CompiledRule). any (λ (i : Instr). is_list_op i.op) cr.instrs) d.crules

abbrev pub is_range_op : Opcode → Bool
is_range_op op_range = true
is_range_op _ = false

unfoldable pub db_has_range_builtin : Program → Bool
unfolding any
db_has_range_builtin d =
    any (λ (cr : CompiledRule). any (λ (i : Instr). is_range_op i.op) cr.instrs) d.crules

-- The early return at the head of both eligibility tests.
unfoldable pub has_builtin : Program → Bool
unfolding db_has_variadic db_has_list_builtin db_has_range_builtin
has_builtin d = db_has_variadic d || db_has_list_builtin d || db_has_range_builtin d

unfoldable pub vm_has_recursive : Program → Bool
unfolding any
vm_has_recursive d = any (λ (cr : CompiledRule). cr.is_recursive) d.crules

-- The opcodes that `vm_dred_eligible` refuses.
abbrev pub dred_refuses : Opcode → Bool
dred_refuses op_walk = true
dred_refuses op_lookup_perm = true
dred_refuses op_hash_join = true
dred_refuses op_mat_begin = true
dred_refuses op_mat_join = true
dred_refuses _ = false

unfoldable pub dred_refuses_rule : CompiledRule → Bool
unfolding any
dred_refuses_rule cr =
    cr.is_recursive || cr.has_aggregate || any (λ (i : Instr). dred_refuses i.op) cr.instrs

unfoldable pub vm_dred_eligible : Program → Bool
unfolding has_builtin dred_refuses_rule
vm_dred_eligible d = if has_builtin d then false else not (any dred_refuses_rule d.crules)

-- The opcodes whose field `a` is a relation that the rule's body reads.
abbrev pub reads_a : Opcode → Bool
reads_a op_scan = true
reads_a op_lookup = true
reads_a op_neg_check = true
reads_a op_walk = true
reads_a op_lookup_perm = true
reads_a op_hash_join = true
reads_a _ = false

-- `dredRuleReads`: an instruction of the rule reads the relation.
unfoldable pub dred_rule_reads : CompiledRule → ℕ → Bool
unfolding any
dred_rule_reads cr rel_id = any (λ (i : Instr). reads_a i.op && (i.a == rel_id)) cr.instrs

-- The arrays of `vm_ivm_eligible`, by relation id; -1 in `rec_stratum` is `none`.
pub record Heads : Type 0 where
  pub is_rule_head : List Bool
  pub is_rec_head : List Bool
  pub rec_stratum : List (Option ℕ)

abbrev pub no_heads : Heads
no_heads = record {
  is_rule_head = replicate 64 false;
  is_rec_head = replicate 64 false;
  rec_stratum = replicate 64 none;
}

-- One round of the loop that fills the arrays.
unfoldable pub mark_head : CompiledRule → Heads → Heads
mark_head cr h =
    let hid = cr.head_rel_id in
    let ruled = record h { is_rule_head = set h.is_rule_head hid true } in
    if leb max_rels hid
    then h
    else if cr.is_recursive
    then record ruled {
      is_rec_head = set h.is_rec_head hid true;
      rec_stratum = set h.rec_stratum hid (some cr.stratum);
    }
    else ruled

unfoldable pub mark_heads : List CompiledRule → Heads → Heads
unfolding mark_head
mark_heads [] h = h
mark_heads (cr ∷ crules) h = mark_heads crules (mark_head cr h)

abbrev pub is_stratum : Option ℕ → ℕ → Bool
is_stratum none s = false
is_stratum (some r) s = r == s

-- A recursive head of the rule's own stratum.
unfoldable pub same_stratum : Heads → CompiledRule → ℕ → Bool
same_stratum h cr rel =
    get_or h.is_rec_head rel false && is_stratum (get_or h.rec_stratum rel none) cr.stratum

-- The tests of `vm_ivm_eligible` by opcode; `perm` and `scan` are those of the two that look at the
-- relation.
abbrev pub ivm_refuses_op : Bool → Bool → Opcode → Bool
ivm_refuses_op perm scan op_neg_check = true
ivm_refuses_op perm scan op_walk = true
ivm_refuses_op perm scan op_lookup_perm = perm
ivm_refuses_op perm scan op_hash_join = true
ivm_refuses_op perm scan op_mat_begin = true
ivm_refuses_op perm scan op_mat_join = true
ivm_refuses_op perm scan op_scan = scan
ivm_refuses_op perm scan op_lookup = scan
ivm_refuses_op perm scan _ = false

-- One round of the inner loop of `vm_ivm_eligible`: the instruction makes it return 0.
unfoldable pub ivm_refuses : Heads → CompiledRule → Instr → Bool
unfolding same_stratum
ivm_refuses h cr i =
    ivm_refuses_op (leb max_rels i.a || not (same_stratum h cr i.a))
      (cr.is_recursive
        && not (leb max_rels i.a)
        && get_or h.is_rule_head i.a false
        && not (same_stratum h cr i.a))
      i.op

unfoldable pub ivm_refuses_rule : Heads → CompiledRule → Bool
unfolding any ivm_refuses
ivm_refuses_rule h cr = cr.has_aggregate || any (ivm_refuses h cr) cr.instrs

unfoldable pub vm_ivm_eligible : Program → Bool
unfolding has_builtin mark_heads ivm_refuses_rule
vm_ivm_eligible d =
    if has_builtin d
    then false
    else not (any (ivm_refuses_rule (mark_heads d.crules no_heads)) d.crules)

-- `Bindings`: a slot holds a value or is not valid.
pub record Bindings : Type 0 where
  pub vals : List ℕ
  pub valid : List Bool

unfoldable pub b_init : Bindings → Bindings
b_init b = record b { valid = replicate 64 false }

-- `bTry`: `none` is the result 0.
unfoldable pub b_try : Bindings → ℕ → ℕ → Option Bindings
b_try b s v =
    if leb max_vars s
    then none
    else if get_or b.valid s false
    then (if get_or b.vals s 0 == v then some b else none)
    else some (record { vals = set b.vals s v; valid = set b.valid s true })

unfoldable pub b_ok : Bindings → ℕ → Bool
b_ok b s = ltb s max_vars && get_or b.valid s false

unfoldable pub b_get : Bindings → ℕ → ℕ
unfolding b_ok
b_get b s = if b_ok b s then get_or b.vals s 0 else unbound

-- `bindRowPerm` without a permutation: columns `pp` to `ar` - 1, `left` of them.
unfoldable pub bind_row : Instr → List ℕ → ℕ → ℕ → Bindings → Option Bindings
unfolding b_try
bind_row i row zero pp b = some b
bind_row i row (suc left) pp b =
    let s = get_or i.slots pp no_slot in
    if s == no_slot then bind_row i row left (pp + 1) b else elim (b_try b s (get_or row pp 0)) [
      | none ↦ none
      | some next ↦ bind_row i row left (pp + 1) next
    ]

-- The comparison of `OP_CMP`.
unfoldable pub cmp_passes : ℕ → ℕ → ℕ → Bool
cmp_passes imm av bv =
    if imm == 0
    then ltb av bv
    else if imm == 1
    then leb av bv
    else if imm == 2
    then ltb bv av
    else if imm == 3
    then leb bv av
    else (imm == 4) && not (av == bv)

-- The u32 result of `OP_ARITH`; `none` is the backtrack.
unfoldable pub arith_result : ℕ → ℕ → ℕ → Option ℕ
arith_result imm av bv =
    if imm == 0
    then some ((av + bv) % 2 ^ 32)
    else if imm == 1
    then some ((av + 2 ^ 32 - bv) % 2 ^ 32)
    else if imm == 2
    then some (av * bv % 2 ^ 32)
    else if imm == 3
    then (if bv == 0 then none else some (av / bv))
    else if imm == 4
    then (if bv == 0 then none else some (av % bv))
    else none

-- The bindings after `OP_CMP`, or `none` where the machine backtracks.
unfoldable pub exec_cmp : Instr → Bindings → Option Bindings
unfolding b_get cmp_passes
exec_cmp i b = if cmp_passes i.imm (b_get b i.a) (b_get b i.b) then some b else none

-- The bindings after `OP_ARITH`, or `none` where the machine backtracks.
unfoldable pub exec_arith : Instr → Bindings → Option Bindings
unfolding b_get arith_result b_try
exec_arith i b = elim (arith_result i.imm (b_get b i.a) (b_get b i.b)) [
  | none ↦ none
  | some r ↦ b_try b i.c r
]
