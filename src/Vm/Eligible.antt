-- ===== src/Vm/Eligible.antt =====
-- The routing tests `vm_dred_eligible` and `vm_ivm_eligible` of zig/src/vm.zig: an early return is
-- a test of every rule and instruction, and the two tests agree on programs without recursion.
use datalog_dafsa.Base.{
  ℕ, ◌≡◌, refl, sym, ap, ◌∙◌, inl, inr, ◌↔◌, Bool, true, false, not, ◌&&◌, ◌||◌, List, [], ◌∷◌, All,
  arith, if◌then◌else◌, leb, Bool-cases, get_or, get_or-replicate,
}
use datalog_dafsa.Vm.{
  Opcode, Instr, CompiledRule, Program, Heads, any, max_rels, no_heads, mark_head, mark_heads,
  same_stratum, dred_refuses, dred_refuses_rule, vm_dred_eligible, has_builtin, vm_has_recursive,
  RelKind, fixed, variadic, is_variadic, is_list_op, is_range_op, db_has_variadic,
  db_has_list_builtin, db_has_range_builtin, op_halt, op_scan, op_lookup, op_eq, op_eq_const,
  op_project, op_open_rel, op_neg_check, op_agg_acc, op_agg_emit, op_walk, op_lookup_perm,
  op_hash_join, op_cmp, op_arith, op_str_filter, op_str_len, op_str_bind, op_mat_begin, op_mat_join,
  op_list_cons, op_list_car, op_list_cdr, op_list_append, op_list_member, op_range, ivm_refuses,
  ivm_refuses_op, ivm_refuses_rule, vm_ivm_eligible,
}

-- A loop that returns at the first element that passes does not return there exactly when none does.
module _ {ℓ} {A : Type ℓ} where
  any-none : (test : A → Bool) (xs : List A) → any test xs ≡ false → All (λ x. test x ≡ false) xs
  unfolding any
  any-none test [] none_there = tt
  any-none test (x ∷ xs) none_there =
      let (first, rest) = both (test x) (any test xs) none_there in (first, any-none test xs rest)
    where
      both : (a b : Bool) → (a || b) ≡ false → (a ≡ false) × (b ≡ false)
      both a b h = ground arith

  none-any : (test : A → Bool) (xs : List A) → All (λ x. test x ≡ false) xs → any test xs ≡ false
  unfolding any
  none-any test [] none_there = refl
  none-any test (x ∷ xs) (first, rest) = rw (first, none-any test xs rest) refl

  All-zip {κ μ} :
      (P : A → Type κ) (Q : A → Type μ) (xs : List A)
      → All P xs
      → All Q xs
      → All (λ x. P x × Q x) xs
  All-zip P Q [] ps qs = tt
  All-zip P Q (x ∷ xs) (p, ps) (q, qs) = ((p, q), All-zip P Q xs ps qs)

  All-map {κ μ} :
      {P : A → Type κ} {Q : A → Type μ} (xs : List A) → ((x : A) → P x → Q x) → All P xs → All Q xs
  All-map [] f all = tt
  All-map (x ∷ xs) f (p, all) = (f x p, All-map xs f all)

ivm_dred_op :
    (scan : Bool) (op : Opcode) → ivm_refuses_op true scan op ≡ false → dred_refuses op ≡ false
ivm_dred_op scan op h = ground arith

both_false : (a b : Bool) → (a || b) ≡ false → (a ≡ false) × (b ≡ false)
both_false a b h = ground arith

-- The rules that `vm_dred_eligible` admits.
abbrev pub IsDredRule : CompiledRule → Type 0
IsDredRule cr =
    (cr.is_recursive ≡ false)
    × (cr.has_aggregate ≡ false)
    × All (λ (i : Instr). dred_refuses i.op ≡ false) cr.instrs

dred_rule : (cr : CompiledRule) → dred_refuses_rule cr ≡ false → IsDredRule cr
unfolding dred_refuses_rule
dred_rule cr h =
    let (flags, ops) =
      both_false (cr.is_recursive || cr.has_aggregate)
        (any (λ (i : Instr). dred_refuses i.op) cr.instrs) h in
    let (plain, single) = both_false cr.is_recursive cr.has_aggregate flags in
    (plain, single, any-none (λ (i : Instr). dred_refuses i.op) cr.instrs ops)

rule_dred : (cr : CompiledRule) → IsDredRule cr → dred_refuses_rule cr ≡ false
unfolding dred_refuses_rule
rule_dred cr (plain, single, ops) =
    rw (plain, single, none-any (λ (i : Instr). dred_refuses i.op) cr.instrs ops) refl

pub dred_eligible_stage :
    (d : Program)
    → (vm_dred_eligible d ≡ true) ↔ ((has_builtin d ≡ false) × All IsDredRule d.crules)
unfolding vm_dred_eligible
dred_eligible_stage d = (
  (λ run.
      let (plain, admitted) = split (has_builtin d) (any dred_refuses_rule d.crules) run in
      (plain, All-map d.crules dred_rule (any-none dred_refuses_rule d.crules admitted))),
  (λ (plain, rules).
      rw (plain, none-any dred_refuses_rule d.crules (All-map d.crules rule_dred rules)) refl),
)
  where
    split : (a b : Bool) → (if a then false else not b) ≡ true → (a ≡ false) × (b ≡ false)
    split a b h = ground arith

-- The opcodes of the programs that the over-delete cascade handles.
abbrev pub IsOverridable : Opcode → Type 0
IsOverridable op_halt = Unit {0}
IsOverridable op_scan = Unit {0}
IsOverridable op_lookup = Unit {0}
IsOverridable op_eq = Unit {0}
IsOverridable op_eq_const = Unit {0}
IsOverridable op_project = Unit {0}
IsOverridable op_open_rel = Unit {0}
IsOverridable op_neg_check = Unit {0}
IsOverridable op_agg_acc = Unit {0}
IsOverridable op_agg_emit = Unit {0}
IsOverridable op_cmp = Unit {0}
IsOverridable op_arith = Unit {0}
IsOverridable op_str_filter = Unit {0}
IsOverridable op_str_len = Unit {0}
IsOverridable op_str_bind = Unit {0}
IsOverridable _ = ⊥

-- None of the three tests refuses the opcode.
abbrev Passes : Opcode → Type 0
Passes op = (is_list_op op ≡ false) × (is_range_op op ≡ false) × (dred_refuses op ≡ false)

no_pass : true ≡ false → ⊥
no_pass e = cc

IsOverridable-of : (op : Opcode) → Passes op → IsOverridable op
IsOverridable-of op_halt h = tt
IsOverridable-of op_scan h = tt
IsOverridable-of op_lookup h = tt
IsOverridable-of op_eq h = tt
IsOverridable-of op_eq_const h = tt
IsOverridable-of op_project h = tt
IsOverridable-of op_open_rel h = tt
IsOverridable-of op_neg_check h = tt
IsOverridable-of op_agg_acc h = tt
IsOverridable-of op_agg_emit h = tt
IsOverridable-of op_walk h = absurd (no_pass h.2)
IsOverridable-of op_lookup_perm h = absurd (no_pass h.2)
IsOverridable-of op_hash_join h = absurd (no_pass h.2)
IsOverridable-of op_cmp h = tt
IsOverridable-of op_arith h = tt
IsOverridable-of op_str_filter h = tt
IsOverridable-of op_str_len h = tt
IsOverridable-of op_str_bind h = tt
IsOverridable-of op_mat_begin h = absurd (no_pass h.2)
IsOverridable-of op_mat_join h = absurd (no_pass h.2)
IsOverridable-of op_list_cons h = absurd (no_pass h.0)
IsOverridable-of op_list_car h = absurd (no_pass h.0)
IsOverridable-of op_list_cdr h = absurd (no_pass h.0)
IsOverridable-of op_list_append h = absurd (no_pass h.0)
IsOverridable-of op_list_member h = absurd (no_pass h.0)
IsOverridable-of op_range h = absurd (no_pass h.1)

overridable_stage : (op : Opcode) → IsOverridable op → Passes op
overridable_stage op_halt h = (refl, refl, refl)
overridable_stage op_scan h = (refl, refl, refl)
overridable_stage op_lookup h = (refl, refl, refl)
overridable_stage op_eq h = (refl, refl, refl)
overridable_stage op_eq_const h = (refl, refl, refl)
overridable_stage op_project h = (refl, refl, refl)
overridable_stage op_open_rel h = (refl, refl, refl)
overridable_stage op_neg_check h = (refl, refl, refl)
overridable_stage op_agg_acc h = (refl, refl, refl)
overridable_stage op_agg_emit h = (refl, refl, refl)
overridable_stage op_walk h = absurd h
overridable_stage op_lookup_perm h = absurd h
overridable_stage op_hash_join h = absurd h
overridable_stage op_cmp h = (refl, refl, refl)
overridable_stage op_arith h = (refl, refl, refl)
overridable_stage op_str_filter h = (refl, refl, refl)
overridable_stage op_str_len h = (refl, refl, refl)
overridable_stage op_str_bind h = (refl, refl, refl)
overridable_stage op_mat_begin h = absurd h
overridable_stage op_mat_join h = absurd h
overridable_stage op_list_cons h = absurd h
overridable_stage op_list_car h = absurd h
overridable_stage op_list_cdr h = absurd h
overridable_stage op_list_append h = absurd h
overridable_stage op_list_member h = absurd h
overridable_stage op_range h = absurd h

-- A rule that is neither recursive nor aggregate, and whose opcodes the cascade handles.
abbrev pub IsCascaded : CompiledRule → Type 0
IsCascaded cr =
    (cr.is_recursive ≡ false)
    × (cr.has_aggregate ≡ false)
    × All (λ (i : Instr). IsOverridable i.op) cr.instrs

fixed_lem : (k : RelKind) → is_variadic k ≡ false → k ≡ fixed
fixed_lem fixed h = refl
fixed_lem variadic h = absurd (no_pass h)

variadic_lem : (k : RelKind) → k ≡ fixed → is_variadic k ≡ false
variadic_lem k e = rw e refl

instrs_cascade :
    (instrs : List Instr)
    → any (λ (i : Instr). is_list_op i.op) instrs ≡ false
    → any (λ (i : Instr). is_range_op i.op) instrs ≡ false
    → All (λ (i : Instr). dred_refuses i.op ≡ false) instrs
    → All (λ (i : Instr). IsOverridable i.op) instrs
instrs_cascade instrs l r d =
    All-map instrs (λ i (a, (b, c)). IsOverridable-of i.op (a, b, c))
      (All-zip _ _ instrs (any-none (λ (i : Instr). is_list_op i.op) instrs l)
        (All-zip _ _ instrs (any-none (λ (i : Instr). is_range_op i.op) instrs r) d))

rules_cascade :
    (crules : List CompiledRule)
    → any (λ (cr : CompiledRule). any (λ (i : Instr). is_list_op i.op) cr.instrs) crules ≡ false
    → any (λ (cr : CompiledRule). any (λ (i : Instr). is_range_op i.op) cr.instrs) crules ≡ false
    → All IsDredRule crules
    → All IsCascaded crules
rules_cascade crules l r d =
    All-map crules
      (λ cr (a, (b, (plain, single, ops))). (plain, single, instrs_cascade cr.instrs a b ops))
      (All-zip _ _ crules (any-none _ crules l) (All-zip _ _ crules (any-none _ crules r) d))

each :
    (f : Opcode → Bool) (cr : CompiledRule)
    → ((op : Opcode) → IsOverridable op → f op ≡ false)
    → IsCascaded cr
    → any (λ (i : Instr). f i.op) cr.instrs ≡ false
each f cr holds (plain, single, ops) =
    none-any (λ (i : Instr). f i.op) cr.instrs (All-map cr.instrs (λ i h. holds i.op h) ops)

three : (a b c : Bool) → (a || b || c) ≡ false → (a ≡ false) × (b ≡ false) × (c ≡ false)
three a b c h = (ground (arith, h), ground (arith, h), ground (arith, h))

-- `vm_dred_eligible` admits a program exactly when all its relations are fixed and every rule is
-- neither recursive nor aggregate and has only opcodes that the over-delete cascade handles: none of
-- the walk, the permuted lookup, the hash join, the materializations, the list builtins and the range.
pub vm_dred_eligible_lem :
    (d : Program)
    → (vm_dred_eligible d ≡ true)
      ↔ (All (λ (k : RelKind). k ≡ fixed) d.rels × All IsCascaded d.crules)
unfolding has_builtin db_has_variadic db_has_list_builtin db_has_range_builtin
vm_dred_eligible_lem d = (
  (λ run.
      let (plain, rules) = (dred_eligible_stage d).0 run in
      let (v, l, r) = three _ _ _ plain in
      (All-map d.rels fixed_lem (any-none is_variadic d.rels v), rules_cascade d.crules l r rules)),
  (λ (rels, rules).
      let v = none-any is_variadic d.rels (All-map d.rels variadic_lem rels) in
      let l =
        none-any _ d.crules (
          All-map d.crules (λ cr. each is_list_op cr (λ op h. (overridable_stage op h).0)) rules) in
      let r =
        none-any _ d.crules (
          All-map d.crules (λ cr. each is_range_op cr (λ op h. (overridable_stage op h).1))
            rules) in
      (dred_eligible_stage d).1 (
        rw (v, l, r) refl,
        All-map d.crules
            (λ cr (plain, single, ops).
              (plain, single, All-map cr.instrs (λ i h. (overridable_stage i.op h).2) ops))
            rules,
      )),
)

-- Rules that are not recursive mark no recursive head.
mark_one :
    (cr : CompiledRule) (h : Heads)
    → cr.is_recursive ≡ false
    → (mark_head cr h).is_rec_head ≡ h.is_rec_head
unfolding mark_head
mark_one cr h plain = elim (Bool-cases (leb max_rels cr.head_rel_id)) [
  | inl large ↦ rw large refl
  | inr small ↦ rw (small, plain) refl
]

mark_none :
    (crules : List CompiledRule) (h : Heads)
    → All (λ (cr : CompiledRule). cr.is_recursive ≡ false) crules
    → (mark_heads crules h).is_rec_head ≡ h.is_rec_head
unfolding mark_heads
mark_none [] h plain = refl
mark_none (cr ∷ crules) h (first, rest) =
    mark_none crules (mark_head cr h) rest ∙ mark_one cr h first

no_stratum :
    (crules : List CompiledRule) (cr : CompiledRule) (rel : ℕ)
    → All (λ (r : CompiledRule). r.is_recursive ≡ false) crules
    → same_stratum (mark_heads crules no_heads) cr rel ≡ false
unfolding same_stratum
no_stratum crules cr rel plain =
    rw (mark_none crules no_heads plain, get_or-replicate 64 rel false) refl

ivm_dred_instr :
    (crules : List CompiledRule) (cr : CompiledRule) (i : Instr)
    → All (λ (r : CompiledRule). r.is_recursive ≡ false) crules
    → ivm_refuses (mark_heads crules no_heads) cr i ≡ false
    → dred_refuses i.op ≡ false
unfolding ivm_refuses
ivm_dred_instr crules cr i plain h =
    let scan : Bool =
      cr.is_recursive
      && not (leb max_rels i.a)
      && get_or (mark_heads crules no_heads).is_rule_head i.a false
      && not (same_stratum (mark_heads crules no_heads) cr i.a) in
    ivm_dred_op scan i.op (
      ap (λ (perm : Bool). ivm_refuses_op perm scan i.op)
        (sym (always (leb max_rels i.a) _ (no_stratum crules cr i.a plain)))
      ∙ h)
  where
    always : (a b : Bool) → b ≡ false → (a || not b) ≡ true
    always a b e = ground arith

dred_rules :
    (all crules : List CompiledRule)
    → All (λ (r : CompiledRule). r.is_recursive ≡ false) all
    → All (λ (r : CompiledRule). r.is_recursive ≡ false) crules
    → All (λ (r : CompiledRule). ivm_refuses_rule (mark_heads all no_heads) r ≡ false) crules
    → All IsDredRule crules
unfolding ivm_refuses_rule
dred_rules all [] none_rec plain rules = tt
dred_rules all (cr ∷ crules) none_rec (first, plain) (this, rules) =
    let (single, ops) =
      both_false cr.has_aggregate (any (ivm_refuses (mark_heads all no_heads) cr) cr.instrs) this in
    (
      (
        first,
        single,
        All-map cr.instrs (λ i. ivm_dred_instr all cr i none_rec)
            (any-none (ivm_refuses (mark_heads all no_heads) cr) cr.instrs ops),
      ),
      dred_rules all crules none_rec plain rules,
    )

-- A program that `vm_ivm_eligible` admits and that has no recursive rule is one that
-- `vm_dred_eligible` admits too.
pub ivm-dred :
    (d : Program)
    → vm_ivm_eligible d ≡ true
    → vm_has_recursive d ≡ false
    → vm_dred_eligible d ≡ true
unfolding vm_ivm_eligible vm_has_recursive
ivm-dred d admitted plain =
    let none_rec = any-none (λ (cr : CompiledRule). cr.is_recursive) d.crules plain in
    let (builtin, rules) =
      split (has_builtin d) (any (ivm_refuses_rule (mark_heads d.crules no_heads)) d.crules)
        admitted in
    (dred_eligible_stage d).1 (
      builtin,
      dred_rules d.crules d.crules none_rec none_rec
          (any-none (ivm_refuses_rule (mark_heads d.crules no_heads)) d.crules rules),
    )
  where
    split : (a b : Bool) → (if a then false else not b) ≡ true → (a ≡ false) × (b ≡ false)
    split a b h = ground arith
