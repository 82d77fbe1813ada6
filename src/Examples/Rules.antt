-- ===== src/Examples/Rules.antt =====
-- Runs of the schema and of the rule machine, and their theorems on them.
use datalog_dafsa.Base.{
  ◌≡◌, refl, ◌⊎◌, ◌↔◌, true, false, none, some, [], ◌∷◌, All, arith, replicate, set, words_eq, ret,
}
use datalog_dafsa.Schema.{
  ColSpec, Schema, natural, enumeration, values_eq, colspec_eq, schema_find, schema_add,
}
use datalog_dafsa.Schema.Laws.{Adds, schema_add-Adds}
use datalog_dafsa.Vm.{
  op_scan, op_list_car, op_project, Instr, CompiledRule, Program, Bindings, b_get, b_ok, fixed, any,
  mark_head, mark_heads, has_builtin, RelKind, db_has_variadic, db_has_list_builtin,
  db_has_range_builtin, same_stratum, ivm_refuses, ivm_refuses_rule, vm_ivm_eligible,
  vm_has_recursive, vm_dred_eligible, bind_row,
}
use datalog_dafsa.Vm.Binding.{Keeps, Holds, IsWide, bind_row_lem}
use datalog_dafsa.TermStore.Lists.{Lists}
use datalog_dafsa.Vm.Steps.{Splits, list_ops-Splits}
use datalog_dafsa.Examples.Terms.{one_list, seven, one_list-IsValid}
use datalog_dafsa.Vm.Eligible.{IsCascaded, vm_dred_eligible_lem}

abbrev no_rels : Schema
no_rels = record { rels = [] }

abbrev number : ColSpec
number = record { tag = natural; elem = natural; evalues = []; n_evalues = 0 }

schema_add-Adds_example :
    Adds no_rels
      (101 ∷ 100 ∷ [])
      2
      (number ∷ number ∷ [])
      false
      (schema_add no_rels (101 ∷ 100 ∷ []) 2 (number ∷ number ∷ []) false)
schema_add-Adds_example =
    schema_add-Adds no_rels (101 ∷ 100 ∷ []) 2 (number ∷ number ∷ []) false (omega arith)

-- A name of 70 bytes is stored as its first 63, and so is added twice.
long_twice :
    (let (s, _) = schema_add no_rels (replicate 70 97) 1 (number ∷ []) false in
      (schema_add s (replicate 70 97) 1 (number ∷ []) false).1)
    ≡ ret 0
unfolding schema_add schema_find words_eq
long_twice = refl

-- p(X, Y) :- e(X, Y).
abbrev copy_rule : CompiledRule
copy_rule = record {
  head_rel_id = 1;
  instrs =
      record { op = op_scan; a = 0; b = 0; c = 0; imm = 0; slots = 0 ∷ 1 ∷ []; body_idx = 0 }
      ∷ record { op = op_project; a = 1; b = 2; c = 0; imm = 0; slots = 0 ∷ 1 ∷ []; body_idx = 0 }
      ∷ [];
  stratum = 0;
  is_recursive = false;
  has_aggregate = false;
}

abbrev copy_program : Program
copy_program = record { rels = fixed ∷ fixed ∷ []; crules = copy_rule ∷ [] }

vm_dred_eligible_lem_example :
    (vm_dred_eligible copy_program ≡ true)
    ↔ (All (λ (k : RelKind). k ≡ fixed) copy_program.rels × All IsCascaded (copy_rule ∷ []))
vm_dred_eligible_lem_example = vm_dred_eligible_lem copy_program

copy_ivm : vm_ivm_eligible copy_program ≡ true
unfolding vm_ivm_eligible ivm_refuses_rule ivm_refuses same_stratum mark_heads mark_head has_builtin
    db_has_variadic db_has_list_builtin db_has_range_builtin any
copy_ivm = refl

copy_plain : vm_has_recursive copy_program ≡ false
unfolding vm_has_recursive any
copy_plain = refl

abbrev free : Bindings
free = record { vals = replicate 64 0; valid = replicate 64 false }

-- e(X, X) against the row (4, 5).
abbrev diagonal : Instr
diagonal = record { op = op_scan; a = 0; b = 0; c = 0; imm = 0; slots = 3 ∷ 3 ∷ []; body_idx = 0 }

bind_row_lem_example :
    ((b' : Bindings) × (bind_row diagonal (4 ∷ 5 ∷ []) 2 0 free ≡ some b')
      × IsWide b'
      × Keeps free b'
      × Holds diagonal (4 ∷ 5 ∷ []) 2 0 b')
    ⊎ ((bind_row diagonal (4 ∷ 5 ∷ []) 2 0 free ≡ none)
        × ((b' : Bindings) → Keeps free b' → ¬ Holds diagonal (4 ∷ 5 ∷ []) 2 0 b'))
bind_row_lem_example = bind_row_lem diagonal (4 ∷ 5 ∷ []) 2 0 free (refl, refl)

-- A slot that holds the list [7].
abbrev list_slot : Bindings
list_slot = record { vals = set (replicate 64 0) 0 seven; valid = set (replicate 64 false) 0 true }

abbrev split : Instr
split = record { op = op_list_car; a = 0; b = 0; c = 1; imm = 0; slots = []; body_idx = 0 }

slot_seven : Lists one_list (b_get list_slot 0) (7 ∷ [])
unfolding b_get b_ok
slot_seven = (1, omega arith, omega arith, refl, refl, refl)

list_ops-Splits_example : Splits split one_list list_slot (7 ∷ [])
list_ops-Splits_example =
    list_ops-Splits split one_list list_slot (7 ∷ []) one_list-IsValid (refl, refl) slot_seven

abbrev colour : ColSpec
colour = record {
  tag = enumeration;
  elem = natural;
  evalues = (114 ∷ []) ∷ (98 ∷ []) ∷ (103 ∷ []) ∷ [];
  n_evalues = 2;
}

-- The same values but for one that the count leaves out.
abbrev colour_spare : ColSpec
colour_spare = record colour { evalues = (114 ∷ []) ∷ (98 ∷ []) ∷ [] }

colour_same : colspec_eq colour colour_spare ≡ true
unfolding colspec_eq values_eq words_eq
colour_same = refl
