-- ===== src/Vm/Steps.antt =====
-- The equality and list instructions of zig/src/vm.zig: `OP_EQ`, `OP_EQ_CONST`, and the list
-- instructions on the term store. The result is the bindings after the instruction, or `none`
-- where the machine backtracks.
use datalog_dafsa.Base.{
  ℕ, ◌≡◌, refl, sym, ap, ◌∙◌, subst, true, false, not, ◌||◌, Option, none, some, List, [], ◌∷◌,
  arith, if◌then◌else◌, ◌==◌, ==_ne, get_or, Mem,
}
use datalog_dafsa.TermStore.{
  TermStore, nil_node, term_nil, term_is_list, term_car, term_cdr, term_cons, term_append,
}
use datalog_dafsa.TermStore.Valid.{IsValid}
use datalog_dafsa.TermStore.Lists.{Lists, few_nodes, is_list-handle, IsHandle-of, cdr_node}
use datalog_dafsa.TermStore.Joined.{car_node}
use datalog_dafsa.Vm.{Instr, Bindings, b_try, b_ok, b_get}
use datalog_dafsa.Vm.Binding.{IsWide, Tries, b_try-Tries}

-- `_ = bTry(...)`: a failed attempt leaves the bindings.
abbrev pub b_try_or_keep : Bindings → ℕ → ℕ → Bindings
b_try_or_keep b s v = elim (b_try b s v) [ none ↦ b | some next ↦ next ]

unfoldable pub exec_eq : Instr → Bindings → Option Bindings
exec_eq i b =
    if b_ok b i.a
    then (if b_ok b i.b
        then (if b_get b i.a == b_get b i.b then some b else none)
        else some (b_try_or_keep b i.b (b_get b i.a)))
    else if b_ok b i.b
    then some (b_try_or_keep b i.a (b_get b i.b))
    else some b

unfoldable pub exec_eq_const : Instr → Bindings → Option Bindings
exec_eq_const i b =
    if b_ok b i.a
    then (if b_get b i.a == i.imm then some b else none)
    else some (b_try_or_keep b i.a i.imm)

-- The store and the bindings after an instruction that makes a list; the outer `none` means that a
-- loop of the store ran out of fuel.
abbrev pub bind_handle : Bindings → ℕ → TermStore × ℕ → TermStore × Option Bindings
bind_handle b s (t, h) = (t, if h == 0 then none else b_try b s h)

unfoldable pub exec_list_cons :
    Mem → Instr → TermStore → Bindings → Option (TermStore × Option Bindings)
exec_list_cons mem i t b = elim (term_cons mem t (b_get b i.b) (b_get b i.c)) [
  | none ↦ none
  | some made ↦ some (bind_handle b i.a made)
]

unfoldable pub exec_list_append :
    Mem → Instr → TermStore → Bindings → Option (TermStore × Option Bindings)
exec_list_append mem i t b = elim (term_append mem t (b_get b i.a) (b_get b i.b)) [
  | none ↦ none
  | some made ↦ some (bind_handle b i.c made)
]

unfoldable pub exec_list_car : Instr → TermStore → Bindings → Option Bindings
exec_list_car i t b =
    if not (term_is_list t (b_get b i.a)) || (b_get b i.a == term_nil)
    then none
    else b_try b i.c (term_car t (b_get b i.a))

unfoldable pub exec_list_cdr : Instr → TermStore → Bindings → Option Bindings
exec_list_cdr i t b =
    if not (term_is_list t (b_get b i.a)) || (b_get b i.a == term_nil)
    then none
    else b_try b i.c (term_cdr t (b_get b i.a))

cons_stage :
    (i : Instr) (t : TermStore) (b : Bindings)
    → term_is_list t (b_get b i.a) ≡ true
    → (b_get b i.a == term_nil) ≡ false
    → (exec_list_car i t b ≡ b_try b i.c (term_car t (b_get b i.a)))
      × (exec_list_cdr i t b ≡ b_try b i.c (term_cdr t (b_get b i.a)))
unfolding exec_list_car exec_list_cdr
cons_stage i t b is_list more = (rw (is_list, more) refl, rw (is_list, more) refl)

-- What `OP_LIST_CAR` and `OP_LIST_CDR` do to a list.
abbrev pub Splits : Instr → TermStore → Bindings → List ℕ → Type 0
Splits i t b [] = (exec_list_car i t b ≡ none) × (exec_list_cdr i t b ≡ none)
Splits i t b (x ∷ xs) =
    (tail : ℕ) × Lists t tail xs
    × Tries b i.c x (exec_list_car i t b)
    × Tries b i.c tail (exec_list_cdr i t b)

nil_stage :
    (i : Instr) (t : TermStore) (b : Bindings)
    → term_is_list t (b_get b i.a) ≡ true
    → (b_get b i.a == term_nil) ≡ true
    → Splits i t b []
unfolding exec_list_car exec_list_cdr
nil_stage i t b is_list is_nil = (rw (is_list, is_nil) refl, rw (is_list, is_nil) refl)

-- On a valid store and an operand slot that holds a handle of a list: `OP_LIST_CAR` and
-- `OP_LIST_CDR` backtrack if the list is empty; otherwise they bind the result slot to the first
-- element, and to a handle of the rest, or backtrack where no bindings that keep the given ones
-- have that value there.
pub list_ops-Splits :
    (i : Instr) (t : TermStore) (b : Bindings) (xs : List ℕ)
    → IsValid t
    → IsWide b
    → Lists t (b_get b i.a) xs
    → Splits i t b xs
list_ops-Splits i t b [] valid wide is_nil =
    nil_stage i t b
      (is_list-handle t (b_get b i.a) (IsHandle-of t [] (b_get b i.a) valid is_nil)
        (few_nodes t valid))
      (ap (λ (v : ℕ). v == term_nil) is_nil)
list_ops-Splits i t b (x ∷ xs) valid wide (k, low, inside, is_k, top, rest) =
    let few = few_nodes t valid in
    let (car_run, cdr_run) =
      cons_stage i t b (is_list-handle t (b_get b i.a) (k, inside, is_k) few)
        (==_ne (b_get b i.a) term_nil (omega arith)) in
    let car : term_car t (b_get b i.a) ≡ x =
      ap (term_car t) is_k ∙ car_node t k low inside few ∙ top in
    let cdr : term_cdr t (b_get b i.a) ≡ (get_or t.nodes k nil_node).tail =
      ap (term_cdr t) is_k ∙ cdr_node t k low inside few in
    (
      (get_or t.nodes k nil_node).tail,
      rest,
      subst (Tries b i.c x) (sym (car_run ∙ ap (b_try b i.c) car)) (b_try-Tries b i.c x wide),
      subst (Tries b i.c (get_or t.nodes k nil_node).tail) (sym (cdr_run ∙ ap (b_try b i.c) cdr))
          (b_try-Tries b i.c _ wide),
    )
