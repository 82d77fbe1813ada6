-- ===== src/Access/Table.antt =====
-- The relation table under names, as zig/src/dl.zig searches and updates it, and the Boolean tests of
-- its guards.
use datalog_dafsa.Base.{
  ℕ, suc, ◌≡◌, refl, sym, ◌∙◌, Bool, true, false, ◌||◌, Option, none, some, List, [], ◌∷◌, ◌++◌,
  if◌then◌else◌, ◌==◌, set, words_eq, words_eq→eq, words_eq_refl, Bool-cases, inl, inr, ◌⊎◌,
}
use datalog_dafsa.TupleSet.{Row, ◌>>=◌}
use datalog_dafsa.Relation.{is_word}
use datalog_dafsa.Vrelation.{RelEntry, entry_at}
use datalog_dafsa.TxnWal.{Bytes}
use datalog_dafsa.Txn.{find_rel, name_of}

twice_stage :
    {A : Type 0} (b : Bool) (x y z : A)
    → (if b then x else z) ≡ (if b then x else if b then y else z)
twice_stage true x y z = refl
twice_stage false x y z = refl

-- Two tests that do not both hold may be made in either order.
order_stage :
    {A : Type 0} (p q : Bool) (x y z : A)
    → ((p ≡ true) → q ≡ false)
    → (if p then x else if q then y else z) ≡ (if q then y else if p then x else z)
order_stage true true x y z h = let clash : true ≡ false = h refl in cc
order_stage true false x y z h = refl
order_stage false true x y z h = refl
order_stage false false x y z h = refl

suc_stage :
    (i : Option ℕ) (idx : ℕ)
    → (i >>= λ j. some (suc j)) ≡ some idx
    → (j : ℕ) × (idx ≡ suc j) × (i ≡ some j)
suc_stage none idx h = cc
suc_stage (some j) idx h = let found : some (suc j) ≡ some idx = h in (j, cc, refl)

not_named :
    (x name nm : Bytes) → words_eq x name ≡ false → words_eq x nm ≡ true → words_eq name nm ≡ false
not_named x name nm other here = elim (Bool-cases (words_eq name nm)) [
  | inr apart ↦ apart
  | inl same ↦
      let clash : words_eq x name ≡ true =
        rw (words_eq→eq x nm here ∙ sym (words_eq→eq name nm same)) (words_eq_refl name) in
      cc
]

pub or_middle : (x w y : Bool) → (x || (w || y)) ≡ (w || (x || y))
or_middle true true y = refl
or_middle true false y = refl
or_middle false w y = refl

pub is_word-append :
    (c cols : Row) (rows : List Row)
    → is_word c (rows ++ cols ∷ []) ≡ (words_eq c cols || is_word c rows)
unfolding is_word
is_word-append c cols [] = refl
is_word-append c cols (v ∷ rows) =
    rw (is_word-append c cols rows) (or_middle (words_eq c v) (words_eq c cols) (is_word c rows))

pub guard_stage :
    {A B : Type 0} (frozen : Bool) (txn : Option B) (reserved : Bool) (x y : A)
    → let guarded : A =
        if frozen then x else elim txn [ some ops ↦ x | none ↦ if reserved then x else y ] in
      (guarded ≡ x) ⊎ (guarded ≡ y)
guard_stage true txn reserved x y = inl refl
guard_stage false (some ops) reserved x y = inl refl
guard_stage false none true x y = inl refl
guard_stage false none false x y = inr refl

pub flag_stage : (b : Bool) → let n : ℕ = if b then 0 else 1 in (if n == 1 then 1 else 0) ≡ n
flag_stage true = refl
flag_stage false = refl

module _ {D : Type 0} where
  abbrev pub at_name : List (RelEntry D) → Bytes → Option (RelEntry D)
  at_name rels nm = find_rel rels nm >>= λ idx. entry_at rels idx

  later_stage :
      (e : RelEntry D) (rels : List (RelEntry D)) (i : Option ℕ)
      → ((i >>= λ j. some (suc j)) >>= λ idx. entry_at (e ∷ rels) idx)
        ≡ (i >>= λ idx. entry_at rels idx)
  unfolding entry_at
  later_stage e rels none = refl
  later_stage e rels (some j) = refl

  at_name_cons :
      (e : RelEntry D) (rels : List (RelEntry D)) (nm : Bytes)
      → at_name (e ∷ rels) nm ≡ (if words_eq (name_of e) nm then some e else at_name rels nm)
  unfolding find_rel entry_at
  at_name_cons e rels nm = elim (Bool-cases (words_eq (name_of e) nm)) [
    | inl here ↦ rw (here, find_rel) refl
    | inr later ↦ rw (later, find_rel) (later_stage e rels (find_rel rels nm))
  ]

  find_cons :
      (e : RelEntry D) (rels : List (RelEntry D)) (name : Bytes) (idx : ℕ)
      → find_rel (e ∷ rels) name ≡ some idx
      → ((words_eq (name_of e) name ≡ true) × (idx ≡ 0))
        ⊎ ((words_eq (name_of e) name ≡ false)
            × ((j : ℕ) × (idx ≡ suc j) × (find_rel rels name ≡ some j)))
  unfolding find_rel
  find_cons e rels name idx found = elim (Bool-cases (words_eq (name_of e) name)) [
    | inl here ↦
        let first : some 0 ≡ some idx = sym (rw (here, find_rel) refl) ∙ found in inl (here, cc)
    | inr later ↦
        inr (later, suc_stage (find_rel rels name) idx (sym (rw (later, find_rel) refl) ∙ found))
  ]

  -- The first entry with a name is changed, and keeps the name.
  pub at_name-set :
      (rels : List (RelEntry D)) (name nm : Bytes) (idx : ℕ) (e' : RelEntry D)
      → find_rel rels name ≡ some idx
      → name_of e' ≡ name
      → at_name (set rels idx e') nm ≡ (if words_eq name nm then some e' else at_name rels nm)
  unfolding find_rel
  at_name-set [] name nm idx e' found named = cc
  at_name-set (e ∷ rels) name nm idx e' found named = elim (find_cons e rels name idx found) [
    | inl (here, same) ↦
        let e-name : name_of e ≡ name = words_eq→eq (name_of e) name here in
        rw same (
          at_name_cons e' rels nm
          ∙ rw (named, at_name_cons e rels nm, e-name)
              (twice_stage (words_eq name nm) (some e') (some e) (at_name rels nm)))
    | inr (other, (j, same, later)) ↦ rw same (
        at_name_cons e (set rels j e') nm
        ∙ rw (at_name_cons e rels nm, at_name-set rels name nm j e' later named)
            (order_stage (words_eq (name_of e) nm) (words_eq name nm) (some e) (some e')
              (at_name rels nm) (λ here. not_named (name_of e) name nm other here)))
  ]
