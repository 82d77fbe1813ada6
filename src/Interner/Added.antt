-- ===== src/Interner/Added.antt =====
-- `intern_str` of zig/src/intern.zig: what a string without a number gets.
use datalog_dafsa.Base.{
  ℕ, zero, suc, ◌+◌, ◌-◌, ◌*◌, ◌%◌, ◌^◌, ◌≤◌, ◌<◌, ◌≡◌, ◌≢◌, refl, sym, ap, ◌∙◌, subst, Option,
  none, some, List, [], ◌∷◌, ◌++◌, if◌then◌else◌, ◌==◌, ltb, length, length-append,
  length-replicate, get_or-replicate, set, replicate, get_or-set_self, get_or-set_ne, Mem, arith,
  inl, inr, ◌⊎◌, Bool-cases, ==_refl, ==_ne,
}
use native.Mathlib.Decide.{ℕ_discrete}
use datalog_dafsa.TxnWal.{Bytes}
use datalog_dafsa.Relation.{Dafsa}
use datalog_dafsa.Interner.{Interner, grow_rev, max_word_len}
use datalog_dafsa.Interner.Keyed.{IsString}
use datalog_dafsa.Interner.Valid.{at, some_same, IsCache, IsValid}

pub at-append : (rev : List (Option Bytes)) (n j : ℕ) → at (rev ++ replicate n none) j ≡ at rev j
at-append [] n j = get_or-replicate n j none
at-append (slot ∷ rev) n zero = refl
at-append (slot ∷ rev) n (suc j) = at-append rev n j

-- The array is refused, or has room for a number and the strings that it had.
abbrev pub Grown : List (Option Bytes) → ℕ → Option (List (Option Bytes)) → Type 0
Grown rev id none = Unit {0}
Grown rev id (some rev') = (id ≤ length rev') × ((j : ℕ) → at rev' j ≡ at rev j)

pub grow_rev_lem :
    (mem : Mem) (rev : List (Option Bytes)) (id : ℕ)
    → 0 < id
    → id < 2 ^ 31
    → Grown rev id (grow_rev mem rev id)
unfolding grow_rev
grow_rev_lem mem rev id pos small = elim (Bool-cases (ltb (length rev) id)) [
  | inr roomy ↦ rw roomy (ground (arith, roomy), λ j. refl)
  | inl full ↦
      let doubled = length rev * 2 % 2 ^ 32 in
      let width : ℕ = if ltb doubled id then id * 2 % 2 ^ 32 else doubled in
      let blank : Option Bytes = none in
      let empty : List (Option Bytes) = replicate (width - length rev) blank in
      let enough : id ≤ length rev + (width - length rev) = ground (arith, full, pos, small) in
      elim (Bool-cases (mem.realloc_ok (width * 8))) [
        | inr refused ↦ rw (full, refused) tt
        | inl granted ↦
            rw (full, granted)
              (
                omega (
                  arith,
                  enough,
                  length-append rev empty,
                  length-replicate (width - length rev) blank,
                ),
                at-append rev (width - length rev),
              )
      ]
]

-- The slots once a string has the number `id`.
abbrev pub Stored : List (Option Bytes) → ℕ → Bytes → List (Option Bytes) → Type 0
Stored rev id str rev' = (j : ℕ) → at rev' j ≡ (if j == id - 1 then some str else at rev j)

pub set-Stored :
    (rev rev' : List (Option Bytes)) (id : ℕ) (str : Bytes)
    → 0 < id
    → id ≤ length rev'
    → ((j : ℕ) → at rev' j ≡ at rev j)
    → Stored rev id str (set rev' (id - 1) (some str))
set-Stored rev rev' id str pos wide same j = elim (ℕ_discrete j (id - 1)) [
  | yes own ↦
      rw (own, ==_refl (id - 1))
        (get_or-set_self rev' (id - 1) (some str) none (omega (arith, pos, wide)))
  | no apart ↦
      rw (==_ne j (id - 1) apart)
        (get_or-set_ne rev' (id - 1) j (some str) none (λ e. apart (sym e)) ∙ same j)
]

pub Stored-cases :
    (rev rev' : List (Option Bytes)) (id : ℕ) (str : Bytes)
    → Stored rev id str rev'
    → (i : ℕ) (s : Bytes) → at rev' i ≡ some s
    → ((i ≡ id - 1) × (str ≡ s)) ⊎ ((i ≢ id - 1) × (at rev i ≡ some s))
Stored-cases rev rev' id str stored i s here = elim (ℕ_discrete i (id - 1)) [
  | yes own ↦
      let e : at rev' i ≡ some str = stored i ∙ rw (own, ==_refl (id - 1)) refl in
      inl (own, some_same (sym e ∙ here))
  | no apart ↦
      let e : at rev' i ≡ at rev i = stored i ∙ rw (==_ne i (id - 1) apart) refl in
      inr (apart, sym e ∙ here)
]

-- A string that no slot has, in the slot of its number.
pub stored_lem :
    {D S : Type 0} (lib : Dafsa D S) (ir ir' : Interner D) (str : Bytes)
    → IsValid lib ir
    → IsString str
    → length str + 5 ≤ max_word_len
    → ((j : ℕ) → at ir.rev j ≢ some str)
    → ir.next_id + 1 < 2 ^ 32
    → ir'.next_id ≡ ir.next_id + 1
    → Stored ir.rev ir.next_id str ir'.rev
    → ir'.fwd_gen ≤ ir'.next_id
    → ((d : D) → ir'.fwd ≡ some d → ir'.fwd_gen ≡ ir'.next_id → IsCache lib d ir'.rev)
    → IsValid lib ir'
stored_lem lib ir ir' str v is_str fits nowhere small next stored past cache = record {
  started = omega (arith, next);
  small = omega (arith, next, small);
  vacant = λ i far.
      stored i
      ∙ rw (==_ne i (ir.next_id - 1) (λ e. omega (arith, next, far, e, v.started)))
          (v.vacant i (omega (arith, far, next)));
  texts = λ i s here. elim (slot_cases i s here) [
    | inl (own, same) ↦ subst IsString same is_str
    | inr (apart, old) ↦ v.texts i s old
  ];
  short = λ i s here. elim (slot_cases i s here) [
    | inl (own, same) ↦ subst (λ (x : Bytes). length x + 5 ≤ max_word_len) same fits
    | inr (apart, old) ↦ v.short i s old
  ];
  once = λ i j s here there. elim (slot_cases i s here) [
    | inl (own, same) ↦ elim (slot_cases j s there) [
      | inl (own', _) ↦ own ∙ sym own'
      | inr (_, old') ↦ absurd (nowhere j (old' ∙ ap some (sym same)))
    ]
    | inr (_, old) ↦ elim (slot_cases j s there) [
      | inl (_, same) ↦ absurd (nowhere i (old ∙ ap some (sym same)))
      | inr (_, old') ↦ v.once i j s old old'
    ]
  ];
  past = past;
  cache = cache;
}
  where
    slot_cases :
        (i : ℕ) (s : Bytes)
        → at ir'.rev i ≡ some s
        → ((i ≡ ir.next_id - 1) × (str ≡ s)) ⊎ ((i ≢ ir.next_id - 1) × (at ir.rev i ≡ some s))
    slot_cases i s here = Stored-cases ir.rev ir'.rev ir.next_id str stored i s here
