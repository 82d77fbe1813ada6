-- ===== src/TupleSet/Reset.antt =====
-- `ts_init` and `ts_reset` give valid empty sets.
use datalog_dafsa.Base.{
  ℕ, zero, suc, ◌<◌, ◌≡◌, refl, ap, ◌∙◌, ◌⊎◌, inl, inr, ◌||◌, Option, none, some, List, [], arith,
  ◌==◌, ltb, length, replicate, length-replicate, get_or-replicate, Bool-cases,
}
use datalog_dafsa.Probe.{occupied}
use datalog_dafsa.TupleSet.{TupleSet, ts_init, ts_reset}
use datalog_dafsa.TupleSet.Contains.{IsValid, IsUsed, IsUnused}

-- A set without rows.
abbrev pub IsBlank : ℕ → TupleSet → Type 0
IsBlank arity ts = IsValid ts × (ts.rows ≡ []) × (ts.arity ≡ arity)

-- The two results of `ts_init`.
abbrev pub Inits : ℕ → Option TupleSet → Type 0
Inits arity r =
    ((r ≡ none) × ((arity ≡ 0) ⊎ (8 < arity)))
    ⊎ ((ts : TupleSet) × (r ≡ some ts) × IsBlank arity ts)

-- `ts_init` gives a valid empty set for an arity from 1 to 8, and refuses any other.
pub ts_init_lem : (arity : ℕ) → Inits arity (ts_init arity)
unfolding ts_init
ts_init_lem arity = elim (Bool-cases ((arity == 0) || ltb 8 arity)) [
  | inl refused ↦ inl (rw refused refl, ground arith)
  | inr granted ↦ inr (
    record { rows = []; cap = 0; arity = arity; htab = []; hcap = 0; hused = 0 },
    rw granted refl,
    (
      record {
        distinct = λ i j inside _ _. absurd (omega arith);
        table = inl (record { no_cap = refl; no_cells = refl; no_rows = refl });
        held = omega arith;
        small = omega arith;
      },
      refl,
      refl,
    ),
  )
]

occupied_none : (n : ℕ) → occupied (replicate n 0) ≡ 0
occupied_none zero = refl
occupied_none (suc n) = occupied_none n

reset_table :
    (ts : TupleSet) → IsUnused ts ⊎ IsUsed ts → IsUnused (ts_reset ts) ⊎ IsUsed (ts_reset ts)
unfolding ts_reset
reset_table ts (inl unused) = inl (record {
  no_cap = unused.no_cap;
  no_cells = ap (λ (h : List ℕ). replicate (length h) 0) unused.no_cells;
  no_rows = refl;
})
reset_table ts (inr used) = inr (record {
  index = record {
    pow = used.index.pow;
    width = length-replicate (length ts.htab) 0 ∙ used.index.width;
    fill = omega (arith, occupied_none (length ts.htab));
    within = λ j. omega (arith, get_or-replicate {A = ℕ} (length ts.htab) j 0);
    found = λ s low high. absurd (omega arith);
  };
  room = omega (arith, used.large);
  large = used.large;
  small = used.small;
})

-- `ts_reset` of a valid set is a valid empty set of the same arity, with the same table size.
pub ts_reset_lem :
    (ts : TupleSet)
    → IsValid ts
    → IsBlank ts.arity (ts_reset ts)
      × (length (ts_reset ts).htab ≡ length ts.htab)
      × ((ts_reset ts).cap ≡ ts.cap)
unfolding ts_reset
ts_reset_lem ts valid = (
  (
    record {
      distinct = λ i j inside _ _. absurd (omega arith);
      table = reset_table ts valid.table;
      held = omega arith;
      small = valid.small;
    },
    refl,
    refl,
  ),
  length-replicate (length ts.htab) 0,
  refl,
)
