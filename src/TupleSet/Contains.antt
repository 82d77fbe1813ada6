-- ===== src/TupleSet/Contains.antt =====
-- The invariant of a tuple set, `ts_hash_find` and `ts_contains`.
use datalog_dafsa.Base.{
  ℕ, suc, ◌-◌, ◌^◌, ◌≤◌, ◌<◌, ◌≡◌, ◌≢◌, ap, ◌∙◌, ◌⊎◌, inl, inr, Option, some, List, [], arith, ◌==◌,
  ==_ne, length, get_or, Bool-cases, ret, subst,
}
use datalog_dafsa.TupleSet.{Row, TupleSet, probe_row, ts_hash_find, ts_contains}
use datalog_dafsa.TupleSet.Table.{probe_cell, probe_sound, probe_total}
use datalog_dafsa.TupleSet.Valid.{IsDistinct, Indexes}

abbrev pub IsIn : Row → List Row → Type 0
IsIn cols rows = (i : ℕ) × (i < length rows) × (get_or rows i [] ≡ cols)

-- No table yet, and so no row.
pub record IsUnused (ts : TupleSet) : Type 0 where
  pub no_cap : ts.hcap ≡ 0
  pub no_cells : ts.htab ≡ []
  pub no_rows : ts.rows ≡ []

-- A table that answers for every row and has an empty cell.
pub record IsUsed (ts : TupleSet) : Type 0 where
  pub index : Indexes ts.rows (length ts.rows) ts.htab ts.hcap
  pub room : length ts.rows < ts.hcap
  pub large : 16 ≤ ts.hcap
  pub small : ts.hcap ≤ 2 ^ 30

-- The invariant of the tuple set.
pub record IsValid (ts : TupleSet) : Type 0 where
  pub distinct : IsDistinct ts.rows
  pub table : IsUnused ts ⊎ IsUsed ts
  pub held : length ts.rows ≤ ts.cap
  pub small : ts.cap ≤ 2 ^ 31

-- What `ts_hash_find` answers: 0 exactly for a row that is not there.
abbrev pub Finds : List Row → Row → Option ℕ → Type 0
Finds rows cols r =
    ((r ≡ some 0) × ¬ IsIn cols rows) ⊎ ((s : ℕ) × (r ≡ some s) × (s ≢ 0) × IsIn cols rows)

-- A row of the set is found under its number.
row_found :
    (ts : TupleSet) (cols : Row) (i : ℕ)
    → IsUsed ts
    → i < length ts.rows
    → get_or ts.rows i [] ≡ cols
    → probe_row ts.rows ts.htab ts.hcap cols ≡ some (suc i)
row_found ts cols i used inside here =
    let number : suc i - 1 ≡ i = omega arith in
    subst (λ c. probe_row ts.rows ts.htab ts.hcap c ≡ some (suc i))
      (ap (λ (t : ℕ). get_or ts.rows t []) number ∙ here)
      (used.index.found (suc i) (omega arith) (omega arith))

used-Finds :
    (ts : TupleSet) (cols : Row)
    → IsUsed ts
    → Finds ts.rows cols (probe_row ts.rows ts.htab ts.hcap cols)
used-Finds ts cols used =
    let t = used.index in
    let (s, run) =
      probe_total t.pow (omega arith) ts.htab t.width (omega (arith, t.fill, used.room)) ts.rows
        cols in
    elim (Bool-cases (s == 0)) [
      | inl zero_slot ↦
          let e : s ≡ 0 = ground arith in
          inl (
            run ∙ ap some e,
            λ (i, inside, here).
                let number : s ≡ suc i = cc (run, row_found ts cols i used inside here) in
                absurd (omega arith),
          )
      | inr slot ↦
          let nz : s ≢ 0 = ground arith in
          let (j, _, is_s) = probe_cell ts.rows ts.htab ts.hcap cols s run in
          let bound : s ≤ length ts.rows =
            subst (λ (x : ℕ). x ≤ length ts.rows) is_s (t.within j) in
          inr (s, run, nz, (s - 1, omega arith, probe_sound ts.rows ts.htab ts.hcap cols s run nz))
    ]

pub ts_hash_find-Finds :
    (ts : TupleSet) (cols : Row) → IsValid ts → Finds ts.rows cols (ts_hash_find ts cols)
unfolding ts_hash_find
ts_hash_find-Finds ts cols valid = elim valid.table [
  | inl unused ↦
      inl (rw unused.no_cap, λ (i, inside, _). absurd (omega (arith, ap length unused.no_rows)))
  | inr used ↦ rw (==_ne ts.hcap 0 (omega (arith, used.room))) (used-Finds ts cols used)
]

-- `ts_contains` returns 1 for a row of the set and 0 for any other.
pub ts_contains_lem :
    (ts : TupleSet) (cols : Row)
    → IsValid ts
    → ((ts_contains ts cols ≡ some (ret 1)) × IsIn cols ts.rows)
      ⊎ ((ts_contains ts cols ≡ some (ret 0)) × ¬ IsIn cols ts.rows)
unfolding ts_contains
ts_contains_lem ts cols valid = elim (Bool-cases (length ts.rows == 0)) [
  | inl empty ↦ inr (rw empty, λ (i, inside, _). absurd (ground arith))
  | inr some_rows ↦ elim (ts_hash_find-Finds ts cols valid) [
    | inl (run, out) ↦ inr (rw (some_rows, run), out)
    | inr (s, run, nz, inside) ↦ inl (rw (some_rows, run, ==_ne s 0 nz), inside)
  ]
]
