-- ===== src/TupleSet/Add.antt =====
-- `ts_add` keeps the tuple set well formed on every branch.
use datalog_dafsa.Base.{
  ℕ, ◌*◌, ◌%◌, ◌^◌, ◌≤◌, ◌<◌, ◌≡◌, refl, ap, ◌⊎◌, inl, inr, false, none, some, [], ◌∷◌, ◌++◌, arith,
  if◌then◌else◌, ltb, ◌==◌, ==_ne, length, Bool-cases, Ret, err, ret, Mem,
}
use datalog_dafsa.TupleSet.{Row, TupleSet, grow_rows, ts_add}
use datalog_dafsa.TupleSet.Contains.{IsIn, IsUnused, IsUsed, IsValid, ts_hash_find-Finds}
use datalog_dafsa.TupleSet.Append.{add_row_lem}

-- What a call of `ts_add` may do: report a duplicate and change nothing, append the new row, or
-- fail with the same rows.
abbrev pub Adds : TupleSet → Row → TupleSet → Ret → Type 0
Adds ts cols ts' code =
    ((code ≡ ret 0) × IsIn cols ts.rows × (ts' ≡ ts))
    ⊎ ((code ≡ ret 1) × (¬ IsIn cols ts.rows) × (ts'.rows ≡ ts.rows ++ cols ∷ []))
    ⊎ ((code ≡ err) × (¬ IsIn cols ts.rows) × (ts'.rows ≡ ts.rows))

-- A larger buffer changes nothing else.
recap :
    (ts : TupleSet) (c : ℕ)
    → IsUnused ts ⊎ IsUsed ts
    → IsUnused (record ts { cap = c }) ⊎ IsUsed (record ts { cap = c })
recap ts c (inl u) = inl (record { no_cap = u.no_cap; no_cells = u.no_cells; no_rows = u.no_rows })
recap ts c (inr u) =
    inr (record { index = u.index; room = u.room; large = u.large; small = u.small })

rows_small : (ts : TupleSet) → IsValid ts → length ts.rows ≤ 2 ^ 30
rows_small ts valid = elim valid.table [
  | inl unused ↦ omega (arith, ap length unused.no_rows)
  | inr used ↦ omega (arith, used.room, used.small)
]

nc_lem :
    (count cap : ℕ)
    → count ≤ cap
    → count ≤ 2 ^ 30
    → ltb count cap ≡ false
    → (count < (if cap == 0 then 1024 else cap * 2 % 2 ^ 64))
      × ((if cap == 0 then 1024 else cap * 2 % 2 ^ 64) ≤ 2 ^ 31)
nc_lem count cap held small full = ground arith

grow_rows_lem :
    (mem : Mem) (ts : TupleSet)
    → IsValid ts
    → (grow_rows mem ts ≡ none)
      ⊎ ((c : ℕ) × (grow_rows mem ts ≡ some (record ts { cap = c }))
          × (length ts.rows < c)
          × (c ≤ 2 ^ 31))
unfolding grow_rows
grow_rows_lem mem ts valid =
    let fits = nc_lem (length ts.rows) ts.cap valid.held (rows_small ts valid) in
    let nc : ℕ = if ts.cap == 0 then 1024 else ts.cap * 2 % 2 ^ 64 in
    elim (Bool-cases (ltb (length ts.rows) ts.cap)) [
      | inl roomy ↦ inr (ts.cap, rw roomy, ground arith, valid.small)
      | inr full ↦ elim (Bool-cases (mem.realloc_ok (nc * ts.arity * 4))) [
        | inr refused ↦ inl (rw (full, refused))
        | inl granted ↦ inr (nc, rw (full, granted), (fits full).0, (fits full).1)
      ]
    ]

-- `ts_add` ends on every valid set, in a valid set: it reports a duplicate and changes nothing,
-- appends a row that was not there, or fails and keeps the rows.
pub ts_add-IsValid :
    (mem : Mem) (ts : TupleSet) (cols : Row)
    → IsValid ts
    → (ts' : TupleSet) × (code : Ret) × (ts_add mem ts cols ≡ some (ts', code))
      × IsValid ts'
      × Adds ts cols ts' code
unfolding ts_add
ts_add-IsValid mem ts cols valid = elim (ts_hash_find-Finds ts cols valid) [
  | inr (s, run, nz, present) ↦
      (ts, ret 0, rw (run, ==_ne s 0 nz), valid, inl (refl, present, refl))
  | inl (run, new) ↦ elim (grow_rows_lem mem ts valid) [
    | inl refused ↦ (ts, err, rw (run, refused), valid, inr (inr (refl, new, refl)))
    | inr (c, grown, room, small) ↦
        let (ts', code, added, valid', result) =
          add_row_lem mem (record ts { cap = c }) cols valid.distinct (recap ts c valid.table) room
            small new in
        (
          ts',
          code,
          rw (run, grown) added,
          valid',
          elim result [
            | inl (one, rows) ↦ inr (inl (one, new, rows))
            | inr (bad, rows) ↦ inr (inr (bad, new, rows))
          ],
        )
  ]
]
