-- ===== src/TupleSet/Append.antt =====
-- The second half of `ts_add`: a row that is not there goes into the array and the table, with
-- the table grown where it must be.
use native.Mathlib.Decide.{dec_lt, ℕ_discrete}
use datalog_dafsa.Base.{
  ℕ, suc, ◌+◌, ◌-◌, ◌*◌, ◌%◌, ◌^◌, ◌≤◌, ◌<◌, ◌≡◌, refl, sym, ap, ◌∙◌, ◌⊎◌, inl, inr, true, false,
  some, List, [], ◌∷◌, ◌++◌, arith, length, length-append, set, length-set, get_or-append_left,
  get_or-append_end, Bool-cases, Ret, err, ret, Mem, subst,
}
use datalog_dafsa.Probe.{occupied-set}
use datalog_dafsa.TupleSet.{
  Row, TupleSet, probe_row, ts_hash_insert, table_need, is_loaded, add_slot, add_row,
}
use datalog_dafsa.TupleSet.Table.{row_of, probe_keeps, probe_append}
use datalog_dafsa.TupleSet.Valid.{IsDistinct, Indexes, insert-IsFound}
use datalog_dafsa.TupleSet.Grow.{Names, Indexes-Names, ts_hash_grow-Grows}
use datalog_dafsa.TupleSet.Contains.{IsIn, IsUnused, IsUsed, IsValid}

pub IsDistinct-append :
    (rows : List Row) (cols : Row)
    → IsDistinct rows
    → ¬ IsIn cols rows
    → IsDistinct (rows ++ cols ∷ [])
IsDistinct-append rows cols distinct new i j hi hj same = elim (dec_lt i (length rows)) [
  | yes li ↦ elim (dec_lt j (length rows)) [
    | yes lj ↦
        distinct i j li lj
          (sym (get_or-append_left rows _ i [] li) ∙ same ∙ get_or-append_left rows _ j [] lj)
    | no lj ↦
        let last =
          get_or-append_end rows cols [] j (omega (arith, length-append rows (cols ∷ []))) in
        absurd (new (i, li, sym (get_or-append_left rows _ i [] li) ∙ same ∙ last))
  ]
  | no li ↦
      let last = get_or-append_end rows cols [] i (omega (arith, length-append rows (cols ∷ []))) in
      elim (dec_lt j (length rows)) [
        | yes lj ↦ absurd (new (j, lj, sym (get_or-append_left rows _ j [] lj) ∙ sym same ∙ last))
        | no lj ↦ omega (arith, length-append rows (cols ∷ []))
      ]
]

-- A table that answers for the first rows answers for them after the append.
index_append :
    (rows : List Row) (cols : Row) (htab : List ℕ) (hcap : ℕ)
    → Indexes rows (length rows) htab hcap
    → Indexes (rows ++ cols ∷ []) (length rows) htab hcap
index_append rows cols htab hcap t = record {
  pow = t.pow;
  width = t.width;
  fill = t.fill;
  within = λ j. omega (arith, t.within j, length-append rows (cols ∷ []));
  found = λ s pos le.
      ap (probe_row (rows ++ cols ∷ []) htab hcap)
        (get_or-append_left rows _ (s - 1) [] (omega arith))
      ∙ probe_append rows (cols ∷ []) htab hcap _ t.within
      ∙ t.found s pos le;
}

add_slot_run :
    (ts : TupleSet) (cols : Row) (v : ℕ) (htab : List ℕ)
    → length ts.rows ≡ v
    → ts_hash_insert ts.htab ts.hcap cols v ≡ some htab
    → add_slot ts cols ≡ some (record ts { htab = htab; hused = (ts.hused + 1) % 2 ^ 64 }, ret 1)
unfolding add_slot
add_slot_run ts cols v htab len inserted = rw (len, inserted)

-- The last row goes into a table with an empty cell.
add_slot_lem :
    (ts : TupleSet) (n : ℕ) (cols : Row)
    → row_of ts.rows (suc n) ≡ cols
    → IsDistinct ts.rows
    → length ts.rows ≡ suc n
    → Indexes ts.rows n ts.htab ts.hcap
    → suc n < ts.hcap
    → (htab : List ℕ) × (add_slot ts cols
        ≡ some (record ts { htab = htab; hused = (ts.hused + 1) % 2 ^ 64 }, ret 1))
      × Indexes ts.rows (suc n) htab ts.hcap
add_slot_lem ts n cols here distinct len t room =
    let (e, inserted, inside, empty, new, within) =
      insert-IsFound ts.rows ts.htab ts.hcap (suc n) distinct t.pow t.width (omega (arith, t.fill))
        t.within (omega arith) (omega arith) in
    (
      set ts.htab e (suc n),
      add_slot_run ts cols (suc n) _ len
          (ap (λ (c : Row). ts_hash_insert ts.htab ts.hcap c (suc n)) (sym here) ∙ inserted),
      record {
        pow = t.pow;
        width = length-set ts.htab e (suc n) ∙ t.width;
        fill = omega (arith, occupied-set ts.htab e (suc n) (omega (arith, t.width)) empty, t.fill);
        within = within;
        found = λ s pos le. elim (ℕ_discrete s (suc n)) [
          | yes last ↦ rw last new
          | no before ↦
              probe_keeps ts.rows ts.htab ts.hcap _ s e (suc n) empty (omega arith)
                (t.found s pos (omega arith))
        ];
      },
    )

need_lem : (count : ℕ) → (count < table_need count) × (table_need count ≤ 2 * count + 16)
unfolding table_need
need_lem count = ground arith

calm_lem : (count hcap : ℕ) → is_loaded count hcap ≡ false → 16 ≤ hcap → count < hcap
unfolding is_loaded
calm_lem count hcap calm large = ground arith

unused_loaded : (count hcap : ℕ) → hcap ≡ 0 → is_loaded count hcap ≡ true
unfolding is_loaded
unused_loaded count hcap e = rw e

-- The state that `add_row` starts from: a valid set whose buffer has room for the new row.
module _ (mem : Mem) (ts : TupleSet) (cols : Row) (distinct : IsDistinct ts.rows)
    (table : IsUnused ts ⊎ IsUsed ts) (held : length ts.rows < ts.cap) (small : ts.cap ≤ 2 ^ 31)
    (new : ¬ IsIn cols ts.rows) where
  abbrev longer : TupleSet
  longer = record ts { rows = ts.rows ++ cols ∷ [] }

  longer_length : length longer.rows ≡ suc (length ts.rows)
  longer_length = omega (arith, length-append ts.rows (cols ∷ []))

  longer_last : row_of longer.rows (suc (length ts.rows)) ≡ cols
  longer_last = get_or-append_end ts.rows cols [] _ (omega arith)

  longer-IsDistinct : IsDistinct longer.rows
  longer-IsDistinct = IsDistinct-append ts.rows cols distinct new

  longer-Names : Names longer.rows (length ts.rows) ts.htab
  longer-Names = elim table [
    | inr used ↦ Indexes-Names (index_append ts.rows cols ts.htab ts.hcap used.index)
    | inl unused ↦ record {
      fill = rw unused.no_cells (omega arith);
      within = λ j. rw unused.no_cells (omega arith);
      named = λ s pos le. absurd (omega (arith, ap length unused.no_rows));
    }
  ]

  -- With an index of the old rows in `htab`, of `c` cells, the new row goes in.
  finish :
      (htab : List ℕ) (c : ℕ)
      → Indexes longer.rows (length ts.rows) htab c
      → suc (length ts.rows) < c
      → 16 ≤ c
      → c ≤ 2 ^ 30
      → (ts' : TupleSet) × (add_slot (record longer { htab = htab; hcap = c }) cols
          ≡ some (ts', ret 1))
        × IsValid ts'
        × (ts'.rows ≡ ts.rows ++ cols ∷ [])
  finish htab c t room large cells =
      let grown : TupleSet = record longer { htab = htab; hcap = c } in
      let (htab', run, t') =
        add_slot_lem grown (length ts.rows) cols longer_last longer-IsDistinct longer_length t
          room in
      (
        record grown { htab = htab'; hused = (ts.hused + 1) % 2 ^ 64 },
        run,
        record {
          distinct = longer-IsDistinct;
          table = inr (record {
            index = subst (λ n. Indexes longer.rows n htab' c) (sym longer_length) t';
            room = rw longer_length room;
            large = large;
            small = cells;
          });
          held = rw longer_length held;
          small = small;
        },
        refl,
      )

  -- The append ends in a valid set, with the row or, if memory ran out, without it.
  pub add_row_lem :
      (ts' : TupleSet) × (code : Ret) × (add_row mem ts cols ≡ some (ts', code))
      × IsValid ts'
      × (((code ≡ ret 1) × (ts'.rows ≡ ts.rows ++ cols ∷ []))
          ⊎ ((code ≡ err) × (ts'.rows ≡ ts.rows)))
  unfolding add_row
  add_row_lem = elim (Bool-cases (is_loaded (length longer.rows) ts.hcap)) [
    | inr calm ↦ elim table [
      | inl unused ↦ absurd (cc (calm, unused_loaded (length longer.rows) ts.hcap unused.no_cap))
      | inr used ↦
          let fits : suc (length ts.rows) < ts.hcap =
            omega (arith, calm_lem (length longer.rows) ts.hcap calm used.large, longer_length) in
          let (ts', run, valid, rows) =
            finish ts.htab ts.hcap (index_append ts.rows cols ts.htab ts.hcap used.index) fits
              used.large used.small in
          (ts', ret 1, rw calm run, valid, inl (refl, rows))
    ]
    | inl loaded ↦
        let (above, below) = need_lem (length longer.rows) in
        elim (ts_hash_grow-Grows mem longer (length ts.rows) (table_need (length longer.rows))
          longer-IsDistinct longer-Names (omega (arith, longer_length, above))
          (omega (arith, longer_length, below))) [
            | inl failed ↦ (
              ts,
              err,
              rw (loaded, failed),
              record { distinct = distinct; table = table; held = omega arith; small = small },
              inr (refl, refl),
            )
            | inr (htab, c, grown, index, enough, large, cells) ↦
                let (ts', run, valid, rows) =
                  finish htab c index (omega (arith, longer_length, above)) large cells in
                (ts', ret 1, rw (loaded, grown) run, valid, inl (refl, rows))
          ]
  ]
