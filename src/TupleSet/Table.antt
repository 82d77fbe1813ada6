-- ===== src/TupleSet/Table.antt =====
-- What the hash table of a tuple set says of its rows: soundness, totality and the effect of one
-- insertion, for `ts_hash_find`, `ts_hash_insert` and the rehashing loop of `ts_hash_grow`.
use datalog_dafsa.Base.{
  ◌≤◌, none, Option, fun_ext, ◌++◌, Bool-cases, get_or-append_left, ℕ, bit_and, ◌-◌, ◌%◌, ◌<◌, ◌≡◌,
  ◌≢◌, refl, sym, ap, ◌∙◌, inl, inr, Bool, true, ◌||◌, some, List, [], arith, ◌==◌, Option-cases,
  length, get_or, set, get_or-set_self, get_or-set_ne, words_eq→eq, words_eq_refl, bit_and_pow_mask,
  ==_iff,
}
use native.Mathlib.Decide.{ℕ_discrete}
use datalog_dafsa.Probe.{
  walk, IsPow2, walk_stops, walk-lt, walk_total, walk_sub, walk_before, occupied, empty_cell,
}
use datalog_dafsa.TupleSet.{Row, ts_hash_cols, home, names_row, probe_row, ts_hash_insert}

-- The cells at which the search for `cols` stops.
abbrev pub stops : List Row → List ℕ → Row → ℕ → Bool
stops rows htab cols j = (get_or htab j 0 == 0) || names_row rows cols (get_or htab j 0)

abbrev pub is_empty : List ℕ → ℕ → Bool
is_empty htab j = get_or htab j 0 == 0

pub home-lt : (hcap : ℕ) (cols : Row) → IsPow2 hcap → 0 < hcap → home hcap cols < hcap
unfolding home
home-lt hcap cols (k, e) pos =
    let h = ts_hash_cols cols in
    let masked : bit_and h (hcap - 1) ≡ h % hcap = rw e (bit_and_pow_mask k h) in
    rw masked (omega arith)

-- The row of a 1-based number.
abbrev pub row_of : List Row → ℕ → Row
row_of rows s = get_or rows (s - 1) []

pub probe_cell :
    (rows : List Row) (htab : List ℕ) (hcap : ℕ) (cols : Row) (s : ℕ)
    → probe_row rows htab hcap cols ≡ some s
    → (j : ℕ) × (walk (stops rows htab cols) hcap hcap (home hcap cols) ≡ some j)
      × (get_or htab j 0 ≡ s)
unfolding probe_row
probe_cell rows htab hcap cols s e =
    elim (Option-cases (walk (stops rows htab cols) hcap hcap (home hcap cols))) [
      | inl none_left ↦ absurd (cc (e, none_left))
      | inr (j, found) ↦ (j, found, ground (arith, found))
    ]

cell_probe :
    (rows : List Row) (htab : List ℕ) (hcap : ℕ) (cols : Row) (j : ℕ)
    → walk (stops rows htab cols) hcap hcap (home hcap cols) ≡ some j
    → probe_row rows htab hcap cols ≡ some (get_or htab j 0)
unfolding probe_row
cell_probe rows htab hcap cols j found = rw (found, probe_row)

pub cell_insert :
    (htab : List ℕ) (hcap : ℕ) (cols : Row) (e v : ℕ)
    → walk (is_empty htab) hcap hcap (home hcap cols) ≡ some e
    → ts_hash_insert htab hcap cols v ≡ some (set htab e v)
unfolding ts_hash_insert
cell_insert htab hcap cols e v found = rw (found, ts_hash_insert)

-- A number that the search returns is 0 or that of a row equal to the sought one.
pub probe_sound :
    (rows : List Row) (htab : List ℕ) (hcap : ℕ) (cols : Row) (s : ℕ)
    → probe_row rows htab hcap cols ≡ some s
    → s ≢ 0
    → row_of rows s ≡ cols
unfolding names_row
probe_sound rows htab hcap cols s e nz =
    let (j, found, is_s) = probe_cell rows htab hcap cols s e in
    let stop = walk_stops (stops rows htab cols) hcap hcap (home hcap cols) j found in
    sym (words_eq→eq cols (row_of rows s) (ground (arith, stop, is_s)))

module _ {hcap : ℕ} (pow : IsPow2 hcap) (pos : 0 < hcap) (htab : List ℕ)
    (width : length htab ≡ hcap) (room : occupied htab < hcap) where
  -- The search ends.
  pub probe_total :
      (rows : List Row) (cols : Row) → (s : ℕ) × (probe_row rows htab hcap cols ≡ some s)
  probe_total rows cols =
      let (e, inside, empty) = empty_cell htab (rw width room) in
      let (j, found) =
        walk_total pow pos (stops rows htab cols) (home hcap cols) e (home-lt hcap cols pow pos)
          (omega arith) (rw empty refl) in
      (get_or htab j 0, cell_probe rows htab hcap cols j found)

  -- An insertion ends, at an empty cell.
  pub insert_total :
      (cols : Row) (v : ℕ)
      → (e : ℕ) × (walk (is_empty htab) hcap hcap (home hcap cols) ≡ some e)
        × (ts_hash_insert htab hcap cols v ≡ some (set htab e v))
        × (e < hcap)
        × (get_or htab e 0 ≡ 0)
  insert_total cols v =
      let start = home-lt hcap cols pow pos in
      let (i, inside, empty) = empty_cell htab (rw width room) in
      let (e, found) =
        walk_total pow pos (is_empty htab) (home hcap cols) i start (omega arith) (rw empty refl) in
      (
        e,
        found,
        cell_insert htab hcap cols e v found,
        walk-lt pow pos (is_empty htab) hcap (home hcap cols) e start found,
        (==_iff _ 0).0 (walk_stops (is_empty htab) hcap hcap (home hcap cols) e found),
      )

-- A write to an empty cell adds no stopping cell.
stops-set :
    (rows : List Row) (htab : List ℕ) (cols : Row) (e v : ℕ)
    → get_or htab e 0 ≡ 0
    → (j : ℕ) → stops rows (set htab e v) cols j ≡ true
    → stops rows htab cols j ≡ true
stops-set rows htab cols e v empty j h = elim (ℕ_discrete e j) [
  | yes same ↦ rw (← same, empty)
  | no apart ↦ rw (get_or-set_ne htab e j v 0 apart) at h
]

-- What was found stays found after a write to an empty cell.
pub probe_keeps :
    (rows : List Row) (htab : List ℕ) (hcap : ℕ) (cols : Row) (s e v : ℕ)
    → get_or htab e 0 ≡ 0
    → s ≢ 0
    → probe_row rows htab hcap cols ≡ some s
    → probe_row rows (set htab e v) hcap cols ≡ some s
probe_keeps rows htab hcap cols s e v empty nz h =
    let (j, found, is_s) = probe_cell rows htab hcap cols s h in
    let apart : e ≢ j =
      λ same. nz (sym is_s ∙ ap (λ (t : ℕ). get_or htab t 0) (sym same) ∙ empty) in
    let kept = get_or-set_ne htab e j v 0 apart in
    let found' =
      walk_sub (stops rows htab cols) (stops rows (set htab e v) cols) hcap hcap (home hcap cols) j
        (stops-set rows htab cols e v empty)
        (rw kept (walk_stops (stops rows htab cols) hcap hcap (home hcap cols) j found)) found in
    cell_probe rows (set htab e v) hcap cols j found' ∙ ap some (kept ∙ is_s)

-- The row that was inserted is found.
pub probe_inserted :
    (rows : List Row) (htab : List ℕ) (hcap : ℕ) (cols : Row) (e v : ℕ)
    → walk (is_empty htab) hcap hcap (home hcap cols) ≡ some e
    → e < length htab
    → v ≢ 0
    → row_of rows v ≡ cols
    → (s : ℕ) × (probe_row rows (set htab e v) hcap cols ≡ some s) × (s ≢ 0)
unfolding names_row
probe_inserted rows htab hcap cols e v h inside nz here =
    let written = get_or-set_self htab e v 0 inside in
    let (j, found, where_) =
      walk_before (is_empty htab) (stops rows (set htab e v) cols) hcap hcap (home hcap cols) e h
        (rw (written, here, words_eq_refl) (ground arith)) in
    (
      get_or (set htab e v) j 0,
      cell_probe rows (set htab e v) hcap cols j found,
      elim where_ [
        | inl same ↦ rw (same, written) nz
        | inr full ↦ elim (ℕ_discrete e j) [
          | yes same ↦ rw (← same, written) nz
          | no apart ↦ rw (get_or-set_ne htab e j v 0 apart) (ground arith)
        ]
      ],
    )

-- The search does not see a row that no cell names.
pub probe_append :
    (rows more : List Row) (htab : List ℕ) (hcap : ℕ) (cols : Row)
    → ((j : ℕ) → get_or htab j 0 ≤ length rows)
    → probe_row (rows ++ more) htab hcap cols ≡ probe_row rows htab hcap cols
unfolding probe_row names_row
probe_append rows more htab hcap cols within =
    let same : stops (rows ++ more) htab cols ≡ stops rows htab cols =
      fun_ext (stops_append rows more htab cols within) in
    ap
      (λ (stop : ℕ → Bool). elim (walk stop hcap hcap (home hcap cols)) as (λ _. Option ℕ) [
        | none ↦ none
        | some j ↦ some (get_or htab j 0)
      ])
      same
  where
    stops_append :
        (rows more : List Row) (htab : List ℕ) (cols : Row)
        → ((j : ℕ) → get_or htab j 0 ≤ length rows)
        → (j : ℕ) → stops (rows ++ more) htab cols j ≡ stops rows htab cols j
    stops_append rows more htab cols within j = elim (Bool-cases (get_or htab j 0 == 0)) [
      | inl empty ↦ rw empty
      | inr full ↦
          let inside : get_or htab j 0 - 1 < length rows = ground (arith, within j) in
          rw (get_or-append_left rows more (get_or htab j 0 - 1) [] inside)
    ]
