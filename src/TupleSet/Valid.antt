-- ===== src/TupleSet/Valid.antt =====
-- The well-formedness of a tuple set, and that the rehashing loop of `ts_hash_grow` builds an
-- index of the same rows.
use native.Mathlib.Decide.{ℕ_discrete}
use datalog_dafsa.Base.{
  ℕ, zero, suc, ◌+◌, ◌-◌, ◌≤◌, ◌<◌, ◌≡◌, refl, subst, ap, ◌∙◌, some, List, [], ◌∷◌, arith, length,
  get_or, set, length-set, get_or-set_self, get_or-set_ne, ==_ne,
}
use datalog_dafsa.Probe.{IsPow2, occupied, occupied-set}
use datalog_dafsa.TupleSet.{Row, probe_row, ts_hash_insert, rehash}
use datalog_dafsa.TupleSet.Table.{
  row_of, probe_cell, probe_sound, probe_keeps, probe_inserted, insert_total,
}

-- The rows differ from one another.
abbrev pub IsDistinct : List Row → Type 0
IsDistinct rows =
    (i j : ℕ) → i < length rows → j < length rows → get_or rows i [] ≡ get_or rows j [] → i ≡ j

-- A row's number that the search for that row returns.
abbrev pub IsFound : List Row → List ℕ → ℕ → ℕ → Type 0
IsFound rows htab hcap s = probe_row rows htab hcap (row_of rows s) ≡ some s

-- The cells hold numbers of rows.
abbrev pub IsWithin : List Row → List ℕ → Type 0
IsWithin rows htab = (j : ℕ) → get_or htab j 0 ≤ length rows

-- A table that answers for the first `n` rows.
pub record Indexes (rows : List Row) (n : ℕ) (htab : List ℕ) (hcap : ℕ) : Type 0 where
  pub pow : IsPow2 hcap
  pub width : length htab ≡ hcap
  pub fill : occupied htab ≤ n
  pub within : IsWithin rows htab
  pub found : (s : ℕ) → 0 < s → s ≤ n → IsFound rows htab hcap s

-- Insertion of the row with number `v` into a table with an empty cell.
pub insert-IsFound :
    (rows : List Row) (htab : List ℕ) (hcap v : ℕ)
    → IsDistinct rows
    → IsPow2 hcap
    → length htab ≡ hcap
    → occupied htab < hcap
    → IsWithin rows htab
    → 0 < v
    → v ≤ length rows
    → (e : ℕ) × (ts_hash_insert htab hcap (row_of rows v) v ≡ some (set htab e v))
      × (e < hcap)
      × (get_or htab e 0 ≡ 0)
      × IsFound rows (set htab e v) hcap v
      × IsWithin rows (set htab e v)
insert-IsFound rows htab hcap v distinct pow width room within pos le =
    let (e, walked, inserted, inside, empty) =
      insert_total pow (omega arith) htab width room (row_of rows v) v in
    let within' = within_set rows htab e v (omega arith) le within in
    let (s, probed, nz) =
      probe_inserted rows htab hcap (row_of rows v) e v walked (omega arith) (omega arith) refl in
    let (j, _, is_s) = probe_cell rows (set htab e v) hcap (row_of rows v) s probed in
    let bound : s ≤ length rows = rw is_s at (within' j) in
    let equal = probe_sound rows (set htab e v) hcap (row_of rows v) s probed nz in
    let pred = distinct (s - 1) (v - 1) (omega arith) (omega arith) equal in
    let same : s ≡ v = omega arith in (e, inserted, inside, empty, probed ∙ ap some same, within')
  where
    within_set :
        (rows : List Row) (htab : List ℕ) (e v : ℕ)
        → e < length htab
        → v ≤ length rows
        → IsWithin rows htab
        → IsWithin rows (set htab e v)
    within_set rows htab e v inside le within j = elim (ℕ_discrete e j) [
      | yes same ↦ rw (← same, get_or-set_self htab e v 0 inside) le
      | no apart ↦ rw (get_or-set_ne htab e j v 0 apart) (within j)
    ]

abbrev NamesFound : List Row → ℕ → List ℕ → List ℕ → Type 0
NamesFound rows hcap cells final =
    (s j : ℕ) → 0 < s → get_or cells j 0 ≡ s → IsFound rows final hcap s

skip_empty :
    (rows : List Row) (hcap : ℕ) (cells final : List ℕ)
    → NamesFound rows hcap cells final
    → NamesFound rows hcap (0 ∷ cells) final
skip_empty rows hcap cells final adds s zero pos e = absurd (omega arith)
skip_empty rows hcap cells final adds s (suc j) pos e = adds s j pos e

add_named :
    (rows : List Row) (hcap slot : ℕ) (cells final : List ℕ)
    → IsFound rows final hcap (suc slot)
    → NamesFound rows hcap cells final
    → NamesFound rows hcap (suc slot ∷ cells) final
add_named rows hcap slot cells final new adds s zero pos e = subst (IsFound rows final hcap) e new
add_named rows hcap slot cells final new adds s (suc j) pos e = adds s j pos e

rehash_step :
    (rows : List Row) (hcap slot : ℕ) (cells fresh : List ℕ) {next : List ℕ}
    → ts_hash_insert fresh hcap (row_of rows (suc slot)) (suc slot) ≡ some next
    → rehash rows (suc slot ∷ cells) hcap fresh ≡ rehash rows cells hcap next
unfolding rehash
rehash_step rows hcap slot cells fresh inserted = rw (==_ne (suc slot) 0 (omega arith), inserted)

-- The rows named by the cells, or found before, are found after the loop.
pub rehash-IsFound :
    (rows : List Row) (hcap : ℕ) (cells fresh : List ℕ)
    → IsDistinct rows
    → IsPow2 hcap
    → length fresh ≡ hcap
    → occupied fresh + occupied cells < hcap
    → IsWithin rows fresh
    → IsWithin rows cells
    → (final : List ℕ) × (rehash rows cells hcap fresh ≡ some final)
      × (length final ≡ hcap)
      × (occupied final ≤ occupied fresh + occupied cells)
      × IsWithin rows final
      × ((s : ℕ) → 0 < s → IsFound rows fresh hcap s → IsFound rows final hcap s)
      × ((s j : ℕ) → 0 < s → get_or cells j 0 ≡ s → IsFound rows final hcap s)
unfolding rehash
rehash-IsFound rows hcap [] fresh distinct pow width room within cells_within =
    (fresh, refl, width, omega arith, within, λ s pos h. h, λ s j pos e. absurd (omega arith))
rehash-IsFound rows hcap (zero ∷ cells) fresh distinct pow width room within cells_within =
    let (final, run, w, o, i, keeps, adds) =
      rehash-IsFound rows hcap cells fresh distinct pow width (omega arith) within
        (λ j. cells_within (suc j)) in
    (final, run, w, omega arith, i, keeps, skip_empty rows hcap cells final adds)
rehash-IsFound rows hcap (suc slot ∷ cells) fresh distinct pow width room within cells_within =
    let (e, inserted, inside, empty, new, within') =
      insert-IsFound rows fresh hcap (suc slot) distinct pow width (omega arith) within
        (omega arith) (cells_within 0) in
    let (final, run, w, o, i, keeps, adds) =
      rehash-IsFound rows hcap cells (set fresh e (suc slot)) distinct pow
        (length-set fresh e (suc slot) ∙ width)
        (omega (arith, occupied-set fresh e (suc slot) (omega arith) empty)) within'
        (λ j. cells_within (suc j)) in
    (
      final,
      rehash_step rows hcap slot cells fresh inserted ∙ run,
      w,
      omega (arith, occupied-set fresh e (suc slot) (omega arith) empty),
      i,
      λ s pos h.
          keeps s pos
            (probe_keeps rows fresh hcap (row_of rows s) s e (suc slot) empty (omega arith) h),
      add_named rows hcap slot cells final (keeps (suc slot) (omega arith) new) adds,
    )
