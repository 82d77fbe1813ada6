-- ===== src/Search/Collect.antt =====
-- `collectTermSets` of zig/src/index.zig, where memory refuses nothing and the reads succeed.
use datalog_dafsa.Base.{
  ℕ, suc, ◌+◌, ◌*◌, ◌^◌, ◌<◌, ◌≡◌, refl, sym, ap, ◌∙◌, Bool, true, false, ◌||◌, some, List, [], ◌∷◌,
  ◌==◌, length, get_or, ret, Mem, All, inl, inr, subst, Bool-cases, ==_iff, or_none, or_assoc,
}
use datalog_dafsa.TupleSet.{Row}
use datalog_dafsa.Relation.Reads.{EnumCb, enum_rows}
use datalog_dafsa.IntSet.{IntSet, no_ints, is_seen, int_set_add}
use datalog_dafsa.IntSet.Contents.{
  IsAmple, no_ints-IsIntSet, with_item, int_set_add_lem, is_seen-append,
}
use datalog_dafsa.Search.{
  Collecting, Reader, collect_obs_id_cb, collect_term_obs_ids, collect_sets, collect_term_sets,
}
use datalog_dafsa.Search.Counts.{count_if, All-append}
use datalog_dafsa.Search.Packed.{IsCollected, sets_with}

-- The observation ids of rows of postings.
abbrev pub ids : List Row → List ℕ
ids [] = []
ids (row ∷ rows) = get_or row 1 0 ∷ ids rows

-- A reader that gives the rows of a term to the callback until it stops.
abbrev pub Reads : (ℕ → List Row) → Reader → Type 0
Reads rows read =
    (term : ℕ) (cb : EnumCb Collecting) (acc : Collecting)
    → read term cb acc
      ≡ (ret (enum_rows cb (rows term) 0 acc).0, (enum_rows cb (rows term) 0 acc).1)

-- Rows whose ids have 32 bits.
abbrev pub IsPostings : (ℕ → List Row) → Type 0
IsPostings rows = (term : ℕ) → All (λ v. v < 2 ^ 32) (ids (rows term))

-- How many of the terms have a posting for a document.
abbrev pub matched : (ℕ → List Row) → List ℕ → ℕ → ℕ
matched rows terms o = count_if (λ t. is_seen (ids (rows t)) o) terms

absorbed : (b c : Bool) → (c ≡ true → b ≡ true) → b ≡ (b || c)
absorbed true c holds = refl
absorbed false true holds = holds refl
absorbed false false holds = refl

pub added_seen :
    (items : List ℕ) (v o : ℕ) → is_seen (with_item items v) o ≡ (is_seen items o || (v == o))
added_seen items v o = elim (Bool-cases (is_seen items v)) [
  | inr new ↦ rw new (is_seen-append items v o)
  | inl seen ↦ rw seen (
      absorbed (is_seen items o) (v == o)
        (λ same. subst (λ x. is_seen items x ≡ true) ((==_iff v o).0 same) seen))
]

pub added_fits :
    (items : List ℕ) (v : ℕ)
    → All (λ x. x < 2 ^ 32) items
    → v < 2 ^ 32
    → All (λ x. x < 2 ^ 32) (with_item items v)
added_fits items v fits small = elim (Bool-cases (is_seen items v)) [
  | inl seen ↦ rw seen fits
  | inr new ↦ rw new (All-append (λ x. x < 2 ^ 32) items (v ∷ []) fits (small, tt))
]

module _ (mem : Mem) (ample : IsAmple mem) where
  collect_step :
      (s s' : IntSet) (row : Row) (rows : List Row) (n m : ℕ)
      → int_set_add mem s (get_or row 1 0) ≡ some (ret m, s')
      → enum_rows (collect_obs_id_cb mem) (row ∷ rows) n (some (s, false))
        ≡ enum_rows (collect_obs_id_cb mem) rows (n + 1) (some (s', false))
  unfolding enum_rows collect_obs_id_cb
  collect_step s s' row rows n m run = rw (run, enum_rows, collect_obs_id_cb) refl

  collect_rows :
      (rows : List Row) (n : ℕ) (s : IntSet)
      → IsCollected s
      → All (λ v. v < 2 ^ 32) (ids rows)
      → (s' : IntSet) × ((enum_rows (collect_obs_id_cb mem) rows n (some (s, false))).1
          ≡ some (s', false))
        × IsCollected s'
        × ((o : ℕ) → is_seen s'.items o ≡ (is_seen s.items o || is_seen (ids rows) o))
  unfolding enum_rows is_seen
  collect_rows [] n s set small = (s, refl, set, λ o. sym (or_none (is_seen s.items o)))
  collect_rows (row ∷ rows) n s (set, fits) (v_small, small) =
      let v = get_or row 1 0 in
      let (s', run, set', items) = int_set_add_lem mem s v ample set in
      let fits' : All (λ x. x < 2 ^ 32) s'.items = rw items (added_fits s.items v fits v_small) in
      let (s'', later, set'', seen) = collect_rows rows (n + 1) s' (set', fits') small in
      (
        s'',
        ap (λ (p : ℕ × Collecting). p.1) (collect_step s s' row rows n _ run) ∙ later,
        set'',
        λ o.
            seen o
            ∙ rw (items, added_seen s.items v o)
                (or_assoc (is_seen s.items o) (v == o) (is_seen (ids rows) o)),
      )

  module _ (rows : ℕ → List Row) (read : Reader) (reads : Reads rows read)
      (postings : IsPostings rows) where
    collect_term :
        (term : ℕ)
        → (s : IntSet) × (collect_term_obs_ids mem read term ≡ some (some s))
          × IsCollected s
          × ((o : ℕ) → is_seen s.items o ≡ is_seen (ids (rows term)) o)
    unfolding collect_term_obs_ids is_seen
    collect_term term =
        let (s, run, set, seen) =
          collect_rows (rows term) 0 no_ints (no_ints-IsIntSet, tt) (postings term) in
        (s, rw (reads term (collect_obs_id_cb mem) (some (no_ints, false)), run) refl, set, seen)

    pub collect_sets_lem :
        (terms : List ℕ)
        → (sets : List IntSet) × (collect_sets mem read terms ≡ some (some sets))
          × All IsCollected sets
          × (length sets ≡ length terms)
          × ((o : ℕ) → sets_with sets o ≡ matched rows terms o)
    unfolding collect_sets count_if
    collect_sets_lem [] = ([], refl, tt, refl, λ o. refl)
    collect_sets_lem (t ∷ terms) =
        let (s, run, set, seen) = collect_term t in
        let (sets, more, all, same, counts) = collect_sets_lem terms in
        (
          s ∷ sets,
          rw (ample.mallocs 48, run, more) refl,
          (set, all),
          ap suc same,
          λ o. rw (seen o, counts o) refl,
        )

    pub collect_term_sets_lem :
        (terms : List ℕ)
        → (sets : List IntSet) × (collect_term_sets mem read terms ≡ some (some sets))
          × All IsCollected sets
          × (length sets ≡ length terms)
          × ((o : ℕ) → sets_with sets o ≡ matched rows terms o)
    unfolding collect_term_sets
    collect_term_sets_lem terms =
        let (sets, run, all, same, counts) = collect_sets_lem terms in
        (sets, rw (ample.callocs (length terms * 8)) run, all, same, counts)
