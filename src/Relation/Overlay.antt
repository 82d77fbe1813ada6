-- ===== src/Relation/Overlay.antt =====
-- The write overlay of zig/src/relation.zig: what `rel_overlay_flush` does to the facts of a relation.
use datalog_dafsa.Base.{
  ℕ, ◌≡◌, refl, sym, ap, ◌∙◌, Bool, true, false, not, ◌&&◌, ◌||◌, Option, none, some, List, [], ◌∷◌,
  if◌then◌else◌, words_eq, Ret, err, ret, or_none, arith, All, length, Bool-cases, suc, ◌+◌, ◌%◌,
  ◌^◌, ==_ne, inl, inr, subst,
}
use datalog_dafsa.TupleSet.{Row}
use datalog_dafsa.Relation.{
  Dafsa, Relation, is_word, encode_key, rel_exact, rel_exact_base, base_of, fold_base, fold_overlay,
  rel_overlay_flush, is_ok,
}
use datalog_dafsa.Relation.Laws.{IsDafsa}
use datalog_dafsa.Relation.Keys.{IsRow}
use datalog_dafsa.Relation.Facts.{LookupAdds, add_n_lem}

-- A row that is added, as Boolean tests.
added_kept : (w x y : Bool) → y ≡ (w || x) → ((w || false) || y) ≡ ((w || false) || x)
added_kept true x y h = refl
added_kept false x y h = h

added_held : (w x y : Bool) → y ≡ (w || x) → y ≡ ((w || false) || y)
added_held true x y h = h
added_held false x y h = refl

-- Two steps of a fold, as Boolean tests of one row: `x`, `y` and `z` are whether it is held before,
-- between and after them, `v` and `w` whether it is among the rows of each.
joined_kept :
    (v w x y z : Bool)
    → (v || y) ≡ (v || x)
    → (w || z) ≡ (w || y)
    → ((v || w) || z) ≡ ((v || w) || x)
joined_kept true w x y z h k = refl
joined_kept false true x y z h k = refl
joined_kept false false x y z h k = k ∙ h

joined_held :
    (ok v w y z : Bool)
    → y ≡ (v || y)
    → (w || z) ≡ (w || y)
    → z ≡ ((ok && w) || z)
    → z ≡ ((ok && (v || w)) || z)
joined_held false v w y z h k l = refl
joined_held true false w y z h k l = l
joined_held true true true y z h k l = l
joined_held true true false y z h k l = k ∙ h

-- A row of the overlay that is flushed, or is not.
flushed_held : (w x y : Bool) → (w || y) ≡ (w || x) → y ≡ (w || y) → (y || false) ≡ (x || w)
flushed_held true true y h k = or_none y ∙ k
flushed_held true false y h k = or_none y ∙ k
flushed_held false x y h k = or_none y ∙ h ∙ sym (or_none x)

unflushed_held : (w x y : Bool) → (w || y) ≡ (w || x) → (y || w) ≡ (x || w)
unflushed_held true true true h = refl
unflushed_held true true false h = refl
unflushed_held true false true h = refl
unflushed_held true false false h = refl
unflushed_held false x y h = ap (λ (b : Bool). b || false) h

module _ {D S : Type 0} {lib : Dafsa D S} (laws : IsDafsa lib) where
  -- The row `c` is held by a DAFSA.
  abbrev held : ℕ → D → Row → Bool
  held a d c = lib.lookup_n d (encode_key c a)

  -- What a fold of some rows did to one DAFSA, seen at the row `c`: no fact but those rows has
  -- changed, and where the fold went through they are there.
  abbrev Gains : ℕ → List Row → Row → Bool → D → D → Type 0
  Gains a rows c ok d d' =
      ((is_word c rows || held a d' c) ≡ (is_word c rows || held a d c))
      × (held a d' c ≡ ((ok && is_word c rows) || held a d' c))

  abbrev Folded : List Row → Row → Relation D → Bool → Relation D → Type 0
  Folded rows c r ok r' =
      (r'.arity ≡ r.arity)
      × (r'.ov ≡ r.ov)
      × Gains r.arity rows c ok r.d r'.d
      × Gains r.arity rows c ok (base_of r) (base_of r')

  -- The fold of one row.
  abbrev fold_row : Row → Relation D → Bool × Relation D
  fold_row cols r =
      let key = encode_key cols r.arity in
      let (rc, d') = lib.add_n r.d key in
      if not (is_ok rc)
      then (false, record r { d = d' })
      else fold_base lib (record r { d = d' }) key

  add_Gains :
      (a : ℕ) (cols c : Row) (d d' : D) (rc : Ret)
      → IsRow a c
      → LookupAdds laws a d cols rc d'
      → Gains a (cols ∷ []) c (is_ok rc) d d'
  unfolding is_word is_ok
  add_Gains a cols c d d' err row h =
      (ap (◌||◌ (words_eq c cols || false)) (h (encode_key c a)), refl)
  add_Gains a cols c d d' (ret n) row (count, grown) = (
    added_kept (words_eq c cols) (held a d c) (held a d' c) (grown c row),
    added_held (words_eq c cols) (held a d c) (held a d' c) (grown c row),
  )

  joined_stage :
      (a : ℕ) (v : Row) (rows : List Row) (c : Row) (ok : Bool) (d d' d'' : D)
      → Gains a (v ∷ []) c true d d'
      → Gains a rows c ok d' d''
      → Gains a (v ∷ rows) c ok d d''
  unfolding is_word
  joined_stage a v rows c ok d d' d'' (kept, gained) (kept', gained') =
      let one : (words_eq c v || false) ≡ words_eq c v = or_none (words_eq c v) in
      (
        joined_kept (words_eq c v) (is_word c rows) (held a d c) (held a d' c) (held a d'' c)
            (rw⁻¹ one kept) kept',
        joined_held ok (words_eq c v) (is_word c rows) (held a d' c) (held a d'' c)
            (rw⁻¹ one gained) kept' gained',
      )

  -- A fold that stops at its first row.
  stopped_stage :
      (a : ℕ) (v : Row) (rows : List Row) (c : Row) (ok : Bool) (d d' : D)
      → Gains a (v ∷ []) c ok d d'
      → Gains a (v ∷ rows) c false d d'
  unfolding is_word
  stopped_stage a v rows c ok d d' (kept, gained) = (
    joined_kept (words_eq c v) (is_word c rows) (held a d c) (held a d' c) (held a d' c)
        (rw⁻¹ (or_none (words_eq c v)) kept) refl,
    refl,
  )

  weaker_stage :
      (a : ℕ) (rows : List Row) (c : Row) (ok : Bool) (d d' : D)
      → Gains a rows c true d d'
      → Gains a rows c ok d d'
  weaker_stage a rows c true d d' gains = gains
  weaker_stage a rows c false d d' (kept, gained) = (kept, refl)

  row_stage :
      (a : ℕ) (d : D) (base : Option D) (ov : List Row) (dirty : Bool) (rev : ℕ) (cols c : Row)
      (rc : Ret) (d' : D)
      → IsRow a cols
      → IsRow a c
      → LookupAdds laws a d cols rc d'
      → let r : Relation D = record {
        arity = a;
        d = d;
        base = base;
        ov = ov;
        dirty = dirty;
        rev = rev;
      } in
        let added : Relation D = record r { d = d' } in
        let (ok, r') =
          (if not (is_ok rc) then (false, added) else fold_base lib added (encode_key cols a)) in
        Folded (cols ∷ []) c r ok r'
  unfolding fold_base base_of is_ok
  row_stage a d none ov dirty rev cols c err d' is_cols row h =
      (refl, refl, add_Gains a cols c d d' err row h, add_Gains a cols c d d' err row h)
  row_stage a d (some b) ov dirty rev cols c err d' is_cols row h =
      (refl, refl, add_Gains a cols c d d' err row h, (refl, refl))
  row_stage a d none ov dirty rev cols c (ret n) d' is_cols row h =
      (refl, refl, add_Gains a cols c d d' (ret n) row h, add_Gains a cols c d d' (ret n) row h)
  row_stage a d (some b) ov dirty rev cols c (ret n) d' is_cols row h =
      let (rc, b') = lib.add_n b (encode_key cols a) in
      (
        refl,
        refl,
        weaker_stage a (cols ∷ []) c (is_ok rc) d d' (add_Gains a cols c d d' (ret n) row h),
        add_Gains a cols c b b' rc row (add_n_lem laws a b cols is_cols),
      )

  fold_row_lem :
      (cols c : Row) (r : Relation D)
      → IsRow r.arity cols
      → IsRow r.arity c
      → let (ok, r') = fold_row cols r in Folded (cols ∷ []) c r ok r'
  fold_row_lem cols c r is_cols row =
      row_stage r.arity r.d r.base r.ov r.dirty r.rev cols c _ _ is_cols row
        (add_n_lem laws r.arity r.d cols is_cols)

  fold_overlay_row :
      (cols : Row) (rows : List Row) (r : Relation D)
      → let (ok, r') = fold_row cols r in
        fold_overlay lib (cols ∷ rows) r ≡ (if ok then fold_overlay lib rows r' else (false, r'))
  unfolding fold_overlay
  fold_overlay_row cols rows r =
      elim (Bool-cases (is_ok (lib.add_n r.d (encode_key cols r.arity)).0)) [
        | inl went ↦ rw (went, fold_overlay) refl
        | inr stopped ↦ rw (stopped, fold_overlay) refl
      ]

  -- The folds of a row and of the rows after it.
  fold_stage :
      (cols : Row) (rows : List Row) (c : Row) (r r' : Relation D) (ok : Bool)
      → Folded (cols ∷ []) c r ok r'
      → ((ok ≡ true) → let (ok', r'') = fold_overlay lib rows r' in Folded rows c r' ok' r'')
      → let (ok', r'') = (if ok then fold_overlay lib rows r' else (false, r')) in
        Folded (cols ∷ rows) c r ok' r''
  fold_stage cols rows c r r' false (arity, ov, view, base) later = (
    arity,
    ov,
    stopped_stage r.arity cols rows c false r.d r'.d view,
    stopped_stage r.arity cols rows c false (base_of r) (base_of r') base,
  )
  fold_stage cols rows c r r' true (arity, ov, view, base) later =
      let (ok', r'') = fold_overlay lib rows r' in
      let (arity', ov', view', base') = later refl in
      (
        arity' ∙ arity,
        ov' ∙ ov,
        joined_stage r.arity cols rows c ok' r.d r'.d r''.d view
            (subst (λ (a : ℕ). Gains a rows c ok' r'.d r''.d) arity view'),
        joined_stage r.arity cols rows c ok' (base_of r) (base_of r') (base_of r'') base
            (subst (λ (a : ℕ). Gains a rows c ok' (base_of r') (base_of r'')) arity base'),
      )

  fold_overlay_lem :
      (rows : List Row) (c : Row) (r : Relation D)
      → All (IsRow r.arity) rows
      → IsRow r.arity c
      → let (ok, r') = fold_overlay lib rows r in Folded rows c r ok r'
  unfolding fold_overlay is_word
  fold_overlay_lem [] c r all row = (refl, refl, (refl, refl), (refl, refl))
  fold_overlay_lem (cols ∷ rows) c r (first, all) row =
      let (ok, r') = fold_row cols r in
      let folded = fold_row_lem cols c r first row in
      let same : r'.arity ≡ r.arity = folded.0 in
      rw (fold_overlay_row cols rows r) (
        fold_stage cols rows c r r' ok folded (λ went.
          fold_overlay_lem rows c r' (subst (λ (a : ℕ). All (IsRow a) rows) (sym same) all)
            (subst (λ (a : ℕ). IsRow a c) (sym same) row)))

  -- What `rel_overlay_flush` did, seen at the row `c`.
  abbrev pub Flushed : Relation D → Row → Ret → Relation D → Type 0
  Flushed r c err r' = (rel_exact lib r' c ≡ rel_exact lib r c) × (r'.ov ≡ r.ov)
  Flushed r c (ret n) r' =
      (n ≡ 0)
      × (rel_exact lib r' c ≡ rel_exact lib r c)
      × (r'.ov ≡ [])
      × (rel_exact_base lib r' c ≡ (is_word c r.ov || rel_exact_base lib r c))

  flush_stage :
      (r r' : Relation D) (c : Row) (ok : Bool)
      → Folded r.ov c r ok r'
      → let emptied : Relation D = record r' {
        ov = [];
        dirty = true;
        rev = (r'.rev + 1) % 2 ^ 64;
      } in
        let flushed : Ret × Relation D = if ok then (ret 0, emptied) else (err, r') in
        Flushed r c flushed.0 flushed.1
  unfolding rel_exact rel_exact_base base_of
  flush_stage r r' c true (arity, ov, view, base) = (
    refl,
    ap (λ (a : ℕ). held a r'.d c || false) arity
        ∙ flushed_held (is_word c r.ov) (held r.arity r.d c) (held r.arity r'.d c) view.0 view.1,
    refl,
    ap (λ (a : ℕ). held a (base_of r') c) arity ∙ base.1 ∙ base.0,
  )
  flush_stage r r' c false (arity, ov, view, base) = (
    ap (λ (a : ℕ). held a r'.d c || is_word c r'.ov) arity
        ∙ ap (λ (rows : List Row). held r.arity r'.d c || is_word c rows) ov
        ∙ unflushed_held (is_word c r.ov) (held r.arity r.d c) (held r.arity r'.d c) view.0,
    ov,
  )

  flush_fields :
      (a : ℕ) (d : D) (base : Option D) (ov : List Row) (dirty : Bool) (rev : ℕ) (c : Row)
      → let r : Relation D = record {
        arity = a;
        d = d;
        base = base;
        ov = ov;
        dirty = dirty;
        rev = rev;
      } in
        let (ok, folded) = fold_overlay lib ov r in
        Folded ov c r ok folded → let (rc, r') = rel_overlay_flush lib r in Flushed r c rc r'
  unfolding rel_overlay_flush is_word
  flush_fields a d base [] dirty rev c folds = (refl, refl, refl, refl)
  flush_fields a d base (v ∷ ov) dirty rev c folds =
      let r : Relation D = record {
        arity = a;
        d = d;
        base = base;
        ov = v ∷ ov;
        dirty = dirty;
        rev = rev;
      } in
      let (ok, folded) = fold_overlay lib (v ∷ ov) r in
      rw (==_ne (suc (length ov)) 0 (omega arith)) (flush_stage r folded c ok folds)

  -- On a relation whose columns and overlay rows are u32, `rel_overlay_flush` returns 0, empties the
  -- overlay and makes its rows base facts, which takes no base fact away, or it fails and keeps the
  -- overlay. Every row is a fact of the view after it exactly if it was one before, also when it fails
  -- midway.
  pub rel_overlay_flush_lem :
      (r : Relation D) (c : Row)
      → All (IsRow r.arity) r.ov
      → IsRow r.arity c
      → let (rc, r') = rel_overlay_flush lib r in Flushed r c rc r'
  rel_overlay_flush_lem r c all row =
      flush_fields r.arity r.d r.base r.ov r.dirty r.rev c (fold_overlay_lem r.ov c r all row)
