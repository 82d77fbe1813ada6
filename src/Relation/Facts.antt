-- ===== src/Relation/Facts.antt =====
-- What `rel_add`, `rel_add_base`, `rel_delete` and `rel_delete_base` of zig/src/relation.zig do to
-- the facts of a relation, and `rel_overlay_add`.
use datalog_dafsa.Base.{
  ℕ, ◌≡◌, refl, sym, ap, ◌∙◌, Bool, not, ◌&&◌, ◌||◌, Option, none, some, List, [], if◌then◌else◌,
  words_eq, Ret, err, ret, ◌==◌, or_assoc, or_none,
}
use datalog_dafsa.TupleSet.{Row}
use datalog_dafsa.Relation.{
  Dafsa, Relation, words, is_word, encode_key, rel_add, rel_add_base, rel_delete_base, rel_exact,
  rel_exact_base, rel_is_idb, rel_is_dirty, touched, base_of, set_base, Key,
}
use datalog_dafsa.Relation.Laws.{IsDafsa, Adds, Deletes}
use datalog_dafsa.Relation.Keys.{IsRow, words_eq-encode_key}

module _ {D S : Type 0} {lib : Dafsa D S} (laws : IsDafsa lib) where
  -- `dafsa_add_n` and `dafsa_lookup_n` on the keys of rows.
  abbrev pub LookupAdds : ℕ → D → Row → Ret → D → Type 0
  LookupAdds a d cols err d' = (k : Key) → lib.lookup_n d' k ≡ lib.lookup_n d k
  LookupAdds a d cols (ret n) d' =
      (n ≡ (if lib.lookup_n d (encode_key cols a) then 0 else 1))
      × ((c : Row)
          → IsRow a c
          → lib.lookup_n d' (encode_key c a) ≡ (words_eq c cols || lib.lookup_n d (encode_key c a)))

  add_stage :
      (a : ℕ) (d : D) (cols : Row) (rc : Ret) (d' : D)
      → IsRow a cols
      → Adds (words lib d) (encode_key cols a) rc (words lib d')
      → LookupAdds a d cols rc d'
  add_stage a d cols err d' row h =
      λ k. laws.lookup_law d' k ∙ ap (is_word k) h ∙ sym (laws.lookup_law d k)
  add_stage a d cols (ret n) d' row (count, grown) = (
    count ∙ ap (λ (b : Bool). if b then 0 else 1) (sym (laws.lookup_law d (encode_key cols a))),
    λ c is_row.
        laws.lookup_law d' (encode_key c a)
        ∙ grown (encode_key c a)
        ∙ rw (words_eq-encode_key a c cols is_row row, laws.lookup_law d (encode_key c a)) refl,
  )

  pub add_n_lem :
      (a : ℕ) (d : D) (cols : Row)
      → IsRow a cols
      → let (rc, d') = lib.add_n d (encode_key cols a) in LookupAdds a d cols rc d'
  add_n_lem a d cols row = add_stage a d cols _ _ row (laws.add_law d (encode_key cols a))

  abbrev LookupDeletes : ℕ → D → Row → Ret → D → Type 0
  LookupDeletes a d cols err d' = (k : Key) → lib.lookup_n d' k ≡ lib.lookup_n d k
  LookupDeletes a d cols (ret n) d' =
      (n ≡ (if lib.lookup_n d (encode_key cols a) then 1 else 0))
      × ((c : Row)
          → IsRow a c
          → lib.lookup_n d' (encode_key c a)
            ≡ (not (words_eq c cols) && lib.lookup_n d (encode_key c a)))

  delete_stage :
      (a : ℕ) (d : D) (cols : Row) (rc : Ret) (d' : D)
      → IsRow a cols
      → Deletes (words lib d) (encode_key cols a) rc (words lib d')
      → LookupDeletes a d cols rc d'
  delete_stage a d cols err d' row h =
      λ k. laws.lookup_law d' k ∙ ap (is_word k) h ∙ sym (laws.lookup_law d k)
  delete_stage a d cols (ret n) d' row (count, shrunk) = (
    count ∙ ap (λ (b : Bool). if b then 1 else 0) (sym (laws.lookup_law d (encode_key cols a))),
    λ c is_row.
        laws.lookup_law d' (encode_key c a)
        ∙ shrunk (encode_key c a)
        ∙ rw (words_eq-encode_key a c cols is_row row, laws.lookup_law d (encode_key c a)) refl,
  )

  delete_n_lem :
      (a : ℕ) (d : D) (cols : Row)
      → IsRow a cols
      → let (rc, d') = lib.delete_n d (encode_key cols a) in LookupDeletes a d cols rc d'
  delete_n_lem a d cols row = delete_stage a d cols _ _ row (laws.delete_law d (encode_key cols a))

  -- What a write through the base pointer did, seen at the row `c`.
  abbrev pub BaseAdded : Relation D → Row → Row → Ret → Relation D → Type 0
  BaseAdded r cols c err r' =
      (rel_exact_base lib r' c ≡ rel_exact_base lib r c)
      × (rel_exact lib r' c ≡ rel_exact lib r c)
      × (rel_is_dirty r' ≡ rel_is_dirty r)
  BaseAdded r cols c (ret n) r' =
      (n ≡ (if rel_exact_base lib r cols then 0 else 1))
      × (rel_exact_base lib r' c ≡ (words_eq c cols || rel_exact_base lib r c))
      × (rel_exact lib r' c
          ≡ (if rel_is_idb r then rel_exact lib r c else words_eq c cols || rel_exact lib r c))
      × (rel_is_dirty r' ≡ (not (n == 0) || rel_is_dirty r))

  base_add_stage :
      (a : ℕ) (d : D) (base : Option D) (ov : List Row) (dirty : Bool) (rev : ℕ) (cols c : Row)
      (rc : Ret) (d' : D)
      → IsRow a c
      → let r : Relation D = record {
        arity = a;
        d = d;
        base = base;
        ov = ov;
        dirty = dirty;
        rev = rev;
      } in
        LookupAdds a (base_of r) cols rc d' → BaseAdded r cols c rc (touched rc (set_base r d'))
  unfolding touched set_base base_of rel_exact_base rel_exact rel_is_idb
  base_add_stage a d none ov dirty rev cols c err d' row h =
      (h (encode_key c a), rw (h (encode_key c a)) refl, refl)
  base_add_stage a d (some b) ov dirty rev cols c err d' row h = (h (encode_key c a), refl, refl)
  base_add_stage a d none ov dirty rev cols c (ret n) d' row (count, grown) = (
    count,
    grown c row,
    rw (grown c row) (or_assoc (words_eq c cols) (lib.lookup_n d (encode_key c a)) (is_word c ov)),
    refl,
  )
  base_add_stage a d (some b) ov dirty rev cols c (ret n) d' row (count, grown) =
      (count, grown c row, refl, refl)

  -- On a relation whose columns are u32, `rel_add_base` returns 1 and adds the row to the base
  -- facts, or returns 0 for a base fact, or fails. The view gains the row where base and view are one
  -- and is as before where they are split; a failure changes no fact.
  pub rel_add_base_lem :
      (r : Relation D) (cols c : Row)
      → IsRow r.arity cols
      → IsRow r.arity c
      → let (rc, r') = rel_add_base lib r cols in BaseAdded r cols c rc r'
  unfolding rel_add_base
  rel_add_base_lem r cols c is_row is_c =
      base_add_stage r.arity r.d r.base r.ov r.dirty r.rev cols c _ _ is_c
        (add_n_lem r.arity (base_of r) cols is_row)

  -- What `rel_add` did, seen at the row `c`.
  abbrev pub ViewAdded : Relation D → Row → Row → Ret → Relation D → Type 0
  ViewAdded r cols c err r' =
      (rel_exact_base lib r' c ≡ rel_exact_base lib r c)
      × (rel_exact lib r' c ≡ rel_exact lib r c)
      × (rel_is_dirty r' ≡ rel_is_dirty r)
  ViewAdded r cols c (ret n) r' =
      (n ≡ (if lib.lookup_n r.d (encode_key cols r.arity) then 0 else 1))
      × (rel_exact lib r' c ≡ (words_eq c cols || rel_exact lib r c))
      × (rel_exact_base lib r' c ≡ (
          if rel_is_idb r
          then rel_exact_base lib r c
          else words_eq c cols || rel_exact_base lib r c))
      × (rel_is_dirty r' ≡ (not (n == 0) || rel_is_dirty r))

  view_add_stage :
      (a : ℕ) (d : D) (base : Option D) (ov : List Row) (dirty : Bool) (rev : ℕ) (cols c : Row)
      (rc : Ret) (d' : D)
      → IsRow a c
      → LookupAdds a d cols rc d'
      → let r : Relation D = record {
        arity = a;
        d = d;
        base = base;
        ov = ov;
        dirty = dirty;
        rev = rev;
      } in
        ViewAdded r cols c rc (touched rc (record r { d = d' }))
  unfolding touched base_of rel_exact_base rel_exact rel_is_idb
  view_add_stage a d none ov dirty rev cols c err d' row h =
      (h (encode_key c a), rw (h (encode_key c a)) refl, refl)
  view_add_stage a d (some b) ov dirty rev cols c err d' row h =
      (refl, rw (h (encode_key c a)) refl, refl)
  view_add_stage a d none ov dirty rev cols c (ret n) d' row (count, grown) = (
    count,
    rw (grown c row) (or_assoc (words_eq c cols) (lib.lookup_n d (encode_key c a)) (is_word c ov)),
    grown c row,
    refl,
  )
  view_add_stage a d (some b) ov dirty rev cols c (ret n) d' row (count, grown) = (
    count,
    rw (grown c row) (or_assoc (words_eq c cols) (lib.lookup_n d (encode_key c a)) (is_word c ov)),
    refl,
    refl,
  )

  -- On a relation whose columns are u32, `rel_add` returns 1 and adds the row to the view, or
  -- returns 0 for a row of the view, or fails. The base facts gain the row where base and view are
  -- one and are as before where they are split; a failure changes no fact.
  pub rel_add_lem :
      (r : Relation D) (cols c : Row)
      → IsRow r.arity cols
      → IsRow r.arity c
      → let (rc, r') = rel_add lib r cols in ViewAdded r cols c rc r'
  unfolding rel_add
  rel_add_lem r cols c is_row is_c =
      view_add_stage r.arity r.d r.base r.ov r.dirty r.rev cols c _ _ is_c
        (add_n_lem r.arity r.d cols is_row)

  -- What `rel_delete_base` did, seen at the row `c`.
  abbrev pub BaseDeleted : Relation D → Row → Row → Ret → Relation D → Type 0
  BaseDeleted r cols c err r' =
      (rel_exact_base lib r' c ≡ rel_exact_base lib r c)
      × (rel_exact lib r' c ≡ rel_exact lib r c)
      × (rel_is_dirty r' ≡ rel_is_dirty r)
  BaseDeleted r cols c (ret n) r' =
      (n ≡ (if rel_exact_base lib r cols then 1 else 0))
      × (rel_exact_base lib r' c ≡ (not (words_eq c cols) && rel_exact_base lib r c))
      × (rel_exact lib r' c ≡ (
          if rel_is_idb r then rel_exact lib r c else not (words_eq c cols) && rel_exact lib r c))
      × (rel_is_dirty r' ≡ (not (n == 0) || rel_is_dirty r))

  base_delete_stage :
      (a : ℕ) (d : D) (base : Option D) (ov : List Row) (dirty : Bool) (rev : ℕ) (cols c : Row)
      (rc : Ret) (d' : D)
      → ov ≡ []
      → IsRow a c
      → let r : Relation D = record {
        arity = a;
        d = d;
        base = base;
        ov = ov;
        dirty = dirty;
        rev = rev;
      } in
        LookupDeletes a (base_of r) cols rc d'
        → BaseDeleted r cols c rc (touched rc (set_base r d'))
  unfolding touched set_base base_of rel_exact_base rel_exact rel_is_idb is_word
  base_delete_stage a d none ov dirty rev cols c err d' flushed row h =
      (h (encode_key c a), rw (h (encode_key c a)) refl, refl)
  base_delete_stage a d (some b) ov dirty rev cols c err d' flushed row h =
      (h (encode_key c a), refl, refl)
  base_delete_stage a d none ov dirty rev cols c (ret n) d' flushed row (count, shrunk) = (
    count,
    shrunk c row,
    rw
        (
          flushed,
          or_none (lib.lookup_n d' (encode_key c a)),
          or_none (lib.lookup_n d (encode_key c a)),
        )
        (shrunk c row),
    refl,
  )
  base_delete_stage a d (some b) ov dirty rev cols c (ret n) d' flushed row (count, shrunk) =
      (count, shrunk c row, refl, refl)

  -- On a relation whose columns are u32 and whose overlay is empty, `rel_delete_base` returns 1 and
  -- takes the row out of the base facts, or returns 0 for a row that is none, or fails. The view
  -- loses the row where base and view are one and is as before where they are split; a failure
  -- changes no fact.
  pub rel_delete_base_lem :
      (r : Relation D) (cols c : Row)
      → r.ov ≡ []
      → IsRow r.arity cols
      → IsRow r.arity c
      → let (rc, r') = rel_delete_base lib r cols in BaseDeleted r cols c rc r'
  unfolding rel_delete_base
  rel_delete_base_lem r cols c flushed is_row is_c =
      base_delete_stage r.arity r.d r.base r.ov r.dirty r.rev cols c _ _ flushed is_c
        (delete_n_lem r.arity (base_of r) cols is_row)
