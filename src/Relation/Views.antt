-- ===== src/Relation/Views.antt =====
-- The split of a relation into base facts and view: `rel_reset_view`, `rel_build_from_tupleset` and
-- `rel_build_base_from_tupleset` of zig/src/relation.zig.
use datalog_dafsa.Base.{
  take, take_all, ◌≤◌, subst, ℕ, suc, ◌≡◌, refl, sym, ap, ◌∙◌, Bool, true, false, ◌||◌, Option,
  none, some, List, [], ◌∷◌, map, Ret, err, ret, All, arith, length, ◌==◌, ==_ne,
}
use datalog_dafsa.TupleSet.{Row}
use datalog_dafsa.Relation.{
  Dafsa, Relation, words, is_word, encode_key, read_cols_be, rel_exact, rel_exact_base, rel_is_idb,
  mark, base_of, Key, dafsa_build_from_ts, dafsa_copy_from, rel_reset_view,
}
use datalog_dafsa.Relation.Laws.{IsDafsa, IsAscending}
use datalog_dafsa.Relation.Keys.{IsRow, read-encode_key}

-- A word that is the key of a row of `a` u32 columns.
abbrev pub IsKey : ℕ → Key → Type 0
IsKey a w = (row : Row) × IsRow a row × (w ≡ encode_key row a)

-- Every word of the DAFSA is a key.
abbrev pub HasKeys : {D S : Type 0} → Dafsa D S → ℕ → D → Type 0
HasKeys lib a d = All (IsKey a) (words lib d)

-- Decoding and encoding again gives the keys.
recode :
    (a : ℕ) (ws : List Key)
    → All (IsKey a) ws
    → map (λ row. encode_key row a) (map (read_cols_be a) ws) ≡ ws
recode a [] h = refl
recode a (w ∷ ws) ((row, is_row, key), h) =
    let back : encode_key (read_cols_be a w) a ≡ w =
      rw key (ap (λ (r : Row). encode_key r a) (read-encode_key a row is_row)) in
    rw (back, recode a ws h) refl

count_rows : (a : ℕ) (ws : List Key) → length (map (read_cols_be a) ws) ≡ length ws
count_rows a [] = refl
count_rows a (w ∷ ws) = ap suc (count_rows a ws)

module _ {D S : Type 0} {lib : Dafsa D S} (laws : IsDafsa lib) where
  -- A DAFSA built from rows has their keys, where these ascend.
  pub build-words :
      (rows : List Row) (a : ℕ) (n : D)
      → IsAscending (map (λ row. encode_key row a) rows)
      → dafsa_build_from_ts lib rows a ≡ some n
      → words lib n ≡ map (λ row. encode_key row a) rows
  unfolding dafsa_build_from_ts
  build-words [] a n ascends built = laws.create_law n built
  build-words (row ∷ rows) a n ascends built =
      let filled : (suc (length rows) == 0) ≡ false = ==_ne (suc (length rows)) 0 (omega arith) in
      laws.build_law (map (λ cols. encode_key cols a) (row ∷ rows)) n ascends (rw filled at built)

  -- A DAFSA that `dafsaCopyFrom` gives has the words of the one copied.
  copy-words :
      (room a : ℕ) (d n : D)
      → HasKeys lib a d
      → length (words lib d) ≤ room
      → dafsa_copy_from lib room a d ≡ some n
      → words lib n ≡ words lib d
  unfolding dafsa_copy_from
  copy-words room a d n keys fits copied =
      let same = recode a (words lib d) keys in
      let rows : List Row = map (read_cols_be a) (words lib d) in
      let all : take room rows ≡ rows =
        take_all room rows (omega (arith, fits, count_rows a (words lib d))) in
      build-words rows a n (subst IsAscending (sym same) (laws.ascending_law d))
        (ap (λ (rs : List Row). dafsa_build_from_ts lib rs a) (sym all) ∙ copied)
      ∙ same

  copy-lookup :
      (room a : ℕ) (d n : D) (k : Key)
      → HasKeys lib a d
      → length (words lib d) ≤ room
      → dafsa_copy_from lib room a d ≡ some n
      → lib.lookup_n n k ≡ lib.lookup_n d k
  copy-lookup room a d n k keys fits copied =
      laws.lookup_law n k
      ∙ ap (is_word k) (copy-words room a d n keys fits copied)
      ∙ sym (laws.lookup_law d k)

  -- `rel_reset_view` seen at the row `c`.
  abbrev pub IsReset : Relation D → Row → Ret → Relation D → Type 0
  IsReset r c err r' = r' ≡ r
  IsReset r c (ret n) r' =
      (n ≡ 0)
      × (rel_is_idb r' ≡ true)
      × (rel_exact_base lib r' c ≡ rel_exact_base lib r c)
      × (rel_exact lib r' c ≡ (rel_exact_base lib r c || is_word c r.ov))

  split_stage :
      (room : ℕ) (r : Relation D) (c : Row) (o : Option D)
      → r.base ≡ none
      → HasKeys lib r.arity r.d
      → length (words lib r.d) ≤ room
      → dafsa_copy_from lib room r.arity r.d ≡ o
      → let (rc, r') : Ret × Relation D = elim o [
        | none ↦ (err, r)
        | some b ↦ (ret 0, mark (record r { base = some b }))
      ] in
        IsReset r c rc r'
  unfolding rel_is_idb rel_exact_base rel_exact base_of
  split_stage room r c none alias keys fits copied = refl
  split_stage room r c (some b) alias keys fits copied =
      let same = copy-lookup room r.arity r.d b (encode_key c r.arity) keys fits copied in
      (refl, refl, rw alias same, rw alias refl)

  copied_stage :
      (room : ℕ) (r : Relation D) (b : D) (c : Row) (o : Option D)
      → r.base ≡ some b
      → HasKeys lib r.arity b
      → length (words lib b) ≤ room
      → dafsa_copy_from lib room r.arity b ≡ o
      → let (rc, r') : Ret × Relation D = elim o [
        | none ↦ (err, r)
        | some v ↦ (ret 0, mark (record r { d = v }))
      ] in
        IsReset r c rc r'
  unfolding rel_is_idb rel_exact_base rel_exact base_of
  copied_stage room r b c none split keys fits copied = refl
  copied_stage room r b c (some v) split keys fits copied =
      let same = copy-lookup room r.arity b v (encode_key c r.arity) keys fits copied in
      (refl, rw split refl, rw split refl, rw (same, split) refl)

  fields_stage :
      (room a : ℕ) (d : D) (base : Option D) (ov : List Row) (dirty : Bool) (rev : ℕ) (c : Row)
      → let r : Relation D = record {
        arity = a;
        d = d;
        base = base;
        ov = ov;
        dirty = dirty;
        rev = rev;
      } in
        HasKeys lib a (base_of r)
        → length (words lib (base_of r)) ≤ room
        → let (rc, r') = rel_reset_view lib room r in IsReset r c rc r'
  unfolding rel_reset_view base_of
  fields_stage room a d none ov dirty rev c keys fits = split_stage room _ c _ refl keys fits refl
  fields_stage room a d (some b) ov dirty rev c keys fits =
      copied_stage room _ b c _ refl keys fits refl

  -- On a relation whose base holds keys of u32 rows, no more than the collecting tuple set has memory
  -- for, `rel_reset_view` keeps the base facts and leaves a view, split from the base, of the base
  -- facts and the overlay; a failure changes nothing.
  pub rel_reset_view_lem :
      (room : ℕ) (r : Relation D) (c : Row)
      → HasKeys lib r.arity (base_of r)
      → length (words lib (base_of r)) ≤ room
      → let (rc, r') = rel_reset_view lib room r in IsReset r c rc r'
  rel_reset_view_lem room r c keys fits =
      fields_stage room r.arity r.d r.base r.ov r.dirty r.rev c keys fits
