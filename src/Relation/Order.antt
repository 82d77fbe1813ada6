-- ===== src/Relation/Order.antt =====
-- The order statistics of zig/src/relation.zig on the rows of a relation: `rel_rank`, `rel_select`,
-- `rel_range_count`, `rel_count_subtree`.
use native.Mathlib.Decide.{dec_lt}
use datalog_dafsa.Base.{
  true, ℕ, ◌+◌, ◌≤◌, ◌<◌, ◌≡◌, refl, ap, ◌∙◌, not, ◌&&◌, Option, none, some, List, [], ◌∷◌,
  if◌then◌else◌, length, All, arith, inl, inr, map, ◌⊎◌,
}
use datalog_dafsa.TupleSet.{Row, row_less, ◌>>=◌}
use datalog_dafsa.Relation.{
  Dafsa, Relation, Key, words, encode_key, read_cols_be, rel_overlay_flush,
}
use datalog_dafsa.Relation.Laws.{IsDafsa, key_less, below, nth}
use datalog_dafsa.Relation.Keys.{IsRow, read-encode_key, key_less-encode_key}
use datalog_dafsa.Relation.Views.{IsKey, HasKeys}
use datalog_dafsa.Relation.Words.{between, below-between, below-nth, All-nth, nth_total, nth_past}
use datalog_dafsa.Relation.Reads.{
  ov_consolidate_for_read, rel_rank, rel_select, rel_range_count, rel_count_subtree,
}

-- The rows of a relation of arity `a`, in the order of their keys.
abbrev pub view_rows : {D S : Type 0} → Dafsa D S → Relation D → List Row
view_rows lib r = map (read_cols_be r.arity) (words lib r.d)

-- The number of rows that come before `cols`.
unfoldable pub rank_of : ℕ → List Row → Row → ℕ
rank_of a [] cols = 0
rank_of a (r ∷ rows) cols = (if row_less a r cols then 1 else 0) + rank_of a rows cols

-- The number of rows from `lo` on and before `hi`.
unfoldable pub range_of : ℕ → List Row → Row → Row → ℕ
range_of a [] lo hi = 0
range_of a (r ∷ rows) lo hi =
    (if not (row_less a r lo) && row_less a r hi then 1 else 0) + range_of a rows lo hi

key_less-row :
    (a : ℕ) (w : Key) (cols : Row)
    → IsKey a w
    → IsRow a cols
    → key_less w (encode_key cols a) ≡ row_less a (read_cols_be a w) cols
key_less-row a w cols (row, is_row, key) is_cols =
    rw (key, read-encode_key a row is_row) (key_less-encode_key a row cols is_row is_cols)

pub below-rank_of :
    (a : ℕ) (ws : List Key) (cols : Row)
    → All (IsKey a) ws
    → IsRow a cols
    → below (encode_key cols a) ws ≡ rank_of a (map (read_cols_be a) ws) cols
unfolding below rank_of
below-rank_of a [] cols h is_cols = refl
below-rank_of a (w ∷ ws) cols (key, h) is_cols =
    rw (key_less-row a w cols key is_cols, below-rank_of a ws cols h is_cols) refl

between-range_of :
    (a : ℕ) (ws : List Key) (lo hi : Row)
    → All (IsKey a) ws
    → IsRow a lo
    → IsRow a hi
    → between (encode_key lo a) (encode_key hi a) ws ≡ range_of a (map (read_cols_be a) ws) lo hi
unfolding between range_of
between-range_of a [] lo hi h is_lo is_hi = refl
between-range_of a (w ∷ ws) lo hi (key, h) is_lo is_hi =
    rw
      (
        key_less-row a w lo key is_lo,
        key_less-row a w hi key is_hi,
        between-range_of a ws lo hi h is_lo is_hi,
      )
      refl

encode-read : (a : ℕ) (w : Key) → IsKey a w → encode_key (read_cols_be a w) a ≡ w
encode-read a w (row, is_row, key) =
    rw key (ap (λ (r : Row). encode_key r a) (read-encode_key a row is_row))

module _ {D S : Type 0} (lib : Dafsa D S) where
  pub consolidate_none : (r : Relation D) → r.ov ≡ [] → ov_consolidate_for_read lib r ≡ r
  unfolding ov_consolidate_for_read rel_overlay_flush
  consolidate_none r flushed = rw flushed refl

module _ {D S : Type 0} {lib : Dafsa D S} (laws : IsDafsa lib) where
  rank_stage :
      (r : Relation D) (cols : Row)
      → r.ov ≡ []
      → rel_rank lib r cols ≡ below (encode_key cols r.arity) (words lib r.d)
  unfolding rel_rank
  rank_stage r cols flushed =
      rw (consolidate_none lib r flushed, rel_rank)
        (laws.rank_law r.d (lib.initial r.d) (encode_key cols r.arity))

  -- On a relation without a pending overlay whose words are keys of u32 rows, `rel_rank` of such a
  -- row is the number of rows that come before it in lexicographic order.
  pub rel_rank_lem :
      (r : Relation D) (cols : Row)
      → r.ov ≡ []
      → HasKeys lib r.arity r.d
      → IsRow r.arity cols
      → rel_rank lib r cols ≡ rank_of r.arity (view_rows lib r) cols
  rel_rank_lem r cols flushed keys is_cols =
      rank_stage r cols flushed ∙ below-rank_of r.arity (words lib r.d) cols keys is_cols

  -- On such a relation `rel_range_count` of two rows is the number of rows from the first on and
  -- before the second.
  pub rel_range_count_lem :
      (r : Relation D) (lo hi : Row)
      → r.ov ≡ []
      → HasKeys lib r.arity r.d
      → IsRow r.arity lo
      → IsRow r.arity hi
      → rel_range_count lib r lo hi ≡ range_of r.arity (view_rows lib r) lo hi
  unfolding rel_range_count
  rel_range_count_lem r lo hi flushed keys is_lo is_hi =
      rw (consolidate_none lib r flushed, rel_range_count)
        (laws.range_law r.d (lib.initial r.d) (encode_key lo r.arity) (encode_key hi r.arity)
          ∙ below-between (encode_key lo r.arity) (encode_key hi r.arity) (words lib r.d)
          ∙ between-range_of r.arity (words lib r.d) lo hi keys is_lo is_hi)

  pub select_stage :
      (r : Relation D) (k : ℕ)
      → r.ov ≡ []
      → rel_select lib r k ≡ (nth (words lib r.d) k >>= λ w. some (read_cols_be r.arity w))
  unfolding rel_select
  select_stage r k flushed =
      rw (consolidate_none lib r flushed, rel_select)
        (ap (λ (o : Option Key). o >>= λ w. some (read_cols_be r.arity w))
          (laws.select_law r.d (lib.initial r.d) k))

  -- On such a relation `rel_select` gives a row exactly for the numbers below `rel_count_subtree`, and
  -- `rel_rank` of the row that it gives is the number.
  pub rel_rank-rel_select :
      (r : Relation D) (k : ℕ)
      → r.ov ≡ []
      → HasKeys lib r.arity r.d
      → (k < rel_count_subtree lib true r
          × ((cols : Row) × (rel_select lib r k ≡ some cols) × (rel_rank lib r cols ≡ k)))
        ⊎ (rel_count_subtree lib true r ≤ k × (rel_select lib r k ≡ none))
  unfolding rel_count_subtree
  rel_rank-rel_select r k flushed keys = elim (dec_lt k (length (words lib r.d))) [
    | yes inside ↦
        let (w, at) = nth_total (words lib r.d) k inside in
        let back = encode-read r.arity w (All-nth (IsKey r.arity) (words lib r.d) k w keys at) in
        let selected = select_stage r k flushed in
        let ranked : rel_rank lib r (read_cols_be r.arity w) ≡ k =
          rank_stage r (read_cols_be r.arity w) flushed
          ∙ ap (λ (u : Key). below u (words lib r.d)) back
          ∙ below-nth (words lib r.d) k w (laws.ascending_law r.d) at in
        inl (rw flushed (omega arith), (read_cols_be r.arity w, rw at at selected, ranked))
    | no outside ↦
        let selected = select_stage r k flushed in
        inr (rw flushed (omega arith), rw (nth_past (words lib r.d) k (omega arith)) at selected)
  ]
