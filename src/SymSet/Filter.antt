-- ===== src/SymSet/Filter.antt =====
-- `rel_filter_col` of zig/src/relation.zig (and src/relation.h): the rows with a member of a symbol
-- set in a column. `none` is a probing loop of the set that does not end.
use datalog_dafsa.Base.{
  ℕ, ◌+◌, ◌-◌, ◌<◌, ◌≡◌, refl, ap, true, false, Option, none, some, List, [], ◌∷◌, if◌then◌else◌,
  leb, ltb, get_or, Ret, err, ret, arith, inl, inr, Bool-cases,
}
use datalog_dafsa.TupleSet.{Row, ◌>>=◌}
use datalog_dafsa.Relation.{Dafsa, Relation, write_cols_be}
use datalog_dafsa.Relation.Reads.{
  EnumCb, enum_rows, rel_prefix, rel_prefix_d, prefix_dfs, walk_bytes, with_overlay, ov_prefix_scan,
  ov_consolidate_for_read,
}
use datalog_dafsa.Relation.Order.{view_rows, consolidate_none}
use datalog_dafsa.SymSet.{SymSet, symset_contains}
use datalog_dafsa.SymSet.Contents.{IsValid, is_member, symset_contains_lem}

-- The count of a filter and the caller's state.
abbrev pub Filtering : Type 0 → Type 0
Filtering A = Option (ℕ × A)

unfoldable pub filter_cb : {A : Type 0} → ℕ → ℕ → SymSet → EnumCb A → EnumCb (Filtering A)
unfolding symset_contains
filter_cb arity col set cb cols none = (true, none)
filter_cb arity col set cb cols (some (count, acc)) =
    if ltb col arity
    then elim (symset_contains set (get_or cols col 0)) [
      | none ↦ (true, none)
      | some hit ↦
          let (stop, acc') = cb cols acc in
          if hit then (stop, some (count + 1, acc')) else (false, some (count, acc))
    ]
    else (false, some (count, acc))

unfoldable pub rel_filter_col :
    {D S A : Type 0} → Dafsa D S → Relation D → ℕ → SymSet → EnumCb A → A → Option (Ret × A)
unfolding rel_prefix ov_consolidate_for_read filter_cb
rel_filter_col lib r col set cb acc =
    let (n, got) =
      rel_prefix lib (ov_consolidate_for_read lib r) [] 0 (filter_cb r.arity col set cb)
        (some (0, acc)) in
    if leb r.arity col
    then some (ret 0, acc)
    else (got >>= λ (count, acc'). some (elim n [ err ↦ (err, acc') | ret k ↦ (ret count, acc') ]))

-- The rows with a member in a column.
unfoldable pub rows_with : SymSet → ℕ → List Row → List Row
rows_with set col [] = []
rows_with set col (row ∷ rows) =
    if is_member set (get_or row col 0)
    then row ∷ rows_with set col rows
    else rows_with set col rows

enum_filter :
    {A : Type 0} (arity col : ℕ) (set : SymSet) (cb : EnumCb A) (rows : List Row) (n count : ℕ)
    (acc : A)
    → IsValid set
    → col < arity
    → (enum_rows (filter_cb arity col set cb) rows n (some (count, acc))).1
      ≡ some (enum_rows cb (rows_with set col rows) count acc)
unfolding enum_rows filter_cb rows_with
enum_filter arity col set cb [] n count acc v lt = refl
enum_filter arity col set cb (row ∷ rows) n count acc v lt =
    let inside : ltb col arity ≡ true = ground (arith, lt) in
    elim (Bool-cases (is_member set (get_or row col 0))) [
      | inr out ↦
          rw (symset_contains_lem set (get_or row col 0) v, inside, out)
            (enum_filter arity col set cb rows (n + 1) count acc v lt)
      | inl member ↦ elim (Bool-cases (cb row acc).0) [
        | inl stop ↦ rw (symset_contains_lem set (get_or row col 0) v, inside, member, stop) refl
        | inr go ↦
            rw (symset_contains_lem set (get_or row col 0) v, inside, member, go)
              (enum_filter arity col set cb rows (n + 1) (count + 1) (cb row acc).1 v lt)
      ]
    ]

module _ {D S : Type 0} (lib : Dafsa D S) where
  -- An enumeration of all the rows of a view whose overlay is empty.
  whole_view :
      {A : Type 0} (r : Relation D) (cb : EnumCb A) (acc : A)
      → r.ov ≡ []
      → rel_prefix lib (ov_consolidate_for_read lib r) [] 0 cb acc
        ≡ (ret (enum_rows cb (view_rows lib r) 0 acc).0, (enum_rows cb (view_rows lib r) 0 acc).1)
  unfolding rel_prefix rel_prefix_d prefix_dfs walk_bytes write_cols_be with_overlay ov_prefix_scan
  whole_view r cb acc flushed =
      let whole : r.arity - 0 ≡ r.arity = omega arith in
      let bound : ltb r.arity 0 ≡ false = ground arith in
      let (n, acc') = enum_rows cb (view_rows lib r) 0 acc in
      rw (consolidate_none lib r flushed, rel_prefix, consolidate_none lib r flushed)
        (rw (whole, bound, flushed) (ap (λ (k : ℕ). (ret k, acc')) (omega arith)))

  -- For a valid set and a column of a relation without a pending overlay, `rel_filter_col` gives the
  -- callback exactly the rows of the view with a member of the set in the column, in order and until it
  -- stops, and returns how many it was given.
  pub rel_filter_col_lem :
      {A : Type 0} (r : Relation D) (col : ℕ) (set : SymSet) (cb : EnumCb A) (acc : A)
      → IsValid set
      → r.ov ≡ []
      → col < r.arity
      → let (n, acc') = enum_rows cb (rows_with set col (view_rows lib r)) 0 acc in
        rel_filter_col lib r col set cb acc ≡ some (ret n, acc')
  unfolding rel_filter_col
  rel_filter_col_lem r col set cb acc v flushed lt =
      let inside : leb r.arity col ≡ false = ground (arith, lt) in
      rw
        (
          inside,
          whole_view r (filter_cb r.arity col set cb) (some (0, acc)) flushed,
          enum_filter r.arity col set cb (view_rows lib r) 0 0 acc v lt,
        )
        refl
