-- ===== src/Relation/Reads.antt =====
-- The reads of zig/src/relation.zig that walk the DAFSA: order statistics, enumeration by prefix, by
-- the range of the first column. A read folds a pending overlay into the DAFSA first, and the relation
-- is `ov_consolidate_for_read r` from then on.
use datalog_dafsa.Base.{
  ℕ, zero, suc, ◌+◌, ◌-◌, ◌^◌, Bool, true, false, ◌&&◌, Option, none, some, List, [], ◌∷◌, ◌++◌,
  map, if◌then◌else◌, ◌==◌, ltb, leb, length, get_or, take, drop, replicate, Ret, err, ret,
}
use datalog_dafsa.TupleSet.{Row, ◌>>=◌}
use datalog_dafsa.Relation.{
  Dafsa, Relation, Key, words, encode_key, write_cols_be, read_cols_be, rel_overlay_flush, base_of,
  max_arity,
}

abbrev pub u64_max : ℕ
u64_max = 2 ^ 64 - 1

-- A callback of an enumeration: whether it stops the walk, and its state afterwards.
abbrev pub EnumCb : Type 0 → Type 0
EnumCb A = Row → A → Bool × A

-- The rows go to the callback until it stops; `n` rows went before.
unfoldable pub enum_rows : {A : Type 0} → EnumCb A → List Row → ℕ → A → ℕ × A
enum_rows cb [] n a = (n, a)
enum_rows cb (r ∷ rows) n a =
    let (stop, a') = cb r a in
    let later = enum_rows cb rows (n + 1) a' in if stop then (n + 1, a') else later

-- `ovScanCb`: the first `k` columns are the sought ones.
unfoldable pub leads : ℕ → Row → Row → Bool
leads zero p l = true
leads (suc k) p l = (get_or p 0 0 == get_or l 0 0) && leads k (drop 1 p) (drop 1 l)

-- `ovPrefixScan`: the matching rows all go to the callback.
unfoldable pub ov_prefix_scan : {A : Type 0} → EnumCb A → ℕ → Row → List Row → ℕ → A → ℕ × A
unfolding leads
ov_prefix_scan cb k leading [] n a = (n, a)
ov_prefix_scan cb k leading (r ∷ rows) n a =
    let hit = ov_prefix_scan cb k leading rows (n + 1) (cb r a).1 in
    let miss = ov_prefix_scan cb k leading rows n a in if leads k r leading then hit else miss

-- A callback that keeps the rows.
abbrev pub keep_row : EnumCb (List Row)
keep_row r rows = (false, rows ++ r ∷ [])

module _ {D S : Type 0} (lib : Dafsa D S) where
  unfoldable pub ov_consolidate_for_read : Relation D → Relation D
  unfolding rel_overlay_flush
  ov_consolidate_for_read r = (rel_overlay_flush lib r).1

  unfoldable pub rel_rank : Relation D → Row → ℕ
  unfolding ov_consolidate_for_read encode_key
  rel_rank r cols =
      let d = (ov_consolidate_for_read r).d in
      lib.rank_from d (lib.initial d) (encode_key cols r.arity)

  unfoldable pub rel_select : Relation D → ℕ → Option Row
  unfolding ov_consolidate_for_read read_cols_be
  rel_select r k =
      let d = (ov_consolidate_for_read r).d in
      lib.select_from d (lib.initial d) k >>= λ key. some (read_cols_be r.arity key)

  unfoldable pub rel_range_count : Relation D → Row → Row → ℕ
  unfolding ov_consolidate_for_read encode_key
  rel_range_count r lo hi =
      let d = (ov_consolidate_for_read r).d in
      lib.range_count_from d (lib.initial d) (encode_key lo r.arity) (encode_key hi r.arity)

  -- The words of the view, which count as none where the array of the subtree counts finds no memory
  -- (`counted` is false), and the rows of the overlay.
  unfoldable pub rel_count_subtree : Bool → Relation D → ℕ
  rel_count_subtree counted r = (if counted then length (words lib r.d) else 0) + length r.ov

  -- The walk along the bytes of a prefix.
  unfoldable pub walk_bytes : D → S → Key → Option S
  walk_bytes d s [] = some s
  walk_bytes d s (b ∷ bytes) = lib.trans_find d s b >>= λ t. walk_bytes d t bytes

  unfoldable pub rel_prefix_state : Relation D → Row → ℕ → Option S
  unfolding walk_bytes write_cols_be ov_consolidate_for_read
  rel_prefix_state r leading k =
      let d = (ov_consolidate_for_read r).d in
      walk_bytes d (lib.initial d) (write_cols_be k leading)

  unfoldable pub rel_rank_bound : Relation D → Row → ℕ → Row → ℕ
  unfolding rel_prefix_state ov_consolidate_for_read encode_key
  rel_rank_bound r leading k cols =
      let d = (ov_consolidate_for_read r).d in
      if ltb r.arity k then u64_max else elim (rel_prefix_state r leading k) [
        | none ↦ 0
        | some s ↦ lib.rank_from d s (encode_key (drop k cols) (r.arity - k))
      ]

  unfoldable pub rel_select_bound : Relation D → Row → ℕ → ℕ → Option Row
  unfolding rel_prefix_state ov_consolidate_for_read read_cols_be
  rel_select_bound r leading k idx =
      let d = (ov_consolidate_for_read r).d in
      if ltb r.arity k
      then none
      else (rel_prefix_state r leading k >>= λ s. lib.select_from d s idx >>= λ key.
          some (take k leading ++ read_cols_be (r.arity - k) key))

  unfoldable pub rel_range_count_bound : Relation D → Row → ℕ → Row → Row → ℕ
  unfolding rel_prefix_state ov_consolidate_for_read encode_key
  rel_range_count_bound r leading k lo hi =
      let d = (ov_consolidate_for_read r).d in
      if ltb r.arity k then u64_max else elim (rel_prefix_state r leading k) [
        | none ↦ 0
        | some s ↦
            lib.range_count_from d s (encode_key (drop k lo) (r.arity - k))
              (encode_key (drop k hi) (r.arity - k))
      ]

  -- `prefixDfs` from the state of the prefix: what its recursion finds behind a state, the byte strings to
  -- the final states in the order of the transitions, is the parameter `suffixes`.
  unfoldable pub prefix_dfs : {A : Type 0} → ℕ → D → Row → ℕ → EnumCb A → A → Option S → ℕ × A
  unfolding read_cols_be enum_rows
  prefix_dfs arity d leading k cb a none = (0, a)
  prefix_dfs arity d leading k cb a (some s) =
      enum_rows cb (map (λ w. take k leading ++ read_cols_be (arity - k) w) (lib.suffixes d s)) 0 a

  -- `relPrefixD`.
  unfoldable pub rel_prefix_d : {A : Type 0} → ℕ → D → Row → ℕ → EnumCb A → A → Ret × A
  unfolding walk_bytes write_cols_be prefix_dfs
  rel_prefix_d arity d leading k cb a =
      let (n, a') =
        prefix_dfs arity d leading k cb a
          (walk_bytes d (lib.initial d) (write_cols_be k leading)) in
      if ltb arity k then (err, a) else (ret n, a')

  -- The overlay's part of `rel_prefix`.
  unfoldable pub with_overlay : {A : Type 0} → EnumCb A → ℕ → Row → List Row → Ret × A → Ret × A
  unfolding ov_prefix_scan
  with_overlay cb k leading ov (err, a) = (err, a)
  with_overlay cb k leading ov (ret n, a) =
      let (m, a') = ov_prefix_scan cb k leading ov 0 a in (ret (n + m), a')

  unfoldable pub rel_prefix : {A : Type 0} → Relation D → Row → ℕ → EnumCb A → A → Ret × A
  unfolding rel_prefix_d with_overlay ov_consolidate_for_read
  rel_prefix r leading k cb a =
      let r' = ov_consolidate_for_read r in
      with_overlay cb k leading r'.ov (rel_prefix_d r'.arity r'.d leading k cb a)

  unfoldable pub rel_prefix_base : {A : Type 0} → Relation D → Row → ℕ → EnumCb A → A → Ret × A
  unfolding rel_prefix_d base_of
  rel_prefix_base r leading k cb a = rel_prefix_d r.arity (base_of r) leading k cb a

  unfoldable pub rel_has_col0 : Relation D → ℕ → Bool
  unfolding rel_prefix_state
  rel_has_col0 r x = elim (rel_prefix_state r (x ∷ []) 1) [ none ↦ false | some s ↦ true ]

  -- The loop of `rel_range_each` from rank `k` on, with `left` ranks to go.
  unfoldable pub range_loop : {A : Type 0} → Relation D → EnumCb A → ℕ → ℕ → ℕ → A → Ret × A
  unfolding rel_select
  range_loop r cb zero k count a = (ret count, a)
  range_loop r cb (suc left) k count a = elim (rel_select r k) [
    | none ↦ (err, a)
    | some cols ↦
        let (stop, a') = cb cols a in
        let later = range_loop r cb left (k + 1) (count + 1) a' in
        if stop then (ret (count + 1), a') else later
  ]

  unfoldable pub rel_range_each : {A : Type 0} → Relation D → ℕ → ℕ → EnumCb A → A → Ret × A
  unfolding rel_rank range_loop
  rel_range_each r lo hi cb a =
      let r0 = rel_rank r (lo ∷ replicate (max_arity - 1) 0) in
      let r1 = rel_rank r (hi ∷ replicate (max_arity - 1) 0) in
      if leb hi lo then (ret 0, a) else range_loop r cb (r1 - r0) r0 0 a
