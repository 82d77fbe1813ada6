-- ===== src/Snapshot.antt =====
-- Published snapshots in zig/src/snapshot.zig (and src/snapshot.h): reads of the view of a relation, and
-- the cache of open views. A view has the calls of the DAFSA library that zig/src/relation.zig makes.
-- A slot's name is the list of its bytes before the terminating zero.
pub mod Cached
pub mod Ranked
use datalog_dafsa.Base.{
  ℕ, zero, suc, ◌+◌, ◌-◌, ◌^◌, Bool, true, false, not, ◌&&◌, ◌||◌, Option, none, some, List, [],
  ◌∷◌, map, if◌then◌else◌, ◌==◌, leb, ltb, length, take, set, words_eq, Ret, err, ret, replicate,
}
use datalog_dafsa.TupleSet.{Row, ◌>>=◌}
use datalog_dafsa.TxnWal.{Bytes}
use datalog_dafsa.Relation.{
  Dafsa, Relation, words, encode_key, read_cols_be, write_cols_be, max_arity,
}
use datalog_dafsa.Relation.Reads.{
  EnumCb, prefix_dfs, walk_bytes, u64_max, rel_rank, rel_select, rel_range_count, rel_count_subtree,
}
use datalog_dafsa.SymSet.{SymSet}
use datalog_dafsa.SymSet.Filter.{filter_cb}
use datalog_dafsa.Txn.{Db}
use datalog_dafsa.Vrelation.{RelEntry, fixed, variadic}
use datalog_dafsa.Access.{entry_named, ordstats_rel_ro}

module _ {D S : Type 0} (lib : Dafsa D S) where
  unfoldable pub view_prefix : {A : Type 0} → D → ℕ → Row → ℕ → EnumCb A → A → Ret × A
  unfolding prefix_dfs walk_bytes write_cols_be
  view_prefix v arity leading k cb acc =
      let (n, acc') =
        prefix_dfs lib arity v leading k cb acc
          (walk_bytes lib v (lib.initial v) (write_cols_be k leading)) in
      if ltb arity k || ltb max_arity arity then (err, acc) else (ret n, acc')

  -- `none` is a probing loop of the set that does not end.
  unfoldable pub view_filter_col :
      {A : Type 0} → D → ℕ → ℕ → SymSet → EnumCb A → A → Option (Ret × A)
  unfolding view_prefix filter_cb
  view_filter_col v arity col set cb acc =
      let (n, got) = view_prefix v arity [] 0 (filter_cb arity col set cb) (some (0, acc)) in
      if leb arity col
      then some (ret 0, acc)
      else (got >>= λ (count, acc').
          some (elim n [ err ↦ (err, acc') | ret k ↦ (ret count, acc') ]))

  unfoldable pub view_rank : D → ℕ → Row → ℕ
  unfolding encode_key
  view_rank v arity cols =
      if ltb max_arity arity then 0 else lib.rank_from v (lib.initial v) (encode_key cols arity)

  unfoldable pub view_select : D → ℕ → ℕ → Option Row
  unfolding read_cols_be
  view_select v arity k =
      if ltb max_arity arity
      then none
      else (lib.select_from v (lib.initial v) k >>= λ key. some (read_cols_be arity key))

  unfoldable pub view_range_count : D → ℕ → Row → Row → ℕ
  unfolding encode_key
  view_range_count v arity lo hi =
      if ltb max_arity arity
      then 0
      else lib.range_count_from v (lib.initial v) (encode_key lo arity) (encode_key hi arity)

  unfoldable pub view_count : D → ℕ
  view_count v = length (words lib v)

-- What the manifest and the cache give for a relation of the published version.
pub record Published (D : Type 0) : Type 0 where
  pub view : D
  pub arity : ℕ
  pub variadic : Bool

-- The view for the order statistics of an arity.
abbrev pub view_at : {D : Type 0} → Option (Published D) → ℕ → Option D
view_at none arity = none
view_at (some p) arity = if p.variadic || not (p.arity == arity) then none else some p.view

-- The reads of `dl.zig`: of the snapshot once a version is published (`none` is version 0), else live.
module _ {D S : Type 0} (lib : Dafsa D S) where
  unfoldable pub dl_rank : Option (Option (Published D)) → Db D → Bytes → Row → ℕ → ℕ
  unfolding view_rank rel_rank ordstats_rel_ro
  dl_rank (some p) db name cols arity = elim (view_at p arity) [
    | none ↦ u64_max
    | some v ↦ view_rank lib v arity cols
  ]
  dl_rank none db name cols arity = elim (ordstats_rel_ro db name arity) [
    | none ↦ u64_max
    | some r ↦ rel_rank lib r cols
  ]

  unfoldable pub dl_select : Option (Option (Published D)) → Db D → Bytes → ℕ → ℕ → Option Row
  unfolding view_select rel_select ordstats_rel_ro
  dl_select (some p) db name k arity = view_at p arity >>= λ v. view_select lib v arity k
  dl_select none db name k arity = ordstats_rel_ro db name arity >>= λ r. rel_select lib r k

  unfoldable pub dl_range_count : Option (Option (Published D)) → Db D → Bytes → Row → Row → ℕ → ℕ
  unfolding view_range_count rel_range_count ordstats_rel_ro
  dl_range_count (some p) db name lo hi arity = elim (view_at p arity) [
    | none ↦ u64_max
    | some v ↦ view_range_count lib v arity lo hi
  ]
  dl_range_count none db name lo hi arity = elim (ordstats_rel_ro db name arity) [
    | none ↦ u64_max
    | some r ↦ rel_range_count lib r lo hi
  ]

  unfoldable pub dl_count : Bool → Option (Option (Published D)) → Db D → Bytes → ℕ
  unfolding view_count rel_count_subtree entry_named
  dl_count counted (some p) db name = elim p [
    | none ↦ u64_max
    | some q ↦ if q.variadic then u64_max else view_count lib q.view
  ]
  dl_count counted none db name = elim (entry_named db name) [
    | none ↦ u64_max
    | some e ↦ elim e [
      | variadic vname v ↦ u64_max
      | fixed fname a r ↦ rel_count_subtree lib counted r
    ]
  ]

abbrev pub dl_view_cache_sz : ℕ
dl_view_cache_sz = 8

-- A slot of the cache.
pub record ViewCacheSlot (V : Type 0) : Type 0 where
  pub rel_name : Bytes
  pub view : Option V
  pub used : ℕ
  pub version : ℕ

abbrev pub free_slot : {V : Type 0} → ViewCacheSlot V
free_slot = record { rel_name = []; view = none; used = 0; version = 0 }

module _ {V : Type 0} where
  unfoldable pub vcache_invalidate : List (ViewCacheSlot V) → List (ViewCacheSlot V)
  vcache_invalidate vcache = map (λ slot. free_slot) vcache

  unfoldable pub vcache_drop_version : List (ViewCacheSlot V) → ℕ → List (ViewCacheSlot V)
  vcache_drop_version [] version = []
  vcache_drop_version (slot ∷ vcache) version =
      (elim slot.view [
        | none ↦ slot
        | some v ↦ if slot.version == version then free_slot else slot
      ])
      ∷ vcache_drop_version vcache version

  -- Whether a slot has a view of the relation at the version.
  abbrev pub answers : ViewCacheSlot V → Bytes → ℕ → Option V
  answers slot name version =
      if (slot.version == version) && words_eq slot.rel_name name then slot.view else none

  -- The search of the cache: the view that it finds, and the cache with the use counted.
  unfoldable pub find_cached :
      List (ViewCacheSlot V) → Bytes → ℕ → Option (V × List (ViewCacheSlot V))
  find_cached [] name version = none
  find_cached (slot ∷ vcache) name version =
      let later = find_cached vcache name version in
      elim (answers slot name version) [
        | some v ↦ some (v, record slot { used = slot.used + 1 } ∷ vcache)
        | none ↦ later >>= λ (v, vcache'). some (v, slot ∷ vcache')
      ]

  -- The first slot without a view, from index `i` on.
  unfoldable pub empty_from : List (ViewCacheSlot V) → ℕ → Option ℕ
  empty_from [] i = none
  empty_from (slot ∷ vcache) i = elim slot.view [
    | none ↦ some i
    | some v ↦ empty_from vcache (i + 1)
  ]

  -- The slot that was used least.
  unfoldable pub lru_from : List (ViewCacheSlot V) → ℕ → ℕ → ℕ → ℕ
  lru_from [] i idx used_val = idx
  lru_from (slot ∷ vcache) i idx used_val =
      let hit = lru_from vcache (i + 1) i slot.used in
      let miss = lru_from vcache (i + 1) idx used_val in
      if ltb slot.used used_val then hit else miss

  -- `opened` is what opening the file of the relation at the version gives.
  unfoldable pub view_open_cached :
      List (ViewCacheSlot V) → Bytes → ℕ → Option V → Option V × List (ViewCacheSlot V)
  unfolding find_cached empty_from lru_from
  view_open_cached vcache name version opened = elim (find_cached vcache name version) [
    | some (v, vcache') ↦ (some v, vcache')
    | none ↦ elim opened [
      | none ↦ (none, vcache)
      | some v ↦
          let idx : ℕ = elim (empty_from vcache 0) [
            | some i ↦ i
            | none ↦ lru_from vcache 0 0 (2 ^ 31 - 1)
          ] in
          (
            some v,
            set vcache idx
                (record { rel_name = take 63 name; view = some v; used = 1; version = version }),
          )
    ]
  ]
