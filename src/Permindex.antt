-- ===== src/Permindex.antt =====
-- Permutation indices of zig/src/permindex.zig and zig/src/dl.zig (src/permindex.h, src/dl.h): copies
-- of a relation whose columns are permuted, and the order statistics on them. The sorting of a tuple
-- set is an argument of the definitions that build an index; the tuple sets that an index is built
-- from have room for every row.
pub mod Maps
pub mod Stats
pub mod Declare
use datalog_dafsa.Base.{
  ℕ, zero, suc, ◌+◌, ◌-◌, ◌^◌, ◌%◌, Bool, true, false, not, ◌&&◌, ◌||◌, Option, none, some, List,
  [], ◌∷◌, ◌++◌, map, if◌then◌else◌, ◌==◌, ltb, leb, length, get_or, set, take, replicate, words_eq,
  Ret, err, ret,
}
use datalog_dafsa.TupleSet.{Row, TupleSet, ◌>>=◌}
use datalog_dafsa.Relation.{Dafsa, Relation, rel_create, rel_build_from_tupleset, is_word}
use datalog_dafsa.Relation.Reads.{
  rel_prefix, rel_rank, rel_select, rel_range_count, keep_row, u64_max,
}
use datalog_dafsa.Vrelation.{RelEntry, fixed, variadic, entry_at, db_rel_at_arity_ro}

-- The header's cap for one relation, which no code reads, and the cap of the table.
abbrev pub max_perms_per_rel : ℕ
max_perms_per_rel = 8

abbrev pub max_perms : ℕ
max_perms = 64

pub record PermIndexEntry (D : Type 0) : Type 0 where
  pub rel_id : ℕ
  pub arity : ℕ
  pub perm : List ℕ
  pub pidx_rel : Option (Relation D)
  pub dirty : Bool

-- One of the columns is `c`.
unfoldable pub is_seen : ℕ → List ℕ → Bool
is_seen c [] = false
is_seen c (s ∷ seen) = (c == s) || is_seen c seen

-- The loop that checks that `perm` is a bijection, with the columns seen so far.
unfoldable pub check_perm : ℕ → ℕ → List ℕ → List ℕ → Bool
unfolding is_seen
check_perm arity zero perm seen = true
check_perm arity (suc left) [] seen = false
check_perm arity (suc left) (c ∷ perm) seen =
    let rest = check_perm arity left perm (c ∷ seen) in
    if leb arity c || is_seen c seen then false else rest

-- The forward map of a row: `pcols[j] = cols[perm[j]]`.
unfoldable pub forward : ℕ → List ℕ → Row → Row
forward zero perm cols = []
forward (suc left) [] cols = []
forward (suc left) (c ∷ perm) cols = get_or cols c 0 ∷ forward left perm cols

-- The inverse map into `out`: `cols_out[perm[j]] = pcols[j]`.
unfoldable pub inverse : ℕ → List ℕ → Row → Row → Row
inverse zero perm pcols out = out
inverse (suc left) [] pcols out = out
inverse (suc left) (c ∷ perm) [] out = out
inverse (suc left) (c ∷ perm) (v ∷ pcols) out = inverse left perm pcols (set out c v)

module _ {D : Type 0} where
  unfoldable pub is_index : PermIndexEntry D → ℕ → ℕ → List ℕ → Bool
  is_index e rel_id arity perm =
      (e.rel_id == rel_id) && (e.arity == arity) && words_eq (take arity e.perm) (take arity perm)

  unfoldable pub find_from : List (PermIndexEntry D) → ℕ → ℕ → List ℕ → ℕ → Option ℕ
  unfolding is_index
  find_from [] rel_id arity perm i = none
  find_from (e ∷ perms) rel_id arity perm i =
      let later = find_from perms rel_id arity perm (i + 1) in
      if is_index e rel_id arity perm then some i else later

  unfoldable pub dl_db_find_perm : List (PermIndexEntry D) → ℕ → ℕ → List ℕ → Option ℕ
  unfolding find_from
  dl_db_find_perm perms rel_id arity perm =
      if (arity == 0) || ltb 8 arity then none else find_from perms rel_id arity perm 0

  unfoldable pub dl_db_declare_perm :
      List (PermIndexEntry D) → ℕ → ℕ → List ℕ → Ret × List (PermIndexEntry D)
  unfolding check_perm dl_db_find_perm
  dl_db_declare_perm perms rel_id arity perm =
      if (arity == 0) || ltb 8 arity
      then (err, perms)
      else if leb max_perms (length perms)
      then (err, perms)
      else if not (check_perm arity arity perm [])
      then (err, perms)
      else elim (dl_db_find_perm perms rel_id arity perm) [
        | some i ↦ (ret i, perms)
        | none ↦ (
          ret (length perms),
          perms
              ++ record {
                rel_id = rel_id;
                arity = arity;
                perm = perm;
                pidx_rel = none;
                dirty = true;
              }
                ∷ [],
        )
      ]

  unfoldable pub perm_at : List (PermIndexEntry D) → ℕ → Option (PermIndexEntry D)
  perm_at [] i = none
  perm_at (e ∷ perms) zero = some e
  perm_at (e ∷ perms) (suc i) = perm_at perms i

  -- The entry with a number, if it is one of the relation.
  unfoldable pub perm_of : List (PermIndexEntry D) → ℕ → ℕ → Option (PermIndexEntry D)
  unfolding perm_at
  perm_of perms rel_id perm_id =
      perm_at perms perm_id >>= λ e. if e.rel_id == rel_id then some e else none

  unfoldable pub dl_db_get_perm : List (PermIndexEntry D) → ℕ → ℕ → Option (List ℕ)
  unfolding perm_of
  dl_db_get_perm perms rel_id perm_id = perm_of perms rel_id perm_id >>= λ e. some e.perm

  unfoldable pub dl_db_get_perm_rel : List (PermIndexEntry D) → ℕ → ℕ → Option (Relation D)
  unfolding perm_of
  dl_db_get_perm_rel perms rel_id perm_id = perm_of perms rel_id perm_id >>= λ e. e.pidx_rel

  abbrev pub dl_db_perm_count : List (PermIndexEntry D) → ℕ
  dl_db_perm_count perms = length perms

  unfoldable pub permindex_mark_dirty : List (PermIndexEntry D) → ℕ → List (PermIndexEntry D)
  permindex_mark_dirty [] rel_id = []
  permindex_mark_dirty (e ∷ perms) rel_id =
      (if e.rel_id == rel_id then record e { dirty = true } else e)
      ∷ permindex_mark_dirty perms rel_id

  unfoldable pub permindex_free_all : List (PermIndexEntry D) → List (PermIndexEntry D)
  permindex_free_all [] = []
  permindex_free_all (e ∷ perms) = record e { pidx_rel = none } ∷ permindex_free_all perms

  -- The revision that a new index starts from: that of the index it replaces.
  unfoldable pub rev_carry : PermIndexEntry D → ℕ
  rev_carry e = elim e.pidx_rel [ none ↦ 0 | some old ↦ old.rev ]

  -- `pidxRevSeed`.
  unfoldable pub pidx_rev_seed : Relation D → ℕ → Relation D
  pidx_rev_seed r rev = if ltb 0 rev then record r { rev = rev } else r

module _ {D S : Type 0} (lib : Dafsa D S) (ts_sort : List Row → List Row) where
  -- An empty index; `failed` is what a refused `rel_create` returns.
  unfoldable pub build_empty : Ret → PermIndexEntry D → Ret × PermIndexEntry D
  unfolding rel_create rev_carry pidx_rev_seed
  build_empty failed e = elim (rel_create lib e.arity) [
    | none ↦ (failed, record e { pidx_rel = none; dirty = false })
    | some r ↦ (
      ret 0,
      record e { pidx_rel = some (pidx_rev_seed r ((rev_carry e + 1) % 2 ^ 64)); dirty = false },
    )
  ]

  -- An index of rows.
  unfoldable pub build_rows : PermIndexEntry D → List Row → Ret × PermIndexEntry D
  unfolding rel_create rel_build_from_tupleset rev_carry pidx_rev_seed forward
  build_rows e rows = elim (rel_create lib e.arity) [
    | none ↦ (err, record e { pidx_rel = none })
    | some r ↦
        let pts : TupleSet = record {
          rows = ts_sort (map (forward e.arity e.perm) rows);
          cap = length rows;
          arity = e.arity;
          htab = [];
          hcap = 0;
          hused = 0;
        } in
        let (rc, built) = rel_build_from_tupleset lib (pidx_rev_seed r (rev_carry e)) pts in
        elim rc [
          | err ↦ (err, record e { pidx_rel = none })
          | ret n ↦ (ret 0, record e { pidx_rel = some built; dirty = false })
        ]
  ]

  -- `permindex_build` of an entry, from the relation of its arity.
  unfoldable pub build_entry : PermIndexEntry D → Option (Relation D) → Ret × PermIndexEntry D
  unfolding build_empty build_rows rel_prefix
  build_entry e none = build_empty err e
  build_entry e (some base) =
      let (rc, rows) = rel_prefix lib base [] 0 keep_row [] in
      let built = if length rows == 0 then build_empty (ret 0) e else build_rows e rows in
      elim rc [ err ↦ (err, e) | ret n ↦ built ]

  unfoldable pub permindex_build :
      List (RelEntry D) → List (PermIndexEntry D) → ℕ → ℕ → Ret × List (PermIndexEntry D)
  unfolding perm_of build_entry db_rel_at_arity_ro
  permindex_build rels perms rel_id perm_id = elim (perm_of perms rel_id perm_id) [
    | none ↦ (err, perms)
    | some e ↦
        let (rc, e') = build_entry e (db_rel_at_arity_ro rels rel_id e.arity) in
        (rc, set perms perm_id e')
  ]

  -- The loop of `permindex_build_dirty` from number `i` on, with `left` entries to go.
  unfoldable pub build_dirty_from :
      List (RelEntry D) → List (PermIndexEntry D) → ℕ → ℕ → Ret × List (PermIndexEntry D)
  unfolding perm_at permindex_build
  build_dirty_from rels perms i zero = (ret 0, perms)
  build_dirty_from rels perms i (suc left) = elim (perm_at perms i) [
    | none ↦ (ret 0, perms)
    | some e ↦
        let (rc, perms') = permindex_build rels perms e.rel_id i in
        let clean = build_dirty_from rels perms (i + 1) left in
        let rebuilt = build_dirty_from rels perms' (i + 1) left in
        if e.dirty then elim rc [ err ↦ (err, perms') | ret n ↦ rebuilt ] else clean
  ]

  unfoldable pub permindex_build_dirty :
      List (RelEntry D) → List (PermIndexEntry D) → Ret × List (PermIndexEntry D)
  unfolding build_dirty_from
  permindex_build_dirty rels perms = build_dirty_from rels perms 0 (length perms)

  -- `permRelRo` once the entry is found: the index, built if it is missing or dirty.
  unfoldable pub ready_index :
      List (RelEntry D)
      → List (PermIndexEntry D)
      → ℕ
      → ℕ
      → PermIndexEntry D
      → Option (Relation D × List ℕ) × List (PermIndexEntry D)
  unfolding perm_of permindex_build
  ready_index rels perms idx perm_id e =
      let (rc, perms') = permindex_build rels perms idx perm_id in
      let rebuilt : Option (Relation D × List ℕ) = elim rc [
        | err ↦ none
        | ret n ↦ perm_of perms' idx perm_id >>= λ e'. e'.pidx_rel >>= λ r. some (r, e'.perm)
      ] in
      elim e.pidx_rel [
        | none ↦ (rebuilt, perms')
        | some r ↦ if e.dirty then (rebuilt, perms') else (some (r, e.perm), perms)
      ]

  -- `permRelRo` for the relation with number `idx`.
  unfoldable pub perm_rel_ro :
      List (RelEntry D)
      → List (PermIndexEntry D)
      → ℕ
      → ℕ
      → ℕ
      → Option (Relation D × List ℕ) × List (PermIndexEntry D)
  unfolding perm_of ready_index entry_at
  perm_rel_ro rels perms idx perm_id arity = elim (perm_of perms idx perm_id) [
    | none ↦ (none, perms)
    | some e ↦ elim (entry_at rels idx) [
      | none ↦ (none, perms)
      | some (variadic name vrel) ↦ (none, perms)
      | some (fixed name a rel) ↦
          if (a == arity) && (e.arity == arity)
          then ready_index rels perms idx perm_id e
          else (none, perms)
    ]
  ]

  unfoldable pub dl_rank_perm :
      List (RelEntry D) → List (PermIndexEntry D) → ℕ → ℕ → Row → ℕ → ℕ × List (PermIndexEntry D)
  unfolding perm_rel_ro forward rel_rank
  dl_rank_perm rels perms idx perm_id cols arity =
      let (found, perms') = perm_rel_ro rels perms idx perm_id arity in
      elim found [
        | none ↦ (u64_max, perms')
        | some (r, perm) ↦ (rel_rank lib r (forward arity perm cols), perms')
      ]

  -- `out` is the caller's row.
  unfoldable pub dl_select_perm :
      List (RelEntry D)
      → List (PermIndexEntry D)
      → ℕ
      → ℕ
      → ℕ
      → Row
      → ℕ
      → Option Row × List (PermIndexEntry D)
  unfolding perm_rel_ro inverse rel_select
  dl_select_perm rels perms idx perm_id k out arity =
      let (found, perms') = perm_rel_ro rels perms idx perm_id arity in
      elim found [
        | none ↦ (none, perms')
        | some (r, perm) ↦
            (rel_select lib r k >>= λ pcols. some (inverse arity perm pcols out), perms')
      ]

  unfoldable pub dl_range_count_perm :
      List (RelEntry D)
      → List (PermIndexEntry D)
      → ℕ
      → ℕ
      → Row
      → Row
      → ℕ
      → ℕ × List (PermIndexEntry D)
  unfolding perm_rel_ro forward rel_range_count
  dl_range_count_perm rels perms idx perm_id lo hi arity =
      let (found, perms') = perm_rel_ro rels perms idx perm_id arity in
      elim found [
        | none ↦ (u64_max, perms')
        | some (r, perm) ↦
            (rel_range_count lib r (forward arity perm lo) (forward arity perm hi), perms')
      ]
