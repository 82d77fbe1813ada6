-- ===== src/Relation.antt =====
-- The relation of zig/src/relation.zig (and src/relation.h): a set of u32 tuples, kept as keys of a
-- DAFSA, with the base facts apart from the view once the relation is a rule head. The DAFSA library
-- is a parameter: `Dafsa` names the calls that the code makes. A relation is modelled as it is once
-- its files are loaded (state `.owned`), with its write overlay as the list of the overlay's rows;
-- the lazy loading, the files and the diagnostic counters are left out. Null arguments are left out.
pub mod Laws
pub mod Keys
pub mod Facts
pub mod Overlay
pub mod Views
pub mod Words
pub mod Reads
pub mod Order
pub mod Prefix
use datalog_dafsa.Base.{
  ℕ, zero, suc, ◌+◌, ◌-◌, ◌*◌, ◌/◌, ◌%◌, ◌^◌, Bool, true, false, not, ◌&&◌, ◌||◌, Option, none,
  some, List, [], ◌∷◌, ◌++◌, map, if◌then◌else◌, ◌==◌, ltb, length, get_or, take, drop, replicate,
  words_eq, Ret, err, ret,
}
use datalog_dafsa.TupleSet.{Row, TupleSet, ◌>>=◌}

abbrev pub Key : Type 0
Key = List ℕ

-- `k` is one of the keys.
unfoldable pub is_word : Key → List Key → Bool
is_word k [] = false
is_word k (w ∷ ws) = words_eq k w || is_word k ws

-- The calls of the DAFSA library. `D` is a `dafsa`, `S` the index of one of its states;
-- `suffixes d s` are the byte strings from `s` to a final state, in the order of the transitions.
pub record Dafsa (D S : Type 0) : Type 0 where
  pub create : Option D
  pub add_n : D → Key → Ret × D
  pub delete_n : D → Key → Ret × D
  pub lookup_n : D → Key → Bool
  pub build_sorted : List Key → Option D
  pub initial : D → S
  pub trans_find : D → S → ℕ → Option S
  pub suffixes : D → S → List Key
  pub rank_from : D → S → Key → ℕ
  pub select_from : D → S → ℕ → Option Key
  pub range_count_from : D → S → Key → Key → ℕ

-- A relation. `base` is `none` while its pointer is the view's.
pub record Relation (D : Type 0) : Type 0 where
  pub arity : ℕ
  pub d : D
  pub base : Option D
  pub ov : List Row
  pub dirty : Bool
  pub rev : ℕ

abbrev pub max_arity : ℕ
max_arity = 8

-- The four bytes of a column, the highest first.
abbrev pub be32 : ℕ → List ℕ
be32 v = v / 2 ^ 24 % 2 ^ 8 ∷ v / 2 ^ 16 % 2 ^ 8 ∷ v / 2 ^ 8 % 2 ^ 8 ∷ v % 2 ^ 8 ∷ []

-- `writeColsBe`.
unfoldable pub write_cols_be : ℕ → Row → Key
write_cols_be zero cols = []
write_cols_be (suc n) cols = be32 (get_or cols 0 0) ++ write_cols_be n (drop 1 cols)

-- `encodeKey`: the columns and a trailing guard.
unfoldable pub encode_key : Row → ℕ → Key
unfolding write_cols_be
encode_key cols arity = write_cols_be arity cols ++ 0 ∷ []

-- `readColsBe`.
unfoldable pub read_cols_be : ℕ → Key → Row
read_cols_be zero buf = []
read_cols_be (suc n) buf =
    let col =
      get_or buf 0 0 * 2 ^ 24 + get_or buf 1 0 * 2 ^ 16 + get_or buf 2 0 * 2 ^ 8 + get_or buf 3 0 in
    col ∷ read_cols_be n (drop 4 buf)

unfoldable pub is_ok : Ret → Bool
is_ok err = false
is_ok (ret n) = true

module _ {D : Type 0} where
  abbrev pub rel_arity : Relation D → ℕ
  rel_arity r = r.arity

  -- The base pointer.
  unfoldable pub base_of : Relation D → D
  base_of r = elim r.base [ none ↦ r.d | some b ↦ b ]

  -- A write through the base pointer: the view's as well, where the two are one.
  unfoldable pub set_base : Relation D → D → Relation D
  set_base r d' = elim r.base [ none ↦ record r { d = d' } | some b ↦ record r { base = some d' } ]

  abbrev pub mark : Relation D → Relation D
  mark r = record r { dirty = true; rev = (r.rev + 1) % 2 ^ 64 }

  -- `if (rc > 0)`.
  unfoldable pub touched : Ret → Relation D → Relation D
  touched err r = r
  touched (ret n) r = record r {
    dirty = not (n == 0) || r.dirty;
    rev = if n == 0 then r.rev else (r.rev + 1) % 2 ^ 64;
  }

  unfoldable pub rel_is_idb : Relation D → Bool
  rel_is_idb r = elim r.base [ none ↦ false | some b ↦ true ]

  abbrev pub rel_is_dirty : Relation D → Bool
  rel_is_dirty r = r.dirty

module _ {D S : Type 0} (lib : Dafsa D S) where
  -- `rel_create`.
  unfoldable pub rel_create : ℕ → Option (Relation D)
  rel_create arity =
      if (arity == 0) || ltb max_arity arity
      then none
      else (lib.create >>= λ d.
          some (record { arity = arity; d = d; base = none; ov = []; dirty = false; rev = 0 }))

  -- The words of a DAFSA, in its order.
  abbrev pub words : D → List Key
  words d = lib.suffixes d (lib.initial d)

  unfoldable pub rel_add : Relation D → Row → Ret × Relation D
  unfolding encode_key touched
  rel_add r cols =
      let (rc, d') = lib.add_n r.d (encode_key cols r.arity) in
      (rc, touched rc (record r { d = d' }))

  unfoldable pub rel_add_base : Relation D → Row → Ret × Relation D
  unfolding encode_key touched base_of set_base
  rel_add_base r cols =
      let (rc, d') = lib.add_n (base_of r) (encode_key cols r.arity) in
      (rc, touched rc (set_base r d'))

  unfoldable pub rel_delete : Relation D → Row → Ret × Relation D
  unfolding encode_key touched
  rel_delete r cols =
      let (rc, d') = lib.delete_n r.d (encode_key cols r.arity) in
      (rc, touched rc (record r { d = d' }))

  unfoldable pub rel_delete_base : Relation D → Row → Ret × Relation D
  unfolding encode_key touched base_of set_base
  rel_delete_base r cols =
      let (rc, d') = lib.delete_n (base_of r) (encode_key cols r.arity) in
      (rc, touched rc (set_base r d'))

  -- The view with the overlay.
  unfoldable pub rel_exact : Relation D → Row → Bool
  unfolding encode_key is_word
  rel_exact r cols = lib.lookup_n r.d (encode_key cols r.arity) || is_word cols r.ov

  unfoldable pub rel_exact_base : Relation D → Row → Bool
  unfolding encode_key base_of
  rel_exact_base r cols = lib.lookup_n (base_of r) (encode_key cols r.arity)

  -- `rel_overlay_add`, with `room` whether the overlay's `ts_add` has memory.
  unfoldable pub rel_overlay_add : Bool → Relation D → Row → Ret × Relation D
  unfolding encode_key is_word
  rel_overlay_add room r cols =
      if lib.lookup_n r.d (encode_key cols r.arity)
      then (ret 0, r)
      else if is_word cols r.ov
      then (ret 0, r)
      else if room
      then (ret 1, mark (record r { ov = r.ov ++ cols ∷ [] }))
      else (err, r)

  -- `rc >= 0` of a fold into the base, where it is not the view.
  unfoldable pub fold_base : Relation D → Key → Bool × Relation D
  unfolding is_ok
  fold_base r key = elim r.base [
    | none ↦ (true, r)
    | some b ↦ let (rc, b') = lib.add_n b key in (is_ok rc, record r { base = some b' })
  ]

  -- The loop of `rel_overlay_flush` over the overlay's rows.
  unfoldable pub fold_overlay : List Row → Relation D → Bool × Relation D
  unfolding fold_base encode_key is_ok
  fold_overlay [] r = (true, r)
  fold_overlay (cols ∷ rows) r =
      let key = encode_key cols r.arity in
      let (rc, d') = lib.add_n r.d key in
      let (ok, r') = fold_base (record r { d = d' }) key in
      let rest = fold_overlay rows r' in
      if not (is_ok rc) then (false, record r { d = d' }) else if ok then rest else (false, r')

  unfoldable pub rel_overlay_flush : Relation D → Ret × Relation D
  unfolding fold_overlay
  rel_overlay_flush r =
      let (ok, r') = fold_overlay r.ov r in
      if length r.ov == 0
      then (ret 0, r)
      else if ok
      then (ret 0, mark (record r' { ov = [] }))
      else (err, r')

  -- `dafsaBuildFromTs`, of sorted distinct rows.
  unfoldable pub dafsa_build_from_ts : List Row → ℕ → Option D
  unfolding encode_key
  dafsa_build_from_ts rows arity =
      if length rows == 0
      then lib.create
      else lib.build_sorted (map (λ row. encode_key row arity) rows)

  -- `dafsaCopyFrom`: the rows of the words are collected, which come in order, and built anew. `room` is
  -- how many rows the collecting tuple set has memory for: `ts_sink_cb` stops the enumeration at the
  -- first row beyond, which is no failure.
  unfoldable pub dafsa_copy_from : (room arity : ℕ) → D → Option D
  unfolding dafsa_build_from_ts read_cols_be
  dafsa_copy_from room arity d =
      dafsa_build_from_ts (take room (map (read_cols_be arity) (words d))) arity

  unfoldable pub rel_reset_view : ℕ → Relation D → Ret × Relation D
  unfolding dafsa_copy_from
  rel_reset_view room r = elim r.base [
    | none ↦ elim (dafsa_copy_from room r.arity r.d) [
      | none ↦ (err, r)
      | some b ↦ (ret 0, mark (record r { base = some b }))
    ]
    | some b ↦ elim (dafsa_copy_from room r.arity b) [
      | none ↦ (err, r)
      | some v ↦ (ret 0, mark (record r { d = v }))
    ]
  ]

  unfoldable pub rel_build_from_tupleset : Relation D → TupleSet → Ret × Relation D
  unfolding dafsa_build_from_ts
  rel_build_from_tupleset r ts =
      if not (ts.arity == r.arity) then (err, r) else elim (dafsa_build_from_ts ts.rows ts.arity) [
        | none ↦ (err, r)
        | some d' ↦ (ret 0, mark (record r { d = d' }))
      ]

  unfoldable pub rel_build_base_from_tupleset : Relation D → TupleSet → Ret × Relation D
  unfolding dafsa_build_from_ts set_base
  rel_build_base_from_tupleset r ts =
      if not (ts.arity == r.arity) then (err, r) else elim (dafsa_build_from_ts ts.rows ts.arity) [
        | none ↦ (err, r)
        | some d' ↦ (ret 0, mark (set_base r d'))
      ]
