-- ===== src/Relation/Prefix.antt =====
-- `rel_prefix` of zig/src/relation.zig: the rows of the view that begin with the given columns.
use datalog_dafsa.Base.{
  ℕ, zero, suc, ◌-◌, ◌/◌, ◌%◌, ◌^◌, ◌≤◌, ◌<◌, ◌≡◌, refl, sym, ap, ◌∙◌, Bool, true, false, ◌&&◌,
  Option, none, some, List, [], ◌∷◌, ◌++◌, map, if◌then◌else◌, ◌==◌, ltb, length, take, drop, ret,
  arith, All, inl, inr, Bool-cases, ==_iff,
}
use datalog_dafsa.TupleSet.{Row, ◌>>=◌}
use datalog_dafsa.Relation.{
  Dafsa, Relation, Key, words, be32, encode_key, write_cols_be, read_cols_be,
}
use datalog_dafsa.Relation.Laws.{IsDafsa, starts}
use datalog_dafsa.Relation.Keys.{IsRow, read-write, read-encode_key}
use datalog_dafsa.Relation.Views.{IsKey, HasKeys}
use datalog_dafsa.Relation.Reads.{
  EnumCb, enum_rows, leads, walk_bytes, prefix_dfs, rel_prefix, rel_prefix_d, with_overlay,
  ov_prefix_scan,
}
use datalog_dafsa.Relation.Order.{view_rows, consolidate_none}

-- The rests of the words that begin with some bytes.
unfoldable pub after : Key → List Key → List Key
unfolding starts
after [] ws = ws
after (b ∷ bytes) ws = after bytes (starts b ws)

after_none : (bytes : Key) → after bytes [] ≡ []
unfolding after starts
after_none [] = refl
after_none (b ∷ bytes) = after_none bytes

-- The rest of a word behind some bytes.
unfoldable strip : Key → Key → Option Key
strip [] w = some w
strip (b ∷ bytes) [] = none
strip (b ∷ bytes) (x ∷ w) = let rest = strip bytes w in if x == b then rest else none

abbrev keep : Option Key → List Key → List Key
keep none ws = ws
keep (some w) ws = w ∷ ws

after-strip :
    (bytes w : Key) (ws : List Key) → after bytes (w ∷ ws) ≡ keep (strip bytes w) (after bytes ws)
unfolding after strip starts
after-strip [] w ws = refl
after-strip (b ∷ bytes) [] ws = refl
after-strip (b ∷ bytes) (x ∷ w) ws = elim (Bool-cases (x == b)) [
  | inl same ↦ rw same (after-strip bytes w (starts b ws))
  | inr other ↦ rw other refl
]

bytes_same :
    (x y : ℕ)
    → x < 2 ^ 32
    → y < 2 ^ 32
    → ((x / 2 ^ 24 % 2 ^ 8 == y / 2 ^ 24 % 2 ^ 8)
        && ((x / 2 ^ 16 % 2 ^ 8 == y / 2 ^ 16 % 2 ^ 8)
            && ((x / 2 ^ 8 % 2 ^ 8 == y / 2 ^ 8 % 2 ^ 8) && (x % 2 ^ 8 == y % 2 ^ 8))))
      ≡ (x == y)
bytes_same x y h k = ground arith

all_of :
    (a b c d : Bool) (r : Option Key)
    → (if a then if b then if c then if d then r else none else none else none else none)
      ≡ (if a && (b && (c && d)) then r else none)
all_of true true true d r = refl
all_of true true false d r = refl
all_of true false c d r = refl
all_of false b c d r = refl

strip-be32 :
    (x y : ℕ) (bytes w : Key)
    → x < 2 ^ 32
    → y < 2 ^ 32
    → strip (be32 y ++ bytes) (be32 x ++ w) ≡ (if x == y then strip bytes w else none)
unfolding strip
strip-be32 x y bytes w h k =
    all_of (x / 2 ^ 24 % 2 ^ 8 == y / 2 ^ 24 % 2 ^ 8) (x / 2 ^ 16 % 2 ^ 8 == y / 2 ^ 16 % 2 ^ 8)
      (x / 2 ^ 8 % 2 ^ 8 == y / 2 ^ 8 % 2 ^ 8) (x % 2 ^ 8 == y % 2 ^ 8) (strip bytes w)
    ∙ ap (λ (b : Bool). if b then strip bytes w else none) (bytes_same x y h k)

-- What is left of a row's key behind the columns of another.
strip-write :
    (k a : ℕ) (leading row : Row) (rest : Key)
    → k ≤ a
    → IsRow k leading
    → IsRow a row
    → strip (write_cols_be k leading) (write_cols_be a row ++ rest)
      ≡ (if leads k row leading then some (write_cols_be (a - k) (drop k row) ++ rest) else none)
unfolding strip write_cols_be leads
strip-write zero a leading row rest le is_l is_r =
    ap (λ (n : ℕ). some (write_cols_be n row ++ rest)) (omega arith)
strip-write (suc k) zero leading row rest le is_l is_r = absurd (omega (arith, le))
strip-write (suc k) (suc a) [] row rest le (is_l, _) is_r = absurd (omega (arith, is_l))
strip-write (suc k) (suc a) (l ∷ leading) [] rest le is_l (is_r, _) = absurd (omega (arith, is_r))
strip-write (suc k) (suc a) (l ∷ leading) (x ∷ row) rest le (is_l, ls) (is_r, xs) =
    let later =
      strip-write k a leading row rest (omega (arith, le)) (omega (arith, is_l), ls.1)
        (omega (arith, is_r), xs.1) in
    let fewer : suc a - suc k ≡ a - k = omega arith in
    strip-be32 x l (write_cols_be k leading) (write_cols_be a row ++ rest) xs.0 ls.0
    ∙ rw (later, fewer)
        (elim (Bool-cases (x == l)) [ inl same ↦ rw same refl | inr other ↦ rw other refl ])

-- The rows that begin with the first `k` columns of another.
unfoldable pub rows_under : ℕ → Row → List Row → List Row
unfolding leads
rows_under k leading [] = []
rows_under k leading (row ∷ rows) =
    let rest = rows_under k leading rows in if leads k row leading then row ∷ rest else rest

-- A row that begins with the columns is these columns and its other ones.
rejoin :
    (k a : ℕ) (leading row : Row)
    → k ≤ a
    → length leading ≡ k
    → length row ≡ a
    → leads k row leading ≡ true
    → take k leading ++ drop k row ≡ row
unfolding leads
rejoin zero a leading row le is_l is_r lead = refl
rejoin (suc k) a [] row le is_l is_r lead = absurd (omega (arith, is_l))
rejoin (suc k) zero (l ∷ leading) [] le is_l is_r lead = absurd (omega (arith, le))
rejoin (suc k) (suc a) (l ∷ leading) [] le is_l is_r lead = absurd (omega (arith, is_r))
rejoin (suc k) zero (l ∷ leading) (x ∷ row) le is_l is_r lead = absurd (omega (arith, le))
rejoin (suc k) (suc a) (l ∷ leading) (x ∷ row) le is_l is_r lead = elim (Bool-cases (x == l)) [
  | inr other ↦ absurd (never (rw (leads, other) at lead))
  | inl same ↦
      let at : x ≡ l = (==_iff x l).0 same in
      let later : leads k row leading ≡ true = rw (leads, same) at lead in
      rw at (
        ap (◌∷◌ l) (
          rejoin k a leading row (omega (arith, le)) (omega (arith, is_l)) (omega (arith, is_r))
            later))
]
  where
    never : false ≡ true → ⊥
    never e = cc

drop-IsRow : (k a : ℕ) (row : Row) → k ≤ a → IsRow a row → IsRow (a - k) (drop k row)
drop-IsRow zero a row le (size, small) = (omega (arith, size), small)
drop-IsRow (suc k) a [] le (size, small) = absurd (omega (arith, size, le))
drop-IsRow (suc k) a (x ∷ row) le (size, small) =
    let (size', small') =
      drop-IsRow k (a - 1) row (omega (arith, le)) (omega (arith, size, le), small.1) in
    (omega (arith, size', le), small')

under_lem :
    (k a : ℕ) (leading : Row) (ws : List Key)
    → k ≤ a
    → IsRow k leading
    → All (IsKey a) ws
    → map (λ w. take k leading ++ read_cols_be (a - k) w) (after (write_cols_be k leading) ws)
      ≡ rows_under k leading (map (read_cols_be a) ws)
unfolding rows_under encode_key
under_lem k a leading [] le is_l keys = rw (after_none (write_cols_be k leading)) refl
under_lem k a leading (w ∷ ws) le is_l ((row, is_row, key), keys) =
    let head : strip (write_cols_be k leading) w ≡ (
        if leads k row leading then some (write_cols_be (a - k) (drop k row) ++ 0 ∷ []) else none) =
      rw key (strip-write k a leading row (0 ∷ []) le is_l is_row) in
    let back : read_cols_be a w ≡ row = rw key (read-encode_key a row is_row) in
    let rest = under_lem k a leading ws le is_l keys in
    rw (after-strip (write_cols_be k leading) w ws, head, back)
      (elim (Bool-cases (leads k row leading)) [
        | inr other ↦ rw other rest
        | inl lead ↦
            let decoded = read-write (a - k) (drop k row) (0 ∷ []) (drop-IsRow k a row le is_row) in
            let whole = rejoin k a leading row le is_l.0 is_row.0 lead in
            rw (lead, decoded, whole, rest) refl
      ])

module _ {D S : Type 0} {lib : Dafsa D S} (laws : IsDafsa lib) where
  -- Where a walk along bytes ends.
  abbrev Walked : D → Option S → List Key → Type 0
  Walked d none ws = ws ≡ []
  Walked d (some t) ws = lib.suffixes d t ≡ ws

  walk_lem :
      (d : D) (s : S) (bytes : Key)
      → Walked d (walk_bytes lib d s bytes) (after bytes (lib.suffixes d s))
  unfolding walk_bytes after
  walk_lem d s [] = refl
  walk_lem d s (b ∷ bytes) = step_stage (lib.trans_find d s b) refl (λ t. walk_lem d t bytes)
    where
      step_stage :
          (found : Option S)
          → lib.trans_find d s b ≡ found
          → ((t : S) → Walked d (walk_bytes lib d t bytes) (after bytes (lib.suffixes d t)))
          → Walked d
              (found >>= λ t. walk_bytes lib d t bytes)
              (after bytes (starts b (lib.suffixes d s)))
      step_stage none e later = rw (laws.trans_none_law d s b e) (after_none bytes)
      step_stage (some t) e later = rw (sym (laws.trans_some_law d s t b e)) (later t)

  dfs_stage :
      {A : Type 0} (r : Relation D) (leading : Row) (k : ℕ) (cb : EnumCb A) (acc : A)
      → HasKeys lib r.arity r.d
      → k ≤ r.arity
      → IsRow k leading
      → (found : Option S) → Walked r.d found (after (write_cols_be k leading) (words lib r.d))
      → prefix_dfs lib r.arity r.d leading k cb acc found
        ≡ enum_rows cb (rows_under k leading (view_rows lib r)) 0 acc
  unfolding prefix_dfs enum_rows
  dfs_stage r leading k cb acc keys le is_row none walked =
      let under = under_lem k r.arity leading (words lib r.d) le is_row keys in
      rw (sym under, walked) refl
  dfs_stage r leading k cb acc keys le is_row (some t) walked =
      let under = under_lem k r.arity leading (words lib r.d) le is_row keys in
      rw (sym under, walked) refl

  -- On a relation without a pending overlay whose words are keys of u32 rows, `rel_prefix` gives the
  -- callback exactly the rows of the view that begin with the given columns, in order and until it
  -- stops, and returns how many it was given.
  pub rel_prefix_lem :
      {A : Type 0} (r : Relation D) (leading : Row) (k : ℕ) (cb : EnumCb A) (acc : A)
      → r.ov ≡ []
      → HasKeys lib r.arity r.d
      → k ≤ r.arity
      → IsRow k leading
      → let (n, acc') = enum_rows cb (rows_under k leading (view_rows lib r)) 0 acc in
        rel_prefix lib r leading k cb acc ≡ (ret n, acc')
  unfolding rel_prefix rel_prefix_d with_overlay ov_prefix_scan
  rel_prefix_lem r leading k cb acc flushed keys le is_row =
      let wide : ltb r.arity k ≡ false = ground (arith, le) in
      let (n, acc') = enum_rows cb (rows_under k leading (view_rows lib r)) 0 acc in
      rw (consolidate_none lib r flushed, rel_prefix, wide, flushed)
        (rw
          (dfs_stage r leading k cb acc keys le is_row
            (walk_bytes lib r.d (lib.initial r.d) (write_cols_be k leading))
            (walk_lem r.d (lib.initial r.d) (write_cols_be k leading)))
          (ap (λ (m : ℕ). (ret m, acc')) (omega arith)))
