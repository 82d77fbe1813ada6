-- ===== src/TupleSet.antt =====
-- The in-memory tuple set of zig/src/tupleset.zig (and src/tupleset.h): an array of distinct rows
-- with an open-addressing hash table of 1-based row numbers. `data` holds the `count` live rows;
-- the arity-strided buffer behind them has room for `cap`. Pointers that the C interface lets be
-- null are not: the null tests at the entry points are left out.
pub mod Table
pub mod Prefix
pub mod Valid
pub mod Grow
pub mod Contains
pub mod Append
pub mod Add
pub mod Reset
use Prim.Native.Nat.{Ordering}
use datalog_dafsa.Base.{
  leb, true, false, ◌&&◌, ℕ, zero, suc, ◌+◌, ◌-◌, ◌*◌, ◌/◌, ◌%◌, ◌^◌, bit_and, bit_xor, Bool, true,
  false, not, ◌||◌, Option, none, some, List, [], ◌∷◌, ◌++◌, if◌then◌else◌, ◌==◌, ltb, leb, length,
  get_or, set, replicate, words_eq, Ret, err, ret, Mem,
}
use datalog_dafsa.Probe.{walk}

abbrev pub Row : Type 0
Row = List ℕ

pub record TupleSet : Type 0 where
  pub rows : List Row
  pub cap : ℕ
  pub arity : ℕ
  pub htab : List ℕ
  pub hcap : ℕ
  pub hused : ℕ

abbrev pub fnv_offset : ℕ
fnv_offset = 14695981039346656037

abbrev pub fnv_prime : ℕ
fnv_prime = 1099511628211

-- `h ^= b; h *%= FNV_PRIME`.
unfoldable pub fnv_byte : ℕ → ℕ → ℕ
fnv_byte h b = bit_xor h b * fnv_prime % 2 ^ 64

-- The four bytes of a column, the lowest first.
unfoldable pub fnv_word : ℕ → ℕ → ℕ
unfolding fnv_byte
fnv_word h v =
    let h₀ = fnv_byte h (bit_and v 0xFF) in
    let h₁ = fnv_byte h₀ (bit_and (v / 2 ^ 8) 0xFF) in
    let h₂ = fnv_byte h₁ (bit_and (v / 2 ^ 16) 0xFF) in fnv_byte h₂ (bit_and (v / 2 ^ 24) 0xFF)

unfoldable pub hash_from : ℕ → Row → ℕ
unfolding fnv_word
hash_from h [] = h
hash_from h (v ∷ cols) = hash_from (fnv_word h v) cols

unfoldable pub ts_hash_cols : Row → ℕ
unfolding hash_from
ts_hash_cols cols = hash_from fnv_offset cols

-- `h & (hcap - 1)`.
unfoldable pub home : ℕ → Row → ℕ
unfolding ts_hash_cols
home hcap cols = bit_and (ts_hash_cols cols) (hcap - 1)

-- `ts_tuple_eq` of the sought columns and the row that a cell names.
unfoldable pub names_row : List Row → Row → ℕ → Bool
names_row rows cols slot = words_eq cols (get_or rows (slot - 1) [])

-- `ts_hash_find`: 0 for absent, otherwise the 1-based row number. `none` means that the probing
-- loop goes round for ever.
unfoldable pub probe_row : List Row → List ℕ → ℕ → Row → Option ℕ
unfolding names_row home
probe_row rows htab hcap cols =
    elim (walk (λ j. (get_or htab j 0 == 0) || names_row rows cols (get_or htab j 0)) hcap hcap
      (home hcap cols)) [ none ↦ none | some j ↦ some (get_or htab j 0) ]

unfoldable pub ts_hash_find : TupleSet → Row → Option ℕ
unfolding probe_row
ts_hash_find ts cols = if ts.hcap == 0 then some 0 else probe_row ts.rows ts.htab ts.hcap cols

-- `ts_hash_insert`, and the inner loop of `ts_hash_grow`: the first empty cell gets the number.
unfoldable pub ts_hash_insert : List ℕ → ℕ → Row → ℕ → Option (List ℕ)
unfolding home
ts_hash_insert htab hcap cols idx1 =
    elim (walk (λ j. get_or htab j 0 == 0) hcap hcap (home hcap cols)) [
      | none ↦ none
      | some j ↦ some (set htab j idx1)
    ]

infixl 5 ◌>>=◌
abbrev pub ◌>>=◌ {ℓ κ} : {A : Type ℓ} {B : Type κ} → Option A → (A → Option B) → Option B
none >>= f = none
some a >>= f = f a

-- The rehashing loop over the old cells.
unfoldable pub rehash : List Row → List ℕ → ℕ → List ℕ → Option (List ℕ)
rehash rows [] new_cap fresh = some fresh
rehash rows (slot ∷ cells) new_cap fresh =
    (if slot == 0
      then some fresh
      else ts_hash_insert fresh new_cap (get_or rows (slot - 1) []) slot)
    >>= rehash rows cells new_cap

-- `while (new_cap < need) new_cap *%= 2`.
unfoldable pub grow_cap : ℕ → ℕ → ℕ → Option ℕ
grow_cap zero need new_cap = none
grow_cap (suc fuel) need new_cap =
    let more = grow_cap fuel need (new_cap * 2 % 2 ^ 64) in
    if ltb new_cap need then more else some new_cap

-- 32 rounds are enough for every table that memory holds: see `grow_cap_lem`.
unfoldable pub ts_hash_grow : Mem → TupleSet → ℕ → Option (TupleSet × Ret)
unfolding grow_cap rehash
ts_hash_grow mem ts need = do
  new_cap ← grow_cap 32 need 16
  if ltb (2 ^ 30) new_cap || not (mem.calloc_ok (new_cap * 4))
      then some (ts, err)
      else (rehash ts.rows ts.htab new_cap (replicate new_cap 0) >>= λ fresh.
          some (record ts { htab = fresh; hcap = new_cap }, ret 0))

unfoldable pub ts_init : ℕ → Option TupleSet
ts_init arity =
    if (arity == 0) || ltb 8 arity
    then none
    else some (record { rows = []; cap = 0; arity = arity; htab = []; hcap = 0; hused = 0 })

unfoldable pub ts_contains : TupleSet → Row → Option Ret
unfolding ts_hash_find
ts_contains ts cols =
    if length ts.rows == 0
    then some (ret 0)
    else (ts_hash_find ts cols >>= λ slot. some (if slot == 0 then ret 0 else ret 1))

-- `realloc` to twice the rows once the buffer is full; `none` is the failed call.
unfoldable pub grow_rows : Mem → TupleSet → Option TupleSet
grow_rows mem ts =
    let nc = if ts.cap == 0 then 1024 else ts.cap * 2 % 2 ^ 64 in
    if ltb (length ts.rows) ts.cap
    then some ts
    else if mem.realloc_ok (nc * ts.arity * 4)
    then some (record ts { cap = nc })
    else none

-- `(usize)(count / 0.70)`, at least 16.
unfoldable pub table_need : ℕ → ℕ
table_need count = let need = count * 10 / 7 in if ltb need 16 then 16 else need

-- The table is at its load factor of 3/4.
unfoldable pub is_loaded : ℕ → ℕ → Bool
is_loaded count hcap = (hcap == 0) || ltb (hcap - hcap / 4) count

-- The end of `ts_add`: the row goes into the table that has room for it.
unfoldable pub add_slot : TupleSet → Row → Option (TupleSet × Ret)
unfolding ts_hash_insert
add_slot ts cols = ts_hash_insert ts.htab ts.hcap cols (length ts.rows) >>= λ htab.
    some (record ts { htab = htab; hused = (ts.hused + 1) % 2 ^ 64 }, ret 1)

-- The table grows where it must; on failure the appended row is rolled back.
unfoldable pub add_row : Mem → TupleSet → Row → Option (TupleSet × Ret)
unfolding add_slot table_need is_loaded ts_hash_grow
add_row mem ts cols =
    let longer = record ts { rows = ts.rows ++ cols ∷ [] } in
    let count = length longer.rows in
    if is_loaded count ts.hcap
    then (ts_hash_grow mem longer (table_need count) >>= λ (grown, code). elim code [
      | err ↦ some (ts, err)
      | ret _ ↦ add_slot grown cols
    ])
    else add_slot longer cols

-- `ts_add`: 1 for a new row, 0 for a duplicate, -1 when memory runs out.
unfoldable pub ts_add : Mem → TupleSet → Row → Option (TupleSet × Ret)
unfolding ts_hash_find grow_rows add_row
ts_add mem ts cols = ts_hash_find ts cols >>= λ slot.
    if slot == 0
    then elim (grow_rows mem ts) [ none ↦ some (ts, err) | some roomy ↦ add_row mem roomy cols ]
    else some (ts, ret 0)

unfoldable pub ts_reset : TupleSet → TupleSet
ts_reset ts = record ts {
  rows = [];
  htab = replicate (length ts.htab) 0;
  hused = if length ts.htab == 0 then ts.hused else 0;
}

unfoldable pub ts_free : TupleSet → TupleSet
ts_free ts = record { rows = []; cap = 0; arity = 0; htab = []; hcap = 0; hused = 0 }

-- The comparison of the binary search: the first `k` columns of a row against those of `p`.
unfoldable pub cmp_cols : ℕ → Row → Row → Ordering
cmp_cols zero r p = Ordering.eq
cmp_cols (suc k) (x ∷ r) (y ∷ p) =
    if ltb x y then Ordering.lt else if ltb y x then Ordering.gt else cmp_cols k r p
cmp_cols (suc k) r p = Ordering.eq

-- The loops that look for a column that differs.
unfoldable pub matches : ℕ → Row → Row → Bool
matches zero r p = true
matches (suc k) (x ∷ r) (y ∷ p) = (x == y) && matches k r p
matches (suc k) r p = true

unfoldable pub is_less : Ordering → Bool
is_less Ordering.lt = true
is_less _ = false

-- `while (lo < hi)`; `none` means that the fuel ran out.
unfoldable pub lower_bound : List Row → Row → ℕ → ℕ → ℕ → ℕ → Option ℕ
unfolding cmp_cols is_less
lower_bound rows p k zero lo hi = none
lower_bound rows p k (suc fuel) lo hi =
    let mid = lo + (hi - lo) / 2 in
    let right = lower_bound rows p k fuel (mid + 1) hi in
    let left = lower_bound rows p k fuel lo mid in
    if ltb lo hi
    then (if is_less (cmp_cols k (get_or rows mid []) p) then right else left)
    else some lo

-- `while (first > 0)`, back from a match.
unfoldable pub walk_back : List Row → Row → ℕ → ℕ → ℕ
unfolding matches
walk_back rows p k zero = zero
walk_back rows p k (suc first) =
    let earlier = walk_back rows p k first in
    if matches k (get_or rows first []) p then earlier else suc first

-- `while (last < count)`, with `left` rows to go.
unfoldable pub walk_forward : List Row → Row → ℕ → ℕ → ℕ → ℕ
unfolding matches
walk_forward rows p k zero last = last
walk_forward rows p k (suc left) last =
    let later = walk_forward rows p k left (last + 1) in
    if matches k (get_or rows last []) p then later else last

-- `ts_prefix`: the number of matches and `first_idx_out[0]`.
unfoldable pub ts_prefix : TupleSet → Row → ℕ → Option (ℕ × ℕ)
unfolding lower_bound walk_back walk_forward
ts_prefix ts p k =
    let count = length ts.rows in
    if (count == 0) || ltb ts.arity k
    then some (0, 0)
    else (lower_bound ts.rows p k (count + 1) 0 count >>= λ lo.
        let first = walk_back ts.rows p k lo in
        let last = walk_forward ts.rows p k (count - lo) lo in
        if leb count lo || not (matches k (get_or ts.rows lo []) p)
        then some (0, 0)
        else some (last - first, first))

-- `rowLess` of `ts_sort_rows`: the lexicographic order of the first `arity` columns.
unfoldable pub row_less : ℕ → Row → Row → Bool
row_less zero x y = false
row_less (suc n) (a ∷ x) (b ∷ y) =
    if ltb a b then true else if ltb b a then false else row_less n x y
row_less (suc n) x y = false
