-- ===== src/Fuzzy.antt =====
-- The edit distance of zig/src/regexwalk.zig and the lookup of similar symbols of zig/src/dl.zig.
-- A string is the list of its bytes, and a row of the table is a list of numbers, which stay below
-- 2^32 for strings that are that short.
pub mod Edits
pub mod Rows
pub mod Distance
pub mod Lookup
use datalog_dafsa.Base.{
  ℕ, zero, suc, ◌+◌, ◌-◌, ◌*◌, Bool, true, false, not, ◌&&◌, ◌||◌, Option, none, some, List, [],
  ◌∷◌, if◌then◌else◌, ◌==◌, leb, ltb, length, get_or, Ret, err, ret, Mem,
}
use datalog_dafsa.TxnWal.{Bytes}
use datalog_dafsa.Interner.{Interner, intern_str_of}

abbrev pub lev_pattern_max : ℕ
lev_pattern_max = 512

-- One row of the table: the new cells behind `left`, from the old cell before them, `prev_diag`,
-- and the old cells.
unfoldable pub lev_cells : Bytes → ℕ → ℕ → ℕ → List ℕ → List ℕ
lev_cells [] c left prev_diag row = []
lev_cells (x ∷ a) c left prev_diag [] = []
lev_cells (x ∷ a) c left prev_diag (keep ∷ row) =
    let sub = if x == c then 0 else 1 in
    let above = if ltb (left + 1) (keep + 1) then left + 1 else keep + 1 in
    let v = if ltb (prev_diag + sub) above then prev_diag + sub else above in
    v ∷ lev_cells a c v keep row

unfoldable pub lev_row : Bytes → ℕ → ℕ → List ℕ → List ℕ
unfolding lev_cells
lev_row a c i [] = []
lev_row a c i (prev_diag ∷ row) = i ∷ lev_cells a c i prev_diag row

-- `minv > cap`.
unfoldable pub all_above : ℕ → List ℕ → Bool
all_above cap [] = true
all_above cap (v ∷ row) = ltb cap v && all_above cap row

unfoldable pub first_row : ℕ → ℕ → List ℕ
first_row j zero = j ∷ []
first_row j (suc n) = j ∷ first_row (j + 1) n

unfoldable pub last_cell : List ℕ → ℕ
last_cell [] = 0
last_cell (v ∷ []) = v
last_cell (v ∷ w ∷ row) = last_cell (w ∷ row)

-- The loop over the bytes of the longer string, from byte `i` on.
unfoldable pub lev_rows : Bytes → Bytes → ℕ → List ℕ → ℕ → ℕ
unfolding lev_row all_above last_cell
lev_rows a [] i row cap = if ltb cap (last_cell row) then cap + 1 else last_cell row
lev_rows a (c ∷ b) i row cap =
    let row' = lev_row a c i row in
    let rest = lev_rows a b (i + 1) row' cap in if all_above cap row' then cap + 1 else rest

-- `lev_distance_cap` with the shorter string first.
unfoldable pub lev_shorter : Mem → Bytes → Bytes → ℕ → ℕ
unfolding lev_rows first_row
lev_shorter mem a b cap =
    let rowlen = length a + 1 in
    if ltb cap (length b - length a)
    then cap + 1
    else if ltb 257 rowlen && not (mem.malloc_ok (rowlen * 4))
    then cap + 1
    else lev_rows a b 1 (first_row 0 (length a)) cap

unfoldable pub lev_distance_cap : Mem → Bytes → Bytes → ℕ → ℕ
unfolding lev_shorter
lev_distance_cap mem a b cap =
    if ltb (length b) (length a) then lev_shorter mem b a cap else lev_shorter mem a b cap

-- A callback of the lookup: the number, the string and its distance; whether it stops, and its state.
abbrev pub FuzzyCb : Type 0 → Type 0
FuzzyCb A = ℕ → Bytes → ℕ → A → Bool × A

-- The loop over the numbers, `n` of them from `id` on, with `count` hits before.
unfoldable pub fuzzy_from :
    {A : Type 0} {D : Type 0} → Mem → Interner D → Bytes → ℕ → FuzzyCb A → ℕ → ℕ → ℕ → A → ℕ × A
unfolding lev_distance_cap intern_str_of
fuzzy_from mem ir needle k cb zero id count a = (count, a)
fuzzy_from mem ir needle k cb (suc n) id count a =
    let pass = fuzzy_from mem ir needle k cb n (id + 1) count a in
    elim (intern_str_of ir id) [
      | none ↦ pass
      | some name ↦
          let dist = lev_distance_cap mem needle name k in
          let (stop, a') = cb id name dist a in
          let later = fuzzy_from mem ir needle k cb n (id + 1) (count + 1) a' in
          if ltb (length name + k) (length needle) || ltb (length needle + k) (length name)
          then pass
          else if ltb k dist
          then pass
          else if stop
          then (count + 1, a')
          else later
    ]

unfoldable pub dl_fuzzy_lookup :
    {A : Type 0} {D : Type 0} → Mem → Interner D → Bytes → ℕ → FuzzyCb A → A → Ret × A
unfolding fuzzy_from
dl_fuzzy_lookup mem ir needle k cb a =
    let (n, a') = fuzzy_from mem ir needle k cb (ir.next_id - 1) 1 0 a in
    if ltb 2 k || ((length needle == 0) || ltb lev_pattern_max (length needle))
    then (err, a)
    else (ret n, a')
