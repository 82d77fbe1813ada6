-- ===== src/Fuzzy/Distance.antt =====
-- `lev_distance_cap` of zig/src/regexwalk.zig: the cost of the cheapest edit script, up to the cap.
use datalog_dafsa.Base.{
  ℕ, ◌+◌, ◌-◌, ◌*◌, ◌≤◌, ◌<◌, ◌≡◌, refl, sym, ◌∙◌, subst, true, false, not, ◌&&◌, List, [], ◌∷◌,
  if◌then◌else◌, ◌==◌, ltb, length, Mem, arith, inl, inr, Bool-cases,
}
use datalog_dafsa.IntSet.Contents.{IsAmple}
use datalog_dafsa.TxnWal.{Bytes}
use datalog_dafsa.Fuzzy.{
  lev_cells, lev_row, lev_rows, all_above, first_row, last_cell, lev_shorter, lev_distance_cap,
}
use datalog_dafsa.Fuzzy.Edits.{
  IsDistance, IsDistance-swap, Edits-nil, Edits-length, reverse-IsDistance, reverse_onto,
}
use datalog_dafsa.Fuzzy.Rows.{RowOf, lev_row-RowOf, first_row-RowOf, last_cell-RowOf}

-- A row above the cap is followed by rows above it.
lev_cells-all_above :
    (a : Bytes) (c left prev_diag cap : ℕ) (row : List ℕ)
    → cap < left
    → cap < prev_diag
    → all_above cap row ≡ true
    → all_above cap (lev_cells a c left prev_diag row) ≡ true
unfolding lev_cells all_above
lev_cells-all_above [] c left prev_diag cap row l d h = refl
lev_cells-all_above (x ∷ a) c left prev_diag cap [] l d h = refl
lev_cells-all_above (x ∷ a) c left prev_diag cap (keep ∷ row) l d h =
    let sub : ℕ = if x == c then 0 else 1 in
    let above : ℕ = if ltb (left + 1) (keep + 1) then left + 1 else keep + 1 in
    let v : ℕ = if ltb (prev_diag + sub) above then prev_diag + sub else above in
    let high : cap < v = ground (arith, l, d, h) in
    let below : cap < keep = ground (arith, h) in
    let others : all_above cap row ≡ true = ground (arith, h) in
    let rest = lev_cells-all_above a c v keep cap row high below others in
    ground (arith, high, rest)

last_cell-all_above :
    (cap v : ℕ) (row : List ℕ) → all_above cap (v ∷ row) ≡ true → cap < last_cell (v ∷ row)
unfolding last_cell all_above
last_cell-all_above cap v [] h = ground (arith, h)
last_cell-all_above cap v (w ∷ row) h = last_cell-all_above cap w row (ground (arith, h))

abbrev pub capped : ℕ → ℕ → ℕ
capped cap n = if ltb cap n then cap + 1 else n

above_lem :
    (a b q : Bytes) (i cap : ℕ) (row : List ℕ)
    → i ≡ length q + 1
    → RowOf [] a q row
    → all_above cap row ≡ true
    → lev_rows a b i row cap ≡ cap + 1
unfolding lev_rows lev_row all_above
above_lem a [] q i cap row at (v, vs, e, d, t) high =
    let last : cap < last_cell (v ∷ vs) =
      last_cell-all_above cap v vs (subst (λ (r : List ℕ). all_above cap r ≡ true) e high) in
    rw e (ground (arith, last))
above_lem a (c ∷ b) q i cap row at (v, vs, e, d, t) high =
    let high' : all_above cap (v ∷ vs) ≡ true =
      subst (λ (r : List ℕ). all_above cap r ≡ true) e high in
    let diag : cap < v = ground (arith, high') in
    let left : cap < i = omega (arith, diag, at, d.1 (length q) (Edits-nil q)) in
    let cells = lev_cells-all_above a c i v cap vs left diag (ground (arith, high')) in
    rw e (ground (arith, cells, left))

-- The loop over the rows, whether it ends early or not.
lev_rows_lem :
    (a b q : Bytes) (i cap : ℕ) (row : List ℕ)
    → i ≡ length q + 1
    → RowOf [] a q row
    → (n : ℕ) × IsDistance (reverse_onto [] a) (reverse_onto q b) n
      × (lev_rows a b i row cap ≡ capped cap n)
unfolding lev_rows reverse_onto
lev_rows_lem a [] q i cap row at r = (last_cell row, last_cell-RowOf a [] q row r, refl)
lev_rows_lem a (c ∷ b) q i cap row at r =
    let r' = lev_row-RowOf a q c i row at r in
    let (n, d, e) =
      lev_rows_lem a b (c ∷ q) (i + 1) cap (lev_row a c i row) (omega (arith, at)) r' in
    (
      n,
      d,
      elim (Bool-cases (all_above cap (lev_row a c i row))) [
        | inr low ↦ rw low e
        | inl high ↦
            rw high (sym (above_lem a b (c ∷ q) (i + 1) cap _ (omega (arith, at)) r' high) ∙ e)
      ],
    )

lev_shorter_lem :
    (mem : Mem) (a b : Bytes) (cap : ℕ)
    → IsAmple mem
    → (n : ℕ) × IsDistance a b n × (lev_shorter mem a b cap ≡ capped cap n)
unfolding lev_shorter
lev_shorter_lem mem a b cap ample =
    let (n, d, e) =
      lev_rows_lem a b [] 1 cap (first_row 0 (length a)) refl (first_row-RowOf a []) in
    let dist = reverse-IsDistance a b n d in
    let granted = ample.mallocs ((length a + 1) * 4) in
    let room : (ltb 257 (length a + 1) && not (mem.malloc_ok ((length a + 1) * 4))) ≡ false =
      ground (arith, granted) in
    let gap : length b - length a ≤ n = omega (arith, (Edits-length a b n dist.0).1) in
    (
      n,
      dist,
      elim (Bool-cases (ltb cap (length b - length a))) [
        | inl far ↦ rw far (ground (arith, far, gap))
        | inr near ↦ rw (near, room) e
      ],
    )

-- With memory, lev_distance_cap gives the cost of the cheapest edit script between two strings, or
-- one more than the cap where the cost is above it.
pub lev_distance_cap_lem :
    (mem : Mem) (a b : Bytes) (cap : ℕ)
    → IsAmple mem
    → (n : ℕ) × IsDistance a b n
      × (lev_distance_cap mem a b cap ≡ (if ltb cap n then cap + 1 else n))
unfolding lev_distance_cap
lev_distance_cap_lem mem a b cap ample = elim (Bool-cases (ltb (length b) (length a))) [
  | inr ordered ↦ rw ordered (lev_shorter_lem mem a b cap ample)
  | inl longer ↦
      let (n, d, e) = lev_shorter_lem mem b a cap ample in rw longer (n, IsDistance-swap b a n d, e)
]
