-- ===== src/Fuzzy/Rows.antt =====
-- `lev_distance_cap` of zig/src/regexwalk.zig: each row of the table has the distances of the
-- beginnings of one string to one beginning of the other.
use datalog_dafsa.Base.{
  ℕ, ◌+◌, ◌≤◌, ◌≡◌, refl, sym, ◌∙◌, subst, List, [], ◌∷◌, if◌then◌else◌, ◌==◌, ltb, length, arith,
  inl, inr, Bool-cases, ==_iff,
}
use datalog_dafsa.TxnWal.{Bytes}
use datalog_dafsa.Fuzzy.{lev_cells, lev_row, first_row, last_cell}
use datalog_dafsa.Fuzzy.Edits.{
  Edits, done, keeps, changes, drops, adds, IsDistance, IsDistance-swap, nil-IsDistance,
  reverse_onto,
}

head_eq : {x y : ℕ} {a b : Bytes} → x ∷ a ≡ y ∷ b → x ≡ y
head_eq e = cc

tail_eq : {x y : ℕ} {a b : Bytes} → x ∷ a ≡ y ∷ b → a ≡ b
tail_eq e = cc

no_nil : {x : ℕ} {a : Bytes} → [] ≡ x ∷ a → ⊥
no_nil e = cc

-- The value of a cell, from the cells diagonally before, to the left and above.
abbrev pub cell : ℕ → ℕ → ℕ → ℕ → ℕ → ℕ
cell x c left prev_diag keep =
    let sub = if x == c then 0 else 1 in
    let above = if ltb (left + 1) (keep + 1) then left + 1 else keep + 1 in
    if ltb (prev_diag + sub) above then prev_diag + sub else above

module _ (x c : ℕ) (p q : Bytes) (left prev_diag keep : ℕ) where
  cell_script :
      Edits p q prev_diag
      → Edits p (c ∷ q) left
      → Edits (x ∷ p) q keep
      → Edits (x ∷ p) (c ∷ q) (cell x c left prev_diag keep)
  cell_script d l k = elim (Bool-cases (ltb (prev_diag + (if x == c then 0 else 1)) above)) [
    | inl diagonal ↦ rw diagonal (elim (Bool-cases (x == c)) [
      | inr other ↦ rw other (changes x c p q prev_diag d)
      | inl same ↦ rw same (
          subst (λ (y : ℕ). Edits (x ∷ p) (y ∷ q) (prev_diag + 0)) ((==_iff x c).0 same)
            (subst (Edits (x ∷ p) (x ∷ q)) (omega arith) (keeps x p q prev_diag d)))
    ])
    | inr straight ↦ rw straight (elim (Bool-cases (ltb (left + 1) (keep + 1))) [
      | inl from_left ↦ rw from_left (drops x p (c ∷ q) left l)
      | inr from_above ↦ rw from_above (adds c (x ∷ p) q keep k)
    ])
  ]
    where
      above : ℕ
      above = if ltb (left + 1) (keep + 1) then left + 1 else keep + 1

  -- No script is cheaper than the cell.
  cell_least :
      (a b : Bytes) (m : ℕ)
      → Edits a b m
      → a ≡ x ∷ p
      → b ≡ c ∷ q
      → ((m : ℕ) → Edits p q m → prev_diag ≤ m)
      → ((m : ℕ) → Edits p (c ∷ q) m → left ≤ m)
      → ((m : ℕ) → Edits (x ∷ p) q m → keep ≤ m)
      → cell x c left prev_diag keep ≤ m
  cell_least _ _ _ done ea eb d l k = absurd (no_nil ea)
  cell_least _ _ _ (keeps y a b n e) ea eb d l k =
      let bound = d n (
        subst (λ (u : Bytes). Edits u q n) (tail_eq ea)
          (subst (λ (u : Bytes). Edits a u n) (tail_eq eb) e)) in
      let same : x ≡ c = sym (head_eq ea) ∙ head_eq eb in ground (arith, bound, same)
  cell_least _ _ _ (changes y z a b n e) ea eb d l k =
      let bound = d n (
        subst (λ (u : Bytes). Edits u q n) (tail_eq ea)
          (subst (λ (u : Bytes). Edits a u n) (tail_eq eb) e)) in
      ground (arith, bound)
  cell_least _ _ _ (drops y a b n e) ea eb d l k =
      let bound = l n (
        subst (λ (u : Bytes). Edits u (c ∷ q) n) (tail_eq ea)
          (subst (λ (u : Bytes). Edits a u n) eb e)) in
      ground (arith, bound)
  cell_least _ _ _ (adds z a b n e) ea eb d l k =
      let bound = k n (
        subst (λ (u : Bytes). Edits u q n) ea
          (subst (λ (u : Bytes). Edits a u n) (tail_eq eb) e)) in
      ground (arith, bound)

  cell_lem :
      IsDistance p q prev_diag
      → IsDistance p (c ∷ q) left
      → IsDistance (x ∷ p) q keep
      → IsDistance (x ∷ p) (c ∷ q) (cell x c left prev_diag keep)
  cell_lem (d, d_least) (l, l_least) (k, k_least) =
      (cell_script d l k, λ m e. cell_least (x ∷ p) (c ∷ q) m e refl refl d_least l_least k_least)

-- The cells behind the one of `acc`, a reversed beginning: the distances of the longer beginnings.
abbrev Tail : Bytes → Bytes → Bytes → List ℕ → Type 0
Tail acc [] q row = row ≡ []
Tail acc (x ∷ rest) q row =
    (v : ℕ) × (vs : List ℕ) × (row ≡ v ∷ vs) × IsDistance (x ∷ acc) q v × Tail (x ∷ acc) rest q vs

abbrev pub RowOf : Bytes → Bytes → Bytes → List ℕ → Type 0
RowOf acc rest q row =
    (v : ℕ) × (vs : List ℕ) × (row ≡ v ∷ vs) × IsDistance acc q v × Tail acc rest q vs

cells_lem :
    (rest acc q : Bytes) (c left prev_diag : ℕ) (row : List ℕ)
    → Tail acc rest q row
    → IsDistance acc q prev_diag
    → IsDistance acc (c ∷ q) left
    → Tail acc rest (c ∷ q) (lev_cells rest c left prev_diag row)
unfolding lev_cells
cells_lem [] acc q c left prev_diag row t d l = refl
cells_lem (x ∷ rest) acc q c left prev_diag row (v, vs, e, k, t) d l =
    let here = cell_lem x c acc q left prev_diag v d l k in
    rw e (_, _, refl, here, cells_lem rest (x ∷ acc) q c (cell x c left prev_diag v) v vs t k here)

-- A new row, for one more byte.
pub lev_row-RowOf :
    (a q : Bytes) (c i : ℕ) (row : List ℕ)
    → i ≡ length q + 1
    → RowOf [] a q row
    → RowOf [] a (c ∷ q) (lev_row a c i row)
unfolding lev_row
lev_row-RowOf a q c i row at (v, vs, e, d, t) =
    let left : IsDistance [] (c ∷ q) i =
      subst (IsDistance [] (c ∷ q)) (omega (arith, at)) (nil-IsDistance (c ∷ q)) in
    rw e (i, _, refl, left, cells_lem a [] q c i v vs t d left)

pub first_row-RowOf : (rest acc : Bytes) → RowOf acc rest [] (first_row (length acc) (length rest))
unfolding first_row
first_row-RowOf [] acc = (length acc, [], refl, IsDistance-swap [] acc _ (nil-IsDistance acc), refl)
first_row-RowOf (x ∷ rest) acc = (
  length acc,
  first_row (length acc + 1) (length rest),
  refl,
  IsDistance-swap [] acc _ (nil-IsDistance acc),
  subst (λ (j : ℕ). RowOf (x ∷ acc) rest [] (first_row j (length rest))) (omega arith)
      (first_row-RowOf rest (x ∷ acc)),
)

-- The last cell has the distance of the whole string.
pub last_cell-RowOf :
    (rest acc q : Bytes) (row : List ℕ)
    → RowOf acc rest q row
    → IsDistance (reverse_onto acc rest) q (last_cell row)
unfolding last_cell reverse_onto
last_cell-RowOf [] acc q row (v, vs, e, d, t) = rw (e, t) d
last_cell-RowOf (x ∷ rest) acc q row (v, vs, e, d, (w, ws, f, d', t)) =
    rw (e, f) (last_cell-RowOf rest (x ∷ acc) q (w ∷ ws) (w, ws, refl, d', t))
