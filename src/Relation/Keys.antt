-- ===== src/Relation/Keys.antt =====
-- The keys of zig/src/relation.zig: `encodeKey`, `writeColsBe` and `readColsBe`.
use datalog_dafsa.Base.{
  ℕ, zero, suc, ◌+◌, ◌*◌, ◌/◌, ◌%◌, ◌^◌, ◌<◌, ◌≡◌, refl, sym, ap, ◌∙◌, Bool, true, false, [], ◌∷◌,
  ◌++◌, if◌then◌else◌, ltb, length, All, arith, words_eq, words_eq→eq, words_eq_refl, words_eq_ne,
  Bool-cases, inl, inr,
}
use datalog_dafsa.TupleSet.{Row, row_less}
use datalog_dafsa.Relation.{Key, be32, write_cols_be, encode_key, read_cols_be}
use datalog_dafsa.Relation.Laws.{key_less}

-- A row of `a` u32 columns.
abbrev pub IsRow : ℕ → Row → Type 0
IsRow a cols = (length cols ≡ a) × All (λ v. v < 2 ^ 32) cols

-- A column read back.
be32_value :
    (v : ℕ)
    → v < 2 ^ 32
    → v / 2 ^ 24 % 2 ^ 8 * 2 ^ 24
        + v / 2 ^ 16 % 2 ^ 8 * 2 ^ 16
        + v / 2 ^ 8 % 2 ^ 8 * 2 ^ 8
        + v % 2 ^ 8
      ≡ v
be32_value v small = omega arith

pub read-write :
    (a : ℕ) (cols : Row) (rest : Key)
    → IsRow a cols
    → read_cols_be a (write_cols_be a cols ++ rest) ≡ cols
unfolding read_cols_be write_cols_be
read-write zero [] rest h = refl
read-write zero (v ∷ cols) rest (len, small) = absurd (omega arith)
read-write (suc a) [] rest (len, small) = absurd (omega arith)
read-write (suc a) (v ∷ cols) rest (len, small) =
    rw (be32_value v small.0, read-write a cols rest (omega arith, small.1)) refl

-- The order of two bytes, and of the bytes behind them.
abbrev then_less : ℕ → ℕ → Bool → Bool
then_less x y rest = if ltb x y then true else if ltb y x then false else rest

-- The order of two numbers, and of what comes behind them, from the parts by 2 ^ 8.
split_low :
    (x y : ℕ) (rest : Bool)
    → then_less x y rest
      ≡ then_less (x / 2 ^ 8) (y / 2 ^ 8) (then_less (x % 2 ^ 8) (y % 2 ^ 8) rest)
split_low x y rest = ground arith

split_word :
    (x y : ℕ) (rest : Bool)
    → x < 2 ^ 32
    → y < 2 ^ 32
    → then_less x y rest
      ≡ then_less (x / 2 ^ 24 % 2 ^ 8) (y / 2 ^ 24 % 2 ^ 8) (
          then_less (x / 2 ^ 16 % 2 ^ 8) (y / 2 ^ 16 % 2 ^ 8) (
            then_less
              (x / 2 ^ 8 % 2 ^ 8)
              (y / 2 ^ 8 % 2 ^ 8)
              (then_less (x % 2 ^ 8) (y % 2 ^ 8) rest)))
split_word x y rest h k =
    let third : (v : ℕ) → v / 2 ^ 8 / 2 ^ 8 ≡ v / 2 ^ 16 = λ v. omega arith in
    let second : (v : ℕ) → v / 2 ^ 16 / 2 ^ 8 ≡ v / 2 ^ 24 = λ v. omega arith in
    let first : (v : ℕ) → v < 2 ^ 32 → v / 2 ^ 24 % 2 ^ 8 ≡ v / 2 ^ 24 = λ v small. omega arith in
    let low = then_less (x % 2 ^ 8) (y % 2 ^ 8) rest in
    let mid = then_less (x / 2 ^ 8 % 2 ^ 8) (y / 2 ^ 8 % 2 ^ 8) low in
    let two : then_less (x / 2 ^ 8) (y / 2 ^ 8) low ≡ then_less (x / 2 ^ 16) (y / 2 ^ 16) mid =
      rw (third x, third y) at (split_low (x / 2 ^ 8) (y / 2 ^ 8) low) in
    let three : then_less (x / 2 ^ 16) (y / 2 ^ 16) mid
        ≡ then_less (x / 2 ^ 24) (y / 2 ^ 24)
            (then_less (x / 2 ^ 16 % 2 ^ 8) (y / 2 ^ 16 % 2 ^ 8) mid) =
      rw (second x, second y) at (split_low (x / 2 ^ 16) (y / 2 ^ 16) mid) in
    split_low x y rest ∙ two ∙ three ∙ sym (rw (first x h, first y k) refl)

pub key_less-be32 :
    (x y : ℕ) (xs ys : Key)
    → x < 2 ^ 32
    → y < 2 ^ 32
    → key_less (be32 x ++ xs) (be32 y ++ ys) ≡ then_less x y (key_less xs ys)
unfolding key_less
key_less-be32 x y xs ys h k = sym (split_word x y (key_less xs ys) h k)

-- On rows of u32 columns the order of the keys is the order of the columns.
pub key_less-write :
    (a : ℕ) (x y : Row) (rest : Key)
    → key_less rest rest ≡ false
    → IsRow a x
    → IsRow a y
    → key_less (write_cols_be a x ++ rest) (write_cols_be a y ++ rest) ≡ row_less a x y
unfolding write_cols_be row_less
key_less-write zero x y rest h p q = h
key_less-write (suc a) [] y rest h (p, _) q = absurd (omega arith)
key_less-write (suc a) (u ∷ x) [] rest h p (q, _) = absurd (omega arith)
key_less-write (suc a) (u ∷ x) (v ∷ y) rest h (p, us) (q, vs) =
    key_less-be32 u v (write_cols_be a x ++ rest) (write_cols_be a y ++ rest) us.0 vs.0
    ∙ ap (then_less u v) (key_less-write a x y rest h (omega arith, us.1) (omega arith, vs.1))

-- Decoding the key of a row of u32 columns gives the row.
pub read-encode_key :
    (a : ℕ) (cols : Row) → IsRow a cols → read_cols_be a (encode_key cols a) ≡ cols
unfolding encode_key
read-encode_key a cols row = read-write a cols (0 ∷ []) row

-- The keys of two rows of u32 columns are in the lexicographic order of the rows.
pub key_less-encode_key :
    (a : ℕ) (x y : Row)
    → IsRow a x
    → IsRow a y
    → key_less (encode_key x a) (encode_key y a) ≡ row_less a x y
unfolding encode_key key_less
key_less-encode_key a x y p q = key_less-write a x y (0 ∷ []) refl p q

-- Two rows are equal exactly when their keys are.
pub words_eq-encode_key :
    (a : ℕ) (x y : Row)
    → IsRow a x
    → IsRow a y
    → words_eq (encode_key x a) (encode_key y a) ≡ words_eq x y
words_eq-encode_key a x y p q = elim (Bool-cases (words_eq x y)) [
  | inl same ↦
      let equal = words_eq→eq x y same in rw same (rw equal (words_eq_refl (encode_key y a)))
  | inr differ ↦
      words_eq_ne (encode_key x a) (encode_key y a) (λ e.
        let equal : x ≡ y =
          sym (read-encode_key a x p) ∙ ap (read_cols_be a) e ∙ read-encode_key a y q in
        cc (differ, ap (words_eq x) equal, words_eq_refl x))
      ∙ sym differ
]
