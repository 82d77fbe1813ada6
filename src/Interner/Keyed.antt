-- ===== src/Interner/Keyed.antt =====
-- The keys of the forward DAFSA of zig/src/intern.zig: a string, a zero and the number's four bytes.
use datalog_dafsa.Base.{ℕ, ◌^◌, ◌<◌, ◌≡◌, refl, ap, ◌∙◌, List, [], ◌∷◌, ◌++◌, words_eq, arith, All}
use datalog_dafsa.TxnWal.{Bytes}
use datalog_dafsa.Relation.{Key, be32, is_word}
use datalog_dafsa.Relation.Laws.{starts}
use datalog_dafsa.Relation.Prefix.{after}
use datalog_dafsa.Interner.{capture}

-- A string has no zero byte.
abbrev pub IsString : Bytes → Type 0
IsString str = All (λ b. 0 < b) str

is_word-starts : (b : ℕ) (w : Key) (ws : List Key) → is_word w (starts b ws) ≡ is_word (b ∷ w) ws
unfolding is_word starts words_eq
is_word-starts b w [] = refl
is_word-starts b w ([] ∷ ws) = is_word-starts b w ws
is_word-starts b w ((x ∷ v) ∷ ws) = ground (arith, is_word-starts b w ws)

-- The rests of the words behind some bytes are those that make a word with them.
pub is_word-after :
    (bytes w : Key) (ws : List Key) → is_word w (after bytes ws) ≡ is_word (bytes ++ w) ws
unfolding after
is_word-after [] w ws = refl
is_word-after (b ∷ bytes) w ws =
    is_word-after bytes w (starts b ws) ∙ is_word-starts b (bytes ++ w) ws

head_same : {x y : ℕ} {xs ys : Key} → x ∷ xs ≡ y ∷ ys → x ≡ y
head_same e = cc

tail_same : {x y : ℕ} {xs ys : Key} → x ∷ xs ≡ y ∷ ys → xs ≡ ys
tail_same e = cc

-- The zero ends the string of a key.
pub split_key :
    (s str : Bytes) (p q : Key)
    → IsString s
    → IsString str
    → s ++ 0 ∷ p ≡ str ++ 0 ∷ q
    → (s ≡ str) × (p ≡ q)
split_key [] [] p q is_s is_str e = (refl, tail_same e)
split_key [] (y ∷ str) p q is_s (pos, is_str) e = absurd (omega (arith, pos, head_same e))
split_key (x ∷ s) [] p q (pos, is_s) is_str e = absurd (omega (arith, pos, head_same e))
split_key (x ∷ s) (y ∷ str) p q (pos, is_s) (pos', is_str) e =
    let (same, rest) = split_key s str p q is_s is_str (tail_same e) in
    (rw (head_same e, same) refl, rest)

pub capture-be32 : (id : ℕ) → id < 2 ^ 32 → capture (be32 id) ≡ id
unfolding capture
capture-be32 id small = omega arith

pub with_zero : (str : Bytes) (w : Key) → (str ++ 0 ∷ []) ++ w ≡ str ++ 0 ∷ w
with_zero [] w = refl
with_zero (b ∷ str) w = ap (◌∷◌ b) (with_zero str w)
