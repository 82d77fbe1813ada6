-- ===== src/Fuzzy/Edits.antt =====
-- What the edit distance of zig/src/regexwalk.zig counts: the ways to turn a byte string into another.
use datalog_dafsa.Base.{
  ℕ, ◌+◌, ◌≤◌, ◌≡◌, refl, ◌∙◌, subst, [], ◌∷◌, ◌++◌, length, arith, append-nil,
}
use datalog_dafsa.TxnWal.{Bytes}

-- An edit script with its cost: bytes are kept, changed, dropped or added.
pub data Edits : Bytes → Bytes → ℕ → Type 0 where
  done : Edits [] [] 0
  keeps : (x : ℕ) (a b : Bytes) (n : ℕ) → Edits a b n → Edits (x ∷ a) (x ∷ b) n
  changes : (x y : ℕ) (a b : Bytes) (n : ℕ) → Edits a b n → Edits (x ∷ a) (y ∷ b) (n + 1)
  drops : (x : ℕ) (a b : Bytes) (n : ℕ) → Edits a b n → Edits (x ∷ a) b (n + 1)
  adds : (y : ℕ) (a b : Bytes) (n : ℕ) → Edits a b n → Edits a (y ∷ b) (n + 1)

-- The cost of the cheapest script.
abbrev pub IsDistance : Bytes → Bytes → ℕ → Type 0
IsDistance a b n = Edits a b n × ((m : ℕ) → Edits a b m → n ≤ m)

pub Edits-swap : (a b : Bytes) (n : ℕ) → Edits a b n → Edits b a n
Edits-swap _ _ _ done = done
Edits-swap _ _ _ (keeps x a b n e) = keeps x b a n (Edits-swap a b n e)
Edits-swap _ _ _ (changes x y a b n e) = changes y x b a n (Edits-swap a b n e)
Edits-swap _ _ _ (drops x a b n e) = adds x b a n (Edits-swap a b n e)
Edits-swap _ _ _ (adds y a b n e) = drops y b a n (Edits-swap a b n e)

-- The lengths differ by no more than the cost.
pub Edits-length :
    (a b : Bytes) (n : ℕ) → Edits a b n → (length a ≤ length b + n) × (length b ≤ length a + n)
Edits-length _ _ _ done = (omega arith, omega arith)
Edits-length _ _ _ (keeps x a b n e) =
    let (p, q) = Edits-length a b n e in (omega (arith, p), omega (arith, q))
Edits-length _ _ _ (changes x y a b n e) =
    let (p, q) = Edits-length a b n e in (omega (arith, p), omega (arith, q))
Edits-length _ _ _ (drops x a b n e) =
    let (p, q) = Edits-length a b n e in (omega (arith, p), omega (arith, q))
Edits-length _ _ _ (adds y a b n e) =
    let (p, q) = Edits-length a b n e in (omega (arith, p), omega (arith, q))

-- The bytes of a string in front of others, the last first.
unfoldable pub reverse_onto : Bytes → Bytes → Bytes
reverse_onto acc [] = acc
reverse_onto acc (x ∷ a) = reverse_onto (x ∷ acc) a

-- A script for the reversed strings.
Edits-reverse_onto :
    (a b c d : Bytes) (n m : ℕ)
    → Edits a b n
    → Edits c d m
    → Edits (reverse_onto c a) (reverse_onto d b) (n + m)
unfolding reverse_onto
Edits-reverse_onto _ _ c d _ m done f = subst (Edits c d) (omega arith) f
Edits-reverse_onto _ _ c d _ m (keeps x a b n e) f =
    Edits-reverse_onto a b (x ∷ c) (x ∷ d) n m e (keeps x c d m f)
Edits-reverse_onto _ _ c d _ m (changes x y a b n e) f =
    subst (Edits (reverse_onto (x ∷ c) a) (reverse_onto (y ∷ d) b)) (omega arith)
      (Edits-reverse_onto a b (x ∷ c) (y ∷ d) n (m + 1) e (changes x y c d m f))
Edits-reverse_onto _ _ c d _ m (drops x a b n e) f =
    subst (Edits (reverse_onto (x ∷ c) a) (reverse_onto d b)) (omega arith)
      (Edits-reverse_onto a b (x ∷ c) d n (m + 1) e (drops x c d m f))
Edits-reverse_onto _ _ c d _ m (adds y a b n e) f =
    subst (Edits (reverse_onto c a) (reverse_onto (y ∷ d) b)) (omega arith)
      (Edits-reverse_onto a b c (y ∷ d) n (m + 1) e (adds y c d m f))

reverse_onto_twice :
    (c acc a : Bytes) → reverse_onto c (reverse_onto acc a) ≡ reverse_onto (a ++ c) acc
unfolding reverse_onto
reverse_onto_twice c acc [] = refl
reverse_onto_twice c acc (x ∷ a) = reverse_onto_twice c (x ∷ acc) a

reversed : (a : Bytes) → reverse_onto [] (reverse_onto [] a) ≡ a
unfolding reverse_onto
reversed a = reverse_onto_twice [] [] a ∙ append-nil a

-- The distance of the reversed strings.
pub reverse-IsDistance :
    (a b : Bytes) (n : ℕ) → IsDistance (reverse_onto [] a) (reverse_onto [] b) n → IsDistance a b n
reverse-IsDistance a b n (e, least) = (
  subst (λ (x : Bytes). Edits x b n) (reversed a)
      (subst (λ (y : Bytes). Edits (reverse_onto [] (reverse_onto [] a)) y n) (reversed b)
        (subst (Edits _ _) (omega arith) (Edits-reverse_onto _ _ [] [] n 0 e done))),
  λ m f. least m (subst (Edits _ _) (omega arith) (Edits-reverse_onto a b [] [] m 0 f done)),
)

pub Edits-nil : (q : Bytes) → Edits [] q (length q)
Edits-nil [] = done
Edits-nil (y ∷ q) = subst (Edits [] (y ∷ q)) (omega arith) (adds y [] q (length q) (Edits-nil q))

pub nil-IsDistance : (q : Bytes) → IsDistance [] q (length q)
nil-IsDistance q = (Edits-nil q, λ m e. omega (arith, (Edits-length [] q m e).1))

pub IsDistance-swap : (a b : Bytes) (n : ℕ) → IsDistance a b n → IsDistance b a n
IsDistance-swap a b n (e, least) = (Edits-swap a b n e, λ m f. least m (Edits-swap b a m f))
