-- ===== src/Search/Terms.antt =====
-- The terms of a query in zig/src/index.zig: their ranks, and the query without repetitions.
use datalog_dafsa.Base.{
  ℕ, zero, suc, ◌+◌, ◌≤◌, ◌<◌, ◌≡◌, refl, ap, false, List, [], ◌∷◌, ◌++◌, map, ◌==◌, length,
  length-append, arith, All, inl, inr, Bool-cases, ==_refl,
}
use datalog_dafsa.IntSet.{is_seen}
use datalog_dafsa.IntSet.Contents.{is_seen-append}
use datalog_dafsa.Search.{rank_of_seen, rank_terms, dedupe}
use datalog_dafsa.Search.Counts.{IsRising}

-- The terms of a query without repetitions.
abbrev pub IsUnique : List ℕ → Type 0
IsUnique [] = Unit {0}
IsUnique (t ∷ terms) = (is_seen terms t ≡ false) × IsUnique terms

abbrev pub upto : ℕ → ℕ → List ℕ
upto n zero = []
upto n (suc k) = n ∷ upto (n + 1) k

unranked :
    (seen : List (ℕ × ℕ)) (t n : ℕ)
    → is_seen (map (λ p. p.0) seen) t ≡ false
    → rank_of_seen seen t n ≡ n
unfolding rank_of_seen is_seen
unranked [] t n new = refl
unranked ((u, r) ∷ seen) t n new = ground (arith, unranked seen t n)

all_apart : (xs : List ℕ) (v : ℕ) → is_seen xs v ≡ false → All (λ x. (v == x) ≡ false) xs
unfolding is_seen
all_apart [] v h = tt
all_apart (x ∷ xs) v h = (ground arith, all_apart xs v (ground arith))

upto_above : (n m k : ℕ) → m < n → All (λ r. m < r) (upto n k)
upto_above n m zero h = tt
upto_above n m (suc k) h = (h, upto_above (n + 1) m k (omega arith))

pub upto-IsRising : (n k : ℕ) → IsRising (upto n k)
upto-IsRising n zero = tt
upto-IsRising n (suc k) = (upto_above (n + 1) n k (omega arith), upto-IsRising (n + 1) k)

pub upto-lt : (n k m : ℕ) → n + k ≤ m → All (λ r. r < m) (upto n k)
upto-lt n zero m h = tt
upto-lt n (suc k) m h = (omega arith, upto-lt (n + 1) k m (omega arith))

pub length-upto : (n k : ℕ) → length (upto n k) ≡ k
length-upto n zero = refl
length-upto n (suc k) = omega (arith, length-upto (n + 1) k)

keys_append :
    (seen : List (ℕ × ℕ)) (t r : ℕ)
    → map (λ (p : ℕ × ℕ). p.0) (seen ++ (t, r) ∷ []) ≡ map (λ (p : ℕ × ℕ). p.0) seen ++ t ∷ []
keys_append [] t r = refl
keys_append (p ∷ seen) t r = ap (◌∷◌ p.0) (keys_append seen t r)

still_new :
    (seen : List (ℕ × ℕ)) (t r : ℕ) (terms : List ℕ)
    → All (λ u. is_seen (map (λ p. p.0) seen) u ≡ false) terms
    → All (λ u. (t == u) ≡ false) terms
    → All (λ u. is_seen (map (λ p. p.0) (seen ++ (t, r) ∷ [])) u ≡ false) terms
still_new seen t r [] new apart = tt
still_new seen t r (u ∷ terms) (here, new) (other, apart) = (
  rw (keys_append seen t r, is_seen-append (map (λ p. p.0) seen) t u, here) other,
  still_new seen t r terms new apart,
)

ranks_from :
    (seen : List (ℕ × ℕ)) (n : ℕ) (terms : List ℕ)
    → IsUnique terms
    → All (λ t. is_seen (map (λ p. p.0) seen) t ≡ false) terms
    → rank_terms seen n terms ≡ upto n (length terms)
unfolding rank_terms
ranks_from seen n [] unique new = refl
ranks_from seen n (t ∷ terms) (alone, unique) (here, new) =
    rw (unranked seen t n here, ==_refl n)
      (ap (◌∷◌ n) (
        ranks_from (seen ++ (t, n) ∷ []) (n + 1) terms unique
          (still_new seen t n terms new (all_apart terms t alone))))

none_seen : (terms : List ℕ) → All (λ t. is_seen [] t ≡ false) terms
unfolding is_seen
none_seen [] = tt
none_seen (t ∷ terms) = (refl, none_seen terms)

-- Terms without repetitions have the ranks 0, 1, 2 and so on.
pub rank_terms-upto :
    (terms : List ℕ) → IsUnique terms → rank_terms [] 0 terms ≡ upto 0 (length terms)
rank_terms-upto terms unique = ranks_from [] 0 terms unique (none_seen terms)

append-IsUnique :
    (uniq : List ℕ) (t : ℕ) → IsUnique uniq → is_seen uniq t ≡ false → IsUnique (uniq ++ t ∷ [])
unfolding is_seen
append-IsUnique [] t unique new = (refl, tt)
append-IsUnique (u ∷ uniq) t (alone, unique) new = (
  rw (is_seen-append uniq t u, alone) (ground (arith, new)),
  append-IsUnique uniq t unique (ground (arith, new)),
)

dedupe-IsUnique_from : (uniq terms : List ℕ) → IsUnique uniq → IsUnique (dedupe uniq terms)
unfolding dedupe
dedupe-IsUnique_from uniq [] unique = unique
dedupe-IsUnique_from uniq (t ∷ terms) unique = elim (Bool-cases (is_seen uniq t)) [
  | inl seen ↦ rw seen (dedupe-IsUnique_from uniq terms unique)
  | inr new ↦
      rw new (dedupe-IsUnique_from (uniq ++ t ∷ []) terms (append-IsUnique uniq t unique new))
]

pub dedupe-IsUnique : (terms : List ℕ) → IsUnique (dedupe [] terms)
dedupe-IsUnique terms = dedupe-IsUnique_from [] terms tt

shorter_from : (uniq terms : List ℕ) → length (dedupe uniq terms) ≤ length uniq + length terms
unfolding dedupe
shorter_from uniq [] = omega arith
shorter_from uniq (t ∷ terms) = elim (Bool-cases (is_seen uniq t)) [
  | inl seen ↦ rw seen (omega (arith, shorter_from uniq terms))
  | inr new ↦
      rw new (omega (arith, shorter_from (uniq ++ t ∷ []) terms, length-append uniq (t ∷ [])))
]

pub length-dedupe : (terms : List ℕ) → length (dedupe [] terms) ≤ length terms
length-dedupe terms = omega (arith, shorter_from [] terms)
