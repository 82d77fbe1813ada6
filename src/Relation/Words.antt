-- ===== src/Relation/Words.antt =====
-- Counting and finding words in an ascending list of them, on which the order statistics of
-- zig/src/relation.zig stand.
use datalog_dafsa.Base.{
  ℕ, zero, suc, ◌+◌, ◌-◌, ◌≤◌, ◌<◌, ◌≡◌, refl, true, false, not, ◌&&◌, none, some, List, [], ◌∷◌,
  if◌then◌else◌, length, All, arith, Bool-cases, inl, inr, subst,
}
use datalog_dafsa.Relation.{Key}
use datalog_dafsa.Relation.Laws.{key_less, below, nth, IsAscending}

pub key_less_irrefl : (x : Key) → key_less x x ≡ false
unfolding key_less
key_less_irrefl [] = refl
key_less_irrefl (b ∷ x) = ground (arith, key_less_irrefl x)

pub key_less_trans : (x y z : Key) → key_less x y ≡ true → key_less y z ≡ true → key_less x z ≡ true
unfolding key_less
key_less_trans [] [] z h k = cc
key_less_trans [] (b ∷ y) [] h k = cc
key_less_trans [] (b ∷ y) (c ∷ z) h k = refl
key_less_trans (a ∷ x) [] z h k = cc
key_less_trans (a ∷ x) (b ∷ y) [] h k = cc
key_less_trans (a ∷ x) (b ∷ y) (c ∷ z) h k = ground (arith, key_less_trans x y z)

pub key_less_asym : (x y : Key) → key_less x y ≡ true → key_less y x ≡ false
key_less_asym x y h = elim (Bool-cases (key_less y x)) [
  | inl back ↦ cc (key_less_trans x y x h back, key_less_irrefl x)
  | inr neither ↦ neither
]

-- What comes before `z` comes before `y`, unless `y` comes before `z`.
pub key_less_split :
    (x y z : Key) → key_less x z ≡ true → key_less y z ≡ false → key_less x y ≡ true
unfolding key_less
key_less_split [] [] [] h k = cc
key_less_split [] [] (c ∷ z) h k = cc
key_less_split [] (b ∷ y) z h k = refl
key_less_split (a ∷ x) y [] h k = cc
key_less_split (a ∷ x) [] (c ∷ z) h k = cc
key_less_split (a ∷ x) (b ∷ y) (c ∷ z) h k = ground (arith, key_less_split x y z)

-- How many of the words are from `lo` on and before `hi`.
unfoldable pub between : Key → Key → List Key → ℕ
between lo hi [] = 0
between lo hi (w ∷ ws) = (if not (key_less w lo) && key_less w hi then 1 else 0) + between lo hi ws

below_up :
    (lo hi : Key) (ws : List Key)
    → key_less lo hi ≡ true
    → below hi ws ≡ below lo ws + between lo hi ws
unfolding below between
below_up lo hi [] h = refl
below_up lo hi (w ∷ ws) h = ground (arith, below_up lo hi ws h, key_less_trans w lo hi)

below_down :
    (lo hi : Key) (ws : List Key)
    → key_less lo hi ≡ false
    → (between lo hi ws ≡ 0) × (below hi ws ≤ below lo ws)
unfolding below between
below_down lo hi [] h = (refl, omega arith)
below_down lo hi (w ∷ ws) h =
    let (none_here, fewer) = below_down lo hi ws h in
    (ground (arith, key_less_split w lo hi), ground (arith, key_less_split w lo hi))

-- The difference of two ranks counts the words between.
pub below-between : (lo hi : Key) (ws : List Key) → below hi ws - below lo ws ≡ between lo hi ws
below-between lo hi ws = elim (Bool-cases (key_less lo hi)) [
  | inl up ↦ omega (arith, below_up lo hi ws up)
  | inr down ↦ let (no_word, fewer) = below_down lo hi ws down in omega arith
]

below_first : (v : Key) (ws : List Key) → All (λ u. key_less v u ≡ true) ws → below v ws ≡ 0
unfolding below
below_first v [] h = refl
below_first v (u ∷ ws) (later, h) = rw (key_less_asym v u later, below_first v ws h) refl

below_head : (v : Key) (ws : List Key) → All (λ u. key_less v u ≡ true) ws → below v (v ∷ ws) ≡ 0
unfolding below
below_head v ws h = rw (key_less_irrefl v, below_first v ws h) refl

pub All-nth :
    (P : Key → Type 0) (ws : List Key) (k : ℕ) (w : Key) → All P ws → nth ws k ≡ some w → P w
unfolding nth
All-nth P [] k w h e = cc
All-nth P (v ∷ ws) zero w (p, h) e = let same : v ≡ w = cc in subst P same p
All-nth P (v ∷ ws) (suc k) w (p, h) e = All-nth P ws k w h e

-- The rank of the word with number `k` is `k`.
pub below-nth :
    (ws : List Key) (k : ℕ) (w : Key) → IsAscending ws → nth ws k ≡ some w → below w ws ≡ k
unfolding nth below
below-nth [] k w asc e = cc
below-nth (v ∷ ws) zero w (first, asc) e =
    let same : v ≡ w = cc in subst (λ x. below x (v ∷ ws) ≡ 0) same (below_head v ws first)
below-nth (v ∷ ws) (suc k) w (first, asc) e =
    rw (All-nth (λ u. key_less v u ≡ true) ws k w first e, below-nth ws k w asc e) (omega arith)

-- There is a word with number `k` exactly for `k` below the number of words.
pub nth_total : (ws : List Key) (k : ℕ) → k < length ws → (w : Key) × (nth ws k ≡ some w)
unfolding nth
nth_total [] k h = absurd (omega arith)
nth_total (v ∷ ws) zero h = (v, refl)
nth_total (v ∷ ws) (suc k) h = nth_total ws k (omega arith)

pub nth_past : (ws : List Key) (k : ℕ) → length ws ≤ k → nth ws k ≡ none
unfolding nth
nth_past [] k h = refl
nth_past (v ∷ ws) zero h = absurd (omega arith)
nth_past (v ∷ ws) (suc k) h = nth_past ws k (omega arith)
