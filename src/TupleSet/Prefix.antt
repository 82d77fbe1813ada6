-- ===== src/TupleSet/Prefix.antt =====
-- `ts_prefix` on sorted rows: the binary search and the two walks find exactly the rows that begin
-- with the sought columns.
use Prim.Native.Nat.{Ordering}
use native.Mathlib.Decide.{dec_lt}
use datalog_dafsa.Base.{
  ℕ, zero, suc, ◌+◌, ◌-◌, ◌/◌, ◌≤◌, ◌<◌, ◌≡◌, ◌≢◌, ◌↔◌, refl, inl, inr, Bool, true, false, not,
  ◌||◌, Option, some, List, [], ◌∷◌, arith, if◌then◌else◌, ltb, leb, ◌==◌, length, get_or,
  Bool-cases, subst,
}
use datalog_dafsa.TupleSet.{
  Row, TupleSet, cmp_cols, matches, is_less, lower_bound, walk_back, walk_forward, ts_prefix,
  row_less,
}

is_less_lt : (o : Ordering) → is_less o ≡ true → o ≡ Ordering.lt
unfolding is_less
is_less_lt Ordering.lt h = refl
is_less_lt Ordering.eq h = cc
is_less_lt Ordering.gt h = cc

not_less : (o : Ordering) → is_less o ≡ false → o ≢ Ordering.lt
unfolding is_less
not_less Ordering.lt h e = cc
not_less Ordering.eq h e = cc
not_less Ordering.gt h e = cc

not_lt_eq : (o : Ordering) → o ≢ Ordering.lt → o ≢ Ordering.eq → o ≡ Ordering.gt
not_lt_eq Ordering.lt a b = absurd (a refl)
not_lt_eq Ordering.eq a b = absurd (b refl)
not_lt_eq Ordering.gt a b = refl

-- A match is a comparison that finds no difference.
matches_iff : (k : ℕ) (r p : Row) → (matches k r p ≡ true) ↔ (cmp_cols k r p ≡ Ordering.eq)
unfolding matches cmp_cols
matches_iff zero r p = (λ _. refl, λ _. refl)
matches_iff (suc k) [] p = (λ _. refl, λ _. refl)
matches_iff (suc k) (x ∷ r) [] = (λ _. refl, λ _. refl)
matches_iff (suc k) (x ∷ r) (y ∷ p) = ground (arith, matches_iff k r p)

-- For rows in order, the comparison with `p` is monotone.
cmp_mono :
    (n k : ℕ) (x y p : Row)
    → k ≤ n
    → n ≤ length x
    → n ≤ length y
    → k ≤ length p
    → row_less n y x ≡ false
    → (cmp_cols k y p ≡ Ordering.lt → cmp_cols k x p ≡ Ordering.lt)
      × (cmp_cols k x p ≡ Ordering.gt → cmp_cols k y p ≡ Ordering.gt)
unfolding cmp_cols row_less
cmp_mono n zero x y p kn nx ny kp h = (λ e. e, λ e. e)
cmp_mono zero (suc k) x y p kn nx ny kp h = absurd (omega arith)
cmp_mono (suc n) (suc k) [] y p kn nx ny kp h = absurd (omega arith)
cmp_mono (suc n) (suc k) (a ∷ x) [] p kn nx ny kp h = absurd (omega arith)
cmp_mono (suc n) (suc k) (a ∷ x) (b ∷ y) [] kn nx ny kp h = absurd (omega arith)
cmp_mono (suc n) (suc k) (a ∷ x) (b ∷ y) (c ∷ p) kn nx ny kp h = ground (arith, cmp_mono n k x y p)

-- Rows of `arity` columns, in lexicographic order.
pub record IsSorted (arity : ℕ) (rows : List Row) : Type 0 where
  pub wide : (i : ℕ) → i < length rows → length (get_or rows i []) ≡ arity
  pub ordered :
      (i j : ℕ)
      → i ≤ j
      → j < length rows
      → row_less arity (get_or rows j []) (get_or rows i []) ≡ false

-- What `ts_prefix` answers: the `n` rows from `first` on are the matches, and there are no others.
abbrev pub Matches : List Row → Row → ℕ → ℕ → ℕ → Type 0
Matches rows p k n first =
    (first + n ≤ length rows)
    × ((i : ℕ)
        → i < length rows
        → (matches k (get_or rows i []) p ≡ true) ↔ ((first ≤ i) × (i < first + n)))

none_match :
    (rows : List Row) (p : Row) (k : ℕ)
    → ((i : ℕ) → i < length rows → matches k (get_or rows i []) p ≡ false)
    → Matches rows p k 0 0
none_match rows p k none_of =
    (omega arith, λ i inside. (λ hit. cc (hit, none_of i inside), λ (a, b). absurd (omega arith)))

module _ (arity : ℕ) (rows : List Row) (p : Row) (k : ℕ) (sorted : IsSorted arity rows)
    (narrow : k ≤ arity) (given : k ≤ length p) where
  abbrev cmp_at : ℕ → Ordering
  cmp_at i = cmp_cols k (get_or rows i []) p

  at_mono :
      (i j : ℕ)
      → i ≤ j
      → j < length rows
      → (cmp_at j ≡ Ordering.lt → cmp_at i ≡ Ordering.lt)
        × (cmp_at i ≡ Ordering.gt → cmp_at j ≡ Ordering.gt)
  at_mono i j le inside =
      cmp_mono arity k (get_or rows i []) (get_or rows j []) p narrow
        (omega (arith, sorted.wide i (omega arith))) (omega (arith, sorted.wide j inside)) given
        (sorted.ordered i j le inside)

  -- Everything before `lo` is less, nothing from `hi` on is.
  lower_bound_lem :
      (fuel lo hi : ℕ)
      → lo ≤ hi
      → hi ≤ length rows
      → hi - lo < fuel
      → ((i : ℕ) → i < lo → cmp_at i ≡ Ordering.lt)
      → ((i : ℕ) → hi ≤ i → i < length rows → cmp_at i ≢ Ordering.lt)
      → (r : ℕ) × (lower_bound rows p k fuel lo hi ≡ some r)
        × (r ≤ length rows)
        × ((i : ℕ) → i < r → cmp_at i ≡ Ordering.lt)
        × ((i : ℕ) → r ≤ i → i < length rows → cmp_at i ≢ Ordering.lt)
  unfolding lower_bound
  lower_bound_lem zero lo hi le top room before after = absurd (omega arith)
  lower_bound_lem (suc fuel) lo hi le top room before after = elim (Bool-cases (ltb lo hi)) [
    | inr done ↦
        let same : lo ≡ hi = ground arith in
        (lo, rw done, omega arith, before, λ i above. after i (omega arith))
    | inl more ↦
        let mid : ℕ = lo + (hi - lo) / 2 in
        let lt : lo < hi = ground arith in
        elim (Bool-cases (is_less (cmp_at mid))) [
          | inl less ↦
              let (r, run, bound, lows, highs) =
                lower_bound_lem fuel (mid + 1) hi (omega arith) top (omega arith)
                  (λ i below.
                    (at_mono i mid (omega arith) (omega arith)).0 (is_less_lt (cmp_at mid) less))
                  after in
              (r, rw (more, less) run, bound, lows, highs)
          | inr other ↦
              let (r, run, bound, lows, highs) =
                lower_bound_lem fuel lo mid (omega arith) (omega arith) (omega arith) before
                  (λ i above inside same.
                    not_less (cmp_at mid) other ((at_mono mid i above inside).0 same)) in
              (r, rw (more, other) run, bound, lows, highs)
        ]
  ]

  abbrev hits : ℕ → Bool
  hits i = matches k (get_or rows i []) p

  hits_eq : (i : ℕ) → hits i ≡ true → cmp_at i ≡ Ordering.eq
  hits_eq i = (matches_iff k (get_or rows i []) p).0

  misses_gt : (i : ℕ) → hits i ≡ false → cmp_at i ≢ Ordering.lt → cmp_at i ≡ Ordering.gt
  misses_gt i miss high =
      not_lt_eq (cmp_at i) high (λ e. cc (miss, (matches_iff k (get_or rows i []) p).1 e))

  -- Where the row before differs, the walk back stays.
  walk_back_stays : (lo : ℕ) → ((i : ℕ) → i < lo → hits i ≡ false) → walk_back rows p k lo ≡ lo
  unfolding walk_back
  walk_back_stays zero h = refl
  walk_back_stays (suc lo) h = rw (h lo (omega arith))

  -- The walk forward ends behind the last match.
  walk_forward_lem :
      (left last : ℕ)
      → last + left ≡ length rows
      → ((i : ℕ) → last ≤ i → i < length rows → cmp_at i ≢ Ordering.lt)
      → (r : ℕ) × (walk_forward rows p k left last ≡ r)
        × (last ≤ r)
        × (r ≤ length rows)
        × ((i : ℕ) → last ≤ i → i < r → hits i ≡ true)
        × ((i : ℕ) → r ≤ i → i < length rows → cmp_at i ≡ Ordering.gt)
  unfolding walk_forward
  walk_forward_lem zero last total high = (
    last,
    refl,
    omega arith,
    omega arith,
    λ i a b. absurd (omega arith),
    λ i a b. absurd (omega arith),
  )
  walk_forward_lem (suc left) last total high = elim (Bool-cases (hits last)) [
    | inr miss ↦ (
      last,
      rw miss,
      omega arith,
      omega arith,
      λ i a b. absurd (omega arith),
      λ i a b. (at_mono last i a b).1 (misses_gt last miss (high last (omega arith) (omega arith))),
    )
    | inl hit ↦
        let (r, run, from, to, inner, outer) =
          walk_forward_lem left (last + 1) (omega arith) (λ i a b. high i (omega arith) b) in
        (
          r,
          rw hit run,
          omega arith,
          to,
          λ i a b. elim (dec_lt last i) [
            | yes later ↦ inner i (omega arith) b
            | no here ↦ subst (λ j. hits j ≡ true) (omega arith) hit
          ],
          outer,
        )
  ]

  -- A row that is less or greater does not match.
  differs : (i : ℕ) → cmp_at i ≢ Ordering.eq → hits i ≡ false
  differs i ne = elim (Bool-cases (hits i)) [
    | inl hit ↦ absurd (ne (hits_eq i hit))
    | inr miss ↦ miss
  ]

  none_above :
      (lo : ℕ)
      → ((i : ℕ) → i < lo → cmp_at i ≡ Ordering.lt)
      → cmp_at lo ≡ Ordering.gt
      → (i : ℕ) → i < length rows
      → hits i ≡ false
  none_above lo lows above i inside = differs i (λ e. elim (dec_lt i lo) [
    | yes before ↦ cc (e, lows i before)
    | no after ↦ cc (e, (at_mono lo i (omega arith) inside).1 above)
  ])

  in_range :
      (lo r : ℕ)
      → ((i : ℕ) → i < lo → cmp_at i ≡ Ordering.lt)
      → ((i : ℕ) → r ≤ i → i < length rows → cmp_at i ≡ Ordering.gt)
      → (i : ℕ) → i < length rows
      → hits i ≡ true
      → (lo ≤ i) × (i < lo + (r - lo))
  in_range lo r lows outer i inside hit = elim (dec_lt i lo) [
    | yes before ↦ cc (hits_eq i hit, lows i before)
    | no after ↦ elim (dec_lt i r) [
      | yes within ↦ (omega arith, omega arith)
      | no past ↦ cc (hits_eq i hit, outer i (omega arith) inside)
    ]
  ]

  abbrev answer : ℕ → Option (ℕ × ℕ)
  answer lo =
      if leb (length rows) lo || not (hits lo)
      then some (0, 0)
      else some (
        walk_forward rows p k (length rows - lo) lo - walk_back rows p k lo,
        walk_back rows p k lo,
      )

  -- From the end of the binary search to the answer.
  range_lem :
      (lo : ℕ)
      → lo ≤ length rows
      → ((i : ℕ) → i < lo → cmp_at i ≡ Ordering.lt)
      → ((i : ℕ) → lo ≤ i → i < length rows → cmp_at i ≢ Ordering.lt)
      → (n : ℕ) × (first : ℕ) × (answer lo ≡ some (n, first)) × Matches rows p k n first
  range_lem lo bound lows highs = elim (Bool-cases (leb (length rows) lo)) [
    | inl past ↦ (
      0,
      0,
      rw past,
      none_match rows p k (λ i inside. differs i (λ e. cc (e, lows i (ground arith)))),
    )
    | inr inside ↦
        let lt : lo < length rows = ground arith in
        elim (Bool-cases (hits lo)) [
          | inr miss ↦
              let above = misses_gt lo miss (highs lo (omega arith) lt) in
              (0, 0, rw (inside, miss), none_match rows p k (none_above lo lows above))
          | inl hit ↦
              let (r, run, from, to, inner, outer) =
                walk_forward_lem (length rows - lo) lo (omega arith) highs in
              let back = walk_back_stays lo (λ i below. differs i (λ e. cc (e, lows i below))) in
              (
                r - lo,
                lo,
                rw (inside, hit, run, back),
                (
                  omega arith,
                  λ i within.
                      (in_range lo r lows outer i within, λ (a, b). inner i a (omega arith)),
                ),
              )
        ]
  ]

-- On a sorted set `ts_prefix` ends, and returns the range of all the rows that begin with the first
-- `k` columns of `p`.
pub ts_prefix-Matches :
    (ts : TupleSet) (p : Row) (k : ℕ)
    → IsSorted ts.arity ts.rows
    → k ≤ ts.arity
    → k ≤ length p
    → (n : ℕ) × (first : ℕ) × (ts_prefix ts p k ≡ some (n, first)) × Matches ts.rows p k n first
unfolding ts_prefix
ts_prefix-Matches ts p k sorted narrow given =
    let count : ℕ = length ts.rows in
    let calm : ltb ts.arity k ≡ false = ground arith in
    elim (Bool-cases (length ts.rows == 0)) [
      | inl empty ↦ (0, 0, rw empty, none_match ts.rows p k (λ i inside. absurd (ground arith)))
      | inr full ↦
          let (lo, run, bound, lows, highs) =
            lower_bound_lem ts.arity ts.rows p k sorted narrow given (length ts.rows + 1) 0
              (length ts.rows) (omega arith) (omega arith) (omega arith)
              (λ i h. absurd (omega arith)) (λ i a b. absurd (omega arith)) in
          let (n, first, found, exact) =
            range_lem ts.arity ts.rows p k sorted narrow given lo bound lows highs in
          (n, first, rw (full, calm, run) found, exact)
    ]
