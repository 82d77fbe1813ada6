-- ===== src/Examples/Sorts.antt =====
-- A sort by insertion, which can stand for the standard library's in zig/src/index.zig.
use datalog_dafsa.Base.{
  ◌+◌, ◌≡◌, refl, Bool, true, false, List, [], ◌∷◌, if◌then◌else◌, ltb, arith, All, inl, inr,
  Bool-cases,
}
use datalog_dafsa.Search.{ScoredResult, scored_result_lt}
use datalog_dafsa.Search.Counts.{count_if, IsOrdered, IsSort, All-map}

module _ {A : Type 0} (lt : A → A → Bool) where
  unfoldable pub insert_by : A → List A → List A
  insert_by x [] = x ∷ []
  insert_by x (y ∷ ys) = let later = insert_by x ys in if lt y x then y ∷ later else x ∷ y ∷ ys

  unfoldable pub sort_by : List A → List A
  unfolding insert_by
  sort_by [] = []
  sort_by (x ∷ xs) = insert_by x (sort_by xs)

  insert_counts :
      (p : A → Bool) (x : A) (ys : List A)
      → count_if p (insert_by x ys) ≡ (if p x then 1 else 0) + count_if p ys
  unfolding insert_by count_if
  insert_counts p x [] = refl
  insert_counts p x (y ∷ ys) = elim (Bool-cases (lt y x)) [
    | inl less ↦ rw less (omega (arith, insert_counts p x ys))
    | inr more ↦ rw more refl
  ]

  sort_counts : (p : A → Bool) (xs : List A) → count_if p (sort_by xs) ≡ count_if p xs
  unfolding sort_by count_if
  sort_counts p [] = refl
  sort_counts p (x ∷ xs) = omega (arith, insert_counts p x (sort_by xs), sort_counts p xs)

  module _ (back : (x y : A) → lt x y ≡ true → lt y x ≡ false)
      (chain : (x y z : A) → lt y x ≡ false → lt z y ≡ false → lt z x ≡ false) where
    insert_all :
        (x z : A) (ys : List A)
        → lt x z ≡ false
        → All (λ y. lt y z ≡ false) ys
        → All (λ y. lt y z ≡ false) (insert_by x ys)
    unfolding insert_by
    insert_all x z [] h k = (h, k)
    insert_all x z (y ∷ ys) h (first, k) = elim (Bool-cases (lt y x)) [
      | inl less ↦ rw less (first, insert_all x z ys h k)
      | inr more ↦ rw more (h, (first, k))
    ]

    insert-IsOrdered : (x : A) (ys : List A) → IsOrdered lt ys → IsOrdered lt (insert_by x ys)
    unfolding insert_by
    insert-IsOrdered x [] h = (tt, tt)
    insert-IsOrdered x (y ∷ ys) (first, h) = elim (Bool-cases (lt y x)) [
      | inl less ↦ rw less (insert_all x y ys (back y x less) first, insert-IsOrdered x ys h)
      | inr more ↦ rw more ((more, All-map (λ z k. chain x y z more k) ys first), (first, h))
    ]

    sort-IsOrdered : (xs : List A) → IsOrdered lt (sort_by xs)
    unfolding sort_by
    sort-IsOrdered [] = tt
    sort-IsOrdered (x ∷ xs) = insert-IsOrdered x (sort_by xs) (sort-IsOrdered xs)

    pub sort_by-IsSort : IsSort lt sort_by
    sort_by-IsSort = record { counts = sort_counts; ordered = sort-IsOrdered }

pub numbers-IsSort : IsSort ltb (sort_by ltb)
numbers-IsSort = sort_by-IsSort ltb (λ x y h. ground (arith, h)) (λ x y z h k. ground (arith, h, k))

results_back : (x y : ScoredResult) → scored_result_lt x y ≡ true → scored_result_lt y x ≡ false
unfolding scored_result_lt
results_back x y h = ground (arith, h)

results_chain :
    (x y z : ScoredResult)
    → scored_result_lt y x ≡ false
    → scored_result_lt z y ≡ false
    → scored_result_lt z x ≡ false
unfolding scored_result_lt
results_chain x y z h k = ground (arith, h, k)

pub results-IsSort : IsSort scored_result_lt (sort_by scored_result_lt)
results-IsSort = sort_by-IsSort scored_result_lt results_back results_chain
