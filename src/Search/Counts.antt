-- ===== src/Search/Counts.antt =====
-- Counting in lists, for the results of zig/src/index.zig, and what a sort is.
use datalog_dafsa.Base.{
  ℕ, ◌+◌, ◌≤◌, ◌<◌, ◌≡◌, refl, ◌∙◌, Bool, false, List, [], ◌∷◌, ◌++◌, map, if◌then◌else◌, ◌==◌, ltb,
  arith, All, inl, inr, Bool-cases,
}

module _ {ℓ} {A : Type ℓ} where
  unfoldable pub count_if : (A → Bool) → List A → ℕ
  count_if p [] = 0
  count_if p (x ∷ xs) = (if p x then 1 else 0) + count_if p xs

  pub count_if-append :
      (p : A → Bool) (xs ys : List A) → count_if p (xs ++ ys) ≡ count_if p xs + count_if p ys
  unfolding count_if
  count_if-append p [] ys = omega arith
  count_if-append p (x ∷ xs) ys = omega (arith, count_if-append p xs ys)

  -- Elements on which two tests agree.
  pub count_if_same :
      (p q : A → Bool) (xs : List A) → All (λ x. p x ≡ q x) xs → count_if p xs ≡ count_if q xs
  unfolding count_if
  count_if_same p q [] h = refl
  count_if_same p q (x ∷ xs) (here, h) = rw (here, count_if_same p q xs h) refl

  pub count_if_none : (p : A → Bool) (xs : List A) → All (λ x. p x ≡ false) xs → count_if p xs ≡ 0
  unfolding count_if
  count_if_none p [] h = refl
  count_if_none p (x ∷ xs) (here, h) = rw (here, count_if_none p xs h) refl

  pub none_counted : (p : A → Bool) (xs : List A) → count_if p xs ≡ 0 → All (λ x. p x ≡ false) xs
  unfolding count_if
  none_counted p [] h = tt
  none_counted p (x ∷ xs) h = elim (Bool-cases (p x)) [
    | inl hit ↦ let clash : 1 + count_if p xs ≡ 0 = rw hit at h in absurd (omega arith)
    | inr miss ↦
        let rest : 0 + count_if p xs ≡ 0 = rw miss at h in (miss, none_counted p xs (omega arith))
  ]

  pub All-map {κ μ} :
      {P : A → Type κ} {Q : A → Type μ} (f : (x : A) → P x → Q x) (xs : List A)
      → All P xs
      → All Q xs
  All-map f [] h = tt
  All-map f (x ∷ xs) (here, h) = (f x here, All-map f xs h)

  pub All-append {κ} : (P : A → Type κ) (xs ys : List A) → All P xs → All P ys → All P (xs ++ ys)
  All-append P [] ys h k = k
  All-append P (x ∷ xs) ys (here, h) k = (here, All-append P xs ys h k)

  -- No later element stands before an earlier one.
  abbrev pub IsOrdered : (A → A → Bool) → List A → Type ℓ
  IsOrdered lt [] = Unit {ℓ}
  IsOrdered lt (x ∷ xs) = All (λ y. lt y x ≡ false) xs × IsOrdered lt xs

  -- A sort by `lt`: its result has as many elements of every kind as its argument, in order.
  pub record IsSort (lt : A → A → Bool) (sort : List A → List A) : Type ℓ where
    pub counts : (p : A → Bool) (xs : List A) → count_if p (sort xs) ≡ count_if p xs
    pub ordered : (xs : List A) → IsOrdered lt (sort xs)

  -- What every element satisfies, every element satisfies after the sort.
  pub sort-All :
      (lt : A → A → Bool) (sort : List A → List A) (p : A → Bool) (xs : List A)
      → IsSort lt sort
      → All (λ x. p x ≡ false) xs
      → All (λ x. p x ≡ false) (sort xs)
  sort-All lt sort p xs sorts h =
      none_counted p (sort xs) (sorts.counts p xs ∙ count_if_none p xs h)

pub count_if-map {ℓ κ} :
    {A : Type ℓ} {B : Type κ} (p : B → Bool) (f : A → B) (xs : List A)
    → count_if p (map f xs) ≡ count_if (λ x. p (f x)) xs
unfolding count_if
count_if-map p f [] = refl
count_if-map p f (x ∷ xs) = omega (arith, count_if-map p f xs)

-- Ascending lists without repetitions.
abbrev pub IsRising : List ℕ → Type 0
IsRising [] = Unit {0}
IsRising (x ∷ xs) = All (λ y. x < y) xs × IsRising xs

ordered_stage :
    (x : ℕ) (xs : List ℕ)
    → All (λ y. ltb y x ≡ false) xs
    → All (λ y. (y == x) ≡ false) xs
    → All (λ y. x < y) xs
ordered_stage x [] h k = tt
ordered_stage x (y ∷ xs) (here, h) (apart, k) = (ground arith, ordered_stage x xs h k)

-- A list in order that repeats nothing rises.
pub ordered-IsRising :
    (xs : List ℕ) → IsOrdered ltb xs → ((v : ℕ) → count_if (λ y. y == v) xs ≤ 1) → IsRising xs
unfolding count_if
ordered-IsRising [] h once = tt
ordered-IsRising (x ∷ xs) (here, h) once =
    let alone : count_if (λ y. y == x) xs ≡ 0 = ground (arith, once x) in
    (
      ordered_stage x xs here (none_counted (λ y. y == x) xs alone),
      ordered-IsRising xs h (λ v. omega (arith, once v)),
    )
