-- ===== src/Schema/Types.antt =====
-- `dl_colspec_eq` is equality of what a column's type consists of, and so an equivalence.
use datalog_dafsa.Base.{
  ℕ, zero, suc, ◌≡◌, refl, sym, ap, ◌∙◌, ◌↔◌, inl, inr, Bool, true, false, ◌&&◌, ◌||◌, List, [],
  ◌∷◌, arith, if◌then◌else◌, ◌==◌, ==_iff, ==_refl, Bool-cases, words_eq, words_eq→eq,
  words_eq_refl, min, take, get_or,
}
use datalog_dafsa.Schema.{ColSpec, tag_code, values_eq, colspec_eq, enum_max_values}

values_eq-take : (n : ℕ) (xs ys : List (List ℕ)) → values_eq n xs ys ≡ true → take n xs ≡ take n ys
unfolding values_eq
values_eq-take zero xs ys h = refl
values_eq-take (suc n) [] [] h = refl
values_eq-take (suc n) (x ∷ xs) (y ∷ ys) h =
    let (first, rest) = both (words_eq x y) (values_eq n xs ys) h in
    λ i. words_eq→eq x y first i ∷ values_eq-take n xs ys rest i
  where
    both : (a b : Bool) → (a && b) ≡ true → (a ≡ true) × (b ≡ true)
    both a b h = ground arith
values_eq-take (suc n) (x ∷ xs) [] h = cc
values_eq-take (suc n) [] (y ∷ ys) h = cc

take-values_eq : (n : ℕ) (xs ys : List (List ℕ)) → take n xs ≡ take n ys → values_eq n xs ys ≡ true
unfolding values_eq
take-values_eq zero xs ys h = refl
take-values_eq (suc n) [] [] h = refl
take-values_eq (suc n) (x ∷ xs) (y ∷ ys) h =
    let first : x ≡ y = cc in
    let rest : take n xs ≡ take n ys = cc in
    rw (first, words_eq_refl y, take-values_eq n xs ys rest) refl
take-values_eq (suc n) (x ∷ xs) [] h = cc
take-values_eq (suc n) [] (y ∷ ys) h = cc

-- What the comparison looks at: the tag, with the element type of a list or an optional, or the
-- value set of an enumeration.
abbrev pub parts : ColSpec → List (List ℕ)
parts a =
    if (tag_code a.tag == 8) || (tag_code a.tag == 9)
    then (tag_code a.tag ∷ tag_code a.elem ∷ []) ∷ []
    else if tag_code a.tag == 10
    then (10 ∷ a.n_evalues ∷ []) ∷ take (min a.n_evalues enum_max_values) a.evalues
    else (tag_code a.tag ∷ []) ∷ []

-- The first part is the tag.
parts_tag : (a : ColSpec) → get_or (get_or (parts a) 0 []) 0 0 ≡ tag_code a.tag
parts_tag a = elim (Bool-cases ((tag_code a.tag == 8) || (tag_code a.tag == 9))) [
  | inl one ↦ rw one refl
  | inr other ↦ elim (Bool-cases (tag_code a.tag == 10)) [
    | inl enum ↦ rw (other, enum) (sym ((==_iff (tag_code a.tag) 10).0 enum))
    | inr plain ↦ rw (other, plain) refl
  ]
]

differ : (a b : ColSpec) → (tag_code a.tag == tag_code b.tag) ≡ false → colspec_eq a b ≡ false
unfolding colspec_eq
differ a b apart = rw apart refl

enum_parts :
    (m n : ℕ) (xs ys : List (List ℕ))
    → (((m == n) && values_eq (min m enum_max_values) xs ys) ≡ true) ↔ (
        ((10 ∷ m ∷ []) ∷ take (min m enum_max_values) xs)
        ≡ ((10 ∷ n ∷ []) ∷ take (min n enum_max_values) ys))
enum_parts m n xs ys = (
  (λ h.
      let (count, values) = both (m == n) (values_eq (min m enum_max_values) xs ys) h in
      let e : m ≡ n = (==_iff m n).0 count in
      let front =
        values_eq-take (min m enum_max_values) xs ys values
        ∙ ap (λ (k : ℕ). take (min k enum_max_values) ys) e in
      λ i. (10 ∷ e i ∷ []) ∷ front i),
  (λ p.
      let e : m ≡ n = cc p in
      let front : take (min m enum_max_values) xs ≡ take (min n enum_max_values) ys = cc p in
      let values =
        take-values_eq (min m enum_max_values) xs ys
          (front ∙ ap (λ (k : ℕ). take (min k enum_max_values) ys) (sym e)) in
      rw ((==_iff m n).1 e, values) refl),
)
  where
    both : (a b : Bool) → (a && b) ≡ true → (a ≡ true) × (b ≡ true)
    both a b h = ground arith

-- `dl_colspec_eq` returns 1 exactly for specifications with equal parts: the tag, with the element
-- type of a list or an optional, or the counted values of an enumeration.
pub colspec_eq_lem : (a b : ColSpec) → (colspec_eq a b ≡ true) ↔ (parts a ≡ parts b)
unfolding colspec_eq
colspec_eq_lem a b = elim (Bool-cases (tag_code a.tag == tag_code b.tag)) [
  | inr apart ↦ (
    λ h. absurd (cc (h, differ a b apart)),
    λ p.
        let tags : tag_code a.tag ≡ tag_code b.tag =
          sym (parts_tag a)
          ∙ ap (λ (l : List (List ℕ)). get_or (get_or l 0 []) 0 0) p
          ∙ parts_tag b in
        absurd (cc (apart, (==_iff (tag_code a.tag) (tag_code b.tag)).1 tags)),
  )
  | inl same ↦
      let tags : tag_code a.tag ≡ tag_code b.tag = (==_iff _ _).0 same in
      elim (Bool-cases ((tag_code b.tag == 8) || (tag_code b.tag == 9))) [
        | inl one ↦
            rw (tags, ==_refl (tag_code b.tag), one)
              (
                λ h.
                    let e : tag_code a.elem ≡ tag_code b.elem = (==_iff _ _).0 h in
                    λ i. (tag_code b.tag ∷ e i ∷ []) ∷ [],
                λ p. (==_iff (tag_code a.elem) (tag_code b.elem)).1 (cc p),
              )
        | inr other ↦ elim (Bool-cases (tag_code b.tag == 10)) [
          | inl enum ↦
              rw (tags, ==_refl (tag_code b.tag), other, enum)
                (enum_parts a.n_evalues b.n_evalues a.evalues b.evalues)
          | inr plain ↦ rw (tags, ==_refl (tag_code b.tag), other, plain) (λ _. refl, λ _. refl)
        ]
      ]
]
