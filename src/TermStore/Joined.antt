-- ===== src/TermStore/Joined.antt =====
-- `term_append` returns the concatenation of two lists.
use datalog_dafsa.Base.{
  ℕ, zero, suc, ◌+◌, ◌-◌, ◌*◌, ◌%◌, ◌^◌, ◌<◌, ◌≡◌, ◌≢◌, refl, sym, ap, ◌∙◌, subst, ◌⊎◌, inl, inr,
  true, false, not, ◌&&◌, ◌||◌, Option, none, some, List, [], ◌∷◌, ◌++◌, arith, if◌then◌else◌, ltb,
  leb, ◌==◌, ==_ne, Bool-cases, length, get_or, Mem,
}
use datalog_dafsa.TermStore.{
  TermStore, nil_node, term_base, term_nil, term_is_list, term_car, term_cdr, term_cons, collect,
  cons_all, term_append,
}
use datalog_dafsa.TermStore.Valid.{IsValid, handle}
use datalog_dafsa.TermStore.Lists.{
  Lists, IsHandle-of, few_nodes, is_list-handle, cdr_node, Lists-short, term_cons-Lists,
}

-- The elements of the first list, last first, on top of the second.
abbrev rev_onto : List ℕ → List ℕ → List ℕ
rev_onto [] ys = ys
rev_onto (x ∷ xs) ys = rev_onto xs (x ∷ ys)

rev_onto_twice :
    (xs elems ys : List ℕ) → rev_onto (rev_onto xs elems) ys ≡ rev_onto elems (xs ++ ys)
rev_onto_twice [] elems ys = refl
rev_onto_twice (x ∷ xs) elems ys = rev_onto_twice xs (x ∷ elems) ys

pub car_node :
    (t : TermStore) (i : ℕ)
    → 0 < i
    → i < length t.nodes
    → length t.nodes < 2 ^ 31
    → term_car t (handle i) ≡ (get_or t.nodes i nil_node).head
unfolding term_car
car_node t i low inside few =
    let cons : (handle i == term_nil) ≡ false = ==_ne (handle i) term_nil (omega arith) in
    let back : handle i - term_base ≡ i = omega arith in
    rw (is_list-handle t (handle i) (i, inside, refl) few, cons, back) refl

collect_step :
    (mem : Mem) (t : TermStore) (fuel cur n cap : ℕ) (elems : List ℕ)
    → (cur == term_nil) ≡ false
    → (collect mem t (suc fuel) cur n cap elems ≡ some none)
      ⊎ ((c : ℕ) × (collect mem t (suc fuel) cur n cap elems
            ≡ collect mem t fuel (term_cdr t cur) (n + 1) c (term_car t cur ∷ elems)))
unfolding collect
collect_step mem t fuel cur n cap elems more =
    elim (Bool-cases
      (leb cap n && (ltb (cap * 2 % 2 ^ 32) cap || not (mem.realloc_ok (cap * 2 % 2 ^ 32 * 4))))) [
        | inl refused ↦ inl (rw (more, refused, collect) refl)
        | inr granted ↦
            inr (if leb cap n then cap * 2 % 2 ^ 32 else cap, rw (more, granted, collect) refl)
      ]

collect_nil :
    (mem : Mem) (t : TermStore) (fuel cur n cap : ℕ) (elems : List ℕ)
    → (cur == term_nil) ≡ true
    → collect mem t (suc fuel) cur n cap elems ≡ some (some elems)
unfolding collect
collect_nil mem t fuel cur n cap elems is_nil = rw (is_nil, collect) refl

collect_lem :
    (mem : Mem) (t : TermStore) (xs : List ℕ) (fuel cur n cap : ℕ) (elems : List ℕ)
    → length t.nodes < 2 ^ 31
    → Lists t cur xs
    → length xs < fuel
    → (collect mem t fuel cur n cap elems ≡ some none)
      ⊎ (collect mem t fuel cur n cap elems ≡ some (some (rev_onto xs elems)))
collect_lem mem t xs zero cur n cap elems few lists enough = absurd (omega arith)
collect_lem mem t [] (suc fuel) cur n cap elems few is_nil enough =
    inr (collect_nil mem t fuel cur n cap elems (ap (λ (v : ℕ). v == term_nil) is_nil))
collect_lem mem t (x ∷ xs) (suc fuel) cur n cap elems few (i, low, inside, is_i, head, tail)
      enough =
    elim (collect_step mem t fuel cur n cap elems (==_ne cur term_nil (omega arith))) [
      | inl failed ↦ inl failed
      | inr (c, run) ↦
          let down : term_cdr t cur ≡ (get_or t.nodes i nil_node).tail =
            ap (term_cdr t) is_i ∙ cdr_node t i low inside few in
          let here : term_car t cur ≡ x =
            ap (term_car t) is_i ∙ car_node t i low inside few ∙ head in
          let step = run ∙ (λ k. collect mem t fuel (down k) (n + 1) c (here k ∷ elems)) in
          elim (collect_lem mem t xs fuel _ (n + 1) c (x ∷ elems) few tail (omega arith)) [
            | inl failed ↦ inl (step ∙ failed)
            | inr done ↦ inr (step ∙ done)
          ]
    ]

-- A store that keeps the lists of `t`, and a handle of `zs`, or 0.
abbrev pub Builds : TermStore → List ℕ → Option (TermStore × ℕ) → Type 0
Builds t zs r =
    (t' : TermStore) × (h : ℕ) × (r ≡ some (t', h))
    × IsValid t'
    × ((ys : List ℕ) (old : ℕ) → Lists t old ys → Lists t' old ys)
    × ((h ≡ 0) ⊎ Lists t' h zs)

cons_all_stop :
    (mem : Mem) (t s : TermStore) (x result r : ℕ) (elems : List ℕ)
    → term_cons mem t x result ≡ some (s, r)
    → r ≡ 0
    → cons_all mem t (x ∷ elems) result ≡ some (s, 0)
unfolding cons_all
cons_all_stop mem t s x result r elems run zero_r = rw (run, zero_r) refl

cons_all_step :
    (mem : Mem) (t s : TermStore) (x result r : ℕ) (elems : List ℕ)
    → term_cons mem t x result ≡ some (s, r)
    → r ≢ 0
    → cons_all mem t (x ∷ elems) result ≡ cons_all mem s elems r
unfolding cons_all
cons_all_step mem t s x result r elems run other = rw (run, ==_ne r 0 other) refl

cons_all-Builds :
    (mem : Mem) (elems : List ℕ) (t : TermStore) (result : ℕ) (ys : List ℕ)
    → IsValid t
    → Lists t result ys
    → Builds t (rev_onto elems ys) (cons_all mem t elems result)
unfolding cons_all
cons_all-Builds mem [] t result ys valid lists =
    (t, result, refl, valid, (λ zs old is_old. is_old), inr lists)
cons_all-Builds mem (x ∷ elems) t result ys valid lists =
    let (s, r, run, valid_s, keeps, made) = term_cons-Lists mem t x ys result valid lists in
    elim made [
      | inl zero_r ↦
          (s, 0, cons_all_stop mem t s x result r elems run zero_r, valid_s, keeps, inl refl)
      | inr (i, low, inside, is_i, top, node) ↦
          let (t', h, rest, valid', keeps', done) =
            cons_all-Builds mem elems s r (x ∷ ys) valid_s (i, low, inside, is_i, top, node) in
          (
            t',
            h,
            cons_all_step mem t s x result r elems run (λ e. absurd (omega arith)) ∙ rest,
            valid',
            (λ zs old is_old. keeps' zs old (keeps zs old is_old)),
            done,
          )
    ]

-- The three ends of `term_append` on list handles.
append_nil :
    (mem : Mem) (t : TermStore) (a b : ℕ)
    → term_is_list t a ≡ true
    → term_is_list t b ≡ true
    → (a == term_nil) ≡ true
    → term_append mem t a b ≡ some (t, b)
unfolding term_append
append_nil mem t a b a_list b_list is_nil = rw (a_list, b_list, is_nil) refl

append_refused :
    (mem : Mem) (t : TermStore) (a b : ℕ)
    → term_is_list t a ≡ true
    → term_is_list t b ≡ true
    → (a == term_nil) ≡ false
    → (mem.malloc_ok (16 * 4) ≡ false) ⊎ (collect mem t (length t.nodes) a 0 16 [] ≡ some none)
    → term_append mem t a b ≡ some (t, 0)
unfolding term_append
append_refused mem t a b a_list b_list more (inl refused) = rw (a_list, b_list, more, refused) refl
append_refused mem t a b a_list b_list more (inr refused) =
    elim (Bool-cases (mem.malloc_ok (16 * 4))) [
      | inl granted ↦ rw (a_list, b_list, more, granted, refused) refl
      | inr failed ↦ rw (a_list, b_list, more, failed) refl
    ]

append_run :
    (mem : Mem) (t : TermStore) (a b : ℕ) (elems : List ℕ)
    → term_is_list t a ≡ true
    → term_is_list t b ≡ true
    → (a == term_nil) ≡ false
    → mem.malloc_ok (16 * 4) ≡ true
    → collect mem t (length t.nodes) a 0 16 [] ≡ some (some elems)
    → term_append mem t a b ≡ cons_all mem t elems b
unfolding term_append
append_run mem t a b elems a_list b_list more granted run =
    rw (a_list, b_list, more, granted, run) refl

-- On a valid store, with `a` a handle of `xs` and `b` one of `ys`, `term_append` ends with a valid
-- store in which old handles stand for what they stood for, and its result is 0 or a handle of
-- `xs ++ ys`.
pub term_append-Builds :
    (mem : Mem) (t : TermStore) (a b : ℕ) (xs ys : List ℕ)
    → IsValid t
    → Lists t a xs
    → Lists t b ys
    → Builds t (xs ++ ys) (term_append mem t a b)
term_append-Builds mem t a b [] ys valid is_nil lists_b =
    let few = few_nodes t valid in
    (
      t,
      b,
      append_nil mem t a b (is_list-handle t a (IsHandle-of t [] a valid is_nil) few)
          (is_list-handle t b (IsHandle-of t ys b valid lists_b) few)
          (ap (λ (v : ℕ). v == term_nil) is_nil),
      valid,
      (λ zs old is_old. is_old),
      inr lists_b,
    )
term_append-Builds mem t a b (x ∷ xs) ys valid (i, low, inside, is_i, top, node) lists_b =
    let few = few_nodes t valid in
    let lists_a : Lists t a (x ∷ xs) = (i, low, inside, is_i, top, node) in
    let a_list = is_list-handle t a (i, inside, is_i) few in
    let b_list = is_list-handle t b (IsHandle-of t ys b valid lists_b) few in
    let more : (a == term_nil) ≡ false = ==_ne a term_nil (omega arith) in
    elim (collect_lem mem t (x ∷ xs) (length t.nodes) a 0 16 [] few lists_a
      (omega (arith, Lists-short t (x ∷ xs) a valid lists_a))) [
        | inl failed ↦ (
          t,
          0,
          append_refused mem t a b a_list b_list more (inr failed),
          valid,
          (λ zs old is_old. is_old),
          inl refl,
        )
        | inr run ↦ elim (Bool-cases (mem.malloc_ok (16 * 4))) [
          | inr refused ↦ (
            t,
            0,
            append_refused mem t a b a_list b_list more (inl refused),
            valid,
            (λ zs old is_old. is_old),
            inl refl,
          )
          | inl granted ↦
              subst (λ (zs : List ℕ). Builds t zs (term_append mem t a b))
                (rev_onto_twice (x ∷ xs) [] ys)
                (subst (Builds t (rev_onto (rev_onto (x ∷ xs) []) ys))
                  (sym (append_run mem t a b (rev_onto (x ∷ xs) []) a_list b_list more granted run))
                  (cons_all-Builds mem (rev_onto (x ∷ xs) []) t b ys valid lists_b))
        ]
      ]
