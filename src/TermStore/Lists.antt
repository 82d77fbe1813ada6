-- ===== src/TermStore/Lists.antt =====
-- The lists that handles stand for: what `term_cons` adds, that a list has one handle, and what
-- `term_length` counts.
use datalog_dafsa.Base.{
  ℕ, zero, suc, ◌+◌, ◌-◌, ◌%◌, ◌^◌, ◌≤◌, ◌<◌, ◌≡◌, refl, sym, ap, ◌∙◌, subst, ◌⊎◌, ◌↔◌, inl, inr,
  Bool, true, false, Option, some, List, [], ◌∷◌, arith, if◌then◌else◌, ◌==◌, ==_ne, length,
  length-append, get_or, get_or-append_left, Mem,
}
use datalog_dafsa.TermStore.{
  Node, TermStore, nil_node, term_base, term_nil, term_is_list, term_cdr, term_cons, count_cells,
  term_length,
}
use datalog_dafsa.TermStore.Table.{length-rows_of, get_or-rows_of}
use datalog_dafsa.TermStore.Valid.{IsValid, IsHandle, handle, cap_bound}
use datalog_dafsa.TermStore.Cons.{Extends, term_cons-Conses}

-- The handle `h` stands for the list.
abbrev pub Lists : TermStore → ℕ → List ℕ → Type 0
Lists t h [] = h ≡ term_nil
Lists t h (x ∷ xs) =
    (i : ℕ) × (0 < i)
    × (i < length t.nodes)
    × (h ≡ handle i)
    × ((get_or t.nodes i nil_node).head ≡ x)
    × Lists t (get_or t.nodes i nil_node).tail xs

pub extend_Lists :
    (t t' : TermStore) (xs : List ℕ) (h : ℕ) → Extends t t' → Lists t h xs → Lists t' h xs
extend_Lists t t' [] h more is_nil = is_nil
extend_Lists t t' (x ∷ xs) h (more, e) (i, low, inside, is_i, head, tail) =
    let same : get_or t'.nodes i nil_node ≡ get_or t.nodes i nil_node =
      ap (λ (ns : List Node). get_or ns i nil_node) e
      ∙ get_or-append_left t.nodes more i nil_node inside in
    (
      i,
      low,
      omega (arith, ap length e, length-append t.nodes more),
      is_i,
      ap (λ (n : Node). n.head) same ∙ head,
      subst (λ (n : Node). Lists t' n.tail xs) (sym same) (extend_Lists t t' xs _ (more, e) tail),
    )

pub IsHandle-of : (t : TermStore) (xs : List ℕ) (h : ℕ) → IsValid t → Lists t h xs → IsHandle t h
IsHandle-of t [] h valid is_nil = (0, valid.has_nil, is_nil)
IsHandle-of t (x ∷ xs) h valid (i, low, inside, is_i, head, tail) = (i, inside, is_i)

-- On a valid store, a handle `tail` of a list `xs`, and any `x`: `term_cons` ends with a valid
-- store in which old handles stand for what they stood for, and its result is 0 or a handle of
-- `x ∷ xs`.
pub term_cons-Lists :
    (mem : Mem) (t : TermStore) (x : ℕ) (xs : List ℕ) (tail : ℕ)
    → IsValid t
    → Lists t tail xs
    → (t' : TermStore) × (h : ℕ) × (term_cons mem t x tail ≡ some (t', h))
      × IsValid t'
      × ((ys : List ℕ) (old : ℕ) → Lists t old ys → Lists t' old ys)
      × ((h ≡ 0) ⊎ Lists t' h (x ∷ xs))
term_cons-Lists mem t x xs tail valid lists =
    let (t', h, run, keeps, more, is_new) =
      term_cons-Conses mem t x tail valid (IsHandle-of t xs tail valid lists) in
    (
      t',
      h,
      run,
      keeps,
      (λ ys old. extend_Lists t t' ys old more),
      elim is_new [
        | inl (zero_h, _) ↦ inl zero_h
        | inr (i, low, inside, is_i, node) ↦ inr (
          i,
          low,
          inside,
          is_i,
          ap (λ (n : Node). n.head) node,
          subst (λ (n : Node). Lists t' n.tail xs) (sym node)
              (extend_Lists t t' xs tail more lists),
        )
      ],
    )

-- Two nodes with one head and tail are one.
node_once :
    (t : TermStore) (i j : ℕ)
    → IsValid t
    → i < length t.nodes
    → j < length t.nodes
    → (get_or t.nodes i nil_node).head ≡ (get_or t.nodes j nil_node).head
    → (get_or t.nodes i nil_node).tail ≡ (get_or t.nodes j nil_node).tail
    → i ≡ j
node_once t i j valid i_in j_in heads tails =
    valid.distinct i j (omega (arith, length-rows_of t.nodes))
      (omega (arith, length-rows_of t.nodes))
      (get_or-rows_of t.nodes i i_in
        ∙ (λ k. heads k ∷ tails k ∷ [])
        ∙ sym (get_or-rows_of t.nodes j j_in))

-- In a valid store a list has one handle: two handles of equal lists are equal.
pub handle_unique :
    (t : TermStore) (xs : List ℕ) (a b : ℕ) → IsValid t → Lists t a xs → Lists t b xs → a ≡ b
handle_unique t [] a b valid is_a is_b = is_a ∙ sym is_b
handle_unique t (x ∷ xs) a b valid (i, _, i_in, is_i, i_head, i_tail)
      (j, _, j_in, is_j, j_head, j_tail) =
    let tails = handle_unique t xs _ _ valid i_tail j_tail in
    is_i ∙ ap handle (node_once t i j valid i_in j_in (i_head ∙ sym j_head) tails) ∙ sym is_j

handle_injective : (i j : ℕ) → handle i ≡ handle j → i ≡ j
handle_injective i j e = omega (arith, e)

not_nil : (i : ℕ) → 0 < i → handle i ≡ term_nil → ⊥
not_nil i low e = omega (arith, low, e)

-- One handle stands for one list.
pub same_list : (t : TermStore) (xs ys : List ℕ) (h : ℕ) → Lists t h xs → Lists t h ys → xs ≡ ys
same_list t [] [] h a b = refl
same_list t [] (y ∷ ys) h a (i, low, inside, is_i, head, b) = absurd (not_nil i low (sym is_i ∙ a))
same_list t (x ∷ xs) [] h (i, low, inside, is_i, head, a) b = absurd (not_nil i low (sym is_i ∙ b))
same_list t (x ∷ xs) (y ∷ ys) h (i, low, _, is_i, head, tail) (j, _, _, is_j, head', tail') =
    let same : i ≡ j = handle_injective i j (sym is_i ∙ is_j) in
    let first : x ≡ y = sym head ∙ ap (λ (k : ℕ). (get_or t.nodes k nil_node).head) same ∙ head' in
    let rest : xs ≡ ys =
      same_list t xs ys _ tail
        (subst (λ (k : ℕ). Lists t (get_or t.nodes k nil_node).tail ys) (sym same) tail') in
    rw (first, rest) refl

-- A handle of node `i` stands for a list of at most `i` elements.
Lists-below :
    (fuel : ℕ) (t : TermStore) (i : ℕ)
    → IsValid t
    → i < length t.nodes
    → i ≤ fuel
    → (xs : List ℕ) × Lists t (handle i) xs × (length xs ≤ i)
Lists-below fuel t zero valid inside bound = ([], omega arith, omega arith)
Lists-below zero t (suc i) valid inside bound = absurd (omega arith)
Lists-below (suc fuel) t (suc i) valid inside bound =
    let (low, high) = valid.earlier (suc i) (omega arith) inside in
    let tl : ℕ = (get_or t.nodes (suc i) nil_node).tail in
    let (xs, lists, short) =
      Lists-below fuel t (tl - term_base) valid (omega arith) (omega arith) in
    (
      (get_or t.nodes (suc i) nil_node).head ∷ xs,
      (
        suc i,
        omega arith,
        inside,
        refl,
        refl,
        subst (λ (h : ℕ). Lists t h xs) (rebased tl low) lists,
      ),
      omega arith,
    )
  where
    rebased : (v : ℕ) → term_base ≤ v → handle (v - term_base) ≡ v
    rebased v h = omega arith

-- In a valid store every handle stands for a list, of fewer elements than the store has nodes.
pub handle-total :
    (t : TermStore) (h : ℕ)
    → IsValid t
    → IsHandle t h
    → (xs : List ℕ) × Lists t h xs × (length xs < length t.nodes)
handle-total t h valid (i, inside, is_i) =
    let (xs, lists, short) = Lists-below i t i valid inside (omega arith) in
    (xs, subst (λ (v : ℕ). Lists t v xs) (sym is_i) lists, omega arith)

-- The handle of a list is at least its length above the empty list's.
pub Lists-short :
    (t : TermStore) (xs : List ℕ) (h : ℕ) → IsValid t → Lists t h xs → length xs + term_base ≤ h
Lists-short t [] h valid is_nil = omega arith
Lists-short t (x ∷ xs) h valid (i, low, inside, is_i, head, tail) =
    omega (arith, Lists-short t xs _ valid tail, (valid.earlier i low inside).1)

pub few_nodes : (t : TermStore) → IsValid t → length t.nodes < 2 ^ 31
few_nodes t valid =
    omega (arith, cap_bound t.ht_cap valid.table.pow valid.small, valid.room, valid.large)

pub is_list-handle :
    (t : TermStore) (h : ℕ) → IsHandle t h → length t.nodes < 2 ^ 31 → term_is_list t h ≡ true
unfolding term_is_list
is_list-handle t h (k, inside, is_k) few = ground arith

pub cdr_node :
    (t : TermStore) (i : ℕ)
    → 0 < i
    → i < length t.nodes
    → length t.nodes < 2 ^ 31
    → term_cdr t (handle i) ≡ (get_or t.nodes i nil_node).tail
unfolding term_cdr
cdr_node t i low inside few =
    let cons : (handle i == term_nil) ≡ false = ==_ne (handle i) term_nil (omega arith) in
    let back : handle i - term_base ≡ i = omega arith in
    rw (is_list-handle t (handle i) (i, inside, refl) few, cons, back) refl

count_step :
    (t : TermStore) (fuel h n tl m : ℕ) (r : Option ℕ)
    → (h == term_nil) ≡ false
    → term_cdr t h ≡ tl
    → (n + 1) % 2 ^ 32 ≡ m
    → count_cells t fuel tl m ≡ r
    → count_cells t (suc fuel) h n ≡ r
unfolding count_cells
count_step t fuel h n tl m r cons cdr next run =
    ap (λ (b : Bool). if b then some n else count_cells t fuel (term_cdr t h) ((n + 1) % 2 ^ 32))
      cons
    ∙ (λ k. count_cells t fuel (cdr k) (next k))
    ∙ run

count_cells_lem :
    (t : TermStore) (xs : List ℕ) (fuel h n : ℕ)
    → length t.nodes < 2 ^ 31
    → Lists t h xs
    → length xs < fuel
    → n + length xs < 2 ^ 32
    → count_cells t fuel h n ≡ some (n + length xs)
unfolding count_cells
count_cells_lem t xs zero h n few lists enough small = absurd (omega arith)
count_cells_lem t [] (suc fuel) h n few is_nil enough small = rw is_nil (ap some (omega arith))
count_cells_lem t (x ∷ xs) (suc fuel) h n few (i, low, inside, is_i, head, tail) enough small =
    count_step t fuel h n _ (n + 1) _ (==_ne h term_nil (omega arith))
      (ap (term_cdr t) is_i ∙ cdr_node t i low inside few) (omega arith)
      (count_cells_lem t xs fuel _ (n + 1) few tail (omega arith) (omega arith)
        ∙ ap some (omega arith))

-- On a valid store, `term_length` of a list handle ends and is the number of the list's elements.
pub term_length_lem :
    (t : TermStore) (h : ℕ) (xs : List ℕ)
    → IsValid t
    → Lists t h xs
    → term_length t h ≡ some (length xs)
unfolding term_length
term_length_lem t h xs valid lists =
    let few = few_nodes t valid in
    let is_handle = IsHandle-of t xs h valid lists in
    let (i, inside, is_i) = is_handle in
    rw (is_list-handle t h is_handle few) (
      count_cells_lem t xs (length t.nodes) h 0 few lists
        (omega (arith, Lists-short t xs h valid lists))
        (omega (arith, Lists-short t xs h valid lists))
      ∙ ap some (omega arith))

-- On a valid store, a handle `tail` of a list `xs`, and any `x`: `term_cons` ends with a valid store,
-- and its result is 0, or handles of `ys` there are equal to it exactly if `ys` is `x ∷ xs`. A handle
-- that the store already had for `x ∷ xs` is such a handle.
pub term_cons_unique :
    (mem : Mem) (t : TermStore) (x : ℕ) (xs ys : List ℕ) (tail old : ℕ)
    → IsValid t
    → Lists t tail xs
    → Lists t old ys
    → (t' : TermStore) × (h : ℕ) × (term_cons mem t x tail ≡ some (t', h))
      × IsValid t'
      × ((h ≡ 0) ⊎ ((old ≡ h) ↔ (ys ≡ x ∷ xs)))
term_cons_unique mem t x xs ys tail old valid lists olds =
    let (t', h, run, valid', kept, result) = term_cons-Lists mem t x xs tail valid lists in
    (
      t',
      h,
      run,
      valid',
      elim result [
        | inl none_made ↦ inl none_made
        | inr made ↦ inr (
          (λ same.
              same_list t' ys (x ∷ xs) h (subst (λ (v : ℕ). Lists t' v ys) same (kept ys old olds))
                made),
          (λ same.
              handle_unique t' (x ∷ xs) old h valid'
                (subst (λ (zs : List ℕ). Lists t' old zs) same (kept ys old olds)) made),
        )
      ],
    )

-- In a valid store `term_length` of every handle ends, with the number of elements of the list that
-- the handle stands for, which is less than that of the store's nodes.
pub term_length-total :
    (t : TermStore) (h : ℕ)
    → IsValid t
    → IsHandle t h
    → (xs : List ℕ) × Lists t h xs
      × (length xs < length t.nodes)
      × (term_length t h ≡ some (length xs))
term_length-total t h valid is_handle =
    let (xs, lists, short) = handle-total t h valid is_handle in
    (xs, lists, short, term_length_lem t h xs valid lists)
