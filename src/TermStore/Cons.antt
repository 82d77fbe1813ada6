-- ===== src/TermStore/Cons.antt =====
-- `term_cons`: on a valid store it ends, keeps the store valid and every old node, and returns the
-- one handle of the pair.
use native.Mathlib.Decide.{dec_lt, ℕ_discrete}
use datalog_dafsa.Base.{
  ℕ, zero, suc, ◌+◌, ◌-◌, ◌*◌, ◌/◌, ◌%◌, ◌^◌, ◌≤◌, ◌<◌, bit_and, ◌≡◌, ◌≢◌, refl, sym, ap, ◌∙◌,
  subst, ◌⊎◌, inl, inr, Bool, true, false, not, ◌||◌, Option, some, List, [], ◌∷◌, ◌++◌, append-nil,
  arith, if◌then◌else◌, ltb, leb, ◌==◌, ==_ne, Bool-cases, length, length-append, get_or, set,
  get_or-append_left, get_or-append_end, ret, Mem,
}
use datalog_dafsa.Probe.{walk, walk_sub}
use datalog_dafsa.TupleSet.{Row, home, probe_row}
use datalog_dafsa.TupleSet.Table.{row_of, stops, is_empty, probe_total, probe_cell, probe_sound}
use datalog_dafsa.TupleSet.Contains.{IsIn}
use datalog_dafsa.TupleSet.Append.{IsDistinct-append}
use datalog_dafsa.TupleSet.Valid.{IsDistinct}
use datalog_dafsa.TermStore.{
  Node, TermStore, nil_node, empty_cell, term_base, term_hash, stops_pair, ht_grow, nodes_grow,
  term_is_list, new_node, intern_pair, term_cons,
}
use datalog_dafsa.TermStore.Table.{
  row, rows_of, indices, length-rows_of, get_or-rows_of, get_or-indices, Holds, cell_of, set-Holds,
  home_pair, stops_pair_rows,
}
use datalog_dafsa.TermStore.Valid.{
  IsValid, IsHandle, handle, cap_bound, rows_of-append, append_Holds, ht_grow-Regrows,
}

-- The later store has the old nodes, at their handles.
abbrev pub Extends : TermStore → TermStore → Type 0
Extends t t' = (more : List Node) × (t'.nodes ≡ t.nodes ++ more)

-- `h` is the handle of the pair; or it is 0 and no node was made.
abbrev pub Interned : TermStore → ℕ → ℕ → TermStore → ℕ → Type 0
Interned t head tail t' h =
    ((h ≡ 0) × (t'.nodes ≡ t.nodes))
    ⊎ ((i : ℕ) × (0 < i)
        × (i < length t'.nodes)
        × (h ≡ handle i)
        × (get_or t'.nodes i nil_node ≡ record { head = head; tail = tail }))

node_eq :
    (n : Node) (head tail : ℕ) → row n ≡ head ∷ tail ∷ [] → n ≡ record { head = head; tail = tail }
node_eq n head tail e =
    let p : n.head ≡ head = cc in
    let q : n.tail ≡ tail = cc in λ i. record { head = p i; tail = q i }

positive : (s : ℕ) → s ≢ 0 → s ≢ 1 → 0 < s - 1
positive s a b = omega arith

-- The row of the empty list is not that of a cons cell.
not_nil :
    (t : TermStore) (head tail : ℕ)
    → IsValid t
    → term_base ≤ tail
    → row_of (rows_of t.nodes) 1 ≢ head ∷ tail ∷ []
not_nil t head tail valid is_tail e =
    let nil_row : row nil_node ≡ head ∷ tail ∷ [] =
      ap row (sym valid.nil_first) ∙ sym (get_or-rows_of t.nodes 0 valid.has_nil) ∙ e in
    let zero_tail : 0 ≡ tail = cc nil_row in absurd (omega arith)

-- A pair that the search does not find is no node.
missing :
    (t : TermStore) (head tail : ℕ)
    → IsValid t
    → term_base ≤ tail
    → probe_row (rows_of t.nodes) (indices t.ht) t.ht_cap (head ∷ tail ∷ []) ≡ some 0
    → ¬ IsIn (head ∷ tail ∷ []) (rows_of t.nodes)
missing t head tail valid is_tail out (zero, inside, here) = not_nil t head tail valid is_tail here
missing t head tail valid is_tail out (suc i, inside, here) =
    let at : suc (suc i) - 1 ≡ suc i = omega arith in
    let probed =
      sym (
        ap (probe_row (rows_of t.nodes) (indices t.ht) t.ht_cap)
          (ap (λ (k : ℕ). get_or (rows_of t.nodes) k []) at ∙ here))
      ∙ valid.table.found (suc (suc i)) (omega arith) (omega (arith, length-rows_of t.nodes)) in
    let clash : 0 ≡ suc (suc i) = cc (out, probed) in absurd (omega arith)

-- The probing loop of `term_cons` ends: at the cell of a node with this pair, or at an empty cell
-- if there is none.
lookup :
    (t : TermStore) (head tail : ℕ)
    → IsValid t
    → term_base ≤ tail
    → (j : ℕ) × (walk
          (stops_pair t.ht head tail)
          t.ht_cap
          t.ht_cap
          (bit_and (term_hash head tail) (t.ht_cap - 1))
        ≡ some j)
      × ((((get_or t.ht j empty_cell).idx ≡ 0)
            × (¬ IsIn (head ∷ tail ∷ []) (rows_of t.nodes))
            × (walk (is_empty (indices t.ht)) t.ht_cap t.ht_cap (home t.ht_cap (head ∷ tail ∷ []))
                ≡ some j))
          ⊎ ((i : ℕ) × (0 < i)
              × (i < length t.nodes)
              × ((get_or t.ht j empty_cell).idx ≡ suc i)
              × (get_or t.nodes i nil_node ≡ record { head = head; tail = tail })))
lookup t head tail valid is_tail =
    let holds = valid.table in
    let cols : Row = head ∷ tail ∷ [] in
    let (s, run) =
      probe_total holds.pow (omega (arith, valid.large)) (indices t.ht) holds.width
        (omega (arith, holds.fill, valid.room, valid.large)) (rows_of t.nodes) cols in
    let (j, walked, at_j) = probe_cell (rows_of t.nodes) (indices t.ht) t.ht_cap cols s run in
    let ends =
      ap
        (λ (stop : ℕ → Bool).
          walk stop t.ht_cap t.ht_cap (bit_and (term_hash head tail) (t.ht_cap - 1)))
        (stops_pair_rows t.nodes t.ht head tail holds.mirrors)
      ∙ ap (walk (stops (rows_of t.nodes) (indices t.ht) cols) t.ht_cap t.ht_cap)
          (home_pair t.ht_cap head tail)
      ∙ walked in
    let idx : (get_or t.ht j empty_cell).idx ≡ s = sym (get_or-indices t.ht j) ∙ at_j in
    (
      j,
      ends,
      elim (ℕ_discrete s 0) [
        | yes empty ↦ inl (
          idx ∙ empty,
          missing t head tail valid is_tail (run ∙ ap some empty),
          (walk_sub (stops (rows_of t.nodes) (indices t.ht) cols) (is_empty (indices t.ht)) t.ht_cap
              t.ht_cap (home t.ht_cap cols) j (λ k h. rw h) (rw (at_j, empty)) walked),
        )
        | no full ↦
            let equal = probe_sound (rows_of t.nodes) (indices t.ht) t.ht_cap cols s run full in
            let inside : s ≤ length t.nodes =
              omega (arith, holds.within j, at_j, length-rows_of t.nodes) in
            inr (
              s - 1,
              (positive s full (λ one.
                  not_nil t head tail valid is_tail
                    (ap (row_of (rows_of t.nodes)) (sym one) ∙ equal))),
              omega arith,
              idx ∙ omega arith,
              node_eq _ head tail (sym (get_or-rows_of t.nodes (s - 1) (omega arith)) ∙ equal),
            )
      ],
    )

-- The tail of node `i` is an earlier node.
abbrev IsBefore : ℕ → Node → Type 0
IsBefore i m = (term_base ≤ m.tail) × (m.tail < handle i)

new_index : (i n : ℕ) → i < suc n → ¬ (i < n) → n ≡ i
new_index i n h k = omega arith

-- A new node at the end keeps the store valid.
push :
    (t : TermStore) (c head tail j : ℕ) (d : ℕ)
    → IsValid t
    → IsHandle t tail
    → suc (length t.nodes) ≤ t.ht_cap - t.ht_cap / 4
    → ¬ IsIn (head ∷ tail ∷ []) (rows_of t.nodes)
    → walk (is_empty (indices t.ht)) t.ht_cap t.ht_cap (home t.ht_cap (head ∷ tail ∷ [])) ≡ some j
    → IsValid (record t {
      nodes = t.nodes ++ record { head = head; tail = tail } ∷ [];
      cap = c;
      ht = set t.ht j (record { idx = length t.nodes + 1; key_head = head; key_tail = tail });
      dirty = d;
    })
push t c head tail j d valid (k, inside, is_k) room new walked =
    let node : Node = record { head = head; tail = tail } in
    let n : ℕ = length t.nodes in
    let nodes : List Node = t.nodes ++ node ∷ [] in
    let len : length nodes ≡ suc n = omega (arith, length-append t.nodes (node ∷ [])) in
    let last : get_or nodes n nil_node ≡ node = get_or-append_end t.nodes node nil_node n refl in
    let joined = rows_of-append t.nodes (node ∷ []) in
    let distinct : IsDistinct (rows_of nodes) =
      subst IsDistinct (sym joined)
        (IsDistinct-append (rows_of t.nodes) (head ∷ tail ∷ []) valid.distinct new) in
    let grown =
      set-Holds nodes n t.ht t.ht_cap j distinct
        (append_Holds t.nodes (node ∷ []) t.ht t.ht_cap valid.table) (omega arith) (omega arith)
        (ap (λ (m : Node). walk (is_empty (indices t.ht)) t.ht_cap t.ht_cap (home t.ht_cap (row m)))
            last
          ∙ walked) in
    record {
      distinct = distinct;
      table =
          subst (λ (m : ℕ). Holds nodes m (set t.ht j (cell_of n node)) t.ht_cap) (sym len)
            (subst (λ (m : Node). Holds nodes (suc n) (set t.ht j (cell_of n m)) t.ht_cap) last
              grown);
      has_nil = omega arith;
      nil_first = get_or-append_left t.nodes (node ∷ []) 0 nil_node valid.has_nil ∙ valid.nil_first;
      earlier = λ i low high. elim (dec_lt i n) [
        | yes old ↦
            subst (IsBefore i) (sym (get_or-append_left t.nodes (node ∷ []) i nil_node old))
              (valid.earlier i low old)
        | no end ↦
            subst (λ (m : ℕ). IsBefore m (get_or nodes m nil_node))
              (new_index i n (omega arith) end)
              (subst (IsBefore n) (sym last) (omega arith, omega arith))
      ];
      room = omega arith;
      large = valid.large;
      small = valid.small;
    }

-- The two results of `new_node`, where handles do not wrap.
new_node_run :
    (mem : Mem) (t : TermStore) (head tail j : ℕ)
    → length t.nodes < 2 ^ 31
    → (new_node mem t head tail j ≡ (t, 0))
      ⊎ ((c : ℕ) × (new_node mem t head tail j ≡ (
        record t {
          nodes = t.nodes ++ record { head = head; tail = tail } ∷ [];
          cap = c;
          ht = set t.ht j (record { idx = length t.nodes + 1; key_head = head; key_tail = tail });
          dirty = 1;
        },
        handle (length t.nodes),
      )))
unfolding new_node nodes_grow
new_node_run mem t head tail j small =
    let next : (length t.nodes + 1) % 2 ^ 32 ≡ length t.nodes + 1 = omega arith in
    let named : (term_base + length t.nodes) % 2 ^ 32 ≡ term_base + length t.nodes = omega arith in
    elim (Bool-cases (leb t.cap (length t.nodes))) [
      | inl full ↦
          elim (Bool-cases
            (ltb (t.cap * 2 % 2 ^ 32) t.cap || not (mem.realloc_ok (t.cap * 2 % 2 ^ 32 * 4)))) [
              | inl refused ↦ inl (rw (full, refused, new_node))
              | inr granted ↦
                  inr (t.cap * 2 % 2 ^ 32, rw (full, granted, new_node) (rw (next, named)))
            ]
      | inr free ↦ inr (t.cap, rw (free, new_node) (rw (next, named)))
    ]

-- What `term_cons` does to a valid store.
abbrev pub Conses : TermStore → ℕ → ℕ → Option (TermStore × ℕ) → Type 0
Conses t head tail r =
    (t' : TermStore) × (h : ℕ) × (r ≡ some (t', h))
    × IsValid t'
    × Extends t t'
    × Interned t head tail t' h

pair_run :
    (mem : Mem) (t : TermStore) (head tail j : ℕ)
    → walk
        (stops_pair t.ht head tail)
        t.ht_cap
        t.ht_cap
        (bit_and (term_hash head tail) (t.ht_cap - 1))
      ≡ some j
    → intern_pair mem t head tail
      ≡ some (
          if (get_or t.ht j empty_cell).idx == 0
          then new_node mem t head tail j
          else (t, (term_base + ((get_or t.ht j empty_cell).idx + 2 ^ 32 - 1)) % 2 ^ 32))
unfolding intern_pair
pair_run mem t head tail j run = rw (run, intern_pair)

intern_pair-Conses :
    (mem : Mem) (t : TermStore) (head tail : ℕ)
    → IsValid t
    → IsHandle t tail
    → suc (length t.nodes) ≤ t.ht_cap - t.ht_cap / 4
    → Conses t head tail (intern_pair mem t head tail)
intern_pair-Conses mem t head tail valid is_handle room =
    let (k, k_in, is_k) = is_handle in
    let few : length t.nodes < 2 ^ 31 =
      omega (arith, cap_bound t.ht_cap valid.table.pow valid.small, valid.large) in
    let (j, run, found) = lookup t head tail valid (omega arith) in
    let ends = pair_run mem t head tail j run in
    elim found [
      | inl (empty, new, walked) ↦ elim (new_node_run mem t head tail j few) [
        | inl failed ↦ (
          t,
          0,
          ends ∙ rw (empty, failed),
          valid,
          ([], sym (append-nil t.nodes)),
          inl (refl, refl),
        )
        | inr (c, made) ↦ (
          _,
          _,
          ends ∙ rw (empty, made),
          push t c head tail j 1 valid is_handle room new walked,
          (record { head = head; tail = tail } ∷ [], refl),
          inr (
            length t.nodes,
            valid.has_nil,
            omega (arith, length-append t.nodes (record { head = head; tail = tail } ∷ [])),
            refl,
            get_or-append_end t.nodes _ nil_node (length t.nodes) refl,
          ),
        )
      ]
      | inr (i, low, inside, idx, node) ↦
          let used : ((get_or t.ht j empty_cell).idx == 0) ≡ false =
            rw idx (==_ne (suc i) 0 (omega arith)) in
          let named : (term_base + ((get_or t.ht j empty_cell).idx + 2 ^ 32 - 1)) % 2 ^ 32
              ≡ handle i =
            rw idx (omega arith) in
          (
            t,
            handle i,
            ends ∙ rw (used, named),
            valid,
            ([], sym (append-nil t.nodes)),
            inr (i, low, inside, refl, node),
          )
    ]

list_tail :
    (t : TermStore) (tail : ℕ)
    → IsHandle t tail
    → length t.nodes < 2 ^ 31
    → term_is_list t tail ≡ true
unfolding term_is_list
list_tail t tail (k, inside, is_k) few = ground arith

grown_run :
    (mem : Mem) (t s : TermStore) (head tail : ℕ) (r : Option (TermStore × ℕ))
    → term_is_list t tail ≡ true
    → ltb (t.ht_cap - t.ht_cap / 4) ((length t.nodes + 1) % 2 ^ 32) ≡ true
    → ht_grow mem t ≡ some (s, ret 0)
    → intern_pair mem s head tail ≡ r
    → term_cons mem t head tail ≡ r
unfolding term_cons
grown_run mem t s head tail r is_list loaded grown run = rw (is_list, loaded, grown) run

spare_run :
    (mem : Mem) (t : TermStore) (head tail : ℕ) (r : Option (TermStore × ℕ))
    → term_is_list t tail ≡ true
    → ltb (t.ht_cap - t.ht_cap / 4) ((length t.nodes + 1) % 2 ^ 32) ≡ false
    → intern_pair mem t head tail ≡ r
    → term_cons mem t head tail ≡ r
unfolding term_cons
spare_run mem t head tail r is_list spare run = rw (is_list, spare) run

-- On a valid store and a list handle `tail`, `term_cons` ends. It keeps the store valid and every
-- old node at its handle, and returns the handle of a node with this head and tail, or 0 with the
-- nodes unchanged.
pub term_cons-Conses :
    (mem : Mem) (t : TermStore) (head tail : ℕ)
    → IsValid t
    → IsHandle t tail
    → Conses t head tail (term_cons mem t head tail)
unfolding term_cons
term_cons-Conses mem t head tail valid is_handle =
    let few : length t.nodes < 2 ^ 31 =
      omega (arith, cap_bound t.ht_cap valid.table.pow valid.small, valid.large) in
    let is_list = list_tail t tail is_handle few in
    let next : (length t.nodes + 1) % 2 ^ 32 ≡ length t.nodes + 1 = omega arith in
    elim (Bool-cases (ltb (t.ht_cap - t.ht_cap / 4) (length t.nodes + 1))) [
      | inl loaded ↦ elim (ht_grow-Regrows mem t valid) [
        | inl failed ↦ (
          t,
          0,
          rw (is_list, next, loaded, failed, term_cons),
          valid,
          ([], sym (append-nil t.nodes)),
          inl (refl, refl),
        )
        | inr (ht, grown, holds, fits) ↦
            let (t', h, run, keeps, more, found) =
              intern_pair-Conses mem (record t { ht = ht; ht_cap = t.ht_cap * 2 }) head tail
                (record {
                  distinct = valid.distinct;
                  table = holds;
                  has_nil = valid.has_nil;
                  nil_first = valid.nil_first;
                  earlier = valid.earlier;
                  room = omega (arith, valid.room, valid.large);
                  large = omega (arith, valid.large);
                  small = fits;
                })
                is_handle (omega (arith, valid.room, valid.large)) in
            (
              t',
              h,
              grown_run mem t _ head tail _ is_list
                  (ap (λ (n : ℕ). ltb (t.ht_cap - t.ht_cap / 4) n) next ∙ loaded) grown run,
              keeps,
              more,
              found,
            )
      ]
      | inr spare ↦
          let (t', h, run, keeps, more, found) =
            intern_pair-Conses mem t head tail valid is_handle
              (spared t.ht_cap (length t.nodes) spare) in
          (
            t',
            h,
            spare_run mem t head tail _ is_list
                (ap (λ (n : ℕ). ltb (t.ht_cap - t.ht_cap / 4) n) next ∙ spare) run,
            keeps,
            more,
            found,
          )
    ]
  where
    spared : (c n : ℕ) → ltb (c - c / 4) (n + 1) ≡ false → suc n ≤ c - c / 4
    spared c n h = ground arith
