-- ===== src/TermStore/Table.antt =====
-- The hash table of the term store is that of a tuple set whose rows are the nodes, so the lemmas
-- on `ts_hash_find` and `ts_hash_insert` serve `term_cons` and `ht_grow`.
use native.Mathlib.Decide.{ℕ_discrete}
use native.Mathlib.Numerals.{add-one}
use datalog_dafsa.Base.{
  ℕ, zero, suc, ◌+◌, ◌-◌, ◌≤◌, ◌<◌, bit_and, ◌≡◌, ◌≢◌, refl, sym, ap, ◌∙◌, subst, fun_ext, inl, inr,
  Bool, some, List, [], ◌∷◌, arith, ◌==◌, ==_iff, Bool-cases, length, get_or, set, length-set,
  get_or-set_self, get_or-set_ne, words_eq,
}
use datalog_dafsa.Probe.{walk, IsPow2, walk_stops, walk-lt, occupied, occupied-set}
use datalog_dafsa.TupleSet.{Row, home, names_row, ts_hash_insert}
use datalog_dafsa.TupleSet.Table.{row_of, home-lt, stops, is_empty, probe_keeps, cell_insert}
use datalog_dafsa.TupleSet.Valid.{IsDistinct, IsWithin, IsFound, insert-IsFound}
use datalog_dafsa.TermStore.{Node, Cell, nil_node, empty_cell, term_hash, stops_pair}

abbrev pub row : Node → Row
row node = node.head ∷ node.tail ∷ []

abbrev pub rows_of : List Node → List Row
rows_of [] = []
rows_of (node ∷ nodes) = row node ∷ rows_of nodes

abbrev pub indices : List Cell → List ℕ
indices [] = []
indices (c ∷ cells) = c.idx ∷ indices cells

pub length-rows_of : (nodes : List Node) → length (rows_of nodes) ≡ length nodes
length-rows_of [] = refl
length-rows_of (node ∷ nodes) = ap suc (length-rows_of nodes)

pub get_or-rows_of :
    (nodes : List Node) (i : ℕ)
    → i < length nodes
    → get_or (rows_of nodes) i [] ≡ row (get_or nodes i nil_node)
get_or-rows_of [] i h = absurd (omega arith)
get_or-rows_of (node ∷ nodes) zero h = refl
get_or-rows_of (node ∷ nodes) (suc i) h = get_or-rows_of nodes i (omega arith)

pub length-indices : (ht : List Cell) → length (indices ht) ≡ length ht
length-indices [] = refl
length-indices (c ∷ ht) = ap suc (length-indices ht)

pub get_or-indices :
    (ht : List Cell) (j : ℕ) → get_or (indices ht) j 0 ≡ (get_or ht j empty_cell).idx
get_or-indices [] j = refl
get_or-indices (c ∷ ht) zero = refl
get_or-indices (c ∷ ht) (suc j) = get_or-indices ht j

pub indices-set :
    (ht : List Cell) (j : ℕ) (c : Cell) → indices (set ht j c) ≡ set (indices ht) j c.idx
indices-set [] j c = refl
indices-set (d ∷ ht) zero c = refl
indices-set (d ∷ ht) (suc j) c = ap (λ r. d.idx ∷ r) (indices-set ht j c)

-- The start of the probing loop is that of the row of two columns.
pub home_pair :
    (nc head tail : ℕ) → bit_and (term_hash head tail) (nc - 1) ≡ home nc (head ∷ tail ∷ [])
unfolding term_hash home
home_pair nc head tail = refl

-- A used cell repeats the pair of the node that it names.
abbrev pub MirrorsNode : List Node → Cell → Type 0
MirrorsNode nodes c = c.idx ≢ 0 → (c.key_head ∷ c.key_tail ∷ []) ≡ row_of (rows_of nodes) c.idx

abbrev pub Mirrors : List Node → List Cell → Type 0
Mirrors nodes ht = (j : ℕ) → MirrorsNode nodes (get_or ht j empty_cell)

stops_at :
    (nodes : List Node) (ht : List Cell) (head tail j : ℕ)
    → Mirrors nodes ht
    → stops_pair ht head tail j ≡ stops (rows_of nodes) (indices ht) (head ∷ tail ∷ []) j
unfolding names_row words_eq
stops_at nodes ht head tail j mirrors = elim (Bool-cases ((get_or ht j empty_cell).idx == 0)) [
  | inl none_there ↦ rw (get_or-indices, none_there)
  | inr used ↦ rw (get_or-indices, ← mirrors j (ground arith)) (ground arith)
]

pub stops_pair_rows :
    (nodes : List Node) (ht : List Cell) (head tail : ℕ)
    → Mirrors nodes ht
    → stops_pair ht head tail ≡ stops (rows_of nodes) (indices ht) (head ∷ tail ∷ [])
stops_pair_rows nodes ht head tail mirrors = fun_ext (λ j. stops_at nodes ht head tail j mirrors)

pub empties :
    (ht : List Cell)
    → ◌≡◌ {A = ℕ → Bool} (λ j. (get_or ht j empty_cell).idx == 0) (is_empty (indices ht))
empties ht = fun_ext (λ j. ap (λ (t : ℕ). t == 0) (sym (get_or-indices ht j)))

-- A table that answers for the cons nodes among the first `n` nodes.
pub record Holds (nodes : List Node) (n : ℕ) (ht : List Cell) (nc : ℕ) : Type 0 where
  pub pow : IsPow2 nc
  pub width : length (indices ht) ≡ nc
  pub fill : occupied (indices ht) ≤ n
  pub within : IsWithin (rows_of nodes) (indices ht)
  pub mirrors : Mirrors nodes ht
  pub found : (s : ℕ) → 1 < s → s ≤ n → IsFound (rows_of nodes) (indices ht) nc s

-- The cell that stands for node `i`.
abbrev pub cell_of : ℕ → Node → Cell
cell_of i node = record { idx = i + 1; key_head = node.head; key_tail = node.tail }

pub row_of-suc :
    (nodes : List Node) (i : ℕ)
    → i < length nodes
    → row_of (rows_of nodes) (suc i) ≡ row (get_or nodes i nil_node)
row_of-suc nodes i inside =
    let pred : suc i - 1 ≡ i = omega arith in
    ap (λ (t : ℕ). get_or (rows_of nodes) t []) pred ∙ get_or-rows_of nodes i inside

Mirrors-set :
    (nodes : List Node) (i : ℕ) (ht : List Cell) (e : ℕ)
    → e < length ht
    → i < length nodes
    → Mirrors nodes ht
    → Mirrors nodes (set ht e (cell_of i (get_or nodes i nil_node)))
Mirrors-set nodes i ht e inside at mirrors j = elim (ℕ_discrete e j) [
  | yes same ↦
      subst (λ t. MirrorsNode nodes (get_or (set ht e cell) t empty_cell)) same
        (subst (MirrorsNode nodes) (sym (get_or-set_self ht e cell empty_cell inside))
          (λ _. sym (row_of-suc nodes i at) ∙ ap (row_of (rows_of nodes)) (sym (add-one i))))
  | no apart ↦
      subst (MirrorsNode nodes) (sym (get_or-set_ne ht e j cell empty_cell apart)) (mirrors j)
]
  where
    cell : Cell
    cell = cell_of i (get_or nodes i nil_node)

-- Node `i` goes into the empty cell at which its probing loop ends.
pub set-Holds :
    (nodes : List Node) (i : ℕ) (ht : List Cell) (nc e : ℕ)
    → IsDistinct (rows_of nodes)
    → Holds nodes i ht nc
    → i < nc
    → i < length nodes
    → walk (is_empty (indices ht)) nc nc (home nc (row (get_or nodes i nil_node))) ≡ some e
    → Holds nodes (suc i) (set ht e (cell_of i (get_or nodes i nil_node))) nc
set-Holds nodes i ht nc e distinct holds room inside walked =
    let node : Node = get_or nodes i nil_node in
    let (e', inserted, _, _, new, within) =
      insert-IsFound (rows_of nodes) (indices ht) nc (suc i) distinct holds.pow holds.width
        (omega (arith, holds.fill)) holds.within (omega arith)
        (omega (arith, length-rows_of nodes)) in
    let here = row_of-suc nodes i inside in
    let at_e = cell_insert (indices ht) nc (row node) e (suc i) walked in
    let once : set (indices ht) e' (suc i) ≡ set (indices ht) e (suc i) =
      cc (at_e, inserted, ap (λ (c : Row). ts_hash_insert (indices ht) nc c (suc i)) here) in
    let table : set (indices ht) e' (suc i) ≡ indices (set ht e (cell_of i node)) =
      once ∙ ap (set (indices ht) e) (sym (add-one i)) ∙ sym (indices-set ht e (cell_of i node)) in
    let at : e < nc =
      walk-lt holds.pow (omega arith) (is_empty (indices ht)) nc _ e
        (home-lt nc _ holds.pow (omega arith)) walked in
    let empty : get_or (indices ht) e 0 ≡ 0 =
      (==_iff _ 0).0 (walk_stops (is_empty (indices ht)) nc nc _ e walked) in
    record {
      pow = holds.pow;
      width = rw (indices-set, length-set) holds.width;
      fill = rw indices-set (
          omega (
            arith,
            occupied-set (indices ht) e (i + 1) (omega (arith, holds.width)) empty,
            holds.fill,
          ));
      within = subst (IsWithin (rows_of nodes)) table within;
      mirrors =
          Mirrors-set nodes i ht e (omega (arith, length-indices ht, holds.width, at)) inside
            holds.mirrors;
      found = λ s low high. elim (ℕ_discrete s (suc i)) [
        | yes last ↦
            subst (λ (t : ℕ). IsFound (rows_of nodes) (indices (set ht e (cell_of i node))) nc t)
              (sym last) (subst (λ (h : List ℕ). IsFound (rows_of nodes) h nc (suc i)) table new)
        | no before ↦
            subst (λ (h : List ℕ). IsFound (rows_of nodes) h nc s) (sym once ∙ table)
              (probe_keeps (rows_of nodes) (indices ht) nc _ s e (suc i) empty (omega arith)
                (holds.found s low (omega arith)))
      ];
    }
