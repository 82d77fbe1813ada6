-- ===== src/TermStore/Valid.antt =====
-- The invariant of the term store, and the steps of `ht_grow` and `new_node` that keep it.
use native.Mathlib.Nat.{pow-suc, one-le-pow}
use datalog_dafsa.Base.{
  bit_and, ℕ, zero, suc, ◌+◌, ◌-◌, ◌*◌, ◌/◌, ◌%◌, ◌^◌, ◌≤◌, ◌<◌, ◌≡◌, refl, sym, ap, ◌∙◌, subst,
  ◌⊎◌, inl, inr, Bool, false, not, ◌||◌, Option, some, List, [], ◌∷◌, ◌++◌, arith, ltb, ◌==◌,
  Bool-cases, length, length-append, get_or, set, replicate, length-replicate, get_or-append_left,
  get_or-replicate, Ret, err, ret, Mem,
}
use datalog_dafsa.Probe.{walk, IsPow2, occupied}
use datalog_dafsa.TupleSet.{Row, home, probe_row}
use datalog_dafsa.TupleSet.Table.{row_of, is_empty, insert_total, probe_append}
use datalog_dafsa.TupleSet.Valid.{IsDistinct}
use datalog_dafsa.TermStore.{
  Node, Cell, TermStore, nil_node, empty_cell, term_base, term_hash, ht_put, ht_refill, refill,
  ht_grow,
}
use datalog_dafsa.TermStore.Table.{
  row, rows_of, indices, length-rows_of, length-indices, get_or-indices, Holds, cell_of, set-Holds,
  home_pair, empties,
}

-- The handle of node `i`.
abbrev pub handle : ℕ → ℕ
handle i = term_base + i

pub record IsValid (t : TermStore) : Type 0 where
  pub distinct : IsDistinct (rows_of t.nodes)
  pub table : Holds t.nodes (length t.nodes) t.ht t.ht_cap
  pub has_nil : 0 < length t.nodes
  pub nil_first : get_or t.nodes 0 nil_node ≡ nil_node
  -- The tail of a cons node is an earlier node.
  pub earlier :
      (i : ℕ)
      → 0 < i
      → i < length t.nodes
      → (term_base ≤ (get_or t.nodes i nil_node).tail)
        × ((get_or t.nodes i nil_node).tail < handle i)
  pub room : length t.nodes ≤ t.ht_cap - t.ht_cap / 4
  pub large : 128 ≤ t.ht_cap
  pub small : t.ht_cap < 2 ^ 32

-- A list handle of the store.
abbrev pub IsHandle : TermStore → ℕ → Type 0
IsHandle t v = (i : ℕ) × (i < length t.nodes) × (v ≡ handle i)

half_pow : (k m : ℕ) → 2 ^ k < 2 ^ suc m → 2 ^ k ≤ 2 ^ m
half_pow zero m h = one-le-pow m 2 (omega arith)
half_pow (suc k) zero h = absurd (omega (arith, pow-suc 2 k, one-le-pow k 2))
half_pow (suc k) (suc m) h = omega (
  arith,
  pow-suc 2 k,
  pow-suc 2 m,
  pow-suc 2 (suc m),
  half_pow k m (omega (arith, pow-suc 2 k, pow-suc 2 (suc m))),
)

-- A u32 power of two is at most 2^31, so the nodes are fewer than the handles.
pub cap_bound : (cap : ℕ) → IsPow2 cap → cap < 2 ^ 32 → cap ≤ 2 ^ 31
cap_bound cap (k, e) h = rw e (half_pow k 31 (rw (← e) h))

pub rows_of-append :
    (nodes more : List Node) → rows_of (nodes ++ more) ≡ rows_of nodes ++ rows_of more
rows_of-append [] more = refl
rows_of-append (n ∷ nodes) more = ap (λ r. row n ∷ r) (rows_of-append nodes more)

-- A table that answers for the first nodes still does when nodes are appended.
pub append_Holds :
    (nodes more : List Node) (ht : List Cell) (nc : ℕ)
    → Holds nodes (length nodes) ht nc
    → Holds (nodes ++ more) (length nodes) ht nc
append_Holds nodes more ht nc holds =
    let rows = rows_of nodes in
    let len = length-rows_of nodes in
    let joined = rows_of-append nodes more in
    record {
      pow = holds.pow;
      width = holds.width;
      fill = holds.fill;
      within = λ j.
          omega
            (arith, holds.within j, ap length joined, length-append (rows_of nodes) (rows_of more));
      mirrors = λ j nz.
          holds.mirrors j nz
          ∙ sym (
              ap (λ (r : List Row). row_of r (get_or ht j empty_cell).idx) joined
              ∙ get_or-append_left rows _ _ []
                  (omega (arith, holds.within j, get_or-indices ht j, nz)));
      found = λ s low high.
          ap (λ (r : List Row). probe_row r (indices ht) nc (row_of r s)) joined
          ∙ ap (probe_row (rows_of nodes ++ rows_of more) (indices ht) nc)
              (get_or-append_left rows (rows_of more) (s - 1) [] (omega arith))
          ∙ probe_append rows (rows_of more) (indices ht) nc _ holds.within
          ∙ holds.found s low high;
    }

put_run :
    (ht : List Cell) (nc : ℕ) (node : Node) (i e : ℕ)
    → walk (is_empty (indices ht)) nc nc (home nc (row node)) ≡ some e
    → ht_put ht nc node i ≡ some (set ht e (cell_of i node))
unfolding ht_put
put_run ht nc node i e walked =
    let ends : walk (λ j. (get_or ht j empty_cell).idx == 0) nc nc
          (bit_and (term_hash node.head node.tail) (nc - 1))
        ≡ some e =
      ap (λ (stop : ℕ → Bool). walk stop nc nc (bit_and (term_hash node.head node.tail) (nc - 1)))
        (empties ht)
      ∙ ap (walk (is_empty (indices ht)) nc nc) (home_pair nc node.head node.tail)
      ∙ walked in
    rw (ends, ht_put)

-- The nodes from number `i` on are put into the table.
ht_refill_lem :
    (nodes rest : List Node) (i nc : ℕ) (ht : List Cell)
    → IsDistinct (rows_of nodes)
    → ((k : ℕ) → k < length rest → get_or nodes (i + k) nil_node ≡ get_or rest k nil_node)
    → i + length rest ≡ length nodes
    → length nodes < nc
    → Holds nodes i ht nc
    → (ht' : List Cell) × (ht_refill rest nc i ht ≡ some ht') × Holds nodes (length nodes) ht' nc
unfolding ht_refill
ht_refill_lem nodes [] i nc ht distinct same total room holds =
    (ht, refl, subst (λ n. Holds nodes n ht nc) (omega arith) holds)
ht_refill_lem nodes (node ∷ rest) i nc ht distinct same total room holds =
    let here : get_or nodes i nil_node ≡ node =
      ap (λ (t : ℕ). get_or nodes t nil_node) (omega arith) ∙ same 0 (omega arith) in
    let (e, walked, _, _, _) =
      insert_total holds.pow (omega arith) (indices ht) holds.width (omega (arith, holds.fill))
        (row node) (suc i) in
    let next =
      set-Holds nodes i ht nc e distinct holds (omega arith) (omega arith)
        (ap (λ (n : Node). walk (is_empty (indices ht)) nc nc (home nc (row n))) here ∙ walked) in
    let (ht', run, done) =
      ht_refill_lem nodes rest (i + 1) nc (set ht e (cell_of i node)) distinct
        (λ k inside.
          ap (λ (t : ℕ). get_or nodes t nil_node) (omega arith) ∙ same (suc k) (omega arith))
        (omega arith) room
        (subst (λ (j : ℕ). Holds nodes j (set ht e (cell_of i node)) nc) (omega arith)
          (subst (λ (n : Node). Holds nodes (suc i) (set ht e (cell_of i n)) nc) here next)) in
    (ht', rw (put_run ht nc node i e walked) run, done)

indices-replicate : (n : ℕ) → indices (replicate n empty_cell) ≡ replicate n 0
indices-replicate zero = refl
indices-replicate (suc n) = ap (λ r. 0 ∷ r) (indices-replicate n)

occupied-replicate : (n : ℕ) → occupied (replicate n 0) ≡ 0
occupied-replicate zero = refl
occupied-replicate (suc n) = occupied-replicate n

-- An empty table answers for the empty list alone.
pub blank_Holds :
    (nodes : List Node) (nc : ℕ) → IsPow2 nc → Holds nodes 1 (replicate nc empty_cell) nc
blank_Holds nodes nc pow = record {
  pow = pow;
  width = length-indices (replicate nc empty_cell) ∙ length-replicate nc empty_cell;
  fill = omega (arith, ap occupied (indices-replicate nc), occupied-replicate nc);
  within = λ j. omega (
    arith,
    ap (λ (h : List ℕ). get_or h j 0) (indices-replicate nc),
    get_or-replicate {A = ℕ} nc j 0,
  );
  mirrors = λ j nz. absurd (nz (ap (λ (c : Cell). c.idx) (get_or-replicate nc j empty_cell)));
  found = λ s low high. absurd (omega arith);
}

-- The two results of `ht_grow`: it fails and changes nothing, or it installs a table of twice the
-- size that answers for every node.
abbrev pub Regrows : TermStore → Option (TermStore × Ret) → Type 0
Regrows t r =
    (r ≡ some (t, err))
    ⊎ ((ht : List Cell) × (r ≡ some (record t { ht = ht; ht_cap = t.ht_cap * 2 }, ret 0))
        × Holds t.nodes (length t.nodes) ht (t.ht_cap * 2)
        × (t.ht_cap * 2 < 2 ^ 32))

pub double_pow : (cap : ℕ) → IsPow2 cap → IsPow2 (cap * 2)
double_pow cap (k, e) = (suc k, omega (arith, pow-suc 2 k))

refill_all :
    (nodes : List Node) (nc : ℕ)
    → IsDistinct (rows_of nodes)
    → 0 < length nodes
    → length nodes < nc
    → IsPow2 nc
    → (ht : List Cell) × (refill nodes nc ≡ some ht) × Holds nodes (length nodes) ht nc
unfolding refill
refill_all [] nc distinct has room pow = absurd (omega arith)
refill_all (n ∷ nodes) nc distinct has room pow =
    ht_refill_lem (n ∷ nodes) nodes 1 nc (replicate nc empty_cell) distinct
      (λ k inside. ap (λ (t : ℕ). get_or (n ∷ nodes) t nil_node) (one_more k)) (omega arith) room
      (blank_Holds (n ∷ nodes) nc pow)
  where
    one_more : (k : ℕ) → 1 + k ≡ suc k
    one_more k = omega arith

grow_run :
    (mem : Mem) (t : TermStore) (nc : ℕ) (ht : List Cell)
    → t.ht_cap * 2 % 2 ^ 32 ≡ nc
    → (ltb (t.ht_cap * 2 % 2 ^ 32) t.ht_cap || not (mem.calloc_ok (t.ht_cap * 2 % 2 ^ 32 * 4)))
      ≡ false
    → refill t.nodes nc ≡ some ht
    → ht_grow mem t ≡ some (record t { ht = ht; ht_cap = nc }, ret 0)
unfolding ht_grow
grow_run mem t nc ht plain granted run = rw granted (rw plain (rw run))

pub ht_grow-Regrows : (mem : Mem) (t : TermStore) → IsValid t → Regrows t (ht_grow mem t)
unfolding ht_grow
ht_grow-Regrows mem t valid =
    let nc : ℕ = t.ht_cap * 2 % 2 ^ 32 in
    elim (Bool-cases (ltb nc t.ht_cap || not (mem.calloc_ok (nc * 4)))) [
      | inl refused ↦ inl (rw refused)
      | inr granted ↦
          let fits : t.ht_cap * 2 < 2 ^ 32 = grow_fits t.ht_cap _ valid.small granted in
          let plain : nc ≡ t.ht_cap * 2 = omega arith in
          let (ht, run, holds) =
            refill_all t.nodes (t.ht_cap * 2) valid.distinct valid.has_nil
              (omega (arith, valid.room, valid.large)) (double_pow t.ht_cap valid.table.pow) in
          inr (ht, grow_run mem t (t.ht_cap * 2) ht plain granted run, holds, fits)
    ]
  where
    grow_fits :
        (c : ℕ) (b : Bool) → c < 2 ^ 32 → (ltb (c * 2 % 2 ^ 32) c || b) ≡ false → c * 2 < 2 ^ 32
    grow_fits c b small h = ground arith
