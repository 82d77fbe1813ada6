-- ===== src/Examples/Sets.antt =====
-- Runs of the tuple set, and its theorems on them.
use datalog_dafsa.Base.{
  ℕ, zero, suc, ◌≤◌, ◌<◌, ◌≡◌, refl, subst, ◌⊎◌, inl, true, false, some, List, [], ◌∷◌, arith,
  length, get_or, set, replicate, words_eq, Ret, ret, Mem,
}
use datalog_dafsa.Probe.{walk}
use datalog_dafsa.IntSet.Contents.{IsAmple}
use datalog_dafsa.TupleSet.{
  Row, TupleSet, fnv_byte, fnv_word, hash_from, ts_hash_cols, home, names_row, probe_row,
  ts_hash_find, ts_hash_insert, rehash, grow_cap, ts_hash_grow, ts_init, ts_contains, grow_rows,
  table_need, is_loaded, add_slot, add_row, ts_add, cmp_cols, matches, is_less, lower_bound,
  walk_back, walk_forward, ts_prefix, row_less,
}
use datalog_dafsa.TupleSet.Contains.{IsIn, IsValid, ts_contains_lem}
use datalog_dafsa.TupleSet.Add.{Adds, ts_add-IsValid}
use datalog_dafsa.TupleSet.Prefix.{IsSorted, Matches, ts_prefix-Matches}

-- Memory that grants every request.
abbrev pub generous : Mem
generous = record { malloc_ok = λ n. true; calloc_ok = λ n. true; realloc_ok = λ n. true }

pub generous-IsAmple : IsAmple generous
generous-IsAmple = record { mallocs = λ n. refl; callocs = λ n. refl; reallocs = λ n. refl }

abbrev blank : TupleSet
blank = record { rows = []; cap = 0; arity = 2; htab = []; hcap = 0; hused = 0 }

init_blank : ts_init 2 ≡ some blank
unfolding ts_init
init_blank = refl

blank-IsValid : IsValid blank
blank-IsValid = record {
  distinct = λ i j inside _ _. absurd (omega arith);
  table = inl (record { no_cap = refl; no_cells = refl; no_rows = refl });
  held = omega arith;
  small = omega arith;
}

abbrev edge : Row
edge = 3 ∷ 1 ∷ []

-- `ts_add` on an empty set: the row is new, and the first table has 16 cells.
ts_add-IsValid_example :
    (ts' : TupleSet) × (code : Ret) × (ts_add generous blank edge ≡ some (ts', code))
    × IsValid ts'
    × Adds blank edge ts' code
ts_add-IsValid_example = ts_add-IsValid generous blank edge blank-IsValid

abbrev one_edge : TupleSet
one_edge = record {
  rows = edge ∷ [];
  cap = 1024;
  arity = 2;
  htab = set (replicate 16 0) 7 1;
  hcap = 16;
  hused = 1;
}

add_edge : ts_add generous blank edge ≡ some (one_edge, ret 1)
unfolding ts_add ts_hash_find grow_rows add_row ts_hash_grow grow_cap rehash add_slot ts_hash_insert
    walk home ts_hash_cols hash_from fnv_word fnv_byte table_need is_loaded
add_edge = refl

one_edge-IsValid : IsValid one_edge
one_edge-IsValid =
    let (ts', code, run, valid, _) = ts_add-IsValid generous blank edge blank-IsValid in
    same_run ts' code run valid
  where
    same_run :
        (ts : TupleSet) (code : Ret)
        → ts_add generous blank edge ≡ some (ts, code)
        → IsValid ts
        → IsValid one_edge
    same_run ts code run valid = subst IsValid (cc (run, add_edge)) valid

-- The row that was added is found.
ts_contains_lem_example :
    ((ts_contains one_edge edge ≡ some (ret 1)) × IsIn edge one_edge.rows)
    ⊎ ((ts_contains one_edge edge ≡ some (ret 0)) × ¬ IsIn edge one_edge.rows)
ts_contains_lem_example = ts_contains_lem one_edge edge one_edge-IsValid

contains_edge : ts_contains one_edge edge ≡ some (ret 1)
unfolding ts_contains ts_hash_find probe_row names_row words_eq walk home ts_hash_cols hash_from
    fnv_word fnv_byte
contains_edge = refl

contains_other : ts_contains one_edge (3 ∷ 2 ∷ []) ≡ some (ret 0)
unfolding ts_contains ts_hash_find probe_row names_row words_eq walk home ts_hash_cols hash_from
    fnv_word fnv_byte
contains_other = refl

abbrev sorted_rows : List Row
sorted_rows = (1 ∷ 2 ∷ []) ∷ (1 ∷ 5 ∷ []) ∷ (3 ∷ 0 ∷ []) ∷ []

abbrev sorted_set : TupleSet
sorted_set = record { rows = sorted_rows; cap = 1024; arity = 2; htab = []; hcap = 0; hused = 0 }

sorted_rows-IsSorted : IsSorted 2 sorted_rows
unfolding row_less
sorted_rows-IsSorted = record { wide = wide; ordered = ordered }
  where
    wide : (i : ℕ) → i < 3 → length (get_or sorted_rows i []) ≡ 2
    wide zero h = refl
    wide (suc zero) h = refl
    wide (suc (suc zero)) h = refl
    wide (suc (suc (suc i))) h = absurd (omega arith)

    ordered :
        (i j : ℕ)
        → i ≤ j
        → j < 3
        → row_less 2 (get_or sorted_rows j []) (get_or sorted_rows i []) ≡ false
    ordered zero zero h b = refl
    ordered zero (suc zero) h b = refl
    ordered zero (suc (suc zero)) h b = refl
    ordered (suc zero) zero h b = absurd (omega arith)
    ordered (suc zero) (suc zero) h b = refl
    ordered (suc zero) (suc (suc zero)) h b = refl
    ordered (suc (suc zero)) zero h b = absurd (omega arith)
    ordered (suc (suc zero)) (suc zero) h b = absurd (omega arith)
    ordered (suc (suc zero)) (suc (suc zero)) h b = refl
    ordered (suc (suc (suc i))) j h b = absurd (omega arith)
    ordered i (suc (suc (suc j))) h b = absurd (omega arith)

ts_prefix-Matches_example :
    (n : ℕ) × (first : ℕ) × (ts_prefix sorted_set (1 ∷ []) 1 ≡ some (n, first))
    × Matches sorted_rows (1 ∷ []) 1 n first
ts_prefix-Matches_example =
    ts_prefix-Matches sorted_set (1 ∷ []) 1 sorted_rows-IsSorted (omega arith) (omega arith)

prefix_ones : ts_prefix sorted_set (1 ∷ []) 1 ≡ some (2, 0)
unfolding ts_prefix lower_bound cmp_cols is_less walk_back walk_forward matches
prefix_ones = refl

prefix_twos : ts_prefix sorted_set (2 ∷ []) 1 ≡ some (0, 0)
unfolding ts_prefix lower_bound cmp_cols is_less walk_back walk_forward matches
prefix_twos = refl
