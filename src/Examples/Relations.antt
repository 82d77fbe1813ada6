-- ===== src/Examples/Relations.antt =====
-- The theorems on relations at concrete inputs, with sorted lists of keys in the place of the DAFSA.
use datalog_dafsa.Base.{
  ret, ◌<◌, ◌≡◌, refl, true, false, none, some, List, [], ◌∷◌, arith, if◌then◌else◌, ◌==◌,
}
use datalog_dafsa.TupleSet.{Row}
use datalog_dafsa.Relation.{
  Relation, encode_key, read_cols_be, rel_add_base, rel_reset_view, base_of,
}
use datalog_dafsa.Relation.Laws.{key_less}
use datalog_dafsa.Relation.Keys.{IsRow, read-encode_key}
use datalog_dafsa.Relation.Facts.{BaseAdded, rel_add_base_lem}
use datalog_dafsa.Relation.Views.{IsReset, HasKeys, rel_reset_view_lem}
use datalog_dafsa.Vrelation.{
  Vrelation, variadic, fixed, entry_at, db_entry_variant_ro, db_entry_variant_rw,
}
use datalog_dafsa.Vrelation.Routes.{db_entry_variant_ro-db_entry_variant_rw}
use datalog_dafsa.Permindex.{
  PermIndexEntry, dl_db_declare_perm, dl_rank_perm, dl_select_perm, check_perm, forward, inverse,
  perm_of,
}
use datalog_dafsa.Permindex.Maps.{forward-inverse}
use datalog_dafsa.Permindex.Declare.{IsDeclared, dl_db_declare_perm_lem}
use datalog_dafsa.Permindex.Stats.{IsReady, dl_rank_perm-dl_select_perm}
use datalog_dafsa.Relation.Reads.{enum_rows, keep_row, rel_prefix, rel_count_subtree}
use datalog_dafsa.Relation.Order.{view_rows}
use datalog_dafsa.Relation.Prefix.{rows_under, rel_prefix_lem}
use datalog_dafsa.Examples.SortedKeys.{Sorted, sorted_keys, sorted_keys-IsDafsa}

abbrev pub low : Row
low = 1 ∷ 256 ∷ []

abbrev pub high : Row
high = 2 ∷ 3 ∷ []

low-IsRow : IsRow 2 low
low-IsRow = (refl, (omega arith, (omega arith, tt)))

high-IsRow : IsRow 2 high
high-IsRow = (refl, (omega arith, (omega arith, tt)))

pub low-before-high : key_less (encode_key low 2) (encode_key high 2) ≡ true
unfolding key_less encode_key
low-before-high = refl

abbrev pub both : Sorted
both = (encode_key low 2 ∷ encode_key high 2 ∷ [], ((low-before-high, tt), (tt, tt)))

-- A split relation with a base fact, and a view of two rows.
abbrev pub edge : Relation Sorted
edge = record {
  arity = 2;
  d = both;
  base = some (encode_key low 2 ∷ [], (tt, tt));
  ov = [];
  dirty = false;
  rev = 0;
}

pub edge-HasKeys : HasKeys sorted_keys 2 both
edge-HasKeys = ((low, low-IsRow, refl), ((high, high-IsRow, refl), tt))

base-HasKeys : HasKeys sorted_keys 2 (encode_key low 2 ∷ [], (tt, tt))
base-HasKeys = ((low, low-IsRow, refl), tt)

read-encode_key_example : read_cols_be 2 (encode_key low 2) ≡ low
read-encode_key_example = read-encode_key 2 low low-IsRow

rel_add_base_lem_example :
    let (rc, r') = rel_add_base sorted_keys edge high in
    BaseAdded sorted_keys-IsDafsa edge high high rc r'
rel_add_base_lem_example = rel_add_base_lem sorted_keys-IsDafsa edge high high high-IsRow high-IsRow

rel_reset_view_lem_example :
    let (rc, r') = rel_reset_view sorted_keys 5 edge in IsReset sorted_keys-IsDafsa edge high rc r'
unfolding base_of
rel_reset_view_lem_example =
    rel_reset_view_lem sorted_keys-IsDafsa 5 edge high base-HasKeys (omega arith)

-- A variadic relation whose only variant is that of arity 2.
abbrev pairs_only : Vrelation Sorted
pairs_only = record { variants = none ∷ some edge ∷ none ∷ none ∷ none ∷ none ∷ none ∷ none ∷ [] }

db_entry_variant_ro-db_entry_variant_rw_example :
    let (o, e') = db_entry_variant_rw sorted_keys (variadic [] pairs_only) 1 in
    db_entry_variant_ro e' 1
    ≡ (if 1 == 1 then o else db_entry_variant_ro (variadic [] pairs_only) 1)
db_entry_variant_ro-db_entry_variant_rw_example =
    db_entry_variant_ro-db_entry_variant_rw sorted_keys (variadic [] pairs_only) 1 1 refl

-- The index of the swapped columns, as if `edge` were the permuted relation.
abbrev swap : PermIndexEntry Sorted
swap = record { rel_id = 0; arity = 2; perm = 1 ∷ 0 ∷ []; pidx_rel = some edge; dirty = false }

abbrev no_sort : List Row → List Row
no_sort rows = rows

swap-IsReady : IsReady (fixed [] 2 edge ∷ []) (swap ∷ []) 0 0 2 swap edge
unfolding perm_of entry_at
swap-IsReady = record {
  name = [];
  rel = edge;
  found = refl;
  fixed_rel = refl;
  width = refl;
  built = refl;
  clean = refl;
}

swap-check_perm : check_perm 2 2 (1 ∷ 0 ∷ []) [] ≡ true
unfolding check_perm
swap-check_perm = refl

edge-rel_count_subtree : 1 < rel_count_subtree sorted_keys true edge
unfolding rel_count_subtree
edge-rel_count_subtree = omega arith

dl_rank_perm-dl_select_perm_example :
    (cols : Row) × ((dl_select_perm sorted_keys no_sort
        (fixed [] 2 edge ∷ [])
        (swap ∷ [])
        0
        0
        1
        low
        2).0
      ≡ some cols)
    × ((dl_rank_perm sorted_keys no_sort (fixed [] 2 edge ∷ []) (swap ∷ []) 0 0 cols 2).0 ≡ 1)
dl_rank_perm-dl_select_perm_example =
    dl_rank_perm-dl_select_perm sorted_keys-IsDafsa no_sort (fixed [] 2 edge ∷ []) (swap ∷ []) 0 0
      swap edge 1 low swap-IsReady swap-check_perm refl edge-HasKeys edge-rel_count_subtree refl

forward-inverse_example : forward 2 (1 ∷ 0 ∷ []) (inverse 2 (1 ∷ 0 ∷ []) high low) ≡ high
forward-inverse_example = forward-inverse 2 2 (1 ∷ 0 ∷ []) [] high low swap-check_perm refl refl

dl_db_declare_perm_lem_example :
    let (rc, perms') = dl_db_declare_perm (swap ∷ []) 0 2 (0 ∷ 1 ∷ []) in
    IsDeclared (swap ∷ []) 0 2 (0 ∷ 1 ∷ []) rc perms'
dl_db_declare_perm_lem_example = dl_db_declare_perm_lem (swap ∷ []) 0 2 (0 ∷ 1 ∷ [])

-- The rows of the view that begin with 1.
rel_prefix_lem_example :
    let (n, rows) = enum_rows keep_row (rows_under 1 (1 ∷ []) (view_rows sorted_keys edge)) 0 [] in
    rel_prefix sorted_keys edge (1 ∷ []) 1 keep_row [] ≡ (ret n, rows)
rel_prefix_lem_example =
    rel_prefix_lem sorted_keys-IsDafsa edge (1 ∷ []) 1 keep_row [] refl edge-HasKeys (omega arith)
      (refl, (omega arith, tt))
