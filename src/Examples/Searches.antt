-- ===== src/Examples/Searches.antt =====
-- Full-text searches at concrete inputs.
use datalog_dafsa.Base.{
  ℕ, ◌≡◌, refl, false, none, some, List, [], ◌∷◌, ◌++◌, if◌then◌else◌, ◌==◌, ltb, length, Ret, ret,
  arith, inl, inr, Bool-cases, replicate,
}
use datalog_dafsa.TupleSet.{Row}
use datalog_dafsa.TxnWal.{Bytes}
use datalog_dafsa.Relation.Reads.{enum_rows, keep_row}
use datalog_dafsa.Relation.Order.{view_rows}
use datalog_dafsa.KeySet.Rehash.{fresh-IsTable, occupied-replicate}
use datalog_dafsa.SymSet.{SymSet, symset_hash, symset_init_cap, symset_add}
use datalog_dafsa.SymSet.Contents.{IsValid, SymAdded, symset_add_lem}
use datalog_dafsa.SymSet.Filter.{rel_filter_col, rows_with, rel_filter_col_lem}
use datalog_dafsa.Tokenizer.{tokenize, is_alnum_ascii, to_lower_ascii}
use datalog_dafsa.Tokenizer.Split.{runs_of, tokenize_lem}
use datalog_dafsa.Search.{Reader, SearchCb, ScoredResult, scored_result_lt, dl_search_ranked}
use datalog_dafsa.Examples.Sorts.{sort_by, numbers-IsSort, results-IsSort}
use datalog_dafsa.Search.Collect.{Reads, IsPostings}
use datalog_dafsa.Search.Distinct.{IsDistinct, Answers, dl_search_ranked_lem}
use datalog_dafsa.Txn.{Db, find_rel}
use datalog_dafsa.Vrelation.{fixed, entry_at}
use datalog_dafsa.Access.{entry_named}
use datalog_dafsa.Relation.Order.{view_rows}
use datalog_dafsa.Search.{live, postings_rel_name}
use datalog_dafsa.Search.Live.{postings_of, dl_search_ranked-live}
use datalog_dafsa.Examples.SortedKeys.{Sorted, sorted_keys-IsDafsa}
use datalog_dafsa.Examples.Relations.{edge-HasKeys}
use datalog_dafsa.Base.{words_eq}
use datalog_dafsa.Examples.Sets.{generous, generous-IsAmple}
use datalog_dafsa.Examples.SortedKeys.{sorted_keys}
use datalog_dafsa.Examples.Relations.{edge}

-- Two terms: the first has postings for 10 and 20, any other one for 20.
abbrev postings : ℕ → List Row
postings term = if term == 1 then (1 ∷ 10 ∷ []) ∷ (1 ∷ 20 ∷ []) ∷ [] else (term ∷ 20 ∷ []) ∷ []

abbrev reader : Reader
reader term cb acc =
    (ret (enum_rows cb (postings term) 0 acc).0, (enum_rows cb (postings term) 0 acc).1)

reader-Reads : Reads postings reader
reader-Reads term cb acc = refl

postings-IsPostings : IsPostings postings
postings-IsPostings term = elim (Bool-cases (term == 1)) [
  | inl first ↦ rw first (omega arith, (omega arith, tt))
  | inr other ↦ rw other (omega arith, tt)
]

abbrev keep_id : SearchCb (List ℕ)
keep_id obs_id score acc = (false, acc ++ obs_id ∷ [])

abbrev numbers : List ℕ → List ℕ
numbers = sort_by ltb

abbrev ranked : List ScoredResult → List ScoredResult
ranked = sort_by scored_result_lt

-- A query that names its first term twice.
abbrev query : List ℕ
query = 1 ∷ 2 ∷ 1 ∷ []

dl_search_ranked_lem_example :
    (us : List ℕ) × IsDistinct query us
    × Answers
        (dl_search_ranked numbers ranked generous reader query 1 keep_id [])
        keep_id
        []
        postings
        1
        us
dl_search_ranked_lem_example =
    dl_search_ranked_lem generous numbers ranked generous-IsAmple numbers-IsSort results-IsSort
      postings reader keep_id [] query 1 reader-Reads postings-IsPostings (omega arith)

-- A database whose relation of postings is `edge`: the rows (1, 256) and (2, 3).
abbrev posted : Db Sorted
posted = record {
  rels = fixed postings_rel_name 2 edge ∷ [];
  read_only = false;
  txn = none;
  fixpoint_dirty = false;
  wal = [];
}

posted_entry : entry_named posted postings_rel_name ≡ some (fixed postings_rel_name 2 edge)
unfolding entry_named find_rel entry_at words_eq
posted_entry = refl

dl_search_ranked-live_example :
    (us : List ℕ) × IsDistinct query us
    × Answers
        (dl_search_ranked numbers ranked generous (live sorted_keys posted) query 1 keep_id [])
        keep_id
        []
        (postings_of (view_rows sorted_keys edge))
        1
        us
dl_search_ranked-live_example =
    dl_search_ranked-live sorted_keys sorted_keys-IsDafsa posted postings_rel_name 2 edge
      posted_entry refl refl edge-HasKeys generous numbers ranked generous-IsAmple numbers-IsSort
      results-IsSort keep_id [] query 1 (omega arith)

-- "Ab1 c".
abbrev phrase : Bytes
phrase = 65 ∷ 98 ∷ 49 ∷ 32 ∷ 99 ∷ []

tokenize_lem_example :
    tokenize generous phrase
    ≡ some (if length (runs_of [] phrase) == 0 then none else some (runs_of [] phrase))
tokenize_lem_example = tokenize_lem generous phrase generous-IsAmple

phrase_words : runs_of [] phrase ≡ (97 ∷ 98 ∷ 49 ∷ []) ∷ (99 ∷ []) ∷ []
unfolding runs_of is_alnum_ascii to_lower_ascii
phrase_words = refl

-- The set of `symset_init`.
abbrev fresh : SymSet
fresh = record { keys = some (replicate symset_init_cap 0); cap = symset_init_cap; used = 0 }

fresh-IsValid : IsValid fresh
fresh-IsValid = record {
  cells = replicate symset_init_cap 0;
  keys = refl;
  table = fresh-IsTable symset_hash symset_init_cap (6, refl);
  wide = omega arith;
  fill = omega (arith, occupied-replicate symset_init_cap);
  room = omega arith;
}

symset_add_lem_example :
    (rc : Ret) × (s' : SymSet) × (symset_add generous fresh 1 ≡ some (rc, s'))
    × IsValid s'
    × SymAdded fresh 1 1 rc s'
symset_add_lem_example = symset_add_lem generous fresh 1 1 fresh-IsValid

-- The set after the addition of 1.
abbrev with_one : SymSet
with_one = (symset_add_lem generous fresh 1 1 fresh-IsValid).1

with_one-IsValid : IsValid with_one
with_one-IsValid = (symset_add_lem generous fresh 1 1 fresh-IsValid).3

rel_filter_col_lem_example :
    let (n, rows) = enum_rows keep_row (rows_with with_one 0 (view_rows sorted_keys edge)) 0 [] in
    rel_filter_col sorted_keys edge 0 with_one keep_row [] ≡ some (ret n, rows)
rel_filter_col_lem_example =
    rel_filter_col_lem sorted_keys edge 0 with_one keep_row [] with_one-IsValid refl (omega arith)
