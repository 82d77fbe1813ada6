-- ===== src/Search/Live.antt =====
-- The searches of zig/src/index.zig over the live relation of postings, which `dl_prefix` reads.
use datalog_dafsa.Base.{
  ℕ, ◌%◌, ◌^◌, ◌≤◌, ◌<◌, ◌≡◌, refl, sym, some, List, [], ◌∷◌, map, length, get_or, ltb, Mem, All,
  inl, inr, subst, Bool-cases, arith,
}
use datalog_dafsa.TupleSet.{Row}
use datalog_dafsa.TxnWal.{Bytes}
use datalog_dafsa.Txn.{Db}
use datalog_dafsa.Relation.{Dafsa, Relation, Key, words, read_cols_be}
use datalog_dafsa.Relation.Laws.{IsDafsa}
use datalog_dafsa.Relation.Keys.{IsRow, read-encode_key}
use datalog_dafsa.Relation.Views.{IsKey, HasKeys}
use datalog_dafsa.Relation.Reads.{leads}
use datalog_dafsa.Relation.Order.{view_rows}
use datalog_dafsa.Relation.Prefix.{rows_under, rel_prefix_lem}
use datalog_dafsa.Vrelation.{fixed}
use datalog_dafsa.Access.{entry_named, dl_prefix}
use datalog_dafsa.IntSet.Contents.{IsAmple}
use datalog_dafsa.Search.{
  SearchCb, ScoredResult, scored_result_lt, live, postings_rel_name, dl_search_ranked,
}
use datalog_dafsa.Search.Collect.{Reads, IsPostings, ids}
use datalog_dafsa.Search.Counts.{IsSort}
use datalog_dafsa.Search.Distinct.{IsDistinct, Answers, dl_search_ranked_lem}

-- The postings of a term, which is a u32.
abbrev pub postings_of : List Row → ℕ → List Row
postings_of rows term = rows_under 1 (term % 2 ^ 32 ∷ []) rows

second_small : (row : Row) → IsRow 2 row → get_or row 1 0 < 2 ^ 32
second_small [] (size, small) = omega (arith, size)
second_small (x ∷ []) (size, small) = omega arith
second_small (x ∷ y ∷ row) (size, (first, (second, small))) = second

under_small :
    (term : ℕ) (ws : List Key)
    → All (IsKey 2) ws
    → All (λ v. v < 2 ^ 32) (ids (postings_of (map (read_cols_be 2) ws) term))
unfolding rows_under
under_small term [] keys = tt
under_small term (w ∷ ws) ((row, is_row, key), keys) =
    let back : read_cols_be 2 w ≡ row = rw key (read-encode_key 2 row is_row) in
    let second : get_or (read_cols_be 2 w) 1 0 < 2 ^ 32 = rw back (second_small row is_row) in
    elim (Bool-cases (leads 1 (read_cols_be 2 w) (term % 2 ^ 32 ∷ []))) [
      | inl hit ↦ rw hit (second, under_small term ws keys)
      | inr miss ↦ rw miss (under_small term ws keys)
    ]

module _ {D S : Type 0} (lib : Dafsa D S) (laws : IsDafsa lib) (db : Db D) (name : Bytes) (a : ℕ)
    (r : Relation D) (declared : entry_named db postings_rel_name ≡ some (fixed name a r))
    (flushed : r.ov ≡ []) (pairs : r.arity ≡ 2) (keys : HasKeys lib r.arity r.d) where
  live-Reads : Reads (postings_of (view_rows lib r)) (live lib db)
  unfolding dl_prefix
  live-Reads term cb acc =
      rw (dl_prefix, declared)
        (rel_prefix_lem laws r (term % 2 ^ 32 ∷ []) 1 cb acc flushed keys (omega (arith, pairs))
          (refl, (omega arith, tt)))

  view-IsPostings : IsPostings (postings_of (view_rows lib r))
  view-IsPostings term =
      subst
        (λ (n : ℕ).
          All (λ v. v < 2 ^ 32) (ids (postings_of (map (read_cols_be n) (words lib r.d)) term)))
        (sym pairs)
        (under_small term (words lib r.d) (subst (λ (n : ℕ). HasKeys lib n r.d) pairs keys))

  module _ (mem : Mem) (sort_u64 : List ℕ → List ℕ)
      (sort_results : List ScoredResult → List ScoredResult) (ample : IsAmple mem)
      (sorts : IsSort ltb sort_u64) (orders : IsSort scored_result_lt sort_results) where
    -- Where memory refuses nothing, both sorts sort, the query has at most 2^32 terms, and the live
    -- relation of postings has two columns, keys of u32 rows and no pending overlay, there is a list of
    -- the terms of the query, each once. For a threshold from 1 up to its length, `dl_search_ranked` over
    -- the live relation gives the callback a list with one result for exactly the documents that stand
    -- behind at least so many of these terms in its rows, its score the number of them, the higher
    -- scores first and the smaller ids first among equal scores, until the callback stops, and returns
    -- how many it was given. For any other threshold it returns -1 and calls nothing.
    pub dl_search_ranked-live :
        {A : Type 0} (cb : SearchCb A) (acc : A) (terms : List ℕ) (min_terms : ℕ)
        → length terms ≤ 2 ^ 32
        → (us : List ℕ) × IsDistinct terms us
          × Answers
              (dl_search_ranked sort_u64 sort_results mem (live lib db) terms min_terms cb acc)
              cb
              acc
              (postings_of (view_rows lib r))
              min_terms
              us
    dl_search_ranked-live cb acc terms min_terms =
        dl_search_ranked_lem mem sort_u64 sort_results ample sorts orders
          (postings_of (view_rows lib r)) (live lib db) cb acc terms min_terms live-Reads
          view-IsPostings
