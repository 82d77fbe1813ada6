-- ===== src/Search.antt =====
-- Full-text search of zig/src/index.zig (and src/index.h) over the postings relation: sets of
-- observation ids, the collection of one set for each term, and the ranked results. Searches give
-- their results to a callback. How a set is read is an argument, `read`: from the live relation or from
-- a published snapshot. Sorting is the standard library's; both sorts are arguments.
pub mod Counts
pub mod Groups
pub mod Packed
pub mod Terms
pub mod Collect
pub mod Ranking
pub mod Meet
pub mod Ranked
pub mod Distinct
pub mod Top
pub mod Live
use datalog_dafsa.Base.{
  ℕ, zero, suc, ◌+◌, ◌*◌, ◌/◌, ◌%◌, ◌^◌, ◌-◌, Bool, true, false, not, ◌&&◌, ◌||◌, Option, none,
  some, List, [], ◌∷◌, ◌++◌, map, if◌then◌else◌, ◌==◌, leb, ltb, length, get_or, Ret, err, ret, Mem,
}
use datalog_dafsa.TupleSet.{Row, ◌>>=◌}
use datalog_dafsa.Relation.{Dafsa}
use datalog_dafsa.Relation.Reads.{EnumCb}
use datalog_dafsa.TxnWal.{Bytes}
use datalog_dafsa.Txn.{Db}
use datalog_dafsa.Access.{dl_prefix}
use datalog_dafsa.IntSet.{IntSet, int_set_add, int_set_contains, no_ints, is_seen}

-- "__postings__".
abbrev pub postings_rel_name : Bytes
postings_rel_name = 95 ∷ 95 ∷ 112 ∷ 111 ∷ 115 ∷ 116 ∷ 105 ∷ 110 ∷ 103 ∷ 115 ∷ 95 ∷ 95 ∷ []

-- `CollectCtx`: the set and whether an error occurred. `none`, here and below, is a probing loop that
-- does not end.
abbrev pub Collecting : Type 0
Collecting = Option (IntSet × Bool)

unfoldable pub collect_obs_id_cb : Mem → EnumCb Collecting
unfolding int_set_add
collect_obs_id_cb mem cols none = (true, none)
collect_obs_id_cb mem cols (some (set, failed)) = elim (int_set_add mem set (get_or cols 1 0)) [
  | none ↦ (true, none)
  | some (rc, set') ↦ elim rc [
    | err ↦ (true, some (set', true))
    | ret n ↦ (false, some (set', failed))
  ]
]

-- The enumeration of the postings of a term.
abbrev pub Reader : Type 0
Reader = ℕ → EnumCb Collecting → Collecting → Ret × Collecting

abbrev pub live : {D S : Type 0} → Dafsa D S → Db D → Reader
live lib db term cb acc = dl_prefix lib db postings_rel_name (term % 2 ^ 32 ∷ []) 1 cb acc

-- `collectTermObsIds` and `collectTermObsIdsVersion`; the inner `none` is -1.
unfoldable pub collect_term_obs_ids : Mem → Reader → ℕ → Option (Option IntSet)
unfolding collect_obs_id_cb
collect_term_obs_ids mem read term =
    let (rc, acc) = read term (collect_obs_id_cb mem) (some (no_ints, false)) in
    acc >>= λ (set, failed). elim rc [
      | err ↦ some none
      | ret n ↦ if failed then some none else some (some set)
    ]

-- The loop of `collectTermSets`, which allocates 48 bytes for a set.
unfoldable pub collect_sets : Mem → Reader → List ℕ → Option (Option (List IntSet))
unfolding collect_term_obs_ids
collect_sets mem read [] = some (some [])
collect_sets mem read (term ∷ terms) =
    let later = collect_sets mem read terms in
    if not (mem.malloc_ok 48)
    then some none
    else (collect_term_obs_ids mem read term >>= λ got. elim got [
      | none ↦ some none
      | some set ↦
          later >>= λ rest. elim rest [ none ↦ some none | some sets ↦ some (some (set ∷ sets)) ]
    ])

unfoldable pub collect_term_sets : Mem → Reader → List ℕ → Option (Option (List IntSet))
unfolding collect_sets
collect_term_sets mem read terms =
    if mem.calloc_ok (length terms * 8) then collect_sets mem read terms else some none

unfoldable pub all_empty : List IntSet → Bool
all_empty [] = true
all_empty (s ∷ sets) = (length s.items == 0) && all_empty sets

-- The search for the smallest set: its index, from index `i` on.
unfoldable pub smallest_from : List IntSet → ℕ → ℕ → ℕ → ℕ
smallest_from [] i idx count = idx
smallest_from (s ∷ sets) i idx count =
    let hit = smallest_from sets (i + 1) i (length s.items) in
    let miss = smallest_from sets (i + 1) idx count in
    if ltb (length s.items) count then hit else miss

-- Whether all sets but the one with index `skip` contain `obs_id`.
unfoldable pub in_all : List IntSet → ℕ → ℕ → ℕ → Option Bool
unfolding int_set_contains
in_all [] i skip obs_id = some true
in_all (s ∷ sets) i skip obs_id =
    let later = in_all sets (i + 1) skip obs_id in
    if i == skip
    then later
    else (int_set_contains s obs_id >>= λ found. if found then later else some false)

-- The loop over the smallest set; the inner `none` is a failed insertion.
unfoldable pub intersect_loop : Mem → List IntSet → ℕ → List ℕ → IntSet → Option (Option IntSet)
unfolding in_all int_set_add
intersect_loop mem sets skip [] result = some (some result)
intersect_loop mem sets skip (obs_id ∷ rest) result = in_all sets 0 skip obs_id >>= λ found.
    if found
    then (int_set_add mem result obs_id >>= λ (rc, result'). elim rc [
      | err ↦ some none
      | ret n ↦ intersect_loop mem sets skip rest result'
    ])
    else intersect_loop mem sets skip rest result

unfoldable pub int_set_intersect : Mem → List IntSet → Option (Option IntSet)
unfolding intersect_loop smallest_from
int_set_intersect mem [] = some none
int_set_intersect mem (s ∷ []) = if mem.malloc_ok 48 then some (some s) else some none
int_set_intersect mem (s ∷ t ∷ sets) =
    let skip = smallest_from (t ∷ sets) 1 0 (length s.items) in
    if mem.malloc_ok 48
    then intersect_loop mem (s ∷ t ∷ sets) skip (get_or (s ∷ t ∷ sets) skip no_ints).items no_ints
    else some none

pub record ScoredResult : Type 0 where
  pub obs_id : ℕ
  pub score : ℕ

-- `scoredResultLt`, which `rankedResultLt` repeats.
unfoldable pub scored_result_lt : ScoredResult → ScoredResult → Bool
scored_result_lt a b = if a.score == b.score then ltb a.obs_id b.obs_id else ltb b.score a.score

-- A callback of a search: whether it stops, and its state afterwards.
abbrev pub SearchCb : Type 0 → Type 0
SearchCb A = ℕ → ℕ → A → Bool × A

-- The emission: results are counted before the callback sees them.
unfoldable pub emit : {A : Type 0} → SearchCb A → List ScoredResult → ℕ → A → ℕ × A
emit cb [] emitted acc = (emitted, acc)
emit cb (r ∷ results) emitted acc =
    let (stop, acc') = cb r.obs_id r.score acc in
    let later = emit cb results (emitted + 1) acc' in if stop then (emitted + 1, acc') else later

-- The ranks of terms: equal terms share one.
unfoldable pub rank_of_seen : List (ℕ × ℕ) → ℕ → ℕ → ℕ
rank_of_seen [] term n_ranks = n_ranks
rank_of_seen ((t, r) ∷ seen) term n_ranks =
    let later = rank_of_seen seen term n_ranks in if t == term then r else later

unfoldable pub rank_terms : List (ℕ × ℕ) → ℕ → List ℕ → List ℕ
unfolding rank_of_seen
rank_terms seen n_ranks [] = []
rank_terms seen n_ranks (term ∷ terms) =
    let r = rank_of_seen seen term n_ranks in
    let next = if r == n_ranks then n_ranks + 1 else n_ranks in
    r ∷ rank_terms (seen ++ (term, r) ∷ []) next terms

-- `(obs_id << 32) | rank`, of 32-bit numbers.
abbrev pub pack : ℕ → ℕ → ℕ
pack rank obs_id = obs_id * 2 ^ 32 + rank

unfoldable pub pack_sets : List IntSet → List ℕ → List ℕ
pack_sets [] ranks = []
pack_sets (s ∷ sets) [] = []
pack_sets (s ∷ sets) (rank ∷ ranks) = map (pack rank) s.items ++ pack_sets sets ranks

-- The inner loop over the packed postings of one document: the count, and the postings after them.
unfoldable pub count_group : ℕ → ℕ → ℕ → List ℕ → ℕ × List ℕ
count_group obs_id prev matched [] = (matched, [])
count_group obs_id prev matched (p ∷ pk) =
    let same = count_group obs_id prev matched pk in
    let next = count_group obs_id (p % 2 ^ 32) (matched + 1) pk in
    if p / 2 ^ 32 % 2 ^ 32 == obs_id
    then (if p % 2 ^ 32 == prev then same else next)
    else (matched, p ∷ pk)

-- The outer loop, on fuel for the postings.
unfoldable pub group_results : ℕ → ℕ → List ℕ → Option (List ScoredResult)
unfolding count_group
group_results zero min_terms pk = none
group_results (suc fuel) min_terms [] = some []
group_results (suc fuel) min_terms (p ∷ pk) =
    let obs_id = p / 2 ^ 32 % 2 ^ 32 in
    let (matched, rest) = count_group obs_id (2 ^ 64 - 1) 0 (p ∷ pk) in
    group_results fuel min_terms rest >>= λ results. some (
      if leb min_terms matched
      then record { obs_id = obs_id; score = matched } ∷ results
      else results)

-- The distinct terms of a query, in the order of their first places.
unfoldable pub dedupe : List ℕ → List ℕ → List ℕ
unfolding is_seen
dedupe uniq [] = uniq
dedupe uniq (term ∷ terms) = dedupe (if is_seen uniq term then uniq else uniq ++ term ∷ []) terms

-- The bytes of the results are 8 for each.
module _ (sort_u64 : List ℕ → List ℕ) (sort_results : List ScoredResult → List ScoredResult) where
  -- `searchImpl` once the sets are collected.
  unfoldable pub search_sets :
      {A : Type 0} → Mem → List IntSet → ℕ → SearchCb A → A → Option (Ret × A)
  unfolding int_set_intersect emit all_empty
  search_sets mem sets n cb acc =
      if all_empty sets
      then some (ret 0, acc)
      else (int_set_intersect mem sets >>= λ got. elim got [
        | none ↦ some (err, acc)
        | some both ↦
            let results = map (λ o. record { obs_id = o; score = n }) both.items in
            let (emitted, acc') = emit cb (sort_results results) 0 acc in
            if length both.items == 0
            then some (ret 0, acc)
            else if mem.malloc_ok (length both.items * 8)
            then some (ret emitted, acc')
            else some (err, acc)
      ])

  unfoldable pub search_impl :
      {A : Type 0} → Mem → Reader → List ℕ → SearchCb A → A → Option (Ret × A)
  unfolding collect_term_sets search_sets
  search_impl mem read terms cb acc = collect_term_sets mem read terms >>= λ got. elim got [
    | none ↦ some (err, acc)
    | some sets ↦ search_sets mem sets (length terms) cb acc
  ]

  -- `searchRankedImpl` once the sets are collected.
  unfoldable pub rank_sets :
      {A : Type 0} → Mem → List IntSet → List ℕ → ℕ → SearchCb A → A → Option (Ret × A)
  unfolding rank_terms pack_sets group_results emit
  rank_sets mem sets terms min_terms cb acc =
      let pk = pack_sets sets (rank_terms [] 0 terms) in
      let total = length pk in
      if not (mem.malloc_ok (length terms * 4))
      then some (err, acc)
      else if total == 0
      then some (ret 0, acc)
      else if mem.malloc_ok (total * 8)
      then (group_results (suc total) min_terms (sort_u64 pk) >>= λ results.
          let (emitted, acc') = emit cb (sort_results results) 0 acc in some (ret emitted, acc'))
      else some (err, acc)

  unfoldable pub search_ranked_impl :
      {A : Type 0} → Mem → Reader → List ℕ → ℕ → SearchCb A → A → Option (Ret × A)
  unfolding collect_term_sets rank_sets
  search_ranked_impl mem read terms min_terms cb acc = collect_term_sets mem read terms >>= λ got.
      elim got [ none ↦ some (err, acc) | some sets ↦ rank_sets mem sets terms min_terms cb acc ]

  unfoldable pub dl_search :
      {A : Type 0} → Mem → Reader → List ℕ → SearchCb A → A → Option (Ret × A)
  unfolding search_impl
  dl_search mem read terms cb acc =
      if length terms == 0 then some (err, acc) else search_impl mem read terms cb acc

  unfoldable pub dl_search_ranked :
      {A : Type 0} → Mem → Reader → List ℕ → ℕ → SearchCb A → A → Option (Ret × A)
  unfolding dedupe search_impl search_ranked_impl
  dl_search_ranked mem read terms min_terms cb acc =
      let uniq = dedupe [] terms in
      if (length terms == 0) || ((min_terms == 0) || ltb (length terms) min_terms)
      then some (err, acc)
      else if not (mem.malloc_ok (length terms * 4))
      then some (err, acc)
      else if ltb (length uniq) min_terms
      then some (err, acc)
      else if min_terms == length uniq
      then search_impl mem read uniq cb acc
      else search_ranked_impl mem read uniq min_terms cb acc
