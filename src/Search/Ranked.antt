-- ===== src/Search/Ranked.antt =====
-- The searches of zig/src/index.zig (and src/index.h) from the query to the callback.
use datalog_dafsa.Base.{
  ℕ, ◌*◌, ◌^◌, ◌≤◌, ◌<◌, ◌≡◌, refl, sym, ◌∙◌, subst, fun_ext, true, false, Option, List, [], ◌∷◌,
  map, ◌==◌, leb, ltb, length, Ret, Mem, arith, All, inl, inr, Bool-cases, ==_iff, ==_refl, ==_ne,
}
use datalog_dafsa.TupleSet.{Row}
use datalog_dafsa.IntSet.{IntSet, is_seen}
use datalog_dafsa.IntSet.Contents.{IsAmple, IsIntSet}
use datalog_dafsa.Search.{
  Reader, ScoredResult, scored_result_lt, SearchCb, emit, all_empty, search_sets, search_impl,
  search_ranked_impl, dl_search_ranked, dedupe,
}
use datalog_dafsa.Search.Counts.{count_if, count_if-map, All-map, IsSort}
use datalog_dafsa.Search.Packed.{IsCollected, sets_with, occurs_count}
use datalog_dafsa.Search.Terms.{IsUnique, dedupe-IsUnique, length-dedupe}
use datalog_dafsa.Search.Collect.{Reads, IsPostings, matched, collect_term_sets_lem}
use datalog_dafsa.Search.Ranking.{IsListing, Ranks, no-IsRanking, sort-IsRanking, rank_sets_lem}
use datalog_dafsa.Search.Meet.{int_set_intersect_lem, sets_with_le}

unseen : (items : List ℕ) (o : ℕ) → (length items == 0) ≡ true → is_seen items o ≡ false
unfolding is_seen
unseen [] o empty = refl
unseen (x ∷ items) o empty = absurd (ground (arith, empty))

empty_sets_with : (sets : List IntSet) (o : ℕ) → all_empty sets ≡ true → sets_with sets o ≡ 0
unfolding all_empty count_if is_seen
empty_sets_with [] o empty = refl
empty_sets_with (s ∷ sets) o empty =
    rw (unseen s.items o (ground (arith, empty)))
      (omega (arith, empty_sets_with sets o (ground (arith, empty))))

all_seen : (items : List ℕ) → All (λ o. is_seen items o ≡ true) items
unfolding is_seen
all_seen [] = tt
all_seen (x ∷ items) =
    (rw (==_refl x) refl, All-map (λ o h. rw h (ground arith)) items (all_seen items))

equal_scores :
    (docs : ℕ → ℕ) (n : ℕ) (items : List ℕ)
    → All (λ o. n ≡ docs o) items
    → All
        (λ (r : ScoredResult). r.score ≡ docs r.obs_id)
        (map (λ o. record { obs_id = o; score = n }) items)
equal_scores docs n [] h = tt
equal_scores docs n (x ∷ items) (here, h) = (here, equal_scores docs n items h)

-- The ids of an intersection, with the number of sets as their score.
meet-IsListing :
    (sets : List IntSet) (both : IntSet) (n : ℕ)
    → n ≡ length sets
    → IsIntSet both
    → ((o : ℕ) → is_seen both.items o ≡ leb (length sets) (sets_with sets o))
    → IsListing n (sets_with sets) (map (λ o. record { obs_id = o; score = n }) both.items)
meet-IsListing sets both n same set common = record {
  listed = λ o.
      count_if-map (λ r. r.obs_id == o) (λ v. record { obs_id = v; score = n }) both.items
      ∙ occurs_count both.items o
      ∙ set.once o
      ∙ rw (common o, same) refl;
  scored = equal_scores (sets_with sets) n both.items (
      All-map (λ o h. most_stage (sets_with_le sets o) (sym (common o) ∙ h)) both.items
        (all_seen both.items));
}
  where
    most_stage : {m : ℕ} → m ≤ length sets → leb (length sets) m ≡ true → n ≡ m
    most_stage le ge = ground (arith, le, ge, same)

module _ (mem : Mem) (sort_u64 : List ℕ → List ℕ)
    (sort_results : List ScoredResult → List ScoredResult) (ample : IsAmple mem)
    (sorts : IsSort ltb sort_u64) (orders : IsSort scored_result_lt sort_results) where
  search_sets_lem :
      {A : Type 0} (cb : SearchCb A) (acc : A) (sets : List IntSet) (n : ℕ)
      → 0 < n
      → n ≡ length sets
      → All IsIntSet sets
      → Ranks (search_sets sort_u64 sort_results mem sets n cb acc) cb acc n (sets_with sets)
  unfolding search_sets emit
  search_sets_lem cb acc [] n pos same all = absurd (omega arith)
  search_sets_lem cb acc (s ∷ sets) n pos same all = elim (Bool-cases (all_empty (s ∷ sets))) [
    | inl empty ↦ (
      [],
      rw empty refl,
      no-IsRanking n (sets_with (s ∷ sets))
          (λ o. rw (empty_sets_with (s ∷ sets) o empty) (ground (arith, pos))),
    )
    | inr busy ↦
        let (both, run, set, common) = int_set_intersect_lem mem s sets ample all in
        let listing = meet-IsListing (s ∷ sets) both n same set common in
        elim (Bool-cases (length both.items == 0)) [
          | inl none ↦ (
            [],
            rw (busy, run, none) refl,
            no-IsRanking n (sets_with (s ∷ sets))
                (λ o. rw same (sym (common o) ∙ unseen both.items o none)),
          )
          | inr some_items ↦ (
            sort_results (map (λ o. record { obs_id = o; score = n }) both.items),
            rw (busy, run, some_items, ample.mallocs (length both.items * 8)) refl,
            sort-IsRanking sort_results n (sets_with (s ∷ sets)) _ orders listing,
          )
        ]
  ]

  all_keys : (sets : List IntSet) → All IsCollected sets → All IsIntSet sets
  all_keys sets all = All-map (λ s h. h.0) sets all

  -- A ranking by equal counts.
  recount :
      {A : Type 0} (run : Option (Ret × A)) (cb : SearchCb A) (acc : A) (n : ℕ) (f g : ℕ → ℕ)
      → ((o : ℕ) → f o ≡ g o)
      → Ranks run cb acc n f
      → Ranks run cb acc n g
  recount run cb acc n f g same h = subst (λ k. Ranks run cb acc n k) (fun_ext same) h

  module _ (rows : ℕ → List Row) (read : Reader) (reads : Reads rows read)
      (postings : IsPostings rows) where
    pub search_impl_lem :
        {A : Type 0} (cb : SearchCb A) (acc : A) (terms : List ℕ)
        → 0 < length terms
        → Ranks
            (search_impl sort_u64 sort_results mem read terms cb acc)
            cb
            acc
            (length terms)
            (matched rows terms)
    unfolding search_impl
    search_impl_lem cb acc terms pos =
        let (sets, run, all, same, counts) =
          collect_term_sets_lem mem ample rows read reads postings terms in
        rw run (
          recount _ cb acc (length terms) (sets_with sets) (matched rows terms) counts
            (search_sets_lem cb acc sets (length terms) pos (sym same) (all_keys sets all)))

    search_ranked_impl_lem :
        {A : Type 0} (cb : SearchCb A) (acc : A) (terms : List ℕ) (min_terms : ℕ)
        → 0 < min_terms
        → IsUnique terms
        → length terms ≤ 2 ^ 32
        → Ranks
            (search_ranked_impl sort_u64 sort_results mem read terms min_terms cb acc)
            cb
            acc
            min_terms
            (matched rows terms)
    unfolding search_ranked_impl
    search_ranked_impl_lem cb acc terms min_terms pos unique few =
        let (sets, run, all, same, counts) =
          collect_term_sets_lem mem ample rows read reads postings terms in
        rw run (
          recount _ cb acc min_terms (sets_with sets) (matched rows terms) counts (
            rank_sets_lem mem sort_u64 sort_results ample sorts orders cb acc sets terms min_terms
              pos all unique few (sym same)))

    pub ranked_stage :
        {A : Type 0} (cb : SearchCb A) (acc : A) (terms : List ℕ) (min_terms : ℕ)
        → 0 < min_terms
        → min_terms ≤ length (dedupe [] terms)
        → length terms ≤ 2 ^ 32
        → Ranks
            (dl_search_ranked sort_u64 sort_results mem read terms min_terms cb acc)
            cb
            acc
            min_terms
            (matched rows (dedupe [] terms))
    unfolding dl_search_ranked
    ranked_stage cb acc terms min_terms pos le few =
        let uniq = dedupe [] terms in
        let fewer = length-dedupe terms in
        let wide : ltb (length terms) min_terms ≡ false = ground (arith, le, fewer) in
        let enough : ltb (length uniq) min_terms ≡ false = ground (arith, le) in
        rw
          (
            ==_ne (length terms) 0 (omega (arith, pos, le, fewer)),
            ==_ne min_terms 0 (omega (arith, pos)),
            wide,
            ample.mallocs (length terms * 4),
            enough,
          )
          (elim (Bool-cases (min_terms == length uniq)) [
            | inl every ↦
                let all : min_terms ≡ length uniq = (==_iff min_terms (length uniq)).0 every in
                rw (every, all) (search_impl_lem cb acc uniq (omega (arith, pos, le)))
            | inr partly ↦ rw partly (
                search_ranked_impl_lem cb acc uniq min_terms pos (dedupe-IsUnique terms)
                  (omega (arith, fewer, few)))
          ])
