-- ===== src/Search/Ranking.antt =====
-- The results of `searchImpl` and `searchRankedImpl` of zig/src/index.zig, once the sets are collected.
use datalog_dafsa.Base.{
  ℕ, suc, ◌*◌, ◌^◌, ◌≤◌, ◌<◌, ◌≡◌, refl, sym, ap, ◌∙◌, subst, Bool, true, false, not, Option, some,
  List, [], ◌∷◌, if◌then◌else◌, ◌==◌, leb, ltb, length, Ret, ret, Mem, arith, All, inl, inr,
  Bool-cases, ==_refl, ==_iff, ◌⊎◌,
}
use datalog_dafsa.TupleSet.{◌>>=◌}
use datalog_dafsa.IntSet.{IntSet}
use datalog_dafsa.IntSet.Contents.{IsAmple}
use datalog_dafsa.Search.{
  ScoredResult, scored_result_lt, SearchCb, emit, rank_terms, pack_sets, group_results, rank_sets,
}
use datalog_dafsa.Search.Counts.{
  count_if, All-map, IsOrdered, IsSort, sort-All, IsRising, ordered-IsRising,
}
use datalog_dafsa.Search.Groups.{of_doc, IsPacked, group_results_lem}
use datalog_dafsa.Search.Packed.{
  IsCollected, sets_with, pack_sets-sets_with, pack_sets-IsPacked, pack_sets_once,
}
use datalog_dafsa.Search.Terms.{
  IsUnique, upto, rank_terms-upto, upto-IsRising, upto-lt, length-upto,
}

-- One result for each document that `docs` counts often enough, with its count as the score.
pub record IsListing (min_terms : ℕ) (docs : ℕ → ℕ) (results : List ScoredResult) : Type 0 where
  pub listed :
      (o : ℕ) → count_if (λ r. r.obs_id == o) results ≡ (if leb min_terms (docs o) then 1 else 0)
  pub scored : All (λ r. r.score ≡ docs r.obs_id) results

-- The higher scores first, and the smaller ids first among equal scores.
abbrev pub InOrder : List ScoredResult → Type 0
InOrder [] = Unit {0}
InOrder (r ∷ results) =
    All (λ q. (q.score < r.score) ⊎ ((q.score ≡ r.score) × (r.obs_id ≤ q.obs_id))) results
    × InOrder results

later_result :
    (q r : ScoredResult)
    → scored_result_lt q r ≡ false
    → (q.score < r.score) ⊎ ((q.score ≡ r.score) × (r.obs_id ≤ q.obs_id))
unfolding scored_result_lt
later_result q r h = elim (Bool-cases (q.score == r.score)) [
  | inl tie ↦ inr ((==_iff q.score r.score).0 tie, ground (arith, h, tie))
  | inr apart ↦ inl (ground (arith, h, apart))
]

ordered-InOrder :
    (results : List ScoredResult) → IsOrdered scored_result_lt results → InOrder results
ordered-InOrder [] h = tt
ordered-InOrder (r ∷ results) (first, rest) =
    (All-map (λ q k. later_result q r k) results first, ordered-InOrder results rest)

-- A listing with the higher scores first, and the smaller ids first among equal scores.
abbrev pub IsRanking : ℕ → (ℕ → ℕ) → List ScoredResult → Type 0
IsRanking min_terms docs results = IsListing min_terms docs results × InOrder results

-- A run that gives a ranking to the callback, and returns how many results the callback was given.
abbrev pub Ranks : {A : Type 0} → Option (Ret × A) → SearchCb A → A → ℕ → (ℕ → ℕ) → Type 0
Ranks run cb acc min_terms docs =
    (results : List ScoredResult) × (run
      ≡ some (ret (emit cb results 0 acc).0, (emit cb results 0 acc).1))
    × IsRanking min_terms docs results

pub no-IsRanking :
    (min_terms : ℕ) (docs : ℕ → ℕ)
    → ((o : ℕ) → leb min_terms (docs o) ≡ false)
    → IsRanking min_terms docs []
unfolding count_if
no-IsRanking min_terms docs none = (record { listed = λ o. rw (none o) refl; scored = tt }, tt)

pub sort-IsRanking :
    (sort : List ScoredResult → List ScoredResult) (min_terms : ℕ) (docs : ℕ → ℕ)
    (results : List ScoredResult)
    → IsSort scored_result_lt sort
    → IsListing min_terms docs results
    → IsRanking min_terms docs (sort results)
sort-IsRanking sort min_terms docs results sorts listing = (
  record {
    listed = λ o. sorts.counts (λ r. r.obs_id == o) results ∙ listing.listed o;
    scored =
        All-map (λ r h. same_stage r.score (docs r.obs_id) h) (sort results)
          (sort-All scored_result_lt sort (λ r. not (r.score == docs r.obs_id)) results sorts
            (All-map (λ r h. rw (h, ==_refl (docs r.obs_id)) refl) results listing.scored));
  },
  ordered-InOrder (sort results) (sorts.ordered results),
)
  where
    same_stage : (a b : ℕ) → not (a == b) ≡ false → a ≡ b
    same_stage a b h = ground (arith, h)

length_count : (xs : List ℕ) → count_if (λ _. true) xs ≡ length xs
unfolding count_if
length_count [] = refl
length_count (x ∷ xs) = omega (arith, length_count xs)

count_le : {A : Type 0} (p : A → Bool) (xs : List A) → count_if p xs ≤ length xs
unfolding count_if
count_le p [] = omega arith
count_le p (x ∷ xs) = ground (arith, count_le p xs)

none_stage : (c m n : ℕ) → 0 < n → c ≤ m → (m == 0) ≡ true → leb n c ≡ false
none_stage c m n pos le empty = ground (arith, pos, le, empty)

module _ (mem : Mem) (sort_u64 : List ℕ → List ℕ)
    (sort_results : List ScoredResult → List ScoredResult) (ample : IsAmple mem)
    (sorts : IsSort ltb sort_u64) (orders : IsSort scored_result_lt sort_results) where
  packed_lem :
      (sets : List IntSet) (ranks : List ℕ) (min_terms : ℕ)
      → 0 < min_terms
      → All IsCollected sets
      → All (λ r. r < 2 ^ 32) ranks
      → IsRising ranks
      → length ranks ≡ length sets
      → (results : List ScoredResult) × (group_results
            (suc (length (pack_sets sets ranks)))
            min_terms
            (sort_u64 (pack_sets sets ranks))
          ≡ some results)
        × IsListing min_terms (sets_with sets) results
  packed_lem sets ranks min_terms pos all small rises same =
      let pk = pack_sets sets ranks in
      let packed : IsPacked (sort_u64 pk) =
        All-map (λ v h. bound_stage v h) (sort_u64 pk)
          (sort-All ltb sort_u64 (λ v. not (ltb v (2 ^ 64))) pk sorts
            (All-map (λ v h. ground (arith, h)) pk (pack_sets-IsPacked sets ranks all small))) in
      let docs : (o : ℕ) → count_if (of_doc o) (sort_u64 pk) ≡ sets_with sets o =
        λ o. sorts.counts (of_doc o) pk ∙ pack_sets-sets_with sets ranks o all small same in
      let (results, run, found) =
        group_results_lem (suc (length pk)) min_terms (sort_u64 pk) pos
          (omega (arith, length_count pk, length_count (sort_u64 pk), sorts.counts (λ _. true) pk))
          (ordered-IsRising (sort_u64 pk) (sorts.ordered pk) (λ v.
            subst (λ (n : ℕ). n ≤ 1) (sym (sorts.counts (λ y. y == v) pk))
              (pack_sets_once sets ranks v all small rises)))
          packed in
      (
        results,
        run,
        record {
          listed = λ o. found.listed o ∙ rw (docs o) refl;
          scored = All-map (λ r h. h.0 ∙ docs r.obs_id) results found.scored;
        },
      )
    where
      bound_stage : (v : ℕ) → not (ltb v (2 ^ 64)) ≡ false → v < 2 ^ 64
      bound_stage v h = ground (arith, h)

  run_stage :
      {A : Type 0} (cb : SearchCb A) (acc : A) (results : List ScoredResult)
      (run : Option (List ScoredResult))
      → run ≡ some results
      → ◌>>=◌ {B = Ret × A} run (λ found.
        let (emitted, acc') = emit cb (sort_results found) 0 acc in some (ret emitted, acc'))
        ≡ some
            (ret (emit cb (sort_results results) 0 acc).0, (emit cb (sort_results results) 0 acc).1)
  run_stage cb acc results run e = rw e refl

  -- What `rank_sets` gives to the callback.
  pub rank_sets_lem :
      {A : Type 0} (cb : SearchCb A) (acc : A) (sets : List IntSet) (terms : List ℕ) (min_terms : ℕ)
      → 0 < min_terms
      → All IsCollected sets
      → IsUnique terms
      → length terms ≤ 2 ^ 32
      → length terms ≡ length sets
      → Ranks
          (rank_sets sort_u64 sort_results mem sets terms min_terms cb acc)
          cb
          acc
          min_terms
          (sets_with sets)
  unfolding rank_sets emit
  rank_sets_lem cb acc sets terms min_terms pos all unique few same =
      let ranks = rank_terms [] 0 terms in
      let pk = pack_sets sets ranks in
      let is_upto : ranks ≡ upto 0 (length terms) = rank_terms-upto terms unique in
      let small : All (λ r. r < 2 ^ 32) ranks =
        rw is_upto (upto-lt 0 (length terms) (2 ^ 32) (omega (arith, few))) in
      let rises : IsRising ranks = rw is_upto (upto-IsRising 0 (length terms)) in
      let ranked : length ranks ≡ length sets =
        ap length is_upto ∙ length-upto 0 (length terms) ∙ same in
      elim (Bool-cases (length pk == 0)) [
        | inl empty ↦ (
          [],
          rw (ample.mallocs (length terms * 4), empty) refl,
          no-IsRanking min_terms (sets_with sets) (λ o.
              subst (λ (n : ℕ). leb min_terms n ≡ false)
                (pack_sets-sets_with sets ranks o all small ranked)
                (none_stage _ (length pk) min_terms pos (count_le (of_doc o) pk) empty)),
        )
        | inr busy ↦
            let (results, run, listing) =
              packed_lem sets ranks min_terms pos all small rises ranked in
            (
              sort_results results,
              rw (ample.mallocs (length terms * 4), busy, ample.mallocs (length pk * 8))
                  (run_stage cb acc results _ run),
              sort-IsRanking sort_results min_terms (sets_with sets) results orders listing,
            )
      ]
