-- ===== src/Search/Top.antt =====
-- The searches with a limit of zig/src/index.zig (and src/index.h), and those of a published snapshot.
-- The caller's buffers are lists of numbers.
use datalog_dafsa.Base.{
  ℕ, ◌+◌, ◌<◌, ◌≡◌, true, false, ◌||◌, Option, some, List, ◌++◌, map, if◌then◌else◌, ◌==◌, leb, ltb,
  length, set, take, drop, Ret, ret, Mem, arith, err,
}
use datalog_dafsa.TupleSet.{Row, ◌>>=◌}
use datalog_dafsa.IntSet.Contents.{IsAmple}
use datalog_dafsa.Search.{
  Reader, ScoredResult, scored_result_lt, SearchCb, dl_search, dl_search_ranked, search_impl,
}
use datalog_dafsa.Search.Counts.{IsSort}
use datalog_dafsa.Search.Collect.{Reads, IsPostings, matched}
use datalog_dafsa.Search.Ranking.{IsRanking, Ranks}
use datalog_dafsa.Search.Ranked.{search_impl_lem}

-- The buffers, their room and how much of it is taken.
pub record TopCtx : Type 0 where
  pub obs_ids : List ℕ
  pub scores : List ℕ
  pub cap : ℕ
  pub count : ℕ

unfoldable pub top_search_cb : SearchCb TopCtx
top_search_cb obs_id score ctx = if leb ctx.cap ctx.count then (true, ctx) else (
  false,
  record ctx {
    obs_ids = set ctx.obs_ids ctx.count obs_id;
    scores = set ctx.scores ctx.count score;
    count = ctx.count + 1;
  },
)

abbrev pub top_ctx : List ℕ → List ℕ → ℕ → TopCtx
top_ctx obs_ids_out scores_out limit = record {
  obs_ids = obs_ids_out;
  scores = scores_out;
  cap = limit;
  count = 0;
}

-- The code of a search with a limit.
abbrev pub top_code : Option (Ret × TopCtx) → Option (Ret × TopCtx)
top_code run = run >>= λ (n, ctx). some (elim n [ err ↦ (err, ctx) | ret k ↦ (ret ctx.count, ctx) ])

module _ (sort_u64 : List ℕ → List ℕ) (sort_results : List ScoredResult → List ScoredResult) where
  unfoldable pub dl_search_top : Mem → Reader → List ℕ → List ℕ → List ℕ → ℕ → Option (Ret × TopCtx)
  unfolding dl_search top_search_cb
  dl_search_top mem read terms obs_ids_out scores_out limit =
      let ctx = top_ctx obs_ids_out scores_out limit in
      let run = top_code (dl_search sort_u64 sort_results mem read terms top_search_cb ctx) in
      if (length terms == 0) || (limit == 0) then some (err, ctx) else run

  unfoldable pub dl_search_ranked_top :
      Mem → Reader → List ℕ → ℕ → List ℕ → List ℕ → ℕ → Option (Ret × TopCtx)
  unfolding dl_search_ranked top_search_cb
  dl_search_ranked_top mem read terms min_terms obs_ids_out scores_out limit =
      let ctx = top_ctx obs_ids_out scores_out limit in
      let run =
        top_code
          (dl_search_ranked sort_u64 sort_results mem read terms min_terms top_search_cb ctx) in
      if (length terms == 0) || ((min_terms == 0) || (limit == 0)) then some (err, ctx) else run

  -- `read` gives the postings of a published version.
  unfoldable pub dl_search_version :
      {A : Type 0} → Mem → (ℕ → Reader) → ℕ → List ℕ → SearchCb A → A → Option (Ret × A)
  unfolding search_impl
  dl_search_version mem read version terms cb acc =
      if (version == 0) || (length terms == 0)
      then some (err, acc)
      else search_impl sort_u64 sort_results mem (read version) terms cb acc

  unfoldable pub dl_search_top_version :
      Mem → (ℕ → Reader) → ℕ → List ℕ → List ℕ → List ℕ → ℕ → Option (Ret × TopCtx)
  unfolding dl_search_version top_search_cb
  dl_search_top_version mem read version terms obs_ids_out scores_out limit =
      let ctx = top_ctx obs_ids_out scores_out limit in
      let run = top_code (dl_search_version mem read version terms top_search_cb ctx) in
      if (version == 0) || ((length terms == 0) || (limit == 0)) then some (err, ctx) else run

abbrev the_ctx : List ℕ → List ℕ → ℕ → ℕ → TopCtx
the_ctx o s limit c = record { obs_ids = o; scores = s; cap = limit; count = c }

-- The buffers once results went to them, behind those that they have.
abbrev filled : List ℕ → List ℕ → List ℕ → List ℕ → ℕ → ℕ → List ScoredResult → TopCtx
filled xs os ys ss cap count results = record {
  obs_ids = xs ++ (map (λ (r : ScoredResult). r.obs_id) results ++ drop (length results) os);
  scores = ys ++ (map (λ (r : ScoredResult). r.score) results ++ drop (length results) ss);
  cap = cap;
  count = count + length results;
}

-- What a search with a limit leaves: the first results of a ranking in the buffers, and their number.
abbrev pub Fills : Option (Ret × TopCtx) → List ℕ → List ℕ → ℕ → ℕ → (ℕ → ℕ) → Type 0
Fills run obs_ids_out scores_out limit min_terms docs =
    (results : List ScoredResult) × IsRanking min_terms docs results
    × (let kept = take limit results in
        run
        ≡ some (
          ret (length kept),
          record {
            obs_ids = map (λ r. r.obs_id) kept ++ drop (length kept) obs_ids_out;
            scores = map (λ r. r.score) kept ++ drop (length kept) scores_out;
            cap = limit;
            count = length kept;
          },
        ))

module _ (mem : Mem) (sort_u64 : List ℕ → List ℕ)
    (sort_results : List ScoredResult → List ScoredResult) (ample : IsAmple mem)
    (sorts : IsSort ltb sort_u64) (orders : IsSort scored_result_lt sort_results)
    (rows : ℕ → List Row) where
  -- Under these conditions on the read of a published version, `dl_search_version` gives the callback the
  -- documents that have postings of all terms, with the number of terms as the score.
  pub dl_search_version_lem :
      {A : Type 0} (read : ℕ → Reader) (version : ℕ) (terms : List ℕ) (cb : SearchCb A) (acc : A)
      → Reads rows (read version)
      → IsPostings rows
      → 0 < version
      → 0 < length terms
      → Ranks
          (dl_search_version sort_u64 sort_results mem read version terms cb acc)
          cb
          acc
          (length terms)
          (matched rows terms)
  unfolding dl_search_version
  dl_search_version_lem read version terms cb acc reads postings published pos =
      let guard : ((version == 0) || (length terms == 0)) ≡ false =
        ground (arith, published, pos) in
      rw guard (
        search_impl_lem mem sort_u64 sort_results ample sorts orders rows (read version) reads
          postings cb acc terms pos)
