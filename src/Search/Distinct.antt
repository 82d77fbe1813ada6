-- ===== src/Search/Distinct.antt =====
-- `dl_search_ranked` of zig/src/index.zig and the distinct terms of its query.
use datalog_dafsa.Base.{
  ◌||◌, ◌++◌, [], ◌∷◌, ◌⊎◌, ◌↔◌, err, some, ℕ, ◌*◌, ◌^◌, ◌≤◌, ◌<◌, ◌≡◌, refl, sym, ◌∙◌, subst, true,
  false, Option, List, ◌==◌, ltb, length, Ret, Mem, arith, inl, inr, Bool-cases, ==_iff, ==_refl,
}
use datalog_dafsa.TupleSet.{Row}
use datalog_dafsa.IntSet.{is_seen}
use datalog_dafsa.IntSet.Contents.{IsAmple, is_seen-append}
use datalog_dafsa.Search.{
  Reader, ScoredResult, scored_result_lt, SearchCb, dl_search_ranked, dedupe,
}
use datalog_dafsa.Search.Counts.{IsSort}
use datalog_dafsa.Search.Terms.{IsUnique, dedupe-IsUnique}
use datalog_dafsa.Search.Collect.{Reads, IsPostings, matched}
use datalog_dafsa.Search.Ranking.{Ranks}
use datalog_dafsa.Search.Ranked.{ranked_stage}

no_clash : true ≡ false → ⊥
no_clash e = cc

abbrev pub Occurs : ℕ → List ℕ → Type 0
Occurs t [] = ⊥
Occurs t (u ∷ us) = (t ≡ u) ⊎ Occurs t us

abbrev pub Once : List ℕ → Type 0
Once [] = Unit {0}
Once (u ∷ us) = ¬ (Occurs u us) × Once us

-- The terms of a query, each once.
abbrev pub IsDistinct : List ℕ → List ℕ → Type 0
IsDistinct terms us = Once us × ((t : ℕ) → Occurs t us ↔ Occurs t terms)

seen-Occurs : (us : List ℕ) (t : ℕ) → (is_seen us t ≡ true) ↔ Occurs t us
unfolding is_seen
seen-Occurs [] t = ((λ h. cc), λ h. absurd h)
seen-Occurs (u ∷ us) t =
    let (to, from) = seen-Occurs us t in
    (
      (λ h. elim (Bool-cases (u == t)) [
        | inl same ↦ inl (sym ((==_iff u t).0 same))
        | inr other ↦ inr (to (ground (arith, h, other)))
      ]),
      λ h. elim h [
        | inl same ↦ rw (same, ==_refl u) refl
        | inr later ↦ rw (from later) (ground arith)
      ],
    )

unique-Once : (us : List ℕ) → IsUnique us → Once us
unique-Once [] unique = tt
unique-Once (u ∷ us) (alone, unique) = (
  (λ h. let clash : true ≡ false = sym ((seen-Occurs us u).1 h) ∙ alone in absurd (no_clash clash)),
  unique-Once us unique,
)

seen-dedupe :
    (uniq terms : List ℕ) (t : ℕ)
    → is_seen (dedupe uniq terms) t ≡ (is_seen uniq t || is_seen terms t)
unfolding dedupe is_seen
seen-dedupe uniq [] t = ground arith
seen-dedupe uniq (u ∷ terms) t = elim (Bool-cases (is_seen uniq u)) [
  | inr new ↦
      rw new (seen-dedupe (uniq ++ u ∷ []) terms t ∙ rw (is_seen-append uniq u t) (ground arith))
  | inl seen ↦ rw seen (
      seen-dedupe uniq terms t ∙ elim (Bool-cases (u == t)) [
        | inr other ↦ rw other refl
        | inl same ↦
            let old : is_seen uniq t ≡ true =
              subst (λ (x : ℕ). is_seen uniq x ≡ true) ((==_iff u t).0 same) seen in
            rw old refl
      ])
]

pub dedupe-IsDistinct : (terms : List ℕ) → IsDistinct terms (dedupe [] terms)
unfolding is_seen
dedupe-IsDistinct terms = (
  unique-Once (dedupe [] terms) (dedupe-IsUnique terms),
  λ t.
      let same = seen-dedupe [] terms t in
      (
        (λ h. (seen-Occurs terms t).0 (sym same ∙ (seen-Occurs (dedupe [] terms) t).1 h)),
        λ h. (seen-Occurs (dedupe [] terms) t).0 (same ∙ (seen-Occurs terms t).1 h),
      ),
)

-- A search for the documents of at least `min_terms` of the distinct terms `us` of a query: a ranking
-- for a threshold from 1 up to their number, and -1 for any other.
abbrev pub Answers :
    {A : Type 0} → Option (Ret × A) → SearchCb A → A → (ℕ → List Row) → ℕ → List ℕ → Type 0
Answers run cb acc rows min_terms us =
    ((0 < min_terms) × (min_terms ≤ length us) × Ranks run cb acc min_terms (matched rows us))
    ⊎ (((min_terms ≡ 0) ⊎ (length us < min_terms)) × (run ≡ some (err, acc)))

module _ (mem : Mem) (sort_u64 : List ℕ → List ℕ)
    (sort_results : List ScoredResult → List ScoredResult) (ample : IsAmple mem)
    (sorts : IsSort ltb sort_u64) (orders : IsSort scored_result_lt sort_results) where
  refused_stage :
      {A : Type 0} (read : Reader) (cb : SearchCb A) (acc : A) (terms : List ℕ) (min_terms : ℕ)
      → ((min_terms == 0) || ltb (length (dedupe [] terms)) min_terms) ≡ true
      → dl_search_ranked sort_u64 sort_results mem read terms min_terms cb acc ≡ some (err, acc)
  unfolding dl_search_ranked
  refused_stage read cb acc terms min_terms out =
      elim (Bool-cases
        ((length terms == 0) || ((min_terms == 0) || ltb (length terms) min_terms))) [
          | inl early ↦ rw early refl
          | inr on ↦
              let many : ltb (length (dedupe [] terms)) min_terms ≡ true =
                ground (arith, on, out) in
              rw (on, ample.mallocs (length terms * 4), many) refl
        ]

  -- Where memory refuses nothing, the read enumerates the postings of a term, which are of 32 bits,
  -- both sorts sort and the query has at most 2^32 terms, there is a list of the terms of the query,
  -- each once. For a threshold from 1 up to its length, `dl_search_ranked` gives the callback a list
  -- with one result for exactly the documents that have postings of at least so many of these terms,
  -- its score the number of them, the higher scores first and the smaller ids first among equal
  -- scores, until the callback stops, and returns how many it was given. For any other threshold it
  -- returns -1 and calls nothing.
  pub dl_search_ranked_lem :
      {A : Type 0} (rows : ℕ → List Row) (read : Reader) (cb : SearchCb A) (acc : A)
      (terms : List ℕ) (min_terms : ℕ)
      → Reads rows read
      → IsPostings rows
      → length terms ≤ 2 ^ 32
      → (us : List ℕ) × IsDistinct terms us
        × Answers
            (dl_search_ranked sort_u64 sort_results mem read terms min_terms cb acc)
            cb
            acc
            rows
            min_terms
            us
  dl_search_ranked_lem rows read cb acc terms min_terms reads postings few =
      let us = dedupe [] terms in
      (
        us,
        dedupe-IsDistinct terms,
        elim (Bool-cases ((min_terms == 0) || ltb (length us) min_terms)) [
          | inr fits ↦
              let pos : 0 < min_terms = ground (arith, fits) in
              let le : min_terms ≤ length us = ground (arith, fits) in
              inl (
                pos,
                le,
                ranked_stage mem sort_u64 sort_results ample sorts orders rows read reads postings
                    cb acc terms min_terms pos le few,
              )
          | inl out ↦ inr (
            elim (Bool-cases (min_terms == 0)) [
              | inl none_asked ↦ inl ((==_iff min_terms 0).0 none_asked)
              | inr asked ↦ inr (ground (arith, out, asked))
            ],
            refused_stage read cb acc terms min_terms out,
          )
        ],
      )
