-- ===== src/Search/Groups.antt =====
-- The grouping loops of `searchRankedImpl` in zig/src/index.zig on ascending packed postings.
use datalog_dafsa.Base.{
  ℕ, zero, suc, ◌+◌, ◌/◌, ◌%◌, ◌^◌, ◌-◌, ◌≤◌, ◌<◌, ◌≡◌, ◌≢◌, refl, sym, ◌∙◌, Bool, true, some, List,
  [], ◌∷◌, if◌then◌else◌, ◌==◌, leb, length, arith, All, inl, inr, Bool-cases, ==_iff, ==_refl,
  ==_ne,
}
use native.Mathlib.Decide.{ℕ_discrete}
use datalog_dafsa.Search.{ScoredResult, count_group, group_results}
use datalog_dafsa.Search.Counts.{count_if, count_if_none, All-map, IsRising}

-- The document and the rank of a packed posting.
abbrev pub doc : ℕ → ℕ
doc p = p / 2 ^ 32 % 2 ^ 32

abbrev pub of_doc : ℕ → ℕ → Bool
of_doc o p = doc p == o

-- Packed postings of 64 bits.
abbrev pub IsPacked : List ℕ → Type 0
IsPacked pk = All (λ p. p < 2 ^ 64) pk

abbrev StartsPast : ℕ → List ℕ → Type 0
StartsPast o pk = All (λ y. o < doc y) pk

past_none : (o o' : ℕ) (pk : List ℕ) → o' ≤ o → StartsPast o pk → count_if (of_doc o') pk ≡ 0
past_none o o' pk le past =
    count_if_none (of_doc o') pk
      (All-map (λ y h. ==_ne (doc y) o' (λ e. absurd (omega arith))) pk past)

-- What the inner loop came to.
record IsGrouped (o matched : ℕ) (pk : List ℕ) (matched' : ℕ) (rest : List ℕ) : Type 0 where
  count : matched' ≡ matched + count_if (of_doc o) pk
  rises : IsRising rest
  packed : IsPacked rest
  past : StartsPast o rest
  others : (o' : ℕ) → o' ≢ o → count_if (of_doc o') rest ≡ count_if (of_doc o') pk
  shorter : length rest + matched' ≡ length pk + matched

next_doc : (x y : ℕ) → x < y → y < 2 ^ 64 → doc x ≤ doc y
next_doc x y lt small = omega arith

next_rank : (x y : ℕ) → x < y → y < 2 ^ 64 → doc y ≡ doc x → y % 2 ^ 32 ≢ x % 2 ^ 32
next_rank x y lt small same e = absurd (omega arith)

all_both : (P Q : ℕ → Type 0) (xs : List ℕ) → All P xs → All Q xs → All (λ x. P x × Q x) xs
all_both P Q [] h k = tt
all_both P Q (x ∷ xs) (p, h) (q, k) = ((p, q), all_both P Q xs h k)

count_group_lem :
    (o prev matched : ℕ) (pk : List ℕ)
    → IsRising pk
    → IsPacked pk
    → All (λ y. doc y ≡ o → y % 2 ^ 32 ≢ prev) pk
    → All (λ y. o ≤ doc y) pk
    → let (matched', rest) = count_group o prev matched pk in IsGrouped o matched pk matched' rest
unfolding count_group count_if
count_group_lem o prev matched [] rises packed fresh from = record {
  count = omega arith;
  rises = tt;
  packed = tt;
  past = tt;
  others = λ o' other. refl;
  shorter = omega arith;
}
count_group_lem o prev matched (x ∷ pk) (first, rises) (small, packed) (new, fresh) (le, from) =
    let bounds = all_both (λ y. x < y) (λ y. y < 2 ^ 64) pk first packed in
    elim (Bool-cases (of_doc o x)) [
      | inl here ↦
          let at : doc x ≡ o = (==_iff (doc x) o).0 here in
          let (matched', rest) = count_group o (x % 2 ^ 32) (matched + 1) pk in
          let grouped =
            count_group_lem o (x % 2 ^ 32) (matched + 1) pk rises packed
              (All-map (λ y h e. next_rank x y h.0 h.1 (e ∙ sym at)) pk bounds) from in
          rw (here, ==_ne _ prev (new at), count_group)
            (record {
              count = rw here (omega (arith, grouped.count));
              rises = grouped.rises;
              packed = grouped.packed;
              past = grouped.past;
              others = λ o' other.
                  grouped.others o' other
                  ∙ rw (==_ne (doc x) o' (λ e. other (sym e ∙ at))) (omega arith);
              shorter = omega (arith, grouped.shorter);
            })
      | inr there ↦
          let past : o < doc x = ground (arith, there, le) in
          let later : StartsPast o pk =
            All-map (λ y h. omega (arith, next_doc x y h.0 h.1, past)) pk bounds in
          rw (there, count_group)
            (record {
              count = rw (there, past_none o o pk (omega arith) later) (omega arith);
              rises = (first, rises);
              packed = (small, packed);
              past = (past, later);
              others = λ o' other. refl;
              shorter = omega arith;
            })
    ]

-- The results of packed postings: one for each document with at least `min_terms` of them, with
-- their number as its score.
pub record IsResults (min_terms : ℕ) (pk : List ℕ) (results : List ScoredResult) : Type 0 where
  pub listed :
      (o : ℕ)
      → count_if (λ r. r.obs_id == o) results
        ≡ (if leb min_terms (count_if (of_doc o) pk) then 1 else 0)
  pub scored : All (λ r. (r.score ≡ count_if (of_doc r.obs_id) pk) × (min_terms ≤ r.score)) results

count_first : (x : ℕ) (pk : List ℕ) → 0 < count_if (of_doc (doc x)) (x ∷ pk)
unfolding count_if
count_first x pk = rw (==_refl (doc x)) (omega arith)

group_step :
    (fuel min_terms x : ℕ) (pk rest : List ℕ) (matched : ℕ) (results : List ScoredResult)
    → count_group (doc x) (2 ^ 64 - 1) 0 (x ∷ pk) ≡ (matched, rest)
    → group_results fuel min_terms rest ≡ some results
    → group_results (suc fuel) min_terms (x ∷ pk)
      ≡ some (
          if leb min_terms matched
          then record { obs_id = doc x; score = matched } ∷ results
          else results)
unfolding group_results
group_step fuel min_terms x pk rest matched results grouped run =
    rw (grouped, run, group_results) refl

own_listed :
    (o' o matched min_terms c : ℕ) (results : List ScoredResult)
    → o ≡ o'
    → count_if (λ r. r.obs_id == o') results ≡ 0
    → leb min_terms matched ≡ true
    → c ≡ matched
    → count_if (λ r. r.obs_id == o') (record { obs_id = o; score = matched } ∷ results)
      ≡ (if leb min_terms c then 1 else 0)
unfolding count_if
own_listed o' o matched min_terms c results same none enough count =
    rw (count, enough, same, ==_refl o', none) (omega arith)

other_listed :
    (o' o matched : ℕ) (results : List ScoredResult)
    → o ≢ o'
    → count_if (λ r. r.obs_id == o') (record { obs_id = o; score = matched } ∷ results)
      ≡ count_if (λ r. r.obs_id == o') results
unfolding count_if
other_listed o' o matched results apart = rw (==_ne o o' apart) (omega arith)

few_stage : (min_terms : ℕ) → 0 < min_terms → let n : ℕ = if leb min_terms 0 then 1 else 0 in n ≡ 0
few_stage min_terms pos = ground arith

add_listing :
    (min_terms x : ℕ) (pk rest : List ℕ) (matched : ℕ) (results : List ScoredResult)
    → 0 < min_terms
    → IsGrouped (doc x) 0 (x ∷ pk) matched rest
    → IsResults min_terms rest results
    → IsResults min_terms (x ∷ pk) (
        if leb min_terms matched
        then record { obs_id = doc x; score = matched } ∷ results
        else results)
add_listing min_terms x pk rest matched results pos grouped found =
    let o = doc x in
    let here : matched ≡ count_if (of_doc o) (x ∷ pk) = omega (arith, grouped.count) in
    let gone : count_if (of_doc o) rest ≡ 0 = past_none o o rest (omega arith) grouped.past in
    let later : All (λ r. (r.score ≡ count_if (of_doc r.obs_id) (x ∷ pk)) × (min_terms ≤ r.score))
        results =
      All-map (λ r h. (kept r.obs_id r.score gone h.0 h.1 (grouped.others r.obs_id), h.1)) results
        found.scored in
    elim (Bool-cases (leb min_terms matched)) [
      | inl enough ↦ rw enough (record {
        listed = λ o'. elim (ℕ_discrete (doc x) o') [
          | yes same ↦
              own_listed o' (doc x) matched min_terms (count_if (of_doc o') (x ∷ pk)) results same
                (found.listed o' ∙ rw (sym same, gone) (few_stage min_terms pos)) enough
                (rw (sym same) (sym here))
          | no apart ↦
              other_listed o' (doc x) matched results apart
              ∙ found.listed o'
              ∙ rw (grouped.others o' (λ e. apart (sym e))) refl
        ];
        scored = ((here, ground arith), later);
      })
      | inr few ↦ rw few (record {
        listed = λ o'. found.listed o' ∙ elim (ℕ_discrete (doc x) o') [
          | yes same ↦ rw (sym same, gone, sym here, few) (few_stage min_terms pos)
          | no apart ↦ rw (grouped.others o' (λ e. apart (sym e))) refl
        ];
        scored = later;
      })
    ]
  where
    kept :
        (o' score : ℕ)
        → count_if (of_doc (doc x)) rest ≡ 0
        → score ≡ count_if (of_doc o') rest
        → min_terms ≤ score
        → (o' ≢ doc x → count_if (of_doc o') rest ≡ count_if (of_doc o') (x ∷ pk))
        → score ≡ count_if (of_doc o') (x ∷ pk)
    kept o' score gone is_count enough others = elim (ℕ_discrete o' (doc x)) [
      | no apart ↦ is_count ∙ others apart
      | yes same ↦ let zeroth : score ≡ 0 = is_count ∙ rw same gone in absurd (omega arith)
    ]

pub group_results_lem :
    (fuel min_terms : ℕ) (pk : List ℕ)
    → 0 < min_terms
    → length pk < fuel
    → IsRising pk
    → IsPacked pk
    → (results : List ScoredResult) × (group_results fuel min_terms pk ≡ some results)
      × IsResults min_terms pk results
unfolding group_results count_if
group_results_lem zero min_terms pk pos enough rises packed = absurd (omega arith)
group_results_lem (suc fuel) min_terms [] pos enough rises packed =
    ([], refl, record { listed = λ o. ground arith; scored = tt })
group_results_lem (suc fuel) min_terms (x ∷ pk) pos enough (first, rises) (small, packed) =
    let bounds = all_both (λ y. x < y) (λ y. y < 2 ^ 64) pk first packed in
    let (matched, rest) = count_group (doc x) (2 ^ 64 - 1) 0 (x ∷ pk) in
    let grouped =
      count_group_lem (doc x) (2 ^ 64 - 1) 0 (x ∷ pk) (first, rises) (small, packed)
        (λ _. omega arith, All-map (λ y h _. omega arith) pk bounds)
        (omega arith, All-map (λ y h. next_doc x y h.0 h.1) pk bounds) in
    let (results, run, found) =
      group_results_lem fuel min_terms rest pos
        (omega (arith, grouped.shorter, counted grouped.count)) grouped.rises grouped.packed in
    (
      _,
      group_step fuel min_terms x pk rest matched results refl run,
      add_listing min_terms x pk rest matched results pos grouped found,
    )
  where
    counted : {m : ℕ} → m ≡ 0 + count_if (of_doc (doc x)) (x ∷ pk) → 0 < m
    counted h = omega (arith, h, count_first x pk)
