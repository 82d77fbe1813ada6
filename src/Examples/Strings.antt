-- ===== src/Examples/Strings.antt =====
-- The theorems on the interner at concrete inputs, with sorted lists of keys in the place of the DAFSA.
use datalog_dafsa.Base.{
  ◌≢◌, ℕ, List, ◌+◌, ◌^◌, ◌<◌, ◌≡◌, ◌↔◌, ◌⊎◌, refl, false, not, ◌&&◌, Option, none, some, [], ◌∷◌,
  ◌++◌, ◌==◌, if◌then◌else◌, words_eq, arith, ltb, ret, replicate,
}
use datalog_dafsa.TxnWal.{Bytes}
use datalog_dafsa.Relation.{Key, is_ok, words}
use datalog_dafsa.Relation.Prefix.{after}
use datalog_dafsa.Interner.{
  Interner, intern_create, intern_str, intern_str_find, intern_str_of, ensure_fwd, capture,
  scan_rev, grow_rev, grow_fwd, intern_new,
}
use datalog_dafsa.Interner.Keyed.{IsString}
use datalog_dafsa.Interner.Valid.{IsValid, IsPrefixEnum, first_of}
use datalog_dafsa.Interner.Created.{intern_create-IsValid}
use datalog_dafsa.Interner.RoundTrip.{
  intern_str_lem, intern_str_memory, intern_str_find-intern_str_of,
}
use datalog_dafsa.Interner.Rebuilt.{ensure_fwd_lem, IsCurrent}
use datalog_dafsa.Fuzzy.{
  FuzzyCb, lev_cells, lev_row, all_above, first_row, last_cell, lev_rows, lev_shorter,
  lev_distance_cap, fuzzy_from, dl_fuzzy_lookup,
}
use datalog_dafsa.Fuzzy.Edits.{IsDistance}
use datalog_dafsa.Fuzzy.Distance.{lev_distance_cap_lem}
use datalog_dafsa.Fuzzy.Lookup.{Hit, Among, Ascends, IsHit, feed, dl_fuzzy_lookup_lem}
use datalog_dafsa.Examples.SortedKeys.{Sorted, sorted_keys, sorted_keys-IsDafsa}
use datalog_dafsa.Examples.Sets.{generous, generous-IsAmple}

abbrev first_payload : Sorted → Bytes → Option Key
first_payload d str = first_of sorted_keys (after (str ++ 0 ∷ []) (words sorted_keys d))

first_payload-IsPrefixEnum : IsPrefixEnum sorted_keys first_payload
first_payload-IsPrefixEnum = λ d str. refl

abbrev alice : Bytes
alice = 97 ∷ 108 ∷ []

abbrev bob : Bytes
bob = 98 ∷ []

alice-IsString : IsString alice
alice-IsString = (omega arith, (omega arith, tt))

bob-IsString : IsString bob
bob-IsString = (omega arith, tt)

abbrev blank : Interner Sorted
blank = record {
  fwd = some ([], tt);
  rev = replicate 256 none;
  next_id = 1;
  dirty = false;
  fwd_ro = false;
  fwd_gen = 0;
}

blank-IsValid : IsValid sorted_keys blank
unfolding intern_create
blank-IsValid = intern_create-IsValid sorted_keys first_payload generous 128 blank refl

abbrev named : Interner Sorted
named = (intern_str sorted_keys first_payload generous blank alice).1

named-IsValid : IsValid sorted_keys named
named-IsValid =
    (intern_str_lem sorted_keys sorted_keys-IsDafsa first_payload first_payload-IsPrefixEnum
      generous blank alice alice 1 blank-IsValid alice-IsString alice-IsString (omega arith)).0

named_small : named.next_id < 2 ^ 31
unfolding intern_str intern_str_find intern_new grow_rev grow_fwd scan_rev capture words_eq
named_small = omega arith

intern_str_lem_example :
    let (id, ir) = intern_str sorted_keys first_payload generous named bob in
    IsValid sorted_keys ir
    × (intern_str_find sorted_keys first_payload ir alice ≡ (
        if words_eq alice bob then id else intern_str_find sorted_keys first_payload named alice))
    × (intern_str_of ir 2
        ≡ (if (2 == id) && not (id == 0) then some bob else intern_str_of named 2))
intern_str_lem_example =
    intern_str_lem sorted_keys sorted_keys-IsDafsa first_payload first_payload-IsPrefixEnum generous
      named bob alice 2 named-IsValid bob-IsString alice-IsString named_small

intern_str_memory_example :
    let (id, ir) = intern_str sorted_keys first_payload generous named bob in
    (id ≢ 0)
    × (id ≡ (
        if intern_str_find sorted_keys first_payload named bob == 0
        then named.next_id
        else intern_str_find sorted_keys first_payload named bob))
    × (intern_str_of ir id ≡ some bob)
    × (intern_str_find sorted_keys first_payload ir bob ≡ id)
    × IsValid sorted_keys ir
intern_str_memory_example =
    intern_str_memory sorted_keys sorted_keys-IsDafsa first_payload first_payload-IsPrefixEnum
      generous named bob generous-IsAmple named-IsValid bob-IsString (omega arith) named_small

intern_str_find-intern_str_of_example :
    (intern_str_find sorted_keys first_payload named alice ≡ 0 + 1)
    ↔ (intern_str_of named (0 + 1) ≡ some alice)
intern_str_find-intern_str_of_example =
    intern_str_find-intern_str_of sorted_keys sorted_keys-IsDafsa first_payload
      first_payload-IsPrefixEnum named alice 0 named-IsValid alice-IsString

ensure_fwd_lem_example :
    let (rc, ir) = ensure_fwd sorted_keys first_payload generous named false in
    IsValid sorted_keys ir
    × (intern_str_find sorted_keys first_payload ir alice
        ≡ intern_str_find sorted_keys first_payload named alice)
    × (intern_str_of ir 1 ≡ intern_str_of named 1)
    × ((is_ok rc ≡ false) ⊎ IsCurrent sorted_keys sorted_keys-IsDafsa first_payload ir false)
ensure_fwd_lem_example =
    ensure_fwd_lem sorted_keys sorted_keys-IsDafsa first_payload first_payload-IsPrefixEnum generous
      named false alice 1 named-IsValid alice-IsString

find_alice : intern_str_find sorted_keys first_payload named alice ≡ 1
unfolding intern_str intern_str_find intern_new grow_rev grow_fwd scan_rev capture words_eq
find_alice = refl

find_bob : intern_str_find sorted_keys first_payload named bob ≡ 0
unfolding intern_str intern_str_find intern_new grow_rev grow_fwd scan_rev capture words_eq
find_bob = refl

abbrev kitten : Bytes
kitten = 107 ∷ 105 ∷ 116 ∷ 116 ∷ 101 ∷ 110 ∷ []

abbrev sitting : Bytes
sitting = 115 ∷ 105 ∷ 116 ∷ 116 ∷ 105 ∷ 110 ∷ 103 ∷ []

lev_distance_cap_lem_example :
    (n : ℕ) × IsDistance kitten sitting n
    × (lev_distance_cap generous kitten sitting 5 ≡ (if ltb 5 n then 5 + 1 else n))
lev_distance_cap_lem_example = lev_distance_cap_lem generous kitten sitting 5 generous-IsAmple

distance_three : lev_distance_cap generous kitten sitting 5 ≡ 3
unfolding lev_distance_cap lev_shorter lev_rows lev_row lev_cells all_above first_row last_cell
distance_three = refl

distance_capped : lev_distance_cap generous kitten sitting 2 ≡ 3
unfolding lev_distance_cap lev_shorter lev_rows lev_row lev_cells all_above first_row last_cell
distance_capped = refl

abbrev keep_hit : FuzzyCb (List Hit)
keep_hit id name dist hits = (false, hits ++ (id, (name, dist)) ∷ [])

dl_fuzzy_lookup_lem_example :
    (hits : List Hit) × Ascends 1 hits
    × ((h : Hit) → Among h hits ↔ IsHit named bob 2 h)
    × (dl_fuzzy_lookup generous named bob 2 keep_hit []
        ≡ (let (n, a) = feed keep_hit hits 0 [] in (ret n, a)))
dl_fuzzy_lookup_lem_example =
    dl_fuzzy_lookup_lem named bob 2 generous keep_hit [] generous-IsAmple (omega arith)
      (omega arith) (omega arith)

near_bob : dl_fuzzy_lookup generous named bob 2 keep_hit [] ≡ (ret 1, (1, (alice, 2)) ∷ [])
unfolding dl_fuzzy_lookup fuzzy_from lev_distance_cap lev_shorter lev_rows lev_row lev_cells
    all_above first_row last_cell intern_str_of intern_str intern_str_find intern_new grow_rev
    grow_fwd scan_rev capture words_eq
near_bob = refl
