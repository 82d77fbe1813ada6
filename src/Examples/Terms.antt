-- ===== src/Examples/Terms.antt =====
-- Runs of the term store, and its theorems on them.
use datalog_dafsa.Base.{
  ◌↔◌, ℕ, ◌<◌, ◌≡◌, refl, subst, ◌⊎◌, some, List, [], ◌∷◌, arith, length, set, replicate,
}
use datalog_dafsa.Probe.{walk}
use datalog_dafsa.TupleSet.{fnv_byte, fnv_word}
use datalog_dafsa.TermStore.{
  term_length, TermStore, nil_node, empty_cell, term_nil, term_create, term_hash, term_is_list,
  new_node, intern_pair, term_cons, term_append,
}
use datalog_dafsa.TermStore.Valid.{IsValid, blank_Holds}
use datalog_dafsa.TermStore.Lists.{Lists, term_cons-Lists, term_cons_unique, term_length-total}
use datalog_dafsa.TermStore.Joined.{Builds, term_append-Builds}
use datalog_dafsa.Examples.Sets.{generous}

create-IsValid : IsValid term_create
create-IsValid = record {
  distinct = λ i j i_in j_in _. omega arith;
  table = blank_Holds (nil_node ∷ []) 128 (7, refl);
  has_nil = omega arith;
  nil_first = refl;
  earlier = λ i low inside. absurd (omega arith);
  room = omega arith;
  large = omega arith;
  small = omega arith;
}

-- The list [7].
abbrev pub one_list : TermStore
one_list = record {
  nodes = nil_node ∷ record { head = 7; tail = term_nil } ∷ [];
  cap = 64;
  ht = set (replicate 128 empty_cell) 98 (record { idx = 2; key_head = 7; key_tail = term_nil });
  ht_cap = 128;
  dirty = 1;
}

abbrev pub seven : ℕ
seven = 0x80000001

cons_seven : term_cons generous term_create 7 term_nil ≡ some (one_list, seven)
unfolding term_cons term_is_list intern_pair new_node walk term_hash fnv_word fnv_byte
cons_seven = refl

term_cons-Lists_example :
    (t' : TermStore) × (h : ℕ) × (term_cons generous term_create 7 term_nil ≡ some (t', h))
    × IsValid t'
    × ((ys : List ℕ) (old : ℕ) → Lists term_create old ys → Lists t' old ys)
    × ((h ≡ 0) ⊎ Lists t' h (7 ∷ []))
term_cons-Lists_example = term_cons-Lists generous term_create 7 [] term_nil create-IsValid refl

pub one_list-IsValid : IsValid one_list
one_list-IsValid =
    let (t', h, run, valid, _, _) =
      term_cons-Lists generous term_create 7 [] term_nil create-IsValid refl in
    same_run t' h run valid
  where
    same_run :
        (t : TermStore) (h : ℕ)
        → term_cons generous term_create 7 term_nil ≡ some (t, h)
        → IsValid t
        → IsValid one_list
    same_run t h run valid = subst IsValid (cc (run, cons_seven)) valid

Lists-seven : Lists one_list seven (7 ∷ [])
Lists-seven = (1, omega arith, omega arith, refl, refl, refl)

abbrev only_seven : List ℕ
only_seven = 7 ∷ []

term_cons_unique_example :
    (t' : TermStore) × (h : ℕ) × (term_cons generous one_list 7 term_nil ≡ some (t', h))
    × IsValid t'
    × ((h ≡ 0) ⊎ ((seven ≡ h) ↔ only_seven ≡ only_seven))
term_cons_unique_example =
    term_cons_unique generous one_list 7 [] (7 ∷ []) term_nil seven one_list-IsValid refl
      Lists-seven

term_length-total_example :
    (xs : List ℕ) × Lists one_list seven xs
    × (length xs < 2)
    × (term_length one_list seven ≡ some (length xs))
term_length-total_example = term_length-total one_list seven one_list-IsValid (1, omega arith, refl)

-- The second `term_cons` of a pair finds the node of the first.
cons_again : term_cons generous one_list 7 term_nil ≡ some (one_list, seven)
unfolding term_cons term_is_list intern_pair walk term_hash fnv_word fnv_byte
cons_again = refl

-- A tail that is no list.
cons_refused : term_cons generous one_list 7 5 ≡ some (one_list, 0)
unfolding term_cons term_is_list
cons_refused = refl

term_append-Builds_example :
    Builds one_list (7 ∷ 7 ∷ []) (term_append generous one_list seven seven)
term_append-Builds_example =
    term_append-Builds generous one_list seven seven (7 ∷ []) (7 ∷ []) one_list-IsValid Lists-seven
      Lists-seven
