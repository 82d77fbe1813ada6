-- ===== src/Examples/SortedKeys.antt =====
-- A DAFSA's calls on an ascending list of keys, and that they satisfy the laws that the relations
-- rely on: the laws can hold.
use datalog_dafsa.Base.{
  ℕ, ◌-◌, ◌≡◌, ◌≢◌, refl, sym, ap, true, false, not, ◌&&◌, ◌||◌, Option, none, some, List, [], ◌∷◌,
  if◌then◌else◌, words_eq, words_eq→eq, words_eq_refl, Ret, ret, All, arith, Bool-cases, inl, inr,
  ◌⊎◌, subst,
}
use datalog_dafsa.Relation.{Key, Dafsa, is_word}
use datalog_dafsa.Relation.Laws.{key_less, below, nth, starts, IsAscending, IsDafsa, Adds, Deletes}
use datalog_dafsa.Relation.Words.{key_less_trans}

pub insert : Key → List Key → List Key
insert k [] = k ∷ []
insert k (w ∷ ws) = let later = insert k ws in if key_less k w then k ∷ w ∷ ws else w ∷ later

pub erase : Key → List Key → List Key
erase k [] = []
erase k (w ∷ ws) = let later = erase k ws in if words_eq w k then later else w ∷ later

key_less_total : (x y : Key) → words_eq x y ≡ false → key_less x y ≡ false → key_less y x ≡ true
unfolding key_less words_eq
key_less_total [] [] h k = cc
key_less_total [] (b ∷ y) h k = cc
key_less_total (a ∷ x) [] h k = refl
key_less_total (a ∷ x) (b ∷ y) h k = ground (arith, key_less_total x y)

is_word-insert :
    (w k : Key) (ws : List Key) → is_word w (insert k ws) ≡ (words_eq w k || is_word w ws)
unfolding is_word insert
is_word-insert w k [] = refl
is_word-insert w k (v ∷ ws) = ground (arith, is_word-insert w k ws)

is_word-erase :
    (w k : Key) (ws : List Key) → is_word w (erase k ws) ≡ (not (words_eq w k) && is_word w ws)
unfolding is_word erase
is_word-erase w k [] = ground arith
is_word-erase w k (v ∷ ws) =
    ground (arith, is_word-erase w k ws, words_eq→eq w v, words_eq→eq v k, words_eq_refl k)

All-insert :
    (u k : Key) (ws : List Key)
    → key_less u k ≡ true
    → All (λ v. key_less u v ≡ true) ws
    → All (λ v. key_less u v ≡ true) (insert k ws)
unfolding insert
All-insert u k [] h all = (h, tt)
All-insert u k (w ∷ ws) h (first, all) = elim (Bool-cases (key_less k w)) [
  | inl before ↦ rw before (h, (first, all))
  | inr after ↦ rw after (first, All-insert u k ws h all)
]

All-erase :
    (u k : Key) (ws : List Key)
    → All (λ v. key_less u v ≡ true) ws
    → All (λ v. key_less u v ≡ true) (erase k ws)
unfolding erase
All-erase u k [] all = tt
All-erase u k (w ∷ ws) (first, all) = elim (Bool-cases (words_eq w k)) [
  | inl same ↦ rw same (All-erase u k ws all)
  | inr other ↦ rw other (first, All-erase u k ws all)
]

All-less :
    (k w : Key) (ws : List Key)
    → key_less k w ≡ true
    → All (λ v. key_less w v ≡ true) ws
    → All (λ v. key_less k v ≡ true) ws
All-less k w [] h all = tt
All-less k w (v ∷ ws) h (first, all) = (key_less_trans k w v h first, All-less k w ws h all)

pub insert-IsAscending :
    (k : Key) (ws : List Key) → is_word k ws ≡ false → IsAscending ws → IsAscending (insert k ws)
unfolding insert is_word
insert-IsAscending k [] new asc = (tt, tt)
insert-IsAscending k (w ∷ ws) new (first, asc) = elim (Bool-cases (key_less k w)) [
  | inl before ↦ rw before ((before, All-less k w ws before first), (first, asc))
  | inr after ↦
      let other : words_eq k w ≡ false = ground arith in
      let rest : is_word k ws ≡ false = ground arith in
      rw after
        (All-insert w k ws (key_less_total k w other after) first, insert-IsAscending k ws rest asc)
]

pub erase-IsAscending : (k : Key) (ws : List Key) → IsAscending ws → IsAscending (erase k ws)
unfolding erase
erase-IsAscending k [] asc = tt
erase-IsAscending k (w ∷ ws) (first, asc) = elim (Bool-cases (words_eq w k)) [
  | inl same ↦ rw same (erase-IsAscending k ws asc)
  | inr other ↦ rw other (All-erase w k ws first, erase-IsAscending k ws asc)
]

-- Sorted keys.
abbrev pub Sorted : Type 0
Sorted = (ws : List Key) × IsAscending ws

abbrev pub all_after : (w : Key) (ws : List Key) → Option (All (λ v. key_less w v ≡ true) ws)
all_after w [] = some tt
all_after w (v ∷ ws) = elim (Bool-cases (key_less w v)) [
  | inl before ↦ elim (all_after w ws) [ none ↦ none | some all ↦ some (before, all) ]
  | inr after ↦ none
]

abbrev pub check_order : (ws : List Key) → Option (IsAscending ws)
check_order [] = some tt
check_order (w ∷ ws) = elim (all_after w ws) [
  | none ↦ none
  | some first ↦ elim (check_order ws) [ none ↦ none | some asc ↦ some (first, asc) ]
]

abbrev pub add_found :
    (d : Sorted) (k : Key) → (is_word k d.0 ≡ true) ⊎ (is_word k d.0 ≡ false) → Ret × Sorted
add_found d k (inl old) = (ret 0, d)
add_found d k (inr new) = (ret 1, (insert k d.0, insert-IsAscending k d.0 new d.1))

abbrev pub add_word : Sorted → Key → Ret × Sorted
add_word d k = add_found d k (Bool-cases (is_word k d.0))

abbrev pub delete_word : Sorted → Key → Ret × Sorted
delete_word d k =
    (if is_word k d.0 then ret 1 else ret 0, (erase k d.0, erase-IsAscending k d.0 d.1))

abbrev pub follow : List Key → ℕ → Option (List Key)
follow s b = elim (starts b s) [ [] ↦ none | w ∷ ws ↦ some (w ∷ ws) ]

-- A state is the list of the byte strings that lead from it to a final state.
abbrev pub sorted_keys : Dafsa Sorted (List Key)
sorted_keys = record {
  create = some ([], tt);
  add_n = add_word;
  delete_n = delete_word;
  lookup_n = λ d k. is_word k d.0;
  build_sorted = λ ks. elim (check_order ks) [ none ↦ none | some asc ↦ some (ks, asc) ];
  initial = λ d. d.0;
  trans_find = λ d s b. follow s b;
  suffixes = λ d s. s;
  rank_from = λ d s k. below k s;
  select_from = λ d s i. nth s i;
  range_count_from = λ d s lo hi. below hi s - below lo s;
}

already :
    (w k : Key) (ws : List Key)
    → is_word k ws ≡ true
    → is_word w ws ≡ (words_eq w k || is_word w ws)
already w k ws old = elim (Bool-cases (words_eq w k)) [
  | inl same ↦ rw same (subst (λ v. is_word v ws ≡ true) (sym (words_eq→eq w k same)) old)
  | inr other ↦ rw other refl
]

add_found-Adds :
    (d : Sorted) (k : Key) (found : (is_word k d.0 ≡ true) ⊎ (is_word k d.0 ≡ false))
    → let (rc, d') = add_found d k found in Adds d.0 k rc d'.0
add_found-Adds d k (inl old) = (rw old refl, λ w. already w k d.0 old)
add_found-Adds d k (inr new) = (rw new refl, λ w. is_word-insert w k d.0)

delete_word-Deletes :
    (d : Sorted) (k : Key) → let (rc, d') = delete_word d k in Deletes d.0 k rc d'.0
delete_word-Deletes (ws, asc) k = elim (Bool-cases (is_word k ws)) [
  | inl old ↦ rw old (rw old refl, λ w. is_word-erase w k ws)
  | inr new ↦ rw new (rw new refl, λ w. is_word-erase w k ws)
]

abbrev words_of : Option Sorted → List Key
words_of none = []
words_of (some d) = d.0

build_law :
    (ks : List Key) (d : Sorted) (o : Option (IsAscending ks))
    → Path (Option Sorted) (elim o [ none ↦ none | some asc ↦ some (ks, asc) ]) (some d)
    → d.0 ≡ ks
build_law ks d none e = cc
build_law ks d (some asc) e = ap words_of (sym e)

follow_none :
    (s : List Key) (b : ℕ) (ws : List Key)
    → starts b s ≡ ws
    → Path (Option (List Key)) (elim ws [ [] ↦ none | w ∷ vs ↦ some (w ∷ vs) ]) none
    → ws ≡ []
follow_none s b [] same e = refl
follow_none s b (w ∷ ws) same e = cc

follow_some :
    (t : List Key) (ws : List Key)
    → Path (Option (List Key)) (elim ws [ [] ↦ none | w ∷ vs ↦ some (w ∷ vs) ]) (some t)
    → (t ≡ ws) × (ws ≢ [])
follow_some t [] e = cc
follow_some t (w ∷ ws) e = (cc, λ h. cc)

pub sorted_keys-IsDafsa : IsDafsa sorted_keys
sorted_keys-IsDafsa = record {
  create_law = λ d e. ap words_of (sym e);
  ascending_law = λ d. d.1;
  lookup_law = λ d k. refl;
  add_law = λ d k. add_found-Adds d k (Bool-cases (is_word k d.0));
  delete_law = delete_word-Deletes;
  build_law = λ ks d asc e. build_law ks d (check_order ks) e;
  trans_none_law = λ d s b e. follow_none s b (starts b s) refl e;
  trans_some_law = λ d s t b e. (follow_some t (starts b s) e).0;
  trans_live_law = λ d s t b e. (follow_some t (starts b s) e).1;
  rank_law = λ d s k. refl;
  select_law = λ d s i. refl;
  range_law = λ d s lo hi. refl;
}
