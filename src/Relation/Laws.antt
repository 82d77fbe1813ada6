-- ===== src/Relation/Laws.antt =====
-- What zig/src/relation.zig relies on in the DAFSA library: the words of a DAFSA are a set of byte
-- strings in lexicographic order, and each call reads or changes that set.
use datalog_dafsa.Base.{
  ℕ, zero, suc, ◌+◌, ◌-◌, ◌≡◌, ◌≢◌, Bool, true, false, ◌&&◌, ◌||◌, Option, none, some, List, [],
  ◌∷◌, not, if◌then◌else◌, ◌==◌, ltb, words_eq, Ret, err, ret, All,
}
use datalog_dafsa.Relation.{Key, Dafsa, words, is_word}

-- Lexicographic order of byte strings; a proper prefix comes first.
unfoldable pub key_less : Key → Key → Bool
key_less [] [] = false
key_less [] (y ∷ ys) = true
key_less (x ∷ xs) [] = false
key_less (x ∷ xs) (y ∷ ys) = if ltb x y then true else if ltb y x then false else key_less xs ys

abbrev pub IsAscending : List Key → Type 0
IsAscending [] = Unit {0}
IsAscending (w ∷ ws) = All (λ v. key_less w v ≡ true) ws × IsAscending ws

-- How many of the words come before `k`.
unfoldable pub below : Key → List Key → ℕ
unfolding key_less
below k [] = 0
below k (w ∷ ws) = (if key_less w k then 1 else 0) + below k ws

unfoldable pub nth : List Key → ℕ → Option Key
nth [] i = none
nth (w ∷ ws) zero = some w
nth (w ∷ ws) (suc i) = nth ws i

-- The rests of the words that begin with the byte `b`.
unfoldable pub starts : ℕ → List Key → List Key
starts b [] = []
starts b ([] ∷ ws) = starts b ws
starts b ((x ∷ w) ∷ ws) = let rest = starts b ws in if x == b then w ∷ rest else rest

-- `dafsa_add_n`: 1 for a new word, 0 for a word of the set; a failure leaves the set as it was.
abbrev pub Adds : List Key → Key → Ret → List Key → Type 0
Adds ws k err ws' = ws' ≡ ws
Adds ws k (ret n) ws' =
    (n ≡ (if is_word k ws then 0 else 1))
    × ((w : Key) → is_word w ws' ≡ (words_eq w k || is_word w ws))

-- `dafsa_delete_n`: 1 for a word of the set, 0 for any other; a failure leaves the set as it was.
abbrev pub Deletes : List Key → Key → Ret → List Key → Type 0
Deletes ws k err ws' = ws' ≡ ws
Deletes ws k (ret n) ws' =
    (n ≡ (if is_word k ws then 1 else 0))
    × ((w : Key) → is_word w ws' ≡ (not (words_eq w k) && is_word w ws))

pub record IsDafsa {D S : Type 0} (lib : Dafsa D S) : Type 0 where
  pub create_law : (d : D) → lib.create ≡ some d → words lib d ≡ []
  pub ascending_law : (d : D) → IsAscending (words lib d)
  pub lookup_law : (d : D) (k : Key) → lib.lookup_n d k ≡ is_word k (words lib d)
  pub add_law :
      (d : D) (k : Key) → Adds (words lib d) k (lib.add_n d k).0 (words lib (lib.add_n d k).1)
  pub delete_law :
      (d : D) (k : Key)
      → Deletes (words lib d) k (lib.delete_n d k).0 (words lib (lib.delete_n d k).1)
  pub build_law :
      (ks : List Key) (d : D) → IsAscending ks → lib.build_sorted ks ≡ some d → words lib d ≡ ks
  pub trans_none_law :
      (d : D) (s : S) (b : ℕ) → lib.trans_find d s b ≡ none → starts b (lib.suffixes d s) ≡ []
  pub trans_some_law :
      (d : D) (s t : S) (b : ℕ)
      → lib.trans_find d s b ≡ some t
      → lib.suffixes d t ≡ starts b (lib.suffixes d s)
  pub trans_live_law :
      (d : D) (s t : S) (b : ℕ) → lib.trans_find d s b ≡ some t → starts b (lib.suffixes d s) ≢ []
  pub rank_law : (d : D) (s : S) (k : Key) → lib.rank_from d s k ≡ below k (lib.suffixes d s)
  pub select_law : (d : D) (s : S) (i : ℕ) → lib.select_from d s i ≡ nth (lib.suffixes d s) i
  pub range_law :
      (d : D) (s : S) (lo hi : Key)
      → lib.range_count_from d s lo hi ≡ below hi (lib.suffixes d s) - below lo (lib.suffixes d s)
