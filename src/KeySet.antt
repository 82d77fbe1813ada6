-- ===== src/KeySet.antt =====
-- Open-addressing sets of non-zero keys, where 0 marks an empty cell. `sym_set` of
-- zig/src/regexwalk.zig and `U64Set` of zig/src/index.zig are two of them, with their own hashes.
pub mod Cells
pub mod Rehash
use datalog_dafsa.Base.{
  ℕ, zero, suc, ◌-◌, Bool, true, false, ◌||◌, Option, none, some, List, [], ◌∷◌, if◌then◌else◌,
  ◌==◌, get_or, set, bit_and,
}
use datalog_dafsa.Probe.{walk}
use datalog_dafsa.TupleSet.{◌>>=◌}

-- `hash(k) & (cap - 1)`.
abbrev pub home_of : (ℕ → ℕ) → ℕ → ℕ → ℕ
home_of hash cap k = bit_and (hash k) (cap - 1)

abbrev pub stops : List ℕ → ℕ → ℕ → Bool
stops cells k j = (get_or cells j 0 == 0) || (get_or cells j 0 == k)

abbrev pub is_empty : List ℕ → ℕ → Bool
is_empty cells j = get_or cells j 0 == 0

-- The probing loop for the key `k`: the cell where it stops.
unfoldable pub probe_key : (ℕ → ℕ) → List ℕ → ℕ → ℕ → Option ℕ
probe_key hash cells cap k = walk (stops cells k) cap cap (home_of hash cap k)

unfoldable pub has_key : (ℕ → ℕ) → List ℕ → ℕ → ℕ → Option Bool
unfolding probe_key
has_key hash cells cap k = probe_key hash cells cap k >>= λ j. some (get_or cells j 0 == k)

-- The loop and the write of an addition: whether the key is new.
unfoldable pub add_key : (ℕ → ℕ) → List ℕ → ℕ → ℕ → Option (Bool × List ℕ)
unfolding probe_key
add_key hash cells cap k = probe_key hash cells cap k >>= λ j.
    some (if get_or cells j 0 == k then (false, cells) else (true, set cells j k))

-- The loop of a growing table over the old cells: each key goes to the first empty cell.
unfoldable pub rehash_keys : (ℕ → ℕ) → List ℕ → ℕ → List ℕ → Option (List ℕ)
rehash_keys hash [] cap fresh = some fresh
rehash_keys hash (k ∷ cells) cap fresh =
    (if k == 0
      then some fresh
      else (walk (is_empty fresh) cap cap (home_of hash cap k) >>= λ j. some (set fresh j k)))
    >>= rehash_keys hash cells cap
