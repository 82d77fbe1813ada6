-- ===== src/IntSet.antt =====
-- The two hash sets of zig/src/index.zig: `U64Set`, and `IntSet`, an array of distinct observation ids
-- with a `U64Set` of the ids plus one. Counts and capacities stay in the range of a usize.
pub mod Contents
use datalog_dafsa.Base.{
  ℕ, suc, ◌+◌, ◌*◌, ◌/◌, ◌%◌, ◌^◌, bit_xor, Bool, ◌||◌, true, false, Option, none, some, List, [],
  ◌∷◌, ◌++◌, if◌then◌else◌, ◌==◌, leb, ltb, length, replicate, Ret, err, ret, Mem,
}
use datalog_dafsa.TupleSet.{◌>>=◌}
use datalog_dafsa.KeySet.{has_key, add_key, rehash_keys}

pub record U64Set : Type 0 where
  pub slots : List ℕ
  pub count : ℕ
  pub cap : ℕ

unfoldable pub u64_set_hash : ℕ → ℕ
u64_set_hash k_in =
    let k = bit_xor k_in (k_in / 2 ^ 33) in
    let m = k * 0xff51afd7ed558ccd % 2 ^ 64 in bit_xor m (m / 2 ^ 33)

abbrev pub no_keys : U64Set
no_keys = record { slots = []; count = 0; cap = 0 }

-- `none`, here and below, is a probing loop that does not end.
unfoldable pub u64_set_grow : Mem → U64Set → Option (Ret × U64Set)
unfolding rehash_keys
u64_set_grow mem s =
    let ncap = if s.cap == 0 then 64 else s.cap * 2 in
    if mem.calloc_ok (ncap * 8)
    then (rehash_keys u64_set_hash s.slots ncap (replicate ncap 0) >>= λ slots.
        some (ret 0, record s { slots = slots; cap = ncap }))
    else some (err, s)

unfoldable pub u64_set_contains : U64Set → ℕ → Option Bool
unfolding has_key
u64_set_contains s k = if s.cap == 0 then some false else has_key u64_set_hash s.slots s.cap k

-- The probing loop of `u64SetAdd` and its write.
unfoldable pub u64_set_put : U64Set → ℕ → Option (Ret × U64Set)
unfolding add_key
u64_set_put s k = add_key u64_set_hash s.slots s.cap k >>= λ (fresh, slots).
    some (if fresh then (ret 1, record s { slots = slots; count = s.count + 1 }) else (ret 0, s))

unfoldable pub u64_set_add : Mem → U64Set → ℕ → Option (Ret × U64Set)
unfolding u64_set_grow u64_set_put
u64_set_add mem s k =
    if k == 0
    then some (ret 0, s)
    else if (s.cap == 0) || leb (s.cap * 3) ((s.count + 1) * 4)
    then (u64_set_grow mem s >>= λ (rc, s'). elim rc [
      | err ↦ some (err, s')
      | ret n ↦ u64_set_put s' k
    ])
    else u64_set_put s k

-- A linear search for a number.
unfoldable pub is_seen : List ℕ → ℕ → Bool
is_seen [] v = false
is_seen (t ∷ seen) v = (t == v) || is_seen seen v

-- `items` is `data[0..count]`, the ids in the order of their insertion.
pub record IntSet : Type 0 where
  pub items : List ℕ
  pub cap : ℕ
  pub idx : U64Set

abbrev pub no_ints : IntSet
no_ints = record { items = []; cap = 0; idx = no_keys }

abbrev pub obs_key : ℕ → ℕ
obs_key val = val + 1

unfoldable pub int_set_contains : IntSet → ℕ → Option Bool
unfolding u64_set_contains
int_set_contains s val = u64_set_contains s.idx (obs_key val)

-- The growth of the array; `none` is a failed `realloc`.
unfoldable pub int_set_room : Mem → IntSet → Option IntSet
int_set_room mem s =
    let new_cap = if s.cap == 0 then 8 else s.cap * 2 in
    if ltb (length s.items) s.cap
    then some s
    else if mem.realloc_ok (new_cap * 4)
    then some (record s { cap = new_cap })
    else none

unfoldable pub int_set_add : Mem → IntSet → ℕ → Option (Ret × IntSet)
unfolding int_set_contains int_set_room u64_set_add
int_set_add mem s val = int_set_contains s val >>= λ present.
    if present then some (ret 0, s) else elim (int_set_room mem s) [
      | none ↦ some (err, s)
      | some roomy ↦ u64_set_add mem roomy.idx (obs_key val) >>= λ (rc, idx). some (elim rc [
        | err ↦ (err, record roomy { idx = idx })
        | ret n ↦
            if n == 1
            then (ret 1, record roomy { items = roomy.items ++ val ∷ []; idx = idx })
            else (err, record roomy { idx = idx })
      ])
    ]
