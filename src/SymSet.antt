-- ===== src/SymSet.antt =====
-- The set of symbol ids `sym_set` of zig/src/regexwalk.zig (and src/regexwalk.h): an open-addressing
-- table that holds no 0. The counts stay in the range of a c_int.
pub mod Contents
pub mod Filter
use datalog_dafsa.Base.{
  ℕ, ◌+◌, ◌*◌, ◌/◌, ◌%◌, ◌^◌, bit_and, bit_xor, Bool, true, false, not, Option, none, some, List,
  if◌then◌else◌, ◌==◌, leb, replicate, Ret, err, ret, Mem,
}
use datalog_dafsa.TupleSet.{◌>>=◌}
use datalog_dafsa.KeySet.{has_key, add_key, rehash_keys}

abbrev pub symset_init_cap : ℕ
symset_init_cap = 64

-- `h ^= b; h *%= 16777619`.
unfoldable pub symset_byte : ℕ → ℕ → ℕ
symset_byte h b = bit_xor h (bit_and b 0xFF) * 16777619 % 2 ^ 32

unfoldable pub symset_hash : ℕ → ℕ
unfolding symset_byte
symset_hash k =
    let h₀ = symset_byte 2166136261 (k / 2 ^ 24) in
    let h₁ = symset_byte h₀ (k / 2 ^ 16) in let h₂ = symset_byte h₁ (k / 2 ^ 8) in symset_byte h₂ k

-- `keys` is none for the null pointer.
pub record SymSet : Type 0 where
  pub keys : Option (List ℕ)
  pub cap : ℕ
  pub used : ℕ

unfoldable pub symset_init : Mem → Ret × SymSet
symset_init mem =
    if mem.calloc_ok (symset_init_cap * 4)
    then (
      ret 0,
      record { keys = some (replicate symset_init_cap 0); cap = symset_init_cap; used = 0 },
    )
    else (err, record { keys = none; cap = symset_init_cap; used = 0 })

unfoldable pub symset_free : SymSet → SymSet
symset_free s = record { keys = none; cap = 0; used = 0 }

-- `symsetGrow`. `none`, here and below, is a loop that does not end or a null pointer that is read.
unfoldable pub symset_grow : Mem → SymSet → Option (Ret × SymSet)
unfolding rehash_keys
symset_grow mem s = elim s.keys [
  | none ↦ none
  | some old ↦
      let new_cap = s.cap * 2 in
      let moved = rehash_keys symset_hash old new_cap (replicate new_cap 0) in
      if mem.calloc_ok (new_cap * 4)
      then (moved >>= λ fresh. some (ret 0, record s { keys = some fresh; cap = new_cap }))
      else some (err, s)
]

-- The probing loop of `symset_add` and its write.
unfoldable pub symset_put : SymSet → ℕ → Option (Ret × SymSet)
unfolding add_key
symset_put s sym_id = elim s.keys [
  | none ↦ none
  | some cells ↦ add_key symset_hash cells s.cap sym_id >>= λ (fresh, cells').
      some (ret 0, record s { keys = some cells'; used = if fresh then s.used + 1 else s.used })
]

unfoldable pub symset_add : Mem → SymSet → ℕ → Option (Ret × SymSet)
unfolding symset_grow symset_put
symset_add mem s sym_id =
    if sym_id == 0
    then some (ret 0, s)
    else if leb (s.cap * 3) (s.used * 4)
    then (symset_grow mem s >>= λ (rc, s'). elim rc [
      | err ↦ some (err, s')
      | ret n ↦ symset_put s' sym_id
    ])
    else symset_put s sym_id

unfoldable pub symset_contains : SymSet → ℕ → Option Bool
unfolding has_key
symset_contains s sym_id =
    if sym_id == 0
    then some false
    else elim s.keys [ none ↦ some false | some cells ↦ has_key symset_hash cells s.cap sym_id ]
