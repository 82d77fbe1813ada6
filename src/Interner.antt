-- ===== src/Interner.antt =====
-- The interner of zig/src/intern.zig (and src/intern.h): strings and their numbers, from 1 on. The
-- array `rev` is the source of truth, and a DAFSA of keys is a cache of it. A string is the list of
-- its bytes before the terminating zero. The DAFSA library is a parameter; `first_payload` is what
-- `dafsa_prefix_enum` gives to a callback that stops at once. The files and the content stamp are
-- left out.
pub mod Keyed
pub mod Valid
pub mod Added
pub mod Assigned
pub mod Numbers
pub mod RoundTrip
pub mod Created
pub mod Rebuilt
pub mod Handle
use datalog_dafsa.Base.{
  ℕ, zero, suc, ◌+◌, ◌-◌, ◌*◌, ◌/◌, ◌%◌, ◌^◌, Bool, true, false, not, ◌&&◌, ◌||◌, Option, none,
  some, List, [], ◌∷◌, ◌++◌, if◌then◌else◌, ◌==◌, leb, ltb, length, get_or, set, replicate,
  words_eq, Ret, err, ret, Mem,
}
use datalog_dafsa.TupleSet.{◌>>=◌}
use datalog_dafsa.TxnWal.{Bytes}
use datalog_dafsa.Relation.{Key, Dafsa, be32, is_ok}

abbrev pub intern_rev_init_cap : ℕ
intern_rev_init_cap = 256

abbrev pub max_word_len : ℕ
max_word_len = 65536

-- `rev` has `rev_cap` slots, `none` for a null pointer.
pub record Interner (D : Type 0) : Type 0 where
  pub fwd : Option D
  pub rev : List (Option Bytes)
  pub next_id : ℕ
  pub dirty : Bool
  pub fwd_ro : Bool
  pub fwd_gen : ℕ

-- `captureCB`: the number in a payload, if it has four bytes.
unfoldable pub capture : Key → ℕ
capture payload =
    if ltb (length payload) 4
    then 0
    else get_or payload 0 0 * 2 ^ 24
      + get_or payload 1 0 * 2 ^ 16
      + get_or payload 2 0 * 2 ^ 8
      + get_or payload 3 0

-- `fillKey`.
abbrev pub fill_key : Bytes → ℕ → Key
fill_key str id = str ++ 0 ∷ be32 id

-- The scan of the array: `n` slots from index `i` on.
unfoldable pub scan_rev : List (Option Bytes) → ℕ → ℕ → Bytes → ℕ
scan_rev [] i n str = 0
scan_rev (slot ∷ rev) i zero str = 0
scan_rev (slot ∷ rev) i (suc n) str =
    let later = scan_rev rev (i + 1) n str in
    elim slot [ none ↦ later | some s ↦ if words_eq s str then i + 1 else later ]

-- The growth of the array for a new number; `none` is a failed `realloc`.
unfoldable pub grow_rev : Mem → List (Option Bytes) → ℕ → Option (List (Option Bytes))
grow_rev mem rev id =
    let doubled = length rev * 2 % 2 ^ 32 in
    let new_cap = if ltb doubled id then id * 2 % 2 ^ 32 else doubled in
    if ltb (length rev) id
    then if mem.realloc_ok (new_cap * 8)
      then some (rev ++ replicate (new_cap - length rev) none)
      else none
    else some rev

module _ {D S : Type 0} (lib : Dafsa D S) (first_payload : D → Bytes → Option Key) where
  unfoldable pub intern_create : Mem → ℕ → Option (Interner D)
  intern_create mem struct_size =
      if mem.calloc_ok struct_size
      then (lib.create >>= λ d.
          if mem.calloc_ok (intern_rev_init_cap * 8)
          then some (record {
            fwd = some d;
            rev = replicate intern_rev_init_cap none;
            next_id = 1;
            dirty = false;
            fwd_ro = false;
            fwd_gen = 0;
          })
          else none)
      else none

  -- The loop of `ensureFwd` over the slots from index `i` on.
  unfoldable pub build_fwd : Mem → List (Option Bytes) → ℕ → ℕ → D → Option D
  unfolding is_ok
  build_fwd mem [] i n d = some d
  build_fwd mem (slot ∷ rev) i zero d = some d
  build_fwd mem (slot ∷ rev) i (suc n) d = elim slot [
    | none ↦ build_fwd mem rev (i + 1) n d
    | some s ↦
        let (rc, d') = lib.add_n d (fill_key s (i + 1)) in
        let rest = build_fwd mem rev (i + 1) n d' in
        let skip = build_fwd mem rev (i + 1) n d in
        if ltb max_word_len (length s + 5)
        then skip
        else if not (mem.malloc_ok (length s + 5))
        then none
        else if is_ok rc
        then rest
        else none
  ]

  unfoldable pub ensure_fwd : Mem → Interner D → Bool → Ret × Interner D
  unfolding build_fwd
  ensure_fwd mem ir want_mutable =
      let rebuilt = lib.create >>= λ d. build_fwd mem ir.rev 0 (ir.next_id - 1) d in
      let built : Ret × Interner D = elim rebuilt [
        | none ↦ (err, record ir { fwd = none })
        | some d ↦
            (ret 0, record ir { fwd = some d; fwd_ro = not want_mutable; fwd_gen = ir.next_id })
      ] in
      elim ir.fwd [
        | none ↦ built
        | some d ↦
            if (not want_mutable || not ir.fwd_ro) && (ir.fwd_gen == ir.next_id)
            then (ret 0, ir)
            else built
      ]

  unfoldable pub intern_fwd : Mem → Interner D → Option D × Interner D
  unfolding ensure_fwd is_ok
  intern_fwd mem ir =
      let (rc, ir') = ensure_fwd mem ir false in (if is_ok rc then ir'.fwd else none, ir')

  unfoldable pub intern_fwd_mutable : Mem → Interner D → Option D × Interner D
  unfolding ensure_fwd is_ok
  intern_fwd_mutable mem ir =
      let (rc, ir') = ensure_fwd mem ir true in (if is_ok rc then ir'.fwd else none, ir')

  -- `lookup`.
  unfoldable pub intern_str_find : Interner D → Bytes → ℕ
  unfolding scan_rev capture
  intern_str_find ir str =
      let scanned = scan_rev ir.rev 0 (ir.next_id - 1) str in
      elim ir.fwd [
        | none ↦ scanned
        | some d ↦
            let walked : ℕ = elim (first_payload d str) [
              | none ↦ 0
              | some payload ↦ capture payload
            ] in
            if ir.fwd_gen == ir.next_id then walked else scanned
      ]

  -- The cache once a string has a new number.
  unfoldable pub grow_fwd : Mem → Interner D → Bytes → ℕ → Interner D
  unfolding is_ok
  grow_fwd mem ir str id = elim ir.fwd [
    | none ↦ ir
    | some d ↦
        let (rc, d') = lib.add_n d (fill_key str id) in
        if not ir.fwd_ro && (ir.fwd_gen == id)
        then if mem.malloc_ok (length str + 5) && is_ok rc
          then record ir { fwd = some d'; fwd_gen = ir.next_id }
          else record ir { fwd = none }
        else record ir { fwd = none }
  ]

  -- `intern_str` for a string without a number.
  unfoldable pub intern_new : Mem → Interner D → Bytes → ℕ × Interner D
  unfolding grow_rev grow_fwd
  intern_new mem ir str =
      let id = ir.next_id in
      let taken : Interner D = record ir { dirty = true; next_id = (id + 1) % 2 ^ 32 } in
      if ltb max_word_len (length str + 5)
      then (0, record ir { dirty = true })
      else elim (grow_rev mem ir.rev id) [
        | none ↦ (0, taken)
        | some rev ↦
            if mem.malloc_ok (length str + 1)
            then (id, grow_fwd mem (record taken { rev = set rev (id - 1) (some str) }) str id)
            else (0, record taken { rev = set rev (id - 1) none })
      ]

  unfoldable pub intern_str : Mem → Interner D → Bytes → ℕ × Interner D
  unfolding intern_str_find intern_new
  intern_str mem ir str =
      let found = intern_str_find ir str in
      if found == 0 then intern_new mem ir str else (found, ir)

module _ {D : Type 0} where
  unfoldable pub intern_str_of : Interner D → ℕ → Option Bytes
  intern_str_of ir sym_id =
      if (sym_id == 0) || (leb ir.next_id sym_id || ltb (length ir.rev) sym_id)
      then none
      else get_or ir.rev (sym_id - 1) none

  abbrev pub intern_is_dirty : Interner D → ℕ
  intern_is_dirty ir = if ir.dirty then 1 else 0

  abbrev pub intern_clear_dirty : Interner D → Interner D
  intern_clear_dirty ir = record ir { dirty = false }
