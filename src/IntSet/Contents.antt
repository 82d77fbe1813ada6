-- ===== src/IntSet/Contents.antt =====
-- What the sets of zig/src/index.zig contain after an addition that memory allows.
use datalog_dafsa.Base.{
  ℕ, ◌+◌, ◌*◌, ◌≤◌, ◌<◌, ◌≡◌, ◌≢◌, refl, ap, ◌∙◌, Bool, true, false, ◌||◌, some, List, [], ◌∷◌,
  ◌++◌, if◌then◌else◌, ◌==◌, leb, ltb, length, ret, Mem, arith, ==_refl, ==_ne, inl, inr, ◌⊎◌,
  Bool-cases, or_none,
}
use native.Mathlib.Decide.{ℕ_discrete}
use datalog_dafsa.Probe.{occupied, double_pow}
use datalog_dafsa.KeySet.Cells.{holds, IsTable, has_key_lem, add_key_lem, found_key}
use datalog_dafsa.KeySet.Rehash.{grown}
use datalog_dafsa.IntSet.{
  U64Set, u64_set_hash, u64_set_grow, u64_set_contains, u64_set_put, u64_set_add, no_keys, IntSet,
  int_set_room, int_set_add, int_set_contains, no_ints, is_seen,
}

-- Memory that refuses no request.
pub record IsAmple (mem : Mem) : Type 0 where
  pub mallocs : (n : ℕ) → mem.malloc_ok n ≡ true
  pub callocs : (n : ℕ) → mem.calloc_ok n ≡ true
  pub reallocs : (n : ℕ) → mem.realloc_ok n ≡ true

-- A set whose table is missing, or finds its keys and has an empty cell.
pub record IsKeys (s : U64Set) : Type 0 where
  pub fill : occupied s.slots ≤ s.count
  pub form :
      ((s.cap ≡ 0) × (s.count ≡ 0) × (s.slots ≡ []))
      ⊎ (IsTable u64_set_hash s.slots s.cap × (64 ≤ s.cap) × (s.count < s.cap))

no_keys-IsKeys : IsKeys no_keys
no_keys-IsKeys = record { fill = omega arith; form = inl (refl, refl, refl) }

contains_keys :
    (s : U64Set) (k : ℕ) → IsKeys s → k ≢ 0 → u64_set_contains s k ≡ some (holds s.slots k)
unfolding u64_set_contains holds
contains_keys s k v nz = elim v.form [
  | inl (no_cap, no_count, no_slots) ↦ rw (no_cap, no_slots) refl
  | inr (table, wide, room) ↦ rw (==_ne s.cap 0 (omega (arith, wide))) (
      has_key_lem u64_set_hash s.slots s.cap k table (omega (arith, wide))
        (omega (arith, v.fill, room)) nz)
]

-- What an addition of a key leaves.
abbrev KeyAdded : U64Set → ℕ → U64Set → Type 0
KeyAdded s k s' = IsKeys s' × ((x : ℕ) → x ≢ 0 → holds s'.slots x ≡ ((x == k) || holds s.slots x))

put_keys :
    (s : U64Set) (k : ℕ)
    → IsTable u64_set_hash s.slots s.cap
    → 64 ≤ s.cap
    → occupied s.slots ≤ s.count
    → s.count + 1 < s.cap
    → k ≢ 0
    → (s' : U64Set) × (u64_set_put s k ≡ some (ret (if holds s.slots k then 0 else 1), s'))
      × KeyAdded s k s'
unfolding u64_set_put
put_keys s k table wide fill room nz =
    let (fresh, slots, run, added) =
      add_key_lem u64_set_hash s.slots s.cap k table (omega arith) (omega arith) nz in
    elim (Bool-cases (holds s.slots k)) [
      | inl held ↦
          let old : fresh ≡ false = rw held at added.is_new in
          (
            s,
            rw (run, old, held) refl,
            (
              record { fill = fill; form = inr (table, wide, omega arith) },
              λ x _. found_key u64_set_hash s.slots k x held,
            ),
          )
      | inr missing ↦
          let is_new : fresh ≡ true = rw missing at added.is_new in
          (
            record s { slots = slots; count = s.count + 1 },
            rw (run, is_new, missing) refl,
            (
              record {
                fill = ground (arith, added.fill, is_new);
                form = inr (added.table, wide, room);
              },
              added.keys,
            ),
          )
    ]

grow_keys :
    (mem : Mem) (s : U64Set)
    → IsAmple mem
    → IsKeys s
    → (s' : U64Set) × (u64_set_grow mem s ≡ some (ret 0, s'))
      × IsTable u64_set_hash s'.slots s'.cap
      × (64 ≤ s'.cap)
      × (occupied s'.slots ≤ s.count)
      × (s'.count ≡ s.count)
      × (s.count + 1 < s'.cap)
      × ((x : ℕ) → x ≢ 0 → holds s'.slots x ≡ holds s.slots x)
unfolding u64_set_grow
grow_keys mem s ample v = elim v.form [
  | inl (no_cap, no_count, no_slots) ↦
      let (final, run, table, same, fill) =
        grown u64_set_hash s.slots 64 (6, refl) (omega (arith, v.fill, no_count)) in
      (
        record s { slots = final; cap = 64 },
        rw (no_cap, ample.callocs 512, run) refl,
        table,
        omega arith,
        omega (arith, fill, v.fill),
        refl,
        omega (arith, no_count),
        same,
      )
  | inr (table, wide, room) ↦
      let (final, run, table', same, fill) =
        grown u64_set_hash s.slots (s.cap * 2) (double_pow s.cap table.pow)
          (omega (arith, v.fill, room)) in
      (
        record s { slots = final; cap = s.cap * 2 },
        rw (==_ne s.cap 0 (omega (arith, wide)), ample.callocs (s.cap * 2 * 8), run) refl,
        table',
        omega (arith, wide),
        omega (arith, fill, v.fill),
        refl,
        omega (arith, room, wide),
        same,
      )
]

add_keys :
    (mem : Mem) (s : U64Set) (k : ℕ)
    → IsAmple mem
    → IsKeys s
    → k ≢ 0
    → (s' : U64Set) × (u64_set_add mem s k ≡ some (ret (if holds s.slots k then 0 else 1), s'))
      × KeyAdded s k s'
unfolding u64_set_add
add_keys mem s k ample v nz =
    elim (Bool-cases ((s.cap == 0) || leb (s.cap * 3) ((s.count + 1) * 4))) [
      | inl full ↦
          let (s', run, table, wide, fill, count, room, same) = grow_keys mem s ample v in
          let (s'', put, (v'', keys)) =
            put_keys s' k table wide (omega (arith, fill, count)) (omega (arith, count, room)) nz in
          (
            s'',
            rw (==_ne k 0 nz, full, run)
                (put ∙ ap (λ (b : Bool). some (ret (if b then 0 else 1), s'')) (same k nz)),
            (v'', λ x x_nz. keys x x_nz ∙ ap (◌||◌ (x == k)) (same x x_nz)),
          )
      | inr roomy ↦ elim v.form [
        | inl (no_cap, no_count, no_slots) ↦ absurd (ground (arith, roomy, no_cap))
        | inr (table, wide, room) ↦
            let (s', put, added) = put_keys s k table wide v.fill (ground (arith, roomy)) nz in
            (s', rw (==_ne k 0 nz, roomy) put, added)
      ]
    ]

-- How often a number is in a list.
abbrev pub occurs : List ℕ → ℕ → ℕ
occurs [] v = 0
occurs (t ∷ seen) v = (if t == v then 1 else 0) + occurs seen v

-- The items are distinct, and the index has the same ones.
pub record IsIntSet (s : IntSet) : Type 0 where
  pub keys : IsKeys s.idx
  pub same : (v : ℕ) → holds s.idx.slots (v + 1) ≡ is_seen s.items v
  pub once : (v : ℕ) → occurs s.items v ≡ (if is_seen s.items v then 1 else 0)

pub no_ints-IsIntSet : IsIntSet no_ints
unfolding holds is_seen
no_ints-IsIntSet = record { keys = no_keys-IsKeys; same = λ v. refl; once = λ v. refl }

pub int_set_contains_lem :
    (s : IntSet) (v : ℕ) → IsIntSet s → int_set_contains s v ≡ some (is_seen s.items v)
unfolding int_set_contains
int_set_contains_lem s v set =
    contains_keys s.idx (v + 1) set.keys (omega arith) ∙ ap some (set.same v)

pub is_seen-append : (xs : List ℕ) (t v : ℕ) → is_seen (xs ++ t ∷ []) v ≡ (is_seen xs v || (t == v))
unfolding is_seen
is_seen-append [] t v = or_none (t == v)
is_seen-append (x ∷ xs) t v = ground (arith, is_seen-append xs t v)

occurs-append :
    (xs : List ℕ) (t v : ℕ) → occurs (xs ++ t ∷ []) v ≡ occurs xs v + (if t == v then 1 else 0)
occurs-append [] t v = omega arith
occurs-append (x ∷ xs) t v = omega (arith, occurs-append xs t v)

-- The items after an addition.
abbrev pub with_item : List ℕ → ℕ → List ℕ
with_item items v = if is_seen items v then items else items ++ v ∷ []

room_lem :
    (mem : Mem) (s : IntSet)
    → IsAmple mem
    → (width : ℕ) × (int_set_room mem s ≡ some (record s { cap = width }))
unfolding int_set_room
room_lem mem s ample = elim (Bool-cases (ltb (length s.items) s.cap)) [
  | inl roomy ↦ (s.cap, rw roomy refl)
  | inr full ↦ (
    (if s.cap == 0 then 8 else s.cap * 2),
    rw (full, ample.reallocs ((if s.cap == 0 then 8 else s.cap * 2) * 4)) refl,
  )
]

-- Where memory refuses nothing, `int_set_add` ends, and adds an id that is new behind the others.
pub int_set_add_lem :
    (mem : Mem) (s : IntSet) (v : ℕ)
    → IsAmple mem
    → IsIntSet s
    → (s' : IntSet) × (int_set_add mem s v ≡ some (ret (if is_seen s.items v then 0 else 1), s'))
      × IsIntSet s'
      × (s'.items ≡ with_item s.items v)
unfolding int_set_add
int_set_add_lem mem s v ample set = elim (Bool-cases (is_seen s.items v)) [
  | inl here ↦ (s, rw (int_set_contains_lem s v set, here) refl, set, rw here refl)
  | inr missing ↦
      let (width, room) = room_lem mem s ample in
      let (idx, run, (keys, more)) = add_keys mem s.idx (v + 1) ample set.keys (omega arith) in
      let is_new : holds s.idx.slots (v + 1) ≡ false = set.same v ∙ missing in
      (
        record s { items = s.items ++ v ∷ []; cap = width; idx = idx },
        rw (int_set_contains_lem s v set, missing, room) (rw (run, is_new) refl),
        record {
          keys = keys;
          same = λ x.
              more (x + 1) (omega arith)
              ∙ rw (set.same x, is_seen-append s.items v x) (ground arith);
          once = λ x. occurs-append s.items v x ∙ once_stage x missing (set.once x);
        },
        rw missing refl,
      )
]
  where
    once_stage :
        (x : ℕ)
        → is_seen s.items v ≡ false
        → occurs s.items x ≡ (if is_seen s.items x then 1 else 0)
        → occurs s.items x + (if v == x then 1 else 0)
          ≡ (if is_seen (s.items ++ v ∷ []) x then 1 else 0)
    once_stage x missing once = elim (ℕ_discrete v x) [
      | yes same ↦
          let unseen : is_seen s.items x ≡ false = rw same at missing in
          rw (once, is_seen-append s.items v x, unseen, same, ==_refl x) refl
      | no apart ↦
          rw (once, is_seen-append s.items v x, ==_ne v x apart, or_none (is_seen s.items x))
            (omega arith)
    ]
