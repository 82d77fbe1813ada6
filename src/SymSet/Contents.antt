-- ===== src/SymSet/Contents.antt =====
-- The members of a `sym_set` of zig/src/regexwalk.zig, and what `symset_add` does to them.
use datalog_dafsa.Base.{
  ℕ, ◌+◌, ◌*◌, ◌≤◌, ◌<◌, ◌≡◌, ◌≢◌, refl, sym, ap, ◌∙◌, Bool, false, not, ◌&&◌, ◌||◌, Option, none,
  some, List, if◌then◌else◌, ◌==◌, leb, Ret, err, ret, Mem, arith, ==_ne, inl, inr, ◌⊎◌, Bool-cases,
  subst,
}
use native.Mathlib.Decide.{ℕ_discrete}
use datalog_dafsa.Probe.{occupied, double_pow}
use datalog_dafsa.KeySet.Cells.{holds, IsTable, has_key_lem, add_key_lem}
use datalog_dafsa.KeySet.Rehash.{grown}
use datalog_dafsa.SymSet.{SymSet, symset_hash, symset_grow, symset_put, symset_add, symset_contains}

-- A set whose table finds its keys and has an empty cell.
pub record IsValid (s : SymSet) : Type 0 where
  pub cells : List ℕ
  pub keys : s.keys ≡ some cells
  pub table : IsTable symset_hash cells s.cap
  pub wide : 64 ≤ s.cap
  pub fill : occupied cells ≤ s.used
  pub room : s.used < s.cap

-- The members, independently of the probing.
abbrev pub is_member : SymSet → ℕ → Bool
is_member s k = elim s.keys [ none ↦ false | some cells ↦ not (k == 0) && holds cells k ]

pub symset_contains_lem :
    (s : SymSet) (k : ℕ) → IsValid s → symset_contains s k ≡ some (is_member s k)
unfolding symset_contains
symset_contains_lem s k v = elim (ℕ_discrete k 0) [
  | yes zeroth ↦ rw (zeroth, v.keys) refl
  | no other ↦
      rw (==_ne k 0 other, v.keys)
        (has_key_lem symset_hash v.cells s.cap k v.table (omega (arith, v.wide))
            (omega (arith, v.fill, v.room)) other
          ∙ ap some (within other))
]
  where
    within : (nz : k ≢ 0) → holds v.cells k ≡ (not (k == 0) && holds v.cells k)
    within nz = rw (==_ne k 0 nz) refl

-- What an addition came to, as a search for `x` sees it.
abbrev pub SymAdded : SymSet → ℕ → ℕ → Ret → SymSet → Type 0
SymAdded s k x err s' = s' ≡ s
SymAdded s k x (ret n) s' =
    (n ≡ 0)
    × (b : Bool) × (symset_contains s x ≡ some b)
    × (symset_contains s' x ≡ some ((not (x == 0) && (x == k)) || b))

put_stage :
    (cells : List ℕ) (cap used k x : ℕ)
    → IsTable symset_hash cells cap
    → 64 ≤ cap
    → occupied cells ≤ used
    → used + 1 < cap
    → k ≢ 0
    → let s : SymSet = record { keys = some cells; cap = cap; used = used } in
      (s' : SymSet) × (symset_put s k ≡ some (ret 0, s'))
      × IsValid s'
      × (is_member s' x ≡ ((not (x == 0) && (x == k)) || is_member s x))
unfolding symset_put
put_stage cells cap used k x table wide fill room nz =
    let (fresh, cells', run, added) =
      add_key_lem symset_hash cells cap k table (omega arith) (omega arith) nz in
    (
      record { keys = some cells'; cap = cap; used = if fresh then used + 1 else used },
      rw run refl,
      record {
        cells = cells';
        keys = refl;
        table = added.table;
        wide = wide;
        fill = ground (arith, added.fill);
        room = ground arith;
      },
      elim (ℕ_discrete x 0) [
        | yes zeroth ↦ rw zeroth refl
        | no other ↦ rw (==_ne x 0 other) (added.keys x other)
      ],
    )

put_lem :
    (s : SymSet) (k x : ℕ)
    → IsValid s
    → s.used + 1 < s.cap
    → k ≢ 0
    → (s' : SymSet) × (symset_put s k ≡ some (ret 0, s'))
      × IsValid s'
      × (is_member s' x ≡ ((not (x == 0) && (x == k)) || is_member s x))
put_lem s k x v space nz =
    subst
      (λ (keys : Option (List ℕ)).
        (s' : SymSet) × (symset_put (record s { keys = keys }) k ≡ some (ret 0, s'))
        × IsValid s'
        × (is_member s' x ≡ ((not (x == 0) && (x == k)) || is_member (record s { keys = keys }) x)))
      (sym v.keys) (put_stage v.cells s.cap s.used k x v.table v.wide v.fill space nz)

-- The growth doubles the table and keeps the members, or is refused.
grow_lem :
    (mem : Mem) (s : SymSet)
    → IsValid s
    → (symset_grow mem s ≡ some (err, s))
      ⊎ ((s' : SymSet) × (symset_grow mem s ≡ some (ret 0, s'))
          × IsValid s'
          × (s'.used ≡ s.used)
          × (s'.cap ≡ s.cap * 2)
          × ((x : ℕ) → is_member s' x ≡ is_member s x))
unfolding symset_grow
grow_lem mem s v = elim (Bool-cases (mem.calloc_ok (s.cap * 2 * 4))) [
  | inr refused ↦ inl (rw (v.keys, refused) refl)
  | inl granted ↦
      let (final, run, table, same, fill) =
        grown symset_hash v.cells (s.cap * 2) (double_pow s.cap v.table.pow)
          (omega (arith, v.fill, v.room)) in
      inr (
        record s { keys = some final; cap = s.cap * 2 },
        rw (v.keys, granted, run) refl,
        record {
          cells = final;
          keys = refl;
          table = table;
          wide = omega (arith, v.wide);
          fill = omega (arith, fill, v.fill);
          room = omega (arith, v.room, v.wide);
        },
        refl,
        refl,
        λ x. elim (ℕ_discrete x 0) [
          | yes zeroth ↦ rw (zeroth, v.keys) refl
          | no other ↦ rw (v.keys, same x other) refl
        ],
      )
]

-- On a valid set `symset_add` ends and leaves a valid set. It fails only with the set as it was, or it
-- returns 0 and `symset_contains` then finds the added id, unless it is 0, and what it found before.
pub symset_add_lem :
    (mem : Mem) (s : SymSet) (k x : ℕ)
    → IsValid s
    → (rc : Ret) × (s' : SymSet) × (symset_add mem s k ≡ some (rc, s'))
      × IsValid s'
      × SymAdded s k x rc s'
unfolding symset_add
symset_add_lem mem s k x v = elim (ℕ_discrete k 0) [
  | yes zeroth ↦ (
    ret 0,
    s,
    rw zeroth refl,
    v,
    (
      refl,
      is_member s x,
      symset_contains_lem s x v,
      symset_contains_lem s x v ∙ ap some (ground (arith, zeroth)),
    ),
  )
  | no other ↦ elim (Bool-cases (leb (s.cap * 3) (s.used * 4))) [
    | inr roomy ↦
        let (s', run, v', members) = put_lem s k x v (ground (arith, roomy, v.wide)) other in
        (
          ret 0,
          s',
          rw (==_ne k 0 other, roomy) run,
          v',
          (
            refl,
            is_member s x,
            symset_contains_lem s x v,
            symset_contains_lem s' x v' ∙ ap some members,
          ),
        )
    | inl full ↦ elim (grow_lem mem s v) [
      | inl refused ↦ (err, s, rw (==_ne k 0 other, full, refused) refl, v, refl)
      | inr (s', run, v', used, width, same) ↦
          let (s'', put, v'', members) =
            put_lem s' k x v' (omega (arith, used, width, v.room, v.wide)) other in
          (
            ret 0,
            s'',
            rw (==_ne k 0 other, full, run) put,
            v'',
            (
              refl,
              is_member s x,
              symset_contains_lem s x v,
              symset_contains_lem s'' x v'' ∙ ap some (rw (same x) at members),
            ),
          )
    ]
  ]
]
