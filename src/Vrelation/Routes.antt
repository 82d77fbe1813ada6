-- ===== src/Vrelation/Routes.antt =====
-- Reads and writes of a relation table by arity: the variants of zig/src/vrelation.zig and the
-- entries of zig/src/dl.zig.
use native.Mathlib.Decide.{ℕ_discrete}
use datalog_dafsa.Base.{
  ℕ, ◌-◌, ◌≤◌, ◌<◌, ◌≡◌, refl, true, false, Option, none, some, if◌then◌else◌, ◌==◌, ltb, length,
  get_or, set, Ret, err, ret, arith, Bool-cases, inl, inr, get_or-set_self, get_or-set_ne, ◌||◌,
  ◌⊎◌, ==_refl, ==_ne,
}
use datalog_dafsa.Relation.{Dafsa, Relation, rel_create}
use datalog_dafsa.Vrelation.{
  Vrelation, max_var_arity, vrel_variant_or_null, vrel_variant, vrel_attach, RelEntry, fixed,
  variadic, db_entry_variant_ro, db_entry_variant_rw,
}

module _ {D : Type 0} where
  -- What `vrel_attach` and a creating `vrel_variant` leave: `r` at its arity, the rest as before.
  abbrev pub IsInstalled : Vrelation D → ℕ → Relation D → ℕ → Vrelation D → Type 0
  IsInstalled v arity r b v' =
      vrel_variant_or_null v' b ≡ (if b == arity then some r else vrel_variant_or_null v b)

  installed :
      (v : Vrelation D) (arity b : ℕ) (r : Relation D)
      → length v.variants ≡ max_var_arity
      → 0 < arity
      → arity ≤ 8
      → IsInstalled v arity r b (record v { variants = set v.variants (arity - 1) (some r) })
  unfolding vrel_variant_or_null
  installed v arity b r len low high = elim (ℕ_discrete b arity) [
    | yes same ↦
        let here = get_or-set_self v.variants (arity - 1) (some r) none (omega arith) in
        rw same (ground (arith, here))
    | no other ↦ elim (ℕ_discrete b 0) [
      | yes zeroth ↦ rw zeroth (ground arith)
      | no later ↦
          let kept =
            get_or-set_ne v.variants (arity - 1) (b - 1) (some r) none (λ e. other (omega arith)) in
          ground (arith, kept)
    ]
  ]

  kept :
      (v : Vrelation D) (arity b : ℕ) (r : Relation D)
      → vrel_variant_or_null v arity ≡ some r
      → IsInstalled v arity r b v
  kept v arity b r held = elim (ℕ_discrete b arity) [
    | yes same ↦ rw (same, ==_refl arity) held
    | no other ↦ rw (==_ne b arity other) refl
  ]

  -- The slots of a variadic entry.
  abbrev pub HasSlots : RelEntry D → Type 0
  HasSlots (fixed name arity rel) = Unit {0}
  HasSlots (variadic name vrel) = length vrel.variants ≡ max_var_arity

  -- What `vrel_attach` did, seen at the arity `b`.
  abbrev pub IsAttached : Vrelation D → ℕ → Relation D → ℕ → Ret → Vrelation D → Type 0
  IsAttached v arity r b err v' =
      (v' ≡ v)
      × ((arity ≡ 0)
          ⊎ (8 < arity)
          ⊎ ((old : Relation D) × (vrel_variant_or_null v arity ≡ some old)))
  IsAttached v arity r b (ret n) v' =
      (n ≡ 0) × (vrel_variant_or_null v arity ≡ none) × IsInstalled v arity r b v'

  attach_out :
      (v : Vrelation D) (arity b : ℕ) (r : Relation D)
      → ((arity == 0) || ltb max_var_arity arity) ≡ true
      → let (rc, v') = vrel_attach v arity r in IsAttached v arity r b rc v'
  unfolding vrel_attach
  attach_out v arity b r out = rw (out, vrel_attach) (refl, ground arith)

  attach_in :
      (v : Vrelation D) (arity b : ℕ) (r : Relation D) (slot : Option (Relation D))
      → length v.variants ≡ max_var_arity
      → ((arity == 0) || ltb max_var_arity arity) ≡ false
      → get_or v.variants (arity - 1) none ≡ slot
      → let (rc, v') = vrel_attach v arity r in IsAttached v arity r b rc v'
  unfolding vrel_attach vrel_variant_or_null
  attach_in v arity b r none len within vacant =
      rw (within, vacant, vrel_attach)
        (refl, rw (within, vacant) refl, installed v arity b r len (ground arith) (ground arith))
  attach_in v arity b r (some old) len within taken =
      rw (within, taken, vrel_attach) (refl, inr (inr (old, rw (within, taken) refl)))

  -- On a variadic relation with its eight slots, `vrel_attach` returns -1 and changes nothing for an
  -- arity out of range or one that has a variant; otherwise it returns 0, the arity reads as the
  -- attached relation and every other as before.
  pub vrel_attach_lem :
      (v : Vrelation D) (arity b : ℕ) (r : Relation D)
      → length v.variants ≡ max_var_arity
      → let (rc, v') = vrel_attach v arity r in IsAttached v arity r b rc v'
  vrel_attach_lem v arity b r len = elim (Bool-cases ((arity == 0) || ltb max_var_arity arity)) [
    | inl out ↦ attach_out v arity b r out
    | inr within ↦ attach_in v arity b r (get_or v.variants (arity - 1) none) len within refl
  ]

module _ {D S : Type 0} (lib : Dafsa D S) where
  -- What the get-or-create resolution did, seen at the arity `b`: no relation, and no change, or the
  -- relation that the arity had or a fresh one, which the arity reads as from then on.
  abbrev pub IsResolved : Vrelation D → ℕ → ℕ → Option (Relation D) → Vrelation D → Type 0
  IsResolved v arity b none v' = (v' ≡ v) × (vrel_variant_or_null v arity ≡ none)
  IsResolved v arity b (some r) v' =
      ((vrel_variant_or_null v arity ≡ some r) ⊎ (rel_create lib arity ≡ some r))
      × IsInstalled v arity r b v'

  variant_out :
      (v : Vrelation D) (arity b : ℕ)
      → ((arity == 0) || ltb max_var_arity arity) ≡ true
      → let (o, v') = vrel_variant lib v arity in IsResolved v arity b o v'
  unfolding vrel_variant vrel_variant_or_null
  variant_out v arity b out = rw (out, vrel_variant) (refl, rw out refl)

  variant_in :
      (v : Vrelation D) (arity b : ℕ) (slot made : Option (Relation D))
      → length v.variants ≡ max_var_arity
      → ((arity == 0) || ltb max_var_arity arity) ≡ false
      → get_or v.variants (arity - 1) none ≡ slot
      → rel_create lib arity ≡ made
      → let (o, v') = vrel_variant lib v arity in IsResolved v arity b o v'
  unfolding vrel_variant vrel_variant_or_null
  variant_in v arity b (some r) made len within found fresh =
      let held : vrel_variant_or_null v arity ≡ some r = rw (within, found) refl in
      rw (within, found, vrel_variant) (inl held, kept v arity b r held)
  variant_in v arity b none none len within vacant fresh =
      rw (within, vacant, fresh, vrel_variant) (refl, rw (within, vacant) refl)
  variant_in v arity b none (some r) len within vacant fresh =
      rw (within, vacant, fresh, vrel_variant)
        (inr fresh, installed v arity b r len (ground arith) (ground arith))

  -- On a variadic relation with its eight slots, `vrel_variant` gives the relation of the arity, or
  -- makes one where the arity is from 1 to 8 and has none; the arity reads as that relation from then
  -- on and every other as before. Where it gives none, nothing changes.
  pub vrel_variant_lem :
      (v : Vrelation D) (arity b : ℕ)
      → length v.variants ≡ max_var_arity
      → let (o, v') = vrel_variant lib v arity in IsResolved v arity b o v'
  vrel_variant_lem v arity b len = elim (Bool-cases ((arity == 0) || ltb max_var_arity arity)) [
    | inl out ↦ variant_out v arity b out
    | inr within ↦
        variant_in v arity b (get_or v.variants (arity - 1) none) (rel_create lib arity) len within
          refl refl
  ]

  resolved_read :
      (v v' : Vrelation D) (arity b : ℕ) (o : Option (Relation D))
      → IsResolved v arity b o v'
      → vrel_variant_or_null v' b ≡ (if b == arity then o else vrel_variant_or_null v b)
  resolved_read v v' arity b none (same, vacant) = elim (ℕ_discrete b arity) [
    | yes here ↦ rw (same, here, ==_refl arity) vacant
    | no other ↦ rw (same, ==_ne b arity other) refl
  ]
  resolved_read v v' arity b (some r) (source, installs) = installs

  -- For a relation entry, fixed or variadic with its eight slots, `db_entry_variant_ro` after
  -- `db_entry_variant_rw` of an arity gives what the latter gave, and at any other arity what it gave
  -- before.
  pub db_entry_variant_ro-db_entry_variant_rw :
      (e : RelEntry D) (arity b : ℕ)
      → HasSlots e
      → let (o, e') = db_entry_variant_rw lib e arity in
        db_entry_variant_ro e' b ≡ (if b == arity then o else db_entry_variant_ro e b)
  unfolding db_entry_variant_ro db_entry_variant_rw
  db_entry_variant_ro-db_entry_variant_rw (fixed name a rel) arity b slots =
      elim (ℕ_discrete b arity) [
        | yes here ↦ rw (here, ==_refl arity) refl
        | no other ↦ rw (==_ne b arity other) refl
      ]
  db_entry_variant_ro-db_entry_variant_rw (variadic name vrel) arity b slots =
      resolved_read vrel (vrel_variant lib vrel arity).1 arity b (vrel_variant lib vrel arity).0
        (vrel_variant_lem vrel arity b slots)
