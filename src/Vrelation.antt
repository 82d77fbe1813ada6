-- ===== src/Vrelation.antt =====
-- The variadic relation of zig/src/vrelation.zig (and src/vrelation.h): one relation for each arity
-- from 1 to 8, and the entries of the relation table of zig/src/dl.zig (and src/dl_internal.h) that
-- hold either one relation or a variadic one.
pub mod Routes
use datalog_dafsa.Base.{
  ℕ, zero, suc, ◌+◌, ◌-◌, Bool, true, false, not, ◌&&◌, ◌||◌, Option, none, some, List, [], ◌∷◌,
  if◌then◌else◌, ◌==◌, ltb, leb, length, get_or, set, replicate, Ret, err, ret,
}
use datalog_dafsa.TupleSet.{Row, ◌>>=◌}
use datalog_dafsa.Relation.{
  Dafsa, Relation, rel_create, rel_is_idb, rel_reset_view, rel_exact, rel_exact_base, words,
}
use datalog_dafsa.Relation.Reads.{EnumCb, rel_prefix, rel_prefix_base}

abbrev pub max_var_arity : ℕ
max_var_arity = 8

-- The slots of the arities 1 to 8.
pub record Vrelation (D : Type 0) : Type 0 where
  pub variants : List (Option (Relation D))

module _ {D : Type 0} where
  unfoldable pub vrel_create : Vrelation D
  vrel_create = record { variants = replicate max_var_arity none }

  unfoldable pub vrel_variant_or_null : Vrelation D → ℕ → Option (Relation D)
  vrel_variant_or_null v arity =
      if (arity == 0) || ltb max_var_arity arity then none else get_or v.variants (arity - 1) none

  unfoldable pub vrel_attach : Vrelation D → ℕ → Relation D → Ret × Vrelation D
  vrel_attach v arity r =
      if (arity == 0) || ltb max_var_arity arity
      then (err, v)
      else elim (get_or v.variants (arity - 1) none) [
        | none ↦ (ret 0, record v { variants = set v.variants (arity - 1) (some r) })
        | some old ↦ (err, v)
      ]

  -- The slots from arity `a` on, with the present variants given to the callback.
  unfoldable pub foreach_from :
      {A : Type 0} → (Relation D → ℕ → A → A) → List (Option (Relation D)) → ℕ → A → A
  foreach_from cb [] a acc = acc
  foreach_from cb (none ∷ slots) a acc = foreach_from cb slots (a + 1) acc
  foreach_from cb (some r ∷ slots) a acc = foreach_from cb slots (a + 1) (cb r a acc)

  unfoldable pub vrel_foreach : {A : Type 0} → Vrelation D → (Relation D → ℕ → A → A) → A → A
  unfolding foreach_from
  vrel_foreach v cb acc = foreach_from cb v.variants 1 acc

  unfoldable pub any_idb : List (Option (Relation D)) → Bool
  unfolding rel_is_idb
  any_idb [] = false
  any_idb (none ∷ slots) = any_idb slots
  any_idb (some r ∷ slots) = rel_is_idb r || any_idb slots

  unfoldable pub vrel_any_idb : Vrelation D → Bool
  unfolding any_idb
  vrel_any_idb v = any_idb v.variants

module _ {D S : Type 0} (lib : Dafsa D S) where
  -- `vrel_variant`: a missing variant is made.
  unfoldable pub vrel_variant : Vrelation D → ℕ → Option (Relation D) × Vrelation D
  unfolding rel_create
  vrel_variant v arity =
      if (arity == 0) || ltb max_var_arity arity
      then (none, v)
      else elim (get_or v.variants (arity - 1) none) [
        | some r ↦ (some r, v)
        | none ↦ elim (rel_create lib arity) [
          | none ↦ (none, v)
          | some r ↦ (some r, record v { variants = set v.variants (arity - 1) (some r) })
        ]
      ]

  -- The variants are reset in turn; the first failure ends the loop and earlier variants stay
  -- reset. `room` is how many rows of an arity the copy has memory for.
  unfoldable pub reset_slots :
      (ℕ → ℕ) → List (Option (Relation D)) → Ret × List (Option (Relation D))
  unfolding rel_reset_view
  reset_slots room [] = (ret 0, [])
  reset_slots room (none ∷ slots) = let (rc, slots') = reset_slots room slots in (rc, none ∷ slots')
  reset_slots room (some r ∷ slots) =
      let (rc, r') = rel_reset_view lib (room r.arity) r in
      let (later, slots') = reset_slots room slots in
      elim rc [ err ↦ (err, some r' ∷ slots) | ret n ↦ (later, some r' ∷ slots') ]

  unfoldable pub vrel_reset_views : (ℕ → ℕ) → Vrelation D → Ret × Vrelation D
  unfolding reset_slots
  vrel_reset_views room v =
      let (rc, slots) = reset_slots room v.variants in (rc, record v { variants = slots })

  unfoldable pub vrel_exact : Vrelation D → Row → ℕ → Bool
  unfolding vrel_variant_or_null rel_exact
  vrel_exact v cols arity = elim (vrel_variant_or_null v arity) [
    | none ↦ false
    | some r ↦ rel_exact lib r cols
  ]

  unfoldable pub vrel_exact_base : Vrelation D → Row → ℕ → Bool
  unfolding vrel_variant_or_null rel_exact_base
  vrel_exact_base v cols arity = elim (vrel_variant_or_null v arity) [
    | none ↦ false
    | some r ↦ rel_exact_base lib r cols
  ]

  -- The loop of `vrelPrefixImpl` over the slots from arity `a` on: a variant narrower than the prefix
  -- is passed over, a failure ends the loop, a callback that stops does not.
  unfoldable pub prefix_slots :
      {A : Type 0}
      → (Relation D → A → Ret × A)
      → ℕ
      → List (Option (Relation D))
      → ℕ
      → ℕ
      → A
      → Ret × A
  prefix_slots read k [] a total acc = (ret total, acc)
  prefix_slots read k (none ∷ slots) a total acc = prefix_slots read k slots (a + 1) total acc
  prefix_slots read k (some r ∷ slots) a total acc =
      let skipped = prefix_slots read k slots (a + 1) total acc in
      let (rc, acc') = read r acc in
      let later : ℕ → Ret × _ = λ n. prefix_slots read k slots (a + 1) (total + n) acc' in
      if ltb a k then skipped else elim rc [ err ↦ (err, acc') | ret n ↦ later n ]

  unfoldable pub vrel_prefix : {A : Type 0} → Vrelation D → Row → ℕ → EnumCb A → A → Ret × A
  unfolding prefix_slots rel_prefix
  vrel_prefix v leading k cb acc =
      if ltb max_var_arity k
      then (err, acc)
      else prefix_slots (λ r a. rel_prefix lib r leading k cb a) k v.variants 1 0 acc

  unfoldable pub vrel_prefix_base : {A : Type 0} → Vrelation D → Row → ℕ → EnumCb A → A → Ret × A
  unfolding prefix_slots rel_prefix_base
  vrel_prefix_base v leading k cb acc =
      if ltb max_var_arity k
      then (err, acc)
      else prefix_slots (λ r a. rel_prefix_base lib r leading k cb a) k v.variants 1 0 acc

-- `rel_entry`: the kinds RELK_FIXED and RELK_VARIADIC.
pub data RelEntry (D : Type 0) : Type 0 where
  fixed : List ℕ → ℕ → Relation D → RelEntry D
  variadic : List ℕ → Vrelation D → RelEntry D

module _ {D : Type 0} where
  unfoldable pub db_entry_is_variadic : RelEntry D → Bool
  db_entry_is_variadic (fixed name arity rel) = false
  db_entry_is_variadic (variadic name vrel) = true

  unfoldable pub db_entry_variant_ro : RelEntry D → ℕ → Option (Relation D)
  unfolding vrel_variant_or_null
  db_entry_variant_ro (fixed name a rel) arity = if a == arity then some rel else none
  db_entry_variant_ro (variadic name vrel) arity = vrel_variant_or_null vrel arity

  -- The entry with number `rel_id`, if there is one.
  unfoldable pub entry_at : List (RelEntry D) → ℕ → Option (RelEntry D)
  entry_at [] rel_id = none
  entry_at (e ∷ rels) zero = some e
  entry_at (e ∷ rels) (suc rel_id) = entry_at rels rel_id

  unfoldable pub db_rel_at_arity_ro : List (RelEntry D) → ℕ → ℕ → Option (Relation D)
  unfolding entry_at db_entry_variant_ro
  db_rel_at_arity_ro rels rel_id arity = entry_at rels rel_id >>= λ e. db_entry_variant_ro e arity

module _ {D S : Type 0} (lib : Dafsa D S) where
  unfoldable pub db_entry_variant_rw : RelEntry D → ℕ → Option (Relation D) × RelEntry D
  unfolding vrel_variant
  db_entry_variant_rw (fixed name a rel) arity =
      (if a == arity then some rel else none, fixed name a rel)
  db_entry_variant_rw (variadic name vrel) arity =
      let (rel, vrel') = vrel_variant lib vrel arity in (rel, variadic name vrel')

  unfoldable pub db_rel_at_arity_rw :
      List (RelEntry D) → ℕ → ℕ → Option (Relation D) × List (RelEntry D)
  unfolding entry_at db_entry_variant_rw
  db_rel_at_arity_rw rels rel_id arity = elim (entry_at rels rel_id) [
    | none ↦ (none, rels)
    | some e ↦ let (rel, e') = db_entry_variant_rw e arity in (rel, set rels rel_id e')
  ]
