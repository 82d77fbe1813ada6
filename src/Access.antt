-- ===== src/Access.antt =====
-- The facts of a database by relation name, `dl_add_fact`, `dl_delete_fact`, `dl_lookup` and the
-- order statistics under a prefix in zig/src/dl.zig. The database has a directory. Whether the kinds
-- of the columns admit a fact, and the relation that the files of a variant open as, are arguments.
pub mod Table
pub mod Added
use datalog_dafsa.Base.{
  ℕ, ◌-◌, Bool, true, false, not, ◌&&◌, ◌||◌, Option, none, some, List, [], ◌∷◌, if◌then◌else◌,
  ◌==◌, ltb, set, words_eq, Ret, err, ret, ◌^◌,
}
use datalog_dafsa.TupleSet.{Row, ◌>>=◌}
use datalog_dafsa.Relation.{
  Dafsa, Relation, is_ok, rel_exact, rel_overlay_add, rel_overlay_flush, rel_delete_base,
}
use datalog_dafsa.Relation.Reads.{
  EnumCb, rel_prefix, rel_rank_bound, rel_select_bound, rel_range_count_bound,
}
use datalog_dafsa.Vrelation.{
  Vrelation, RelEntry, fixed, variadic, entry_at, max_var_arity, vrel_variant_or_null, vrel_attach,
  vrel_exact, vrel_prefix,
}
use datalog_dafsa.TxnWal.{Bytes}
use datalog_dafsa.Txn.{Db, rev_name, find_rel}
use datalog_dafsa.Txn.Commit.{Outcomes}

-- What a write comes to: its code, what it leaves, and whether it got as far as marking the database.
pub record Written (A : Type 0) : Type 0 where
  pub code : Ret
  pub left : A
  pub reached : Bool

abbrev pub stop : {A : Type 0} → Ret → A → Written A
stop rc a = record { code = rc; left = a; reached = false }

-- `if (rc == 1) 1 else 0`.
abbrev pub as_flag : Ret → Ret
as_flag err = err
as_flag (ret n) = ret (if n == 1 then 1 else 0)

module _ {D : Type 0} where
  -- The entry with a name.
  unfoldable pub entry_named : Db D → Bytes → Option (RelEntry D)
  unfolding find_rel entry_at
  entry_named db name = find_rel db.rels name >>= λ idx. entry_at db.rels idx

  -- `variadicOpenVariant`.
  unfoldable pub variadic_open_variant :
      Option (Relation D) → Vrelation D → ℕ → Option (Relation D) × Vrelation D
  unfolding vrel_variant_or_null vrel_attach
  variadic_open_variant opened v a =
      if (a == 0) || ltb max_var_arity a then (none, v) else elim (vrel_variant_or_null v a) [
        | some r ↦ (some r, v)
        | none ↦ elim opened [
          | none ↦ (none, v)
          | some r ↦
              let (rc, v') = vrel_attach v a r in if is_ok rc then (some r, v') else (none, v')
        ]
      ]

  -- The relation for the order statistics: of a fixed entry, at its arity.
  unfoldable pub ordstats_rel_ro : Db D → Bytes → ℕ → Option (Relation D)
  unfolding entry_named
  ordstats_rel_ro db name arity = entry_named db name >>= λ e. elim e [
    | variadic vname vrel ↦ none
    | fixed fname a r ↦ if a == arity then some r else none
  ]

  -- A write to the variant of an arity, once it is there.
  unfoldable pub write_variant :
      (Relation D → Written (Relation D))
      → Option (Relation D)
      → Bytes
      → Vrelation D
      → ℕ
      → Written (RelEntry D)
  unfolding variadic_open_variant
  write_variant write opened name v arity =
      let (found, v') = variadic_open_variant opened v arity in
      elim found [
        | none ↦ stop err (variadic name v')
        | some r ↦
            let w = write r in
            record {
              code = if w.reached then ret 1 else w.code;
              left =
                  variadic name
                    (record v' { variants = set v'.variants (arity - 1) (some w.left) });
              reached = w.reached;
            }
      ]

  -- The guards of a write, and the write to the entry with the name.
  unfoldable pub write_named : (RelEntry D → Written (RelEntry D)) → Db D → Bytes → Ret × Db D
  unfolding find_rel entry_at
  write_named write db name = if db.read_only then (err, db) else elim db.txn [
    | some ops ↦ (err, db)
    | none ↦ if words_eq name rev_name then (err, db) else elim (find_rel db.rels name) [
      | none ↦ (err, db)
      | some idx ↦ elim (entry_at db.rels idx) [
        | none ↦ (err, db)
        | some e ↦
            let w = write e in
            (
              w.code,
              record db {
                rels = set db.rels idx w.left;
                fixpoint_dirty = w.reached || db.fixpoint_dirty;
              },
            )
      ]
    ]
  ]

module _ {D S : Type 0} (lib : Dafsa D S) where
  -- `dl_add_fact` from the saves on, to one relation.
  unfoldable pub add_to : Outcomes → Row → Relation D → Written (Relation D)
  unfolding rel_exact rel_overlay_add is_ok
  add_to outcomes cols r =
      let (rc, r') = rel_overlay_add lib outcomes.room r cols in
      if not outcomes.saved
      then stop err r
      else if rel_exact lib r cols
      then stop (ret 0) r
      else if outcomes.add_logged
      then record { code = rc; left = r'; reached = is_ok rc }
      else stop err r

  unfoldable pub add_to_entry :
      Outcomes → Bool → Option (Relation D) → Row → ℕ → RelEntry D → Written (RelEntry D)
  unfolding add_to write_variant
  add_to_entry outcomes kinds_pass opened cols arity (fixed name a r) =
      let w = add_to outcomes cols r in
      if (arity == r.arity) && kinds_pass
      then record { code = as_flag w.code; left = fixed name a w.left; reached = w.reached }
      else stop err (fixed name a r)
  add_to_entry outcomes kinds_pass opened cols arity (variadic name v) =
      write_variant (add_to outcomes cols) opened name v arity

  unfoldable pub dl_add_fact :
      Outcomes → Bool → Option (Relation D) → Db D → Bytes → Row → ℕ → Ret × Db D
  unfolding write_named add_to_entry
  dl_add_fact outcomes kinds_pass opened db name cols arity =
      write_named (add_to_entry outcomes kinds_pass opened cols arity) db name

  -- The deletion from the base, marked where it does not fail.
  unfoldable pub delete_marked : Row → Relation D → Written (Relation D)
  unfolding rel_delete_base is_ok
  delete_marked cols r =
      let (rc, r') = rel_delete_base lib r cols in
      record { code = rc; left = r'; reached = is_ok rc }

  -- `deleteFactApply` folds the overlay once more.
  unfoldable pub flush_marked : Row → Relation D → Written (Relation D)
  unfolding rel_overlay_flush delete_marked is_ok
  flush_marked cols r =
      let (rc, r') = rel_overlay_flush lib r in
      if is_ok rc then delete_marked cols r' else stop err r'

  -- `dl_delete_fact` of one relation, with its last step.
  unfoldable pub delete_from :
      Outcomes → (Row → Relation D → Written (Relation D)) → Row → Relation D → Written (Relation D)
  unfolding rel_exact rel_overlay_flush is_ok
  delete_from outcomes last cols r =
      let (rc, r') = rel_overlay_flush lib r in
      if not (rel_exact lib r cols)
      then stop (ret 0) r
      else if not (is_ok rc)
      then stop err r'
      else if outcomes.del_logged
      then last cols r'
      else stop err r'

  unfoldable pub delete_from_entry :
      Outcomes → Option (Relation D) → Row → ℕ → RelEntry D → Written (RelEntry D)
  unfolding delete_from flush_marked delete_marked write_variant
  delete_from_entry outcomes opened cols arity (fixed name a r) =
      let w = delete_from outcomes flush_marked cols r in
      if arity == r.arity
      then record { code = as_flag w.code; left = fixed name a w.left; reached = w.reached }
      else stop err (fixed name a r)
  delete_from_entry outcomes opened cols arity (variadic name v) =
      write_variant (delete_from outcomes delete_marked cols) opened name v arity

  unfoldable pub dl_delete_fact :
      Outcomes → Option (Relation D) → Db D → Bytes → Row → ℕ → Ret × Db D
  unfolding write_named delete_from_entry
  dl_delete_fact outcomes opened db name cols arity =
      write_named (delete_from_entry outcomes opened cols arity) db name

  unfoldable pub lookup_entry : RelEntry D → Row → ℕ → Bool
  unfolding rel_exact vrel_exact
  lookup_entry (fixed name a r) cols arity = (arity == r.arity) && rel_exact lib r cols
  lookup_entry (variadic name v) cols arity =
      if (arity == 0) || ltb 8 arity then false else vrel_exact lib v cols arity

  unfoldable pub dl_lookup : Db D → Bytes → Row → ℕ → Bool
  unfolding entry_named lookup_entry
  dl_lookup db name cols arity = elim (entry_named db name) [
    | none ↦ false
    | some e ↦ lookup_entry e cols arity
  ]

  -- The read folds the overlays of the relations that it reads.
  unfoldable pub dl_prefix : {A : Type 0} → Db D → Bytes → Row → ℕ → EnumCb A → A → Ret × A
  unfolding entry_named rel_prefix vrel_prefix
  dl_prefix db name leading k cb acc = elim (entry_named db name) [
    | none ↦ (err, acc)
    | some e ↦ elim e [
      | variadic vname v ↦ vrel_prefix lib v leading k cb acc
      | fixed fname a r ↦ rel_prefix lib r leading k cb acc
    ]
  ]

  unfoldable pub dl_rank_bound : Db D → Bytes → Row → ℕ → Row → ℕ → ℕ
  unfolding ordstats_rel_ro rel_rank_bound
  dl_rank_bound db name leading k cols arity = elim (ordstats_rel_ro db name arity) [
    | none ↦ 2 ^ 64 - 1
    | some r ↦ rel_rank_bound lib r leading k cols
  ]

  unfoldable pub dl_select_bound : Db D → Bytes → Row → ℕ → ℕ → ℕ → Option Row
  unfolding ordstats_rel_ro rel_select_bound
  dl_select_bound db name leading k idx arity =
      ordstats_rel_ro db name arity >>= λ r. rel_select_bound lib r leading k idx

  unfoldable pub dl_range_count_bound : Db D → Bytes → Row → ℕ → Row → Row → ℕ → ℕ
  unfolding ordstats_rel_ro rel_range_count_bound
  dl_range_count_bound db name leading k lo hi arity = elim (ordstats_rel_ro db name arity) [
    | none ↦ 2 ^ 64 - 1
    | some r ↦ rel_range_count_bound lib r leading k lo hi
  ]
