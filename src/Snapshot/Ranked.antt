-- ===== src/Snapshot/Ranked.antt =====
-- The order statistics of a database in zig/src/dl.zig: those of the published snapshot are those of a
-- relation with the view's rows.
use datalog_dafsa.Base.{
  true, ℕ, ◌≤◌, ◌<◌, ◌≡◌, refl, ap, ◌∙◌, false, Option, none, some, [], ltb, arith, inl, inr, ◌⊎◌,
}
use datalog_dafsa.TupleSet.{Row}
use datalog_dafsa.TxnWal.{Bytes}
use datalog_dafsa.Txn.{Db}
use datalog_dafsa.Relation.{Dafsa, Relation, max_arity}
use datalog_dafsa.Relation.Laws.{IsDafsa}
use datalog_dafsa.Relation.Reads.{rel_rank, rel_select, rel_count_subtree}
use datalog_dafsa.Relation.Order.{consolidate_none, rel_rank-rel_select}
use datalog_dafsa.Relation.Views.{HasKeys}
use datalog_dafsa.Access.{ordstats_rel_ro}
use datalog_dafsa.Snapshot.{Published, view_rank, view_select, dl_rank, dl_select, view_at}

-- A relation with the rows of a view.
abbrev as_relation : {D : Type 0} → D → ℕ → Relation D
as_relation v arity = record { arity = arity; d = v; base = none; ov = []; dirty = false; rev = 0 }

module _ {D S : Type 0} {lib : Dafsa D S} (laws : IsDafsa lib) where
  view_rank_stage :
      (v : D) (arity : ℕ) (cols : Row)
      → arity ≤ max_arity
      → view_rank lib v arity cols ≡ rel_rank lib (as_relation v arity) cols
  unfolding view_rank rel_rank
  view_rank_stage v arity cols fits =
      let wide : ltb max_arity arity ≡ false = ground (arith, fits) in
      rw (wide, consolidate_none lib (as_relation v arity) refl) refl

  view_select_stage :
      (v : D) (arity k : ℕ)
      → arity ≤ max_arity
      → view_select lib v arity k ≡ rel_select lib (as_relation v arity) k
  unfolding view_select rel_select
  view_select_stage v arity k fits =
      let wide : ltb max_arity arity ≡ false = ground (arith, fits) in rw wide refl

  -- The relation that the order statistics of a database read.
  abbrev pub source : Option (Option (Published D)) → Db D → Bytes → ℕ → Option (Relation D)
  source none db name arity = ordstats_rel_ro db name arity
  source (some p) db name arity = elim (view_at p arity) [
    | none ↦ none
    | some v ↦ some (as_relation v arity)
  ]

  -- What `dl_rank` and `dl_select` are, on the relation that they read.
  abbrev SourceReads : Option (Option (Published D)) → Db D → Bytes → ℕ → Relation D → Type 0
  SourceReads published db name arity r =
      ((k : ℕ) → dl_select lib published db name k arity ≡ rel_select lib r k)
      × ((cols : Row) → dl_rank lib published db name cols arity ≡ rel_rank lib r cols)

  view_source :
      (p : Option (Published D)) (db : Db D) (name : Bytes) (arity : ℕ) (r : Relation D)
      (a : Option D)
      → view_at p arity ≡ a
      → source (some p) db name arity ≡ some r
      → arity ≤ max_arity
      → SourceReads (some p) db name arity r
  unfolding dl_select dl_rank
  view_source p db name arity r none at e fits = absurd (no_view (rw (source, at) at e))
    where
      no_view : {x : Relation D} → none ≡ some x → ⊥
      no_view e = cc
  view_source p db name arity r (some v) at e fits =
      let same : some (as_relation v arity) ≡ some r = rw (source, at) at e in
      let is_r : as_relation v arity ≡ r = cc in
      (
        λ k.
            rw (dl_select, at)
              (view_select_stage v arity k fits ∙ ap (λ x. rel_select lib x k) is_r),
        λ cols.
            rw (dl_rank, at)
              (view_rank_stage v arity cols fits ∙ ap (λ x. rel_rank lib x cols) is_r),
      )

  source_reads :
      (published : Option (Option (Published D))) (db : Db D) (name : Bytes) (arity : ℕ)
      (r : Relation D)
      → source published db name arity ≡ some r
      → arity ≤ max_arity
      → SourceReads published db name arity r
  unfolding dl_select dl_rank
  source_reads none db name arity r e fits =
      (λ k. rw (dl_select, e) refl, λ cols. rw (dl_rank, e) refl)
  source_reads (some p) db name arity r e fits =
      view_source p db name arity r (view_at p arity) refl e fits

  -- Of the relation that the order statistics read, the view of a published snapshot or the live relation
  -- where none is published, without a pending overlay and with keys of u32 rows: `dl_select` gives a row
  -- exactly for the numbers below the count, and `dl_rank` of the row that it gives is the number.
  pub dl_rank-dl_select :
      (published : Option (Option (Published D))) (db : Db D) (name : Bytes) (arity k : ℕ)
      (r : Relation D)
      → source published db name arity ≡ some r
      → r.ov ≡ []
      → HasKeys lib r.arity r.d
      → arity ≤ max_arity
      → (k < rel_count_subtree lib true r
          × ((cols : Row) × (dl_select lib published db name k arity ≡ some cols)
              × (dl_rank lib published db name cols arity ≡ k)))
        ⊎ (rel_count_subtree lib true r ≤ k × (dl_select lib published db name k arity ≡ none))
  dl_rank-dl_select published db name arity k r e flushed keys fits =
      let (selects, ranks) = source_reads published db name arity r e fits in
      elim (rel_rank-rel_select laws r k flushed keys) [
        | inl (inside, (cols, selected, ranked)) ↦
            inl (inside, (cols, selects k ∙ selected, ranks cols ∙ ranked))
        | inr (outside, nothing) ↦ inr (outside, selects k ∙ nothing)
      ]
