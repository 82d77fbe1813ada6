-- ===== src/Permindex/Stats.antt =====
-- Order statistics in a permuted order: `dl_rank_perm` and `dl_select_perm` of zig/src/dl.zig.
use datalog_dafsa.Base.{
  ℕ, zero, suc, ◌<◌, ◌≡◌, refl, sym, ap, ◌∙◌, true, false, Option, none, some, List, [], length,
  arith, inl, inr, ==_refl, drop,
}
use datalog_dafsa.TupleSet.{Row, ◌>>=◌}
use datalog_dafsa.Relation.{Dafsa, Relation, read_cols_be, Key, words}
use datalog_dafsa.Relation.Laws.{IsDafsa, nth}
use datalog_dafsa.Relation.Views.{HasKeys}
use datalog_dafsa.Relation.Reads.{rel_select, rel_count_subtree}
use datalog_dafsa.Relation.Order.{rel_rank-rel_select, select_stage}
use datalog_dafsa.Vrelation.{RelEntry, fixed, entry_at}
use datalog_dafsa.Permindex.{
  PermIndexEntry, check_perm, forward, inverse, perm_of, ready_index, perm_rel_ro, dl_rank_perm,
  dl_select_perm,
}
use datalog_dafsa.Permindex.Maps.{forward-inverse}

-- An entry of the table that needs no building: the fixed relation `idx` has it, clean and built.
pub record IsReady {D : Type 0} (rels : List (RelEntry D)) (perms : List (PermIndexEntry D))
    (idx perm_id arity : ℕ) (e : PermIndexEntry D) (r : Relation D) : Type 0 where
  pub name : List ℕ
  pub rel : Relation D
  pub found : perm_of perms idx perm_id ≡ some e
  pub fixed_rel : entry_at rels idx ≡ some (fixed name arity rel)
  pub width : e.arity ≡ arity
  pub built : e.pidx_rel ≡ some r
  pub clean : e.dirty ≡ false

length-read_cols_be : (a : ℕ) (buf : List ℕ) → length (read_cols_be a buf) ≡ a
unfolding read_cols_be
length-read_cols_be zero buf = refl
length-read_cols_be (suc a) buf = ap suc (length-read_cols_be a (drop 4 buf))

decoded_length :
    (a : ℕ) (o : Option Key) (cols : Row)
    → Path (Option Row) (o >>= λ w. some (read_cols_be a w)) (some cols)
    → length cols ≡ a
decoded_length a none cols e = cc
decoded_length a (some w) cols e =
    let same : read_cols_be a w ≡ cols = cc in rw⁻¹ same (length-read_cols_be a w)

module _ {D S : Type 0} {lib : Dafsa D S} (laws : IsDafsa lib) (ts_sort : List Row → List Row) where
  ready_stage :
      (rels : List (RelEntry D)) (perms : List (PermIndexEntry D)) (idx perm_id arity : ℕ)
      (e : PermIndexEntry D) (r : Relation D)
      → IsReady rels perms idx perm_id arity e r
      → perm_rel_ro lib ts_sort rels perms idx perm_id arity ≡ (some (r, e.perm), perms)
  unfolding perm_rel_ro ready_index
  ready_stage rels perms idx perm_id arity e r ready =
      rw (ready.found, ready.fixed_rel, ready.width, ==_refl arity, perm_rel_ro)
        (rw (ready.built, ready.clean, ready_index) refl)

  select_row :
      (r : Relation D) (k : ℕ) (cols : Row)
      → r.ov ≡ []
      → rel_select lib r k ≡ some cols
      → length cols ≡ r.arity
  select_row r k cols flushed selected =
      decoded_length r.arity (nth (words lib r.d) k) cols
        (sym (select_stage laws r k flushed) ∙ selected)

  -- A built and clean permutation index has no pending overlay, holds keys of u32 rows, and its
  -- permutation passed the check. For a number below its size `dl_select_perm` gives a row, and
  -- `dl_rank_perm` of that row is the number.
  pub dl_rank_perm-dl_select_perm :
      (rels : List (RelEntry D)) (perms : List (PermIndexEntry D)) (idx perm_id : ℕ)
      (e : PermIndexEntry D) (r : Relation D) (k : ℕ) (out : Row)
      → IsReady rels perms idx perm_id r.arity e r
      → check_perm r.arity r.arity e.perm [] ≡ true
      → r.ov ≡ []
      → HasKeys lib r.arity r.d
      → k < rel_count_subtree lib true r
      → length out ≡ r.arity
      → (cols : Row) × ((dl_select_perm lib ts_sort rels perms idx perm_id k out r.arity).0
          ≡ some cols)
        × ((dl_rank_perm lib ts_sort rels perms idx perm_id cols r.arity).0 ≡ k)
  unfolding dl_select_perm dl_rank_perm
  dl_rank_perm-dl_select_perm rels perms idx perm_id e r k out ready bijective flushed keys small
        wide =
      let staged = ready_stage rels perms idx perm_id r.arity e r ready in
      elim (rel_rank-rel_select laws r k flushed keys) [
        | inl (inside, (pcols, selected, ranked)) ↦
            let back : forward r.arity e.perm (inverse r.arity e.perm pcols out) ≡ pcols =
              forward-inverse r.arity r.arity e.perm [] pcols out bijective
                (select_row r k pcols flushed selected) wide in
            (
              inverse r.arity e.perm pcols out,
              rw (staged, dl_select_perm) (rw selected refl),
              rw (staged, dl_rank_perm) (rw back ranked),
            )
        | inr (outside, fails) ↦ absurd (omega arith)
      ]
