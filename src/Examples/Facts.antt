-- ===== src/Examples/Facts.antt =====
-- Facts that are added to a relation and to a database, at concrete inputs.
use datalog_dafsa.Base.{◌≡◌, words_eq, refl, true, false, none, some, [], ◌∷◌, arith, ret}
use datalog_dafsa.TupleSet.{Row}
use datalog_dafsa.Relation.{Relation, rel_overlay_flush}
use datalog_dafsa.Relation.Keys.{IsRow}
use datalog_dafsa.Relation.Overlay.{Flushed, rel_overlay_flush_lem}
use datalog_dafsa.Vrelation.{fixed, entry_at}
use datalog_dafsa.Txn.{Db, rev_name, find_rel}
use datalog_dafsa.Txn.Commit.{Outcomes}
use datalog_dafsa.Access.{dl_add_fact, dl_lookup}
use datalog_dafsa.Access.Added.{FactAdded, dl_add_fact_lem}
use datalog_dafsa.Examples.SortedKeys.{Sorted, sorted_keys, sorted_keys-IsDafsa}
use datalog_dafsa.Examples.Relations.{edge, high}

abbrev wide : Row
wide = 7 ∷ 65536 ∷ []

wide-IsRow : IsRow 2 wide
wide-IsRow = (refl, (omega arith, (omega arith, tt)))

-- The split relation with a row in its overlay.
abbrev pending : Relation Sorted
pending = record edge { ov = wide ∷ [] }

rel_overlay_flush_lem_example :
    let (rc, r') = rel_overlay_flush sorted_keys pending in
    Flushed sorted_keys-IsDafsa pending wide rc r'
rel_overlay_flush_lem_example =
    rel_overlay_flush_lem sorted_keys-IsDafsa pending wide (wide-IsRow, tt) wide-IsRow

abbrev logged : Outcomes
logged = record {
  room = true;
  saved = true;
  del_logged = true;
  add_logged = true;
  appended = λ i. none;
  hook_passes = true;
  marked = none;
  synced = true;
}

abbrev two_relations : Db Sorted
two_relations = record {
  rels = fixed rev_name 2 edge ∷ fixed (101 ∷ []) 2 pending ∷ [];
  read_only = false;
  txn = none;
  fixpoint_dirty = false;
  wal = [];
}

second_found : find_rel two_relations.rels (101 ∷ []) ≡ some 1
unfolding find_rel words_eq
second_found = refl

second_entry : entry_at two_relations.rels 1 ≡ some (fixed (101 ∷ []) 2 pending)
unfolding entry_at
second_entry = refl

dl_add_fact_lem_example :
    let (rc, db') =
      dl_add_fact sorted_keys logged true none two_relations (101 ∷ []) (9 ∷ 9 ∷ []) 2 in
    FactAdded sorted_keys two_relations (101 ∷ []) (9 ∷ 9 ∷ []) 2 rev_name high 2 rc db'
dl_add_fact_lem_example =
    dl_add_fact_lem sorted_keys logged true none two_relations (101 ∷ []) (9 ∷ 9 ∷ []) 2 1 2 pending
      rev_name high 2 second_found second_entry refl refl

-- The fact is new, and found afterwards.
added_run :
    let (rc, db') =
      dl_add_fact sorted_keys logged true none two_relations (101 ∷ []) (9 ∷ 9 ∷ []) 2 in
    (rc ≡ ret 1) × (dl_lookup sorted_keys db' (101 ∷ []) (9 ∷ 9 ∷ []) 2 ≡ true)
unfolding dl_add_fact dl_lookup words_eq
added_run = (refl, refl)
