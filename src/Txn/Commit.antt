-- ===== src/Txn/Commit.antt =====
-- The effect of transactions and of compare-and-swaps on the relations: `dl_txn_commit`,
-- `dl_cas_revision`, `dl_rev_get` of zig/src/dl.zig.
pub mod Appends
pub mod Atomic
use datalog_dafsa.Base.{
  ℕ, zero, suc, ◌+◌, Bool, true, false, not, ◌&&◌, ◌||◌, Option, none, some, List, [], ◌∷◌, ◌++◌,
  if◌then◌else◌, ◌==◌, length, get_or, set, words_eq, Ret, err, ret,
}
use datalog_dafsa.TupleSet.{Row, ◌>>=◌}
use datalog_dafsa.Relation.{
  Dafsa, Relation, encode_key, rel_overlay_add, rel_overlay_flush, rel_delete_base, is_ok,
}
use datalog_dafsa.Relation.Reads.{EnumCb, rel_prefix, ov_consolidate_for_read}
use datalog_dafsa.Vrelation.{RelEntry, fixed, variadic, entry_at}
use datalog_dafsa.TxnWal.{Bytes, LogRecord, op_add, op_del, append_record, append_commit, open_rw}
use datalog_dafsa.Txn.{
  TxnOp, txn_add, txn_del, txn_cas, Db, dl_e_conflict, rev_name, name_of, find_rel, ensure_rev_rel,
  txn_discard,
}

-- `revSinkCb`: the second column of the first row, and stop.
abbrev pub rev_sink_cb : EnumCb ℕ
rev_sink_cb cols out = (true, get_or cols 1 0)

module _ {D : Type 0} where
  -- The fixed relation with a number.
  unfoldable pub fixed_at : List (RelEntry D) → ℕ → Option (Relation D)
  fixed_at [] idx = none
  fixed_at (fixed name arity r ∷ rels) zero = some r
  fixed_at (variadic name vrel ∷ rels) zero = none
  fixed_at (e ∷ rels) (suc idx) = fixed_at rels idx

  -- The table after a change of the fixed relation with a number.
  unfoldable pub with_rel : (Relation D → Relation D) → List (RelEntry D) → ℕ → List (RelEntry D)
  with_rel f [] idx = []
  with_rel f (fixed name arity r ∷ rels) zero = fixed name arity (f r) ∷ rels
  with_rel f (variadic name vrel ∷ rels) zero = variadic name vrel ∷ rels
  with_rel f (e ∷ rels) (suc idx) = e ∷ with_rel f rels idx

  -- The records of the buffered operations: a compare-and-swap is a delete and an add of "rev".
  unfoldable pub op_records : List (RelEntry D) → TxnOp → List LogRecord
  unfolding encode_key entry_at
  op_records rels (txn_cas e expected next) =
      record { rel = rev_name; op = op_del; key = encode_key (e ∷ expected ∷ []) 2 }
      ∷ record { rel = rev_name; op = op_add; key = encode_key (e ∷ next ∷ []) 2 }
      ∷ []
  op_records rels (txn_add idx arity cols) = elim (entry_at rels idx) [
    | none ↦ []
    | some entry ↦ record { rel = name_of entry; op = op_add; key = encode_key cols arity } ∷ []
  ]
  op_records rels (txn_del idx arity cols) = elim (entry_at rels idx) [
    | none ↦ []
    | some entry ↦ record { rel = name_of entry; op = op_del; key = encode_key cols arity } ∷ []
  ]

  unfoldable pub txn_records : List (RelEntry D) → List TxnOp → List LogRecord
  unfolding op_records
  txn_records rels [] = []
  txn_records rels (op ∷ ops) = op_records rels op ++ txn_records rels ops

  -- "rev" for the compare-and-swaps among the operations. Their buffering has declared it, so it is
  -- looked up before the first operation here, and not before each compare-and-swap.
  unfoldable pub rev_for : Option (Relation D) → Db D → List TxnOp → Option (ℕ × Db D)
  unfolding ensure_rev_rel
  rev_for declared db [] = some (0, db)
  rev_for declared db (txn_cas e expected next ∷ ops) = ensure_rev_rel declared db
  rev_for declared db (txn_add idx arity cols ∷ ops) = rev_for declared db ops
  rev_for declared db (txn_del idx arity cols ∷ ops) = rev_for declared db ops

-- The appends of the records in turn, with the outcome of each: whether all succeed, and the file
-- after them. The first that fails is the last.
unfoldable pub append_records : (Bytes → ℕ) → (ℕ → Option ℕ) → Bytes → List LogRecord → Bool × Bytes
unfolding append_record
append_records crc appended file [] = (true, file)
append_records crc appended file (r ∷ rs) =
    let (ok, file') = append_record crc (appended 0) file r in
    let rest = append_records crc (λ i. appended (suc i)) file' rs in
    if ok then rest else (false, file')

-- The outcomes of the calls outside the modelled state, for one call of an entry point. `appended`
-- and `marked` are those of the appends of a commit's records, by their number, and of its marker.
pub record Outcomes : Type 0 where
  pub room : Bool
  pub saved : Bool
  pub del_logged : Bool
  pub add_logged : Bool
  pub appended : ℕ → Option ℕ
  pub hook_passes : Bool
  pub marked : Option ℕ
  pub synced : Bool

-- Step (d): whether it goes through, and the log's file after it. The marker is in the file when
-- only the sync fails.
unfoldable pub log_ops : (Bytes → ℕ) → Outcomes → List LogRecord → Bytes → Bool × Bytes
unfolding append_records append_commit
log_ops crc outcomes records file =
    let (ok, file') = append_records crc outcomes.appended file records in
    let (marked, file'') = append_commit crc outcomes.marked file' in
    if ok && outcomes.hook_passes then (marked && outcomes.synced, file'') else (false, file')

module _ {D S : Type 0} (lib : Dafsa D S) where
  -- `revGet` of the relation with number `i`; the read folds its overlay.
  unfoldable pub rev_read : Db D → ℕ → ℕ → Ret × Db D
  unfolding fixed_at with_rel rel_prefix ov_consolidate_for_read
  rev_read db i entity = elim (fixed_at db.rels i) [
    | none ↦ (err, db)
    | some r ↦
        let (rc, cur) = rel_prefix lib r (entity ∷ []) 1 rev_sink_cb 0 in
        let db' = record db { rels = with_rel (ov_consolidate_for_read lib) db.rels i } in
        elim rc [ err ↦ (err, db') | ret n ↦ (ret cur, db') ]
  ]

  unfoldable pub rev_get : Option (Relation D) → Db D → ℕ → Ret × Db D
  unfolding ensure_rev_rel rev_read
  rev_get declared db entity = elim (ensure_rev_rel declared db) [
    | none ↦ (err, db)
    | some (i, db') ↦ rev_read db' i entity
  ]

  -- `addFactApply` and `deleteFactApply` on the relation with a number.
  unfoldable pub add_fact_apply : Bool → List (RelEntry D) → ℕ → Row → List (RelEntry D)
  unfolding with_rel rel_overlay_add
  add_fact_apply room rels idx cols = with_rel (λ r. (rel_overlay_add lib room r cols).1) rels idx

  unfoldable pub flush_and_delete : Relation D → Row → Relation D
  unfolding rel_overlay_flush rel_delete_base is_ok
  flush_and_delete r cols =
      let (rc, r') = rel_overlay_flush lib r in
      let deleted = (rel_delete_base lib r' cols).1 in if is_ok rc then deleted else r'

  unfoldable pub delete_fact_apply : List (RelEntry D) → ℕ → Row → List (RelEntry D)
  unfolding with_rel flush_and_delete
  delete_fact_apply rels idx cols = with_rel (λ r. flush_and_delete r cols) rels idx

  -- One round of step (e) of `dl_txn_commit`, with "rev" at number `rev_id`.
  unfoldable pub apply_op : Bool → ℕ → List (RelEntry D) → TxnOp → List (RelEntry D)
  unfolding add_fact_apply delete_fact_apply
  apply_op room rev_id rels (txn_cas e expected next) =
      add_fact_apply room (delete_fact_apply rels rev_id (e ∷ expected ∷ [])) rev_id (e ∷ next ∷ [])
  apply_op room rev_id rels (txn_add idx arity cols) = add_fact_apply room rels idx cols
  apply_op room rev_id rels (txn_del idx arity cols) = delete_fact_apply rels idx cols

  unfoldable pub apply_ops : Bool → ℕ → List (RelEntry D) → List TxnOp → List (RelEntry D)
  unfolding apply_op
  apply_ops room rev_id rels [] = rels
  apply_ops room rev_id rels (op ∷ ops) = apply_ops room rev_id (apply_op room rev_id rels op) ops

  -- Step (b) of `dl_txn_commit`: 0, `dl_e_conflict` or -1.
  unfoldable pub validate_ops : Option (Relation D) → Db D → List TxnOp → Ret × Db D
  unfolding rev_get
  validate_ops declared db [] = (ret 0, db)
  validate_ops declared db (txn_add idx arity cols ∷ ops) = validate_ops declared db ops
  validate_ops declared db (txn_del idx arity cols ∷ ops) = validate_ops declared db ops
  validate_ops declared db (txn_cas e expected next ∷ ops) =
      let (rc, db') = rev_get declared db e in
      let later = validate_ops declared db' ops in
      elim rc [
        | err ↦ (err, db')
        | ret cur ↦ if cur == expected then later else (ret dl_e_conflict, db')
      ]

  -- Steps (e) and (f), once step (d) has left `file`.
  unfoldable pub commit_logged :
      Outcomes → Option (Relation D) → Db D → List TxnOp → Bool × Bytes → Ret × Db D
  unfolding apply_ops rev_for
  commit_logged outcomes declared db ops (false, file) =
      (err, txn_discard (record db { wal = file }))
  commit_logged outcomes declared db ops (true, file) = elim (rev_for declared db ops) [
    | none ↦ (err, txn_discard (record db { wal = file }))
    | some (i, db') ↦ (
      ret 0,
      txn_discard (record db' {
        wal = file;
        rels = apply_ops outcomes.room i db'.rels ops;
        fixpoint_dirty = true;
      }),
    )
  ]

  -- `dl_rev_get` of an entity; the read-only handle neither declares "rev" nor interns a symbol, and
  -- `entity` is 0 there for a name without one.
  unfoldable pub dl_rev_get : Option (Relation D) → Db D → ℕ → Ret × Db D
  unfolding rev_get rev_read find_rel
  dl_rev_get declared db entity =
      let live = rev_get declared db entity in
      let frozen : Ret × Db D = elim (find_rel db.rels rev_name) [
        | none ↦ (ret 0, db)
        | some i ↦ if entity == 0 then (ret 0, db) else rev_read db i entity
      ] in
      if db.read_only then frozen else live

  -- The add of the new row by `dl_cas_revision`, after the deletion left `r`.
  unfoldable pub cas_add : Outcomes → Relation D → (entity new_value : ℕ) → Ret × Relation D
  unfolding rel_overlay_add
  cas_add outcomes r entity new_value =
      if outcomes.add_logged
      then rel_overlay_add lib outcomes.room r (entity ∷ new_value ∷ [])
      else (err, r)

  -- Its writes to "rev", once the current revision is the expected one.
  unfoldable pub cas_write : Outcomes → Relation D → (entity cur new_value : ℕ) → Ret × Relation D
  unfolding rel_delete_base cas_add
  cas_write outcomes r entity cur new_value =
      let (rc, r') = rel_delete_base lib r (entity ∷ cur ∷ []) in
      let added = cas_add outcomes r' entity new_value in
      if outcomes.saved && outcomes.del_logged
      then elim rc [ err ↦ (err, r') | ret n ↦ added ]
      else (err, r)

  unfoldable pub cas_replace : Outcomes → Db D → (i entity cur new_value : ℕ) → Ret × Db D
  unfolding fixed_at with_rel cas_write
  cas_replace outcomes db i entity cur new_value = elim (fixed_at db.rels i) [
    | none ↦ (err, db)
    | some r ↦
        let (rc, r') = cas_write outcomes r entity cur new_value in
        let rels' = with_rel (λ old. r') db.rels i in
        elim rc [
          | err ↦ (err, record db { rels = rels' })
          | ret n ↦ (ret 0, record db { rels = rels'; fixpoint_dirty = true })
        ]
  ]

  unfoldable pub dl_cas_revision :
      Outcomes → Option (Relation D) → Db D → (entity expected new_value : ℕ) → Ret × Db D
  unfolding ensure_rev_rel rev_read cas_replace
  dl_cas_revision outcomes declared db entity expected new_value =
      if db.read_only then (err, db) else elim db.txn [
        | some ops ↦ (err, db)
        | none ↦ if expected == new_value then (ret 0, db) else elim (ensure_rev_rel declared db) [
          | none ↦ (err, db)
          | some (i, db₁) ↦
              let (rc, db₂) = rev_read db₁ i entity in
              if entity == 0 then (err, db₁) else elim rc [
                | err ↦ (err, db₂)
                | ret cur ↦
                    if cur == expected
                    then cas_replace outcomes db₂ i entity cur new_value
                    else (ret dl_e_conflict, db₂)
              ]
        ]
      ]

module _ {D S : Type 0} (lib : Dafsa D S) (crc : Bytes → ℕ) where
  -- Steps (c) to (f). `none` is a scan of the log that ran out of fuel.
  unfoldable pub commit_valid :
      Outcomes → Option (Relation D) → Db D → List TxnOp → Option (Ret × Db D)
  unfolding log_ops commit_logged open_rw txn_records
  commit_valid outcomes declared db ops =
      if not outcomes.saved
      then some (err, txn_discard db)
      else (open_rw crc db.wal >>= λ opened. elim opened [
        | none ↦ some (err, txn_discard db)
        | some file ↦ some (
            commit_logged lib outcomes declared db ops
              (log_ops crc outcomes (txn_records db.rels ops) file))
      ])

  unfoldable pub dl_txn_commit : Outcomes → Option (Relation D) → Db D → Option (Ret × Db D)
  unfolding validate_ops commit_valid
  dl_txn_commit outcomes declared db = elim db.txn [
    | none ↦ some (err, db)
    | some ops ↦
        let (rc, db') = validate_ops lib declared db ops in
        let committed = commit_valid outcomes declared db' ops in
        if length ops == 0 then some (ret 0, txn_discard db) else elim rc [
          | err ↦ some (err, txn_discard db')
          | ret n ↦ if n == 0 then committed else some (ret n, txn_discard db')
        ]
  ]
