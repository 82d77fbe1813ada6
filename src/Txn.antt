-- ===== src/Txn.antt =====
-- Transactions and the revision counters of zig/src/dl.zig (src/dl.h, src/dl_internal.h): facts are
-- buffered, the compare-and-swaps are validated at the commit, the log gets one record for each
-- change and a commit marker, and then the relations change. Column kinds, the capture of deltas for
-- incremental maintenance and the compaction of the relations' own logs are left out. What
-- `dl_declare_relation` opens for the relation "rev" is a parameter, as is whether the saves of the
-- interner and the term store and the calls on the log's file succeed.

pub mod Commit
use datalog_dafsa.Base.{
  ℕ, zero, suc, ◌+◌, Bool, true, false, not, ◌&&◌, ◌||◌, Option, none, some, List, [], ◌∷◌, ◌++◌,
  if◌then◌else◌, ◌==◌, length, get_or, set, words_eq, Ret, err, ret,
}
use datalog_dafsa.TupleSet.{Row, ◌>>=◌}
use datalog_dafsa.Relation.{
  Dafsa, Relation, encode_key, rel_overlay_add, rel_overlay_flush, rel_delete_base,
}
use datalog_dafsa.Relation.Reads.{EnumCb, rel_prefix}
use datalog_dafsa.Vrelation.{RelEntry, fixed, variadic, entry_at}
use datalog_dafsa.TxnWal.{Bytes, LogRecord, op_add, op_del, append_record, append_commit, open_rw}

abbrev pub dl_e_conflict : ℕ
dl_e_conflict = 2

-- `txn_op`, by its kinds TXN_ADD, TXN_DEL and TXN_CAS.
pub data TxnOp : Type 0 where
  txn_add : (rel_id arity : ℕ) → Row → TxnOp
  txn_del : (rel_id arity : ℕ) → Row → TxnOp
  txn_cas : (entity_sym expected next : ℕ) → TxnOp

-- The parts of `struct dl_db` that transactions use. `wal` is the file of the transaction log.
pub record Db (D : Type 0) : Type 0 where
  pub rels : List (RelEntry D)
  pub read_only : Bool
  pub txn : Option (List TxnOp)
  pub fixpoint_dirty : Bool
  pub wal : Bytes

-- "rev".
abbrev pub rev_name : Bytes
rev_name = 114 ∷ 101 ∷ 118 ∷ []

-- Whether the buffer has a compare-and-swap of the entity.
unfoldable pub has_cas : List TxnOp → ℕ → Bool
has_cas [] entity = false
has_cas (txn_cas e expected next ∷ ops) entity = (e == entity) || has_cas ops entity
has_cas (txn_add rel_id arity cols ∷ ops) entity = has_cas ops entity
has_cas (txn_del rel_id arity cols ∷ ops) entity = has_cas ops entity

module _ {D : Type 0} where
  abbrev pub name_of : RelEntry D → Bytes
  name_of (fixed name arity rel) = name
  name_of (variadic name vrel) = name

  unfoldable pub find_rel : List (RelEntry D) → Bytes → Option ℕ
  find_rel [] name = none
  find_rel (e ∷ rels) name =
      let later = find_rel rels name >>= λ i. some (suc i) in
      if words_eq (name_of e) name then some 0 else later

  -- `ensureRevRel`, with the relation that its declaration opens.
  unfoldable pub ensure_rev_rel : Option (Relation D) → Db D → Option (ℕ × Db D)
  unfolding find_rel
  ensure_rev_rel declared db = elim (find_rel db.rels rev_name) [
    | some i ↦ some (i, db)
    | none ↦ elim declared [
      | none ↦ none
      | some r ↦ some (length db.rels, record db { rels = db.rels ++ fixed rev_name 2 r ∷ [] })
    ]
  ]

  unfoldable pub dl_txn_begin : Db D → Ret × Db D
  dl_txn_begin db =
      if db.read_only
      then (err, db)
      else elim db.txn [ some ops ↦ (err, db) | none ↦ (ret 0, record db { txn = some [] }) ]

  -- `txnDiscard`.
  abbrev pub txn_discard : Db D → Db D
  txn_discard db = record db { txn = none }

  unfoldable pub dl_txn_rollback : Db D → Ret × Db D
  dl_txn_rollback db = elim db.txn [ none ↦ (err, db) | some ops ↦ (ret 0, txn_discard db) ]

  -- `txnBufOp`, with `room` whether its `realloc` succeeds.
  unfoldable pub txn_buf_op : Bool → Db D → List TxnOp → TxnOp → Ret × Db D
  txn_buf_op room db ops op =
      if room then (ret 0, record db { txn = some (ops ++ op ∷ []) }) else (err, db)

  -- `dl_txn_cas` of an entity with the symbol `entity`.
  unfoldable pub dl_txn_cas :
      Bool → Option (Relation D) → Db D → (entity expected new_value : ℕ) → Ret × Db D
  unfolding ensure_rev_rel has_cas txn_buf_op
  dl_txn_cas room declared db entity expected new_value = elim db.txn [
    | none ↦ (err, db)
    | some ops ↦ elim (ensure_rev_rel declared db) [
      | none ↦ (err, db)
      | some (i, db') ↦
          if expected == new_value
          then (ret 0, db')
          else if (entity == 0) || has_cas ops entity
          then (err, db')
          else txn_buf_op room db' ops (txn_cas entity expected new_value)
    ]
  ]

  -- The number of the fixed relation that a buffered fact names; "rev" is rejected.
  unfoldable pub txn_target : Db D → Bytes → ℕ → Option ℕ
  unfolding find_rel entry_at
  txn_target db rel arity =
      if words_eq rel rev_name
      then none
      else (find_rel db.rels rel >>= λ idx. entry_at db.rels idx >>= λ e. elim e [
        | variadic name vrel ↦ none
        | fixed name a r ↦ if arity == r.arity then some idx else none
      ])

  unfoldable pub dl_txn_add_fact : Bool → Db D → Bytes → Row → ℕ → Ret × Db D
  unfolding txn_target txn_buf_op
  dl_txn_add_fact room db rel cols arity = elim db.txn [
    | none ↦ (err, db)
    | some ops ↦ elim (txn_target db rel arity) [
      | none ↦ (err, db)
      | some idx ↦ txn_buf_op room db ops (txn_add idx arity cols)
    ]
  ]

  unfoldable pub dl_txn_delete_fact : Bool → Db D → Bytes → Row → ℕ → Ret × Db D
  unfolding txn_target txn_buf_op
  dl_txn_delete_fact room db rel cols arity = elim db.txn [
    | none ↦ (err, db)
    | some ops ↦ elim (txn_target db rel arity) [
      | none ↦ (err, db)
      | some idx ↦ txn_buf_op room db ops (txn_del idx arity cols)
    ]
  ]
