-- ===== src/Examples/Txns.antt =====
-- The theorems on transactions at concrete inputs.
use datalog_dafsa.Base.{◌≡◌, refl, true, false, none, some, [], ◌∷◌, ◌++◌, arith, inl}
use datalog_dafsa.Relation.{encode_key}
use datalog_dafsa.TxnWal.{LogRecord, commit_record, header, encode_all, op_add}
use datalog_dafsa.Txn.Commit.{Outcomes, log_ops}
use datalog_dafsa.Txn.Commit.Appends.{IsAppendable}
use datalog_dafsa.Txn.Commit.Atomic.{IsAtomic, log_ops-replay}
use datalog_dafsa.Examples.Relations.{high}
use datalog_dafsa.Examples.Logs.{byte_sum, byte_sum-IsCrc, add_fact, add_fact-IsWritable}

abbrev all_well : Outcomes
all_well = record {
  room = true;
  saved = true;
  del_logged = true;
  add_logged = true;
  appended = λ i. none;
  hook_passes = true;
  marked = none;
  synced = true;
}

abbrev add_record : LogRecord
add_record = record { rel = 101 ∷ []; op = op_add; key = encode_key high 2 }

add_record-IsAppendable : IsAppendable add_record
unfolding encode_key
add_record-IsAppendable = record {
  known = inl refl;
  named = omega arith;
  rel_fits = omega arith;
  key_fits = omega arith;
}

-- The append of the record stops after three bytes.
abbrev short_write : Outcomes
short_write = record all_well { appended = λ i. some 3 }

short_write_run : log_ops byte_sum short_write (add_record ∷ []) [] ≡ (false, 1 ∷ 0 ∷ 101 ∷ [])
unfolding log_ops encode_key
short_write_run = refl

log_ops-replay_example : IsAtomic byte_sum all_well (add_fact ∷ []) (add_record ∷ []) (
    log_ops byte_sum all_well
      (add_record ∷ [])
      (header byte_sum ++ encode_all byte_sum (add_fact ∷ commit_record ∷ [])))
log_ops-replay_example =
    log_ops-replay byte_sum all_well (add_fact ∷ []) (add_record ∷ []) byte_sum-IsCrc
      (add_fact-IsWritable, tt) (add_record-IsAppendable, tt)
