-- ===== src/Examples/Logs.antt =====
-- Runs of the transaction log, and its theorems on them.
use datalog_dafsa.Base.{ℕ, ◌+◌, ◌%◌, ◌^◌, ◌≡◌, refl, inl, inr, some, [], ◌∷◌, ◌++◌, arith, take}
use datalog_dafsa.TxnWal.{
  Bytes, LogRecord, torn, body, encode, encode_all, commit_record, header, op_add, op_del,
  validate_record, replay, open_rw,
}
use datalog_dafsa.TxnWal.Codec.{IsWritable}
use datalog_dafsa.TxnWal.Scan.{IsCrc, IsTorn, IsOpen}
use datalog_dafsa.TxnWal.Torn.{take-IsTorn}
use datalog_dafsa.TxnWal.Replay.{replay_lem, open_rw_lem}

-- A checksum of 32 bits in the place of the CRC.
abbrev pub byte_sum : Bytes → ℕ
byte_sum [] = 0
byte_sum (b ∷ bytes) = (b + byte_sum bytes) % 2 ^ 32

pub byte_sum-IsCrc : IsCrc byte_sum
byte_sum-IsCrc [] = omega arith
byte_sum-IsCrc (b ∷ bytes) = omega arith

abbrev pub add_fact : LogRecord
add_fact = record { rel = 101 ∷ []; op = op_add; key = 3 ∷ 1 ∷ [] }

abbrev pub del_fact : LogRecord
del_fact = record { rel = 101 ∷ []; op = op_del; key = 4 ∷ 1 ∷ [] }

-- The first bytes of a record whose rest was never written.
abbrev pub cut : Bytes
cut = 1 ∷ 0 ∷ 101 ∷ []

pub add_fact-IsWritable : IsWritable add_fact
add_fact-IsWritable = record { known = inl refl; rel_fits = omega arith; key_fits = omega arith }

pub del_fact-IsOpen : IsOpen del_fact
del_fact-IsOpen = (
  record { known = inr (inl refl); rel_fits = omega arith; key_fits = omega arith },
  λ e. absurd (omega arith),
)

cut_run : validate_record byte_sum cut ≡ torn
unfolding validate_record
cut_run = refl

pub cut-IsTorn : IsTorn byte_sum cut
cut-IsTorn r rest read = cc (read, cut_run)

replay_lem_example :
    replay byte_sum
      (header byte_sum ++ (encode_all byte_sum (add_fact ∷ commit_record ∷ del_fact ∷ []) ++ cut))
    ≡ some (some (add_fact ∷ []))
replay_lem_example =
    replay_lem byte_sum (add_fact ∷ []) (del_fact ∷ []) cut byte_sum-IsCrc (add_fact-IsWritable, tt)
      (del_fact-IsOpen, tt) cut-IsTorn

open_rw_lem_example :
    open_rw byte_sum
      (header byte_sum ++ (encode_all byte_sum (add_fact ∷ commit_record ∷ del_fact ∷ []) ++ cut))
    ≡ some (some (header byte_sum ++ encode_all byte_sum (add_fact ∷ commit_record ∷ [])))
open_rw_lem_example =
    open_rw_lem byte_sum (add_fact ∷ []) (del_fact ∷ []) cut byte_sum-IsCrc
      (add_fact-IsWritable, tt) (del_fact-IsOpen, tt) cut-IsTorn

-- The record is of 14 bytes, and only its CRC is cut.
take-IsTorn_example : IsTorn byte_sum (take 12 (encode byte_sum add_fact))
take-IsTorn_example =
    take-IsTorn byte_sum add_fact 12 (byte_sum-IsCrc (body add_fact)) add_fact-IsWritable
      (omega arith)
