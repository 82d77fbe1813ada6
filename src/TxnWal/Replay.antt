-- ===== src/TxnWal/Replay.antt =====
-- `txnwal_replay` delivers the records of the committed transactions, and no others.
use datalog_dafsa.Base.{
  ℕ, zero, suc, ◌%◌, ◌^◌, ◌-◌, ◌<◌, ◌≡◌, refl, sym, ap, ◌∙◌, inl, inr, true, false, some, List, [],
  ◌∷◌, ◌++◌, append_assoc, arith, if◌then◌else◌, ◌==◌, length, length-append, take, drop,
  take-append, take_all, All, ltb, Bool-cases, ==_ne,
}
use datalog_dafsa.TxnWal.{
  Bytes, LogRecord, valid, body, encode, encode_all, op_commit, commit_record, header,
  validate_record, committed_end, deliver_first, deliver, replay, header_ok, open_rw,
}
use datalog_dafsa.TxnWal.Codec.{IsWritable, validate_record-encode}
use datalog_dafsa.TxnWal.Scan.{
  IsCrc, IsTorn, IsOpen, header-header_ok, commit-IsWritable, committed_end_lem, records_length,
}

-- The records but the commit markers.
abbrev pub facts : List LogRecord → List LogRecord
facts [] = []
facts (r ∷ rs) = if r.op == op_commit then facts rs else r ∷ facts rs

deliver_valid :
    (crc : Bytes → ℕ) (fuel b : ℕ) (bytes rest : Bytes) (r : LogRecord)
    → validate_record crc (b ∷ bytes) ≡ valid r rest
    → deliver crc (suc fuel) (b ∷ bytes)
      ≡ deliver_first (r.op == op_commit) r (deliver crc fuel rest)
unfolding deliver
deliver_valid crc fuel b bytes rest r read = rw (read, deliver) refl

deliver_record :
    (crc : Bytes → ℕ) (fuel : ℕ) (r : LogRecord) (rest : Bytes)
    → IsCrc crc
    → IsWritable r
    → deliver crc (suc fuel) (encode crc r ++ rest)
      ≡ deliver_first (r.op == op_commit) r (deliver crc fuel rest)
deliver_record crc fuel r rest small fits =
    deliver_valid crc fuel (length r.rel % 2 ^ 8) (drop 1 (encode crc r ++ rest)) rest r
      (validate_record-encode crc r rest (small (body r)) fits)

deliver_lem :
    (crc : Bytes → ℕ) (rs : List LogRecord) (fuel : ℕ)
    → IsCrc crc
    → All IsWritable rs
    → length rs < fuel
    → deliver crc fuel (encode_all crc rs) ≡ some (some (facts rs))
unfolding deliver
deliver_lem crc rs zero small writable enough = absurd (omega arith)
deliver_lem crc [] (suc fuel) small writable enough = refl
deliver_lem crc (r ∷ rs) (suc fuel) small (fits, writable) enough =
    deliver_record crc fuel r (encode_all crc rs) small fits
    ∙ ap (deliver_first (r.op == op_commit) r)
        (deliver_lem crc rs fuel small writable (omega arith))

pub All-append :
    (rs : List LogRecord) (r : LogRecord)
    → All IsWritable rs
    → IsWritable r
    → All IsWritable (rs ++ r ∷ [])
All-append [] r all fits = (fits, tt)
All-append (q ∷ rs) r (first, all) fits = (first, All-append rs r all fits)

pub encode_all-append :
    (crc : Bytes → ℕ) (rs more : List LogRecord)
    → encode_all crc (rs ++ more) ≡ encode_all crc rs ++ encode_all crc more
encode_all-append crc [] more = refl
encode_all-append crc (r ∷ rs) more =
    ap (λ (t : Bytes). encode crc r ++ t) (encode_all-append crc rs more)
    ∙ sym (append_assoc (encode crc r) (encode_all crc rs) (encode_all crc more))

-- The log begins with its committed prefix.
pub committed_bytes :
    (crc : Bytes → ℕ) (done opened : List LogRecord) (tail : Bytes)
    → encode_all crc (done ++ commit_record ∷ opened) ++ tail
      ≡ encode_all crc (done ++ commit_record ∷ []) ++ (encode_all crc opened ++ tail)
committed_bytes crc done opened tail =
    ap (λ (rs : List LogRecord). encode_all crc rs ++ tail)
      (sym (append_assoc done (commit_record ∷ []) opened))
    ∙ ap (λ (bytes : Bytes). bytes ++ tail)
        (encode_all-append crc (done ++ commit_record ∷ []) opened)
    ∙ append_assoc (encode_all crc (done ++ commit_record ∷ [])) (encode_all crc opened) tail

replay_stage :
    (crc : Bytes → ℕ) (file : Bytes) (end : ℕ)
    → committed_end crc file ≡ some (some end)
    → replay crc file ≡ deliver crc (length file) (take (end - 16) (drop 16 file))
unfolding replay
replay_stage crc file end found = rw (found, replay) refl

-- A log holds written records, a commit, records of a transaction that has not committed, and a
-- tail that does not begin with a valid record. Then `txnwal_replay` ends and delivers the records
-- before the commit, less the commit markers among them, in their order, and nothing else.
pub replay_lem :
    (crc : Bytes → ℕ) (done opened : List LogRecord) (tail : Bytes)
    → IsCrc crc
    → All IsWritable done
    → All IsOpen opened
    → IsTorn crc tail
    → replay crc (header crc ++ (encode_all crc (done ++ commit_record ∷ opened) ++ tail))
      ≡ some (some (facts (done ++ commit_record ∷ [])))
replay_lem crc done opened tail small writable opens stops =
    let committed : List LogRecord = done ++ commit_record ∷ [] in
    let bytes : Bytes = encode_all crc (done ++ commit_record ∷ opened) ++ tail in
    let size : length (header crc ++ encode_all crc committed) - 16
        ≡ length (encode_all crc committed) =
      omega arith in
    replay_stage crc (header crc ++ bytes) _
      (committed_end_lem crc done opened tail small writable opens stops)
    ∙ ap (λ (n : ℕ). deliver crc (length (header crc ++ bytes)) (take n bytes)) size
    ∙ ap (deliver crc (length (header crc ++ bytes))) (
        ap (take (length (encode_all crc committed))) (committed_bytes crc done opened tail)
        ∙ take-append (encode_all crc committed) (encode_all crc opened ++ tail) _ refl)
    ∙ deliver_lem crc committed _ small (All-append done commit_record writable commit-IsWritable) (
        omega (
          arith,
          records_length crc committed,
          ap length (committed_bytes crc done opened tail),
          length-append (encode_all crc committed) (encode_all crc opened ++ tail),
        ))

open_found :
    (crc : Bytes → ℕ) (file : Bytes) (end : ℕ)
    → (length file == 0) ≡ false
    → header_ok crc file ≡ true
    → committed_end crc file ≡ some (some end)
    → open_rw crc file ≡ some (some (if ltb end (length file) then take end file else file))
unfolding open_rw
open_found crc file end some_bytes good found = rw (found, open_rw) (rw (some_bytes, good) refl)

cut_or_whole :
    (end : ℕ) (file : Bytes)
    → (if ltb end (length file) then take end file else file) ≡ take end file
cut_or_whole end file = elim (Bool-cases (ltb end (length file))) [
  | inl cut ↦ rw cut refl
  | inr whole ↦ rw whole (sym (take_all end file (ground arith)))
]

open_stage :
    (crc : Bytes → ℕ) (file kept : Bytes) (end : ℕ)
    → (length file == 0) ≡ false
    → header_ok crc file ≡ true
    → committed_end crc file ≡ some (some end)
    → take end file ≡ kept
    → open_rw crc file ≡ some (some kept)
open_stage crc file kept end some_bytes good found front =
    open_found crc file end some_bytes good found
    ∙ ap (λ (b : Bytes). some (some b)) (cut_or_whole end file ∙ front)

-- A log holds written records, a commit, records of a transaction that has not committed, and a
-- tail that does not begin with a valid record. Then `txnwal_open_rw`, where the file calls succeed,
-- leaves the header and the records up to the commit.
pub open_rw_lem :
    (crc : Bytes → ℕ) (done opened : List LogRecord) (tail : Bytes)
    → IsCrc crc
    → All IsWritable done
    → All IsOpen opened
    → IsTorn crc tail
    → open_rw crc (header crc ++ (encode_all crc (done ++ commit_record ∷ opened) ++ tail))
      ≡ some (some (header crc ++ encode_all crc (done ++ commit_record ∷ [])))
open_rw_lem crc done opened tail small writable opens stops =
    let committed : Bytes = encode_all crc (done ++ commit_record ∷ []) in
    let bytes : Bytes = encode_all crc (done ++ commit_record ∷ opened) ++ tail in
    open_stage crc (header crc ++ bytes) _ (length (header crc ++ committed))
      (==_ne _ 0 (omega arith)) (header-header_ok crc bytes small)
      (committed_end_lem crc done opened tail small writable opens stops)
      (ap (λ (b : Bytes). take (length (header crc ++ committed)) (header crc ++ b))
          (committed_bytes crc done opened tail)
        ∙ take-append (header crc ++ committed) (encode_all crc opened ++ tail) _ refl)
