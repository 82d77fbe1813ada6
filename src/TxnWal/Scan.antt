-- ===== src/TxnWal/Scan.antt =====
-- `txnwalCommittedEnd` finds the end of the last commit: what follows it, uncommitted records or a
-- torn tail, is not part of the committed prefix.
use datalog_dafsa.Base.{
  ℕ, zero, suc, ◌+◌, ◌-◌, ◌^◌, ◌≤◌, ◌<◌, ◌≡◌, ◌≢◌, refl, ap, ◌∙◌, ◌⊎◌, inl, inr, Bool, true, false,
  Option, some, List, [], ◌∷◌, ◌++◌, append_assoc, arith, if◌then◌else◌, ◌==◌, ==_refl, ==_ne, ltb,
  length, length-append, take, drop, words_eq, All,
}
use datalog_dafsa.TxnWal.{
  Bytes, LogRecord, Validation, valid, corrupt, torn, body, encode, encode_all, op_commit,
  commit_record, header, header_fields, header_ok, read_u32, validate_record, scan, committed_end,
}
use datalog_dafsa.TxnWal.Codec.{IsWritable, read_le32, validate_record-encode}

-- A CRC of 32 bits.
abbrev pub IsCrc : (Bytes → ℕ) → Type 0
IsCrc crc = (bytes : Bytes) → crc bytes < 2 ^ 32

-- Bytes that do not begin with a valid record.
abbrev pub IsTorn : (Bytes → ℕ) → Bytes → Type 0
IsTorn crc bytes = (r : LogRecord) (rest : Bytes) → validate_record crc bytes ≢ valid r rest

-- A record of a transaction that has not committed.
abbrev pub IsOpen : LogRecord → Type 0
IsOpen r = IsWritable r × (r.op ≢ op_commit)

Validation-cases :
    (v : Validation)
    → (v ≡ corrupt) ⊎ (v ≡ torn) ⊎ ((r : LogRecord) × (rest : Bytes) × (v ≡ valid r rest))
Validation-cases corrupt = inl refl
Validation-cases torn = inr (inl refl)
Validation-cases (valid r rest) = inr (inr (r, rest, refl))

scan_torn :
    (crc : Bytes → ℕ) (fuel : ℕ) (bytes : Bytes) (at end : ℕ)
    → IsTorn crc bytes
    → scan crc (suc fuel) bytes at end ≡ some end
unfolding scan
scan_torn crc fuel [] at end stops = refl
scan_torn crc fuel (b ∷ bytes) at end stops =
    elim (Validation-cases (validate_record crc (b ∷ bytes))) [
      | inl bad ↦ rw (bad, scan) refl
      | inr (inl short) ↦ rw (short, scan) refl
      | inr (inr (r, rest, read)) ↦ absurd (stops r rest read)
    ]

scan_valid :
    (crc : Bytes → ℕ) (fuel : ℕ) (b : ℕ) (bytes rest : Bytes) (r : LogRecord) (at end : ℕ)
    → validate_record crc (b ∷ bytes) ≡ valid r rest
    → scan crc (suc fuel) (b ∷ bytes) at end
      ≡ scan crc fuel rest
          (at + (length (b ∷ bytes) - length rest))
          (if r.op == op_commit then at + (length (b ∷ bytes) - length rest) else end)
unfolding scan
scan_valid crc fuel b bytes rest r at end read = rw (read, scan) refl

scan_record :
    (crc : Bytes → ℕ) (fuel : ℕ) (r : LogRecord) (rest : Bytes) (at end : ℕ)
    → IsCrc crc
    → IsWritable r
    → scan crc (suc fuel) (encode crc r ++ rest) at end
      ≡ scan crc fuel rest
          (at + length (encode crc r))
          (if r.op == op_commit then at + length (encode crc r) else end)
scan_record crc fuel r rest at end small fits =
    let read = validate_record-encode crc r rest (small (body r)) fits in
    let size : length (encode crc r ++ rest) - length rest ≡ length (encode crc r) =
      omega (arith, length-append (encode crc r) rest) in
    scan_valid crc fuel _ _ rest r at end read
    ∙ ap (λ (n : ℕ). scan crc fuel rest (at + n) (if r.op == op_commit then at + n else end)) size

-- Open records move the scan on, and not the committed end.
scan_open :
    (crc : Bytes → ℕ) (rs : List LogRecord) (tail : Bytes) (fuel at end : ℕ)
    → IsCrc crc
    → All IsOpen rs
    → IsTorn crc tail
    → length rs < fuel
    → scan crc fuel (encode_all crc rs ++ tail) at end ≡ some end
scan_open crc rs tail zero at end small opens stops enough = absurd (omega arith)
scan_open crc [] tail (suc fuel) at end small opens stops enough =
    scan_torn crc fuel tail at end stops
scan_open crc (r ∷ rs) tail (suc fuel) at end small ((fits, uncommitted), opens) stops enough =
    ap (λ (bytes : Bytes). scan crc (suc fuel) bytes at end)
      (append_assoc (encode crc r) (encode_all crc rs) tail)
    ∙ scan_record crc fuel r (encode_all crc rs ++ tail) at end small fits
    ∙ ap
        (λ (b : Bool).
          scan crc fuel (encode_all crc rs ++ tail) (at + length (encode crc r))
            (if b then at + length (encode crc r) else end))
        (==_ne r.op op_commit uncommitted)
    ∙ scan_open crc rs tail fuel _ end small opens stops (omega arith)

pub commit-IsWritable : IsWritable commit_record
commit-IsWritable = record {
  known = inr (inr (refl, refl));
  rel_fits = omega arith;
  key_fits = omega arith;
}

scan_done :
    (crc : Bytes → ℕ) (rs opened : List LogRecord) (tail : Bytes) (fuel at end : ℕ)
    → IsCrc crc
    → All IsWritable rs
    → All IsOpen opened
    → IsTorn crc tail
    → length rs + 1 + length opened < fuel
    → scan crc fuel (encode_all crc (rs ++ commit_record ∷ opened) ++ tail) at end
      ≡ some (at + length (encode_all crc (rs ++ commit_record ∷ [])))
scan_done crc rs opened tail zero at end small done opens stops enough = absurd (omega arith)
scan_done crc [] opened tail (suc fuel) at end small done opens stops enough =
    ap (λ (bytes : Bytes). scan crc (suc fuel) bytes at end)
      (append_assoc (encode crc commit_record) (encode_all crc opened) tail)
    ∙ scan_record crc fuel commit_record (encode_all crc opened ++ tail) at end small
        commit-IsWritable
    ∙ scan_open crc opened tail fuel _ _ small opens stops (omega arith)
scan_done crc (r ∷ rs) opened tail (suc fuel) at end small (fits, done) opens stops enough =
    ap (λ (bytes : Bytes). scan crc (suc fuel) bytes at end)
      (append_assoc (encode crc r) (encode_all crc (rs ++ commit_record ∷ opened)) tail)
    ∙ scan_record crc fuel r (encode_all crc (rs ++ commit_record ∷ opened) ++ tail) at end small
        fits
    ∙ scan_done crc rs opened tail fuel _ _ small done opens stops (omega arith)
    ∙ ap some
        (omega (arith, length-append (encode crc r) (encode_all crc (rs ++ commit_record ∷ []))))

header_stage :
    (crc : Bytes → ℕ) (file : Bytes) (stored : ℕ)
    → ltb (length file) 16 ≡ false
    → words_eq (take 4 file) (68 ∷ 84 ∷ 88 ∷ 76 ∷ []) ≡ true
    → read_u32 (drop 4 file) ≡ some 1
    → read_u32 (drop 12 file) ≡ some stored
    → crc (take 12 file) ≡ stored
    → header_ok crc file ≡ true
unfolding header_ok
header_stage crc file stored long magic version read sum =
    rw (long, magic, version, read, sum, ==_refl stored) refl

pub header-header_ok :
    (crc : Bytes → ℕ) (rest : Bytes) → IsCrc crc → header_ok crc (header crc ++ rest) ≡ true
unfolding words_eq read_u32
header-header_ok crc rest small =
    header_stage crc (header crc ++ rest) (crc header_fields) (ground arith) refl refl
      (read_le32 (crc header_fields) rest (small header_fields)) refl

pub records_length :
    (crc : Bytes → ℕ) (rs : List LogRecord) → length rs ≤ length (encode_all crc rs)
records_length crc [] = omega arith
records_length crc (r ∷ rs) =
    omega (arith, length-append (encode crc r) (encode_all crc rs), records_length crc rs)

committed_stage :
    (crc : Bytes → ℕ) (file : Bytes) (r : Option ℕ)
    → header_ok crc file ≡ true
    → scan crc (length file) (drop 16 file) 16 16 ≡ r
    → committed_end crc file ≡ some r
unfolding committed_end
committed_stage crc file r good run = rw (good, run) refl

-- A log holds written records, a commit, records of a transaction that has not committed, and a
-- tail that does not begin with a valid record. Then the scan ends, and the committed prefix
-- ends with the commit: the records and the tail after it are dropped.
pub committed_end_lem :
    (crc : Bytes → ℕ) (done opened : List LogRecord) (tail : Bytes)
    → IsCrc crc
    → All IsWritable done
    → All IsOpen opened
    → IsTorn crc tail
    → committed_end crc (header crc ++ (encode_all crc (done ++ commit_record ∷ opened) ++ tail))
      ≡ some (some (length (header crc ++ encode_all crc (done ++ commit_record ∷ []))))
committed_end_lem crc done opened tail small writable opens stops =
    let records : List LogRecord = done ++ commit_record ∷ opened in
    let bytes : Bytes = encode_all crc records ++ tail in
    committed_stage crc (header crc ++ bytes) _ (header-header_ok crc bytes small) (
      scan_done crc done opened tail _ 16 16 small writable opens stops (
        omega (
          arith,
          length-append done (commit_record ∷ opened),
          length-append (encode_all crc records) tail,
          records_length crc records,
        )))
    ∙ ap (λ (n : ℕ). some (some n)) (omega arith)
