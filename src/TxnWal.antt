-- ===== src/TxnWal.antt =====
-- The transaction log of zig/src/txnwal.zig (and src/txnwal.h): its records as bytes, their
-- validation, and the scan for the committed prefix. The CRC is `crc32_compute` of the DAFSA
-- library, a parameter. A file is the list of its bytes. Syncing and closing the file are left
-- out.
pub mod Codec
pub mod Scan
pub mod Replay
pub mod Torn
use datalog_dafsa.Base.{
  ℕ, zero, suc, ◌+◌, ◌-◌, ◌*◌, ◌/◌, ◌%◌, ◌^◌, Bool, true, false, not, ◌&&◌, ◌||◌, Option, none,
  some, List, [], ◌∷◌, ◌++◌, if◌then◌else◌, ◌==◌, ltb, length, get_or, take, drop, words_eq,
}

abbrev pub Bytes : Type 0
Bytes = List ℕ

abbrev pub op_add : ℕ
op_add = 1

abbrev pub op_del : ℕ
op_del = 2

abbrev pub op_commit : ℕ
op_commit = 3

pub record LogRecord : Type 0 where
  pub rel : Bytes
  pub op : ℕ
  pub key : Bytes

-- The results 0, -1 and -2 of `txnwalValidateRecord`; a valid record comes with the bytes after it.
pub data Validation : Type 0 where
  valid : LogRecord → Bytes → Validation
  corrupt : Validation
  torn : Validation

-- The little-endian readers; `none` is the short read.
unfoldable pub read_u16 : Bytes → Option ℕ
read_u16 (a ∷ b ∷ _) = some (a + b * 2 ^ 8)
read_u16 _ = none

unfoldable pub read_u32 : Bytes → Option ℕ
read_u32 (a ∷ b ∷ c ∷ d ∷ _) = some (a + b * 2 ^ 8 + c * 2 ^ 16 + d * 2 ^ 24)
read_u32 _ = none

abbrev pub le16 : ℕ → Bytes
le16 n = n % 2 ^ 8 ∷ n / 2 ^ 8 % 2 ^ 8 ∷ []

abbrev pub le32 : ℕ → Bytes
le32 n = n % 2 ^ 8 ∷ n / 2 ^ 8 % 2 ^ 8 ∷ n / 2 ^ 16 % 2 ^ 8 ∷ n / 2 ^ 24 % 2 ^ 8 ∷ []

-- The bytes that the record's CRC covers.
abbrev pub body : LogRecord → Bytes
body r = le16 (length r.rel) ++ (r.rel ++ (r.op ∷ (le32 (length r.key) ++ r.key)))

-- The buffer that `txnwal_append_record` and `txnwal_append_commit` write.
abbrev pub encode : (Bytes → ℕ) → LogRecord → Bytes
encode crc r = body r ++ le32 (crc (body r))

-- The allocation and `txnwalWriteAll` of an append: `none` where both succeed; `some n` where one
-- fails with `n` bytes of the buffer written, which are fewer than all: the allocation, and a write
-- that is said to fail behind the buffer, write none.
unfoldable pub write_all : Option ℕ → Bytes → Bytes → Bool × Bytes
write_all none file buf = (true, file ++ buf)
write_all (some n) file buf = (false, if ltb n (length buf) then file ++ take n buf else file)

-- `txnwal_append_record`: whether it returns 0, and the file after it.
unfoldable pub append_record : (Bytes → ℕ) → Option ℕ → Bytes → LogRecord → Bool × Bytes
unfolding write_all
append_record crc outcome file r =
    if not ((r.op == op_add) || (r.op == op_del))
    then (false, file)
    else if length r.rel == 0
    then (false, file)
    else write_all outcome file (encode crc r)

abbrev pub commit_record : LogRecord
commit_record = record { rel = []; op = op_commit; key = [] }

-- `txnwal_append_commit`.
unfoldable pub append_commit : (Bytes → ℕ) → Option ℕ → Bytes → Bool × Bytes
unfolding write_all
append_commit crc outcome file = write_all outcome file (encode crc commit_record)

abbrev pub is_op : ℕ → Bool
is_op o = (o == op_add) || (o == op_del) || (o == op_commit)

-- `txnwalValidateRecord` from the key on, which begins at `after`.
unfoldable pub validate_key : (Bytes → ℕ) → Bytes → Bytes → ℕ → ℕ → Bytes → Validation
unfolding read_u32
validate_key crc bytes rel o klen after =
    let size = 2 + length rel + 1 + 4 + klen in
    if ltb (length bytes) (size + 4) then torn else elim (read_u32 (drop klen after)) [
      | none ↦ torn
      | some stored ↦
          if crc (take size bytes) == stored
          then valid (record { rel = rel; op = o; key = take klen after })
              (drop 4 (drop klen after))
          else corrupt
    ]

-- From the opcode on, which begins `tail`.
unfoldable pub validate_op : (Bytes → ℕ) → Bytes → Bytes → Bytes → Validation
unfolding validate_key
validate_op crc bytes rel tail =
    let o = get_or tail 0 0 in
    if not (is_op o)
    then corrupt
    else if (o == op_commit) && not (length rel == 0)
    then corrupt
    else elim (read_u32 (drop 1 tail)) [
      | none ↦ torn
      | some klen ↦ validate_key crc bytes rel o klen (drop 5 tail)
    ]

unfoldable pub validate_record : (Bytes → ℕ) → Bytes → Validation
unfolding validate_op read_u16
validate_record crc bytes = if ltb (length bytes) 11 then torn else elim (read_u16 bytes) [
  | none ↦ torn
  | some rlen ↦
      if ltb (length bytes) (2 + rlen + 1 + 4 + 4)
      then torn
      else validate_op crc bytes (take rlen (drop 2 bytes)) (drop rlen (drop 2 bytes))
]

-- `txnwalWriteHeader`.
abbrev pub header_fields : Bytes
header_fields = 68 ∷ 84 ∷ 88 ∷ 76 ∷ 1 ∷ 0 ∷ 0 ∷ 0 ∷ 0 ∷ 0 ∷ 0 ∷ 0 ∷ []

abbrev pub header : (Bytes → ℕ) → Bytes
header crc = header_fields ++ le32 (crc header_fields)

-- `txnwalValidateHeader`.
unfoldable pub header_ok : (Bytes → ℕ) → Bytes → Bool
unfolding words_eq read_u32
header_ok crc file =
    if ltb (length file) 16
    then false
    else if not (words_eq (take 4 file) (68 ∷ 84 ∷ 88 ∷ 76 ∷ []))
    then false
    else elim (read_u32 (drop 4 file)) [
      | none ↦ false
      | some version ↦ elim (read_u32 (drop 12 file)) [
        | none ↦ false
        | some stored ↦ (version == 1) && (crc (take 12 file) == stored)
      ]
    ]

-- The loop of `txnwalCommittedEnd`: `at` is the offset of the bytes left, `end` that of the last
-- commit's end. `none` means that the fuel ran out.
unfoldable pub scan : (Bytes → ℕ) → ℕ → Bytes → ℕ → ℕ → Option ℕ
unfolding validate_record
scan crc zero bytes at end = none
scan crc (suc fuel) [] at end = some end
scan crc (suc fuel) (b ∷ bytes) at end = elim (validate_record crc (b ∷ bytes)) [
  | valid r rest ↦
      let next = at + (length (b ∷ bytes) - length rest) in
      scan crc fuel rest next (if r.op == op_commit then next else end)
  | corrupt ↦ some end
  | torn ↦ some end
]

-- `txnwalCommittedEnd`; the outer `none` is a bad header. Each round takes bytes off, so the file's
-- length is fuel enough.
unfoldable pub committed_end : (Bytes → ℕ) → Bytes → Option (Option ℕ)
unfolding header_ok scan
committed_end crc file =
    if header_ok crc file then some (scan crc (length file) (drop 16 file) 16 16) else none

-- `txnwal_open_rw` where the file calls succeed: the file that it leaves; the inner `none` is a null
-- handle.
unfoldable pub open_rw : (Bytes → ℕ) → Bytes → Option (Option Bytes)
unfolding committed_end
open_rw crc file =
    if length file == 0
    then some (some (header crc))
    else if not (header_ok crc file)
    then some (if length file == 16 then some (header crc) else none)
    else elim (committed_end crc file) [
      | none ↦ some none
      | some none ↦ none
      | some (some end) ↦ some (some (if ltb end (length file) then take end file else file))
    ]

-- `txnwal_truncate` to `offset` bytes.
unfoldable pub truncate : Bytes → ℕ → Bytes
truncate file offset = take (if ltb offset 16 then 16 else offset) file

-- The callback's calls, in order, for a callback that never aborts; `none` is the result -1.
abbrev pub deliver_first :
    Bool → LogRecord → Option (Option (List LogRecord)) → Option (Option (List LogRecord))
deliver_first is_commit r (some (some rs)) = some (some (if is_commit then rs else r ∷ rs))
deliver_first is_commit r later = later

-- The delivering loop of `txnwal_replay`; the outer `none` means that the fuel ran out.
unfoldable pub deliver : (Bytes → ℕ) → ℕ → Bytes → Option (Option (List LogRecord))
unfolding validate_record
deliver crc zero bytes = none
deliver crc (suc fuel) [] = some (some [])
deliver crc (suc fuel) (b ∷ bytes) = elim (validate_record crc (b ∷ bytes)) [
  | valid r rest ↦ deliver_first (r.op == op_commit) r (deliver crc fuel rest)
  | corrupt ↦ some none
  | torn ↦ some none
]

-- `txnwal_replay`: the records of the committed prefix but the commit markers.
unfoldable pub replay : (Bytes → ℕ) → Bytes → Option (Option (List LogRecord))
unfolding committed_end deliver
replay crc file = elim (committed_end crc file) [
  | none ↦ some none
  | some none ↦ none
  | some (some end) ↦ deliver crc (length file) (take (end - 16) (drop 16 file))
]

-- The records one after the other.
abbrev pub encode_all : (Bytes → ℕ) → List LogRecord → Bytes
encode_all crc [] = []
encode_all crc (r ∷ rs) = encode crc r ++ encode_all crc rs
