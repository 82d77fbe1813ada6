-- ===== src/TxnWal/Codec.antt =====
-- `txnwalValidateRecord` reads back what the append functions write.
use datalog_dafsa.Base.{
  ℕ, ◌+◌, ◌^◌, ◌<◌, ◌≡◌, refl, sym, ap, ◌∙◌, ◌⊎◌, inl, inr, true, false, not, ◌&&◌, some, [], ◌∷◌,
  ◌++◌, append_assoc, arith, ◌==◌, ==_refl, ltb, length, length-append, get_or, take, drop,
  take-append, drop-append,
}
use datalog_dafsa.TxnWal.{
  Bytes, LogRecord, valid, read_u16, read_u32, le16, le32, body, encode, op_add, op_del, op_commit,
  is_op, validate_key, validate_op, validate_record,
}

-- What `txnwal_append_record` and `txnwal_append_commit` write: an add or a delete, or a commit
-- without a name; the lengths fit their fields.
pub record IsWritable (r : LogRecord) : Type 0 where
  pub known : (r.op ≡ op_add) ⊎ (r.op ≡ op_del) ⊎ ((r.op ≡ op_commit) × (r.rel ≡ []))
  pub rel_fits : length r.rel < 2 ^ 16
  pub key_fits : length r.key < 2 ^ 32

pub read_le32 : (n : ℕ) (t : Bytes) → n < 2 ^ 32 → read_u32 (le32 n ++ t) ≡ some n
unfolding read_u32
read_le32 n t small = ap some (omega arith)

read_le16 : (n : ℕ) (t : Bytes) → n < 2 ^ 16 → read_u16 (le16 n ++ t) ≡ some n
unfolding read_u16
read_le16 n t small = ap some (omega arith)

-- The stages of `txnwalValidateRecord`, each on bytes that pass its tests.
key_stage :
    (crc : Bytes → ℕ) (bytes rel : Bytes) (o klen : ℕ) (after : Bytes) (stored : ℕ)
    → ltb (length bytes) (2 + length rel + 1 + 4 + klen + 4) ≡ false
    → read_u32 (drop klen after) ≡ some stored
    → crc (take (2 + length rel + 1 + 4 + klen) bytes) ≡ stored
    → validate_key crc bytes rel o klen after
      ≡ valid (record { rel = rel; op = o; key = take klen after }) (drop 4 (drop klen after))
unfolding validate_key
key_stage crc bytes rel o klen after stored long read sum =
    rw (long, read, sum, ==_refl stored) refl

op_stage :
    (crc : Bytes → ℕ) (bytes rel : Bytes) (klen : ℕ) (tail : Bytes)
    → is_op (get_or tail 0 0) ≡ true
    → ((get_or tail 0 0 == op_commit) && not (length rel == 0)) ≡ false
    → read_u32 (drop 1 tail) ≡ some klen
    → validate_op crc bytes rel tail
      ≡ validate_key crc bytes rel (get_or tail 0 0) klen (drop 5 tail)
unfolding validate_op
op_stage crc bytes rel klen tail known named read = rw (known, named, read) refl

rel_stage :
    (crc : Bytes → ℕ) (bytes : Bytes) (rlen : ℕ)
    → ltb (length bytes) 11 ≡ false
    → read_u16 bytes ≡ some rlen
    → ltb (length bytes) (2 + rlen + 1 + 4 + 4) ≡ false
    → validate_record crc bytes
      ≡ validate_op crc bytes (take rlen (drop 2 bytes)) (drop rlen (drop 2 bytes))
unfolding validate_record
rel_stage crc bytes rlen long read room = rw (long, read, room) refl

-- A record as the validator meets it, with the bytes after it.
abbrev written : (Bytes → ℕ) → LogRecord → Bytes → Bytes
written crc r rest =
    le16 (length r.rel)
    ++ (r.rel ++ (r.op ∷ (le32 (length r.key) ++ (r.key ++ (le32 (crc (body r)) ++ rest)))))

written-body :
    (crc : Bytes → ℕ) (r : LogRecord) (rest : Bytes)
    → body r ++ (le32 (crc (body r)) ++ rest) ≡ written crc r rest
written-body crc r rest =
    ap (λ (t : Bytes). le16 (length r.rel) ++ t)
      (append_assoc r.rel (r.op ∷ (le32 (length r.key) ++ r.key)) (le32 (crc (body r)) ++ rest))

written-encode :
    (crc : Bytes → ℕ) (r : LogRecord) (rest : Bytes) → encode crc r ++ rest ≡ written crc r rest
written-encode crc r rest =
    append_assoc (body r) (le32 (crc (body r))) rest ∙ written-body crc r rest

pub length-body : (r : LogRecord) → length (body r) ≡ 2 + length r.rel + 1 + 4 + length r.key
length-body r = omega (arith, length-append r.rel (r.op ∷ (le32 (length r.key) ++ r.key)))

length-written :
    (crc : Bytes → ℕ) (r : LogRecord) (rest : Bytes)
    → length (written crc r rest) ≡ 2 + length r.rel + 1 + 4 + length r.key + 4 + length rest
length-written crc r rest = omega (
  arith,
  length-append r.rel (r.op ∷ (le32 (length r.key) ++ (r.key ++ (le32 (crc (body r)) ++ rest)))),
  length-append r.key (le32 (crc (body r)) ++ rest),
)

op_tests :
    (r : LogRecord)
    → IsWritable r
    → (is_op r.op ≡ true) × (((r.op == op_commit) && not (length r.rel == 0)) ≡ false)
op_tests r fits = elim fits.known [
  | inl add ↦ (rw add refl, rw add refl)
  | inr (inl del) ↦ (rw del refl, rw del refl)
  | inr (inr (commit, unnamed)) ↦ (rw commit refl, rw (commit, unnamed) refl)
]

-- A record that was written, with any bytes after it, validates as that record and those bytes.
pub validate_record-encode :
    (crc : Bytes → ℕ) (r : LogRecord) (rest : Bytes)
    → crc (body r) < 2 ^ 32
    → IsWritable r
    → validate_record crc (encode crc r ++ rest) ≡ valid r rest
validate_record-encode crc r rest small fits =
    let stored : Bytes = le32 (crc (body r)) ++ rest in
    let after : Bytes = r.key ++ stored in
    let bytes : Bytes = written crc r rest in
    let len = length-written crc r rest in
    let tail : Bytes = r.op ∷ (le32 (length r.key) ++ after) in
    let covered : take (2 + length r.rel + 1 + 4 + length r.key) bytes ≡ body r =
      ap (take (2 + length r.rel + 1 + 4 + length r.key)) (sym (written-body crc r rest))
      ∙ take-append (body r) stored _ (sym (length-body r)) in
    let at_crc : drop (length r.key) after ≡ stored = drop-append r.key stored _ refl in
    let (known, named) = op_tests r fits in
    ap (validate_record crc) (written-encode crc r rest)
    ∙ rel_stage crc bytes (length r.rel) (ground arith) (read_le16 (length r.rel) _ fits.rel_fits)
        (ground arith)
    ∙ (λ i.
        validate_op crc bytes (take-append r.rel tail _ refl i) (drop-append r.rel tail _ refl i))
    ∙ op_stage crc bytes r.rel (length r.key) tail known named
        (read_le32 (length r.key) after fits.key_fits)
    ∙ key_stage crc bytes r.rel r.op (length r.key) after (crc (body r)) (ground arith)
        (ap read_u32 at_crc ∙ read_le32 (crc (body r)) rest small) (ap crc covered)
    ∙ (λ i.
        valid (record { rel = r.rel; op = r.op; key = take-append r.key stored _ refl i })
          (drop 4 (at_crc i)))
