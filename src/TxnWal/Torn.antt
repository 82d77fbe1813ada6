-- ===== src/TxnWal/Torn.antt =====
-- A record of which only a beginning was written is torn: `txnwalValidateRecord` of zig/src/txnwal.zig
-- reads no record from it.
use datalog_dafsa.Base.{
  ℕ, zero, suc, ◌+◌, ◌-◌, ◌≤◌, ◌<◌, ◌≡◌, ◌≢◌, ◌^◌, ◌&&◌, refl, sym, ap, ◌∙◌, Bool, true, false, not,
  Option, none, some, [], ◌∷◌, ◌++◌, if◌then◌else◌, ◌==◌, ltb, length, length-append,
  get_or-append_left, take, drop, get_or, arith, Bool-cases, inl, inr, append-nil,
}
use datalog_dafsa.TxnWal.{
  Bytes, LogRecord, Validation, valid, torn, corrupt, body, encode, validate_key, validate_op,
  validate_record, read_u16, read_u32, is_op, op_commit,
}
use datalog_dafsa.TxnWal.Codec.{IsWritable, validate_record-encode}
use datalog_dafsa.TxnWal.Scan.{IsTorn}

take_front : (n : ℕ) (xs ys : Bytes) → n ≤ length xs → take n (xs ++ ys) ≡ take n xs
take_front zero xs ys h = refl
take_front (suc n) [] ys h = absurd (omega (arith, h))
take_front (suc n) (x ∷ xs) ys h = ap (◌∷◌ x) (take_front n xs ys (omega (arith, h)))

drop_front : (n : ℕ) (xs ys : Bytes) → n ≤ length xs → drop n (xs ++ ys) ≡ drop n xs ++ ys
drop_front zero xs ys h = refl
drop_front (suc n) [] ys h = absurd (omega (arith, h))
drop_front (suc n) (x ∷ xs) ys h = drop_front n xs ys (omega (arith, h))

length-drop : (n : ℕ) (xs : Bytes) → length (drop n xs) ≡ length xs - n
length-drop zero xs = omega arith
length-drop (suc n) [] = omega arith
length-drop (suc n) (x ∷ xs) = omega (arith, length-drop n xs)

length-take : (n : ℕ) (xs : Bytes) → n ≤ length xs → length (take n xs) ≡ n
length-take zero xs h = refl
length-take (suc n) [] h = absurd (omega (arith, h))
length-take (suc n) (x ∷ xs) h = omega (arith, length-take n xs (omega (arith, h)))

take-drop : (n : ℕ) (xs : Bytes) → take n xs ++ drop n xs ≡ xs
take-drop zero xs = refl
take-drop (suc n) [] = refl
take-drop (suc n) (x ∷ xs) = ap (◌∷◌ x) (take-drop n xs)

no_number : {v : ℕ} → none ≡ some v → ⊥
no_number e = cc

u16_front : (xs ys : Bytes) (v : ℕ) → read_u16 xs ≡ some v → read_u16 (xs ++ ys) ≡ some v
unfolding read_u16
u16_front [] ys v e = absurd (no_number e)
u16_front (a ∷ []) ys v e = absurd (no_number e)
u16_front (a ∷ b ∷ xs) ys v e = e

u32_front : (xs ys : Bytes) (v : ℕ) → read_u32 xs ≡ some v → read_u32 (xs ++ ys) ≡ some v
unfolding read_u32
u32_front [] ys v e = absurd (no_number e)
u32_front (a ∷ []) ys v e = absurd (no_number e)
u32_front (a ∷ b ∷ []) ys v e = absurd (no_number e)
u32_front (a ∷ b ∷ c ∷ []) ys v e = absurd (no_number e)
u32_front (a ∷ b ∷ c ∷ d ∷ xs) ys v e = e

u32_length : (xs : Bytes) (v : ℕ) → read_u32 xs ≡ some v → 4 ≤ length xs
unfolding read_u32
u32_length [] v e = absurd (no_number e)
u32_length (a ∷ []) v e = absurd (no_number e)
u32_length (a ∷ b ∷ []) v e = absurd (no_number e)
u32_length (a ∷ b ∷ c ∷ []) v e = absurd (no_number e)
u32_length (a ∷ b ∷ c ∷ d ∷ xs) v e = omega arith

torn_valid : {r : LogRecord} {rest : Bytes} → torn ≡ valid r rest → ⊥
torn_valid e = cc

corrupt_valid : {r : LogRecord} {rest : Bytes} → corrupt ≡ valid r rest → ⊥
corrupt_valid e = cc

more_bytes : Bytes → Validation → Validation
more_bytes more (valid r rest) = valid r (rest ++ more)
more_bytes more torn = torn
more_bytes more corrupt = corrupt

module _ (crc : Bytes → ℕ) where
  no_crc :
      (bytes rel after : Bytes) (o klen : ℕ)
      → ltb (length bytes) (2 + length rel + 1 + 4 + klen + 4) ≡ false
      → read_u32 (drop klen after) ≡ none
      → validate_key crc bytes rel o klen after ≡ torn
  unfolding validate_key
  no_crc bytes rel after o klen long e = rw (long, e) refl

  read_crc :
      (bytes rel after : Bytes) (o klen v : ℕ)
      → ltb (length bytes) (2 + length rel + 1 + 4 + klen + 4) ≡ false
      → read_u32 (drop klen after) ≡ some v
      → validate_key crc bytes rel o klen after ≡ (
          if crc (take (2 + length rel + 1 + 4 + klen) bytes) == v
          then valid
              (record { rel = rel; op = o; key = take klen after })
              (drop 4 (drop klen after))
          else corrupt)
  unfolding validate_key
  read_crc bytes rel after o klen v long e = rw (long, e) refl

  op_none :
      (bytes rel tail : Bytes)
      → read_u32 (drop 1 tail) ≡ none
      → validate_op crc bytes rel tail ≡ (
          if not (is_op (get_or tail 0 0))
          then corrupt
          else if (get_or tail 0 0 == op_commit) && not (length rel == 0)
          then corrupt
          else torn)
  unfolding validate_op
  op_none bytes rel tail e = rw (validate_op, e) refl

  op_some :
      (bytes rel tail : Bytes) (klen : ℕ)
      → read_u32 (drop 1 tail) ≡ some klen
      → validate_op crc bytes rel tail ≡ (
          if not (is_op (get_or tail 0 0))
          then corrupt
          else if (get_or tail 0 0 == op_commit) && not (length rel == 0)
          then corrupt
          else validate_key crc bytes rel (get_or tail 0 0) klen (drop 5 tail))
  unfolding validate_op
  op_some bytes rel tail klen e = rw (validate_op, e) refl

  record_none : (bytes : Bytes) → read_u16 bytes ≡ none → validate_record crc bytes ≡ torn
  unfolding validate_record
  record_none bytes e = elim (Bool-cases (ltb (length bytes) 11)) [
    | inl short ↦ rw short refl
    | inr long ↦ rw (validate_record, long, e) refl
  ]

  record_some :
      (bytes : Bytes) (rlen : ℕ)
      → read_u16 bytes ≡ some rlen
      → validate_record crc bytes ≡ (
          if ltb (length bytes) 11
          then torn
          else if ltb (length bytes) (2 + rlen + 1 + 4 + 4)
          then torn
          else validate_op crc bytes (take rlen (drop 2 bytes)) (drop rlen (drop 2 bytes)))
  unfolding validate_record
  record_some bytes rlen e = rw (validate_record, e) refl

module _ (crc : Bytes → ℕ) (more : Bytes) (r : LogRecord) (rest : Bytes) where
  chosen :
      (b : Bool) (x y : Validation)
      → (if b then x else corrupt) ≡ valid r rest
      → more_bytes more x ≡ y
      → (if b then y else corrupt) ≡ valid r (rest ++ more)
  unfolding more_bytes
  chosen true x y h e = sym e ∙ ap (more_bytes more) h
  chosen false x y h e = absurd (corrupt_valid h)

  crc_stage :
      (bytes rel after : Bytes) (o klen v : ℕ)
      → length bytes ≡ 7 + length rel + length after
      → ltb (length bytes) (2 + length rel + 1 + 4 + klen + 4) ≡ false
      → read_u32 (drop klen after) ≡ some v
      → validate_key crc bytes rel o klen after ≡ valid r rest
      → validate_key crc (bytes ++ more) rel o klen (after ++ more) ≡ valid r (rest ++ more)
  unfolding more_bytes
  crc_stage bytes rel after o klen v size long e h =
      let room : klen + 4 ≤ length after = ground (arith, size, long) in
      let behind : drop klen (after ++ more) ≡ drop klen after ++ more =
        drop_front klen after more (omega (arith, room)) in
      let last : drop 4 (drop klen (after ++ more)) ≡ drop 4 (drop klen after) ++ more =
        ap (drop 4) behind
        ∙ drop_front 4 (drop klen after) more (omega (arith, room, length-drop klen after)) in
      let long' : ltb (length (bytes ++ more)) (2 + length rel + 1 + 4 + klen + 4) ≡ false =
        ground (arith, long, length-append bytes more) in
      let e' : read_u32 (drop klen (after ++ more)) ≡ some v =
        ap read_u32 behind ∙ u32_front (drop klen after) more v e in
      let covered : take (2 + length rel + 1 + 4 + klen) (bytes ++ more)
          ≡ take (2 + length rel + 1 + 4 + klen) bytes =
        take_front (2 + length rel + 1 + 4 + klen) bytes more (ground (arith, long)) in
      let key : take klen (after ++ more) ≡ take klen after =
        take_front klen after more (omega (arith, room)) in
      read_crc crc (bytes ++ more) rel (after ++ more) o klen v long' e'
      ∙ rw (covered, key, last)
          (chosen (crc (take (2 + length rel + 1 + 4 + klen) bytes) == v) _ _
            (sym (read_crc crc bytes rel after o klen v long e) ∙ h) refl)

  key_stage :
      (bytes rel after : Bytes) (o klen : ℕ) (stored : Option ℕ)
      → length bytes ≡ 7 + length rel + length after
      → read_u32 (drop klen after) ≡ stored
      → validate_key crc bytes rel o klen after ≡ valid r rest
      → validate_key crc (bytes ++ more) rel o klen (after ++ more) ≡ valid r (rest ++ more)
  unfolding validate_key more_bytes
  key_stage bytes rel after o klen stored size e h =
      elim (Bool-cases (ltb (length bytes) (2 + length rel + 1 + 4 + klen + 4))) [
        | inl short ↦ absurd (torn_valid (sym (rw short refl) ∙ h))
        | inr long ↦ stored_stage stored long e
      ]
    where
      stored_stage :
          (stored : Option ℕ)
          → ltb (length bytes) (2 + length rel + 1 + 4 + klen + 4) ≡ false
          → read_u32 (drop klen after) ≡ stored
          → validate_key crc (bytes ++ more) rel o klen (after ++ more) ≡ valid r (rest ++ more)
      stored_stage none long e =
          absurd (torn_valid (sym (no_crc crc bytes rel after o klen long e) ∙ h))
      stored_stage (some v) long e = crc_stage bytes rel after o klen v size long e h

  guarded :
      (a b : Bool) (x y : Validation)
      → (x ≡ valid r rest → y ≡ valid r (rest ++ more))
      → (if a then corrupt else if b then corrupt else x) ≡ valid r rest
      → (if a then corrupt else if b then corrupt else y) ≡ valid r (rest ++ more)
  guarded true b x y f h = absurd (corrupt_valid h)
  guarded false true x y f h = absurd (corrupt_valid h)
  guarded false false x y f h = f h

  not_torn : (a b : Bool) → (if a then corrupt else if b then corrupt else torn) ≢ valid r rest
  not_torn true b h = corrupt_valid h
  not_torn false true h = corrupt_valid h
  not_torn false false h = torn_valid h

  op_stage :
      (bytes rel tail : Bytes) (klen : Option ℕ)
      → length bytes ≡ 2 + length rel + length tail
      → 5 ≤ length tail
      → read_u32 (drop 1 tail) ≡ klen
      → validate_op crc bytes rel tail ≡ valid r rest
      → validate_op crc (bytes ++ more) rel (tail ++ more) ≡ valid r (rest ++ more)
  op_stage bytes rel tail none size wide e h =
      absurd (not_torn _ _ (sym (op_none crc bytes rel tail e) ∙ h))
  op_stage bytes rel tail (some klen) size wide e h =
      let first : get_or (tail ++ more) 0 0 ≡ get_or tail 0 0 =
        get_or-append_left tail more 0 0 (omega (arith, wide)) in
      let e' : read_u32 (drop 1 (tail ++ more)) ≡ some klen =
        ap read_u32 (drop_front 1 tail more (omega (arith, wide)))
        ∙ u32_front (drop 1 tail) more klen e in
      let behind : drop 5 (tail ++ more) ≡ drop 5 tail ++ more = drop_front 5 tail more wide in
      op_some crc (bytes ++ more) rel (tail ++ more) klen e'
      ∙ rw (first, behind)
          (guarded _ _ _ _
            (key_stage bytes rel (drop 5 tail) (get_or tail 0 0) klen
              (read_u32 (drop klen (drop 5 tail))) (omega (arith, size, wide, length-drop 5 tail))
              refl)
            (sym (op_some crc bytes rel tail klen e) ∙ h))

  long_enough :
      (a b : Bool) (x : Validation)
      → (if a then torn else if b then torn else x) ≡ valid r rest
      → (a ≡ false) × (b ≡ false) × (x ≡ valid r rest)
  long_enough true b x h = absurd (torn_valid h)
  long_enough false true x h = absurd (torn_valid h)
  long_enough false false x h = (refl, refl, h)

  record_stage :
      (bytes : Bytes) (rlen : Option ℕ)
      → read_u16 bytes ≡ rlen
      → validate_record crc bytes ≡ valid r rest
      → validate_record crc (bytes ++ more) ≡ valid r (rest ++ more)
  record_stage bytes none e h = absurd (torn_valid (sym (record_none crc bytes e) ∙ h))
  record_stage bytes (some rlen) e h =
      let (wide, named, valid_op) =
        long_enough (ltb (length bytes) 11) (ltb (length bytes) (2 + rlen + 1 + 4 + 4))
          (validate_op crc bytes (take rlen (drop 2 bytes)) (drop rlen (drop 2 bytes)))
          (sym (record_some crc bytes rlen e) ∙ h) in
      let two : drop 2 (bytes ++ more) ≡ drop 2 bytes ++ more =
        drop_front 2 bytes more (ground (arith, wide)) in
      let room : rlen ≤ length (drop 2 bytes) = ground (arith, named, length-drop 2 bytes) in
      let name : take rlen (drop 2 (bytes ++ more)) ≡ take rlen (drop 2 bytes) =
        ap (take rlen) two ∙ take_front rlen (drop 2 bytes) more room in
      let tail : drop rlen (drop 2 (bytes ++ more)) ≡ drop rlen (drop 2 bytes) ++ more =
        ap (drop rlen) two ∙ drop_front rlen (drop 2 bytes) more room in
      let wide' : ltb (length (bytes ++ more)) 11 ≡ false =
        ground (arith, wide, length-append bytes more) in
      let named' : ltb (length (bytes ++ more)) (2 + rlen + 1 + 4 + 4) ≡ false =
        ground (arith, named, length-append bytes more) in
      record_some crc (bytes ++ more) rlen (u16_front bytes more rlen e)
      ∙ rw (wide', named', name, tail)
          (op_stage bytes (take rlen (drop 2 bytes)) (drop rlen (drop 2 bytes))
            (read_u32 (drop 1 (drop rlen (drop 2 bytes))))
            (ground (
              arith,
              named,
              length-take rlen (drop 2 bytes) room,
              length-drop rlen (drop 2 bytes),
              length-drop 2 bytes,
            ))
            (ground (arith, named, length-drop rlen (drop 2 bytes), length-drop 2 bytes)) refl
            valid_op)

no_more : {r r' : LogRecord} {rest rest' : Bytes} → valid r rest ≡ valid r' rest' → rest ≡ rest'
no_more e = cc

-- Of a record that `txnwal_append_record` or `txnwal_append_commit` can write, with a CRC of 32 bits, no
-- proper beginning of the written bytes is read as a valid record.
pub take-IsTorn :
    (crc : Bytes → ℕ) (r : LogRecord) (n : ℕ)
    → crc (body r) < 2 ^ 32
    → IsWritable r
    → n < length (encode crc r)
    → IsTorn crc (take n (encode crc r))
take-IsTorn crc r n small fits short r' rest read =
    let bytes : Bytes = encode crc r in
    let whole : validate_record crc bytes ≡ valid r' (rest ++ drop n bytes) =
      ap (validate_record crc) (sym (take-drop n bytes))
      ∙ record_stage crc (drop n bytes) r' rest (take n bytes) _ refl read in
    let exact : validate_record crc bytes ≡ valid r [] =
      ap (validate_record crc) (sym (append-nil bytes))
      ∙ validate_record-encode crc r [] small fits in
    let none_left : rest ++ drop n bytes ≡ [] = no_more (sym whole ∙ exact) in
    absurd (
      omega
        (arith, short, length-drop n bytes, length-append rest (drop n bytes), ap length none_left))
