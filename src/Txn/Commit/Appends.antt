-- ===== src/Txn/Commit/Appends.antt =====
-- The appends of a commit of zig/src/dl.zig to its log, where each may fail in the middle of its write.
use datalog_dafsa.Base.{
  zero, suc, Bool, Option, none, Option-cases, ltb, take, ℕ, ◌≡◌, refl, sym, ap, ◌∙◌, true, false,
  ◌||◌, some, List, [], ◌∷◌, ◌++◌, ◌==◌, length, arith, Bool-cases, inl, inr, ◌⊎◌, All, ◌<◌, ◌^◌,
  ==_ne, append_assoc, append-nil,
}
use datalog_dafsa.TxnWal.{
  Bytes, LogRecord, write_all, append_record, body, op_add, op_del, encode, encode_all, torn,
  validate_record,
}
use datalog_dafsa.TxnWal.Codec.{IsWritable}
use datalog_dafsa.TxnWal.Scan.{IsCrc, IsTorn, IsOpen}
use datalog_dafsa.TxnWal.Torn.{take-IsTorn}
use datalog_dafsa.Txn.Commit.{append_records}

-- A record that `txnwal_append_record` takes: an add or a delete of a named relation, whose lengths
-- fit their fields.
pub record IsAppendable (r : LogRecord) : Type 0 where
  pub known : (r.op ≡ op_add) ⊎ (r.op ≡ op_del)
  pub named : 0 < length r.rel
  pub rel_fits : length r.rel < 2 ^ 16
  pub key_fits : length r.key < 2 ^ 32

appendable-IsOpen : (r : LogRecord) → IsAppendable r → IsOpen r
appendable-IsOpen r ok = (
  record {
    known = elim ok.known [ inl add ↦ inl add | inr del ↦ inr (inl del) ];
    rel_fits = ok.rel_fits;
    key_fits = ok.key_fits;
  },
  λ e. elim ok.known [ inl add ↦ omega arith | inr del ↦ omega arith ],
)

pub All-IsOpen : (rs : List LogRecord) → All IsAppendable rs → All IsOpen rs
All-IsOpen [] h = tt
All-IsOpen (r ∷ rs) (ok, h) = (appendable-IsOpen r ok, All-IsOpen rs h)

IsWritable-appendable : (r : LogRecord) → IsAppendable r → IsWritable r
IsWritable-appendable r ok = (appendable-IsOpen r ok).0

append_stage :
    (crc : Bytes → ℕ) (outcome : Option ℕ) (file : Bytes) (r : LogRecord)
    → IsAppendable r
    → append_record crc outcome file r ≡ write_all outcome file (encode crc r)
unfolding append_record
append_stage crc outcome file r ok =
    let known : ((r.op == op_add) || (r.op == op_del)) ≡ true = elim ok.known [
      | inl add ↦ rw add refl
      | inr del ↦ rw del refl
    ] in
    rw (known, ==_ne (length r.rel) 0 (omega (arith, ok.named)), append_record) refl

empty_run : (crc : Bytes → ℕ) → validate_record crc [] ≡ torn
unfolding validate_record
empty_run crc = refl

pub no_bytes-IsTorn : (crc : Bytes → ℕ) → IsTorn crc []
no_bytes-IsTorn crc r rest read = cc (read, empty_run crc)

-- What an append whose allocation or write fails leaves: bytes that do not begin with a valid record.
abbrev pub IsCut : (Bytes → ℕ) → Bytes → Bool × Bytes → Type 0
IsCut crc file done = (tail : Bytes) × (done ≡ (false, file ++ tail)) × IsTorn crc tail

pub write_fails :
    (crc : Bytes → ℕ) (n : ℕ) (file : Bytes) (r : LogRecord)
    → IsCrc crc
    → IsWritable r
    → IsCut crc file (write_all (some n) file (encode crc r))
unfolding write_all
write_fails crc n file r small fits = elim (Bool-cases (ltb n (length (encode crc r)))) [
  | inl short ↦ (
    take n (encode crc r),
    rw (short, write_all) refl,
    take-IsTorn crc r n (small (body r)) fits (ground (arith, short)),
  )
  | inr past ↦ (
    [],
    rw (past, write_all) (ap (λ (b : Bytes). (false, b)) (sym (append-nil file))),
    no_bytes-IsTorn crc,
  )
]

-- The appends of records: all succeed, or one fails behind some of them.
abbrev pub IsAppended :
    (Bytes → ℕ) → (ℕ → Option ℕ) → Bytes → List LogRecord → Bool × Bytes → Type 0
IsAppended crc appended file recs done =
    (((i : ℕ) → i < length recs → appended i ≡ none) × (done ≡ (true, file ++ encode_all crc recs)))
    ⊎ ((i : ℕ) × (i < length recs)
        × ((k : ℕ) × (appended i ≡ some k))
        × (opened : List LogRecord) × All IsOpen opened
        × IsCut crc (file ++ encode_all crc opened) done)

at_each :
    (f : ℕ → Option ℕ) (n : ℕ)
    → f 0 ≡ none
    → ((i : ℕ) → i < n → f (suc i) ≡ none)
    → (i : ℕ) → i < suc n
    → f i ≡ none
at_each f n first later zero below = first
at_each f n first later (suc i) below = later i (omega (arith, below))

module _ (crc : Bytes → ℕ) (small : IsCrc crc) where
  first_fails :
      (appended : ℕ → Option ℕ) (file : Bytes) (r : LogRecord) (rs : List LogRecord) (k : ℕ)
      → IsAppendable r
      → appended 0 ≡ some k
      → IsAppended crc appended file (r ∷ rs) (append_records crc appended file (r ∷ rs))
  unfolding append_records
  first_fails appended file r rs k ok fails =
      let (tail, cut, stops) = write_fails crc k file r small (IsWritable-appendable r ok) in
      let first : append_record crc (appended 0) file r ≡ (false, file ++ tail) =
        append_stage crc (appended 0) file r ok
        ∙ ap (λ (o : Option ℕ). write_all o file (encode crc r)) fails
        ∙ cut in
      inr (
        0,
        omega arith,
        (k, fails),
        [],
        tt,
        (tail, rw (first, append_records) (rw (append-nil file) refl), stops),
      )

  later_stage :
      (appended : ℕ → Option ℕ) (file : Bytes) (r : LogRecord) (rs : List LogRecord)
      → IsOpen r
      → appended 0 ≡ none
      → (done : Bool × Bytes)
      → IsAppended crc (λ i. appended (suc i)) (file ++ encode crc r) rs done
      → IsAppended crc appended file (r ∷ rs) done
  later_stage appended file r rs opened passes done (inl (all, written)) = inl (
    at_each appended (length rs) passes all,
    written ∙ ap (λ (b : Bytes). (true, b)) (append_assoc file (encode crc r) (encode_all crc rs)),
  )
  later_stage appended file r rs opened passes done
        (inr (i, below, fails, more, opens, (tail, written, stops))) =
      inr (
        suc i,
        omega (arith, below),
        fails,
        r ∷ more,
        (opened, opens),
        (
          tail,
          written
              ∙ ap (λ (b : Bytes). (false, b ++ tail))
                  (append_assoc file (encode crc r) (encode_all crc more)),
          stops,
        ),
      )

  pub append_records_lem :
      (appended : ℕ → Option ℕ) (file : Bytes) (rs : List LogRecord)
      → All IsAppendable rs
      → IsAppended crc appended file rs (append_records crc appended file rs)
  unfolding append_records write_all
  append_records_lem appended file [] h = inl (
    λ i below. absurd (omega (arith, below)),
    ap (λ (b : Bytes). (true, b)) (sym (append-nil file)),
  )
  append_records_lem appended file (r ∷ rs) (ok, h) = elim (Option-cases (appended 0)) [
    | inl passes ↦
        let first : append_record crc (appended 0) file r ≡ (true, file ++ encode crc r) =
          append_stage crc (appended 0) file r ok
          ∙ ap (λ (o : Option ℕ). write_all o file (encode crc r)) passes in
        later_stage appended file r rs (appendable-IsOpen r ok) passes _ (
          rw (first, append_records)
            (append_records_lem (λ i. appended (suc i)) (file ++ encode crc r) rs h))
    | inr (k, fails) ↦ first_fails appended file r rs k ok fails
  ]
