-- ===== src/Txn/Commit/Atomic.antt =====
-- The log of a commit of zig/src/dl.zig holds the whole transaction or nothing of it.
use datalog_dafsa.Base.{
  Bool, Option, subst, none, Option-cases, ◌&&◌, ℕ, ◌≡◌, refl, sym, ap, ◌∙◌, true, false, some,
  List, [], ◌∷◌, ◌++◌, ◌==◌, length, Bool-cases, inl, inr, ◌⊎◌, All, ◌<◌, ==_ne, append_assoc,
  append-nil,
}
use datalog_dafsa.TxnWal.{
  Bytes, LogRecord, write_all, append_commit, op_commit, encode, encode_all, commit_record, header,
  replay,
}
use datalog_dafsa.TxnWal.Codec.{IsWritable}
use datalog_dafsa.TxnWal.Scan.{IsCrc, IsTorn, IsOpen, commit-IsWritable}
use datalog_dafsa.TxnWal.Replay.{committed_bytes, facts, replay_lem, encode_all-append}
use datalog_dafsa.Txn.Commit.{Outcomes, append_records, log_ops}
use datalog_dafsa.Txn.Commit.Appends.{
  IsAppendable, All-IsOpen, no_bytes-IsTorn, write_fails, IsAppended, append_records_lem,
}

facts-append : (xs ys : List LogRecord) → facts (xs ++ ys) ≡ facts xs ++ facts ys
facts-append [] ys = refl
facts-append (x ∷ xs) ys = elim (Bool-cases (x.op == op_commit)) [
  | inl marker ↦ rw marker (facts-append xs ys)
  | inr fact ↦ rw fact (ap (λ r. x ∷ r) (facts-append xs ys))
]

facts_open : (rs : List LogRecord) → All IsOpen rs → facts rs ≡ rs
facts_open [] h = refl
facts_open (r ∷ rs) (ok, h) = rw (==_ne r.op op_commit ok.1, facts_open rs h) refl

commit_between :
    (done recs : List LogRecord)
    → All IsWritable done
    → All IsOpen recs
    → All IsWritable (done ++ commit_record ∷ recs)
commit_between [] [] h opens = (commit-IsWritable, tt)
commit_between [] (r ∷ recs) h (opened, opens) =
    (commit-IsWritable, (opened.0, (commit_between [] recs tt opens).1))
commit_between (d ∷ done) recs (first, h) opens = (first, commit_between done recs h opens)

-- The log behind a commit, with records that have not committed and a torn tail, replays as before.
stopped :
    (crc : Bytes → ℕ) (done opened : List LogRecord) (tail : Bytes)
    → IsCrc crc
    → All IsWritable done
    → All IsOpen opened
    → IsTorn crc tail
    → replay crc (
        ((header crc ++ encode_all crc (done ++ commit_record ∷ [])) ++ encode_all crc opened)
        ++ tail)
      ≡ some (some (facts (done ++ commit_record ∷ [])))
stopped crc done opened tail small writable opens stops =
    let front : Bytes = encode_all crc (done ++ commit_record ∷ []) in
    let bytes : ((header crc ++ front) ++ encode_all crc opened) ++ tail
        ≡ header crc ++ (encode_all crc (done ++ commit_record ∷ opened) ++ tail) =
      append_assoc (header crc ++ front) (encode_all crc opened) tail
      ∙ append_assoc (header crc) front (encode_all crc opened ++ tail)
      ∙ ap (λ (b : Bytes). header crc ++ b) (sym (committed_bytes crc done opened tail)) in
    ap (replay crc) bytes ∙ replay_lem crc done opened tail small writable opens stops

-- The log behind a commit, with the records of a transaction and its marker.
passed_bytes :
    (crc : Bytes → ℕ) (done recs : List LogRecord)
    → ((header crc ++ encode_all crc (done ++ commit_record ∷ [])) ++ encode_all crc recs)
        ++ encode crc commit_record
      ≡ ((header crc ++ encode_all crc ((done ++ commit_record ∷ recs) ++ commit_record ∷ []))
          ++ encode_all crc [])
        ++ []
passed_bytes crc done recs =
    let front : Bytes = encode_all crc (done ++ commit_record ∷ []) in
    let marker : encode crc commit_record ≡ encode_all crc (commit_record ∷ []) =
      sym (append-nil (encode crc commit_record)) in
    append_assoc (header crc ++ front) (encode_all crc recs) (encode crc commit_record)
    ∙ append_assoc (header crc) front (encode_all crc recs ++ encode crc commit_record)
    ∙ ap (λ (b : Bytes). header crc ++ b)
        (ap (λ (b : Bytes). front ++ (encode_all crc recs ++ b)) marker
          ∙ ap (λ (b : Bytes). front ++ b) (sym (encode_all-append crc recs (commit_record ∷ [])))
          ∙ sym (encode_all-append crc (done ++ commit_record ∷ []) (recs ++ commit_record ∷ []))
          ∙ ap (encode_all crc) (
              append_assoc done (commit_record ∷ []) (recs ++ commit_record ∷ [])
              ∙ sym (append_assoc done (commit_record ∷ recs) (commit_record ∷ []))))
    ∙ sym (append-nil _ ∙ append-nil _)

passed_facts :
    (done recs : List LogRecord)
    → All IsOpen recs
    → facts ((done ++ commit_record ∷ recs) ++ commit_record ∷ [])
      ≡ facts (done ++ commit_record ∷ []) ++ recs
passed_facts done recs opens =
    facts-append (done ++ commit_record ∷ recs) (commit_record ∷ [])
    ∙ append-nil (facts (done ++ commit_record ∷ recs))
    ∙ facts-append done (commit_record ∷ recs)
    ∙ ap (λ (rs : List LogRecord). facts done ++ rs) (facts_open recs opens)
    ∙ ap (λ (rs : List LogRecord). rs ++ recs)
        (sym (facts-append done (commit_record ∷ []) ∙ append-nil (facts done)))

passed :
    (crc : Bytes → ℕ) (done recs : List LogRecord)
    → IsCrc crc
    → All IsWritable done
    → All IsOpen recs
    → replay crc (
        ((header crc ++ encode_all crc (done ++ commit_record ∷ [])) ++ encode_all crc recs)
        ++ encode crc commit_record)
      ≡ some (some (facts (done ++ commit_record ∷ []) ++ recs))
passed crc done recs small writable opens =
    ap (replay crc) (passed_bytes crc done recs)
    ∙ stopped crc (done ++ commit_record ∷ recs) [] [] small
        (commit_between done recs writable opens) tt (no_bytes-IsTorn crc)
    ∙ ap (λ (rs : List LogRecord). some (some rs)) (passed_facts done recs opens)

-- The calls of step (d) before the sync: all succeed, or one does not.
abbrev pub IsPassed : Outcomes → ℕ → Type 0
IsPassed outcomes n =
    ((i : ℕ) → i < n → outcomes.appended i ≡ none)
    × (outcomes.hook_passes ≡ true)
    × (outcomes.marked ≡ none)

abbrev pub IsStopped : Outcomes → ℕ → Type 0
IsStopped outcomes n =
    ((i : ℕ) × (i < n) × (k : ℕ) × (outcomes.appended i ≡ some k))
    ⊎ ((outcomes.hook_passes ≡ false) ⊎ ((k : ℕ) × (outcomes.marked ≡ some k)))

-- What step (d) with `n` records returns, and what the log after it replays as.
abbrev pub IsAtomic :
    (Bytes → ℕ) → Outcomes → (before recs : List LogRecord) → Bool × Bytes → Type 0
IsAtomic crc outcomes before recs (ok, file) =
    (IsPassed outcomes (length recs)
      × (ok ≡ outcomes.synced)
      × (replay crc file ≡ some (some (before ++ recs))))
    ⊎ (IsStopped outcomes (length recs) × (ok ≡ false) × (replay crc file ≡ some (some before)))

module _ (crc : Bytes → ℕ) (small : IsCrc crc) (outcomes : Outcomes) (done recs : List LogRecord)
    (writable : All IsWritable done) (opens : All IsOpen recs) where
  abbrev before : Bytes
  before = header crc ++ encode_all crc (done ++ commit_record ∷ [])

  to_marker :
      (file file' : Bytes) (marked : Bool)
      → append_records crc outcomes.appended before recs ≡ (true, file)
      → outcomes.hook_passes ≡ true
      → append_commit crc outcomes.marked file ≡ (marked, file')
      → log_ops crc outcomes recs before ≡ (marked && outcomes.synced, file')
  unfolding log_ops
  to_marker file file' marked written hook marker = rw (written, hook, marker, log_ops) refl

  to_hook :
      (file : Bytes)
      → append_records crc outcomes.appended before recs ≡ (true, file)
      → outcomes.hook_passes ≡ false
      → log_ops crc outcomes recs before ≡ (false, file)
  unfolding log_ops
  to_hook file written hook = rw (written, hook, log_ops) refl

  to_append :
      (file : Bytes)
      → append_records crc outcomes.appended before recs ≡ (false, file)
      → log_ops crc outcomes recs before ≡ (false, file)
  unfolding log_ops
  to_append file written = rw (written, log_ops) refl

  abbrev Atomic : Bool × Bytes → Type 0
  Atomic = IsAtomic crc outcomes (facts (done ++ commit_record ∷ [])) recs

  marker_stage :
      append_records crc outcomes.appended before recs ≡ (true, before ++ encode_all crc recs)
      → ((i : ℕ) → i < length recs → outcomes.appended i ≡ none)
      → outcomes.hook_passes ≡ true
      → Atomic (log_ops crc outcomes recs before)
  unfolding append_commit write_all
  marker_stage written all hook =
      let file : Bytes = before ++ encode_all crc recs in
      let after : Option ℕ → Bool × Bytes = λ o. write_all o file (encode crc commit_record) in
      elim (Option-cases outcomes.marked) [
        | inl marks ↦
            subst Atomic (sym (to_marker file _ true written hook (ap after marks)))
              (inl ((all, hook, marks), refl, passed crc done recs small writable opens))
        | inr (k, fails) ↦
            let (tail, cut, stops) = write_fails crc k file commit_record small commit-IsWritable in
            subst Atomic (sym (to_marker file _ false written hook (ap after fails ∙ cut))) (
              inr
                (inr (inr (k, fails)), refl, stopped crc done recs tail small writable opens stops))
      ]

  log_stage :
      IsAppended crc outcomes.appended before recs
        (append_records crc outcomes.appended before recs)
      → Atomic (log_ops crc outcomes recs before)
  log_stage (inl (all, written)) = elim (Bool-cases outcomes.hook_passes) [
    | inl hook ↦ marker_stage written all hook
    | inr hook ↦ subst Atomic (sym (to_hook _ written hook)) (
        inr (
          inr (inl hook),
          refl,
          ap (replay crc) (sym (append-nil (before ++ encode_all crc recs)))
              ∙ stopped crc done recs [] small writable opens (no_bytes-IsTorn crc),
        ))
  ]
  log_stage (inr (i, below, (k, fails), more, opened, (tail, written, stops))) =
      subst Atomic (sym (to_append _ written)) (
        inr
          (inl (i, below, k, fails), refl, stopped crc done more tail small writable opened stops))

-- The log holds written records up to a commit, and the records of a transaction can be appended.
-- Either the appends of all of them, the fault hook and the append of the marker succeed: then step (d)
-- of a commit goes through exactly when the sync succeeds, and the log replays as what it replayed as
-- before, followed by all the records. Or one of these calls fails, a write with any beginning of its
-- bytes written: then step (d) does not go through, and the log replays as before.
pub log_ops-replay :
    (crc : Bytes → ℕ) (outcomes : Outcomes) (done recs : List LogRecord)
    → IsCrc crc
    → All IsWritable done
    → All IsAppendable recs
    → IsAtomic crc outcomes
        (facts (done ++ commit_record ∷ []))
        recs
        (log_ops crc outcomes recs (header crc ++ encode_all crc (done ++ commit_record ∷ [])))
log_ops-replay crc outcomes done recs small writable h =
    log_stage crc small outcomes done recs writable (All-IsOpen recs h) (
      append_records_lem crc small outcomes.appended
        (header crc ++ encode_all crc (done ++ commit_record ∷ [])) recs h)
