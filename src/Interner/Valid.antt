-- ===== src/Interner/Valid.antt =====
-- What the array and the cache of zig/src/intern.zig have in common, and what `lookup` finds.
use datalog_dafsa.Base.{
  ℕ, zero, suc, ◌+◌, ◌-◌, ◌^◌, ◌≤◌, ◌<◌, ◌≡◌, ◌≢◌, refl, sym, ap, ◌∙◌, true, false, Option, none,
  some, List, [], ◌∷◌, ◌++◌, ◌==◌, leb, length, get_or, words_eq, words_eq→eq, words_eq_refl, arith,
  inl, inr, ◌⊎◌, Bool-cases, ==_iff,
}
use datalog_dafsa.TxnWal.{Bytes}
use datalog_dafsa.Relation.{Key, Dafsa, be32, is_word, words}
use datalog_dafsa.Relation.Prefix.{after}
use datalog_dafsa.Interner.{Interner, capture, fill_key, scan_rev, intern_str_find, max_word_len}
use datalog_dafsa.Interner.Keyed.{IsString, is_word-after, split_key, capture-be32, with_zero}

-- The string in a slot of the array.
abbrev pub at : List (Option Bytes) → ℕ → Option Bytes
at rev i = get_or rev i none

pub some_same : {A : Type 0} {a b : A} → some a ≡ some b → a ≡ b
some_same e = cc

pub no_some : {A : Type 0} {a : A} → none ≡ some a → ⊥
no_some e = cc

-- Where a string is: in no slot, or in the one that its number names.
abbrev pub Located : List (Option Bytes) → Bytes → ℕ → Type 0
Located rev str id =
    ((id ≡ 0) × ((j : ℕ) → at rev j ≢ some str)) ⊎ ((j : ℕ) × (id ≡ j + 1) × (at rev j ≡ some str))

-- The scan finds a slot among those that it looks at, or there is none.
scan_rev_lem :
    (rev : List (Option Bytes)) (i n : ℕ) (str : Bytes)
    → ((scan_rev rev i n str ≡ 0) × ((j : ℕ) → j < n → at rev j ≢ some str))
      ⊎ ((j : ℕ) × (scan_rev rev i n str ≡ i + j + 1) × (at rev j ≡ some str))
unfolding scan_rev
scan_rev_lem [] i n str = inl (refl, λ j h e. no_some e)
scan_rev_lem (slot ∷ rev) i zero str = inl (refl, λ j h e. absurd (omega arith))
scan_rev_lem (none ∷ rev) i (suc n) str = elim (scan_rev_lem rev (i + 1) n str) [
  | inl (zeroth, nowhere) ↦ inl (zeroth, skip_none rev n str nowhere)
  | inr (j, found, here) ↦ inr (suc j, found ∙ omega arith, here)
]
  where
    skip_none :
        (rev : List (Option Bytes)) (n : ℕ) (str : Bytes)
        → ((j : ℕ) → j < n → at rev j ≢ some str)
        → (j : ℕ) → j < suc n
        → at (none ∷ rev) j ≢ some str
    skip_none rev n str nowhere zero h e = no_some e
    skip_none rev n str nowhere (suc j) h e = nowhere j (omega (arith, h)) e
scan_rev_lem (some s ∷ rev) i (suc n) str = elim (Bool-cases (words_eq s str)) [
  | inl same ↦ inr (zero, rw same (omega arith), ap some (words_eq→eq s str same))
  | inr other ↦ elim (scan_rev_lem rev (i + 1) n str) [
    | inl (zeroth, nowhere) ↦ inl (rw other zeroth, skip_apart s rev n str other nowhere)
    | inr (j, found, here) ↦ inr (suc j, rw other (found ∙ omega arith), here)
  ]
]
  where
    skip_apart :
        (s : Bytes) (rev : List (Option Bytes)) (n : ℕ) (str : Bytes)
        → words_eq s str ≡ false
        → ((j : ℕ) → j < n → at rev j ≢ some str)
        → (j : ℕ) → j < suc n
        → at (some s ∷ rev) j ≢ some str
    skip_apart s rev n str other nowhere zero h e =
        let same : words_eq s str ≡ true = rw (some_same e) (words_eq_refl str) in
        let clash : true ≡ false = sym same ∙ other in cc
    skip_apart s rev n str other nowhere (suc j) h e = nowhere j (omega (arith, h)) e

module _ {D S : Type 0} (lib : Dafsa D S) where
  -- The words of a cache are the keys of the strings in the slots.
  pub record IsCache (d : D) (rev : List (Option Bytes)) : Type 0 where
    pub held :
        (i : ℕ) (s : Bytes) → at rev i ≡ some s → is_word (fill_key s (i + 1)) (words lib d) ≡ true
    pub only :
        (k : Key)
        → is_word k (words lib d) ≡ true
        → (i : ℕ) × (s : Bytes) × (at rev i ≡ some s) × (k ≡ fill_key s (i + 1))

  -- The slots from `next_id - 1` on are empty, the strings fit in a key, no string is in two slots, and a cache of the current
  -- generation is one of the slots.
  pub record IsValid (ir : Interner D) : Type 0 where
    pub started : 0 < ir.next_id
    pub small : ir.next_id < 2 ^ 32
    pub vacant : (i : ℕ) → ir.next_id ≤ i + 1 → at ir.rev i ≡ none
    pub texts : (i : ℕ) (s : Bytes) → at ir.rev i ≡ some s → IsString s
    pub short : (i : ℕ) (s : Bytes) → at ir.rev i ≡ some s → length s + 5 ≤ max_word_len
    pub once : (i j : ℕ) (s : Bytes) → at ir.rev i ≡ some s → at ir.rev j ≡ some s → i ≡ j
    pub past : ir.fwd_gen ≤ ir.next_id
    pub cache : (d : D) → ir.fwd ≡ some d → ir.fwd_gen ≡ ir.next_id → IsCache d ir.rev

  -- What `dafsa_prefix_enum` enumerates for a string are the rests of the words behind it and a
  -- zero, and a callback that stops sees the first.
  abbrev pub first_of : List Key → Option Key
  first_of [] = none
  first_of (p ∷ ps) = some p

  abbrev pub IsPrefixEnum : (D → Bytes → Option Key) → Type 0
  IsPrefixEnum first_payload =
      (d : D) (str : Bytes) → first_payload d str ≡ first_of (after (str ++ 0 ∷ []) (words lib d))

  -- A string in a slot has its number below the next one.
  pub slot_small :
      (ir : Interner D) (i : ℕ) (s : Bytes) → IsValid ir → at ir.rev i ≡ some s → i + 1 < ir.next_id
  slot_small ir i s v here = elim (Bool-cases (leb ir.next_id (i + 1))) [
    | inl past ↦ absurd (no_some (sym (v.vacant i (ground (arith, past))) ∙ here))
    | inr within ↦ ground (arith, within)
  ]

  abbrev payload_id : Option Key → ℕ
  payload_id none = 0
  payload_id (some p) = capture p

  word_rest :
      (d : D) (str : Bytes) (p : Key)
      → is_word p (after (str ++ 0 ∷ []) (words lib d)) ≡ is_word (str ++ 0 ∷ p) (words lib d)
  word_rest d str p =
      is_word-after (str ++ 0 ∷ []) p (words lib d)
      ∙ ap (λ (k : Key). is_word k (words lib d)) (with_zero str p)

  walk_lem :
      (ir : Interner D) (d : D) (str : Bytes) (rests : List Key)
      → IsValid ir
      → IsCache d ir.rev
      → IsString str
      → after (str ++ 0 ∷ []) (words lib d) ≡ rests
      → Located ir.rev str (payload_id (first_of rests))
  unfolding is_word
  walk_lem ir d str [] v c is_str e = inl (
    refl,
    λ j here.
        let inside : is_word (be32 (j + 1)) (after (str ++ 0 ∷ []) (words lib d)) ≡ true =
          word_rest d str (be32 (j + 1)) ∙ c.held j str here in
        let clash : false ≡ true = rw e at inside in cc,
  )
  walk_lem ir d str (p ∷ rests) v c is_str e =
      let first : is_word p (after (str ++ 0 ∷ []) (words lib d)) ≡ true =
        rw (e, words_eq_refl p) refl in
      let (i, s, here, same) = c.only (str ++ 0 ∷ p) (sym (word_rest d str p) ∙ first) in
      let (text, number) = split_key str s p (be32 (i + 1)) is_str (v.texts i s here) same in
      inr (
        i,
        ap capture number ∙ capture-be32 (i + 1) (omega (arith, slot_small ir i s v here, v.small)),
        here ∙ ap some (sym text),
      )

  scanned :
      (ir : Interner D) (str : Bytes)
      → IsValid ir
      → Located ir.rev str (scan_rev ir.rev 0 (ir.next_id - 1) str)
  scanned ir str v = elim (scan_rev_lem ir.rev 0 (ir.next_id - 1) str) [
    | inr (j, found, here) ↦ inr (j, found ∙ omega arith, here)
    | inl (zeroth, nowhere) ↦
        inl (zeroth, λ j here. nowhere j (omega (arith, slot_small ir j str v here)) here)
  ]

  module _ (first_payload : D → Bytes → Option Key) (enums : IsPrefixEnum first_payload) where
    find_stage :
        (ir : Interner D) (str : Bytes) (fwd : Option D)
        → IsValid ir
        → IsString str
        → ir.fwd ≡ fwd
        → Located ir.rev str (intern_str_find lib first_payload ir str)
    unfolding intern_str_find
    find_stage ir str none v is_str e = rw (intern_str_find, e) (scanned ir str v)
    find_stage ir str (some d) v is_str e = elim (Bool-cases (ir.fwd_gen == ir.next_id)) [
      | inr stale ↦ rw (intern_str_find, e, stale) (scanned ir str v)
      | inl current ↦
          rw (intern_str_find, e, current, enums d str)
            (walked ir d str (after (str ++ 0 ∷ []) (words lib d)) (
              walk_lem ir d str _ v (v.cache d e ((==_iff ir.fwd_gen ir.next_id).0 current)) is_str
                refl))
    ]
      where
        walked :
            (ir : Interner D) (d : D) (str : Bytes) (rests : List Key)
            → Located ir.rev str (payload_id (first_of rests))
            → let id : ℕ = elim (first_of rests) [ none ↦ 0 | some payload ↦ capture payload ] in
              Located ir.rev str id
        walked ir d str [] h = h
        walked ir d str (p ∷ rests) h = h

    -- Whether the cache answers or the scan: the number of a string is that of its slot.
    pub find_lem :
        (ir : Interner D) (str : Bytes)
        → IsValid ir
        → IsString str
        → Located ir.rev str (intern_str_find lib first_payload ir str)
    find_lem ir str v is_str = find_stage ir str ir.fwd v is_str refl

    -- The number depends on the slots only.
    pub same_number :
        (rev : List (Option Bytes)) (str : Bytes) (a b : ℕ)
        → ((i j : ℕ) → at rev i ≡ some str → at rev j ≡ some str → i ≡ j)
        → Located rev str a
        → Located rev str b
        → a ≡ b
    same_number rev str a b once p q = elim p [
      | inl (za, nowhere) ↦ elim q [
        | inl (zb, _) ↦ za ∙ sym zb
        | inr (j, eb, here) ↦ absurd (nowhere j here)
      ]
      | inr (i, ea, here) ↦ elim q [
        | inl (zb, nowhere) ↦ absurd (nowhere i here)
        | inr (j, eb, there) ↦ ea ∙ ap (λ (k : ℕ). k + 1) (once i j here there) ∙ sym eb
      ]
    ]
