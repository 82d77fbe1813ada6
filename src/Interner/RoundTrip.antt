-- ===== src/Interner/RoundTrip.antt =====
-- The numbers of zig/src/intern.zig: `intern_str`, `intern_str_find` and `intern_str_of` together.
use datalog_dafsa.Base.{
  ==_refl, ==_ne, words_eq_refl, ◌≢◌, ℕ, zero, suc, ◌+◌, ◌-◌, ◌*◌, ◌%◌, ◌^◌, ◌≤◌, ◌<◌, ◌≡◌, ◌↔◌,
  refl, sym, ap, ◌∙◌, subst, Bool, true, false, not, ◌&&◌, ◌||◌, Option, none, some, List, [], ◌∷◌,
  if◌then◌else◌, ◌==◌, ltb, leb, length, words_eq, words_eq→eq, Mem, arith, inl, inr, Bool-cases,
}
use datalog_dafsa.IntSet.Contents.{IsAmple}
use datalog_dafsa.TxnWal.{Bytes}
use datalog_dafsa.Relation.{Key, Dafsa}
use datalog_dafsa.Relation.Laws.{IsDafsa}
use datalog_dafsa.Interner.{
  Interner, intern_str_find, intern_str_of, grow_rev, intern_new, intern_str, max_word_len,
}
use datalog_dafsa.Interner.Keyed.{IsString}
use datalog_dafsa.Interner.Valid.{
  at, no_some, Located, IsValid, IsPrefixEnum, slot_small, find_lem, same_number,
}
use datalog_dafsa.Interner.Numbers.{Numbered, intern_str-Numbered}

same_option :
    (a b : Option Bytes)
    → ((t : Bytes) → a ≡ some t → b ≡ some t)
    → ((t : Bytes) → b ≡ some t → a ≡ some t)
    → a ≡ b
same_option none none to from = refl
same_option none (some t) to from = from t refl
same_option (some t) b to from = sym (to t refl)

within : (rev : List (Option Bytes)) (i : ℕ) (s : Bytes) → at rev i ≡ some s → i < length rev
within [] i s here = absurd (no_some here)
within (slot ∷ rev) zero s here = omega arith
within (slot ∷ rev) (suc i) s here = omega (arith, within rev i s here)

grow_rev_memory :
    (mem : Mem) (rev : List (Option Bytes)) (id : ℕ) → IsAmple mem → grow_rev mem rev id ≡ none → ⊥
unfolding grow_rev
grow_rev_memory mem rev id ample e =
    let width : ℕ =
      if ltb (length rev * 2 % 2 ^ 32) id then id * 2 % 2 ^ 32 else length rev * 2 % 2 ^ 32 in
    let granted = ample.reallocs (width * 8) in
    present (ltb (length rev) id) (mem.realloc_ok (width * 8)) _ _ granted e
  where
    present :
        (full granted : Bool) (a b : List (Option Bytes))
        → granted ≡ true
        → (if full then if granted then some a else none else some b) ≡ none
        → ⊥
    present full false a b g e = cc
    present true true a b g e = no_some (sym e)
    present false true a b g e = no_some (sym e)

module _ {D S : Type 0} (lib : Dafsa D S) where
  -- `intern_str_of` answers with the slot of a number, and with no other.
  pub str_of_lem :
      (ir : Interner D) (j : ℕ) (s : Bytes)
      → IsValid lib ir
      → at ir.rev j ≡ some s
      → intern_str_of ir (j + 1) ≡ some s
  unfolding intern_str_of
  str_of_lem ir j s v here =
      let guard : ((j + 1 == 0) || (leb ir.next_id (j + 1) || ltb (length ir.rev) (j + 1)))
          ≡ false =
        ground (arith, slot_small lib ir j s v here, within ir.rev j s here) in
      let slot : j + 1 - 1 ≡ j = omega arith in rw (guard, slot) here

  slot_of :
      (ir : Interner D) (n : ℕ) (s : Bytes)
      → intern_str_of ir n ≡ some s
      → (j : ℕ) × (n ≡ j + 1) × (at ir.rev j ≡ some s)
  unfolding intern_str_of
  slot_of ir n s e = elim (Bool-cases ((n == 0) || (leb ir.next_id n || ltb (length ir.rev) n))) [
    | inl out ↦ absurd (no_some (sym (rw out refl) ∙ e))
    | inr inside ↦ (n - 1, ground (arith, inside), sym (rw inside refl) ∙ e)
  ]

  module _ (laws : IsDafsa lib) (first_payload : D → Bytes → Option Key)
      (enums : IsPrefixEnum lib first_payload) where
    -- In a valid interner, a string has the number `j + 1` exactly if that number stands for it.
    pub intern_str_find-intern_str_of :
        (ir : Interner D) (str : Bytes) (j : ℕ)
        → IsValid lib ir
        → IsString str
        → (intern_str_find lib first_payload ir str ≡ j + 1) ↔ (intern_str_of ir (j + 1) ≡ some str)
    intern_str_find-intern_str_of ir str j v is_str =
        let place = find_lem lib first_payload enums ir str v is_str in
        (
          (λ e. elim place [
            | inl (z, nowhere) ↦ absurd (omega (arith, z, e))
            | inr (i, e', here) ↦
                subst (λ (k : ℕ). intern_str_of ir (k + 1) ≡ some str) (omega (arith, e, e'))
                  (str_of_lem ir i str v here)
          ]),
          λ e.
              let (i, e', here) = slot_of ir (j + 1) str e in
              same_number lib first_payload enums ir.rev str _ (j + 1) (λ i k. v.once i k str) place
                (inr (i, e', here)),
        )

    others :
        (ir ir' : Interner D) (str s : Bytes) (id a b : ℕ)
        → Numbered lib laws ir str (id, ir')
        → Located ir.rev s a
        → Located ir'.rev s b
        → b ≡ (if words_eq s str then id else a)
    others ir ir' str s id a b (v', place, kept, new) p q = elim (Bool-cases (words_eq s str)) [
      | inl same ↦ rw same (
          same_number lib first_payload enums ir'.rev s b id (λ i j. v'.once i j s) q
            (subst (λ (x : Bytes). Located ir'.rev x id) (sym (words_eq→eq s str same)) place))
      | inr other ↦ rw other (
          same_number lib first_payload enums ir'.rev s b a (λ i j. v'.once i j s) q
            (elim p [
              | inl (z, nowhere) ↦ inl (z, λ j here. nowhere j (new j s other here))
              | inr (j, e, here) ↦ inr (j, e, kept j s here)
            ]))
    ]

    str_of_stage :
        (ir ir' : Interner D) (str : Bytes) (id n : ℕ)
        → IsValid lib ir
        → Numbered lib laws ir str (id, ir')
        → intern_str_of ir' n
          ≡ (if (n == id) && not (id == 0) then some str else intern_str_of ir n)
    str_of_stage ir ir' str id n v (v', place, kept, new) =
        elim (Bool-cases ((n == id) && not (id == 0))) [
          | inl own ↦ rw own (elim place [
            | inl (z, _) ↦ absurd (ground (arith, own, z))
            | inr (j, e, here) ↦
                ap (intern_str_of ir') (ground (arith, own, e)) ∙ str_of_lem ir' j str v' here
          ])
          | inr other ↦ rw other (
              same_option _ _
                (λ t new_t.
                  let (j, e, here) = slot_of ir' n t new_t in
                  elim (Bool-cases (words_eq t str)) [
                    | inr apart ↦ ap (intern_str_of ir) e ∙ str_of_lem ir j t v (new j t apart here)
                    | inl same ↦
                        let number : id ≡ j + 1 =
                          same_number lib first_payload enums ir'.rev str id (j + 1)
                            (λ i k. v'.once i k str) place
                            (inr (j, refl, here ∙ ap some (words_eq→eq t str same))) in
                        absurd (ground (arith, other, number, e))
                  ])
                (λ t old.
                  let (j, e, here) = slot_of ir n t old in
                  ap (intern_str_of ir') e ∙ str_of_lem ir' j t v' (kept j t here)))
        ]

    -- Let `(id, ir')` be what `intern_str` gives for a string, in a valid interner with fewer than
    -- 2^31 numbers. Then `ir'` is valid; in it the string has the number `id` and every other string
    -- the number that it had; and `id`, unless it is 0, stands for the string, every other number
    -- for what it stood for.
    pub intern_str_lem :
        (mem : Mem) (ir : Interner D) (str s : Bytes) (n : ℕ)
        → IsValid lib ir
        → IsString str
        → IsString s
        → ir.next_id < 2 ^ 31
        → let (id, ir') = intern_str lib first_payload mem ir str in
          IsValid lib ir'
          × (intern_str_find lib first_payload ir' s
              ≡ (if words_eq s str then id else intern_str_find lib first_payload ir s))
          × (intern_str_of ir' n
              ≡ (if (n == id) && not (id == 0) then some str else intern_str_of ir n))
    intern_str_lem mem ir str s n v is_str is_s small =
        let all = intern_str-Numbered lib laws first_payload enums mem ir str v is_str small in
        (
          all.0,
          others ir _ str s _ _ _ all (find_lem lib first_payload enums ir s v is_s)
              (find_lem lib first_payload enums _ s all.0 is_s),
          str_of_stage ir _ str _ n v all,
        )

    grown_number :
        (mem : Mem) (ir : Interner D) (str : Bytes) (grown : Option (List (Option Bytes)))
        → IsAmple mem
        → ltb max_word_len (length str + 5) ≡ false
        → grow_rev mem ir.rev ir.next_id ≡ grown
        → (grown ≡ none → ⊥)
        → (intern_new lib first_payload mem ir str).0 ≡ ir.next_id
    unfolding intern_new
    grown_number mem ir str none ample short e room = absurd (room refl)
    grown_number mem ir str (some rev) ample short e room =
        rw (short, e, ample.mallocs (length str + 1)) refl

    memory_stage :
        (mem : Mem) (ir : Interner D) (str : Bytes)
        → IsAmple mem
        → length str + 5 ≤ max_word_len
        → (intern_str lib first_payload mem ir str).0 ≡ (
            if intern_str_find lib first_payload ir str == 0
            then ir.next_id
            else intern_str_find lib first_payload ir str)
    unfolding intern_str
    memory_stage mem ir str ample fits =
        elim (Bool-cases (intern_str_find lib first_payload ir str == 0)) [
          | inr found ↦ rw found refl
          | inl zeroth ↦ rw zeroth (
              grown_number mem ir str _ ample (ground (arith, fits)) refl
                (grow_rev_memory mem ir.rev ir.next_id ample))
        ]

    number_stage :
        (ir : Interner D) (found : ℕ)
        → IsValid lib ir
        → (if found == 0 then ir.next_id else found) ≢ 0
    number_stage ir found v e = ground (arith, v.started, e)

    -- With memory, in a valid interner with fewer than 2^31 numbers, `intern_str` gives a string that
    -- fits in a key of 65536 bytes a number that is not 0: the one that it had, or else the next one.
    -- Then the number stands for the string, the string has the number, and the interner is valid.
    pub intern_str_memory :
        (mem : Mem) (ir : Interner D) (str : Bytes)
        → IsAmple mem
        → IsValid lib ir
        → IsString str
        → length str + 5 ≤ 65536
        → ir.next_id < 2 ^ 31
        → let (id, ir') = intern_str lib first_payload mem ir str in
          (id ≢ 0)
          × (id ≡ (
              if intern_str_find lib first_payload ir str == 0
              then ir.next_id
              else intern_str_find lib first_payload ir str))
          × (intern_str_of ir' id ≡ some str)
          × (intern_str_find lib first_payload ir' str ≡ id)
          × IsValid lib ir'
    intern_str_memory mem ir str ample v is_str fits small =
        let id = (intern_str lib first_payload mem ir str).0 in
        let number = memory_stage mem ir str ample fits in
        let real : id ≢ 0 =
          λ e. number_stage ir (intern_str_find lib first_payload ir str) v (sym number ∙ e) in
        let (v', found, stands) = intern_str_lem mem ir str str id v is_str is_str small in
        (
          real,
          number,
          stands ∙ rw (==_refl id, ==_ne id 0 real) refl,
          found ∙ rw (words_eq_refl str) refl,
          v',
        )
