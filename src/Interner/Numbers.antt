-- ===== src/Interner/Numbers.antt =====
-- `intern_str` of zig/src/intern.zig: the number of a string, and what it does to the other strings.
use datalog_dafsa.Base.{
  ℕ, zero, suc, ◌+◌, ◌-◌, ◌%◌, ◌^◌, ◌≤◌, ◌<◌, ◌≡◌, ◌≢◌, refl, sym, ap, ◌∙◌, subst, true, false,
  Option, none, some, List, [], ◌∷◌, ◌==◌, ltb, length, set, get_or-set_self, get_or-set_ne,
  words_eq, words_eq_refl, Mem, arith, inl, inr, Bool-cases, ==_iff, ==_refl, ==_ne,
}
use native.Mathlib.Decide.{ℕ_discrete}
use datalog_dafsa.TxnWal.{Bytes}
use datalog_dafsa.Relation.{Key, Dafsa}
use datalog_dafsa.Relation.Laws.{IsDafsa}
use datalog_dafsa.Interner.{
  Interner, intern_str_find, grow_rev, grow_fwd, intern_new, intern_str, max_word_len,
}
use datalog_dafsa.Interner.Keyed.{IsString}
use datalog_dafsa.Interner.Valid.{at, no_some, Located, IsValid, IsPrefixEnum, find_lem}
use datalog_dafsa.Interner.Added.{Grown, grow_rev_lem, Stored, set-Stored, Stored-cases, stored_lem}
use datalog_dafsa.Interner.Assigned.{Cached, grow_fwd_stage, add_n-IsCache}

set_past :
    (rev : List (Option Bytes)) (i : ℕ) (o : Option Bytes)
    → ltb i (length rev) ≡ false
    → set rev i o ≡ rev
set_past [] i o h = refl
set_past (x ∷ rev) zero o h = absurd (ground (arith, h))
set_past (x ∷ rev) (suc i) o h = ap (◌∷◌ x) (set_past rev i o (ground (arith, h)))

at-set_vacant :
    (rev old : List (Option Bytes)) (i : ℕ)
    → ((j : ℕ) → at rev j ≡ at old j)
    → at old i ≡ none
    → (j : ℕ) → at (set rev i none) j ≡ at old j
at-set_vacant rev old i same vacant j = elim (ℕ_discrete i j) [
  | no apart ↦ get_or-set_ne rev i j none none apart ∙ same j
  | yes own ↦ elim (Bool-cases (ltb i (length rev))) [
    | inl within ↦
        subst (λ (k : ℕ). at (set rev i none) k ≡ at old k) own
          (get_or-set_self rev i none none (ground (arith, within)) ∙ sym vacant)
    | inr past ↦ ap (λ xs. at xs j) (set_past rev i none past) ∙ same j
  ]
]

module _ {D S : Type 0} (lib : Dafsa D S) (laws : IsDafsa lib) where
  -- The array still has its strings, and the new one, if any, in the slot of its number.
  abbrev pub Numbered : Interner D → Bytes → ℕ × Interner D → Type 0
  Numbered ir str (id, ir') =
      IsValid lib ir'
      × Located ir'.rev str id
      × ((i : ℕ) (s : Bytes) → at ir.rev i ≡ some s → at ir'.rev i ≡ some s)
      × ((i : ℕ) (s : Bytes)
          → words_eq s str ≡ false
          → at ir'.rev i ≡ some s
          → at ir.rev i ≡ some s)

  marked :
      (ir : Interner D) (str : Bytes) (id : ℕ)
      → IsValid lib ir
      → Located ir.rev str id
      → Numbered ir str (id, record ir { dirty = true })
  marked ir str id v place = (
    record {
      started = v.started;
      small = v.small;
      vacant = v.vacant;
      texts = v.texts;
      short = v.short;
      once = v.once;
      past = v.past;
      cache = v.cache;
    },
    place,
    (λ i s here. here),
    λ i s other here. here,
  )

  absent :
      (ir : Interner D) (str : Bytes) (id : ℕ)
      → IsValid lib ir
      → id ≡ 0
      → Located ir.rev str id
      → (j : ℕ) → at ir.rev j ≢ some str
  absent ir str id v zeroth place j here = elim place [
    | inl (_, nowhere) ↦ nowhere j here
    | inr (i, e, _) ↦ omega (arith, e, zeroth)
  ]

  -- The number is spent and no slot changes.
  spent_lem :
      (ir ir' : Interner D) (str : Bytes)
      → IsValid lib ir
      → ((j : ℕ) → at ir.rev j ≢ some str)
      → ir'.next_id ≡ ir.next_id + 1
      → ir.next_id + 1 < 2 ^ 32
      → ((j : ℕ) → at ir'.rev j ≡ at ir.rev j)
      → ir'.fwd_gen ≡ ir.fwd_gen
      → Numbered ir str (0, ir')
  spent_lem ir ir' str v nowhere next small same gen = (
    record {
      started = omega (arith, next);
      small = omega (arith, next, small);
      vacant = λ i far. same i ∙ v.vacant i (omega (arith, far, next));
      texts = λ i s here. v.texts i s (sym (same i) ∙ here);
      short = λ i s here. v.short i s (sym (same i) ∙ here);
      once = λ i j s here there. v.once i j s (sym (same i) ∙ here) (sym (same j) ∙ there);
      past = omega (arith, next, gen, v.past);
      cache = λ d here current. absurd (omega (arith, next, gen, v.past, current));
    },
    inl (refl, λ j here. nowhere j (sym (same j) ∙ here)),
    (λ i s here. same i ∙ here),
    λ i s other here. sym (same i) ∙ here,
  )

  place_stage :
      (ir st : Interner D) (ir' : Interner D) (str : Bytes)
      → IsValid lib ir
      → IsString str
      → length str + 5 ≤ max_word_len
      → ((j : ℕ) → at ir.rev j ≢ some str)
      → ir.next_id + 1 < 2 ^ 32
      → st.next_id ≡ ir.next_id + 1
      → Stored ir.rev ir.next_id str st.rev
      → Cached lib laws st ir'
      → Numbered ir str (ir.next_id, ir')
  place_stage ir st ir' str v is_str fits nowhere small next stored (rev, num, past, cache) =
      let kept : Stored ir.rev ir.next_id str ir'.rev = λ j. ap (λ xs. at xs j) rev ∙ stored j in
      (
        stored_lem lib ir ir' str v is_str fits nowhere small (num ∙ next) kept past cache,
        inr (
          ir.next_id - 1,
          omega (arith, v.started),
          kept (ir.next_id - 1) ∙ rw (==_refl (ir.next_id - 1)) refl,
        ),
        (λ i s here.
            kept i
            ∙ rw
                (==_ne i (ir.next_id - 1)
                  (λ own. no_some (sym (v.vacant i (omega (arith, own, v.started))) ∙ here)))
                here),
        λ i s other here. elim (Stored-cases ir.rev ir'.rev ir.next_id str kept i s here) [
          | inl (own, same) ↦
              let clash : true ≡ false =
                sym (words_eq_refl str)
                ∙ subst (λ (x : Bytes). words_eq x str ≡ false) (sym same) other in
              cc
          | inr (apart, old) ↦ old
        ],
      )

  module _ (first_payload : D → Bytes → Option Key) where
    new_stage :
        (mem : Mem) (ir : Interner D) (str : Bytes) (grown : Option (List (Option Bytes)))
        → IsValid lib ir
        → IsString str
        → ((j : ℕ) → at ir.rev j ≢ some str)
        → ir.next_id < 2 ^ 31
        → ltb max_word_len (length str + 5) ≡ false
        → grow_rev mem ir.rev ir.next_id ≡ grown
        → Grown ir.rev ir.next_id grown
        → Numbered ir str (intern_new lib first_payload mem ir str)
    unfolding intern_new
    new_stage mem ir str none v is_str nowhere small short e g =
        rw (short, e)
          (spent_lem ir _ str v nowhere (omega (arith, small)) (omega (arith, small)) (λ j. refl)
            refl)
    new_stage mem ir str (some rev) v is_str nowhere small short e (wide, same) =
        elim (Bool-cases (mem.malloc_ok (length str + 1))) [
          | inr refused ↦
              rw (short, e, refused)
                (spent_lem ir _ str v nowhere (omega (arith, small)) (omega (arith, small))
                  (at-set_vacant rev ir.rev (ir.next_id - 1) same
                    (v.vacant (ir.next_id - 1) (omega (arith, v.started))))
                  refl)
          | inl granted ↦
              let st : Interner D = record ir {
                dirty = true;
                next_id = (ir.next_id + 1) % 2 ^ 32;
                rev = set rev (ir.next_id - 1) (some str);
              } in
              let stored : Stored ir.rev ir.next_id str st.rev =
                set-Stored ir.rev rev ir.next_id str v.started wide same in
              let next : st.next_id ≡ ir.next_id + 1 = omega (arith, small) in
              let cached : Cached lib laws st (grow_fwd lib first_payload mem st str ir.next_id) =
                grow_fwd_stage lib laws first_payload mem st str ir.next_id ir.fwd refl
                  (omega (arith, v.past, next))
                  (λ d here current ok.
                    add_n-IsCache lib laws d ir.rev st.rev ir.next_id str (v.cache d here current)
                      v.started (v.vacant (ir.next_id - 1) (omega (arith, v.started))) stored ok) in
              rw (short, e, granted)
                (place_stage ir st _ str v is_str (ground (arith, short)) nowhere
                  (omega (arith, small)) next stored cached)
        ]

    intern_new-Numbered :
        (mem : Mem) (ir : Interner D) (str : Bytes)
        → IsValid lib ir
        → IsString str
        → ((j : ℕ) → at ir.rev j ≢ some str)
        → ir.next_id < 2 ^ 31
        → Numbered ir str (intern_new lib first_payload mem ir str)
    unfolding intern_new
    intern_new-Numbered mem ir str v is_str nowhere small =
        elim (Bool-cases (ltb max_word_len (length str + 5))) [
          | inr short ↦
              new_stage mem ir str (grow_rev mem ir.rev ir.next_id) v is_str nowhere small short
                refl (grow_rev_lem mem ir.rev ir.next_id v.started small)
          | inl long ↦ rw long (marked ir str 0 v (inl (refl, nowhere)))
        ]

    module _ (enums : IsPrefixEnum lib first_payload) where
      pub intern_str-Numbered :
          (mem : Mem) (ir : Interner D) (str : Bytes)
          → IsValid lib ir
          → IsString str
          → ir.next_id < 2 ^ 31
          → Numbered ir str (intern_str lib first_payload mem ir str)
      unfolding intern_str
      intern_str-Numbered mem ir str v is_str small =
          elim (Bool-cases (intern_str_find lib first_payload ir str == 0)) [
            | inl zeroth ↦ rw zeroth (
                intern_new-Numbered mem ir str v is_str
                  (λ j here.
                    absent ir str _ v
                      ((==_iff (intern_str_find lib first_payload ir str) 0).0 zeroth)
                      (find_lem lib first_payload enums ir str v is_str) j here)
                  small)
            | inr found ↦ rw found (
              v,
              find_lem lib first_payload enums ir str v is_str,
              (λ i s here. here),
              λ i s other here. here,
            )
          ]
