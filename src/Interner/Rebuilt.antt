-- ===== src/Interner/Rebuilt.antt =====
-- `ensureFwd` of zig/src/intern.zig: the cache that is built from the array.
use datalog_dafsa.Base.{
  ℕ, zero, suc, ◌+◌, ◌-◌, ◌≤◌, ◌<◌, ◌≡◌, ◌≢◌, refl, sym, ap, ◌∙◌, subst, Bool, true, false, not,
  ◌&&◌, ◌||◌, Option, none, some, List, [], ◌∷◌, if◌then◌else◌, ◌==◌, ltb, length, words_eq,
  words_eq→eq, words_eq_refl, Ret, err, ret, Mem, arith, inl, inr, ◌⊎◌, Bool-cases,
}
use datalog_dafsa.TupleSet.{◌>>=◌}
use datalog_dafsa.TxnWal.{Bytes}
use datalog_dafsa.Interner.Assigned.{added}
use datalog_dafsa.Relation.{Key, Dafsa, is_word, words, is_ok}
use datalog_dafsa.Relation.Laws.{IsDafsa}
use datalog_dafsa.Interner.{
  Interner, fill_key, intern_str_find, intern_str_of, build_fwd, ensure_fwd, max_word_len,
}
use datalog_dafsa.Interner.Keyed.{IsString}
use datalog_dafsa.Interner.Valid.{
  at, no_some, some_same, some_same, Located, IsCache, IsValid, IsPrefixEnum, slot_small, find_lem,
  same_number,
}

-- A key of the slots below `n`, which start at the number `i + 1`.
abbrev pub KeyOf : List (Option Bytes) → ℕ → ℕ → Key → Type 0
KeyOf rev i n w =
    (j : ℕ) × (s : Bytes) × (j < n) × (at rev j ≡ some s) × (w ≡ fill_key s (i + j + 1))

shift_KeyOf :
    (slot : Option Bytes) (rev : List (Option Bytes)) (i n : ℕ) (w : Key)
    → KeyOf rev (i + 1) n w
    → KeyOf (slot ∷ rev) i (suc n) w
shift_KeyOf slot rev i n w (j, s, low, here, e) =
    (suc j, s, omega (arith, low), here, e ∙ ap (fill_key s) (omega arith))

no_false : false ≡ true → ⊥
no_false e = cc

key_cases :
    (slot : Option Bytes) (rev : List (Option Bytes)) (i n : ℕ) (w : Key)
    → KeyOf (slot ∷ rev) i (suc n) w
    → ((s : Bytes) × (slot ≡ some s) × (w ≡ fill_key s (i + 1))) ⊎ KeyOf rev (i + 1) n w
key_cases slot rev i n w (zero, s, low, here, e) = inl (s, here, e ∙ ap (fill_key s) (omega arith))
key_cases slot rev i n w (suc j, s, low, here, e) =
    inr (j, s, omega (arith, low), here, e ∙ ap (fill_key s) (omega arith))

added_next :
    {D : Type 0} (long granted ok : Bool) (skip rest : Option D) (d : D)
    → long ≡ false
    → (if long then skip else if not granted then none else if ok then rest else none) ≡ some d
    → (ok ≡ true) × (rest ≡ some d)
added_next true granted ok skip rest d long e = cc
added_next false false ok skip rest d long e = absurd (no_some e)
added_next false true false skip rest d long e = absurd (no_some e)
added_next false true true skip rest d long e = (refl, e)

module _ {D S : Type 0} (lib : Dafsa D S) (laws : IsDafsa lib)
    (first_payload : D → Bytes → Option Key) where
  -- What `d'` has more than `d`.
  abbrev pub Built : List (Option Bytes) → ℕ → ℕ → D → D → Type 0
  Built rev i n d d' =
      ((w : Key) → is_word w (words lib d) ≡ true → is_word w (words lib d') ≡ true)
      × ((w : Key) → KeyOf rev i n w → is_word w (words lib d') ≡ true)
      × ((w : Key)
          → is_word w (words lib d') ≡ true
          → (is_word w (words lib d) ≡ true) ⊎ KeyOf rev i n w)

  skip_Built :
      (rev : List (Option Bytes)) (i n : ℕ) (d d' : D)
      → Built rev (i + 1) n d d'
      → Built (none ∷ rev) i (suc n) d d'
  skip_Built rev i n d d' (old, keys, only) = (
    old,
    (λ w h. elim (key_cases none rev i n w h) [
      | inl (s, here, e) ↦ absurd (no_some here)
      | inr later ↦ keys w later
    ]),
    λ w h. elim (only w h) [ inl x ↦ inl x | inr x ↦ inr (shift_KeyOf none rev i n w x) ],
  )

  add_Built :
      (s : Bytes) (rev : List (Option Bytes)) (i n : ℕ) (d d1 d' : D)
      → ((w : Key)
          → is_word w (words lib d1) ≡ (words_eq w (fill_key s (i + 1)) || is_word w (words lib d)))
      → Built rev (i + 1) n d1 d'
      → Built (some s ∷ rev) i (suc n) d d'
  add_Built s rev i n d d1 d' grown (old, keys, only) = (
    (λ w h. old w (grown w ∙ rw h (ground arith))),
    (λ w h. elim (key_cases (some s) rev i n w h) [
      | inl (s', here, e) ↦
          old w (grown w ∙ rw (e, sym (some_same here), words_eq_refl (fill_key s (i + 1))) refl)
      | inr later ↦ keys w later
    ]),
    λ w h. elim (only w h) [
      | inr x ↦ inr (shift_KeyOf (some s) rev i n w x)
      | inl x ↦ elim (Bool-cases (words_eq w (fill_key s (i + 1)))) [
        | inl same ↦
            inr (zero, s, omega arith, refl, words_eq→eq w _ same ∙ ap (fill_key s) (omega arith))
        | inr other ↦ inl (sym (rw other refl) ∙ sym (grown w) ∙ x)
      ]
    ],
  )

  build_fwd_lem :
      (mem : Mem) (rev : List (Option Bytes)) (i n : ℕ) (d d' : D)
      → ((j : ℕ) (s : Bytes) → at rev j ≡ some s → length s + 5 ≤ max_word_len)
      → build_fwd lib first_payload mem rev i n d ≡ some d'
      → Built rev i n d d'
  unfolding build_fwd
  build_fwd_lem mem [] i n d d' short e =
      subst (λ (x : D). Built [] i n d x) (some_same e)
        ((λ w h. h), (λ w (j, s, low, here, k). absurd (no_some here)), λ w h. inl h)
  build_fwd_lem mem (slot ∷ rev) i zero d d' short e =
      subst (λ (x : D). Built (slot ∷ rev) i zero d x) (some_same e)
        ((λ w h. h), (λ w (j, s, low, here, k). absurd (omega (arith, low))), λ w h. inl h)
  build_fwd_lem mem (none ∷ rev) i (suc n) d d' short e =
      skip_Built rev i n d d' (build_fwd_lem mem rev (i + 1) n d d' (λ j. short (suc j)) e)
  build_fwd_lem mem (some s ∷ rev) i (suc n) d d' short e =
      let (rc, d1) = lib.add_n d (fill_key s (i + 1)) in
      let fits : ltb max_word_len (length s + 5) ≡ false = ground (arith, short zero s refl) in
      let (ok, rest) = added_next _ (mem.malloc_ok (length s + 5)) (is_ok rc) _ _ d' fits e in
      add_Built s rev i n d d1 d'
        (added lib laws (words lib d) (words lib d1) (fill_key s (i + 1)) rc
          (laws.add_law d (fill_key s (i + 1))) ok)
        (build_fwd_lem mem rev (i + 1) n d1 d' (λ j. short (suc j)) rest)

  -- The cache that `ensure_fwd` builds from an empty one.
  built-IsCache :
      (mem : Mem) (ir : Interner D) (created : Option D) (d : D)
      → IsValid lib ir
      → lib.create ≡ created
      → (created >>= λ d0. build_fwd lib first_payload mem ir.rev 0 (ir.next_id - 1) d0) ≡ some d
      → IsCache lib d ir.rev
  unfolding is_word
  built-IsCache mem ir none d v none_created e = absurd (no_some e)
  built-IsCache mem ir (some d0) d v created e =
      let (old, keys, only) = build_fwd_lem mem ir.rev 0 (ir.next_id - 1) d0 d v.short e in
      let empty : words lib d0 ≡ [] = laws.create_law d0 created in
      record {
        held = λ i s here. keys (fill_key s (i + 1)) (
          i,
          s,
          omega (arith, slot_small lib ir i s v here),
          here,
          ap (fill_key s) (omega arith),
        );
        only = λ k inside. elim (only k inside) [
          | inl was ↦ absurd (no_false (sym (ap (is_word k) empty) ∙ was))
          | inr (j, s, low, here, e') ↦ (j, s, here, e' ∙ ap (fill_key s) (omega arith))
        ];
      }

  abbrev pub IsCurrent : Interner D → Bool → Type 0
  IsCurrent ir want_mutable =
      (ir.fwd ≢ none) × (ir.fwd_gen ≡ ir.next_id) × ((want_mutable && ir.fwd_ro) ≡ false)

  -- The array stays, and after a success the cache is there, current, and mutable if it was to be.
  abbrev pub Ensured : Interner D → Bool → Ret × Interner D → Type 0
  Ensured ir want_mutable (rc, ir') =
      IsValid lib ir'
      × (ir'.rev ≡ ir.rev)
      × (ir'.next_id ≡ ir.next_id)
      × (is_ok rc ≡ true → IsCurrent ir' want_mutable)

  cached-IsValid :
      (ir : Interner D) (fwd : Option D) (fwd_ro : Bool) (fwd_gen : ℕ)
      → IsValid lib ir
      → fwd_gen ≤ ir.next_id
      → ((d : D) → fwd ≡ some d → fwd_gen ≡ ir.next_id → IsCache lib d ir.rev)
      → IsValid lib (record ir { fwd = fwd; fwd_ro = fwd_ro; fwd_gen = fwd_gen })
  cached-IsValid ir fwd fwd_ro fwd_gen v past cache = record {
    started = v.started;
    small = v.small;
    vacant = v.vacant;
    texts = v.texts;
    short = v.short;
    once = v.once;
    past = past;
    cache = cache;
  }

  failed_Ensured :
      (ir : Interner D) (want_mutable : Bool)
      → IsValid lib ir
      → Ensured ir want_mutable (err, record ir { fwd = none })
  unfolding is_ok
  failed_Ensured ir want_mutable v = (
    cached-IsValid ir none ir.fwd_ro ir.fwd_gen v v.past (λ d here. absurd (no_some here)),
    refl,
    refl,
    λ ok. absurd (no_false ok),
  )

  rebuilt_Ensured :
      (ir : Interner D) (want_mutable : Bool) (d : D)
      → IsValid lib ir
      → IsCache lib d ir.rev
      → Ensured ir want_mutable
          (ret 0, record ir { fwd = some d; fwd_ro = not want_mutable; fwd_gen = ir.next_id })
  rebuilt_Ensured ir want_mutable d v cache = (
    cached-IsValid ir (some d) (not want_mutable) ir.next_id v (omega arith)
        (λ d' here gen. subst (λ (x : D). IsCache lib x ir.rev) (some_same here) cache),
    refl,
    refl,
    λ ok. ((λ e. no_some (sym e)), refl, ground arith),
  )

  kept_Ensured :
      (ir : Interner D) (want_mutable : Bool) (d : D)
      → IsValid lib ir
      → ir.fwd ≡ some d
      → ((not want_mutable || not ir.fwd_ro) && (ir.fwd_gen == ir.next_id)) ≡ true
      → Ensured ir want_mutable (ret 0, ir)
  kept_Ensured ir want_mutable d v here current = (
    v,
    refl,
    refl,
    λ ok. ((λ e. no_some (sym e ∙ here)), ground (arith, current), ground (arith, current)),
  )

  ensure_stage :
      (mem : Mem) (ir : Interner D) (want_mutable : Bool) (rebuilt fwd : Option D)
      → IsValid lib ir
      → ((d : D) → rebuilt ≡ some d → IsCache lib d ir.rev)
      → (lib.create >>= λ d. build_fwd lib first_payload mem ir.rev 0 (ir.next_id - 1) d) ≡ rebuilt
      → ir.fwd ≡ fwd
      → Ensured ir want_mutable (ensure_fwd lib first_payload mem ir want_mutable)
  unfolding ensure_fwd is_ok
  ensure_stage mem ir want_mutable none none v cache e f =
      rw (ensure_fwd, f, e) (failed_Ensured ir want_mutable v)
  ensure_stage mem ir want_mutable (some d) none v cache e f =
      rw (ensure_fwd, f, e) (rebuilt_Ensured ir want_mutable d v (cache d refl))
  ensure_stage mem ir want_mutable none (some d) v cache e f =
      elim (Bool-cases ((not want_mutable || not ir.fwd_ro) && (ir.fwd_gen == ir.next_id))) [
        | inr stale ↦ rw (ensure_fwd, f, stale, e) (failed_Ensured ir want_mutable v)
        | inl current ↦ rw (ensure_fwd, f, current) (kept_Ensured ir want_mutable d v f current)
      ]
  ensure_stage mem ir want_mutable (some new) (some d) v cache e f =
      elim (Bool-cases ((not want_mutable || not ir.fwd_ro) && (ir.fwd_gen == ir.next_id))) [
        | inr stale ↦
            rw (ensure_fwd, f, stale, e) (rebuilt_Ensured ir want_mutable new v (cache new refl))
        | inl current ↦ rw (ensure_fwd, f, current) (kept_Ensured ir want_mutable d v f current)
      ]

  module _ (enums : IsPrefixEnum lib first_payload) where
    -- `ensure_fwd` on a valid interner gives a valid one that finds the same number for every
    -- string and the same string for every number. It fails, or the cache is there, covers
    -- every number, and is mutable if it was to be.
    pub ensure_fwd_lem :
        (mem : Mem) (ir : Interner D) (want_mutable : Bool) (s : Bytes) (n : ℕ)
        → IsValid lib ir
        → IsString s
        → let (rc, ir') = ensure_fwd lib first_payload mem ir want_mutable in
          IsValid lib ir'
          × (intern_str_find lib first_payload ir' s ≡ intern_str_find lib first_payload ir s)
          × (intern_str_of ir' n ≡ intern_str_of ir n)
          × ((is_ok rc ≡ false) ⊎ (IsCurrent ir' want_mutable))
    unfolding intern_str_of
    ensure_fwd_lem mem ir want_mutable s n v is_s =
        let (v', rev, next, ready) =
          ensure_stage mem ir want_mutable _ ir.fwd v
            (λ d. built-IsCache mem ir lib.create d v refl) refl refl in
        (
          v',
          same_number lib first_payload enums ir.rev s _ _ (λ i j. v.once i j s)
              (subst
                (λ (xs : List (Option Bytes)). Located xs s (
                  intern_str_find lib first_payload
                    (ensure_fwd lib first_payload mem ir want_mutable).1 s))
                rev (find_lem lib first_payload enums _ s v' is_s))
              (find_lem lib first_payload enums ir s v is_s),
          rw (intern_str_of, rev, next) refl,
          elim (Bool-cases (is_ok (ensure_fwd lib first_payload mem ir want_mutable).0)) [
            | inl ok ↦ inr (ready ok)
            | inr failed ↦ inl failed
          ],
        )
