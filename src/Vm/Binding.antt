-- ===== src/Vm/Binding.antt =====
-- The bindings of zig/src/vm.zig: what `bTry`, `bindRowPerm` and `OP_ARITH` add to them.
use native.Mathlib.Nat.{mod-lt, div-add-mod'}
use native.Mathlib.Decide.{ℕ_discrete}
use datalog_dafsa.Base.{
  ℕ, zero, suc, ◌+◌, ◌-◌, ◌*◌, ◌/◌, ◌%◌, ◌^◌, ◌<◌, ◌≡◌, ◌≢◌, refl, sym, ap, ◌∙◌, subst, ◌⊎◌, inl,
  inr, Bool, true, false, ◌&&◌, Option, none, some, List, arith, ltb, leb, ◌==◌, ==_ne, ==_iff,
  Bool-cases, length, get_or, set, length-set, get_or-set_self, get_or-set_ne,
}
use datalog_dafsa.Vm.{
  Instr, Bindings, max_vars, no_slot, b_try, b_ok, b_get, bind_row, arith_result,
}

-- Both arrays have `MAX_VARS` entries.
abbrev pub IsWide : Bindings → Type 0
IsWide b = (length b.vals ≡ 64) × (length b.valid ≡ 64)

-- Every bound slot of `b` has its value in `b'`.
abbrev pub Keeps : Bindings → Bindings → Type 0
Keeps b b' = (s : ℕ) → b_ok b s ≡ true → (b_ok b' s ≡ true) × (b_get b' s ≡ b_get b s)

abbrev pub Has : Bindings → ℕ → ℕ → Type 0
Has b s v = (b_ok b s ≡ true) × (b_get b s ≡ v)

-- `bTry` binds the slot, or no bindings that keep these have this value there.
abbrev pub Tries : Bindings → ℕ → ℕ → Option Bindings → Type 0
Tries b s v r =
    ((b' : Bindings) × (r ≡ some b')
      × IsWide b'
      × Keeps b b'
      × Has b' s v
      × ((c : Bindings) → Keeps b c → Has c s v → Keeps b' c))
    ⊎ ((r ≡ none) × ((b' : Bindings) → Keeps b b' → ¬ Has b' s v))

-- Slot `s` with value `v`.
abbrev bound : Bindings → ℕ → ℕ → Bindings
bound b s v = record { vals = set b.vals s v; valid = set b.valid s true }

bound_self : (b : Bindings) (s v : ℕ) → IsWide b → s < 64 → Has (bound b s v) s v
unfolding b_ok b_get
bound_self b s v (w, w') small =
    let valid : get_or (set b.valid s true) s false ≡ true =
      get_or-set_self b.valid s true false (omega arith) in
    let value : get_or (set b.vals s v) s 0 ≡ v = get_or-set_self b.vals s v 0 (omega arith) in
    let less : ltb s 64 ≡ true = ground arith in (rw (less, valid) refl, rw (less, valid) value)

bound_other :
    (b : Bindings) (s v q : ℕ)
    → s ≢ q
    → (b_ok (bound b s v) q ≡ b_ok b q) × (b_get (bound b s v) q ≡ b_get b q)
unfolding b_ok b_get
bound_other b s v q apart =
    let valid : get_or (set b.valid s true) q false ≡ get_or b.valid q false =
      get_or-set_ne b.valid s q true false apart in
    let value : get_or (set b.vals s v) q 0 ≡ get_or b.vals q 0 =
      get_or-set_ne b.vals s q v 0 apart in
    (rw valid refl, rw (valid, value) refl)

bound-Keeps :
    (b : Bindings) (s v : ℕ)
    → IsWide b
    → s < 64
    → get_or b.valid s false ≡ false
    → Keeps b (bound b s v)
unfolding b_ok
bound-Keeps b s v wide small free q ok = elim (ℕ_discrete s q) [
  | yes same ↦ absurd (
      cc (
        free,
        ap (λ (t : ℕ). get_or b.valid t false) same,
        (was_valid q (get_or b.valid q false) ok),
      ))
  | no apart ↦ let (o, g) = bound_other b s v q apart in (o ∙ ok, g)
]
  where
    was_valid : (q : ℕ) (x : Bool) → (ltb q 64 && x) ≡ true → x ≡ true
    was_valid q x h = ground arith

bound_least :
    (b : Bindings) (s v : ℕ)
    → IsWide b
    → s < 64
    → (c : Bindings) → Keeps b c
    → Has c s v
    → Keeps (bound b s v) c
bound_least b s v wide small c keeps has q ok = elim (ℕ_discrete s q) [
  | yes same ↦
      subst (λ (t : ℕ). (b_ok c t ≡ true) × (b_get c t ≡ b_get (bound b s v) t)) same
        (has.0, has.1 ∙ sym (bound_self b s v wide small).1)
  | no apart ↦
      let (o, g) = bound_other b s v q apart in
      let (o', g') = keeps q (sym o ∙ ok) in (o', g' ∙ sym g)
]

in_range : (s : ℕ) (b : Bindings) → b_ok b s ≡ true → s < 64
unfolding b_ok
in_range s b ok = narrow s (get_or b.valid s false) ok
  where
    narrow : (s : ℕ) (x : Bool) → (ltb s 64 && x) ≡ true → s < 64
    narrow s x h = ground arith

Has-valid :
    (b : Bindings) (s v : ℕ)
    → s < 64
    → get_or b.valid s false ≡ true
    → get_or b.vals s 0 ≡ v
    → Has b s v
unfolding b_ok b_get
Has-valid b s v small valid value =
    let less : ltb s 64 ≡ true = ground arith in (rw (less, valid) refl, rw (less, valid) value)

pub b_try-Tries : (b : Bindings) (s v : ℕ) → IsWide b → Tries b s v (b_try b s v)
unfolding b_try
b_try-Tries b s v wide = elim (Bool-cases (leb max_vars s)) [
  | inl large ↦
      inr (rw large, λ b' keeps (ok, _). let small = in_range s b' ok in absurd (ground arith))
  | inr small ↦
      let below : s < 64 = ground arith in
      elim (Bool-cases (get_or b.valid s false)) [
        | inl valid ↦
            let here = Has-valid b s (get_or b.vals s 0) below valid refl in
            elim (Bool-cases (get_or b.vals s 0 == v)) [
              | inl same ↦ inl (
                b,
                rw (small, valid, same),
                wide,
                (λ q ok. (ok, refl)),
                (here.0, here.1 ∙ (==_iff _ v).0 same),
                (λ c keeps _. keeps),
              )
              | inr other ↦ inr (
                rw (small, valid, other),
                λ b' keeps (_, value).
                    let clash : get_or b.vals s 0 ≡ v =
                      sym here.1 ∙ sym (keeps s here.0).1 ∙ value in
                    absurd (ground arith),
              )
            ]
        | inr free ↦ inl (
          bound b s v,
          rw (small, free),
          (length-set b.vals s v ∙ wide.0, length-set b.valid s true ∙ wide.1),
          bound-Keeps b s v wide below free,
          bound_self b s v wide below,
          bound_least b s v wide below,
        )
      ]
]

Keeps-trans : (a b c : Bindings) → Keeps a b → Keeps b c → Keeps a c
Keeps-trans a b c ab bc q ok =
    let (ok', same) = ab q ok in let (ok'', same') = bc q ok' in (ok'', same' ∙ same)

Keeps-Has : (b c : Bindings) (s v : ℕ) → Keeps b c → Has b s v → Has c s v
Keeps-Has b c s v keeps (ok, value) = let (ok', same) = keeps s ok in (ok', same ∙ value)

-- The bindings hold the row's columns from `pp` on, `left` of them, at the instruction's slots.
abbrev pub Holds : Instr → List ℕ → ℕ → ℕ → Bindings → Type 0
Holds i row zero pp b = Unit
Holds i row (suc left) pp b =
    (get_or i.slots pp no_slot ≢ no_slot → Has b (get_or i.slots pp no_slot) (get_or row pp 0))
    × Holds i row left (pp + 1) b

Holds-Keeps :
    (i : Instr) (row : List ℕ) (left pp : ℕ) (b c : Bindings)
    → Keeps b c
    → Holds i row left pp b
    → Holds i row left pp c
Holds-Keeps i row zero pp b c keeps holds = tt
Holds-Keeps i row (suc left) pp b c keeps (here, rest) = (
  (λ named. Keeps-Has b c _ _ keeps (here named)),
  Holds-Keeps i row left (pp + 1) b c keeps rest,
)

-- `bindRowPerm` without a permutation, from column `pp` on: it succeeds with bindings that keep the
-- given ones and hold the row; or it fails, and no bindings that keep the given ones hold the row.
pub bind_row_lem :
    (i : Instr) (row : List ℕ) (left pp : ℕ) (b : Bindings)
    → IsWide b
    → ((b' : Bindings) × (bind_row i row left pp b ≡ some b')
        × IsWide b'
        × Keeps b b'
        × Holds i row left pp b')
      ⊎ ((bind_row i row left pp b ≡ none)
          × ((b' : Bindings) → Keeps b b' → ¬ Holds i row left pp b'))
unfolding bind_row
bind_row_lem i row zero pp b wide = inl (b, refl, wide, (λ q ok. (ok, refl)), tt)
bind_row_lem i row (suc left) pp b wide = elim (Bool-cases (get_or i.slots pp no_slot == no_slot)) [
  | inl unnamed ↦
      let skip : get_or i.slots pp no_slot ≡ no_slot = (==_iff _ no_slot).0 unnamed in
      elim (bind_row_lem i row left (pp + 1) b wide) [
        | inl (b', run, wide', keeps, holds) ↦
            inl (b', rw unnamed run, wide', keeps, ((λ named. absurd (named skip)), holds))
        | inr (run, out) ↦ inr (rw unnamed run, λ b' keeps (_, rest). out b' keeps rest)
      ]
  | inr named ↦
      let some_slot : get_or i.slots pp no_slot ≢ no_slot = ground arith in
      elim (b_try-Tries b (get_or i.slots pp no_slot) (get_or row pp 0) wide) [
        | inr (tried, out) ↦
            inr (rw (named, tried), λ b' keeps (here, _). out b' keeps (here some_slot))
        | inl (c, tried, wide_c, keeps_c, has_c, least) ↦
            elim (bind_row_lem i row left (pp + 1) c wide_c) [
              | inl (b', run, wide', keeps, holds) ↦ inl (
                b',
                rw (named, tried) run,
                wide',
                Keeps-trans b c b' keeps_c keeps,
                ((λ _. Keeps-Has c b' _ _ keeps has_c), holds),
              )
              | inr (run, out) ↦ inr (
                rw (named, tried) run,
                λ b' keeps (here, rest). out b' (least b' keeps (here some_slot)) rest,
              )
            ]
      ]
]

-- Addition and subtraction are inverse. A divisor 0 makes division and remainder backtrack; for any
-- other, quotient and remainder are those of the division with remainder.
abbrev pub Arith : ℕ → ℕ → Type 0
Arith av bv =
    ((r : ℕ) → arith_result 0 av bv ≡ some r → arith_result 1 r bv ≡ some av)
    × ((r : ℕ) → arith_result 1 av bv ≡ some r → arith_result 0 r bv ≡ some av)
    × (((bv ≡ 0) × (arith_result 3 av bv ≡ none) × (arith_result 4 av bv ≡ none))
        ⊎ ((q : ℕ) × (m : ℕ) × (arith_result 3 av bv ≡ some q)
            × (arith_result 4 av bv ≡ some m)
            × (av ≡ q * bv + m)
            × (m < bv)))

-- `OP_ARITH` on u32 operands: addition and subtraction with wrap-around are inverse, the quotient
-- `q` and the remainder `m` by a divisor bv other than 0 satisfy av = q * bv + m with m < bv, and
-- the divisor 0 makes both backtrack.
pub arith_result_lem : (av bv : ℕ) → av < 2 ^ 32 → bv < 2 ^ 32 → Arith av bv
unfolding arith_result
arith_result_lem av bv a_small b_small = (
  (λ r run. let value : (av + bv) % 2 ^ 32 ≡ r = cc run in ap some (omega arith)),
  (λ r run. let value : (av + 2 ^ 32 - bv) % 2 ^ 32 ≡ r = cc run in ap some (omega arith)),
  elim (ℕ_discrete bv 0) [
    | yes zero_there ↦ inl (zero_there, rw zero_there refl, rw zero_there refl)
    | no other ↦ inr (
      av / bv,
      av % bv,
      rw (==_ne bv 0 other) refl,
      rw (==_ne bv 0 other) refl,
      sym (div-add-mod' av bv),
      mod-lt av (omega arith),
    )
  ],
)
