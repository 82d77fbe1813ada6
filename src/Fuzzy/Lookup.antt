-- ===== src/Fuzzy/Lookup.antt =====
-- `dl_fuzzy_lookup` of zig/src/dl.zig: the symbols within an edit distance of a string.
use datalog_dafsa.Base.{
  ℕ, zero, suc, ◌+◌, ◌-◌, ◌≤◌, ◌<◌, ◌≡◌, ◌↔◌, refl, sym, ap, ◌∙◌, subst, true, false, ◌||◌, Option,
  none, some, List, [], ◌∷◌, if◌then◌else◌, ◌==◌, leb, ltb, length, Mem, ret, arith, inl, inr, ◌⊎◌,
  Bool-cases, ==_iff,
}
use datalog_dafsa.IntSet.Contents.{IsAmple}
use datalog_dafsa.TxnWal.{Bytes}
use datalog_dafsa.Interner.{Interner, intern_str_of}
use datalog_dafsa.Interner.Valid.{no_some, some_same}
use datalog_dafsa.Fuzzy.{FuzzyCb, lev_distance_cap, lev_pattern_max, fuzzy_from, dl_fuzzy_lookup}
use datalog_dafsa.Fuzzy.Edits.{Edits, IsDistance, Edits-length}
use datalog_dafsa.Fuzzy.Distance.{lev_distance_cap_lem}

-- What the callback is given: a number, its string and its distance.
abbrev pub Hit : Type 0
Hit = ℕ × (Bytes × ℕ)

-- The hits go to the callback until it stops; `n` went before.
unfoldable pub feed : {A : Type 0} → FuzzyCb A → List Hit → ℕ → A → ℕ × A
feed cb [] n a = (n, a)
feed cb ((id, (name, dist)) ∷ hits) n a =
    let (stop, a') = cb id name dist a in
    let later = feed cb hits (n + 1) a' in if stop then (n + 1, a') else later

abbrev pub Among : Hit → List Hit → Type 0
Among h [] = ⊥
Among h (g ∷ hits) = (h ≡ g) ⊎ Among h hits

-- The numbers ascend, from `lo` on.
abbrev pub Ascends : ℕ → List Hit → Type 0
Ascends lo [] = Unit {0}
Ascends lo (h ∷ hits) = (lo ≤ h.0) × Ascends (h.0 + 1) hits

module _ {D : Type 0} (ir : Interner D) (needle : Bytes) (k : ℕ) where
  -- A number that stands for a string within the distance.
  abbrev pub IsHit : Hit → Type 0
  IsHit (id, (name, dist)) =
      (intern_str_of ir id ≡ some name) × IsDistance needle name dist × (dist ≤ k)

  abbrev Covers : ℕ → ℕ → List Hit → Type 0
  Covers lo n hits =
      Ascends lo hits
      × ((h : Hit) → Among h hits → IsHit h)
      × ((h : Hit) → lo ≤ h.0 → h.0 < lo + n → IsHit h → Among h hits)

  weaken : (lo lo' : ℕ) (hits : List Hit) → lo' ≤ lo → Ascends lo hits → Ascends lo' hits
  weaken lo lo' [] h asc = tt
  weaken lo lo' (g ∷ hits) h (first, asc) = (omega (arith, h, first), asc)

  pass-Covers :
      (lo n : ℕ) (hits : List Hit)
      → Covers (lo + 1) n hits
      → ((h : Hit) → h.0 ≡ lo → IsHit h → ⊥)
      → Covers lo (suc n) hits
  pass-Covers lo n hits (asc, sound, complete) nothing = (
    weaken (lo + 1) lo hits (omega arith) asc,
    sound,
    λ h from below is. elim (Bool-cases (h.0 == lo)) [
      | inl own ↦ absurd (nothing h ((==_iff h.0 lo).0 own) is)
      | inr later ↦ complete h (ground (arith, from, later)) (omega (arith, below)) is
    ],
  )

  hit-Covers :
      (lo n : ℕ) (name : Bytes) (dist : ℕ) (hits : List Hit)
      → Covers (lo + 1) n hits
      → IsHit (lo, (name, dist))
      → ((h : Hit) → h.0 ≡ lo → IsHit h → h ≡ (lo, (name, dist)))
      → Covers lo (suc n) ((lo, (name, dist)) ∷ hits)
  hit-Covers lo n name dist hits (asc, sound, complete) is only = (
    (omega arith, asc),
    (λ h among. elim among [ inl e ↦ subst IsHit (sym e) is | inr later ↦ sound h later ]),
    λ h from below is'. elim (Bool-cases (h.0 == lo)) [
      | inl own ↦ inl (only h ((==_iff h.0 lo).0 own) is')
      | inr later ↦ inr (complete h (ground (arith, from, later)) (omega (arith, below)) is')
    ],
  )

  same_distance : (a b : Bytes) (n m : ℕ) → IsDistance a b n → IsDistance a b m → n ≡ m
  same_distance a b n m (e, least) (f, least') = omega (arith, least m f, least' n e)

  only_hit :
      (lo : ℕ) (name : Bytes) (dist : ℕ)
      → IsHit (lo, (name, dist))
      → (h : Hit) → h.0 ≡ lo
      → IsHit h
      → h ≡ (lo, (name, dist))
  only_hit lo name dist (e, d, le) (id, (name', dist')) own (e', d', le') =
      let same : name' ≡ name = some_same (sym e' ∙ ap (intern_str_of ir) own ∙ e) in
      let near : dist' ≡ dist =
        same_distance needle name dist' dist
          (subst (λ (x : Bytes). IsDistance needle x dist') same d') d in
      rw (own, same, near) refl

  no_hit :
      (lo : ℕ) (name : Bytes)
      → intern_str_of ir lo ≡ some name
      → ((m : ℕ) → Edits needle name m → k < m)
      → (h : Hit) → h.0 ≡ lo
      → IsHit h
      → ⊥
  no_hit lo name e far (id, (name', dist)) own (e', (script, least), le) =
      let same : name' ≡ name = some_same (sym e' ∙ ap (intern_str_of ir) own ∙ e) in
      omega (arith, far dist (subst (λ (x : Bytes). Edits needle x dist) same script), le)

  module _ {A : Type 0} (mem : Mem) (cb : FuzzyCb A) where
    -- The loop over `n` numbers from `lo` on gives the hits among them to the callback.
    abbrev Scanned : ℕ → ℕ → Type 0
    Scanned lo n =
        (hits : List Hit) × Covers lo n hits
        × ((count : ℕ) (a : A) → fuzzy_from mem ir needle k cb n lo count a ≡ feed cb hits count a)

    none_stage : (lo n : ℕ) → intern_str_of ir lo ≡ none → Scanned (lo + 1) n → Scanned lo (suc n)
    unfolding fuzzy_from
    none_stage lo n e (hits, finds, run) = (
      hits,
      pass-Covers lo n hits finds
          (λ h own is. no_some (sym e ∙ ap (intern_str_of ir) (sym own) ∙ is.0)),
      λ count a. rw (fuzzy_from, e) (run count a),
    )

    some_stage :
        (lo n : ℕ) (name : Bytes) (d : ℕ)
        → intern_str_of ir lo ≡ some name
        → IsDistance needle name d
        → lev_distance_cap mem needle name k ≡ (if ltb k d then k + 1 else d)
        → Scanned (lo + 1) n
        → Scanned lo (suc n)
    unfolding fuzzy_from feed
    some_stage lo n name d e dist capped (hits, finds, run) =
        let band = ltb (length name + k) (length needle) || ltb (length needle + k) (length name) in
        elim (Bool-cases band) [
          | inl far ↦ (
            hits,
            pass-Covers lo n hits finds
                (no_hit lo name e (λ m f. ground (arith, far, Edits-length needle name m f))),
            λ count a. rw (fuzzy_from, e, far) (run count a),
          )
          | inr near ↦ elim (Bool-cases (ltb k d)) [
            | inl over ↦
                let high : ltb k (lev_distance_cap mem needle name k) ≡ true =
                  rw (capped, over) (ground arith) in
                (
                  hits,
                  pass-Covers lo n hits finds
                      (no_hit lo name e (λ m f. ground (arith, over, dist.1 m f))),
                  λ count a. rw (fuzzy_from, e, near, high) (run count a),
                )
            | inr within ↦
                let same : lev_distance_cap mem needle name k ≡ d = capped ∙ rw within refl in
                let is : IsHit (lo, (name, d)) = (e, dist, ground (arith, within)) in
                (
                  (lo, (name, d)) ∷ hits,
                  hit-Covers lo n name d hits finds is (only_hit lo name d is),
                  λ count a. rw (fuzzy_from, e, near, same, within, run) refl,
                )
          ]
        ]

    scan_stage :
        (lo n : ℕ) (o : Option Bytes)
        → IsAmple mem
        → intern_str_of ir lo ≡ o
        → Scanned (lo + 1) n
        → Scanned lo (suc n)
    scan_stage lo n none ample e later = none_stage lo n e later
    scan_stage lo n (some name) ample e later =
        let (d, dist, capped) = lev_distance_cap_lem mem needle name k ample in
        some_stage lo n name d e dist capped later

    fuzzy_from_lem : (lo n : ℕ) → IsAmple mem → Scanned lo n
    unfolding fuzzy_from feed
    fuzzy_from_lem lo zero ample = (
      [],
      (tt, (λ h among. absurd among), λ h from below is. absurd (omega (arith, from, below))),
      λ count a. refl,
    )
    fuzzy_from_lem lo (suc n) ample =
        scan_stage lo n (intern_str_of ir lo) ample refl (fuzzy_from_lem (lo + 1) n ample)

    -- A number that stands for a string is one of the interner's.
    interned :
        (id : ℕ) (name : Bytes)
        → intern_str_of ir id ≡ some name
        → (1 ≤ id) × (id < 1 + (ir.next_id - 1))
    unfolding intern_str_of
    interned id name e =
        elim (Bool-cases ((id == 0) || (leb ir.next_id id || ltb (length ir.rev) id))) [
          | inl out ↦ absurd (no_some (sym (rw out refl) ∙ e))
          | inr inside ↦ (ground (arith, inside), ground (arith, inside))
        ]

    -- With memory, for a distance of at most 2 and a string of 1 to 512 bytes, dl_fuzzy_lookup gives
    -- the callback, until it stops, the number, the string and the distance of exactly the symbols
    -- within the distance, the numbers ascending, and returns how many the callback was given.
    pub dl_fuzzy_lookup_lem :
        (a : A)
        → IsAmple mem
        → k ≤ 2
        → 0 < length needle
        → length needle ≤ lev_pattern_max
        → (hits : List Hit) × Ascends 1 hits
          × ((h : Hit) → Among h hits ↔ IsHit h)
          × (dl_fuzzy_lookup mem ir needle k cb a ≡ (let (n, a') = feed cb hits 0 a in (ret n, a')))
    unfolding dl_fuzzy_lookup
    dl_fuzzy_lookup_lem a ample small pos fits =
        let (hits, (asc, sound, complete), run) = fuzzy_from_lem 1 (ir.next_id - 1) ample in
        let guard : (ltb 2 k || ((length needle == 0) || ltb lev_pattern_max (length needle)))
            ≡ false =
          ground (arith, small, pos, fits) in
        (
          hits,
          asc,
          (λ h.
              (sound h, λ is. let (low, high) = interned h.0 h.1.0 is.0 in complete h low high is)),
          rw (guard, run 0 a) refl,
        )
