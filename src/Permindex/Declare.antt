-- ===== src/Permindex/Declare.antt =====
-- The table of permutation indices of zig/src/dl.zig: `dl_db_declare_perm` and `dl_db_find_perm`.
use datalog_dafsa.Base.{
  ℕ, zero, suc, ◌+◌, ◌≤◌, ◌<◌, ◌≡◌, refl, true, false, ◌||◌, Option, none, some, List, [], ◌∷◌,
  ◌++◌, ◌==◌, ltb, leb, length, take, words_eq_refl, arith, Bool-cases, inl, inr, ◌⊎◌, Ret, err,
  ret, ==_refl, All, sym, ap, ◌∙◌, ◌≢◌, ==_ne, words_eq→eq,
}
use datalog_dafsa.Permindex.{
  PermIndexEntry, max_perms, is_seen, check_perm, is_index, find_from, dl_db_find_perm,
  dl_db_declare_perm, perm_at,
}

never_none : {a : ℕ} → some a ≡ none → ⊥
never_none e = cc

-- A column is none of those picked before.
abbrev pub Apart : ℕ → List ℕ → Type 0
Apart c [] = Unit {0}
Apart c (s ∷ seen) = (c ≢ s) × Apart c seen

-- The next `left` entries are columns, none of them picked before.
abbrev pub Picks : ℕ → ℕ → List ℕ → List ℕ → Type 0
Picks arity zero perm seen = Unit {0}
Picks arity (suc left) [] seen = ⊥
Picks arity (suc left) (c ∷ perm) seen =
    (c < arity) × Apart c seen × Picks arity left perm (c ∷ seen)

-- The first `arity` entries are all the columns, each once.
abbrev pub IsPermutation : ℕ → List ℕ → Type 0
IsPermutation arity perm = Picks arity arity perm []

unseen-Apart : (c : ℕ) (seen : List ℕ) → is_seen c seen ≡ false → Apart c seen
unfolding is_seen
unseen-Apart c [] h = tt
unseen-Apart c (s ∷ seen) h = (ground (arith, h), unseen-Apart c seen (ground (arith, h)))

Apart-unseen : (c : ℕ) (seen : List ℕ) → Apart c seen → is_seen c seen ≡ false
unfolding is_seen
Apart-unseen c [] h = refl
Apart-unseen c (s ∷ seen) (apart, h) = rw (==_ne c s apart) (Apart-unseen c seen h)

check_perm-Picks :
    (arity left : ℕ) (perm seen : List ℕ)
    → check_perm arity left perm seen ≡ true
    → Picks arity left perm seen
unfolding check_perm
check_perm-Picks arity zero perm seen ok = tt
check_perm-Picks arity (suc left) [] seen ok = cc
check_perm-Picks arity (suc left) (c ∷ perm) seen ok =
    let rest : check_perm arity left perm (c ∷ seen) ≡ true = ground (arith, ok) in
    let fresh : is_seen c seen ≡ false = ground (arith, ok) in
    (
      ground (arith, ok),
      unseen-Apart c seen fresh,
      check_perm-Picks arity left perm (c ∷ seen) rest,
    )

Picks-check_perm :
    (arity left : ℕ) (perm seen : List ℕ)
    → Picks arity left perm seen
    → check_perm arity left perm seen ≡ true
unfolding check_perm
Picks-check_perm arity zero perm seen picks = refl
Picks-check_perm arity (suc left) [] seen picks = absurd picks
Picks-check_perm arity (suc left) (c ∷ perm) seen (low, apart, picks) =
    let guard : (leb arity c || is_seen c seen) ≡ false =
      rw (Apart-unseen c seen apart) (ground (arith, low)) in
    rw guard (Picks-check_perm arity left perm (c ∷ seen) picks)

refused-Picks :
    (arity : ℕ) (perm : List ℕ)
    → check_perm arity arity perm [] ≡ false
    → ¬ IsPermutation arity perm
refused-Picks arity perm h picks =
    let clash : true ≡ false = sym (Picks-check_perm arity arity perm [] picks) ∙ h in cc

module _ {D : Type 0} where
  -- The search gives the number of a matching entry, counted from `i`.
  find_sound :
      (perms : List (PermIndexEntry D)) (rel_id arity : ℕ) (perm : List ℕ) (i n : ℕ)
      → find_from perms rel_id arity perm i ≡ some n
      → (m : ℕ) × (n ≡ i + m)
        × (m < length perms)
        × ((e : PermIndexEntry D) × (perm_at perms m ≡ some e)
            × (is_index e rel_id arity perm ≡ true))
  unfolding find_from perm_at
  find_sound [] rel_id arity perm i n found = cc
  find_sound (e ∷ perms) rel_id arity perm i n found =
      elim (Bool-cases (is_index e rel_id arity perm)) [
        | inl here ↦
            let stop : Path (Option ℕ) (some i) (some n) = rw here at found in
            (0, ground arith, omega arith, (e, refl, here))
        | inr past ↦
            let on : find_from perms rel_id arity perm (i + 1) ≡ some n = rw past at found in
            let (m, at, inside, entry) = find_sound perms rel_id arity perm (i + 1) n on in
            (suc m, omega arith, omega arith, entry)
      ]

  perm_at_append :
      (perms more : List (PermIndexEntry D)) (i : ℕ)
      → i < length perms
      → perm_at (perms ++ more) i ≡ perm_at perms i
  unfolding perm_at
  perm_at_append [] more i h = absurd (omega arith)
  perm_at_append (e ∷ perms) more zero h = refl
  perm_at_append (e ∷ perms) more (suc i) h = perm_at_append perms more i (omega arith)

  perm_at_end :
      (perms : List (PermIndexEntry D)) (e : PermIndexEntry D)
      → perm_at (perms ++ e ∷ []) (length perms) ≡ some e
  unfolding perm_at
  perm_at_end [] e = refl
  perm_at_end (q ∷ perms) e = perm_at_end perms e

  abbrev pub IsIndexOf : PermIndexEntry D → ℕ → ℕ → List ℕ → Type 0
  IsIndexOf q rel_id arity perm =
      (q.rel_id ≡ rel_id) × (q.arity ≡ arity) × (take arity q.perm ≡ take arity perm)

  same_index :
      (q : PermIndexEntry D) (rel_id arity : ℕ) (perm : List ℕ)
      → is_index q rel_id arity perm ≡ false
      → ¬ IsIndexOf q rel_id arity perm
  unfolding is_index
  same_index q rel_id arity perm h (a, b, c) =
      let clash : true ≡ false =
        sym (rw (a, b, c, ==_refl rel_id, ==_refl arity) (words_eq_refl (take arity perm))) ∙ h in
      cc

  missed :
      (perms : List (PermIndexEntry D)) (rel_id arity : ℕ) (perm : List ℕ) (i : ℕ)
      → find_from perms rel_id arity perm i ≡ none
      → All (λ q. ¬ IsIndexOf q rel_id arity perm) perms
  unfolding find_from
  missed [] rel_id arity perm i found = tt
  missed (q ∷ perms) rel_id arity perm i found = elim (Bool-cases (is_index q rel_id arity perm)) [
    | inl here ↦
        let stop : Path (Option ℕ) (some i) none = rw here at found in absurd (never_none stop)
    | inr past ↦
        let on : find_from perms rel_id arity perm (i + 1) ≡ none = rw past at found in
        (same_index q rel_id arity perm past, missed perms rel_id arity perm (i + 1) on)
  ]

  -- What `dl_db_declare_perm` did.
  abbrev pub IsDeclared :
      List (PermIndexEntry D) → ℕ → ℕ → List ℕ → Ret → List (PermIndexEntry D) → Type 0
  IsDeclared perms rel_id arity perm err perms' =
      (perms' ≡ perms)
      × ((arity ≡ 0) ⊎ (8 < arity) ⊎ (64 ≤ length perms) ⊎ ¬ (IsPermutation arity perm))
  IsDeclared perms rel_id arity perm (ret n) perms' =
      (0 < arity)
      × (arity ≤ 8)
      × IsPermutation arity perm
      × (length perms < 64)
      × (e : PermIndexEntry D) × (perm_at perms' n ≡ some e)
      × (e.rel_id ≡ rel_id)
      × (e.arity ≡ arity)
      × (take arity e.perm ≡ take arity perm)
      × (((perms' ≡ perms) × (n < length perms))
          ⊎ ((perms' ≡ perms ++ e ∷ [])
              × (n ≡ length perms)
              × All (λ q. ¬ IsIndexOf q rel_id arity perm) perms))

  found_stage :
      (perms : List (PermIndexEntry D)) (rel_id arity : ℕ) (perm : List ℕ) (o : Option ℕ)
      → ((arity == 0) || ltb 8 arity) ≡ false
      → leb max_perms (length perms) ≡ false
      → check_perm arity arity perm [] ≡ true
      → find_from perms rel_id arity perm 0 ≡ o
      → let (rc, perms') = dl_db_declare_perm perms rel_id arity perm in
        IsDeclared perms rel_id arity perm rc perms'
  unfolding dl_db_declare_perm dl_db_find_perm is_index
  found_stage perms rel_id arity perm none range room bijective found =
      let e : PermIndexEntry D = record {
        rel_id = rel_id;
        arity = arity;
        perm = perm;
        pidx_rel = none;
        dirty = true;
      } in
      rw (range, room, bijective, found, dl_db_declare_perm)
        (
          ground (arith, range),
          ground (arith, range),
          check_perm-Picks arity arity perm [] bijective,
          ground (arith, room),
          e,
          perm_at_end perms e,
          refl,
          refl,
          refl,
          inr (refl, refl, missed perms rel_id arity perm 0 found),
        )
  found_stage perms rel_id arity perm (some n) range room bijective found =
      let (m, at, inside, (e, entry, matches)) = find_sound perms rel_id arity perm 0 n found in
      let same : m ≡ n = omega (arith, at) in
      rw (range, room, bijective, found, dl_db_declare_perm)
        (
          ground (arith, range),
          ground (arith, range),
          check_perm-Picks arity arity perm [] bijective,
          ground (arith, room),
          e,
          ap (perm_at perms) (sym same) ∙ entry,
          ground (arith, matches),
          ground (arith, matches),
          words_eq→eq (take arity e.perm) (take arity perm) (ground (arith, matches)),
          inl (refl, omega (arith, at, inside)),
        )

  -- `dl_db_declare_perm` returns -1 and changes nothing, and then the arity is not 1 to 8, the table
  -- has 64 entries or more, or the first `arity` entries of `perm` are not all the columns, each once.
  -- Or none of these holds, and it returns the number of an entry of that relation, arity and
  -- permutation: one of an unchanged table, or a new one at its end, where the search found none.
  pub dl_db_declare_perm_lem :
      (perms : List (PermIndexEntry D)) (rel_id arity : ℕ) (perm : List ℕ)
      → let (rc, perms') = dl_db_declare_perm perms rel_id arity perm in
        IsDeclared perms rel_id arity perm rc perms'
  unfolding dl_db_declare_perm
  dl_db_declare_perm_lem perms rel_id arity perm = elim (Bool-cases ((arity == 0) || ltb 8 arity)) [
    | inl out ↦ rw (out, dl_db_declare_perm) (refl, ground arith)
    | inr range ↦ elim (Bool-cases (leb max_perms (length perms))) [
      | inl full ↦ rw (range, full, dl_db_declare_perm) (refl, inr (inr (inl (ground arith))))
      | inr room ↦ elim (Bool-cases (check_perm arity arity perm [])) [
        | inl bijective ↦ found_stage perms rel_id arity perm _ range room bijective refl
        | inr other ↦
            rw (range, room, other, dl_db_declare_perm)
              (refl, inr (inr (inr (refused-Picks arity perm other))))
      ]
    ]
  ]
