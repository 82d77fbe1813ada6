-- ===== src/Snapshot/Cached.antt =====
-- The cache of open views of zig/src/snapshot.zig: it answers with the files' views.
use datalog_dafsa.Base.{
  ℕ, zero, suc, ◌+◌, ◌≤◌, ◌≡◌, ◌≢◌, refl, sym, ap, ◌∙◌, subst, Option, none, some, List, [], ◌∷◌,
  if◌then◌else◌, ◌==◌, length, take_all, set, length-set, words_eq, words_eq→eq, All, inl, inr,
  Bool-cases, ==_iff, ==_refl, ==_ne,
}
use native.Mathlib.Decide.{ℕ_discrete}
use datalog_dafsa.TupleSet.{◌>>=◌}
use datalog_dafsa.TxnWal.{Bytes}
use datalog_dafsa.Snapshot.{
  ViewCacheSlot, free_slot, answers, find_cached, vcache_drop_version, view_open_cached,
}

module _ {V : Type 0} where
  -- A view in a slot is that of the file of the slot's relation at the slot's version.
  abbrev Holds : (ℕ → Bytes → Option V) → ViewCacheSlot V → Type 0
  Holds file slot = (v : V) → slot.view ≡ some v → file slot.version slot.rel_name ≡ some v

  abbrev pub IsCoherent : (ℕ → Bytes → Option V) → List (ViewCacheSlot V) → Type 0
  IsCoherent file vcache = All (Holds file) vcache

  answers_lem :
      (file : ℕ → Bytes → Option V) (slot : ViewCacheSlot V) (name : Bytes) (version : ℕ) (v : V)
      → Holds file slot
      → answers slot name version ≡ some v
      → file version name ≡ some v
  answers_lem file slot name version v holds e = elim (Bool-cases (slot.version == version)) [
    | inr other ↦ absurd (no_view (rw other at e))
    | inl same ↦ elim (Bool-cases (words_eq slot.rel_name name)) [
      | inr other ↦ absurd (no_view (rw (same, other) at e))
      | inl named ↦
          let found : slot.view ≡ some v = rw (same, named) at e in
          subst (λ w. file w name ≡ some v) ((==_iff slot.version version).0 same)
            (subst (λ w. file slot.version w ≡ some v) (words_eq→eq slot.rel_name name named)
              (holds v found))
    ]
  ]
    where
      no_view : {v : V} → none ≡ some v → ⊥
      no_view e = cc

  -- What the search of the cache comes to.
  Found : (ℕ → Bytes → Option V) → Bytes → ℕ → Option (V × List (ViewCacheSlot V)) → ℕ → Type 0
  Found file name version none n = Unit {0}
  Found file name version (some (v, vcache')) n =
      (file version name ≡ some v) × IsCoherent file vcache' × (length vcache' ≡ n)

  find_step :
      (file : ℕ → Bytes → Option V) (slot : ViewCacheSlot V) (vcache : List (ViewCacheSlot V))
      (name : Bytes) (version : ℕ) (a : Option V) (later : Option (V × List (ViewCacheSlot V)))
      → answers slot name version ≡ a
      → Holds file slot
      → IsCoherent file vcache
      → Found file name version later (length vcache)
      → Found file name version
          (elim a [
            | some v ↦ some (v, record slot { used = slot.used + 1 } ∷ vcache)
            | none ↦ later >>= λ (v, vcache'). some (v, slot ∷ vcache')
          ])
          (length (slot ∷ vcache))
  unfolding Found
  find_step file slot vcache name version (some v) later e holds coherent found =
      (answers_lem file slot name version v holds e, (holds, coherent), refl)
  find_step file slot vcache name version none none e holds coherent found = tt
  find_step file slot vcache name version none (some (v, vcache')) e holds coherent
        (at, kept, same) =
      (at, (holds, kept), ap suc same)

  find_lem :
      (file : ℕ → Bytes → Option V) (vcache : List (ViewCacheSlot V)) (name : Bytes) (version : ℕ)
      → IsCoherent file vcache
      → Found file name version (find_cached vcache name version) (length vcache)
  unfolding find_cached Found
  find_lem file [] name version coherent = tt
  find_lem file (slot ∷ vcache) name version (holds, coherent) =
      find_step file slot vcache name version (answers slot name version)
        (find_cached vcache name version) refl holds coherent
        (find_lem file vcache name version coherent)

  set-IsCoherent :
      (file : ℕ → Bytes → Option V) (vcache : List (ViewCacheSlot V)) (i : ℕ)
      (slot : ViewCacheSlot V)
      → Holds file slot
      → IsCoherent file vcache
      → IsCoherent file (set vcache i slot)
  set-IsCoherent file [] i slot holds coherent = tt
  set-IsCoherent file (s ∷ vcache) zero slot holds (first, coherent) = (holds, coherent)
  set-IsCoherent file (s ∷ vcache) (suc i) slot holds (first, coherent) =
      (first, set-IsCoherent file vcache i slot holds coherent)

  -- What an opening comes to.
  abbrev pub Opened :
      (ℕ → Bytes → Option V) → Bytes → ℕ → Option V × List (ViewCacheSlot V) → ℕ → Type 0
  Opened file name version (got, vcache') n =
      (got ≡ file version name) × IsCoherent file vcache' × (length vcache' ≡ n)

  open_stage :
      (file : ℕ → Bytes → Option V) (vcache : List (ViewCacheSlot V)) (name : Bytes) (version : ℕ)
      (found : Option (V × List (ViewCacheSlot V))) (opened : Option V)
      → find_cached vcache name version ≡ found
      → file version name ≡ opened
      → IsCoherent file vcache
      → length name ≤ 63
      → Found file name version found (length vcache)
      → Opened file name version (view_open_cached vcache name version opened) (length vcache)
  unfolding view_open_cached Found
  open_stage file vcache name version (some (v, vcache')) opened e f coherent short
        (at, kept, same) =
      rw (view_open_cached, e) (sym at, kept, same)
  open_stage file vcache name version none none e f coherent short found =
      rw (view_open_cached, e) (sym f, coherent, refl)
  open_stage file vcache name version none (some v) e f coherent short found =
      rw (view_open_cached, e, take_all 63 name short)
        (
          sym f,
          set-IsCoherent file vcache _
              (record { rel_name = name; view = some v; used = 1; version = version })
              (λ w same. f ∙ same) coherent,
          length-set vcache _ _,
        )

  -- On a coherent cache and a name of at most 63 bytes `view_open_cached` gives the view of the file of
  -- the relation at the version, or none where there is none, and the cache stays coherent and as large.
  pub view_open_cached_lem :
      (file : ℕ → Bytes → Option V) (vcache : List (ViewCacheSlot V)) (name : Bytes) (version : ℕ)
      → IsCoherent file vcache
      → length name ≤ 63
      → Opened file name version
          (view_open_cached vcache name version (file version name))
          (length vcache)
  view_open_cached_lem file vcache name version coherent short =
      open_stage file vcache name version (find_cached vcache name version) (file version name) refl
        refl coherent short (find_lem file vcache name version coherent)

  no_view : {o : Option V} {v : V} → o ≡ none → o ≡ some v → ⊥
  no_view e f = cc

  drop_stage :
      (file file' : ℕ → Bytes → Option V) (slot : ViewCacheSlot V) (version : ℕ) (view : Option V)
      → slot.view ≡ view
      → Holds file slot
      → ((w : ℕ) (name : Bytes) → w ≢ version → file' w name ≡ file w name)
      → let slot' : ViewCacheSlot V = elim view [
        | none ↦ slot
        | some v ↦ if slot.version == version then free_slot else slot
      ] in
        Holds file' slot'
  drop_stage file file' slot version none e holds same = λ v f. absurd (no_view e f)
  drop_stage file file' slot version (some u) e holds same =
      elim (ℕ_discrete slot.version version) [
        | yes here ↦ rw (here, ==_refl version) (λ v f. absurd (no_view {o = none} refl f))
        | no apart ↦
            rw (==_ne slot.version version apart)
              (λ v f. same slot.version slot.rel_name apart ∙ holds v f)
      ]

  -- After the files of a version are gone, or others are there, the cache is coherent with the new
  -- files once the version is dropped from it.
  pub vcache_drop_version_lem :
      (file file' : ℕ → Bytes → Option V) (vcache : List (ViewCacheSlot V)) (version : ℕ)
      → IsCoherent file vcache
      → ((w : ℕ) (name : Bytes) → w ≢ version → file' w name ≡ file w name)
      → IsCoherent file' (vcache_drop_version vcache version)
        × (length (vcache_drop_version vcache version) ≡ length vcache)
  unfolding vcache_drop_version
  vcache_drop_version_lem file file' [] version coherent same = (tt, refl)
  vcache_drop_version_lem file file' (slot ∷ vcache) version (holds, coherent) same =
      let (kept, size) = vcache_drop_version_lem file file' vcache version coherent same in
      ((drop_stage file file' slot version slot.view refl holds same, kept), ap suc size)
