-- ===== src/Schema/Laws.antt =====
-- What `dl_schema_add` and `dl_schema_find` promise.
use datalog_dafsa.Base.{
  ℕ, suc, ◌≤◌, ◌<◌, ◌≡◌, ◌≢◌, refl, ap, ◌⊎◌, inl, inr, Bool, true, Option, none, some, List, [],
  ◌∷◌, ◌++◌, arith, if◌then◌else◌, ltb, leb, length, length-append, take, take_all, words_eq,
  words_eq_refl, words_eq_ne, Bool-cases, Option-cases, Ret, err, ret,
}
use datalog_dafsa.Schema.{
  ColSpec, RelDef, Schema, schema_max_rels, schema_max_arity, schema_find, schema_add,
}

-- A definition at the end is found under its name, unless an earlier one has it.
find_last :
    (rels : List RelDef) (r : RelDef)
    → schema_find rels r.name ≡ none
    → schema_find (rels ++ r ∷ []) r.name ≡ some r
unfolding schema_find
find_last [] r out = rw (words_eq_refl r.name) refl
find_last (q ∷ rels) r out = elim (Bool-cases (words_eq q.name r.name)) [
  | inl same ↦ absurd (clash q (words_eq q.name r.name) (schema_find rels r.name) same out)
  | inr apart ↦ rw apart (find_last rels r (rw apart at out))
]
  where
    clash :
        (q : RelDef) (b : Bool) (o : Option RelDef)
        → b ≡ true
        → ¬ ((if b then some q else o) ≡ none)
    clash q b o e h = ground arith

find_other :
    (rels : List RelDef) (r : RelDef) (name : List ℕ)
    → r.name ≢ name
    → schema_find (rels ++ r ∷ []) name ≡ schema_find rels name
unfolding schema_find
find_other [] r name apart = rw (words_eq_ne r.name name apart) refl
find_other (q ∷ rels) r name apart =
    ap (λ (o : Option RelDef). if words_eq q.name name then some q else o)
      (find_other rels r name apart)

-- The two results of `dl_schema_add`.
abbrev pub Adds : Schema → List ℕ → ℕ → List ColSpec → Bool → Schema × Ret → Type 0
Adds s name arity cols is_idb r =
    ((r ≡ (s, err))
      × ((arity < 1)
          ⊎ (8 < arity)
          ⊎ (64 ≤ length s.rels)
          ⊎ ((old : RelDef) × (schema_find s.rels name ≡ some old))))
    ⊎ ((s' : Schema) × (r ≡ (s', ret 0))
        × (1 ≤ arity)
        × (arity ≤ 8)
        × (length s.rels < 64)
        × (length s'.rels ≡ suc (length s.rels))
        × (schema_find s.rels name ≡ none)
        × (schema_find s'.rels name
            ≡ some (record { name = name; arity = arity; is_idb = is_idb; cols = take arity cols }))
        × ((other : List ℕ) → name ≢ other → schema_find s'.rels other ≡ schema_find s.rels other))

-- For a name of at most 63 bytes, `dl_schema_add` either returns -1 and changes nothing, and then the arity
-- is not 1 to 8, or the schema is full, or the name is taken; or it returns 0, and then the arity
-- is 1 to 8, the schema had fewer than 64 relations, and `dl_schema_find` gives the new definition for the new name, which it did not know, and for every other name
-- what it gave before.
pub schema_add-Adds :
    (s : Schema) (name : List ℕ) (arity : ℕ) (cols : List ColSpec) (is_idb : Bool)
    → length name ≤ 63
    → Adds s name arity cols is_idb (schema_add s name arity cols is_idb)
unfolding schema_add
schema_add-Adds s name arity cols is_idb short = elim (Bool-cases (ltb arity 1)) [
  | inl low ↦ inl (rw low refl, inl (ground arith))
  | inr positive ↦ elim (Bool-cases (ltb schema_max_arity arity)) [
    | inl high ↦ inl (rw (positive, high) refl, inr (inl (ground arith)))
    | inr fits ↦ elim (Bool-cases (leb schema_max_rels (length s.rels))) [
      | inl full ↦ inl (rw (positive, fits, full) refl, inr (inr (inl (ground arith))))
      | inr room ↦ elim (Option-cases (schema_find s.rels name)) [
        | inr (old, taken) ↦
            inl (rw (positive, fits, room, taken) refl, inr (inr (inr (old, taken))))
        | inl new ↦
            let r : RelDef = record {
              name = name;
              arity = arity;
              is_idb = is_idb;
              cols = take arity cols;
            } in
            inr (
              record { rels = s.rels ++ r ∷ [] },
              rw (positive, fits, room, new, take_all 63 name short) refl,
              ground (arith, positive),
              ground (arith, fits),
              ground (arith, room),
              omega (arith, length-append s.rels (r ∷ [])),
              new,
              find_last s.rels r new,
              λ other apart. find_other s.rels r other apart,
            )
      ]
    ]
  ]
]
