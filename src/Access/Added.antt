-- ===== src/Access/Added.antt =====
-- A fact that is added by name, by `dl_add_fact` in zig/src/dl.zig, as `dl_lookup` sees it.
use datalog_dafsa.Base.{
  ℕ, ◌≡◌, refl, sym, ap, ◌∙◌, Bool, true, false, ◌&&◌, ◌||◌, Option, none, some, List,
  if◌then◌else◌, ◌==◌, set, words_eq, words_eq→eq, words_eq_refl, Ret, err, ret, arith, Bool-cases,
  inl, inr, subst, ◌⊎◌, length, ==_refl,
}
use datalog_dafsa.TupleSet.{Row}
use datalog_dafsa.Relation.{Dafsa, Relation, is_word, encode_key, rel_exact, rel_overlay_add}
use datalog_dafsa.Vrelation.{RelEntry, fixed, entry_at}
use datalog_dafsa.TxnWal.{Bytes}
use datalog_dafsa.Txn.{Db, rev_name, find_rel}
use datalog_dafsa.Txn.Commit.{Outcomes}
use datalog_dafsa.Access.{
  entry_named, write_named, add_to, add_to_entry, dl_add_fact, dl_lookup, lookup_entry, Written,
  as_flag,
}
use datalog_dafsa.Access.Table.{
  or_middle, is_word-append, guard_stage, flag_stage, at_name, at_name-set,
}

module _ {D S : Type 0} (lib : Dafsa D S) where
  -- What an attempt to add the row `cols` to the relation `name` did, as a lookup of the row `c` in
  -- the relation `nm` sees it.
  abbrev pub FactAdded : Db D → Bytes → Row → ℕ → Bytes → Row → ℕ → Ret → Db D → Type 0
  FactAdded db name cols arity nm c b err db' = dl_lookup lib db' nm c b ≡ dl_lookup lib db nm c b
  FactAdded db name cols arity nm c b (ret n) db' =
      (n ≡ (if dl_lookup lib db name cols arity then 0 else 1))
      × (dl_lookup lib db' nm c b
          ≡ ((words_eq name nm && words_eq c cols) || dl_lookup lib db nm c b))

  -- What the addition to one relation did.
  abbrev RowAdded : Relation D → Row → Row → Ret → Relation D → Type 0
  RowAdded r cols c err r' = rel_exact lib r' c ≡ rel_exact lib r c
  RowAdded r cols c (ret n) r' =
      (n ≡ (if rel_exact lib r cols then 0 else 1))
      × (rel_exact lib r' c ≡ (words_eq c cols || rel_exact lib r c))

  same_row :
      (cols c : Row) (r : Relation D)
      → rel_exact lib r cols ≡ true
      → rel_exact lib r c ≡ (words_eq c cols || rel_exact lib r c)
  same_row cols c r held = elim (Bool-cases (words_eq c cols)) [
    | inr other ↦ rw other refl
    | inl same ↦
        let here : rel_exact lib r c ≡ true = rw (words_eq→eq c cols same) held in
        rw (same, here) refl
  ]

  overlay_stage :
      (room : Bool) (cols c : Row) (r : Relation D)
      → rel_exact lib r cols ≡ false
      → let (rc, r') = rel_overlay_add lib room r cols in
        (r'.arity ≡ r.arity) × RowAdded r cols c rc r'
  unfolding rel_overlay_add rel_exact
  overlay_stage room cols c r fresh =
      elim (Bool-cases (lib.lookup_n r.d (encode_key cols r.arity))) [
        | inl stored ↦ let clash : true ≡ false = sym (rw stored refl) ∙ fresh in cc
        | inr unstored ↦ elim (Bool-cases (is_word cols r.ov)) [
          | inl pending ↦ let clash : true ≡ false = sym (rw (unstored, pending) refl) ∙ fresh in cc
          | inr vacant ↦ elim (Bool-cases room) [
            | inl space ↦
                rw (unstored, vacant, space, rel_overlay_add)
                  (
                    refl,
                    (
                      rw fresh refl,
                      ap (λ (b : Bool). lib.lookup_n r.d (encode_key c r.arity) || b)
                            (is_word-append c cols r.ov)
                          ∙ or_middle (lib.lookup_n r.d (encode_key c r.arity)) (words_eq c cols)
                              (is_word c r.ov),
                    ),
                  )
            | inr full ↦ rw (unstored, vacant, full, rel_overlay_add) (refl, refl)
          ]
        ]
      ]

  add_to_lem :
      (outcomes : Outcomes) (cols c : Row) (r : Relation D)
      → let w = add_to lib outcomes cols r in
        (w.left.arity ≡ r.arity) × RowAdded r cols c w.code w.left
  unfolding add_to
  add_to_lem outcomes cols c r = elim (Bool-cases outcomes.saved) [
    | inr unsaved ↦ rw (unsaved, add_to) (refl, refl)
    | inl saved ↦ elim (Bool-cases (rel_exact lib r cols)) [
      | inl held ↦ rw (saved, held, add_to) (refl, (rw held refl, same_row cols c r held))
      | inr fresh ↦ elim (Bool-cases outcomes.add_logged) [
        | inl logged ↦
            rw (saved, fresh, logged, add_to) (overlay_stage outcomes.room cols c r fresh)
        | inr unlogged ↦ rw (saved, fresh, unlogged, add_to) (refl, refl)
      ]
    ]
  ]

  lookup_name :
      (db : Db D) (nm : Bytes) (c : Row) (b : ℕ) (found : Option (RelEntry D))
      → at_name db.rels nm ≡ found
      → dl_lookup lib db nm c b ≡ elim found [ none ↦ false | some e ↦ lookup_entry lib e c b ]
  unfolding dl_lookup entry_named
  lookup_name db nm c b found same = rw (same, dl_lookup, entry_named) refl

  -- Lookups in a database whose relation `name` is replaced by `r'`.
  replaced :
      (db : Db D) (name : Bytes) (idx a : ℕ) (r r' : Relation D) (dirty : Bool) (nm : Bytes)
      (c : Row) (b : ℕ)
      → find_rel db.rels name ≡ some idx
      → r'.arity ≡ r.arity
      → dl_lookup lib
          (record db { rels = set db.rels idx (fixed name a r'); fixpoint_dirty = dirty })
          nm
          c
          b
        ≡ (if words_eq name nm
            then (b == r.arity) && rel_exact lib r' c
            else dl_lookup lib db nm c b)
  unfolding lookup_entry
  replaced db name idx a r r' dirty nm c b found same =
      let rels : List (RelEntry D) = set db.rels idx (fixed name a r') in
      let db' : Db D = record db { rels = rels; fixpoint_dirty = dirty } in
      let at = at_name-set db.rels name nm idx (fixed name a r') found refl in
      elim (Bool-cases (words_eq name nm)) [
        | inl here ↦ rw here (
            lookup_name db' nm c b (some (fixed name a r')) (at ∙ rw here refl)
            ∙ ap (λ (n : ℕ). (b == n) && rel_exact lib r' c) same)
        | inr other ↦ rw other (
            lookup_name db' nm c b (at_name db.rels nm) (at ∙ rw other refl)
            ∙ sym (lookup_name db nm c b (at_name db.rels nm) refl))
      ]

  held_name :
      (db : Db D) (name : Bytes) (idx a : ℕ) (r : Relation D) (nm : Bytes) (c : Row) (b : ℕ)
      → find_rel db.rels name ≡ some idx
      → entry_at db.rels idx ≡ some (fixed name a r)
      → words_eq name nm ≡ true
      → dl_lookup lib db nm c b ≡ ((b == r.arity) && rel_exact lib r c)
  unfolding lookup_entry
  held_name db name idx a r nm c b found entry here =
      lookup_name db nm c b (some (fixed name a r))
        (rw (sym (words_eq→eq name nm here), found) entry)

  added_test : (w e s x : Bool) → ((s ≡ true) → e ≡ true) → (e && (s || x)) ≡ (s || (e && x))
  added_test w true s x h = refl
  added_test w false true x h = let clash : false ≡ true = h refl in cc
  added_test w false false x h = refl

  kept_stage :
      (db : Db D) (name : Bytes) (idx a : ℕ) (r : Relation D) (nm : Bytes) (c : Row) (b : ℕ)
      (r' : Relation D) (dirty : Bool)
      → find_rel db.rels name ≡ some idx
      → entry_at db.rels idx ≡ some (fixed name a r)
      → r'.arity ≡ r.arity
      → rel_exact lib r' c ≡ rel_exact lib r c
      → dl_lookup lib
          (record db { rels = set db.rels idx (fixed name a r'); fixpoint_dirty = dirty })
          nm
          c
          b
        ≡ dl_lookup lib db nm c b
  kept_stage db name idx a r nm c b r' dirty found entry same kept =
      replaced db name idx a r r' dirty nm c b found same ∙ elim (Bool-cases (words_eq name nm)) [
        | inl here ↦ rw (here, kept) (sym (held_name db name idx a r nm c b found entry here))
        | inr other ↦ rw other refl
      ]

  -- The relation after the addition stands in the place of the relation before.
  added_stage :
      (db : Db D) (name : Bytes) (cols : Row) (arity idx a : ℕ) (r : Relation D) (nm : Bytes)
      (c : Row) (b : ℕ) (rc : Ret) (r' : Relation D) (dirty : Bool)
      → find_rel db.rels name ≡ some idx
      → entry_at db.rels idx ≡ some (fixed name a r)
      → length cols ≡ arity
      → length c ≡ b
      → arity ≡ r.arity
      → r'.arity ≡ r.arity
      → RowAdded r cols c rc r'
      → FactAdded db name cols arity nm c b
          (as_flag rc)
          (record db { rels = set db.rels idx (fixed name a r'); fixpoint_dirty = dirty })
  added_stage db name cols arity idx a r nm c b err r' dirty found entry wide wide' fits same kept =
      kept_stage db name idx a r nm c b r' dirty found entry same kept
  added_stage db name cols arity idx a r nm c b (ret n) r' dirty found entry wide wide' fits same
        (count, grown) =
      let seen : dl_lookup lib db name cols arity ≡ rel_exact lib r cols =
        held_name db name idx a r name cols arity found entry (words_eq_refl name)
        ∙ rw (fits, ==_refl r.arity) refl in
      let within : (words_eq c cols ≡ true) → (b == r.arity) ≡ true =
        λ e. rw (sym wide' ∙ ap length (words_eq→eq c cols e) ∙ wide ∙ fits) (==_refl r.arity) in
      (
        rw (seen, count) (flag_stage (rel_exact lib r cols)),
        replaced db name idx a r r' dirty nm c b found same ∙ elim (Bool-cases (words_eq name nm)) [
          | inl here ↦
              rw (here, grown, held_name db name idx a r nm c b found entry here)
                (added_test true (b == r.arity) (words_eq c cols) (rel_exact lib r c) within)
          | inr other ↦ rw other refl
        ],
      )

  -- The guards of a write by name.
  abbrev rewritten : Db D → ℕ → Written (RelEntry D) → Ret × Db D
  rewritten db idx w = (
    w.code,
    record db { rels = set db.rels idx w.left; fixpoint_dirty = w.reached || db.fixpoint_dirty },
  )

  guarded :
      (write : RelEntry D → Written (RelEntry D)) (db : Db D) (name : Bytes) (idx : ℕ)
      (e : RelEntry D)
      → find_rel db.rels name ≡ some idx
      → entry_at db.rels idx ≡ some e
      → (write_named write db name ≡ (err, db))
        ⊎ (write_named write db name ≡ rewritten db idx (write e))
  unfolding write_named
  guarded write db name idx e found entry =
      let goes : Ret × Db D = elim (find_rel db.rels name) [
        | none ↦ (err, db)
        | some i ↦ elim (entry_at db.rels i) [
          | none ↦ (err, db)
          | some e ↦ rewritten db i (write e)
        ]
      ] in
      let reaches : goes ≡ rewritten db idx (write e) = rw found (rw entry refl) in
      elim (guard_stage db.read_only db.txn (words_eq name rev_name) (err, db) goes) [
        | inl refused ↦ inl refused
        | inr passed ↦ inr (passed ∙ reaches)
      ]

  -- The write to the entry, where it has the arity and the kinds admit the row.
  entry_stage :
      (outcomes : Outcomes) (kinds_pass : Bool) (opened : Option (Relation D)) (db : Db D)
      (name : Bytes) (cols : Row) (arity idx a : ℕ) (r : Relation D) (nm : Bytes) (c : Row) (b : ℕ)
      → find_rel db.rels name ≡ some idx
      → entry_at db.rels idx ≡ some (fixed name a r)
      → length cols ≡ arity
      → length c ≡ b
      → let p =
          rewritten db idx
            (add_to_entry lib outcomes kinds_pass opened cols arity (fixed name a r)) in
        FactAdded db name cols arity nm c b p.0 p.1
  unfolding add_to_entry
  entry_stage outcomes kinds_pass opened db name cols arity idx a r nm c b found entry wide wide' =
      elim (Bool-cases ((arity == r.arity) && kinds_pass)) [
        | inl admitted ↦
            let w = add_to lib outcomes cols r in
            let (same, added) = add_to_lem outcomes cols c r in
            let fits : arity ≡ r.arity = ground (arith, admitted) in
            rw (admitted, add_to_entry)
              (added_stage db name cols arity idx a r nm c b w.code w.left
                (w.reached || db.fixpoint_dirty) found entry wide wide' fits same added)
        | inr refused ↦
            rw (refused, add_to_entry)
              (kept_stage db name idx a r nm c b r db.fixpoint_dirty found entry refl refl)
      ]

  -- The relation table holds a relation of fixed arity as the first with its name, and the added row
  -- and the row that is looked up have the given numbers of columns. Then `dl_add_fact` fails and no
  -- lookup of any relation changes; or it returns 1 for a row that a lookup did not find and 0 for one
  -- that it found, the row is found in the relation afterwards, and every other lookup is as before.
  pub dl_add_fact_lem :
      (outcomes : Outcomes) (kinds_pass : Bool) (opened : Option (Relation D)) (db : Db D)
      (name : Bytes) (cols : Row) (arity idx a : ℕ) (r : Relation D) (nm : Bytes) (c : Row) (b : ℕ)
      → find_rel db.rels name ≡ some idx
      → entry_at db.rels idx ≡ some (fixed name a r)
      → length cols ≡ arity
      → length c ≡ b
      → let (rc, db') = dl_add_fact lib outcomes kinds_pass opened db name cols arity in
        FactAdded db name cols arity nm c b rc db'
  unfolding dl_add_fact
  dl_add_fact_lem outcomes kinds_pass opened db name cols arity idx a r nm c b found entry is_cols
        is_c =
      elim (guarded (add_to_entry lib outcomes kinds_pass opened cols arity) db name idx
        (fixed name a r) found entry) [
          | inl refused ↦
              subst (λ (p : Ret × Db D). FactAdded db name cols arity nm c b p.0 p.1) (sym refused)
                refl
          | inr done ↦
              subst (λ (p : Ret × Db D). FactAdded db name cols arity nm c b p.0 p.1) (sym done)
                (entry_stage outcomes kinds_pass opened db name cols arity idx a r nm c b found
                  entry is_cols is_c)
        ]
