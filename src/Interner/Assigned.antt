-- ===== src/Interner/Assigned.antt =====
-- The cache of zig/src/intern.zig once `intern_str` gives a string its number, and the result.
use datalog_dafsa.Base.{
  ℕ, ◌+◌, ◌-◌, ◌≤◌, ◌<◌, ◌≡◌, refl, sym, ap, ◌∙◌, subst, true, not, ◌&&◌, ◌||◌, Option, none, some,
  List, ◌==◌, length, words_eq, words_eq→eq, words_eq_refl, Ret, err, ret, Mem, arith, inl, inr,
  Bool-cases, ==_iff, ==_refl, ==_ne,
}
use datalog_dafsa.TxnWal.{Bytes}
use datalog_dafsa.Relation.{Key, Dafsa, is_word, words, is_ok}
use datalog_dafsa.Relation.Laws.{IsDafsa, Adds}
use datalog_dafsa.Interner.{Interner, fill_key, grow_fwd}
use datalog_dafsa.Interner.Valid.{at, no_some, some_same, some_same, IsCache}
use datalog_dafsa.Interner.Added.{Stored, Stored-cases}

module _ {D S : Type 0} (lib : Dafsa D S) (laws : IsDafsa lib) where
  pub added :
      (ws ws' : List Key) (k : Key) (rc : Ret)
      → Adds ws k rc ws'
      → is_ok rc ≡ true
      → (w : Key) → is_word w ws' ≡ (words_eq w k || is_word w ws)
  unfolding is_ok
  added ws ws' k err adds ok w = cc
  added ws ws' k (ret n) adds ok w = adds.1 w

  -- The cache with the key of the new number.
  pub add_n-IsCache :
      (d : D) (rev rev' : List (Option Bytes)) (id : ℕ) (str : Bytes)
      → IsCache lib d rev
      → 0 < id
      → at rev (id - 1) ≡ none
      → Stored rev id str rev'
      → is_ok (lib.add_n d (fill_key str id)).0 ≡ true
      → IsCache lib (lib.add_n d (fill_key str id)).1 rev'
  add_n-IsCache d rev rev' id str c pos vacant stored ok = record {
    held = λ i s here.
        grown (fill_key s (i + 1)) ∙ elim (Stored-cases rev rev' id str stored i s here) [
          | inl (own, same) ↦
              let number : i + 1 ≡ id = omega (arith, own, pos) in
              rw (number, sym same, words_eq_refl (fill_key str id)) refl
          | inr (apart, old) ↦ rw (c.held i s old) (ground arith)
        ];
    only = λ k inside. elim (Bool-cases (words_eq k (fill_key str id))) [
      | inl same ↦ (
        id - 1,
        str,
        own_slot,
        words_eq→eq k (fill_key str id) same ∙ ap (fill_key str) (omega (arith, pos)),
      )
      | inr other ↦
          let (i, s, here, e) = c.only k (sym (rw other refl) ∙ sym (grown k) ∙ inside) in
          (
            i,
            s,
            stored i
                ∙ rw (==_ne i (id - 1) (λ own. no_some (sym vacant ∙ sym (ap (at rev) own) ∙ here)))
                    here,
            e,
          )
    ];
  }
    where
      grown :
          (w : Key)
          → is_word w (words lib (lib.add_n d (fill_key str id)).1)
            ≡ (words_eq w (fill_key str id) || is_word w (words lib d))
      grown = added (words lib d) _ (fill_key str id) _ (laws.add_law d (fill_key str id)) ok

      own_slot : at rev' (id - 1) ≡ some str
      own_slot = stored (id - 1) ∙ rw (==_refl (id - 1)) refl

  -- What `grow_fwd` leaves: the array and the number, and a cache that is current or is not there.
  abbrev pub Cached : Interner D → Interner D → Type 0
  Cached st ir' =
      (ir'.rev ≡ st.rev)
      × (ir'.next_id ≡ st.next_id)
      × (ir'.fwd_gen ≤ ir'.next_id)
      × ((d : D) → ir'.fwd ≡ some d → ir'.fwd_gen ≡ ir'.next_id → IsCache lib d ir'.rev)

  pub grow_fwd_stage :
      (first_payload : D → Bytes → Option Key) (mem : Mem) (st : Interner D) (str : Bytes) (id : ℕ)
      (fwd : Option D)
      → st.fwd ≡ fwd
      → st.fwd_gen ≤ st.next_id
      → ((d : D)
          → fwd ≡ some d
          → st.fwd_gen ≡ id
          → is_ok (lib.add_n d (fill_key str id)).0 ≡ true
          → IsCache lib (lib.add_n d (fill_key str id)).1 st.rev)
      → Cached st (grow_fwd lib first_payload mem st str id)
  unfolding grow_fwd
  grow_fwd_stage first_payload mem st str id none e past grows =
      rw e (refl, refl, past, λ d here gen. absurd (no_some here))
  grow_fwd_stage first_payload mem st str id (some d) e past grows =
      elim (Bool-cases (not st.fwd_ro && (st.fwd_gen == id))) [
        | inr stale ↦ rw (e, stale) (refl, refl, past, λ d' here gen. absurd (no_some here))
        | inl current ↦
            elim (Bool-cases
              (mem.malloc_ok (length str + 5) && is_ok (lib.add_n d (fill_key str id)).0)) [
                | inr refused ↦
                    rw (e, current, refused)
                      (refl, refl, past, λ d' here gen. absurd (no_some here))
                | inl granted ↦
                    rw (e, current, granted)
                      (
                        refl,
                        refl,
                        omega arith,
                        λ d' here gen.
                            subst (λ (x : D). IsCache lib x st.rev) (some_same here)
                              (grows d refl ((==_iff st.fwd_gen id).0 (ground (arith, current)))
                                (ground (arith, granted))),
                      )
              ]
      ]
