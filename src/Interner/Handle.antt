-- ===== src/Interner/Handle.antt =====
-- The interner behind a database handle, zig/src/dl.zig and src/dl.h: the live one, and the one of a
-- published version, which `snapshot_interner` gives. A handle without an interner has `none`.
use datalog_dafsa.Base.{
  ℕ, ◌+◌, ◌≡◌, refl, sym, ◌∙◌, Bool, false, ◌||◌, Option, none, some, if◌then◌else◌, ◌==◌, Mem,
  arith, inl, inr, Bool-cases,
}
use datalog_dafsa.TupleSet.{◌>>=◌}
use datalog_dafsa.TxnWal.{Bytes}
use datalog_dafsa.Relation.{Key, Dafsa}
use datalog_dafsa.Relation.Laws.{IsDafsa}
use datalog_dafsa.Interner.{Interner, intern_str, intern_str_find, intern_str_of}
use datalog_dafsa.Interner.Keyed.{IsString}
use datalog_dafsa.Interner.Valid.{IsValid, IsPrefixEnum, no_some, some_same}
use datalog_dafsa.Interner.RoundTrip.{intern_str_find-intern_str_of}

module _ {D S : Type 0} (lib : Dafsa D S) (first_payload : D → Bytes → Option Key) where
  unfoldable pub dl_intern_str : Mem → Bool → Option (Interner D) → Bytes → ℕ × Option (Interner D)
  dl_intern_str mem read_only none str = (0, none)
  dl_intern_str mem read_only (some ir) str =
      let (id, ir') = intern_str lib first_payload mem ir str in
      if read_only then (0, some ir) else (id, some ir')

  unfoldable pub dl_intern_str_find : Option (Interner D) → Bytes → ℕ
  dl_intern_str_find none str = 0
  dl_intern_str_find (some ir) str = intern_str_find lib first_payload ir str

  -- The number, or `none` for -1.
  unfoldable pub dl_intern_str_version : (ℕ → Option (Interner D)) → ℕ → Bytes → Option ℕ
  dl_intern_str_version snapshot_interner version str =
      if version == 0
      then none
      else (snapshot_interner version >>= λ ir. some (intern_str_find lib first_payload ir str))

module _ {D : Type 0} where
  unfoldable pub dl_intern_str_of : Option (Interner D) → ℕ → Option Bytes
  dl_intern_str_of none sym_id = none
  dl_intern_str_of (some ir) sym_id = intern_str_of ir sym_id

  unfoldable pub dl_intern_str_of_version : (ℕ → Option (Interner D)) → ℕ → ℕ → Option Bytes
  dl_intern_str_of_version snapshot_interner version sym_id =
      if (version == 0) || (sym_id == 0)
      then none
      else (snapshot_interner version >>= λ ir. intern_str_of ir sym_id)

module _ {D S : Type 0} (lib : Dafsa D S) (laws : IsDafsa lib)
    (first_payload : D → Bytes → Option Key) (enums : IsPrefixEnum lib first_payload) where
  answered :
      (found : Option (Interner D)) (str : Bytes) (j : ℕ)
      → ((ir : Interner D) → found ≡ some ir → IsValid lib ir)
      → IsString str
      → (found >>= λ ir. some (intern_str_find lib first_payload ir str)) ≡ some (j + 1)
      → (found >>= λ ir. intern_str_of ir (j + 1)) ≡ some str
  answered none str j valid is_str e = absurd (no_some e)
  answered (some ir) str j valid is_str e =
      (intern_str_find-intern_str_of lib laws first_payload enums ir str j (valid ir refl) is_str).0
        (some_same e)

  -- A number that dl_intern_str_version finds in a version stands for the string there.
  pub dl_intern_str_version-dl_intern_str_of_version :
      (snapshot_interner : ℕ → Option (Interner D)) (version j : ℕ) (str : Bytes)
      → ((ir : Interner D) → snapshot_interner version ≡ some ir → IsValid lib ir)
      → IsString str
      → dl_intern_str_version lib first_payload snapshot_interner version str ≡ some (j + 1)
      → dl_intern_str_of_version snapshot_interner version (j + 1) ≡ some str
  unfolding dl_intern_str_version dl_intern_str_of_version
  dl_intern_str_version-dl_intern_str_of_version snapshot_interner version j str valid is_str e =
      elim (Bool-cases (version == 0)) [
        | inl live ↦ absurd (no_some (sym (rw live refl) ∙ e))
        | inr past ↦
            let guard : ((version == 0) || (j + 1 == 0)) ≡ false = ground (arith, past) in
            rw guard
              (answered (snapshot_interner version) str j valid is_str (sym (rw past refl) ∙ e))
      ]
