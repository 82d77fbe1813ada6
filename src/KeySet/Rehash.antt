-- ===== src/KeySet/Rehash.antt =====
-- The loop that moves the keys of an open-addressing set to a wider table, in `symsetGrow` of
-- zig/src/regexwalk.zig and `u64SetGrow` of zig/src/index.zig.
use datalog_dafsa.Base.{
  ℕ, zero, suc, ◌+◌, ◌≤◌, ◌<◌, ◌≡◌, ◌≢◌, refl, sym, ◌∙◌, true, false, ◌||◌, some, List, [], ◌∷◌,
  length, set, replicate, arith, ==_ne, length-replicate, or_none,
}
use datalog_dafsa.Probe.{walk, IsPow2, occupied, occupied-set}
use datalog_dafsa.KeySet.{home_of, is_empty, rehash_keys}
use datalog_dafsa.KeySet.Cells.{
  holds, holds-set, IsTable, written-IsTable, written-Reaches, empty_total,
}

module _ (hash : ℕ → ℕ) where
  -- What moving the keys of `cells` into `fresh` came to.
  pub record IsMoved (cells : List ℕ) (cap : ℕ) (fresh final : List ℕ) : Type 0 where
    pub table : IsTable hash final cap
    pub keys : (k : ℕ) → k ≢ 0 → holds final k ≡ (holds cells k || holds fresh k)
    pub fill : occupied final ≤ occupied fresh + occupied cells

  move_step :
      (cells : List ℕ) (cap v e : ℕ) (fresh : List ℕ)
      → walk (is_empty fresh) cap cap (home_of hash cap (suc v)) ≡ some e
      → rehash_keys hash (suc v ∷ cells) cap fresh
        ≡ rehash_keys hash cells cap (set fresh e (suc v))
  unfolding rehash_keys
  move_step cells cap v e fresh walked = rw (==_ne (suc v) 0 (omega arith), walked) refl

  pub rehash_keys_lem :
      (cells : List ℕ) (cap : ℕ) (fresh : List ℕ)
      → IsTable hash fresh cap
      → 0 < cap
      → occupied fresh + occupied cells < cap
      → (final : List ℕ) × (rehash_keys hash cells cap fresh ≡ some final)
        × IsMoved cells cap fresh final
  unfolding rehash_keys holds
  rehash_keys_lem [] cap fresh table pos room =
      (fresh, refl, record { table = table; keys = λ k nz. refl; fill = omega arith })
  rehash_keys_lem (zero ∷ cells) cap fresh table pos room =
      let (final, run, moved) = rehash_keys_lem cells cap fresh table pos (omega arith) in
      (
        final,
        run,
        record {
          table = moved.table;
          keys = λ k nz. rw (==_ne 0 k (λ e. nz (sym e)), moved.keys k nz) refl;
          fill = moved.fill;
        },
      )
  rehash_keys_lem (suc v ∷ cells) cap fresh table pos room =
      let (e, walked, inside, empty) =
        empty_total hash table.pow pos fresh table.width (omega arith) (suc v) in
      let within : e < length fresh = rw table.width inside in
      let more = occupied-set fresh e (suc v) within empty in
      let next : IsTable hash (set fresh e (suc v)) cap =
        written-IsTable hash fresh cap (suc v) e table inside empty
          (written-Reaches hash fresh cap (suc v) e walked within) in
      let (final, run, moved) =
        rehash_keys_lem cells cap (set fresh e (suc v)) next pos (omega (arith, more)) in
      (
        final,
        move_step cells cap v e fresh walked ∙ run,
        record {
          table = moved.table;
          keys =
              λ k nz. ground (arith, moved.keys k nz, holds-set fresh e (suc v) k within empty nz);
          fill = omega (arith, moved.fill, more);
        },
      )

pub occupied-replicate : (n : ℕ) → occupied (replicate n 0) ≡ 0
occupied-replicate zero = refl
occupied-replicate (suc n) = occupied-replicate n

holds-replicate : (n k : ℕ) → k ≢ 0 → holds (replicate n 0) k ≡ false
unfolding holds
holds-replicate zero k nz = refl
holds-replicate (suc n) k nz = rw (==_ne 0 k (λ e. nz (sym e))) (holds-replicate n k nz)

-- The empty table.
pub fresh-IsTable : (hash : ℕ → ℕ) (cap : ℕ) → IsPow2 cap → IsTable hash (replicate cap 0) cap
fresh-IsTable hash cap pow = record {
  pow = pow;
  width = length-replicate cap 0;
  found = λ k nz held. let clash : true ≡ false = sym held ∙ holds-replicate cap k nz in cc;
}

-- The keys of a table in a wider one.
pub grown :
    (hash : ℕ → ℕ) (cells : List ℕ) (cap : ℕ)
    → IsPow2 cap
    → occupied cells < cap
    → (final : List ℕ) × (rehash_keys hash cells cap (replicate cap 0) ≡ some final)
      × IsTable hash final cap
      × ((k : ℕ) → k ≢ 0 → holds final k ≡ holds cells k)
      × (occupied final ≤ occupied cells)
grown hash cells cap pow room =
    let (final, run, moved) =
      rehash_keys_lem hash cells cap (replicate cap 0) (fresh-IsTable hash cap pow) (omega arith)
        (omega (arith, occupied-replicate cap)) in
    (
      final,
      run,
      moved.table,
      λ k nz. moved.keys k nz ∙ rw (holds-replicate cap k nz) (or_none (holds cells k)),
      omega (arith, moved.fill, occupied-replicate cap),
    )
