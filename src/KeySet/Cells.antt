-- ===== src/KeySet/Cells.antt =====
-- What the probing loops of an open-addressing set of keys find, for `sym_set` and `U64Set` of
-- zig/src/regexwalk.zig and zig/src/index.zig.
use native.Mathlib.Decide.{ℕ_discrete}
use datalog_dafsa.Base.{
  ℕ, zero, suc, ◌+◌, ◌-◌, ◌%◌, ◌≤◌, ◌<◌, ◌≡◌, ◌≢◌, refl, sym, ap, ◌∙◌, Bool, true, false, ◌||◌,
  some, List, [], ◌∷◌, if◌then◌else◌, ◌==◌, length, get_or, set, bit_and, bit_and_pow_mask, arith,
  get_or-set_self, get_or-set_ne, inl, inr, ==_iff, ==_refl, ==_ne, Bool-cases, not, length-set,
}
use datalog_dafsa.Probe.{
  walk, IsPow2, walk_stops, walk-lt, walk_total, walk_sub, walk_before, occupied, occupied-set,
  empty_cell,
}
use datalog_dafsa.KeySet.{home_of, stops, is_empty, probe_key, has_key, add_key}

-- The keys of a table.
unfoldable pub holds : List ℕ → ℕ → Bool
holds [] k = false
holds (c ∷ cells) k = (c == k) || holds cells k

pub home_of-lt : (hash : ℕ → ℕ) (cap k : ℕ) → IsPow2 cap → 0 < cap → home_of hash cap k < cap
home_of-lt hash cap k (w, e) pos =
    let masked : bit_and (hash k) (cap - 1) ≡ hash k % cap = rw e (bit_and_pow_mask w (hash k)) in
    rw masked (omega arith)

-- A key that is held stands in a cell.
pub holds_cell :
    (cells : List ℕ) (k : ℕ)
    → holds cells k ≡ true
    → (j : ℕ) × (j < length cells) × (get_or cells j 0 ≡ k)
unfolding holds
holds_cell [] k h = cc
holds_cell (c ∷ cells) k h = elim (Bool-cases (c == k)) [
  | inl here ↦ (0, omega arith, (==_iff c k).0 here)
  | inr later ↦ let (j, inside, at) = holds_cell cells k (rw later at h) in (suc j, omega arith, at)
]

pub cell_holds : (cells : List ℕ) (j k : ℕ) → k ≢ 0 → get_or cells j 0 ≡ k → holds cells k ≡ true
unfolding holds
cell_holds [] j k nz h = absurd (nz (sym h))
cell_holds (c ∷ cells) zero k nz h = rw (h, ==_refl k) refl
cell_holds (c ∷ cells) (suc j) k nz h = ground (arith, cell_holds cells j k nz h)

-- A key that is written to an empty cell.
pub holds-set :
    (cells : List ℕ) (j x k : ℕ)
    → j < length cells
    → get_or cells j 0 ≡ 0
    → k ≢ 0
    → holds (set cells j x) k ≡ ((k == x) || holds cells k)
unfolding holds
holds-set [] j x k inside empty nz = absurd (omega arith)
holds-set (c ∷ cells) zero x k inside empty nz = ground arith
holds-set (c ∷ cells) (suc j) x k inside empty nz =
    ground (arith, holds-set cells j x k (omega arith) empty nz)

module _ (hash : ℕ → ℕ) where
  -- The search for `k` stops at a cell that holds it.
  abbrev pub Reaches : List ℕ → ℕ → ℕ → Type 0
  Reaches cells cap k = (j : ℕ) × (probe_key hash cells cap k ≡ some j) × (get_or cells j 0 ≡ k)

  -- A table whose keys are all found.
  pub record IsTable (cells : List ℕ) (cap : ℕ) : Type 0 where
    pub pow : IsPow2 cap
    pub width : length cells ≡ cap
    pub found : (k : ℕ) → k ≢ 0 → holds cells k ≡ true → Reaches cells cap k

  module _ {cap : ℕ} (pow : IsPow2 cap) (pos : 0 < cap) (cells : List ℕ)
      (width : length cells ≡ cap) (room : occupied cells < cap) where
    pub probe_total :
        (k : ℕ)
        → (j : ℕ) × (probe_key hash cells cap k ≡ some j) × (j < cap) × (stops cells k j ≡ true)
    unfolding probe_key
    probe_total k =
        let start = home_of-lt hash cap k pow pos in
        let (e, inside, empty) = empty_cell cells (rw width room) in
        let (j, found) =
          walk_total pow pos (stops cells k) (home_of hash cap k) e start (omega arith)
            (rw empty refl) in
        (
          j,
          found,
          walk-lt pow pos (stops cells k) cap (home_of hash cap k) j start found,
          walk_stops (stops cells k) cap cap (home_of hash cap k) j found,
        )

    pub empty_total :
        (k : ℕ)
        → (e : ℕ) × (walk (is_empty cells) cap cap (home_of hash cap k) ≡ some e)
          × (e < cap)
          × (get_or cells e 0 ≡ 0)
    empty_total k =
        let start = home_of-lt hash cap k pow pos in
        let (i, inside, empty) = empty_cell cells (rw width room) in
        let (e, found) =
          walk_total pow pos (is_empty cells) (home_of hash cap k) i start (omega arith)
            (rw empty refl) in
        (
          e,
          found,
          walk-lt pow pos (is_empty cells) cap (home_of hash cap k) e start found,
          (==_iff _ 0).0 (walk_stops (is_empty cells) cap cap (home_of hash cap k) e found),
        )

  -- A write to an empty cell adds no stopping cell for another key.
  stops-set :
      (cells : List ℕ) (k e v : ℕ)
      → get_or cells e 0 ≡ 0
      → (j : ℕ) → stops (set cells e v) k j ≡ true
      → stops cells k j ≡ true
  stops-set cells k e v empty j h = elim (ℕ_discrete e j) [
    | yes same ↦ rw (← same, empty) refl
    | no apart ↦ rw (get_or-set_ne cells e j v 0 apart) at h
  ]

  pub Reaches-set :
      (cells : List ℕ) (cap k e v : ℕ)
      → get_or cells e 0 ≡ 0
      → k ≢ 0
      → Reaches cells cap k
      → Reaches (set cells e v) cap k
  unfolding probe_key
  Reaches-set cells cap k e v empty nz (j, found, at) =
      let apart : e ≢ j =
        λ same. nz (sym at ∙ ap (λ (t : ℕ). get_or cells t 0) (sym same) ∙ empty) in
      let kept = get_or-set_ne cells e j v 0 apart in
      (
        j,
        walk_sub (stops cells k) (stops (set cells e v) k) cap cap (home_of hash cap k) j
            (stops-set cells k e v empty) (rw (kept, at) (ground arith)) found,
        kept ∙ at,
      )

  -- A key that is written where a search for empty cells ended.
  pub written-Reaches :
      (cells : List ℕ) (cap k e : ℕ)
      → walk (is_empty cells) cap cap (home_of hash cap k) ≡ some e
      → e < length cells
      → Reaches (set cells e k) cap k
  unfolding probe_key
  written-Reaches cells cap k e walked inside =
      let written = get_or-set_self cells e k 0 inside in
      let (j, found, place) =
        walk_before (is_empty cells) (stops (set cells e k) k) cap cap (home_of hash cap k) e walked
          (rw (written, ==_refl k) (ground arith)) in
      (
        j,
        found,
        elim place [
          | inl same ↦ rw (same, written) refl
          | inr full ↦ elim (ℕ_discrete e j) [
            | yes same ↦ rw (← same, written) refl
            | no apart ↦
                let kept = get_or-set_ne cells e j k 0 apart in
                let stop =
                  walk_stops (stops (set cells e k) k) cap cap (home_of hash cap k) j found in
                rw kept (ground (arith, full, rw kept at stop))
          ]
        ],
      )

  -- A table with an empty cell tells which keys it holds.
  pub has_key_lem :
      (cells : List ℕ) (cap k : ℕ)
      → IsTable cells cap
      → 0 < cap
      → occupied cells < cap
      → k ≢ 0
      → has_key hash cells cap k ≡ some (holds cells k)
  unfolding has_key
  has_key_lem cells cap k table pos room nz = elim (Bool-cases (holds cells k)) [
    | inl held ↦
        let (j, found, at) = table.found k nz held in rw (found, held, at) (ap some (==_refl k))
    | inr missing ↦
        let (j, found, inside, stop) = probe_total table.pow pos cells table.width room k in
        rw (found, missing) (ap some (==_ne _ k (λ at. absent cells k missing j nz at)))
  ]
    where
      absent :
          (cells : List ℕ) (k : ℕ) → holds cells k ≡ false → (j : ℕ) → k ≢ 0 → get_or cells j 0 ≢ k
      absent cells k missing j nz at =
          let clash : true ≡ false = sym (cell_holds cells j k nz at) ∙ missing in cc

  -- What an addition did to the keys.
  pub record IsAdded (cells : List ℕ) (cap k : ℕ) (fresh : Bool) (cells' : List ℕ) : Type 0 where
    pub is_new : fresh ≡ not (holds cells k)
    pub table : IsTable cells' cap
    pub keys : (x : ℕ) → x ≢ 0 → holds cells' x ≡ ((x == k) || holds cells x)
    pub fill : occupied cells' ≤ occupied cells + (if fresh then 1 else 0)

  pub found_key :
      (cells : List ℕ) (k x : ℕ)
      → holds cells k ≡ true
      → holds cells x ≡ ((x == k) || holds cells x)
  found_key cells k x held = elim (Bool-cases (x == k)) [
    | inl same ↦ rw (same, (==_iff x k).0 same, held) refl
    | inr other ↦ rw other refl
  ]

  -- The table after a key is written to an empty cell.
  pub written-IsTable :
      (cells : List ℕ) (cap k j : ℕ)
      → IsTable cells cap
      → j < cap
      → get_or cells j 0 ≡ 0
      → Reaches (set cells j k) cap k
      → IsTable (set cells j k) cap
  written-IsTable cells cap k j table inside empty new = record {
    pow = table.pow;
    width = length-set cells j k ∙ table.width;
    found = λ x nz held. elim (ℕ_discrete x k) [
      | yes same ↦ rw same new
      | no other ↦
          let before : holds cells x ≡ true =
            sym (
              rw (holds-set cells j k x (rw (sym table.width) at inside) empty nz, ==_ne x k other)
                refl)
            ∙ held in
          Reaches-set cells cap x j k empty nz (table.found x nz before)
    ];
  }

  -- A search for a key that ended at an empty cell finds the key once it is written there.
  written_stage :
      (cells : List ℕ) (cap k j : ℕ)
      → probe_key hash cells cap k ≡ some j
      → j < length cells
      → get_or cells j 0 ≡ 0
      → Reaches (set cells j k) cap k
  unfolding probe_key
  written_stage cells cap k j found within empty =
      let written = get_or-set_self cells j k 0 within in
      (
        j,
        walk_sub (stops cells k) (stops (set cells j k) k) cap cap (home_of hash cap k) j
            (stops-set cells k j k empty) (rw (written, ==_refl k) (ground arith)) found,
        written,
      )

  pub add_key_lem :
      (cells : List ℕ) (cap k : ℕ)
      → IsTable cells cap
      → 0 < cap
      → occupied cells < cap
      → k ≢ 0
      → (fresh : Bool) × (cells' : List ℕ) × (add_key hash cells cap k ≡ some (fresh, cells'))
        × IsAdded cells cap k fresh cells'
  unfolding add_key
  add_key_lem cells cap k table pos room nz = elim (Bool-cases (holds cells k)) [
    | inl held ↦
        let (j, found, at) = table.found k nz held in
        (
          false,
          cells,
          rw (found, at, ==_refl k) refl,
          record {
            is_new = rw held refl;
            table = table;
            keys = λ x _. found_key cells k x held;
            fill = omega arith;
          },
        )
    | inr missing ↦
        let (j, found, inside, stop) = probe_total table.pow pos cells table.width room k in
        let other : get_or cells j 0 ≢ k =
          λ at. let clash : true ≡ false = sym (cell_holds cells j k nz at) ∙ missing in cc in
        let empty : get_or cells j 0 ≡ 0 = ground (arith, stop, other) in
        let within : j < length cells = rw table.width inside in
        (
          true,
          set cells j k,
          rw (found, ==_ne _ k other) refl,
          record {
            is_new = rw missing refl;
            table =
                written-IsTable cells cap k j table inside empty
                  (written_stage cells cap k j found within empty);
            keys = λ x x_nz. holds-set cells j k x within empty x_nz;
            fill = occupied-set cells j k within empty;
          },
        )
  ]
