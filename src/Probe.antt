-- ===== src/Probe.antt =====
-- The linear probing loop of the two open-addressing tables, in zig/src/tupleset.zig and
-- zig/src/termstore.zig. Both run `while (not at a stopping cell) idx = (idx + 1) & (cap - 1)`
-- from `hash & (cap - 1)`; they differ in the cells that stop them.
use native.Mathlib.Nat.{mod-add-mod, pow-suc}
use datalog_dafsa.Base.{
  ap, ℕ, zero, suc, ◌+◌, ◌-◌, ◌*◌, ◌%◌, ◌^◌, ◌≤◌, ◌<◌, bit_and, ◌≡◌, refl, Bool, true, false,
  Option, none, some, ◌⊎◌, inl, inr, arith, if◌then◌else◌, Bool-cases, List, [], ◌∷◌, length,
  get_or, set, bit_and_pow_mask,
}

-- `(idx +% 1) & (cap - 1)`.
unfoldable pub next_slot : ℕ → ℕ → ℕ
next_slot width i = bit_and (i + 1) (width - 1)

-- `none` means that the fuel ran out: the loop of the source has no bound of its own.
unfoldable pub walk : (ℕ → Bool) → ℕ → ℕ → ℕ → Option ℕ
walk stop width zero i = none
walk stop width (suc fuel) i =
    let rest = walk stop width fuel (next_slot width i) in if stop i then some i else rest

-- The capacities of both tables are powers of two.
abbrev pub IsPow2 : ℕ → Type 0
IsPow2 width = (k : ℕ) × (width ≡ 2 ^ k)

pub double_pow : (cap : ℕ) → IsPow2 cap → IsPow2 (cap * 2)
double_pow cap (k, e) = (suc k, omega (arith, pow-suc 2 k))

pub next_slot_mod : (width i : ℕ) → IsPow2 width → next_slot width i ≡ (i + 1) % width
unfolding next_slot
next_slot_mod width i (k, e) = rw e (bit_and_pow_mask k (i + 1))

pub walk_stops :
    (stop : ℕ → Bool) (width fuel i r : ℕ) → walk stop width fuel i ≡ some r → stop r ≡ true
unfolding walk
walk_stops stop width zero i r e = cc
walk_stops stop width (suc fuel) i r e =
    ground (arith, walk_stops stop width fuel (next_slot width i) r)

step_mod :
    (width i d e : ℕ) {j : ℕ} → j ≡ (i + 1) % width → (i + suc d) % width ≡ e → (j + d) % width ≡ e
step_mod width i d e eq there =
    rw (eq, mod-add-mod) (omega (arith, there, ap (λ (t : ℕ). t % width) (shift i d)))
  where
    shift : (a b : ℕ) → a + 1 + b ≡ a + suc b
    shift a b = omega arith

wrap_mod : {width : ℕ} (i e : ℕ) → i < width → e < width → (i + (e + width - i) % width) % width ≡ e
wrap_mod i e hi he = grind arith

module _ {width : ℕ} (pow : IsPow2 width) (pos : 0 < width) where
  pub walk-lt :
      (stop : ℕ → Bool) (fuel i r : ℕ) → i < width → walk stop width fuel i ≡ some r → r < width
  unfolding walk
  walk-lt stop zero i r h e = cc
  walk-lt stop (suc fuel) i r h e =
      ground (arith, walk-lt stop fuel (next_slot width i) r, next_slot_mod width i pow)

  -- From `d` steps before a stopping cell, `d + 1` rounds find one.
  walk_reaches :
      (stop : ℕ → Bool) (fuel d i e : ℕ)
      → d < fuel
      → i < width
      → (i + d) % width ≡ e
      → stop e ≡ true
      → (r : ℕ) × (walk stop width fuel i ≡ some r)
  unfolding walk
  walk_reaches stop zero d i e h hi there hit = absurd (omega arith)
  walk_reaches stop (suc fuel) zero i e h hi there hit =
      let here : i ≡ e = grind arith in (i, rw (here, hit))
  walk_reaches stop (suc fuel) (suc d) i e h hi there hit = elim (Bool-cases (stop i)) [
    | inl now ↦ (i, rw now)
    | inr later ↦
        let eq = next_slot_mod width i pow in
        rw later (
          walk_reaches stop fuel d (next_slot width i) e (omega arith) (omega arith)
            (step_mod _ i d e eq there) hit)
  ]

  -- A full round visits every cell, so one stopping cell is enough.
  pub walk_total :
      (stop : ℕ → Bool) (i e : ℕ)
      → i < width
      → e < width
      → stop e ≡ true
      → (r : ℕ) × (walk stop width width i ≡ some r)
  walk_total stop i e hi he hit =
      walk_reaches stop width ((e + width - i) % width) i e (omega arith) hi (wrap_mod i e hi he)
        hit

-- A walk that stops less often stops at the same cell, if that cell still stops it.
pub walk_sub :
    (stop stop' : ℕ → Bool) (width fuel i r : ℕ)
    → ((j : ℕ) → stop' j ≡ true → stop j ≡ true)
    → stop' r ≡ true
    → walk stop width fuel i ≡ some r
    → walk stop' width fuel i ≡ some r
unfolding walk
walk_sub stop stop' width zero i r sub hit e = cc
walk_sub stop stop' width (suc fuel) i r sub hit e =
    ground (arith, sub i, walk_sub stop stop' width fuel (next_slot width i) r sub)

-- A walk that also stops at the cell where the other one ended stops there, or before it at a
-- cell that the other one passed.
pub walk_before :
    (stop stop' : ℕ → Bool) (width fuel i e : ℕ)
    → walk stop width fuel i ≡ some e
    → stop' e ≡ true
    → (r : ℕ) × (walk stop' width fuel i ≡ some r) × ((r ≡ e) ⊎ (stop r ≡ false))
unfolding walk
walk_before stop stop' width zero i e h hit = cc
walk_before stop stop' width (suc fuel) i e h hit = elim (Bool-cases (stop' i)) [
  | inl now ↦ (i, rw now, ground arith)
  | inr later ↦
      let r = walk_before stop stop' width fuel (next_slot width i) e (ground arith) hit in
      rw later r
]

-- The cells in use.
abbrev pub occupied : List ℕ → ℕ
occupied [] = 0
occupied (zero ∷ cells) = occupied cells
occupied (suc s ∷ cells) = suc (occupied cells)

pub occupied-set :
    (cells : List ℕ) (i v : ℕ)
    → i < length cells
    → get_or cells i 0 ≡ 0
    → occupied (set cells i v) ≤ occupied cells + 1
occupied-set [] i v h e = absurd (omega arith)
occupied-set (zero ∷ cells) zero zero h e = omega arith
occupied-set (zero ∷ cells) zero (suc v) h e = omega arith
occupied-set (suc s ∷ cells) zero v h e = absurd (omega arith)
occupied-set (zero ∷ cells) (suc i) v h e = occupied-set cells i v (omega arith) e
occupied-set (suc s ∷ cells) (suc i) v h e = omega (arith, occupied-set cells i v (omega arith) e)

-- A table that is not full has an empty cell.
pub empty_cell :
    (cells : List ℕ)
    → occupied cells < length cells
    → (i : ℕ) × (i < length cells) × (get_or cells i 0 ≡ 0)
empty_cell [] h = absurd (omega arith)
empty_cell (zero ∷ cells) h = (0, omega arith, refl)
empty_cell (suc s ∷ cells) h =
    let (i, inside, empty) = empty_cell cells (ground arith) in (suc i, omega arith, empty)
