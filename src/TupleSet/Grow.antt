-- ===== src/TupleSet/Grow.antt =====
-- `ts_hash_grow`: the doubling loop ends with a power of two that is large enough, and a
-- successful call gives an index of the same rows in a larger table.
use native.Mathlib.Nat.{pow-suc, one-le-pow}
use datalog_dafsa.Base.{
  ℕ, zero, suc, ◌*◌, ◌%◌, ◌^◌, ◌≤◌, ◌<◌, ◌≡◌, refl, ap, ◌⊎◌, inl, inr, not, ◌||◌, Option, some,
  List, arith, ltb, get_or, replicate, length-replicate, get_or-replicate, Bool-cases, Ret, err,
  ret, Mem,
}
use datalog_dafsa.Probe.{double_pow, IsPow2, occupied}
use datalog_dafsa.TupleSet.{Row, TupleSet, rehash, grow_cap, ts_hash_grow}
use datalog_dafsa.TupleSet.Table.{probe_cell}
use datalog_dafsa.TupleSet.Valid.{IsDistinct, IsWithin, Indexes, rehash-IsFound}

le_scaled : (cap n : ℕ) → cap ≤ cap * 2 ^ n
le_scaled cap n = let one = one-le-pow n 2 (omega arith) in grind arith

-- With `need` within reach of the rounds left the loop ends; it never wraps.
pub grow_cap_lem :
    (fuel need cap : ℕ)
    → IsPow2 cap
    → need ≤ cap * 2 ^ fuel
    → cap * 2 ^ fuel ≤ 2 ^ 60
    → (c : ℕ) × (grow_cap (suc fuel) need cap ≡ some c) × IsPow2 c × (need ≤ c) × (cap ≤ c)
unfolding grow_cap
grow_cap_lem zero need cap pow reach small = (cap, ground arith, pow, omega arith, omega arith)
grow_cap_lem (suc fuel) need cap pow reach small = elim (Bool-cases (ltb cap need)) [
  | inr done ↦ (cap, rw done, pow, ground arith, omega arith)
  | inl more ↦
      let twice : cap * 2 * 2 ^ fuel ≡ cap * 2 ^ suc fuel =
        omega (arith, ap (λ (t : ℕ). cap * t) (pow-suc 2 fuel)) in
      let unwrapped : cap * 2 % 2 ^ 64 ≡ cap * 2 = omega (arith, le_scaled cap (suc fuel)) in
      let (c, run, p, n, l) =
        grow_cap_lem fuel need (cap * 2) (double_pow cap pow) (rw twice reach) (rw twice small) in
      (c, rw (more, unwrapped) run, p, n, omega arith)
]

-- The cells name each of the first `n` rows.
pub record Names (rows : List Row) (n : ℕ) (htab : List ℕ) : Type 0 where
  pub fill : occupied htab ≤ n
  pub within : IsWithin rows htab
  pub named : (s : ℕ) → 0 < s → s ≤ n → (j : ℕ) × (get_or htab j 0 ≡ s)

pub Indexes-Names :
    {rows : List Row} {n : ℕ} {htab : List ℕ} {hcap : ℕ}
    → Indexes rows n htab hcap
    → Names rows n htab
Indexes-Names {rows} {n} {htab} {hcap} t = record {
  fill = t.fill;
  within = t.within;
  named = λ s pos le. let (j, _, e) = probe_cell rows htab hcap _ s (t.found s pos le) in (j, e);
}

occupied-replicate : (n : ℕ) → occupied (replicate n 0) ≡ 0
occupied-replicate zero = refl
occupied-replicate (suc n) = occupied-replicate n

-- Rehashing a table that names the first `n` rows into `c` empty cells.
rehash-Indexes :
    (rows : List Row) (n : ℕ) (htab : List ℕ) (c : ℕ)
    → IsDistinct rows
    → Names rows n htab
    → IsPow2 c
    → n < c
    → (final : List ℕ) × (rehash rows htab c (replicate c 0) ≡ some final) × Indexes rows n final c
rehash-Indexes rows n htab c distinct names pow room =
    let (final, run, w, o, i, _, adds) =
      rehash-IsFound rows c htab (replicate c 0) distinct pow (length-replicate c 0)
        (omega (arith, occupied-replicate c, names.fill)) (λ j. rw get_or-replicate (omega arith))
        names.within in
    (
      final,
      run,
      record {
        pow = pow;
        width = w;
        fill = omega (arith, occupied-replicate c, names.fill);
        within = i;
        found = λ s pos le. let (j, e) = names.named s pos le in adds s j pos e;
      },
    )

-- The two results of a call whose table names the first `n` rows: it fails and changes nothing,
-- or it installs an index of them with at least `need` cells.
abbrev pub Grows : TupleSet → ℕ → ℕ → Option (TupleSet × Ret) → Type 0
Grows ts n need r =
    (r ≡ some (ts, err))
    ⊎ ((htab : List ℕ) × (c : ℕ) × (r ≡ some (record ts { htab = htab; hcap = c }, ret 0))
        × Indexes ts.rows n htab c
        × (need ≤ c)
        × (16 ≤ c)
        × (c ≤ 2 ^ 30))

pub ts_hash_grow-Grows :
    (mem : Mem) (ts : TupleSet) (n need : ℕ)
    → IsDistinct ts.rows
    → Names ts.rows n ts.htab
    → n < need
    → need ≤ 2 ^ 35
    → Grows ts n need (ts_hash_grow mem ts need)
unfolding ts_hash_grow
ts_hash_grow-Grows mem ts n need distinct names room small =
    let (c, run, pow, enough, large) =
      grow_cap_lem 31 need 16 (4, refl) (omega arith) (omega arith) in
    let (final, rehashed, indexes) =
      rehash-Indexes ts.rows n ts.htab c distinct names pow (omega arith) in
    elim (Bool-cases (ltb (2 ^ 30) c || not (mem.calloc_ok (c * 4)))) [
      | inl refused ↦ inl (rw (run, refused))
      | inr granted ↦
          inr (final, c, rw (run, granted, rehashed), indexes, enough, large, ground arith)
    ]
