-- ===== src/Permindex/Maps.antt =====
-- The maps of rows to and from a permuted order in zig/src/dl.zig.
use datalog_dafsa.Base.{
  ℕ, zero, suc, ◌<◌, ◌≡◌, ◌≢◌, refl, ◌∙◌, true, false, List, [], ◌∷◌, length, get_or, set,
  length-set, get_or-set_self, get_or-set_ne, arith,
}
use datalog_dafsa.TupleSet.{Row}
use datalog_dafsa.Permindex.{is_seen, check_perm, forward, inverse}

-- A column that was seen is not among the rest of a checked permutation: later writes pass it over.
kept :
    (arity left : ℕ) (perm seen : List ℕ) (pcols out : Row) (c d : ℕ)
    → check_perm arity left perm seen ≡ true
    → is_seen c seen ≡ true
    → get_or (inverse left perm pcols out) c d ≡ get_or out c d
unfolding check_perm is_seen inverse
kept arity zero perm seen pcols out c d ok old = refl
kept arity (suc left) [] seen pcols out c d ok old = refl
kept arity (suc left) (p ∷ perm) seen [] out c d ok old = refl
kept arity (suc left) (p ∷ perm) seen (v ∷ pcols) out c d ok old =
    let rest : check_perm arity left perm (p ∷ seen) ≡ true = ground arith in
    let fresh : is_seen p seen ≡ false = ground arith in
    let other : p ≢ c = λ e. cc (fresh, old, e) in
    kept arity left perm (p ∷ seen) pcols (set out p v) c d rest (ground arith)
    ∙ get_or-set_ne out p c v d other

-- The forward map undoes the inverse map: for a checked permutation and rows of its arity.
pub forward-inverse :
    (arity left : ℕ) (perm seen : List ℕ) (pcols out : Row)
    → check_perm arity left perm seen ≡ true
    → length pcols ≡ left
    → length out ≡ arity
    → forward left perm (inverse left perm pcols out) ≡ pcols
unfolding check_perm forward inverse is_seen
forward-inverse arity zero perm seen [] out ok len wide = refl
forward-inverse arity zero perm seen (v ∷ pcols) out ok len wide = absurd (omega arith)
forward-inverse arity (suc left) [] seen pcols out ok len wide = cc
forward-inverse arity (suc left) (p ∷ perm) seen [] out ok len wide = absurd (omega arith)
forward-inverse arity (suc left) (p ∷ perm) seen (v ∷ pcols) out ok len wide =
    let rest : check_perm arity left perm (p ∷ seen) ≡ true = ground arith in
    let small : p < arity = ground arith in
    let head : get_or (inverse left perm pcols (set out p v)) p 0 ≡ v =
      kept arity left perm (p ∷ seen) pcols (set out p v) p 0 rest (ground arith)
      ∙ get_or-set_self out p v 0 (omega arith) in
    rw
      (
        head,
        forward-inverse arity left perm (p ∷ seen) pcols (set out p v) rest (omega arith)
            (omega (arith, length-set out p v)),
      )
      refl
