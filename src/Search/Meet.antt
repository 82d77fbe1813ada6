-- ===== src/Search/Meet.antt =====
-- The intersection of collected sets in `intSetIntersect` of zig/src/index.zig.
use datalog_dafsa.Base.{
  ℕ, zero, suc, ◌+◌, ◌≤◌, ◌<◌, ◌≡◌, refl, sym, ◌∙◌, subst, Bool, true, false, ◌&&◌, ◌||◌, some,
  List, [], ◌∷◌, if◌then◌else◌, ◌==◌, leb, ltb, length, get_or, Mem, arith, All, inl, inr,
  Bool-cases, ==_iff, ==_ne, or_none,
}
use datalog_dafsa.IntSet.{IntSet, no_ints, is_seen}
use datalog_dafsa.IntSet.Contents.{
  IsAmple, IsIntSet, no_ints-IsIntSet, int_set_add_lem, int_set_contains_lem,
}
use datalog_dafsa.Search.{in_all, intersect_loop, int_set_intersect, smallest_from}
use datalog_dafsa.Search.Counts.{count_if}
use datalog_dafsa.Search.Packed.{sets_with}
use datalog_dafsa.Search.Collect.{added_seen}

-- Whether all sets but the one with index `skip` contain `o`, without their tables.
unfoldable others_have : List IntSet → ℕ → ℕ → ℕ → Bool
others_have [] i skip o = true
others_have (s ∷ sets) i skip o =
    let later = others_have sets (i + 1) skip o in
    if i == skip then later else (is_seen s.items o && later)

in_all_lem :
    (sets : List IntSet) (i skip o : ℕ)
    → All IsIntSet sets
    → in_all sets i skip o ≡ some (others_have sets i skip o)
unfolding in_all others_have
in_all_lem [] i skip o all = refl
in_all_lem (s ∷ sets) i skip o (set, all) = elim (Bool-cases (i == skip)) [
  | inl own ↦ rw own (in_all_lem sets (i + 1) skip o all)
  | inr other ↦
      rw (other, int_set_contains_lem s o set, in_all_lem sets (i + 1) skip o all)
        (elim (Bool-cases (is_seen s.items o)) [
          | inl has ↦ rw has refl
          | inr lacks ↦ rw lacks refl
        ])
]

pub sets_with_le : (sets : List IntSet) (o : ℕ) → sets_with sets o ≤ length sets
unfolding count_if
sets_with_le [] o = omega arith
sets_with_le (s ∷ sets) o = ground (arith, sets_with_le sets o)

past_have :
    (sets : List IntSet) (i skip o : ℕ)
    → skip < i
    → leb (length sets) (sets_with sets o) ≡ others_have sets i skip o
unfolding others_have count_if
past_have [] i skip o past = refl
past_have (s ∷ sets) i skip o past =
    rw (==_ne i skip (λ e. absurd (omega arith)), sym (past_have sets (i + 1) skip o (omega arith)))
      (ground (arith, sets_with_le sets o))

-- A document is in every set if it is in the set with index `skip` and in the others.
have_lem :
    (sets : List IntSet) (i k skip o : ℕ)
    → k < length sets
    → skip ≡ i + k
    → leb (length sets) (sets_with sets o)
      ≡ (is_seen (get_or sets k no_ints).items o && others_have sets i skip o)
unfolding others_have count_if
have_lem [] i k skip o h e = absurd (omega arith)
have_lem (s ∷ sets) i zero skip o h e =
    let own : (i == skip) ≡ true = rw e (ground arith) in
    rw own (own_stage (past_have sets (i + 1) skip o (omega arith)))
  where
    own_stage :
        {later : Bool}
        → leb (length sets) (sets_with sets o) ≡ later
        → leb (suc (length sets)) ((if is_seen s.items o then 1 else 0) + sets_with sets o)
          ≡ (is_seen s.items o && later)
    own_stage rest = rw (sym rest) (ground (arith, sets_with_le sets o))
have_lem (s ∷ sets) i (suc k) skip o h e =
    rw (==_ne i skip (λ same. absurd (omega arith)))
      (other_stage _ _ (have_lem sets (i + 1) k skip o (omega arith) (omega (arith, e))))
  where
    other_stage :
        (own later : Bool)
        → leb (length sets) (sets_with sets o) ≡ (own && later)
        → leb (suc (length sets)) ((if is_seen s.items o then 1 else 0) + sets_with sets o)
          ≡ (own && (is_seen s.items o && later))
    other_stage own later rest = ground (arith, rest, sets_with_le sets o)

-- The smallest set is one of the sets.
smallest_from_lem :
    (sets : List IntSet) (i idx count n : ℕ)
    → idx < n
    → i + length sets ≤ n
    → smallest_from sets i idx count < n
unfolding smallest_from
smallest_from_lem [] i idx count n one fits = one
smallest_from_lem (s ∷ sets) i idx count n one fits =
    elim (Bool-cases (ltb (length s.items) count)) [
      | inl less ↦ rw less (
          smallest_from_lem sets (i + 1) i (length s.items) n (omega (arith, fits))
            (omega (arith, fits)))
      | inr more ↦ rw more (smallest_from_lem sets (i + 1) idx count n one (omega (arith, fits)))
    ]

hit_stage :
    (before here later have : Bool)
    → (here ≡ true → have ≡ true)
    → ((before || here) || (later && have)) ≡ (before || ((here || later) && have))
hit_stage before true later have all = rw (all refl) (ground arith)
hit_stage before false later have all = ground arith

miss_stage :
    (before here later have : Bool)
    → (here ≡ true → have ≡ false)
    → (before || (later && have)) ≡ (before || ((here || later) && have))
miss_stage before true later have none = rw (none refl) (ground arith)
miss_stage before false later have none = ground arith

module _ (mem : Mem) (ample : IsAmple mem) (sets : List IntSet) (skip : ℕ)
    (all : All IsIntSet sets) where
  -- What the loop adds to a set.
  abbrev Common : List ℕ → IntSet → IntSet → Type 0
  Common items s s' =
      (o : ℕ)
      → is_seen s'.items o ≡ (is_seen s.items o || (is_seen items o && others_have sets 0 skip o))

  intersect_loop_lem :
      (items : List ℕ) (s : IntSet)
      → IsIntSet s
      → (s' : IntSet) × (intersect_loop mem sets skip items s ≡ some (some s'))
        × IsIntSet s'
        × Common items s s'
  unfolding intersect_loop is_seen
  intersect_loop_lem [] s set = (s, refl, set, λ o. sym (or_none (is_seen s.items o)))
  intersect_loop_lem (x ∷ items) s set =
      let tested = in_all_lem sets 0 skip x all in
      elim (Bool-cases (others_have sets 0 skip x)) [
        | inl hit ↦
            let (s', run, set', grown) = int_set_add_lem mem s x ample set in
            let (s'', later, set'', common) = intersect_loop_lem items s' set' in
            (
              s'',
              rw (tested, hit, run) later,
              set'',
              λ o.
                  common o
                  ∙ rw (grown, added_seen s.items x o)
                      (hit_stage (is_seen s.items o) (x == o) (is_seen items o)
                        (others_have sets 0 skip o)
                        (λ same.
                          subst (λ v. others_have sets 0 skip v ≡ true) ((==_iff x o).0 same) hit)),
            )
        | inr miss ↦
            let (s', later, set', common) = intersect_loop_lem items s set in
            (
              s',
              rw (tested, miss) later,
              set',
              λ o.
                  common o
                  ∙ miss_stage (is_seen s.items o) (x == o) (is_seen items o)
                      (others_have sets 0 skip o)
                      (λ same.
                        subst (λ v. others_have sets 0 skip v ≡ false) ((==_iff x o).0 same) miss),
            )
      ]

-- Where memory refuses nothing, the intersection has the documents that all sets contain.
pub int_set_intersect_lem :
    (mem : Mem) (s : IntSet) (sets : List IntSet)
    → IsAmple mem
    → All IsIntSet (s ∷ sets)
    → (both : IntSet) × (int_set_intersect mem (s ∷ sets) ≡ some (some both))
      × IsIntSet both
      × ((o : ℕ) → is_seen both.items o ≡ leb (length (s ∷ sets)) (sets_with (s ∷ sets) o))
unfolding int_set_intersect count_if is_seen
int_set_intersect_lem mem s [] ample (set, all) =
    (s, rw (ample.mallocs 48) refl, set, λ o. ground arith)
int_set_intersect_lem mem s (t ∷ sets) ample all =
    let skip = smallest_from (t ∷ sets) 1 0 (length s.items) in
    let small = (get_or (s ∷ t ∷ sets) skip no_ints).items in
    let (both, run, set, common) =
      intersect_loop_lem mem ample (s ∷ t ∷ sets) skip all small no_ints no_ints-IsIntSet in
    (
      both,
      rw (ample.mallocs 48) run,
      set,
      λ o.
          common o
          ∙ sym (
              have_lem (s ∷ t ∷ sets) 0 skip skip o
                (smallest_from_lem (t ∷ sets) 1 0 (length s.items) (length (s ∷ t ∷ sets))
                  (omega arith) (omega arith))
                (omega arith)),
    )
