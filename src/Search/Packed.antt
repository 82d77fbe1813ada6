-- ===== src/Search/Packed.antt =====
-- The packed postings of `searchRankedImpl` in zig/src/index.zig: which documents they count.
use datalog_dafsa.Base.{
  ℕ, ◌/◌, ◌%◌, ◌^◌, ◌≤◌, ◌<◌, ◌≡◌, ◌≢◌, refl, ap, ◌∙◌, false, List, [], ◌∷◌, map, if◌then◌else◌,
  ◌==◌, length, arith, All, ==_ne,
}
use native.Mathlib.Decide.{ℕ_discrete}
use datalog_dafsa.IntSet.{IntSet, is_seen}
use datalog_dafsa.IntSet.Contents.{IsIntSet, occurs}
use datalog_dafsa.Search.{pack, pack_sets}
use datalog_dafsa.Search.Counts.{
  count_if, count_if-append, count_if-map, count_if_same, count_if_none, All-map, All-append,
  IsRising,
}
use datalog_dafsa.Search.Groups.{doc, of_doc, IsPacked}

-- A collected set of 32-bit ids.
abbrev pub IsCollected : IntSet → Type 0
IsCollected s = IsIntSet s × All (λ v. v < 2 ^ 32) s.items

-- The number of sets that contain a document.
abbrev pub sets_with : List IntSet → ℕ → ℕ
sets_with sets o = count_if (λ s. is_seen s.items o) sets

abbrev Fits : ℕ → Type 0
Fits r = r < 2 ^ 32

pub occurs_count : (items : List ℕ) (o : ℕ) → count_if (λ x. x == o) items ≡ occurs items o
unfolding count_if
occurs_count [] o = refl
occurs_count (x ∷ items) o = omega (arith, occurs_count items o)

unpack_doc : (r x o : ℕ) → r < 2 ^ 32 → x < 2 ^ 32 → of_doc o (pack r x) ≡ (x == o)
unpack_doc r x o small fits =
    let same : doc (pack r x) ≡ x = omega arith in ap (λ (d : ℕ). d == o) same

unpack_same : (r x v : ℕ) → r < 2 ^ 32 → v % 2 ^ 32 ≡ r → (pack r x == v) ≡ (x == v / 2 ^ 32)
unpack_same r x v small same = ground arith

unpack_other : (r x v : ℕ) → r < 2 ^ 32 → v % 2 ^ 32 ≢ r → (pack r x == v) ≡ false
unpack_other r x v small other = ==_ne (pack r x) v (λ e. other (omega (arith, e)))

pack_doc_one :
    (s : IntSet) (r o : ℕ)
    → IsCollected s
    → r < 2 ^ 32
    → count_if (of_doc o) (map (pack r) s.items) ≡ (if is_seen s.items o then 1 else 0)
pack_doc_one s r o (set, fits) small =
    count_if-map (of_doc o) (pack r) s.items
    ∙ count_if_same (λ x. of_doc o (pack r x)) (λ x. x == o) s.items
        (All-map (λ x h. unpack_doc r x o small h) s.items fits)
    ∙ occurs_count s.items o
    ∙ set.once o

-- The packed postings of a document are as many as the sets that contain it.
pub pack_sets-sets_with :
    (sets : List IntSet) (ranks : List ℕ) (o : ℕ)
    → All IsCollected sets
    → All Fits ranks
    → length ranks ≡ length sets
    → count_if (of_doc o) (pack_sets sets ranks) ≡ sets_with sets o
unfolding pack_sets count_if
pack_sets-sets_with [] ranks o all small same = refl
pack_sets-sets_with (s ∷ sets) [] o all small same = absurd (omega arith)
pack_sets-sets_with (s ∷ sets) (r ∷ ranks) o (first, all) (fits, small) same =
    count_if-append (of_doc o) (map (pack r) s.items) (pack_sets sets ranks)
    ∙ rw (pack_doc_one s r o first fits, pack_sets-sets_with sets ranks o all small (omega arith))
        refl

all_mapped :
    (r : ℕ) (P : ℕ → Type 0) (xs : List ℕ) → All (λ x. P (pack r x)) xs → All P (map (pack r) xs)
all_mapped r P [] h = tt
all_mapped r P (x ∷ xs) (here, h) = (here, all_mapped r P xs h)

all_items : (P : ℕ → Type 0) (xs : List ℕ) → ((x : ℕ) → P x) → All P xs
all_items P [] h = tt
all_items P (x ∷ xs) h = (h x, all_items P xs h)

pub pack_sets-IsPacked :
    (sets : List IntSet) (ranks : List ℕ)
    → All IsCollected sets
    → All Fits ranks
    → IsPacked (pack_sets sets ranks)
unfolding pack_sets
pack_sets-IsPacked [] ranks all small = tt
pack_sets-IsPacked (s ∷ sets) [] all small = tt
pack_sets-IsPacked (s ∷ sets) (r ∷ ranks) (first, all) (fits, small) =
    All-append (λ p. p < 2 ^ 64) (map (pack r) s.items) (pack_sets sets ranks)
      (all_mapped r (λ p. p < 2 ^ 64) s.items (All-map (λ x h. omega arith) s.items first.1))
      (pack_sets-IsPacked sets ranks all small)

-- A posting with another rank is not among those of the sets.
other_ranks :
    (sets : List IntSet) (ranks : List ℕ) (r v : ℕ)
    → All (λ q. r < q) ranks
    → All Fits ranks
    → v % 2 ^ 32 ≡ r
    → count_if (λ y. y == v) (pack_sets sets ranks) ≡ 0
unfolding pack_sets count_if
other_ranks [] ranks r v later small same = refl
other_ranks (s ∷ sets) [] r v later small same = refl
other_ranks (s ∷ sets) (q ∷ ranks) r v (above, later) (fits, small) same =
    count_if-append (λ y. y == v) (map (pack q) s.items) (pack_sets sets ranks)
    ∙ rw
        (
          count_if-map (λ y. y == v) (pack q) s.items,
          count_if_none (λ x. pack q x == v) s.items
              (all_items (λ x. (pack q x == v) ≡ false) s.items
                (λ x. unpack_other q x v fits (λ e. absurd (omega arith)))),
          other_ranks sets ranks r v later small same,
        )
        (omega arith)

-- No packed posting is there twice.
pub pack_sets_once :
    (sets : List IntSet) (ranks : List ℕ) (v : ℕ)
    → All IsCollected sets
    → All Fits ranks
    → IsRising ranks
    → count_if (λ y. y == v) (pack_sets sets ranks) ≤ 1
unfolding pack_sets count_if
pack_sets_once [] ranks v all small rises = omega arith
pack_sets_once (s ∷ sets) [] v all small rises = omega arith
pack_sets_once (s ∷ sets) (r ∷ ranks) v (first, all) (fits, small) (later, rises) =
    let split = count_if-append (λ y. y == v) (map (pack r) s.items) (pack_sets sets ranks) in
    let mapped = count_if-map (λ y. y == v) (pack r) s.items in
    elim (ℕ_discrete (v % 2 ^ 32) r) [
      | yes same ↦
          let own : count_if (λ x. pack r x == v) s.items ≡ occurs s.items (v / 2 ^ 32) =
            count_if_same (λ x. pack r x == v) (λ x. x == v / 2 ^ 32) s.items
              (all_items (λ x. (pack r x == v) ≡ (x == v / 2 ^ 32)) s.items
                (λ x. unpack_same r x v fits same))
            ∙ occurs_count s.items (v / 2 ^ 32) in
          let others = other_ranks sets ranks r v later small same in
          ground (arith, split, mapped, own, others, first.0.once (v / 2 ^ 32))
      | no apart ↦
          let own =
            count_if_none (λ x. pack r x == v) s.items
              (all_items (λ x. (pack r x == v) ≡ false) s.items
                (λ x. unpack_other r x v fits apart)) in
          omega (arith, split, mapped, own, pack_sets_once sets ranks v all small rises)
    ]
