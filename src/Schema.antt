-- ===== src/Schema.antt =====
-- The typed relation schema: src/schema.h and zig/src/schema.zig. A name is the list of its bytes
-- before the NUL; an entry of `evalues` is its whole array of 32 bytes. The value constraints of a
-- column (`has_min` to `regex`) are left out: no operation here reads them. So are null arguments
-- and a corrupt `n_rels`.
pub mod Laws
pub mod Types
use datalog_dafsa.Base.{
  ℕ, zero, suc, ◌+◌, ◌-◌, Bool, true, false, not, ◌&&◌, ◌||◌, Option, none, some, List, [], ◌∷◌,
  ◌++◌, if◌then◌else◌, ◌==◌, ltb, leb, length, take, words_eq, Ret, err, ret, min,
}

pub data ColType : Type 0 where
  natural : ColType
  text : ColType
  bool : ColType
  char : ColType
  date : ColType
  timestamp : ColType
  signed : ColType
  list : ColType
  optional : ColType
  enumeration : ColType

-- The tag's number.
abbrev pub tag_code : ColType → ℕ
tag_code natural = 1
tag_code text = 2
tag_code bool = 3
tag_code char = 4
tag_code date = 5
tag_code timestamp = 6
tag_code signed = 7
tag_code list = 8
tag_code optional = 9
tag_code enumeration = 10

pub record ColSpec : Type 0 where
  pub tag : ColType
  pub elem : ColType
  pub evalues : List (List ℕ)
  pub n_evalues : ℕ

pub record RelDef : Type 0 where
  pub name : List ℕ
  pub arity : ℕ
  pub is_idb : Bool
  pub cols : List ColSpec

-- `rels` holds the first `n_rels` entries.
pub record Schema : Type 0 where
  pub rels : List RelDef

abbrev pub schema_max_rels : ℕ
schema_max_rels = 64

abbrev pub schema_max_arity : ℕ
schema_max_arity = 8

abbrev pub schema_name_max : ℕ
schema_name_max = 64

abbrev pub enum_max_values : ℕ
enum_max_values = 8

-- The comparison of the first `n` entries of two value sets.
unfoldable pub values_eq : ℕ → List (List ℕ) → List (List ℕ) → Bool
values_eq zero xs ys = true
values_eq (suc n) [] [] = true
values_eq (suc n) (x ∷ xs) (y ∷ ys) = words_eq x y && values_eq n xs ys
values_eq (suc n) (x ∷ xs) [] = false
values_eq (suc n) [] (y ∷ ys) = false

unfoldable pub colspec_eq : ColSpec → ColSpec → Bool
unfolding values_eq
colspec_eq a b =
    if not (tag_code a.tag == tag_code b.tag)
    then false
    else if (tag_code a.tag == 8) || (tag_code a.tag == 9)
    then tag_code a.elem == tag_code b.elem
    else if tag_code a.tag == 10
    then (a.n_evalues == b.n_evalues)
      && values_eq (min a.n_evalues enum_max_values) a.evalues b.evalues
    else true

-- `dl_schema_find`: the first definition with the name.
unfoldable pub schema_find : List RelDef → List ℕ → Option RelDef
schema_find [] name = none
schema_find (r ∷ rels) name = if words_eq r.name name then some r else schema_find rels name

abbrev pub is_some {ℓ} : {A : Type ℓ} → Option A → Bool
is_some none = false
is_some (some _) = true

-- `dl_schema_add`; the name is cut at 63 bytes.
unfoldable pub schema_add : Schema → List ℕ → ℕ → List ColSpec → Bool → Schema × Ret
unfolding schema_find
schema_add s name arity cols is_idb =
    if ltb arity 1 || ltb schema_max_arity arity
    then (s, err)
    else if leb schema_max_rels (length s.rels)
    then (s, err)
    else if is_some (schema_find s.rels name)
    then (s, err)
    else (
      record {
        rels =
            s.rels
            ++ record {
              name = take (schema_name_max - 1) name;
              arity = arity;
              is_idb = is_idb;
              cols = take arity cols;
            }
              ∷ [];
      },
      ret 0,
    )
