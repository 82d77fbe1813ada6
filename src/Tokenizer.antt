-- ===== src/Tokenizer.antt =====
-- The tokenizer of full-text search in zig/src/index.zig (and src/index.h): runs of ASCII letters and
-- digits, in lower case. A text is the list of its bytes before the terminating zero. `none`, outside,
-- is a loop that does not end; inside, it is a null result.
pub mod Split
use datalog_dafsa.Base.{
  ℕ, zero, suc, ◌+◌, ◌*◌, ◌-◌, Bool, true, false, not, ◌&&◌, ◌||◌, Option, none, some, List, [],
  ◌∷◌, map, if◌then◌else◌, ◌==◌, leb, ltb, length, Mem,
}
use datalog_dafsa.TupleSet.{◌>>=◌}
use datalog_dafsa.TxnWal.{Bytes}

unfoldable pub is_alnum_ascii : ℕ → Bool
is_alnum_ascii ch =
    (leb 97 ch && leb ch 122) || ((leb 65 ch && leb ch 90) || (leb 48 ch && leb ch 57))

unfoldable pub to_lower_ascii : ℕ → ℕ
to_lower_ascii ch = if leb 65 ch && leb ch 90 then ch - 65 + 97 else ch

-- The loops over bytes that are not alphanumeric, and over those that are.
unfoldable pub skip_other : Bytes → Bytes
unfolding is_alnum_ascii
skip_other [] = []
skip_other (ch ∷ text) =
    let later = skip_other text in if is_alnum_ascii ch then ch ∷ text else later

unfoldable pub token_run : Bytes → Bytes
unfolding is_alnum_ascii
token_run [] = []
token_run (ch ∷ text) = let later = token_run text in if is_alnum_ascii ch then ch ∷ later else []

unfoldable pub after_run : Bytes → Bytes
unfolding is_alnum_ascii
after_run [] = []
after_run (ch ∷ text) = let later = after_run text in if is_alnum_ascii ch then later else ch ∷ text

-- The counting loop, on fuel for the bytes.
unfoldable pub count_tokens : ℕ → Bytes → Option ℕ
unfolding skip_other after_run
count_tokens zero text = none
count_tokens (suc fuel) text = elim (skip_other text) [
  | [] ↦ some 0
  | ch ∷ rest ↦ count_tokens fuel (after_run (ch ∷ rest)) >>= λ n. some (n + 1)
]

-- The extracting loop, which ends after `n` tokens.
unfoldable pub extract_tokens : ℕ → Mem → ℕ → Bytes → Option (Option (List Bytes))
unfolding skip_other token_run after_run to_lower_ascii
extract_tokens zero mem n text = none
extract_tokens (suc fuel) mem zero text = some (some [])
extract_tokens (suc fuel) mem (suc n) text = elim (skip_other text) [
  | [] ↦ some (some [])
  | ch ∷ rest ↦
      let run = token_run (ch ∷ rest) in
      let later = extract_tokens fuel mem n (after_run (ch ∷ rest)) in
      if mem.malloc_ok (length run + 1)
      then (later >>= λ got. elim got [
        | none ↦ some none
        | some tokens ↦ some (some (map to_lower_ascii run ∷ tokens))
      ])
      else some none
]

unfoldable pub tokenize : Mem → Bytes → Option (Option (List Bytes))
unfolding count_tokens extract_tokens
tokenize mem text = count_tokens (suc (length text)) text >>= λ n.
    if n == 0
    then some none
    else if mem.calloc_ok ((n + 1) * 8)
    then extract_tokens (suc (length text)) mem n text
    else some none
