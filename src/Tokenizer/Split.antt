-- ===== src/Tokenizer/Split.antt =====
-- What `tokenize` of zig/src/index.zig returns, where memory refuses nothing.
use datalog_dafsa.Base.{
  ℕ, zero, suc, ◌+◌, ◌*◌, ◌≤◌, ◌<◌, ◌≡◌, refl, sym, ap, ◌∙◌, true, false, none, some, List, [], ◌∷◌,
  ◌++◌, map, if◌then◌else◌, ◌==◌, length, Mem, arith, inl, inr, Bool-cases, Option, ltb, ◌&&◌,
  append-nil, append_assoc, subst,
}
use datalog_dafsa.TxnWal.{Bytes}
use datalog_dafsa.IntSet.Contents.{IsAmple}
use datalog_dafsa.Tokenizer.{
  is_alnum_ascii, to_lower_ascii, skip_other, token_run, after_run, count_tokens, extract_tokens,
  tokenize,
}

-- A word ends where it is not empty.
abbrev flush : Bytes → List Bytes → List Bytes
flush [] words = words
flush (ch ∷ word) words = (ch ∷ word) ∷ words

-- The words of a text, in one pass that keeps the word it is in.
unfoldable pub words_of : Bytes → Bytes → List Bytes
words_of word [] = flush word []
words_of word (ch ∷ text) =
    let inside = words_of (word ++ to_lower_ascii ch ∷ []) text in
    let outside = flush word (words_of [] text) in if is_alnum_ascii ch then inside else outside

-- A text that begins with no letter or digit.
StartsOther : Bytes → Type 0
StartsOther [] = Unit {0}
StartsOther (ch ∷ text) = is_alnum_ascii ch ≡ false

StartsToken : Bytes → Type 0
StartsToken [] = Unit {0}
StartsToken (ch ∷ text) = is_alnum_ascii ch ≡ true

skip_words : (text : Bytes) → words_of [] (skip_other text) ≡ words_of [] text
unfolding skip_other words_of
skip_words [] = refl
skip_words (ch ∷ text) = elim (Bool-cases (is_alnum_ascii ch)) [
  | inl start ↦ rw start (rw start refl)
  | inr other ↦ rw other (skip_words text)
]

skip_start : (text : Bytes) → StartsToken (skip_other text)
unfolding skip_other StartsToken
skip_start [] = tt
skip_start (ch ∷ text) = elim (Bool-cases (is_alnum_ascii ch)) [
  | inl start ↦ rw start start
  | inr other ↦ rw other (skip_start text)
]

skip_shorter : (text : Bytes) → length (skip_other text) ≤ length text
unfolding skip_other
skip_shorter [] = omega arith
skip_shorter (ch ∷ text) = ground (arith, skip_shorter text)

run_words :
    (word text : Bytes)
    → words_of word text ≡ words_of (word ++ map to_lower_ascii (token_run text)) (after_run text)
unfolding words_of token_run after_run
run_words word [] = ap (λ w. words_of w []) (sym (append-nil word))
run_words word (ch ∷ text) = elim (Bool-cases (is_alnum_ascii ch)) [
  | inl start ↦ rw start (
      run_words (word ++ to_lower_ascii ch ∷ []) text
      ∙ ap (λ w. words_of w (after_run text))
          (append_assoc word (to_lower_ascii ch ∷ []) (map to_lower_ascii (token_run text))))
  | inr other ↦ rw (other, append-nil word) (rw other refl)
]

after_start : (text : Bytes) → StartsOther (after_run text)
unfolding after_run StartsOther
after_start [] = tt
after_start (ch ∷ text) = elim (Bool-cases (is_alnum_ascii ch)) [
  | inl start ↦ rw start (after_start text)
  | inr other ↦ rw other other
]

after_shorter : (text : Bytes) → length (after_run text) ≤ length text
unfolding after_run
after_shorter [] = omega arith
after_shorter (ch ∷ text) = ground (arith, after_shorter text)

end_word :
    (ch : ℕ) (word text : Bytes)
    → StartsOther text
    → words_of (ch ∷ word) text ≡ (ch ∷ word) ∷ words_of [] text
unfolding words_of StartsOther
end_word ch word [] other = refl
end_word ch word (c ∷ text) other = rw other refl

-- A token at the front of a text is its first word.
first_word :
    (ch : ℕ) (rest : Bytes)
    → is_alnum_ascii ch ≡ true
    → words_of [] (ch ∷ rest)
      ≡ map to_lower_ascii (token_run (ch ∷ rest)) ∷ words_of [] (after_run (ch ∷ rest))
unfolding token_run
first_word ch rest start =
    run_words [] (ch ∷ rest)
    ∙ rw start (end_word _ _ (after_run (ch ∷ rest)) (after_start (ch ∷ rest)))

after_token :
    (ch : ℕ) (rest : Bytes)
    → is_alnum_ascii ch ≡ true
    → length (after_run (ch ∷ rest)) ≤ length rest
unfolding after_run
after_token ch rest start = rw start (after_shorter rest)

-- The words of a text whose first token is known.
skipped_words :
    (text : Bytes) (ch : ℕ) (rest : Bytes)
    → skip_other text ≡ ch ∷ rest
    → words_of [] text
      ≡ map to_lower_ascii (token_run (ch ∷ rest)) ∷ words_of [] (after_run (ch ∷ rest))
unfolding StartsToken
skipped_words text ch rest e =
    sym (skip_words text)
    ∙ ap (words_of []) e
    ∙ first_word ch rest (subst StartsToken e (skip_start text))

no_words : (text : Bytes) → skip_other text ≡ [] → words_of [] text ≡ []
unfolding words_of
no_words text e = sym (skip_words text) ∙ ap (words_of []) e

skipped_shorter :
    (text : Bytes) (ch : ℕ) (rest : Bytes)
    → skip_other text ≡ ch ∷ rest
    → length (after_run (ch ∷ rest)) < length text
unfolding StartsToken
skipped_shorter text ch rest e = omega (
  arith,
  after_token ch rest (subst StartsToken e (skip_start text)),
  skip_shorter text,
  ap length e,
)

count_stage :
    (fuel : ℕ) (text : Bytes)
    → ((t : Bytes) → length t < fuel → count_tokens fuel t ≡ some (length (words_of [] t)))
    → length text < suc fuel
    → (s : Bytes) → skip_other text ≡ s
    → count_tokens (suc fuel) text ≡ some (length (words_of [] text))
unfolding count_tokens words_of
count_stage fuel text later h [] e = rw (count_tokens, e, no_words text e) refl
count_stage fuel text later h (ch ∷ rest) e =
    rw
      (
        count_tokens,
        e,
        later (after_run (ch ∷ rest)) (omega (arith, skipped_shorter text ch rest e)),
        skipped_words text ch rest e,
      )
      (ap some (omega arith))

count_tokens_lem :
    (fuel : ℕ) (text : Bytes)
    → length text < fuel
    → count_tokens fuel text ≡ some (length (words_of [] text))
unfolding count_tokens words_of
count_tokens_lem zero text h = absurd (omega arith)
count_tokens_lem (suc fuel) text h =
    count_stage fuel text (count_tokens_lem fuel) h (skip_other text) refl

extract_stage :
    (fuel : ℕ) (mem : Mem) (n : ℕ) (text : Bytes)
    → IsAmple mem
    → length text < suc fuel
    → suc n ≡ length (words_of [] text)
    → ((t : Bytes)
        → IsAmple mem
        → length t < fuel
        → n ≡ length (words_of [] t)
        → extract_tokens fuel mem n t ≡ some (some (words_of [] t)))
    → (s : Bytes) → skip_other text ≡ s
    → extract_tokens (suc fuel) mem (suc n) text ≡ some (some (words_of [] text))
unfolding extract_tokens words_of
extract_stage fuel mem n text ample h count later [] e =
    rw (extract_tokens, e, no_words text e) refl
extract_stage fuel mem n text ample h count later (ch ∷ rest) e =
    let words = skipped_words text ch rest e in
    rw
      (
        extract_tokens,
        e,
        ample.mallocs (length (token_run (ch ∷ rest)) + 1),
        later (after_run (ch ∷ rest)) ample (omega (arith, skipped_shorter text ch rest e))
            (omega (arith, count, ap length words)),
        words,
      )
      refl

extract_tokens_lem :
    (fuel : ℕ) (mem : Mem) (n : ℕ) (text : Bytes)
    → IsAmple mem
    → length text < fuel
    → n ≡ length (words_of [] text)
    → extract_tokens fuel mem n text ≡ some (some (words_of [] text))
unfolding extract_tokens words_of
extract_tokens_lem zero mem n text ample h count = absurd (omega arith)
extract_tokens_lem (suc fuel) mem zero text ample h count =
    ap (λ w. some (some w)) (empty_stage (words_of [] text) count)
  where
    empty_stage : (words : List Bytes) → 0 ≡ length words → [] ≡ words
    empty_stage [] h = refl
    empty_stage (w ∷ words) h = absurd (omega arith)
extract_tokens_lem (suc fuel) mem (suc n) text ample h count =
    extract_stage fuel mem n text ample h count (extract_tokens_lem fuel mem n) (skip_other text)
      refl

tokenize_stage :
    (mem : Mem) (text : Bytes)
    → IsAmple mem
    → tokenize mem text
      ≡ some (if length (words_of [] text) == 0 then none else some (words_of [] text))
unfolding tokenize words_of
tokenize_stage mem text ample =
    let n = length (words_of [] text) in
    rw
      (
        count_tokens_lem (suc (length text)) text (omega arith),
        ample.callocs ((n + 1) * 8),
        extract_tokens_lem (suc (length text)) mem n text ample (omega arith) refl,
      )
      (elim (Bool-cases (n == 0)) [
        | inl empty ↦ rw empty refl
        | inr some_words ↦ rw some_words refl
      ])

-- What a byte contributes to a word: a digit or a small letter itself, a capital the small letter 32
-- further on, and any other byte, which ends a word, nothing.
abbrev pub letter : ℕ → Option ℕ
letter ch =
    if ltb 47 ch && ltb ch 58
    then some ch
    else if ltb 64 ch && ltb ch 91
    then some (ch + 32)
    else if ltb 96 ch && ltb ch 123
    then some ch
    else none

-- The maximal runs of letters and digits of a text, in small letters.
unfoldable pub runs_of : Bytes → Bytes → List Bytes
runs_of word [] = flush word []
runs_of word (ch ∷ text) =
    let outside = flush word (runs_of [] text) in
    elim (letter ch) [ none ↦ outside | some c ↦ runs_of (word ++ c ∷ []) text ]

letter_lem : (ch : ℕ) → letter ch ≡ (if is_alnum_ascii ch then some (to_lower_ascii ch) else none)
unfolding is_alnum_ascii to_lower_ascii
letter_lem ch = ground arith

runs_of-words_of : (word text : Bytes) → words_of word text ≡ runs_of word text
unfolding words_of runs_of
runs_of-words_of word [] = refl
runs_of-words_of word (ch ∷ text) = elim (Bool-cases (is_alnum_ascii ch)) [
  | inl inside ↦
      let e : letter ch ≡ some (to_lower_ascii ch) = letter_lem ch ∙ rw inside refl in
      rw (runs_of, inside, e) (runs_of-words_of (word ++ to_lower_ascii ch ∷ []) text)
  | inr outside ↦
      let e : letter ch ≡ none = letter_lem ch ∙ rw outside refl in
      rw (runs_of, outside, e) (ap (flush word) (runs_of-words_of [] text))
]

-- Where memory refuses nothing, `tokenize` returns the maximal runs of ASCII letters and digits of a
-- text, in order and in small letters, and the null pointer where there is none.
pub tokenize_lem :
    (mem : Mem) (text : Bytes)
    → IsAmple mem
    → tokenize mem text
      ≡ some (if length (runs_of [] text) == 0 then none else some (runs_of [] text))
tokenize_lem mem text ample =
    subst (λ (ws : List Bytes). tokenize mem text ≡ some (if length ws == 0 then none else some ws))
      (runs_of-words_of [] text) (tokenize_stage mem text ample)
