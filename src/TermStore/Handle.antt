-- ===== src/TermStore/Handle.antt =====
-- The list terms of a database handle, zig/src/dl.zig and src/dl.h. A handle without a term store has
-- `none`.
use datalog_dafsa.Base.{ℕ, Bool, false, Option, none, some, if◌then◌else◌, Mem}
use datalog_dafsa.TupleSet.{◌>>=◌}
use datalog_dafsa.TermStore.{TermStore, term_cons, term_append, term_is_list, term_car, term_cdr}

unfoldable pub dl_term_cons : Mem → Bool → Option TermStore → ℕ → ℕ → Option (Option TermStore × ℕ)
dl_term_cons mem read_only none head tail = some (none, 0)
dl_term_cons mem read_only (some t) head tail =
    if read_only
    then some (some t, 0)
    else (term_cons mem t head tail >>= λ (t', h). some (some t', h))

unfoldable pub dl_term_append :
    Mem → Bool → Option TermStore → ℕ → ℕ → Option (Option TermStore × ℕ)
dl_term_append mem read_only none a b = some (none, 0)
dl_term_append mem read_only (some t) a b =
    if read_only then some (some t, 0) else (term_append mem t a b >>= λ (t', h). some (some t', h))

unfoldable pub dl_term_is_list : Option TermStore → ℕ → Bool
dl_term_is_list none v = false
dl_term_is_list (some t) v = term_is_list t v

unfoldable pub dl_term_car : Option TermStore → ℕ → ℕ
dl_term_car none h = 0
dl_term_car (some t) h = term_car t h

unfoldable pub dl_term_cdr : Option TermStore → ℕ → ℕ
dl_term_cdr none h = 0
dl_term_cdr (some t) h = term_cdr t h
