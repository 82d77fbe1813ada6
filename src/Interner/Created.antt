-- ===== src/Interner/Created.antt =====
-- `intern_create` of zig/src/intern.zig.
use datalog_dafsa.Base.{
  ℕ, ◌*◌, ◌≡◌, refl, sym, ap, ◌∙◌, subst, Bool, true, false, Option, none, some, if◌then◌else◌,
  get_or-replicate, replicate, Mem, arith,
}
use datalog_dafsa.TupleSet.{◌>>=◌}
use datalog_dafsa.TxnWal.{Bytes}
use datalog_dafsa.Relation.{Key, Dafsa}
use datalog_dafsa.Interner.{Interner, intern_create, intern_rev_init_cap}
use datalog_dafsa.Interner.Valid.{at, no_some, some_same, some_same, IsValid}

module _ {D S : Type 0} (lib : Dafsa D S) (first_payload : D → Bytes → Option Key) where
  empty-IsValid :
      (ir : Interner D)
      → ir.rev ≡ replicate intern_rev_init_cap none
      → ir.next_id ≡ 1
      → ir.fwd_gen ≡ 0
      → IsValid lib ir
  empty-IsValid ir rev next gen =
      let vacant : (i : ℕ) → at ir.rev i ≡ none =
        λ i. ap (λ xs. at xs i) rev ∙ get_or-replicate intern_rev_init_cap i none in
      record {
        started = omega (arith, next);
        small = omega (arith, next);
        vacant = λ i far. vacant i;
        texts = λ i s here. absurd (no_some (sym (vacant i) ∙ here));
        short = λ i s here. absurd (no_some (sym (vacant i) ∙ here));
        once = λ i j s here there. absurd (no_some (sym (vacant i) ∙ here));
        past = omega (arith, next, gen);
        cache = λ d here current. absurd (omega (arith, next, gen, current));
      }

  created :
      (first second : Bool) (d : Option D) (make : D → Interner D) (ir : Interner D)
      → ((d : D) → IsValid lib (make d))
      → (if first then (d >>= λ d. if second then some (make d) else none) else none) ≡ some ir
      → IsValid lib ir
  created false second d make ir valid e = absurd (no_some e)
  created true second none make ir valid e = absurd (no_some e)
  created true false (some d) make ir valid e = absurd (no_some e)
  created true true (some d) make ir valid e = subst (IsValid lib) (some_same e) (valid d)

  pub intern_create-IsValid :
      (mem : Mem) (struct_size : ℕ) (ir : Interner D)
      → intern_create lib first_payload mem struct_size ≡ some ir
      → IsValid lib ir
  unfolding intern_create
  intern_create-IsValid mem struct_size ir e =
      created (mem.calloc_ok struct_size) (mem.calloc_ok (intern_rev_init_cap * 8)) lib.create _ ir
        (λ d. empty-IsValid _ refl refl refl) e
