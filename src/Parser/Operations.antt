-- ===== src/Parser/Operations.antt =====
-- Integers, variables, sums and products as `parseFactor`, `parseTerm` and `parseExpr` in
-- zig/src/parser.zig read them.
use datalog_dafsa.Base.{
  ℕ, suc, ◌+◌, ◌≤◌, ◌<◌, ◌-◌, ◌≡◌, refl, sym, ap, ◌∙◌, true, false, none, some, List, [], ◌∷◌, ◌++◌,
  arith, append_assoc, subst,
}
use datalog_dafsa.Parser.{
  tok_rparen, Token, Text, BinOp, Expr, ex_int, ex_var, ex_binop, Parsed, parsed, mul_op, add_op,
  chain_loop, chain_from, close, parse_factor, parse_term, parse_expr,
}
use datalog_dafsa.Parser.Print.{
  sum_level, product_level, atom_level, is_sum, op_kind, plain, wrapped, print, size, links,
  EndsProduct, EndsSum,
}
use datalog_dafsa.Parser.Chains.{chain_step}
use datalog_dafsa.Parser.Chained.{nesting, Reads, term_read, sum_read, nesting_fits, chain_single}

-- A tree that reads as a factor also where a term or an expression is wanted.
pub factor_stage :
    (e : Expr)
    → links false e ≡ 0
    → links true e ≡ 0
    → print product_level e ≡ print atom_level e
    → print sum_level e ≡ print atom_level e
    → nesting e ≡ 0
    → ((n : ℕ) (rest : List Token)
        → parse_factor (parse_expr n) (print atom_level e ++ rest) ≡ parsed e rest)
    → Reads e
factor_stage e no_product no_sum as_product as_sum flat read =
    let chained : (n k : ℕ) (rest : List Token)
        → nesting e ≤ suc n
        → chain_from mul_op (parse_factor (parse_expr n)) (links false e + k)
            (print product_level e ++ rest)
          ≡ chain_loop mul_op (parse_factor (parse_expr n)) k e rest =
      λ n k rest small. rw as_product (
        chain_single mul_op (parse_factor (parse_expr n)) (links false e) k e
          (print atom_level e ++ rest) rest no_product (read n rest)) in
    record {
      factor = λ n rest small. read n rest;
      term_chain = chained;
      sum_chain = λ n k rest small ends. rw (as_sum ∙ sym as_product) (
          chain_single add_op (parse_term (parse_expr n)) (links true e) k e
            (print product_level e ++ rest) rest no_sum
            (term_read e n rest chained (omega arith) ends));
    }

pub sum_nesting :
    (op : BinOp) (l r : Expr) (n : ℕ)
    → is_sum op ≡ true
    → nesting (ex_binop op l r) ≤ suc n
    → size (ex_binop op l r) ≤ n
sum_nesting op l r n sums small = ground arith

pub product_nesting :
    (op : BinOp) (l r : Expr) (n : ℕ)
    → is_sum op ≡ false
    → nesting (ex_binop op l r) ≤ suc n
    → size (ex_binop op l r) ≤ suc n
product_nesting op l r n mults small = ground arith

pub product_nesting_fits :
    (op : BinOp) (l r : Expr) (n : ℕ)
    → is_sum op ≡ false
    → size (ex_binop op l r) ≤ suc n
    → nesting (ex_binop op l r) ≤ suc n
product_nesting_fits op l r n mults small = ground arith

pub int_stage : (m : ℕ) → Reads (ex_int m)
unfolding parse_factor print links
int_stage m = factor_stage (ex_int m) refl refl refl refl refl (λ n rest. refl)

pub var_stage : (v : Text) → Reads (ex_var v)
unfolding parse_factor print links
var_stage v = factor_stage (ex_var v) refl refl refl refl refl (λ n rest. refl)

-- The inside of parentheses.
pub factor_parens :
    (n : ℕ) (e : Expr) (inner rest : List Token)
    → parse_expr n (inner ++ plain tok_rparen ∷ rest) ≡ parsed e (plain tok_rparen ∷ rest)
    → parse_factor (parse_expr n) (wrapped inner ++ rest) ≡ parsed e rest
unfolding parse_factor close
factor_parens n e inner rest read =
    rw (append_assoc inner (plain tok_rparen ∷ []) rest, read, parse_factor) refl

-- A sum of a tree and a term.
pub sum_links :
    (op : BinOp) (l r : Expr)
    → is_sum op ≡ true
    → (links true (ex_binop op l r) ≡ suc (links true l)) × (links false (ex_binop op l r) ≡ 0)
unfolding links
sum_links op l r sums = (rw sums refl, rw sums refl)

pub sum_print :
    (op : BinOp) (l r : Expr)
    → is_sum op ≡ true
    → (print product_level (ex_binop op l r) ≡ print atom_level (ex_binop op l r))
      × (print atom_level (ex_binop op l r) ≡ wrapped (print sum_level (ex_binop op l r)))
      × (print sum_level (ex_binop op l r)
          ≡ print sum_level l ++ plain (op_kind op) ∷ print product_level r)
unfolding print
sum_print op l r sums = (rw sums refl, refl, rw sums refl)

pub rparen_ends : (rest : List Token) → EndsSum (plain tok_rparen ∷ rest)
unfolding mul_op add_op
rparen_ends rest = (refl, refl)

-- An operation in parentheses, from how it reads as an expression.
pub parens_read :
    (e : Expr) (n : ℕ) (rest : List Token)
    → ((n k : ℕ) (rest : List Token)
        → size e ≤ suc n
        → EndsProduct rest
        → chain_from add_op
            (parse_term (parse_expr n))
            (links true e + k)
            (print sum_level e ++ rest)
          ≡ chain_loop add_op (parse_term (parse_expr n)) k e rest)
    → print atom_level e ≡ wrapped (print sum_level e)
    → 0 < size e
    → size e ≤ n
    → parse_factor (parse_expr n) (print atom_level e ++ rest) ≡ parsed e rest
parens_read e n rest chain as_atom some_op small =
    let after : List Token = plain tok_rparen ∷ rest in
    let deeper : suc (n - 1) ≡ n = omega arith in
    let inside : parse_expr n (print sum_level e ++ after) ≡ parsed e after =
      subst (λ (m : ℕ). parse_expr m (print sum_level e ++ after) ≡ parsed e after) deeper
        (sum_read e (n - 1) after chain (omega arith) (rparen_ends rest)) in
    rw as_atom (factor_parens n e (print sum_level e) rest inside)

pub sum_chained :
    (op : BinOp) (l r : Expr) (n k : ℕ) (rest : List Token)
    → is_sum op ≡ true
    → add_op (op_kind op) ≡ some op
    → mul_op (op_kind op) ≡ none
    → Reads l
    → Reads r
    → size (ex_binop op l r) ≤ suc n
    → EndsProduct rest
    → chain_from add_op
        (parse_term (parse_expr n))
        (links true (ex_binop op l r) + k)
        (print sum_level (ex_binop op l r) ++ rest)
      ≡ chain_loop add_op (parse_term (parse_expr n)) k (ex_binop op l r) rest
sum_chained op l r n k rest sums adds ends reads_l reads_r small follows =
    let term : List Token → Parsed = parse_term (parse_expr n) in
    let after : List Token = plain (op_kind op) ∷ (print product_level r ++ rest) in
    let split : print sum_level (ex_binop op l r) ++ rest ≡ print sum_level l ++ after =
      ap (λ (ts : List Token). ts ++ rest) (sum_print op l r sums).2
      ∙ append_assoc (print sum_level l) (plain (op_kind op) ∷ print product_level r) rest in
    let count : links true (ex_binop op l r) + k ≡ links true l + suc k =
      omega (arith, (sum_links op l r sums).0) in
    ap (λ (m : ℕ). chain_from add_op term m (print sum_level (ex_binop op l r) ++ rest)) count
    ∙ ap (chain_from add_op term (links true l + suc k)) split
    ∙ reads_l.sum_chain n (suc k) after (omega arith) ends
    ∙ chain_step add_op term k l r op (print product_level r ++ rest) rest adds
        (term_read r n rest reads_r.term_chain (nesting_fits r n (omega arith)) follows)

pub sum_stage :
    (op : BinOp) (l r : Expr)
    → is_sum op ≡ true
    → add_op (op_kind op) ≡ some op
    → mul_op (op_kind op) ≡ none
    → Reads l
    → Reads r
    → Reads (ex_binop op l r)
sum_stage op l r sums adds ends reads_l reads_r =
    let e : Expr = ex_binop op l r in
    let (as_term, as_atom, as_sum) = sum_print op l r sums in
    let factored : (n : ℕ) (rest : List Token)
        → size e ≤ n
        → parse_factor (parse_expr n) (print atom_level e ++ rest) ≡ parsed e rest =
      λ n rest small.
        parens_read e n rest
          (λ m k more fits follows.
            sum_chained op l r m k more sums adds ends reads_l reads_r fits follows)
          as_atom (omega arith) small in
    record {
      factor = factored;
      term_chain = λ n k rest small. rw as_term (
          chain_single mul_op (parse_factor (parse_expr n)) (links false e) k e
            (print atom_level e ++ rest) rest (sum_links op l r sums).1
            (factored n rest (sum_nesting op l r n sums small)));
      sum_chain = λ n k rest small follows.
          sum_chained op l r n k rest sums adds ends reads_l reads_r small follows;
    }
