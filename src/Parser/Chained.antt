-- ===== src/Parser/Chained.antt =====
-- How `parseTerm` and `parseExpr` in zig/src/parser.zig read the tokens of a tree, from how their loops do.
use datalog_dafsa.Base.{
  ℕ, suc, ◌+◌, ◌≤◌, ◌-◌, ◌≡◌, sym, ap, ◌∙◌, Bool, true, false, Option, List, [], ◌∷◌, ◌++◌,
  if◌then◌else◌, length, arith, length-append,
}
use datalog_dafsa.Parser.{
  TokenKind, tok_rparen, Token, BinOp, plus, minus, times, div, mod_op, Expr, ex_int, ex_var,
  ex_binop, Parsed, parsed, mul_op, add_op, chain_loop, chain_from, parse_chain, parse_factor,
  parse_term, parse_expr,
}
use datalog_dafsa.Parser.Print.{
  Level, sum_level, product_level, atom_level, is_sum, level_of, operand_level, op_kind, plain,
  wrap, print, size, links, EndsProduct, EndsSum, ends-product,
}
use datalog_dafsa.Parser.Chains.{product_stops, sum_stops, chain_one}

-- A chain has fewer links than tokens.
pub links_one :
    (sums : Bool) (op : BinOp) (l r : Expr) → links sums (ex_binop op l r) ≤ suc (links sums l)
unfolding links
links_one true op l r = ground arith
links_one false op l r = ground arith

pub wrap_longer : (lvl : Level) (op : BinOp) (ts : List Token) → length ts ≤ length (wrap lvl op ts)
wrap_longer sum_level op ts = omega arith
wrap_longer product_level plus ts = omega (arith, length-append ts (plain tok_rparen ∷ []))
wrap_longer product_level minus ts = omega (arith, length-append ts (plain tok_rparen ∷ []))
wrap_longer product_level times ts = omega arith
wrap_longer product_level div ts = omega arith
wrap_longer product_level mod_op ts = omega arith
wrap_longer atom_level op ts = omega (arith, length-append ts (plain tok_rparen ∷ []))

pub links_fit : (sums : Bool) (e : Expr) (lvl : Level) → links sums e ≤ length (print lvl e)
unfolding links print
links_fit sums (ex_int n) lvl = omega arith
links_fit sums (ex_var v) lvl = omega arith
links_fit sums (ex_binop op l r) lvl =
    let rest : List Token = plain (op_kind op) ∷ print (operand_level op) r in
    omega (
      arith,
      links_one sums op l r,
      links_fit sums l (level_of op),
      wrap_longer lvl op (print (level_of op) l ++ rest),
      length-append (print (level_of op) l) rest,
    )

-- The nesting that a tree needs where it stands as a term: a sum needs parentheses.
abbrev pub nesting : Expr → ℕ
nesting (ex_int n) = 0
nesting (ex_var v) = 0
nesting (ex_binop op l r) = (if is_sum op then 1 else 0) + suc (size l + size r)

-- What holds of the printing of one tree, whatever follows it.
pub record Reads (e : Expr) : Type 0 where
  pub factor :
      (n : ℕ) (rest : List Token)
      → size e ≤ n
      → parse_factor (parse_expr n) (print atom_level e ++ rest) ≡ parsed e rest
  pub term_chain :
      (n k : ℕ) (rest : List Token)
      → nesting e ≤ suc n
      → chain_from mul_op
          (parse_factor (parse_expr n))
          (links false e + k)
          (print product_level e ++ rest)
        ≡ chain_loop mul_op (parse_factor (parse_expr n)) k e rest
  pub sum_chain :
      (n k : ℕ) (rest : List Token)
      → size e ≤ suc n
      → EndsProduct rest
      → chain_from add_op (parse_term (parse_expr n)) (links true e + k) (print sum_level e ++ rest)
        ≡ chain_loop add_op (parse_term (parse_expr n)) k e rest

pub term_read :
    (e : Expr) (n : ℕ) (rest : List Token)
    → ((n k : ℕ) (rest : List Token)
        → nesting e ≤ suc n
        → chain_from mul_op
            (parse_factor (parse_expr n))
            (links false e + k)
            (print product_level e ++ rest)
          ≡ chain_loop mul_op (parse_factor (parse_expr n)) k e rest)
    → nesting e ≤ suc n
    → EndsProduct rest
    → parse_term (parse_expr n) (print product_level e ++ rest) ≡ parsed e rest
unfolding parse_term parse_chain
term_read e n rest chain small ends =
    let toks : List Token = print product_level e ++ rest in
    let fits = links_fit false e product_level in
    let k : ℕ = suc (length toks) - links false e in
    let enough : links false e + k ≡ suc (length toks) =
      omega (arith, fits, length-append (print product_level e) rest) in
    ap (λ (m : ℕ). chain_from mul_op (parse_factor (parse_expr n)) m toks) (sym enough)
    ∙ chain n k rest small
    ∙ product_stops (parse_factor (parse_expr n)) k e rest
        (omega (arith, fits, length-append (print product_level e) rest)) ends

pub sum_read :
    (e : Expr) (n : ℕ) (rest : List Token)
    → ((n k : ℕ) (rest : List Token)
        → size e ≤ suc n
        → EndsProduct rest
        → chain_from add_op
            (parse_term (parse_expr n))
            (links true e + k)
            (print sum_level e ++ rest)
          ≡ chain_loop add_op (parse_term (parse_expr n)) k e rest)
    → size e ≤ suc n
    → EndsSum rest
    → parse_expr (suc n) (print sum_level e ++ rest) ≡ parsed e rest
unfolding parse_expr parse_chain
sum_read e n rest chain small ends =
    let toks : List Token = print sum_level e ++ rest in
    let fits = links_fit true e sum_level in
    let k : ℕ = suc (length toks) - links true e in
    let enough : links true e + k ≡ suc (length toks) =
      omega (arith, fits, length-append (print sum_level e) rest) in
    ap (λ (m : ℕ). chain_from add_op (parse_term (parse_expr n)) m toks) (sym enough)
    ∙ chain n k rest small (ends-product rest ends)
    ∙ sum_stops (parse_term (parse_expr n)) k e rest
        (omega (arith, fits, length-append (print sum_level e) rest)) ends

pub nesting_fits : (e : Expr) (n : ℕ) → size e ≤ n → nesting e ≤ suc n
nesting_fits (ex_int m) n h = omega arith
nesting_fits (ex_var v) n h = omega arith
nesting_fits (ex_binop op l r) n h = ground arith

-- A tree that is no chain of the operators, so that it is the only operand.
pub chain_single :
    (ops : TokenKind → Option BinOp) (operand : List Token → Parsed) (z k : ℕ) (e : Expr)
    (ts rest : List Token)
    → z ≡ 0
    → operand ts ≡ parsed e rest
    → chain_from ops operand (z + k) ts ≡ chain_loop ops operand k e rest
chain_single ops operand z k e ts rest none_left read =
    let same : z + k ≡ k = omega arith in
    ap (λ (m : ℕ). chain_from ops operand m ts) same ∙ chain_one ops operand k e ts rest read
