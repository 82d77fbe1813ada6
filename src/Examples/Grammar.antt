-- ===== src/Examples/Grammar.antt =====
-- The grammar of expressions on concrete tokens.
use datalog_dafsa.Base.{◌++◌, ◌≡◌, refl, [], ◌∷◌, arith}
use datalog_dafsa.Parser.{
  Expr, ex_int, ex_var, ex_binop, plus, minus, times, parsed, failed, parse_expr, mul_op, add_op,
  Token, tok_minus, tok_comma, tok_int, tok_rparen, tok_plus,
}
use datalog_dafsa.Parser.Print.{print, sum_level, plain}
use datalog_dafsa.Parser.Precedence.{parse_expr-print}

-- `(1 + X) * 2`, followed by a comma.
abbrev scaled_sum : Expr
scaled_sum = ex_binop times (ex_binop plus (ex_int 1) (ex_var (88 ∷ []))) (ex_int 2)

parse_expr-print_example :
    parse_expr 3 (print sum_level scaled_sum ++ plain tok_comma ∷ [])
    ≡ parsed scaled_sum (plain tok_comma ∷ [])
unfolding mul_op add_op
parse_expr-print_example =
    parse_expr-print scaled_sum 2 (plain tok_comma ∷ []) (omega arith) (refl, refl)

abbrev one : Token
one = plain tok_int

-- Association to the left.
minus_run :
    parse_expr 1 (one ∷ plain tok_minus ∷ one ∷ plain tok_minus ∷ one ∷ [])
    ≡ parsed (ex_binop minus (ex_binop minus (ex_int 0) (ex_int 0)) (ex_int 0)) []
unfolding parse_expr
minus_run = refl

-- An operand is missing.
missing_run : parse_expr 1 (one ∷ plain tok_plus ∷ plain tok_rparen ∷ []) ≡ failed
unfolding parse_expr
missing_run = refl
