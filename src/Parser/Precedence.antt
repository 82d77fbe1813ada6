-- ===== src/Parser/Precedence.antt =====
-- The grammar of expressions in zig/src/parser.zig reads back a tree that is written with the
-- parentheses that precedence and association to the left ask for.
use datalog_dafsa.Base.{ℕ, suc, ◌≤◌, ◌≡◌, refl, List, ◌++◌, arith}
use datalog_dafsa.Parser.{
  Token, plus, minus, times, div, mod_op, Expr, ex_int, ex_var, ex_binop, parsed, mul_op, add_op,
  parse_expr,
}
use datalog_dafsa.Parser.Print.{sum_level, print, size, EndsSum}
use datalog_dafsa.Parser.Chained.{Reads, sum_read}
use datalog_dafsa.Parser.Products.{product_stage}
use datalog_dafsa.Parser.Operations.{int_stage, var_stage, sum_stage}

every_tree : (e : Expr) → Reads e
unfolding add_op mul_op
every_tree (ex_int n) = int_stage n
every_tree (ex_var v) = var_stage v
every_tree (ex_binop plus l r) = sum_stage plus l r refl refl refl (every_tree l) (every_tree r)
every_tree (ex_binop minus l r) = sum_stage minus l r refl refl refl (every_tree l) (every_tree r)
every_tree (ex_binop times l r) = product_stage times l r refl refl (every_tree l) (every_tree r)
every_tree (ex_binop div l r) = product_stage div l r refl refl (every_tree l) (every_tree r)
every_tree (ex_binop mod_op l r) = product_stage mod_op l r refl refl (every_tree l) (every_tree r)

-- The tokens of an expression, with the parentheses that precedence and association to the left ask
-- for, are followed by tokens that begin with no operator. Then `parseExpr` ends, on fuel for more
-- than the operations of the expression, and gives back the expression and the tokens that follow.
pub parse_expr-print :
    (e : Expr) (n : ℕ) (rest : List Token)
    → size e ≤ n
    → EndsSum rest
    → parse_expr (suc n) (print sum_level e ++ rest) ≡ parsed e rest
parse_expr-print e n rest small ends = sum_read e n rest (every_tree e).sum_chain (omega arith) ends
