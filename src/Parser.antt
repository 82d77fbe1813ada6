-- ===== src/Parser.antt =====
-- The parser of zig/src/parser.zig (and src/parser.h): its tokens and syntax trees, and the grammar of
-- arithmetic expressions, `parseExpr`, `parseTerm` and `parseFactor`. The tokens are the list from the
-- current one on. The allocations succeed; messages are left out.
pub mod Print
pub mod Chains
pub mod Chained
pub mod Operations
pub mod Products
pub mod Precedence
use datalog_dafsa.Base.{
  ℕ, zero, suc, ◌+◌, Bool, true, false, Option, none, some, List, [], ◌∷◌, ◌++◌, length,
}

-- `token_kind`.
pub data TokenKind : Type 0 where
  tok_eof : TokenKind
  tok_ident : TokenKind
  tok_var : TokenKind
  tok_int : TokenKind
  tok_colonminus : TokenKind
  tok_comma : TokenKind
  tok_dot : TokenKind
  tok_lparen : TokenKind
  tok_rparen : TokenKind
  tok_not : TokenKind
  tok_aggregate : TokenKind
  tok_eq : TokenKind
  tok_lt : TokenKind
  tok_le : TokenKind
  tok_gt : TokenKind
  tok_ge : TokenKind
  tok_ne : TokenKind
  tok_plus : TokenKind
  tok_minus : TokenKind
  tok_star : TokenKind
  tok_slash : TokenKind
  tok_percent : TokenKind
  tok_tilde : TokenKind
  tok_string : TokenKind
  tok_lbracket : TokenKind
  tok_rbracket : TokenKind
  tok_pipe : TokenKind
  tok_list : TokenKind

abbrev pub Text : Type 0
Text = List ℕ

-- `token`: its kind, its offset, line and column, its text and value, and a list's elements and tail.
mutual
  pub data Token : Type 0 where
    token : TokenKind → (off line col : ℕ) → Option Text → (ival : ℕ) → Tokens → TailToken → Token

  pub data Tokens : Type 0 where
    no_children : Tokens
    child : Token → Tokens → Tokens

  pub data TailToken : Type 0 where
    no_tail : TailToken
    tail : Token → TailToken

-- The operators of an expression.
pub data BinOp : Type 0 where
  plus : BinOp
  minus : BinOp
  times : BinOp
  div : BinOp
  mod_op : BinOp

-- `expr`, by its kinds EX_INT, EX_VAR and EX_BINOP.
pub data Expr : Type 0 where
  ex_int : ℕ → Expr
  ex_var : Text → Expr
  ex_binop : BinOp → Expr → Expr → Expr

-- `expr_clone`.
unfoldable pub expr_clone : Expr → Expr
expr_clone (ex_int n) = ex_int n
expr_clone (ex_var v) = ex_var v
expr_clone (ex_binop op l r) = ex_binop op (expr_clone l) (expr_clone r)

pub record Atom : Type 0 where
  pub pred : Text
  pub off : ℕ
  pub line : ℕ
  pub col : ℕ
  pub args : List Token
  pub negated : Bool
  pub aggregate : Bool
  pub agg_op : Option Token
  pub pattern_text : Option Text
  pub pattern_col : ℕ
  pub arith : Option Expr

pub record Rule : Type 0 where
  pub head : Atom
  pub off : ℕ
  pub body : List Atom
  pub has_negation : Bool
  pub has_aggregate : Bool

-- What a parsing function comes to: an expression and the tokens after it, an error, or a loop that ran
-- out of fuel.
pub data Parsed : Type 0 where
  parsed : Expr → List Token → Parsed
  failed : Parsed
  out_of_fuel : Parsed

abbrev pub kind_of : Token → TokenKind
kind_of (token k off line col text ival kids tl) = k

-- The operators that `parseTerm` and `parseExpr` go on with.
unfoldable pub mul_op : TokenKind → Option BinOp
mul_op tok_star = some times
mul_op tok_slash = some div
mul_op tok_percent = some mod_op
mul_op _ = none

unfoldable pub add_op : TokenKind → Option BinOp
add_op tok_plus = some plus
add_op tok_minus = some minus
add_op _ = none

abbrev pub then_parse : Parsed → (Expr → List Token → Parsed) → Parsed
then_parse (parsed e ts) f = f e ts
then_parse failed f = failed
then_parse out_of_fuel f = out_of_fuel

-- The loop of `parseTerm` and of `parseExpr`, which have one body for different operators and operands:
-- `l` is the tree so far.
unfoldable pub chain_loop :
    (TokenKind → Option BinOp) → (List Token → Parsed) → ℕ → Expr → List Token → Parsed
chain_loop ops operand zero l ts = out_of_fuel
chain_loop ops operand (suc fuel) l [] = parsed l []
chain_loop ops operand (suc fuel) l (t ∷ ts) = elim (ops (kind_of t)) [
  | none ↦ parsed l (t ∷ ts)
  | some op ↦ then_parse (operand ts) (λ r rest. chain_loop ops operand fuel (ex_binop op l r) rest)
]

unfoldable pub chain_from :
    (TokenKind → Option BinOp) → (List Token → Parsed) → ℕ → List Token → Parsed
unfolding chain_loop
chain_from ops operand fuel ts =
    then_parse (operand ts) (λ l rest. chain_loop ops operand fuel l rest)

-- Each round of the loop takes a token, so the number of tokens is fuel enough.
unfoldable pub parse_chain :
    (TokenKind → Option BinOp) → (List Token → Parsed) → List Token → Parsed
unfolding chain_from
parse_chain ops operand ts = chain_from ops operand (suc (length ts)) ts

-- `expect(p, TOK_RPAREN)` after an expression.
unfoldable pub close : Expr → List Token → Parsed
close e (token tok_rparen off line col text ival kids tl ∷ ts) = parsed e ts
close e ts = failed

-- `parseFactor`, with the parser of expressions.
unfoldable pub parse_factor : (List Token → Parsed) → List Token → Parsed
unfolding close
parse_factor expression (token tok_var off line col (some v) ival kids tl ∷ ts) =
    parsed (ex_var v) ts
parse_factor expression (token tok_int off line col text ival kids tl ∷ ts) =
    parsed (ex_int ival) ts
parse_factor expression (token tok_lparen off line col text ival kids tl ∷ ts) =
    then_parse (expression ts) close
parse_factor expression ts = failed

unfoldable pub parse_term : (List Token → Parsed) → List Token → Parsed
unfolding parse_chain parse_factor mul_op
parse_term expression ts = parse_chain mul_op (parse_factor expression) ts

-- `parseExpr`, on fuel for the nesting of parentheses.
unfoldable pub parse_expr : ℕ → List Token → Parsed
unfolding parse_chain parse_term add_op
parse_expr zero ts = out_of_fuel
parse_expr (suc fuel) ts = parse_chain add_op (parse_term (parse_expr fuel)) ts
