-- ===== src/Parser/Print.antt =====
-- Expressions as tokens, with the parentheses that the grammar of zig/src/parser.zig asks for.
use datalog_dafsa.Base.{
  ℕ, suc, ◌+◌, ◌≡◌, Bool, true, false, none, some, List, [], ◌∷◌, ◌++◌, if◌then◌else◌,
}
use datalog_dafsa.Parser.{
  TokenKind, tok_var, tok_int, tok_lparen, tok_rparen, tok_plus, tok_minus, tok_star, tok_slash,
  tok_percent, Token, token, no_children, no_tail, BinOp, plus, minus, times, div, mod_op, Expr,
  ex_int, ex_var, ex_binop, kind_of, mul_op, add_op,
}

-- What may stand for an expression: a sum, a product, or an atom.
pub data Level : Type 0 where
  sum_level : Level
  product_level : Level
  atom_level : Level

abbrev pub is_sum : BinOp → Bool
is_sum plus = true
is_sum minus = true
is_sum _ = false

abbrev pub level_of : BinOp → Level
level_of op = if is_sum op then sum_level else product_level

abbrev pub operand_level : BinOp → Level
operand_level op = if is_sum op then product_level else atom_level

abbrev pub op_kind : BinOp → TokenKind
op_kind plus = tok_plus
op_kind minus = tok_minus
op_kind times = tok_star
op_kind div = tok_slash
op_kind mod_op = tok_percent

-- A token of a kind, with no position.
abbrev pub plain : TokenKind → Token
plain k = token k 0 0 0 none 0 no_children no_tail

abbrev pub wrapped : List Token → List Token
wrapped ts = plain tok_lparen ∷ (ts ++ plain tok_rparen ∷ [])

-- Parentheses around an operation where its level does not allow it.
abbrev pub wrap : Level → BinOp → List Token → List Token
wrap sum_level op ts = ts
wrap product_level op ts = if is_sum op then wrapped ts else ts
wrap atom_level op ts = wrapped ts

-- The tokens of an expression at a level.
unfoldable pub print : Level → Expr → List Token
print lvl (ex_int n) = token tok_int 0 0 0 none n no_children no_tail ∷ []
print lvl (ex_var v) = token tok_var 0 0 0 (some v) 0 no_children no_tail ∷ []
print lvl (ex_binop op l r) =
    wrap lvl op (print (level_of op) l ++ plain (op_kind op) ∷ print (operand_level op) r)

-- The operations in a tree.
abbrev pub size : Expr → ℕ
size (ex_int n) = 0
size (ex_var v) = 0
size (ex_binop op l r) = suc (size l + size r)

-- The operations of a chain: those that the loop goes through.
unfoldable pub links : Bool → Expr → ℕ
links sums (ex_int n) = 0
links sums (ex_var v) = 0
links true (ex_binop op l r) = if is_sum op then suc (links true l) else 0
links false (ex_binop op l r) = if is_sum op then 0 else suc (links false l)

-- The next token is no operator of a product, or of an expression at all.
abbrev pub EndsProduct : List Token → Type 0
EndsProduct [] = Unit {0}
EndsProduct (t ∷ ts) = mul_op (kind_of t) ≡ none

abbrev pub EndsSum : List Token → Type 0
EndsSum [] = Unit {0}
EndsSum (t ∷ ts) = (mul_op (kind_of t) ≡ none) × (add_op (kind_of t) ≡ none)

pub ends-product : (ts : List Token) → EndsSum ts → EndsProduct ts
ends-product [] h = tt
ends-product (t ∷ ts) h = h.0
