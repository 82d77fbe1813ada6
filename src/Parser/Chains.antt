-- ===== src/Parser/Chains.antt =====
-- The loop of `parseExpr` and `parseTerm` in zig/src/parser.zig, a round at a time.
use datalog_dafsa.Base.{ℕ, zero, suc, ◌<◌, ◌≡◌, refl, Option, none, some, List, [], ◌∷◌, arith}
use datalog_dafsa.Parser.{
  TokenKind, Token, BinOp, Expr, ex_binop, Parsed, parsed, kind_of, mul_op, add_op, chain_loop,
  chain_from,
}
use datalog_dafsa.Parser.Print.{op_kind, plain, EndsProduct, EndsSum}

-- A chain ends at a token that is none of its operators.
pub chain_stops :
    (ops : TokenKind → Option BinOp) (operand : List Token → Parsed) (fuel : ℕ) (e : Expr)
    (t : Token) (ts : List Token)
    → 0 < fuel
    → ops (kind_of t) ≡ none
    → chain_loop ops operand fuel e (t ∷ ts) ≡ parsed e (t ∷ ts)
unfolding chain_loop
chain_stops ops operand zero e t ts some_fuel h = absurd (omega arith)
chain_stops ops operand (suc fuel) e t ts some_fuel h = rw (h, chain_loop) refl

pub product_stops :
    (operand : List Token → Parsed) (fuel : ℕ) (e : Expr) (ts : List Token)
    → 0 < fuel
    → EndsProduct ts
    → chain_loop mul_op operand fuel e ts ≡ parsed e ts
unfolding chain_loop
product_stops operand zero e ts some_fuel h = absurd (omega arith)
product_stops operand (suc fuel) e [] some_fuel h = refl
product_stops operand (suc fuel) e (t ∷ ts) some_fuel h =
    chain_stops mul_op operand (suc fuel) e t ts some_fuel h

pub sum_stops :
    (operand : List Token → Parsed) (fuel : ℕ) (e : Expr) (ts : List Token)
    → 0 < fuel
    → EndsSum ts
    → chain_loop add_op operand fuel e ts ≡ parsed e ts
unfolding chain_loop
sum_stops operand zero e ts some_fuel h = absurd (omega arith)
sum_stops operand (suc fuel) e [] some_fuel h = refl
sum_stops operand (suc fuel) e (t ∷ ts) some_fuel h =
    chain_stops add_op operand (suc fuel) e t ts some_fuel h.1

-- A round of a chain.
pub chain_step :
    (ops : TokenKind → Option BinOp) (operand : List Token → Parsed) (fuel : ℕ) (l r : Expr)
    (op : BinOp) (ts rest : List Token)
    → ops (op_kind op) ≡ some op
    → operand ts ≡ parsed r rest
    → chain_loop ops operand (suc fuel) l (plain (op_kind op) ∷ ts)
      ≡ chain_loop ops operand fuel (ex_binop op l r) rest
unfolding chain_loop
chain_step ops operand fuel l r op ts rest is_op read = rw (is_op, read, chain_loop) refl

-- A chain of one operand.
pub chain_one :
    (ops : TokenKind → Option BinOp) (operand : List Token → Parsed) (fuel : ℕ) (e : Expr)
    (ts rest : List Token)
    → operand ts ≡ parsed e rest
    → chain_from ops operand fuel ts ≡ chain_loop ops operand fuel e rest
unfolding chain_from
chain_one ops operand fuel e ts rest read = rw (read, chain_from) refl
