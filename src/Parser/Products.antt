-- ===== src/Parser/Products.antt =====
-- Products as `parseTerm` and `parseExpr` in zig/src/parser.zig read them.
use datalog_dafsa.Base.{
  ℕ, suc, ◌+◌, ◌≤◌, ◌≡◌, refl, ap, ◌∙◌, true, false, some, List, ◌∷◌, ◌++◌, arith, append_assoc,
}
use datalog_dafsa.Parser.{
  Token, BinOp, Expr, ex_binop, Parsed, mul_op, add_op, chain_loop, chain_from, parse_factor,
  parse_term, parse_expr,
}
use datalog_dafsa.Parser.Print.{
  sum_level, product_level, atom_level, is_sum, op_kind, plain, wrapped, print, size, links,
  EndsProduct,
}
use datalog_dafsa.Parser.Chains.{chain_step}
use datalog_dafsa.Parser.Chained.{nesting, Reads, term_read, nesting_fits, chain_single}
use datalog_dafsa.Parser.Operations.{product_nesting, product_nesting_fits, parens_read}

-- A product of a tree and a factor.
pub product_links :
    (op : BinOp) (l r : Expr)
    → is_sum op ≡ false
    → (links false (ex_binop op l r) ≡ suc (links false l)) × (links true (ex_binop op l r) ≡ 0)
unfolding links
product_links op l r mults = (rw mults refl, rw mults refl)

pub product_print :
    (op : BinOp) (l r : Expr)
    → is_sum op ≡ false
    → (print sum_level (ex_binop op l r) ≡ print product_level (ex_binop op l r))
      × (print atom_level (ex_binop op l r) ≡ wrapped (print sum_level (ex_binop op l r)))
      × (print product_level (ex_binop op l r)
          ≡ print product_level l ++ plain (op_kind op) ∷ print atom_level r)
unfolding print
product_print op l r mults = (rw mults refl, refl, rw mults refl)

pub product_chained :
    (op : BinOp) (l r : Expr) (n k : ℕ) (rest : List Token)
    → is_sum op ≡ false
    → mul_op (op_kind op) ≡ some op
    → Reads l
    → Reads r
    → size (ex_binop op l r) ≤ suc n
    → chain_from mul_op
        (parse_factor (parse_expr n))
        (links false (ex_binop op l r) + k)
        (print product_level (ex_binop op l r) ++ rest)
      ≡ chain_loop mul_op (parse_factor (parse_expr n)) k (ex_binop op l r) rest
product_chained op l r n k rest mults muls reads_l reads_r small =
    let factor : List Token → Parsed = parse_factor (parse_expr n) in
    let after : List Token = plain (op_kind op) ∷ (print atom_level r ++ rest) in
    let split : print product_level (ex_binop op l r) ++ rest ≡ print product_level l ++ after =
      ap (λ (ts : List Token). ts ++ rest) (product_print op l r mults).2
      ∙ append_assoc (print product_level l) (plain (op_kind op) ∷ print atom_level r) rest in
    let count : links false (ex_binop op l r) + k ≡ links false l + suc k =
      omega (arith, (product_links op l r mults).0) in
    ap (λ (m : ℕ). chain_from mul_op factor m (print product_level (ex_binop op l r) ++ rest)) count
    ∙ ap (chain_from mul_op factor (links false l + suc k)) split
    ∙ reads_l.term_chain n (suc k) after (nesting_fits l n (omega arith))
    ∙ chain_step mul_op factor k l r op (print atom_level r ++ rest) rest muls
        (reads_r.factor n rest (omega arith))

pub product_stage :
    (op : BinOp) (l r : Expr)
    → is_sum op ≡ false
    → mul_op (op_kind op) ≡ some op
    → Reads l
    → Reads r
    → Reads (ex_binop op l r)
product_stage op l r mults muls reads_l reads_r =
    let e : Expr = ex_binop op l r in
    let (as_sum, as_atom, as_term) = product_print op l r mults in
    let chained : (n k : ℕ) (rest : List Token)
        → nesting e ≤ suc n
        → chain_from mul_op (parse_factor (parse_expr n)) (links false e + k)
            (print product_level e ++ rest)
          ≡ chain_loop mul_op (parse_factor (parse_expr n)) k e rest =
      λ n k rest small.
        product_chained op l r n k rest mults muls reads_l reads_r
          (product_nesting op l r n mults small) in
    let summed : (n k : ℕ) (rest : List Token)
        → size e ≤ suc n
        → EndsProduct rest
        → chain_from add_op (parse_term (parse_expr n)) (links true e + k)
            (print sum_level e ++ rest)
          ≡ chain_loop add_op (parse_term (parse_expr n)) k e rest =
      λ n k rest small follows. rw as_sum (
        chain_single add_op (parse_term (parse_expr n)) (links true e) k e
          (print product_level e ++ rest) rest (product_links op l r mults).1
          (term_read e n rest chained (product_nesting_fits op l r n mults small) follows)) in
    record {
      factor = λ n rest small. parens_read e n rest summed as_atom (omega arith) small;
      term_chain = chained;
      sum_chain = summed;
    }
