-- ===== src/Parser/Expr.antt =====
-- src/parser.c: calls, indexing and operators (parse_prefix_chain, parse_unary, parse_prec).
pub mod Ends
use lua2wasm.Prelude.{
  ℕ, zero, suc, ◌+◌, Bytes, codes, length, List, [], ◌∷◌, Bool, true, false, ◌||◌, ltb,
  if◌then◌else◌, Option, none, some,
}
use lua2wasm.Lexer.Token.{TokKind}
use lua2wasm.Lexer.Scan.{Token}
use lua2wasm.Parser.Operators.{BinOp, prec_of, binop_of}
use lua2wasm.Parser.Kinds.{same_kind}
use lua2wasm.Parser.Ast.{Expr, expr, Shape, Exprs, exprs, no_exprs, UnOp}
use lua2wasm.Parser.State.{
  Parser, Action, Out, plain, pure, give_up, unreachable, branch, on_option, check_ok, fail_with,
  peek, advance, match_kind, expect, take_ident, name_of, ◌>>=◌, ◌>>◌,
}
use lua2wasm.Parser.Calls.{Calls, parse_expr}
use lua2wasm.Parser.Primary.{parse_primary, parse_list, make_index, str_expr}

abbrev pub call_expr : {F : Type 0} → ℕ → Expr F → Exprs F → Expr F
call_expr line callee args = expr line false (Shape.call callee args)

-- The level that the right operand must have: that of the operator itself, if it associates to
-- the right.
unfoldable pub next_min : TokKind → ℕ
unfolding same_kind
next_min k =
    if same_kind k TokKind.concat || same_kind k TokKind.caret then prec_of k else prec_of k + 1

module _ {F : Type 0} (toks : List (Token F)) (c : Calls F) where
  -- The arguments up to the closing parenthesis.
  unfoldable pub parse_args : Action F (Option (Exprs F))
  parse_args = do
    t ← peek toks
    branch (same_kind t.kind TokKind.rparen) (pure (some no_exprs)) (parse_list toks c)

  -- The arguments of a method call, in each of their forms.
  unfoldable pub parse_method_args : Action F (Option (Exprs F))
  parse_method_args = do
    t ← peek toks
    branch (same_kind t.kind TokKind.string)
        (do st ← advance toks; pure (some (exprs (str_expr st.line st.str_buf) no_exprs)))
        (branch (same_kind t.kind TokKind.lbrace)
          (do arg ← parse_primary toks c; check_ok none (pure (some (exprs arg no_exprs))))
          (do
            expect toks TokKind.lparen (codes "(")
            args ← parse_args
            on_option args (pure none)
                (λ es. do expect toks TokKind.rparen (codes ")"); pure (some es))))

  -- The cases of the loop over what follows a primary expression `e`, at a token of the line
  -- `line`; `k` goes on with the loop.
  module _ (line : ℕ) (e : Expr F) (k : Expr F → Action F (Expr F)) where
    unfoldable pub chain_call : Action F (Expr F)
    chain_call = do
      advance toks
      args ← parse_args
      on_option args (pure Expr.null)
          (λ es. do expect toks TokKind.rparen (codes ")"); k (call_expr line e es))

    unfoldable pub chain_field : Action F (Expr F)
    chain_field = do
      advance toks
      take_ident toks Expr.null (codes "expected field name after '.'") (λ nm. k (make_index e nm))

    unfoldable pub chain_index : Action F (Expr F)
    chain_index = do
      advance toks
      key ← parse_expr c
      check_ok Expr.null
          do expect toks TokKind.rbracket (codes "]"); k (expr line false (Shape.index e key))

    unfoldable pub chain_string : Action F (Expr F)
    chain_string = do
      st ← advance toks
      k (call_expr line e (exprs (str_expr st.line st.str_buf) no_exprs))

    unfoldable pub chain_table : Action F (Expr F)
    chain_table = do
      arg ← parse_primary toks c
      check_ok Expr.null (k (call_expr line e (exprs arg no_exprs)))

    unfoldable pub chain_method : Action F (Expr F)
    chain_method = do
      advance toks
      take_ident toks Expr.null (codes "expected method name after ':'") (λ nm. do
        args ← parse_method_args
        on_option args (pure Expr.null)
            (λ es. k (expr line false (Shape.method_call e (name_of nm) es))))

  unfoldable pub chain_loop : ℕ → Expr F → Action F (Expr F)
  chain_loop zero e = give_up
  chain_loop (suc fuel) e = do
    t ← peek toks
    branch (same_kind t.kind TokKind.lparen) (chain_call t.line e (chain_loop fuel)) (
        branch (same_kind t.kind TokKind.dot) (chain_field t.line e (chain_loop fuel)) (
          branch (same_kind t.kind TokKind.lbracket) (chain_index t.line e (chain_loop fuel)) (
            branch (same_kind t.kind TokKind.string) (chain_string t.line e (chain_loop fuel)) (
              branch (same_kind t.kind TokKind.lbrace) (chain_table t.line e (chain_loop fuel)) (
                branch (same_kind t.kind TokKind.colon) (chain_method t.line e (chain_loop fuel))
                  (pure e))))))

  unfoldable pub parse_prefix_chain : Action F (Expr F)
  parse_prefix_chain = do
    e ← parse_primary toks c
    check_ok Expr.null (chain_loop (length toks + 1) e)

  unfoldable pub unary_of : ℕ → UnOp → Action F (Expr F)
  unary_of line op = do
    advance toks
    operand ← c.parse_prec 11
    check_ok Expr.null (pure (expr line false (Shape.unop op operand)))

  unfoldable pub parse_unary : Action F (Expr F)
  parse_unary = do
    t ← peek toks
    branch (same_kind t.kind TokKind.minus) (unary_of t.line UnOp.neg) (
        branch (same_kind t.kind TokKind.kw_not) (unary_of t.line UnOp.not_) (
          branch (same_kind t.kind TokKind.hash) (unary_of t.line UnOp.len) (
            branch (same_kind t.kind TokKind.tilde) (unary_of t.line UnOp.bnot)
              parse_prefix_chain)))

  unfoldable pub binary_loop : ℕ → ℕ → Expr F → Action F (Expr F)
  binary_loop zero min_prec lhs = give_up
  binary_loop (suc fuel) min_prec lhs = do
    t ← peek toks
    branch (ltb (prec_of t.kind) min_prec) (pure lhs) (do
      advance toks
      rhs ← c.parse_prec (next_min t.kind)
      check_ok Expr.null (
          on_option (binop_of t.kind) unreachable
            (λ op. binary_loop fuel min_prec (expr t.line false (Shape.binop op lhs rhs)))))

  unfoldable pub parse_prec : ℕ → Action F (Expr F)
  parse_prec min_prec = do
    lhs ← parse_unary
    check_ok Expr.null (binary_loop (length toks + 1) min_prec lhs)
