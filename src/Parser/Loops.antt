-- ===== src/Parser/Loops.antt =====
-- src/parser.c: the numeric and the generic for.
use lua2wasm.Prelude.{
  ℕ, zero, suc, ◌+◌, Bytes, codes, length, List, [], ◌∷◌, Bool, true, false, Option, none, some,
}
use lua2wasm.Lexer.Token.{TokKind}
use lua2wasm.Lexer.Scan.{Token}
use lua2wasm.Parser.Kinds.{same_kind}
use lua2wasm.Parser.Ast.{Expr, Exprs, Stmt, stmt, StmtShape}
use lua2wasm.Parser.Scope.{frame_mark}
use lua2wasm.Parser.State.{
  Action, plain, pure, give_up, gets, branch, on_option, check_ok, fail_with, peek, advance,
  if_match, expect, last_line, take_ident, name_of, ◌>>=◌, ◌>>◌,
}
use lua2wasm.Parser.Body.{declare, mark_last_const, scope_rewind}
use lua2wasm.Parser.Calls.{Calls, parse_expr}
use lua2wasm.Parser.Primary.{parse_list}
use lua2wasm.Parser.Local.{cons_some}

module _ {F : Type 0} (toks : List (Token F)) where
  -- The names after the first one.
  unfoldable pub more_names : ℕ → Action F (Option (List Bytes))
  more_names zero = give_up
  more_names (suc fuel) = do
    if_match toks TokKind.comma
        (take_ident toks none (codes "expected name")
          (λ nm. do rest ← more_names fuel; pure (cons_some (name_of nm) rest)))
        (pure (some []))

  -- Only the first variable is const; `first` tells whether this is it.
  unfoldable pub declare_controls : Bool → List Bytes → Action F (Option (List ℕ))
  declare_controls first [] = pure (some [])
  declare_controls first (name ∷ names) = do
    slot ← declare name
    on_option slot (fail_with toks none (plain (codes "too many locals"))) (λ s. do
      branch first mark_last_const (pure tt)
      idxs ← declare_controls false names
      pure (cons_some s idxs))

  module _ (c : Calls F) where
    unfoldable pub numeric_body : ℕ → Bytes → Expr F → Expr F → Expr F → Action F (Stmt F)
    numeric_body line name start stop step = do
      expect toks TokKind.kw_do (codes "do")
      mark ← gets (λ p. frame_mark p.frame)
      slot ← declare name
      on_option slot (fail_with toks Stmt.null (plain (codes "too many locals"))) (λ s. do
        mark_last_const
        body ← c.parse_block (TokKind.kw_end ∷ [])
        scope_rewind mark
        expect toks TokKind.kw_end (codes "end (of for)")
        check_ok Stmt.null (pure (stmt line (StmtShape.for_num name s start stop step body))))

    unfoldable pub numeric_step : ℕ → Bytes → Expr F → Expr F → Action F (Stmt F)
    numeric_step line name start stop = do
      if_match toks TokKind.comma
          (do step ← parse_expr c; check_ok Stmt.null (numeric_body line name start stop step))
          (numeric_body line name start stop Expr.null)

    unfoldable pub parse_numeric : ℕ → Bytes → Action F (Stmt F)
    parse_numeric line name = do
      advance toks
      start ← parse_expr c
      check_ok Stmt.null do
        expect toks TokKind.comma (codes ",")
        stop ← parse_expr c
        check_ok Stmt.null (numeric_step line name start stop)

    unfoldable pub generic_body : ℕ → List Bytes → Exprs F → Action F (Stmt F)
    generic_body line names es = do
      expect toks TokKind.kw_do (codes "do")
      mark ← gets (λ p. frame_mark p.frame)
      idxs ← declare_controls true names
      on_option idxs (pure Stmt.null) (λ slots. do
        body ← c.parse_block (TokKind.kw_end ∷ [])
        scope_rewind mark
        expect toks TokKind.kw_end (codes "end (of for)")
        check_ok Stmt.null (do
          end_line ← last_line toks
          pure (stmt line (StmtShape.for_gen names slots es body end_line))))

    unfoldable pub parse_generic : ℕ → Bytes → Action F (Stmt F)
    parse_generic line first = do
      names ← more_names (length toks + 1)
      on_option names (pure Stmt.null) (λ ns. do
        expect toks TokKind.kw_in (codes "in")
        vals ← parse_list toks c
        on_option vals (pure Stmt.null) (λ es. generic_body line (first ∷ ns) es))

    unfoldable pub parse_for : Action F (Stmt F)
    parse_for = do
      t ← peek toks
      advance toks
      take_ident toks Stmt.null (codes "expected identifier after `for`") (λ first. do
        u ← peek toks
        branch (same_kind u.kind TokKind.assign) (parse_numeric t.line (name_of first))
            (parse_generic t.line (name_of first)))
