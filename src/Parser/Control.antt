-- ===== src/Parser/Control.antt =====
-- src/parser.c: if, while, do, repeat, return and break.
use lua2wasm.Prelude.{
  ℕ, zero, suc, ◌+◌, codes, length, List, [], ◌∷◌, Bool, true, false, ◌||◌, Option, none, some,
}
use lua2wasm.Lexer.Token.{TokKind}
use lua2wasm.Lexer.Scan.{Token}
use lua2wasm.Parser.Kinds.{same_kind}
use lua2wasm.Parser.Ast.{
  Expr, no_exprs, Stmt, stmt, StmtShape, Block, block, no_stmts, Arms, arm, no_arms,
}
use lua2wasm.Parser.Scope.{frame_mark}
use lua2wasm.Parser.State.{
  Action, pure, give_up, gets, branch, on_option, check_ok, peek, advance, match_kind, if_match,
  expect, last_line, ◌>>=◌, ◌>>◌,
}
use lua2wasm.Parser.Body.{scope_rewind, with_end_line}
use lua2wasm.Parser.Calls.{Calls, parse_expr}
use lua2wasm.Parser.Primary.{parse_list}

abbrev arm_stops : List TokKind
arm_stops = TokKind.kw_else ∷ TokKind.kw_elseif ∷ TokKind.kw_end ∷ []

-- Block b = {0}
abbrev no_block : {F : Type 0} → Block F
no_block = block no_stmts 0

abbrev prepend_arm : {F : Type 0} → Expr F × Block F → Option (Arms F) → Option (Arms F)
prepend_arm cb none = none
prepend_arm cb (some arms) = some (arm cb.0 cb.1 arms)

unfoldable pub looks_like_block_end : TokKind → Bool
unfolding same_kind
looks_like_block_end k =
    same_kind k TokKind.eof
    || same_kind k TokKind.kw_end
    || same_kind k TokKind.kw_else
    || same_kind k TokKind.kw_elseif
    || same_kind k TokKind.kw_until
    || same_kind k TokKind.semi

module _ {F : Type 0} (toks : List (Token F)) (c : Calls F) where
  -- A block whose declarations go out of scope at its end.
  unfoldable pub scoped_block : List TokKind → Action F (Block F)
  scoped_block stops = do
    mark ← gets (λ p. frame_mark p.frame)
    body ← c.parse_block stops
    scope_rewind mark
    pure body

  -- What follows `if` and `elseif`.
  unfoldable pub parse_arm : Action F (Option (Expr F × Block F))
  parse_arm = do
    cond ← parse_expr c
    check_ok none do
      expect toks TokKind.kw_then (codes "then")
      body ← scoped_block arm_stops
      check_ok none (pure (some (cond, body)))

  unfoldable pub elseif_arms : ℕ → Action F (Option (Arms F))
  elseif_arms zero = give_up
  elseif_arms (suc fuel) = do
    t ← peek toks
    branch (same_kind t.kind TokKind.kw_elseif)
        (do
          advance toks
          a ← parse_arm
          on_option a (pure none) (λ cb. do rest ← elseif_arms fuel; pure (prepend_arm cb rest)))
        (pure (some no_arms))

  unfoldable pub parse_else : Action F (Option (Bool × Block F))
  parse_else = do
    if_match toks TokKind.kw_else
        (do body ← scoped_block (TokKind.kw_end ∷ []); check_ok none (pure (some (true, body))))
        (pure (some (false, no_block)))

  unfoldable pub parse_if : Action F (Stmt F)
  parse_if = do
    t ← peek toks
    advance toks
    first ← parse_arm
    on_option first (pure Stmt.null) (λ cb. do
      rest ← elseif_arms (length toks + 1)
      on_option rest (pure Stmt.null) (λ arms. do
        else_part ← parse_else
        on_option else_part (pure Stmt.null) (λ e. do
          expect toks TokKind.kw_end (codes "end (of if)")
          pure (stmt t.line (StmtShape.if_stmt (arm cb.0 cb.1 arms) e.0 e.1)))))

  unfoldable pub parse_while : Action F (Stmt F)
  parse_while = do
    t ← peek toks
    advance toks
    cond ← parse_expr c
    check_ok Stmt.null do
      expect toks TokKind.kw_do (codes "do")
      body ← scoped_block (TokKind.kw_end ∷ [])
      expect toks TokKind.kw_end (codes "end (of while)")
      check_ok Stmt.null (pure (stmt t.line (StmtShape.while_stmt cond body)))

  unfoldable pub parse_do : Action F (Stmt F)
  parse_do = do
    t ← peek toks
    advance toks
    body ← scoped_block (TokKind.kw_end ∷ [])
    expect toks TokKind.kw_end (codes "end (of do)")
    check_ok Stmt.null (pure (stmt t.line (StmtShape.do_stmt body)))

  unfoldable pub parse_return : Action F (Stmt F)
  parse_return = do
    t ← peek toks
    advance toks
    u ← peek toks
    vals ← branch (looks_like_block_end u.kind) (pure (some no_exprs)) (parse_list toks c)
    on_option vals (pure Stmt.null)
        (λ es. do match_kind toks TokKind.semi; pure (stmt t.line (StmtShape.return_stmt es)))

  -- The condition is read in the scope of the body.
  unfoldable pub parse_repeat : Action F (Stmt F)
  parse_repeat = do
    t ← peek toks
    advance toks
    mark ← gets (λ p. frame_mark p.frame)
    body ← c.parse_block (TokKind.kw_until ∷ [])
    expect toks TokKind.kw_until (codes "until")
    cond ← parse_expr c
    end_line ← last_line toks
    scope_rewind mark
    check_ok Stmt.null (pure (stmt t.line (StmtShape.repeat (with_end_line body end_line) cond)))

  unfoldable pub parse_break : Action F (Stmt F)
  parse_break = do t ← peek toks; advance toks; pure (stmt t.line StmtShape.break)
