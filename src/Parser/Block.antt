-- ===== src/Parser/Block.antt =====
-- src/parser.c: parse_stmt, parse_block, and parse, where the recursion between expressions and
-- blocks is tied. Its depth is bounded by fuel; every recursive call stands behind a token that
-- was read, so that one more than the number of tokens is enough.
use lua2wasm.Prelude.{
  ℕ, zero, suc, ◌+◌, Bytes, codes, equal, length, take, List, [], ◌∷◌, Bool, false, ◌||◌, ltb,
  Option, none,
}
use lua2wasm.Lexer.Token.{TokKind}
use lua2wasm.Lexer.Scan.{Token}
use lua2wasm.Parser.Kinds.{same_kind}
use lua2wasm.Parser.Ast.{Stmt, stmt, Block, block, Stmts, stmts, no_stmts, LuaFunc}
use lua2wasm.Parser.Scope.{frame_init}
use lua2wasm.Parser.State.{
  beyond_marks, Parser, Action, Out, Complaint, plain, pure, give_up, gets, modify, branch,
  check_ok, fail_with, peek, peek_at, advance, last_line, name_of, ◌>>=◌, ◌>>◌,
}
use lua2wasm.Parser.Resolve.{globals_declare}
use lua2wasm.Parser.Calls.{Calls}
use lua2wasm.Parser.Expr.{parse_prec}
use lua2wasm.Parser.Local.{parse_local}
use lua2wasm.Parser.Control.{
  parse_if, parse_while, parse_do, parse_return, parse_repeat, parse_break,
}
use lua2wasm.Parser.Loops.{parse_for}
use lua2wasm.Parser.Assign.{parse_ident_stmt, parse_function_stmt}
use lua2wasm.Parser.Jumps.{parse_goto, parse_label}
use lua2wasm.Parser.Global.{parse_global}

abbrev among : TokKind → List TokKind → Bool
among k [] = false
among k (s ∷ ss) = same_kind k s || among k ss

unfoldable pub is_block_end : TokKind → List TokKind → Bool
is_block_end k stops = same_kind k TokKind.eof || among k stops

-- if (!st) continue;
unfoldable pub add_stmt : {F : Type 0} → Stmt F → Stmts F → Stmts F
add_stmt Stmt.null rest = rest
add_stmt (stmt line shape) rest = stmts (stmt line shape) rest

-- What makes the name `global` a keyword.
unfoldable pub follows_global : TokKind → Bool
unfolding same_kind
follows_global k =
    same_kind k TokKind.ident
    || same_kind k TokKind.kw_function
    || same_kind k TokKind.lt
    || same_kind k TokKind.star

module _ {F : Type 0} (toks : List (Token F)) where
  module _ (c : Calls F) where
    unfoldable pub parse_name_stmt : Token F → Action F (Stmt F)
    parse_name_stmt t =
        branch (equal (name_of t) (codes "global"))
          (do
            u ← peek_at toks 1
            branch (follows_global u.kind) (parse_global toks c) (parse_ident_stmt toks c))
          (parse_ident_stmt toks c)

    unfoldable pub parse_stmt : Action F (Stmt F)
    parse_stmt = do
      t ← peek toks
      branch (same_kind t.kind TokKind.semi) (do advance toks; pure Stmt.null)
          (branch (same_kind t.kind TokKind.kw_local) (parse_local toks c) (
            branch (same_kind t.kind TokKind.kw_function) (parse_function_stmt toks c) (
              branch (same_kind t.kind TokKind.kw_if) (parse_if toks c) (
                branch (same_kind t.kind TokKind.kw_while) (parse_while toks c) (
                  branch (same_kind t.kind TokKind.kw_do) (parse_do toks c) (
                    branch (same_kind t.kind TokKind.kw_return) (parse_return toks c) (
                      branch (same_kind t.kind TokKind.kw_for) (parse_for toks c) (
                        branch (same_kind t.kind TokKind.kw_repeat) (parse_repeat toks c) (
                          branch (same_kind t.kind TokKind.kw_break) (parse_break toks c) (
                            branch (same_kind t.kind TokKind.kw_goto) (parse_goto toks) (
                              branch (same_kind t.kind TokKind.dblcolon) (parse_label toks) (
                                branch (same_kind t.kind TokKind.lparen) (parse_ident_stmt toks c) (
                                  branch (same_kind t.kind TokKind.ident) (parse_name_stmt t) (
                                    fail_with toks Stmt.null
                                      (plain (codes "expected a statement"))))))))))))))))

    unfoldable pub block_loop : ℕ → List TokKind → Action F (Stmts F)
    block_loop zero stops = give_up
    block_loop (suc fuel) stops = check_ok no_stmts do
      t ← peek toks
      branch (is_block_end t.kind stops) (pure no_stmts) (do
        st ← parse_stmt
        check_ok no_stmts (do rest ← block_loop fuel stops; pure (add_stmt st rest)))

    -- The labels of the block are visible until it ends.
    unfoldable pub parse_block : List TokKind → Action F (Block F)
    parse_block stops = do
      outer_labels ← gets (λ p. length p.labels)
      outer_gotos ← gets (λ p. p.blk_gotos)
      outer_nactvar ← gets (λ p. p.blk_nactvar)
      modify (λ p. record p { blk_gotos = length p.gotos; blk_nactvar = length p.frame.locals })
      items ← block_loop (length toks + 1) stops
      line ← last_line toks
      modify (λ p. record p {
        labels = take outer_labels p.labels;
        blk_gotos = outer_gotos;
        blk_nactvar = outer_nactvar;
      })
      pure (block items line)

  unfoldable pub tie : ℕ → Calls F
  unfolding parse_prec
  tie zero = record { parse_prec = λ n. give_up; parse_block = λ stops. give_up }
  tie (suc fuel) =
      let c = tie fuel in
      record { parse_prec = λ n. parse_prec toks c n; parse_block = λ stops. parse_block c stops }

abbrev pub declare_all : List Bytes → List Bytes → List Bytes
declare_all gs [] = gs
declare_all gs (name ∷ names) = let (gs', i) = globals_declare gs name in declare_all gs' names

-- The library tables and the well-known globals.
abbrev pub well_known : List Bytes
well_known =
    codes "math"
    ∷ codes "string"
    ∷ codes "io"
    ∷ codes "table"
    ∷ codes "utf8"
    ∷ codes "debug"
    ∷ codes "package"
    ∷ codes "os"
    ∷ codes "coroutine"
    ∷ codes "_VERSION"
    ∷ codes "_G"
    ∷ []

unfoldable pub predeclared : List Bytes
unfolding globals_declare
predeclared = declare_all [] well_known

unfoldable pub initial : {F : Type 0} → Parser F
unfolding frame_init predeclared
initial = record {
  pos = 0;
  frame = frame_init;
  outer = [];
  funcs = [];
  cur_fn = none;
  globals = predeclared;
  labels = [];
  gotos = [];
  fn_labels = 0;
  fn_gotos = 0;
  blk_gotos = 0;
  blk_nactvar = 0;
  error = none;
}

pub record ParseResult (F : Type 0) : Type 0 where
  pub main_body : Block F
  pub main_n_locals : ℕ
  pub main_captured : List Bool
  pub funcs : List (LuaFunc F)
  pub globals : List Bytes
  pub error : Option (ℕ × Complaint)

-- From the block of the chunk to the result. memcpy copies n_locals marks of the main frame.
unfoldable pub finish_parse : {F : Type 0} → Block F → Action F (ParseResult F)
finish_parse main = do
  f ← gets (λ p. p.frame)
  branch (ltb (length f.captured) f.next_slot) beyond_marks (
      gets (λ p. record {
        main_body = main;
        main_n_locals = p.frame.next_slot;
        main_captured = take p.frame.next_slot p.frame.captured;
        funcs = p.funcs;
        globals = p.globals;
        error = p.error;
      }))

unfoldable pub parse_main : {F : Type 0} → List (Token F) → Action F (ParseResult F)
unfolding finish_parse
parse_main toks = (tie toks (suc (length toks))).parse_block (TokKind.eof ∷ []) >>= finish_parse

unfoldable pub parse : {F : Type 0} → List (Token F) → Out F (ParseResult F)
unfolding parse_main initial
parse toks = parse_main toks initial
