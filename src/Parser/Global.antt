-- ===== src/Parser/Global.antt =====
-- src/parser.c: `global` declarations.
use lua2wasm.Prelude.{
  ℕ, zero, suc, ◌+◌, Bytes, codes, length, List, [], ◌∷◌, Bool, true, false, ◌==◌, Option, none,
  some,
}
use lua2wasm.Lexer.Token.{TokKind}
use lua2wasm.Lexer.Scan.{Token}
use lua2wasm.Parser.Ast.{expr, Shape, exprs, no_exprs, Stmt, stmt, StmtShape}
use lua2wasm.Parser.Scope.{frame_declare_global}
use lua2wasm.Parser.State.{
  Action, plain, pure, give_up, gets, modify, branch, on_option, check_ok, set_error_at, fail_with,
  peek, advance, if_match, take_ident, name_of, ◌>>=◌, ◌>>◌,
}
use lua2wasm.Parser.Resolve.{global_index}
use lua2wasm.Parser.Body.{parse_function_body_ex}
use lua2wasm.Parser.Calls.{Calls}
use lua2wasm.Parser.Local.{optional_attribute, optional_values, cons_some}

-- frame_declare_global on the innermost frame; the test tells whether there was room.
unfoldable pub declare_global : {F : Type 0} → Option Bytes → ℕ → Action F Bool
declare_global name attrib = do
  r ← gets (λ p. frame_declare_global p.frame name attrib)
  modify (λ p. record p { frame = r.0 })
  pure r.1

module _ {F : Type 0} (toks : List (Token F)) where
  -- The names with their attributes; `why` is the error for a missing name.
  unfoldable pub global_names : ℕ → Bytes → ℕ → Action F (Option (List (Bytes × ℕ)))
  global_names zero why default_attrib = give_up
  global_names (suc fuel) why default_attrib = take_ident toks none why (λ nm. do
    a ← optional_attribute toks default_attrib
    on_option a (pure none) (λ attrib.
        branch (attrib == 2)
          (do
            set_error_at nm.line (plain (codes "global variables cannot be to-be-closed"))
            pure none)
          (do
            if_match toks TokKind.comma
                (do
                  rest ← global_names fuel (codes "expected identifier") default_attrib
                  pure (cons_some (name_of nm, attrib) rest))
                (pure (some ((name_of nm, attrib) ∷ []))))))

  unfoldable pub global_indices : List (Bytes × ℕ) → Action F (Option (List ℕ))
  global_indices [] = pure (some [])
  global_indices (na ∷ rest) = do
    g ← global_index toks na.0
    on_option g (pure none) (λ i. do idxs ← global_indices rest; pure (cons_some i idxs))

  -- Whether there was room for all of them.
  unfoldable pub declare_globals : List (Bytes × ℕ) → Action F Bool
  declare_globals [] = pure true
  declare_globals (na ∷ rest) = do
    room ← declare_global (some na.0) na.1
    branch room (declare_globals rest)
        (fail_with toks false (plain (codes "too many declarations")))

  -- `global *`
  unfoldable pub parse_collective : ℕ → Action F (Stmt F)
  parse_collective attrib = do
    room ← declare_global none attrib
    branch room (pure Stmt.null) (fail_with toks Stmt.null (plain (codes "too many declarations")))

  module _ (c : Calls F) where
    unfoldable pub global_function_body : ℕ → ℕ → Action F (Stmt F)
    global_function_body line gi = do
      fn ← parse_function_body_ex toks c.parse_block line false
      check_ok Stmt.null (
          pure (
            stmt line (
              StmtShape.global_decl (gi ∷ [])
                (exprs (expr line false (Shape.function fn)) no_exprs))))

    unfoldable pub parse_global_function : ℕ → Action F (Stmt F)
    parse_global_function line = take_ident toks Stmt.null (codes "expected function name") (λ nm.
        do
          g ← global_index toks (name_of nm)
          on_option g (pure Stmt.null) (λ gi. do
            room ← declare_global (some (name_of nm)) 0
            branch room (global_function_body line gi)
                (fail_with toks Stmt.null (plain (codes "too many declarations")))))

    -- The names come into scope after their values.
    unfoldable pub finish_globals : ℕ → List (Bytes × ℕ) → Action F (Stmt F)
    finish_globals line names = do
      indices ← global_indices names
      on_option indices (pure Stmt.null) (λ idxs. do
        vals ← optional_values toks c
        on_option vals (pure Stmt.null) (λ vs. do
          room ← declare_globals names
          branch room (pure (stmt line (StmtShape.global_decl idxs vs))) (pure Stmt.null)))

    unfoldable pub parse_global_list : ℕ → ℕ → Action F (Stmt F)
    parse_global_list line default_attrib = do
      if_match toks TokKind.star (parse_collective default_attrib) (do
        names ←
            global_names (length toks + 1) (codes "expected identifier after `global`")
              default_attrib
        on_option names (pure Stmt.null) (λ ns. finish_globals line ns))

    unfoldable pub parse_global_attribs : ℕ → Action F (Stmt F)
    parse_global_attribs line = do
      d ← optional_attribute toks 0
      on_option d (pure Stmt.null) (λ default_attrib.
          branch (default_attrib == 2)
            (fail_with toks Stmt.null (plain (codes "global variables cannot be to-be-closed")))
            (parse_global_list line default_attrib))

    unfoldable pub parse_global : Action F (Stmt F)
    parse_global = do
      t ← peek toks
      advance toks
      if_match toks TokKind.kw_function (parse_global_function t.line) (parse_global_attribs t.line)
