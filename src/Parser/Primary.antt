-- ===== src/Parser/Primary.antt =====
-- src/parser.c, parse_primary, and the list of expressions of calls and assignments. A loop whose
-- body returns NULL from the whole function returns `none` for that.
pub mod Ends
use lua2wasm.Prelude.{
  ℕ, zero, suc, ◌+◌, Bytes, codes, length, List, [], ◌∷◌, Bool, true, false, ◌||◌, Option, none,
  some,
}
use lua2wasm.Lexer.Token.{TokKind}
use lua2wasm.Lexer.Scan.{Token}
use lua2wasm.Parser.Kinds.{same_kind}
use lua2wasm.Parser.Ast.{
  Expr, expr, Shape, Exprs, exprs, no_exprs, Entries, no_entries, positional, key_expr, VarKind,
}
use lua2wasm.Parser.Scope.{FuncFrame}
use lua2wasm.Parser.State.{
  Parser, Action, Out, plain, undefined, pure, give_up, gets, branch, on_option, check_ok,
  fail_with, set_error, peek, peek_at, advance, match_kind, if_match, expect, name_of, ◌>>=◌, ◌>>◌,
}
use lua2wasm.Parser.Resolve.{resolve_name}
use lua2wasm.Parser.Body.{parse_function_body_ex}
use lua2wasm.Parser.Calls.{Calls, parse_expr}

abbrev pub str_expr : {F : Type 0} → ℕ → Bytes → Expr F
str_expr line s = expr line false (Shape.string s)

-- base[name]
unfoldable pub make_index : {F : Type 0} → Expr F → Token F → Expr F
make_index base name = expr name.line false (Shape.index base (str_expr name.line (name_of name)))

-- inner->paren = 1
unfoldable pub with_paren : {F : Type 0} → Expr F → Expr F
with_paren Expr.null = Expr.null
with_paren (expr line paren shape) = expr line true shape

abbrev pub prepend : {F : Type 0} → Expr F → Option (Exprs F) → Option (Exprs F)
prepend a none = none
prepend a (some es) = some (exprs a es)

abbrev prepend_entry :
    {F : Type 0} → Option (Expr F) → Expr F → Option (Entries F) → Option (Entries F)
prepend_entry k v none = none
prepend_entry none v (some es) = some (positional v es)
prepend_entry (some k) v (some es) = some (key_expr k v es)

-- In a function with a named vararg table, the read of it.
unfoldable pub vararg_tab : {F : Type 0} → FuncFrame → ℕ → Expr F
vararg_tab f line = elim f.vararg_slot [
  | none ↦ Expr.null
  | some slot ↦ expr line false (Shape.var f.vararg_name VarKind.local slot false)
]

module _ {F : Type 0} (toks : List (Token F)) (c : Calls F) where
  -- do { parse_expr } while (match(p, TOK_COMMA))
  unfoldable pub parse_exprs : ℕ → Action F (Option (Exprs F))
  parse_exprs zero = give_up
  parse_exprs (suc fuel) = do
    a ← parse_expr c
    check_ok none do
      if_match toks TokKind.comma (do es ← parse_exprs fuel; pure (prepend a es))
          (pure (some (exprs a no_exprs)))

  unfoldable pub parse_list : Action F (Option (Exprs F))
  parse_list = parse_exprs (length toks + 1)

  -- One entry of a table: its key, if it has one, and its value; `none` is the return of NULL.
  unfoldable pub parse_positional : Action F (Option (Option (Expr F) × Expr F))
  parse_positional = do v ← parse_expr c; check_ok none (pure (some (none, v)))

  unfoldable pub parse_key_expr : Action F (Option (Option (Expr F) × Expr F))
  parse_key_expr = do
    advance toks
    k ← parse_expr c
    check_ok none do
      expect toks TokKind.rbracket (codes "]")
      expect toks TokKind.assign (codes "=")
      v ← parse_expr c
      check_ok none (pure (some (some k, v)))

  -- name = value
  unfoldable pub parse_key_name : Action F (Option (Option (Expr F) × Expr F))
  parse_key_name = do
    nm ← advance toks
    advance toks
    v ← parse_expr c
    check_ok none (pure (some (some (str_expr nm.line (name_of nm)), v)))

  unfoldable pub parse_entry : Action F (Option (Option (Expr F) × Expr F))
  parse_entry = do
    t ← peek toks
    branch (same_kind t.kind TokKind.lbracket) parse_key_expr (
        branch (same_kind t.kind TokKind.ident)
          (do
            u ← peek_at toks 1
            branch (same_kind u.kind TokKind.assign) parse_key_name parse_positional)
          parse_positional)

  unfoldable pub parse_entries : ℕ → Action F (Option (Entries F))
  parse_entries zero = give_up
  parse_entries (suc fuel) = do
    t ← peek toks
    branch (same_kind t.kind TokKind.rbrace || same_kind t.kind TokKind.eof)
        (pure (some no_entries))
        (do
          e ← parse_entry
          on_option e (pure none) (λ kv. do
            if_match toks TokKind.comma
                (do es ← parse_entries fuel; pure (prepend_entry kv.0 kv.1 es))
                (do
                  if_match toks TokKind.semi
                      (do es ← parse_entries fuel; pure (prepend_entry kv.0 kv.1 es))
                      (pure (prepend_entry kv.0 kv.1 (some no_entries))))))

  unfoldable pub parse_table : ℕ → Action F (Expr F)
  parse_table line = do
    advance toks
    entries ← parse_entries (length toks + 1)
    on_option entries (pure Expr.null)
        (λ es. do expect toks TokKind.rbrace (codes "}"); pure (expr line false (Shape.table es)))

  -- A name: what it is resolved to.
  unfoldable pub parse_var : ℕ → Action F (Expr F)
  parse_var line = do
    t ← advance toks
    r ← resolve_name toks (name_of t)
    on_option r.0 (fail_with toks Expr.null (undefined (name_of t)))
        (λ v. pure (expr line false (Shape.var (name_of t) v.0 v.1 r.1)))

  unfoldable pub parse_paren : Action F (Expr F)
  parse_paren = do
    advance toks
    inner ← parse_expr c
    check_ok Expr.null
        do expect toks TokKind.rparen (codes ")"); check_ok Expr.null (pure (with_paren inner))

  unfoldable pub parse_ellipsis : ℕ → Action F (Expr F)
  parse_ellipsis line = do
    advance toks
    f ← gets (λ p. p.frame)
    branch f.is_vararg (pure (expr line false (Shape.vararg (vararg_tab f line) false)))
        (fail_with toks Expr.null (plain (codes "cannot use `...` outside a vararg function")))

  unfoldable pub parse_function : ℕ → Action F (Expr F)
  parse_function line = do
    advance toks
    fn ← parse_function_body_ex toks c.parse_block line false
    check_ok Expr.null (pure (expr line false (Shape.function fn)))

  -- A literal of one token.
  abbrev literal : ℕ → Shape F → Action F (Expr F)
  literal line shape = do advance toks; pure (expr line false shape)

  unfoldable pub parse_primary : Action F (Expr F)
  parse_primary = do
    t ← peek toks
    branch (same_kind t.kind TokKind.kw_nil) (literal t.line Shape.nil) (
        branch (same_kind t.kind TokKind.kw_true) (literal t.line Shape.true_) (
          branch (same_kind t.kind TokKind.kw_false) (literal t.line Shape.false_) (
            branch (same_kind t.kind TokKind.int) (literal t.line (Shape.int t.i_val)) (
              branch (same_kind t.kind TokKind.float) (literal t.line (Shape.float t.f_val)) (
                branch (same_kind t.kind TokKind.string) (literal t.line (Shape.string t.str_buf)) (
                  branch (same_kind t.kind TokKind.ident) (parse_var t.line) (
                    branch (same_kind t.kind TokKind.lparen) parse_paren (
                      branch (same_kind t.kind TokKind.ellipsis) (parse_ellipsis t.line) (
                        branch (same_kind t.kind TokKind.kw_function) (parse_function t.line) (
                          branch (same_kind t.kind TokKind.lbrace) (parse_table t.line) (
                            fail_with toks Expr.null
                              (plain (codes "expected expression")))))))))))))
