-- ===== src/Parser/Jumps.antt =====
-- src/parser.c: goto and labels.
use lua2wasm.Prelude.{
  ℕ, zero, suc, ◌+◌, Bytes, codes, equal, length, drop, List, [], ◌∷◌, ◌++◌, Bool, true, false, not,
  ◌&&◌, ◌||◌, ltb, if◌then◌else◌, Option, none, some,
}
use lua2wasm.Lexer.Token.{TokKind}
use lua2wasm.Lexer.Scan.{Token}
use lua2wasm.Parser.Kinds.{same_kind}
use lua2wasm.Parser.Ast.{Stmt, stmt, StmtShape}
use lua2wasm.Parser.Scope.{FuncFrame, decl_local, decl_global, decl_global_all, get_elem?}
use lua2wasm.Parser.State.{
  Action, plain, jumps_into_scope, LabelRec, GotoRec, pure, give_up, gets, modify, branch,
  on_option, fail_with, peek, peek_at, advance, take_ident, name_of, ◌>>=◌, ◌>>◌,
}

unfoldable pub has_label : List LabelRec → Bytes → Bool
has_label [] name = false
has_label (l ∷ ls) name = equal l.name name || has_label ls name

-- The labels of this function begin at `fn_labels`.
unfoldable pub label_visible : List LabelRec → ℕ → Bytes → Bool
unfolding has_label
label_visible labels fn_labels name = has_label (drop fn_labels labels) name

-- A goto of this name that has not met its label.
abbrev waits_for : GotoRec → Bytes → Bool
waits_for g name = not g.resolved && equal g.name name

-- The gotos from `from` on take the label: the gotos as they are left, and the first one that
-- would jump into the scope of a declaration.
unfoldable pub resolve_gotos : List GotoRec → ℕ → Bytes → ℕ → List GotoRec × Option GotoRec
resolve_gotos [] from name nactvar = ([], none)
resolve_gotos (g ∷ gs) (suc from) name nactvar =
    let (gs', bad) = resolve_gotos gs from name nactvar in (g ∷ gs', bad)
resolve_gotos (g ∷ gs) zero name nactvar =
    let (gs', bad) = resolve_gotos gs zero name nactvar in
    if not (waits_for g name)
    then (g ∷ gs', bad)
    else if ltb g.nactvar nactvar
    then (g ∷ gs, some g)
    else (record g { resolved = true } ∷ gs', bad)

-- What the error calls the declaration: a collective one has no name.
unfoldable pub declaration_name : FuncFrame → ℕ → Bytes
declaration_name f i = elim (get_elem? f.locals i) [
  | none ↦ []
  | some d ↦ elim d.kind [
    | decl_local ↦ d.name
    | decl_global ↦ d.name
    | decl_global_all ↦ codes "*"
  ]
]

unfoldable pub closes_block : TokKind → Bool
unfolding same_kind
closes_block k =
    same_kind k TokKind.kw_end
    || same_kind k TokKind.kw_else
    || same_kind k TokKind.kw_elseif
    || same_kind k TokKind.eof

module _ {F : Type 0} (toks : List (Token F)) where
  -- From the token `i` on, only labels and semicolons follow before the block closes.
  unfoldable pub label_ends_block : ℕ → ℕ → Action F Bool
  label_ends_block zero i = give_up
  label_ends_block (suc fuel) i = do
    t ← peek_at toks i
    branch (same_kind t.kind TokKind.semi) (label_ends_block fuel (i + 1)) (
        branch (same_kind t.kind TokKind.dblcolon)
          (do
            u ← peek_at toks (i + 1)
            branch (same_kind u.kind TokKind.ident)
                (do
                  v ← peek_at toks (i + 2)
                  branch (same_kind v.kind TokKind.dblcolon) (label_ends_block fuel (i + 3))
                      (pure (closes_block t.kind)))
                (pure (closes_block t.kind)))
          (pure (closes_block t.kind)))

  -- A goto whose label is not in sight waits for it.
  unfoldable pub await_label : Bytes → ℕ → Action F (Unit {0})
  await_label name line = do
    seen ← gets (λ p. label_visible p.labels p.fn_labels name)
    branch seen (pure tt) (
        modify (λ p. record p {
          gotos =
              p.gotos
              ++ record {
                name = name;
                line = line;
                nactvar = length p.frame.locals;
                resolved = false;
              }
                ∷ [];
        }))

  unfoldable pub parse_goto : Action F (Stmt F)
  parse_goto = do
    t ← peek toks
    advance toks
    take_ident toks Stmt.null (codes "expected identifier after `goto`")
        (λ nm. do await_label (name_of nm) t.line; pure (stmt t.line (StmtShape.goto (name_of nm))))

  unfoldable pub define_label : ℕ → Bytes → Action F (Stmt F)
  define_label line name = do
    last ← label_ends_block (length toks + 1) 0
    nactvar ← gets (λ p. if last then p.blk_nactvar else length p.frame.locals)
    r ← gets (λ p. resolve_gotos p.gotos p.blk_gotos name nactvar)
    modify (λ p. record p { gotos = r.0 })
    on_option r.1
        (do
          modify (λ p. record p {
            labels = p.labels ++ record { name = name; nactvar = nactvar } ∷ [];
          })
          pure (stmt line (StmtShape.label name)))
        (λ g. do
          d ← gets (λ p. declaration_name p.frame g.nactvar)
          fail_with toks Stmt.null (jumps_into_scope name g.line d))

  unfoldable pub parse_label : Action F (Stmt F)
  parse_label = do
    t ← peek toks
    advance toks
    take_ident toks Stmt.null (codes "expected identifier inside `::...::`") (λ nm. do
      u ← peek toks
      branch (same_kind u.kind TokKind.dblcolon) (do advance toks; define_label t.line (name_of nm))
          (fail_with toks Stmt.null (plain (codes "expected `::` after label name"))))
