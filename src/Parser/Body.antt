-- ===== src/Parser/Body.antt =====
-- src/parser.c, parse_function_body_ex: parameters, and the frame that is pushed and popped.
-- `parse_block` is the parser of blocks, up to one of the kinds of tokens given.
pub mod Ends
use lua2wasm.Prelude.{
  ℕ, zero, suc, ◌+◌, ◌-◌, Bytes, codes, length, take, List, [], ◌∷◌, ◌++◌, Bool, true, false, not,
  ◌&&◌, ◌||◌, ◌==◌, ltb, leb, if◌then◌else◌, Option, none, some,
}
use lua2wasm.Lexer.Token.{TokKind}
use lua2wasm.Lexer.Scan.{Token}
use lua2wasm.Parser.Kinds.{same_kind}
use lua2wasm.Parser.Ast.{
  Expr, expr, Shape, vararg, Exprs, exprs, no_exprs, Stmt, stmt, StmtShape, Block, block, Stmts,
  stmts, no_stmts, LuaFunc,
}
use lua2wasm.Parser.Scope.{
  FuncFrame, frame_init, frame_declare, frame_mark_last_const, frame_rewind, max_locals_per_fn,
}
use lua2wasm.Parser.State.{
  beyond_marks, Parser, Action, Out, Complaint, plain, GotoRec, is_ok, pure, give_up, gets, modify,
  branch, on_option, on_option, check_ok, set_error, fail_with, peek, advance, match_kind, if_match,
  expect, last_line, name_of, ◌>>=◌, ◌>>◌,
}

abbrev pub max_frame_depth : ℕ
max_frame_depth = 32

abbrev pub max_funcs : ℕ
max_funcs = 256

-- The statement that declares the named vararg table.
unfoldable pub vararg_decl : {F : Type 0} → FuncFrame → ℕ → ℕ → Stmt F
vararg_decl f slot line = stmt line (
    StmtShape.local (slot ∷ []) (1 ∷ []) (f.vararg_name ∷ [])
      (exprs (expr line false (vararg Expr.null true)) no_exprs))

unfoldable pub prepend_vararg_decl : {F : Type 0} → Block F → FuncFrame → ℕ → Block F
unfolding vararg_decl
prepend_vararg_decl (block ss end_line) f line = elim f.vararg_slot [
  | none ↦ block ss end_line
  | some slot ↦ block (stmts (vararg_decl f slot line) ss) end_line
]

unfoldable pub with_end_line : {F : Type 0} → Block F → ℕ → Block F
with_end_line (block ss end_line) line = block ss line

-- p->funcs[i] = fn
unfoldable pub put_func : {F : Type 0} → List (LuaFunc F) → ℕ → LuaFunc F → List (LuaFunc F)
put_func [] i fn = []
put_func (g ∷ gs) zero fn = fn ∷ gs
put_func (g ∷ gs) (suc i) fn = g ∷ put_func gs i fn

-- frame_declare on the innermost frame.
unfoldable pub declare : {F : Type 0} → Bytes → Action F (Option ℕ)
declare name = do
  r ← gets (λ p. frame_declare p.frame name)
  modify (λ p. record p { frame = r.0 })
  pure r.1

unfoldable pub mark_last_const : {F : Type 0} → Action F (Unit {0})
mark_last_const = modify (λ p. record p { frame = frame_mark_last_const p.frame })

-- A goto beyond the mark stands at the mark from now on.
unfoldable pub lower_gotos : List GotoRec → ℕ → ℕ → List GotoRec
lower_gotos [] from mark = []
lower_gotos (g ∷ gs) (suc from) mark = g ∷ lower_gotos gs from mark
lower_gotos (g ∷ gs) zero mark =
    (if ltb mark g.nactvar then record g { nactvar = mark } else g) ∷ lower_gotos gs zero mark

unfoldable pub scope_rewind : {F : Type 0} → ℕ → Action F (Unit {0})
unfolding lower_gotos
scope_rewind mark = modify (λ p. record p {
  frame = frame_rewind p.frame mark;
  gotos = lower_gotos p.gotos p.fn_gotos mark;
})

-- p->frame_depth--
abbrev pop_frame : List FuncFrame → FuncFrame → FuncFrame
pop_frame [] f = f
pop_frame (g ∷ gs) f = g

abbrev below : List FuncFrame → List FuncFrame
below [] = []
below (g ∷ gs) = gs

-- p->cur_fn = func_idx; p->frame_depth++; frame_init
unfoldable pub push_frame : {F : Type 0} → ℕ → Action F (Unit {0})
push_frame idx =
    modify (λ p. record p { cur_fn = some idx; frame = frame_init; outer = p.frame ∷ p.outer })

-- p->frame_depth--; p->cur_fn = prev_fn
unfoldable pub leave_frame : {F : Type 0} → Option ℕ → Action F (Unit {0})
leave_frame prev_fn =
    modify
      (λ p. record p { frame = pop_frame p.outer p.frame; outer = below p.outer; cur_fn = prev_fn })

module _ {F : Type 0} (toks : List (Token F)) where
  -- `...`, and the name of a vararg table.
  unfoldable pub parse_vararg : Action F (Unit {0})
  parse_vararg = do
    advance toks
    modify (λ p. record p { frame = record p.frame { is_vararg = true } })
    t ← peek toks
    branch (same_kind t.kind TokKind.ident)
        (do
          vn ← advance toks
          slot ← declare (name_of vn)
          modify (λ p. record p { frame = record p.frame { vararg_slot = slot } })
          on_option slot (set_error toks (plain (codes "too many locals"))) (λ _. do
            mark_last_const
            modify (λ p. record p { frame = record p.frame { vararg_name = name_of vn } })))
        (pure tt)

  -- The loop over the parameters; returns their number.
  unfoldable pub parse_params : ℕ → ℕ → Action F ℕ
  parse_params zero n = give_up
  parse_params (suc fuel) n = do
    t ← peek toks
    branch (same_kind t.kind TokKind.ellipsis) (do parse_vararg; pure n)
        (branch (same_kind t.kind TokKind.ident)
          (do
            pn ← advance toks
            slot ← declare (name_of pn)
            on_option slot (fail_with toks n (plain (codes "too many params")))
                (λ _. do if_match toks TokKind.comma (parse_params fuel (n + 1)) (pure (n + 1))))
          (fail_with toks n (plain (codes "expected parameter name"))))

  unfoldable pub parse_param_list : ℕ → Action F ℕ
  parse_param_list n = do
    t ← peek toks
    branch (same_kind t.kind TokKind.rparen) (pure n) (parse_params (length toks + 1) n)

  -- A function's entry in p->funcs before its body is read.
  abbrev pub func_new : ℕ → Option ℕ → ℕ → LuaFunc F
  func_new idx parent line = record {
    func_idx = idx;
    parent_idx = parent;
    n_params = 0;
    n_locals = 0;
    upvalues = [];
    body = block no_stmts 0;
    line = line;
    is_vararg = false;
    captured = [];
  }

  -- The body of the function, from its own frame. memcpy copies n_locals marks.
  unfoldable pub finish_func : ℕ → Option ℕ → ℕ → ℕ → Block F → Parser F → Parser F
  finish_func idx parent line n_params body p =
      let f = p.frame in
      let n = f.next_slot in
      record p {
        funcs = put_func p.funcs idx (record {
          func_idx = idx;
          parent_idx = parent;
          n_params = n_params;
          n_locals = n;
          upvalues = f.upvalues;
          body = body;
          line = line;
          is_vararg = f.is_vararg;
          captured = take n f.captured;
        });
      }

  unfoldable pub store_func : ℕ → Option ℕ → ℕ → ℕ → Block F → Action F (Unit {0})
  store_func idx parent line n_params body = do
    f ← gets (λ p. p.frame)
    branch (ltb (length f.captured) f.next_slot) beyond_marks
        (modify (finish_func idx parent line n_params body))

  module _ (parse_block : List TokKind → Action F (Block F)) where
    -- The body and its `end`, with the labels and gotos of the function on their own.
    unfoldable pub parse_body_block : Action F (Block F)
    parse_body_block = do
      outer_labels ← gets (λ p. p.fn_labels)
      outer_gotos ← gets (λ p. p.fn_gotos)
      modify (λ p. record p { fn_labels = length p.labels; fn_gotos = length p.gotos })
      body ← parse_block (TokKind.kw_end ∷ [])
      modify (λ p. record p {
        gotos = take p.fn_gotos p.gotos;
        fn_labels = outer_labels;
        fn_gotos = outer_gotos;
      })
      expect toks TokKind.kw_end (codes "end (of function)")
      line ← last_line toks
      pure (with_end_line body line)

    unfoldable pub in_new_frame : ℕ → ℕ → Bool → Option ℕ → Action F ℕ
    in_new_frame idx line with_self prev_fn = do
      push_frame idx
      branch with_self (do declare (codes "self"); pure tt) (pure tt)
      expect toks TokKind.lparen (codes "( in function declaration")
      n_params ← parse_param_list (if with_self then 1 else 0)
      expect toks TokKind.rparen (codes ")")
      body ← parse_body_block
      full ← gets (λ p. if is_ok p then prepend_vararg_decl body p.frame line else body)
      store_func idx prev_fn line n_params full
      leave_frame prev_fn
      pure idx

    -- Returns the func_idx; on an error it is not used.
    unfoldable pub parse_function_body_ex : ℕ → Bool → Action F ℕ
    parse_function_body_ex line with_self = do
      count ← gets (λ p. length p.funcs)
      branch (leb max_funcs count) (fail_with toks 0 (plain (codes "too many functions"))) (do
        prev_fn ← gets (λ p. p.cur_fn)
        modify (λ p. record p { funcs = p.funcs ++ func_new count prev_fn line ∷ [] })
        depth ← gets (λ p. length p.outer)
        branch (leb max_frame_depth (depth + 1))
            (fail_with toks 0 (plain (codes "function nesting too deep")))
            (in_new_frame count line with_self prev_fn))
