-- ===== src/Parser/Assign.antt =====
-- src/parser.c: assignments, calls as statements, and `function` statements.
use lua2wasm.Prelude.{
  ℕ, zero, suc, ◌+◌, Bytes, codes, length, List, [], ◌∷◌, Bool, true, false, ◌||◌, Option, none,
  some,
}
use lua2wasm.Lexer.Token.{TokKind}
use lua2wasm.Lexer.Scan.{Token}
use lua2wasm.Parser.Kinds.{same_kind}
use lua2wasm.Parser.Ast.{
  Expr, expr, Shape, exprs, no_exprs, AssignTarget, local, upval, builtin, global, Stmt, stmt,
  StmtShape,
}
use lua2wasm.Parser.Scope.{FuncFrame, frame_local_attrib_by_slot, is_const_attrib, upval_is_const}
use lua2wasm.Parser.State.{
  Action, plain, assign_to_const, function_not_declared, pure, give_up, gets, branch, on_option,
  check_ok, fail_with, peek, advance, if_match, expect, take_ident, name_of, ◌>>=◌, ◌>>◌,
}
use lua2wasm.Parser.Resolve.{resolve_name}
use lua2wasm.Parser.Body.{parse_function_body_ex}
use lua2wasm.Parser.Calls.{Calls}
use lua2wasm.Parser.Primary.{parse_list, make_index}
use lua2wasm.Parser.Expr.{parse_prefix_chain}
use lua2wasm.Parser.Local.{cons_some}

-- kind == EXPR_CALL || kind == EXPR_METHOD_CALL
unfoldable pub is_call : {F : Type 0} → Expr F → Bool
is_call (expr line paren (Shape.call f args)) = true
is_call (expr line paren (Shape.method_call e name args)) = true
is_call _ = false

-- kind == EXPR_VAR || kind == EXPR_INDEX
unfoldable pub is_target : {F : Type 0} → Expr F → Bool
is_target (expr line paren (Shape.var name kind idx ro)) = true
is_target (expr line paren (Shape.index e key)) = true
is_target _ = false

-- Asked for the targets above only.
unfoldable pub expr_to_target : {F : Type 0} → Expr F → AssignTarget F
expr_to_target (expr line paren (Shape.var name kind idx ro)) = AssignTarget.var kind idx
expr_to_target (expr line paren (Shape.index e key)) = AssignTarget.index e key
expr_to_target _ = AssignTarget.index Expr.null Expr.null

-- The name of a variable that may not be assigned to.
unfoldable pub const_variable : {F : Type 0} → FuncFrame → List FuncFrame → Expr F → Option Bytes
const_variable f outer (expr line paren (Shape.var name kind idx ro)) =
    let is_const : Bool = elim kind [
      | local ↦ is_const_attrib (frame_local_attrib_by_slot f idx)
      | upval ↦ upval_is_const f outer idx
      | builtin ↦ ro
      | global ↦ ro
    ] in
    elim is_const [ true ↦ some name | false ↦ none ]
const_variable f outer _ = none

abbrev function_assign : {F : Type 0} → ℕ → Expr F → ℕ → Stmt F
function_assign line base fn = stmt line (
    StmtShape.assign (expr_to_target base ∷ [])
      (exprs (expr line false (Shape.function fn)) no_exprs))

module _ {F : Type 0} (toks : List (Token F)) where
  unfoldable pub check_assignable : Expr F → Action F Bool
  check_assignable e = do
    bad ← gets (λ p. const_variable p.frame p.outer e)
    on_option bad (pure true) (λ name. fail_with toks false (assign_to_const name))

  -- .NAME, any number of times.
  unfoldable pub path_dots : ℕ → Expr F → Action F (Option (Expr F))
  path_dots zero base = give_up
  path_dots (suc fuel) base = do
    t ← peek toks
    branch (same_kind t.kind TokKind.dot)
        (do
          advance toks
          take_ident toks none (codes "expected name after '.'")
              (λ nm. path_dots fuel (make_index base nm)))
        (pure (some base))

  -- :NAME, and whether it is there.
  unfoldable pub path_method : Expr F → Action F (Option (Expr F × Bool))
  path_method base = do
    t ← peek toks
    branch (same_kind t.kind TokKind.colon)
        (do
          advance toks
          take_ident toks none (codes "expected name after ':'")
              (λ nm. pure (some (make_index base nm, true))))
        (pure (some (base, false)))

  module _ (c : Calls F) where
    -- The targets after the first one.
    unfoldable pub more_targets : ℕ → Action F (Option (List (AssignTarget F)))
    more_targets zero = give_up
    more_targets (suc fuel) = do
      if_match toks TokKind.comma
          (do
            e ← parse_prefix_chain toks c
            check_ok none (
                branch (is_target e)
                  (do
                    fine ← check_assignable e
                    branch fine
                        (do rest ← more_targets fuel; pure (cons_some (expr_to_target e) rest))
                        (pure none))
                  (fail_with toks none (plain (codes "invalid assignment target")))))
          (pure (some []))

    unfoldable pub finish_assign : ℕ → AssignTarget F → Action F (Stmt F)
    finish_assign line first = do
      targets ← more_targets (length toks + 1)
      on_option targets (pure Stmt.null) (λ rest. do
        expect toks TokKind.assign (codes "= (assignment)")
        check_ok Stmt.null do
          vals ← parse_list toks c
          on_option vals (pure Stmt.null)
              (λ es. pure (stmt line (StmtShape.assign (first ∷ rest) es))))

    unfoldable pub parse_ident_stmt : Action F (Stmt F)
    parse_ident_stmt = do
      t ← peek toks
      first ← parse_prefix_chain toks c
      check_ok Stmt.null (
          branch (is_call first) (pure (stmt t.line (StmtShape.expr_stmt first))) (
            branch (is_target first)
              (do
                fine ← check_assignable first
                branch fine (finish_assign t.line (expr_to_target first)) (pure Stmt.null))
              (fail_with toks Stmt.null
                (plain (codes "expression statement must be a call or assignment")))))

    unfoldable pub function_path : ℕ → Expr F → Action F (Stmt F)
    function_path line var = do
      dotted ← path_dots (length toks + 1) var
      on_option dotted (pure Stmt.null) (λ base. do
        target ← path_method base
        on_option target (pure Stmt.null) (λ bm. do
          fn ← parse_function_body_ex toks c.parse_block line bm.1
          check_ok Stmt.null (pure (function_assign line bm.0 fn))))

    -- `function f()` assigns f itself.
    unfoldable pub function_target : ℕ → Expr F → Action F (Stmt F)
    function_target line var = do
      t ← peek toks
      branch (same_kind t.kind TokKind.dot || same_kind t.kind TokKind.colon)
          (function_path line var)
          (do fine ← check_assignable var; branch fine (function_path line var) (pure Stmt.null))

    unfoldable pub parse_function_stmt : Action F (Stmt F)
    parse_function_stmt = do
      t ← peek toks
      advance toks
      take_ident toks Stmt.null (codes "expected function name") (λ first. do
        r ← resolve_name toks (name_of first)
        on_option r.0 (fail_with toks Stmt.null (function_not_declared (name_of first))) (λ v.
            function_target t.line (expr t.line false (Shape.var (name_of first) v.0 v.1 r.1))))
