-- ===== src/Parser/Local.antt =====
-- src/parser.c: attributes, and `local` statements. A loop whose body returns NULL from the whole
-- function returns `none` for that.
use lua2wasm.Prelude.{
  ℕ, zero, suc, ◌+◌, Bytes, codes, equal, length, List, [], ◌∷◌, Bool, false, not, ◌||◌, ◌==◌, ltb,
  if◌then◌else◌, Option, none, some,
}
use lua2wasm.Lexer.Token.{TokKind}
use lua2wasm.Lexer.Scan.{Token}
use lua2wasm.Parser.Kinds.{same_kind}
use lua2wasm.Parser.Ast.{Exprs, no_exprs, Stmt, stmt, StmtShape}
use lua2wasm.Parser.Scope.{set_last_attrib}
use lua2wasm.Parser.State.{
  Action, plain, pure, give_up, modify, branch, on_option, check_ok, fail_with, peek, advance,
  if_match, take_ident, name_of, ◌>>=◌, ◌>>◌,
}
use lua2wasm.Parser.Body.{declare, parse_function_body_ex}
use lua2wasm.Parser.Calls.{Calls}
use lua2wasm.Parser.Primary.{parse_list}

-- 1 = const, 2 = close.
unfoldable pub attribute_of : Bytes → Option ℕ
attribute_of name =
    if equal name (codes "const")
    then some 1
    else if equal name (codes "close")
    then some 2
    else none

abbrev pub cons_some {ℓ} : {A : Type ℓ} → A → Option (List A) → Option (List A)
cons_some x none = none
cons_some x (some xs) = some (x ∷ xs)

unfoldable pub count_close : List (Bytes × ℕ) → ℕ
count_close [] = 0
count_close ((name, attrib) ∷ ns) = (if attrib == 2 then 1 else 0) + count_close ns

unfoldable pub any_attrib : List (Bytes × ℕ) → Bool
any_attrib [] = false
any_attrib ((name, attrib) ∷ ns) = not (attrib == 0) || any_attrib ns

abbrev pub names_of : List (Bytes × ℕ) → List Bytes
names_of [] = []
names_of ((name, attrib) ∷ ns) = name ∷ names_of ns

abbrev pub attribs_of : List (Bytes × ℕ) → List ℕ
attribs_of [] = []
attribs_of ((name, attrib) ∷ ns) = attrib ∷ attribs_of ns

-- Without any attribute, the attributes and the names are null.
unfoldable pub local_stmt : {F : Type 0} → ℕ → List ℕ → List (Bytes × ℕ) → Exprs F → Stmt F
unfolding any_attrib
local_stmt line idxs names values =
    if any_attrib names
    then stmt line (StmtShape.local idxs (attribs_of names) (names_of names) values)
    else stmt line (StmtShape.local idxs [] [] values)

-- f->locals[f->local_count - 1].attrib = attrib
unfoldable pub set_last : {F : Type 0} → ℕ → Action F (Unit {0})
set_last attrib =
    modify
      (λ p. record p { frame = record p.frame { locals = set_last_attrib p.frame.locals attrib } })

module _ {F : Type 0} (toks : List (Token F)) where
  -- The return value -1 is `none`.
  unfoldable pub parse_attribute : Action F (Option ℕ)
  parse_attribute = do
    advance toks
    take_ident toks none (codes "expected attribute name after '<'") (λ a.
        on_option (attribute_of (name_of a))
          (fail_with toks none (plain (codes "unknown attribute")))
          (λ attrib. do
            if_match toks TokKind.gt (pure (some attrib))
                (fail_with toks none (plain (codes "expected '>' after attribute")))))

  unfoldable pub optional_attribute : ℕ → Action F (Option ℕ)
  optional_attribute default_attrib = do
    t ← peek toks
    branch (same_kind t.kind TokKind.lt) parse_attribute (pure (some default_attrib))

  -- The names with their attributes; `why` is the error for a missing name.
  unfoldable pub local_names : ℕ → Bytes → ℕ → Action F (Option (List (Bytes × ℕ)))
  local_names zero why default_attrib = give_up
  local_names (suc fuel) why default_attrib = take_ident toks none why (λ nm. do
    a ← optional_attribute default_attrib
    on_option a (pure none) (λ attrib. do
      if_match toks TokKind.comma
          (do
            rest ← local_names fuel (codes "expected identifier") default_attrib
            pure (cons_some (name_of nm, attrib) rest))
          (pure (some ((name_of nm, attrib) ∷ [])))))

  unfoldable pub set_attrib : ℕ → Action F (Unit {0})
  set_attrib attrib = branch (attrib == 0) (pure tt) (set_last attrib)

  unfoldable pub declare_locals : List (Bytes × ℕ) → Action F (Option (List ℕ))
  declare_locals [] = pure (some [])
  declare_locals (na ∷ rest) = do
    slot ← declare na.0
    on_option slot (fail_with toks none (plain (codes "too many locals")))
        (λ s. do set_attrib na.1; idxs ← declare_locals rest; pure (cons_some s idxs))

  module _ (c : Calls F) where
    -- = expr, ...
    unfoldable pub optional_values : Action F (Option (Exprs F))
    optional_values = do if_match toks TokKind.assign (parse_list toks c) (pure (some no_exprs))

    unfoldable pub parse_local_function : ℕ → Action F (Stmt F)
    parse_local_function line = do
      advance toks
      take_ident toks Stmt.null (codes "expected function name") (λ nm. do
        slot ← declare (name_of nm)
        on_option slot (fail_with toks Stmt.null (plain (codes "too many locals"))) (λ s. do
          fn ← parse_function_body_ex toks c.parse_block line false
          check_ok Stmt.null (pure (stmt line (StmtShape.local_func (name_of nm) s fn)))))

    -- The values are read before the names are declared.
    unfoldable pub declare_with_values : ℕ → List (Bytes × ℕ) → Action F (Stmt F)
    declare_with_values line names = do
      vals ← optional_values
      on_option vals (pure Stmt.null) (λ vs. do
        idxs ← declare_locals names
        on_option idxs (pure Stmt.null) (λ slots. pure (local_stmt line slots names vs)))

    unfoldable pub parse_local_list : ℕ → Action F (Stmt F)
    parse_local_list line = do
      d ← optional_attribute 0
      on_option d (pure Stmt.null) (λ default_attrib. do
        names ←
            local_names (length toks + 1) (codes "expected identifier after `local`") default_attrib
        on_option names (pure Stmt.null) (λ ns.
            branch (ltb 1 (count_close ns))
              (fail_with toks Stmt.null
                (plain (codes "multiple to-be-closed variables in local list")))
              (declare_with_values line ns)))

    unfoldable pub parse_local : Action F (Stmt F)
    parse_local = do
      t ← peek toks
      advance toks
      u ← peek toks
      branch (same_kind u.kind TokKind.kw_function) (parse_local_function t.line)
          (parse_local_list t.line)
