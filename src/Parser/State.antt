-- ===== src/Parser/State.antt =====
-- src/parser.c: the struct Parser, and the helpers on the tokens and on the error.
-- An action takes the parser and returns a value with the parser as it leaves it. `overrun` is an
-- access to captured[] beyond its MAX_LOCALS_PER_FN marks, with the parser as it finds it: nothing
-- is said of the run from there on. `fault` is a read past the last token or code that is marked
-- unreachable, `stuck` a loop or recursion that the fuel does not finish. An error does not end an
-- action: it is recorded, and the code goes on as far as its own tests of `ok` let it. The text of
-- an error is formatted by snprintf; here it is the message's arguments.
use lua2wasm.Prelude.{
  ℕ, ◌+◌, ◌-◌, Bytes, length, take, List, Bool, true, false, ◌==◌, leb, if◌then◌else◌, Option, none,
  some,
}
use lua2wasm.Lexer.Token.{TokKind}
use lua2wasm.Lexer.Scan.{Token}
use lua2wasm.Parser.Kinds.{same_kind}
use lua2wasm.Parser.Ast.{LuaFunc}
use lua2wasm.Parser.Scope.{FuncFrame, get_elem?}

pub data Complaint : Type 0 where
  plain : Bytes → Complaint
  expected : Bytes → TokKind → Complaint
  undefined not_declared function_not_declared assign_to_const : Bytes → Complaint
  jumps_into_scope : Bytes → ℕ → Bytes → Complaint

-- A label in sight, and a goto that waits for its label.
pub record LabelRec : Type 0 where
  pub name : Bytes
  pub nactvar : ℕ

pub record GotoRec : Type 0 where
  pub name : Bytes
  pub line : ℕ
  pub nactvar : ℕ
  pub resolved : Bool

-- `frame` is the frame at frame_depth and `outer` those below it, from the inside out. No cur_fn
-- is -1. The parser is ok as long as it has no error.
pub record Parser (F : Type 0) : Type 0 where
  pub pos : ℕ
  pub frame : FuncFrame
  pub outer : List FuncFrame
  pub funcs : List (LuaFunc F)
  pub cur_fn : Option ℕ
  pub globals : List Bytes
  pub labels : List LabelRec
  pub gotos : List GotoRec
  pub fn_labels : ℕ
  pub fn_gotos : ℕ
  pub blk_gotos : ℕ
  pub blk_nactvar : ℕ
  pub error : Option (ℕ × Complaint)

abbrev pub is_ok : {F : Type 0} → Parser F → Bool
is_ok p = elim p.error [ none ↦ true | some _ ↦ false ]

pub data Out (F A : Type 0) : Type 0 where
  done : A → Parser F → Out F A
  overrun : Parser F → Out F A
  fault : Out F A
  stuck : Out F A

abbrev pub Action : Type 0 → Type 0 → Type 0
Action F A = Parser F → Out F A

module _ {F : Type 0} where
  unfoldable pub pure : {A : Type 0} → A → Action F A
  pure a p = done a p

  -- The fuel has run out.
  unfoldable pub give_up : {A : Type 0} → Action F A
  give_up p = stuck

  abbrev pub continue : {A B : Type 0} → Out F A → (A → Action F B) → Out F B
  continue (done a p) k = k a p
  continue (overrun p) k = overrun p
  continue fault k = fault
  continue stuck k = stuck

  infixl 5 ◌>>=◌ ◌>>◌
  unfoldable pub ◌>>=◌ : {A B : Type 0} → Action F A → (A → Action F B) → Action F B
  ◌>>=◌ m k p = continue (m p) k

  abbrev pub ◌>>◌ : {A B : Type 0} → Action F A → Action F B → Action F B
  m >> k = m >>= λ _. k

  unfoldable pub gets : {A : Type 0} → (Parser F → A) → Action F A
  gets f p = done (f p) p

  unfoldable pub modify : (Parser F → Parser F) → Action F (Unit {0})
  modify f p = done tt (f p)

  unfoldable pub beyond_marks : {A : Type 0} → Action F A
  beyond_marks p = overrun p

  -- __builtin_unreachable()
  unfoldable pub unreachable : {A : Type 0} → Action F A
  unreachable p = fault

  -- if (!p->ok) return dflt;
  unfoldable pub check_ok : {A : Type 0} → A → Action F A → Action F A
  check_ok dflt k p = elim (is_ok p) [ true ↦ k p | false ↦ done dflt p ]

  -- A test with its two branches.
  unfoldable pub branch : {A : Type 0} → Bool → Action F A → Action F A → Action F A
  branch test yes_branch no_branch p = elim test [ true ↦ yes_branch p | false ↦ no_branch p ]

  -- A computed option with its two cases.
  unfoldable pub on_option : {A B : Type 0} → Option A → Action F B → (A → Action F B) → Action F B
  on_option none no_case some_case = no_case
  on_option (some a) no_case some_case = some_case a

  unfoldable pub set_error_at : ℕ → Complaint → Action F (Unit {0})
  set_error_at line why p = done tt (if is_ok p then record p { error = some (line, why) } else p)

  -- The same fault for every index beyond the tokens.
  abbrev token_or_fault : Option (Token F) → Action F (Token F)
  token_or_fault (some t) p = done t p
  token_or_fault none p = fault

  module _ (toks : List (Token F)) where
    unfoldable pub peek : Action F (Token F)
    peek p = token_or_fault (get_elem? toks p.pos) p

    unfoldable pub peek_at : ℕ → Action F (Token F)
    peek_at off p =
        token_or_fault
          (get_elem? toks
            (if leb (length toks) (p.pos + off) then length toks - 1 else p.pos + off))
          p

    -- p->toks->items[p->pos++]
    unfoldable pub advance : Action F (Token F)
    advance p = token_or_fault (get_elem? toks p.pos) (record p { pos = p.pos + 1 })

    unfoldable pub last_line : Action F ℕ
    last_line p =
        continue (token_or_fault (get_elem? toks (if p.pos == 0 then p.pos else p.pos - 1)) p)
          (λ t p. done t.line p)

    unfoldable pub set_error : Complaint → Action F (Unit {0})
    set_error why = do t ← peek; set_error_at t.line why

    unfoldable pub match_kind : TokKind → Action F Bool
    match_kind k = do t ← peek; branch (same_kind t.kind k) (do advance; pure true) (pure false)

    -- if (match(p, k)) yes_branch else no_branch
    unfoldable pub if_match : {A : Type 0} → TokKind → Action F A → Action F A → Action F A
    if_match k yes_branch no_branch = do found ← match_kind k; branch found yes_branch no_branch

    unfoldable pub expect : TokKind → Bytes → Action F Bool
    expect k what = do
      found ← match_kind k
      branch found (pure true) (do t ← peek; set_error (expected what t.kind); pure false)

    -- set_error(p, why); return dflt;
    unfoldable pub fail_with : {A : Type 0} → A → Complaint → Action F A
    fail_with dflt why = do set_error why; pure dflt

    -- if (peek(p)->kind != TOK_IDENT) { set_error(p, why); return dflt; } advance(p)
    unfoldable pub take_ident : {A : Type 0} → A → Bytes → (Token F → Action F A) → Action F A
    take_ident dflt why k = do
      t ← peek
      branch (same_kind t.kind TokKind.ident) (do nm ← advance; k nm) (fail_with dflt (plain why))

-- The bytes of a name.
abbrev pub name_of : {F : Type 0} → Token F → Bytes
name_of t = take t.len t.start
