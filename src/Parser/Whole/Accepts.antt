-- ===== src/Parser/Whole/Accepts.antt =====
-- The parser stops without an error only where its block ends.
use lua2wasm.Prelude.{
  ℕ, zero, suc, ◌+◌, ◌-◌, length, take, List, true, ◌==◌, if◌then◌else◌, ◌≡◌, arith, some,
  Option-cases, Bool-cases, inl, inr,
}
use lua2wasm.Lexer.Token.{TokKind}
use lua2wasm.Lexer.Scan.{Token}
use lua2wasm.Parser.Ast.{Stmt, Stmts, no_stmts, block}
use lua2wasm.Parser.Scope.{get_elem?}
use lua2wasm.Parser.State.{
  Parser, Action, Out, done, overrun, fault, stuck, is_ok, pure, give_up, gets, modify, branch,
  check_ok, peek, last_line, continue, ◌>>=◌, ◌>>◌,
}
use lua2wasm.Parser.Calls.{Calls}
use lua2wasm.Parser.Block.{add_stmt, is_block_end, parse_stmt, block_loop, parse_block}

-- Without an error, the token at the cursor ends a block that stops at `stops`.
abbrev pub EndsBlock : {F A : Type 0} → List (Token F) → List TokKind → Out F A → Type 0
EndsBlock {F = F} toks stops (done a p) =
    is_ok p ≡ true
    → (t : Token F) × (get_elem? toks p.pos ≡ some t) × (is_block_end t.kind stops ≡ true)
EndsBlock toks stops (overrun p) = Unit
EndsBlock toks stops fault = Unit
EndsBlock toks stops stuck = Unit

module _ {F : Type 0} (toks : List (Token F)) (stops : List TokKind) where
  -- What follows keeps the cursor and the error.
  then_pure :
      {A B : Type 0} (f : A → B) (r : Out F A)
      → EndsBlock toks stops r
      → EndsBlock toks stops (continue r (λ a. pure (f a)))
  unfolding pure
  then_pure f (done a p) e = e
  then_pure f (overrun p) e = e
  then_pure f fault e = e
  then_pure f stuck e = e

  module _ (c : Calls F) where
    after_stmt :
        (k : Action F (Stmts F)) (r : Out F (Stmt F))
        → ((p : Parser F) → EndsBlock toks stops (k p))
        → EndsBlock toks stops
            (continue r (λ st. check_ok no_stmts (k >>= λ rest. pure (add_stmt st rest))))
    unfolding check_ok ◌>>=◌
    after_stmt k (done st p) h = elim (Bool-cases (is_ok p)) [
      | inl e ↦ rw (e, EndsBlock) (then_pure (add_stmt st) (k p) (h p))
      | inr e ↦ rw (e, EndsBlock) (λ e'. absurd (ground arith))
    ]
    after_stmt k (overrun p) h = tt
    after_stmt k fault h = tt
    after_stmt k stuck h = tt

    block_loop-EndsBlock :
        (fuel : ℕ) (p : Parser F) → EndsBlock toks stops (block_loop toks c fuel stops p)
    unfolding block_loop check_ok peek branch pure give_up ◌>>=◌
    block_loop-EndsBlock zero p = tt
    block_loop-EndsBlock (suc fuel) p = elim (Bool-cases (is_ok p)) [
      | inr e ↦ rw (e, EndsBlock) (λ e'. absurd (ground arith))
      | inl e ↦ elim (Option-cases (get_elem? toks p.pos)) [
        | inl n ↦ rw (e, n, EndsBlock) tt
        | inr (t, s) ↦ elim (Bool-cases (is_block_end t.kind stops)) [
          | inl b ↦ rw (e, s, b, EndsBlock) (λ _. (t, s, b))
          | inr b ↦
              rw (e, s, b, EndsBlock)
                (after_stmt (block_loop toks c fuel stops) (parse_stmt toks c p)
                  (block_loop-EndsBlock fuel))
        ]
      ]
    ]

    -- What the block leaves behind keeps the cursor and the error.
    leave_block :
        (labels gotos nactvar : ℕ) (r : Out F (Stmts F))
        → EndsBlock toks stops r
        → EndsBlock toks stops (
            continue r (λ items. last_line toks >>= λ line.
            modify (λ p. record p {
              labels = take labels p.labels;
              blk_gotos = gotos;
              blk_nactvar = nactvar;
            })
            >> pure (block items line)))
    unfolding last_line modify pure ◌>>=◌
    leave_block labels gotos nactvar (done items p) e =
        elim (Option-cases (get_elem? toks (if p.pos == 0 then p.pos else p.pos - 1))) [
          | inl n ↦ rw (n, EndsBlock) tt
          | inr (t, s) ↦ rw (s, EndsBlock) e
        ]
    leave_block labels gotos nactvar (overrun p) e = tt
    leave_block labels gotos nactvar fault e = tt
    leave_block labels gotos nactvar stuck e = tt

    pub parse_block-EndsBlock : (p : Parser F) → EndsBlock toks stops (parse_block toks c stops p)
    unfolding parse_block gets modify ◌>>=◌
    parse_block-EndsBlock p = leave_block (length p.labels) p.blk_gotos p.blk_nactvar _ (
        block_loop-EndsBlock (length toks + 1)
          (record p { blk_gotos = length p.gotos; blk_nactvar = length p.frame.locals }))
