-- ===== src/Parser/Statements/Blocks.antt =====
-- Statements, blocks and the whole parser end.
use lua2wasm.Prelude.{Bool-cases, inl, inr, ltb, ℕ, zero, suc, ◌+◌, ◌≤◌, length, List, arith}
use lua2wasm.Lexer.Token.{TokKind}
use lua2wasm.Lexer.Scan.{Token}
use lua2wasm.Parser.Ast.{Block}
use lua2wasm.Parser.State.{gets, branch, beyond_marks, ◌>>=◌}
use lua2wasm.Parser.Fits.{Follows-refl}
use lua2wasm.Parser.Calls.{Calls}
use lua2wasm.Parser.Safe.{
  Moves, Ended, Safe, Safe-check_ok, Safe-peek_bind, Safe-pure, SafeAt-branch, SafeAt-weaken,
  safe_rules,
}
use lua2wasm.Parser.Steps.{Steps, StepsAt, Steps-Safe, Steps-check}
use lua2wasm.Parser.Markers.{NotEof, kinds_NotEof}
use lua2wasm.Parser.Rules.{CallsSafe, CallsSafe-suc, Safe-give_up, calls_rules, steps_rules}
use lua2wasm.Parser.Expr.Ends.{Safe-parse_prec}
use lua2wasm.Parser.Statements.Declarations.{StepsAt-parse_local, StepsAt-parse_global}
use lua2wasm.Parser.Statements.Flow.{
  StepsAt-parse_if, StepsAt-parse_while, StepsAt-parse_do, StepsAt-parse_return,
  StepsAt-parse_repeat, StepsAt-parse_break, StepsAt-parse_for,
}
use lua2wasm.Parser.Statements.Assignments.{
  Steps-parse_ident_stmt, StepsAt-parse_function_stmt, StepsAt-parse_goto, StepsAt-parse_label,
}
use lua2wasm.Parser.Block.{
  parse_name_stmt, parse_stmt, block_loop, parse_block, tie, finish_parse, parse_main,
}

module _ {F : Type 0} {toks : List (Token F)} (ended : Ended toks) where
  module _ (c : Calls F) where
    ruleset statement_rules = (
      StepsAt-parse_local, StepsAt-parse_global, StepsAt-parse_if, StepsAt-parse_while,
      StepsAt-parse_do, StepsAt-parse_return, StepsAt-parse_repeat, StepsAt-parse_break,
      StepsAt-parse_for, Steps-parse_ident_stmt, StepsAt-parse_function_stmt, StepsAt-parse_goto,
      StepsAt-parse_label,
    )

    StepsAt-parse_name_stmt :
        {lo : ℕ}
        → CallsSafe toks (suc lo) c
        → (t : Token F) → NotEof t.kind
        → StepsAt toks t lo (parse_name_stmt toks c t)
    unfolding parse_name_stmt
    StepsAt-parse_name_stmt cs t ne = search (statement_rules, steps_rules) depth 20

    pub Steps-parse_stmt : {lo : ℕ} → CallsSafe toks (suc lo) c → Steps toks lo (parse_stmt toks c)
    unfolding parse_stmt
    Steps-parse_stmt cs =
        search (StepsAt-parse_name_stmt, statement_rules, steps_rules, safe_rules, kinds_NotEof)
          depth 40

    block_step :
        (lo fuel : ℕ) (stops : List TokKind)
        → CallsSafe toks (suc lo) c
        → Safe toks (suc lo) (block_loop toks c fuel stops)
        → Safe toks lo (block_loop toks c (suc fuel) stops)
    unfolding block_loop
    block_step lo fuel stops cs rest = Safe-check_ok _ _ (
        Safe-peek_bind _ (λ t.
          SafeAt-branch t _ _ _ (λ _. SafeAt-weaken t _ (Safe-pure _))
            (λ _. SafeAt-weaken t _ (
              Steps-Safe _
                (Steps-check _ _ _ (Steps-parse_stmt cs) (λ st. search (safe_rules) depth 10))))))

    block_ends :
        (lo fuel : ℕ) (stops : List TokKind)
        → CallsSafe toks (suc lo) c
        → length toks ≤ lo + fuel
        → Safe toks lo (block_loop toks c fuel stops)
    unfolding block_loop
    block_ends lo zero stops cs e = Safe-give_up (omega arith)
    block_ends lo (suc fuel) stops cs e =
        block_step lo fuel stops cs
          (block_ends (suc lo) fuel stops (CallsSafe-suc c cs) (omega arith))

    Safe-block_loop :
        (lo : ℕ) (stops : List TokKind)
        → CallsSafe toks (suc lo) c
        → Safe toks lo (block_loop toks c (length toks + 1) stops)
    Safe-block_loop lo stops cs = block_ends lo (length toks + 1) stops cs (omega arith)

    pub Safe-parse_block :
        {lo : ℕ} (stops : List TokKind)
        → CallsSafe toks (suc lo) c
        → Safe toks lo (parse_block toks c stops)
    unfolding parse_block
    Safe-parse_block stops cs = search (safe_rules, Safe-block_loop) depth 20

  pub CallsSafe-tie : (lo fuel : ℕ) → length toks ≤ lo + fuel → CallsSafe toks lo (tie toks fuel)
  unfolding tie
  CallsSafe-tie lo zero e = record {
    prec = λ n h. Safe-give_up (omega arith);
    blk = λ stops. Safe-give_up (omega arith);
  }
  CallsSafe-tie lo (suc fuel) e =
      let deeper = CallsSafe-tie (suc lo) fuel (omega arith) in
      record {
        prec = λ n h. Safe-parse_prec ended (tie toks fuel) n h deeper;
        blk = λ stops. Safe-parse_block (tie toks fuel) stops deeper;
      }

  Safe-finish_parse : {lo : ℕ} (main : Block F) → Safe toks lo (finish_parse main)
  unfolding finish_parse gets branch beyond_marks ◌>>=◌
  Safe-finish_parse main = record {
    at = λ p h k. elim (Bool-cases (ltb (length p.frame.captured) p.frame.next_slot)) [
      | inl e ↦ rw (e, Moves) (λ f. inl (let marks = f.0.2 in ground arith))
      | inr e ↦ rw (e, Moves) (omega arith, k, Follows-refl p)
    ];
  }

  pub Safe-parse_main : Safe toks 0 (parse_main toks)
  unfolding parse_main
  Safe-parse_main =
      let calls = CallsSafe-tie 0 (suc (length toks)) (omega arith) in
      search (safe_rules, calls_rules, Safe-finish_parse) depth 20
