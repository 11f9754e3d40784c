-- ===== src/Parser/Statements/Flow.antt =====
-- Conditionals, loops and returns end.
use lua2wasm.Prelude.{ℕ, zero, suc, ◌+◌, ◌≤◌, Bytes, length, List, [], ◌∷◌, Bool, false, arith}
use lua2wasm.Lexer.Token.{TokKind}
use lua2wasm.Lexer.Scan.{Token}
use lua2wasm.Parser.Ast.{Expr, Exprs}
use lua2wasm.Parser.Calls.{Calls}
use lua2wasm.Parser.Safe.{Ended, Safe, SafeAt, SafeAt-advance, Safe-pure, safe_rules}
use lua2wasm.Parser.Steps.{StepsAt}
use lua2wasm.Parser.Markers.{NotEof, kinds_NotEof}
use lua2wasm.Parser.Rules.{
  CallsSafe, CallsSafe-suc, Safe-give_up, Safe-if_match, calls_rules, steps_rules,
}
use lua2wasm.Parser.Body.Ends.{Safe-declare, Safe-mark_last_const, Safe-scope_rewind}
use lua2wasm.Parser.Primary.Ends.{Safe-parse_list}
use lua2wasm.Parser.Control.{
  scoped_block, parse_arm, elseif_arms, parse_else, parse_if, parse_while, parse_do, parse_return,
  parse_repeat, parse_break,
}
use lua2wasm.Parser.Loops.{
  more_names, declare_controls, numeric_body, numeric_step, parse_numeric, generic_body,
  parse_generic, parse_for,
}

module _ {F : Type 0} {toks : List (Token F)} (ended : Ended toks) where
  module _ (c : Calls F) where
    module _ {lo : ℕ} (cs : CallsSafe toks lo c) where
      Safe-scoped_block : (stops : List TokKind) → Safe toks lo (scoped_block toks c stops)
      unfolding scoped_block
      Safe-scoped_block stops = search (safe_rules, calls_rules, Safe-scope_rewind) depth 20

      Safe-parse_arm : Safe toks lo (parse_arm toks c)
      unfolding parse_arm
      Safe-parse_arm = search (safe_rules, calls_rules, Safe-scoped_block, kinds_NotEof) depth 20

      Safe-parse_else : Safe toks lo (parse_else toks c)
      unfolding parse_else
      Safe-parse_else = search (safe_rules, Safe-scoped_block, kinds_NotEof) depth 20

    elseif_step :
        (lo fuel : ℕ)
        → CallsSafe toks (suc lo) c
        → Safe toks (suc lo) (elseif_arms toks c fuel)
        → Safe toks lo (elseif_arms toks c (suc fuel))
    unfolding elseif_arms
    elseif_step lo fuel cs rest =
        search (SafeAt-advance, Safe-parse_arm, safe_rules, kinds_NotEof) depth 20

    elseif_loop :
        (lo fuel : ℕ)
        → CallsSafe toks (suc lo) c
        → length toks ≤ lo + fuel
        → Safe toks lo (elseif_arms toks c fuel)
    unfolding elseif_arms
    elseif_loop lo zero cs e = Safe-give_up (omega arith)
    elseif_loop lo (suc fuel) cs e =
        elseif_step lo fuel cs (elseif_loop (suc lo) fuel (CallsSafe-suc c cs) (omega arith))

    Safe-elseif_arms :
        (lo : ℕ) → CallsSafe toks lo c → Safe toks lo (elseif_arms toks c (length toks + 1))
    Safe-elseif_arms lo cs = elseif_loop lo (length toks + 1) (CallsSafe-suc c cs) (omega arith)

    module _ {lo : ℕ} (cs : CallsSafe toks (suc lo) c) (t : Token F) (ne : NotEof t.kind) where
      pub StepsAt-parse_if : StepsAt toks t lo (parse_if toks c)
      unfolding parse_if
      StepsAt-parse_if =
          search
            (
              steps_rules, safe_rules, Safe-parse_arm, Safe-elseif_arms, Safe-parse_else,
              kinds_NotEof,
            )
            depth 20

      pub StepsAt-parse_while : StepsAt toks t lo (parse_while toks c)
      unfolding parse_while
      StepsAt-parse_while =
          search (steps_rules, safe_rules, calls_rules, Safe-scoped_block, kinds_NotEof) depth 20

      pub StepsAt-parse_do : StepsAt toks t lo (parse_do toks c)
      unfolding parse_do
      StepsAt-parse_do = search (steps_rules, safe_rules, Safe-scoped_block, kinds_NotEof) depth 20

      pub StepsAt-parse_return : StepsAt toks t lo (parse_return toks c)
      unfolding parse_return
      StepsAt-parse_return =
          search (steps_rules, safe_rules, Safe-parse_list, kinds_NotEof) depth 20

      pub StepsAt-parse_repeat : StepsAt toks t lo (parse_repeat toks c)
      unfolding parse_repeat
      StepsAt-parse_repeat =
          search (steps_rules, safe_rules, calls_rules, Safe-scope_rewind, kinds_NotEof) depth 20

      pub StepsAt-parse_break : StepsAt toks t lo (parse_break toks c)
      unfolding parse_break
      StepsAt-parse_break = search (steps_rules, safe_rules) depth 20

  names_step :
      (lo fuel : ℕ)
      → Safe toks (suc lo) (more_names toks fuel)
      → Safe toks lo (more_names toks (suc fuel))
  unfolding more_names
  names_step lo fuel rest = search (Safe-if_match, safe_rules, kinds_NotEof) depth 20

  names_loop : (lo fuel : ℕ) → length toks ≤ lo + fuel → Safe toks lo (more_names toks fuel)
  unfolding more_names
  names_loop lo zero e = Safe-give_up (omega arith)
  names_loop lo (suc fuel) e = names_step lo fuel (names_loop (suc lo) fuel (omega arith))

  Safe-more_names : (lo : ℕ) → Safe toks lo (more_names toks (length toks + 1))
  Safe-more_names lo = names_loop lo (length toks + 1) (omega arith)

  module _ {lo : ℕ} where
    Safe-declare_controls :
        (first : Bool) (names : List Bytes) → Safe toks lo (declare_controls toks first names)
    unfolding declare_controls
    Safe-declare_controls first [] = Safe-pure _
    Safe-declare_controls first (name ∷ names) =
        let ih = Safe-declare_controls false names in
        search (safe_rules, Safe-declare, Safe-mark_last_const) depth 20

  module _ (c : Calls F) where
    module _ {lo : ℕ} (cs : CallsSafe toks lo c) (line : ℕ) where
      Safe-numeric_body :
          (name : Bytes) (start stop step : Expr F)
          → Safe toks lo (numeric_body toks c line name start stop step)
      unfolding numeric_body
      Safe-numeric_body name start stop step =
          search
            (
              safe_rules, Safe-declare, Safe-mark_last_const, Safe-scope_rewind, calls_rules,
              kinds_NotEof,
            )
            depth 20

      Safe-numeric_step :
          (name : Bytes) (start stop : Expr F)
          → Safe toks lo (numeric_step toks c line name start stop)
      unfolding numeric_step
      Safe-numeric_step name start stop =
          search (Safe-numeric_body, safe_rules, calls_rules, kinds_NotEof) depth 20

      SafeAt-parse_numeric :
          (t : Token F) (name : Bytes)
          → NotEof t.kind
          → SafeAt toks t lo (parse_numeric toks c line name)
      unfolding parse_numeric
      SafeAt-parse_numeric t name ne =
          search (safe_rules, Safe-numeric_step, calls_rules, kinds_NotEof) depth 20

      Safe-generic_body :
          (names : List Bytes) (es : Exprs F) → Safe toks lo (generic_body toks c line names es)
      unfolding generic_body
      Safe-generic_body names es =
          search (safe_rules, Safe-declare_controls, Safe-scope_rewind, calls_rules, kinds_NotEof)
            depth 20

      Safe-parse_generic : (name : Bytes) → Safe toks lo (parse_generic toks c line name)
      unfolding parse_generic
      Safe-parse_generic name =
          search (safe_rules, Safe-more_names, Safe-parse_list, Safe-generic_body, kinds_NotEof)
            depth 20

    pub StepsAt-parse_for :
        {lo : ℕ}
        → CallsSafe toks (suc lo) c
        → (t : Token F) → NotEof t.kind
        → StepsAt toks t lo (parse_for toks c)
    unfolding parse_for
    StepsAt-parse_for cs t ne =
        search (steps_rules, safe_rules, SafeAt-parse_numeric, Safe-parse_generic, kinds_NotEof)
          depth 20
