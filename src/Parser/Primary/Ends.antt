-- ===== src/Parser/Primary/Ends.antt =====
-- The parsers of lists of expressions, of table entries and of primary expressions end.
use lua2wasm.Prelude.{
  inl, inr, Bool-cases, false, ℕ, zero, suc, ◌+◌, ◌≤◌, Bytes, length, List, arith,
}
use lua2wasm.Lexer.Token.{TokKind}
use lua2wasm.Lexer.Scan.{Token}
use lua2wasm.Parser.Kinds.{same_kind}
use lua2wasm.Parser.State.{beyond_marks, branch, gets, modify, pure, peek_at, ◌>>=◌}
use lua2wasm.Parser.Calls.{Calls}
use lua2wasm.Parser.Safe.{Moves, Ended, Safe, SafeAt, safe_rules}
use lua2wasm.Parser.Steps.{Steps, StepsAt}
use lua2wasm.Parser.Markers.{NotEof, assign-NotEof, kinds_NotEof}
use lua2wasm.Parser.Rules.{
  CallsSafe, CallsSafe-suc, Safe-give_up, Safe-if_match, SafeAt-two, calls_rules, steps_rules,
}
use lua2wasm.Parser.Scope.{FreeNames, all_none}
use lua2wasm.Parser.Fits.Marks.{resolve_in_frame-Wide}
use lua2wasm.Parser.Fits.Names.{globals_declare-Fits, resolve_in_frame-Fits}
use lua2wasm.Parser.Resolve.{
  resolve_in_frame, store, report, look_up, resolve_name, declare_name, global_index,
}
use lua2wasm.Parser.Body.Ends.{Safe-parse_function_body_ex}
use lua2wasm.Parser.Primary.{
  parse_exprs, parse_list, parse_positional, parse_key_expr, parse_key_name, parse_entry,
  parse_entries, parse_table, parse_var, parse_paren, parse_ellipsis, parse_function, parse_primary,
}

module _ {F : Type 0} {toks : List (Token F)} (ended : Ended toks) where
  Safe-look_up : {lo : ℕ} (name : Bytes) → Safe toks lo (look_up toks name)
  unfolding look_up store gets modify branch beyond_marks pure ◌>>=◌
  Safe-look_up {lo = lo} name = record {
    at = λ p h k.
        let free : FreeNames = record { collective = all_none; voided = false } in
        elim (Bool-cases (resolve_in_frame name p.frame p.outer free p.globals).overrun) [
          | inl e ↦
              rw (e, Moves)
                (λ f. resolve_in_frame-Wide name p.frame p.outer free p.globals f.0 f.1 f.2 e)
          | inr e ↦
              rw (e, Moves)
                (
                  omega arith,
                  k,
                  record {
                    fits = λ f.
                        let (frame, outer, globals) =
                          resolve_in_frame-Fits name p.frame p.outer free p.globals f.0 f.1 f.2 in
                        (frame, outer, globals, f.3);
                    keeps = λ e g. g;
                  },
                )
        ];
  }

  Safe-declare_name : {lo : ℕ} (name : Bytes) → Safe toks lo (declare_name toks name)
  unfolding declare_name gets modify pure ◌>>=◌
  Safe-declare_name name = record {
    at = λ p h k. (
      omega arith,
      k,
      record {
        fits = λ f. (f.0, f.1, globals_declare-Fits p.globals name f.2, f.3);
        keeps = λ e g. g;
      },
    );
  }

  pub Safe-resolve_name : {lo : ℕ} (name : Bytes) → Safe toks lo (resolve_name toks name)
  unfolding resolve_name report
  Safe-resolve_name name = search (Safe-look_up, safe_rules) depth 20

  pub Safe-global_index : {lo : ℕ} (name : Bytes) → Safe toks lo (global_index toks name)
  unfolding global_index
  Safe-global_index name = search (Safe-declare_name, safe_rules) depth 20

  module _ (c : Calls F) where
    exprs_step :
        (lo fuel : ℕ)
        → CallsSafe toks lo c
        → Safe toks (suc lo) (parse_exprs toks c fuel)
        → Safe toks lo (parse_exprs toks c (suc fuel))
    unfolding parse_exprs
    exprs_step lo fuel cs rest =
        search (Safe-if_match, safe_rules, calls_rules, kinds_NotEof) depth 30

    exprs_loop :
        (lo fuel : ℕ)
        → CallsSafe toks lo c
        → length toks ≤ lo + fuel
        → Safe toks lo (parse_exprs toks c fuel)
    unfolding parse_exprs
    exprs_loop lo zero cs e = Safe-give_up (omega arith)
    exprs_loop lo (suc fuel) cs e =
        exprs_step lo fuel cs (exprs_loop (suc lo) fuel (CallsSafe-suc c cs) (omega arith))

    pub Safe-parse_list : {lo : ℕ} → CallsSafe toks lo c → Safe toks lo (parse_list toks c)
    unfolding parse_list
    Safe-parse_list {lo = lo} cs = exprs_loop lo (length toks + 1) cs (omega arith)

    module _ {lo : ℕ} (cs : CallsSafe toks lo c) where
      Safe-parse_positional : Safe toks lo (parse_positional toks c)
      unfolding parse_positional
      Safe-parse_positional = search (safe_rules, calls_rules) depth 20

      SafeAt-parse_key_expr :
          (t : Token F) → NotEof t.kind → SafeAt toks t lo (parse_key_expr toks c)
      unfolding parse_key_expr
      SafeAt-parse_key_expr t ne = search (safe_rules, calls_rules, kinds_NotEof) depth 30

      SafeAt-name_entry :
          (t : Token F)
          → NotEof t.kind
          → SafeAt toks t lo (
              peek_at toks 1 >>= λ u.
              branch
                (same_kind u.kind TokKind.assign)
                (parse_key_name toks c)
                (parse_positional toks c))
      unfolding parse_key_name
      SafeAt-name_entry t ne =
          SafeAt-two ended t TokKind.assign _ _ ne assign-NotEof
            (λ nm. search (safe_rules, calls_rules) depth 20) Safe-parse_positional

      Safe-parse_entry : Safe toks lo (parse_entry toks c)
      unfolding parse_entry
      Safe-parse_entry =
          search
            (
              SafeAt-name_entry, safe_rules, SafeAt-parse_key_expr, Safe-parse_positional,
              calls_rules, kinds_NotEof,
            )
            depth 30

    entries_step :
        (lo fuel : ℕ)
        → CallsSafe toks lo c
        → Safe toks (suc lo) (parse_entries toks c fuel)
        → Safe toks lo (parse_entries toks c (suc fuel))
    unfolding parse_entries
    entries_step lo fuel cs rest =
        search (Safe-if_match, safe_rules, Safe-parse_entry, kinds_NotEof) depth 30

    entries_loop :
        (lo fuel : ℕ)
        → CallsSafe toks lo c
        → length toks ≤ lo + fuel
        → Safe toks lo (parse_entries toks c fuel)
    unfolding parse_entries
    entries_loop lo zero cs e = Safe-give_up (omega arith)
    entries_loop lo (suc fuel) cs e =
        entries_step lo fuel cs (entries_loop (suc lo) fuel (CallsSafe-suc c cs) (omega arith))

    Safe-parse_entries :
        (lo : ℕ) → CallsSafe toks lo c → Safe toks lo (parse_entries toks c (length toks + 1))
    Safe-parse_entries lo cs = entries_loop lo (length toks + 1) cs (omega arith)

    -- From here on the parsers that are called back are called behind a token.
    module _ {lo : ℕ} (cs : CallsSafe toks (suc lo) c) where
      StepsAt-parse_table :
          (t : Token F) (line : ℕ) → NotEof t.kind → StepsAt toks t lo (parse_table toks c line)
      unfolding parse_table
      StepsAt-parse_table t line ne =
          search (steps_rules, safe_rules, Safe-parse_entries, kinds_NotEof) depth 30

      StepsAt-parse_var :
          (t : Token F) (line : ℕ) → NotEof t.kind → StepsAt toks t lo (parse_var toks c line)
      unfolding parse_var
      StepsAt-parse_var t line ne = search (steps_rules, safe_rules, Safe-resolve_name) depth 30

      StepsAt-parse_paren : (t : Token F) → NotEof t.kind → StepsAt toks t lo (parse_paren toks c)
      unfolding parse_paren
      StepsAt-parse_paren t ne =
          search (steps_rules, safe_rules, calls_rules, kinds_NotEof) depth 30

      StepsAt-parse_ellipsis :
          (t : Token F) (line : ℕ) → NotEof t.kind → StepsAt toks t lo (parse_ellipsis toks c line)
      unfolding parse_ellipsis
      StepsAt-parse_ellipsis t line ne = search (steps_rules, safe_rules) depth 30

      StepsAt-parse_function :
          (t : Token F) (line : ℕ) → NotEof t.kind → StepsAt toks t lo (parse_function toks c line)
      unfolding parse_function
      StepsAt-parse_function t line ne =
          search (steps_rules, safe_rules, Safe-parse_function_body_ex, calls_rules) depth 30

      pub Steps-parse_primary : Steps toks lo (parse_primary toks c)
      unfolding parse_primary
      Steps-parse_primary =
          search
            (
              steps_rules, StepsAt-parse_table, StepsAt-parse_var, StepsAt-parse_paren,
              StepsAt-parse_ellipsis, StepsAt-parse_function, safe_rules, kinds_NotEof,
            )
            depth 40
