-- ===== src/Parser/Statements/Assignments.antt =====
-- Assignments, calls as statements, `function` statements, and jumps end.
use lua2wasm.Prelude.{
  ℕ, zero, suc, ◌+◌, ◌-◌, ◌≤◌, ◌<◌, Bytes, length, List, ◌≡◌, refl, arith, leb, if◌then◌else◌,
  Bool-cases, inl, inr,
}
use lua2wasm.Lexer.Token.{TokKind}
use lua2wasm.Lexer.Scan.{Token}
use lua2wasm.Parser.Kinds.{same_kind}
use lua2wasm.Parser.Ast.{Expr, AssignTarget}
use lua2wasm.Parser.State.{Parser, done, peek_at, branch, pure, ◌>>=◌}
use lua2wasm.Parser.Calls.{Calls}
use lua2wasm.Parser.Fits.{Follows-refl}
use lua2wasm.Parser.Safe.{Ended, Moves, Safe, SafeAt-advance, get_elem?-below, safe_rules}
use lua2wasm.Parser.Steps.{Steps, StepsAt, Steps-Safe, Steps-check, Steps-peek_bind, StepsAt-weaken}
use lua2wasm.Parser.Markers.{NotEof, same-NotEof, semi-NotEof, dblcolon-NotEof, kinds_NotEof}
use lua2wasm.Parser.Rules.{
  CallsSafe, CallsSafe-suc, Safe-give_up, Safe-if_match, calls_rules, steps_rules,
}
use lua2wasm.Parser.Body.Ends.{Safe-parse_function_body_ex}
use lua2wasm.Parser.Primary.Ends.{Safe-parse_list, Safe-resolve_name}
use lua2wasm.Parser.Expr.Ends.{Steps-parse_prefix_chain}
use lua2wasm.Parser.Expr.{parse_prefix_chain}
use lua2wasm.Parser.Assign.{
  check_assignable, path_dots, path_method, more_targets, finish_assign, parse_ident_stmt,
  function_path, function_target, parse_function_stmt,
}
use lua2wasm.Parser.Jumps.{label_ends_block, await_label, parse_goto, define_label, parse_label}

module _ {F : Type 0} {toks : List (Token F)} (ended : Ended toks) where
  module _ {lo : ℕ} where
    Safe-check_assignable : (e : Expr F) → Safe toks lo (check_assignable toks e)
    unfolding check_assignable
    Safe-check_assignable e = search (safe_rules) depth 20

    Safe-path_method : (base : Expr F) → Safe toks lo (path_method toks base)
    unfolding path_method
    Safe-path_method base = search (safe_rules, kinds_NotEof) depth 20

  dots_step :
      (lo fuel : ℕ)
      → ((base : Expr F) → Safe toks (suc lo) (path_dots toks fuel base))
      → (base : Expr F) → Safe toks lo (path_dots toks (suc fuel) base)
  unfolding path_dots
  dots_step lo fuel rest base = search (rest, SafeAt-advance, safe_rules, kinds_NotEof) depth 20

  dots_loop :
      (lo fuel : ℕ)
      → length toks ≤ lo + fuel
      → (base : Expr F) → Safe toks lo (path_dots toks fuel base)
  unfolding path_dots
  dots_loop lo zero e base = Safe-give_up (omega arith)
  dots_loop lo (suc fuel) e base = dots_step lo fuel (dots_loop (suc lo) fuel (omega arith)) base

  Safe-path_dots : (lo : ℕ) (base : Expr F) → Safe toks lo (path_dots toks (length toks + 1) base)
  Safe-path_dots lo base = dots_loop lo (length toks + 1) (omega arith) base

  module _ (c : Calls F) where
    Safe-parse_prefix_chain :
        {lo : ℕ} → CallsSafe toks lo c → Safe toks lo (parse_prefix_chain toks c)
    Safe-parse_prefix_chain cs =
        Steps-Safe _ (Steps-parse_prefix_chain ended c (CallsSafe-suc c cs))

    targets_step :
        (lo fuel : ℕ)
        → CallsSafe toks (suc lo) c
        → Safe toks (suc lo) (more_targets toks c fuel)
        → Safe toks lo (more_targets toks c (suc fuel))
    unfolding more_targets
    targets_step lo fuel cs rest =
        search
          (Safe-if_match, Safe-parse_prefix_chain, Safe-check_assignable, safe_rules, kinds_NotEof)
          depth 20

    targets_loop :
        (lo fuel : ℕ)
        → CallsSafe toks (suc lo) c
        → length toks ≤ lo + fuel
        → Safe toks lo (more_targets toks c fuel)
    unfolding more_targets
    targets_loop lo zero cs e = Safe-give_up (omega arith)
    targets_loop lo (suc fuel) cs e =
        targets_step lo fuel cs (targets_loop (suc lo) fuel (CallsSafe-suc c cs) (omega arith))

    Safe-more_targets :
        (lo : ℕ) → CallsSafe toks lo c → Safe toks lo (more_targets toks c (length toks + 1))
    Safe-more_targets lo cs = targets_loop lo (length toks + 1) (CallsSafe-suc c cs) (omega arith)

    module _ {lo : ℕ} (cs : CallsSafe toks lo c) (line : ℕ) where
      Safe-finish_assign : (first : AssignTarget F) → Safe toks lo (finish_assign toks c line first)
      unfolding finish_assign
      Safe-finish_assign first =
          search (safe_rules, Safe-more_targets, Safe-parse_list, kinds_NotEof) depth 20

      Safe-function_path : (var : Expr F) → Safe toks lo (function_path toks c line var)
      unfolding function_path
      Safe-function_path var =
          search
            (safe_rules, Safe-path_dots, Safe-path_method, Safe-parse_function_body_ex, calls_rules)
            depth 20

      Safe-function_target : (var : Expr F) → Safe toks lo (function_target toks c line var)
      unfolding function_target
      Safe-function_target var =
          search (safe_rules, Safe-function_path, Safe-check_assignable) depth 20

    module _ {lo : ℕ} (cs : CallsSafe toks (suc lo) c) where
      pub Steps-parse_ident_stmt : Steps toks lo (parse_ident_stmt toks c)
      unfolding parse_ident_stmt
      Steps-parse_ident_stmt = Steps-peek_bind _ (λ t. StepsAt-weaken t _ (
          Steps-check _ _ _ (Steps-parse_prefix_chain ended c cs)
            (λ first. search (safe_rules, Safe-check_assignable, Safe-finish_assign) depth 20)))

      pub StepsAt-parse_function_stmt :
          (t : Token F) → NotEof t.kind → StepsAt toks t lo (parse_function_stmt toks c)
      unfolding parse_function_stmt
      StepsAt-parse_function_stmt t ne =
          search (steps_rules, safe_rules, Safe-resolve_name, Safe-function_target) depth 20

  -- The token that is looked at, and how far it stands from the end.
  token_at :
      (off : ℕ) (p : Parser F)
      → p.pos < length toks
      → (t : Token F) × (peek_at toks off p ≡ done t p)
        × (NotEof t.kind → p.pos + off + 1 < length toks)
  unfolding peek_at
  token_at off p k =
      let positive = ended.nonempty in
      let i = if leb (length toks) (p.pos + off) then length toks - 1 else p.pos + off in
      let (t, e) = get_elem?-below toks i (ground arith) in
      (t, rw e refl, λ ne. let more = ended.last_is_eof i t e ne.differs in ground arith)

  ends_block_loop :
      (fuel i : ℕ) (p : Parser F)
      → p.pos < length toks
      → length toks ≤ p.pos + i + fuel
      → 0 < fuel
      → Moves toks p (label_ends_block toks fuel i p)
  unfolding label_ends_block ◌>>=◌ branch pure
  ends_block_loop zero i p h k z = absurd (omega arith)
  ends_block_loop (suc fuel) i p h k z =
      let (t, e, n) = token_at i p h in
      rw e elim (Bool-cases (same_kind t.kind TokKind.semi)) [
        | inl s ↦
            let more = n (same-NotEof t.kind TokKind.semi s semi-NotEof) in
            rw s (ends_block_loop fuel (i + 1) p h (omega arith) (omega arith))
        | inr s ↦ rw s elim (Bool-cases (same_kind t.kind TokKind.dblcolon)) [
          | inr d ↦ rw d (omega arith, h, Follows-refl p)
          | inl d ↦
              let (u, e1, n1) = token_at (i + 1) p h in
              rw (d, e1)
                elim (Bool-cases (same_kind u.kind TokKind.ident)) [
                  | inr d1 ↦ rw d1 (omega arith, h, Follows-refl p)
                  | inl d1 ↦
                      let (v, e2, n2) = token_at (i + 2) p h in
                      rw (d1, e2)
                        elim (Bool-cases (same_kind v.kind TokKind.dblcolon)) [
                          | inr d2 ↦ rw d2 (omega arith, h, Follows-refl p)
                          | inl d2 ↦
                              let more =
                                n2 (same-NotEof v.kind TokKind.dblcolon d2 dblcolon-NotEof) in
                              rw d2 (ends_block_loop fuel (i + 3) p h (omega arith) (omega arith))
                        ]
                ]
        ]
      ]

  Safe-label_ends_block : (lo : ℕ) → Safe toks lo (label_ends_block toks (length toks + 1) 0)
  Safe-label_ends_block lo = record {
    at = λ p h k. ends_block_loop (length toks + 1) 0 p k (omega arith) (omega arith);
  }

  module _ {lo : ℕ} where
    Safe-await_label : (name : Bytes) (line : ℕ) → Safe toks lo (await_label toks name line)
    unfolding await_label
    Safe-await_label name line = search (safe_rules) depth 20

    Safe-define_label : (line : ℕ) (name : Bytes) → Safe toks lo (define_label toks line name)
    unfolding define_label
    Safe-define_label line name = search (safe_rules, Safe-label_ends_block) depth 20

  module _ {lo : ℕ} where
    pub StepsAt-parse_goto : (t : Token F) → NotEof t.kind → StepsAt toks t lo (parse_goto toks)
    unfolding parse_goto
    StepsAt-parse_goto t ne = search (steps_rules, safe_rules, Safe-await_label) depth 20

    pub StepsAt-parse_label : (t : Token F) → NotEof t.kind → StepsAt toks t lo (parse_label toks)
    unfolding parse_label
    StepsAt-parse_label t ne =
        search (steps_rules, safe_rules, Safe-define_label, kinds_NotEof) depth 20
