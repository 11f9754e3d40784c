-- ===== src/Parser/Expr/Ends.antt =====
-- The parsers of calls, of indexing and of operators end.
use lua2wasm.Prelude.{
  ℕ, zero, suc, ◌+◌, ◌≤◌, ◌<◌, length, List, false, ◌≡◌, arith, ltb, Option-cases, inl, inr,
}
use lua2wasm.Lexer.Token.{TokKind}
use lua2wasm.Lexer.Scan.{Token}
use lua2wasm.Parser.Operators.{BinOp, prec_of, binop_of}
use lua2wasm.Parser.Operators.Reachable.{binop_of-prec_of}
use lua2wasm.Parser.Kinds.{same_kind}
use lua2wasm.Parser.State.{Action, on_option, unreachable}
use lua2wasm.Parser.Ast.{Expr, UnOp}
use lua2wasm.Parser.Calls.{Calls}
use lua2wasm.Parser.Safe.{
  Ended, Safe, SafeAt, SafeAt-advance, SafeAt-branch, SafeAt-weaken, Safe-bind, Safe-pure,
  Safe-peek_bind, Safe-check_ok, safe_rules,
}
use lua2wasm.Parser.Steps.{Steps, StepsAt, Steps-Safe, Steps-check}
use lua2wasm.Parser.Markers.{NotEof, kinds_NotEof}
use lua2wasm.Parser.Rules.{CallsSafe, CallsSafe-suc, Safe-give_up, calls_rules, steps_rules}
use lua2wasm.Parser.Primary.{parse_primary}
use lua2wasm.Parser.Primary.Ends.{Safe-parse_list, Steps-parse_primary}
use lua2wasm.Parser.Expr.{
  parse_args, parse_method_args, chain_call, chain_field, chain_index, chain_string, chain_table,
  chain_method, chain_loop, parse_prefix_chain, unary_of, parse_unary, next_min, binary_loop,
  parse_prec,
}

-- A token whose level is at least 1 is no end marker, and has an operator.
NotEof-prec_of :
    (k : TokKind) (min_prec : ℕ) → 0 < min_prec → ltb (prec_of k) min_prec ≡ false → NotEof k
unfolding prec_of same_kind
NotEof-prec_of k min_prec h e = record { differs = ground arith }

next_min-positive :
    (k : TokKind) (min_prec : ℕ) → 0 < min_prec → ltb (prec_of k) min_prec ≡ false → 0 < next_min k
unfolding next_min
next_min-positive k min_prec h e = ground arith

module _ {F : Type 0} {toks : List (Token F)} (ended : Ended toks) (c : Calls F) where
  Safe-parse_args : {lo : ℕ} → CallsSafe toks lo c → Safe toks lo (parse_args toks c)
  unfolding parse_args
  Safe-parse_args cs = search (safe_rules, Safe-parse_list, kinds_NotEof) depth 20

  -- An argument that is a table.
  Safe-parse_primary : {lo : ℕ} → CallsSafe toks lo c → Safe toks lo (parse_primary toks c)
  Safe-parse_primary cs = Steps-Safe _ (Steps-parse_primary ended c (CallsSafe-suc c cs))

  Safe-parse_method_args : {lo : ℕ} → CallsSafe toks lo c → Safe toks lo (parse_method_args toks c)
  unfolding parse_method_args
  Safe-parse_method_args cs =
      search (safe_rules, Safe-parse_args, Safe-parse_primary, kinds_NotEof) depth 30

  module _ {lo : ℕ} (t : Token F) (line : ℕ) (e : Expr F) (k : Expr F → Action F (Expr F))
      (cs : CallsSafe toks (suc lo) c) (rest : (e : Expr F) → Safe toks (suc lo) (k e)) where
    SafeAt-chain_call : NotEof t.kind → SafeAt toks t lo (chain_call toks c line e k)
    unfolding chain_call
    SafeAt-chain_call ne =
        SafeAt-advance ended t _ ne
          (λ _. search (rest, safe_rules, Safe-parse_args, calls_rules, kinds_NotEof) depth 20)

    SafeAt-chain_field : NotEof t.kind → SafeAt toks t lo (chain_field toks c line e k)
    unfolding chain_field
    SafeAt-chain_field ne =
        SafeAt-advance ended t _ ne (λ _. search (rest, safe_rules, kinds_NotEof) depth 20)

    SafeAt-chain_index : NotEof t.kind → SafeAt toks t lo (chain_index toks c line e k)
    unfolding chain_index
    SafeAt-chain_index ne =
        SafeAt-advance ended t _ ne
          (λ _. search (rest, safe_rules, calls_rules, kinds_NotEof) depth 20)

    SafeAt-chain_string : NotEof t.kind → SafeAt toks t lo (chain_string toks c line e k)
    unfolding chain_string
    SafeAt-chain_string ne = SafeAt-advance ended t _ ne (λ _. rest _)

    SafeAt-chain_table : SafeAt toks t lo (chain_table toks c line e k)
    unfolding chain_table
    SafeAt-chain_table =
        SafeAt-weaken t _
          (Steps-Safe _ (Steps-check _ _ _ (Steps-parse_primary ended c cs) (λ arg. rest _)))

    SafeAt-chain_method : NotEof t.kind → SafeAt toks t lo (chain_method toks c line e k)
    unfolding chain_method
    SafeAt-chain_method ne =
        SafeAt-advance ended t _ ne
          (λ _. search (rest, safe_rules, Safe-parse_method_args, kinds_NotEof) depth 20)

  chain_step :
      (lo fuel : ℕ)
      → CallsSafe toks (suc lo) c
      → ((e : Expr F) → Safe toks (suc lo) (chain_loop toks c fuel e))
      → (e : Expr F) → Safe toks lo (chain_loop toks c (suc fuel) e)
  unfolding chain_loop
  chain_step lo fuel cs rest e =
      search
        (
          rest, SafeAt-chain_call, SafeAt-chain_field, SafeAt-chain_index, SafeAt-chain_string,
          SafeAt-chain_table, SafeAt-chain_method, safe_rules, kinds_NotEof,
        )
        depth 20

  chain_loop-Safe :
      (lo fuel : ℕ)
      → CallsSafe toks (suc lo) c
      → length toks ≤ lo + fuel
      → (e : Expr F) → Safe toks lo (chain_loop toks c fuel e)
  unfolding chain_loop
  chain_loop-Safe lo zero cs h e = Safe-give_up (omega arith)
  chain_loop-Safe lo (suc fuel) cs h e =
      chain_step lo fuel cs (chain_loop-Safe (suc lo) fuel (CallsSafe-suc c cs) (omega arith)) e

  pub Steps-parse_prefix_chain :
      {lo : ℕ} → CallsSafe toks (suc lo) c → Steps toks lo (parse_prefix_chain toks c)
  unfolding parse_prefix_chain
  Steps-parse_prefix_chain {lo = lo} cs =
      Steps-check _ _ _ (Steps-parse_primary ended c cs)
        (chain_loop-Safe (suc lo) (length toks + 1) (CallsSafe-suc c cs) (omega arith))

  StepsAt-unary_of :
      {lo : ℕ} (t : Token F) (line : ℕ) (op : UnOp)
      → CallsSafe toks (suc lo) c
      → NotEof t.kind
      → StepsAt toks t lo (unary_of toks c line op)
  unfolding unary_of
  StepsAt-unary_of t line op cs ne =
      let operand = cs.prec 11 (omega arith) in search (steps_rules, safe_rules) depth 20

  Steps-parse_unary : {lo : ℕ} → CallsSafe toks (suc lo) c → Steps toks lo (parse_unary toks c)
  unfolding parse_unary
  Steps-parse_unary cs =
      search (steps_rules, StepsAt-unary_of, Steps-parse_prefix_chain, kinds_NotEof) depth 30

  module _ (min_prec : ℕ) (positive : 0 < min_prec) where
    -- What is done with the operator of a token of this level.
    with_operator :
        {A : Type 0} {lo : ℕ} (k : TokKind) (f : BinOp → Action F A)
        → ltb (prec_of k) min_prec ≡ false
        → ((op : BinOp) → Safe toks lo (f op))
        → Safe toks lo (on_option (binop_of k) unreachable f)
    unfolding on_option
    with_operator k f e sf = elim (Option-cases (binop_of k)) [
      | inl o ↦ absurd ((binop_of-prec_of k).0 (ground arith) o)
      | inr (op, o) ↦ rw o (sf op)
    ]

    binary_step :
        (lo fuel : ℕ)
        → CallsSafe toks (suc lo) c
        → ((e : Expr F) → Safe toks (suc lo) (binary_loop toks c fuel min_prec e))
        → (e : Expr F) → Safe toks lo (binary_loop toks c (suc fuel) min_prec e)
    unfolding binary_loop
    binary_step lo fuel cs rest e = Safe-peek_bind _ (λ t.
        SafeAt-branch t _ _ _ (λ _. SafeAt-weaken t _ (Safe-pure e))
          (λ h. SafeAt-advance ended t _ (NotEof-prec_of t.kind min_prec positive h) (λ _.
            Safe-bind _ _ (cs.prec (next_min t.kind) (next_min-positive t.kind min_prec positive h))
              (λ rhs. Safe-check_ok _ _ (with_operator t.kind _ h (λ op. rest _))))))

    binary_loop-Safe :
        (lo fuel : ℕ)
        → CallsSafe toks (suc lo) c
        → length toks ≤ lo + fuel
        → (e : Expr F) → Safe toks lo (binary_loop toks c fuel min_prec e)
    unfolding binary_loop
    binary_loop-Safe lo zero cs h e = Safe-give_up (omega arith)
    binary_loop-Safe lo (suc fuel) cs h e =
        binary_step lo fuel cs (binary_loop-Safe (suc lo) fuel (CallsSafe-suc c cs) (omega arith)) e

    pub Safe-parse_prec :
        {lo : ℕ} → CallsSafe toks (suc lo) c → Safe toks lo (parse_prec toks c min_prec)
    unfolding parse_prec
    Safe-parse_prec {lo = lo} cs = Steps-Safe _ (
        Steps-check _ _ _ (Steps-parse_unary cs)
          (binary_loop-Safe (suc lo) (length toks + 1) (CallsSafe-suc c cs) (omega arith)))
