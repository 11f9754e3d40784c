-- ===== src/Parser/Rules.antt =====
-- Rules for the loops of the parser, which go on behind a token, and for what the parsers call back.
use lua2wasm.Prelude.{
  ℕ, suc, ◌+◌, ◌≤◌, ◌<◌, length, List, false, leb, ◌≡◌, arith, Bool-cases, inl, inr,
}
use lua2wasm.Lexer.Token.{TokKind}
use lua2wasm.Lexer.Scan.{Token}
use lua2wasm.Parser.Kinds.{same_kind}
use lua2wasm.Parser.Markers.{NotEof, same-NotEof}
use lua2wasm.Parser.State.{
  Action, pure, branch, peek, peek_at, advance, match_kind, if_match, give_up, ◌>>=◌,
}
use lua2wasm.Parser.Calls.{Calls}
use lua2wasm.Parser.Fits.{Follows-trans}
use lua2wasm.Parser.Safe.{
  Ended, Moves-trans, Safe, SafeAt, behind, behind-Follows, Safe-suc, get_elem?-below,
}
use lua2wasm.Parser.Steps.{
  Steps-Safe, Steps-peek_bind, StepsAt-peek_bind, StepsAt-branch, StepsAt-if_kind,
  StepsAt-fail_with, StepsAt-advance, StepsAt-peek_at_bind, StepsAt-weaken,
}

-- The parsers that are called back, from the cursor `lo` on.
pub record CallsSafe {F : Type 0} (toks : List (Token F)) (lo : ℕ) (c : Calls F) : Type 0 where
  pub prec : (n : ℕ) → 0 < n → Safe toks lo (c.parse_prec n)
  pub blk : (stops : List TokKind) → Safe toks lo (c.parse_block stops)

pub CallsSafe-suc :
    {F : Type 0} {toks : List (Token F)} {lo : ℕ} (c : Calls F)
    → CallsSafe toks lo c
    → CallsSafe toks (suc lo) c
CallsSafe-suc c s = record {
  prec = λ n h. Safe-suc (c.parse_prec n) (s.prec n h);
  blk = λ stops. Safe-suc (c.parse_block stops) (s.blk stops);
}

pub Safe-expr_of :
    {F : Type 0} {toks : List (Token F)} {lo : ℕ} (c : Calls F)
    → CallsSafe toks lo c
    → Safe toks lo (c.parse_prec 1)
Safe-expr_of c s = s.prec 1 (omega arith)

pub Safe-block_of :
    {F : Type 0} {toks : List (Token F)} {lo : ℕ} (c : Calls F) (stops : List TokKind)
    → CallsSafe toks lo c
    → Safe toks lo (c.parse_block stops)
Safe-block_of c stops s = s.blk stops

module _ {F : Type 0} {toks : List (Token F)} {lo : ℕ} where
  -- No fuel is needed where no token is left.
  pub Safe-give_up : {A : Type 0} → length toks ≤ lo → Safe toks lo (give_up {F = F} {A = A})
  Safe-give_up e = record { at = λ p h k. absurd (omega arith) }

  pub SafeAt-peek_bind :
      {A : Type 0} (t : Token F) (f : Token F → Action F A)
      → SafeAt toks t lo (f t)
      → SafeAt toks t lo (peek toks >>= f)
  unfolding ◌>>=◌ peek
  SafeAt-peek_bind t f s = record { at = λ p h k e. rw e (s.at p h k e) }

  module _ (ended : Ended toks) where
    pub Safe-if_match :
        {A : Type 0} (k : TokKind) (m n : Action F A)
        → NotEof k
        → Safe toks (suc lo) m
        → Safe toks lo n
        → Safe toks lo (if_match toks k m n)
    unfolding ◌>>=◌ if_match match_kind branch peek pure advance
    Safe-if_match k m n ne sm sn = record {
      at = λ p h l.
          let (t, e) = get_elem?-below toks p.pos l in
          rw e elim (Bool-cases (same_kind t.kind k)) [
            | inl s ↦
                let nt = same-NotEof t.kind k s ne in
                let more = ended.last_is_eof p.pos t e nt.differs in
                rw (s, e)
                  (Moves-trans toks p (behind p) (m (behind p)) (omega arith) (behind-Follows p)
                    (sm.at (behind p) (omega arith) more))
            | inr s ↦ rw s (sn.at p h l)
          ];
    }

    -- Two tokens are read where the second is of a kind that was looked for ahead.
    pub SafeAt-two :
        {A : Type 0} (t : Token F) (k : TokKind) (g : Token F → Action F A) (n : Action F A)
        → NotEof t.kind
        → NotEof k
        → ((a : Token F) → Safe toks lo (g a))
        → Safe toks lo n
        → SafeAt toks t lo (
            peek_at toks 1 >>= λ u.
            branch (same_kind u.kind k) (advance toks >>= λ a. advance toks >>= λ _. g a) n)
    unfolding ◌>>=◌ branch peek_at advance
    SafeAt-two t k g n nt nk sg sn = record {
      at = λ p h l e.
          let more = ended.last_is_eof p.pos t e nt.differs in
          let (u, e') = get_elem?-below toks (p.pos + 1) more in
          let inside : leb (length toks) (p.pos + 1) ≡ false = ground arith in
          rw (inside, e')
            elim (Bool-cases (same_kind u.kind k)) [
              | inl s ↦
                  let nu = same-NotEof u.kind k s nk in
                  let last = ended.last_is_eof (p.pos + 1) u e' nu.differs in
                  rw (s, e, e')
                    (Moves-trans toks p (behind (behind p)) (g t (behind (behind p))) (omega arith)
                      (Follows-trans p (behind p) (behind (behind p)) (behind-Follows p)
                        (behind-Follows (behind p)))
                      ((sg t).at (behind (behind p)) (omega arith) last))
              | inr s ↦ rw s (sn.at p h l)
            ];
    }

pub ruleset steps_rules = (
  Steps-peek_bind, StepsAt-peek_bind, StepsAt-if_kind, StepsAt-fail_with, StepsAt-advance,
  StepsAt-branch, StepsAt-peek_at_bind, StepsAt-weaken,
)

pub ruleset calls_rules = (Safe-expr_of, Safe-block_of, CallsSafe-suc)
