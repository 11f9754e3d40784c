-- ===== src/Parser/Safe/Tokens.antt =====
-- The rules for errors, and for the tests and steps over a token.
use lua2wasm.Prelude.{ℕ, suc, Bytes, List, true, false, arith, Bool-cases, inl, inr}
use lua2wasm.Lexer.Token.{TokKind}
use lua2wasm.Lexer.Scan.{Token}
use lua2wasm.Parser.Kinds.{same_kind}
use lua2wasm.Parser.Markers.{NotEof, same-NotEof, ident-NotEof}
use lua2wasm.Parser.Fits.{
  Follows, Follows-refl, Follows-trans, Follows-same, Follows-frame, recorded,
}
use lua2wasm.Parser.State.{
  Action, Complaint, is_ok, branch, set_error_at, set_error, fail_with, peek, advance, match_kind,
  if_match, expect, take_ident, ◌>>=◌,
}
use lua2wasm.Parser.Safe.Core.{
  Ended, Moves, Safe, SafeAt, Safe-pure, Safe-gets, Safe-modify, Safe-bind, Safe-check_ok,
  Safe-branch, Safe-on_option, Safe-peek_bind, SafeAt-weaken, SafeAt-branch, Safe-peek,
  Safe-last_line, SafeAt-advance, bind_out, Safe-peek_at,
}

pub Safe-suc :
    {F A : Type 0} {toks : List (Token F)} {lo : ℕ} (m : Action F A)
    → Safe toks lo m
    → Safe toks (suc lo) m
Safe-suc m s = record { at = λ p h k. s.at p (omega arith) k }

module _ {F : Type 0} {toks : List (Token F)} {lo : ℕ} where
  pub Safe-set_error_at :
      (line : ℕ) (why : Complaint) → Safe toks lo (set_error_at {F = F} line why)
  unfolding set_error_at
  Safe-set_error_at line why = record {
    at = λ p h k. elim (Bool-cases (is_ok p)) [
      | inl e ↦
          rw (e, Moves)
            (omega arith, k, record { fits = λ f. f; keeps = λ err g. absurd (recorded p err g e) })
      | inr e ↦ rw (e, Moves) (omega arith, k, Follows-refl p)
    ];
  }

  pub Safe-set_error : (why : Complaint) → Safe toks lo (set_error toks why)
  unfolding set_error
  Safe-set_error why =
      Safe-peek_bind _
        (λ t. SafeAt-weaken t (set_error_at t.line why) (Safe-set_error_at t.line why))

  pub Safe-fail_with : {A : Type 0} (a : A) (why : Complaint) → Safe toks lo (fail_with toks a why)
  unfolding fail_with
  Safe-fail_with a why = Safe-bind (set_error toks why) _ (Safe-set_error why) (λ _. Safe-pure a)

  pub SafeAt-if_kind :
      {A : Type 0} (t : Token F) (k : TokKind) (m n : Action F A)
      → NotEof k
      → (NotEof t.kind → SafeAt toks t lo m)
      → SafeAt toks t lo n
      → SafeAt toks t lo (branch (same_kind t.kind k) m n)
  SafeAt-if_kind t k m n ne sm sn =
      SafeAt-branch t (same_kind t.kind k) m n (λ e. sm (same-NotEof t.kind k e ne)) (λ _. sn)

  pub SafeAt-bind :
      {A B : Type 0} (t : Token F) (m : Action F A) (f : A → Action F B)
      → SafeAt toks t lo m
      → ((a : A) → Safe toks lo (f a))
      → SafeAt toks t lo (m >>= f)
  unfolding ◌>>=◌
  SafeAt-bind t m f sm sf = record { at = λ p h k e. bind_out f p (m p) h (sm.at p h k e) sf }

  module _ (ended : Ended toks) where
    pub SafeAt-step :
        {A : Type 0} (t : Token F) (f : Token F → Action F A)
        → NotEof t.kind
        → ((t : Token F) → Safe toks lo (f t))
        → SafeAt toks t lo (advance toks >>= f)
    SafeAt-step t f ne sf = SafeAt-advance ended t f ne (λ t'. Safe-suc (f t') (sf t'))

    pub Safe-match_kind : (k : TokKind) → NotEof k → Safe toks lo (match_kind toks k)
    unfolding match_kind
    Safe-match_kind k ne = Safe-peek_bind _ (λ t.
        SafeAt-if_kind t k _ _ ne (λ e. SafeAt-step t _ e (λ _. Safe-pure true))
          (SafeAt-weaken t _ (Safe-pure false)))

    pub Safe-if_match_here :
        {A : Type 0} (k : TokKind) (m n : Action F A)
        → NotEof k
        → Safe toks lo m
        → Safe toks lo n
        → Safe toks lo (if_match toks k m n)
    unfolding if_match
    Safe-if_match_here k m n ne sm sn =
        Safe-bind _ _ (Safe-match_kind k ne) (λ b. Safe-branch b _ _ (λ _. sm) (λ _. sn))

    pub Safe-expect : (k : TokKind) (what : Bytes) → NotEof k → Safe toks lo (expect toks k what)
    unfolding expect
    Safe-expect k what ne = Safe-bind (match_kind toks k) _ (Safe-match_kind k ne) (λ found.
        Safe-branch found _ _ (λ _. Safe-pure true)
          (λ _.
            Safe-bind (peek toks) _ (Safe-peek ended)
              (λ t. Safe-bind _ _ (Safe-set_error _) (λ _. Safe-pure false))))

    pub Safe-take_ident :
        {A : Type 0} (a : A) (why : Bytes) (f : Token F → Action F A)
        → ((t : Token F) → Safe toks lo (f t))
        → Safe toks lo (take_ident toks a why f)
    unfolding take_ident
    Safe-take_ident a why f sf = Safe-peek_bind _ (λ t.
        SafeAt-if_kind t TokKind.ident _ _ ident-NotEof (λ e. SafeAt-step t _ e sf)
          (SafeAt-weaken t _ (Safe-fail_with a _)))

pub ruleset safe_rules = (
  Safe-pure, Safe-gets, Safe-modify, Follows-same, Follows-frame, Safe-check_ok, Safe-branch,
  Safe-on_option, Safe-set_error, Safe-set_error_at, Safe-fail_with, Safe-peek_bind, SafeAt-if_kind,
  SafeAt-branch, Safe-peek, Safe-last_line, SafeAt-step, Safe-match_kind, Safe-if_match_here,
  Safe-expect, Safe-take_ident, Safe-bind, SafeAt-bind, SafeAt-weaken,
)
