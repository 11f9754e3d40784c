-- ===== src/Parser/Steps.antt =====
-- Actions that move past a token whenever they leave the parser without an error, and tests that
-- follow a token's being read.
use lua2wasm.Prelude.{
  ℕ, suc, ◌+◌, ◌-◌, ◌≤◌, ◌<◌, length, List, Bool, true, false, leb, if◌then◌else◌, some, ◌≡◌, arith,
  Bool-cases, inl, inr,
}
use lua2wasm.Lexer.Token.{TokKind}
use lua2wasm.Lexer.Scan.{Token}
use lua2wasm.Parser.Kinds.{same_kind}
use lua2wasm.Parser.Markers.{NotEof, same-NotEof}
use lua2wasm.Parser.Scope.{get_elem?}
use lua2wasm.Parser.State.{
  Parser, Action, Out, done, overrun, fault, stuck, Complaint, is_ok, pure, branch, check_ok,
  set_error_at, set_error, fail_with, peek, peek_at, advance, continue, ◌>>=◌,
}
use lua2wasm.Parser.Fits.{Fits, Wide, Follows, Follows-refl, Follows-trans, recorded}
use lua2wasm.Parser.Safe.{behind, behind-Follows, Ended, Moves, Safe, SafeAt, get_elem?-below}

-- The action ended behind `n`, if no error is recorded.
abbrev pub Passes : {F A : Type 0} → List (Token F) → Parser F → Out F A → Type 0
Passes toks p (done a q) =
    (p.pos ≤ q.pos) × (q.pos < length toks) × Follows p q × (is_ok q ≡ true → p.pos < q.pos)
Passes toks p (overrun q) = Fits p → Wide q
Passes toks p fault = ⊥
Passes toks p stuck = ⊥

pub record Steps {F A : Type 0} (toks : List (Token F)) (lo : ℕ) (m : Action F A) : Type 0 where
  pub at : (p : Parser F) → lo ≤ p.pos → p.pos < length toks → Passes toks p (m p)

pub record StepsAt {F A : Type 0} (toks : List (Token F)) (t : Token F) (lo : ℕ) (m : Action F A)
    : Type 0 where
  pub at :
      (p : Parser F)
      → lo ≤ p.pos
      → p.pos < length toks
      → get_elem? toks p.pos ≡ some t
      → Passes toks p (m p)

Passes-Moves :
    {F A : Type 0} (toks : List (Token F)) (p : Parser F) (r : Out F A)
    → Passes toks p r
    → Moves toks p r
Passes-Moves toks p (done a q) (l, k, s, h) = (l, k, s)
Passes-Moves toks p (overrun q) h = h
Passes-Moves toks p fault h = h
Passes-Moves toks p stuck h = h

Moves-Passes :
    {F A : Type 0} (toks : List (Token F)) (p q : Parser F) (r : Out F A)
    → p.pos < q.pos
    → Follows p q
    → Moves toks q r
    → Passes toks p r
Moves-Passes toks p q (done a r) h s (l, k, t) =
    (omega arith, k, Follows-trans p q r s t, λ e. omega arith)
Moves-Passes toks p q (overrun r) h s k = λ fits. k (s.fits fits)
Moves-Passes toks p q fault h s k = k
Moves-Passes toks p q stuck h s k = k

module _ {F : Type 0} {toks : List (Token F)} {lo : ℕ} where
  pub Steps-Safe : {A : Type 0} (m : Action F A) → Steps toks lo m → Safe toks lo m
  Steps-Safe m s = record { at = λ p h k. Passes-Moves toks p (m p) (s.at p h k) }

  pub StepsAt-weaken :
      {A : Type 0} (t : Token F) (m : Action F A) → Steps toks lo m → StepsAt toks t lo m
  StepsAt-weaken t m s = record { at = λ p h k e. s.at p h k }

  pub StepsAt-SafeAt :
      {A : Type 0} (t : Token F) (m : Action F A) → StepsAt toks t lo m → SafeAt toks t lo m
  StepsAt-SafeAt t m s = record { at = λ p h k e. Passes-Moves toks p (m p) (s.at p h k e) }

  pub Steps-peek_bind :
      {A : Type 0} (f : Token F → Action F A)
      → ((t : Token F) → StepsAt toks t lo (f t))
      → Steps toks lo (peek toks >>= f)
  unfolding ◌>>=◌ peek
  Steps-peek_bind f sf = record {
    at = λ p h k. let (t, e) = get_elem?-below toks p.pos k in rw e ((sf t).at p h k e);
  }

  -- A second look at the same token.
  pub StepsAt-peek_bind :
      {A : Type 0} (t : Token F) (f : Token F → Action F A)
      → StepsAt toks t lo (f t)
      → StepsAt toks t lo (peek toks >>= f)
  unfolding ◌>>=◌ peek
  StepsAt-peek_bind t f s = record { at = λ p h k e. rw e (s.at p h k e) }

  pub StepsAt-branch :
      {A : Type 0} (t : Token F) (b : Bool) (m n : Action F A)
      → StepsAt toks t lo m
      → StepsAt toks t lo n
      → StepsAt toks t lo (branch b m n)
  unfolding branch
  StepsAt-branch t true m n sm sn = record { at = λ p h k. sm.at p h k }
  StepsAt-branch t false m n sm sn = record { at = λ p h k. sn.at p h k }

  pub StepsAt-if_kind :
      {A : Type 0} (t : Token F) (k : TokKind) (m n : Action F A)
      → NotEof k
      → (NotEof t.kind → StepsAt toks t lo m)
      → StepsAt toks t lo n
      → StepsAt toks t lo (branch (same_kind t.kind k) m n)
  unfolding branch
  StepsAt-if_kind t k m n ne sm sn = elim (Bool-cases (same_kind t.kind k)) [
    | inl e ↦
        let s = sm (same-NotEof t.kind k e ne) in record { at = λ p h l g. rw e (s.at p h l g) }
    | inr e ↦ record { at = λ p h l g. rw e (sn.at p h l g) }
  ]

  check_out :
      {A B : Type 0} (a : B) (f : A → Action F B) (p : Parser F) (r : Out F A)
      → lo ≤ p.pos
      → Passes toks p r
      → ((a : A) → Safe toks (suc lo) (f a))
      → Passes toks p (continue r (λ x. check_ok a (f x)))
  unfolding check_ok
  check_out a f p (done x q) h (l, k, s, ok) safe = elim (Bool-cases (is_ok q)) [
    | inl e ↦
        let more = ok e in
        rw (e, Passes) (Moves-Passes toks p q (f x q) more s ((safe x).at q (omega arith) k))
    | inr e ↦ rw (e, Passes) (l, k, s, λ e'. absurd (ground arith))
  ]
  check_out a f p (overrun q) h k safe = k
  check_out a f p fault h k safe = k
  check_out a f p stuck h k safe = k

  -- What is done after a test for an error is done behind the token.
  pub Steps-check :
      {A B : Type 0} (m : Action F A) (a : B) (f : A → Action F B)
      → Steps toks lo m
      → ((a : A) → Safe toks (suc lo) (f a))
      → Steps toks lo (m >>= λ x. check_ok a (f x))
  unfolding ◌>>=◌
  Steps-check m a f sm sf = record { at = λ p h k. check_out a f p (m p) h (sm.at p h k) sf }

  pub StepsAt-fail_with :
      {A : Type 0} (t : Token F) (a : A) (why : Complaint)
      → StepsAt toks t lo (fail_with toks a why)
  unfolding fail_with set_error set_error_at peek pure ◌>>=◌
  StepsAt-fail_with t a why = record {
    at = λ p h k e. rw e elim (Bool-cases (is_ok p)) [
      | inl o ↦
          rw (o, Passes)
            (
              omega arith,
              k,
              record { fits = λ f. f; keeps = λ err g. absurd (recorded p err g o) },
              λ e'. absurd (ground arith),
            )
      | inr o ↦ rw (o, Passes) (omega arith, k, Follows-refl p, λ e'. absurd (ground arith))
    ];
  }

  module _ (ended : Ended toks) where
    pub StepsAt-advance :
        {A : Type 0} (t : Token F) (f : Token F → Action F A)
        → NotEof t.kind
        → ((t : Token F) → Safe toks (suc lo) (f t))
        → StepsAt toks t lo (advance toks >>= f)
    unfolding ◌>>=◌ advance
    StepsAt-advance t f ne sf = record {
      at = λ p h k e.
          let more = ended.last_is_eof p.pos t e ne.differs in
          rw e (
            Moves-Passes toks p (behind p) (f t (behind p)) (omega arith) (behind-Follows p)
              ((sf t).at (behind p) (omega arith) more));
    }

    pub StepsAt-peek_at_bind :
        {A : Type 0} (t : Token F) (off : ℕ) (f : Token F → Action F A)
        → ((u : Token F) → StepsAt toks t lo (f u))
        → StepsAt toks t lo (peek_at toks off >>= f)
    unfolding ◌>>=◌ peek_at
    StepsAt-peek_at_bind t off f sf = record {
      at = λ p h k g.
          let positive = ended.nonempty in
          let i = if leb (length toks) (p.pos + off) then length toks - 1 else p.pos + off in
          let (u, e) = get_elem?-below toks i (ground arith) in rw e ((sf u).at p h k g);
    }
