-- ===== src/Parser/Safe/Core.antt =====
-- Actions that end, read no token beyond the list, and move the cursor forward only: the rules
-- for the ways to build an action.
use lua2wasm.Prelude.{
  ℕ, zero, suc, ◌+◌, ◌-◌, ◌≤◌, ◌<◌, length, List, [], ◌∷◌, Bool, true, false, ◌==◌, leb,
  if◌then◌else◌, Option, none, some, ◌≡◌, refl, arith, Bool-cases, inl, inr,
}
use lua2wasm.Lexer.Token.{TokKind}
use lua2wasm.Lexer.Scan.{Token}
use lua2wasm.Parser.Kinds.{same_kind}
use lua2wasm.Parser.Markers.{NotEof}
use lua2wasm.Parser.Scope.{get_elem?}
use lua2wasm.Parser.Fits.{Fits, Wide, Follows, Follows-refl, Follows-trans}
use lua2wasm.Parser.State.{
  Parser, Action, Out, done, overrun, fault, stuck, is_ok, pure, gets, modify, branch, on_option,
  check_ok, peek, peek_at, advance, last_line, continue, ◌>>=◌,
}

-- The list is not empty, and only an end marker stands at its end.
pub record Ended {F : Type 0} (toks : List (Token F)) : Type 0 where
  pub nonempty : 0 < length toks
  pub last_is_eof :
      (i : ℕ) (t : Token F)
      → get_elem? toks i ≡ some t
      → same_kind t.kind TokKind.eof ≡ false
      → i + 1 < length toks

-- From the parser `p` the action ended at a cursor no further back within the tokens, and left
-- what every step keeps; or it came to a mark beyond the array in a frame of too many slots.
abbrev pub Moves : {F A : Type 0} → List (Token F) → Parser F → Out F A → Type 0
Moves toks p (done a q) = (p.pos ≤ q.pos) × (q.pos < length toks) × Follows p q
Moves toks p (overrun q) = Fits p → Wide q
Moves toks p fault = ⊥
Moves toks p stuck = ⊥

pub record Safe {F A : Type 0} (toks : List (Token F)) (lo : ℕ) (m : Action F A) : Type 0 where
  pub at : (p : Parser F) → lo ≤ p.pos → p.pos < length toks → Moves toks p (m p)

-- The same where the token at the cursor is `t`.
pub record SafeAt {F A : Type 0} (toks : List (Token F)) (t : Token F) (lo : ℕ) (m : Action F A)
    : Type 0 where
  pub at :
      (p : Parser F)
      → lo ≤ p.pos
      → p.pos < length toks
      → get_elem? toks p.pos ≡ some t
      → Moves toks p (m p)

pub Moves-trans :
    {F A : Type 0} (toks : List (Token F)) (p q : Parser F) (r : Out F A)
    → p.pos ≤ q.pos
    → Follows p q
    → Moves toks q r
    → Moves toks p r
Moves-trans toks p q (done a r) h s (l, k, t) = (omega arith, k, Follows-trans p q r s t)
Moves-trans toks p q (overrun r) h s k = λ fits. k (s.fits fits)
Moves-trans toks p q fault h s k = k
Moves-trans toks p q stuck h s k = k

-- The parser with its cursor behind the next token.
abbrev pub behind : {F : Type 0} → Parser F → Parser F
behind p = record p { pos = p.pos + 1 }

pub behind-Follows : {F : Type 0} (p : Parser F) → Follows p (behind p)
behind-Follows p = record { fits = λ h. h; keeps = λ e h. h }

pub get_elem?-below :
    {F : Type 0} (toks : List (Token F)) (i : ℕ)
    → i < length toks
    → (t : Token F) × (get_elem? toks i ≡ some t)
get_elem?-below [] i h = absurd (omega arith)
get_elem?-below (t ∷ ts) zero h = (t, refl)
get_elem?-below (t ∷ ts) (suc i) h = get_elem?-below ts i (omega arith)

module _ {F : Type 0} {toks : List (Token F)} {lo : ℕ} where
  pub Safe-pure : {A : Type 0} (a : A) → Safe toks lo (pure {F = F} a)
  unfolding pure
  Safe-pure a = record { at = λ p h k. (omega arith, k, Follows-refl p) }

  pub Safe-gets : {A : Type 0} (f : Parser F → A) → Safe toks lo (gets f)
  unfolding gets
  Safe-gets f = record { at = λ p h k. (omega arith, k, Follows-refl p) }

  pub Safe-modify :
      (f : Parser F → Parser F)
      → ((p : Parser F) → (f p).pos ≡ p.pos)
      → ((p : Parser F) → Follows p (f p))
      → Safe toks lo (modify f)
  unfolding modify
  Safe-modify f same follows = record {
    at = λ p h k. let e = same p in (omega arith, omega arith, follows p);
  }

  pub bind_out :
      {A B : Type 0} (f : A → Action F B) (p : Parser F) (r : Out F A)
      → lo ≤ p.pos
      → Moves toks p r
      → ((a : A) → Safe toks lo (f a))
      → Moves toks p (continue r f)
  bind_out f p (done a q) h (l, k, s) safe =
      Moves-trans toks p q (f a q) l s ((safe a).at q (omega arith) k)
  bind_out f p (overrun q) h k safe = k
  bind_out f p fault h k safe = k
  bind_out f p stuck h k safe = k

  pub Safe-bind :
      {A B : Type 0} (m : Action F A) (f : A → Action F B)
      → Safe toks lo m
      → ((a : A) → Safe toks lo (f a))
      → Safe toks lo (m >>= f)
  unfolding ◌>>=◌
  Safe-bind m f sm sf = record { at = λ p h k. bind_out f p (m p) h (sm.at p h k) sf }

  pub Safe-check_ok :
      {A : Type 0} (a : A) (m : Action F A) → Safe toks lo m → Safe toks lo (check_ok a m)
  unfolding check_ok
  Safe-check_ok a m s = record {
    at = λ p h k. elim (Bool-cases (is_ok p)) [
      | inl e ↦ rw (e, Moves) (s.at p h k)
      | inr e ↦ rw (e, Moves) (omega arith, k, Follows-refl p)
    ];
  }

  pub Safe-branch :
      {A : Type 0} (b : Bool) (m n : Action F A)
      → (b ≡ true → Safe toks lo m)
      → (b ≡ false → Safe toks lo n)
      → Safe toks lo (branch b m n)
  unfolding branch
  Safe-branch true m n sm sn = record { at = λ p h k. (sm refl).at p h k }
  Safe-branch false m n sm sn = record { at = λ p h k. (sn refl).at p h k }

  pub Safe-on_option :
      {A B : Type 0} (o : Option A) (m : Action F B) (f : A → Action F B)
      → Safe toks lo m
      → ((a : A) → Safe toks lo (f a))
      → Safe toks lo (on_option o m f)
  unfolding on_option
  Safe-on_option none m f sm sf = sm
  Safe-on_option (some a) m f sm sf = sf a

  pub Safe-peek_bind :
      {A : Type 0} (f : Token F → Action F A)
      → ((t : Token F) → SafeAt toks t lo (f t))
      → Safe toks lo (peek toks >>= f)
  unfolding ◌>>=◌ peek
  Safe-peek_bind f sf = record {
    at = λ p h k. let (t, e) = get_elem?-below toks p.pos k in rw e ((sf t).at p h k e);
  }

  pub SafeAt-weaken :
      {A : Type 0} (t : Token F) (m : Action F A) → Safe toks lo m → SafeAt toks t lo m
  SafeAt-weaken t m s = record { at = λ p h k e. s.at p h k }

  pub SafeAt-branch :
      {A : Type 0} (t : Token F) (b : Bool) (m n : Action F A)
      → (b ≡ true → SafeAt toks t lo m)
      → (b ≡ false → SafeAt toks t lo n)
      → SafeAt toks t lo (branch b m n)
  unfolding branch
  SafeAt-branch t true m n sm sn = record { at = λ p h k. (sm refl).at p h k }
  SafeAt-branch t false m n sm sn = record { at = λ p h k. (sn refl).at p h k }

  module _ (ended : Ended toks) where
    pub Safe-peek : Safe toks lo (peek toks)
    unfolding peek
    Safe-peek = record {
      at = λ p h k.
          let (t, e) = get_elem?-below toks p.pos k in rw e (omega arith, k, Follows-refl p);
    }

    pub Safe-peek_at : (off : ℕ) → Safe toks lo (peek_at toks off)
    unfolding peek_at
    Safe-peek_at off = record {
      at = λ p h k.
          let positive = ended.nonempty in
          let i = if leb (length toks) (p.pos + off) then length toks - 1 else p.pos + off in
          let (t, e) = get_elem?-below toks i (ground arith) in
          rw e (omega arith, k, Follows-refl p);
    }

    pub Safe-last_line : Safe toks lo (last_line toks)
    unfolding last_line
    Safe-last_line = record {
      at = λ p h k.
          let i = if p.pos == 0 then p.pos else p.pos - 1 in
          let (t, e) = get_elem?-below toks i (ground arith) in
          rw e (omega arith, k, Follows-refl p);
    }

    -- A step over a token that is no end marker.
    pub SafeAt-advance :
        {A : Type 0} (t : Token F) (f : Token F → Action F A)
        → NotEof t.kind
        → ((t : Token F) → Safe toks (suc lo) (f t))
        → SafeAt toks t lo (advance toks >>= f)
    unfolding ◌>>=◌ advance
    SafeAt-advance t f ne sf = record {
      at = λ p h k e.
          let more = ended.last_is_eof p.pos t e ne.differs in
          rw e (
            Moves-trans toks p (behind p) (f t (behind p)) (omega arith) (behind-Follows p)
              ((sf t).at (behind p) (omega arith) more));
    }
