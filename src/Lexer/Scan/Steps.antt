-- ===== src/Lexer/Scan/Steps.antt =====
-- Words, numbers, operators and quoted strings each move the cursor forward over one token.
use lua2wasm.Prelude.{
  ℕ, zero, suc, ◌+◌, ◌-◌, ◌≤◌, ◌<◌, Bytes, length, drop, true, ◌||◌, ◌==◌, [], ◌∷◌, Option, none,
  some, arith, ◌≡◌, ◌≢◌, refl, length-drop,
}
use lua2wasm.Freestanding.Ctype.{isalpha, isalnum}
use lua2wasm.Freestanding.Mem.{peek, next, peek1, peek2}
use lua2wasm.Lexer.Token.{TokKind}
use lua2wasm.Lexer.Keyword.Names.{keyword-ne-eof}
use lua2wasm.Lexer.Text.{
  unexpected_character, scan_cap, Outcome, decoded, refused, overrun, stuck, read_string,
}
use lua2wasm.Lexer.Text.Digits.{IsUlong}
use lua2wasm.Lexer.Text.Budget.{IsQuote}
use lua2wasm.Lexer.Text.Bounds.{Safe, read_string-Safe}
use lua2wasm.Lexer.Text.Advance.{OutcomeAhead, read_string-OutcomeAhead}
use lua2wasm.Lexer.Number.{skip_while, Span}
use lua2wasm.Lexer.Cursor.{Moved, drop-Tail, Tail-cons, skip_while-Moved}
use lua2wasm.Lexer.Scan.{
  Token, Scan, skip, push, halt, fault, operator, scan_word, scan_string, scan_operator,
  number_token, float_token, decimal_token,
}

-- A token that is pushed at `p`, with the cursor behind it.
pub record Stands {F : Type 0} (p : Bytes) (line : ℕ) (t : Token F) (p' : Bytes) : Type 0 where
  pub start_is : t.start ≡ p
  pub line_is : t.line ≡ line
  pub len_is : t.len + length p' ≡ length p
  pub kind_ne_eof : t.kind ≢ TokKind.eof

abbrev pub Advances : {F : Type 0} → Bytes → ℕ → Scan F → Type 0
Advances p line (skip p' l) = Moved p' p × (line ≤ l)
Advances p line (push t p' l) = Moved p' p × (line ≤ l) × Stands p line t p'
Advances p line (halt p' l at why) = Unit
Advances p line fault = ⊥

abbrev Operates : Bytes → Option (TokKind × ℕ) → Type 0
Operates p none = Unit
Operates p (some (k, n)) = (0 < n) × (n ≤ length p) × (k ≢ TokKind.eof)

operator-Operates : (p : Bytes) → Operates p (operator (peek p) (peek1 p) (peek2 p))
unfolding operator
operator-Operates [] = tt
operator-Operates (c ∷ []) = ground arith
operator-Operates (c ∷ d ∷ []) = ground arith
operator-Operates (c ∷ d ∷ e ∷ rest) = ground arith

module _ {F : Type 0} (strtod : Bytes → F) where
  pub scan_word-Advances :
      (c : ℕ) (cs : Bytes) (line : ℕ)
      → (isalpha c || c == b'_') ≡ true
      → Advances (c ∷ cs) line (scan_word strtod (c ∷ cs) line)
  unfolding scan_word
  scan_word-Advances c cs line h =
      let stop = skip_while (λ c. isalnum c || c == b'_') (c ∷ cs) in
      let moved =
        skip_while-Moved (λ c. isalnum c || c == b'_') c cs (unfold isalnum in ground arith) in
      let shorter = moved.shorter in
      let len : length (c ∷ cs) - length stop + length stop ≡ length (c ∷ cs) = omega arith in
      (
        moved,
        omega arith,
        record {
          start_is = refl;
          line_is = refl;
          len_is = len;
          kind_ne_eof = keyword-ne-eof (c ∷ cs) _;
        },
      )

  pub number-Stands :
      (p : Bytes) (line : ℕ) (s : Span)
      → length s.stop ≤ length p
      → Stands p line (number_token strtod p line s) s.stop
  unfolding number_token float_token decimal_token
  number-Stands p line s h = ground arith

  pub scan_operator-Advances :
      (c : ℕ) (cs : Bytes) (line : ℕ) → Advances (c ∷ cs) line (scan_operator strtod (c ∷ cs) line)
  unfolding scan_operator
  scan_operator-Advances c cs line = go _ (operator-Operates (c ∷ cs))
    where
      go :
          (o : Option (TokKind × ℕ))
          → Operates (c ∷ cs) o
          → Advances {F = F} (c ∷ cs) line (elim o [
            | some (k, n) ↦
                push
                  (record {
                    kind = k;
                    start = c ∷ cs;
                    len = n;
                    line = line;
                    i_val = 0;
                    f_val = none;
                    str_buf = [];
                  })
                  (drop n (c ∷ cs))
                  line
            | none ↦ halt (next (c ∷ cs)) line line unexpected_character
          ])
      go none h = tt
      go (some (k, zero)) (z, h, ne) = elim z [ ]
      go (some (k, suc n)) (z, h, ne) = (
        Tail-cons c (drop-Tail n cs),
        omega arith,
        record {
          start_is = refl;
          line_is = refl;
          len_is = omega (arith, length-drop {0} n cs);
          kind_ne_eof = ne;
        },
      )

  pub scan_string-Advances :
      (ulong c : ℕ) (cs : Bytes) (line : ℕ)
      → IsUlong ulong
      → IsQuote c
      → Advances (c ∷ cs) line (scan_string strtod ulong (c ∷ cs) line)
  unfolding scan_string
  scan_string-Advances ulong c cs line u q =
      go (read_string ulong c (c ∷ cs) line) (read_string-Safe ulong c (c ∷ cs) line u q).0
        (read_string-OutcomeAhead ulong c (c ∷ cs) line)
    where
      go :
          (o : Outcome)
          → Safe (scan_cap c cs) (suc (length cs)) o
          → OutcomeAhead cs line o
          → Advances {F = F} (c ∷ cs) line (elim o [
            | decoded p' l bs ↦
                push
                  (record {
                    kind = TokKind.string;
                    start = c ∷ cs;
                    len = suc (length cs) - length p';
                    line = line;
                    i_val = 0;
                    f_val = none;
                    str_buf = bs;
                  })
                  p'
                  l
            | refused p' l m ↦ halt p' l l m
            | overrun ↦ fault
            | stuck ↦ fault
          ])
      go (decoded p' l bs) (fits, size) (t, h) = (
        Tail-cons c t,
        h,
        record { start_is = refl; line_is = refl; len_is = omega arith; kind_ne_eof = λ e. cc },
      )
      go (refused p' l m) s a = tt
      go overrun s a = absurd s
      go stuck s a = absurd s
