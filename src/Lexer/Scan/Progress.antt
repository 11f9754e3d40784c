-- ===== src/Lexer/Scan/Progress.antt =====
-- Each part of `lex` moves the cursor forward within the source, and no part faults.
use lua2wasm.Prelude.{
  ℕ, ◌-◌, ◌≤◌, Bytes, length, true, not, ◌&&◌, ◌||◌, ◌==◌, if◌then◌else◌, ◌∷◌, Option, none, some,
  arith, ◌≡◌, refl, inl, inr, Bool-cases,
}
use lua2wasm.Freestanding.Ctype.{isdigit, isspace, isalpha}
use lua2wasm.Freestanding.Mem.{peek, next}
use lua2wasm.Lexer.Token.{TokKind}
use lua2wasm.Lexer.Text.{unterminated_long_string, unterminated_comment}
use lua2wasm.Lexer.Text.Digits.{IsUlong}
use lua2wasm.Lexer.Bracket.{Opened, try_open_long_bracket, Body, read, missing, read_long_body}
use lua2wasm.Lexer.Bracket.Advance.{
  BodyAhead, read_long_body-BodyAhead, OpenedAhead, opened-OpenedAhead,
}
use lua2wasm.Lexer.Number.{skip_while, scan_number, scan_point}
use lua2wasm.Lexer.Number.Advance.{scan_number-Moved, scan_point-Moved}
use lua2wasm.Lexer.Cursor.{
  Moved, Tail-refl, Tail-cons, Tail-of_Moved, Tail-trans, next-Tail, Moved-trans, skip_while-Tail,
}
use lua2wasm.Lexer.Scan.{
  skip, push, halt, scan, scan_bracket, scan_operator, scan_punctuation, skip_comment, number_token,
  float_token,
}
use lua2wasm.Lexer.Scan.Steps.{
  Stands, Advances, scan_word-Advances, number-Stands, scan_operator-Advances, scan_string-Advances,
}

module _ {F : Type 0} (strtod : Bytes → F) where
  scan_bracket-Advances :
      (p : Bytes) (line : ℕ) (o : Opened)
      → Moved o.body p
      → line ≤ o.line
      → Advances p line (scan_bracket strtod p line o)
  unfolding scan_bracket
  scan_bracket-Advances p line o moved le =
      go (read_long_body o.level o.body o.line) (read_long_body-BodyAhead o.level o.body o.line)
    where
      go :
          (b : Body)
          → BodyAhead o.body o.line b
          → Advances {F = F} p line (elim b [
            | read bs p' l ↦
                push
                  (record {
                    kind = TokKind.string;
                    start = p;
                    len = length p - length p';
                    line = line;
                    i_val = 0;
                    f_val = none;
                    str_buf = bs;
                  })
                  p'
                  l
            | missing p' l ↦ halt p' l l unterminated_long_string
          ])
      go (read bs p' l) (t, h) =
          let m = Moved-trans t moved in
          let shorter = m.shorter in
          (
            m,
            omega arith,
            record { start_is = refl; line_is = refl; len_is = omega arith; kind_ne_eof = λ e. cc },
          )
      go (missing p' l) a = tt

  skip_comment-Advances :
      (p0 p : Bytes) (line : ℕ) → Moved p p0 → Advances p0 line (skip_comment strtod p line)
  unfolding skip_comment
  skip_comment-Advances p0 p line moved =
      go (try_open_long_bracket p line) (opened-OpenedAhead p line)
    where
      body :
          (b : Body) (o : Opened)
          → Moved o.body p
          → line ≤ o.line
          → BodyAhead o.body o.line b
          → Advances {F = F} p0 line (elim b [
            | read bs p' l ↦ skip p' l
            | missing p' l ↦ halt p' l l unterminated_comment
          ])
      body (read bs p' l) o m k (t, h) =
          (Moved-trans (Tail-trans t (Tail-of_Moved m)) moved, omega arith)
      body (missing p' l) o m k a = tt

      go :
          (o : Option Opened)
          → OpenedAhead p line o
          → Advances {F = F} p0 line (elim o [
            | some o ↦ elim (read_long_body o.level o.body o.line) [
              | read bs p' l ↦ skip p' l
              | missing p' l ↦ halt p' l l unterminated_comment
            ]
            | none ↦ skip (skip_while (λ c. not (c == 0) && not (c == 10)) p) line
          ])
      go none a = (Moved-trans (skip_while-Tail _ p) moved, omega arith)
      go (some o) (m, k) =
          body (read_long_body o.level o.body o.line) o m k
            (read_long_body-BodyAhead o.level o.body o.line)

  scan_punctuation-Advances :
      (c : ℕ) (cs : Bytes) (line : ℕ)
      → Advances (c ∷ cs) line (scan_punctuation strtod (c ∷ cs) line)
  unfolding scan_punctuation
  scan_punctuation-Advances c cs line =
      go (try_open_long_bracket (c ∷ cs) line) (opened-OpenedAhead (c ∷ cs) line)
    where
      point :
          Stands
            (c ∷ cs)
            line
            (float_token strtod (c ∷ cs) (length (c ∷ cs) - length (scan_point (c ∷ cs))) line)
            (scan_point (c ∷ cs))
      point =
          let shorter = (scan_point-Moved c cs).shorter in
          unfold float_token in
          record { start_is = refl; line_is = refl; len_is = omega arith; kind_ne_eof = λ e. cc }

      go :
          (o : Option Opened)
          → OpenedAhead (c ∷ cs) line o
          → Advances (c ∷ cs) line (elim o [
            | some o ↦ scan_bracket strtod (c ∷ cs) line o
            | none ↦
                if c == b'.' && not (peek cs == b'.') && isdigit (peek cs)
                then push
                    (float_token strtod
                      (c ∷ cs)
                      (length (c ∷ cs) - length (scan_point (c ∷ cs)))
                      line)
                    (scan_point (c ∷ cs))
                    line
                else scan_operator strtod (c ∷ cs) line
          ])
      go (some o) (m, k) = scan_bracket-Advances (c ∷ cs) line o m k
      go none a = elim (Bool-cases (c == b'.' && not (peek cs == b'.') && isdigit (peek cs))) [
        | inl e ↦ rw e (scan_point-Moved c cs, omega arith, point)
        | inr e ↦ rw e (scan_operator-Advances strtod c cs line)
      ]

  number :
      (c : ℕ) (cs : Bytes) (line : ℕ)
      → isdigit c ≡ true
      → Advances (c ∷ cs) line (
          push
            (number_token strtod (c ∷ cs) line (scan_number (c ∷ cs)))
            (scan_number (c ∷ cs)).stop
            line)
  number c cs line d =
      let m = scan_number-Moved (c ∷ cs) d in
      let shorter = m.shorter in
      (m, omega arith, number-Stands strtod (c ∷ cs) line (scan_number (c ∷ cs)) (omega arith))

  -- The loop body, at any byte but NUL.
  pub scan-Advances :
      (ulong c : ℕ) (cs : Bytes) (line : ℕ)
      → IsUlong ulong
      → Advances (c ∷ cs) line (scan strtod ulong (c ∷ cs) line)
  unfolding scan
  scan-Advances ulong c cs line u = elim (Bool-cases (c == 10)) [
    | inl e ↦ rw e (Tail-cons c (Tail-refl cs), omega arith)
    | inr e ↦ rw e (elim (Bool-cases (isspace c)) [
      | inl e ↦ rw e (Tail-cons c (Tail-refl cs), omega arith)
      | inr e ↦ rw e (elim (Bool-cases (c == b'-' && peek cs == b'-')) [
        | inl e ↦ rw e (skip_comment-Advances (c ∷ cs) (next cs) line (Tail-cons c (next-Tail cs)))
        | inr e ↦ rw e (elim (Bool-cases (isdigit c)) [
          | inl e ↦ rw e (number c cs line e)
          | inr e ↦ rw e (elim (Bool-cases (isalpha c || c == b'_')) [
            | inl e ↦ rw e (scan_word-Advances strtod c cs line e)
            | inr e ↦ rw e (elim (Bool-cases (c == 34 || c == 39)) [
              | inl e ↦ rw e (scan_string-Advances strtod ulong c cs line u (ground arith))
              | inr e ↦ rw e (scan_punctuation-Advances c cs line)
            ])
          ])
        ])
      ])
    ])
  ]
