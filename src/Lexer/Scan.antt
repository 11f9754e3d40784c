-- ===== src/Lexer/Scan.antt =====
-- src/lexer.c, lex, and the records of src/lexer.h.
-- A pointer into the source is the text from it on. The value of a floating literal comes from
-- strtod, which is vendored code: it is a parameter, on the text that lex copies for it.
pub mod Steps
pub mod Progress
pub mod Spans
use lua2wasm.Prelude.{
  ℕ, zero, suc, ◌+◌, ◌-◌, ◌≤◌, Bytes, List, length, drop, take, Bool, true, false, not, ◌&&◌, ◌||◌,
  ◌==◌, if◌then◌else◌, [], ◌∷◌, ◌++◌, Option, none, some,
}
use lua2wasm.Freestanding.Ctype.{isdigit, isxdigit, isspace, isalpha, isalnum}
use lua2wasm.Freestanding.Mem.{peek, next, peek1, peek2}
use lua2wasm.Freestanding.Strtoll.{strtoll}
use lua2wasm.Lexer.Token.{TokKind}
use lua2wasm.Lexer.Keyword.{keyword_or_ident}
use lua2wasm.Lexer.Text.{
  Message, unterminated_comment, unterminated_long_string, unexpected_character, Outcome, decoded,
  refused, overrun, stuck, read_string,
}
use lua2wasm.Lexer.Bracket.{Opened, try_open_long_bracket, Body, read, missing, read_long_body}
use lua2wasm.Lexer.Number.{skip_while, Span, scan_number, scan_point, hex_wrap}

-- `i_val` is the 64-bit pattern; a float that is not set is `none`.
pub record Token (F : Type 0) : Type 0 where
  pub kind : TokKind
  pub start : Bytes
  pub len : ℕ
  pub line : ℕ
  pub i_val : ℕ
  pub f_val : Option F
  pub str_buf : Bytes

pub record TokenList (F : Type 0) : Type 0 where
  pub items : List (Token F)
  pub ok : Bool
  pub err : Option (ℕ × Message)

-- One round of the loop of `lex`: the text was skipped, a token was pushed, or L.ok was cleared.
-- `fault` is no outcome of the source: a buffer was overrun or a loop left unfinished.
pub data Scan (F : Type 0) : Type 0 where
  skip : Bytes → ℕ → Scan F
  push : Token F → Bytes → ℕ → Scan F
  halt : Bytes → ℕ → ℕ → Message → Scan F
  fault : Scan F

-- The switch over the operators, with the two bytes that follow; `none` is its default.
unfoldable pub operator : ℕ → ℕ → ℕ → Option (TokKind × ℕ)
operator c c1 c2 =
    if c == b'('
    then some (TokKind.lparen, 1)
    else if c == b')'
    then some (TokKind.rparen, 1)
    else if c == b'{'
    then some (TokKind.lbrace, 1)
    else if c == b'}'
    then some (TokKind.rbrace, 1)
    else if c == b'['
    then some (TokKind.lbracket, 1)
    else if c == b']'
    then some (TokKind.rbracket, 1)
    else if c == b','
    then some (TokKind.comma, 1)
    else if c == b';'
    then some (TokKind.semi, 1)
    else if c == b'+'
    then some (TokKind.plus, 1)
    else if c == b'-'
    then some (TokKind.minus, 1)
    else if c == b'*'
    then some (TokKind.star, 1)
    else if c == b'%'
    then some (TokKind.percent, 1)
    else if c == b'^'
    then some (TokKind.caret, 1)
    else if c == b'#'
    then some (TokKind.hash, 1)
    else if c == b'&'
    then some (TokKind.amp, 1)
    else if c == b'|'
    then some (TokKind.pipe, 1)
    else if c == b'/'
    then (if c1 == b'/' then some (TokKind.dslash, 2) else some (TokKind.slash, 1))
    else if c == b':'
    then (if c1 == b':' then some (TokKind.dblcolon, 2) else some (TokKind.colon, 1))
    else if c == b'='
    then (if c1 == b'=' then some (TokKind.eq, 2) else some (TokKind.assign, 1))
    else if c == b'~'
    then (if c1 == b'=' then some (TokKind.neq, 2) else some (TokKind.tilde, 1))
    else if c == b'<'
    then (if c1 == b'='
        then some (TokKind.le, 2)
        else if c1 == b'<'
        then some (TokKind.shl, 2)
        else some (TokKind.lt, 1))
    else if c == b'>'
    then (if c1 == b'='
        then some (TokKind.ge, 2)
        else if c1 == b'>'
        then some (TokKind.shr, 2)
        else some (TokKind.gt, 1))
    else if c == b'.'
    then (if c1 == b'.' && c2 == b'.'
        then some (TokKind.ellipsis, 3)
        else if c1 == b'.'
        then some (TokKind.concat, 2)
        else some (TokKind.dot, 1))
    else none

module _ {F : Type 0} (strtod : Bytes → F) where
  -- Token t = {.start = L.p, .line = L.line}
  abbrev token : TokKind → Bytes → ℕ → ℕ → Token F
  token k p len line = record {
    kind = k;
    start = p;
    len = len;
    line = line;
    i_val = 0;
    f_val = none;
    str_buf = [];
  }

  abbrev span_len : Bytes → Bytes → ℕ
  span_len p stop = length p - length stop

  unfoldable pub float_token : Bytes → ℕ → ℕ → Token F
  float_token p len line = record (token TokKind.float p len line) {
    f_val = some (strtod (take len p));
  }

  -- A decimal literal that does not fit is promoted to a float.
  unfoldable pub decimal_token : Bytes → ℕ → ℕ → Token F
  decimal_token p len line =
      let n = strtoll (take len p) 10 in
      if n.overflow
      then record (token TokKind.float p len line) {
        i_val = n.value;
        f_val = some (strtod (take len p));
      }
      else record (token TokKind.int p len line) { i_val = n.value }

  unfoldable pub number_token : Bytes → ℕ → Span → Token F
  number_token p line s =
      let len = span_len p s.stop in
      if s.is_hex && not s.is_float
      then record (token TokKind.int p len line) { i_val = hex_wrap (drop 2 (take len p)) 0 }
      else if s.is_float
      then float_token p len line
      else decimal_token p len line

  unfoldable pub scan_word : Bytes → ℕ → Scan F
  scan_word p line =
      let stop = skip_while (λ c. isalnum c || c == b'_') p in
      let len = span_len p stop in push (token (keyword_or_ident p len) p len line) stop line

  unfoldable pub scan_string : ℕ → Bytes → ℕ → Scan F
  scan_string ulong p line = elim (read_string ulong (peek p) p line) [
    | decoded p' l bs ↦
        push (record (token TokKind.string p (span_len p p') line) { str_buf = bs }) p' l
    | refused p' l m ↦ halt p' l l m
    | overrun ↦ fault
    | stuck ↦ fault
  ]

  unfoldable pub scan_bracket : Bytes → ℕ → Opened → Scan F
  scan_bracket p line o = elim (read_long_body o.level o.body o.line) [
    | read bs p' l ↦
        push (record (token TokKind.string p (span_len p p') line) { str_buf = bs }) p' l
    | missing p' l ↦ halt p' l l unterminated_long_string
  ]

  unfoldable pub scan_operator : Bytes → ℕ → Scan F
  scan_operator p line = elim (operator (peek p) (peek1 p) (peek2 p)) [
    | some (k, n) ↦ push (token k p n line) (drop n p) line
    | none ↦ halt (next p) line line unexpected_character
  ]

  -- The switch, with the cases `[` and `.` that are more than a fixed token.
  unfoldable pub scan_punctuation : Bytes → ℕ → Scan F
  scan_punctuation p line = elim (try_open_long_bracket p line) [
    | some o ↦ scan_bracket p line o
    | none ↦
        if peek p == b'.' && not (peek1 p == b'.') && isdigit (peek1 p)
        then push (float_token p (span_len p (scan_point p)) line) (scan_point p) line
        else scan_operator p line
  ]

  -- Behind `--`.
  unfoldable pub skip_comment : Bytes → ℕ → Scan F
  skip_comment p line = elim (try_open_long_bracket p line) [
    | some o ↦ elim (read_long_body o.level o.body o.line) [
      | read bs p' l ↦ skip p' l
      | missing p' l ↦ halt p' l l unterminated_comment
    ]
    | none ↦ skip (skip_while (λ c. not (c == 0) && not (c == 10)) p) line
  ]

  -- The loop body of `lex`, at a byte that is not NUL.
  unfoldable pub scan : ℕ → Bytes → ℕ → Scan F
  scan ulong p line =
      let c = peek p in
      if c == 10
      then skip (next p) (line + 1)
      else if isspace c
      then skip (next p) line
      else if c == b'-' && peek1 p == b'-'
      then skip_comment (drop 2 p) line
      else if isdigit c
      then push (number_token p line (scan_number p)) (scan_number p).stop line
      else if isalpha c || c == b'_'
      then scan_word p line
      else if c == 34 || c == 39
      then scan_string ulong p line
      else scan_punctuation p line

  -- The end of `lex`: TOK_EOF, and the error if there is one.
  unfoldable pub finish : Bytes → ℕ → List (Token F) → Option (ℕ × Message) → Option (TokenList F)
  finish p line items err = some (record {
    items = items ++ token TokKind.eof p 0 line ∷ [];
    ok = elim err [ none ↦ true | some e ↦ false ];
    err = err;
  })

  -- `none` is a fault or a lack of fuel.
  unfoldable pub lex_loop : ℕ → ℕ → Bytes → ℕ → List (Token F) → Option (TokenList F)
  lex_loop ulong zero p line items = none
  lex_loop ulong (suc fuel) p line items =
      if peek p == 0 then finish p line items none else elim (scan ulong p line) [
        | skip p' l ↦ lex_loop ulong fuel p' l items
        | push t p' l ↦ lex_loop ulong fuel p' l (items ++ t ∷ [])
        | halt p' l at why ↦ finish p' l items (some (at, why))
        | fault ↦ none
      ]

  -- A first line that begins with `#` is skipped up to its line break.
  unfoldable pub lex : ℕ → Bytes → Option (TokenList F)
  lex ulong source =
      let p =
        if peek source == b'#'
        then skip_while (λ c. not (c == 0) && not (c == 10)) source
        else source in
      lex_loop ulong (length source + 1) p 1 []
