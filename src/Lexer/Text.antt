-- ===== src/Lexer/Text.antt =====
-- src/lexer.c, read_string: quoted string literals.
-- `ulong` is the width of C's `unsigned long`, 64 bits in the native build and 32 in the wasm32
-- build. The buffer is the list of the bytes written so far with the capacity that was allocated
-- for it; a write beyond the capacity is the outcome `overrun`.
pub mod Budget
pub mod Bounds
pub mod Digits
pub mod Advance
use lua2wasm.Prelude.{
  ℕ, zero, suc, ◌+◌, ◌-◌, ◌*◌, ◌/◌, ◌%◌, ◌^◌, Bytes, length, drop, Bool, true, false, not, ◌&&◌,
  ◌||◌, ◌==◌, ltb, leb, if◌then◌else◌, [], ◌∷◌, ◌++◌, Option, none, some, bit_or,
}
use lua2wasm.Freestanding.Ctype.{isdigit, isxdigit, isspace}
use lua2wasm.Freestanding.Mem.{peek, next, peek1, peek2}
use lua2wasm.Lexer.Utf8.{encode_utf8}

-- The messages of lex_error.
pub data Message : Type 0 where
  newline_in_string hex_digit_expected brace_expected utf8_too_large malformed_u : Message
  decimal_out_of_range unterminated_string : Message
  unterminated_comment unterminated_long_string unexpected_character : Message
  unknown_escape : ℕ → Message

-- Callers have checked isxdigit(c).
unfoldable pub hex_val : ℕ → ℕ
unfolding isdigit
hex_val c = if isdigit c then c - b'0' else bit_or c 32 - b'a' + 10

-- One round of the decoding loop: the text left, the line, and the bytes written; or an error,
-- with the cursor and the line that it leaves.
pub data Round : Type 0 where
  wrote : Bytes → ℕ → Bytes → Round
  failed : Bytes → ℕ → Message → Round

-- The escapes that stand for one fixed byte.
unfoldable pub simple_escape : ℕ → Option ℕ
simple_escape c =
    if c == b'n'
    then some 10
    else if c == b't'
    then some 9
    else if c == b'r'
    then some 13
    else if c == 92
    then some 92
    else if c == 34
    then some 34
    else if c == 39
    then some 39
    else if c == b'a'
    then some 7
    else if c == b'b'
    then some 8
    else if c == b'f'
    then some 12
    else if c == b'v'
    then some 11
    else none

-- `\z` skips white space and counts its newlines.
unfoldable pub skip_space : Bytes → ℕ → Bytes → Round
unfolding isspace
skip_space [] line out = wrote [] line out
skip_space (c ∷ cs) line out =
    if isspace c
    then skip_space cs (if c == 10 then line + 1 else line) out
    else wrote (c ∷ cs) line out

-- `\` and a line break: one newline for \n, \r, \r\n and \n\r.
unfoldable pub line_break : ℕ → Bytes → ℕ → Round
line_break first p line =
    let p' = if first == 13 && peek p == 10 || first == 10 && peek p == 13 then next p else p in
    wrote p' (line + 1) (10 ∷ [])

-- The digits of `\u{...}`. The first argument is the modulus of `unsigned long`.
unfoldable pub unicode_digits : ℕ → Bytes → ℕ → ℕ → Bool → Round
unfolding isxdigit hex_val
unicode_digits modulus [] line cp seen = failed [] line malformed_u
unicode_digits modulus (c ∷ cs) line cp seen =
    let cp' = bit_or (cp * 16 % modulus) (hex_val c) in
    let rest = unicode_digits modulus cs line cp' true in
    if isxdigit c
    then (if ltb 0x7fffffff cp' then failed (c ∷ cs) line utf8_too_large else rest)
    else if not seen || not (c == b'}')
    then failed (c ∷ cs) line malformed_u
    else wrote cs line (encode_utf8 cp)

unfoldable pub unicode_escape : ℕ → Bytes → ℕ → Round
unicode_escape modulus p line =
    if not (peek p == b'{')
    then failed p line brace_expected
    else unicode_digits modulus (next p) line 0 false

unfoldable pub hex_escape : Bytes → ℕ → Round
unfolding isxdigit hex_val
hex_escape p line =
    if not (isxdigit (peek p)) || not (isxdigit (peek1 p))
    then failed p line hex_digit_expected
    else wrote (drop 2 p) line (bit_or (hex_val (peek p) * 16) (hex_val (peek1 p)) % 256 ∷ [])

-- At most `n` more digits of `\ddd`.
unfoldable pub decimal_escape : ℕ → Bytes → ℕ → ℕ → Round
unfolding isdigit
decimal_escape zero p line v =
    if ltb 255 v then failed p line decimal_out_of_range else wrote p line (v ∷ [])
decimal_escape (suc n) p line v =
    let rest = decimal_escape n (next p) line (v * 10 + (peek p - b'0')) in
    if isdigit (peek p)
    then rest
    else if ltb 255 v
    then failed p line decimal_out_of_range
    else wrote p line (v ∷ [])

-- The escapes by case, `p` being behind the backslash.
unfoldable pub long_escape : ℕ → Bytes → ℕ → Round
long_escape modulus p line =
    let c = peek p in
    if c == b'x'
    then hex_escape (next p) line
    else if c == b'z'
    then skip_space (next p) line []
    else if c == 10 || c == 13
    then line_break c (next p) line
    else if c == b'u'
    then unicode_escape modulus (next p) line
    else if isdigit c
    then decimal_escape 3 p line 0
    else failed p line (unknown_escape c)

unfoldable pub escape : ℕ → Bytes → ℕ → Round
escape modulus p line = elim (simple_escape (peek p)) [
  | some b ↦ wrote (next p) line (b ∷ [])
  | none ↦ long_escape modulus p line
]

-- The body of the loop, at a byte that is neither NUL nor the quote.
unfoldable pub round : ℕ → Bytes → ℕ → Round
round modulus p line =
    if peek p == 10
    then failed p line newline_in_string
    else if not (peek p == 92)
    then wrote (next p) line (peek p ∷ [])
    else escape modulus (next p) line

pub data Outcome : Type 0 where
  decoded : Bytes → ℕ → Bytes → Outcome
  refused : Bytes → ℕ → Message → Outcome
  overrun : Outcome
  stuck : Outcome

-- The capacity that the first scan finds: the distance to the closing quote, escapes as one.
unfoldable pub scan_cap : ℕ → Bytes → ℕ
scan_cap q [] = 0
scan_cap q (c ∷ []) = if c == 0 || c == q then 0 else 1
scan_cap q (c ∷ d ∷ ds) =
    let skip = scan_cap q ds in
    let step = scan_cap q (d ∷ ds) in
    if c == 0 || c == q then 0 else if c == 92 && not (d == 0) then suc skip else suc step

-- The decoding loop. Each round takes a byte of the text, which bounds the fuel.
unfoldable pub decode : ℕ → ℕ → ℕ → ℕ → Bytes → ℕ → Bytes → Outcome
decode modulus q cap zero p line out = stuck
decode modulus q cap (suc fuel) p line out =
    if peek p == 0 || peek p == q
    then (if peek p == q then decoded (next p) line out else refused p line unterminated_string)
    else elim (round modulus p line) [
      | failed p' l m ↦ refused p' l m
      | wrote p' l bs ↦ elim (leb (length out + length bs) cap) [
        | true ↦ decode modulus q cap fuel p' l (out ++ bs)
        | false ↦ overrun
      ]
    ]

-- read_string at the opening quote: the cursor behind the literal, its line, the decoded bytes.
unfoldable pub read_string : ℕ → ℕ → Bytes → ℕ → Outcome
read_string ulong q p line =
    let text = next p in decode (2 ^ ulong) q (scan_cap q text + 4) (length text + 1) text line []
