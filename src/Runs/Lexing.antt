-- ===== src/Runs/Lexing.antt =====
-- Runs of the lexer.
use lua2wasm.Prelude.{
  ◌^◌, ℕ, Bytes, List, [], ◌∷◌, ◌++◌, codes, map, some, ◌≡◌, refl, length, ◌↔◌, inl, inr, arith,
}
use mathlib.Core.Option
use lua2wasm.Lexer.Token.{TokKind, tok_kind_name}
use lua2wasm.Lexer.Keyword.Names.{keyword-name_iff}
use lua2wasm.Lexer.Text.{decode, scan_cap, read_string}
use lua2wasm.Lexer.Text.Bounds.{Safe, read_string-Safe}
use lua2wasm.Lexer.Scan.Spans.{Spans, lex-Spans}
use lua2wasm.Lexer.Keyword.{keyword_or_ident}
use lua2wasm.Freestanding.Mem.{memcmp}
use lua2wasm.Freestanding.Ctype.{isdigit, isxdigit, isspace, isalpha, isalnum}
use lua2wasm.Freestanding.Strtoll.{
  strtoll, skip_blank, unsigned_part, digits_loop, digit_val, finish,
}
use lua2wasm.Lexer.Utf8.{encode_utf8}
use lua2wasm.Lexer.Utf8.Decoding.{decode_utf8, decode_utf8-encode_utf8}
use lua2wasm.Lexer.Text
use lua2wasm.Lexer.Bracket.{count_eq, try_open_long_bracket, at_close, find_close, read_long_body}
use lua2wasm.Lexer.Number.{skip_while, exponent, fraction, scan_number, scan_point, hex_wrap}
use lua2wasm.Lexer.Scan.{
  Token, TokenList, operator, lex, lex_loop, scan, scan_word, scan_string, scan_bracket,
  scan_operator, scan_punctuation, skip_comment, number_token, float_token, decimal_token,
  finish as finish_lex,
}

-- A stand-in for strtod: the length of its text.
abbrev pub strtod_stub : Bytes → ℕ
strtod_stub = length

abbrev Lexes : Bytes → List (TokKind × ℕ × ℕ × ℕ × Bytes) → Type 0
Lexes s ts =
    Option.map
      (λ (r : TokenList ℕ).
        map (λ (t : Token ℕ). (t.kind, t.len, t.line, t.i_val, t.str_buf)) r.items)
      (lex strtod_stub 64 s)
    ≡ some ts

run : Lexes (codes "#!x\nlocal a0 = 0x1F .. 'b\\65' --[[c\n]] [=[\nd]]]=] ~= 12") (
    (TokKind.kw_local, 5, 2, 0, [])
    ∷ (TokKind.ident, 2, 2, 0, [])
    ∷ (TokKind.assign, 1, 2, 0, [])
    ∷ (TokKind.int, 4, 2, 31, [])
    ∷ (TokKind.concat, 2, 2, 0, [])
    ∷ (TokKind.string, 6, 2, 0, codes "bA")
    ∷ (TokKind.string, 10, 3, 0, codes "d]]")
    ∷ (TokKind.neq, 2, 4, 0, [])
    ∷ (TokKind.int, 2, 4, 12, [])
    ∷ (TokKind.eof, 0, 4, 0, [])
    ∷ [])
unfolding lex lex_loop scan scan_word scan_string scan_bracket scan_operator scan_punctuation
    skip_comment number_token float_token decimal_token operator count_eq try_open_long_bracket
    at_close find_close read_long_body skip_while exponent fraction scan_number scan_point hex_wrap
    keyword_or_ident memcmp isdigit isxdigit isspace isalpha isalnum strtoll skip_blank
    unsigned_part digits_loop digit_val finish encode_utf8 finish_lex Text.read_string Text.decode
    Text.round Text.escape Text.simple_escape Text.long_escape Text.decimal_escape Text.scan_cap
    Text.hex_val
run = refl

keyword-name_iff_example :
    (keyword_or_ident (codes "while x") 5 ≡ TokKind.kw_while)
    ↔ (codes "while" ≡ tok_kind_name TokKind.kw_while)
keyword-name_iff_example = keyword-name_iff TokKind.kw_while (codes "while x") 5 refl (omega arith)

read_string-Safe_example :
    Safe
      (scan_cap 34 (codes "\\u{7fffffff}\\65\""))
      17
      (read_string 64 34 (codes "\"\\u{7fffffff}\\65\"") 1)
    × Safe (scan_cap 34 (codes "\\u{7fffffff}\\65\"")) 17 (
        decode
          (2 ^ 64)
          34
          (scan_cap 34 (codes "\\u{7fffffff}\\65\""))
          17
          (codes "\\u{7fffffff}\\65\"")
          1
          [])
read_string-Safe_example =
    read_string-Safe 64 34 (codes "\"\\u{7fffffff}\\65\"") 1 (inr refl) (inl refl)

lex-Spans_example :
    (r : TokenList ℕ) × (ts : List (Token ℕ)) × (last : Token ℕ) × (lex strtod_stub 32
        (codes "a = 0x1F")
      ≡ some r)
    × (r.items ≡ ts ++ last ∷ [])
    × Spans (codes "a = 0x1F") 1 ts
    × (last.kind ≡ TokKind.eof)
lex-Spans_example = lex-Spans strtod_stub 32 (codes "a = 0x1F") (inl refl)

-- Nine hexadecimal digits: an error where unsigned long has 64 bits, but NUL where it has 32.
wide_escape :
    read_string 64 34 (codes "\"\\u{100000000}\"") 1
    ≡ Text.refused (codes "0}\"") 1 Text.utf8_too_large
unfolding read_string Text.decode Text.round Text.escape Text.simple_escape Text.long_escape
    Text.unicode_escape Text.unicode_digits Text.hex_val Text.scan_cap isdigit isxdigit
wide_escape = refl

wrapped_escape : read_string 32 34 (codes "\"\\u{100000000}\"") 1 ≡ Text.decoded [] 1 (0 ∷ [])
unfolding read_string Text.decode Text.round Text.escape Text.simple_escape Text.long_escape
    Text.unicode_escape Text.unicode_digits Text.hex_val Text.scan_cap isdigit isxdigit encode_utf8
wrapped_escape = refl

decode_utf8-encode_utf8_example :
    decode_utf8 (encode_utf8 0x20ac ++ codes "!") ≡ some (0x20ac, codes "!")
decode_utf8-encode_utf8_example = decode_utf8-encode_utf8 0x20ac (codes "!") (omega arith)
