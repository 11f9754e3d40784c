-- ===== src/Lexer/Number.antt =====
-- src/lexer.c, lex: numeric literals. The cursor moves of the source are functions on the rest
-- of the text; the values come from the span.
pub mod Advance
use lua2wasm.Prelude.{
  ℕ, ◌+◌, ◌-◌, ◌*◌, ◌%◌, ◌^◌, Bytes, length, drop, take, Bool, true, false, not, ◌&&◌, ◌||◌, ◌==◌,
  if◌then◌else◌, [], ◌∷◌, bit_or,
}
use lua2wasm.Freestanding.Ctype.{isdigit, isxdigit}
use lua2wasm.Freestanding.Mem.{peek, next, peek1}
use lua2wasm.Lexer.Text.{hex_val}

-- while (test(*p)) p++
unfoldable pub skip_while : (ℕ → Bool) → Bytes → Bytes
skip_while test [] = []
skip_while test (c ∷ cs) = if test c then skip_while test cs else c ∷ cs

pub record Span : Type 0 where
  pub stop : Bytes
  pub is_float : Bool
  pub is_hex : Bool

-- An exponent, behind its letter: a sign and digits, each of which may be missing.
unfoldable pub exponent : Bytes → Bytes
exponent p = let q = if peek p == b'+' || peek p == b'-' then next p else p in skip_while isdigit q

-- A point and digits, then an exponent that `e` or `E` (`p` or `P`) begins.
unfoldable pub fraction : (ℕ → Bool) → ℕ → ℕ → Bool → Bytes → Span
fraction digit lower upper hex p =
    let dot = peek p == b'.' in
    let q = if dot then skip_while digit (next p) else p in
    let exp = peek q == lower || peek q == upper in
    record { stop = (if exp then exponent (next q) else q); is_float = dot || exp; is_hex = hex }

unfoldable pub scan_number : Bytes → Span
unfolding fraction
scan_number p =
    if peek p == b'0' && (peek1 p == b'x' || peek1 p == b'X')
    then fraction isxdigit b'p' b'P' true (skip_while isxdigit (drop 2 p))
    else fraction isdigit b'e' b'E' false (skip_while isdigit p)

-- .5, at the point
unfoldable pub scan_point : Bytes → Bytes
scan_point p =
    let q = skip_while isdigit (next p) in
    if peek q == b'e' || peek q == b'E' then exponent (next q) else q

-- acc = (acc << 4) | hex_val(s[k]), over the digits of the span, in 64 bits
unfoldable pub hex_wrap : Bytes → ℕ → ℕ
hex_wrap [] acc = acc
hex_wrap (c ∷ cs) acc = hex_wrap cs (bit_or (acc * 16 % 2 ^ 64) (hex_val c))
