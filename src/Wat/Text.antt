-- ===== src/Wat/Text.antt =====
-- src/wat2wasm.c, the reader of WebAssembly text: quoted strings. The temporary buffer is the
-- list of its bytes; it grows as Wat/Buf says.
pub mod Escapes
use lua2wasm.Prelude.{
  ℕ, zero, suc, ◌+◌, ◌-◌, ◌*◌, ◌/◌, ◌%◌, ◌^◌, Bytes, length, Bool, true, false, not, ◌&&◌, ◌==◌,
  ltb, leb, if◌then◌else◌, [], ◌∷◌, ◌++◌, Option, none, some, bit_and, bit_or,
}
use lua2wasm.Freestanding.Mem.{peek, next}

-- The messages of the reader that `fail` reports, with their arguments.
pub data Failure : Type 0 where
  bad_u_escape bad_hex_in_u unterminated_u truncated_hex bad_hex_escape : Failure
  unterminated_string unexpected_close unterminated_list bad_hex_integer empty_integer : Failure
  bad_escape unexpected_character : ℕ → Failure
  bad_hex_digit bad_digit : Bytes → Failure

-- A value and the cursor behind it; the jump of `fail`; or a loop that the fuel does not finish.
pub data Result (A : Type 0) : Type 0 where
  done : A → Bytes → Result A
  failed : Failure → Result A
  stuck : Result A

abbrev pub and_then : {A B : Type 0} → Result A → (A → Bytes → Result B) → Result B
and_then (done a p) k = k a p
and_then (failed why) k = failed why
and_then stuck k = stuck

-- -1 is `none`.
unfoldable pub hexval : ℕ → Option ℕ
hexval c =
    if leb b'0' c && leb c b'9'
    then some (c - b'0')
    else if leb b'a' c && leb c b'f'
    then some (c - b'a' + 10)
    else if leb b'A' c && leb c b'F'
    then some (c - b'A' + 10)
    else none

-- (uint8_t)(0x80 | ((cp >> k) & 0x3F))
abbrev trailing : ℕ → ℕ → ℕ
trailing cp k = bit_or 0x80 (bit_and (cp / 2 ^ k) 0x3f) % 256

unfoldable pub utf8_encode : ℕ → Bytes
utf8_encode cp =
    if ltb cp 0x80
    then cp % 256 ∷ []
    else if ltb cp 0x800
    then (bit_or 0xc0 (cp / 2 ^ 6) % 256) ∷ trailing cp 0 ∷ []
    else if ltb cp 0x10000
    then (bit_or 0xe0 (cp / 2 ^ 12) % 256) ∷ trailing cp 6 ∷ trailing cp 0 ∷ []
    else (bit_or 0xf0 (cp / 2 ^ 18) % 256) ∷ trailing cp 12 ∷ trailing cp 6 ∷ trailing cp 0 ∷ []

-- The digits of `\u{...}` up to the brace. cp is a uint32_t.
unfoldable pub u_digits : Bytes → ℕ → Bool → Result Bytes
u_digits [] cp any = failed unterminated_u
u_digits (c ∷ cs) cp any = elim (c == 125) [
  | true ↦ if any then done (utf8_encode cp) cs else failed unterminated_u
  | false ↦ elim (hexval c) [
    | none ↦ failed bad_hex_in_u
    | some h ↦ u_digits cs ((cp * 16 + h) % 2 ^ 32) true
  ]
]

unfoldable pub u_escape : Bytes → Result Bytes
u_escape [] = failed bad_u_escape
u_escape (c ∷ cs) = if c == 123 then u_digits cs 0 false else failed bad_u_escape

-- `\HH`, behind the first digit `h`.
unfoldable pub byte_escape : ℕ → Bytes → Result Bytes
byte_escape h [] = failed truncated_hex
byte_escape h (c ∷ cs) = elim (hexval c) [
  | none ↦ failed bad_hex_escape
  | some l ↦ done ((h * 16 + l) % 256 ∷ []) cs
]

-- Behind the backslash. At the end of the text the loop is left.
unfoldable pub escaped : Bytes → Result Bytes
escaped [] = done [] []
escaped (e ∷ cs) =
    if e == b't'
    then done (9 ∷ []) cs
    else if e == b'n'
    then done (10 ∷ []) cs
    else if e == b'r'
    then done (13 ∷ []) cs
    else if e == 34
    then done (34 ∷ []) cs
    else if e == 39
    then done (39 ∷ []) cs
    else if e == 92
    then done (92 ∷ []) cs
    else if e == b'u'
    then u_escape cs
    else elim (hexval e) [ none ↦ failed (bad_escape e) | some h ↦ byte_escape h cs ]

-- The loop behind the opening quote.
unfoldable pub string_loop : ℕ → Bytes → Bytes → Result Bytes
string_loop zero p out = stuck
string_loop (suc fuel) [] out = failed unterminated_string
string_loop (suc fuel) (c ∷ cs) out = elim (c == 34) [
  | true ↦ done out cs
  | false ↦ elim (c == 92) [
    | false ↦ string_loop fuel cs (out ++ c ∷ [])
    | true ↦ and_then (escaped cs) (λ bs p. string_loop fuel p (out ++ bs))
  ]
]

-- Each round takes a byte of the text, which bounds the fuel.
unfoldable pub read_string : Bytes → Result Bytes
read_string p = string_loop (length p + 1) (next p) []
