-- ===== src/Wat/Integer.antt =====
-- src/wat2wasm.c, parse_uint: integer literals, wrapped to 64 bits.
pub mod Values
use lua2wasm.Prelude.{
  ℕ, ◌+◌, ◌-◌, ◌*◌, ◌%◌, ◌^◌, Bytes, Bool, true, false, ◌&&◌, ◌||◌, ◌==◌, ltb, if◌then◌else◌, [],
  ◌∷◌, Option, none, some,
}
use lua2wasm.Freestanding.Mem.{peek, next, peek1}
use lua2wasm.Wat.Text.{
  Result, done, failed, hexval, bad_hex_integer, bad_hex_digit, empty_integer, bad_digit,
}

-- The loops over the digits; a NUL ends the text.
unfoldable pub hex_loop : Bytes → ℕ → Result ℕ
hex_loop [] v = done v []
hex_loop (c ∷ cs) v =
    let skipped = hex_loop cs v in
    if c == 0 then done v (c ∷ cs) else if c == b'_' then skipped else elim (hexval c) [
      | none ↦ failed (bad_hex_digit (c ∷ cs))
      | some h ↦ hex_loop cs ((v * 16 + h) % 2 ^ 64)
    ]

unfoldable pub decimal_loop : Bytes → ℕ → Result ℕ
decimal_loop [] v = done v []
decimal_loop (c ∷ cs) v =
    let skipped = decimal_loop cs v in
    let taken = decimal_loop cs ((v * 10 + (c - b'0')) % 2 ^ 64) in
    if c == 0
    then done v (c ∷ cs)
    else if c == b'_'
    then skipped
    else if ltb c b'0' || ltb b'9' c
    then failed (bad_digit (c ∷ cs))
    else taken

-- Behind the sign.
unfoldable pub digits : Bytes → Result ℕ
digits s =
    if peek s == b'0' && (peek1 s == b'x' || peek1 s == b'X')
    then (let t = next (next s) in if peek t == 0 then failed bad_hex_integer else hex_loop t 0)
    else if peek s == 0
    then failed empty_integer
    else decimal_loop s 0

-- neg ? (uint64_t)(-(int64_t)v) : v
unfoldable pub signed : Bool → Result ℕ → Result ℕ
signed neg (done v p) = done (if neg then (2 ^ 64 - v) % 2 ^ 64 else v) p
signed neg r = r

unfoldable pub parse_uint : Bytes → Result ℕ
parse_uint s =
    if peek s == b'+'
    then signed false (digits (next s))
    else if peek s == b'-'
    then signed true (digits (next s))
    else signed false (digits s)
