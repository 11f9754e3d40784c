-- ===== src/Freestanding/Fmt.antt =====
-- src/freestanding/fmt.c: the bounded sink, field layout and integer conversions of vsnprintf.
-- Floating conversions are not modelled here.
pub mod Sink
pub mod Decimal
use lua2wasm.Prelude.{
  ℕ, zero, suc, ◌+◌, ◌-◌, ◌*◌, ◌/◌, ◌%◌, ◌^◌, Bytes, codes, length, replicate, get_or, Bool, true,
  false, not, ◌&&◌, ◌||◌, ◌==◌, ltb, leb, if◌then◌else◌, [], ◌∷◌, ◌++◌, Option, none, some,
}

-- struct out: the bytes stored, the usable capacity, and the count of bytes that were put.
pub record Out : Type 0 where
  pub buf : Bytes
  pub cap : ℕ
  pub n : ℕ

unfoldable pub put : Out → ℕ → Out
put o c =
    if ltb o.n o.cap
    then record o { buf = o.buf ++ c ∷ []; n = o.n + 1 }
    else record o { n = o.n + 1 }

unfoldable pub put_mem : Out → Bytes → Out
put_mem o [] = o
put_mem o (c ∷ cs) = put_mem (put o c) cs

unfoldable pub put_pad : Out → ℕ → ℕ → Out
put_pad o c zero = o
put_pad o c (suc count) = put_pad (put o c) c count

-- The bits F_MINUS, F_PLUS, F_SPACE, F_HASH and F_ZERO.
pub record Flags : Type 0 where
  pub minus : Bool
  pub plus : Bool
  pub space : Bool
  pub hash : Bool
  pub zero_pad : Bool

unfoldable pub emit_field : Out → Bytes → Bytes → ℕ → Flags → Out
emit_field o prefix body width flags =
    let total = length prefix + length body in
    let pad = if ltb total width then width - total else 0 in
    if flags.minus
    then put_pad (put_mem (put_mem o prefix) body) b' ' pad
    else if flags.zero_pad
    then put_mem (put_pad (put_mem o prefix) b'0' pad) body
    else put_mem (put_mem (put_pad o b' ' pad) prefix) body

unfoldable pub digit_char : Bool → ℕ → ℕ
digit_char upper d =
    if ltb d 10 then b'0' + d else if upper then b'A' + (d - 10) else b'a' + (d - 10)

-- The digits are stored downwards from the end of a buffer that has `room` bytes left; `none` is
-- a store below its start.
unfoldable pub digits_down : ℕ → ℕ → Bool → ℕ → Bytes → Option Bytes
digits_down zero base upper v acc = if v == 0 then some acc else none
digits_down (suc room) base upper v acc =
    let more = digits_down room base upper (v / base) (digit_char upper (v % base) ∷ acc) in
    if v == 0 then some acc else more

-- u_to_str into a buffer of 24 bytes, one of which takes the NUL.
unfoldable pub u_to_str : ℕ → ℕ → Bool → Option Bytes
u_to_str v base upper =
    if v == 0 then digits_down 22 base upper v (b'0' ∷ []) else digits_down 23 base upper v []

-- The conversions d and i of an intmax_t, given by its 64-bit pattern.
unfoldable pub int_prefix : ℕ → Flags → Bytes
int_prefix v flags =
    if leb (2 ^ 63) v
    then codes "-"
    else if flags.plus
    then codes "+"
    else if flags.space
    then codes " "
    else []

-- v < 0 ? (uintmax_t)(-(v + 1)) + 1u : (uintmax_t)v
unfoldable pub magnitude : ℕ → ℕ
magnitude v = if leb (2 ^ 63) v then (2 ^ 64 - (v + 1) % 2 ^ 64) % 2 ^ 64 + 1 else v

unfoldable pub put_signed : Out → ℕ → ℕ → Flags → Option Out
put_signed o v width flags = elim (u_to_str (magnitude v) 10 false) [
  | none ↦ none
  | some body ↦ some (emit_field o (int_prefix v flags) body width flags)
]

-- The conversions u, o, x and X.
pub data Radix : Type 0 where
  decimal octal hex_lower hex_upper : Radix

unfoldable pub base_of : Radix → ℕ
base_of decimal = 10
base_of octal = 8
base_of hex_lower = 16
base_of hex_upper = 16

unfoldable pub is_upper : Radix → Bool
is_upper hex_upper = true
is_upper _ = false

unfoldable pub uint_prefix : Radix → ℕ → Flags → Bytes
uint_prefix hex_lower v flags = if flags.hash && not (v == 0) then codes "0x" else []
uint_prefix hex_upper v flags = if flags.hash && not (v == 0) then codes "0X" else []
uint_prefix _ v flags = []

unfoldable pub put_unsigned : Out → Radix → ℕ → ℕ → Flags → Option Out
put_unsigned o radix v width flags = elim (u_to_str v (base_of radix) (is_upper radix)) [
  | none ↦ none
  | some body ↦ some (emit_field o (uint_prefix radix v flags) body width flags)
]
