-- ===== src/Wat/Leb.antt =====
-- src/wat2wasm.c, buf_uleb and buf_sleb: LEB128 integers, and put_section.
-- An int64_t is its 64-bit pattern. Ten rounds cover 64 bits; a loop that needed more would end
-- in `none`.
pub mod Unsigned
pub mod Signed
pub mod Section
use lua2wasm.Prelude.{
  ℕ, zero, suc, ◌+◌, ◌-◌, ◌*◌, ◌/◌, ◌%◌, ◌^◌, Bytes, length, Bool, true, false, not, ◌&&◌, ◌||◌,
  ◌==◌, ltb, if◌then◌else◌, [], ◌∷◌, Option, none, some, bit_and, bit_or,
}
use lua2wasm.Wat.Buf.{Buf, ◌>>=◌, buf_byte, buf_append}

unfoldable pub uleb_loop : ℕ → ℕ → Buf → ℕ → Option Buf
uleb_loop modulus zero b v = none
uleb_loop modulus (suc fuel) b v =
    let byte = bit_and v 0x7f in
    let v' = v / 2 ^ 7 in
    let byte' = if not (v' == 0) then bit_or byte 0x80 else byte in
    do
      b' ← buf_byte modulus b byte'
      let more = uleb_loop modulus fuel b' v'
      if not (v' == 0) then more else some b'

unfoldable pub buf_uleb : ℕ → Buf → ℕ → Option Buf
buf_uleb modulus b v = uleb_loop modulus 10 b v

-- v >>= 7, on a pattern: the sign bit comes in from the left.
abbrev pub shift_right_7 : ℕ → ℕ
shift_right_7 v = if ltb v (2 ^ 63) then v / 2 ^ 7 else v / 2 ^ 7 + (2 ^ 64 - 2 ^ 57)

abbrev pub minus_one : ℕ
minus_one = 2 ^ 64 - 1

unfoldable pub sleb_loop : ℕ → ℕ → Buf → ℕ → Option Buf
sleb_loop modulus zero b v = none
sleb_loop modulus (suc fuel) b v =
    let byte = bit_and v 0x7f in
    let v' = shift_right_7 v in
    let last =
      v' == 0 && bit_and byte 0x40 == 0 || v' == minus_one && not (bit_and byte 0x40 == 0) in
    let byte' = if last then byte else bit_or byte 0x80 in
    do
      b' ← buf_byte modulus b byte'
      let more = sleb_loop modulus fuel b' v'
      if last then some b' else more

unfoldable pub buf_sleb : ℕ → Buf → ℕ → Option Buf
buf_sleb modulus b v = sleb_loop modulus 10 b v

-- An empty section is left out.
unfoldable pub put_section : ℕ → Buf → ℕ → Buf → Option Buf
put_section modulus module_buf id body = if length body.bytes == 0 then some module_buf else (do
  b ← buf_byte modulus module_buf id
  b' ← buf_uleb modulus b (length body.bytes)
  buf_append modulus b' body)
