-- ===== src/Wat/Buf.antt =====
-- src/wat2wasm.c, the growing byte buffer Buf. `modulus` is one more than the largest size_t.
-- The bytes written are the list, `b->len` is its length, and a write at or beyond the capacity
-- is the fault `none`; so is the doubling loop when its fuel runs out. xgrow returns or aborts,
-- and moves the bytes.
pub mod Valid
use lua2wasm.Prelude.{
  ℕ, zero, suc, ◌+◌, ◌*◌, ◌/◌, ◌%◌, ◌^◌, Bytes, length, Bool, true, false, leb, ltb, if◌then◌else◌,
  [], ◌∷◌, ◌++◌, Option, none, some,
}

pub record Buf : Type 0 where
  pub bytes : Bytes
  pub cap : ℕ

infixl 5 ◌>>=◌
abbrev pub ◌>>=◌ {ℓ κ} : {A : Type ℓ} {B : Type κ} → Option A → (A → Option B) → Option B
none >>= f = none
some a >>= f = f a

unfoldable pub buf_init : Buf
buf_init = record { bytes = []; cap = 64 }

unfoldable pub buf_free : Buf → Buf
buf_free b = record { bytes = []; cap = 0 }

-- while (need > cap) cap *= 2
unfoldable pub double_cap : ℕ → ℕ → ℕ → ℕ → Option ℕ
double_cap modulus zero need cap = none
double_cap modulus (suc fuel) need cap =
    let more = double_cap modulus fuel need (cap * 2 % modulus) in
    if ltb cap need then more else some cap

unfoldable pub buf_reserve : ℕ → Buf → ℕ → Option Buf
buf_reserve modulus b extra =
    let need = (length b.bytes + extra) % modulus in
    if leb need b.cap
    then some b
    else (do cap ← double_cap modulus (need + 1) need b.cap; some (record b { cap = cap }))

-- The write itself.
unfoldable pub store : Buf → Bytes → Option Buf
store b bs =
    if leb (length b.bytes + length bs) b.cap
    then some (record b { bytes = b.bytes ++ bs })
    else none

unfoldable pub buf_byte : ℕ → Buf → ℕ → Option Buf
buf_byte modulus b x = do b' ← buf_reserve modulus b 1; store b' (x % 256 ∷ [])

unfoldable pub buf_bytes : ℕ → Buf → Bytes → Option Buf
buf_bytes modulus b bs = do b' ← buf_reserve modulus b (length bs); store b' bs

unfoldable pub buf_append : ℕ → Buf → Buf → Option Buf
buf_append modulus b src = buf_bytes modulus b src.bytes

-- The loops of buf_f32 and buf_f64: the `n` bytes of a bit pattern, lowest first.
unfoldable pub put_bits : ℕ → ℕ → Buf → ℕ → Option Buf
put_bits modulus zero b bits = some b
put_bits modulus (suc n) b bits = do
  b' ← buf_byte modulus b (bits % 256)
  put_bits modulus n b' (bits / 256)

-- memcpy gives the bit pattern of the float; it is the argument.
unfoldable pub buf_f32 : ℕ → Buf → ℕ → Option Buf
buf_f32 modulus b bits = put_bits modulus 4 b bits

unfoldable pub buf_f64 : ℕ → Buf → ℕ → Option Buf
buf_f64 modulus b bits = put_bits modulus 8 b bits
