-- ===== src/Lexer/Text/Digits.antt =====
-- Hexadecimal digits, and one round of `cp = (cp << 4) | digit`.
use lua2wasm.Prelude.{
  ℕ, ◌+◌, ◌*◌, ◌%◌, ◌^◌, ◌≤◌, ◌<◌, true, not, ◌||◌, ltb, bit_or, arith, ◌≡◌, refl, ◌≢◌, ◌⊎◌, inl,
  inr,
}
use lua2wasm.Prelude.Bits.{bit_or_nibble, holds_on, holds_on-true}
use lua2wasm.Freestanding.Ctype.{isxdigit}
use lua2wasm.Lexer.Text.{hex_val}

xdigit-le : (c : ℕ) → isxdigit c ≡ true → c < 103
unfolding isxdigit
xdigit-le c h = ground arith

hex_table : holds_on (λ c. not (isxdigit c) || ltb (hex_val c) 16) 103 ≡ true
unfolding holds_on isxdigit hex_val
hex_table = refl

pub hex_val-lt : (c : ℕ) → isxdigit c ≡ true → hex_val c < 16
hex_val-lt c h =
    let below =
      holds_on-true (λ c. not (isxdigit c) || ltb (hex_val c) 16) hex_table (xdigit-le c h) in
    ground arith

-- A hexadecimal digit is no quote, no backslash and not the end of the text.
pub xdigit_plain : (c q : ℕ) → isxdigit c ≡ true → q < 48 → (c ≢ 0) × (c ≢ q) × (c ≢ 92)
unfolding isxdigit
xdigit_plain c q h k = ground arith

-- The widths of `unsigned long` in the two builds.
abbrev pub IsUlong : ℕ → Type 0
IsUlong w = (w ≡ 32) ⊎ (w ≡ 64)

pub shift_in_32 : (cp d : ℕ) → d < 16 → bit_or (cp * 16 % 2 ^ 32) d ≡ cp % 2 ^ 28 * 16 + d
shift_in_32 cp d h =
    let low : cp * 16 % 2 ^ 32 ≡ cp % 2 ^ 28 * 16 = omega arith in
    rw low (bit_or_nibble (cp % 2 ^ 28) d h)

pub shift_in_64 : (cp d : ℕ) → d < 16 → bit_or (cp * 16 % 2 ^ 64) d ≡ cp % 2 ^ 60 * 16 + d
shift_in_64 cp d h =
    let low : cp * 16 % 2 ^ 64 ≡ cp % 2 ^ 60 * 16 = omega arith in
    rw low (bit_or_nibble (cp % 2 ^ 60) d h)

-- A digit multiplies the bound on the code point by 16, also where the shift loses bits.
pub shift_in-le : (w cp d : ℕ) → IsUlong w → d < 16 → bit_or (cp * 16 % 2 ^ w) d ≤ cp * 16 + d
shift_in-le w cp d (inl e) h = rw e (omega (arith, shift_in_32 cp d h))
shift_in-le w cp d (inr e) h = rw e (omega (arith, shift_in_64 cp d h))
