-- ===== src/Prelude/Bits.antt =====
-- The native bit operations at variables: what the masks and the shifted alternatives of the
-- source stand for in plain arithmetic.
use Prim.Native.Nat.{
  ℕ, zero, suc, ◌+◌, ◌*◌, ◌/◌, ◌%◌, ◌-◌, ◌^◌, ◌≤◌, ◌<◌, min, max, bit_and, bit_or, digits, bitwise,
  bit_and-bitwise, bit_or-bitwise,
}
use mathlib.Core.Path.{◌≡◌, refl, ◌∙◌}
use mathlib.Core.Bool.{Bool, true, false}
use native.Mathlib.Omega.{arith}
use native.Mathlib.Numerals.{unary_clauses}
use package.lua2wasm.Prelude.Tests.{◌==◌, ==_iff, if◌then◌else◌, Bool-cases}
use mathlib.Core.Logic.{inl, inr}

-- Fuel beyond the first operand changes nothing.
fuel_irrelevant :
    (z : ℕ → ℕ) (f : ℕ → ℕ → ℕ) (a b n m : ℕ) → a ≤ n → a ≤ m → digits z f n a b ≡ digits z f m a b
fuel_irrelevant z f zero b zero zero p q = refl
fuel_irrelevant z f zero b zero (suc m) p q = refl
fuel_irrelevant z f zero b (suc n) zero p q = refl
fuel_irrelevant z f zero b (suc n) (suc m) p q = refl
fuel_irrelevant z f (suc a) b zero m p q = elim p [ ]
fuel_irrelevant z f (suc a) b (suc n) zero p q = elim q [ ]
fuel_irrelevant z f (suc a) b (suc n) (suc m) p q =
    rw (fuel_irrelevant z f (suc a / 2) (b / 2) n m (omega arith) (omega arith))

-- One digit of a bitwise operation whose first operand is not zero.
low_digit :
    (z : ℕ → ℕ) (f : ℕ → ℕ → ℕ) (a b : ℕ)
    → 0 < a
    → bitwise z f a b ≡ bitwise z f (a / 2) (b / 2) * 2 + f (a % 2) (b % 2)
low_digit z f zero b h = elim h [ ]
low_digit z f (suc a) b h =
    rw (fuel_irrelevant z f (suc a / 2) (b / 2) a (suc a / 2) (omega arith) (omega arith))

bit_and_low : (x y : ℕ) → min (x % 2) (y % 2) + 2 * bit_and (x / 2) (y / 2) ≡ bit_and x y
bit_and_low zero y = simp bit_and-bitwise (omega arith)
bit_and_low (suc x) y =
    let digit = low_digit (λ d. 0) min (suc x) y (omega arith) in
    simp bit_and-bitwise (omega (arith, digit))

bit_or_low : (x y : ℕ) → bit_or x y ≡ max (x % 2) (y % 2) + 2 * bit_or (x / 2) (y / 2)
bit_or_low zero y = simp bit_or-bitwise (omega arith)
bit_or_low (suc x) y =
    let digit = low_digit (λ d. d) max (suc x) y (omega arith) in
    simp bit_or-bitwise (omega (arith, digit))

bit_and-zero_below : (n a : ℕ) → a < n → bit_and a 0 ≡ 0
bit_and-zero_below zero a h = elim h [ ]
bit_and-zero_below (suc n) zero h = refl
bit_and-zero_below (suc n) (suc a) h =
    omega (arith, bit_and_low (suc a) 0, bit_and-zero_below n (suc a / 2) (omega arith))

bit_or-zero_below : (n a : ℕ) → a < n → bit_or a 0 ≡ a
bit_or-zero_below zero a h = elim h [ ]
bit_or-zero_below (suc n) zero h = refl
bit_or-zero_below (suc n) (suc a) h =
    omega (arith, bit_or_low (suc a) 0, bit_or-zero_below n (suc a / 2) (omega arith))

pub bit_or-zero : (a : ℕ) → bit_or a 0 ≡ a
bit_or-zero a = bit_or-zero_below (suc a) a (omega arith)

bit_and-zero : (a : ℕ) → bit_and a 0 ≡ 0
bit_and-zero a = bit_and-zero_below (suc a) a (omega arith)

mask_3 : (x : ℕ) → bit_and x 3 ≡ x % 4
mask_3 x = omega (arith, bit_and_low x 3, bit_and_low (x / 2) 1, bit_and-zero (x / 2 / 2))

-- x & 0x3f
pub bit_and_63 : (a : ℕ) → bit_and a 63 ≡ a % 64
bit_and_63 a = omega (
  arith,
  bit_and_low a 63,
  bit_and_low (a / 2) 31,
  bit_and_low (a / 2 / 2) 15,
  bit_and_low (a / 2 / 2 / 2) 7,
  mask_3 (a / 2 / 2 / 2 / 2),
)

-- x & 0x7f
pub bit_and_127 : (a : ℕ) → bit_and a 127 ≡ a % 128
bit_and_127 a = omega (arith, bit_and_low a 127, bit_and_63 (a / 2))

bit_or_even : (a d : ℕ) → bit_or (a * 2) d ≡ d % 2 + 2 * bit_or a (d / 2)
bit_or_even a d =
    let half : a * 2 / 2 ≡ a = omega arith in
    let low : max (a * 2 % 2) (d % 2) ≡ d % 2 = omega arith in bit_or_low (a * 2) d ∙ rw (half, low)

-- (x << 4) | d, for a digit d
pub bit_or_nibble : (a d : ℕ) → d < 16 → bit_or (a * 16) d ≡ a * 16 + d
bit_or_nibble a d h =
    let z : d / 2 / 2 / 2 / 2 ≡ 0 = omega arith in
    let regroup : a * 16 ≡ a * 2 * 2 * 2 * 2 = omega arith in
    let top : bit_or a (d / 2 / 2 / 2 / 2) ≡ a = rw z (bit_or-zero a) in
    rw regroup (
      omega (
        arith,
        top,
        bit_or_even (a * 2 * 2 * 2) d,
        bit_or_even (a * 2 * 2) (d / 2),
        bit_or_even (a * 2) (d / 2 / 2),
        bit_or_even a (d / 2 / 2 / 2),
      ))

-- Whether a test holds at each of the first `count` numbers, by evaluation.
unfoldable pub holds_on : (ℕ → Bool) → ℕ → Bool
holds_on test zero = true
holds_on test (suc last) = let rest = holds_on test last in if test last then rest else false

pub holds_on-true :
    (test : ℕ → Bool) {count : ℕ} → holds_on test count ≡ true → {k : ℕ} → k < count → test k ≡ true
unfolding holds_on
holds_on-true test {count = zero} table {k} within = absurd (omega arith)
holds_on-true test {count = suc last} table {k} within = elim (Bool-cases (test last)) [
  | inr bad ↦ absurd (ground arith)
  | inl good ↦ elim (Bool-cases (k == last)) [
    | inl here ↦ let same : k ≡ last = (==_iff k last).0 here in rw same good
    | inr below ↦ holds_on-true test {count = last} (rw good at table) (ground arith)
  ]
]

-- The tags of a UTF-8 byte, and the continuation bit of a LEB128 byte.
module _ (tag room : ℕ) where
  tags : ℕ → Bool
  tags x = bit_or tag x == tag + x

  tags_sound : holds_on tags room ≡ true → (x : ℕ) → x < room → bit_or tag x ≡ tag + x
  unfolding tags
  tags_sound table x h = (==_iff _ _).0 (holds_on-true _ table h)

pub or_80 : (x : ℕ) → x < 128 → bit_or 0x80 x ≡ 0x80 + x
unfolding tags holds_on
or_80 = tags_sound 0x80 128 refl

pub or_c0 : (x : ℕ) → x < 32 → bit_or 0xc0 x ≡ 0xc0 + x
unfolding tags holds_on
or_c0 = tags_sound 0xc0 32 refl

pub or_e0 : (x : ℕ) → x < 16 → bit_or 0xe0 x ≡ 0xe0 + x
unfolding tags holds_on
or_e0 = tags_sound 0xe0 16 refl

pub or_f0 : (x : ℕ) → x < 8 → bit_or 0xf0 x ≡ 0xf0 + x
unfolding tags holds_on
or_f0 = tags_sound 0xf0 8 refl

pub or_f8 : (x : ℕ) → x < 4 → bit_or 0xf8 x ≡ 0xf8 + x
unfolding tags holds_on
or_f8 = tags_sound 0xf8 4 refl

pub or_fc : (x : ℕ) → x < 2 → bit_or 0xfc x ≡ 0xfc + x
unfolding tags holds_on
or_fc = tags_sound 0xfc 2 refl

pub bit_or_80_byte : (x : ℕ) → x < 128 → bit_or x 0x80 ≡ x + 128
unfolding holds_on
bit_or_80_byte x h =
    (==_iff _ _).0 (holds_on-true (λ y. bit_or y 0x80 == y + 128) {count = 128} refl h)

pub bit_and_40_byte : (x : ℕ) → x < 128 → bit_and x 0x40 ≡ x / 64 * 64
unfolding holds_on
bit_and_40_byte x h =
    (==_iff _ _).0 (holds_on-true (λ y. bit_and y 0x40 == y / 64 * 64) {count = 128} refl h)

power_suc : (n : ℕ) → 2 ^ suc n ≡ 2 * 2 ^ n
power_suc n = simp unary_clauses (omega arith)

power_positive : (n : ℕ) → 1 ≤ 2 ^ n
power_positive zero = omega arith
power_positive (suc n) = omega (arith, power_suc n, power_positive n)

bit_and_ones : (n x : ℕ) → x < 2 ^ n → bit_and x (2 ^ n - 1) ≡ x
bit_and_ones zero x h = let z : x ≡ 0 = omega arith in rw z refl
bit_and_ones (suc n) x h =
    let double = power_suc n in
    let positive = power_positive n in
    let half : (2 ^ suc n - 1) / 2 ≡ 2 ^ n - 1 = omega arith in
    let odd : (2 ^ suc n - 1) % 2 ≡ 1 = omega arith in
    let low : min (x % 2) ((2 ^ suc n - 1) % 2) + 2 * bit_and (x / 2) (2 ^ n - 1)
        ≡ bit_and x (2 ^ suc n - 1) =
      rw⁻¹ half (bit_and_low x (2 ^ suc n - 1)) in
    omega (arith, bit_and_ones n (x / 2) (omega arith))

-- x & ~7, on 32 bits
pub bit_and_align : (x : ℕ) → x < 2 ^ 32 → bit_and x (2 ^ 32 - 8) ≡ x / 8 * 8
bit_and_align x h = omega (
  arith,
  bit_and_low x (2 ^ 32 - 8),
  bit_and_low (x / 2) (2 ^ 31 - 4),
  bit_and_low (x / 2 / 2) (2 ^ 30 - 2),
  bit_and_ones 29 (x / 2 / 2 / 2) (omega arith),
)
