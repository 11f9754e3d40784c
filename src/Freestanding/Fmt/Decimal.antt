-- ===== src/Freestanding/Fmt/Decimal.antt =====
-- The digits that u_to_str stores: they fit the buffer, and strtoll reads them back.
use lua2wasm.Prelude.{
  ℕ, zero, suc, ◌+◌, ◌*◌, ◌/◌, ◌%◌, ◌^◌, ◌≤◌, ◌<◌, Bytes, length, All, Bool, true, false, ◌==◌, leb,
  if◌then◌else◌, [], ◌∷◌, ◌++◌, some, ◌≡◌, ◌⊎◌, refl, ◌∙◌, arith, inl, inr, Bool-cases,
}
use native.Mathlib.Nat.{pow-suc, pow-zero}
use lua2wasm.Freestanding.Strtoll.{strtoll, digit_val, skip_blank, llong_max, llong_min}
use lua2wasm.Freestanding.Strtoll.Values.{
  prefix_value, strtoll_decimal, behind_sign, sign_of, signed_value,
}
use lua2wasm.Freestanding.Fmt.{digit_char, digits_down, u_to_str, magnitude, int_prefix, Flags}

-- A digit of a base up to 16 reads back as its value, in either case of the letters.
digit_val-digit_char : (upper : Bool) (d : ℕ) → d < 16 → digit_val (digit_char upper d) ≡ d
unfolding digit_val digit_char
digit_val-digit_char upper d h = ground arith

-- A digit taken in.
prefix_value-digit :
    (base acc d : ℕ) (upper : Bool) (rest : Bytes)
    → d < base
    → base ≤ 16
    → prefix_value base acc (digit_char upper d ∷ rest) ≡ prefix_value base (acc * base + d) rest
unfolding prefix_value
prefix_value-digit base acc d upper rest h k =
    let e = digit_val-digit_char upper d (omega arith) in
    let below : leb base d ≡ false = ground arith in rw e (rw below)

div_below : (base v m : ℕ) → 0 < base → v < m * base → v / base < m
div_below base v m b h = grind arith

digits_down-Printed :
    (room base : ℕ) (upper : Bool) (v : ℕ) (acc : Bytes)
    → 1 < base
    → base ≤ 16
    → v < base ^ room
    → (text : Bytes) × (digits_down room base upper v acc ≡ some text)
      × (prefix_value base 0 text ≡ prefix_value base v acc)
      × (length text ≤ length acc + room)
unfolding digits_down
digits_down-Printed zero base upper v acc b c h =
    let z : v ≡ 0 = omega (arith, pow-zero base) in rw z (acc, refl, refl, omega arith)
digits_down-Printed (suc room) base upper v acc b c h = elim (Bool-cases (v == 0)) [
  | inl e ↦ let z : v ≡ 0 = ground arith in rw z (acc, refl, refl, omega arith)
  | inr e ↦
      let below : v / base < base ^ room =
        div_below base v (base ^ room) (omega arith) (rw pow-suc at h) in
      let (text, r, value, size) =
        digits_down-Printed room base upper (v / base) (digit_char upper (v % base) ∷ acc) b c
          below in
      let again : v / base * base + v % base ≡ v = grind arith in
      let digit = prefix_value-digit base (v / base) (v % base) upper acc (grind arith) c in
      rw e (text, r, value ∙ digit ∙ rw again, omega arith)
]

abbrev pub IsDecimal : Bytes → Type 0
IsDecimal = All (λ c. (b'0' ≤ c) × (c ≤ b'9'))

digits_down-IsDecimal :
    (room : ℕ) (upper : Bool) (v : ℕ) (acc : Bytes) {text : Bytes}
    → digits_down room 10 upper v acc ≡ some text
    → IsDecimal acc
    → IsDecimal text
unfolding digits_down
digits_down-IsDecimal zero upper v acc e a = elim (Bool-cases (v == 0)) [
  | inl z ↦ let same : acc ≡ _ = ground arith in rw same at a
  | inr z ↦ absurd (ground arith)
]
digits_down-IsDecimal (suc room) upper v acc e a = elim (Bool-cases (v == 0)) [
  | inl z ↦ let same : acc ≡ _ = ground arith in rw same at a
  | inr z ↦
      digits_down-IsDecimal room upper (v / 10) _ (rw z at e)
        (unfold digit_char in (ground arith, a))
]

to_str-value :
    (v base : ℕ) (upper : Bool)
    → 1 < base
    → base ≤ 16
    → v < base ^ 23
    → (text : Bytes) × (u_to_str v base upper ≡ some text)
      × (prefix_value base 0 text ≡ v)
      × (length text ≤ 23)
unfolding u_to_str
to_str-value v base upper b c h = elim (Bool-cases (v == 0)) [
  | inl e ↦
      let z : v ≡ 0 = ground arith in
      let digit = prefix_value-digit base 0 0 false [] (omega arith) c in
      let none_left : 0 * base + 0 ≡ 0 = omega arith in
      rw z (
        b'0' ∷ [],
        unfold digits_down in refl,
        unfold digit_char in digit ∙ unfold prefix_value in none_left,
        omega arith,
      )
  | inr e ↦
      let (text, r, value, size) = digits_down-Printed 23 base upper v [] b c h in
      rw e (text, r, unfold prefix_value in value, omega arith)
]

-- u_to_str stays within its buffer in the bases that are used, for every uint64_t, and its text
-- has the value.
pub u_to_str-value :
    (v base : ℕ) (upper : Bool)
    → v < 2 ^ 64
    → (base ≡ 8) ⊎ ((base ≡ 10) ⊎ (base ≡ 16))
    → (text : Bytes) × (u_to_str v base upper ≡ some text)
      × (prefix_value base 0 text ≡ v)
      × (length text ≤ 23)
u_to_str-value v base upper h (inl e) =
    rw e (to_str-value v 8 upper (omega arith) (omega arith) (omega arith))
u_to_str-value v base upper h (inr (inl e)) =
    rw e (to_str-value v 10 upper (omega arith) (omega arith) (omega arith))
u_to_str-value v base upper h (inr (inr e)) =
    rw e (to_str-value v 16 upper (omega arith) (omega arith) (omega arith))

pub u_to_str-IsDecimal : (v : ℕ) {text : Bytes} → u_to_str v 10 false ≡ some text → IsDecimal text
unfolding u_to_str
u_to_str-IsDecimal v e = elim (Bool-cases (v == 0)) [
  | inl z ↦ digits_down-IsDecimal 22 false v (b'0' ∷ []) (rw z at e) (omega arith)
  | inr z ↦ digits_down-IsDecimal 23 false v [] (rw z at e) tt
]

-- Decimal digits are no blanks and no sign.
decimal_text :
    (t : Bytes) → IsDecimal t → (skip_blank t ≡ t) × (behind_sign t ≡ t) × (sign_of t ≡ false)
unfolding skip_blank behind_sign sign_of
decimal_text [] a = (refl, refl, refl)
decimal_text (c ∷ cs) (h, a) = (ground arith, ground arith, ground arith)

skip_blank_space : (t : Bytes) → skip_blank (32 ∷ t) ≡ skip_blank t
unfolding skip_blank
skip_blank_space t = refl

-- The prefix is read as the sign, or skipped.
prefix_lem :
    (v : ℕ) (flags : Flags) (t : Bytes)
    → IsDecimal t
    → let s = int_prefix v flags ++ t in
      (sign_of (skip_blank s) ≡ leb (2 ^ 63) v) × (behind_sign (skip_blank s) ≡ t)
unfolding int_prefix
prefix_lem v flags t d =
    let (blank, behind, sign) = decimal_text t d in
    elim (Bool-cases (leb (2 ^ 63) v)) [
      | inl e ↦ rw e (unfold skip_blank sign_of behind_sign in (refl, refl))
      | inr e ↦ elim (Bool-cases flags.plus) [
        | inl p ↦ rw (e, p) (unfold skip_blank sign_of behind_sign in (refl, refl))
        | inr p ↦ elim (Bool-cases flags.space) [
          | inl w ↦ rw (e, p, w) (rw (skip_blank_space t, blank) (sign, behind))
          | inr w ↦ rw (e, p, w) (rw blank (sign, behind))
        ]
      ]
    ]

magnitude_lem :
    (v : ℕ)
    → v < 2 ^ 64
    → (magnitude v < 2 ^ 64)
      × (signed_value (leb (2 ^ 63) v) (magnitude v) ≡ v)
      × (leb (magnitude v) (if leb (2 ^ 63) v then llong_min else llong_max) ≡ true)
unfolding magnitude
magnitude_lem v h = ground arith

-- The conversion prints a number that strtoll reads back as the same 64-bit pattern, with no
-- overflow, whatever the flags for the sign; LLONG_MIN included.
pub strtoll-int_prefix :
    (v : ℕ) (flags : Flags)
    → v < 2 ^ 64
    → (text : Bytes) × (u_to_str (magnitude v) 10 false ≡ some text)
      × ((strtoll (int_prefix v flags ++ text) 10).value ≡ v)
      × ((strtoll (int_prefix v flags ++ text) 10).overflow ≡ false)
strtoll-int_prefix v flags h =
    let (m, back, within) = magnitude_lem v h in
    let (text, r, value, size) = u_to_str-value (magnitude v) 10 false m (inr (inl refl)) in
    let (sign, behind) = prefix_lem v flags text (u_to_str-IsDecimal (magnitude v) r) in
    let (number, over) = strtoll_decimal (int_prefix v flags ++ text) in
    (text, r, number ∙ rw (sign, behind, value) back, over ∙ rw (sign, behind, value, within))
