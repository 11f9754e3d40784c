-- ===== src/Wat/Leb/Signed.antt =====
-- The bytes that buf_sleb appends, and their round trip through a reader of the format.
use lua2wasm.Prelude.{
  ℕ, zero, suc, ◌+◌, ◌-◌, ◌*◌, ◌/◌, ◌%◌, ◌^◌, ◌≤◌, ◌<◌, Bytes, length, length-append, Bool, true,
  false, not, ◌&&◌, ◌||◌, ◌==◌, ltb, if◌then◌else◌, [], ◌∷◌, ◌++◌, Option, none, some, ◌≡◌, ◌∙◌,
  ◌⊎◌, arith, Bool-cases, inl, inr, bit_and, bit_or,
}
use lua2wasm.Prelude.Bits.{bit_and_127, bit_and_40_byte, bit_or_80_byte}
use native.Mathlib.Nat.{pow-suc}
use lua2wasm.Wat.Buf.{Buf}
use lua2wasm.Wat.Buf.Valid.{
  IsValid, Appends, Appends-IsValid, Appends-bind, Appends-done, buf_byte-value,
}
use lua2wasm.Wat.Leb.{sleb_loop, buf_sleb, shift_right_7, minus_one}

-- Whether the group of `v` is the last: what is left is its sign.
abbrev is_last : ℕ → Bool
is_last v =
    ltb (v % 128) 64 && shift_right_7 v == 0
    || not (ltb (v % 128) 64) && shift_right_7 v == minus_one

unfoldable pub sleb : ℕ → ℕ → Bytes
sleb zero v = []
sleb (suc fuel) v =
    let more = sleb fuel (shift_right_7 v) in
    if is_last v then v % 128 ∷ [] else (v % 128 + 128) ∷ more

-- The reader, into 64-bit patterns: a last byte from 64 on is negative.
unfoldable pub read_sleb : Bytes → Option (ℕ × Bytes)
read_sleb [] = none
read_sleb (b ∷ bs) = elim (ltb b 128) [
  | true ↦ some (if ltb b 64 then b else b + (2 ^ 64 - 128), bs)
  | false ↦ elim (read_sleb bs) [
    | none ↦ none
    | some (hi, rest) ↦ some ((b - 128 + 128 * hi) % 2 ^ 64, rest)
  ]
]

-- The patterns whose integers have at most `7 * n + 7` bits.
abbrev span : ℕ → ℕ
span n = 64 * 128 ^ n

abbrev Narrow : ℕ → ℕ → Type 0
Narrow n v = (v < span n) ⊎ (2 ^ 64 ≤ v + span n)

shift-lt : (v : ℕ) → v < 2 ^ 64 → shift_right_7 v < 2 ^ 64
shift-lt v h = ground arith

shift-back : (v : ℕ) → v < 2 ^ 64 → (v % 128 + 128 * shift_right_7 v) % 2 ^ 64 ≡ v
shift-back v h = ground arith

shift-Narrow : (n v : ℕ) → v < 2 ^ 64 → Narrow (suc n) v → Narrow n (shift_right_7 v)
shift-Narrow n v h k =
    let p : 128 ^ suc n ≡ 128 * 128 ^ n = rw pow-suc (omega arith) in ground arith

last_value :
    (v : ℕ)
    → v < 2 ^ 64
    → is_last v ≡ true
    → (if ltb (v % 128) 64 then v % 128 else v % 128 + (2 ^ 64 - 128)) ≡ v
last_value v h l = ground arith

Narrow-last : (v : ℕ) → v < 2 ^ 64 → Narrow 0 v → is_last v ≡ true
Narrow-last v h n = ground arith

read_low :
    (b : ℕ) (rest : Bytes)
    → b < 128
    → read_sleb (b ∷ rest) ≡ some (if ltb b 64 then b else b + (2 ^ 64 - 128), rest)
unfolding read_sleb
read_low b rest h = ground arith

read_high :
    (b hi : ℕ) (bs rest : Bytes)
    → 128 ≤ b
    → read_sleb bs ≡ some (hi, rest)
    → read_sleb (b ∷ bs) ≡ some ((b - 128 + 128 * hi) % 2 ^ 64, rest)
unfolding read_sleb
read_high b hi bs rest h e = ground arith

read_sleb-last :
    (fuel v : ℕ) (rest : Bytes)
    → v < 2 ^ 64
    → is_last v ≡ true
    → read_sleb (sleb (suc fuel) v ++ rest) ≡ some (v, rest)
unfolding sleb
read_sleb-last fuel v rest h l =
    rw l (read_low (v % 128) rest (omega arith) ∙ rw (last_value v h l))

step :
    (fuel v : ℕ) (rest : Bytes) {o : Option (ℕ × Bytes)}
    → is_last v ≡ false
    → read_sleb ((v % 128 + 128) ∷ (sleb (suc fuel) (shift_right_7 v) ++ rest)) ≡ o
    → read_sleb (sleb (suc (suc fuel)) v ++ rest) ≡ o
unfolding sleb
step fuel v rest more e = rw more e

read_sleb-sleb :
    (fuel v : ℕ) (rest : Bytes)
    → v < 2 ^ 64
    → Narrow fuel v
    → read_sleb (sleb (suc fuel) v ++ rest) ≡ some (v, rest)
read_sleb-sleb zero v rest h n = read_sleb-last zero v rest h (Narrow-last v h n)
read_sleb-sleb (suc fuel) v rest h n = elim (Bool-cases (is_last v)) [
  | inl l ↦ read_sleb-last (suc fuel) v rest h l
  | inr more ↦
      let ih =
        read_sleb-sleb fuel (shift_right_7 v) rest (shift-lt v h) (shift-Narrow fuel v h n) in
      let back = shift-back v h in
      let same : v % 128 + 128 - 128 ≡ v % 128 = omega arith in
      let group : (v % 128 + 128 - 128 + 128 * shift_right_7 v) % 2 ^ 64 ≡ v = rw same back in
      step fuel v rest more (
        read_high (v % 128 + 128) (shift_right_7 v) (sleb (suc fuel) (shift_right_7 v) ++ rest) rest
          (omega arith) ih
        ∙ rw group)
]

sleb-length : (fuel v : ℕ) → length (sleb fuel v) ≤ fuel
unfolding sleb
sleb-length zero v = omega arith
sleb-length (suc fuel) v = ground (arith, sleb-length fuel (shift_right_7 v))

-- The test of the loop is that of the description.
last_lem :
    (v : ℕ)
    → (shift_right_7 v == 0 && bit_and (bit_and v 0x7f) 0x40 == 0
        || shift_right_7 v == minus_one && not (bit_and (bit_and v 0x7f) 0x40 == 0))
      ≡ is_last v
last_lem v =
    let low = bit_and_127 v in
    let sign : bit_and (v % 128) 0x40 ≡ v % 128 / 64 * 64 =
      bit_and_40_byte (v % 128) (omega arith) in
    rw low (rw sign (ground arith))

low_group : (v : ℕ) → bit_and v 0x7f % 256 ≡ v % 128
low_group v = omega (arith, bit_and_127 v)

inner_group : (v : ℕ) → bit_or (bit_and v 0x7f) 0x80 % 256 ≡ v % 128 + 128
inner_group v =
    let low = bit_and_127 v in rw low (omega (arith, bit_or_80_byte (v % 128) (omega arith)))

sleb_loop-last :
    (modulus fuel v : ℕ) (b : Buf)
    → IsValid b
    → (length b.bytes + 1) * 2 ≤ modulus
    → is_last v ≡ true
    → Appends b (sleb (suc fuel) v) (sleb_loop modulus (suc fuel) b v)
unfolding sleb sleb_loop
sleb_loop-last modulus fuel v b valid s l =
    let a = buf_byte-value modulus b (bit_and v 0x7f) (v % 128) valid s (low_group v) in
    rw (last_lem v, l) (Appends-bind (λ b'. some b') a (Appends-done _ (Appends-IsValid a)))

sleb_loop-Appends :
    (modulus fuel v : ℕ) (b : Buf)
    → IsValid b
    → v < 2 ^ 64
    → Narrow fuel v
    → (length b.bytes + suc fuel) * 2 ≤ modulus
    → Appends b (sleb (suc fuel) v) (sleb_loop modulus (suc fuel) b v)
unfolding sleb sleb_loop
sleb_loop-Appends modulus zero v b valid h n s =
    sleb_loop-last modulus zero v b valid (omega arith) (Narrow-last v h n)
sleb_loop-Appends modulus (suc fuel) v b valid h n s = elim (Bool-cases (is_last v)) [
  | inl l ↦ sleb_loop-last modulus (suc fuel) v b valid (omega arith) l
  | inr more ↦
      let a =
        buf_byte-value modulus b (bit_or (bit_and v 0x7f) 0x80) (v % 128 + 128) valid (omega arith)
          (inner_group v) in
      let ih =
        sleb_loop-Appends modulus fuel (shift_right_7 v) _ (Appends-IsValid a) (shift-lt v h)
          (shift-Narrow fuel v h n) (omega (arith, length-append b.bytes ((v % 128 + 128) ∷ []))) in
      rw (last_lem v, more)
        (Appends-bind (λ b'. sleb_loop modulus (suc fuel) b' (shift_right_7 v)) a ih)
]

-- buf_sleb appends at most ten bytes to a valid buffer that has room to grow, for any int64_t,
-- and a reader of signed LEB128 gets its pattern back from them, with whatever follows.
pub buf_sleb-read_sleb :
    (modulus v : ℕ) (b : Buf) (rest : Bytes)
    → IsValid b
    → v < 2 ^ 64
    → (length b.bytes + 10) * 2 ≤ modulus
    → (bs : Bytes) × Appends b bs (buf_sleb modulus b v)
      × (length bs ≤ 10)
      × (read_sleb (bs ++ rest) ≡ some (v, rest))
unfolding buf_sleb
buf_sleb-read_sleb modulus v b rest valid h s = (
  sleb 10 v,
  sleb_loop-Appends modulus 9 v b valid h (inl (omega arith)) s,
  sleb-length 10 v,
  read_sleb-sleb 9 v rest h (inl (omega arith)),
)
