-- ===== src/Wat/Leb/Unsigned.antt =====
-- The bytes that buf_uleb appends, and their round trip through a reader of the format.
use lua2wasm.Prelude.{
  ℕ, zero, suc, ◌+◌, ◌-◌, ◌*◌, ◌/◌, ◌%◌, ◌^◌, ◌≤◌, ◌<◌, Bytes, length, length-append, true, false,
  ◌==◌, ltb, if◌then◌else◌, [], ◌∷◌, ◌++◌, Option, none, some, ◌≡◌, arith, Bool-cases, inl, inr,
  bit_and, bit_or,
}
use lua2wasm.Prelude.Bits.{bit_and_127, bit_or_80_byte}
use lua2wasm.Wat.Buf.{Buf}
use lua2wasm.Wat.Buf.Valid.{
  IsValid, Appends, Appends-IsValid, Appends-bind, Appends-done, buf_byte-value,
}
use lua2wasm.Wat.Leb.{uleb_loop, buf_uleb}

-- Groups of seven bits, lowest first; every byte but the last has 128 added.
unfoldable pub uleb : ℕ → ℕ → Bytes
uleb zero v = []
uleb (suc fuel) v =
    let more = uleb fuel (v / 128) in if v / 128 == 0 then v % 128 ∷ [] else (v % 128 + 128) ∷ more

-- The reader: the number at the front of the text, and what follows it.
unfoldable pub read_uleb : Bytes → Option (ℕ × Bytes)
read_uleb [] = none
read_uleb (b ∷ bs) = elim (ltb b 128) [
  | true ↦ some (b, bs)
  | false ↦ elim (read_uleb bs) [ none ↦ none | some (hi, rest) ↦ some (b - 128 + 128 * hi, rest) ]
]

pub read_uleb-uleb :
    (fuel v : ℕ) (rest : Bytes)
    → v < 128 ^ suc fuel
    → read_uleb (uleb (suc fuel) v ++ rest) ≡ some (v, rest)
unfolding uleb read_uleb
read_uleb-uleb zero v rest h = ground arith
read_uleb-uleb (suc fuel) v rest h = ground (arith, read_uleb-uleb fuel (v / 128) rest)

uleb-length : (fuel v : ℕ) → length (uleb fuel v) ≤ fuel
unfolding uleb
uleb-length zero v = omega arith
uleb-length (suc fuel) v = ground (arith, uleb-length fuel (v / 128))

low_group : (v : ℕ) → bit_and v 0x7f % 256 ≡ v % 128
low_group v = omega (arith, bit_and_127 v)

inner_group : (v : ℕ) → bit_or (bit_and v 0x7f) 0x80 % 256 ≡ v % 128 + 128
inner_group v =
    let low = bit_and_127 v in rw low (omega (arith, bit_or_80_byte (v % 128) (omega arith)))

-- The loop appends those bytes, if its fuel covers the number.
uleb_loop-Appends :
    (modulus fuel v : ℕ) (b : Buf)
    → IsValid b
    → v < 128 ^ suc fuel
    → (length b.bytes + suc fuel) * 2 ≤ modulus
    → Appends b (uleb (suc fuel) v) (uleb_loop modulus (suc fuel) b v)
unfolding uleb uleb_loop
uleb_loop-Appends modulus zero v b valid h s =
    let a = buf_byte-value modulus b (bit_and v 0x7f) (v % 128) valid (omega arith) (low_group v) in
    let e : (v / 128 == 0) ≡ true = ground arith in
    rw e (Appends-bind (λ b'. some b') a (Appends-done _ (Appends-IsValid a)))
uleb_loop-Appends modulus (suc fuel) v b valid h s = elim (Bool-cases (v / 128 == 0)) [
  | inl e ↦
      let a =
        buf_byte-value modulus b (bit_and v 0x7f) (v % 128) valid (omega arith) (low_group v) in
      rw e (Appends-bind (λ b'. some b') a (Appends-done _ (Appends-IsValid a)))
  | inr e ↦
      let a =
        buf_byte-value modulus b (bit_or (bit_and v 0x7f) 0x80) (v % 128 + 128) valid (omega arith)
          (inner_group v) in
      rw e (
        Appends-bind (λ b'. uleb_loop modulus (suc fuel) b' (v / 128)) a
          (uleb_loop-Appends modulus fuel (v / 128) _ (Appends-IsValid a) (ground arith)
            (omega (arith, length-append b.bytes ((v % 128 + 128) ∷ [])))))
]

-- buf_uleb appends at most ten bytes to a valid buffer that has room to grow, for any uint64_t,
-- and a reader of unsigned LEB128 gets the number back from them, with whatever follows.
pub buf_uleb-read_uleb :
    (modulus v : ℕ) (b : Buf) (rest : Bytes)
    → IsValid b
    → v < 2 ^ 64
    → (length b.bytes + 10) * 2 ≤ modulus
    → (bs : Bytes) × Appends b bs (buf_uleb modulus b v)
      × (length bs ≤ 10)
      × (read_uleb (bs ++ rest) ≡ some (v, rest))
unfolding buf_uleb
buf_uleb-read_uleb modulus v b rest valid h s = (
  uleb 10 v,
  uleb_loop-Appends modulus 9 v b valid (omega arith) s,
  uleb-length 10 v,
  read_uleb-uleb 9 v rest (omega arith),
)
