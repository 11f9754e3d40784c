-- ===== src/Lexer/Number/Advance.antt =====
-- The cursor moves forward over a numeric literal.
use lua2wasm.Prelude.{
  ℕ, Bytes, Bool, true, false, ◌&&◌, ◌||◌, ◌==◌, if◌then◌else◌, [], ◌∷◌, ◌≡◌, ◌⊎◌, inl, inr,
  Bool-cases,
}
use lua2wasm.Freestanding.Ctype.{isdigit, isxdigit}
use lua2wasm.Freestanding.Mem.{peek, next}
use lua2wasm.Lexer.Number.{skip_while, exponent, fraction, scan_number, scan_point}
use lua2wasm.Lexer.Cursor.{
  Tail, Moved, Tail-refl, Tail-cons, Tail-trans, next-Tail, Moved-trans, skip_while-Tail,
  skip_while-Moved,
}

exponent-Tail : (p : Bytes) → Tail (exponent p) p
unfolding exponent
exponent-Tail p = elim (Bool-cases (peek p == b'+' || peek p == b'-')) [
  | inl e ↦ rw e (Tail-trans (skip_while-Tail isdigit (next p)) (next-Tail p))
  | inr e ↦ rw e (skip_while-Tail isdigit p)
]

fraction-Tail :
    (digit : ℕ → Bool) (lower upper : ℕ) (hex : Bool) (p : Bytes)
    → Tail (fraction digit lower upper hex p).stop p
unfolding fraction
fraction-Tail digit lower upper hex p =
    Tail-trans (behind_exponent q) (behind_dot (Bool-cases (peek p == b'.')))
  where
    q : Bytes
    q = if peek p == b'.' then skip_while digit (next p) else p

    behind_dot : (peek p == b'.' ≡ true) ⊎ (peek p == b'.' ≡ false) → Tail q p
    behind_dot (inl e) = rw e (Tail-trans (skip_while-Tail digit (next p)) (next-Tail p))
    behind_dot (inr e) = rw e (Tail-refl p)

    behind_exponent :
        (q : Bytes) → Tail (if peek q == lower || peek q == upper then exponent (next q) else q) q
    behind_exponent q = elim (Bool-cases (peek q == lower || peek q == upper)) [
      | inl e ↦ rw e (Tail-trans (exponent-Tail (next q)) (next-Tail q))
      | inr e ↦ rw e (Tail-refl q)
    ]

pub scan_number-Moved : (p : Bytes) → isdigit (peek p) ≡ true → Moved (scan_number p).stop p
unfolding scan_number
scan_number-Moved [] h = unfold isdigit in cc h
scan_number-Moved (c ∷ cs) h =
    elim (Bool-cases (c == b'0' && (peek cs == b'x' || peek cs == b'X'))) [
      | inl e ↦ rw e (
          Moved-trans
            (Tail-trans (fraction-Tail isxdigit b'p' b'P' true _)
              (skip_while-Tail isxdigit (next cs)))
            (Tail-cons c (next-Tail cs)))
      | inr e ↦
          rw e (
            Moved-trans (fraction-Tail isdigit b'e' b'E' false _) (skip_while-Moved isdigit c cs h))
    ]

pub scan_point-Moved : (c : ℕ) (cs : Bytes) → Moved (scan_point (c ∷ cs)) (c ∷ cs)
unfolding scan_point
scan_point-Moved c cs =
    let q = skip_while isdigit cs in
    elim (Bool-cases (peek q == b'e' || peek q == b'E')) [
      | inl e ↦ rw e (
          Tail-cons c (
            Tail-trans (exponent-Tail (next q))
              (Tail-trans (next-Tail q) (skip_while-Tail isdigit cs))))
      | inr e ↦ rw e (Tail-cons c (skip_while-Tail isdigit cs))
    ]
