-- ===== src/Wat/Integer/Values.antt =====
-- parse_uint reads back the integers that the code generator's `%lld` prints.
use lua2wasm.Prelude.{
  ℕ, ◌+◌, ◌-◌, ◌*◌, ◌%◌, ◌^◌, ◌<◌, Bytes, false, ◌||◌, ◌==◌, leb, ltb, if◌then◌else◌, [], ◌∷◌, ◌++◌,
  some, ◌≡◌, ◌≢◌, refl, sym, ◌∙◌, ap, arith, Bool-cases, inl, inr,
}
use lua2wasm.Freestanding.Mem.{peek}
use lua2wasm.Freestanding.Strtoll.{digit_val}
use lua2wasm.Freestanding.Strtoll.Values.{prefix_value}
use lua2wasm.Freestanding.Fmt.{u_to_str, digits_down, magnitude, int_prefix, Flags}
use lua2wasm.Freestanding.Fmt.Decimal.{IsDecimal, u_to_str-IsDecimal, u_to_str-value}
use lua2wasm.Wat.Text.{done}
use lua2wasm.Wat.Integer.{decimal_loop, digits, signed, parse_uint}

wrap_lem : (a d : ℕ) → (a % 2 ^ 64 * 10 + d) % 2 ^ 64 ≡ (a * 10 + d) % 2 ^ 64
wrap_lem a d = omega arith

-- The loop has the value of the digits, modulo 2^64, however many they are.
decimal_loop-value :
    (t : Bytes) (a : ℕ)
    → IsDecimal t
    → decimal_loop t (a % 2 ^ 64) ≡ done (prefix_value 10 a t % 2 ^ 64) []
unfolding decimal_loop prefix_value
decimal_loop-value [] a h = refl
decimal_loop-value (c ∷ cs) a ((low, high), rest) =
    let digit : digit_val c ≡ c - b'0' = unfold digit_val in ground arith in
    let within : leb 10 (c - b'0') ≡ false = ground arith in
    let not_nul : (c == 0) ≡ false = ground arith in
    let not_bar : (c == b'_') ≡ false = ground arith in
    let not_bad : (ltb c b'0' || ltb b'9' c) ≡ false = ground arith in
    rw (digit, within, not_nul, not_bar, not_bad, wrap_lem a (c - b'0'))
      (decimal_loop-value cs (a * 10 + (c - b'0')) rest)

digits-value :
    (t : Bytes)
    → IsDecimal t
    → t ≢ []
    → (digits t ≡ done (prefix_value 10 0 t % 2 ^ 64) [])
      × ((peek t == b'+') ≡ false)
      × ((peek t == b'-') ≡ false)
unfolding digits
digits-value [] h ne = absurd (ne refl)
digits-value (c ∷ []) ((low, high), rest) ne =
    let e = decimal_loop-value (c ∷ []) 0 ((low, high), rest) in ground arith
digits-value (c ∷ d ∷ ds) ((low, high), ((low', high'), rest)) ne =
    let e = decimal_loop-value (c ∷ d ∷ ds) 0 ((low, high), ((low', high'), rest)) in ground arith

zero_digit : u_to_str 0 10 false ≢ some []
unfolding u_to_str digits_down
zero_digit f = cc

u_to_str-ne-nil : (v : ℕ) → v < 2 ^ 64 → u_to_str v 10 false ≢ some []
u_to_str-ne-nil v h e =
    let (text, r, value, size) = u_to_str-value v 10 false h (inr (inl refl)) in
    let nil : text ≡ [] = cc in
    let no_digits : prefix_value 10 0 [] ≡ v = rw nil at value in
    let z : v ≡ 0 = sym no_digits ∙ unfold prefix_value in refl in zero_digit (rw z at e)

magnitude-back :
    (v : ℕ)
    → v < 2 ^ 64
    → ((if leb (2 ^ 63) v then (2 ^ 64 - magnitude v) % 2 ^ 64 else magnitude v) ≡ v)
      × (magnitude v < 2 ^ 64)
unfolding magnitude
magnitude-back v h = ground arith

printed-parse_uint :
    (v : ℕ) (flags : Flags) (text : Bytes)
    → v < 2 ^ 64
    → flags.space ≡ false
    → digits text ≡ done (magnitude v % 2 ^ 64) []
    → (peek text == b'+') ≡ false
    → (peek text == b'-') ≡ false
    → parse_uint (int_prefix v flags ++ text) ≡ done v []
unfolding parse_uint int_prefix signed
printed-parse_uint v flags text h space number plus minus =
    let (back, m) = magnitude-back v h in
    let exact : magnitude v % 2 ^ 64 ≡ magnitude v = omega arith in
    elim (Bool-cases (leb (2 ^ 63) v)) [
      | inl e ↦ rw (e, number, exact) (ap (λ x. done x []) (rw e at back))
      | inr e ↦ elim (Bool-cases flags.plus) [
        | inl f ↦ rw (e, f, number, exact) (ap (λ x. done x []) (rw e at back))
        | inr f ↦ rw (e, f, space, plus, minus, number, exact) (ap (λ x. done x []) (rw e at back))
      ]
    ]

-- The text that %lld and %lli print for a 64-bit integer, with or without the flag `+`, is read
-- back by parse_uint as the same 64-bit pattern, to the end of the text.
pub parse_uint-int_prefix :
    (v : ℕ) (flags : Flags)
    → v < 2 ^ 64
    → flags.space ≡ false
    → (text : Bytes) × (u_to_str (magnitude v) 10 false ≡ some text)
      × (parse_uint (int_prefix v flags ++ text) ≡ done v [])
parse_uint-int_prefix v flags h space =
    let (back, m) = magnitude-back v h in
    let (text, r, value, size) = u_to_str-value (magnitude v) 10 false m (inr (inl refl)) in
    let (number, plus, minus) =
      digits-value text (u_to_str-IsDecimal (magnitude v) r)
        (λ e. u_to_str-ne-nil (magnitude v) m (r ∙ ap some e)) in
    (text, r, printed-parse_uint v flags text h space (rw value at number) plus minus)
