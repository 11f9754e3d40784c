-- ===== src/Lexer/Text/Bounds.antt =====
-- read_string stays within its buffer and reads on: what each part writes is no more than the
-- first scan counted for the text that it takes.
use lua2wasm.Prelude.{
  ℕ, zero, suc, ◌+◌, ◌-◌, ◌*◌, ◌%◌, ◌^◌, ◌≤◌, ◌<◌, Bytes, length, Bool, true, false, not, ◌||◌,
  ◌==◌, ltb, leb, if◌then◌else◌, [], ◌∷◌, ◌++◌, bit_or, arith, ◌≡◌, ◌≢◌, refl, inl, inr, Bool-cases,
  length-append,
}
use lua2wasm.Lexer.Text.Digits.{IsUlong, hex_val-lt, shift_in-le}
use lua2wasm.Freestanding.Ctype.{isdigit, isxdigit}
use lua2wasm.Freestanding.Mem.{peek, next}
use lua2wasm.Lexer.Utf8.{encode_utf8}
use lua2wasm.Lexer.Text.{
  malformed_u, Round, wrote, failed, simple_escape, skip_space, unicode_digits, unicode_escape,
  decimal_escape, long_escape, escape, round, Outcome, decoded, refused, overrun, stuck, scan_cap,
  decode, read_string, hex_val,
}
use native.Mathlib.Nat.{pow-suc}
use lua2wasm.Lexer.Text.Budget.{
  IsQuote, Fits, Fits-mono, scan_plain, scan_escape, skip_space-Fits, decimal_escape-Fits,
  line_break-Fits, scan_xdigit, hex_escape-Fits,
}

-- A code point of at most `n` hexadecimal digits has at most `n` bytes of UTF-8.
length-encode_utf8 : (n cp : ℕ) → cp < 16 ^ suc n → length (encode_utf8 cp) ≤ suc n
unfolding encode_utf8
length-encode_utf8 zero cp h = ground arith
length-encode_utf8 (suc zero) cp h = ground arith
length-encode_utf8 (suc (suc zero)) cp h = ground arith
length-encode_utf8 (suc (suc (suc zero))) cp h = ground arith
length-encode_utf8 (suc (suc (suc (suc zero)))) cp h = ground arith
length-encode_utf8 (suc (suc (suc (suc (suc zero))))) cp h = ground arith
length-encode_utf8 (suc (suc (suc (suc (suc (suc n)))))) cp h = ground arith

-- What has been read of `\u{...}`: at most `n` digits, and one at least if any was seen.
record Read (n cp : ℕ) (seen : Bool) : Type 0 where
  bound : cp < 16 ^ n
  some_digit : seen ≡ true → 0 < n

encode-le : (n cp : ℕ) → 0 < n → cp < 16 ^ n → length (encode_utf8 cp) ≤ n
encode-le zero cp h k = elim h [ ]
encode-le (suc n) cp h k = length-encode_utf8 n cp k

module _ (q w : ℕ) (quote : IsQuote q) (ulong : IsUlong w) where
  close :
      (n c : ℕ) (cs : Bytes) (line cp : ℕ) (seen : Bool)
      → Read n cp seen
      → Fits q (n + scan_cap q (c ∷ cs)) (suc (length cs)) (
          if not seen || not (c == b'}')
          then failed (c ∷ cs) line malformed_u
          else wrote cs line (encode_utf8 cp))
  close n c cs line cp false r = tt
  close n c cs line cp true r = elim (Bool-cases (c == b'}')) [
    | inl e ↦
        let n_pos = r.some_digit refl in
        let c_is : c ≡ b'}' = ground arith in
        let plain = scan_plain q quote c cs (omega arith) (omega arith) (omega arith) in
        let few = encode-le n cp n_pos r.bound in rw e (omega arith)
    | inr other ↦ rw other tt
  ]

  unicode_digits-Fits :
      (n : ℕ) (p : Bytes) (line cp : ℕ) (seen : Bool)
      → Read n cp seen
      → Fits q (n + scan_cap q p) (length p) (unicode_digits (2 ^ w) p line cp seen)
  unfolding unicode_digits
  unicode_digits-Fits n [] line cp seen r = tt
  unicode_digits-Fits n (c ∷ cs) line cp seen r = elim (Bool-cases (isxdigit c)) [
    | inl x ↦
        let cp' : ℕ = bit_or (cp * 16 % 2 ^ w) (hex_val c) in
        let d = hex_val-lt c x in
        let le = shift_in-le w cp (hex_val c) ulong d in
        let b : cp' < 16 ^ suc n = rw pow-suc (omega (arith, r.bound)) in
        let rest =
          unicode_digits-Fits (suc n) cs line cp' true
            (record { bound = b; some_digit = λ _. omega arith }) in
        let plain : scan_cap q (c ∷ cs) ≡ suc (scan_cap q cs) = scan_xdigit q quote c cs x in
        elim (Bool-cases (ltb 0x7fffffff cp')) [
          | inl large ↦ rw (x, large) tt
          | inr small ↦ rw (x, small) (Fits-mono q _ _ _ _ _ (omega arith) (omega arith) rest)
        ]
    | inr no_digit ↦ rw no_digit (close n c cs line cp seen r)
  ]

  unicode_escape-Fits :
      (p : Bytes) (line : ℕ) → Fits q (1 + scan_cap q p) (length p) (unicode_escape (2 ^ w) p line)
  unfolding unicode_escape
  unicode_escape-Fits [] line = tt
  unicode_escape-Fits (c ∷ cs) line = elim (Bool-cases (c == b'{')) [
    | inl e ↦
        let c_is : c ≡ b'{' = ground arith in
        let plain = scan_plain q quote c cs (omega arith) (omega arith) (omega arith) in
        let start : Read 0 0 false = record { bound = omega arith; some_digit = λ s. cc } in
        rw e (
          Fits-mono q _ _ _ _ _ (omega arith) (omega arith)
            (unicode_digits-Fits 0 cs line 0 false start))
    | inr other ↦ rw other tt
  ]

  decimal-Fits :
      (c : ℕ) (cs : Bytes) (line : ℕ)
      → isdigit c ≡ true
      → Fits q (1 + scan_cap q cs) (length cs) (decimal_escape 3 (c ∷ cs) line 0)
  decimal-Fits c cs line d =
      unfold decimal_escape in rw d (decimal_escape-Fits q quote 2 cs line (0 * 10 + (c - b'0')))

  z-Fits : (cs : Bytes) (line : ℕ) → Fits q (1 + scan_cap q cs) (length cs) (skip_space cs line [])
  z-Fits cs line =
      Fits-mono q (0 + scan_cap q cs) _ (length cs) _ (skip_space cs line []) (omega arith)
        (omega arith) (skip_space-Fits q quote cs line [])

  long_escape-Fits :
      (c : ℕ) (cs : Bytes) (line : ℕ)
      → Fits q (1 + scan_cap q cs) (length cs) (long_escape (2 ^ w) (c ∷ cs) line)
  unfolding long_escape
  long_escape-Fits c cs line = ground (
    arith,
    hex_escape-Fits q quote cs line,
    z-Fits cs line,
    line_break-Fits q quote c cs line,
    unicode_escape-Fits cs line,
    decimal-Fits c cs line,
  )

  escape-Fits :
      (c : ℕ) (cs : Bytes) (line : ℕ)
      → Fits q (1 + scan_cap q cs) (length cs) (escape (2 ^ w) (c ∷ cs) line)
  unfolding escape
  escape-Fits c cs line = ground (arith, long_escape-Fits c cs line)

  -- A backslash before the end of the text is refused.
  escape_end : (p : Bytes) (line b s : ℕ) → peek p ≡ 0 → Fits q b s (escape (2 ^ w) p line)
  unfolding escape simple_escape long_escape isdigit
  escape_end [] line b s h = tt
  escape_end (zero ∷ cs) line b s h = tt
  escape_end (suc c ∷ cs) line b s h = cc

  backslash-Fits :
      (cs : Bytes) (line : ℕ) → Fits q (scan_cap q (92 ∷ cs)) (length cs) (escape (2 ^ w) cs line)
  backslash-Fits [] line = escape_end [] line _ _ refl
  backslash-Fits (zero ∷ ds) line = escape_end (zero ∷ ds) line _ _ refl
  backslash-Fits (suc d ∷ ds) line =
      let esc : scan_cap q (92 ∷ suc d ∷ ds) ≡ suc (scan_cap q ds) =
        scan_escape q quote (suc d) ds (omega arith) in
      Fits-mono q _ _ _ _ (escape (2 ^ w) (suc d ∷ ds) line) (omega arith) (omega arith)
        (escape-Fits (suc d) ds line)

  round-Fits :
      (c : ℕ) (cs : Bytes) (line : ℕ)
      → c ≢ 0
      → c ≢ q
      → Fits q (scan_cap q (c ∷ cs)) (length cs) (round (2 ^ w) (c ∷ cs) line)
  unfolding round
  round-Fits c cs line h k = elim (Bool-cases (c == 10)) [
    | inl e ↦ rw e tt
    | inr no_newline ↦ elim (Bool-cases (c == 92)) [
      | inl e ↦ let c_is : c ≡ 92 = ground arith in rw c_is (backslash-Fits cs line)
      | inr other ↦
          let plain = scan_plain q quote c cs h k (ground arith) in
          rw (no_newline, other) (omega arith)
    ]
  ]

-- How the loop goes on behind a round.
abbrev continue : ℕ → ℕ → ℕ → ℕ → Bytes → Round → Outcome
continue modulus q cap fuel out r = elim r [
  | failed p' l m ↦ refused p' l m
  | wrote p' l bs ↦ elim (leb (length out + length bs) cap) [
    | true ↦ decode modulus q cap fuel p' l (out ++ bs)
    | false ↦ overrun
  ]
]

-- What the loop may end with: never an overrun or a lack of fuel, and a decoded text within
-- the capacity, with the cursor further on.
abbrev pub Safe : ℕ → ℕ → Outcome → Type 0
Safe cap size (decoded p line out) = (length out ≤ cap) × (length p < size)
Safe cap size (refused p line m) = Unit
Safe cap size overrun = ⊥
Safe cap size stuck = ⊥

module _ (q w cap limit : ℕ) (quote : IsQuote q) (ulong : IsUlong w) (within : limit ≤ cap) where
  -- The end of a round, given what the loop does from there on.
  after_round :
      (fuel size n budget : ℕ) (out : Bytes) (r : Round)
      → Fits q budget n r
      → length out + budget ≤ limit
      → ((p : Bytes) (line : ℕ) (out' : Bytes)
          → length p ≤ n
          → length out' + scan_cap q p ≤ limit
          → Safe limit (suc size) (decode (2 ^ w) q cap fuel p line out'))
      → Safe limit (suc size) (continue (2 ^ w) q cap fuel out r)
  after_round fuel size n budget out (failed p l m) f room rec = tt
  after_round fuel size n budget out (wrote p l bs) f room rec =
      let len : length (out ++ bs) ≡ length out + length bs = length-append out bs in
      ground (arith, rec p l (out ++ bs) f.1 (omega arith))

  decode-Safe :
      (fuel size : ℕ) (p : Bytes) (line : ℕ) (out : Bytes)
      → length p < fuel
      → length p ≤ size
      → length out + scan_cap q p ≤ limit
      → Safe limit (suc size) (decode (2 ^ w) q cap fuel p line out)
  unfolding decode
  decode-Safe zero size p line out f s room = elim f [ ]
  decode-Safe (suc fuel) size [] line out f s room = ground arith
  decode-Safe (suc fuel) size (c ∷ cs) line out f s room = elim (Bool-cases (c == 0 || c == q)) [
    | inl end ↦ rw end (ground arith)
    | inr more ↦ rw more (
        after_round fuel size (length cs) (scan_cap q (c ∷ cs)) out (round (2 ^ w) (c ∷ cs) line)
          (round-Fits q w quote ulong c cs line (ground arith) (ground arith)) room
          (λ p' l o a b. decode-Safe fuel size p' l o (omega arith) (omega arith) b))
  ]

-- A quoted literal is decoded within the buffer that the first scan sizes, and the loop ends: a
-- literal that is accepted has at most as many bytes as the scan counts, and leaves the cursor
-- further on; one that is refused was refused before any write beyond the buffer. The loop does
-- so even in a buffer of the scan's count alone, without the margin of four bytes.
pub read_string-Safe :
    (w q : ℕ) (p : Bytes) (line : ℕ)
    → IsUlong w
    → IsQuote q
    → Safe (scan_cap q (next p)) (suc (length (next p))) (read_string w q p line)
      × Safe
          (scan_cap q (next p))
          (suc (length (next p)))
          (decode (2 ^ w) q (scan_cap q (next p)) (length (next p) + 1) (next p) line [])
unfolding read_string
read_string-Safe w q p line ulong quote =
    let text = next p in
    let within = λ (cap : ℕ) (room : scan_cap q text ≤ cap).
      decode-Safe q w cap (scan_cap q text) quote ulong room (length text + 1) (length text) text
        line [] (omega arith) (omega arith) (omega arith) in
    (within (scan_cap q text + 4) (omega arith), within (scan_cap q text) (omega arith))
