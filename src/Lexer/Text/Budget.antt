-- ===== src/Lexer/Text/Budget.antt =====
-- The first scan of read_string as a budget, and what the escapes of one or two digits, of white
-- space and of line breaks write within it.
use lua2wasm.Prelude.{
  ℕ, zero, suc, ◌+◌, ◌-◌, ◌*◌, ◌≤◌, ◌<◌, Bytes, length, true, ◌==◌, if◌then◌else◌, [], ◌∷◌, arith,
  ◌≡◌, ◌≢◌, ◌⊎◌, inl, inr, Bool-cases,
}
use lua2wasm.Lexer.Text.Digits.{xdigit_plain}
use lua2wasm.Freestanding.Ctype.{isdigit, isxdigit, isspace}
use lua2wasm.Lexer.Text.{
  Round, wrote, failed, skip_space, line_break, hex_escape, decimal_escape, scan_cap,
}

-- The two quotes.
abbrev pub IsQuote : ℕ → Type 0
IsQuote q = (q ≡ 34) ⊎ (q ≡ 39)

-- A round takes at least the text down to `size` bytes, and writes at most what leaves the count
-- of the rest within the budget.
abbrev pub Fits : ℕ → ℕ → ℕ → Round → Type 0
Fits q budget size (wrote p line bs) = (length bs + scan_cap q p ≤ budget) × (length p ≤ size)
Fits q budget size (failed p line m) = Unit

pub Fits-mono : (q b b' s s' : ℕ) (r : Round) → b ≤ b' → s ≤ s' → Fits q b s r → Fits q b' s' r
Fits-mono q b b' s s' (wrote p l bs) hb hs f = omega arith
Fits-mono q b b' s s' (failed p l m) hb hs f = tt

module _ (q : ℕ) (quote : IsQuote q) where
  pub scan_plain :
      (c : ℕ) (cs : Bytes) → c ≢ 0 → c ≢ q → c ≢ 92 → scan_cap q (c ∷ cs) ≡ suc (scan_cap q cs)
  unfolding scan_cap
  scan_plain c [] h k l = ground arith
  scan_plain c (d ∷ ds) h k l = ground arith

  pub scan_escape : (c : ℕ) (cs : Bytes) → c ≢ 0 → scan_cap q (92 ∷ c ∷ cs) ≡ suc (scan_cap q cs)
  unfolding scan_cap
  scan_escape c cs h = ground arith

  pub skip_space-Fits :
      (p : Bytes) (line : ℕ) (out : Bytes)
      → Fits q (length out + scan_cap q p) (length p) (skip_space p line out)
  unfolding skip_space
  skip_space-Fits [] line out = omega arith
  skip_space-Fits (c ∷ cs) line out = elim (Bool-cases (isspace c)) [
    | inl sp ↦
        let plain : scan_cap q (c ∷ cs) ≡ suc (scan_cap q cs) =
          scan_plain c cs (unfold isspace in ground arith) (unfold isspace in ground arith)
            (unfold isspace in ground arith) in
        rw sp (
          Fits-mono q _ _ _ _ _ (omega arith) (omega arith)
            (skip_space-Fits cs (if c == 10 then line + 1 else line) out))
    | inr no_space ↦ rw no_space (omega arith)
  ]

  pub decimal_escape-Fits :
      (n : ℕ) (p : Bytes) (line v : ℕ)
      → Fits q (1 + scan_cap q p) (length p) (decimal_escape n p line v)
  unfolding decimal_escape
  decimal_escape-Fits zero p line v = ground arith
  decimal_escape-Fits (suc n) [] line v = unfold isdigit in ground arith
  decimal_escape-Fits (suc n) (c ∷ cs) line v = elim (Bool-cases (isdigit c)) [
    | inl d ↦
        let plain : scan_cap q (c ∷ cs) ≡ suc (scan_cap q cs) =
          scan_plain c cs (unfold isdigit in ground arith) (unfold isdigit in ground arith)
            (unfold isdigit in ground arith) in
        rw d (
          Fits-mono q _ _ _ _ _ (omega arith) (omega arith)
            (decimal_escape-Fits n cs line (v * 10 + (c - b'0'))))
    | inr no_digit ↦ rw no_digit (ground arith)
  ]

  pub line_break-Fits :
      (first : ℕ) (p : Bytes) (line : ℕ)
      → Fits q (1 + scan_cap q p) (length p) (line_break first p line)
  unfolding line_break
  line_break-Fits first [] line = ground arith
  line_break-Fits first (c ∷ cs) line = ground (
    arith,
    scan_plain 10 cs (omega arith) (omega arith) (omega arith),
    scan_plain 13 cs (omega arith) (omega arith) (omega arith),
  )

  pub scan_xdigit :
      (c : ℕ) (cs : Bytes) → isxdigit c ≡ true → scan_cap q (c ∷ cs) ≡ suc (scan_cap q cs)
  scan_xdigit c cs h =
      let quote_lt : q < 48 = omega arith in
      let (h0, hq, hb) = xdigit_plain c q h quote_lt in scan_plain c cs h0 hq hb

  pub hex_escape-Fits :
      (p : Bytes) (line : ℕ) → Fits q (1 + scan_cap q p) (length p) (hex_escape p line)
  unfolding hex_escape
  hex_escape-Fits [] line = unfold isxdigit in tt
  hex_escape-Fits (a ∷ []) line = unfold isxdigit in ground arith
  hex_escape-Fits (a ∷ b ∷ rest) line = ground (arith, scan_xdigit a (b ∷ rest), scan_xdigit b rest)
