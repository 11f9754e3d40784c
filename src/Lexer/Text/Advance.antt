-- ===== src/Lexer/Text/Advance.antt =====
-- The cursor of read_string moves forward only, and so does the line.
use lua2wasm.Prelude.{
  ℕ, zero, suc, ◌+◌, ◌-◌, ◌*◌, ◌%◌, ◌^◌, ◌≤◌, Bytes, length, Bool, true, false, ◌||◌, ◌==◌, leb,
  if◌then◌else◌, [], ◌∷◌, ◌++◌, bit_or, arith, Bool-cases, inl, inr,
}
use lua2wasm.Freestanding.Ctype.{isspace}
use lua2wasm.Freestanding.Mem.{peek, next}
use lua2wasm.Lexer.Cursor.{Tail, Tail-refl, Tail-trans, drop-Tail, next-Tail}
use lua2wasm.Lexer.Text.{
  Round, wrote, failed, skip_space, line_break, unicode_digits, unicode_escape, hex_escape,
  decimal_escape, long_escape, escape, round, Outcome, decoded, refused, overrun, stuck, scan_cap,
  decode, read_string, hex_val,
}

-- Where a round leaves the cursor and the line.
abbrev Ahead : Bytes → ℕ → Round → Type 0
Ahead p line (wrote p' l bs) = Tail p' p × (line ≤ l)
Ahead p line (failed p' l m) = Unit

Ahead-trans :
    {p' p : Bytes} {l' l : ℕ} (r : Round) → Tail p' p → l ≤ l' → Ahead p' l' r → Ahead p l r
Ahead-trans (wrote q k bs) t h (t', h') = (Tail-trans t' t, omega arith)
Ahead-trans (failed q k m) t h a = tt

skip_space-Ahead : (p : Bytes) (line : ℕ) (out : Bytes) → Ahead p line (skip_space p line out)
unfolding skip_space
skip_space-Ahead [] line out = (Tail-refl [], omega arith)
skip_space-Ahead (c ∷ cs) line out =
    let l = if c == 10 then line + 1 else line in
    elim (Bool-cases (isspace c)) [
      | inl e ↦ rw e (
          Ahead-trans (skip_space cs l out) (next-Tail (c ∷ cs)) (ground arith)
            (skip_space-Ahead cs l out))
      | inr e ↦ rw e (Tail-refl (c ∷ cs), omega arith)
    ]

line_break-Ahead : (first : ℕ) (p : Bytes) (line : ℕ) → Ahead p line (line_break first p line)
unfolding line_break
line_break-Ahead first p line = ground (arith, next-Tail p, Tail-refl p)

unicode_digits-Ahead :
    (m : ℕ) (p : Bytes) (line cp : ℕ) (seen : Bool) → Ahead p line (unicode_digits m p line cp seen)
unfolding unicode_digits
unicode_digits-Ahead m [] line cp seen = tt
unicode_digits-Ahead m (c ∷ cs) line cp seen =
    let cp' = bit_or (cp * 16 % m) (hex_val c) in
    let rest =
      Ahead-trans {l = line} (unicode_digits m cs line cp' true) (next-Tail (c ∷ cs)) (omega arith)
        (unicode_digits-Ahead m cs line cp' true) in
    ground (arith, rest, next-Tail (c ∷ cs))

decimal_escape-Ahead : (n : ℕ) (p : Bytes) (line v : ℕ) → Ahead p line (decimal_escape n p line v)
unfolding decimal_escape
decimal_escape-Ahead zero p line v = ground (arith, Tail-refl p)
decimal_escape-Ahead (suc n) p line v =
    let v' = v * 10 + (peek p - b'0') in
    let rest =
      Ahead-trans {l = line} (decimal_escape n (next p) line v') (next-Tail p) (omega arith)
        (decimal_escape-Ahead n (next p) line v') in
    ground (arith, rest, Tail-refl p)

hex_escape-Ahead : (p : Bytes) (line : ℕ) → Ahead p line (hex_escape p line)
unfolding hex_escape
hex_escape-Ahead p line = ground (arith, drop-Tail 2 p)

unicode_escape-Ahead : (m : ℕ) (p : Bytes) (line : ℕ) → Ahead p line (unicode_escape m p line)
unfolding unicode_escape
unicode_escape-Ahead m p line = ground (
  arith,
  Ahead-trans {l = line} (unicode_digits m (next p) line 0 false) (next-Tail p) (omega arith)
      (unicode_digits-Ahead m (next p) line 0 false),
)

long_escape-Ahead : (m : ℕ) (p : Bytes) (line : ℕ) → Ahead p line (long_escape m p line)
unfolding long_escape
long_escape-Ahead m p line =
    let up = λ (r : Round) (a : Ahead (next p) line r).
      Ahead-trans {l = line} r (next-Tail p) (omega arith) a in
    ground (
      arith,
      up _ (hex_escape-Ahead (next p) line),
      up _ (skip_space-Ahead (next p) line []),
      up _ (line_break-Ahead (peek p) (next p) line),
      up _ (unicode_escape-Ahead m (next p) line),
      decimal_escape-Ahead 3 p line 0,
    )

escape-Ahead : (m : ℕ) (p : Bytes) (line : ℕ) → Ahead p line (escape m p line)
unfolding escape
escape-Ahead m p line = ground (arith, long_escape-Ahead m p line, next-Tail p)

round-Ahead : (m c : ℕ) (cs : Bytes) (line : ℕ) → Ahead cs line (round m (c ∷ cs) line)
unfolding round
round-Ahead m c cs line = ground (arith, escape-Ahead m cs line, Tail-refl cs)

abbrev pub OutcomeAhead : Bytes → ℕ → Outcome → Type 0
OutcomeAhead p line (decoded p' l out) = Tail p' p × (line ≤ l)
OutcomeAhead p line (refused p' l m) = Unit
OutcomeAhead p line overrun = Unit
OutcomeAhead p line stuck = Unit

-- How the loop goes on behind a round that left the cursor at `cs` or behind it.
join :
    (c : ℕ) (cs : Bytes) {p : Bytes} {line l : ℕ} (o : Outcome)
    → Tail p cs
    → line ≤ l
    → OutcomeAhead p l o
    → OutcomeAhead (c ∷ cs) line o
join c cs (decoded p' l' bs) t h (u, k) =
    (Tail-trans u (Tail-trans t (next-Tail (c ∷ cs))), omega arith)
join c cs (refused p' l' why) t h a = tt
join c cs overrun t h a = tt
join c cs stuck t h a = tt

after :
    (m q cap fuel c : ℕ) (cs : Bytes) (line : ℕ) (out : Bytes) (r : Round)
    → Ahead cs line r
    → ((p : Bytes) (l : ℕ) (bs : Bytes) → OutcomeAhead p l (decode m q cap fuel p l bs))
    → OutcomeAhead (c ∷ cs) line (elim r [
      | failed p' l why ↦ refused p' l why
      | wrote p' l bs ↦ elim (leb (length out + length bs) cap) [
        | true ↦ decode m q cap fuel p' l (out ++ bs)
        | false ↦ overrun
      ]
    ])
after m q cap fuel c cs line out (failed p' l why) a rec = tt
after m q cap fuel c cs line out (wrote p' l bs) (t, h) rec =
    ground (arith, join c cs (decode m q cap fuel p' l (out ++ bs)) t h (rec p' l (out ++ bs)))

decode-OutcomeAhead :
    (m q cap fuel : ℕ) (p : Bytes) (line : ℕ) (out : Bytes)
    → OutcomeAhead p line (decode m q cap fuel p line out)
unfolding decode
decode-OutcomeAhead m q cap zero p line out = tt
decode-OutcomeAhead m q cap (suc fuel) [] line out = ground (arith, Tail-refl [])
decode-OutcomeAhead m q cap (suc fuel) (c ∷ cs) line out = elim (Bool-cases (c == 0 || c == q)) [
  | inl end ↦ rw end (ground (arith, next-Tail (c ∷ cs)))
  | inr more ↦ rw more (
      after m q cap fuel c cs line out (round m (c ∷ cs) line) (round-Ahead m c cs line)
        (decode-OutcomeAhead m q cap fuel))
]

-- Where read_string leaves the cursor: behind the quote, on no earlier line.
pub read_string-OutcomeAhead :
    (w q : ℕ) (p : Bytes) (line : ℕ) → OutcomeAhead (next p) line (read_string w q p line)
unfolding read_string
read_string-OutcomeAhead w q p line =
    decode-OutcomeAhead (2 ^ w) q (scan_cap q (next p) + 4) (length (next p) + 1) (next p) line []
