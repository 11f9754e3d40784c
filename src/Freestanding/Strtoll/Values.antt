-- ===== src/Freestanding/Strtoll/Values.antt =====
-- The number that strtoll returns: the exact value of the digits, or the clamped one.
use lua2wasm.Prelude.{
  ℕ, ◌+◌, ◌-◌, ◌*◌, ◌/◌, ◌%◌, ◌^◌, ◌≤◌, ◌<◌, Bytes, Bool, true, false, ◌&&◌, ◌||◌, ◌==◌, ltb, leb,
  if◌then◌else◌, [], ◌∷◌, not, ◌≡◌, refl, arith, Bool-cases, inl, inr,
}
use lua2wasm.Freestanding.Mem.{peek, next}
use lua2wasm.Freestanding.Strtoll.{
  digit_val, Digits, digits_loop, finish, unsigned_part, skip_blank, strtoll, llong_max, llong_min,
}

-- The value of the digits that `p` begins with, read on from `acc`, with no bound.
unfoldable pub prefix_value : ℕ → ℕ → Bytes → ℕ
prefix_value base acc [] = acc
prefix_value base acc (c ∷ cs) =
    let more = prefix_value base (acc * base + digit_val c) cs in
    if leb base (digit_val c) then acc else more

prefix_value-ge : (base : ℕ) (p : Bytes) (acc : ℕ) → 0 < base → acc ≤ prefix_value base acc p
unfolding prefix_value
prefix_value-ge base [] acc h = omega arith
prefix_value-ge base (c ∷ cs) acc h =
    grind (arith, prefix_value-ge base cs (acc * base + digit_val c) h)

digits_loop-over :
    (base lim limd : ℕ) (p : Bytes) (acc : ℕ) (any : Bool)
    → (digits_loop base lim limd p acc any true).over ≡ true
unfolding digits_loop
digits_loop-over base lim limd [] acc any = refl
digits_loop-over base lim limd (c ∷ cs) acc any =
    ground (arith, digits_loop-over base lim limd cs acc true)

mul_mono : (w m h : ℕ) → w ≤ m → w * h ≤ m * h
mul_mono w m h p = grind arith

-- The loop computes the exact value up to the limit, and reports everything above it.
module _ (base lim limd : ℕ) (base_pos : 0 < base) (digit : limd < base)
    (fits : lim * base + limd < 2 ^ 64) where
  -- The test before a digit is taken in says whether the limit would be passed.
  clamp_lem :
      (acc d : ℕ)
      → d < base
      → (ltb lim acc || acc == lim && ltb limd d) ≡ not (leb (acc * base + d) (lim * base + limd))
  clamp_lem acc d h = elim (Bool-cases (ltb lim acc)) [
    | inl above ↦ let m = mul_mono (lim + 1) acc base (ground arith) in ground arith
    | inr not_above ↦ elim (Bool-cases (acc == lim)) [
      | inl same ↦ let e : acc ≡ lim = ground arith in rw e (ground arith)
      | inr differs ↦ let m = mul_mono (acc + 1) lim base (ground arith) in ground arith
    ]
  ]

  abbrev Exact : ℕ → Digits → Type 0
  Exact v r =
      (leb v (lim * base + limd) ≡ true → (r.over ≡ false) × (r.acc ≡ v))
      × (leb v (lim * base + limd) ≡ false → r.over ≡ true)

  digits_loop-Exact :
      (p : Bytes) (acc : ℕ) (any : Bool)
      → acc ≤ lim * base + limd
      → Exact (prefix_value base acc p) (digits_loop base lim limd p acc any false)
  unfolding prefix_value digits_loop
  digits_loop-Exact [] acc any h = ground arith
  digits_loop-Exact (c ∷ cs) acc any h = elim (Bool-cases (leb base (digit_val c))) [
    | inl end ↦ rw end (ground arith)
    | inr digit_next ↦
        let below : digit_val c < base = ground arith in
        let clamp = clamp_lem acc (digit_val c) below in
        let ge = prefix_value-ge base cs (acc * base + digit_val c) base_pos in
        elim (Bool-cases (leb (acc * base + digit_val c) (lim * base + limd))) [
          | inl small ↦
              let exact : (acc * base + digit_val c) % 2 ^ 64 ≡ acc * base + digit_val c =
                ground arith in
              rw (digit_next, clamp, small, exact)
                (digits_loop-Exact cs (acc * base + digit_val c) true (ground arith))
          | inr large ↦
              rw (digit_next, clamp, large)
                (λ e. absurd (ground arith), λ e. digits_loop-over base lim limd cs acc true)
        ]
  ]

-- The sign as a test, and the limit that it sets.
abbrev cutoff : Bool → ℕ
cutoff neg = if neg then llong_min else llong_max

-- What strtoll returns for the value `v` of the digits: the two's complement pattern of ±v, or
-- the clamped limit with ERANGE.
abbrev pub signed_value : Bool → ℕ → ℕ
signed_value neg v =
    if leb v (cutoff neg) then (if neg then (2 ^ 64 - v) % 2 ^ 64 else v) else cutoff neg

finish_lem :
    (neg : Bool) (s : Bytes) (v : ℕ) (r : Digits)
    → (leb v (cutoff neg) ≡ true → (r.over ≡ false) × (r.acc ≡ v))
    → (leb v (cutoff neg) ≡ false → r.over ≡ true)
    → ((finish neg s r).value ≡ signed_value neg v)
      × ((finish neg s r).overflow ≡ not (leb v (cutoff neg)))
unfolding finish
finish_lem neg s v r small large = elim (Bool-cases (leb v (cutoff neg))) [
  | inl e ↦ let (o, a) = small e in rw (e, o, a) (refl, refl)
  | inr e ↦ let o = large e in rw (e, o) (refl, refl)
]

unsigned_part_lem :
    (s : Bytes) (neg : Bool) (p : Bytes)
    → ((unsigned_part s neg 10 p).value ≡ signed_value neg (prefix_value 10 0 p))
      × ((unsigned_part s neg 10 p).overflow ≡ not (leb (prefix_value 10 0 p) (cutoff neg)))
unfolding unsigned_part
unsigned_part_lem s true p =
    let r =
      digits_loop-Exact 10 (llong_min / 10) (llong_min % 10) (omega arith) (omega arith)
        (omega arith) p 0 false (omega arith) in
    finish_lem true s _ _ r.0 r.1
unsigned_part_lem s false p =
    let r =
      digits_loop-Exact 10 (llong_max / 10) (llong_max % 10) (omega arith) (omega arith)
        (omega arith) p 0 false (omega arith) in
    finish_lem false s _ _ r.0 r.1

-- The text behind the blanks and the sign, and whether the sign is a minus.
unfoldable pub sign_of : Bytes → Bool
sign_of p = peek p == b'-'

unfoldable pub behind_sign : Bytes → Bytes
behind_sign p = if peek p == b'+' || peek p == b'-' then next p else p

-- In base 10, on any text: with v the unbounded value of the digits behind the blanks and the
-- sign, the result is the 64-bit pattern of v, or of -v behind a minus, if it is in the range of
-- a long long, and else the end of the range, with ERANGE exactly then.
pub strtoll_decimal :
    (s : Bytes)
    → let p = skip_blank s in
      let v = prefix_value 10 0 (behind_sign p) in
      ((strtoll s 10).value ≡ signed_value (sign_of p) v)
      × ((strtoll s 10).overflow ≡ not (leb v (cutoff (sign_of p))))
unfolding strtoll behind_sign sign_of
strtoll_decimal s =
    let p = skip_blank s in
    elim (Bool-cases (peek p == b'+' || peek p == b'-')) [
      | inl sign ↦ rw sign (unsigned_part_lem s (peek p == b'-') (next p))
      | inr none ↦
          let plus : (peek p == b'-') ≡ false = ground arith in
          rw (none, plus) (unsigned_part_lem s false p)
    ]
