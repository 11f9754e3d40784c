-- ===== src/Lexer/Utf8/Decoding.antt =====
-- A reader of UTF-8 gets the code point back from what read_string writes for it.
use lua2wasm.Prelude.{
  ℕ, zero, suc, ◌+◌, ◌-◌, ◌*◌, ◌/◌, ◌%◌, ◌^◌, ◌<◌, Bytes, true, ◌&&◌, ltb, leb, if◌then◌else◌, [],
  ◌∷◌, ◌++◌, Option, none, some, ◌≡◌, refl, ◌∙◌, arith, Bool-cases, inl, inr, bit_and, bit_or,
}
use lua2wasm.Prelude.Bits.{bit_and_63, or_80, or_c0, or_e0, or_f0, or_f8, or_fc}
use lua2wasm.Lexer.Utf8.{encode_utf8}

-- `n` continuation bytes, six bits each.
unfoldable pub trail : ℕ → ℕ → Bytes → Option (ℕ × Bytes)
trail zero acc p = some (acc, p)
trail (suc n) acc [] = none
trail (suc n) acc (c ∷ cs) =
    let more = trail n (acc * 64 + (c - 0x80)) cs in if leb 0x80 c && ltb c 0xc0 then more else none

-- UTF-8 of up to six bytes, as its definition has it: the leading byte tells how many follow.
unfoldable pub decode_utf8 : Bytes → Option (ℕ × Bytes)
decode_utf8 [] = none
decode_utf8 (c ∷ cs) =
    if ltb c 0x80
    then some (c, cs)
    else if ltb c 0xc0
    then none
    else if ltb c 0xe0
    then trail 1 (c - 0xc0) cs
    else if ltb c 0xf0
    then trail 2 (c - 0xe0) cs
    else if ltb c 0xf8
    then trail 3 (c - 0xf0) cs
    else if ltb c 0xfc
    then trail 4 (c - 0xf8) cs
    else if ltb c 0xfe
    then trail 5 (c - 0xfc) cs
    else none

trail_step :
    (n a b : ℕ) (rest : Bytes)
    → b ≡ a / 64
    → trail (suc n) b (bit_or 0x80 (bit_and a 0x3f) % 256 ∷ rest) ≡ trail n a rest
unfolding trail
trail_step n a b rest e =
    let low = bit_and_63 a in
    let or = or_80 (a % 64) (omega arith) in
    let byte : bit_or 0x80 (bit_and a 0x3f) % 256 ≡ 0x80 + a % 64 = rw (low, or) (omega arith) in
    let in_range : (leb 0x80 (0x80 + a % 64) && ltb (0x80 + a % 64) 0xc0) ≡ true = ground arith in
    let sum : b * 64 + (0x80 + a % 64 - 0x80) ≡ a = omega arith in
    rw byte (rw in_range (rw sum refl))

-- A leading byte, by the number of bytes that follow.
lead_1 : (x : ℕ) (cs : Bytes) → x < 32 → decode_utf8 (bit_or 0xc0 x % 256 ∷ cs) ≡ trail 1 x cs
unfolding decode_utf8
lead_1 x cs h =
    let or = or_c0 x h in
    let byte : bit_or 0xc0 x % 256 ≡ 0xc0 + x = rw or (omega arith) in
    let back : 0xc0 + x - 0xc0 ≡ x = omega arith in rw (byte, back) (ground arith)

lead_2 : (x : ℕ) (cs : Bytes) → x < 16 → decode_utf8 (bit_or 0xe0 x % 256 ∷ cs) ≡ trail 2 x cs
unfolding decode_utf8
lead_2 x cs h =
    let or = or_e0 x h in
    let byte : bit_or 0xe0 x % 256 ≡ 0xe0 + x = rw or (omega arith) in
    let back : 0xe0 + x - 0xe0 ≡ x = omega arith in rw (byte, back) (ground arith)

lead_3 : (x : ℕ) (cs : Bytes) → x < 8 → decode_utf8 (bit_or 0xf0 x % 256 ∷ cs) ≡ trail 3 x cs
unfolding decode_utf8
lead_3 x cs h =
    let or = or_f0 x h in
    let byte : bit_or 0xf0 x % 256 ≡ 0xf0 + x = rw or (omega arith) in
    let back : 0xf0 + x - 0xf0 ≡ x = omega arith in rw (byte, back) (ground arith)

lead_4 : (x : ℕ) (cs : Bytes) → x < 4 → decode_utf8 (bit_or 0xf8 x % 256 ∷ cs) ≡ trail 4 x cs
unfolding decode_utf8
lead_4 x cs h =
    let or = or_f8 x h in
    let byte : bit_or 0xf8 x % 256 ≡ 0xf8 + x = rw or (omega arith) in
    let back : 0xf8 + x - 0xf8 ≡ x = omega arith in rw (byte, back) (ground arith)

lead_5 : (x : ℕ) (cs : Bytes) → x < 2 → decode_utf8 (bit_or 0xfc x % 256 ∷ cs) ≡ trail 5 x cs
unfolding decode_utf8
lead_5 x cs h =
    let or = or_fc x h in
    let byte : bit_or 0xfc x % 256 ≡ 0xfc + x = rw or (omega arith) in
    let back : 0xfc + x - 0xfc ≡ x = omega arith in rw (byte, back) (ground arith)

module _ (cp : ℕ) (rest : Bytes) where
  abbrev tail_at : ℕ → ℕ
  tail_at a = bit_or 0x80 (bit_and a 0x3f) % 256

  trail_1 : trail 1 (cp / 2 ^ 6) (tail_at (cp / 2 ^ 0) ∷ rest) ≡ some (cp, rest)
  trail_1 =
      let whole : cp / 2 ^ 0 ≡ cp = omega arith in
      trail_step 0 (cp / 2 ^ 0) (cp / 2 ^ 6) rest (omega arith) ∙ unfold trail in rw whole refl

  trail_2 :
      trail 2 (cp / 2 ^ 12) (tail_at (cp / 2 ^ 6) ∷ tail_at (cp / 2 ^ 0) ∷ rest) ≡ some (cp, rest)
  trail_2 = trail_step 1 (cp / 2 ^ 6) (cp / 2 ^ 12) _ (omega arith) ∙ trail_1

  trail_3 :
      trail 3
        (cp / 2 ^ 18)
        (tail_at (cp / 2 ^ 12) ∷ tail_at (cp / 2 ^ 6) ∷ tail_at (cp / 2 ^ 0) ∷ rest)
      ≡ some (cp, rest)
  trail_3 = trail_step 2 (cp / 2 ^ 12) (cp / 2 ^ 18) _ (omega arith) ∙ trail_2

  trail_4 :
      trail 4 (cp / 2 ^ 24) (
        tail_at (cp / 2 ^ 18)
        ∷ tail_at (cp / 2 ^ 12)
        ∷ tail_at (cp / 2 ^ 6)
        ∷ tail_at (cp / 2 ^ 0)
        ∷ rest)
      ≡ some (cp, rest)
  trail_4 = trail_step 3 (cp / 2 ^ 18) (cp / 2 ^ 24) _ (omega arith) ∙ trail_3

  trail_5 :
      trail 5 (cp / 2 ^ 30) (
        tail_at (cp / 2 ^ 24)
        ∷ tail_at (cp / 2 ^ 18)
        ∷ tail_at (cp / 2 ^ 12)
        ∷ tail_at (cp / 2 ^ 6)
        ∷ tail_at (cp / 2 ^ 0)
        ∷ rest)
      ≡ some (cp, rest)
  trail_5 = trail_step 4 (cp / 2 ^ 24) (cp / 2 ^ 30) _ (omega arith) ∙ trail_4

-- The text that is written for a code point below 2^31, with whatever follows, is decoded to the
-- code point and what follows.
pub decode_utf8-encode_utf8 :
    (cp : ℕ) (rest : Bytes) → cp < 2 ^ 31 → decode_utf8 (encode_utf8 cp ++ rest) ≡ some (cp, rest)
unfolding encode_utf8
decode_utf8-encode_utf8 cp rest h = elim (Bool-cases (ltb cp 0x80)) [
  | inl e ↦
      let exact : cp % 256 ≡ cp = ground arith in rw (e, exact) (unfold decode_utf8 in rw e refl)
  | inr e ↦ rw e (elim (Bool-cases (ltb cp 0x800)) [
    | inl f ↦ rw f (lead_1 (cp / 2 ^ 6) _ (ground arith) ∙ trail_1 cp rest)
    | inr f ↦ rw f (elim (Bool-cases (ltb cp 0x10000)) [
      | inl g ↦ rw g (lead_2 (cp / 2 ^ 12) _ (ground arith) ∙ trail_2 cp rest)
      | inr g ↦ rw g (elim (Bool-cases (ltb cp 0x200000)) [
        | inl k ↦ rw k (lead_3 (cp / 2 ^ 18) _ (ground arith) ∙ trail_3 cp rest)
        | inr k ↦ rw k (elim (Bool-cases (ltb cp 0x4000000)) [
          | inl l ↦ rw l (lead_4 (cp / 2 ^ 24) _ (ground arith) ∙ trail_4 cp rest)
          | inr l ↦ rw l (lead_5 (cp / 2 ^ 30) _ (omega arith) ∙ trail_5 cp rest)
        ])
      ])
    ])
  ])
]
