-- ===== src/Lexer/Utf8.antt =====
-- src/lexer.c, read_string: the UTF-8 form of a code point. Values up to 0x7fffffff are encoded,
-- in one to six bytes. `(char)x` is the byte `x % 256`.
pub mod Decoding
use lua2wasm.Prelude.{ℕ, ◌/◌, ◌%◌, ◌^◌, Bytes, [], ◌∷◌, ltb, if◌then◌else◌, bit_and, bit_or}

-- (char)(0x80 | ((cp >> k) & 0x3f))
abbrev continuation : ℕ → ℕ → ℕ
continuation cp k = bit_or 0x80 (bit_and (cp / 2 ^ k) 0x3f) % 256

unfoldable pub encode_utf8 : ℕ → Bytes
encode_utf8 cp =
    if ltb cp 0x80
    then cp % 256 ∷ []
    else if ltb cp 0x800
    then (bit_or 0xc0 (cp / 2 ^ 6) % 256) ∷ continuation cp 0 ∷ []
    else if ltb cp 0x10000
    then (bit_or 0xe0 (cp / 2 ^ 12) % 256) ∷ continuation cp 6 ∷ continuation cp 0 ∷ []
    else if ltb cp 0x200000
    then (bit_or 0xf0 (cp / 2 ^ 18) % 256)
      ∷ continuation cp 12
      ∷ continuation cp 6
      ∷ continuation cp 0
      ∷ []
    else if ltb cp 0x4000000
    then (bit_or 0xf8 (cp / 2 ^ 24) % 256)
      ∷ continuation cp 18
      ∷ continuation cp 12
      ∷ continuation cp 6
      ∷ continuation cp 0
      ∷ []
    else (bit_or 0xfc (cp / 2 ^ 30) % 256)
      ∷ continuation cp 24
      ∷ continuation cp 18
      ∷ continuation cp 12
      ∷ continuation cp 6
      ∷ continuation cp 0
      ∷ []
