-- ===== src/Wat/Leb/Section.antt =====
-- put_section: the frame of a section of the binary.
use lua2wasm.Prelude.{
  ℕ, ◌+◌, ◌*◌, ◌^◌, ◌≤◌, ◌<◌, Bytes, length, length-append, false, ◌==◌, [], ◌∷◌, ◌++◌, some, ◌≡◌,
  arith,
}
use lua2wasm.Wat.Buf.{Buf, buf_append}
use lua2wasm.Wat.Buf.Valid.{
  IsValid, Appends, Appends-IsValid, Appends-bind, buf_byte-value, buf_bytes-Appends,
}
use lua2wasm.Wat.Leb.{put_section}
use lua2wasm.Wat.Leb.Unsigned.{read_uleb, buf_uleb-read_uleb}

-- A section with no body leaves the module as it was.
pub put_section_empty :
    (modulus id : ℕ) (m body : Buf) → body.bytes ≡ [] → put_section modulus m id body ≡ some m
unfolding put_section
put_section_empty modulus id m body e = rw e

-- A section with a body is appended as its id, the length of the body as unsigned LEB128, and
-- the body: a reader behind the id gets that length and then stands at the body.
pub put_section-framed :
    (modulus id : ℕ) (m body : Buf)
    → IsValid m
    → id < 256
    → 0 < length body.bytes
    → length body.bytes < 2 ^ 64
    → (length m.bytes + length body.bytes + 11) * 2 ≤ modulus
    → (bs : Bytes) × Appends m (id ∷ (bs ++ body.bytes)) (put_section modulus m id body)
      × (read_uleb (bs ++ body.bytes) ≡ some (length body.bytes, body.bytes))
unfolding put_section
put_section-framed modulus id m body valid small pos fits room =
    let a = buf_byte-value modulus m id id valid (omega arith) (omega arith) in
    let n : length (m.bytes ++ id ∷ []) ≡ length m.bytes + 1 =
      omega (arith, length-append m.bytes (id ∷ [])) in
    let (bs, u, ten, back) =
      buf_uleb-read_uleb modulus (length body.bytes) _ body.bytes (Appends-IsValid a) fits
        (omega arith) in
    let k = length-append (m.bytes ++ id ∷ []) bs in
    let c =
      buf_bytes-Appends modulus _ body.bytes (Appends-IsValid u) (omega arith) (omega arith) in
    let some_body : (length body.bytes == 0) ≡ false = ground arith in
    (
      bs,
      rw some_body (
          Appends-bind _ a
            (Appends-bind (λ b'. buf_append modulus b' body) u (unfold buf_append in c))),
      back,
    )
