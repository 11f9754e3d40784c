-- ===== src/Freestanding/Fmt/Sink.antt =====
-- The sink keeps the front of all that was put, and counts all of it.
use lua2wasm.Prelude.{
  ℕ, zero, suc, ◌+◌, ◌-◌, ◌≤◌, ◌<◌, Bytes, length, length-append, take, replicate, length-replicate,
  ltb, if◌then◌else◌, [], ◌∷◌, ◌++◌, ◌≡◌, refl, arith, append-nil, append_assoc, ap, inl, inr,
  Bool-cases,
}
use lua2wasm.Freestanding.Fmt.{Out, put, put_mem, put_pad, Flags, emit_field}

-- `a` is the whole output so far: the buffer holds as much of it as fits.
pub record Holds (a : Bytes) (o : Out) : Type 0 where
  pub stored : o.buf ≡ take o.cap a
  pub counted : o.n ≡ length a

take_more : (n : ℕ) (a : Bytes) (c : ℕ) → length a < n → take n (a ++ c ∷ []) ≡ take n a ++ c ∷ []
take_more zero a c h = elim h [ ]
take_more (suc zero) [] c h = refl
take_more (suc (suc n)) [] c h = refl
take_more (suc n) (x ∷ xs) c h = ap (◌∷◌ x) (take_more n xs c (omega arith))

take_full : (n : ℕ) (a : Bytes) (c : ℕ) → n ≤ length a → take n (a ++ c ∷ []) ≡ take n a
take_full zero a c h = refl
take_full (suc n) [] c h = elim h [ ]
take_full (suc n) (x ∷ xs) c h = ap (◌∷◌ x) (take_full n xs c (omega arith))

put-Holds : (a : Bytes) (o : Out) (c : ℕ) → Holds a o → Holds (a ++ c ∷ []) (put o c)
unfolding put
put-Holds a o c h =
    let n = length-append a (c ∷ []) in
    elim (Bool-cases (ltb o.n o.cap)) [
      | inl e ↦
          let t = take_more o.cap a c (ground arith) in
          rw e (record { stored = rw (h.stored, t); counted = omega (arith, h.counted) })
      | inr e ↦
          let t = take_full o.cap a c (ground arith) in
          rw e (record { stored = rw t h.stored; counted = omega (arith, h.counted) })
    ]

pub put_mem-Holds : (s a : Bytes) (o : Out) → Holds a o → Holds (a ++ s) (put_mem o s)
unfolding put_mem
put_mem-Holds [] a o h = rw append-nil h
put_mem-Holds (c ∷ cs) a o h =
    rw append_assoc at (put_mem-Holds cs (a ++ c ∷ []) (put o c) (put-Holds a o c h))

pub put_pad-Holds :
    (n c : ℕ) (a : Bytes) (o : Out) → Holds a o → Holds (a ++ replicate n c) (put_pad o c n)
unfolding put_pad
put_pad-Holds zero c a o h = rw append-nil h
put_pad-Holds (suc n) c a o h =
    rw append_assoc at (put_pad-Holds n c (a ++ c ∷ []) (put o c) (put-Holds a o c h))

-- The layout of a field: the body behind its prefix, filled up to the width with spaces on
-- either side, or with zeros between the two.
abbrev pub field : Bytes → Bytes → ℕ → Flags → Bytes
field prefix body width flags =
    let pad = width - (length prefix + length body) in
    if flags.minus
    then prefix ++ body ++ replicate pad b' '
    else if flags.zero_pad
    then prefix ++ replicate pad b'0' ++ body
    else replicate pad b' ' ++ prefix ++ body

pad_lem : (total width : ℕ) → (if ltb total width then width - total else 0) ≡ width - total
pad_lem total width = ground arith

pub length-field :
    (prefix body : Bytes) (width : ℕ) (flags : Flags)
    → length (field prefix body width flags)
      ≡ length prefix + length body + (width - (length prefix + length body))
length-field prefix body width flags =
    let pad = width - (length prefix + length body) in
    let sp = length-replicate {A = ℕ} pad b' ' in
    let zp = length-replicate {A = ℕ} pad b'0' in
    ground (
      arith,
      length-append (prefix ++ body) (replicate pad b' '),
      length-append (prefix ++ replicate pad b'0') body,
      length-append prefix (replicate pad b'0'),
      length-append (replicate pad b' ' ++ prefix) body,
      length-append (replicate pad b' ') prefix,
      length-append prefix body,
    )

-- emit_field puts its layout behind the output, cut at the capacity and counted in full, and
-- the layout is as long as the width, or as the prefix and the body if they are longer.
pub emit_field-Holds :
    (a : Bytes) (o : Out) (prefix body : Bytes) (width : ℕ) (flags : Flags)
    → Holds a o
    → Holds (a ++ field prefix body width flags) (emit_field o prefix body width flags)
      × (length (field prefix body width flags)
          ≡ length prefix + length body + (width - (length prefix + length body)))
unfolding emit_field
emit_field-Holds a o prefix body width flags h =
    let pad = width - (length prefix + length body) in
    let p = pad_lem (length prefix + length body) width in
    (
      elim (Bool-cases flags.minus) [
        | inl e ↦
            rw (e, p, ← append_assoc, ← append_assoc)
              (put_pad-Holds pad b' ' _ _ (put_mem-Holds body _ _ (put_mem-Holds prefix a o h)))
        | inr e ↦ elim (Bool-cases flags.zero_pad) [
          | inl z ↦
              rw (e, z, p, ← append_assoc, ← append_assoc)
                (put_mem-Holds body _ _ (put_pad-Holds pad b'0' _ _ (put_mem-Holds prefix a o h)))
          | inr z ↦
              rw (e, z, p, ← append_assoc, ← append_assoc)
                (put_mem-Holds body _ _ (put_mem-Holds prefix _ _ (put_pad-Holds pad b' ' a o h)))
        ]
      ],
      length-field prefix body width flags,
    )
