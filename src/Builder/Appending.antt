-- ===== src/Builder/Appending.antt =====
-- Every append to the builder adds its text, and leaves room for the NUL.
use lua2wasm.Prelude.{
  ℕ, zero, suc, ◌+◌, ◌-◌, ◌*◌, ◌%◌, ◌≤◌, ◌<◌, Bytes, length, take, length-take, ltb, [], ◌∷◌, ◌++◌,
  Option, some, ◌≡◌, refl, ap, arith, Bool-cases, inl, inr, true,
}
use lua2wasm.Freestanding.Mem.{strlen}
use lua2wasm.Wat.Buf.Valid.{double_cap_lem}
use lua2wasm.Builder.{WatBuilder, ensure, copy_in, wat_append, wat_vappendf}

-- The text and its NUL are within the capacity.
abbrev pub IsTerminated : WatBuilder → Type 0
IsTerminated w = length w.text < w.cap

-- `o` is the builder with `bs` behind its text, and terminated.
pub record Adds (w : WatBuilder) (bs : Bytes) (o : Option WatBuilder) : Type 0 where
  pub new_cap : ℕ
  pub returns : o ≡ some (record { text = w.text ++ bs; cap = new_cap })
  pub terminated : length w.text + length bs < new_cap

record Ensures (w : WatBuilder) (need : ℕ) (o : Option WatBuilder) : Type 0 where
  new_cap : ℕ
  returns : o ≡ some (record { text = w.text; cap = new_cap })
  room : length w.text + need < new_cap

ensure-Ensures :
    (modulus : ℕ) (w : WatBuilder) (need : ℕ)
    → IsTerminated w
    → (length w.text + need + 1) * 2 ≤ modulus
    → Ensures w need (ensure modulus w need)
unfolding ensure
ensure-Ensures modulus w need v s =
    let wanted = length w.text + need + 1 in
    let wrap : wanted % modulus ≡ wanted = grind arith in
    elim (Bool-cases (ltb w.cap wanted)) [
      | inl e ↦
          let (c, r, large, pos) =
            double_cap_lem modulus (wanted + 1) wanted w.cap (omega arith) (omega arith)
              (omega arith) s in
          rw (wrap, e, r) (record { new_cap = c; returns = refl; room = omega arith })
      | inr e ↦ rw (wrap, e) (record { new_cap = w.cap; returns = refl; room = ground arith })
    ]

copy_in-Adds :
    (w : WatBuilder) (bs : Bytes) → length w.text + length bs < w.cap → Adds w bs (copy_in w bs)
unfolding copy_in
copy_in-Adds w bs h =
    let room : ltb (length w.text + length bs) w.cap ≡ true = ground arith in
    rw room (record { new_cap = w.cap; returns = refl; terminated = h })

strlen-le : (s : Bytes) → strlen s ≤ length s
unfolding strlen
strlen-le [] = omega arith
strlen-le (c ∷ cs) = ground (arith, strlen-le cs)

-- An append to a terminated text adds the string up to its NUL, growing the capacity as far as
-- it must, and the text is terminated again; if the new size is at most half of size_t's range.
pub wat_append-Adds :
    (modulus : ℕ) (w : WatBuilder) (s : Bytes)
    → IsTerminated w
    → (length w.text + strlen s + 1) * 2 ≤ modulus
    → Adds w (take (strlen s) s) (wat_append modulus w s)
unfolding wat_append
wat_append-Adds modulus w s v m =
    let e = ensure-Ensures modulus w (strlen s) v m in
    let len = length-take (strlen s) s (strlen-le s) in
    let room = e.room in
    let copied =
      copy_in-Adds (record { text = w.text; cap = e.new_cap }) (take (strlen s) s) (omega arith) in
    rw e.returns (record {
      new_cap = copied.new_cap;
      returns = copied.returns;
      terminated = copied.terminated;
    })

take-enough : (n : ℕ) (bs : Bytes) → length bs ≤ n → take n bs ≡ bs
take-enough zero [] h = refl
take-enough (suc n) [] h = refl
take-enough zero (b ∷ bs) h = absurd (omega arith)
take-enough (suc n) (b ∷ bs) h = ap (◌∷◌ b) (take-enough n bs (omega arith))

-- The second call of vsnprintf prints the whole text that the first one measured: nothing is cut
-- off, if the new size is at most half of size_t's range.
pub wat_vappendf-Adds :
    (modulus : ℕ) (w : WatBuilder) (printed : Bytes)
    → IsTerminated w
    → (length w.text + length printed + 1) * 2 ≤ modulus
    → Adds w printed (wat_vappendf modulus w (some printed))
unfolding wat_vappendf
wat_vappendf-Adds modulus w printed v m =
    let e = ensure-Ensures modulus w (length printed) v m in
    let room = e.room in
    let whole = take-enough (e.new_cap - length w.text - 1) printed (omega arith) in
    let copied = copy_in-Adds (record { text = w.text; cap = e.new_cap }) printed (omega arith) in
    rw (e.returns, whole)
      (record {
        new_cap = copied.new_cap;
        returns = copied.returns;
        terminated = copied.terminated;
      })
