-- ===== src/Wat/Text/Escapes.antt =====
-- The reader of quoted strings ends, and moves the cursor forward.
use lua2wasm.Prelude.{
  ℕ, zero, suc, ◌+◌, ◌*◌, ◌%◌, ◌^◌, ◌<◌, Bytes, length, Bool, true, false, ◌==◌, [], ◌∷◌, ◌++◌,
  arith, Bool-cases, Option-cases, inl, inr,
}
use lua2wasm.Lexer.Cursor.{Tail, Tail-refl, Tail-trans, next-Tail}
use lua2wasm.Wat.Text.{
  Result, done, failed, stuck, and_then, hexval, u_digits, u_escape, byte_escape, escaped,
  string_loop, read_string,
}

-- A result that is a value behind `p`, or a failure, but not a loop left unfinished.
abbrev pub Ends : {A : Type 0} → Bytes → Result A → Type 0
Ends p (done a q) = Tail q p
Ends p (failed why) = Unit
Ends p stuck = ⊥

pub Ends-trans : {A : Type 0} {p q : Bytes} (r : Result A) → Tail q p → Ends q r → Ends p r
Ends-trans (done a q') t e = Tail-trans e t
Ends-trans (failed why) t e = tt
Ends-trans stuck t e = e

pub Ends-and_then :
    {A B : Type 0} {p : Bytes} (r : Result A) (k : A → Bytes → Result B)
    → Ends p r
    → ((a : A) (q : Bytes) → Tail q p → Ends q (k a q))
    → Ends p (and_then r k)
Ends-and_then (done a q) k t f = Ends-trans (k a q) t (f a q t)
Ends-and_then (failed why) k t f = tt
Ends-and_then stuck k t f = t

u_digits-Ends : (p : Bytes) (cp : ℕ) (any : Bool) → Ends p (u_digits p cp any)
unfolding u_digits
u_digits-Ends [] cp any = tt
u_digits-Ends (c ∷ cs) cp any = elim (Bool-cases (c == 125)) [
  | inl e ↦ rw (e, Ends) (ground (arith, next-Tail (c ∷ cs)))
  | inr e ↦
      rw (e, Ends)
        (elim (Option-cases (hexval c)) [
          | inl n ↦ rw n tt
          | inr (h, n) ↦ rw n (
              Ends-trans (u_digits cs ((cp * 16 + h) % 2 ^ 32) true) (next-Tail (c ∷ cs))
                (u_digits-Ends cs ((cp * 16 + h) % 2 ^ 32) true))
        ])
]

u_escape-Ends : (p : Bytes) → Ends p (u_escape p)
unfolding u_escape
u_escape-Ends [] = tt
u_escape-Ends (c ∷ cs) =
    ground (arith, Ends-trans (u_digits cs 0 false) (next-Tail (c ∷ cs)) (u_digits-Ends cs 0 false))

byte_escape-Ends : (h : ℕ) (p : Bytes) → Ends p (byte_escape h p)
unfolding byte_escape
byte_escape-Ends h [] = tt
byte_escape-Ends h (c ∷ cs) = ground (arith, next-Tail (c ∷ cs))

escaped-Ends : (p : Bytes) → Ends p (escaped p)
unfolding escaped
escaped-Ends [] = Tail-refl []
escaped-Ends (e ∷ cs) =
    let up = λ (r : Result Bytes) (a : Ends cs r). Ends-trans r (next-Tail (e ∷ cs)) a in
    elim (Option-cases (hexval e)) [
      | inl n ↦ rw n (ground (arith, up _ (u_escape-Ends cs), next-Tail (e ∷ cs)))
      | inr (h, n) ↦ rw n (
          ground (arith, up _ (u_escape-Ends cs), up _ (byte_escape-Ends h cs), next-Tail (e ∷ cs)))
    ]

string_loop-Ends : (fuel : ℕ) (p out : Bytes) → length p < fuel → Ends p (string_loop fuel p out)
unfolding string_loop
string_loop-Ends zero p out h = absurd (omega arith)
string_loop-Ends (suc fuel) [] out h = tt
string_loop-Ends (suc fuel) (c ∷ cs) out h = elim (Bool-cases (c == 34)) [
  | inl e ↦ rw (e, Ends) (next-Tail (c ∷ cs))
  | inr e ↦
      rw (e, Ends)
        (elim (Bool-cases (c == 92)) [
          | inr f ↦ rw f (
              Ends-trans (string_loop fuel cs (out ++ c ∷ [])) (next-Tail (c ∷ cs))
                (string_loop-Ends fuel cs (out ++ c ∷ []) (omega arith)))
          | inl f ↦ rw f (
              Ends-trans (and_then (escaped cs) (λ bs p. string_loop fuel p (out ++ bs)))
                (next-Tail (c ∷ cs))
                (Ends-and_then (escaped cs) _ (escaped-Ends cs) (λ bs q t.
                  let w = t.within in string_loop-Ends fuel q (out ++ bs) (omega arith))))
        ])
]

-- Behind the opening quote `c`.
pub read_string-Ends : (c : ℕ) (cs : Bytes) → Ends cs (read_string (c ∷ cs))
unfolding read_string
read_string-Ends c cs = string_loop-Ends (length (c ∷ cs) + 1) cs [] (omega arith)
