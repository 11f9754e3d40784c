-- ===== src/Lexer/Cursor.antt =====
-- A cursor into the source is a suffix of it: how far one suffix lies behind another.
use lua2wasm.Prelude.{
  ℕ, zero, suc, ◌+◌, ◌-◌, ◌≤◌, ◌<◌, Bytes, length, drop, [], ◌∷◌, Bool, true, arith, ◌≡◌, refl, ap,
  ◌∙◌, Bool-cases, inl, inr,
}
use lua2wasm.Freestanding.Mem.{next}
use lua2wasm.Lexer.Number.{skip_while}

-- `p'` is what is left of `p` behind its first bytes; how many is told by the lengths.
pub record Tail (p' p : Bytes) : Type 0 where
  pub within : length p' ≤ length p
  pub suffix : p' ≡ drop (length p - length p') p

-- `p'` is behind `p` by one byte at least.
pub record Moved (p' p : Bytes) : Type 0 where
  pub shorter : length p' < length p
  pub suffix : p' ≡ drop (length p - length p') p

-- Dropping any number of bytes.
pub drop-Tail : (n : ℕ) (p : Bytes) → Tail (drop n p) p
drop-Tail zero p =
    let e : length p - length p ≡ 0 = omega arith in record { within = omega arith; suffix = rw e }
drop-Tail (suc n) [] = record { within = omega arith; suffix = refl }
drop-Tail (suc n) (c ∷ cs) =
    let t = drop-Tail n cs in
    let h = t.within in
    let s : suc (length cs) - length (drop n cs) ≡ suc (length cs - length (drop n cs)) =
      omega arith in
    record { within = omega arith; suffix = rw s t.suffix }

pub Tail-refl : (p : Bytes) → Tail p p
Tail-refl p = drop-Tail 0 p

pub Tail-cons : (c : ℕ) {p' p : Bytes} → Tail p' p → Moved p' (c ∷ p)
Tail-cons c {p' = p'} {p = p} t =
    let s : suc (length p) - length p' ≡ suc (length p - length p') = omega arith in
    record { shorter = omega arith; suffix = rw s t.suffix }

pub Tail-of_Moved : {p' p : Bytes} → Moved p' p → Tail p' p
Tail-of_Moved m = record { within = omega arith; suffix = m.suffix }

drop-drop : (n m : ℕ) (p : Bytes) → drop m (drop n p) ≡ drop (n + m) p
drop-drop zero m p = let e : 0 + m ≡ m = omega arith in rw e refl
drop-drop (suc n) zero [] = let e : suc n + 0 ≡ suc n = omega arith in rw e refl
drop-drop (suc n) (suc m) [] = let e : suc n + suc m ≡ suc (n + suc m) = omega arith in rw e refl
drop-drop (suc n) m (c ∷ cs) =
    let e : suc n + m ≡ suc (n + m) = omega arith in rw e (drop-drop n m cs)

pub Tail-trans : {p'' p' p : Bytes} → Tail p'' p' → Tail p' p → Tail p'' p
Tail-trans {p'' = p''} {p' = p'} {p = p} t u =
    let sum : length p - length p' + (length p' - length p'') ≡ length p - length p'' =
      omega arith in
    let two = drop-drop (length p - length p') (length p' - length p'') p in
    record {
      within = omega arith;
      suffix = t.suffix ∙ ap (drop (length p' - length p'')) u.suffix ∙ rw sum at two;
    }

pub next-Tail : (p : Bytes) → Tail (next p) p
next-Tail [] = Tail-refl []
next-Tail (c ∷ cs) = Tail-of_Moved (Tail-cons c (Tail-refl cs))

pub Moved-trans : {p'' p' p : Bytes} → Tail p'' p' → Moved p' p → Moved p'' p
Moved-trans t m = record { shorter = omega arith; suffix = (Tail-trans t (Tail-of_Moved m)).suffix }

pub skip_while-Tail : (test : ℕ → Bool) (p : Bytes) → Tail (skip_while test p) p
unfolding skip_while
skip_while-Tail test [] = Tail-refl []
skip_while-Tail test (c ∷ cs) = elim (Bool-cases (test c)) [
  | inl e ↦ rw e (Tail-of_Moved (Tail-cons c (skip_while-Tail test cs)))
  | inr e ↦ rw e (Tail-refl (c ∷ cs))
]

-- The test holds at the first byte.
pub skip_while-Moved :
    (test : ℕ → Bool) (c : ℕ) (cs : Bytes)
    → test c ≡ true
    → Moved (skip_while test (c ∷ cs)) (c ∷ cs)
unfolding skip_while
skip_while-Moved test c cs e = rw e (Tail-cons c (skip_while-Tail test cs))
