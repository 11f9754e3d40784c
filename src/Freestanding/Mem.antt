-- ===== src/Freestanding/Mem.antt =====
-- src/freestanding/baselib.c, the memory and string primitives. A pointer into a string is the
-- list of the bytes from it on; a read past the end of the list is the terminating NUL.
use lua2wasm.Prelude.{
  ℕ, zero, suc, ◌≤◌, Bytes, length, take, arith, ◌≡◌, ◌↔◌, refl, Bool, true, false, ◌==◌,
  if◌then◌else◌, [], ◌∷◌, ℤ, pos, negsuc, sub_ℕ, not,
}

-- *p, and p + 1
abbrev pub peek : Bytes → ℕ
peek [] = 0
peek (c ∷ cs) = c

abbrev pub next : Bytes → Bytes
next [] = []
next (c ∷ cs) = cs

-- p[1], p[2]
abbrev pub peek1 : Bytes → ℕ
peek1 p = peek (next p)

abbrev pub peek2 : Bytes → ℕ
peek2 p = peek (next (next p))

abbrev pub is_zero : ℤ → Bool
is_zero (pos n) = n == 0
is_zero (negsuc n) = false

unfoldable pub memcmp : Bytes → Bytes → ℕ → ℤ
memcmp a b zero = pos 0
memcmp a b (suc n) =
    let rest = memcmp (next a) (next b) n in
    if not (peek a == peek b) then sub_ℕ (peek a) (peek b) else rest

unfoldable pub strlen : Bytes → ℕ
strlen [] = 0
strlen (c ∷ cs) = if c == 0 then 0 else suc (strlen cs)

unfoldable pub strcmp : Bytes → Bytes → ℤ
strcmp [] b = sub_ℕ 0 (peek b)
strcmp (c ∷ cs) b =
    let rest = strcmp cs (next b) in
    if not (c == 0) then (if c == peek b then rest else sub_ℕ c (peek b)) else sub_ℕ c (peek b)

unfoldable pub strncmp : Bytes → Bytes → ℕ → ℤ
strncmp a b zero = pos 0
strncmp a b (suc n) =
    let rest = strncmp (next a) (next b) n in
    if not (peek a == peek b) then sub_ℕ (peek a) (peek b) else if peek a == 0 then pos 0 else rest

-- memcmp returns 0 exactly when the first `n` bytes of both agree, on memory that holds them.
pub memcmp-zero :
    (n : ℕ) (a b : Bytes)
    → n ≤ length a
    → n ≤ length b
    → (is_zero (memcmp a b n) ≡ true) ↔ (take n a ≡ take n b)
unfolding memcmp
memcmp-zero zero a b ha hb = (λ _. refl, λ _. refl)
memcmp-zero (suc n) [] b ha hb = absurd (omega arith)
memcmp-zero (suc n) (x ∷ xs) [] ha hb = absurd (omega arith)
memcmp-zero (suc n) (x ∷ xs) (y ∷ ys) ha hb =
    let ih = memcmp-zero n xs ys (omega arith) (omega arith) in
    (λ h. ground (arith, ih.0), λ h. ground (arith, ih.1))

-- memcmp does not look past its count.
pub memcmp-take : (n : ℕ) (a b : Bytes) → memcmp a (take n b) n ≡ memcmp a b n
unfolding memcmp
memcmp-take zero a b = refl
memcmp-take (suc n) a [] = refl
memcmp-take (suc n) a (y ∷ ys) = rw (memcmp-take n (next a) ys)
