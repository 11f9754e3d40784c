-- ===== src/Freestanding/Copy/Overlap.antt =====
-- What the copies leave in memory, at every address.
use lua2wasm.Prelude.{
  ℕ, zero, suc, ◌+◌, ◌-◌, ◌≤◌, ◌<◌, true, false, ◌&&◌, ◌||◌, ◌==◌, ltb, leb, if◌then◌else◌, ◌≡◌,
  ◌≢◌, ◌⊎◌, refl, ◌∙◌, arith, Bool-cases, inl, inr,
}
use lua2wasm.Freestanding.Copy.{Memory, set_byte, copy_up, copy_down, memcpy, memmove}

-- The memory `m` with its `n` bytes from `src` on laid over those from `dst` on.
abbrev pub copied : Memory → ℕ → ℕ → ℕ → Memory
copied m dst src n k = if leb dst k && ltb k (dst + n) then m (src + (k - dst)) else m k

set_byte-here : (m : Memory) (at b : ℕ) → set_byte m at b at ≡ b
unfolding set_byte
set_byte-here m at b = ground arith

pub set_byte-there : (m : Memory) (at b k : ℕ) → k ≢ at → set_byte m at b k ≡ m k
unfolding set_byte
set_byte-there m at b k h = ground arith

-- One step upwards, at any address.
step_up :
    (m : Memory) (d s i left k : ℕ)
    → (d < s) ⊎ (s + i + suc left ≤ d)
    → let m' = set_byte m (d + i) (m (s + i)) in
      (if leb (d + (i + 1)) k && ltb k (d + (i + 1) + left) then m' (s + (k - d)) else m' k)
      ≡ (if leb (d + i) k && ltb k (d + i + suc left) then m (s + (k - d)) else m k)
step_up m d s i left k apart = elim (Bool-cases (k == d + i)) [
  | inl e ↦
      let here : k ≡ d + i = ground arith in
      let offset : d + i - d ≡ i = omega arith in
      let above : leb (d + (i + 1)) (d + i) ≡ false = ground arith in
      let from : leb (d + i) (d + i) ≡ true = ground arith in
      let to : ltb (d + i) (d + i + suc left) ≡ true = ground arith in
      rw here (rw (above, from, to, offset) (set_byte-here m (d + i) (m (s + i))))
  | inr e ↦
      let there = set_byte-there m (d + i) (m (s + i)) k (ground arith) in
      elim (Bool-cases (leb (d + (i + 1)) k && ltb k (d + (i + 1) + left))) [
        | inl f ↦
            let source = set_byte-there m (d + i) (m (s + i)) (s + (k - d)) (ground arith) in
            let g : (leb (d + i) k && ltb k (d + i + suc left)) ≡ true = ground arith in
            rw (f, g) source
        | inr f ↦
            let g : (leb (d + i) k && ltb k (d + i + suc left)) ≡ false = ground arith in
            rw (f, g) there
      ]
]

copy_up-copied :
    (m : Memory) (d s i left k : ℕ)
    → (d < s) ⊎ (s + i + left ≤ d)
    → copy_up m d s i left k
      ≡ (if leb (d + i) k && ltb k (d + i + left) then m (s + (k - d)) else m k)
unfolding copy_up
copy_up-copied m d s i zero k apart = ground arith
copy_up-copied m d s i (suc left) k apart =
    copy_up-copied (set_byte m (d + i) (m (s + i))) d s (i + 1) left k (ground arith)
    ∙ step_up m d s i left k apart

-- One step downwards.
step_down :
    (m : Memory) (d s i k : ℕ)
    → s < d
    → let m' = set_byte m (d + i) (m (s + i)) in copied m' d s i k ≡ copied m d s (suc i) k
step_down m d s i k apart = elim (Bool-cases (k == d + i)) [
  | inl e ↦
      let here : k ≡ d + i = ground arith in
      let offset : d + i - d ≡ i = omega arith in
      let above : ltb (d + i) (d + i) ≡ false = ground arith in
      let from : leb d (d + i) ≡ true = ground arith in
      let to : ltb (d + i) (d + suc i) ≡ true = ground arith in
      rw here (rw (above, from, to, offset) (set_byte-here m (d + i) (m (s + i))))
  | inr e ↦
      let there = set_byte-there m (d + i) (m (s + i)) k (ground arith) in
      elim (Bool-cases (leb d k && ltb k (d + i))) [
        | inl f ↦
            let source = set_byte-there m (d + i) (m (s + i)) (s + (k - d)) (ground arith) in
            let g : (leb d k && ltb k (d + suc i)) ≡ true = ground arith in rw (f, g) source
        | inr f ↦ let g : (leb d k && ltb k (d + suc i)) ≡ false = ground arith in rw (f, g) there
      ]
]

copy_down-copied : (m : Memory) (d s n k : ℕ) → s < d → copy_down m d s n k ≡ copied m d s n k
unfolding copy_down
copy_down-copied m d s zero k apart = ground arith
copy_down-copied m d s (suc i) k apart =
    copy_down-copied (set_byte m (d + i) (m (s + i))) d s i k apart ∙ step_down m d s i k apart

pub from_zero :
    (m : Memory) (d s n k : ℕ) → (d < s) ⊎ (s + n ≤ d) → copy_up m d s 0 n k ≡ copied m d s n k
from_zero m d s n k apart =
    let zero_first : d + 0 ≡ d = omega arith in
    let up = copy_up-copied m d s 0 n k (ground arith) in rw zero_first at up

-- memcpy lays the bytes from `src` on over those from `dst` on, and leaves every other address
-- alone, if the two ranges do not overlap, or the destination begins before the source.
pub memcpy-copied :
    (m : Memory) (dst src n k : ℕ)
    → (dst < src) ⊎ (src + n ≤ dst)
    → memcpy m dst src n k ≡ copied m dst src n k
unfolding memcpy
memcpy-copied m dst src n k apart = from_zero m dst src n k apart

nothing_moves :
    (m : Memory) (dst src n k : ℕ) → (dst == src || n == 0) ≡ true → m k ≡ copied m dst src n k
nothing_moves m dst src n k e = elim (Bool-cases (leb dst k && ltb k (dst + n))) [
  | inl f ↦ let same : src + (k - dst) ≡ k = ground arith in rw (f, same) refl
  | inr f ↦ rw f refl
]

-- memmove lays the bytes that stood from `src` on over those from `dst` on, however the two
-- ranges overlap, and leaves every other address alone.
pub memmove-copied : (m : Memory) (dst src n k : ℕ) → memmove m dst src n k ≡ copied m dst src n k
unfolding memmove
memmove-copied m dst src n k = elim (Bool-cases (dst == src || n == 0)) [
  | inl e ↦ rw e (nothing_moves m dst src n k e)
  | inr e ↦ rw e (elim (Bool-cases (ltb dst src)) [
    | inl f ↦ rw f (from_zero m dst src n k (ground arith))
    | inr f ↦ rw f (copy_down-copied m dst src n k (ground arith))
  ])
]
