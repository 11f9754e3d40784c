-- ===== src/Freestanding/Copy/Strings.antt =====
-- strcpy copies a string with its NUL.
use lua2wasm.Prelude.{
  ℕ, zero, suc, ◌+◌, ◌≤◌, ◌<◌, true, false, ◌==◌, some, ◌≡◌, ◌≢◌, ◌⊎◌, refl, sym, ◌∙◌, arith,
}
use lua2wasm.Freestanding.Copy.{Memory, set_byte, copy_up, copy_string, strcpy}
use lua2wasm.Freestanding.Copy.Overlap.{set_byte-there, from_zero, copied}

-- A byte of the source is as before when the copy comes to it.
source_kept :
    (m : Memory) (d s i left j : ℕ)
    → (d < s) ⊎ (s + i + suc left < d)
    → j ≤ left
    → set_byte m (d + i) (m (s + i)) (s + (i + 1) + j) ≡ m (s + i + suc j)
source_kept m d s i left j apart h =
    let shift : s + (i + 1) + j ≡ s + i + suc j = omega arith in
    rw shift (set_byte-there m (d + i) (m (s + i)) (s + i + suc j) (ground arith))

copy_string-copy_up :
    (m : Memory) (d s i left : ℕ)
    → m (s + i + left) ≡ 0
    → ((j : ℕ) → j < left → m (s + i + j) ≢ 0)
    → (d < s) ⊎ (s + i + left < d)
    → copy_string m d s i (suc left) ≡ some (copy_up m d s i (suc left))
unfolding copy_string copy_up
copy_string-copy_up m d s i zero ends full apart =
    let e : s + i + 0 ≡ s + i = omega arith in
    let z : (m (s + i) == 0) ≡ true = let at = rw e at ends in ground arith in rw z refl
copy_string-copy_up m d s i (suc left) ends full apart =
    let e : s + i + 0 ≡ s + i = omega arith in
    let at_first = full 0 (omega arith) in
    let first : m (s + i) ≢ 0 = rw e at at_first in
    let more : (m (s + i) == 0) ≡ false = ground arith in
    let m' = set_byte m (d + i) (m (s + i)) in
    let same = λ (j : ℕ) (h : j ≤ left). source_kept m d s i left j apart h in
    rw more (
      copy_string-copy_up m' d s (i + 1) left (same left (omega arith) ∙ ends)
        (λ j h z. full (suc j) (omega arith) (sym (same j (omega arith)) ∙ z)) (ground arith))

-- strcpy returns when the fuel passes the NUL at the length `n`: the bytes of the string and its
-- NUL stand at `dst`, and every other address is left alone, if the destination does not begin
-- inside the source.
pub strcpy-copied :
    (m : Memory) (dst src n : ℕ)
    → m (src + n) ≡ 0
    → ((j : ℕ) → j < n → m (src + j) ≢ 0)
    → (dst < src) ⊎ (src + n < dst)
    → (m' : Memory) × (strcpy m dst src (suc n) ≡ some m')
      × ((k : ℕ) → m' k ≡ copied m dst src (suc n) k)
unfolding strcpy
strcpy-copied m dst src n ends full apart =
    let e : src + 0 ≡ src = omega arith in
    (
      copy_up m dst src 0 (suc n),
      copy_string-copy_up m dst src 0 n (rw e ends) (rw e full) (ground arith),
      λ k. from_zero m dst src (suc n) k (ground arith),
    )
