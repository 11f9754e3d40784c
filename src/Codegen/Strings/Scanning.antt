-- ===== src/Codegen/Strings/Scanning.antt =====
-- The scan finds a run exactly where the pool has one.
use lua2wasm.Prelude.{
  ℕ, zero, suc, ◌+◌, ◌≤◌, ◌<◌, Bytes, length, length-drop, take, drop, equal, equal-eq, equal_refl,
  List, [], ◌∷◌, true, false, ◌==◌, ltb, none, some, ◌≡◌, ◌≢◌, ap, sym, inl, inr, Bool-cases, arith,
}
use mathlib.Core.Path.{subst}
use lua2wasm.Codegen.Strings.{run, scan_loop, strpool_scan}

length-take_le : {A : Type 0} (n : ℕ) (xs : List A) → length (take n xs) ≡ n → n ≤ length xs
length-take_le zero xs e = omega arith
length-take_le (suc n) [] e = omega arith
length-take_le (suc n) (x ∷ xs) e = omega (arith, length-take_le n xs (omega arith))

-- A run that reads as some bytes lies within the pool.
pub run_inside :
    (pool bytes : Bytes) (offset : ℕ)
    → run pool offset (length bytes) ≡ bytes
    → 0 < length bytes
    → offset + length bytes ≤ length pool
run_inside pool bytes offset e h =
    omega (
      arith,
      length-take_le (length bytes) (drop offset pool) (ap length e),
      length-drop offset pool,
    )

-- What a hit of the scan from `i` on means.
pub record FoundAt (s bytes : Bytes) (i k : ℕ) : Type 0 where
  pub at : ℕ
  pub offset : k ≡ i + at
  pub reads : run s at (length bytes) ≡ bytes

pub scan_loop-some :
    (s bytes : Bytes) (i k : ℕ) → scan_loop s i bytes ≡ some k → FoundAt s bytes i k
unfolding scan_loop
scan_loop-some [] bytes i k e = cc
scan_loop-some (c ∷ cs) bytes i k e =
    elim (Bool-cases (equal (take (length bytes) (c ∷ cs)) bytes)) [
      | inl same ↦ record { at = 0; offset = ground arith; reads = equal-eq _ _ same }
      | inr other ↦
          let f = scan_loop-some cs bytes (i + 1) k (rw other at e) in
          record { at = suc f.at; offset = omega (arith, f.offset); reads = f.reads }
    ]

-- A run that is there is found.
pub scan_loop-finds :
    (s bytes : Bytes) (i j : ℕ)
    → run s j (length bytes) ≡ bytes
    → 0 < length bytes
    → scan_loop s i bytes ≢ none
unfolding scan_loop
scan_loop-finds [] bytes i j e h q = omega (arith, run_inside [] bytes j e h)
scan_loop-finds (c ∷ cs) bytes i zero e h q =
    cc (sym (rw (subst (λ b. equal b bytes ≡ true) (sym e) (equal_refl bytes)) at q))
scan_loop-finds (c ∷ cs) bytes i (suc j) e h q =
    elim (Bool-cases (equal (take (length bytes) (c ∷ cs)) bytes)) [
      | inl same ↦ cc (rw same at q)
      | inr other ↦ scan_loop-finds cs bytes (i + 1) j e h (rw other at q)
    ]

pub not_empty : (n : ℕ) → 0 < n → (n == 0) ≡ false
not_empty n h = ground arith

pub strpool_scan-some :
    (pool bytes : Bytes) (k : ℕ)
    → 0 < length bytes
    → strpool_scan pool bytes ≡ some k
    → run pool k (length bytes) ≡ bytes
unfolding strpool_scan
strpool_scan-some pool bytes k h e = elim (Bool-cases (ltb (length pool) (length bytes))) [
  | inl long ↦ cc (rw (not_empty (length bytes) h, long) at e)
  | inr short ↦
      let f = scan_loop-some pool bytes 0 k (rw (not_empty (length bytes) h, short) at e) in
      subst (λ n. run pool n (length bytes) ≡ bytes) (at_start k f.at f.offset) f.reads
]
  where
    at_start : (k n : ℕ) → k ≡ 0 + n → n ≡ k
    at_start k n e = omega arith

pub strpool_scan-finds :
    (pool bytes : Bytes) (k : ℕ)
    → run pool k (length bytes) ≡ bytes
    → 0 < length bytes
    → strpool_scan pool bytes ≢ none
unfolding strpool_scan
strpool_scan-finds pool bytes k e h q =
    let short : ltb (length pool) (length bytes) ≡ false =
      ground (arith, run_inside pool bytes k e h) in
    scan_loop-finds pool bytes 0 k e h (rw (not_empty (length bytes) h, short) at q)
