-- ===== src/Codegen/Strings/Probing.antt =====
-- The probing of the index ends while a slot is free.
use lua2wasm.Prelude.{
  ℕ, zero, suc, ◌+◌, ◌%◌, ◌≤◌, ◌<◌, length, replicate, get_or, set, List, [], ◌∷◌, Bool, true,
  false, if◌then◌else◌, Option, none, some, ◌≡◌, ◌≢◌, refl, ap, ◌∙◌, ◌⊎◌, inl, inr, arith,
}
use native.Mathlib.Nat.{mod-eq_of_lt, mod-lt, mod_self}
use lua2wasm.Codegen.Strings.{StrIdxSlot, Probe, found, free, probe_slot, probe}

-- The occupied slots.
unfoldable pub used_count : List (Option StrIdxSlot) → ℕ
used_count [] = 0
used_count (none ∷ idx) = used_count idx
used_count (some s ∷ idx) = suc (used_count idx)

pub used_count-free : (n : ℕ) → used_count (replicate n none) ≡ 0
unfolding used_count
used_count-free zero = refl
used_count-free (suc n) = used_count-free n

pub length-set : {A : Type 0} (xs : List A) (i : ℕ) (v : A) → length (set xs i v) ≡ length xs
length-set [] i v = refl
length-set (x ∷ xs) zero v = refl
length-set (x ∷ xs) (suc i) v = ap suc (length-set xs i v)

pub used_count-set :
    (idx : List (Option StrIdxSlot)) (i : ℕ) (s : StrIdxSlot)
    → i < length idx
    → get_or idx i none ≡ none
    → used_count (set idx i (some s)) ≡ suc (used_count idx)
unfolding used_count
used_count-set [] i s h e = absurd (omega arith)
used_count-set (none ∷ idx) zero s h e = refl
used_count-set (some t ∷ idx) zero s h e = absurd (ground arith)
used_count-set (none ∷ idx) (suc i) s h e = used_count-set idx i s (omega arith) e
used_count-set (some t ∷ idx) (suc i) s h e = ap suc (used_count-set idx i s (omega arith) e)

-- Where fewer slots are used than there are, one is free.
pub free_slot :
    (idx : List (Option StrIdxSlot))
    → used_count idx < length idx
    → (j : ℕ) × (j < length idx) × (get_or idx j none ≡ none)
unfolding used_count
free_slot [] h = absurd (omega arith)
free_slot (none ∷ idx) h = (0, omega arith, refl)
free_slot (some s ∷ idx) h =
    let (j, inside, e) = free_slot idx (omega arith) in (suc j, omega arith, e)

-- From `i` on, around the end, `j` is met within the rounds.
abbrev Meets : ℕ → ℕ → ℕ → ℕ → Type 0
Meets n fuel i j = ((i ≤ j) × (j < fuel + i)) ⊎ ((j < i) × (n + j < fuel + i))

following :
    (n i : ℕ) → i < n → (((i + 1) % n ≡ i + 1) × (i + 1 < n)) ⊎ (((i + 1) % n ≡ 0) × (i + 1 ≡ n))
following n i h = elim (last_or_not n i h) [
  | inl more ↦ inl (mod-eq_of_lt more, more)
  | inr last ↦ inr (ap (λ k. k % n) last ∙ mod_self n, last)
]
  where
    last_or_not : (n i : ℕ) → i < n → (i + 1 < n) ⊎ (i + 1 ≡ n)
    last_or_not n i h = ground arith

-- The index has the slot somewhere.
abbrev pub Holds : List (Option StrIdxSlot) → StrIdxSlot → Type 0
Holds idx s = (j : ℕ) × (get_or idx j none ≡ some s)

abbrev pub Answers : (StrIdxSlot → Bool) → List (Option StrIdxSlot) → Probe → Type 0
Answers test idx (found s) = (test s ≡ true) × Holds idx s
Answers test idx (free k) = (k < length idx) × (get_or idx k none ≡ none)

abbrev pub Ends : (StrIdxSlot → Bool) → List (Option StrIdxSlot) → Option Probe → Type 0
Ends test idx o = (a : Probe) × (o ≡ some a) × Answers test idx a

Ends-test :
    (test : StrIdxSlot → Bool) (idx : List (Option StrIdxSlot)) (s : StrIdxSlot) (b : Bool)
    (rest : Option Probe)
    → Holds idx s
    → test s ≡ b
    → Ends test idx rest
    → Ends test idx (if b then some (found s) else rest)
Ends-test test idx s true rest held e h = (found s, refl, (e, held))
Ends-test test idx s false rest held e h = h

Ends-slot :
    (test : StrIdxSlot → Bool) (idx : List (Option StrIdxSlot)) (o : Option StrIdxSlot) (i : ℕ)
    (rest : Option Probe)
    → i < length idx
    → get_or idx i none ≡ o
    → (o ≢ none → Ends test idx rest)
    → Ends test idx (probe_slot o test i rest)
Ends-slot test idx none i rest inside e h = (free i, refl, (inside, e))
Ends-slot test idx (some s) i rest inside e h =
    Ends-test test idx s (test s) rest (i, e) refl (h (λ q. cc))

Meets-next :
    (n fuel i j : ℕ)
    → i < n
    → j < n
    → i ≢ j
    → Meets n (suc fuel) i j
    → ((i + 1) % n < n) × Meets n fuel ((i + 1) % n) j
Meets-next n fuel i j inside target apart meets = elim (following n i inside) [
  | inl (e, more) ↦ rw e (ground arith)
  | inr (e, last) ↦ rw e (ground arith)
]

-- A probe of an index with a free slot `j` ends within its rounds.
pub probe-Ends :
    (test : StrIdxSlot → Bool) (idx : List (Option StrIdxSlot)) (j : ℕ)
    → j < length idx
    → get_or idx j none ≡ none
    → (fuel i : ℕ) → i < length idx
    → Meets (length idx) fuel i j
    → Ends test idx (probe test fuel idx i)
unfolding probe
probe-Ends test idx j target vacant zero i inside meets = absurd (ground arith)
probe-Ends test idx j target vacant (suc fuel) i inside meets =
    Ends-slot test idx (get_or idx i none) i _ inside refl (λ occupied.
      let apart : i ≢ j = λ e. occupied (ap (λ k. get_or idx k none) e ∙ vacant) in
      let (inside', meets') = Meets-next (length idx) fuel i j inside target apart meets in
      probe-Ends test idx j target vacant fuel _ inside' meets')

-- From any hash, where fewer slots are used than there are.
pub hashed_probe-Ends :
    (test : StrIdxSlot → Bool) (idx : List (Option StrIdxSlot)) (hash : ℕ)
    → used_count idx < length idx
    → Ends test idx (probe test (length idx) idx (hash % length idx))
hashed_probe-Ends test idx hash h =
    let (j, target, vacant) = free_slot idx h in
    let inside : hash % length idx < length idx = mod-lt hash (omega arith) in
    probe-Ends test idx j target vacant (length idx) _ inside (ground arith)
