-- ===== src/Codegen/Strings/Chains.antt =====
-- Every occupied slot is met from its hash on, through occupied slots only.
use lua2wasm.Prelude.{
  ℕ, zero, suc, ◌+◌, ◌%◌, ◌<◌, length, get_or, set, List, [], ◌∷◌, Bool, true, false, ◌==◌,
  if◌then◌else◌, Option, none, some, ◌≡◌, ◌≢◌, refl, ap, sym, ◌∙◌, ◌⊎◌, ◌↔◌, inl, inr, Bool-cases,
  arith,
}
use mathlib.Core.Path.{subst}
use mathlib.Core.Logic.{⊎_elim}
use lua2wasm.Codegen.Strings.{StrIdxSlot, Probe, found, free, probe_slot, probe}
use lua2wasm.Codegen.Strings.Probing.{Holds, length-set}

abbrev pub Slots : Type 0
Slots = List (Option StrIdxSlot)

-- The rounds of a probe from a slot to another, over occupied ones.
pub data Chain (idx : Slots) (j : ℕ) : ℕ → Type 0 where
  here : Chain idx j j
  next : {i : ℕ} → get_or idx i none ≢ none → Chain idx j ((i + 1) % length idx) → Chain idx j i

abbrev pub Chained : Slots → Type 0
Chained idx =
    (j : ℕ) (s : StrIdxSlot) → get_or idx j none ≡ some s → Chain idx j (s.hash % length idx)

get_or-set_same :
    {A : Type 0} (xs : List (Option A)) (k : ℕ) (v : A)
    → k < length xs
    → get_or (set xs k (some v)) k none ≡ some v
get_or-set_same [] k v h = absurd (omega arith)
get_or-set_same (x ∷ xs) zero v h = refl
get_or-set_same (x ∷ xs) (suc k) v h = get_or-set_same xs k v (omega arith)

get_or-set_other :
    {A : Type 0} (xs : List (Option A)) (i k : ℕ) (v : A)
    → i ≢ k
    → get_or (set xs k (some v)) i none ≡ get_or xs i none
get_or-set_other [] i k v h = refl
get_or-set_other (x ∷ xs) zero zero v h = absurd (h refl)
get_or-set_other (x ∷ xs) zero (suc k) v h = refl
get_or-set_other (x ∷ xs) (suc i) zero v h = refl
get_or-set_other (x ∷ xs) (suc i) (suc k) v h = get_or-set_other xs i k v (λ e. h (ap suc e))

pub not_none : {A : Type 0} {o : Option A} {a : A} → o ≡ some a → o ≢ none
not_none e q = cc

-- An occupied slot other than the free one written to is as before.
occupied-set :
    (idx : Slots) (i k : ℕ) (v s : StrIdxSlot)
    → get_or idx k none ≡ none
    → get_or idx i none ≡ some s
    → get_or (set idx k (some v)) i none ≡ some s
occupied-set idx i k v s vacant e =
    get_or-set_other idx i k v (λ q. not_none e (ap (λ n. get_or idx n none) q ∙ vacant)) ∙ e

occupied_cases : {A : Type 0} (o : Option A) → (o ≡ none) ⊎ ((a : A) × (o ≡ some a))
occupied_cases none = inl refl
occupied_cases (some a) = inr (a, refl)

Chain-set :
    (idx : Slots) (j i k : ℕ) (v : StrIdxSlot)
    → get_or idx k none ≡ none
    → Chain idx j i
    → Chain (set idx k (some v)) j i
Chain-set idx j i k v vacant here = here
Chain-set idx j i k v vacant (next o c) = elim (occupied_cases (get_or idx i none)) [
  | inl e ↦ absurd (o e)
  | inr (s, e) ↦ next (not_none (occupied-set idx i k v s vacant e)) (
      subst (λ n. Chain (set idx k (some v)) j ((i + 1) % n)) (sym (length-set idx k (some v)))
        (Chain-set idx j ((i + 1) % length idx) k v vacant c))
]

test_cases :
    (test : StrIdxSlot → Bool) (s : StrIdxSlot) (b : Bool) (rest : Option Probe) (k : ℕ)
    → test s ≡ b
    → (if b then some (found s) else rest) ≡ some (free k)
    → (test s ≡ false) × (rest ≡ some (free k))
test_cases test s true rest k t e = cc
test_cases test s false rest k t e = (t, e)

free_injective : {i k : ℕ} → some (free i) ≡ some (free k) → i ≡ k
free_injective e = cc

probe_slot-free :
    (o : Option StrIdxSlot) (test : StrIdxSlot → Bool) (i : ℕ) (rest : Option Probe) (k : ℕ)
    → probe_slot o test i rest ≡ some (free k)
    → ((o ≡ none) × (i ≡ k))
      ⊎ ((s : StrIdxSlot) × (o ≡ some s) × (test s ≡ false) × (rest ≡ some (free k)))
probe_slot-free none test i rest k e = inl (refl, free_injective e)
probe_slot-free (some s) test i rest k e =
    let (t, r) = test_cases test s (test s) rest k refl e in inr (s, refl, t, r)

-- A probe that ends at a free slot came along a chain to it.
pub probe-Chain :
    (test : StrIdxSlot → Bool) (idx : Slots) (fuel i k : ℕ)
    → probe test fuel idx i ≡ some (free k)
    → Chain idx k i
unfolding probe
probe-Chain test idx zero i k e = cc
probe-Chain test idx (suc fuel) i k e = elim (probe_slot-free (get_or idx i none) test i _ k e) [
  | inl (vacant, same) ↦ subst (Chain idx k) (sym same) here
  | inr (s, occupied, other, later) ↦
      next (not_none occupied) (probe-Chain test idx fuel ((i + 1) % length idx) k later)
]

-- A probe does not pass what it looks for.
pub probe-finds :
    (test : StrIdxSlot → Bool) (idx : Slots) (j : ℕ) (s : StrIdxSlot)
    → get_or idx j none ≡ some s
    → test s ≡ true
    → (fuel i k : ℕ) → Chain idx j i
    → probe test fuel idx i ≢ some (free k)
unfolding probe
probe-finds test idx j s at ok zero i k c e = cc
probe-finds test idx j s at ok (suc fuel) i k here e =
    elim (probe_slot-free (get_or idx i none) test i _ k e) [
      | inl (vacant, same) ↦ not_none at vacant
      | inr (t, occupied, other, later) ↦ cc
    ]
probe-finds test idx j s at ok (suc fuel) i k (next o c) e =
    elim (probe_slot-free (get_or idx i none) test i _ k e) [
      | inl (vacant, same) ↦ o vacant
      | inr (t, occupied, other, later) ↦
          probe-finds test idx j s at ok fuel ((i + 1) % length idx) k c later
    ]

same_or_other : (j k : ℕ) → (j ≡ k) ⊎ (j ≢ k)
same_or_other j k = elim (Bool-cases (j == k)) [
  | inl e ↦ inl (ground arith)
  | inr e ↦ inr (λ q. absurd (ground arith))
]

pub some_injective : {A : Type 0} {a b : A} → some a ≡ some b → a ≡ b
some_injective e = cc

held_cases :
    (idx : Slots) (k : ℕ) (v s : StrIdxSlot) (j : ℕ)
    → k < length idx
    → get_or (set idx k (some v)) j none ≡ some s
    → ((j ≡ k) × (s ≡ v)) ⊎ (get_or idx j none ≡ some s)
held_cases idx k v s j inside e = elim (same_or_other j k) [
  | inl q ↦ inl (
    q,
    some_injective
        (sym e ∙ ap (λ n. get_or (set idx k (some v)) n none) q ∙ get_or-set_same idx k v inside),
  )
  | inr q ↦ inr (sym (get_or-set_other idx j k v q) ∙ e)
]

-- A new slot where the probe from its hash ended keeps all in chains, and is held with the others.
pub Chained-set :
    (idx : Slots) (k : ℕ) (v : StrIdxSlot)
    → k < length idx
    → get_or idx k none ≡ none
    → Chain idx k (v.hash % length idx)
    → Chained idx
    → Chained (set idx k (some v))
Chained-set idx k v inside vacant c h j s e =
    subst (λ n. Chain (set idx k (some v)) j (s.hash % n)) (sym (length-set idx k (some v)))
      (elim (held_cases idx k v s j inside e) [
        | inl (at, same) ↦ Chain-set idx j _ k v vacant (
            subst (λ n. Chain idx n (s.hash % length idx)) (sym at)
              (subst (λ t. Chain idx k (t.hash % length idx)) (sym same) c))
        | inr old ↦ Chain-set idx j _ k v vacant (h j s old)
      ])

pub Holds-set :
    (idx : Slots) (k : ℕ) (v : StrIdxSlot)
    → k < length idx
    → get_or idx k none ≡ none
    → (s : StrIdxSlot) → Holds (set idx k (some v)) s ↔ (Holds idx s ⊎ (s ≡ v))
Holds-set idx k v inside vacant s = (
  λ (j, e). ⊎_elim (λ (at, same). inr same) (λ old. inl (j, old)) (held_cases idx k v s j inside e),
  ⊎_elim (λ (j, old). (j, occupied-set idx j k v s vacant old))
      (λ same. (k, get_or-set_same idx k v inside ∙ ap some (sym same))),
)
