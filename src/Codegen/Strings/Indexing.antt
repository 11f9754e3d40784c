-- ===== src/Codegen/Strings/Indexing.antt =====
-- An insertion into the index that need not grow.
use lua2wasm.Prelude.{
  ◌⊎◌, ◌↔◌, inl, ℕ, zero, suc, ◌+◌, ◌*◌, ◌%◌, ◌≤◌, ◌<◌, length, replicate, set, List, [], ◌∷◌, true,
  false, Option, none, some, ◌≡◌, refl, ap, sym, ◌∙◌, All, arith,
}
use mathlib.Core.Path.{subst}
use native.Mathlib.Nat.{mod-eq_of_lt}
use lua2wasm.Wat.Buf.{◌>>=◌}
use lua2wasm.Codegen.Strings.{
  StrIdxSlot, StrPool, Probe, found, free, probe, same_slot, is_loaded, place, strpool_index_put,
}
use mathlib.Core.Logic.{⊎_elim}
use lua2wasm.Codegen.Strings.Chains.{Chain, Chained, Chained-set, Holds-set, probe-Chain}
use lua2wasm.Codegen.Strings.Probing.{
  Holds, used_count, used_count-set, length-set, Answers, hashed_probe-Ends,
}

-- A slot records a run within the first `n` bytes.
abbrev pub Within : ℕ → Option StrIdxSlot → Type 0
Within n none = Unit
Within n (some s) = s.offset + s.len ≤ n

pub record Indexed (p : StrPool) : Type 0 where
  pub counted : used_count p.idx ≡ p.idx_count
  pub load : p.idx_count * 10 ≤ length p.idx * 7
  pub within : All (Within (length p.bytes)) p.idx
  pub chained : Chained p.idx

-- An insertion changes the index only, and adds at most `n` slots: those of `New`.
pub record Puts (n : ℕ) (New : StrIdxSlot → Type 0) (p q : StrPool) : Type 0 where
  pub bytes_kept : q.bytes ≡ p.bytes
  pub cap_kept : q.cap ≡ p.cap
  pub size : length q.idx ≡ length p.idx
  pub added : q.idx_count ≤ p.idx_count + n
  pub held : (t : StrIdxSlot) → Holds q.idx t ↔ (Holds p.idx t ⊎ New t)
  pub indexed : Indexed q

All-set :
    {A : Type 0} (P : A → Type 0) (xs : List A) (i : ℕ) (v : A)
    → P v
    → All P xs
    → All P (set xs i v)
All-set P [] i v h g = g
All-set P (x ∷ xs) zero v h (first, rest) = (h, rest)
All-set P (x ∷ xs) (suc i) v h (first, rest) = (first, All-set P xs i v h rest)

pub All-free : (n k : ℕ) → All (Within n) (replicate k none)
All-free n zero = tt
All-free n (suc k) = (tt, All-free n k)

same_slot-eq : (s t : StrIdxSlot) → same_slot s t ≡ true → t ≡ s
same_slot-eq s t e =
    let h : t.hash ≡ s.hash = ground arith in
    let l : t.len ≡ s.len = ground arith in
    let o : t.offset ≡ s.offset = ground arith in
    λ i. record { hash = h i; offset = o i; len = l i }

place-Puts :
    (p : StrPool) (s : StrIdxSlot) (a : Probe)
    → Indexed p
    → s.offset + s.len ≤ length p.bytes
    → (p.idx_count + 1) * 10 ≤ length p.idx * 7
    → Answers (same_slot s) p.idx a
    → ((k : ℕ) → a ≡ free k → Chain p.idx k (s.hash % length p.idx))
    → Puts 1 (λ t. t ≡ s) p (place p s a)
place-Puts p s (found t) h inside room (e, held) path = record {
  bytes_kept = refl;
  cap_kept = refl;
  size = refl;
  added = omega arith;
  held = λ v.
      (inl, ⊎_elim (λ old. old) (λ new. subst (Holds p.idx) (same_slot-eq s t e ∙ sym new) held));
  indexed = h;
}
place-Puts p s (free k) h inside room (k_inside, vacant) path = record {
  bytes_kept = refl;
  cap_kept = refl;
  size = length-set p.idx k (some s);
  added = omega arith;
  held = Holds-set p.idx k s k_inside vacant;
  indexed = record {
    counted = omega (arith, used_count-set p.idx k s k_inside vacant, h.counted);
    load = omega (arith, length-set p.idx k (some s));
    within = All-set (Within (length p.bytes)) p.idx k (some s) inside h.within;
    chained = Chained-set p.idx k s k_inside vacant (path k refl) h.chained;
  };
}

abbrev pub Returns : (StrPool → Type 0) → Option StrPool → Type 0
Returns P o = (q : StrPool) × (o ≡ some q) × P q

-- The probing and the write, where one more slot keeps the load.
pub probe-Puts :
    (p : StrPool) (s : StrIdxSlot)
    → Indexed p
    → s.offset + s.len ≤ length p.bytes
    → (p.idx_count + 1) * 10 ≤ length p.idx * 7
    → Returns (Puts 1 (λ t. t ≡ s) p) (do
      at ← probe (same_slot s) (length p.idx) p.idx (s.hash % length p.idx)
      some (place p s at))
probe-Puts p s h inside room =
    let (a, e, answers) = hashed_probe-Ends (same_slot s) p.idx s.hash (omega (arith, h.counted)) in
    (
      place p s a,
      rw e refl,
      place-Puts p s a h inside room answers
          (λ k at. probe-Chain (same_slot s) p.idx (length p.idx) _ k (e ∙ ap some at)),
    )

unloaded :
    (modulus : ℕ) (p : StrPool)
    → length p.idx * 7 < modulus
    → (p.idx_count + 1) * 10 < length p.idx * 7
    → is_loaded modulus p ≡ false
unloaded modulus p small room =
    let wrap : length p.idx * 7 % modulus ≡ length p.idx * 7 = mod-eq_of_lt small in
    let wrap' : (p.idx_count + 1) * 10 % modulus ≡ (p.idx_count + 1) * 10 =
      mod-eq_of_lt (omega arith) in
    rw (wrap, wrap') (ground arith)

-- An insertion into an index that need not grow.
pub put_unloaded :
    (modulus depth : ℕ) (p : StrPool) (s : StrIdxSlot)
    → length p.idx * 7 < modulus
    → Indexed p
    → s.offset + s.len ≤ length p.bytes
    → (p.idx_count + 1) * 10 < length p.idx * 7
    → Returns (Puts 1 (λ t. t ≡ s) p) (strpool_index_put modulus (suc depth) p s)
unfolding strpool_index_put
put_unloaded modulus depth p s small h inside room =
    rw (unloaded modulus p small room) (probe-Puts p s h inside (omega arith))
