-- ===== src/Codegen/Strings/Lookup.antt =====
-- What the index says of a run, where it has one offset at most for the same bytes.
use lua2wasm.Prelude.{
  ℕ, zero, suc, ◌+◌, ◌%◌, ◌≤◌, Bytes, length, take, equal, equal-eq, equal_refl, append-nil, All,
  [], ◌∷◌, ◌++◌, get_or, true, ◌==◌, Option, none, some, ◌≡◌, refl, ap, sym, ◌∙◌, ◌⊎◌, ◌↔◌, inl,
  inr, Bool-cases, arith,
}
use mathlib.Core.Path.{subst}
use lua2wasm.Codegen.Strings.{
  StrIdxSlot, StrPool, StrRef, Probe, found, free, run, probe, holds_run, offset_of, strpool_hash,
  strpool_scan, strpool_index_get,
}
use lua2wasm.Codegen.Strings.Probing.{Holds, Answers, hashed_probe-Ends}
use lua2wasm.Codegen.Strings.Chains.{Slots, Chain, probe-finds, not_none, some_injective}
use lua2wasm.Codegen.Strings.Indexing.{Within}
use lua2wasm.Codegen.Strings.Regrowth.{Holds-nil}
use lua2wasm.Codegen.Strings.Hits.{IsValid, Interns, slot_for, without_index}

-- The slot is one for these bytes.
pub record Matches (modulus : ℕ) (pool bytes : Bytes) (t : StrIdxSlot) : Type 0 where
  pub hash : t.hash ≡ strpool_hash modulus bytes
  pub len : t.len ≡ length bytes
  pub reads : run pool t.offset (length bytes) ≡ bytes

-- The index has one offset at most for the same bytes.
pub record Stable (modulus : ℕ) (p : StrPool) : Type 0 where
  pub valid : IsValid p
  pub distinct :
      (bytes : Bytes) (s t : StrIdxSlot)
      → Holds p.idx s
      → Holds p.idx t
      → Matches modulus p.bytes bytes s
      → Matches modulus p.bytes bytes t
      → s.offset ≡ t.offset

abbrev pub Explains : ℕ → StrPool → Bytes → Option ℕ → Type 0
Explains modulus p bytes none = (t : StrIdxSlot) → Holds p.idx t → ¬ Matches modulus p.bytes bytes t
Explains modulus p bytes (some at) =
    (t : StrIdxSlot) → Holds p.idx t → Matches modulus p.bytes bytes t → t.offset ≡ at

Matches-holds_run :
    (modulus : ℕ) (pool bytes : Bytes) (t : StrIdxSlot)
    → holds_run pool (strpool_hash modulus bytes) bytes t ≡ true
    → Matches modulus pool bytes t
Matches-holds_run modulus pool bytes t e = record {
  hash = ground arith;
  len = ground arith;
  reads = equal-eq _ _ (ground arith);
}

holds_run-Matches :
    (modulus : ℕ) (pool bytes : Bytes) (t : StrIdxSlot)
    → Matches modulus pool bytes t
    → holds_run pool (strpool_hash modulus bytes) bytes t ≡ true
holds_run-Matches modulus pool bytes t m =
    let same : equal (run pool t.offset (length bytes)) bytes ≡ true =
      subst (λ b. equal b bytes ≡ true) (sym m.reads) (equal_refl bytes) in
    ground (arith, m.hash, m.len, same)

module _ (modulus : ℕ) (p : StrPool) (bytes : Bytes) (h : Stable modulus p) where
  explains :
      (a : Probe)
      → probe
          (holds_run p.bytes (strpool_hash modulus bytes) bytes)
          (length p.idx)
          p.idx
          (strpool_hash modulus bytes % length p.idx)
        ≡ some a
      → Answers (holds_run p.bytes (strpool_hash modulus bytes) bytes) p.idx a
      → Explains modulus p bytes (offset_of a)
  explains (found s) e (ok, held) =
      λ t held' m. h.distinct bytes t s held' held m (Matches-holds_run modulus p.bytes bytes s ok)
  explains (free k) e vacant = λ t (j, at) m.
      probe-finds (holds_run p.bytes (strpool_hash modulus bytes) bytes) p.idx j t at
        (holds_run-Matches modulus p.bytes bytes t m) (length p.idx) _ k
        (subst (λ n. Chain p.idx j (n % length p.idx)) m.hash (h.valid.indexed.chained j t at)) e

  none_held : (idx : Slots) (t : StrIdxSlot) → (length idx == 0) ≡ true → ¬ Holds idx t
  none_held [] t e held = Holds-nil t held
  none_held (s ∷ idx) t e held = absurd (ground arith)

  pub strpool_index_get-Explains :
      (hit : Option ℕ)
      → strpool_index_get p (strpool_hash modulus bytes) bytes ≡ some hit
      → Explains modulus p bytes hit
  unfolding strpool_index_get
  strpool_index_get-Explains hit e = elim (Bool-cases (length p.idx == 0)) [
    | inl empty ↦
        subst (Explains modulus p bytes) (some_injective (rw empty at e))
          (λ t held m. none_held p.idx t empty held)
    | inr nonempty ↦
        let (a, ends, answers) =
          hashed_probe-Ends (holds_run p.bytes (strpool_hash modulus bytes) bytes) p.idx
            (strpool_hash modulus bytes)
            (ground (arith, h.valid.indexed.counted, h.valid.indexed.load)) in
        subst (Explains modulus p bytes) (some_injective (rw (nonempty, ends) at e))
          (explains a ends answers)
  ]

-- What is appended changes no run that was inside.
take-append_le : (n : ℕ) (xs ys : Bytes) → n ≤ length xs → take n (xs ++ ys) ≡ take n xs
take-append_le zero xs ys h = refl
take-append_le (suc n) [] ys h = absurd (omega arith)
take-append_le (suc n) (x ∷ xs) ys h = ap (◌∷◌ x) (take-append_le n xs ys (omega arith))

run-append :
    (pool more : Bytes) (o n : ℕ) → o + n ≤ length pool → run (pool ++ more) o n ≡ run pool o n
run-append pool more zero n h = take-append_le n pool more (omega arith)
run-append [] more (suc o) n h = absurd (omega arith)
run-append (x ∷ pool) more (suc o) n h = run-append pool more o n (omega arith)

pub extends :
    (o : Option ℕ) (pool bytes : Bytes)
    → (more : Bytes) × (without_index o pool bytes ≡ pool ++ more)
extends none pool bytes = (bytes, refl)
extends (some at) pool bytes = ([], sym (append-nil pool))

Holds-Within :
    (n : ℕ) (idx : Slots) (j : ℕ) (t : StrIdxSlot)
    → All (Within n) idx
    → get_or idx j none ≡ some t
    → t.offset + t.len ≤ n
Holds-Within n [] j t w e = absurd (not_none e refl)
Holds-Within n (s ∷ idx) zero t (first, w) e = subst (Within n) e first
Holds-Within n (s ∷ idx) (suc j) t (first, w) e = Holds-Within n idx j t w e

module _ (modulus : ℕ) (p q : StrPool) (bytes : Bytes) (r : StrRef) (h : Stable modulus p)
    (f : Interns modulus p bytes q r) where
  pub run_kept :
      (t : StrIdxSlot) → Holds p.idx t → run q.bytes t.offset t.len ≡ run p.bytes t.offset t.len
  run_kept t (j, at) =
      let (more, e) = extends (strpool_scan p.bytes bytes) p.bytes bytes in
      ap (λ pool. run pool t.offset t.len) (f.dedup ∙ e)
      ∙ run-append p.bytes more t.offset t.len
          (Holds-Within (length p.bytes) p.idx j t h.valid.indexed.within at)

  Matches-kept :
      (b : Bytes) (t : StrIdxSlot)
      → Holds p.idx t
      → Matches modulus q.bytes b t ↔ Matches modulus p.bytes b t
  Matches-kept b t held = (
    λ m. record {
      hash = m.hash;
      len = m.len;
      reads =
          subst (λ n. run p.bytes t.offset n ≡ b) m.len
            (sym (run_kept t held) ∙ ap (run q.bytes t.offset) m.len ∙ m.reads);
    },
    λ m. record {
      hash = m.hash;
      len = m.len;
      reads =
          subst (λ n. run q.bytes t.offset n ≡ b) m.len
            (run_kept t held ∙ ap (run p.bytes t.offset) m.len ∙ m.reads);
    },
  )

  pub Matches-slot_for : Matches modulus q.bytes bytes (slot_for modulus bytes r.offset)
  Matches-slot_for = record {
    hash = refl;
    len = refl;
    reads = ap (run q.bytes r.offset) (sym f.len) ∙ f.reads;
  }

  -- The new slot is for its bytes only.
  same_bytes : (b : Bytes) → Matches modulus q.bytes b (slot_for modulus bytes r.offset) → b ≡ bytes
  same_bytes b m =
      sym m.reads
      ∙ ap (run q.bytes r.offset) (sym m.len)
      ∙ (ap (run q.bytes r.offset) (sym f.len) ∙ f.reads)

  abbrev Unique : Type 0
  Unique = (t : StrIdxSlot) → Holds p.idx t → Matches modulus p.bytes bytes t → t.offset ≡ r.offset

  old_or_new :
      Unique
      → (b : Bytes) (s : StrIdxSlot) → Holds q.idx s
      → Matches modulus q.bytes b s
      → (Holds p.idx s × Matches modulus p.bytes b s) ⊎ ((s.offset ≡ r.offset) × (b ≡ bytes))
  old_or_new unique b s held m = elim ((f.held s).0 held) [
    | inl old ↦ inl (old, (Matches-kept b s old).0 m)
    | inr new ↦ inr (ap (λ t. t.offset) new, same_bytes b (subst (Matches modulus q.bytes b) new m))
  ]

  pub Stable-Interns : Unique → Stable modulus q
  Stable-Interns unique = record {
    valid = f.valid;
    distinct = λ b s t held held' m m'.
        both b s t (old_or_new unique b s held m) (old_or_new unique b t held' m');
  }
    where
      both :
          (b : Bytes) (s t : StrIdxSlot)
          → (Holds p.idx s × Matches modulus p.bytes b s) ⊎ ((s.offset ≡ r.offset) × (b ≡ bytes))
          → (Holds p.idx t × Matches modulus p.bytes b t) ⊎ ((t.offset ≡ r.offset) × (b ≡ bytes))
          → s.offset ≡ t.offset
      both b s t (inl (o, m)) (inl (o', m')) = h.distinct b s t o o' m m'
      both b s t (inl (o, m)) (inr (e', same)) =
          unique s o (subst (λ x. Matches modulus p.bytes x s) same m) ∙ sym e'
      both b s t (inr (e, same)) (inl (o', m')) =
          e ∙ sym (unique t o' (subst (λ x. Matches modulus p.bytes x t) same m'))
      both b s t (inr (e, same)) (inr (e', same')) = e ∙ sym e'
