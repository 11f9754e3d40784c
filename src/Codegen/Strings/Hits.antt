-- ===== src/Codegen/Strings/Hits.antt =====
-- What the index and the scan find, and what an answer of strpool_add is worth.
use lua2wasm.Prelude.{
  ◌⊎◌, ◌↔◌, ℕ, ◌+◌, ◌≤◌, ◌<◌, Bytes, length, equal-eq, List, ◌++◌, true, ◌==◌, Option, none, some,
  ◌≡◌, refl, inl, inr, Bool-cases, arith,
}
use lua2wasm.Codegen.Strings.{
  StrIdxSlot, StrPool, StrRef, Probe, found, free, run, holds_run, offset_of, strpool_hash,
  strpool_scan, strpool_index_get, or_scan,
}
use lua2wasm.Codegen.Strings.Probing.{Holds, Answers, hashed_probe-Ends}
use lua2wasm.Codegen.Strings.Indexing.{Indexed}
use lua2wasm.Codegen.Strings.Scanning.{strpool_scan-some, strpool_scan-finds}

-- The pool between two calls.
pub record IsValid (p : StrPool) : Type 0 where
  pub indexed : Indexed p
  pub fits : length p.bytes ≤ p.cap

-- The bytes as they would be without the index: appended only where the scan misses.
abbrev pub without_index : Option ℕ → Bytes → Bytes → Bytes
without_index (some at) pool bytes = pool
without_index none pool bytes = pool ++ bytes

-- The slot that records a run.
abbrev pub slot_for : ℕ → Bytes → ℕ → StrIdxSlot
slot_for modulus bytes at = record {
  hash = strpool_hash modulus bytes;
  offset = at;
  len = length bytes;
}

-- The index holds what it held and the slot.
abbrev pub Adds : StrPool → StrIdxSlot → StrPool → Type 0
Adds p s q = (t : StrIdxSlot) → Holds q.idx t ↔ (Holds p.idx t ⊎ (t ≡ s))

pub record Interns (modulus : ℕ) (p : StrPool) (bytes : Bytes) (q : StrPool) (r : StrRef)
    : Type 0 where
  pub len : r.len ≡ length bytes
  pub reads : run q.bytes r.offset r.len ≡ bytes
  pub inside : r.offset + r.len ≤ length q.bytes
  pub dedup : q.bytes ≡ without_index (strpool_scan p.bytes bytes) p.bytes bytes
  pub held : Adds p (slot_for modulus bytes r.offset) q
  pub valid : IsValid q

abbrev pub Hit : Bytes → Bytes → Option ℕ → Type 0
Hit pool bytes none = Unit
Hit pool bytes (some at) = run pool at (length bytes) ≡ bytes

holds_run-reads :
    (pool : Bytes) (hash : ℕ) (bytes : Bytes) (s : StrIdxSlot)
    → holds_run pool hash bytes s ≡ true
    → run pool s.offset (length bytes) ≡ bytes
holds_run-reads pool hash bytes s e = equal-eq _ _ (ground arith)

offset_of-Hit :
    (pool : Bytes) (hash : ℕ) (bytes : Bytes) (idx : List (Option StrIdxSlot)) (a : Probe)
    → Answers (holds_run pool hash bytes) idx a
    → Hit pool bytes (offset_of a)
offset_of-Hit pool hash bytes idx (found s) (e, held) = holds_run-reads pool hash bytes s e
offset_of-Hit pool hash bytes idx (free k) e = tt

pub strpool_index_get-Hit :
    (p : StrPool) (hash : ℕ) (bytes : Bytes)
    → Indexed p
    → (o : Option ℕ) × (strpool_index_get p hash bytes ≡ some o) × Hit p.bytes bytes o
unfolding strpool_index_get
strpool_index_get-Hit p hash bytes h = elim (Bool-cases (length p.idx == 0)) [
  | inl empty ↦ (none, rw empty refl, tt)
  | inr nonempty ↦
      let (a, e, answers) =
        hashed_probe-Ends (holds_run p.bytes hash bytes) p.idx hash
          (ground (arith, h.counted, h.load)) in
      (offset_of a, rw (nonempty, e) refl, offset_of-Hit p.bytes hash bytes p.idx a answers)
]

pub or_scan-Hit :
    (hit : Option ℕ) (pool bytes : Bytes)
    → 0 < length bytes
    → Hit pool bytes hit
    → Hit pool bytes (or_scan hit pool bytes)
or_scan-Hit (some at) pool bytes h e = e
or_scan-Hit none pool bytes h e = scanned (strpool_scan pool bytes) refl
  where
    scanned : (o : Option ℕ) → strpool_scan pool bytes ≡ o → Hit pool bytes o
    scanned none q = tt
    scanned (some at) q = strpool_scan-some pool bytes at h q

-- A hit of the index is one that the scan would have too.
pub or_scan-without_index :
    (hit : Option ℕ) (pool bytes : Bytes)
    → 0 < length bytes
    → Hit pool bytes hit
    → without_index (or_scan hit pool bytes) pool bytes
      ≡ without_index (strpool_scan pool bytes) pool bytes
or_scan-without_index none pool bytes h e = refl
or_scan-without_index (some at) pool bytes h e = scanned (strpool_scan pool bytes) refl
  where
    scanned : (o : Option ℕ) → strpool_scan pool bytes ≡ o → pool ≡ without_index o pool bytes
    scanned none q = absurd (strpool_scan-finds pool bytes at e h q)
    scanned (some k) q = refl
