-- ===== src/Codegen/Strings/Stable.antt =====
-- A run that is interned again is given the same reference.
use lua2wasm.Prelude.{
  ℕ, ◌+◌, ◌*◌, ◌≤◌, ◌<◌, Bytes, length, Option, none, some, ◌≡◌, refl, ap, sym, ◌∙◌, inl, inr,
}
use mathlib.Core.Path.{subst}
use lua2wasm.Codegen.Strings.{StrIdxSlot, StrPool, StrRef, run, strpool_scan, strpool_add}
use lua2wasm.Codegen.Strings.Probing.{Holds}
use lua2wasm.Codegen.Strings.Chains.{some_injective}
use lua2wasm.Codegen.Strings.Scanning.{strpool_scan-finds}
use lua2wasm.Codegen.Strings.Interning.{strpool_add-Indexed}
use lua2wasm.Codegen.Strings.Hits.{Interns, slot_for, without_index}
use lua2wasm.Codegen.Strings.Lookup.{
  Matches, Stable, Explains, strpool_index_get-Explains, run_kept, Matches-slot_for, Stable-Interns,
}

-- There is room below size_t for the index and the bytes.
pub record HasSpace (modulus : ℕ) (p : StrPool) (bytes : Bytes) : Type 0 where
  pub index : length p.idx * 14 + 1024 ≤ modulus
  pub bytes_fit : (length p.bytes + length bytes) * 2 + 128 ≤ modulus
  pub not_empty : 0 < length bytes

-- The index records the bytes at an offset.
pub record Recorded (modulus : ℕ) (p : StrPool) (bytes : Bytes) (at : ℕ) : Type 0 where
  pub held : Holds p.idx (slot_for modulus bytes at)
  pub reads : run p.bytes at (length bytes) ≡ bytes

unique-Explains :
    (modulus : ℕ) (p : StrPool) (bytes : Bytes) (hit : Option ℕ) (r : StrRef)
    → Explains modulus p bytes hit
    → ((k : ℕ) → hit ≡ some k → r.offset ≡ k)
    → (t : StrIdxSlot) → Holds p.idx t
    → Matches modulus p.bytes bytes t
    → t.offset ≡ r.offset
unique-Explains modulus p bytes none r ex at t held m = absurd (ex t held m)
unique-Explains modulus p bytes (some k) r ex at t held m = ex t held m ∙ sym (at k refl)

-- What one call does to a stable pool.
pub record Keeps (modulus : ℕ) (p : StrPool) (bytes : Bytes) (q : StrPool) (r : StrRef)
    : Type 0 where
  pub interns : Interns modulus p bytes q r
  pub stable : Stable modulus q
  recorded : Recorded modulus q bytes r.offset
  others : (b : Bytes) (k : ℕ) → Recorded modulus p b k → Recorded modulus q b k
  same : (k : ℕ) → Recorded modulus p bytes k → r.offset ≡ k

pub strpool_add-Keeps :
    (modulus : ℕ) (p : StrPool) (bytes : Bytes)
    → Stable modulus p
    → HasSpace modulus p bytes
    → (q : StrPool) × (r : StrRef) × (strpool_add modulus p bytes ≡ some (q, r))
      × Keeps modulus p bytes q r
strpool_add-Keeps modulus p bytes h space =
    let (hit, got, q, r, e, f, at) =
      strpool_add-Indexed modulus p bytes h.valid space.index space.bytes_fit space.not_empty in
    let unique =
      unique-Explains modulus p bytes hit r (strpool_index_get-Explains modulus p bytes h hit got)
        at in
    (
      q,
      r,
      e,
      record {
        interns = f;
        stable = Stable-Interns modulus p q bytes r h f unique;
        recorded = record {
          held = (f.held _).1 (inr refl);
          reads = (Matches-slot_for modulus p q bytes r h f).reads;
        };
        others = λ b k old. record {
          held = (f.held _).1 (inl old.held);
          reads = run_kept modulus p q bytes r h f (slot_for modulus b k) old.held ∙ old.reads;
        };
        same = λ k old. sym (
            unique (slot_for modulus bytes k) old.held
              (record { hash = refl; len = refl; reads = old.reads }));
      },
    )

-- The pools that further calls lead to.
pub data Later (modulus : ℕ) (p : StrPool) : StrPool → Type 0 where
  now : Later modulus p p
  then :
      {q q' : StrPool} (bytes : Bytes) (r : StrRef)
      → Later modulus p q
      → HasSpace modulus q bytes
      → strpool_add modulus q bytes ≡ some (q', r)
      → Later modulus p q'

pair_injective :
    {q q' : StrPool} {r r' : StrRef}
    → ◌≡◌ {A = Option (StrPool × StrRef)} (some (q, r)) (some (q', r'))
    → (q ≡ q') × (r ≡ r')
pair_injective e = (ap (λ x. x.0) (some_injective e), ap (λ x. x.1) (some_injective e))

Later-Recorded :
    (modulus : ℕ) (p q : StrPool) (bytes : Bytes) (at : ℕ)
    → Stable modulus p
    → Recorded modulus p bytes at
    → Later modulus p q
    → Stable modulus q × Recorded modulus q bytes at
Later-Recorded modulus p q bytes at h old now = (h, old)
Later-Recorded modulus p q' bytes at h old (then {q} other r later space e) =
    let (stable, kept) = Later-Recorded modulus p q bytes at h old later in
    let (q'', r', e', f) = strpool_add-Keeps modulus q other stable space in
    let same = (pair_injective (sym e' ∙ e)).0 in
    (
      subst (Stable modulus) same f.stable,
      subst (λ x. Recorded modulus x bytes at) same (f.others bytes at kept),
    )

kept_bytes :
    (pool bytes : Bytes) (at : ℕ)
    → run pool at (length bytes) ≡ bytes
    → 0 < length bytes
    → without_index (strpool_scan pool bytes) pool bytes ≡ pool
kept_bytes pool bytes at e h = scanned (strpool_scan pool bytes) refl
  where
    scanned : (o : Option ℕ) → strpool_scan pool bytes ≡ o → without_index o pool bytes ≡ pool
    scanned none q = absurd (strpool_scan-finds pool bytes at e h q)
    scanned (some k) q = refl

-- Once a run is interned in a stable pool, interning it again, after any further calls, returns
-- the same reference and leaves the bytes of the pool as they are, with room below size_t before
-- every call. A pool is stable when it is valid and its index has one offset at most for the same
-- bytes; the empty pool is.
pub strpool_add_again :
    (modulus : ℕ) (p q q' : StrPool) (bytes : Bytes) (r : StrRef)
    → Stable modulus p
    → HasSpace modulus p bytes
    → strpool_add modulus p bytes ≡ some (q, r)
    → Later modulus q q'
    → HasSpace modulus q' bytes
    → (q'' : StrPool) × (strpool_add modulus q' bytes ≡ some (q'', r)) × (q''.bytes ≡ q'.bytes)
strpool_add_again modulus p q q' bytes r h space e later space' =
    let (q0, r0, e0, f) = strpool_add-Keeps modulus p bytes h space in
    let (same_pool, same_ref) = pair_injective (sym e0 ∙ e) in
    let (stable, kept) =
      Later-Recorded modulus q q' bytes r.offset (subst (Stable modulus) same_pool f.stable)
        (subst (λ x. Recorded modulus x bytes r.offset) same_pool
          (subst (λ x. Recorded modulus q0 bytes x.offset) same_ref f.recorded))
        later in
    let (q'', r'', e'', f'') = strpool_add-Keeps modulus q' bytes stable space' in
    let offset : r''.offset ≡ r.offset = f''.same r.offset kept in
    let len : r''.len ≡ r.len = f''.interns.len ∙ sym f.interns.len ∙ ap (λ x. x.len) same_ref in
    let ref : r'' ≡ r = λ i. record { offset = offset i; len = len i } in
    (
      q'',
      e'' ∙ ap (λ x. some (q'', x)) ref,
      f''.interns.dedup ∙ kept_bytes q'.bytes bytes r.offset kept.reads space'.not_empty,
    )
