-- ===== src/Codegen/Strings/Interning.antt =====
-- What strpool_add answers and leaves.
use lua2wasm.Prelude.{
  ◌⊎◌, ◌↔◌, ℕ, ◌+◌, ◌*◌, ◌%◌, ◌≤◌, ◌<◌, Bytes, length, length-append, take, take_all, drop-append,
  All, List, [], ◌∷◌, ◌++◌, true, ◌==◌, ltb, if◌then◌else◌, Option, none, some, ◌≡◌, refl, ap, ◌∙◌,
  inl, inr, Bool-cases, arith,
}
use mathlib.Core.Path.{subst}
use native.Mathlib.Nat.{mod-eq_of_lt}
use lua2wasm.Wat.Buf.{double_cap, ◌>>=◌}
use lua2wasm.Wat.Buf.Valid.{double_cap_lem}
use lua2wasm.Codegen.Strings.{
  StrIdxSlot, StrPool, StrRef, run, strpool_hash, strpool_scan, strpool_index_get, append_run,
  put_run, add_found, or_scan, strpool_add,
}
use lua2wasm.Codegen.Strings.Chains.{not_none, some_injective}
use lua2wasm.Codegen.Strings.Probing.{Holds}
use lua2wasm.Codegen.Strings.Indexing.{Within, Indexed}
use lua2wasm.Codegen.Strings.Regrowth.{strpool_index_put-Inserts}
use lua2wasm.Codegen.Strings.Scanning.{run_inside, not_empty}
use lua2wasm.Codegen.Strings.Hits.{
  IsValid, without_index, slot_for, Adds, Interns, Hit, strpool_index_get-Hit, or_scan-Hit,
  or_scan-without_index,
}

Within-more :
    (n k : ℕ) → n ≤ k → (idx : List (Option StrIdxSlot)) → All (Within n) idx → All (Within k) idx
Within-more n k h [] w = tt
Within-more n k h (none ∷ idx) (first, w) = (tt, Within-more n k h idx w)
Within-more n k h (some s ∷ idx) (first, w) = (omega arith, Within-more n k h idx w)

-- The bytes behind the others, within the capacity, and the index as it was.
record Appends (p : StrPool) (bytes : Bytes) (q : StrPool) : Type 0 where
  appended : q.bytes ≡ p.bytes ++ bytes
  idx_kept : q.idx ≡ p.idx
  valid : IsValid q

appended-Appends :
    (p : StrPool) (bytes : Bytes) (cap : ℕ)
    → Indexed p
    → length p.bytes + length bytes ≤ cap
    → Appends p bytes (record p { bytes = p.bytes ++ bytes; cap = cap })
appended-Appends p bytes cap h fits = record {
  appended = refl;
  idx_kept = refl;
  valid = record {
    indexed = record {
      counted = h.counted;
      load = h.load;
      within =
          Within-more (length p.bytes) (length (p.bytes ++ bytes))
            (omega (arith, length-append p.bytes bytes)) p.idx h.within;
      chained = h.chained;
    };
    fits = omega (arith, length-append p.bytes bytes);
  };
}

append_run-grows :
    (modulus : ℕ) (p : StrPool) (bytes : Bytes) (cap : ℕ)
    → (length p.bytes + length bytes) % modulus ≡ length p.bytes + length bytes
    → ltb p.cap (length p.bytes + length bytes) ≡ true
    → double_cap modulus
        (length p.bytes + length bytes + 1)
        (length p.bytes + length bytes)
        (if p.cap == 0 then 64 else p.cap)
      ≡ some cap
    → append_run modulus p bytes ≡ some (record p { bytes = p.bytes ++ bytes; cap = cap })
unfolding append_run
append_run-grows modulus p bytes cap wrap grows e = rw (wrap, grows, e) refl

append_run-Appends :
    (modulus : ℕ) (p : StrPool) (bytes : Bytes)
    → IsValid p
    → (length p.bytes + length bytes) * 2 + 128 ≤ modulus
    → (q : StrPool) × (append_run modulus p bytes ≡ some q) × Appends p bytes q
unfolding append_run
append_run-Appends modulus p bytes h small =
    let need = length p.bytes + length bytes in
    let wrap : need % modulus ≡ need = mod-eq_of_lt (omega arith) in
    elim (Bool-cases (ltb p.cap need)) [
      | inl grows ↦
          let first = if p.cap == 0 then 64 else p.cap in
          let (cap, e, enough, positive) =
            double_cap_lem modulus (need + 1) need first (ground arith) (omega arith) (ground arith)
              (omega arith) in
          (
            record p { bytes = p.bytes ++ bytes; cap = cap },
            append_run-grows modulus p bytes cap wrap grows e,
            appended-Appends p bytes cap h.indexed enough,
          )
      | inr room ↦ (
        record p { bytes = p.bytes ++ bytes },
        rw (wrap, room) refl,
        appended-Appends p bytes p.cap h.indexed (ground arith),
      )
    ]

record Records (modulus : ℕ) (p : StrPool) (bytes : Bytes) (at : ℕ) (q : StrPool) (r : StrRef)
    : Type 0 where
  bytes_kept : q.bytes ≡ p.bytes
  valid : IsValid q
  held : Adds p (slot_for modulus bytes r.offset) q
  offset : r.offset ≡ at
  len : r.len ≡ length bytes

-- Recording a run that is there.
put_run-Records :
    (modulus : ℕ) (p : StrPool) (bytes : Bytes) (at : ℕ)
    → IsValid p
    → length p.idx * 14 + 1024 ≤ modulus
    → 0 < length bytes
    → run p.bytes at (length bytes) ≡ bytes
    → (q : StrPool) × (r : StrRef) × (put_run modulus p bytes at ≡ some (q, r))
      × Records modulus p bytes at q r
put_run-Records modulus p bytes at h small some_bytes e =
    let slot : StrIdxSlot = record {
      hash = strpool_hash modulus bytes;
      offset = at;
      len = length bytes;
    } in
    let (q, returns, f) =
      strpool_index_put-Inserts modulus p slot small h.indexed
        (run_inside p.bytes bytes at e some_bytes) in
    (
      q,
      record { offset = at; len = length bytes },
      rw returns refl,
      record {
        bytes_kept = f.bytes_kept;
        valid = record {
          indexed = f.indexed;
          fits = omega (arith, ap length f.bytes_kept, f.cap_kept, h.fits);
        };
        held = f.held;
        offset = refl;
        len = refl;
      },
    )

Interns-Records :
    (modulus : ℕ) (p p' : StrPool) (bytes : Bytes) (at : ℕ) (q : StrPool) (r : StrRef)
    → 0 < length bytes
    → run p'.bytes at (length bytes) ≡ bytes
    → p'.bytes ≡ without_index (strpool_scan p.bytes bytes) p.bytes bytes
    → p'.idx ≡ p.idx
    → Records modulus p' bytes at q r
    → Interns modulus p bytes q r
Interns-Records modulus p p' bytes at q r some_bytes reads dedup same_idx f = record {
  len = f.len;
  reads = rw (f.bytes_kept, f.offset, f.len) reads;
  inside = omega (
    arith,
    run_inside p'.bytes bytes at reads some_bytes,
    ap length f.bytes_kept,
    f.offset,
    f.len,
  );
  dedup = f.bytes_kept ∙ dedup;
  held = λ t.
      subst (λ idx. Holds q.idx t ↔ (Holds idx t ⊎ (t ≡ slot_for modulus bytes r.offset))) same_idx
        (f.held t);
  valid = f.valid;
}

-- What strpool_add does with what was found, or not.
add_found-Interns :
    (modulus : ℕ) (p : StrPool) (bytes : Bytes) (o : Option ℕ)
    → IsValid p
    → length p.idx * 14 + 1024 ≤ modulus
    → (length p.bytes + length bytes) * 2 + 128 ≤ modulus
    → 0 < length bytes
    → Hit p.bytes bytes o
    → without_index o p.bytes bytes ≡ without_index (strpool_scan p.bytes bytes) p.bytes bytes
    → (q : StrPool) × (r : StrRef) × (add_found modulus p bytes o ≡ some (q, r))
      × Interns modulus p bytes q r
      × ((k : ℕ) → o ≡ some k → r.offset ≡ k)
add_found-Interns modulus p bytes (some at) h small room some_bytes hit same =
    let (q, r, e, f) = put_run-Records modulus p bytes at h small some_bytes hit in
    (
      q,
      r,
      e,
      Interns-Records modulus p p bytes at q r some_bytes hit same refl f,
      λ k same_at. f.offset ∙ some_injective same_at,
    )
add_found-Interns modulus p bytes none h small room some_bytes hit same =
    let (p', e, f) = append_run-Appends modulus p bytes h room in
    let reads : run p'.bytes (length p.bytes) (length bytes) ≡ bytes =
      ap (λ b. run b (length p.bytes) (length bytes)) f.appended
      ∙ ap (take (length bytes)) (drop-append p.bytes bytes)
      ∙ take_all bytes in
    let (q, r, e', g) =
      put_run-Records modulus p' bytes (length p.bytes) f.valid
        (omega (arith, ap length f.idx_kept)) some_bytes reads in
    (
      q,
      r,
      ap (λ o. o >>= λ p''. put_run modulus p'' bytes (length p.bytes)) e ∙ e',
      Interns-Records modulus p p' bytes (length p.bytes) q r some_bytes reads (f.appended ∙ same)
          f.idx_kept g,
      λ k same_at. absurd (not_none same_at refl),
    )

-- strpool_add with the answer of the index.
pub strpool_add-Indexed :
    (modulus : ℕ) (p : StrPool) (bytes : Bytes)
    → IsValid p
    → length p.idx * 14 + 1024 ≤ modulus
    → (length p.bytes + length bytes) * 2 + 128 ≤ modulus
    → 0 < length bytes
    → (hit : Option ℕ) × (strpool_index_get p (strpool_hash modulus bytes) bytes ≡ some hit)
      × (q : StrPool) × (r : StrRef) × (strpool_add modulus p bytes ≡ some (q, r))
      × Interns modulus p bytes q r
      × ((k : ℕ) → hit ≡ some k → r.offset ≡ k)
unfolding strpool_add
strpool_add-Indexed modulus p bytes h small room some_bytes =
    let (hit, e, hit_ok) = strpool_index_get-Hit p (strpool_hash modulus bytes) bytes h.indexed in
    let (q, r, e', f, at) =
      add_found-Interns modulus p bytes (or_scan hit p.bytes bytes) h small room some_bytes
        (or_scan-Hit hit p.bytes bytes some_bytes hit_ok)
        (or_scan-without_index hit p.bytes bytes some_bytes hit_ok) in
    (
      hit,
      e,
      q,
      r,
      rw (not_empty (length bytes) some_bytes, e) e',
      f,
      λ k same. at k (ap (λ o. or_scan o p.bytes bytes) same),
    )

-- On a valid pool, with room below size_t for the index and the bytes, strpool_add of a run that
-- is not empty returns: its probes, and the growth of the index, end. The answer refers to the
-- run's bytes, within the pool; the pool's bytes are those of the version without the index, which
-- appends exactly where the scan misses; and the pool is valid again: the index counts its slots,
-- keeps free ones, and refers within the bytes, which are within their capacity.
pub strpool_add-Interns :
    (modulus : ℕ) (p : StrPool) (bytes : Bytes)
    → IsValid p
    → length p.idx * 14 + 1024 ≤ modulus
    → (length p.bytes + length bytes) * 2 + 128 ≤ modulus
    → 0 < length bytes
    → (q : StrPool) × (r : StrRef) × (strpool_add modulus p bytes ≡ some (q, r))
      × Interns modulus p bytes q r
strpool_add-Interns modulus p bytes h small room some_bytes =
    let (hit, e, q, r, e', f, at) = strpool_add-Indexed modulus p bytes h small room some_bytes in
    (q, r, e', f)
