-- ===== src/Codegen/Constants/Declared.antt =====
-- The list of hoisted constants names each once, and within the pool.
use lua2wasm.Prelude.{
  ◌==◌, ◌&&◌, ℕ, ◌+◌, ◌≤◌, Bytes, length, length-append, List, [], ◌∷◌, ◌++◌, Bool, true, false,
  All, All-append, Option, none, some, ◌≡◌, inl, inr, refl, ap, sym, ◌∙◌, if◌then◌else◌, equal,
  equal-eq, Bool-cases, arith,
}
use mathlib.Core.List.{Memᴰ}
use mathlib.Core.List.Memᴰ
use lua2wasm.Wat.Buf.{◌>>=◌}
use lua2wasm.Codegen.Strings.{StrPool, StrRef, run, strpool_scan}
use lua2wasm.Codegen.Strings.Chains.{some_injective}
use lua2wasm.Codegen.Strings.Scanning.{not_empty}
use lua2wasm.Codegen.Strings.Lookup.{Stable, extends}
use lua2wasm.Codegen.Strings.Stable.{HasSpace, strpool_add-Keeps}
use lua2wasm.Codegen.Constants.{
  Kstrs, KstrName, fixed, hoisted, mkeys, find_mkey, is_listed, register, hoist, kstr_name,
}

abbrev pub Inside : StrPool → StrRef → Type 0
Inside p r = r.offset + r.len ≤ length p.bytes

-- No reference comes a second time.
abbrev pub Once : List StrRef → Type 0
Once [] = Unit
Once (r ∷ list) = (¬ Memᴰ r list) × Once list

pub record IsDeclared (modulus : ℕ) (k : Kstrs) : Type 0 where
  pub stable : Stable modulus k.pool
  pub inside : All (Inside k.pool) k.list
  pub once : Once k.list

same_ref : (s r : StrRef) → (s.offset == r.offset && s.len == r.len) ≡ true → s ≡ r
same_ref s r e =
    let offsets : s.offset ≡ r.offset = ground arith in
    let lens : s.len ≡ r.len = ground arith in λ i. record { offset = offsets i; len = lens i }

is_listed-Memᴰ : (list : List StrRef) (r : StrRef) → is_listed list r ≡ true → Memᴰ r list
is_listed-Memᴰ [] r e = absurd (ground arith)
is_listed-Memᴰ (s ∷ list) r e = elim (Bool-cases (s.offset == r.offset && s.len == r.len)) [
  | inl same ↦ Memᴰ.head (sym (same_ref s r same))
  | inr other ↦ Memᴰ.tail (is_listed-Memᴰ list r (rw other at e))
]

unlisted : (list : List StrRef) (r : StrRef) → is_listed list r ≡ false → ¬ Memᴰ r list
unlisted [] r e = Memᴰ.not-nil
unlisted (s ∷ list) r e = λ m. elim (Memᴰ.cases_cons m) [
  | inl same ↦
      let offsets : s.offset ≡ r.offset = ap (λ t. t.offset) (sym same) in
      let lens : s.len ≡ r.len = ap (λ t. t.len) (sym same) in ground arith
  | inr before ↦ unlisted list r (ground arith) before
]

Once-append :
    (list : List StrRef) (r : StrRef) → Once list → (¬ Memᴰ r list) → Once (list ++ r ∷ [])
Once-append [] r h g = (Memᴰ.not-nil, tt)
Once-append (s ∷ list) r (new, h) g = (
  λ m. elim (Memᴰ.append_cases list m) [
    | inl before ↦ new before
    | inr last ↦ elim (Memᴰ.cases_cons last) [
      | inl same ↦ g (Memᴰ.head (sym same))
      | inr none_left ↦ Memᴰ.not-nil none_left
    ]
  ],
  Once-append list r h (λ m. g (Memᴰ.tail m)),
)

listed_last : (list : List StrRef) (r : StrRef) → Memᴰ r (list ++ r ∷ [])
listed_last [] r = Memᴰ.head refl
listed_last (s ∷ list) r = Memᴰ.tail (listed_last list r)

-- Registering a reference lists it, and keeps each listed once.
Once-register :
    (list : List StrRef) (r : StrRef)
    → Once list
    → Once (register list r) × Memᴰ r (register list r)
Once-register list r h = go (is_listed list r) refl
  where
    go :
        (b : Bool)
        → is_listed list r ≡ b
        → Once (if b then list else list ++ r ∷ []) × Memᴰ r (if b then list else list ++ r ∷ [])
    go true e = (h, is_listed-Memᴰ list r e)
    go false e = (Once-append list r h (unlisted list r e), listed_last list r)

Inside-register :
    (p : StrPool) (list : List StrRef) (r : StrRef)
    → All (Inside p) list
    → Inside p r
    → All (Inside p) (register list r)
Inside-register p list r h g = go (is_listed list r)
  where
    go : (b : Bool) → All (Inside p) (if b then list else list ++ r ∷ [])
    go true = h
    go false = All-append (Inside p) list (r ∷ []) h (g, tt)

Inside-more :
    (p q : StrPool)
    → length p.bytes ≤ length q.bytes
    → (list : List StrRef) → All (Inside p) list
    → All (Inside q) list
Inside-more p q h [] g = tt
Inside-more p q h (r ∷ list) (first, g) = (omega arith, Inside-more p q h list g)

find_mkey-some :
    (keys : List (Bytes × Bytes)) (bytes name : Bytes)
    → find_mkey keys bytes ≡ some name
    → Memᴰ (name, bytes) keys
find_mkey-some [] bytes name e = cc
find_mkey-some ((name', key) ∷ keys) bytes name e = elim (Bool-cases (equal key bytes)) [
  | inl same ↦
      let names : some name' ≡ some name = rw same at e in
      Memᴰ.head (λ i. (some_injective (sym names) i, sym (equal-eq key bytes same) i))
  | inr other ↦ Memᴰ.tail (find_mkey-some keys bytes name (rw other at e))
]

-- What the name of a constant stands for.
abbrev pub Names : Kstrs → Bytes → KstrName → Type 0
Names k bytes (fixed name) = Memᴰ (name, bytes) mkeys
Names k bytes (hoisted r) = Memᴰ r k.list × (run k.pool.bytes r.offset r.len ≡ bytes)

abbrev pub Declares : ℕ → Bytes → Option (Kstrs × KstrName) → Type 0
Declares modulus bytes o =
    (k : Kstrs) × (n : KstrName) × (o ≡ some (k, n)) × IsDeclared modulus k × Names k bytes n

hoist-Declares :
    (modulus : ℕ) (k : Kstrs) (bytes : Bytes)
    → IsDeclared modulus k
    → HasSpace modulus k.pool bytes
    → Declares modulus bytes (hoist modulus k bytes)
hoist-Declares modulus k bytes h space =
    let (q, r, e, f) = strpool_add-Keeps modulus k.pool bytes h.stable space in
    let (more, grown) = extends (strpool_scan k.pool.bytes bytes) k.pool.bytes bytes in
    let longer : length k.pool.bytes ≤ length q.bytes =
      omega (arith, ap length (f.interns.dedup ∙ grown), length-append k.pool.bytes more) in
    let (once, listed) = Once-register k.list r h.once in
    (
      record { pool = q; list = register k.list r },
      hoisted r,
      ap (λ o. o >>= λ (p, s). some (record { pool = p; list = register k.list s }, hoisted s)) e,
      record {
        stable = f.stable;
        inside =
            Inside-register q k.list r (Inside-more k.pool q longer k.list h.inside)
              f.interns.inside;
        once = once;
      },
      (listed, f.interns.reads),
    )

-- From a state whose pool is stable and whose list names references within it, none of them twice,
-- the name of a constant that is not empty is returned, with room below size_t, and the state is
-- such a one again: either the name is that of the fixed global for these very bytes, or the
-- reference is a member of the list, so that it is declared, and the bytes of the pool there,
-- which its declaration writes, are the constant's.
pub kstr_name-Declares :
    (modulus : ℕ) (k : Kstrs) (bytes : Bytes)
    → IsDeclared modulus k
    → HasSpace modulus k.pool bytes
    → Declares modulus bytes (kstr_name modulus k bytes)
unfolding kstr_name
kstr_name-Declares modulus k bytes h space =
    rw (not_empty (length bytes) space.not_empty) (chosen (find_mkey mkeys bytes) refl)
  where
    chosen :
        (o : Option Bytes)
        → find_mkey mkeys bytes ≡ o
        → Declares modulus bytes (elim o as (λ _. Option (Kstrs × KstrName)) [
          | some name ↦ some (k, fixed name)
          | none ↦ hoist modulus k bytes
        ])
    chosen none e = hoist-Declares modulus k bytes h space
    chosen (some name) e = (k, fixed name, refl, h, find_mkey-some mkeys bytes name e)
