-- ===== src/Builtins/Lookup.antt =====
-- lookup_builtin finds the names of the table, each at its own row.
use lua2wasm.Prelude.{
  ℕ, zero, suc, ◌+◌, ◌-◌, ◌≤◌, Bytes, List, length, take, take_all, length-take, ◌↔◌, Bool, true,
  false, not, ◌&&◌, ◌||◌, ◌==◌, [], ◌∷◌, Option, none, some, ◌≡◌, refl, arith, inl, inr, Bool-cases,
  sym, ◌∙◌,
}
use lua2wasm.Freestanding.Mem.{peek, memcmp, memcmp-zero, memcmp-take, is_zero}
use lua2wasm.Builtins.{is_toplevel, Builtin, builtins, row_at, answers, lookup_from, lookup_builtin}

-- A row that user code can name.
abbrev pub IsVisible : Builtin → Type 0
IsVisible b = (is_toplevel b.cls ≡ true) × ((peek b.name == b'_') ≡ false)

answers_lem :
    (b : Builtin) (name : Bytes) (len : ℕ)
    → answers b name len ≡ true
    → IsVisible b × (b.len ≡ len) × (is_zero (memcmp b.name name len) ≡ true)
unfolding answers
answers_lem b name len h = ground arith

-- The lengths of the table are those of its names.
lens : List Builtin → Bool
lens [] = true
lens (b ∷ bs) = b.len == length b.name && lens bs

lens-row_at :
    (bs : List Builtin) (i : ℕ) {b : Builtin}
    → lens bs ≡ true
    → row_at bs i ≡ some b
    → b.len ≡ length b.name
unfolding lens row_at
lens-row_at [] i h e = cc
lens-row_at (c ∷ bs) zero h e = ground arith
lens-row_at (c ∷ bs) (suc i) h e = lens-row_at bs i (ground arith) e

lookup_from_sound :
    (bs : List Builtin) (k : ℕ) (name : Bytes) (len : ℕ) {i : ℕ}
    → lookup_from bs k name len ≡ some i
    → (b : Builtin) × (k ≤ i) × (row_at bs (i - k) ≡ some b) × (answers b name len ≡ true)
unfolding lookup_from row_at
lookup_from_sound [] k name len e = cc
lookup_from_sound (b ∷ bs) k name len {i = i} e = elim (Bool-cases (answers b name len)) [
  | inl a ↦
      let same : k ≡ i = ground arith in
      let z : i - k ≡ 0 = omega arith in (b, omega arith, rw z, a)
  | inr a ↦
      let (c, le, at, found) = lookup_from_sound bs (k + 1) name len (rw a at e) in
      let s : i - k ≡ suc (i - (k + 1)) = omega arith in (c, omega arith, rw s at, found)
]

builtins-lens : lens builtins ≡ true
unfolding lens builtins
builtins-lens = refl

lookup_sound :
    (name : Bytes) (len : ℕ) {i : ℕ}
    → len ≤ length name
    → lookup_builtin name len ≡ some i
    → (b : Builtin) × (row_at builtins i ≡ some b) × IsVisible b × (take len name ≡ b.name)
unfolding lookup_builtin
lookup_sound name len {i = i} h e =
    let (b, le, at, a) = lookup_from_sound builtins 0 name len e in
    let at' : row_at builtins i ≡ some b = let z : i - 0 ≡ i = omega arith in rw z at at in
    let (visible, size, bytes) = answers_lem b name len a in
    let own = lens-row_at builtins i builtins-lens at' in
    let fits : len ≤ length b.name = omega arith in
    let same = (memcmp-zero len b.name name fits h).0 bytes in
    let all : len ≡ length b.name = omega arith in
    (b, at', visible, sym same ∙ rw all (take_all b.name))

is_some_index : ℕ → Option ℕ → Bool
is_some_index i none = false
is_some_index i (some j) = i == j

index_is : (i : ℕ) (o : Option ℕ) → is_some_index i o ≡ true → o ≡ some i
unfolding is_some_index
index_is i none h = cc
index_is i (some j) h = ground arith

-- Every visible row of the table, from index `i` on, is found under its own name.
found_at : List Builtin → ℕ → Bool
found_at [] i = true
found_at (b ∷ bs) i =
    (not (is_toplevel b.cls)
      || peek b.name == b'_'
      || is_some_index i (lookup_builtin b.name b.len))
    && found_at bs (i + 1)

builtins-found_at : found_at builtins 0 ≡ true
unfolding found_at builtins lookup_builtin lookup_from answers memcmp is_some_index
builtins-found_at = refl

found_at-row_at :
    (bs : List Builtin) (i k : ℕ) {b : Builtin}
    → found_at bs k ≡ true
    → row_at bs i ≡ some b
    → IsVisible b
    → lookup_builtin b.name b.len ≡ some (k + i)
unfolding found_at row_at
found_at-row_at [] i k h e v = cc
found_at-row_at (c ∷ bs) zero k {b = b} h e v =
    let same : c ≡ b = cc in
    let z : k + 0 ≡ k = omega arith in
    rw z (index_is k (lookup_builtin b.name b.len) (ground arith))
found_at-row_at (c ∷ bs) (suc i) k h e v =
    let n : k + 1 + i ≡ k + suc i = omega arith in
    rw n at (found_at-row_at bs i (k + 1) (ground arith) e v)

-- Only the span itself is compared.
answers-take :
    (b : Builtin) (name : Bytes) (len : ℕ) → answers b (take len name) len ≡ answers b name len
unfolding answers
answers-take b name len = rw (memcmp-take len b.name name)

lookup_from-take :
    (bs : List Builtin) (k : ℕ) (name : Bytes) (len : ℕ)
    → lookup_from bs k (take len name) len ≡ lookup_from bs k name len
unfolding lookup_from
lookup_from-take [] k name len = refl
lookup_from-take (b ∷ bs) k name len =
    rw (answers-take b name len, lookup_from-take bs (k + 1) name len)

lookup_builtin-take :
    (name : Bytes) (len : ℕ) → lookup_builtin (take len name) len ≡ lookup_builtin name len
unfolding lookup_builtin
lookup_builtin-take name len = lookup_from-take builtins 0 name len

lookup_complete :
    (name : Bytes) (len i : ℕ) (b : Builtin)
    → len ≤ length name
    → row_at builtins i ≡ some b
    → IsVisible b
    → take len name ≡ b.name
    → lookup_builtin name len ≡ some i
lookup_complete name len i b h at v e =
    let z : 0 + i ≡ i = omega arith in
    let found : lookup_builtin b.name b.len ≡ some i =
      rw z at (found_at-row_at builtins i 0 builtins-found_at at v) in
    let size : length b.name ≡ len = rw (← e) (length-take len name h) in
    let own : b.len ≡ len = lens-row_at builtins i builtins-lens at ∙ size in
    sym (lookup_builtin-take name len) ∙ rw e (rw own at found)

-- For a span of the source, lookup_builtin answers an index exactly if the row there is one that
-- user code can name, a top-level function with no leading underscore, and its name is the span.
pub lookup_builtin_iff :
    (name : Bytes) (len i : ℕ)
    → len ≤ length name
    → (lookup_builtin name len ≡ some i)
      ↔ ((b : Builtin) × (row_at builtins i ≡ some b) × IsVisible b × (take len name ≡ b.name))
lookup_builtin_iff name len i h =
    (λ e. lookup_sound name len h e, λ (b, at, v, e). lookup_complete name len i b h at v e)
